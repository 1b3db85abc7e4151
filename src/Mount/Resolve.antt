-- ===== src/Mount/Resolve.antt =====
-- os_mount_resolve of src/c/mount.c: which entry of the mount list a path belongs to.
use isiki.Prelude.{
  ℕ, ◌-◌, ◌≤◌, ◌<◌, ◌≡◌, ◌⊎◌, inl, inr, refl, ap, ◌∙◌, false, Option, none, some, List, [], ◌∷◌,
  ◌++◌, arith, ltb, ltb→lt, ltb→ge, if◌then◌else◌, Option-cases, if_cases, length, take, drop, All,
  All-append, All-map,
}
use mathlib.Core.Path.{subst}
use mathlib.Core.List.{append_assoc}
use isiki.Mount.{
  mount_9p_prefix, MountKind, p9, kind_of, Entry, until_nul, os_string_to_cstr, stream_path_max,
  mount_path_match_len, Best, best, is_longer, is_slash, try_path, try_kind, try_entry, try_entries,
  try_9p, Resolved, resolved, resolve_best, os_mount_resolve,
}
use isiki.Mount.Matches.{IsUnder, match_len-some, match_len-none}

-- What may be chosen for a path: a mount path, its kind, and its device.
pub record Candidate : Type 0 where
  pub mount_path : List ℕ
  pub kind : MountKind
  pub device : Option ℕ

abbrev pub candidate : List ℕ → MountKind → Option ℕ → Candidate
candidate mount_path kind device = record { mount_path = mount_path; kind = kind; device = device }

abbrev of_kind : Option MountKind → Entry → Option Candidate
of_kind none e = none
of_kind (some kind) e =
    some
      (candidate (until_nul (os_string_to_cstr e.mount_path stream_path_max)) kind (some e.device))

abbrev with_entry : Option Candidate → List Candidate → List Candidate
with_entry none cs = cs
with_entry (some c) cs = c ∷ cs

-- The entries of a FAT file system in their order, and /9p behind them.
abbrev pub candidates : List Entry → List Candidate
candidates [] = candidate mount_9p_prefix p9 none ∷ []
candidates (e ∷ entries) = with_entry (of_kind (kind_of e.fs_type) e) (candidates entries)

abbrev Shorter : List ℕ → ℕ → Candidate → Type 0
Shorter path n c = IsUnder c.mount_path path → length c.mount_path < n

abbrev NotLonger : List ℕ → ℕ → Candidate → Type 0
NotLonger path n c = IsUnder c.mount_path path → length c.mount_path ≤ n

-- The first of the longest mount paths that a path is under.
pub record IsLongest (path : List ℕ) (cs : List Candidate) (c : Candidate) : Type 0 where
  pub before : List Candidate
  pub after : List Candidate
  pub at : cs ≡ before ++ c ∷ after
  pub under : IsUnder c.mount_path path
  pub shorter : All (Shorter path (length c.mount_path)) before
  pub not_longer : All (NotLonger path (length c.mount_path)) after

-- The path that a mount is asked for: the root keeps it, the others cut their own path off.
abbrev pub relative_to : List ℕ → List ℕ → List ℕ
relative_to mount_path path = if is_slash mount_path then path else drop (length mount_path) path

abbrev pub IsResolved : List Entry → List ℕ → ℕ → Option Resolved → Type 0
IsResolved mounts path cap none = All (λ c. ¬ IsUnder c.mount_path path) (candidates mounts)
IsResolved mounts path cap (some r) =
    (c : Candidate) × IsLongest path (candidates mounts) c
    × (r ≡ resolved c.kind (take (cap - 1) (relative_to c.mount_path path)) c.device)

abbrev best_of : Candidate → Best
best_of c = best (some (length c.mount_path)) (is_slash c.mount_path) (some c.kind) c.device

-- What the loop knows behind the candidates `done`.
abbrev Chosen : List ℕ → List Candidate → Best → Type 0
Chosen path done b =
    ((b ≡ best none false none none) × All (λ c. ¬ IsUnder c.mount_path path) done)
    ⊎ ((c : Candidate) × IsLongest path done c × (b ≡ best_of c))

abbrev try_candidate : List ℕ → Candidate → Best → Best
try_candidate path c b = try_path c.mount_path path (some c.kind) c.device b

weaker :
    (path : List ℕ) (n k : ℕ) (cs : List Candidate)
    → n < k
    → All (NotLonger path n) cs
    → All (Shorter path k) cs
weaker path n k cs h all =
    All-map (NotLonger path n) (Shorter path k) (λ c f under. le_lt (f under)) cs all
  where
    le_lt : {i : ℕ} → i ≤ n → i < k
    le_lt f = omega arith

-- A candidate that is not longer goes behind the chosen one.
behind :
    (path : List ℕ) (done : List Candidate) (c d : Candidate)
    → NotLonger path (length d.mount_path) c
    → IsLongest path done d
    → IsLongest path (done ++ c ∷ []) d
behind path done c d h l = record {
  before = l.before;
  after = l.after ++ c ∷ [];
  at = ap (λ (t : List Candidate). t ++ c ∷ []) l.at ∙ append_assoc l.before (d ∷ l.after) (c ∷ []);
  under = l.under;
  shorter = l.shorter;
  not_longer =
      All-append (NotLonger path (length d.mount_path)) l.after (c ∷ []) l.not_longer (h, tt);
}

-- A longer candidate takes the place of the chosen one.
instead :
    (path : List ℕ) (done : List Candidate) (c : Candidate)
    → IsUnder c.mount_path path
    → All (Shorter path (length c.mount_path)) done
    → IsLongest path (done ++ c ∷ []) c
instead path done c under h = record {
  before = done;
  after = [];
  at = refl;
  under = under;
  shorter = h;
  not_longer = tt;
}

longest_first :
    (path : List ℕ) (done : List Candidate) (d : Candidate) (k : ℕ)
    → length d.mount_path < k
    → IsLongest path done d
    → All (Shorter path k) done
longest_first path done d k h l = rw l.at (
    All-append (Shorter path k) l.before (d ∷ l.after)
      (All-map (Shorter path (length d.mount_path)) (Shorter path k) (λ c f under. lt_lt (f under))
        l.before l.shorter)
      ((λ _. h), weaker path (length d.mount_path) k l.after h l.not_longer))
  where
    lt_lt : {i : ℕ} → i < length d.mount_path → i < k
    lt_lt f = omega arith

try_candidate-Chosen :
    (path : List ℕ) (done : List Candidate) (c : Candidate) (b : Best)
    → Chosen path done b
    → Chosen path (done ++ c ∷ []) (try_candidate path c b)
unfolding try_path
try_candidate-Chosen path done c b chosen =
    elim (Option-cases (mount_path_match_len c.mount_path path)) [
      | inl e ↦ rw e (unmatched (match_len-none c.mount_path path e) chosen)
      | inr (n, e) ↦
          let (size, under) = match_len-some c.mount_path path n e in
          rw (e, size) (matched under chosen)
    ]
  where
    unmatched :
        (IsUnder c.mount_path path → ⊥) → Chosen path done b → Chosen path (done ++ c ∷ []) b
    unmatched apart (inl (e, none_under)) =
        inl (e, All-append (λ c. ¬ IsUnder c.mount_path path) done (c ∷ []) none_under (apart, tt))
    unmatched apart (inr (d, l, e)) =
        inr (d, behind path done c d (λ under. absurd (apart under)) l, e)

    matched :
        IsUnder c.mount_path path
        → Chosen path done b
        → Chosen path
            (done ++ c ∷ [])
            (if is_longer (some (length c.mount_path)) b.len then best_of c else b)
    matched under (inl (e, none_under)) = rw e (
        inr (
          c,
          instead path done c under (
              All-map (λ x. ¬ IsUnder x.mount_path path) (Shorter path (length c.mount_path))
                (λ x apart at. absurd (apart at)) done none_under),
          refl,
        ))
    matched under (inr (d, l, e)) = rw e (
        if_cases (Chosen path (done ++ c ∷ [])) (ltb (length d.mount_path) (length c.mount_path)) _
          _
          (λ f. inr (
            c,
            instead path done c under (
                longest_first path done d (length c.mount_path)
                  (ltb→lt (length d.mount_path) (length c.mount_path) f) l),
            refl,
          ))
          (λ f. inr (
            d,
            behind path done c d (λ _. ltb→ge (length d.mount_path) (length c.mount_path) f) l,
            refl,
          )))

-- An entry of either sort in front of entries that are known.
kind-Chosen :
    (path : List ℕ) (done : List Candidate) (e : Entry) (entries : List Entry) (b : Best)
    → ((done' : List Candidate) (b' : Best)
        → Chosen path done' b'
        → Chosen path (done' ++ candidates entries) (try_9p path (try_entries path entries b')))
    → Chosen path done b
    → (k : Option MountKind)
    → Chosen path
        (done ++ with_entry (of_kind k e) (candidates entries))
        (try_9p path (try_entries path entries (try_kind path k e.mount_path e.device b)))
unfolding try_kind
kind-Chosen path done e entries b rest chosen none = rest done b chosen
kind-Chosen path done e entries b rest chosen (some kind) =
    let name : List ℕ = until_nul (os_string_to_cstr e.mount_path stream_path_max) in
    let c : Candidate = candidate name kind (some e.device) in
    subst (λ cs. Chosen path cs (try_9p path (try_entries path entries (try_candidate path c b))))
      (append_assoc done (c ∷ []) (candidates entries))
      (rest (done ++ c ∷ []) (try_candidate path c b) (try_candidate-Chosen path done c b chosen))

entries-Chosen :
    (path : List ℕ) (done : List Candidate) (entries : List Entry) (b : Best)
    → Chosen path done b
    → Chosen path (done ++ candidates entries) (try_9p path (try_entries path entries b))
unfolding try_entries try_9p try_path try_entry
entries-Chosen path done [] b chosen =
    try_candidate-Chosen path done (candidate mount_9p_prefix p9 none) b chosen
entries-Chosen path done (e ∷ entries) b chosen =
    kind-Chosen path done e entries b (λ done' b'. entries-Chosen path done' entries b') chosen
      (kind_of e.fs_type)

-- The chosen one is handed out, with the path that is left.
resolve_best-IsResolved :
    (mounts : List Entry) (path : List ℕ) (cap : ℕ) (b : Best)
    → Chosen path (candidates mounts) b
    → IsResolved mounts path cap (resolve_best path cap b)
unfolding resolve_best
resolve_best-IsResolved mounts path cap b (inl (e, none_under)) = rw e none_under
resolve_best-IsResolved mounts path cap b (inr (c, l, e)) = rw e (c, l, refl)

-- A path is resolved to the first of the longest mount paths that it is under, among those of the FAT
-- file systems, cut to 255 bytes, and /9p, which comes last; what is handed out is its kind, its device, and the path
-- without the mount path, or the whole path for the root, cut to the buffer. There is none exactly if
-- the path is under none of them.
pub os_mount_resolve-IsResolved :
    (mounts : List Entry) (path : List ℕ) (cap : ℕ)
    → IsResolved mounts path cap (os_mount_resolve mounts path cap)
unfolding os_mount_resolve
os_mount_resolve-IsResolved mounts path cap =
    resolve_best-IsResolved mounts path cap _
      (entries-Chosen path [] mounts (best none false none none) (inl (refl, tt)))
