-- ===== src/Mount/Matches.antt =====
-- mount_path_match_len of src/c/mount.c: when a mount path begins a path.
use isiki.Prelude.{
  ℕ, suc, ◌+◌, ◌≡◌, ◌⊎◌, inl, inr, refl, ap, ◌∙◌, Bool, true, false, ◌&&◌, Option, none, some, List,
  [], ◌∷◌, ◌++◌, arith, ◌==◌, ==→eq, if◌then◌else◌, Bool-cases, if_rule, length, get_or,
}
use isiki.Mount.{slash, match_end, match_loop, mount_path_match_len}

-- A mount path begins a path at a boundary: the path ends behind it, or goes on with a slash, or the
-- mount path is the root.
abbrev AtBoundary : List ℕ → List ℕ → Type 0
AtBoundary mount_path rest =
    (mount_path ≡ slash ∷ []) ⊎ ((rest ≡ []) ⊎ ((cs : List ℕ) × (rest ≡ slash ∷ cs)))

abbrev pub IsUnder : List ℕ → List ℕ → Type 0
IsUnder mount_path path = (rest : List ℕ) × (path ≡ mount_path ++ rest) × AtBoundary mount_path rest

same : (m : ℕ) → (m == m) ≡ true
same m = ground arith

match_loop-append :
    (i : ℕ) (first : Bool) (ms rest : List ℕ)
    → match_loop i first ms (ms ++ rest) ≡ match_end (i + length ms) first rest
unfolding match_loop
match_loop-append i first [] rest = ap (λ (n : ℕ). match_end n first rest) (omega arith)
match_loop-append i first (m ∷ ms) rest =
    rw (same m) (
      match_loop-append (suc i) first ms rest
      ∙ ap (λ (n : ℕ). match_end n first rest) (omega arith))

match_loop-some :
    (i : ℕ) (first : Bool) (ms path : List ℕ) (n : ℕ)
    → match_loop i first ms path ≡ some n
    → (rest : List ℕ) × (path ≡ ms ++ rest) × (match_end (i + length ms) first rest ≡ some n)
unfolding match_loop
match_loop-some i first [] path n h =
    (path, refl, ap (λ (k : ℕ). match_end k first path) (omega arith) ∙ h)
match_loop-some i first (m ∷ ms) [] n h = cc
match_loop-some i first (m ∷ ms) (c ∷ cs) n h = elim (Bool-cases (c == m)) [
  | inl e ↦
      let (rest, at, ending) = match_loop-some (suc i) first ms cs n (rw e at h) in
      (
        rest,
        ap (λ (k : ℕ). k ∷ cs) (==→eq c m e) ∙ ap (λ (t : List ℕ). m ∷ t) at,
        ap (λ (k : ℕ). match_end k first rest) (omega arith) ∙ ending,
      )
  | inr e ↦ absurd (no_match (c == m) e h)
]
  where
    no_match :
        (b : Bool) → b ≡ false → (if b then match_loop (suc i) first ms cs else none) ≡ some n → ⊥
    no_match true e h = cc
    no_match false e h = cc

root : (m : List ℕ) → ((length m == 1) && (get_or m 0 0 == slash)) ≡ true → m ≡ slash ∷ []
root [] e = ground arith
root (c ∷ []) e = ap (λ (k : ℕ). k ∷ []) (==→eq c slash e)
root (c ∷ d ∷ ms) e = absurd (longer_path (length ms) e)
  where
    longer_path : (n : ℕ) → ((suc (suc n) == 1) && (c == slash)) ≡ true → ⊥
    longer_path n e = ground arith

match_end-boundary :
    (m rest : List ℕ)
    → AtBoundary m rest
    → match_end (length m) (get_or m 0 0 == slash) rest ≡ some (length m)
unfolding match_end
match_end-boundary m [] boundary = refl
match_end-boundary m (c ∷ cs) (inl root) = rw root refl
match_end-boundary m (c ∷ cs) (inr (inl e)) = cc
match_end-boundary m (c ∷ cs) (inr (inr (ds, e))) = rw (ap (λ (t : List ℕ). get_or t 0 0) e) (
    if_rule (λ (o : Option ℕ). o ≡ some (length m)) ((length m == 1) && (get_or m 0 0 == slash)) _ _
      refl refl)

match_end-some :
    (m rest : List ℕ) (n : ℕ)
    → match_end (length m) (get_or m 0 0 == slash) rest ≡ some n
    → (n ≡ length m) × AtBoundary m rest
unfolding match_end
match_end-some m [] n h = (cc, inr (inl refl))
match_end-some m (c ∷ cs) n h = elim (Bool-cases ((length m == 1) && (get_or m 0 0 == slash))) [
  | inl e ↦ (of_some (rw e at h), inl (root m e))
  | inr e ↦ elim (Bool-cases (c == slash)) [
    | inl f ↦ (of_some (rw (e, f) at h), inr (inr (cs, ap (λ (k : ℕ). k ∷ cs) (==→eq c slash f))))
    | inr f ↦ absurd (no_end (rw (e, f) at h))
  ]
]
  where
    of_some : some (length m) ≡ some n → n ≡ length m
    of_some e = cc

    no_end : none ≡ some n → ⊥
    no_end e = cc

pub match_len-under :
    (m path : List ℕ) → IsUnder m path → mount_path_match_len m path ≡ some (length m)
unfolding mount_path_match_len
match_len-under m path (rest, e, boundary) =
    ap (λ (t : List ℕ). mount_path_match_len m t) e
    ∙ match_loop-append 0 (get_or m 0 0 == slash) m rest
    ∙ ap (λ (k : ℕ). match_end k (get_or m 0 0 == slash) rest) (omega arith)
    ∙ match_end-boundary m rest boundary

pub match_len-some :
    (m path : List ℕ) (n : ℕ)
    → mount_path_match_len m path ≡ some n
    → (n ≡ length m) × IsUnder m path
unfolding mount_path_match_len
match_len-some m path n h =
    let (rest, at, ending) = match_loop-some 0 (get_or m 0 0 == slash) m path n h in
    let (size, boundary) =
      match_end-some m rest n
        (ap (λ (k : ℕ). match_end k (get_or m 0 0 == slash) rest) (omega arith) ∙ ending) in
    (size, (rest, at, boundary))

pub match_len-none : (m path : List ℕ) → mount_path_match_len m path ≡ none → IsUnder m path → ⊥
match_len-none m path e under = absurd (differ (match_len-under m path under))
  where
    differ : mount_path_match_len m path ≡ some (length m) → ⊥
    differ f = cc
