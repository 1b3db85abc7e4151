-- ===== src/Virtio9p/Path.antt =====
-- The path that src/c/virtio9p.c splits for Twalk.
use isiki.Prelude.{
  ℕ, zero, suc, ◌+◌, ◌≤◌, ◌<◌, ◌≡◌, ◌≢◌, refl, ap, ◌∙◌, ◌⊎◌, inl, inr, Bool, true, false, List, [],
  ◌∷◌, ◌++◌, arith, ltb, ◌==◌, ==→eq, ==→ne, if◌then◌else◌, length, All, Bool-cases,
}
use isiki.P9.{Text}
use isiki.Virtio9p.Strings.{slash, max_path_components, in_front, split_loop, split_path}
use isiki.Virtio9p.{parents}

-- The components with a slash between them.
abbrev pub join : List Text → Text
join [] = []
join (name ∷ []) = name
join (name ∷ more ∷ names) = name ++ (slash ∷ join (more ∷ names))

abbrev pub NoSlash : Text → Type 0
NoSlash name = All (λ (c : ℕ). c ≢ slash) name

-- A path less the slash that it starts with.
abbrev pub relative : Text → Text
relative [] = []
relative (c ∷ rest) = if c == slash then rest else c ∷ rest

-- The components of p, with room for n of them.
pub record IsSplit (n : ℕ) (p : Text) (names : List Text) : Type 0 where
  pub some_name : 0 < length names
  pub few : length names ≤ n
  pub joined : join names ≡ p
  pub clean : All NoSlash (parents names)
  pub last_clean : (length names ≡ n) ⊎ All NoSlash names

join-in_front :
    (c : ℕ) (names : List Text) → 0 < length names → join (in_front c names) ≡ c ∷ join names
join-in_front c [] h = absurd (omega arith)
join-in_front c (name ∷ []) h = refl
join-in_front c (name ∷ more ∷ names) h = refl

length-in_front : (c : ℕ) (names : List Text) → length (in_front c names) ≡ length names
length-in_front c [] = refl
length-in_front c (name ∷ names) = refl

parents-in_front :
    (c : ℕ) (names : List Text)
    → c ≢ slash
    → All NoSlash (parents names)
    → All NoSlash (parents (in_front c names))
parents-in_front c [] h k = tt
parents-in_front c (name ∷ []) h k = tt
parents-in_front c (name ∷ more ∷ names) h k = ((h, k.0), k.1)

clean-in_front :
    (c : ℕ) (names : List Text) → c ≢ slash → All NoSlash names → All NoSlash (in_front c names)
clean-in_front c [] h k = tt
clean-in_front c (name ∷ names) h k = ((h, k.0), k.1)

IsSplit-slash :
    (n : ℕ) (p : Text) (names : List Text)
    → IsSplit n p names
    → IsSplit (suc n) (slash ∷ p) ([] ∷ names)
IsSplit-slash n p [] s = absurd (omega (arith, s.some_name))
IsSplit-slash n p (name ∷ names) s = record {
  some_name = omega arith;
  few = omega (arith, s.few);
  joined = ap (λ (t : Text). slash ∷ t) s.joined;
  clean = (tt, s.clean);
  last_clean = elim s.last_clean [ inl e ↦ inl (ap suc e) | inr h ↦ inr (tt, h) ];
}

IsSplit-other :
    (n c : ℕ) (p : Text) (names : List Text)
    → c ≢ slash
    → IsSplit n p names
    → IsSplit n (c ∷ p) (in_front c names)
IsSplit-other n c p names h s = record {
  some_name = omega (arith, length-in_front c names, s.some_name);
  few = omega (arith, length-in_front c names, s.few);
  joined = join-in_front c names s.some_name ∙ ap (λ (t : Text). c ∷ t) s.joined;
  clean = parents-in_front c names h s.clean;
  last_clean = elim s.last_clean [
    | inl e ↦ inl (length-in_front c names ∙ e)
    | inr k ↦ inr (clean-in_front c names h k)
  ];
}

IsSplit-rest : (c : ℕ) (p : Text) → IsSplit 1 (c ∷ p) ((c ∷ p) ∷ [])
IsSplit-rest c p = record {
  some_name = omega arith;
  few = omega arith;
  joined = refl;
  clean = tt;
  last_clean = inl refl;
}

-- `count` components are begun, so there is room for `room` more and the current one.
split_loop-IsSplit :
    (p : Text) (count room : ℕ)
    → count + room ≡ max_path_components
    → IsSplit (suc room) p (split_loop count p)
unfolding split_loop
split_loop-IsSplit [] count room h = record {
  some_name = omega arith;
  few = omega arith;
  joined = refl;
  clean = tt;
  last_clean = inr (tt, tt);
}
split_loop-IsSplit (c ∷ p) count zero h = rw (full count (omega arith)) (IsSplit-rest c p)
  where
    full : (n : ℕ) → n ≡ 8 → ltb n max_path_components ≡ false
    full n e = ground arith
split_loop-IsSplit (c ∷ p) count (suc room) h =
    rw (free count (omega arith)) (elim (Bool-cases (c == slash)) [
      | inl e ↦
          rw (e, ==→eq c slash e)
            (IsSplit-slash (suc room) p _ (split_loop-IsSplit p (suc count) room (omega arith)))
      | inr e ↦ rw (e) (
          IsSplit-other (suc (suc room)) c p _ (==→ne c slash e)
            (split_loop-IsSplit p count (suc room) h))
    ])
  where
    free : (n : ℕ) → n < 8 → ltb n max_path_components ≡ true
    free n e = ground arith

-- `split_path` gives one to eight components that, joined by slashes, are the path less a leading slash;
-- no component has a slash in it but the last one, and that one only if there are eight.
pub split_path-IsSplit :
    (path : Text) → IsSplit max_path_components (relative path) (split_path path)
unfolding split_path
split_path-IsSplit [] = split_loop-IsSplit [] 1 7 refl
split_path-IsSplit (c ∷ rest) =
    leading (c == slash) (split_loop-IsSplit rest 1 7 refl) (split_loop-IsSplit (c ∷ rest) 1 7 refl)
  where
    leading :
        (b : Bool) {p q : Text} {names others : List Text}
        → IsSplit max_path_components p names
        → IsSplit max_path_components q others
        → IsSplit max_path_components (if b then p else q) (if b then names else others)
    leading true h k = h
    leading false h k = k
