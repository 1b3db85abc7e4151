-- ===== src/Mag/Value.antt =====
-- The value of a limb array, and what `mag_len` leaves of it (src/c/runtime.c).
use isiki.Prelude.{
  ℕ, zero, suc, ◌-◌, ◌≤◌, ◌<◌, ◌≡◌, ◌≢◌, refl, sym, ap, ◌∙◌, ◌⊎◌, inl, inr, List, [], ◌∷◌, arith,
  ◌==◌, ==→eq, Bool-cases, length, get_or, take, All, All-take, take-length, length-take,
}
use isiki.Mag.{IsLimb, val, mag_len, normalize}

pub val-take_nil : (n : ℕ) → val (take n []) ≡ 0
val-take_nil zero = refl
val-take_nil (suc n) = refl

-- A zero limb at the top counts for nothing.
val-take_zero : (l : List ℕ) (n : ℕ) → get_or l n 0 ≡ 0 → val (take (suc n) l) ≡ val (take n l)
val-take_zero [] zero h = refl
val-take_zero [] (suc n) h = refl
val-take_zero (x ∷ l) zero h = omega arith
val-take_zero (x ∷ l) (suc n) h = omega (arith, val-take_zero l n h)

pub val-take-mag_len : (l : List ℕ) (n : ℕ) → val (take (mag_len l n) l) ≡ val (take n l)
unfolding mag_len
val-take-mag_len l zero = refl
val-take-mag_len l (suc zero) = refl
val-take-mag_len l (suc (suc n)) = elim (Bool-cases (get_or l (suc n) 0 == 0)) [
  | inl e ↦ rw (e) (val-take-mag_len l (suc n) ∙ sym (val-take_zero l (suc n) (==→eq _ _ e)))
  | inr e ↦ rw (e) refl
]

pub mag_len-le : (l : List ℕ) (n : ℕ) → mag_len l n ≤ n
unfolding mag_len
mag_len-le l zero = omega arith
mag_len-le l (suc zero) = omega arith
mag_len-le l (suc (suc n)) = ground (arith, mag_len-le l (suc n))

pub mag_len_pos : (l : List ℕ) (n : ℕ) → 0 < n → 0 < mag_len l n
unfolding mag_len
mag_len_pos l zero h = h
mag_len_pos l (suc zero) h = omega arith
mag_len_pos l (suc (suc n)) h = ground (arith, mag_len_pos l (suc n))

-- The limb on top is not 0, unless it is the only one.
pub mag_len_top : (l : List ℕ) (n : ℕ) → (mag_len l n ≤ 1) ⊎ (get_or l (mag_len l n - 1) 0 ≢ 0)
unfolding mag_len
mag_len_top l zero = inl (omega arith)
mag_len_top l (suc zero) = inl (omega arith)
mag_len_top l (suc (suc n)) = ground (arith, mag_len_top l (suc n))

pub val-normalize : (l : List ℕ) → val (normalize l) ≡ val l
unfolding normalize
val-normalize l = val-take-mag_len l (length l) ∙ ap val (take-length l)

pub normalize-IsLimb : (l : List ℕ) → All IsLimb l → All IsLimb (normalize l)
unfolding normalize
normalize-IsLimb l h = All-take IsLimb _ l h

pub length-normalize : (l : List ℕ) → length (normalize l) ≤ length l
unfolding normalize
length-normalize l = omega (arith, length-take (mag_len l (length l)) l)

pub normalize_pos : (l : List ℕ) → 0 < length l → 0 < length (normalize l)
unfolding normalize
normalize_pos l h = omega (arith, length-take (mag_len l (length l)) l, mag_len_pos l (length l) h)

-- Not empty, and no zero limb on top of others.
abbrev pub IsNormal : List ℕ → Type 0
IsNormal l = (0 < length l) × ((length l ≤ 1) ⊎ (get_or l (length l - 1) 0 ≢ 0))

get_or-take : (l : List ℕ) (n i : ℕ) → i < n → get_or (take n l) i 0 ≡ get_or l i 0
get_or-take l zero i h = absurd (omega arith)
get_or-take [] (suc n) i h = refl
get_or-take (x ∷ l) (suc n) zero h = refl
get_or-take (x ∷ l) (suc n) (suc i) h = get_or-take l n i (omega arith)

pub normalize-IsNormal : (l : List ℕ) → 0 < length l → IsNormal (normalize l)
unfolding normalize
normalize-IsNormal l h =
    let n : ℕ = mag_len l (length l) in
    let len : length (take n l) ≡ n = omega (arith, length-take n l, mag_len-le l (length l)) in
    let some' : 0 < n = mag_len_pos l (length l) h in
    (omega arith, top n len some' (mag_len_top l (length l)))
  where
    top :
        (n : ℕ)
        → length (take n l) ≡ n
        → 0 < n
        → (n ≤ 1) ⊎ (get_or l (n - 1) 0 ≢ 0)
        → (length (take n l) ≤ 1) ⊎ (get_or (take n l) (length (take n l) - 1) 0 ≢ 0)
    top n len p (inl few) = inl (omega arith)
    top n len p (inr big) = inr (rw (len, get_or-take l n (n - 1) (omega arith)) big)
