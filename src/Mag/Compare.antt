-- ===== src/Mag/Compare.antt =====
-- `mag_compare` of src/c/runtime.c is the comparison of the numbers.
use isiki.Prelude.{
  ℕ, zero, suc, ◌+◌, ◌-◌, ◌≤◌, ◌<◌, ◌≡◌, ◌≢◌, refl, sym, ap, ◌∙◌, ◌⊎◌, inl, inr, List, [], ◌∷◌,
  arith, ltb, ltb→lt, ◌==◌, ==→eq, Bool-cases, if◌then◌else◌, length, get_or, take, All,
  take-length,
}
use mathlib.Core.Path.{ap₂}
use Prim.Native.Nat.{Ordering, compare}
use isiki.Mag.{IsLimb, val, mag_len, compare_limbs, mag_compare}
use isiki.Mag.Value.{val-take_nil, val-take-mag_len, mag_len_pos, mag_len_top}

-- A greater limb on top makes a greater number.
val-lt_top :
    (a b : List ℕ) (n : ℕ)
    → All IsLimb a
    → All IsLimb b
    → get_or a n 0 < get_or b n 0
    → val (take (suc n) a) < val (take (suc n) b)
val-lt_top a [] n ha hb h = absurd (omega arith)
val-lt_top [] (y ∷ b) zero ha hb h = omega arith
val-lt_top [] (y ∷ b) (suc n) ha hb h = omega (arith, val-lt_top [] b n ha hb.1 h)
val-lt_top (x ∷ a) (y ∷ b) zero ha hb h = omega arith
val-lt_top (x ∷ a) (y ∷ b) (suc n) ha hb h = omega (arith, val-lt_top a b n ha.1 hb.1 h)

-- Equal limbs on top do not count.
val-eq_top :
    (a b : List ℕ) (n : ℕ)
    → get_or a n 0 ≡ get_or b n 0
    → val (take (suc n) a) + val (take n b) ≡ val (take (suc n) b) + val (take n a)
val-eq_top [] [] zero h = omega arith
val-eq_top [] [] (suc n) h = omega arith
val-eq_top [] (y ∷ b) zero h = omega arith
val-eq_top [] (y ∷ b) (suc n) h = omega (arith, val-eq_top [] b n h, val-take_nil n)
val-eq_top (x ∷ a) [] zero h = omega arith
val-eq_top (x ∷ a) [] (suc n) h = omega (arith, val-eq_top a [] n h, val-take_nil n)
val-eq_top (x ∷ a) (y ∷ b) zero h = omega arith
val-eq_top (x ∷ a) (y ∷ b) (suc n) h = omega (arith, val-eq_top a b n h)

-- A longer array whose top limb is not 0 makes a greater number.
val-lt_length :
    (a b : List ℕ) (n m : ℕ)
    → All IsLimb a
    → n ≤ m
    → get_or b m 0 ≢ 0
    → val (take n a) < val (take (suc m) b)
val-lt_length a [] n m ha h top = absurd (top refl)
val-lt_length a (y ∷ b) zero zero ha h top = omega arith
val-lt_length a (y ∷ b) zero (suc m) ha h top =
    omega (arith, val-lt_length a b zero m ha (omega arith) top)
val-lt_length a (y ∷ b) (suc n) zero ha h top = absurd (omega arith)
val-lt_length [] (y ∷ b) (suc n) (suc m) ha h top =
    omega (arith, val-lt_length [] b n m ha (omega arith) top)
val-lt_length (x ∷ a) (y ∷ b) (suc n) (suc m) ha h top =
    omega (arith, val-lt_length a b n m ha.1 (omega arith) top)

compare-shift : (p q r s : ℕ) → p + s ≡ q + r → compare p q ≡ compare r s
compare-shift p q r s h = ground arith

compare_limbs-val :
    (a b : List ℕ) (n : ℕ)
    → All IsLimb a
    → All IsLimb b
    → compare_limbs a b n ≡ compare (val (take n a)) (val (take n b))
unfolding compare_limbs
compare_limbs-val a b zero ha hb = refl
compare_limbs-val a b (suc n) ha hb = elim (Bool-cases (get_or a n 0 == get_or b n 0)) [
  | inl e ↦
      rw (e) (
        compare_limbs-val a b n ha hb
        ∙ sym (compare-shift _ _ _ _ (val-eq_top a b n (==→eq _ _ e))))
  | inr e ↦ rw (e) (elim (Bool-cases (ltb (get_or a n 0) (get_or b n 0))) [
    | inl l ↦ rw (l) (ground (arith, val-lt_top a b n ha hb (ltb→lt _ _ l)))
    | inr g ↦ rw (g) (ground (arith, val-lt_top b a n hb ha (ground arith)))
  ])
]

compare_lengths :
    (a b : List ℕ) (n m : ℕ)
    → All IsLimb a
    → All IsLimb b
    → 0 < n
    → 0 < m
    → (n ≤ 1) ⊎ (get_or a (n - 1) 0 ≢ 0)
    → (m ≤ 1) ⊎ (get_or b (m - 1) 0 ≢ 0)
    → (if n == m then compare_limbs a b n else if ltb n m then Ordering.lt else Ordering.gt)
      ≡ compare (val (take n a)) (val (take m b))
compare_lengths a b zero m ha hb pn pm tn tm = absurd (omega arith)
compare_lengths a b (suc n) zero ha hb pn pm tn tm = absurd (omega arith)
compare_lengths a b (suc n) (suc m) ha hb pn pm tn tm = ground (
  arith,
  compare_limbs-val a b (suc n) ha hb,
  val-lt_length a b (suc n) m ha,
  val-lt_length b a (suc m) n hb,
)

val-take_own : (l : List ℕ) → val (take (mag_len l (length l)) l) ≡ val l
val-take_own l = val-take-mag_len l (length l) ∙ ap val (take-length l)

-- For non-empty arrays of 32-bit limbs, leading zero limbs or not, the result of `mag_compare` is
-- the order of the two numbers.
pub mag_compare_correct :
    (a b : List ℕ)
    → All IsLimb a
    → All IsLimb b
    → 0 < length a
    → 0 < length b
    → mag_compare a b ≡ compare (val a) (val b)
unfolding mag_compare
mag_compare_correct a b ha hb pa pb =
    compare_lengths a b (mag_len a (length a)) (mag_len b (length b)) ha hb (mag_len_pos a _ pa)
      (mag_len_pos b _ pb) (mag_len_top a _) (mag_len_top b _)
    ∙ ap₂ compare (val-take_own a) (val-take_own b)
