-- ===== src/Mag/Sum.antt =====
-- Sums and differences of magnitudes (mag_add, mag_sub of src/c/runtime.c).
use isiki.Prelude.{
  ℕ, suc, ◌+◌, ◌/◌, ◌%◌, ◌^◌, ◌≤◌, ◌<◌, ◌≡◌, refl, ap, List, [], ◌∷◌, arith, ltb, if◌then◌else◌,
  length, All,
}
use isiki.Mag.{IsLimb, val, add_limbs, mag_add, sub_limbs, mag_sub}
use isiki.Mag.Value.{normalize_pos, val-normalize, normalize-IsLimb}

val-add_limbs :
    (a b : List ℕ) (carry : ℕ)
    → All IsLimb a
    → All IsLimb b
    → carry ≤ 1
    → val (add_limbs a b carry) ≡ val a + val b + carry
unfolding add_limbs
val-add_limbs [] [] carry ha hb hc = omega arith
val-add_limbs (x ∷ a) [] carry ha hb hc =
    omega (arith, val-add_limbs a [] ((x + 0 + carry) % 2 ^ 64 / 2 ^ 32) ha.1 hb (omega arith))
val-add_limbs [] (y ∷ b) carry ha hb hc =
    omega (arith, val-add_limbs [] b ((0 + y + carry) % 2 ^ 64 / 2 ^ 32) ha hb.1 (omega arith))
val-add_limbs (x ∷ a) (y ∷ b) carry ha hb hc =
    omega (arith, val-add_limbs a b ((x + y + carry) % 2 ^ 64 / 2 ^ 32) ha.1 hb.1 (omega arith))

add_limbs-IsLimb :
    (a b : List ℕ) (carry : ℕ)
    → All IsLimb a
    → All IsLimb b
    → carry ≤ 1
    → All IsLimb (add_limbs a b carry)
unfolding add_limbs
add_limbs-IsLimb [] [] carry ha hb hc = omega arith
add_limbs-IsLimb (x ∷ a) [] carry ha hb hc =
    (omega arith, add_limbs-IsLimb a [] _ ha.1 hb (omega arith))
add_limbs-IsLimb [] (y ∷ b) carry ha hb hc =
    (omega arith, add_limbs-IsLimb [] b _ ha hb.1 (omega arith))
add_limbs-IsLimb (x ∷ a) (y ∷ b) carry ha hb hc =
    (omega arith, add_limbs-IsLimb a b _ ha.1 hb.1 (omega arith))

add_limbs_pos : (a b : List ℕ) (carry : ℕ) → 0 < length (add_limbs a b carry)
unfolding add_limbs
add_limbs_pos [] [] carry = omega arith
add_limbs_pos (x ∷ a) [] carry = omega arith
add_limbs_pos [] (y ∷ b) carry = omega arith
add_limbs_pos (x ∷ a) (y ∷ b) carry = omega arith

-- For arrays of 32-bit limbs, `mag_add` returns an array of 32-bit limbs that stands for the sum.
pub mag_add_correct :
    (a b : List ℕ)
    → All IsLimb a
    → All IsLimb b
    → (val (mag_add a b) ≡ val a + val b) × All IsLimb (mag_add a b)
unfolding mag_add
mag_add_correct a b ha hb = (
  omega (arith, val-normalize (add_limbs a b 0), val-add_limbs a b 0 ha hb (omega arith)),
  normalize-IsLimb _ (add_limbs-IsLimb a b 0 ha hb (omega arith)),
)

pub sub_limbs_correct :
    (a b : List ℕ) (borrow : ℕ)
    → All IsLimb a
    → All IsLimb b
    → borrow ≤ 1
    → val b + borrow ≤ val a
    → (val (sub_limbs a b borrow) + val b + borrow ≡ val a) × All IsLimb (sub_limbs a b borrow)
unfolding sub_limbs
sub_limbs_correct [] b borrow ha hb hc h = omega arith
sub_limbs_correct (x ∷ a) [] borrow ha hb hc h =
    ground (arith, sub_limbs_correct a [] (if ltb x (0 + borrow) then 1 else 0) ha.1 hb)
sub_limbs_correct (x ∷ a) (y ∷ b) borrow ha hb hc h =
    ground (arith, sub_limbs_correct a b (if ltb x (y + borrow) then 1 else 0) ha.1 hb.1)

pub length-sub_limbs : (a b : List ℕ) (borrow : ℕ) → length (sub_limbs a b borrow) ≡ length a
unfolding sub_limbs
length-sub_limbs [] b borrow = refl
length-sub_limbs (x ∷ a) [] borrow = ap suc (length-sub_limbs a [] _)
length-sub_limbs (x ∷ a) (y ∷ b) borrow = ap suc (length-sub_limbs a b _)

-- For arrays of 32-bit limbs where the second number is at most the first, `mag_sub` returns an
-- array of 32-bit limbs that stands for the difference.
pub mag_sub_correct :
    (a b : List ℕ)
    → All IsLimb a
    → All IsLimb b
    → val b ≤ val a
    → (val (mag_sub a b) + val b ≡ val a) × All IsLimb (mag_sub a b)
unfolding mag_sub
mag_sub_correct a b ha hb h =
    let (e, l) = sub_limbs_correct a b 0 ha hb (omega arith) (omega arith) in
    (omega (arith, val-normalize (sub_limbs a b 0), e), normalize-IsLimb _ l)

pub mag_add_pos : (a b : List ℕ) → 0 < length (mag_add a b)
unfolding mag_add
mag_add_pos a b = normalize_pos (add_limbs a b 0) (add_limbs_pos a b 0)

pub mag_sub_pos : (a b : List ℕ) → 0 < length a → 0 < length (mag_sub a b)
unfolding mag_sub
mag_sub_pos a b h = normalize_pos (sub_limbs a b 0) (omega (arith, length-sub_limbs a b 0))
