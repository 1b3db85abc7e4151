-- ===== src/Mag/Product.antt =====
-- Products, and the steps by one small number (mag_mul, mag_mul_small_add_small and
-- mag_divmod_small of src/c/runtime.c).
use isiki.Prelude.{
  ℕ, suc, zero, ◌+◌, ◌*◌, ◌/◌, ◌%◌, ◌^◌, ◌<◌, ◌≡◌, refl, ap, List, [], ◌∷◌, arith, length,
  replicate, All, All-replicate, length-replicate,
}
use native.Mathlib.Nat.{mul-le-mul}
use isiki.Mag.{IsLimb, val, mul_row, below_first, mul_limbs, mag_mul}
use isiki.Mag.Value.{val-normalize, normalize-IsLimb}

limb_product : (x y o c : ℕ) → IsLimb x → IsLimb y → IsLimb o → IsLimb c → x * y + o + c < 2 ^ 64
limb_product x y o c hx hy ho hc = omega (
  arith,
  mul-le-mul {n₁ = x} {m₁ = y} {n₂ = 4294967295} {m₂ = 4294967295} (omega arith) (omega arith),
)

val-mul_row :
    (x : ℕ) (b out : List ℕ) (carry : ℕ)
    → IsLimb x
    → All IsLimb b
    → All IsLimb out
    → IsLimb carry
    → length b < length out
    → val (mul_row x b out carry) ≡ x * val b + val out + carry
unfolding mul_row
val-mul_row x [] [] carry hx hb ho hc h = absurd (omega arith)
val-mul_row x (y ∷ b) [] carry hx hb ho hc h = absurd (omega arith)
val-mul_row x [] (o ∷ out) carry hx hb ho hc h = omega arith
val-mul_row x (y ∷ b) (o ∷ out) carry hx hb ho hc h = omega (
  arith,
  limb_product x y o carry hx hb.0 ho.0 hc,
  val-mul_row x b out ((x * y + o + carry) % 2 ^ 64 / 2 ^ 32) hx hb.1 ho.1 (omega arith)
      (omega arith),
)

-- Limbs, and zeros only from index n on.
abbrev ClearFrom : ℕ → List ℕ → Type 0
ClearFrom zero out = All (λ o. o ≡ 0) out
ClearFrom (suc n) [] = Unit
ClearFrom (suc n) (o ∷ out) = IsLimb o × ClearFrom n out

ClearFrom-IsLimb : (n : ℕ) (out : List ℕ) → ClearFrom n out → All IsLimb out
ClearFrom-IsLimb zero [] h = tt
ClearFrom-IsLimb zero (o ∷ out) h = (omega arith, ClearFrom-IsLimb zero out h.1)
ClearFrom-IsLimb (suc n) [] h = tt
ClearFrom-IsLimb (suc n) (o ∷ out) h = (h.0, ClearFrom-IsLimb n out h.1)

ClearFrom-replicate : (n k : ℕ) → ClearFrom n (replicate k 0)
ClearFrom-replicate zero k = All-replicate (λ o. o ≡ 0) k 0 refl
ClearFrom-replicate (suc n) zero = tt
ClearFrom-replicate (suc n) (suc k) = (omega arith, ClearFrom-replicate n k)

mul_row_shape :
    (x : ℕ) (b out : List ℕ) (carry : ℕ)
    → IsLimb x
    → All IsLimb b
    → ClearFrom (length b) out
    → IsLimb carry
    → length b < length out
    → ClearFrom (suc (length b)) (mul_row x b out carry)
      × (length (mul_row x b out carry) ≡ length out)
unfolding mul_row
mul_row_shape x [] [] carry hx hb ho hc h = absurd (omega arith)
mul_row_shape x (y ∷ b) [] carry hx hb ho hc h = absurd (omega arith)
mul_row_shape x [] (o ∷ out) carry hx hb ho hc h = ((omega arith, ho.1), refl)
mul_row_shape x (y ∷ b) (o ∷ out) carry hx hb ho hc h =
    let p : x * y + o + carry < 2 ^ 64 = limb_product x y o carry hx hb.0 ho.0 hc in
    let (s, l) =
      mul_row_shape x b out ((x * y + o + carry) % 2 ^ 64 / 2 ^ 32) hx hb.1 ho.1 (omega arith)
        (omega arith) in
    ((omega arith, s), ap suc l)

-- One round: the first limb of the row is final, and `rounds` deals with the others.
round_correct :
    (rounds : List ℕ → List ℕ) (n v t : ℕ) (row : List ℕ)
    → ClearFrom (suc n) row
    → length row ≡ suc t
    → ((r : List ℕ)
        → ClearFrom n r
        → length r ≡ t
        → (val (rounds r) ≡ v + val r) × All IsLimb (rounds r))
    → (val (below_first rounds row) ≡ 4294967296 * v + val row)
      × All IsLimb (below_first rounds row)
round_correct rounds n v t [] c l h = absurd (omega arith)
round_correct rounds n v t (o ∷ row) c l h =
    let (e, limbs) = h row c.1 (omega arith) in (omega arith, (c.0, limbs))

mul_limbs_correct :
    (a b out : List ℕ)
    → All IsLimb a
    → All IsLimb b
    → ClearFrom (length b) out
    → length out ≡ length a + length b
    → (val (mul_limbs a b out) ≡ val a * val b + val out) × All IsLimb (mul_limbs a b out)
unfolding mul_limbs
mul_limbs_correct [] b out ha hb c l = (omega arith, ClearFrom-IsLimb _ out c)
mul_limbs_correct (x ∷ a) b out ha hb c l =
    let (shape, len) = mul_row_shape x b out 0 ha.0 hb c (omega arith) (omega arith) in
    let (e, limbs) =
      round_correct (mul_limbs a b) (length b) (val a * val b) (length a + length b)
        (mul_row x b out 0) shape (omega arith)
        (λ r cr lr. mul_limbs_correct a b r ha.1 hb cr lr) in
    let row : val (mul_row x b out 0) ≡ x * val b + val out + 0 =
      val-mul_row x b out 0 ha.0 hb (ClearFrom-IsLimb _ out c) (omega arith) (omega arith) in
    (omega arith, limbs)

val-replicate_zero : (n : ℕ) → val (replicate n 0) ≡ 0
val-replicate_zero zero = refl
val-replicate_zero (suc n) = omega (arith, val-replicate_zero n)

-- For arrays of 32-bit limbs, `mag_mul` returns an array of 32-bit limbs that stands for the
-- product: no 64-bit intermediate wraps.
pub mag_mul_correct :
    (a b : List ℕ)
    → All IsLimb a
    → All IsLimb b
    → (val (mag_mul a b) ≡ val a * val b) × All IsLimb (mag_mul a b)
unfolding mag_mul
mag_mul_correct a b ha hb =
    let zeros : List ℕ = replicate (length a + length b) 0 in
    let (e, limbs) =
      mul_limbs_correct a b zeros ha hb (ClearFrom-replicate (length b) _)
        (length-replicate (length a + length b) 0) in
    (
      omega
          (arith, val-normalize (mul_limbs a b zeros), e, val-replicate_zero (length a + length b)),
      normalize-IsLimb _ limbs,
    )
