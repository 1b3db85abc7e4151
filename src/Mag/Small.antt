-- ===== src/Mag/Small.antt =====
-- The steps by one small number (mag_mul_small_add_small and mag_divmod_small of src/c/runtime.c).
use isiki.Prelude.{
  ℕ, suc, ◌+◌, ◌*◌, ◌/◌, ◌%◌, ◌^◌, ◌≤◌, ◌<◌, ◌≡◌, refl, ap, ◌∙◌, List, [], ◌∷◌, arith, All, length,
}
use isiki.Prelude.Bits.{bit_or_shifted}
use native.Mathlib.Nat.{mul-le-mul, mul-le-mul_left, div-add-mod, mod-lt, div-lt_iff_lt-mul}
use isiki.Mag.{
  IsLimb, val, carry_limbs, mul_small_limbs, mag_mul_small_add_small, small_step, small_limbs,
  mag_divmod_small,
}
use isiki.Mag.Value.{IsNormal, normalize-IsNormal, val-normalize, normalize-IsLimb, normalize_pos}

small_product : (x m c : ℕ) → IsLimb x → m ≤ 2 ^ 32 → c < 2 ^ 32 → x * m + c < 2 ^ 64
small_product x m c hx hm hc =
    omega (arith, mul-le-mul {n₁ = x} {m₁ = m} {n₂ = 4294967295} {m₂ = 4294967296} (omega arith) hm)

-- Two rounds carry all of a 64-bit number.
carry_limbs_correct :
    (carry : ℕ)
    → carry < 2 ^ 64
    → (val (carry_limbs 2 carry) ≡ carry) × All IsLimb (carry_limbs 2 carry)
unfolding carry_limbs
carry_limbs_correct carry h = ground arith

mul_small_limbs_correct :
    (limbs : List ℕ) (mul carry : ℕ)
    → All IsLimb limbs
    → mul ≤ 2 ^ 32
    → carry < 2 ^ 32
    → (val (mul_small_limbs limbs mul carry) ≡ val limbs * mul + carry)
      × All IsLimb (mul_small_limbs limbs mul carry)
unfolding mul_small_limbs
mul_small_limbs_correct [] mul carry h hm hc =
    let (e, l) = carry_limbs_correct carry (omega arith) in (omega arith, l)
mul_small_limbs_correct (x ∷ limbs) mul carry h hm hc =
    let p : x * mul + carry < 2 ^ 64 = small_product x mul carry h.0 hm hc in
    let (e, l) =
      mul_small_limbs_correct limbs mul ((x * mul + carry) % 2 ^ 64 / 2 ^ 32) h.1 hm
        (omega arith) in
    (omega arith, (omega arith, l))

-- For 32-bit limbs, a factor up to 2^32 and a summand below 2^32, the result of
-- `mag_mul_small_add_small` has 32-bit limbs and stands for limbs * mul + add.
pub mag_mul_small_add_small_correct :
    (limbs : List ℕ) (mul add : ℕ)
    → All IsLimb limbs
    → mul ≤ 2 ^ 32
    → add < 2 ^ 32
    → (val (mag_mul_small_add_small limbs mul add) ≡ val limbs * mul + add)
      × All IsLimb (mag_mul_small_add_small limbs mul add)
unfolding mag_mul_small_add_small
mag_mul_small_add_small_correct limbs mul add h hm hc =
    let (e, l) = mul_small_limbs_correct limbs mul add h hm hc in
    (val-normalize (mul_small_limbs limbs mul add) ∙ e, normalize-IsLimb _ l)

-- The quotient and remainder of the limbs so far.
abbrev pub Divides : List ℕ → ℕ → List ℕ × ℕ → Type 0
Divides limbs div (quot, r) = (val quot * div + r ≡ val limbs) × (r < div) × All IsLimb quot

small_step_correct :
    (div x : ℕ) (limbs quot : List ℕ) (r : ℕ)
    → IsLimb x
    → 0 < div
    → div ≤ 2 ^ 32
    → Divides limbs div (quot, r)
    → Divides (x ∷ limbs) div (small_step div x (quot, r))
unfolding small_step
small_step_correct div x limbs quot r hx pos hd (e, lt, l) =
    let cur : ℕ = r * 4294967296 + x in
    rw (bit_or_shifted r x (omega arith) hx) (
      omega (arith, div-add-mod cur div, ap (λ (t : ℕ). 4294967296 * t) e),
      mod-lt cur pos,
      (
        (div-lt_iff_lt-mul {k = div} {x = cur} {y = 2 ^ 32} pos).1
            (omega (arith, mul-le-mul_left {m = suc r} {n = div} 4294967296 lt)),
        l,
      ),
    )

small_limbs_correct :
    (limbs : List ℕ) (div : ℕ)
    → All IsLimb limbs
    → 0 < div
    → div ≤ 2 ^ 32
    → Divides limbs div (small_limbs limbs div)
unfolding small_limbs
small_limbs_correct [] div h pos hd = (omega arith, pos, tt)
small_limbs_correct (x ∷ limbs) div h pos hd =
    small_step_correct div x limbs _ _ h.0 pos hd (small_limbs_correct limbs div h.1 pos hd)

-- For 32-bit limbs and a divisor from 1 to 2^32, `mag_divmod_small` gives a quotient of 32-bit limbs
-- and a remainder below the divisor, with limbs = quotient * divisor + remainder.
pub mag_divmod_small_correct :
    (limbs : List ℕ) (div : ℕ)
    → All IsLimb limbs
    → 0 < div
    → div ≤ 2 ^ 32
    → Divides limbs div (mag_divmod_small limbs div)
unfolding mag_divmod_small
mag_divmod_small_correct limbs div h pos hd =
    let (e, lt, l) = small_limbs_correct limbs div h pos hd in
    let quot : List ℕ = (small_limbs limbs div).0 in
    (
      ap (λ (t : ℕ). t * div + (small_limbs limbs div).1) (val-normalize quot) ∙ e,
      lt,
      normalize-IsLimb quot l,
    )

length-small_limbs : (limbs : List ℕ) (div : ℕ) → length (small_limbs limbs div).0 ≡ length limbs
unfolding small_limbs small_step
length-small_limbs [] div = refl
length-small_limbs (x ∷ limbs) div = ap suc (length-small_limbs limbs div)

pub mag_divmod_small_pos :
    (limbs : List ℕ) (div : ℕ) → 0 < length limbs → 0 < length (mag_divmod_small limbs div).0
unfolding mag_divmod_small
mag_divmod_small_pos limbs div h =
    normalize_pos (small_limbs limbs div).0 (omega (arith, length-small_limbs limbs div))

pub mag_divmod_small-IsNormal :
    (limbs : List ℕ) (div : ℕ) → 0 < length limbs → IsNormal (mag_divmod_small limbs div).0
unfolding mag_divmod_small
mag_divmod_small-IsNormal limbs div h =
    normalize-IsNormal (small_limbs limbs div).0 (omega (arith, length-small_limbs limbs div))

pub mag_mul_small_add_small_pos :
    (limbs : List ℕ) (mul add : ℕ)
    → 0 < length limbs
    → 0 < length (mag_mul_small_add_small limbs mul add)
unfolding mag_mul_small_add_small mul_small_limbs
mag_mul_small_add_small_pos [] mul add h = absurd (omega arith)
mag_mul_small_add_small_pos (x ∷ limbs) mul add h =
    normalize_pos (mul_small_limbs (x ∷ limbs) mul add) (omega arith)
