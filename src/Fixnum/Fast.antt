-- ===== src/Fixnum/Fast.antt =====
-- The inlined fixnum paths of src/c/runtime.c, and the order of fixnums.
use isiki.Prelude.{
  ℕ, ◌+◌, ◌-◌, ◌*◌, ◌/◌, ◌%◌, ◌^◌, ◌≤◌, ◌<◌, ◌≡◌, ◌≢◌, refl, ap, ◌∙◌, Bool, true, false, not, some,
  arith, ltb, ◌==◌, ==→eq, if◌then◌else◌,
}
use Prim.Native.Nat.{bit_and, bit_or}
use isiki.Prelude.Bits.{bit_and_bit, bit_or_bit}
use mathlib.Core.Path.{ap₂}
use native.Mathlib.Nat.{mul-div-mul_right, div-le_self}
use isiki.Fixnum.Exact.{product_fits}
use isiki.Prelude.Int.{ℤ, pos_part, neg_part, signed}
use isiki.Fixnum.{
  magnitude_mask, is_fixnum, os_make_fixnum_signed, os_fixnum_magnitude, os_fixnum_is_negative,
  same, fixnum_negate, fixnum_add_signed_unchecked, fixnum_add_signed,
  fixnum_multiply_signed_unchecked, fixnum_multiply_signed, fixnum_divide_signed_unchecked,
  fixnum_divide_signed, Sign3, less, equal, greater, negate3, fixnum_compare3,
  num_both_nonneg_fixnum, fixnum_fast_add, fixnum_fast_sub, fixnum_fast_mul, fixnum_fast_div,
}
use isiki.Fixnum.Word.{IsFixnum, to_ℤ, make_parts, magnitude-le, is_fixnum-IsFixnum}

-- A word with the fixnum tag and no sign.
abbrev pub IsNonneg : ℕ → Type 0
IsNonneg w = (w < 2 ^ 63) × (w % 16 ≡ 0)

clear_bit :
    (j a b m : ℕ)
    → bit_and (bit_or a b) m ≡ 0
    → m / 2 ^ j % 2 ≡ 1
    → (a / 2 ^ j % 2 ≡ 0) × (b / 2 ^ j % 2 ≡ 0)
clear_bit j a b m e one = omega (
  arith,
  bit_and_bit j (bit_or a b) m,
  bit_or_bit j a b,
  ap (λ (t : ℕ). t / 2 ^ j % 2) e,
  none_set,
)
  where
    none_set : 0 / 2 ^ j % 2 ≡ 0
    none_set = ap (λ (t : ℕ). t % 2) (zero_div (2 ^ j))
      where
        zero_div : (d : ℕ) → 0 / d ≡ 0
        zero_div d = omega arith

-- The test of the inlined paths: on 64-bit words, that both are fixnums without a sign.
pub num_both_nonneg_fixnum-IsNonneg :
    (a b : ℕ)
    → a < 2 ^ 64
    → b < 2 ^ 64
    → num_both_nonneg_fixnum a b ≡ true
    → IsNonneg a × IsNonneg b
unfolding num_both_nonneg_fixnum
num_both_nonneg_fixnum-IsNonneg a b ha hb h =
    let m : ℕ = 15 + 2 ^ 63 in
    let e : bit_and (bit_or a b) m ≡ 0 = ==→eq _ _ h in
    omega (
      arith,
      clear_bit 0 a b m e refl,
      clear_bit 1 a b m e refl,
      clear_bit 2 a b m e refl,
      clear_bit 3 a b m e refl,
      clear_bit 63 a b m e refl,
    )

-- A word without a sign, by its magnitude.
module _ (w : ℕ) (h : IsNonneg w) where
  nonneg-is_fixnum : is_fixnum w ≡ true
  unfolding is_fixnum
  nonneg-is_fixnum = ground arith

  nonneg_sign : os_fixnum_is_negative w ≡ false
  unfolding os_fixnum_is_negative
  nonneg_sign = ground arith

  nonneg_word : w ≡ os_fixnum_magnitude w * 16
  unfolding os_fixnum_magnitude
  nonneg_word = omega arith

make_nonneg : (m : ℕ) → m ≤ magnitude_mask → os_make_fixnum_signed false m ≡ m * 16
unfolding os_make_fixnum_signed
make_nonneg m h = ground arith

-- The tag test is passed and the signs are known: what is left of each operation.
module _ (a b : ℕ) (ha : IsNonneg a) (hb : IsNonneg b) where
  fast_add : fixnum_fast_add a b ≡ fixnum_add_signed a b
  unfolding fixnum_fast_add fixnum_add_signed fixnum_add_signed_unchecked
  fast_add = ground (
    arith,
    nonneg-is_fixnum a ha,
    nonneg-is_fixnum b hb,
    nonneg_sign a ha,
    nonneg_sign b hb,
    nonneg_word a ha,
    nonneg_word b hb,
    make_nonneg (os_fixnum_magnitude a + os_fixnum_magnitude b),
  )

  negate_nonneg :
      (os_fixnum_is_negative (fixnum_negate b) ≡ not (os_fixnum_magnitude b == 0))
      × (os_fixnum_magnitude (fixnum_negate b) ≡ os_fixnum_magnitude b)
      × (is_fixnum (fixnum_negate b) ≡ true)
  unfolding fixnum_negate
  negate_nonneg =
      let (p, q, f) = make_parts true (os_fixnum_magnitude b) (magnitude-le b) in
      rw (nonneg_sign b hb) (q, p, is_fixnum-IsFixnum _ f)

  fast_sub : (r : ℕ) → fixnum_fast_sub a b ≡ some r → fixnum_add_signed a (fixnum_negate b) ≡ some r
  unfolding fixnum_fast_sub fixnum_add_signed fixnum_add_signed_unchecked
  fast_sub r h = ground (
    arith,
    nonneg-is_fixnum a ha,
    nonneg_sign a ha,
    nonneg_word a ha,
    nonneg_word b hb,
    magnitude-le a,
    negate_nonneg,
    make_nonneg (os_fixnum_magnitude a + os_fixnum_magnitude b),
    make_nonneg (os_fixnum_magnitude a - os_fixnum_magnitude b),
  )

  product_word : a / 16 * b ≡ os_fixnum_magnitude a * os_fixnum_magnitude b * 16
  product_word = omega (
    arith,
    ap (λ (t : ℕ). t / 16 * b) (nonneg_word a ha),
    ap (λ (t : ℕ). os_fixnum_magnitude a * t) (nonneg_word b hb),
    ap (λ (t : ℕ). t * b) (back (os_fixnum_magnitude a)),
  )
    where
      back : (m : ℕ) → m * 16 / 16 ≡ m
      back m = omega arith

  fast_mul : fixnum_fast_mul a b ≡ fixnum_multiply_signed a b
  unfolding fixnum_fast_mul fixnum_multiply_signed fixnum_multiply_signed_unchecked
  fast_mul = ground (
    arith,
    product_word,
    product_fits (os_fixnum_magnitude a) (os_fixnum_magnitude b) (magnitude-le a) (magnitude-le b),
    nonneg-is_fixnum a ha,
    nonneg-is_fixnum b hb,
    nonneg_sign a ha,
    nonneg_sign b hb,
    make_nonneg (os_fixnum_magnitude a * os_fixnum_magnitude b % 2 ^ 128 % 2 ^ 64),
  )

  quotient_word : a / b ≡ os_fixnum_magnitude a / os_fixnum_magnitude b
  quotient_word =
      ap₂ (λ (x y : ℕ). x / y) (nonneg_word a ha) (nonneg_word b hb)
      ∙ mul-div-mul_right {m = 16} (os_fixnum_magnitude a) (os_fixnum_magnitude b) (omega arith)

  fast_div : fixnum_fast_div a b ≡ fixnum_divide_signed a b
  unfolding fixnum_fast_div fixnum_divide_signed fixnum_divide_signed_unchecked
  fast_div = ground (
    arith,
    quotient_word,
    nonneg_word b hb,
    div-le_self (os_fixnum_magnitude a) (os_fixnum_magnitude b),
    magnitude-le a,
    nonneg-is_fixnum a ha,
    nonneg-is_fixnum b hb,
    nonneg_sign a ha,
    nonneg_sign b hb,
    make_nonneg (os_fixnum_magnitude a / os_fixnum_magnitude b),
  )

-- Where the inlined test passes on two 64-bit words, the inlined sum, product and quotient are
-- those of the signed operations, failures included, and an inlined difference that is given is
-- the signed one.
pub fast_paths_agree :
    (a b : ℕ)
    → a < 2 ^ 64
    → b < 2 ^ 64
    → num_both_nonneg_fixnum a b ≡ true
    → (fixnum_fast_add a b ≡ fixnum_add_signed a b)
      × ((r : ℕ) → fixnum_fast_sub a b ≡ some r → fixnum_add_signed a (fixnum_negate b) ≡ some r)
      × (fixnum_fast_mul a b ≡ fixnum_multiply_signed a b)
      × (fixnum_fast_div a b ≡ fixnum_divide_signed a b)
fast_paths_agree a b ha hb h =
    let (na, nb) = num_both_nonneg_fixnum-IsNonneg a b ha hb h in
    (fast_add a b na nb, fast_sub a b na nb, fast_mul a b na nb, fast_div a b na nb)

-- The order of integers, as three results.
abbrev pub order3 : ℤ → ℤ → Sign3
order3 x y =
    let l = pos_part x + neg_part y in
    let r = pos_part y + neg_part x in if ltb l r then less else if ltb r l then greater else equal

negative-ne-zero : (w : ℕ) → IsFixnum w → os_fixnum_is_negative w ≡ true → os_fixnum_magnitude w ≢ 0
unfolding os_fixnum_is_negative os_fixnum_magnitude
negative-ne-zero w h s e = ground (arith, h.fits, h.tagged, h.no_negative_zero)

-- `fixnum_compare3` is the order of the integers.
pub fixnum_compare3-order3 :
    (a b : ℕ) → IsFixnum a → IsFixnum b → fixnum_compare3 a b ≡ order3 (to_ℤ a) (to_ℤ b)
unfolding fixnum_compare3
fixnum_compare3-order3 a b ha hb =
    go (os_fixnum_is_negative a) (os_fixnum_is_negative b) (os_fixnum_magnitude a)
      (os_fixnum_magnitude b) (negative-ne-zero a ha) (negative-ne-zero b hb)
  where
    cmp : ℕ → ℕ → Sign3
    cmp m n = if ltb m n then less else if ltb n m then greater else equal

    go :
        (s t : Bool) (m n : ℕ)
        → (s ≡ true → m ≢ 0)
        → (t ≡ true → n ≢ 0)
        → (if same s t
            then (if s then negate3 (cmp m n) else cmp m n)
            else if s
            then less
            else greater)
          ≡ order3 (signed s m) (signed t n)
    go true true m n hs ht = ground (arith, hs refl, ht refl)
    go true false m n hs ht = ground (arith, hs refl)
    go false true m n hs ht = ground (arith, ht refl)
    go false false m n hs ht = ground arith
