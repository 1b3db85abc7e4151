-- ===== src/Fixnum.antt =====
-- src/c/runtime.h and src/c/runtime.c, the fixnums: tagged 64-bit words that hold a sign (bit 63) and
-- a magnitude of 59 bits (bits 4 to 62). A word is a number below 2^64.
pub mod Word
pub mod Exact
pub mod Fast
mod Runs
use isiki.Prelude.{
  ℕ, ◌+◌, ◌-◌, ◌*◌, ◌/◌, ◌%◌, ◌^◌, ◌≤◌, ◌<◌, Bool, true, false, not, ◌&&◌, Option, none, some, ltb,
  leb, ◌==◌, if◌then◌else◌,
}
use Prim.Native.Nat.{bit_or, bit_and}

-- TAG_MASK, FIXNUM_SIGN_BIT, FIXNUM_MAGNITUDE_MASK
abbrev pub sign_bit : ℕ
sign_bit = 2 ^ 63

abbrev pub magnitude_mask : ℕ
magnitude_mask = 2 ^ 59 - 1

-- `(val & TAG_MASK) == TAG_FIXNUM`
unfoldable pub is_fixnum : ℕ → Bool
is_fixnum val = val % 16 == 0

unfoldable pub os_make_fixnum : ℕ → ℕ
os_make_fixnum n = n * 16 % 2 ^ 64

unfoldable pub os_make_fixnum_signed : Bool → ℕ → ℕ
os_make_fixnum_signed negative magnitude =
    let val = magnitude * 16 % 2 ^ 64 in
    if negative && not (magnitude == 0) then bit_or val sign_bit else val

-- `(val >> FIXNUM_VALUE_SHIFT) & FIXNUM_MAGNITUDE_MASK`, the mask being 59 ones
unfoldable pub os_fixnum_magnitude : ℕ → ℕ
os_fixnum_magnitude val = val / 16 % 2 ^ 59

unfoldable pub os_fixnum_is_negative : ℕ → Bool
os_fixnum_is_negative val = val / 2 ^ 63 % 2 == 1

unfoldable pub fixnum_negate : ℕ → ℕ
fixnum_negate val =
    os_make_fixnum_signed (not (os_fixnum_is_negative val)) (os_fixnum_magnitude val)

abbrev pub same : Bool → Bool → Bool
same true b = b
same false b = not b

-- The word through `*out`, or `none` where the function returns 0.
unfoldable pub fixnum_add_signed_unchecked : ℕ → ℕ → Option ℕ
fixnum_add_signed_unchecked a b =
    let mag_a = os_fixnum_magnitude a in
    let mag_b = os_fixnum_magnitude b in
    let neg_a = os_fixnum_is_negative a in
    let neg_b = os_fixnum_is_negative b in
    if same neg_a neg_b
    then (let sum = (mag_a + mag_b) % 2 ^ 64 in
        if ltb magnitude_mask sum then none else some (os_make_fixnum_signed neg_a sum))
    else if leb mag_b mag_a
    then some (os_make_fixnum_signed neg_a (mag_a - mag_b))
    else some (os_make_fixnum_signed neg_b (mag_b - mag_a))

unfoldable pub fixnum_add_signed : ℕ → ℕ → Option ℕ
fixnum_add_signed a b = if is_fixnum a && is_fixnum b then fixnum_add_signed_unchecked a b else none

-- The product of two 59-bit numbers fits the 128 bits that it is computed in.
unfoldable pub fixnum_multiply_signed_unchecked : ℕ → ℕ → Option ℕ
fixnum_multiply_signed_unchecked a b =
    let prod = os_fixnum_magnitude a * os_fixnum_magnitude b % 2 ^ 128 in
    if ltb magnitude_mask prod
    then none
    else some (
        os_make_fixnum_signed (not (same (os_fixnum_is_negative a) (os_fixnum_is_negative b)))
          (prod % 2 ^ 64))

unfoldable pub fixnum_multiply_signed : ℕ → ℕ → Option ℕ
fixnum_multiply_signed a b =
    if is_fixnum a && is_fixnum b then fixnum_multiply_signed_unchecked a b else none

unfoldable pub fixnum_divide_signed_unchecked : ℕ → ℕ → Option ℕ
fixnum_divide_signed_unchecked a b =
    let mag_b = os_fixnum_magnitude b in
    if mag_b == 0
    then none
    else some (
        os_make_fixnum_signed (not (same (os_fixnum_is_negative a) (os_fixnum_is_negative b)))
          (os_fixnum_magnitude a / mag_b))

unfoldable pub fixnum_divide_signed : ℕ → ℕ → Option ℕ
fixnum_divide_signed a b =
    if is_fixnum a && is_fixnum b then fixnum_divide_signed_unchecked a b else none

-- The results -1, 0 and 1.
pub data Sign3 : Type 0 where
  less equal greater : Sign3

abbrev pub negate3 : Sign3 → Sign3
negate3 less = greater
negate3 equal = equal
negate3 greater = less

unfoldable pub fixnum_compare3 : ℕ → ℕ → Sign3
fixnum_compare3 a b =
    let neg_a = os_fixnum_is_negative a in
    let neg_b = os_fixnum_is_negative b in
    let mag_a = os_fixnum_magnitude a in
    let mag_b = os_fixnum_magnitude b in
    let cmp = if ltb mag_a mag_b then less else if ltb mag_b mag_a then greater else equal in
    if same neg_a neg_b then if neg_a then negate3 cmp else cmp else if neg_a then less else greater

-- `((a | b) & (TAG_MASK | FIXNUM_SIGN_BIT)) == 0`
unfoldable pub num_both_nonneg_fixnum : ℕ → ℕ → Bool
num_both_nonneg_fixnum a b = bit_and (bit_or a b) (bit_or 15 sign_bit) == 0

abbrev has_sign_bit : ℕ → Bool
has_sign_bit w = not (w / 2 ^ 63 % 2 == 0)

unfoldable pub fixnum_fast_add : ℕ → ℕ → Option ℕ
fixnum_fast_add a b = let sum = (a + b) % 2 ^ 64 in if has_sign_bit sum then none else some sum

unfoldable pub fixnum_fast_sub : ℕ → ℕ → Option ℕ
fixnum_fast_sub a b = if ltb a b then none else some (a - b)

-- `__builtin_mul_overflow` on 64 bits
unfoldable pub fixnum_fast_mul : ℕ → ℕ → Option ℕ
fixnum_fast_mul a b =
    let prod = a / 16 * b in
    if leb (2 ^ 64) prod then none else if has_sign_bit prod then none else some prod

unfoldable pub fixnum_fast_div : ℕ → ℕ → Option ℕ
fixnum_fast_div a b = if b == 0 then none else some (a / b * 16 % 2 ^ 64)
