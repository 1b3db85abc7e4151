-- ===== src/Integer/Runs.antt =====
-- Runs of the integer operations of src/c/runtime.c, and the theorems at concrete integers.
use isiki.Prelude.{ℕ, ◌≡◌, refl, true, false, some, List, [], ◌∷◌, arith}
use isiki.Prelude.Int.{signed}
use isiki.Mag.{val}
use isiki.Integer.{Value, bignum, os_make_integer, floor_divmod, mag_gcd, mag_isqrt}
use isiki.Integer.Canonical.{IsInteger, int_val, os_make_integer-IsInteger}
use isiki.Integer.Floor.{IsFloor, floor_divmod-IsFloor}
use isiki.Integer.Gcd.{IsGcd, IsNatural, magnitude, mag_gcd-IsGcd}
use isiki.Integer.Root.{IsRoot, mag_isqrt-IsRoot}

-- -7, 2, 2^64 and -(2^64), as values.
abbrev minus_seven : Value
minus_seven = os_make_integer true (7 ∷ [])

abbrev two : Value
two = os_make_integer false (2 ∷ [])

abbrev wide_limbs : List ℕ
wide_limbs = 0 ∷ 0 ∷ 1 ∷ []

abbrev wide : Value
wide = bignum false wide_limbs

abbrev minus_wide : Value
minus_wide = bignum true wide_limbs

wide-IsInteger : IsInteger wide
wide-IsInteger = omega arith

minus_wide-IsInteger : IsInteger minus_wide
minus_wide-IsInteger = omega arith

minus_seven-IsInteger : IsInteger minus_seven
minus_seven-IsInteger = (os_make_integer-IsInteger true (7 ∷ []) (omega arith) (omega arith)).0

two-IsInteger : IsInteger two
two-IsInteger = (os_make_integer-IsInteger false (2 ∷ []) (omega arith) (omega arith)).0

floor_of_minus_seven :
    floor_divmod minus_seven two
    ≡ some (os_make_integer true (4 ∷ []), os_make_integer false (1 ∷ []))
unfolding floor_divmod os_make_integer isiki.Mag.normalize isiki.Mag.mag_len
    isiki.Fixnum.os_fixnum_magnitude isiki.Fixnum.os_make_fixnum_signed isiki.Mag.Divide.mag_divmod
    isiki.Mag.mag_compare isiki.Mag.sub_limbs isiki.Fixnum.os_fixnum_is_negative isiki.Mag.mag_add
    isiki.Mag.mag_sub isiki.Mag.add_limbs
floor_of_minus_seven = refl

gcd_of_wide : mag_gcd wide (os_make_integer true (12 ∷ [])) ≡ some (os_make_integer false (4 ∷ []))
unfolding mag_gcd os_make_integer isiki.Mag.normalize isiki.Mag.mag_len
    isiki.Fixnum.os_fixnum_magnitude isiki.Fixnum.os_make_fixnum_signed isiki.Mag.Divide.mag_divmod
    isiki.Mag.mag_compare isiki.Mag.sub_limbs
gcd_of_wide = refl

root_of_fifteen :
    mag_isqrt (os_make_integer false (15 ∷ [])) ≡ some (os_make_integer false (3 ∷ []))
unfolding mag_isqrt os_make_integer isiki.Mag.normalize isiki.Mag.mag_len
    isiki.Fixnum.os_fixnum_magnitude isiki.Fixnum.os_make_fixnum_signed isiki.Mag.Divide.mag_divmod
    isiki.Mag.mag_compare isiki.Mag.sub_limbs isiki.Fixnum.os_fixnum_is_negative isiki.Mag.mag_add
    isiki.Mag.mag_sub isiki.Mag.add_limbs isiki.Mag.mag_divmod_small
root_of_fifteen = refl

os_make_integer-IsInteger_example :
    IsInteger (os_make_integer true (5 ∷ 0 ∷ []))
    × (int_val (os_make_integer true (5 ∷ 0 ∷ [])) ≡ signed true (val (5 ∷ 0 ∷ [])))
os_make_integer-IsInteger_example =
    os_make_integer-IsInteger true (5 ∷ 0 ∷ []) (omega arith) (omega arith)

floor_divmod-IsFloor_example :
    IsFloor (int_val minus_seven) (int_val two) (floor_divmod minus_seven two)
floor_divmod-IsFloor_example =
    floor_divmod-IsFloor minus_seven two minus_seven-IsInteger two-IsInteger

mag_gcd-IsGcd_example :
    (d : ℕ) × (g : Value) × (mag_gcd wide minus_seven ≡ some g)
    × IsNatural g d
    × IsGcd (magnitude (int_val wide)) (magnitude (int_val minus_seven)) d
mag_gcd-IsGcd_example = mag_gcd-IsGcd wide minus_seven wide-IsInteger minus_seven-IsInteger

mag_isqrt-IsRoot_example :
    (r : ℕ) × (v : Value) × (mag_isqrt wide ≡ some v)
    × IsNatural v r
    × IsRoot (magnitude (int_val wide)) r
mag_isqrt-IsRoot_example = mag_isqrt-IsRoot wide wide-IsInteger
