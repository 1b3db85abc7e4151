-- ===== src/Decimal.antt =====
-- Decimal integers: print_fixnum and print_bignum of src/c/print.c, and the integers among the tokens of
-- src/c/reader.c. A text is the list of its characters.
pub mod Digits
pub mod Reading
mod Runs
use isiki.Prelude.{
  ℕ, zero, suc, ◌+◌, ◌-◌, ◌*◌, ◌/◌, ◌%◌, ◌^◌, Bool, true, false, ◌&&◌, ◌||◌, Option, none, some,
  List, [], ◌∷◌, ◌++◌, ltb, leb, ◌==◌, if◌then◌else◌, length, get_or, take,
}
use isiki.Fixnum.{os_fixnum_magnitude, os_fixnum_is_negative}
use isiki.Mag.{mag_mul_small_add_small, mag_divmod_small}
use isiki.Integer.{Value, fixnum, bignum, other, os_make_integer}

abbrev pub reader_token_max : ℕ
reader_token_max = 128

abbrev pub minus : ℕ
minus = 45

-- The buffer of digits is written upwards and sent out downwards; `digits` is what will be sent. `room`
-- is how many digits the buffer still takes: `none` is a write behind its end.
unfoldable pub fixnum_digits : ℕ → ℕ → List ℕ → Option (List ℕ)
fixnum_digits zero value digits = if ltb 0 value then none else some digits
fixnum_digits (suc room) value digits =
    let rest = fixnum_digits room (value / 10) ((48 + value % 10) ∷ digits) in
    if ltb 0 value then rest else some digits

unfoldable pub print_fixnum : ℕ → Option (List ℕ)
unfolding fixnum_digits
print_fixnum value =
    let digits = fixnum_digits 20 value [] in if value == 0 then some (48 ∷ []) else digits

-- `count > 1 || work[0] != 0`
abbrev pub digits_left : List ℕ → Bool
digits_left work = ltb 1 (length work) || ltb 0 (get_or work 0 0)

unfoldable pub bignum_digits : ℕ → List ℕ → List ℕ → Option (List ℕ)
bignum_digits zero work digits = if digits_left work then none else some digits
bignum_digits (suc room) work digits =
    let (quot, rem) = mag_divmod_small work 10 in
    let rest = bignum_digits room quot ((48 + rem) ∷ digits) in
    if digits_left work then rest else some digits

abbrev pub signed_text : Bool → Option (List ℕ) → Option (List ℕ)
signed_text sign none = none
signed_text true (some digits) = some (minus ∷ digits)
signed_text false (some digits) = some digits

-- The buffer has ten digits for each limb.
unfoldable pub print_bignum : Bool → List ℕ → Option (List ℕ)
unfolding bignum_digits
print_bignum sign limbs = signed_text sign (bignum_digits (10 * length limbs) limbs [])

-- The integers of print_value.
unfoldable pub print_integer : Value → Option (List ℕ)
unfolding print_fixnum print_bignum
print_integer (fixnum w) =
    signed_text (os_fixnum_is_negative w) (print_fixnum (os_fixnum_magnitude w))
print_integer (bignum sign limbs) = print_bignum sign limbs
print_integer (other v) = none

abbrev pub is_digit : ℕ → Bool
is_digit c = leb 48 c && leb c 57

abbrev pub all_digits : List ℕ → Bool
all_digits [] = true
all_digits (c ∷ cs) = is_digit c && all_digits cs

unfoldable pub read_digits : List ℕ → List ℕ → List ℕ
read_digits [] limbs = limbs
read_digits (c ∷ cs) limbs = read_digits cs (mag_mul_small_add_small limbs 10 (c - 48))

-- Digits behind the sign: none is no integer.
unfoldable pub read_magnitude : Bool → List ℕ → Option Value
unfolding read_digits
read_magnitude negative [] = none
read_magnitude negative (c ∷ cs) =
    if all_digits (c ∷ cs)
    then some (os_make_integer negative (read_digits (c ∷ cs) (0 ∷ [])))
    else none

unfoldable pub read_token : List ℕ → Option Value
unfolding read_magnitude
read_token [] = none
read_token (c ∷ cs) =
    if c == minus
    then read_magnitude true cs
    else if c == 43
    then read_magnitude false cs
    else read_magnitude false (c ∷ cs)

-- The integer of the characters before the next delimiter, of which the first 127 are kept; `none` where
-- read_atom goes on to floats and symbols.
unfoldable pub read_integer : List ℕ → Option Value
unfolding read_token
read_integer text = read_token (take (reader_token_max - 1) text)
