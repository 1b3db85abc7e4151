-- ===== src/Decimal/Runs.antt =====
-- Runs of the printing and the reading of integers.
use isiki.Prelude.{ℕ, ◌≡◌, refl, arith, true, none, some, List, [], ◌∷◌, codes}
use isiki.Mag.{mag_divmod_small, small_limbs, small_step, normalize, mag_len}
use isiki.Integer.{Value, bignum}
use isiki.Integer.Canonical.{IsInteger, int_val}
use isiki.Decimal.{print_integer, bignum_digits, read_integer}
use isiki.Decimal.Reading.{IsPrinted, IsRead, print_integer-IsPrinted, read_integer-print_integer}

abbrev minus_wide : Value
minus_wide = bignum true (0 ∷ 0 ∷ 1 ∷ [])

minus_wide-IsInteger : IsInteger minus_wide
minus_wide-IsInteger = (omega arith, omega arith, omega arith)

minus_wide_text : print_integer minus_wide ≡ some (codes "-18446744073709551616")
unfolding print_integer bignum_digits mag_divmod_small small_limbs small_step normalize mag_len
minus_wide_text = refl

no_integer : read_integer (codes "-1+") ≡ none
unfolding read_integer
no_integer = refl

print_integer-IsPrinted_example :
    (text : List ℕ) × (print_integer minus_wide ≡ some text) × IsPrinted (int_val minus_wide) text
print_integer-IsPrinted_example = print_integer-IsPrinted minus_wide minus_wide-IsInteger

read_integer-print_integer_example :
    IsRead (read_integer (codes "-18446744073709551616")) (int_val minus_wide)
read_integer-print_integer_example =
    read_integer-print_integer minus_wide (codes "-18446744073709551616") minus_wide-IsInteger
      minus_wide_text (omega arith)
