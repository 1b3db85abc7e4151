-- ===== src/Fixnum/Runs.antt =====
-- Runs of the fixnum operations of src/c/runtime.c, and the theorems at concrete words.
use isiki.Prelude.{ℕ, ◌≡◌, refl, true, none, some, arith}
use isiki.Prelude.Int.{◌+ℤ◌, ◌*ℤ◌}
use isiki.Fixnum.{
  os_make_fixnum_signed, os_fixnum_magnitude, os_fixnum_is_negative, is_fixnum,
  fixnum_add_signed_unchecked, fixnum_add_signed, fixnum_multiply_signed, num_both_nonneg_fixnum,
}
use isiki.Fixnum.Word.{IsFixnum, to_ℤ}
use isiki.Fixnum.Exact.{Exact, fixnum_add_signed-Exact, fixnum_multiply_signed-Exact}

-- 7, -2 and the greatest fixnum, as words.
abbrev seven : ℕ
seven = 112

abbrev minus_two : ℕ
minus_two = 9223372036854775840

abbrev greatest : ℕ
greatest = 9223372036854775792

made : os_make_fixnum_signed true 2 ≡ minus_two
unfolding os_make_fixnum_signed
made = refl

sum : fixnum_add_signed seven minus_two ≡ some 80
unfolding fixnum_add_signed fixnum_add_signed_unchecked is_fixnum os_make_fixnum_signed
    os_fixnum_magnitude os_fixnum_is_negative
sum = refl

overflow : fixnum_add_signed greatest seven ≡ none
unfolding fixnum_add_signed fixnum_add_signed_unchecked is_fixnum os_make_fixnum_signed
    os_fixnum_magnitude os_fixnum_is_negative
overflow = refl

seven-IsFixnum : IsFixnum seven
seven-IsFixnum = omega arith

minus_two-IsFixnum : IsFixnum minus_two
minus_two-IsFixnum = omega arith

fixnum_add_signed-Exact_example :
    Exact (to_ℤ seven +ℤ to_ℤ minus_two) (fixnum_add_signed seven minus_two)
fixnum_add_signed-Exact_example =
    fixnum_add_signed-Exact seven minus_two seven-IsFixnum minus_two-IsFixnum

fixnum_multiply_signed-Exact_example :
    Exact (to_ℤ seven *ℤ to_ℤ minus_two) (fixnum_multiply_signed seven minus_two)
fixnum_multiply_signed-Exact_example =
    fixnum_multiply_signed-Exact seven minus_two seven-IsFixnum minus_two-IsFixnum

both_nonneg : num_both_nonneg_fixnum seven greatest ≡ true
unfolding num_both_nonneg_fixnum
both_nonneg = refl
