-- ===== src/Mag/Runs.antt =====
-- Runs of the magnitude routines of src/c/runtime.c, and the theorems at concrete arrays.
use isiki.Prelude.{ℕ, ◌*◌, ◌≡◌, refl, List, [], ◌∷◌, arith, All}
use isiki.Mag.{
  IsLimb, val, mag_len, normalize, mag_compare, add_limbs, mag_add, sub_limbs, mag_sub, mag_mul,
  mag_divmod_small,
}
use isiki.Mag.Product.{mag_mul_correct}
use isiki.Mag.Divide.{mag_divmod}
use isiki.Mag.Divide.Correct.{mag_divmod_correct, Divmod}

-- 2^64 - 1, 2^32 and 7.
abbrev full : List ℕ
full = 0xffff_ffff ∷ 0xffff_ffff ∷ []

abbrev carried : List ℕ
carried = 0 ∷ 1 ∷ []

abbrev seven : List ℕ
seven = 7 ∷ []

add_carries : mag_add full (1 ∷ []) ≡ 0 ∷ 0 ∷ 1 ∷ []
unfolding mag_add normalize mag_len add_limbs
add_carries = refl

sub_borrows : mag_sub carried (1 ∷ []) ≡ 0xffff_ffff ∷ []
unfolding mag_sub normalize mag_len sub_limbs
sub_borrows = refl

mul_full : mag_mul full full ≡ 1 ∷ 0 ∷ 0xffff_fffe ∷ 0xffff_ffff ∷ []
unfolding mag_mul
mul_full = refl

divmod_full : mag_divmod full seven ≡ (0x9249_2492 ∷ 0x2492_4924 ∷ [], 1 ∷ [])
unfolding mag_divmod normalize mag_len mag_compare sub_limbs
divmod_full = refl

small_full : mag_divmod_small full 10 ≡ (0x9999_9999 ∷ 0x1999_9999 ∷ [], 5)
unfolding mag_divmod_small
small_full = refl

mag_mul_correct_example :
    (val (mag_mul full carried) ≡ val full * val carried) × All IsLimb (mag_mul full carried)
mag_mul_correct_example = mag_mul_correct full carried (omega arith) (omega arith)

mag_divmod_correct_example : Divmod full seven (mag_divmod full seven)
mag_divmod_correct_example = mag_divmod_correct full seven (omega arith) (omega arith) (omega arith)
