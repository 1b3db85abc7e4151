-- ===== src/Fixnum/Word.antt =====
-- What a fixnum word holds, and that the constructors and accessors of src/c/runtime.h and
-- src/c/runtime.c are inverse to one another.
use isiki.Prelude.{
  ℕ, ◌+◌, ◌*◌, ◌/◌, ◌%◌, ◌^◌, ◌≤◌, ◌<◌, ◌≡◌, ◌≢◌, Bool, true, false, not, ◌&&◌, arith, ◌==◌,
}
use isiki.Prelude.Int.{ℤ, signed}
use isiki.Prelude.Bits.{bit_or_pow}
use Prim.Native.Nat.{bit_or}
use isiki.Fixnum.{
  magnitude_mask, sign_bit, is_fixnum, os_make_fixnum_signed, os_fixnum_magnitude,
  os_fixnum_is_negative,
}

-- A 64-bit word with the fixnum tag that is no negative zero.
pub record IsFixnum (w : ℕ) : Type 0 where
  pub fits : w < 2 ^ 64
  pub tagged : w % 16 ≡ 0
  pub no_negative_zero : w ≢ 2 ^ 63

-- The integer that a fixnum stands for.
abbrev pub to_ℤ : ℕ → ℤ
to_ℤ w = signed (os_fixnum_is_negative w) (os_fixnum_magnitude w)

set_sign : (m : ℕ) → m ≤ magnitude_mask → bit_or (m * 16 % 2 ^ 64) sign_bit ≡ m * 16 + 2 ^ 63
set_sign m h = omega (arith, bit_or_pow 63 (m * 16 % 2 ^ 64) (omega arith))

-- A sign and a magnitude of 59 bits are read back from the word, but for the sign of a zero.
pub make_parts :
    (negative : Bool) (m : ℕ)
    → m ≤ magnitude_mask
    → (os_fixnum_magnitude (os_make_fixnum_signed negative m) ≡ m)
      × (os_fixnum_is_negative (os_make_fixnum_signed negative m) ≡ (negative && not (m == 0)))
      × IsFixnum (os_make_fixnum_signed negative m)
unfolding os_make_fixnum_signed os_fixnum_magnitude os_fixnum_is_negative
make_parts true m h = ground (arith, set_sign m h)
make_parts false m h = ground arith

-- Every fixnum word is the one made from its own sign and magnitude.
pub make_of_parts :
    (w : ℕ)
    → IsFixnum w
    → os_make_fixnum_signed (os_fixnum_is_negative w) (os_fixnum_magnitude w) ≡ w
unfolding os_make_fixnum_signed os_fixnum_magnitude os_fixnum_is_negative
make_of_parts w h = ground (arith, set_sign (w / 16 % 2 ^ 59) (omega arith))

pub to_ℤ-make :
    (negative : Bool) (m : ℕ)
    → m ≤ magnitude_mask
    → (to_ℤ (os_make_fixnum_signed negative m) ≡ signed negative m)
      × IsFixnum (os_make_fixnum_signed negative m)
to_ℤ-make negative m h = let (p, q, f) = make_parts negative m h in (ground arith, f)

pub magnitude-le : (w : ℕ) → os_fixnum_magnitude w ≤ magnitude_mask
unfolding os_fixnum_magnitude
magnitude-le w = omega arith

pub is_fixnum-IsFixnum : (w : ℕ) → IsFixnum w → is_fixnum w ≡ true
unfolding is_fixnum
is_fixnum-IsFixnum w h = ground arith
