-- ===== src/Integer.antt =====
-- src/c/runtime.c, the integers of the Lisp: fixnums, and bignums with a sign and a limb array; and
-- the operations on both: floor division, greatest common divisor and integer square root.
-- Scratch buffers and the protection of values from the collector do not change a result.
pub mod Canonical
pub mod Floor
pub mod Gcd
pub mod Root
mod Runs
use isiki.Prelude.{
  ℕ, zero, suc, ◌+◌, ◌*◌, ◌/◌, ◌%◌, ◌^◌, Bool, true, false, not, ◌&&◌, Option, none, some, List, [],
  ◌∷◌, ltb, leb, ◌==◌, if◌then◌else◌, length, get_or,
}
use Prim.Native.Nat.{Ordering, bit_or}
use isiki.Fixnum.{
  magnitude_mask, same, os_make_fixnum, os_make_fixnum_signed, os_fixnum_magnitude,
  os_fixnum_is_negative,
}
use isiki.Mag.{val, normalize, mag_compare, mag_add, mag_sub, mag_divmod_small}
use isiki.Mag.Divide.{mag_divmod}

-- A Lisp value, as far as these routines look at it: a fixnum word, a MAGIC_BIGNUM instance with
-- its sign and limbs, or a value that is no integer.
pub data Value : Type 0 where
  fixnum : ℕ → Value
  bignum : Bool → List ℕ → Value
  other : ℕ → Value

-- signed_mag_t; `count` is the length of `limbs`.
pub record SignedMag : Type 0 where
  pub sign : Bool
  pub limbs : List ℕ

unfoldable pub decompose : Value → SignedMag
decompose (fixnum v) =
    let magnitude = os_fixnum_magnitude v in
    record {
      sign = os_fixnum_is_negative v;
      limbs = normalize ((magnitude % 2 ^ 32) ∷ (magnitude / 2 ^ 32) ∷ []);
    }
decompose (bignum sign limbs) = record { sign = sign; limbs = limbs }
decompose (other v) = record { sign = false; limbs = [] }

-- `count == 1 && limbs[0] == 0`
unfoldable pub is_zero_mag : List ℕ → Bool
is_zero_mag limbs = length limbs == 1 && get_or limbs 0 0 == 0

-- The magnitude of one or two limbs: the second one is shifted in if it is there.
unfoldable pub small_magnitude : List ℕ → ℕ
small_magnitude limbs =
    if length limbs == 2
    then bit_or (get_or limbs 1 0 * 2 ^ 32 % 2 ^ 64) (get_or limbs 0 0)
    else get_or limbs 0 0

-- `limbs` is not empty.
unfoldable pub os_make_integer : Bool → List ℕ → Value
unfolding small_magnitude is_zero_mag
os_make_integer sign limbs =
    let limbs' = normalize limbs in
    let sign' = if is_zero_mag limbs' then false else sign in
    if leb (length limbs') 2 && leb (small_magnitude limbs') magnitude_mask
    then fixnum (os_make_fixnum_signed sign' (small_magnitude limbs'))
    else bignum sign' limbs'

-- The comparison of two limb arrays of one length.
unfoldable pub equal_limbs : List ℕ → List ℕ → Bool
equal_limbs [] [] = true
equal_limbs (x ∷ a) (y ∷ b) = x == y && equal_limbs a b
equal_limbs _ _ = false

-- On the signs and limb arrays of two bignums; unequal counts end in `false` too.
unfoldable pub bignum_equal : Bool → List ℕ → Bool → List ℕ → Bool
unfolding equal_limbs
bignum_equal sign_a a sign_b b = same sign_a sign_b && (length a == length b && equal_limbs a b)

-- The case of a remainder that is not 0, from the signs, the divisor's limbs, and the quotient and
-- remainder wrapped as integers.
unfoldable pub floor_adjust : Bool → Bool → List ℕ → Value → Value → Value × Value
floor_adjust sign_1 sign_2 divisor quot_wrapped rem_wrapped =
    if same sign_1 sign_2
    then (
      os_make_integer false (decompose quot_wrapped).limbs,
      os_make_integer sign_2 (decompose rem_wrapped).limbs,
    )
    else (
      os_make_integer true (mag_add (decompose quot_wrapped).limbs (1 ∷ [])),
      os_make_integer sign_2 (mag_sub divisor (decompose rem_wrapped).limbs),
    )

-- The quotient and the remainder, or `none` where `*div_by_zero` is set.
unfoldable pub floor_divmod : Value → Value → Option (Value × Value)
unfolding floor_adjust decompose is_zero_mag os_make_integer
floor_divmod z1 z2 =
    let m1 = decompose z1 in
    let m2 = decompose z2 in
    let qr = mag_divmod m1.limbs m2.limbs in
    if is_zero_mag m2.limbs
    then none
    else if is_zero_mag qr.1
    then some (os_make_integer (not (same m1.sign m2.sign)) qr.0, fixnum (os_make_fixnum 0))
    else some (
        floor_adjust m1.sign m2.sign m2.limbs (os_make_integer false qr.0)
          (os_make_integer false qr.1))

-- The loop of `mag_gcd`, on fuel; `none` means that the fuel ran out.
unfoldable pub gcd_loop : ℕ → Value → Value → Option Value
gcd_loop zero a b = none
gcd_loop (suc fuel) a b =
    let rest =
      gcd_loop fuel b
        (os_make_integer false (mag_divmod (decompose a).limbs (decompose b).limbs).1) in
    if is_zero_mag (decompose b).limbs then some a else rest

-- The remainders fall, so the value of the second magnitude bounds the rounds.
unfoldable pub mag_gcd : Value → Value → Option Value
unfolding gcd_loop decompose is_zero_mag os_make_integer
mag_gcd a b =
    gcd_loop (suc (val (decompose b).limbs)) (os_make_integer false (decompose a).limbs)
      (os_make_integer false (decompose b).limbs)

-- The halved sum of x and a second magnitude.
unfoldable pub half_sum : List ℕ → List ℕ → Value
half_sum x q = os_make_integer false (mag_divmod_small (mag_add x q) 2).0

unfoldable pub below : List ℕ → List ℕ → Bool
below y x = elim (mag_compare y x) [ Ordering.lt ↦ true | _ ↦ false ]

-- The Newton loop of `mag_isqrt`, on fuel.
unfoldable pub isqrt_loop : ℕ → List ℕ → Value → Value → Option Value
unfolding half_sum below
isqrt_loop zero n x y = none
isqrt_loop (suc fuel) n x y =
    let rest =
      isqrt_loop fuel n y (half_sum (decompose y).limbs (mag_divmod n (decompose y).limbs).0) in
    if below (decompose y).limbs (decompose x).limbs then rest else some x

-- x falls in every round, so the value of the number bounds the rounds.
unfoldable pub mag_isqrt : Value → Option Value
unfolding isqrt_loop decompose os_make_integer
mag_isqrt n_val =
    let n = (decompose n_val).limbs in
    let x = os_make_integer false n in
    isqrt_loop (suc (val n)) n x (half_sum (decompose x).limbs (1 ∷ []))
