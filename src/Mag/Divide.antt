-- ===== src/Mag/Divide.antt =====
-- `mag_divmod` of src/c/runtime.c: long division, one bit at a time from the top.
mod Bit
pub mod Correct
use isiki.Prelude.{
  ℕ, zero, suc, ◌+◌, ◌*◌, ◌/◌, ◌%◌, ◌^◌, Bool, true, false, List, [], ◌∷◌, ◌++◌, if◌then◌else◌,
  length, get_or, set, take, drop, replicate,
}
use Prim.Native.Nat.{Ordering, bit_or}
use isiki.Mag.{mag_len, normalize, mag_compare, sub_limbs}

-- `rem = rem << 1`, limb by limb.
unfoldable pub shl_limbs : List ℕ → ℕ → List ℕ
shl_limbs [] carry = []
shl_limbs (x ∷ rem) carry =
    (bit_or (x * 2 % 2 ^ 64) carry % 2 ^ 32) ∷ shl_limbs rem (x / 2 ^ 31 % 2)

-- `rem[0] |= bit`
unfoldable pub or_first : List ℕ → ℕ → List ℕ
or_first [] bit = []
or_first (x ∷ rem) bit = bit_or x bit ∷ rem

-- `(a[idx / 32] >> (idx % 32)) & 1`
unfoldable pub bit_at : List ℕ → ℕ → ℕ
bit_at a idx = get_or a (idx / 32) 0 / 2 ^ (idx % 32) % 2

-- `quot[idx / 32] |= 1ULL << (idx % 32)`
unfoldable pub set_bit : List ℕ → ℕ → List ℕ
set_bit quot idx = set quot (idx / 32) (bit_or (get_or quot (idx / 32) 0) (2 ^ (idx % 32)))

-- `mag_sub(rem, rlen, b, blen, rem)` writes the first `rlen` limbs.
unfoldable pub sub_in_place : List ℕ → List ℕ → List ℕ
sub_in_place rem b =
    let rlen = mag_len rem (length rem) in sub_limbs (take rlen rem) b 0 ++ drop rlen rem

abbrev at_least : Ordering → Bool
at_least Ordering.lt = false
at_least Ordering.eq = true
at_least Ordering.gt = true

-- The body of the loop at bit `idx`: the new quotient and remainder.
unfoldable pub divmod_step : List ℕ → List ℕ → ℕ → List ℕ × List ℕ → List ℕ × List ℕ
unfolding shl_limbs or_first bit_at set_bit sub_in_place
divmod_step a b idx (quot, rem) =
    let rem' = or_first (shl_limbs rem 0) (bit_at a idx) in
    if at_least (mag_compare (normalize rem') b)
    then (set_bit quot idx, sub_in_place rem' b)
    else (quot, rem')

unfoldable pub divmod_loop : List ℕ → List ℕ → ℕ → List ℕ × List ℕ → List ℕ × List ℕ
unfolding divmod_step
divmod_loop a b zero state = state
divmod_loop a b (suc idx) state = divmod_loop a b idx (divmod_step a b idx state)

-- The quotient and the remainder.
unfoldable pub mag_divmod : List ℕ → List ℕ → List ℕ × List ℕ
unfolding divmod_loop
mag_divmod a b =
    let a' = normalize a in
    let zeros = replicate (length a') 0 in
    let (quot, rem) = divmod_loop a' (normalize b) (length a' * 32) (zeros, zeros) in
    (normalize quot, normalize rem)
