-- ===== src/Mag.antt =====
-- src/c/runtime.c, the unsigned magnitudes: arrays of 32-bit limbs, lowest limb first.
-- An array with its count is a list of that length; what a routine writes is the list it returns.
pub mod Value
pub mod Compare
pub mod Sum
pub mod Product
pub mod Small
pub mod Divide
mod Runs
use isiki.Prelude.{
  ℕ, zero, suc, ◌+◌, ◌-◌, ◌*◌, ◌/◌, ◌%◌, ◌^◌, ◌≤◌, ◌<◌, Bool, true, false, List, [], ◌∷◌, ◌++◌, ltb,
  leb, ◌==◌, if◌then◌else◌, length, get_or, set, take, drop, replicate, All,
}
use Prim.Native.Nat.{Ordering, bit_or}

abbrev pub IsLimb : ℕ → Type 0
IsLimb x = x < 2 ^ 32

-- The number that an array of limbs stands for.
abbrev pub val : List ℕ → ℕ
val [] = 0
val (x ∷ xs) = x + 4294967296 * val xs

-- `while (count > 1 && limbs[count - 1] == 0) count--`
unfoldable pub mag_len : List ℕ → ℕ → ℕ
mag_len limbs zero = 0
mag_len limbs (suc zero) = 1
mag_len limbs (suc (suc n)) =
    if get_or limbs (suc n) 0 == 0 then mag_len limbs (suc n) else suc (suc n)

-- The array with the count that `mag_len` returns.
unfoldable pub normalize : List ℕ → List ℕ
normalize limbs = take (mag_len limbs (length limbs)) limbs

-- The loop of `mag_compare`, from limb n - 1 down.
unfoldable pub compare_limbs : List ℕ → List ℕ → ℕ → Ordering
compare_limbs a b zero = Ordering.eq
compare_limbs a b (suc n) =
    if get_or a n 0 == get_or b n 0
    then compare_limbs a b n
    else if ltb (get_or a n 0) (get_or b n 0)
    then Ordering.lt
    else Ordering.gt

-- A negative, zero or positive result is `lt`, `eq` or `gt`.
unfoldable pub mag_compare : List ℕ → List ℕ → Ordering
unfolding compare_limbs
mag_compare a b =
    let alen = mag_len a (length a) in
    let blen = mag_len b (length b) in
    if alen == blen
    then compare_limbs a b alen
    else if ltb alen blen
    then Ordering.lt
    else Ordering.gt

-- The loop of `mag_add`; a list that has ended reads as 0. The last limb written is the carry.
unfoldable pub add_limbs : List ℕ → List ℕ → ℕ → List ℕ
add_limbs [] [] carry = carry ∷ []
add_limbs (x ∷ a) [] carry =
    let sum = (x + 0 + carry) % 2 ^ 64 in (sum % 2 ^ 32) ∷ add_limbs a [] (sum / 2 ^ 32)
add_limbs [] (y ∷ b) carry =
    let sum = (0 + y + carry) % 2 ^ 64 in (sum % 2 ^ 32) ∷ add_limbs [] b (sum / 2 ^ 32)
add_limbs (x ∷ a) (y ∷ b) carry =
    let sum = (x + y + carry) % 2 ^ 64 in (sum % 2 ^ 32) ∷ add_limbs a b (sum / 2 ^ 32)

unfoldable pub mag_add : List ℕ → List ℕ → List ℕ
mag_add a b = normalize (add_limbs a b 0)

-- The loop of `mag_sub`: it ends with the limbs of `a`, and borrows wrap at 64 bits.
unfoldable pub sub_limbs : List ℕ → List ℕ → ℕ → List ℕ
sub_limbs [] b borrow = []
sub_limbs (x ∷ a) [] borrow =
    ((x + 2 ^ 64 - 0 + 2 ^ 64 - borrow) % 2 ^ 64 % 2 ^ 32)
    ∷ sub_limbs a [] (if ltb x (0 + borrow) then 1 else 0)
sub_limbs (x ∷ a) (y ∷ b) borrow =
    ((x + 2 ^ 64 - y + 2 ^ 64 - borrow) % 2 ^ 64 % 2 ^ 32)
    ∷ sub_limbs a b (if ltb x (y + borrow) then 1 else 0)

unfoldable pub mag_sub : List ℕ → List ℕ → List ℕ
mag_sub a b = normalize (sub_limbs a b 0)

-- The inner loop of `mag_mul` on one limb of `a`, over `out` from index i on.
-- `out` has `alen + blen` limbs, so the third clause is never reached.
unfoldable pub mul_row : ℕ → List ℕ → List ℕ → ℕ → List ℕ
mul_row x [] (o ∷ out) carry = ((o + carry) % 2 ^ 64) ∷ out
mul_row x (y ∷ b) (o ∷ out) carry =
    let prod = (x * y + o + carry) % 2 ^ 64 in (prod % 2 ^ 32) ∷ mul_row x b out (prod / 2 ^ 32)
mul_row x b [] carry = []

-- The limb at index i is final after its round: the later rounds write above it.
abbrev below_first : (List ℕ → List ℕ) → List ℕ → List ℕ
below_first rounds [] = []
below_first rounds (o ∷ out) = o ∷ rounds out

unfoldable pub mul_limbs : List ℕ → List ℕ → List ℕ → List ℕ
unfolding mul_row
mul_limbs [] b out = out
mul_limbs (x ∷ a) b out = below_first (mul_limbs a b) (mul_row x b out 0)

unfoldable pub mag_mul : List ℕ → List ℕ → List ℕ
unfolding mul_limbs normalize mag_len
mag_mul a b = normalize (mul_limbs a b (replicate (length a + length b) 0))

-- `while (carry != 0)` of `mag_mul_small_add_small`: a 64-bit carry has two limbs at most.
unfoldable pub carry_limbs : ℕ → ℕ → List ℕ
carry_limbs zero carry = []
carry_limbs (suc rounds) carry =
    let rest = carry_limbs rounds (carry / 2 ^ 32) in
    if carry == 0 then [] else (carry % 2 ^ 32) ∷ rest

unfoldable pub mul_small_limbs : List ℕ → ℕ → ℕ → List ℕ
unfolding carry_limbs
mul_small_limbs [] mul carry = carry_limbs 2 carry
mul_small_limbs (x ∷ limbs) mul carry =
    let prod = (x * mul + carry) % 2 ^ 64 in
    (prod % 2 ^ 32) ∷ mul_small_limbs limbs mul (prod / 2 ^ 32)

unfoldable pub mag_mul_small_add_small : List ℕ → ℕ → ℕ → List ℕ
unfolding mul_small_limbs normalize mag_len
mag_mul_small_add_small limbs mul add = normalize (mul_small_limbs limbs mul add)

-- One round of `mag_divmod_small`, on the quotient and remainder of the limbs above.
unfoldable pub small_step : ℕ → ℕ → List ℕ × ℕ → List ℕ × ℕ
small_step div x (quot, r) =
    let cur = bit_or (r * 2 ^ 32 % 2 ^ 64) x in ((cur / div) ∷ quot, cur % div)

unfoldable pub small_limbs : List ℕ → ℕ → List ℕ × ℕ
unfolding small_step
small_limbs [] div = ([], 0)
small_limbs (x ∷ limbs) div = small_step div x (small_limbs limbs div)

-- The quotient and `*rem`.
unfoldable pub mag_divmod_small : List ℕ → ℕ → List ℕ × ℕ
unfolding small_limbs normalize mag_len
mag_divmod_small limbs div = let (quot, r) = small_limbs limbs div in (normalize quot, r)
