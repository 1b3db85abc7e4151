-- ===== src/Prelude/Bits.antt =====
-- `bit_or` with a bit, and powers of two, at variables: the libraries have no such laws.
use Prim.Native.Nat.{
  ℕ, zero, suc, ◌+◌, ◌*◌, ◌/◌, ◌%◌, ◌^◌, ◌≤◌, ◌<◌, max, min, bit_or, bit_and, digits,
  bit_or-bitwise, bit_and-bitwise,
}
use mathlib.Core.Path.{◌≡◌, refl, sym, ap, ap₂, ◌∙◌}
use native.Mathlib.Omega.{arith}
use native.Mathlib.Nat.{pow-suc, div-div-eq-div-mul}

-- What the native operations mean does not depend on a fuel that is large enough.
module _ (ends : ℕ → ℕ) (bit : ℕ → ℕ → ℕ) where
  runs_out : (fuel y : ℕ) → digits ends bit fuel 0 y ≡ ends y
  runs_out zero y = refl
  runs_out (suc fuel) y = refl

  same_digits :
      (x y fuel fuel' : ℕ)
      → x ≤ fuel
      → x ≤ fuel'
      → digits ends bit fuel x y ≡ digits ends bit fuel' x y
  same_digits zero y fuel fuel' h h' = runs_out fuel y ∙ sym (runs_out fuel' y)
  same_digits (suc x) y zero fuel' h h' = absurd (omega arith)
  same_digits (suc x) y (suc fuel) zero h h' = absurd (omega arith)
  same_digits (suc x) y (suc fuel) (suc fuel') h h' =
      ap (λ (t : ℕ). t * 2 + bit (suc x % 2) (y % 2))
        (same_digits (suc x / 2) (y / 2) fuel fuel' (omega arith) (omega arith))

  -- The lowest bit apart, where the end of x goes on bit by bit as well.
  lowest :
      ((y : ℕ) → ends y ≡ ends (y / 2) * 2 + bit 0 (y % 2))
      → (x y : ℕ)
      → digits ends bit x x y ≡ digits ends bit (x / 2) (x / 2) (y / 2) * 2 + bit (x % 2) (y % 2)
  lowest go_on zero y = go_on y
  lowest go_on (suc x) y =
      ap (λ (t : ℕ). t * 2 + bit (suc x % 2) (y % 2))
        (same_digits (suc x / 2) (y / 2) x (suc x / 2) (omega arith) (omega arith))

pub zero-bit_or : (b : ℕ) → bit_or 0 b ≡ b
zero-bit_or b = bit_or-bitwise 0 b

pub lowest-bit_or : (x y : ℕ) → bit_or x y ≡ max (x % 2) (y % 2) + 2 * bit_or (x / 2) (y / 2)
lowest-bit_or x y = omega (
  arith,
  lowest (λ t. t) max (λ t. omega arith) x y,
  bit_or-bitwise x y,
  bit_or-bitwise (x / 2) (y / 2),
)

zero_right : (bound x : ℕ) → x ≤ bound → bit_or x 0 ≡ x
zero_right bound zero h = zero-bit_or 0
zero_right (suc bound) (suc x) h =
    omega (arith, lowest-bit_or (suc x) 0, zero_right bound (suc x / 2) (omega arith))
zero_right zero (suc x) h = absurd (omega arith)

pub bit_or-zero : (x : ℕ) → bit_or x 0 ≡ x
bit_or-zero x = zero_right x x (omega arith)

-- Setting the lowest bit of an even number.
pub bit_or_low : (x c : ℕ) → x % 2 ≡ 0 → c ≤ 1 → bit_or x c ≡ x + c
bit_or_low x c e h =
    omega (arith, lowest-bit_or x c, ap (bit_or (x / 2)) half_zero, bit_or-zero (x / 2))
  where
    half_zero : c / 2 ≡ 0
    half_zero = omega arith

pub pow_pos : (j : ℕ) → 0 < 2 ^ j
pow_pos zero = omega arith
pow_pos (suc j) = omega (arith, pow_pos j, pow-suc 2 j)

pub pow-add : (i j : ℕ) → 2 ^ (i + j) ≡ 2 ^ i * 2 ^ j
pow-add zero j = omega (arith, ap (λ t. 2 ^ t) (zero_add))
  where
    zero_add : 0 + j ≡ j
    zero_add = omega arith
pow-add (suc i) j = omega (
  arith,
  ap (λ t. 2 ^ t) (suc_add),
  pow-suc 2 (i + j),
  ap (λ t. 2 * t) (pow-add i j),
  ap (λ t. t * 2 ^ j) (pow-suc 2 i),
)
  where
    suc_add : suc i + j ≡ suc (i + j)
    suc_add = omega arith

-- Setting a bit that is clear adds it.
pub bit_or_pow : (j x : ℕ) → x / 2 ^ j % 2 ≡ 0 → bit_or x (2 ^ j) ≡ x + 2 ^ j
bit_or_pow zero x h = bit_or_low x 1 (omega arith) (omega arith)
bit_or_pow (suc j) x h = omega (
  arith,
  lowest-bit_or x (2 ^ suc j),
  pow-suc 2 j,
  ap (bit_or (x / 2)) half_pow,
  bit_or_pow j (x / 2) half_clear,
)
  where
    half_pow : 2 ^ suc j / 2 ≡ 2 ^ j
    half_pow = omega (arith, pow-suc 2 j)

    double_pow : 2 * 2 ^ j ≡ 2 ^ suc j
    double_pow = omega (arith, pow-suc 2 j)

    half_clear : x / 2 / 2 ^ j % 2 ≡ 0
    half_clear = ap (λ t. t % 2) (div-div-eq-div-mul x 2 (2 ^ j) ∙ ap (λ t. x / t) double_pow) ∙ h

-- `(x << k) | y` where `y` has k bits.
bit_or_mul_pow : (k x y : ℕ) → y < 2 ^ k → bit_or (x * 2 ^ k) y ≡ x * 2 ^ k + y
bit_or_mul_pow zero x y h =
    omega (arith, ap (bit_or (x * 2 ^ 0)) none_left, bit_or-zero (x * 2 ^ 0))
  where
    none_left : y ≡ 0
    none_left = omega arith
bit_or_mul_pow (suc k) x y h = omega (
  arith,
  lowest-bit_or (x * 2 ^ suc k) y,
  ap (λ t. x * t) (pow-suc 2 k),
  ap (λ t. bit_or t (y / 2)) halves,
  bit_or_mul_pow k x (y / 2) (omega (arith, pow-suc 2 k)),
)
  where
    halves : x * 2 ^ suc k / 2 ≡ x * 2 ^ k
    halves = omega (arith, ap (λ t. x * t) (pow-suc 2 k))

-- `(r << 32) | x` on 64 bits, of two limbs.
pub bit_or_shifted :
    (r x : ℕ) → r < 2 ^ 32 → x < 2 ^ 32 → bit_or (r * 2 ^ 32 % 2 ^ 64) x ≡ r * 2 ^ 32 + x
bit_or_shifted r x hr hx = ap (λ t. bit_or t x) fits ∙ bit_or_mul_pow 32 r x hx
  where
    fits : r * 2 ^ 32 % 2 ^ 64 ≡ r * 2 ^ 32
    fits = omega arith

lowest-bit_and : (x y : ℕ) → bit_and x y ≡ min (x % 2) (y % 2) + 2 * bit_and (x / 2) (y / 2)
lowest-bit_and x y = omega (
  arith,
  lowest (λ t. 0) min (λ t. omega arith) x y,
  bit_and-bitwise x y,
  bit_and-bitwise (x / 2) (y / 2),
)

-- One bit up is one bit of the half.
pub bit_suc : (x j : ℕ) → x / 2 ^ suc j % 2 ≡ x / 2 / 2 ^ j % 2
bit_suc x j = ap (λ t. t % 2) (ap (λ t. x / t) double_pow ∙ sym (div-div-eq-div-mul x 2 (2 ^ j)))
  where
    double_pow : 2 ^ suc j ≡ 2 * 2 ^ j
    double_pow = omega (arith, pow-suc 2 j)

pub bit_and_bit : (j a b : ℕ) → bit_and a b / 2 ^ j % 2 ≡ min (a / 2 ^ j % 2) (b / 2 ^ j % 2)
bit_and_bit zero a b = omega (arith, lowest-bit_and a b)
bit_and_bit (suc j) a b =
    bit_suc (bit_and a b) j
    ∙ ap (λ t. t / 2 ^ j % 2) half_and
    ∙ bit_and_bit j (a / 2) (b / 2)
    ∙ ap₂ min (sym (bit_suc a j)) (sym (bit_suc b j))
  where
    half_and : bit_and a b / 2 ≡ bit_and (a / 2) (b / 2)
    half_and = omega (arith, lowest-bit_and a b)

pub bit_or_bit : (j a b : ℕ) → bit_or a b / 2 ^ j % 2 ≡ max (a / 2 ^ j % 2) (b / 2 ^ j % 2)
bit_or_bit zero a b = omega (arith, lowest-bit_or a b)
bit_or_bit (suc j) a b =
    bit_suc (bit_or a b) j
    ∙ ap (λ t. t / 2 ^ j % 2) half_or
    ∙ bit_or_bit j (a / 2) (b / 2)
    ∙ ap₂ max (sym (bit_suc a j)) (sym (bit_suc b j))
  where
    half_or : bit_or a b / 2 ≡ bit_or (a / 2) (b / 2)
    half_or = omega (arith, lowest-bit_or a b)
