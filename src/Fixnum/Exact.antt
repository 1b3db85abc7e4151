-- ===== src/Fixnum/Exact.antt =====
-- The fixnum operations of src/c/runtime.c compute exactly, or report that the result does not fit.
use isiki.Prelude.{
  ℕ, zero, suc, ◌+◌, ◌-◌, ◌*◌, ◌/◌, ◌%◌, ◌^◌, ◌≤◌, ◌<◌, ◌≡◌, refl, sym, ap, ◌∙◌, Bool, true, false,
  not, ◌⊎◌, inl, inr, Option, none, some, arith, ltb, leb, ltb→lt, leb→le, Bool-cases, ◌==◌,
  if◌then◌else◌,
}
use native.Mathlib.Nat.{mul-le-mul, div-add-mod, mod-lt, div-le_self}
use isiki.Prelude.Int.{ℤ, pos, pos_part, neg_part, signed, ◌+ℤ◌, ◌*ℤ◌}
use isiki.Fixnum.{
  magnitude_mask, os_make_fixnum_signed, os_fixnum_magnitude, os_fixnum_is_negative, same,
  fixnum_negate, fixnum_add_signed_unchecked, fixnum_add_signed, fixnum_multiply_signed_unchecked,
  fixnum_multiply_signed, fixnum_divide_signed_unchecked, fixnum_divide_signed,
}
use isiki.Fixnum.Word.{IsFixnum, to_ℤ, to_ℤ-make, magnitude-le, is_fixnum-IsFixnum}

-- The result for the integer z: the fixnum of z, or nothing if z has more than 59 bits.
abbrev pub Exact : ℤ → Option ℕ → Type 0
Exact z none = magnitude_mask < pos_part z + neg_part z
Exact z (some r) = IsFixnum r × (to_ℤ r ≡ z)

Exact-make :
    (negative : Bool) (m : ℕ) (z : ℤ)
    → m ≤ magnitude_mask
    → signed negative m ≡ z
    → Exact z (some (os_make_fixnum_signed negative m))
Exact-make negative m z h e = let (v, f) = to_ℤ-make negative m h in (f, v ∙ e)

pub add_same : (s : Bool) (m n : ℕ) → signed s (m + n) ≡ signed s m +ℤ signed s n
unfolding ◌+ℤ◌
add_same s m n = ground arith

pub add_left :
    (s t : Bool) (m n : ℕ) → same s t ≡ false → n ≤ m → signed s (m - n) ≡ signed s m +ℤ signed t n
unfolding ◌+ℤ◌
add_left s t m n e h = ground arith

add_right :
    (s t : Bool) (m n : ℕ) → same s t ≡ false → m < n → signed t (n - m) ≡ signed s m +ℤ signed t n
unfolding ◌+ℤ◌
add_right s t m n e h = ground arith

size_signed : (s : Bool) (m : ℕ) → pos_part (signed s m) + neg_part (signed s m) ≡ m
size_signed s m = ground arith

size_add :
    (s : Bool) (m n : ℕ)
    → pos_part (signed s m +ℤ signed s n) + neg_part (signed s m +ℤ signed s n) ≡ m + n
size_add s m n =
    ap (λ (z : ℤ). pos_part z + neg_part z) (sym (add_same s m n)) ∙ size_signed s (m + n)

-- Equal signs: the magnitudes add up, in 64 bits without a carry.
same_signs :
    (s : Bool) (m n : ℕ)
    → m ≤ magnitude_mask
    → n ≤ magnitude_mask
    → Exact (signed s m +ℤ signed s n) (
        if ltb magnitude_mask ((m + n) % 2 ^ 64)
        then none
        else some (os_make_fixnum_signed s ((m + n) % 2 ^ 64)))
same_signs s m n hm hn = rw (no_carry) (elim (Bool-cases (ltb magnitude_mask (m + n))) [
  | inl big ↦ rw (big) (omega (arith, size_add s m n, ltb→lt magnitude_mask (m + n) big))
  | inr fits ↦ rw (fits) (Exact-make s (m + n) _ (ground arith) (add_same s m n))
])
  where
    no_carry : (m + n) % 2 ^ 64 ≡ m + n
    no_carry = omega arith

-- Unlike signs: the smaller magnitude is taken from the greater.
unlike_signs :
    (s t : Bool) (m n : ℕ)
    → same s t ≡ false
    → m ≤ magnitude_mask
    → n ≤ magnitude_mask
    → Exact (signed s m +ℤ signed t n) (
        if leb n m
        then some (os_make_fixnum_signed s (m - n))
        else some (os_make_fixnum_signed t (n - m)))
unlike_signs s t m n e hm hn = elim (Bool-cases (leb n m)) [
  | inl le ↦ rw (le) (Exact-make s (m - n) _ (omega arith) (add_left s t m n e (leb→le n m le)))
  | inr lt ↦ rw (lt) (Exact-make t (n - m) _ (omega arith) (add_right s t m n e (ground arith)))
]

unchecked_add-Exact : (a b : ℕ) → Exact (to_ℤ a +ℤ to_ℤ b) (fixnum_add_signed_unchecked a b)
unfolding fixnum_add_signed_unchecked
unchecked_add-Exact a b =
    go (os_fixnum_is_negative a) (os_fixnum_is_negative b) (os_fixnum_magnitude a)
      (os_fixnum_magnitude b) (magnitude-le a) (magnitude-le b)
  where
    go :
        (s t : Bool) (m n : ℕ)
        → m ≤ magnitude_mask
        → n ≤ magnitude_mask
        → Exact (signed s m +ℤ signed t n) (
            if same s t
            then if ltb magnitude_mask ((m + n) % 2 ^ 64)
              then none
              else some (os_make_fixnum_signed s ((m + n) % 2 ^ 64))
            else if leb n m
            then some (os_make_fixnum_signed s (m - n))
            else some (os_make_fixnum_signed t (n - m)))
    go true true m n hm hn = same_signs true m n hm hn
    go true false m n hm hn = unlike_signs true false m n refl hm hn
    go false true m n hm hn = unlike_signs false true m n refl hm hn
    go false false m n hm hn = same_signs false m n hm hn

-- Fixnum addition gives the fixnum of the sum, or nothing exactly where the sum has more than 59 bits.
pub fixnum_add_signed-Exact :
    (a b : ℕ) → IsFixnum a → IsFixnum b → Exact (to_ℤ a +ℤ to_ℤ b) (fixnum_add_signed a b)
unfolding fixnum_add_signed
fixnum_add_signed-Exact a b ha hb =
    rw (is_fixnum-IsFixnum a ha, is_fixnum-IsFixnum b hb) (unchecked_add-Exact a b)

pub mul_signed : (s t : Bool) (m n : ℕ) → signed (not (same s t)) (m * n) ≡ signed s m *ℤ signed t n
unfolding ◌*ℤ◌
mul_signed s t m n = grind arith

size_mul :
    (s t : Bool) (m n : ℕ)
    → pos_part (signed s m *ℤ signed t n) + neg_part (signed s m *ℤ signed t n) ≡ m * n
size_mul s t m n =
    ap (λ (z : ℤ). pos_part z + neg_part z) (sym (mul_signed s t m n)) ∙ size_signed _ (m * n)

pub product_fits : (m n : ℕ) → m ≤ magnitude_mask → n ≤ magnitude_mask → m * n < 2 ^ 128
product_fits m n hm hn =
    omega
      (arith, mul-le-mul {n₁ = m} {m₁ = n} {n₂ = 2 ^ 59} {m₂ = 2 ^ 59} (omega arith) (omega arith))

product-Exact :
    (s t : Bool) (m n : ℕ)
    → m ≤ magnitude_mask
    → n ≤ magnitude_mask
    → Exact (signed s m *ℤ signed t n) (
        if ltb magnitude_mask (m * n % 2 ^ 128)
        then none
        else some (os_make_fixnum_signed (not (same s t)) (m * n % 2 ^ 128 % 2 ^ 64)))
product-Exact s t m n hm hn = rw (no_carry) (elim (Bool-cases (ltb magnitude_mask (m * n))) [
  | inl big ↦ rw (big) (omega (arith, size_mul s t m n, ltb→lt magnitude_mask (m * n) big))
  | inr fits ↦ rw (fits) (
      Exact-make _ (m * n % 2 ^ 64) _ (ground arith)
        (ap (signed (not (same s t))) (small (ground arith)) ∙ mul_signed s t m n))
])
  where
    no_carry : m * n % 2 ^ 128 ≡ m * n
    no_carry = omega (arith, product_fits m n hm hn)

    small : m * n ≤ magnitude_mask → m * n % 2 ^ 64 ≡ m * n
    small h = omega arith

-- Fixnum multiplication gives the fixnum of the product, or nothing exactly where the product has
-- more than 59 bits.
pub fixnum_multiply_signed-Exact :
    (a b : ℕ) → IsFixnum a → IsFixnum b → Exact (to_ℤ a *ℤ to_ℤ b) (fixnum_multiply_signed a b)
unfolding fixnum_multiply_signed fixnum_multiply_signed_unchecked
fixnum_multiply_signed-Exact a b ha hb =
    rw (is_fixnum-IsFixnum a ha, is_fixnum-IsFixnum b hb)
      (product-Exact (os_fixnum_is_negative a) (os_fixnum_is_negative b) (os_fixnum_magnitude a)
        (os_fixnum_magnitude b) (magnitude-le a) (magnitude-le b))

-- Subtraction is addition of `fixnum_negate`, which is exact on every fixnum.
pub fixnum_negate_exact :
    (a : ℕ) → IsFixnum (fixnum_negate a) × (to_ℤ (fixnum_negate a) +ℤ to_ℤ a ≡ pos 0)
unfolding fixnum_negate
fixnum_negate_exact a =
    let (v, f) = to_ℤ-make (not (os_fixnum_is_negative a)) _ (magnitude-le a) in
    (f, ap (λ (z : ℤ). z +ℤ to_ℤ a) v ∙ cancel (os_fixnum_is_negative a) (os_fixnum_magnitude a))
  where
    cancel : (s : Bool) (m : ℕ) → signed (not s) m +ℤ signed s m ≡ pos 0
    cancel s m = unfold ◌+ℤ◌ in ground arith

-- The quotient of integers cut towards zero: the rest has the sign of the dividend.
abbrev pub Truncates : ℤ → ℤ → ℤ → Type 0
Truncates a b q =
    (rest : ℕ) × (rest < pos_part b + neg_part b)
    × ((a ≡ q *ℤ b +ℤ pos rest) ⊎ (a ≡ q *ℤ b +ℤ signed true rest))

abbrev pub Quotient : ℤ → ℤ → Option ℕ → Type 0
Quotient a b none = b ≡ pos 0
Quotient a b (some r) = IsFixnum r × Truncates a b (to_ℤ r)

truncates :
    (s t : Bool) (m n : ℕ)
    → 0 < n
    → signed s m ≡ signed (not (same s t)) (m / n) *ℤ signed t n +ℤ signed s (m % n)
truncates s t m n h =
    ap (signed s) whole
    ∙ add_same s (m / n * n) (m % n)
    ∙ ap (λ (z : ℤ). z +ℤ signed s (m % n))
        (ap (λ (b : Bool). signed b (m / n * n)) (back s t)
          ∙ mul_signed (not (same s t)) t (m / n) n)
  where
    whole : m ≡ m / n * n + m % n
    whole = omega (arith, div-add-mod m n)

    back : (s t : Bool) → s ≡ not (same (not (same s t)) t)
    back s t = ground arith

Quotient-nonzero :
    (x y : ℤ) (b : Bool) (r : ℕ)
    → b ≡ false
    → Quotient x y (some r)
    → Quotient x y (if b then none else some r)
Quotient-nonzero x y true r e q = cc
Quotient-nonzero x y false r e q = q

signs-Quotient :
    (s t : Bool) (m n : ℕ)
    → m ≤ magnitude_mask
    → Quotient
        (signed s m)
        (signed t n)
        (if n == 0 then none else some (os_make_fixnum_signed (not (same s t)) (m / n)))
signs-Quotient s t m zero hm = zero_divisor t
  where
    zero_divisor : (t : Bool) → signed t 0 ≡ pos 0
    zero_divisor t = ground arith
signs-Quotient s t m (suc n) hm =
    let (v, f) = to_ℤ-make (not (same s t)) (m / suc n) (omega (arith, div-le_self m (suc n))) in
    let rest : signed s m
        ≡ signed (not (same s t)) (m / suc n) *ℤ signed t (suc n) +ℤ signed s (m % suc n) =
      truncates s t m (suc n) (omega arith) in
    let whole : signed s m
        ≡ to_ℤ (os_make_fixnum_signed (not (same s t)) (m / suc n)) *ℤ signed t (suc n)
          +ℤ signed s (m % suc n) =
      rw (v) rest in
    let nonzero : (suc n == 0) ≡ false = ground arith in
    Quotient-nonzero _ (signed t (suc n)) _ _ nonzero (
      f,
      (
        m % suc n,
        omega (arith, size_signed t (suc n), mod-lt m {m = suc n} (omega arith)),
        split s _ _ _ whole,
      ),
    )
  where
    split :
        (s : Bool) (x c : ℤ) (r : ℕ)
        → x ≡ c +ℤ signed s r
        → (x ≡ c +ℤ pos r) ⊎ (x ≡ c +ℤ signed true r)
    split true x c r e = inr e
    split false x c r e = inl e

-- Fixnum division gives the quotient cut towards zero, which always fits, or nothing exactly where
-- the divisor is 0.
pub fixnum_divide_signed-Quotient :
    (a b : ℕ) → IsFixnum a → IsFixnum b → Quotient (to_ℤ a) (to_ℤ b) (fixnum_divide_signed a b)
unfolding fixnum_divide_signed fixnum_divide_signed_unchecked
fixnum_divide_signed-Quotient a b ha hb =
    rw (is_fixnum-IsFixnum a ha, is_fixnum-IsFixnum b hb)
      (signs-Quotient (os_fixnum_is_negative a) (os_fixnum_is_negative b) (os_fixnum_magnitude a)
        (os_fixnum_magnitude b) (magnitude-le a))
