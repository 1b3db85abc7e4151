-- ===== src/Decimal/Digits.antt =====
-- The digits that src/c/print.c sends out: what they say, and that they fit their buffers.
use isiki.Prelude.{
  ℕ, zero, suc, ◌+◌, ◌-◌, ◌*◌, ◌/◌, ◌%◌, ◌^◌, ◌≤◌, ◌<◌, ◌≡◌, inl, inr, refl, sym, ap, ◌∙◌, true,
  false, Option, some, List, [], ◌∷◌, arith, ltb, ltb→ge, ◌==◌, ==→eq, Bool-cases, length, All,
}
use native.Mathlib.Nat.{pow-suc}
use isiki.Mag.{IsLimb, val, mag_divmod_small}
use isiki.Mag.Value.{IsNormal}
use isiki.Integer.{is_zero_mag}
use isiki.Integer.Canonical.{is_zero_mag-val}
use isiki.Mag.Small.{mag_divmod_small_correct, mag_divmod_small-IsNormal}
use isiki.Decimal.{fixnum_digits, print_fixnum, digits_left, bignum_digits, is_digit, all_digits}

-- The number that decimal digits say behind a number.
abbrev pub decimal : ℕ → List ℕ → ℕ
decimal n [] = n
decimal n (c ∷ cs) = decimal (n * 10 + (c - 48)) cs

abbrev pub IsDigits : List ℕ → Type 0
IsDigits digits = all_digits digits ≡ true

digit-IsDigits : (d : ℕ) (digits : List ℕ) → d < 10 → IsDigits digits → IsDigits ((48 + d) ∷ digits)
digit-IsDigits d digits h k = rw (one d h) k
  where
    one : (n : ℕ) → n < 10 → is_digit (48 + n) ≡ true
    one n h = ground arith

-- Digits that are sent out in front of others.
abbrev pub Says : ℕ → List ℕ → Option (List ℕ) → Type 0
Says value digits o =
    (text : List ℕ) × (o ≡ some text) × IsDigits text × (decimal 0 text ≡ decimal value digits)

-- A digit goes in front.
division-Says :
    (value quot rem : ℕ) (digits : List ℕ) (o : Option (List ℕ))
    → quot * 10 + rem ≡ value
    → Says quot ((48 + rem) ∷ digits) o
    → Says value digits o
division-Says value quot rem digits o f (text, e, all, same) =
    (text, e, all, same ∙ ap (λ (n : ℕ). decimal n digits) (omega arith))

next-Says :
    (value : ℕ) (digits : List ℕ) (o : Option (List ℕ))
    → Says (value / 10) ((48 + value % 10) ∷ digits) o
    → Says value digits o
next-Says value digits o says =
    division-Says value (value / 10) (value % 10) digits o (omega arith) says

last-Says :
    (value : ℕ) (digits : List ℕ)
    → ltb 0 value ≡ false
    → IsDigits digits
    → Says value digits (some digits)
last-Says value digits e k =
    (digits, refl, k, ap (λ (n : ℕ). decimal n digits) (nothing (ltb→ge 0 value e)))
  where
    nothing : value ≤ 0 → 0 ≡ value
    nothing h = omega arith

fixnum_digits-Says :
    (room value : ℕ) (digits : List ℕ)
    → value < 10 ^ room
    → IsDigits digits
    → Says value digits (fixnum_digits room value digits)
unfolding fixnum_digits
fixnum_digits-Says zero value digits h k =
    rw (none_left value h) (last-Says value digits (none_left value h) k)
  where
    none_left : (n : ℕ) → n < 1 → ltb 0 n ≡ false
    none_left n h = ground arith
fixnum_digits-Says (suc room) value digits h k = elim (Bool-cases (ltb 0 value)) [
  | inl e ↦ rw e (
      next-Says value digits _ (
        fixnum_digits-Says room (value / 10) ((48 + value % 10) ∷ digits)
          (omega (arith, pow-suc 10 room)) (digit-IsDigits (value % 10) digits (omega arith) k)))
  | inr e ↦ rw e (last-Says value digits e k)
]

-- 20 digits are enough for 64 bits.
pub print_fixnum-Says : (value : ℕ) → value < 2 ^ 64 → Says value [] (print_fixnum value)
unfolding print_fixnum
print_fixnum-Says value h = elim (Bool-cases (value == 0)) [
  | inl e ↦ rw e (48 ∷ [], refl, refl, sym (==→eq value 0 e))
  | inr e ↦ rw e (fixnum_digits-Says 20 value [] (omega arith) refl)
]

digits_left-val : (l : List ℕ) → All IsLimb l → IsNormal l → digits_left l ≡ ltb 0 (val l)
unfolding is_zero_mag
digits_left-val [] h n = absurd (omega arith)
digits_left-val (x ∷ []) h n = ground arith
digits_left-val (x ∷ y ∷ l) h n = ground (arith, is_zero_mag-val (x ∷ y ∷ l) h n)

bignum_digits-Says :
    (room : ℕ) (work digits : List ℕ)
    → All IsLimb work
    → IsNormal work
    → val work < 10 ^ room
    → IsDigits digits
    → Says (val work) digits (bignum_digits room work digits)
unfolding bignum_digits
bignum_digits-Says zero work digits l n h k =
    rw (digits_left-val work l n, none_left (val work) h)
      (last-Says (val work) digits (none_left (val work) h) k)
  where
    none_left : (m : ℕ) → m < 1 → ltb 0 m ≡ false
    none_left m h = ground arith
bignum_digits-Says (suc room) work digits l n h k =
    let (e, lt, limbs) = mag_divmod_small_correct work 10 l (omega arith) (omega arith) in
    elim (Bool-cases (ltb 0 (val work))) [
      | inl f ↦
          rw (digits_left-val work l n, f)
            (division-Says (val work) (val (mag_divmod_small work 10).0)
              (mag_divmod_small work 10).1 digits _ e
              (bignum_digits-Says room (mag_divmod_small work 10).0
                ((48 + (mag_divmod_small work 10).1) ∷ digits) limbs
                (mag_divmod_small-IsNormal work 10 n.0) (omega (arith, pow-suc 10 room, e))
                (digit-IsDigits (mag_divmod_small work 10).1 digits lt k)))
      | inr f ↦ rw (digits_left-val work l n, f) (last-Says (val work) digits f k)
    ]

five : (k : ℕ) → 10 ^ suc (suc (suc (suc (suc k)))) ≡ 10 ^ k * 100000
five k = omega (
  arith,
  pow-suc 10 k,
  pow-suc 10 (suc k),
  pow-suc 10 (suc (suc k)),
  pow-suc 10 (suc (suc (suc k))),
  pow-suc 10 (suc (suc (suc (suc k)))),
)

ten_digits : (n : ℕ) → 10 ^ (10 * suc n) ≡ 10 ^ (10 * n) * 10000000000
ten_digits n = ap (λ (k : ℕ). 10 ^ k) (omega arith) ∙ ten (10 * n)
  where
    ten :
        (k : ℕ)
        → 10 ^ suc (suc (suc (suc (suc (suc (suc (suc (suc (suc k))))))))) ≡ 10 ^ k * 10000000000
    ten k = omega (arith, five k, five (suc (suc (suc (suc (suc k))))))

val-pow : (l : List ℕ) → All IsLimb l → val l < 10 ^ (10 * length l)
val-pow [] h = omega arith
val-pow (x ∷ l) h = omega (arith, val-pow l h.1, ten_digits (length l), h.0)

-- No number is too long for the buffer of its limbs.
pub bignum_digits_lem :
    (limbs : List ℕ)
    → All IsLimb limbs
    → IsNormal limbs
    → Says (val limbs) [] (bignum_digits (10 * length limbs) limbs [])
bignum_digits_lem limbs h n =
    bignum_digits-Says (10 * length limbs) limbs [] h n (val-pow limbs h) refl
