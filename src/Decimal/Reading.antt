-- ===== src/Decimal/Reading.antt =====
-- What src/c/reader.c reads of the integers that src/c/print.c prints.
use isiki.Prelude.{
  ℕ, ◌-◌, ◌*◌, ◌^◌, ◌≤◌, ◌<◌, ◌≡◌, ◌≢◌, inl, inr, refl, sym, ap, ◌∙◌, Bool, true, false, ◌&&◌,
  Option, none, some, List, [], ◌∷◌, arith, ◌==◌, ==→eq, ==→ne, Bool-cases, length, take,
  take_short, All,
}
use isiki.Prelude.Int.{ℤ, signed}
use mathlib.Core.Path.{subst}
use isiki.Fixnum.Word.{magnitude-le}
use isiki.Mag.{IsLimb, val, mag_mul_small_add_small}
use isiki.Mag.Small.{mag_mul_small_add_small_correct, mag_mul_small_add_small_pos}
use isiki.Fixnum.{os_fixnum_magnitude, os_fixnum_is_negative}
use isiki.Integer.{Value, fixnum, bignum, other, decompose}
use isiki.Integer.Canonical.{IsInteger, int_val, os_make_integer-IsInteger, decompose-IsView}
use isiki.Decimal.{
  minus, print_fixnum, bignum_digits, print_bignum, signed_text, print_integer, is_digit,
  all_digits, read_digits, read_magnitude, read_token, read_integer,
}
use isiki.Decimal.Digits.{decimal, IsDigits, print_fixnum-Says, bignum_digits_lem}

both-true : (a b : Bool) → (a && b) ≡ true → (a ≡ true) × (b ≡ true)
both-true true b e = (refl, e)
both-true false b e = cc

digit-range : (c : ℕ) → is_digit c ≡ true → (48 ≤ c) × (c ≤ 57)
digit-range c e = ground arith

read_digits-decimal :
    (text limbs : List ℕ)
    → IsDigits text
    → All IsLimb limbs
    → 0 < length limbs
    → (val (read_digits text limbs) ≡ decimal (val limbs) text)
      × All IsLimb (read_digits text limbs)
      × (0 < length (read_digits text limbs))
unfolding read_digits
read_digits-decimal [] limbs d h p = (refl, h, p)
read_digits-decimal (c ∷ cs) limbs d h p =
    let (one, rest) = both-true (is_digit c) (all_digits cs) d in
    let (low, high) = digit-range c one in
    let (same, all) =
      mag_mul_small_add_small_correct limbs 10 (c - 48) h (omega arith) (omega arith) in
    let (value, bounded, some_limb) =
      read_digits-decimal cs (mag_mul_small_add_small limbs 10 (c - 48)) rest all
        (mag_mul_small_add_small_pos limbs 10 (c - 48) p) in
    (value ∙ ap (λ (n : ℕ). decimal n cs) same, bounded, some_limb)

-- A value that is an integer, in the one form that it has, and the number that it is.
abbrev pub IsRead : Option Value → ℤ → Type 0
IsRead none n = ⊥
IsRead (some v) n = IsInteger v × (int_val v ≡ n)

read_magnitude-IsRead :
    (negative : Bool) (text : List ℕ)
    → IsDigits text
    → 0 < length text
    → IsRead (read_magnitude negative text) (signed negative (decimal 0 text))
unfolding read_magnitude
read_magnitude-IsRead negative [] d p = absurd (omega arith)
read_magnitude-IsRead negative (c ∷ cs) d p =
    let (value, bounded, some_limb) =
      read_digits-decimal (c ∷ cs) (0 ∷ []) d (omega arith) (omega arith) in
    let (canonical, same) =
      os_make_integer-IsInteger negative (read_digits (c ∷ cs) (0 ∷ [])) bounded some_limb in
    rw d (canonical, same ∙ ap (signed negative) value)

-- A sign in front of digits, as it is printed.
abbrev with_sign : Bool → List ℕ → List ℕ
with_sign true digits = minus ∷ digits
with_sign false digits = digits

read_token-IsRead :
    (negative : Bool) (digits : List ℕ)
    → IsDigits digits
    → 0 < length digits
    → IsRead (read_token (with_sign negative digits)) (signed negative (decimal 0 digits))
unfolding read_token
read_token-IsRead true digits d p = read_magnitude-IsRead true digits d p
read_token-IsRead false [] d p = absurd (omega arith)
read_token-IsRead false (c ∷ cs) d p =
    rw
      (
        no_minus (digit-range c (both-true (is_digit c) (all_digits cs) d).0).0,
        no_plus (digit-range c (both-true (is_digit c) (all_digits cs) d).0).0,
      )
      (read_magnitude-IsRead false (c ∷ cs) d p)
  where
    no_minus : 48 ≤ c → (c == minus) ≡ false
    no_minus h = ground arith

    no_plus : 48 ≤ c → (c == 43) ≡ false
    no_plus h = ground arith

-- What is printed of a number: its sign, and its digits.
abbrev pub IsPrinted : ℤ → List ℕ → Type 0
IsPrinted n text =
    (negative : Bool) × (digits : List ℕ) × (text ≡ with_sign negative digits)
    × IsDigits digits
    × (0 < length digits)
    × (signed negative (decimal 0 digits) ≡ n)

printed :
    (negative : Bool) (m : ℕ) (o : Option (List ℕ))
    → (text : List ℕ) × (o ≡ some text) × IsDigits text × (decimal 0 text ≡ m) × (0 < length text)
    → (text : List ℕ) × (signed_text negative o ≡ some text) × IsPrinted (signed negative m) text
printed true m o (digits, e, d, same, p) =
    (minus ∷ digits, rw e refl, (true, digits, refl, d, p, ap (signed true) same))
printed false m o (digits, e, d, same, p) =
    (digits, rw e refl, (false, digits, refl, d, p, ap (signed false) same))

some_digits : (m : ℕ) (text : List ℕ) → decimal 0 text ≡ m → 0 < m → 0 < length text
some_digits m [] e h = absurd (omega arith)
some_digits m (c ∷ cs) e h = omega arith

print_fixnum-some :
    (m : ℕ)
    → m < 2 ^ 64
    → (text : List ℕ) × (print_fixnum m ≡ some text)
      × IsDigits text
      × (decimal 0 text ≡ m)
      × (0 < length text)
unfolding print_fixnum
print_fixnum-some m h = elim (Bool-cases (m == 0)) [
  | inl e ↦ rw e (48 ∷ [], refl, refl, sym (==→eq m 0 e), omega arith)
  | inr e ↦
      let (text, found, d, same) = print_fixnum-Says m h in
      (text, found, d, same, some_digits m text same (positive (==→ne m 0 e)))
]
  where
    positive : m ≢ 0 → 0 < m
    positive ne = omega arith

-- Every integer is printed, without a write behind the buffer of its digits: as its sign, which is a
-- minus or nothing, and at least one digit, which say the integer in decimal.
pub print_integer-IsPrinted :
    (v : Value)
    → IsInteger v
    → (text : List ℕ) × (print_integer v ≡ some text) × IsPrinted (int_val v) text
unfolding print_integer print_bignum decompose
print_integer-IsPrinted (fixnum w) h =
    printed (os_fixnum_is_negative w) (os_fixnum_magnitude w) (print_fixnum (os_fixnum_magnitude w))
      (print_fixnum-some (os_fixnum_magnitude w) (omega (arith, magnitude-le w)))
print_integer-IsPrinted (bignum s l) h =
    let (text, e, d, same) = bignum_digits_lem l h.0 (decompose-IsView (bignum s l) h).normal in
    printed s (val l) (bignum_digits (10 * length l) l [])
      (text, e, d, same, some_digits (val l) text same (omega (arith, h.2)))
print_integer-IsPrinted (other v) h = elim h [ ]

-- Where the text of an integer has at most 127 characters, reading what was printed gives an integer of
-- the same value, a fixnum again if it fits one.
pub read_integer-print_integer :
    (v : Value) (text : List ℕ)
    → IsInteger v
    → print_integer v ≡ some text
    → length text ≤ 127
    → IsRead (read_integer text) (int_val v)
unfolding read_integer
read_integer-print_integer v text h e short =
    let (text', e', printed_v) = print_integer-IsPrinted v h in
    let (negative, digits, at, d, p, same) = printed_v in
    let whole : with_sign negative digits ≡ take 127 text =
      sym at ∙ same_text text' e' ∙ sym (take_short 127 text short) in
    subst (λ t. IsRead (read_token t) (int_val v)) whole
      (subst (IsRead (read_token (with_sign negative digits))) same
        (read_token-IsRead negative digits d p))
  where
    same_text : (t : List ℕ) → print_integer v ≡ some t → t ≡ text
    same_text t f = some_text (sym f ∙ e)
      where
        some_text : some t ≡ some text → t ≡ text
        some_text g = cc
