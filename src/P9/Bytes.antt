-- ===== src/P9/Bytes.antt =====
-- The fields of a message of src/c/p9.c: what is put is what is read.
use isiki.Prelude.{
  ℕ, zero, suc, ◌+◌, ◌-◌, ◌*◌, ◌/◌, ◌%◌, ◌^◌, ◌≤◌, ◌<◌, ◌≡◌, refl, sym, ap, ◌∙◌, List, [], ◌∷◌,
  ◌++◌, arith, length, get_or, take, drop, take-append, if◌then◌else◌, ltb, ltb→lt, ltb→ge,
  Bool-cases, inl, inr,
}
use Prim.Native.Nat.{bit_or}
use native.Mathlib.Nat.{pow-suc}
use mathlib.Core.Path.{ap₂}
use isiki.Prelude.Bits.{lowest-bit_or, zero-bit_or}
use isiki.P9.{
  put_u8, put_u16, put_u32, put_u64, put_u64_loop, put_string, get_u8, get_u16, get_u32, get_string,
  Text,
}

abbrev pub IsByte : ℕ → Type 0
IsByte x = x < 2 ^ 8

-- The number of a sequence of bytes, lowest byte first.
abbrev pub little_endian : List ℕ → ℕ
little_endian [] = 0
little_endian (x ∷ xs) = x + 256 * little_endian xs

-- `x | (y << k)` where x has k bits.
pub bit_or_above : (k x y : ℕ) → x < 2 ^ k → bit_or x (y * 2 ^ k) ≡ x + y * 2 ^ k
bit_or_above zero x y h =
    ap (λ (t : ℕ). bit_or t (y * 2 ^ 0)) none_below ∙ omega (arith, zero-bit_or (y * 2 ^ 0))
  where
    none_below : x ≡ 0
    none_below = omega arith
bit_or_above (suc k) x y h = omega (
  arith,
  lowest-bit_or x (y * 2 ^ suc k),
  ap (λ t. y * t) (pow-suc 2 k),
  ap (λ t. bit_or (x / 2) t) halves,
  bit_or_above k (x / 2) y (omega (arith, pow-suc 2 k)),
)
  where
    halves : y * 2 ^ suc k / 2 ≡ y * 2 ^ k
    halves = omega (arith, ap (λ t. y * t) (pow-suc 2 k))

pub get_or-append :
    (pre xs : List ℕ) (i : ℕ) → get_or (pre ++ xs) (length pre + i) 0 ≡ get_or xs i 0
get_or-append [] xs i = ap (λ (t : ℕ). get_or xs t 0) (omega arith)
get_or-append (x ∷ pre) xs i =
    ap (λ (t : ℕ). get_or (x ∷ pre ++ xs) t 0) step ∙ get_or-append pre xs i
  where
    step : suc (length pre) + i ≡ suc (length pre + i)
    step = omega arith

-- The byte at position pos + i of a buffer that goes on with xs at pos.
byte_at :
    (pre xs : List ℕ) (pos i : ℕ)
    → pos ≡ length pre
    → get_or (pre ++ xs) (pos + i) 0 ≡ get_or xs i 0
byte_at pre xs pos i e = rw (e) (get_or-append pre xs i)

byte_here :
    (pre xs : List ℕ) (pos : ℕ) → pos ≡ length pre → get_or (pre ++ xs) pos 0 ≡ get_or xs 0 0
byte_here pre xs pos e =
    ap (λ (t : ℕ). get_or (pre ++ xs) t 0) (omega arith) ∙ get_or-append pre xs 0

or_two : (a b : ℕ) → IsByte a → bit_or a (b * 2 ^ 8) ≡ a + 256 * b
or_two a b h = bit_or_above 8 a b h ∙ omega arith

or_four :
    (a b c d : ℕ)
    → IsByte a
    → IsByte b
    → IsByte c
    → bit_or (bit_or (bit_or a (b * 2 ^ 8)) (c * 2 ^ 16)) (d * 2 ^ 24)
      ≡ a + 256 * b + 65536 * c + 16777216 * d
or_four a b c d ha hb hc =
    ap (λ (t : ℕ). bit_or (bit_or t (c * 2 ^ 16)) (d * 2 ^ 24)) (or_two a b ha)
    ∙ ap (λ (t : ℕ). bit_or t (d * 2 ^ 24)) (bit_or_above 16 (a + 256 * b) c (omega arith))
    ∙ bit_or_above 24 (a + 256 * b + c * 2 ^ 16) d (omega arith)
    ∙ omega arith

pub get_u8-put_u8 :
    (pre post : List ℕ) (pos v : ℕ)
    → pos ≡ length pre
    → get_u8 (pre ++ (put_u8 v ++ post)) pos ≡ v % 2 ^ 8
unfolding get_u8 put_u8
get_u8-put_u8 pre post pos v e = byte_here pre (put_u8 v ++ post) pos e

pub get_u16-put_u16 :
    (pre post : List ℕ) (pos v : ℕ)
    → pos ≡ length pre
    → get_u16 (pre ++ (put_u16 v ++ post)) pos ≡ v % 2 ^ 16
unfolding get_u16 put_u16
get_u16-put_u16 pre post pos v e =
    ap₂ (λ (a b : ℕ). bit_or a (b * 2 ^ 8)) (byte_here pre (put_u16 v ++ post) pos e)
      (byte_at pre (put_u16 v ++ post) pos 1 e)
    ∙ or_two (v % 2 ^ 8) (v / 2 ^ 8 % 2 ^ 8) (omega arith)
    ∙ omega arith

pub get_u32-put_u32 :
    (pre post : List ℕ) (pos v : ℕ)
    → pos ≡ length pre
    → get_u32 (pre ++ (put_u32 v ++ post)) pos ≡ v % 2 ^ 32
unfolding get_u32 put_u32
get_u32-put_u32 pre post pos v e =
    ap₂ bit_or
      (ap₂ bit_or
        (ap₂ bit_or (byte_here pre (put_u32 v ++ post) pos e)
          (ap (λ (t : ℕ). t * 2 ^ 8) (byte_at pre (put_u32 v ++ post) pos 1 e)))
        (ap (λ (t : ℕ). t * 2 ^ 16) (byte_at pre (put_u32 v ++ post) pos 2 e)))
      (ap (λ (t : ℕ). t * 2 ^ 24) (byte_at pre (put_u32 v ++ post) pos 3 e))
    ∙ or_four (v % 2 ^ 8) (v / 2 ^ 8 % 2 ^ 8) (v / 2 ^ 16 % 2 ^ 8) (v / 2 ^ 24 % 2 ^ 8)
        (omega arith) (omega arith) (omega arith)
    ∙ omega arith

-- The low half of a 64-bit field.
pub get_u32-put_u64 :
    (pre post : List ℕ) (pos v : ℕ)
    → pos ≡ length pre
    → get_u32 (pre ++ (put_u64 v ++ post)) pos ≡ v % 2 ^ 32
unfolding get_u32 put_u64 put_u64_loop
get_u32-put_u64 pre post pos v e =
    ap₂ bit_or
      (ap₂ bit_or
        (ap₂ bit_or (byte_here pre (put_u64 v ++ post) pos e)
          (ap (λ (t : ℕ). t * 2 ^ 8) (byte_at pre (put_u64 v ++ post) pos 1 e)))
        (ap (λ (t : ℕ). t * 2 ^ 16) (byte_at pre (put_u64 v ++ post) pos 2 e)))
      (ap (λ (t : ℕ). t * 2 ^ 24) (byte_at pre (put_u64 v ++ post) pos 3 e))
    ∙ or_four (v / 2 ^ 0 % 2 ^ 8) (v / 2 ^ 8 % 2 ^ 8) (v / 2 ^ 16 % 2 ^ 8) (v / 2 ^ 24 % 2 ^ 8)
        (omega arith) (omega arith) (omega arith)
    ∙ omega arith

pub put_u64-little_endian : (v : ℕ) → little_endian (put_u64 v) ≡ v % 2 ^ 64
unfolding put_u64 put_u64_loop
put_u64-little_endian v = omega arith

pub drop-at :
    (pre xs : List ℕ) (pos i : ℕ) → pos ≡ length pre → drop (pos + i) (pre ++ xs) ≡ drop i xs
drop-at [] xs pos i e = ap (λ (t : ℕ). drop t xs) (omega arith)
drop-at (x ∷ pre) xs zero i e = absurd (omega arith)
drop-at (x ∷ pre) xs (suc pos) i e =
    ap (λ (t : ℕ). drop t (x ∷ pre ++ xs)) step ∙ drop-at pre xs pos i (omega arith)
  where
    step : suc pos + i ≡ suc (pos + i)
    step = omega arith

take-within : (xs ys : List ℕ) (n : ℕ) → n ≤ length xs → take n (xs ++ ys) ≡ take n xs
take-within xs ys zero h = refl
take-within [] ys (suc n) h = absurd (omega arith)
take-within (x ∷ xs) ys (suc n) h = ap (λ (t : List ℕ). x ∷ t) (take-within xs ys n (omega arith))

pub take_all : (xs : List ℕ) (n : ℕ) → length xs ≤ n → take n xs ≡ xs
take_all [] zero h = refl
take_all [] (suc n) h = refl
take_all (x ∷ xs) zero h = absurd (omega arith)
take_all (x ∷ xs) (suc n) h = ap (λ (t : List ℕ). x ∷ t) (take_all xs n (omega arith))

-- The copied part of a string with room for n bytes.
copied :
    (s post : Text) (room n : ℕ)
    → room ≡ n
    → take (if ltb room (length s) then room else length s) (s ++ post) ≡ take n s
copied s post room n e = elim (Bool-cases (ltb room (length s))) [
  | inl t ↦ rw (t) (
      take-within s post room (omega (arith, ltb→lt room (length s) t))
      ∙ ap (λ (k : ℕ). take k s) e)
  | inr t ↦
      rw (t) (take-append s post ∙ sym (take_all s n (omega (arith, ltb→ge room (length s) t))))
]

pub length-put_string : (s : Text) → length (put_string s) ≡ 2 + length s
unfolding put_string put_u16
length-put_string s = omega arith

-- A string of fewer than 2^16 bytes that is put at a position is read there, cut to a capacity of 1
-- to 2^32 - 1 less the NUL, and the position moves behind it.
pub get_string-put_string :
    (pre post : List ℕ) (s : Text) (out_cap : ℕ)
    → length s < 2 ^ 16
    → 0 < out_cap
    → out_cap < 2 ^ 32
    → get_string (pre ++ (put_string s ++ post)) (length pre) out_cap
      ≡ (take (out_cap - 1) s, length pre + length (put_string s))
unfolding get_string put_string put_u16
get_string-put_string pre post s out_cap h p q =
    ap₂
      (λ (len : ℕ) (rest : List ℕ). (
        take
            (if ltb ((out_cap + 2 ^ 32 - 1) % 2 ^ 32) len
              then (out_cap + 2 ^ 32 - 1) % 2 ^ 32
              else len)
            rest,
        length pre + 2 + len,
      ))
      (get_u16-put_u16 pre (s ++ post) (length pre) (length s % 2 ^ 32 % 2 ^ 16) refl ∙ omega arith)
      (drop-at pre (put_string s ++ post) (length pre) 2 refl)
    ∙ ap₂ (λ (t : Text) (k : ℕ). (t, k))
        (copied s post ((out_cap + 2 ^ 32 - 1) % 2 ^ 32) (out_cap - 1) (omega arith))
        (omega (arith, length-put_string s))
