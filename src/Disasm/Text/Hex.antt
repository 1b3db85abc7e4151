-- ===== src/Disasm/Text/Hex.antt =====
-- The hexadecimal numbers of src/c/disasm.c say the values that they stand for.
use isiki.Prelude.{
  ℕ, zero, suc, ◌+◌, ◌-◌, ◌*◌, ◌/◌, ◌%◌, ◌^◌, ◌≤◌, ◌<◌, ◌≡◌, refl, sym, ap, ◌∙◌, inl, inr, List, [],
  ◌∷◌, ◌++◌, arith, ltb, ◌==◌, ==→eq, if◌then◌else◌, length, length-append, Bool-cases, if_cases,
  codes,
}
use mathlib.Core.List.{append_assoc, append-nil}
use native.Mathlib.Numerals.{unary_clauses}
use isiki.Disasm.Text.{Sb, sb_char, sb_str, hex_digit, hex_digits, put_reversed, sb_hex}
use isiki.Disasm.Text.Room.{sb_char-text, sb_str-text}

-- The value of hexadecimal digits, read from the left.
abbrev pub hex_value : ℕ → List ℕ → ℕ
hex_value value [] = value
hex_value value (c ∷ s) =
    hex_value (value * 16 + (if ltb c b'a' then c - b'0' else c - b'a' + 10)) s

abbrev backwards : List ℕ → List ℕ
backwards [] = []
backwards (c ∷ s) = backwards s ++ c ∷ []

length-backwards : (s : List ℕ) → length (backwards s) ≡ length s
length-backwards [] = refl
length-backwards (c ∷ s) =
    omega (arith, length-backwards s, length-append {0} (backwards s) (c ∷ []))

hex_value-append :
    (value : ℕ) (s : List ℕ) (c : ℕ)
    → hex_value value (s ++ c ∷ []) ≡ hex_value (hex_value value s) (c ∷ [])
hex_value-append value [] c = refl
hex_value-append value (d ∷ s) c =
    hex_value-append (value * 16 + (if ltb d b'a' then d - b'0' else d - b'a' + 10)) s c

digit_lem : (d n : ℕ) → d < 16 → hex_value n (hex_digit d ∷ []) ≡ n * 16 + d
unfolding hex_digit
digit_lem d n h = ground arith

hex_digits-value : (room v : ℕ) → v < 16 ^ room → hex_value 0 (backwards (hex_digits room v)) ≡ v
unfolding hex_digits
hex_digits-value zero v h = omega arith
hex_digits-value (suc room) v h = elim (Bool-cases (v == 0)) [
  | inl e ↦ rw e (sym (==→eq v 0 e))
  | inr e ↦ rw e (
      hex_value-append 0 (backwards (hex_digits room (v / 2 ^ 4))) (hex_digit (v % 2 ^ 4))
      ∙ digit_lem (v % 2 ^ 4) (hex_value 0 (backwards (hex_digits room (v / 2 ^ 4)))) (omega arith)
      ∙ omega (
        arith,
        hex_digits-value room (v / 2 ^ 4) (smaller (16 ^ room) v (simp unary_clauses at h)),
      ))
]
  where
    smaller : (n v : ℕ) → v < n * 16 → v / 2 ^ 4 < n
    smaller n v h = omega arith

length-hex_digits : (room v : ℕ) → length (hex_digits room v) ≤ room
unfolding hex_digits
length-hex_digits zero v = omega arith
length-hex_digits (suc room) v = elim (Bool-cases (v == 0)) [
  | inl e ↦ rw e (omega arith)
  | inr e ↦ rw e (omega (arith, length-hex_digits room (v / 2 ^ 4)))
]

put_reversed-text :
    (sb : Sb) (s : List ℕ)
    → length sb.text + length s < sb.size
    → put_reversed sb s ≡ record sb { text = sb.text ++ backwards s }
unfolding put_reversed
put_reversed-text sb [] h = ap (λ (t : List ℕ). record sb { text = t }) (sym (append-nil sb.text))
put_reversed-text sb (c ∷ s) h =
    let sb' : Sb = record sb { text = sb.text ++ backwards s } in
    ap (λ (t : Sb). sb_char t c) (put_reversed-text sb s (omega arith))
    ∙ sb_char-text sb' c
        (omega (arith, length-append {0} sb.text (backwards s), length-backwards s))
    ∙ ap (λ (t : List ℕ). record sb { text = t }) (append_assoc sb.text (backwards s) (c ∷ []))

-- With room for 18 characters and the NUL, a 64-bit value is added as 0x and digits that say it.
pub sb_hex-value :
    (sb : Sb) (v : ℕ)
    → v < 2 ^ 64
    → length sb.text + 18 < sb.size
    → (digits : List ℕ) × (sb_hex sb v ≡ record sb { text = sb.text ++ (codes "0x" ++ digits) })
      × (hex_value 0 digits ≡ v)
      × (length digits ≤ 16)
unfolding sb_hex
sb_hex-value sb v h room =
    if_cases Says (v == 0) (sb_char (sb_str sb (codes "0x")) b'0')
      (put_reversed (sb_str sb (codes "0x")) (hex_digits 16 v))
      (λ e. (
        b'0' ∷ [],
        ap (λ (t : Sb). sb_char t b'0') prefix
            ∙ sb_char-text sb' b'0' (omega (arith, long))
            ∙ again (b'0' ∷ []),
        sym (==→eq v 0 e),
        omega arith,
      ))
      (λ e. (
        backwards (hex_digits 16 v),
        ap (λ (t : Sb). put_reversed t (hex_digits 16 v)) prefix
            ∙ put_reversed-text sb' (hex_digits 16 v) (omega (arith, long, length-hex_digits 16 v))
            ∙ again (backwards (hex_digits 16 v)),
        hex_digits-value 16 v h,
        omega (arith, length-backwards (hex_digits 16 v), length-hex_digits 16 v),
      ))
  where
    Says : Sb → Type 0
    Says t =
        (digits : List ℕ) × (t ≡ record sb { text = sb.text ++ (codes "0x" ++ digits) })
        × (hex_value 0 digits ≡ v)
        × (length digits ≤ 16)

    sb' : Sb
    sb' = record sb { text = sb.text ++ codes "0x" }

    prefix : sb_str sb (codes "0x") ≡ sb'
    prefix = sb_str-text sb (codes "0x") (omega arith)

    long : length (sb.text ++ codes "0x") ≡ length sb.text + 2
    long = length-append sb.text (codes "0x")

    again :
        (s : List ℕ)
        → record sb { text = (sb.text ++ codes "0x") ++ s }
          ≡ record sb { text = sb.text ++ (codes "0x" ++ s) }
    again s = ap (λ (t : List ℕ). record sb { text = t }) (append_assoc sb.text (codes "0x") s)
