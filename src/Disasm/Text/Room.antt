-- ===== src/Disasm/Text/Room.antt =====
-- The texts of src/c/disasm.c stay in their buffers, and are whole where there is room.
use isiki.Prelude.{
  ℕ, zero, suc, ◌+◌, ◌-◌, ◌*◌, ◌/◌, ◌%◌, ◌^◌, ◌≤◌, ◌<◌, ◌≡◌, refl, sym, ap, ◌∙◌, inl, inr, false,
  ◌||◌, List, [], ◌∷◌, ◌++◌, arith, leb, ltb, ◌==◌, if◌then◌else◌, length, length-append,
  Bool-cases,
}
use mathlib.Core.List.{append_assoc, append-nil}
use isiki.Disasm.Text.{
  Sb, sb_init, sb_char, sb_str, hex_digit, hex_pad_loop, sb_hex_pad, needed_digits, copied,
}

-- The text and its terminating NUL are in a buffer of `size` bytes.
abbrev pub Fits : ℕ → Sb → Type 0
Fits size sb = (sb.size ≡ size) × (length sb.text ≤ size - 1)

module _ (size : ℕ) where
  pub sb_init-Fits : Fits size (sb_init size)
  sb_init-Fits = (refl, omega arith)

  pub sb_char-Fits : (sb : Sb) (c : ℕ) → Fits size sb → Fits size (sb_char sb c)
  unfolding sb_char
  sb_char-Fits sb c h = elim (Bool-cases (sb.size == 0 || leb sb.size (length sb.text + 1))) [
    | inl e ↦ rw e h
    | inr e ↦
        rw e
          (h.0, omega (arith, length-append {0} sb.text (c ∷ []), room sb.size (length sb.text) e))
  ]
    where
      room : (a b : ℕ) → (a == 0 || leb a (b + 1)) ≡ false → b + 1 < a
      room a b e = ground arith

  pub sb_str-Fits : (sb : Sb) (s : List ℕ) → Fits size sb → Fits size (sb_str sb s)
  unfolding sb_str
  sb_str-Fits sb [] h = h
  sb_str-Fits sb (c ∷ s) h = sb_str-Fits (sb_char sb c) s (sb_char-Fits sb c h)

  hex_pad_loop-Fits : (sb : Sb) (value i : ℕ) → Fits size sb → Fits size (hex_pad_loop sb value i)
  unfolding hex_pad_loop
  hex_pad_loop-Fits sb value zero h = h
  hex_pad_loop-Fits sb value (suc i) h =
      hex_pad_loop-Fits (sb_char sb (hex_digit (value / 2 ^ (i * 4) % 2 ^ 4))) value i
        (sb_char-Fits sb (hex_digit (value / 2 ^ (i * 4) % 2 ^ 4)) h)

  pub sb_hex_pad-Fits :
      (sb : Sb) (value digits : ℕ) → Fits size sb → Fits size (sb_hex_pad sb value digits)
  unfolding sb_hex_pad
  sb_hex_pad-Fits sb value digits h =
      hex_pad_loop-Fits sb value
        (if ltb digits (needed_digits 16 value) then needed_digits 16 value else digits) h

-- Where there is room, a text is added whole.
pub sb_char-text :
    (sb : Sb) (c : ℕ)
    → length sb.text + 1 < sb.size
    → sb_char sb c ≡ record sb { text = sb.text ++ c ∷ [] }
unfolding sb_char
sb_char-text sb c h = rw (room sb.size (length sb.text) h) refl
  where
    room : (a b : ℕ) → b + 1 < a → (a == 0 || leb a (b + 1)) ≡ false
    room a b h = ground arith

pub sb_str-text :
    (sb : Sb) (s : List ℕ)
    → length sb.text + length s < sb.size
    → sb_str sb s ≡ record sb { text = sb.text ++ s }
unfolding sb_str
sb_str-text sb [] h = ap (λ (t : List ℕ). record sb { text = t }) (sym (append-nil sb.text))
sb_str-text sb (c ∷ s) h =
    let sb' : Sb = record sb { text = sb.text ++ c ∷ [] } in
    ap (λ (t : Sb). sb_str t s) (sb_char-text sb c (omega arith))
    ∙ sb_str-text sb' s (omega (arith, length-append {0} sb.text (c ∷ [])))
    ∙ ap (λ (t : List ℕ). record sb { text = t }) (append_assoc sb.text (c ∷ []) s)

pub copied_lem : (size : ℕ) (s : List ℕ) → length s < size → copied size s ≡ s
unfolding copied
copied_lem size s h = ap (λ (sb : Sb). sb.text) (sb_str-text (sb_init size) s (omega arith))
