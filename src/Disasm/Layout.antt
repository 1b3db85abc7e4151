-- ===== src/Disasm/Layout.antt =====
-- The lines of os_disasm_format_line in src/c/disasm.c, in buffers of any size.
use isiki.Prelude.{
  ℕ, zero, suc, ◌+◌, ◌-◌, ◌*◌, ◌≤◌, ◌<◌, ◌≡◌, refl, ap, ◌⊎◌, inl, inr, Bool, true, none, some, List,
  [], ◌∷◌, ◌++◌, arith, ltb, ◌==◌, ltb→lt, if◌then◌else◌, if_rule, length, length-append, get_or,
  Bool-cases, codes,
}
use isiki.Disasm.Text.{Sb, sb_init, sb_char, sb_str, sb_hex_pad}
use isiki.Disasm.Text.Room.{
  Fits, sb_init-Fits, sb_char-Fits, sb_char-text, sb_str-Fits, sb_hex_pad-Fits,
}
use isiki.Disasm.Item.{Insn}
use isiki.Disasm.Line.{
  shown_bytes, comment_column, line_bytes_loop, spaces, pad_to_comment, line_head, commented,
  put_comment, os_disasm_format_line,
}

module _ (size : ℕ) where
  spaces-Fits : (n : ℕ) (sb : Sb) → Fits size sb → Fits size (spaces n sb)
  unfolding spaces
  spaces-Fits zero sb h = h
  spaces-Fits (suc n) sb h = spaces-Fits n (sb_char sb b' ') (sb_char-Fits size sb b' ' h)

  line_bytes_loop-Fits :
      (n i : ℕ) (insn : Insn) (sb : Sb) → Fits size sb → Fits size (line_bytes_loop n i insn sb)
  unfolding line_bytes_loop
  line_bytes_loop-Fits zero i insn sb h = h
  line_bytes_loop-Fits (suc n) i insn sb h =
      let byte : Sb = sb_hex_pad sb (get_or insn.bytes i 0) 2 in
      line_bytes_loop-Fits n (i + 1) insn (sb_char byte b' ')
        (sb_char-Fits size byte b' ' (sb_hex_pad-Fits size sb (get_or insn.bytes i 0) 2 h))

line_head-Fits : (insn : Insn) (size : ℕ) → Fits size (line_head insn size)
unfolding line_head
line_head-Fits insn size =
    let shown : ℕ = if ltb insn.length shown_bytes then insn.length else shown_bytes in
    let more : Bool = ltb shown insn.length in
    let sb₀ : Sb = sb_str (sb_hex_pad (sb_init size) insn.offset 4) (codes "  ") in
    let h₀ : Fits size sb₀ =
      sb_str-Fits size _ (codes "  ")
        (sb_hex_pad-Fits size (sb_init size) insn.offset 4 (sb_init-Fits size)) in
    let sb₁ : Sb = line_bytes_loop shown 0 insn sb₀ in
    let h₁ : Fits size sb₁ = line_bytes_loop-Fits size shown 0 insn sb₀ h₀ in
    let sb₂ : Sb = if more then sb_str sb₁ (codes ".. ") else sb₁ in
    let h₂ : Fits size sb₂ =
      if_rule (Fits size) more _ _ (sb_str-Fits size sb₁ (codes ".. ") h₁) h₁ in
    let n : ℕ = (shown_bytes + 1) * 3 - (shown * 3 + (if more then 3 else 0)) in
    let sb₃ : Sb = sb_str (spaces n sb₂) insn.mnemonic in
    let h₃ : Fits size sb₃ =
      sb_str-Fits size (spaces n sb₂) insn.mnemonic (spaces-Fits size n sb₂ h₂) in
    if_rule (Fits size) (length insn.operands == 0) _ _ h₃
      (sb_str-Fits size (sb_char sb₃ b' ') insn.operands (sb_char-Fits size sb₃ b' ' h₃))

-- With more room than the column, every round adds a space, and the loop ends.
pad_to_comment-ends :
    (fuel size : ℕ) (sb : Sb)
    → comment_column < size
    → Fits size sb
    → comment_column < length sb.text + fuel
    → 0 < fuel
    → (padded : Sb) × (pad_to_comment fuel sb ≡ some padded) × Fits size padded
unfolding pad_to_comment
pad_to_comment-ends zero size sb room h k l = absurd (omega arith)
pad_to_comment-ends (suc fuel) size sb room h k l =
    elim (Bool-cases (ltb (length sb.text) comment_column)) [
      | inl e ↦
          let below : length sb.text < comment_column = ltb→lt (length sb.text) comment_column e in
          let added : sb_char sb b' ' ≡ record sb { text = sb.text ++ b' ' ∷ [] } =
            sb_char-text sb b' ' (omega arith) in
          let sb' : Sb = record sb { text = sb.text ++ b' ' ∷ [] } in
          let more : length sb'.text ≡ length sb.text + 1 = length-append sb.text (b' ' ∷ []) in
          rw (e, added)
            (pad_to_comment-ends fuel size sb' room (h.0, omega arith) (omega arith) (omega arith))
      | inr e ↦ rw e (sb, refl, h)
    ]

-- Without that room the column is never reached.
pad_to_comment-stuck :
    (fuel size : ℕ) (sb : Sb) → size ≤ comment_column → Fits size sb → pad_to_comment fuel sb ≡ none
unfolding pad_to_comment
pad_to_comment-stuck zero size sb room h = refl
pad_to_comment-stuck (suc fuel) size sb room h =
    rw (below (length sb.text) (omega arith))
      (pad_to_comment-stuck fuel size (sb_char sb b' ') room (sb_char-Fits size sb b' ' h))
  where
    below : (n : ℕ) → n < comment_column → ltb n comment_column ≡ true
    below n h = ground arith

-- In a buffer of more than 73 bytes, or without a comment, a line is written, its padding in at most 74
-- rounds; the text and its NUL are in the buffer.
pub os_disasm_format_line-ends :
    (insn : Insn) (buf_size fuel : ℕ)
    → (insn.comment ≡ []) ⊎ (comment_column < buf_size)
    → comment_column < fuel
    → (line : List ℕ) × (os_disasm_format_line fuel insn buf_size ≡ some line)
      × (length line ≤ buf_size - 1)
unfolding os_disasm_format_line
os_disasm_format_line-ends insn buf_size fuel h k = written insn.comment h
  where
    head : Sb
    head = line_head insn buf_size

    fits : Fits buf_size head
    fits = line_head-Fits insn buf_size

    written :
        (comment : List ℕ)
        → (comment ≡ []) ⊎ (comment_column < buf_size)
        → (line : List ℕ) × (put_comment fuel comment head ≡ some line)
          × (length line ≤ buf_size - 1)
    written [] h = (head.text, refl, fits.1)
    written (c ∷ comment) (inl h) = cc
    written (c ∷ comment) (inr room) =
        let (padded, ends, padded_fits) =
          pad_to_comment-ends fuel buf_size head room fits (omega arith) (omega arith) in
        let ending : Sb = sb_str padded (codes " ; ") in
        let whole : Fits buf_size (sb_str ending (c ∷ comment)) =
          sb_str-Fits buf_size ending (c ∷ comment)
            (sb_str-Fits buf_size padded (codes " ; ") padded_fits) in
        ((sb_str ending (c ∷ comment)).text, ap (commented (c ∷ comment)) ends, whole.1)

-- In a buffer of at most 73 bytes a line with a comment never ends: no number of rounds is enough for
-- its padding.
pub os_disasm_format_line-stuck :
    (insn : Insn) (buf_size fuel : ℕ)
    → 0 < length insn.comment
    → buf_size ≤ comment_column
    → os_disasm_format_line fuel insn buf_size ≡ none
unfolding os_disasm_format_line
os_disasm_format_line-stuck insn buf_size fuel h small = padding insn.comment h (
    pad_to_comment-stuck fuel buf_size (line_head insn buf_size) small
      (line_head-Fits insn buf_size))
  where
    padding :
        (comment : List ℕ)
        → 0 < length comment
        → pad_to_comment fuel (line_head insn buf_size) ≡ none
        → put_comment fuel comment (line_head insn buf_size) ≡ none
    padding [] h e = absurd (omega arith)
    padding (c ∷ comment) h e = ap (commented (c ∷ comment)) e
