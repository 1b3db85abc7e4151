-- ===== src/Disasm/Line.antt =====
-- src/c/disasm.c: the layout of an item's bytes and of its line.
use isiki.Prelude.{
  ℕ, zero, suc, ◌+◌, ◌-◌, ◌*◌, Option, none, some, List, [], ◌∷◌, ltb, ◌==◌, if◌then◌else◌, length,
  get_or, codes,
}
use isiki.Disasm.Text.{Sb, sb_init, sb_char, sb_str, sb_hex_pad}
use isiki.Disasm.Item.{Insn, max_insn_bytes}

abbrev pub shown_bytes : ℕ
shown_bytes = 10

abbrev pub insn_column : ℕ
insn_column = 4 + 2 + (shown_bytes + 1) * 3

abbrev pub comment_column : ℕ
comment_column = insn_column + 34

unfoldable pub format_bytes_loop : ℕ → ℕ → Insn → Sb → Sb
unfolding sb_hex_pad
format_bytes_loop zero i insn sb = sb
format_bytes_loop (suc n) i insn sb =
    format_bytes_loop n (i + 1) insn
      (sb_hex_pad (if ltb 0 i then sb_char sb b' ' else sb) (get_or insn.bytes i 0) 2)

unfoldable pub os_disasm_format_bytes : Insn → ℕ → List ℕ
unfolding format_bytes_loop sb_str
os_disasm_format_bytes insn buf_size =
    let shown = if ltb insn.length max_insn_bytes then insn.length else max_insn_bytes in
    let sb = format_bytes_loop shown 0 insn (sb_init buf_size) in
    (if ltb shown insn.length then sb_str sb (codes " ..") else sb).text

unfoldable pub line_bytes_loop : ℕ → ℕ → Insn → Sb → Sb
unfolding sb_hex_pad
line_bytes_loop zero i insn sb = sb
line_bytes_loop (suc n) i insn sb =
    line_bytes_loop n (i + 1) insn (sb_char (sb_hex_pad sb (get_or insn.bytes i 0) 2) b' ')

unfoldable pub spaces : ℕ → Sb → Sb
spaces zero sb = sb
spaces (suc n) sb = spaces n (sb_char sb b' ')

-- The loop up to the column of the comment, on fuel; it looks at the text that there is, so a buffer
-- with less room never ends it, and the fuel runs out.
unfoldable pub pad_to_comment : ℕ → Sb → Option Sb
pad_to_comment zero sb = none
pad_to_comment (suc fuel) sb =
    let rest = pad_to_comment fuel (sb_char sb b' ') in
    if ltb (length sb.text) comment_column then rest else some sb

-- The line without its comment.
unfoldable pub line_head : Insn → ℕ → Sb
unfolding line_bytes_loop spaces sb_hex_pad
line_head insn buf_size =
    let shown = if ltb insn.length shown_bytes then insn.length else shown_bytes in
    let sb₀ = sb_str (sb_hex_pad (sb_init buf_size) insn.offset 4) (codes "  ") in
    let sb₁ = line_bytes_loop shown 0 insn sb₀ in
    let sb₂ = if ltb shown insn.length then sb_str sb₁ (codes ".. ") else sb₁ in
    let column = shown * 3 + (if ltb shown insn.length then 3 else 0) in
    let sb₃ = sb_str (spaces ((shown_bytes + 1) * 3 - column) sb₂) insn.mnemonic in
    if length insn.operands == 0 then sb₃ else sb_str (sb_char sb₃ b' ') insn.operands

abbrev pub commented : List ℕ → Option Sb → Option (List ℕ)
commented comment none = none
commented comment (some padded) = some (sb_str (sb_str padded (codes " ; ")) comment).text

unfoldable pub put_comment : ℕ → List ℕ → Sb → Option (List ℕ)
put_comment fuel [] sb = some sb.text
put_comment fuel (c ∷ comment) sb = commented (c ∷ comment) (pad_to_comment fuel sb)

unfoldable pub os_disasm_format_line : ℕ → Insn → ℕ → Option (List ℕ)
unfolding put_comment
os_disasm_format_line fuel insn buf_size = put_comment fuel insn.comment (line_head insn buf_size)
