-- ===== src/Disasm/Item.antt =====
-- src/c/disasm.c: os_disasm_item, which decodes an instruction or an embedded string.
use isiki.Prelude.{
  ℕ, zero, suc, ◌+◌, ◌-◌, ◌*◌, ◌/◌, ◌%◌, ◌^◌, Bool, true, false, not, ◌&&◌, ◌||◌, Option, none,
  some, List, [], ◌∷◌, leb, ltb, ◌==◌, if◌then◌else◌, length, get_or, drop, codes,
}
use isiki.Disasm.Text.{Sb, sb_init, sb_char, sb_hex, copied}
use isiki.Disasm.Operand.{to_word64, branch_to}
use isiki.Disasm.Switch.{text_size, mnemonic_size, Decoded, decode}

pub data Kind : Type 0 where
  insn data_item bad : Kind

abbrev pub max_insn_bytes : ℕ
max_insn_bytes = 15

abbrev pub max_data_bytes : ℕ
max_data_bytes = 256

-- os_disasm_insn_t; a target is has_target_addr with target_addr, and an empty comment is [].
pub record Insn : Type 0 where
  pub kind : Kind
  pub offset : ℕ
  pub length : ℕ
  pub bytes : List ℕ
  pub mnemonic : List ℕ
  pub operands : List ℕ
  pub target : Option ℕ
  pub comment : List ℕ

abbrev printable : ℕ → Bool
printable ch = leb 0x20 ch && leb ch 0x7E

unfoldable pub all_printable : ℕ → List ℕ → Bool
all_printable zero code = true
all_printable (suc n) [] = false
all_printable (suc n) (ch ∷ code) = printable ch && all_printable n code

-- The tests of a length that the jmp before a string skips; 0 for no string.
unfoldable pub checked_len : List ℕ → ℕ → ℕ → ℕ
unfolding all_printable
checked_len code offset len =
    if len == 0 || ltb max_data_bytes len
    then 0
    else if ltb (length code) (offset + len)
    then 0
    else if not (get_or code (offset + len - 1) 0 == 0)
    then 0
    else if all_printable (len - 1) (drop offset code)
    then len
    else 0

-- The length with its NUL of the string at the offset.
unfoldable pub embedded_string_len : List ℕ → ℕ → ℕ
unfolding checked_len
embedded_string_len code offset =
    if ltb offset 5
    then 0
    else if not (get_or code (offset - 5) 0 == 0xE9)
    then 0
    else checked_len code offset (
        get_or code (offset - 4) 0
        + get_or code (offset - 3) 0 * 2 ^ 8
        + get_or code (offset - 2) 0 * 2 ^ 16
        + get_or code (offset - 1) 0 * 2 ^ 24)

-- d_fill_bytes, the bytes from the i-th on.
unfoldable pub fill_bytes : ℕ → ℕ → List ℕ → ℕ → ℕ → List ℕ
fill_bytes zero i code offset len = []
fill_bytes (suc n) i code offset len =
    (if ltb i len && ltb (offset + i) (length code) then get_or code (offset + i) 0 else 0)
    ∷ fill_bytes n (i + 1) code offset len

unfoldable pub emit_bad : List ℕ → ℕ → Insn
unfolding fill_bytes sb_hex copied
emit_bad code offset = record {
  kind = bad;
  offset = offset;
  length = 1;
  bytes = fill_bytes max_insn_bytes 0 code offset 1;
  mnemonic = copied mnemonic_size (codes "(bad)");
  operands = (sb_hex (sb_init text_size) (get_or code offset 0)).text;
  target = none;
  comment = [];
}

unfoldable pub put_quoted : Sb → ℕ → List ℕ → Sb
put_quoted sb zero code = sb
put_quoted sb (suc n) [] = sb
put_quoted sb (suc n) (ch ∷ code) =
    put_quoted (sb_char (if ch == b'"' || ch == b'\\' then sb_char sb b'\\' else sb) ch) n code

unfoldable pub data_insn : List ℕ → ℕ → ℕ → Insn
unfolding fill_bytes put_quoted copied
data_insn code offset len = record {
  kind = data_item;
  offset = offset;
  length = len;
  bytes = fill_bytes max_insn_bytes 0 code offset len;
  mnemonic = copied mnemonic_size (codes ".asciz");
  operands =
      (sb_char (put_quoted (sb_char (sb_init text_size) b'"') (len - 1) (drop offset code))
        b'"').text;
  target = none;
  comment = [];
}

-- The loop over the REX prefixes: the last one counts.
unfoldable pub skip_rex : List ℕ → ℕ → ℕ → ℕ × (List ℕ × ℕ)
skip_rex [] at rex = (rex, ([], at))
skip_rex (b ∷ bytes) at rex =
    if leb 0x40 b && leb b 0x4F then skip_rex bytes (at + 1) b else (rex, (b ∷ bytes, at))

-- The code behind the switch; the address of a RIP-relative operand counts from the next instruction.
unfoldable pub finish : ℕ → List ℕ → ℕ → Decoded → Insn
unfolding emit_bad fill_bytes
finish code_addr code offset d =
    let len = d.cursor.at - offset in
    let rip_target : Option ℕ = elim d.cursor.rip_disp [
      | none ↦ none
      | some disp ↦ some ((code_addr + to_word64 (branch_to d.cursor.at disp)) % 2 ^ 64)
    ] in
    if not d.ok || d.cursor.truncated then emit_bad code offset else record {
      kind = insn;
      offset = offset;
      length = len;
      bytes = fill_bytes max_insn_bytes 0 code offset len;
      mnemonic = copied mnemonic_size d.mnemonic;
      operands = copied text_size d.ops.text;
      target = elim d.target [ none ↦ rip_target | some t ↦ some t ];
      comment = [];
    }

unfoldable pub decode_insn : ℕ → List ℕ → ℕ → ℕ × (List ℕ × ℕ) → Insn
unfolding emit_bad decode finish
decode_insn code_addr code offset (rex, ([], at)) = emit_bad code offset
decode_insn code_addr code offset (rex, (op ∷ bytes, at)) = finish code_addr code offset (
    decode code_addr (length code) op rex (rex / 8 % 2 == 1)
      (record { rest = bytes; at = at + 1; truncated = false; rip_disp = none }))

-- `code_addr` is the address of the code; none where the function returns 0.
unfoldable pub os_disasm_item : ℕ → List ℕ → ℕ → Option Insn
unfolding embedded_string_len data_insn decode_insn skip_rex
os_disasm_item code_addr code offset =
    let str_len = embedded_string_len code offset in
    if leb (length code) offset
    then none
    else if ltb 0 str_len
    then some (data_insn code offset str_len)
    else some (decode_insn code_addr code offset (skip_rex (drop offset code) offset 0))
