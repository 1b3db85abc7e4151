-- ===== src/Disasm/Switch.antt =====
-- src/c/disasm.c: the switch of os_disasm_item over the opcode.
use isiki.Prelude.{
  ℕ, ◌+◌, ◌*◌, ◌/◌, ◌%◌, ◌^◌, Bool, true, false, ◌&&◌, ◌||◌, Option, none, some, List, [], ◌∷◌, leb,
  ltb, ◌==◌, if◌then◌else◌, length, get_or, drop, codes,
}
use isiki.Prelude.Int.{ℤ}
use isiki.Disasm.Text.{
  Sb, sb_init, sb_str, sb_hex, sb_shex, copied, reg64, regname, group1, jcc, alu_name,
}
use isiki.Disasm.Operand.{
  Cursor, read_u8, read_u32, read_u64, sign8, sign32, to_word64, rex_b, decode_modrm, branch_to,
  branch_is_outside, branch_target,
}

abbrev pub text_size : ℕ
text_size = 96

abbrev pub mnemonic_size : ℕ
mnemonic_size = 16

-- What the switch over the opcode leaves: the texts, the target and the cursor; an unknown
-- instruction is not ok.
pub record Decoded : Type 0 where
  pub mnemonic : List ℕ
  pub ops : Sb
  pub target : Option ℕ
  pub ok : Bool
  pub cursor : Cursor

abbrev pub decoded : List ℕ → Sb → Cursor → Decoded
decoded mnemonic ops c = record {
  mnemonic = copied mnemonic_size mnemonic;
  ops = ops;
  target = none;
  ok = true;
  cursor = c;
}

abbrev pub undecoded : Sb → Cursor → Decoded
undecoded ops c = record { mnemonic = []; ops = ops; target = none; ok = false; cursor = c }

abbrev pub pair_ops : List ℕ → List ℕ → Sb
pair_ops a b = sb_str (sb_str (sb_str (sb_init text_size) a) (codes ", ")) b

abbrev pub one_op : List ℕ → Sb
one_op a = sb_str (sb_init text_size) a

unfoldable pub store_insn : ℕ → ℕ → Bool → Cursor → Decoded
store_insn op rex wide c =
    let o = decode_modrm rex wide c in
    decoded (if op == 0x89 then codes "mov" else if op == 0x85 then codes "test" else alu_name op)
      (pair_ops o.rm_text (regname o.reg wide)) o.cursor

unfoldable pub load_insn : ℕ → ℕ → Bool → Cursor → Decoded
load_insn op rex wide c =
    let o = decode_modrm rex wide c in
    decoded (if op == 0x8B then codes "mov" else if op == 0x8D then codes "lea" else alu_name op)
      (pair_ops (regname o.reg wide) o.rm_text) o.cursor

unfoldable pub push_pop : ℕ → ℕ → Cursor → Decoded
push_pop op rex c =
    decoded (if ltb op 0x58 then codes "push" else codes "pop")
      (one_op (get_or reg64 (op % 8 + rex_b rex * 8) [])) c

-- `modrm_peek` is the byte that decode_modrm reads first; 0 behind the end.
abbrev pub peek_digit : Cursor → ℕ
peek_digit c = get_or c.rest 0 0 / 8 % 8

unfoldable pub group1_insn : ℕ → ℕ → Bool → Cursor → Decoded
unfolding read_u8 read_u32
group1_insn op rex wide c =
    let o = decode_modrm rex wide c in
    let ops = sb_str (one_op o.rm_text) (codes ", ") in
    let name = get_or group1 (peek_digit c) [] in
    if op == 0x83
    then (let (b, c') = read_u8 o.cursor in decoded name (sb_shex ops (sign8 b)) c')
    else (let (v, c') = read_u32 o.cursor in decoded name (sb_shex ops (sign32 v)) c')

unfoldable pub mov_imm_insn : ℕ → Bool → Cursor → Decoded
unfolding read_u32
mov_imm_insn rex wide c =
    let o = decode_modrm rex wide c in
    let (v, c') = read_u32 o.cursor in
    decoded (codes "mov") (sb_shex (sb_str (one_op o.rm_text) (codes ", ")) (sign32 v)) c'

unfoldable pub mov_reg_imm : ℕ → ℕ → Bool → Cursor → Decoded
unfolding read_u32 read_u64
mov_reg_imm op rex wide c =
    let (imm, c') = if wide then read_u64 c else read_u32 c in
    record (decoded (if wide then codes "movabs" else codes "mov")
      (sb_hex (sb_str (one_op (regname (op % 8 + rex_b rex * 8) wide)) (codes ", ")) imm) c') {
        target = some imm;
      }

unfoldable pub branch_insn : ℕ → ℕ → List ℕ → ℤ → Cursor → Decoded
unfolding branch_is_outside
branch_insn code_addr code_len mnemonic rel c =
    record (decoded mnemonic (branch_target (sb_init text_size) code_len c.at rel) c) {
      target =
          if branch_is_outside code_len c.at rel
          then some ((code_addr + to_word64 (branch_to c.at rel)) % 2 ^ 64)
          else none;
    }

abbrev pub group5_names : List (List ℕ)
group5_names = codes "inc" ∷ codes "dec" ∷ codes "call" ∷ [] ∷ codes "jmp" ∷ [] ∷ codes "push" ∷ []

-- The digits 3, 5 and 7 have no name, and are not ok.
unfoldable pub group5_insn : ℕ → Bool → Cursor → Decoded
group5_insn rex wide c =
    let digit = peek_digit c in
    let o = decode_modrm rex (leb 2 digit || wide) c in
    let name = get_or group5_names digit [] in
    if length name == 0
    then undecoded (one_op o.rm_text) o.cursor
    else decoded name (one_op o.rm_text) o.cursor

abbrev pub group3_names : List (List ℕ)
group3_names =
    codes "test"
    ∷ codes "idiv"
    ∷ codes "not"
    ∷ codes "neg"
    ∷ codes "mul"
    ∷ codes "imul"
    ∷ codes "div"
    ∷ codes "idiv"
    ∷ []

unfoldable pub group3_insn : ℕ → Bool → Cursor → Decoded
unfolding read_u32
group3_insn rex wide c =
    let digit = peek_digit c in
    let o = decode_modrm rex wide c in
    let name = get_or group3_names digit [] in
    if digit == 0
    then (let (v, c') = read_u32 o.cursor in
        decoded name (sb_shex (sb_str (one_op o.rm_text) (codes ", ")) (sign32 v)) c')
    else decoded name (one_op o.rm_text) o.cursor

abbrev pub is_extension : ℕ → Bool
is_extension op2 = op2 == 0xB6 || op2 == 0xB7 || op2 == 0xBE || op2 == 0xBF

unfoldable pub two_byte_insn : ℕ → ℕ → ℕ → Bool → Cursor → Decoded
unfolding read_u8 read_u32
two_byte_insn code_addr code_len rex wide c =
    let (op2, c₁) = read_u8 c in
    let o = decode_modrm rex wide c₁ in
    let flags = decode_modrm rex false c₁ in
    let cond = get_or jcc (op2 % 16) [] in
    if leb 0x80 op2 && leb op2 0x8F
    then (let (v, c₂) = read_u32 c₁ in branch_insn code_addr code_len cond (sign32 v) c₂)
    else if leb 0x90 op2 && leb op2 0x9F
    then record (decoded [] (one_op flags.rm_text) flags.cursor) {
      mnemonic = (sb_str (sb_str (sb_init mnemonic_size) (codes "set")) (drop 1 cond)).text;
    }
    else if op2 == 0x1F
    then decoded (codes "nop") (one_op o.rm_text) o.cursor
    else if op2 == 0xA2
    then decoded (codes "cpuid") (sb_init text_size) c₁
    else if op2 == 0xAF
    then decoded (codes "imul") (pair_ops (regname o.reg wide) o.rm_text) o.cursor
    else if is_extension op2
    then decoded (if ltb op2 0xB8 then codes "movzx" else codes "movsx")
        (pair_ops (regname o.reg wide) o.rm_text) o.cursor
    else undecoded (sb_init text_size) c₁

abbrev pub is_store : ℕ → Bool
is_store op = (ltb op 0x40 && op % 8 == 1) || op == 0x85 || op == 0x89

abbrev pub is_load : ℕ → Bool
is_load op = (ltb op 0x40 && op % 8 == 3) || op == 0x8B || op == 0x8D

unfoldable pub plain_name : ℕ → List ℕ
plain_name op =
    if op == 0xC3
    then codes "ret"
    else if op == 0xC9
    then codes "leave"
    else if op == 0x90
    then codes "nop"
    else codes "int3"

abbrev pub is_plain : ℕ → Bool
is_plain op = op == 0xC3 || op == 0xC9 || op == 0x90 || op == 0xCC

-- The switch over the opcode.
unfoldable pub decode : ℕ → ℕ → ℕ → ℕ → Bool → Cursor → Decoded
unfolding store_insn load_insn push_pop group1_insn mov_imm_insn mov_reg_imm branch_insn group5_insn
    group3_insn two_byte_insn plain_name read_u8 read_u32
decode code_addr code_len op rex wide c =
    if is_store op
    then store_insn op rex wide c
    else if is_load op
    then load_insn op rex wide c
    else if leb 0x50 op && leb op 0x5F
    then push_pop op rex c
    else if op == 0x83 || op == 0x81
    then group1_insn op rex wide c
    else if op == 0xC7
    then mov_imm_insn rex wide c
    else if leb 0xB8 op && leb op 0xBF
    then mov_reg_imm op rex wide c
    else if is_plain op
    then decoded (plain_name op) (sb_init text_size) c
    else if op == 0xE8 || op == 0xE9
    then (let (v, c') = read_u32 c in
        branch_insn code_addr code_len (if op == 0xE8 then codes "call" else codes "jmp") (sign32 v)
          c')
    else if op == 0xEB
    then (let (b, c') = read_u8 c in branch_insn code_addr code_len (codes "jmp") (sign8 b) c')
    else if leb 0x70 op && leb op 0x7F
    then (let (b, c') = read_u8 c in
        branch_insn code_addr code_len (get_or jcc (op % 16) []) (sign8 b) c')
    else if op == 0xFF
    then group5_insn rex wide c
    else if op == 0xF7
    then group3_insn rex wide c
    else if op == 0x0F
    then two_byte_insn code_addr code_len rex wide c
    else undecoded (sb_init text_size) c
