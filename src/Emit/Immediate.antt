-- ===== src/Emit/Immediate.antt =====
-- The immediates that src/c/za.c loads, read back by src/c/disasm.c.
use isiki.Prelude.{
  ℕ, ◌+◌, ◌*◌, ◌/◌, ◌%◌, ◌^◌, ◌≤◌, ◌<◌, ◌≡◌, refl, ap, ◌∙◌, inl, inr, Bool, true, false, ◌&&◌, ◌||◌,
  some, List, [], ◌∷◌, ◌++◌, arith, leb, leb→le, leb→gt, ◌==◌, if◌then◌else◌, if_rule, length,
  length-append, codes, Bool-cases,
}
use mathlib.Core.List.{append_assoc}
use isiki.Disasm.Text.{Sb, sb_str, sb_init, sb_hex, regname, copied}
use isiki.Disasm.Text.Room.{sb_str-text}
use isiki.Disasm.Text.Hex.{hex_value, sb_hex-value}
use isiki.Disasm.Operand.{Cursor, read_u32, read_u64}
use isiki.Disasm.Switch.{text_size, mnemonic_size, Decoded, mov_reg_imm, decode, is_store, is_load}
use isiki.Disasm.Item.{Insn, embedded_string_len, decode_insn, finish, os_disasm_item}
use isiki.Emit.{
  high_bit, jit_code_size, bytes32, Jit, jit_emit, jit_emit32, jit_emit64, jit_imm_field,
  jit_movabs_reg_full, jit_load_imm_reg,
}
use isiki.Emit.Shows.{
  Shows, read_u32-bytes32, cursor_at, item_at, length-regname, skip_rex-one, skip_rex-none,
  decode_insn-wide, shows,
}
use isiki.Emit.Room.{code-jit_imm_field, code-after}

decode-mov :
    (code_addr len op rex : ℕ) (wide : Bool) (c : Cursor)
    → 0xB8 ≤ op
    → op ≤ 0xBF
    → decode code_addr len op rex wide c ≡ mov_reg_imm op rex wide c
unfolding decode
decode-mov code_addr len op rex wide c h k = rw (store, load, push, group, imm, mov) refl
  where
    store : is_store op ≡ false
    store = ground arith

    load : is_load op ≡ false
    load = ground arith

    push : (leb 0x50 op && leb op 0x5F) ≡ false
    push = ground arith

    group : (op == 0x83 || op == 0x81) ≡ false
    group = ground arith

    imm : (op == 0xC7) ≡ false
    imm = ground arith

    mov : (leb 0xB8 op && leb op 0xBF) ≡ true
    mov = ground arith

read_u64-bytes32 :
    (v : ℕ) (rest : List ℕ) (at : ℕ)
    → v < 2 ^ 64
    → read_u64 (cursor_at (bytes32 (v % 2 ^ 32) ++ (bytes32 (v / 2 ^ 32) ++ rest)) at)
      ≡ (v, cursor_at rest (at + 1 + 1 + 1 + 1 + 1 + 1 + 1 + 1))
unfolding read_u64
read_u64-bytes32 v rest at h =
    let low : read_u32 (cursor_at (bytes32 (v % 2 ^ 32) ++ (bytes32 (v / 2 ^ 32) ++ rest)) at)
        ≡ (v % 2 ^ 32, cursor_at (bytes32 (v / 2 ^ 32) ++ rest) (at + 1 + 1 + 1 + 1)) =
      read_u32-bytes32 (v % 2 ^ 32) (bytes32 (v / 2 ^ 32) ++ rest) at (omega arith) in
    let high : read_u32 (cursor_at (bytes32 (v / 2 ^ 32) ++ rest) (at + 1 + 1 + 1 + 1))
        ≡ (v / 2 ^ 32, cursor_at rest (at + 1 + 1 + 1 + 1 + 1 + 1 + 1 + 1)) =
      read_u32-bytes32 (v / 2 ^ 32) rest (at + 1 + 1 + 1 + 1) (omega arith) in
    ap (λ (p : ℕ × Cursor). (p.0 + (read_u32 p.1).0 * 2 ^ 32, (read_u32 p.1).1)) low
    ∙ ap (λ (p : ℕ × Cursor). (v % 2 ^ 32 + p.0 * 2 ^ 32, p.1)) high
    ∙ ap (λ (n : ℕ). (n, cursor_at rest (at + 1 + 1 + 1 + 1 + 1 + 1 + 1 + 1))) (whole v)
  where
    whole : (v : ℕ) → v % 2 ^ 32 + v / 2 ^ 32 * 2 ^ 32 ≡ v
    whole v = omega arith

-- The shown operands: a register, and digits that say the immediate.
abbrev pub ShowsImmediate : ℕ → List ℕ → ℕ → ℕ → List ℕ → ℕ → Bool → ℕ → Type 0
ShowsImmediate code_addr code offset len name reg wide imm =
    (digits : List ℕ) × (hex_value 0 digits ≡ imm)
    × Shows code_addr code offset len name
        ((regname reg wide ++ codes ", ") ++ (codes "0x" ++ digits)) (some imm)

mov_ops-text :
    (reg imm : ℕ) (wide : Bool)
    → imm < 2 ^ 64
    → (digits : List ℕ) × (sb_hex
          (sb_str (sb_str (sb_init text_size) (regname reg wide)) (codes ", "))
          imm
        ≡ record {
          size = text_size;
          text = (regname reg wide ++ codes ", ") ++ (codes "0x" ++ digits);
        })
      × (hex_value 0 digits ≡ imm)
      × (length digits ≤ 16)
mov_ops-text reg imm wide h =
    let name : List ℕ = regname reg wide in
    let short : length name ≤ 4 = length-regname reg wide in
    let sb : Sb = record { size = text_size; text = name ++ codes ", " } in
    let start : sb_str (sb_str (sb_init text_size) name) (codes ", ") ≡ sb =
      ap (λ (t : Sb). sb_str t (codes ", ")) (sb_str-text (sb_init text_size) name (omega arith))
      ∙ sb_str-text (record { size = text_size; text = name }) (codes ", ") (omega arith) in
    let (digits, says, value, few) =
      sb_hex-value sb imm h (omega (arith, length-append {0} name (codes ", "))) in
    (digits, ap (λ (t : Sb). sb_hex t imm) start ∙ says, value, few)

abbrev pub mov_name : Bool → List ℕ
mov_name wide = if wide then codes "movabs" else codes "mov"

length-mov_name : (wide : Bool) → length (mov_name wide) ≤ 6
length-mov_name true = omega arith
length-mov_name false = omega arith

-- A decoded mov with its immediate is shown.
mov_shows :
    (code_addr : ℕ) (code : List ℕ) (offset len rex op reg imm : ℕ) (wide : Bool)
    (bytes rest : List ℕ) (at at' : ℕ)
    → 0xB8 ≤ op
    → op ≤ 0xBF
    → (rex / 8 % 2 == 1) ≡ wide
    → op % 8 + rex % 2 * 8 ≡ reg
    → imm < 2 ^ 64
    → at' ≡ offset + len
    → (if wide then read_u64 (cursor_at bytes (at + 1)) else read_u32 (cursor_at bytes (at + 1)))
      ≡ (imm, cursor_at rest at')
    → os_disasm_item code_addr code offset
      ≡ some (decode_insn code_addr code offset (rex, (op ∷ bytes, at)))
    → ShowsImmediate code_addr code offset len (mov_name wide) reg wide imm
unfolding mov_reg_imm
mov_shows code_addr code offset len rex op reg imm wide bytes rest at at' low high w named small
      long read found =
    let (digits, says, value, few) = mov_ops-text reg imm wide small in
    let c : Cursor = cursor_at bytes (at + 1) in
    let name : List ℕ = regname reg wide in
    (
      digits,
      value,
      shows code_addr code offset len (mov_name wide)
          (sb_hex (sb_str (sb_str (sb_init text_size) (regname reg wide)) (codes ", ")) imm)
          ((regname reg wide ++ codes ", ") ++ (codes "0x" ++ digits)) (some imm) rest at'
          (omega (arith, length-mov_name wide)) says
          (omega (
            arith,
            length-regname reg wide,
            length-append {0} (name ++ codes ", ") (codes "0x" ++ digits),
            length-append {0} name (codes ", "),
          ))
          long
          (found
            ∙ ap (λ (i : Insn). some i)
                (decode_insn-wide code_addr code offset rex op bytes at wide w)
            ∙ ap (λ (d : Decoded). some (finish code_addr code offset d))
                (decode-mov code_addr (length code) op rex wide c low high
                  ∙ ap (λ (p : ℕ × Cursor). result (op % 8 + rex % 2 * 8) p) read
                  ∙ ap (λ (r : ℕ). result r (imm, cursor_at rest at')) named)),
    )
  where
    result : ℕ → ℕ × Cursor → Decoded
    result r p = record {
      mnemonic = copied mnemonic_size (mov_name wide);
      ops = sb_hex (sb_str (sb_str (sb_init text_size) (regname r wide)) (codes ", ")) p.0;
      target = some p.0;
      ok = true;
      cursor = p.1;
    }

abbrev pub is_wide : ℕ → Bool
is_wide imm = if leb imm 0xFFFFFFFF then false else true

abbrev pub load_length : ℕ → ℕ → ℕ
load_length reg imm = if leb imm 0xFFFFFFFF then (if leb 8 reg then 6 else 5) else 10

abbrev short_opcode : ℕ → List ℕ
short_opcode reg = if leb 8 reg then 0x41 ∷ (0xB8 + reg % 8) ∷ [] else (0xB8 + reg % 8) ∷ []

length-short_opcode : (reg : ℕ) → length (short_opcode reg) ≤ 2
length-short_opcode reg =
    if_rule (λ (t : List ℕ). length t ≤ 2) (leb 8 reg) _ _ (omega arith) (omega arith)

abbrev long_opcode : ℕ → List ℕ
long_opcode reg = (0x48 + high_bit reg) ∷ (0xB8 + reg % 8) ∷ []

abbrev encoded : ℕ → ℕ → List ℕ
encoded reg imm =
    if leb imm 0xFFFFFFFF
    then short_opcode reg ++ bytes32 imm
    else long_opcode reg ++ (bytes32 (imm % 2 ^ 32) ++ bytes32 (imm / 2 ^ 32))

code-jit_movabs_reg_full :
    (reg imm : ℕ) (j : Jit)
    → length j.code + 10 ≤ jit_code_size
    → (jit_movabs_reg_full reg imm j).code
      ≡ j.code ++ (long_opcode reg ++ (bytes32 (imm % 2 ^ 32) ++ bytes32 (imm / 2 ^ 32)))
unfolding jit_movabs_reg_full jit_emit64 jit_emit32
code-jit_movabs_reg_full reg imm j room =
    let field : Jit = jit_imm_field (long_opcode reg) 8 j in
    let low : (jit_emit (bytes32 (imm % 2 ^ 32)) field).code
        ≡ j.code ++ (long_opcode reg ++ bytes32 (imm % 2 ^ 32)) =
      code-after j.code (long_opcode reg) (bytes32 (imm % 2 ^ 32)) field
        (code-jit_imm_field (long_opcode reg) 8 j (omega arith)) (omega arith) in
    code-after j.code (long_opcode reg ++ bytes32 (imm % 2 ^ 32)) (bytes32 (imm / 2 ^ 32))
      (jit_emit (bytes32 (imm % 2 ^ 32)) field) low (omega arith)

code-jit_load_imm_reg :
    (reg imm : ℕ) (j : Jit)
    → length j.code + 10 ≤ jit_code_size
    → (jit_load_imm_reg reg imm j).code ≡ j.code ++ encoded reg imm
unfolding jit_load_imm_reg jit_emit32
code-jit_load_imm_reg reg imm j room = elim (Bool-cases (leb imm 0xFFFFFFFF)) [
  | inl e ↦ rw e (
      code-after j.code (short_opcode reg) (bytes32 imm) (jit_imm_field (short_opcode reg) 4 j)
        (code-jit_imm_field (short_opcode reg) 4 j (omega (arith, length-short_opcode reg)))
        (omega (arith, length-short_opcode reg)))
  | inr e ↦ rw e (code-jit_movabs_reg_full reg imm j room)
]

module _ (code_addr : ℕ) (before : List ℕ) (reg imm : ℕ) (rest : List ℕ) (r : reg < 16) where
  short_low :
      imm < 2 ^ 32
      → reg < 8
      → embedded_string_len (before ++ (((0xB8 + reg % 8) ∷ bytes32 imm) ++ rest)) (length before)
        ≡ 0
      → ShowsImmediate code_addr
          (before ++ (((0xB8 + reg % 8) ∷ bytes32 imm) ++ rest))
          (length before)
          5
          (mov_name false)
          reg
          false
          imm
  short_low small low apart =
      let bytes : List ℕ = (0xB8 + reg % 8) ∷ (bytes32 imm ++ rest) in
      let code : List ℕ = before ++ bytes in
      let at : ℕ = length before in
      mov_shows code_addr code at 5 0 (0xB8 + reg % 8) reg imm false (bytes32 imm ++ rest) rest at
        (at + 1 + 1 + 1 + 1 + 1) (omega arith) (omega arith) refl (omega arith) (omega arith)
        (omega arith) (read_u32-bytes32 imm rest (at + 1) small)
        (item_at code_addr before bytes (omega arith) apart
          ∙ ap (λ (s : ℕ × (List ℕ × ℕ)). some (decode_insn code_addr code at s))
              (skip_rex-none (0xB8 + reg % 8) (bytes32 imm ++ rest) at (no_rex reg)))
    where
      no_rex : (reg : ℕ) → (leb 0x40 (0xB8 + reg % 8) && leb (0xB8 + reg % 8) 0x4F) ≡ false
      no_rex reg = ground arith

  short_high :
      imm < 2 ^ 32
      → 8 ≤ reg
      → embedded_string_len
          (before ++ ((0x41 ∷ (0xB8 + reg % 8) ∷ bytes32 imm) ++ rest))
          (length before)
        ≡ 0
      → ShowsImmediate code_addr
          (before ++ ((0x41 ∷ (0xB8 + reg % 8) ∷ bytes32 imm) ++ rest))
          (length before)
          6
          (mov_name false)
          reg
          false
          imm
  short_high small high apart =
      let op : ℕ = 0xB8 + reg % 8 in
      let bytes : List ℕ = 0x41 ∷ op ∷ (bytes32 imm ++ rest) in
      let code : List ℕ = before ++ bytes in
      let at : ℕ = length before in
      mov_shows code_addr code at 6 0x41 op reg imm false (bytes32 imm ++ rest) rest (at + 1)
        (at + 1 + 1 + 1 + 1 + 1 + 1) (omega arith) (omega arith) refl (omega arith) (omega arith)
        (omega arith) (read_u32-bytes32 imm rest (at + 1 + 1) small)
        (item_at code_addr before bytes (omega arith) apart
          ∙ ap (λ (s : ℕ × (List ℕ × ℕ)). some (decode_insn code_addr code at s))
              (skip_rex-one 0x41 op (bytes32 imm ++ rest) at refl (no_rex reg)))
    where
      no_rex : (reg : ℕ) → (leb 0x40 (0xB8 + reg % 8) && leb (0xB8 + reg % 8) 0x4F) ≡ false
      no_rex reg = ground arith

  long :
      imm < 2 ^ 64
      → embedded_string_len
          (before
            ++ ((long_opcode reg ++ (bytes32 (imm % 2 ^ 32) ++ bytes32 (imm / 2 ^ 32))) ++ rest))
          (length before)
        ≡ 0
      → ShowsImmediate code_addr
          (before
            ++ ((long_opcode reg ++ (bytes32 (imm % 2 ^ 32) ++ bytes32 (imm / 2 ^ 32))) ++ rest))
          (length before)
          10
          (mov_name true)
          reg
          true
          imm
  long small apart =
      let rex : ℕ = 0x48 + high_bit reg in
      let op : ℕ = 0xB8 + reg % 8 in
      let imm_bytes : List ℕ = bytes32 (imm % 2 ^ 32) ++ (bytes32 (imm / 2 ^ 32) ++ rest) in
      let bytes : List ℕ = rex ∷ op ∷ imm_bytes in
      let code : List ℕ = before ++ bytes in
      let at : ℕ = length before in
      mov_shows code_addr code at 10 rex op reg imm true imm_bytes rest (at + 1)
        (at + 1 + 1 + 1 + 1 + 1 + 1 + 1 + 1 + 1 + 1) (omega arith) (omega arith) (has_w reg)
        (omega arith) small (omega arith) (read_u64-bytes32 imm rest (at + 1 + 1) small)
        (item_at code_addr before bytes (omega arith) apart
          ∙ ap (λ (s : ℕ × (List ℕ × ℕ)). some (decode_insn code_addr code at s))
              (skip_rex-one rex op imm_bytes at (is_rex reg) (no_rex reg)))
    where
      no_rex : (reg : ℕ) → (leb 0x40 (0xB8 + reg % 8) && leb (0xB8 + reg % 8) 0x4F) ≡ false
      no_rex reg = ground arith

      is_rex : (reg : ℕ) → (leb 0x40 (0x48 + high_bit reg) && leb (0x48 + high_bit reg) 0x4F) ≡ true
      is_rex reg = ground arith

      has_w : (reg : ℕ) → ((0x48 + high_bit reg) / 8 % 2 == 1) ≡ true
      has_w reg = ground arith

  encoded_shows :
      imm < 2 ^ 64
      → embedded_string_len (before ++ (encoded reg imm ++ rest)) (length before) ≡ 0
      → ShowsImmediate code_addr
          (before ++ (encoded reg imm ++ rest))
          (length before)
          (load_length reg imm)
          (mov_name (is_wide imm))
          reg
          (is_wide imm)
          imm
  encoded_shows small = elim (Bool-cases (leb imm 0xFFFFFFFF)) [
    | inl e ↦
        let short : imm < 2 ^ 32 = omega (arith, leb→le imm 0xFFFFFFFF e) in
        elim (Bool-cases (leb 8 reg)) [
          | inl f ↦ rw (e, f) (short_high short (leb→le 8 reg f))
          | inr f ↦ rw (e, f) (short_low short (leb→gt 8 reg f))
        ]
    | inr e ↦ rw e (long small)
  ]

-- An immediate that is loaded into a register, in a buffer with room for it, is shown by the
-- disassembler as a mov to that register, of 5 or 6 bytes and to the 32-bit name if it is below 2^32, and
-- of 10 bytes if not; its digits say the immediate, which is also the target, unless the bytes before it
-- look like the jmp over an embedded string.
pub jit_load_imm_reg-Shows :
    (code_addr reg imm : ℕ) (j : Jit) (rest : List ℕ)
    → reg < 16
    → imm < 2 ^ 64
    → length j.code + 10 ≤ jit_code_size
    → embedded_string_len ((jit_load_imm_reg reg imm j).code ++ rest) (length j.code) ≡ 0
    → ShowsImmediate code_addr
        ((jit_load_imm_reg reg imm j).code ++ rest)
        (length j.code)
        (load_length reg imm)
        (mov_name (is_wide imm))
        reg
        (is_wide imm)
        imm
jit_load_imm_reg-Shows code_addr reg imm j rest r small room apart =
    let code : (jit_load_imm_reg reg imm j).code ++ rest ≡ j.code ++ (encoded reg imm ++ rest) =
      ap (λ (t : List ℕ). t ++ rest) (code-jit_load_imm_reg reg imm j room)
      ∙ append_assoc j.code (encoded reg imm) rest in
    rw code (encoded_shows code_addr j.code reg imm rest r small (rw code at apart))
