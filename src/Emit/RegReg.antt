-- ===== src/Emit/RegReg.antt =====
-- The instructions on two registers of src/c/za.c.
use isiki.Prelude.{
  ℕ, ◌+◌, ◌*◌, ◌/◌, ◌%◌, ◌≤◌, ◌<◌, ◌≡◌, refl, ap, ◌∙◌, Bool, true, false, ◌&&◌, none, some, List,
  [], ◌∷◌, ◌++◌, arith, leb, ◌==◌, if◌then◌else◌, length, length-append, codes,
}
use mathlib.Core.List.{append_assoc}
use isiki.Disasm.Text.{regname, copied, alu_name}
use isiki.Disasm.Operand.{Cursor, Operand}
use isiki.Disasm.Switch.{mnemonic_size, pair_ops, Decoded, store_insn, decode, is_store}
use isiki.Disasm.Item.{embedded_string_len, finish}
use isiki.Emit.{
  high_bit, jit_code_size, Jit, RegOp, mov_op, or_op, add_op, sub_op, cmp_op, test_op, xor_op,
  opcode_of, jit_emit, jit_emit_reg_reg_op, jit_reg_reg,
}
use isiki.Emit.Shows.{Shows, length-regname, pair_ops-text, decode_modrm-register, rex_item, shows}
use isiki.Emit.Room.{jit_emit-code}

-- The name that store_insn gives to an opcode.
abbrev store_name : ℕ → List ℕ
store_name op = if op == 0x89 then codes "mov" else if op == 0x85 then codes "test" else alu_name op

decode-store :
    (code_addr len op rex : ℕ) (wide : Bool) (c : Cursor)
    → is_store op ≡ true
    → decode code_addr len op rex wide c ≡ store_insn op rex wide c
unfolding decode
decode-store code_addr len op rex wide c h = rw h refl

store_insn-register :
    (op modrm rex : ℕ) (rest : List ℕ) (at : ℕ)
    → modrm / 64 ≡ 3
    → store_insn op rex true
        (record { rest = modrm ∷ rest; at = at; truncated = false; rip_disp = none })
      ≡ record {
        mnemonic = copied mnemonic_size (store_name op);
        ops =
            pair_ops
              (regname (modrm % 8 + rex % 2 * 8) true)
              (regname (modrm / 8 % 8 + rex / 4 % 2 * 8) true);
        target = none;
        ok = true;
        cursor = record { rest = rest; at = at + 1; truncated = false; rip_disp = none };
      }
unfolding store_insn
store_insn-register op modrm rex rest at e =
    ap
      (λ (o : Operand). record {
        mnemonic = copied mnemonic_size (store_name op);
        ops = pair_ops o.rm_text (regname o.reg true);
        target = none;
        ok = true;
        cursor = o.cursor;
      })
      (decode_modrm-register modrm rex true rest at e)

store-Shows :
    (code_addr : ℕ) (before : List ℕ) (dst src op : ℕ) (rest : List ℕ)
    → dst < 16
    → src < 16
    → is_store op ≡ true
    → (leb 0x40 op && leb op 0x4F) ≡ false
    → length (store_name op) ≤ 4
    → embedded_string_len
        (before
          ++ (0x48 + high_bit src * 4 + high_bit dst) ∷ op ∷ (0xC0 + src % 8 * 8 + dst % 8) ∷ rest)
        (length before)
      ≡ 0
    → Shows code_addr
        (before
          ++ (0x48 + high_bit src * 4 + high_bit dst) ∷ op ∷ (0xC0 + src % 8 * 8 + dst % 8) ∷ rest)
        (length before)
        3
        (store_name op)
        ((regname dst true ++ codes ", ") ++ regname src true)
        none
store-Shows code_addr before dst src op rest p q store opcode name apart =
    let rex : ℕ = 0x48 + high_bit src * 4 + high_bit dst in
    let modrm : ℕ = 0xC0 + src % 8 * 8 + dst % 8 in
    let code : List ℕ = before ++ rex ∷ op ∷ modrm ∷ rest in
    let at : ℕ = length before + 1 + 1 in
    shows code_addr code (length before) 3 (store_name op)
      (pair_ops (regname (modrm % 8 + rex % 2 * 8) true)
        (regname (modrm / 8 % 8 + rex / 4 % 2 * 8) true))
      ((regname dst true ++ codes ", ") ++ regname src true) none rest (at + 1) (omega arith)
      (ap (λ (r : ℕ). pair_ops (regname r true) (regname (modrm / 8 % 8 + rex / 4 % 2 * 8) true))
          (low dst src p)
        ∙ ap (λ (r : ℕ). pair_ops (regname dst true) (regname r true)) (high dst src q)
        ∙ pair_ops-text (regname dst true) (regname src true)
            (omega (arith, length-regname dst true, length-regname src true)))
      (omega (
        arith,
        length-regname dst true,
        length-regname src true,
        length-append {0} (regname dst true ++ codes ", ") (regname src true),
        length-append {0} (regname dst true) (codes ", "),
      ))
      (omega arith)
      (rex_item code_addr before rex op (modrm ∷ rest) (is_rex dst src) opcode (omega arith) apart
        ∙ ap (λ (d : Decoded). some (finish code_addr code (length before) d))
            (decode-store code_addr (length code) op rex true
                (record { rest = modrm ∷ rest; at = at; truncated = false; rip_disp = none }) store
              ∙ store_insn-register op modrm rex rest at (omega arith)))
  where
    is_rex :
        (dst src : ℕ)
        → (leb 0x40 (0x48 + high_bit src * 4 + high_bit dst)
            && leb (0x48 + high_bit src * 4 + high_bit dst) 0x4F)
          ≡ true
    is_rex dst src = ground arith

    low :
        (dst src : ℕ)
        → dst < 16
        → (0xC0 + src % 8 * 8 + dst % 8) % 8 + (0x48 + high_bit src * 4 + high_bit dst) % 2 * 8
          ≡ dst
    low dst src h = omega arith

    high :
        (dst src : ℕ)
        → src < 16
        → (0xC0 + src % 8 * 8 + dst % 8) / 8 % 8
            + (0x48 + high_bit src * 4 + high_bit dst) / 4 % 2 * 8
          ≡ src
    high dst src h = omega arith

abbrev pub name_of : RegOp → List ℕ
name_of mov_op = codes "mov"
name_of or_op = codes "or"
name_of add_op = codes "add"
name_of sub_op = codes "sub"
name_of cmp_op = codes "cmp"
name_of test_op = codes "test"
name_of xor_op = codes "xor"

code-Shows :
    (op : RegOp) (code_addr : ℕ) (before : List ℕ) (dst src : ℕ) (rest : List ℕ)
    → dst < 16
    → src < 16
    → embedded_string_len
        (before
          ++ (0x48 + high_bit src * 4 + high_bit dst)
            ∷ opcode_of op
            ∷ (0xC0 + src % 8 * 8 + dst % 8)
            ∷ rest)
        (length before)
      ≡ 0
    → Shows code_addr
        (before
          ++ (0x48 + high_bit src * 4 + high_bit dst)
            ∷ opcode_of op
            ∷ (0xC0 + src % 8 * 8 + dst % 8)
            ∷ rest)
        (length before)
        3
        (name_of op)
        ((regname dst true ++ codes ", ") ++ regname src true)
        none
unfolding opcode_of alu_name
code-Shows mov_op addr before dst src rest p q e =
    store-Shows addr before dst src 0x89 rest p q refl refl (omega arith) e
code-Shows or_op addr before dst src rest p q e =
    store-Shows addr before dst src 0x09 rest p q refl refl (omega arith) e
code-Shows add_op addr before dst src rest p q e =
    store-Shows addr before dst src 0x01 rest p q refl refl (omega arith) e
code-Shows sub_op addr before dst src rest p q e =
    store-Shows addr before dst src 0x29 rest p q refl refl (omega arith) e
code-Shows cmp_op addr before dst src rest p q e =
    store-Shows addr before dst src 0x39 rest p q refl refl (omega arith) e
code-Shows test_op addr before dst src rest p q e =
    store-Shows addr before dst src 0x85 rest p q refl refl (omega arith) e
code-Shows xor_op addr before dst src rest p q e =
    store-Shows addr before dst src 0x31 rest p q refl refl (omega arith) e

-- What is emitted for an instruction on two registers, in a buffer with room for it, is shown by the
-- disassembler as that instruction, of three bytes, with the two registers in their order, whatever code
-- follows, unless the bytes before it look like the jmp over an embedded string.
pub jit_reg_reg-Shows :
    (op : RegOp) (code_addr dst src : ℕ) (j : Jit) (rest : List ℕ)
    → dst < 16
    → src < 16
    → length j.code + 3 ≤ jit_code_size
    → embedded_string_len ((jit_reg_reg op dst src j).code ++ rest) (length j.code) ≡ 0
    → Shows code_addr
        ((jit_reg_reg op dst src j).code ++ rest)
        (length j.code)
        3
        (name_of op)
        ((regname dst true ++ codes ", ") ++ regname src true)
        none
unfolding jit_reg_reg jit_emit_reg_reg_op
jit_reg_reg-Shows op code_addr dst src j rest p q room apart =
    let bytes : List ℕ =
      (0x48 + high_bit src * 4 + high_bit dst)
      ∷ opcode_of op
      ∷ (0xC0 + src % 8 * 8 + dst % 8)
      ∷ [] in
    let code : (jit_emit bytes j).code ++ rest ≡ j.code ++ (bytes ++ rest) =
      ap (λ (t : Jit). t.code ++ rest) (jit_emit-code bytes j room)
      ∙ append_assoc j.code bytes rest in
    rw code (code-Shows op code_addr j.code dst src rest p q (rw code at apart))
