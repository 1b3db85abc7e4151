-- ===== src/Emit/Unknown.antt =====
-- Two encodings of src/c/za.c that src/c/disasm.c does not know.
use isiki.Prelude.{
  ℕ, ◌+◌, ◌*◌, ◌%◌, ◌≤◌, ◌≡◌, refl, ap, ◌∙◌, true, false, ◌&&◌, none, some, List, [], ◌∷◌, ◌++◌,
  arith, leb, length,
}
use mathlib.Core.List.{append_assoc}
use isiki.Disasm.Text.{sb_init}
use isiki.Disasm.Operand.{Cursor}
use isiki.Disasm.Switch.{text_size, Decoded, undecoded, decode, two_byte_insn}
use isiki.Disasm.Item.{Insn, embedded_string_len, emit_bad, finish, os_disasm_item}
use isiki.Emit.{high_bit, jit_code_size, Jit, jit_emit, jit_emit_shift_imm8, jit_cmove_reg_reg}
use isiki.Emit.Shows.{rex_item}
use isiki.Emit.Room.{jit_emit-code}

-- The item at the offset is bad.
abbrev pub IsUnknown : ℕ → List ℕ → ℕ → Type 0
IsUnknown code_addr code offset = os_disasm_item code_addr code offset ≡ some (emit_bad code offset)

finish-undecoded :
    (code_addr : ℕ) (code : List ℕ) (offset : ℕ) (c : Cursor)
    → finish code_addr code offset (undecoded (sb_init text_size) c) ≡ emit_bad code offset
unfolding finish
finish-undecoded code_addr code offset c = refl

decode-shift :
    (code_addr len rex : ℕ) (c : Cursor)
    → decode code_addr len 0xC1 rex true c ≡ undecoded (sb_init text_size) c
unfolding decode
decode-shift code_addr len rex c = refl

decode-cmove :
    (code_addr len rex : ℕ) (rest : List ℕ) (at : ℕ)
    → decode code_addr len 0x0F rex true
        (record { rest = 0x44 ∷ rest; at = at; truncated = false; rip_disp = none })
      ≡ undecoded
          (sb_init text_size)
          (record { rest = rest; at = at + 1; truncated = false; rip_disp = none })
unfolding decode two_byte_insn
decode-cmove code_addr len rex rest at = refl

shift_code :
    (code_addr : ℕ) (before : List ℕ) (reg : ℕ) (rest : List ℕ)
    → embedded_string_len (before ++ (0x48 + high_bit reg) ∷ 0xC1 ∷ rest) (length before) ≡ 0
    → IsUnknown code_addr (before ++ (0x48 + high_bit reg) ∷ 0xC1 ∷ rest) (length before)
shift_code code_addr before reg rest apart =
    let code : List ℕ = before ++ (0x48 + high_bit reg) ∷ 0xC1 ∷ rest in
    let c : Cursor = record {
      rest = rest;
      at = length before + 1 + 1;
      truncated = false;
      rip_disp = none;
    } in
    rex_item code_addr before (0x48 + high_bit reg) 0xC1 rest (is_rex reg) refl (omega arith) apart
    ∙ ap (λ (d : Decoded). some (finish code_addr code (length before) d))
        (decode-shift code_addr (length code) (0x48 + high_bit reg) c)
    ∙ ap (λ (i : Insn). some i) (finish-undecoded code_addr code (length before) c)
  where
    is_rex : (reg : ℕ) → (leb 0x40 (0x48 + high_bit reg) && leb (0x48 + high_bit reg) 0x4F) ≡ true
    is_rex reg = ground arith

cmove_code :
    (code_addr : ℕ) (before : List ℕ) (dst src : ℕ) (rest : List ℕ)
    → embedded_string_len
        (before ++ (0x48 + high_bit dst * 4 + high_bit src) ∷ 0x0F ∷ 0x44 ∷ rest)
        (length before)
      ≡ 0
    → IsUnknown code_addr
        (before ++ (0x48 + high_bit dst * 4 + high_bit src) ∷ 0x0F ∷ 0x44 ∷ rest)
        (length before)
cmove_code code_addr before dst src rest apart =
    let rex : ℕ = 0x48 + high_bit dst * 4 + high_bit src in
    let code : List ℕ = before ++ rex ∷ 0x0F ∷ 0x44 ∷ rest in
    rex_item code_addr before rex 0x0F (0x44 ∷ rest) (is_rex dst src) refl (omega arith) apart
    ∙ ap (λ (d : Decoded). some (finish code_addr code (length before) d))
        (decode-cmove code_addr (length code) rex rest (length before + 1 + 1))
    ∙ ap (λ (i : Insn). some i) (finish-undecoded code_addr code (length before) _)
  where
    is_rex :
        (dst src : ℕ)
        → (leb 0x40 (0x48 + high_bit dst * 4 + high_bit src)
            && leb (0x48 + high_bit dst * 4 + high_bit src) 0x4F)
          ≡ true
    is_rex dst src = ground arith

-- In a buffer with room for them, a shift and a conditional move that are emitted are bad to the
-- disassembler, whatever the registers and the code that follows, unless the bytes before them look like
-- the jmp over an embedded string.
pub encodings-IsUnknown :
    (code_addr digit reg imm8 dst src : ℕ) (j : Jit) (rest : List ℕ)
    → length j.code + 4 ≤ jit_code_size
    → embedded_string_len ((jit_emit_shift_imm8 digit reg imm8 j).code ++ rest) (length j.code) ≡ 0
    → embedded_string_len ((jit_cmove_reg_reg dst src j).code ++ rest) (length j.code) ≡ 0
    → IsUnknown code_addr ((jit_emit_shift_imm8 digit reg imm8 j).code ++ rest) (length j.code)
      × IsUnknown code_addr ((jit_cmove_reg_reg dst src j).code ++ rest) (length j.code)
unfolding jit_emit_shift_imm8 jit_cmove_reg_reg
encodings-IsUnknown code_addr digit reg imm8 dst src j rest room apart₁ apart₂ =
    let shift_rest : List ℕ = (0xC0 + digit * 8 + reg % 8) ∷ imm8 ∷ [] in
    let shift : List ℕ = (0x48 + high_bit reg) ∷ 0xC1 ∷ shift_rest in
    let shift_at : (jit_emit shift j).code ++ rest ≡ j.code ++ (shift ++ rest) =
      emitted shift room in
    let cmove_rest : List ℕ = (0xC0 + dst % 8 * 8 + src % 8) ∷ [] in
    let cmove : List ℕ = (0x48 + high_bit dst * 4 + high_bit src) ∷ 0x0F ∷ 0x44 ∷ cmove_rest in
    let cmove_at : (jit_emit cmove j).code ++ rest ≡ j.code ++ (cmove ++ rest) =
      emitted cmove room in
    (
      rw shift_at (shift_code code_addr j.code reg (shift_rest ++ rest) (rw shift_at at apart₁)),
      rw cmove_at
          (cmove_code code_addr j.code dst src (cmove_rest ++ rest) (rw cmove_at at apart₂)),
    )
  where
    emitted :
        (bytes : List ℕ)
        → length j.code + length bytes ≤ jit_code_size
        → (jit_emit bytes j).code ++ rest ≡ j.code ++ (bytes ++ rest)
    emitted bytes h =
        ap (λ (t : Jit). t.code ++ rest) (jit_emit-code bytes j h) ∙ append_assoc j.code bytes rest
