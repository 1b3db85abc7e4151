-- ===== src/Emit/Jump.antt =====
-- The jumps and the embedded names of src/c/za.c, and what src/c/disasm.c shows for them.
use isiki.Prelude.{
  ℕ, ◌+◌, ◌/◌, ◌%◌, ◌^◌, ◌≤◌, ◌<◌, ◌≡◌, refl, ap, ◌∙◌, Bool, true, false, ◌||◌, if◌then◌else◌, none,
  some, List, [], ◌∷◌, ◌++◌, arith, ltb, leb, length, length-append, set, set-append, codes,
}
use mathlib.Core.List.{append_assoc}
use isiki.Prelude.Int.{ℤ, pos, negsuc, sub_ℕ, ◌+ℤ◌}
use isiki.Disasm.Text.{sb_init, sb_hex, copied}
use isiki.Disasm.Text.Hex.{hex_value, sb_hex-value}
use isiki.Disasm.Operand.{Cursor, read_u32, sign32, branch_to, branch_is_outside, branch_target}
use isiki.Disasm.Switch.{text_size, mnemonic_size, Decoded, branch_insn, decode}
use isiki.Disasm.Item.{Insn, embedded_string_len, decode_insn, finish}
use isiki.Emit.{
  jit_code_size, bytes32, word32, store32, Jit, jit_emit, jit_emit32, jit_emit_rel32_placeholder,
  jit_patch_rel32_target, jit_emit_jmp_to,
}
use isiki.Emit.Shows.{
  Shows, read_u32-bytes32, cursor_at, item_at, skip_rex-none, decode_insn-wide, shows,
}
use isiki.Emit.Stored.{set32, store32_lem}
use isiki.Emit.Room.{jit_emit-code}

pub set32-append :
    (before : List ℕ) (op a b c d : ℕ) (rest : List ℕ) (n v : ℕ)
    → n ≡ length before + 1
    → set32 (before ++ op ∷ a ∷ b ∷ c ∷ d ∷ rest) n v ≡ before ++ op ∷ (bytes32 v ++ rest)
set32-append before op a b c d rest n v e =
    let v₀ : ℕ = v % 2 ^ 8 in
    let v₁ : ℕ = v / 2 ^ 8 % 2 ^ 8 in
    let v₂ : ℕ = v / 2 ^ 16 % 2 ^ 8 in
    let v₃ : ℕ = v / 2 ^ 24 % 2 ^ 8 in
    ap (λ (t : List ℕ). set (set (set t (n + 1) v₁) (n + 2) v₂) (n + 3) v₃)
      (set-append before (op ∷ a ∷ b ∷ c ∷ d ∷ rest) 1 n v₀ e)
    ∙ ap (λ (t : List ℕ). set (set t (n + 2) v₂) (n + 3) v₃)
        (set-append before (op ∷ v₀ ∷ b ∷ c ∷ d ∷ rest) 2 (n + 1) v₁ (omega arith))
    ∙ ap (λ (t : List ℕ). set t (n + 3) v₃)
        (set-append before (op ∷ v₀ ∷ v₁ ∷ c ∷ d ∷ rest) 3 (n + 2) v₂ (omega arith))
    ∙ set-append before (op ∷ v₀ ∷ v₁ ∷ v₂ ∷ d ∷ rest) 4 (n + 3) v₃ (omega arith)

-- The displacement that is patched in leads from the next instruction to the target.
branch_to-target :
    (target from : ℕ)
    → target < 2 ^ 31
    → from < 2 ^ 31
    → branch_to from (sign32 (word32 (sub_ℕ target from))) ≡ pos target
unfolding branch_to ◌+ℤ◌
branch_to-target target from h k = ground arith

branch_insn-inside :
    (code_addr len : ℕ) (name : List ℕ) (rel : ℤ) (c : Cursor) (target : ℕ)
    → branch_to c.at rel ≡ pos target
    → target ≤ len
    → branch_insn code_addr len name rel c ≡ record {
      mnemonic = copied mnemonic_size name;
      ops = sb_hex (sb_init text_size) (target % 2 ^ 64);
      target = none;
      ok = true;
      cursor = c;
    }
unfolding branch_insn branch_target branch_is_outside
branch_insn-inside code_addr len name rel c target e h = rw (e, inside target len h) refl
  where
    inside : (a b : ℕ) → a ≤ b → leb a b ≡ true
    inside a b h = ground arith

pub rel32_placeholder_lem :
    (op : ℕ) (j : Jit)
    → length j.code + 5 ≤ jit_code_size
    → jit_emit_rel32_placeholder (op ∷ []) j
      ≡ (record j { code = j.code ++ op ∷ 0 ∷ 0 ∷ 0 ∷ 0 ∷ [] }, length j.code + 1)
unfolding jit_emit_rel32_placeholder jit_emit32
rel32_placeholder_lem op j room =
    let j' : Jit = record j { code = j.code ++ op ∷ [] } in
    let more : length j'.code ≡ length j.code + 1 = length-append j.code (op ∷ []) in
    ap (λ (t : Jit). (jit_emit (bytes32 0) t, length t.code))
      (jit_emit-code (op ∷ []) j (omega arith))
    ∙ ap (λ (t : Jit). (t, length j'.code)) (jit_emit-code (bytes32 0) j' (omega arith))
    ∙ ap (λ (t : List ℕ). (record j { code = t }, length j'.code))
        (append_assoc j.code (op ∷ []) (bytes32 0))
    ∙ ap (λ (n : ℕ). (record j { code = j.code ++ op ∷ 0 ∷ 0 ∷ 0 ∷ 0 ∷ [] }, n)) more

pub patch_rel32_target_lem :
    (n target : ℕ) (j : Jit)
    → j.overflow ≡ false
    → n + 4 ≤ jit_code_size
    → jit_patch_rel32_target n target j
      ≡ record j { code = set32 j.code n (word32 (sub_ℕ target (n + 4))) }
unfolding jit_patch_rel32_target
patch_rel32_target_lem n target j no_overflow room =
    let v : ℕ = word32 (sub_ℕ target (n + 4)) in
    ap (λ (full : Bool). if full then j else store32 n v j)
      (apart j.overflow (n + 4) no_overflow room)
    ∙ store32_lem n v j room
  where
    apart : (o : Bool) (a : ℕ) → o ≡ false → a ≤ jit_code_size → (o || ltb jit_code_size a) ≡ false
    apart o a e h = ground arith

-- A jmp whose displacement leads to the target, in front of more code.
abbrev pub jmp_code : ℕ → ℕ → List ℕ
jmp_code target from = 0xE9 ∷ bytes32 (word32 (sub_ℕ target from))

jmp_to-code :
    (target : ℕ) (j : Jit)
    → j.overflow ≡ false
    → length j.code + 5 ≤ jit_code_size
    → (jit_emit_jmp_to target j).code ≡ j.code ++ jmp_code target (length j.code + 1 + 4)
unfolding jit_emit_jmp_to
jmp_to-code target j no_overflow room =
    let j' : Jit = record j { code = j.code ++ 0xE9 ∷ 0 ∷ 0 ∷ 0 ∷ 0 ∷ [] } in
    ap (λ (p : Jit × ℕ). (jit_patch_rel32_target p.1 target p.0).code)
      (rel32_placeholder_lem 0xE9 j room)
    ∙ ap (λ (t : Jit). t.code)
        (patch_rel32_target_lem (length j.code + 1) target j' no_overflow (omega arith))
    ∙ set32-append j.code 0xE9 0 0 0 0 [] (length j.code + 1)
        (word32 (sub_ℕ target (length j.code + 1 + 4))) refl

-- The shown operand: digits that say the target.
abbrev pub ShowsJmp : ℕ → List ℕ → ℕ → ℕ → Type 0
ShowsJmp code_addr code offset target =
    (digits : List ℕ) × (hex_value 0 digits ≡ target)
    × Shows code_addr code offset 5 (codes "jmp") (codes "0x" ++ digits) none

word32-bound : (z : ℤ) → word32 z < 2 ^ 32
word32-bound (pos n) = omega arith
word32-bound (negsuc n) = omega arith

decode-jmp :
    (code_addr len : ℕ) (c : Cursor)
    → decode code_addr len 0xE9 0 false c
      ≡ branch_insn code_addr len (codes "jmp") (sign32 (read_u32 c).0) (read_u32 c).1
unfolding decode
decode-jmp code_addr len c = refl

pub jmp_code_shows :
    (code_addr : ℕ) (before rest : List ℕ) (target : ℕ)
    → target < 2 ^ 31
    → length before + 5 < 2 ^ 31
    → target ≤ length (before ++ (jmp_code target (length before + 1 + 4) ++ rest))
    → embedded_string_len
        (before ++ (jmp_code target (length before + 1 + 4) ++ rest))
        (length before)
      ≡ 0
    → ShowsJmp code_addr
        (before ++ (jmp_code target (length before + 1 + 4) ++ rest))
        (length before)
        target
jmp_code_shows code_addr before rest target near short inside apart =
    let at : ℕ = length before in
    let from : ℕ = at + 1 + 4 in
    let imm : ℕ = word32 (sub_ℕ target from) in
    let bytes : List ℕ = bytes32 imm ++ rest in
    let code : List ℕ = before ++ 0xE9 ∷ bytes in
    let c : Cursor = cursor_at bytes (at + 1) in
    let c' : Cursor = cursor_at rest from in
    let (digits, says, value, few) =
      sb_hex-value (sb_init text_size) (target % 2 ^ 64) (omega arith) (omega arith) in
    (
      digits,
      value ∙ omega arith,
      shows code_addr code at 5 (codes "jmp") (sb_hex (sb_init text_size) (target % 2 ^ 64))
          (codes "0x" ++ digits) none rest from (omega arith) says (omega arith) (omega arith)
          (item_at code_addr before (0xE9 ∷ bytes) (omega arith) apart
            ∙ ap (λ (s : ℕ × (List ℕ × ℕ)). some (decode_insn code_addr code at s))
                (skip_rex-none 0xE9 bytes at refl)
            ∙ ap (λ (i : Insn). some i)
                (decode_insn-wide code_addr code at 0 0xE9 bytes at false refl)
            ∙ ap (λ (d : Decoded). some (finish code_addr code at d))
                (decode-jmp code_addr (length code) c
                  ∙ ap
                      (λ (p : ℕ × Cursor).
                        branch_insn code_addr (length code) (codes "jmp") (sign32 p.0) p.1)
                      (read_u32-bytes32 imm rest (at + 1) (word32-bound (sub_ℕ target from))
                        ∙ ap (λ (n : ℕ). (imm, cursor_at rest n)) (omega arith))
                  ∙ branch_insn-inside code_addr (length code) (codes "jmp") (sign32 imm) c' target
                      (branch_to-target target from near (omega arith)) inside)),
    )

-- A jmp that is emitted to an offset of the code, in a buffer with room for it and no overflow yet, is
-- shown by the disassembler as a jmp of five bytes to that offset, whatever code follows, unless the
-- bytes before it look like the jmp over an embedded string.
pub jit_emit_jmp_to-Shows :
    (code_addr target : ℕ) (j : Jit) (rest : List ℕ)
    → j.overflow ≡ false
    → length j.code + 5 ≤ jit_code_size
    → target < jit_code_size
    → target ≤ length ((jit_emit_jmp_to target j).code ++ rest)
    → embedded_string_len ((jit_emit_jmp_to target j).code ++ rest) (length j.code) ≡ 0
    → ShowsJmp code_addr ((jit_emit_jmp_to target j).code ++ rest) (length j.code) target
jit_emit_jmp_to-Shows code_addr target j rest no_overflow room near inside apart =
    let code : (jit_emit_jmp_to target j).code ++ rest
        ≡ j.code ++ (jmp_code target (length j.code + 1 + 4) ++ rest) =
      ap (λ (t : List ℕ). t ++ rest) (jmp_to-code target j no_overflow room)
      ∙ append_assoc j.code (jmp_code target (length j.code + 1 + 4)) rest in
    rw code (
      jmp_code_shows code_addr j.code rest target (omega arith) (omega arith) (rw code at inside)
        (rw code at apart))
