-- ===== src/Disasm/Operand.antt =====
-- src/c/disasm.c: the reading position d_cursor_t, ModRM operands, and the targets of branches.
use isiki.Prelude.{
  ℕ, ◌+◌, ◌-◌, ◌*◌, ◌/◌, ◌%◌, ◌^◌, Bool, true, false, not, ◌&&◌, Option, none, some, List, [], ◌∷◌,
  leb, ltb, ◌==◌, if◌then◌else◌, get_or, codes,
}
use isiki.Prelude.Int.{ℤ, pos, negsuc, ◌+ℤ◌}
use isiki.Disasm.Text.{Sb, sb_init, sb_char, sb_str, sb_hex, sb_disp, reg64, regname}

-- `rest` is the code from `at` on; `rip_disp` is none until a RIP-relative operand is read.
pub record Cursor : Type 0 where
  pub rest : List ℕ
  pub at : ℕ
  pub truncated : Bool
  pub rip_disp : Option ℤ

abbrev next : List ℕ → Cursor → ℕ × Cursor
next [] c = (0, record c { truncated = true })
next (b ∷ bytes) c = (b, record c { rest = bytes; at = c.at + 1 })

unfoldable pub read_u8 : Cursor → ℕ × Cursor
read_u8 c = next c.rest c

unfoldable pub read_u32 : Cursor → ℕ × Cursor
unfolding read_u8
read_u32 c =
    let (b₀, c₀) = read_u8 c in
    let (b₁, c₁) = read_u8 c₀ in
    let (b₂, c₂) = read_u8 c₁ in
    let (b₃, c₃) = read_u8 c₂ in (b₀ + b₁ * 2 ^ 8 + b₂ * 2 ^ 16 + b₃ * 2 ^ 24, c₃)

unfoldable pub read_u64 : Cursor → ℕ × Cursor
unfolding read_u32
read_u64 c = let (low, c₀) = read_u32 c in let (high, c₁) = read_u32 c₀ in (low + high * 2 ^ 32, c₁)

-- The casts that extend a sign, and the cast of an INT64 to a word.
abbrev pub sign8 : ℕ → ℤ
sign8 b = if ltb b (2 ^ 7) then pos b else negsuc (2 ^ 8 - 1 - b)

abbrev pub sign32 : ℕ → ℤ
sign32 v = if ltb v (2 ^ 31) then pos v else negsuc (2 ^ 32 - 1 - v)

abbrev pub to_word64 : ℤ → ℕ
to_word64 (pos n) = n % 2 ^ 64
to_word64 (negsuc n) = (2 ^ 64 - 1 - n) % 2 ^ 64

-- Bits of a REX prefix, and the fields of a ModRM byte with the bits that REX adds.
abbrev pub rex_b : ℕ → ℕ
rex_b rex = rex % 2

abbrev pub rex_x : ℕ → ℕ
rex_x rex = rex / 2 % 2

abbrev pub rex_r : ℕ → ℕ
rex_r rex = rex / 4 % 2

-- Where a memory operand points; `scale` counts only with an index.
pub record Memory : Type 0 where
  pub base : Option ℕ
  pub index : Option ℕ
  pub scale : ℕ
  pub disp : ℤ
  pub rip_relative : Bool

unfoldable pub read_sib : ℕ → ℕ → Cursor → Memory × Cursor
unfolding read_u8 read_u32
read_sib mod_bits rex c =
    let (sib, c₁) = read_u8 c in
    let index = sib / 8 % 8 + rex_x rex * 8 in
    let base = sib % 8 + rex_b rex * 8 in
    let memory : Memory = record {
      base = some base;
      index = if index == 4 then none else some index;
      scale = 2 ^ (sib / 64);
      disp = pos 0;
      rip_relative = false;
    } in
    if sib % 8 == 5 && mod_bits == 0
    then (let (v, c₂) = read_u32 c₁ in (record memory { base = none; disp = sign32 v }, c₂))
    else (memory, c₁)

unfoldable pub read_base : ℕ → ℕ → ℕ → Cursor → Memory × Cursor
unfolding read_sib
read_base mod_bits rm rex c =
    if rm == 4
    then read_sib mod_bits rex c
    else if rm == 5 && mod_bits == 0
    then (let (v, c₁) = read_u32 c in
        (
          record { base = none; index = none; scale = 0; disp = sign32 v; rip_relative = true },
          record c₁ { rip_disp = some (sign32 v) },
        ))
    else (
      record {
        base = some (rm + rex_b rex * 8);
        index = none;
        scale = 0;
        disp = pos 0;
        rip_relative = false;
      },
      c,
    )

unfoldable pub read_disp : ℕ → Memory → Cursor → Memory × Cursor
unfolding read_u8 read_u32
read_disp mod_bits memory c =
    if mod_bits == 1
    then (let (b, c₁) = read_u8 c in (record memory { disp = sign8 b }, c₁))
    else if mod_bits == 2
    then (let (v, c₁) = read_u32 c in (record memory { disp = sign32 v }, c₁))
    else (memory, c)

unfoldable pub put_index : Sb → Bool → Memory → Sb
put_index sb wrote memory = elim memory.index [
  | none ↦ sb
  | some index ↦
      let sb' = if wrote then sb_char sb b'+' else sb in
      sb_hex (sb_char (sb_str sb' (get_or reg64 index [])) b'*') memory.scale
]

unfoldable pub is_some : Option ℕ → Bool
is_some none = false
is_some (some n) = true

unfoldable pub put_memory : Sb → Memory → Sb
unfolding put_index is_some
put_memory sb memory =
    let sb₀ = sb_char sb b'[' in
    let based : Sb = elim memory.base [
      | none ↦ sb₀
      | some base ↦ sb_str sb₀ (get_or reg64 base [])
    ] in
    let indexed = put_index based (is_some memory.base) memory in
    let inner =
      if memory.rip_relative
      then sb_disp (sb_str sb₀ (codes "rip")) memory.disp
      else if is_some memory.base
      then sb_disp indexed memory.disp
      else if is_some memory.index
      then sb_disp indexed memory.disp
      else sb_hex indexed (to_word64 memory.disp) in
    sb_char inner b']'

-- The text of the r/m operand, the register of ModRM.reg, and the cursor behind the operand.
pub record Operand : Type 0 where
  pub rm_text : List ℕ
  pub reg : ℕ
  pub cursor : Cursor

abbrev pub rm_size : ℕ
rm_size = 48

unfoldable pub decode_modrm : ℕ → Bool → Cursor → Operand
unfolding read_base read_disp put_memory
decode_modrm rex wide c =
    let (modrm, c₁) = read_u8 c in
    let mod_bits = modrm / 64 in
    let reg = modrm / 8 % 8 + rex_r rex * 8 in
    let rm = modrm % 8 in
    let (memory, c₂) = read_base mod_bits rm rex c₁ in
    let (memory', c₃) = read_disp mod_bits memory c₂ in
    if mod_bits == 3
    then record {
      rm_text = (sb_str (sb_init rm_size) (regname (rm + rex_b rex * 8) wide)).text;
      reg = reg;
      cursor = c₁;
    }
    else record { rm_text = (put_memory (sb_init rm_size) memory').text; reg = reg; cursor = c₃ }

-- The target of a relative branch, as an offset of the code.
unfoldable pub branch_to : ℕ → ℤ → ℤ
branch_to next_offset rel = pos next_offset +ℤ rel

unfoldable pub is_outside : ℕ → ℤ → Bool
is_outside code_len (pos target) = not (leb target code_len)
is_outside code_len (negsuc _) = true

unfoldable pub branch_is_outside : ℕ → ℕ → ℤ → Bool
unfolding branch_to is_outside
branch_is_outside code_len next_offset rel = is_outside code_len (branch_to next_offset rel)

unfoldable pub branch_target : Sb → ℕ → ℕ → ℤ → Sb
unfolding branch_is_outside
branch_target sb code_len next_offset rel =
    if branch_is_outside code_len next_offset rel
    then sb_str (sb_disp (sb_str sb (codes ".")) rel) (codes " ; outside")
    else sb_hex sb (to_word64 (branch_to next_offset rel))
