-- ===== src/Emit.antt =====
-- src/c/za.c: the buffer of machine code, the encoders jit_*, placeholders and their patches.
pub mod Room
pub mod Stored
pub mod Shows
pub mod RegReg
pub mod Unknown
pub mod Immediate
pub mod Jump
pub mod Name
pub mod Grows
pub mod Frames
pub mod Invariant
mod Runs
use isiki.Prelude.{
  ℕ, zero, suc, ◌+◌, ◌-◌, ◌*◌, ◌/◌, ◌%◌, ◌^◌, Bool, true, false, not, ◌&&◌, ◌||◌, List, [], ◌∷◌,
  ◌++◌, leb, ltb, ◌==◌, if◌then◌else◌, length, set,
}
use isiki.Prelude.Int.{ℤ, pos, negsuc, sub_ℕ}

abbrev pub jit_code_size : ℕ
jit_code_size = 524288

abbrev pub max_imm_sites : ℕ
max_imm_sites = 4096

abbrev pub max_relocs : ℕ
max_relocs = 128

abbrev pub max_trampoline_jmps : ℕ
max_trampoline_jmps = 128

-- ZA_MAX_FRAME_PATCHES
abbrev pub max_frame_patches : ℕ
max_frame_patches = 2 * max_trampoline_jmps + 4

-- ZA_FRAME_TOTAL, the sum of the areas of a frame.
abbrev pub za_frame_total : ℕ
za_frame_total = 7480

-- An immediate's field: where it starts, and its width.
pub record ImmSite : Type 0 where
  pub off : ℕ
  pub width : ℕ

-- The static variables of src/c/za.c. `code` is g_jit_code up to g_jit_used; the lists grow at the end
-- and their lengths are the counts. `out_of_array` is no variable of the source: it says that a store to
-- g_jit_code was at an index of JIT_CODE_SIZE or more.
pub record Jit : Type 0 where
  pub code : List ℕ
  pub overflow : Bool
  pub imm_sites : List ImmSite
  pub imm_site_overflow : ℕ
  pub relocs : List ℕ
  pub trampoline_jmps : List ℕ
  pub frame_hwm : ℕ
  pub frame_patches : List ℕ
  pub frame_patch_overflow : ℕ
  pub out_of_array : Bool

unfoldable pub jit_emit8 : ℕ → Jit → Jit
jit_emit8 b j =
    if leb jit_code_size (length j.code)
    then record j { overflow = true }
    else record j { code = j.code ++ b ∷ [] }

-- A run of calls of jit_emit8.
unfoldable pub jit_emit : List ℕ → Jit → Jit
unfolding jit_emit8
jit_emit [] j = j
jit_emit (b ∷ bytes) j = jit_emit bytes (jit_emit8 b j)

abbrev pub bytes32 : ℕ → List ℕ
bytes32 v = v % 2 ^ 8 ∷ v / 2 ^ 8 % 2 ^ 8 ∷ v / 2 ^ 16 % 2 ^ 8 ∷ v / 2 ^ 24 % 2 ^ 8 ∷ []

unfoldable pub jit_emit32 : ℕ → Jit → Jit
unfolding jit_emit
jit_emit32 v j = jit_emit (bytes32 v) j

unfoldable pub jit_emit64 : ℕ → Jit → Jit
unfolding jit_emit32
jit_emit64 v j = jit_emit32 (v / 2 ^ 32) (jit_emit32 (v % 2 ^ 32) j)

unfoldable pub za_record_imm_site : ℕ → ℕ → Jit → Jit
za_record_imm_site field_off width j =
    if ltb (length j.imm_sites) max_imm_sites
    then record j { imm_sites = j.imm_sites ++ record { off = field_off; width = width } ∷ [] }
    else record j { imm_site_overflow = (j.imm_site_overflow + 1) % 2 ^ 64 }

-- The third bit of a register's number, which goes to a REX prefix.
abbrev pub high_bit : ℕ → ℕ
high_bit reg = reg / 8 % 2

-- The opcode of a mov of an immediate, behind its prefixes, with the place of the field noted.
unfoldable pub jit_imm_field : List ℕ → ℕ → Jit → Jit
jit_imm_field opcode width j =
    let j' = jit_emit opcode j in za_record_imm_site (length j'.code) width j'

unfoldable pub jit_movabs_reg_full : ℕ → ℕ → Jit → Jit
jit_movabs_reg_full reg imm j =
    jit_emit64 imm (jit_imm_field ((0x48 + high_bit reg) ∷ (0xB8 + reg % 8) ∷ []) 8 j)

-- Without ISIKIOS_PINNED_NIL. The first byte of a high register's opcode is REX.B.
unfoldable pub jit_load_imm_reg : ℕ → ℕ → Jit → Jit
jit_load_imm_reg reg imm j =
    if leb imm 0xFFFFFFFF
    then jit_emit32 imm (
        jit_imm_field (if leb 8 reg then 0x41 ∷ (0xB8 + reg % 8) ∷ [] else (0xB8 + reg % 8) ∷ []) 4
          j)
    else jit_movabs_reg_full reg imm j

unfoldable pub jit_emit_reg_reg_op : ℕ → ℕ → ℕ → Jit → Jit
unfolding jit_emit
jit_emit_reg_reg_op opcode dst src j =
    jit_emit
      ((0x48 + high_bit src * 4 + high_bit dst) ∷ opcode ∷ (0xC0 + src % 8 * 8 + dst % 8) ∷ []) j

-- The instructions that are encoded so, with their opcodes: jit_mov_reg_reg and the six others.
pub data RegOp : Type 0 where
  mov_op or_op add_op sub_op cmp_op test_op xor_op : RegOp

unfoldable pub opcode_of : RegOp → ℕ
opcode_of mov_op = 0x89
opcode_of or_op = 0x09
opcode_of add_op = 0x01
opcode_of sub_op = 0x29
opcode_of cmp_op = 0x39
opcode_of test_op = 0x85
opcode_of xor_op = 0x31

unfoldable pub jit_reg_reg : RegOp → ℕ → ℕ → Jit → Jit
unfolding jit_emit_reg_reg_op opcode_of
jit_reg_reg op dst src j = jit_emit_reg_reg_op (opcode_of op) dst src j

unfoldable pub jit_emit_shift_imm8 : ℕ → ℕ → ℕ → Jit → Jit
unfolding jit_emit
jit_emit_shift_imm8 digit reg imm8 j =
    jit_emit ((0x48 + high_bit reg) ∷ 0xC1 ∷ (0xC0 + digit * 8 + reg % 8) ∷ imm8 ∷ []) j

unfoldable pub jit_emit_f7_unary : ℕ → ℕ → Jit → Jit
unfolding jit_emit
jit_emit_f7_unary digit reg j =
    jit_emit ((0x48 + high_bit reg) ∷ 0xF7 ∷ (0xC0 + digit * 8 + reg % 8) ∷ []) j

unfoldable pub jit_cmove_reg_reg : ℕ → ℕ → Jit → Jit
unfolding jit_emit
jit_cmove_reg_reg dst src j =
    jit_emit
      ((0x48 + high_bit dst * 4 + high_bit src) ∷ 0x0F ∷ 0x44 ∷ (0xC0 + dst % 8 * 8 + src % 8) ∷ [])
      j

-- `jit_code_addr` is the address of g_jit_code.
unfoldable pub jit_movabs_self_ref : ℕ → ℕ → ℕ → Jit → Jit
jit_movabs_self_ref jit_code_addr reg target_off j =
    let noted =
      if ltb (length j.relocs) max_relocs
      then record j { relocs = j.relocs ++ (length j.code + 2) ∷ [] }
      else record j { overflow = true } in
    jit_movabs_reg_full reg ((jit_code_addr + target_off) % 2 ^ 64) noted

-- and, with digit 4, and cmp, with digit 7.
unfoldable pub jit_group1_imm8 : ℕ → ℕ → ℕ → Jit → Jit
unfolding jit_emit
jit_group1_imm8 digit reg imm8 j =
    jit_emit ((0x48 + high_bit reg) ∷ 0x83 ∷ (0xC0 + digit * 8 + reg % 8) ∷ imm8 ∷ []) j

unfoldable pub jit_jmp_reg : ℕ → Jit → Jit
unfolding jit_emit
jit_jmp_reg reg j =
    let j' = if high_bit reg == 1 then jit_emit (0x41 ∷ []) j else j in
    jit_emit (0xFF ∷ (0xE0 + reg % 8) ∷ []) j'

abbrev pub word32 : ℤ → ℕ
word32 (pos n) = n % 2 ^ 32
word32 (negsuc n) = (2 ^ 32 - 1 - n % 2 ^ 32) % 2 ^ 32

-- The highest byte of the frame that is touched.
unfoldable pub raise_hwm : ℤ → Jit → Jit
raise_hwm (pos n) j = if ltb j.frame_hwm (n + 8) then record j { frame_hwm = n + 8 } else j
raise_hwm (negsuc n) j = j

unfoldable pub jit_emit_rsp_disp32 : ℕ → ℕ → ℤ → Jit → Jit
jit_emit_rsp_disp32 opcode reg disp32 j =
    let j' =
      jit_emit ((0x48 + high_bit reg * 4) ∷ opcode ∷ (0x80 + reg % 8 * 8 + 0x04) ∷ 0x24 ∷ []) j in
    jit_emit32 (word32 disp32) (raise_hwm disp32 j')

-- jit_mov_reg_from_mem_disp8 with 0x8B, and jit_mov_mem_disp8_from_reg with 0x89.
unfoldable pub jit_mov_mem_disp8 : ℕ → ℕ → ℕ → ℕ → Jit → Jit
unfolding jit_emit
jit_mov_mem_disp8 opcode reg base disp8 j =
    jit_emit
      ((0x48 + high_bit reg * 4 + high_bit base)
        ∷ opcode
        ∷ (0x40 + reg % 8 * 8 + base % 8)
        ∷ disp8
        ∷ [])
      j

-- A jump with no target yet, and the place of its displacement: E9 for jmp, 0F and cc for a jcc.
unfoldable pub jit_emit_rel32_placeholder : List ℕ → Jit → Jit × ℕ
jit_emit_rel32_placeholder opcode j =
    let j' = jit_emit opcode j in (jit_emit32 0 j', length j'.code)

unfoldable pub jit_emit_jne_rel8_placeholder : Jit → Jit × ℕ
jit_emit_jne_rel8_placeholder j =
    let j' = jit_emit (0x75 ∷ []) j in (jit_emit (0 ∷ []) j', length j'.code)

abbrev fits8 : ℤ → Bool
fits8 (pos n) = leb n 127
fits8 (negsuc n) = leb (n + 1) 128

abbrev byte_of : ℤ → ℕ
byte_of (pos n) = n % 2 ^ 8
byte_of (negsuc n) = 2 ^ 8 - 1 - n % 2 ^ 8

-- The byte g_jit_code[i] is set. A byte behind g_jit_used is no part of the code, and is emitted later.
unfoldable pub store : ℕ → ℕ → Jit → Jit
store i b j =
    if leb jit_code_size i
    then record j { out_of_array = true }
    else record j { code = set j.code i b }

unfoldable pub jit_patch_rel8 : ℕ → Jit → Jit
jit_patch_rel8 patch_offset j =
    let rel = sub_ℕ (length j.code) (patch_offset + 1) in
    if j.overflow || ltb jit_code_size (patch_offset + 1)
    then j
    else if fits8 rel
    then store patch_offset (byte_of rel) j
    else record j { overflow = true }

-- The four bytes of a field, the lowest first.
unfoldable pub store32 : ℕ → ℕ → Jit → Jit
store32 i v j =
    store (i + 3) (v / 2 ^ 24 % 2 ^ 8) (
      store (i + 2) (v / 2 ^ 16 % 2 ^ 8)
        (store (i + 1) (v / 2 ^ 8 % 2 ^ 8) (store i (v % 2 ^ 8) j)))

unfoldable pub jit_patch_rel32_target : ℕ → ℕ → Jit → Jit
jit_patch_rel32_target patch_offset target_offset j =
    if j.overflow || ltb jit_code_size (patch_offset + 4)
    then j
    else store32 patch_offset (word32 (sub_ℕ target_offset (patch_offset + 4))) j

unfoldable pub jit_patch_rel32 : ℕ → Jit → Jit
jit_patch_rel32 patch_offset j = jit_patch_rel32_target patch_offset (length j.code) j

unfoldable pub jit_emit_jmp_to : ℕ → Jit → Jit
jit_emit_jmp_to target_offset j =
    let (j', patch) = jit_emit_rel32_placeholder (0xE9 ∷ []) j in
    jit_patch_rel32_target patch target_offset j'

unfoldable pub jit_emit_jmp_to_trampoline : ℕ → Jit → Jit
jit_emit_jmp_to_trampoline target_offset j =
    let (j₁, patch) = jit_emit_rel32_placeholder (0xE9 ∷ []) j in
    let j₂ = jit_patch_rel32_target patch target_offset j₁ in
    if ltb (length j₂.trampoline_jmps) max_trampoline_jmps
    then record j₂ { trampoline_jmps = j₂.trampoline_jmps ++ patch ∷ [] }
    else record j₂ { overflow = true }

-- The name of a symbol as a text in the code, behind a jmp over it; the place of the text.
unfoldable pub za_emit_symbol_name : List ℕ → Jit → Jit × ℕ
za_emit_symbol_name name j =
    let (j₁, jmp_patch) = jit_emit_rel32_placeholder (0xE9 ∷ []) j in
    (jit_patch_rel32 jmp_patch (jit_emit (0 ∷ []) (jit_emit name j₁)), length j₁.code)

-- sub rsp with 0xEC, and add rsp with 0xC4.
unfoldable pub jit_rsp_imm32 : ℕ → ℕ → Jit → Jit
jit_rsp_imm32 modrm imm32 j = jit_emit32 imm32 (jit_emit (0x48 ∷ 0x81 ∷ modrm ∷ []) j)

-- The largest frame for now, and the place of its size noted.
unfoldable pub za_emit_frame_imm32 : ℕ → Jit → Jit
za_emit_frame_imm32 modrm j =
    let field = length j.code + 3 in
    let j' = jit_rsp_imm32 modrm za_frame_total j in
    if ltb (length j'.frame_patches) max_frame_patches
    then record j' { frame_patches = j'.frame_patches ++ field ∷ [] }
    else record j' { frame_patch_overflow = (j'.frame_patch_overflow + 1) % 2 ^ 32 }

-- The size of a frame with this highest byte, up to a multiple of 16 and with the 0x28 on top.
abbrev pub frame_size : ℕ → ℕ
frame_size frame_hwm = (0x28 + (frame_hwm + 15) % 2 ^ 32 / 16 * 16) % 2 ^ 32

unfoldable pub fill_frames : ℕ → List ℕ → Jit → Jit
fill_frames frame_total [] j = j
fill_frames frame_total (off ∷ offsets) j =
    fill_frames frame_total offsets (store32 off frame_total j)

-- The size of the frame is known, and goes to the places that are noted.
unfoldable pub za_fill_frames : Jit → Jit
za_fill_frames j =
    let frame_total = frame_size j.frame_hwm in
    if ltb 0 j.frame_patch_overflow || ltb za_frame_total frame_total
    then record j { overflow = true }
    else fill_frames frame_total j.frame_patches j
