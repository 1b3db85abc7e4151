-- ===== src/Emit/Invariant.antt =====
-- The bounds of the buffer and of the tables of src/c/za.c, and the flag of their overflow.
use isiki.Prelude.{ℕ, ◌≡◌, false, List}
use isiki.Prelude.Int.{ℤ}
use isiki.Emit.{
  Jit, jit_emit, jit_emit32, jit_movabs_reg_full, jit_load_imm_reg, RegOp, jit_reg_reg,
  jit_emit_shift_imm8, jit_emit_f7_unary, jit_cmove_reg_reg, jit_movabs_self_ref, jit_group1_imm8,
  jit_jmp_reg, jit_emit_rsp_disp32, jit_mov_mem_disp8, jit_emit_rel32_placeholder,
  jit_emit_jne_rel8_placeholder, jit_patch_rel8, jit_patch_rel32_target, jit_emit_jmp_to,
  jit_emit_jmp_to_trampoline, za_emit_symbol_name, za_emit_frame_imm32, za_fill_frames,
}
use isiki.Emit.Grows.{Grows}

-- The calls of which the code generator is made.
pub data Step : Jit → Jit → Type 0 where
  emit : (bytes : List ℕ) (j : Jit) → Step j (jit_emit bytes j)
  emit32 : (v : ℕ) (j : Jit) → Step j (jit_emit32 v j)
  load_imm_reg : (reg imm : ℕ) (j : Jit) → Step j (jit_load_imm_reg reg imm j)
  movabs_reg_full : (reg imm : ℕ) (j : Jit) → Step j (jit_movabs_reg_full reg imm j)
  movabs_self_ref : (addr reg off : ℕ) (j : Jit) → Step j (jit_movabs_self_ref addr reg off j)
  reg_reg : (op : RegOp) (dst src : ℕ) (j : Jit) → Step j (jit_reg_reg op dst src j)
  shift_imm8 : (digit reg imm8 : ℕ) (j : Jit) → Step j (jit_emit_shift_imm8 digit reg imm8 j)
  f7_unary : (digit reg : ℕ) (j : Jit) → Step j (jit_emit_f7_unary digit reg j)
  cmove_reg_reg : (dst src : ℕ) (j : Jit) → Step j (jit_cmove_reg_reg dst src j)
  group1_imm8 : (digit reg imm8 : ℕ) (j : Jit) → Step j (jit_group1_imm8 digit reg imm8 j)
  jmp_reg : (reg : ℕ) (j : Jit) → Step j (jit_jmp_reg reg j)
  rsp_disp32 : (op reg : ℕ) (disp : ℤ) (j : Jit) → Step j (jit_emit_rsp_disp32 op reg disp j)
  mov_mem_disp8 : (op reg base disp : ℕ) (j : Jit) → Step j (jit_mov_mem_disp8 op reg base disp j)
  rel32_placeholder : (opcode : List ℕ) (j : Jit) → Step j (jit_emit_rel32_placeholder opcode j).0
  jne_rel8_placeholder : (j : Jit) → Step j (jit_emit_jne_rel8_placeholder j).0
  patch_rel8 : (n : ℕ) (j : Jit) → Step j (jit_patch_rel8 n j)
  patch_rel32_target : (n target : ℕ) (j : Jit) → Step j (jit_patch_rel32_target n target j)
  jmp_to : (target : ℕ) (j : Jit) → Step j (jit_emit_jmp_to target j)
  jmp_to_trampoline : (target : ℕ) (j : Jit) → Step j (jit_emit_jmp_to_trampoline target j)
  symbol_name : (name : List ℕ) (j : Jit) → Step j (za_emit_symbol_name name j).0
  frame_imm32 : (modrm : ℕ) (j : Jit) → Step j (za_emit_frame_imm32 modrm j)
  -- Without an overflow only: the source does not ask.
  fill_frames : (j : Jit) → j.overflow ≡ false → Step j (za_fill_frames j)

pub data Reach (j : Jit) : Jit → Type 0 where
  here : Reach j j
  next : {k l : Jit} → Reach j k → Step k l → Reach j l
