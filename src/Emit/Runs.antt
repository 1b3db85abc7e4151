-- ===== src/Emit/Runs.antt =====
-- Runs of src/c/za.c's encoders, read back by src/c/disasm.c.
use isiki.Prelude.{ℕ, ◌≡◌, refl, true, false, none, List, [], ◌∷◌, ◌++◌, arith, codes}
use isiki.Disasm.Text.{regname}
use isiki.Disasm.Item.{embedded_string_len}
use isiki.Emit.{
  Jit, add_op, jit_reg_reg, jit_load_imm_reg, jit_emit_shift_imm8, jit_cmove_reg_reg,
  jit_emit_jmp_to, jit_patch_rel32_target, jit_emit_rel32_placeholder, jit_emit32,
  za_emit_symbol_name, store, store32, za_emit_frame_imm32,
}
use isiki.Emit.Shows.{Shows}
use isiki.Emit.RegReg.{name_of, jit_reg_reg-Shows}
use isiki.Emit.Unknown.{IsUnknown, encodings-IsUnknown}
use isiki.Emit.Immediate.{ShowsImmediate, load_length, mov_name, is_wide, jit_load_imm_reg-Shows}
use isiki.Emit.Jump.{ShowsJmp, jit_emit_jmp_to-Shows}
use isiki.Emit.Grows.{Grows}
use isiki.Emit.Name.{ShowsText, za_emit_symbol_name-Shows}

abbrev push_only : Jit
push_only = record {
  code = 0x53 ∷ [];
  overflow = false;
  imm_sites = [];
  imm_site_overflow = 0;
  relocs = [];
  trampoline_jmps = [];
  frame_hwm = 0;
  frame_patches = [];
  frame_patch_overflow = 0;
  out_of_array = false;
}

abbrev tail_code : List ℕ
tail_code = 0x5B ∷ 0xC3 ∷ []

added : (jit_reg_reg add_op 0 13 push_only).code ≡ 0x53 ∷ 0x4C ∷ 0x01 ∷ 0xE8 ∷ []
unfolding jit_reg_reg
added = refl

jit_reg_reg-Shows_example :
    Shows 4096
      ((jit_reg_reg add_op 0 13 push_only).code ++ tail_code)
      1
      3
      (name_of add_op)
      ((regname 0 true ++ codes ", ") ++ regname 13 true)
      none
unfolding embedded_string_len
jit_reg_reg-Shows_example =
    jit_reg_reg-Shows add_op 4096 0 13 push_only tail_code (omega arith) (omega arith) (omega arith)
      refl

jit_load_imm_reg-Shows_example :
    ShowsImmediate 4096
      ((jit_load_imm_reg 11 0x123456789A push_only).code ++ tail_code)
      1
      (load_length 11 0x123456789A)
      (mov_name (is_wide 0x123456789A))
      11
      (is_wide 0x123456789A)
      0x123456789A
unfolding embedded_string_len
jit_load_imm_reg-Shows_example =
    jit_load_imm_reg-Shows 4096 11 0x123456789A push_only tail_code (omega arith) (omega arith)
      (omega arith) refl

encodings-IsUnknown_example :
    IsUnknown 4096 ((jit_emit_shift_imm8 5 0 3 push_only).code ++ tail_code) 1
    × IsUnknown 4096 ((jit_cmove_reg_reg 0 2 push_only).code ++ tail_code) 1
unfolding embedded_string_len
encodings-IsUnknown_example =
    encodings-IsUnknown 4096 5 0 3 0 2 push_only tail_code (omega arith) refl refl

jit_emit_jmp_to-Shows_example : ShowsJmp 4096 ((jit_emit_jmp_to 7 push_only).code ++ tail_code) 1 7
unfolding embedded_string_len jit_emit_jmp_to jit_patch_rel32_target jit_emit_rel32_placeholder
    jit_emit32 store32 store
jit_emit_jmp_to-Shows_example =
    jit_emit_jmp_to-Shows 4096 7 push_only tail_code refl (omega arith) (omega arith) (omega arith)
      refl

za_emit_symbol_name-Shows_example :
    ((za_emit_symbol_name (codes "CAR") push_only).1 ≡ 6)
    × ShowsJmp 4096 ((za_emit_symbol_name (codes "CAR") push_only).0.code ++ tail_code) 1 10
    × ShowsText 4096
        ((za_emit_symbol_name (codes "CAR") push_only).0.code ++ tail_code)
        6
        (codes "CAR")
unfolding embedded_string_len
za_emit_symbol_name-Shows_example =
    za_emit_symbol_name-Shows 4096 (codes "CAR") push_only tail_code refl (omega arith)
      (omega arith) (omega arith) (omega arith) refl

abbrev with_frame : Jit
with_frame = jit_emit_jmp_to 7 (za_emit_frame_imm32 0xEC push_only)
