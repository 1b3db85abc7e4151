-- ===== src/Emit/Frames.antt =====
-- The places of a frame's size in src/c/za.c: they are in the code when they are filled.
use isiki.Prelude.{
  ℕ, ◌+◌, ◌≤◌, ◌≡◌, Bool, true, false, ◌||◌, List, [], ◌∷◌, arith, leb, ltb, ltb→lt, if_rule,
  if_cases, length, length-append, All, All-map,
}
use isiki.Emit.{
  jit_code_size, max_frame_patches, za_frame_total, bytes32, frame_size, Jit, jit_emit8, jit_emit,
  jit_emit32, store32, jit_rsp_imm32, za_emit_frame_imm32, fill_frames, za_fill_frames,
}
use isiki.Emit.Stored.{length-store32, length-fill_frames}
use isiki.Emit.Grows.{
  IsBounded, Grows, Grows-trans, overflow-Grows, jit_emit-Grows, frame-Grows, frame_overflow-Grows,
  store32-Grows,
}

no_overflow_before : {j k : Jit} → Grows j k → k.overflow ≡ false → j.overflow ≡ false
no_overflow_before {j} {k} g e = by_cases j.overflow k.overflow g.sticky e
  where
    by_cases : (a b : Bool) → (a ≡ true → b ≡ true) → b ≡ false → a ≡ false
    by_cases a b h e = ground arith

jit_emit8-whole :
    (b : ℕ) (j : Jit)
    → (jit_emit8 b j).overflow ≡ false
    → length (jit_emit8 b j).code ≡ length j.code + 1
unfolding jit_emit8
jit_emit8-whole b j =
    if_rule (λ (t : Jit). t.overflow ≡ false → length t.code ≡ length j.code + 1)
      (leb jit_code_size (length j.code)) _ _ (λ e. absurd (differ e))
      (λ e. length-append j.code (b ∷ []))
  where
    differ : true ≡ false → ⊥
    differ e = cc

-- Without an overflow all that was emitted is there.
jit_emit-whole :
    (bytes : List ℕ) (j : Jit)
    → (jit_emit bytes j).overflow ≡ false
    → length (jit_emit bytes j).code ≡ length j.code + length bytes
unfolding jit_emit
jit_emit-whole [] j e = omega arith
jit_emit-whole (b ∷ bytes) j e =
    let whole : length (jit_emit8 b j).code ≡ length j.code + 1 =
      jit_emit8-whole b j (no_overflow_before (jit_emit-Grows bytes (jit_emit8 b j)) e) in
    omega (arith, whole, jit_emit-whole bytes (jit_emit8 b j) e)

jit_rsp_imm32-Grows : (modrm imm : ℕ) (j : Jit) → Grows j (jit_rsp_imm32 modrm imm j)
unfolding jit_rsp_imm32 jit_emit32
jit_rsp_imm32-Grows modrm imm j =
    Grows-trans (jit_emit-Grows (0x48 ∷ 0x81 ∷ modrm ∷ []) j)
      (jit_emit-Grows (bytes32 imm) (jit_emit (0x48 ∷ 0x81 ∷ modrm ∷ []) j))

jit_rsp_imm32-whole :
    (modrm imm : ℕ) (j : Jit)
    → (jit_rsp_imm32 modrm imm j).overflow ≡ false
    → length j.code + 3 + 4 ≤ length (jit_rsp_imm32 modrm imm j).code
unfolding jit_rsp_imm32 jit_emit32
jit_rsp_imm32-whole modrm imm j e =
    let k : Jit = jit_emit (0x48 ∷ 0x81 ∷ modrm ∷ []) j in
    omega (
      arith,
      jit_emit-whole (0x48 ∷ 0x81 ∷ modrm ∷ []) j
          (no_overflow_before (jit_emit-Grows (bytes32 imm) k) e),
      jit_emit-whole (bytes32 imm) k e,
    )

pub frame_imm32-Grows : (modrm : ℕ) (j : Jit) → Grows j (za_emit_frame_imm32 modrm j)
unfolding za_emit_frame_imm32
frame_imm32-Grows modrm j =
    let k : Jit = jit_rsp_imm32 modrm za_frame_total j in
    Grows-trans (jit_rsp_imm32-Grows modrm za_frame_total j) (
      if_cases (Grows k) (ltb (length k.frame_patches) max_frame_patches) _ _
        (λ e.
          frame-Grows (length j.code + 3) k (ltb→lt (length k.frame_patches) max_frame_patches e)
            (jit_rsp_imm32-whole modrm za_frame_total j))
        (λ _. frame_overflow-Grows _ k))

filled-IsBounded :
    (total : ℕ) (offsets : List ℕ) (j : Jit)
    → All (λ f. f + 4 ≤ length j.code) offsets
    → IsBounded j
    → IsBounded (fill_frames total offsets j)
unfolding fill_frames
filled-IsBounded total [] j inside h = h
filled-IsBounded total (off ∷ offsets) j inside h =
    let k : Jit = store32 off total j in
    let same : length k.code ≡ length j.code = length-store32 off total j in
    filled-IsBounded total offsets k
      (All-map (λ f. f + 4 ≤ length j.code) (λ f. f + 4 ≤ length k.code)
        (λ f e. omega (arith, same)) offsets inside.1)
      ((store32-Grows off total j (omega (arith, inside.0, h.code))).bounded h)

-- The sizes are filled in as long as there is no overflow.
pub fill_frames-Grows : (j : Jit) → j.overflow ≡ false → Grows j (za_fill_frames j)
unfolding za_fill_frames
fill_frames-Grows j e =
    let total : ℕ = frame_size j.frame_hwm in
    if_rule (Grows j) (ltb 0 j.frame_patch_overflow || ltb za_frame_total total) _ _
      (overflow-Grows j)
      (record {
        bounded = λ h. filled-IsBounded total j.frame_patches j (h.frames e) h;
        sticky = λ o. absurd (differ j.overflow o e);
        longer = omega (arith, length-fill_frames total j.frame_patches j);
      })
  where
    differ : (a : Bool) → a ≡ true → a ≡ false → ⊥
    differ a o e = cc
