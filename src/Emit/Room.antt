-- ===== src/Emit/Room.antt =====
-- The buffer of src/c/za.c takes what is emitted while it has room.
use isiki.Prelude.{
  ℕ, ◌+◌, ◌≤◌, ◌≡◌, refl, sym, ap, ◌∙◌, false, List, [], ◌∷◌, ◌++◌, arith, leb, ltb, if_rule,
  length, length-append,
}
use mathlib.Core.List.{append_assoc, append-nil}
use isiki.Emit.{
  Jit, jit_code_size, max_imm_sites, jit_emit8, jit_emit, za_record_imm_site, jit_imm_field,
}

pub jit_emit-code :
    (bytes : List ℕ) (j : Jit)
    → length j.code + length bytes ≤ jit_code_size
    → jit_emit bytes j ≡ record j { code = j.code ++ bytes }
unfolding jit_emit
jit_emit-code [] j h = ap (λ (t : List ℕ). record j { code = t }) (sym (append-nil j.code))
jit_emit-code (b ∷ bytes) j h =
    let j' : Jit = record j { code = j.code ++ b ∷ [] } in
    ap (λ (t : Jit). jit_emit bytes t) (one b j (omega arith))
    ∙ jit_emit-code bytes j' (omega (arith, length-append {0} j.code (b ∷ [])))
    ∙ ap (λ (t : List ℕ). record j { code = t }) (append_assoc j.code (b ∷ []) bytes)
  where
    full : (n : ℕ) → n + 1 ≤ jit_code_size → leb jit_code_size n ≡ false
    full n h = ground arith

    one :
        (b : ℕ) (j : Jit)
        → length j.code + 1 ≤ jit_code_size
        → jit_emit8 b j ≡ record j { code = j.code ++ b ∷ [] }
    one b j h = rw (full (length j.code) h) refl

pub code-jit_emit :
    (bytes : List ℕ) (j : Jit)
    → length j.code + length bytes ≤ jit_code_size
    → (jit_emit bytes j).code ≡ j.code ++ bytes
code-jit_emit bytes j h = ap (λ (t : Jit). t.code) (jit_emit-code bytes j h)

pub code-za_record_imm_site :
    (off width : ℕ) (j : Jit) → (za_record_imm_site off width j).code ≡ j.code
unfolding za_record_imm_site
code-za_record_imm_site off width j =
    if_rule (λ (t : Jit). t.code ≡ j.code) (ltb (length j.imm_sites) max_imm_sites) _ _ refl refl

pub code-jit_imm_field :
    (opcode : List ℕ) (width : ℕ) (j : Jit)
    → length j.code + length opcode ≤ jit_code_size
    → (jit_imm_field opcode width j).code ≡ j.code ++ opcode
unfolding jit_imm_field
code-jit_imm_field opcode width j h =
    code-za_record_imm_site (length (jit_emit opcode j).code) width (jit_emit opcode j)
    ∙ code-jit_emit opcode j h

-- One run behind what another step has put there.
pub code-after :
    (before first second : List ℕ) (j : Jit)
    → j.code ≡ before ++ first
    → length before + (length first + length second) ≤ jit_code_size
    → (jit_emit second j).code ≡ before ++ (first ++ second)
code-after before first second j e h =
    code-jit_emit second j
      (omega (arith, ap (λ (t : List ℕ). length t) e, length-append {0} before first))
    ∙ ap (λ (t : List ℕ). t ++ second) e
    ∙ append_assoc before first second
