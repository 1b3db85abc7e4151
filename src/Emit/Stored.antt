-- ===== src/Emit/Stored.antt =====
-- Stores of src/c/za.c to bytes of the buffer that are in it.
use isiki.Prelude.{
  ℕ, ◌+◌, ◌/◌, ◌%◌, ◌^◌, ◌≤◌, ◌<◌, ◌≡◌, refl, ap, ◌∙◌, false, List, [], ◌∷◌, arith, leb, if_rule,
  length, length-set, set,
}
use isiki.Emit.{jit_code_size, Jit, store, store32, fill_frames}

pub store_lem :
    (i b : ℕ) (j : Jit) → i < jit_code_size → store i b j ≡ record j { code = set j.code i b }
unfolding store
store_lem i b j h = rw (inside i h) refl
  where
    inside : (a : ℕ) → a < jit_code_size → leb jit_code_size a ≡ false
    inside a k = ground arith

abbrev pub set32 : List ℕ → ℕ → ℕ → List ℕ
set32 code i v =
    set
      (set (set (set code i (v % 2 ^ 8)) (i + 1) (v / 2 ^ 8 % 2 ^ 8)) (i + 2) (v / 2 ^ 16 % 2 ^ 8))
      (i + 3) (v / 2 ^ 24 % 2 ^ 8)

pub store32_lem :
    (i v : ℕ) (j : Jit)
    → i + 4 ≤ jit_code_size
    → store32 i v j ≡ record j { code = set32 j.code i v }
unfolding store32
store32_lem i v j h =
    let v₀ : ℕ = v % 2 ^ 8 in
    let v₁ : ℕ = v / 2 ^ 8 % 2 ^ 8 in
    let v₂ : ℕ = v / 2 ^ 16 % 2 ^ 8 in
    let v₃ : ℕ = v / 2 ^ 24 % 2 ^ 8 in
    let c₀ : List ℕ = set j.code i v₀ in
    let c₁ : List ℕ = set c₀ (i + 1) v₁ in
    ap (λ (t : Jit). store (i + 3) v₃ (store (i + 2) v₂ (store (i + 1) v₁ t)))
      (store_lem i v₀ j (omega arith))
    ∙ ap (λ (t : Jit). store (i + 3) v₃ (store (i + 2) v₂ t))
        (store_lem (i + 1) v₁ (record j { code = c₀ }) (omega arith))
    ∙ ap (λ (t : Jit). store (i + 3) v₃ t)
        (store_lem (i + 2) v₂ (record j { code = c₁ }) (omega arith))
    ∙ store_lem (i + 3) v₃ (record j { code = set c₁ (i + 2) v₂ }) (omega arith)

length-store : (i b : ℕ) (j : Jit) → length (store i b j).code ≡ length j.code
unfolding store
length-store i b j =
    if_rule (λ (t : Jit). length t.code ≡ length j.code) (leb jit_code_size i) _ _ refl
      (length-set j.code i b)

pub length-store32 : (i v : ℕ) (j : Jit) → length (store32 i v j).code ≡ length j.code
unfolding store32
length-store32 i v j =
    let k : Jit = store i (v % 2 ^ 8) j in
    let l : Jit = store (i + 1) (v / 2 ^ 8 % 2 ^ 8) k in
    let m : Jit = store (i + 2) (v / 2 ^ 16 % 2 ^ 8) l in
    length-store (i + 3) (v / 2 ^ 24 % 2 ^ 8) m
    ∙ length-store (i + 2) (v / 2 ^ 16 % 2 ^ 8) l
    ∙ length-store (i + 1) (v / 2 ^ 8 % 2 ^ 8) k
    ∙ length-store i (v % 2 ^ 8) j

pub length-fill_frames :
    (total : ℕ) (offsets : List ℕ) (j : Jit)
    → length (fill_frames total offsets j).code ≡ length j.code
unfolding fill_frames
length-fill_frames total [] j = refl
length-fill_frames total (off ∷ offsets) j =
    length-fill_frames total offsets (store32 off total j) ∙ length-store32 off total j
