-- ===== src/Emit/Grows.antt =====
-- What a step of the code generator in src/c/za.c keeps, and the steps that others are made of.
use isiki.Prelude.{
  ℕ, ◌+◌, ◌/◌, ◌%◌, ◌^◌, ◌≤◌, ◌<◌, ◌≡◌, refl, true, false, List, [], ◌∷◌, ◌++◌, arith, leb, ltb,
  leb→gt, ltb→lt, if_cases, length, length-append, length-set, set, All, All-append, All-map,
}
use isiki.Emit.{
  jit_code_size, max_imm_sites, max_relocs, max_trampoline_jmps, max_frame_patches, Jit, store,
  store32, jit_emit8, jit_emit, za_record_imm_site,
}
use isiki.Emit.Stored.{store_lem}

-- The code and each table are in their arrays, and no byte behind the code's array was set. Without an
-- overflow the noted sizes of the frame are in the code.
pub record IsBounded (j : Jit) : Type 0 where
  pub code : length j.code ≤ jit_code_size
  pub imm_sites : length j.imm_sites ≤ max_imm_sites
  pub relocs : length j.relocs ≤ max_relocs
  pub trampoline_jmps : length j.trampoline_jmps ≤ max_trampoline_jmps
  pub frame_patches : length j.frame_patches ≤ max_frame_patches
  pub frames : j.overflow ≡ false → All (λ f. f + 4 ≤ length j.code) j.frame_patches
  pub in_array : j.out_of_array ≡ false

-- A step keeps the bounds and an overflow, and takes no code away.
pub record Grows (j k : Jit) : Type 0 where
  pub bounded : IsBounded j → IsBounded k
  pub sticky : j.overflow ≡ true → k.overflow ≡ true
  pub longer : length j.code ≤ length k.code

pub Grows-refl : (j : Jit) → Grows j j
Grows-refl j = record { bounded = λ h. h; sticky = λ h. h; longer = omega arith }

pub Grows-trans : {j k l : Jit} → Grows j k → Grows k l → Grows j l
Grows-trans f g = record {
  bounded = λ h. g.bounded (f.bounded h);
  sticky = λ h. g.sticky (f.sticky h);
  longer = omega arith;
}

-- What is inside some code is inside longer code.
farther :
    (offsets : List ℕ) (m n : ℕ)
    → m ≤ n
    → All (λ f. f + 4 ≤ m) offsets
    → All (λ f. f + 4 ≤ n) offsets
farther offsets m n h = All-map (λ f. f + 4 ≤ m) (λ f. f + 4 ≤ n) (λ f k. omega arith) offsets

differ : true ≡ false → ⊥
differ e = cc

pub overflow-Grows : (j : Jit) → Grows j (record j { overflow = true })
overflow-Grows j = record {
  bounded = λ h. record {
    code = h.code;
    imm_sites = h.imm_sites;
    relocs = h.relocs;
    trampoline_jmps = h.trampoline_jmps;
    frame_patches = h.frame_patches;
    frames = λ e. absurd (differ e);
    in_array = h.in_array;
  };
  sticky = λ h. refl;
  longer = omega arith;
}

pub jit_emit8-Grows : (b : ℕ) (j : Jit) → Grows j (jit_emit8 b j)
unfolding jit_emit8
jit_emit8-Grows b j =
    if_cases (Grows j) (leb jit_code_size (length j.code)) _ _ (λ _. overflow-Grows j)
      (λ room.
        let more : length (j.code ++ b ∷ []) ≡ length j.code + 1 = length-append j.code (b ∷ []) in
        record {
          bounded = λ h. record {
            code = omega (arith, leb→gt jit_code_size (length j.code) room);
            imm_sites = h.imm_sites;
            relocs = h.relocs;
            trampoline_jmps = h.trampoline_jmps;
            frame_patches = h.frame_patches;
            frames = λ e.
                farther j.frame_patches (length j.code) (length (j.code ++ b ∷ [])) (omega arith)
                  (h.frames e);
            in_array = h.in_array;
          };
          sticky = λ h. h;
          longer = omega arith;
        })

pub jit_emit-Grows : (bytes : List ℕ) (j : Jit) → Grows j (jit_emit bytes j)
unfolding jit_emit
jit_emit-Grows [] j = Grows-refl j
jit_emit-Grows (b ∷ bytes) j =
    Grows-trans (jit_emit8-Grows b j) (jit_emit-Grows bytes (jit_emit8 b j))

pub za_record_imm_site-Grows : (off width : ℕ) (j : Jit) → Grows j (za_record_imm_site off width j)
unfolding za_record_imm_site
za_record_imm_site-Grows off width j =
    if_cases (Grows j) (ltb (length j.imm_sites) max_imm_sites) _ _
      (λ room. record {
        bounded = λ h. record {
          code = h.code;
          imm_sites = omega (
            arith,
            ltb→lt (length j.imm_sites) max_imm_sites room,
            length-append {0} j.imm_sites (record { off = off; width = width } ∷ []),
          );
          relocs = h.relocs;
          trampoline_jmps = h.trampoline_jmps;
          frame_patches = h.frame_patches;
          frames = h.frames;
          in_array = h.in_array;
        };
        sticky = λ h. h;
        longer = omega arith;
      })
      (λ _. record {
        bounded = λ h. record {
          code = h.code;
          imm_sites = h.imm_sites;
          relocs = h.relocs;
          trampoline_jmps = h.trampoline_jmps;
          frame_patches = h.frame_patches;
          frames = h.frames;
          in_array = h.in_array;
        };
        sticky = λ h. h;
        longer = omega arith;
      })

-- A change of the code that keeps its length.
pub same_length-Grows :
    (code : List ℕ) (j : Jit) → length code ≡ length j.code → Grows j (record j { code = code })
same_length-Grows code j e = record {
  bounded = λ h. record {
    code = omega (arith, h.code);
    imm_sites = h.imm_sites;
    relocs = h.relocs;
    trampoline_jmps = h.trampoline_jmps;
    frame_patches = h.frame_patches;
    frames = λ n. farther j.frame_patches (length j.code) (length code) (omega arith) (h.frames n);
    in_array = h.in_array;
  };
  sticky = λ h. h;
  longer = omega arith;
}

-- A new place in the table of references to the code itself, and in that of jumps to the trampoline.
pub reloc-Grows :
    (n : ℕ) (j : Jit)
    → length j.relocs < max_relocs
    → Grows j (record j { relocs = j.relocs ++ n ∷ [] })
reloc-Grows n j room = record {
  bounded = λ h. record {
    code = h.code;
    imm_sites = h.imm_sites;
    relocs = omega (arith, length-append {0} j.relocs (n ∷ []));
    trampoline_jmps = h.trampoline_jmps;
    frame_patches = h.frame_patches;
    frames = h.frames;
    in_array = h.in_array;
  };
  sticky = λ h. h;
  longer = omega arith;
}

pub trampoline-Grows :
    (n : ℕ) (j : Jit)
    → length j.trampoline_jmps < max_trampoline_jmps
    → Grows j (record j { trampoline_jmps = j.trampoline_jmps ++ n ∷ [] })
trampoline-Grows n j room = record {
  bounded = λ h. record {
    code = h.code;
    imm_sites = h.imm_sites;
    relocs = h.relocs;
    trampoline_jmps = omega (arith, length-append {0} j.trampoline_jmps (n ∷ []));
    frame_patches = h.frame_patches;
    frames = h.frames;
    in_array = h.in_array;
  };
  sticky = λ h. h;
  longer = omega arith;
}

pub hwm-Grows : (n : ℕ) (j : Jit) → Grows j (record j { frame_hwm = n })
hwm-Grows n j = record {
  bounded = λ h. record {
    code = h.code;
    imm_sites = h.imm_sites;
    relocs = h.relocs;
    trampoline_jmps = h.trampoline_jmps;
    frame_patches = h.frame_patches;
    frames = h.frames;
    in_array = h.in_array;
  };
  sticky = λ h. h;
  longer = omega arith;
}

-- A new place of a frame's size, which is in the code if there is no overflow.
pub frame-Grows :
    (n : ℕ) (j : Jit)
    → length j.frame_patches < max_frame_patches
    → (j.overflow ≡ false → n + 4 ≤ length j.code)
    → Grows j (record j { frame_patches = j.frame_patches ++ n ∷ [] })
frame-Grows n j room inside = record {
  bounded = λ h. record {
    code = h.code;
    imm_sites = h.imm_sites;
    relocs = h.relocs;
    trampoline_jmps = h.trampoline_jmps;
    frame_patches = omega (arith, length-append {0} j.frame_patches (n ∷ []));
    frames = λ e.
        All-append (λ f. f + 4 ≤ length j.code) j.frame_patches (n ∷ []) (h.frames e)
          (inside e, tt);
    in_array = h.in_array;
  };
  sticky = λ h. h;
  longer = omega arith;
}

pub frame_overflow-Grows : (n : ℕ) (j : Jit) → Grows j (record j { frame_patch_overflow = n })
frame_overflow-Grows n j = record {
  bounded = λ h. record {
    code = h.code;
    imm_sites = h.imm_sites;
    relocs = h.relocs;
    trampoline_jmps = h.trampoline_jmps;
    frame_patches = h.frame_patches;
    frames = h.frames;
    in_array = h.in_array;
  };
  sticky = λ h. h;
  longer = omega arith;
}

pub store-Grows : (i b : ℕ) (j : Jit) → i < jit_code_size → Grows j (store i b j)
store-Grows i b j h =
    rw (store_lem i b j h) (same_length-Grows (set j.code i b) j (length-set j.code i b))

pub store32-Grows : (i v : ℕ) (j : Jit) → i + 4 ≤ jit_code_size → Grows j (store32 i v j)
unfolding store32
store32-Grows i v j h =
    let k : Jit = store i (v % 2 ^ 8) j in
    let l : Jit = store (i + 1) (v / 2 ^ 8 % 2 ^ 8) k in
    let m : Jit = store (i + 2) (v / 2 ^ 16 % 2 ^ 8) l in
    Grows-trans (store-Grows i (v % 2 ^ 8) j (omega arith)) (
      Grows-trans (store-Grows (i + 1) (v / 2 ^ 8 % 2 ^ 8) k (omega arith)) (
        Grows-trans (store-Grows (i + 2) (v / 2 ^ 16 % 2 ^ 8) l (omega arith))
          (store-Grows (i + 3) (v / 2 ^ 24 % 2 ^ 8) m (omega arith))))
