-- ===== src/P9/Fields.antt =====
-- What a server reads from the bodies of the messages that src/c/p9.c builds.
use isiki.Prelude.{
  ℕ, zero, suc, ◌+◌, ◌*◌, ◌/◌, ◌%◌, ◌^◌, ◌<◌, ◌≡◌, refl, ap, ◌∙◌, List, [], ◌∷◌, ◌++◌, arith,
  length, take, drop, All, take-append, drop-append,
}
use mathlib.Core.Path.{ap₂}
use isiki.P9.{
  Text, header_size, put_u8, put_u16, put_u32, put_u64, put_u64_loop, put_string, put_strings,
  get_u16, get_u32, write_header, message, build_twalk, build_twrite,
}
use isiki.P9.Bytes.{get_u16-put_u16, get_u32-put_u32, put_u64-little_endian, little_endian}

-- A name on the wire: a 16-bit length, then the bytes.
abbrev pub take_names : ℕ → List ℕ → List Text
take_names zero bytes = []
take_names (suc n) (a ∷ b ∷ rest) = take (a + 256 * b) rest ∷ take_names n (drop (a + 256 * b) rest)
take_names (suc n) (a ∷ []) = []
take_names (suc n) [] = []

abbrev pub IsName : Text → Type 0
IsName s = length s < 2 ^ 16

take_names-put_strings :
    (names : List Text) → All IsName names → take_names (length names) (put_strings names) ≡ names
unfolding put_strings put_string put_u16
take_names-put_strings [] h = refl
take_names-put_strings (s ∷ names) h =
    ap
      (λ (n : ℕ).
        take n (s ++ put_strings names)
        ∷ take_names (length names) (drop n (s ++ put_strings names)))
      (low_high (length s) h.0)
    ∙ ap₂ (λ (t : Text) (r : List ℕ). t ∷ take_names (length names) r)
        (take-append s (put_strings names)) (drop-append s (put_strings names))
    ∙ ap (λ (r : List Text). s ∷ r) (take_names-put_strings names h.1)
  where
    low_high :
        (n : ℕ)
        → n < 2 ^ 16
        → n % 2 ^ 32 % 2 ^ 16 % 2 ^ 8 + 256 * (n % 2 ^ 32 % 2 ^ 16 / 2 ^ 8 % 2 ^ 8) ≡ n
    low_high n p = omega arith

-- A Twalk of fewer than 2^16 names, each of fewer than 2^16 bytes, carries the two fids modulo 2^32,
-- the number of the names, and the names.
pub build_twalk_fields :
    (tag fid newfid : ℕ) (wnames : List Text)
    → length wnames < 2 ^ 16
    → All IsName wnames
    → (get_u32 (build_twalk tag fid newfid wnames) 7 ≡ fid % 2 ^ 32)
      × (get_u32 (build_twalk tag fid newfid wnames) 11 ≡ newfid % 2 ^ 32)
      × (get_u16 (build_twalk tag fid newfid wnames) 15 ≡ length wnames)
      × (take_names (length wnames) (drop 17 (build_twalk tag fid newfid wnames)) ≡ wnames)
unfolding build_twalk message write_header put_u8 put_u16 put_u32
build_twalk_fields tag fid newfid wnames p h =
    let body : List ℕ =
      put_u32 fid ++ (put_u32 newfid ++ (put_u16 (length wnames) ++ put_strings wnames)) in
    let header : List ℕ = write_header ((header_size + length body) % 2 ^ 32) 110 tag in
    (
      get_u32-put_u32 header (put_u32 newfid ++ (put_u16 (length wnames) ++ put_strings wnames)) 7
          fid refl,
      get_u32-put_u32 (header ++ put_u32 fid) (put_u16 (length wnames) ++ put_strings wnames) 11
          newfid refl,
      get_u16-put_u16 (header ++ (put_u32 fid ++ put_u32 newfid)) (put_strings wnames) 15
            (length wnames) refl
          ∙ omega arith,
      take_names-put_strings wnames h,
    )

-- A Twrite of fewer than 2^32 bytes carries the fid modulo 2^32, the offset modulo 2^64, the number
-- of the bytes, and the bytes.
pub build_twrite_fields :
    (tag fid offset : ℕ) (bytes : List ℕ)
    → length bytes < 2 ^ 32
    → (get_u32 (build_twrite tag fid offset bytes) 7 ≡ fid % 2 ^ 32)
      × (little_endian (take 8 (drop 11 (build_twrite tag fid offset bytes))) ≡ offset % 2 ^ 64)
      × (get_u32 (build_twrite tag fid offset bytes) 19 ≡ length bytes)
      × (drop 23 (build_twrite tag fid offset bytes) ≡ bytes)
unfolding build_twrite message write_header put_u8 put_u16 put_u32 put_u64 put_u64_loop
build_twrite_fields tag fid offset bytes p =
    let body : List ℕ = put_u32 fid ++ (put_u64 offset ++ (put_u32 (length bytes) ++ bytes)) in
    let header : List ℕ = write_header ((header_size + length body) % 2 ^ 32) 118 tag in
    (
      get_u32-put_u32 header (put_u64 offset ++ (put_u32 (length bytes) ++ bytes)) 7 fid refl,
      put_u64-little_endian offset,
      get_u32-put_u32 (header ++ (put_u32 fid ++ put_u64 offset)) bytes 19 (length bytes) refl
          ∙ omega arith,
      refl,
    )
