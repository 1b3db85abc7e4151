-- ===== src/Mount/Fat16/Name.antt =====
-- The names of the directory entries of src/c/mount.c: a stem of 8 bytes and an extension of 3, both with
-- spaces behind them.
use isiki.Prelude.{
  ℕ, zero, suc, ◌+◌, ◌-◌, ◌≤◌, ◌<◌, ◌≡◌, ◌⊎◌, inl, inr, refl, sym, ap, ◌∙◌, true, false, List, [],
  ◌∷◌, ◌++◌, arith, ltb, ◌==◌, if◌then◌else◌, length, length-append, length-replicate, get_or,
  get_or-append, take, take-append, drop, drop-append, replicate,
}
use mathlib.Core.Path.{ap₂}
use mathlib.Core.List.{append_assoc}
use isiki.Mount.Fat16.{trimmed, entry_name}

abbrev pub space : ℕ
space = 32

abbrev pub pad : ℕ → List ℕ → List ℕ
pad n xs = xs ++ replicate (n - length xs) space

-- The last byte is no space.
abbrev pub IsTrimmed : List ℕ → Type 0
IsTrimmed xs =
    (xs ≡ []) ⊎ ((init : List ℕ) × (c : ℕ) × (xs ≡ init ++ c ∷ []) × ((c == space) ≡ false))

get_or-replicate :
    (k j : ℕ) (tail : List ℕ) → j < k → get_or (replicate k space ++ tail) j 0 ≡ space
get_or-replicate zero j tail h = absurd (omega arith)
get_or-replicate (suc k) zero tail h = refl
get_or-replicate (suc k) (suc j) tail h = get_or-replicate k j tail (omega arith)

-- A byte behind two parts.
get_or-behind :
    (before xs ys : List ℕ) (i n : ℕ)
    → n ≡ length before + (length xs + i)
    → get_or (before ++ (xs ++ ys)) n 0 ≡ get_or ys i 0
get_or-behind before xs ys i n e =
    get_or-append before (xs ++ ys) (length xs + i) n 0 e
    ∙ get_or-append xs ys i (length xs + i) 0 refl

trimmed-last :
    (before tail : List ℕ) (m off : ℕ) (xs : List ℕ)
    → off ≡ length before
    → suc m ≡ length xs
    → IsTrimmed xs
    → trimmed (suc m) (before ++ (xs ++ tail)) off ≡ length xs
unfolding trimmed
trimmed-last before tail m off xs e f (inl g) = absurd (none_left (ap (λ (t : List ℕ). length t) g))
  where
    none_left : length xs ≡ 0 → ⊥
    none_left h = omega arith
trimmed-last before tail m off xs e f (inr (init, c, g, h)) = rw (at_last, h) f
  where
    size : length init ≡ m
    size = omega (arith, ap (λ (t : List ℕ). length t) g, length-append init (c ∷ []))

    at_last : get_or (before ++ (xs ++ tail)) (off + m) 0 ≡ c
    at_last =
        ap (λ (t : List ℕ). get_or (before ++ t) (off + m) 0)
          (ap (λ (t : List ℕ). t ++ tail) g ∙ append_assoc init (c ∷ []) tail)
        ∙ get_or-behind before init (c ∷ tail) 0 (off + m) (omega (arith, size))

-- The end of what is padded: `n` bytes are `xs` and `j` of `k` spaces.
trimmed-pad :
    (before tail xs : List ℕ) (off k j n : ℕ)
    → off ≡ length before
    → n ≡ length xs + j
    → j ≤ k
    → IsTrimmed xs
    → trimmed n (before ++ (xs ++ (replicate k space ++ tail))) off ≡ length xs
unfolding trimmed
trimmed-pad before tail xs off k j zero e f h t = omega arith
trimmed-pad before tail xs off k zero (suc m) e f h t =
    trimmed-last before (replicate k space ++ tail) m off xs e (omega arith) t
trimmed-pad before tail xs off k (suc j) (suc m) e f h t =
    rw at_space (trimmed-pad before tail xs off k j m e (omega arith) (omega arith) t)
  where
    at_space : get_or (before ++ (xs ++ (replicate k space ++ tail))) (off + m) 0 ≡ space
    at_space =
        get_or-behind before xs (replicate k space ++ tail) j (off + m) (omega arith)
        ∙ get_or-replicate k j tail (omega arith)

-- What is shown of a stem and an extension.
abbrev pub dotted : List ℕ → List ℕ
dotted [] = []
dotted (c ∷ cs) = 46 ∷ c ∷ cs

slice :
    (before xs ys : List ℕ) (off : ℕ)
    → off ≡ length before
    → take (length xs) (drop off (before ++ (xs ++ ys))) ≡ xs
slice before xs ys off e =
    ap (λ (n : ℕ). take (length xs) (drop n (before ++ (xs ++ ys)))) e
    ∙ ap (λ (t : List ℕ). take (length xs) t) (drop-append before (xs ++ ys))
    ∙ take-append xs ys

abbrev shown : List ℕ → ℕ → ℕ → ℕ → List ℕ
shown sector off name_end ext_end =
    take name_end (drop off sector)
    ++ (if ltb 0 ext_end then 46 ∷ take ext_end (drop (off + 8) sector) else [])

entry_name-shown :
    (sector : List ℕ) (off : ℕ)
    → entry_name sector off ≡ shown sector off (trimmed 8 sector off) (trimmed 3 sector (off + 8))
unfolding entry_name
entry_name-shown sector off = refl

pub length-pad : (n : ℕ) (xs : List ℕ) → length xs ≤ n → length (pad n xs) ≡ n
length-pad n xs h = omega (
  arith,
  length-append xs (replicate (n - length xs) space),
  length-replicate (n - length xs) space,
)

-- Padding and what is behind it, from the side of the text.
pad-append :
    (n : ℕ) (xs tail : List ℕ) → pad n xs ++ tail ≡ xs ++ (replicate (n - length xs) space ++ tail)
pad-append n xs tail = append_assoc xs (replicate (n - length xs) space) tail

trimmed-field :
    (n off : ℕ) (before xs tail : List ℕ)
    → off ≡ length before
    → length xs ≤ n
    → IsTrimmed xs
    → trimmed n (before ++ (pad n xs ++ tail)) off ≡ length xs
trimmed-field n off before xs tail e h t =
    ap (λ (u : List ℕ). trimmed n (before ++ u) off) (pad-append n xs tail)
    ∙ trimmed-pad before tail xs off (n - length xs) (n - length xs) n e (omega arith) (omega arith)
        t

slice-field :
    (n off : ℕ) (before xs tail : List ℕ)
    → off ≡ length before
    → take (length xs) (drop off (before ++ (pad n xs ++ tail))) ≡ xs
slice-field n off before xs tail e =
    ap (λ (u : List ℕ). take (length xs) (drop off (before ++ u))) (pad-append n xs tail)
    ∙ slice before xs (replicate (n - length xs) space ++ tail) off e

extension :
    (n off : ℕ) (before ext tail : List ℕ)
    → off ≡ length before
    → (if ltb 0 (length ext)
        then 46 ∷ take (length ext) (drop off (before ++ (pad n ext ++ tail)))
        else [])
      ≡ dotted ext
extension n off before [] tail e = refl
extension n off before (c ∷ cs) tail e =
    rw (some_bytes (length cs))
      (ap (λ (t : List ℕ). 46 ∷ t) (slice-field n off before (c ∷ cs) tail e))
  where
    some_bytes : (k : ℕ) → ltb 0 (suc k) ≡ true
    some_bytes k = ground arith

-- The name of an entry is its stem, and its extension behind a dot unless it is empty, if neither ends
-- in a space.
pub entry_name-pad :
    (before stem ext tail : List ℕ) (off : ℕ)
    → off ≡ length before
    → length stem ≤ 8
    → length ext ≤ 3
    → IsTrimmed stem
    → IsTrimmed ext
    → entry_name (before ++ (pad 8 stem ++ (pad 3 ext ++ tail))) off ≡ stem ++ dotted ext
entry_name-pad before stem ext tail off e short few t u =
    entry_name-shown sector off
    ∙ ap₂ (shown sector off) (trimmed-field 8 off before stem (pad 3 ext ++ tail) e short t) (
        ap (λ (v : List ℕ). trimmed 3 v (off + 8)) regrouped
        ∙ trimmed-field 3 (off + 8) (before ++ pad 8 stem) ext tail behind few u)
    ∙ ap₂ (λ (a b : List ℕ). a ++ b) (slice-field 8 off before stem (pad 3 ext ++ tail) e)
        (ap
            (λ (v : List ℕ).
              if ltb 0 (length ext) then 46 ∷ take (length ext) (drop (off + 8) v) else [])
            regrouped
          ∙ extension 3 (off + 8) (before ++ pad 8 stem) ext tail behind)
  where
    sector : List ℕ
    sector = before ++ (pad 8 stem ++ (pad 3 ext ++ tail))

    regrouped : sector ≡ (before ++ pad 8 stem) ++ (pad 3 ext ++ tail)
    regrouped = sym (append_assoc before (pad 8 stem) (pad 3 ext ++ tail))

    behind : off + 8 ≡ length (before ++ pad 8 stem)
    behind = omega (arith, length-append before (pad 8 stem), length-pad 8 stem short)
