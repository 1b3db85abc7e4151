-- ===== src/Mount/Fat16/Slots.antt =====
-- The entries of a directory that src/c/mount.c reads: their bytes, and what the code says of them.
use isiki.Prelude.{
  ℕ, ◌+◌, ◌*◌, ◌/◌, ◌%◌, ◌^◌, ◌≤◌, ◌<◌, ◌≡◌, ◌≢◌, inl, inr, refl, sym, ap, ◌∙◌, true, false, List,
  [], ◌∷◌, ◌++◌, arith, ◌==◌, ==→eq, if◌then◌else◌, Bool-cases, length, length-append, get_or,
  get_or-append, All,
}
use mathlib.Core.Path.{ap₂}
use mathlib.Core.List.{append_assoc}
use Prim.Native.Nat.{bit_or}
use isiki.P9.{put_u16, get_u16}
use isiki.P9.Bytes.{bit_or_above, get_u16-put_u16}
use isiki.Mount.{until_nul}
use isiki.Mount.Fat16.{
  fat16n_u16, fat16n_u32, entry_name, same_name, Look, skipped, end_of_directory, hit, look,
}
use isiki.Mount.Fat16.Name.{pad, length-pad, IsTrimmed, dotted, entry_name-pad}

pub record DirFile : Type 0 where
  pub stem : List ℕ
  pub ext : List ℕ
  -- The attributes and the times.
  pub middle : List ℕ
  pub cluster : ℕ
  pub size : ℕ

abbrev pub name_of : DirFile → List ℕ
name_of f = f.stem ++ dotted f.ext

abbrev pub IsNot : ℕ → ℕ → Type 0
IsNot c b = (b == c) ≡ false

pub record IsDirFile (f : DirFile) : Type 0 where
  pub some_stem : 0 < length f.stem
  pub stem_short : length f.stem ≤ 8
  pub ext_short : length f.ext ≤ 3
  pub stem_trimmed : IsTrimmed f.stem
  pub ext_trimmed : IsTrimmed f.ext
  pub stem_bytes : All (IsNot 0) f.stem
  pub ext_bytes : All (IsNot 0) f.ext
  pub live : IsNot 0xE5 (get_or f.stem 0 0)
  pub middle_size : length f.middle ≡ 15
  pub cluster_small : f.cluster < 2 ^ 16
  pub size_small : f.size < 2 ^ 32

-- A file, an entry that was deleted, and one behind the last; the other bytes of the latter are free.
pub data Slot : Type 0 where
  file : DirFile → Slot
  deleted : List ℕ → Slot
  unused : List ℕ → Slot

abbrev pub IsSlot : Slot → Type 0
IsSlot (file f) = IsDirFile f
IsSlot (deleted bytes) = length bytes ≡ 31
IsSlot (unused bytes) = length bytes ≡ 31

abbrev pub numbers : DirFile → List ℕ
numbers f = put_u16 f.cluster ++ (put_u16 f.size ++ put_u16 (f.size / 2 ^ 16))

abbrev pub slot_bytes : Slot → List ℕ
slot_bytes (file f) = pad 8 f.stem ++ (pad 3 f.ext ++ (f.middle ++ numbers f))
slot_bytes (deleted bytes) = 0xE5 ∷ bytes
slot_bytes (unused bytes) = 0 ∷ bytes

abbrev pub all_bytes : List Slot → List ℕ
all_bytes [] = []
all_bytes (s ∷ slots) = slot_bytes s ++ all_bytes slots

pub same_name-eq : (a b : List ℕ) → same_name a b ≡ true → a ≡ b
unfolding same_name
same_name-eq [] [] e = refl
same_name-eq [] (d ∷ ds) e = cc
same_name-eq (c ∷ cs) [] e = cc
same_name-eq (c ∷ cs) (d ∷ ds) e = elim (Bool-cases (c == d)) [
  | inl h ↦ ap₂ (λ (x : ℕ) (t : List ℕ). x ∷ t) (==→eq c d h) (same_name-eq cs ds (rw h at e))
  | inr h ↦ absurd (apart (rw h at e))
]
  where
    apart : false ≡ true → ⊥
    apart e = cc

same_name_self : (a : List ℕ) → same_name a a ≡ true
unfolding same_name
same_name_self [] = refl
same_name_self (c ∷ cs) = rw (self c) (same_name_self cs)
  where
    self : (n : ℕ) → (n == n) ≡ true
    self n = ground arith

true-false : true ≡ false → ⊥
true-false e = cc

pub same_name-ne : (a b : List ℕ) → same_name a b ≡ false → a ≢ b
same_name-ne a b e h =
    true-false (sym (same_name_self a) ∙ ap (λ (t : List ℕ). same_name a t) h ∙ e)

until_nul_lem : (a : List ℕ) → All (IsNot 0) a → until_nul a ≡ a
until_nul_lem [] h = refl
until_nul_lem (c ∷ cs) h = rw (h.0) (ap (λ (t : List ℕ). c ∷ t) (until_nul_lem cs h.1))

until_nul-name :
    (stem ext : List ℕ)
    → All (IsNot 0) stem
    → All (IsNot 0) ext
    → until_nul (stem ++ dotted ext) ≡ stem ++ dotted ext
until_nul-name [] [] h k = refl
until_nul-name [] (c ∷ cs) h k = ap (λ (t : List ℕ). 46 ∷ t) (until_nul_lem (c ∷ cs) k)
until_nul-name (c ∷ cs) ext h k =
    rw (h.0) (ap (λ (t : List ℕ). c ∷ t) (until_nul-name cs ext h.1 k))

u16-field :
    (pre post : List ℕ) (pos v : ℕ)
    → pos ≡ length pre
    → fat16n_u16 (pre ++ (put_u16 v ++ post)) pos ≡ v % 2 ^ 16
unfolding fat16n_u16 get_u16
u16-field pre post pos v e =
    ap (λ (n : ℕ). n % 2 ^ 16) (get_u16-put_u16 pre post pos v e) ∙ omega arith

u32-field :
    (pre post : List ℕ) (pos v : ℕ)
    → pos ≡ length pre
    → v < 2 ^ 32
    → fat16n_u32 (pre ++ (put_u16 v ++ (put_u16 (v / 2 ^ 16) ++ post))) pos ≡ v
unfolding fat16n_u32 put_u16
u32-field pre post pos v e small =
    ap₂ (λ (a b : ℕ). bit_or a (b * 2 ^ 16)) (u16-field pre (put_u16 (v / 2 ^ 16) ++ post) pos v e)
      (ap (λ (t : List ℕ). fat16n_u16 t (pos + 2)) regrouped
        ∙ u16-field (pre ++ put_u16 v) post (pos + 2) (v / 2 ^ 16)
            (omega (arith, length-append pre (put_u16 v), two v)))
    ∙ bit_or_above 16 (v % 2 ^ 16) (v / 2 ^ 16 % 2 ^ 16) (omega arith)
    ∙ omega arith
  where
    regrouped :
        pre ++ (put_u16 v ++ (put_u16 (v / 2 ^ 16) ++ post))
        ≡ (pre ++ put_u16 v) ++ (put_u16 (v / 2 ^ 16) ++ post)
    regrouped = sym (append_assoc pre (put_u16 v) (put_u16 (v / 2 ^ 16) ++ post))

    two : (n : ℕ) → length (put_u16 n) ≡ 2
    two n = refl

-- What the code says of an entry.
abbrev pub slot_look : List ℕ → Slot → Look
slot_look name (file f) = if same_name (name_of f) name then hit f.cluster f.size else skipped
slot_look name (deleted bytes) = skipped
slot_look name (unused bytes) = end_of_directory

first_of : (xs ys zs : List ℕ) → 0 < length xs → get_or ((xs ++ ys) ++ zs) 0 0 ≡ get_or xs 0 0
first_of [] ys zs h = absurd (omega arith)
first_of (x ∷ xs) ys zs h = refl

first_nonzero : (xs : List ℕ) → 0 < length xs → All (IsNot 0) xs → (get_or xs 0 0 == 0) ≡ false
first_nonzero [] h k = absurd (omega arith)
first_nonzero (x ∷ xs) h k = k.0

module _ (before after : List ℕ) (off : ℕ) (at : off ≡ length before) (f : DirFile)
    (valid : IsDirFile f) where
  abbrev entry_at : List ℕ
  entry_at = before ++ (slot_bytes (file f) ++ after)

  entry_at-fields :
      entry_at ≡ before ++ (pad 8 f.stem ++ (pad 3 f.ext ++ (f.middle ++ (numbers f ++ after))))
  entry_at-fields =
      ap (λ (t : List ℕ). before ++ t)
        (append_assoc (pad 8 f.stem) (pad 3 f.ext ++ (f.middle ++ numbers f)) after
          ∙ ap (λ (t : List ℕ). pad 8 f.stem ++ t)
              (append_assoc (pad 3 f.ext) (f.middle ++ numbers f) after
                ∙ ap (λ (t : List ℕ). pad 3 f.ext ++ t) (append_assoc f.middle (numbers f) after)))

  abbrev front : List ℕ
  front = before ++ (pad 8 f.stem ++ (pad 3 f.ext ++ f.middle))

  entry_at-numbers : entry_at ≡ front ++ (numbers f ++ after)
  entry_at-numbers =
      entry_at-fields
      ∙ ap (λ (t : List ℕ). before ++ t)
          (ap (λ (t : List ℕ). pad 8 f.stem ++ t)
              (sym (append_assoc (pad 3 f.ext) f.middle (numbers f ++ after)))
            ∙ sym (append_assoc (pad 8 f.stem) (pad 3 f.ext ++ f.middle) (numbers f ++ after)))
      ∙ sym (append_assoc before (pad 8 f.stem ++ (pad 3 f.ext ++ f.middle)) (numbers f ++ after))

  length-front : off + 26 ≡ length front
  length-front = omega (
    arith,
    length-append before (pad 8 f.stem ++ (pad 3 f.ext ++ f.middle)),
    length-append (pad 8 f.stem) (pad 3 f.ext ++ f.middle),
    length-append (pad 3 f.ext) f.middle,
    length-pad 8 f.stem valid.stem_short,
    length-pad 3 f.ext valid.ext_short,
    valid.middle_size,
  )

  name_at : until_nul (entry_name entry_at off) ≡ name_of f
  name_at =
      ap (λ (t : List ℕ). until_nul (entry_name t off)) entry_at-fields
      ∙ ap until_nul (
          entry_name-pad before f.stem f.ext (f.middle ++ (numbers f ++ after)) off at
            valid.stem_short valid.ext_short valid.stem_trimmed valid.ext_trimmed)
      ∙ until_nul-name f.stem f.ext valid.stem_bytes valid.ext_bytes

  cluster_at : fat16n_u16 entry_at (off + 26) ≡ f.cluster
  unfolding put_u16
  cluster_at =
      ap (λ (t : List ℕ). fat16n_u16 t (off + 26)) entry_at-numbers
      ∙ u16-field front (put_u16 f.size ++ (put_u16 (f.size / 2 ^ 16) ++ after)) (off + 26)
          f.cluster length-front
      ∙ omega (arith, valid.cluster_small)

  size_at : fat16n_u32 entry_at (off + 28) ≡ f.size
  unfolding put_u16
  size_at =
      ap (λ (t : List ℕ). fat16n_u32 t (off + 28))
        (entry_at-numbers
          ∙ sym (
              append_assoc front (put_u16 f.cluster)
                (put_u16 f.size ++ (put_u16 (f.size / 2 ^ 16) ++ after))))
      ∙ u32-field (front ++ put_u16 f.cluster) after (off + 28) f.size
          (omega (arith, length-append front (put_u16 f.cluster), length-front)) valid.size_small

  first_at : get_or entry_at off 0 ≡ get_or f.stem 0 0
  first_at =
      ap (λ (t : List ℕ). get_or t off 0) entry_at-fields
      ∙ get_or-append before _ 0 off 0 (omega arith)
      ∙ first_of f.stem _ _ valid.some_stem

  file_look : (name : List ℕ) → look entry_at off name ≡ slot_look name (file f)
  unfolding look
  file_look name = rw (first_at, not_zero, valid.live, name_at, cluster_at, size_at) refl
    where
      not_zero : (get_or f.stem 0 0 == 0) ≡ false
      not_zero = first_nonzero f.stem valid.some_stem valid.stem_bytes

pub look-slot_bytes :
    (before after : List ℕ) (off : ℕ)
    → off ≡ length before
    → (slot : Slot) → IsSlot slot
    → (name : List ℕ) → look (before ++ (slot_bytes slot ++ after)) off name ≡ slot_look name slot
unfolding look
look-slot_bytes before after off at (file f) valid name = file_look before after off at f valid name
look-slot_bytes before after off at (deleted bytes) valid name =
    rw (get_or-append before (0xE5 ∷ bytes ++ after) 0 off 0 (omega arith)) refl
look-slot_bytes before after off at (unused bytes) valid name =
    rw (get_or-append before (0 ∷ bytes ++ after) 0 off 0 (omega arith)) refl

pub length-slot_bytes : (slot : Slot) → IsSlot slot → length (slot_bytes slot) ≡ 32
unfolding put_u16
length-slot_bytes (file f) valid = omega (
  arith,
  length-append (pad 8 f.stem) (pad 3 f.ext ++ (f.middle ++ numbers f)),
  length-append (pad 3 f.ext) (f.middle ++ numbers f),
  length-append f.middle (numbers f),
  length-pad 8 f.stem valid.stem_short,
  length-pad 3 f.ext valid.ext_short,
  valid.middle_size,
)
length-slot_bytes (deleted bytes) valid = omega (arith, valid)
length-slot_bytes (unused bytes) valid = omega (arith, valid)
