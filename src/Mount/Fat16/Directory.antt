-- ===== src/Mount/Fat16/Directory.antt =====
-- fat16n_find_root_entry of src/c/mount.c: the entries of the root directory, and the file of a name.
use isiki.Prelude.{
  ℕ, zero, suc, ◌+◌, ◌%◌, ◌^◌, ◌≡◌, ◌≢◌, inl, inr, refl, sym, ap, ◌∙◌, Option, none, some, List, [],
  ◌∷◌, ◌++◌, arith, Bool-cases, length, length-append, All,
}
use mathlib.Core.Path.{ap₂, subst}
use mathlib.Core.List.{append_assoc}
use isiki.Mount.Fat16.{
  Disk, Bpb, same_name, Look, skipped, end_of_directory, hit, or_look, scan_entries, scanned,
  read_or_none, fat16n_read_sectors, scan_sectors, fat16n_root_dir_lba,
  fat16n_root_dir_sector_count, fat16n_find_root_entry,
}
use isiki.Mount.Fat16.Slots.{
  DirFile, name_of, Slot, file, deleted, unused, IsSlot, slot_bytes, all_bytes, same_name-eq,
  same_name-ne, slot_look, look-slot_bytes, length-slot_bytes,
}

abbrev pub concat {ℓ} : {A : Type ℓ} → List (List A) → List A
concat [] = []
concat (xs ∷ xss) = xs ++ concat xss

-- What a directory says of a name: the first file of that name, with its first cluster and its size,
-- among the entries before the first unused one.
pub data Finds (name : List ℕ) : List Slot → Option (ℕ × ℕ) → Type 0 where
  nothing : Finds name [] none
  ended : {bytes : List ℕ} {rest : List Slot} → Finds name (unused bytes ∷ rest) none
  passed_deleted :
      {bytes : List ℕ} {rest : List Slot} {r : Option (ℕ × ℕ)}
      → Finds name rest r
      → Finds name (deleted bytes ∷ rest) r
  passed_other :
      {f : DirFile} {rest : List Slot} {r : Option (ℕ × ℕ)}
      → name_of f ≢ name
      → Finds name rest r
      → Finds name (file f ∷ rest) r
  found :
      {f : DirFile} {rest : List Slot}
      → name_of f ≡ name
      → Finds name (file f ∷ rest) (some (f.cluster, f.size))

-- The device has the sectors of a directory, each of 16 entries.
pub data Holds (dev : Disk) (base_lba : ℕ) : ℕ → List (List Slot) → Type 0 where
  no_more : {lba : ℕ} → Holds dev base_lba lba []
  sector :
      {lba : ℕ} {slots : List Slot} {rest : List (List Slot)}
      → fat16n_read_sectors dev base_lba lba 1 ≡ some (all_bytes slots)
      → length slots ≡ 16
      → All IsSlot slots
      → Holds dev base_lba ((lba + 1) % 2 ^ 32) rest
      → Holds dev base_lba lba (slots ∷ rest)

abbrev look_all : List ℕ → List Slot → Look
look_all name [] = skipped
look_all name (s ∷ slots) = or_look (slot_look name s) (look_all name slots)

scan_entries-look_all :
    (name before : List ℕ) (slots : List Slot) (n off : ℕ)
    → off ≡ length before
    → length slots ≡ n
    → All IsSlot slots
    → scan_entries n off (before ++ all_bytes slots) name ≡ look_all name slots
unfolding scan_entries
scan_entries-look_all name before [] zero off at size valid = refl
scan_entries-look_all name before [] (suc n) off at size valid = absurd (omega arith)
scan_entries-look_all name before (s ∷ slots) zero off at size valid = absurd (omega arith)
scan_entries-look_all name before (s ∷ slots) (suc n) off at size valid =
    ap₂ or_look (look-slot_bytes before (all_bytes slots) off at s valid.0 name) (
      ap (λ (t : List ℕ). scan_entries n (off + 32) t name)
        (sym (append_assoc before (slot_bytes s) (all_bytes slots)))
      ∙ scan_entries-look_all name (before ++ slot_bytes s) slots n (off + 32)
          (omega (arith, length-append before (slot_bytes s), length-slot_bytes s valid.0))
          (omega arith) valid.1)

-- What the sectors say, one behind the other.
abbrev told : List ℕ → List Slot → Option (ℕ × ℕ)
told name slots = scanned (look_all name slots) none

told-append :
    (name : List ℕ) (a b : List Slot) → scanned (look_all name a) (told name b) ≡ told name (a ++ b)
told-append name [] b = refl
told-append name (s ∷ a) b =
    one (slot_look name s) (look_all name a) (look_all name (a ++ b)) (told-append name a b)
  where
    one :
        (l x y : Look)
        → scanned x (told name b) ≡ scanned y none
        → scanned (or_look l x) (told name b) ≡ scanned (or_look l y) none
    one skipped x y e = e
    one end_of_directory x y e = refl
    one (hit c size) x y e = refl

scan_sectors-told :
    (dev : Disk) (base_lba lba n : ℕ) (name : List ℕ) (sectors : List (List Slot))
    → Holds dev base_lba lba sectors
    → length sectors ≡ n
    → scan_sectors dev base_lba n lba name ≡ told name (concat sectors)
unfolding scan_sectors
scan_sectors-told dev base_lba lba zero name _ no_more size = refl
scan_sectors-told dev base_lba lba (suc n) name _ no_more size = absurd (omega arith)
scan_sectors-told dev base_lba lba zero name _ (sector r many valid holds) size =
    absurd (omega arith)
scan_sectors-told dev base_lba lba (suc n) name _
      (sector {slots = slots} {rest = rest} r many valid holds) size =
    ap (λ (o : Option (List ℕ)). read_or_none o (λ t. scanned (scan_entries 16 0 t name) next)) r
    ∙ ap₂ scanned (scan_entries-look_all name [] slots 16 0 refl many valid)
        (scan_sectors-told dev base_lba ((lba + 1) % 2 ^ 32) n name rest holds (omega arith))
    ∙ told-append name slots (concat rest)
  where
    next : Option (ℕ × ℕ)
    next = scan_sectors dev base_lba n ((lba + 1) % 2 ^ 32) name

told-Finds : (name : List ℕ) (slots : List Slot) → Finds name slots (told name slots)
told-Finds name [] = nothing
told-Finds name (deleted bytes ∷ slots) = passed_deleted (told-Finds name slots)
told-Finds name (unused bytes ∷ slots) = ended
told-Finds name (file f ∷ slots) = elim (Bool-cases (same_name (name_of f) name)) [
  | inl e ↦ rw e (found (same_name-eq (name_of f) name e))
  | inr e ↦ rw e (passed_other (same_name-ne (name_of f) name e) (told-Finds name slots))
]

-- On a device that has the sectors of a root directory, as many as the boot sector says, the file of a
-- name is the first one of that name among the entries before the first unused one, deleted entries
-- passed over; its cluster and its size are those of its entry, and there is none if no entry has it.
pub find_root_entry-Finds :
    (dev : Disk) (base_lba : ℕ) (bpb : Bpb) (name : List ℕ) (sectors : List (List Slot))
    → Holds dev base_lba (fat16n_root_dir_lba bpb) sectors
    → length sectors ≡ fat16n_root_dir_sector_count bpb
    → Finds name (concat sectors) (fat16n_find_root_entry dev base_lba bpb name)
unfolding fat16n_find_root_entry
find_root_entry-Finds dev base_lba bpb name sectors holds size =
    subst (Finds name (concat sectors))
      (sym (
        scan_sectors-told dev base_lba (fat16n_root_dir_lba bpb) (fat16n_root_dir_sector_count bpb)
          name sectors holds size))
      (told-Finds name (concat sectors))
