-- ===== src/Mount/Files.antt =====
-- src/c/mount.c: whole files of a FAT file system, by the functions of the drivers in the Lisp.
use isiki.Prelude.{ℕ, ◌%◌, ◌^◌, Bool, true, false, Option, none, some, List, [], ◌∷◌, length, take}
use isiki.Fixnum.{os_make_fixnum, os_fixnum_magnitude}
use isiki.Stream.Device.{Called, undefined_function, escaped, returned_nil, returned}
use isiki.Mount.{MountKind}
use isiki.Mount.Driver.{FatDriver}

-- 1 with the results; 0 with `*out_transfer` as it was; 0 with a transfer in `*out_transfer`, which no
-- caller passes as null.
pub data Mounted {ℓ} (A : Type ℓ) : Type ℓ where
  done : A → Mounted A
  failed : Mounted A
  transferred : ℕ → Mounted A

-- os_fixnum_magnitude of a word, as a UINT8.
abbrev pub byte_of_word : ℕ → ℕ
byte_of_word word = os_fixnum_magnitude word % 2 ^ 8

abbrev pub map_list {ℓ} : {A : Type ℓ} → (A → A) → List A → List A
map_list f [] = []
map_list f (x ∷ xs) = f x ∷ map_list f xs

-- The length of the vector is read as a UINT32.
unfoldable pub vector_bytes : List ℕ → List ℕ
vector_bytes words = map_list byte_of_word (take (length words % 2 ^ 32) words)

-- os_make_vector_from_list of the fixnums of the bytes.
unfoldable pub bytes_vector : List ℕ → List ℕ
bytes_vector contents = map_list os_make_fixnum contents

module _ {ℓ} {State : Type ℓ} where
  -- A call and the test of mount_transfer_escaped: what happens if there is no function, and what
  -- happens with the value, where nil is `none`.
  unfoldable pub after_call {κ μ} :
      {A : Type κ} {B : Type μ}
      → State × Called A
      → (State → State × Mounted B)
      → (State → Option A → State × Mounted B)
      → State × Mounted B
  after_call (s, undefined_function) absent next = absent s
  after_call (s, escaped t) absent next = (s, transferred t)
  after_call (s, returned_nil) absent next = next s none
  after_call (s, returned a) absent next = next s (some a)

  abbrev pub fail {κ} : {B : Type κ} → State → State × Mounted B
  fail s = (s, failed)

  abbrev pub or_fail {κ μ} :
      {A : Type κ} {B : Type μ}
      → (State → A → State × Mounted B)
      → State
      → Option A
      → State × Mounted B
  or_fail next s none = (s, failed)
  or_fail next s (some a) = next s a

module _ (d : FatDriver) where
  unfoldable pub os_mount_fat_read_file :
      MountKind → Option ℕ → List ℕ → d.State → d.State × Mounted (List ℕ)
  unfolding after_call vector_bytes
  os_mount_fat_read_file kind device relative_path s =
      after_call (d.device_handle s device) fail (λ s handle.
        after_call (d.read_file kind s handle relative_path) fail
          (or_fail (λ s words. (s, done (vector_bytes words)))))

  -- The second attempt, by CREATE-FILE.
  unfoldable pub create_instead :
      MountKind → Option d.Handle → List ℕ → List ℕ → d.State → d.State × Mounted (Unit {0})
  unfolding after_call
  create_instead kind handle relative_path bytes s =
      after_call (d.create_file kind s handle relative_path bytes) fail
        (or_fail (λ s u. (s, done tt)))

  unfoldable pub create_unless_written :
      MountKind
      → Option d.Handle
      → List ℕ
      → List ℕ
      → d.State
      → Option (Unit {0})
      → d.State × Mounted (Unit {0})
  unfolding create_instead
  create_unless_written kind handle relative_path bytes s none =
      create_instead kind handle relative_path bytes s
  create_unless_written kind handle relative_path bytes s (some u) = (s, done tt)

  unfoldable pub os_mount_fat_write_file :
      MountKind → Option ℕ → List ℕ → List ℕ → d.State → d.State × Mounted (Unit {0})
  unfolding after_call create_unless_written create_instead bytes_vector
  os_mount_fat_write_file kind device relative_path contents s =
      after_call (d.device_handle s device) fail (λ s handle.
        after_call (d.write_file kind s handle relative_path (bytes_vector contents))
          (create_instead kind handle relative_path (bytes_vector contents))
          (create_unless_written kind handle relative_path (bytes_vector contents)))

  -- The node is resolved again behind a change of the file.
  unfoldable pub resolve_again :
      MountKind
      → Option d.Handle
      → List ℕ
      → (d.State → Option ℕ → d.State × Mounted ℕ)
      → d.State
      → Unit {0}
      → d.State × Mounted ℕ
  unfolding after_call
  resolve_again kind handle relative_path next s u =
      after_call (d.resolve_node kind s handle relative_path) fail next

  unfoldable pub node_found : d.State → Option ℕ → d.State × Mounted ℕ
  node_found s none = (s, failed)
  node_found s (some node) = (s, done node)

  -- `node == nil && create_if_missing`
  unfoldable pub create_missing :
      MountKind → Option d.Handle → List ℕ → Bool → d.State → Option ℕ → d.State × Mounted ℕ
  unfolding after_call node_found resolve_again
  create_missing kind handle relative_path true s none =
      after_call (d.create_file kind s handle relative_path []) fail
        (or_fail (resolve_again kind handle relative_path node_found))
  create_missing kind handle relative_path false s none = node_found s none
  create_missing kind handle relative_path create s (some node) = node_found s (some node)

  -- `node != nil && truncate`
  unfoldable pub truncate_found :
      MountKind → Option d.Handle → List ℕ → Bool → Bool → d.State → Option ℕ → d.State × Mounted ℕ
  unfolding after_call create_missing resolve_again
  truncate_found kind handle relative_path true create s (some node) =
      after_call (d.write_file kind s handle relative_path []) fail (
        or_fail (
          resolve_again kind handle relative_path
            (create_missing kind handle relative_path create)))
  truncate_found kind handle relative_path false create s (some node) =
      create_missing kind handle relative_path create s (some node)
  truncate_found kind handle relative_path truncate create s none =
      create_missing kind handle relative_path create s none

  unfoldable pub os_mount_fat_resolve_file_node :
      MountKind → Option ℕ → List ℕ → Bool → Bool → d.State → d.State × Mounted ℕ
  unfolding after_call truncate_found
  os_mount_fat_resolve_file_node kind device relative_path truncate create s =
      after_call (d.device_handle s device) fail (λ s handle.
        after_call (d.resolve_node kind s handle relative_path) fail
          (truncate_found kind handle relative_path truncate create))

  unfoldable pub os_mount_fat_file_size :
      MountKind → Option ℕ → List ℕ → d.State → d.State × Mounted ℕ
  unfolding after_call
  os_mount_fat_file_size kind device relative_path s =
      after_call (d.device_handle s device) fail (λ s handle.
        after_call (d.file_size kind s handle relative_path) fail
          (or_fail (λ s word. (s, done (os_fixnum_magnitude word % 2 ^ 32)))))
