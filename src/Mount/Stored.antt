-- ===== src/Mount/Stored.antt =====
-- A file of a FAT file system that is written and read by src/c/mount.c.
use isiki.Prelude.{
  ℕ, suc, ◌^◌, ◌<◌, ◌≡◌, Bool, true, false, refl, sym, ap, ◌∙◌, Option, some, List, [], ◌∷◌, arith,
  length, take, take-length, All,
}
use isiki.Fixnum.{os_make_fixnum, os_fixnum_magnitude}
use isiki.Stream.Device.{Called, undefined_function, escaped, returned_nil, returned}
use isiki.Mount.{MountKind}
use isiki.Mount.Driver.{FatDriver}
use isiki.Mount.Files.{
  Mounted, done, failed, transferred, byte_of_word, map_list, vector_bytes, bytes_vector,
  after_call, fail, or_fail, os_mount_fat_read_file, create_instead, create_unless_written,
  os_mount_fat_write_file,
}

-- The driver has the device, and reads the bytes that it has written to the file, as fixnums. It need not
-- keep other words, nor an empty file, nor one of 4 GiB.
pub record Stores (d : FatDriver) (kind : MountKind) (device : Option ℕ) (path : List ℕ)
    : Type 0 where
  pub handle : d.Handle
  pub opens : (s : d.State) → d.device_handle s device ≡ (s, returned handle)
  pub writes :
      (s s' : d.State) (bytes : List ℕ)
      → All (λ b. b < 256) bytes
      → 0 < length bytes
      → length bytes < 2 ^ 32
      → d.write_file kind s (some handle) path (bytes_vector bytes) ≡ (s', returned tt)
      → (d.read_file kind s' (some handle) path).1 ≡ returned (bytes_vector bytes)
  pub creates :
      (s s' : d.State) (bytes : List ℕ)
      → All (λ b. b < 256) bytes
      → 0 < length bytes
      → length bytes < 2 ^ 32
      → d.create_file kind s (some handle) path (bytes_vector bytes) ≡ (s', returned tt)
      → (d.read_file kind s' (some handle) path).1 ≡ returned (bytes_vector bytes)

length-bytes_vector : (bytes : List ℕ) → length (bytes_vector bytes) ≡ length bytes
unfolding bytes_vector
length-bytes_vector [] = refl
length-bytes_vector (b ∷ bytes) = ap suc (length-bytes_vector bytes)

byte_of_word-os_make_fixnum : (b : ℕ) → b < 256 → byte_of_word (os_make_fixnum b) ≡ b
unfolding os_make_fixnum os_fixnum_magnitude
byte_of_word-os_make_fixnum b h = omega arith

pub map_list-bytes :
    (bytes : List ℕ)
    → All (λ b. b < 256) bytes
    → map_list byte_of_word (map_list os_make_fixnum bytes) ≡ bytes
map_list-bytes [] h = refl
map_list-bytes (b ∷ bytes) h =
    ap (λ (k : ℕ). k ∷ map_list byte_of_word (map_list os_make_fixnum bytes))
      (byte_of_word-os_make_fixnum b h.0)
    ∙ ap (λ (t : List ℕ). b ∷ t) (map_list-bytes bytes h.1)

-- The bytes of a file shorter than 4 GiB are the bytes of its vector.
pub vector_bytes-bytes_vector :
    (bytes : List ℕ)
    → All (λ b. b < 256) bytes
    → length bytes < 2 ^ 32
    → vector_bytes (bytes_vector bytes) ≡ bytes
unfolding vector_bytes bytes_vector
vector_bytes-bytes_vector bytes h small =
    ap (λ (n : ℕ). map_list byte_of_word (take n (bytes_vector bytes)))
      (omega (arith, length-bytes_vector bytes))
    ∙ ap (λ (t : List ℕ). map_list byte_of_word t) (take-length (bytes_vector bytes))
    ∙ map_list-bytes bytes h

abbrev is_done {ℓ} : {A : Type ℓ} → Mounted A → Bool
is_done (done a) = true
is_done failed = false
is_done (transferred t) = false

module _ (d : FatDriver) (kind : MountKind) (device : Option ℕ) (path bytes : List ℕ)
    (stores : Stores d kind device path) (bounded : All (λ b. b < 256) bytes)
    (some_bytes : 0 < length bytes) (small : length bytes < 2 ^ 32) (s' : d.State) where
  abbrev words : List ℕ
  words = bytes_vector bytes

  Kept : Type 0
  Kept = (d.read_file kind s' (some stores.handle) path).1 ≡ returned words

  abbrev Result : Type 0
  Result = d.State × Mounted (Unit {0})

  abbrev ended : d.State → Result
  ended t = (t, done tt)

  at_end : (t : d.State) → ended t ≡ ended s' → t ≡ s'
  at_end t e = ap (λ (r : Result). r.0) e

  other_end :
      (t : d.State) (m : Mounted (Unit {0}))
      → is_done m ≡ false
      → ◌≡◌ {A = Result} (t, m) (ended s')
      → ⊥
  other_end t m apart e = absurd (differ (ap (λ (r : Result). is_done r.1) e))
    where
      differ : is_done m ≡ true → ⊥
      differ f = cc

  create_instead-Kept :
      (t : d.State) → create_instead d kind (some stores.handle) path words t ≡ ended s' → Kept
  unfolding Kept create_instead after_call
  create_instead-Kept t e = by_call (d.create_file kind t (some stores.handle) path words) refl e
    where
      by_call :
          (r : d.State × Called (Unit {0}))
          → d.create_file kind t (some stores.handle) path words ≡ r
          → after_call r fail (or_fail (λ u v. ended u)) ≡ ended s'
          → (d.read_file kind s' (some stores.handle) path).1 ≡ returned words
      by_call (u, undefined_function) f g = absurd (other_end u failed refl g)
      by_call (u, escaped x) f g = absurd (other_end u (transferred x) refl g)
      by_call (u, returned_nil) f g = absurd (other_end u failed refl g)
      by_call (u, returned v) f g =
          stores.creates t s' bytes bounded some_bytes small
            (f ∙ ap (λ (w : d.State). (w, returned tt)) (at_end u g))

  write-Kept :
      (t : d.State)
      → after_call
          (d.write_file kind t (some stores.handle) path words)
          (create_instead d kind (some stores.handle) path words)
          (create_unless_written d kind (some stores.handle) path words)
        ≡ ended s'
      → Kept
  unfolding Kept create_unless_written after_call
  write-Kept t e = by_call (d.write_file kind t (some stores.handle) path words) refl e
    where
      by_call :
          (r : d.State × Called (Unit {0}))
          → d.write_file kind t (some stores.handle) path words ≡ r
          → after_call r
              (create_instead d kind (some stores.handle) path words)
              (create_unless_written d kind (some stores.handle) path words)
            ≡ ended s'
          → (d.read_file kind s' (some stores.handle) path).1 ≡ returned words
      by_call (u, undefined_function) f g = create_instead-Kept u g
      by_call (u, escaped x) f g = absurd (other_end u (transferred x) refl g)
      by_call (u, returned_nil) f g = create_instead-Kept u g
      by_call (u, returned v) f g =
          stores.writes t s' bytes bounded some_bytes small
            (f ∙ ap (λ (w : d.State). (w, returned tt)) (at_end u g))

  -- The read that follows, in whatever state it leaves the Lisp.
  read-Kept : Kept → (os_mount_fat_read_file d kind device path s').1 ≡ done bytes
  unfolding os_mount_fat_read_file Kept after_call
  read-Kept kept =
      ap (λ r. (read_with r).1) (stores.opens s')
      ∙ ap
          (λ (c : Called (List ℕ)).
            (found ((d.read_file kind s' (some stores.handle) path).0, c)).1)
          kept
      ∙ ap done (vector_bytes-bytes_vector bytes bounded small)
    where
      found : d.State × Called (List ℕ) → d.State × Mounted (List ℕ)
      found r = after_call r fail (or_fail (λ u w. (u, done (vector_bytes w))))

      read_with : d.State × Called d.Handle → d.State × Mounted (List ℕ)
      read_with r = after_call r fail (λ t handle. found (d.read_file kind t handle path))

-- What a call writes to a file, by a write or by a creation, is what is read from it, if the driver
-- keeps the bytes that it has written: bytes, at least one of them and fewer than 2^32. The read may
-- change the state of the Lisp.
pub read_file-write_file :
    (d : FatDriver) (kind : MountKind) (device : Option ℕ) (path bytes : List ℕ) (s s' : d.State)
    → Stores d kind device path
    → All (λ b. b < 256) bytes
    → 0 < length bytes
    → length bytes < 2 ^ 32
    → os_mount_fat_write_file d kind device path bytes s ≡ (s', done tt)
    → (os_mount_fat_read_file d kind device path s').1 ≡ done bytes
unfolding os_mount_fat_write_file after_call
read_file-write_file d kind device path bytes s s' stores bounded some_bytes small wrote =
    let words : List ℕ = bytes_vector bytes in
    read-Kept d kind device path bytes stores bounded some_bytes small s' (
      write-Kept d kind device path bytes stores bounded some_bytes small s' s (
        ap
          (λ r. after_call r fail (λ t handle.
            after_call (d.write_file kind t handle path words)
              (create_instead d kind handle path words)
              (create_unless_written d kind handle path words)))
          (sym (stores.opens s))
        ∙ wrote))
