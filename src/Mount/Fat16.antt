-- ===== src/Mount/Fat16.antt =====
-- src/c/mount.c, READ-FILE-INTO-VECTOR-NATIVE: a file in the root directory of a FAT16 file system, read
-- by the sectors of a block device. A sector is a list of bytes.
pub mod Chain
pub mod Name
pub mod Slots
pub mod Directory
pub mod Reads
use isiki.Prelude.{
  ℕ, zero, suc, ◌+◌, ◌-◌, ◌*◌, ◌/◌, ◌%◌, ◌^◌, Bool, true, false, ◌&&◌, ◌||◌, Option, none, some,
  List, [], ◌∷◌, ◌++◌, ltb, leb, ◌==◌, if◌then◌else◌, length, get_or, take, drop,
}
use Prim.Native.Nat.{bit_or}
use isiki.Fixnum.{os_make_fixnum, os_fixnum_magnitude}
use isiki.Stream.Device.{Called, undefined_function, escaped, returned_nil, returned}
use isiki.Mount.{
  slash, stream_path_max, MountKind, p9, fat32, fat16, Entry, until_nul, os_string_to_cstr,
  Resolved, os_mount_resolve,
}
use isiki.Mount.Driver.{FatDriver}
use isiki.Mount.Files.{map_list}

-- read_sectors of a block_device_t, by the first sector and their number.
pub record Disk : Type 0 where
  pub read_sectors : ℕ → ℕ → Option (List ℕ)

pub record Bpb : Type 0 where
  pub bytes_per_sector : ℕ
  pub sectors_per_cluster : ℕ
  pub reserved_sectors : ℕ
  pub num_fats : ℕ
  pub root_entry_count : ℕ
  pub sectors_per_fat : ℕ

abbrev pub max_cluster_bytes : ℕ
max_cluster_bytes = 32768

unfoldable pub fat16n_u16 : List ℕ → ℕ → ℕ
fat16n_u16 b off = bit_or (get_or b off 0) (get_or b (off + 1) 0 * 2 ^ 8) % 2 ^ 16

unfoldable pub fat16n_u32 : List ℕ → ℕ → ℕ
unfolding fat16n_u16
fat16n_u32 b off = bit_or (fat16n_u16 b off) (fat16n_u16 b (off + 2) * 2 ^ 16)

-- The value that %DEVICE-HANDLE returns: the address of a device, the list
-- (:IDE-PARTITION base-handle base-lba), or something else.
pub data DeviceHandle : Type 0 where
  raw_pointer : ℕ → DeviceHandle
  ide_partition : DeviceHandle → ℕ → DeviceHandle
  other_value : DeviceHandle

-- The address of the device and the sector that its sectors are counted from.
unfoldable pub fat16n_resolve_device : DeviceHandle → Option (ℕ × ℕ)
fat16n_resolve_device (raw_pointer dev) = some (dev, 0)
fat16n_resolve_device (ide_partition (raw_pointer dev) base_lba) =
    some (dev, os_fixnum_magnitude base_lba % 2 ^ 32)
fat16n_resolve_device (ide_partition (ide_partition base lba) base_lba) = none
fat16n_resolve_device (ide_partition other_value base_lba) = none
fat16n_resolve_device other_value = none

unfoldable pub fat16n_root_dir_lba : Bpb → ℕ
fat16n_root_dir_lba bpb = (bpb.reserved_sectors + bpb.num_fats * bpb.sectors_per_fat) % 2 ^ 32

unfoldable pub fat16n_root_dir_sector_count : Bpb → ℕ
fat16n_root_dir_sector_count bpb = bpb.root_entry_count * 32 % 2 ^ 32 / bpb.bytes_per_sector

unfoldable pub fat16n_data_start_lba : Bpb → ℕ
unfolding fat16n_root_dir_lba fat16n_root_dir_sector_count
fat16n_data_start_lba bpb = (fat16n_root_dir_lba bpb + fat16n_root_dir_sector_count bpb) % 2 ^ 32

unfoldable pub fat16n_cluster_to_lba : Bpb → ℕ → ℕ
unfolding fat16n_data_start_lba
fat16n_cluster_to_lba bpb cluster_no =
    (fat16n_data_start_lba bpb + (cluster_no + 2 ^ 32 - 2) % 2 ^ 32 * bpb.sectors_per_cluster)
    % 2 ^ 32

-- The end of a stem or of an extension of at most `n` bytes: what is behind it are spaces.
unfoldable pub trimmed : ℕ → List ℕ → ℕ → ℕ
trimmed zero sector off = 0
trimmed (suc n) sector off =
    let shorter = trimmed n sector off in if get_or sector (off + n) 0 == 32 then shorter else suc n

unfoldable pub entry_name : List ℕ → ℕ → List ℕ
unfolding trimmed
entry_name sector off =
    let name_end = trimmed 8 sector off in
    let ext_end = trimmed 3 sector (off + 8) in
    take name_end (drop off sector)
    ++ (if ltb 0 ext_end then 46 ∷ take ext_end (drop (off + 8) sector) else [])

unfoldable pub same_name : List ℕ → List ℕ → Bool
same_name [] [] = true
same_name [] (d ∷ ds) = false
same_name (c ∷ cs) [] = false
same_name (c ∷ cs) (d ∷ ds) = let rest = same_name cs ds in if c == d then rest else false

-- What an entry says: it is passed over, the directory ends, or it is the file, with its first cluster
-- and its size.
pub data Look : Type 0 where
  skipped : Look
  end_of_directory : Look
  hit : ℕ → ℕ → Look

unfoldable pub look : List ℕ → ℕ → List ℕ → Look
unfolding entry_name same_name fat16n_u16 fat16n_u32
look sector off name =
    let first = get_or sector off 0 in
    if first == 0
    then end_of_directory
    else if first == 0xE5
    then skipped
    else if same_name (until_nul (entry_name sector off)) name
    then hit (fat16n_u16 sector (off + 26)) (fat16n_u32 sector (off + 28))
    else skipped

abbrev pub or_look : Look → Look → Look
or_look skipped rest = rest
or_look end_of_directory rest = end_of_directory
or_look (hit c size) rest = hit c size

-- The entries from `off` on, of which `n` are left in the sector.
unfoldable pub scan_entries : ℕ → ℕ → List ℕ → List ℕ → Look
unfolding look
scan_entries zero off sector name = skipped
scan_entries (suc n) off sector name =
    or_look (look sector off name) (scan_entries n (off + 32) sector name)

-- The start cluster and the size, if the sector tells; if not, `rest` goes on.
abbrev pub scanned : Look → Option (ℕ × ℕ) → Option (ℕ × ℕ)
scanned skipped rest = rest
scanned end_of_directory rest = none
scanned (hit c size) rest = some (c, size)

abbrev pub read_or_none {ℓ κ} : {A : Type ℓ} {B : Type κ} → Option A → (A → Option B) → Option B
read_or_none none next = none
read_or_none (some a) next = next a

module _ (dev : Disk) (base_lba : ℕ) where
  unfoldable pub fat16n_read_sectors : ℕ → ℕ → Option (List ℕ)
  fat16n_read_sectors lba count = dev.read_sectors ((base_lba + lba) % 2 ^ 32) count

  unfoldable pub bpb_of : List ℕ → Option Bpb
  unfolding fat16n_u16
  bpb_of sector =
      let bpb : Bpb = record {
        bytes_per_sector = fat16n_u16 sector 11;
        sectors_per_cluster = get_or sector 13 0;
        reserved_sectors = fat16n_u16 sector 14;
        num_fats = get_or sector 16 0;
        root_entry_count = fat16n_u16 sector 17;
        sectors_per_fat = fat16n_u16 sector 22;
      } in
      if fat16n_u16 sector 11 == 512 then some bpb else none

  unfoldable pub fat16n_read_bpb : Option Bpb
  unfolding fat16n_read_sectors bpb_of
  fat16n_read_bpb = read_or_none (fat16n_read_sectors 0 1) bpb_of

  abbrev pub entry_in : ℕ → Option (List ℕ) → ℕ
  entry_in off none = 0xFFFF
  entry_in off (some sector) = fat16n_u16 sector off

  -- The end of a chain if the sector cannot be read.
  unfoldable pub fat16n_fat_entry : Bpb → ℕ → ℕ
  unfolding fat16n_read_sectors
  fat16n_fat_entry bpb cluster_no =
      let byte_offset = cluster_no * 2 % 2 ^ 32 in
      entry_in (byte_offset % bpb.bytes_per_sector) (
        fat16n_read_sectors ((bpb.reserved_sectors + byte_offset / bpb.bytes_per_sector) % 2 ^ 32)
          1)

  -- The sectors from `lba` on, of which `n` are left.
  unfoldable pub scan_sectors : ℕ → ℕ → List ℕ → Option (ℕ × ℕ)
  unfolding fat16n_read_sectors scan_entries
  scan_sectors zero lba name = none
  scan_sectors (suc n) lba name =
      let rest = scan_sectors n ((lba + 1) % 2 ^ 32) name in
      read_or_none (fat16n_read_sectors lba 1)
        (λ sector. scanned (scan_entries 16 0 sector name) rest)

  unfoldable pub fat16n_find_root_entry : Bpb → List ℕ → Option (ℕ × ℕ)
  unfolding scan_sectors fat16n_root_dir_lba fat16n_root_dir_sector_count
  fat16n_find_root_entry bpb name =
      scan_sectors (fat16n_root_dir_sector_count bpb) (fat16n_root_dir_lba bpb) name

  module _ (bpb : Bpb) (size cluster_bytes : ℕ) where
    abbrev pub chunk_at : ℕ → ℕ
    chunk_at written =
        if ltb size ((written + cluster_bytes) % 2 ^ 32)
        then (size + 2 ^ 32 - written) % 2 ^ 32
        else cluster_bytes

    abbrev pub complete : ℕ → List ℕ → Option (List ℕ)
    complete written held = if ltb written size then none else some held

    -- A cluster has been read; `rest` goes on with the next one. The vector's elements before `written`
    -- are `held`.
    unfoldable pub store_cluster :
        ℕ → ℕ → List ℕ → List ℕ → (ℕ → ℕ → List ℕ → Option (List ℕ)) → Option (List ℕ)
    unfolding fat16n_fat_entry
    store_cluster cluster written held cluster_buf rest =
        let chunk = chunk_at written in
        let written' = (written + chunk) % 2 ^ 32 in
        let held' = held ++ map_list os_make_fixnum (take chunk cluster_buf) in
        let next = fat16n_fat_entry bpb cluster in
        if leb size written'
        then some held'
        else if leb 0xFFF8 next
        then none
        else rest next written' held'

    -- `iters` is the number of rounds up to safety_limit.
    unfoldable pub read_clusters : ℕ → ℕ → ℕ → List ℕ → Option (List ℕ)
    unfolding fat16n_read_sectors fat16n_cluster_to_lba store_cluster
    read_clusters zero cluster written held = complete written held
    read_clusters (suc iters) cluster written held =
        let stored =
          read_or_none
            (fat16n_read_sectors (fat16n_cluster_to_lba bpb cluster) bpb.sectors_per_cluster)
            (λ buf. store_cluster cluster written held buf (read_clusters iters)) in
        if ltb written size then stored else some held

    unfoldable pub read_chain : ℕ → Option (List ℕ)
    unfolding read_clusters
    read_chain start_cluster =
        let safety_limit =
          ((size + cluster_bytes + 2 ^ 32 - 1) % 2 ^ 32 / cluster_bytes + 2) % 2 ^ 32 in
        if cluster_bytes == 0 || ltb max_cluster_bytes cluster_bytes
        then none
        else read_clusters safety_limit start_cluster 0 []

  -- The file of a directory entry; an empty one is nil.
  unfoldable pub read_entry : Bpb → ℕ × ℕ → Option (List ℕ)
  unfolding read_chain
  read_entry bpb (start_cluster, size) =
      let words =
        read_chain bpb size (bpb.sectors_per_cluster * bpb.bytes_per_sector) start_cluster in
      if size == 0 then none else words

  unfoldable pub read_root_file : List ℕ → Option (List ℕ)
  unfolding fat16n_read_bpb fat16n_find_root_entry read_entry
  read_root_file name =
      read_or_none fat16n_read_bpb
        (λ bpb. read_or_none (fat16n_find_root_entry bpb name) (read_entry bpb))

abbrev pub has_slash : List ℕ → Bool
has_slash [] = false
has_slash (c ∷ cs) = (c == slash) || has_slash cs

-- The name of a file in the root directory; there is none in another one.
unfoldable pub root_name : List ℕ → Option (List ℕ)
root_name [] = none
root_name (c ∷ cs) = if c == slash then (if has_slash cs then none else some cs) else none

-- What the Lisp gets: nil is `none`, and a transfer is passed on.
pub data Native : Type 0 where
  vector_or_nil : Option (List ℕ) → Native
  control_transfer : ℕ → Native

-- `handle_of` reads the value of the driver's handle, and `disk_at` the device at an address.
module _ (d : FatDriver) (handle_of : Option d.Handle → DeviceHandle) (disk_at : ℕ → Disk) where
  unfoldable pub read_on_device : Option (ℕ × ℕ) → List ℕ → Option (List ℕ)
  unfolding read_root_file
  read_on_device none name = none
  read_on_device (some (dev, base_lba)) name = read_root_file (disk_at dev) base_lba name

  unfoldable pub with_handle : d.State × Called d.Handle → List ℕ → d.State × Native
  unfolding read_on_device fat16n_resolve_device
  with_handle (s, undefined_function) name = (s, vector_or_nil none)
  with_handle (s, escaped t) name = (s, control_transfer t)
  with_handle (s, returned_nil) name =
      (s, vector_or_nil (read_on_device (fat16n_resolve_device (handle_of none)) name))
  with_handle (s, returned h) name =
      (s, vector_or_nil (read_on_device (fat16n_resolve_device (handle_of (some h))) name))

  abbrev pub with_name : Option (List ℕ) → (List ℕ → d.State × Native) → d.State → d.State × Native
  with_name none next s = (s, vector_or_nil none)
  with_name (some name) next s = next name

  unfoldable pub read_resolved : Option Resolved → d.State → d.State × Native
  unfolding with_handle root_name
  read_resolved none s = (s, vector_or_nil none)
  read_resolved (some r) s = elim r.kind [
    | fat16 ↦ with_name (root_name r.relative) (with_handle (d.device_handle s r.device)) s
    | _ ↦ (s, vector_or_nil none)
  ]

  unfoldable pub cc_read_file_into_vector_native : List Entry → List ℕ → d.State → d.State × Native
  unfolding read_resolved
  cc_read_file_into_vector_native mounts path s =
      read_resolved
        (os_mount_resolve mounts (until_nul (os_string_to_cstr path stream_path_max))
          stream_path_max)
        s
