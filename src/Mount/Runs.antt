-- ===== src/Mount/Runs.antt =====
-- Runs of src/c/mount.c on a short mount list, small drivers and a small disk.
use isiki.Prelude.{
  ℕ, zero, suc, ◌<◌, ◌≡◌, ◌↔◌, refl, sym, ap, ◌∙◌, inr, arith, true, false, Option, none, some,
  List, [], ◌∷◌, All, length, replicate, All-replicate, codes,
}
use isiki.Fixnum.{os_make_fixnum, os_fixnum_magnitude}
use isiki.Stream.Device.{Called, undefined_function, escaped, returned_nil, returned}
use isiki.Mount.{
  fat32, fat16, fat32_symbol, fat16_symbol, other_symbol, Entry, entry, resolved, os_string_to_cstr,
  match_loop, match_end, mount_path_match_len, try_path, try_kind, try_entry, try_entries, try_9p,
  resolve_best, os_mount_resolve,
}
use isiki.Mount.Driver.{FatDriver}
use isiki.Mount.Resolve.{IsResolved, os_mount_resolve-IsResolved}
use isiki.Mount.Files.{
  done, byte_of_word, map_list, bytes_vector, os_mount_fat_read_file, os_mount_fat_write_file,
  os_mount_fat_resolve_file_node, os_mount_fat_file_size,
}
use isiki.Mount.Transfers.{LogsCalls, Reports, calls-Reports}
use isiki.Mount.Stored.{map_list-bytes, Stores, read_file-write_file}
use isiki.Mount.Fat16.{
  Disk, Bpb, fat16n_read_sectors, fat16n_find_root_entry, fat16n_root_dir_lba,
  fat16n_root_dir_sector_count, read_entry,
}
use isiki.Mount.Fat16.Chain.{Chain}
use isiki.Mount.Fat16.Reads.{read_entry-Chain}
use isiki.Mount.Fat16.Slots.{DirFile, IsDirFile, Slot, file, deleted, unused, IsSlot, all_bytes}
use isiki.Mount.Fat16.Directory.{concat, Finds, Holds, no_more, sector, find_root_entry-Finds}

abbrev mounts : List Entry
mounts =
    entry (codes "/") 8 fat32_symbol
    ∷ entry (codes "/mnt") 9 fat16_symbol
    ∷ entry (codes "/mnt/x") 10 other_symbol
    ∷ []

deep_path :
    os_mount_resolve mounts (codes "/mnt/x/y") 5 ≡ some (resolved fat16 (codes "/x/y") (some 9))
unfolding os_mount_resolve try_entries try_entry try_kind try_path try_9p mount_path_match_len
    match_loop match_end os_string_to_cstr resolve_best
deep_path = refl

root_path :
    os_mount_resolve mounts (codes "/mnt2") 256 ≡ some (resolved fat32 (codes "/mnt2") (some 8))
unfolding os_mount_resolve try_entries try_entry try_kind try_path try_9p mount_path_match_len
    match_loop match_end os_string_to_cstr resolve_best
root_path = refl

os_mount_resolve-IsResolved_example :
    IsResolved mounts (codes "/mnt/x/y") 5 (os_mount_resolve mounts (codes "/mnt/x/y") 5)
os_mount_resolve-IsResolved_example = os_mount_resolve-IsResolved mounts (codes "/mnt/x/y") 5

-- A driver with a log of its calls: control leaves a write, and no other call.
abbrev leaving : FatDriver
leaving = record {
  State = List (Option ℕ);
  Handle = ℕ;
  device_handle = λ s v. (none ∷ s, returned 0);
  read_file = λ k s h p. (none ∷ s, returned_nil);
  write_file = λ k s h p bytes. (some 77 ∷ s, escaped 77);
  create_file = λ k s h p bytes. (s, undefined_function);
  resolve_node = λ k s h p. (none ∷ s, returned 5);
  file_size = λ k s h p. (none ∷ s, returned 160);
}

leaving-LogsCalls : LogsCalls leaving (λ s. s)
leaving-LogsCalls = record {
  device_handle = λ s v. refl;
  read_file = λ k s h p. refl;
  write_file = λ k s h p bytes. refl;
  create_file = λ k s h p bytes. refl;
  resolve_node = λ k s h p. refl;
  file_size = λ k s h p. refl;
}

calls-Reports_example :
    Reports leaving (λ s. s) [] (os_mount_fat_read_file leaving fat16 (some 9) (codes "/A") [])
    × Reports leaving
        (λ s. s)
        []
        (os_mount_fat_write_file leaving fat16 (some 9) (codes "/A") (1 ∷ []) [])
    × Reports leaving
        (λ s. s)
        []
        (os_mount_fat_resolve_file_node leaving fat16 (some 9) (codes "/A") true false [])
    × Reports leaving (λ s. s) [] (os_mount_fat_file_size leaving fat16 (some 9) (codes "/A") [])
calls-Reports_example =
    calls-Reports leaving (λ s. s) leaving-LogsCalls fat16 (some 9) (codes "/A") (1 ∷ []) true false
      []

abbrev of_bytes : List ℕ → Called (List ℕ)
of_bytes [] = returned_nil
of_bytes (b ∷ bytes) = returned (bytes_vector (b ∷ bytes))

-- A driver with one file, a byte for each element of a vector as src/lisp/fat16.lisp has it; the file must
-- be created before it can be written.
abbrev keeping : FatDriver
keeping = record {
  State = List ℕ;
  Handle = ℕ;
  device_handle = λ s v. (s, returned 3);
  read_file = λ k s h p. (s, of_bytes s);
  write_file = λ k s h p words. (s, returned_nil);
  create_file = λ k s h p words. (map_list byte_of_word words, returned tt);
  resolve_node = λ k s h p. (s, returned_nil);
  file_size = λ k s h p. (s, returned_nil);
}

keeping-Stores : Stores keeping fat32 (some 8) (codes "/A")
unfolding bytes_vector
keeping-Stores = record {
  handle = 3;
  opens = λ s. refl;
  writes = λ s s' bytes bounded some_bytes small e. absurd (no_write (ap (λ r. r.1) e));
  creates = λ s s' bytes bounded some_bytes small e.
      created bytes s' some_bytes (sym (map_list-bytes bytes bounded) ∙ ap (λ r. r.0) e);
}
  where
    no_write : ◌≡◌ {A = Called (Unit {0})} returned_nil (returned tt) → ⊥
    no_write e = cc

    created :
        (bytes s' : List ℕ)
        → 0 < length bytes
        → bytes ≡ s'
        → ◌≡◌ {A = Called (List ℕ)} (of_bytes s') (returned (bytes_vector bytes))
    created [] s' h e = absurd (omega arith)
    created (b ∷ bytes) s' h e = ap of_bytes (sym e)

read_file-write_file_example :
    (os_mount_fat_read_file keeping fat32 (some 8) (codes "/A") (codes "hi")).1 ≡ done (codes "hi")
unfolding os_mount_fat_write_file os_fixnum_magnitude os_make_fixnum
read_file-write_file_example =
    read_file-write_file keeping fat32 (some 8) (codes "/A") (codes "hi") [] (codes "hi")
      keeping-Stores (omega arith) (omega arith) (omega arith) refl

abbrev hello : DirFile
hello = record {
  stem = codes "HELLO";
  ext = codes "TXT";
  middle = replicate 15 0;
  cluster = 2;
  size = 3;
}

hello-IsDirFile : IsDirFile hello
hello-IsDirFile = record {
  some_stem = omega arith;
  stem_short = omega arith;
  ext_short = omega arith;
  stem_trimmed = inr (codes "HELL", 79, refl, refl);
  ext_trimmed = inr (codes "TX", 84, refl, refl);
  stem_bytes = (refl, (refl, (refl, (refl, (refl, tt)))));
  ext_bytes = (refl, (refl, (refl, tt)));
  live = refl;
  middle_size = refl;
  cluster_small = omega arith;
  size_small = omega arith;
}

abbrev root_slots : List Slot
root_slots = deleted (replicate 31 65) ∷ file hello ∷ replicate 14 (unused (replicate 31 0))

-- The directory at sector 2, and the first cluster at sector 3.
abbrev sectors_at : ℕ → Option (List ℕ)
sectors_at zero = none
sectors_at (suc zero) = none
sectors_at (suc (suc zero)) = some (all_bytes root_slots)
sectors_at (suc (suc (suc n))) = some (codes "abcdef")

abbrev small_disk : Disk
small_disk = record { read_sectors = λ lba count. sectors_at lba }

abbrev small_bpb : Bpb
small_bpb = record {
  bytes_per_sector = 512;
  sectors_per_cluster = 1;
  reserved_sectors = 1;
  num_fats = 1;
  root_entry_count = 16;
  sectors_per_fat = 1;
}

root-Holds : Holds small_disk 0 (fat16n_root_dir_lba small_bpb) (root_slots ∷ [])
unfolding fat16n_root_dir_lba fat16n_read_sectors
root-Holds = sector refl refl all_slots no_more
  where
    all_slots : All IsSlot root_slots
    all_slots = (refl, (hello-IsDirFile, All-replicate IsSlot 14 (unused (replicate 31 0)) refl))

find_root_entry-Finds_example :
    Finds
      (codes "HELLO.TXT")
      (concat (root_slots ∷ []))
      (fat16n_find_root_entry small_disk 0 small_bpb (codes "HELLO.TXT"))
unfolding fat16n_root_dir_sector_count
find_root_entry-Finds_example =
    find_root_entry-Finds small_disk 0 small_bpb (codes "HELLO.TXT") (root_slots ∷ []) root-Holds
      refl

hello_bytes :
    read_entry small_disk 0 small_bpb (2, 3) ≡ some (map_list os_make_fixnum (codes "abc"))
unfolding read_entry
hello_bytes = refl

read_entry-Chain_example :
    (read_entry small_disk 0 small_bpb (2, 3) ≡ some (map_list os_make_fixnum (codes "abc"))) ↔ (
      (bytes : List ℕ) × Chain small_disk 0 small_bpb 512 2 3 bytes
      × (map_list os_make_fixnum (codes "abc") ≡ map_list os_make_fixnum bytes))
read_entry-Chain_example =
    read_entry-Chain small_disk 0 small_bpb 2 3 refl (omega arith) (omega arith) (omega arith)
      (omega arith) (map_list os_make_fixnum (codes "abc"))
