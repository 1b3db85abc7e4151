-- ===== src/Mount/Fat16/Reads.antt =====
-- A file of a FAT16 directory entry, as src/c/mount.c reads it.
use isiki.Prelude.{
  ℕ, ◌+◌, ◌-◌, ◌*◌, ◌/◌, ◌%◌, ◌^◌, ◌≤◌, ◌<◌, ◌≡◌, ◌↔◌, refl, sym, ap, ◌∙◌, false, ◌||◌, some, List,
  [], arith, ltb, ◌==◌,
}
use native.Mathlib.Nat.{div-add-mod, mod-lt, mul-le-mul_left}
use isiki.Fixnum.{os_make_fixnum}
use isiki.Mount.Files.{map_list}
use isiki.Mount.Fat16.{Disk, Bpb, max_cluster_bytes, read_clusters, read_chain, read_entry}
use isiki.Mount.Fat16.Chain.{Chain, read_clusters-reads, read_clusters-only}

abbrev limit : ℕ → ℕ → ℕ
limit size cb = ((size + cb + 2 ^ 32 - 1) % 2 ^ 32 / cb + 2) % 2 ^ 32

-- The limit of the rounds is not below what the file needs.
rounds_enough : (size cb : ℕ) → 1 < cb → size + cb ≤ 2 ^ 32 → size ≤ limit size cb * cb
rounds_enough size cb h small =
    enough ((size + cb + 2 ^ 32 - 1) % 2 ^ 32 / cb) ((size + cb + 2 ^ 32 - 1) % 2 ^ 32 % cb)
      (omega (arith, div-add-mod ((size + cb + 2 ^ 32 - 1) % 2 ^ 32) cb))
      (mod-lt ((size + cb + 2 ^ 32 - 1) % 2 ^ 32) (omega arith))
  where
    spread : (q : ℕ) → (q + 2) * cb ≡ cb * q + 2 * cb
    spread q = omega arith

    enough : (q r : ℕ) → cb * q + r + 1 ≡ size + cb → r < cb → size ≤ (q + 2) % 2 ^ 32 * cb
    enough q r e f =
        let few : (q + 2) % 2 ^ 32 ≡ q + 2 = omega (arith, mul-le-mul_left q h) in
        rw few (omega (arith, spread q))

read_chain-clusters :
    (dev : Disk) (base_lba : ℕ) (bpb : Bpb) (start_cluster size cb : ℕ)
    → 0 < cb
    → cb ≤ max_cluster_bytes
    → read_chain dev base_lba bpb size cb start_cluster
      ≡ read_clusters dev base_lba bpb size cb (limit size cb) start_cluster 0 []
unfolding read_chain
read_chain-clusters dev base_lba bpb start_cluster size cb h k = rw supported refl
  where
    supported : (cb == 0 || ltb max_cluster_bytes cb) ≡ false
    supported = ground arith

read_entry-clusters :
    (dev : Disk) (base_lba : ℕ) (bpb : Bpb) (start_cluster size : ℕ)
    → bpb.bytes_per_sector ≡ 512
    → 0 < size
    → read_entry dev base_lba bpb (start_cluster, size)
      ≡ read_chain dev base_lba bpb size (bpb.sectors_per_cluster * 512) start_cluster
unfolding read_entry
read_entry-clusters dev base_lba bpb start_cluster size sector h =
    rw (sector, not_empty size h) refl
  where
    not_empty : (n : ℕ) → 0 < n → (n == 0) ≡ false
    not_empty n k = ground arith

-- The file of a directory entry that is not empty, in clusters of at most 32 KiB: what is read is a
-- vector of fixnums exactly if a chain of clusters holds the file, and its elements are the bytes that
-- the chain holds; the limit of the rounds cuts no file off. The size is at most 2^32 less a cluster.
pub read_entry-Chain :
    (dev : Disk) (base_lba : ℕ) (bpb : Bpb) (start_cluster size : ℕ)
    → bpb.bytes_per_sector ≡ 512
    → 0 < bpb.sectors_per_cluster
    → bpb.sectors_per_cluster * 512 ≤ max_cluster_bytes
    → 0 < size
    → size + bpb.sectors_per_cluster * 512 ≤ 2 ^ 32
    → (words : List ℕ)
    → (read_entry dev base_lba bpb (start_cluster, size) ≡ some words) ↔ (
        (bytes : List ℕ) × Chain dev base_lba bpb
          (bpb.sectors_per_cluster * 512)
          start_cluster
          size
          bytes
        × (words ≡ map_list os_make_fixnum bytes))
read_entry-Chain dev base_lba bpb start_cluster size sector some_sectors short some_bytes small
      words =
    (
      (λ found.
          read_clusters-only dev base_lba bpb size cb (omega arith) small (limit size cb)
            start_cluster 0 size [] words (omega arith) some_bytes (sym at_loop ∙ found)),
      (λ chained.
          let (bytes, chain, same) = chained in
          at_loop
          ∙ read_clusters-reads dev base_lba bpb size cb (omega arith) small (limit size cb)
              start_cluster 0 size [] bytes (omega arith)
              (rounds_enough size cb (omega arith) small) chain
          ∙ ap (λ (t : List ℕ). some t) (sym same)),
    )
  where
    cb : ℕ
    cb = bpb.sectors_per_cluster * 512

    at_loop :
        read_entry dev base_lba bpb (start_cluster, size)
        ≡ read_clusters dev base_lba bpb size cb (limit size cb) start_cluster 0 []
    at_loop =
        read_entry-clusters dev base_lba bpb start_cluster size sector some_bytes
        ∙ read_chain-clusters dev base_lba bpb start_cluster size cb (omega arith) short
