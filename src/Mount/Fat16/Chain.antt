-- ===== src/Mount/Fat16/Chain.antt =====
-- The loop of cc_read_file_into_vector_native in src/c/mount.c: a chain of clusters, read into a vector.
use isiki.Prelude.{
  ℕ, zero, suc, ◌+◌, ◌-◌, ◌*◌, ◌%◌, ◌^◌, ◌≤◌, ◌<◌, ◌≡◌, inl, inr, refl, sym, ap, ◌∙◌, true, false,
  Option, none, some, List, [], ◌∷◌, ◌++◌, arith, ltb, leb, leb→le, leb→gt, if◌then◌else◌,
  Bool-cases, Option-cases, take,
}
use mathlib.Core.List.{append_assoc}
use isiki.Fixnum.{os_make_fixnum}
use isiki.Mount.Files.{map_list}
use isiki.Mount.Fat16.{
  Disk, Bpb, fat16n_read_sectors, fat16n_cluster_to_lba, fat16n_fat_entry, read_or_none, chunk_at,
  complete, store_cluster, read_clusters,
}

map_list-append :
    (f : ℕ → ℕ) (xs ys : List ℕ) → map_list f (xs ++ ys) ≡ map_list f xs ++ map_list f ys
map_list-append f [] ys = refl
map_list-append f (x ∷ xs) ys = ap (λ (t : List ℕ). f x ∷ t) (map_list-append f xs ys)

none-some : {a : List ℕ} → none ≡ some a → ⊥
none-some e = cc

some-some : {a b : List ℕ} → some a ≡ some b → a ≡ b
some-some e = cc

module _ (dev : Disk) (base_lba : ℕ) (bpb : Bpb) where
  abbrev pub read_cluster : ℕ → Option (List ℕ)
  read_cluster c =
      fat16n_read_sectors dev base_lba (fat16n_cluster_to_lba bpb c) bpb.sectors_per_cluster

  -- The clusters from one on hold the bytes of a file of which `left` are left: the file allocation
  -- table leads from each to the next, and what is behind the end of the file is cut off.
  pub data Chain (cluster_bytes : ℕ) : ℕ → ℕ → List ℕ → Type 0 where
    last :
        {c left : ℕ} {buf : List ℕ}
        → read_cluster c ≡ some buf
        → 0 < left
        → left ≤ cluster_bytes
        → Chain cluster_bytes c left (take left buf)
    more :
        {c left : ℕ} {buf bytes : List ℕ}
        → read_cluster c ≡ some buf
        → cluster_bytes < left
        → fat16n_fat_entry dev base_lba bpb c < 0xFFF8
        → Chain cluster_bytes (fat16n_fat_entry dev base_lba bpb c) (left - cluster_bytes) bytes
        → Chain cluster_bytes c left (take cluster_bytes buf ++ bytes)

  module _ (size cb : ℕ) (some_bytes : 0 < cb) (no_wrap : size + cb ≤ 2 ^ 32) where
    abbrev kept : List ℕ → List ℕ → List ℕ
    kept held bytes = held ++ map_list os_make_fixnum bytes

    chunk_at-last :
        (written left : ℕ)
        → left + written ≡ size
        → 0 < left
        → left ≤ cb
        → chunk_at dev base_lba bpb size cb written ≡ left
    chunk_at-last written left e pos h = ground arith

    chunk_at-more :
        (written left : ℕ)
        → left + written ≡ size
        → cb < left
        → chunk_at dev base_lba bpb size cb written ≡ cb
    chunk_at-more written left e h = ground arith

    store_cluster-last :
        (c written left : ℕ) (held buf : List ℕ) (rest : ℕ → ℕ → List ℕ → Option (List ℕ))
        → left + written ≡ size
        → 0 < left
        → left ≤ cb
        → store_cluster dev base_lba bpb size cb c written held buf rest
          ≡ some (kept held (take left buf))
    unfolding store_cluster
    store_cluster-last c written left held buf rest e pos h =
        rw (chunk_at-last written left e pos h, all_written) refl
      where
        all_written : leb size ((written + left) % 2 ^ 32) ≡ true
        all_written = ground arith

    abbrev go_on : (ℕ → ℕ → List ℕ → Option (List ℕ)) → ℕ → ℕ → List ℕ → Option (List ℕ)
    go_on rest next written held = if leb 0xFFF8 next then none else rest next written held

    store_cluster-more :
        (c written left : ℕ) (held buf : List ℕ) (rest : ℕ → ℕ → List ℕ → Option (List ℕ))
        → left + written ≡ size
        → cb < left
        → store_cluster dev base_lba bpb size cb c written held buf rest
          ≡ go_on rest
              (fat16n_fat_entry dev base_lba bpb c)
              (written + cb)
              (kept held (take cb buf))
    unfolding store_cluster
    store_cluster-more c written left held buf rest e h =
        rw (chunk_at-more written left e h, all_written, small) refl
      where
        small : (written + cb) % 2 ^ 32 ≡ written + cb
        small = omega arith

        all_written : leb size ((written + cb) % 2 ^ 32) ≡ false
        all_written = ground arith

    -- A round with bytes left.
    abbrev round :
        ℕ → ℕ → List ℕ → (ℕ → ℕ → List ℕ → Option (List ℕ)) → Option (List ℕ) → Option (List ℕ)
    round c written held rest cluster =
        read_or_none cluster (λ buf. store_cluster dev base_lba bpb size cb c written held buf rest)

    read_clusters-round :
        (iters c written left : ℕ) (held : List ℕ)
        → left + written ≡ size
        → 0 < left
        → read_clusters dev base_lba bpb size cb (suc iters) c written held
          ≡ round c written held (read_clusters dev base_lba bpb size cb iters) (read_cluster c)
    unfolding read_clusters
    read_clusters-round iters c written left held e pos = rw more_left refl
      where
        more_left : ltb written size ≡ true
        more_left = ground arith

    kept-kept : (held a b : List ℕ) → kept (kept held a) b ≡ kept held (a ++ b)
    kept-kept held a b =
        append_assoc held (map_list os_make_fixnum a) (map_list os_make_fixnum b)
        ∙ ap (λ (t : List ℕ). held ++ t) (sym (map_list-append os_make_fixnum a b))

    not_last : (next : ℕ) → next < 0xFFF8 → leb 0xFFF8 next ≡ false
    not_last next h = ground arith

    suc_mul : (iters : ℕ) → suc iters * cb ≡ cb + iters * cb
    suc_mul iters = omega arith

    -- With rounds enough, what the chain holds is read.
    pub read_clusters-reads :
        (iters c written left : ℕ) (held bytes : List ℕ)
        → left + written ≡ size
        → left ≤ iters * cb
        → Chain cb c left bytes
        → read_clusters dev base_lba bpb size cb iters c written held ≡ some (kept held bytes)
    read_clusters-reads zero c written left held bytes e enough (last {buf = buf} r pos h) =
        absurd (omega arith)
    read_clusters-reads zero c written left held bytes e enough (more {buf = buf} r h f chain) =
        absurd (omega arith)
    read_clusters-reads (suc iters) c written left held _ e enough (last {buf = buf} r pos h) =
        read_clusters-round iters c written left held e pos
        ∙ ap (round c written held (read_clusters dev base_lba bpb size cb iters)) r
        ∙ store_cluster-last c written left held buf _ e pos h
    read_clusters-reads (suc iters) c written left held _ e enough
          (more {buf = buf} {bytes = bytes} r h f chain) =
        read_clusters-round iters c written left held e (omega arith)
        ∙ ap (round c written held (read_clusters dev base_lba bpb size cb iters)) r
        ∙ store_cluster-more c written left held buf _ e h
        ∙ rw (not_last (fat16n_fat_entry dev base_lba bpb c) f) (
            read_clusters-reads iters (fat16n_fat_entry dev base_lba bpb c) (written + cb)
              (left - cb) (kept held (take cb buf)) bytes (omega arith)
              (omega (arith, suc_mul iters)) chain)
        ∙ ap (λ (t : List ℕ). some t) (kept-kept held (take cb buf) bytes)

    -- What is read is what a chain holds.
    pub read_clusters-only :
        (iters c written left : ℕ) (held words : List ℕ)
        → left + written ≡ size
        → 0 < left
        → read_clusters dev base_lba bpb size cb iters c written held ≡ some words
        → (bytes : List ℕ) × Chain cb c left bytes × (words ≡ kept held bytes)
    unfolding read_clusters
    read_clusters-only zero c written left held words e pos found = absurd (cut_off found)
      where
        unfinished : ltb written size ≡ true
        unfinished = ground arith

        cut_off : complete dev base_lba bpb size cb written held ≡ some words → ⊥
        cut_off f = none-some (rw unfinished at f)
    read_clusters-only (suc iters) c written left held words e pos found =
        elim (Option-cases (read_cluster c)) [
          | inl r ↦ absurd (none-some (sym (ap round_on r) ∙ at_round))
          | inr (buf, r) ↦
              let stored : store_cluster dev base_lba bpb size cb c written held buf rest
                  ≡ some words =
                sym (ap round_on r) ∙ at_round in
              elim (Bool-cases (leb left cb)) [
                | inl h ↦ (
                  take left buf,
                  last r pos (leb→le left cb h),
                  some-some (
                      sym stored
                      ∙ store_cluster-last c written left held buf rest e pos (leb→le left cb h)),
                )
                | inr h ↦
                    let going : go_on rest next (written + cb) (kept held (take cb buf))
                        ≡ some words =
                      sym (store_cluster-more c written left held buf rest e (leb→gt left cb h))
                      ∙ stored in
                    elim (Bool-cases (leb 0xFFF8 next)) [
                      | inl f ↦ absurd (none-some (rw f at going))
                      | inr f ↦
                          let (bytes, chain, same) =
                            read_clusters-only iters next (written + cb) (left - cb)
                              (kept held (take cb buf)) words (rest_size (leb→gt left cb h))
                              (rest_left (leb→gt left cb h)) (rw f at going) in
                          (
                            take cb buf ++ bytes,
                            more r (leb→gt left cb h) (leb→gt 0xFFF8 next f) chain,
                            same ∙ kept-kept held (take cb buf) bytes,
                          )
                    ]
              ]
        ]
      where
        rest_size : cb < left → left - cb + (written + cb) ≡ size
        rest_size h = omega arith

        rest_left : cb < left → 0 < left - cb
        rest_left h = omega arith

        next : ℕ
        next = fat16n_fat_entry dev base_lba bpb c

        rest : ℕ → ℕ → List ℕ → Option (List ℕ)
        rest = read_clusters dev base_lba bpb size cb iters

        round_on : Option (List ℕ) → Option (List ℕ)
        round_on = round c written held rest

        at_round : round_on (read_cluster c) ≡ some words
        at_round = sym (read_clusters-round iters c written left held e pos) ∙ found
