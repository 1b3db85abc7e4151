-- ===== src/Stream/Transfer.antt =====
-- Control that leaves WRITE-FROM! or READ-INTO! in the middle of a call of src/c/stream.c.
use isiki.Prelude.{
  ℕ, ◌<◌, ◌≡◌, refl, ap, Bool, true, false, ◌||◌, none, some, arith, ◌==◌, if◌then◌else◌, length,
}
use isiki.Stream.Device.{Devices, escaped}
use isiki.Stream.{
  Stream, read_size, flush_fat, flushed_fat, refill_fat, refilled_fat, take_transfer, read_char,
  read_kind,
}

-- The stream fails from now on, and gives the transfer t out once.
pub record Escaped (D : Devices) (s s' : Stream) (t : ℕ) : Type 0 where
  pub same_offset : s'.next_offset ≡ s.next_offset
  pub once : (take_transfer s').1 ≡ some t
  pub never_again : (take_transfer (take_transfer s').0).1 ≡ none
  pub reads_fail :
      (w : D.State) → read_char D w (take_transfer s').0 ≡ (w, (take_transfer s').0, none)

module _ (D : Devices) where
  fails : (w : D.State) (s : Stream) → s.error ≡ true → read_char D w s ≡ (w, s, none)
  unfolding read_char
  fails w s e =
      ap
        (λ (b : Bool). if b then (w, s, none) else (elim s.lookahead [
          | some ch ↦ (w, record s { lookahead = none }, some ch)
          | none ↦ read_kind D s.kind w s
        ]))
        (flags s.closed s.eof s.error e)
    where
      flags : (a b c : Bool) → c ≡ true → a || b || c ≡ true
      flags a b c e = ground arith

  -- If control leaves WRITE-FROM! while bytes are flushed, or READ-INTO! while bytes are fetched, the
  -- offset stays, the transfer is given out once, and every later read fails.
  pub transfers-Escaped :
      (w : D.State) (s : Stream) (t : ℕ)
      → (0 < length s.write_buf
          → (D.write_from w s.mount_file_node s.next_offset s.write_buf).1 ≡ escaped t
          → Escaped D s (flush_fat D w s).1 t)
        × ((D.read_into w s.mount_file_node s.next_offset read_size).1 ≡ escaped t
            → Escaped D s (refill_fat D w s).1 t)
  unfolding flush_fat flushed_fat refill_fat refilled_fat take_transfer
  transfers-Escaped w s t = (
    (λ p e.
        rw (flush_fat, not_empty (length s.write_buf) p, e, flushed_fat)
          (record {
            same_offset = refl;
            once = refl;
            never_again = refl;
            reads_fail = λ w'. fails w' _ refl;
          })),
    (λ e.
        rw (refill_fat, e, refilled_fat)
          (record {
            same_offset = refl;
            once = refl;
            never_again = refl;
            reads_fail = λ w'. fails w' _ refl;
          })),
  )
    where
      not_empty : (n : ℕ) → 0 < n → (n == 0) ≡ false
      not_empty n p = ground arith
