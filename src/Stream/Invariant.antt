-- ===== src/Stream/Invariant.antt =====
-- The bounds that every operation of src/c/stream.c keeps.
use isiki.Prelude.{
  ℕ, ◌+◌, ◌%◌, ◌^◌, ◌≤◌, ◌<◌, ◌≡◌, refl, ◌⊎◌, inl, inr, Bool, true, false, ◌||◌, Option, none, some,
  List, arith, ltb, ◌==◌, if◌then◌else◌, length, Bool-cases, length-take,
}
use isiki.Stream.Device.{Devices, Called, undefined_function, escaped, returned_nil, returned}
use isiki.Stream.{
  Stream, StreamKind, p9_file_read, p9_file_write, p9_file_io, output_screen, string_input,
  string_output, fat_file_write, fat_file_io, input_keyboard, read_size, write_size,
  is_9p_write_kind, is_fat_write_kind, flush_9p, flush_fat, flushed_fat, refilled_fat, refill_fat,
  flush, next_byte, refill_9p, read_9p, read_fat, read_string, read_kind, read_char, preview_char,
  flush_for_read,
}

-- The next write fits in `write_buf`, the reading position is in `buf_data` or behind it, and the
-- strings are in their buffers.
abbrev pub IsStream : Stream → Type 0
IsStream s =
    (length s.write_buf < write_size)
    × (length s.buf_data ≤ read_size)
    × (s.buf_pos ≤ length s.buf_data)
    × (length s.str_buf ≤ s.str_cap)
    × (s.str_pos ≤ length s.str_buf)

-- The bounds of all but the write buffer.
abbrev pub Rest : Stream → Type 0
Rest s =
    (length s.buf_data ≤ read_size)
    × (s.buf_pos ≤ length s.buf_data)
    × (length s.str_buf ≤ s.str_cap)
    × (s.str_pos ≤ length s.str_buf)

module _ (D : Devices) where
  -- The 9P server sends no more than it is asked for.
  abbrev pub ReadsWithin : Type 0
  ReadsWithin =
      (w : D.State) (fid offset want : ℕ) (bytes : List ℕ)
      → (D.read_chunk w fid offset want).1 ≡ some bytes
      → length bytes ≤ want

  pub flush_9p-IsStream : (w : D.State) (s : Stream) → Rest s → IsStream (flush_9p D w s).1
  unfolding flush_9p
  flush_9p-IsStream w s h = ground arith

  pub flush_fat-IsStream : (w : D.State) (s : Stream) → Rest s → IsStream (flush_fat D w s).1
  unfolding flush_fat flushed_fat
  flush_fat-IsStream w s h = ground arith

  pub flush-IsStream : (w : D.State) (s : Stream) → IsStream s → IsStream (flush D w s).1
  unfolding flush
  flush-IsStream w s h = by_kind s.kind
    where
      by_kind :
          (k : StreamKind)
          → IsStream
              (if is_9p_write_kind k
                then flush_9p D w s
                else if is_fat_write_kind k
                then flush_fat D w s
                else (w, s)).1
      by_kind p9_file_read = h
      by_kind p9_file_write = flush_9p-IsStream w s (h.1, h.2, h.3, h.4)
      by_kind p9_file_io = flush_9p-IsStream w s (h.1, h.2, h.3, h.4)
      by_kind output_screen = h
      by_kind string_input = h
      by_kind string_output = h
      by_kind fat_file_write = flush_fat-IsStream w s (h.1, h.2, h.3, h.4)
      by_kind fat_file_io = flush_fat-IsStream w s (h.1, h.2, h.3, h.4)
      by_kind input_keyboard = h

  refill_9p-IsStream :
      ReadsWithin → (w : D.State) (s : Stream) → IsStream s → IsStream (refill_9p D w s).1
  unfolding refill_9p
  refill_9p-IsStream within w s h =
      by_chunk (D.read_chunk w s.fid s.next_offset read_size).1
        (within w s.fid s.next_offset read_size)
    where
      by_chunk :
          (chunk : Option (List ℕ))
          → ((bytes : List ℕ) → chunk ≡ some bytes → length bytes ≤ read_size)
          → let w' : D.State = (D.read_chunk w s.fid s.next_offset read_size).0 in
            let p : D.State × Stream × Option ℕ = elim chunk [
              | none ↦ (w', record s { error = true }, none)
              | some bytes ↦
                  let s' = record s {
                    buf_data = bytes;
                    buf_pos = 0;
                    next_offset = (s.next_offset + length bytes) % 2 ^ 64;
                  } in
                  if length bytes == 0
                  then (w', record s' { eof = true }, none)
                  else next_byte D w' s'
            ] in
            IsStream p.1
      by_chunk none h' = h
      by_chunk (some bytes) h' = ground (arith, h' bytes refl)

  next_byte-IsStream :
      (w : D.State) (s : Stream)
      → IsStream s
      → (s.buf_pos == length s.buf_data) ≡ false
      → IsStream (next_byte D w s).1
  next_byte-IsStream w s h e = ground arith

  read_9p-IsStream :
      ReadsWithin → (w : D.State) (s : Stream) → IsStream s → IsStream (read_9p D w s).1
  unfolding read_9p
  read_9p-IsStream within w s h = elim (Bool-cases (s.buf_pos == length s.buf_data)) [
    | inl e ↦
        rw (read_9p, e)
          (by_error (flush_for_read D s.kind w s).0 (flush_for_read D s.kind w s).1
            (flush_for_read-IsStream s.kind) (flush_for_read D s.kind w s).1.error)
    | inr e ↦ rw (read_9p, e) (next_byte-IsStream w s h e)
  ]
    where
      flush_for_read-IsStream : (k : StreamKind) → IsStream (flush_for_read D k w s).1
      flush_for_read-IsStream p9_file_read = h
      flush_for_read-IsStream p9_file_write = h
      flush_for_read-IsStream p9_file_io = flush_9p-IsStream w s (h.1, h.2, h.3, h.4)
      flush_for_read-IsStream output_screen = h
      flush_for_read-IsStream string_input = h
      flush_for_read-IsStream string_output = h
      flush_for_read-IsStream fat_file_write = h
      flush_for_read-IsStream fat_file_io = h
      flush_for_read-IsStream input_keyboard = h

      by_error :
          (w₁ : D.State) (s₁ : Stream)
          → IsStream s₁
          → (b : Bool)
          → let p : D.State × Stream × Option ℕ = if b then (w₁, s₁, none) else refill_9p D w₁ s₁ in
            IsStream p.1
      by_error w₁ s₁ h₁ true = h₁
      by_error w₁ s₁ h₁ false = refill_9p-IsStream within w₁ s₁ h₁

  refill_fat-IsStream : (w : D.State) (s : Stream) → IsStream s → IsStream (refill_fat D w s).1
  unfolding refill_fat refilled_fat
  refill_fat-IsStream w s h = by_result (D.read_into w s.mount_file_node s.next_offset read_size).1
    where
      by_result : (r : Called (ℕ × List ℕ)) → IsStream (refilled_fat D s r)
      by_result undefined_function = h
      by_result (escaped transfer) = h
      by_result returned_nil = ground arith
      by_result (returned (n, contents)) =
          ground (arith, length-take (if ltb read_size n then read_size else n) contents)

  read_string-IsStream : (w : D.State) (s : Stream) → IsStream s → IsStream (read_string D w s).1
  unfolding read_string
  read_string-IsStream w s h = ground arith

  read_fat-IsStream : (w : D.State) (s : Stream) → IsStream s → IsStream (read_fat D w s).1
  unfolding read_fat
  read_fat-IsStream w s h = elim (Bool-cases (s.buf_pos == length s.buf_data)) [
    | inl e ↦
        rw (read_fat, e)
          (by_flush (flush_fat D w s).0 (flush_fat D w s).1
            (flush_fat-IsStream w s (h.1, h.2, h.3, h.4)) (flush_fat D w s).1.error)
    | inr e ↦ rw (read_fat, e) (next_byte-IsStream w s h e)
  ]
    where
      by_refill :
          (w₂ : D.State) (s₂ : Stream)
          → IsStream s₂
          → let p : D.State × Stream × Option ℕ =
              if s₂.error || length s₂.buf_data == 0 then (w₂, s₂, none) else next_byte D w₂ s₂ in
            (s₂.buf_pos ≡ 0) ⊎ (s₂.error ≡ true) → IsStream p.1
      by_refill w₂ s₂ h₂ fresh = ground arith

      start :
          (r : Called (ℕ × List ℕ)) (s₁ : Stream)
          → ((refilled_fat D s₁ r).buf_pos ≡ 0) ⊎ ((refilled_fat D s₁ r).error ≡ true)
      start undefined_function s₁ = inr refl
      start (escaped transfer) s₁ = inr refl
      start returned_nil s₁ = inl refl
      start (returned (n, contents)) s₁ = inl refl

      by_flush :
          (w₁ : D.State) (s₁ : Stream)
          → IsStream s₁
          → (b : Bool)
          → let (w₂, s₂) = refill_fat D w₁ s₁ in
            let p : D.State × Stream × Option ℕ =
              if b
              then (w₁, s₁, none)
              else if s₂.error || length s₂.buf_data == 0
              then (w₂, s₂, none)
              else next_byte D w₂ s₂ in
            IsStream p.1
      by_flush w₁ s₁ h₁ true = h₁
      by_flush w₁ s₁ h₁ false =
          by_refill (refill_fat D w₁ s₁).0 (refill_fat D w₁ s₁).1 (refill_fat-IsStream w₁ s₁ h₁)
            (start (D.read_into w₁ s₁.mount_file_node s₁.next_offset read_size).1 s₁)

  read_kind-IsStream :
      ReadsWithin
      → (k : StreamKind) (w : D.State) (s : Stream) → IsStream s
      → IsStream (read_kind D k w s).1
  unfolding read_kind
  read_kind-IsStream within p9_file_read w s h = read_9p-IsStream within w s h
  read_kind-IsStream within p9_file_write w s h = h
  read_kind-IsStream within p9_file_io w s h = read_9p-IsStream within w s h
  read_kind-IsStream within output_screen w s h = h
  read_kind-IsStream within string_input w s h = read_string-IsStream w s h
  read_kind-IsStream within string_output w s h = h
  read_kind-IsStream within fat_file_write w s h = h
  read_kind-IsStream within fat_file_io w s h = read_fat-IsStream w s h
  read_kind-IsStream within input_keyboard w s h = h

  pub read_char-IsStream :
      ReadsWithin → (w : D.State) (s : Stream) → IsStream s → IsStream (read_char D w s).1
  unfolding read_char
  read_char-IsStream within w s h = by_flag (s.closed || s.eof || s.error) s.lookahead
    where
      by_flag :
          (b : Bool) (l : Option ℕ)
          → let p : D.State × Stream × Option ℕ = if b then (w, s, none) else (elim l [
            | some ch ↦ (w, record s { lookahead = none }, some ch)
            | none ↦ read_kind D s.kind w s
          ]) in
            IsStream p.1
      by_flag true l = h
      by_flag false (some ch) = h
      by_flag false none = read_kind-IsStream within s.kind w s h

  pub preview_char-IsStream :
      ReadsWithin → (w : D.State) (s : Stream) → IsStream s → IsStream (preview_char D w s).1
  unfolding preview_char
  preview_char-IsStream within w s h = by_lookahead s.lookahead (read_char D w s).2
    where
      by_lookahead :
          (l r : Option ℕ)
          → let (w', s', _) = read_char D w s in
            let p : D.State × Stream × Option ℕ = elim l [
              | some ch ↦ (w, s, some ch)
              | none ↦ elim r [
                | some ch ↦ (w', record s' { lookahead = some ch }, some ch)
                | none ↦ (w', s', none)
              ]
            ] in
            IsStream p.1
      by_lookahead (some ch) r = h
      by_lookahead none (some ch) = read_char-IsStream within w s h
      by_lookahead none none = read_char-IsStream within w s h
