-- ===== src/Stream/Bounds.antt =====
-- The bounds on the written side of src/c/stream.c, and on all operations together.
use isiki.Prelude.{
  ℕ, ◌≡◌, refl, ap, ◌∙◌, inl, inr, Bool, true, false, [], ◌∷◌, ◌++◌, arith, ◌==◌, ◌||◌, ==→ne,
  if◌then◌else◌, length, Bool-cases, length-append,
}
use isiki.Stream.Device.{Devices}
use isiki.Stream.{
  Stream, StreamKind, p9_file_read, p9_file_write, p9_file_io, output_screen, string_input,
  string_output, fat_file_write, fat_file_io, input_keyboard, write_size, is_9p_write_kind,
  is_fat_write_kind, flush_9p, flush_fat, flush, read_char, preview_char, buffer_char, forget_read,
  write_kind, write_char, finish_output, close_stream, advance_column,
}
use isiki.Stream.Invariant.{
  IsStream, ReadsWithin, flush_9p-IsStream, flush_fat-IsStream, flush-IsStream, read_char-IsStream,
  preview_char-IsStream,
}

module _ (D : Devices) where
  -- A byte more in the buffer, before the flush.
  abbrev held : Stream → ℕ → Stream
  held s ch = record s { write_buf = s.write_buf ++ (ch ∷ []) }

  held-flushed :
      (f : D.State → Stream → D.State × Stream) (w : D.State) (s : Stream) (ch : ℕ)
      → IsStream s
      → IsStream (f w (held s ch)).1
      → let p : D.State × Stream =
          if length (held s ch).write_buf == write_size then f w (held s ch) else (w, held s ch) in
        IsStream (advance_column p.1 ch)
  unfolding advance_column
  held-flushed f w s ch h k = elim (Bool-cases (length (held s ch).write_buf == write_size)) [
    | inl e ↦ rw (e) k
    | inr e ↦ rw (e) (
      omega (
        arith,
        length-append s.write_buf (ch ∷ []),
        ==→ne (length (held s ch).write_buf) write_size e,
      ),
      h.1,
      h.2,
      h.3,
      h.4,
    )
  ]

  flush_write_kind-IsStream :
      (k : StreamKind) (w : D.State) (s : Stream) (ch : ℕ)
      → is_9p_write_kind k || is_fat_write_kind k ≡ true
      → IsStream s
      → IsStream
          (if is_9p_write_kind k
            then flush_9p D w (held s ch)
            else if is_fat_write_kind k
            then flush_fat D w (held s ch)
            else (w, held s ch)).1
  flush_write_kind-IsStream p9_file_read w s ch e h = absurd (ground arith)
  flush_write_kind-IsStream p9_file_write w s ch e h =
      flush_9p-IsStream D w (held s ch) (h.1, h.2, h.3, h.4)
  flush_write_kind-IsStream p9_file_io w s ch e h =
      flush_9p-IsStream D w (held s ch) (h.1, h.2, h.3, h.4)
  flush_write_kind-IsStream output_screen w s ch e h = absurd (ground arith)
  flush_write_kind-IsStream string_input w s ch e h = absurd (ground arith)
  flush_write_kind-IsStream string_output w s ch e h = absurd (ground arith)
  flush_write_kind-IsStream fat_file_write w s ch e h =
      flush_fat-IsStream D w (held s ch) (h.1, h.2, h.3, h.4)
  flush_write_kind-IsStream fat_file_io w s ch e h =
      flush_fat-IsStream D w (held s ch) (h.1, h.2, h.3, h.4)
  flush_write_kind-IsStream input_keyboard w s ch e h = absurd (ground arith)

  forget_read-IsStream : (k : StreamKind) (s : Stream) → IsStream s → IsStream (forget_read D k s)
  forget_read-IsStream p9_file_read s h = h
  forget_read-IsStream p9_file_write s h = h
  forget_read-IsStream p9_file_io s h = (h.0, omega arith, omega arith, h.3, h.4)
  forget_read-IsStream output_screen s h = h
  forget_read-IsStream string_input s h = h
  forget_read-IsStream string_output s h = h
  forget_read-IsStream fat_file_write s h = h
  forget_read-IsStream fat_file_io s h = (h.0, omega arith, omega arith, h.3, h.4)
  forget_read-IsStream input_keyboard s h = h

  forget_read-kind : (k : StreamKind) (s : Stream) → (forget_read D k s).kind ≡ s.kind
  forget_read-kind p9_file_read s = refl
  forget_read-kind p9_file_write s = refl
  forget_read-kind p9_file_io s = refl
  forget_read-kind output_screen s = refl
  forget_read-kind string_input s = refl
  forget_read-kind string_output s = refl
  forget_read-kind fat_file_write s = refl
  forget_read-kind fat_file_io s = refl
  forget_read-kind input_keyboard s = refl

  buffer_char-IsStream :
      (w : D.State) (s : Stream) (ch : ℕ)
      → is_9p_write_kind s.kind || is_fat_write_kind s.kind ≡ true
      → IsStream s
      → IsStream (buffer_char D w s ch).1
  unfolding buffer_char flush
  buffer_char-IsStream w s ch e h =
      let s₁ : Stream = forget_read D s.kind s in
      let h₁ : IsStream s₁ = forget_read-IsStream s.kind s h in
      held-flushed (flush D) w s₁ ch h₁ (
        flush_write_kind-IsStream s₁.kind w s₁ ch
          (ap (λ (k : StreamKind). is_9p_write_kind k || is_fat_write_kind k)
              (forget_read-kind s.kind s)
            ∙ e)
          h₁)

  write_kind-IsStream :
      (w : D.State) (s : Stream) (ch : ℕ) (k : StreamKind)
      → s.kind ≡ k
      → IsStream s
      → IsStream (write_kind D k w s ch).1
  unfolding write_kind advance_column
  write_kind-IsStream w s ch p9_file_read e h = h
  write_kind-IsStream w s ch p9_file_write e h =
      buffer_char-IsStream w s ch
        (ap (λ (k : StreamKind). is_9p_write_kind k || is_fat_write_kind k) e) h
  write_kind-IsStream w s ch p9_file_io e h =
      buffer_char-IsStream w s ch
        (ap (λ (k : StreamKind). is_9p_write_kind k || is_fat_write_kind k) e) h
  write_kind-IsStream w s ch output_screen e h = h
  write_kind-IsStream w s ch string_input e h = h
  write_kind-IsStream w s ch string_output e h = ground (arith, length-append s.str_buf (ch ∷ []))
  write_kind-IsStream w s ch fat_file_write e h =
      buffer_char-IsStream w s ch
        (ap (λ (k : StreamKind). is_9p_write_kind k || is_fat_write_kind k) e) h
  write_kind-IsStream w s ch fat_file_io e h =
      buffer_char-IsStream w s ch
        (ap (λ (k : StreamKind). is_9p_write_kind k || is_fat_write_kind k) e) h
  write_kind-IsStream w s ch input_keyboard e h = h

  write_char-IsStream :
      (w : D.State) (s : Stream) (ch : ℕ) → IsStream s → IsStream (write_char D w s ch).1
  unfolding write_char
  write_char-IsStream w s ch h = by_flag s.closed
    where
      by_flag :
          (b : Bool)
          → let p : D.State × Stream × Bool =
              if b then (w, s, false) else write_kind D s.kind w s ch in
            IsStream p.1
      by_flag true = h
      by_flag false = write_kind-IsStream w s ch s.kind refl h

  -- If the 9P server sends no more than it is asked for, every operation keeps the bounds of a stream:
  -- the next byte fits in the write buffer, and the positions lie in their buffers.
  pub operations-IsStream :
      ReadsWithin D
      → (w : D.State) (s : Stream) (ch : ℕ) → IsStream s
      → IsStream (read_char D w s).1
        × IsStream (preview_char D w s).1
        × IsStream (write_char D w s ch).1
        × IsStream (finish_output D w s).1
        × IsStream (close_stream D w s).1
  unfolding finish_output close_stream
  operations-IsStream within w s ch h = (
    read_char-IsStream D within w s h,
    preview_char-IsStream D within w s h,
    write_char-IsStream w s ch h,
    flush-IsStream D w s h,
    flush-IsStream D w s h,
  )
