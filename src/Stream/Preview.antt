-- ===== src/Stream/Preview.antt =====
-- The lookahead of src/c/stream.c, and streams that are closed.
use isiki.Prelude.{
  ℕ, zero, suc, ◌+◌, ◌%◌, ◌^◌, ◌≡◌, refl, sym, ap, ◌∙◌, Bool, true, false, ◌||◌, Option, none, some,
  List, [], ◌∷◌, arith, leb, ◌==◌, if◌then◌else◌, length, get_or,
}
use mathlib.Core.Path.{subst, ap₂}
use isiki.Stream.Device.{Devices, Called, undefined_function, escaped, returned_nil, returned}
use isiki.Stream.{
  Stream, StreamKind, p9_file_read, p9_file_write, p9_file_io, output_screen, string_input,
  string_output, fat_file_write, fat_file_io, input_keyboard, read_size, flush_9p, flush_fat,
  flushed_fat, refilled_fat, refill_fat, next_byte, refill_9p, read_9p, read_fat, read_string,
  read_kind, read_char, preview_char, write_char, write_kind, flush_for_read,
}

-- A stream that can be read, with nothing looked ahead.
abbrev pub Live : Stream → Type 0
Live s = (s.closed ≡ false) × (s.eof ≡ false) × (s.error ≡ false) × (s.lookahead ≡ none)

module _ (D : Devices) where
  -- What a read leaves if it returns a character.
  abbrev OnSome : (Stream → Type 0) → D.State × Stream × Option ℕ → Type 0
  OnSome P (w, s, some ch) = P s
  OnSome P (w, s, none) = Unit

  refill_9p-Live : (w : D.State) (s : Stream) → Live s → OnSome Live (refill_9p D w s)
  unfolding refill_9p
  refill_9p-Live w s h = by_chunk (D.read_chunk w s.fid s.next_offset read_size).1
    where
      by_chunk :
          (chunk : Option (List ℕ))
          → let w' : D.State = (D.read_chunk w s.fid s.next_offset read_size).0 in
            let p : D.State × Stream × Option ℕ = elim chunk [
              | none ↦ (w', record s { error = true }, none)
              | some bytes ↦
                  let s' = record s {
                    buf_data = bytes;
                    buf_pos = 0;
                    next_offset = (s.next_offset + length bytes) % 2 ^ 64;
                  } in
                  if length bytes == 0
                  then (w', record s' { eof = true }, none)
                  else next_byte D w' s'
            ] in
            OnSome Live p
      by_chunk none = tt
      by_chunk (some []) = tt
      by_chunk (some (x ∷ bytes)) = rw (not_empty (length bytes)) h
        where
          not_empty : (n : ℕ) → (suc n == 0) ≡ false
          not_empty n = ground arith

  flush_9p-Live :
      (w : D.State) (s : Stream)
      → Live s
      → ((flush_9p D w s).1.error ≡ false)
      → Live (flush_9p D w s).1
  unfolding flush_9p
  flush_9p-Live w s h = ground arith

  by_test :
      (b : Bool) (p q : D.State × Stream × Option ℕ)
      → (b ≡ true → OnSome Live p)
      → (b ≡ false → OnSome Live q)
      → OnSome Live (if b then p else q)
  by_test true p q h k = h refl
  by_test false p q h k = k refl

  read_9p-Live : (w : D.State) (s : Stream) → Live s → OnSome Live (read_9p D w s)
  unfolding read_9p
  read_9p-Live w s h =
      let (w₁, s₁) = flush_for_read D s.kind w s in
      by_test (s.buf_pos == length s.buf_data)
        (if s₁.error then (w₁, s₁, none) else refill_9p D w₁ s₁) (next_byte D w s)
        (λ _.
          by_test s₁.error (w₁, s₁, none) (refill_9p D w₁ s₁) (λ _. tt)
            (λ e. refill_9p-Live w₁ s₁ (ready s.kind e)))
        (λ _. h)
    where
      ready :
          (k : StreamKind)
          → (flush_for_read D k w s).1.error ≡ false
          → Live (flush_for_read D k w s).1
      ready p9_file_read e = h
      ready p9_file_write e = h
      ready p9_file_io e = flush_9p-Live w s h e
      ready output_screen e = h
      ready string_input e = h
      ready string_output e = h
      ready fat_file_write e = h
      ready fat_file_io e = h
      ready input_keyboard e = h

  flush_fat-Live :
      (w : D.State) (s : Stream)
      → Live s
      → ((flush_fat D w s).1.error ≡ false)
      → Live (flush_fat D w s).1
  unfolding flush_fat flushed_fat
  flush_fat-Live w s h = ground arith

  refill_fat-Live :
      (r : Called (ℕ × List ℕ)) (s : Stream)
      → Live s
      → (refilled_fat D s r).error || length (refilled_fat D s r).buf_data == 0 ≡ false
      → Live (refilled_fat D s r)
  unfolding refilled_fat
  refill_fat-Live undefined_function s h e = absurd (ground arith)
  refill_fat-Live (escaped transfer) s h e = absurd (ground arith)
  refill_fat-Live returned_nil s h e = absurd (ground arith)
  refill_fat-Live (returned (zero, contents)) s h e = absurd (ground arith)
  refill_fat-Live (returned (suc n, contents)) s h e = ground arith

  read_fat-Live : (w : D.State) (s : Stream) → Live s → OnSome Live (read_fat D w s)
  unfolding read_fat refill_fat
  read_fat-Live w s h =
      let (w₁, s₁) = flush_fat D w s in
      let (w₂, s₂) = refill_fat D w₁ s₁ in
      by_test (s.buf_pos == length s.buf_data)
        (if s₁.error
          then (w₁, s₁, none)
          else if s₂.error || length s₂.buf_data == 0
          then (w₂, s₂, none)
          else next_byte D w₂ s₂)
        (next_byte D w s)
        (λ _.
          by_test s₁.error (w₁, s₁, none)
            (if s₂.error || length s₂.buf_data == 0 then (w₂, s₂, none) else next_byte D w₂ s₂)
            (λ _. tt)
            (λ e.
              by_test (s₂.error || length s₂.buf_data == 0) (w₂, s₂, none) (next_byte D w₂ s₂)
                (λ _. tt)
                (λ f.
                  refill_fat-Live (D.read_into w₁ s₁.mount_file_node s₁.next_offset read_size).1 s₁
                    (flush_fat-Live w s h e) f)))
        (λ _. h)

  read_kind-Live :
      (k : StreamKind) (w : D.State) (s : Stream) → Live s → OnSome Live (read_kind D k w s)
  unfolding read_kind read_string
  read_kind-Live p9_file_read w s h = read_9p-Live w s h
  read_kind-Live p9_file_write w s h = tt
  read_kind-Live p9_file_io w s h = read_9p-Live w s h
  read_kind-Live output_screen w s h = tt
  read_kind-Live string_input w s h =
      by_test (leb (length s.str_buf) s.str_pos) (w, record s { eof = true }, none)
        (w, record s { str_pos = s.str_pos + 1 }, some (get_or s.str_buf s.str_pos 0)) (λ _. tt)
        (λ _. h)
  read_kind-Live string_output w s h = tt
  read_kind-Live fat_file_write w s h = tt
  read_kind-Live fat_file_io w s h = read_fat-Live w s h
  read_kind-Live input_keyboard w s h = by_key (D.keyboard_read w).1
    where
      by_key : (o : Option ℕ) → OnSome Live ((D.keyboard_read w).0, s, o)
      by_key (some ch) = h
      by_key none = tt

  -- A read of a live stream is a read by its kind.
  read_char-Live : (w : D.State) (s : Stream) → Live s → read_char D w s ≡ read_kind D s.kind w s
  unfolding read_char
  read_char-Live w s h = ap₂ reading (flags s h) h.3
    where
      reading : Bool → Option ℕ → D.State × Stream × Option ℕ
      reading b l = if b then (w, s, none) else (elim l [
        | some ch ↦ (w, record s { lookahead = none }, some ch)
        | none ↦ read_kind D s.kind w s
      ])

      flags : (s : Stream) → Live s → s.closed || s.eof || s.error ≡ false
      flags s h = ground arith

  -- A read takes a lookahead off.
  read_char_ahead :
      (w : D.State) (s : Stream) (ch : ℕ)
      → Live s
      → read_char D w (record s { lookahead = some ch }) ≡ (w, s, some ch)
  unfolding read_char
  read_char_ahead w s ch h = ap₂ reading (flags s h) (sym h.3)
    where
      reading : Bool → Option ℕ → D.State × Stream × Option ℕ
      reading b l =
          if b
          then (w, record s { lookahead = some ch }, none)
          else (w, record s { lookahead = l }, some ch)

      flags : (s : Stream) → Live s → s.closed || s.eof || s.error ≡ false
      flags s h = ground arith

  -- Where a character was looked ahead, the next read gives it and leaves what a read without the
  -- preview would have left, and another preview gives it again and changes nothing.
  pub preview_char_then_read :
      (w w' : D.State) (s s' : Stream) (ch : ℕ)
      → Live s
      → preview_char D w s ≡ (w', s', some ch)
      → (read_char D w' s' ≡ read_char D w s) × (preview_char D w' s' ≡ (w', s', some ch))
  unfolding preview_char
  preview_char_then_read w w' s s' ch h e =
      go (read_char D w s).0 (read_char D w s).1 (read_char D w s).2
        (subst (λ (p : D.State × Stream × Option ℕ). OnSome Live p) (sym (read_char-Live w s h))
          (read_kind-Live s.kind w s h))
        (sym (ap ahead h.3) ∙ e)
    where
      ahead : Option ℕ → D.State × Stream × Option ℕ
      ahead l = elim l [
        | some c ↦ (w, s, some c)
        | none ↦ elim (read_char D w s).2 [
          | some c ↦
              ((read_char D w s).0, record (read_char D w s).1 { lookahead = some c }, some c)
          | none ↦ ((read_char D w s).0, (read_char D w s).1, none)
        ]
      ]

      go :
          (w₁ : D.State) (s₁ : Stream) (r : Option ℕ)
          → OnSome Live (w₁, s₁, r)
          → let p : D.State × Stream × Option ℕ = elim r [
            | some c ↦ (w₁, record s₁ { lookahead = some c }, some c)
            | none ↦ (w₁, s₁, none)
          ] in
            p ≡ (w', s', some ch)
            → (read_char D w' s' ≡ (w₁, s₁, r)) × (preview_char D w' s' ≡ (w', s', some ch))
      go w₁ s₁ (some c) live q =
          subst
            (λ (p : D.State × Stream × Option ℕ).
              (read_char D p.0 p.1 ≡ (w₁, s₁, some c)) × (preview_char D p.0 p.1 ≡ p))
            q (read_char_ahead w₁ s₁ c live, refl)
      go w₁ s₁ none live q = absurd (none≢some (ap (λ (p : D.State × Stream × Option ℕ). p.2) q))
        where
          none≢some : {c : ℕ} → ¬ (none ≡ some c)
          none≢some q = ground arith

  -- On a closed stream a read and a write fail and change nothing; a preview does so too if nothing was
  -- looked ahead, but still gives the character that was.
  pub closed_stream :
      (w : D.State) (s : Stream) (ch : ℕ)
      → s.closed ≡ true
      → (read_char D w s ≡ (w, s, none))
        × (write_char D w s ch ≡ (w, s, false))
        × (preview_char D w s ≡ (w, s, s.lookahead))
  unfolding read_char write_char preview_char
  closed_stream w s ch e = (
    read_closed,
    ap (λ (b : Bool). if b then (w, s, false) else write_kind D s.kind w s ch) e,
    ap (λ (p : D.State × Stream × Option ℕ). previewed s.lookahead p) read_closed
        ∙ nothing_read s.lookahead,
  )
    where
      read_closed : read_char D w s ≡ (w, s, none)
      read_closed =
          ap
            (λ (b : Bool). if b || s.eof || s.error then (w, s, none) else (elim s.lookahead [
              | some c ↦ (w, record s { lookahead = none }, some c)
              | none ↦ read_kind D s.kind w s
            ]))
            e

      previewed : Option ℕ → D.State × Stream × Option ℕ → D.State × Stream × Option ℕ
      previewed l p = elim l [
        | some c ↦ (w, s, some c)
        | none ↦ elim p.2 [
          | some c ↦ (p.0, record p.1 { lookahead = some c }, some c)
          | none ↦ (p.0, p.1, none)
        ]
      ]

      nothing_read : (l : Option ℕ) → previewed l (w, s, none) ≡ (w, s, l)
      nothing_read (some c) = refl
      nothing_read none = refl
