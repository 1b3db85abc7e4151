-- ===== src/Stream/Input.antt =====
-- A 9P file that is read through a stream of src/c/stream.c.
use isiki.Prelude.{
  ℕ, zero, suc, ◌+◌, ◌%◌, ◌^◌, ◌≤◌, ◌<◌, ◌≡◌, refl, sym, ap, ◌∙◌, inl, inr, Bool, true, false,
  Option, none, some, List, [], ◌∷◌, ◌++◌, arith, ◌==◌, if◌then◌else◌, length, take, drop, get_or,
  Bool-cases, length-append, length-drop, drop-append, ==→eq, ==→ne,
}
use mathlib.Core.Path.{subst}
use isiki.Virtio9p.Rpc.{IsPart}
use isiki.Stream.Device.{Devices}
use isiki.Stream.{
  Stream, p9_file_read, read_size, refill_9p, next_byte, read_9p, read_kind, read_char,
  stream_init_common,
}

drop_all : (xs : List ℕ) (n : ℕ) → n ≡ length xs → drop n xs ≡ []
drop_all [] zero h = refl
drop_all [] (suc n) h = refl
drop_all (x ∷ xs) zero h = absurd (omega arith)
drop_all (x ∷ xs) (suc n) h = drop_all xs n (omega arith)

drop-drop : (m n : ℕ) (xs : List ℕ) → drop (m + n) xs ≡ drop n (drop m xs)
drop-drop zero n xs = ap (λ (k : ℕ). drop k xs) (omega arith)
drop-drop (suc m) zero [] = ap (λ (k : ℕ). drop k []) zero_right
  where
    zero_right : suc m + zero ≡ suc m
    zero_right = omega arith
drop-drop (suc m) (suc n) [] = ap (λ (k : ℕ). drop k []) suc_right
  where
    suc_right : suc m + suc n ≡ suc (m + suc n)
    suc_right = omega arith
drop-drop (suc m) n (x ∷ xs) = ap (λ (k : ℕ). drop k (x ∷ xs)) suc_left ∙ drop-drop m n xs
  where
    suc_left : suc m + n ≡ suc (m + n)
    suc_left = omega arith

drop_next : (xs : List ℕ) (n : ℕ) → n < length xs → drop n xs ≡ get_or xs n 0 ∷ drop (n + 1) xs
drop_next [] n h = absurd (omega arith)
drop_next (x ∷ xs) zero h = refl
drop_next (x ∷ xs) (suc n) h =
    drop_next xs n (omega arith) ∙ ap (λ (k : ℕ). get_or xs n 0 ∷ drop k (x ∷ xs)) suc_left
  where
    suc_left : suc (n + 1) ≡ suc n + 1
    suc_left = omega arith

module _ (D : Devices) where
  -- At most n characters, to the first read that fails.
  abbrev pub read_text : ℕ → D.State → Stream → List ℕ
  read_text zero w s = []
  read_text (suc n) w s =
      let (w', s', r) = read_char D w s in
      let rest = read_text n w' s' in elim r [ some ch ↦ ch ∷ rest | none ↦ [] ]

  -- A file that the server serves in chunks of its choice.
  pub record Served (fid : ℕ) (content : List ℕ) : Type 0 where
    pub reads :
        (w : D.State) (offset : ℕ)
        → offset ≤ length content
        → (bytes : List ℕ) × ((D.read_chunk w fid offset read_size).1 ≡ some bytes)
          × IsPart content offset read_size bytes

  -- The stream that a successful `os_stream_open_9p_file` leaves.
  abbrev pub opened_for_read : ℕ → Stream
  opened_for_read fid = record (stream_init_common p9_file_read) { fid = fid }

  module _ (fid : ℕ) (content : List ℕ) (server : Served fid content) where
    abbrev reading : ℕ → List ℕ → ℕ → Stream
    reading offset buf pos = record (opened_for_read fid) {
      next_offset = offset;
      buf_data = buf;
      buf_pos = pos;
    }

    -- What is left to read, in the buffer and in the file.
    record At (left : List ℕ) (offset : ℕ) (buf : List ℕ) (pos : ℕ) : Type 0 where
      pub left_here : drop pos buf ++ drop offset content ≡ left
      pub pos_within : pos ≤ length buf
      pub offset_within : offset ≤ length content

    -- A read gives the first of what is left and goes on with the rest, or fails if nothing is left.
    data Step (left : List ℕ) (p : D.State × Stream × Option ℕ) : Type 0 where
      gave :
          (w : D.State) (ch : ℕ) (rest : List ℕ) (offset : ℕ) (buf : List ℕ) (pos : ℕ)
          → p ≡ (w, reading offset buf pos, some ch)
          → left ≡ ch ∷ rest
          → At rest offset buf pos
          → Step left p
      at_end : p.2 ≡ none → left ≡ [] → Step left p

    behind :
        (offset : ℕ) (bytes rest : List ℕ)
        → bytes ++ rest ≡ drop offset content
        → drop (offset + length bytes) content ≡ rest
    behind offset bytes rest e =
        drop-drop offset (length bytes) content
        ∙ ap (drop (length bytes)) (sym e)
        ∙ drop-append bytes rest

    refill_9p-Step :
        (w : D.State) (offset : ℕ) (buf : List ℕ) (pos : ℕ)
        → length content < 2 ^ 64
        → offset ≤ length content
        → Step (drop offset content) (refill_9p D w (reading offset buf pos))
    unfolding refill_9p stream_init_common
    refill_9p-Step w offset buf pos small h = by_bytes (server.reads w offset h)
      where
        got : Option (List ℕ) → D.State × Stream × Option ℕ
        got chunk =
            let w' : D.State = (D.read_chunk w fid offset read_size).0 in
            elim chunk [
              | none ↦ (w', record (reading offset buf pos) { error = true }, none)
              | some bytes ↦
                  let s' : Stream = reading ((offset + length bytes) % 2 ^ 64) bytes 0 in
                  if length bytes == 0
                  then (w', record s' { eof = true }, none)
                  else next_byte D w' s'
            ]

        by_bytes :
            ((bytes : List ℕ) × ((D.read_chunk w fid offset read_size).1 ≡ some bytes)
              × IsPart content offset read_size bytes)
            → Step (drop offset content) (refill_9p D w (reading offset buf pos))
        by_bytes ([], e, part) =
            at_end (ap (λ (o : Option (List ℕ)). (got o).2) e)
              (sym part.here ∙ empty part.rest (part.progress (omega arith) refl))
          where
            empty : (xs : List ℕ) → length xs ≡ 0 → xs ≡ []
            empty [] h = refl
            empty (x ∷ xs) h = absurd (omega arith)
        by_bytes (x ∷ bytes, e, part) =
            gave (D.read_chunk w fid offset read_size).0 x (bytes ++ part.rest)
              ((offset + length (x ∷ bytes)) % 2 ^ 64) (x ∷ bytes) 1
              (ap got e
                ∙ ap
                    (λ (b : Bool).
                      if b
                      then (w', record (reading after (x ∷ bytes) 0) { eof = true }, none)
                      else (w', reading after (x ∷ bytes) 1, some x))
                    (not_empty (length bytes)))
              (sym part.here)
              (record {
                left_here =
                    ap (λ (t : List ℕ). bytes ++ t)
                      (ap (λ (k : ℕ). drop k content) no_wrap
                        ∙ behind offset (x ∷ bytes) part.rest part.here);
                pos_within = omega arith;
                offset_within = omega (arith, sizes);
              })
          where
            w' : D.State
            w' = (D.read_chunk w fid offset read_size).0

            after : ℕ
            after = (offset + length (x ∷ bytes)) % 2 ^ 64

            not_empty : (n : ℕ) → (suc n == 0) ≡ false
            not_empty n = ground arith

            sizes : offset + length (x ∷ bytes) ≤ length content
            sizes = omega (
              arith,
              ap (λ (t : List ℕ). length t) part.here,
              length-append (x ∷ bytes) part.rest,
              length-drop offset content,
            )

            no_wrap : (offset + length (x ∷ bytes)) % 2 ^ 64 ≡ offset + length (x ∷ bytes)
            no_wrap = omega (arith, sizes)

    read_char-Step :
        (w : D.State) (left : List ℕ) (offset : ℕ) (buf : List ℕ) (pos : ℕ)
        → length content < 2 ^ 64
        → At left offset buf pos
        → Step left (read_char D w (reading offset buf pos))
    unfolding read_char read_kind read_9p stream_init_common
    read_char-Step w left offset buf pos small at = elim (Bool-cases (pos == length buf)) [
      | inl e ↦
          let all_read : drop pos buf ≡ [] = drop_all buf pos (==→eq pos (length buf) e) in
          let same : drop offset content ≡ left =
            ap (λ (t : List ℕ). t ++ drop offset content) (sym all_read) ∙ at.left_here in
          rw (read_char, read_kind, read_9p, e)
            (subst (λ (t : List ℕ). Step t (refill_9p D w (reading offset buf pos))) same
              (refill_9p-Step w offset buf pos small at.offset_within))
      | inr e ↦
          let more : pos < length buf = omega (arith, at.pos_within, ==→ne pos (length buf) e) in
          gave w (get_or buf pos 0) (drop (pos + 1) buf ++ drop offset content) offset buf (pos + 1)
            (ap
              (λ (b : Bool).
                if b
                then refill_9p D w (reading offset buf pos)
                else next_byte D w (reading offset buf pos))
              e)
            (sym at.left_here
              ∙ ap (λ (t : List ℕ). t ++ drop offset content) (drop_next buf pos more))
            (record {
              left_here = refl;
              pos_within = omega arith;
              offset_within = at.offset_within;
            })
    ]

    read_text-At :
        (n : ℕ) (w : D.State) (left : List ℕ) (offset : ℕ) (buf : List ℕ) (pos : ℕ)
        → length content < 2 ^ 64
        → At left offset buf pos
        → read_text n w (reading offset buf pos) ≡ take n left
    read_text-At zero w left offset buf pos small at = refl
    read_text-At (suc n) w left offset buf pos small at =
        elim (read_char-Step w left offset buf pos small at) [
          | gave w' ch rest offset' buf' pos' e f at' ↦
              ap go_on e
              ∙ ap (λ (t : List ℕ). ch ∷ t) (read_text-At n w' rest offset' buf' pos' small at')
              ∙ ap (take (suc n)) (sym f)
          | at_end e f ↦ ap ended e ∙ ap (take (suc n)) (sym f)
        ]
      where
        go_on : D.State × Stream × Option ℕ → List ℕ
        go_on p = elim p.2 [ some ch ↦ ch ∷ read_text n p.0 p.1 | none ↦ [] ]

        ended : Option ℕ → List ℕ
        ended r = go_on (
          (read_char D w (reading offset buf pos)).0,
          (read_char D w (reading offset buf pos)).1,
          r,
        )

    -- On a server that serves a file of fewer than 2^64 bytes in chunks of its choice, reading n
    -- characters from a stream opened on it gives the first n bytes of the file.
    pub read_file :
        (w : D.State) (n : ℕ)
        → length content < 2 ^ 64
        → read_text n w (opened_for_read fid) ≡ take n content
    unfolding stream_init_common
    read_file w n small =
        read_text-At n w content 0 [] 0 small
          (record { left_here = refl; pos_within = omega arith; offset_within = omega arith })
