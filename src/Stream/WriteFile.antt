-- ===== src/Stream/WriteFile.antt =====
-- A 9P file that is written through a stream of src/c/stream.c.
use isiki.Prelude.{
  ℕ, suc, ◌+◌, ◌%◌, ◌^◌, ◌<◌, ◌≡◌, refl, sym, ap, ◌∙◌, inl, inr, Bool, true, false, not, some, List,
  [], ◌∷◌, ◌++◌, arith, ◌==◌, if◌then◌else◌, length, Bool-cases, length-append, ==→ne,
}
use mathlib.Core.List.{append_assoc, append-nil}
use isiki.Stream.Device.{Devices}
use isiki.Stream.{
  Stream, p9_file_write, write_size, flush_9p, flush, buffer_char, write_kind, write_char,
  finish_output, advance_column, stream_init_common,
}
use isiki.Stream.Output.{write_text}

module _ (D : Devices) where
  -- A file that takes all that is written at its end.
  pub record File (fid : ℕ) : Type 0 where
    pub contents : D.State → List ℕ
    pub writes :
        (w : D.State) (bytes : List ℕ)
        → ((D.write_chunk w fid (length (contents w)) bytes).1 ≡ some (length bytes))
          × (contents (D.write_chunk w fid (length (contents w)) bytes).0 ≡ contents w ++ bytes)

  -- The stream that a successful `os_stream_open_9p_file_write` leaves.
  abbrev pub opened_for_write : ℕ → Stream
  opened_for_write fid = record (stream_init_common p9_file_write) { fid = fid }

  module _ (fid : ℕ) (file : File fid) where
    abbrev pub writing : ℕ → List ℕ → ℕ → Stream
    writing offset buf column = record (opened_for_write fid) {
      next_offset = offset;
      write_buf = buf;
      column = column;
    }

    -- The file and the buffer together are x.
    record Holds (x : List ℕ) (p : D.State × Stream × Bool) : Type 0 where
      pub w : D.State
      pub buf : List ℕ
      pub column : ℕ
      pub here : p ≡ (w, writing (length (file.contents w)) buf column, true)
      pub together : file.contents w ++ buf ≡ x
      pub room : length buf < write_size

    flush_9p-contents :
        (w : D.State) (buf : List ℕ) (column : ℕ)
        → length (file.contents w) + length buf < 2 ^ 64
        → (w' : D.State) × (flush_9p D w (writing (length (file.contents w)) buf column)
            ≡ (w', writing (length (file.contents w')) [] column))
          × (file.contents w' ≡ file.contents w ++ buf)
    unfolding flush_9p stream_init_common
    flush_9p-contents w [] column h = (w, refl, sym (append-nil (file.contents w)))
    flush_9p-contents w (x ∷ buf) column h =
        let w' : D.State = (D.write_chunk w fid (length (file.contents w)) (x ∷ buf)).0 in
        let (all, whole) = file.writes w (x ∷ buf) in
        let offset : (length (file.contents w) + length (x ∷ buf)) % 2 ^ 64
            ≡ length (file.contents w') =
          omega (
            arith,
            ap (λ (t : List ℕ). length t) whole,
            length-append (file.contents w) (x ∷ buf),
          ) in
        (
          w',
          rw (flush_9p, not_empty (length buf), all)
              (ap (λ (n : ℕ). (w', writing n [] column)) offset),
          whole,
        )
      where
        not_empty : (n : ℕ) → (suc n == 0) ≡ false
        not_empty n = ground arith

    write_char-Holds :
        (w : D.State) (buf : List ℕ) (column ch : ℕ)
        → length (file.contents w) + length buf + 1 < 2 ^ 64
        → length buf < write_size
        → Holds
            ((file.contents w ++ buf) ++ (ch ∷ []))
            (write_char D w (writing (length (file.contents w)) buf column) ch)
    unfolding write_char write_kind buffer_char flush advance_column stream_init_common
    write_char-Holds w buf column ch h p =
        let buf' : List ℕ = buf ++ (ch ∷ []) in
        let offset : ℕ = length (file.contents w) in
        elim (Bool-cases (length buf' == write_size)) [
          | inl e ↦
              let (w', flushed, whole) =
                flush_9p-contents w buf' column (omega (arith, length-append buf (ch ∷ []))) in
              record {
                w = w';
                buf = [];
                column = if ch == 10 then 0 else (column + 1) % 2 ^ 32;
                here =
                    ap
                      (λ (b : Bool). ended (
                        if b
                        then flush_9p D w (writing offset buf' column)
                        else (w, writing offset buf' column)))
                      e
                    ∙ ap ended flushed;
                together =
                    append-nil (file.contents w')
                    ∙ whole
                    ∙ sym (append_assoc (file.contents w) buf (ch ∷ []));
                room = omega arith;
              }
          | inr e ↦ record {
            w = w;
            buf = buf';
            column = if ch == 10 then 0 else (column + 1) % 2 ^ 32;
            here =
                ap
                  (λ (b : Bool). ended (
                    if b
                    then flush_9p D w (writing offset buf' column)
                    else (w, writing offset buf' column)))
                  e;
            together = sym (append_assoc (file.contents w) buf (ch ∷ []));
            room = omega (arith, length-append buf (ch ∷ []), ==→ne (length buf') write_size e);
          }
        ]
      where
        ended : D.State × Stream → D.State × Stream × Bool
        ended q = (q.0, advance_column q.1 ch, not q.1.error)

    write_text-Holds :
        (w : D.State) (buf : List ℕ) (column : ℕ) (text : List ℕ)
        → length (file.contents w) + length buf + length text < 2 ^ 64
        → length buf < write_size
        → Holds
            ((file.contents w ++ buf) ++ text)
            (write_text D w (writing (length (file.contents w)) buf column) text)
    write_text-Holds w buf column [] h p = record {
      w = w;
      buf = buf;
      column = column;
      here = refl;
      together = sym (append-nil (file.contents w ++ buf));
      room = p;
    }
    write_text-Holds w buf column (ch ∷ text) h p =
        let one = write_char-Holds w buf column ch (omega arith) p in
        let size : length (file.contents one.w) + length one.buf
            ≡ length (file.contents w) + length buf + 1 =
          omega (
            arith,
            ap (λ (t : List ℕ). length t) one.together,
            length-append (file.contents one.w) one.buf,
            length-append (file.contents w ++ buf) (ch ∷ []),
            length-append (file.contents w) buf,
          ) in
        let rest = write_text-Holds one.w one.buf one.column text (omega arith) one.room in
        record {
          w = rest.w;
          buf = rest.buf;
          column = rest.column;
          here = ap then_rest one.here ∙ rest.here;
          together =
              rest.together
              ∙ ap (λ (t : List ℕ). t ++ text) one.together
              ∙ append_assoc (file.contents w ++ buf) (ch ∷ []) text;
          room = rest.room;
        }
      where
        then_rest : D.State × Stream × Bool → D.State × Stream × Bool
        then_rest p = let q = write_text D p.0 p.1 text in (q.0, q.1, if p.2 then q.2 else false)

    -- The text is written, and the buffer is emptied.
    pub finished :
        (w : D.State) (text : List ℕ)
        → file.contents w ≡ []
        → length text < 2 ^ 64
        → let p : D.State × Stream × Bool = write_text D w (opened_for_write fid) text in
          (v : D.State) × (n : ℕ) × (column : ℕ) × (flush D p.0 p.1 ≡ (v, writing n [] column))
          × (file.contents v ≡ text)
          × (p.1.kind ≡ p9_file_write)
          × (p.2 ≡ true)
    unfolding flush stream_init_common
    finished w text e h =
        let held =
          write_text-Holds w [] 0 text (omega (arith, ap (λ (t : List ℕ). length t) e))
            (omega arith) in
        let size : length (file.contents held.w) + length held.buf ≡ length text = omega (
          arith,
          ap (λ (t : List ℕ). length t) held.together,
          length-append (file.contents held.w) held.buf,
          length-append (file.contents w ++ []) text,
          length-append (file.contents w) [],
          ap (λ (t : List ℕ). length t) e,
        ) in
        let (w', flushed, whole) = flush_9p-contents held.w held.buf held.column (omega arith) in
        let all : write_text D w (opened_for_write fid) text
            ≡ (held.w, writing (length (file.contents held.w)) held.buf held.column, true) =
          ap (λ (n : ℕ). write_text D w (writing n [] 0) text)
            (sym (ap (λ (t : List ℕ). length t) e))
          ∙ held.here in
        (
          w',
          length (file.contents w'),
          held.column,
          ap (λ (p : D.State × Stream × Bool). flush D p.0 p.1) all ∙ flushed,
          whole ∙ held.together ∙ ap (λ (t : List ℕ). (t ++ []) ++ text) e,
          ap (λ (p : D.State × Stream × Bool). p.1.kind) all,
          ap (λ (p : D.State × Stream × Bool). p.2) all,
        )

    -- On a server that takes all that is written at the end of the file, a text of fewer than 2^64
    -- characters that is written through a stream opened on the empty file and then finished is the file's
    -- content, and every write succeeds.
    pub written_file :
        (w : D.State) (text : List ℕ)
        → file.contents w ≡ []
        → length text < 2 ^ 64
        → let p : D.State × Stream × Bool = write_text D w (opened_for_write fid) text in
          (file.contents (finish_output D p.0 p.1).0 ≡ text) × (p.2 ≡ true)
    unfolding finish_output
    written_file w text e h =
        let (v, n, column, flushed, whole, kind, ok) = finished w text e h in
        (ap (λ (q : D.State × Stream). file.contents q.0) flushed ∙ whole, ok)
