-- ===== src/Stream/Closed.antt =====
-- A 9P file that is written through a stream of src/c/stream.c and closed, and what is called later.
use isiki.Prelude.{
  ℕ, ◌^◌, ◌<◌, ◌≡◌, refl, sym, ap, ◌∙◌, Bool, true, false, ◌||◌, Option, none, some, List, [], ◌∷◌,
  length, if◌then◌else◌,
}
use mathlib.Core.Path.{subst}
use isiki.Stream.Device.{Devices}
use isiki.Stream.{
  StreamKind, p9_file_write, is_9p_read_kind, is_9p_write_kind, Stream, read_char, preview_char,
  write_char, finish_output, flush, flush_9p, close_stream, stream_init_common,
}
use isiki.Stream.Preview.{closed_stream}
use isiki.Stream.Output.{write_text}
use isiki.Stream.WriteFile.{File, opened_for_write, writing, finished}

-- A call on a stream that is not closed again.
pub data Call : Type 0 where
  read preview finish : Call
  write : ℕ → Call

abbrev pub is_some : Option ℕ → Bool
is_some none = false
is_some (some ch) = true

module _ (D : Devices) where
  -- The flag tells whether the call gave or took a character.
  abbrev pub call : Call → D.State → Stream → D.State × Stream × Bool
  call read w s = let (w', s', ch) = read_char D w s in (w', s', is_some ch)
  call preview w s = let (w', s', ch) = preview_char D w s in (w', s', is_some ch)
  call finish w s = let (w', s') = finish_output D w s in (w', s', false)
  call (write ch) w s = write_char D w s ch

  -- The calls of a list, and whether one of them gave or took a character.
  abbrev pub calls : List Call → D.State → Stream → D.State × Stream × Bool
  calls [] w s = (w, s, false)
  calls (c ∷ cs) w s =
      let (w₁, s₁, one) = call c w s in
      let (w₂, s₂, rest) = calls cs w₁ s₁ in (w₂, s₂, if one then true else rest)

  module _ (fid : ℕ) (file : File D fid) where
    -- The stream that is left by close_stream.
    abbrev closed : ℕ → ℕ → Stream
    closed n column = record (writing D fid file n [] column) { closed = true }

    call-closed :
        (c : Call) (w : D.State) (n column : ℕ)
        → call c w (closed n column) ≡ (w, closed n column, false)
    unfolding finish_output flush flush_9p stream_init_common
    call-closed read w n column =
        ap (λ (r : D.State × Stream × Option ℕ). (r.0, r.1, is_some r.2))
          (closed_stream D w (closed n column) 0 refl).0
    call-closed preview w n column =
        ap (λ (r : D.State × Stream × Option ℕ). (r.0, r.1, is_some r.2))
          (closed_stream D w (closed n column) 0 refl).2
    call-closed finish w n column = refl
    call-closed (write ch) w n column = (closed_stream D w (closed n column) ch refl).1

    calls-closed :
        (cs : List Call) (w : D.State) (n column : ℕ)
        → calls cs w (closed n column) ≡ (w, closed n column, false)
    calls-closed [] w n column = refl
    calls-closed (c ∷ cs) w n column =
        ap
          (λ (p : D.State × Stream × Bool).
            let q : D.State × Stream × Bool = calls cs p.0 p.1 in
            (q.0, q.1, if p.2 then true else q.2))
          (call-closed c w n column)
        ∙ calls-closed cs w n column

    -- On a server that takes all that is written at the end of the file, and on which closing a fid keeps
    -- the file's content, a text of fewer than 2^64 characters that is written through a stream opened on
    -- the empty file is the file's content when the stream is closed. Whatever reads, previews, writes
    -- and calls of finish-output follow then, none of them gives or takes a character, and they change
    -- neither the devices, the file included, nor the stream.
    pub closed_file :
        (w : D.State) (text : List ℕ) (cs : List Call)
        → ((v : D.State) → file.contents (D.close_fid v fid) ≡ file.contents v)
        → file.contents w ≡ []
        → length text < 2 ^ 64
        → let p : D.State × Stream × Bool = write_text D w (opened_for_write D fid) text in
          let q : D.State × Stream = close_stream D p.0 p.1 in
          (file.contents q.0 ≡ text) × (calls cs q.0 q.1 ≡ (q.0, q.1, false))
    unfolding close_stream stream_init_common
    closed_file w text cs keeps e h =
        let (v, n, column, flushed, whole, kind, ok) = finished D fid file w text e h in
        let p : D.State × Stream × Bool = write_text D w (opened_for_write D fid) text in
        let end : close_stream D p.0 p.1 ≡ (D.close_fid v fid, closed n column) =
          ap (λ (k : StreamKind). ended k (flush D p.0 p.1)) kind
          ∙ ap (ended p9_file_write) flushed in
        (
          ap (λ (q : D.State × Stream). file.contents q.0) end ∙ keeps v ∙ whole,
          subst (λ (q : D.State × Stream). calls cs q.0 q.1 ≡ (q.0, q.1, false)) (sym end)
              (calls-closed cs (D.close_fid v fid) n column),
        )
      where
        ended : StreamKind → D.State × Stream → D.State × Stream
        ended k r = (
          if is_9p_read_kind k || is_9p_write_kind k then D.close_fid r.0 r.1.fid else r.0,
          record r.1 { closed = true },
        )
