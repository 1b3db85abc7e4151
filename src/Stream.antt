-- ===== src/Stream.antt =====
-- src/c/stream.c: the streams, read and written a character at a time. A call takes the stream and the
-- state of the devices and returns both. The collector may move a stream during a Lisp call; its
-- contents stay, so the handles by which the code finds it again are not in the model.
pub mod Device
pub mod Invariant
pub mod Bounds
pub mod Preview
pub mod Output
pub mod WriteFile
pub mod Closed
pub mod Input
pub mod Transfer
mod Runs
use isiki.Prelude.{
  ℕ, zero, suc, ◌+◌, ◌-◌, ◌%◌, ◌^◌, Bool, true, false, not, ◌&&◌, ◌||◌, Option, none, some, List,
  [], ◌∷◌, ◌++◌, ltb, leb, ◌==◌, if◌then◌else◌, length, get_or, take,
}
use isiki.Stream.Device.{Devices, Called, undefined_function, escaped, returned_nil, returned}

abbrev pub read_size : ℕ
read_size = 1024

abbrev pub write_size : ℕ
write_size = 512

abbrev pub create_perm : ℕ
create_perm = 420

-- stream_kind_t
pub data StreamKind : Type 0 where
  p9_file_read : StreamKind
  p9_file_write : StreamKind
  p9_file_io : StreamKind
  output_screen : StreamKind
  string_input : StreamKind
  string_output : StreamKind
  fat_file_write : StreamKind
  fat_file_io : StreamKind
  input_keyboard : StreamKind

-- os_stream_t. `buf_data` and `write_buf` hold `buf_count` and `write_buf_len` bytes, `str_buf` holds
-- `str_len`; `lookahead` is there if `has_lookahead` is set; a pending transfer of nil is `none`.
pub record Stream : Type 0 where
  pub kind : StreamKind
  pub fid : ℕ
  pub next_offset : ℕ
  pub buf_data : List ℕ
  pub buf_pos : ℕ
  pub write_buf : List ℕ
  pub eof : Bool
  pub error : Bool
  pub str_buf : List ℕ
  pub str_cap : ℕ
  pub str_pos : ℕ
  pub lookahead : Option ℕ
  pub column : ℕ
  pub closed : Bool
  pub mount_file_node : ℕ
  pub pending_transfer : Option ℕ

unfoldable pub stream_init_common : StreamKind → Stream
stream_init_common kind = record {
  kind = kind;
  fid = 0;
  next_offset = 0;
  buf_data = [];
  buf_pos = 0;
  write_buf = [];
  eof = false;
  error = false;
  str_buf = [];
  str_cap = 0;
  str_pos = 0;
  lookahead = none;
  column = 0;
  closed = false;
  mount_file_node = 0;
  pending_transfer = none;
}

abbrev pub is_9p_write_kind : StreamKind → Bool
is_9p_write_kind p9_file_write = true
is_9p_write_kind p9_file_io = true
is_9p_write_kind _ = false

abbrev pub is_9p_read_kind : StreamKind → Bool
is_9p_read_kind p9_file_read = true
is_9p_read_kind p9_file_io = true
is_9p_read_kind _ = false

abbrev pub is_fat_write_kind : StreamKind → Bool
is_fat_write_kind fat_file_write = true
is_fat_write_kind fat_file_io = true
is_fat_write_kind _ = false

-- `column` after a character.
unfoldable pub advance_column : Stream → ℕ → Stream
advance_column s ch = record s { column = if ch == 10 then 0 else (s.column + 1) % 2 ^ 32 }

unfoldable pub take_transfer : Stream → Stream × Option ℕ
take_transfer s = (record s { pending_transfer = none }, s.pending_transfer)

unfoldable pub open_string_input : List ℕ → Stream
unfolding stream_init_common
open_string_input buf = record (stream_init_common string_input) {
  str_buf = buf;
  str_cap = length buf;
}

unfoldable pub open_string_output : ℕ → Stream
unfolding stream_init_common
open_string_output capacity = record (stream_init_common string_output) { str_cap = capacity }

unfoldable pub open_fat_file : StreamKind → ℕ → Stream
unfolding stream_init_common
open_fat_file kind node = record (stream_init_common kind) { mount_file_node = node }

module _ (D : Devices) where
  -- A 9P file for reading; the flag is the result.
  unfoldable pub open_9p_file : D.State → List ℕ → D.State × Stream × Bool
  unfolding stream_init_common
  open_9p_file w path =
      let s = stream_init_common p9_file_read in
      let (w', fid) = D.open_fid w path 0 in
      elim fid [
        | some fid ↦ (w', record s { fid = fid }, true)
        | none ↦ (w', record s { error = true }, false)
      ]

  -- The 9P files for writing and for both: opened with a truncation, or created.
  unfoldable pub open_or_create : StreamKind → ℕ → D.State → List ℕ → Bool → D.State × Stream × Bool
  unfolding stream_init_common
  open_or_create kind mode w path create_if_missing =
      let s = stream_init_common kind in
      let (w', fid) = D.open_fid w path (mode + 16) in
      let (w'', new_fid) = D.create_fid w' path create_perm mode in
      elim fid [
        | some fid ↦ (w', record s { fid = fid }, true)
        | none ↦
            if create_if_missing
            then (elim new_fid [
              | some fid ↦ (w'', record s { fid = fid }, true)
              | none ↦ (w'', record s { error = true }, false)
            ])
            else (w', record s { error = true }, false)
      ]

  -- Bytes that the server does not take are dropped with the others.
  unfoldable pub flush_9p : D.State → Stream → D.State × Stream
  flush_9p w s =
      let (w', written) = D.write_chunk w s.fid s.next_offset s.write_buf in
      if length s.write_buf == 0 then (w, s) else (elim written [
        | none ↦ (w', record s { error = true; write_buf = [] })
        | some n ↦ (w', record s { next_offset = (s.next_offset + n) % 2 ^ 64; write_buf = [] })
      ])

  -- The stream after WRITE-FROM!.
  unfoldable pub flushed_fat : Stream → Called (Unit {0}) → Stream
  flushed_fat s undefined_function = record s { error = true; write_buf = [] }
  flushed_fat s (escaped transfer) = record s {
    error = true;
    write_buf = [];
    pending_transfer = some transfer;
  }
  flushed_fat s returned_nil = record s { error = true; write_buf = [] }
  flushed_fat s (returned _) = record s {
    next_offset = (s.next_offset + length s.write_buf) % 2 ^ 64;
    write_buf = [];
  }

  unfoldable pub flush_fat : D.State → Stream → D.State × Stream
  unfolding flushed_fat
  flush_fat w s =
      let (w', r) = D.write_from w s.mount_file_node s.next_offset s.write_buf in
      if length s.write_buf == 0 then (w, s) else (w', flushed_fat s r)

  -- The stream after READ-INTO!, of which at most the vector's size is believed.
  unfoldable pub refilled_fat : Stream → Called (ℕ × List ℕ) → Stream
  refilled_fat s undefined_function = record s { error = true }
  refilled_fat s (escaped transfer) = record s { error = true; pending_transfer = some transfer }
  refilled_fat s returned_nil = record s { buf_data = []; buf_pos = 0; eof = true }
  refilled_fat s (returned (n, contents)) =
      let got = if ltb read_size n then read_size else n in
      record s {
        buf_data = take got contents;
        buf_pos = 0;
        next_offset = (s.next_offset + got) % 2 ^ 64;
        eof = if got == 0 then true else s.eof;
      }

  unfoldable pub refill_fat : D.State → Stream → D.State × Stream
  unfolding refilled_fat
  refill_fat w s =
      let (w', r) = D.read_into w s.mount_file_node s.next_offset read_size in
      (w', refilled_fat s r)

  unfoldable pub flush : D.State → Stream → D.State × Stream
  unfolding flush_9p flush_fat
  flush w s =
      if is_9p_write_kind s.kind
      then flush_9p w s
      else if is_fat_write_kind s.kind
      then flush_fat w s
      else (w, s)

  -- The next byte of `buf_data`.
  abbrev pub next_byte : D.State → Stream → D.State × Stream × Option ℕ
  next_byte w s = (w, record s { buf_pos = s.buf_pos + 1 }, some (get_or s.buf_data s.buf_pos 0))

  -- A new chunk from the 9P server, and its first byte.
  unfoldable pub refill_9p : D.State → Stream → D.State × Stream × Option ℕ
  refill_9p w s =
      let (w', chunk) = D.read_chunk w s.fid s.next_offset read_size in
      elim chunk [
        | none ↦ (w', record s { error = true }, none)
        | some bytes ↦
            let s' = record s {
              buf_data = bytes;
              buf_pos = 0;
              next_offset = (s.next_offset + length bytes) % 2 ^ 64;
            } in
            if length bytes == 0 then (w', record s' { eof = true }, none) else next_byte w' s'
      ]

  -- A stream for both directions first writes what it holds.
  abbrev pub flush_for_read : StreamKind → D.State → Stream → D.State × Stream
  flush_for_read p9_file_io w s = flush_9p w s
  flush_for_read _ w s = (w, s)

  unfoldable pub read_9p : D.State → Stream → D.State × Stream × Option ℕ
  unfolding flush_9p refill_9p
  read_9p w s =
      let (w₁, s₁) = flush_for_read s.kind w s in
      if s.buf_pos == length s.buf_data
      then (if s₁.error then (w₁, s₁, none) else refill_9p w₁ s₁)
      else next_byte w s

  unfoldable pub read_fat : D.State → Stream → D.State × Stream × Option ℕ
  unfolding flush_fat refill_fat
  read_fat w s =
      let (w₁, s₁) = flush_fat w s in
      let (w₂, s₂) = refill_fat w₁ s₁ in
      if s.buf_pos == length s.buf_data
      then (if s₁.error
          then (w₁, s₁, none)
          else if s₂.error || length s₂.buf_data == 0
          then (w₂, s₂, none)
          else next_byte w₂ s₂)
      else next_byte w s

  unfoldable pub read_string : D.State → Stream → D.State × Stream × Option ℕ
  read_string w s =
      if leb (length s.str_buf) s.str_pos
      then (w, record s { eof = true }, none)
      else (w, record s { str_pos = s.str_pos + 1 }, some (get_or s.str_buf s.str_pos 0))

  -- The part of `os_stream_read_char` behind the lookahead, by the kind.
  unfoldable pub read_kind : StreamKind → D.State → Stream → D.State × Stream × Option ℕ
  unfolding read_9p read_fat read_string
  read_kind p9_file_read w s = read_9p w s
  read_kind p9_file_io w s = read_9p w s
  read_kind fat_file_io w s = read_fat w s
  read_kind string_input w s = read_string w s
  read_kind input_keyboard w s = let (w', ch) = D.keyboard_read w in (w', s, ch)
  read_kind _ w s = (w, s, none)

  unfoldable pub read_char : D.State → Stream → D.State × Stream × Option ℕ
  unfolding read_kind
  read_char w s = if s.closed || s.eof || s.error then (w, s, none) else (elim s.lookahead [
    | some ch ↦ (w, record s { lookahead = none }, some ch)
    | none ↦ read_kind s.kind w s
  ])

  unfoldable pub preview_char : D.State → Stream → D.State × Stream × Option ℕ
  unfolding read_char
  preview_char w s =
      let (w', s', r) = read_char w s in
      elim s.lookahead [
        | some ch ↦ (w, s, some ch)
        | none ↦ elim r [
          | some ch ↦ (w', record s' { lookahead = some ch }, some ch)
          | none ↦ (w', s', none)
        ]
      ]

  -- A stream for both directions forgets the bytes that are not read yet.
  abbrev pub forget_read : StreamKind → Stream → Stream
  forget_read p9_file_io s = record s { buf_pos = 0; buf_data = [] }
  forget_read fat_file_io s = record s { buf_pos = 0; buf_data = [] }
  forget_read _ s = s

  -- A byte into `write_buf`, which is flushed when it is full.
  unfoldable pub buffer_char : D.State → Stream → ℕ → D.State × Stream × Bool
  unfolding flush advance_column
  buffer_char w s ch =
      let s₁ = forget_read s.kind s in
      let s₂ = record s₁ { write_buf = s₁.write_buf ++ (ch ∷ []) } in
      let (w', s₃) = if length s₂.write_buf == write_size then flush w s₂ else (w, s₂) in
      (w', advance_column s₃ ch, not s₃.error)

  unfoldable pub write_kind : StreamKind → D.State → Stream → ℕ → D.State × Stream × Bool
  unfolding buffer_char advance_column
  write_kind output_screen w s ch = (D.screen_write w ch, advance_column s ch, true)
  write_kind string_output w s ch =
      let s' =
        if ltb (length s.str_buf) s.str_cap
        then record s { str_buf = s.str_buf ++ (ch ∷ []) }
        else s in
      (w, advance_column s' ch, true)
  write_kind p9_file_write w s ch = buffer_char w s ch
  write_kind p9_file_io w s ch = buffer_char w s ch
  write_kind fat_file_write w s ch = buffer_char w s ch
  write_kind fat_file_io w s ch = buffer_char w s ch
  write_kind _ w s ch = (w, s, false)

  unfoldable pub write_char : D.State → Stream → ℕ → D.State × Stream × Bool
  unfolding write_kind
  write_char w s ch = if s.closed then (w, s, false) else write_kind s.kind w s ch

  unfoldable pub finish_output : D.State → Stream → D.State × Stream
  unfolding flush
  finish_output w s = flush w s

  unfoldable pub close_stream : D.State → Stream → D.State × Stream
  unfolding flush
  close_stream w s =
      let (w', s') = flush w s in
      let w'' =
        if is_9p_read_kind s.kind || is_9p_write_kind s.kind then D.close_fid w' s'.fid else w' in
      (w'', record s' { closed = true })
