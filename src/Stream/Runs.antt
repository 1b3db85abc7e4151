-- ===== src/Stream/Runs.antt =====
-- Small devices, and the theorems on the streams of src/c/stream.c at them.
use isiki.Prelude.{
  ℕ, ◌≤◌, ◌<◌, ◌≡◌, refl, ap, Bool, true, false, Option, none, some, List, [], ◌∷◌, ◌++◌, arith,
  if◌then◌else◌, length, take, drop, codes, length-take, length-drop, take-append-drop, take-length,
  ltb,
}
use isiki.Stream.Device.{Called, Devices, returned_nil, escaped}
use isiki.Stream.{
  Stream, read_char, preview_char, write_char, finish_output, close_stream, open_string_input,
  fat_file_write, open_fat_file, flush_fat, refill_fat,
}
use isiki.Stream.Invariant.{IsStream, ReadsWithin}
use isiki.Stream.Bounds.{operations-IsStream}
use isiki.Stream.Preview.{preview_char_then_read}
use isiki.Stream.Output.{write_text}
use isiki.Stream.WriteFile.{File, opened_for_write, written_file}
use isiki.Stream.Closed.{read, write, preview, finish, calls, closed_file}
use isiki.Stream.Transfer.{Escaped, transfers-Escaped}
use isiki.Stream.Input.{Served, opened_for_read, read_text, read_file}

abbrev content : List ℕ
content = codes "(print 42)"

-- Its state is a file that is written; another file, `content`, is served three bytes at a time.
abbrev desk : Devices
desk = record {
  State = List ℕ;
  open_fid = λ w path mode. (w, some 1);
  create_fid = λ w path perm mode. (w, some 1);
  read_chunk =
      λ w fid offset want. (w, some (take (if ltb want 3 then want else 3) (drop offset content)));
  write_chunk = λ w fid offset bytes. (take offset w ++ bytes, some (length bytes));
  close_fid = λ w fid. w;
  screen_write = λ w ch. w;
  keyboard_read = λ w. (w, none);
  write_from = λ w node offset bytes. (w, escaped 9);
  read_into = λ w node offset want. (w, returned_nil);
}

desk-ReadsWithin : ReadsWithin desk
desk-ReadsWithin w fid offset want bytes e = omega (
  arith,
  ap size e,
  length-take (if ltb want 3 then want else 3) (drop offset content),
  at_most want,
)
  where
    size : Option (List ℕ) → ℕ
    size (some b) = length b
    size none = 0

    at_most : (n : ℕ) → (if ltb n 3 then n else 3) ≤ n
    at_most n = ground arith

desk_file : File desk 1
desk_file = record {
  contents = λ w. w;
  writes = λ w bytes. (refl, ap (λ (t : List ℕ). t ++ bytes) (take-length w));
}

desk-Served : Served desk 1 content
desk-Served = record {
  reads = λ w offset h. (
    take 3 (drop offset content),
    refl,
    record {
      within = omega (arith, length-take 3 (drop offset content));
      rest = drop 3 (drop offset content);
      here = take-append-drop 3 (drop offset content);
      progress = λ p e.
          omega (arith, length-take 3 (drop offset content), length-drop 3 (drop offset content));
    },
  );
}

-- A string stream on "hi", and one that looked its first character ahead.
abbrev hi : Stream
hi = open_string_input (104 ∷ 105 ∷ [])

operations-IsStream_example :
    IsStream (read_char desk [] hi).1
    × IsStream (preview_char desk [] hi).1
    × IsStream (write_char desk [] hi 33).1
    × IsStream (finish_output desk [] hi).1
    × IsStream (close_stream desk [] hi).1
unfolding open_string_input
operations-IsStream_example =
    operations-IsStream desk desk-ReadsWithin [] hi 33
      (omega arith, omega arith, omega arith, omega arith, omega arith)

preview_char_then_read_example :
    (read_char desk []
        (record (open_string_input (104 ∷ 105 ∷ [])) { str_pos = 1; lookahead = some 104 })
      ≡ read_char desk [] hi)
    × (preview_char desk []
          (record (open_string_input (104 ∷ 105 ∷ [])) { str_pos = 1; lookahead = some 104 })
        ≡ (
          [],
          record (open_string_input (104 ∷ 105 ∷ [])) { str_pos = 1; lookahead = some 104 },
          some 104,
        ))
unfolding open_string_input preview_char
preview_char_then_read_example =
    preview_char_then_read desk [] [] hi (record hi { str_pos = 1; lookahead = some 104 }) 104
      (refl, refl, refl, refl) refl

written_file_example :
    let p : List ℕ × Stream × Bool = write_text desk [] (opened_for_write desk 1) (codes "hello") in
    ((finish_output desk p.0 p.1).0 ≡ codes "hello") × (p.2 ≡ true)
unfolding desk_file
written_file_example = written_file desk 1 desk_file [] (codes "hello") refl (omega arith)

closed_file_example :
    let p : List ℕ × Stream × Bool = write_text desk [] (opened_for_write desk 1) (codes "hello") in
    let q : List ℕ × Stream = close_stream desk p.0 p.1 in
    (q.0 ≡ codes "hello")
    × (calls desk (read ∷ write 33 ∷ preview ∷ finish ∷ []) q.0 q.1 ≡ (q.0, q.1, false))
unfolding desk_file
closed_file_example =
    closed_file desk 1 desk_file [] (codes "hello") (read ∷ write 33 ∷ preview ∷ finish ∷ [])
      (λ v. refl) refl (omega arith)

read_file_example : read_text desk 7 [] (opened_for_read desk 1) ≡ take 7 content
read_file_example = read_file desk 1 content desk-Served [] 7 (omega arith)

-- A FAT stream that holds a byte.
abbrev fat : Stream
fat = record (open_fat_file fat_file_write 5) { write_buf = 33 ∷ [] }

transfers-Escaped_example :
    (0 < 1
      → ◌≡◌ {A = Called (Unit {0})} (escaped 9) (escaped 9)
      → Escaped desk fat (flush_fat desk [] fat).1 9)
    × (◌≡◌ {A = Called (ℕ × List ℕ)} returned_nil (escaped 9)
        → Escaped desk fat (refill_fat desk [] fat).1 9)
transfers-Escaped_example = transfers-Escaped desk [] fat 9
