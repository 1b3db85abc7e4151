-- ===== src/Stream/Output.antt =====
-- What is written through a stream of src/c/stream.c arrives.
use isiki.Prelude.{
  ℕ, zero, suc, ◌+◌, ◌%◌, ◌^◌, ◌≤◌, ◌≡◌, refl, sym, ap, ◌∙◌, inl, inr, Bool, true, false, List, [],
  ◌∷◌, ◌++◌, arith, ltb, ◌==◌, if◌then◌else◌, length, take, Bool-cases, length-append, length-take,
  take-append, ltb→lt, ltb→ge,
}
use mathlib.Core.List.{append_assoc, append-nil}
use isiki.P9.Bytes.{take_all}
use isiki.Stream.Device.{Devices}
use isiki.Stream.{
  Stream, write_kind, write_char, advance_column, open_string_output, stream_init_common,
}

-- The column after a text, from a column: the characters behind the last newline, on 32 bits.
abbrev pub column_after : ℕ → List ℕ → ℕ
column_after column [] = column
column_after column (ch ∷ text) = column_after (if ch == 10 then 0 else (column + 1) % 2 ^ 32) text

take-take : (n : ℕ) (xs ys : List ℕ) → take n (take n xs ++ ys) ≡ take n (xs ++ ys)
take-take zero xs ys = refl
take-take (suc n) [] ys = refl
take-take (suc n) (x ∷ xs) ys = ap (λ (t : List ℕ). x ∷ t) (take-take n xs ys)

module _ (D : Devices) where
  -- A text is written a character at a time; the flag tells whether all writes succeeded.
  abbrev pub write_text : D.State → Stream → List ℕ → D.State × Stream × Bool
  write_text w s [] = (w, s, true)
  write_text w s (ch ∷ text) =
      let (w₁, s₁, ok) = write_char D w s ch in
      let (w₂, s₂, rest) = write_text w₁ s₁ text in (w₂, s₂, if ok then rest else false)

  -- The string output stream that holds `buf`.
  abbrev holding : ℕ → List ℕ → ℕ → Stream
  holding capacity buf column = record (open_string_output capacity) {
    str_buf = buf;
    column = column;
  }

  write_char-string :
      (w : D.State) (capacity column ch : ℕ) (buf : List ℕ)
      → length buf ≤ capacity
      → write_char D w (holding capacity buf column) ch ≡ (
        w,
        holding capacity
            (take capacity (buf ++ (ch ∷ [])))
            (if ch == 10 then 0 else (column + 1) % 2 ^ 32),
        true,
      )
  unfolding write_char write_kind advance_column open_string_output stream_init_common
  write_char-string w capacity column ch buf h = elim (Bool-cases (ltb (length buf) capacity)) [
    | inl e ↦
        rw (write_char, write_kind, e)
          (ap here (
            sym (
              take_all (buf ++ (ch ∷ [])) capacity
                (omega (arith, length-append buf (ch ∷ []), ltb→lt (length buf) capacity e)))))
    | inr e ↦
        rw (write_char, write_kind, e)
          (ap here (full (omega (arith, ltb→ge (length buf) capacity e))))
  ]
    where
      here : List ℕ → D.State × Stream × Bool
      here t = (w, holding capacity t (if ch == 10 then 0 else (column + 1) % 2 ^ 32), true)

      full : capacity ≡ length buf → buf ≡ take capacity (buf ++ (ch ∷ []))
      full e = sym (take-append buf (ch ∷ [])) ∙ ap (λ (n : ℕ). take n (buf ++ (ch ∷ []))) (sym e)

  write_text-holding :
      (w : D.State) (capacity column : ℕ) (buf text : List ℕ)
      → length buf ≤ capacity
      → write_text w (holding capacity buf column) text
        ≡ (w, holding capacity (take capacity (buf ++ text)) (column_after column text), true)
  write_text-holding w capacity column buf [] h =
      ap (λ (t : List ℕ). (w, holding capacity t column, true))
        (sym (append-nil buf)
          ∙ sym (take_all (buf ++ []) capacity (omega (arith, length-append buf []))))
  write_text-holding w capacity column buf (ch ∷ text) h =
      let next : ℕ = if ch == 10 then 0 else (column + 1) % 2 ^ 32 in
      let held : List ℕ = take capacity (buf ++ (ch ∷ [])) in
      ap (λ (p : D.State × Stream × Bool). then_rest p)
        (write_char-string w capacity column ch buf h)
      ∙ write_text-holding w capacity next held text
          (omega (arith, length-take capacity (buf ++ (ch ∷ []))))
      ∙ ap (λ (t : List ℕ). (w, holding capacity t (column_after next text), true))
          (take-take capacity (buf ++ (ch ∷ [])) text
            ∙ ap (take capacity) (append_assoc buf (ch ∷ []) text))
    where
      then_rest : D.State × Stream × Bool → D.State × Stream × Bool
      then_rest p = let q = write_text p.0 p.1 text in (q.0, q.1, if p.2 then q.2 else false)

  -- Writing a text to a new string output stream succeeds; the stream then holds the first `capacity`
  -- characters of the text, and the column that the whole text ends in.
  pub write_text-string :
      (w : D.State) (capacity : ℕ) (text : List ℕ)
      → ((write_text w (open_string_output capacity) text).1.str_buf ≡ take capacity text)
        × ((write_text w (open_string_output capacity) text).1.column ≡ column_after 0 text)
        × ((write_text w (open_string_output capacity) text).2 ≡ true)
  unfolding open_string_output stream_init_common
  write_text-string w capacity text =
      let e = write_text-holding w capacity 0 [] text (omega arith) in
      (
        ap (λ (p : D.State × Stream × Bool). p.1.str_buf) e,
        ap (λ (p : D.State × Stream × Bool). p.1.column) e,
        ap (λ (p : D.State × Stream × Bool). p.2) e,
      )
