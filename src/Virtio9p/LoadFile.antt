-- ===== src/Virtio9p/LoadFile.antt =====
-- `os_virtio9p_load_file` of src/c/virtio9p.c on a server that serves a file.
use isiki.Prelude.{
  ℕ, zero, suc, ◌+◌, ◌-◌, ◌%◌, ◌^◌, ◌≤◌, ◌<◌, ◌≡◌, ◌≢◌, refl, sym, ap, ◌∙◌, Bool, true, false, List,
  [], ◌∷◌, ◌++◌, arith, if◌then◌else◌, inl, inr, Bool-cases, length, ◌==◌, take, drop, ==→eq, ==→ne,
  length-append, drop-append, take-append,
}
use mathlib.Core.List.{append_assoc, append-nil}
use isiki.P9.Bytes.{take_all}
use isiki.P9.{Text, build_tread, build_tclunk}
use isiki.Virtio9p.{
  Client, M, Reply, done, ErrMsg, ◌>>=◌, ◌>>◌, pure, parsed, read_or_close, chunk_size, load_loop,
  load_file, open_file, close,
}
use isiki.Virtio9p.Interface.{Transport}
use isiki.Virtio9p.Rpc.{
  FileServer, moved, bind_done, close-Answers, read_chunk-Answers, read_or_close-done,
}

module _ (T : Transport) where
  module _ (fid : ℕ) (content : List ℕ) (server : FileServer T fid content) (result_cap : ℕ)
      (err : ErrMsg) where
    -- The loop went on to the first `result_cap` bytes of the file.
    abbrev Loaded : Client T × Reply (List ℕ) → Type 0
    Loaded p =
        (c : Client T) × (p ≡ (c, done (take result_cap content))) × server.Serving c.transport

    along : (p q : Client T × Reply (List ℕ)) → p ≡ q → Loaded q → Loaded p
    along p q e (c, f, s) = (c, e ∙ f, s)

    all_held :
        (held rest : List ℕ)
        → held ++ rest ≡ content
        → length held ≡ result_cap
        → held ≡ take result_cap content
    all_held held rest e f = sym (
        ap (λ (t : List ℕ). take result_cap t) (sym e)
        ∙ ap (λ (n : ℕ). take n (held ++ rest)) (sym f)
        ∙ take-append held rest)

    within :
        (held rest : List ℕ) (offset : ℕ)
        → held ++ rest ≡ content
        → offset ≡ length held
        → offset ≤ length content
    within held rest offset e f =
        omega (arith, length-append held rest, ap (λ (t : List ℕ). length t) e)

    -- What stands behind a round's read.
    abbrev next : ℕ → ℕ → List ℕ → List ℕ → M T (List ℕ)
    next fuel offset held bytes =
        let rest =
          load_loop T fuel fid result_cap ((offset + length bytes) % 2 ^ 64) err (held ++ bytes) in
        if length bytes == 0 then pure T held else rest

    round :
        (fuel remaining : ℕ) (c c₁ : Client T) (offset : ℕ) (held bytes : List ℕ)
        → (result_cap + 2 ^ 32 - length held % 2 ^ 32) % 2 ^ 32 ≡ remaining
        → (remaining == 0) ≡ false
        → read_or_close T fid offset (chunk_size T remaining) err c ≡ (c₁, done bytes)
        → load_loop T (suc fuel) fid result_cap offset err held c ≡ next fuel offset held bytes c₁
    unfolding load_loop
    round fuel remaining c c₁ offset held bytes left more e =
        ap (λ (n : ℕ). going n (n == 0)) left
        ∙ ap (going remaining) more
        ∙ bind_done T (read_or_close T fid offset (chunk_size T remaining) err)
            (next fuel offset held) c c₁ bytes e
      where
        going : ℕ → Bool → Client T × Reply (List ℕ)
        going n b =
            (if b
                then pure T held
                else ◌>>=◌ T (read_or_close T fid offset (chunk_size T n) err)
                    (next fuel offset held))
              c

    finished :
        (fuel : ℕ) (c : Client T) (offset : ℕ) (held : List ℕ)
        → (result_cap + 2 ^ 32 - length held % 2 ^ 32) % 2 ^ 32 ≡ 0
        → load_loop T (suc fuel) fid result_cap offset err held c ≡ (c, done held)
    unfolding load_loop
    finished fuel c offset held left = ap going left
      where
        going : ℕ → Client T × Reply (List ℕ)
        going n =
            (if n == 0
                then pure T held
                else ◌>>=◌ T (read_or_close T fid offset (chunk_size T n) err)
                    (next fuel offset held))
              c

    by_test :
        (b : Bool) (m k : M T (List ℕ)) (c : Client T)
        → (b ≡ true → Loaded (m c))
        → (b ≡ false → Loaded (k c))
        → Loaded ((if b then m else k) c)
    by_test true m k c h h' = h refl
    by_test false m k c h h' = h' refl

    -- A file that has ended lies in what is held.
    ended_at :
        (held bytes rest : List ℕ)
        → held ++ rest ≡ content
        → length rest ≡ 0
        → length held ≤ result_cap
        → held ≡ take result_cap content
    ended_at held bytes [] e h le = sym (
        take_all content result_cap (omega (arith, ap (λ (t : List ℕ). length t) whole))
        ∙ sym whole)
      where
        whole : held ≡ content
        whole = sym (append-nil held) ∙ e
    ended_at held bytes (x ∷ rest) e h le = absurd (omega arith)

    nothing_left :
        (bytes more rest : List ℕ)
        → bytes ++ more ≡ rest
        → length bytes ≡ 0
        → length more ≡ 0
        → length rest ≡ 0
    nothing_left bytes more rest e p q =
        omega (arith, length-append bytes more, ap (λ (t : List ℕ). length t) e)

    chunk_bounds : (n : ℕ) → 0 < n → (0 < chunk_size T n) × (chunk_size T n ≤ n)
    unfolding chunk_size
    chunk_bounds n h = ground arith

    load_loop-Loaded :
        (fuel : ℕ) (c : Client T) (offset : ℕ) (held rest : List ℕ)
        → result_cap < 2 ^ 32
        → server.Serving c.transport
        → held ++ rest ≡ content
        → offset ≡ length held
        → length held ≤ result_cap
        → result_cap - length held < fuel
        → Loaded (load_loop T fuel fid result_cap offset err held c)
    load_loop-Loaded zero c offset held rest p s e o h f = absurd (omega arith)
    load_loop-Loaded (suc fuel) c offset held rest p s e o h f =
        let n : ℕ = result_cap - length held in
        let left : (result_cap + 2 ^ 32 - length held % 2 ^ 32) % 2 ^ 32 ≡ n = omega arith in
        elim (Bool-cases (n == 0)) [
          | inl full ↦
              let none_left : n ≡ 0 = ==→eq n 0 full in
              (
                c,
                finished fuel c offset held (left ∙ none_left)
                    ∙ ap (λ (t : List ℕ). (c, done t)) (all_held held rest e (omega arith)),
                s,
              )
          | inr more ↦
              let some_left : n ≢ 0 = ==→ne n 0 more in
              let (some_wanted, room) = chunk_bounds n (omega arith) in
              let (a, bytes, parsed, part, serving) =
                server.reads c.transport offset (chunk_size T n) s (within held rest offset e o)
                  (omega arith) in
              let c₁ : Client T = moved T c (build_tread 0 fid offset (chunk_size T n)) in
              let here : bytes ++ part.rest ≡ rest =
                part.here
                ∙ ap (λ (t : List ℕ). drop offset t) (sym e)
                ∙ ap (λ (k : ℕ). drop k (held ++ rest)) o
                ∙ drop-append held rest in
              along (load_loop T (suc fuel) fid result_cap offset err held c)
                (next fuel offset held bytes c₁)
                (round fuel n c c₁ offset held bytes left more (
                  read_or_close-done T c c₁ fid offset (chunk_size T n) err bytes
                    (read_chunk-Answers T c fid offset (chunk_size T n) err a bytes parsed)))
                (by_test (length bytes == 0) (pure T held)
                  (load_loop T fuel fid result_cap ((offset + length bytes) % 2 ^ 64) err
                    (held ++ bytes))
                  c₁
                  (λ t.
                    let nothing : length bytes ≡ 0 = ==→eq (length bytes) 0 t in
                    (
                      c₁,
                      ap (λ (l : List ℕ). (c₁, done l))
                          (ended_at held bytes rest e
                            (nothing_left bytes part.rest rest here nothing
                              (part.progress some_wanted nothing))
                            h),
                      serving,
                    ))
                  (λ t.
                    let something : length bytes ≢ 0 = ==→ne (length bytes) 0 t in
                    let few : length bytes ≤ chunk_size T n = part.within in
                    load_loop-Loaded fuel c₁ ((offset + length bytes) % 2 ^ 64) (held ++ bytes)
                      part.rest p serving
                      (append_assoc held bytes part.rest ∙ ap (λ (r : List ℕ). held ++ r) here ∙ e)
                      (omega (arith, length-append held bytes))
                      (omega (arith, length-append held bytes))
                      (omega (arith, length-append held bytes))))
        ]

  -- If the file is opened as `fid` and the server then serves its content under that fid, `load_file`
  -- succeeds with the first `result_cap` bytes of the content, for a capacity below 2^32.
  pub load_file-FileServer :
      (path : Text) (fid : ℕ) (content : List ℕ) (server : FileServer T fid content)
      (result_cap : ℕ) (err : ErrMsg) (c c₁ : Client T)
      → result_cap < 2 ^ 32
      → open_file T path 0 err c ≡ (c₁, done fid)
      → server.Serving c₁.transport
      → (load_file T path result_cap err c).1 ≡ done (take result_cap content)
  unfolding load_file
  load_file-FileServer path fid content server result_cap err c c₁ p e s =
      let (c₂, loaded, serving) =
        load_loop-Loaded fid content server result_cap err (suc result_cap) c₁ 0 [] content p s refl
          refl (omega arith) (omega arith) in
      let (a, ok) = server.closes c₂.transport serving in
      ap (λ (q : Client T × Reply (List ℕ)). q.1)
        (bind_done T (open_file T path 0 err) reading c c₁ fid e
          ∙ bind_done T (load_loop T (suc result_cap) fid result_cap 0 err []) closing c₁ c₂
              (take result_cap content) loaded
          ∙ bind_done T (close T fid err) (λ _. pure T (take result_cap content)) c₂
              (moved T c₂ (build_tclunk 0 fid)) tt (close-Answers T c₂ fid err a ok))
    where
      closing : List ℕ → M T (List ℕ)
      closing result = ◌>>◌ T (close T fid err) (pure T result)

      reading : ℕ → M T (List ℕ)
      reading fid =
          ◌>>=◌ T (load_loop T (suc result_cap) fid result_cap 0 err [])
            (λ result. ◌>>◌ T (close T fid err) (pure T result))
