-- ===== src/Virtio9p/Rpc.antt =====
-- The requests of src/c/virtio9p.c that a server answers.
use isiki.Prelude.{
  ℕ, ◌^◌, ◌≤◌, ◌<◌, ◌≡◌, refl, ap, ◌∙◌, Bool, true, Option, none, some, List, ◌++◌, length, drop,
}
use isiki.P9.{Text, build_tread, build_tclunk, parse_rread, parse_rclunk, check_error}
use isiki.Virtio9p.{
  Client, M, Reply, done, failed, null_write, out_of_fuel, ErrMsg, ◌>>=◌, parsed, require, p9_rpc,
  receive, check_reply, ask, ask_ok, read_chunk, read_or_close, close,
}
use isiki.Virtio9p.Interface.{Transport, Received}

-- A read of at most `want` bytes at `offset`: some of the bytes there, and none only at the end.
pub record IsPart (content : List ℕ) (offset want : ℕ) (bytes : List ℕ) : Type 0 where
  pub within : length bytes ≤ want
  pub rest : List ℕ
  pub here : bytes ++ rest ≡ drop offset content
  pub progress : 0 < want → length bytes ≡ 0 → length rest ≡ 0

module _ (T : Transport) where
  -- The request is sent and answered, with no Rerror.
  pub record Answers (s : T.State) (tx : List ℕ) : Type 0 where
    pub sent : (T.send s tx).1 ≡ none
    pub buf : List ℕ
    pub len : ℕ
    pub got : (T.recv (T.send s tx).0).1 ≡ Received.received buf len
    pub no_error : check_error buf len 128 ≡ none

  abbrev pub after : T.State → List ℕ → T.State
  after s tx = (T.recv (T.send s tx).0).0

  -- A server that has the file `content` open as `fid`; `Serving` tells the states in which it does.
  pub record FileServer (fid : ℕ) (content : List ℕ) : Type 1 where
    pub Serving : T.State → Type 0
    pub reads :
        (s : T.State) (offset want : ℕ)
        → Serving s
        → offset ≤ length content
        → want < 2 ^ 32
        → (a : Answers s (build_tread 0 fid offset want)) × (bytes : List ℕ) × (parse_rread a.buf
              a.len
            ≡ some bytes)
          × IsPart content offset want bytes
          × Serving (after s (build_tread 0 fid offset want))
    pub closes :
        (s : T.State)
        → Serving s
        → (a : Answers s (build_tclunk 0 fid)) × (parse_rclunk a.buf a.len ≡ true)

  abbrev pub moved : Client T → List ℕ → Client T
  moved c tx = record c { transport = after c.transport tx }

  p9_rpc-Answers :
      (c : Client T) (tx : List ℕ) (stage : Text) (err : ErrMsg) (a : Answers c.transport tx)
      → p9_rpc T tx stage err c ≡ (moved c tx, done (a.buf, a.len))
  unfolding p9_rpc receive check_reply
  p9_rpc-Answers c tx stage err a =
      rw (p9_rpc, a.sent, a.got, receive, check_reply, a.no_error) refl

  -- A call that succeeds hands its result to what stands behind it.
  pub bind_done {ℓ κ} :
      {A : Type ℓ} {B : Type κ} (m : M T A) (f : A → M T B) (c c₁ : Client T) (x : A)
      → m c ≡ (c₁, done x)
      → ◌>>=◌ T m f c ≡ f x c₁
  bind_done {A = A} m f c c₁ x e =
      ap
        (λ (p : Client T × Reply A). elim p.1 [
          | done y ↦ f y p.0
          | failed t ↦ (p.0, failed t)
          | null_write ↦ (p.0, null_write)
          | out_of_fuel ↦ (p.0, out_of_fuel)
        ])
        e

  pub ask-Answers {ℓ} :
      {A : Type ℓ} (c : Client T) (tx : List ℕ) (stage : Text) (parse : List ℕ → ℕ → Option A)
      (err : ErrMsg) (msg : Text) (a : Answers c.transport tx) (x : A)
      → parse a.buf a.len ≡ some x
      → ask T tx stage parse err msg c ≡ (moved c tx, done x)
  unfolding ask
  ask-Answers {A = A} c tx stage parse err msg a x e =
      bind_done (p9_rpc T tx stage err) (λ r. parsed T (parse r.0 r.1) err msg) c (moved c tx)
        (a.buf, a.len) (p9_rpc-Answers c tx stage err a)
      ∙ ap (λ (o : Option A). parsed T o err msg (moved c tx)) e

  pub ask_ok-Answers :
      (c : Client T) (tx : List ℕ) (stage : Text) (parse : List ℕ → ℕ → Bool) (err : ErrMsg)
      (msg : Text) (a : Answers c.transport tx)
      → parse a.buf a.len ≡ true
      → ask_ok T tx stage parse err msg c ≡ (moved c tx, done tt)
  unfolding ask_ok
  ask_ok-Answers c tx stage parse err msg a e =
      bind_done (p9_rpc T tx stage err) (λ r. require T (parse r.0 r.1) err msg) c (moved c tx)
        (a.buf, a.len) (p9_rpc-Answers c tx stage err a)
      ∙ ap (λ (o : Bool). require T o err msg (moved c tx)) e

  pub close-Answers :
      (c : Client T) (fid : ℕ) (err : ErrMsg) (a : Answers c.transport (build_tclunk 0 fid))
      → parse_rclunk a.buf a.len ≡ true
      → close T fid err c ≡ (moved c (build_tclunk 0 fid), done tt)
  unfolding close
  close-Answers c fid err a e = ask_ok-Answers c (build_tclunk 0 fid) _ _ err _ a e

  pub read_chunk-Answers :
      (c : Client T) (fid offset want : ℕ) (err : ErrMsg)
      (a : Answers c.transport (build_tread 0 fid offset want)) (bytes : List ℕ)
      → parse_rread a.buf a.len ≡ some bytes
      → read_chunk T fid offset want err c ≡ (moved c (build_tread 0 fid offset want), done bytes)
  unfolding read_chunk
  read_chunk-Answers c fid offset want err a bytes e =
      ask-Answers c (build_tread 0 fid offset want) _ _ err _ a bytes e

  pub read_or_close-done :
      (c c₁ : Client T) (fid offset want : ℕ) (err : ErrMsg) (bytes : List ℕ)
      → read_chunk T fid offset want err c ≡ (c₁, done bytes)
      → read_or_close T fid offset want err c ≡ (c₁, done bytes)
  unfolding read_or_close
  read_or_close-done c c₁ fid offset want err bytes e =
      ap (λ (p : Client T × Reply (List ℕ)). ended p.0 p.1) e
    where
      ended : Client T → Reply (List ℕ) → Client T × Reply (List ℕ)
      ended c' r = elim r [
        | failed text ↦ (
          (close T fid none c').0,
          elim (close T fid none c').1 [ null_write ↦ null_write | _ ↦ failed text ],
        )
        | done bytes ↦ (c', done bytes)
        | null_write ↦ (c', null_write)
        | out_of_fuel ↦ (c', out_of_fuel)
      ]
