-- ===== src/Virtio9p.antt =====
-- src/c/virtio9p.c: the client of the 9P server. Its static variables are the state of the client;
-- the transport is the one that the section is given. A text that a server sends is taken to hold no NUL.
pub mod Strings
pub mod Interface
pub mod Path
pub mod Session
pub mod Fids
pub mod Errors
pub mod Rpc
pub mod LoadFile
mod Runs
use isiki.Prelude.{
  ℕ, zero, suc, ◌+◌, ◌-◌, ◌%◌, ◌^◌, Bool, true, false, Option, none, some, List, [], ◌∷◌, ◌++◌, ltb,
  ◌==◌, if◌then◌else◌, length, take, codes,
}
use isiki.P9.{
  Text, build_tversion, build_tattach, build_twalk, build_topen, build_tread, build_tclunk,
  build_twrite, build_tcreate, parse_rversion, parse_rattach, parse_rwalk, parse_ropen, parse_rread,
  parse_rclunk, parse_rwrite, parse_rcreate, check_error,
}
use isiki.Virtio9p.Interface.{Transport, Received}
use isiki.Virtio9p.Strings.{str_copy, str_append, split_path}

abbrev pub msize : ℕ
msize = 8192

-- How a call ends: with its result; with the text left in `err_msg`; with a write through the null
-- `err_msg` that the caller passed; or, in the model only, out of fuel.
pub data Reply {ℓ} (A : Type ℓ) : Type ℓ where
  done : A → Reply A
  failed : Text → Reply A
  null_write : Reply A
  out_of_fuel : Reply A

-- `err_msg` with its capacity of 1 or more, or `none` for a null pointer.
abbrev pub ErrMsg : Type 0
ErrMsg = Option ℕ

-- `set_err`, on its own before `return 0`: a null `err_msg` is left alone.
unfoldable pub set_err {ℓ} : {A : Type ℓ} → ErrMsg → Text → Reply A
unfolding str_copy
set_err none msg = failed []
set_err (some capacity) msg = failed (str_copy capacity msg)

-- `set_err` of the stage, then two `str_append`, which do not test the pointer.
unfoldable pub stage_error {ℓ} : {A : Type ℓ} → ErrMsg → Text → Text → Text → Reply A
unfolding str_copy str_append
stage_error none stage infix_text text = null_write
stage_error (some capacity) stage infix_text text =
    failed (str_append (str_append (str_copy capacity stage) capacity infix_text) capacity text)

abbrev pub last_component : List Text → Text
last_component [] = []
last_component (name ∷ []) = name
last_component (name ∷ more ∷ names) = last_component (more ∷ names)

abbrev pub parents : List Text → List Text
parents [] = []
parents (name ∷ []) = []
parents (name ∷ more ∷ names) = name ∷ parents (more ∷ names)

module _ (T : Transport) where
  -- The transport, g_session_ready and g_next_fid.
  pub record Client : Type 0 where
    pub transport : T.State
    pub session_ready : Bool
    pub next_fid : ℕ

  abbrev pub M {ℓ} : Type ℓ → Type ℓ
  M A = Client → Client × Reply A

  infixl 5 ◌>>=◌ ◌>>◌
  abbrev pub ◌>>=◌ {ℓ κ} : {A : Type ℓ} {B : Type κ} → M A → (A → M B) → M B
  ◌>>=◌ m f c =
      let (c', r) = m c in
      elim r [
        | done a ↦ f a c'
        | failed e ↦ (c', failed e)
        | null_write ↦ (c', null_write)
        | out_of_fuel ↦ (c', out_of_fuel)
      ]

  abbrev pub ◌>>◌ {ℓ κ} : {A : Type ℓ} {B : Type κ} → M A → M B → M B
  m >> k = m >>= λ _. k

  abbrev pub pure {ℓ} : {A : Type ℓ} → A → M A
  pure a c = (c, done a)

  abbrev pub stop {ℓ} : {A : Type ℓ} → Reply A → M A
  stop r c = (c, r)

  -- A parser that failed ends the call with this text.
  abbrev pub parsed {ℓ} : {A : Type ℓ} → Option A → ErrMsg → Text → M A
  parsed (some a) err msg = pure a
  parsed none err msg = stop (set_err err msg)

  abbrev pub require : Bool → ErrMsg → Text → M (Unit {0})
  require true err msg = pure tt
  require false err msg = stop (set_err err msg)

  -- The receive buffer and the number of bytes in it.
  unfoldable pub check_reply : Text → ErrMsg → List ℕ → ℕ → Reply (List ℕ × ℕ)
  unfolding stage_error check_error
  check_reply stage err buf len = elim (check_error buf len 128) [
    | some text ↦ stage_error err stage (codes ": Rerror: ") text
    | none ↦ done (buf, len)
  ]

  unfoldable pub receive : Text → ErrMsg → Received → Reply (List ℕ × ℕ)
  unfolding check_reply stage_error
  receive stage err (Received.timed_out text) = stage_error err stage (codes ": ") text
  receive stage err (Received.received buf len) = check_reply stage err buf len

  unfoldable pub p9_rpc : List ℕ → Text → ErrMsg → M (List ℕ × ℕ)
  unfolding receive stage_error
  p9_rpc tx stage err c =
      let (sent, failure) = T.send c.transport tx in
      let (got, answer) = T.recv sent in
      elim failure [
        | some text ↦ (record c { transport = sent }, stage_error err stage (codes ": ") text)
        | none ↦ (record c { transport = got }, receive stage err answer)
      ]

  abbrev pub set_ready : M (Unit {0})
  set_ready c = (record c { session_ready = true }, done tt)

  abbrev pub ready_transport : ErrMsg → M (Unit {0})
  ready_transport err c =
      let (t, failure) = T.ensure_ready c.transport in
      (record c { transport = t }, elim failure [ some text ↦ set_err err text | none ↦ done tt ])

  -- A request whose reply a parser reads; `msg` is the error of a malformed reply.
  unfoldable pub ask {ℓ} :
      {A : Type ℓ} → List ℕ → Text → (List ℕ → ℕ → Option A) → ErrMsg → Text → M A
  unfolding p9_rpc set_err
  ask tx stage parse err msg = do (buf, len) ← p9_rpc tx stage err; parsed (parse buf len) err msg

  -- The same with a parser that only accepts or refuses.
  unfoldable pub ask_ok : List ℕ → Text → (List ℕ → ℕ → Bool) → ErrMsg → Text → M (Unit {0})
  unfolding p9_rpc set_err
  ask_ok tx stage parse err msg = do
    (buf, len) ← p9_rpc tx stage err
    require (parse buf len) err msg

  unfoldable pub tversion : ErrMsg → M (ℕ × Text)
  unfolding ask build_tversion parse_rversion
  tversion err =
      ask (build_tversion 0xffff msize (codes "9P2000.u")) (codes "Tversion")
        (λ buf len. parse_rversion buf len 16) err (codes "Tversion: malformed Rversion response")

  unfoldable pub tattach : ErrMsg → M (Unit {0})
  unfolding ask_ok build_tattach parse_rattach
  tattach err =
      ask_ok (build_tattach 0 0 0xffff_ffff (codes "root") [] 0xffff_ffff) (codes "Tattach")
        parse_rattach err (codes "Tattach: malformed Rattach response")

  -- The part of `os_virtio9p_ensure_session` behind its early return.
  unfoldable pub establish : ErrMsg → M (Unit {0})
  unfolding set_err tversion tattach
  establish err = do ready_transport err; tversion err; tattach err; set_ready

  unfoldable pub ensure_session : ErrMsg → M (Unit {0})
  unfolding establish
  ensure_session err c = if c.session_ready then (c, done tt) else establish err c

  -- `g_next_fid++` on 32 bits.
  unfoldable pub take_fid : M ℕ
  take_fid c = (record c { next_fid = (c.next_fid + 1) % 2 ^ 32 }, done c.next_fid)

  -- Twalk from the root along `wnames`; `missing` is the error of a partial walk.
  unfoldable pub walk : ℕ → List Text → Text → ErrMsg → M (Unit {0})
  unfolding ask set_err build_twalk parse_rwalk
  walk newfid wnames missing err = do
    nwqid ←
        ask (build_twalk 0 0 newfid wnames) (codes "Twalk") parse_rwalk err
          (codes "Twalk: malformed Rwalk response")
    require (nwqid == length wnames) err missing

  unfoldable pub topen : ℕ → ℕ → ErrMsg → M (Unit {0})
  unfolding ask_ok build_topen parse_ropen
  topen newfid mode err =
      ask_ok (build_topen 0 newfid mode) (codes "Topen") parse_ropen err
        (codes "Topen: malformed Ropen response")

  unfoldable pub open_file : Text → ℕ → ErrMsg → M ℕ
  unfolding ensure_session take_fid walk topen str_copy split_path
  open_file path mode err = do
    ensure_session err
    newfid ← take_fid
    walk newfid (split_path (str_copy 256 path))
        (codes "Twalk: path component not found (partial walk, check -fsdev path=)") err
    topen newfid mode err
    pure newfid

  unfoldable pub tcreate : ℕ → Text → ℕ → ℕ → ErrMsg → M (Unit {0})
  unfolding ask_ok build_tcreate parse_rcreate
  tcreate newfid filename perm mode err =
      ask_ok (build_tcreate 0 newfid filename perm mode) (codes "Tcreate") parse_rcreate err
        (codes "Tcreate: malformed Rcreate response")

  -- The test of the number of components comes after the fid is taken.
  unfoldable pub create : Text → ℕ → ℕ → ErrMsg → M ℕ
  unfolding ensure_session take_fid walk tcreate set_err str_copy split_path
  create path perm mode err = do
    ensure_session err
    newfid ← take_fid
    let wnames = split_path (str_copy 256 path)
    require (ltb 0 (length wnames)) err (codes "Tcreate: empty path")
    walk newfid (parents wnames)
        (codes "Twalk: parent directory not found (partial walk, check -fsdev path=)") err
    tcreate newfid (last_component wnames) perm mode err
    pure newfid

  unfoldable pub read_chunk : ℕ → ℕ → ℕ → ErrMsg → M (List ℕ)
  unfolding ask build_tread parse_rread
  read_chunk fid offset want err =
      ask (build_tread 0 fid offset want) (codes "Tread") parse_rread err
        (codes "Tread: malformed Rread response")

  unfoldable pub write_chunk : ℕ → ℕ → List ℕ → ErrMsg → M ℕ
  unfolding ask build_twrite parse_rwrite
  write_chunk fid offset bytes err =
      ask (build_twrite 0 fid offset bytes) (codes "Twrite") parse_rwrite err
        (codes "Twrite: malformed Rwrite response")

  unfoldable pub close : ℕ → ErrMsg → M (Unit {0})
  unfolding ask_ok build_tclunk parse_rclunk
  close fid err =
      ask_ok (build_tclunk 0 fid) (codes "Tclunk") parse_rclunk err
        (codes "Tclunk: malformed Rclunk response")

  -- `read_chunk`, and after a failure the close with a null `err_msg`, whose own failure is dropped.
  unfoldable pub read_or_close : ℕ → ℕ → ℕ → ErrMsg → M (List ℕ)
  unfolding read_chunk close
  read_or_close fid offset want err c =
      let (c', r) = read_chunk fid offset want err c in
      let (closed, end) = close fid none c' in
      elim r [
        | failed text ↦ (closed, elim end [ null_write ↦ null_write | _ ↦ failed text ])
        | done bytes ↦ (c', done bytes)
        | null_write ↦ (c', null_write)
        | out_of_fuel ↦ (c', out_of_fuel)
      ]

  -- `P9_MSIZE - 64`, or the rest of the buffer if that is less.
  unfoldable pub chunk_size : ℕ → ℕ
  chunk_size remaining = if ltb (msize - 64) remaining then msize - 64 else remaining

  -- The loop of `os_virtio9p_load_file` on fuel, with what `result_buf` holds so far and `total` on
  -- 32 bits. A server that sends more than it was asked for writes behind the buffer: then the bytes
  -- held are more than `result_cap`.
  unfoldable pub load_loop : ℕ → ℕ → ℕ → ℕ → ErrMsg → List ℕ → M (List ℕ)
  unfolding read_or_close chunk_size
  load_loop zero fid result_cap offset err held = stop out_of_fuel
  load_loop (suc fuel) fid result_cap offset err held =
      let remaining = (result_cap + 2 ^ 32 - length held % 2 ^ 32) % 2 ^ 32 in
      let round = read_or_close fid offset (chunk_size remaining) err in
      let next : List ℕ → M (List ℕ) = λ bytes.
        let rest =
          load_loop fuel fid result_cap ((offset + length bytes) % 2 ^ 64) err (held ++ bytes) in
        if length bytes == 0 then pure held else rest in
      if remaining == 0 then pure held else (round >>= next)

  -- Every round but the last reads a byte or more, so the capacity bounds the rounds.
  unfoldable pub load_file : Text → ℕ → ErrMsg → M (List ℕ)
  unfolding open_file load_loop close
  load_file path result_cap err = do
    fid ← open_file path 0 err
    result ← load_loop (suc result_cap) fid result_cap 0 err []
    close fid err
    pure result
