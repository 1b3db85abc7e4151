-- ===== src/Virtio9p/Fids.antt =====
-- The fids that `os_virtio9p_open` and `os_virtio9p_create` of src/c/virtio9p.c give out.
use isiki.Prelude.{ℕ, ◌+◌, ◌%◌, ◌^◌, ◌≡◌, refl, ap, ◌∙◌, true, List, length, ltb, ◌==◌, codes}
use isiki.P9.{Text, build_twalk, parse_rwalk}
use isiki.Virtio9p.Strings.{str_copy, split_path}
use isiki.Virtio9p.{
  Client, M, Reply, done, failed, null_write, out_of_fuel, ErrMsg, ◌>>=◌, ◌>>◌, pure, require, ask,
  ensure_session, take_fid, walk, topen, tcreate, open_file, create, parents, last_component,
  read_chunk, write_chunk, close,
}
use isiki.Virtio9p.Interface.{Transport}
use isiki.Virtio9p.Session.{
  Keeps, OnDone, OnDone-bind, OnDone-Keeps, Established, ensure_session-Established, Keeps-bind,
  ask-Keeps, ask_ok-Keeps, require-Keeps,
}

module _ (T : Transport) where
  -- The fid is the next one of the client c, which is used up, and the session is established.
  abbrev pub Fresh : Client T → Client T → ℕ → Type 0
  Fresh c c' fid =
      (fid ≡ c.next_fid) × (c'.next_fid ≡ (c.next_fid + 1) % 2 ^ 32) × (c'.session_ready ≡ true)

  walk-Keeps :
      (newfid : ℕ) (wnames : List Text) (missing : Text) (err : ErrMsg)
      → Keeps T (walk T newfid wnames missing err)
  unfolding walk
  walk-Keeps newfid wnames missing err =
      Keeps-bind T
        (ask T (build_twalk 0 0 newfid wnames) (codes "Twalk") (λ buf len. parse_rwalk buf len) err
          (codes "Twalk: malformed Rwalk response"))
        (λ nwqid. require T (nwqid == length wnames) err missing) (ask-Keeps T _ _ _ err _)
        (λ nwqid. require-Keeps T _ err missing)

  topen-Keeps : (newfid mode : ℕ) (err : ErrMsg) → Keeps T (topen T newfid mode err)
  unfolding topen
  topen-Keeps newfid mode err = ask_ok-Keeps T _ _ _ err _

  tcreate-Keeps :
      (newfid : ℕ) (filename : Text) (perm mode : ℕ) (err : ErrMsg)
      → Keeps T (tcreate T newfid filename perm mode err)
  unfolding tcreate
  tcreate-Keeps newfid filename perm mode err = ask_ok-Keeps T _ _ _ err _

  -- A call that, if it succeeds, returns this fid and leaves the next one and the session alone.
  abbrev Returns : ℕ → M T ℕ → Type 0
  Returns fid m =
      (c : Client T)
      → OnDone T
          (λ c' r. (r ≡ fid) × (c'.next_fid ≡ c.next_fid) × (c'.session_ready ≡ c.session_ready))
          (m c)

  Returns-pure : (fid : ℕ) → Returns fid (pure T fid)
  Returns-pure fid c = (refl, refl, refl)

  Returns-step :
      (fid : ℕ) (m : M T (Unit {0})) (k : M T ℕ)
      → Keeps T m
      → Returns fid k
      → Returns fid (◌>>◌ T m k)
  Returns-step fid m k h r c =
      OnDone-bind T
        (λ (c' : Client T) (x : ℕ).
          (x ≡ fid) × (c'.next_fid ≡ c.next_fid) × (c'.session_ready ≡ c.session_ready))
        m (λ _. k) c
        (OnDone-Keeps T
          (λ (c₁ : Client T) (_ : Unit {0}).
            OnDone T
              (λ (c' : Client T) (x : ℕ).
                (x ≡ fid) × (c'.next_fid ≡ c.next_fid) × (c'.session_ready ≡ c.session_ready))
              (k c₁))
          m c h (λ c₁ _ e n. moved (k c₁).0 (k c₁).1 c₁ e n (r c₁)))
    where
      moved :
          (c' : Client T) (x : Reply ℕ) (c₁ : Client T)
          → c₁.session_ready ≡ c.session_ready
          → c₁.next_fid ≡ c.next_fid
          → OnDone T
              (λ (c' : Client T) (x : ℕ).
                (x ≡ fid) × (c'.next_fid ≡ c₁.next_fid) × (c'.session_ready ≡ c₁.session_ready))
              (c', x)
          → OnDone T
              (λ (c' : Client T) (x : ℕ).
                (x ≡ fid) × (c'.next_fid ≡ c.next_fid) × (c'.session_ready ≡ c.session_ready))
              (c', x)
      moved c' (done x) c₁ e n h = (h.0, h.1 ∙ n, h.2 ∙ e)
      moved c' (failed text) c₁ e n h = tt
      moved c' null_write c₁ e n h = tt
      moved c' out_of_fuel c₁ e n h = tt

  -- Behind `ensure_session` and `take_fid`, a call that returns the fid that it is given.
  session_then_fid :
      (err : ErrMsg) (c : Client T) (rest : ℕ → M T ℕ)
      → ((newfid : ℕ) → Returns newfid (rest newfid))
      → OnDone T (Fresh c) (◌>>◌ T (ensure_session T err) (◌>>=◌ T (take_fid T) rest) c)
  unfolding take_fid
  session_then_fid err c rest k =
      OnDone-bind T (Fresh c) (ensure_session T err) (λ _. ◌>>=◌ T (take_fid T) rest) c
        (go (ensure_session T err c).0 (ensure_session T err c).1
          (ensure_session-Established T err c).0)
    where
      taken : Client T → Client T
      taken c₁ = record c₁ { next_fid = (c₁.next_fid + 1) % 2 ^ 32 }

      used :
          (c₁ c' : Client T) (r : Reply ℕ)
          → c₁.session_ready ≡ true
          → c₁.next_fid ≡ c.next_fid
          → OnDone T
              (λ (c₂ : Client T) (x : ℕ).
                (x ≡ c₁.next_fid)
                × (c₂.next_fid ≡ (c₁.next_fid + 1) % 2 ^ 32)
                × (c₂.session_ready ≡ c₁.session_ready))
              (c', r)
          → OnDone T (Fresh c) (c', r)
      used c₁ c' (done x) ready same h =
          (h.0 ∙ same, h.1 ∙ ap (λ (t : ℕ). (t + 1) % 2 ^ 32) same, h.2 ∙ ready)
      used c₁ c' (failed text) ready same h = tt
      used c₁ c' null_write ready same h = tt
      used c₁ c' out_of_fuel ready same h = tt

      go :
          (c₁ : Client T) (r : Reply (Unit {0}))
          → Established T c.next_fid (c₁, r)
          → OnDone T
              (λ (c₂ : Client T) (_ : Unit {0}). OnDone T (Fresh c) (◌>>=◌ T (take_fid T) rest c₂))
              (c₁, r)
      go c₁ (done _) (ready, same) =
          used c₁ (rest c₁.next_fid (taken c₁)).0 (rest c₁.next_fid (taken c₁)).1 ready same
            (k c₁.next_fid (taken c₁))
      go c₁ (failed text) h = tt
      go c₁ null_write h = tt
      go c₁ out_of_fuel h = tt

  -- A file that is opened or created gets the next fid of the client, which is used up; the session is
  -- then established. Reads, writes and closes leave the next fid and the session alone.
  pub fids-Fresh :
      (path : Text) (perm mode : ℕ) (err : ErrMsg) (c : Client T)
      → OnDone T (Fresh c) (open_file T path mode err c)
        × OnDone T (Fresh c) (create T path perm mode err c)
        × ((fid offset want : ℕ) → Keeps T (read_chunk T fid offset want err))
        × ((fid offset : ℕ) (bytes : List ℕ) → Keeps T (write_chunk T fid offset bytes err))
        × ((fid : ℕ) → Keeps T (close T fid err))
  unfolding open_file create read_chunk write_chunk close
  fids-Fresh path perm mode err c =
      let wnames : List Text = split_path (str_copy 256 path) in
      let not_found : Text =
        codes "Twalk: path component not found (partial walk, check -fsdev path=)" in
      let no_parent : Text =
        codes "Twalk: parent directory not found (partial walk, check -fsdev path=)" in
      (
        session_then_fid err c
            (λ newfid.
              ◌>>◌ T (walk T newfid wnames not_found err)
                (◌>>◌ T (topen T newfid mode err) (pure T newfid)))
            (λ newfid.
              Returns-step newfid (walk T newfid wnames not_found err)
                (◌>>◌ T (topen T newfid mode err) (pure T newfid))
                (walk-Keeps newfid wnames not_found err)
                (Returns-step newfid (topen T newfid mode err) (pure T newfid)
                  (topen-Keeps newfid mode err) (Returns-pure newfid))),
        session_then_fid err c (creating wnames no_parent) (λ newfid.
            Returns-step newfid
              (require T (ltb 0 (length wnames)) err (codes "Tcreate: empty path"))
              (in_parent wnames no_parent newfid) (require-Keeps T _ err _)
              (Returns-step newfid (walk T newfid (parents wnames) no_parent err)
                (made wnames newfid) (walk-Keeps newfid (parents wnames) no_parent err)
                (Returns-step newfid (tcreate T newfid (last_component wnames) perm mode err)
                  (pure T newfid) (tcreate-Keeps newfid (last_component wnames) perm mode err)
                  (Returns-pure newfid)))),
        (λ fid offset want. ask-Keeps T _ _ _ err _),
        (λ fid offset bytes. ask-Keeps T _ _ _ err _),
        (λ fid. ask_ok-Keeps T _ _ _ err _),
      )
    where
      made : List Text → ℕ → M T ℕ
      made wnames newfid =
          ◌>>◌ T (tcreate T newfid (last_component wnames) perm mode err) (pure T newfid)

      in_parent : List Text → Text → ℕ → M T ℕ
      in_parent wnames no_parent newfid =
          ◌>>◌ T (walk T newfid (parents wnames) no_parent err) (made wnames newfid)

      creating : List Text → Text → ℕ → M T ℕ
      creating wnames no_parent newfid =
          ◌>>◌ T (require T (ltb 0 (length wnames)) err (codes "Tcreate: empty path"))
            (in_parent wnames no_parent newfid)
