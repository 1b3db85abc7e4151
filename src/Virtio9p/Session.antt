-- ===== src/Virtio9p/Session.antt =====
-- The session and the fids of src/c/virtio9p.c.
use isiki.Prelude.{
  ℕ, ◌≡◌, refl, ◌∙◌, Bool, true, false, Option, none, some, List, arith, if◌then◌else◌, inl, inr,
  Option-cases,
}
use isiki.P9.{Text}
use isiki.Virtio9p.{
  Client, M, Reply, done, failed, null_write, out_of_fuel, ErrMsg, ◌>>=◌, ◌>>◌, parsed, require,
  p9_rpc, ask, ask_ok, tversion, tattach, ready_transport, set_ready, establish, ensure_session,
}
use isiki.Virtio9p.Interface.{Transport}

abbrev pub is_done {ℓ} : {A : Type ℓ} → Reply A → Bool
is_done (done a) = true
is_done (failed text) = false
is_done null_write = false
is_done out_of_fuel = false

module _ (T : Transport) where
  -- A call that leaves the session flag and the next fid alone.
  abbrev pub Keeps {ℓ} : {A : Type ℓ} → M T A → Type 0
  Keeps m =
      (c : Client T) → ((m c).0.session_ready ≡ c.session_ready) × ((m c).0.next_fid ≡ c.next_fid)

  -- What a call leaves if it succeeds.
  abbrev pub OnDone {ℓ κ} : {A : Type ℓ} → (Client T → A → Type κ) → Client T × Reply A → Type κ
  OnDone Q (c, done a) = Q c a
  OnDone Q (c, failed text) = Unit
  OnDone Q (c, null_write) = Unit
  OnDone Q (c, out_of_fuel) = Unit

  pub OnDone-bind {ℓ κ μ} :
      {A : Type ℓ} {B : Type κ} (Q : Client T → B → Type μ) (m : M T A) (f : A → M T B)
      (c : Client T)
      → OnDone (λ (c' : Client T) (a : A). OnDone Q (f a c')) (m c)
      → OnDone Q (◌>>=◌ T m f c)
  OnDone-bind {A = A} Q m f c h = go (m c).0 (m c).1 h
    where
      go :
          (c' : Client T) (r : Reply A)
          → OnDone (λ (c' : Client T) (a : A). OnDone Q (f a c')) (c', r)
          → OnDone Q (elim r [
            | done a ↦ f a c'
            | failed e ↦ (c', failed e)
            | null_write ↦ (c', null_write)
            | out_of_fuel ↦ (c', out_of_fuel)
          ])
      go c' (done a) h = h
      go c' (failed text) h = tt
      go c' null_write h = tt
      go c' out_of_fuel h = tt

  -- Every success has a property that holds of all results and states that the call keeps.
  pub OnDone-Keeps {ℓ κ} :
      {A : Type ℓ} (Q : Client T → A → Type κ) (m : M T A) (c : Client T)
      → Keeps m
      → ((c' : Client T) (a : A)
          → c'.session_ready ≡ c.session_ready
          → c'.next_fid ≡ c.next_fid
          → Q c' a)
      → OnDone Q (m c)
  OnDone-Keeps {A = A} Q m c k h = go (m c).0 (m c).1 (k c).0 (k c).1
    where
      go :
          (c' : Client T) (r : Reply A)
          → c'.session_ready ≡ c.session_ready
          → c'.next_fid ≡ c.next_fid
          → OnDone Q (c', r)
      go c' (done a) e f = h c' a e f
      go c' (failed text) e f = tt
      go c' null_write e f = tt
      go c' out_of_fuel e f = tt

  pub p9_rpc-Keeps : (tx : List ℕ) (stage : Text) (err : ErrMsg) → Keeps (p9_rpc T tx stage err)
  unfolding p9_rpc
  p9_rpc-Keeps tx stage err c = elim (Option-cases (T.send c.transport tx).1) [
    | inl e ↦ rw (e, p9_rpc) (refl, refl)
    | inr (text, e) ↦ rw (e, p9_rpc) (refl, refl)
  ]

  pub parsed-Keeps {ℓ} :
      {A : Type ℓ} (o : Option A) (err : ErrMsg) (msg : Text) → Keeps (parsed T o err msg)
  parsed-Keeps (some a) err msg c = (refl, refl)
  parsed-Keeps none err msg c = (refl, refl)

  pub require-Keeps : (b : Bool) (err : ErrMsg) (msg : Text) → Keeps (require T b err msg)
  require-Keeps true err msg c = (refl, refl)
  require-Keeps false err msg c = (refl, refl)

  -- How `ensure_session` leaves a client whose next fid was n: the flag tells the success.
  abbrev pub Established : ℕ → Client T × Reply (Unit {0}) → Type 0
  Established n (c, r) = (c.session_ready ≡ is_done r) × (c.next_fid ≡ n)

  Established-bind {ℓ} :
      {A : Type ℓ} (m : M T A) (f : A → M T (Unit {0})) (c : Client T)
      → Keeps m
      → c.session_ready ≡ false
      → ((a : A) (c' : Client T)
          → c'.session_ready ≡ false
          → c'.next_fid ≡ c.next_fid
          → Established c.next_fid (f a c'))
      → Established c.next_fid (◌>>=◌ T m f c)
  Established-bind {A = A} m f c k e h = go (m c).0 (m c).1 ((k c).0 ∙ e) (k c).1
    where
      go :
          (c' : Client T) (r : Reply A)
          → c'.session_ready ≡ false
          → c'.next_fid ≡ c.next_fid
          → Established c.next_fid (elim r [
            | done a ↦ f a c'
            | failed e ↦ (c', failed e)
            | null_write ↦ (c', null_write)
            | out_of_fuel ↦ (c', out_of_fuel)
          ])
      go c' (done a) e n = h a c' e n
      go c' (failed text) e n = (e, n)
      go c' null_write e n = (e, n)
      go c' out_of_fuel e n = (e, n)

  pub Keeps-bind {ℓ κ} :
      {A : Type ℓ} {B : Type κ} (m : M T A) (f : A → M T B)
      → Keeps m
      → ((a : A) → Keeps (f a))
      → Keeps (◌>>=◌ T m f)
  Keeps-bind {A = A} {B = B} m f k h c = go (m c).0 (m c).1 (k c).0 (k c).1
    where
      go :
          (c' : Client T) (r : Reply A)
          → c'.session_ready ≡ c.session_ready
          → c'.next_fid ≡ c.next_fid
          → let p : Client T × Reply B = elim r [
            | done a ↦ f a c'
            | failed e ↦ (c', failed e)
            | null_write ↦ (c', null_write)
            | out_of_fuel ↦ (c', out_of_fuel)
          ] in
            (p.0.session_ready ≡ c.session_ready) × (p.0.next_fid ≡ c.next_fid)
      go c' (done a) e n = ((h a c').0 ∙ e, (h a c').1 ∙ n)
      go c' (failed text) e n = (e, n)
      go c' null_write e n = (e, n)
      go c' out_of_fuel e n = (e, n)

  pub ask-Keeps {ℓ} :
      {A : Type ℓ} (tx : List ℕ) (stage : Text) (parse : List ℕ → ℕ → Option A) (err : ErrMsg)
      (msg : Text)
      → Keeps (ask T tx stage parse err msg)
  unfolding ask
  ask-Keeps tx stage parse err msg =
      Keeps-bind (p9_rpc T tx stage err) (λ r. parsed T (parse r.0 r.1) err msg)
        (p9_rpc-Keeps tx stage err) (λ r. parsed-Keeps (parse r.0 r.1) err msg)

  pub ask_ok-Keeps :
      (tx : List ℕ) (stage : Text) (parse : List ℕ → ℕ → Bool) (err : ErrMsg) (msg : Text)
      → Keeps (ask_ok T tx stage parse err msg)
  unfolding ask_ok
  ask_ok-Keeps tx stage parse err msg =
      Keeps-bind (p9_rpc T tx stage err) (λ r. require T (parse r.0 r.1) err msg)
        (p9_rpc-Keeps tx stage err) (λ r. require-Keeps (parse r.0 r.1) err msg)

  ready_transport-Keeps : (err : ErrMsg) → Keeps (ready_transport T err)
  ready_transport-Keeps err c = (refl, refl)

  tversion-Keeps : (err : ErrMsg) → Keeps (tversion T err)
  unfolding tversion
  tversion-Keeps err = ask-Keeps _ _ _ err _

  tattach-Keeps : (err : ErrMsg) → Keeps (tattach T err)
  unfolding tattach
  tattach-Keeps err = ask_ok-Keeps _ _ _ err _

  establish-Established :
      (err : ErrMsg) (c : Client T)
      → c.session_ready ≡ false
      → Established c.next_fid (establish T err c)
  unfolding establish
  establish-Established err c e =
      Established-bind (ready_transport T err)
        (λ _. ◌>>◌ T (tversion T err) (◌>>◌ T (tattach T err) (set_ready T))) c
        (ready_transport-Keeps err) e
        (λ _ c₁ e₁ n₁. rw (← n₁) (
          Established-bind (tversion T err) (λ _. ◌>>◌ T (tattach T err) (set_ready T)) c₁
            (tversion-Keeps err) e₁
            (λ _ c₂ e₂ n₂. rw (← n₂) (
              Established-bind (tattach T err) (λ _. set_ready T) c₂ (tattach-Keeps err) e₂
                (λ _ c₃ e₃ n₃. (refl, n₃))))))

  -- `ensure_session` leaves the session flag set exactly if it succeeds, and the next fid alone; on an
  -- established session it does nothing.
  pub ensure_session-Established :
      (err : ErrMsg) (c : Client T)
      → Established c.next_fid (ensure_session T err c)
        × (c.session_ready ≡ true → ensure_session T err c ≡ (c, done tt))
  unfolding ensure_session
  ensure_session-Established err c = by_flag c.session_ready refl
    where
      by_flag :
          (b : Bool)
          → c.session_ready ≡ b
          → let p : Client T × Reply (Unit {0}) = if b then (c, done tt) else establish T err c in
            Established c.next_fid p × (b ≡ true → p ≡ (c, done tt))
      by_flag true e = ((e, refl), λ _. refl)
      by_flag false e = (establish-Established err c e, λ h. absurd (ground arith))
