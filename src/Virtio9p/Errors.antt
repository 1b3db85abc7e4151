-- ===== src/Virtio9p/Errors.antt =====
-- The error texts of src/c/virtio9p.c.
use isiki.Prelude.{
  ℕ, zero, suc, ◌-◌, ◌≡◌, refl, ap, ◌∙◌, none, some, List, [], ◌∷◌, ◌++◌, arith, length, take,
  codes,
}
use isiki.P9.{Text, build_tclunk, check_error, parse_rclunk}
use isiki.Virtio9p.Strings.{str_copy, str_append}
use isiki.Virtio9p.{
  Client, Reply, failed, null_write, done, ErrMsg, stage_error, p9_rpc, receive, check_reply,
  read_chunk, read_or_close, close, ask_ok, ◌>>=◌, require, M, out_of_fuel,
}
use isiki.Virtio9p.Interface.{Transport, Received}

-- A buffer that is filled up in two steps.
take_two_steps : (n : ℕ) (a b : Text) → take n a ++ take (n - length (take n a)) b ≡ take n (a ++ b)
take_two_steps zero a b = ap (λ (k : ℕ). take k b) none_left
  where
    none_left : zero - zero ≡ zero
    none_left = omega arith
take_two_steps (suc n) [] b = ap (λ (k : ℕ). take k b) all_left
  where
    all_left : suc n - zero ≡ suc n
    all_left = omega arith
take_two_steps (suc n) (x ∷ a) b =
    ap (λ (k : ℕ). x ∷ take n a ++ take k b) step ∙ ap (λ (t : Text). x ∷ t) (take_two_steps n a b)
  where
    step : suc n - suc (length (take n a)) ≡ n - length (take n a)
    step = omega arith

stage_error-take {ℓ} :
    {A : Type ℓ} (capacity : ℕ) (stage infix_text text : Text)
    → stage_error {A = A} (some capacity) stage infix_text text
      ≡ failed (take (capacity - 1) (stage ++ infix_text ++ text))
unfolding stage_error str_append str_copy
stage_error-take capacity stage infix_text text =
    ap (λ (t : Text). failed (t ++ take (capacity - 1 - length t) text))
      (take_two_steps (capacity - 1) stage infix_text)
    ∙ ap (λ (t : Text). failed t) (take_two_steps (capacity - 1) (stage ++ infix_text) text)

module _ (T : Transport) where
  -- How an `p9_rpc` ends: if nothing is sent or received, or the reply is an Rerror, with the stage and
  -- the text in a buffer of this capacity.
  pub p9_rpc_errors :
      (c : Client T) (tx : List ℕ) (stage text : Text) (capacity : ℕ) (buf : List ℕ) (len : ℕ)
      → ((T.send c.transport tx).1 ≡ some text
          → (p9_rpc T tx stage (some capacity) c).1
            ≡ failed (take (capacity - 1) (stage ++ codes ": " ++ text)))
        × ((T.send c.transport tx).1 ≡ none
            → (T.recv (T.send c.transport tx).0).1 ≡ Received.timed_out text
            → (p9_rpc T tx stage (some capacity) c).1
              ≡ failed (take (capacity - 1) (stage ++ codes ": " ++ text)))
        × ((T.send c.transport tx).1 ≡ none
            → (T.recv (T.send c.transport tx).0).1 ≡ Received.received buf len
            → check_error buf len 128 ≡ some text
            → (p9_rpc T tx stage (some capacity) c).1
              ≡ failed (take (capacity - 1) (stage ++ codes ": Rerror: " ++ text)))
  unfolding p9_rpc receive check_reply
  p9_rpc_errors c tx stage text capacity buf len = (
    (λ not_sent. rw (p9_rpc, not_sent) (stage_error-take capacity stage (codes ": ") text)),
    (λ sent late.
        rw (p9_rpc, sent, late, receive) (stage_error-take capacity stage (codes ": ") text)),
    (λ sent got error.
        rw (p9_rpc, sent, got, receive, check_reply, error)
          (stage_error-take capacity stage (codes ": Rerror: ") text)),
  )

  p9_rpc_null :
      (c : Client T) (tx : List ℕ) (stage failure : Text)
      → (T.send c.transport tx).1 ≡ some failure
      → (p9_rpc T tx stage none c).1 ≡ null_write
  unfolding p9_rpc stage_error
  p9_rpc_null c tx stage failure e = rw (p9_rpc, e) refl

  bind_null {ℓ κ} :
      {A : Type ℓ} {B : Type κ} (m : M T A) (f : A → M T B) (c : Client T)
      → (m c).1 ≡ null_write
      → (◌>>=◌ T m f c).1 ≡ null_write
  bind_null {A = A} {B = B} m f c e = ap (λ (r : Reply A). (behind r).1) e
    where
      behind : Reply A → Client T × Reply B
      behind r = elim r [
        | done a ↦ f a (m c).0
        | failed t ↦ ((m c).0, failed t)
        | null_write ↦ ((m c).0, null_write)
        | out_of_fuel ↦ ((m c).0, out_of_fuel)
      ]

  -- After a read that failed, the close is given a null `err_msg`: if its request cannot be sent, the call
  -- writes through the null pointer.
  pub read_or_close_null :
      (c c₁ : Client T) (fid offset want : ℕ) (err : ErrMsg) (text failure : Text)
      → read_chunk T fid offset want err c ≡ (c₁, failed text)
      → (T.send c₁.transport (build_tclunk 0 fid)).1 ≡ some failure
      → (read_or_close T fid offset want err c).1 ≡ null_write
  unfolding read_or_close close ask_ok
  read_or_close_null c c₁ fid offset want err text failure e f =
      ap (λ (p : Client T × Reply (List ℕ)). (ended p.0 p.1).1) e
      ∙ ap dropped (
          bind_null (p9_rpc T (build_tclunk 0 fid) (codes "Tclunk") none)
            (λ r. require T (parse_rclunk r.0 r.1) none (codes "Tclunk: malformed Rclunk response"))
            c₁ (p9_rpc_null c₁ (build_tclunk 0 fid) (codes "Tclunk") failure f))
    where
      dropped : Reply (Unit {0}) → Reply (List ℕ)
      dropped end = elim end [ null_write ↦ null_write | _ ↦ failed text ]

      ended : Client T → Reply (List ℕ) → Client T × Reply (List ℕ)
      ended c' r = elim r [
        | failed t ↦ (
          (close T fid none c').0,
          elim (close T fid none c').1 [ null_write ↦ null_write | _ ↦ failed t ],
        )
        | done bytes ↦ (c', done bytes)
        | null_write ↦ (c', null_write)
        | out_of_fuel ↦ (c', out_of_fuel)
      ]
