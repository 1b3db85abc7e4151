-- ===== src/Integer/Floor.antt =====
-- `floor_divmod` of src/c/runtime.c is division with the quotient rounded down.
use isiki.Prelude.{
  ℕ, suc, ◌+◌, ◌-◌, ◌*◌, ◌≤◌, ◌<◌, ◌≡◌, ◌≢◌, refl, sym, ap, ◌∙◌, Bool, true, false, not, Option,
  none, some, List, [], ◌∷◌, arith, ◌==◌, ==→eq, ==→ne, if◌then◌else◌, inl, inr, length, All,
  Bool-cases,
}
use isiki.Prelude.Int.{ℤ, pos, negsuc, pos_part, neg_part, signed, ◌+ℤ◌, ◌*ℤ◌}
use isiki.Fixnum.{same, os_make_fixnum, os_fixnum_magnitude, os_fixnum_is_negative}
use isiki.Fixnum.Exact.{add_left, mul_signed}
use isiki.Fixnum.Word.{IsFixnum, to_ℤ}
use isiki.Mag.{IsLimb, val, mag_add, mag_sub}
use isiki.Mag.Value.{IsNormal}
use isiki.Mag.Sum.{mag_add_pos, mag_sub_pos, mag_add_correct, mag_sub_correct}
use isiki.Mag.Divide.{mag_divmod}
use isiki.Mag.Divide.Correct.{mag_divmod_correct, mag_divmod-IsNormal}
use isiki.Integer.{
  Value, fixnum, SignedMag, decompose, is_zero_mag, os_make_integer, floor_adjust, floor_divmod,
}
use isiki.Integer.Canonical.{
  IsInteger, int_val, is_zero_mag-val, os_make_integer-IsInteger, decompose-IsView,
}

-- The remainder lies between 0 and the divisor, and is not the divisor.
abbrev pub Within : ℤ → ℤ → Type 0
Within (pos n) r = (neg_part r ≡ 0) × (pos_part r < n)
Within (negsuc n) r = (pos_part r ≡ 0) × (neg_part r < suc n)

abbrev pub IsFloor : ℤ → ℤ → Option (Value × Value) → Type 0
IsFloor a b none = b ≡ pos 0
IsFloor a b (some (q, r)) =
    (a ≡ int_val q *ℤ b +ℤ int_val r) × Within b (int_val r) × IsInteger q × IsInteger r

-- The three cases of the signs, on magnitudes m = q * n + r.
exact_case :
    (s t : Bool) (m n q : ℕ)
    → m ≡ q * n
    → signed s m ≡ signed (not (same s t)) q *ℤ signed t n +ℤ pos 0
unfolding ◌*ℤ◌ ◌+ℤ◌
exact_case s t m n q e = grind arith

like_case :
    (s : Bool) (m n q r : ℕ)
    → m ≡ q * n + r
    → signed s m ≡ signed false q *ℤ signed s n +ℤ signed s r
unfolding ◌*ℤ◌ ◌+ℤ◌
like_case s m n q r e = grind arith

unlike_case :
    (s t : Bool) (m n q r : ℕ)
    → same s t ≡ false
    → m ≡ q * n + r
    → r ≤ n
    → signed s m ≡ signed true (q + 1) *ℤ signed t n +ℤ signed t (n - r)
unlike_case s t m n q r d e h =
    ap (signed s) less
    ∙ add_left s t ((q + 1) * n) (n - r) d (omega (arith, less))
    ∙ ap (λ (z : ℤ). z +ℤ signed t (n - r))
        (ap (λ (b : Bool). signed b ((q + 1) * n)) (other_sign s t d) ∙ mul_signed true t (q + 1) n)
  where
    less : m ≡ (q + 1) * n - (n - r)
    less = omega arith

    other_sign : (s t : Bool) → same s t ≡ false → s ≡ not (same true t)
    other_sign s t d = ground arith

Within-signed : (t : Bool) (n r : ℕ) → r < n → Within (signed t n) (signed t r)
Within-signed t n r h = ground arith

-- A magnitude that was wrapped as an integer, and taken out again.
record Rewrapped (l l' : List ℕ) : Type 0 where
  kept : val l' ≡ val l
  limbs : All IsLimb l'
  filled : 0 < length l'

rewrap :
    (l : List ℕ)
    → All IsLimb l
    → 0 < length l
    → Rewrapped l (decompose (os_make_integer false l)).limbs
rewrap l h p =
    let (i, v) = os_make_integer-IsInteger false l h p in
    let view = decompose-IsView (os_make_integer false l) i in
    record { kept = magnitude _ _ _ (view.value ∙ v); limbs = view.limbs; filled = view.normal.0 }
  where
    magnitude : (s : Bool) (m n : ℕ) → signed s m ≡ pos n → m ≡ n
    magnitude s m n e = ground arith

module _ (t : Bool) (n q r : ℕ) (m2 ql rl : List ℕ) where
  -- The result of equal signs.
  like-IsFloor :
      (m : ℕ)
      → m ≡ q * n + r
      → r < n
      → All IsLimb ql × (0 < length ql) × (val ql ≡ q)
      → All IsLimb rl × (0 < length rl) × (val rl ≡ r)
      → IsFloor (signed t m) (signed t n) (some (os_make_integer false ql, os_make_integer t rl))
  like-IsFloor m e lt hq hr =
      let (iq, vq) = os_make_integer-IsInteger false ql hq.0 hq.1 in
      let (ir, vr) = os_make_integer-IsInteger t rl hr.0 hr.1 in
      let vq' : int_val (os_make_integer false ql) ≡ signed false q = vq ∙ ap (signed false) hq.2 in
      let vr' : int_val (os_make_integer t rl) ≡ signed t r = vr ∙ ap (signed t) hr.2 in
      rw (vq', vr') (like_case t m n q r e, Within-signed t n r lt, iq, ir)

  -- The result of unlike signs, where the remainder is not 0.
  unlike-IsFloor :
      (s : Bool) (m : ℕ)
      → same s t ≡ false
      → m ≡ q * n + r
      → r < n
      → 0 < r
      → All IsLimb ql × (val ql ≡ q)
      → All IsLimb rl × (val rl ≡ r)
      → All IsLimb m2 × (0 < length m2) × (val m2 ≡ n)
      → IsFloor
          (signed s m)
          (signed t n)
          (some (os_make_integer true (mag_add ql (1 ∷ [])), os_make_integer t (mag_sub m2 rl)))
  unlike-IsFloor s m d e lt pos_r hq hr h2 =
      let (eq, lq) = mag_add_correct ql (1 ∷ []) hq.0 (omega arith) in
      let (er, lr) = mag_sub_correct m2 rl h2.0 hr.0 (omega arith) in
      let (iq, vq) =
        os_make_integer-IsInteger true (mag_add ql (1 ∷ [])) lq (mag_add_pos ql (1 ∷ [])) in
      let (ir, vr) = os_make_integer-IsInteger t (mag_sub m2 rl) lr (mag_sub_pos m2 rl h2.1) in
      let up : val (mag_add ql (1 ∷ [])) ≡ q + 1 = omega arith in
      let rest : val (mag_sub m2 rl) ≡ n - r = omega arith in
      let vq' : int_val (os_make_integer true (mag_add ql (1 ∷ []))) ≡ signed true (q + 1) =
        vq ∙ ap (signed true) up in
      let vr' : int_val (os_make_integer t (mag_sub m2 rl)) ≡ signed t (n - r) =
        vr ∙ ap (signed t) rest in
      rw (vq', vr')
        (unlike_case s t m n q r d e (omega arith), Within-signed t n (n - r) (omega arith), iq, ir)

-- The case of a remainder that is not 0.
floor_adjust-IsFloor :
    (s t : Bool) (m : ℕ) (m2 q r : List ℕ)
    → All IsLimb m2
    → 0 < length m2
    → All IsLimb q
    → All IsLimb r
    → 0 < length q
    → 0 < length r
    → m ≡ val q * val m2 + val r
    → val r < val m2
    → 0 < val r
    → IsFloor
        (signed s m)
        (signed t (val m2))
        (some (floor_adjust s t m2 (os_make_integer false q) (os_make_integer false r)))
unfolding floor_adjust
floor_adjust-IsFloor s t m m2 q r h2 p2 hq hr pq pr e lt p =
    go s t (rewrap q hq pq) (rewrap r hr pr)
  where
    ql : List ℕ
    ql = (decompose (os_make_integer false q)).limbs

    rl : List ℕ
    rl = (decompose (os_make_integer false r)).limbs

    go :
        (s t : Bool)
        → Rewrapped q ql
        → Rewrapped r rl
        → IsFloor
            (signed s m)
            (signed t (val m2))
            (some (floor_adjust s t m2 (os_make_integer false q) (os_make_integer false r)))
    go true true wq wr =
        like-IsFloor true (val m2) (val q) (val r) m2 ql rl m e lt (wq.limbs, wq.filled, wq.kept)
          (wr.limbs, wr.filled, wr.kept)
    go true false wq wr =
        unlike-IsFloor false (val m2) (val q) (val r) m2 ql rl true m refl e lt p
          (wq.limbs, wq.kept) (wr.limbs, wr.kept) (h2, p2, refl)
    go false true wq wr =
        unlike-IsFloor true (val m2) (val q) (val r) m2 ql rl false m refl e lt p
          (wq.limbs, wq.kept) (wr.limbs, wr.kept) (h2, p2, refl)
    go false false wq wr =
        like-IsFloor false (val m2) (val q) (val r) m2 ql rl m e lt (wq.limbs, wq.filled, wq.kept)
          (wr.limbs, wr.filled, wr.kept)

zero-IsFixnum : IsFixnum (os_make_fixnum 0) × (to_ℤ (os_make_fixnum 0) ≡ pos 0)
unfolding os_make_fixnum os_fixnum_magnitude os_fixnum_is_negative
zero-IsFixnum = (omega arith, refl)

zero-Within : (t : Bool) (n : ℕ) → 0 < n → Within (signed t n) (pos 0)
zero-Within t n h = ground arith

-- A division without remainder.
exact-IsFloor :
    (s t : Bool) (m n : ℕ) (q : List ℕ)
    → All IsLimb q
    → 0 < length q
    → m ≡ val q * n
    → 0 < n
    → IsFloor
        (signed s m)
        (signed t n)
        (some (os_make_integer (not (same s t)) q, fixnum (os_make_fixnum 0)))
exact-IsFloor s t m n q hq pq e pn =
    let (iq, vq) = os_make_integer-IsInteger (not (same s t)) q hq pq in
    rw (vq, zero-IsFixnum.1) (exact_case s t m n (val q) e, zero-Within t n pn, iq, zero-IsFixnum.0)

divided :
    (m1 m2 : SignedMag)
    → All IsLimb m1.limbs
    → IsNormal m1.limbs
    → All IsLimb m2.limbs
    → IsNormal m2.limbs
    → 0 < val m2.limbs
    → let qr = mag_divmod m1.limbs m2.limbs in
      IsFloor (signed m1.sign (val m1.limbs)) (signed m2.sign (val m2.limbs)) (
        if is_zero_mag qr.1
        then some (os_make_integer (not (same m1.sign m2.sign)) qr.0, fixnum (os_make_fixnum 0))
        else some (
            floor_adjust m1.sign m2.sign m2.limbs
              (os_make_integer false qr.0)
              (os_make_integer false qr.1)))
divided m1 m2 h1 n1 h2 n2 p =
    let qr : List ℕ × List ℕ = mag_divmod m1.limbs m2.limbs in
    let (e, lt, hq, hr) = mag_divmod_correct m1.limbs m2.limbs h1 h2 p in
    let (nq, nr) = mag_divmod-IsNormal m1.limbs m2.limbs h1 h2 n1.0 p in
    let zero_test : is_zero_mag qr.1 ≡ (val qr.1 == 0) = is_zero_mag-val qr.1 hr nr in
    elim (Bool-cases (is_zero_mag qr.1)) [
      | inl z ↦ rw (z) (
          let none_left : val qr.1 ≡ 0 = ==→eq _ _ (sym zero_test ∙ z) in
          exact-IsFloor m1.sign m2.sign (val m1.limbs) (val m2.limbs) qr.0 hq nq.0
            (omega (arith, e, none_left)) p)
      | inr z ↦ rw (z) (
          let left : val qr.1 ≢ 0 = ==→ne _ _ (sym zero_test ∙ z) in
          floor_adjust-IsFloor m1.sign m2.sign (val m1.limbs) m2.limbs qr.0 qr.1 h2 n2.0 hq hr nq.0
            nr.0 e lt (omega (arith, left)))
    ]

-- On well-formed integers `floor_divmod` reports a zero divisor exactly when the divisor is 0, and
-- otherwise gives well-formed integers q and r with z1 = q * z2 + r, where r lies between 0 and z2
-- and is not z2.
pub floor_divmod-IsFloor :
    (z1 z2 : Value)
    → IsInteger z1
    → IsInteger z2
    → IsFloor (int_val z1) (int_val z2) (floor_divmod z1 z2)
unfolding floor_divmod
floor_divmod-IsFloor z1 z2 h1 h2 =
    let v1 = decompose-IsView z1 h1 in
    let v2 = decompose-IsView z2 h2 in
    let zero_test = is_zero_mag-val _ v2.limbs v2.normal in
    rw (← v1.value, ← v2.value)
      (elim (Bool-cases (is_zero_mag (decompose z2).limbs)) [
        | inl z ↦ rw (z) (zero_divisor _ _ (==→eq _ _ (sym zero_test ∙ z)))
        | inr z ↦ rw (z) (
            divided (decompose z1) (decompose z2) v1.limbs v1.normal v2.limbs v2.normal
              (nonzero _ (==→ne _ _ (sym zero_test ∙ z))))
      ])
  where
    zero_divisor : (t : Bool) (n : ℕ) → n ≡ 0 → signed t n ≡ pos 0
    zero_divisor t n e = ground arith

    nonzero : (n : ℕ) → n ≢ 0 → 0 < n
    nonzero n h = omega arith
