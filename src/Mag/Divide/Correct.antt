-- ===== src/Mag/Divide/Correct.antt =====
-- The invariant of the long division of src/c/runtime.c, and its result.
use isiki.Prelude.{
  ℕ, zero, suc, ◌+◌, ◌*◌, ◌/◌, ◌%◌, ◌^◌, ◌≤◌, ◌<◌, ◌≡◌, refl, sym, ap, ◌∙◌, inl, inr, true, false,
  List, [], ◌∷◌, ◌++◌, arith, Bool-cases, length, take, drop, replicate, All, All-append, All-take,
  All-drop, All-replicate, length-append, length-take, length-drop, length-replicate, length-set,
  take-append-drop, take-length,
}
use isiki.Prelude.Bits.{pow_pos, pow-add, bit_or_low}
use Prim.Native.Nat.{compare}
use native.Mathlib.Nat.{
  pow-suc, div-div-eq-div-mul, div-le_self, div-one, div-eq_of_lt, mul-div_cancel,
}
use isiki.Mag.{IsLimb, val, mag_len, normalize, mag_compare, sub_limbs}
use isiki.Mag.Value.{
  normalize_pos, IsNormal, normalize-IsNormal, val-normalize, normalize-IsLimb, val-take-mag_len,
  mag_len-le,
}
use isiki.Mag.Compare.{mag_compare_correct}
use isiki.Mag.Sum.{sub_limbs_correct, length-sub_limbs}
use isiki.Mag.Divide.{
  shl_limbs, or_first, bit_at, set_bit, sub_in_place, at_least, divmod_step, divmod_loop,
  mag_divmod,
}
use isiki.Mag.Divide.Bit.{bound, val-lt-bound, val-bit_at, set_bit_correct, shl_limbs_correct}

or_first_correct :
    (l : List ℕ) (c : ℕ)
    → All IsLimb l
    → 0 < length l
    → val l % 2 ≡ 0
    → c ≤ 1
    → (val (or_first l c) ≡ val l + c)
      × All IsLimb (or_first l c)
      × (length (or_first l c) ≡ length l)
unfolding or_first
or_first_correct [] c h p e hc = absurd (omega arith)
or_first_correct (x ∷ l) c h p e hc =
    rw (bit_or_low x c (omega arith) hc) (omega arith, (omega arith, h.1), refl)

-- `rem = rem << 1`, and the next bit of `a`.
shift_in_correct :
    (rem : List ℕ) (c : ℕ)
    → All IsLimb rem
    → 0 < length rem
    → c ≤ 1
    → 2 * val rem + c < bound (length rem)
    → let r = or_first (shl_limbs rem 0) c in
      (val r ≡ 2 * val rem + c) × All IsLimb r × (length r ≡ length rem)
shift_in_correct rem c h p hc lt =
    let (e, limbs, len) = shl_limbs_correct rem 0 h (omega arith) (omega arith) in
    let (e', limbs', len') =
      or_first_correct (shl_limbs rem 0) c limbs (omega arith) (omega arith) hc in
    (omega arith, limbs', len' ∙ len)

-- What stands above the effective length is 0, before and after.
val-replace_low :
    (low new high : List ℕ)
    → length new ≡ length low
    → val (low ++ high) ≡ val low
    → val (new ++ high) ≡ val new
val-replace_low [] [] high len e = e
val-replace_low [] (y ∷ new) high len e = absurd (omega arith)
val-replace_low (x ∷ low) [] high len e = absurd (omega arith)
val-replace_low (x ∷ low) (y ∷ new) high len e =
    omega (arith, val-replace_low low new high (omega arith) (omega arith))

sub_in_place_correct :
    (rem b : List ℕ)
    → All IsLimb rem
    → All IsLimb b
    → val b ≤ val rem
    → (val (sub_in_place rem b) + val b ≡ val rem)
      × All IsLimb (sub_in_place rem b)
      × (length (sub_in_place rem b) ≡ length rem)
unfolding sub_in_place
sub_in_place_correct rem b h hb le =
    let n : ℕ = mag_len rem (length rem) in
    let low : val (take n rem) ≡ val rem =
      val-take-mag_len rem (length rem) ∙ ap val (take-length rem) in
    let (e, limbs) =
      sub_limbs_correct (take n rem) b 0 (All-take IsLimb n rem h) hb (omega arith) (omega arith) in
    let len : length (sub_limbs (take n rem) b 0) ≡ length (take n rem) = length-sub_limbs _ b 0 in
    let kept : val (sub_limbs (take n rem) b 0 ++ drop n rem) ≡ val (sub_limbs (take n rem) b 0) =
      val-replace_low (take n rem) _ (drop n rem) len (ap val (take-append-drop n rem) ∙ sym low) in
    (
      omega arith,
      All-append IsLimb _ _ limbs (All-drop IsLimb n rem h),
      omega (
        arith,
        length-append (sub_limbs (take n rem) b 0) (drop n rem),
        length-take n rem,
        length-drop n rem,
        mag_len-le rem (length rem),
      ),
    )

-- Before the round for bit k - 1: what the top bits of `a` give, divided by `b`. The quotient
-- found so far is `top`, and it stands in the array shifted by k.
record Divided (a b : List ℕ) (k : ℕ) (quot rem : List ℕ) (top : ℕ) : Type 0 where
  quot_val : val quot ≡ top * 2 ^ k
  division : val a / 2 ^ k ≡ top * val b + val rem
  rem_lt : val rem < val b
  quot_limbs : All IsLimb quot
  rem_limbs : All IsLimb rem
  quot_length : length quot ≡ length a
  rem_length : length rem ≡ length a

next_bit : (a : ℕ) (k : ℕ) → a / 2 ^ k ≡ 2 * (a / 2 ^ suc k) + a / 2 ^ k % 2
next_bit a k =
    omega (arith, div-div-eq-div-mul a (2 ^ k) 2, ap (λ (t : ℕ). a / t) (sym (pow-suc 2 k)))

length-set_bit : (l : List ℕ) (k : ℕ) → length (set_bit l k) ≡ length l
unfolding set_bit
length-set_bit l k = length-set l _ _

compare-at_least : (x y : ℕ) → at_least (compare x y) ≡ true → y ≤ x
compare-at_least x y h = ground arith

compare-below : (x y : ℕ) → at_least (compare x y) ≡ false → x < y
compare-below x y h = ground arith

bound_eq : (m n : ℕ) → m ≡ n → bound m ≡ bound n
bound_eq m n e = ap bound e

module _ (a b : List ℕ) (ha : All IsLimb a) (hb : All IsLimb b) (pb : 0 < length b) where
  -- The remainder doubled, with the next bit, is what is left at bit k.
  shifted :
      (k : ℕ) (quot rem : List ℕ) (top : ℕ)
      → k < 32 * length a
      → Divided a b (suc k) quot rem top
      → let r = or_first (shl_limbs rem 0) (bit_at a k) in
        (val a / 2 ^ k ≡ 2 * top * val b + val r)
        × (val r < 2 * val b)
        × All IsLimb r
        × (length r ≡ length a)
  shifted k quot rem top hk d =
      let c : ℕ = val a / 2 ^ k % 2 in
      let e : bit_at a k ≡ c = val-bit_at a k ha in
      let n : val a / 2 ^ k ≡ 2 * (val a / 2 ^ suc k) + c = next_bit (val a) k in
      let small : 2 * val rem + c < bound (length rem) = omega (
        arith,
        val-lt-bound a ha,
        div-le_self (val a) (2 ^ k),
        d.division,
        bound_eq (length rem) (length a) d.rem_length,
      ) in
      let (v, limbs, len) =
        shift_in_correct rem c d.rem_limbs (omega (arith, d.rem_length)) (omega arith) small in
      rw e (omega (arith, d.division), omega (arith, d.rem_lt), limbs, len ∙ d.rem_length)

  quot_clear :
      (k : ℕ) (quot : List ℕ) (top : ℕ) → val quot ≡ top * 2 ^ suc k → val quot / 2 ^ k % 2 ≡ 0
  quot_clear k quot top e =
      omega
        (arith, ap (λ (t : ℕ). t / 2 ^ k) halves, mul-div_cancel (2 * top) {n = 2 ^ k} (pow_pos k))
    where
      halves : val quot ≡ 2 * top * 2 ^ k
      halves = omega (arith, e, ap (λ (t : ℕ). top * t) (pow-suc 2 k))

  step_correct :
      (k : ℕ) (quot rem : List ℕ) (top : ℕ)
      → k < 32 * length a
      → Divided a b (suc k) quot rem top
      → (t : ℕ) × Divided a b k
          (divmod_step a b k (quot, rem)).0
          (divmod_step a b k (quot, rem)).1
          t
  unfolding divmod_step
  step_correct k quot rem top hk d =
      let r : List ℕ = or_first (shl_limbs rem 0) (bit_at a k) in
      let (left, lt, limbs, len) = shifted k quot rem top hk d in
      let order : mag_compare (normalize r) b ≡ compare (val r) (val b) =
        mag_compare_correct (normalize r) b (normalize-IsLimb r limbs) hb
          (normalize_pos r (omega arith)) pb
        ∙ ap (λ (t : ℕ). compare t (val b)) (val-normalize r) in
      let doubled : top * 2 ^ suc k ≡ 2 * top * 2 ^ k =
        omega (arith, ap (λ (t : ℕ). top * t) (pow-suc 2 k)) in
      elim (Bool-cases (at_least (compare (val r) (val b)))) [
        | inl yes' ↦
            rw (order, yes')
              (let (qv, ql) =
                  set_bit_correct quot k d.quot_limbs (omega (arith, d.quot_length))
                    (quot_clear k quot top d.quot_val) in
                let (rv, rl, rlen) =
                  sub_in_place_correct r b limbs hb (compare-at_least _ _ yes') in
                (
                  2 * top + 1,
                  record {
                    quot_val = omega (arith, d.quot_val);
                    division = omega arith;
                    rem_lt = omega arith;
                    quot_limbs = ql;
                    rem_limbs = rl;
                    quot_length = length-set_bit quot k ∙ d.quot_length;
                    rem_length = rlen ∙ len;
                  },
                ))
        | inr no' ↦
            rw (order, no')
              (
                2 * top,
                record {
                  quot_val = omega (arith, d.quot_val);
                  division = left;
                  rem_lt = compare-below _ _ no';
                  quot_limbs = d.quot_limbs;
                  rem_limbs = limbs;
                  quot_length = d.quot_length;
                  rem_length = len;
                },
              )
      ]

  loop_correct :
      (k : ℕ) (quot rem : List ℕ) (top : ℕ)
      → k ≤ 32 * length a
      → Divided a b k quot rem top
      → (t : ℕ) × Divided a b 0
          (divmod_loop a b k (quot, rem)).0
          (divmod_loop a b k (quot, rem)).1
          t
  unfolding divmod_loop
  loop_correct zero quot rem top hk d = (top, d)
  loop_correct (suc k) quot rem top hk d =
      let (t, d') = step_correct k quot rem top hk d in loop_correct k _ _ t (omega arith) d'

bound-pow : (n : ℕ) → bound n ≡ 2 ^ (32 * n)
bound-pow zero = ap (λ (t : ℕ). 2 ^ t) none
  where
    none : 0 ≡ 32 * 0
    none = refl
bound-pow (suc n) =
    ap (λ (t : ℕ). 4294967296 * t) (bound-pow n)
    ∙ sym (pow-add 32 (32 * n))
    ∙ ap (λ (t : ℕ). 2 ^ t) more
  where
    more : 32 + 32 * n ≡ 32 * suc n
    more = omega arith

val-zeros : (n : ℕ) → val (replicate n 0) ≡ 0
val-zeros zero = refl
val-zeros (suc n) = omega (arith, val-zeros n)

-- Before the first round every bit is still to come.
start :
    (a b : List ℕ)
    → All IsLimb a
    → 0 < val b
    → Divided a b (length a * 32) (replicate (length a) 0) (replicate (length a) 0) 0
start a b ha pb = record {
  quot_val = omega (arith, val-zeros (length a));
  division = omega (arith, none_yet, val-zeros (length a));
  rem_lt = omega (arith, val-zeros (length a));
  quot_limbs = All-replicate IsLimb (length a) 0 (omega arith);
  rem_limbs = All-replicate IsLimb (length a) 0 (omega arith);
  quot_length = length-replicate (length a) 0;
  rem_length = length-replicate (length a) 0;
}
  where
    width : 32 * length a ≡ length a * 32
    width = omega arith

    none_yet : val a / 2 ^ (length a * 32) ≡ 0
    none_yet =
        div-eq_of_lt
          (omega (arith, val-lt-bound a ha, bound-pow (length a), ap (λ (t : ℕ). 2 ^ t) width))

length_pos : (l : List ℕ) → 0 < val l → 0 < length l
length_pos [] h = h
length_pos (x ∷ l) h = omega arith

abbrev pub Divmod : List ℕ → List ℕ → List ℕ × List ℕ → Type 0
Divmod a b (quot, rem) =
    (val a ≡ val quot * val b + val rem) × (val rem < val b) × All IsLimb quot × All IsLimb rem

loop-Divmod :
    (a b : List ℕ)
    → All IsLimb a
    → All IsLimb b
    → 0 < val b
    → Divmod a b (divmod_loop a b (length a * 32) (replicate (length a) 0, replicate (length a) 0))
loop-Divmod a b ha hb pb =
    let (t, d) =
      loop_correct a b ha hb (length_pos b pb) (length a * 32) _ _ 0 (omega arith)
        (start a b ha pb) in
    (
      omega (arith, d.division, div-one (val a), ap (λ (q : ℕ). q * val b) d.quot_val),
      d.rem_lt,
      d.quot_limbs,
      d.rem_limbs,
    )

-- Both results have a limb, and no leading zeros.
pub mag_divmod-IsNormal :
    (a b : List ℕ)
    → All IsLimb a
    → All IsLimb b
    → 0 < length a
    → 0 < val b
    → IsNormal (mag_divmod a b).0 × IsNormal (mag_divmod a b).1
unfolding mag_divmod
mag_divmod-IsNormal a b ha hb pa pb =
    let a' : List ℕ = normalize a in
    let b' : List ℕ = normalize b in
    let pb' : 0 < val b' = omega (arith, val-normalize b) in
    let pa' : 0 < length a' = normalize_pos a pa in
    let (t, d) =
      loop_correct a' b' (normalize-IsLimb a ha) (normalize-IsLimb b hb) (length_pos b' pb')
        (length a' * 32) _ _ 0 (omega arith) (start a' b' (normalize-IsLimb a ha) pb') in
    (
      normalize-IsNormal _ (omega (arith, d.quot_length)),
      normalize-IsNormal _ (omega (arith, d.rem_length)),
    )

-- For arrays of 32-bit limbs and a divisor that is not 0, `mag_divmod` gives the quotient and the
-- remainder of the two numbers, again in 32-bit limbs.
pub mag_divmod_correct :
    (a b : List ℕ) → All IsLimb a → All IsLimb b → 0 < val b → Divmod a b (mag_divmod a b)
unfolding mag_divmod
mag_divmod_correct a b ha hb pb =
    let (e, lt, ql, rl) =
      loop-Divmod (normalize a) (normalize b) (normalize-IsLimb a ha) (normalize-IsLimb b hb)
        (omega (arith, val-normalize b)) in
    let zeros : List ℕ = replicate (length (normalize a)) 0 in
    let s : List ℕ × List ℕ =
      divmod_loop (normalize a) (normalize b) (length (normalize a) * 32) (zeros, zeros) in
    (
      omega (
        arith,
        val-normalize a,
        val-normalize s.0,
        val-normalize s.1,
        ap (λ (t : ℕ). val (normalize s.0) * t) (val-normalize b),
        ap (λ (t : ℕ). t * val (normalize b)) (val-normalize s.0),
      ),
      omega (arith, val-normalize b, val-normalize s.1),
      normalize-IsLimb _ ql,
      normalize-IsLimb _ rl,
    )
