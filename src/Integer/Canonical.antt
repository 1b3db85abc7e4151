-- ===== src/Integer/Canonical.antt =====
-- Well-formed integers of src/c/runtime.c, the integer that each stands for, and that
-- `decompose` and `os_make_integer` convert between the two views; `bignum_equal` decides equality.
use isiki.Prelude.{
  ℕ, suc, ◌-◌, ◌/◌, ◌%◌, ◌^◌, ◌≤◌, ◌<◌, ◌≡◌, ◌≢◌, ◌↔◌, refl, sym, ap, ◌∙◌, inl, inr, Bool, true,
  false, ◌&&◌, List, [], ◌∷◌, arith, leb, ◌==◌, if◌then◌else◌, length, get_or, All, Bool-cases,
}
use mathlib.Core.Path.{ap₂}
use isiki.Prelude.Bits.{bit_or_shifted}
use isiki.Prelude.Int.{ℤ, pos, signed}
use isiki.Fixnum.{magnitude_mask, os_fixnum_magnitude, os_fixnum_is_negative}
use isiki.Fixnum.Word.{IsFixnum, to_ℤ, to_ℤ-make, magnitude-le}
use isiki.Mag.{IsLimb, val, normalize}
use isiki.Mag.Value.{IsNormal, normalize-IsNormal, val-normalize, normalize-IsLimb}
use isiki.Integer.{
  Value, fixnum, bignum, other, SignedMag, decompose, is_zero_mag, small_magnitude, os_make_integer,
  equal_limbs, bignum_equal,
}

-- The top limb is there and is not 0.
abbrev pub TopNonzero : List ℕ → Type 0
TopNonzero [] = Unit
TopNonzero (x ∷ []) = x ≢ 0
TopNonzero (x ∷ y ∷ l) = TopNonzero (y ∷ l)

IsNormal-TopNonzero : (x y : ℕ) (l : List ℕ) → IsNormal (x ∷ y ∷ l) → TopNonzero (x ∷ y ∷ l)
IsNormal-TopNonzero x y l (p, inl few) = absurd (omega arith)
IsNormal-TopNonzero x y [] (p, inr top) = top_second top
  where
    top_second : get_or (x ∷ y ∷ []) (length (x ∷ y ∷ []) - 1) 0 ≢ 0 → y ≢ 0
    top_second t = t
IsNormal-TopNonzero x y (z ∷ l) (p, inr top) =
    IsNormal-TopNonzero y z l (omega arith, inr (rw (← shift l) top))
  where
    less_one : (n : ℕ) → suc n - 1 ≡ n
    less_one n = omega arith

    shift :
        (l : List ℕ)
        → get_or (x ∷ y ∷ z ∷ l) (length (x ∷ y ∷ z ∷ l) - 1) 0
          ≡ get_or (y ∷ z ∷ l) (length (y ∷ z ∷ l) - 1) 0
    shift l =
        ap (λ (i : ℕ). get_or (x ∷ y ∷ z ∷ l) i 0) (less_one (suc (suc (length l))))
        ∙ sym (ap (λ (i : ℕ). get_or (y ∷ z ∷ l) i 0) (less_one (suc (length l))))

TopNonzero-pos : (x : ℕ) (l : List ℕ) → TopNonzero (x ∷ l) → 0 < val (x ∷ l)
TopNonzero-pos x [] h = omega arith
TopNonzero-pos x (y ∷ l) h = omega (arith, TopNonzero-pos y l h)

TopNonzero-tail : (x : ℕ) (l : List ℕ) → TopNonzero (x ∷ l) → TopNonzero l
TopNonzero-tail x [] h = tt
TopNonzero-tail x (y ∷ l) h = h

-- A number has one array of limbs.
val-injective :
    (a b : List ℕ)
    → All IsLimb a
    → All IsLimb b
    → TopNonzero a
    → TopNonzero b
    → val a ≡ val b
    → a ≡ b
val-injective [] [] ha hb ta tb e = refl
val-injective [] (y ∷ b) ha hb ta tb e = absurd (omega (arith, TopNonzero-pos y b tb))
val-injective (x ∷ a) [] ha hb ta tb e = absurd (omega (arith, TopNonzero-pos x a ta))
val-injective (x ∷ a) (y ∷ b) ha hb ta tb e =
    ap₂ ◌∷◌ (omega arith)
      (val-injective a b ha.1 hb.1 (TopNonzero-tail x a ta) (TopNonzero-tail y b tb) (omega arith))

-- On normal arrays, the zero test of the routines.
pub is_zero_mag-val : (l : List ℕ) → All IsLimb l → IsNormal l → is_zero_mag l ≡ (val l == 0)
unfolding is_zero_mag
is_zero_mag-val [] h n = absurd (omega arith)
is_zero_mag-val (x ∷ []) h n = ground arith
is_zero_mag-val (x ∷ y ∷ l) h n =
    ground (arith, TopNonzero-pos x (y ∷ l) (IsNormal-TopNonzero x y l n))

small_magnitude-val :
    (l : List ℕ) → All IsLimb l → 0 < length l → length l ≤ 2 → small_magnitude l ≡ val l
unfolding small_magnitude
small_magnitude-val [] h p q = absurd (omega arith)
small_magnitude-val (x ∷ []) h p q = omega arith
small_magnitude-val (x ∷ y ∷ []) h p q = omega (arith, bit_or_shifted y x h.1.0 h.0)
small_magnitude-val (x ∷ y ∷ z ∷ l) h p q = absurd (omega arith)

-- A fixnum word, or a bignum that no fixnum can hold, with no leading zero limb.
abbrev pub IsInteger : Value → Type 0
IsInteger (fixnum w) = IsFixnum w
IsInteger (bignum s l) = All IsLimb l × TopNonzero l × (magnitude_mask < val l)
IsInteger (other v) = ⊥

abbrev pub int_val : Value → ℤ
int_val (fixnum w) = to_ℤ w
int_val (bignum s l) = signed s (val l)
int_val (other v) = pos 0

no_sign_zero :
    (s : Bool) (l : List ℕ)
    → All IsLimb l
    → IsNormal l
    → signed (if is_zero_mag l then false else s) (val l) ≡ signed s (val l)
no_sign_zero s l h n = ground (arith, is_zero_mag-val l h n)

big_magnitude :
    (l : List ℕ)
    → All IsLimb l
    → IsNormal l
    → (leb (length l) 2 && leb (small_magnitude l) magnitude_mask) ≡ false
    → TopNonzero l × (magnitude_mask < val l)
big_magnitude [] h n e = absurd (omega arith)
big_magnitude (x ∷ []) h n e = absurd (ground (arith, small_magnitude-val (x ∷ []) h))
big_magnitude (x ∷ y ∷ []) h n e =
    (IsNormal-TopNonzero x y [] n, ground (arith, small_magnitude-val (x ∷ y ∷ []) h))
big_magnitude (x ∷ y ∷ z ∷ l) h n e =
    let t : TopNonzero (x ∷ y ∷ z ∷ l) = IsNormal-TopNonzero x y (z ∷ l) n in
    (t, omega (arith, TopNonzero-pos z l t))

fits_fixnum :
    (l : List ℕ)
    → All IsLimb l
    → IsNormal l
    → (leb (length l) 2 && leb (small_magnitude l) magnitude_mask) ≡ true
    → (small_magnitude l ≡ val l) × (val l ≤ magnitude_mask)
fits_fixnum l h n e = ground (arith, small_magnitude-val l h)

-- From a sign and a non-empty array of 32-bit limbs `os_make_integer` makes the well-formed integer
-- of that sign and magnitude, whatever leading zeros or negative zero it is given.
pub os_make_integer-IsInteger :
    (s : Bool) (l : List ℕ)
    → All IsLimb l
    → 0 < length l
    → IsInteger (os_make_integer s l) × (int_val (os_make_integer s l) ≡ signed s (val l))
unfolding os_make_integer
os_make_integer-IsInteger s l h p =
    let l' : List ℕ = normalize l in
    let limbs : All IsLimb l' = normalize-IsLimb l h in
    let normal : IsNormal l' = normalize-IsNormal l p in
    let z : Bool = if is_zero_mag l' then false else s in
    let back : signed z (val l') ≡ signed s (val l) =
      no_sign_zero s l' limbs normal ∙ ap (signed s) (val-normalize l) in
    elim (Bool-cases (leb (length l') 2 && leb (small_magnitude l') magnitude_mask)) [
      | inl e ↦ rw (e) (
          let (m, fits) = fits_fixnum l' limbs normal e in
          let (v, f) = to_ℤ-make z (small_magnitude l') (omega arith) in
          (f, v ∙ ap (signed z) m ∙ back))
      | inr e ↦ rw (e) (let (t, big) = big_magnitude l' limbs normal e in ((limbs, t, big), back))
    ]

fixnum_limbs : (m : ℕ) → m ≤ magnitude_mask → val ((m % 2 ^ 32) ∷ (m / 2 ^ 32) ∷ []) ≡ m
fixnum_limbs m h = omega arith

top_element : (x : ℕ) (l : List ℕ) → TopNonzero (x ∷ l) → get_or (x ∷ l) (length l) 0 ≢ 0
top_element x [] h = h
top_element x (y ∷ l) h = top_element y l h

TopNonzero-IsNormal : (x : ℕ) (l : List ℕ) → TopNonzero (x ∷ l) → IsNormal (x ∷ l)
TopNonzero-IsNormal x l h = (omega arith, inr (rw (last (length l)) (top_element x l h)))
  where
    last : (n : ℕ) → suc n - 1 ≡ n
    last n = omega arith

-- The view that `decompose` takes of a well-formed integer.
pub record IsView (v : Value) (m : SignedMag) : Type 0 where
  pub value : signed m.sign (val m.limbs) ≡ int_val v
  pub limbs : All IsLimb m.limbs
  pub normal : IsNormal m.limbs

-- `decompose` gives the sign and the magnitude of every well-formed integer, in 32-bit limbs with no
-- leading zeros.
pub decompose-IsView : (v : Value) → IsInteger v → IsView v (decompose v)
unfolding decompose
decompose-IsView (fixnum w) h =
    let m : ℕ = os_fixnum_magnitude w in
    let l : List ℕ = (m % 2 ^ 32) ∷ (m / 2 ^ 32) ∷ [] in
    record {
      value =
          ap (signed (os_fixnum_is_negative w)) (val-normalize l ∙ fixnum_limbs m (magnitude-le w));
      limbs = normalize-IsLimb l (omega (arith, magnitude-le w));
      normal = normalize-IsNormal l (omega arith);
    }
decompose-IsView (bignum s []) h = absurd (omega arith)
decompose-IsView (bignum s (x ∷ l)) h = record {
  value = refl;
  limbs = h.0;
  normal = TopNonzero-IsNormal x l h.1;
}
decompose-IsView (other v) h = elim h [ ]

equal_limbs_refl : (a : List ℕ) → equal_limbs a a ≡ true
unfolding equal_limbs
equal_limbs_refl [] = refl
equal_limbs_refl (x ∷ a) = ground (arith, equal_limbs_refl a)

equal_limbs-eq : (a b : List ℕ) → equal_limbs a b ≡ true → a ≡ b
unfolding equal_limbs
equal_limbs-eq [] [] h = refl
equal_limbs-eq [] (y ∷ b) h = cc
equal_limbs-eq (x ∷ a) [] h = cc
equal_limbs-eq (x ∷ a) (y ∷ b) h = ground (arith, equal_limbs-eq a b)

bignum_equal_refl : (s : Bool) (a : List ℕ) → bignum_equal s a s a ≡ true
unfolding bignum_equal
bignum_equal_refl true a = ground (arith, equal_limbs_refl a)
bignum_equal_refl false a = ground (arith, equal_limbs_refl a)

bignum_equal-eq : (s t : Bool) (a b : List ℕ) → bignum_equal s a t b ≡ true → (s ≡ t) × (a ≡ b)
unfolding bignum_equal
bignum_equal-eq true true a b h = (refl, equal_limbs-eq a b (ground arith))
bignum_equal-eq true false a b h = cc
bignum_equal-eq false true a b h = cc
bignum_equal-eq false false a b h = (refl, equal_limbs-eq a b (ground arith))

signed-injective :
    (s t : Bool) (m n : ℕ) → 0 < m → 0 < n → signed s m ≡ signed t n → (s ≡ t) × (m ≡ n)
signed-injective true true m n p q e = ground arith
signed-injective true false m n p q e = ground arith
signed-injective false true m n p q e = ground arith
signed-injective false false m n p q e = ground arith

-- Two well-formed bignums are equal by `bignum_equal` exactly when they stand for one integer.
pub bignum_equal-int_val :
    (s t : Bool) (a b : List ℕ)
    → IsInteger (bignum s a)
    → IsInteger (bignum t b)
    → (bignum_equal s a t b ≡ true) ↔ (int_val (bignum s a) ≡ int_val (bignum t b))
bignum_equal-int_val s t a b ha hb = (
  (λ e.
      let (p, q) = bignum_equal-eq s t a b e in
      ap₂ (λ (u : Bool) (l : List ℕ). signed u (val l)) p q),
  (λ e.
      let (p, q) =
        signed-injective s t (val a) (val b) (omega (arith, ha.2)) (omega (arith, hb.2)) e in
      let r : a ≡ b = val-injective a b ha.0 hb.0 ha.1 hb.1 q in rw (p, r) (bignum_equal_refl t b)),
)
