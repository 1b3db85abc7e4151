-- ===== src/Integer/Gcd.antt =====
-- `mag_gcd` of src/c/runtime.c ends, with the greatest common divisor.
use isiki.Prelude.{
  ℕ, zero, suc, ◌+◌, ◌-◌, ◌*◌, ◌<◌, ◌≡◌, ◌≢◌, refl, sym, ap, ◌∙◌, Bool, false, inl, inr, some, List,
  arith, ◌==◌, ==→eq, ==→ne, length, All, Bool-cases,
}
use mathlib.Core.Path.{subst}
use native.Mathlib.Nat.{mul-sub}
use isiki.Prelude.Int.{ℤ, pos, pos_part, neg_part, signed}
use isiki.Mag.{IsLimb, val}
use isiki.Mag.Divide.{mag_divmod}
use isiki.Mag.Divide.Correct.{mag_divmod_correct, mag_divmod-IsNormal}
use isiki.Integer.{Value, decompose, is_zero_mag, os_make_integer, gcd_loop, mag_gcd}
use isiki.Integer.Canonical.{
  IsInteger, int_val, is_zero_mag-val, os_make_integer-IsInteger, decompose-IsView,
}

abbrev pub Divides : ℕ → ℕ → Type 0
Divides d n = (k : ℕ) × (n ≡ k * d)

-- d divides both, and every common divisor divides d.
pub record IsGcd (a b d : ℕ) : Type 0 where
  pub left : Divides d a
  pub right : Divides d b
  pub greatest : (c : ℕ) → Divides c a → Divides c b → Divides c d

Divides-add : (d m n q : ℕ) → Divides d m → Divides d n → Divides d (q * m + n)
Divides-add d m n q (j, e) (k, f) = (q * j + k, omega (arith, ap (λ (t : ℕ). q * t) e))

Divides-rest : (d m n q r : ℕ) → n ≡ q * m + r → Divides d m → Divides d n → Divides d r
Divides-rest d m n q r s (j, e) (k, f) =
    (k - q * j, omega (arith, ap (λ (t : ℕ). q * t) e, sub_mul k (q * j) d))
  where
    sub_mul : (x y d : ℕ) → (x - y) * d ≡ x * d - y * d
    sub_mul x y d = omega (arith, mul-sub d x y)

IsGcd-zero : (a : ℕ) → IsGcd a 0 a
IsGcd-zero a = record { left = (1, omega arith); right = (0, omega arith); greatest = λ c l r. l }

-- One step of Euclid's algorithm.
IsGcd-step : (a b q r d : ℕ) → a ≡ q * b + r → IsGcd b r d → IsGcd a b d
IsGcd-step a b q r d e g = record {
  left = subst (Divides d) (sym e) (Divides-add d b r q g.left g.right);
  right = g.left;
  greatest = λ c l m. g.greatest c m (Divides-rest c b a q r e m l);
}

abbrev pub magnitude : ℤ → ℕ
magnitude z = pos_part z + neg_part z

-- A well-formed integer that is not negative.
abbrev pub IsNatural : Value → ℕ → Type 0
IsNatural v n = IsInteger v × (int_val v ≡ pos n)

pub magnitude_of : (s : Bool) (m n : ℕ) → signed s m ≡ pos n → m ≡ n
magnitude_of s m n e = ground arith

pub magnitude-signed : (s : Bool) (m : ℕ) (z : ℤ) → signed s m ≡ z → m ≡ magnitude z
magnitude-signed s m z e = subst (λ (y : ℤ). m ≡ magnitude y) e size_signed
  where
    size_signed : m ≡ magnitude (signed s m)
    size_signed = ground arith

pub make-IsNatural :
    (l : List ℕ) → All IsLimb l → 0 < length l → IsNatural (os_make_integer false l) (val l)
make-IsNatural l h p = os_make_integer-IsInteger false l h p

gcd_loop-IsGcd :
    (fuel : ℕ) (a b : Value) (m n : ℕ)
    → IsNatural a m
    → IsNatural b n
    → n < fuel
    → (d : ℕ) × (g : Value) × (gcd_loop fuel a b ≡ some g) × IsNatural g d × IsGcd m n d
unfolding gcd_loop
gcd_loop-IsGcd zero a b m n ha hb h = absurd (omega arith)
gcd_loop-IsGcd (suc fuel) a b m n ha hb h =
    let va = decompose-IsView a ha.0 in
    let vb = decompose-IsView b hb.0 in
    let em : val (decompose a).limbs ≡ m = magnitude_of _ _ m (va.value ∙ ha.1) in
    let en : val (decompose b).limbs ≡ n = magnitude_of _ _ n (vb.value ∙ hb.1) in
    let zero_test : is_zero_mag (decompose b).limbs ≡ (val (decompose b).limbs == 0) =
      is_zero_mag-val _ vb.limbs vb.normal in
    elim (Bool-cases (is_zero_mag (decompose b).limbs)) [
      | inl z ↦ rw (z) (
          let none_left : n ≡ 0 = sym en ∙ ==→eq _ _ (sym zero_test ∙ z) in
          (m, a, refl, ha, subst (λ (k : ℕ). IsGcd m k m) (sym none_left) (IsGcd-zero m)))
      | inr z ↦ rw (z) (
          let left : val (decompose b).limbs ≢ 0 = ==→ne _ _ (sym zero_test ∙ z) in
          let p : 0 < val (decompose b).limbs = omega arith in
          let qr : List ℕ × List ℕ = mag_divmod (decompose a).limbs (decompose b).limbs in
          let (e, lt, hq, hr) =
            mag_divmod_correct (decompose a).limbs (decompose b).limbs va.limbs vb.limbs p in
          let (nq, nr) =
            mag_divmod-IsNormal (decompose a).limbs (decompose b).limbs va.limbs vb.limbs
              va.normal.0 p in
          let (d, g, found, hg, gcd) =
            gcd_loop-IsGcd fuel b (os_make_integer false qr.1) n (val qr.1) hb
              (make-IsNatural qr.1 hr nr.0) (omega arith) in
          (
            d,
            g,
            found,
            hg,
            IsGcd-step m n (val qr.0) (val qr.1) d (step m n (val qr.0) _ _ _ em en e) gcd,
          ))
    ]
  where
    step : (m n q r x y : ℕ) → x ≡ m → y ≡ n → x ≡ q * y + r → m ≡ q * n + r
    step m n q r x y e f h = omega (arith, ap (λ (t : ℕ). q * t) f)

-- On well-formed integers the loop of `mag_gcd` ends, and returns the well-formed integer that is
-- the greatest common divisor of the two magnitudes; gcd(a, 0) is |a|.
pub mag_gcd-IsGcd :
    (a b : Value)
    → IsInteger a
    → IsInteger b
    → (d : ℕ) × (g : Value) × (mag_gcd a b ≡ some g)
      × IsNatural g d
      × IsGcd (magnitude (int_val a)) (magnitude (int_val b)) d
unfolding mag_gcd
mag_gcd-IsGcd a b ha hb =
    let va = decompose-IsView a ha in
    let vb = decompose-IsView b hb in
    let ea : val (decompose a).limbs ≡ magnitude (int_val a) = magnitude-signed _ _ _ va.value in
    let eb : val (decompose b).limbs ≡ magnitude (int_val b) = magnitude-signed _ _ _ vb.value in
    rw (← ea, ← eb)
      (gcd_loop-IsGcd (suc (val (decompose b).limbs)) (os_make_integer false (decompose a).limbs)
        (os_make_integer false (decompose b).limbs) _ _ (make-IsNatural _ va.limbs va.normal.0)
        (make-IsNatural _ vb.limbs vb.normal.0) (omega arith))
