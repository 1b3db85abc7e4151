-- ===== src/Integer/Root.antt =====
-- `mag_isqrt` of src/c/runtime.c: Newton's iteration ends, with the integer square root.
use isiki.Prelude.{
  ℕ, zero, suc, ◌+◌, ◌-◌, ◌*◌, ◌/◌, ◌≤◌, ◌<◌, ◌≡◌, refl, ap, ◌∙◌, true, false, inl, inr, some, List,
  [], ◌∷◌, arith, ltb, ltb→lt, ltb→ge, length, All, Bool-cases,
}
use Prim.Native.Nat.{Ordering}
use native.Mathlib.Nat.{mul-le-mul_left}
use mathlib.Core.Path.{subst, subst₂, ap₂}
use isiki.Mag.{IsLimb, val, mag_add, mag_divmod_small}
use isiki.Mag.Sum.{mag_add_correct, mag_add_pos}
use isiki.Mag.Small.{mag_divmod_small_correct, mag_divmod_small_pos}
use isiki.Mag.Compare.{mag_compare_correct}
use isiki.Mag.Divide.{mag_divmod}
use isiki.Mag.Divide.Correct.{mag_divmod_correct}
use isiki.Integer.{Value, decompose, os_make_integer, half_sum, below, isqrt_loop, mag_isqrt}
use isiki.Integer.Canonical.{IsInteger, int_val, decompose-IsView}
use isiki.Integer.Gcd.{IsNatural, make-IsNatural, magnitude, magnitude_of, magnitude-signed}

-- r is the integer square root of n.
abbrev pub IsRoot : ℕ → ℕ → Type 0
IsRoot n r = (r * r ≤ n) × (n < suc r * suc r)

below-ltb :
    (a b : List ℕ)
    → All IsLimb a
    → All IsLimb b
    → 0 < length a
    → 0 < length b
    → below a b ≡ ltb (val a) (val b)
unfolding below
below-ltb a b ha hb pa pb =
    ap (λ (o : Ordering). elim o [ Ordering.lt ↦ true | _ ↦ false ])
      (mag_compare_correct a b ha hb pa pb)

half_sum-IsNatural :
    (x q : List ℕ)
    → All IsLimb x
    → All IsLimb q
    → (h : ℕ) × IsNatural (half_sum x q) h × (h ≡ (val x + val q) / 2)
unfolding half_sum
half_sum-IsNatural x q hx hq =
    let (e, l) = mag_add_correct x q hx hq in
    let (d, lt, ql) = mag_divmod_small_correct (mag_add x q) 2 l (omega arith) (omega arith) in
    let quot : List ℕ = (mag_divmod_small (mag_add x q) 2).0 in
    (
      val quot,
      make-IsNatural quot ql (mag_divmod_small_pos (mag_add x q) 2 (mag_add_pos x q)),
      omega arith,
    )

-- A product of two numbers is at most the square of their mean.
product_above : (p d e : ℕ) → (p + d + d + e) * p ≤ (p + d + e) * (p + d + e)
product_above p d e = grind arith

product_below : (x d p : ℕ) → p ≤ x + d + d → x * p ≤ (x + d) * (x + d)
product_below x d p h = omega (arith, mul-le-mul_left x h)

product_le_square : (x p t : ℕ) → x + p ≤ 2 * t → x * p ≤ t * t
product_le_square x p t h = elim (Bool-cases (ltb t x)) [
  | inl e ↦
      let far : (p + (x - t) + (x - t) + (2 * t - x - p) ≡ x)
          × (p + (x - t) + (2 * t - x - p) ≡ t) =
        (omega (arith, ltb→lt t x e), omega (arith, ltb→lt t x e)) in
      subst₂ (λ (u v : ℕ). u * p ≤ v * v) far.0 far.1 (product_above p (x - t) (2 * t - x - p))
  | inr e ↦
      let near : x + (t - x) ≡ t = omega (arith, ltb→ge t x e) in
      subst (λ (v : ℕ). x * p ≤ v * v) near
        (product_below x (t - x) p (omega (arith, ltb→ge t x e)))
]

-- The mean of x and n / x is at least the root, rounded down.
mean_above : (x y n q r : ℕ) → n ≡ q * x + r → r < x → y ≡ (x + q) / 2 → n < suc y * suc y
mean_above x y n q r e h m = omega (arith, product_le_square x (suc q) (suc y) (omega arith))

-- If the mean of x and n / x is not below x, neither is n / x.
square_below : (x y n q r : ℕ) → n ≡ q * x + r → y ≡ (x + q) / 2 → x ≤ y → x * x ≤ n
square_below x y n q r e m h = omega (arith, mul-le-mul_left x le)
  where
    le : x ≤ q
    le = omega arith

mean_pos : (x y n q r : ℕ) → n ≡ q * x + r → r < x → y ≡ (x + q) / 2 → 0 < n → 0 < y
mean_pos x y zero q r e h m p = absurd (omega arith)
mean_pos (suc (suc x)) y n q r e h m p = omega arith
mean_pos (suc zero) y n (suc q) r e h m p = omega arith
mean_pos (suc zero) y n zero r e h m p = absurd (omega arith)
mean_pos zero y n q r e h m p = absurd (omega arith)

-- The quotient of the number by the magnitude of a value, halved with that value.
abbrev newton : List ℕ → Value → Value
newton n x = half_sum (decompose x).limbs (mag_divmod n (decompose x).limbs).0

-- What a round of the loop knows of its two values: y is the mean of x and n / x.
record Round (n : ℕ) (x y : Value) (a b : ℕ) : Type 0 where
  pub at_x : IsNatural x a
  pub at_y : IsNatural y b
  pub quotient : ℕ
  pub rest : ℕ
  pub split : n ≡ quotient * a + rest
  pub small : rest < a
  pub mean : b ≡ (a + quotient) / 2

limbs_of :
    (v : Value) (m : ℕ)
    → IsNatural v m
    → (val (decompose v).limbs ≡ m)
      × All IsLimb (decompose v).limbs
      × (0 < length (decompose v).limbs)
limbs_of v m h =
    let view = decompose-IsView v h.0 in
    (magnitude_of _ _ m (view.value ∙ h.1), view.limbs, view.normal.0)

next_Round :
    (n : List ℕ) (y : Value) (b : ℕ)
    → All IsLimb n
    → 0 < b
    → IsNatural y b
    → (c : ℕ) × Round (val n) y (newton n y) b c
next_Round n y b hn p hy =
    let (e, l, pos_length) = limbs_of y b hy in
    let (split, small, ql, rl) = mag_divmod_correct n (decompose y).limbs hn l (omega arith) in
    let (c, hc, mean) =
      half_sum-IsNatural (decompose y).limbs (mag_divmod n (decompose y).limbs).0 l ql in
    (
      c,
      record {
        at_x = hy;
        at_y = hc;
        quotient = val (mag_divmod n (decompose y).limbs).0;
        rest = val (mag_divmod n (decompose y).limbs).1;
        split = omega (arith, ap (λ (t : ℕ). val (mag_divmod n (decompose y).limbs).0 * t) e);
        small = omega arith;
        mean = omega arith;
      },
    )

isqrt_loop-IsRoot :
    (fuel : ℕ) (n : List ℕ) (x y : Value) (a b : ℕ)
    → All IsLimb n
    → 0 < val n
    → Round (val n) x y a b
    → val n < suc a * suc a
    → a < fuel
    → (r : ℕ) × (v : Value) × (isqrt_loop fuel n x y ≡ some v) × IsNatural v r × IsRoot (val n) r
unfolding isqrt_loop
isqrt_loop-IsRoot zero n x y a b hn p round above h = absurd (omega arith)
isqrt_loop-IsRoot (suc fuel) n x y a b hn p round above h =
    let (ex, lx, px) = limbs_of x a round.at_x in
    let (ey, ly, py) = limbs_of y b round.at_y in
    let test : below (decompose y).limbs (decompose x).limbs ≡ ltb b a =
      below-ltb _ _ ly lx py px ∙ ap₂ ltb ey ex in
    elim (Bool-cases (ltb b a)) [
      | inl e ↦
          let (c, next) =
            next_Round n y b hn (mean_pos a b _ _ _ round.split round.small round.mean p)
              round.at_y in
          rw (test, e)
            (isqrt_loop-IsRoot fuel n y (newton n y) b c hn p next
              (mean_above a b _ _ _ round.split round.small round.mean)
              (omega (arith, ltb→lt b a e)))
      | inr e ↦
          rw (test, e)
            (
              a,
              x,
              refl,
              round.at_x,
              (square_below a b _ _ _ round.split round.mean (omega (arith, ltb→ge b a e)), above),
            )
    ]

-- The first round: x is the number itself and y is (n + 1) / 2.
first_Round :
    (n : ℕ) (x y : Value) (b : ℕ)
    → IsNatural x n
    → IsNatural y b
    → b ≡ (n + 1) / 2
    → 0 < n
    → Round n x y n b
first_Round n x y b hx hy mean p = record {
  at_x = hx;
  at_y = hy;
  quotient = 1;
  rest = 0;
  split = omega arith;
  small = p;
  mean = mean;
}

stops :
    (fuel : ℕ) (n : List ℕ) (x y : Value) (a b : ℕ)
    → IsNatural x a
    → IsNatural y b
    → ltb b a ≡ false
    → isqrt_loop (suc fuel) n x y ≡ some x
unfolding isqrt_loop
stops fuel n x y a b hx hy e =
    let (ex, lx, px) = limbs_of x a hx in
    let (ey, ly, py) = limbs_of y b hy in
    let test : below (decompose y).limbs (decompose x).limbs ≡ ltb b a =
      below-ltb _ _ ly lx py px ∙ ap₂ ltb ey ex in
    rw (test, e) refl

mean_zero : (k b : ℕ) → ltb 0 k ≡ false → b ≡ (k + 1) / 2 → ltb b k ≡ false
mean_zero zero b e m = ground arith
mean_zero (suc k) b e m = absurd (ground arith)

IsRoot-zero : (k : ℕ) → ltb 0 k ≡ false → IsRoot k k
IsRoot-zero zero e = omega arith
IsRoot-zero (suc k) e = absurd (ground arith)

-- On a well-formed integer the Newton loop of `mag_isqrt` ends, and returns the well-formed integer
-- r with r * r ≤ n < (r + 1) * (r + 1), where n is the magnitude of the argument.
pub mag_isqrt-IsRoot :
    (n : Value)
    → IsInteger n
    → (r : ℕ) × (v : Value) × (mag_isqrt n ≡ some v)
      × IsNatural v r
      × IsRoot (magnitude (int_val n)) r
unfolding mag_isqrt
mag_isqrt-IsRoot n h =
    let view = decompose-IsView n h in
    let size : val (decompose n).limbs ≡ magnitude (int_val n) =
      magnitude-signed _ _ _ view.value in
    let k : ℕ = val (decompose n).limbs in
    let x : Value = os_make_integer false (decompose n).limbs in
    let y : Value = half_sum (decompose x).limbs (1 ∷ []) in
    let hx : IsNatural x (val (decompose n).limbs) = make-IsNatural _ view.limbs view.normal.0 in
    let (ex, lx, px) = limbs_of x _ hx in
    let (b, hy, mean) = half_sum-IsNatural (decompose x).limbs (1 ∷ []) lx (omega arith) in
    elim (Bool-cases (ltb 0 (val (decompose n).limbs))) [
      | inl e ↦
          let p : 0 < k = ltb→lt 0 k e in
          rw (← size) (
            isqrt_loop-IsRoot (suc k) (decompose n).limbs x y k b view.limbs p
              (first_Round k x y b hx hy (omega arith) p) (omega (arith, mul-le-mul_left (suc k) p))
              (omega arith))
      | inr e ↦ rw (← size) (
        k,
        x,
        stops k (decompose n).limbs x y k b hx hy (mean_zero k b e (omega arith)),
        hx,
        IsRoot-zero k e,
      )
    ]
