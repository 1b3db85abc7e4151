-- ===== src/Mag/Divide/Bit.antt =====
-- The bits of the number that a limb array stands for (used by mag_divmod of src/c/runtime.c).
use isiki.Prelude.{
  ℕ, zero, suc, ◌+◌, ◌-◌, ◌*◌, ◌/◌, ◌%◌, ◌^◌, ◌≤◌, ◌<◌, ◌≡◌, refl, sym, ap, ◌∙◌, List, [], ◌∷◌,
  arith, length, get_or, set, All,
}
use isiki.Prelude.Bits.{pow_pos, pow-add, bit_or_pow, bit_or_low}
use Prim.Native.Nat.{bit_or}
use native.Mathlib.Nat.{
  pow-suc, div-div-eq-div-mul, add-mul-div_left, div-add-mod, mod-lt, mul-le-mul_left,
  div-lt_iff_lt-mul,
}
use isiki.Mag.{IsLimb, val}
use isiki.Mag.Divide.{shl_limbs, bit_at, set_bit}

-- 2^(32 i + j) at one limb further up.
pow_next : (i j : ℕ) → 2 ^ (32 * suc i + j) ≡ 4294967296 * 2 ^ (32 * i + j)
pow_next i j = ap (λ (t : ℕ). 2 ^ t) split ∙ pow-add 32 (32 * i + j)
  where
    split : 32 * suc i + j ≡ 32 + (32 * i + j)
    split = omega arith

-- A bit below 32 and the room above it make a limb.
limb_width : (j : ℕ) → j < 32 → 2 ^ j * (2 * 2 ^ (31 - j)) ≡ 4294967296
limb_width j h =
    ap (λ (t : ℕ). 2 ^ j * t) half ∙ sym (pow-add j (suc (31 - j))) ∙ ap (λ (t : ℕ). 2 ^ t) whole
  where
    half : 2 * 2 ^ (31 - j) ≡ 2 ^ suc (31 - j)
    half = omega (arith, pow-suc 2 (31 - j))

    whole : j + suc (31 - j) ≡ 32
    whole = omega arith

-- The limbs above do not reach the bits of the lowest.
low_limb : (x v j : ℕ) → j < 32 → (x + 4294967296 * v) / 2 ^ j % 2 ≡ x / 2 ^ j % 2
low_limb x v j h = omega (
  arith,
  ap (λ (t : ℕ). (x + t) / 2 ^ j) regroup,
  add-mul-div_left x (2 * 2 ^ (31 - j) * v) {y = 2 ^ j} (pow_pos j),
)
  where
    regroup : 4294967296 * v ≡ 2 ^ j * (2 * 2 ^ (31 - j) * v)
    regroup = omega (arith, ap (λ (t : ℕ). t * v) (limb_width j h))

high_limbs :
    (x v i j : ℕ) → IsLimb x → (x + 4294967296 * v) / 2 ^ (32 * suc i + j) ≡ v / 2 ^ (32 * i + j)
high_limbs x v i j h =
    ap (λ (t : ℕ). (x + 4294967296 * v) / t) (pow_next i j)
    ∙ sym (div-div-eq-div-mul (x + 4294967296 * v) 4294967296 (2 ^ (32 * i + j)))
    ∙ ap (λ (t : ℕ). t / 2 ^ (32 * i + j)) (omega arith)

val-bit_split :
    (l : List ℕ) (i j : ℕ)
    → All IsLimb l
    → j < 32
    → val l / 2 ^ (32 * i + j) % 2 ≡ get_or l i 0 / 2 ^ j % 2
val-bit_split [] i j h hj =
    ap (λ (t : ℕ). t % 2) (zero_over (32 * i + j)) ∙ sym (ap (λ (t : ℕ). t % 2) (zero_over j))
  where
    zero_over : (k : ℕ) → 0 / 2 ^ k ≡ 0
    zero_over k = omega arith
val-bit_split (x ∷ l) zero j h hj =
    ap (λ (t : ℕ). (x + 4294967296 * val l) / 2 ^ t % 2) (omega arith) ∙ low_limb x (val l) j hj
val-bit_split (x ∷ l) (suc i) j h hj =
    ap (λ (t : ℕ). t % 2) (high_limbs x (val l) i j h.0) ∙ val-bit_split l i j h.1 hj

-- `bit_at` is a bit of the number.
pub val-bit_at : (l : List ℕ) (idx : ℕ) → All IsLimb l → bit_at l idx ≡ val l / 2 ^ idx % 2
unfolding bit_at
val-bit_at l idx h = sym (
    ap (λ (t : ℕ). val l / 2 ^ t % 2) (sym (div-add-mod idx 32))
    ∙ val-bit_split l (idx / 32) (idx % 32) h (omega arith))

val-set_add :
    (l : List ℕ) (i j : ℕ)
    → i < length l
    → val (set l i (get_or l i 0 + 2 ^ j)) ≡ val l + 2 ^ (32 * i + j)
val-set_add [] i j h = absurd (omega arith)
val-set_add (x ∷ l) zero j h = omega (arith, ap (λ (t : ℕ). 2 ^ t) (same))
  where
    same : 32 * 0 + j ≡ j
    same = omega arith
val-set_add (x ∷ l) (suc i) j h = omega (arith, pow_next i j, val-set_add l i j (omega arith))

limb_with_bit : (x j : ℕ) → IsLimb x → j < 32 → x / 2 ^ j % 2 ≡ 0 → x + 2 ^ j < 2 ^ 32
limb_with_bit x j hx hj clear = omega (
  arith,
  limb_width j hj,
  div-add-mod x (2 ^ j),
  mod-lt x (pow_pos j),
  mul-le-mul_left {m = x / 2 ^ j + 2} {n = 2 * 2 ^ (31 - j)} (2 ^ j) (omega (arith, quotient)),
)
  where
    quotient : x / 2 ^ j < 2 * 2 ^ (31 - j)
    quotient =
        (div-lt_iff_lt-mul {k = 2 ^ j} {x = x} {y = 2 * 2 ^ (31 - j)} (pow_pos j)).1
          (omega (arith, limb_width j hj))

set-IsLimb : (l : List ℕ) (i v : ℕ) → All IsLimb l → IsLimb v → All IsLimb (set l i v)
set-IsLimb [] i v h k = tt
set-IsLimb (x ∷ l) zero v h k = (k, h.1)
set-IsLimb (x ∷ l) (suc i) v h k = (h.0, set-IsLimb l i v h.1 k)

get_or-IsLimb : (l : List ℕ) (i : ℕ) → All IsLimb l → IsLimb (get_or l i 0)
get_or-IsLimb [] i h = omega arith
get_or-IsLimb (x ∷ l) zero h = h.0
get_or-IsLimb (x ∷ l) (suc i) h = get_or-IsLimb l i h.1

-- Setting a clear bit of the array adds its power of two.
pub set_bit_correct :
    (l : List ℕ) (idx : ℕ)
    → All IsLimb l
    → idx < 32 * length l
    → val l / 2 ^ idx % 2 ≡ 0
    → (val (set_bit l idx) ≡ val l + 2 ^ idx) × All IsLimb (set_bit l idx)
unfolding set_bit
set_bit_correct l idx h lt clear =
    let i : ℕ = idx / 32 in
    let j : ℕ = idx % 32 in
    let clear' : get_or l i 0 / 2 ^ j % 2 ≡ 0 = unfold bit_at in val-bit_at l idx h ∙ clear in
    let or : bit_or (get_or l i 0) (2 ^ j) ≡ get_or l i 0 + 2 ^ j = bit_or_pow j _ clear' in
    rw or (
      val-set_add l i j (omega arith) ∙ ap (λ (t : ℕ). val l + 2 ^ t) (div-add-mod idx 32),
      set-IsLimb l i _ h (limb_with_bit _ j (get_or-IsLimb l i h) (omega arith) clear'),
    )

-- The numbers below `bound n` are those that n limbs hold.
abbrev pub bound : ℕ → ℕ
bound zero = 1
bound (suc n) = 4294967296 * bound n

pub val-lt-bound : (l : List ℕ) → All IsLimb l → val l < bound (length l)
val-lt-bound [] h = omega arith
val-lt-bound (x ∷ l) h = omega (arith, val-lt-bound l h.1)

limb_shl : (x c : ℕ) → IsLimb x → c ≤ 1 → bit_or (x * 2 % 2 ^ 64) c ≡ x * 2 + c
limb_shl x c h hc = bit_or_low _ c (omega arith) hc ∙ omega arith

-- A shift that does not pass the capacity doubles.
pub shl_limbs_correct :
    (l : List ℕ) (c : ℕ)
    → All IsLimb l
    → c ≤ 1
    → 2 * val l + c < bound (length l)
    → (val (shl_limbs l c) ≡ 2 * val l + c)
      × All IsLimb (shl_limbs l c)
      × (length (shl_limbs l c) ≡ length l)
unfolding shl_limbs
shl_limbs_correct [] c h hc lt = (omega arith, tt, refl)
shl_limbs_correct (x ∷ l) c h hc lt =
    let (e, limbs, len) = shl_limbs_correct l (x / 2 ^ 31 % 2) h.1 (omega arith) (omega arith) in
    rw (limb_shl x c h.0 hc) (omega arith, (omega arith, limbs), ap suc len)
