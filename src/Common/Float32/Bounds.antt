-- ===== src/Common/Float32/Bounds.antt =====
-- float32: the rounding does not go past a number that needs none, and what that means for a share.
use native.Mathlib.Nat.{
  mul-le-mul, div-add-mod', pow-suc, mul-le-mul_right, div-le_of_le-mul, mul_comm, mul_assoc,
}
use native.Mathlib.Decide.{dec_lt}
use distributed_web_crawler.Base.{
  ℕ, zero, suc, ◌+◌, ◌-◌, ◌*◌, ◌/◌, ◌%◌, ◌^◌, ◌≤◌, ◌<◌, ◌≡◌, ◌∙◌, sym, ap, subst, refl, Bool, false,
  ltb, if◌then◌else◌, arith, pos, Bool-cases, inl, inr, lt→ltb, le→leb,
}
use distributed_web_crawler.Common.Float32.{
  Float32, excess, differ, goes_up, rounded, of_length, one_minus, times, truncate,
}

two_pow_suc : (s : ℕ) → 2 ^ suc s ≡ 2 * 2 ^ s
two_pow_suc s = pow-suc 2 s ∙ mul_comm _ _

two_pow_pos : (s : ℕ) → 0 < 2 ^ s
two_pow_pos zero = omega arith
two_pow_pos (suc s) = omega (arith, two_pow_suc s, two_pow_pos s)

two_pow_add : (d k : ℕ) → 2 ^ (d + k) ≡ 2 ^ d * 2 ^ k
two_pow_add zero k =
    let left : 0 + k ≡ k = omega arith in ap (λ (x : ℕ). 2 ^ x) left ∙ (omega arith)
two_pow_add (suc d) k =
    let left : suc d + k ≡ suc (d + k) = omega arith in
    ap (λ (x : ℕ). 2 ^ x) left
    ∙ two_pow_suc (d + k)
    ∙ ap (λ (x : ℕ). 2 * x) (two_pow_add d k)
    ∙ sym (mul_assoc 2 (2 ^ d) (2 ^ k))
    ∙ ap (λ (x : ℕ). x * 2 ^ k) (sym (two_pow_suc d))

bump_le : (b : Bool) → (if b then 1 else 0) ≤ 1
bump_le b = ground arith

whole_stays : (m u : ℕ) → 0 < u → m % u ≡ 0 → goes_up m u ≡ false
whole_stays m u h e = rw e (ground arith)

-- A multiple of the unit is not passed.
snap : (m u n : ℕ) → 0 < u → m ≤ n * u → (m / u + (if goes_up m u then 1 else 0)) * u ≤ n * u
snap m u n h l = elim (dec_lt (m / u) n) [
  | yes less ↦ mul-le-mul_right u (omega (arith, bump_le (goes_up m u)))
  | no more ↦
      let below : n * u ≤ m / u * u = mul-le-mul_right u (omega arith) in
      let e : m % u ≡ 0 = omega (arith, div-add-mod' m u) in
      rw (whole_stays m u h e) (omega (arith, div-add-mod' m u))
]

-- A number below n * 2 ^ s, where n has 24 bits, has no more than s bits in excess.
excess-le : (f m n s : ℕ) → n < 16_777_216 → m ≤ n * 2 ^ s → excess f m ≤ s
unfolding excess
excess-le zero m n s h l = omega arith
excess-le (suc f) m n zero h l = rw (lt→ltb m 16_777_216 (omega arith)) (omega arith)
excess-le (suc f) m n (suc s) h l = elim (Bool-cases (ltb m 16_777_216)) [
  | inl short ↦ rw short (omega arith)
  | inr long ↦
      let two : n * 2 ^ suc s ≡ 2 * (n * 2 ^ s) =
        ap (λ (x : ℕ). n * x) (pow-suc 2 s) ∙ sym (mul_assoc n (2 ^ s) 2) ∙ mul_comm _ 2 in
      let half : m / 2 ≤ n * 2 ^ s = omega (arith, two) in
      rw long (omega (arith, excess-le f (m / 2) n s h half))
]

rounded-le :
    (negative : Bool) (m n s : ℕ)
    → n < 16_777_216
    → m ≤ n * 2 ^ s
    → (rounded negative m s).mantissa ≤ n * 2 ^ s
unfolding rounded
rounded-le negative m n s h l =
    let k = excess 512 m in
    let d = s - k in
    let parts : d + k ≡ s = omega (arith, excess-le 512 m n s h l) in
    let split : n * 2 ^ s ≡ n * 2 ^ d * 2 ^ k =
      ap (λ (x : ℕ). n * 2 ^ x) (sym parts)
      ∙ ap (λ (x : ℕ). n * x) (two_pow_add d k)
      ∙ sym (mul_assoc n (2 ^ d) (2 ^ k)) in
    rw split (snap m (2 ^ k) (n * 2 ^ d) (two_pow_pos k) (rw split at l))

-- A number between 0 and 1.
pub record IsFraction (x : Float32) : Type 0 where
  pub positive : x.negative ≡ false
  pub small : x.mantissa ≤ 2 ^ x.scale

one_minus-IsFraction : (x : Float32) → IsFraction x → IsFraction (one_minus x)
unfolding one_minus rounded
one_minus-IsFraction x i =
    let one = 2 ^ x.scale in
    let least : one - x.mantissa ≤ 1 * one = omega arith in
    let short = rounded-le false (one - x.mantissa) 1 x.scale (omega arith) least in
    rw (i.positive, one_minus, le→leb x.mantissa one i.small)
      (record { positive = refl; small = omega (arith, short) })

-- So many times a fraction is no more than so many.
record IsPart (n : ℕ) (x : Float32) : Type 0 where
  positive : x.negative ≡ false
  small : x.mantissa ≤ n * 2 ^ x.scale

rounded-scale : (b : Bool) (m s : ℕ) → (rounded b m s).scale ≡ s
unfolding rounded
rounded-scale b m s = refl

rounded-negative : (b : Bool) (m s : ℕ) → (rounded b m s).negative ≡ b
unfolding rounded
rounded-negative b m s = refl

rounded-IsPart : (n m s : ℕ) → n < 16_777_216 → m ≤ n * 2 ^ s → IsPart n (rounded false m s)
rounded-IsPart n m s h l = record {
  positive = rounded-negative false m s;
  small =
      subst (λ x. (rounded false m s).mantissa ≤ n * 2 ^ x) (sym (rounded-scale false m s))
        (rounded-le false m n s h l);
}

-- A number that is not negative, not above n, and whole.
record IsWhole (n : ℕ) (x : Float32) : Type 0 where
  positive : x.negative ≡ false
  whole : x.scale ≡ 0
  small : x.mantissa ≤ n

of_length-IsWhole : (n : ℕ) → n < 16_777_216 → IsWhole n (of_length n)
unfolding of_length
of_length-IsWhole n h = record {
  positive = rounded-negative false n 0;
  whole = rounded-scale false n 0;
  small = omega (arith, rounded-le false n n 0 h (omega arith));
}

product-IsPart :
    (n m m' s s' : ℕ) (b b' : Bool)
    → n < 16_777_216
    → b ≡ false
    → b' ≡ false
    → s ≡ 0
    → m ≤ n
    → m' ≤ 2 ^ s'
    → IsPart n (rounded (differ b b') (m * m') (s + s'))
product-IsPart n m m' s s' b b' h p p' e l l' =
    let scale : s + s' ≡ s' = omega arith in
    rw (p, p', scale) (rounded-IsPart n (m * m') s' h (mul-le-mul l l'))

times-IsPart :
    (n : ℕ) (x y : Float32) → n < 16_777_216 → IsWhole n x → IsFraction y → IsPart n (times x y)
unfolding times
times-IsPart n x y h i k =
    product-IsPart n x.mantissa y.mantissa x.scale y.scale x.negative y.negative h i.positive
      k.positive i.whole i.small k.small

-- Of fewer than 2 ^ 24 links, a rate between 0 and 1 leaves none, all, or some number between.
pub share_bounds :
    (n : ℕ) (rate : Float32)
    → n < 16_777_216
    → IsFraction rate
    → (k : ℕ) × (truncate (times (of_length n) (one_minus rate)) ≡ pos k) × (k ≤ n)
unfolding truncate
share_bounds n rate h i =
    let x = times (of_length n) (one_minus rate) in
    let part =
      times-IsPart n (of_length n) (one_minus rate) h (of_length-IsWhole n h)
        (one_minus-IsFraction rate i) in
    (
      x.mantissa / 2 ^ x.scale,
      rw (part.positive, truncate),
      div-le_of_le-mul (2 ^ x.scale) (omega (arith, part.small, mul_comm n (2 ^ x.scale))),
    )
