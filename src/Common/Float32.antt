-- ===== src/Common/Float32.antt =====
-- Go's float32, as far as scheduler/internal/broker/broker.go uses it: numbers of 24 significant bits, rounded to
-- the nearest, and to even in the middle. Infinities, NaN and the smallest numbers do not come up: the difference
-- of 1 and a rate is 0 or at least 2 ^ -24 in size, and it is multiplied by a number of links.
pub mod Bounds
pub mod Tests
use distributed_web_crawler.Base.{
  ℕ, zero, suc, ◌+◌, ◌-◌, ◌*◌, ◌/◌, ◌%◌, ◌^◌, Bool, true, false, not, ◌&&◌, ◌||◌, ℤ, pos, negsuc,
  ltb, leb, ◌==◌, if◌then◌else◌,
}

-- `mantissa / 2 ^ scale`, with a sign.
pub record Float32 : Type 0 where
  pub negative : Bool
  pub mantissa : ℕ
  pub scale : ℕ

-- By how many bits a number is longer than 24. The fuel is more than the length of the numbers here: a product
-- of two numbers of 24 bits, or a sum of 2 ^ 149 and such a number.
unfoldable pub excess : ℕ → ℕ → ℕ
excess zero m = 0
excess (suc f) m = let rest = excess f (m / 2) in if ltb m 16_777_216 then 0 else suc rest

-- Whether the part that is cut off is more than half of the last bit, or the half of an odd one.
abbrev pub goes_up : ℕ → ℕ → Bool
goes_up m unit = ltb unit (2 * (m % unit)) || ((2 * (m % unit) == unit) && ((m / unit) % 2 == 1))

unfoldable pub rounded : Bool → ℕ → ℕ → Float32
unfolding excess
rounded negative m scale =
    let unit = 2 ^ excess 512 m in
    record {
      negative = negative;
      mantissa = (m / unit + (if goes_up m unit then 1 else 0)) * unit;
      scale = scale;
    }

-- `float32(n)`
unfoldable pub of_length : ℕ → Float32
unfolding rounded
of_length n = rounded false n 0

-- `1.00 - x`
unfoldable pub one_minus : Float32 → Float32
unfolding rounded
one_minus x =
    let one = 2 ^ x.scale in
    if x.negative
    then rounded false (one + x.mantissa) x.scale
    else (if leb x.mantissa one
        then rounded false (one - x.mantissa) x.scale
        else rounded true (x.mantissa - one) x.scale)

abbrev pub differ : Bool → Bool → Bool
differ true b = not b
differ false b = b

-- `x * y`
unfoldable pub times : Float32 → Float32 → Float32
unfolding rounded
times x y = rounded (differ x.negative y.negative) (x.mantissa * y.mantissa) (x.scale + y.scale)

abbrev opposite : ℕ → ℤ
opposite zero = pos 0
opposite (suc k) = negsuc k

-- `int(x)`, towards zero.
unfoldable pub truncate : Float32 → ℤ
truncate x =
    let whole = x.mantissa / 2 ^ x.scale in if x.negative then opposite whole else pos whole
