-- ===== src/Common/Float32/Tests.antt =====
-- float32 at concrete numbers.
use distributed_web_crawler.Base.{false, pos, negsuc, ◌≡◌, refl}
use distributed_web_crawler.Common.Float32.{Float32, of_length, one_minus, times, truncate}

-- 16,777,219 has 25 bits, and goes to an even number of 24.
long : of_length 16_777_219 ≡ record { negative = false; mantissa = 16_777_220; scale = 0 }
unfolding of_length
long = refl

-- 0.3 as float32
abbrev pub three_tenths : Float32
three_tenths = record { negative = false; mantissa = 10_066_330; scale = 25 }

-- 0.7 of 10 links is 6.99999988, which rounds to 7 when it is multiplied.
seven : truncate (times (of_length 10) (one_minus three_tenths)) ≡ pos 7
unfolding truncate times of_length one_minus
seven = refl

abbrev pub three_halves : Float32
three_halves = record { negative = false; mantissa = 3; scale = 1 }

half_back : truncate (times (of_length 3) (one_minus three_halves)) ≡ negsuc 0
unfolding truncate times of_length one_minus
half_back = refl

-- One link at the rate 1.5 gives the limit 0.
one_link : truncate (times (of_length 1) (one_minus three_halves)) ≡ pos 0
unfolding truncate times of_length one_minus
one_link = refl
