-- ===== src/Random.antt =====
-- tags/cbnsim-1.1.3/Crandom.cc: the generator of random numbers, `Crandom::rnd32`.
--
-- The distributions built on it are floating-point functions, and are left out. The source's signed
-- integers are ℤ, without wrap-around: see `rnd32-eq-mod` for the range of the values.
use ccnpl_sim.Prelude.{ℕ, ◌-◌, ◌*◌, ◌/◌, ◌%◌, ◌<◌, ◌≡◌, if◌then◌else◌, arith}
use ccnpl_sim.Prelude.Int.{ℤ, pos, negsuc, ◌+ℤ◌, ◌*ℤ◌, ◌≤ℤ◌, ltb_ℤ}

-- `MODULE`, `A`, `LASTXN` and `UPTOMOD` of Crandom.h.
abbrev pub modulus : ℕ
modulus = 2_147_483_647

abbrev pub multiplier : ℕ
multiplier = 16_807

abbrev pub last_xn : ℕ
last_xn = 127_773

abbrev pub up_to_mod : ℤ
up_to_mod = negsuc 2_835

-- The two products of `rnd32`, for a seed that is not negative.
unfoldable pub prod1 : ℕ → ℤ
prod1 seed = pos (seed / last_xn) *ℤ up_to_mod

unfoldable pub prod2 : ℕ → ℤ
prod2 seed = pos (seed - seed / last_xn * last_xn) *ℤ pos multiplier

-- `Crandom::rnd32`.
unfoldable pub rnd32 : ℕ → ℤ
unfolding prod1 prod2
rnd32 seed =
    let next = prod1 seed +ℤ prod2 seed in if ltb_ℤ next (pos 0) then next +ℤ pos modulus else next

-- The range of a signed 32-bit integer.
abbrev pub IsWord : ℤ → Type 0
IsWord z = (negsuc modulus ≤ℤ z) × (z ≤ℤ pos modulus)

products_fit :
    (seed : ℕ)
    → seed < modulus
    → (negsuc modulus ≤ℤ prod1 seed)
      × (prod1 seed ≤ℤ pos 0)
      × (pos 0 ≤ℤ prod2 seed)
      × (prod2 seed ≤ℤ pos modulus)
unfolding prod1 prod2 ◌*ℤ◌
products_fit seed h = ground arith

sum_fits : (seed : ℕ) → seed < modulus → IsWord (prod1 seed +ℤ prod2 seed)
unfolding prod1 prod2 ◌+ℤ◌ ◌*ℤ◌
sum_fits seed h = ground arith

multiple_lem : (seed : ℕ) → seed < modulus → rnd32 seed ≡ pos (16_807 * seed % 2_147_483_647)
unfolding rnd32 ◌+ℤ◌ ◌*ℤ◌
multiple_lem seed h = ground arith

-- For a seed below the modulus, `rnd32` yields the multiple of the seed modulo the modulus, and neither of
-- its two products, nor their sum, nor what it yields leaves the range of a signed 32-bit integer.
pub rnd32-eq-mod :
    (seed : ℕ)
    → seed < modulus
    → (rnd32 seed ≡ pos (16_807 * seed % 2_147_483_647))
      × IsWord (prod1 seed)
      × IsWord (prod2 seed)
      × IsWord (prod1 seed +ℤ prod2 seed)
      × IsWord (rnd32 seed)
rnd32-eq-mod seed h =
    let (a, b, c, d) = products_fit seed h in
    (
      multiple_lem seed h,
      ground arith,
      ground arith,
      sum_fits seed h,
      rw (multiple_lem seed h) (ground arith),
    )

-- No seed but 0 leads to 0, and different seeds lead to different seeds.
pub seed_positive : (seed : ℕ) → 0 < seed → seed < modulus → 0 < 16_807 * seed % 2_147_483_647
seed_positive seed h k = omega arith

pub seed_injective :
    (a b : ℕ)
    → a < modulus
    → b < modulus
    → 16_807 * a % 2_147_483_647 ≡ 16_807 * b % 2_147_483_647
    → a ≡ b
seed_injective a b h k e = omega arith

-- From a seed between 0 and the modulus, `rnd32` yields another such seed.
pub rnd32_range :
    (seed : ℕ)
    → 0 < seed
    → seed < modulus
    → (next : ℕ) × (rnd32 seed ≡ pos next) × (0 < next) × (next < modulus)
rnd32_range seed h k =
    (16_807 * seed % 2_147_483_647, multiple_lem seed k, seed_positive seed h k, omega arith)

-- Different seeds below the modulus lead to different seeds.
pub rnd32_injective : (a b : ℕ) → a < modulus → b < modulus → rnd32 a ≡ rnd32 b → a ≡ b
rnd32_injective a b h k e =
    seed_injective a b h k (ground (arith, multiple_lem a h, multiple_lem b k))
