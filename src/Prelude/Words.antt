-- ===== src/Prelude/Words.antt =====
-- `unsigned int` of the sources: 32-bit words, as numbers with their wrap-around written out.
use Prim.Native.Nat.{ℕ, ◌+◌, ◌-◌, ◌%◌, ◌≤◌, ◌<◌}
use mathlib.Core.Path.{◌≡◌}
use native.Mathlib.Omega.{arith}

abbrev pub u32_mod : ℕ
u32_mod = 4_294_967_296

-- `a + b` and `a - b` on `unsigned int`.
abbrev pub add32 : ℕ → ℕ → ℕ
add32 a b = (a + b) % 4_294_967_296

abbrev pub sub32 : ℕ → ℕ → ℕ
sub32 a b = (a + 4_294_967_296 - b) % 4_294_967_296

pub add32-eq-add : (a b : ℕ) → a + b < u32_mod → add32 a b ≡ a + b
add32-eq-add a b h = omega arith

pub sub32-eq-sub : (a b : ℕ) → a < u32_mod → b ≤ a → sub32 a b ≡ a - b
sub32-eq-sub a b h k = omega arith

pub add32-sub32 : (a b : ℕ) → a < u32_mod → b < u32_mod → sub32 (add32 a b) b ≡ a
add32-sub32 a b h k = omega arith
