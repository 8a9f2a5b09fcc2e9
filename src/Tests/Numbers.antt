-- ===== src/Tests/Numbers.antt =====
-- The generator of Crandom.cc and the words of WorkloadParser.cc at a few values.
use ccnpl_sim.Prelude.{ℕ, ◌≡◌, ◌<◌, true, [], codes, arith}
use ccnpl_sim.Prelude.Int.{pos, ◌+ℤ◌}
use ccnpl_sim.Random.{IsWord, modulus, prod1, prod2, rnd32, rnd32-eq-mod, rnd32_range}
use ccnpl_sim.Workload.Lexer.{is_double, is_string, unquote, end, is_digit}
use ccnpl_sim.Workload.Classes.{is_double-digits, unquote-quoted}
use ccnpl_sim.Workload.Stream.{Parser}

rnd32-eq-mod_example :
    (rnd32 2_000_000_000 ≡ pos 1_585_957_156)
    × IsWord (prod1 2_000_000_000)
    × IsWord (prod2 2_000_000_000)
    × IsWord (prod1 2_000_000_000 +ℤ prod2 2_000_000_000)
    × IsWord (rnd32 2_000_000_000)
rnd32-eq-mod_example = rnd32-eq-mod 2_000_000_000 (omega arith)

rnd32_range_example : (next : ℕ) × (rnd32 12_345 ≡ pos next) × (0 < next) × (next < modulus)
rnd32_range_example = rnd32_range 12_345 (omega arith) (omega arith)

is_double-digits_example : is_double (codes "3.25") ≡ true
unfolding is_digit
is_double-digits_example = is_double-digits (codes "3.25")

unquote-quoted_example :
    (is_string (codes "\"a b\"") ≡ true) × (unquote (codes "\"a b\"") ≡ codes "a b")
unquote-quoted_example = unquote-quoted (codes "a b")

abbrev reader : Parser
reader = record { rest = codes "# a\nnode 7"; val = []; tok = end }
