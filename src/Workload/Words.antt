-- ===== src/Workload/Words.antt =====
-- How `WorkloadParser::advance` (WorkloadParser.cc) goes through a file.
use ccnpl_sim.Prelude.{
  ℕ, zero, suc, ◌+◌, ◌≤◌, ◌<◌, ◌≡◌, ◌≢◌, refl, not, Option-cases, inl, inr, true, [], ◌∷◌, ◌++◌,
  some, Text, length, arith,
}
use ccnpl_sim.Workload.Lexer.{is_space}
use ccnpl_sim.Workload.Classes.{all}
use ccnpl_sim.Workload.Stream.{Parser, out_of_fuel, until_space, read_word, skip_line, advance}

-- A word of some bytes, none of them white space.
pub record IsWord (w : Text) : Type 0 where
  pub some_bytes : 0 < length w
  pub solid : all (λ c. not (is_space c)) w ≡ true

until_space-word :
    (w rest : Text)
    → all (λ c. not (is_space c)) w ≡ true
    → until_space (w ++ 32 ∷ rest) ≡ (w, 32 ∷ rest)
unfolding until_space
until_space-word [] rest h = unfold is_space in ground arith
until_space-word (c ∷ w) rest h = ground (arith, until_space-word w rest)

-- Spaces in front are passed over, and a word ends at the next space.
pub read_word-space : (cs : Text) → read_word (32 ∷ cs) ≡ read_word cs
unfolding read_word is_space
read_word-space cs = refl

pub read_word-word : (w rest : Text) → IsWord w → read_word (w ++ 32 ∷ rest) ≡ some (w, 32 ∷ rest)
unfolding read_word
read_word-word [] rest h = absurd (omega (arith, h.some_bytes))
read_word-word (c ∷ w) rest h = ground (arith, h.solid, until_space-word (c ∷ w) rest h.solid)

until_space-length : (cs : Text) → length (until_space cs).0 + length (until_space cs).1 ≡ length cs
unfolding until_space
until_space-length [] = refl
until_space-length (c ∷ cs) = ground (arith, until_space-length cs)

pub read_word-length :
    (cs word rest : Text) → read_word cs ≡ some (word, rest) → length rest < length cs
unfolding read_word until_space
read_word-length [] word rest e = cc
read_word-length (c ∷ cs) word rest e =
    ground (arith, read_word-length cs word rest, until_space-length cs)

pub skip_line-length : (cs : Text) → length (skip_line cs) ≤ length cs
unfolding skip_line
skip_line-length [] = omega arith
skip_line-length (c ∷ cs) = ground (arith, skip_line-length cs)

-- With more fuel than bytes left, `advance` comes to a token or to a `parse_exception`.
pub advance_total : (fuel : ℕ) (p : Parser) → length p.rest < fuel → advance fuel p ≢ out_of_fuel
unfolding advance
advance_total zero p h = absurd (omega arith)
advance_total (suc fuel) p h = elim (Option-cases (read_word p.rest)) [
  | inl over ↦ ground arith
  | inr ((word, rest), e) ↦ ground (
    arith,
    read_word-length p.rest word rest e,
    skip_line-length rest,
    advance_total fuel (record p { rest = skip_line rest; val = word }),
  )
]
