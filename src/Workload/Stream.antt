-- ===== src/Workload/Stream.antt =====
-- `WorkloadParser::advance`, `eat` and the parsers of the times (WorkloadParser.cc).
use mathlib.Core.Logic.{ite}
use ccnpl_sim.Prelude.{
  ℕ, zero, suc, ◌==◌, if◌then◌else◌, Bool, true, false, [], ◌∷◌, ◌++◌, Option, none, some, Text,
  text_eq, codes, length,
}
use ccnpl_sim.Workload.Lexer.{
  Tok, end, semicolon, sim_length, time_unit, double, bool, string, op, Operator, operator_of,
  unquote, is_space, classify,
}

-- The parser: what is left of the stream, the last word read and its token.
pub record Parser : Type 0 where
  pub rest : Text
  pub val : Text
  pub tok : Tok

-- A `parse_exception`, or fuel that ran out.
pub data Outcome {ℓ} (A : Type ℓ) : Type ℓ where
  ok : A → Outcome A
  parse_exception : Text → Outcome A
  out_of_fuel : Outcome A

infixl 5 ◌>>=◌
abbrev pub ◌>>=◌ {ℓ κ} : {A : Type ℓ} {B : Type κ} → Outcome A → (A → Outcome B) → Outcome B
ok a >>= f = f a
parse_exception e >>= f = parse_exception e
out_of_fuel >>= f = out_of_fuel

-- `stream >> word`: behind white space, what comes before the next; `none` if there is nothing.
unfoldable pub until_space : Text → Text × Text
until_space [] = ([], [])
until_space (c ∷ cs) =
    let (word, rest) = until_space cs in if is_space c then ([], c ∷ cs) else (c ∷ word, rest)

unfoldable pub read_word : Text → Option (Text × Text)
unfolding until_space
read_word [] = none
read_word (c ∷ cs) =
    let more = read_word cs in if is_space c then more else some (until_space (c ∷ cs))

-- `get()` up to the end of the line.
unfoldable pub skip_line : Text → Text
skip_line [] = []
skip_line (c ∷ cs) = let more = skip_line cs in if c == 10 then cs else more

-- `advance`. At the end of the stream the last word stays as it was: `m_val == ""` compares.
unfoldable pub advance : ℕ → Parser → Outcome Parser
advance zero p = out_of_fuel
advance (suc fuel) p = elim (read_word p.rest) [
  | none ↦ ok (record p { rest = []; tok = end })
  | some (word, rest) ↦
      let comment = advance fuel (record p { rest = skip_line rest; val = word }) in
      if text_eq word (codes "#") then comment else (elim (classify word) [
        | none ↦ parse_exception word
        | some t ↦ ok (record { rest = rest; val = word; tok = t })
      ])
]

-- Enough for one round for each byte that is left.
abbrev pub enough : Parser → ℕ
enough p = suc (length p.rest)

pub Tok-discrete : Discrete Tok
Tok-discrete = hlevel

-- `eat`.
unfoldable pub eat : Tok → Parser → Outcome Parser
eat t p =
    ite (Tok-discrete t p.tok) (advance (enough p) p)
      (parse_exception (codes "cannot eat token: " ++ p.val))

-- `eat_double`, `eat_integer` and `eat_id`: the word, which `atof` and `atoi` of the C library turn
-- into a number, and the parser behind it.
unfoldable pub eat_word : Tok → Parser → Outcome (Text × Parser)
eat_word t p = do p' ← eat t p; ok (p.val, p')

-- `eat_string`.
unfoldable pub eat_string : Parser → Outcome (Text × Parser)
eat_string p = do p' ← eat string p; ok (unquote p.val, p')

-- `eat_bool`.
unfoldable pub eat_bool : Parser → Outcome (Bool × Parser)
eat_bool p =
    if text_eq p.val (codes "true")
    then (do p' ← eat bool p; ok (true, p'))
    else if text_eq p.val (codes "false")
    then (do p' ← eat bool p; ok (false, p'))
    else parse_exception p.val

-- `eat_op`.
unfoldable pub eat_op : Parser → Outcome (Operator × Parser)
eat_op p = elim (operator_of p.val) [
  | none ↦ parse_exception p.val
  | some o ↦ do p' ← eat op p; ok (o, p')
]

-- `time_unit` and `sim_length`: a keyword, a double and a semicolon.
unfoldable pub parse_setting : Tok → Parser → Outcome (Text × Parser)
unfolding eat_word
parse_setting keyword p = do
  p₁ ← eat keyword p
  (value, p₂) ← eat_word double p₁
  p₃ ← eat semicolon p₂
  ok (value, p₃)

-- `parse_times`: the time unit and the length of the simulation, as written.
unfoldable pub parse_times : Parser → Outcome (Text × Text × Parser)
unfolding parse_setting
parse_times p = do
  p₁ ← advance (enough p) p
  (unit, p₂) ← parse_setting time_unit p₁
  (len, p₃) ← parse_setting sim_length p₂
  ok (unit, len, p₃)
