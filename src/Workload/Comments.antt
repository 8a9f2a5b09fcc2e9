-- ===== src/Workload/Comments.antt =====
-- How `WorkloadParser::advance` (WorkloadParser.cc) goes over a comment.
use ccnpl_sim.Prelude.{ℕ, suc, ◌≡◌, refl, ◌≢◌, [], ◌∷◌, ◌++◌, some, Text, codes, arith}
use ccnpl_sim.Prelude.Texts.{text_eq_refl}
use ccnpl_sim.Workload.Lexer.{is_space}
use ccnpl_sim.Workload.Stream.{Parser, until_space, read_word, skip_line, advance}

-- A text with no end of a line.
abbrev pub InLine : Text → Type 0
InLine [] = Unit {0}
InLine (c ∷ cs) = (c ≢ 10) × InLine cs

skip_line-end : (line more : Text) → InLine line → skip_line (line ++ 10 ∷ more) ≡ more
unfolding skip_line
skip_line-end [] more h = refl
skip_line-end (c ∷ cs) more h = ground (arith, skip_line-end cs more h.1)

read_word-comment : (rest : Text) → read_word (b'#' ∷ 32 ∷ rest) ≡ some (codes "#", 32 ∷ rest)
unfolding read_word until_space is_space
read_word-comment rest = refl

-- A comment, from its sign and a space up to the end of the line, is passed over: `advance` goes on
-- behind it, where `#` is the last word read.
pub advance-comment :
    (fuel : ℕ) (p : Parser) (line more : Text)
    → InLine line
    → p.rest ≡ b'#' ∷ 32 ∷ (line ++ 10 ∷ more)
    → advance (suc fuel) p ≡ advance fuel (record p { rest = more; val = codes "#" })
unfolding advance skip_line
advance-comment fuel p line more h e =
    let skipped : skip_line (32 ∷ (line ++ 10 ∷ more)) ≡ more =
      ground (arith, skip_line-end line more h) in
    ground (arith, read_word-comment (line ++ 10 ∷ more), skipped, text_eq_refl (codes "#"))
