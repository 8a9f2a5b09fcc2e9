-- ===== src/Workload/Ending.antt =====
-- How the event parsers of tags/cbnsim-1.1.3 and `WorkloadParser::next_event` end.
use mathlib.Core.Logic.{ite}
use ccnpl_sim.Prelude.{ℕ, zero, suc, ◌<◌, ◌≤◌, ◌≡◌, ◌≢◌, refl, ◌∙◌, [], Text, arith}
use ccnpl_sim.Workload.Lexer.{Tok, end, semicolon, integer, double, id}
use ccnpl_sim.Workload.Stream.{
  Parser, Outcome, ok, out_of_fuel, ◌>>=◌, read_word, advance, Tok-discrete, eat, eat_word,
}
use ccnpl_sim.Workload.Events.{
  eat_predicate, eat_message, parse_set_predicate, parse_set_multipath, parse_publish_content,
  parse_send_message, parse_download_content, parse_node_fail, parse_node_recover, skip_event,
}
use ccnpl_sim.Workload.Progress.{
  left, Ends, Shorter, bind-Ends, eat-Ends, eat_word-Ends, eat_predicate-Ends, eat_message-Ends,
}

module _ {A : Type 0} (p : Parser) where
  -- A step of an event parser.
  step_eat :
      (t : Tok) (q : Parser) (f : Parser → Outcome (A × Parser))
      → t ≢ end
      → left q ≤ left p
      → ((q' : Parser) → left q' < left p → Ends (Shorter p) (f q'))
      → Ends (Shorter p) (eat t q >>= f)
  step_eat t q f ne le next =
      bind-Ends (λ q'. left q' < left q) (Shorter p) (eat t q) f (eat-Ends t q ne)
        (λ q' l. next q' (omega (arith, l, le)))

  step_word :
      (t : Tok) (q : Parser) (f : Text × Parser → Outcome (A × Parser))
      → t ≢ end
      → left q < left p
      → ((w : Text) (q' : Parser) → left q' < left p → Ends (Shorter p) (f (w, q')))
      → Ends (Shorter p) (eat_word t q >>= f)
  step_word t q f ne le next =
      bind-Ends (Shorter q) (Shorter p) (eat_word t q) f (eat_word-Ends t q ne)
        (λ (w, q') l. next w q' (omega (arith, l, le)))

  step_rest :
      {B : Type 0} (q : Parser) (o : Outcome (B × Parser)) (f : B × Parser → Outcome (A × Parser))
      → left q < left p
      → Ends (Shorter q) o
      → ((b : B) (q' : Parser) → left q' < left p → Ends (Shorter p) (f (b, q')))
      → Ends (Shorter p) (o >>= f)
  step_rest q o f le e next =
      bind-Ends (Shorter q) (Shorter p) o f e (λ (b, q') l. next b q' (omega (arith, l, le)))

id_token : Tok.id ≢ end
id_token e = ground (arith, e)

integer_token : integer ≢ end
integer_token e = ground (arith, e)

double_token : double ≢ end
double_token e = ground (arith, e)

semicolon_token : semicolon ≢ end
semicolon_token e = ground (arith, e)

parse_set_predicate-Ends : (p : Parser) → Ends (Shorter p) (parse_set_predicate p)
unfolding parse_set_predicate
parse_set_predicate-Ends p = step_eat p id p _ id_token (omega arith) (λ p₁ l₁.
    step_word p integer p₁ _ integer_token l₁ (λ nid p₂ l₂.
      step_word p double p₂ _ double_token l₂ (λ ts p₃ l₃.
        step_word p integer p₃ _ integer_token l₃ (λ rate p₄ l₄.
          step_rest p p₄ (eat_predicate p₄) _ l₄ (eat_predicate-Ends p₄) (λ fs p₅ l₅. l₅)))))

parse_set_multipath-Ends : (p : Parser) → Ends (Shorter p) (parse_set_multipath p)
unfolding parse_set_multipath
parse_set_multipath-Ends p = step_eat p id p _ id_token (omega arith) (λ p₁ l₁.
    step_word p integer p₁ _ integer_token l₁ (λ from_nid p₂ l₂.
      step_word p integer p₂ _ integer_token l₂ (λ to_nid p₃ l₃.
        step_word p double p₃ _ double_token l₃ (λ ts p₄ l₄.
          step_word p integer p₄ _ integer_token l₄ (λ inte p₅ l₅.
            step_rest p p₅ (eat_predicate p₅) _ l₅ (eat_predicate-Ends p₅) (λ fs p₆ l₆. l₆))))))

parse_publish_content-Ends : (p : Parser) → Ends (Shorter p) (parse_publish_content p)
unfolding parse_publish_content
parse_publish_content-Ends p = step_eat p id p _ id_token (omega arith) (λ p₁ l₁.
    step_word p integer p₁ _ integer_token l₁ (λ nid p₂ l₂.
      step_word p double p₂ _ double_token l₂ (λ ts p₃ l₃.
        step_word p integer p₃ _ integer_token l₃ (λ size p₄ l₄.
          step_word p integer p₄ _ integer_token l₄ (λ bytesize p₅ l₅.
            step_word p integer p₅ _ integer_token l₅ (λ popularity_class p₆ l₆.
              step_word p integer p₆ _ integer_token l₆ (λ receiver_win p₇ l₇.
                step_word p integer p₇ _ integer_token l₇ (λ fec_perc p₈ l₈.
                  step_rest p p₈ (eat_predicate p₈) _ l₈ (eat_predicate-Ends p₈)
                    (λ fs p₉ l₉. l₉)))))))))

parse_send_message-Ends : (p : Parser) → Ends (Shorter p) (parse_send_message p)
unfolding parse_send_message
parse_send_message-Ends p = step_eat p id p _ id_token (omega arith) (λ p₁ l₁.
    step_word p integer p₁ _ integer_token l₁ (λ nid p₂ l₂.
      step_word p double p₂ _ double_token l₂
        (λ ts p₃ l₃. step_rest p p₃ (eat_message p₃) _ l₃ (eat_message-Ends p₃) (λ vs p₄ l₄. l₄))))

parse_download_content-Ends : (p : Parser) → Ends (Shorter p) (parse_download_content p)
unfolding parse_download_content
parse_download_content-Ends p = step_eat p id p _ id_token (omega arith) (λ p₁ l₁.
    step_word p integer p₁ _ integer_token l₁ (λ nid p₂ l₂.
      step_word p double p₂ _ double_token l₂ (λ ts p₃ l₃.
        step_word p integer p₃ _ integer_token l₃ (λ rate p₄ l₄.
          step_rest p p₄ (eat_message p₄) _ l₄ (eat_message-Ends p₄) (λ vs p₅ l₅. l₅)))))

parse_node_fail-Ends : (p : Parser) → Ends (Shorter p) (parse_node_fail p)
unfolding parse_node_fail
parse_node_fail-Ends p = step_eat p id p _ id_token (omega arith) (λ p₁ l₁.
    step_word p integer p₁ _ integer_token l₁ (λ nid p₂ l₂.
      step_word p integer p₂ _ integer_token l₂
        (λ ts p₃ l₃. step_eat p semicolon p₃ _ semicolon_token (omega (arith, l₃)) (λ p₄ l₄. l₄))))

parse_node_recover-Ends : (p : Parser) → Ends (Shorter p) (parse_node_recover p)
unfolding parse_node_recover
parse_node_recover-Ends p = step_eat p id p _ id_token (omega arith) (λ p₁ l₁.
    step_word p integer p₁ _ integer_token l₁ (λ nid p₂ l₂.
      step_word p integer p₂ _ integer_token l₂
        (λ ts p₃ l₃. step_eat p semicolon p₃ _ semicolon_token (omega (arith, l₃)) (λ p₄ l₄. l₄))))

-- Every event parser comes to its end, with an event behind which less is left to read, or with a
-- `parse_exception`.
pub parse_events-Ends :
    (p : Parser)
    → Ends (Shorter p) (parse_set_predicate p)
      × Ends (Shorter p) (parse_set_multipath p)
      × Ends (Shorter p) (parse_publish_content p)
      × Ends (Shorter p) (parse_send_message p)
      × Ends (Shorter p) (parse_download_content p)
      × Ends (Shorter p) (parse_node_fail p)
      × Ends (Shorter p) (parse_node_recover p)
parse_events-Ends p = (
  parse_set_predicate-Ends p,
  parse_set_multipath-Ends p,
  parse_publish_content-Ends p,
  parse_send_message-Ends p,
  parse_download_content-Ends p,
  parse_node_fail-Ends p,
  parse_node_recover-Ends p,
)

ite_yes : {A X : Type 0} (d : Dec X) (a b : A) → X → ite d a b ≡ a
ite_yes (yes _) a b x = refl
ite_yes (no n) a b x = absurd (n x)

ite_no : {A X : Type 0} (d : Dec X) (a b : A) → ¬ X → ite d a b ≡ b
ite_no (yes x) a b n = absurd (n x)
ite_no (no _) a b n = refl

-- The parser behind the last word of a file.
abbrev pub at_end : Text → Parser
at_end val = record { rest = []; val = val; tok = end }

eat-at_end : (val : Text) → eat end (at_end val) ≡ ok (at_end val)
unfolding eat advance read_word
eat-at_end val = ite_yes (Tok-discrete end end) _ _ refl

-- Where the file ends within an event without a parser, the loop that passes over the event has no end: it
-- runs out of any fuel.
pub skip_event_endless : (fuel : ℕ) (val : Text) → skip_event fuel (at_end val) ≡ out_of_fuel
unfolding skip_event
skip_event_endless zero val = refl
skip_event_endless (suc fuel) val =
    ite_no (Tok-discrete end semicolon) _ _ (λ e. ground (arith, e))
    ∙ rw (eat-at_end val) (skip_event_endless fuel val)
