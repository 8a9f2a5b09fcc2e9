-- ===== src/Workload/Events.antt =====
-- The event parsers of tags/cbnsim-1.1.3 (SetPredicateParser.cc, PublishContentParser.cc and the others
-- beside them) and `WorkloadParser::next_event`.
--
-- Predicates and messages are of the siena library: an event has the constraints and the attributes that
-- are added, in their order. The four copies of `constraint_list` are one.
use mathlib.Core.Logic.{ite}
use ccnpl_sim.Prelude.{ℕ, zero, suc, Bool, List, [], ◌∷◌, Option, none, some, Text}
use ccnpl_sim.Workload.Lexer.{
  Tok, end, semicolon, amp, pipe, double, integer, bool, string, id, Operator,
}
use ccnpl_sim.Workload.Stream.{
  Parser, Outcome, ok, parse_exception, out_of_fuel, ◌>>=◌, enough, Tok-discrete, eat, eat_word,
  eat_string, eat_bool, eat_op,
}

-- A value as it is written.
pub data Value : Type 0 where
  bool_value : Bool → Value
  double_value integer_value string_value : Text → Value

pub record Constraint : Type 0 where
  pub name : Text
  pub op : Operator
  pub value : Value

abbrev pub Filter : Type 0
Filter = List Constraint

-- The events, with numbers as they are written.
pub data WorkloadEvent : Type 0 where
  set_predicate : (nid ts rate : Text) → List Filter → WorkloadEvent
  set_multipath : (from_nid to_nid ts inte : Text) → List Filter → WorkloadEvent
  publish_content :
      (nid ts size bytesize popularity_class receiver_win fec_perc : Text)
      → List Filter
      → WorkloadEvent
  send_message : (nid ts : Text) → List (Text × Value) → WorkloadEvent
  download_content : (nid ts rate : Text) → List (Text × Value) → WorkloadEvent
  node_fail node_recover : (nid ts : Text) → WorkloadEvent

-- The `switch` on the token of a value.
unfoldable pub eat_by : Tok → Parser → Outcome (Value × Parser)
unfolding eat_bool eat_word eat_string
eat_by bool p = do (v, p₁) ← eat_bool p; ok (bool_value v, p₁)
eat_by double p = do (v, p₁) ← eat_word double p; ok (double_value v, p₁)
eat_by integer p = do (v, p₁) ← eat_word integer p; ok (integer_value v, p₁)
eat_by string p = do (v, p₁) ← eat_string p; ok (string_value v, p₁)
eat_by _ p = parse_exception p.val

abbrev pub eat_value : Parser → Outcome (Value × Parser)
eat_value p = eat_by p.tok p

-- `constraint_list`. The fuel is more than the word that was read and the bytes that are left.
unfoldable pub constraint_list : ℕ → Parser → Outcome (Filter × Parser)
unfolding eat_word eat_op eat_by
constraint_list zero p = out_of_fuel
constraint_list (suc fuel) p = do
  (name, p₁) ← eat_word id p
  (op, p₂) ← eat_op p₁
  (value, p₃) ← eat_value p₂
  let c : Constraint = record { name = name; op = op; value = value }
  ite (Tok-discrete p₃.tok amp)
      (do p₄ ← eat amp p₃; (cs, p₅) ← constraint_list fuel p₄; ok (c ∷ cs, p₅)) (ok (c ∷ [], p₃))

-- The loop over the filters of a predicate.
unfoldable pub filter_list : ℕ → Parser → Outcome (List Filter × Parser)
unfolding constraint_list
filter_list zero p = out_of_fuel
filter_list (suc fuel) p = ite (Tok-discrete p.tok semicolon) (ok ([], p)) (do
  p₁ ← ite (Tok-discrete p.tok pipe) (eat pipe p) (ok p)
  (f, p₂) ← constraint_list (suc (enough p₁)) p₁
  (fs, p₃) ← filter_list fuel p₂
  ok (f ∷ fs, p₃))

-- The loop over the attributes of a message.
unfoldable pub attribute_list : ℕ → Parser → Outcome (List (Text × Value) × Parser)
unfolding eat_word eat_op eat_by
attribute_list zero p = out_of_fuel
attribute_list (suc fuel) p = ite (Tok-discrete p.tok semicolon) (ok ([], p)) (do
  (name, p₁) ← eat_word id p
  (op, p₂) ← eat_op p₁
  (v, p₃) ← eat_value p₂
  (as', p₄) ← attribute_list fuel p₃
  ok ((name, v) ∷ as', p₄))

-- The filters, and the semicolon behind them.
unfoldable pub eat_predicate : Parser → Outcome (List Filter × Parser)
unfolding filter_list
eat_predicate p = do (fs, p₁) ← filter_list (suc (enough p)) p; p₂ ← eat semicolon p₁; ok (fs, p₂)

unfoldable pub eat_message : Parser → Outcome (List (Text × Value) × Parser)
unfolding attribute_list
eat_message p = do (vs, p₁) ← attribute_list (suc (enough p)) p; p₂ ← eat semicolon p₁; ok (vs, p₂)

unfoldable pub parse_set_predicate : Parser → Outcome (WorkloadEvent × Parser)
unfolding eat_word eat_predicate
parse_set_predicate p = do
  p₁ ← eat id p
  (nid, p₂) ← eat_word integer p₁
  (ts, p₃) ← eat_word double p₂
  (rate, p₄) ← eat_word integer p₃
  (fs, p₅) ← eat_predicate p₄
  ok (set_predicate nid ts rate fs, p₅)

unfoldable pub parse_set_multipath : Parser → Outcome (WorkloadEvent × Parser)
unfolding eat_word eat_predicate
parse_set_multipath p = do
  p₁ ← eat id p
  (from_nid, p₂) ← eat_word integer p₁
  (to_nid, p₃) ← eat_word integer p₂
  (ts, p₄) ← eat_word double p₃
  (inte, p₅) ← eat_word integer p₄
  (fs, p₆) ← eat_predicate p₅
  ok (set_multipath from_nid to_nid ts inte fs, p₆)

unfoldable pub parse_publish_content : Parser → Outcome (WorkloadEvent × Parser)
unfolding eat_word eat_predicate
parse_publish_content p = do
  p₁ ← eat id p
  (nid, p₂) ← eat_word integer p₁
  (ts, p₃) ← eat_word double p₂
  (size, p₄) ← eat_word integer p₃
  (bytesize, p₅) ← eat_word integer p₄
  (popularity_class, p₆) ← eat_word integer p₅
  (receiver_win, p₇) ← eat_word integer p₆
  (fec_perc, p₈) ← eat_word integer p₇
  (fs, p₉) ← eat_predicate p₈
  ok (publish_content nid ts size bytesize popularity_class receiver_win fec_perc fs, p₉)

unfoldable pub parse_send_message : Parser → Outcome (WorkloadEvent × Parser)
unfolding eat_word eat_message
parse_send_message p = do
  p₁ ← eat id p
  (nid, p₂) ← eat_word integer p₁
  (ts, p₃) ← eat_word double p₂
  (vs, p₄) ← eat_message p₃
  ok (send_message nid ts vs, p₄)

unfoldable pub parse_download_content : Parser → Outcome (WorkloadEvent × Parser)
unfolding eat_word eat_message
parse_download_content p = do
  p₁ ← eat id p
  (nid, p₂) ← eat_word integer p₁
  (ts, p₃) ← eat_word double p₂
  (rate, p₄) ← eat_word integer p₃
  (vs, p₅) ← eat_message p₄
  ok (download_content nid ts rate vs, p₅)

unfoldable pub parse_node_fail : Parser → Outcome (WorkloadEvent × Parser)
unfolding eat_word
parse_node_fail p = do
  p₁ ← eat id p
  (nid, p₂) ← eat_word integer p₁
  (ts, p₃) ← eat_word integer p₂
  p₄ ← eat semicolon p₃
  ok (node_fail nid ts, p₄)

unfoldable pub parse_node_recover : Parser → Outcome (WorkloadEvent × Parser)
unfolding eat_word
parse_node_recover p = do
  p₁ ← eat id p
  (nid, p₂) ← eat_word integer p₁
  (ts, p₃) ← eat_word integer p₂
  p₄ ← eat semicolon p₃
  ok (node_recover nid ts, p₄)

-- The loop that passes over an event without a parser.
unfoldable pub skip_event : ℕ → Parser → Outcome Parser
skip_event zero p = out_of_fuel
skip_event (suc fuel) p =
    ite (Tok-discrete p.tok semicolon) (eat semicolon p) (do p₁ ← eat p.tok p; skip_event fuel p₁)

-- `next_event`, with the table of event parsers; `none` is the end of the file.
unfoldable pub next_event :
    (Text → Option (Parser → Outcome (WorkloadEvent × Parser)))
    → ℕ
    → Parser
    → Outcome (Option WorkloadEvent × Parser)
unfolding skip_event
next_event parsers zero p = out_of_fuel
next_event parsers (suc fuel) p = elim (p.tok) [
  | end ↦ ok (none, p)
  | id ↦ elim (parsers p.val) [
    | some parse_event ↦ (do (e, p₁) ← parse_event p; ok (some e, p₁))
    | none ↦ (do p₁ ← skip_event (suc (enough p)) p; next_event parsers fuel p₁)
  ]
  | _ ↦ parse_exception p.val
]
