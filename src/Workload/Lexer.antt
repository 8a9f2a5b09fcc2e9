-- ===== src/Workload/Lexer.antt =====
-- The tokens of WorkloadParser.cc. A file is its byte values.
use ccnpl_sim.Prelude.{
  ℕ, suc, ◌-◌, ◌==◌, leb, not, if◌then◌else◌, Bool, true, false, ◌&&◌, ◌||◌, [], ◌∷◌, Option, none,
  some, Text, text_eq, codes, take, length,
}

pub data Tok : Type 0 where
  end semicolon comma amp pipe sim_length time_unit node link : Tok
  bool double integer string op id : Tok

-- `isdigit`, `isalpha`, `isalnum` and `isspace` in the C locale.
unfoldable pub is_digit : ℕ → Bool
is_digit c = leb b'0' c && leb c b'9'

unfoldable pub is_alpha : ℕ → Bool
is_alpha c = (leb b'a' c && leb c b'z') || (leb b'A' c && leb c b'Z')

unfoldable pub is_alnum : ℕ → Bool
unfolding is_digit is_alpha
is_alnum c = is_alpha c || is_digit c

unfoldable pub is_space : ℕ → Bool
is_space c = (c == 32) || (leb 9 c && leb c 13)

-- `isbool`.
unfoldable pub is_bool : Text → Bool
is_bool val = text_eq val (codes "true") || text_eq val (codes "false")

-- The loop of `isdouble` from the place `i` on.
unfoldable pub double_from : ℕ → Bool → Text → Bool
double_from i found_dot [] = found_dot
double_from i found_dot (c ∷ cs) =
    let rest = double_from (suc i) (found_dot || (c == b'.')) cs in
    if is_digit c || ((not found_dot && (c == b'.')) || ((i == 0) && (c == b'-')))
    then rest
    else false

unfoldable pub is_double : Text → Bool
unfolding double_from
is_double val = double_from 0 false val

-- The loop of `isinteger`.
unfoldable pub integer_from : ℕ → Text → Bool
integer_from i [] = true
integer_from i (c ∷ cs) =
    let rest = integer_from (suc i) cs in
    if not (is_digit c || ((i == 0) && (c == b'-'))) then false else rest

unfoldable pub is_integer : Text → Bool
unfolding integer_from
is_integer val = integer_from 0 val

-- The loop of `isid`.
unfoldable pub id_from : ℕ → Text → Bool
id_from i [] = true
id_from i (c ∷ cs) =
    let rest = id_from (suc i) cs in
    if ((i == 0) && (not (is_alpha c) && not (c == b'_')))
      || (not (i == 0) && (not (is_alnum c) && not (c == b'_')))
    then false
    else rest

unfoldable pub is_id : Text → Bool
unfolding id_from
is_id val = id_from 0 val

-- `isop`, and the operators that `eat_op` tells apart.
pub data Operator : Type 0 where
  eq_id ne_id lt_id gt_id pf_id sf_id ss_id : Operator

unfoldable pub operator_of : Text → Option Operator
operator_of val =
    if text_eq val (codes "=")
    then some eq_id
    else if text_eq val (codes "!=")
    then some ne_id
    else if text_eq val (codes "<")
    then some lt_id
    else if text_eq val (codes ">")
    then some gt_id
    else if text_eq val (codes "=*")
    then some pf_id
    else if text_eq val (codes "*=")
    then some sf_id
    else if text_eq val (codes "**")
    then some ss_id
    else none

unfoldable pub is_op : Text → Bool
is_op val =
    text_eq val (codes "=")
    || (text_eq val (codes "!=")
        || (text_eq val (codes "<")
            || (text_eq val (codes ">")
                || (text_eq val (codes "=*")
                    || (text_eq val (codes "*=") || text_eq val (codes "**"))))))

-- `isstring`: the first and the last byte are quotes.
unfoldable pub last_is : ℕ → Text → Bool
last_is q [] = false
last_is q (c ∷ []) = c == q
last_is q (c ∷ d ∷ cs) = last_is q (d ∷ cs)

unfoldable pub first_is : ℕ → Text → Bool
first_is q [] = false
first_is q (c ∷ cs) = c == q

unfoldable pub is_string : Text → Bool
unfolding first_is last_is
is_string val = first_is b'"' val && last_is b'"' val

-- `eat_string`'s value: the text between the quotes. An empty word, which no token is, stays empty.
unfoldable pub unquote : Text → Text
unquote [] = []
unquote (c ∷ cs) = take (length cs - 1) cs

-- The chain of tests in `advance`; `none` is the `parse_exception`.
unfoldable pub classify : Text → Option Tok
classify val =
    if text_eq val (codes ";")
    then some semicolon
    else if text_eq val (codes ",")
    then some comma
    else if text_eq val (codes "&")
    then some amp
    else if text_eq val (codes "|")
    then some pipe
    else if text_eq val (codes "sim_length")
    then some sim_length
    else if text_eq val (codes "time_unit")
    then some time_unit
    else if text_eq val (codes "node")
    then some node
    else if text_eq val (codes "link")
    then some link
    else if is_bool val
    then some bool
    else if is_double val
    then some double
    else if is_integer val
    then some integer
    else if is_string val
    then some string
    else if is_op val
    then some op
    else if is_id val
    then some id
    else none
