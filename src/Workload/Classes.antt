-- ===== src/Workload/Classes.antt =====
-- The classes of words in WorkloadParser.cc, against descriptions of them without an index.
use ccnpl_sim.Prelude.{
  ℕ, suc, ◌+◌, ◌≡◌, refl, ◌==◌, if◌then◌else◌, Bool, true, false, ◌&&◌, ◌||◌, [], ◌∷◌, ◌++◌, Text,
  ap, take, length, length-append, ◌-◌, none, some, arith,
}
use ccnpl_sim.Workload.Lexer.{
  is_digit, is_alpha, is_alnum, double_from, is_double, integer_from, is_integer, id_from, is_id,
  is_string, last_is, unquote, is_op, operator_of,
}

abbrev pub all : (ℕ → Bool) → Text → Bool
all p [] = true
all p (c ∷ cs) = p c && all p cs

abbrev pub dots : Text → ℕ
dots [] = 0
dots (c ∷ cs) = (if c == b'.' then 1 else 0) + dots cs

-- The text behind a leading minus sign.
abbrev pub unsigned : Text → Text
unsigned [] = []
unsigned (c ∷ cs) = if c == b'-' then cs else c ∷ cs

integer_later : (i : ℕ) (cs : Text) → integer_from (suc i) cs ≡ all is_digit cs
unfolding integer_from
integer_later i [] = refl
integer_later i (c ∷ cs) = ground (arith, integer_later (suc i) cs)

-- An integer is a text of digits, perhaps behind a minus sign.
pub is_integer-digits : (val : Text) → is_integer val ≡ all is_digit (unsigned val)
unfolding is_integer is_digit
is_integer-digits [] = refl
is_integer-digits (c ∷ cs) = ground (arith, integer_later 0 cs)

double_later :
    (i : ℕ) (found : Bool) (cs : Text)
    → double_from (suc i) found cs
      ≡ all (λ c. is_digit c || (c == b'.')) cs && ((if found then 1 else 0) + dots cs == 1)
unfolding double_from is_digit
double_later i found [] = ground arith
double_later i found (c ∷ cs) = ground (arith, double_later (suc i) (found || (c == b'.')) cs)

-- A double is a text of digits and just one point, perhaps behind a minus sign.
pub is_double-digits :
    (val : Text)
    → is_double val
      ≡ all (λ c. is_digit c || (c == b'.')) (unsigned val) && (dots (unsigned val) == 1)
unfolding is_double is_digit
is_double-digits [] = refl
is_double-digits (c ∷ cs) = ground (arith, double_later 0 false cs, double_later 0 true cs)

id_later : (i : ℕ) (cs : Text) → id_from (suc i) cs ≡ all (λ c. is_alnum c || (c == b'_')) cs
unfolding id_from
id_later i [] = refl
id_later i (c ∷ cs) = ground (arith, id_later (suc i) cs)

-- An id is a letter or an underscore, and behind it letters, digits and underscores.
pub is_id-word :
    (c : ℕ) (cs : Text)
    → is_id (c ∷ cs) ≡ (is_alpha c || (c == b'_')) && all (λ c. is_alnum c || (c == b'_')) cs
unfolding is_id
is_id-word c cs = ground (arith, id_later 0 cs)

digits_no_dots : (cs : Text) → all is_digit cs ≡ true → dots cs ≡ 0
unfolding is_digit
digits_no_dots [] h = refl
digits_no_dots (c ∷ cs) h = ground (arith, digits_no_dots cs)

-- No word is both an integer and a double, so the order of the two tests does not matter.
pub is_integer-is_double : (val : Text) → is_integer val && is_double val ≡ false
is_integer-is_double val =
    ground (arith, is_integer-digits val, is_double-digits val, digits_no_dots (unsigned val))

last_is-append : (q c : ℕ) (s : Text) → last_is q (c ∷ s ++ q ∷ []) ≡ true
unfolding last_is
last_is-append q c [] = ground arith
last_is-append q c (d ∷ s) = last_is-append q d s

take-append : (s : Text) (q : ℕ) → take (length (s ++ q ∷ []) - 1) (s ++ q ∷ []) ≡ s
take-append s q = rw (length-append s (q ∷ [])) (exact s)
  where
    exact : (s : Text) → take (length s + 1 - 1) (s ++ q ∷ []) ≡ s
    exact s = rw (cancel s) (front s)
      where
        cancel : (s : Text) → length s + 1 - 1 ≡ length s
        cancel s = omega arith

        front : (s : Text) → take (length s) (s ++ q ∷ []) ≡ s
        front [] = refl
        front (c ∷ s) = ap (◌∷◌ c) (front s)

-- A text put in quotes is a string, and its value is the text.
pub unquote-quoted :
    (s : Text) → (is_string (b'"' ∷ s ++ b'"' ∷ []) ≡ true) × (unquote (b'"' ∷ s ++ b'"' ∷ []) ≡ s)
unfolding is_string unquote
unquote-quoted s = (ground (arith, last_is-append b'"' b'"' s), take-append s b'"')

-- `isop` accepts just the operators that `eat_op` knows.
pub is_op-operator_of :
    (val : Text) → is_op val ≡ elim (operator_of val) [ none ↦ false | some _ ↦ true ]
unfolding is_op operator_of
is_op-operator_of val = ground arith
