-- ===== src/Workload/Progress.antt =====
-- The loops of the event parsers (SetPredicateParser.cc and the others) and of
-- `WorkloadParser::next_event`.
use mathlib.Core.Logic.{ite}
use ccnpl_sim.Prelude.{
  ℕ, zero, suc, ◌<◌, ◌≤◌, ◌≡◌, ◌≢◌, ◌∙◌, Bool-cases, Option-cases, inl, inr, [], ◌++◌, text_eq,
  codes, length, arith,
}
use ccnpl_sim.Workload.Lexer.{
  Tok, end, semicolon, comma, sim_length, time_unit, node, link, amp, pipe, double, integer, bool,
  string, op, id, operator_of, classify,
}
use ccnpl_sim.Workload.Stream.{
  Parser, Outcome, ok, parse_exception, out_of_fuel, ◌>>=◌, read_word, skip_line, advance, enough,
  Tok-discrete, eat, eat_word, eat_string, eat_bool, eat_op,
}
use ccnpl_sim.Workload.Words.{read_word-length, skip_line-length}
use ccnpl_sim.Workload.Events.{
  eat_by, eat_value, constraint_list, filter_list, attribute_list, eat_predicate, eat_message,
}

-- What is left to read: nothing at the end, and otherwise the word that was read and the bytes behind it.
abbrev pub left : Parser → ℕ
left p = elim (p.tok) [ end ↦ 0 | _ ↦ suc (length p.rest) ]

-- The outcome is a value of which something holds, or an exception.
abbrev pub Ends : {A : Type 0} → (A → Type 0) → Outcome A → Type 0
Ends Q (ok a) = Q a
Ends Q (parse_exception e) = Unit
Ends Q out_of_fuel = ⊥

pub bind-Ends :
    {A B : Type 0} (Q : A → Type 0) (R : B → Type 0) (o : Outcome A) (f : A → Outcome B)
    → Ends Q o
    → ((a : A) → Q a → Ends R (f a))
    → Ends R (o >>= f)
bind-Ends Q R (ok a) f q next = next a q
bind-Ends Q R (parse_exception e) f q next = tt
bind-Ends Q R out_of_fuel f q next = absurd q

weaken-Ends :
    {A : Type 0} (Q R : A → Type 0) (o : Outcome A) → ((a : A) → Q a → R a) → Ends Q o → Ends R o
weaken-Ends Q R (ok a) more q = more a q
weaken-Ends Q R (parse_exception e) more q = tt
weaken-Ends Q R out_of_fuel more q = q

left_le : (p : Parser) → left p ≤ suc (length p.rest)
left_le p = ground arith

advance-Ends :
    (fuel : ℕ) (p : Parser)
    → length p.rest < fuel
    → Ends (λ p'. left p' < suc (length p.rest)) (advance fuel p)
unfolding advance
advance-Ends zero p h = absurd (omega (arith, h))
advance-Ends (suc fuel) p h = elim (Option-cases (read_word p.rest)) [
  | inl over ↦ rw (advance, over) (omega arith)
  | inr ((word, rest), e) ↦
      let less = read_word-length p.rest word rest e in
      let q : Parser = record p { rest = skip_line rest; val = word } in
      elim (Bool-cases (text_eq word (codes "#"))) [
        | inl comment ↦
            rw (advance, e, comment)
              (weaken-Ends (λ p'. left p' < suc (length q.rest))
                (λ p'. left p' < suc (length p.rest)) (advance fuel q)
                (λ p' l. omega (arith, l, less, skip_line-length rest))
                (advance-Ends fuel q (omega (arith, h, less, skip_line-length rest))))
        | inr other ↦ elim (Option-cases (classify word)) [
          | inl bad ↦ rw (advance, e, other, bad) tt
          | inr (k, good) ↦
              rw (advance, e, other, good)
                (omega (arith, less, left_le (record { rest = rest; val = word; tok = k })))
        ]
      ]
]

left_token : (p : Parser) → p.tok ≢ end → left p ≡ suc (length p.rest)
left_token p ne = ground (arith, ne)

pub eat-Ends : (t : Tok) (p : Parser) → t ≢ end → Ends (λ p'. left p' < left p) (eat t p)
unfolding eat
eat-Ends t p ne =
    elim (Tok-discrete t p.tok)
      as (λ d.
        Ends (λ p'. left p' < left p)
          (ite d (advance (enough p) p) (parse_exception (codes "cannot eat token: " ++ p.val)))) [
            | yes e ↦
                weaken-Ends (λ p'. left p' < suc (length p.rest)) (λ p'. left p' < left p)
                  (advance (enough p) p) (λ p' l. omega (arith, l, left_token p (λ q. ne (e ∙ q))))
                  (advance-Ends (enough p) p (omega arith))
            | no _ ↦ tt
          ]

-- Less is left behind the second component.
abbrev pub Shorter : {A : Type 0} → Parser → A × Parser → Type 0
Shorter p (a, p') = left p' < left p

pub eat_word-Ends : (t : Tok) (p : Parser) → t ≢ end → Ends (Shorter p) (eat_word t p)
unfolding eat_word
eat_word-Ends t p ne =
    bind-Ends (λ p'. left p' < left p) (Shorter p) (eat t p) (λ p'. ok (p.val, p'))
      (eat-Ends t p ne) (λ p' l. l)

eat_op-Ends : (p : Parser) → Ends (Shorter p) (eat_op p)
unfolding eat_op
eat_op-Ends p = elim (Option-cases (operator_of p.val)) [
  | inl bad ↦ rw (eat_op, bad) tt
  | inr (o, good) ↦
      rw (eat_op, good)
        (bind-Ends (λ p'. left p' < left p) (Shorter p) (eat op p) (λ p'. ok (o, p'))
          (eat-Ends op p (λ e. ground (arith, e))) (λ p' l. l))
]

eat_string-Ends : (p : Parser) → Ends (Shorter p) (eat_string p)
unfolding eat_string
eat_string-Ends p =
    bind-Ends (λ p'. left p' < left p) (Shorter p) (eat string p) _
      (eat-Ends string p (λ e. ground (arith, e))) (λ p' l. l)

eat_bool-Ends : (p : Parser) → Ends (Shorter p) (eat_bool p)
unfolding eat_bool
eat_bool-Ends p = elim (Bool-cases (text_eq p.val (codes "true"))) [
  | inl yes' ↦
      rw (eat_bool, yes')
        (bind-Ends (λ p'. left p' < left p) (Shorter p) (eat bool p) _
          (eat-Ends bool p (λ e. ground (arith, e))) (λ p' l. l))
  | inr no' ↦ elim (Bool-cases (text_eq p.val (codes "false"))) [
    | inl yes'' ↦
        rw (eat_bool, no', yes'')
          (bind-Ends (λ p'. left p' < left p) (Shorter p) (eat bool p) _
            (eat-Ends bool p (λ e. ground (arith, e))) (λ p' l. l))
    | inr no'' ↦ rw (eat_bool, no', no'') tt
  ]
]

eat_by-Ends : (k : Tok) (p : Parser) → Ends (Shorter p) (eat_by k p)
unfolding eat_by
eat_by-Ends bool p =
    bind-Ends (Shorter p) (Shorter p) (eat_bool p) _ (eat_bool-Ends p) (λ (v, p') l. l)
eat_by-Ends double p =
    bind-Ends (Shorter p) (Shorter p) (eat_word double p) _
      (eat_word-Ends double p (λ e. ground (arith, e))) (λ (v, p') l. l)
eat_by-Ends integer p =
    bind-Ends (Shorter p) (Shorter p) (eat_word integer p) _
      (eat_word-Ends integer p (λ e. ground (arith, e))) (λ (v, p') l. l)
eat_by-Ends string p =
    bind-Ends (Shorter p) (Shorter p) (eat_string p) _ (eat_string-Ends p) (λ (v, p') l. l)
eat_by-Ends end p = tt
eat_by-Ends semicolon p = tt
eat_by-Ends comma p = tt
eat_by-Ends amp p = tt
eat_by-Ends pipe p = tt
eat_by-Ends sim_length p = tt
eat_by-Ends time_unit p = tt
eat_by-Ends node p = tt
eat_by-Ends link p = tt
eat_by-Ends op p = tt
eat_by-Ends id p = tt

ite-Ends :
    {X : Type 0} {A : Type 0} (Q : A → Type 0) (d : Dec X) (o o' : Outcome A)
    → Ends Q o
    → Ends Q o'
    → Ends Q (ite d o o')
ite-Ends Q (yes _) o o' q q' = q
ite-Ends Q (no _) o o' q q' = q'

-- No more is left behind the second component.
abbrev pub NoLonger : {A : Type 0} → Parser → A × Parser → Type 0
NoLonger p (a, p') = left p' ≤ left p

id-ne-end : Tok.id ≢ end
id-ne-end e = ground (arith, e)

attribute_list-Ends :
    (fuel : ℕ) (p : Parser) → left p < fuel → Ends (NoLonger p) (attribute_list fuel p)
unfolding attribute_list
attribute_list-Ends zero p h = absurd (omega (arith, h))
attribute_list-Ends (suc fuel) p h =
    ite-Ends (NoLonger p) (Tok-discrete p.tok semicolon) (ok ([], p)) _ (omega arith) (
      bind-Ends (Shorter p) (NoLonger p) (eat_word id p) _ (eat_word-Ends id p id-ne-end)
        (λ (name, p₁) l₁.
          bind-Ends (Shorter p₁) (NoLonger p) (eat_op p₁) _ (eat_op-Ends p₁) (λ (o, p₂) l₂.
            bind-Ends (Shorter p₂) (NoLonger p) (eat_value p₂) _ (eat_by-Ends p₂.tok p₂)
              (λ (v, p₃) l₃.
                bind-Ends (NoLonger p₃) (NoLonger p) (attribute_list fuel p₃) _
                  (attribute_list-Ends fuel p₃ (omega (arith, h, l₁, l₂, l₃)))
                  (λ (vs, p₄) l₄. omega (arith, l₁, l₂, l₃, l₄))))))

constraint_list-Ends :
    (fuel : ℕ) (p : Parser) → left p < fuel → Ends (Shorter p) (constraint_list fuel p)
unfolding constraint_list
constraint_list-Ends zero p h = absurd (omega (arith, h))
constraint_list-Ends (suc fuel) p h =
    bind-Ends (Shorter p) (Shorter p) (eat_word id p) _ (eat_word-Ends id p id-ne-end)
      (λ (name, p₁) l₁.
        bind-Ends (Shorter p₁) (Shorter p) (eat_op p₁) _ (eat_op-Ends p₁) (λ (o, p₂) l₂.
          bind-Ends (Shorter p₂) (Shorter p) (eat_value p₂) _ (eat_by-Ends p₂.tok p₂) (λ (v, p₃) l₃.
            ite-Ends (Shorter p) (Tok-discrete p₃.tok amp) _ _
              (bind-Ends (λ p₄. left p₄ < left p₃) (Shorter p) (eat amp p₃) _
                (eat-Ends amp p₃ (λ e. ground (arith, e)))
                (λ p₄ l₄.
                  bind-Ends (Shorter p₄) (Shorter p) (constraint_list fuel p₄) _
                    (constraint_list-Ends fuel p₄ (omega (arith, h, l₁, l₂, l₃, l₄)))
                    (λ (cs, p₅) l₅. omega (arith, l₁, l₂, l₃, l₄, l₅))))
              (omega (arith, l₁, l₂, l₃)))))

filter_list-Ends : (fuel : ℕ) (p : Parser) → left p < fuel → Ends (NoLonger p) (filter_list fuel p)
unfolding filter_list
filter_list-Ends zero p h = absurd (omega (arith, h))
filter_list-Ends (suc fuel) p h =
    ite-Ends (NoLonger p) (Tok-discrete p.tok semicolon) (ok ([], p)) _ (omega arith) (
      bind-Ends (λ p₁. left p₁ ≤ left p) (NoLonger p)
        (ite (Tok-discrete p.tok pipe) (eat pipe p) (ok p)) _
        (ite-Ends (λ p₁. left p₁ ≤ left p) (Tok-discrete p.tok pipe) (eat pipe p) (ok p)
          (weaken-Ends (λ p₁. left p₁ < left p) (λ p₁. left p₁ ≤ left p) (eat pipe p)
            (λ p₁ l. omega (arith, l)) (eat-Ends pipe p (λ e. ground (arith, e))))
          (omega arith))
        (λ p₁ l₁.
          bind-Ends (Shorter p₁) (NoLonger p) (constraint_list (suc (enough p₁)) p₁) _
            (constraint_list-Ends (suc (enough p₁)) p₁ (omega (arith, left_le p₁)))
            (λ (f, p₂) l₂.
              bind-Ends (NoLonger p₂) (NoLonger p) (filter_list fuel p₂) _
                (filter_list-Ends fuel p₂ (omega (arith, h, l₁, l₂)))
                (λ (fs, p₃) l₃. omega (arith, l₁, l₂, l₃)))))

pub eat_predicate-Ends : (p : Parser) → Ends (Shorter p) (eat_predicate p)
unfolding eat_predicate
eat_predicate-Ends p =
    bind-Ends (NoLonger p) (Shorter p) (filter_list (suc (enough p)) p) _
      (filter_list-Ends (suc (enough p)) p (omega (arith, left_le p)))
      (λ (fs, p₁) l₁.
        bind-Ends (λ p₂. left p₂ < left p₁) (Shorter p) (eat semicolon p₁) _
          (eat-Ends semicolon p₁ (λ e. ground (arith, e))) (λ p₂ l₂. omega (arith, l₁, l₂)))

pub eat_message-Ends : (p : Parser) → Ends (Shorter p) (eat_message p)
unfolding eat_message
eat_message-Ends p =
    bind-Ends (NoLonger p) (Shorter p) (attribute_list (suc (enough p)) p) _
      (attribute_list-Ends (suc (enough p)) p (omega (arith, left_le p)))
      (λ (vs, p₁) l₁.
        bind-Ends (λ p₂. left p₂ < left p₁) (Shorter p) (eat semicolon p₁) _
          (eat-Ends semicolon p₁ (λ e. ground (arith, e))) (λ p₂ l₂. omega (arith, l₁, l₂)))
