-- ===== src/Routing/Covers.antt =====
-- What the route table of `CBCBNode` (CBCBNode.cc) covers.
use ccnpl_sim.Prelude.{
  ℕ, ◌≡◌, ◌≢◌, ◌⊎◌, refl, if◌then◌else◌, not, true, false, Bool-cases, inl, inr, ◌&&◌, [], Option,
  arith,
}
use ccnpl_sim.Spt.Layer.{get_children}
use ccnpl_sim.Routing.Table.{Predicates, Router, is_none, update_route_table}
use ccnpl_sim.Routing.Protocol.{
  Host, signal_all, propagate_ra, process_ra, issue_predicate, set_predicate,
}

-- A predicate covers what is added to it, and what it covered before.
pub record IsLawful {P : Type 0} (ops : Predicates P) : Type 0 where
  pub adds : (p q : P) → ops.covers (ops.add p q) q ≡ true
  pub keeps : (p q r : P) → ops.covers p r ≡ true → ops.covers (ops.add p q) r ≡ true

-- Every entry of the one table covers what it does in the other.
abbrev pub Grows : {P : Type 0} → Predicates P → Router P → Router P → Type 0
Grows {P} ops r r' =
    (i : ℕ) (q : P) → ops.covers (r.route_table i) q ≡ true → ops.covers (r'.route_table i) q ≡ true

module _ {P : Type 0} (ops : Predicates P) (laws : IsLawful ops) (host : Host) where
  -- After an RA packet the entry of its interface covers the predicate, no entry covers less than before,
  -- those of other interfaces are as they were, and a table that changed is marked dirty.
  pub process_ra-covers :
      (ifid : ℕ) (issuer : ℕ) (dest : Option ℕ) (number : ℕ) (pred : P) (r : Router P)
      → let r' = (process_ra ops host ifid issuer dest number pred r).0 in
        (ops.covers (r'.route_table ifid) pred ≡ true)
        × Grows ops r r'
        × ((i : ℕ) → i ≢ ifid → r'.route_table i ≡ r.route_table i)
        × ((r'.route_table_dirty ≡ true) ⊎ (r' ≡ r))
  unfolding process_ra update_route_table
  process_ra-covers ifid issuer dest number pred r =
      elim (Bool-cases (ops.covers (r.route_table ifid) pred && is_none dest)) [
        | inl covered ↦
            rw (update_route_table, covered)
              (ground (arith, covered), λ i q c. c, λ i ne. refl, inr refl)
        | inr new ↦
            rw (update_route_table, new)
              (
                ground (arith, laws.adds (r.route_table ifid) pred),
                λ i q c. ground (arith, c, laws.keeps (r.route_table ifid) pred q),
                λ i ne. ground (arith, ne),
                inl refl,
              )
      ]

  -- Where predicates are refreshed: the entry of the node itself covers a predicate that is set, and no
  -- entry covers less than before. If it did not cover it, the whole entry goes to the children in the
  -- tree of the node at once where the policy is immediate, and is to be issued otherwise.
  pub set_predicate-covers :
      (p : P) (r : Router P)
      → host.refresh ≡ true
      → let (r', sent) = set_predicate ops host p r in
        (ops.covers (r'.route_table 0) p ≡ true)
        × Grows ops r r'
        × ((ops.covers (r.route_table 0) p ≡ false)
            → (r'.issue_pending ≡ not host.immediate)
              × (sent ≡ (
                  if host.immediate
                  then signal_all ops host
                      (get_children host.paths host.pid host.pid)
                      host.pid
                      1
                      (r'.route_table 0)
                  else [])))
  unfolding set_predicate issue_predicate propagate_ra
  set_predicate-covers p r on = elim (Bool-cases (ops.covers (r.route_table 0) p)) [
    | inl covered ↦
        rw (on, covered)
          (covered, (λ i q c. c), λ no_cover. absurd (ground (arith, covered, no_cover)))
    | inr new ↦ elim (Bool-cases host.immediate) [
      | inl now ↦
          rw (on, new, now)
            (
              laws.adds (r.route_table 0) p,
              (λ i q c. ground (arith, c, laws.keeps (r.route_table 0) p q)),
              λ _. (refl, refl),
            )
      | inr later ↦
          rw (on, new, later)
            (
              laws.adds (r.route_table 0) p,
              (λ i q c. ground (arith, c, laws.keeps (r.route_table 0) p q)),
              λ _. (refl, refl),
            )
    ]
  ]
