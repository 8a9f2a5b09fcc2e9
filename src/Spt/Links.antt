-- ===== src/Spt/Links.antt =====
-- The reads of the links of SPTsBroadcastLayer.cc after a write.
use ccnpl_sim.Prelude.{
  ℕ, ◌≡◌, refl, ◌==◌, ◌&&◌, if◌then◌else◌, Bool-cases, Option-cases, inl, inr, Option, some, arith,
}
use mathlib.Core.Option
use ccnpl_sim.Mst.Layer.{insert}
use ccnpl_sim.Spt.Heap.{write}
use ccnpl_sim.Spt.Layer.{
  BLink, Paths, link_at, update, no_link, set_link, add_child, get_parent, get_hop_count,
}

link_at-update :
    (s : ℕ → Option (ℕ → Option BLink)) (r v : ℕ) (f : BLink → BLink) (r' v' : ℕ)
    → link_at (update s r v f) r' v' ≡ (
        if r' == r && v' == v
        then some (f (Option.get_or (link_at s r v) no_link))
        else link_at s r' v')
unfolding link_at update
link_at-update s r v f r' v' = elim (Bool-cases (r' == r)) [
  | inr other ↦ rw (link_at, update, write, other) refl
  | inl same ↦ elim (Bool-cases (v' == v)) [
    | inl here ↦ rw (link_at, update, write, same, here) refl
    | inr away ↦
        rw (link_at, update, write, same, away)
          (let at_r : r' ≡ r = ground (arith, same) in
            rw at_r (elim (Option-cases (s r)) [
              | inl new ↦ rw (link_at, new) refl
              | inr (b, at) ↦ rw (link_at, at) refl
            ]))
  ]
]

module _ (s : Paths) (r v r' v' : ℕ) where
  pub get_parent-set_link :
      (p n : ℕ)
      → get_parent (set_link s r v p n) r' v'
        ≡ (if r' == r && v' == v then some p else get_parent s r' v')
  unfolding get_parent set_link
  get_parent-set_link p n =
      ground
        (arith, link_at-update s r v (λ l. record l { prev = some p; hop_count = some n }) r' v')

  pub get_hop_count-set_link :
      (p n : ℕ)
      → get_hop_count (set_link s r v p n) v' r'
        ≡ (if r' == r && v' == v then some n else get_hop_count s v' r')
  unfolding get_hop_count set_link
  get_hop_count-set_link p n =
      ground
        (arith, link_at-update s r v (λ l. record l { prev = some p; hop_count = some n }) r' v')

  pub get_parent-add_child : (c : ℕ) → get_parent (add_child s r v c) r' v' ≡ get_parent s r' v'
  unfolding get_parent add_child
  get_parent-add_child c =
      ground (arith, link_at-update s r v (λ l. record l { next = insert c l.next }) r' v')

  pub get_hop_count-add_child :
      (c : ℕ) → get_hop_count (add_child s r v c) v' r' ≡ get_hop_count s v' r'
  unfolding get_hop_count add_child
  get_hop_count-add_child c =
      ground (arith, link_at-update s r v (λ l. record l { next = insert c l.next }) r' v')
