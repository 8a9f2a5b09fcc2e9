-- ===== src/Spt/Loop.antt =====
-- The loops of `computePaths` (SPTsBroadcastLayer.cc).
use ccnpl_sim.Prelude.{
  ℕ, zero, suc, ◌+◌, ◌≤◌, ◌<◌, ◌≡◌, refl, ◌==◌, Bool-cases, List, [], ◌∷◌, inl, inr, Option, some,
  subst, arith,
}
use mathlib.Core.List.{Memᴰ}
use mathlib.Core.List.Memᴰ
use mathlib.Core.List.Memᴰ.{head, tail}
use ccnpl_sim.Spt.Layer.{range, for_each}

pub range_mem : (from n i : ℕ) → Memᴰ i (range from n) → (from ≤ i) × (i < from + n)
range_mem from zero i m = elim m [ ]
range_mem from (suc n) i (head e) = ground (arith, e)
range_mem from (suc n) i (tail m) = ground (arith, range_mem (suc from) n i m)

pub mem_range : (from n i : ℕ) → from ≤ i → i < from + n → Memᴰ i (range from n)
mem_range from zero i low high = absurd (omega (arith, low, high))
mem_range from (suc n) i low high = elim (Bool-cases (i == from)) [
  | inl here ↦ head (ground (arith, here))
  | inr there ↦ tail (mem_range (suc from) n i (ground (arith, low, there)) (omega (arith, high)))
]

-- A body that keeps an invariant and what is good, and makes more good, does so for all its rounds.
pub for_each-all :
    {S K : Type 0} (body : ℕ → S → Option S) (Inv : S → Type 0) (Good : K → S → Type 0)
    (Turn : ℕ → Type 0) (Makes : ℕ → K → Type 0)
    → ((i : ℕ)
        → Turn i
        → (s : S) → Inv s
        → (s' : S) × (body i s ≡ some s')
          × Inv s'
          × ((k : K) → Makes i k → Good k s')
          × ((k : K) → Good k s → Good k s'))
    → (is : List ℕ) → ((i : ℕ) → Memᴰ i is → Turn i)
    → (s : S) → Inv s
    → (s' : S) × (for_each is body s ≡ some s')
      × Inv s'
      × ((i : ℕ) (k : K) → Memᴰ i is → Makes i k → Good k s')
      × ((k : K) → Good k s → Good k s')
unfolding for_each
for_each-all body Inv Good Turn Makes step [] turns s inv =
    (s, refl, inv, λ i k m. elim m [ ], λ k g. g)
for_each-all body Inv Good Turn Makes step (i ∷ is) turns s inv =
    let (s₁, e₁, inv₁, makes₁, keeps₁) = step i (turns i (head refl)) s inv in
    let (s₂, e₂, inv₂, makes₂, keeps₂) =
      for_each-all body Inv Good Turn Makes step is (λ j m. turns j (tail m)) s₁ inv₁ in
    (
      s₂,
      rw (e₁, for_each) e₂,
      inv₂,
      λ j k m made. elim (Memᴰ.cases_cons m) [
        | inl here ↦ keeps₂ k (makes₁ k (subst (λ x. Makes x k) here made))
        | inr there ↦ makes₂ j k there made
      ],
      λ k g. keeps₂ k (keeps₁ k g),
    )
