-- ===== src/Pit/Slots.antt =====
-- The nodes of a container whose iterators stay valid (`unordered_multimap`, `multimap`). A node has
-- an address, which is what an iterator to it holds.
use ccnpl_sim.Prelude.{
  ℕ, zero, suc, ◌≡◌, refl, ◌==◌, if◌then◌else◌, List, [], ◌∷◌, Option, none, some, arith,
}

pub record Slot {ℓ} (A : Type ℓ) : Type ℓ where
  pub address : ℕ
  pub value : A

module _ {ℓ} {A : Type ℓ} where
  -- The node that an iterator points to.
  unfoldable pub lookup : ℕ → List (Slot A) → Option (Slot A)
  lookup a [] = none
  lookup a (n ∷ ns) = if n.address == a then some n else lookup a ns

  unfoldable pub remove : ℕ → List (Slot A) → List (Slot A)
  remove a [] = []
  remove a (n ∷ ns) = if n.address == a then ns else n ∷ remove a ns

  -- `erase` at an iterator; at one that points nowhere it is a fault.
  unfoldable pub erase : ℕ → List (Slot A) → Option (List (Slot A))
  erase a l = elim (lookup a l) [ none ↦ none | some _ ↦ some (remove a l) ]

  -- A new node in front of the one at a position.
  unfoldable pub insert_at : ℕ → Slot A → List (Slot A) → List (Slot A)
  insert_at zero n l = n ∷ l
  insert_at (suc k) n [] = n ∷ []
  insert_at (suc k) n (m ∷ ms) = m ∷ insert_at k n ms

  abbrev pub Distinct : List (Slot A) → Type ℓ
  Distinct [] = Unit {ℓ}
  Distinct (n ∷ ns) = (lookup n.address ns ≡ none) × Distinct ns

  pub lookup_address :
      (a : ℕ) (l : List (Slot A)) (n : Slot A) → lookup a l ≡ some n → n.address ≡ a
  unfolding lookup
  lookup_address a [] n e = cc
  lookup_address a (m ∷ ms) n e = ground (arith, lookup_address a ms n)

  pub lookup-remove :
      (a b : ℕ) (l : List (Slot A))
      → Distinct l
      → lookup b (remove a l) ≡ (if b == a then none else lookup b l)
  unfolding lookup remove
  lookup-remove a b [] d = ground arith
  lookup-remove a b (n ∷ ns) d = ground (arith, lookup-remove a b ns d.1, d.0)

  pub Distinct-remove : (a : ℕ) (l : List (Slot A)) → Distinct l → Distinct (remove a l)
  unfolding remove
  Distinct-remove a [] d = tt
  Distinct-remove a (n ∷ ns) d =
      ground (arith, Distinct-remove a ns d.1, lookup-remove a n.address ns d.1)

  pub lookup-insert_at :
      (k : ℕ) (n : Slot A) (b : ℕ) (l : List (Slot A))
      → lookup n.address l ≡ none
      → lookup b (insert_at k n l) ≡ (if b == n.address then some n else lookup b l)
  unfolding lookup insert_at
  lookup-insert_at zero n b l h = ground arith
  lookup-insert_at (suc k) n b [] h = ground arith
  lookup-insert_at (suc k) n b (m ∷ ms) h = ground (arith, lookup-insert_at k n b ms)

  pub Distinct-insert_at :
      (k : ℕ) (n : Slot A) (l : List (Slot A))
      → lookup n.address l ≡ none
      → Distinct l
      → Distinct (insert_at k n l)
  unfolding lookup insert_at
  Distinct-insert_at zero n l h d = (h, d)
  Distinct-insert_at (suc k) n [] h d = (refl, tt)
  Distinct-insert_at (suc k) n (m ∷ ms) h d =
      let h' : lookup n.address ms ≡ none = ground arith in
      (ground (arith, lookup-insert_at k n m.address ms h', d.0), Distinct-insert_at k n ms h' d.1)
