-- ===== src/Cache/Bitmap.antt =====
-- The bitmap of a content, a vector of addresses (`none` for the end of the list), after a write.
use ccnpl_sim.Prelude.{
  ℕ, zero, suc, ◌<◌, ◌≡◌, ◌≢◌, refl, ◌⊎◌, inl, inr, List, [], ◌∷◌, Option, none, some, get_elem?,
  set, length, replicate, arith,
}

pub get_elem?-set-none :
    (bm : List (Option ℕ)) (j i b : ℕ)
    → get_elem? (set bm j none) i ≡ some (some b)
    → (j ≢ i) × (get_elem? bm i ≡ some (some b))
get_elem?-set-none [] j i b e = cc
get_elem?-set-none (x ∷ bm) zero zero b e = cc
get_elem?-set-none (x ∷ bm) zero (suc i) b e = (omega arith, e)
get_elem?-set-none (x ∷ bm) (suc j) zero b e = (omega arith, e)
get_elem?-set-none (x ∷ bm) (suc j) (suc i) b e =
    let (ne, old) = get_elem?-set-none bm j i b e in (omega arith, old)

pub get_elem?-set-some :
    (bm : List (Option ℕ)) (j a i b : ℕ)
    → get_elem? (set bm j (some a)) i ≡ some (some b)
    → ((j ≡ i) × (a ≡ b)) ⊎ ((j ≢ i) × (get_elem? bm i ≡ some (some b)))
get_elem?-set-some [] j a i b e = cc
get_elem?-set-some (x ∷ bm) zero a zero b e = inl (refl, cc)
get_elem?-set-some (x ∷ bm) zero a (suc i) b e = inr (omega arith, e)
get_elem?-set-some (x ∷ bm) (suc j) a zero b e = inr (omega arith, e)
get_elem?-set-some (x ∷ bm) (suc j) a (suc i) b e = elim (get_elem?-set-some bm j a i b e) [
  | inl (here, same) ↦ inl (omega arith, same)
  | inr (ne, old) ↦ inr (omega arith, old)
]

pub get_elem?-set_at :
    (bm : List (Option ℕ)) (j : ℕ) (v w : Option ℕ)
    → get_elem? bm j ≡ some w
    → get_elem? (set bm j v) j ≡ some v
get_elem?-set_at [] j v w e = cc
get_elem?-set_at (x ∷ bm) zero v w e = refl
get_elem?-set_at (x ∷ bm) (suc j) v w e = get_elem?-set_at bm j v w e

abbrev pub no_address : Option ℕ
no_address = none

pub get_elem?-replicate_none : (n i b : ℕ) → get_elem? (replicate n no_address) i ≢ some (some b)
get_elem?-replicate_none zero i b e = cc
get_elem?-replicate_none (suc n) zero b e = cc
get_elem?-replicate_none (suc n) (suc i) b e = get_elem?-replicate_none n i b e

pub get_elem?-replicate : (n i : ℕ) → i < n → get_elem? (replicate n no_address) i ≡ some none
get_elem?-replicate zero i h = absurd (omega arith)
get_elem?-replicate (suc n) zero h = refl
get_elem?-replicate (suc n) (suc i) h = get_elem?-replicate n i (omega arith)

pub set-set : (bm : List (Option ℕ)) (j : ℕ) (v w : Option ℕ) → set (set bm j v) j w ≡ set bm j w
set-set [] j v w = refl
set-set (x ∷ bm) zero v w = refl
set-set (x ∷ bm) (suc j) v w = rw (set-set bm j v w)

-- A place within a bitmap is free or holds an address.
pub get_elem?-cases :
    (bm : List (Option ℕ)) (i : ℕ)
    → i < length bm
    → (get_elem? bm i ≡ some none) ⊎ ((a : ℕ) × (get_elem? bm i ≡ some (some a)))
get_elem?-cases [] i h = absurd (omega arith)
get_elem?-cases (none ∷ bm) zero h = inl refl
get_elem?-cases (some a ∷ bm) zero h = inr (a, refl)
get_elem?-cases (x ∷ bm) (suc i) h = get_elem?-cases bm i (omega arith)
