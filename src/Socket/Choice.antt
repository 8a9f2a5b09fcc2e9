-- ===== src/Socket/Choice.antt =====
-- `Socket::select_chunk` (Socket.cc): which chunk a download asks for.
use ccnpl_sim.Prelude.{
  ℕ, zero, suc, ◌%◌, ◌<◌, ◌≡◌, ◌≢◌, refl, ◌∙◌, ◌==◌, ltb, not, Bool, true, false, ◌&&◌, ◌||◌,
  Bool-cases, inl, inr, List, [], ◌∷◌, Option, none, some, get_elem?, length, arith,
}
use ccnpl_sim.Socket.Chunks.{Socket, ChunkInfo, erase_id, remove_notreq, select_loop, select_chunk}

abbrev pub has_id : ℕ → List ℕ → Bool
has_id a [] = false
has_id a (b ∷ bs) = (b == a) || has_id a bs

has_id-erase : (a b : ℕ) (l : List ℕ) → a ≢ b → has_id a (erase_id b l) ≡ has_id a l
unfolding erase_id
has_id-erase a b [] h = refl
has_id-erase a b (c ∷ cs) h = ground (arith, has_id-erase a b cs h)

pub has_id_erased : (a b : ℕ) (l : List ℕ) → has_id a (erase_id b l) ≡ true → has_id a l ≡ true
unfolding erase_id
has_id_erased a b [] h = h
has_id_erased a b (c ∷ cs) h = ground (arith, has_id_erased a b cs)

length-erase_id : (a : ℕ) (l : List ℕ) → has_id a l ≡ true → suc (length (erase_id a l)) ≡ length l
unfolding erase_id
length-erase_id a [] h = ground arith
length-erase_id a (c ∷ cs) h = ground (arith, length-erase_id a cs)

get_elem?-has_id : (l : List ℕ) (i a : ℕ) → get_elem? l i ≡ some a → has_id a l ≡ true
get_elem?-has_id [] i a e = cc
get_elem?-has_id (b ∷ bs) zero a e = ground arith
get_elem?-has_id (b ∷ bs) (suc i) a e = ground (arith, get_elem?-has_id bs i a e)

pub get_elem?_total {ℓ} :
    {A : Type ℓ} (l : List A) (i : ℕ) → i < length l → (a : A) × (get_elem? l i ≡ some a)
get_elem?_total [] i h = absurd (omega arith)
get_elem?_total (x ∷ xs) zero h = (x, refl)
get_elem?_total (x ∷ xs) (suc i) h = get_elem?_total xs i (omega arith)

length-eq-zero : (l : List ℕ) → length l ≡ 0 → l ≡ []
length-eq-zero [] e = refl
length-eq-zero (x ∷ xs) e = absurd (omega arith)

pub mod_lt : (a n : ℕ) → 0 < n → a % n < n
mod_lt a n h = grind arith

module _ {M : Type 0} where
  -- A chunk that may be asked for: not received, and asked for less often than the limit.
  abbrev pub Askable : ℕ → Socket M → ℕ → Type 0
  Askable to_limit s a =
      (c : ChunkInfo) × (get_elem? s.file_chunks a ≡ some c)
      × (c.received ≡ false)
      × (c.chunk_request < to_limit)

  -- Every chunk that is left has its entry.
  abbrev pub InRange : Socket M → Type 0
  InRange s = (a : ℕ) → has_id a s.notreq_chunks ≡ true → a < length s.file_chunks

  -- A choice: a chunk that is left and may be asked for, or none when no chunk is left.
  abbrev pub IsChoice : ℕ → Socket M → Option ℕ → Type 0
  IsChoice to_limit s none = s.notreq_chunks ≡ []
  IsChoice to_limit s (some a) = (has_id a s.notreq_chunks ≡ true) × Askable to_limit s a

  -- What a selection yields.
  pub record Selected (to_limit : ℕ) (s s' : Socket M) (choice : Option ℕ) : Type 0 where
    pub only_left : s' ≡ record s { notreq_chunks = s'.notreq_chunks }
    pub no_more : (a : ℕ) → has_id a s'.notreq_chunks ≡ true → has_id a s.notreq_chunks ≡ true
    pub kept :
        (a : ℕ)
        → Askable to_limit s a
        → has_id a s.notreq_chunks ≡ true
        → has_id a s'.notreq_chunks ≡ true
    pub chosen : IsChoice to_limit s' choice

  -- One round of the loop, on the chunk that it looks at.
  module _ (fuel : ℕ) (pick : ℕ → ℕ) (to_limit : ℕ) (s : Socket M) (chunk : ℕ) (c : ChunkInfo)
      (at : get_elem? s.notreq_chunks (pick (length s.notreq_chunks) % length s.notreq_chunks)
        ≡ some chunk)
      (entry : get_elem? s.file_chunks chunk ≡ some c) where
    select_loop_chooses :
        not (c.received) && ltb c.chunk_request to_limit ≡ true
        → select_loop (suc fuel) pick to_limit s ≡ some (s, some chunk)
    unfolding select_loop
    select_loop_chooses may = ground arith

    select_loop_passes :
        not (c.received) && ltb c.chunk_request to_limit ≡ false
        → select_loop (suc fuel) pick to_limit s
          ≡ select_loop fuel pick to_limit (remove_notreq s chunk)
    unfolding select_loop
    select_loop_passes may_not = ground arith

  select_loop-Selected :
      (fuel : ℕ) (pick : ℕ → ℕ) (to_limit : ℕ) (s : Socket M)
      → length s.notreq_chunks ≡ fuel
      → InRange s
      → (s' : Socket M) × (choice : Option ℕ) × (select_loop fuel pick to_limit s
          ≡ some (s', choice))
        × Selected to_limit s s' choice
  unfolding select_loop remove_notreq
  select_loop-Selected zero pick to_limit s e r = (
    s,
    none,
    refl,
    record {
      only_left = refl;
      no_more = λ a h. h;
      kept = λ a x h. h;
      chosen = length-eq-zero s.notreq_chunks e;
    },
  )
  select_loop-Selected (suc fuel) pick to_limit s e r =
      let left = length s.notreq_chunks in
      let (chunk, at) =
        get_elem?_total s.notreq_chunks (pick left % left)
          (mod_lt (pick left) left (omega arith)) in
      let here = get_elem?-has_id s.notreq_chunks (pick left % left) chunk at in
      let (c, entry) = get_elem?_total s.file_chunks chunk (r chunk here) in
      elim (Bool-cases (not (c.received) && ltb c.chunk_request to_limit)) [
        | inl may ↦ (
          s,
          some chunk,
          select_loop_chooses fuel pick to_limit s chunk c at entry may,
          record {
            only_left = refl;
            no_more = λ a h. h;
            kept = λ a x h. h;
            chosen = (here, (c, entry, ground arith, ground arith));
          },
        )
        | inr may_not ↦
            let (s', choice, found, sel) =
              select_loop-Selected fuel pick to_limit (remove_notreq s chunk)
                (omega (arith, length-erase_id chunk s.notreq_chunks here))
                (λ a h. r a (has_id_erased a chunk s.notreq_chunks h)) in
            (
              s',
              choice,
              select_loop_passes fuel pick to_limit s chunk c at entry may_not ∙ found,
              record {
                only_left = sel.only_left;
                no_more = λ a h. has_id_erased a chunk s.notreq_chunks (sel.no_more a h);
                kept = λ a x h. sel.kept a x (
                    has_id-erase a chunk s.notreq_chunks
                      (λ same. ground (arith, entry, x.1, x.2, x.3))
                    ∙ h);
                chosen = sel.chosen;
              },
            )
      ]

  -- Where every chunk that is left has its entry, `select_chunk` does not fault and changes nothing
  -- but the chunks that are left, from which only chunks go that may not be asked for. It chooses a
  -- chunk that is left and may be asked for, or none when no chunk is left.
  pub select_chunk-Selected :
      (pick : ℕ → ℕ) (to_limit : ℕ) (s : Socket M)
      → InRange s
      → (s' : Socket M) × (choice : Option ℕ) × (select_chunk pick to_limit s ≡ some (s', choice))
        × Selected to_limit s s' choice
  unfolding select_chunk
  select_chunk-Selected pick to_limit s r =
      select_loop-Selected (length s.notreq_chunks) pick to_limit s refl r
