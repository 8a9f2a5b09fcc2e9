-- ===== src/Socket/Flags.antt =====
-- How many chunks of a download are received (Socket.cc).
use ccnpl_sim.Prelude.{
  ℕ, zero, suc, ◌+◌, ◌*◌, ◌%◌, ◌≤◌, ◌<◌, ◌≡◌, refl, ◌==◌, not, if◌then◌else◌, Bool, true, false,
  ◌&&◌, List, [], ◌∷◌, none, some, get_elem?, set, length, u32_mod, arith,
}
use ccnpl_sim.Socket.Chunks.{ChunkInfo}

-- How many chunks are received, of all and of those with an id from 1 on.
abbrev pub flags : List ChunkInfo → ℕ
flags [] = 0
flags (c ∷ cs) = (if c.received then 1 else 0) + flags cs

abbrev pub data_flags : List ChunkInfo → ℕ
data_flags [] = 0
data_flags (c ∷ cs) = flags cs

pub flags-le-length : (l : List ChunkInfo) → flags l ≤ length l
flags-le-length [] = omega arith
flags-le-length (c ∷ cs) = ground (arith, flags-le-length cs)

pub flags-set :
    (l : List ChunkInfo) (i : ℕ) (c d : ChunkInfo)
    → get_elem? l i ≡ some c
    → flags (set l i d) + (if c.received then 1 else 0) ≡ flags l + (if d.received then 1 else 0)
flags-set [] i c d e = ground arith
flags-set (x ∷ xs) zero c d e = ground arith
flags-set (x ∷ xs) (suc i) c d e = ground (arith, flags-set xs i c d e)

-- A write of a chunk counts as the flag that it changes; that of chunk 0 does not count.
pub data_flags-set :
    (l : List ChunkInfo) (i : ℕ) (c d : ChunkInfo)
    → get_elem? l i ≡ some c
    → data_flags (set l i d) + (if c.received && not (i == 0) then 1 else 0)
      ≡ data_flags l + (if d.received && not (i == 0) then 1 else 0)
data_flags-set [] i c d e = ground arith
data_flags-set (x ∷ xs) zero c d e = ground arith
data_flags-set (x ∷ xs) (suc i) c d e = ground (arith, flags-set xs i c d e)

pub flags_all :
    (l : List ChunkInfo)
    → flags l ≡ length l
    → (i : ℕ) (c : ChunkInfo) → get_elem? l i ≡ some c
    → c.received ≡ true
flags_all [] e i c h = cc
flags_all (x ∷ xs) e zero c h = ground (arith, flags-le-length xs)
flags_all (x ∷ xs) e (suc i) c h = flags_all xs (ground (arith, flags-le-length xs)) i c h

pub get_elem?-lt :
    (l : List ChunkInfo) (i : ℕ) (c : ChunkInfo) → get_elem? l i ≡ some c → i < length l
get_elem?-lt [] i c e = cc
get_elem?-lt (x ∷ xs) zero c e = omega arith
get_elem?-lt (x ∷ xs) (suc i) c e = omega (arith, get_elem?-lt xs i c e)

pub all_flags :
    (l : List ChunkInfo)
    → ((i : ℕ) (c : ChunkInfo) → get_elem? l i ≡ some c → c.received ≡ true)
    → flags l ≡ length l
all_flags [] h = refl
all_flags (x ∷ xs) h = ground (arith, h 0 x refl, all_flags xs (λ i c e. h (suc i) c e))

-- Whether the chunk of an id is received.
abbrev pub is_received : List ChunkInfo → ℕ → Bool
is_received l i = elim (get_elem? l i) [ none ↦ false | some c ↦ c.received ]

pub data_flags-le-length : (l : List ChunkInfo) (n : ℕ) → length l ≡ suc n → data_flags l ≤ n
data_flags-le-length [] n e = omega arith
data_flags-le-length (c ∷ cs) n e = omega (arith, flags-le-length cs)

-- A product of a positive number grows with the other factor.
pub mul_cancel : (n a b : ℕ) → 0 < n → n * a ≡ n * b → a ≡ b
mul_cancel n a b h e = grind arith

pub mul_bound : (n a b : ℕ) → a ≤ b → n * a ≤ n * b
mul_bound n a b h = grind arith

pub mod_small : (a : ℕ) → a < u32_mod → a % u32_mod ≡ a
mod_small a h = omega arith
