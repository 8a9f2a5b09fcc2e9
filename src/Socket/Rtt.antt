-- ===== src/Socket/Rtt.antt =====
-- `RTTstats` of tags/cbcbsim-1.0.2/src/RTTstats.cc: the last round-trip times, their least and their
-- greatest. The multiset of samples is a list in order; an iterator to one stands for its value. The
-- estimated timer and the moving average, floating-point values that nothing else reads, are left out.
use ccnpl_sim.Prelude.{
  ℕ, suc, ◌+◌, ◌-◌, ◌≤◌, ◌<◌, ◌≡◌, refl, ◌==◌, leb, ltb, if◌then◌else◌, List, [], ◌∷◌, ◌++◌, length,
  length-append, drop, length-drop, ap, Bool-cases, inl, inr, arith,
}

pub record RttStats : Type 0 where
  pub estimation_length : ℕ
  pub samples : List ℕ
  pub ordered_samples : List ℕ
  pub rtt_min : ℕ
  pub rtt_max : ℕ
  pub rtt_actual : ℕ

abbrev pub new_rtt_stats : ℕ → RttStats
new_rtt_stats n = record {
  estimation_length = n;
  samples = [];
  ordered_samples = [];
  rtt_min = 0;
  rtt_max = 0;
  rtt_actual = 0;
}

-- `multiset::insert`, behind the samples that are not longer; and `erase` at an iterator.
unfoldable pub insert_sample : ℕ → List ℕ → List ℕ
insert_sample x [] = x ∷ []
insert_sample x (y ∷ ys) = if leb y x then y ∷ insert_sample x ys else x ∷ y ∷ ys

unfoldable pub erase_sample : ℕ → List ℕ → List ℕ
erase_sample x [] = []
erase_sample x (y ∷ ys) = if y == x then ys else y ∷ erase_sample x ys

-- The first and the last of the ordered samples; at the time of the call there is one.
abbrev pub first_sample : List ℕ → ℕ
first_sample [] = 0
first_sample (x ∷ _) = x

abbrev pub last_sample : List ℕ → ℕ
last_sample [] = 0
last_sample (x ∷ []) = x
last_sample (x ∷ y ∷ ys) = last_sample (y ∷ ys)

-- The oldest sample goes if there are more than the estimation's length.
unfoldable pub trim_samples : RttStats → RttStats
trim_samples r = elim r.samples [
  | [] ↦ r
  | x ∷ xs ↦
      if ltb r.estimation_length (suc (length xs))
      then record r { samples = xs; ordered_samples = erase_sample x r.ordered_samples }
      else r
]

-- `RTTstats::samples_update`.
unfoldable pub samples_update : RttStats → ℕ → RttStats
unfolding trim_samples
samples_update r x =
    let r' = trim_samples (record r {
      samples = r.samples ++ x ∷ [];
      ordered_samples = insert_sample x r.ordered_samples;
      rtt_actual = x;
    }) in
    record r' {
      rtt_min = first_sample r'.ordered_samples;
      rtt_max = last_sample r'.ordered_samples;
    }

-- How often a value stands in a list.
abbrev pub count : ℕ → List ℕ → ℕ
count a [] = 0
count a (x ∷ xs) = (if x == a then 1 else 0) + count a xs

abbrev pub IsSorted : List ℕ → Type 0
IsSorted [] = Unit {0}
IsSorted (x ∷ []) = Unit {0}
IsSorted (x ∷ y ∷ ys) = (x ≤ y) × IsSorted (y ∷ ys)

-- The ordered samples are the samples in order, which are not more than the estimation's length.
pub record IsOrdered (r : RttStats) : Type 0 where
  pub sorted : IsSorted r.ordered_samples
  pub same : (a : ℕ) → count a r.ordered_samples ≡ count a r.samples
  pub few : length r.samples ≤ r.estimation_length

IsSorted-insert : (x : ℕ) (l : List ℕ) → IsSorted l → IsSorted (insert_sample x l)
unfolding insert_sample
IsSorted-insert x [] s = tt
IsSorted-insert x (y ∷ []) s = ground arith
IsSorted-insert x (y ∷ z ∷ zs) s = ground (arith, IsSorted-insert x (z ∷ zs) s.1)

IsSorted-erase : (x : ℕ) (l : List ℕ) → IsSorted l → IsSorted (erase_sample x l)
unfolding erase_sample
IsSorted-erase x [] s = tt
IsSorted-erase x (y ∷ []) s = ground arith
IsSorted-erase x (y ∷ z ∷ []) s = ground arith
IsSorted-erase x (y ∷ z ∷ w ∷ ws) s = ground (arith, IsSorted-erase x (z ∷ w ∷ ws) s.1)

count-insert :
    (a x : ℕ) (l : List ℕ) → count a (insert_sample x l) ≡ (if x == a then 1 else 0) + count a l
unfolding insert_sample
count-insert a x [] = ground arith
count-insert a x (y ∷ ys) = ground (arith, count-insert a x ys)

count-erase :
    (a x : ℕ) (l : List ℕ)
    → 0 < count x l
    → (if x == a then 1 else 0) + count a (erase_sample x l) ≡ count a l
unfolding erase_sample
count-erase a x [] h = absurd (omega arith)
count-erase a x (y ∷ ys) h = ground (arith, count-erase a x ys)

count-append : (a : ℕ) (l m : List ℕ) → count a (l ++ m) ≡ count a l + count a m
count-append a [] m = omega arith
count-append a (x ∷ xs) m = omega (arith, count-append a xs m)

-- In a sorted list the first is the least and the last the greatest.
first_sample-le : (a : ℕ) (l : List ℕ) → IsSorted l → 0 < count a l → first_sample l ≤ a
first_sample-le a [] s h = absurd (omega arith)
first_sample-le a (x ∷ []) s h = ground arith
first_sample-le a (x ∷ y ∷ ys) s h = ground (arith, first_sample-le a (y ∷ ys) s.1)

last_sample-ge : (a : ℕ) (l : List ℕ) → IsSorted l → 0 < count a l → a ≤ last_sample l
last_sample-ge a [] s h = absurd (omega arith)
last_sample-ge a (x ∷ []) s h = ground arith
last_sample-ge a (x ∷ y ∷ []) s h = ground arith
last_sample-ge a (x ∷ y ∷ z ∷ zs) s h =
    ground (arith, last_sample-ge a (y ∷ z ∷ zs) s.1, last_sample-ge y (y ∷ z ∷ zs) s.1)

-- The samples of the reference: the last so many of all that came.
abbrev pub last_of : ℕ → List ℕ → List ℕ
last_of n l = drop (length l - n) l

first_sample-count : (x : ℕ) (l : List ℕ) → 0 < count (first_sample (x ∷ l)) (x ∷ l)
first_sample-count x l = ground arith

last_sample-count : (x : ℕ) (l : List ℕ) → 0 < count (last_sample (x ∷ l)) (x ∷ l)
last_sample-count x [] = ground arith
last_sample-count x (y ∷ ys) = ground (arith, last_sample-count y ys)

-- The least and the greatest of the samples.
pub record IsRange (lo hi : ℕ) (l : List ℕ) : Type 0 where
  pub within : (a : ℕ) → 0 < count a l → (lo ≤ a) × (a ≤ hi)
  pub least_in : 0 < count lo l
  pub greatest_in : 0 < count hi l

IsRange-sorted :
    (o l : List ℕ)
    → IsSorted o
    → ((a : ℕ) → count a o ≡ count a l)
    → 0 < length l
    → IsRange (first_sample o) (last_sample o) l
IsRange-sorted [] [] s e h = absurd (omega arith)
IsRange-sorted [] (x ∷ l) s e h = absurd (ground (arith, e x))
IsRange-sorted (x ∷ o) l s e h = record {
  within = λ a p. (
    ground (arith, e a, first_sample-le a (x ∷ o) s),
    ground (arith, e a, last_sample-ge a (x ∷ o) s),
  );
  least_in = ground (arith, e (first_sample (x ∷ o)), first_sample-count x o);
  greatest_in = omega (arith, e (last_sample (x ∷ o)), last_sample-count x o);
}

trim_samples-IsOrdered :
    (r : RttStats) (l : List ℕ)
    → r.samples ≡ l
    → IsSorted r.ordered_samples
    → ((a : ℕ) → count a r.ordered_samples ≡ count a r.samples)
    → length l ≤ suc r.estimation_length
    → IsOrdered (trim_samples r)
      × ((trim_samples r).samples ≡ last_of r.estimation_length l)
      × ((trim_samples r).estimation_length ≡ r.estimation_length)
unfolding trim_samples
trim_samples-IsOrdered r [] e s same h = (
  record { sorted = ground arith; same = λ a. ground (arith, same a); few = ground arith },
  ground arith,
  ground arith,
)
trim_samples-IsOrdered r (x ∷ xs) e s same h =
    elim (Bool-cases (ltb r.estimation_length (suc (length xs)))) [
      | inl full ↦ (
        record {
          sorted = ground (arith, IsSorted-erase x r.ordered_samples s);
          same = λ a. ground (arith, same a, same x, count-erase a x r.ordered_samples);
          few = ground arith;
        },
        ground arith,
        ground arith,
      )
      | inr room ↦ (
        record { sorted = ground arith; same = λ a. ground (arith, same a); few = ground arith },
        ground arith,
        ground arith,
      )
    ]

-- After an update the samples are the last ones of all, up to the estimation's length, in order on
-- the side; and the least and the greatest round-trip time are those of these samples.
pub samples_update-last_of :
    (r : RttStats) (x : ℕ)
    → IsOrdered r
    → 0 < r.estimation_length
    → let r' = samples_update r x in
      IsOrdered r'
      × (r'.samples ≡ last_of r.estimation_length (r.samples ++ x ∷ []))
      × IsRange r'.rtt_min r'.rtt_max r'.samples
      × (r'.estimation_length ≡ r.estimation_length)
unfolding samples_update
samples_update-last_of r x v h =
    let r₀ : RttStats = record r {
      samples = r.samples ++ x ∷ [];
      ordered_samples = insert_sample x r.ordered_samples;
      rtt_actual = x;
    } in
    let (o, e, n) =
      trim_samples-IsOrdered r₀ r₀.samples refl (IsSorted-insert x r.ordered_samples v.sorted)
        (λ a.
          ground (
            arith,
            v.same a,
            count-insert a x r.ordered_samples,
            count-append a r.samples (x ∷ []),
          ))
        (ground (arith, length-append r.samples (x ∷ []), v.few)) in
    (
      record { sorted = o.sorted; same = o.same; few = o.few },
      e,
      IsRange-sorted (trim_samples r₀).ordered_samples (trim_samples r₀).samples o.sorted o.same (
          omega (
            arith,
            ap length e,
            length-drop (length r₀.samples - r.estimation_length) r₀.samples,
            length-append r.samples (x ∷ []),
          )),
      n,
    )
