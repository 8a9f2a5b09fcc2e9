-- ===== src/Mst/Spanning.antt =====
-- The first part of `MSTBroadcastLayer::computePaths` (MSTBroadcastLayer.cc): the tree connects
-- what the links connect.
use mathlib.Core.Option
use mathlib.Core.Path.{fun_ext}
use ccnpl_sim.Prelude.{
  ℕ, ◌≡◌, ◌≢◌, refl, ◌∙◌, ◌==◌, ◌⊎◌, inl, inr, ◌↔◌, Bool-cases, Option-cases, if◌then◌else◌, true,
  false, ◌||◌, List, [], ◌∷◌, none, some, arith,
}
use ccnpl_sim.Mst.Layer.{
  insert, member, WeightedLink, SetMap, RootMap, start_roots, start_mst, root_of, touch, relabel,
  add_neighbour, join_links, spanning,
}

-- A way through a relation, step by step.
pub data Route (R : ℕ → ℕ → Type 0) : ℕ → ℕ → Type 0 where
  stay : {a : ℕ} → Route R a a
  go : {a b c : ℕ} → R a b → Route R b c → Route R a c

-- Neighbours in the tree, and ends of a link in either direction.
abbrev pub Adjacent : SetMap → ℕ → ℕ → Type 0
Adjacent mst a b = (s : List ℕ) × (mst a ≡ some s) × (member b s ≡ true)

abbrev pub LinkIn : List WeightedLink → ℕ → ℕ → Type 0
LinkIn [] a b = ⊥
LinkIn (l ∷ ls) a b = (((l.from ≡ a) × (l.to ≡ b)) ⊎ ((l.from ≡ b) × (l.to ≡ a))) ⊎ LinkIn ls a b

-- Every link joins two of the nodes.
abbrev pub Among : List ℕ → List WeightedLink → Type 0
Among nodes [] = Unit {0}
Among nodes (l ∷ ls) = (member l.from nodes ≡ true) × (member l.to nodes ≡ true) × Among nodes ls

Route-map :
    {R S : ℕ → ℕ → Type 0} → ((a b : ℕ) → R a b → S a b) → {a b : ℕ} → Route R a b → Route S a b
Route-map f stay = stay
Route-map f (go {a = a} {b = b} r p) = go (f a b r) (Route-map f p)

Route-append : {R : ℕ → ℕ → Type 0} {a b c : ℕ} → Route R a b → Route R b c → Route R a c
Route-append stay q = q
Route-append (go r p) q = go r (Route-append p q)

Route-bind :
    {R S : ℕ → ℕ → Type 0}
    → ((a b : ℕ) → R a b → Route S a b)
    → {a b : ℕ} → Route R a b
    → Route S a b
Route-bind f stay = stay
Route-bind f (go {a = a} {b = b} r p) = Route-append (f a b r) (Route-bind f p)

-- A relation without the steps between two nodes, either way.
abbrev pub Without : (ℕ → ℕ → Type 0) → ℕ → ℕ → ℕ → ℕ → Type 0
Without R x y a b = R a b × ¬ (((a ≡ x) × (b ≡ y)) ⊎ ((a ≡ y) × (b ≡ x)))

-- No step of a relation is on a cycle: without it, no way leads from its start to its end.
abbrev pub Acyclic : (ℕ → ℕ → Type 0) → Type 0
Acyclic R = (x y : ℕ) → R x y → ¬ Route (Without R x y) x y

-- A relation with the steps between two nodes.
abbrev With : (ℕ → ℕ → Type 0) → ℕ → ℕ → ℕ → ℕ → Type 0
With R x y a b = (((a ≡ x) × (b ≡ y)) ⊎ ((a ≡ y) × (b ≡ x))) ⊎ R a b

-- A way that may lead over a further link leads past it, or over it in one of the directions.
abbrev Crossing : (ℕ → ℕ → Type 0) → ℕ → ℕ → ℕ → ℕ → Type 0
Crossing R x y a b = Route R a b ⊎ ((Route R a x × Route R y b) ⊎ (Route R a y × Route R x b))

Route-Crossing :
    {R : ℕ → ℕ → Type 0} (x y : ℕ) {a b : ℕ} → Route (With R x y) a b → Crossing R x y a b
Route-Crossing x y stay = inl stay
Route-Crossing {R} x y (go {c = c} (inr r) p) = elim (Route-Crossing x y p) [
  | inl past ↦ inl (go r past)
  | inr (inl (to, on)) ↦ inr (inl (go r to, on))
  | inr (inr (to, on)) ↦ inr (inr (go r to, on))
]
Route-Crossing {R} x y (go {c = c} (inl (inl (ea, eb))) p) = elim (Route-Crossing x y p) [
  | inl past ↦ inr (inl (rw ea stay, rw (← eb) past))
  | inr (inl (_, on)) ↦ inr (inl (rw ea stay, on))
  | inr (inr (_, on)) ↦ inl (rw ea on)
]
Route-Crossing {R} x y (go {c = c} (inl (inr (ea, eb))) p) = elim (Route-Crossing x y p) [
  | inl past ↦ inr (inr (rw ea stay, rw (← eb) past))
  | inr (inl (_, on)) ↦ inl (rw ea on)
  | inr (inr (_, on)) ↦ inr (inr (rw ea stay, on))
]

pub member-insert : (a b : ℕ) (s : List ℕ) → member b (insert a s) ≡ (a == b) || member b s
unfolding insert
member-insert a b [] = ground arith
member-insert a b (c ∷ s) = ground (arith, member-insert a b s)

-- What holds before each link: the nodes have roots; equal roots and a way in the tree are the same;
-- the tree has only links, and none of them is on a cycle.
record Joined (L : ℕ → ℕ → Type 0) (nodes : List ℕ) (roots : RootMap) (mst : SetMap) : Type 0 where
  known : (n : ℕ) → member n nodes ≡ true → (r : ℕ) × (roots n ≡ some r)
  alike : (a b : ℕ) → Adjacent mst a b → (r : ℕ) × (roots a ≡ some r) × (roots b ≡ some r)
  way : (a b r : ℕ) → roots a ≡ some r → roots b ≡ some r → Route (Adjacent mst) a b
  linked : (a b : ℕ) → Adjacent mst a b → L a b
  acyclic : Acyclic (Adjacent mst)

root_of_known : (roots : RootMap) (n r : ℕ) → roots n ≡ some r → root_of roots n ≡ r
unfolding root_of
root_of_known roots n r e = ground arith

touch_known : (roots : RootMap) (n r k : ℕ) → roots n ≡ some r → touch roots n k ≡ roots k
unfolding touch root_of
touch_known roots n r k e = ground arith

Adjacent-add :
    (mst : SetMap) (a b x y : ℕ)
    → Adjacent (add_neighbour mst a b) x y
    → ((x ≡ a) × (y ≡ b)) ⊎ Adjacent mst x y
unfolding add_neighbour
Adjacent-add mst a b x y (s, e, m) = elim (Bool-cases (x == a)) [
  | inr other ↦ inr (s, ground arith, m)
  | inl same ↦ elim (Bool-cases (b == y)) [
    | inl here ↦ inl (ground arith, ground arith)
    | inr there ↦ elim (Option-cases (mst a)) [
      | inl none' ↦ absurd (ground (arith, member-insert b y []))
      | inr (t, et) ↦ inr (t, ground arith, ground (arith, member-insert b y t))
    ]
  ]
]

Adjacent-new : (mst : SetMap) (a b : ℕ) → Adjacent (add_neighbour mst a b) a b
unfolding add_neighbour
Adjacent-new mst a b = (
  insert b (Option.get_or (mst a) []),
  ground arith,
  ground (arith, member-insert b b (Option.get_or (mst a) [])),
)

Adjacent-old :
    (mst : SetMap) (a b x y : ℕ) → Adjacent mst x y → Adjacent (add_neighbour mst a b) x y
unfolding add_neighbour
Adjacent-old mst a b x y (s, e, m) = elim (Bool-cases (x == a)) [
  | inr other ↦ (s, ground arith, m)
  | inl same ↦ (insert b s, ground arith, ground (arith, member-insert b y s))
]

-- The union of two classes along a link of `L`.
module _ {L : ℕ → ℕ → Type 0} {nodes : List ℕ} (roots : RootMap) (mst : SetMap)
    (j : Joined L nodes roots mst) (from to r1 r2 : ℕ) (er : roots from ≡ some r1)
    (es : roots to ≡ some r2) (link : L from to) (back : L to from) where
  abbrev roots' : RootMap
  roots' = relabel roots r2 r1

  abbrev mst' : SetMap
  mst' = add_neighbour (add_neighbour mst from to) to from

  relabelled : (n r : ℕ) → roots n ≡ some r → roots' n ≡ some (if r == r2 then r1 else r)
  unfolding relabel
  relabelled n r e = rw (e, relabel)

  before :
      (n r : ℕ)
      → roots' n ≡ some r
      → (q : ℕ) × (roots n ≡ some q) × (r ≡ (if q == r2 then r1 else q))
  unfolding relabel
  before n r e = elim (Option-cases (roots n)) [
    | inl none' ↦ absurd (ground arith)
    | inr (q, eq) ↦ (q, eq, ground arith)
  ]

  new_edges :
      (a b : ℕ)
      → Adjacent mst' a b
      → (((a ≡ from) × (b ≡ to)) ⊎ ((a ≡ to) × (b ≡ from))) ⊎ Adjacent mst a b
  new_edges a b h = elim (Adjacent-add (add_neighbour mst from to) to from a b h) [
    | inl last ↦ inl (inr last)
    | inr h' ↦ elim (Adjacent-add mst from to a b h') [
      | inl first ↦ inl (inl first)
      | inr old ↦ inr old
    ]
  ]

  there : Adjacent mst' from to
  there = Adjacent-old (add_neighbour mst from to) to from from to (Adjacent-new mst from to)

  and_back : Adjacent mst' to from
  and_back = Adjacent-new (add_neighbour mst from to) to from

  old-Route : {a b : ℕ} → Route (Adjacent mst) a b → Route (Adjacent mst') a b
  old-Route = Route-map (λ a b h.
      Adjacent-old (add_neighbour mst from to) to from a b (Adjacent-old mst from to a b h))

  alike_joined : (a b : ℕ) → Adjacent mst' a b → (r : ℕ) × (roots' a ≡ some r) × (roots' b ≡ some r)
  alike_joined a b h = elim (new_edges a b h) [
    | inl (inl (ea, eb)) ↦
        (r1, ground (arith, relabelled from r1 er), ground (arith, relabelled to r2 es))
    | inl (inr (ea, eb)) ↦
        (r1, ground (arith, relabelled to r2 es), ground (arith, relabelled from r1 er))
    | inr old ↦ let (r, ra, rb) = j.alike a b old in (_, relabelled a r ra, relabelled b r rb)
  ]

  way_joined : (a b r : ℕ) → roots' a ≡ some r → roots' b ≡ some r → Route (Adjacent mst') a b
  way_joined a b r ea eb =
      let (qa, fa, ga) = before a r ea in
      let (qb, fb, gb) = before b r eb in
      elim (Bool-cases (qa == qb)) [
        | inl same ↦ old-Route (j.way a b qa fa (ground arith))
        | inr other ↦ elim (Bool-cases (qa == r2)) [
          | inl second ↦
              Route-append (old-Route (j.way a to r2 (ground arith) es))
                (go and_back (old-Route (j.way from b r1 er (ground arith))))
          | inr first ↦
              Route-append (old-Route (j.way a from r1 (ground arith) er))
                (go there (old-Route (j.way to b r2 es (ground arith))))
        ]
      ]

  Route-root : {a b r : ℕ} → Route (Adjacent mst) a b → roots a ≡ some r → roots b ≡ some r
  Route-root stay e = e
  Route-root (go {a = a} {b = b} h p) e =
      let (r, ea, eb) = j.alike a b h in Route-root p (ground arith)

  only_old :
      (x y : ℕ)
      → ((x ≡ from) × (y ≡ to)) ⊎ ((x ≡ to) × (y ≡ from))
      → (a b : ℕ) → Without (Adjacent mst') x y a b
      → Adjacent mst a b
  only_old x y h a b (adj, other) = elim (new_edges a b adj) [
    | inl new ↦ absurd (other (ground (arith, h, new)))
    | inr old ↦ old
  ]

  split :
      (x y a b : ℕ)
      → Without (Adjacent mst') x y a b
      → With (Without (Adjacent mst) x y) from to a b
  split x y a b (adj, other) = elim (new_edges a b adj) [
    | inl new ↦ inl new
    | inr old ↦ inr (old, other)
  ]

  within : {x y a b : ℕ} → Route (Without (Adjacent mst) x y) a b → Route (Adjacent mst) a b
  within = Route-map (λ a b h. h.0)

  acyclic_joined : r1 ≢ r2 → Acyclic (Adjacent mst')
  acyclic_joined apart x y h p = elim (new_edges x y h) [
    | inl (inl (ex, ey)) ↦
        let q : Route (Adjacent mst) from to =
          rw (← ex, ← ey) (Route-map (only_old x y (inl (ex, ey))) p) in
        apart (ground (arith, Route-root q er, es))
    | inl (inr (ex, ey)) ↦
        let q : Route (Adjacent mst) to from =
          rw (← ex, ← ey) (Route-map (only_old x y (inr (ex, ey))) p) in
        apart (ground (arith, Route-root q es, er))
    | inr old ↦
        let (r, rx, ry) = j.alike x y old in
        elim (Route-Crossing {R = Without (Adjacent mst) x y} from to (Route-map (split x y) p)) [
          | inl past ↦ j.acyclic x y old past
          | inr (inl (p₁, p₂)) ↦
              apart (
                ground
                  (arith, rx, ry, er, es, Route-root (within p₁) rx, Route-root (within p₂) es))
          | inr (inr (p₁, p₂)) ↦
              apart (
                ground
                  (arith, rx, ry, er, es, Route-root (within p₁) rx, Route-root (within p₂) er))
        ]
  ]

  joined : r1 ≢ r2 → Joined L nodes roots' mst'
  joined apart = record {
    acyclic = acyclic_joined apart;
    known = λ n m. let (r, e) = j.known n m in (_, relabelled n r e);
    alike = alike_joined;
    way = way_joined;
    linked = λ a b h. elim (new_edges a b h) [
      | inl (inl (ea, eb)) ↦ rw (ea, eb) link
      | inl (inr (ea, eb)) ↦ rw (ea, eb) back
      | inr old ↦ j.linked a b old
    ];
  }

abbrev SameRoot : RootMap → ℕ → ℕ → Type 0
SameRoot roots a b = (r : ℕ) × (roots a ≡ some r) × (roots b ≡ some r)

-- What the loop yields: the tree of all links.
record Spanned (L : ℕ → ℕ → Type 0) (nodes : List ℕ) (ls : List WeightedLink) (roots : RootMap)
    (end : RootMap × SetMap) : Type 0 where
  whole : Joined L nodes end.0 end.1
  met : (a b : ℕ) → LinkIn ls a b → SameRoot end.0 a b
  kept : (a b : ℕ) → SameRoot roots a b → SameRoot end.0 a b

join_links-Spanned :
    {L : ℕ → ℕ → Type 0} {nodes : List ℕ} (ls : List WeightedLink) (roots : RootMap) (mst : SetMap)
    → Among nodes ls
    → ((a b : ℕ) → LinkIn ls a b → L a b)
    → Joined L nodes roots mst
    → Spanned L nodes ls roots (join_links ls roots mst)
unfolding join_links
join_links-Spanned [] roots mst m sub j = record {
  whole = j;
  met = λ a b h. absurd h;
  kept = λ a b h. h;
}
join_links-Spanned {L} {nodes} (l ∷ ls) roots mst m sub j =
    let (r1, e1) = j.known l.from m.0 in
    let (r2, e2) = j.known l.to m.1 in
    let same : touch (touch roots l.from) l.to ≡ roots = fun_ext (λ k.
      touch_known (touch roots l.from) l.to r2 k (touch_known roots l.from r1 l.to e1 ∙ e2)
      ∙ touch_known roots l.from r1 k e1) in
    rw (same, root_of_known roots l.from r1 e1, root_of_known roots l.to r2 e2)
      (branch
        (λ roots₁ mst₁ j₁. join_links-Spanned ls roots₁ mst₁ m.2 (λ a b h. sub a b (inr h)) j₁) r1
        r2 e1 e2)
  where
    branch :
        ((roots₁ : RootMap) (mst₁ : SetMap)
          → Joined L nodes roots₁ mst₁
          → Spanned L nodes ls roots₁ (join_links ls roots₁ mst₁))
        → (r1 r2 : ℕ) → roots l.from ≡ some r1
        → roots l.to ≡ some r2
        → Spanned L nodes (l ∷ ls) roots (
            join_links ls
              (if r1 == r2 then roots else relabel roots r2 r1)
              (if r1 == r2 then mst else add_neighbour (add_neighbour mst l.from l.to) l.to l.from))
    branch rest r1 r2 e1 e2 = elim (Bool-cases (r1 == r2)) [
      | inl one ↦
          let t = rest roots mst j in
          let ends : SameRoot roots l.from l.to = (r1, e1, ground arith) in
          rw one (record {
            whole = t.whole;
            met = λ a b h. elim h [
              | inl (inl (ea, eb)) ↦ rw (← ea, ← eb) (t.kept l.from l.to ends)
              | inl (inr (eb, ea)) ↦
                  rw (← ea, ← eb) (let (r, p, q) = t.kept l.from l.to ends in (r, q, p))
              | inr later ↦ t.met a b later
            ];
            kept = t.kept;
          })
      | inr two ↦
          let link = sub l.from l.to (inl (inl (refl, refl))) in
          let back = sub l.to l.from (inl (inr (refl, refl))) in
          let t =
            rest (relabel roots r2 r1) (add_neighbour (add_neighbour mst l.from l.to) l.to l.from)
              (joined roots mst j l.from l.to r1 r2 e1 e2 link back (ground (arith, two))) in
          let ends : SameRoot (relabel roots r2 r1) l.from l.to = (
            r1,
            ground (arith, relabelled roots mst j l.from l.to r1 r2 e1 e2 link back l.from r1 e1),
            ground (arith, relabelled roots mst j l.from l.to r1 r2 e1 e2 link back l.to r2 e2),
          ) in
          rw two (record {
            whole = t.whole;
            met = λ a b h. elim h [
              | inl (inl (ea, eb)) ↦ rw (← ea, ← eb) (t.kept l.from l.to ends)
              | inl (inr (eb, ea)) ↦
                  rw (← ea, ← eb) (let (r, p, q) = t.kept l.from l.to ends in (r, q, p))
              | inr later ↦ t.met a b later
            ];
            kept = λ a b (r, p, q). t.kept a b (
              _,
              relabelled roots mst j l.from l.to r1 r2 e1 e2 link back a r p,
              relabelled roots mst j l.from l.to r1 r2 e1 e2 link back b r q,
            );
          })
    ]

start_known :
    (nodes : List ℕ) (roots : RootMap) (n : ℕ)
    → (member n nodes ≡ true) ⊎ (roots n ≡ some n)
    → start_roots nodes roots n ≡ some n
unfolding start_roots
start_known [] roots n h = ground arith
start_known (m ∷ ms) roots n h = start_known ms _ n (ground arith)

start_own :
    (nodes : List ℕ) (roots : RootMap) (n r : ℕ)
    → ((r : ℕ) → roots n ≡ some r → r ≡ n)
    → start_roots nodes roots n ≡ some r
    → r ≡ n
unfolding start_roots
start_own [] roots n r h e = h r e
start_own (m ∷ ms) roots n r h e = start_own ms _ n r (λ q f. ground (arith, h q)) e

start_alone :
    (nodes : List ℕ) (mst : SetMap) (a b : ℕ)
    → ((s : List ℕ) → mst a ≡ some s → member b s ≡ false)
    → ¬ Adjacent (start_mst nodes mst) a b
unfolding start_mst
start_alone [] mst a b h = λ (s, e, m). ground (arith, h s e)
start_alone (n ∷ ns) mst a b h = start_alone ns _ a b (λ s e. ground (arith, h s))

-- On links among the nodes, the part of `computePaths` before its loops over pairs ends with neighbour sets
-- that connect two nodes exactly if the links do, that have only links, and that have no cycle: once two
-- neighbours are parted, either way, no way leads from one to the other. They are a spanning forest.
pub spanning-connects :
    (nodes : List ℕ) (links : List WeightedLink) (a b : ℕ)
    → Among nodes links
    → let tree = (spanning (record { nodes = nodes; links = links; mst = λ _. none })).1 in
      (Route (LinkIn links) a b ↔ Route (Adjacent tree) a b)
      × ((x y : ℕ) → Adjacent tree x y → LinkIn links x y)
      × Acyclic (Adjacent tree)
unfolding spanning
spanning-connects nodes links a b m = (
  (
    λ p. Route-bind (λ x y h. let (r, ex, ey) = t.met x y h in t.whole.way x y r ex ey) p,
    Route-map t.whole.linked,
  ),
  t.whole.linked,
  t.whole.acyclic,
)
  where
    start :
        Joined (LinkIn links) nodes (start_roots nodes (λ _. none)) (start_mst nodes (λ _. none))
    start = record {
      known = λ n h. (n, start_known nodes (λ _. none) n (inl h));
      alike = λ x y h. absurd (start_alone nodes (λ _. none) x y (λ s e. absurd cc) h);
      way = λ x y r ex ey.
          let p : r ≡ x = start_own nodes (λ _. none) x r (λ q f. absurd cc) ex in
          let q : r ≡ y = start_own nodes (λ _. none) y r (λ q f. absurd cc) ey in
          rw (← p, ← q) stay;
      linked = λ x y h. absurd (start_alone nodes (λ _. none) x y (λ s e. absurd cc) h);
      acyclic = λ x y h. absurd (start_alone nodes (λ _. none) x y (λ s e. absurd cc) h);
    }

    t :
        Spanned
          (LinkIn links)
          nodes
          links
          (start_roots nodes (λ _. none))
          (join_links links (start_roots nodes (λ _. none)) (start_mst nodes (λ _. none)))
    t =
        join_links-Spanned links (start_roots nodes (λ _. none)) (start_mst nodes (λ _. none)) m
          (λ a b h. h) start
