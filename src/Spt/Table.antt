-- ===== src/Spt/Table.antt =====
-- The graph of SPTsBroadcastLayer.cc: `Adj`, `NDescr` and `NTable`.
--
-- The array of descriptors is a function of the index, of which the table uses the first `size` places.
-- Its room is not modelled: `computePaths` allots a place for every node of the layer, and enters no
-- other. `heap_pos` stands in Spt.Heap. A length is a natural number, and lengths are
-- added exactly: a negative length, and the rounding of `double`, are not modelled.
use ccnpl_sim.Prelude.{
  ℕ, suc, ◌==◌, if◌then◌else◌, Bool, false, ◌||◌, List, [], ◌∷◌, Option, none, some,
}
use ccnpl_sim.Spt.Heap.{write}

pub record Adj : Type 0 where
  pub nid : ℕ
  pub len : ℕ

-- `SPTsBroadcastLayer::Edge`.
pub record Edge : Type 0 where
  pub from : ℕ
  pub to : ℕ
  pub len : ℕ

pub record NTable : Type 0 where
  pub size : ℕ
  pub pid : ℕ → ℕ
  pub adj : ℕ → List Adj
  pub reverse_map : ℕ → Option ℕ

unfoldable pub new_table : NTable
new_table = record { size = 0; pid = λ i. 0; adj = λ i. []; reverse_map = λ p. none }

abbrev pub is_adjacent : ℕ → List Adj → Bool
is_adjacent n [] = false
is_adjacent n (a ∷ rest) = (a.nid == n) || is_adjacent n rest

-- `add_adj`: the first length that is entered stays.
unfoldable pub add_adj : ℕ → ℕ → List Adj → List Adj
add_adj n len rest = if is_adjacent n rest then rest else record { nid = n; len = len } ∷ rest

-- `add_node`: the id of a process, a new one where it has none.
unfoldable pub add_node : ℕ → NTable → ℕ × NTable
add_node p t = elim (t.reverse_map p) [
  | some i ↦ (i, t)
  | none ↦ (
    t.size,
    record t {
      size = suc t.size;
      pid = write t.pid t.size p;
      adj = write t.adj t.size [];
      reverse_map = write t.reverse_map p (some t.size);
    },
  )
]

-- The last lines of `add_edge`.
unfoldable pub connect : ℕ → ℕ → ℕ → NTable → NTable
unfolding add_adj
connect i j len t =
    let there = write t.adj i (add_adj j len (t.adj i)) in
    record t { adj = write there j (add_adj i len (there j)) }

unfoldable pub add_edge : Edge → NTable → NTable
unfolding add_node connect
add_edge e t =
    let (i, t₁) = add_node e.from t in let (j, t₂) = add_node e.to t₁ in connect i j e.len t₂

-- The loop that enters the edges.
unfoldable pub add_edges : List Edge → NTable → NTable
add_edges [] t = t
add_edges (e ∷ es) t = add_edges es (add_edge e t)
