-- ===== src/Node/Transit.antt =====
-- What `CBCBNode::process_data` does with the data of a chunk that only other nodes wait for
-- (CBCBNode.cc), over the theorems of the table of pending interests.
use ccnpl_sim.Prelude.{
  ℕ, suc, ◌<◌, ◌≡◌, refl, ◌==◌, ◌||◌, Bool-cases, Option-cases, inl, inr, true, false, List, [],
  ◌∷◌, Option, none, some, map, ◌∙◌, length, arith,
}
use ccnpl_sim.Packets.{Data, forward_data}
use ccnpl_sim.Cache.Lru.{CacheLru}
use ccnpl_sim.Cache.Again.{Holds, IsAddable, add_again, add_first}
use ccnpl_sim.Pit.Table.{Named}
use ccnpl_sim.Pit.Slots.{Slot}
use ccnpl_sim.Pit.Clean.{IsTable, live}
use ccnpl_sim.Pit.Out.{
  matching, waiting_for, remote, any_own, remove_all, process_out-taken, taken-remote,
}
use ccnpl_sim.Socket.Controller.{Controller}
use ccnpl_sim.Node.Balance.{pending}
use ccnpl_sim.Node.State.{
  content_name, Node, Env, data_packet, Effect, queued, ContentStore, lru, add_in_cache,
}
use ccnpl_sim.Node.Arrival.{Arrived, data_of, path, send_on, deliver, process_data}

module _ {M : Type 0} where
  -- A chunk is added once for each of some entries, from the `nth` addition on.
  abbrev pub add_each :
      Env M → Data M → ℕ → List (Slot (Named M)) → ContentStore M → Option (ContentStore M)
  add_each env d nth [] store = some store
  add_each env d nth (_ ∷ ns) store = elim (add_in_cache store d env.now (env.rands nth)) [
    | none ↦ none
    | some store' ↦ add_each env d (suc nth) ns store'
  ]

  -- The copy of a chunk that a node sends to an entry.
  abbrev pub copy_to : ℕ → Data M → Slot (Named M) → Effect M
  copy_to id d e =
      queued (e.value.entry.ifid) (data_packet (forward_data id d e.value.entry.port (path id d)))

module _ {M C : Type 0} (k : Controller C) (make : ℕ → C) (env : Env M) (ifid : ℕ)
    (packet : Arrived M) where
  deliver_lem :
      (range : List (Slot (Named M))) (nth : ℕ) (n : Node M C) (store : ContentStore M)
      → 0 < (data_of packet).chunk_id
      → add_each env (data_of packet) nth (remote ifid range) n.store ≡ some store
      → deliver k make env ifid packet nth (map matching (remote ifid range)) n
        ≡ some (record n { store = store }, map (copy_to n.id (data_of packet)) (remote ifid range))
  unfolding deliver send_on
  deliver_lem [] nth n store h e = ground arith
  deliver_lem (x ∷ xs) nth n store h e =
      elim (Bool-cases ((x.value.entry.ifid == ifid) || (x.value.entry.ifid == 0))) [
        | inl skipped ↦ ground (arith, skipped, e, deliver_lem xs nth n store h)
        | inr sent ↦
            (elim (Option-cases (add_in_cache n.store (data_of packet) env.now (env.rands nth))) [
              | inl fault ↦ ground (arith, sent, fault, e)
              | inr (store₁, added) ↦ ground (
                arith,
                sent,
                added,
                e,
                deliver_lem xs (suc nth) (record n { store = store₁ }) store h,
              )
            ])
      ]

  -- A chunk that only other nodes wait for, where the additions to the cache do not fault.
  pub process_data-added :
      (n : Node M C) (store : ContentStore M)
      → IsTable n.pit
      → n.pit.filtering ≡ true
      → 0 < (data_of packet).chunk_id
      → any_own (data_of packet) (waiting_for n.pit (data_of packet) env.now) ≡ false
      → add_each env
          (data_of packet)
          0
          (remote ifid (waiting_for n.pit (data_of packet) env.now))
          n.store
        ≡ some store
      → (n' : Node M C) × (process_data k make env ifid packet n
          ≡ some (
            n',
            map
                (copy_to n.id (data_of packet))
                (remote ifid (waiting_for n.pit (data_of packet) env.now)),
            1,
          ))
        × (n'.pit.by_name
            ≡ remove_all
                (remote ifid (waiting_for n.pit (data_of packet) env.now))
                (live env.now n.pit.by_name))
        × IsTable n'.pit
        × (n'.store ≡ store)
        × (n'.sockets ≡ n.sockets)
  unfolding process_data
  process_data-added n store v on h o added =
      let d = data_of packet in
      let (q, e, vq, nq) = process_out-taken n.pit ifid d env.now v in
      let same = taken-remote ifid d (waiting_for n.pit d env.now) h o in
      let balance =
        pending n.balance (content_name (env.values d.msg) (env.match_len d.msg)) ifid false in
      let delivered =
        deliver_lem (waiting_for n.pit d env.now) 0 (record n { pit = q; balance = balance }) store
          h added in
      (
        record n { pit = q; balance = balance; store = store },
        ground (arith, e, on, same, delivered),
        ground (arith, nq, on, same),
        vq,
        refl,
        refl,
      )

module _ {M : Type 0} where
  add_each-Holds :
      (env : Env M) (d : Data M) (nth : ℕ) (ns : List (Slot (Named M))) (c : CacheLru M)
      → 0 < c.cache_limit
      → Holds c d
      → (c' : CacheLru M) × (add_each env d nth ns (lru c) ≡ some (lru c'))
        × Holds c' d
        × (c'.cache_limit ≡ c.cache_limit)
  unfolding add_in_cache
  add_each-Holds env d nth [] c room h = (c, refl, h, refl)
  add_each-Holds env d nth (n ∷ ns) c room h =
      let (c₁, e₁, h₁, l₁) = add_again (suc (length c.by_time)) c d env.now room h in
      let (c₂, e₂, h₂, l₂) = add_each-Holds env d (suc nth) ns c₁ (omega (arith, l₁)) h₁ in
      (c₂, ground (arith, e₁, e₂), h₂, l₂ ∙ l₁)

  add_each-IsAddable :
      (env : Env M) (d : Data M) (nth : ℕ) (n : Slot (Named M)) (ns : List (Slot (Named M)))
      (c : CacheLru M)
      → IsAddable c d
      → (c' : CacheLru M) × (add_each env d nth (n ∷ ns) (lru c) ≡ some (lru c'))
        × Holds c' d
        × (c'.cache_limit ≡ c.cache_limit)
  unfolding add_in_cache
  add_each-IsAddable env d nth n ns c h =
      let (c₁, value, e₁, h₁, l₁) = add_first c d env.now h in
      let (c₂, e₂, h₂, l₂) = add_each-Holds env d (suc nth) ns c₁ (omega (arith, l₁, h.room)) h₁ in
      (c₂, ground (arith, e₁, e₂), h₂, l₂ ∙ l₁)

module _ {M C : Type 0} (k : Controller C) (make : ℕ → C) (env : Env M) (ifid : ℕ)
    (packet : Arrived M) where
  -- Take a node with its table of pending interests in order, filtering on, and a cache of class
  -- CacheLRU in order, of some room, into which the chunk fits and whose content knows the chunk. It
  -- gets the data of a chunk other than 0 that no entry of the packet's own local socket waits for, and
  -- that at least one entry waits for which is of another node and of another interface than the data's.
  -- The handler does not fault. A copy of the chunk with the path so far goes to each entry alive of the
  -- chunk that is of another node and of another interface than the data's, in the order of the table,
  -- with that entry's port, and nothing else is sent. Just these entries leave the table, which stays in
  -- order. The cache then holds the chunk, in order and with the same limit, and the downloads are left
  -- alone.
  pub process_data-remote :
      (n : Node M C) (c : CacheLru M) (e : Slot (Named M)) (es : List (Slot (Named M)))
      → IsTable n.pit
      → n.pit.filtering ≡ true
      → n.store ≡ lru c
      → IsAddable c (data_of packet)
      → 0 < (data_of packet).chunk_id
      → any_own (data_of packet) (waiting_for n.pit (data_of packet) env.now) ≡ false
      → remote ifid (waiting_for n.pit (data_of packet) env.now) ≡ e ∷ es
      → (n' : Node M C) × (c' : CacheLru M) × (process_data k make env ifid packet n
          ≡ some (n', map (copy_to n.id (data_of packet)) (e ∷ es), 1))
        × (n'.pit.by_name ≡ remove_all (e ∷ es) (live env.now n.pit.by_name))
        × IsTable n'.pit
        × (n'.store ≡ lru c')
        × Holds c' (data_of packet)
        × (c'.cache_limit ≡ c.cache_limit)
        × (n'.sockets ≡ n.sockets)
  process_data-remote n c e es v on stored addable h o wait =
      let d = data_of packet in
      let (c', added, holds, limit) = add_each-IsAddable env d 0 e es c addable in
      let (n', run, gone, order, same, kept) =
        process_data-added k make env ifid packet n (lru c') v on h o (rw (wait, stored) added) in
      (n', c', rw wait at run, rw wait at gone, order, same, holds, limit, kept)
