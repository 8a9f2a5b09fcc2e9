-- ===== src/Node/Answer.antt =====
-- What `CBCBNode::process_interest` does with an interest of another node (CBCBNode.cc), over the
-- theorems of the cache and of the table of pending interests.
use ccnpl_sim.Prelude.{
  ℕ, ◌/◌, ◌<◌, ◌≡◌, refl, sym, subst, inl, inr, if◌then◌else◌, Bool, Bool-cases, not, ◌&&◌, ◌==◌,
  true, false, List, [], ◌∷◌, none, some, decimal, length, arith,
}
use ccnpl_sim.Packets.{Interest, Data, data_of_interest, forward_interest, forward_data}
use ccnpl_sim.Cache.Store.{ContentRecord}
use ccnpl_sim.Cache.Invariant.{IsLinked}
use ccnpl_sim.Cache.Recency.{items, has}
use ccnpl_sim.Cache.Search.{IsKnown, search_by_name-use_item}
use ccnpl_sim.Cache.AddRnd.{rnd_search_by_name-has}
use ccnpl_sim.Pit.Table.{PitTable}
use ccnpl_sim.Pit.Slots.{insert_at}
use ccnpl_sim.Pit.Clean.{IsTable, live}
use ccnpl_sim.Pit.Record.{first_chunk, pending_for, remote_until, new_entry, record_interest-remote}
use ccnpl_sim.Node.Balance.{PrefixTable, fwd_interest}
use ccnpl_sim.Node.State.{
  content_name, Node, Env, interest, data_packet, Effect, queued, ContentStore, no_cache, lru, rnd,
  member, search_in_cache,
}
use ccnpl_sim.Node.Forward.{forward, look_pending, look_cached, process_interest}

module _ {M : Type 0} where
  -- The store is in order, and an interest asks for a chunk that its content has.
  abbrev pub IsReady : ContentStore M → Interest M → Type 0
  IsReady no_cache i = Unit {0}
  IsReady (lru c) i = IsLinked c × IsKnown c i.content_name i.chunk_id (i.data_size / 1000)
  IsReady (rnd c) i =
      IsLinked c
      × ((r : ContentRecord)
          → c.by_name i.content_name ≡ some r
          → i.chunk_id < length r.chunk_bitmap)

  abbrev pub InOrder : ContentStore M → Type 0
  InOrder no_cache = Unit {0}
  InOrder (lru c) = IsLinked c
  InOrder (rnd c) = IsLinked c

  -- Whether the chunk of an interest is in the store.
  abbrev pub held : ContentStore M → Interest M → Bool
  held no_cache i = false
  held (lru c) i = has i.content_name i.chunk_id (items c.by_time)
  held (rnd c) i = has i.content_name i.chunk_id (items c.by_time)

  search_in_cache-held :
      (s : ContentStore M) (i : Interest M) (now : ℕ)
      → IsReady s i
      → (s' : ContentStore M) × (id : ℕ) × (search_in_cache s i now
          ≡ some (s', if held s i then some (data_of_interest id i) else none))
        × InOrder s'
  unfolding search_in_cache
  search_in_cache-held no_cache i now v = (no_cache, 0, refl, tt)
  search_in_cache-held (lru c) i now v =
      let (c', e, w, _, _) = search_by_name-use_item c i now v.0 v.1 in
      (lru c', c.id, ground (arith, e), w)
  search_in_cache-held (rnd c) i now v =
      let (c', e, w, _, _) = rnd_search_by_name-has c i v.0 v.1 in
      (rnd c', c.id, ground (arith, e), w)

  -- Whether a chunk other than 0 is pending under the name of an interest.
  abbrev pub is_pending : PitTable M → Interest M → ℕ → Bool
  is_pending p i now = elim (first_chunk (pending_for p i now)) [ none ↦ false | some _ ↦ true ]

  -- The data that answers an interest out of a node's cache.
  abbrev pub answer : ℕ → Interest M → Data M
  answer id i = forward_data id (data_of_interest id i) i.port (decimal id)

  abbrev pub no_route : Env M → Interest M → Bool
  no_route env i = elim (env.matches i.msg) [ [] ↦ true | _ ∷ _ ↦ false ]

module _ {M C : Type 0} (n : Node M C) (ifid : ℕ) (env : Env M) (i : Interest M) where
  -- What an interest of another node makes a node do.
  abbrev pub reaction : ℕ → List (Effect M)
  reaction out =
      if held n.store i
      then queued ifid (data_packet (answer n.id i)) ∷ []
      else if is_pending n.pit i env.now
      then []
      else if no_route env i
      then []
      else queued out (interest (forward_interest n.id i)) ∷ []

  -- Whether the interest is to be forwarded on interface 0, which has no queue.
  abbrev pub is_lost : ℕ → Bool
  is_lost out =
      not (held n.store i) && not (is_pending n.pit i env.now) && not (no_route env i) && (out == 0)

  -- Which table of pending interests it leaves.
  abbrev pub Recorded : PitTable M → Type 0
  Recorded q =
      if held n.store i
      then q ≡ n.pit
      else q.by_name
        ≡ insert_at (env.slot n.pit.next_name)
            (new_entry n.pit ifid (remote_until n.pit i env.now) i) (live env.now n.pit.by_name)

  -- The interest is forwarded exactly if there is a route, and faults on interface 0.
  forward_lem :
      (m : Node M C) (balance : PrefixTable) (out : ℕ)
      → m.id ≡ n.id
      → 0 < i.chunk_id
      → fwd_interest m.balance (content_name (env.values i.msg) (env.match_len i.msg)) env.choice
        ≡ some (balance, out)
      → (n' : Node M C) × (value : ℕ) × (forward env i m ≡ (
          if not (no_route env i) && (out == 0)
          then none
          else some (
            n',
            (if no_route env i then [] else queued out (interest (forward_interest n.id i)) ∷ []),
            value,
          )))
        × (n'.pit ≡ m.pit)
        × (n'.store ≡ m.store)
        × (n'.sockets ≡ m.sockets)
  unfolding forward
  forward_lem m balance out same chunk route = elim (Bool-cases (no_route env i)) [
    | inl none_left ↦ (m, 0, ground (arith, none_left), refl, refl, refl)
    | inr routed ↦ (
      record m { balance = balance },
      1,
      ground (arith, same, route, routed, chunk),
      refl,
      refl,
      refl,
    )
  ]

  -- Take a node with its table of pending interests in order, filtering on, and a cache that is
  -- ready for the interest. It gets an interest for a chunk other than 0 from another node and does
  -- not match it itself, and the load balancer answers `out` for the prefix. The handler faults
  -- exactly if the cache does not hold the chunk, no such chunk is pending, there is a route, and `out` is
  -- 0, the interface without a queue. Otherwise: if the cache holds the chunk, the data goes back on the interest's interface and the table
  -- stays as it is. Else the interest is recorded beside the entries alive, and it is forwarded on
  -- `out` exactly if no such chunk was pending and there is a route; nothing else is sent. Cache and
  -- table stay in order, and the downloads are left alone.
  pub process_interest-reaction :
      (balance : PrefixTable) (out : ℕ)
      → IsReady n.store i
      → IsTable n.pit
      → n.pit.filtering ≡ true
      → 0 < ifid
      → 0 < i.chunk_id
      → member 0 (env.matches i.msg) ≡ false
      → fwd_interest n.balance (content_name (env.values i.msg) (env.match_len i.msg)) env.choice
        ≡ some (balance, out)
      → (n' : Node M C) × (value : ℕ) × (process_interest ifid env i n
          ≡ (if is_lost out then none else some (n', reaction out, value)))
        × Recorded n'.pit
        × InOrder n'.store
        × IsTable n'.pit
        × (n'.sockets ≡ n.sockets)
  unfolding process_interest look_cached look_pending forward_data data_of_interest
  process_interest-reaction balance out ready v on remote chunk local route =
      let (s', id, e, w) = search_in_cache-held n.store i env.now ready in
      let (q, eq, vq, nq) =
        record_interest-remote n.pit ifid i env.now (env.slot n.pit.next_name) v on remote in
      elim (Bool-cases (held n.store i)) [
        | inl hit ↦
            (record n { store = s' }, 1, ground (arith, e, hit), ground (arith, hit), w, v, refl)
        | inr miss ↦ (elim (Bool-cases (is_pending n.pit i env.now)) [
          | inl filtered ↦ (
            record n { store = s'; pit = q },
            1,
            ground (arith, e, miss, eq, filtered),
            ground (arith, miss, nq),
            w,
            vq,
            refl,
          )
          | inr fresh ↦
              let (n', value, ef, same_pit, same_store, same_sockets) =
                forward_lem (record n { store = s'; pit = q }) balance out refl chunk route in
              (
                n',
                value,
                ground (arith, e, miss, eq, fresh, ef),
                ground (arith, miss, nq, same_pit),
                subst (λ s. InOrder s) (sym same_store) w,
                subst (λ p. IsTable p) (sym same_pit) vq,
                same_sockets,
              )
        ])
      ]
