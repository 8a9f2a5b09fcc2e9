-- ===== src/Node/Ports.antt =====
-- The search of a free port in `CCNxNode::open_socket` (CCNxNode.cc).
use ccnpl_sim.Prelude.{
  ℕ, zero, suc, ◌≤◌, ◌<◌, ◌≡◌, refl, subst, ◌∙◌, ◌==◌, if◌then◌else◌, Bool, Bool-cases, inl, inr,
  true, false, List, [], ◌∷◌, ◌++◌, none, some, Text, text_eq, text_eq_iff, text_eq_refl, codes,
  decimal, decimal_injective, append_cancel, length, map, arith,
}
use ccnpl_sim.Packets.{Info}
use ccnpl_sim.Socket.Controller.{Controller}
use ccnpl_sim.Socket.Manager.{Manager, new_manager}
use ccnpl_sim.Node.State.{Node, Env, Effect, cbr_timer, socket_address, find_socket, erase_socket}
use ccnpl_sim.Node.Download.{free_port, open_socket}

socket_address_injective :
    (name : Text) (p q : ℕ) → socket_address name p ≡ socket_address name q → p ≡ q
socket_address_injective name p q e = decimal_injective p q (
    append_cancel (codes "/port:") (decimal p) (decimal q)
      (append_cancel name (codes "/port:" ++ decimal p) (codes "/port:" ++ decimal q) e))

later_address :
    (name : Text) (p q : ℕ)
    → p < q
    → text_eq (socket_address name p) (socket_address name q) ≡ false
later_address name p q h =
    elim (Bool-cases (text_eq (socket_address name p) (socket_address name q))) [
      | inr different ↦ different
      | inl same ↦
          let e =
            socket_address_injective name p q
              ((text_eq_iff (socket_address name p) (socket_address name q)).0 same) in
          absurd (omega (arith, e))
    ]

module _ {M C : Type 0} where
  -- Whether an address is that of a download.
  abbrev pub is_used : Text → List (Text × Manager M C) → Bool
  is_used a [] = false
  is_used a ((b, m) ∷ l) = if text_eq b a then true else is_used a l

  find_socket-is_used :
      (a : Text) (l : List (Text × Manager M C))
      → is_used a l ≡ true
      → (m : Manager M C) × (find_socket a l ≡ some m)
  unfolding find_socket
  find_socket-is_used a [] h = cc
  find_socket-is_used a ((b, o) ∷ l) h = elim (Bool-cases (text_eq b a)) [
    | inl here ↦ (o, ground arith)
    | inr there ↦ let (m, e) = find_socket-is_used a l (ground arith) in (m, ground arith)
  ]

  find_socket-unused :
      (a : Text) (l : List (Text × Manager M C)) → is_used a l ≡ false → find_socket a l ≡ none
  unfolding find_socket
  find_socket-unused a [] h = refl
  find_socket-unused a ((b, o) ∷ l) h = ground (arith, find_socket-unused a l)

  erase_socket-length :
      (a : Text) (l : List (Text × Manager M C))
      → is_used a l ≡ true
      → suc (length (erase_socket a l)) ≡ length l
  unfolding erase_socket
  erase_socket-length a [] h = cc
  erase_socket-length a ((b, o) ∷ l) h = ground (arith, erase_socket-length a l)

  is_used-erase :
      (a c : Text) (l : List (Text × Manager M C))
      → text_eq a c ≡ false
      → is_used c (erase_socket a l) ≡ is_used c l
  unfolding erase_socket
  is_used-erase a c [] h = refl
  is_used-erase a c ((b, o) ∷ l) h =
      ground (arith, is_used-erase a c l h, text_eq_iff b a, text_eq_iff b c)

  used_before :
      (name : Text) (port r : ℕ) (sockets : List (Text × Manager M C))
      → is_used (socket_address name port) sockets ≡ true
      → ((q : ℕ) → suc port ≤ q → q < r → is_used (socket_address name q) sockets ≡ true)
      → (q : ℕ) → port ≤ q
      → q < r
      → is_used (socket_address name q) sockets ≡ true
  used_before name port r sockets used before q a b = elim (Bool-cases (port == q)) [
    | inl same ↦
        let e : port ≡ q = ground arith in
        subst (λ x. is_used (socket_address name x) sockets ≡ true) e used
    | inr other ↦ before q (ground arith) b
  ]

  -- With more fuel than there are downloads whose addresses matter from a port on, a free port is
  -- found, the first one.
  free_port_total :
      (fuel : ℕ) (name : Text) (port : ℕ) (sockets l : List (Text × Manager M C))
      → length l < fuel
      → ((q : ℕ)
          → port ≤ q
          → is_used (socket_address name q) sockets ≡ true
          → is_used (socket_address name q) l ≡ true)
      → (r : ℕ) × (free_port fuel name port sockets ≡ some r)
        × (port ≤ r)
        × (is_used (socket_address name r) sockets ≡ false)
        × ((q : ℕ) → port ≤ q → q < r → is_used (socket_address name q) sockets ≡ true)
  unfolding free_port
  free_port_total zero name port sockets l h all = absurd (omega arith)
  free_port_total (suc fuel) name port sockets l h all =
      elim (Bool-cases (is_used (socket_address name port) sockets)) [
        | inr free ↦ (
          port,
          ground (arith, find_socket-unused (socket_address name port) sockets free),
          omega arith,
          free,
          λ q a b. absurd (omega arith),
        )
        | inl used ↦
            let here = all port (omega arith) used in
            let (m, found) = find_socket-is_used (socket_address name port) sockets used in
            let (r, e, le, free, before) =
              free_port_total fuel name (suc port) sockets
                (erase_socket (socket_address name port) l)
                (omega (arith, erase_socket-length (socket_address name port) l here))
                (λ q lt u.
                  is_used-erase (socket_address name port) (socket_address name q) l
                    (later_address name port q (omega arith))
                  ∙ all q (omega arith) u) in
            (
              r,
              ground (arith, found, e),
              omega arith,
              free,
              λ q a b. used_before name port r sockets used before q a b,
            )
      ]

module _ {M C : Type 0} (k : Controller C) where
  -- `open_socket` comes to an end without a fault, within one more round than there are downloads. Its
  -- port is the least that no download of the content uses. The new download is found under its
  -- address, and nothing changes for the other addresses.
  pub open_socket-port :
      (make : ℕ → C) (env : Env M) (packet : Info M) (matches : List ℕ) (n : Node M C)
      → (n' : Node M C) × (port : ℕ) × (opened : List (Effect M)) × (open_socket k make env packet
            matches n
          ≡ some (n', port, opened))
        × (find_socket (socket_address packet.content_name port) n.sockets ≡ none)
        × ((q : ℕ) → q < port → is_used (socket_address packet.content_name q) n.sockets ≡ true)
        × (find_socket (socket_address packet.content_name port) n'.sockets
            ≡ some (new_manager k make n.id packet port matches env.now))
        × ((a : Text)
            → text_eq (socket_address packet.content_name port) a ≡ false
            → find_socket a n'.sockets ≡ find_socket a n.sockets)
  unfolding open_socket find_socket
  open_socket-port make env packet matches n =
      let (port, e, le, free, before) =
        free_port_total (suc (length n.sockets)) packet.content_name 0 n.sockets n.sockets
          (omega arith) (λ q a u. u) in
      let address = socket_address packet.content_name port in
      let m = new_manager k make n.id packet port matches env.now in
      (
        record n { sockets = (address, m) ∷ n.sockets },
        port,
        if n.options.cbr_control then map (λ ifid. cbr_timer ifid address env.now) matches else [],
        ground (arith, e),
        find_socket-unused address n.sockets free,
        (λ q lt. before q (omega arith) lt),
        ground (arith, text_eq_refl address),
        (λ a other. ground arith),
      )
