-- ===== src/Socket/Controller.antt =====
-- `FlowController` of tags/cbcbsim-1.0.2/include/cbcbsim/FlowController.h: what a download asks of
-- the controller of an interface. A timer that a call starts is a number of ticks, `none` for none.
use ccnpl_sim.Prelude.{ℕ, ◌<◌, ◌≡◌, Bool, Option, some, Text}

pub record Controller (C : Type 0) : Type 1 where
  pub ifid : C → ℕ
  -- The slots that are free; a count below 0 is 0, which the caller's loop does not tell from it.
  pub free_slot_win : C → ℕ
  pub received_chunk : C → ℕ → Bool → Text → ℕ → C
  pub receiver_to : C → ℕ → ℕ → C
  pub request_chunk : C → ℕ → ℕ → C × Option ℕ
  -- A chunk to ask for again and the time of its first interest, `none` for a chunk of -1.
  pub timed_out_chunk : C → Option (ℕ × ℕ)
  -- `none` is a fault.
  pub pop_timed_out : C → Option C

-- A controller stays that of its interface.
pub record IsFixed {C : Type 0} (k : Controller C) : Type 0 where
  pub received :
      (c : C) (chunk : ℕ) (again : Bool) (source : Text) (now : ℕ)
      → k.ifid (k.received_chunk c chunk again source now) ≡ k.ifid c
  pub timed_out : (c : C) (chunk now : ℕ) → k.ifid (k.receiver_to c chunk now) ≡ k.ifid c
  pub requested : (c : C) (chunk time : ℕ) → k.ifid (k.request_chunk c chunk time).0 ≡ k.ifid c
  pub popped : (c c' : C) → k.pop_timed_out c ≡ some c' → k.ifid c' ≡ k.ifid c

-- The controllers with a property only ask again for chunks below a bound, and keep the property as
-- long as they are asked for such chunks.
pub record IsWithin {C : Type 0} (k : Controller C) (n : ℕ) (P : C → Type 0) : Type 0 where
  pub asks_again : (c : C) (chunk t : ℕ) → P c → k.timed_out_chunk c ≡ some (chunk, t) → chunk < n
  pub after_arrival :
      (c : C) (chunk : ℕ) (again : Bool) (source : Text) (now : ℕ)
      → P c
      → P (k.received_chunk c chunk again source now)
  pub after_expiry : (c : C) (chunk now : ℕ) → chunk < n → P c → P (k.receiver_to c chunk now)
  pub after_request :
      (c : C) (chunk time : ℕ) → chunk < n → P c → P (k.request_chunk c chunk time).0
  -- Behind a chunk to ask for again a pop does not fault.
  pub after_pop :
      (c : C) (chunk t : ℕ)
      → P c
      → k.timed_out_chunk c ≡ some (chunk, t)
      → (c' : C) × (k.pop_timed_out c ≡ some c') × P c'
