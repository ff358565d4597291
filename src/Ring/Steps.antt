-- ===== src/Ring/Steps.antt =====
-- The ring of src/om_worker.c shared by its producer and its consumers: a state, and the steps
-- that the threads take in any order. A waiting loop takes one round to a step; a consumer's call
-- is one step, which is what it looks like to the producer, since it publishes its tail last.
use veloxmatch.Base.{
  ℕ, ◌+◌, ◌≡◌, ◌≢◌, Bool, true, false, Option, none, some, List, [], ◌∷◌, ◌++◌, Array, update,
}
use veloxmatch.Base.Result.{ok}
use veloxmatch.Ring.{Ring, register_consumer, room_round, publish_round, dequeue, dequeue_batch}

-- Where the producer is in `om_market_ring_enqueue`.
pub data Phase : Type 0 where
  idle : Phase
  for_room : ℕ → ℕ → Phase
  for_slot : ℕ → Phase

-- `log` is every pointer published so far, `received c` what consumer `c` got since it registered.
pub record System : Type 0 where
  pub ring : Ring
  pub phase : Phase
  pub log : List ℕ
  pub received : Array (List ℕ)

abbrev pub start : Ring → System
start r = record { ring = r; phase = Phase.idle; log = []; received = λ c. [] }

abbrev pub in_list : Option ℕ → List ℕ
in_list none = []
in_list (some p) = p ∷ []

pub data Step : System → System → Type 0 where
  call :
      (s : System) (p : ℕ)
      → s.phase ≡ Phase.idle
      → p ≢ 0
      → Step s (record s { phase = Phase.for_room p 0 })
  no_room :
      (s : System) (p spins : ℕ) (r : Ring)
      → s.phase ≡ Phase.for_room p spins
      → room_round s.ring spins ≡ (false, r)
      → Step s (record s { ring = r; phase = Phase.for_room p (spins + 1) })
  room :
      (s : System) (p spins : ℕ) (r : Ring)
      → s.phase ≡ Phase.for_room p spins
      → room_round s.ring spins ≡ (true, r)
      → Step s (record s { ring = r; phase = Phase.for_slot p })
  slot_taken :
      (s : System) (p : ℕ) → s.phase ≡ Phase.for_slot p → publish_round s.ring p ≡ none → Step s s
  publish :
      (s : System) (p : ℕ) (r : Ring) (woken : Bool)
      → s.phase ≡ Phase.for_slot p
      → publish_round s.ring p ≡ some (r, woken)
      → Step s (record s { ring = r; phase = Phase.idle; log = s.log ++ (p ∷ []) })
  register :
      (s : System) (c : ℕ) (r : Ring)
      → register_consumer s.ring c ≡ ok r
      → Step s (record s { ring = r; received = update s.received c [] })
  take :
      (s : System) (c : ℕ) (o : Option ℕ) (r : Ring)
      → dequeue s.ring c ≡ ok (o, r)
      → Step s (record s { ring = r; received = update s.received c (s.received c ++ in_list o) })
  take_batch :
      (s : System) (c n : ℕ) (ps : List ℕ) (r : Ring)
      → dequeue_batch s.ring c n ≡ ok (ps, r)
      → Step s (record s { ring = r; received = update s.received c (s.received c ++ ps) })

pub data Reach (s : System) : System → Type 0 where
  here : Reach s s
  next : {t u : System} → Reach s t → Step t u → Reach s u
