-- ===== src/BusMp/Steps.antt =====
-- src/om_bus_mp.c: the bus as its producers and its consumer use it, in any order. A round of the
-- loop of `om_bus_mp_claim` is one step, the writes of a claimant into its slot another, and
-- `om_bus_mp_commit` and the calls of the consumer one each: what they read and write lies between
-- one load and one store or exchange of the same word.
use veloxmatch.Base.{
  ℕ, ◌-◌, ◌^◌, ◌≤◌, ◌<◌, ◌≡◌, ◌≢◌, Bool, Option, none, some, List, [], ◌∷◌, ◌++◌, length, Array,
  update,
}
use veloxmatch.BusMp.{
  Bus, BusError, Producer, ClaimRound, claim_round, describe, claim_at, fill, commit,
}
use veloxmatch.BusMp.Consumer.{Consumer, Poll, empty, delivered, skipped, poll_impl}

-- What a claimant writes.
pub record Offer : Type 0 where
  pub producer_id : ℕ
  pub payload_len : ℕ
  pub payload : List ℕ

-- `offers k` is what the claimant of position `k` has written; `outcomes` what the consumer was told
-- for each position, in order, with the `room` of the call.
pub record System : Type 0 where
  pub bus : Bus
  pub consumer : Consumer
  pub offers : Array (Option Offer)
  pub outcomes : List (Option ℕ × Poll)

abbrev pub start : Bus → Consumer → System
start b c = record { bus = b; consumer = c; offers = λ k. none; outcomes = [] }

-- A poll that finds nothing is not an outcome.
abbrev pub outcome : Option ℕ → Poll → List (Option ℕ × Poll)
outcome room empty = []
outcome room (delivered r) = (room, delivered r) ∷ []
outcome room (skipped r) = (room, skipped r) ∷ []

-- The bus after a claimant has written header and payload.
abbrev pub written : Bus → Producer → ℕ → List ℕ → Bus
written b p pos payload =
    fill (describe b p pos (length payload)) (claim_at p pos (length payload)) payload

-- A producer of the bus, as `om_bus_mp_producer_open` makes it
pub record IsProducer (b : Bus) (p : Producer) : Type 0 where
  pub masked : p.mask ≡ b.capacity - 1

-- The steps. A claimant writes once, before its position is passed over, and commits after that,
-- late or not. Positions stay below 2 ^ 62.
pub data Step : System → System → Type 0 where
  claims :
      (s : System) (p : Producer) (spurious : Bool) (round : ClaimRound) (b : Bus)
      → IsProducer s.bus p
      → claim_round s.bus p spurious ≡ (round, b)
      → b.enqueue_pos < 2 ^ 62
      → Step s (record s { bus = b })
  writes :
      (s : System) (p : Producer) (pos : ℕ) (payload : List ℕ)
      → IsProducer s.bus p
      → pos < s.bus.enqueue_pos
      → s.bus.dequeue_pos ≤ pos
      → s.offers pos ≡ none
      → Step s (record s {
        bus = written s.bus p pos payload;
        offers = update s.offers pos (
            some (record {
              producer_id = p.producer_id;
              payload_len = length payload;
              payload = payload;
            }));
      })
  commits :
      (s : System) (p : Producer) (pos payload_len : ℕ) (error : Option BusError) (b : Bus)
      → IsProducer s.bus p
      → pos < s.bus.enqueue_pos
      → s.offers pos ≢ none
      → commit s.bus p (claim_at p pos payload_len) ≡ (error, b)
      → Step s (record s { bus = b })
  polls :
      (s : System) (room : Option ℕ) (now : ℕ) (result : Poll) (b : Bus) (c : Consumer)
      → poll_impl s.bus s.consumer room now ≡ (result, b, c)
      → Step s (record s { bus = b; consumer = c; outcomes = s.outcomes ++ outcome room result })

pub data Reach (s : System) : System → Type 0 where
  here : Reach s s
  next : {t u : System} → Reach s t → Step t u → Reach s u
