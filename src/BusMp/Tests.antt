-- ===== src/BusMp/Tests.antt =====
-- The bus of src/om_bus_mp.c at a small size, and its theorems there.
use veloxmatch.Base.{
  update, ℕ, ◌+◌, ◌-◌, ◌^◌, ◌≤◌, ◌≡◌, refl, true, false, none, some, [], ◌∷◌, arith, add64,
}
use veloxmatch.Base.Result.{ok}
use veloxmatch.BusMp.{
  Bus, BusError, Config, Producer, init, fresh, validate_config, bus_size, validate_mapping,
  producer_open, claim, claimed, claim_round, claim_at, commit, describe, publish,
}
use veloxmatch.BusMp.Consumer.{
  Poll, Consumer, Record, empty, delivered, skipped, skip_record, release, consumer_open,
  poll_blocked, poll_impl, poll_batch,
}
use veloxmatch.BusMp.Steps.{written, System, start, Reach, here, next, claims, polls, IsProducer}
use veloxmatch.BusMp.Delivery.{IsOpened, claimed_apart, commit_late, Claims, claim-Claims}
use veloxmatch.BusMp.Batch.{poll_many, poll_batch-poll_many, init-validate_mapping}
use veloxmatch.BusMp.Hazards.{capacity_one, describe_late}

abbrev two_slots : Config
two_slots = record { capacity = 2; slot_size = 64; max_producers = 1; skip_timeout_ns = 0 }

abbrev two_bus : Bus
two_bus = fresh two_slots

abbrev first_producer : Producer
first_producer = record {
  producer_id = 0;
  capacity = 2;
  mask = 1;
  slot_size = 64;
  max_payload = 40;
}

abbrev two_consumer : Consumer
two_consumer = record {
  capacity = 2;
  mask = 1;
  slot_size = 64;
  skip_timeout_ns = 100000;
  blocked_sequence = 2 ^ 64 - 1;
  blocked_since_ns = 0;
}

opens :
    (init true 576 two_slots ≡ ok two_bus)
    × (producer_open true two_bus 0 ≡ ok first_producer)
    × (consumer_open true two_bus ≡ ok two_consumer)
unfolding init validate_config bus_size producer_open consumer_open
opens = (refl, refl, refl)

-- A record goes through.
goes_through :
    ((publish two_bus first_producer (7 ∷ [])).0 ≡ some (ok 0))
    × ((poll_impl (publish two_bus first_producer (7 ∷ [])).1 two_consumer none 5).0
        ≡ delivered
            (record { sequence = 0; producer_id = 0; payload_len = 1; payload = some (7 ∷ []) }))
unfolding publish claim claim_round commit poll_impl
goes_through = (refl, refl)

two-IsOpened : IsOpened two_slots two_bus two_consumer
two-IsOpened = record {
  bus = (576, opens.0);
  consumer = opens.2;
  small = omega arith;
  large = omega arith;
}

first-IsProducer : IsProducer two_bus first_producer
first-IsProducer = record { masked = refl }

abbrev one_claim : Bus
one_claim = record two_bus { enqueue_pos = 1 }

first_round : claim_round two_bus first_producer false ≡ (claimed 0, one_claim)
unfolding claim_round
first_round = refl

abbrev claimed_system : System
claimed_system = record (start two_bus two_consumer) { bus = one_claim }

claimed-Reach : Reach (start two_bus two_consumer) claimed_system
claimed-Reach = next here (
    claims (start two_bus two_consumer) first_producer false (claimed 0) one_claim first-IsProducer
      first_round (omega arith))

-- The consumer waits for the claimant, and passes the position over after the timeout.
abbrev waiting : Consumer
waiting = record two_consumer { blocked_sequence = 0; blocked_since_ns = 5 }

waits : poll_impl one_claim two_consumer none 5 ≡ (empty, one_claim, waiting)
unfolding poll_impl poll_blocked
waits = refl

abbrev after_skip : Bus
after_skip = record (release one_claim waiting 0) { skipped_sequences = 1 }

skips :
    poll_impl one_claim waiting none 200000 ≡ (skipped (skip_record 0), after_skip, two_consumer)
unfolding poll_impl poll_blocked
skips = refl

abbrev skipped_system : System
skipped_system = record (start two_bus two_consumer) {
  bus = after_skip;
  outcomes = (none, skipped (skip_record 0)) ∷ [];
}

skipped-Reach : Reach (start two_bus two_consumer) skipped_system
skipped-Reach =
    next (next claimed-Reach (polls claimed_system none 5 empty one_claim waiting waits)) (
      polls (record claimed_system { consumer = waiting }) none 200000 (skipped (skip_record 0))
        after_skip two_consumer skips)

-- The claimant writes and commits, and the consumer gets the record.
abbrev offered_system : System
offered_system = record claimed_system {
  bus = written one_claim first_producer 0 (7 ∷ []);
  offers =
      update claimed_system.offers 0
        (some (record { producer_id = 0; payload_len = 1; payload = 7 ∷ [] }));
}

abbrev committed : Bus
committed = (commit offered_system.bus first_producer (claim_at first_producer 0 1)).1

abbrev told : Poll × Bus × Consumer
told = poll_impl committed two_consumer none 5

abbrev delivered_system : System
delivered_system = record offered_system {
  bus = told.1;
  consumer = told.2;
  outcomes = (none, told.0) ∷ [];
}

abbrev seventh : Poll
seventh =
    delivered (record { sequence = 0; producer_id = 0; payload_len = 1; payload = some (7 ∷ []) })

delivers : (told.0 ≡ seventh) × (committed.enqueue_pos ≡ 1)
unfolding poll_impl commit
delivers = (refl, refl)

commit_late_example :
    let (error, after) = commit after_skip first_producer (claim_at first_producer 0 3) in
    (error ≡ some BusError.slot_poisoned)
    × (after.slots ≡ after_skip.slots)
    × (after.enqueue_pos ≡ after_skip.enqueue_pos)
    × (after.dequeue_pos ≡ after_skip.dequeue_pos)
commit_late_example =
    commit_late two_slots two_bus two_consumer skipped_system first_producer 0 3 two-IsOpened
      skipped-Reach (record { masked = refl }) (omega arith)

abbrev zero_position : ℕ
zero_position = 0

claimed_apart_example :
    (claimed_system.bus.enqueue_pos ≤ claimed_system.bus.dequeue_pos + claimed_system.bus.capacity)
    × (zero_position ≡ zero_position)
claimed_apart_example =
    claimed_apart two_slots two_bus two_consumer claimed_system 0 0 two-IsOpened claimed-Reach
      (omega arith) (omega arith) (omega arith) (omega arith) refl

claim-Claims_example : Claims claimed_system first_producer 3 (claim one_claim first_producer 3)
claim-Claims_example =
    claim-Claims two_slots two_bus two_consumer claimed_system first_producer 3 two-IsOpened
      claimed-Reach (record { masked = refl })

poll_batch-poll_many_example :
    poll_batch one_claim two_consumer 3 ≡ poll_many 3 one_claim two_consumer 9
poll_batch-poll_many_example = poll_batch-poll_many 3 one_claim two_consumer 9

init-validate_mapping_example : validate_mapping two_bus (bus_size two_slots) two_slots ≡ true
init-validate_mapping_example = init-validate_mapping two_slots 576 two_bus opens.0

-- A bus of one slot, with one committed record
abbrev one_slot : Bus
one_slot = record (fresh (record two_slots { capacity = 1 })) {
  enqueue_pos = 1;
  slots = λ i. record { seq = 1; producer_id = 0; payload_len = 0; sequence = 0; payload = [] };
}

abbrev lone_producer : Producer
lone_producer = record first_producer { capacity = 1; mask = 0 }

capacity_one_example :
    claim_round one_slot lone_producer false
    ≡ (claimed 1, record one_slot { enqueue_pos = add64 1 1 })
capacity_one_example = capacity_one one_slot lone_producer refl refl refl (omega arith)

-- Position 2 is committed in the slot that position 0 had.
abbrev second_lap : Bus
second_lap = record two_bus {
  enqueue_pos = 3;
  dequeue_pos = 2;
  slots = λ i. record { seq = 3; producer_id = 1; payload_len = 2; sequence = 2; payload = [] };
}

describe_late_example :
    (r : Record) × ((poll_impl (describe second_lap first_producer 0 5) two_consumer none 9).0
      ≡ delivered r)
    × (r.sequence ≡ 0)
    × (r.producer_id ≡ first_producer.producer_id)
    × (r.payload_len ≡ 5)
describe_late_example = describe_late second_lap first_producer two_consumer 0 5 9 refl refl
