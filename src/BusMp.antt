-- ===== src/BusMp.antt =====
-- src/om_bus_mp.c and include/ombus/om_bus_mp.h: the bus of many producers and one consumer in
-- shared memory, its layout and the calls of the producers. The mapped memory is one record, each
-- slot a record of its header and its payload; the atomic counters are 64 bits wide.
pub mod Consumer
pub mod Steps
pub mod Window
pub mod Claiming
pub mod Producing
pub mod Consuming
pub mod Delivery
pub mod Batch
pub mod Hazards
mod Tests
use veloxmatch.Base.{
  ℕ, zero, suc, ◌+◌, ◌-◌, ◌*◌, ◌/◌, ◌%◌, ◌^◌, Bool, true, false, not, ◌&&◌, ◌||◌, Option, none,
  some, List, [], length, ltb, leb, ◌==◌, if◌then◌else◌, Array, update, set_below, add64, sub64,
  add32, bit_and, u16_mod,
}
use veloxmatch.Base.Bits.{is_power_of_two}
use veloxmatch.Base.Result.{Result, ok, err}

-- `OmBusMpError`
pub data BusError : Type 0 where
  bad_init not_pow2 record_too_large full bad_producer_id bad_magic bad_version : BusError
  slot_poisoned bad_alignment : BusError

-- `OmBusMpConfig`
pub record Config : Type 0 where
  pub capacity : ℕ
  pub slot_size : ℕ
  pub max_producers : ℕ
  pub skip_timeout_ns : ℕ

-- `OmBusMpSlot` and the bytes of the payload behind it
pub record Slot : Type 0 where
  pub seq : ℕ
  pub producer_id : ℕ
  pub payload_len : ℕ
  pub sequence : ℕ
  pub payload : List ℕ

-- `OmBusMpProducerCounter`
pub record Counter : Type 0 where
  pub published : ℕ
  pub full_rejects : ℕ
  pub poisoned_rejects : ℕ

-- `OmBusMpHeader` with the counters of the producers and the slots
pub record Bus : Type 0 where
  pub magic : ℕ
  pub version : ℕ
  pub capacity : ℕ
  pub slot_size : ℕ
  pub max_producers : ℕ
  pub notify_seq : ℕ
  pub waiters : ℕ
  pub skip_timeout_ns : ℕ
  pub enqueue_pos : ℕ
  pub dequeue_pos : ℕ
  pub records_published : ℕ
  pub full_rejects : ℕ
  pub poisoned_rejects : ℕ
  pub skipped_sequences : ℕ
  pub counters : Array Counter
  pub slots : Array Slot

-- `OmBusMpProducer`
pub record Producer : Type 0 where
  pub producer_id : ℕ
  pub capacity : ℕ
  pub mask : ℕ
  pub slot_size : ℕ
  pub max_payload : ℕ

-- `OmBusMpClaim`; `slot` is an index.
pub record Claim : Type 0 where
  pub sequence : ℕ
  pub producer_id : ℕ
  pub payload_len : ℕ
  pub max_payload : ℕ
  pub slot : ℕ

-- OM_BUS_MP_CACHELINE_SIZE, OM_BUS_MP_SLOT_HEADER_SIZE, OM_BUS_MP_MAGIC, OM_BUS_MP_VERSION and
-- OM_BUS_MP_DEFAULT_SKIP_TIMEOUT_NS
abbrev pub cacheline_size : ℕ
cacheline_size = 64

abbrev pub slot_header_size : ℕ
slot_header_size = 24

abbrev pub bus_magic : ℕ
bus_magic = 0x4F4D4250

abbrev pub bus_version : ℕ
bus_version = 1

abbrev pub default_skip_timeout_ns : ℕ
default_skip_timeout_ns = 100000

-- `_om_bus_mp_validate_config`
unfoldable pub validate_config : Config → Option BusError
validate_config config =
    if not (is_power_of_two config.capacity)
    then some BusError.not_pow2
    else if ltb config.slot_size (slot_header_size + 1)
    then some BusError.bad_init
    else if not (config.slot_size % cacheline_size == 0)
    then some BusError.bad_alignment
    else if config.max_producers == 0
    then some BusError.bad_init
    else none

-- `_om_bus_mp_align_up` to a cacheline, with its mask of ones as a quotient
abbrev pub align_up : ℕ → ℕ
align_up v = (v + (cacheline_size - 1)) / cacheline_size * cacheline_size

-- `_om_bus_mp_slots_offset`: five cachelines of header, and one for each producer
abbrev pub slots_offset : ℕ → ℕ
slots_offset max_producers =
    align_up (align_up (5 * cacheline_size) + max_producers * cacheline_size)

-- `om_bus_mp_size`
unfoldable pub bus_size : Config → ℕ
bus_size config = elim (validate_config config) [
  | some e ↦ 0
  | none ↦ slots_offset config.max_producers + config.capacity * config.slot_size
]

abbrev pub chosen_timeout : Config → ℕ
chosen_timeout config =
    if config.skip_timeout_ns == 0 then default_skip_timeout_ns else config.skip_timeout_ns

-- A slot after the `memset`
abbrev pub zeroed : Slot
zeroed = record { seq = 0; producer_id = 0; payload_len = 0; sequence = 0; payload = [] }

-- The memory that `om_bus_mp_init` leaves: its loop numbers the slots, the counters stay 0.
abbrev pub fresh : Config → Bus
fresh config = record {
  magic = bus_magic;
  version = bus_version;
  capacity = config.capacity;
  slot_size = config.slot_size;
  max_producers = config.max_producers;
  notify_seq = 0;
  waiters = 0;
  skip_timeout_ns = chosen_timeout config;
  enqueue_pos = 0;
  dequeue_pos = 0;
  records_published = 0;
  full_rejects = 0;
  poisoned_rejects = 0;
  skipped_sequences = 0;
  counters = λ i. record { published = 0; full_rejects = 0; poisoned_rejects = 0 };
  slots = set_below config.capacity (λ i. record zeroed { seq = i }) (λ i. zeroed);
}

-- `om_bus_mp_init`, with the alignment and the size of the memory
unfoldable pub init : Bool → ℕ → Config → Result BusError Bus
init aligned memory_size config = elim (validate_config config) [
  | some e ↦ err e
  | none ↦
      if not aligned
      then err BusError.bad_alignment
      else if ltb memory_size (bus_size config)
      then err BusError.bad_init
      else ok (fresh config)
]

-- `_om_bus_mp_validate_header`
abbrev pub validate_header : Bool → Bus → Option BusError
validate_header aligned b =
    if not aligned
    then some BusError.bad_alignment
    else if not (b.magic == bus_magic)
    then some BusError.bad_magic
    else if not (b.version == bus_version)
    then some BusError.bad_version
    else none

-- `om_bus_mp_validate_mapping`: true if it accepts
abbrev pub validate_mapping : Bus → ℕ → Config → Bool
validate_mapping b size config =
    leb (5 * cacheline_size) size
    && (b.magic == bus_magic)
    && (b.version == bus_version)
    && (b.capacity == config.capacity)
    && (b.slot_size == config.slot_size)
    && (b.max_producers == config.max_producers)
    && (b.skip_timeout_ns == chosen_timeout config)
    && (bus_size config == size)

-- `om_bus_mp_producer_open`
unfoldable pub producer_open : Bool → Bus → ℕ → Result BusError Producer
producer_open aligned b producer_id = elim (validate_header aligned b) [
  | some e ↦ err e
  | none ↦
      if leb b.max_producers producer_id
      then err BusError.bad_producer_id
      else ok (record {
        producer_id = producer_id;
        capacity = b.capacity;
        mask = b.capacity - 1;
        slot_size = b.slot_size;
        max_payload = b.slot_size - slot_header_size;
      })
]

-- Where a round of the loop of `om_bus_mp_claim` ends: it has claimed a position, the ring is full,
-- or it tries again.
pub data ClaimRound : Type 0 where
  claimed : (pos : ℕ) → ClaimRound
  ring_full retry : ClaimRound

abbrev pub count_full : Bus → ℕ → Bus
count_full b id =
    let counter = b.counters id in
    record b {
      full_rejects = add64 b.full_rejects 1;
      counters =
          update b.counters id (record counter { full_rejects = add64 counter.full_rejects 1 });
    }

-- A round of the loop of `om_bus_mp_claim`, in which no other thread comes between the loads and
-- the exchange; `spurious` tells whether the weak exchange fails all the same, as it also does when
-- another producer was first. The sign of the difference is that of 64 bits.
unfoldable pub claim_round : Bus → Producer → Bool → ClaimRound × Bus
claim_round b p spurious =
    let pos = b.enqueue_pos in
    let diff = sub64 (b.slots (bit_and pos p.mask)).seq pos in
    if diff == 0
    then (if spurious then (retry, b) else (claimed pos, record b { enqueue_pos = add64 pos 1 }))
    else if leb (2 ^ 63) diff
    then (ring_full, count_full b p.producer_id)
    else (retry, b)

-- The end of `om_bus_mp_claim`: the header of the slot is written.
abbrev pub describe : Bus → Producer → ℕ → ℕ → Bus
describe b p pos payload_len =
    let i = bit_and pos p.mask in
    record b {
      slots = update b.slots i (record (b.slots i) {
        sequence = pos;
        producer_id = p.producer_id;
        payload_len = payload_len;
      });
    }

abbrev pub claim_at : Producer → ℕ → ℕ → Claim
claim_at p pos payload_len = record {
  sequence = pos;
  producer_id = p.producer_id;
  payload_len = payload_len;
  max_payload = p.max_payload % u16_mod;
  slot = bit_and pos p.mask;
}

-- `om_bus_mp_claim` when no other thread interferes, none if it tries for ever
unfoldable pub claim : Bus → Producer → ℕ → Option (Result BusError Claim) × Bus
claim b p payload_len =
    if ltb p.max_payload payload_len
    then (some (err BusError.record_too_large), b)
    else elim (claim_round b p false).0 [
      | claimed pos ↦ (
        some (ok (claim_at p pos payload_len)),
        describe (claim_round b p false).1 p pos payload_len,
      )
      | ring_full ↦ (some (err BusError.full), (claim_round b p false).1)
      | retry ↦ (none, (claim_round b p false).1)
    ]

-- The copy of the payload into the slot of a claim
abbrev pub fill : Bus → Claim → List ℕ → Bus
fill b c payload = record b {
  slots = update b.slots c.slot (record (b.slots c.slot) { payload = payload });
}

-- `_om_bus_mp_notify_publish`, without the call that wakes the waiting threads
abbrev pub notify_publish : Bus → Bus
notify_publish b = if b.waiters == 0 then b else record b { notify_seq = add32 b.notify_seq 1 }

-- `om_bus_mp_commit`: none, or its error
unfoldable pub commit : Bus → Producer → Claim → Option BusError × Bus
commit b p c =
    let slot = b.slots c.slot in
    let counter = b.counters p.producer_id in
    if not (slot.seq == c.sequence)
    then (
      some BusError.slot_poisoned,
      record b {
        poisoned_rejects = add64 b.poisoned_rejects 1;
        counters =
            update b.counters p.producer_id
              (record counter { poisoned_rejects = add64 counter.poisoned_rejects 1 });
      },
    )
    else (
      none,
      notify_publish (record b {
        slots = update b.slots c.slot (record slot { seq = add64 c.sequence 1 });
        records_published = add64 b.records_published 1;
        counters =
            update b.counters p.producer_id
              (record counter { published = add64 counter.published 1 });
      }),
    )

-- `om_bus_mp_publish`: the sequence number or the error
unfoldable pub publish : Bus → Producer → List ℕ → Option (Result BusError ℕ) × Bus
publish b p payload = elim (claim b p (length payload)).0 [
  | none ↦ (none, (claim b p (length payload)).1)
  | some (err e) ↦ (some (err e), (claim b p (length payload)).1)
  | some (ok c) ↦
      let (error, after) = commit (fill (claim b p (length payload)).1 c payload) p c in
      (elim error [ some e ↦ some (err e) | none ↦ some (ok c.sequence) ], after)
]
