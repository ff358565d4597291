-- ===== src/BusMp/Consumer.antt =====
-- src/om_bus_mp.c: the calls of the consumer of the bus. The clock is an argument.
use veloxmatch.Base.{
  ℕ, zero, suc, ◌-◌, Bool, not, ◌&&◌, Option, none, some, List, [], ◌∷◌, ltb, leb, ◌==◌,
  if◌then◌else◌, update, add64, sub64, bit_and, uint32_max, uint64_max,
}
use veloxmatch.Base.Result.{Result, ok, err}
use veloxmatch.BusMp.{Bus, BusError, Slot, slot_header_size, validate_header}

-- `OmBusMpConsumer`
pub record Consumer : Type 0 where
  pub capacity : ℕ
  pub mask : ℕ
  pub slot_size : ℕ
  pub skip_timeout_ns : ℕ
  pub blocked_sequence : ℕ
  pub blocked_since_ns : ℕ

-- `OmBusMpRecord`; the payload is none for NULL.
pub record Record : Type 0 where
  pub sequence : ℕ
  pub producer_id : ℕ
  pub payload_len : ℕ
  pub payload : Option (List ℕ)

-- `OmBusMpPollResult`, with the record that was written
pub data Poll : Type 0 where
  empty : Poll
  delivered skipped : Record → Poll

-- `om_bus_mp_consumer_open`
unfoldable pub consumer_open : Bool → Bus → Result BusError Consumer
consumer_open aligned b = elim (validate_header aligned b) [
  | some e ↦ err e
  | none ↦ ok (record {
    capacity = b.capacity;
    mask = b.capacity - 1;
    slot_size = b.slot_size;
    skip_timeout_ns = b.skip_timeout_ns;
    blocked_sequence = uint64_max;
    blocked_since_ns = 0;
  })
]

-- The record of a slot; with a copy into a buffer of `room` bytes, no payload that is too long.
abbrev pub record_of : Consumer → Option ℕ → Slot → Record
record_of c room slot = record {
  sequence = slot.sequence;
  producer_id = slot.producer_id;
  payload_len = slot.payload_len;
  payload = elim room [
    | none ↦ some slot.payload
    | some capacity ↦
        if leb slot.payload_len capacity && leb slot.payload_len (c.slot_size - slot_header_size)
        then some slot.payload
        else none
  ];
}

abbrev pub unblocked : Consumer → Consumer
unblocked c = record c { blocked_sequence = uint64_max; blocked_since_ns = 0 }

-- The slot of position `pos` is given back to the producers, and the cursor moves on.
abbrev pub release : Bus → Consumer → ℕ → Bus
release b c pos =
    let i = bit_and pos c.mask in
    record b {
      slots = update b.slots i (record (b.slots i) { seq = add64 pos c.capacity });
      dequeue_pos = add64 pos 1;
    }

-- The record of a position that is passed over
abbrev pub skip_record : ℕ → Record
skip_record pos = record {
  sequence = pos;
  producer_id = uint32_max;
  payload_len = 0;
  payload = none;
}

-- The branch of `om_bus_mp_poll_impl` for a slot that is not committed.
unfoldable pub poll_blocked : Bus → Consumer → ℕ → Poll × Bus × Consumer
poll_blocked b c now =
    let pos = b.dequeue_pos in
    if leb b.enqueue_pos pos
    then (empty, b, c)
    else if not (c.blocked_sequence == pos)
    then (empty, b, record c { blocked_sequence = pos; blocked_since_ns = now })
    else if ltb (sub64 now c.blocked_since_ns) c.skip_timeout_ns
    then (empty, b, c)
    else (
      skipped (skip_record pos),
      record (release b c pos) { skipped_sequences = add64 b.skipped_sequences 1 },
      unblocked c,
    )

-- `om_bus_mp_poll_impl`, when no commit comes between its load and its exchange; `room` is the
-- capacity of the copy
unfoldable pub poll_impl : Bus → Consumer → Option ℕ → ℕ → Poll × Bus × Consumer
poll_impl b c room now =
    let pos = b.dequeue_pos in
    let slot = b.slots (bit_and pos c.mask) in
    if slot.seq == add64 pos 1
    then (delivered (record_of c room slot), release b c pos, unblocked c)
    else if slot.seq == pos
    then poll_blocked b c now
    else (empty, b, c)

-- `om_bus_mp_poll`
abbrev pub poll : Bus → Consumer → ℕ → Poll × Bus × Consumer
poll b c now = poll_impl b c none now

-- `om_bus_mp_poll_copy`
abbrev pub poll_copy : Bus → Consumer → ℕ → ℕ → Result BusError (Poll × Bus × Consumer)
poll_copy b c capacity now =
    if capacity == 0 then err BusError.bad_init else ok (poll_impl b c (some capacity) now)

-- The loop of `om_bus_mp_poll_batch` from position `pos` with room for `n` records.
unfoldable pub batch_loop : ℕ → Bus → Consumer → ℕ → List Record × Bus
batch_loop zero b c pos = ([], b)
batch_loop (suc n) b c pos =
    let slot = b.slots (bit_and pos c.mask) in
    let rest = batch_loop n (release b c pos) c (add64 pos 1) in
    if slot.seq == add64 pos 1 then (record_of c none slot ∷ rest.0, rest.1) else ([], b)

-- `om_bus_mp_poll_batch`
unfoldable pub poll_batch : Bus → Consumer → ℕ → List Record × Bus × Consumer
poll_batch b c max_records =
    let (records, after) = batch_loop max_records b c b.dequeue_pos in
    (records, after, elim records [ [] ↦ c | r ∷ rs ↦ unblocked c ])

-- `om_bus_mp_pending`
abbrev pub pending : Bus → ℕ
pending b = if ltb b.dequeue_pos b.enqueue_pos then b.enqueue_pos - b.dequeue_pos else 0

-- `OmBusMpWaitResult`
pub data Wait : Type 0 where
  ready timed_out interrupted : Wait

-- What the call of the futex returns: 0, EAGAIN, ETIMEDOUT, EINTR, or another error.
pub data Futex : Type 0 where
  woken changed expired signalled other_error : Futex

-- `om_bus_mp_wait`, with the memory as it is at its second look and what the futex answers; the
-- count of waiters is back where it was when it returns.
unfoldable pub wait : Bus → Bus → ℕ → Futex → Wait
wait first second timeout_ns futex =
    if ltb 0 (pending first)
    then ready
    else if ltb 0 (pending second)
    then ready
    else if timeout_ns == 0
    then timed_out
    else elim futex [
      | woken ↦ ready
      | changed ↦ ready
      | expired ↦ timed_out
      | signalled ↦ interrupted
      | other_error ↦ ready
    ]

-- `om_bus_mp_producer_published`
abbrev pub producer_published : Bool → Bus → ℕ → ℕ
producer_published aligned b id = elim (validate_header aligned b) [
  | some e ↦ 0
  | none ↦ if leb b.max_producers id then 0 else (b.counters id).published
]
