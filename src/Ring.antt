-- ===== src/Ring.antt =====
-- src/om_worker.c and include/openmarket/om_worker.h: the single-producer, multi-consumer ring of
-- record pointers. Each function is a function of the ring that returns the new ring. The two
-- waiting loops of `om_market_ring_enqueue` are given as one round each, so that `Ring.Steps` can
-- put the consumers' calls between the rounds, and once more as loops on fuel. A pointer is a
-- number, NULL is 0; `ring` itself is a value, so it is never NULL.
pub mod Steps
pub mod Invariant
pub mod Delivery
pub mod Progress
mod Tests
use veloxmatch.Base.{
  ℕ, zero, suc, ◌+◌, ◌-◌, ◌%◌, Bool, true, false, not, ◌&&◌, ◌||◌, Option, none, some, List, [],
  ◌∷◌, bit_and, ltb, leb, ◌==◌, if◌then◌else◌, Array, update, set_below, add64, sub64, uint64_max,
}
use veloxmatch.Base.Bits.{is_power_of_two}
use veloxmatch.Base.Result.{Result, ok, err}

-- `OmMarketRingSlot`
pub record Slot : Type 0 where
  pub seq : ℕ
  pub ptr : ℕ

-- `OmMarketRing`, without the mutex and the condition variable
pub record Ring : Type 0 where
  pub slots : Array Slot
  pub capacity : ℕ
  pub mask : ℕ
  pub consumer_count : ℕ
  pub notify_batch : ℕ
  pub head : ℕ
  pub min_tail : ℕ
  pub consumer_tails : Array ℕ

-- `OmMarketRingConfig`
pub record Config : Type 0 where
  pub capacity : ℕ
  pub consumer_count : ℕ
  pub notify_batch : ℕ

-- What the operating system grants to one call of `om_market_ring_init`.
pub record Grants : Type 0 where
  pub slots : Bool
  pub tails : Bool
  pub mutex : Bool
  pub cond : Bool

-- The `OM_ERR_*` codes that the ring returns.
pub data Error : Type 0 where
  null_param invalid_param not_pow2 slots_alloc tails_alloc mutex_init cond_init consumer_id : Error

-- The ring that `om_market_ring_init` fills in: slot `i` waits for position `i`.
abbrev pub fresh : Config → Ring
fresh config = record {
  slots =
      set_below config.capacity (λ i. record { seq = i; ptr = 0 })
        (λ i. record { seq = 0; ptr = 0 });
  capacity = config.capacity;
  mask = config.capacity - 1;
  consumer_count = config.consumer_count;
  notify_batch = config.notify_batch;
  head = 0;
  min_tail = 0;
  consumer_tails = λ i. 0;
}

-- `om_market_ring_init`
unfoldable pub init : Config → Grants → Result Error Ring
init config grants =
    if (config.capacity == 0) || (config.consumer_count == 0)
    then err invalid_param
    else if not (is_power_of_two config.capacity)
    then err not_pow2
    else if not grants.slots
    then err slots_alloc
    else if not grants.tails
    then err tails_alloc
    else if not grants.mutex
    then err mutex_init
    else if not grants.cond
    then err cond_init
    else ok (fresh config)

-- `om_market_ring_register_consumer`
unfoldable pub register_consumer : Ring → ℕ → Result Error Ring
register_consumer r i =
    if leb r.consumer_count i
    then err consumer_id
    else ok (record r { consumer_tails = update r.consumer_tails i 0 })

-- The loop of `om_market_ring_min_tail`, with `n` consumers left from the `i`-th on.
unfoldable pub min_tail_from : ℕ → ℕ → ℕ → Array ℕ → ℕ
min_tail_from zero i acc tails = acc
min_tail_from (suc n) i acc tails =
    min_tail_from n (i + 1) (if ltb (tails i) acc then tails i else acc) tails

-- `om_market_ring_min_tail`
unfoldable pub ring_min_tail : Ring → ℕ
ring_min_tail r =
    let least = min_tail_from r.consumer_count 0 uint64_max r.consumer_tails in
    if least == uint64_max then 0 else least

-- `om_market_ring_refresh_min_tail_on_consume`
unfoldable pub refresh_min_tail_on_consume : Ring → ℕ → ℕ → Ring
refresh_min_tail_on_consume r prev_tail new_tail =
    if (prev_tail == r.min_tail) || ltb new_tail r.min_tail
    then record r { min_tail = ring_min_tail r }
    else r

-- One round of the first loop of `om_market_ring_enqueue`: is there room, and if not, the ring
-- after the cached minimum may have been computed anew.
unfoldable pub room_round : Ring → ℕ → Bool × Ring
room_round r spins =
    if ltb (sub64 r.head r.min_tail) r.capacity
    then (true, r)
    else if bit_and spins 31 == 0
    then (false, record r { min_tail = ring_min_tail r })
    else (false, r)

-- The index that `head` or a tail selects.
unfoldable pub slot_index : Ring → ℕ → ℕ
slot_index r pos = bit_and pos r.mask

-- One round of the second loop, and what follows it: the ring with the record published, and
-- whether the waiting consumers are woken.
unfoldable pub publish_round : Ring → ℕ → Option (Ring × Bool)
publish_round r ptr =
    let i = slot_index r r.head in
    if (r.slots i).seq == r.head
    then some (
      record r {
        slots = update r.slots i (record { seq = add64 r.head 1; ptr = ptr });
        head = add64 r.head 1;
      },
      ltb 0 r.notify_batch && (add64 r.head 1 % r.notify_batch == 0),
    )
    else none

-- The second loop, on fuel.
unfoldable pub publish_loop : ℕ → Ring → ℕ → Option (Ring × Bool)
publish_loop zero r ptr = none
publish_loop (suc fuel) r ptr = elim (publish_round r ptr) [
  | some out ↦ some out
  | none ↦ publish_loop fuel r ptr
]

-- The first loop, on fuel, and the second one with what fuel is left.
unfoldable pub enqueue_loop : ℕ → ℕ → Ring → ℕ → Option (Ring × Bool)
enqueue_loop zero spins r ptr = none
enqueue_loop (suc fuel) spins r ptr =
    let (room, r') = room_round r spins in
    elim room [ true ↦ publish_loop fuel r' ptr | false ↦ enqueue_loop fuel (spins + 1) r' ptr ]

-- `om_market_ring_enqueue` with no other thread running; `none` is a call that still waits when
-- the fuel is spent.
unfoldable pub enqueue : ℕ → Ring → ℕ → Result Error (Option (Ring × Bool))
enqueue fuel r ptr = if ptr == 0 then err null_param else ok (enqueue_loop fuel 0 r ptr)

-- `om_market_ring_dequeue`: the pointer, if one is ready, and the new ring.
unfoldable pub dequeue : Ring → ℕ → Result Error (Option ℕ × Ring)
dequeue r c =
    let tail = r.consumer_tails c in
    let slot = r.slots (slot_index r tail) in
    let r' = record r { consumer_tails = update r.consumer_tails c (add64 tail 1) } in
    if leb r.consumer_count c
    then err consumer_id
    else if slot.seq == add64 tail 1
    then ok (some slot.ptr, refresh_min_tail_on_consume r' tail (add64 tail 1))
    else ok (none, r)

-- The loop of `om_market_ring_dequeue_batch` with room for `n` more: the pointers, and the tail.
unfoldable pub batch_loop : ℕ → Ring → ℕ → List ℕ × ℕ
batch_loop zero r tail = ([], tail)
batch_loop (suc n) r tail =
    let slot = r.slots (slot_index r tail) in
    let (rest, last) = batch_loop n r (add64 tail 1) in
    if slot.seq == add64 tail 1 then (slot.ptr ∷ rest, last) else ([], tail)

-- `om_market_ring_dequeue_batch`
unfoldable pub dequeue_batch : Ring → ℕ → ℕ → Result Error (List ℕ × Ring)
dequeue_batch r c max_count =
    let prev = r.consumer_tails c in
    let (ptrs, tail) = batch_loop max_count r prev in
    let r' = record r { consumer_tails = update r.consumer_tails c tail } in
    if max_count == 0
    then err invalid_param
    else if leb r.consumer_count c
    then err consumer_id
    else elim ptrs [
      | [] ↦ ok ([], r)
      | p ∷ ps ↦ ok (p ∷ ps, refresh_min_tail_on_consume r' prev tail)
    ]

-- The test that `om_market_ring_wait` makes each time it holds the mutex: may it return?
unfoldable pub wait_round : Ring → ℕ → ℕ → Result Error Bool
wait_round r c min_batch =
    if min_batch == 0
    then err invalid_param
    else if leb r.consumer_count c
    then err consumer_id
    else ok (leb min_batch (sub64 r.head (r.consumer_tails c)))
