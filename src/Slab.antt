-- ===== src/Slab.antt =====
-- src/om_slab.c and include/openmatch/om_slab.h: the dual slab allocator. A slot is its index, NULL
-- is an index outside the slab, and slot memory is a set of arrays by index: the order fields, the
-- links of the four intrusive queues, and the auxiliary cells. The free list of the second slab
-- lives in the first four bytes of its free cells; here it is an array of its own. `malloc` is not
-- modelled: `init` is told whether the allocations succeed.
pub mod FreeList
pub mod Queue
mod Tests
use veloxmatch.Base.{
  u64_mod, ◌%◌, ℕ, zero, suc, ◌+◌, ◌-◌, ◌*◌, ◌/◌, Bool, true, false, not, ◌&&◌, ◌||◌, Option, none,
  some, List, replicate, ltb, ◌==◌, if◌then◌else◌, Array, update, update₂, add32, sub64, uint32_max,
}
use veloxmatch.Base.Result.{Result, ok, err}

-- OM_SLOT_IDX_NULL
abbrev pub null : ℕ
null = uint32_max

-- The queues by their index in `queue_nodes`.
abbrev pub q0_internal_free : ℕ
q0_internal_free = 0

abbrev pub q1_price_ladder : ℕ
q1_price_ladder = 1

abbrev pub q2_time_fifo : ℕ
q2_time_fifo = 2

abbrev pub q3_org_queue : ℕ
q3_org_queue = 3

-- The mandatory fields of `OmSlabSlot`, and the user payload behind them.
pub record Slot : Type 0 where
  pub price : ℕ
  pub volume : ℕ
  pub volume_remain : ℕ
  pub org : ℕ
  pub flags : ℕ
  pub order_id : ℕ
  pub payload : List ℕ

-- `OmSlabConfig`
pub record Config : Type 0 where
  pub user_data_size : ℕ
  pub aux_data_size : ℕ
  pub total_slots : ℕ

-- `OmDualSlab`. `next q i` and `prev q i` are the links of slot `i` in queue `q`.
pub record Slab : Type 0 where
  pub config : Config
  pub capacity : ℕ
  pub used : ℕ
  pub free_a : ℕ
  pub slots : Array Slot
  pub next : Array (Array ℕ)
  pub prev : Array (Array ℕ)
  pub free_b : ℕ
  pub aux_next : Array ℕ
  pub aux_cells : Array (List ℕ)
  pub next_order_id : ℕ

pub data Error : Type 0 where
  invalid_param alloc_failed aux_alloc : Error

-- Is the index that of a slot? This is `om_slot_from_idx(slab, idx) != NULL`.
abbrev pub in_slab : Slab → ℕ → Bool
in_slab s i = not (i == null) && ltb i s.capacity

abbrev pub set_next : Slab → ℕ → ℕ → ℕ → Slab
set_next s q i v = record s { next = update₂ s.next q i v }

abbrev pub set_prev : Slab → ℕ → ℕ → ℕ → Slab
set_prev s q i v = record s { prev = update₂ s.prev q i v }

abbrev pub set_slot : Slab → ℕ → Slot → Slab
set_slot s i v = record s { slots = update s.slots i v }

-- Both links of slot `i` in each of the four queues are cleared.
abbrev pub clear_links : Slab → ℕ → Slab
clear_links s i = record s {
  next = λ q j. if ltb q 4 && (i == j) then null else s.next q j;
  prev = λ q j. if ltb q 4 && (i == j) then null else s.prev q j;
}

-- `align_up(size, 8)`
abbrev pub align_up8 : ℕ → ℕ
align_up8 size = (size + 7) % u64_mod / 8 * 8

-- The size of an auxiliary cell, 8 bytes at least.
abbrev pub aux_slot_size : Config → ℕ
aux_slot_size c = if align_up8 c.aux_data_size == 0 then 8 else align_up8 c.aux_data_size

-- A slot of zeroed memory.
abbrev pub blank : Config → Slot
blank c = record {
  price = 0;
  volume = 0;
  volume_remain = 0;
  org = 0;
  flags = 0;
  order_id = 0;
  payload = replicate (align_up8 c.user_data_size) 0;
}

-- The first loop of `om_slab_init`, from slot `i` on with `n` slots left: slot `i` is put in front
-- of the free list.
unfoldable pub build_free_a : ℕ → ℕ → Slab → Slab
build_free_a zero i s = s
build_free_a (suc n) i s =
    let cleared = clear_links s i in
    build_free_a n (i + 1) (record (set_next cleared q0_internal_free i s.free_a) { free_a = i })

-- The second loop: auxiliary cell `i` points at the cell before it.
unfoldable pub build_free_b : ℕ → ℕ → Array ℕ → Array ℕ
build_free_b zero i aux_next = aux_next
build_free_b (suc n) i aux_next =
    build_free_b n (i + 1) (update aux_next i (if i == 0 then null else i - 1))

-- The slab with its memory allocated and nothing on the free lists.
abbrev pub zeroed : Config → Slab
zeroed config = record {
  config = config;
  capacity = config.total_slots;
  used = 0;
  free_a = null;
  slots = λ i. blank config;
  next = λ q i. 0;
  prev = λ q i. 0;
  free_b = null;
  aux_next = λ i. 0;
  aux_cells = λ i. replicate (aux_slot_size config) 0;
  next_order_id = 0;
}

-- The slab with both free lists built.
abbrev pub built : Config → Slab
built config =
    let listed = build_free_a config.total_slots 0 (zeroed config) in
    record listed {
      aux_next = build_free_b config.total_slots 0 listed.aux_next;
      free_b = config.total_slots - 1;
      next_order_id = 1;
    }

-- `om_slab_init`; the Booleans say whether the two allocations succeed.
unfoldable pub init : Config → Bool → Bool → Result Error Slab
init config memory_a memory_b =
    if config.total_slots == 0
    then err invalid_param
    else if not memory_a
    then err alloc_failed
    else if not memory_b
    then err aux_alloc
    else ok (built config)

-- The slot's fields as `om_slab_alloc` leaves them; the user payload is not cleared.
abbrev pub cleared_slot : Slot → Slot
cleared_slot v = record v {
  price = 0;
  volume = 0;
  volume_remain = 0;
  org = 0;
  flags = 0;
  order_id = null;
}

-- `om_slab_alloc`: the slot's index, or none, and the slab. Where the second free list is empty or
-- disagrees, the slot goes back to the first one.
unfoldable pub alloc : Slab → Option ℕ × Slab
alloc s =
    let i = s.free_a in
    let popped = record s { free_a = s.next q0_internal_free i } in
    let back = record (set_next popped q0_internal_free i popped.free_a) { free_a = i } in
    let taken = set_slot (clear_links popped i) i (cleared_slot (s.slots i)) in
    if s.free_a == null
    then (none, s)
    else if not (in_slab s i)
    then (none, s)
    else if s.free_b == null
    then (none, back)
    else if not (s.free_b == i)
    then (none, back)
    else (
      some i,
      record taken {
        free_b = s.aux_next i;
        aux_cells = update s.aux_cells i (replicate (aux_slot_size s.config) 0);
        used = s.used + 1;
      },
    )

-- `om_slab_free` of a slot of the slab. `used` is a `size_t` that wraps below 0.
unfoldable pub free : Slab → ℕ → Slab
free s i = record (set_next (clear_links s i) q0_internal_free i s.free_a) {
  free_a = i;
  used = sub64 s.used 1;
  aux_next = update s.aux_next i s.free_b;
  free_b = i;
}

-- `om_slab_next_order_id`: 0 once the ids are used up.
unfoldable pub take_order_id : Slab → ℕ × Slab
take_order_id s =
    if s.next_order_id == 0
    then (0, s)
    else (s.next_order_id, record s { next_order_id = add32 s.next_order_id 1 })
