-- ===== src/Book/Query.antt =====
-- src/orderbook.c: the calls that read the book, and the search for the first order of another org.
use veloxmatch.Base.{
  ℕ, zero, suc, Bool, true, false, not, Option, none, some, leb, ◌==◌, if◌then◌else◌, add64, add32,
  uint32_max,
}
use veloxmatch.Slab.{Slab, null, in_slab}
use veloxmatch.Book.{Book, Deps, side_head, slot_from, set_known_org, find_price_level}

-- `om_orderbook_get_best_bid` and `om_orderbook_get_best_ask`
unfoldable pub best_price : {M L : Type 0} → Book M L → ℕ → Bool → ℕ
best_price b product bid =
    let head = side_head b product bid in if head == null then 0 else (b.slab.slots head).price

-- `om_orderbook_get_best_head`
unfoldable pub best_head : {M L : Type 0} → Book M L → ℕ → Bool → Option ℕ
best_head b product bid = slot_from b.slab (side_head b product bid)

-- The loop of `om_orderbook_get_volume_at_price`, on fuel.
unfoldable pub sum_volume : ℕ → Slab → ℕ → ℕ → Option ℕ
sum_volume zero s i total = none
sum_volume (suc fuel) s i total =
    let rest = sum_volume fuel s (s.next 2 i) (add64 total (s.slots i).volume_remain) in
    if i == null then some total else rest

-- `om_orderbook_get_volume_at_price`
unfoldable pub volume_at_price : {M L : Type 0} → ℕ → Book M L → ℕ → ℕ → Bool → Option ℕ
volume_at_price fuel b product price bid = elim (find_price_level b product price bid).0 [
  | none ↦ some 0
  | some level ↦ sum_volume fuel b.slab level 0
]

-- `om_orderbook_price_level_exists`
unfoldable pub price_level_exists : {M L : Type 0} → Book M L → ℕ → ℕ → Bool → Bool
price_level_exists b product price bid = elim (find_price_level b product price bid).0 [
  | none ↦ false
  | some level ↦ true
]

-- The loop of `om_orderbook_get_price_level_count`, on fuel.
unfoldable pub count_levels : ℕ → Slab → ℕ → ℕ → Option ℕ
count_levels zero s i count = none
count_levels (suc fuel) s i count =
    let rest = count_levels fuel s (s.next 1 i) (add32 count 1) in
    if i == null then some count else rest

-- `om_orderbook_get_price_level_count`
unfoldable pub price_level_count : {M L : Type 0} → ℕ → Book M L → ℕ → Bool → Option ℕ
price_level_count fuel b product bid = count_levels fuel b.slab (side_head b product bid) 0

-- `om_orderbook_get_slot_by_id`
unfoldable pub slot_by_id : {M L : Type 0} → Deps M L → Book M L → ℕ → Option ℕ
slot_by_id d b order_id = elim (d.hash_get b.order_hashmap order_id) [
  | none ↦ none
  | some entry ↦ slot_from b.slab entry.slot_idx
]

-- The loop of `om_orderbook_first_other_org`, on fuel: the index where it stops.
unfoldable pub other_org_loop : ℕ → Slab → ℕ → ℕ → Option ℕ
other_org_loop zero s i org = none
other_org_loop (suc fuel) s i org =
    let rest = other_org_loop fuel s (s.next 2 i) org in
    if i == null
    then some null
    else if not (in_slab s i)
    then some i
    else if not ((s.slots i).org == org)
    then some i
    else rest

-- `om_orderbook_first_other_org`: the index, and the book with what was learnt of the level.
unfoldable pub first_other_org : {M L : Type 0} → ℕ → Book M L → ℕ → ℕ → Option (ℕ × Book M L)
first_other_org fuel b head org =
    let known = b.known_org head in
    let found = other_org_loop fuel b.slab head org in
    if leb b.slab.capacity head
    then some (null, b)
    else if not (known == uint32_max)
    then some (if known == org then null else head, b)
    else elim found [
      | none ↦ none
      | some i ↦ some (i, if i == null then set_known_org b head org else b)
    ]
