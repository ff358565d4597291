-- ===== src/Book.antt =====
-- src/orderbook.c and include/openmatch/orderbook.h: the order book over the slab. The state of
-- `OmOrderbookContext`, the index of price levels, and the search for a level. A slot is its index
-- and a slot pointer an optional index; where the code reads through a pointer that it has not
-- compared with NULL, the model reads the slot of that index. The hash map and the AVL tree are
-- those of the klib library, and the write-ahead log is a component of its own: all three are
-- `Deps`.
pub mod Insert
pub mod Remove
pub mod Query
pub mod Keeps
pub mod Leaving
pub mod Entering
pub mod Init
pub mod Sample
mod Tests
pub mod Walk
pub mod Levels
use veloxmatch.Base.{
  ℕ, ◌+◌, ◌*◌, ◌%◌, Bool, true, false, not, ◌&&◌, Option, none, some, ltb, ◌==◌, if◌then◌else◌,
  Array, update, uint32_max, u32_mod,
}
use veloxmatch.Slab.{Slab, Slot, null, in_slab}

-- `OmOrderEntry`
pub record Entry : Type 0 where
  pub slot_idx : ℕ
  pub product_id : ℕ

-- `OmPriceNode`, as a tree: the children `p[0]` and `p[1]` around a price and its slot. `known_org`
-- is an array of the book.
pub data PriceNode : Type 0 where
  leaf : PriceNode
  node : (left : PriceNode) (price slot : ℕ) (right : PriceNode) → PriceNode

-- What is handed to the write-ahead log.
pub data Record : Type 0 where
  inserted : (order : Slot) (product_id : ℕ) → Record
  cancelled deactivated activated : (order_id slot_idx product_id : ℕ) → Record
  matched : (maker_id taker_id price volume product_id : ℕ) → Record

-- The calls of other components: `om_hash_get`, `om_hash_insert`, which may fail, and
-- `om_hash_remove`; `kavl_insert` of a price and its slot, and `kavl_erase` of a price; and the
-- calls of the log, which tell whether the record was accepted. A log type whose `append` accepts
-- all and changes nothing is a NULL `wal`.
pub record Deps (M L : Type 0) : Type 0 where
  pub hash_get : M → ℕ → Option Entry
  pub hash_insert : M → ℕ → Entry → Option M
  pub hash_remove : M → ℕ → M
  pub kavl_insert : PriceNode → ℕ → ℕ → PriceNode
  pub kavl_erase : PriceNode → ℕ → PriceNode
  pub append : L → Record → Bool × L

-- `OmOrderbookContext`. `bid_head_q1` and `ask_head_q1` are the fields of `products`.
pub record Book (M L : Type 0) : Type 0 where
  pub slab : Slab
  pub bid_head_q1 : Array ℕ
  pub ask_head_q1 : Array ℕ
  pub max_products : ℕ
  pub max_org : ℕ
  pub org_heads : Array ℕ
  pub order_hashmap : M
  pub known_org : Array ℕ
  pub price_roots : Array PriceNode
  pub wal : L

-- OM_IS_BID
abbrev pub is_bid : ℕ → Bool
is_bid flags = flags % 2 == 0

-- `om_slot_from_idx`
abbrev pub slot_from : Slab → ℕ → Option ℕ
slot_from s i = if in_slab s i then some i else none

-- The index of `price_root`.
abbrev pub root_index : ℕ → Bool → ℕ
root_index product bid = product * 2 + (if bid then 0 else 1)

-- The index of an org in `org_heads`.
abbrev pub org_index : {M L : Type 0} → Book M L → ℕ → ℕ → ℕ
org_index b product org = (product * b.max_org + org) % u32_mod

-- The head of one side of a product, and the book with another head there.
abbrev pub side_head : {M L : Type 0} → Book M L → ℕ → Bool → ℕ
side_head b product bid = if bid then b.bid_head_q1 product else b.ask_head_q1 product

abbrev pub set_side_head : {M L : Type 0} → Book M L → ℕ → Bool → ℕ → Book M L
set_side_head b product bid i =
    if bid
    then record b { bid_head_q1 = update b.bid_head_q1 product i }
    else record b { ask_head_q1 = update b.ask_head_q1 product i }

abbrev pub set_slab : {M L : Type 0} → Book M L → Slab → Book M L
set_slab b s = record b { slab = s }

abbrev pub set_known_org : {M L : Type 0} → Book M L → ℕ → ℕ → Book M L
set_known_org b i org = record b { known_org = update b.known_org i org }

-- The walk down the tree in `find_price_level_with_insertion_point`: the level, if it is there, and
-- the last node passed that has a better price.
unfoldable pub walk : Slab → ℕ → Bool → PriceNode → Option ℕ → Option ℕ × Option ℕ
walk s price bid leaf after = (none, after)
walk s price bid (node left p i right) after =
    let down = walk s price bid left (if bid then slot_from s i else after) in
    let up = walk s price bid right (if bid then after else slot_from s i) in
    if p == price then (slot_from s i, after) else if ltb price p then down else up

-- `find_price_level_with_insertion_point`: the head of the level, if there is one, and the level
-- after which a new one goes.
unfoldable pub find_price_level : {M L : Type 0} → Book M L → ℕ → ℕ → Bool → Option ℕ × Option ℕ
find_price_level b product price bid =
    let head = side_head b product bid in
    let best = (b.slab.slots head).price in
    if head == null
    then (none, none)
    else if bid && ltb best price
    then (none, none)
    else if not bid && ltb price best
    then (none, none)
    else walk b.slab price bid (b.price_roots (root_index product bid)) none

module _ {M L : Type 0} (d : Deps M L) where
  -- `price_add`
  unfoldable pub price_add : Book M L → ℕ → Bool → ℕ → Book M L
  price_add b product bid i =
      let at = root_index product bid in
      let slot = b.slab.slots i in
      record b {
        known_org = update b.known_org i slot.org;
        price_roots = update b.price_roots at (d.kavl_insert (b.price_roots at) slot.price i);
      }

  -- `price_remove`
  unfoldable pub price_remove : Book M L → ℕ → Bool → ℕ → Book M L
  price_remove b product bid i =
      let at = root_index product bid in
      let price = (b.slab.slots i).price in
      record b { price_roots = update b.price_roots at (d.kavl_erase (b.price_roots at) price) }

  -- `price_promote`
  unfoldable pub price_promote : Book M L → ℕ → Bool → ℕ → ℕ → Book M L
  price_promote b product bid old next =
      set_known_org (price_add (price_remove b product bid old) product bid next) next
        (b.known_org old)
