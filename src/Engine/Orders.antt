-- ===== src/Engine/Orders.antt =====
-- src/om_engine.c: the calls of the engine on orders that rest in the book: `om_engine_cancel`,
-- `om_engine_deactivate`, `om_engine_activate`, and the calls that cancel many.
use veloxmatch.Base.{
  add32, ℕ, zero, suc, ◌+◌, ◌*◌, ◌/◌, ◌%◌, Bool, true, false, not, Option, none, some, leb, ◌==◌,
  if◌then◌else◌,
}
use veloxmatch.Slab.{in_slab, set_slot, free}
use veloxmatch.Book.{Book, Deps, cancelled, deactivated, activated, side_head, set_slab}
use veloxmatch.Book.Insert.{Status}
use veloxmatch.Book.Remove.{remove_slot, unlink_slot, cancel}
use veloxmatch.Engine.{Engine, Callbacks, on_cancel, tell, slot_of, logged, removed, engine_match}

-- OM_STATUS_NEW and OM_STATUS_DEACTIVATED; the status is bits 5 to 7 of the flags.
abbrev pub status_new : ℕ
status_new = 0

abbrev pub status_deactivated : ℕ
status_deactivated = 0xA0

-- OM_GET_STATUS and OM_SET_STATUS, with the masks as arithmetic
abbrev pub get_status : ℕ → ℕ
get_status flags = flags / 32 % 8 * 32

abbrev pub set_status : ℕ → ℕ → ℕ
set_status flags status = flags / 256 * 256 + get_status status + flags % 32

abbrev pub set_book : {M L : Type 0} → Engine M L → Book M L → Engine M L
set_book e b = record e { orderbook = b }

-- `order->flags = OM_SET_STATUS(order->flags, status)`
abbrev pub mark : {M L : Type 0} → Engine M L → ℕ → ℕ → Engine M L
mark e i status =
    let slot = slot_of e i in
    let slab = e.orderbook.slab in
    set_book e (
      set_slab e.orderbook (set_slot slab i (record slot { flags = set_status slot.flags status })))

module _ {M L : Type 0} (d : Deps M L) where
  -- `om_engine_cancel`
  unfoldable pub engine_cancel : Engine M L → ℕ → Bool × Engine M L
  engine_cancel e order_id = elim (d.hash_get e.orderbook.order_hashmap order_id) [
    | none ↦ (false, e)
    | some entry ↦
        let i = entry.slot_idx in
        let product = entry.product_id in
        let (accepted, e') = logged d e (cancelled order_id i product) in
        let told = tell e' (on_cancel i) in
        if not (in_slab e.orderbook.slab i)
        then (false, e)
        else if not accepted
        then (false, e')
        else ((remove_slot d told.orderbook product i).0, removed d told product i)
  ]

  -- `om_engine_deactivate`
  unfoldable pub deactivate : Engine M L → ℕ → Bool × Engine M L
  deactivate e order_id = elim (d.hash_get e.orderbook.order_hashmap order_id) [
    | none ↦ (false, e)
    | some entry ↦
        let i = entry.slot_idx in
        let product = entry.product_id in
        let (accepted, e') = logged d e (deactivated order_id i product) in
        let (gone, book) = unlink_slot d e'.orderbook product i in
        if not (in_slab e.orderbook.slab i)
        then (false, e)
        else if get_status (slot_of e i).flags == status_deactivated
        then (false, e)
        else if not accepted
        then (false, e')
        else if not gone
        then (false, set_book e' book)
        else (true, mark (set_book e' book) i status_deactivated)
  ]

  -- The end of `om_engine_activate`: a taker that is used up goes back to the slab.
  unfoldable pub finish_activate : Option Status × Engine M L → ℕ → Option Bool × Engine M L
  finish_activate (none, e) i = (none, e)
  finish_activate (some Status.recovery_failed, e) i = (some false, e)
  finish_activate (some Status.wal_write, e) i = (some false, e)
  finish_activate (some Status.done, e) i =
      if (slot_of e i).volume_remain == 0
      then (some true, set_book e (set_slab e.orderbook (free e.orderbook.slab i)))
      else (some true, e)

  -- `om_engine_activate`; the answer is none if the fuel of the matching was spent.
  unfoldable pub activate : ℕ → Callbacks → Engine M L → ℕ → Option Bool × Engine M L
  activate fuel cb e order_id = elim (d.hash_get e.orderbook.order_hashmap order_id) [
    | none ↦ (some false, e)
    | some entry ↦
        let i = entry.slot_idx in
        let product = entry.product_id in
        let (accepted, e') = logged d e (activated order_id i product) in
        let hash = d.hash_remove e'.orderbook.order_hashmap order_id in
        let ready =
          mark (set_book e' (record e'.orderbook { order_hashmap = hash })) i status_new in
        if not (in_slab e.orderbook.slab i)
        then (some false, e)
        else if not (get_status (slot_of e i).flags == status_deactivated)
        then (some false, e)
        else if not accepted
        then (some false, e')
        else finish_activate (engine_match d fuel cb product i false ready) i
  ]

  -- The inner loop of `om_engine_cancel_product_side`, on fuel.
  unfoldable pub cancel_orders : ℕ → Engine M L → ℕ → ℕ → Option (ℕ × Engine M L)
  cancel_orders zero e i count = none
  cancel_orders (suc fuel) e i count =
      let told = tell e (on_cancel i) in
      let (gone, book) = cancel d told.orderbook (slot_of e i).order_id in
      let next = e.orderbook.slab.next 2 i in
      if not (in_slab e.orderbook.slab i)
      then some (count, e)
      else cancel_orders fuel (set_book told book) next (if gone then add32 count 1 else count)

  -- The outer loop, on fuel.
  unfoldable pub cancel_side : ℕ → ℕ → Engine M L → ℕ → ℕ → Option (ℕ × Engine M L)
  cancel_side zero inner e level count = none
  cancel_side (suc fuel) inner e level count = elim (in_slab e.orderbook.slab level) [
    | false ↦ some (count, e)
    | true ↦ elim (cancel_orders inner e level count) [
      | none ↦ none
      | some (count', e') ↦ cancel_side fuel inner e' (e.orderbook.slab.next 1 level) count'
    ]
  ]

  -- `om_engine_cancel_product_side`
  unfoldable pub engine_cancel_product_side : ℕ → Engine M L → ℕ → Bool → Option (ℕ × Engine M L)
  engine_cancel_product_side fuel e product bid =
      if leb e.orderbook.max_products product
      then some (0, e)
      else cancel_side fuel fuel e (side_head e.orderbook product bid) 0

  -- `om_engine_cancel_product`
  unfoldable pub engine_cancel_product : ℕ → Engine M L → ℕ → Option (ℕ × Engine M L)
  engine_cancel_product fuel e product = elim (engine_cancel_product_side fuel e product true) [
    | none ↦ none
    | some (bids, e') ↦ elim (engine_cancel_product_side fuel e' product false) [
      | none ↦ none
      | some (asks, e'') ↦ some (add32 bids asks, e'')
    ]
  ]
