-- ===== src/Book/Remove.antt =====
-- src/orderbook.c: taking an order out of the book, `om_orderbook_cancel`,
-- `om_orderbook_remove_slot` and `om_orderbook_unlink_slot`, and the calls that cancel many.
use veloxmatch.Base.{
  add32, ℕ, zero, suc, ◌+◌, Bool, true, false, not, ◌&&◌, ◌||◌, Option, none, some, ltb, leb, ◌==◌,
  if◌then◌else◌, update, ◌%◌, u16_mod,
}
use veloxmatch.Slab.{Slab, null, in_slab, set_next, set_prev, free}
use veloxmatch.Slab.Queue.{unlink}
use veloxmatch.Book.{
  Book, Deps, cancelled, is_bid, side_head, set_side_head, set_slab, org_index, find_price_level,
  price_remove, price_promote,
}

-- The order behind the head of a level becomes its head in queue 2.
unfoldable pub promote_q2 : Slab → ℕ → ℕ → Slab
promote_q2 s head next =
    let tailed = set_prev s 2 next (s.prev 2 head) in
    let alone = if s.next 2 next == null then set_prev tailed 2 next null else tailed in
    let after = s.next 2 next in
    if not (after == null) && in_slab s after then set_prev alone 2 after next else alone

-- The new head of a level takes the place of the old one in queue 1, and the links of the old one
-- are cleared.
unfoldable pub promote_q1 : Slab → ℕ → ℕ → Slab
promote_q1 s head next =
    let before = s.prev 1 head in
    let after = s.next 1 head in
    let placed = set_next (set_prev s 1 next before) 1 next after in
    let left =
      if not (before == null) && in_slab s before then set_next placed 1 before next else placed in
    let right =
      if not (after == null) && in_slab s after then set_prev left 1 after next else left in
    let out = set_prev (set_next right 1 head null) 1 head null in
    set_prev (set_next out 2 head null) 2 head null

-- An order that is not the head of its level leaves queue 2. The tail stands at the head.
unfoldable pub leave_q2 : Slab → ℕ → ℕ → Slab
leave_q2 s head i =
    let before = s.prev 2 i in
    let out = (unlink s i 2).1 in
    if s.next 2 i == null
    then set_prev out 2 head (if before == head then null else before)
    else out

-- The org head moves on when the order is the head of its org's queue.
unfoldable pub leave_org_head : {M L : Type 0} → Book M L → ℕ → ℕ → Book M L
leave_org_head b product i =
    let org = (b.slab.slots i).org in
    let at = org_index b product org in
    if ltb product b.max_products && ltb org b.max_org && (b.org_heads at == i)
    then record b { org_heads = update b.org_heads at (b.slab.next 3 i) }
    else b

abbrev pub leave_q3 : {M L : Type 0} → Book M L → ℕ → Book M L
leave_q3 b i = set_slab b (unlink b.slab i 3).1

module _ {M L : Type 0} (d : Deps M L) where
  -- `remove_price_level`
  unfoldable pub remove_price_level : Book M L → ℕ → ℕ → Bool → Book M L
  remove_price_level b product level bid =
      let moved =
        if side_head b product bid == level
        then set_side_head b product bid (b.slab.next 1 level)
        else b in
      let b' = price_remove d moved product bid level in set_slab b' (unlink b'.slab level 1).1

  -- The order behind the head of a level becomes the head.
  unfoldable pub promote : Book M L → ℕ → ℕ → ℕ → Bool → Book M L
  promote b product head next bid =
      let b' = price_promote d b product bid head next in
      let moved =
        if side_head b' product bid == head then set_side_head b' product bid next else b' in
      set_slab moved (promote_q1 (promote_q2 b'.slab head next) head next)

  -- Order `i` leaves the price level with head `head`: the part that the three calls share.
  unfoldable pub leave_level : Book M L → ℕ → ℕ → ℕ → Bool → Book M L
  leave_level b product head i bid =
      let next = b.slab.next 2 i in
      if not (i == head)
      then set_slab b (leave_q2 b.slab head i)
      else if next == null
      then remove_price_level b product head bid
      else promote b product head next bid

  -- The entry is taken from the hash map, and the slot goes back to the slab.
  unfoldable pub release : Book M L → ℕ → ℕ → Book M L
  release b i order_id = record b {
    order_hashmap = d.hash_remove b.order_hashmap order_id;
    slab = free b.slab i;
  }

  -- `om_orderbook_remove_slot`
  unfoldable pub remove_slot : Book M L → ℕ → ℕ → Bool × Book M L
  remove_slot b product i =
      let slot = b.slab.slots i in
      let bid = is_bid slot.flags in
      elim (find_price_level b product slot.price bid).0 [
        | none ↦ (false, b)
        | some head ↦
            let out = leave_q3 (leave_level b product head i bid) i in
            (true, release out i slot.order_id)
      ]

  -- `om_orderbook_unlink_slot`
  unfoldable pub unlink_slot : Book M L → ℕ → ℕ → Bool × Book M L
  unlink_slot b product i =
      let slot = b.slab.slots i in
      let bid = is_bid slot.flags in
      elim (find_price_level b product slot.price bid).0 [
        | none ↦ (false, b)
        | some head ↦
            (true, leave_q3 (leave_org_head (leave_level b product head i bid) product i) i)
      ]

  -- `om_orderbook_cancel`
  unfoldable pub cancel : Book M L → ℕ → Bool × Book M L
  cancel b order_id = elim (d.hash_get b.order_hashmap order_id) [
    | none ↦ (false, b)
    | some entry ↦
        let i = entry.slot_idx in
        let product = entry.product_id in
        let (accepted, wal') = d.append b.wal (cancelled order_id i product) in
        let b' = record b { wal = wal' } in
        let slot = b.slab.slots i in
        let bid = is_bid slot.flags in
        if not accepted then (false, b') else elim (find_price_level b' product slot.price bid).0 [
          | none ↦ (false, b')
          | some head ↦
              let left = leave_org_head (leave_level b' product head i bid) product i in
              (true, release (leave_q3 left i) i order_id)
        ]
  ]

  -- The cancel call of the loops, with the count of those that succeeded.
  abbrev pub cancel_counted : Book M L → ℕ → ℕ → ℕ × Book M L
  cancel_counted b i count =
      let (gone, b') = cancel b (b.slab.slots i).order_id in
      (if gone then add32 count 1 else count, b')

  -- The loop of `om_orderbook_cancel_org_product` on fuel, and the inner loop of
  -- `om_orderbook_cancel_product_side`: queue `q` is walked from slot `i` on.
  unfoldable pub cancel_queue : ℕ → Book M L → ℕ → ℕ → ℕ → Option (ℕ × Book M L)
  cancel_queue zero b q i count = none
  cancel_queue (suc fuel) b q i count =
      let (count', b') = cancel_counted b i count in
      if not (in_slab b.slab i)
      then some (count, b)
      else cancel_queue fuel b' q (b.slab.next q i) count'

  -- `om_orderbook_cancel_org_product`
  unfoldable pub cancel_org_product : ℕ → Book M L → ℕ → ℕ → Option (ℕ × Book M L)
  cancel_org_product fuel b product org =
      if leb b.max_products product || leb b.max_org org
      then some (0, b)
      else cancel_queue fuel b 3 (b.org_heads (org_index b product org)) 0

  -- The loop of `om_orderbook_cancel_org_all`, with `n` products left from `product` on.
  unfoldable pub cancel_org_from : ℕ → ℕ → Book M L → ℕ → ℕ → ℕ → Option (ℕ × Book M L)
  cancel_org_from fuel zero b product org count = some (count, b)
  cancel_org_from fuel (suc n) b product org count =
      elim (cancel_org_product fuel b (product % u16_mod) org) [
        | none ↦ none
        | some (more, b') ↦ cancel_org_from fuel n b' (product + 1) org (add32 count more)
      ]

  -- `om_orderbook_cancel_org_all`
  unfoldable pub cancel_org_all : ℕ → Book M L → ℕ → Option (ℕ × Book M L)
  cancel_org_all fuel b org =
      if leb b.max_org org then some (0, b) else cancel_org_from fuel b.max_products b 0 org 0

  -- The outer loop of `om_orderbook_cancel_product_side`, on fuel.
  unfoldable pub cancel_levels : ℕ → ℕ → Book M L → ℕ → ℕ → Option (ℕ × Book M L)
  cancel_levels zero inner b level count = none
  cancel_levels (suc fuel) inner b level count = elim (in_slab b.slab level) [
    | false ↦ some (count, b)
    | true ↦ elim (cancel_queue inner b 2 level count) [
      | none ↦ none
      | some (count', b') ↦ cancel_levels fuel inner b' (b.slab.next 1 level) count'
    ]
  ]

  -- `om_orderbook_cancel_product_side`
  unfoldable pub cancel_product_side : ℕ → Book M L → ℕ → Bool → Option (ℕ × Book M L)
  cancel_product_side fuel b product bid =
      if leb b.max_products product
      then some (0, b)
      else cancel_levels fuel fuel b (side_head b product bid) 0

  -- `om_orderbook_cancel_product`
  unfoldable pub cancel_product : ℕ → Book M L → ℕ → Option (ℕ × Book M L)
  cancel_product fuel b product = elim (cancel_product_side fuel b product true) [
    | none ↦ none
    | some (bids, b') ↦ elim (cancel_product_side fuel b' product false) [
      | none ↦ none
      | some (asks, b'') ↦ some (add32 bids asks, b'')
    ]
  ]
