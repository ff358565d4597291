-- ===== src/Book/Insert.antt =====
-- src/orderbook.c: `om_orderbook_insert` and its parts.
use veloxmatch.Base.{
  ℕ, Bool, not, ◌&&◌, ◌||◌, Option, none, some, ltb, leb, ◌==◌, if◌then◌else◌, update, uint32_max,
}
use veloxmatch.Slab.{Slab, null, set_next, set_prev}
use veloxmatch.Slab.Queue.{link_after, link_before}
use veloxmatch.Book.{
  Book, Deps, Entry, inserted, is_bid, side_head, set_side_head, set_slab, set_known_org, org_index,
  find_price_level, price_add,
}

-- What `om_orderbook_insert` returns: 0, OM_ERR_RECOVERY_FAILED or OM_ERR_WAL_WRITE.
pub data Status : Type 0 where
  done recovery_failed wal_write : Status

-- `insert_order_at`
unfoldable pub insert_order_at : {M L : Type 0} → Book M L → ℕ → Bool → ℕ → Option ℕ → Book M L
insert_order_at b product bid i after =
    let s = set_prev (set_next b.slab 1 i null) 1 i null in
    let head = side_head b product bid in
    let s' = if head == null then s else set_prev (set_next s 1 i head) 1 head i in
    elim after [
      | none ↦ set_side_head (set_slab b s') product bid i
      | some a ↦ set_slab b (link_after s a i 1)
    ]

-- `append_to_time_queue`: the tail of a level is the back link of its head.
unfoldable pub append_to_time_queue : Slab → ℕ → ℕ → Slab
append_to_time_queue s head i =
    let tail = if s.prev 2 head == null then head else s.prev 2 head in
    set_prev (link_after s tail i 2) 2 head i

-- The part of `om_orderbook_insert` that puts the order at the front of its org's queue.
unfoldable pub push_org : {M L : Type 0} → Book M L → ℕ → ℕ → Book M L
push_org b product i =
    let org = (b.slab.slots i).org in
    let at = org_index b product org in
    let head = b.org_heads at in
    let s = b.slab in
    let alone = set_next (set_prev s 3 i null) 3 i null in
    let linked = if head == null then alone else link_before s head i 3 in
    if ltb product b.max_products && ltb org b.max_org
    then record b { slab = linked; org_heads = update b.org_heads at i }
    else b

module _ {M L : Type 0} (d : Deps M L) where
  -- The part of `om_orderbook_insert` that finds or makes the price level.
  unfoldable pub place : Book M L → ℕ → ℕ → Book M L
  place b product i =
      let slot = b.slab.slots i in
      let bid = is_bid slot.flags in
      let (head, after) = find_price_level b product slot.price bid in
      let made = price_add d (insert_order_at b product bid i after) product bid i in
      elim head [
        | none ↦ set_slab made (set_next (set_prev made.slab 2 i null) 2 i null)
        | some h ↦
            let known = b.known_org h in
            let joined = set_slab b (append_to_time_queue b.slab h i) in
            if not (known == uint32_max) && not (known == slot.org)
            then set_known_org joined h uint32_max
            else joined
      ]

  -- `om_orderbook_insert`
  unfoldable pub insert : Book M L → ℕ → ℕ → Status × Book M L
  insert b product i =
      let slot = b.slab.slots i in
      let entry : Entry = record { slot_idx = i; product_id = product } in
      let (accepted, wal') = d.append b.wal (inserted slot product) in
      if leb b.max_products product || leb b.max_org slot.org || (slot.order_id == 0)
      then (recovery_failed, b)
      else elim (d.hash_get b.order_hashmap slot.order_id) [
        | some known ↦ (recovery_failed, b)
        | none ↦ elim (d.hash_insert b.order_hashmap slot.order_id entry) [
          | none ↦ (recovery_failed, b)
          | some hash ↦
              let b' = record b { order_hashmap = hash; wal = wal' } in
              if not accepted
              then (wal_write, record b' { order_hashmap = d.hash_remove hash slot.order_id })
              else (done, push_org (place b' product i) product i)
        ]
      ]
