-- ===== src/Engine/Resting.antt =====
-- src/om_engine.c: what `om_engine_deactivate` leaves.
use veloxmatch.Base.{ℕ, ◌≡◌, ap, ◌∙◌, inl, inr, true, false, some, arith, Option-cases}
use veloxmatch.Book.{Book, Deps, Entry, deactivated, is_bid, find_price_level}
use veloxmatch.Book.Remove.{unlink_slot, leave_level}
use veloxmatch.Book.Leaving.{leave_level-frame, leave_org_head-hash}
use veloxmatch.Engine.{Engine, logged, slot_of}
use veloxmatch.Engine.Orders.{
  deactivate, get_status, set_status, status_deactivated, mark, set_book,
}

get-set_status : (flags : ℕ) → get_status (set_status flags status_deactivated) ≡ status_deactivated
get-set_status flags = omega arith

module _ {M L : Type 0} (d : Deps M L) where
  unlink_slot-hash :
      (b : Book M L) (p i : ℕ) → (unlink_slot d b p i).1.order_hashmap ≡ b.order_hashmap
  unfolding unlink_slot
  unlink_slot-hash b p i =
      let bid = is_bid (b.slab.slots i).flags in
      elim (Option-cases (find_price_level b p (b.slab.slots i).price bid).0) [
        | inl gone ↦ ground (arith, gone)
        | inr (h, found) ↦
            let out = leave_level d b p h i bid in
            let same = leave_org_head-hash d out p i ∙ (leave_level-frame d b p h i bid).1 in
            ground (arith, found, same)
      ]

  -- The order that `deactivate` answers for is marked.
  marked :
      (e : Engine M L) (i : ℕ)
      → get_status (slot_of (mark e i status_deactivated) i).flags ≡ status_deactivated
  marked e i =
      let flags = (slot_of e i).flags in
      let is : (slot_of (mark e i status_deactivated) i).flags
          ≡ set_status flags status_deactivated =
        ground arith in
      ap get_status is ∙ get-set_status flags

  -- A call of `om_engine_deactivate` that succeeds leaves the hash map as it was, the order is found
  -- in it and marked as deactivated, and a second call for it fails and changes nothing.
  pub deactivate_twice :
      (e e' : Engine M L) (order_id : ℕ)
      → deactivate d e order_id ≡ (true, e')
      → (e'.orderbook.order_hashmap ≡ e.orderbook.order_hashmap)
        × ((entry : Entry) × (d.hash_get e'.orderbook.order_hashmap order_id ≡ some entry)
            × (get_status (slot_of e' entry.slot_idx).flags ≡ status_deactivated))
        × (deactivate d e' order_id ≡ (false, e'))
  unfolding deactivate
  deactivate_twice e e' id ok = elim (Option-cases (d.hash_get e.orderbook.order_hashmap id)) [
    | inl unknown ↦ ground (arith, ok, unknown)
    | inr (entry, known) ↦
        let i = entry.slot_idx in
        let p = entry.product_id in
        let log = logged d e (deactivated id i p) in
        let out = unlink_slot d log.1.orderbook p i in
        let final = mark (set_book log.1 out.1) i status_deactivated in
        let is : e' ≡ final = ground (arith, ok, known) in
        let hash : final.orderbook.order_hashmap ≡ e.orderbook.order_hashmap =
          unlink_slot-hash log.1.orderbook p i in
        let stamp = marked (set_book log.1 out.1) i in
        let known' : d.hash_get final.orderbook.order_hashmap id ≡ some entry =
          ap (λ m. d.hash_get m id) hash ∙ known in
        rw is (hash, (entry, known', stamp), ground (arith, known', stamp))
  ]
