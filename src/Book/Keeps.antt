-- ===== src/Book/Keeps.antt =====
-- src/orderbook.c: what the calls on the book leave as it was: the fields of all orders, and the
-- number of slots. They change links, heads, the index of levels, the hash map and the log.
use veloxmatch.Base.{
  ℕ, if◌then◌else◌, ◌==◌, ◌≡◌, ◌∙◌, Bool, true, false, Option, none, some, arith, Option-cases, inl,
  inr,
}
use veloxmatch.Slab.{Slab, null, set_next, set_prev, free}
use veloxmatch.Slab.Queue.{link_after, link_before, unlink}
use veloxmatch.Book.{
  Book, Deps, Entry, inserted, org_index, price_add, price_remove, price_promote, find_price_level,
  is_bid, side_head,
}
use veloxmatch.Book.Insert.{insert, place, push_org, insert_order_at, append_to_time_queue}
use veloxmatch.Book.Remove.{
  promote_q1, promote_q2, leave_q2, leave_org_head, remove_price_level, promote, leave_level,
  release, remove_slot,
}
use veloxmatch.Book.Query.{first_other_org, other_org_loop}

-- The same order fields in the same slots.
abbrev pub Keeps : Slab → Slab → Type 0
Keeps s s' = (s'.slots ≡ s.slots) × (s'.capacity ≡ s.capacity)

-- The book after a call has the same order fields in the same slots.
abbrev pub KeepsBook : {M L : Type 0} → Book M L → Book M L → Type 0
KeepsBook b b' = Keeps b.slab b'.slab

Keeps-link_after : (s : Slab) (a i q : ℕ) → Keeps s (link_after s a i q)
unfolding link_after
Keeps-link_after s a i q = (ground arith, ground arith)

Keeps-link_before : (s : Slab) (a i q : ℕ) → Keeps s (link_before s a i q)
unfolding link_before
Keeps-link_before s a i q = (ground arith, ground arith)

Keeps-unlink : (s : Slab) (i q : ℕ) → Keeps s (unlink s i q).1
unfolding unlink
Keeps-unlink s i q = (ground arith, ground arith)

Keeps-promote_q2 : (s : Slab) (h n : ℕ) → Keeps s (promote_q2 s h n)
unfolding promote_q2
Keeps-promote_q2 s h n = (ground arith, ground arith)

Keeps-promote_q1 : (s : Slab) (h n : ℕ) → Keeps s (promote_q1 s h n)
unfolding promote_q1
Keeps-promote_q1 s h n = (ground arith, ground arith)

Keeps-leave_q2 : (s : Slab) (h i : ℕ) → Keeps s (leave_q2 s h i)
unfolding leave_q2
Keeps-leave_q2 s h i = let (a, b) = Keeps-unlink s i 2 in (ground (arith, a), ground (arith, b))

module _ {M L : Type 0} (d : Deps M L) where
  Keeps-remove_price_level :
      (b : Book M L) (p l : ℕ) (bid : Bool) → KeepsBook b (remove_price_level d b p l bid)
  unfolding remove_price_level price_remove
  Keeps-remove_price_level b p l true =
      let (x, y) = Keeps-unlink b.slab l 1 in (ground (arith, x), ground (arith, y))
  Keeps-remove_price_level b p l false =
      let (x, y) = Keeps-unlink b.slab l 1 in (ground (arith, x), ground (arith, y))

  Keeps-promote : (b : Book M L) (p h n : ℕ) (bid : Bool) → KeepsBook b (promote d b p h n bid)
  unfolding promote price_promote price_add price_remove
  Keeps-promote b p h n bid =
      let (x, y) = Keeps-promote_q2 b.slab h n in
      let (u, v) = Keeps-promote_q1 (promote_q2 b.slab h n) h n in (u ∙ x, v ∙ y)

  Keeps-leave_level :
      (b : Book M L) (p h i : ℕ) (bid : Bool) → KeepsBook b (leave_level d b p h i bid)
  unfolding leave_level
  Keeps-leave_level b p h i bid =
      let (x, y) = Keeps-leave_q2 b.slab h i in
      let (u, v) = Keeps-remove_price_level b p h bid in
      let (m, n) = Keeps-promote b p h (b.slab.next 2 i) bid in
      (ground (arith, x, u, m), ground (arith, y, v, n))

  Keeps-leave_org_head : (b : Book M L) (p i : ℕ) → KeepsBook b (leave_org_head b p i)
  unfolding leave_org_head
  Keeps-leave_org_head b p i = (ground arith, ground arith)

  -- `om_orderbook_remove_slot` leaves the fields of all orders as they were.
  pub Keeps-remove_slot : (b : Book M L) (p i : ℕ) → KeepsBook b (remove_slot d b p i).1
  unfolding remove_slot release free
  Keeps-remove_slot b p i =
      let bid = is_bid (b.slab.slots i).flags in
      elim (Option-cases (find_price_level b p (b.slab.slots i).price bid).0) [
        | inl gone ↦ (ground (arith, gone), ground (arith, gone))
        | inr (h, found) ↦
            let (x, y) = Keeps-leave_level b p h i bid in
            let (u, v) = Keeps-unlink (leave_level d b p h i bid).slab i 3 in
            (ground (arith, found, x, u), ground (arith, found, y, v))
      ]

  Keeps-insert_order_at :
      (b : Book M L) (p i : ℕ) (bid : Bool) (a : Option ℕ)
      → KeepsBook b (insert_order_at b p bid i a)
  unfolding insert_order_at
  Keeps-insert_order_at b p i true none = (ground arith, ground arith)
  Keeps-insert_order_at b p i false none = (ground arith, ground arith)
  Keeps-insert_order_at b p i bid (some a) =
      let head = side_head b p bid in
      let s = set_prev (set_next b.slab 1 i null) 1 i null in
      let s' = if head == null then s else set_prev (set_next s 1 i head) 1 head i in
      let (x, y) = Keeps-link_after s a i 1 in (ground (arith, x), ground (arith, y))

  Keeps-append_to_time_queue : (s : Slab) (h i : ℕ) → Keeps s (append_to_time_queue s h i)
  unfolding append_to_time_queue
  Keeps-append_to_time_queue s h i =
      Keeps-link_after s (if s.prev 2 h == null then h else s.prev 2 h) i 2

  Keeps-place : (b : Book M L) (p i : ℕ) → KeepsBook b (place d b p i)
  unfolding place price_add
  Keeps-place b p i =
      let bid = is_bid (b.slab.slots i).flags in
      let found = find_price_level b p (b.slab.slots i).price bid in
      let (x, y) = Keeps-insert_order_at b p i bid found.1 in
      elim (Option-cases found.0) [
        | inl gone ↦ (ground (arith, gone, x), ground (arith, gone, y))
        | inr (h, is) ↦
            let (u, v) = Keeps-append_to_time_queue b.slab h i in
            (ground (arith, is, u), ground (arith, is, v))
      ]

  Keeps-push_org : (b : Book M L) (p i : ℕ) → KeepsBook b (push_org b p i)
  unfolding push_org
  Keeps-push_org b p i =
      let head = b.org_heads (org_index b p (b.slab.slots i).org) in
      let (x, y) = Keeps-link_before b.slab head i 3 in (ground (arith, x), ground (arith, y))

  -- `om_orderbook_insert` leaves the fields of all orders as they were.
  pub Keeps-insert : (b : Book M L) (p i : ℕ) → KeepsBook b (insert d b p i).1
  unfolding insert
  Keeps-insert b p i =
      let slot = b.slab.slots i in
      let entry : Entry = record { slot_idx = i; product_id = p } in
      elim (Option-cases (d.hash_get b.order_hashmap slot.order_id)) [
        | inr (known, is) ↦ (ground (arith, is), ground (arith, is))
        | inl new ↦ elim (Option-cases (d.hash_insert b.order_hashmap slot.order_id entry)) [
          | inl full ↦ (ground (arith, new, full), ground (arith, new, full))
          | inr (hash, put) ↦
              let wal' = (d.append b.wal (inserted slot p)).1 in
              let b' = record b { order_hashmap = hash; wal = wal' } in
              let (x, y) = Keeps-place b' p i in
              let (u, v) = Keeps-push_org (place d b' p i) p i in
              (ground (arith, new, put, x, u), ground (arith, new, put, y, v))
        ]
      ]

  -- `om_orderbook_first_other_org` leaves the slab as it was.
  pub first_other_org-slab :
      (fuel : ℕ) (b : Book M L) (head org : ℕ) {i : ℕ} {b' : Book M L}
      → first_other_org fuel b head org ≡ some (i, b')
      → b'.slab ≡ b.slab
  unfolding first_other_org
  first_other_org-slab fuel b head org e =
      elim (Option-cases (other_org_loop fuel b.slab head org)) [
        | inl spent ↦ ground (arith, spent)
        | inr (j, found) ↦ ground (arith, found)
      ]
