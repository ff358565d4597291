-- ===== src/Recovery/Ids.antt =====
-- src/orderbook.c: what the calls on the book leave of the hash map and of the next order id.
use veloxmatch.Base.{
  ℕ, ◌≡◌, refl, ◌∙◌, Bool, true, false, inl, inr, Option, none, some, arith, Bool-cases,
  Option-cases, if◌then◌else◌, ◌==◌,
}
use veloxmatch.Slab.{Slab, null, set_next, set_prev, alloc, free}
use veloxmatch.Slab.Queue.{link_after, link_before, unlink}
use veloxmatch.Book.{
  Book, Deps, Entry, inserted, cancelled, org_index, price_add, price_remove, price_promote,
  find_price_level, is_bid, side_head,
}
use veloxmatch.Book.Insert.{insert, place, push_org, insert_order_at, append_to_time_queue}
use veloxmatch.Book.Leaving.{leave_level-frame, leave_org_head-hash}
use veloxmatch.Book.Remove.{
  promote_q1, promote_q2, leave_q2, leave_q3, leave_org_head, remove_price_level, promote,
  leave_level, release, unlink_slot, cancel,
}

-- The next order id is the same.
abbrev pub SameId : Slab → Slab → Type 0
SameId s s' = s'.next_order_id ≡ s.next_order_id

-- So are hash map and next order id.
abbrev pub SameIds : {M L : Type 0} → Book M L → Book M L → Type 0
SameIds b b' = (b'.order_hashmap ≡ b.order_hashmap) × SameId b.slab b'.slab

SameId-link_after : (s : Slab) (a i q : ℕ) → SameId s (link_after s a i q)
unfolding link_after
SameId-link_after s a i q = ground arith

SameId-link_before : (s : Slab) (a i q : ℕ) → SameId s (link_before s a i q)
unfolding link_before
SameId-link_before s a i q = ground arith

SameId-unlink : (s : Slab) (i q : ℕ) → SameId s (unlink s i q).1
unfolding unlink
SameId-unlink s i q = ground arith

SameId-promote_q2 : (s : Slab) (h n : ℕ) → SameId s (promote_q2 s h n)
unfolding promote_q2
SameId-promote_q2 s h n = ground arith

SameId-promote_q1 : (s : Slab) (h n : ℕ) → SameId s (promote_q1 s h n)
unfolding promote_q1
SameId-promote_q1 s h n = ground arith

SameId-leave_q2 : (s : Slab) (h i : ℕ) → SameId s (leave_q2 s h i)
unfolding leave_q2
SameId-leave_q2 s h i = let a = SameId-unlink s i 2 in ground (arith, a)

SameId-append : (s : Slab) (h i : ℕ) → SameId s (append_to_time_queue s h i)
unfolding append_to_time_queue
SameId-append s h i = SameId-link_after s (if s.prev 2 h == null then h else s.prev 2 h) i 2

pub SameId-alloc : (s : Slab) → SameId s (alloc s).1
unfolding alloc
SameId-alloc s = ground arith

pub SameId-free : (s : Slab) (i : ℕ) → SameId s (free s i)
unfolding free
SameId-free s i = refl

module _ {M L : Type 0} (d : Deps M L) where
  SameId-remove_price_level :
      (b : Book M L) (p l : ℕ) (bid : Bool) → SameId b.slab (remove_price_level d b p l bid).slab
  unfolding remove_price_level price_remove
  SameId-remove_price_level b p l true = let x = SameId-unlink b.slab l 1 in ground (arith, x)
  SameId-remove_price_level b p l false = let x = SameId-unlink b.slab l 1 in ground (arith, x)

  SameId-promote :
      (b : Book M L) (p h n : ℕ) (bid : Bool) → SameId b.slab (promote d b p h n bid).slab
  unfolding promote price_promote price_add price_remove
  SameId-promote b p h n bid =
      SameId-promote_q1 (promote_q2 b.slab h n) h n ∙ SameId-promote_q2 b.slab h n

  SameId-leave_level :
      (b : Book M L) (p h i : ℕ) (bid : Bool) → SameId b.slab (leave_level d b p h i bid).slab
  unfolding leave_level
  SameId-leave_level b p h i bid =
      let x = SameId-leave_q2 b.slab h i in
      let u = SameId-remove_price_level b p h bid in
      let m = SameId-promote b p h (b.slab.next 2 i) bid in ground (arith, x, u, m)

  SameId-leave_org_head : (b : Book M L) (p i : ℕ) → SameId b.slab (leave_org_head b p i).slab
  unfolding leave_org_head
  SameId-leave_org_head b p i = ground arith

  -- The three queues are left, and the next order id stays.
  SameId-left :
      (b : Book M L) (p h i : ℕ) (bid : Bool)
      → SameId b.slab (leave_q3 (leave_org_head (leave_level d b p h i bid) p i) i).slab
  SameId-left b p h i bid =
      SameId-unlink (leave_org_head (leave_level d b p h i bid) p i).slab i 3
      ∙ SameId-leave_org_head (leave_level d b p h i bid) p i
      ∙ SameId-leave_level b p h i bid

  pub SameId-cancel : (b : Book M L) (id : ℕ) → SameId b.slab (cancel d b id).1.slab
  unfolding cancel release free
  SameId-cancel b id = elim (Option-cases (d.hash_get b.order_hashmap id)) [
    | inl unknown ↦ ground (arith, unknown)
    | inr (entry, known) ↦
        let i = entry.slot_idx in
        let p = entry.product_id in
        let log = d.append b.wal (cancelled id i p) in
        let b1 = record b { wal = log.1 } in
        let bid = is_bid (b.slab.slots i).flags in
        elim (Bool-cases log.0) [
          | inr lost ↦ ground (arith, known, lost)
          | inl written ↦ elim (Option-cases (find_price_level b1 p (b.slab.slots i).price bid).0) [
            | inl no_level ↦ ground (arith, known, written, no_level)
            | inr (h, found) ↦
                let left = SameId-left b1 p h i bid in ground (arith, known, written, found, left)
          ]
        ]
  ]

  pub SameIds-unlink_slot : (b : Book M L) (p i : ℕ) → SameIds b (unlink_slot d b p i).1
  unfolding unlink_slot
  SameIds-unlink_slot b p i =
      let bid = is_bid (b.slab.slots i).flags in
      elim (Option-cases (find_price_level b p (b.slab.slots i).price bid).0) [
        | inl no_level ↦ (ground (arith, no_level), ground (arith, no_level))
        | inr (h, found) ↦
            let left = SameId-left b p h i bid in
            let hash = (leave_level-frame d b p h i bid).1 in
            let orgs = leave_org_head-hash d (leave_level d b p h i bid) p i in
            (ground (arith, found, hash, orgs), ground (arith, found, left))
      ]

  SameIds-insert_order_at :
      (b : Book M L) (p i : ℕ) (bid : Bool) (a : Option ℕ) → SameIds b (insert_order_at b p bid i a)
  unfolding insert_order_at
  SameIds-insert_order_at b p i true none = (ground arith, ground arith)
  SameIds-insert_order_at b p i false none = (ground arith, ground arith)
  SameIds-insert_order_at b p i bid (some a) =
      let head = side_head b p bid in
      let s = set_prev (set_next b.slab 1 i null) 1 i null in
      let s' = if head == null then s else set_prev (set_next s 1 i head) 1 head i in
      let x = SameId-link_after s a i 1 in (refl, ground (arith, x))

  SameIds-place : (b : Book M L) (p i : ℕ) → SameIds b (place d b p i)
  unfolding place price_add
  SameIds-place b p i =
      let bid = is_bid (b.slab.slots i).flags in
      let found = find_price_level b p (b.slab.slots i).price bid in
      let (x, y) = SameIds-insert_order_at b p i bid found.1 in
      elim (Option-cases found.0) [
        | inl gone ↦ (ground (arith, gone, x), ground (arith, gone, y))
        | inr (h, is) ↦
            let u = SameId-append b.slab h i in (ground (arith, is), ground (arith, is, u))
      ]

  SameIds-push_org : (b : Book M L) (p i : ℕ) → SameIds b (push_org b p i)
  unfolding push_org
  SameIds-push_org b p i =
      let head = b.org_heads (org_index b p (b.slab.slots i).org) in
      let x = SameId-link_before b.slab head i 3 in (ground arith, ground (arith, x))

  pub SameId-insert : (b : Book M L) (p i : ℕ) → SameId b.slab (insert d b p i).1.slab
  unfolding insert
  SameId-insert b p i =
      let slot = b.slab.slots i in
      let entry : Entry = record { slot_idx = i; product_id = p } in
      elim (Option-cases (d.hash_get b.order_hashmap slot.order_id)) [
        | inr (known, is) ↦ ground (arith, is)
        | inl new ↦ elim (Option-cases (d.hash_insert b.order_hashmap slot.order_id entry)) [
          | inl full ↦ ground (arith, new, full)
          | inr (hash, put) ↦
              let wal' = (d.append b.wal (inserted slot p)).1 in
              let b' = record b { order_hashmap = hash; wal = wal' } in
              let y = (SameIds-place b' p i).1 in
              let v = (SameIds-push_org (place d b' p i) p i).1 in ground (arith, new, put, y, v)
        ]
      ]
