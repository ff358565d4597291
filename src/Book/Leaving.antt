-- ===== src/Book/Leaving.antt =====
-- src/orderbook.c: what becomes of an order that leaves the book: its entry in the hash map, its
-- slot, the head of its org's queue, and the tail of its level.
use veloxmatch.Base.{
  ℕ, ◌≡◌, ◌≢◌, refl, ap, ◌∙◌, inl, inr, Bool, true, false, none, some, arith, ◌==◌, if◌then◌else◌,
  Bool-cases, Option-cases,
}
use veloxmatch.Slab.{Slab, null, free}
use veloxmatch.Slab.Queue.{unlink, link_after}
use veloxmatch.Book.{
  Book, Deps, Entry, is_bid, org_index, find_price_level, price_remove, price_promote, price_add,
  cancelled,
}
use veloxmatch.Book.Insert.{append_to_time_queue}
use veloxmatch.Book.Remove.{
  remove_price_level, promote, leave_level, leave_org_head, leave_q3, leave_q2, release,
  remove_slot, cancel,
}

-- What the hash map of the klib library promises.
pub record HashLaws {M L : Type 0} (d : Deps M L) : Type 0 where
  pub get_insert :
      (m : M) (i j : ℕ) (e : Entry) {m' : M}
      → d.hash_insert m i e ≡ some m'
      → d.hash_get m' j ≡ (if i == j then some e else d.hash_get m j)
  pub get_remove :
      (m : M) (i j : ℕ)
      → d.hash_get (d.hash_remove m i) j ≡ (if i == j then none else d.hash_get m j)

-- An order in no queue that leaves queue 2 takes the tail of the level with it.
leave_q2-tail :
    (s : Slab) (h i : ℕ)
    → i ≢ h
    → s.next 2 i ≡ null
    → s.prev 2 i ≡ null
    → (leave_q2 s h i).prev 2 h ≡ null
unfolding leave_q2
leave_q2-tail s h i other next prev = ground (arith, next, prev)

unlink-prev : (s : Slab) (i h : ℕ) → (unlink s i 3).1.prev 2 h ≡ s.prev 2 h
unfolding unlink
unlink-prev s i h = ground arith

free-prev : (s : Slab) (i h : ℕ) → i ≢ h → (free s i).prev 2 h ≡ s.prev 2 h
unfolding free
free-prev s i h other = ground arith

append-behind_head :
    (s : Slab) (h j : ℕ) → s.prev 2 h ≡ null → (append_to_time_queue s h j).next 2 h ≡ j
unfolding append_to_time_queue link_after
append-behind_head s h j tail = ground (arith, tail)

module _ {M L : Type 0} (d : Deps M L) where
  leave_level-behind :
      (b : Book M L) (p h i : ℕ) (bid : Bool)
      → i ≢ h
      → (leave_level d b p h i bid).slab ≡ leave_q2 b.slab h i
  unfolding leave_level
  leave_level-behind b p h i bid other = ground arith

  -- Leaving a level changes neither the org heads nor the hash map, nor the free list.
  pub leave_level-frame :
      (b : Book M L) (p h i : ℕ) (bid : Bool)
      → let b' = leave_level d b p h i bid in
        (b'.org_heads ≡ b.org_heads)
        × (b'.order_hashmap ≡ b.order_hashmap)
        × (b'.max_org ≡ b.max_org)
        × (b'.max_products ≡ b.max_products)
  unfolding leave_level remove_price_level promote price_remove price_promote price_add
  leave_level-frame b p h i true = (ground arith, ground arith, ground arith, ground arith)
  leave_level-frame b p h i false = (ground arith, ground arith, ground arith, ground arith)

  -- `om_orderbook_remove_slot` of an order whose level is found frees the slot but leaves the head
  -- of the org's queue: where the order was that head, the head is now the first free slot.
  pub remove_slot-stale :
      (b : Book M L) (p i h : ℕ)
      → (find_price_level b p (b.slab.slots i).price (is_bid (b.slab.slots i).flags)).0 ≡ some h
      → b.org_heads (org_index b p (b.slab.slots i).org) ≡ i
      → let b' = (remove_slot d b p i).1 in
        ((remove_slot d b p i).0 ≡ true)
        × (b'.org_heads (org_index b p (b.slab.slots i).org) ≡ b'.slab.free_a)
  unfolding remove_slot release free
  remove_slot-stale b p i h found head =
      let bid = is_bid (b.slab.slots i).flags in
      let (orgs, hash, maxo, maxp) = leave_level-frame b p h i bid in
      (ground (arith, found), ground (arith, found, orgs, head, maxo))

  pub leave_org_head-hash :
      (b : Book M L) (p i : ℕ) → (leave_org_head b p i).order_hashmap ≡ b.order_hashmap
  unfolding leave_org_head
  leave_org_head-hash b p i = ground arith

  -- What `om_orderbook_cancel` may leave, by what it returns.
  abbrev pub AfterCancel : Book M L → ℕ → Bool × Book M L → Type 0
  AfterCancel b order_id (false, b') = b' ≡ record b { wal = b'.wal }
  AfterCancel b order_id (true, b') =
      (j : ℕ)
      → d.hash_get b'.order_hashmap j
        ≡ (if order_id == j then none else d.hash_get b.order_hashmap j)

  -- `om_orderbook_cancel` that returns false has changed nothing but the log, and one that returns
  -- true has taken the order's entry, and no other, from the hash map, where the map is one.
  pub cancel_lem :
      (b : Book M L) (order_id : ℕ) → HashLaws d → AfterCancel b order_id (cancel d b order_id)
  unfolding cancel release
  cancel_lem b id laws = elim (Option-cases (d.hash_get b.order_hashmap id)) [
    | inl unknown ↦ let is : cancel d b id ≡ (false, b) = ground (arith, unknown) in rw is refl
    | inr (entry, known) ↦
        let i = entry.slot_idx in
        let p = entry.product_id in
        let log = d.append b.wal (cancelled id i p) in
        let b1 = record b { wal = log.1 } in
        let slot = b.slab.slots i in
        let bid = is_bid slot.flags in
        elim (Bool-cases log.0) [
          | inr lost ↦
              let is : cancel d b id ≡ (false, b1) = ground (arith, known, lost) in rw is refl
          | inl written ↦ elim (Option-cases (find_price_level b1 p slot.price bid).0) [
            | inl no_level ↦
                let is : cancel d b id ≡ (false, b1) = ground (arith, known, written, no_level) in
                rw is refl
            | inr (h, found) ↦
                let left = leave_org_head (leave_level d b1 p h i bid) p i in
                let is : cancel d b id ≡ (true, release d (leave_q3 left i) i id) =
                  ground (arith, known, written, found) in
                let same : left.order_hashmap ≡ b.order_hashmap =
                  leave_org_head-hash (leave_level d b1 p h i bid) p i
                  ∙ (leave_level-frame b1 p h i bid).1 in
                rw is (λ j. rw same (laws.get_remove b.order_hashmap id j))
          ]
        ]
  ]

  -- `om_orderbook_remove_slot` of an order that is linked in no queue, as a deactivated order is,
  -- finds the level of its price all the same and clears the tail of it. The next order that joins
  -- the level is put right behind the head, before all others that wait there.
  pub remove_slot-tail :
      (b : Book M L) (p i h j : ℕ)
      → (find_price_level b p (b.slab.slots i).price (is_bid (b.slab.slots i).flags)).0 ≡ some h
      → i ≢ h
      → b.slab.next 2 i ≡ null
      → b.slab.prev 2 i ≡ null
      → let s = (remove_slot d b p i).1.slab in
        (s.prev 2 h ≡ null) × ((append_to_time_queue s h j).next 2 h ≡ j)
  unfolding remove_slot release free
  remove_slot-tail b p i h j found other next prev =
      let bid = is_bid (b.slab.slots i).flags in
      let out = leave_level d b p h i bid in
      let left : out.slab ≡ leave_q2 b.slab h i = leave_level-behind b p h i bid other in
      let s = free (unlink out.slab i 3).1 i in
      let is : (remove_slot d b p i).1.slab ≡ s = ground (arith, found) in
      let tail : s.prev 2 h ≡ null =
        free-prev (unlink out.slab i 3).1 i h other
        ∙ unlink-prev out.slab i h
        ∙ ap (λ s. s.prev 2 h) left
        ∙ leave_q2-tail b.slab h i other next prev in
      rw is (tail, append-behind_head s h j tail)
