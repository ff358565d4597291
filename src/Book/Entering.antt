-- ===== src/Book/Entering.antt =====
-- src/orderbook.c: what `om_orderbook_insert` does to the hash map, and what it leaves on an error.
use veloxmatch.Base.{
  ℕ, ◌≡◌, refl, ◌∙◌, inl, inr, Bool, true, false, ◌||◌, Option, none, some, arith, leb, ◌==◌,
  if◌then◌else◌, Bool-cases, Option-cases,
}
use veloxmatch.Book.{Book, Deps, Entry, inserted, is_bid, find_price_level, price_add}
use veloxmatch.Book.Insert.{Status, insert, place, push_org, insert_order_at}
use veloxmatch.Book.Leaving.{HashLaws}

module _ {M L : Type 0} (d : Deps M L) where
  insert_order_at-hash :
      (b : Book M L) (p i : ℕ) (bid : Bool) (a : Option ℕ)
      → (insert_order_at b p bid i a).order_hashmap ≡ b.order_hashmap
  unfolding insert_order_at
  insert_order_at-hash b p i true none = refl
  insert_order_at-hash b p i false none = refl
  insert_order_at-hash b p i bid (some a) = refl

  place-hash : (b : Book M L) (p i : ℕ) → (place d b p i).order_hashmap ≡ b.order_hashmap
  unfolding place price_add
  place-hash b p i =
      let bid = is_bid (b.slab.slots i).flags in
      let found = find_price_level b p (b.slab.slots i).price bid in
      elim (Option-cases found.0) [
        | inl gone ↦ ground (arith, gone, insert_order_at-hash b p i bid found.1)
        | inr (h, is) ↦ ground (arith, is)
      ]

  push_org-hash : (b : Book M L) (p i : ℕ) → (push_org b p i).order_hashmap ≡ b.order_hashmap
  unfolding push_org
  push_org-hash b p i = ground arith

  -- A book that differs from the one before in the log at most.
  abbrev Unentered : Book M L → Book M L → Type 0
  Unentered b b' =
      (b' ≡ record b { order_hashmap = b'.order_hashmap; wal = b'.wal })
      × ((j : ℕ) → d.hash_get b'.order_hashmap j ≡ d.hash_get b.order_hashmap j)

  -- What `om_orderbook_insert` may leave, by what it returns.
  abbrev pub AfterInsert : Book M L → ℕ → ℕ → Status × Book M L → Type 0
  AfterInsert b p i (Status.done, b') =
      (j : ℕ)
      → d.hash_get b'.order_hashmap j ≡ (
          if (b.slab.slots i).order_id == j
          then some (record { slot_idx = i; product_id = p })
          else d.hash_get b.order_hashmap j)
  AfterInsert b p i (Status.recovery_failed, b') = Unentered b b'
  AfterInsert b p i (Status.wal_write, b') = Unentered b b'

  -- `om_orderbook_insert` that succeeds has added the order's entry, and no other, to the hash map,
  -- where that is a map. One that fails has left the book as it was but for the log: no id is
  -- looked up differently, also where the entry was added before the log refused the record.
  pub insert_lem : (b : Book M L) (p i : ℕ) → HashLaws d → AfterInsert b p i (insert d b p i)
  unfolding insert
  insert_lem b p i laws =
      let slot = b.slab.slots i in
      let id = slot.order_id in
      let entry : Entry = record { slot_idx = i; product_id = p } in
      let log = d.append b.wal (inserted slot p) in
      let out = insert d b p i in
      elim (Bool-cases (leb b.max_products p || leb b.max_org slot.org || (id == 0))) [
        | inl bad ↦
            let is : out ≡ (Status.recovery_failed, b) = ground (arith, bad) in
            rw is (refl, λ j. refl)
        | inr good ↦ elim (Option-cases (d.hash_get b.order_hashmap id)) [
          | inr (e0, known) ↦
              let is : out ≡ (Status.recovery_failed, b) = ground (arith, good, known) in
              rw is (refl, λ j. refl)
          | inl new ↦ elim (Option-cases (d.hash_insert b.order_hashmap id entry)) [
            | inl full ↦
                let is : out ≡ (Status.recovery_failed, b) = ground (arith, good, new, full) in
                rw is (refl, λ j. refl)
            | inr (hash, put) ↦ elim (Bool-cases log.0) [
              | inr lost ↦
                  let back = record b { order_hashmap = d.hash_remove hash id; wal = log.1 } in
                  let is : out ≡ (Status.wal_write, back) = ground (arith, good, new, put, lost) in
                  rw is (
                    refl,
                    λ j. ground (
                      arith,
                      laws.get_remove hash id j,
                      new,
                      laws.get_insert b.order_hashmap id j entry put,
                    ),
                  )
              | inl written ↦
                  let b' = record b { order_hashmap = hash; wal = log.1 } in
                  let done_book = push_org (place d b' p i) p i in
                  let is : out ≡ (Status.done, done_book) =
                    ground (arith, good, new, put, written) in
                  let same : done_book.order_hashmap ≡ hash =
                    push_org-hash (place d b' p i) p i ∙ place-hash b' p i in
                  rw is (λ j. rw same (laws.get_insert b.order_hashmap id j entry put))
            ]
          ]
        ]
      ]
