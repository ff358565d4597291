-- ===== src/Recovery/Outcome.antt =====
-- src/orderbook.c: what a record of the log leaves of the ids that a book has, and of those that it
-- will give.
use veloxmatch.Base.{
  ℕ, ◌-◌, ◌%◌, ◌<◌, ◌≡◌, refl, ap, not, ◌||◌, inl, inr, List, length, arith, Option-cases,
  if◌then◌else◌, ltb, leb, ◌==◌, u32_mod,
}
use veloxmatch.Slab.{alloc, free, set_slot}
use veloxmatch.Book.{Book, Deps, set_slab}
use veloxmatch.Book.Insert.{insert}
use veloxmatch.Book.Entering.{insert_lem}
use veloxmatch.Book.Leaving.{HashLaws}
use veloxmatch.Book.Remove.{unlink_slot}
use veloxmatch.Recovery.{
  Effect, field, raise_next_id, set_next_id, restore_slot, apply_insert, apply_cancel, apply_match,
  apply_deactivate, apply_activate, apply_record, trade, slot_of_id,
}
use veloxmatch.Engine.Orders.{get_status, set_status, status_deactivated}
use veloxmatch.Replay.{insert_size, cancel_size, match_size}
use veloxmatch.Recovery.Ids.{SameId-alloc, SameId-free, SameIds-unlink_slot, SameId-insert}
use veloxmatch.Recovery.NextId.{
  Fresh, Fresh-same, Fresh-gone, finish_insert-Fresh, cancel-Fresh, raised-Fresh, raise-Below,
  if-holds,
}

module _ {M L : Type 0} (d : Deps M L) where
  apply_insert-Fresh :
      (b : Book M L) (payload : List ℕ)
      → HashLaws d
      → field payload 0 8 < u32_mod
      → Fresh d b
      → Fresh d (apply_insert d b payload).1
  unfolding apply_insert
  apply_insert-Fresh b payload laws small fresh =
      let id = field payload 0 8 in
      let product = field payload 36 2 in
      let raised = set_next_id b (raise_next_id b.slab.next_order_id id) in
      let P : Effect × Book M L → Type 0 = λ out. Fresh d out.1 in
      let up = raised-Fresh d b id small fresh in
      let kept = SameId-alloc raised.slab in
      if-holds P (ltb (length payload) insert_size) fresh (
        if-holds P
          (ltb b.slab.config.user_data_size (field payload 40 4)
            || ltb b.slab.config.aux_data_size (field payload 44 4)
            || leb b.max_products product
            || leb b.max_org (field payload 32 2)
            || (id == 0))
          fresh
          (elim (Option-cases (alloc raised.slab).0) [
            | inl full ↦
                rw full
                  (Fresh-same d raised (set_slab raised (alloc raised.slab).1) (λ j. refl) kept up)
            | inr (i, got) ↦
                let ready = set_slab raised (restore_slot (alloc raised.slab).1 i payload) in
                let new = raise-Below b.slab.next_order_id id small in
                let given : (ready.slab.slots i).order_id ≡ id = ground (arith, small) in
                let same : ready.slab.next_order_id ≡ raised.slab.next_order_id = kept in
                rw got (
                  finish_insert-Fresh d ready product i (insert d ready product i)
                    (insert_lem d ready product i laws) (SameId-insert d ready product i)
                    (rw given (rw same new)) (Fresh-same d raised ready (λ j. refl) same up))
          ]))

  trade-Fresh :
      (b : Book M L) (i maker volume : ℕ)
      → HashLaws d
      → Fresh d b
      → Fresh d (trade d b i maker volume).1
  unfolding trade
  trade-Fresh b i maker volume laws fresh =
      let P : Effect × Book M L → Type 0 = λ out. Fresh d out.1 in
      let slot = b.slab.slots i in
      let left = slot.volume_remain - volume in
      let traded = set_slab b (set_slot b.slab i (record slot { volume_remain = left })) in
      let kept = Fresh-same d b traded (λ j. refl) refl fresh in
      if-holds P (ltb slot.volume_remain volume) fresh
        (if-holds (λ c. Fresh d c) (left == 0) (cancel-Fresh d traded maker laws kept) kept)

  apply_match-Fresh :
      (b : Book M L) (payload : List ℕ)
      → HashLaws d
      → Fresh d b
      → Fresh d (apply_match d b payload).1
  unfolding apply_match
  apply_match-Fresh b payload laws fresh =
      let P : Effect × Book M L → Type 0 = λ out. Fresh d out.1 in
      let maker = field payload 0 8 in
      let taker = field payload 8 8 in
      let volume = field payload 24 8 in
      let highest = (if ltb taker maker then maker else taker) % u32_mod in
      let raised = set_next_id b (raise_next_id b.slab.next_order_id highest) in
      let up = raised-Fresh d b highest (omega arith) fresh in
      if-holds P (not (length payload == match_size)) fresh (
        if-holds P ((maker == 0) || (taker == 0) || (volume == 0)) fresh
          (elim (Option-cases (slot_of_id d raised maker)) [
            | inl unknown ↦ rw unknown up
            | inr (found, is) ↦ rw is (trade-Fresh raised found.1 (maker % u32_mod) volume laws up)
          ]))

  apply_deactivate-Fresh :
      (b : Book M L) (payload : List ℕ) → Fresh d b → Fresh d (apply_deactivate d b payload).1
  unfolding apply_deactivate
  apply_deactivate-Fresh b payload fresh =
      let P : Effect × Book M L → Type 0 = λ out. Fresh d out.1 in
      if-holds P (not (length payload == cancel_size)) fresh
        (elim (Option-cases (slot_of_id d b (field payload 0 8))) [
          | inl unknown ↦ rw unknown fresh
          | inr (found, is) ↦
              let b' = (unlink_slot d b found.0.product_id found.1).1 in
              let (hash, same) = SameIds-unlink_slot d b found.0.product_id found.1 in
              let slot = b'.slab.slots found.1 in
              let marked = record slot { flags = set_status slot.flags status_deactivated } in
              rw is (
                Fresh-same d b (set_slab b' (set_slot b'.slab found.1 marked))
                  (λ j. ap (λ h. d.hash_get h j) hash) same fresh)
        ])

  apply_activate-Fresh :
      (b : Book M L) (payload : List ℕ)
      → HashLaws d
      → Fresh d b
      → Fresh d (apply_activate d b payload).1
  unfolding apply_activate
  apply_activate-Fresh b payload laws fresh =
      let P : Effect × Book M L → Type 0 = λ out. Fresh d out.1 in
      let id = field payload 0 8 in
      if-holds P (not (length payload == cancel_size)) fresh
        (elim (Option-cases (slot_of_id d b id)) [
          | inl unknown ↦ rw unknown fresh
          | inr (found, is) ↦
              let i = found.1 in
              let out = record b {
                order_hashmap = d.hash_remove b.order_hashmap id;
                slab = free b.slab i;
              } in
              rw is (
                if-holds P (get_status (b.slab.slots i).flags == status_deactivated)
                  (Fresh-gone d b out id (laws.get_remove b.order_hashmap id) (SameId-free b.slab i)
                    fresh)
                  fresh)
        ])

  apply_cancel-Fresh :
      (b : Book M L) (payload : List ℕ)
      → HashLaws d
      → Fresh d b
      → Fresh d (apply_cancel d b payload).1
  unfolding apply_cancel
  apply_cancel-Fresh b payload laws fresh =
      if-holds (λ (out : Effect × Book M L). Fresh d out.1) (not (length payload == cancel_size))
        fresh (cancel-Fresh d b (field payload 0 8 % u32_mod) laws fresh)

  -- No record of the log makes the book give an id that is in use: where the ids in the hash map
  -- are all below the next order id, or no id is left, they are so behind the record as well,
  -- whatever its type is and also if it stops the recovery. The hash map is one, and the first
  -- field of the record, the order id of an insert, has 32 bits.
  pub apply_record-Fresh :
      (b : Book M L) (type : ℕ) (payload : List ℕ)
      → HashLaws d
      → field payload 0 8 < u32_mod
      → Fresh d b
      → Fresh d (apply_record d b type payload).1
  apply_record-Fresh b type payload laws small fresh =
      let P : Effect × Book M L → Type 0 = λ out. Fresh d out.1 in
      if-holds P (type == 1) (apply_insert-Fresh b payload laws small fresh) (
        if-holds P (type == 2) (apply_cancel-Fresh b payload laws fresh) (
          if-holds P (type == 3) (apply_match-Fresh b payload laws fresh) (
            if-holds P (type == 5) (apply_deactivate-Fresh b payload fresh)
              (if-holds P (type == 6) (apply_activate-Fresh b payload laws fresh) fresh))))
