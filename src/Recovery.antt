-- ===== src/Recovery.antt =====
-- src/orderbook.c: `om_orderbook_recover_from_wal`, which rebuilds the book from the records that
-- the reader of src/om_wal.c delivers. The log of the book is set aside meanwhile: `silent`.
pub mod Ids
pub mod Loop
pub mod NextId
pub mod Outcome
pub mod Restored
mod Tests
use veloxmatch.Base.{
  ℕ, zero, suc, ◌+◌, ◌-◌, ◌%◌, ◌*◌, ◌/◌, Bool, true, false, not, ◌&&◌, ◌||◌, Option, none, some,
  List, [], ◌∷◌, ◌++◌, length, take, drop, ltb, leb, ◌==◌, if◌then◌else◌, update, u32_mod, u64_mod,
  add64, uint32_max,
}
use veloxmatch.Slab.{Slab, Slot, alloc, free, set_slot}
use veloxmatch.Book.{Book, Deps, Entry, Record, set_slab, slot_from}
use veloxmatch.Book.Insert.{Status, insert}
use veloxmatch.Book.Remove.{cancel, unlink_slot}
use veloxmatch.Engine.Orders.{get_status, set_status, status_deactivated}
use veloxmatch.Replay.{
  Disk, Replay, init, ReadError, Answer, ended, failed, got, number, insert_size, cancel_size,
  match_size,
}
use veloxmatch.Replay.Next.{replay_next}

-- The errors of the recovery: OM_ERR_RECOVERY_FAILED, OM_ERR_SLAB_FULL, or that of the reader.
pub data RecoverError : Type 0 where
  recovery_failed slab_full : RecoverError
  replay_failed : (error : ReadError) → RecoverError

-- What a record does to the loop: it is passed over, it is counted in one of the four counts, or
-- the recovery fails.
pub data Effect : Type 0 where
  passed_over counts_insert counts_cancel counts_match counts_other : Effect
  stops : (error : RecoverError) → Effect

-- The number of `n` bytes from `at` on.
abbrev pub field : List ℕ → ℕ → ℕ → ℕ
field payload at n = number (take n (drop at payload))

-- `next_order_id` behind a number that the log has, 0 for none left
abbrev pub raise_next_id : ℕ → ℕ → ℕ
raise_next_id next_id id =
    if not (next_id == 0) && leb next_id id
    then (if id == uint32_max then 0 else (id + 1) % u32_mod)
    else next_id

abbrev pub set_next_id : {M L : Type 0} → Book M L → ℕ → Book M L
set_next_id b id = set_slab b (record b.slab { next_order_id = id })

-- The slot as an insert record has it; the user data goes over the front of the payload.
abbrev pub restored : Slot → List ℕ → Slot
restored slot payload =
    let user_size = field payload 40 4 in
    record {
      price = field payload 8 8;
      volume = field payload 16 8;
      volume_remain = field payload 24 8;
      org = field payload 32 2;
      flags = field payload 34 2;
      order_id = field payload 0 8 % u32_mod;
      payload = take user_size (drop insert_size payload) ++ drop user_size slot.payload;
    }

-- The slab with the slot and its auxiliary cell restored.
abbrev pub restore_slot : Slab → ℕ → List ℕ → Slab
restore_slot s i payload =
    let aux_size = field payload 44 4 in
    let aux = take aux_size (drop (insert_size + field payload 40 4) payload) in
    record (set_slot s i (restored (s.slots i) payload)) {
      aux_cells = update s.aux_cells i (aux ++ drop aux_size (s.aux_cells i));
    }

-- The calls without a log: every record is accepted, and nothing is written.
abbrev pub silent : {M L : Type 0} → Deps M L → Deps M L
silent d = record d { append = λ wal r. (true, wal) }

-- What follows the call of `om_orderbook_insert` in the case OM_WAL_INSERT.
abbrev pub finish_insert : {M L : Type 0} → ℕ → Status × Book M L → Effect × Book M L
finish_insert i (Status.done, b) = (counts_insert, b)
finish_insert i (Status.recovery_failed, b) =
    (stops RecoverError.recovery_failed, set_slab b (free b.slab i))
finish_insert i (Status.wal_write, b) =
    (stops RecoverError.recovery_failed, set_slab b (free b.slab i))

module _ {M L : Type 0} (d : Deps M L) where
  -- The case OM_WAL_INSERT
  unfoldable pub apply_insert : Book M L → List ℕ → Effect × Book M L
  apply_insert b payload =
      let id = field payload 0 8 in
      let product = field payload 36 2 in
      let config = b.slab.config in
      let raised = set_next_id b (raise_next_id b.slab.next_order_id id) in
      if ltb (length payload) insert_size
      then (passed_over, b)
      else if ltb config.user_data_size (field payload 40 4)
          || ltb config.aux_data_size (field payload 44 4)
          || leb b.max_products product
          || leb b.max_org (field payload 32 2)
          || (id == 0)
      then (stops RecoverError.recovery_failed, b)
      else elim (alloc raised.slab).0 [
        | none ↦ (stops RecoverError.slab_full, set_slab raised (alloc raised.slab).1)
        | some i ↦
            let ready = set_slab raised (restore_slot (alloc raised.slab).1 i payload) in
            finish_insert i (insert d ready product i)
      ]

  -- The case OM_WAL_CANCEL
  unfoldable pub apply_cancel : Book M L → List ℕ → Effect × Book M L
  apply_cancel b payload =
      if not (length payload == cancel_size)
      then (passed_over, b)
      else (counts_cancel, (cancel d b (field payload 0 8 % u32_mod)).1)

  -- The slot of the entry that the hash map has for an order
  abbrev pub slot_of_id : Book M L → ℕ → Option (Entry × ℕ)
  slot_of_id b id = elim (d.hash_get b.order_hashmap id) [
    | none ↦ none
    | some entry ↦ elim (slot_from b.slab entry.slot_idx) [ none ↦ none | some i ↦ some (entry, i) ]
  ]

  -- The part of the case OM_WAL_MATCH on the maker's slot
  unfoldable pub trade : Book M L → ℕ → ℕ → ℕ → Effect × Book M L
  trade b i maker volume =
      let slot = b.slab.slots i in
      let left = slot.volume_remain - volume in
      let traded = set_slab b (set_slot b.slab i (record slot { volume_remain = left })) in
      if ltb slot.volume_remain volume
      then (stops RecoverError.recovery_failed, b)
      else (counts_match, if left == 0 then (cancel d traded maker).1 else traded)

  -- The case OM_WAL_MATCH
  unfoldable pub apply_match : Book M L → List ℕ → Effect × Book M L
  apply_match b payload =
      let maker = field payload 0 8 in
      let taker = field payload 8 8 in
      let volume = field payload 24 8 in
      let highest = (if ltb taker maker then maker else taker) % u32_mod in
      let raised = set_next_id b (raise_next_id b.slab.next_order_id highest) in
      if not (length payload == match_size)
      then (passed_over, b)
      else if (maker == 0) || (taker == 0) || (volume == 0)
      then (stops RecoverError.recovery_failed, b)
      else elim (slot_of_id raised maker) [
        | none ↦ (stops RecoverError.recovery_failed, raised)
        | some found ↦ trade raised found.1 (maker % u32_mod) volume
      ]

  -- The case OM_WAL_DEACTIVATE
  unfoldable pub apply_deactivate : Book M L → List ℕ → Effect × Book M L
  apply_deactivate b payload =
      if not (length payload == cancel_size)
      then (passed_over, b)
      else elim (slot_of_id b (field payload 0 8)) [
        | none ↦ (counts_other, b)
        | some found ↦
            let i = found.1 in
            let b' = (unlink_slot d b found.0.product_id i).1 in
            let slot = b'.slab.slots i in
            let marked = record slot { flags = set_status slot.flags status_deactivated } in
            (counts_other, set_slab b' (set_slot b'.slab i marked))
      ]

  -- The case OM_WAL_ACTIVATE
  unfoldable pub apply_activate : Book M L → List ℕ → Effect × Book M L
  apply_activate b payload =
      let id = field payload 0 8 in
      if not (length payload == cancel_size) then (passed_over, b) else elim (slot_of_id b id) [
        | none ↦ (counts_other, b)
        | some found ↦
            let i = found.1 in
            if get_status (b.slab.slots i).flags == status_deactivated
            then (
              counts_other,
              record b { order_hashmap = d.hash_remove b.order_hashmap id; slab = free b.slab i },
            )
            else (counts_other, b)
      ]

  -- The switch on the type of a record
  abbrev pub apply_record : Book M L → ℕ → List ℕ → Effect × Book M L
  apply_record b type payload =
      if type == 1
      then apply_insert b payload
      else if type == 2
      then apply_cancel b payload
      else if type == 3
      then apply_match b payload
      else if type == 5
      then apply_deactivate b payload
      else if type == 6
      then apply_activate b payload
      else (counts_other, b)
