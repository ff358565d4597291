-- ===== src/Engine.antt =====
-- src/om_engine.c and include/openmatch/om_engine.h: the matching engine over the order book. The
-- loops of `engine_match` are functions on fuel that stop with the state they have reached when the
-- fuel is spent. The calls of the engine's callbacks are a list of events, the newest first; what
-- `can_match` and `pre_booked` answer may depend on all of it, as it may through `user_ctx`. A
-- callback that is not set is one that nobody listens to. The engine's log is that of the book.
pub mod Loops
pub mod Balance
pub mod Deals
pub mod Orders
pub mod Resting
pub mod Outcome
mod Tests
use veloxmatch.Base.{
  ℕ, zero, suc, ◌-◌, min, Bool, true, false, not, ◌&&◌, ◌||◌, Option, none, some, List, ◌∷◌, ltb,
  ◌==◌, if◌then◌else◌, uint64_max,
}
use veloxmatch.Slab.{Slab, Slot, null, in_slab, set_slot}
use veloxmatch.Book.{Book, Deps, Record, matched, cancelled, is_bid, set_slab}
use veloxmatch.Book.Insert.{Status, insert}
use veloxmatch.Book.Remove.{remove_slot}
use veloxmatch.Book.Query.{best_head, first_other_org}

-- OM_CAN_MATCH_CANCEL_MAKER, OM_CAN_MATCH_CANCEL_BOTH and OM_CAN_MATCH_DECREMENT_CANCEL
abbrev pub cancel_maker : ℕ
cancel_maker = uint64_max - 1

abbrev pub cancel_both : ℕ
cancel_both = uint64_max - 2

abbrev pub decrement_cancel : ℕ
decrement_cancel = uint64_max - 3

-- The calls of the callbacks, orders by their slots; and `taker_dropped`, which no callback sees:
-- the rest of the taker is set to 0.
pub data Event : Type 0 where
  on_match : (order price qty : ℕ) → Event
  on_deal : (maker taker price qty : ℕ) → Event
  on_decrement_cancel : (maker taker qty : ℕ) → Event
  on_booked on_filled on_cancel : (order : ℕ) → Event
  taker_dropped : (taker qty : ℕ) → Event

-- The callbacks of `OmEngineCallbacks` that answer.
pub record Callbacks : Type 0 where
  pub can_match : Option (List Event → Slot → Slot → ℕ)
  pub pre_booked : Option (List Event → Slot → Bool)

-- `OmEngine`, with the events up to now
pub record Engine (M L : Type 0) : Type 0 where
  pub orderbook : Book M L
  pub events : List Event

-- How a loop of `engine_match` goes on: it is left with what remains of the taker, it goes on at
-- another slot, or the call returns OM_ERR_WAL_WRITE.
pub data Round (M L : Type 0) : Type 0 where
  leave : (e : Engine M L) (remaining : ℕ) → Round M L
  again : (e : Engine M L) (remaining idx : ℕ) → Round M L
  failed : (e : Engine M L) → Round M L

-- `order->volume_remain = v`
abbrev pub set_remain : {M L : Type 0} → Engine M L → ℕ → ℕ → Engine M L
set_remain e i v = record e {
  orderbook = record e.orderbook {
    slab = set_slot e.orderbook.slab i (record (e.orderbook.slab.slots i) { volume_remain = v });
  };
}

-- The two writes of a trade: the maker loses `qty`, which it has, and the taker keeps `left`.
abbrev pub moved : {M L : Type 0} → Engine M L → ℕ → ℕ → ℕ → ℕ → Engine M L
moved e maker taker qty left =
    set_remain (set_remain e maker ((e.orderbook.slab.slots maker).volume_remain - qty)) taker left

abbrev pub tell : {M L : Type 0} → Engine M L → Event → Engine M L
tell e event = record e { events = event ∷ e.events }

abbrev pub slot_of : {M L : Type 0} → Engine M L → ℕ → Slot
slot_of e i = e.orderbook.slab.slots i

-- The engine after a call of the log, and whether the record was accepted.
abbrev pub logged : {M L : Type 0} → Deps M L → Engine M L → Record → Bool × Engine M L
logged d e r =
    let (accepted, wal') = d.append e.orderbook.wal r in
    (accepted, record e { orderbook = record e.orderbook { wal = wal' } })

-- Is the level's price worse than the limit of the taker?
abbrev pub beyond : Bool → ℕ → ℕ → Bool
beyond bid limit price = if bid then ltb limit price else ltb price limit

-- The answer of `pre_booked`
unfoldable pub may_book : {M L : Type 0} → Callbacks → Engine M L → ℕ → Bool
may_book cb e taker = elim cb.pre_booked [ none ↦ true | some ask ↦ ask e.events (slot_of e taker) ]

-- Where the inner loop begins, and the book with what was learnt of the level.
unfoldable pub first_maker : {M L : Type 0} → ℕ → ℕ → Bool → Engine M L → ℕ → Option (ℕ × Book M L)
first_maker fuel taker exclude e level =
    if exclude && ((slot_of e level).org == (slot_of e taker).org)
    then first_other_org fuel e.orderbook level (slot_of e taker).org
    else some (level, e.orderbook)

module _ {M L : Type 0} (d : Deps M L) where
  abbrev pub removed : Engine M L → ℕ → ℕ → Engine M L
  removed e product i = record e { orderbook = (remove_slot d e.orderbook product i).1 }

  -- A trade of `qty` between the maker and the taker. The volumes are at least `qty`, so the
  -- subtractions do not wrap.
  unfoldable pub deal : ℕ → ℕ → Engine M L → ℕ → ℕ → ℕ → ℕ → ℕ → Round M L
  deal product taker e price remaining maker next qty =
      let m = (slot_of e maker).order_id in
      let t = (slot_of e taker).order_id in
      let (accepted, e') = logged d e (matched m t price qty product) in
      let left = remaining - qty in
      let volumes = moved e' maker taker qty left in
      let told =
        tell (tell (tell volumes (on_match maker price qty)) (on_match taker price qty))
          (on_deal maker taker price qty) in
      if not accepted
      then failed e'
      else if (slot_of told maker).volume_remain == 0
      then again (removed (tell told (on_filled maker)) product maker) left next
      else if left == 0
      then leave told left
      else again told left maker

  -- The answer OM_CAN_MATCH_DECREMENT_CANCEL.
  unfoldable pub decrement : ℕ → ℕ → Engine M L → ℕ → ℕ → ℕ → ℕ → ℕ → Round M L
  decrement product taker e price remaining maker next qty =
      let m = (slot_of e maker).order_id in
      let t = (slot_of e taker).order_id in
      let (accepted, e') = logged d e (matched m t price qty product) in
      let left = remaining - qty in
      let volumes = moved e' maker taker qty left in
      let told = tell volumes (on_decrement_cancel maker taker qty) in
      let gone = (slot_of told maker).volume_remain == 0 in
      let after = if gone then removed told product maker else told in
      if not accepted
      then failed e'
      else if left == 0
      then leave after left
      else again after left (if gone then next else maker)

  -- The answers OM_CAN_MATCH_CANCEL_MAKER and OM_CAN_MATCH_CANCEL_BOTH.
  unfoldable pub drop_maker : ℕ → ℕ → Engine M L → ℕ → ℕ → ℕ → Bool → Round M L
  drop_maker product taker e remaining maker next both =
      let (accepted, e') = logged d e (cancelled (slot_of e maker).order_id maker product) in
      let after = removed (tell e' (on_cancel maker)) product maker in
      if not accepted
      then failed e'
      else if both
      then leave (set_remain (tell after (taker_dropped taker remaining)) taker 0) 0
      else again after remaining next

  -- One round of the inner loop of `engine_match`, at a maker that the loop's test let in.
  unfoldable pub maker_round : Callbacks → ℕ → ℕ → Bool → Engine M L → ℕ → ℕ → ℕ → Round M L
  maker_round cb product taker exclude e price remaining maker =
      let s = e.orderbook.slab in
      let next = s.next 2 maker in
      let matchable = min (s.slots maker).volume_remain remaining in
      if not (in_slab s maker)
      then leave e remaining
      else if exclude && ((s.slots maker).org == (s.slots taker).org)
      then again e remaining next
      else if (s.slots maker).volume_remain == 0
      then again (removed e product maker) remaining next
      else elim cb.can_match [
        | none ↦
            if matchable == 0
            then again e remaining next
            else deal product taker e price remaining maker next matchable
        | some ask ↦
            let allowed = ask e.events (s.slots maker) (s.slots taker) in
            if (allowed == cancel_maker) || (allowed == cancel_both)
            then drop_maker product taker e remaining maker next (allowed == cancel_both)
            else if allowed == decrement_cancel
            then decrement product taker e price remaining maker next matchable
            else if (allowed == 0) || (min allowed matchable == 0)
            then again e remaining next
            else deal product taker e price remaining maker next (min allowed matchable)
      ]

  -- The inner loop of `engine_match`, on fuel.
  unfoldable pub makers : ℕ → Callbacks → ℕ → ℕ → Bool → Engine M L → ℕ → ℕ → ℕ → Round M L
  makers zero cb product taker exclude e price remaining idx = again e remaining idx
  makers (suc fuel) cb product taker exclude e price remaining idx =
      elim ((idx == null) || (remaining == 0)) [
        | true ↦ leave e remaining
        | false ↦ elim (maker_round cb product taker exclude e price remaining idx) [
          | leave e' left ↦ leave e' left
          | again e' left next ↦ makers fuel cb product taker exclude e' price left next
          | failed e' ↦ failed e'
        ]
      ]

  -- The outer loop of `engine_match`, on fuel.
  unfoldable pub levels :
      ℕ → ℕ → Callbacks → ℕ → ℕ → Bool → ℕ → Bool → Engine M L → ℕ → ℕ → Round M L
  levels zero inner cb product taker bid limit exclude e remaining idx = again e remaining idx
  levels (suc fuel) inner cb product taker bid limit exclude e remaining idx =
      let price = (slot_of e idx).price in
      elim ((remaining == 0) || not (in_slab e.orderbook.slab idx) || beyond bid limit price) [
        | true ↦ leave e remaining
        | false ↦ elim (first_maker inner taker exclude e idx) [
          | none ↦ again e remaining idx
          | some (start, book) ↦
              elim (makers inner cb product taker exclude (record e { orderbook = book }) price
                remaining start) [
                  | leave e' left ↦
                      levels fuel inner cb product taker bid limit exclude e' left
                        (e.orderbook.slab.next 1 idx)
                  | again e' left next ↦ again e' left next
                  | failed e' ↦ failed e'
                ]
        ]
      ]

  -- What `engine_match` does with a taker that has volume left.
  unfoldable pub book_taker : Callbacks → ℕ → ℕ → Engine M L → Status × Engine M L
  book_taker cb product taker e =
      let (status, book) = insert d e.orderbook product taker in
      let after = record e { orderbook = book } in
      if not (may_book cb e taker) then (Status.done, tell e (on_cancel taker)) else elim status [
        | Status.done ↦ (Status.done, tell after (on_booked taker))
        | Status.recovery_failed ↦ (Status.recovery_failed, after)
        | Status.wal_write ↦ (Status.wal_write, after)
      ]

  -- The end of `engine_match`: the code it returns, none if the fuel was spent first.
  unfoldable pub settle : Callbacks → ℕ → ℕ → Round M L → Option Status × Engine M L
  settle cb product taker (again e left idx) = (none, e)
  settle cb product taker (failed e) = (some Status.wal_write, e)
  settle cb product taker (leave e left) =
      if left == 0
      then (some Status.done, e)
      else (some (book_taker cb product taker e).0, (book_taker cb product taker e).1)

  -- `engine_match`
  unfoldable pub engine_match :
      ℕ → Callbacks → ℕ → ℕ → Bool → Engine M L → Option Status × Engine M L
  engine_match fuel cb product taker exclude e =
      let slot = slot_of e taker in
      let bid = is_bid slot.flags in
      let head : ℕ = elim (best_head e.orderbook product (not bid)) [ none ↦ null | some i ↦ i ] in
      let out =
        levels fuel fuel cb product taker bid slot.price exclude e slot.volume_remain head in
      if slot.volume_remain == 0 then (some Status.done, e) else settle cb product taker out
