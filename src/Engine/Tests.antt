-- ===== src/Engine/Tests.antt =====
-- The matching engine of src/om_engine.c on a small book, and its theorems there.
use veloxmatch.Base.{ap, arith, ◌+◌, ◌≡◌, refl, true, false, none, some, List, [], ◌∷◌}
use veloxmatch.Slab.{free}
use veloxmatch.Slab.Queue.{link_before, unlink, is_linked}
use veloxmatch.Book.{Record, Entry, find_price_level, walk, price_add, price_remove, price_promote}
use veloxmatch.Book.Insert.{Status, insert, place, push_org, insert_order_at}
use veloxmatch.Book.Remove.{
  unlink_slot, remove_slot, leave_level, promote, release, promote_q1, promote_q2, leave_q2,
}
use veloxmatch.Book.Query.{best_head, first_other_org, other_org_loop}
use veloxmatch.Book.Sample.{Map, deps, deps-HashLaws, two_asks, erase, grow, join}
use veloxmatch.Engine.{
  Engine, Callbacks, on_match, on_deal, on_filled, on_booked, engine_match, settle, levels, makers,
  maker_round, deal, book_taker, may_book, first_maker,
}
use veloxmatch.Engine.Orders.{deactivate, get_status, status_deactivated}
use veloxmatch.Engine.{slot_of}
use veloxmatch.Engine.Resting.{deactivate_twice}
use veloxmatch.Engine.Outcome.{Settled, engine_match_outcome}
use veloxmatch.Engine.Balance.{made, taken, remain, engine_match-balance}
use veloxmatch.Engine.Deals.{Since, Fair, org_of, engine_match-Fair}

abbrev silent : Callbacks
silent = record { can_match = none; pre_booked = none }

abbrev engine : Engine Map (List Record)
engine = record { orderbook = two_asks; events = [] }

-- A bid for 6 takes the 5 of the first ask and 1 of the second one.
engine_match_runs :
    ((engine_match deps 9 silent 0 2 false engine).0 ≡ some Status.done)
    × ((engine_match deps 9 silent 0 2 false engine).1.events
        ≡ on_deal 1 2 10 1
          ∷ on_match 2 10 1
          ∷ on_match 1 10 1
          ∷ on_filled 0
          ∷ on_deal 0 2 10 5
          ∷ on_match 2 10 5
          ∷ on_match 0 10 5
          ∷ [])
unfolding engine_match settle levels makers maker_round deal first_maker best_head remove_slot
    leave_level promote release promote_q1 promote_q2 find_price_level walk price_promote price_add
    price_remove unlink free erase join grow is_linked
engine_match_runs = (refl, refl)

-- The excluding call passes over the ask of the taker's org and books the rest.
engine_match_excluding_runs :
    ((engine_match deps 9 silent 0 2 true engine).0 ≡ some Status.done)
    × ((engine_match deps 9 silent 0 2 true engine).1.events
        ≡ on_booked 2 ∷ on_filled 1 ∷ on_deal 1 2 10 3 ∷ on_match 2 10 3 ∷ on_match 1 10 3 ∷ [])
unfolding engine_match settle levels makers maker_round deal first_maker best_head remove_slot
    leave_level release leave_q2 find_price_level walk price_add unlink free grow book_taker
    may_book first_other_org other_org_loop insert place push_org insert_order_at link_before
    is_linked
engine_match_excluding_runs = (refl, refl)

engine_match-balance_example :
    let e' = (engine_match deps 9 silent 0 2 false engine).1 in
    (remain e' 0 + made 0 e'.events ≡ remain engine 0 + made 0 engine.events)
    × (remain e' 2 + taken 2 e'.events ≡ remain engine 2 + taken 2 engine.events)
engine_match-balance_example =
    engine_match-balance deps 9 silent 0 2 false engine 0 (λ e. ground (arith, e))

engine_match-Fair_example :
    Since
      (Fair (org_of engine) true 12 2 true)
      []
      (engine_match deps 9 silent 0 2 true engine).1.events
engine_match-Fair_example = engine_match-Fair deps 9 silent 0 2 true engine

abbrev asleep : Engine Map (List Record)
asleep = (deactivate deps engine 2).1

deactivate_runs : deactivate deps engine 2 ≡ (true, asleep)
unfolding deactivate unlink_slot find_price_level walk
deactivate_runs = refl

deactivate_twice_example :
    (asleep.orderbook.order_hashmap ≡ engine.orderbook.order_hashmap)
    × ((entry : Entry) × (asleep.orderbook.order_hashmap 2 ≡ some entry)
        × (get_status (slot_of asleep entry.slot_idx).flags ≡ status_deactivated))
    × (deactivate deps asleep 2 ≡ (false, asleep))
deactivate_twice_example = deactivate_twice deps engine asleep 2 deactivate_runs

abbrev traded : Engine Map (List Record)
traded = (engine_match deps 9 silent 0 2 true engine).1

engine_match_outcome_example : Settled deps silent 0 2 traded
engine_match_outcome_example =
    engine_match_outcome deps deps-HashLaws 9 silent 0 2 true engine traded
      (ap (λ status. (status, traded)) engine_match_excluding_runs.0)
