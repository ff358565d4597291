-- ===== src/Book/Tests.antt =====
-- The order book of src/orderbook.c on a few orders, and its theorems there.
use veloxmatch.Base.{[], none, ℕ, ◌≡◌, refl, inr, true, false, some, List, arith}
use veloxmatch.Slab.{null}
use veloxmatch.Slab.Queue.{link_after, link_before}
use veloxmatch.Book.{Book, Record, leaf, node, find_price_level, walk, price_add, side_head}
use veloxmatch.Book.Insert.{Status, insert, place, push_org, insert_order_at, append_to_time_queue}
use veloxmatch.Book.Remove.{remove_slot, cancel}
use veloxmatch.Book.Query.{best_price, volume_at_price, sum_volume}
use veloxmatch.Book.Walk.{Has, root, left, right, empty, split}
use veloxmatch.Book.Levels.{IsSide, find_price_level_lem, Finds}
use veloxmatch.Book.Leaving.{AfterCancel, cancel_lem, remove_slot-stale, remove_slot-tail}
use veloxmatch.Book.Entering.{AfterInsert, insert_lem}
use veloxmatch.Base.Result.{ok}
use veloxmatch.Slab.{Config, built}
use veloxmatch.Slab
use veloxmatch.Book.Init.{Allocs, fresh, init, init-IsSide}
use veloxmatch.Book.Sample.{Map, deps, deps-HashLaws, empty_book, two_asks, grow}

abbrev one : Book Map (List Record)
one = (insert deps empty_book 0 0).1

abbrev both : Book Map (List Record)
both = (insert deps one 0 1).1

insert_runs :
    ((insert deps empty_book 0 0).0 ≡ Status.done)
    × ((insert deps one 0 1).0 ≡ Status.done)
    × ((insert deps both 0 1).0 ≡ Status.recovery_failed)
    × (best_price both 0 false ≡ 10)
    × (volume_at_price 4 both 0 10 false ≡ some 8)
    × (volume_at_price 4 both 0 11 false ≡ some 0)
unfolding insert place push_org insert_order_at append_to_time_queue link_after link_before
    find_price_level walk price_add best_price volume_at_price sum_volume grow
insert_runs = (refl, refl, refl, refl, refl, refl)

insert_lem_example : AfterInsert deps two_asks 0 2 (insert deps two_asks 0 2)
insert_lem_example = insert_lem deps two_asks 0 2 deps-HashLaws

cancel_lem_example : AfterCancel deps two_asks 2 (cancel deps two_asks 2)
cancel_lem_example = cancel_lem deps two_asks 2 deps-HashLaws

remove_slot-stale_example :
    let b' = (remove_slot deps two_asks 0 1).1 in
    ((remove_slot deps two_asks 0 1).0 ≡ true) × (b'.org_heads 2 ≡ b'.slab.free_a)
unfolding find_price_level walk
remove_slot-stale_example = remove_slot-stale deps two_asks 0 1 0 refl refl

remove_slot-tail_example :
    let s = (remove_slot deps two_asks 0 3).1.slab in
    (s.prev 2 0 ≡ null) × ((append_to_time_queue s 0 2).next 2 0 ≡ 2)
unfolding find_price_level walk
remove_slot-tail_example =
    remove_slot-tail deps two_asks 0 3 0 2 refl (λ e. ground (arith, e)) refl refl

only_level : (p i : ℕ) → Has p i (node leaf 10 0 leaf) → (p ≡ 10) × (i ≡ 0)
only_level p i root = (refl, refl)
only_level p i (left h) = elim h [ ]
only_level p i (right h) = elim h [ ]

asks : IsSide two_asks 0 false
asks = record {
  ordered = split (λ q j h. elim h [ ]) (λ q j h. elim h [ ]) empty empty;
  slots = λ p i h. let (price, at) = only_level p i h in ground (arith, at);
  best = inr (λ e. ground (arith, e), λ p i h. ground (arith, only_level p i h));
}

find_price_level_lem_example : Finds two_asks 0 11 false (find_price_level two_asks 0 11 false)
find_price_level_lem_example = find_price_level_lem two_asks 0 11 false asks

abbrev config : Config
config = record { user_data_size = 0; aux_data_size = 0; total_slots = 4 }

abbrev granted : Allocs
granted = record {
  products = true;
  org_heads = true;
  slab_a = true;
  slab_b = true;
  hash = true;
  price_nodes = true;
}

abbrev new_book : Book Map (List Record)
new_book = fresh (λ i. none) [] (built config) 1 4

init_runs : init {L = List Record} (λ i. none) [] config granted 1 4 ≡ ok new_book
unfolding init veloxmatch.Slab.init
init_runs = refl

init-IsSide_example :
    IsSide new_book 0 true
    × (side_head new_book 0 true ≡ null)
    × ((price : ℕ) → find_price_level new_book 0 price true ≡ (none, none))
    × (new_book.org_heads 3 ≡ null)
    × (Slab.init config true true ≡ ok new_book.slab)
    × (new_book.order_hashmap ≡ (λ i. none))
init-IsSide_example =
    init-IsSide (λ i. none) [] config granted 1 4 new_book 0 3 true (omega arith) (omega arith)
      (omega arith) init_runs
