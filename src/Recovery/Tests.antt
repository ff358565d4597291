-- ===== src/Recovery/Tests.antt =====
-- The recovery of src/orderbook.c on a small book, and its theorem there.
use veloxmatch.Base.{
  ℕ, ◌≡◌, refl, inl, inr, List, [], ◌∷◌, ◌++◌, replicate, arith, Bool-cases, ◌==◌,
}
use veloxmatch.Book.{Book, Record, find_price_level, walk, price_add}
use veloxmatch.Book.Sample.{Map, deps, deps-HashLaws, two_asks, slab}
use veloxmatch.Book.Insert.{insert, place, push_org, insert_order_at, append_to_time_queue}
use veloxmatch.Slab.{alloc}
use veloxmatch.Slab.Queue.{link_after, link_before}
use veloxmatch.Replay.{number}
use veloxmatch.Recovery.{apply_insert, apply_record, counts_insert}
use veloxmatch.Recovery.NextId.{Fresh}
use veloxmatch.Recovery.Outcome.{apply_record-Fresh}
use veloxmatch.Slab.{Slot}
use veloxmatch.Wal.Insert
use veloxmatch.Book.Sample.{order}

abbrev book : Book Map (List Record)
book = record two_asks { slab = record slab { next_order_id = 3 } }

-- An insert record of order 9, an ask of 4 at 10.
abbrev ninth : List ℕ
ninth =
    9 ∷ replicate 7 0
    ++ 10 ∷ replicate 7 0
    ++ 4 ∷ replicate 7 0
    ++ 4 ∷ replicate 7 0
    ++ 1 ∷ 0 ∷ 1 ∷ replicate 21 0

book-Fresh : Fresh deps book
book-Fresh id = elim (Bool-cases (id == 1)) [
  | inl first ↦ rw first (inr (ground (arith, first)))
  | inr other ↦ elim (Bool-cases (id == 2)) [
    | inl second ↦ rw other (rw second (inr (ground (arith, second))))
    | inr third ↦ rw other (rw third refl)
  ]
]

apply_record-Fresh_example : Fresh deps (apply_record deps book 1 ninth).1
unfolding number
apply_record-Fresh_example =
    apply_record-Fresh deps book 1 ninth deps-HashLaws (ground arith) book-Fresh

ninth_runs :
    ((apply_record deps book 1 ninth).0 ≡ counts_insert)
    × ((apply_record deps book 1 ninth).1.slab.next_order_id ≡ 10)
unfolding apply_insert insert place push_org insert_order_at append_to_time_queue alloc number
    find_price_level walk price_add link_after link_before
ninth_runs = (refl, refl)

abbrev logged_order : Insert.Slot
logged_order = record {
  order_id = 300;
  price = 70000;
  volume = 8;
  volume_remain = 5;
  org = 2;
  flags = 257;
  user_data = 6 ∷ 7 ∷ [];
  aux_data = 9 ∷ [];
}

abbrev empty_slot : Slot
empty_slot = order 0 0 0 0 0
