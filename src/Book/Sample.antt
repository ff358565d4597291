-- ===== src/Book/Sample.antt =====
-- A small book for the tests of src/orderbook.c and src/om_engine.c: a map as a function, a search
-- tree that is not balanced, a log that accepts all, and a few orders.
use veloxmatch.Base.{
  ℕ, ◌+◌, true, Option, none, some, List, [], ◌∷◌, arith, ltb, ◌==◌, if◌then◌else◌, update,
  uint32_max,
}
use veloxmatch.Slab.{Slab, Slot, null, zeroed}
use veloxmatch.Book.{Book, Deps, Entry, PriceNode, leaf, node, Record}
use veloxmatch.Book.Leaving.{HashLaws}

unfoldable pub grow : PriceNode → ℕ → ℕ → PriceNode
grow leaf price i = node leaf price i leaf
grow (node l p j r) price i =
    if p == price
    then node l p j r
    else if ltb price p
    then node (grow l price i) p j r
    else node l p j (grow r price i)

unfoldable pub join : PriceNode → PriceNode → PriceNode
join leaf t = t
join (node l p j r) t = node l p j (join r t)

unfoldable pub erase : PriceNode → ℕ → PriceNode
erase leaf price = leaf
erase (node l p j r) price =
    if p == price
    then join l r
    else if ltb price p
    then node (erase l price) p j r
    else node l p j (erase r price)

abbrev pub Map : Type 0
Map = ℕ → Option Entry

abbrev pub deps : Deps Map (List Record)
deps = record {
  hash_get = λ m i. m i;
  hash_insert = λ m i e. some (update m i (some e));
  hash_remove = λ m i. update m i none;
  kavl_insert = grow;
  kavl_erase = erase;
  append = λ log r. (true, r ∷ log);
}

pub deps-HashLaws : HashLaws deps
deps-HashLaws = record {
  get_insert = λ m i j e put. ground (arith, put);
  get_remove = λ m i j. ground arith;
}

-- An order of org `org` with this price, volume and side.
abbrev pub order : ℕ → ℕ → ℕ → ℕ → ℕ → Slot
order id org price volume flags = record {
  price = price;
  volume = volume;
  volume_remain = volume;
  org = org;
  flags = flags;
  order_id = id;
  payload = [];
}

-- Slots 0 and 1 are asks at 10, slot 2 is a bid at 12, slot 3 is a deactivated ask at 10.
abbrev pub slab : Slab
slab =
    let z = zeroed (record { user_data_size = 0; aux_data_size = 0; total_slots = 8 }) in
    record z {
      used = 4;
      free_a = 7;
      free_b = 7;
      slots = λ i.
          if i == 0
          then order 1 1 10 5 1
          else if i == 1
          then order 2 2 10 3 1
          else if i == 2
          then order 3 1 12 6 0
          else order 4 3 10 2 (1 + 0xA0);
      next = λ q i. null;
      prev = λ q i. null;
    }

abbrev pub empty_book : Book Map (List Record)
empty_book = record {
  slab = slab;
  bid_head_q1 = λ p. null;
  ask_head_q1 = λ p. null;
  max_products = 1;
  max_org = 4;
  org_heads = λ i. null;
  order_hashmap = λ i. none;
  known_org = λ i. 0;
  price_roots = λ i. leaf;
  wal = [];
}

-- The asks in slots 0 and 1 rest in the book.
abbrev pub two_asks : Book Map (List Record)
two_asks = record empty_book {
  slab = record slab {
    next = λ q i. if (q == 2) then (if i == 0 then 1 else null) else null;
    prev = λ q i. if (q == 2) then (if i == 0 then 1 else if i == 1 then 0 else null) else null;
  };
  ask_head_q1 = λ p. 0;
  org_heads = λ i. if i == 1 then 0 else if i == 2 then 1 else null;
  order_hashmap = λ i.
      if i == 1
      then some (record { slot_idx = 0; product_id = 0 })
      else if i == 2
      then some (record { slot_idx = 1; product_id = 0 })
      else none;
  known_org = λ i. uint32_max;
  price_roots = λ i. if i == 1 then node leaf 10 0 leaf else leaf;
}
