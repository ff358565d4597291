-- ===== src/Recovery/NextId.antt =====
-- src/orderbook.c: what it means that a book gives no id which is in use, and what keeps it so.
use veloxmatch.Base.{
  ℕ, ◌≤◌, ◌<◌, ◌≡◌, ◌≢◌, refl, ap, ◌∙◌, subst, Bool, true, false, ◌⊎◌, inl, inr, Option, none, some,
  arith, Bool-cases, if◌then◌else◌, leb, ◌==◌, uint32_max, u32_mod, ℕ-cases,
}
use veloxmatch.Slab.{free}
use veloxmatch.Book.{Book, Deps, Entry, set_slab}
use veloxmatch.Book.Insert.{Status}
use veloxmatch.Book.Entering.{AfterInsert}
use veloxmatch.Book.Leaving.{HashLaws, AfterCancel, cancel_lem}
use veloxmatch.Book.Remove.{cancel}
use veloxmatch.Recovery.{raise_next_id, set_next_id, finish_insert}
use veloxmatch.Recovery.Ids.{SameId, SameId-free, SameId-cancel}

-- An id that the map knows is below the next one, if there is a next one.
abbrev pub Below : ℕ → ℕ → Option Entry → Type 0
Below next_id id none = next_id ≡ next_id
Below next_id id (some entry) = (next_id ≡ 0) ⊎ (id < next_id)

-- A slot or a number that the book gives next is not that of an order which it has.
abbrev pub Fresh : {M L : Type 0} → Deps M L → Book M L → Type 0
Fresh d b = (id : ℕ) → Below b.slab.next_order_id id (d.hash_get b.order_hashmap id)

-- The next id is as far as before, or further, or there is none left.
abbrev Later : ℕ → ℕ → Type 0
Later old new = (new ≡ 0) ⊎ ((old ≢ 0) × (old ≤ new))

Below-Later : (old new id : ℕ) (o : Option Entry) → Later old new → Below old id o → Below new id o
Below-Later old new id none later h = refl
Below-Later old new id (some e) (inl over) h = inl over
Below-Later old new id (some e) (inr (some_left, le)) (inl none_left) = absurd (some_left none_left)
Below-Later old new id (some e) (inr (some_left, le)) (inr lt) = inr (omega arith)

raise-Later : (next_id id : ℕ) → id < u32_mod → Later next_id (raise_next_id next_id id)
raise-Later next_id id small = elim (ℕ-cases next_id 0) [
  | inl over ↦ inl (ground (arith, over))
  | inr some_left ↦ elim (ℕ-cases id uint32_max) [
    | inl last ↦ elim (Bool-cases (leb next_id id)) [
      | inl le ↦ inl (ground (arith, last, le))
      | inr gt ↦ inr (some_left, ground (arith, last, gt))
    ]
    | inr other ↦ inr (some_left, ground (arith, some_left, other, small))
  ]
]

pub raise-Below :
    (next_id id : ℕ)
    → id < u32_mod
    → (raise_next_id next_id id ≡ 0) ⊎ (id < raise_next_id next_id id)
raise-Below next_id id small = elim (ℕ-cases next_id 0) [
  | inl over ↦ inl (ground (arith, over))
  | inr some_left ↦ elim (ℕ-cases id uint32_max) [
    | inl last ↦ elim (Bool-cases (leb next_id id)) [
      | inl le ↦ inl (ground (arith, last, le))
      | inr gt ↦ inr (ground (arith, last, gt))
    ]
    | inr other ↦ inr (ground (arith, some_left, other, small))
  ]
]

Later-refl : (n : ℕ) → Later n n
Later-refl n = elim (ℕ-cases n 0) [ inl z ↦ inl z | inr p ↦ inr (p, omega arith) ]

pub if-holds :
    {A : Type 0} (P : A → Type 0) (t : Bool) {x y : A} → P x → P y → P (if t then x else y)
if-holds P true hx hy = hx
if-holds P false hx hy = hy

module _ {M L : Type 0} (d : Deps M L) where
  Fresh-Later :
      (b b' : Book M L)
      → ((j : ℕ) → d.hash_get b'.order_hashmap j ≡ d.hash_get b.order_hashmap j)
      → Later b.slab.next_order_id b'.slab.next_order_id
      → Fresh d b
      → Fresh d b'
  Fresh-Later b b' at later fresh j = rw (at j) (
      Below-Later b.slab.next_order_id b'.slab.next_order_id j (d.hash_get b.order_hashmap j) later
        (fresh j))

  pub Fresh-same :
      (b b' : Book M L)
      → ((j : ℕ) → d.hash_get b'.order_hashmap j ≡ d.hash_get b.order_hashmap j)
      → SameId b.slab b'.slab
      → Fresh d b
      → Fresh d b'
  Fresh-same b b' at same fresh j = rw (at j) (rw same (fresh j))

  pub Fresh-gone :
      (b b' : Book M L) (id : ℕ)
      → ((j : ℕ)
          → d.hash_get b'.order_hashmap j
            ≡ (if id == j then none else d.hash_get b.order_hashmap j))
      → SameId b.slab b'.slab
      → Fresh d b
      → Fresh d b'
  Fresh-gone b b' id at same fresh j = elim (Bool-cases (id == j)) [
    | inl this ↦ rw (at j) (rw this refl)
    | inr other ↦ rw (at j) (rw other (rw same (fresh j)))
  ]

  Fresh-put :
      (b b' : Book M L) (id : ℕ) (e : Entry)
      → ((j : ℕ)
          → d.hash_get b'.order_hashmap j
            ≡ (if id == j then some e else d.hash_get b.order_hashmap j))
      → SameId b.slab b'.slab
      → (b.slab.next_order_id ≡ 0) ⊎ (id < b.slab.next_order_id)
      → Fresh d b
      → Fresh d b'
  Fresh-put b b' id e at same new fresh j = elim (Bool-cases (id == j)) [
    | inl this ↦
        let is : id ≡ j = ground (arith, this) in
        rw (at j) (
          rw this
            (rw same (subst (λ n. (b.slab.next_order_id ≡ 0) ⊎ (n < b.slab.next_order_id)) is new)))
    | inr other ↦ rw (at j) (rw other (rw same (fresh j)))
  ]

  pub finish_insert-Fresh :
      (b : Book M L) (p i : ℕ) (out : Status × Book M L)
      → AfterInsert d b p i out
      → SameId b.slab out.1.slab
      → (b.slab.next_order_id ≡ 0) ⊎ ((b.slab.slots i).order_id < b.slab.next_order_id)
      → Fresh d b
      → Fresh d (finish_insert i out).1
  finish_insert-Fresh b p i (Status.done, b') after same new fresh =
      Fresh-put b b' (b.slab.slots i).order_id (record { slot_idx = i; product_id = p }) after same
        new fresh
  finish_insert-Fresh b p i (Status.recovery_failed, b') after same new fresh =
      Fresh-same b (set_slab b' (free b'.slab i)) (λ j. after.1 j) (SameId-free b'.slab i ∙ same)
        fresh
  finish_insert-Fresh b p i (Status.wal_write, b') after same new fresh =
      Fresh-same b (set_slab b' (free b'.slab i)) (λ j. after.1 j) (SameId-free b'.slab i ∙ same)
        fresh

  cancelled-Fresh :
      (b : Book M L) (id : ℕ) (out : Bool × Book M L)
      → AfterCancel d b id out
      → SameId b.slab out.1.slab
      → Fresh d b
      → Fresh d out.1
  cancelled-Fresh b id (true, b') after same fresh = Fresh-gone b b' id after same fresh
  cancelled-Fresh b id (false, b') after same fresh =
      Fresh-same b b' (λ j. ap (λ c. d.hash_get c.order_hashmap j) after) same fresh

  pub cancel-Fresh : (b : Book M L) (id : ℕ) → HashLaws d → Fresh d b → Fresh d (cancel d b id).1
  cancel-Fresh b id laws fresh =
      cancelled-Fresh b id (cancel d b id) (cancel_lem d b id laws) (SameId-cancel d b id) fresh

  pub raised-Fresh :
      (b : Book M L) (id : ℕ)
      → id < u32_mod
      → Fresh d b
      → Fresh d (set_next_id b (raise_next_id b.slab.next_order_id id))
  raised-Fresh b id small fresh =
      Fresh-Later b (set_next_id b (raise_next_id b.slab.next_order_id id)) (λ j. refl)
        (raise-Later b.slab.next_order_id id small) fresh
