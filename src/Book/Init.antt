-- ===== src/Book/Init.antt =====
-- src/orderbook.c: `om_orderbook_init`.
use veloxmatch.Base.{
  ℕ, ◌*◌, ◌%◌, ◌<◌, ◌≡◌, ◌⊎◌, refl, sym, subst, set_below, set_below_lt, inl, inr, Bool, true,
  false, none, not, ◌||◌, arith, ◌==◌, if◌then◌else◌, u32_mod,
}
use veloxmatch.Base.Result.{Result, ok, err}
use veloxmatch.Slab.{Config, Slab, null}
use veloxmatch.Slab
use veloxmatch.Book.{Book, leaf, side_head, find_price_level}
use veloxmatch.Book.Walk.{empty}
use veloxmatch.Book.Levels.{IsSide}

-- Which of the allocations of `om_orderbook_init` succeed.
pub record Allocs : Type 0 where
  pub products : Bool
  pub org_heads : Bool
  pub slab_a : Bool
  pub slab_b : Bool
  pub hash : Bool
  pub price_nodes : Bool

-- The codes that it returns.
pub data Error : Type 0 where
  invalid_param product_alloc org_alloc hash_init : Error
  slab : (error : Slab.Error) → Error

-- The book over a new slab; `hash` is what `om_hash_create` gives. The arrays
-- are zeros at first, and two loops write NULL into the heads, that of the org heads with a count of
-- 32 bits. The search trees stay empty.
abbrev pub fresh : {M L : Type 0} → M → L → Slab → ℕ → ℕ → Book M L
fresh hash wal s max_products max_org = record {
  slab = s;
  bid_head_q1 = set_below max_products (λ p. null) (λ p. 0);
  ask_head_q1 = set_below max_products (λ p. null) (λ p. 0);
  max_products = max_products;
  max_org = max_org;
  org_heads = set_below (max_products * max_org % u32_mod) (λ i. null) (λ i. 0);
  order_hashmap = hash;
  known_org = λ i. 0;
  price_roots = λ i. leaf;
  wal = wal;
}

-- `om_orderbook_init`
unfoldable pub init : {M L : Type 0} → M → L → Config → Allocs → ℕ → ℕ → Result Error (Book M L)
init hash wal config allocs max_products max_org =
    if (max_products == 0) || (max_org == 0)
    then err invalid_param
    else if not allocs.products
    then err product_alloc
    else if not allocs.org_heads
    then err org_alloc
    else elim (Slab.init config allocs.slab_a allocs.slab_b) [
      | err e ↦ err (slab e)
      | ok s ↦
          if not allocs.hash
          then err hash_init
          else if not allocs.price_nodes
          then err product_alloc
          else ok (fresh hash wal s max_products max_org)
    ]

Result-cases :
    {A : Type 0} (r : Result Slab.Error A)
    → ((a : A) × (r ≡ ok a)) ⊎ ((e : Slab.Error) × (r ≡ err e))
Result-cases (ok a) = inl (a, refl)
Result-cases (err e) = inr (e, refl)

mod_small : (m : ℕ) → m < u32_mod → m % u32_mod ≡ m
mod_small m lt = omega (arith, lt)

side_head-fresh :
    {M L : Type 0} (hash : M) (wal : L) (s : Slab) (max_products max_org product : ℕ) (bid : Bool)
    → product < max_products
    → side_head (fresh hash wal s max_products max_org) product bid ≡ null
side_head-fresh hash wal s max_products max_org product true inside =
    set_below_lt max_products (λ p. null) (λ p. 0) product inside
side_head-fresh hash wal s max_products max_org product false inside =
    set_below_lt max_products (λ p. null) (λ p. 0) product inside

no_level :
    {M L : Type 0} (b : Book M L) (product price : ℕ) (bid : Bool)
    → side_head b product bid ≡ null
    → find_price_level b product price bid ≡ (none, none)
unfolding find_price_level
no_level b product price bid no_head = ground (arith, no_head)

-- A book that `om_orderbook_init` has made is empty and well formed. On each side of each product
-- below `max_products` the head is NULL and the search finds no level for any price, nor one to
-- insert behind; every org head below `max_products * max_org` is NULL; and the slab and the hash
-- map are new ones, the slab as `om_slab_init` makes it. There are fewer than 2 ^ 32 org heads.
pub init-IsSide :
    {M L : Type 0} (hash : M) (wal : L) (config : Config) (allocs : Allocs)
    (max_products max_org : ℕ) (b : Book M L) (product at : ℕ) (bid : Bool)
    → max_products * max_org < u32_mod
    → product < max_products
    → at < max_products * max_org
    → init hash wal config allocs max_products max_org ≡ ok b
    → IsSide b product bid
      × (side_head b product bid ≡ null)
      × ((price : ℕ) → find_price_level b product price bid ≡ (none, none))
      × (b.org_heads at ≡ null)
      × (Slab.init config allocs.slab_a allocs.slab_b ≡ ok b.slab)
      × (b.order_hashmap ≡ hash)
unfolding init
init-IsSide hash wal config allocs max_products max_org b product at bid small below inside e =
    elim (Result-cases (Slab.init config allocs.slab_a allocs.slab_b)) [
      | inr (bad, failed) ↦ ground (arith, e, failed)
      | inl (s, made) ↦
          let new = fresh hash wal s max_products max_org in
          let is : b ≡ new = ground (arith, e, made) in
          let head = side_head-fresh hash wal s max_products max_org product bid below in
          let count = mod_small (max_products * max_org) small in
          let cleared : new.org_heads at ≡ null =
            set_below_lt (max_products * max_org % u32_mod) (λ i. null) (λ i. 0) at
              (subst (λ n. at < n) (sym count) inside) in
          rw is (
            record {
              ordered = empty;
              slots = λ p i h. elim h [ ];
              best = inl (head, λ p i h. elim h [ ]);
            },
            head,
            λ price. no_level new product price bid head,
            cleared,
            made,
            refl,
          )
    ]
