-- ===== src/Book/Levels.antt =====
-- src/orderbook.c: `find_price_level_with_insertion_point` against the levels of one side.
use veloxmatch.Base.{
  Option, ℕ, ◌≡◌, ◌≢◌, refl, ◌∙◌, ◌⊎◌, inl, inr, Bool, true, false, none, some, arith, Bool-cases,
}
use veloxmatch.Slab.{null, in_slab}
use veloxmatch.Book.{Book, PriceNode, walk, find_price_level, side_head, root_index}
use veloxmatch.Book.Walk.{Has, Ordered, Goes, better, Has-dec, walk_hit, walk_miss}

abbrev pub tree_of : {M L : Type 0} → Book M L → ℕ → Bool → PriceNode
tree_of b product bid = b.price_roots (root_index product bid)

-- The head of a side: null where there is no level, else a level that no level is better than.
abbrev pub IsBest : {M L : Type 0} → Book M L → ℕ → Bool → Type 0
IsBest b product bid =
    let head = side_head b product bid in
    let t = tree_of b product bid in
    ((head ≡ null) × ((p i : ℕ) → ¬ Has p i t))
    ⊎ ((head ≢ null) × ((p i : ℕ) → Has p i t → better bid p (b.slab.slots head).price ≡ false))

-- One side of a product's book: a search tree of levels that are slots, with the best one in front.
pub record IsSide {M L : Type 0} (b : Book M L) (product : ℕ) (bid : Bool) : Type 0 where
  pub ordered : Ordered (tree_of b product bid)
  pub slots : (p i : ℕ) → Has p i (tree_of b product bid) → in_slab b.slab i ≡ true
  pub best : IsBest b product bid

better_trans :
    (bid : Bool) (p q r : ℕ)
    → better bid p q ≡ true
    → better bid r q ≡ false
    → better bid p r ≡ true
better_trans true p q r a b = ground (arith, a, b)
better_trans false p q r a b = ground (arith, a, b)

-- An answer of the search: the level of the price, or, if there is none, NULL and the level behind
-- which a new one goes.
abbrev pub Finds : {M L : Type 0} → Book M L → ℕ → ℕ → Bool → Option ℕ × Option ℕ → Type 0
Finds b product price bid out =
    let t = tree_of b product bid in
    ((i : ℕ) × Has price i t × (out.0 ≡ some i))
    ⊎ (((q j : ℕ) → Has q j t → q ≢ price) × (out.0 ≡ none) × Goes b.slab price bid t none out.1)

-- The search finds exactly the levels of the side: a level that is there is found, and for a price
-- that no level has the answer is NULL, with the level behind which a new one belongs: NULL if all
-- levels are worse, else the worst of the better ones. The levels are a search tree, they are
-- slots, and the head of the side is the best of them.
pub find_price_level_lem :
    {M L : Type 0} (b : Book M L) (product price : ℕ) (bid : Bool)
    → IsSide b product bid
    → Finds b product price bid (find_price_level b product price bid)
unfolding find_price_level
find_price_level_lem b product price bid v =
    let head = side_head b product bid in
    let t = tree_of b product bid in
    let top = (b.slab.slots head).price in
    let out = find_price_level b product price bid in
    elim v.best [
      | inl (none_there, empty) ↦
          let is : out ≡ (none, none) = ground (arith, none_there) in
          rw is (
            inr
              (λ q j h. elim (empty q j h) [ ], refl, inl (refl, λ q j h. elim (empty q j h) [ ])))
      | inr (some_there, best) ↦ elim (Bool-cases (better bid price top)) [
        | inl new_best ↦
            let is : out ≡ (none, none) = elim (Bool-cases bid) [
              | inl b ↦ ground (arith, some_there, new_best, b)
              | inr a ↦ ground (arith, some_there, new_best, a)
            ] in
            let worse : (q j : ℕ) → Has q j t → better bid price q ≡ true =
              λ q j h. better_trans bid price top q new_best (best q j h) in
            rw is (inr (λ q j h e. ground (arith, worse q j h, e), refl, inl (refl, worse)))
        | inr behind ↦
            let w = walk b.slab price bid t none in
            let is : out ≡ w = ground (arith, some_there, behind) in
            elim (Has-dec price t) [
              | inl (i, h) ↦ rw is (
                  inl (
                    i,
                    h,
                    walk_hit b.slab price i bid t none v.ordered h
                        ∙ ground (arith, v.slots price i h),
                  ))
              | inr missing ↦
                  let (gone, goes) = walk_miss b.slab price bid t none v.ordered missing in
                  rw is (inr (missing, gone, goes))
            ]
      ]
    ]
