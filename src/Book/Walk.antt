-- ===== src/Book/Walk.antt =====
-- src/orderbook.c: the search for a price level in the tree, against the levels that the tree holds.
use veloxmatch.Base.{
  ℕ, subst, sym, ◌∙◌, ℕ-cases, ◌<◌, ◌≡◌, ◌≢◌, refl, ◌⊎◌, inl, inr, Bool, true, false, Option, none,
  arith, ltb, if◌then◌else◌, Bool-cases, lt→ltb, ltb→lt,
}
use veloxmatch.Slab.{Slab}
use veloxmatch.Book.{PriceNode, leaf, node, slot_from, walk}

-- The tree has a level with this price and this slot.
pub data Has (p i : ℕ) : PriceNode → Type 0 where
  root : {l r : PriceNode} → Has p i (node l p i r)
  left : {l r : PriceNode} {q j : ℕ} → Has p i l → Has p i (node l q j r)
  right : {l r : PriceNode} {q j : ℕ} → Has p i r → Has p i (node l q j r)

-- A search tree: the prices to the left are lower, those to the right are higher.
pub data Ordered : PriceNode → Type 0 where
  empty : Ordered leaf
  split :
      {l r : PriceNode} {p i : ℕ}
      → ((q j : ℕ) → Has q j l → q < p)
      → ((q j : ℕ) → Has q j r → p < q)
      → Ordered l
      → Ordered r
      → Ordered (node l p i r)

-- `p` is a better price than `q` for the side.
abbrev pub better : Bool → ℕ → ℕ → Bool
better bid p q = if bid then ltb q p else ltb p q

-- The walk finds a level that is in the tree.
pub walk_hit :
    (s : Slab) (price i : ℕ) (bid : Bool) (t : PriceNode) (after : Option ℕ)
    → Ordered t
    → Has price i t
    → (walk s price bid t after).0 ≡ slot_from s i
unfolding walk
walk_hit s price i bid _ after empty h = elim h [ ]
walk_hit s price i bid _ after (split low high ol or) root = ground arith
walk_hit s price i bid _ after (split {p = p} {i = j} low high ol or) (left {l = l} h) =
    ground
      (arith, low price i h, walk_hit s price i bid l (if bid then slot_from s j else after) ol h)
walk_hit s price i bid _ after (split {p = p} {i = j} low high ol or) (right {r = r} h) =
    ground
      (arith, high price i h, walk_hit s price i bid r (if bid then after else slot_from s j) or h)

-- Where a new level with this price goes: in front, if all levels of the tree are worse, and then
-- the answer is `after`; else behind the worst of the better levels.
abbrev pub Goes : Slab → ℕ → Bool → PriceNode → Option ℕ → Option ℕ → Type 0
Goes s price bid t after out =
    ((out ≡ after) × ((q j : ℕ) → Has q j t → better bid price q ≡ true))
    ⊎ ((q : ℕ) × (i : ℕ) × Has q i t
        × (better bid q price ≡ true)
        × (out ≡ slot_from s i)
        × ((q' j : ℕ) → Has q' j t → better bid q' price ≡ true → better bid q q' ≡ false))

Has-cases :
    {l r : PriceNode} {p i q j : ℕ} → Has q j (node l p i r) → (q ≡ p) ⊎ Has q j l ⊎ Has q j r
Has-cases root = inl refl
Has-cases (left h) = inr (inl h)
Has-cases (right h) = inr (inr h)

module _ (s : Slab) (price : ℕ) {l r : PriceNode} {p i : ℕ} (low : (q j : ℕ) → Has q j l → q < p)
    (high : (q j : ℕ) → Has q j r → p < q) where
  -- A walk that goes on to the left.
  Goes-left :
      (bid : Bool) (after out : Option ℕ)
      → price < p
      → Goes s price bid l (if bid then slot_from s i else after) out
      → Goes s price bid (node l p i r) after out
  Goes-left true after out lt (inl (is, worse)) = inr (
    p,
    i,
    root,
    lt→ltb price p lt,
    is,
    λ q' j h above. elim (Has-cases h) [
      | inl e ↦ ground (arith, e)
      | inr (inl k) ↦ ground (arith, worse q' j k, above)
      | inr (inr k) ↦ ground (arith, high q' j k)
    ],
  )
  Goes-left true after out lt (inr (q, k', has, near, is, least)) = inr (
    q,
    k',
    left has,
    near,
    is,
    λ q' j h above. elim (Has-cases h) [
      | inl e ↦ ground (arith, e, low q k' has)
      | inr (inl k) ↦ least q' j k above
      | inr (inr k) ↦ ground (arith, low q k' has, high q' j k)
    ],
  )
  Goes-left false after out lt (inl (is, worse)) = inl (
    is,
    λ q' j h. elim (Has-cases h) [
      | inl e ↦ ground (arith, e)
      | inr (inl k) ↦ worse q' j k
      | inr (inr k) ↦ ground (arith, high q' j k)
    ],
  )
  Goes-left false after out lt (inr (q, k', has, near, is, least)) = inr (
    q,
    k',
    left has,
    near,
    is,
    λ q' j h above. elim (Has-cases h) [
      | inl e ↦ ground (arith, e, above)
      | inr (inl k) ↦ least q' j k above
      | inr (inr k) ↦ ground (arith, above, high q' j k)
    ],
  )

  -- A walk that goes on to the right.
  Goes-right :
      (bid : Bool) (after out : Option ℕ)
      → p < price
      → Goes s price bid r (if bid then after else slot_from s i) out
      → Goes s price bid (node l p i r) after out
  Goes-right false after out lt (inl (is, worse)) = inr (
    p,
    i,
    root,
    lt→ltb p price lt,
    is,
    λ q' j h above. elim (Has-cases h) [
      | inl e ↦ ground (arith, e)
      | inr (inl k) ↦ ground (arith, low q' j k)
      | inr (inr k) ↦ ground (arith, worse q' j k, above)
    ],
  )
  Goes-right false after out lt (inr (q, k', has, near, is, least)) = inr (
    q,
    k',
    right has,
    near,
    is,
    λ q' j h above. elim (Has-cases h) [
      | inl e ↦ ground (arith, e, high q k' has)
      | inr (inl k) ↦ ground (arith, high q k' has, low q' j k)
      | inr (inr k) ↦ least q' j k above
    ],
  )
  Goes-right true after out lt (inl (is, worse)) = inl (
    is,
    λ q' j h. elim (Has-cases h) [
      | inl e ↦ ground (arith, e)
      | inr (inl k) ↦ ground (arith, low q' j k)
      | inr (inr k) ↦ worse q' j k
    ],
  )
  Goes-right true after out lt (inr (q, k', has, near, is, least)) = inr (
    q,
    k',
    right has,
    near,
    is,
    λ q' j h above. elim (Has-cases h) [
      | inl e ↦ ground (arith, e, above)
      | inr (inl k) ↦ ground (arith, above, low q' j k)
      | inr (inr k) ↦ least q' j k above
    ],
  )

-- The walk finds no level where none has the price, and its second answer tells where it goes.
pub walk_miss :
    (s : Slab) (price : ℕ) (bid : Bool) (t : PriceNode) (after : Option ℕ)
    → Ordered t
    → ((q j : ℕ) → Has q j t → q ≢ price)
    → ((walk s price bid t after).0 ≡ none) × Goes s price bid t after (walk s price bid t after).1
unfolding walk
walk_miss s price bid leaf after o none_there = (refl, inl (refl, λ q j h. elim h [ ]))
walk_miss s price bid (node l p i r) after (split low high ol or) none_there =
    let w = walk s price bid (node l p i r) after in
    let a = if bid then slot_from s i else after in
    let b = if bid then after else slot_from s i in
    let down = walk s price bid l a in
    let up = walk s price bid r b in
    let other = none_there p i root in
    elim (Bool-cases (ltb price p)) [
      | inl lt ↦
          let (gone, goes) = walk_miss s price bid l a ol (λ q j h. none_there q j (left h)) in
          let is : w ≡ down = ground (arith, lt, other) in
          rw is (gone, Goes-left s price low high bid after down.1 (ltb→lt price p lt) goes)
      | inr ge ↦
          let (gone, goes) = walk_miss s price bid r b or (λ q j h. none_there q j (right h)) in
          let is : w ≡ up = ground (arith, ge, other) in
          rw is (gone, Goes-right s price low high bid after up.1 (ground (arith, ge, other)) goes)
    ]

-- Whether a search tree has a level of this price.
pub Has-dec :
    (price : ℕ) (t : PriceNode) → ((i : ℕ) × Has price i t) ⊎ ((q j : ℕ) → Has q j t → q ≢ price)
Has-dec price leaf = inr (λ q j h. elim h [ ])
Has-dec price (node l p i r) = elim (ℕ-cases p price) [
  | inl e ↦ inl (i, subst (λ q. Has q i (node l p i r)) e root)
  | inr ne ↦ elim (Has-dec price l) [
    | inl (j, h) ↦ inl (j, left h)
    | inr none_left ↦ elim (Has-dec price r) [
      | inl (j, h) ↦ inl (j, right h)
      | inr none_right ↦ inr (λ q j h. elim (Has-cases h) [
        | inl e ↦ λ is. ne (sym e ∙ is)
        | inr (inl k) ↦ none_left q j k
        | inr (inr k) ↦ none_right q j k
      ])
    ]
  ]
]
