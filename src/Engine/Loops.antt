-- ===== src/Engine/Loops.antt =====
-- The loops of `engine_match` in src/om_engine.c: what a round may do, and an induction principle
-- for the two loops.
use veloxmatch.Base.{
  ℕ, zero, suc, ◌<◌, ◌≤◌, ◌≡◌, refl, min, Bool, true, false, not, ◌&&◌, ◌||◌, none, some, arith,
  ◌==◌, Option-cases, Bool-cases, ◌⊎◌, inl, inr,
}
use veloxmatch.Slab.{null, in_slab}
use veloxmatch.Book.{Book, Deps, is_bid}
use veloxmatch.Book.Insert.{Status, insert}
use veloxmatch.Book.Query.{first_other_org, best_head}
use veloxmatch.Book.Keeps.{first_other_org-slab}
use veloxmatch.Engine.{
  Engine, Callbacks, Round, leave, again, failed, slot_of, removed, deal, decrement, drop_maker,
  maker_round, makers, tell, on_cancel, on_booked, may_book, book_taker, settle, engine_match,
  levels, first_maker, beyond, cancel_maker, cancel_both, decrement_cancel,
}

-- The property of the engine and of what remains of the taker, wherever a loop stops.
abbrev pub After : {M L : Type 0} → (Engine M L → ℕ → Type 0) → Round M L → Type 0
After P (leave e left) = P e left
After P (again e left idx) = P e left
After P (failed e) = (left : ℕ) × P e left

pub Status-cases :
    (s : Status) → (s ≡ Status.done) ⊎ (s ≡ Status.recovery_failed) ⊎ (s ≡ Status.wal_write)
Status-cases Status.done = inl refl
Status-cases Status.recovery_failed = inr (inl refl)
Status-cases Status.wal_write = inr (inr refl)

module _ {M L : Type 0} (d : Deps M L) (cb : Callbacks) (product taker : ℕ) (exclude : Bool) where
  -- What a round may do at a maker.
  pub data Chosen (e : Engine M L) (price remaining maker : ℕ) : Round M L → Type 0 where
    stays : Chosen e price remaining maker (leave e remaining)
    skips : Chosen e price remaining maker (again e remaining (e.orderbook.slab.next 2 maker))
    clears :
        Chosen e price remaining maker
          (again (removed d e product maker) remaining (e.orderbook.slab.next 2 maker))
    deals :
        (qty : ℕ)
        → 0 < qty
        → qty ≤ (slot_of e maker).volume_remain
        → qty ≤ remaining
        → (exclude && ((slot_of e maker).org == (slot_of e taker).org)) ≡ false
        → Chosen e price remaining maker
            (deal d product taker e price remaining maker (e.orderbook.slab.next 2 maker) qty)
    decrements :
        (qty : ℕ)
        → 0 < qty
        → qty ≤ (slot_of e maker).volume_remain
        → qty ≤ remaining
        → Chosen e price remaining maker
            (decrement d product taker e price remaining maker (e.orderbook.slab.next 2 maker) qty)
    drops :
        (both : Bool)
        → Chosen e price remaining maker
            (drop_maker d product taker e remaining maker (e.orderbook.slab.next 2 maker) both)

  asked :
      (e : Engine M L) (price remaining maker : ℕ)
      → 0 < remaining
      → in_slab e.orderbook.slab maker ≡ true
      → (exclude && ((slot_of e maker).org == (slot_of e taker).org)) ≡ false
      → ((slot_of e maker).volume_remain == 0) ≡ false
      → Chosen e price remaining maker
          (maker_round d cb product taker exclude e price remaining maker)
  unfolding maker_round
  asked e price remaining maker some_left inside shown full =
      let s = e.orderbook.slab in
      let next = s.next 2 maker in
      let volume = (s.slots maker).volume_remain in
      let matchable = min volume remaining in
      let round = maker_round d cb product taker exclude e price remaining maker in
      elim (Option-cases cb.can_match) [
        | inl free ↦
            let is : round ≡ deal d product taker e price remaining maker next matchable =
              ground (arith, inside, shown, full, free) in
            rw is (deals matchable (ground (arith, full)) (omega arith) (omega arith) shown)
        | inr (ask, set) ↦
            let allowed = ask e.events (s.slots maker) (s.slots taker) in
            elim (Bool-cases ((allowed == cancel_maker) || (allowed == cancel_both))) [
              | inl drop ↦
                  let is : round
                      ≡ drop_maker d product taker e remaining maker next (allowed == cancel_both) =
                    ground (arith, inside, shown, full, set, drop) in
                  rw is (drops (allowed == cancel_both))
              | inr no_drop ↦ elim (Bool-cases (allowed == decrement_cancel)) [
                | inl dec ↦
                    let is : round
                        ≡ decrement d product taker e price remaining maker next matchable =
                      ground (arith, inside, shown, full, set, no_drop, dec) in
                    rw is (decrements matchable (ground (arith, full)) (omega arith) (omega arith))
                | inr no_dec ↦ elim (Bool-cases ((allowed == 0) || (min allowed matchable == 0))) [
                  | inl refused ↦
                      let is : round ≡ again e remaining next =
                        ground (arith, inside, shown, full, set, no_drop, no_dec, refused) in
                      rw is skips
                  | inr agreed ↦
                      let qty = min allowed matchable in
                      let is : round ≡ deal d product taker e price remaining maker next qty =
                        ground (arith, inside, shown, full, set, no_drop, no_dec, agreed) in
                      rw is (deals qty (ground (arith, agreed)) (omega arith) (omega arith) shown)
                ]
              ]
            ]
      ]

  -- A round at a taker with volume left does one of these.
  pub maker_round-Chosen :
      (e : Engine M L) (price remaining maker : ℕ)
      → 0 < remaining
      → Chosen e price remaining maker
          (maker_round d cb product taker exclude e price remaining maker)
  unfolding maker_round
  maker_round-Chosen e price remaining maker some_left =
      let s = e.orderbook.slab in
      let next = s.next 2 maker in
      let volume = (s.slots maker).volume_remain in
      let same = (s.slots maker).org == (s.slots taker).org in
      let round = maker_round d cb product taker exclude e price remaining maker in
      elim (Bool-cases (in_slab s maker)) [
        | inr outside ↦ let is : round ≡ leave e remaining = ground (arith, outside) in rw is stays
        | inl inside ↦ elim (Bool-cases (exclude && same)) [
          | inl hidden ↦
              let is : round ≡ again e remaining next = ground (arith, inside, hidden) in
              rw is skips
          | inr shown ↦ elim (Bool-cases (volume == 0)) [
            | inl empty ↦
                let is : round ≡ again (removed d e product maker) remaining next =
                  ground (arith, inside, shown, empty) in
                rw is clears
            | inr full ↦ asked e price remaining maker some_left inside shown full
          ]
        ]
      ]

  -- The engine after `book_taker`: the rest is refused, not booked, or booked.
  pub book_taker-cases :
      (e : Engine M L)
      → let after = record e { orderbook = (insert d e.orderbook product taker).1 } in
        let out = (book_taker d cb product taker e).1 in
        (out ≡ tell e (on_cancel taker)) ⊎ (out ≡ after) ⊎ (out ≡ tell after (on_booked taker))
  unfolding book_taker
  book_taker-cases e = elim (Bool-cases (may_book cb e taker)) [
    | inr refused ↦ inl (ground (arith, refused))
    | inl agreed ↦ elim (Status-cases (insert d e.orderbook product taker).0) [
      | inl booked ↦ inr (inr (ground (arith, agreed, booked)))
      | inr (inl bad) ↦ inr (inl (ground (arith, agreed, bad)))
      | inr (inr lost) ↦ inr (inl (ground (arith, agreed, lost)))
    ]
  ]

  module _ (P : Engine M L → ℕ → Type 0) where
    again-After :
        (loop : Engine M L → ℕ → ℕ → Round M L)
        → ((e : Engine M L) (left idx : ℕ) → P e left → After P (loop e left idx))
        → (r : Round M L) → After P r
        → After P (elim r as (λ r. Round M L) [
          | leave e left ↦ leave e left
          | again e left idx ↦ loop e left idx
          | failed e ↦ failed e
        ])
    again-After loop kept (leave e left) p = p
    again-After loop kept (again e left idx) p = kept e left idx p
    again-After loop kept (failed e) p = p

    leave-After :
        (loop : Engine M L → ℕ → Round M L)
        → ((e : Engine M L) (left : ℕ) → P e left → After P (loop e left))
        → (r : Round M L) → After P r
        → After P (elim r as (λ r. Round M L) [
          | leave e left ↦ loop e left
          | again e left idx ↦ again e left idx
          | failed e ↦ failed e
        ])
    leave-After loop kept (leave e left) p = kept e left p
    leave-After loop kept (again e left idx) p = p
    leave-After loop kept (failed e) p = p

  -- What every round keeps, the loops keep, whether they end, are cut off by their fuel, or fail:
  -- `P` is the property of the engine and of what remains of the taker.
  module _ (P : Engine M L → ℕ → Type 0) (bid : Bool) (limit : ℕ)
      (round : (e : Engine M L) (price remaining maker : ℕ) (out : Round M L)
        → P e remaining
        → beyond bid limit price ≡ false
        → Chosen e price remaining maker out
        → After P out)
      (learn : (e : Engine M L) (remaining : ℕ) (b : Book M L)
        → b.slab ≡ e.orderbook.slab
        → P e remaining
        → P (record e { orderbook = b }) remaining) where
    makers-After :
        (fuel : ℕ) {e : Engine M L} (price remaining idx : ℕ)
        → P e remaining
        → beyond bid limit price ≡ false
        → After P (makers d fuel cb product taker exclude e price remaining idx)
    unfolding makers
    makers-After zero price remaining idx p near = p
    makers-After (suc fuel) {e} price remaining idx p near =
        let out = makers d (suc fuel) cb product taker exclude e price remaining idx in
        elim (Bool-cases ((idx == null) || (remaining == 0))) [
          | inl over ↦ let is : out ≡ leave e remaining = ground (arith, over) in rw is p
          | inr on ↦
              let r = maker_round d cb product taker exclude e price remaining idx in
              let chosen = maker_round-Chosen e price remaining idx (ground (arith, on)) in
              let loop : Engine M L → ℕ → ℕ → Round M L =
                λ e' left next. makers d fuel cb product taker exclude e' price left next in
              let is : out ≡ elim r as (λ r. Round M L) [
                | leave e left ↦ leave e left
                | again e left idx ↦ loop e left idx
                | failed e ↦ failed e
              ] =
                ground (arith, on) in
              rw is (
                again-After P loop (λ e' left next q. makers-After fuel price left next q near) r
                  (round e price remaining idx r p near chosen))
        ]

    first_maker-After :
        (fuel : ℕ) {e : Engine M L} (remaining level : ℕ) {start : ℕ} {b : Book M L}
        → first_maker fuel taker exclude e level ≡ some (start, b)
        → P e remaining
        → P (record e { orderbook = b }) remaining
    unfolding first_maker
    first_maker-After fuel {e} remaining level {start} {b} found p =
        let org = (slot_of e taker).org in
        elim (Bool-cases (exclude && ((slot_of e level).org == org))) [
          | inl hidden ↦
              let is : first_other_org fuel e.orderbook level org ≡ some (start, b) =
                ground (arith, found, hidden) in
              learn e remaining b (first_other_org-slab d fuel e.orderbook level org is) p
          | inr shown ↦ learn e remaining b (ground (arith, found, shown)) p
        ]

    pub levels-After :
        (fuel inner : ℕ) {e : Engine M L} (remaining idx : ℕ)
        → P e remaining
        → After P (levels d fuel inner cb product taker bid limit exclude e remaining idx)
    unfolding levels
    levels-After zero inner remaining idx p = p
    levels-After (suc fuel) inner {e} remaining idx p =
        let price = (slot_of e idx).price in
        let test =
          (remaining == 0) || not (in_slab e.orderbook.slab idx) || beyond bid limit price in
        let out = levels d (suc fuel) inner cb product taker bid limit exclude e remaining idx in
        elim (Bool-cases test) [
          | inl over ↦ let is : out ≡ leave e remaining = ground (arith, over) in rw is p
          | inr on ↦ elim (Option-cases (first_maker inner taker exclude e idx)) [
            | inl spent ↦
                let is : out ≡ again e remaining idx = ground (arith, on, spent) in rw is p
            | inr ((start, b), found) ↦
                let e' = record e { orderbook = b } in
                let r = makers d inner cb product taker exclude e' price remaining start in
                let q = first_maker-After inner remaining idx found p in
                let after = e.orderbook.slab.next 1 idx in
                let loop : Engine M L → ℕ → Round M L = λ e'' left.
                  levels d fuel inner cb product taker bid limit exclude e'' left after in
                let is : out ≡ elim r as (λ r. Round M L) [
                  | leave e left ↦ loop e left
                  | again e left idx ↦ again e left idx
                  | failed e ↦ failed e
                ] =
                  ground (arith, on, found) in
                rw is (
                  leave-After P loop (λ e'' left q. levels-After fuel inner left after q) r
                    (makers-After inner price remaining start q (ground (arith, on))))
          ]
        ]

    settle-After :
        ((e : Engine M L) (left : ℕ) → P e left → P (book_taker d cb product taker e).1 left)
        → (r : Round M L) → After P r
        → (left : ℕ) × P (settle d cb product taker r).1 left
    unfolding settle
    settle-After booked (again e left idx) p = (left, p)
    settle-After booked (failed e) p = p
    settle-After booked (leave e left) p = elim (Bool-cases (left == 0)) [
      | inl used ↦
          let is : (settle d cb product taker (leave e left)).1 ≡ e = ground (arith, used) in
          (left, rw is p)
      | inr more ↦
          let is : (settle d cb product taker (leave e left)).1
              ≡ (book_taker d cb product taker e).1 =
            ground (arith, more) in
          (left, rw is (booked e left p))
    ]

    -- What every round, and the booking of the rest, keep, the whole call keeps.
    pub engine_match-After :
        ((e : Engine M L) (left : ℕ) → P e left → P (book_taker d cb product taker e).1 left)
        → (fuel : ℕ) (e : Engine M L) → is_bid (slot_of e taker).flags ≡ bid
        → (slot_of e taker).price ≡ limit
        → P e (slot_of e taker).volume_remain
        → (left : ℕ) × P (engine_match d fuel cb product taker exclude e).1 left
    unfolding engine_match
    engine_match-After booked fuel e side price p =
        let head : ℕ = elim (best_head e.orderbook product (not bid)) [
          | none ↦ null
          | some i ↦ i
        ] in
        let volume = (slot_of e taker).volume_remain in
        let out = levels d fuel fuel cb product taker bid limit exclude e volume head in
        let whole = engine_match d fuel cb product taker exclude e in
        elim (Bool-cases (volume == 0)) [
          | inl empty ↦ let is : whole.1 ≡ e = ground (arith, empty) in (volume, rw is p)
          | inr full ↦
              let is : whole ≡ settle d cb product taker out = ground (arith, full, side, price) in
              rw is (settle-After booked out (levels-After fuel fuel volume head p))
        ]
