-- ===== src/Engine/Balance.antt =====
-- The volumes that `engine_match` of src/om_engine.c moves: what the events say was taken from an
-- order is what it has lost.
use veloxmatch.Base.{
  ℕ, ◌+◌, ◌-◌, ◌≤◌, ◌≡◌, ◌≢◌, refl, ap, ◌∙◌, Bool, false, List, [], ◌∷◌, arith, ◌==◌, if◌then◌else◌,
  Bool-cases, inl, inr,
}
use veloxmatch.Book.{Book, Deps, matched, cancelled, is_bid}
use veloxmatch.Book.Insert.{insert}
use veloxmatch.Book.Keeps.{Keeps-remove_slot, Keeps-insert}
use veloxmatch.Engine.{
  Engine, Callbacks, Round, leave, again, failed, Event, on_match, on_deal, on_decrement_cancel,
  on_booked, on_filled, on_cancel, taker_dropped, slot_of, removed, moved, tell, logged, set_remain,
  deal, decrement, drop_maker, book_taker, engine_match,
}
use veloxmatch.Engine.Loops.{
  After, Chosen, stays, skips, clears, deals, decrements, drops, book_taker-cases,
  engine_match-After,
}

-- What the events took from order `i` as the maker.
unfoldable pub made : ℕ → List Event → ℕ
made i [] = 0
made i (on_deal maker taker price qty ∷ es) = (if maker == i then qty else 0) + made i es
made i (on_decrement_cancel maker taker qty ∷ es) = (if maker == i then qty else 0) + made i es
made i (on_match order price qty ∷ es) = made i es
made i (on_booked order ∷ es) = made i es
made i (on_filled order ∷ es) = made i es
made i (on_cancel order ∷ es) = made i es
made i (taker_dropped taker qty ∷ es) = made i es

-- What the events took from order `i` as the taker.
unfoldable pub taken : ℕ → List Event → ℕ
taken i [] = 0
taken i (on_deal maker taker price qty ∷ es) = (if taker == i then qty else 0) + taken i es
taken i (on_decrement_cancel maker taker qty ∷ es) = (if taker == i then qty else 0) + taken i es
taken i (on_match order price qty ∷ es) = taken i es
taken i (on_booked order ∷ es) = taken i es
taken i (on_filled order ∷ es) = taken i es
taken i (on_cancel order ∷ es) = taken i es
taken i (taker_dropped taker qty ∷ es) = (if taker == i then qty else 0) + taken i es

abbrev pub remain : {M L : Type 0} → Engine M L → ℕ → ℕ
remain e i = (slot_of e i).volume_remain

-- From `start` on, each order has lost what the events took from it, and the taker has `left`.
pub record Balanced {M L : Type 0} (start : Engine M L) (taker : ℕ) (e : Engine M L) (left : ℕ)
    : Type 0 where
  pub makers :
      (i : ℕ) → i ≢ taker → remain e i + made i e.events ≡ remain start i + made i start.events
  pub takers : left + taken taker e.events ≡ remain start taker + taken taker start.events
  pub kept : remain e taker ≡ left

module _ {M L : Type 0} (d : Deps M L) (start : Engine M L) (product taker : ℕ) where
  removed-slots :
      (e : Engine M L) (i : ℕ)
      → (removed d e product i).orderbook.slab.slots ≡ e.orderbook.slab.slots
  removed-slots e i = (Keeps-remove_slot d e.orderbook product i).0

  removed-Balanced :
      (e : Engine M L) (left i : ℕ)
      → Balanced start taker e left
      → Balanced start taker (removed d e product i) left
  removed-Balanced e left i v =
      let same : (j : ℕ) → remain (removed d e product i) j ≡ remain e j =
        λ j. ap (λ slots. (slots j).volume_remain) (removed-slots e i) in
      record {
        makers = λ j ne. omega (arith, same j, v.makers j ne);
        takers = v.takers;
        kept = omega (arith, same taker, v.kept);
      }

  -- A trade, told by events that say so.
  moved-Balanced :
      (e : Engine M L) (remaining maker qty : ℕ) (b : Book M L) (es : List Event)
      → qty ≤ remain e maker
      → qty ≤ remaining
      → b.slab.slots ≡ (moved e maker taker qty (remaining - qty)).orderbook.slab.slots
      → ((i : ℕ) → made i es ≡ (if maker == i then qty else 0) + made i e.events)
      → taken taker es ≡ qty + taken taker e.events
      → Balanced start taker e remaining
      → Balanced start taker (record { orderbook = b; events = es }) (remaining - qty)
  moved-Balanced e remaining maker qty b es le le' slots mades takens v =
      let is : (i : ℕ)
          → (b.slab.slots i).volume_remain ≡ (
              if taker == i
              then remaining - qty
              else if maker == i
              then remain e maker - qty
              else remain e i) =
        λ i. ap (λ slots. (slots i).volume_remain) slots ∙ ground arith in
      record {
        makers = λ i ne. ground (arith, is i, mades i, v.makers i ne);
        takers = omega (arith, takens, v.takers);
        kept = ground (arith, is taker);
      }

  deal-After :
      (e : Engine M L) (price remaining maker next qty : ℕ)
      → qty ≤ remain e maker
      → qty ≤ remaining
      → Balanced start taker e remaining
      → After (Balanced start taker) (deal d product taker e price remaining maker next qty)
  unfolding deal made taken
  deal-After e price remaining maker next qty le le' v =
      let record_of =
        matched (slot_of e maker).order_id (slot_of e taker).order_id price qty product in
      let e' = (logged d e record_of).1 in
      let left = remaining - qty in
      let es =
        on_deal maker taker price qty
        ∷ on_match taker price qty
        ∷ on_match maker price qty
        ∷ e.events in
      let told = record (moved e' maker taker qty left) { events = es } in
      let filled = tell told (on_filled maker) in
      let out = deal d product taker e price remaining maker next qty in
      let v' : Balanced start taker told left =
        moved-Balanced e remaining maker qty told.orderbook es le le' refl (λ i. refl)
          (ground arith) v in
      elim (Bool-cases (d.append e.orderbook.wal record_of).0) [
        | inr lost ↦
            let is : out ≡ failed e' = ground (arith, lost) in
            rw is (remaining, record { makers = v.makers; takers = v.takers; kept = v.kept })
        | inl written ↦ elim (Bool-cases (remain told maker == 0)) [
          | inl empty ↦
              let is : out ≡ again (removed d filled product maker) left next =
                ground (arith, written, empty) in
              rw is (
                removed-Balanced filled left maker
                  (record { makers = v'.makers; takers = v'.takers; kept = v'.kept }))
          | inr full ↦ elim (Bool-cases (left == 0)) [
            | inl used ↦
                let is : out ≡ leave told left = ground (arith, written, full, used) in rw is v'
            | inr more ↦
                let is : out ≡ again told left maker = ground (arith, written, full, more) in
                rw is v'
          ]
        ]
      ]

  decrement-After :
      (e : Engine M L) (price remaining maker next qty : ℕ)
      → qty ≤ remain e maker
      → qty ≤ remaining
      → Balanced start taker e remaining
      → After (Balanced start taker) (decrement d product taker e price remaining maker next qty)
  unfolding decrement made taken
  decrement-After e price remaining maker next qty le le' v =
      let record_of =
        matched (slot_of e maker).order_id (slot_of e taker).order_id price qty product in
      let e' = (logged d e record_of).1 in
      let left = remaining - qty in
      let es = on_decrement_cancel maker taker qty ∷ e.events in
      let told = record (moved e' maker taker qty left) { events = es } in
      let gone = remain told maker == 0 in
      let after = if gone then removed d told product maker else told in
      let out = decrement d product taker e price remaining maker next qty in
      let v' : Balanced start taker told left =
        moved-Balanced e remaining maker qty told.orderbook es le le' refl (λ i. refl)
          (ground arith) v in
      let v'' : Balanced start taker after left = elim (Bool-cases gone) [
        | inl empty ↦
            let is : after ≡ removed d told product maker = ground (arith, empty) in
            rw is (removed-Balanced told left maker v')
        | inr full ↦ let is : after ≡ told = ground (arith, full) in rw is v'
      ] in
      elim (Bool-cases (d.append e.orderbook.wal record_of).0) [
        | inr lost ↦
            let is : out ≡ failed e' = ground (arith, lost) in
            rw is (remaining, record { makers = v.makers; takers = v.takers; kept = v.kept })
        | inl written ↦ elim (Bool-cases (left == 0)) [
          | inl used ↦ let is : out ≡ leave after left = ground (arith, written, used) in rw is v''
          | inr more ↦
              let is : out ≡ again after left (if gone then next else maker) =
                ground (arith, written, more) in
              rw is v''
        ]
      ]

  drop-After :
      (e : Engine M L) (remaining maker next : ℕ) (both : Bool)
      → Balanced start taker e remaining
      → After (Balanced start taker) (drop_maker d product taker e remaining maker next both)
  unfolding drop_maker made taken
  drop-After e remaining maker next both v =
      let record_of = cancelled (slot_of e maker).order_id maker product in
      let e' = (logged d e record_of).1 in
      let told = tell e' (on_cancel maker) in
      let after = removed d told product maker in
      let out = drop_maker d product taker e remaining maker next both in
      let v' : Balanced start taker after remaining =
        removed-Balanced told remaining maker
          (record { makers = v.makers; takers = v.takers; kept = v.kept }) in
      elim (Bool-cases (d.append e.orderbook.wal record_of).0) [
        | inr lost ↦
            let is : out ≡ failed e' = ground (arith, lost) in
            rw is (remaining, record { makers = v.makers; takers = v.takers; kept = v.kept })
        | inl written ↦ elim (Bool-cases both) [
          | inr one ↦
              let is : out ≡ again after remaining next = ground (arith, written, one) in rw is v'
          | inl two ↦
              let zeroed = set_remain (tell after (taker_dropped taker remaining)) taker 0 in
              let is : out ≡ leave zeroed 0 = ground (arith, written, two) in
              rw is (record {
                makers = λ i ne. ground (arith, v'.makers i ne);
                takers = ground (arith, v'.takers);
                kept = ground arith;
              })
        ]
      ]

  pub round-After :
      (cb : Callbacks) (exclude : Bool) (e : Engine M L) (price remaining maker : ℕ)
      (out : Round M L)
      → Balanced start taker e remaining
      → Chosen d cb product taker exclude e price remaining maker out
      → After (Balanced start taker) out
  round-After cb exclude e price remaining maker _ v stays = v
  round-After cb exclude e price remaining maker _ v skips = v
  round-After cb exclude e price remaining maker _ v clears = removed-Balanced e remaining maker v
  round-After cb exclude e price remaining maker _ v (deals qty pos le le' other) =
      deal-After e price remaining maker _ qty le le' v
  round-After cb exclude e price remaining maker _ v (decrements qty pos le le') =
      decrement-After e price remaining maker _ qty le le' v
  round-After cb exclude e price remaining maker _ v (drops both) =
      drop-After e remaining maker _ both v

  pub learn-Balanced :
      (e : Engine M L) (remaining : ℕ) (b : Book M L)
      → b.slab ≡ e.orderbook.slab
      → Balanced start taker e remaining
      → Balanced start taker (record e { orderbook = b }) remaining
  learn-Balanced e remaining b same v =
      let is : (j : ℕ) → (b.slab.slots j).volume_remain ≡ remain e j =
        λ j. ap (λ slab. (slab.slots j).volume_remain) same in
      record {
        makers = λ j ne. omega (arith, is j, v.makers j ne);
        takers = v.takers;
        kept = omega (arith, is taker, v.kept);
      }

  book_taker-Balanced :
      (cb : Callbacks) (e : Engine M L) (left : ℕ)
      → Balanced start taker e left
      → Balanced start taker (book_taker d cb product taker e).1 left
  unfolding book_taker made taken
  book_taker-Balanced cb e left v =
      let same : (j : ℕ)
          → ((insert d e.orderbook product taker).1.slab.slots j).volume_remain ≡ remain e j =
        λ j. ap (λ slots. (slots j).volume_remain) (Keeps-insert d e.orderbook product taker).0 in
      elim (book_taker-cases d cb product taker false e) [
        | inl refused ↦ rw refused (record { makers = v.makers; takers = v.takers; kept = v.kept })
        | inr (inl lost) ↦ rw lost (record {
          makers = λ j ne. omega (arith, same j, v.makers j ne);
          takers = v.takers;
          kept = omega (arith, same taker, v.kept);
        })
        | inr (inr booked) ↦ rw booked (record {
          makers = λ j ne. omega (arith, same j, v.makers j ne);
          takers = v.takers;
          kept = omega (arith, same taker, v.kept);
        })
      ]

-- Through a call of `om_engine_match` or `om_engine_match_excluding_org`, every order other than
-- the taker loses exactly what the deals and the decrements with it as maker took, and the taker
-- loses exactly what those with it as taker took and what was dropped of it. This holds whatever
-- the callbacks answer and the log accepts, however the call ends, and also where the fuel cuts
-- the call off.
pub engine_match-balance :
    {M L : Type 0} (d : Deps M L) (fuel : ℕ) (cb : Callbacks) (product taker : ℕ) (exclude : Bool)
    (e : Engine M L) (i : ℕ)
    → i ≢ taker
    → let e' = (engine_match d fuel cb product taker exclude e).1 in
      (remain e' i + made i e'.events ≡ remain e i + made i e.events)
      × (remain e' taker + taken taker e'.events ≡ remain e taker + taken taker e.events)
engine_match-balance d fuel cb product taker exclude e i other =
    let (left, v) =
      engine_match-After d cb product taker exclude (Balanced e taker)
        (is_bid (slot_of e taker).flags) (slot_of e taker).price
        (λ e' price left maker out v near.
          round-After d e product taker cb exclude e' price left maker out v)
        (learn-Balanced d e product taker) (book_taker-Balanced d e product taker cb) fuel e refl
        refl (record { makers = λ i ne. refl; takers = refl; kept = refl }) in
    (v.makers i other, omega (arith, v.takers, v.kept))
