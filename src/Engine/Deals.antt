-- ===== src/Engine/Deals.antt =====
-- The deals that `engine_match` of src/om_engine.c makes: their price, their volume, and with whom.
use veloxmatch.Base.{
  ℕ, ◌&&◌, ◌-◌, ◌<◌, ◌≡◌, refl, ap, ◌∙◌, Bool, false, List, ◌∷◌, arith, ◌==◌, if◌then◌else◌,
  Bool-cases, inl, inr,
}
use veloxmatch.Book.{Book, Deps, matched, cancelled, is_bid}
use veloxmatch.Book.Insert.{insert}
use veloxmatch.Book.Keeps.{Keeps-remove_slot, Keeps-insert}
use veloxmatch.Engine.{
  Engine, Callbacks, Round, leave, again, failed, Event, on_match, on_deal, on_decrement_cancel,
  on_booked, on_filled, on_cancel, taker_dropped, slot_of, removed, moved, tell, logged, set_remain,
  deal, decrement, drop_maker, book_taker, engine_match, beyond,
}
use veloxmatch.Engine.Loops.{
  After, Chosen, stays, skips, clears, deals, decrements, drops, book_taker-cases,
  engine_match-After,
}

-- The events are those before, and newer ones that satisfy `P`.
pub data Since (P : Event → Type 0) (before : List Event) : List Event → Type 0 where
  nothing : Since P before before
  also :
      {es : List Event} (event : Event) → P event → Since P before es → Since P before (event ∷ es)

-- What a taker with this side, limit and org may be told: a deal has a price within the limit and a
-- volume, and if own orders are excluded, the maker is of another org.
abbrev pub Fair : (ℕ → ℕ) → Bool → ℕ → ℕ → Bool → Event → Type 0
Fair orgs bid limit taker exclude (on_deal maker t price qty) =
    (t ≡ taker)
    × (beyond bid limit price ≡ false)
    × (0 < qty)
    × ((exclude && (orgs maker == orgs taker)) ≡ false)
Fair orgs bid limit taker exclude (on_match order price qty) =
    (beyond bid limit price ≡ false) × (0 < qty)
Fair orgs bid limit taker exclude (on_decrement_cancel maker t qty) = (t ≡ taker) × (0 < qty)
Fair orgs bid limit taker exclude (on_booked order) = order ≡ taker
Fair orgs bid limit taker exclude (on_filled order) = Unit
Fair orgs bid limit taker exclude (on_cancel order) = Unit
Fair orgs bid limit taker exclude (taker_dropped t qty) = t ≡ taker

abbrev pub org_of : {M L : Type 0} → Engine M L → ℕ → ℕ
org_of e i = (slot_of e i).org

module _ {M L : Type 0} (d : Deps M L) (start : Engine M L) (product taker : ℕ) (exclude : Bool)
    (bid : Bool) (limit : ℕ) where
  abbrev FairEvent : Event → Type 0
  FairEvent = Fair (org_of start) bid limit taker exclude

  -- The orgs are those at the start, and what was told since then is fair.
  abbrev FairUntil : Engine M L → ℕ → Type 0
  FairUntil e left = ((i : ℕ) → org_of e i ≡ org_of start i) × Since FairEvent start.events e.events

  removed-Fair :
      (e : Engine M L) (left i : ℕ) → FairUntil e left → FairUntil (removed d e product i) left
  removed-Fair e left i (orgs, told) =
      let same = (Keeps-remove_slot d e.orderbook product i).0 in
      (λ j. ap (λ slots. (slots j).org) same ∙ orgs j, told)

  moved-org :
      (e : Engine M L) (maker qty left i : ℕ) → org_of (moved e maker taker qty left) i ≡ org_of e i
  moved-org e maker qty left i = ground arith

  deal-Fair :
      (e : Engine M L) (price remaining maker next qty : ℕ)
      → 0 < qty
      → (exclude && (org_of e maker == org_of e taker)) ≡ false
      → beyond bid limit price ≡ false
      → FairUntil e remaining
      → After FairUntil (deal d product taker e price remaining maker next qty)
  unfolding deal
  deal-Fair e price remaining maker next qty pos other near (orgs, told) =
      let record_of =
        matched (slot_of e maker).order_id (slot_of e taker).order_id price qty product in
      let e' = (logged d e record_of).1 in
      let left = remaining - qty in
      let es =
        on_deal maker taker price qty
        ∷ on_match taker price qty
        ∷ on_match maker price qty
        ∷ e.events in
      let after = record (moved e' maker taker qty left) { events = es } in
      let filled = tell after (on_filled maker) in
      let out = deal d product taker e price remaining maker next qty in
      let others : (exclude && (org_of start maker == org_of start taker)) ≡ false =
        rw (← orgs maker, ← orgs taker) other in
      let orgs' : (i : ℕ) → org_of after i ≡ org_of start i =
        λ i. moved-org e' maker qty left i ∙ orgs i in
      let told' : Since FairEvent start.events es =
        also (on_deal maker taker price qty) (refl, near, pos, others)
          (also (on_match taker price qty) (near, pos)
            (also (on_match maker price qty) (near, pos) told)) in
      elim (Bool-cases (d.append e.orderbook.wal record_of).0) [
        | inr lost ↦
            let is : out ≡ failed e' = ground (arith, lost) in rw is (remaining, (orgs, told))
        | inl written ↦ elim (Bool-cases ((slot_of after maker).volume_remain == 0)) [
          | inl empty ↦
              let is : out ≡ again (removed d filled product maker) left next =
                ground (arith, written, empty) in
              rw is (removed-Fair filled left maker (orgs', also (on_filled maker) tt told'))
          | inr full ↦ elim (Bool-cases (left == 0)) [
            | inl used ↦
                let is : out ≡ leave after left = ground (arith, written, full, used) in
                rw is (orgs', told')
            | inr more ↦
                let is : out ≡ again after left maker = ground (arith, written, full, more) in
                rw is (orgs', told')
          ]
        ]
      ]

  decrement-Fair :
      (e : Engine M L) (price remaining maker next qty : ℕ)
      → 0 < qty
      → FairUntil e remaining
      → After FairUntil (decrement d product taker e price remaining maker next qty)
  unfolding decrement
  decrement-Fair e price remaining maker next qty pos (orgs, told) =
      let record_of =
        matched (slot_of e maker).order_id (slot_of e taker).order_id price qty product in
      let e' = (logged d e record_of).1 in
      let left = remaining - qty in
      let es = on_decrement_cancel maker taker qty ∷ e.events in
      let after = record (moved e' maker taker qty left) { events = es } in
      let gone = (slot_of after maker).volume_remain == 0 in
      let final = if gone then removed d after product maker else after in
      let out = decrement d product taker e price remaining maker next qty in
      let fair : FairUntil after left = (
        λ i. moved-org e' maker qty left i ∙ orgs i,
        also (on_decrement_cancel maker taker qty) (refl, pos) told,
      ) in
      let fair' : FairUntil final left = elim (Bool-cases gone) [
        | inl empty ↦
            let is : final ≡ removed d after product maker = ground (arith, empty) in
            rw is (removed-Fair after left maker fair)
        | inr full ↦ let is : final ≡ after = ground (arith, full) in rw is fair
      ] in
      elim (Bool-cases (d.append e.orderbook.wal record_of).0) [
        | inr lost ↦
            let is : out ≡ failed e' = ground (arith, lost) in rw is (remaining, (orgs, told))
        | inl written ↦ elim (Bool-cases (left == 0)) [
          | inl used ↦
              let is : out ≡ leave final left = ground (arith, written, used) in rw is fair'
          | inr more ↦
              let is : out ≡ again final left (if gone then next else maker) =
                ground (arith, written, more) in
              rw is fair'
        ]
      ]

  drop-Fair :
      (e : Engine M L) (remaining maker next : ℕ) (both : Bool)
      → FairUntil e remaining
      → After FairUntil (drop_maker d product taker e remaining maker next both)
  unfolding drop_maker
  drop-Fair e remaining maker next both (orgs, told) =
      let record_of = cancelled (slot_of e maker).order_id maker product in
      let e' = (logged d e record_of).1 in
      let cancel = tell e' (on_cancel maker) in
      let after = removed d cancel product maker in
      let out = drop_maker d product taker e remaining maker next both in
      let fair : FairUntil after remaining =
        removed-Fair cancel remaining maker (orgs, also (on_cancel maker) tt told) in
      elim (Bool-cases (d.append e.orderbook.wal record_of).0) [
        | inr lost ↦
            let is : out ≡ failed e' = ground (arith, lost) in rw is (remaining, (orgs, told))
        | inl written ↦ elim (Bool-cases both) [
          | inr one ↦
              let is : out ≡ again after remaining next = ground (arith, written, one) in rw is fair
          | inl two ↦
              let zeroed = set_remain (tell after (taker_dropped taker remaining)) taker 0 in
              let same : (i : ℕ) → org_of zeroed i ≡ org_of after i = λ i. ground arith in
              let is : out ≡ leave zeroed 0 = ground (arith, written, two) in
              rw is (λ i. same i ∙ fair.0 i, also (taker_dropped taker remaining) refl fair.1)
        ]
      ]

  round-Fair :
      (cb : Callbacks) (e : Engine M L) (price remaining maker : ℕ) (out : Round M L)
      → FairUntil e remaining
      → beyond bid limit price ≡ false
      → Chosen d cb product taker exclude e price remaining maker out
      → After FairUntil out
  round-Fair cb e price remaining maker _ v near stays = v
  round-Fair cb e price remaining maker _ v near skips = v
  round-Fair cb e price remaining maker _ v near clears = removed-Fair e remaining maker v
  round-Fair cb e price remaining maker _ v near (deals qty pos le le' other) =
      deal-Fair e price remaining maker _ qty pos other near v
  round-Fair cb e price remaining maker _ v near (decrements qty pos le le') =
      decrement-Fair e price remaining maker _ qty pos v
  round-Fair cb e price remaining maker _ v near (drops both) = drop-Fair e remaining maker _ both v

  learn-Fair :
      (e : Engine M L) (remaining : ℕ) (b : Book M L)
      → b.slab ≡ e.orderbook.slab
      → FairUntil e remaining
      → FairUntil (record e { orderbook = b }) remaining
  learn-Fair e remaining b same (orgs, told) =
      (λ i. ap (λ slab. (slab.slots i).org) same ∙ orgs i, told)

  book_taker-Fair :
      (cb : Callbacks) (e : Engine M L) (left : ℕ)
      → FairUntil e left
      → FairUntil (book_taker d cb product taker e).1 left
  book_taker-Fair cb e left (orgs, told) =
      let kept = (Keeps-insert d e.orderbook product taker).0 in
      let orgs' : (i : ℕ)
          → ((insert d e.orderbook product taker).1.slab.slots i).org ≡ org_of start i =
        λ i. ap (λ slots. (slots i).org) kept ∙ orgs i in
      elim (book_taker-cases d cb product taker exclude e) [
        | inl refused ↦ rw refused (orgs, also (on_cancel taker) tt told)
        | inr (inl lost) ↦ rw lost (orgs', told)
        | inr (inr booked) ↦ rw booked (orgs', also (on_booked taker) refl told)
      ]

-- All that a call of `om_engine_match`, or of `om_engine_match_excluding_org`, tells the callbacks
-- is fair: every deal is with the taker, at a price within the taker's limit and for a volume that
-- is not 0, and in the excluding call no deal is with an order of the taker's own org. The events
-- from before the call are still there. This holds whatever the callbacks answer, also where the
-- log fails or the fuel is spent.
pub engine_match-Fair :
    {M L : Type 0} (d : Deps M L) (fuel : ℕ) (cb : Callbacks) (product taker : ℕ) (exclude : Bool)
    (e : Engine M L)
    → let slot = slot_of e taker in
      Since
        (Fair (org_of e) (is_bid slot.flags) slot.price taker exclude)
        e.events
        (engine_match d fuel cb product taker exclude e).1.events
engine_match-Fair d fuel cb product taker exclude e =
    let bid = is_bid (slot_of e taker).flags in
    let limit = (slot_of e taker).price in
    let (left, v) =
      engine_match-After d cb product taker exclude (FairUntil d e product taker exclude bid limit)
        bid limit (round-Fair d e product taker exclude bid limit cb)
        (learn-Fair d e product taker exclude bid limit)
        (book_taker-Fair d e product taker exclude bid limit cb) fuel e refl refl
        (λ i. refl, nothing) in
    v.1
