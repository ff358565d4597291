-- ===== src/Engine/Outcome.antt =====
-- src/om_engine.c: what `engine_match` has done with the taker when it returns 0.
use veloxmatch.Base.{
  ℕ, ◌≡◌, refl, ap, sym, ◌∙◌, ◌⊎◌, inl, inr, Bool, true, false, not, Option, ◌<◌, none, some, List,
  ◌∷◌, arith, ◌==◌, Bool-cases, subst,
}
use veloxmatch.Book.{Deps, is_bid}
use veloxmatch.Slab.{null, Slot}
use veloxmatch.Book.Query.{best_head}
use veloxmatch.Book.Insert.{Status, insert}
use veloxmatch.Book.Keeps.{Keeps-insert}
use veloxmatch.Book.Leaving.{HashLaws}
use veloxmatch.Book.Entering.{AfterInsert, insert_lem}
use veloxmatch.Engine.{
  Engine, Callbacks, Round, leave, again, failed, Event, on_booked, on_cancel, slot_of, settle,
  book_taker, may_book, tell, engine_match, levels,
}
use veloxmatch.Engine.Balance.{remain, Balanced, round-After, learn-Balanced}
use veloxmatch.Engine.Loops.{After, levels-After, Status-cases}

-- `pre_booked` was asked about the taker, after these events, and has refused it.
abbrev pub Refused : Option (List Event → Slot → Bool) → List Event → Slot → Type 0
Refused none es slot = ⊥
Refused (some ask) es slot = ask es slot ≡ false

-- `pre_booked` has not refused it: it has agreed, or there is no such callback.
abbrev pub Agreed : Option (List Event → Slot → Bool) → List Event → Slot → Type 0
Agreed none es slot = es ≡ es
Agreed (some ask) es slot = ask es slot ≡ true

-- The taker is used up; or it has volume left and was refused, or agreed to and found by its id.
abbrev pub Settled : {M L : Type 0} → Deps M L → Callbacks → ℕ → ℕ → Engine M L → Type 0
Settled d cb product taker e =
    (remain e taker ≡ 0)
    ⊎ ((es : List Event) × (0 < remain e taker)
        × (e.events ≡ on_cancel taker ∷ es)
        × Refused cb.pre_booked es (slot_of e taker))
    ⊎ ((es : List Event) × (0 < remain e taker)
        × (e.events ≡ on_booked taker ∷ es)
        × Agreed cb.pre_booked es (slot_of e taker)
        × (d.hash_get e.orderbook.order_hashmap (slot_of e taker).order_id
            ≡ some (record { slot_idx = taker; product_id = product })))

ask-Refused :
    (o : Option (List Event → Slot → Bool)) (cb : Callbacks) {M L : Type 0} (e : Engine M L)
    (taker : ℕ)
    → cb.pre_booked ≡ o
    → may_book cb e taker ≡ false
    → Refused o e.events (slot_of e taker)
unfolding may_book
ask-Refused none cb e taker is refused = ground (arith, is, refused)
ask-Refused (some ask) cb e taker is refused = ground (arith, is, refused)

ask-Agreed :
    (o : Option (List Event → Slot → Bool)) (cb : Callbacks) {M L : Type 0} (e : Engine M L)
    (taker : ℕ)
    → cb.pre_booked ≡ o
    → may_book cb e taker ≡ true
    → Agreed o e.events (slot_of e taker)
unfolding may_book
ask-Agreed none cb e taker is agreed = refl
ask-Agreed (some ask) cb e taker is agreed = ground (arith, is, agreed)

module _ {M L : Type 0} (d : Deps M L) (laws : HashLaws d) (product taker : ℕ) where
  book_taker-Settled :
      (cb : Callbacks) (e e' : Engine M L)
      → 0 < remain e taker
      → book_taker d cb product taker e ≡ (Status.done, e')
      → Settled d cb product taker e'
  unfolding book_taker
  book_taker-Settled cb e e' more ok = elim (Bool-cases (may_book cb e taker)) [
    | inr refused ↦
        let is : e' ≡ tell e (on_cancel taker) = ground (arith, ok, refused) in
        rw is (inr (inl (e.events, more, refl, ask-Refused cb.pre_booked cb e taker refl refused)))
    | inl agreed ↦
        let b = (insert d e.orderbook product taker).1 in
        let after = record e { orderbook = b } in
        let booked : (insert d e.orderbook product taker).0 ≡ Status.done =
          elim (Status-cases (insert d e.orderbook product taker).0) [
            | inl done_is ↦ done_is
            | inr (inl bad) ↦ ground (arith, ok, agreed, bad)
            | inr (inr lost) ↦ ground (arith, ok, agreed, lost)
          ] in
        let is : e' ≡ tell after (on_booked taker) = ground (arith, ok, agreed, booked) in
        let pair : insert d e.orderbook product taker ≡ (Status.done, b) = ground (arith, booked) in
        let found =
          subst (λ r. AfterInsert d e.orderbook product taker r) pair
            (insert_lem d e.orderbook product taker laws) in
        let id = (slot_of e taker).order_id in
        let slots : b.slab.slots ≡ e.orderbook.slab.slots =
          (Keeps-insert d e.orderbook product taker).0 in
        let same : (b.slab.slots taker).order_id ≡ id =
          ap (λ slots. (slots taker).order_id) slots in
        let at : d.hash_get b.order_hashmap id
            ≡ some (record { slot_idx = taker; product_id = product }) =
          ground (arith, found id) in
        rw is (
          inr (
            inr (
              e.events,
              subst (λ f. 0 < (f taker).volume_remain) (sym slots) more,
              refl,
              subst (λ f. Agreed cb.pre_booked e.events (f taker)) (sym slots)
                  (ask-Agreed cb.pre_booked cb e taker refl agreed),
              ap (λ i. d.hash_get b.order_hashmap i) same ∙ at,
            )))
  ]

  settle-Settled :
      (cb : Callbacks) (r : Round M L) (e' : Engine M L)
      → After (λ e left. remain e taker ≡ left) r
      → settle d cb product taker r ≡ (some Status.done, e')
      → Settled d cb product taker e'
  unfolding settle
  settle-Settled cb (again e left i) e' v ok = ground (arith, ok)
  settle-Settled cb (failed e) e' v ok = ground (arith, ok)
  settle-Settled cb (leave e left) e' v ok = elim (Bool-cases (left == 0)) [
    | inl used ↦
        let is : e' ≡ e = ground (arith, ok, used) in rw is (inl (v ∙ ground (arith, used)))
    | inr more ↦ book_taker-Settled cb e e' (ground (arith, v, more)) (ground (arith, ok, more))
  ]

After-map :
    {M L : Type 0} (P Q : Engine M L → ℕ → Type 0)
    → ((e : Engine M L) (left : ℕ) → P e left → Q e left)
    → (r : Round M L) → After P r
    → After Q r
After-map P Q f (leave e left) p = f e left p
After-map P Q f (again e left i) p = f e left p
After-map P Q f (failed e) (left, p) = (left, f e left p)

-- When a match call returns 0, the taker has nothing left; or it has volume left, `pre_booked` was
-- asked after all other events and has refused it, and `on_cancel` was told of it last; or it has
-- volume left, `pre_booked` has agreed or there is none, `on_booked` was told of it last, and the
-- order is found in the hash map under its id, where that is a map.
pub engine_match_outcome :
    {M L : Type 0} (d : Deps M L)
    → HashLaws d
    → (fuel : ℕ) (cb : Callbacks) (product taker : ℕ) (exclude : Bool) (e e' : Engine M L)
    → engine_match d fuel cb product taker exclude e ≡ (some Status.done, e')
    → Settled d cb product taker e'
unfolding engine_match
engine_match_outcome d laws fuel cb product taker exclude e e' ok =
    let slot = slot_of e taker in
    let bid = is_bid slot.flags in
    let head : ℕ = elim (best_head e.orderbook product (not bid)) [ none ↦ null | some i ↦ i ] in
    let out =
      levels d fuel fuel cb product taker bid slot.price exclude e slot.volume_remain head in
    elim (Bool-cases (slot.volume_remain == 0)) [
      | inl empty ↦
          let is : e' ≡ e = ground (arith, ok, empty) in rw is (inl (ground (arith, empty)))
      | inr full ↦
          let balanced =
            levels-After d cb product taker exclude (Balanced e taker) bid slot.price
              (λ e' price left maker out v near.
                round-After d e product taker cb exclude e' price left maker out v)
              (learn-Balanced d e product taker) fuel fuel slot.volume_remain head
              (record { makers = λ i ne. refl; takers = refl; kept = refl }) in
          let kept =
            After-map (Balanced e taker) (λ e left. remain e taker ≡ left) (λ e left v. v.kept) out
              balanced in
          settle-Settled d laws product taker cb out e' kept (ground (arith, ok, full))
    ]
