-- ===== src/Ring/Progress.antt =====
-- When the calls on the ring of src/om_worker.c get something done, and when the producer cannot.
use veloxmatch.Base.{
  ℕ, ◌+◌, ◌-◌, ◌≤◌, ◌<◌, ◌≡◌, refl, ◌∙◌, List-cases, ap, sym, Bool, Option, some, List, [], ◌∷◌,
  arith, length, get_elem?, min, take, update, update_self, append-nil, ◌++◌, add64, u64_mod,
  lt→ltb, inl, inr,
}
use veloxmatch.Base.Result.{ok}
use veloxmatch.Ring.{
  Ring, Config, Grants, init, publish_round, room_round, register_consumer,
  refresh_min_tail_on_consume, slot_index, dequeue, dequeue_batch, batch_loop,
}
use veloxmatch.Ring.Invariant.{
  Holds, publish_full, batch_loop_lem, consumer_tails-refresh, ready_iff, slot_index_first,
}
use veloxmatch.Ring.Delivery.{Inv, Reach-Inv, start-Inv, after_take}
use veloxmatch.Ring.Steps.{
  System, Phase, Step, Reach, start, call, no_room, room, slot_taken, publish, register, take_batch,
  here, next,
}
use veloxmatch.Ring.Steps

-- The tail that a consumer has after a call.
tail-after_take : (r : Ring) (c last : ℕ) → (after_take r c last).consumer_tails c ≡ last
tail-after_take r c last =
    ap (λ f. f c)
      (consumer_tails-refresh (record r { consumer_tails = update r.consumer_tails c last })
        (r.consumer_tails c) last)
    ∙ update_self r.consumer_tails c last

module _ {r : Ring} {log : List ℕ} (c : ℕ) (h : Holds r log) (inside : c < r.consumer_count) where
  -- A consumer behind the head gets the record at its tail.
  dequeue_behind :
      r.consumer_tails c < r.head
      → (p : ℕ) × (r' : Ring) × (dequeue r c ≡ ok (some p, r'))
        × (get_elem? log (r.consumer_tails c) ≡ some p)
  unfolding dequeue
  dequeue_behind behind =
      let t = r.consumer_tails c in
      let ready = ready_iff t h (h.tails c) ∙ lt→ltb t r.head behind in
      let at = slot_index_first t h (omega (arith, h.first_lap)) in
      (
        (r.slots (slot_index r t)).ptr,
        after_take r c (add64 t 1),
        ground (arith, ready),
        rw at (h.ptrs t behind),
      )

  -- A batch call brings as many records as there are, up to the number asked for.
  dequeue_batch_count :
      (n : ℕ)
      → 0 < n
      → (ps : List ℕ) × (r' : Ring) × (dequeue_batch r c n ≡ ok (ps, r'))
        × (length ps ≡ min n (r.head - r.consumer_tails c))
        × (take (r.consumer_tails c) log ++ ps ≡ take (r'.consumer_tails c) log)
  unfolding dequeue_batch
  dequeue_batch_count n asked =
      let t = r.consumer_tails c in
      let (below, count, joined) = batch_loop_lem n t h (h.tails c) in
      elim (List-cases (batch_loop n r t).0) [
        | inl empty ↦ ([], r, ground arith, ground (arith, count), append-nil (take t log))
        | inr (p, rest, some_of) ↦
            let last = (batch_loop n r t).1 in
            let tail : (after_take r c last).consumer_tails c ≡ last = tail-after_take r c last in
            (
              p ∷ rest,
              after_take r c last,
              ground arith,
              ground (arith, count),
              rw tail (ground (arith, joined, some_of)),
            )
      ]

-- After any steps on a ring that `om_market_ring_init` made with at least two slots, and fewer than
-- 2 ^ 64 - 1, a consumer of the ring that is behind the head gets the record of the log at its tail;
-- and a batch call that asks for at least one gets the records from its tail up to its new tail, as
-- many as there are, up to the number asked for.
pub dequeue_progress :
    (config : Config) (grants : Grants) {r : Ring} {s : System} (c n : ℕ)
    → 2 ≤ config.capacity
    → config.capacity + 1 < u64_mod
    → init config grants ≡ ok r
    → Reach (start r) s
    → c < s.ring.consumer_count
    → 0 < n
    → s.ring.consumer_tails c < s.ring.head
    → ((p : ℕ) × (r' : Ring) × (dequeue s.ring c ≡ ok (some p, r'))
        × (get_elem? s.log (s.ring.consumer_tails c) ≡ some p))
      × ((ps : List ℕ) × (r' : Ring) × (dequeue_batch s.ring c n ≡ ok (ps, r'))
          × (length ps ≡ min n (s.ring.head - s.ring.consumer_tails c))
          × (take (s.ring.consumer_tails c) s.log ++ ps ≡ take (r'.consumer_tails c) s.log))
dequeue_progress config grants c n large small e steps inside asked behind =
    let v = Reach-Inv (start-Inv config grants large small e) steps in
    (dequeue_behind c v.holds inside behind, dequeue_batch_count c v.holds inside n asked)

room_round-capacity :
    (r : Ring) (spins : ℕ) {found : Bool} {r' : Ring}
    → room_round r spins ≡ (found, r')
    → r'.capacity ≡ r.capacity
unfolding room_round
room_round-capacity r spins e = ground arith

publish_round-capacity :
    (r : Ring) (p : ℕ) {woken : Bool} {r' : Ring}
    → publish_round r p ≡ some (r', woken)
    → r'.capacity ≡ r.capacity
unfolding publish_round
publish_round-capacity r p e = ground arith

register-capacity :
    (r : Ring) (c : ℕ) {r' : Ring} → register_consumer r c ≡ ok r' → r'.capacity ≡ r.capacity
unfolding register_consumer
register-capacity r c e = ground arith

dequeue-capacity :
    (r : Ring) (c : ℕ) (o : Option ℕ) {r' : Ring}
    → dequeue r c ≡ ok (o, r')
    → r'.capacity ≡ r.capacity
unfolding dequeue refresh_min_tail_on_consume
dequeue-capacity r c o e = ground arith

dequeue_batch-capacity :
    (r : Ring) (c n : ℕ) (ps : List ℕ) {r' : Ring}
    → dequeue_batch r c n ≡ ok (ps, r')
    → r'.capacity ≡ r.capacity
unfolding dequeue_batch refresh_min_tail_on_consume
dequeue_batch-capacity r c n ps e =
    ground (arith, List-cases (batch_loop n r (r.consumer_tails c)).0)

Step-capacity : {s t : System} → Step s t → t.ring.capacity ≡ s.ring.capacity
Step-capacity (call s p a b) = refl
Step-capacity (no_room s p spins r a e) = room_round-capacity s.ring spins e
Step-capacity (room s p spins r a e) = room_round-capacity s.ring spins e
Step-capacity (slot_taken s p a e) = refl
Step-capacity (publish s p r woken a e) = publish_round-capacity s.ring p e
Step-capacity (register s c r e) = register-capacity s.ring c e
Step-capacity (Steps.take s c o r e) = dequeue-capacity s.ring c o e
Step-capacity (take_batch s c n ps r e) = dequeue_batch-capacity s.ring c n ps e

-- A ring that has been filled once: every slot carries the position of the first lap.
abbrev pub IsFull : System → Type 0
IsFull s = length s.log ≡ s.ring.capacity

Step-log : {s t : System} → Step s t → Inv s → IsFull s → t.log ≡ s.log
Step-log (call s p a b) v full = refl
Step-log (no_room s p spins r a e) v full = refl
Step-log (room s p spins r a e) v full = refl
Step-log (slot_taken s p a e) v full = refl
Step-log (publish s p r woken a e) v full =
    let stuck = publish_full p v.holds (omega (arith, v.holds.counted)) in cc
Step-log (register s c r e) v full = refl
Step-log (Steps.take s c o r e) v full = refl
Step-log (take_batch s c n ps r e) v full = refl

full_lem :
    {s t : System}
    → Inv s
    → IsFull s
    → Reach s t
    → (t.log ≡ s.log) × (t.ring.capacity ≡ s.ring.capacity)
full_lem v full here = (refl, refl)
full_lem v full (next r st) =
    let (log, cap) = full_lem v full r in
    (Step-log st (Reach-Inv v r) (ap length log ∙ full ∙ sym cap) ∙ log, Step-capacity st ∙ cap)

-- Once as many records were published as the ring has slots, nothing is published any more: after
-- any further steps the log is the same, although the consumers may have taken every record. So a
-- producer that is in `om_market_ring_enqueue` then never returns from it. The ring is one that
-- `om_market_ring_init` made with at least two slots.
pub full-Reach :
    (config : Config) (grants : Grants) {r : Ring} {s t : System}
    → 2 ≤ config.capacity
    → config.capacity + 1 < u64_mod
    → init config grants ≡ ok r
    → Reach (start r) s
    → IsFull s
    → Reach s t
    → t.log ≡ s.log
full-Reach config grants large small e steps full more =
    (full_lem (Reach-Inv (start-Inv config grants large small e) steps) full more).0
