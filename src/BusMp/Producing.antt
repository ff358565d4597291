-- ===== src/BusMp/Producing.antt =====
-- src/om_bus_mp.c: what a claimant writes and commits keeps what holds of the bus.
use veloxmatch.Base.{
  ℕ, ◌+◌, ◌%◌, ◌≤◌, ◌<◌, ◌≡◌, ◌≢◌, refl, ap, sym, ◌∙◌, inl, inr, Option, none, some, List, length,
  get_elem?-length, arith, update, update_self, update_ne, bit_and, Bool-cases, ◌==◌, ==_refl,
  add64,
}
use native.Mathlib.Nat.{mod-lt}
use veloxmatch.BusMp.{Bus, BusError, Slot, Producer, claim_at, commit}
use veloxmatch.BusMp.Steps.{System, Offer, IsProducer, written}
use veloxmatch.BusMp.Claiming.{Holds-Quiet}
use veloxmatch.BusMp.Window.{Holds, Cell, Holding, window_slot, window_hit, cells_update}

-- What a claimant leaves in its slot.
abbrev filled : Slot → Producer → ℕ → List ℕ → Slot
filled slot p pos payload = record slot {
  sequence = pos;
  producer_id = p.producer_id;
  payload_len = length payload;
  payload = payload;
}

written_slots :
    (b : Bus) (p : Producer) (pos : ℕ) (payload : List ℕ) (j : ℕ)
    → let i = bit_and pos p.mask in
      (written b p pos payload).slots j ≡ update b.slots i (filled (b.slots i) p pos payload) j
written_slots b p pos payload j =
    let i = bit_and pos p.mask in
    elim (Bool-cases (i == j)) [ inl same ↦ rw (same, ==_refl i) refl | inr other ↦ rw other refl ]

pub writes-Holds :
    (s : System) (p : Producer) (pos : ℕ) (payload : List ℕ)
    → Holds s
    → IsProducer s.bus p
    → pos < s.bus.enqueue_pos
    → s.bus.dequeue_pos ≤ pos
    → s.offers pos ≡ none
    → Holds (record s {
      bus = written s.bus p pos payload;
      offers = update s.offers pos (
          some (record {
            producer_id = p.producer_id;
            payload_len = length payload;
            payload = payload;
          }));
    })
writes-Holds s p pos payload h prod below in_time fresh =
    let n = s.bus.capacity in
    let deq = s.bus.dequeue_pos in
    let i = bit_and pos p.mask in
    let i_is : i ≡ pos % n = window_slot s p pos h prod.masked in
    let v = filled (s.bus.slots (pos % n)) p pos payload in
    let offer : Option Offer =
      some
        (record { producer_id = p.producer_id; payload_len = length payload; payload = payload }) in
    let after = update s.offers pos offer in
    let others : (k : ℕ) → k ≢ pos → after k ≡ s.offers k =
      λ k ne. update_ne s.offers offer (λ e. ne (sym e)) in
    let here : after pos ≡ offer = update_self s.offers pos offer in
    let old = h.cells pos in_time (omega (arith, h.room)) in
    let free : v.seq ≡ pos = elim old.state [
      | inl free ↦ free
      | inr (taken, under, offered) ↦ absurd (offered fresh)
    ] in
    let cell : Cell s.bus.enqueue_pos (after pos) pos v =
      rw here (record { state = inl free; holding = (refl, refl, refl, refl) }) in
    record {
      pow2 = h.pow2;
      large = h.large;
      small = h.small;
      masked = h.masked;
      same_capacity = h.same_capacity;
      bounded = h.bounded;
      ordered = h.ordered;
      room = h.room;
      ahead = λ k le. others k (λ e. omega (arith, e)) ∙ h.ahead k le;
      cells = λ k low high.
          rw (written_slots s.bus p pos payload (k % n), i_is)
            (cells_update n deq s.bus.enqueue_pos pos s.bus.slots s.offers after v in_time
              (omega (arith, h.room)) h.cells cell others k low high);
      counted = h.counted;
      told = λ k q x at.
          let past : k < deq = omega (arith, get_elem?-length s.outcomes k (q, x) at, h.counted) in
          rw (others k (λ e. omega (arith, e, past, in_time))) (h.told k q x at);
    }

-- A commit changes a slot only if nobody has passed its position over.
pub committed_slot :
    (s : System) (p : Producer) (pos : ℕ)
    → Holds s
    → IsProducer s.bus p
    → (s.bus.slots (bit_and pos p.mask)).seq ≡ pos
    → s.bus.dequeue_pos ≤ pos
committed_slot s p pos h prod open_slot =
    let n = s.bus.capacity in
    let i_is : bit_and pos p.mask ≡ pos % n = window_slot s p pos h prod.masked in
    let (k, low, high, same) =
      window_hit n s.bus.dequeue_pos (pos % n) (mod-lt pos (omega (arith, h.large))) in
    let cell = h.cells k low high in
    let seq_is : (s.bus.slots (k % n)).seq ≡ pos =
      ap (λ j. (s.bus.slots j).seq) (same ∙ sym i_is) ∙ open_slot in
    elim cell.state [
      | inl free ↦ omega (arith, seq_is, free, low)
      | inr (taken, below, offered) ↦ omega (arith, seq_is, taken, low)
    ]

Holding-seq :
    (offer : Option Offer) (k : ℕ) (slot : Slot) (seq : ℕ)
    → Holding offer k slot
    → Holding offer k (record slot { seq = seq })
Holding-seq none k slot seq h = h
Holding-seq (some o) k slot seq h = h

sealed-Holds :
    (s : System) (p : Producer) (pos : ℕ)
    → Holds s
    → IsProducer s.bus p
    → pos < s.bus.enqueue_pos
    → s.offers pos ≢ none
    → (s.bus.slots (bit_and pos p.mask)).seq ≡ pos
    → let i = bit_and pos p.mask in
      Holds (record s {
        bus = record s.bus {
          slots = update s.bus.slots i (record (s.bus.slots i) { seq = add64 pos 1 });
        };
      })
sealed-Holds s p pos h prod below offered open_slot =
    let n = s.bus.capacity in
    let i_is : bit_and pos p.mask ≡ pos % n = window_slot s p pos h prod.masked in
    let low = committed_slot s p pos h prod open_slot in
    let high : pos < s.bus.dequeue_pos + n = omega (arith, h.room) in
    let old = h.cells pos low high in
    let v = record (s.bus.slots (pos % n)) { seq = add64 pos 1 } in
    let on_is : add64 pos 1 ≡ pos + 1 = omega (arith, h.bounded) in
    let cell : Cell s.bus.enqueue_pos (s.offers pos) pos v = record {
      state = inr (on_is, below, offered);
      holding = Holding-seq (s.offers pos) pos (s.bus.slots (pos % n)) (add64 pos 1) old.holding;
    } in
    record {
      pow2 = h.pow2;
      large = h.large;
      small = h.small;
      masked = h.masked;
      same_capacity = h.same_capacity;
      bounded = h.bounded;
      ordered = h.ordered;
      room = h.room;
      ahead = h.ahead;
      cells = λ k low_k high_k. rw i_is (
          cells_update n s.bus.dequeue_pos s.bus.enqueue_pos pos s.bus.slots s.offers s.offers v low
            high h.cells cell (λ j ne. refl) k low_k high_k);
      counted = h.counted;
      told = h.told;
    }

pub commits-Holds :
    (s : System) (p : Producer) (pos payload_len : ℕ) (error : Option BusError) (b : Bus)
    → Holds s
    → IsProducer s.bus p
    → pos < s.bus.enqueue_pos
    → s.offers pos ≢ none
    → commit s.bus p (claim_at p pos payload_len) ≡ (error, b)
    → Holds (record s { bus = b })
unfolding commit
commits-Holds s p pos payload_len error b h prod below offered e =
    let i = bit_and pos p.mask in
    elim (Bool-cases ((s.bus.slots i).seq == pos)) [
      | inr taken ↦
          let after = (commit s.bus p (claim_at p pos payload_len)).1 in
          let b_is : b ≡ after = ap (λ x. x.1) (sym e) in
          rw b_is (Holds-Quiet s after h (rw taken refl))
      | inl open_slot ↦
          let after = (commit s.bus p (claim_at p pos payload_len)).1 in
          let b_is : b ≡ after = ap (λ x. x.1) (sym e) in
          let slots = update s.bus.slots i (record (s.bus.slots i) { seq = add64 pos 1 }) in
          let put = record s.bus { slots = slots } in
          let h' = sealed-Holds s p pos h prod below offered (ground (arith, open_slot)) in
          rw b_is (
            Holds-Quiet (record s { bus = put }) after h'
              (elim (Bool-cases (s.bus.waiters == 0)) [
                | inl alone ↦ rw (open_slot, alone) refl
                | inr waited ↦ rw (open_slot, waited) refl
              ]))
    ]
