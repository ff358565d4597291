-- ===== src/BusMp/Claiming.antt =====
-- src/om_bus_mp.c: the rounds of a claim keep what holds of the bus.
use veloxmatch.Base.{
  ℕ, ◌+◌, ◌%◌, ◌^◌, ◌≤◌, ◌<◌, ◌≡◌, ◌≢◌, refl, ap, sym, ◌∙◌, subst, Bool, inl, inr, Option, arith,
  bit_and, ℕ-cases, Bool-cases, leb, ◌==◌, add64, sub64,
}
use native.Mathlib.Nat.{add-mod_right}
use veloxmatch.BusMp.{
  Bus, Slot, Producer, ClaimRound, claimed, ring_full, retry, claim_round, count_full,
}
use veloxmatch.BusMp.Steps.{System, Offer, IsProducer}
use veloxmatch.BusMp.Window.{Holds, Cell, window_slot}

-- Nothing but counts differs.
abbrev pub Quiet : Bus → Bus → Type 0
Quiet b b' = b' ≡ record b {
  notify_seq = b'.notify_seq;
  records_published = b'.records_published;
  full_rejects = b'.full_rejects;
  poisoned_rejects = b'.poisoned_rejects;
  counters = b'.counters;
}

pub Holds-Quiet : (s : System) (b : Bus) → Holds s → Quiet s.bus b → Holds (record s { bus = b })
Holds-Quiet s b h quiet =
    subst (λ x. Holds (record s { bus = x })) (sym quiet)
      (record {
        pow2 = h.pow2;
        large = h.large;
        small = h.small;
        masked = h.masked;
        same_capacity = h.same_capacity;
        bounded = h.bounded;
        ordered = h.ordered;
        room = h.room;
        ahead = h.ahead;
        cells = h.cells;
        counted = h.counted;
        told = h.told;
      })

Cell-later :
    (enq later k : ℕ) (offer : Option Offer) (slot : Slot)
    → enq ≤ later
    → Cell enq offer k slot
    → Cell later offer k slot
Cell-later enq later k offer slot le c = record {
  state = elim c.state [
    | inl free ↦ inl free
    | inr (taken, below, offered) ↦ inr (taken, omega arith, offered)
  ];
  holding = c.holding;
}

-- A claim succeeds only if the ring has room: the slot of the position is the one that the window
-- has for it.
pub claimed_room :
    (s : System) (p : Producer)
    → Holds s
    → IsProducer s.bus p
    → sub64 (s.bus.slots (bit_and s.bus.enqueue_pos p.mask)).seq s.bus.enqueue_pos ≡ 0
    → s.bus.enqueue_pos < s.bus.dequeue_pos + s.bus.capacity
claimed_room s p h prod same =
    elim (ℕ-cases s.bus.enqueue_pos (s.bus.dequeue_pos + s.bus.capacity)) [
      | inr ne ↦ omega (arith, h.room, ne)
      | inl full ↦
          let n = s.bus.capacity in
          let deq = s.bus.dequeue_pos in
          let i = bit_and s.bus.enqueue_pos p.mask in
          let i_is : i ≡ deq % n =
            window_slot s p s.bus.enqueue_pos h prod.masked
            ∙ ap (λ k. k % n) full
            ∙ add-mod_right deq n in
          let cell = h.cells deq (omega arith) (omega (arith, h.large)) in
          let seq_is : (s.bus.slots i).seq ≡ (s.bus.slots (deq % n)).seq =
            ap (λ j. (s.bus.slots j).seq) i_is in
          absurd (elim cell.state [
            | inl free ↦ omega (arith, same, seq_is, free, full, h.large, h.bounded)
            | inr (taken, below, offered) ↦
                omega (arith, same, seq_is, taken, full, h.large, h.bounded)
          ])
    ]

-- A slot that is not free for the next position means that all are claimed, and its number is
-- behind, as 64 bits have it.
pub claim_full :
    (s : System) (p : Producer)
    → Holds s
    → IsProducer s.bus p
    → let diff = sub64 (s.bus.slots (bit_and s.bus.enqueue_pos p.mask)).seq s.bus.enqueue_pos in
      diff ≢ 0 → (s.bus.enqueue_pos ≡ s.bus.dequeue_pos + s.bus.capacity) × (2 ^ 63 ≤ diff)
claim_full s p h prod other =
    let n = s.bus.capacity in
    let deq = s.bus.dequeue_pos in
    let pos = s.bus.enqueue_pos in
    let i = bit_and pos p.mask in
    let diff = sub64 (s.bus.slots i).seq pos in
    let i_is : i ≡ pos % n = window_slot s p pos h prod.masked in
    elim (ℕ-cases pos (deq + n)) [
      | inr ne ↦
          let cell = h.cells pos h.ordered (omega (arith, h.room, ne)) in
          let seq_is : (s.bus.slots i).seq ≡ (s.bus.slots (pos % n)).seq =
            ap (λ j. (s.bus.slots j).seq) i_is in
          absurd (elim cell.state [
            | inl free ↦ other (omega (arith, seq_is, free, h.bounded))
            | inr (taken, below, offered) ↦ omega (arith, below)
          ])
      | inl full ↦
          let cell = h.cells deq (omega arith) (omega (arith, h.large)) in
          let wrapped : i ≡ deq % n = i_is ∙ ap (λ k. k % n) full ∙ add-mod_right deq n in
          let seq_is : (s.bus.slots i).seq ≡ (s.bus.slots (deq % n)).seq =
            ap (λ j. (s.bus.slots j).seq) wrapped in
          let behind : 2 ^ 63 ≤ diff = elim cell.state [
            | inl free ↦ omega (arith, seq_is, free, full, h.large, h.small, h.bounded)
            | inr (taken, below, offered) ↦
                omega (arith, seq_is, taken, full, h.large, h.small, h.bounded)
          ] in
          (full, behind)
    ]

pub claims-Holds :
    (s : System) (p : Producer) (spurious : Bool) (round : ClaimRound) (b : Bus)
    → Holds s
    → IsProducer s.bus p
    → claim_round s.bus p spurious ≡ (round, b)
    → b.enqueue_pos < 2 ^ 62
    → Holds (record s { bus = b })
unfolding claim_round
claims-Holds s p spurious round b h prod e below =
    let pos = s.bus.enqueue_pos in
    let diff = sub64 (s.bus.slots (bit_and pos p.mask)).seq pos in
    elim (Bool-cases (diff == 0)) [
      | inr other ↦ elim (Bool-cases (leb (2 ^ 63) diff)) [
        | inl over ↦
            let is : claim_round s.bus p spurious ≡ (ring_full, count_full s.bus p.producer_id) =
              ground (arith, other, over) in
            let b_is : b ≡ count_full s.bus p.producer_id = ap (λ x. x.1) (sym e ∙ is) in
            rw b_is (Holds-Quiet s (count_full s.bus p.producer_id) h refl)
        | inr under ↦
            let is : claim_round s.bus p spurious ≡ (retry, s.bus) = ground (arith, other, under) in
            let b_is : b ≡ s.bus = ap (λ x. x.1) (sym e ∙ is) in rw b_is h
      ]
      | inl same ↦ elim (Bool-cases spurious) [
        | inl failed ↦
            let is : claim_round s.bus p spurious ≡ (retry, s.bus) = ground (arith, same, failed) in
            let b_is : b ≡ s.bus = ap (λ x. x.1) (sym e ∙ is) in rw b_is h
        | inr won ↦
            let on = add64 pos 1 in
            let is : claim_round s.bus p spurious
                ≡ (claimed pos, record s.bus { enqueue_pos = on }) =
              ground (arith, same, won) in
            let b_is : b ≡ record s.bus { enqueue_pos = on } = ap (λ x. x.1) (sym e ∙ is) in
            let on_is : on ≡ pos + 1 = omega (arith, h.bounded) in
            let free = claimed_room s p h prod (ground (arith, same)) in
            rw b_is (record {
              pow2 = h.pow2;
              large = h.large;
              small = h.small;
              masked = h.masked;
              same_capacity = h.same_capacity;
              bounded = omega (arith, ap (λ x. x.enqueue_pos) b_is, below);
              ordered = omega (arith, on_is, h.ordered);
              room = omega (arith, on_is, free);
              ahead = λ k le. h.ahead k (omega (arith, on_is));
              cells = λ k low high.
                  Cell-later pos on k (s.offers k) (s.bus.slots (k % s.bus.capacity))
                    (omega (arith, on_is)) (h.cells k low high);
              counted = h.counted;
              told = h.told;
            })
      ]
    ]
