-- ===== src/BusMp/Consuming.antt =====
-- src/om_bus_mp.c: the calls of the consumer keep what holds of the bus.
use veloxmatch.Base.{
  ℕ, ◌+◌, ◌-◌, ◌%◌, ◌≤◌, ◌<◌, ◌≡◌, ◌≢◌, refl, ap, sym, subst, dec_lt, ◌∙◌, ◌&&◌, inl, inr, Option,
  none, some, [], ◌∷◌, ◌++◌, append-nil, length-append, get_elem?-snoc, arith, update, update_self,
  update_ne, bit_and, ℕ-cases, Bool-cases, leb, ltb, ◌==◌, add64, sub64,
}
use native.Mathlib.Nat.{add-mod_right}
use veloxmatch.Base.Bits.{and-mask}
use veloxmatch.BusMp.{Bus, Slot, slot_header_size}
use veloxmatch.BusMp.Consumer.{
  Consumer, Poll, delivered, skipped, record_of, release, unblocked, skip_record, poll_blocked,
  poll_impl,
}
use veloxmatch.BusMp.Steps.{System, Offer, outcome}
use veloxmatch.BusMp.Window.{Holds, Cell, Holding, Told, mod-window}

consumer_slot :
    (s : System) (pos : ℕ) → Holds s → bit_and pos s.consumer.mask ≡ pos % s.bus.capacity
consumer_slot s pos h = rw h.masked (and-mask pos h.pow2)

-- The next position is taken out with an outcome that tells the truth about it.
released-Holds :
    (s : System) (room : Option ℕ) (x : Poll) (count : ℕ)
    → Holds s
    → s.bus.dequeue_pos < s.bus.enqueue_pos
    → Told s.consumer.slot_size (s.offers s.bus.dequeue_pos) s.bus.dequeue_pos room x
    → Holds (record s {
      bus = record (release s.bus s.consumer s.bus.dequeue_pos) { skipped_sequences = count };
      consumer = unblocked s.consumer;
      outcomes = s.outcomes ++ ((room, x) ∷ []);
    })
released-Holds s room x count h some_left told =
    let n = s.bus.capacity in
    let deq = s.bus.dequeue_pos in
    let i_is : bit_and deq s.consumer.mask ≡ deq % n = consumer_slot s deq h in
    let on_is : add64 deq 1 ≡ deq + 1 = omega (arith, h.bounded) in
    let free_is : add64 deq s.consumer.capacity ≡ deq + n =
      omega (arith, h.bounded, h.same_capacity, h.small) in
    let v = record (s.bus.slots (deq % n)) { seq = add64 deq s.consumer.capacity } in
    let cells : (k : ℕ)
        → deq + 1 ≤ k
        → k < deq + 1 + n
        → Cell s.bus.enqueue_pos (s.offers k) k (update s.bus.slots (deq % n) v (k % n)) =
      λ k low high. elim (ℕ-cases k (deq + n)) [
        | inl e ↦
            let wrapped : k % n ≡ deq % n = ap (λ j. j % n) e ∙ add-mod_right deq n in
            let nothing_yet : s.offers k ≡ none = h.ahead k (omega (arith, e, h.room)) in
            rw (wrapped, nothing_yet, update_self s.bus.slots (deq % n) v)
              (record { state = inl (free_is ∙ sym e); holding = refl })
        | inr ne ↦
            let apart : deq % n ≢ k % n =
              λ e. omega (arith, mod-window n deq k (omega arith) (omega (arith, ne)) e, low) in
            rw (update_ne s.bus.slots v apart) (h.cells k (omega arith) (omega (arith, ne)))
      ] in
    record {
      pow2 = h.pow2;
      large = h.large;
      small = h.small;
      masked = h.masked;
      same_capacity = h.same_capacity;
      bounded = h.bounded;
      ordered = omega (arith, on_is, some_left);
      room = omega (arith, on_is, h.room);
      ahead = h.ahead;
      cells =
          λ k low high. rw i_is (cells k (omega (arith, on_is, low)) (omega (arith, on_is, high)));
      counted = omega (arith, length-append s.outcomes ((room, x) ∷ []), h.counted, on_is);
      told = λ k q y at. elim (get_elem?-snoc s.outcomes (room, x) k (q, y) at) [
        | inl old ↦ h.told k q y old
        | inr (here, is) ↦
            let k_is : k ≡ deq = here ∙ h.counted in
            subst (λ z. Told s.consumer.slot_size (s.offers k) k z.0 z.1) (sym is) (rw k_is told)
      ];
    }

-- A consumer that has only noted how long it waits
waiting-Holds :
    (s : System) (c : Consumer)
    → Holds s
    → c.mask ≡ s.consumer.mask
    → c.capacity ≡ s.consumer.capacity
    → c.slot_size ≡ s.consumer.slot_size
    → Holds (record s { consumer = c; outcomes = s.outcomes ++ [] })
waiting-Holds s c h mask capacity size = rw (append-nil s.outcomes) (record {
  pow2 = h.pow2;
  large = h.large;
  small = h.small;
  masked = mask ∙ h.masked;
  same_capacity = capacity ∙ h.same_capacity;
  bounded = h.bounded;
  ordered = h.ordered;
  room = h.room;
  ahead = h.ahead;
  cells = h.cells;
  counted = h.counted;
  told = λ k q y at. rw size (h.told k q y at);
})

-- A system after a call of the consumer.
abbrev polled : System → Option ℕ → Poll × Bus × Consumer → System
polled s room (x, b, c) = record s {
  bus = b;
  consumer = c;
  outcomes = s.outcomes ++ outcome room x;
}

Told-skipped :
    (size : ℕ) (offer : Option Offer) (pos : ℕ) (room : Option ℕ)
    → Told size offer pos room (skipped (skip_record pos))
Told-skipped size none pos room = (refl, refl)
Told-skipped size (some o) pos room = (refl, refl)

blocked-Holds :
    (s : System) (room : Option ℕ) (now : ℕ)
    → Holds s
    → Holds (polled s room (poll_blocked s.bus s.consumer now))
unfolding poll_blocked
blocked-Holds s room now h =
    let b = s.bus in
    let c = s.consumer in
    let pos = b.dequeue_pos in
    elim (Bool-cases (leb b.enqueue_pos pos)) [
      | inl none_left ↦ rw none_left (waiting-Holds s c h refl refl refl)
      | inr some_left ↦ elim (Bool-cases (c.blocked_sequence == pos)) [
        | inr first ↦
            rw (some_left, first)
              (waiting-Holds s (record c { blocked_sequence = pos; blocked_since_ns = now }) h refl
                refl refl)
        | inl again ↦ elim (Bool-cases (ltb (sub64 now c.blocked_since_ns) c.skip_timeout_ns)) [
          | inl early ↦ rw (some_left, again, early) (waiting-Holds s c h refl refl refl)
          | inr late ↦
              rw (some_left, again, late)
                (released-Holds s room (skipped (skip_record pos)) (add64 b.skipped_sequences 1) h
                  (ground (arith, some_left)) (Told-skipped c.slot_size (s.offers pos) pos room))
        ]
      ]
    ]

-- A record that is delivered is what the claimant wrote.
delivered-Told :
    (offer : Option Offer) (pos : ℕ) (slot : Slot) (c : Consumer) (room : Option ℕ)
    → Holding offer pos slot
    → offer ≢ none
    → Told c.slot_size offer pos room (delivered (record_of c room slot))
delivered-Told none pos slot c room h some_offer = absurd (some_offer refl)
delivered-Told (some o) pos slot c none (seq, id, len, payload) some_offer =
    (seq, id, len, ap some payload)
delivered-Told (some o) pos slot c (some capacity) (seq, id, len, payload) some_offer =
    elim (Bool-cases
      (leb slot.payload_len capacity && leb slot.payload_len (c.slot_size - slot_header_size))) [
        | inl fits ↦
            (seq, id, len, rw fits (payload, ground (arith, fits, len), ground (arith, fits, len)))
        | inr large ↦ (
          seq,
          id,
          len,
          rw large (elim (dec_lt capacity slot.payload_len) [
            | yes short ↦ inl (omega (arith, short, len))
            | no fits ↦ inr (ground (arith, large, fits, len))
          ]),
        )
      ]

pub polls-Holds :
    (s : System) (room : Option ℕ) (now : ℕ)
    → Holds s
    → Holds (polled s room (poll_impl s.bus s.consumer room now))
unfolding poll_impl
polls-Holds s room now h =
    let b = s.bus in
    let c = s.consumer in
    let n = b.capacity in
    let pos = b.dequeue_pos in
    let i = bit_and pos c.mask in
    let slot = b.slots i in
    let on_is : add64 pos 1 ≡ pos + 1 = omega (arith, h.bounded, h.ordered) in
    let slot_is : slot ≡ b.slots (pos % n) = ap b.slots (consumer_slot s pos h) in
    let cell : Cell b.enqueue_pos (s.offers pos) pos slot =
      rw slot_is (h.cells pos (omega arith) (omega (arith, h.large))) in
    elim (Bool-cases (slot.seq == add64 pos 1)) [
      | inl committed ↦
          let seq_is : slot.seq ≡ add64 pos 1 = ground (arith, committed) in
          rw committed (elim cell.state [
            | inl free ↦ absurd (omega (arith, free, seq_is, on_is))
            | inr (taken, below, offered) ↦
                released-Holds s room (delivered (record_of c room slot)) b.skipped_sequences h
                  below (delivered-Told (s.offers pos) pos slot c room cell.holding offered)
          ])
      | inr other ↦ elim (Bool-cases (slot.seq == pos)) [
        | inl open_slot ↦ rw (other, open_slot) (blocked-Holds s room now h)
        | inr stale ↦ rw (other, stale) (waiting-Holds s c h refl refl refl)
      ]
    ]
