-- ===== src/BusMp/Window.antt =====
-- src/om_bus_mp.c: the window of positions that the slots of the bus stand for.
use veloxmatch.Base.{
  ℕ, ◌+◌, ◌-◌, ◌%◌, ◌^◌, ◌≤◌, ◌<◌, ◌≡◌, ◌≢◌, ap, sym, ◌∙◌, ◌⊎◌, inl, inr, Option, none, some, List,
  length, get_elem?, arith, dec_lt, Array, update, update_self, update_ne, bit_and, ℕ-cases,
}
use veloxmatch.Base.Bits.{IsPow2, and-mask}
use veloxmatch.BusMp.{Slot, Producer, slot_header_size}
use veloxmatch.BusMp.Consumer.{Poll, delivered, skipped, empty}
use veloxmatch.BusMp.Steps.{System, Offer}
use native.Mathlib.Nat.{mod-lt, mod-eq_of_lt, mod-add-mod, mod-eq-sub-mod, add-mod_left}

-- Positions of one window that share a slot are one position.
pub mod-window : (n a b : ℕ) → a ≤ b → b < a + n → a % n ≡ b % n → a ≡ b
mod-window n a b le near same =
    let d = b - a in
    let pos : 0 < n = omega arith in
    let r = a % n in
    let below : r < n = mod-lt a pos in
    let b_is : b % n ≡ (r + d) % n = ap (λ k. k % n) (omega arith) ∙ sym (mod-add-mod a n d) in
    elim (dec_lt (r + d) n) [
      | yes lt ↦ omega (arith, same, b_is, mod-eq_of_lt lt)
      | no over ↦
          let back : (r + d) % n ≡ (r + d - n) % n = mod-eq-sub-mod (omega arith) in
          let small : (r + d - n) % n ≡ r + d - n = mod-eq_of_lt (omega (arith, below)) in
          omega (arith, same, b_is, back, small)
    ]

-- Every slot stands for a position of the window.
pub window_hit : (n a i : ℕ) → i < n → (k : ℕ) × (a ≤ k) × (k < a + n) × (k % n ≡ i)
window_hit n a i lt =
    let r = a % n in
    let below : r < n = mod-lt a (omega arith) in
    elim (dec_lt i r) [
      | no le ↦
          let k_is : (a + (i - r)) % n ≡ (r + (i - r)) % n = sym (mod-add-mod a n (i - r)) in
          let sum : (r + (i - r)) % n ≡ i = ap (λ k. k % n) (omega arith) ∙ mod-eq_of_lt lt in
          (a + (i - r), omega arith, omega arith, k_is ∙ sum)
      | yes before ↦
          let d = n - r + i in
          let k_is : (a + d) % n ≡ (r + d) % n = sym (mod-add-mod a n d) in
          let wrapped : r + d ≡ n + i = omega arith in
          let sum : (r + d) % n ≡ i =
            ap (λ k. k % n) wrapped ∙ add-mod_left n i ∙ mod-eq_of_lt lt in
          (a + d, omega arith, omega arith, k_is ∙ sum)
    ]

-- The slot of a position holds what its claimant has written.
abbrev pub Holding : Option Offer → ℕ → Slot → Type 0
Holding none k slot = k ≡ k
Holding (some o) k slot =
    (slot.sequence ≡ k)
    × (slot.producer_id ≡ o.producer_id)
    × (slot.payload_len ≡ o.payload_len)
    × (slot.payload ≡ o.payload)

-- The slot of position `k` of the window: free or claimed, or committed after its claimant wrote.
pub record Cell (enqueue_pos : ℕ) (offer : Option Offer) (k : ℕ) (slot : Slot) : Type 0 where
  pub state : (slot.seq ≡ k) ⊎ ((slot.seq ≡ k + 1) × (k < enqueue_pos) × (offer ≢ none))
  pub holding : Holding offer k slot

-- The payload as a call hands it out: `om_bus_mp_poll` always does, and a copy into `capacity` bytes
-- exactly if the payload has room there and in a slot.
abbrev pub Handed : ℕ → Option ℕ → Offer → Option (List ℕ) → Type 0
Handed slot_size none o payload = payload ≡ some o.payload
Handed slot_size (some capacity) o (some copied) =
    (copied ≡ o.payload)
    × (o.payload_len ≤ capacity)
    × (o.payload_len ≤ slot_size - slot_header_size)
Handed slot_size (some capacity) o none =
    (capacity < o.payload_len) ⊎ (slot_size - slot_header_size < o.payload_len)

-- What the consumer was told for position `k`: its record, as its claimant wrote it, or that it was
-- passed over.
abbrev pub Told : ℕ → Option Offer → ℕ → Option ℕ → Poll → Type 0
Told slot_size offer k room empty = ⊥
Told slot_size none k room (delivered r) = ⊥
Told slot_size (some o) k room (delivered r) =
    (r.sequence ≡ k)
    × (r.producer_id ≡ o.producer_id)
    × (r.payload_len ≡ o.payload_len)
    × Handed slot_size room o r.payload
Told slot_size offer k room (skipped r) = (r.sequence ≡ k) × (r.payload ≡ none)

-- The bus and its consumer fit, the window of positions has the size of the ring, its slots stand
-- for its positions, and what was taken out is what was put in, position by position.
pub record Holds (s : System) : Type 0 where
  pub pow2 : IsPow2 s.bus.capacity
  pub large : 2 ≤ s.bus.capacity
  pub small : s.bus.capacity < 2 ^ 32
  pub masked : s.consumer.mask ≡ s.bus.capacity - 1
  pub same_capacity : s.consumer.capacity ≡ s.bus.capacity
  pub bounded : s.bus.enqueue_pos < 2 ^ 62
  pub ordered : s.bus.dequeue_pos ≤ s.bus.enqueue_pos
  pub room : s.bus.enqueue_pos ≤ s.bus.dequeue_pos + s.bus.capacity
  pub ahead : (k : ℕ) → s.bus.enqueue_pos ≤ k → s.offers k ≡ none
  pub cells :
      (k : ℕ)
      → s.bus.dequeue_pos ≤ k
      → k < s.bus.dequeue_pos + s.bus.capacity
      → Cell s.bus.enqueue_pos (s.offers k) k (s.bus.slots (k % s.bus.capacity))
  pub counted : length s.outcomes ≡ s.bus.dequeue_pos
  pub told :
      (k : ℕ) (room : Option ℕ) (x : Poll)
      → get_elem? s.outcomes k ≡ some (room, x)
      → Told s.consumer.slot_size (s.offers k) k room x

pub window_slot :
    (s : System) (p : Producer) (pos : ℕ)
    → Holds s
    → p.mask ≡ s.bus.capacity - 1
    → bit_and pos p.mask ≡ pos % s.bus.capacity
window_slot s p pos h masked = rw masked (and-mask pos h.pow2)

-- The cells of a window after a write into the slot of one of its positions.
pub cells_update :
    (n deq enq pos : ℕ) (slots : Array Slot) (offers after : Array (Option Offer)) (v : Slot)
    → deq ≤ pos
    → pos < deq + n
    → ((k : ℕ) → deq ≤ k → k < deq + n → Cell enq (offers k) k (slots (k % n)))
    → Cell enq (after pos) pos v
    → ((k : ℕ) → k ≢ pos → after k ≡ offers k)
    → (k : ℕ) → deq ≤ k
    → k < deq + n
    → Cell enq (after k) k (update slots (pos % n) v (k % n))
cells_update n deq enq pos slots offers after v low high cells cell same k k_low k_high =
    elim (ℕ-cases k pos) [
      | inl e ↦ rw (e, update_self slots (pos % n) v) cell
      | inr ne ↦
          let apart : pos % n ≢ k % n = λ e. elim (dec_lt k pos) [
            | yes lt ↦ ne (mod-window n k pos (omega arith) (omega arith) (sym e))
            | no ge ↦ ne (sym (mod-window n pos k (omega arith) (omega arith) e))
          ] in
          rw (same k ne, update_ne slots v apart) (cells k k_low k_high)
    ]
