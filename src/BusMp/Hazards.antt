-- ===== src/BusMp/Hazards.antt =====
-- src/om_bus_mp.c: what the code does not guard against.
use veloxmatch.Base.{
  ℕ, ◌+◌, ◌^◌, ◌<◌, ◌≡◌, refl, true, false, none, arith, bit_and, update_self, ◌==◌, ==_refl, add64,
  sub64,
}
use veloxmatch.Base.Bits.{and-zero}
use veloxmatch.BusMp.{Bus, Slot, Producer, claimed, claim_round, describe}
use veloxmatch.BusMp.Consumer.{Consumer, Record, delivered, record_of, poll_impl}

-- A bus of one slot accepts the next claim while its record is committed and not read: the number
-- that marks a committed record is the one that marks the slot as free for the next position.
pub capacity_one :
    (b : Bus) (p : Producer)
    → p.mask ≡ 0
    → b.enqueue_pos ≡ b.dequeue_pos + 1
    → (b.slots 0).seq ≡ b.dequeue_pos + 1
    → b.enqueue_pos < 2 ^ 62
    → claim_round b p false
      ≡ (claimed b.enqueue_pos, record b { enqueue_pos = add64 b.enqueue_pos 1 })
unfolding claim_round
capacity_one b p masked one_out committed small =
    let i_is : bit_and b.enqueue_pos p.mask ≡ 0 = rw masked (and-zero b.enqueue_pos) in
    let diff_is : sub64 (b.slots 0).seq b.enqueue_pos ≡ 0 =
      omega (arith, one_out, committed, small) in
    rw (i_is, diff_is) refl

-- A claimant that writes its header after its position was passed over, when the next claimant of
-- the slot has committed already, changes what the consumer is told: the record that is delivered
-- for position `pos + capacity` has the number and the producer of the position passed over.
pub describe_late :
    (b : Bus) (p : Producer) (c : Consumer) (pos payload_len now : ℕ)
    → bit_and b.dequeue_pos c.mask ≡ bit_and pos p.mask
    → (b.slots (bit_and pos p.mask)).seq ≡ add64 b.dequeue_pos 1
    → (r : Record) × ((poll_impl (describe b p pos payload_len) c none now).0 ≡ delivered r)
      × (r.sequence ≡ pos)
      × (r.producer_id ≡ p.producer_id)
      × (r.payload_len ≡ payload_len)
unfolding poll_impl
describe_late b p c pos payload_len now same committed =
    let i = bit_and pos p.mask in
    let slot : Slot = record (b.slots i) {
      sequence = pos;
      producer_id = p.producer_id;
      payload_len = payload_len;
    } in
    let here : (describe b p pos payload_len).slots (bit_and b.dequeue_pos c.mask) ≡ slot =
      rw same (update_self b.slots i slot) in
    let is : (slot.seq == add64 b.dequeue_pos 1) ≡ true =
      rw committed (==_refl (add64 b.dequeue_pos 1)) in
    (record_of c none slot, rw (here, is) refl, refl, refl, refl)
