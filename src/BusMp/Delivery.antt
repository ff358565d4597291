-- ===== src/BusMp/Delivery.antt =====
-- src/om_bus_mp.c: what the bus promises to its producers and its consumer.
use veloxmatch.Base.{
  ℕ, ◌+◌, ◌-◌, ◌%◌, ◌^◌, ◌≤◌, ◌<◌, ◌≡◌, refl, ap, sym, ◌∙◌, true, false, ◌⊎◌, inl, inr, Option,
  none, some, get_elem?-length, arith, dec_lt, bit_and, Bool-cases, Option-cases, leb, ltb,
  set_below_lt, ltb→lt, le→leb, ◌==◌, add64, sub64, uint64_max,
}
use native.Mathlib.Nat.{mod-eq_of_lt}
use veloxmatch.Base.Bits.{is_power_of_two, is_power_of_two-IsPow2}
use veloxmatch.Base.Result.{Result, ok, err, value_or}
use veloxmatch.BusMp.{
  Bus, BusError, Config, Producer, Claim, claimed, ring_full, claim_round, count_full, claim,
  claim_at, commit, validate_config, bus_size, init, fresh, zeroed, chosen_timeout,
}
use veloxmatch.BusMp.Consumer.{Consumer, consumer_open}
use veloxmatch.BusMp.Steps.{
  System, start, Step, claims, writes, commits, polls, Reach, here, next, IsProducer,
}
use veloxmatch.BusMp.Window.{Holds, window_slot, mod-window}
use veloxmatch.BusMp.Claiming.{claims-Holds, claimed_room, claim_full}
use veloxmatch.BusMp.Producing.{writes-Holds, commits-Holds, committed_slot}
use veloxmatch.BusMp.Consuming.{polls-Holds}

Step-Holds : {s t : System} → Step s t → Holds s → Holds t
Step-Holds (claims s p spurious round b prod e below) h =
    claims-Holds s p spurious round b h prod e below
Step-Holds (writes s p pos payload prod below in_time unwritten) h =
    writes-Holds s p pos payload h prod below in_time unwritten
Step-Holds (commits s p pos payload_len error b prod below offered e) h =
    commits-Holds s p pos payload_len error b h prod below offered e
Step-Holds (polls s room now result b c e) h = rw e at (polls-Holds s room now h)

pub Reach-Holds : {s t : System} → Holds s → Reach s t → Holds t
Reach-Holds h here = h
Reach-Holds h (next before step) = Step-Holds step (Reach-Holds h before)

-- A bus that `om_bus_mp_init` has accepted, with its consumer.
pub record IsOpened (config : Config) (b : Bus) (c : Consumer) : Type 0 where
  pub bus : (memory_size : ℕ) × (init true memory_size config ≡ ok b)
  pub consumer : consumer_open true b ≡ ok c
  pub small : config.capacity < 2 ^ 32
  pub large : 2 ≤ config.capacity

opened_bus :
    (config : Config) (memory_size : ℕ) (b : Bus)
    → init true memory_size config ≡ ok b
    → (b ≡ fresh config) × (is_power_of_two config.capacity ≡ true)
unfolding init validate_config
opened_bus config memory_size b e = elim (Bool-cases (is_power_of_two config.capacity)) [
  | inr odd ↦ absurd (ground (arith, e, odd))
  | inl even ↦ elim (Option-cases (validate_config config)) [
    | inr (error, bad) ↦ absurd (ground (arith, e, bad))
    | inl good ↦ elim (Bool-cases (ltb memory_size (bus_size config))) [
      | inl short ↦ absurd (ground (arith, e, good, short))
      | inr fits ↦
          let is : init true memory_size config ≡ ok (fresh config) = ground (arith, good, fits) in
          let same : ok b ≡ ok (fresh config) = sym e ∙ is in (cc, even)
    ]
  ]
]

opened_consumer :
    (config : Config) (c : Consumer)
    → consumer_open true (fresh config) ≡ ok c
    → (c.mask ≡ config.capacity - 1) × (c.capacity ≡ config.capacity)
unfolding consumer_open
opened_consumer config c e =
    let made : Consumer = record {
      capacity = config.capacity;
      mask = config.capacity - 1;
      slot_size = config.slot_size;
      skip_timeout_ns = chosen_timeout config;
      blocked_sequence = uint64_max;
      blocked_since_ns = 0;
    } in
    let is : made ≡ c = ap (value_or made) e in
    (ap (λ x. x.mask) (sym is), ap (λ x. x.capacity) (sym is))

-- The loop of `om_bus_mp_init` gives the slot of a position in the first lap its number.
numbered :
    (config : Config) (k : ℕ)
    → k < config.capacity
    → ((fresh config).slots (k % config.capacity)).seq ≡ k
numbered config k lt = rw (mod-eq_of_lt lt) (
    ap (λ x. x.seq)
      (set_below_lt config.capacity (λ i. record zeroed { seq = i }) (λ i. zeroed) k lt))

start-Holds : (config : Config) (b : Bus) (c : Consumer) → IsOpened config b c → Holds (start b c)
start-Holds config b c v =
    let (memory_size, opened) = v.bus in
    let (b_is, even) = opened_bus config memory_size b opened in
    let (mask, capacity) = opened_consumer config c (rw b_is at v.consumer) in
    rw b_is (record {
      pow2 = is_power_of_two-IsPow2 config.capacity even;
      large = v.large;
      small = v.small;
      masked = mask;
      same_capacity = capacity;
      bounded = omega arith;
      ordered = omega arith;
      room = omega arith;
      ahead = λ k le. refl;
      cells = λ k low high. record {
        state = inl (numbered config k (omega (arith, high)));
        holding = refl;
      };
      counted = refl;
      told = λ k q x at.
          absurd (omega (arith, get_elem?-length (start (fresh config) c).outcomes k (q, x) at));
    })

-- After any such steps the positions that are claimed and not taken out are at most as many as the
-- ring has slots, and two of them that share a slot are one: no two claimants own one slot.
pub claimed_apart :
    (config : Config) (b : Bus) (c : Consumer) (s : System) (i j : ℕ)
    → IsOpened config b c
    → Reach (start b c) s
    → s.bus.dequeue_pos ≤ i
    → i < s.bus.enqueue_pos
    → s.bus.dequeue_pos ≤ j
    → j < s.bus.enqueue_pos
    → i % s.bus.capacity ≡ j % s.bus.capacity
    → (s.bus.enqueue_pos ≤ s.bus.dequeue_pos + s.bus.capacity) × (i ≡ j)
claimed_apart config b c s i j v steps i_low i_high j_low j_high same =
    let h = Reach-Holds (start-Holds config b c v) steps in
    let n = s.bus.capacity in
    (
      h.room,
      elim (dec_lt i j) [
        | yes lt ↦ mod-window n i j (omega arith) (omega (arith, h.room)) same
        | no ge ↦ sym (mod-window n j i (omega arith) (omega (arith, h.room)) (sym same))
      ],
    )

-- A commit that comes after its position was passed over fails with OM_BUS_MP_ERR_SLOT_POISONED,
-- and changes no slot and no position.
pub commit_late :
    (config : Config) (b : Bus) (c : Consumer) (s : System) (p : Producer) (pos payload_len : ℕ)
    → IsOpened config b c
    → Reach (start b c) s
    → IsProducer s.bus p
    → pos < s.bus.dequeue_pos
    → let (error, after) = commit s.bus p (claim_at p pos payload_len) in
      (error ≡ some BusError.slot_poisoned)
      × (after.slots ≡ s.bus.slots)
      × (after.enqueue_pos ≡ s.bus.enqueue_pos)
      × (after.dequeue_pos ≡ s.bus.dequeue_pos)
unfolding commit
commit_late config b c s p pos payload_len v steps prod late =
    let h = Reach-Holds (start-Holds config b c v) steps in
    let i = bit_and pos p.mask in
    elim (Bool-cases ((s.bus.slots i).seq == pos)) [
      | inl open_slot ↦
          absurd (omega (arith, late, committed_slot s p pos h prod (ground (arith, open_slot))))
      | inr gone ↦ rw gone (refl, refl, refl, refl)
    ]

claim_round_free :
    (b : Bus) (p : Producer)
    → (sub64 (b.slots (bit_and b.enqueue_pos p.mask)).seq b.enqueue_pos == 0) ≡ true
    → claim_round b p false
      ≡ (claimed b.enqueue_pos, record b { enqueue_pos = add64 b.enqueue_pos 1 })
unfolding claim_round
claim_round_free b p same = rw same refl

claim_round_over :
    (b : Bus) (p : Producer)
    → let diff = sub64 (b.slots (bit_and b.enqueue_pos p.mask)).seq b.enqueue_pos in
      (diff == 0) ≡ false
      → leb (2 ^ 63) diff ≡ true
      → claim_round b p false ≡ (ring_full, count_full b p.producer_id)
unfolding claim_round
claim_round_over b p other over = rw (other, over) refl

-- What a claim may find.
abbrev pub Claims : System → Producer → ℕ → Option (Result BusError Claim) × Bus → Type 0
Claims s p payload_len (none, b) = ⊥
Claims s p payload_len (some (err e), b) =
    ((e ≡ BusError.record_too_large) × (p.max_payload < payload_len) × (b ≡ s.bus))
    ⊎ ((e ≡ BusError.full)
        × (s.bus.enqueue_pos ≡ s.bus.dequeue_pos + s.bus.capacity)
        × (b ≡ count_full s.bus p.producer_id))
Claims s p payload_len (some (ok c), b) =
    (c.sequence ≡ s.bus.enqueue_pos)
    × (c.slot ≡ s.bus.enqueue_pos % s.bus.capacity)
    × (s.bus.enqueue_pos < s.bus.dequeue_pos + s.bus.capacity)
    × (b.enqueue_pos ≡ s.bus.enqueue_pos + 1)

-- After any such steps a claim without interference answers: a payload that is too long is refused,
-- a ring whose slots are all claimed is full, which changes only counts, and otherwise the next
-- position is claimed, with the slot that it has in the ring. It never tries for ever.
pub claim-Claims :
    (config : Config) (b : Bus) (c : Consumer) (s : System) (p : Producer) (payload_len : ℕ)
    → IsOpened config b c
    → Reach (start b c) s
    → IsProducer s.bus p
    → Claims s p payload_len (claim s.bus p payload_len)
unfolding claim
claim-Claims config b c s p payload_len v steps prod =
    let h = Reach-Holds (start-Holds config b c v) steps in
    let n = s.bus.capacity in
    let pos = s.bus.enqueue_pos in
    let i = bit_and pos p.mask in
    let diff = sub64 (s.bus.slots i).seq pos in
    let i_is : i ≡ pos % n = window_slot s p pos h prod.masked in
    let on_is : add64 pos 1 ≡ pos + 1 = omega (arith, h.bounded) in
    elim (Bool-cases (ltb p.max_payload payload_len)) [
      | inl large ↦ rw large (inl (refl, ltb→lt p.max_payload payload_len large, refl))
      | inr fits ↦ elim (Bool-cases (diff == 0)) [
        | inl same ↦
            let free = claimed_room s p h prod (ground (arith, same)) in
            let round = claim_round_free s.bus p same in
            rw (fits, round) (refl, i_is, free, ap (λ x. x.1.enqueue_pos) round ∙ on_is)
        | inr other ↦
            let (full, behind) = claim_full s p h prod (λ e. ground (arith, e, other)) in
            let over : leb (2 ^ 63) diff ≡ true = le→leb (2 ^ 63) diff behind in
            let round = claim_round_over s.bus p other over in
            rw (fits, round) (inr (refl, full, ap (λ x. x.1) round))
      ]
    ]
