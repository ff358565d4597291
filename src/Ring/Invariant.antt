-- ===== src/Ring/Invariant.antt =====
-- What holds of the ring of src/om_worker.c after any steps of its threads.
use veloxmatch.Base.{
  ℕ, zero, suc, ◌+◌, ◌-◌, ◌%◌, ◌≤◌, ◌<◌, ◌≡◌, refl, ◌∙◌, Bool, none, some, List, [], ◌∷◌, ◌++◌,
  arith, ltb, ◌==◌, ◌&&◌, add64, dec_lt, ℕ_discrete, if◌then◌else◌, length, length-append, take,
  get_elem?, get_elem?-append_length, get_elem?-append_left, subst, take-suc, min, update, u64_mod,
  append-nil, append_assoc, Array, ◌||◌, inl, inr, Bool-cases, ◌⊎◌, lt→ltb, le→ltb-false,
}
use veloxmatch.Base.Bits.{IsPow2, and-mask}
use veloxmatch.Ring.{
  Ring, refresh_min_tail_on_consume, room_round, ring_min_tail, slot_index, publish_round,
  batch_loop,
}
use native.Mathlib.Nat.{mod-eq_of_lt, mod_self}

-- The `seq` of slot `k` when `head` records are out.
abbrev pub seq_at : ℕ → ℕ → ℕ
seq_at head k = if ltb k head then k + 1 else k

-- The ring against the log of what was published. The last field is the one that no comment of the
-- source leads to expect: the head does not pass the capacity.
pub record Holds (r : Ring) (log : List ℕ) : Type 0 where
  pub pow2 : IsPow2 r.capacity
  pub large : 2 ≤ r.capacity
  pub small : r.capacity + 1 < u64_mod
  pub masked : r.mask ≡ r.capacity - 1
  pub counted : r.head ≡ length log
  pub seqs : (k : ℕ) → k < r.capacity → (r.slots k).seq ≡ seq_at r.head k
  pub ptrs : (k : ℕ) → k < r.head → get_elem? log k ≡ some (r.slots k).ptr
  pub tails : (c : ℕ) → r.consumer_tails c ≤ r.head
  pub first_lap : r.head ≤ r.capacity

slot_index_lem :
    {r : Ring} {log : List ℕ} (pos : ℕ) → Holds r log → slot_index r pos ≡ pos % r.capacity
unfolding slot_index
slot_index_lem pos h = rw h.masked (and-mask pos h.pow2)

-- A position in the first lap is its own index, and the end of the lap is index 0.
pub slot_index_first :
    {r : Ring} {log : List ℕ} (pos : ℕ) → Holds r log → pos < r.capacity → slot_index r pos ≡ pos
slot_index_first pos h lt = slot_index_lem pos h ∙ mod-eq_of_lt lt

slot_index_end :
    {r : Ring} {log : List ℕ} (pos : ℕ) → Holds r log → pos ≡ r.capacity → slot_index r pos ≡ 0
slot_index_end {r} pos h e = slot_index_lem pos h ∙ rw e (mod_self r.capacity)

-- The ring after `p` has gone into the slot of the head, in the first lap.
abbrev published : Ring → ℕ → Ring
published r p = record r {
  slots = update r.slots r.head (record { seq = r.head + 1; ptr = p });
  head = r.head + 1;
}

publish_first :
    {r : Ring} {log : List ℕ} (p : ℕ)
    → Holds r log
    → r.head < r.capacity
    → publish_round r p
      ≡ some (published r p, ltb 0 r.notify_batch && ((r.head + 1) % r.notify_batch == 0))
unfolding publish_round
publish_first {r} p h lt =
    let wraps : add64 r.head 1 ≡ r.head + 1 = omega (arith, h.small) in
    rw (slot_index_first r.head h lt, wraps, h.seqs r.head lt) (ground arith)

published-Holds :
    {r : Ring} {log : List ℕ} (p : ℕ)
    → Holds r log
    → r.head < r.capacity
    → Holds (published r p) (log ++ (p ∷ []))
published-Holds {r} {log} p h lt = record {
  pow2 = h.pow2;
  large = h.large;
  small = h.small;
  masked = h.masked;
  counted = omega (arith, h.counted, length-append log (p ∷ []));
  seqs = λ k below. ground (arith, h.seqs k below);
  ptrs = λ k below. ptr_at k below;
  tails = λ c. omega (arith, h.tails c);
  first_lap = omega arith;
}
  where
    ptr_at :
        (k : ℕ)
        → k < r.head + 1
        → get_elem? (log ++ (p ∷ [])) k ≡ some ((published r p).slots k).ptr
    ptr_at k below = elim (ℕ_discrete r.head k) [
      | yes e ↦ ground (arith, get_elem?-append_length log [] p, h.counted)
      | no ne ↦ ground (arith, get_elem?-append_left log (p ∷ []) k, h.ptrs k)
    ]

-- Once the ring has been filled, the producer finds its next slot taken for ever.
pub publish_full :
    {r : Ring} {log : List ℕ} (p : ℕ) → Holds r log → r.head ≡ r.capacity → publish_round r p ≡ none
unfolding publish_round
publish_full {r} p h full =
    rw (slot_index_end r.head h full, h.seqs 0 (omega (arith, h.large))) (ground (arith, h.large))

pub publish-Holds :
    {r r' : Ring} {log : List ℕ} {woken : Bool} (p : ℕ)
    → Holds r log
    → publish_round r p ≡ some (r', woken)
    → Holds r' (log ++ (p ∷ []))
publish-Holds {r} {log} p h e = elim (dec_lt r.head r.capacity) [
  | yes lt ↦
      subst (λ q. Holds q (log ++ (p ∷ []))) (ground (arith, publish_first p h lt))
        (published-Holds p h lt)
  | no ge ↦ let stuck = publish_full p h (omega (arith, h.first_lap)) in cc
]

pub publish_round-tails :
    (r : Ring) (p : ℕ) {r' : Ring} {woken : Bool}
    → publish_round r p ≡ some (r', woken)
    → r'.consumer_tails ≡ r.consumer_tails
unfolding publish_round
publish_round-tails r p e = ground arith

-- The consumers' calls touch the tails and the cached minimum alone.
retail-Holds :
    {r : Ring} {log : List ℕ} (tails : Array ℕ) (least : ℕ)
    → Holds r log
    → ((c : ℕ) → tails c ≤ r.head)
    → Holds (record r { min_tail = least; consumer_tails = tails }) log
retail-Holds tails least h bound = record {
  pow2 = h.pow2;
  large = h.large;
  small = h.small;
  masked = h.masked;
  counted = h.counted;
  seqs = h.seqs;
  ptrs = h.ptrs;
  tails = bound;
  first_lap = h.first_lap;
}

pub retail_one-Holds :
    {r : Ring} {log : List ℕ} (c t : ℕ)
    → Holds r log
    → t ≤ r.head
    → Holds (record r { consumer_tails = update r.consumer_tails c t }) log
retail_one-Holds {r} c t h le = retail-Holds _ r.min_tail h (λ d. ground (arith, h.tails d))

pub refresh-Holds :
    {r : Ring} {log : List ℕ} (prev new : ℕ)
    → Holds r log
    → Holds (refresh_min_tail_on_consume r prev new) log
unfolding refresh_min_tail_on_consume
refresh-Holds {r} prev new h = elim (Bool-cases ((prev == r.min_tail) || ltb new r.min_tail)) [
  | inl e ↦ rw e (retail-Holds r.consumer_tails _ h h.tails)
  | inr e ↦ rw e h
]

pub consumer_tails-refresh :
    (r : Ring) (prev new : ℕ)
    → (refresh_min_tail_on_consume r prev new).consumer_tails ≡ r.consumer_tails
unfolding refresh_min_tail_on_consume
consumer_tails-refresh r prev new = ground arith

room_round-cases :
    (r : Ring) (spins : ℕ)
    → ((room_round r spins).1 ≡ r)
      ⊎ ((room_round r spins).1 ≡ record r { min_tail = ring_min_tail r })
unfolding room_round
room_round-cases r spins = ground arith

pub room_round-Holds :
    {r : Ring} {log : List ℕ} (spins : ℕ)
    → Holds r log
    → let r' = (room_round r spins).1 in Holds r' log × (r'.consumer_tails ≡ r.consumer_tails)
room_round-Holds {r} spins h = elim (room_round-cases r spins) [
  | inl e ↦ rw e (h, refl)
  | inr e ↦ rw e (retail-Holds r.consumer_tails _ h h.tails, refl)
]

-- A record is ready at a tail exactly when the tail is behind the head.
pub ready_iff :
    {r : Ring} {log : List ℕ} (t : ℕ)
    → Holds r log
    → t ≤ r.head
    → ((r.slots (slot_index r t)).seq == add64 t 1) ≡ ltb t r.head
ready_iff {r} t h le =
    let wraps : add64 t 1 ≡ t + 1 = omega (arith, h.small, h.first_lap) in
    elim (dec_lt t r.capacity) [
      | yes lt ↦ rw (wraps, slot_index_first t h lt, h.seqs t lt) (ground arith)
      | no ge ↦
          rw
            (
              wraps,
              slot_index_end t h (omega (arith, h.first_lap)),
              h.seqs 0 (omega (arith, h.large)),
            )
            (ground (arith, h.large, h.first_lap))
    ]

-- What `n` rounds of the batch loop bring: the records from the tail on, as many as there are.
pub batch_loop_lem :
    (n : ℕ) {r : Ring} {log : List ℕ} (t : ℕ)
    → Holds r log
    → t ≤ r.head
    → let (ps, last) = batch_loop n r t in
      (last ≤ r.head) × (length ps ≡ min n (r.head - t)) × (take t log ++ ps ≡ take last log)
unfolding batch_loop
batch_loop_lem zero t h le = (le, omega arith, append-nil _)
batch_loop_lem (suc n) {r} {log} t h le = rw (ready_iff t h le) (elim (dec_lt t r.head) [
  | yes lt ↦
      let wraps : add64 t 1 ≡ t + 1 = omega (arith, h.small, h.first_lap) in
      let (below, count, joined) = batch_loop_lem n (t + 1) h (omega arith) in
      rw (lt→ltb t r.head lt, slot_index_first t h (omega (arith, h.first_lap)), wraps)
        (
          below,
          omega (arith, count),
          ground (
            arith,
            joined,
            take-suc t log _ (h.ptrs t lt),
            append_assoc (take t log) ((r.slots t).ptr ∷ []) (batch_loop n r (t + 1)).0,
          ),
        )
  | no ge ↦ rw (le→ltb-false t r.head (omega arith)) (le, omega arith, append-nil _)
])
