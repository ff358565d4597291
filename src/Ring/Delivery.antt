-- ===== src/Ring/Delivery.antt =====
-- What the consumers of the ring of src/om_worker.c receive, and where the producer stops.
use veloxmatch.Base.{
  set_below_lt, ℕ, suc, ◌+◌, ◌≤◌, ◌<◌, ◌≡◌, ◌≢◌, refl, sym, ap, subst, Bool, true, Option, none,
  some, List, [], ◌∷◌, ◌++◌, append-nil, arith, length, take, take-append_left, ℕ_discrete, update,
  update_ne, update_self, Array, add64, inl, inr, Bool-cases, List-cases, ◌∙◌, ltb→lt, u64_mod, leb,
  ◌==◌, take-suc,
}
use veloxmatch.Base.Bits.{is_power_of_two-IsPow2}
use veloxmatch.Base.Result.{ok}
use veloxmatch.Ring.{
  Ring, Slot, Config, Grants, fresh, init, register_consumer, room_round, publish_round, dequeue,
  dequeue_batch, batch_loop, slot_index, refresh_min_tail_on_consume,
}
use veloxmatch.Ring.Invariant.{
  Holds, publish-Holds, publish_round-tails, room_round-Holds, batch_loop_lem, ready_iff,
  retail_one-Holds, refresh-Holds, consumer_tails-refresh, slot_index_first,
}
use veloxmatch.Ring.Steps.{
  System, Phase, Step, Reach, start, in_list, call, no_room, room, slot_taken, publish, register,
  take_batch, here, next,
}
use veloxmatch.Ring.Steps

-- The outcome of a consumer's call that brought `ps`: the next records of the log, in order.
record Took (r : Ring) (log : List ℕ) (c : ℕ) (ps : List ℕ) (r' : Ring) : Type 0 where
  holds : Holds r' log
  others : (d : ℕ) → d ≢ c → r'.consumer_tails d ≡ r.consumer_tails d
  brought : take (r.consumer_tails c) log ++ ps ≡ take (r'.consumer_tails c) log

Took-none : {r : Ring} {log : List ℕ} (c : ℕ) → Holds r log → Took r log c [] r
Took-none c h = record { holds = h; others = λ d ne. refl; brought = append-nil _ }

-- Moving the tail of `c` to `t`, and computing the minimum anew.
-- The ring after consumer `c` has moved its tail to `t`.
abbrev pub after_take : Ring → ℕ → ℕ → Ring
after_take r c t =
    refresh_min_tail_on_consume (record r { consumer_tails = update r.consumer_tails c t })
      (r.consumer_tails c) t

Took-some :
    {r : Ring} {log : List ℕ} (c t : ℕ) (ps : List ℕ)
    → Holds r log
    → t ≤ r.head
    → take (r.consumer_tails c) log ++ ps ≡ take t log
    → Took r log c ps (after_take r c t)
Took-some {r} c t ps h le e =
    let moved : Ring = record r { consumer_tails = update r.consumer_tails c t } in
    let tails = consumer_tails-refresh moved (r.consumer_tails c) t in
    record {
      holds = refresh-Holds (r.consumer_tails c) t (retail_one-Holds c t h le);
      others = λ d ne. rw tails (update_ne r.consumer_tails t (λ q. ne (sym q)));
      brought = rw (tails, update_self r.consumer_tails c t) e;
    }

Took-one :
    {r : Ring} {log : List ℕ} (c p : ℕ)
    → Holds r log
    → p ≡ (r.slots (slot_index r (r.consumer_tails c))).ptr
    → ((r.slots (slot_index r (r.consumer_tails c))).seq == add64 (r.consumer_tails c) 1) ≡ true
    → Took r log c (p ∷ []) (after_take r c (add64 (r.consumer_tails c) 1))
Took-one {r} {log} c p h e ready =
    let t = r.consumer_tails c in
    let lt : t < r.head = ltb→lt t r.head (sym (ready_iff t h (h.tails c)) ∙ ready) in
    let wraps : add64 t 1 ≡ suc t = omega (arith, h.small, h.first_lap) in
    let at : slot_index r t ≡ t = slot_index_first t h (omega (arith, h.first_lap)) in
    rw wraps (
      Took-some c (suc t) (p ∷ []) h lt
        (sym (take-suc t log p (h.ptrs t lt ∙ ap some (sym (e ∙ ap (λ k. (r.slots k).ptr) at))))))

dequeue-Took :
    {r r' : Ring} {log : List ℕ} (c : ℕ) (o : Option ℕ)
    → Holds r log
    → dequeue r c ≡ ok (o, r')
    → Took r log c (in_list o) r'
unfolding dequeue
dequeue-Took {r} {r'} {log} c o h e =
    let t = r.consumer_tails c in
    let p = (r.slots (slot_index r t)).ptr in
    elim (Bool-cases (leb r.consumer_count c)) [
      | inl out ↦ absurd (ground arith)
      | inr inside ↦ elim (Bool-cases ((r.slots (slot_index r t)).seq == add64 t 1)) [
        | inl ready ↦
            let got : o ≡ some p = ground arith in
            let moved : r' ≡ after_take r c (add64 t 1) = ground arith in
            rw (got, moved) (Took-one c p h refl ready)
        | inr empty ↦
            let got : o ≡ none = ground arith in
            let same : r' ≡ r = ground arith in rw (got, same) (Took-none c h)
      ]
    ]

dequeue_batch-Took :
    {r r' : Ring} {log : List ℕ} (c n : ℕ) (ps : List ℕ)
    → Holds r log
    → dequeue_batch r c n ≡ ok (ps, r')
    → Took r log c ps r'
unfolding dequeue_batch
dequeue_batch-Took {r} {r'} {log} c n ps h e =
    let t = r.consumer_tails c in
    let (below, count, joined) = batch_loop_lem n t h (h.tails c) in
    elim (List-cases (batch_loop n r t).0) [
      | inl empty ↦
          let got : ps ≡ [] = ground arith in
          let same : r' ≡ r = ground arith in rw (got, same) (Took-none c h)
      | inr (p, rest, some_of) ↦
          let got : ps ≡ (batch_loop n r t).0 = ground arith in
          let moved : r' ≡ after_take r c (batch_loop n r t).1 = ground arith in
          rw (got, moved) (Took-some c _ _ h below joined)
    ]

-- The ring's invariant, and what each consumer has: the log up to its tail.
pub record Inv (s : System) : Type 0 where
  pub holds : Holds s.ring s.log
  pub got : (c : ℕ) → s.received c ≡ take (s.ring.consumer_tails c) s.log

Took-Inv :
    (s : System) (c : ℕ) (ps : List ℕ) (r : Ring)
    → Inv s
    → Took s.ring s.log c ps r
    → Inv (record s { ring = r; received = update s.received c (s.received c ++ ps) })
Took-Inv s c ps r v t = record {
  holds = t.holds;
  got = λ d. elim (ℕ_discrete c d) [
    | yes e ↦
        subst (λ k. update s.received c (s.received c ++ ps) k ≡ take (r.consumer_tails k) s.log) e
          (rw (update_self s.received c (s.received c ++ ps), v.got c) t.brought)
    | no ne ↦
        rw (update_ne s.received (s.received c ++ ps) ne, t.others d (λ q. ne (sym q))) (v.got d)
  ];
}

register-Inv :
    (s : System) (c : ℕ) (r : Ring)
    → Inv s
    → register_consumer s.ring c ≡ ok r
    → Inv (record s { ring = r; received = update s.received c [] })
unfolding register_consumer
register-Inv s c r v e =
    let is : r ≡ record s.ring { consumer_tails = update s.ring.consumer_tails c 0 } =
      ground arith in
    rw is (record {
      holds = retail_one-Holds c 0 v.holds (omega arith);
      got = λ d. ground (arith, v.got d);
    })

publish-Inv :
    (s : System) (p : ℕ) (r : Ring) (woken : Bool)
    → Inv s
    → publish_round s.ring p ≡ some (r, woken)
    → Inv (record s { ring = r; phase = Phase.idle; log = s.log ++ (p ∷ []) })
publish-Inv s p r woken v e = record {
  holds = publish-Holds p v.holds e;
  got = λ c.
      rw (publish_round-tails s.ring p e, v.got c)
        (sym (
          take-append_left (s.ring.consumer_tails c) s.log (p ∷ [])
            (omega (arith, v.holds.tails c, v.holds.counted))));
}

room_round-Inv :
    (s : System) (spins : ℕ) (phase : Phase) {found : Bool} {r : Ring}
    → Inv s
    → room_round s.ring spins ≡ (found, r)
    → Inv (record s { ring = r; phase = phase })
room_round-Inv s spins phase {r} v e =
    let (h, same) = room_round-Holds spins v.holds in
    let is : (room_round s.ring spins).1 ≡ r = ap (λ x. x.1) e in
    record {
      holds = subst (λ q. Holds q s.log) is h;
      got = λ c.
          v.got c
          ∙ ap (λ (k : ℕ). take k s.log)
              (ap (λ (tails : Array ℕ). tails c) (sym same)
                ∙ ap (λ (q : Ring). q.consumer_tails c) is);
    }

-- Every step of the threads keeps the invariant.
pub Step-Inv : {s t : System} → Step s t → Inv s → Inv t
Step-Inv (call s p a b) v = record { holds = v.holds; got = v.got }
Step-Inv (no_room s p spins r a e) v = room_round-Inv s spins _ v e
Step-Inv (room s p spins r a e) v = room_round-Inv s spins _ v e
Step-Inv (slot_taken s p a e) v = v
Step-Inv (publish s p r woken a e) v = publish-Inv s p r woken v e
Step-Inv (register s c r e) v = register-Inv s c r v e
Step-Inv (Steps.take s c o r e) v = Took-Inv s c _ r v (dequeue-Took c o v.holds e)
Step-Inv (take_batch s c n ps r e) v = Took-Inv s c ps r v (dequeue_batch-Took c n ps v.holds e)

pub Reach-Inv : {s t : System} → Inv s → Reach s t → Inv t
Reach-Inv v here = v
Reach-Inv v (next r st) = Step-Inv st (Reach-Inv v r)

-- The loop of `om_market_ring_init` numbers the slots.
numbered : (config : Config) (k : ℕ) → k < config.capacity → ((fresh config).slots k).seq ≡ k
numbered config k lt =
    let slot : ℕ → Slot = λ i. record { seq = i; ptr = 0 } in
    let cleared : ℕ → Slot = λ i. record { seq = 0; ptr = 0 } in
    ap (λ (x : Slot). x.seq) (set_below_lt config.capacity slot cleared k lt)

pub start-Inv :
    (config : Config) (grants : Grants) {r : Ring}
    → 2 ≤ config.capacity
    → config.capacity + 1 < u64_mod
    → init config grants ≡ ok r
    → Inv (start r)
unfolding init
start-Inv config grants {r} large small e =
    let is : r ≡ fresh config = ground arith in
    rw is (record {
      holds = record {
        pow2 = is_power_of_two-IsPow2 config.capacity (ground arith);
        large = large;
        small = small;
        masked = refl;
        counted = refl;
        seqs = λ k lt. ground (arith, numbered config k lt);
        ptrs = λ k lt. absurd (omega arith);
        tails = λ c. omega arith;
        first_lap = omega arith;
      };
      got = λ c. refl;
    })

-- Each consumer has received the published records in order, from the first one on, none twice and
-- none left out: they are the first `tail` records of the log, counted from the last time that the
-- consumer was registered, if it was. This holds after any steps of the producer and the consumers
-- on a ring that `om_market_ring_init` made with at least two slots.
pub received-take :
    (config : Config) (grants : Grants) {r : Ring} {s : System} (c : ℕ)
    → 2 ≤ config.capacity
    → config.capacity + 1 < u64_mod
    → init config grants ≡ ok r
    → Reach (start r) s
    → (s.received c ≡ take (s.ring.consumer_tails c) s.log)
      × (s.ring.consumer_tails c ≤ length s.log)
received-take config grants c large small e steps =
    let v = Reach-Inv (start-Inv config grants large small e) steps in
    (v.got c, omega (arith, v.holds.tails c, v.holds.counted))
