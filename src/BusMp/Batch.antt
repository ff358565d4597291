-- ===== src/BusMp/Batch.antt =====
-- src/om_bus_mp.c: `om_bus_mp_poll_batch` against `om_bus_mp_poll`, and the layout that
-- `om_bus_mp_init` leaves.
use veloxmatch.Base.{
  ℕ, zero, suc, ◌+◌, ◌*◌, ◌≤◌, ◌≡◌, refl, ap, sym, ◌∙◌, true, false, none, List, [], ◌∷◌, arith,
  bit_and, Bool-cases, Option-cases, leb, le→leb, ltb, ◌==◌, ==_refl, add64, sub64, ◌⊎◌, inl, inr,
}
use veloxmatch.Base.Result.{ok, value_or}
use veloxmatch.BusMp.{
  Bus, Config, init, fresh, bus_size, validate_mapping, validate_config, slots_offset,
  chosen_timeout,
}
use veloxmatch.BusMp.Consumer.{
  Consumer, Poll, Record, empty, delivered, skipped, record_of, release, unblocked, skip_record,
  poll_blocked, poll_impl, poll, batch_loop, poll_batch,
}

-- `om_bus_mp_poll` as long as it delivers a record, at most `n` times
unfoldable pub poll_many : ℕ → Bus → Consumer → ℕ → List Record × Bus × Consumer
poll_many zero b c now = ([], b, c)
poll_many (suc n) b c now = elim (poll b c now).0 [
  | delivered r ↦
      let (records, after, consumer) = poll_many n (poll b c now).1 (poll b c now).2 now in
      (r ∷ records, after, consumer)
  | empty ↦ ([], b, c)
  | skipped r ↦ ([], b, c)
]

-- The consumer is left unblocked if there was a record.
abbrev after_batch : Consumer → List Record → Consumer
after_batch c records = elim records [ [] ↦ c | r ∷ rs ↦ unblocked c ]

poll_delivers :
    (b : Bus) (c : Consumer) (now : ℕ)
    → let slot = b.slots (bit_and b.dequeue_pos c.mask) in
      (slot.seq == add64 b.dequeue_pos 1) ≡ true
      → poll b c now ≡ (delivered (record_of c none slot), release b c b.dequeue_pos, unblocked c)
unfolding poll_impl
poll_delivers b c now committed = rw committed refl

poll_refuses :
    (b : Bus) (c : Consumer) (now : ℕ)
    → ((b.slots (bit_and b.dequeue_pos c.mask)).seq == add64 b.dequeue_pos 1) ≡ false
    → ((poll b c now).0 ≡ empty) ⊎ ((r : Record) × ((poll b c now).0 ≡ skipped r))
unfolding poll_impl poll_blocked
poll_refuses b c now other =
    let pos = b.dequeue_pos in
    elim (Bool-cases ((b.slots (bit_and pos c.mask)).seq == pos)) [
      | inr stale ↦ rw (other, stale) (inl refl)
      | inl open_slot ↦ elim (Bool-cases (leb b.enqueue_pos pos)) [
        | inl none_left ↦ rw (other, open_slot, none_left) (inl refl)
        | inr some_left ↦ elim (Bool-cases (c.blocked_sequence == pos)) [
          | inr first ↦ rw (other, open_slot, some_left, first) (inl refl)
          | inl again ↦ elim (Bool-cases (ltb (sub64 now c.blocked_since_ns) c.skip_timeout_ns)) [
            | inl early ↦ rw (other, open_slot, some_left, again, early) (inl refl)
            | inr late ↦ rw (other, open_slot, some_left, again, late) (inr (skip_record pos, refl))
          ]
        ]
      ]
    ]

batch_loop-unblocked :
    (n : ℕ) (b : Bus) (c : Consumer) (pos : ℕ)
    → batch_loop n b (unblocked c) pos ≡ batch_loop n b c pos
unfolding batch_loop
batch_loop-unblocked zero b c pos = refl
batch_loop-unblocked (suc n) b c pos =
    rw (batch_loop-unblocked n (release b c pos) c (add64 pos 1)) refl

after_batch-unblocked :
    (c : Consumer) (records : List Record) → after_batch (unblocked c) records ≡ unblocked c
after_batch-unblocked c [] = refl
after_batch-unblocked c (r ∷ records) = refl

-- A round of `poll_many`, by the answer of its call.
abbrev gather : ℕ → Bus → Consumer → ℕ → Poll × Bus × Consumer → List Record × Bus × Consumer
gather n b c now (delivered r, b', c') =
    let (records, after, consumer) = poll_many n b' c' now in (r ∷ records, after, consumer)
gather n b c now (empty, b', c') = ([], b, c)
gather n b c now (skipped r, b', c') = ([], b, c)

poll_many-gather :
    (n : ℕ) (b : Bus) (c : Consumer) (now : ℕ) (out : Poll × Bus × Consumer)
    → poll b c now ≡ out
    → poll_many (suc n) b c now ≡ gather n b c now out
unfolding poll_many
poll_many-gather n b c now (delivered r, b', c') e = ground (arith, e)
poll_many-gather n b c now (empty, b', c') e = ground (arith, e)
poll_many-gather n b c now (skipped r, b', c') e = ground (arith, e)

poll_many-batch_loop :
    (n : ℕ) (b : Bus) (c : Consumer) (now : ℕ)
    → let (records, after) = batch_loop n b c b.dequeue_pos in
      poll_many n b c now ≡ (records, after, after_batch c records)
unfolding poll_many batch_loop
poll_many-batch_loop zero b c now = refl
poll_many-batch_loop (suc n) b c now =
    let pos = b.dequeue_pos in
    let slot = b.slots (bit_and pos c.mask) in
    elim (Bool-cases (slot.seq == add64 pos 1)) [
      | inr other ↦ elim (poll_refuses b c now other) [
        | inl nothing ↦
            let many : poll_many (suc n) b c now ≡ ([], b, c) = ground (arith, nothing) in
            rw (many, other) refl
        | inr (r, passed) ↦
            let many : poll_many (suc n) b c now ≡ ([], b, c) = ground (arith, passed) in
            rw (many, other) refl
      ]
      | inl committed ↦
          let r = record_of c none slot in
          let b' = release b c pos in
          let rest = batch_loop n b' c (add64 pos 1) in
          let is = poll_delivers b c now committed in
          let ih : poll_many n b' (unblocked c) now ≡ (rest.0, rest.1, unblocked c) =
            rw (batch_loop-unblocked n b' c (add64 pos 1), after_batch-unblocked c rest.0) at
              (poll_many-batch_loop n b' (unblocked c) now) in
          let many : poll_many (suc n) b c now ≡ (r ∷ rest.0, rest.1, unblocked c) =
            poll_many-gather n b c now (delivered r, b', unblocked c) is
            ∙ ap (λ x. (r ∷ x.0, x.1, x.2)) ih in
          rw (many, committed) refl
    ]

-- A batch answers what as many calls of `om_bus_mp_poll` would, as long as they deliver records,
-- and leaves the bus and the consumer as they would.
pub poll_batch-poll_many :
    (n : ℕ) (b : Bus) (c : Consumer) (now : ℕ) → poll_batch b c n ≡ poll_many n b c now
unfolding poll_batch
poll_batch-poll_many n b c now = sym (poll_many-batch_loop n b c now)

fresh_accepted :
    (config : Config) (size : ℕ)
    → bus_size config ≡ size
    → 320 ≤ size
    → validate_mapping (fresh config) (bus_size config) config ≡ true
fresh_accepted config size size_is large =
    rw
      (
        size_is,
        le→leb 320 size large,
        ==_refl config.capacity,
        ==_refl config.slot_size,
        ==_refl config.max_producers,
        ==_refl (chosen_timeout config),
        ==_refl size,
      )
      refl

-- What `om_bus_mp_init` has accepted and laid out, `om_bus_mp_validate_mapping` accepts with the
-- same configuration and the size that `om_bus_mp_size` gives for it.
pub init-validate_mapping :
    (config : Config) (memory_size : ℕ) (b : Bus)
    → init true memory_size config ≡ ok b
    → validate_mapping b (bus_size config) config ≡ true
unfolding init bus_size
init-validate_mapping config memory_size b e = elim (Option-cases (validate_config config)) [
  | inr (error, bad) ↦ absurd (ground (arith, e, bad))
  | inl good ↦ elim (Bool-cases (ltb memory_size (bus_size config))) [
    | inl short ↦ absurd (ground (arith, e, good, short))
    | inr fits ↦
        let is : init true memory_size config ≡ ok (fresh config) = ground (arith, good, fits) in
        let b_is : b ≡ fresh config = ap (value_or (fresh config)) (sym e ∙ is) in
        let size = slots_offset config.max_producers + config.capacity * config.slot_size in
        let size_is : bus_size config ≡ size = ground (arith, good) in
        rw b_is (fresh_accepted config size size_is (omega arith))
  ]
]
