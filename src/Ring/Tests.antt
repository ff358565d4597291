-- ===== src/Ring/Tests.antt =====
-- The ring of src/om_worker.c on two slots: a history, and the theorems along it.
use veloxmatch.Base.{
  ℕ, ◌≤◌, ◌≡◌, refl, true, false, some, none, List, [], ◌∷◌, ◌++◌, arith, length, take, get_elem?,
  update,
}
use veloxmatch.Base.Result.{ok, err}
use veloxmatch.Ring.{
  Ring, Config, Grants, Error, fresh, init, enqueue, enqueue_loop, publish_loop, room_round,
  publish_round, slot_index, dequeue, dequeue_batch, refresh_min_tail_on_consume, ring_min_tail,
  min_tail_from, wait_round,
}
use veloxmatch.Ring.Steps.{System, Phase, Reach, start, call, room, publish, here, next}
use veloxmatch.Ring.Steps
use veloxmatch.Ring.Delivery.{received-take}
use veloxmatch.Ring.Progress.{dequeue_progress, full-Reach}

abbrev config : Config
config = record { capacity = 2; consumer_count = 1; notify_batch = 2 }

abbrev granted : Grants
granted = record { slots = true; tails = true; mutex = true; cond = true }

abbrev ring : Ring
ring = fresh config

init_runs :
    (init config granted ≡ ok ring)
    × (init (record config { capacity = 6 }) granted ≡ err Error.not_pow2)
    × (init (record config { consumer_count = 0 }) granted ≡ err Error.invalid_param)
unfolding init
init_runs = (refl, refl, refl)

abbrev one_out : Ring
one_out = record ring { slots = update ring.slots 0 (record { seq = 1; ptr = 7 }); head = 1 }

abbrev two_out : Ring
two_out = record one_out { slots = update one_out.slots 1 (record { seq = 2; ptr = 8 }); head = 2 }

abbrev drained : Ring
drained = record two_out { consumer_tails = update two_out.consumer_tails 0 1; min_tail = 1 }

enqueue_runs :
    (enqueue 4 ring 7 ≡ ok (some (one_out, false)))
    × (enqueue 4 one_out 8 ≡ ok (some (two_out, true)))
    × (enqueue 4 ring 0 ≡ err Error.null_param)
    × (enqueue 9 drained 9 ≡ ok none)
unfolding enqueue enqueue_loop publish_loop room_round publish_round slot_index ring_min_tail
    min_tail_from
enqueue_runs = (refl, refl, refl, refl)

dequeue_runs :
    (dequeue two_out 0 ≡ ok (some 7, drained))
    × (dequeue ring 0 ≡ ok (none, ring))
    × (dequeue ring 1 ≡ err Error.consumer_id)
unfolding dequeue slot_index refresh_min_tail_on_consume ring_min_tail min_tail_from
dequeue_runs = (refl, refl, refl)

wait_runs : (wait_round two_out 0 2 ≡ ok true) × (wait_round one_out 0 2 ≡ ok false)
unfolding wait_round
wait_runs = (refl, refl)

abbrev after_one : System
after_one = record (start ring) { ring = one_out; log = 7 ∷ [] }

abbrev after_two : System
after_two = record (start ring) { ring = two_out; log = 7 ∷ 8 ∷ [] }

abbrev after_take : System
after_take = record after_two { ring = drained; received = update after_two.received 0 (7 ∷ []) }

one : Reach (start ring) after_one
unfolding room_round publish_round slot_index
one =
    next (next (next here (call _ 7 refl (λ e. omega arith))) (room _ 7 0 _ refl refl))
      (publish _ 7 _ _ refl refl)

two : Reach (start ring) after_two
unfolding room_round publish_round slot_index
two =
    next (next (next one (call _ 8 refl (λ e. omega arith))) (room _ 8 0 _ refl refl))
      (publish _ 8 _ _ refl refl)

took : Reach after_two after_take
unfolding dequeue slot_index refresh_min_tail_on_consume ring_min_tail min_tail_from
took = next here (Steps.take _ 0 (some 7) _ refl)

received-take_example :
    (after_two.received 0 ≡ take (after_two.ring.consumer_tails 0) after_two.log)
    × (after_two.ring.consumer_tails 0 ≤ length after_two.log)
unfolding init
received-take_example = received-take config granted 0 (omega arith) (omega arith) refl two

dequeue_progress_example :
    ((p : ℕ) × (r' : Ring) × (dequeue one_out 0 ≡ ok (some p, r'))
      × (get_elem? (7 ∷ []) 0 ≡ some p))
    × ((ps : List ℕ) × (r' : Ring) × (dequeue_batch one_out 0 4 ≡ ok (ps, r'))
        × (length ps ≡ 1)
        × ([] ++ ps ≡ take (r'.consumer_tails 0) (7 ∷ [])))
unfolding init
dequeue_progress_example =
    dequeue_progress config granted 0 4 (omega arith) (omega arith) refl one (omega arith)
      (omega arith) (omega arith)

full-Reach_example : after_take.log ≡ after_two.log
unfolding init
full-Reach_example = full-Reach config granted (omega arith) (omega arith) refl two refl took
