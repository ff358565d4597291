-- ===== src/Slab/Tests.antt =====
-- The slab of src/om_slab.c with three slots, and its theorems there.
use veloxmatch.Base.{◌≡◌, refl, ◌==◌, if◌then◌else◌, true, false, some, [], ◌∷◌, arith}
use veloxmatch.Base.Result.{ok, err}
use veloxmatch.Slab.{
  Slab, Config, Error, null, built, build_free_a, build_free_b, init, alloc, free,
}
use veloxmatch.Slab.FreeList.{IsFree, Pops, countdown, init-IsFree, alloc-Pops, free_push}
use veloxmatch.Slab.Queue.{link_after, link_before, unlink}
use veloxmatch.Slab.Queue.Refine.{IsQueue, link_after-IsQueue, link_before-IsQueue}
use veloxmatch.Slab.Queue.Remove.{unlink-IsQueue}

abbrev config : Config
config = record { user_data_size = 0; aux_data_size = 0; total_slots = 3 }

abbrev slab : Slab
slab = built config

init_runs :
    (init config true true ≡ ok slab)
    × (init (record config { total_slots = 0 }) true true ≡ err Error.invalid_param)
    × (init config true false ≡ err Error.aux_alloc)
unfolding init
init_runs = (refl, refl, refl)

alloc_runs : ((alloc slab).0 ≡ some 2) × ((alloc (alloc slab).1).0 ≡ some 1)
unfolding alloc build_free_a build_free_b
alloc_runs = (refl, refl)

init-IsFree_example : IsFree slab (countdown 3) × (slab.used ≡ 0) × (slab.next_order_id ≡ 1)
unfolding init
init-IsFree_example = init-IsFree config (omega arith) refl

alloc-Pops_example : Pops slab (countdown 3) (alloc slab)
alloc-Pops_example = alloc-Pops (countdown 3) init-IsFree_example.0

abbrev one_taken : Slab
one_taken = (alloc slab).1

one_taken-IsFree : IsFree one_taken (1 ∷ 0 ∷ [])
one_taken-IsFree = alloc-Pops_example.1

one_used : one_taken.used ≡ 1
unfolding alloc build_free_a build_free_b
one_used = refl

one_capacity : one_taken.capacity ≡ 3
unfolding alloc build_free_a build_free_b
one_capacity = refl

free_push_example : IsFree (free one_taken 2) (2 ∷ 1 ∷ 0 ∷ [])
free_push_example =
    free_push 2 (1 ∷ 0 ∷ []) one_taken-IsFree (rw one_capacity (omega arith)) (omega arith)
      (rw one_used (omega arith))

-- Slots 0 and 1 in the price ladder, in that order.
abbrev pair : Slab
pair = record slab {
  capacity = 3;
  next = λ q i. if i == 0 then 1 else null;
  prev = λ q i. if i == 1 then 0 else null;
}

pair-IsQueue : IsQueue pair 1 null 0 (0 ∷ 1 ∷ [])
pair-IsQueue = (refl, omega arith, refl, (refl, omega arith, refl, refl))

link_after-IsQueue_example : IsQueue (link_after pair 0 2 1) 1 null 0 (0 ∷ 2 ∷ 1 ∷ [])
link_after-IsQueue_example =
    link_after-IsQueue pair 1 0 2 null 0 [] (1 ∷ []) (omega arith) (omega arith) (omega arith)
      (omega arith) (omega arith) pair-IsQueue

link_before-IsQueue_example : IsQueue (link_before pair 0 2 1) 1 null 2 (2 ∷ 0 ∷ 1 ∷ [])
link_before-IsQueue_example =
    link_before-IsQueue pair 1 0 2 0 (1 ∷ []) (omega arith) (omega arith) (omega arith)
      (omega arith) pair-IsQueue

unlink-IsQueue_example : IsQueue (unlink pair 0 1).1 1 null 1 (1 ∷ [])
unlink-IsQueue_example =
    unlink-IsQueue pair 1 0 0 [] (1 ∷ []) (omega arith) (omega arith) (omega arith) pair-IsQueue
