-- ===== src/Slab/FreeList.antt =====
-- The free lists of src/om_slab.c as a stack of slot indices.
use veloxmatch.Base.{
  ℕ, zero, suc, ◌+◌, ◌-◌, ◌≤◌, ◌<◌, ◌≡◌, ◌≢◌, refl, true, Option, none, some, List, [], ◌∷◌, arith,
  length, Array, update, uint32_max, ◌==◌, replicate, update_self, update_ne, subst, ap,
  if◌then◌else◌,
}
use veloxmatch.Base.Result.{ok}
use veloxmatch.Slab
use veloxmatch.Slab.{
  Slab, Slot, Config, null, clear_links, set_slot, aux_slot_size, cleared_slot, build_free_a,
  build_free_b, zeroed, built, init, alloc, free,
}

-- From `p` the links `nxt` lead through `xs` to the end mark.
abbrev pub Chain : Array ℕ → ℕ → List ℕ → Type 0
Chain nxt p [] = p ≡ null
Chain nxt p (x ∷ xs) = (p ≡ x) × (x ≢ null) × Chain nxt (nxt x) xs

abbrev pub NotIn : ℕ → List ℕ → Type 0
NotIn i [] = Unit {0}
NotIn i (x ∷ xs) = (i ≢ x) × NotIn i xs

abbrev pub Distinct : List ℕ → Type 0
Distinct [] = Unit {0}
Distinct (x ∷ xs) = NotIn x xs × Distinct xs

abbrev pub Below : ℕ → List ℕ → Type 0
Below n [] = Unit {0}
Below n (x ∷ xs) = (x < n) × Below n xs

-- A chain survives a change of the link of `i` alone, if `i` is not on it.
pub Chain-frame :
    (nxt nxt' : Array ℕ) (i p : ℕ) (xs : List ℕ)
    → ((j : ℕ) → i ≢ j → nxt' j ≡ nxt j)
    → NotIn i xs
    → Chain nxt p xs
    → Chain nxt' p xs
Chain-frame nxt nxt' i p [] same out c = c
Chain-frame nxt nxt' i p (x ∷ xs) same out (here, ne, rest) =
    (here, ne, rw (same x out.0) (Chain-frame nxt nxt' i (nxt x) xs same out.1 rest))

pub NotIn-of_above : (i n : ℕ) (xs : List ℕ) → Below n xs → n ≤ i → NotIn i xs
NotIn-of_above i n [] b h = tt
NotIn-of_above i n (x ∷ xs) b h = (omega arith, NotIn-of_above i n xs b.1 h)

-- A slab whose free slots are `xs`, the next one to be given out first, on both free lists.
pub record IsFree (s : Slab) (xs : List ℕ) : Type 0 where
  pub fits : s.capacity ≤ uint32_max
  pub fixed : Chain (s.next 0) s.free_a xs
  pub aux : Chain s.aux_next s.free_b xs
  pub distinct : Distinct xs
  pub below : Below s.capacity xs
  pub counted : s.used + length xs ≡ s.capacity

-- The slab after slot `x` has been taken off both lists and cleared.
abbrev popped : Slab → ℕ → Slab
popped s x =
    record (set_slot (clear_links (record s { free_a = s.next 0 x }) x) x
      (cleared_slot (s.slots x))) {
        free_b = s.aux_next x;
        aux_cells = update s.aux_cells x (replicate (aux_slot_size s.config) 0);
        used = s.used + 1;
      }

popped-IsFree : {s : Slab} {x : ℕ} {xs : List ℕ} → IsFree s (x ∷ xs) → IsFree (popped s x) xs
popped-IsFree {s} {x} {xs} v = record {
  fits = v.fits;
  fixed = Chain-frame (s.next 0) _ x (s.next 0 x) xs (λ j ne. ground arith) v.distinct.0 v.fixed.2;
  aux = v.aux.2;
  distinct = v.distinct.1;
  below = v.below.1;
  counted = omega (arith, v.counted);
}

-- What `om_slab_alloc` may return when the free slots are `xs`.
abbrev pub Pops : Slab → List ℕ → Option ℕ × Slab → Type 0
Pops s [] (got, s') = (got ≡ none) × (s' ≡ s)
Pops s (x ∷ xs) (got, s') =
    (got ≡ some x) × IsFree s' xs × (s'.slots x ≡ cleared_slot (s.slots x)) × (s'.used ≡ s.used + 1)

-- With no slot free `om_slab_alloc` returns NULL and leaves the slab as it was; otherwise it
-- returns the slot in front, its order fields cleared, and takes it off both free lists.
pub alloc-Pops : {s : Slab} (xs : List ℕ) → IsFree s xs → Pops s xs (alloc s)
unfolding alloc
alloc-Pops {s} [] v = let is : alloc s ≡ (none, s) = ground (arith, v.fixed) in rw is (refl, refl)
alloc-Pops {s} (x ∷ xs) v =
    let is : alloc s ≡ (some x, popped s x) = ground (arith, v.fixed, v.aux, v.below) in
    rw is (refl, popped-IsFree v, ground arith, refl)

-- `om_slab_free` of a slot that is not free puts it in front of both free lists, so that it is the
-- next one to be given out.
pub free_push :
    {s : Slab} (i : ℕ) (xs : List ℕ)
    → IsFree s xs
    → i < s.capacity
    → NotIn i xs
    → 0 < s.used
    → IsFree (free s i) (i ∷ xs)
unfolding free
free_push {s} i xs v lt out used = record {
  fits = v.fits;
  fixed = (
    refl,
    omega (arith, v.fits),
    let e : (free s i).next 0 i ≡ s.free_a = ground arith in
        rw e (Chain-frame (s.next 0) _ i s.free_a xs (λ j ne. ground arith) out v.fixed),
  );
  aux = (
    refl,
    omega (arith, v.fits),
    let e : (free s i).aux_next i ≡ s.free_b = ground arith in
        rw e (Chain-frame s.aux_next _ i s.free_b xs (λ j ne. ground arith) out v.aux),
  );
  distinct = (out, v.distinct);
  below = (lt, v.below);
  counted = omega (arith, v.counted, v.fits);
}

-- n - 1, …, 1, 0
abbrev pub countdown : ℕ → List ℕ
countdown zero = []
countdown (suc n) = n ∷ countdown n

countdown-Below : (n m : ℕ) → n ≤ m → Below m (countdown n)
countdown-Below zero m h = tt
countdown-Below (suc n) m h = (h, countdown-Below n m (omega arith))

countdown-Distinct : (n : ℕ) → Distinct (countdown n)
countdown-Distinct zero = tt
countdown-Distinct (suc n) = (
  NotIn-of_above n n (countdown n) (countdown-Below n n (omega arith)) (omega arith),
  countdown-Distinct n,
)

length-countdown : (n : ℕ) → length (countdown n) ≡ n
length-countdown zero = refl
length-countdown (suc n) = ap suc (length-countdown n)

countdown-suc :
    (nxt : Array ℕ) (i : ℕ)
    → i < uint32_max
    → Chain nxt (nxt i) (countdown i)
    → Chain nxt i (countdown (i + 1))
countdown-suc nxt i lt c =
    subst (λ k. Chain nxt i (countdown k)) {x = suc i} (omega arith)
      (let r : Chain nxt i (countdown (suc i)) = (refl, omega arith, c) in r)

-- The loop that builds the first list has slots `i - 1` to 0 on it before slot `i`.
build_free_a_lem :
    (n i : ℕ) {j : ℕ} (s : Slab)
    → i + n ≡ j
    → j ≤ uint32_max
    → Chain (s.next 0) s.free_a (countdown i)
    → let s' = build_free_a n i s in
      Chain (s'.next 0) s'.free_a (countdown j) × (s'.capacity ≡ s.capacity) × (s'.used ≡ s.used)
unfolding build_free_a
build_free_a_lem zero i s e le c =
    (subst (λ k. Chain (s.next 0) s.free_a (countdown k)) (omega arith) c, refl, refl)
build_free_a_lem (suc n) i s e le c =
    let linked : Slab = record (Slab.set_next (clear_links s i) 0 i s.free_a) { free_a = i } in
    let below = countdown-Below i i (omega arith) in
    let out = NotIn-of_above i i (countdown i) below (omega arith) in
    let at : linked.next 0 i ≡ s.free_a = ground arith in
    let kept =
      Chain-frame (s.next 0) (linked.next 0) i s.free_a (countdown i) (λ k ne. ground arith) out
        c in
    build_free_a_lem n (i + 1) linked (omega arith) le
      (countdown-suc (linked.next 0) i (omega arith) (rw at kept))

-- The loop over the auxiliary cells leads from cell `j - 1` down.
build_free_b_lem :
    (n i : ℕ) {j : ℕ} (aux_next : Array ℕ)
    → i + n ≡ j
    → j ≤ uint32_max
    → Chain aux_next (if i == 0 then null else i - 1) (countdown i)
    → Chain (build_free_b n i aux_next) (if j == 0 then null else j - 1) (countdown j)
unfolding build_free_b
build_free_b_lem zero i aux_next e le c =
    subst (λ k. Chain aux_next (if k == 0 then null else k - 1) (countdown k)) (omega arith) c
build_free_b_lem (suc n) i aux_next e le c =
    let before : ℕ = if i == 0 then null else i - 1 in
    let linked = update aux_next i before in
    let below = countdown-Below i i (omega arith) in
    let out = NotIn-of_above i i (countdown i) below (omega arith) in
    let kept =
      Chain-frame aux_next linked i before (countdown i) (λ k ne. update_ne aux_next before ne) out
        c in
    let last : (if i + 1 == 0 then null else i + 1 - 1) ≡ i = ground arith in
    build_free_b_lem n (i + 1) linked (omega arith) le
      (rw last (countdown-suc linked i (omega arith) (rw (update_self aux_next i before) kept)))

-- `om_slab_init` puts all slots on both free lists, the last one in front, and starts the order
-- ids at 1.
pub init-IsFree :
    (config : Config) {s : Slab}
    → config.total_slots ≤ uint32_max
    → init config true true ≡ ok s
    → IsFree s (countdown config.total_slots) × (s.used ≡ 0) × (s.next_order_id ≡ 1)
unfolding init
init-IsFree config {s} le e =
    let n = config.total_slots in
    let some_slots : n ≢ 0 = ground arith in
    let is : s ≡ built config = ground arith in
    let (list_a, capacity, used) = build_free_a_lem n 0 (zeroed config) (omega arith) le refl in
    let list_b =
      build_free_b_lem n 0 (build_free_a n 0 (zeroed config)).aux_next (omega arith) le refl in
    let last : (if n == 0 then null else n - 1) ≡ n - 1 = ground arith in
    rw is (
      record {
        fits = omega (arith, capacity);
        fixed = list_a;
        aux = rw last at list_b;
        distinct = countdown-Distinct n;
        below = rw capacity (countdown-Below n n (omega arith));
        counted = omega (arith, capacity, used, length-countdown n);
      },
      used,
      refl,
    )
