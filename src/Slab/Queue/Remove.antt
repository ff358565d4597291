-- ===== src/Slab/Queue/Remove.antt =====
-- Removal from an intrusive queue: `om_queue_unlink` of include/openmatch/om_slab.h.
use veloxmatch.Base.{
  ℕ, ◌<◌, ◌≡◌, ◌≢◌, refl, sym, ◌∙◌, ◌⊎◌, inl, inr, List, [], ◌∷◌, ◌++◌, arith, Array, ◌==◌,
  if◌then◌else◌, not, ◌&&◌, uint32_max, ◌≤◌,
}
use veloxmatch.Slab.{Slab, null}
use veloxmatch.Slab.FreeList.{NotIn, Distinct, Below, NotIn-of_above}
use veloxmatch.Slab.Queue.{unlink, is_linked}
use veloxmatch.Slab.Queue.Links.{
  Links, Agree-outside, Links-frame, NotIn-append, Below-append, first_bound, Links-first, Links-at,
}
use veloxmatch.Slab.Queue.Refine.{IsQueue, off_member}

module _ (s : Slab) (q i : ℕ) where
  -- What `om_queue_unlink` writes, whether or not it finds the slot linked.
  unlink-next :
      (k : ℕ)
      → (s.prev q i ≡ null) ⊎ (s.prev q i < s.capacity)
      → (unlink s i q).1.next q k ≡ (
          if i == k
          then null
          else if not (s.prev q i == null) && (s.prev q i == k)
          then s.next q i
          else s.next q k)
  unfolding unlink is_linked
  unlink-next k inside = ground arith

  unlink-prev :
      (k : ℕ)
      → (s.next q i ≡ null) ⊎ (s.next q i < s.capacity)
      → (unlink s i q).1.prev q k ≡ (
          if i == k
          then null
          else if not (s.next q i == null) && (s.next q i == k)
          then s.prev q i
          else s.prev q k)
  unfolding unlink is_linked
  unlink-prev k inside = ground arith

before_bound :
    (s : Slab) (q x b p : ℕ) (xs ys : List ℕ)
    → (b ≡ null) ⊎ (b < s.capacity)
    → Below s.capacity (xs ++ (x ∷ ys))
    → IsQueue s q b p (xs ++ (x ∷ ys))
    → (s.prev q x ≡ null) ⊎ (s.prev q x < s.capacity)
before_bound s q x b p [] ys h below (here, real, back, rest) = rw back h
before_bound s q x b p (w ∷ ws) ys h below (here, real, back, rest) =
    before_bound s q x w (s.next q w) ws ys (inr below.0) below.1 rest

-- Where a queue starts once the member behind `ws` is gone.
abbrev pub start_after : ℕ → ℕ → List ℕ → ℕ
start_after p n [] = n
start_after p n (w ∷ ws) = p

module _ (nxt prv nxt' prv' : Array ℕ) (x : ℕ)
    (at_next : (k : ℕ)
      → nxt' k
        ≡ (if x == k then null else if not (prv x == null) && (prv x == k) then nxt x else nxt k))
    (at_prev : (k : ℕ)
      → prv' k ≡ (
          if x == k
          then null
          else if not (nxt x == null) && (nxt x == k)
          then prv x
          else prv k)) where
  -- The slot before `x` is a member of the queue's front part.
  before_ne :
      (w b p v : ℕ) (vs ys : List ℕ)
      → NotIn w (v ∷ vs)
      → Links nxt prv b p ((v ∷ vs) ++ (x ∷ ys))
      → prv x ≢ w
  before_ne w b p v [] ys out (here, real, back, rest) = λ e. out.0 (sym e ∙ rest.2)
  before_ne w b p v (u ∷ us) ys out (here, real, back, rest) =
      before_ne w v (nxt v) u us ys out.1 rest

  remove-Links :
      (b p : ℕ) (xs ys : List ℕ)
      → Distinct (xs ++ (x ∷ ys))
      → NotIn b (xs ++ (x ∷ ys))
      → Links nxt prv b p (xs ++ (x ∷ ys))
      → Links nxt' prv' b (start_after p (nxt x) xs) (xs ++ ys)
  remove-Links b p [] [] d out (here, real, back, rest) = rest
  remove-Links b p [] (y ∷ ys) d out (here, real, back, (at, real_y, back_y, rest)) =
      let same : nxt' y ≡ nxt y = ground (arith, at_next y, d.0.0, out.1.0) in
      (
        at,
        real_y,
        ground (arith, at_prev y, d.0.0),
        rw same (
            Links-frame nxt prv nxt' prv' y (nxt y) ys
              (Agree-outside nxt nxt' x b y ys (λ k r s t. ground (arith, at_next k)) d.0.1 out.1.1
                d.1.0)
              (Agree-outside prv prv' x b y ys (λ k r s t. ground (arith, at_prev k)) d.0.1 out.1.1
                d.1.0)
              rest),
      )
  remove-Links b p (w ∷ []) ys d out (here, real, back, rest) =
      let first = Links-first nxt prv x (nxt x) ys rest.3 in
      let to : nxt' w ≡ nxt x = ground (arith, at_next w, d.0.0) in
      (
        here,
        real,
        ground (arith, at_prev w, d.0.0, off_member nxt x w ys d.0.1 first),
        rw to (remove-Links w (nxt w) [] ys d.1 d.0 rest),
      )
  remove-Links b p (w ∷ v ∷ vs) ys d out (here, real, back, rest) =
      let (out_vs, out_ys) = NotIn-append w (v ∷ vs) (x ∷ ys) d.0 in
      let first =
        Links-first nxt prv x (nxt x) ys (Links-at nxt prv w (nxt w) (v ∷ vs) x ys rest).1 in
      let apart = before_ne w w (nxt w) v vs ys out_vs rest in
      let same : nxt' w ≡ nxt w = ground (arith, at_next w, out_ys.0) in
      (
        here,
        real,
        ground (arith, at_prev w, out_ys.0, off_member nxt x w ys out_ys.1 first),
        rw same (remove-Links w (nxt w) (v ∷ vs) ys d.1 d.0 rest),
      )

-- `om_queue_unlink` takes slot `x` out of the queue, and leaves the others in their order, links
-- and back links alike. The queue then starts where it did, or, if `x` was its first slot, at the
-- slot that `x` pointed to. All members are slots of the slab, and the first has NULL before it.
pub unlink-IsQueue :
    (s : Slab) (q x p : ℕ) (xs ys : List ℕ)
    → s.capacity ≤ uint32_max
    → Below s.capacity (xs ++ (x ∷ ys))
    → Distinct (xs ++ (x ∷ ys))
    → IsQueue s q null p (xs ++ (x ∷ ys))
    → IsQueue (unlink s x q).1 q null (start_after p (s.next q x) xs) (xs ++ ys)
unlink-IsQueue s q x p xs ys fits below d queue =
    let rest = (Links-at (s.next q) (s.prev q) null p xs x ys queue).1 in
    let first = Links-first (s.next q) (s.prev q) x (s.next q x) ys rest in
    let below_ys = (Below-append s.capacity xs (x ∷ ys) below).1.1 in
    let bound : (s.next q x ≡ null) ⊎ (s.next q x < s.capacity) =
      rw first (first_bound s.capacity ys below_ys) in
    let out = NotIn-of_above null s.capacity (xs ++ (x ∷ ys)) below fits in
    remove-Links (s.next q) (s.prev q) _ _ x
      (λ k. unlink-next s q x k (before_bound s q x null p xs ys (inl refl) below queue))
      (λ k. unlink-prev s q x k bound) null p xs ys d out queue
