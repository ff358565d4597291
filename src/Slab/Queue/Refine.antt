-- ===== src/Slab/Queue/Refine.antt =====
-- The queue utilities of include/openmatch/om_slab.h do to the linked slots what their names say
-- of a list: insertion after a member, insertion in front, removal.
use veloxmatch.Base.{
  ℕ, ◌<◌, ◌≡◌, ◌≢◌, refl, sym, ◌∙◌, ◌⊎◌, inl, inr, List, [], ◌∷◌, ◌++◌, arith, Array, uint32_max,
  ◌≤◌, ◌==◌, if◌then◌else◌, not, ◌&&◌, ◌<◌,
}
use veloxmatch.Slab.{Slab, null}
use veloxmatch.Slab.FreeList.{NotIn, Distinct, Below}
use veloxmatch.Slab.Queue.{link_after, link_before}
use veloxmatch.Slab.Queue.Links.{
  Links, Agree-outside, Links-frame, NotIn-append, Below-append, first_bound, first_or_null,
  Links-first, Links-at,
}

-- Queue `q` of the slab, from `p` on, holds the slots `xs`; `b` stands before the first.
abbrev pub IsQueue : Slab → ℕ → ℕ → ℕ → List ℕ → Type 0
IsQueue s q b p xs = Links (s.next q) (s.prev q) b p xs

-- What follows a member is none of the slots that the rest of the queue leaves out.
pub off_member :
    (f : Array ℕ) (a w : ℕ) (ys : List ℕ)
    → NotIn w ys
    → f a ≡ first_or_null ys
    → (f a ≡ null) ⊎ (f a ≢ w)
off_member f a w [] out e = inl e
off_member f a w (y ∷ ys) out e = inr (λ g. out.0 (sym g ∙ e))

module _ (nxt prv nxt' prv' : Array ℕ) (a i : ℕ) (fresh : i ≢ null)
    (at_next : (k : ℕ) → nxt' k ≡ (if a == k then i else if i == k then nxt a else nxt k))
    (at_prev : (k : ℕ)
      → prv' k
        ≡ (if not (nxt a == null) && (nxt a == k) then i else if i == k then a else prv k)) where
  after-Links :
      (ys : List ℕ)
      → a ≢ i
      → NotIn a ys
      → NotIn i ys
      → Distinct ys
      → Links nxt prv a (nxt a) ys
      → Links nxt' prv' i (nxt' i) ys
  after-Links [] ne out_a out_i d l = ground (arith, at_next i)
  after-Links (y ∷ ys) ne out_a out_i d (here, real, back, rest) =
      let end : nxt' i ≡ y = ground (arith, at_next i) in
      let same : nxt' y ≡ nxt y = ground (arith, at_next y, out_a.0, out_i.0) in
      (
        end,
        real,
        ground (arith, at_prev y),
        rw same (
            Links-frame nxt prv nxt' prv' y (nxt y) ys
              (Agree-outside nxt nxt' a i y ys (λ k p q r. ground (arith, at_next k)) out_a.1
                out_i.1 d.0)
              (Agree-outside prv prv' a i y ys (λ k p q r. ground (arith, at_prev k)) out_a.1
                out_i.1 d.0)
              rest),
      )

  insert-Links :
      (b p : ℕ) (xs ys : List ℕ)
      → Distinct (xs ++ (a ∷ ys))
      → NotIn i (xs ++ (a ∷ ys))
      → Links nxt prv b p (xs ++ (a ∷ ys))
      → Links nxt' prv' b p (xs ++ (a ∷ i ∷ ys))
  insert-Links b p [] ys d out (here, real, back, rest) =
      let first = Links-first nxt prv a (nxt a) ys rest in
      let ne : a ≢ i = λ e. out.0 (sym e) in
      let tail : Links nxt' prv' a i (i ∷ ys) = (
        refl,
        fresh,
        ground (arith, at_prev i, ne, off_member nxt a i ys out.1 first),
        after-Links ys ne d.0 out.1 d.1 rest,
      ) in
      (
        here,
        real,
        ground (arith, at_prev a, ne, off_member nxt a a ys d.0 first),
        rw (at_a (at_next a)) tail,
      )
    where
      at_a : nxt' a ≡ (if a == a then i else if i == a then nxt a else nxt a) → nxt' a ≡ i
      at_a e = ground arith
  insert-Links b p (w ∷ ws) ys d out (here, real, back, rest) =
      let (out_ws, out_ys) = NotIn-append w ws (a ∷ ys) d.0 in
      let behind = Links-at nxt prv w (nxt w) ws a ys rest in
      let first = Links-first nxt prv a (nxt a) ys behind.1 in
      let same : nxt' w ≡ nxt w = ground (arith, at_next w, out.0, out_ys.0) in
      (
        here,
        real,
        ground (arith, at_prev w, out.0, out_ys.0, off_member nxt a w ys out_ys.1 first),
        rw same (insert-Links w (nxt w) ws ys d.1 out.1 rest),
      )

module _ (s : Slab) (q a i : ℕ) where
  -- What `om_queue_link_after` writes: the two cells of `i`, the link of `a`, and the back link of
  -- the slot behind `a`.
  link_after-next :
      (k : ℕ)
      → (link_after s a i q).next q k
        ≡ (if a == k then i else if i == k then s.next q a else s.next q k)
  unfolding link_after
  link_after-next k = ground arith

  link_after-prev :
      (k : ℕ)
      → (s.next q a ≡ null) ⊎ (s.next q a < s.capacity)
      → (link_after s a i q).prev q k ≡ (
          if not (s.next q a == null) && (s.next q a == k)
          then i
          else if i == k
          then a
          else s.prev q k)
  unfolding link_after
  link_after-prev k inside = ground arith

-- `om_queue_link_after` puts slot `i` behind slot `a` of the queue, and leaves the other members in
-- their order, links and back links alike. Slot `i` is not in the queue, all its members are slots.
pub link_after-IsQueue :
    (s : Slab) (q a i b p : ℕ) (xs ys : List ℕ)
    → s.capacity ≤ uint32_max
    → i < s.capacity
    → Below s.capacity (xs ++ (a ∷ ys))
    → Distinct (xs ++ (a ∷ ys))
    → NotIn i (xs ++ (a ∷ ys))
    → IsQueue s q b p (xs ++ (a ∷ ys))
    → IsQueue (link_after s a i q) q b p (xs ++ (a ∷ i ∷ ys))
link_after-IsQueue s q a i b p xs ys fits inside below d out queue =
    let (out_a, rest) = Links-at (s.next q) (s.prev q) b p xs a ys queue in
    let first = Links-first (s.next q) (s.prev q) a (s.next q a) ys rest in
    let out_i = (NotIn-append i xs (a ∷ ys) out).1 in
    let below_ys = (Below-append s.capacity xs (a ∷ ys) below).1 in
    let bound : (s.next q a ≡ null) ⊎ (s.next q a < s.capacity) =
      rw first (first_bound s.capacity ys below_ys.1) in
    let fresh : i ≢ null = omega arith in
    insert-Links (s.next q) (s.prev q) _ _ a i fresh (link_after-next s q a i)
      (λ k. link_after-prev s q a i k bound) b p xs ys d out queue

-- `om_queue_link_before` on the first slot `h` of a queue with NULL before it puts slot `i` in
-- front, and leaves the members in their order. Slot `i` is a slot that is not in the queue.
pub link_before-IsQueue :
    (s : Slab) (q h i p : ℕ) (ys : List ℕ)
    → s.capacity ≤ uint32_max
    → i < s.capacity
    → Distinct (h ∷ ys)
    → NotIn i (h ∷ ys)
    → IsQueue s q null p (h ∷ ys)
    → IsQueue (link_before s h i q) q null i (i ∷ h ∷ ys)
unfolding link_before
link_before-IsQueue s q h i p ys fits inside d out (here, real, back, rest) =
    let s' = link_before s h i q in
    let next_i : s'.next q i ≡ h = ground arith in
    let next_h : s'.next q h ≡ s.next q h = ground (arith, out.0) in
    let front : Links (s'.next q) (s'.prev q) i h (h ∷ ys) = (
      refl,
      real,
      ground arith,
      rw next_h (
          Links-frame (s.next q) (s.prev q) _ _ h (s.next q h) ys
            (Agree-outside _ _ i h h ys (λ k a b c. ground arith) out.1 d.0 d.0)
            (Agree-outside _ _ i h h ys (λ k a b c. ground arith) out.1 d.0 d.0) rest),
    ) in
    (refl, omega arith, ground (arith, out.0), rw next_i front)
