-- ===== src/Slab/Queue/Links.antt =====
-- Doubly linked lists of slots, as the intrusive queues of include/openmatch/om_slab.h keep them.
use veloxmatch.Base.{ℕ, ◌<◌, ◌≡◌, ◌≢◌, refl, sym, ◌∙◌, ◌⊎◌, inl, inr, List, [], ◌∷◌, ◌++◌, Array}
use veloxmatch.Slab.{null}
use veloxmatch.Slab.FreeList.{NotIn, Distinct, Below}

-- From `p`, with `b` before it, the links lead through `xs`, and back.
abbrev pub Links : Array ℕ → Array ℕ → ℕ → ℕ → List ℕ → Type 0
Links nxt prv b p [] = p ≡ null
Links nxt prv b p (x ∷ xs) = (p ≡ x) × (x ≢ null) × (prv x ≡ b) × Links nxt prv x (nxt x) xs

-- Two arrays agree at the members of a list.
abbrev pub Agree : Array ℕ → Array ℕ → List ℕ → Type 0
Agree f g [] = Unit {0}
Agree f g (x ∷ xs) = (g x ≡ f x) × Agree f g xs

-- They agree outside three indices.
pub Agree-outside :
    (f g : Array ℕ) (i j l : ℕ) (xs : List ℕ)
    → ((k : ℕ) → i ≢ k → j ≢ k → l ≢ k → g k ≡ f k)
    → NotIn i xs
    → NotIn j xs
    → NotIn l xs
    → Agree f g xs
Agree-outside f g i j l [] same a b c = tt
Agree-outside f g i j l (x ∷ xs) same a b c =
    (same x a.0 b.0 c.0, Agree-outside f g i j l xs same a.1 b.1 c.1)

pub Links-frame :
    (nxt prv nxt' prv' : Array ℕ) (b p : ℕ) (xs : List ℕ)
    → Agree nxt nxt' xs
    → Agree prv prv' xs
    → Links nxt prv b p xs
    → Links nxt' prv' b p xs
Links-frame nxt prv nxt' prv' b p [] f g l = l
Links-frame nxt prv nxt' prv' b p (x ∷ xs) (f, fs) (g, gs) (at, ne, back, rest) =
    (at, ne, g ∙ back, rw f (Links-frame nxt prv nxt' prv' x (nxt x) xs fs gs rest))

pub NotIn-append : (i : ℕ) (xs ys : List ℕ) → NotIn i (xs ++ ys) → NotIn i xs × NotIn i ys
NotIn-append i [] ys h = (tt, h)
NotIn-append i (x ∷ xs) ys h = let (a, b) = NotIn-append i xs ys h.1 in ((h.0, a), b)

pub Below-append : (n : ℕ) (xs ys : List ℕ) → Below n (xs ++ ys) → Below n xs × Below n ys
Below-append n [] ys h = (tt, h)
Below-append n (x ∷ xs) ys h = let (a, b) = Below-append n xs ys h.1 in ((h.0, a), b)

pub append-NotIn : (i : ℕ) (xs ys : List ℕ) → NotIn i xs → NotIn i ys → NotIn i (xs ++ ys)
append-NotIn i [] ys a b = b
append-NotIn i (x ∷ xs) ys a b = (a.0, append-NotIn i xs ys a.1 b)

-- A member of the back part is not in the front part.
pub Distinct-split :
    (xs : List ℕ) (x : ℕ) (ys : List ℕ)
    → Distinct (xs ++ (x ∷ ys))
    → NotIn x xs × NotIn x ys × Distinct ys
Distinct-split [] x ys d = (tt, d.0, d.1)
Distinct-split (w ∷ ws) x ys d =
    let (a, b, c) = Distinct-split ws x ys d.1 in
    let out = (NotIn-append w ws (x ∷ ys) d.0).1.0 in ((λ e. out (sym e), a), b, c)

-- The index that follows the first `x`: where the links from `x` lead.
abbrev pub first_or_null : List ℕ → ℕ
first_or_null [] = null
first_or_null (x ∷ xs) = x

pub Links-first :
    (nxt prv : Array ℕ) (b p : ℕ) (xs : List ℕ) → Links nxt prv b p xs → p ≡ first_or_null xs
Links-first nxt prv b p [] l = l
Links-first nxt prv b p (x ∷ xs) l = l.0

pub first_bound :
    (n : ℕ) (xs : List ℕ) → Below n xs → (first_or_null xs ≡ null) ⊎ (first_or_null xs < n)
first_bound n [] h = inl refl
first_bound n (x ∷ xs) h = inr h.0

-- The links after a member: where it points, and that the rest is linked behind it.
pub Links-at :
    (nxt prv : Array ℕ) (b p : ℕ) (xs : List ℕ) (x : ℕ) (ys : List ℕ)
    → Links nxt prv b p (xs ++ (x ∷ ys))
    → (x ≢ null) × Links nxt prv x (nxt x) ys
Links-at nxt prv b p [] x ys l = (l.1, l.3)
Links-at nxt prv b p (w ∷ ws) x ys l = Links-at nxt prv w (nxt w) ws x ys l.3
