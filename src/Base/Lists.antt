-- ===== src/Base/Lists.antt =====
-- Lists measured and indexed by native numbers, under the library's names.
use Prim.Native.Nat.{ℕ, zero, suc, ◌+◌, ◌-◌, ◌≤◌, ◌<◌, min}
use mathlib.Core.Path.{◌≡◌, refl, ap, sym, ◌∙◌}
use mathlib.Core.List.{List, [], ◌∷◌, ◌++◌}
use mathlib.Core.Logic.{◌⊎◌, inl, inr}
use mathlib.Core.Option.{Option, none, some}
use native.Mathlib.Omega.{arith}

module _ {ℓ} {A : Type ℓ} where
  abbrev pub length : List A → ℕ
  length [] = 0
  length (x ∷ xs) = suc (length xs)

  abbrev pub get_elem? : List A → ℕ → Option A
  get_elem? [] i = none
  get_elem? (x ∷ xs) zero = some x
  get_elem? (x ∷ xs) (suc i) = get_elem? xs i

  abbrev pub take : ℕ → List A → List A
  take zero xs = []
  take (suc n) [] = []
  take (suc n) (x ∷ xs) = x ∷ take n xs

  abbrev pub drop : ℕ → List A → List A
  drop zero xs = xs
  drop (suc n) [] = []
  drop (suc n) (x ∷ xs) = drop n xs

  abbrev pub replicate : ℕ → A → List A
  replicate zero a = []
  replicate (suc n) a = a ∷ replicate n a

  pub length-append : (xs ys : List A) → length (xs ++ ys) ≡ length xs + length ys
  length-append [] ys = omega arith
  length-append (x ∷ xs) ys = omega (arith, length-append xs ys)

  pub length-replicate : (n : ℕ) (a : A) → length (replicate n a) ≡ n
  length-replicate zero a = refl
  length-replicate (suc n) a = ap suc (length-replicate n a)

  pub take-length-append : (xs ys : List A) → take (length xs) (xs ++ ys) ≡ xs
  take-length-append [] ys = refl
  take-length-append (x ∷ xs) ys = ap (◌∷◌ x) (take-length-append xs ys)

  pub drop-length-append : (xs ys : List A) → drop (length xs) (xs ++ ys) ≡ ys
  drop-length-append [] ys = refl
  drop-length-append (x ∷ xs) ys = drop-length-append xs ys

  pub get_elem?-append_length :
      (xs ys : List A) (y : A) → get_elem? (xs ++ (y ∷ ys)) (length xs) ≡ some y
  get_elem?-append_length [] ys y = refl
  get_elem?-append_length (x ∷ xs) ys y = get_elem?-append_length xs ys y

  pub get_elem?-append_left :
      (xs ys : List A) (i : ℕ) → i < length xs → get_elem? (xs ++ ys) i ≡ get_elem? xs i
  get_elem?-append_left [] ys i h = absurd (omega arith)
  get_elem?-append_left (x ∷ xs) ys zero h = refl
  get_elem?-append_left (x ∷ xs) ys (suc i) h = get_elem?-append_left xs ys i (omega arith)

  pub length-take : (n : ℕ) (xs : List A) → length (take n xs) ≡ min n (length xs)
  length-take zero xs = omega arith
  length-take (suc n) [] = omega arith
  length-take (suc n) (x ∷ xs) = omega (arith, length-take n xs)

  pub take-suc :
      (n : ℕ) (xs : List A) (x : A)
      → get_elem? xs n ≡ some x
      → take (suc n) xs ≡ take n xs ++ (x ∷ [])
  take-suc n [] x e = cc
  take-suc zero (y ∷ ys) x e = ground arith
  take-suc (suc n) (y ∷ ys) x e = ap (◌∷◌ y) (take-suc n ys x e)

  pub take-append_left : (n : ℕ) (xs ys : List A) → n ≤ length xs → take n (xs ++ ys) ≡ take n xs
  take-append_left zero xs ys h = refl
  take-append_left (suc n) [] ys h = absurd (omega arith)
  take-append_left (suc n) (x ∷ xs) ys h = ap (◌∷◌ x) (take-append_left n xs ys (omega arith))

  drop-nil : (n : ℕ) (xs : List A) → xs ≡ [] → drop n xs ≡ []
  drop-nil zero xs e = e
  drop-nil (suc n) [] e = refl
  drop-nil (suc n) (x ∷ xs) e = cc

  pub drop-drop : (n m : ℕ) (xs : List A) → drop n (drop m xs) ≡ drop (m + n) xs
  drop-drop n zero xs = ap (λ k. drop k xs) (omega arith)
  drop-drop n (suc m) [] = drop-nil n [] refl ∙ sym (drop-nil (suc m + n) [] refl)
  drop-drop n (suc m) (x ∷ xs) =
      let sum : suc m + n ≡ suc (m + n) = omega arith in rw sum (drop-drop n m xs)

  pub length-drop : (n : ℕ) (xs : List A) → length (drop n xs) ≡ length xs - n
  length-drop zero xs = omega arith
  length-drop (suc n) [] = omega arith
  length-drop (suc n) (x ∷ xs) = omega (arith, length-drop n xs)

  pub take-append_drop : (n : ℕ) (xs : List A) → take n xs ++ drop n xs ≡ xs
  take-append_drop zero xs = refl
  take-append_drop (suc n) [] = refl
  take-append_drop (suc n) (x ∷ xs) = ap (◌∷◌ x) (take-append_drop n xs)

  -- A list that is long enough holds the front of what it is the front of.
  pub append-front :
      (zs ws xs ys : List A)
      → xs ++ ys ≡ zs ++ ws
      → length zs ≤ length xs
      → (t : List A) × (xs ≡ zs ++ t) × (t ++ ys ≡ ws)
  append-front [] ws xs ys e h = (xs, refl, e)
  append-front (z ∷ zs) ws [] ys e h = absurd (omega arith)
  append-front (z ∷ zs) ws (x ∷ xs) ys e h =
      let tails : xs ++ ys ≡ zs ++ ws = ap (drop 1) e in
      let heads : some x ≡ some z = ap (λ l. get_elem? l 0) e in
      let (t, is, rest) = append-front zs ws xs ys tails (omega arith) in (t, cc, rest)

  pub get_elem?-length : (xs : List A) (i : ℕ) (x : A) → get_elem? xs i ≡ some x → i < length xs
  get_elem?-length [] i x e = cc
  get_elem?-length (y ∷ ys) zero x e = omega arith
  get_elem?-length (y ∷ ys) (suc i) x e = omega (arith, get_elem?-length ys i x e)

  pub get_elem?-snoc :
      (xs : List A) (x : A) (i : ℕ) (y : A)
      → get_elem? (xs ++ (x ∷ [])) i ≡ some y
      → (get_elem? xs i ≡ some y) ⊎ ((i ≡ length xs) × (y ≡ x))
  get_elem?-snoc [] x zero y e = inr (refl, cc)
  get_elem?-snoc [] x (suc i) y e = cc
  get_elem?-snoc (z ∷ zs) x zero y e = inl e
  get_elem?-snoc (z ∷ zs) x (suc i) y e = elim (get_elem?-snoc zs x i y e) [
    | inl old ↦ inl old
    | inr (at, is) ↦ inr (ap suc at, is)
  ]
