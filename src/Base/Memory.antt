-- ===== src/Base/Memory.antt =====
-- A C array as a function of the index. A write changes one cell.
use Prim.Native.Nat.{ℕ, zero, suc, ◌<◌}
use mathlib.Core.Path.{◌≡◌, ◌∙◌}
use mathlib.Core.Logic.{◌≢◌, inl, inr}
use mathlib.Core.Bool.{◌&&◌}
use native.Mathlib.Omega.{arith}
use veloxmatch.Base.Tests.{ℕ-cases, ◌==◌, if◌then◌else◌}

abbrev pub Array {ℓ} : Type ℓ → Type ℓ
Array A = ℕ → A

module _ {ℓ} {A : Type ℓ} where
  abbrev pub update : Array A → ℕ → A → Array A
  update f i v j = if i == j then v else f j

  -- a two-dimensional array
  abbrev pub update₂ : Array (Array A) → ℕ → ℕ → A → Array (Array A)
  update₂ f q i v r j = if (q == r) && (i == j) then v else f r j

  -- The loop `for (i = 0; i < n; i++) f[i] = v i;`
  abbrev pub set_below : ℕ → Array A → Array A → Array A
  set_below zero v f = f
  set_below (suc n) v f = update (set_below n v f) n (v n)

  pub update_self : (f : Array A) (i : ℕ) (v : A) → update f i v i ≡ v
  update_self f i v = ground arith

  pub update_ne : (f : Array A) {i j : ℕ} (v : A) → i ≢ j → update f i v j ≡ f j
  update_ne f v h = ground arith

  pub set_below_lt : (n : ℕ) (v f : Array A) (i : ℕ) → i < n → set_below n v f i ≡ v i
  set_below_lt zero v f i lt = absurd (omega (arith, lt))
  set_below_lt (suc n) v f i lt = elim (ℕ-cases n i) [
    | inl is ↦ rw is (update_self (set_below i v f) i (v i))
    | inr ne ↦ update_ne (set_below n v f) (v n) ne ∙ set_below_lt n v f i (omega (arith, lt, ne))
  ]
