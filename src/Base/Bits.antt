-- ===== src/Base/Bits.antt =====
-- Masks and powers of two: `x & (c - 1)` is `x % c` where `c & (c - 1)` is 0.
use Prim.Native.Nat.{
  ℕ, zero, suc, ◌+◌, ◌-◌, ◌*◌, ◌/◌, ◌%◌, ◌≤◌, ◌<◌, min, bit_and, digits, bit_and-bitwise, bit_xor,
  bit_xor-bitwise, differ, ◌^◌,
}
use mathlib.Core.Path.{◌≡◌, refl}
use mathlib.Core.Logic.{◌≢◌}
use mathlib.Core.Bool.{Bool, true, not, ◌&&◌}
use native.Mathlib.Nat.{div-add-mod, div-div-eq-div-mul}
use native.Mathlib.Decide.{dec_lt, ℕ_discrete}
use native.Mathlib.Omega.{arith}
use veloxmatch.Base.Tests.{◌==◌}

-- `v != 0 && (v & (v - 1)) == 0`
abbrev pub is_power_of_two : ℕ → Bool
is_power_of_two v = not (v == 0) && (bit_and v (v - 1) == 0)

low_fuel : (n m a b : ℕ) → a ≤ n → a ≤ m → digits (λ _. 0) min n a b ≡ digits (λ _. 0) min m a b
low_fuel zero zero a b p q = refl
low_fuel zero (suc m) zero b p q = refl
low_fuel zero (suc m) (suc a) b p q = absurd (omega arith)
low_fuel (suc n) zero zero b p q = refl
low_fuel (suc n) zero (suc a) b p q = absurd (omega arith)
low_fuel (suc n) (suc m) zero b p q = refl
low_fuel (suc n) (suc m) (suc a) b p q =
    omega (arith, low_fuel n m (suc a / 2) (b / 2) (omega arith) (omega arith))

-- The lowest digit of a conjunction.
pub and_step : (a b : ℕ) → bit_and a b ≡ bit_and (a / 2) (b / 2) * 2 + min (a % 2) (b % 2)
and_step zero b = omega (arith, bit_and-bitwise 0 b, bit_and-bitwise 0 (b / 2))
and_step (suc a) b = omega (
  arith,
  bit_and-bitwise (suc a) b,
  bit_and-bitwise (suc a / 2) (b / 2),
  low_fuel a (suc a / 2) (suc a / 2) (b / 2) (omega arith) (omega arith),
)

and-zero_fuel : (n a : ℕ) → a ≤ n → bit_and a 0 ≡ 0
and-zero_fuel zero zero h = bit_and-bitwise 0 0
and-zero_fuel zero (suc a) h = absurd (omega arith)
and-zero_fuel (suc n) zero h = bit_and-bitwise 0 0
and-zero_fuel (suc n) (suc a) h =
    omega (arith, and_step (suc a) 0, and-zero_fuel n (suc a / 2) (omega arith))

pub and-zero : (a : ℕ) → bit_and a 0 ≡ 0
and-zero a = and-zero_fuel a a (omega arith)

and_self_fuel : (n a : ℕ) → a ≤ n → bit_and a a ≡ a
and_self_fuel zero zero h = bit_and-bitwise 0 0
and_self_fuel zero (suc a) h = absurd (omega arith)
and_self_fuel (suc n) zero h = bit_and-bitwise 0 0
and_self_fuel (suc n) (suc a) h =
    omega (arith, and_step (suc a) (suc a), and_self_fuel n (suc a / 2) (omega arith))

pub and_self : (a : ℕ) → bit_and a a ≡ a
and_self a = and_self_fuel a a (omega arith)

-- Powers of two by halving.
pub data IsPow2 : ℕ → Type 0 where
  one : (v : ℕ) → v ≡ 1 → IsPow2 v
  twice : (v u : ℕ) → v ≡ 2 * u → IsPow2 u → IsPow2 v

-- `x % c` by the digits of `x`.
mod-twice : (a u : ℕ) → 0 < u → a % (2 * u) ≡ a / 2 % u * 2 + a % 2
mod-twice a u h =
    let e : 2 * u * (a / 2 / u) + a % (2 * u) ≡ a =
      rw (div-div-eq-div-mul a 2 u) (div-add-mod a (2 * u)) in
    omega (arith, e, div-add-mod (a / 2) u)

pub IsPow2-pos : {c : ℕ} → IsPow2 c → 0 < c
IsPow2-pos (one v e) = omega arith
IsPow2-pos (twice v u e p) = omega (arith, IsPow2-pos p)

-- A mask of ones is the remainder.
pub and-mask : (a : ℕ) {c : ℕ} → IsPow2 c → bit_and a (c - 1) ≡ a % c
and-mask a (one v e) = rw e (omega (arith, and-zero a))
and-mask a (twice v u e p) =
    let half : (v - 1) / 2 ≡ u - 1 = omega (arith, IsPow2-pos p) in
    let low : min (a % 2) ((v - 1) % 2) ≡ a % 2 = omega (arith, IsPow2-pos p) in
    rw (and_step a (v - 1), half, low, and-mask (a / 2) p, e)
      (omega (arith, mod-twice a u (IsPow2-pos p)))

IsPow2-fuel : (n v : ℕ) → v ≤ n → v ≢ 0 → bit_and v (v - 1) ≡ 0 → IsPow2 v
IsPow2-fuel zero v h ne e = absurd (omega arith)
IsPow2-fuel (suc n) v h ne e = elim (dec_lt v 2) [
  | yes small ↦ one v (omega arith)
  | no large ↦ elim (ℕ_discrete (v % 2) 0) [
    | yes even ↦
        let half : (v - 1) / 2 ≡ v / 2 - 1 = omega arith in
        let digits0 : bit_and (v / 2) ((v - 1) / 2) ≡ 0 = omega (arith, and_step v (v - 1)) in
        twice v (v / 2) (omega arith)
          (IsPow2-fuel n (v / 2) (omega arith) (omega arith) (rw half at digits0))
    | no odd ↦
        let half : (v - 1) / 2 ≡ v / 2 = omega arith in
        let digits0 : bit_and (v / 2) ((v - 1) / 2) ≡ 0 = omega (arith, and_step v (v - 1)) in
        let same : bit_and (v / 2) (v / 2) ≡ 0 = rw half at digits0 in
        absurd (omega (arith, and_self (v / 2)))
  ]
]

-- What the sources' test accepts.
pub is_power_of_two-IsPow2 : (v : ℕ) → is_power_of_two v ≡ true → IsPow2 v
is_power_of_two-IsPow2 v h = IsPow2-fuel v v (omega arith) (ground arith) (ground arith)

differ-bit : (x y : ℕ) → x < 2 → y < 2 → differ x y < 2
differ-bit zero y h k = k
differ-bit (suc zero) zero h k = omega arith
differ-bit (suc zero) (suc y) h k = omega arith
differ-bit (suc (suc x)) y h k = absurd (omega arith)

digits-bound : (k n a b : ℕ) → a < 2 ^ k → b < 2 ^ k → digits (λ d. d) differ n a b < 2 ^ k
digits-bound k zero a b p q = q
digits-bound k (suc n) zero b p q = q
digits-bound zero (suc n) (suc a) b p q = absurd (omega arith)
digits-bound (suc k) (suc n) (suc a) b p q =
    let power : 2 ^ suc k ≡ 2 * 2 ^ k = omega arith in
    omega (
      arith,
      power,
      digits-bound k n (suc a / 2) (b / 2) (omega arith) (omega arith),
      differ-bit (suc a % 2) (b % 2) (omega arith) (omega arith),
    )

-- Numbers of `k` bits have an exclusive or of `k` bits.
pub xor-bound : (k a b : ℕ) → a < 2 ^ k → b < 2 ^ k → bit_xor a b < 2 ^ k
xor-bound k a b p q = rw (bit_xor-bitwise a b) (digits-bound k a a b p q)
