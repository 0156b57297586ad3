-- ===== src/Common/Bits.antt =====
-- Laws of `bit_and` and `bit_or` at variables: masks and disjoint fields as arithmetic.
use Prim.Native.Nat.{ℕ, zero, suc, ◌+◌, ◌-◌, ◌*◌, ◌/◌, ◌%◌, ◌^◌, ◌≤◌, ◌<◌, min, max}
use Prim.Native.Nat.{bit_and, bit_or, digits, bit_and-bitwise, bit_or-bitwise}
use mathlib.Core.Path.{◌≡◌, refl, sym, ap, ◌∙◌}
use native.Mathlib.Omega.{arith}
use native.Mathlib.Nat.{
  pow-suc, add-mul-mod_self_left, mod-eq_of_lt, mod-lt, div-add-mod, div-div-eq-div-mul,
}

-- The digit recursion behind both operations: any fuel that covers the first argument gives one value.
module _ (rest : ℕ → ℕ) (digit : ℕ → ℕ → ℕ) where
  fuel_irrelevant :
      (y f x g : ℕ) → (x ≤ f) × (x ≤ g) → digits rest digit f x y ≡ digits rest digit g x y
  fuel_irrelevant y zero zero zero room = refl
  fuel_irrelevant y (suc f) zero zero room = refl
  fuel_irrelevant y zero zero (suc g) room = refl
  fuel_irrelevant y (suc f) zero (suc g) room = refl
  fuel_irrelevant y zero (suc x) g (room, _) = absurd (omega arith)
  fuel_irrelevant y (suc f) (suc x) zero (_, room) = absurd (omega arith)
  fuel_irrelevant y (suc f) (suc x) (suc g) room =
      let deeper = fuel_irrelevant (y / 2) f (suc x / 2) g (omega arith, omega arith) in omega arith

  -- One digit, and the same operation on the halves.
  lowest_digit :
      (x y : ℕ)
      → digits rest digit (suc x) (suc x) y
        ≡ digits rest digit (suc x / 2) (suc x / 2) (y / 2) * 2 + digit (suc x % 2) (y % 2)
  lowest_digit x y =
      let halves = fuel_irrelevant (y / 2) x (suc x / 2) (suc x / 2) (omega arith, omega arith) in
      omega arith

zero-bit_and : (y : ℕ) → bit_and 0 y ≡ 0
zero-bit_and y = bit_and-bitwise 0 y

zero-bit_or : (y : ℕ) → bit_or 0 y ≡ y
zero-bit_or y = bit_or-bitwise 0 y

bit_and_step : (x y : ℕ) → bit_and x y ≡ bit_and (x / 2) (y / 2) * 2 + min (x % 2) (y % 2)
bit_and_step zero y = omega (arith, zero-bit_and)
bit_and_step (suc x) y = omega (arith, bit_and-bitwise, lowest_digit (λ _. zero) min x y)

bit_or_step : (x y : ℕ) → bit_or x y ≡ bit_or (x / 2) (y / 2) * 2 + max (x % 2) (y % 2)
bit_or_step zero y = omega (arith, zero-bit_or)
bit_or_step (suc x) y = omega (arith, bit_or-bitwise, lowest_digit (λ t. t) max x y)

-- The right argument 0, by strong induction on the left one.
right_zero : (n x : ℕ) → x ≤ n → (bit_and x 0 ≡ 0) × (bit_or x 0 ≡ x)
right_zero n zero room = (refl, refl)
right_zero zero (suc x) room = absurd (omega arith)
right_zero (suc n) (suc x) room =
    let half = right_zero n (suc x / 2) (omega arith) in
    omega (arith, bit_and_step (suc x) 0, bit_or_step (suc x) 0)

bit_and-zero : (x : ℕ) → bit_and x 0 ≡ 0
bit_and-zero x = (right_zero x x (omega arith)).0

bit_or-zero : (x : ℕ) → bit_or x 0 ≡ x
bit_or-zero x = (right_zero x x (omega arith)).1

pub two_pow : (k : ℕ) → 2 ^ suc k ≡ 2 * 2 ^ k
two_pow k = omega (arith, pow-suc 2 k)

pub one-le-two_pow : (k : ℕ) → 1 ≤ 2 ^ k
one-le-two_pow zero = omega arith
one-le-two_pow (suc k) = omega (arith, two_pow k, one-le-two_pow k)

-- Halving goes through the remainder and the quotient by a power.
mod_step : (x m : ℕ) → 1 ≤ m → x % (2 * m) ≡ x / 2 % m * 2 + x % 2
mod_step x m h =
    ap (λ (t : ℕ). t % (2 * m)) split
    ∙ add-mul-mod_self_left (x / 2 % m * 2 + x % 2) (2 * m) (x / 2 / m)
    ∙ mod-eq_of_lt (omega (arith, mod-lt (x / 2) h))
  where
    split : x ≡ (x / 2 % m * 2 + x % 2) + 2 * m * (x / 2 / m)
    split = omega (arith, div-add-mod (x / 2) m)

-- A mask of the low `k` bits.
pub bit_and-low : (k x : ℕ) → bit_and x (2 ^ k - 1) ≡ x % 2 ^ k
bit_and-low zero x = omega (arith, bit_and-zero x)
bit_and-low (suc k) x = omega (
  arith,
  two_pow k,
  one-le-two_pow k,
  bit_and_step x (2 ^ suc k - 1),
  ap (λ (t : ℕ). bit_and (x / 2) t) halved,
  bit_and-low k (x / 2),
  ap (λ (t : ℕ). x % t) (two_pow k),
  mod_step x (2 ^ k) (one-le-two_pow k),
)
  where
    halved : (2 ^ suc k - 1) / 2 ≡ 2 ^ k - 1
    halved = omega (arith, two_pow k, one-le-two_pow k)

-- A mask of `k` bits from bit `s` on.
pub bit_and-field : (k s x : ℕ) → bit_and x ((2 ^ k - 1) * 2 ^ s) ≡ x / 2 ^ s % 2 ^ k * 2 ^ s
bit_and-field k zero x =
    omega
      (arith, ap (λ (t : ℕ). bit_and x t) unit, bit_and-low k x, ap (λ (t : ℕ). t % 2 ^ k) whole)
  where
    unit : (2 ^ k - 1) * 2 ^ 0 ≡ 2 ^ k - 1
    unit = omega arith

    whole : x / 2 ^ 0 ≡ x
    whole = omega arith
bit_and-field k (suc s) x = omega (
  arith,
  bit_and_step x ((2 ^ k - 1) * 2 ^ suc s),
  ap (λ (t : ℕ). bit_and (x / 2) t) halved,
  even,
  bit_and-field k s (x / 2),
  ap (λ (t : ℕ). t % 2 ^ k * 2 ^ s) shifted,
  ap (λ (t : ℕ). x / 2 ^ suc s % 2 ^ k * t) (two_pow s),
)
  where
    shifted : x / 2 / 2 ^ s ≡ x / 2 ^ suc s
    shifted = div-div-eq-div-mul x 2 (2 ^ s) ∙ ap (λ (t : ℕ). x / t) (sym (two_pow s))

    doubled : (2 ^ k - 1) * 2 ^ suc s ≡ 2 * ((2 ^ k - 1) * 2 ^ s)
    doubled = omega (arith, ap (λ (t : ℕ). (2 ^ k - 1) * t) (two_pow s))

    halved : (2 ^ k - 1) * 2 ^ suc s / 2 ≡ (2 ^ k - 1) * 2 ^ s
    halved = omega (arith, doubled)

    even : (2 ^ k - 1) * 2 ^ suc s % 2 ≡ 0
    even = omega (arith, doubled)

-- A value with its low `k` bits clear, or'ed with a value of `k` bits.
pub bit_or-disjoint : (k a b : ℕ) → b < 2 ^ k → bit_or (a * 2 ^ k) b ≡ a * 2 ^ k + b
bit_or-disjoint zero a b h = omega (arith, bit_or_zero, ap (λ (t : ℕ). bit_or (a * 2 ^ 0) t) none)
  where
    none : b ≡ 0
    none = omega arith

    bit_or_zero : bit_or (a * 2 ^ 0) 0 ≡ a * 2 ^ 0
    bit_or_zero = bit_or-zero (a * 2 ^ 0)
bit_or-disjoint (suc k) a b h = omega (
  arith,
  bit_or_step (a * 2 ^ suc k) b,
  ap (λ (t : ℕ). bit_or t (b / 2)) halved,
  even,
  bit_or-disjoint k a (b / 2) (omega (arith, two_pow k)),
  doubled,
)
  where
    doubled : a * 2 ^ suc k ≡ 2 * (a * 2 ^ k)
    doubled = omega (arith, ap (λ (t : ℕ). a * t) (two_pow k))

    halved : a * 2 ^ suc k / 2 ≡ a * 2 ^ k
    halved = omega (arith, doubled)

    even : a * 2 ^ suc k % 2 ≡ 0
    even = omega (arith, doubled)

bit_or_comm_fuel : (n a b : ℕ) → a ≤ n → bit_or a b ≡ bit_or b a
bit_or_comm_fuel n zero b h = omega (arith, zero-bit_or b, bit_or-zero b)
bit_or_comm_fuel zero (suc a) b h = absurd (omega arith)
bit_or_comm_fuel (suc n) (suc a) b h = omega (
  arith,
  bit_or_step (suc a) b,
  bit_or_step b (suc a),
  bit_or_comm_fuel n (suc a / 2) (b / 2) (omega arith),
)

pub bit_or_comm : (a b : ℕ) → bit_or a b ≡ bit_or b a
bit_or_comm a b = bit_or_comm_fuel a a b (omega arith)
