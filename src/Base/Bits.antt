-- ===== src/Base/Bits.antt =====
-- Laws of the native `&` and `|` at variables: the step over the lowest digit, masks of low ones,
-- and sums of numbers with no digit in common.
use Prim.Native.Nat.{
  ℕ, zero, suc, ◌+◌, ◌-◌, ◌*◌, ◌^◌, ◌/◌, ◌%◌, ◌≤◌, ◌<◌, min, max, bit_and, bit_or, digits,
  bit_and-bitwise, bit_or-bitwise,
}
use mathlib.Core.Path.{◌≡◌, refl, ap, ◌∙◌, ◌≡⟨◌⟩◌, ◌∎}
use native.Mathlib.Nat.{
  pow-zero, pow-suc, one-le-pow, mod-lt, mod-eq_of_lt, add-mul-mod_self_right, div-add-mod',
  div-div-eq-div-mul,
}
use native.Mathlib.Decide.{ℕ_discrete}
use native.Mathlib.Omega.{arith}

-- The count of digits is fuel. It may be any number that is not below the first argument.
module _ (z : ℕ → ℕ) (f : ℕ → ℕ → ℕ) where
  digits_extra : (n a b : ℕ) → a ≤ n → digits z f (suc n) a b ≡ digits z f n a b
  digits_extra zero zero b h = refl
  digits_extra zero (suc a) b h = absurd (omega arith)
  digits_extra (suc n) zero b h = refl
  digits_extra (suc n) (suc a) b h =
      ap (λ t. t * 2 + f (suc a % 2) (b % 2)) (digits_extra n (suc a / 2) (b / 2) (omega arith))

  digits_fixed : (n a b : ℕ) → a ≤ n → digits z f n a b ≡ digits z f a a b
  digits_fixed zero a b h = let e : a ≡ zero = omega arith in rw e
  digits_fixed (suc n) a b h = elim (ℕ_discrete a (suc n)) [
    | yes e ↦ rw e
    | no ne ↦ digits_extra n a b (omega arith) ∙ digits_fixed n a b (omega arith)
  ]

  -- One digit, and the others: for an operation that goes on digit by digit after the first number.
  digits_step :
      ((b : ℕ) → z b ≡ z (b / 2) * 2 + f 0 (b % 2))
      → (a b : ℕ) → digits z f a a b ≡ digits z f (a / 2) (a / 2) (b / 2) * 2 + f (a % 2) (b % 2)
  digits_step h zero b = h b
  digits_step h (suc a) b =
      ap (λ t. t * 2 + f (suc a % 2) (b % 2)) (digits_fixed a (suc a / 2) (b / 2) (omega arith))

-- `&` and `|`, digit by digit.
pub bit_and_step : (x y : ℕ) → bit_and x y ≡ bit_and (x / 2) (y / 2) * 2 + min (x % 2) (y % 2)
bit_and_step x y = omega (
  arith,
  digits_step (λ _. zero) min (λ y. omega arith) x y,
  bit_and-bitwise x y,
  bit_and-bitwise (x / 2) (y / 2),
)

pub bit_or_step : (x y : ℕ) → bit_or x y ≡ bit_or (x / 2) (y / 2) * 2 + max (x % 2) (y % 2)
bit_or_step x y = omega (
  arith,
  digits_step (λ y. y) max (λ y. omega arith) x y,
  bit_or-bitwise x y,
  bit_or-bitwise (x / 2) (y / 2),
)

-- No digit on the right: `&` gives nothing and `|` the left number.
no_digits : (bound x : ℕ) → x ≤ bound → (bit_and x 0 ≡ 0) × (bit_or x 0 ≡ x)
no_digits bound zero h = (refl, refl)
no_digits zero (suc x) h = absurd (omega arith)
no_digits (suc bound) (suc x) h =
    let ih = no_digits bound (suc x / 2) (omega arith) in
    (omega (arith, ih.0, bit_and_step (suc x) 0), omega (arith, ih.1, bit_or_step (suc x) 0))

pub bit_and-zero : (x : ℕ) → bit_and x 0 ≡ 0
bit_and-zero x = (no_digits x x (omega arith)).0

pub bit_or-zero : (x : ℕ) → bit_or x 0 ≡ x
bit_or-zero x = (no_digits x x (omega arith)).1

-- A remainder of twice a modulus, by the lowest digit and the rest.
mod-double : (a m : ℕ) → 0 < m → a % (m * 2) ≡ a / 2 % m * 2 + a % 2
mod-double a m h =
    a % (m * 2)
    ≡⟨ ap (λ n. n % (m * 2)) split ⟩ (low + a / 2 / m * (m * 2)) % (m * 2)
    ≡⟨ add-mul-mod_self_right low (a / 2 / m) (m * 2) ⟩ low % (m * 2)
    ≡⟨ mod-eq_of_lt (omega (arith, mod-lt (a / 2) h)) ⟩ low ∎
  where
    low : ℕ
    low = a / 2 % m * 2 + a % 2

    split : a ≡ low + a / 2 / m * (m * 2)
    split = omega (arith, div-add-mod' (a / 2) m)

-- A mask of `k` low ones takes a remainder.
pub bit_and-ones : (k a : ℕ) → bit_and a (2 ^ k - 1) ≡ a % 2 ^ k
bit_and-ones zero a = rw (pow-zero) (omega (arith, bit_and-zero a))
bit_and-ones (suc k) a =
    let m : ℕ = 2 ^ k in
    let pos : 0 < 2 ^ k = one-le-pow k 2 (omega arith) in
    let half : (2 ^ k * 2 - 1) / 2 ≡ 2 ^ k - 1 = omega arith in
    rw (pow-suc, mod-double a (2 ^ k) pos, bit_and_step, half, bit_and-ones k (a / 2)) (omega arith)

-- A sum whose parts share no digit: a multiple of 2 ^ k, and a number below it.
pub bit_or-add : (k a b : ℕ) → b < 2 ^ k → bit_or (a * 2 ^ k) b ≡ a * 2 ^ k + b
bit_or-add zero a b h =
    let e : b ≡ 0 = omega arith in
    let one : a * 1 ≡ a = omega arith in rw (e, one) (omega (arith, bit_or-zero a))
bit_or-add (suc k) a b h =
    bit_or (a * 2 ^ suc k) b
    ≡⟨ rw shape (bit_or_step (a * 2 ^ k * 2) b) ⟩
      bit_or (a * 2 ^ k * 2 / 2) (b / 2) * 2 + max (a * 2 ^ k * 2 % 2) (b % 2)
    ≡⟨ ap (λ x. bit_or x (b / 2) * 2 + max (a * 2 ^ k * 2 % 2) (b % 2)) (omega arith) ⟩
      bit_or (a * 2 ^ k) (b / 2) * 2 + max (a * 2 ^ k * 2 % 2) (b % 2)
    ≡⟨ omega (arith, bit_or-add k a (b / 2) (omega (arith, pow-suc 2 k)), shape) ⟩
      a * 2 ^ suc k + b ∎
  where
    shape : a * 2 ^ suc k ≡ a * 2 ^ k * 2
    shape = rw pow-suc (omega arith)

-- A mask that is shifted left by `k` digits.
pub bit_and-shift : (k x m : ℕ) → bit_and x (m * 2 ^ k) ≡ bit_and (x / 2 ^ k) m * 2 ^ k
bit_and-shift zero x m =
    let one : m * 1 ≡ m = omega arith in
    let whole : x / 1 ≡ x = omega arith in rw (one, whole) (omega arith)
bit_and-shift (suc k) x m =
    bit_and x (m * 2 ^ suc k)
    ≡⟨ rw shape (bit_and_step x (m * 2 ^ k * 2)) ⟩
      bit_and (x / 2) (m * 2 ^ k * 2 / 2) * 2 + min (x % 2) (m * 2 ^ k * 2 % 2)
    ≡⟨ ap (λ y. bit_and (x / 2) y * 2 + min (x % 2) (m * 2 ^ k * 2 % 2)) (omega arith) ⟩
      bit_and (x / 2) (m * 2 ^ k) * 2 + min (x % 2) (m * 2 ^ k * 2 % 2)
    ≡⟨ omega (arith, bit_and-shift k (x / 2) m) ⟩ bit_and (x / 2 / 2 ^ k) m * 2 ^ k * 2
    ≡⟨ ap (λ y. bit_and y m * 2 ^ k * 2) (div-div-eq-div-mul x 2 (2 ^ k) ∙ ap (λ y. x / y) turn) ⟩
      bit_and (x / 2 ^ suc k) m * 2 ^ k * 2
    ≡⟨ rw pow-suc (omega arith) ⟩ bit_and (x / 2 ^ suc k) m * 2 ^ suc k ∎
  where
    shape : m * 2 ^ suc k ≡ m * 2 ^ k * 2
    shape = rw pow-suc (omega arith)

    turn : 2 * 2 ^ k ≡ 2 ^ suc k
    turn = rw pow-suc (omega arith)
