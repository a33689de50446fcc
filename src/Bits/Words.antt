-- ===== src/Bits/Words.antt =====
-- Facts on `&`, `|` and `^` at words that are not known: their lowest digit, their shifts, and the
-- words of zeros and of ones.
use Prim.Native.Nat.{
  min, max, differ, digits, bitwise, bit_and, bit_or, bit_xor, bit_and-bitwise, bit_or-bitwise,
  bit_xor-bitwise,
}
use native.Mathlib.Nat.{pow-suc, div-div-eq-div-mul}
use computer_systems_practic.Prelude.{
  ℕ, zero, suc, ◌+◌, ◌-◌, ◌*◌, ◌/◌, ◌%◌, ◌^◌, ◌≤◌, ◌<◌, ◌≡◌, refl, sym, ◌∙◌, ap, arith, pow-pos,
}

module _ (z : ℕ → ℕ) (f : ℕ → ℕ → ℕ) where
  enough_digits : (n m a b : ℕ) → a ≤ n → a ≤ m → digits z f n a b ≡ digits z f m a b
  enough_digits zero zero a b p q = refl
  enough_digits zero (suc m) zero b p q = refl
  enough_digits zero (suc m) (suc a) b p q = absurd (omega arith)
  enough_digits (suc n) zero zero b p q = refl
  enough_digits (suc n) zero (suc a) b p q = absurd (omega arith)
  enough_digits (suc n) (suc m) zero b p q = refl
  enough_digits (suc n) (suc m) (suc a) b p q =
      rw (enough_digits n m (suc a / 2) (b / 2) (omega arith) (omega arith)) refl

  low_digit :
      (a b : ℕ)
      → bitwise z f (suc a) b ≡ bitwise z f (suc a / 2) (b / 2) * 2 + f (suc a % 2) (b % 2)
  low_digit a b =
      omega (arith, enough_digits a (suc a / 2) (suc a / 2) (b / 2) (omega arith) (omega arith))

pub bit_and-low : (a b : ℕ) → bit_and a b ≡ bit_and (a / 2) (b / 2) * 2 + min (a % 2) (b % 2)
bit_and-low zero b = simp bit_and-bitwise (omega arith)
bit_and-low (suc a) b = simp bit_and-bitwise (low_digit (λ y. 0) min a b)

pub bit_or-low : (a b : ℕ) → bit_or a b ≡ bit_or (a / 2) (b / 2) * 2 + max (a % 2) (b % 2)
bit_or-low zero b = simp bit_or-bitwise (omega arith)
bit_or-low (suc a) b = simp bit_or-bitwise (low_digit (λ y. y) max a b)

zero_differs : (b : ℕ) → differ (0 % 2) (b % 2) ≡ b % 2
zero_differs b = refl

pub bit_xor-low : (a b : ℕ) → bit_xor a b ≡ bit_xor (a / 2) (b / 2) * 2 + differ (a % 2) (b % 2)
bit_xor-low zero b = simp bit_xor-bitwise (omega (arith, zero_differs b))
bit_xor-low (suc a) b = simp bit_xor-bitwise (low_digit (λ y. y) differ a b)

pub differ_digits : (a b : ℕ) → a < 2 → b < 2 → differ a b ≡ (a + b) % 2
differ_digits zero zero p q = refl
differ_digits zero (suc zero) p q = refl
differ_digits (suc zero) zero p q = refl
differ_digits (suc zero) (suc zero) p q = refl
differ_digits (suc (suc a)) b p q = absurd (omega arith)
differ_digits zero (suc (suc b)) p q = absurd (omega arith)
differ_digits (suc zero) (suc (suc b)) p q = absurd (omega arith)

-- An operation on digits goes with shifts to the right.
module _ (op f : ℕ → ℕ → ℕ) (low : (a b : ℕ) → op a b ≡ op (a / 2) (b / 2) * 2 + f (a % 2) (b % 2))
    (digit : (a b : ℕ) → f (a % 2) (b % 2) < 2) where
  half : (a b : ℕ) → op a b / 2 ≡ op (a / 2) (b / 2)
  half a b = omega (arith, low a b, digit a b)

  shifted : (k a b : ℕ) → op a b / 2 ^ k ≡ op (a / 2 ^ k) (b / 2 ^ k)
  shifted zero a b =
      let one : (x : ℕ) → x / 2 ^ 0 ≡ x = λ x. omega arith in rw (one (op a b), one a, one b) refl
  shifted (suc k) a b =
      let split : (x : ℕ) → x / 2 ^ suc k ≡ x / 2 / 2 ^ k = λ x.
        ap (λ (t : ℕ). x / t) (pow-suc 2 k ∙ omega arith) ∙ sym (div-div-eq-div-mul x 2 (2 ^ k)) in
      rw (split (op a b), split a, split b, half a b) (shifted k (a / 2) (b / 2))

pub bit_and-shift : (k a b : ℕ) → bit_and a b / 2 ^ k ≡ bit_and (a / 2 ^ k) (b / 2 ^ k)
bit_and-shift = shifted bit_and min bit_and-low (λ a b. omega arith)

pub bit_or-shift : (k a b : ℕ) → bit_or a b / 2 ^ k ≡ bit_or (a / 2 ^ k) (b / 2 ^ k)
bit_or-shift = shifted bit_or max bit_or-low (λ a b. omega arith)

pub bit_xor-shift : (k a b : ℕ) → bit_xor a b / 2 ^ k ≡ bit_xor (a / 2 ^ k) (b / 2 ^ k)
bit_xor-shift =
    shifted bit_xor differ bit_xor-low
      (λ a b. omega (arith, differ_digits (a % 2) (b % 2) (omega arith) (omega arith)))

bit_or-ge_fuel : (n a b : ℕ) → a + b ≤ n → (a ≤ bit_or a b) × (b ≤ bit_or a b)
bit_or-ge_fuel zero a b h = (omega arith, omega arith)
bit_or-ge_fuel (suc n) a b h =
    let (p, q) = bit_or-ge_fuel n (a / 2) (b / 2) (omega arith) in
    (omega (arith, bit_or-low a b), omega (arith, bit_or-low a b))

-- A word is at most what `|` makes of it and another one.
pub bit_or-ge : (a b : ℕ) → (a ≤ bit_or a b) × (b ≤ bit_or a b)
bit_or-ge a b = bit_or-ge_fuel (a + b) a b (omega arith)

pub bit_or-zero : (k a : ℕ) → a < 2 ^ k → bit_or a 0 ≡ a
bit_or-zero zero a h = let e : a ≡ 0 = omega arith in rw e refl
bit_or-zero (suc k) a h =
    omega (arith, bit_or-low a 0, pow-suc 2 k, bit_or-zero k (a / 2) (omega (arith, pow-suc 2 k)))

pub bit_or-zero_left : (a : ℕ) → bit_or 0 a ≡ a
bit_or-zero_left a = simp bit_or-bitwise refl

pub bit_and-zero_left : (a : ℕ) → bit_and 0 a ≡ 0
bit_and-zero_left a = simp bit_and-bitwise refl

-- A word of k ones keeps a word of k bits.
pub bit_and-ones : (k a : ℕ) → a < 2 ^ k → bit_and (2 ^ k - 1) a ≡ a
bit_and-ones zero a h = let e : a ≡ 0 = omega arith in rw e refl
bit_and-ones (suc k) a h =
    let halved : (2 ^ suc k - 1) / 2 ≡ 2 ^ k - 1 = omega (arith, pow-suc 2 k, pow-pos k) in
    let rest = bit_and-ones k (a / 2) (omega (arith, pow-suc 2 k)) in
    let one : (2 ^ suc k - 1) % 2 ≡ 1 = omega (arith, pow-suc 2 k, pow-pos k) in
    bit_and-low (2 ^ suc k - 1) a ∙ (rw (halved, rest, one) (omega arith))

bit_and-le_fuel : (n a b : ℕ) → a ≤ n → bit_and a b ≤ a
bit_and-le_fuel zero a b h =
    let e : a ≡ 0 = omega arith in rw (e, bit_and-zero_left b) (omega arith)
bit_and-le_fuel (suc n) a b h =
    omega (arith, bit_and-low a b, bit_and-le_fuel n (a / 2) (b / 2) (omega arith))

pub bit_and-le : (a b : ℕ) → bit_and a b ≤ a
bit_and-le a b = bit_and-le_fuel a a b (omega arith)

-- `~` on a word of k + 1 bits, by its lowest digit.
not-half : (k x : ℕ) → x < 2 ^ suc k → (2 ^ suc k - 1 - x) / 2 ≡ 2 ^ k - 1 - x / 2
not-half k x h = omega (arith, pow-suc 2 k, pow-pos k)

not-low : (k x : ℕ) → x < 2 ^ suc k → (2 ^ suc k - 1 - x) % 2 ≡ 1 - x % 2
not-low k x h = omega (arith, pow-suc 2 k, pow-pos k)

bit_and-half : (a b : ℕ) → bit_and a b / 2 ≡ bit_and (a / 2) (b / 2)
bit_and-half a b = omega (arith, bit_and-low a b)

bit_and-digit : (a b : ℕ) → bit_and a b % 2 ≡ min (a % 2) (b % 2)
bit_and-digit a b = omega (arith, bit_and-low a b)

-- Exclusive or by `~` and `&`, on words of k bits.
pub bit_xor-by_and :
    (k a b : ℕ)
    → a < 2 ^ k
    → b < 2 ^ k
    → bit_and (2 ^ k - 1 - bit_and a b) (2 ^ k - 1 - bit_and (2 ^ k - 1 - a) (2 ^ k - 1 - b))
      ≡ bit_xor a b
bit_xor-by_and zero a b p q =
    let e : a ≡ 0 = omega arith in let e' : b ≡ 0 = omega arith in rw (e, e') refl
bit_xor-by_and (suc k) a b p q =
    let a' = 2 ^ suc k - 1 - a in
    let b' = 2 ^ suc k - 1 - b in
    let u = 2 ^ suc k - 1 - bit_and a b in
    let v = 2 ^ suc k - 1 - bit_and a' b' in
    let u_fits : bit_and a b < 2 ^ suc k = omega (arith, bit_and-le a b) in
    let v_fits : bit_and a' b' < 2 ^ suc k = omega (arith, bit_and-le a' b', pow-pos (suc k)) in
    let rest =
      bit_xor-by_and k (a / 2) (b / 2) (omega (arith, pow-suc 2 k)) (omega (arith, pow-suc 2 k)) in
    let u_half : u / 2 ≡ 2 ^ k - 1 - bit_and (a / 2) (b / 2) =
      not-half k (bit_and a b) u_fits ∙ (rw (bit_and-half a b) refl) in
    let v_half : v / 2 ≡ 2 ^ k - 1 - bit_and (2 ^ k - 1 - a / 2) (2 ^ k - 1 - b / 2) =
      not-half k (bit_and a' b') v_fits
      ∙ (rw (bit_and-half a' b', not-half k a p, not-half k b q) refl) in
    let high : bit_and (u / 2) (v / 2) ≡ bit_xor (a / 2) (b / 2) = rw (u_half, v_half) rest in
    omega (
      arith,
      bit_and-low u v,
      high,
      bit_xor-low a b,
      not-low k (bit_and a b) u_fits,
      not-low k (bit_and a' b') v_fits,
      bit_and-digit a b,
      bit_and-digit a' b',
      not-low k a p,
      not-low k b q,
      differ_digits (a % 2) (b % 2) (omega arith) (omega arith),
    )
