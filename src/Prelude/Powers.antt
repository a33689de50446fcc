-- ===== src/Prelude/Powers.antt =====
-- Powers of two, and the shifts of an unsigned C word.
use Prim.Native.Nat.{ℕ, zero, suc, ◌+◌, ◌*◌, ◌/◌, ◌%◌, ◌^◌, ◌<◌, ◌≤◌}
use mathlib.Core.Logic.{inl, inr}
use mathlib.Core.Path.{◌≡◌, sym, ap, ◌∙◌}
use native.Mathlib.Nat
use native.Mathlib.Omega.{arith}
use native.Mathlib.Nat.{pow-suc}

-- x << k on an unsigned long.
abbrev pub shl64 : ℕ → ℕ → ℕ
shl64 x k = (x * 2 ^ k) % 2 ^ 64

-- x >> k.
abbrev pub shr : ℕ → ℕ → ℕ
shr x k = x / 2 ^ k

pub pow-pos : (k : ℕ) → 0 < 2 ^ k
pow-pos zero = omega arith
pow-pos (suc k) = omega (arith, pow-pos k, pow-suc 2 k)

-- Powers grow.
pub pow-lt : (a b : ℕ) → a < b → 2 ^ a < 2 ^ b
pow-lt a zero h = absurd (omega arith)
pow-lt a (suc b) h =
    let le : a ≤ b = omega arith in
    elim (Nat.eq-or-lt_of_le le) [
      | inl same ↦ rw same (omega (arith, pow-pos b, pow-suc 2 b))
      | inr less ↦ omega (arith, pow-lt a b less, pow-suc 2 b)
    ]

-- 2 ^ a * 2 ^ b, added exponents.
pub pow-add : (a b : ℕ) → 2 ^ (a + b) ≡ 2 ^ a * 2 ^ b
pow-add a zero = rw (Nat.add-zero, Nat.pow-zero) (omega arith)
pow-add a (suc b) =
    let e : a + suc b ≡ suc (a + b) = omega arith in
    rw (e, pow-suc 2 (a + b), pow-suc 2 b, pow-add a b) (omega arith)

-- A shift up that loses the high bits keeps the low ones.
pub mul-mod-mul : (x n k : ℕ) → 0 < k → 0 < n → (x * k) % (n * k) ≡ x % n * k
mul-mod-mul x n k h p =
    let split : x * k ≡ x % n * k + n * k * (x / n) =
      omega (arith, ap (λ (t : ℕ). t * k) (Nat.div-add-mod x n)) in
    let low : x % n * k < n * k = grind (arith, Nat.mod-lt x p) in
    rw split (Nat.add-mul-mod_self_left (x % n * k) (n * k) (x / n) ∙ Nat.mod-eq_of_lt low)

-- (x % (n * k)) / k drops the same low digits as x / k.
pub mod-mul-div : (x n k : ℕ) → 0 < k → 0 < n → (x % (n * k)) / k ≡ (x / k) % n
mod-mul-div x n k h p =
    let y = x % (n * k) in
    let q = x / (n * k) in
    let split : x ≡ y + k * (n * q) = omega (arith, Nat.div-add-mod x (n * k)) in
    let pos : 0 < n * k = grind arith in
    let small : y / k < n = (Nat.div-lt_iff_lt-mul h).1 (Nat.mod-lt x pos) in
    sym (
      ap (λ (t : ℕ). t / k % n) split
      ∙ ap (λ (t : ℕ). t % n) (Nat.add-mul-div_left y (n * q) h)
      ∙ Nat.add-mul-mod_self_left (y / k) n q
      ∙ Nat.mod-eq_of_lt small)

-- Shifting up by t and down by t + b in a word of s + b + t bits selects s bits above the low b.
pub shift_window : (x s b t : ℕ) → (x * 2 ^ t) % 2 ^ (s + b + t) / 2 ^ (t + b) ≡ (x / 2 ^ b) % 2 ^ s
shift_window x s b t =
    rw (pow-add (s + b) t, pow-add s b, pow-add t b)
      (sym (Nat.div-div-eq-div-mul ((x * 2 ^ t) % (2 ^ s * 2 ^ b * 2 ^ t)) (2 ^ t) (2 ^ b))
        ∙ ap (λ (n : ℕ). n / 2 ^ t / 2 ^ b)
            (mul-mod-mul x (2 ^ s * 2 ^ b) (2 ^ t) (pow-pos t)
              (grind (arith, pow-pos s, pow-pos b)))
        ∙ ap (λ (n : ℕ). n / 2 ^ b) (Nat.mul-div_cancel (x % (2 ^ s * 2 ^ b)) (pow-pos t))
        ∙ mod-mul-div x (2 ^ s) (2 ^ b) (pow-pos b) (pow-pos s))
