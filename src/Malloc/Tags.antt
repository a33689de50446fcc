-- ===== src/Malloc/Tags.antt =====
-- The boundary tags of mm.c: a size that is a multiple of 8, and the bit of an allocated block.
use Prim.Native.Nat.{bit_and, bit_or}
use native.Mathlib.Nat.{pow-suc}
use computer_systems_practic.Prelude.{
  pow-pos, ℕ, zero, suc, ◌+◌, ◌-◌, ◌/◌, ◌%◌, ◌^◌, ◌≤◌, ◌<◌, ◌≡◌, refl, ◌∙◌, arith,
}
use computer_systems_practic.Bits.Words.{bit_and-low, bit_or-low, bit_or-zero, bit_and-zero_left}
use computer_systems_practic.Malloc.{pack}

pub pack_lem : (s a : ℕ) → s % 8 ≡ 0 → a ≤ 1 → s < 2 ^ 32 → pack s a ≡ s + a
pack_lem s a h k small =
    let z : a / 2 ≡ 0 = omega arith in
    let e : bit_or (s / 2) (a / 2) ≡ s / 2 = rw z (bit_or-zero 32 (s / 2) (omega arith)) in
    omega (arith, bit_or-low s a)

bit_and-zero_right : (k a : ℕ) → a < 2 ^ k → bit_and a 0 ≡ 0
bit_and-zero_right zero a h = let e : a ≡ 0 = omega arith in rw (e, bit_and-zero_left 0) refl
bit_and-zero_right (suc k) a h =
    omega (arith, bit_and-low a 0, bit_and-zero_right k (a / 2) (omega (arith, pow-suc 2 k)))

bit_and-ones_right : (k a : ℕ) → a < 2 ^ k → bit_and a (2 ^ k - 1) ≡ a
bit_and-ones_right zero a h = let e : a ≡ 0 = omega arith in rw (e, bit_and-zero_left 0) refl
bit_and-ones_right (suc k) a h =
    let halved : (2 ^ suc k - 1) / 2 ≡ 2 ^ k - 1 = omega (arith, pow-suc 2 k, pow-pos k) in
    let rest = bit_and-ones_right k (a / 2) (omega (arith, pow-suc 2 k)) in
    let one : (2 ^ suc k - 1) % 2 ≡ 1 = omega (arith, pow-suc 2 k, pow-pos k) in
    bit_and-low a (2 ^ suc k - 1) ∙ (rw (halved, rest, one) (omega arith))

pub alloc_bit : (s a : ℕ) → s % 8 ≡ 0 → a ≤ 1 → s < 2 ^ 32 → bit_and (s + a) 1 ≡ a
alloc_bit s a h k small =
    let e : (s + a) / 2 ≡ s / 2 = omega arith in
    let z : bit_and ((s + a) / 2) 0 ≡ 0 = rw e (bit_and-zero_right 32 (s / 2) (omega arith)) in
    omega (arith, bit_and-low (s + a) 1)

pub size_bits : (s a : ℕ) → s % 8 ≡ 0 → a ≤ 1 → s < 2 ^ 32 → bit_and (s + a) 0xFFFFFFF8 ≡ s
size_bits s a h k small =
    let e : (s + a) / 2 / 2 / 2 ≡ s / 8 = omega arith in
    let ones : bit_and ((s + a) / 2 / 2 / 2) (2 ^ 29 - 1) ≡ s / 8 =
      rw e (bit_and-ones_right 29 (s / 8) (omega arith)) in
    omega (
      arith,
      bit_and-low (s + a) 0xFFFFFFF8,
      bit_and-low ((s + a) / 2) 0x7FFFFFFC,
      bit_and-low ((s + a) / 2 / 2) 0x3FFFFFFE,
    )
