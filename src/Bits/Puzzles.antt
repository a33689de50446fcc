-- ===== src/Bits/Puzzles.antt =====
-- What the integer puzzles of bits.c compute.
use Prim.Native.Nat.{bit_and, bit_or, bit_xor}
use computer_systems_practic.Prelude.{
  ℕ, zero, suc, ◌+◌, ◌-◌, ◌/◌, ◌%◌, ◌^◌, ◌<◌, ◌≡◌, ◌≢◌, refl, ◌∙◌, arith, Bool, false, ◌==◌, ltb,
  leb, if◌then◌else◌, Bool-cases, inl, inr,
}
use computer_systems_practic.Bits.{
  bit_not, log_not, add, sar, bit_xor_of, is_tmax, negate, conditional, is_less_or_equal,
  logical_neg,
}
use computer_systems_practic.Bits.Words.{
  bit_and-shift, bit_or-shift, bit_xor-shift, bit_or-ge, bit_or-zero, bit_or-zero_left,
  bit_and-zero_left, bit_and-ones, bit_xor-by_and, bit_and-le,
}

-- `bitXor` is exclusive or.
pub bit_xor_of_lem : (x y : ℕ) → x < 2 ^ 32 → y < 2 ^ 32 → bit_xor_of x y ≡ bit_xor x y
unfolding bit_xor_of
bit_xor_of_lem x y p q = bit_xor-by_and 32 x y p q

-- `negate` of a word and the word add up to 0.
pub negate_lem : (x : ℕ) → x < 2 ^ 32 → (negate x < 2 ^ 32) × (add (negate x) x ≡ 0)
unfolding negate
negate_lem x h = (omega arith, omega arith)

-- `conditional` selects y for any x but 0, and z for 0.
pub conditional_lem :
    (x y z : ℕ) → y < 2 ^ 32 → z < 2 ^ 32 → conditional x y z ≡ (if x == 0 then z else y)
unfolding conditional
conditional_lem zero y z p q =
    let none_y = bit_and-zero_left y in
    let all_z = bit_and-ones 32 z q in rw (none_y, all_z) (bit_or-zero_left z)
conditional_lem (suc x) y z p q =
    let all_y = bit_and-ones 32 y p in
    let none_z = bit_and-zero_left z in
    let e : suc x == 0 ≡ false = ground arith in
    rw (conditional, e, all_y, none_z) (bit_or-zero 32 y p)

-- `isTmax` returns 1 for the largest int and 0 for every other one.
pub is_tmax_lem : (x : ℕ) → x < 2 ^ 32 → is_tmax x ≡ (if x == 2 ^ 31 - 1 then 1 else 0)
unfolding is_tmax
is_tmax_lem x h =
    let (p, q) = bit_or-ge (add (add x x) 2) (log_not (bit_not x)) in
    elim (Bool-cases (x == 2 ^ 31 - 1)) [
      | inl largest ↦ let e : x ≡ 2 ^ 31 - 1 = ground arith in rw e refl
      | inr other ↦
          let rest = bit_or (add (add x x) 2) (log_not (bit_not x)) in
          let some_bit : rest ≢ 0 = ground arith in
          let e : rest == 0 ≡ false = ground arith in rw (is_tmax, e, other) refl
    ]

-- x >> 31 & 1 of an int.
top_bit : (t : ℕ) → t < 2 ^ 32 → bit_and (sar t 31) 1 ≡ t / 2 ^ 31
top_bit t h = elim (Bool-cases (ltb t (2 ^ 31))) [
  | inl small ↦ let e : t / 2 ^ 31 ≡ 0 = ground arith in rw (small, e) refl
  | inr big ↦
      let e : t / 2 ^ 31 ≡ 1 = ground arith in
      let e' : bit_not t / 2 ^ 31 ≡ 0 = ground arith in rw (big, e, e') refl
]

-- `logicalNeg` is `!`.
pub logical_neg_lem : (x : ℕ) → x < 2 ^ 32 → logical_neg x ≡ log_not x
unfolding logical_neg
logical_neg_lem zero h = refl
logical_neg_lem (suc x) h =
    let (p, q) = bit_or-ge (suc x) (add (bit_not (suc x)) 1) in
    let e : suc x == 0 ≡ false = ground arith in
    top_bit (bit_not (bit_or (suc x) (add (bit_not (suc x)) 1))) (omega arith)
    ∙ (rw e (omega arith))

-- The order of the ints that two words stand for.
abbrev pub signed_leb : ℕ → ℕ → Bool
signed_leb x y = leb ((x + 2 ^ 31) % 2 ^ 32) ((y + 2 ^ 31) % 2 ^ 32)

bit_or-lt : (a b : ℕ) → a < 2 ^ 32 → b < 2 ^ 32 → bit_or a b < 2 ^ 32
bit_or-lt a b p q =
    let e : a / 2 ^ 32 ≡ 0 = omega arith in
    let e' : b / 2 ^ 32 ≡ 0 = omega arith in
    let none : bit_or a b / 2 ^ 32 ≡ 0 = bit_or-shift 32 a b ∙ (rw (e, e') refl) in omega arith

bit_xor-lt : (a b : ℕ) → a < 2 ^ 32 → b < 2 ^ 32 → bit_xor a b < 2 ^ 32
bit_xor-lt a b p q =
    let e : a / 2 ^ 32 ≡ 0 = omega arith in
    let e' : b / 2 ^ 32 ≡ 0 = omega arith in
    let none : bit_xor a b / 2 ^ 32 ≡ 0 = bit_xor-shift 32 a b ∙ (rw (e, e') refl) in omega arith

-- `isLessOrEqual` on the top digits, r that of the difference: all cases.
top_digits : (x y r : ℕ) → ℕ
top_digits x y r = bit_or (bit_and x (1 - y)) (1 - bit_or (bit_xor x y) r)

top_digits_lem :
    (x y r : ℕ) → x < 2 → y < 2 → r < 2 → top_digits x y r ≡ (if x == y then 1 - r else x)
unfolding top_digits
top_digits_lem zero zero zero p q t = refl
top_digits_lem zero zero (suc zero) p q t = refl
top_digits_lem zero (suc zero) zero p q t = refl
top_digits_lem zero (suc zero) (suc zero) p q t = refl
top_digits_lem (suc zero) zero zero p q t = refl
top_digits_lem (suc zero) zero (suc zero) p q t = refl
top_digits_lem (suc zero) (suc zero) zero p q t = refl
top_digits_lem (suc zero) (suc zero) (suc zero) p q t = refl
top_digits_lem (suc (suc x)) y r p q t = absurd (omega arith)
top_digits_lem zero (suc (suc y)) r p q t = absurd (omega arith)
top_digits_lem (suc zero) (suc (suc y)) r p q t = absurd (omega arith)
top_digits_lem zero zero (suc (suc r)) p q t = absurd (omega arith)
top_digits_lem zero (suc zero) (suc (suc r)) p q t = absurd (omega arith)
top_digits_lem (suc zero) zero (suc (suc r)) p q t = absurd (omega arith)
top_digits_lem (suc zero) (suc zero) (suc (suc r)) p q t = absurd (omega arith)

is_less_or_equal_top :
    (x y : ℕ)
    → x < 2 ^ 32
    → y < 2 ^ 32
    → is_less_or_equal x y
      ≡ top_digits (x / 2 ^ 31) (y / 2 ^ 31) (add (add y (bit_not x)) 1 / 2 ^ 31)
unfolding is_less_or_equal top_digits
is_less_or_equal_top x y p q =
    let diff = bit_and x (bit_not y) in
    let r = add (add y (bit_not x)) 1 in
    let e = bit_or (bit_xor x y) r in
    let not_top : (t : ℕ) → t < 2 ^ 32 → bit_not t / 2 ^ 31 ≡ 1 - t / 2 ^ 31 = λ t h. omega arith in
    let e_fits : e < 2 ^ 32 = bit_or-lt (bit_xor x y) r (bit_xor-lt x y p q) (omega arith) in
    let diff_fits : diff < 2 ^ 32 = omega (arith, bit_and-le x (bit_not y)) in
    top_bit (bit_or diff (bit_not e)) (bit_or-lt diff (bit_not e) diff_fits (omega arith))
    ∙ bit_or-shift 31 diff (bit_not e)
    ∙ (rw
        (
          not_top e e_fits,
          bit_and-shift 31 x (bit_not y),
          not_top y q,
          bit_or-shift 31 (bit_xor x y) r,
          bit_xor-shift 31 x y,
        )
        refl)

-- `isLessOrEqual` returns 1 when the int x is at most the int y, and 0 otherwise.
pub is_less_or_equal_lem :
    (x y : ℕ) → x < 2 ^ 32 → y < 2 ^ 32 → is_less_or_equal x y ≡ (if signed_leb x y then 1 else 0)
is_less_or_equal_lem x y p q =
    let r = add (add y (bit_not x)) 1 in
    is_less_or_equal_top x y p q
    ∙ top_digits_lem (x / 2 ^ 31) (y / 2 ^ 31) (r / 2 ^ 31) (omega arith) (omega arith)
        (omega arith)
    ∙ ground arith
