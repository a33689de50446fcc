-- ===== src/Malloc/Sizes.antt =====
-- The sizes and the list indices of mm.c.
use native.Mathlib.Nat.{pow-suc}
use computer_systems_practic.Prelude.{
  ℕ, zero, suc, ◌+◌, ◌*◌, ◌/◌, ◌%◌, ◌^◌, ◌≤◌, ◌<◌, ◌≡◌, refl, ◌⊎◌, inl, inr, ◌∙◌, ap, false, arith,
  ltb, leb, ◌==◌, if◌then◌else◌, Bool-cases, pow-lt, pow-add,
}
use computer_systems_practic.Malloc.{count_shifts, list_index, adjust_size}

-- For a request above 0 that is not within 15 of 2 ^ 64, the block size is a multiple of 8, at least
-- 16, has room for 8 bytes of tags beside the payload, and wastes at most 15 bytes with the tags.
pub adjust_size_lem :
    (size : ℕ)
    → 0 < size
    → size + 15 < 2 ^ 64
    → (adjust_size size % 8 ≡ 0)
      × (16 ≤ adjust_size size)
      × (size + 8 ≤ adjust_size size)
      × (adjust_size size ≤ size + 15)
unfolding adjust_size
adjust_size_lem size h small = elim (Bool-cases (leb size 8)) [
  | inl tiny ↦ rw tiny (refl, omega arith, ground arith, omega arith)
  | inr large ↦
      let fits : (size + 15) % 2 ^ 64 ≡ size + 15 = omega arith in
      let more : 8 < size = ground arith in
      rw (large, fits) (omega arith, omega arith, omega arith, omega arith)
]

-- For the 15 largest requests the sum wraps, and the block is at most 8 bytes.
adjust_size_wraps : (size : ℕ) → 2 ^ 64 ≤ size + 15 → size < 2 ^ 64 → adjust_size size ≤ 8
unfolding adjust_size
adjust_size_wraps size h small =
    let large : leb size 8 ≡ false = ground arith in rw large (omega arith)

-- The rounds until a number below 2 ^ n is shifted away.
count_shifts-digits :
    (n s i : ℕ)
    → s < 2 ^ n
    → (d : ℕ) × (count_shifts n s i ≡ i + d) × (s < 2 ^ d) × ((d ≡ 0) ⊎ (2 ^ d ≤ 2 * s))
unfolding count_shifts
count_shifts-digits zero s i h = (0, omega arith, h, inl refl)
count_shifts-digits (suc n) s i h = elim (Bool-cases (ltb 0 s)) [
  | inl more ↦
      let (d, e, above, below) =
        count_shifts-digits n (s / 2) (i + 1) (omega (arith, pow-suc 2 n)) in
      rw more (
        suc d,
        e ∙ omega arith,
        omega (arith, pow-suc 2 d),
        inr (elim below [
          | inl none ↦ rw none (ground arith)
          | inr twice ↦ omega (arith, pow-suc 2 d)
        ]),
      )
  | inr done ↦ rw done (0, omega arith, ground arith, inl refl)
]

-- Size and index fit together.
abbrev pub InList : (size index : ℕ) → Type 0
InList size i =
    (i ≡ 9) × (4096 ≤ size) ⊎ (i < 9) × (size < 2 ^ (i + 4)) × ((i ≡ 0) ⊎ (2 ^ (i + 3) ≤ size))

-- From 9 digits of size / 16 on.
many_digits : (size d : ℕ) → 9 ≤ d → 2 ^ d ≤ 2 * (size / 16) → 4096 ≤ size
many_digits size d h twice = elim (Bool-cases (ltb 9 d)) [
  | inl more ↦ let grows : 2 ^ 9 < 2 ^ d = pow-lt 9 d (ground arith) in omega arith
  | inr same ↦
      let nine : d ≡ 9 = ground arith in
      let power : 2 ^ d ≡ 2 ^ 9 = ap (λ (k : ℕ). 2 ^ k) nine in omega arith
]

digits-InList :
    (size d : ℕ)
    → size / 16 < 2 ^ d
    → (d ≡ 0) ⊎ (2 ^ d ≤ 2 * (size / 16))
    → InList size (if ltb 9 d then 9 else d)
digits-InList size d above (inl none) =
    let by_16 : 2 ^ (d + 4) ≡ 2 ^ d * 16 = pow-add d 4 in
    let e : ltb 9 d ≡ false = ground arith in rw e (inr (omega arith, omega arith, inl none))
digits-InList size d above (inr twice) =
    let by_16 : 2 ^ (d + 4) ≡ 2 ^ d * 16 = pow-add d 4 in
    let by_8 : 2 ^ (d + 3) ≡ 2 ^ d * 8 = pow-add d 3 in
    elim (Bool-cases (ltb 9 d)) [
      | inl big ↦ let h : 9 ≤ d = ground arith in rw big (inl (refl, many_digits size d h twice))
      | inr small ↦ elim (Bool-cases (d == 9)) [
        | inl nine ↦
            let e : d ≡ 9 = ground arith in
            let h : 9 ≤ d = omega arith in rw small (inl (e, many_digits size d h twice))
        | inr less ↦
            let h : d < 9 = ground arith in rw small (inr (h, omega arith, inr (omega arith)))
      ]
    ]

-- List i below 9 holds the sizes from 2 ^ (i + 3) to 2 ^ (i + 4) - 1, list 0 also the smaller ones,
-- and list 9 those from 4096 on: `list_index` of a size_t as the table in its comment has it.
pub list_index_lem : (size : ℕ) → size < 2 ^ 64 → InList size (list_index size)
unfolding list_index
list_index_lem size h =
    let (d, e, above, below) = count_shifts-digits 64 (size / 16) 0 (omega arith) in
    let e' : count_shifts 64 (size / 16) 0 ≡ d = e ∙ omega arith in
    rw (list_index, e') (digits-InList size d above below)
