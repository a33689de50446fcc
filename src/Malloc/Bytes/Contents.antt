-- ===== src/Malloc/Bytes/Contents.antt =====
-- What `calloc` and `realloc` leave in the bytes of memory.
use mathlib.Core.Path.{subst}
use computer_systems_practic.Prelude.{
  ℕ, zero, suc, ◌+◌, ◌-◌, ◌*◌, ◌/◌, ◌%◌, ◌^◌, ◌<◌, ◌≤◌, ◌≡◌, refl, ap, ◌∙◌, Bool, true, false, some,
  ◌==◌, ltb, leb, ◌&&◌, if◌then◌else◌, Bool-cases, ◌⊎◌, inl, inr, arith,
}
use computer_systems_practic.Malloc.{Mem, Heap}
use computer_systems_practic.Malloc.Alloc.{Fit, block, malloc}
use computer_systems_practic.Malloc.Words.{IsWords, put-IsWords, malloc-IsWords}
use computer_systems_practic.Malloc.Bytes.{word_of, get_byte, put_byte, memset, memcpy, calloc}

-- Byte j of a word w whose byte i is set to v.
abbrev written : (w v i : ℕ) → ℕ
written w v i =
    (w % 2 ^ (8 * i) + v * 2 ^ (8 * i) + w / (256 * 2 ^ (8 * i)) * (256 * 2 ^ (8 * i))) % 2 ^ 32

byte_written :
    (w v i j : ℕ)
    → i < 4
    → j < 4
    → w < 2 ^ 32
    → v < 256
    → written w v i / 2 ^ (8 * j) % 256 ≡ (if i == j then v else w / 2 ^ (8 * j) % 256)
byte_written w v zero zero i4 j4 hw hv = omega arith
byte_written w v zero (suc zero) i4 j4 hw hv = omega arith
byte_written w v zero (suc (suc zero)) i4 j4 hw hv = omega arith
byte_written w v zero (suc (suc (suc zero))) i4 j4 hw hv = omega arith
byte_written w v (suc zero) zero i4 j4 hw hv = omega arith
byte_written w v (suc zero) (suc zero) i4 j4 hw hv = omega arith
byte_written w v (suc zero) (suc (suc zero)) i4 j4 hw hv = omega arith
byte_written w v (suc zero) (suc (suc (suc zero))) i4 j4 hw hv = omega arith
byte_written w v (suc (suc zero)) zero i4 j4 hw hv = omega arith
byte_written w v (suc (suc zero)) (suc zero) i4 j4 hw hv = omega arith
byte_written w v (suc (suc zero)) (suc (suc zero)) i4 j4 hw hv = omega arith
byte_written w v (suc (suc zero)) (suc (suc (suc zero))) i4 j4 hw hv = omega arith
byte_written w v (suc (suc (suc zero))) zero i4 j4 hw hv = omega arith
byte_written w v (suc (suc (suc zero))) (suc zero) i4 j4 hw hv = omega arith
byte_written w v (suc (suc (suc zero))) (suc (suc zero)) i4 j4 hw hv = omega arith
byte_written w v (suc (suc (suc zero))) (suc (suc (suc zero))) i4 j4 hw hv = omega arith
byte_written w v (suc (suc (suc (suc i)))) j i4 j4 hw hv = absurd (omega arith)
byte_written w v i (suc (suc (suc (suc j)))) i4 j4 hw hv = absurd (omega arith)

pub get_byte-put :
    (m : Mem) (x y v : ℕ)
    → IsWords m
    → v < 256
    → get_byte (put_byte m x v) y ≡ (if x == y then v else get_byte m y)
unfolding put_byte
get_byte-put m x y v h hv = elim (Bool-cases (word_of y == word_of x)) [
  | inr e ↦ let apart : x == y ≡ false = ground arith in rw (put_byte, e, apart) refl
  | inl e ↦
      let same : word_of y ≡ word_of x = ground arith in
      let places : x == y ≡ (x % 4 == y % 4) = ground arith in
      rw (put_byte, e, places, ap m same)
        (byte_written (m (word_of x)) v (x % 4) (y % 4) (omega arith) (omega arith) (h (word_of x))
          hv)
]

put_byte-IsWords : (m : Mem) (x v : ℕ) → IsWords m → IsWords (put_byte m x v)
unfolding put_byte
put_byte-IsWords m x v h = put-IsWords m (word_of x) _ h

grown_range :
    (n dst y v b : ℕ)
    → (if leb (dst + 1) y && ltb y (dst + 1 + n) then v else if dst == y then v else b)
      ≡ (if leb dst y && ltb y (dst + suc n) then v else b)
grown_range n dst y v b = ground arith

-- memset writes v to n bytes from dst on, and nothing else.
pub get_byte-memset :
    (n : ℕ) (m : Mem) (dst v y : ℕ)
    → IsWords m
    → v < 256
    → get_byte (memset n m dst v) y ≡ (if leb dst y && ltb y (dst + n) then v else get_byte m y)
unfolding memset
get_byte-memset zero m dst v y h hv = ground arith
get_byte-memset (suc n) m dst v y h hv =
    get_byte-memset n (put_byte m dst v) (dst + 1) v y (put_byte-IsWords m dst v h) hv
    ∙ rw (get_byte-put m dst y v h hv) (grown_range n dst y v (get_byte m y))

-- Two areas of n bytes that have no byte in common.
abbrev pub Disjoint : (n a b : ℕ) → Type 0
Disjoint n a b = (a + n ≤ b) ⊎ b + n ≤ a

copied_range :
    (f : ℕ → ℕ) (n dst src y : ℕ)
    → Disjoint (suc n) dst src
    → (if leb (dst + 1) y && ltb y (dst + 1 + n)
        then (if dst == src + 1 + (y - (dst + 1)) then f src else f (src + 1 + (y - (dst + 1))))
        else (if dst == y then f src else f y))
      ≡ (if leb dst y && ltb y (dst + suc n) then f (src + (y - dst)) else f y)
copied_range f n dst src y d = elim (Bool-cases (dst == y)) [
  | inl e ↦
      let before : leb (dst + 1) y ≡ false = ground arith in
      let inside : leb dst y && ltb y (dst + suc n) ≡ true = ground arith in
      let at_src : src + (y - dst) ≡ src = ground arith in rw (before, e, inside, at_src) refl
  | inr e ↦ elim (Bool-cases (leb dst y && ltb y (dst + suc n))) [
    | inl inside ↦
        let inside' : leb (dst + 1) y && ltb y (dst + 1 + n) ≡ true = ground arith in
        let at_src : src + 1 + (y - (dst + 1)) ≡ src + (y - dst) = ground arith in
        let apart : dst == src + (y - dst) ≡ false = ground arith in
        rw (inside', inside, at_src, apart) refl
    | inr outside ↦
        let outside' : leb (dst + 1) y && ltb y (dst + 1 + n) ≡ false = ground arith in
        rw (outside', outside, e) refl
  ]
]

-- memcpy copies n bytes between areas that have no byte in common, and writes nothing else.
pub get_byte-memcpy :
    (n : ℕ) (m : Mem) (dst src y : ℕ)
    → IsWords m
    → Disjoint n dst src
    → get_byte (memcpy n m dst src) y
      ≡ (if leb dst y && ltb y (dst + n) then get_byte m (src + (y - dst)) else get_byte m y)
unfolding memcpy
get_byte-memcpy zero m dst src y h d = ground arith
get_byte-memcpy (suc n) m dst src y h d =
    let v = get_byte m src in
    let hv : v < 256 = omega arith in
    get_byte-memcpy n (put_byte m dst v) (dst + 1) (src + 1) y (put_byte-IsWords m dst v h)
      (ground arith)
    ∙ rw (get_byte-put m dst y v h hv, get_byte-put m dst (src + 1 + (y - (dst + 1))) v h hv)
        (copied_range (λ z. get_byte m z) n dst src y d)

-- What `calloc` returns in a memory of 32-bit words when malloc finds a block: that block, with zeros in
-- its nmemb * size bytes, the product as a size_t, and every other byte as malloc left it.
pub calloc-zeroed :
    (first : ℕ) (grows : ℕ → ℕ → Bool) (fuel nmemb size : ℕ) (h h1 : Heap first) (bp : ℕ)
    → IsWords h.mem
    → malloc first grows fuel (nmemb * size % 2 ^ 64) h ≡ (h1, block bp)
    → (h2 : Heap first) × (calloc first grows fuel nmemb size h ≡ some (h2, block bp))
      × ((y : ℕ)
          → get_byte h2.mem y
            ≡ (if leb bp y && ltb y (bp + nmemb * size % 2 ^ 64) then 0 else get_byte h1.mem y))
unfolding calloc
calloc-zeroed first grows fuel nmemb size h h1 bp w e =
    let total = nmemb * size % 2 ^ 64 in
    let w' = malloc-IsWords first grows fuel total h w in
    let w1 : IsWords h1.mem = subst (λ (r : Heap first × Fit). IsWords (r.0).mem) e w' in
    (
      record h1 { mem = memset total h1.mem bp 0 },
      rw (calloc, e) refl,
      λ y. get_byte-memset total h1.mem bp 0 y w1 (omega arith),
    )
