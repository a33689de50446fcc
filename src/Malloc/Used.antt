-- ===== src/Malloc/Used.antt =====
-- The allocated blocks of a row of mm.c: from addresses to sizes.
use computer_systems_practic.Prelude.{
  ℕ, ◌+◌, ◌%◌, ◌≤◌, ◌≡◌, ◌≢◌, refl, sym, ap, ◌∙◌, List, [], ◌∷◌, ◌++◌, arith, ◌⊎◌, inl, inr,
}
use computer_systems_practic.Malloc.{Mem}
use computer_systems_practic.Malloc.Row.{Tag, IsPart, IsPart-le, IsPart-move, IsPart-aligned}

-- An allocated block of the size v stands at x.
abbrev pub UsedAt : (bp : ℕ) → List Tag → (x v : ℕ) → Type 0
UsedAt bp [] x v = ⊥
UsedAt bp (t ∷ ts) x v = (x ≡ bp) × (t.alloc ≡ 1) × (v ≡ t.size) ⊎ UsedAt (bp + t.size) ts x v

pub UsedAt-split :
    (m : Mem) (bp mid x v : ℕ) (ts us : List Tag)
    → IsPart m bp ts mid
    → UsedAt bp (ts ++ us) x v
    → UsedAt bp ts x v ⊎ UsedAt mid us x v
UsedAt-split m bp mid x v [] us e a = inr (rw (sym e) a)
UsedAt-split m bp mid x v (t ∷ ts) us (k, h, f, r) (inl a) = inl (inl a)
UsedAt-split m bp mid x v (t ∷ ts) us (k, h, f, r) (inr a) =
    elim (UsedAt-split m (bp + t.size) mid x v ts us r a) [ inl c ↦ inl (inr c) | inr c ↦ inr c ]

pub UsedAt-left : (bp x v : ℕ) (ts us : List Tag) → UsedAt bp ts x v → UsedAt bp (ts ++ us) x v
UsedAt-left bp x v [] us a = absurd a
UsedAt-left bp x v (t ∷ ts) us (inl a) = inl a
UsedAt-left bp x v (t ∷ ts) us (inr a) = inr (UsedAt-left (bp + t.size) x v ts us a)

pub UsedAt-right :
    (m : Mem) (bp mid x v : ℕ) (ts us : List Tag)
    → IsPart m bp ts mid
    → UsedAt mid us x v
    → UsedAt bp (ts ++ us) x v
UsedAt-right m bp mid x v [] us e a = rw e a
UsedAt-right m bp mid x v (t ∷ ts) us (k, h, f, r) a =
    inr (UsedAt-right m (bp + t.size) mid x v ts us r a)

-- When a part of the row is another one, an allocated block was in that part or still stands there.
pub UsedAt-swap :
    (m m1 m2 : Mem) (bp b e x v : ℕ) (pre old mid post : List Tag)
    → IsPart m bp pre b
    → IsPart m1 b old e
    → IsPart m2 b mid e
    → UsedAt bp (pre ++ (old ++ post)) x v
    → UsedAt b old x v ⊎ UsedAt bp (pre ++ (mid ++ post)) x v
UsedAt-swap m m1 m2 bp b e x v pre old mid post at_pre at_old at_mid a =
    elim (UsedAt-split m bp b x v pre (old ++ post) at_pre a) [
      | inl c ↦ inr (UsedAt-left bp x v pre (mid ++ post) c)
      | inr c ↦ elim (UsedAt-split m1 b e x v old post at_old c) [
        | inl d ↦ inl d
        | inr d ↦ inr (
            UsedAt-right m bp b x v pre (mid ++ post) at_pre
              (UsedAt-right m2 b e x v mid post at_mid d))
      ]
    ]

pub UsedAt-bounds :
    (m : Mem) (bp : ℕ) (ts : List Tag) (end x v : ℕ)
    → bp % 8 ≡ 0
    → IsPart m bp ts end
    → UsedAt bp ts x v
    → (bp ≤ x) × (x + v ≤ end) × (16 ≤ v) × (x % 8 ≡ 0)
UsedAt-bounds m bp [] end x v al e a = absurd a
UsedAt-bounds m bp (t ∷ ts) end x v al (k, h, f, r) (inl (e, z, g)) =
    let least = k.least in
    let le = IsPart-le m (bp + t.size) ts end r in
    (omega arith, omega arith, omega arith, omega arith)
UsedAt-bounds m bp (t ∷ ts) end x v al (k, h, f, r) (inr a) =
    let s = k.multiple in
    let (lo, hi, least, al') = UsedAt-bounds m (bp + t.size) ts end x v (omega arith) r a in
    (omega arith, hi, least, al')

-- Two allocated blocks do not overlap.
pub UsedAt-apart :
    (m : Mem) (bp : ℕ) (ts : List Tag) (end x v y w : ℕ)
    → bp % 8 ≡ 0
    → IsPart m bp ts end
    → UsedAt bp ts x v
    → UsedAt bp ts y w
    → x ≢ y
    → (x + v ≤ y) ⊎ (y + w ≤ x)
UsedAt-apart m bp [] end x v y w al r a c ne = absurd a
UsedAt-apart m bp (t ∷ ts) end x v y w al (k, h, f, r) (inl (e, z, g)) (inl (e', z', g')) ne =
    absurd (ne (e ∙ sym e'))
UsedAt-apart m bp (t ∷ ts) end x v y w al (k, h, f, r) (inl (e, z, g)) (inr c) ne =
    let s = k.multiple in
    let (lo, hi, least, al') = UsedAt-bounds m (bp + t.size) ts end y w (omega arith) r c in
    inl (omega arith)
UsedAt-apart m bp (t ∷ ts) end x v y w al (k, h, f, r) (inr a) (inl (e', z', g')) ne =
    let s = k.multiple in
    let (lo, hi, least, al') = UsedAt-bounds m (bp + t.size) ts end x v (omega arith) r a in
    inr (omega arith)
UsedAt-apart m bp (t ∷ ts) end x v y w al (k, h, f, r) (inr a) (inr c) ne =
    let s = k.multiple in UsedAt-apart m (bp + t.size) ts end x v y w (omega arith) r a c ne

-- An allocated block of a row, with the blocks before and behind it.
pub UsedAt-find :
    (m : Mem) (bp : ℕ) (ts : List Tag) (end x v : ℕ)
    → IsPart m bp ts end
    → UsedAt bp ts x v
    → (pre : List Tag) × (t : Tag) × (post : List Tag) × (ts ≡ pre ++ (t ∷ post))
      × IsPart m bp pre x
      × (t.alloc ≡ 1)
      × (v ≡ t.size)
UsedAt-find m bp [] end x v e a = absurd a
UsedAt-find m bp (t ∷ ts) end x v (k, h, f, r) (inl (e, z, g)) = ([], t, ts, refl, sym e, z, g)
UsedAt-find m bp (t ∷ ts) end x v (k, h, f, r) (inr a) =
    let (pre, u, post, e, at, z, g) = UsedAt-find m (bp + t.size) ts end x v r a in
    (t ∷ pre, u, post, ap (λ l. t ∷ l) e, (k, h, f, at), z, g)

-- The allocated blocks of a row in which one block is free stand elsewhere.
pub UsedAt-other :
    (m : Mem) (bp : ℕ) (b end x v : ℕ) (pre : List Tag) (t : Tag) (post : List Tag)
    → bp % 8 ≡ 0
    → t.alloc ≡ 0
    → IsPart m bp pre b
    → IsPart m bp (pre ++ (t ∷ post)) end
    → UsedAt bp (pre ++ (t ∷ post)) x v
    → x ≢ b
UsedAt-other m bp b end x v pre t post al z at_pre row a =
    let (q, (k, h, f, r)) = IsPart-move m m bp b end pre (t ∷ post) at_pre row in
    let ab = IsPart-aligned m bp pre b al at_pre in
    let least = k.least in
    let mul = k.multiple in
    elim (UsedAt-split m bp b x v pre (t ∷ post) at_pre a) [
      | inl c ↦ let (lo, hi, big, al') = UsedAt-bounds m bp pre b x v al at_pre c in omega arith
      | inr (inl (e, one, g)) ↦ absurd (omega arith)
      | inr (inr c) ↦
          let (lo, hi, big, al') = UsedAt-bounds m (b + t.size) post end x v (omega arith) r c in
          omega arith
    ]
