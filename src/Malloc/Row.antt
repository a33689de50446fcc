-- ===== src/Malloc/Row.antt =====
-- The blocks of the heap of mm.c, one behind the other, by their boundary tags.
use computer_systems_practic.Prelude.{
  ℕ, ◌+◌, ◌-◌, ◌%◌, ◌^◌, ◌≤◌, ◌<◌, ◌≡◌, ◌≢◌, refl, sym, ap, ◌∙◌, List, [], ◌∷◌, ◌++◌, arith, ◌⊎◌,
  inl, inr,
}
use computer_systems_practic.Malloc.{Mem}

-- What the tags of a block say.
pub record Tag : Type 0 where
  pub size : ℕ
  pub alloc : ℕ

abbrev pub word : Tag → ℕ
word t = t.size + t.alloc

pub record IsTag (t : Tag) : Type 0 where
  pub multiple : t.size % 8 ≡ 0
  pub least : 16 ≤ t.size
  pub small : t.size < 2 ^ 32
  pub bit : t.alloc ≤ 1

-- From the block bp on, up to the address `end`, the blocks have the tags ts, at both of their ends.
abbrev pub IsPart : Mem → (bp : ℕ) → List Tag → (end : ℕ) → Type 0
IsPart m bp [] end = bp ≡ end
IsPart m bp (t ∷ ts) end =
    IsTag t × (m (bp - 4) ≡ word t) × (m (bp + t.size - 8) ≡ word t) × IsPart m (bp + t.size) ts end

-- An address of a tag of these blocks, and the address of a free one of them.
abbrev pub TagAt : (bp : ℕ) → List Tag → ℕ → Type 0
TagAt bp [] x = ⊥
TagAt bp (t ∷ ts) x = (x + 4 ≡ bp) ⊎ ((x + 8 ≡ bp + t.size) ⊎ TagAt (bp + t.size) ts x)

abbrev pub FreeAt : (bp : ℕ) → List Tag → ℕ → Type 0
FreeAt bp [] b = ⊥
FreeAt bp (t ∷ ts) b = (b ≡ bp) × (t.alloc ≡ 0) ⊎ FreeAt (bp + t.size) ts b

pub IsPart-le : (m : Mem) (bp : ℕ) (ts : List Tag) (end : ℕ) → IsPart m bp ts end → bp ≤ end
IsPart-le m bp [] end e = omega arith
IsPart-le m bp (t ∷ ts) end (k, h, f, r) =
    let le = IsPart-le m (bp + t.size) ts end r in omega arith

pub IsPart-aligned :
    (m : Mem) (bp : ℕ) (ts : List Tag) (end : ℕ) → bp % 8 ≡ 0 → IsPart m bp ts end → end % 8 ≡ 0
IsPart-aligned m bp [] end a e = rw (sym e) a
IsPart-aligned m bp (t ∷ ts) end a (k, h, f, r) =
    let s = k.multiple in IsPart-aligned m (bp + t.size) ts end (omega arith) r

pub IsPart-append :
    (m : Mem) (bp mid end : ℕ) (ts us : List Tag)
    → IsPart m bp ts mid
    → IsPart m mid us end
    → IsPart m bp (ts ++ us) end
IsPart-append m bp mid end [] us e r = rw e r
IsPart-append m bp mid end (t ∷ ts) us (k, h, f, r) s =
    (k, h, f, IsPart-append m (bp + t.size) mid end ts us r s)

pub IsPart-split :
    (m : Mem) (bp end : ℕ) (ts us : List Tag)
    → IsPart m bp (ts ++ us) end
    → (mid : ℕ) × IsPart m bp ts mid × IsPart m mid us end
IsPart-split m bp end [] us r = (bp, refl, r)
IsPart-split m bp end (t ∷ ts) us (k, h, f, r) =
    let (mid, a, b) = IsPart-split m (bp + t.size) end ts us r in (mid, (k, h, f, a), b)

-- Only the words of the tags count.
pub IsPart-same :
    (m m1 : Mem) (bp : ℕ) (ts : List Tag) (end : ℕ)
    → 4 ≤ bp
    → ((x : ℕ) → TagAt bp ts x → m1 x ≡ m x)
    → IsPart m bp ts end
    → IsPart m1 bp ts end
IsPart-same m m1 bp [] end low same e = e
IsPart-same m m1 bp (t ∷ ts) end low same (k, h, f, r) =
    let least = k.least in
    (
      k,
      same (bp - 4) (inl (omega arith)) ∙ h,
      same (bp + t.size - 8) (inr (inl (omega arith))) ∙ f,
      IsPart-same m m1 (bp + t.size) ts end (omega arith) (λ x a. same x (inr (inr a))) r,
    )

pub TagAt-bounds :
    (m : Mem) (bp : ℕ) (ts : List Tag) (end x : ℕ)
    → IsPart m bp ts end
    → TagAt bp ts x
    → (bp ≤ x + 4) × (x + 4 < end)
TagAt-bounds m bp [] end x e a = absurd a
TagAt-bounds m bp (t ∷ ts) end x (k, h, f, r) (inl e) =
    let least = k.least in let le = IsPart-le m (bp + t.size) ts end r in (omega arith, omega arith)
TagAt-bounds m bp (t ∷ ts) end x (k, h, f, r) (inr (inl e)) =
    let least = k.least in let le = IsPart-le m (bp + t.size) ts end r in (omega arith, omega arith)
TagAt-bounds m bp (t ∷ ts) end x (k, h, f, r) (inr (inr a)) =
    let least = k.least in
    let (lo, hi) = TagAt-bounds m (bp + t.size) ts end x r a in (omega arith, hi)

pub FreeAt-bounds :
    (m : Mem) (bp : ℕ) (ts : List Tag) (end b : ℕ)
    → bp % 8 ≡ 0
    → IsPart m bp ts end
    → FreeAt bp ts b
    → (bp ≤ b) × (b + 16 ≤ end) × (b % 8 ≡ 0)
FreeAt-bounds m bp [] end b al e a = absurd a
FreeAt-bounds m bp (t ∷ ts) end b al (k, h, f, r) (inl (e, z)) =
    let least = k.least in
    let le = IsPart-le m (bp + t.size) ts end r in (omega arith, omega arith, omega arith)
FreeAt-bounds m bp (t ∷ ts) end b al (k, h, f, r) (inr a) =
    let s = k.multiple in
    let (lo, hi, al') = FreeAt-bounds m (bp + t.size) ts end b (omega arith) r a in
    (omega arith, hi, al')

-- The two words that link a free block are not tags.
pub FreeAt-off :
    (m : Mem) (bp : ℕ) (ts : List Tag) (end b x : ℕ)
    → bp % 8 ≡ 0
    → IsPart m bp ts end
    → FreeAt bp ts b
    → TagAt bp ts x
    → (x ≢ b) × (x ≢ b + 4)
FreeAt-off m bp [] end b x al e a i = absurd a
FreeAt-off m bp (t ∷ ts) end b x al (k, h, f, r) (inl (e, z)) (inl i) = (omega arith, omega arith)
FreeAt-off m bp (t ∷ ts) end b x al (k, h, f, r) (inl (e, z)) (inr (inl i)) =
    let least = k.least in (omega arith, omega arith)
FreeAt-off m bp (t ∷ ts) end b x al (k, h, f, r) (inl (e, z)) (inr (inr i)) =
    let least = k.least in
    let (lo, hi) = TagAt-bounds m (bp + t.size) ts end x r i in (omega arith, omega arith)
FreeAt-off m bp (t ∷ ts) end b x al (k, h, f, r) (inr a) (inl i) =
    let least = k.least in
    let s = k.multiple in
    let (lo, hi, al') = FreeAt-bounds m (bp + t.size) ts end b (omega arith) r a in
    (omega arith, omega arith)
FreeAt-off m bp (t ∷ ts) end b x al (k, h, f, r) (inr a) (inr (inl i)) =
    let least = k.least in
    let s = k.multiple in
    let (lo, hi, al') = FreeAt-bounds m (bp + t.size) ts end b (omega arith) r a in
    (omega arith, omega arith)
FreeAt-off m bp (t ∷ ts) end b x al (k, h, f, r) (inr a) (inr (inr i)) =
    let s = k.multiple in FreeAt-off m (bp + t.size) ts end b x (omega arith) r a i

pub FreeAt-split :
    (m : Mem) (bp mid b : ℕ) (ts us : List Tag)
    → IsPart m bp ts mid
    → FreeAt bp (ts ++ us) b
    → FreeAt bp ts b ⊎ FreeAt mid us b
FreeAt-split m bp mid b [] us e a = inr (rw (sym e) a)
FreeAt-split m bp mid b (t ∷ ts) us (k, h, f, r) (inl a) = inl (inl a)
FreeAt-split m bp mid b (t ∷ ts) us (k, h, f, r) (inr a) =
    elim (FreeAt-split m (bp + t.size) mid b ts us r a) [ inl c ↦ inl (inr c) | inr c ↦ inr c ]

pub FreeAt-left : (bp b : ℕ) (ts us : List Tag) → FreeAt bp ts b → FreeAt bp (ts ++ us) b
FreeAt-left bp b [] us a = absurd a
FreeAt-left bp b (t ∷ ts) us (inl a) = inl a
FreeAt-left bp b (t ∷ ts) us (inr a) = inr (FreeAt-left (bp + t.size) b ts us a)

pub FreeAt-right :
    (m : Mem) (bp mid b : ℕ) (ts us : List Tag)
    → IsPart m bp ts mid
    → FreeAt mid us b
    → FreeAt bp (ts ++ us) b
FreeAt-right m bp mid b [] us e a = rw e a
FreeAt-right m bp mid b (t ∷ ts) us (k, h, f, r) a =
    inr (FreeAt-right m (bp + t.size) mid b ts us r a)

-- The same tags in another memory stand at the same addresses.
pub IsPart-move :
    (m m1 : Mem) (bp mid end : ℕ) (ts us : List Tag)
    → IsPart m bp ts mid
    → IsPart m1 bp (ts ++ us) end
    → IsPart m1 bp ts mid × IsPart m1 mid us end
IsPart-move m m1 bp mid end [] us e r = (e, rw (sym e) r)
IsPart-move m m1 bp mid end (t ∷ ts) us (k, h, f, q) (k1, h1, f1, r) =
    let (a, b) = IsPart-move m m1 (bp + t.size) mid end ts us q r in ((k1, h1, f1, a), b)

-- A row is empty or has a last block.
pub row_end : (ts : List Tag) → (ts ≡ []) ⊎ (us : List Tag) × (u : Tag) × (ts ≡ us ++ (u ∷ []))
row_end [] = inl refl
row_end (t ∷ ts) = elim (row_end ts) [
  | inl e ↦ inr ([], t, ap (λ l. t ∷ l) e)
  | inr (us, u, e) ↦ inr (t ∷ us, u, ap (λ l. t ∷ l) e)
]
