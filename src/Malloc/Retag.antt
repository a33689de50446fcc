-- ===== src/Malloc/Retag.antt =====
-- New tags for a part of the heap of mm.c whose blocks are not linked.
use computer_systems_practic.Prelude.{
  ℕ, ◌+◌, ◌-◌, ◌%◌, ◌^◌, ◌≤◌, ◌<◌, ◌≡◌, refl, ap, ◌∙◌, true, false, List, [], ◌∷◌, ◌++◌, arith, ◌⊎◌,
  inl, inr, ◌==◌, if◌then◌else◌,
}
use computer_systems_practic.Malloc.{
  Mem, put, pack, get_size, get_alloc, put_tags, next_empt_blkp, prev_empt_blkp,
}
use computer_systems_practic.Malloc.Cycle.{IsCycle-agree, IsListed-same}
use computer_systems_practic.Malloc.Tags.{pack_lem, alloc_bit, size_bits}
use computer_systems_practic.Malloc.Row.{
  Tag, IsTag, word, IsPart, FreeAt, IsPart-le, IsPart-aligned, IsPart-same, IsPart-append,
  TagAt-bounds, FreeAt-bounds, FreeAt-split, FreeAt-left, FreeAt-right,
}
use computer_systems_practic.Malloc.Heaps.{IsPlace, IsHeap}
use computer_systems_practic.Malloc.Words.{IsWords}

-- A header as the macros read it.
pub get_size-word : (m : Mem) (x : ℕ) (t : Tag) → IsTag t → m x ≡ word t → get_size m x ≡ t.size
get_size-word m x t k e = rw e (size_bits t.size t.alloc k.multiple k.bit k.small)

pub get_alloc-word : (m : Mem) (x : ℕ) (t : Tag) → IsTag t → m x ≡ word t → get_alloc m x ≡ t.alloc
get_alloc-word m x t k e = rw e (alloc_bit t.size t.alloc k.multiple k.bit k.small)

module _ (first : ℕ) where
  module _ (m : Mem) (b : ℕ) (t : Tag) (k : IsTag t) where
    pub put_tags_words :
        (x : ℕ)
        → put_tags first m b t.size t.alloc x
          ≡ (if x == b + t.size - 8 then word t else if x == b - 4 then word t else m x)
    put_tags_words x =
        let multiple = k.multiple in
        let small = k.small in
        let bit = k.bit in
        let e : pack t.size t.alloc ≡ word t = pack_lem t.size t.alloc multiple bit small in
        let fits : word t % 2 ^ 32 ≡ word t = omega arith in
        let same : b - 4 == b - 4 ≡ true = ground arith in
        let at : put m (b - 4) (word t) (b - 4) ≡ word t = rw (same, fits) refl in
        let s : get_size (put m (b - 4) (word t)) (b - 4) ≡ t.size =
          get_size-word (put m (b - 4) (word t)) (b - 4) t k at in
        rw (e, s, fits) refl

    pub put_tags-IsPart : 4 ≤ b → IsPart (put_tags first m b t.size t.alloc) b (t ∷ []) (b + t.size)
    put_tags-IsPart low =
        let least = k.least in
        let s : b - 4 == b - 4 ≡ true = ground arith in
        let o : b - 4 == b + t.size - 8 ≡ false = ground arith in
        let s' : b + t.size - 8 == b + t.size - 8 ≡ true = ground arith in
        (
          k,
          put_tags_words (b - 4) ∙ rw (o, s) refl,
          put_tags_words (b + t.size - 8) ∙ rw s' refl,
          refl,
        )

    pub put_tags-outside :
        (x : ℕ)
        → 4 ≤ b
        → (x + 4 < b) ⊎ (b + t.size ≤ x + 4)
        → put_tags first m b t.size t.alloc x ≡ m x
    put_tags-outside x low away =
        let least = k.least in
        let o : x == b + t.size - 8 ≡ false = ground arith in
        let o' : x == b - 4 ≡ false = ground arith in put_tags_words x ∙ rw (o, o') refl

  -- Where a node stands when a part of the row is another one: in that part, or where it stood.
  pub places :
      (m m1 m2 m3 : Mem) (brk b e x : ℕ) (pre old mid post : List Tag)
      → (first + 96) % 8 ≡ 0
      → IsPart m (first + 96) pre b
      → IsPart m1 b old e
      → IsPart m2 e post brk
      → IsPart m3 b mid e
      → IsPlace first (pre ++ (old ++ post)) x
      → FreeAt b old x ⊎ (IsPlace first (pre ++ (mid ++ post)) x × ((x + 8 < b) ⊎ (e ≤ x)))
  places m m1 m2 m3 brk b e x pre old mid post al at_pre at_old at_post at_mid (inl (a, lo, hi)) =
      let le = IsPart-le m (first + 96) pre b at_pre in inr (inl (a, lo, hi), inl (omega arith))
  places m m1 m2 m3 brk b e x pre old mid post al at_pre at_old at_post at_mid (inr f) =
      elim (FreeAt-split m (first + 96) b x pre (old ++ post) at_pre f) [
        | inl g ↦
            let (lo, hi, a) = FreeAt-bounds m (first + 96) pre b x al at_pre g in
            inr (inr (FreeAt-left (first + 96) x pre (mid ++ post) g), inl (omega arith))
        | inr g ↦ elim (FreeAt-split m1 b e x old post at_old g) [
          | inl g' ↦ inl g'
          | inr g' ↦
              let ab = IsPart-aligned m (first + 96) pre b al at_pre in
              let ae = IsPart-aligned m1 b old e ab at_old in
              let (lo, hi, a) = FreeAt-bounds m2 e post brk x ae at_post g' in
              inr (
                inr (
                    FreeAt-right m (first + 96) b x pre (mid ++ post) at_pre
                      (FreeAt-right m3 b e x mid post at_mid g')),
                inr lo,
              )
        ]
      ]

  module _ (m m1 : Mem) (brk b e : ℕ) (pre old mid post : List Tag) (N : ℕ → Type 0)
      (h : IsHeap first m brk (pre ++ (old ++ post)) N) (at_pre : IsPart m (first + 96) pre b)
      (at_old : IsPart m b old e) (at_post : IsPart m e post brk)
      (away : (x : ℕ) → (x + 4 < b) ⊎ (e ≤ x + 4) → m1 x ≡ m x) where
    pre_le : first + 96 ≤ b
    pre_le = IsPart-le m (first + 96) pre b at_pre

    old_le : b ≤ e
    old_le = IsPart-le m b old e at_old

    aligned_start : (first + 96) % 8 ≡ 0
    aligned_start = let a = h.aligned in omega arith

    module _ (at_mid : IsPart m1 b mid e) (out : (x : ℕ) → N x → FreeAt b old x → ⊥) where
      pub stays : (x : ℕ) → N x → IsPlace first (pre ++ (mid ++ post)) x × ((x + 8 < b) ⊎ (e ≤ x))
      stays x n =
          elim (places m m m m1 brk b e x pre old mid post aligned_start at_pre at_old at_post
            at_mid (h.nodes x n)) [ inl inside ↦ absurd (out x n inside) | inr kept ↦ kept ]

      pub retag-IsHeap : IsWords m1 → IsHeap first m1 brk (pre ++ (mid ++ post)) N
      retag-IsHeap w =
          let le = pre_le in
          let le' = old_le in
          let le_end = IsPart-le m e post brk at_post in
          let keeps : (x : ℕ) → N x → (m1 x ≡ m x) × (m1 (x + 4) ≡ m (x + 4)) = λ x n.
            elim (stays x n).1 [
              | inl below ↦ (away x (inl (omega arith)), away (x + 4) (inl (omega arith)))
              | inr above ↦ (away x (inr (omega arith)), away (x + 4) (inr (omega arith)))
            ] in
          record {
            aligned = h.aligned;
            small = h.small;
            words = w;
            prologue = (
              away (first + 84) (inl (omega arith)) ∙ h.prologue.0,
              away (first + 88) (inl (omega arith)) ∙ h.prologue.1,
            );
            row =
                IsPart-append m1 (first + 96) b brk pre (mid ++ post)
                  (IsPart-same m m1 (first + 96) pre b (omega arith)
                    (λ x t.
                      let (lo, hi) = TagAt-bounds m (first + 96) pre b x at_pre t in
                      away x (inl (omega arith)))
                    at_pre)
                  (IsPart-append m1 b e brk mid post at_mid (
                    IsPart-same m m1 e post brk (omega arith)
                      (λ x t.
                        let (lo, hi) = TagAt-bounds m e post brk x at_post t in
                        away x (inr (omega arith)))
                      at_post));
            epilogue = away (brk - 4) (inr (omega arith)) ∙ h.epilogue;
            nodes = λ x n. (stays x n).0;
            table = h.table;
            cycle =
                IsCycle-agree N (next_empt_blkp first m) (prev_empt_blkp first m)
                  (next_empt_blkp first m1) (prev_empt_blkp first m1)
                  (λ x n. ap (λ v. first + v) (keeps x n).0)
                  (λ x n. ap (λ v. first + v) (keeps x n).1) h.cycle;
            lists =
                IsListed-same first N N (next_empt_blkp first m) (next_empt_blkp first m1)
                  (λ x n. n) (λ x n. ap (λ v. first + v) (keeps x n).0) h.lists;
          }
