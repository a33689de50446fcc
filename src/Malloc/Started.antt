-- ===== src/Malloc/Started.antt =====
-- `mm_init` of mm.c.
use mathlib.Core.Path.{subst}
use computer_systems_practic.Prelude.{
  ℕ, zero, suc, ◌+◌, ◌-◌, ◌*◌, ◌/◌, ◌%◌, ◌^◌, ◌≤◌, ◌<◌, ◌≡◌, refl, sym, ap, ◌∙◌, Bool, true, false,
  Option, none, some, List, [], ◌∷◌, ◌++◌, arith, inl, inr, ◌==◌, if◌then◌else◌, Bool-cases,
}
use computer_systems_practic.Malloc.{
  Mem, put, pack, next_empt_blkp, prev_empt_blkp, Heap, extend_heap,
}
use computer_systems_practic.Malloc.Alloc.{init_table, mm_init}
use computer_systems_practic.Malloc.Row.{Tag}
use computer_systems_practic.Malloc.Used.{UsedAt}
use computer_systems_practic.Malloc.Heaps.{IsPlace, IsHealthy}
use computer_systems_practic.Malloc.Settle.{free_tag}
use computer_systems_practic.Malloc.Extended.Returned.{Extends, extend_heap-Extends}
use computer_systems_practic.Malloc.Words.{IsWords, put-IsWords, init_table-IsWords}

module _ (first : ℕ) (aligned : first % 8 ≡ 0) where
  init_table-below :
      (lists offset : ℕ) (m : Mem) (x : ℕ)
      → x < first + offset
      → init_table first lists offset m x ≡ m x
  unfolding init_table
  init_table-below zero offset m x h = refl
  init_table-below (suc lists) offset m x h =
      let e : x == first + offset + 4 ≡ false = ground arith in
      let f : x == first + offset ≡ false = ground arith in
      init_table-below lists (offset + 8) _ x (omega arith) ∙ rw (e, f) refl

  -- Every entry of the table points to itself, in both of its words.
  init_table_words :
      (lists offset : ℕ) (m : Mem) (x : ℕ)
      → x % 8 ≡ 0
      → offset % 8 ≡ 0
      → first + offset ≤ x
      → x < first + offset + lists * 8
      → offset + lists * 8 < 2 ^ 32
      → (init_table first lists offset m x ≡ x - first)
        × (init_table first lists offset m (x + 4) ≡ x - first)
  unfolding init_table
  init_table_words zero offset m x a b lo hi small = absurd (omega arith)
  init_table_words (suc lists) offset m x a b lo hi small =
      elim (Bool-cases (x == first + offset)) [
        | inl e ↦
            let same : x ≡ first + offset = ground arith in
            let f : x == first + offset + 4 ≡ false = ground arith in
            let g : x + 4 == first + offset + 4 ≡ true = ground arith in
            let fits : offset % 2 ^ 32 ≡ offset = omega arith in
            (
              init_table-below lists (offset + 8) _ x (omega arith) ∙ rw (f, e, fits) (omega arith),
              init_table-below lists (offset + 8) _ (x + 4) (omega arith)
                  ∙ rw (g, fits) (omega arith),
            )
        | inr e ↦
            let ne : x ≡ first + offset → ⊥ = λ q. ground arith in
            init_table_words lists (offset + 8) _ x a (omega arith) (ground arith) (omega arith)
              (omega arith)
      ]

  -- The table, the prologue and the epilogue.
  abbrev pub prepared : Mem → Mem
  prepared m =
      let listp = first + 80 in
      let m1 = put (init_table first 10 0 m) listp 0 in
      let m2 = put m1 (listp + 4) (pack 8 1) in
      let m3 = put m2 (listp + 8) (pack 8 1) in put m3 (listp + 12) (pack 0 1)

  prepared_low : (m : Mem) (x : ℕ) → x < first + 80 → prepared m x ≡ init_table first 10 0 m x
  prepared_low m x h =
      let e : x == first + 80 ≡ false = ground arith in
      let f : x == first + 80 + 4 ≡ false = ground arith in
      let g : x == first + 80 + 8 ≡ false = ground arith in
      let k : x == first + 80 + 12 ≡ false = ground arith in rw (k, g, f, e) refl

  entry_words :
      (m : Mem) (x : ℕ)
      → x % 8 ≡ 0
      → first ≤ x
      → x < first + 80
      → (first + prepared m x ≡ x) × (first + prepared m (x + 4) ≡ x)
  entry_words m x a lo hi =
      let (e, f) = init_table_words 10 0 m x a refl (omega arith) (omega arith) (omega arith) in
      let e' : prepared m x ≡ x - first = prepared_low m x hi ∙ e in
      let f' : prepared m (x + 4) ≡ x - first = prepared_low m (x + 4) (omega arith) ∙ f in
      (omega arith, omega arith)

  entry_cycle :
      (m : Mem) (x : ℕ)
      → x % 8 ≡ 0
      → first ≤ x
      → x < first + 80
      → IsPlace first [] (next_empt_blkp first (prepared m) x)
        × IsPlace first [] (prev_empt_blkp first (prepared m) x)
        × (next_empt_blkp first (prepared m) (prev_empt_blkp first (prepared m) x) ≡ x)
        × (prev_empt_blkp first (prepared m) (next_empt_blkp first (prepared m) x) ≡ x)
  entry_cycle m x a lo hi =
      let (e, f) = entry_words m x a lo hi in
      (
        subst (IsPlace first []) (sym e) (inl (a, lo, hi)),
        subst (IsPlace first []) (sym f) (inl (a, lo, hi)),
        ap (next_empt_blkp first (prepared m)) f ∙ e,
        ap (prev_empt_blkp first (prepared m)) e ∙ f,
      )

  pub prepared-IsHealthy : (m : Mem) → IsWords m → IsHealthy first (prepared m) (first + 96) []
  prepared-IsHealthy m w = record {
    aligned = aligned;
    small = omega arith;
    words = put-IsWords _ (first + 80 + 12) (pack 0 1) (
        put-IsWords _ (first + 80 + 8) (pack 8 1) (
          put-IsWords _ (first + 80 + 4) (pack 8 1)
            (put-IsWords _ (first + 80) 0 (init_table-IsWords first 10 0 m w))));
    prologue = (ground arith, ground arith);
    row = refl;
    epilogue = ground arith;
    nodes = λ x p. p;
    table = λ x a lo hi. inl (a, lo, hi);
    cycle = λ x p. elim p [ inl (a, lo, hi) ↦ entry_cycle m x a lo hi | inr nil ↦ absurd nil ];
    lists = record {
      steps = λ x. 0;
      list = λ x. (x - first) / 8;
      limit = 0;
      falls = λ x p far. elim p [ inl (a, lo, hi) ↦ absurd (omega arith) | inr nil ↦ absurd nil ];
      bounded = λ x p. omega arith;
      same_list = λ x p. elim p [
        | inl (a, lo, hi) ↦ ap (λ v. (v - first) / 8) (entry_words m x a lo hi).0
        | inr nil ↦ absurd nil
      ];
      heads = λ i few. omega arith;
    };
  }

  abbrev heap_of : Option (Heap first × ℕ) → Option (Heap first)
  heap_of none = none
  heap_of (some (h, bp)) = some h

  -- -1, or a well-formed heap without allocated blocks.
  abbrev pub Starts : Option (Heap first) → Type 0
  Starts none = Unit
  Starts (some h) =
      (row : List Tag) × IsHealthy first h.mem h.brk row
      × ((x v : ℕ) → UsedAt (first + 96) row x v → ⊥)

  heap_of-Starts : (o : Option (Heap first × ℕ)) → Extends first [] 4096 o → Starts (heap_of o)
  heap_of-Starts none e = tt
  heap_of-Starts (some (h, bp)) c =
      (c.pre ++ (free_tag c.size ∷ c.post), c.healthy, λ x v a. (c.used x v).1 a)

  abbrev small_heap : Mem → Heap first
  small_heap m = record { mem = prepared m; brk = first + 96 }

  mm_init_lem :
      (grows : ℕ → ℕ → Bool) (m : Mem)
      → mm_init first grows m
        ≡ (if grows first 96 then heap_of (extend_heap first grows (small_heap m) 1024) else none)
  unfolding mm_init
  mm_init_lem grows m = refl

  -- `mm_init` at an aligned address, in words of 32 bits, where the heap never grows beyond 4 GB: it
  -- gives up, or leaves a well-formed heap without allocated blocks.
  pub mm_init-Starts :
      (grows : ℕ → ℕ → Bool) (m : Mem)
      → IsWords m
      → ((s : ℕ) → grows (first + 96) s ≡ true → first + 96 + s ≤ first + 2 ^ 32)
      → Starts (mm_init first grows m)
  mm_init-Starts grows m w bounded =
      let o = extend_heap first grows (small_heap m) 1024 in
      let e =
        extend_heap-Extends first grows (small_heap m) 1024 [] (prepared-IsHealthy m w) bounded refl
          (omega arith) in
      elim (Bool-cases (grows first 96)) [
        | inl g ↦
            subst Starts (sym (mm_init_lem grows m ∙ ap (λ b. if b then heap_of o else none) g))
              (heap_of-Starts o e)
        | inr g ↦
            subst Starts (sym (mm_init_lem grows m ∙ ap (λ b. if b then heap_of o else none) g)) tt
      ]
