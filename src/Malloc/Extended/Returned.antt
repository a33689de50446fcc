-- ===== src/Malloc/Extended/Returned.antt =====
-- What `extend_heap` of mm.c returns in a well-formed heap.
use mathlib.Core.Path.{subst}
use computer_systems_practic.Prelude.{
  ℕ, ◌+◌, ◌-◌, ◌*◌, ◌%◌, ◌^◌, ◌≤◌, ◌≡◌, refl, sym, ap, ◌∙◌, Bool, true, Option, none, some, List,
  [], ◌∷◌, ◌++◌, arith, inl, inr, ◌==◌, if◌then◌else◌, Bool-cases,
}
use computer_systems_practic.Malloc.{
  Mem, put, pack, put_tags, get_size, hdrp, next_blkp, coalesce, Heap, extend_heap,
}
use computer_systems_practic.Malloc.Row.{Tag, IsPart, IsPart-le}
use computer_systems_practic.Malloc.Used.{UsedAt-split, UsedAt-left}
use computer_systems_practic.Malloc.Heaps.{IsHealthy}
use computer_systems_practic.Malloc.Retag.{get_size-word, put_tags-IsPart}
use computer_systems_practic.Malloc.Settle.{free_tag}
use computer_systems_practic.Malloc.Merge.{Coalesced}
use computer_systems_practic.Malloc.Extended.{grown-Coalesced, new_IsTag}

module _ (first : ℕ) where
  Coalesced-used :
      (m m' : Mem) (brk brk' b size : ℕ) (ts : List Tag)
      → IsPart m (first + 96) ts brk
      → Coalesced first (ts ++ (free_tag size ∷ [])) size m' brk' b
      → Coalesced first ts size m' brk' b
  Coalesced-used m m' brk brk' b size ts row c = record {
    pre = c.pre;
    size = c.size;
    post = c.post;
    healthy = c.healthy;
    at = c.at;
    room = c.room;
    used = λ x v. (
      (λ a. (c.used x v).0 (UsedAt-left (first + 96) x v ts (free_tag size ∷ []) a)),
      (λ a.
          elim (UsedAt-split m (first + 96) brk x v ts (free_tag size ∷ []) row
            ((c.used x v).1 a)) [
              | inl old ↦ old
              | inr (inl (e, z, g)) ↦ absurd (omega arith)
              | inr (inr nil) ↦ absurd nil
            ]),
    );
  }

  -- The block of a size, with the epilogue before the address n, in the larger heap.
  abbrev ended : Heap first → (size n : ℕ) → Heap first × ℕ
  ended h size n =
      let r = coalesce first (put (put_tags first h.mem h.brk size 0) (hdrp n) (pack 0 1)) h.brk in
      (record { mem = r.0; brk = h.brk + size }, r.1)

  abbrev sized : (ℕ → ℕ → Bool) → Heap first → (size : ℕ) → Option (Heap first × ℕ)
  sized grows h size =
      if grows h.brk size
      then some (ended h size (next_blkp (put_tags first h.mem h.brk size 0) h.brk))
      else none

  extend_heap_lem :
      (grows : ℕ → ℕ → Bool) (h : Heap first) (words : ℕ)
      → extend_heap first grows h words
        ≡ sized grows h (if words % 2 == 0 then 4 * words else 4 * (words + 1))
  unfolding extend_heap
  extend_heap_lem grows h words = refl

  -- What extend_heap returns in a well-formed heap: nothing, or a well-formed heap with the same
  -- allocated blocks and a free block of at least the size.
  abbrev pub Extends : (ts : List Tag) (size : ℕ) → Option (Heap first × ℕ) → Type 0
  Extends ts size none = Unit
  Extends ts size (some (h, b)) = Coalesced first ts size h.mem h.brk b

  pub extend_heap-Extends :
      (grows : ℕ → ℕ → Bool) (h : Heap first) (words : ℕ) (ts : List Tag)
      → IsHealthy first h.mem h.brk ts
      → ((s : ℕ) → grows h.brk s ≡ true → h.brk + s ≤ first + 2 ^ 32)
      → words % 2 ≡ 0
      → 4 ≤ words
      → Extends ts (4 * words) (extend_heap first grows h words)
  extend_heap-Extends grows h words ts healthy bounded even least =
      let size = 4 * words in
      let e : (if words % 2 == 0 then size else 4 * (words + 1)) ≡ size = ground arith in
      let start = extend_heap_lem grows h words ∙ ap (sized grows h) e in
      elim (Bool-cases (grows h.brk size)) [
        | inr g ↦
            let none_is : extend_heap first grows h words ≡ none =
              start
              ∙ ap
                  (λ b.
                    if b
                    then some (ended h size (next_blkp (put_tags first h.mem h.brk size 0) h.brk))
                    else none)
                  g in
            subst (Extends ts size) (sym none_is) tt
        | inl g ↦
            let fits = bounded size g in
            let multiple : size % 8 ≡ 0 = omega arith in
            let c = grown-Coalesced first h.mem h.brk size ts healthy multiple (omega arith) fits in
            let k = new_IsTag first h.mem h.brk size ts healthy multiple (omega arith) fits in
            let lo = IsPart-le h.mem (first + 96) ts h.brk healthy.row in
            let (k', hd, ft, end) =
              put_tags-IsPart first h.mem h.brk (free_tag size) k (omega arith) in
            let next_is : get_size (put_tags first h.mem h.brk size 0) (h.brk - 4) ≡ size =
              get_size-word (put_tags first h.mem h.brk size 0) (h.brk - 4) (free_tag size) k hd in
            let some_is : extend_heap first grows h words ≡ some (ended h size (h.brk + size)) =
              start
              ∙ ap
                  (λ b.
                    if b
                    then some (ended h size (next_blkp (put_tags first h.mem h.brk size 0) h.brk))
                    else none)
                  g
              ∙ ap (λ n. some (ended h size (h.brk + n))) next_is in
            subst (Extends ts size) (sym some_is)
              (Coalesced-used h.mem _ h.brk _ _ size ts healthy.row c)
      ]
