-- ===== src/Proxy/Cache/Add.antt =====
-- `add_object` of cache.c on a well-formed list.
use computer_systems_practic.Prelude.{
  ℕ, ◌+◌, ◌-◌, ◌%◌, ◌^◌, ◌<◌, ◌≤◌, ◌≡◌, ◌≢◌, refl, sym, ◌∙◌, true, false, none, some, List, [], ◌∷◌,
  ◌++◌, arith, ◌==◌, ltb, if◌then◌else◌, All, Bool-cases, inl, inr, length, ◌⊎◌,
}
use computer_systems_practic.Proxy.Cache.{
  CacheLine, Cache, Outcome, returned, crashed, store, evict_lines, max_cache_size, max_line,
  fits_line, new_line, place_line, add_line, add_object,
}
use computer_systems_practic.Proxy.Request.{max_object_size}
use computer_systems_practic.Proxy.Cache.Chain.{
  IsCache, IsChain-frame, insert-IsCache, Holds, below-fresh, below-suc,
}
use computer_systems_practic.Proxy.Cache.Writes.{data_of, insert_cache_line-data}
use computer_systems_practic.Proxy.Cache.Sizes.{
  size_of, IsSized, Same, Same-trans, total-Same, All-front,
}
use computer_systems_practic.Proxy.Cache.Unlink.{All-drop}
use computer_systems_practic.Proxy.Cache.Evict.{Evicts, evict_lines-Evicts, evicts_none}

-- What `add_object` makes of the lines xs: a new one at the head, with the object, and a front part of
-- the others behind it. No line went that could stay.
pub record Added (t : ℕ) (l : CacheLine) (c c1 : Cache) (xs kept gone : List ℕ) : Type 0 where
  pub parts : xs ≡ kept ++ gone
  pub cache : IsCache c1 (t ∷ kept)
  pub sized : IsSized c1 (t ∷ kept)
  pub line : Holds c1 t l
  pub same : Same c.lines c1.lines kept
  pub needed : (g : ℕ) (gs : List ℕ) → gone ≡ g ∷ gs → c1.remain_size < size_of (c.lines g)

module _ (t : ℕ) (l : CacheLine) where
  -- The new line, in memory but not in the list.
  abbrev allocated_at : Cache → Cache
  allocated_at c = record (store c t (some l)) { next_free = t + 1 }

  Same-fresh :
      (c : Cache) (xs : List ℕ) → All (λ x. x ≢ t) xs → Same c.lines (allocated_at c).lines xs
  Same-fresh c [] a = tt
  Same-fresh c (x ∷ xs) (ne, a) =
      let e : x == t ≡ false = ground arith in (rw e refl, Same-fresh c xs a)

  Same-all :
      (c c1 : Cache) (xs : List ℕ)
      → ((x : ℕ) → data_of (c1.lines x) ≡ data_of (c.lines x))
      → Same c.lines c1.lines xs
  Same-all c c1 [] h = tt
  Same-all c c1 (x ∷ xs) h = (h x, Same-all c c1 xs h)

  -- The last two steps, after an eviction.
  place_line-Added :
      (o : Outcome) (c : Cache) (xs : List ℕ)
      → All (λ x. x ≢ t) xs
      → l.prev ≡ none
      → l.next ≡ none
      → Evicts o l.length (allocated_at c) xs
      → (kept : List ℕ) × (gone : List ℕ) × (c1 : Cache) × (place_line l.length t o
          ≡ returned none c1)
        × Added t l c c1 xs kept gone
  place_line-Added o c xs fresh p q (kept, gone, c2, e, ev) =
      let t_t : t == t ≡ true = ground arith in
      let at : c2.lines t ≡ some l = ev.frame t fresh ∙ rw t_t refl in
      let fresh' : All (λ x. x ≢ t) (kept ++ gone) = rw (sym ev.parts) fresh in
      let front = All-front _ kept gone fresh' in
      let c3 = record c2 { remain_size = (c2.remain_size + 2 ^ 32 - l.length) % 2 ^ 32 } in
      let v3 : IsCache c3 kept = record {
        chain = ev.cache.chain;
        tail = ev.cache.tail;
        distinct = ev.cache.distinct;
        allocated = ev.cache.allocated;
      } in
      let old : t < c2.next_free = omega (arith, ev.fresh) in
      let (c1, e1, v1, remain, held) = insert-IsCache t l c3 kept v3 at p (λ e. q) front old in
      let (l', at', tag, object, len) = held in
      let data_kept = Same-all c2 c1 kept (insert_cache_line-data t c3 c1 e1) in
      let sizes = total-Same c2.lines c1.lines kept data_kept in
      let size_t : size_of (c1.lines t) ≡ l.length = rw at' len in
      let left : c1.remain_size ≡ c2.remain_size - l.length =
        omega (arith, remain, ev.room, ev.sized) in
      (
        kept,
        gone,
        c1,
        rw (e, place_line, e1) refl,
        record {
          parts = ev.parts;
          cache = v1;
          sized = omega (arith, sizes, size_t, left, ev.room, ev.sized);
          line = held;
          same =
              Same-trans c.lines (allocated_at c).lines c1.lines kept (Same-fresh c kept front)
                (Same-trans (allocated_at c).lines c2.lines c1.lines kept ev.same data_kept);
          needed = λ g gs eg.
              let one : All (λ x. x ≢ t) (kept ++ g ∷ gs) = rw (sym eg) fresh' in
              let ne : g == t ≡ false = let n = (All-drop _ kept _ one).0 in ground arith in
              let same_g : size_of ((allocated_at c).lines g) ≡ size_of (c.lines g) = rw ne refl in
              omega (arith, left, ev.needed g gs eg, same_g, ev.room);
        },
      )

-- From the filled line on.
add_line-Added :
    (fuel : ℕ) (uri object : List ℕ) (len : ℕ) (c : Cache) (xs : List ℕ)
    → IsCache c xs
    → IsSized c xs
    → len ≤ max_cache_size
    → length xs ≤ fuel
    → (kept : List ℕ) × (gone : List ℕ) × (c1 : Cache) × (add_line fuel uri object len c
        ≡ returned none c1)
      × Added c.next_free (new_line uri object len) c c1 xs kept gone
unfolding add_line
add_line-Added fuel uri object len c xs v sized small enough =
    let t = c.next_free in
    let l = new_line uri object len in
    let c0 = allocated_at t l c in
    let fresh = below-fresh t xs v.allocated in
    let v0 : IsCache c0 xs = record {
      chain = IsChain-frame c.lines t (some l) none c.c_head xs fresh v.chain;
      tail = v.tail;
      distinct = v.distinct;
      allocated = below-suc t xs v.allocated;
    } in
    let sized0 : IsSized c0 xs =
      omega (arith, sized, total-Same c.lines c0.lines xs (Same-fresh t l c xs fresh)) in
    let o =
      if ltb c0.remain_size len then evict_lines fuel len c0.remain_size c0 else returned none c0 in
    let evicts : Evicts o len c0 xs = elim (Bool-cases (ltb c.remain_size len)) [
      | inl b ↦ rw b (evict_lines-Evicts fuel len c.remain_size c0 xs v0 sized0 small enough)
      | inr b ↦
          rw b (xs, [], c0, refl, evicts_none len c.remain_size c0 xs v0 sized0 (ground arith))
    ] in
    place_line-Added t l o c xs fresh refl refl evicts

-- `add_object` in a well-formed cache whose lengths and remaining size make up the cache's size, with
-- a uri that fits its array of MAXLINE characters, an object of at most MAX_OBJECT_SIZE, which is the
-- size of its array, and a round for each line: it returns, the new line is at the head with the uri
-- and the object as `strncpy` copies it, the lines that stay are the most recently used ones in their
-- order and hold what they held, the lengths and the remaining size make up the cache's size again,
-- and the line that went last would not have fitted into what remains. With a longer uri or object it
-- writes past the end of an array.
pub add_object-Added :
    (fuel : ℕ) (uri object : List ℕ) (len : ℕ) (c : Cache) (xs : List ℕ)
    → IsCache c xs
    → IsSized c xs
    → length xs ≤ fuel
    → (length uri < max_line)
        × (len ≤ max_object_size)
        × ((kept : List ℕ) × (gone : List ℕ) × (c1 : Cache) × (add_object fuel uri object len c
              ≡ returned none c1)
            × Added c.next_free (new_line uri object len) c c1 xs kept gone)
      ⊎ ((max_line ≤ length uri) ⊎ (max_object_size < len))
        × (add_object fuel uri object len c ≡ crashed)
unfolding add_object
add_object-Added fuel uri object len c xs v sized enough = elim (Bool-cases (fits_line uri len)) [
  | inl fits ↦
      let (kept, gone, c1, e, added) =
        add_line-Added fuel uri object len c xs v sized (ground arith) enough in
      inl (ground arith, ground arith, (kept, gone, c1, rw fits e, added))
  | inr past ↦ inr (ground arith, rw past refl)
]
