-- ===== src/Proxy/Cache/Chain.antt =====
-- The doubly linked list of cache.c.
use computer_systems_practic.Prelude.{
  ℕ, ◌+◌, ◌<◌, ◌≡◌, ◌≢◌, refl, true, false, Option, none, some, List, [], ◌∷◌, ◌==◌, if◌then◌else◌,
  arith, All,
}
use computer_systems_practic.Proxy.Cache.{
  Ptr, CacheLine, Cache, set_next, set_prev, insert_cache_line,
}

-- The lines at the addresses xs, from p on, with prev and next as the order has them; the line before
-- the first one is `back`.
abbrev pub IsChain : (ℕ → Option CacheLine) → Ptr → Ptr → List ℕ → Type 0
IsChain m back p [] = p ≡ none
IsChain m back p (a ∷ xs) =
    (p ≡ some a) × (l : CacheLine) × (m a ≡ some l) × (l.prev ≡ back) × IsChain m (some a) l.next xs

abbrev pub last_of : List ℕ → Ptr
last_of [] = none
last_of (a ∷ []) = some a
last_of (a ∷ b ∷ xs) = last_of (b ∷ xs)

abbrev pub Distinct : List ℕ → Type 0
Distinct [] = Unit
Distinct (a ∷ xs) = All (λ x. x ≢ a) xs × Distinct xs

-- The cache holds the lines at the addresses xs, in this order.
pub record IsCache (c : Cache) (xs : List ℕ) : Type 0 where
  pub chain : IsChain c.lines none c.c_head xs
  pub tail : c.c_tail ≡ last_of xs
  pub distinct : Distinct xs
  pub allocated : All (λ x. x < c.next_free) xs

-- A write at an address that is not in the list.
pub IsChain-frame :
    (m : ℕ → Option CacheLine) (t : ℕ) (l : Option CacheLine) (back p : Ptr) (xs : List ℕ)
    → All (λ x. x ≢ t) xs
    → IsChain m back p xs
    → IsChain (λ x. if x == t then l else m x) back p xs
IsChain-frame m t l back p [] a h = h
IsChain-frame m t l back p (x ∷ xs) (ne, a) (e, lx, at, b, rest) =
    let other : x == t ≡ false = ground arith in
    (e, lx, rw other at, b, IsChain-frame m t l (some x) lx.next xs a rest)

pub below-fresh : (t : ℕ) (xs : List ℕ) → All (λ x. x < t) xs → All (λ x. x ≢ t) xs
below-fresh t [] a = tt
below-fresh t (x ∷ xs) (l, a) = (omega arith, below-fresh t xs a)

pub below-suc : (t : ℕ) (xs : List ℕ) → All (λ x. x < t) xs → All (λ x. x < t + 1) xs
below-suc t [] a = tt
below-suc t (x ∷ xs) (l, a) = (omega arith, below-suc t xs a)

-- A line with the data of l stands at t.
abbrev pub Holds : Cache → ℕ → CacheLine → Type 0
Holds c t l =
    (l' : CacheLine) × (c.lines t ≡ some l')
    × (l'.tag ≡ l.tag)
    × (l'.object ≡ l.object)
    × (l'.length ≡ l.length)

module _ (t : ℕ) (l : CacheLine) where
  abbrev linked : Cache → ℕ → CacheLine → Cache
  linked c h lh = record c {
    c_head = some t;
    lines = λ x.
        if x == h
        then some (record lh { prev = some t })
        else if x == t
        then some (record l { next = some h })
        else c.lines x;
  }

  insert_linked :
      (c : Cache) (h : ℕ) (lh : CacheLine)
      → c.c_head ≡ some h
      → c.lines t ≡ some l
      → c.lines h ≡ some lh
      → h ≢ t
      → insert_cache_line t c ≡ some (linked c h lh)
  unfolding insert_cache_line set_next set_prev
  insert_linked c h lh e at at_h ne = ground (arith, insert_cache_line)

  -- A line that is not in the list becomes its head.
  pub insert-IsCache :
      (c : Cache) (xs : List ℕ)
      → IsCache c xs
      → c.lines t ≡ some l
      → l.prev ≡ none
      → (xs ≡ [] → l.next ≡ none)
      → All (λ x. x ≢ t) xs
      → t < c.next_free
      → (c1 : Cache) × (insert_cache_line t c ≡ some c1)
        × IsCache c1 (t ∷ xs)
        × (c1.remain_size ≡ c.remain_size)
        × Holds c1 t l
  unfolding insert_cache_line
  insert-IsCache c [] v at p q ne old = (
    record c { c_head = some t; c_tail = some t },
    rw (insert_cache_line, v.chain) refl,
    record {
      chain = (refl, l, at, p, q refl);
      tail = refl;
      distinct = (tt, tt);
      allocated = (old, tt);
    },
    refl,
    (l, at, refl, refl, refl),
  )
  insert-IsCache c (h ∷ ys) v at p q (ne, others) old =
      let (e, lh, at_h, b, rest) = v.chain in
      let m1 : ℕ → Option CacheLine =
        λ x. if x == t then some (record l { next = some h }) else c.lines x in
      let t_h : t == h ≡ false = ground arith in
      let t_t : t == t ≡ true = ground arith in
      let h_h : h == h ≡ true = ground arith in
      let at_t : (linked c h lh).lines t ≡ some (record l { next = some h }) = rw (t_h, t_t) refl in
      let at_h' : (linked c h lh).lines h ≡ some (record lh { prev = some t }) = rw h_h refl in
      (
        linked c h lh,
        insert_linked c h lh e at at_h ne,
        record {
          chain = (
            refl,
            record l { next = some h },
            at_t,
            p,
            (
              refl,
              record lh { prev = some t },
              at_h',
              refl,
              IsChain-frame m1 h (some (record lh { prev = some t })) (some h) lh.next ys
                  (v.distinct.0) (IsChain-frame c.lines t _ (some h) lh.next ys others rest),
            ),
          );
          tail = v.tail;
          distinct = ((ne, others), v.distinct);
          allocated = (old, v.allocated);
        },
        refl,
        (record l { next = some h }, at_t, refl, refl, refl),
      )
