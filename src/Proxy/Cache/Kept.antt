-- ===== src/Proxy/Cache/Kept.antt =====
-- `remove_cache_line` of cache.c on any list: no line loses its data.
use computer_systems_practic.Prelude.{
  ℕ, ◌≡◌, refl, ap, ◌∙◌, Option, none, some, arith, if◌then◌else◌,
}
use computer_systems_practic.Proxy.Cache.{
  Ptr, CacheLine, Cache, is_ptr, set_next, set_prev, unlink_prev, unlink_next, remove_cache_line,
}
use computer_systems_practic.Proxy.Cache.Writes.{data_of, set_next-data, set_prev-data}

-- What an operation that may fault leaves behind has the data that c has.
abbrev pub HasData : Cache → Option Cache → Type 0
HasData c none = Unit
HasData c (some c1) = (x : ℕ) → data_of (c1.lines x) ≡ data_of (c.lines x)

some-HasData :
    (c : Cache) (o : Option Cache)
    → ((c1 : Cache) → o ≡ some c1 → (x : ℕ) → data_of (c1.lines x) ≡ data_of (c.lines x))
    → HasData c o
some-HasData c none h = tt
some-HasData c (some c1) h = h c1 refl

unlink_prev-HasData : (t : ℕ) (c : Cache) → HasData c (unlink_prev t c)
unfolding unlink_prev
unlink_prev-HasData t c = go (c.lines t)
  where
    at :
        (l : CacheLine) (p : Ptr)
        → HasData c (elim p [ none ↦ some c | some a ↦ set_next a l.next c ])
    at l none = λ x. refl
    at l (some a) = some-HasData c (set_next a l.next c) (λ c1 e. set_next-data a l.next c c1 e)

    go :
        (o : Option CacheLine)
        → HasData c (elim o [
          | none ↦ none
          | some l ↦ elim (l.prev) [ none ↦ some c | some a ↦ set_next a l.next c ]
        ])
    go none = tt
    go (some l) = at l l.prev

unlink_next-HasData : (t : ℕ) (c : Cache) → HasData c (unlink_next t c)
unfolding unlink_next
unlink_next-HasData t c = go (c.lines t)
  where
    at :
        (l : CacheLine) (p : Ptr)
        → HasData c (elim p [ none ↦ some c | some a ↦ set_prev a l.prev c ])
    at l none = λ x. refl
    at l (some a) = some-HasData c (set_prev a l.prev c) (λ c1 e. set_prev-data a l.prev c c1 e)

    go :
        (o : Option CacheLine)
        → HasData c (elim o [
          | none ↦ none
          | some l ↦ elim (l.next) [ none ↦ some c | some a ↦ set_prev a l.prev c ]
        ])
    go none = tt
    go (some l) = at l l.next

HasData-trans :
    (c c1 : Cache) (o : Option Cache)
    → ((x : ℕ) → data_of (c1.lines x) ≡ data_of (c.lines x))
    → HasData c1 o
    → HasData c o
HasData-trans c c1 none h k = tt
HasData-trans c c1 (some c2) h k = λ x. k x ∙ h x

-- The two globals that may change first.
abbrev relinked : ℕ → CacheLine → Cache → Cache
relinked t l c =
    let c1 = if is_ptr c.c_head t then record c { c_head = l.next } else c in
    if is_ptr c1.c_tail t then record c1 { c_tail = l.prev } else c1

relinked-lines : (t : ℕ) (l : CacheLine) (c : Cache) → (relinked t l c).lines ≡ c.lines
relinked-lines t l c = ground arith

pub remove_cache_line-HasData : (t : ℕ) (c : Cache) → HasData c (remove_cache_line t c)
unfolding remove_cache_line
remove_cache_line-HasData t c = go (c.lines t)
  where
    next :
        (o : Option Cache)
        → HasData c o
        → HasData c (elim o [ none ↦ none | some c3 ↦ unlink_next t c3 ])
    next none h = tt
    next (some c3) h = HasData-trans c c3 (unlink_next t c3) h (unlink_next-HasData t c3)

    go :
        (o : Option CacheLine)
        → HasData c (elim o [
          | none ↦ none
          | some l ↦ elim (unlink_prev t (relinked t l c)) [
            | none ↦ none
            | some c3 ↦ unlink_next t c3
          ]
        ])
    go none = tt
    go (some l) = next (unlink_prev t (relinked t l c)) (
        HasData-trans c (relinked t l c) (unlink_prev t (relinked t l c))
          (λ x. ap (λ m. data_of (m x)) (relinked-lines t l c))
          (unlink_prev-HasData t (relinked t l c)))
