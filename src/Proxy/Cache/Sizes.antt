-- ===== src/Proxy/Cache/Sizes.antt =====
-- One round of `evict_cache_line` of cache.c on a well-formed list, and the sizes of its lines.
use mathlib.Core.Path.{subst}
use mathlib.Core.List.{append-nil}
use computer_systems_practic.Prelude.{
  ℕ, ◌+◌, ◌≡◌, ◌≢◌, refl, sym, ap, ◌∙◌, false, Option, none, some, List, [], ◌∷◌, ◌++◌, arith, ◌==◌,
  All,
}
use computer_systems_practic.Proxy.Cache.{
  CacheLine, Cache, evict_one, free_cache_line, max_cache_size,
}
use computer_systems_practic.Proxy.Cache.Chain.{Distinct, IsCache, IsChain-frame}
use computer_systems_practic.Proxy.Cache.Writes.{data_of}
use computer_systems_practic.Proxy.Cache.Unlink.{All-drop}
use computer_systems_practic.Proxy.Cache.Remove.{Kept, line_at, remove_cache_line-IsCache}

abbrev pub size_of : Option CacheLine → ℕ
size_of none = 0
size_of (some l) = l.length

-- The sum of the lengths of the lines.
abbrev pub total : (ℕ → Option CacheLine) → List ℕ → ℕ
total m [] = 0
total m (x ∷ xs) = size_of (m x) + total m xs

-- The lengths of the lines and the remaining size make up the size of the cache.
abbrev pub IsSized : Cache → List ℕ → Type 0
IsSized c xs = total c.lines xs + c.remain_size ≡ max_cache_size

pub size_of-data : (k l : Option CacheLine) → data_of k ≡ data_of l → size_of k ≡ size_of l
size_of-data k l e = through k ∙ ap size_of e ∙ sym (through l)
  where
    through : (k : Option CacheLine) → size_of k ≡ size_of (data_of k)
    through none = refl
    through (some l) = refl

-- The lines at the addresses xs hold in one memory what they hold in the other.
abbrev pub Same : (m m1 : ℕ → Option CacheLine) → List ℕ → Type 0
Same m m1 = All (λ x. data_of (m1 x) ≡ data_of (m x))

pub total-Same :
    (m m1 : ℕ → Option CacheLine) (xs : List ℕ) → Same m m1 xs → total m1 xs ≡ total m xs
total-Same m m1 [] s = refl
total-Same m m1 (x ∷ xs) (e, s) =
    let e1 = size_of-data (m1 x) (m x) e in let e2 = total-Same m m1 xs s in omega arith

pub Same-trans :
    (m m1 m2 : ℕ → Option CacheLine) (xs : List ℕ) → Same m m1 xs → Same m1 m2 xs → Same m m2 xs
Same-trans m m1 m2 [] s s' = tt
Same-trans m m1 m2 (x ∷ xs) (e, s) (e', s') = (e' ∙ e, Same-trans m m1 m2 xs s s')

pub All-front : (P : ℕ → Type 0) (ys zs : List ℕ) → All P (ys ++ zs) → All P ys
All-front P [] zs a = tt
All-front P (y ∷ ys) zs (p, a) = (p, All-front P ys zs a)

pub total-snoc :
    (m : ℕ → Option CacheLine) (ys : List ℕ) (t : ℕ)
    → total m (ys ++ t ∷ []) ≡ total m ys + size_of (m t)
total-snoc m [] t = omega arith
total-snoc m (y ∷ ys) t = omega (arith, total-snoc m ys t)

apart-last : (t : ℕ) (ys : List ℕ) → Distinct (ys ++ t ∷ []) → All (λ x. x ≢ t) ys
apart-last t [] d = tt
apart-last t (y ∷ ys) (ne, d) = (λ e. last-apart y ys ne (sym e), apart-last t ys d)
  where
    last-apart : (y : ℕ) (ys : List ℕ) → All (λ x. x ≢ y) (ys ++ t ∷ []) → t ≢ y
    last-apart y [] (n, a) = n
    last-apart y (z ∷ ys) (n, a) = last-apart y ys a

Same-free :
    (c c1 : Cache) (t : ℕ) (xs ys : List ℕ)
    → Kept c c1 xs
    → All (λ x. x ≢ t) ys
    → Same c.lines (free_cache_line t c1).lines ys
unfolding free_cache_line
Same-free c c1 t xs [] k a = tt
Same-free c c1 t xs (y ∷ ys) k (ne, a) =
    let e : y == t ≡ false = ground arith in (rw e (k.held y), Same-free c c1 t xs ys k a)

-- One round: the line at the tail is taken out and freed.
pub evict_one-IsCache :
    (t : ℕ) (c : Cache) (ys : List ℕ)
    → IsCache c (ys ++ t ∷ [])
    → (c1 : Cache) × (evict_one t c ≡ some (size_of (c.lines t), c1))
      × IsCache c1 ys
      × Same c.lines c1.lines ys
      × (c1.next_free ≡ c.next_free)
      × ((x : ℕ) → All (λ y. y ≢ x) (ys ++ t ∷ []) → c1.lines x ≡ c.lines x)
unfolding evict_one free_cache_line
evict_one-IsCache t c ys v =
    let (l, at_l) = line_at c.lines none c.c_head t ys [] v.chain in
    let (c1, e, v1', kept, at) = remove_cache_line-IsCache t c ys [] v in
    let v1 : IsCache c1 ys = subst (λ zs. IsCache c1 zs) (append-nil ys) v1' in
    let a = apart-last t ys v.distinct in
    (
      free_cache_line t c1,
      rw (evict_one, at_l, e) refl,
      record {
        chain = IsChain-frame c1.lines t none none c1.c_head ys a v1.chain;
        tail = v1.tail;
        distinct = v1.distinct;
        allocated = v1.allocated;
      },
      Same-free c c1 t (ys ++ t ∷ []) ys kept a,
      kept.fresh,
      λ x a.
          let ne : x == t ≡ false = let n = (All-drop _ ys _ a).0 in ground arith in
          rw ne (kept.frame x a),
    )
