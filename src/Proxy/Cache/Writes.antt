-- ===== src/Proxy/Cache/Writes.antt =====
-- The writes to the pointers of a line that the operations of cache.c make.
use computer_systems_practic.Prelude.{
  ℕ, ◌≡◌, refl, sym, ap, ◌∙◌, Option, none, some, List, [], ◌∷◌, arith, ◌==◌, Bool-cases, ◌⊎◌, inl,
  inr,
}
use computer_systems_practic.Proxy.Cache.{
  Ptr, CacheLine, Cache, store, set_next, set_prev, unlink_prev, unlink_next, insert_cache_line,
}
use computer_systems_practic.Proxy.Cache.Chain.{IsChain}
use computer_systems_practic.Proxy.Cache.Unlink.{Lines, map_line, with_prev, with_next}

-- What a line holds apart from its pointers.
abbrev pub data_of : Option CacheLine → Option CacheLine
data_of = map_line (λ l. record l { prev = none; next = none })

pub data_of-with_next :
    (m : Lines) (p q : Ptr) (x : ℕ) → data_of (with_next p q m x) ≡ data_of (m x)
data_of-with_next m none q x = refl
data_of-with_next m (some a) q x = elim (Bool-cases (x == a)) [
  | inr e ↦ rw e refl
  | inl e ↦ let same : x ≡ a = ground arith in rw (e, same) (data_of-map q (m a))
]
  where
    data_of-map :
        (q : Ptr) (l : Option CacheLine)
        → data_of (map_line (λ l. record l { next = q }) l) ≡ data_of l
    data_of-map q none = refl
    data_of-map q (some l) = refl

pub data_of-with_prev :
    (m : Lines) (p q : Ptr) (x : ℕ) → data_of (with_prev p q m x) ≡ data_of (m x)
data_of-with_prev m none q x = refl
data_of-with_prev m (some a) q x = elim (Bool-cases (x == a)) [
  | inr e ↦ rw e refl
  | inl e ↦ let same : x ≡ a = ground arith in rw (e, same) (data_of-map q (m a))
]
  where
    data_of-map :
        (q : Ptr) (l : Option CacheLine)
        → data_of (map_line (λ l. record l { prev = q }) l) ≡ data_of l
    data_of-map q none = refl
    data_of-map q (some l) = refl

-- A pointer that is NULL or to a line.
abbrev pub Present : Lines → Ptr → Type 0
Present m none = Unit
Present m (some a) = (l : CacheLine) × (m a ≡ some l)

pub first-Present : (m : Lines) (back p : Ptr) (xs : List ℕ) → IsChain m back p xs → Present m p
first-Present m back none xs h = tt
first-Present m back (some p) [] h = cc
first-Present m back (some p) (x ∷ xs) (e, l, at, b, h) = let same : p ≡ x = cc in (l, rw same at)

pub Present-with_next : (m : Lines) (p q r : Ptr) → Present m r → Present (with_next p q m) r
Present-with_next m none q r h = h
Present-with_next m (some a) q none h = tt
Present-with_next m (some a) q (some b) (l, at) = elim (Bool-cases (b == a)) [
  | inr e ↦ (l, rw (e, at) refl)
  | inl e ↦ let same : a ≡ b = ground arith in (record l { next = q }, rw (e, same, at) refl)
]

set_next-line :
    (p : ℕ) (q : Ptr) (c : Cache)
    → Present c.lines (some p)
    → set_next p q c ≡ some (store c p (map_line (λ l. record l { next = q }) (c.lines p)))
unfolding set_next
set_next-line p q c (l, at) = rw (set_next, at) refl

set_prev-line :
    (p : ℕ) (q : Ptr) (c : Cache)
    → Present c.lines (some p)
    → set_prev p q c ≡ some (store c p (map_line (λ l. record l { prev = q }) (c.lines p)))
unfolding set_prev
set_prev-line p q c (l, at) = rw (set_prev, at) refl

pub unlink_prev-line :
    (t : ℕ) (l : CacheLine) (c : Cache) (p : Ptr)
    → c.lines t ≡ some l
    → l.prev ≡ p
    → Present c.lines p
    → unlink_prev t c ≡ some (record c { lines = with_next p l.next c.lines })
unfolding unlink_prev
unlink_prev-line t l c none at e h = rw (unlink_prev, at, e) refl
unlink_prev-line t l c (some p) at e h = rw (unlink_prev, at, e) (set_next-line p l.next c h)

pub unlink_next-line :
    (t : ℕ) (l : CacheLine) (c : Cache) (n : Ptr)
    → c.lines t ≡ some l
    → l.next ≡ n
    → Present c.lines n
    → unlink_next t c ≡ some (record c { lines = with_prev n l.prev c.lines })
unfolding unlink_next
unlink_next-line t l c none at e h = rw (unlink_next, at, e) refl
unlink_next-line t l c (some n) at e h = rw (unlink_next, at, e) (set_prev-line n l.prev c h)

line_cases : (m : Lines) (a : ℕ) → (m a ≡ none) ⊎ Present m (some a)
line_cases m a = go (m a) refl
  where
    go : (l : Option CacheLine) → m a ≡ l → (m a ≡ none) ⊎ Present m (some a)
    go none e = inl e
    go (some l) e = inr (l, e)

pub set_next-data :
    (a : ℕ) (p : Ptr) (c c1 : Cache)
    → set_next a p c ≡ some c1
    → (x : ℕ) → data_of (c1.lines x) ≡ data_of (c.lines x)
unfolding set_next
set_next-data a p c c1 e x = elim (line_cases c.lines a) [
  | inl n ↦ let f : set_next a p c ≡ none = rw (set_next, n) refl in absurd cc
  | inr h ↦
      let s : c1 ≡ store c a (map_line (λ l. record l { next = p }) (c.lines a)) =
        let f = set_next-line a p c h in cc in
      rw s (data_of-with_next c.lines (some a) p x)
]

pub set_prev-data :
    (a : ℕ) (p : Ptr) (c c1 : Cache)
    → set_prev a p c ≡ some c1
    → (x : ℕ) → data_of (c1.lines x) ≡ data_of (c.lines x)
unfolding set_prev
set_prev-data a p c c1 e x = elim (line_cases c.lines a) [
  | inl n ↦ let f : set_prev a p c ≡ none = rw (set_prev, n) refl in absurd cc
  | inr h ↦
      let s : c1 ≡ store c a (map_line (λ l. record l { prev = p }) (c.lines a)) =
        let f = set_prev-line a p c h in cc in
      rw s (data_of-with_prev c.lines (some a) p x)
]

-- The same with the two writes named.
unfoldable link_before : (t h : ℕ) → Cache → Option Cache
unfolding set_next set_prev
link_before t h c = elim (set_next t (some h) c) [
  | none ↦ none
  | some c1 ↦ elim (set_prev h (some t) c1) [
    | none ↦ none
    | some c2 ↦ some (record c2 { c_head = some t })
  ]
]

link_before-data :
    (t h : ℕ) (c c1 : Cache)
    → link_before t h c ≡ some c1
    → (x : ℕ) → data_of (c1.lines x) ≡ data_of (c.lines x)
unfolding link_before
link_before-data t h c c1 e x = first (set_next t (some h) c) refl
  where
    second :
        (c' : Cache) (o : Option Cache)
        → set_next t (some h) c ≡ some c'
        → set_prev h (some t) c' ≡ o
        → data_of (c1.lines x) ≡ data_of (c.lines x)
    second c' none f g =
        let no : link_before t h c ≡ none = rw (link_before, f, g) refl in absurd cc
    second c' (some c2) f g =
        let yes : link_before t h c ≡ some (record c2 { c_head = some t }) =
          rw (link_before, f, g) refl in
        let same : c1 ≡ record c2 { c_head = some t } = cc in
        ap (λ k. data_of (k.lines x)) same
        ∙ set_prev-data h (some t) c' c2 g x
        ∙ set_next-data t (some h) c c' f x

    first :
        (o : Option Cache) → set_next t (some h) c ≡ o → data_of (c1.lines x) ≡ data_of (c.lines x)
    first none f = let no : link_before t h c ≡ none = rw (link_before, f) refl in absurd cc
    first (some c') f = second c' (set_prev h (some t) c') f refl

pub insert_cache_line-data :
    (t : ℕ) (c c1 : Cache)
    → insert_cache_line t c ≡ some c1
    → (x : ℕ) → data_of (c1.lines x) ≡ data_of (c.lines x)
unfolding insert_cache_line link_before
insert_cache_line-data t c c1 e x = go c.c_head refl
  where
    go : (h : Ptr) → c.c_head ≡ h → data_of (c1.lines x) ≡ data_of (c.lines x)
    go none eh =
        let f : insert_cache_line t c ≡ some (record c { c_head = some t; c_tail = some t }) =
          rw (insert_cache_line, eh) refl in
        let same : c1 ≡ record c { c_head = some t; c_tail = some t } = cc in
        ap (λ k. data_of (k.lines x)) same
    go (some h) eh =
        let f : insert_cache_line t c ≡ link_before t h c =
          simp (insert_cache_line, link_before, eh) in
        link_before-data t h c c1 (sym f ∙ e) x
