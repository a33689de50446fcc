-- ===== src/Proxy/Cache/Unlink.antt =====
-- `remove_cache_line` of cache.c on a well-formed list.
use computer_systems_practic.Prelude.{
  ℕ, ◌≡◌, ◌≢◌, refl, sym, ◌∙◌, true, false, Option, none, some, List, [], ◌∷◌, ◌++◌, arith, ◌==◌,
  if◌then◌else◌, All,
}
use computer_systems_practic.Proxy.Cache.{Ptr, CacheLine}
use computer_systems_practic.Proxy.Cache.Chain.{IsChain, Distinct, IsChain-frame}

abbrev pub Lines : Type 0
Lines = ℕ → Option CacheLine

abbrev pub map_line : (CacheLine → CacheLine) → Option CacheLine → Option CacheLine
map_line f none = none
map_line f (some l) = some (f l)

-- The lines with the prev or the next of one of them changed, if the pointer is not NULL.
abbrev pub with_prev : Ptr → Ptr → Lines → Lines
with_prev none q m = m
with_prev (some a) q m = λ x. if x == a then map_line (λ l. record l { prev = q }) (m a) else m x

abbrev pub with_next : Ptr → Ptr → Lines → Lines
with_next none q m = m
with_next (some a) q m = λ x. if x == a then map_line (λ l. record l { next = q }) (m a) else m x

abbrev Apart : Ptr → List ℕ → Type 0
Apart none xs = Unit
Apart (some a) xs = All (λ x. x ≢ a) xs

with_prev-frame :
    (m : Lines) (p q back start : Ptr) (xs : List ℕ)
    → Apart p xs
    → IsChain m back start xs
    → IsChain (with_prev p q m) back start xs
with_prev-frame m none q back start xs a h = h
with_prev-frame m (some p) q back start xs a h = IsChain-frame m p _ back start xs a h

with_next-frame :
    (m : Lines) (p q back start : Ptr) (xs : List ℕ)
    → Apart p xs
    → IsChain m back start xs
    → IsChain (with_next p q m) back start xs
with_next-frame m none q back start xs a h = h
with_next-frame m (some p) q back start xs a h = IsChain-frame m p _ back start xs a h

-- The list behind a line, hung behind another one.
hang :
    (m : Lines) (back back' start : Ptr) (xs : List ℕ)
    → Distinct xs
    → IsChain m back start xs
    → IsChain (with_prev start back' m) back' start xs
hang m back back' none [] d h = h
hang m back back' (some a) [] d h = cc
hang m back back' none (x ∷ xs) d h = let e = h.0 in cc
hang m back back' (some a) (x ∷ xs) (ne, d) (e, l, at, p, rest) =
    let same : a ≡ x = cc in
    let eq : x == a ≡ true = ground arith in
    let at' : m a ≡ some l = rw same at in
    let ne' : All (λ y. y ≢ a) xs = rw same ne in
    (
      e,
      record l { prev = back' },
      rw (eq, at') refl,
      refl,
      IsChain-frame m a _ (some x) l.next xs ne' rest,
    )

-- A pointer that is not x.
abbrev pub Other : Ptr → ℕ → Type 0
Other none x = Unit
Other (some a) x = a ≢ x

pub with_prev-Other : (m : Lines) (p q : Ptr) (x : ℕ) → Other p x → with_prev p q m x ≡ m x
with_prev-Other m none q x o = refl
with_prev-Other m (some a) q x o = let e : x == a ≡ false = ground arith in rw e refl

pub with_next-Other : (m : Lines) (p q : Ptr) (x : ℕ) → Other p x → with_next p q m x ≡ m x
with_next-Other m none q x o = refl
with_next-Other m (some a) q x o = let e : x == a ≡ false = ground arith in rw e refl

with_next_self :
    (m : Lines) (q : Ptr) (x : ℕ) (l : CacheLine)
    → m x ≡ some l
    → with_next (some x) q m x ≡ some (record l { next = q })
with_next_self m q x l at = let e : x == x ≡ true = ground arith in rw (e, at) refl

Apart-tail : (p : Ptr) (x : ℕ) (xs : List ℕ) → Apart p (x ∷ xs) → Apart p xs
Apart-tail none x xs a = tt
Apart-tail (some p) x xs a = a.1

pub All-drop : (P : ℕ → Type 0) (ys zs : List ℕ) → All P (ys ++ zs) → All P zs
All-drop P [] zs a = a
All-drop P (y ∷ ys) zs a = All-drop P ys zs a.1

pub first-Other :
    (m : Lines) (back p : Ptr) (xs : List ℕ) (y : ℕ)
    → All (λ x. x ≢ y) xs
    → IsChain m back p xs
    → Other p y
first-Other m back none xs y a h = tt
first-Other m back (some p) [] y a h = cc
first-Other m back (some p) (x ∷ xs) y (ne, a) (e, l, at, b, h) =
    let same : p ≡ x = cc in rw same ne

abbrev pub first_or : Ptr → List ℕ → Ptr
first_or p [] = p
first_or p (y ∷ ys) = some y

unfoldable pub last_or : Ptr → List ℕ → Ptr
last_or p [] = p
last_or p (y ∷ ys) = last_or (some y) ys

last_or-Other :
    (y y' : ℕ) (ys zs : List ℕ) → All (λ x. x ≢ y) (y' ∷ ys ++ zs) → Other (last_or (some y') ys) y
unfolding last_or
last_or-Other y y' [] zs (ne, a) = ne
last_or-Other y y' (x ∷ ys) zs (ne, a) = last_or-Other y x ys zs a

-- A line in the middle: what stands before it, the line itself with its pointers, what stands behind.
module _ (t : ℕ) (l : CacheLine) where
  -- The lines after the removal of t.
  abbrev pub bypass : Lines → Lines
  bypass m = with_prev l.next l.prev (with_next l.prev l.next m)

  pub IsChain-middle :
      (m : Lines) (back start : Ptr) (ys zs : List ℕ)
      → m t ≡ some l
      → IsChain m back start (ys ++ t ∷ zs)
      → (l.prev ≡ last_or back ys) × IsChain m (some t) l.next zs × (start ≡ first_or (some t) ys)
  unfolding last_or
  IsChain-middle m back start [] zs at (e, l', at', p, rest) =
      let same : l ≡ l' = cc in
      let p' : l.prev ≡ back = rw same p in
      let rest' : IsChain m (some t) l.next zs = rw same rest in (p', rest', e)
  IsChain-middle m back start (y ∷ ys) zs at (e, ly, at_y, p, rest) =
      let r = IsChain-middle m (some y) ly.next ys zs at rest in (r.0, r.1, e)

  module _ (m : Lines) (zs : List ℕ) (rest : IsChain m (some t) l.next zs) where
    IsChain-behind : Distinct zs → Apart l.prev zs → IsChain (bypass m) l.prev l.next zs
    IsChain-behind d a =
        hang (with_next l.prev l.next m) (some t) l.prev l.next zs d
          (with_next-frame m l.prev l.next (some t) l.next zs a rest)

    pub IsChain-bypass :
        (back start : Ptr) (ys : List ℕ)
        → Distinct (ys ++ t ∷ zs)
        → Apart back (ys ++ t ∷ zs)
        → IsChain m back start (ys ++ t ∷ zs)
        → l.prev ≡ last_or back ys
        → IsChain (bypass m) back (first_or l.next ys) (ys ++ zs)
    unfolding last_or
    IsChain-bypass back start [] d a c pe =
        let a' : Apart l.prev zs = rw pe (Apart-tail back t zs a) in
        let r = IsChain-behind d.1 a' in rw (sym pe) r
    IsChain-bypass back start (y ∷ []) (ne, d) a (e, ly, at_y, p, c) pe =
        let a' : Apart l.prev zs = rw pe (ne.1) in
        let r = IsChain-behind d.1 a' in
        let o = first-Other m (some t) l.next zs y ne.1 rest in
        let r' : IsChain (bypass m) (some y) l.next zs = rw (sym pe) r in
        let at_y' : with_next l.prev l.next m y ≡ some (record ly { next = l.next }) =
          rw pe (with_next_self m l.next y ly at_y) in
        (
          refl,
          record ly { next = l.next },
          with_prev-Other (with_next l.prev l.next m) l.next l.prev y o ∙ at_y',
          p,
          r',
        )
    IsChain-bypass back start (y ∷ y' ∷ ys) (ne, d) a (e, ly, at_y, p, c) pe =
        let r = IsChain-bypass (some y) ly.next (y' ∷ ys) d ne c pe in
        let o = first-Other m (some t) l.next zs y (All-drop _ ys _ ne.1).1 rest in
        let o' : Other l.prev y = rw pe (last_or-Other y y' ys (t ∷ zs) ne) in
        let f : ly.next ≡ some y' = c.0 in
        let r' : IsChain (bypass m) (some y) ly.next (y' ∷ ys ++ zs) = rw f r in
        (
          refl,
          ly,
          with_prev-Other (with_next l.prev l.next m) l.next l.prev y o
              ∙ with_next-Other m l.prev l.next y o'
              ∙ at_y,
          p,
          r',
        )
