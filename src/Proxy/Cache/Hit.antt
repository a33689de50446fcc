-- ===== src/Proxy/Cache/Hit.antt =====
-- `get_object` of cache.c for an object that no line has, and for the one at the head.
use computer_systems_practic.Prelude.{
  Option, ℕ, zero, suc, ◌≤◌, ◌<◌, ◌≡◌, refl, sym, ap, ◌∙◌, true, false, none, some, List, [], ◌∷◌,
  arith, length, str_beq,
}
use computer_systems_practic.Proxy.Cache.{
  Ptr, CacheLine, Cache, found, absent, find_line, returned, get_object, move_to_head,
  insert_cache_line, remove_cache_line, Outcome, crashed,
}
use computer_systems_practic.Proxy.Cache.Chain.{IsChain, IsCache, insert-IsCache, Holds}
use computer_systems_practic.Proxy.Cache.Lookup.{Tagless}
use computer_systems_practic.Proxy.Cache.Remove.{remove_cache_line-IsCache}

find_line_miss :
    (fuel : ℕ) (uri : List ℕ) (c : Cache) (back p : Ptr) (xs : List ℕ)
    → length xs ≤ fuel
    → IsChain c.lines back p xs
    → Tagless c uri xs
    → find_line fuel uri p c ≡ absent
unfolding find_line
find_line_miss zero uri c back p [] h e t = rw e refl
find_line_miss (suc fuel) uri c back p [] h e t = rw e refl
find_line_miss zero uri c back p (x ∷ xs) h e t = absurd (omega arith)
find_line_miss (suc fuel) uri c back p (x ∷ xs) h (e, l, at, b, rest) ((l', at', other), t) =
    let same : l' ≡ l = cc in
    let other' : str_beq l.tag uri ≡ false = rw (sym same) other in
    rw (e, find_line, at, other')
      (find_line_miss fuel uri c (some x) l.next xs (omega arith) rest t)

pub get_object_miss :
    (fuel : ℕ) (uri : List ℕ) (c : Cache) (xs : List ℕ)
    → IsCache c xs
    → length xs ≤ fuel
    → Tagless c uri xs
    → get_object fuel uri c ≡ returned none c
unfolding get_object
get_object_miss fuel uri c xs v h t =
    rw (get_object, find_line_miss fuel uri c none c.c_head xs h v.chain t) refl

chain_end :
    (m : ℕ → Option CacheLine) (back p : Ptr) (xs : List ℕ)
    → IsChain m back p xs
    → xs ≡ []
    → p ≡ none
chain_end m back p [] h e = h
chain_end m back p (x ∷ xs) h e = cc

get_object-found :
    (fuel : ℕ) (uri : List ℕ) (t : ℕ) (c : Cache)
    → find_line (suc fuel) uri c.c_head c ≡ found t
    → get_object (suc fuel) uri c ≡ move_to_head t c
unfolding get_object
get_object-found fuel uri t c hit = rw (get_object, hit) refl

moved :
    (t : ℕ) (c c1 c2 : Cache)
    → remove_cache_line t c ≡ some c1
    → insert_cache_line t c1 ≡ some c2
    → move_to_head t c ≡ returned (some t) c2
moved t c c1 c2 e1 e2 =
    ap
      (λ o. elim o as (λ x. Outcome) [
        | none ↦ crashed
        | some c' ↦ elim (insert_cache_line t c') as (λ x. Outcome) [
          | none ↦ crashed
          | some c'' ↦ returned (some t) c''
        ]
      ])
      e1
    ∙ ap (λ o. elim o as (λ x. Outcome) [ none ↦ crashed | some c' ↦ returned (some t) c' ]) e2

-- The line at the head has the uri: it is found, and the list stays well-formed and in its order.
pub get_object_head :
    (fuel : ℕ) (uri : List ℕ) (t : ℕ) (l : CacheLine) (c : Cache) (xs : List ℕ)
    → IsCache c (t ∷ xs)
    → c.lines t ≡ some l
    → str_beq l.tag uri ≡ true
    → (c1 : Cache) × (get_object (suc fuel) uri c ≡ returned (some t) c1)
      × IsCache c1 (t ∷ xs)
      × Holds c1 t l
unfolding get_object find_line
get_object_head fuel uri t l c xs v at same =
    let (e, l', at', b, rest) = v.chain in
    let one : l' ≡ l = cc in
    let hit : find_line (suc fuel) uri c.c_head c ≡ found t = rw (e, find_line, at, same) refl in
    let (c1, e1, v1, kept, at1) = remove_cache_line-IsCache t c [] xs v in
    let no_prev : l.prev ≡ none = rw (sym one) b in
    let last : xs ≡ [] → l.next ≡ none =
      λ nil. ap (λ k. k.next) (sym one) ∙ chain_end c.lines (some t) l'.next xs rest nil in
    let old : t < c1.next_free = let a = v.allocated.0 in let f = kept.fresh in omega arith in
    let (c2, e2, v2, remain, held) =
      insert-IsCache t l c1 xs v1 (at1 ∙ at) no_prev last (v.distinct.0) old in
    (c2, get_object-found fuel uri t c hit ∙ moved t c c1 c2 e1 e2, v2, held)
