-- ===== src/Proxy/Cache/Lookup.antt =====
-- The walk of `get_object` through a well-formed list of cache.c.
use computer_systems_practic.Prelude.{
  ℕ, zero, suc, ◌≤◌, ◌≡◌, refl, ◌⊎◌, inl, inr, true, false, some, none, List, [], ◌∷◌, arith, All,
  length, str_beq, Bool-cases,
}
use computer_systems_practic.Proxy.Cache.{
  Ptr, CacheLine, Cache, found, absent, find_line, returned, get_object, move_to_head,
}
use computer_systems_practic.Proxy.Cache.Chain.{IsChain, IsCache}

-- No line of the list has the uri.
abbrev pub Tagless : Cache → (uri : List ℕ) → List ℕ → Type 0
Tagless c uri xs =
    All (λ a. (l : CacheLine) × (c.lines a ≡ some l) × (str_beq l.tag uri ≡ false)) xs

-- A line of the list has the uri.
abbrev pub Tagged : Cache → (uri : List ℕ) → ℕ → Type 0
Tagged c uri a = (l : CacheLine) × (c.lines a ≡ some l) × (str_beq l.tag uri ≡ true)

find_line-IsChain :
    (fuel : ℕ) (uri : List ℕ) (c : Cache) (back p : Ptr) (xs : List ℕ)
    → length xs ≤ fuel
    → IsChain c.lines back p xs
    → (find_line fuel uri p c ≡ absent) × Tagless c uri xs
      ⊎ (a : ℕ) × (find_line fuel uri p c ≡ found a) × Tagged c uri a
unfolding find_line
find_line-IsChain zero uri c back p [] h e = inl (rw e refl, tt)
find_line-IsChain (suc fuel) uri c back p [] h e = inl (rw e refl, tt)
find_line-IsChain zero uri c back p (a ∷ xs) h chain = absurd (omega arith)
find_line-IsChain (suc fuel) uri c back p (a ∷ xs) h (e, l, at, b, rest) =
    elim (Bool-cases (str_beq l.tag uri)) [
      | inl same ↦ inr (a, rw (e, find_line, at, same) refl, (l, at, same))
      | inr other ↦ elim (find_line-IsChain fuel uri c (some a) l.next xs (omega arith) rest) [
        | inl (gone, tagless) ↦ inl (rw (e, find_line, at, other) gone, ((l, at, other), tagless))
        | inr (a', hit, tagged) ↦ inr (a', rw (e, find_line, at, other) hit, tagged)
      ]
    ]

-- In a well-formed cache with as many rounds as lines, `get_object` returns NULL and changes nothing
-- when no line has the uri, and otherwise moves a line with the uri to the head.
get_object-IsCache :
    (fuel : ℕ) (uri : List ℕ) (c : Cache) (xs : List ℕ)
    → IsCache c xs
    → length xs ≤ fuel
    → (get_object fuel uri c ≡ returned none c) × Tagless c uri xs
      ⊎ (a : ℕ) × (get_object fuel uri c ≡ move_to_head a c) × Tagged c uri a
unfolding get_object
get_object-IsCache fuel uri c xs v h =
    elim (find_line-IsChain fuel uri c none c.c_head xs h v.chain) [
      | inl (gone, tagless) ↦ inl (rw (get_object, gone) refl, tagless)
      | inr (a, hit, tagged) ↦ inr (a, rw (get_object, hit) refl, tagged)
    ]
