-- ===== src/Proxy/Cache/Evict.antt =====
-- `evict_cache_line` and `add_object` of cache.c on a well-formed list: the least recently used lines
-- go, as many as it takes.
use mathlib.Core.List.{append_assoc, append-nil}
use computer_systems_practic.Prelude.{
  All, ◌≢◌, ℕ, zero, suc, ◌+◌, ◌%◌, ◌^◌, ◌<◌, ◌≤◌, ◌≡◌, refl, sym, ap, ◌∙◌, true, false, none, some,
  List, [], ◌∷◌, ◌++◌, arith, ltb, Bool-cases, ◌⊎◌, inl, inr, length, length-append,
}
use computer_systems_practic.Proxy.Cache.{
  Ptr, Cache, Outcome, returned, running, evict_one, evict_lines, evict_round, max_cache_size,
}
use computer_systems_practic.Proxy.Cache.Chain.{IsCache}
use computer_systems_practic.Proxy.Cache.Unlink.{All-drop}
use computer_systems_practic.Proxy.Cache.Remove.{last_of-append}
use computer_systems_practic.Proxy.Cache.Sizes.{
  size_of, total, IsSized, size_of-data, Same, total-Same, Same-trans, All-front, total-snoc,
  evict_one-IsCache,
}

snoc_elim :
    (P : List ℕ → Type 0) → P [] → ((ys : List ℕ) (t : ℕ) → P (ys ++ t ∷ [])) → (xs : List ℕ) → P xs
snoc_elim P n s [] = n
snoc_elim P n s (x ∷ xs) = snoc_elim (λ zs. P (x ∷ zs)) (s [] x) (λ ys t. s (x ∷ ys) t) xs

-- What an eviction leaves of the lines xs: a front part of the list, with room for the size, and no
-- line gone that could stay.
pub record Evicted (size : ℕ) (c c1 : Cache) (xs kept gone : List ℕ) : Type 0 where
  pub parts : xs ≡ kept ++ gone
  pub cache : IsCache c1 kept
  pub sized : IsSized c1 kept
  pub room : size ≤ c1.remain_size
  pub same : Same c.lines c1.lines kept
  pub fresh : c1.next_free ≡ c.next_free
  pub frame : (x : ℕ) → All (λ y. y ≢ x) xs → c1.lines x ≡ c.lines x
  pub needed : (g : ℕ) (gs : List ℕ) → gone ≡ g ∷ gs → c1.remain_size < size + size_of (c.lines g)

pub evicts_none :
    (size temp_size : ℕ) (c : Cache) (xs : List ℕ)
    → IsCache c xs
    → total c.lines xs + temp_size ≡ max_cache_size
    → size ≤ temp_size
    → Evicted size c (record c { remain_size = temp_size }) xs xs []
evicts_none size temp_size c xs v sized room = record {
  parts = sym (append-nil xs);
  cache = record { chain = v.chain; tail = v.tail; distinct = v.distinct; allocated = v.allocated };
  sized = sized;
  room = room;
  same = same_refl xs;
  fresh = refl;
  frame = λ x a. refl;
  needed = λ g gs e. cc;
}
  where
    same_refl : (xs : List ℕ) → Same c.lines c.lines xs
    same_refl [] = tt
    same_refl (x ∷ xs) = (refl, same_refl xs)

module _ (next : ℕ → Cache → Outcome) (size temp_size : ℕ) (c : Cache) where
  evict_round-empty :
      c.c_tail ≡ none
      → evict_round next size temp_size c ≡ returned none (record c { remain_size = temp_size })
  unfolding evict_round
  evict_round-empty e =
      rw (evict_round, e)
        (ap (λ x. returned none (record c { c_tail = x; remain_size = temp_size })) e)

  evict_round-stops :
      size ≤ temp_size
      → evict_round next size temp_size c ≡ returned none (record c { remain_size = temp_size })
  unfolding evict_round
  evict_round-stops h =
      let enough : ltb temp_size size ≡ false = ground arith in go c.c_tail refl enough
    where
      go :
          (p : Ptr)
          → c.c_tail ≡ p
          → ltb temp_size size ≡ false
          → evict_round next size temp_size c ≡ returned none (record c { remain_size = temp_size })
      go none e b = evict_round-empty e
      go (some a) e b =
          rw (evict_round, e, b)
            (ap (λ x. returned none (record c { c_tail = x; remain_size = temp_size })) e)

  evict_round-goes :
      (t n : ℕ) (c1 : Cache)
      → c.c_tail ≡ some t
      → temp_size < size
      → evict_one t c ≡ some (n, c1)
      → evict_round next size temp_size c ≡ next ((temp_size + n) % 2 ^ 32) c1
  unfolding evict_round
  evict_round-goes t n c1 e h o =
      let short : ltb temp_size size ≡ true = ground arith in rw (evict_round, e, short, o) refl

Nat_cases : (m n : ℕ) → (m ≤ n) ⊎ n < m
Nat_cases m n = elim (Bool-cases (ltb n m)) [
  | inl e ↦ inr (ground arith)
  | inr e ↦ inl (ground arith)
]

-- One line gone, and then the others.
Evicted-more :
    (size temp_size t : ℕ) (c c1 c2 : Cache) (ys kept gone : List ℕ)
    → total c.lines (ys ++ t ∷ []) + temp_size ≡ max_cache_size
    → temp_size < size
    → Same c.lines c1.lines ys
    → c1.next_free ≡ c.next_free
    → ((x : ℕ) → All (λ y. y ≢ x) (ys ++ t ∷ []) → c1.lines x ≡ c.lines x)
    → Evicted size c1 c2 ys kept gone
    → Evicted size c c2 (ys ++ t ∷ []) kept (gone ++ t ∷ [])
Evicted-more size temp_size t c c1 c2 ys kept gone sized short same fresh frame e =
    let same' : Same c.lines c1.lines (kept ++ gone) = rw (sym e.parts) same in
    let same2 = Same-trans c.lines c1.lines c2.lines kept (All-front _ kept gone same') e.same in
    record {
      parts = ap (λ l. l ++ t ∷ []) e.parts ∙ append_assoc kept gone (t ∷ []);
      cache = e.cache;
      sized = e.sized;
      room = e.room;
      same = same2;
      fresh = e.fresh ∙ fresh;
      frame = λ x a. e.frame x (All-front _ ys _ a) ∙ frame x a;
      needed = needed' gone same' e;
    }
  where
    needed' :
        (gone : List ℕ)
        → Same c.lines c1.lines (kept ++ gone)
        → Evicted size c1 c2 ys kept gone
        → (g : ℕ) (gs : List ℕ) → gone ++ t ∷ [] ≡ g ∷ gs
        → c2.remain_size < size + size_of (c.lines g)
    needed' [] same e g gs q =
        let at : t ≡ g = cc in
        let whole : ys ≡ kept = e.parts ∙ append-nil kept in
        let before : total c.lines (kept ++ t ∷ []) + temp_size ≡ max_cache_size =
          rw (sym whole) sized in
        let one = total-Same c1.lines c2.lines kept e.same in
        let two = total-Same c.lines c1.lines kept (All-front _ kept [] same) in
        let after = e.sized in
        rw (sym at) (omega (arith, before, total-snoc c.lines kept t, one, two, after, short))
    needed' (x ∷ gone) same e g gs q =
        let at : x ≡ g = cc in
        let s = size_of-data (c1.lines x) (c.lines x) (All-drop _ kept _ same).0 in
        let n = e.needed x gone refl in rw (sym at) (omega (arith, s, n))

-- An eviction that returns.
abbrev pub Evicts : Outcome → ℕ → Cache → List ℕ → Type 0
Evicts o size c xs =
    (kept : List ℕ) × (gone : List ℕ) × (c1 : Cache) × (o ≡ returned none c1)
    × Evicted size c c1 xs kept gone

module _ (next : ℕ → Cache → Outcome) (size temp_size : ℕ) (c : Cache) where
  evict_round-enough :
      (xs : List ℕ)
      → IsCache c xs
      → total c.lines xs + temp_size ≡ max_cache_size
      → size ≤ temp_size
      → Evicts (evict_round next size temp_size c) size c xs
  evict_round-enough xs v sized room = (
    xs,
    [],
    record c { remain_size = temp_size },
    evict_round-stops next size temp_size c room,
    evicts_none size temp_size c xs v sized room,
  )

  evict_round-short :
      (ys : List ℕ) (t : ℕ)
      → ((c' : Cache) (temp' : ℕ)
          → IsCache c' ys
          → total c'.lines ys + temp' ≡ max_cache_size
          → Evicts (next temp' c') size c' ys)
      → IsCache c (ys ++ t ∷ [])
      → total c.lines (ys ++ t ∷ []) + temp_size ≡ max_cache_size
      → temp_size < size
      → Evicts (evict_round next size temp_size c) size c (ys ++ t ∷ [])
  evict_round-short ys t ih v sized short =
      let (c1, e, v1, same, fresh, frame) = evict_one-IsCache t c ys v in
      let n = size_of (c.lines t) in
      let room = total-snoc c.lines ys t in
      let kept_size = total-Same c.lines c1.lines ys same in
      let whole : (temp_size + n) % 2 ^ 32 ≡ temp_size + n = omega (arith, room, sized) in
      let sized1 : total c1.lines ys + (temp_size + n) ≡ max_cache_size =
        omega (arith, room, sized, kept_size) in
      let (kept, gone, c2, e2, rest) = ih c1 (temp_size + n) v1 sized1 in
      let at = v.tail ∙ last_of-append ys t [] in
      (
        kept,
        gone ++ t ∷ [],
        c2,
        evict_round-goes next size temp_size c t n c1 at short e ∙ ap (λ x. next x c1) whole ∙ e2,
        Evicted-more size temp_size t c c1 c2 ys kept gone sized short same fresh frame rest,
      )

  abbrev Continues : List ℕ → Type 0
  Continues xs =
      ((c' : Cache) (temp' : ℕ) (ys : List ℕ)
        → length ys < length xs
        → IsCache c' ys
        → total c'.lines ys + temp' ≡ max_cache_size
        → Evicts (next temp' c') size c' ys)
      → IsCache c xs
      → total c.lines xs + temp_size ≡ max_cache_size
      → Evicts (evict_round next size temp_size c) size c xs

  evict_round-Evicts : size ≤ max_cache_size → (xs : List ℕ) → Continues xs
  evict_round-Evicts small xs =
      snoc_elim Continues (λ ih v sized. evict_round-enough [] v sized (omega (arith, sized)))
        (λ ys t ih v sized. elim (Nat_cases size temp_size) [
          | inl room ↦ evict_round-enough (ys ++ t ∷ []) v sized room
          | inr short ↦
              evict_round-short ys t
                (λ c' temp'. ih c' temp' ys (omega (arith, length-append ys (t ∷ [])))) v sized
                short
        ])
        xs

-- With a round for each line, the eviction ends, and it does not free more than it has to.
pub evict_lines-Evicts :
    (fuel size temp_size : ℕ) (c : Cache) (xs : List ℕ)
    → IsCache c xs
    → total c.lines xs + temp_size ≡ max_cache_size
    → size ≤ max_cache_size
    → length xs ≤ fuel
    → Evicts (evict_lines fuel size temp_size c) size c xs
unfolding evict_lines
evict_lines-Evicts zero size temp_size c xs v sized small enough =
    evict_round-Evicts (λ t c'. running) size temp_size c small xs
      (λ c' temp' ys less v' s'. absurd (omega arith)) v sized
evict_lines-Evicts (suc fuel) size temp_size c xs v sized small enough =
    evict_round-Evicts (evict_lines fuel size) size temp_size c small xs
      (λ c' temp' ys less v' s'. evict_lines-Evicts fuel size temp' c' ys v' s' small (omega arith))
      v sized
