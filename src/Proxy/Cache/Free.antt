-- ===== src/Proxy/Cache/Free.antt =====
-- `free_cache` of cache.c on a well-formed list.
use computer_systems_practic.Prelude.{
  ℕ, zero, suc, ◌≤◌, ◌≡◌, ◌≢◌, refl, sym, ap, ◌∙◌, true, false, none, some, List, [], ◌∷◌, arith,
  ◌==◌, All, length,
}
use computer_systems_practic.Proxy.Cache.{
  Ptr, Cache, returned, free_lines, free_cache, free_cache_line,
}
use computer_systems_practic.Proxy.Cache.Chain.{IsChain, IsCache, Distinct, IsChain-frame}

-- The lines xs are freed, and nothing else; the cache is empty.
pub record Freed (c c1 : Cache) (xs : List ℕ) : Type 0 where
  pub head : c1.c_head ≡ none
  pub tail : c1.c_tail ≡ none
  pub gone : All (λ x. c1.lines x ≡ none) xs
  pub frame : (y : ℕ) → All (λ x. x ≢ y) xs → c1.lines y ≡ c.lines y

free_lines-Freed :
    (fuel : ℕ) (back p : Ptr) (c : Cache) (xs : List ℕ)
    → c.c_head ≡ p
    → IsChain c.lines back p xs
    → Distinct xs
    → length xs ≤ fuel
    → (c1 : Cache) × (free_lines fuel p c ≡ returned none c1) × Freed c c1 xs
unfolding free_lines free_cache_line
free_lines-Freed fuel back none c [] h e d n = (
  record c { c_tail = none },
  refl,
  record { head = h; tail = refl; gone = tt; frame = λ y a. refl },
)
free_lines-Freed fuel back (some a) c [] h e d n = cc
free_lines-Freed fuel back none c (x ∷ xs) h r d n = let e = r.0 in cc
free_lines-Freed zero back (some a) c (x ∷ xs) h r d n = absurd (omega arith)
free_lines-Freed (suc fuel) back (some a) c (x ∷ xs) h (e, l, at, b, rest) (ne, d) n =
    let same : a ≡ x = cc in
    let at_a : c.lines a ≡ some l = rw same at in
    let ne_a : All (λ y. y ≢ a) xs = rw same ne in
    let c' = free_cache_line a (record c { c_head = l.next }) in
    let chain = IsChain-frame c.lines a none (some x) l.next xs ne_a rest in
    let (c1, e1, freed) = free_lines-Freed fuel (some x) l.next c' xs refl chain d (omega arith) in
    let a_a : a == a ≡ true = ground arith in
    let a_gone : c'.lines a ≡ none = rw a_a refl in
    let x_gone = ap c1.lines (sym same) ∙ freed.frame a ne_a ∙ a_gone in
    (
      c1,
      rw (free_lines, at_a) e1,
      record {
        head = freed.head;
        tail = freed.tail;
        gone = (x_gone, freed.gone);
        frame = λ y (y_x, y_xs).
            let y_a : y == a ≡ false = ground arith in freed.frame y y_xs ∙ rw y_a refl;
      },
    )

-- In a well-formed cache, with a round for each line, `free_cache` returns: the list is empty, every
-- line of it is freed, and no other.
pub free_cache-Freed :
    (fuel : ℕ) (c : Cache) (xs : List ℕ)
    → IsCache c xs
    → length xs ≤ fuel
    → (c1 : Cache) × (free_cache fuel c ≡ returned none c1) × Freed c c1 xs
unfolding free_cache
free_cache-Freed fuel c xs v n = free_lines-Freed fuel none c.c_head c xs refl v.chain v.distinct n
