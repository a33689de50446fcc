-- ===== src/Proxy/Cache/Stale.antt =====
-- The pointer that `get_object` of cache.c leaves in the line that it moves to the head.
use computer_systems_practic.Prelude.{
  ℕ, ap, ◌∙◌, zero, suc, ◌≡◌, ◌≢◌, refl, true, false, none, some, List, Option, arith, ◌==◌,
  str_beq, if◌then◌else◌,
}
use computer_systems_practic.Proxy.Cache.{
  Ptr, CacheLine, Cache, set_next, set_prev, insert_cache_line, unlink_prev, unlink_next,
  remove_cache_line, returned, running, found, out_of_fuel, find_line, get_object, move_to_head,
}

-- A head whose next line is its own next line.
pub record IsLoop (uri : List ℕ) (a b : ℕ) (c : Cache) : Type 0 where
  pub la : CacheLine
  pub lb : CacheLine
  pub head : c.c_head ≡ some a
  pub at_a : c.lines a ≡ some la
  pub at_b : c.lines b ≡ some lb
  pub next_a : la.next ≡ some b
  pub next_b : lb.next ≡ some b
  pub other_a : str_beq la.tag uri ≡ false
  pub other_b : str_beq lb.tag uri ≡ false

find_line-loop :
    (fuel : ℕ) (uri : List ℕ) (b : ℕ) (lb : CacheLine) (c : Cache)
    → c.lines b ≡ some lb
    → lb.next ≡ some b
    → str_beq lb.tag uri ≡ false
    → find_line fuel uri (some b) c ≡ out_of_fuel
unfolding find_line
find_line-loop zero uri b lb c at next other = refl
find_line-loop (suc fuel) uri b lb c at next other =
    rw (find_line, at, other, next) (find_line-loop fuel uri b lb c at next other)

find_line-next :
    (fuel : ℕ) (uri : List ℕ) (a b : ℕ) (c : Cache)
    → IsLoop uri a b c
    → find_line fuel uri c.c_head c ≡ out_of_fuel
unfolding find_line
find_line-next zero uri a b c l = ap (λ h. find_line zero uri h c) (l.head)
find_line-next (suc fuel) uri a b c l =
    let at_b = find_line-loop fuel uri b l.lb c l.at_b l.next_b l.other_b in
    ap (λ h. find_line (suc fuel) uri h c) (l.head)
    ∙ (rw (find_line, l.at_a, l.other_a, l.next_a) at_b)

get_object-loop :
    (fuel : ℕ) (uri : List ℕ) (a b : ℕ) (c : Cache)
    → IsLoop uri a b c
    → get_object fuel uri c ≡ running
unfolding get_object
get_object-loop fuel uri a b c l = rw (get_object, find_line-next fuel uri a b c l) refl

-- A hit, by what the walk, the removal and the insertion return.
pub get_object-hit :
    (fuel : ℕ) (uri : List ℕ) (a : ℕ) (c c1 c2 : Cache)
    → find_line fuel uri c.c_head c ≡ found a
    → remove_cache_line a c ≡ some c1
    → insert_cache_line a c1 ≡ some c2
    → get_object fuel uri c ≡ returned (some a) c2
unfolding get_object
get_object-hit fuel uri a c c1 c2 f r i = rw (get_object, f, move_to_head, r, i) refl

module _ (a b : ℕ) (differ : a ≢ b) (ta tb oa ob : List ℕ) (na nb r n : ℕ) where
  -- The two lines with their pointers, and a cache with the lines m.
  abbrev line_a : (prev next : Ptr) → CacheLine
  line_a p q = record { prev = p; next = q; tag = ta; object = oa; length = na }

  abbrev line_b : (prev next : Ptr) → CacheLine
  line_b p q = record { prev = p; next = q; tag = tb; object = ob; length = nb }

  abbrev cache : (head tail : Ptr) → (ℕ → Option CacheLine) → Cache
  cache h t m = record { c_head = h; c_tail = t; remain_size = r; lines = m; next_free = n }

  module _ (m : ℕ → Option CacheLine) where
    -- From a list of two lines, b first, the last line is taken out.
    remove_last :
        m a ≡ some (line_a (some b) none)
        → m b ≡ some (line_b none (some a))
        → (m1 : ℕ → Option CacheLine) × (remove_cache_line a (cache (some b) (some a) m)
            ≡ some (cache (some b) (some b) m1))
          × (m1 a ≡ some (line_a (some b) none))
          × (m1 b ≡ some (line_b none none))
    unfolding remove_cache_line unlink_prev unlink_next set_next set_prev
    remove_last at_a at_b =
        let e : b == a ≡ false = ground arith in
        let e' : a == b ≡ false = ground arith in
        let s : a == a ≡ true = ground arith in
        let s' : b == b ≡ true = ground arith in
        (
          (λ x. if x == b then some (line_b none none) else m x),
          ground (arith, remove_cache_line),
          rw e' at_a,
          rw s' refl,
        )

    -- A line that is out of the list is put before the only line of the list.
    insert_first :
        (p q p' q' : Ptr)
        → m a ≡ some (line_a p q)
        → m b ≡ some (line_b p' q')
        → (m1 : ℕ → Option CacheLine) × (insert_cache_line a (cache (some b) (some b) m)
            ≡ some (cache (some a) (some b) m1))
          × (m1 a ≡ some (line_a p (some b)))
          × (m1 b ≡ some (line_b (some a) q'))
    unfolding insert_cache_line set_next set_prev
    insert_first p q p' q' at_a at_b =
        let e : b == a ≡ false = ground arith in
        let e' : a == b ≡ false = ground arith in
        let s : a == a ≡ true = ground arith in
        let s' : b == b ≡ true = ground arith in
        (
          (λ x.
              if x == b
              then some (line_b (some a) q')
              else if x == a
              then some (line_a p (some b))
              else m x),
          ground (arith, insert_cache_line),
          rw (e', s) refl,
          rw s' refl,
        )

    -- The line that was moved to the head is taken out again: what its prev points to gets itself as
    -- its next line.
    remove_stale :
        m a ≡ some (line_a (some b) (some b))
        → m b ≡ some (line_b (some a) none)
        → (m1 : ℕ → Option CacheLine) × (remove_cache_line a (cache (some a) (some b) m)
            ≡ some (cache (some b) (some b) m1))
          × (m1 a ≡ some (line_a (some b) (some b)))
          × (m1 b ≡ some (line_b (some b) (some b)))
    unfolding remove_cache_line unlink_prev unlink_next set_next set_prev
    remove_stale at_a at_b =
        let e : b == a ≡ false = ground arith in
        let e' : a == b ≡ false = ground arith in
        let s : a == a ≡ true = ground arith in
        let s' : b == b ≡ true = ground arith in
        (
          (λ x. if x == b then some (line_b (some b) (some b)) else m x),
          ground (arith, remove_cache_line),
          rw (e') at_a,
          rw s' refl,
        )

  -- Two lines, b first, of which only that of a has the uri looked up. The first `get_object` moves
  -- that line to the head and leaves its prev as it was; the second one makes the list run in a circle:
  -- a lookup of a uri that neither line has then ends with no number of rounds.
  pub get_object_lost :
      (m : ℕ → Option CacheLine) (uri other : List ℕ)
      → str_beq ta uri ≡ true
      → str_beq tb uri ≡ false
      → str_beq ta other ≡ false
      → str_beq tb other ≡ false
      → m a ≡ some (line_a (some b) none)
      → m b ≡ some (line_b none (some a))
      → (c1 : Cache) × (c2 : Cache) × (get_object 2 uri (cache (some b) (some a) m)
          ≡ returned (some a) c1)
        × (get_object 1 uri c1 ≡ returned (some a) c2)
        × ((fuel : ℕ) → get_object fuel other c2 ≡ running)
  unfolding find_line
  get_object_lost m uri other ta_uri tb_uri ta_other tb_other at_a at_b =
      let (m1, r1, a1, b1) = remove_last m at_a at_b in
      let (m2, i2, a2, b2) = insert_first m1 (some b) none none none a1 b1 in
      let (m3, r3, a3, b3) = remove_stale m2 a2 b2 in
      let (m4, i4, a4, b4) = insert_first m3 (some b) (some b) (some b) (some b) a3 b3 in
      let start = cache (some b) (some a) m in
      let second : find_line 2 uri (some b) start ≡ found a =
        rw (find_line, at_b, tb_uri, at_a, ta_uri) refl in
      let first : find_line 1 uri (some a) (cache (some a) (some b) m2) ≡ found a =
        rw (find_line, a2, ta_uri) refl in
      (
        cache (some a) (some b) m2,
        cache (some a) (some b) m4,
        get_object-hit 2 uri a start _ _ second r1 i2,
        get_object-hit 1 uri a _ _ _ first r3 i4,
        (λ fuel. get_object-loop fuel other a b _ (record {
          la = line_a (some b) (some b);
          lb = line_b (some a) (some b);
          head = refl;
          at_a = a4;
          at_b = b4;
          next_a = refl;
          next_b = refl;
          other_a = ta_other;
          other_b = tb_other;
        })),
      )
