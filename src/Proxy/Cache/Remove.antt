-- ===== src/Proxy/Cache/Remove.antt =====
-- `remove_cache_line` of cache.c on a well-formed list.
use computer_systems_practic.Prelude.{
  ℕ, ◌≡◌, ◌≢◌, refl, sym, ap, ◌∙◌, true, false, Option, none, some, List, [], ◌∷◌, ◌++◌, arith,
  ◌==◌, if◌then◌else◌, All, Bool-cases, inl, inr,
}
use computer_systems_practic.Proxy.Cache.{
  Ptr, CacheLine, Cache, is_ptr, unlink_prev, unlink_next, remove_cache_line,
}
use computer_systems_practic.Proxy.Cache.Chain.{IsChain, last_of, Distinct, IsCache}
use computer_systems_practic.Proxy.Cache.Unlink.{
  Lines, with_next, Other, All-drop, first-Other, with_prev-Other, with_next-Other, first_or,
  last_or, bypass, IsChain-middle, IsChain-bypass,
}
use computer_systems_practic.Proxy.Cache.Writes.{
  data_of, data_of-with_next, data_of-with_prev, Present, first-Present, Present-with_next,
  unlink_prev-line, unlink_next-line,
}

last_or-Present :
    (m : Lines) (back p : Ptr) (ys zs : List ℕ)
    → Present m back
    → IsChain m back p (ys ++ zs)
    → Present m (last_or back ys)
unfolding last_or
last_or-Present m back p [] zs h c = h
last_or-Present m back p (y ∷ ys) zs h (e, l, at, b, c) =
    last_or-Present m (some y) l.next ys zs (l, at) c

last_or-out :
    (back : Ptr) (x : ℕ) (ys zs : List ℕ)
    → Other back x
    → All (λ y. y ≢ x) (ys ++ zs)
    → Other (last_or back ys) x
unfolding last_or
last_or-out back x [] zs o a = o
last_or-out back x (y ∷ ys) zs o (ne, a) = last_or-out (some y) x ys zs ne a

last_or-apart :
    (back : Ptr) (t : ℕ) (ys zs : List ℕ)
    → Other back t
    → Distinct (ys ++ t ∷ zs)
    → Other (last_or back ys) t
unfolding last_or
last_or-apart back t [] zs o d = o
last_or-apart back t (y ∷ ys) zs o (ne, d) =
    last_or-apart (some y) t ys zs (λ e. (All-drop _ ys _ ne).0 (sym e)) d

pub Distinct-drop : (ys zs : List ℕ) → Distinct (ys ++ zs) → Distinct zs
Distinct-drop [] zs d = d
Distinct-drop (y ∷ ys) zs d = Distinct-drop ys zs d.1

All-without : (P : ℕ → Type 0) (t : ℕ) (ys zs : List ℕ) → All P (ys ++ t ∷ zs) → All P (ys ++ zs)
All-without P t [] zs a = a.1
All-without P t (y ∷ ys) zs (p, a) = (p, All-without P t ys zs a)

Distinct-without : (t : ℕ) (ys zs : List ℕ) → Distinct (ys ++ t ∷ zs) → Distinct (ys ++ zs)
Distinct-without t [] zs d = d.1
Distinct-without t (y ∷ ys) zs (ne, d) = (All-without _ t ys zs ne, Distinct-without t ys zs d)

pub last_of-append : (ys : List ℕ) (z : ℕ) (zs : List ℕ) → last_of (ys ++ z ∷ zs) ≡ last_of (z ∷ zs)
last_of-append [] z zs = refl
last_of-append (y ∷ []) z zs = refl
last_of-append (y ∷ y' ∷ ys) z zs = last_of-append (y' ∷ ys) z zs

last_or-last_of : (y : ℕ) (ys : List ℕ) → last_or (some y) ys ≡ last_of (y ∷ ys ++ [])
unfolding last_or
last_or-last_of y [] = refl
last_or-last_of y (z ∷ ys) = last_or-last_of z ys

last_of-Other : (t z : ℕ) (zs : List ℕ) → All (λ x. x ≢ t) (z ∷ zs) → Other (last_of (z ∷ zs)) t
last_of-Other t z [] (ne, a) = ne
last_of-Other t z (y ∷ zs) (ne, a) = last_of-Other t y zs a

is_ptr-Other : (p : Ptr) (t : ℕ) → Other p t → is_ptr p t ≡ false
is_ptr-Other none t o = refl
is_ptr-Other (some a) t o = ground arith

-- The addresses that the globals have after the removal of t.
abbrev new_head : ℕ → CacheLine → Cache → Ptr
new_head t l c = if is_ptr c.c_head t then l.next else c.c_head

abbrev new_tail : ℕ → CacheLine → Cache → Ptr
new_tail t l c = if is_ptr c.c_tail t then l.prev else c.c_tail

new_head-first :
    (t : ℕ) (l : CacheLine) (c : Cache) (ys zs : List ℕ)
    → c.c_head ≡ first_or (some t) ys
    → Distinct (ys ++ t ∷ zs)
    → new_head t l c ≡ first_or l.next ys
new_head-first t l c [] zs e d = let s : t == t ≡ true = ground arith in rw (e, s) refl
new_head-first t l c (y ∷ ys) zs e (ne, d) =
    let o = (All-drop _ ys _ ne).0 in let s : y == t ≡ false = ground arith in rw (e, s) refl

new_tail-last :
    (t : ℕ) (l : CacheLine) (c : Cache) (ys zs : List ℕ)
    → c.c_tail ≡ last_of (ys ++ t ∷ zs)
    → Distinct (ys ++ t ∷ zs)
    → l.prev ≡ last_or none ys
    → new_tail t l c ≡ last_of (ys ++ zs)
unfolding last_or
new_tail-last t l c [] [] e d p = let s : t == t ≡ true = ground arith in rw (e, s) p
new_tail-last t l c (y ∷ ys) [] e d p =
    let s : t == t ≡ true = ground arith in
    let e' : c.c_tail ≡ some t = e ∙ last_of-append (y ∷ ys) t [] in
    rw (e', s) (p ∙ last_or-last_of y ys)
new_tail-last t l c ys (z ∷ zs) e d p =
    let e' : c.c_tail ≡ last_of (z ∷ zs) = e ∙ last_of-append ys t (z ∷ zs) in
    let o = is_ptr-Other (last_of (z ∷ zs)) t (last_of-Other t z zs (Distinct-drop ys _ d).0) in
    rw (e', o) (sym (last_of-append ys z zs))

abbrev relinked : ℕ → CacheLine → Cache → Cache
relinked t l c =
    let c1 = if is_ptr c.c_head t then record c { c_head = l.next } else c in
    if is_ptr c1.c_tail t then record c1 { c_tail = l.prev } else c1

abbrev unlink : ℕ → Cache → Option Cache
unlink t c = elim (unlink_prev t c) [ none ↦ none | some c1 ↦ unlink_next t c1 ]

relink :
    (t : ℕ) (l : CacheLine) (c : Cache)
    → relinked t l c ≡ record c { c_head = new_head t l c; c_tail = new_tail t l c }
relink t l c = elim (Bool-cases (is_ptr c.c_head t)) [
  | inl h ↦ elim (Bool-cases (is_ptr c.c_tail t)) [
    | inl e ↦ rw (h, e) refl
    | inr e ↦ rw (h, e) refl
  ]
  | inr h ↦ elim (Bool-cases (is_ptr c.c_tail t)) [
    | inl e ↦ rw (h, e) refl
    | inr e ↦ rw (h, e) refl
  ]
]

unlink-line :
    (t : ℕ) (l : CacheLine) (c : Cache)
    → c.lines t ≡ some l
    → Other l.prev t
    → Present c.lines l.prev
    → Present c.lines l.next
    → unlink t c ≡ some (record c { lines = bypass t l c.lines })
unlink-line t l c at o p n =
    let m1 = with_next l.prev l.next c.lines in
    let at1 : m1 t ≡ some l = with_next-Other c.lines l.prev l.next t o ∙ at in
    let e = unlink_prev-line t l c l.prev at refl p in
    let e' =
      unlink_next-line t l (record c { lines = m1 }) l.next at1 refl
        (Present-with_next c.lines l.prev l.next l.next n) in
    ap (λ x. elim x as (λ y. Option Cache) [ none ↦ none | some c1 ↦ unlink_next t c1 ]) e ∙ e'

remove_cache_line-line :
    (t : ℕ) (l : CacheLine) (c : Cache)
    → c.lines t ≡ some l
    → remove_cache_line t c ≡ unlink t (relinked t l c)
unfolding remove_cache_line
remove_cache_line-line t l c at = rw (remove_cache_line, at) refl

-- What the operation leaves alone.
pub record Kept (c c1 : Cache) (xs : List ℕ) : Type 0 where
  pub remain : c1.remain_size ≡ c.remain_size
  pub fresh : c1.next_free ≡ c.next_free
  pub held : (x : ℕ) → data_of (c1.lines x) ≡ data_of (c.lines x)
  pub frame : (x : ℕ) → All (λ y. y ≢ x) xs → c1.lines x ≡ c.lines x

pub line_at :
    (m : Lines) (back p : Ptr) (t : ℕ) (ys zs : List ℕ)
    → IsChain m back p (ys ++ t ∷ zs)
    → (l : CacheLine) × (m t ≡ some l)
line_at m back p t [] zs (e, l, at, b, h) = (l, at)
line_at m back p t (y ∷ ys) zs (e, l, at, b, h) = line_at m (some y) l.next t ys zs h

-- `remove_cache_line` takes a line out of a well-formed list, wherever it stands: the others keep their
-- order and what they hold, and the removed line its fields.
pub remove_cache_line-IsCache :
    (t : ℕ) (c : Cache) (ys zs : List ℕ)
    → IsCache c (ys ++ t ∷ zs)
    → (c1 : Cache) × (remove_cache_line t c ≡ some c1)
      × IsCache c1 (ys ++ zs)
      × Kept c c1 (ys ++ t ∷ zs)
      × (c1.lines t ≡ c.lines t)
unfolding remove_cache_line
remove_cache_line-IsCache t c ys zs v =
    let (l, at) = line_at c.lines none c.c_head t ys zs v.chain in
    let (pe, rest, he) = IsChain-middle t l c.lines none c.c_head ys zs at v.chain in
    let d = v.distinct in
    let tail_d = Distinct-drop ys _ d in
    let prev_o : Other l.prev t = rw pe (last_or-apart none t ys zs tt d) in
    let next_o = first-Other c.lines (some t) l.next zs t tail_d.0 rest in
    let prev_p : Present c.lines l.prev =
      rw pe (last_or-Present c.lines none c.c_head ys _ tt v.chain) in
    let next_p = first-Present c.lines (some t) l.next zs rest in
    let m1 = with_next l.prev l.next c.lines in
    let c2 = record c { c_head = new_head t l c; c_tail = new_tail t l c } in
    let c1 = record c2 { lines = bypass t l c.lines } in
    let h_e = new_head-first t l c ys zs he d in
    (
      c1,
      remove_cache_line-line t l c at
          ∙ ap (unlink t) (relink t l c)
          ∙ unlink-line t l c2 at prev_o prev_p next_p,
      record {
        chain = rw h_e (IsChain-bypass t l c.lines zs rest none c.c_head ys d tt v.chain pe);
        tail = new_tail-last t l c ys zs v.tail d pe;
        distinct = Distinct-without t ys zs d;
        allocated = All-without _ t ys zs v.allocated;
      },
      record {
        remain = refl;
        fresh = refl;
        held =
            λ x. data_of-with_prev m1 l.next l.prev x ∙ data_of-with_next c.lines l.prev l.next x;
        frame = λ x a.
            with_prev-Other m1 l.next l.prev x
              (first-Other c.lines (some t) l.next zs x (All-drop _ ys _ a).1 rest)
            ∙ with_next-Other c.lines l.prev l.next x (rw pe (last_or-out none x ys _ tt a));
      },
      with_prev-Other m1 l.next l.prev t next_o ∙ with_next-Other c.lines l.prev l.next t prev_o,
    )
