-- ===== src/Malloc/Cycle.antt =====
-- Doubly linked cycles as two functions, next and prev, that undo each other on a set of nodes.
use computer_systems_practic.Prelude.{
  ℕ, ◌+◌, ◌*◌, ◌≤◌, ◌<◌, ◌≡◌, ◌≢◌, refl, sym, ap, ◌∙◌, true, false, arith, ◌==◌, if◌then◌else◌,
  Bool-cases, ◌⊎◌, inl, inr,
}

abbrev pub IsCycle : (ℕ → Type 0) → (ℕ → ℕ) → (ℕ → ℕ) → Type 0
IsCycle N n p = (x : ℕ) → N x → N (n x) × N (p x) × (n (p x) ≡ x) × (p (n x) ≡ x)

-- The same nodes, described in another way.
pub IsCycle-same :
    (N N' : ℕ → Type 0) (n p : ℕ → ℕ)
    → ((x : ℕ) → N x → N' x)
    → ((x : ℕ) → N' x → N x)
    → IsCycle N n p
    → IsCycle N' n p
IsCycle-same N N' n p to from c x h =
    let (a, b, e, f) = c x (from x h) in (to (n x) a, to (p x) b, e, f)

module _ (N : ℕ → Type 0) (n p n' p' : ℕ → ℕ) (cycle : IsCycle N n p) (b : ℕ) where
  -- b is taken out: its neighbours point to each other.
  pub IsCycle-remove :
      N b
      → ((x : ℕ) → N x → n' x ≡ (if x == p b then n b else n x))
      → ((x : ℕ) → N x → p' x ≡ (if x == n b then p b else p x))
      → IsCycle (λ x. N x × (x ≢ b)) n' p'
  IsCycle-remove at_b next prev x (at_x, ne) =
      let (nb, pb, npb, pnb) = cycle b at_b in
      let (nx, px, npx, pnx) = cycle x at_x in
      let next_x = next x at_x in
      let prev_x = prev x at_x in
      let prev_nx = prev (n x) nx in
      let prev_nb = prev (n b) nb in
      let next_px = next (p x) px in
      let next_pb = next (p b) pb in
      let (at_n, ne_n, back) : N (n' x) × (n' x ≢ b) × (p' (n' x) ≡ x) =
        elim (Bool-cases (x == p b)) [
          | inl e ↦
              let f : x ≡ p b = ground arith in
              let g : n' x ≡ n b = next_x ∙ rw e refl in
              let k : n b == n b ≡ true = ground arith in
              (rw g nb, λ h. ground arith, ap p' g ∙ prev_nb ∙ rw k (sym f))
          | inr e ↦
              let g : n' x ≡ n x = next_x ∙ rw e refl in
              let k : n x == n b ≡ false = ground arith in
              (rw g nx, λ h. ground arith, ap p' g ∙ prev_nx ∙ rw k pnx)
        ] in
      let (at_p, ne_p, forth) : N (p' x) × (p' x ≢ b) × (n' (p' x) ≡ x) =
        elim (Bool-cases (x == n b)) [
          | inl e ↦
              let f : x ≡ n b = ground arith in
              let g : p' x ≡ p b = prev_x ∙ rw e refl in
              let k : p b == p b ≡ true = ground arith in
              (rw g pb, λ h. ground arith, ap n' g ∙ next_pb ∙ rw k (sym f))
          | inr e ↦
              let g : p' x ≡ p x = prev_x ∙ rw e refl in
              let k : p x == p b ≡ false = ground arith in
              (rw g px, λ h. ground arith, ap n' g ∙ next_px ∙ rw k npx)
        ] in
      ((at_n, ne_n), (at_p, ne_p), forth, back)

  -- b is put behind h.
  pub IsCycle-insert :
      (h : ℕ)
      → N h
      → ((x : ℕ) → N x → x ≢ b)
      → ((x : ℕ) → N x → n' x ≡ (if x == h then b else n x))
      → ((x : ℕ) → N x → p' x ≡ (if x == n h then b else p x))
      → n' b ≡ n h
      → p' b ≡ h
      → IsCycle (λ x. N x ⊎ (x ≡ b)) n' p'
  IsCycle-insert h at_h other next prev next_b prev_b x (inl at_x) =
      let (nh, ph, nph, pnh) = cycle h at_h in
      let (nx, px, npx, pnx) = cycle x at_x in
      let next_x = next x at_x in
      let prev_x = prev x at_x in
      let prev_nx = prev (n x) nx in
      let next_px = next (p x) px in
      let (at_n, back) : (N (n' x) ⊎ (n' x ≡ b)) × (p' (n' x) ≡ x) = elim (Bool-cases (x == h)) [
        | inl e ↦
            let f : x ≡ h = ground arith in
            let g : n' x ≡ b = next_x ∙ rw e refl in (inr g, ap p' g ∙ prev_b ∙ sym f)
        | inr e ↦
            let g : n' x ≡ n x = next_x ∙ rw e refl in
            let k : n x == n h ≡ false = ground arith in
            (inl (rw g nx), ap p' g ∙ prev_nx ∙ rw k pnx)
      ] in
      let (at_p, forth) : (N (p' x) ⊎ (p' x ≡ b)) × (n' (p' x) ≡ x) = elim (Bool-cases (x == n h)) [
        | inl e ↦
            let f : x ≡ n h = ground arith in
            let g : p' x ≡ b = prev_x ∙ rw e refl in (inr g, ap n' g ∙ next_b ∙ sym f)
        | inr e ↦
            let g : p' x ≡ p x = prev_x ∙ rw e refl in
            let k : p x == h ≡ false = ground arith in (inl (rw g px), ap n' g ∙ next_px ∙ rw k npx)
      ] in
      (at_n, at_p, forth, back)
  IsCycle-insert h at_h other next prev next_b prev_b x (inr e) =
      let (nh, ph, nph, pnh) = cycle h at_h in
      let k : h == h ≡ true = ground arith in
      let k' : n h == n h ≡ true = ground arith in
      let after : n' x ≡ n h = rw e next_b in
      let behind : p' x ≡ h = rw e prev_b in
      (
        inl (rw after nh),
        inl (rw behind at_h),
        ap n' behind ∙ next h at_h ∙ rw k (sym e),
        ap p' after ∙ prev (n h) nh ∙ rw k' (sym e),
      )

-- The same pointers, at the nodes.
pub IsCycle-agree :
    (N : ℕ → Type 0) (n p n' p' : ℕ → ℕ)
    → ((x : ℕ) → N x → n' x ≡ n x)
    → ((x : ℕ) → N x → p' x ≡ p x)
    → IsCycle N n p
    → IsCycle N n' p'
IsCycle-agree N n p n' p' next prev c x h =
    let (a, b, e, f) = c x h in
    let g = next x h in
    let k = prev x h in (rw g a, rw k b, ap n' k ∙ next (p x) b ∙ e, ap p' g ∙ prev (n x) a ∙ f)

-- Each cycle runs through one entry of a table of ten, which starts at `first`: the nodes have the
-- number of their entry, and from any other node on, the pointers lead down to it.
pub record IsListed (first : ℕ) (N : ℕ → Type 0) (n : ℕ → ℕ) : Type 0 where
  pub steps : ℕ → ℕ
  pub list : ℕ → ℕ
  pub limit : ℕ
  pub falls : (x : ℕ) → N x → first + 80 ≤ x → steps (n x) < steps x
  pub bounded : (x : ℕ) → N x → steps x ≤ limit
  pub same_list : (x : ℕ) → N x → list (n x) ≡ list x
  pub heads : (i : ℕ) → i < 10 → list (first + i * 8) ≡ i

pub IsListed-same :
    (first : ℕ) (N N' : ℕ → Type 0) (n n' : ℕ → ℕ)
    → ((x : ℕ) → N' x → N x)
    → ((x : ℕ) → N' x → n' x ≡ n x)
    → IsListed first N n
    → IsListed first N' n'
IsListed-same first N N' n n' from next l = record {
  steps = l.steps;
  list = l.list;
  limit = l.limit;
  falls = λ x h b. rw (next x h) (l.falls x (from x h) b);
  bounded = λ x h. l.bounded x (from x h);
  same_list = λ x h. ap l.list (next x h) ∙ l.same_list x (from x h);
  heads = l.heads;
}

pub IsListed-remove :
    (first : ℕ) (N : ℕ → Type 0) (n p n' : ℕ → ℕ) (b : ℕ)
    → IsCycle N n p
    → N b
    → first + 80 ≤ b
    → ((x : ℕ) → N x → n' x ≡ (if x == p b then n b else n x))
    → IsListed first N n
    → IsListed first (λ x. N x × (x ≢ b)) n'
IsListed-remove first N n p n' b cycle at_b block next l =
    let (nb, pb, npb, pnb) = cycle b at_b in
    let down = l.falls b at_b block in
    let same = l.same_list b at_b in
    record {
      steps = l.steps;
      list = l.list;
      limit = l.limit;
      falls = λ x h far. elim (Bool-cases (x == p b)) [
        | inl e ↦
            let f : n x ≡ b = ap n (ground arith) ∙ npb in
            let g : n' x ≡ n b = next x h.0 ∙ rw e refl in
            let here : l.steps b < l.steps x = rw (sym f) (l.falls x h.0 far) in rw g (omega arith)
        | inr e ↦ let g : n' x ≡ n x = next x h.0 ∙ rw e refl in rw g (l.falls x h.0 far)
      ];
      bounded = λ x h. l.bounded x h.0;
      same_list = λ x h. elim (Bool-cases (x == p b)) [
        | inl e ↦
            let f : n x ≡ b = ap n (ground arith) ∙ npb in
            let g : n' x ≡ n b = next x h.0 ∙ rw e refl in
            ap l.list g ∙ same ∙ ap l.list (sym f) ∙ l.same_list x h.0
        | inr e ↦ let g : n' x ≡ n x = next x h.0 ∙ rw e refl in ap l.list g ∙ l.same_list x h.0
      ];
      heads = l.heads;
    }

pub IsListed-insert :
    (first : ℕ) (N : ℕ → Type 0) (n n' : ℕ → ℕ) (b h : ℕ)
    → ((x : ℕ) → N x → N (n x))
    → N h
    → h < first + 80
    → first + 80 ≤ b
    → ((x : ℕ) → N x → x ≢ b)
    → ((x : ℕ) → N x → n' x ≡ (if x == h then b else n x))
    → n' b ≡ n h
    → IsListed first N n
    → IsListed first (λ x. N x ⊎ (x ≡ b)) n'
IsListed-insert first N n n' b h closed at_h low block out next next_b l =
    let steps' : ℕ → ℕ = λ x. if x == b then l.limit + 1 else l.steps x in
    let list' : ℕ → ℕ = λ x. if x == b then l.list h else l.list x in
    let at_b : b == b ≡ true = ground arith in
    let other : (x : ℕ) → N x → x == b ≡ false = λ x k. let ne = out x k in ground arith in
    record {
      steps = steps';
      list = list';
      limit = l.limit + 1;
      falls = λ x k far. elim k [
        | inl q ↦
            let e : x == h ≡ false = ground arith in
            let g : n' x ≡ n x = next x q ∙ rw e refl in
            rw (g, other x q, other (n x) (closed x q)) (l.falls x q far)
        | inr e ↦
            let up = l.bounded (n h) (closed h at_h) in
            rw (e, next_b, at_b, other (n h) (closed h at_h)) (omega arith)
      ];
      bounded = λ x k. elim k [
        | inl q ↦ let up = l.bounded x q in rw (other x q) (omega arith)
        | inr e ↦ rw (e, at_b) (omega arith)
      ];
      same_list = λ x k. elim k [
        | inl q ↦ elim (Bool-cases (x == h)) [
          | inl e ↦
              let f : x ≡ h = ground arith in
              let g : n' x ≡ b = next x q ∙ rw e refl in ap list' g ∙ rw (at_b, other x q, f) refl
          | inr e ↦
              let g : n' x ≡ n x = next x q ∙ rw e refl in
              ap list' g ∙ rw (other (n x) (closed x q), other x q) (l.same_list x q)
        ]
        | inr e ↦
            let g : n' x ≡ n h = ap n' e ∙ next_b in
            rw (g, other (n h) (closed h at_h), e, at_b) (l.same_list h at_h)
      ];
      heads = λ i few. let e : first + i * 8 == b ≡ false = ground arith in rw e (l.heads i few);
    }
