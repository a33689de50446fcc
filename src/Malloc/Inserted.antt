-- ===== src/Malloc/Inserted.antt =====
-- `ins_free_blk` of mm.c on a doubly linked list.
use computer_systems_practic.Prelude.{
  ℕ, ◌+◌, ◌-◌, ◌*◌, ◌≡◌, ◌≢◌, refl, sym, ap, ◌∙◌, true, false, List, [], ◌∷◌, arith, ◌==◌,
  if◌then◌else◌, All,
}
use computer_systems_practic.Malloc.{Mem, next_empt_blkp, prev_empt_blkp, ins_free_blk}
use computer_systems_practic.Malloc.Words.{IsWords}
use computer_systems_practic.Malloc.Lists.{ins_free_blk_words}
use computer_systems_practic.Malloc.Linked.{Distinct, IsNode, IsLinked, IsList, succ-IsNode}

module _ (first : ℕ) where
  -- Two memories with the same sections for the blocks xs.
  abbrev Agree : Mem → Mem → List ℕ → Type 0
  Agree m m1 xs = All (λ x. (m1 x ≡ m x) × (m1 (x + 4) ≡ m (x + 4))) xs

  IsLinked-Agree :
      (m m1 : Mem) (head back bp : ℕ) (xs : List ℕ)
      → m1 (head + 4) ≡ m (head + 4)
      → Agree m m1 xs
      → IsLinked first m head back bp xs
      → IsLinked first m1 head back bp xs
  IsLinked-Agree m m1 head back bp [] h a (e, pr) = (e, rw h pr)
  IsLinked-Agree m m1 head back bp (x ∷ xs) h ((an, same_prev), a) (e, ne, pr, r) = (
    e,
    ne,
    rw same_prev pr,
    rw an (IsLinked-Agree m m1 head x (next_empt_blkp first m x) xs h a r),
  )

  first_prev :
      (m : Mem) (head back bp : ℕ) (xs : List ℕ)
      → IsLinked first m head back bp xs
      → prev_empt_blkp first m bp ≡ back
  first_prev m head back bp [] (e, pr) = rw e pr
  first_prev m head back bp (x ∷ xs) (e, ne, pr, r) = rw e pr

  first_other :
      (m : Mem) (head back bp y : ℕ) (xs : List ℕ)
      → All (λ x. x ≢ y) (head ∷ xs)
      → IsLinked first m head back bp xs
      → bp ≢ y
  first_other m head back bp y [] (h, a) (e, pr) = λ f. h (sym e ∙ f)
  first_other m head back bp y (x ∷ xs) (h, (a, others_a)) (e, ne, pr, r) = λ f. a (sym e ∙ f)

  module _ (m : Mem) (bp index : ℕ) (xs : List ℕ) (w : IsWords m)
      (v : IsList first m (first + index * 8) xs) (n : IsNode first bp)
      (new : All (λ x. x ≢ bp) ((first + index * 8) ∷ xs)) where
    abbrev head : ℕ
    head = first + index * 8

    abbrev succ : ℕ
    succ = first + m (first + index * 8)

    inserted :
        (x : ℕ)
        → ins_free_blk first m bp index x ≡ (
            if x == succ + 4
            then bp - first
            else if x == head
            then bp - first
            else if x == bp + 4
            then index * 8
            else if x == bp
            then m head
            else m x)
    inserted =
        let (n0, n1, n2) = n in
        let (h0, h1, h2) = v.nodes.0 in
        let (s0, s1, s2) = succ-IsNode first m head head succ xs v.nodes v.linked in
        let small = w head in
        let other = first_other m head head succ bp xs new v.linked in
        let back = first_prev m head head succ xs v.linked in
        let new_head = new.0 in
        ins_free_blk_words first m bp index n1 (omega arith) small (omega arith)
          (λ e. new_head (sym e)) (omega arith) other (omega arith) (omega arith) (omega arith)
          (omega arith)

    at_node :
        (x : ℕ)
        → IsNode first x
        → ins_free_blk first m bp index x
          ≡ (if x == head then bp - first else if x == bp then m head else m x)
    at_node x (x0, x1, x2) =
        let (n0, n1, n2) = n in
        let (s0, s1, s2) = succ-IsNode first m head head succ xs v.nodes v.linked in
        let e : x == succ + 4 ≡ false = ground arith in
        let f : x == bp + 4 ≡ false = ground arith in inserted x ∙ rw (e, f) refl

    at_prev :
        (x : ℕ)
        → IsNode first x
        → ins_free_blk first m bp index (x + 4)
          ≡ (if x == succ then bp - first else if x == bp then index * 8 else m (x + 4))
    at_prev x (x0, x1, x2) =
        let (n0, n1, n2) = n in
        let (h0, h1, h2) = v.nodes.0 in
        let e : x + 4 == head ≡ false = ground arith in
        let f : x + 4 == bp ≡ false = ground arith in
        let g : (x + 4 == succ + 4) ≡ (x == succ) = ground arith in
        let k : (x + 4 == bp + 4) ≡ (x == bp) = ground arith in
        inserted (x + 4) ∙ rw (g, e, k, f) refl

    abbrev after : Mem
    after = ins_free_blk first m bp index

    others :
        (ys : List ℕ)
        → All (IsNode first) ys
        → All (λ x. x ≢ bp) ys
        → All (λ x. x ≢ head) ys
        → All (λ x. x ≢ succ) ys
        → Agree m after ys
    others [] ns nb nh nq = tt
    others (y ∷ ys) (n, ns) (nb, nbs) (nh, nhs) (nq, nqs) =
        let e : y == head ≡ false = ground arith in
        let f : y == bp ≡ false = ground arith in
        let g : y == succ ≡ false = ground arith in
        ((at_node y n ∙ rw (e, f) refl, at_prev y n ∙ rw (g, f) refl), others ys ns nbs nhs nqs)

    back_offset : first + (bp - first) ≡ bp
    back_offset = let (n0, n1, n2) = n in omega arith

    prev_succ : (y : ℕ) → IsNode first y → succ ≡ y → prev_empt_blkp first after y ≡ bp
    prev_succ y ny e =
        let f : y == succ ≡ true = ground arith in
        ap (λ z. first + z) (at_prev y ny ∙ rw f refl) ∙ back_offset

    -- The blocks behind the new one.
    behind_new :
        (ys : List ℕ)
        → IsLinked first m head head succ ys
        → All (IsNode first) ys
        → All (λ x. x ≢ bp) ys
        → Distinct (head ∷ ys)
        → IsLinked first after head bp succ ys
    behind_new [] (e, pr) ns nb d = (e, prev_succ head v.nodes.0 e)
    behind_new (y ∷ ys) (e, ne, pr, r) (ny, ns) (nb, nbs) ((nh, nhs), (nq, d)) =
        let nq' : All (λ x. x ≢ succ) ys = rw e nq in
        let f : head == succ ≡ false = ground arith in
        let new_head = new.0 in
        let g : head == bp ≡ false = ground arith in
        let h : after (head + 4) ≡ m (head + 4) = at_prev head v.nodes.0 ∙ rw (f, g) refl in
        let yh : y == head ≡ false = ground arith in
        let yb : y == bp ≡ false = ground arith in
        let same : after y ≡ m y = at_node y ny ∙ rw (yh, yb) refl in
        (
          e,
          ne,
          prev_succ y ny e,
          rw same (
              IsLinked-Agree m after head y (next_empt_blkp first m y) ys h
                (others ys ns nbs nhs nq') r),
        )

    inserted-linked : IsLinked first after head head (next_empt_blkp first after head) (bp ∷ xs)
    inserted-linked =
        let new_head = new.0 in
        let other = first_other m head head succ bp xs new v.linked in
        let hh : head == head ≡ true = ground arith in
        let bb : bp == bp ≡ true = ground arith in
        let bh : bp == head ≡ false = ground arith in
        let bs : bp == succ ≡ false = ground arith in
        let to_new = ap (λ z. first + z) (at_node head v.nodes.0 ∙ rw hh refl) ∙ back_offset in
        let back = ap (λ z. first + z) (at_prev bp n ∙ rw (bs, bb) refl) in
        let on = at_node bp n ∙ rw (bh, bb) refl in
        (
          to_new,
          λ e. new_head (sym e),
          back,
          rw on (behind_new xs v.linked v.nodes.1 new.1 v.distinct),
        )

  -- `ins_free_blk` puts an aligned block with a 32-bit offset that is not in the list at the front of a
  -- doubly linked list of distinct such blocks, in a memory of 32-bit words.
  pub ins_free_blk-IsList :
      (m : Mem) (bp index : ℕ) (xs : List ℕ)
      → IsWords m
      → IsList first m (first + index * 8) xs
      → IsNode first bp
      → All (λ x. x ≢ bp) ((first + index * 8) ∷ xs)
      → IsList first (ins_free_blk first m bp index) (first + index * 8) (bp ∷ xs)
  ins_free_blk-IsList m bp index xs w v n new = record {
    linked = inserted-linked m bp index xs w v n new;
    nodes = (v.nodes.0, (n, v.nodes.1));
    distinct = ((λ e. new.0 (sym e), v.distinct.0), (new.1, v.distinct.1));
  }
