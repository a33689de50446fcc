-- ===== src/Malloc/Linked.antt =====
-- The doubly linked free lists of mm.c under `del_free_blk` and `ins_free_blk`.
use computer_systems_practic.Prelude.{
  ℕ, ◌+◌, ◌%◌, ◌^◌, ◌≤◌, ◌<◌, ◌≡◌, ◌≢◌, refl, sym, ◌∙◌, true, false, List, [], ◌∷◌, ◌++◌, arith,
  ◌==◌, if◌then◌else◌, All,
}
use computer_systems_practic.Malloc.{
  Mem, put, prev_sect, next_empt_blkp, prev_empt_blkp, del_free_blk,
}
use computer_systems_practic.Malloc.Words.{IsWords}

abbrev pub Distinct : List ℕ → Type 0
Distinct [] = Unit
Distinct (x ∷ xs) = All (λ y. y ≢ x) xs × Distinct xs

All-drop : (P : ℕ → Type 0) (ys zs : List ℕ) → All P (ys ++ zs) → All P zs
All-drop P [] zs a = a
All-drop P (y ∷ ys) zs a = All-drop P ys zs a.1

Distinct-drop : (ys zs : List ℕ) → Distinct (ys ++ zs) → Distinct zs
Distinct-drop [] zs d = d
Distinct-drop (y ∷ ys) zs d = Distinct-drop ys zs d.1

module _ (first : ℕ) where
  -- A block or an entry of the table: aligned, and with an offset of 32 bits.
  abbrev pub IsNode : ℕ → Type 0
  IsNode x = (x % 8 ≡ 0) × (first ≤ x) × (x < first + 2 ^ 32)

  -- From bp on, the next sections lead through xs to the head, and the prev sections lead back; before
  -- bp stands `back`.
  abbrev pub IsLinked : Mem → (head back bp : ℕ) → List ℕ → Type 0
  IsLinked m head back bp [] = (bp ≡ head) × (prev_empt_blkp first m head ≡ back)
  IsLinked m head back bp (x ∷ xs) =
      (bp ≡ x)
      × (x ≢ head)
      × (prev_empt_blkp first m x ≡ back)
      × IsLinked m head x (next_empt_blkp first m x) xs

  -- The list of a head holds the blocks xs.
  pub record IsList (m : Mem) (head : ℕ) (xs : List ℕ) : Type 0 where
    pub linked : IsLinked m head head (next_empt_blkp first m head) xs
    pub nodes : All IsNode (head ∷ xs)
    pub distinct : Distinct (head ∷ xs)

  last_or : ℕ → List ℕ → ℕ
  last_or p [] = p
  last_or p (y ∷ ys) = last_or y ys

  pub succ_apart :
      (m : Mem) (head b q y : ℕ) (zs : List ℕ)
      → y ≢ head
      → All (λ z. z ≢ y) zs
      → IsLinked m head b q zs
      → y ≢ q
  succ_apart m head b q y [] h a (e, pr) = λ f. h (f ∙ e)
  succ_apart m head b q y (z ∷ zs) h (a, others) (e, nz, pr, r) = λ f. a (sym (f ∙ e))

  last_apart : (y y' : ℕ) (ys zs : List ℕ) → All (λ x. x ≢ y) (y' ∷ ys ++ zs) → y ≢ last_or y' ys
  unfolding last_or
  last_apart y y' [] zs (k, ks) = λ f. k (sym f)
  last_apart y y' (x ∷ ys) zs (k, ks) = last_apart y x ys zs ks

  -- A memory in which the next section of p and the prev section of q take what b has.
  module _ (m m1 : Mem) (b p q : ℕ)
      (at_next : (x : ℕ) → IsNode x → m1 x ≡ (if x == p then m b else m x))
      (at_prev : (x : ℕ) → IsNode x → m1 (x + 4) ≡ (if x == q then m (b + 4) else m (x + 4)))
      (before : prev_empt_blkp first m b ≡ p) (behind : next_empt_blkp first m b ≡ q) where
    prev_q : (x : ℕ) → IsNode x → x ≡ q → prev_empt_blkp first m1 x ≡ p
    prev_q x n e = let s : x == q ≡ true = ground arith in rw (at_prev x n, s) before

    prev_other : (x : ℕ) → IsNode x → x ≢ q → prev_empt_blkp first m1 x ≡ prev_empt_blkp first m x
    prev_other x n e = let s : x == q ≡ false = ground arith in rw (at_prev x n, s) refl

    next_p : (x : ℕ) → IsNode x → x ≡ p → next_empt_blkp first m1 x ≡ q
    next_p x n e = let s : x == p ≡ true = ground arith in rw (at_next x n, s) behind

    next_other : (x : ℕ) → IsNode x → x ≢ p → next_empt_blkp first m1 x ≡ next_empt_blkp first m x
    next_other x n e = let s : x == p ≡ false = ground arith in rw (at_next x n, s) refl

    module _ (head : ℕ) (head_n : IsNode head) where
      IsLinked-frame :
          (back bp : ℕ) (xs : List ℕ)
          → All IsNode xs
          → All (λ x. x ≢ p) xs
          → All (λ x. x ≢ q) xs
          → head ≢ q
          → IsLinked m head back bp xs
          → IsLinked m1 head back bp xs
      IsLinked-frame back bp [] n np nq h (e, pr) = (e, prev_other head head_n h ∙ pr)
      IsLinked-frame back bp (x ∷ xs) (n, ns) (np, nps) (nq, nqs) h (e, ne, pr, rest) =
          let go = IsLinked-frame x (next_empt_blkp first m x) xs ns nps nqs h rest in
          (e, ne, prev_other x n nq ∙ pr, rw (next_other x n np) go)

      IsLinked-behind :
          (xs : List ℕ)
          → All IsNode xs
          → All (λ x. x ≢ p) xs
          → Distinct xs
          → IsLinked m head b q xs
          → IsLinked m1 head p q xs
      IsLinked-behind [] n np d (e, pr) = (e, prev_q head head_n (sym e))
      IsLinked-behind (x ∷ xs) (n, ns) (np, nps) (nx, d) (e, ne, pr, rest) =
          let away : All (λ y. y ≢ q) xs = rw e nx in
          let h : head ≢ q = λ f. ne (sym (f ∙ e)) in
          let go = IsLinked-frame x (next_empt_blkp first m x) xs ns nps away h rest in
          (e, ne, prev_q x n (sym e), rw (next_other x n np) go)

      start_of : ℕ → List ℕ → ℕ
      start_of s [] = q
      start_of s (y ∷ ys) = s

      IsLinked-bypass :
          (back start : ℕ) (ys zs : List ℕ)
          → IsLinked m head back start (ys ++ b ∷ zs)
          → p ≡ last_or back ys
          → IsLinked m head b q zs
          → All IsNode (ys ++ b ∷ zs)
          → Distinct (back ∷ ys ++ b ∷ zs)
          → IsLinked m1 head back (start_of start ys) (ys ++ zs)
      unfolding last_or start_of
      IsLinked-bypass back start [] zs c e rest (n, ns) ((ne, nb), (nx, d)) =
          rw (sym e) (IsLinked-behind zs ns (rw e nb) d rest)
      IsLinked-bypass back start (y ∷ []) zs (e1, ne, pr, c) e rest (n, (nb, ns))
            (a, (ay, (az, d))) =
          let away = succ_apart m head b q y zs ne ay.1 rest in
          let r : IsLinked m1 head y q zs = rw (sym e) (IsLinked-behind zs ns (rw e ay.1) d rest) in
          (e1, ne, prev_other y n away ∙ pr, rw (next_p y n (sym e)) r)
      IsLinked-bypass back start (y ∷ y' ∷ ys) zs (e1, ne, pr, c) e rest (n, ns) (a, (ay, d)) =
          let away = succ_apart m head b q y zs ne (All-drop _ ys _ ay.1).1 rest in
          let apart : y ≢ p = λ f. last_apart y y' ys (b ∷ zs) ay (f ∙ e) in
          let r = IsLinked-bypass y (next_empt_blkp first m y) (y' ∷ ys) zs c e rest ns (ay, d) in
          (e1, ne, prev_other y n away ∙ pr, rw (next_other y n apart) r)

      start_lem :
          (ys zs : List ℕ)
          → All (λ x. x ≢ head) (ys ++ b ∷ zs)
          → p ≡ last_or head ys
          → next_empt_blkp first m1 head ≡ start_of (next_empt_blkp first m head) ys
      unfolding last_or start_of
      start_lem [] zs a e = next_p head head_n (sym e)
      start_lem (y ∷ ys) zs a e =
          next_other head head_n (λ f. last_apart head y ys (b ∷ zs) a (f ∙ e))

  IsLinked-middle :
      (m : Mem) (head back start b : ℕ) (ys zs : List ℕ)
      → IsLinked m head back start (ys ++ b ∷ zs)
      → (prev_empt_blkp first m b ≡ last_or back ys)
        × IsLinked m head b (next_empt_blkp first m b) zs
  unfolding last_or
  IsLinked-middle m head back start b [] zs (e, ne, pr, c) = (pr, c)
  IsLinked-middle m head back start b (y ∷ ys) zs (e, ne, pr, c) =
      IsLinked-middle m head y (next_empt_blkp first m y) b ys zs c

  module _ (m : Mem) (b p q : ℕ) (words : IsWords m) (b_n : IsNode b) (p_n : IsNode p)
      (q_n : IsNode q) (before : prev_empt_blkp first m b ≡ p)
      (behind : next_empt_blkp first m b ≡ q) (ne : b ≢ q) where
    prev_word : (put m (prev_sect q) (m (b + 4))) (b + 4) ≡ m (b + 4)
    prev_word = let e : b + 4 == q + 4 ≡ false = ground arith in rw e refl

    next_word : (put m (prev_sect q) (m (b + 4))) b ≡ m b
    next_word =
        let (nb, nb1, nb2) = b_n in
        let (nq, nq1, nq2) = q_n in let e : b == q + 4 ≡ false = ground arith in rw e refl

    del_words :
        (x : ℕ)
        → del_free_blk first m b x ≡ (if x == p then m b else if x == q + 4 then m (b + 4) else m x)
    unfolding del_free_blk
    del_words x =
        let small : m b % 2 ^ 32 ≡ m b = let w = words b in omega arith in
        let small' : m (b + 4) % 2 ^ 32 ≡ m (b + 4) = let w = words (b + 4) in omega arith in
        rw (del_free_blk, behind, prev_word, next_word, before, small, small') refl

    del_next : (x : ℕ) → IsNode x → del_free_blk first m b x ≡ (if x == p then m b else m x)
    del_next x n =
        let (nx, nx1, nx2) = n in
        let (nq, nq1, nq2) = q_n in
        let e : x == q + 4 ≡ false = ground arith in del_words x ∙ rw e refl

    del_prev :
        (x : ℕ)
        → IsNode x
        → del_free_blk first m b (x + 4) ≡ (if x == q then m (b + 4) else m (x + 4))
    del_prev x n =
        let (nx, nx1, nx2) = n in
        let (np, np1, np2) = p_n in
        let e : x + 4 == p ≡ false = ground arith in
        let f : (x + 4 == q + 4) ≡ (x == q) = ground arith in del_words (x + 4) ∙ rw (e, f) refl

  All-without : (P : ℕ → Type 0) (b : ℕ) (ys zs : List ℕ) → All P (ys ++ b ∷ zs) → All P (ys ++ zs)
  All-without P b [] zs a = a.1
  All-without P b (y ∷ ys) zs (p, a) = (p, All-without P b ys zs a)

  Distinct-without : (b : ℕ) (ys zs : List ℕ) → Distinct (ys ++ b ∷ zs) → Distinct (ys ++ zs)
  Distinct-without b [] zs d = d.1
  Distinct-without b (y ∷ ys) zs (ne, d) = (All-without _ b ys zs ne, Distinct-without b ys zs d)

  All-last : (P : ℕ → Type 0) (y : ℕ) (ys zs : List ℕ) → All P (y ∷ ys ++ zs) → P (last_or y ys)
  unfolding last_or
  All-last P y [] zs (p, a) = p
  All-last P y (x ∷ ys) zs (p, a) = All-last P x ys zs a

  -- The block behind b, or the head.
  pub succ-IsNode :
      (m : Mem) (head back bp : ℕ) (xs : List ℕ)
      → All IsNode (head ∷ xs)
      → IsLinked m head back bp xs
      → IsNode bp
  succ-IsNode m head back bp [] (n, ns) (e, pr) = rw e n
  succ-IsNode m head back bp (x ∷ xs) (n, (nx, ns)) (e, ne, pr, r) = rw e nx

  last-IsNode :
      (head : ℕ) (ys zs : List ℕ) → IsNode head → All IsNode (ys ++ zs) → IsNode (last_or head ys)
  unfolding last_or
  last-IsNode head [] zs n a = n
  last-IsNode head (y ∷ ys) zs n a = All-last IsNode y ys zs a

  -- `del_free_blk` takes a block out of a doubly linked list of distinct blocks, aligned and with 32-bit
  -- offsets, wherever it stands, and keeps the order of the others, in a memory of 32-bit words.
  pub del_free_blk-IsList :
      (m : Mem) (head b : ℕ) (ys zs : List ℕ)
      → IsWords m
      → IsList m head (ys ++ b ∷ zs)
      → IsList (del_free_blk first m b) head (ys ++ zs)
  del_free_blk-IsList m head b ys zs w v =
      let m1 = del_free_blk first m b in
      let p = prev_empt_blkp first m b in
      let q = next_empt_blkp first m b in
      let (pe, rest) = IsLinked-middle m head head (next_empt_blkp first m head) b ys zs v.linked in
      let (head_n, ns) = v.nodes in
      let (head_a, d) = v.distinct in
      let tail_n = All-drop _ ys _ ns in
      let b_head : b ≢ head = (All-drop _ ys _ head_a).0 in
      let ne = succ_apart m head b q b zs b_head (Distinct-drop ys _ d).0 rest in
      let b_n = tail_n.0 in
      let p_n : IsNode p = rw pe (last-IsNode head ys (b ∷ zs) head_n ns) in
      let q_n = succ-IsNode m head b q zs (head_n, tail_n.1) rest in
      let next = del_next m b p q w b_n p_n q_n refl refl ne in
      let prev = del_prev m b p q w b_n p_n q_n refl refl ne in
      let r =
        IsLinked-bypass m m1 b p q next prev refl refl head head_n head
          (next_empt_blkp first m head) ys zs v.linked pe rest ns (head_a, d) in
      record {
        linked = rw (start_lem m m1 b p q next prev refl refl head head_n ys zs head_a pe) r;
        nodes = (head_n, All-without _ b ys zs ns);
        distinct = (All-without _ b ys zs head_a, Distinct-without b ys zs d);
      }
