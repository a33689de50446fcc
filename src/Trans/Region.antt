-- ===== src/Trans/Region.antt =====
-- Writing the transposed matrix on a region, and loops over such writes.
use computer_systems_practic.Prelude.{
  ℕ, zero, suc, ◌+◌, ◌*◌, ◌<◌, ◌≡◌, refl, Bool, true, false, ◌&&◌, ◌||◌, arith, ltb, if◌then◌else◌,
  ◌∙◌, ap, sym,
}
use computer_systems_practic.Trans.{Mat, for_step}

-- `next` is b with the elements of the region p set to those of the transpose of a.
abbrev pub Writes : {V : Type 0} → Mat V → (ℕ → ℕ → Bool) → Mat V → Mat V → Type 0
Writes a p b next = (r c : ℕ) → next r c ≡ (if p r c then a c r else b r c)

-- The rows below m and columns below n.
abbrev pub rect : ℕ → ℕ → ℕ → ℕ → Bool
rect m n r c = ltb r m && ltb c n

-- Is an element in the region of some round of the loop?
abbrev pub any_round : ℕ → ℕ → ℕ → (ℕ → ℕ → ℕ → Bool) → ℕ → ℕ → Bool
any_round step zero k p r c = false
any_round step (suc n) k p r c = p k r c || any_round step n (k + step) p r c

module _ {V : Type 0} (a : Mat V) where
  Writes-trans :
      (p q : ℕ → ℕ → Bool) (b b1 b2 : Mat V)
      → Writes a p b b1
      → Writes a q b1 b2
      → Writes a (λ r c. p r c || q r c) b b2
  Writes-trans p q b b1 b2 w w' r c = ground (arith, w r c, w' r c)

  -- A loop writes the regions of its rounds.
  pub for_step-Writes :
      (step n k : ℕ) (p : ℕ → ℕ → ℕ → Bool) (body : ℕ → Mat V → Mat V) (b : Mat V)
      → ((i : ℕ) (s : Mat V) → Writes a (p i) s (body i s))
      → Writes a (any_round step n k p) b (for_step step n k body b)
  unfolding for_step
  for_step-Writes step zero k p body b h = λ r c. refl
  for_step-Writes step (suc n) k p body b h =
      Writes-trans (p k) (any_round step n (k + step) p) b (body k b) _ (h k b)
        (for_step-Writes step n (k + step) p body (body k b) h)

  -- The same region by another test.
  pub Writes-region :
      (p q : ℕ → ℕ → Bool) (b next : Mat V)
      → ((r c : ℕ) → p r c ≡ q r c)
      → Writes a p b next
      → Writes a q b next
  Writes-region p q b next e w r c = rw (← e r c) (w r c)

-- An element in the region of round m is in that of the loop.
pub any_round-true :
    (step n k m : ℕ) (p : ℕ → ℕ → ℕ → Bool) (r c : ℕ)
    → m < n
    → p (k + m * step) r c ≡ true
    → any_round step n k p r c ≡ true
any_round-true step zero k m p r c h t = absurd (omega arith)
any_round-true step (suc n) k zero p r c h t =
    let e : k + 0 * step ≡ k = omega arith in
    let here : p k r c ≡ true = ap (λ (x : ℕ). p x r c) (sym e) ∙ t in ground arith
any_round-true step (suc n) k (suc m) p r c h t =
    let e : k + suc m * step ≡ k + step + m * step = omega arith in
    let there : p (k + step + m * step) r c ≡ true = ap (λ (x : ℕ). p x r c) (sym e) ∙ t in
    ground (arith, any_round-true step n (k + step) m p r c (omega arith) there)

-- An element outside the regions of all rounds is outside that of the loop.
pub any_round-false :
    (step n k : ℕ) (p : ℕ → ℕ → ℕ → Bool) (r c : ℕ)
    → ((m : ℕ) → m < n → p (k + m * step) r c ≡ false)
    → any_round step n k p r c ≡ false
any_round-false step zero k p r c h = refl
any_round-false step (suc n) k p r c h =
    let here : p k r c ≡ false =
      let e : k + 0 * step ≡ k = omega arith in
      ap (λ (x : ℕ). p x r c) (sym e) ∙ h 0 (omega arith) in
    let rest = any_round-false step n (k + step) p r c (λ m l.
      let e : k + suc m * step ≡ k + step + m * step = omega arith in
      ap (λ (x : ℕ). p x r c) (sym e) ∙ h (suc m) (omega arith)) in
    ground arith

-- Both tests hold or fail together.
pub Bool-eq : (x y : Bool) → (y ≡ true → x ≡ true) → (y ≡ false → x ≡ false) → x ≡ y
Bool-eq x true t f = t refl
Bool-eq x false t f = f refl
