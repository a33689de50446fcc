-- ===== src/Malloc/Heaps/Links.antt =====
-- `ins_free_blk` and `del_free_blk` of mm.c on a well-formed heap.
use computer_systems_practic.Prelude.{
  ℕ, ◌+◌, ◌-◌, ◌*◌, ◌%◌, ◌^◌, ◌≤◌, ◌<◌, ◌≡◌, ◌≢◌, refl, sym, ap, ◌∙◌, false, List, arith, ◌⊎◌, inl,
  inr, ◌==◌, if◌then◌else◌, Bool-cases,
}
use computer_systems_practic.Malloc.{
  Mem, put, prev_sect, next_empt_blkp, prev_empt_blkp, ins_free_blk, del_free_blk,
}
use computer_systems_practic.Malloc.Cycle.{
  IsListed-remove, IsListed-insert, IsCycle-remove, IsCycle-insert,
}
use computer_systems_practic.Malloc.Lists.{ins_free_blk_words}
use computer_systems_practic.Malloc.Row.{Tag, FreeAt, FreeAt-bounds}
use computer_systems_practic.Malloc.Words.{ins_free_blk-IsWords, del_free_blk-IsWords}
use computer_systems_practic.Malloc.Heaps.{IsHeap, IsPlace-bounds, IsPlace-off, IsHeap-links}

module _ (first : ℕ) where
  module _ (m : Mem) (brk : ℕ) (ts : List Tag) (N : ℕ → Type 0) (h : IsHeap first m brk ts N) where
    module _ (b : ℕ) (at_b : N b) (block : first + 80 ≤ b) where
      abbrev next_b : ℕ
      next_b = next_empt_blkp first m b

      abbrev prev_b : ℕ
      prev_b = prev_empt_blkp first m b

      del_words :
          (x : ℕ)
          → del_free_blk first m b x
            ≡ (if x == prev_b then m b else if x == next_b + 4 then m (b + 4) else m x)
      unfolding del_free_blk
      del_words x =
          let (nb, pb, e, f) = h.cycle b at_b in
          let (a, lo, hi, end) = IsPlace-bounds first m brk ts N h b (h.nodes b at_b) in
          let (an, lon, hin, endn) = IsPlace-bounds first m brk ts N h next_b (h.nodes next_b nb) in
          let small : m b % 2 ^ 32 ≡ m b = let w = h.words b in omega arith in
          let small' : m (b + 4) % 2 ^ 32 ≡ m (b + 4) = let w = h.words (b + 4) in omega arith in
          let prev_word : put m (prev_sect next_b) (m (b + 4)) (b + 4) ≡ m (b + 4) =
            elim (Bool-cases (b + 4 == next_b + 4)) [
              | inl same ↦ rw (same, small') refl
              | inr other ↦ rw other refl
            ] in
          let apart : b == next_b + 4 ≡ false = ground arith in
          let next_word : put m (prev_sect next_b) (m (b + 4)) b ≡ m b = rw apart refl in
          rw (del_free_blk, prev_word, next_word, small, small') refl

      del_next :
          (x : ℕ)
          → N x
          → next_empt_blkp first (del_free_blk first m b) x
            ≡ (if x == prev_b then next_b else next_empt_blkp first m x)
      del_next x n =
          let m1 = del_free_blk first m b in
          let (nb, pb, e0, f0) = h.cycle b at_b in
          let place_n = h.nodes next_b nb in
          let (ax, lox, hix, endx) = IsPlace-bounds first m brk ts N h x (h.nodes x n) in
          let (an, lon, hin, endn) = IsPlace-bounds first m brk ts N h next_b place_n in
          let apart : x == next_b + 4 ≡ false = ground arith in
          elim (Bool-cases (x == prev_b)) [
            | inl e ↦ let v : m1 x ≡ m b = del_words x ∙ rw e refl in rw (e, v) refl
            | inr e ↦ let v : m1 x ≡ m x = del_words x ∙ rw (e, apart) refl in rw (e, v) refl
          ]

      pub del-IsHeap : IsHeap first (del_free_blk first m b) brk ts (λ x. N x × (x ≢ b))
      del-IsHeap =
          let m1 = del_free_blk first m b in
          let (nb, pb, e, f) = h.cycle b at_b in
          let place_n = h.nodes next_b nb in
          let place_p = h.nodes prev_b pb in
          IsHeap-links first m brk ts N h m1 (λ x. N x × (x ≢ b))
            (del_free_blk-IsWords first m b h.words)
            (λ x t.
              let off_p = (IsPlace-off first m brk ts N h prev_b x place_p t).0 in
              let off_n = (IsPlace-off first m brk ts N h next_b x place_n t).1 in
              let e1 : x == prev_b ≡ false = ground arith in
              let e2 : x == next_b + 4 ≡ false = ground arith in del_words x ∙ rw (e1, e2) refl)
            (λ x n. h.nodes x n.0) (λ x a lo hi. (h.table x a lo hi, omega arith))
            (IsCycle-remove N (next_empt_blkp first m) (prev_empt_blkp first m)
              (next_empt_blkp first m1) (prev_empt_blkp first m1) h.cycle b at_b (del_next)
              (λ x n.
                let (ax, lox, hix, endx) = IsPlace-bounds first m brk ts N h x (h.nodes x n) in
                let (ap', lop, hip, endp) = IsPlace-bounds first m brk ts N h prev_b place_p in
                let apart : x + 4 == prev_b ≡ false = ground arith in
                let same : (x + 4 == next_b + 4) ≡ (x == next_b) = ground arith in
                elim (Bool-cases (x == next_b)) [
                  | inl e ↦
                      let v : m1 (x + 4) ≡ m (b + 4) =
                        del_words (x + 4) ∙ rw (apart, same, e) refl in
                      rw (e, v) refl
                  | inr e ↦
                      let v : m1 (x + 4) ≡ m (x + 4) =
                        del_words (x + 4) ∙ rw (apart, same, e) refl in
                      rw (e, v) refl
                ]))
            (IsListed-remove first N (next_empt_blkp first m) (prev_empt_blkp first m)
              (next_empt_blkp first m1) b h.cycle at_b block del_next h.lists)

    -- A free block that is not linked goes behind an entry of the table.
    module _ (b index : ℕ) (free : FreeAt (first + 96) ts b) (out : (x : ℕ) → N x → x ≢ b)
        (few : index < 10) where
      abbrev entry : ℕ
      entry = first + index * 8

      abbrev behind : ℕ
      behind = next_empt_blkp first m entry

      at_entry : N entry
      at_entry = let al = h.aligned in h.table entry (omega arith) (omega arith) (omega arith)

      ins_words :
          (x : ℕ)
          → ins_free_blk first m b index x ≡ (
              if x == behind + 4
              then b - first
              else if x == entry
              then b - first
              else if x == b + 4
              then index * 8
              else if x == b
              then m entry
              else m x)
      ins_words x =
          let (ne, pe, e, f) = h.cycle entry at_entry in
          let (ab, lob, hib, endb) = IsPlace-bounds first m brk ts N h b (inr free) in
          let (ae, loe, hie, ende) =
            IsPlace-bounds first m brk ts N h entry (h.nodes entry at_entry) in
          let (an, lon, hin, endn) = IsPlace-bounds first m brk ts N h behind (h.nodes behind ne) in
          let apart = out entry at_entry in
          let apart_n = out behind ne in
          let w = h.words entry in
          ins_free_blk_words first m b index lob (omega arith) w (omega arith) (λ g. apart (sym g))
            (omega arith) apart_n (omega arith) (omega arith) (omega arith) (omega arith) x

      block : first + 80 ≤ b
      block =
          let al = h.aligned in
          let (lo, hi, a) = FreeAt-bounds m (first + 96) ts brk b (omega arith) h.row free in
          omega arith

      ins_next :
          (x : ℕ)
          → N x
          → next_empt_blkp first (ins_free_blk first m b index) x
            ≡ (if x == entry then b else next_empt_blkp first m x)
      ins_next x n =
          let (ne, pe, e, f) = h.cycle entry at_entry in
          let (ab, lob, hib, endb) = IsPlace-bounds first m brk ts N h b (inr free) in
          let (an, lon, hin, endn) = IsPlace-bounds first m brk ts N h behind (h.nodes behind ne) in
          let back : first + (b - first) ≡ b = omega arith in
          let (ax, lox, hix, endx) = IsPlace-bounds first m brk ts N h x (h.nodes x n) in
          let ne_x = out x n in ap (λ v. first + v) (ins_words x) ∙ ground arith

      ins_next_b : next_empt_blkp first (ins_free_blk first m b index) b ≡ behind
      ins_next_b =
          let (ne, pe, e, f) = h.cycle entry at_entry in
          let (ab, lob, hib, endb) = IsPlace-bounds first m brk ts N h b (inr free) in
          let (an, lon, hin, endn) = IsPlace-bounds first m brk ts N h behind (h.nodes behind ne) in
          let apart = out entry at_entry in
          let apart_n = out behind ne in ap (λ v. first + v) (ins_words b) ∙ ground arith

      pub ins-IsHeap : IsHeap first (ins_free_blk first m b index) brk ts (λ x. N x ⊎ (x ≡ b))
      ins-IsHeap =
          let m1 = ins_free_blk first m b index in
          let (ne, pe, e, f) = h.cycle entry at_entry in
          let (ab, lob, hib, endb) = IsPlace-bounds first m brk ts N h b (inr free) in
          let (ae, loe, hie, ende) =
            IsPlace-bounds first m brk ts N h entry (h.nodes entry at_entry) in
          let (an, lon, hin, endn) = IsPlace-bounds first m brk ts N h behind (h.nodes behind ne) in
          let apart = out entry at_entry in
          let apart_n = out behind ne in
          let back : first + (b - first) ≡ b = omega arith in
          IsHeap-links first m brk ts N h m1 (λ x. N x ⊎ (x ≡ b))
            (ins_free_blk-IsWords first m b index h.words)
            (λ x t.
              let (b1, b2) = IsPlace-off first m brk ts N h b x (inr free) t in
              let (e1, e2) = IsPlace-off first m brk ts N h entry x (h.nodes entry at_entry) t in
              let (n1, n2) = IsPlace-off first m brk ts N h behind x (h.nodes behind ne) t in
              let f1 : x == behind + 4 ≡ false = ground arith in
              let f2 : x == entry ≡ false = ground arith in
              let f3 : x == b + 4 ≡ false = ground arith in
              let f4 : x == b ≡ false = ground arith in ins_words x ∙ rw (f1, f2, f3, f4) refl)
            (λ x n. elim n [ inl k ↦ h.nodes x k | inr k ↦ rw k (inr free) ])
            (λ x a lo hi. inl (h.table x a lo hi))
            (IsCycle-insert N (next_empt_blkp first m) (prev_empt_blkp first m)
              (next_empt_blkp first m1) (prev_empt_blkp first m1) h.cycle b entry at_entry out
              ins_next
              (λ x n.
                let (ax, lox, hix, endx) = IsPlace-bounds first m brk ts N h x (h.nodes x n) in
                let ne_x = out x n in ap (λ v. first + v) (ins_words (x + 4)) ∙ ground arith)
              ins_next_b (ap (λ v. first + v) (ins_words (b + 4)) ∙ ground arith))
            (IsListed-insert first N (next_empt_blkp first m) (next_empt_blkp first m1) b entry
              (λ x n. (h.cycle x n).0) at_entry (omega arith) block out ins_next ins_next_b h.lists)
