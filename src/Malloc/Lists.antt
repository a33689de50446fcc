-- ===== src/Malloc/Lists.antt =====
-- The free lists of mm.c: deletion undoes insertion.
use computer_systems_practic.Prelude.{
  ℕ, ◌+◌, ◌-◌, ◌*◌, ◌^◌, ◌≤◌, ◌<◌, ◌≡◌, ◌≢◌, ◌∙◌, arith, ◌==◌, if◌then◌else◌,
}
use computer_systems_practic.Malloc.{Mem, ins_free_blk, del_free_blk}

-- The two words of a list entry that the entry at offset p is to point from and to: its next entry's
-- prev section holds p.
module _ (first : ℕ) (m : Mem) (bp index : ℕ) where
  abbrev head : ℕ
  head = index * 8

  abbrev next : ℕ
  next = m (first + index * 8)

  pub ins_free_blk_words :
      first ≤ bp
      → bp - first < 2 ^ 32
      → next < 2 ^ 32
      → head < 2 ^ 32
      → bp ≢ first + head
      → bp + 4 ≢ first + head
      → first + next ≢ bp
      → first + next + 4 ≢ bp
      → first + next ≢ bp + 4
      → first + next + 4 ≢ first + head
      → m (first + next + 4) ≡ head
      → (x : ℕ)
      → ins_free_blk first m bp index x ≡ (
          if x == first + next + 4
          then bp - first
          else if x == first + head
          then bp - first
          else if x == bp + 4
          then head
          else if x == bp
          then next
          else m x)
  unfolding ins_free_blk
  ins_free_blk_words p1 p2 p3 p4 p5 p6 p7 p8 p9 p10 circle x = ground arith

  -- A block that is inserted at the head of a circular list and deleted again leaves every other word
  -- as it was: the table entry, and the prev section of the entry that follows. This holds for a block
  -- of 32-bit offset whose two sections are apart from the table entry and the entry that follows, when
  -- that entry's prev section points back to the table entry.
  pub del_free_blk-ins :
      first ≤ bp
      → bp - first < 2 ^ 32
      → next < 2 ^ 32
      → head < 2 ^ 32
      → bp ≢ first + head
      → bp + 4 ≢ first + head
      → first + next ≢ bp
      → first + next + 4 ≢ bp
      → first + next ≢ bp + 4
      → first + next + 4 ≢ first + head
      → m (first + next + 4) ≡ head
      → (x : ℕ) → x ≢ bp
      → x ≢ bp + 4
      → del_free_blk first (ins_free_blk first m bp index) bp x ≡ m x
  unfolding del_free_blk
  del_free_blk-ins p1 p2 p3 p4 p5 p6 p7 p8 p9 p10 circle x ne ne' =
      let words = ins_free_blk_words p1 p2 p3 p4 p5 p6 p7 p8 p9 p10 circle in
      let at_bp : ins_free_blk first m bp index bp ≡ next = words bp ∙ ground arith in
      let at_prev : ins_free_blk first m bp index (bp + 4) ≡ head = words (bp + 4) ∙ ground arith in
      rw (del_free_blk, at_bp, at_prev, words x) (ground arith)
