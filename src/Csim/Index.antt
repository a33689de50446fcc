-- ===== src/Csim/Index.antt =====
-- The address split of csim.c: set index and tag.
use native.Mathlib.Nat
use computer_systems_practic.Prelude.{
  ℕ, ◌+◌, ◌*◌, ◌/◌, ◌%◌, ◌^◌, ◌<◌, ◌≡◌, ◌∙◌, ap, arith, pow-pos, pow-add, shift_window, sym,
}
use computer_systems_practic.Csim.{Param, tag_bits, tag_of, set_index}

-- The geometries for which every shift of `createCache` and `executeInst` is defined in C: with s = 0
-- or s + b = 64 a shift count is 64.
pub record Fits (param : Param) : Type 0 where
  pub s_pos : 0 < param.s
  pub s_small : param.s < 32
  pub below_64 : param.s + param.b < 64

module _ (param : Param) (addr : ℕ) where
  -- The two shifts by way of 64 bits select the s bits above the b block bits.
  pub set_index_lem : Fits param → set_index param addr ≡ (addr / 2 ^ param.b) % 2 ^ param.s
  unfolding set_index
  set_index_lem fits =
      let w : param.s + param.b + tag_bits param ≡ 64 = omega (arith, fits.below_64) in
      ap (λ (k : ℕ). (addr * 2 ^ tag_bits param) % 2 ^ k / 2 ^ (tag_bits param + param.b)) (sym w)
      ∙ shift_window addr param.s param.b (tag_bits param)

  pub set_index-lt : Fits param → set_index param addr < 2 ^ param.s
  set_index-lt fits = rw (set_index_lem fits) (Nat.mod-lt _ (pow-pos param.s))

  -- For 0 < s < 32 and s + b < 64, tag, set index and block offset put together give the address
  -- back.
  split_address :
      Fits param
      → (tag_of param addr * 2 ^ param.s + set_index param addr) * 2 ^ param.b + addr % 2 ^ param.b
        ≡ addr
  unfolding tag_of
  split_address fits =
      rw
        (
          set_index_lem fits,
          Nat.add_comm param.s param.b,
          pow-add param.b param.s,
          ← Nat.div-div-eq-div-mul,
          Nat.div-add-mod',
        )
        (Nat.div-add-mod' addr (2 ^ param.b))
