-- ===== src/Malloc/Bytes.antt =====
-- `realloc` and `calloc` of mm.c, and the bytes of memory that memcpy and memset write. The bytes of a
-- word stand in the order of a little-endian machine.
pub mod Contents
use computer_systems_practic.Prelude.{
  ℕ, zero, suc, ◌+◌, ◌-◌, ◌*◌, ◌/◌, ◌%◌, ◌^◌, Bool, Option, none, some, ◌==◌, ltb, if◌then◌else◌,
}
use computer_systems_practic.Malloc.{Mem, put, get_size, hdrp, Heap, free}
use computer_systems_practic.Malloc.Alloc.{Fit, block, no_block, out_of_fuel, malloc}

abbrev pub word_of : ℕ → ℕ
word_of x = x - x % 4

abbrev pub unit_of : ℕ → ℕ
unit_of x = 2 ^ (8 * (x % 4))

abbrev pub get_byte : Mem → ℕ → ℕ
get_byte m x = m (word_of x) / unit_of x % 256

unfoldable pub put_byte : Mem → (x v : ℕ) → Mem
put_byte m x v =
    let w = m (word_of x) in
    put m (word_of x) (w % unit_of x + v * unit_of x + w / (256 * unit_of x) * (256 * unit_of x))

-- memset(dst, v, n) and memcpy(dst, src, n), for areas that do not overlap.
unfoldable pub memset : (n : ℕ) → Mem → (dst v : ℕ) → Mem
unfolding put_byte
memset zero m dst v = m
memset (suc n) m dst v = memset n (put_byte m dst v) (dst + 1) v

unfoldable pub memcpy : (n : ℕ) → Mem → (dst src : ℕ) → Mem
unfolding put_byte
memcpy zero m dst src = m
memcpy (suc n) m dst src = memcpy n (put_byte m dst (get_byte m src)) (dst + 1) (src + 1)

module _ (first : ℕ) where
  -- `oldsize` as realloc leaves it: the size of the old block, tags included, or the size asked for.
  abbrev pub oldsize : Mem → (oldptr size : ℕ) → ℕ
  oldsize m oldptr size =
      if ltb size (get_size m (hdrp oldptr)) then size else get_size m (hdrp oldptr)

  -- The end of `realloc`, with what malloc returned.
  abbrev pub move_block : (oldptr size : ℕ) → Heap first × Fit → Heap first × Fit
  move_block oldptr size (h, no_block) = (h, no_block)
  move_block oldptr size (h, out_of_fuel) = (h, out_of_fuel)
  move_block oldptr size (h, block newptr) = (
    free first (record h { mem = memcpy (oldsize h.mem oldptr size) h.mem newptr oldptr }) oldptr,
    block newptr,
  )

  unfoldable pub realloc :
      (grows : ℕ → ℕ → Bool) → (fuel oldptr size : ℕ) → Heap first → Heap first × Fit
  unfolding malloc memcpy free
  realloc grows fuel oldptr size h =
      if size == 0
      then (free first h oldptr, no_block)
      else if oldptr == 0
      then malloc first grows fuel size h
      else move_block oldptr size (malloc first grows fuel size h)

  -- none is a write through NULL.
  abbrev pub clear_block : (totalsize : ℕ) → Heap first × Fit → Option (Heap first × Fit)
  clear_block totalsize (h, out_of_fuel) = some (h, out_of_fuel)
  clear_block totalsize (h, no_block) = if totalsize == 0 then some (h, no_block) else none
  clear_block totalsize (h, block bp) =
      some (record h { mem = memset totalsize h.mem bp 0 }, block bp)

  unfoldable pub calloc :
      (grows : ℕ → ℕ → Bool) → (fuel nmemb size : ℕ) → Heap first → Option (Heap first × Fit)
  unfolding malloc memset
  calloc grows fuel nmemb size h =
      let totalsize = nmemb * size % 2 ^ 64 in
      clear_block totalsize (malloc first grows fuel totalsize h)
