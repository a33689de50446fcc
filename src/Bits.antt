-- ===== src/Bits.antt =====
-- The bit puzzles, data lab/bits.c. An int or unsigned is its 32 bits as a number below 2 ^ 32, in
-- two's complement, with sums and shifts to the left that wrap: the machine that the file assumes.
pub mod Words
pub mod Puzzles
mod Tests
use Prim.Native.Nat.{bit_and, bit_or, bit_xor}
use computer_systems_practic.Prelude.{
  ℕ, zero, suc, ◌+◌, ◌-◌, ◌*◌, ◌/◌, ◌%◌, ◌^◌, Bool, true, false, ◌==◌, ltb, if◌then◌else◌, Option,
  none, some,
}

-- ~x, !x, x + y, x << k, x >> k on an int.
abbrev pub bit_not : ℕ → ℕ
bit_not x = 2 ^ 32 - 1 - x

abbrev pub log_not : ℕ → ℕ
log_not x = if x == 0 then 1 else 0

abbrev pub add : ℕ → ℕ → ℕ
add x y = (x + y) % 2 ^ 32

abbrev pub shl : ℕ → ℕ → ℕ
shl x k = (x * 2 ^ k) % 2 ^ 32

abbrev pub sar : ℕ → ℕ → ℕ
sar x k = if ltb x (2 ^ 31) then x / 2 ^ k else bit_not (bit_not x / 2 ^ k)

unfoldable pub bit_xor_of : ℕ → ℕ → ℕ
bit_xor_of x y = bit_and (bit_not (bit_and x y)) (bit_not (bit_and (bit_not x) (bit_not y)))

unfoldable pub tmin : ℕ
tmin = shl 1 31

unfoldable pub is_tmax : ℕ → ℕ
is_tmax x = log_not (bit_or (add (add x x) 2) (log_not (bit_not x)))

unfoldable pub all_odd_bits : ℕ → ℕ
all_odd_bits x =
    let temp1 = add (shl 0xAA 8) 0xAA in
    let temp2 = add (shl temp1 16) temp1 in log_not (bit_xor (bit_and x temp2) temp2)

unfoldable pub negate : ℕ → ℕ
negate x = add (bit_not x) 1

unfoldable pub is_ascii_digit : ℕ → ℕ
is_ascii_digit x = log_not (sar (bit_or (bit_xor x 0x30) (add 10 (bit_not (bit_and x 0xf)))) 4)

unfoldable pub conditional : ℕ → ℕ → ℕ → ℕ
conditional x y z =
    let mask = add (log_not x) (bit_not 0) in
    let reverse = bit_not mask in bit_or (bit_and mask y) (bit_and reverse z)

unfoldable pub is_less_or_equal : ℕ → ℕ → ℕ
is_less_or_equal x y =
    let diff_sign = bit_and x (bit_not y) in
    let same_sign = bit_not (bit_or (bit_xor x y) (add (add y (bit_not x)) 1)) in
    bit_and (sar (bit_or diff_sign same_sign) 31) 1

unfoldable pub logical_neg : ℕ → ℕ
logical_neg x =
    let complement = add (bit_not x) 1 in bit_and (sar (bit_not (bit_or x complement)) 31) 1

-- One step of `howManyBits`: shift is raised by 2 ^ k when something is left of positive above it.
abbrev pub raise_shift : (positive shift k : ℕ) → ℕ
raise_shift positive shift k = add shift (shl (log_not (log_not (sar positive (2 ^ k + shift)))) k)

unfoldable pub how_many_bits : ℕ → ℕ
how_many_bits x =
    let sign = sar x 31 in
    let positive = bit_xor x sign in
    let shift1 = raise_shift positive 0 4 in
    let shift2 = raise_shift positive shift1 3 in
    let shift3 = raise_shift positive shift2 2 in
    let shift4 = raise_shift positive shift3 1 in
    let shift5 = raise_shift positive shift4 0 in add (add shift5 (log_not (log_not positive))) 1

-- The float puzzles work on unsigned words, whose shift to the right is a division.
unfoldable pub float_twice : ℕ → ℕ
float_twice uf =
    let order_bits = bit_and uf 0x7F800000 in
    let result = add uf 0x00800000 in
    if order_bits == 0x7F800000
    then uf
    else if order_bits == 0
    then bit_or (shl uf 1) (bit_and uf 0x80000000)
    else if bit_and result 0x7F800000 == 0x7F800000
    then bit_and result 0xFF800000
    else result

-- The loop of `float_i2f`, for a number of rounds: copy shifted until its top bit is set, and order.
unfoldable pub normalize : ℕ → (copy order : ℕ) → Option (ℕ × ℕ)
normalize zero copy order = if bit_and copy 0x80000000 == 0 then none else some (copy, order)
normalize (suc n) copy order =
    let rest = normalize n (shl copy 1) (order - 1) in
    if bit_and copy 0x80000000 == 0 then rest else some (copy, order)

-- What follows the loop. `fraction` is unsigned, the shift before it is one of an int.
unfoldable pub round_fraction : (copy order sign : ℕ) → ℕ
round_fraction copy order sign =
    let fraction = sar copy 8 in
    let last_eight = bit_and copy 0xFF in
    let rounds_up = ltb (0x80 - bit_and fraction 1) last_eight in
    let fraction' = if rounds_up then add fraction 1 else fraction in
    let order' = if rounds_up then (if fraction' == 0 then order + 1 else order) else order in
    bit_or (bit_or (bit_and fraction' 0x7FFFFF) (shl order' 23)) sign

unfoldable pub float_i2f : ℕ → Option ℕ
unfolding normalize round_fraction
float_i2f x =
    let is_positive = ltb x (2 ^ 31) in
    let copy = if is_positive then x else negate x in
    let sign = if is_positive then 0 else 0x80000000 in
    if x == 0 then some 0 else elim (normalize 31 copy 158) [
      | none ↦ none
      | some (copy', order) ↦ some (round_fraction copy' order sign)
    ]

-- `order` is the exponent field less 127, below 0 where the field is.
unfoldable pub float_f2i : ℕ → ℕ
unfolding negate
float_f2i uf =
    let field = bit_and uf 0x7F800000 / 2 ^ 23 in
    let fraction = bit_and uf 0x7FFFFF in
    let order = field - 127 in
    let shifted = if ltb 23 order then shl fraction (order - 23) else fraction / 2 ^ (23 - order) in
    let result = bit_or shifted (shl 1 order) in
    if ltb 157 field
    then 0x80000000
    else if ltb field 127
    then 0
    else if uf / 2 ^ 31 == 0
    then result
    else negate result
