-- ===== src/Bits/Tests.antt =====
-- Runs of the puzzles, and what they compute at given words.
use computer_systems_practic.Prelude.{◌≡◌, refl, some, ◌-◌, ◌^◌, if◌then◌else◌, arith}
use computer_systems_practic.Bits.Puzzles.{is_less_or_equal_lem, signed_leb}
use computer_systems_practic.Bits.{
  how_many_bits, float_i2f, float_f2i, is_less_or_equal, is_ascii_digit, bit_xor_of, normalize,
  round_fraction, negate,
}

bits_12 : how_many_bits 12 ≡ 5
unfolding how_many_bits
bits_12 = refl

bits_minus_5 : how_many_bits (2 ^ 32 - 5) ≡ 4
unfolding how_many_bits
bits_minus_5 = refl

-- (float) 1, (float) -1, and 2 ^ 24 + 1, which is halfway between two floats.
float_one : float_i2f 1 ≡ some 0x3F800000
unfolding float_i2f normalize round_fraction
float_one = refl

float_minus_one : float_i2f (2 ^ 32 - 1) ≡ some 0xBF800000
unfolding float_i2f normalize round_fraction negate
float_minus_one = refl

float_halfway : float_i2f 0x1000001 ≡ some 0x4B800000
unfolding float_i2f normalize round_fraction
float_halfway = refl

float_carry : float_i2f 0x7FFFFFFF ≡ some 0x4F000000
unfolding float_i2f normalize round_fraction
float_carry = refl

int_of_float : float_f2i 0xC1480000 ≡ 2 ^ 32 - 12
unfolding float_f2i negate
int_of_float = refl

digit_5 : is_ascii_digit 0x35 ≡ 1
unfolding is_ascii_digit
digit_5 = refl

not_digit : is_ascii_digit 0x3a ≡ 0
unfolding is_ascii_digit
not_digit = refl

xor_4_5 : bit_xor_of 4 5 ≡ 1
unfolding bit_xor_of
xor_4_5 = refl

is_less_or_equal_lem_example :
    is_less_or_equal 0xFFFFFFFF 5 ≡ (if signed_leb 0xFFFFFFFF 5 then 1 else 0)
is_less_or_equal_lem_example = is_less_or_equal_lem 0xFFFFFFFF 5 (omega arith) (omega arith)
