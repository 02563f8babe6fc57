-- ===== src/Crc/Polynomial.antt =====
-- The checksum as the division by the polynomial that a comment of eval_crc in
-- soft/bootloader/main/setup_data.cpp names, digit by digit, the lowest first.
use Prim.Native.Nat.{bit_xor}
use mstd.Prelude.{ℕ, zero, suc, ◌+◌, ◌*◌, ◌/◌, ◌%◌, ◌^◌, ◌==◌, if◌then◌else◌, List, [], ◌∷◌}
use mstd.Crc.Table.{complement}

-- The lowest n digits of a number, in the other order.
abbrev reflected : ℕ → ℕ → ℕ
reflected zero x = 0
reflected (suc n) x = x % 2 * 2 ^ n + reflected n (x / 2)

-- x32+x26+x23+x22+x16+x12+x11+x10+x8+x7+x5+x4+x2+x1+1, without x32
abbrev pub polynomial : ℕ
polynomial = reflected 32 0x04c11db7

-- One digit leaves the register; where it is 1 the polynomial is taken away.
abbrev pub shift_out : ℕ → ℕ
shift_out crc = if crc % 2 == 1 then bit_xor (crc / 2) polynomial else crc / 2

abbrev pub shift_all : ℕ → ℕ → ℕ
shift_all zero crc = crc
shift_all (suc n) crc = shift_all n (shift_out crc)

abbrev pub divide : ℕ → List ℕ → ℕ
divide crc [] = crc
divide crc (byte ∷ buf) = divide (shift_all 8 (bit_xor crc byte)) buf

abbrev pub checksum : ℕ → List ℕ → ℕ
checksum crc buf = complement (divide (complement crc) buf)
