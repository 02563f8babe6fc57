-- ===== src/Crc/Agree.antt =====
-- crc32_le is the checksum of its polynomial, and has 32 bits.
use Prim.Native.Nat.{bit_and, bit_xor}
use mstd.Prelude.{
  ℕ, zero, suc, ◌+◌, ◌*◌, ◌/◌, ◌%◌, ◌^◌, ◌<◌, ◌≡◌, refl, sym, ap, ap₂, ◌∙◌, inl, inr, Bool, true,
  Bool-cases, ◌==◌, ==→eq, List, [], ◌∷◌, get_or, AllBytes, all_below, all_below_sound, ltb, ltb→lt,
  arith,
}
use mstd.Crc.Xor.{
  xor-zero, xor_half, xor_parity, xor_interchange, xor-shifted, xor_bound, shifted, and-byte,
  xor-byte,
}
use mstd.Crc.Table.{crc32_le_table, complement, crc_bytes, crc32_le}
use mstd.Crc.Polynomial.{polynomial, shift_out, shift_all, divide, checksum}

-- The step without its test.
shift_out-xor : (crc : ℕ) → shift_out crc ≡ bit_xor (crc / 2) (crc % 2 * polynomial)
shift_out-xor crc = elim (Bool-cases (crc % 2 == 1)) [
  | inl b ↦
      let one : crc % 2 ≡ 1 = ==→eq _ _ b in
      rw (b) (ap (λ d. bit_xor (crc / 2) (d * polynomial)) (sym one))
  | inr b ↦
      let none : crc % 2 ≡ 0 = ground arith in
      rw (b) (sym (ap (λ d. bit_xor (crc / 2) (d * polynomial)) none ∙ xor-zero (crc / 2)))
]

digit-xor :
    (p q : ℕ) → p < 2 → q < 2 → bit_xor (p * polynomial) (q * polynomial) ≡ (p + q) % 2 * polynomial
digit-xor zero zero h k = refl
digit-xor zero (suc zero) h k = refl
digit-xor (suc zero) zero h k = refl
digit-xor (suc zero) (suc zero) h k = refl
digit-xor zero (suc (suc q)) h k = absurd (omega arith)
digit-xor (suc zero) (suc (suc q)) h k = absurd (omega arith)
digit-xor (suc (suc p)) q h k = absurd (omega arith)

-- The steps are linear.
pub shift_out-linear : (a b : ℕ) → shift_out (bit_xor a b) ≡ bit_xor (shift_out a) (shift_out b)
shift_out-linear a b =
    let p = a % 2 * polynomial in
    let q = b % 2 * polynomial in
    let parity : bit_xor a b % 2 ≡ (a % 2 + b % 2) % 2 = omega (arith, xor_parity a b) in
    shift_out-xor (bit_xor a b)
    ∙ ap₂ (λ x d. bit_xor x (d * polynomial)) (xor_half a b) parity
    ∙ ap (bit_xor (bit_xor (a / 2) (b / 2)))
        (sym (digit-xor (a % 2) (b % 2) (omega arith) (omega arith)))
    ∙ xor_interchange (a / 2) (b / 2) p q
    ∙ sym (ap₂ bit_xor (shift_out-xor a) (shift_out-xor b))

pub shift_all-linear :
    (n a b : ℕ) → shift_all n (bit_xor a b) ≡ bit_xor (shift_all n a) (shift_all n b)
shift_all-linear zero a b = refl
shift_all-linear (suc n) a b =
    ap (shift_all n) (shift_out-linear a b) ∙ shift_all-linear n (shift_out a) (shift_out b)

-- A number shifted left comes back.
shift_out-shifted : (y : ℕ) → shift_out (y * 2) ≡ y
shift_out-shifted y = ground arith

shift_all-shifted : (n y : ℕ) → shift_all n (shifted n y) ≡ y
shift_all-shifted zero y = refl
shift_all-shifted (suc n) y =
    ap (shift_all n) (shift_out-shifted (shifted n y)) ∙ shift_all-shifted n y

-- Eight steps: those of the lowest byte, and the rest moved down.
shift_all-byte : (x : ℕ) → shift_all 8 x ≡ bit_xor (shift_all 8 (x % 256)) (x / 256)
shift_all-byte x =
    let y = x / 256 in
    let parts : x ≡ x % 256 + shifted 8 y = omega arith in
    ap (shift_all 8) (parts ∙ sym (xor-shifted 8 (x % 256) y (omega arith)))
    ∙ shift_all-linear 8 (x % 256) (shifted 8 y)
    ∙ ap (bit_xor (shift_all 8 (x % 256))) (shift_all-shifted 8 y)

-- The table is the steps of each byte.
abbrev is_row : ℕ → Bool
is_row i = get_or crc32_le_table i 0 == shift_all 8 i

table_rows : all_below 256 is_row ≡ true
table_rows = refl

table-shift_all : (i : ℕ) → i < 256 → get_or crc32_le_table i 0 ≡ shift_all 8 i
table-shift_all i h = ==→eq _ _ (all_below_sound 256 is_row i table_rows h)

-- A byte of the loop.
crc_byte :
    (crc byte : ℕ)
    → byte < 256
    → bit_xor (get_or crc32_le_table (bit_and (bit_xor crc byte) 0xff) 0) (crc / 256)
      ≡ shift_all 8 (bit_xor crc byte)
crc_byte crc byte h =
    let x = bit_xor crc byte in
    ap₂ bit_xor
      (ap (λ i. get_or crc32_le_table i 0) (and-byte x) ∙ table-shift_all (x % 256) (omega arith))
      (sym (xor-byte crc byte h))
    ∙ sym (shift_all-byte x)

pub crc_bytes-divide : (crc : ℕ) (buf : List ℕ) → AllBytes buf → crc_bytes crc buf ≡ divide crc buf
unfolding crc_bytes
crc_bytes-divide crc [] h = refl
crc_bytes-divide crc (byte ∷ buf) h =
    ap (λ c. crc_bytes c buf) (crc_byte crc byte h.0)
    ∙ crc_bytes-divide (shift_all 8 (bit_xor crc byte)) buf h.1

abbrev is_small_row : ℕ → Bool
is_small_row i = ltb (get_or crc32_le_table i 0) (2 ^ 32)

table_small : all_below 256 is_small_row ≡ true
table_small = refl

pub crc_bytes_bound : (buf : List ℕ) (crc : ℕ) → crc < 2 ^ 32 → crc_bytes crc buf < 2 ^ 32
unfolding crc_bytes
crc_bytes_bound [] crc h = h
crc_bytes_bound (byte ∷ buf) crc h = crc_bytes_bound buf _ (
    xor_bound 32 _ (crc / 256)
      (row (bit_and (bit_xor crc byte) 0xff) (omega (arith, and-byte (bit_xor crc byte))))
      (omega arith))
  where
    row : (i : ℕ) → i < 256 → get_or crc32_le_table i 0 < 2 ^ 32
    row i lt = ltb→lt _ _ (all_below_sound 256 is_small_row i table_small lt)

-- The routine with the table gives the checksum of the polynomial, for bytes and any start; its
-- register never leaves the 32 bits that it is kept in.
pub crc32_le-checksum :
    (crc : ℕ) (buf : List ℕ)
    → crc < 2 ^ 32
    → AllBytes buf
    → (crc32_le crc buf ≡ checksum crc buf) × (crc_bytes (complement crc) buf < 2 ^ 32)
unfolding crc32_le
crc32_le-checksum crc buf h b = (
  ap complement (crc_bytes-divide (complement crc) buf b),
  crc_bytes_bound buf (complement crc) (omega arith),
)

-- Any list has a checksum of 32 bits.
pub crc32_le_range : (crc : ℕ) (buf : List ℕ) → crc32_le crc buf < 2 ^ 32
unfolding crc32_le
crc32_le_range crc buf = omega arith
