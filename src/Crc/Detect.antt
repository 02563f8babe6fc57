-- ===== src/Crc/Detect.antt =====
-- The checksum tells texts apart that differ in one byte.
use Prim.Native.Nat.{bit_xor}
use mstd.Prelude.{
  ℕ, zero, suc, ◌/◌, ◌%◌, ◌^◌, ◌<◌, ◌≡◌, ◌≢◌, refl, sym, ap, ◌∙◌, inl, inr, Bool-cases, ◌==◌, List,
  [], ◌∷◌, ◌++◌, AllBytes, arith,
}
use mstd.Crc.Xor.{zero-xor, xor-zero, xor_self, xor_assoc, xor_comm, xor_bound}
use mstd.Crc.Table.{complement, crc_bytes, crc32_le}
use mstd.Crc.Polynomial.{polynomial, shift_out, shift_all, divide}
use mstd.Crc.Agree.{shift_out-linear, crc_bytes-divide, crc_bytes_bound}

-- Two numbers whose exclusive or is 0 are equal.
xor-apart : (a b : ℕ) → bit_xor a b ≡ 0 → a ≡ b
xor-apart a b h =
    sym (xor-zero a)
    ∙ ap (bit_xor a) (sym (xor_self b))
    ∙ sym (xor_assoc a b b)
    ∙ ap (λ x. bit_xor x b) h
    ∙ zero-xor b

-- The polynomial has the highest digit, so no register but 0 comes to 0.
shift_out-zero : (crc : ℕ) → crc < 2 ^ 32 → shift_out crc ≡ 0 → crc ≡ 0
shift_out-zero crc h e = elim (Bool-cases (crc % 2 == 1)) [
  | inl b ↦ absurd (high (xor-apart (crc / 2) polynomial (rw b at e)))
  | inr b ↦ ground (arith, e, b)
]
  where
    high : crc / 2 ≢ polynomial
    high k = omega arith

shift_out_bound : (crc : ℕ) → crc < 2 ^ 32 → shift_out crc < 2 ^ 32
shift_out_bound crc h = elim (Bool-cases (crc % 2 == 1)) [
  | inl b ↦ rw b (xor_bound 32 (crc / 2) polynomial (omega arith) (omega arith))
  | inr b ↦ rw b (omega arith)
]

shift_out_injective : (a b : ℕ) → a < 2 ^ 32 → b < 2 ^ 32 → shift_out a ≡ shift_out b → a ≡ b
shift_out_injective a b h k e = xor-apart a b (
    shift_out-zero (bit_xor a b) (xor_bound 32 a b h k)
      (shift_out-linear a b ∙ ap (λ x. bit_xor x (shift_out b)) e ∙ xor_self (shift_out b)))

shift_all_injective : (n a b : ℕ) → a < 2 ^ 32 → b < 2 ^ 32 → shift_all n a ≡ shift_all n b → a ≡ b
shift_all_injective zero a b h k e = e
shift_all_injective (suc n) a b h k e = shift_out_injective a b h k (
    shift_all_injective n (shift_out a) (shift_out b) (shift_out_bound a h) (shift_out_bound b k) e)

shift_all_bound : (n crc : ℕ) → crc < 2 ^ 32 → shift_all n crc < 2 ^ 32
shift_all_bound zero crc h = h
shift_all_bound (suc n) crc h = shift_all_bound n (shift_out crc) (shift_out_bound crc h)

xor_injective : (a b c : ℕ) → bit_xor a c ≡ bit_xor b c → a ≡ b
xor_injective a b c e =
    sym (xor-zero a)
    ∙ ap (bit_xor a) (sym (xor_self c))
    ∙ sym (xor_assoc a c c)
    ∙ ap (λ x. bit_xor x c) e
    ∙ xor_assoc b c c
    ∙ ap (bit_xor b) (xor_self c)
    ∙ xor-zero b

-- Different registers stay different.
divide_injective :
    (buf : List ℕ) (a b : ℕ)
    → AllBytes buf
    → a < 2 ^ 32
    → b < 2 ^ 32
    → divide a buf ≡ divide b buf
    → a ≡ b
divide_injective [] a b bytes h k e = e
divide_injective (byte ∷ buf) a b bytes h k e =
    let small = bytes.0 in
    let p = xor_bound 32 a byte h (omega arith) in
    let q = xor_bound 32 b byte k (omega arith) in
    xor_injective a b byte (
      shift_all_injective 8 (bit_xor a byte) (bit_xor b byte) p q
        (divide_injective buf _ _ bytes.1 (shift_all_bound 8 _ p) (shift_all_bound 8 _ q) e))

divide-append : (crc : ℕ) (xs ys : List ℕ) → divide crc (xs ++ ys) ≡ divide (divide crc xs) ys
divide-append crc [] ys = refl
divide-append crc (x ∷ xs) ys = divide-append (shift_all 8 (bit_xor crc x)) xs ys

complement_injective : (a b : ℕ) → a < 2 ^ 32 → b < 2 ^ 32 → complement a ≡ complement b → a ≡ b
complement_injective a b h k e = omega arith

AllBytes-append : (xs ys : List ℕ) → AllBytes xs → AllBytes ys → AllBytes (xs ++ ys)
AllBytes-append [] ys h k = k
AllBytes-append (x ∷ xs) ys h k = (h.0, AllBytes-append xs ys h.1 k)

divide_bound : (crc : ℕ) (buf : List ℕ) → crc < 2 ^ 32 → AllBytes buf → divide crc buf < 2 ^ 32
divide_bound crc buf h b =
    let e = crc_bytes-divide crc buf b in omega (arith, crc_bytes_bound buf crc h)

-- The registers behind texts that differ in one byte are different.
divide-differs :
    (crc : ℕ) (xs ys : List ℕ) (x y : ℕ)
    → crc < 2 ^ 32
    → AllBytes xs
    → AllBytes (x ∷ ys)
    → y < 256
    → divide crc (xs ++ (x ∷ ys)) ≡ divide crc (xs ++ (y ∷ ys))
    → x ≡ y
divide-differs crc xs ys x y h b b' k e =
    let r = divide crc xs in
    let small = divide_bound crc xs h b in
    let first = b'.0 in
    let p = xor_bound 32 r x small (omega arith) in
    let q = xor_bound 32 r y small (omega arith) in
    let same = shift_all_injective 8 (bit_xor r x) (bit_xor r y) p q (
      divide_injective ys _ _ b'.1 (shift_all_bound 8 _ p) (shift_all_bound 8 _ q)
        (sym (divide-append crc xs (x ∷ ys)) ∙ e ∙ divide-append crc xs (y ∷ ys))) in
    xor_injective x y r (xor_comm x r ∙ same ∙ xor_comm r y)

-- Texts of bytes that differ in one byte have different checksums.
pub crc32_le-differs :
    (crc : ℕ) (xs ys : List ℕ) (x y : ℕ)
    → crc < 2 ^ 32
    → AllBytes xs
    → AllBytes (x ∷ ys)
    → y < 256
    → x ≢ y
    → crc32_le crc (xs ++ (x ∷ ys)) ≢ crc32_le crc (xs ++ (y ∷ ys))
unfolding crc32_le
crc32_le-differs crc xs ys x y h b b' k n e =
    let c = complement crc in
    let small : c < 2 ^ 32 = omega arith in
    let whole = AllBytes-append xs (x ∷ ys) b b' in
    let other = AllBytes-append xs (y ∷ ys) b (k, b'.1) in
    let same =
      complement_injective (crc_bytes c (xs ++ (x ∷ ys))) (crc_bytes c (xs ++ (y ∷ ys)))
        (crc_bytes_bound _ c small) (crc_bytes_bound _ c small) e in
    n (
      divide-differs c xs ys x y small b b' k
        (sym (crc_bytes-divide c _ whole) ∙ same ∙ crc_bytes-divide c _ other))
