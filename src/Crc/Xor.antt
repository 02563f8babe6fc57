-- ===== src/Crc/Xor.antt =====
-- Laws of the exclusive or, from its lowest digit on.
use Prim.Native.Nat.{bit_xor, bit_and, digits, differ, bit_xor-bitwise, bit_and-bitwise}
use mstd.Prelude.{min, ℕ, zero, suc, ◌+◌, ◌*◌, ◌/◌, ◌%◌, ◌≤◌, ◌<◌, ◌≡◌, refl, sym, ap, ◌∙◌, arith}

differ-parity : (p q : ℕ) → p < 2 → q < 2 → differ p q ≡ (p + q) % 2
differ-parity zero q h k = omega arith
differ-parity (suc zero) zero h k = refl
differ-parity (suc zero) (suc zero) h k = refl
differ-parity (suc zero) (suc (suc q)) h k = absurd (omega arith)
differ-parity (suc (suc p)) q h k = absurd (omega arith)

-- The digits do not depend on the fuel.
module _ (z : ℕ → ℕ) (f : ℕ → ℕ → ℕ) where
  digits_enough : (n m a b : ℕ) → a ≤ n → a ≤ m → digits z f n a b ≡ digits z f m a b
  digits_enough zero zero a b h k = refl
  digits_enough zero (suc m) zero b h k = refl
  digits_enough zero (suc m) (suc a) b h k = absurd (omega arith)
  digits_enough (suc n) zero zero b h k = refl
  digits_enough (suc n) zero (suc a) b h k = absurd (omega arith)
  digits_enough (suc n) (suc m) zero b h k = refl
  digits_enough (suc n) (suc m) (suc a) b h k =
      ap (λ x. x * 2 + f (suc a % 2) (b % 2))
        (digits_enough n m (suc a / 2) (b / 2) (omega arith) (omega arith))

pub zero-xor : (b : ℕ) → bit_xor 0 b ≡ b
zero-xor b = bit_xor-bitwise 0 b

pub xor_lowest : (a b : ℕ) → bit_xor a b ≡ bit_xor (a / 2) (b / 2) * 2 + (a + b) % 2
xor_lowest zero b = omega (arith, zero-xor b, zero-xor (b / 2))
xor_lowest (suc a) b = omega (
  arith,
  bit_xor-bitwise (suc a) b,
  bit_xor-bitwise (suc a / 2) (b / 2),
  digits_enough (λ y. y) differ a (suc a / 2) (suc a / 2) (b / 2) (omega arith) (omega arith),
  differ-parity (suc a % 2) (b % 2) (omega arith) (omega arith),
)

pub xor_half : (a b : ℕ) → bit_xor a b / 2 ≡ bit_xor (a / 2) (b / 2)
xor_half a b = omega (arith, xor_lowest a b)

pub xor_parity : (a b : ℕ) → bit_xor a b % 2 ≡ (a + b) % 2
xor_parity a b = omega (arith, xor_lowest a b)

-- Two numbers are equal if their halves and their parities are.
halves : (a b : ℕ) → a / 2 ≡ b / 2 → a % 2 ≡ b % 2 → a ≡ b
halves a b h k = omega arith

xor_comm_below : (n a b : ℕ) → a + b ≤ n → bit_xor a b ≡ bit_xor b a
xor_comm_below zero zero zero h = refl
xor_comm_below zero (suc a) b h = absurd (omega arith)
xor_comm_below zero zero (suc b) h = absurd (omega arith)
xor_comm_below (suc n) a b h =
    omega (arith, xor_lowest a b, xor_lowest b a, xor_comm_below n (a / 2) (b / 2) (omega arith))

pub xor_comm : (a b : ℕ) → bit_xor a b ≡ bit_xor b a
xor_comm a b = xor_comm_below (a + b) a b (omega arith)

pub xor-zero : (a : ℕ) → bit_xor a 0 ≡ a
xor-zero a = xor_comm a 0 ∙ zero-xor a

xor_self_below : (n a : ℕ) → a ≤ n → bit_xor a a ≡ 0
xor_self_below n zero h = refl
xor_self_below zero (suc a) h = absurd (omega arith)
xor_self_below (suc n) (suc a) h =
    omega (arith, xor_lowest (suc a) (suc a), xor_self_below n (suc a / 2) (omega arith))

pub xor_self : (a : ℕ) → bit_xor a a ≡ 0
xor_self a = xor_self_below a a (omega arith)

xor_assoc_below : (n a b c : ℕ) → a + b + c ≤ n → bit_xor (bit_xor a b) c ≡ bit_xor a (bit_xor b c)
xor_assoc_below zero zero b c h = ap (λ x. bit_xor x c) (zero-xor b) ∙ sym (zero-xor (bit_xor b c))
xor_assoc_below zero (suc a) b c h = absurd (omega arith)
xor_assoc_below (suc n) a b c h =
    halves _ _
      (xor_half (bit_xor a b) c
        ∙ ap (λ x. bit_xor x (c / 2)) (xor_half a b)
        ∙ xor_assoc_below n (a / 2) (b / 2) (c / 2) (omega arith)
        ∙ ap (bit_xor (a / 2)) (sym (xor_half b c))
        ∙ sym (xor_half a (bit_xor b c)))
      (omega (
        arith,
        xor_parity (bit_xor a b) c,
        xor_parity a b,
        xor_parity a (bit_xor b c),
        xor_parity b c,
      ))

pub xor_assoc : (a b c : ℕ) → bit_xor (bit_xor a b) c ≡ bit_xor a (bit_xor b c)
xor_assoc a b c = xor_assoc_below (a + b + c) a b c (omega arith)

-- Two sums, grouped the other way.
pub xor_interchange :
    (a b c d : ℕ) → bit_xor (bit_xor a b) (bit_xor c d) ≡ bit_xor (bit_xor a c) (bit_xor b d)
xor_interchange a b c d =
    xor_assoc a b (bit_xor c d)
    ∙ ap (bit_xor a)
        (sym (xor_assoc b c d) ∙ ap (λ x. bit_xor x d) (xor_comm b c) ∙ xor_assoc c b d)
    ∙ sym (xor_assoc a c (bit_xor b d))

-- y shifted left by k digits.
abbrev pub shifted : ℕ → ℕ → ℕ
shifted zero y = y
shifted (suc k) y = shifted k y * 2

-- Below the digits of a shifted number the sum is the exclusive or.
pub xor-shifted : (k a y : ℕ) → a < shifted k 1 → bit_xor a (shifted k y) ≡ a + shifted k y
xor-shifted zero a y h = let z : 0 ≡ a = omega arith in rw (← z) (omega (arith, zero-xor y))
xor-shifted (suc k) a y h =
    let half : shifted k y * 2 / 2 ≡ shifted k y = omega arith in
    omega (
      arith,
      xor_lowest a (shifted k y * 2),
      ap (bit_xor (a / 2)) half,
      xor-shifted k (a / 2) y (omega arith),
    )

pub xor_bound : (k a b : ℕ) → a < shifted k 1 → b < shifted k 1 → bit_xor a b < shifted k 1
xor_bound zero a b h k =
    let y : 0 ≡ a = omega arith in let z : 0 ≡ b = omega arith in rw (← y, ← z) (omega arith)
xor_bound (suc n) a b h k =
    omega (arith, xor_lowest a b, xor_bound n (a / 2) (b / 2) (omega arith) (omega arith))

zero-and : (b : ℕ) → bit_and 0 b ≡ 0
zero-and b = bit_and-bitwise 0 b

and_lowest : (a b : ℕ) → bit_and a b ≡ bit_and (a / 2) (b / 2) * 2 + min (a % 2) (b % 2)
and_lowest zero b = omega (arith, zero-and b, zero-and (b / 2))
and_lowest (suc a) b = omega (
  arith,
  bit_and-bitwise (suc a) b,
  bit_and-bitwise (suc a / 2) (b / 2),
  digits_enough (λ y. zero) min a (suc a / 2) (suc a / 2) (b / 2) (omega arith) (omega arith),
)

-- The lowest k digits.
abbrev low : ℕ → ℕ → ℕ
low zero a = 0
low (suc k) a = low k (a / 2) * 2 + a % 2

abbrev ones : ℕ → ℕ
ones zero = 0
ones (suc k) = ones k * 2 + 1

and-zero_below : (n a : ℕ) → a ≤ n → bit_and a 0 ≡ 0
and-zero_below n zero h = zero-and 0
and-zero_below zero (suc a) h = absurd (omega arith)
and-zero_below (suc n) (suc a) h =
    omega (arith, and_lowest (suc a) 0, and-zero_below n (suc a / 2) (omega arith))

and-ones : (k a : ℕ) → bit_and a (ones k) ≡ low k a
and-ones zero a = and-zero_below a a (omega arith)
and-ones (suc k) a =
    let half : (ones k * 2 + 1) / 2 ≡ ones k = omega arith in
    omega (arith, and_lowest a (ones k * 2 + 1), ap (bit_and (a / 2)) half, and-ones k (a / 2))

-- The mask of the lowest byte.
pub and-byte : (a : ℕ) → bit_and a 0xff ≡ a % 256
and-byte a = and-ones 8 a ∙ omega arith

abbrev halved : ℕ → ℕ → ℕ
halved zero a = a
halved (suc k) a = halved k (a / 2)

xor_half_times : (k a b : ℕ) → halved k (bit_xor a b) ≡ bit_xor (halved k a) (halved k b)
xor_half_times zero a b = refl
xor_half_times (suc k) a b = ap (halved k) (xor_half a b) ∙ xor_half_times k (a / 2) (b / 2)

-- A byte does not reach behind the lowest eight digits.
pub xor-byte : (a b : ℕ) → b < 256 → bit_xor a b / 256 ≡ a / 256
xor-byte a b h =
    let whole : (x : ℕ) → halved 8 x ≡ x / 256 = λ x. omega arith in
    let gone : halved 8 b ≡ 0 = omega arith in
    sym (whole (bit_xor a b))
    ∙ xor_half_times 8 a b
    ∙ ap (bit_xor (halved 8 a)) gone
    ∙ xor-zero (halved 8 a)
    ∙ whole a
