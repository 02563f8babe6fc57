-- ===== src/Prelude/Bytes.antt =====
-- Byte memories: an address gives a byte. Windows of a memory as lists, writes, and the unsigned
-- little-endian fields of a structure.
use Prim.Native.Nat.{ℕ, zero, suc, ◌+◌, ◌-◌, ◌*◌, ◌%◌, ◌^◌, ◌≤◌, ◌<◌}
use mathlib.Core.Path.{sym, ◌≡◌, refl, ap, ap₂, ◌∙◌}
use mathlib.Core.List.{◌++◌, List, [], ◌∷◌}
use mathlib.Core.Logic.{inl, inr}
use mathlib.Core.Bool.{false, ◌&&◌}
use native.Mathlib.Omega.{arith}
use mstd.Prelude.Tests.{Bool-cases, ltb→lt, ltb, leb, if◌then◌else◌}
use mstd.Prelude.Lists.{length, get_or, replicate, length-append}

abbrev pub Memory : Type 0
Memory = ℕ → ℕ

-- Every cell is a uint8_t.
abbrev pub IsBytes : Memory → Type 0
IsBytes m = (a : ℕ) → m a < 256

-- size_t is 32 bits wide.
abbrev pub add_size : ℕ → ℕ → ℕ
add_size a b = (a + b) % 2 ^ 32

-- The n bytes from address a on.
unfoldable pub window : Memory → ℕ → ℕ → List ℕ
window m a zero = []
window m a (suc n) = m a ∷ window m (a + 1) n

-- memcpy into a memory: the bytes bs from address a on.
unfoldable pub overlay : Memory → ℕ → List ℕ → Memory
overlay m a bs i = if leb a i && ltb i (a + length bs) then get_or bs (i - a) 0 else m i

abbrev pub read_u16 : Memory → ℕ → ℕ
read_u16 m a = m a + 256 * m (a + 1)

abbrev pub read_u32 : Memory → ℕ → ℕ
read_u32 m a = m a + 256 * m (a + 1) + 65536 * m (a + 2) + 16777216 * m (a + 3)

-- Two memories agree on the addresses from a up to b.
abbrev pub SameOn : Memory → Memory → ℕ → ℕ → Type 0
SameOn m m' a b = (i : ℕ) → a ≤ i → i < b → m i ≡ m' i

pub length-window : (m : Memory) (a n : ℕ) → length (window m a n) ≡ n
unfolding window
length-window m a zero = refl
length-window m a (suc n) = ap suc (length-window m (a + 1) n)

pub window_cong : (m m' : Memory) (a n : ℕ) → SameOn m m' a (a + n) → window m a n ≡ window m' a n
unfolding window
window_cong m m' a zero h = refl
window_cong m m' a (suc n) h =
    ap₂ ◌∷◌ (h a (omega arith) (omega arith))
      (window_cong m m' (a + 1) n (λ i lo hi. h i (omega arith) (omega arith)))

pub get_or-window : (m : Memory) (a n k d : ℕ) → k < n → get_or (window m a n) k d ≡ m (a + k)
unfolding window
get_or-window m a zero k d h = elim h [ ]
get_or-window m a (suc n) zero d h = ap m (omega arith)
get_or-window m a (suc n) (suc k) d h =
    get_or-window m (a + 1) n k d (omega arith) ∙ ap m (omega arith)

pub overlay_inside :
    (m : Memory) (a : ℕ) (bs : List ℕ) (k : ℕ)
    → k < length bs
    → overlay m a bs (a + k) ≡ get_or bs k 0
unfolding overlay
overlay_inside m a bs k h =
    let e : a + k - a ≡ k = omega arith in ground (arith, ap (λ j. get_or bs j 0) e)

pub overlay_below : (m : Memory) (a : ℕ) (bs : List ℕ) (i : ℕ) → i < a → overlay m a bs i ≡ m i
unfolding overlay
overlay_below m a bs i h = ground arith

pub overlay_above :
    (m : Memory) (a : ℕ) (bs : List ℕ) (i : ℕ) → a + length bs ≤ i → overlay m a bs i ≡ m i
unfolding overlay
overlay_above m a bs i h = ground arith

pub window_shift :
    (m m' : Memory) (a b n : ℕ)
    → ((k : ℕ) → k < n → m (a + k) ≡ m' (b + k))
    → window m a n ≡ window m' b n
unfolding window
window_shift m m' a b zero h = refl
window_shift m m' a b (suc n) h =
    ap₂ ◌∷◌ (ap m (omega arith) ∙ h 0 (omega arith) ∙ ap m' (omega arith)) (
      window_shift m m' (a + 1) (b + 1) n
        (λ k lt. ap m (omega arith) ∙ h (k + 1) (omega arith) ∙ ap m' (omega arith)))

-- A list as a buffer, with d at every index behind its end.
abbrev pub buffer_of : List ℕ → ℕ → Memory
buffer_of xs d i = get_or xs i d

pub get_or-append_left :
    (xs ys : List ℕ) (i d : ℕ) → i < length xs → get_or (xs ++ ys) i d ≡ get_or xs i d
get_or-append_left [] ys i d h = absurd (omega arith)
get_or-append_left (x ∷ xs) ys zero d h = refl
get_or-append_left (x ∷ xs) ys (suc i) d h = get_or-append_left xs ys i d (omega arith)

pub get_or-append_right :
    (xs ys : List ℕ) (k i d : ℕ) → i ≡ length xs + k → get_or (xs ++ ys) i d ≡ get_or ys k d
get_or-append_right [] ys k i d e = ap (λ j. get_or ys j d) (omega arith)
get_or-append_right (x ∷ xs) ys k zero d e = absurd (omega arith)
get_or-append_right (x ∷ xs) ys k (suc i) d e = get_or-append_right xs ys k i d (omega arith)

pub get_or_past : (xs : List ℕ) (i d : ℕ) → length xs ≤ i → get_or xs i d ≡ d
get_or_past [] i d h = refl
get_or_past (x ∷ xs) zero d h = absurd (omega arith)
get_or_past (x ∷ xs) (suc i) d h = get_or_past xs i d (omega arith)

get_or_inside : (xs : List ℕ) (i d e : ℕ) → i < length xs → get_or xs i d ≡ get_or xs i e
get_or_inside [] i d e h = absurd (omega arith)
get_or_inside (x ∷ xs) zero d e h = refl
get_or_inside (x ∷ xs) (suc i) d e h = get_or_inside xs i d e (omega arith)

pub window-buffer_of : (xs : List ℕ) (d : ℕ) → window (buffer_of xs d) 0 (length xs) ≡ xs
unfolding window
window-buffer_of [] d = refl
window-buffer_of (x ∷ xs) d = ap (λ ys. x ∷ ys) (moved ∙ window-buffer_of xs d)
  where
    same : (k : ℕ) → k < length xs → buffer_of (x ∷ xs) d (1 + k) ≡ buffer_of xs d (0 + k)
    same k h =
        let e : 1 + k ≡ suc k = omega arith in
        let f : 0 + k ≡ k = omega arith in ap (buffer_of (x ∷ xs) d) e ∙ sym (ap (buffer_of xs d) f)

    moved :
        window (buffer_of (x ∷ xs) d) (0 + 1) (length xs) ≡ window (buffer_of xs d) 0 (length xs)
    moved = window_shift (buffer_of (x ∷ xs) d) (buffer_of xs d) 1 0 (length xs) same

-- Writing behind the end of a list is appending to it.
pub overlay-buffer_of :
    (xs ys : List ℕ) (d i : ℕ)
    → overlay (buffer_of xs d) (length xs) ys i ≡ buffer_of (xs ++ ys) d i
overlay-buffer_of xs ys d i = elim (Bool-cases (ltb i (length xs))) [
  | inl b ↦
      overlay_below (buffer_of xs d) (length xs) ys i (ltb→lt _ _ b)
      ∙ sym (get_or-append_left xs ys i d (ltb→lt _ _ b))
  | inr b ↦
      let k = i - length xs in
      let e : i ≡ length xs + k = ground arith in
      elim (Bool-cases (ltb k (length ys))) [
        | inl c ↦
            ap (overlay (buffer_of xs d) (length xs) ys) e
            ∙ overlay_inside (buffer_of xs d) (length xs) ys k (ltb→lt _ _ c)
            ∙ get_or_inside ys k 0 d (ltb→lt _ _ c)
            ∙ sym (get_or-append_right xs ys k i d e)
        | inr c ↦
            overlay_above (buffer_of xs d) (length xs) ys i (ground arith)
            ∙ get_or_past xs i d (ground arith)
            ∙ sym (get_or_past (xs ++ ys) i d (omega (arith, length-append xs ys, past c)))
      ]
]
  where
    past : ltb (i - length xs) (length ys) ≡ false → length ys ≤ i - length xs
    past c = ground arith

pub window-append :
    (m : Memory) (a n k : ℕ) → window m a n ++ window m (a + n) k ≡ window m a (n + k)
unfolding window
window-append m a zero k =
    let e : a + 0 ≡ a = omega arith in
    let f : k ≡ 0 + k = omega arith in ap (λ x. window m x k) e ∙ ap (window m a) f
window-append m a (suc n) k =
    let e : a + suc n ≡ a + 1 + n = omega arith in
    let f : suc (n + k) ≡ suc n + k = omega arith in
    ap (λ r. m a ∷ r) (ap (λ x. window m (a + 1) n ++ window m x k) e ∙ window-append m (a + 1) n k)
    ∙ ap (window m a) f

window_past :
    (xs : List ℕ) (d a n : ℕ) → length xs ≤ a → window (buffer_of xs d) a n ≡ replicate n d
unfolding window
window_past xs d a zero h = refl
window_past xs d a (suc n) h =
    ap₂ ◌∷◌ (get_or_past xs a d h) (window_past xs d (a + 1) n (omega arith))

-- A buffer is its list, and d behind it.
pub window-buffer_of-rest :
    (xs : List ℕ) (d n : ℕ)
    → length xs ≤ n
    → window (buffer_of xs d) 0 n ≡ xs ++ replicate (n - length xs) d
window-buffer_of-rest xs d n h =
    let whole : length xs + (n - length xs) ≡ n = omega arith in
    sym (ap (window (buffer_of xs d) 0) whole)
    ∙ sym (window-append (buffer_of xs d) 0 (length xs) (n - length xs))
    ∙ ap₂ ◌++◌ (window-buffer_of xs d)
        (window_past xs d (0 + length xs) (n - length xs) (omega arith))

-- Every element is a uint8_t.
abbrev pub AllBytes : List ℕ → Type 0
AllBytes [] = Unit {0}
AllBytes (b ∷ bytes) = (b < 256) × AllBytes bytes

pub buffer_of-IsBytes : (bytes : List ℕ) → AllBytes bytes → IsBytes (buffer_of bytes 0xff)
buffer_of-IsBytes [] h i = omega arith
buffer_of-IsBytes (b ∷ bytes) h zero = h.0
buffer_of-IsBytes (b ∷ bytes) h (suc i) = buffer_of-IsBytes bytes h.1 i
