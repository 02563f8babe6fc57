-- ===== src/Setup/Corrupt.antt =====
-- A record in which a byte has changed is not a record: with crc32_le the scan does not accept it.
use mathlib.Core.Path.{subst}
use mstd.Prelude.{
  ℕ, zero, suc, ◌+◌, ◌-◌, ◌≤◌, ◌<◌, ◌≡◌, ◌≢◌, sym, ap, ap₂, ◌∙◌, inl, inr, Bool-cases, ltb, ltb→lt,
  some, ◌∷◌, ◌++◌, Memory, IsBytes, AllBytes, window, window_cong, window-append, arith,
}
use mstd.Setup.Scan.{Located, unlocated, find_active_config, size_offset, crc_field, eval_crc}
use mstd.Setup.Sound.{IsRecord, find_active_config_sound}
use mstd.Crc.Table.{crc32_le}
use mstd.Crc.Detect.{crc32_le-differs}

window-AllBytes : (m : Memory) (a n : ℕ) → IsBytes m → AllBytes (window m a n)
unfolding window
window-AllBytes m a zero b = tt
window-AllBytes m a (suc n) b = (b a, window-AllBytes m (a + 1) n b)

-- The window is cut at an address.
window-cut :
    (m : Memory) (a k n : ℕ)
    → window m a (k + suc n) ≡ window m a k ++ (m (a + k) ∷ window m (a + k + 1) n)
unfolding window
window-cut m a k n = sym (window-append m a k (suc n))

-- Two memories that differ at one address.
pub record DiffersAt (m m' : Memory) (i : ℕ) : Type 0 where
  pub changed : m i ≢ m' i
  pub same : (j : ℕ) → j ≢ i → m j ≡ m' j

-- A window with that address in it has another checksum.
crc-window :
    (m m' : Memory) (a k n : ℕ)
    → IsBytes m
    → IsBytes m'
    → DiffersAt m m' (a + k)
    → crc32_le 0 (window m a (k + suc n)) ≢ crc32_le 0 (window m' a (k + suc n))
crc-window m m' a k n b b' d e =
    let before : window m a k ≡ window m' a k =
      window_cong m m' a k (λ j lo hi. d.same j (λ q. omega arith)) in
    let behind : window m (a + k + 1) n ≡ window m' (a + k + 1) n =
      window_cong m m' (a + k + 1) n (λ j lo hi. d.same j (λ q. omega arith)) in
    crc32_le-differs 0 (window m a k) (window m (a + k + 1) n) (m (a + k)) (m' (a + k))
      (omega arith) (window-AllBytes m a k b) (b (a + k), window-AllBytes m (a + k + 1) n b)
      (b' (a + k)) d.changed
      (ap (crc32_le 0) (sym (window-cut m a k n))
        ∙ e
        ∙ ap (crc32_le 0) (window-cut m' a k n)
        ∙ sym (ap₂ (λ u v. crc32_le 0 (u ++ (m' (a + k) ∷ v))) before behind))

eval_crc-differs :
    (m m' : Memory) (p sz i : ℕ)
    → IsBytes m
    → IsBytes m'
    → DiffersAt m m' i
    → p + size_offset ≤ i
    → i < p + sz
    → eval_crc crc32_le m (p + size_offset) (p + sz)
      ≢ eval_crc crc32_le m' (p + size_offset) (p + sz)
unfolding eval_crc
eval_crc-differs m m' p sz i b b' d lo hi e =
    let a = p + size_offset in
    let k = i - a in
    let n = p + sz - a - k - 1 in
    let at : i ≡ a + k = omega arith in
    let whole : p + sz - a ≡ k + suc n = omega arith in
    crc-window m m' a k n b b' (subst (DiffersAt m m') at d) (
      ap (λ l. crc32_le 0 (window m a l)) (sym whole)
      ∙ e
      ∙ ap (λ l. crc32_le 0 (window m' a l)) whole)

-- Equal fields have equal bytes.
crc_field-bytes :
    (m m' : Memory) (p j : ℕ)
    → IsBytes m
    → IsBytes m'
    → j < size_offset
    → crc_field m p ≡ crc_field m' p
    → m (p + j) ≡ m' (p + j)
crc_field-bytes m m' p zero b b' h e =
    let z : p + 0 ≡ p = omega arith in
    ap m z
    ∙ omega
        (arith, e, b p, b (p + 1), b (p + 2), b (p + 3), b' p, b' (p + 1), b' (p + 2), b' (p + 3))
    ∙ sym (ap m' z)
crc_field-bytes m m' p (suc zero) b b' h e =
    omega (arith, e, b p, b (p + 1), b (p + 2), b (p + 3), b' p, b' (p + 1), b' (p + 2), b' (p + 3))
crc_field-bytes m m' p (suc (suc zero)) b b' h e =
    omega (arith, e, b p, b (p + 1), b (p + 2), b (p + 3), b' p, b' (p + 1), b' (p + 2), b' (p + 3))
crc_field-bytes m m' p (suc (suc (suc zero))) b b' h e =
    omega (arith, e, b p, b (p + 1), b (p + 2), b (p + 3), b' p, b' (p + 1), b' (p + 2), b' (p + 3))
crc_field-bytes m m' p (suc (suc (suc (suc j)))) b b' h e = absurd (omega arith)

-- A change of a byte in the checksum field changes the checksum that is stored.
crc_field-differs :
    (m m' : Memory) (p i : ℕ)
    → IsBytes m
    → IsBytes m'
    → DiffersAt m m' i
    → p ≤ i
    → i < p + size_offset
    → crc_field m p ≢ crc_field m' p
crc_field-differs m m' p i b b' d lo hi e =
    let at : i ≡ p + (i - p) = omega arith in
    d.changed (ap m at ∙ crc_field-bytes m m' p (i - p) b b' (omega arith) e ∙ sym (ap m' at))

-- A record in which a byte has changed, in the checksum or behind it, is no record of its size.
IsRecord-corrupted :
    (m m' : Memory) (p sz i : ℕ)
    → IsBytes m
    → IsBytes m'
    → DiffersAt m m' i
    → p ≤ i
    → i < p + sz
    → IsRecord crc32_le m p sz
    → ¬ IsRecord crc32_le m' p sz
unfolding eval_crc
IsRecord-corrupted m m' p sz i b b' d lo hi r r' = elim (Bool-cases (ltb i (p + size_offset))) [
  | inl x ↦
      let body : window m (p + size_offset) (p + sz - (p + size_offset))
          ≡ window m' (p + size_offset) (p + sz - (p + size_offset)) =
        window_cong m m' _ _ (λ j lo' hi'. d.same j (λ q. ground arith)) in
      crc_field-differs m m' p i b b' d lo (ltb→lt _ _ x)
        (r.checked ∙ ap (crc32_le 0) body ∙ sym r'.checked)
  | inr x ↦
      let field : crc_field m p ≡ crc_field m' p = omega (
        arith,
        d.same p (λ q. ground arith),
        d.same (p + 1) (λ q. ground arith),
        d.same (p + 2) (λ q. ground arith),
        d.same (p + 3) (λ q. ground arith),
      ) in
      eval_crc-differs m m' p sz i b b' d (ground arith) hi (sym r.checked ∙ field ∙ r'.checked)
]

-- One byte of a record on a partition of bytes is changed, in its checksum or behind it: then no
-- scan with crc32_le makes a record of that place and size the configuration.
pub find_active_config-corrupted :
    (m m' : Memory) (p sz i : ℕ) {r : Located}
    → IsBytes m
    → IsBytes m'
    → DiffersAt m m' i
    → p ≤ i
    → i < p + sz
    → IsRecord crc32_le m p sz
    → find_active_config crc32_le m' unlocated ≡ some r
    → ¬ ((r.config ≡ some p) × (r.cfg_size ≡ sz))
find_active_config-corrupted m m' p sz i b b' d lo hi h e (c, z) =
    IsRecord-corrupted m m' p sz i b b' d lo hi h
      (subst (IsRecord crc32_le m' p) z (find_active_config_sound crc32_le m' e p c))
