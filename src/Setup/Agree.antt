-- ===== src/Setup/Agree.antt =====
-- A walk that ends at erased cells reads only what stands before them: it runs the same over any
-- memory that agrees up to there.
use mstd.Prelude.{
  ℕ, zero, suc, ◌+◌, ◌-◌, ◌%◌, ◌≤◌, ◌<◌, ◌≡◌, ◌↔◌, refl, sym, ap, ◌∙◌, inl, inr, true, List, Memory,
  SameOn, window, window_cong, ◌==◌, arith, Bool-cases, ==→eq,
}
use mstd.Setup.Scan.{
  Located, advance, max_cfg_size, crc_field, size_field, record_size, eval_crc, accept, scan_round,
  all_free, check_for_free_bytes,
}
use mstd.Setup.Rounds.{Passes, skips, records, round-crc, round-Passes, Passes-round, Passes-grows}
use mstd.Setup.Walk.{Walk, here, next}

-- The partition is erased from n on.
abbrev pub IsFree : Memory → ℕ → Type 0
IsFree m n = (i : ℕ) → n ≤ i → i < max_cfg_size → m i ≡ 0xff

-- The loop of check_for_free_bytes answers true exactly if the n bytes from p on are 0xFF.
all_free_sound :
    (n : ℕ) (m : Memory) (p i : ℕ) → all_free n m p ≡ true → p ≤ i → i < p + n → m i ≡ 0xff
unfolding all_free
all_free_sound zero m p i h lo hi = absurd (omega arith)
all_free_sound (suc n) m p i h lo hi = elim (Bool-cases (p == i)) [
  | inl e ↦ ground (arith, ap m (==→eq _ _ e))
  | inr e ↦ ground (arith, all_free_sound n m (p + 1) i)
]

all_free_complete :
    (n : ℕ) (m : Memory) (p : ℕ)
    → ((i : ℕ) → p ≤ i → i < p + n → m i ≡ 0xff)
    → all_free n m p ≡ true
unfolding all_free
all_free_complete zero m p h = refl
all_free_complete (suc n) m p h = ground (
  arith,
  h p (omega arith) (omega arith),
  all_free_complete n m (p + 1) (λ i lo hi. h i (omega arith) (omega arith)),
)

-- check_for_free_bytes answers true exactly if the partition is erased from p on.
pub check_for_free_bytes_iff :
    (m : Memory) (p : ℕ) → (check_for_free_bytes m p max_cfg_size ≡ true) ↔ IsFree m p
unfolding check_for_free_bytes
check_for_free_bytes_iff m p = (
  λ h i lo hi. all_free_sound (max_cfg_size - p) m p i h lo (omega arith),
  λ f. all_free_complete (max_cfg_size - p) m p (λ i lo hi. f i lo (omega arith)),
)

module _ (crc32_le : ℕ → List ℕ → ℕ) (m m' : Memory) (n : ℕ) (same : SameOn m m' 0 n)
    (free : IsFree m n) (aligned : n % 4 ≡ 0) (inside : n < max_cfg_size) where
  -- Both headers are read before n.
  crc_field-same : (p : ℕ) → p + 4 ≤ n → crc_field m' p ≡ crc_field m p
  crc_field-same p h = omega (
    arith,
    same p (omega arith) (omega arith),
    same (p + 1) (omega arith) (omega arith),
    same (p + 2) (omega arith) (omega arith),
    same (p + 3) (omega arith) (omega arith),
  )

  size_field-same : (p : ℕ) → p + 8 ≤ n → size_field m' p ≡ size_field m p
  size_field-same p h = omega (
    arith,
    same (p + 4) (omega arith) (omega arith),
    same (p + 4 + 1) (omega arith) (omega arith),
  )

  accept-same :
      (p sz : ℕ) (g : Located)
      → p + 4 ≤ n
      → p + sz ≤ n
      → 4 ≤ sz
      → accept crc32_le m' p sz g ≡ accept crc32_le m p sz g
  unfolding accept eval_crc
  accept-same p sz g h k l =
      let w : window m' (p + 4) (p + sz - (p + 4)) ≡ window m (p + 4) (p + sz - (p + 4)) =
        window_cong m' m (p + 4) (p + sz - (p + 4))
          (λ i lo hi. sym (same i (omega arith) (omega arith))) in
      rw (crc_field-same p h) (rw w refl)

  -- A record of four bytes would have its size in the erased cells.
  no_bare_header :
      (p : ℕ) (g : Located) {p' : ℕ} {g' : Located}
      → p + 4 ≡ n
      → p % 4 ≡ 0
      → p' ≤ n
      → ¬ Passes crc32_le m p g p' g'
  no_bare_header p g e a le (skips s e' h) = omega arith
  no_bare_header p g e a le (records s e' le' h) = omega (
    arith,
    free (p + 4) (omega arith) (omega arith),
    free (p + 4 + 1) (omega arith) (omega arith),
  )

  Passes-same :
      (p : ℕ) (g : Located) {p' : ℕ} {g' : Located}
      → p + 8 ≤ n
      → p' ≤ n
      → Passes crc32_le m p g p' g'
      → Passes crc32_le m' p g p' g'
  Passes-same p g k le (skips s e h) = skips (omega (arith, size_field-same p k)) e h
  Passes-same p g {p'} {g'} k le (records s e le' h) =
      records (λ x. s (omega (arith, size_field-same p k))) (omega (arith, size_field-same p k)) le'
        (h
          ∙ sym (
              ap (λ z. accept crc32_le m' p (record_size z) g) (size_field-same p k)
              ∙ accept-same p (record_size (size_field m p)) g (omega arith) (omega arith)
                  (omega arith)))

  round-same :
      (p : ℕ) (g : Located) {p' : ℕ} {g' : Located}
      → p % 4 ≡ 0
      → p' ≤ n
      → scan_round crc32_le m p g ≡ advance p' g'
      → scan_round crc32_le m' p g ≡ advance p' g'
  round-same p g {p'} {g'} a le e =
      let t = round-Passes crc32_le m p g e in
      let grows = Passes-grows crc32_le m p g a t in
      let c = round-crc crc32_le m p g e in
      let far : p + 8 ≤ n = elim (Bool-cases (p + 4 == n)) [
        | inl x ↦ absurd (no_bare_header p g (==→eq _ _ x) a le t)
        | inr x ↦ ground arith
      ] in
      Passes-round crc32_le m' p g (λ x. c (omega (arith, crc_field-same p)))
        (Passes-same p g far le t)

  pub Walk-same :
      {p : ℕ} {g : Located} {q : ℕ} {h : Located}
      → Walk crc32_le m p g q h
      → q ≤ n
      → Walk crc32_le m' p g q h
  Walk-same here le = here
  Walk-same (next {q = q} {h = h} w lt a e) le =
      let grows = Passes-grows crc32_le m q h a (round-Passes crc32_le m q h e) in
      next (Walk-same w (omega arith)) lt a (round-same q h a le e)
