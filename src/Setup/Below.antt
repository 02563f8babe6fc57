-- ===== src/Setup/Below.antt =====
-- The configuration that a scan has found lies before the address that it has reached.
use mstd.Prelude.{ℕ, ◌+◌, ◌≤◌, ◌≡◌, some, List, Memory, arith}
use mstd.Setup.Scan.{Located, unlocated, size_field, record_size, accept}
use mstd.Setup.Rounds.{Passes, skips, records, round-Passes, Passes-grows}
use mstd.Setup.Walk.{Walk, here, next}

abbrev pub Below : ℕ → Located → Type 0
Below p g = (q : ℕ) → g.config ≡ some q → q + g.cfg_size ≤ p

module _ (crc32_le : ℕ → List ℕ → ℕ) where
  accept-Below :
      (m : Memory) (p sz : ℕ) (g : Located) → Below p g → Below (p + sz) (accept crc32_le m p sz g)
  unfolding accept
  accept-Below m p sz g h q e = ground (arith, h q)

  round-Below :
      (m : Memory) (p : ℕ) (g : Located) {p' : ℕ} {g' : Located}
      → p ≤ p'
      → Below p g
      → Passes crc32_le m p g p' g'
      → Below p' g'
  round-Below m p g le h (skips s e e') = rw e' (λ q x. omega (arith, h q x))
  round-Below m p g le h (records s e k e') =
      rw e' (rw e (accept-Below m p (record_size (size_field m p)) g h))

  pub Walk-Below : (m : Memory) {n : ℕ} {g : Located} → Walk crc32_le m 0 unlocated n g → Below n g
  Walk-Below m here = λ q e. cc
  Walk-Below m (next {q = p} {h = h} w lt a e) =
      let t = round-Passes crc32_le m p h e in
      round-Below m p h (omega (arith, (Passes-grows crc32_le m p h a t).0)) (Walk-Below m w) t
