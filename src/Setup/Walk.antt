-- ===== src/Setup/Walk.antt =====
-- The loop of find_active_config as a walk of rounds: it ends within its fuel, whatever the memory
-- holds, and a walk over a filled part of the partition does not look at what lies behind it.
use mstd.Prelude.{
  ℕ, zero, suc, ◌+◌, ◌*◌, ◌%◌, ◌≤◌, ◌<◌, ◌≡◌, refl, inl, inr, some, List, Memory, ltb, arith,
  Bool-cases, ltb→lt, lt→ltb, le→ltb,
}
use mstd.Setup.Scan.{
  Located, Round, stop, advance, max_cfg_size, scan_round, scan_from, scan_fuel, find_active_config,
}
use mstd.Setup.Rounds.{round-Passes, Passes-grows}

-- Fuel that suffices from address p on.
pub record IsEnough (p fuel : ℕ) : Type 0 where
  pub positive : 0 < fuel
  pub covers : max_cfg_size + 4 ≤ p + 4 * fuel

module _ (crc32_le : ℕ → List ℕ → ℕ) (m : Memory) where
  -- The loop from p on ends with the globals r, on any fuel that suffices.
  abbrev pub Ends : ℕ → Located → Located → Type 0
  Ends p g r = (fuel : ℕ) → IsEnough p fuel → scan_from crc32_le fuel m p g ≡ some r

  -- A finite number of rounds that go on, from p to the address of the index.
  pub data Walk (p : ℕ) (g : Located) : ℕ → Located → Type 0 where
    here : Walk p g p g
    next :
        {q q' : ℕ} {h h' : Located}
        → Walk p g q h
        → q < max_cfg_size
        → q % 4 ≡ 0
        → scan_round crc32_le m q h ≡ advance q' h'
        → Walk p g q' h'

  pub Ends-past : (p : ℕ) (g : Located) → max_cfg_size ≤ p → Ends p g g
  unfolding scan_from
  Ends-past p g h zero en = absurd (omega arith)
  Ends-past p g h (suc fuel) en = rw (le→ltb p max_cfg_size h, scan_from)

  pub Ends-stop :
      (p : ℕ) (g : Located) {r : Located}
      → p < max_cfg_size
      → scan_round crc32_le m p g ≡ stop r
      → Ends p g r
  unfolding scan_from
  Ends-stop p g h e zero en = absurd (omega arith)
  Ends-stop p g h e (suc fuel) en = rw (lt→ltb p max_cfg_size h, scan_from) (rw e)

  pub Ends-round :
      (p : ℕ) (g : Located) {p' : ℕ} {g' r : Located}
      → p < max_cfg_size
      → p % 4 ≡ 0
      → scan_round crc32_le m p g ≡ advance p' g'
      → Ends p' g' r
      → Ends p g r
  unfolding scan_from
  Ends-round p g h a e t zero en = absurd (omega arith)
  Ends-round p g h a e t (suc fuel) en =
      let grows = Passes-grows crc32_le m p g a (round-Passes crc32_le m p g e) in
      rw (lt→ltb p max_cfg_size h, scan_from)
        (rw e (t fuel (record { positive = omega arith; covers = omega arith })))

  pub Walk-Ends :
      {p : ℕ} {g : Located} {q : ℕ} {h r : Located} → Walk p g q h → Ends q h r → Ends p g r
  Walk-Ends here t = t
  Walk-Ends (next {q = q} {h = h} w lt a e) t = Walk-Ends w (Ends-round q h lt a e t)

  Ends-total_round :
      (p : ℕ) (g : Located) (x : Round)
      → p < max_cfg_size
      → p % 4 ≡ 0
      → scan_round crc32_le m p g ≡ x
      → ((p' : ℕ) (g' : Located) → p + 4 ≤ p' → p' % 4 ≡ 0 → (r : Located) × Ends p' g' r)
      → (r : Located) × Ends p g r
  Ends-total_round p g (stop r) lt a e rest = (r, Ends-stop p g lt e)
  Ends-total_round p g (advance p' g') lt a e rest =
      let grows = Passes-grows crc32_le m p g a (round-Passes crc32_le m p g e) in
      let t = rest p' g' grows.0 grows.1 in (t.0, Ends-round p g lt a e t.1)

  Ends-total :
      (k p : ℕ) (g : Located) → p % 4 ≡ 0 → max_cfg_size ≤ p + 4 * k → (r : Located) × Ends p g r
  Ends-total zero p g a h = (g, Ends-past p g (omega arith))
  Ends-total (suc k) p g a h = elim (Bool-cases (ltb p max_cfg_size)) [
    | inl b ↦
        Ends-total_round p g (scan_round crc32_le m p g) (ltb→lt _ _ b) a refl
          λ p' g' lo a'. Ends-total k p' g' a' (omega arith)
    | inr b ↦ (g, Ends-past p g (ground arith))
  ]

  -- Whatever the partition holds, the scan ends within its fuel.
  pub find_active_config_total :
      (g : Located) → (r : Located) × (find_active_config crc32_le m g ≡ some r)
  unfolding find_active_config
  find_active_config_total g =
      let t = Ends-total 1024 0 g (omega arith) (omega arith) in
      (t.0, t.1 scan_fuel (record { positive = omega arith; covers = omega arith }))

  pub Ends-find : (g r : Located) → Ends 0 g r → find_active_config crc32_le m g ≡ some r
  unfolding find_active_config
  Ends-find g r t = t scan_fuel (record { positive = omega arith; covers = omega arith })

  pub Ends-total_at : (p : ℕ) (g : Located) → p % 4 ≡ 0 → (r : Located) × Ends p g r
  Ends-total_at p g a = Ends-total 1024 p g a (omega arith)
