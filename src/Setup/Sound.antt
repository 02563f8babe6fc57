-- ===== src/Setup/Sound.antt =====
-- What find_active_config finds: the rule of induction over its rounds, the record that it accepts,
-- and the shift that it leaves.
use mstd.Prelude.{
  ◌/◌, ◌≢◌, ℕ, zero, suc, ◌+◌, ◌%◌, ◌≤◌, ◌<◌, ◌≡◌, refl, sym, ◌∙◌, inl, inr, true, Option, some,
  List, Memory, ltb, arith, Bool-cases, ltb→lt,
}
use mstd.Setup.Scan.{
  Located, unlocated, Round, stop, advance, max_cfg_size, size_offset, crc_field, size_field,
  no_crc, record_size, eval_crc, accept, scan_round, scan_from, find_active_config,
}
use mstd.Setup.Rounds.{Passes, skips, records, round-crc, round-Passes, Passes-grows}

module _ (crc32_le : ℕ → List ℕ → ℕ) (m : Memory) where
  -- What holds at every round's start, and of the globals that each way out leaves, holds at the
  -- end.
  pub scan_induction :
      (P : ℕ → Located → Type 0) (Q : Located → Type 0)
      → ((p : ℕ) (g : Located) → P p g → max_cfg_size ≤ p → Q g)
      → ((p : ℕ) (g r : Located)
          → P p g
          → p < max_cfg_size
          → scan_round crc32_le m p g ≡ stop r
          → Q r)
      → ((p : ℕ) (g : Located) (p' : ℕ) (g' : Located)
          → P p g
          → p < max_cfg_size
          → scan_round crc32_le m p g ≡ advance p' g'
          → P p' g')
      → (fuel p : ℕ) (g : Located) {r : Located} → P p g
      → scan_from crc32_le fuel m p g ≡ some r
      → Q r
  unfolding scan_from
  scan_induction P Q past stops rounds zero p g h e = cc
  scan_induction P Q past stops rounds (suc fuel) p g {r} h e =
      elim (Bool-cases (ltb p max_cfg_size)) [
        | inr b ↦
            let e' : ◌≡◌ {A = Option Located} (some g) (some r) = rw (b, scan_from) at e in
            ground (arith, past p g h)
        | inl b ↦
            split b (λ p' g' h' e'. scan_induction P Q past stops rounds fuel p' g' {r = r} h' e')
              (scan_round crc32_le m p g) refl (rw (b, scan_from) at e)
      ]
    where
      split :
          ltb p max_cfg_size ≡ true
          → ((p' : ℕ) (g' : Located) → P p' g' → scan_from crc32_le fuel m p' g' ≡ some r → Q r)
          → (x : Round) → scan_round crc32_le m p g ≡ x
          → elim (scan_round crc32_le m p g) [
            | stop g' ↦ some g'
            | advance p' g' ↦ scan_from crc32_le fuel m p' g'
          ]
            ≡ some r
          → Q r
      split b rest (stop g') x e' =
          stops p g r h (ltb→lt _ _ b) (let e2 : some g' ≡ some r = rw x at e' in ground (arith))
      split b rest (advance p' g') x e' =
          rest p' g' (rounds p g p' g' h (ltb→lt _ _ b) x) (rw x at e')

  -- A record that the scan accepts: it lies inside the partition, and its checksum is right.
  pub record IsRecord (p sz : ℕ) : Type 0 where
    pub aligned : p % 4 ≡ 0
    pub whole_field : size_field m p / 256 ≢ 0xff
    pub length_field : sz ≡ record_size (size_field m p)
    pub inside : p + sz ≤ max_cfg_size
    pub not_free : crc_field m p ≢ no_crc
    pub checked : crc_field m p ≡ eval_crc crc32_le m (p + size_offset) (p + sz)

  abbrev pub ConfigIsRecord : Located → Type 0
  ConfigIsRecord g = (p : ℕ) → g.config ≡ some p → IsRecord p g.cfg_size

  accept-ConfigIsRecord :
      (p : ℕ) (g : Located)
      → p % 4 ≡ 0
      → p + record_size (size_field m p) ≤ max_cfg_size
      → crc_field m p ≢ no_crc
      → size_field m p / 256 ≢ 0xff
      → ConfigIsRecord g
      → ConfigIsRecord (accept crc32_le m p (record_size (size_field m p)) g)
  unfolding accept
  accept-ConfigIsRecord p g a le c s h q e = ground (arith, h q)

  round-ConfigIsRecord :
      (p : ℕ) (g : Located) {p' : ℕ} {g' : Located}
      → p % 4 ≡ 0
      → crc_field m p ≢ no_crc
      → ConfigIsRecord g
      → Passes crc32_le m p g p' g'
      → ConfigIsRecord g'
  round-ConfigIsRecord p g a c h (skips s e e') = rw e' h
  round-ConfigIsRecord p g a c h (records s e le e') =
      rw e' (accept-ConfigIsRecord p g a (omega arith) c s h)

  pub stop-config :
      (p : ℕ) (g r : Located)
      → scan_round crc32_le m p g ≡ stop r
      → (r.config ≡ g.config) × (r.cfg_size ≡ g.cfg_size)
  unfolding scan_round
  stop-config p g r e = ground arith

  -- The configuration that a scan from the reset state finds is a valid record.
  pub find_active_config_sound :
      {r : Located} → find_active_config crc32_le m unlocated ≡ some r → ConfigIsRecord r
  unfolding find_active_config
  find_active_config_sound e =
      scan_induction (λ p g. (p % 4 ≡ 0) × ConfigIsRecord g) ConfigIsRecord (λ p g h le. h.1)
        (λ p g r h lt x q y. let s = stop-config p g r x in rw s.1 (h.1 q (sym s.0 ∙ y)))
        (λ p g p' g' h lt x.
          let t = round-Passes crc32_le m p g x in
          let grows = Passes-grows crc32_le m p g h.0 t in
          (grows.1, round-ConfigIsRecord p g h.0 (round-crc crc32_le m p g x) h.1 t))
        _ 0 unlocated (omega arith, λ p e'. cc) e
