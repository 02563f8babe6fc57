-- ===== src/Setup/Shift.antt =====
-- Where find_active_config lets the next record start, and which record it prefers.
use mstd.Prelude.{
  ℕ, ◌+◌, ◌%◌, ◌≤◌, ◌<◌, ◌≡◌, refl, sym, ap, ◌∙◌, ◌⊎◌, inl, inr, Option, none, some, List, Memory,
  ◌==◌, arith, Bool-cases,
}
use mstd.Setup.Scan.{
  Located, unlocated, stop, advance, max_cfg_size, size_offset, crc_field, size_field, no_crc,
  record_size, eval_crc, accept, scan_round, scan_fuel, find_active_config, check_for_free_bytes,
}
use mstd.Setup.Rounds.{Passes, skips, records, round-Passes, Passes-round, Passes-grows}
use mstd.Setup.Walk.{Walk, here, next, Walk-Ends, Ends-round, Ends-total_at}
use mstd.Setup.Agree.{IsFree, check_for_free_bytes_iff}
use mstd.Setup.Sound.{scan_induction, IsRecord, stop-config}

module _ (crc32_le : ℕ → List ℕ → ℕ) (m : Memory) where
  -- The scan walks to n, and the partition is erased from there on.
  pub record IsEnd (n : ℕ) : Type 0 where
    pub aligned : n % 4 ≡ 0
    pub inside : n ≤ max_cfg_size
    pub free : IsFree m n
    pub found : Located
    pub walk : Walk crc32_le m 0 unlocated n found

  -- -1 asks for an erase; any other shift is an end.
  abbrev pub IsShift : Option ℕ → Type 0
  IsShift none = Unit {0}
  IsShift (some n) = IsEnd n

  -- An end with room behind it: -1, or an end inside the partition.
  abbrev pub IsOpen : Option ℕ → Type 0
  IsOpen none = Unit {0}
  IsOpen (some n) = IsEnd n × (n < max_cfg_size)

  pub round-shift :
      (p : ℕ) (g : Located) {p' : ℕ} {g' : Located}
      → scan_round crc32_le m p g ≡ advance p' g'
      → g'.next_cfg_shift ≡ g.next_cfg_shift
  unfolding scan_round accept
  round-shift p g e = ground arith

  stop-shift :
      (p : ℕ) (g r : Located)
      → p % 4 ≡ 0
      → p < max_cfg_size
      → Walk crc32_le m 0 unlocated p g
      → scan_round crc32_le m p g ≡ stop r
      → (r.next_cfg_shift ≡ g.next_cfg_shift) ⊎ IsOpen r.next_cfg_shift
  unfolding scan_round
  stop-shift p g r a lt w e = elim (Bool-cases (crc_field m p == no_crc)) [
    | inr c ↦ inl (ground arith)
    | inl c ↦ elim (Bool-cases (check_for_free_bytes m p max_cfg_size)) [
      | inl f ↦
          let e' : r.next_cfg_shift ≡ some p = ground arith in
          inr (
            rw e' (
              record {
                aligned = a;
                inside = omega arith;
                free = (check_for_free_bytes_iff m p).0 f;
                found = g;
                walk = w;
              },
              lt,
            ))
      | inr f ↦ let e' : r.next_cfg_shift ≡ none = ground arith in inr (rw e' tt)
    ]
  ]

  -- After a scan from the reset state the shift is still 0, or -1, or the end of the records with
  -- erased cells behind it.
  pub find_active_config-shift :
      {r : Located}
      → find_active_config crc32_le m unlocated ≡ some r
      → (r.next_cfg_shift ≡ some 0) ⊎ IsOpen r.next_cfg_shift
  unfolding find_active_config
  find_active_config-shift e =
      scan_induction crc32_le m
        (λ p g. (p % 4 ≡ 0) × (g.next_cfg_shift ≡ some 0) × Walk crc32_le m 0 unlocated p g)
        (λ r. (r.next_cfg_shift ≡ some 0) ⊎ IsOpen r.next_cfg_shift) (λ p g h le. inl h.1)
        (λ p g r h lt x. elim (stop-shift p g r h.0 lt h.2 x) [
          | inl s ↦ inl (s ∙ h.1)
          | inr s ↦ inr s
        ])
        (λ p g p' g' h lt x.
          let grows = Passes-grows crc32_le m p g h.0 (round-Passes crc32_le m p g x) in
          (grows.1, round-shift p g x ∙ h.1, next h.2 lt h.0 x))
        _ 0 unlocated (omega arith, refl, here) e

  -- A valid record at an address that the scan reaches.
  pub accept-record :
      (p sz : ℕ) (g : Located)
      → IsRecord crc32_le m p sz
      → accept crc32_le m p (record_size (size_field m p)) g
        ≡ record g { config = some p; cfg_size = sz }
  unfolding accept
  accept-record p sz g v = ground (arith, v.checked, v.length_field)

  abbrev pub From : ℕ → Located → Type 0
  From p g = (q : ℕ) × (g.config ≡ some q) × (p ≤ q)

  round-From :
      (t p : ℕ) (g : Located) {p' : ℕ} {g' : Located}
      → t ≤ p
      → From t g
      → Passes crc32_le m p g p' g'
      → From t g'
  unfolding accept
  round-From t p g le h (skips s e e') = rw e' h
  round-From t p g le h (records s e k e') =
      rw e'
        (elim (Bool-cases (
          crc_field m p
          == eval_crc crc32_le m (p + size_offset) (p + record_size (size_field m p)))) [
            | inl c ↦ (p, ground arith, le)
            | inr c ↦ (h.0, ground (arith, h.1), h.2)
          ])

  -- No valid record that the scan reaches is missed: the configuration found is that record or one
  -- behind it.
  pub find_active_config-latest :
      (p sz : ℕ) {g r : Located}
      → Walk crc32_le m 0 unlocated p g
      → IsRecord crc32_le m p sz
      → find_active_config crc32_le m unlocated ≡ some r
      → From p r
  unfolding find_active_config
  find_active_config-latest p sz {g} {r} w v e =
      let p' = p + record_size (size_field m p) in
      let g' = accept crc32_le m p (record_size (size_field m p)) g in
      let round =
        Passes-round crc32_le m p g v.not_free
          (records v.whole_field refl (omega (arith, v.inside, v.length_field)) refl) in
      let end = Ends-total_at crc32_le m p' g' (omega (arith, v.aligned)) in
      let whole =
        Walk-Ends crc32_le m w
          (Ends-round crc32_le m p g (omega (arith, v.inside)) v.aligned round end.1) in
      let same : ◌≡◌ {A = Option Located} (some r) (some end.0) =
        sym e ∙ whole scan_fuel (record { positive = omega arith; covers = omega arith }) in
      let rest = end.1 1026 (record { positive = omega arith; covers = omega arith }) in
      scan_induction crc32_le m (λ q h. (p ≤ q) × (q % 4 ≡ 0) × From p h) (From p) (λ q h k le. k.2)
        (λ q h x k lt y. let c = (stop-config crc32_le m q h x y).0 in (k.2.0, c ∙ k.2.1, k.2.2))
        (λ q h q' h' k lt y.
          let t = round-Passes crc32_le m q h y in
          let grows = Passes-grows crc32_le m q h k.1 t in
          (omega (arith, grows.0, k.0), grows.1, round-From p q h k.0 k.2 t))
        1026 p' g'
        (
          omega arith,
          omega (arith, v.aligned),
          (p, ap (λ (x : Located). x.config) (accept-record p sz g v), omega arith),
        )
        (rest ∙ sym same)
