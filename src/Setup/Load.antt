-- ===== src/Setup/Load.antt =====
-- load_config at a restart: it ends, and what it leaves is ready for saving.
use mathlib.Core.Path.{subst}
use mstd.Prelude.{
  ℕ, ◌+◌, ◌≤◌, ◌≡◌, sym, ap, ◌∙◌, inl, inr, true, false, Option, none, some, List, Memory, window,
  overlay, ◌||◌, arith, Bool-cases,
}
use mstd.Setup.Flash.{Flash}
use mstd.Setup.Scan.{Located, unlocated, max_cfg_size, find_active_config}
use mstd.Setup.Sound.{find_active_config_sound}
use mstd.Setup.Walk.{here, find_active_config_total}
use mstd.Setup.Shift.{IsEnd, IsShift, IsOpen, find_active_config-shift}
use mstd.Setup.Save.{Setup, at_reset, load_config}
use mstd.Setup.Boot.{loaded-same, IsReady}
use mstd.Setup.Agree.{IsFree}
use mstd.Setup.Same.{IsEnd-same}
use mstd.Setup.Restart.{load_config-reads}

-- The globals after a load.
abbrev pub booted : Memory → Located → Setup
booted m g = record { located = g; cfg_full = m; cfg_full_loaded = true; cfg_pat = true }

module _ (crc32_le : ℕ → List ℕ → ℕ) (flash : Flash) where
  open flash use {Chip, contents, read_ok, find_first}

  -- load_config ends, whatever the globals and the partition hold.
  pub load_config_total :
      (s : Setup) (c : Chip) → (s' : Setup) × (load_config crc32_le flash s c ≡ some s')
  unfolding load_config
  load_config_total s c =
      let t =
        find_active_config_total crc32_le
          (overlay s.cfg_full 0 (window (contents c) 0 max_cfg_size)) s.located in
      elim (Bool-cases s.cfg_full_loaded) [
        | inl a ↦ (s, ground arith)
        | inr a ↦ elim (Bool-cases (s.cfg_pat || find_first c)) [
          | inr p ↦ (s, ground arith)
          | inl p ↦ elim (Bool-cases (read_ok c)) [
            | inr r ↦ (record s { cfg_pat = false }, ground arith)
            | inl r ↦ (
              record {
                located = t.0;
                cfg_full = overlay s.cfg_full 0 (window (contents c) 0 max_cfg_size);
                cfg_full_loaded = true;
                cfg_pat = true;
              },
              ground (arith, t.1),
            )
          ]
        ]
      ]

  -- A load from a partition that is found and read scans what it has read.
  pub load_config-booted :
      (before : Memory) (c : Chip) {s : Setup}
      → find_first c ≡ true
      → read_ok c ≡ true
      → load_config crc32_le flash (at_reset before) c ≡ some s
      → let m = overlay before 0 (window (contents c) 0 max_cfg_size) in
        (g : Located) × (find_active_config crc32_le m unlocated ≡ some g) × (s ≡ booted m g)
  load_config-booted before c {s} f r e =
      let m = overlay before 0 (window (contents c) 0 max_cfg_size) in
      let t = find_active_config_total crc32_le m unlocated in
      let e' : ◌≡◌ {A = Option Setup} (some s) (some (booted m t.0)) =
        sym e ∙ load_config-reads crc32_le flash before c f r t.1 in
      (t.0, t.1, cc)

  -- The configuration that a restart finds lies inside cfg_full.
  pub load_config-inside :
      (before : Memory) (c : Chip) {s : Setup}
      → load_config crc32_le flash (at_reset before) c ≡ some s
      → (p : ℕ) → s.config ≡ some p
      → p + s.cfg_size ≤ max_cfg_size
  unfolding load_config
  load_config-inside before c {s} e p h = elim (Bool-cases (find_first c)) [
    | inr a ↦ absurd (ground (arith, e, h, a))
    | inl a ↦ elim (Bool-cases (read_ok c)) [
      | inr b ↦ absurd (ground (arith, e, h, a, b))
      | inl b ↦
          let t = load_config-booted before c a b e in
          rw (ap (λ (x : Setup). x.cfg_size) t.2)
            (find_active_config_sound crc32_le _ t.1 p
              (sym (ap (λ (x : Setup). x.config) t.2) ∙ h)).inside
    ]
  ]

  -- The end of the records in the loaded image is their end in the partition.
  IsOpen-loaded :
      (before : Memory) (c : Chip) (shift : Option ℕ)
      → IsOpen crc32_le (overlay before 0 (window (contents c) 0 max_cfg_size)) shift
      → IsShift crc32_le (contents c) shift
  IsOpen-loaded before c none h = tt
  IsOpen-loaded before c (some n) (end, lt) =
      IsEnd-same crc32_le (overlay before 0 (window (contents c) 0 max_cfg_size)) (contents c) n
        (λ i lo hi. loaded-same before (contents c) i hi) lt end

  start-IsEnd : (c : Chip) → IsFree (contents c) 0 → IsEnd crc32_le (contents c) 0
  start-IsEnd c f = record {
    aligned = omega arith;
    inside = omega arith;
    free = f;
    found = unlocated;
    walk = here;
  }

  -- After a restart that finds and reads the partition the store is ready, unless the shift is
  -- still 0 and the partition is not erased.
  pub load_config-IsReady :
      (before : Memory) (c : Chip) {s : Setup}
      → find_first c ≡ true
      → read_ok c ≡ true
      → load_config crc32_le flash (at_reset before) c ≡ some s
      → (s.next_cfg_shift ≡ some 0 → IsFree (contents c) 0)
      → IsReady crc32_le flash s c
  load_config-IsReady before c {s} f r e erased =
      let t = load_config-booted before c f r e in
      record {
        partition = ap (λ (x : Setup). x.cfg_pat) t.2;
        present = f;
        shift = elim (find_active_config-shift crc32_le _ t.1) [
          | inl z ↦
              let z' : s.next_cfg_shift ≡ some 0 = ap (λ (x : Setup). x.next_cfg_shift) t.2 ∙ z in
              subst (IsShift crc32_le (contents c)) (sym z') (start-IsEnd c (erased z'))
          | inr o ↦
              subst (IsShift crc32_le (contents c)) (sym (ap (λ (x : Setup). x.next_cfg_shift) t.2))
                (IsOpen-loaded before c _ o)
        ];
      }
