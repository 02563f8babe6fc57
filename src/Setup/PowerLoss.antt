-- ===== src/Setup/PowerLoss.antt =====
-- A restart after the power was lost during a write: the configuration before it is still active.
use mstd.Prelude.{
  ℕ, ◌+◌, ◌≤◌, ◌<◌, ◌≡◌, refl, sym, ap, ◌∙◌, true, some, List, Memory, SameOn, window, window_cong,
  window_shift, overlay, arith, inl, inr, ◌⊎◌,
}
use mstd.Setup.Flash.{Flash}
use mstd.Setup.Scan.{Located, max_cfg_size}
use mstd.Setup.Below.{Walk-Below}
use mstd.Setup.Shift.{IsEnd}
use mstd.Setup.Append.{IsImage, IsEnd-find}
use mstd.Setup.Same.{IsEnd-same, IsRecord-same}
use mstd.Setup.Torn.{IsTorn, TornEnd, torn-TornEnd}
use mstd.Setup.Sound.{IsRecord}
use mstd.Setup.Save.{Setup, at_reset, load_config}
use mstd.Setup.Boot.{loaded-same}
use mstd.Setup.Restart.{IsActive, load_config-reads}
use mstd.Setup.Load.{load_config-booted}

module _ (crc32_le : ℕ → List ℕ → ℕ) where
  IsTorn-loaded :
      {m m' image : Memory} {n cut size : ℕ} (l l' : Memory)
      → SameOn m l 0 max_cfg_size
      → SameOn m' l' 0 max_cfg_size
      → IsTorn m m' image n cut size
      → IsTorn l l' image n cut size
  IsTorn-loaded {n = n} l l' same same' t =
      let room = t.room in
      let partial = t.partial in
      record {
        before =
            λ i lo hi. sym (same i lo (omega arith)) ∙ t.before i lo hi ∙ same' i lo (omega arith);
        stored = λ k h. sym (same' (n + k) (omega arith) (omega arith)) ∙ t.stored k h;
        behind = λ i lo hi. sym (same' i (omega arith) hi) ∙ t.behind i lo hi;
        partial = partial;
        room = room;
      }

  module _ (flash : Flash) where
    open flash use {Chip, contents, read_ok, find_first, contents_bytes}

    abbrev loaded : Memory → Chip → Memory
    loaded before c = overlay before 0 (window (contents c) 0 max_cfg_size)

    same_loaded :
        (before : Memory) (c : Chip) → SameOn (contents c) (loaded before c) 0 max_cfg_size
    same_loaded before c i lo hi = sym (loaded-same before (contents c) i hi)

    -- c' is c after a write of a valid image behind the records that was cut off.
    pub record IsCut (c c' : Chip) (image : Memory) (n cut size : ℕ) : Type 0 where
      pub end : IsEnd crc32_le (contents c) n
      pub valid : IsImage crc32_le image size
      pub torn : IsTorn (contents c) (contents c') image n cut size

    module _ (before image : Memory) (c c' : Chip) (n cut size : ℕ)
        (h : IsCut c c' image n cut size) where
      before_end : IsEnd crc32_le (loaded before c) n
      before_end =
          let room = h.torn.room in
          let large = h.valid.large in
          IsEnd-same crc32_le (contents c) (loaded before c) n (same_loaded before c) (omega arith)
            h.end

      torn_loaded : IsTorn (loaded before c) (loaded before c') image n cut size
      torn_loaded =
          IsTorn-loaded (loaded before c) (loaded before c') (same_loaded before c)
            (same_loaded before c') h.torn

      bytes_loaded : (i : ℕ) → i < max_cfg_size → loaded before c' i < 256
      bytes_loaded i hi = rw (sym (same_loaded before c' i (omega arith) hi)) (contents_bytes c' i)

      after_end :
          TornEnd crc32_le
            (loaded before c)
            (loaded before c')
            image
            n
            cut
            size
            before_end
            h.valid
            torn_loaded
            bytes_loaded
      after_end =
          torn-TornEnd crc32_le (loaded before c) (loaded before c') image n cut size before_end
            h.valid torn_loaded bytes_loaded

      record_loaded :
          IsRecord crc32_le (contents c') n size → IsRecord crc32_le (loaded before c') n size
      record_loaded =
          IsRecord-same crc32_le (contents c') (loaded before c') n size (same_loaded before c')
            (omega (arith, h.valid.large))

      record_stored :
          IsRecord crc32_le (loaded before c') n size → IsRecord crc32_le (contents c') n size
      record_stored =
          IsRecord-same crc32_le (loaded before c') (contents c') n size
            (λ i lo hi. sym (same_loaded before c' i lo hi)) (omega (arith, h.valid.large))

      module _ (present : find_first c' ≡ true) (reads : read_ok c' ≡ true) where
        -- What stands at n is a record: a restart makes it the configuration.
        pub load_config-late :
            IsRecord crc32_le (contents c') n size
            → (s' : Setup) × (load_config crc32_le flash (at_reset before) c' ≡ some s')
              × IsActive s' (λ k. contents c' (n + k)) size
        load_config-late v =
            let t = after_end in
            let new = IsEnd-find crc32_le (loaded before c') t.at t.now in
            let found : t.now.found
                ≡ record (before_end.found) { config = some n; cfg_size = size } =
              elim t.found [
                | inl (e, wrong) ↦ absurd (wrong (record_loaded v))
                | inr (e, v') ↦ e
              ] in
            (
              _,
              load_config-reads crc32_le flash before c' present reads new.1,
              record {
                config = n;
                located = new.2 ∙ ap (λ (x : Located). x.config) found;
                cfg_size = new.3 ∙ ap (λ (x : Located). x.cfg_size) found;
                inside = v.inside;
                bytes =
                    window_shift (loaded before c') (λ k. contents c' (n + k)) n 0 size
                      (λ k lt.
                        sym (same_loaded before c' (n + k) (omega arith) (omega (arith, v.inside)))
                        ∙ ap (contents c') (omega arith));
                loaded = refl;
              },
            )

        -- It is none: a restart finds the configuration that it finds before the write.
        pub load_config-kept :
            (active : Memory) (sz : ℕ) {s : Setup}
            → find_first c ≡ true
            → read_ok c ≡ true
            → ¬ IsRecord crc32_le (contents c') n size
            → load_config crc32_le flash (at_reset before) c ≡ some s
            → IsActive s active sz
            → (s' : Setup) × (load_config crc32_le flash (at_reset before) c' ≡ some s')
              × IsActive s' active sz
        load_config-kept active sz f r wrong e a =
            let t = after_end in
            let new = IsEnd-find crc32_le (loaded before c') t.at t.now in
            let found : t.now.found ≡ before_end.found = elim t.found [
              | inl (e, _) ↦ e
              | inr (_, v) ↦ absurd (wrong (record_stored v))
            ] in
            let old = load_config-booted crc32_le flash before c f r e in
            let scan = IsEnd-find crc32_le (loaded before c) n before_end in
            let same : old.0 ≡ scan.0 = cc (old.1, scan.1) in
            let located : before_end.found.config ≡ some (a.config) =
              sym scan.2
              ∙ ap (λ (x : Located). x.config) (sym same)
              ∙ ap (λ (x : Setup). x.config) (sym old.2)
              ∙ a.located in
            let cfg_size : before_end.found.cfg_size ≡ sz =
              sym scan.3
              ∙ ap (λ (x : Located). x.cfg_size) (sym same)
              ∙ ap (λ (x : Setup). x.cfg_size) (sym old.2)
              ∙ a.cfg_size in
            let below : a.config + sz ≤ n = omega (
              arith,
              Walk-Below crc32_le (loaded before c) before_end.walk a.config located,
              cfg_size,
            ) in
            (
              _,
              load_config-reads crc32_le flash before c' present reads new.1,
              record {
                config = a.config;
                located = new.2 ∙ ap (λ (x : Located). x.config) found ∙ located;
                cfg_size = new.3 ∙ ap (λ (x : Located). x.cfg_size) found ∙ cfg_size;
                inside = a.inside;
                bytes =
                    sym (
                      window_cong (loaded before c) (loaded before c') a.config sz
                        (λ i lo hi. torn_loaded.before i (omega arith) (omega arith)))
                    ∙ ap (λ (x : Setup). window x.cfg_full a.config sz) (sym old.2)
                    ∙ a.bytes;
                loaded = refl;
              },
            )

      -- What stands at n is a record, or not.
      pub cut-IsRecord :
          IsRecord crc32_le (contents c') n size ⊎ (¬ IsRecord crc32_le (contents c') n size)
      cut-IsRecord =
          let t =
            torn-TornEnd crc32_le (contents c) (contents c') image n cut size h.end h.valid h.torn
              (λ i lt. contents_bytes c' i) in
          elim t.found [ inl (e, wrong) ↦ inr wrong | inr (e, v) ↦ inl v ]

      -- A write of a valid image behind the records is cut off at any byte: then a restart finds the
      -- configuration that a restart before the write finds, or what stands at n, if that is a
      -- record. The partition is found and read on both chips.
      pub load_config-cut :
          (active : Memory) (sz : ℕ) {s : Setup}
          → (find_first c ≡ true) × (find_first c' ≡ true)
          → (read_ok c ≡ true) × (read_ok c' ≡ true)
          → load_config crc32_le flash (at_reset before) c ≡ some s
          → IsActive s active sz
          → (s' : Setup) × (load_config crc32_le flash (at_reset before) c' ≡ some s')
            × (IsActive s' active sz
                ⊎ (IsRecord crc32_le (contents c') n size
                    × IsActive s' (λ k. contents c' (n + k)) size))
      load_config-cut active sz f r e a = elim cut-IsRecord [
        | inl v ↦ let t = load_config-late f.1 r.1 v in (t.0, t.1, inr (v, t.2))
        | inr wrong ↦
            let t = load_config-kept f.1 r.1 active sz f.0 r.0 wrong e a in (t.0, t.1, inl t.2)
      ]
