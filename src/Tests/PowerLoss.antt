-- ===== src/Tests/PowerLoss.antt =====
-- A run of a restart after a write that was cut off.
use mstd.Prelude.{
  ◌⊎◌, ℕ, ◌+◌, ◌≤◌, ◌<◌, ◌%◌, ◌≡◌, refl, sym, ap, ◌∙◌, true, some, List, ◌∷◌, ◌++◌, replicate,
  Memory, get_or-append_left, get_or-append_right, get_or_past, buffer_of, window, window_cong,
  overlay, arith,
}
use mstd.Setup.Scan.{
  Located, unlocated, max_cfg_size, eval_crc, accept, advance, scan_round, find_active_config,
}
use mstd.Setup.Walk.{Walk, here, next}
use mstd.Setup.Agree.{Walk-same}
use mstd.Setup.Shift.{IsEnd}
use mstd.Setup.Append.{IsImage, IsEnd-find}
use mstd.Setup.Torn.{IsTorn}
use mstd.Setup.Sound.{IsRecord}
use mstd.Setup.Save.{Setup, at_reset, load_config}
use mstd.Setup.Boot.{loaded-same}
use mstd.Setup.Restart.{IsActive, load_config-reads}
use mstd.Setup.PowerLoss.{IsCut, load_config-cut}
use mstd.Crc.Table.{crc_bytes, crc32_le}
use mstd.Tests.Data.{flash, erased}
use mstd.Tests.Checksum.{record_bytes, whole, whole-IsBytes}

-- The first fifty bytes of the record, and a partition with them behind the record.
abbrev first_bytes : List ℕ
first_bytes = 231 ∷ 13 ∷ 99 ∷ 151 ∷ 26 ∷ 0 ∷ 0 ∷ replicate 43 1

abbrev cut_off : Memory
cut_off = buffer_of (record_bytes ++ first_bytes) 0xff

abbrev found : Located
found = record unlocated { config = some 0; cfg_size = 108 }

passes : scan_round crc32_le (flash.contents whole) 0 unlocated ≡ advance 108 found
unfolding scan_round accept eval_crc window crc32_le crc_bytes
passes = refl

walk : Walk crc32_le (flash.contents whole) 0 unlocated 108 found
walk = next here (omega arith) (omega arith) passes

free : (i : ℕ) → 108 ≤ i → i < max_cfg_size → flash.contents whole i ≡ 0xff
free i lo hi = ap (λ x. x % 256) (get_or_past record_bytes i 0xff lo)

end : IsEnd crc32_le (flash.contents whole) 108
end = record {
  aligned = omega arith;
  inside = omega arith;
  free = free;
  found = found;
  walk = walk;
}

whole-IsImage : IsImage crc32_le whole 108
unfolding eval_crc window crc32_le crc_bytes
whole-IsImage = record {
  whole_field = omega arith;
  length_field = refl;
  large = omega arith;
  checked = refl;
  not_free = omega arith;
}

at_first : (k : ℕ) → k < 50 → cut_off (108 + k) ≡ whole k
at_first k h =
    get_or-append_right record_bytes first_bytes k (108 + k) 0xff refl
    ∙ sym (get_or-append_left first_bytes (replicate 58 1) k 0xff h)

bytes_of : (k : ℕ) → whole k % 256 ≡ whole k
bytes_of k = omega (arith, whole-IsBytes k)

torn : IsTorn (flash.contents whole) (flash.contents cut_off) whole 108 50 108
torn = record {
  before =
      λ i lo hi. ap (λ x. x % 256) (sym (get_or-append_left record_bytes first_bytes i 0xff hi));
  stored = λ k h. ap (λ x. x % 256) (at_first k h) ∙ bytes_of k;
  behind = λ i lo hi. ap (λ x. x % 256) (get_or_past (record_bytes ++ first_bytes) i 0xff lo);
  partial = omega arith;
  room = omega arith;
}

cut : IsCut crc32_le flash whole cut_off whole 108 50 108
cut = record { end = end; valid = whole-IsImage; torn = torn }

-- What a restart before the write loads.
abbrev loaded : Memory
loaded = overlay erased 0 (window (flash.contents whole) 0 max_cfg_size)

loaded-IsEnd : IsEnd crc32_le loaded 108
loaded-IsEnd =
    let same = loaded-same erased (flash.contents whole) in
    record {
      aligned = omega arith;
      inside = omega arith;
      free = λ i lo hi. same i hi ∙ free i lo hi;
      found = found;
      walk =
          Walk-same crc32_le (flash.contents whole) loaded 108
            (λ i lo hi. sym (same i (omega arith))) free (omega arith) (omega arith) walk
            (omega arith);
    }

scan :
    (r : Located) × (find_active_config crc32_le loaded unlocated ≡ some r)
    × (r.config ≡ some 0)
    × (r.cfg_size ≡ 108)
unfolding loaded-IsEnd
scan = let t = IsEnd-find crc32_le loaded 108 loaded-IsEnd in (t.0, t.1, t.2, t.3)

abbrev before : Setup
before = record { located = scan.0; cfg_full = loaded; cfg_full_loaded = true; cfg_pat = true }

loads : load_config crc32_le flash (at_reset erased) whole ≡ some before
loads = load_config-reads crc32_le flash erased whole refl refl scan.1

before-IsActive : IsActive before (flash.contents whole) 108
before-IsActive = record {
  config = 0;
  located = scan.2;
  cfg_size = scan.3;
  inside = omega arith;
  bytes =
      window_cong loaded (flash.contents whole) 0 108
        (λ i lo hi. loaded-same erased (flash.contents whole) i (omega arith));
  loaded = refl;
}

load_config-cut_example :
    (s' : Setup) × (load_config crc32_le flash (at_reset erased) cut_off ≡ some s')
    × (IsActive s' (flash.contents whole) 108
        ⊎ (IsRecord crc32_le (flash.contents cut_off) 108 108
            × IsActive s' (λ k. flash.contents cut_off (108 + k)) 108))
load_config-cut_example =
    load_config-cut crc32_le flash erased whole whole cut_off 108 50 108 cut (flash.contents whole)
      108 (refl, refl) (refl, refl) loads before-IsActive
