-- ===== src/Setup/Same.antt =====
-- Two memories that agree on the partition have the same records, and the same end of them.
use mstd.Prelude.{
  ℕ, ◌+◌, ◌-◌, ◌/◌, ◌≤◌, ◌<◌, ◌≡◌, sym, ap, ◌∙◌, List, Memory, SameOn, window_cong, arith,
}
use mstd.Setup.Scan.{max_cfg_size, size_offset, crc_field, size_field, record_size, eval_crc}
use mstd.Setup.Agree.{Walk-same}
use mstd.Setup.Sound.{IsRecord}
use mstd.Setup.Shift.{IsEnd}

pub IsEnd-same :
    (crc32_le : ℕ → List ℕ → ℕ) (m m' : Memory) (n : ℕ)
    → SameOn m m' 0 max_cfg_size
    → n < max_cfg_size
    → IsEnd crc32_le m n
    → IsEnd crc32_le m' n
IsEnd-same crc32_le m m' n same lt end = record {
  aligned = end.aligned;
  inside = end.inside;
  free = λ i lo hi. sym (same i (omega arith) hi) ∙ end.free i lo hi;
  found = end.found;
  walk =
      Walk-same crc32_le m m' n (λ i lo hi. same i lo (omega arith)) end.free end.aligned lt
        end.walk (omega arith);
}

pub IsRecord-same :
    (crc32_le : ℕ → List ℕ → ℕ) (m m' : Memory) (p sz : ℕ)
    → SameOn m m' 0 max_cfg_size
    → 8 ≤ sz
    → IsRecord crc32_le m p sz
    → IsRecord crc32_le m' p sz
unfolding eval_crc
IsRecord-same crc32_le m m' p sz same h v =
    let inside = v.inside in
    let at : (k i : ℕ) → k < sz → i ≡ p + k → m' i ≡ m i =
      λ k i lt e. sym (same i (omega arith) (omega arith)) in
    let crc : crc_field m' p ≡ crc_field m p = omega (
      arith,
      at 0 p (omega arith) (omega arith),
      at 1 (p + 1) (omega arith) (omega arith),
      at 2 (p + 2) (omega arith) (omega arith),
      at 3 (p + 3) (omega arith) (omega arith),
    ) in
    let size : size_field m' p ≡ size_field m p = omega (
      arith,
      at 4 (p + 4) (omega arith) (omega arith),
      at 5 (p + 4 + 1) (omega arith) (omega arith),
    ) in
    record {
      aligned = v.aligned;
      whole_field = λ e. v.whole_field (ap (λ x. x / 256) (sym size) ∙ e);
      length_field = v.length_field ∙ ap record_size (sym size);
      inside = inside;
      not_free = λ e. v.not_free (sym crc ∙ e);
      checked =
          crc
          ∙ v.checked
          ∙ ap (crc32_le 0) (
              window_cong m m' (p + size_offset) (p + sz - (p + size_offset))
                (λ i lo hi. same i (omega arith) (omega arith)));
    }
