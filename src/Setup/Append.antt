-- ===== src/Setup/Append.antt =====
-- A valid image written behind the last record becomes the active configuration.
use mstd.Prelude.{
  ℕ, ◌+◌, ◌-◌, ◌/◌, ◌≤◌, ◌<◌, ◌≡◌, refl, sym, ap, ◌∙◌, ◌≢◌, inl, inr, some, List, Memory, SameOn,
  window_shift, ltb, arith, Bool-cases, ltb→lt,
}
use mstd.Setup.Scan.{
  Located, unlocated, max_cfg_size, size_offset, crc_field, size_field, no_crc, record_size,
  eval_crc, scan_round, find_active_config, sizeof_config,
}
use mstd.Setup.Rounds.{records, Passes-round}
use mstd.Setup.Walk.{Walk, next, Ends-past, Ends-stop, Walk-Ends, Ends-find}
use mstd.Setup.Agree.{Walk-same, check_for_free_bytes_iff}
use mstd.Setup.Sound.{IsRecord}
use mstd.Setup.Shift.{IsEnd, accept-record}

module _ (crc32_le : ℕ → List ℕ → ℕ) (m : Memory) (n : ℕ) (end : IsEnd crc32_le m n) where
  erased-crc : n < max_cfg_size → crc_field m n ≡ no_crc
  erased-crc lt =
      let a = end.aligned in
      omega (
        arith,
        end.free n (omega arith) (omega arith),
        end.free (n + 1) (omega arith) (omega arith),
        end.free (n + 2) (omega arith) (omega arith),
        end.free (n + 3) (omega arith) (omega arith),
      )

  -- The scan stops in front of the erased cells with what it has found.
  pub IsEnd-find :
      (r : Located) × (find_active_config crc32_le m unlocated ≡ some r)
      × (r.config ≡ end.found.config)
      × (r.cfg_size ≡ end.found.cfg_size)
      × (n < max_cfg_size → r.next_cfg_shift ≡ some n)
  unfolding scan_round
  IsEnd-find = elim (Bool-cases (ltb n max_cfg_size)) [
    | inl b ↦
        let r = record (end.found) { next_cfg_shift = some n } in
        let free = (check_for_free_bytes_iff m n).1 end.free in
        (
          r,
          Ends-find crc32_le m unlocated r (
              Walk-Ends crc32_le m end.walk (
                Ends-stop crc32_le m n end.found (ltb→lt _ _ b)
                  (ground (arith, erased-crc (ltb→lt _ _ b), free)))),
          refl,
          refl,
          λ lt. refl,
        )
    | inr b ↦ (
      end.found,
      Ends-find crc32_le m unlocated end.found
          (Walk-Ends crc32_le m end.walk (Ends-past crc32_le m n end.found (ground arith))),
      refl,
      refl,
      λ lt. absurd (ground arith),
    )
  ]

-- An image with its length and checksum right, as save_config_image lets it through.
pub record IsImage (crc32_le : ℕ → List ℕ → ℕ) (image : Memory) (size : ℕ) : Type 0 where
  pub whole_field : size_field image 0 / 256 ≢ 0xff
  pub length_field : record_size (size_field image 0) ≡ size
  pub large : sizeof_config ≤ size
  pub checked : crc_field image 0 ≡ eval_crc crc32_le image size_offset size
  pub not_free : crc_field image 0 ≢ no_crc

-- m' is m with the image written from n on.
pub record IsWritten (m m' image : Memory) (n size : ℕ) : Type 0 where
  pub before : SameOn m m' 0 n
  pub stored : (k : ℕ) → k < size → m' (n + k) ≡ image k
  pub behind : (i : ℕ) → n + size ≤ i → i < max_cfg_size → m' i ≡ 0xff
  pub room : n + size ≤ max_cfg_size

-- The header of an image, where its first bytes stand from n on.
module _ (m' image : Memory) (n cut : ℕ) (stored : (k : ℕ) → k < cut → m' (n + k) ≡ image k) where
  stored_at : (k i : ℕ) → k < cut → i ≡ n + k → m' i ≡ image k
  stored_at k i h e = ap m' e ∙ stored k h

  pub crc_field-stored : 4 ≤ cut → crc_field m' n ≡ crc_field image 0
  crc_field-stored h = omega (
    arith,
    stored_at 0 n (omega arith) (omega arith),
    stored_at 1 (n + 1) (omega arith) (omega arith),
    stored_at 2 (n + 2) (omega arith) (omega arith),
    stored_at 3 (n + 3) (omega arith) (omega arith),
  )

  pub size_field-stored : 6 ≤ cut → size_field m' n ≡ size_field image 0
  size_field-stored h = omega (
    arith,
    stored_at 4 (n + 4) (omega arith) (omega arith),
    stored_at 5 (n + 4 + 1) (omega arith) (omega arith),
  )

module _ (crc32_le : ℕ → List ℕ → ℕ) (m m' image : Memory) (n size : ℕ) (end : IsEnd crc32_le m n)
    (valid : IsImage crc32_le image size) (written : IsWritten m m' image n size) where
  crc_field-written : crc_field m' n ≡ crc_field image 0
  crc_field-written =
      let large = valid.large in crc_field-stored m' image n size written.stored (omega arith)

  size_field-written : size_field m' n ≡ size_field image 0
  size_field-written =
      let large = valid.large in size_field-stored m' image n size written.stored (omega arith)

  eval_crc-written :
      eval_crc crc32_le m' (n + size_offset) (n + size) ≡ eval_crc crc32_le image size_offset size
  unfolding eval_crc
  eval_crc-written =
      let large = valid.large in
      let e : n + size - (n + size_offset) ≡ size - size_offset = omega arith in
      rw e (
        ap (crc32_le 0) (
          window_shift m' image (n + size_offset) size_offset (size - size_offset)
            (λ k h. ap m' (omega arith) ∙ written.stored (size_offset + k) (omega arith))))

  pub written-IsRecord : IsRecord crc32_le m' n size
  written-IsRecord = record {
    aligned = end.aligned;
    whole_field = λ e. valid.whole_field (ap (λ x. x / 256) (sym size_field-written) ∙ e);
    length_field = sym (ap record_size size_field-written ∙ valid.length_field);
    inside = written.room;
    not_free = λ e. valid.not_free (sym crc_field-written ∙ e);
    checked = crc_field-written ∙ valid.checked ∙ sym eval_crc-written;
  }

  abbrev pub appended : Located
  appended = record (end.found) { config = some n; cfg_size = size }

  -- The scan of the new contents passes the old records and then the image.
  pub Walk-written : Walk crc32_le m' 0 unlocated (n + size) appended
  Walk-written =
      let v = written-IsRecord in
      let large = valid.large in
      let room = written.room in
      next
        (Walk-same crc32_le m m' n written.before end.free end.aligned (omega arith) end.walk
          (omega arith))
        (omega arith) end.aligned
        (Passes-round crc32_le m' n end.found v.not_free (
          records v.whole_field (omega (arith, v.length_field)) room
            (sym (accept-record crc32_le m' n size end.found v))))

  pub written-IsEnd : IsEnd crc32_le m' (n + size)
  written-IsEnd = record {
    aligned = omega (arith, end.aligned, valid.length_field);
    inside = written.room;
    free = written.behind;
    found = appended;
    walk = Walk-written;
  }

  -- The scan finds the image: at n, with its size.
  pub find_active_config-written :
      (r : Located) × (find_active_config crc32_le m' unlocated ≡ some r)
      × (r.config ≡ some n)
      × (r.cfg_size ≡ size)
  unfolding written-IsEnd
  find_active_config-written =
      let t = IsEnd-find crc32_le m' (n + size) written-IsEnd in (t.0, t.1, t.2, t.3)
