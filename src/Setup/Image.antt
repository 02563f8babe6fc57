-- ===== src/Setup/Image.antt =====
-- The checks of save_config_image: what they let through is a valid image.
use mstd.Prelude.{
  ℕ, zero, suc, ◌+◌, ◌-◌, ◌*◌, ◌/◌, ◌%◌, ◌^◌, ◌≤◌, ◌<◌, ◌≡◌, refl, sym, ap, ◌∙◌, ◌≢◌, ◌↔◌, inl, inr,
  true, none, some, List, Memory, IsBytes, window, window_cong, overlay, overlay_above,
  overlay_inside, get_or, ltb, ◌==◌, arith, Bool-cases, ltb→lt,
}
use mstd.Setup.Scan.{
  max_cfg_size, size_offset, crc_field, size_field, no_crc, record_size, eval_crc, sizeof_config,
}
use mstd.Setup.Save.{Setup, check_image, fill_crc, u32_bytes}
use mstd.Setup.Append.{IsImage}

-- What the checks before the checksum establish.
pub record IsChecked (s : Setup) (image : Memory) (size : ℕ) : Type 0 where
  pub partition : s.cfg_pat ≡ true
  pub fits : size ≤ max_cfg_size
  pub large : sizeof_config ≤ size
  pub length_field : record_size (size_field image 0) ≡ size
  pub whole_field : size_field image 0 / 256 ≢ 0xff

-- The checks pass exactly if there is a partition and the image has the size that it states, at
-- least that of the structure and at most that of the partition.
pub check_image_iff :
    (s : Setup) (image : Memory) (size : ℕ)
    → (check_image s image size ≡ none) ↔ IsChecked s image size
unfolding check_image
check_image_iff s image size = (
  λ h. record {
    partition = ground arith;
    fits = ground arith;
    large = ground arith;
    length_field = ground arith;
    whole_field = ground arith;
  },
  λ c. ground (arith, c.partition, c.fits, c.large, c.length_field, c.whole_field),
)

u32_bytes_sum :
    (x : ℕ)
    → x < 2 ^ 32
    → x % 256 + 256 * (x / 256 % 256) + 65536 * (x / 65536 % 256) + 16777216 * (x / 16777216 % 256)
      ≡ x
u32_bytes_sum x h = omega arith

u32_bytes-lt : (x k : ℕ) → get_or (u32_bytes x) k 0 < 256
u32_bytes-lt x zero = omega arith
u32_bytes-lt x (suc zero) = omega arith
u32_bytes-lt x (suc (suc zero)) = omega arith
u32_bytes-lt x (suc (suc (suc zero))) = omega arith
u32_bytes-lt x (suc (suc (suc (suc k)))) = omega arith

-- A checksum written into the header is read back.
crc_field-overlay :
    (image : Memory) (x : ℕ) → x < 2 ^ 32 → crc_field (overlay image 0 (u32_bytes x)) 0 ≡ x
crc_field-overlay image x h = omega (
  arith,
  overlay_inside image 0 (u32_bytes x) 0 (omega arith),
  overlay_inside image 0 (u32_bytes x) 1 (omega arith),
  overlay_inside image 0 (u32_bytes x) 2 (omega arith),
  overlay_inside image 0 (u32_bytes x) 3 (omega arith),
  u32_bytes_sum x h,
)

overlay-IsBytes : (image : Memory) (x : ℕ) → IsBytes image → IsBytes (overlay image 0 (u32_bytes x))
overlay-IsBytes image x h a = elim (Bool-cases (ltb a 4)) [
  | inl b ↦
      let e : overlay image 0 (u32_bytes x) a ≡ get_or (u32_bytes x) a 0 =
        ap (overlay image 0 (u32_bytes x)) (omega arith)
        ∙ overlay_inside image 0 (u32_bytes x) a (ltb→lt _ _ b) in
      rw e (u32_bytes-lt x a)
  | inr b ↦ rw (overlay_above image 0 (u32_bytes x) a (ground arith)) (h a)
]

module _ (crc32_le : ℕ → List ℕ → ℕ) (crc_range : (bs : List ℕ) → crc32_le 0 bs < 2 ^ 32) where
  -- What fill_crc changes: at most the checksum, which is right afterwards.
  pub record IsFilled (image image' : Memory) (size : ℕ) : Type 0 where
    pub body : (i : ℕ) → 4 ≤ i → image' i ≡ image i
    pub bytes : IsBytes image'
    pub checksum : crc_field image' 0 ≡ eval_crc crc32_le image size_offset size

  -- Where it succeeds on an image of bytes, with a checksum of 32 bits, fill_crc keeps all behind the
  -- checksum field, and leaves the right checksum in it.
  pub fill_crc-IsFilled :
      (image : Memory) (size : ℕ) {image' : Memory}
      → IsBytes image
      → fill_crc crc32_le image size ≡ some image'
      → IsFilled image image' size
  unfolding fill_crc eval_crc
  fill_crc-IsFilled image size {image'} b e = elim (Bool-cases (crc_field image 0 == no_crc)) [
    | inl f ↦
        let x = crc32_le 0 (window image size_offset (size - size_offset)) in
        let e' : overlay image 0 (u32_bytes x) ≡ image' = ground arith in
        rw (← e') (record {
          body = λ i h. overlay_above image 0 (u32_bytes x) i (omega arith);
          bytes = overlay-IsBytes image x b;
          checksum = crc_field-overlay image x (crc_range _);
        })
    | inr f ↦
        let e' : image ≡ image' = ground arith in
        let c : crc_field image 0 ≡ eval_crc crc32_le image size_offset size = ground arith in
        rw (← e') (record { body = λ i h. refl; bytes = b; checksum = c })
  ]

  eval_crc-IsFilled :
      {image image' : Memory} {size : ℕ}
      → IsFilled image image' size
      → eval_crc crc32_le image' size_offset size ≡ eval_crc crc32_le image size_offset size
  unfolding eval_crc
  eval_crc-IsFilled {image} {image'} {size} f =
      ap (crc32_le 0)
        (window_cong image' image size_offset (size - size_offset) (λ i lo hi. f.body i lo))

  -- An image that passes all the checks is valid, unless its checksum is the mark of a free slot.
  pub IsFilled-IsImage :
      {s : Setup} {image image' : Memory} {size : ℕ}
      → IsChecked s image size
      → IsFilled image image' size
      → eval_crc crc32_le image size_offset size ≢ no_crc
      → IsImage crc32_le image' size
  IsFilled-IsImage {image = image} {image' = image'} c f ne =
      let same : size_field image' 0 ≡ size_field image 0 =
        omega (arith, f.body 4 (omega arith), f.body 5 (omega arith)) in
      record {
        whole_field = λ e. c.whole_field (ap (λ x. x / 256) (sym same) ∙ e);
        length_field = ap record_size same ∙ c.length_field;
        large = c.large;
        checked = f.checksum ∙ sym (eval_crc-IsFilled f);
        not_free = λ e. ne (sym f.checksum ∙ e);
      }
