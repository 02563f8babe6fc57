-- ===== src/Tests/Data.antt =====
-- Concrete data for the runs: a checksum, a flash chip, a configuration of 108 bytes.
use mstd.Prelude.{
  AllBytes, buffer_of-IsBytes, ℕ, ◌+◌, ◌%◌, ◌^◌, ◌<◌, ◌≤◌, ◌≡◌, refl, ap, ◌∙◌, some, Bool, true,
  List, [], ◌∷◌, ◌++◌, Memory, IsBytes, replicate, length, overlay, overlay_inside, overlay_below,
  overlay_above, buffer_of, ltb, leb, ◌&&◌, if◌then◌else◌, arith,
}
use mstd.Setup.Flash.{Flash}
use mstd.Setup.Scan.{unlocated}
use mstd.Setup.Save.{Setup}

abbrev pub crc : ℕ → List ℕ → ℕ
crc c bs = length bs % 2 ^ 32

pub crc_range : (bs : List ℕ) → crc 0 bs < 2 ^ 32
crc_range bs = omega arith

-- Erased cells from a up to a + n.
abbrev pub erase : Memory → ℕ → ℕ → Memory
erase c a n i = if leb a i && ltb i (a + n) then 0xff else c i

pub erase-inside : (c : Memory) (a n i : ℕ) → a ≤ i → i < a + n → erase c a n i % 256 ≡ 0xff
erase-inside c a n i h k = ground arith

-- A chip whose cells take any write.
abbrev pub flash : Flash
flash = record {
  Chip = Memory;
  contents = λ c i. c i % 256;
  read_ok = λ c. true;
  find_first = λ c. true;
  erase_range = λ c a n. (true, erase c a n);
  write = λ c a bs. (true, overlay c a bs);
  contents_bytes = λ c i. omega arith;
  erase_inside = λ c a n i e h k. erase-inside c a n i h k;
  write_inside = λ c a bs k e h b f. ap (λ x. x % 256) (overlay_inside c a bs k h) ∙ omega arith;
  write_below = λ c a bs i e h. ap (λ x. x % 256) (overlay_below c a bs i h);
  write_above = λ c a bs i e h. ap (λ x. x % 256) (overlay_above c a bs i h);
  find_first-write = λ c a bs. refl;
  find_first-erase = λ c a n. refl;
}

abbrev pub erased : Memory
erased i = 0xff

-- The store after a start over an erased partition.
abbrev pub setup : Setup
setup = record { located = unlocated; cfg_full = erased; cfg_full_loaded = true; cfg_pat = true }

-- A configuration without its checksum, in two chunks.
abbrev pub chunks : List (List ℕ)
chunks =
    (0xff ∷ 0xff ∷ 0xff ∷ 0xff ∷ 26 ∷ 0 ∷ 0 ∷ replicate 33 65)
    ∷ (replicate 63 1 ++ replicate 5 0)
    ∷ []

abbrev pub bytes : List ℕ
bytes =
    (0xff ∷ 0xff ∷ 0xff ∷ 0xff ∷ 26 ∷ 0 ∷ 0 ∷ replicate 33 65) ++ (replicate 63 1 ++ replicate 5 0)

abbrev pub image : Memory
image = buffer_of bytes 0xff

abbrev all_bytes : List ℕ → Bool
all_bytes [] = true
all_bytes (b ∷ bs) = ltb b 256 && all_bytes bs

pub all_bytes-AllBytes : (bs : List ℕ) → all_bytes bs ≡ true → AllBytes bs
all_bytes-AllBytes [] h = tt
all_bytes-AllBytes (b ∷ bs) h = (ground arith, all_bytes-AllBytes bs (ground arith))

pub bytes-AllBytes : AllBytes bytes
bytes-AllBytes = all_bytes-AllBytes bytes refl

pub image-IsBytes : IsBytes image
image-IsBytes = buffer_of-IsBytes bytes bytes-AllBytes

-- A partition with that configuration in it, and one that a single record fills.
abbrev pub stored : Memory
stored = buffer_of (104 ∷ 0 ∷ 0 ∷ 0 ∷ 26 ∷ 0 ∷ 0 ∷ replicate 101 1) 0xff

abbrev pub packed : Memory
packed = buffer_of (252 ∷ 15 ∷ 0 ∷ 0 ∷ 255 ∷ 3 ∷ []) 1

-- The store with an active configuration of 108 bytes.
abbrev pub active : Setup
active = record {
  located = record { config = some 0; cfg_size = 108; next_cfg_shift = some 108 };
  cfg_full = stored;
  cfg_full_loaded = true;
  cfg_pat = true;
}
