-- ===== src/Setup/Boot.antt =====
-- Saving and booting: the store's invariant, and what load_config finds after a save.
use mstd.Prelude.{
  ℕ, ◌+◌, ◌≤◌, ◌<◌, ◌≡◌, refl, sym, ap, ◌∙◌, inl, inr, true, none, some, List, Memory, IsBytes,
  window, length-window, get_or-window, length, overlay, overlay_inside, get_or, arith, Bool-cases,
}
use mstd.Setup.Flash.{Flash}
use mstd.Setup.Scan.{unlocated, max_cfg_size}
use mstd.Setup.Walk.{here}
use mstd.Setup.Agree.{IsFree}
use mstd.Setup.Shift.{IsEnd, IsShift}
use mstd.Setup.Save.{Setup, Saved, write_image}
use mstd.Setup.Append.{IsWritten}

overlay_whole :
    (m : Memory) (bs : List ℕ) (i : ℕ) → i < length bs → overlay m 0 bs i ≡ get_or bs i 0
overlay_whole m bs i h = ap (overlay m 0 bs) (omega arith) ∙ overlay_inside m 0 bs i h

-- The image that load_config reads: the partition, in front of what follows cfg_full.
pub loaded-same :
    (m c : Memory) (i : ℕ) → i < max_cfg_size → overlay m 0 (window c 0 max_cfg_size) i ≡ c i
loaded-same m c i h =
    overlay_whole m (window c 0 max_cfg_size) i (omega (arith, length-window c 0 max_cfg_size))
    ∙ get_or-window c 0 max_cfg_size i 0 h
    ∙ ap c (omega arith)

module _ (crc32_le : ℕ → List ℕ → ℕ) (flash : Flash) where
  open flash use {
    Chip, contents, read_ok, find_first, erase_range, write, contents_bytes, erase_inside,
    write_inside, write_below, write_above, find_first-write, find_first-erase,
  }

  -- The partition is found, and the shift is -1 or the end of its records.
  pub record IsReady (s : Setup) (c : Chip) : Type 0 where
    pub partition : s.cfg_pat ≡ true
    pub present : find_first c ≡ true
    pub shift : IsShift crc32_le (contents c) s.next_cfg_shift

  -- A successful write into the erased cells behind n.
  pub write-IsWritten :
      (c : Chip) (image : Memory) (n size : ℕ)
      → IsFree (contents c) n
      → n + size ≤ max_cfg_size
      → IsBytes image
      → (write c n (window image 0 size)).0 ≡ true
      → IsWritten (contents c) (contents (write c n (window image 0 size)).1) image n size
  write-IsWritten c image n size free room b e =
      let bs = window image 0 size in
      let len : length bs ≡ size = length-window image 0 size in
      let at : (k : ℕ) → k < size → get_or bs k 0 ≡ image k =
        λ k h. get_or-window image 0 size k 0 h ∙ ap image (omega arith) in
      record {
        before = λ i lo hi. sym (write_below c n bs i e hi);
        stored = λ k h.
            write_inside c n bs k e (omega arith) (rw (at k h) (b k))
              (free (n + k) (omega arith) (omega arith))
            ∙ at k h;
        behind = λ i lo hi. write_above c n bs i e (omega arith) ∙ free i (omega arith) hi;
        room = room;
      }

  pub erased-IsEnd :
      (c : Chip)
      → (erase_range c 0 max_cfg_size).0 ≡ true
      → IsEnd crc32_le (contents (erase_range c 0 max_cfg_size).1) 0
  erased-IsEnd c e = record {
    aligned = omega arith;
    inside = omega arith;
    free = λ i lo hi. erase_inside c 0 max_cfg_size i e lo (omega arith);
    found = unlocated;
    walk = here;
  }

  -- What a save that succeeds has done: the image stands behind the end n of the records of `base`,
  -- the contents before the write, and the shift behind it.
  pub record IsStored (image : Memory) (size : ℕ) (r : Saved Chip) : Type 0 where
    pub base : Memory
    pub n : ℕ
    pub end : IsEnd crc32_le base n
    pub written : IsWritten base (contents r.chip) image n size
    pub shift : r.setup.next_cfg_shift ≡ some (n + size)
    pub partition : r.setup.cfg_pat ≡ true
    pub present : find_first r.chip ≡ true

  pub write_image-IsStored :
      (s : Setup) (c : Chip) (image : Memory) (size n : ℕ)
      → s.cfg_pat ≡ true
      → find_first c ≡ true
      → IsEnd crc32_le (contents c) n
      → n + size ≤ max_cfg_size
      → IsBytes image
      → (write_image crc32_le flash s c image size n).error ≡ none
      → IsStored image size (write_image crc32_le flash s c image size n)
  unfolding write_image
  write_image-IsStored s c image size n p f end room b e =
      elim (Bool-cases (write c n (window image 0 size)).0) [
        | inr w ↦ cc (rw w at e)
        | inl w ↦ rw w (record {
          base = contents c;
          n = n;
          end = end;
          written = write-IsWritten c image n size end.free room b w;
          shift = refl;
          partition = p;
          present = find_first-write c n (window image 0 size) ∙ f;
        })
      ]
