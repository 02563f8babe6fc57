-- ===== src/Tests/Outages.antt =====
-- A run of the store on a chip whose writes fail half-way behind the first 100 bytes.
use mstd.Prelude.{
  ℕ, ◌+◌, ◌%◌, ◌≤◌, ◌<◌, ◌≡◌, refl, ap, ◌∙◌, inl, inr, Bool, true, false, Option, none, some, List,
  [], ◌∷◌, Memory, window, length, length-window, get_or, get_or-window, buffer_of, overlay,
  overlay_inside, overlay_below, overlay_above, min, ltb, if◌then◌else◌, Bool-cases, arith,
}
use mstd.Setup.Flash.{Flash}
use mstd.Setup.Scan.{unlocated, eval_crc}
use mstd.Setup.Save.{
  Saved, cannot_write, check_image, fill_crc, store_image, write_image, save_config_image,
}
use mstd.Setup.Walk.{here}
use mstd.Setup.History.{nothing, Refines}
use mstd.Setup.Broken.{erases}
use mstd.Setup.Outages.{save, KeepsAll, Run, saves, goes, stops}
use mstd.Setup.Partial.{StoresPart}
use mstd.Setup.Survival.{IsFailing, run-Refines}
use mstd.Tests.Data.{crc, crc_range, flash, erased, setup, image, image-IsBytes}
use mstd.Tests.Store.{not_free}

abbrev pub first_part : List ℕ → List ℕ
first_part bs = window (buffer_of bs 0) 0 (min 50 (length bs))

abbrev pub worn_write : Memory → ℕ → List ℕ → Bool × Memory
worn_write c a bs =
    if ltb a 100 then (true, overlay c a bs) else (false, overlay c a (first_part bs))

abbrev pub byte : ℕ → ℕ
byte x = x % 256

pub worn_write-inside :
    (c : Memory) (a : ℕ) (bs : List ℕ) (k : ℕ)
    → (worn_write c a bs).0 ≡ true
    → k < length bs
    → get_or bs k 0 < 256
    → (worn_write c a bs).1 (a + k) % 256 ≡ get_or bs k 0
worn_write-inside c a bs k e h b = elim (Bool-cases (ltb a 100)) [
  | inl x ↦ rw x (ap byte (overlay_inside c a bs k h) ∙ omega arith)
  | inr x ↦ cc (rw x at e)
]

pub worn_write-below :
    (c : Memory) (a : ℕ) (bs : List ℕ) (i : ℕ) → i < a → (worn_write c a bs).1 i % 256 ≡ c i % 256
worn_write-below c a bs i h = elim (Bool-cases (ltb a 100)) [
  | inl x ↦ rw x (ap byte (overlay_below c a bs i h))
  | inr x ↦ rw x (ap byte (overlay_below c a (first_part bs) i h))
]

pub worn_write-above :
    (c : Memory) (a : ℕ) (bs : List ℕ) (i : ℕ)
    → (worn_write c a bs).0 ≡ true
    → a + length bs ≤ i
    → (worn_write c a bs).1 i % 256 ≡ c i % 256
worn_write-above c a bs i e h = elim (Bool-cases (ltb a 100)) [
  | inl x ↦ rw x (ap byte (overlay_above c a bs i h))
  | inr x ↦ cc (rw x at e)
]

abbrev pub worn : Flash
worn = record flash {
  write = worn_write;
  write_inside = λ c a bs k e h b f. worn_write-inside c a bs k e h b;
  write_below = λ c a bs i e h. worn_write-below c a bs i h;
  write_above = λ c a bs i e h. worn_write-above c a bs i e h;
  find_first-write = λ c a bs. refl;
}

index : (k : ℕ) → 0 + k ≡ k
index k = omega arith

worn_part :
    (c : Memory) (a : ℕ) (bs : List ℕ) → (worn_write c a bs).0 ≡ false → StoresPart worn c a bs
worn_part c a bs e = elim (Bool-cases (ltb a 100)) [
  | inl x ↦ cc (rw x at e)
  | inr x ↦
      let len : length (first_part bs) ≡ min 50 (length bs) =
        length-window (buffer_of bs 0) 0 (min 50 (length bs)) in
      record {
        cut = min 50 (length bs);
        partial = ground arith;
        stored = λ k h b. rw x (
            ap byte (overlay_inside c a (first_part bs) k (omega (arith, len)))
            ∙ ap byte (get_or-window (buffer_of bs 0) 0 (min 50 (length bs)) k 0 h)
            ∙ ap (λ j. get_or bs j 0 % 256) (index k)
            ∙ omega arith);
        rest = λ i h. rw x (elim h [
          | inl lo ↦ ap byte (overlay_below c a (first_part bs) i lo)
          | inr hi ↦ ap byte (overlay_above c a (first_part bs) i (omega (arith, len)))
        ]);
      }
]

pub failing : IsFailing crc worn
failing = record { reads = λ c. refl; erases = λ c. refl; part = λ c a bs e f. worn_part c a bs e }

pub start : Refines crc worn setup erased none
start = record {
  ready = record {
    partition = refl;
    present = refl;
    shift = record {
      aligned = omega arith;
      inside = omega arith;
      free = λ i lo hi. refl;
      found = unlocated;
      walk = here;
    };
  };
  contents = nothing;
}

-- The image is stored at 0, and a second write of it behind that fails.
abbrev first : Saved Memory
first = save_config_image crc worn setup erased image 108

abbrev second : Saved Memory
second = save_config_image crc worn first.setup first.chip image 108

stored : first.error ≡ none
unfolding save_config_image check_image fill_crc store_image write_image eval_crc
stored = refl

broken : (second.error ≡ some cannot_write) × (erases first.setup 108 ≡ false)
unfolding save_config_image check_image fill_crc store_image write_image eval_crc erases
broken = (refl, refl)

run :
    Run crc worn setup erased
      (save image 108 (erases setup 108) first.error
        ∷ save image 108 (erases first.setup 108) second.error
        ∷ [])
      second.setup
      second.chip
run =
    goes (saves image 108 image-IsBytes not_free)
      (goes (saves image 108 image-IsBytes not_free) stops)

run-Refines_example :
    (k : Option (List ℕ)) × KeepsAll crc none
      (save image 108 (erases setup 108) first.error
        ∷ save image 108 (erases first.setup 108) second.error
        ∷ [])
      k
    × Refines crc worn second.setup second.chip k
run-Refines_example = run-Refines crc worn crc_range failing none start run
