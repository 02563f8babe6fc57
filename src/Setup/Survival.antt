-- ===== src/Setup/Survival.antt =====
-- Every run of saves and restarts is one that Outages expects.
use mathlib.Core.Path.{subst}
use mstd.Prelude.{
  ℕ, ◌+◌, ◌-◌, ◌^◌, ◌<◌, ◌≡◌, ◌≢◌, refl, sym, ap, ◌∙◌, inl, inr, true, false, Option, none, some,
  List, Memory, IsBytes, window, window_shift, get_or, get_or-window, arith, Bool-cases,
  Option-cases,
}
use mstd.Setup.Flash.{Flash}
use mstd.Setup.Scan.{max_cfg_size, size_offset, no_crc, eval_crc}
use mstd.Setup.Save.{Setup, SaveError, cannot_write, crc_wrong, check_image, save_config_image}
use mstd.Setup.Sound.{IsRecord}
use mstd.Setup.Image.{IsFilled}
use mstd.Setup.Ready.{save_config_image-IsReady}
use mstd.Setup.RoundTrip.{save_config_image-refused, save_config_image-wrong}
use mstd.Setup.Load.{load_config-IsReady}
use mstd.Setup.Kept.{sealed, window-sealed, admissible, admissible-IsChecked, inadmissible}
use mstd.Setup.History.{Holds, nothing, holds, Refines, saved-Refines, save-same}
use mstd.Setup.Partial.{FailsPartly}
use mstd.Setup.PowerLoss.{IsCut, cut-IsRecord, load_config-late, load_config-kept}
use mstd.Setup.Broken.{erases, save_config_image-Broken}
use mstd.Setup.Outages.{
  Event, save, IsLate, Keeps, restarted, refused, saved, survived, lost, late, KeepsAll, keeps_none,
  keeps_next, Step, saves, restarts, Run, stops, goes,
}

module _ (crc32_le : ℕ → List ℕ → ℕ) (flash : Flash) where
  open flash use {Chip, contents, read_ok, find_first, erase_range}

  -- A flash whose reads and erases succeed, and whose writes may fail half-way.
  pub record IsFailing : Type 0 where
    pub reads : (c : Chip) → read_ok c ≡ true
    pub erases : (c : Chip) → (erase_range c 0 max_cfg_size).0 ≡ true
    pub part : FailsPartly flash

  refused-error :
      (s : Setup) (c : Chip) (image : Memory) (size : ℕ)
      → admissible crc32_le image size ≡ false
      → (e : SaveError) × ((save_config_image crc32_le flash s c image size).error ≡ some e)
  refused-error s c image size a = elim (Option-cases (check_image s image size)) [
    | inr (x, k) ↦ (x, rw (save_config_image-refused crc32_le flash s c image size k) refl)
    | inl k ↦ (
      crc_wrong,
      rw
          (save_config_image-wrong crc32_le flash s c image size k
            (inadmissible crc32_le s image size a k))
          refl,
    )
  ]

  module _ (crc_range : (bs : List ℕ) → crc32_le 0 bs < 2 ^ 32) (failing : IsFailing) where
    record-IsLate :
        (b c' : Chip) (image image' : Memory) (n cut size : ℕ)
        → IsFilled crc32_le crc_range image image' size
        → IsCut crc32_le flash b c' image' n cut size
        → IsRecord crc32_le (contents c') n size
        → IsLate crc32_le
            (sealed crc32_le image size)
            (window (λ k. contents c' (n + k)) 0 size)
            size
    unfolding eval_crc
    record-IsLate b c' image image' n cut size filled h v =
        let partial = h.torn.partial in
        let room = h.torn.room in
        let rest : n + size - (n + size_offset) ≡ size - size_offset = omega arith in
        let start : contents c' (n + 0) ≡ contents c' n = ap (contents c') (omega arith) in
        let whole = window-sealed crc32_le crc_range image size h.valid.large filled in
        record {
          m = λ k. contents c' (n + k);
          cut = cut;
          window_at = refl;
          first = λ k lt.
              h.torn.stored k lt
              ∙ ap image' (omega arith)
              ∙ sym (get_or-window image' 0 size k 0 (omega arith))
              ∙ ap (λ l. get_or l k 0) whole;
          erased = λ k lo hi. h.torn.behind (n + k) (omega arith) (omega arith);
          partial = partial;
          checked =
              omega (arith, start, v.checked)
              ∙ ap (crc32_le 0) (
                  ap (window (contents c') (n + size_offset)) rest
                  ∙ window_shift (contents c') (λ k. contents c' (n + k)) (n + size_offset)
                      size_offset (size - size_offset) (λ k lt. ap (contents c') (omega arith)));
        }

    Holds-kept :
        (b c' : Chip) (image : Memory) (n cut size : ℕ) (kept : Option (List ℕ))
        → IsCut crc32_le flash b c' image n cut size
        → find_first b ≡ true
        → find_first c' ≡ true
        → ¬ IsRecord crc32_le (contents c') n size
        → Holds crc32_le flash b kept
        → Holds crc32_le flash c' kept
    Holds-kept b c' image n cut size kept h f f' wrong nothing = nothing
    Holds-kept b c' image n cut size kept h f f' wrong (holds active sz w t) =
        holds active sz w (λ before.
          load_config-kept crc32_le flash before image b c' n cut size h f' (failing.reads c')
            active sz f (failing.reads b) wrong (t before).1 (t before).2)

    broken-Refines :
        (s : Setup) (c : Chip) (kept : Option (List ℕ)) (image : Memory) (size : ℕ) {e : SaveError}
        → Refines crc32_le flash s c kept
        → IsBytes image
        → eval_crc crc32_le image size_offset size ≢ no_crc
        → admissible crc32_le image size ≡ true
        → let r = save_config_image crc32_le flash s c image size in
          r.error ≡ some e
          → (k : Option (List ℕ)) × Keeps crc32_le kept (save image size (erases s size) (some e)) k
            × Refines crc32_le flash r.setup r.chip k
    broken-Refines s c kept image size {e} h b nc a q =
        let r = save_config_image crc32_le flash s c image size in
        let t =
          save_config_image-Broken crc32_le flash crc_range failing.part failing.erases s c image
            size h.ready b nc a q in
        let x = t.2 in
        let ready =
          save_config_image-IsReady crc32_le flash crc_range s c image size h.ready b nc
            (λ z. cc (z, q, x.error)) in
        let label : (k : Option (List ℕ))
            → Keeps crc32_le kept (save image size (erases s size) (some cannot_write)) k
            → Keeps crc32_le kept (save image size (erases s size) (some e)) k =
          λ k.
            subst (λ z. Keeps crc32_le kept (save image size (erases s size) (some z)) k)
              (sym x.error) in
        elim (cut-IsRecord crc32_le flash image t.0 x.base r.chip x.n x.cut size x.was_cut) [
          | inl v ↦ (
            some (window (λ k. contents r.chip (x.n + k)) 0 size),
            label _ (
                late image size (erases s size) _ a
                  (record-IsLate x.base r.chip image t.0 x.n x.cut size t.1 x.was_cut v)),
            record {
              ready = ready;
              contents =
                  holds (λ k. contents r.chip (x.n + k)) size refl
                    (λ before.
                      load_config-late crc32_le flash before t.0 x.base r.chip x.n x.cut size
                        x.was_cut x.present (failing.reads r.chip) v);
            },
          )
          | inr wrong ↦ elim (Bool-cases (erases s size)) [
            | inl y ↦ (
              none,
              label _ (rw y (lost image size a)),
              record { ready = ready; contents = nothing },
            )
            | inr y ↦ (
              kept,
              label _ (rw y (survived image size a)),
              record {
                ready = ready;
                contents =
                    Holds-kept x.base r.chip t.0 x.n x.cut size kept x.was_cut x.base_present
                      x.present wrong
                      (subst (λ z. Holds crc32_le flash z kept) (sym (t.3 y)) h.contents);
              },
            )
          ]
        ]

    step-Refines :
        {s : Setup} {c : Chip} {event : Event} {s' : Setup} {c' : Chip} (kept : Option (List ℕ))
        → Refines crc32_le flash s c kept
        → Step crc32_le flash s c event s' c'
        → (k : Option (List ℕ)) × Keeps crc32_le kept event k × Refines crc32_le flash s' c' k
    step-Refines {c = c} kept h (restarts before e erased) = (
      kept,
      restarted,
      record {
        ready =
            load_config-IsReady crc32_le flash before c h.ready.present (failing.reads c) e erased;
        contents = h.contents;
      },
    )
    step-Refines {s = s} {c = c} kept h (saves image size b nc) =
        let r = save_config_image crc32_le flash s c image size in
        elim (Bool-cases (admissible crc32_le image size)) [
          | inr a ↦
              let e = refused-error s c image size a in
              (
                kept,
                subst (λ z. Keeps crc32_le kept (save image size (erases s size) z) kept) (sym e.1)
                    (refused image size (erases s size) e.0 a),
                save-same crc32_le flash s c image size kept h a,
              )
          | inl a ↦ elim (Option-cases r.error) [
            | inl e ↦ (
              some (sealed crc32_le image size),
              subst
                  (λ z.
                    Keeps crc32_le kept (save image size (erases s size) z)
                      (some (sealed crc32_le image size)))
                  (sym e) (saved image size (erases s size) a),
              saved-Refines crc32_le flash crc_range s c image size h.ready b nc
                  (admissible-IsChecked crc32_le s image size h.ready.partition a).0.large e
                  (failing.reads r.chip),
            )
            | inr (x, e) ↦
                let t = broken-Refines s c kept image size h b nc a e in
                (
                  t.0,
                  subst (λ z. Keeps crc32_le kept (save image size (erases s size) z) t.0) (sym e)
                      t.1,
                  t.2,
                )
          ]
        ]

    -- Every run of saves and restarts refines the abstract store, from states that do: a restart
    -- keeps its configuration, a save that returns NULL makes the image that, a save of an image
    -- that is not admissible changes nothing, and one that fails leaves the configuration from
    -- before, or the first bytes of the new one with erased cells behind them if their checksum is
    -- right, and loses the old one only if the partition had to be erased for the image. Images are
    -- bytes whose checksum, of 32 bits, is not the mark of a free slot; reads and erases succeed; a
    -- write that fails has stored a first part of its bytes; and a restart that leaves the shift at 0
    -- finds the partition erased.
    pub run-Refines :
        {s : Setup} {c : Chip} {events : List Event} {s' : Setup} {c' : Chip}
        (kept : Option (List ℕ))
        → Refines crc32_le flash s c kept
        → Run crc32_le flash s c events s' c'
        → (k : Option (List ℕ)) × KeepsAll crc32_le kept events k × Refines crc32_le flash s' c' k
    run-Refines kept h stops = (kept, keeps_none, h)
    run-Refines kept h (goes step rest) =
        let t = step-Refines kept h step in
        let u = run-Refines t.0 t.2 rest in (u.0, keeps_next t.1 u.1, u.2)
