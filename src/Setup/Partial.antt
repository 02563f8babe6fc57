-- ===== src/Setup/Partial.antt =====
-- Writes that fail half-way: what write_image leaves then.
use mstd.Prelude.{
  ℕ, ◌+◌, ◌≤◌, ◌<◌, ◌≡◌, sym, ap, ◌∙◌, ◌⊎◌, inl, inr, false, List, Memory, IsBytes, window,
  length-window, get_or-window, length, get_or, arith,
}
use mstd.Setup.Flash.{Flash}
use mstd.Setup.Scan.{max_cfg_size}
use mstd.Setup.Agree.{IsFree}
use mstd.Setup.Torn.{IsTorn}

module _ (flash : Flash) where
  open flash use {Chip, contents, write}

  -- A write into erased cells that fails has stored a first part of its bytes, and has left the other
  -- cells. The loss of power during the write is such a failure.
  pub record StoresPart (c : Chip) (a : ℕ) (bs : List ℕ) : Type 0 where
    pub cut : ℕ
    pub partial : cut ≤ length bs
    pub stored :
        (k : ℕ) → k < cut → get_or bs k 0 < 256 → contents (write c a bs).1 (a + k) ≡ get_or bs k 0
    pub rest : (i : ℕ) → (i < a) ⊎ (a + cut ≤ i) → contents (write c a bs).1 i ≡ contents c i

  abbrev pub FailsPartly : Type 0
  FailsPartly =
      (c : Chip) (a : ℕ) (bs : List ℕ)
      → (write c a bs).0 ≡ false
      → ((k : ℕ) → k < length bs → contents c (a + k) ≡ 0xff)
      → StoresPart c a bs

  pub write-IsTorn :
      FailsPartly
      → (c : Chip) (image : Memory) (n size : ℕ) → IsFree (contents c) n
      → n + size ≤ max_cfg_size
      → IsBytes image
      → (write c n (window image 0 size)).0 ≡ false
      → (cut : ℕ) × IsTorn
          (contents c)
          (contents (write c n (window image 0 size)).1)
          image
          n
          cut
          size
  write-IsTorn part c image n size free room b e =
      let bs = window image 0 size in
      let len : length bs ≡ size = length-window image 0 size in
      let at : (k : ℕ) → k < size → get_or bs k 0 ≡ image k =
        λ k h. get_or-window image 0 size k 0 h ∙ ap image (omega arith) in
      let p = part c n bs e (λ k h. free (n + k) (omega arith) (omega arith)) in
      let partial = p.partial in
      (
        p.cut,
        record {
          before = λ i lo hi. sym (p.rest i (inl hi));
          stored = λ k h. p.stored k h (rw (at k (omega arith)) (b k)) ∙ at k (omega arith);
          behind = λ i lo hi. p.rest i (inr lo) ∙ free i (omega arith) hi;
          partial = omega arith;
          room = room;
        },
      )
