-- ===== src/Setup/Torn.antt =====
-- A record that was written in part: where the scan goes from there, whatever byte it ends at.
use mstd.Prelude.{
  ℕ, zero, suc, ◌+◌, ◌-◌, ◌/◌, ◌≤◌, ◌<◌, ◌≡◌, ◌≢◌, refl, sym, ap, ◌∙◌, ◌⊎◌, inl, inr, some, List,
  Memory, SameOn, arith, ◌==◌, ltb, Bool-cases, ==→eq,
}
use mstd.Setup.Scan.{
  Located, unlocated, max_cfg_size, size_offset, crc_field, size_field, no_crc, record_size,
  eval_crc, accept,
}
use mstd.Setup.Rounds.{skips, records, Passes-round}
use mstd.Setup.Walk.{Walk, next}
use mstd.Setup.Agree.{IsFree, Walk-same}
use mstd.Setup.Sound.{IsRecord}
use mstd.Setup.Shift.{IsEnd, accept-record}
use mstd.Setup.Append.{IsImage, crc_field-stored, size_field-stored}

-- m' is m with the first `cut` bytes of an image of `size` bytes from n on.
pub record IsTorn (m m' image : Memory) (n cut size : ℕ) : Type 0 where
  pub before : SameOn m m' 0 n
  pub stored : (k : ℕ) → k < cut → m' (n + k) ≡ image k
  pub behind : (i : ℕ) → n + cut ≤ i → i < max_cfg_size → m' i ≡ 0xff
  pub partial : cut ≤ size
  pub room : n + size ≤ max_cfg_size

module _ (crc32_le : ℕ → List ℕ → ℕ) (m m' image : Memory) (n cut size : ℕ)
    (end : IsEnd crc32_le m n) (valid : IsImage crc32_le image size)
    (torn : IsTorn m m' image n cut size) (bytes : (i : ℕ) → i < max_cfg_size → m' i < 256) where
  -- Where the records end then: with the configuration that was found before, or with what stands at
  -- n, exactly if it is a record.
  pub record TornEnd : Type 0 where
    pub at : ℕ
    pub now : IsEnd crc32_le m' at
    pub near : (n ≤ at) × (at ≤ n + size)
    pub found :
        ((now.found ≡ end.found) × ¬ IsRecord crc32_le m' n size)
        ⊎ ((now.found ≡ record (end.found) { config = some n; cfg_size = size })
            × IsRecord crc32_le m' n size)

  here_same : Walk crc32_le m' 0 unlocated n end.found
  here_same =
      let large = valid.large in
      let room = torn.room in
      Walk-same crc32_le m m' n torn.before end.free end.aligned (omega arith) end.walk
        (omega arith)

  -- Nothing but erased cells.
  unwritten : IsFree m' n → crc_field m' n ≡ no_crc → TornEnd
  unwritten free erased =
      let room = torn.room in
      record {
        at = n;
        now = record {
          aligned = end.aligned;
          inside = omega arith;
          free = free;
          found = end.found;
          walk = here_same;
        };
        near = omega arith;
        found = inl (refl, λ v. v.not_free erased);
      }

  -- A header without its length field is skipped.
  skipped : cut ≤ 5 → crc_field m' n ≢ no_crc → TornEnd
  skipped short c =
      let large = valid.large in
      let room = torn.room in
      let aligned = end.aligned in
      let high = torn.behind (n + 4 + 1) (omega arith) (omega arith) in
      let unsized : size_field m' n / 256 ≡ 0xff =
        omega (arith, high, bytes (n + 4) (omega arith)) in
      record {
        at = n + 8;
        now = record {
          aligned = omega arith;
          inside = omega arith;
          free = λ i lo hi. torn.behind i (omega arith) hi;
          found = end.found;
          walk =
              next here_same (omega arith) end.aligned
                (Passes-round crc32_le m' n end.found c (skips unsized (omega arith) refl));
        };
        near = omega arith;
        found = inl (refl, λ v. v.whole_field unsized);
      }

  -- A checksum field of -1 is four erased cells.
  erased_byte : crc_field m' n ≡ no_crc → (k : ℕ) → k < 4 → m' (n + k) ≡ 0xff
  erased_byte c k h =
      let room = torn.room in
      let large = valid.large in
      let b0 = bytes n (omega arith) in
      let b1 = bytes (n + 1) (omega arith) in
      let b2 = bytes (n + 2) (omega arith) in
      let b3 = bytes (n + 3) (omega arith) in
      byte k h (omega arith) (omega arith) (omega arith) (omega arith)
    where
      byte :
          (k : ℕ)
          → k < 4
          → m' n ≡ 0xff
          → m' (n + 1) ≡ 0xff
          → m' (n + 2) ≡ 0xff
          → m' (n + 3) ≡ 0xff
          → m' (n + k) ≡ 0xff
      byte zero h e0 e1 e2 e3 = ap m' (omega arith) ∙ e0
      byte (suc zero) h e0 e1 e2 e3 = e1
      byte (suc (suc zero)) h e0 e1 e2 e3 = e2
      byte (suc (suc (suc zero))) h e0 e1 e2 e3 = e3
      byte (suc (suc (suc (suc k)))) h e0 e1 e2 e3 = absurd (omega arith)

  erased_field : cut ≤ 3 → crc_field m' n ≡ no_crc → IsFree m' n
  erased_field short c i lo hi = elim (Bool-cases (ltb i (n + 4))) [
    | inl h ↦ ap m' (omega arith) ∙ erased_byte c (i - n) (ground arith)
    | inr h ↦ torn.behind i (ground arith) hi
  ]

  short_header : cut ≤ 5 → TornEnd
  short_header short = elim (Bool-cases (crc_field m' n == no_crc)) [
    | inr c ↦ skipped short (ground arith)
    | inl c ↦
        let e = ==→eq _ _ c in
        elim (Bool-cases (ltb cut 4)) [
          | inl h ↦ unwritten (erased_field (ground arith) e) e
          | inr h ↦ absurd (
              valid.not_free (sym (crc_field-stored m' image n cut torn.stored (ground arith)) ∙ e))
        ]
  ]

  module _ (fields : 6 ≤ cut) where
    crc_field-torn : crc_field m' n ≡ crc_field image 0
    crc_field-torn = crc_field-stored m' image n cut torn.stored (omega arith)

    size_field-torn : size_field m' n ≡ size_field image 0
    size_field-torn = size_field-stored m' image n cut torn.stored fields

    record_size-torn : record_size (size_field m' n) ≡ size
    record_size-torn = ap record_size size_field-torn ∙ valid.length_field

    whole_field-torn : size_field m' n / 256 ≢ 0xff
    whole_field-torn e = valid.whole_field (ap (λ x. x / 256) (sym size_field-torn) ∙ e)

    -- The record is passed, and accepted if its checksum is right.
    passed :
        (g : Located)
        → accept crc32_le m' n (record_size (size_field m' n)) end.found ≡ g
        → Walk crc32_le m' 0 unlocated (n + size) g
    passed g e =
        let large = valid.large in
        let room = torn.room in
        next here_same (omega arith) end.aligned (
          Passes-round crc32_le m' n end.found (λ e. valid.not_free (sym crc_field-torn ∙ e))
            (records whole_field-torn (omega (arith, record_size-torn)) room (sym e)))

    whole_header_end :
        (g : Located)
        → accept crc32_le m' n (record_size (size_field m' n)) end.found ≡ g
        → ((g ≡ end.found) × ¬ IsRecord crc32_le m' n size)
          ⊎ ((g ≡ record (end.found) { config = some n; cfg_size = size })
              × IsRecord crc32_le m' n size)
        → TornEnd
    whole_header_end g e found = record {
      at = n + size;
      now = record {
        aligned = omega (arith, end.aligned, valid.length_field);
        inside = torn.room;
        free = λ i lo hi. torn.behind i (omega (arith, torn.partial)) hi;
        found = g;
        walk = passed g e;
      };
      near = omega arith;
      found = found;
    }

    accept-torn :
        eval_crc crc32_le m' (n + size_offset) (n + size) ≢ crc_field m' n
        → accept crc32_le m' n (record_size (size_field m' n)) end.found ≡ end.found
    unfolding accept
    accept-torn wrong = rw record_size-torn (ground arith)

    whole_header : TornEnd
    whole_header =
        elim (Bool-cases (eval_crc crc32_le m' (n + size_offset) (n + size) == crc_field m' n)) [
          | inr w ↦
              whole_header_end end.found (accept-torn (ground arith))
                (inl (refl, λ v. absurd (ground (arith, v.checked))))
          | inl w ↦
              let v : IsRecord crc32_le m' n size = record {
                aligned = end.aligned;
                whole_field = whole_field-torn;
                length_field = sym record_size-torn;
                inside = torn.room;
                not_free = λ e. valid.not_free (sym crc_field-torn ∙ e);
                checked = sym (==→eq _ _ w);
              } in
              whole_header_end _ (accept-record crc32_le m' n size end.found v) (inr (refl, v))
        ]

  -- A write behind the last record that is cut off at any byte leaves an end of the records.
  pub torn-TornEnd : TornEnd
  torn-TornEnd = elim (Bool-cases (ltb cut 6)) [
    | inl h ↦ short_header (ground arith)
    | inr h ↦ whole_header (ground arith)
  ]
