-- ===== src/Ota/Firmware.antt =====
-- When the boot partition is switched.
use mstd.Prelude.{
  ℕ, ◌≡◌, refl, sym, ◌∙◌, ◌≢◌, ◌⊎◌, inl, inr, true, false, Option, none, some, List, ◌==◌, arith,
  Bool-cases, ==→eq,
}
use mstd.Setup.Flash.{Flash}
use mstd.Ota.Api.{OtaApi}
use mstd.Ota.Server.{Server, Job, idle, load_fw, load_cfg, load_fcfg, send_cfg, send_fcfg, say}
use mstd.Ota.Close.{
  Closed, returns, restarts, report, close_firmware, after_save, dispatch_close, on_close,
}

module _ {flash : Flash} {api : OtaApi} where
  -- How a transfer's end leaves the firmware slots.
  pub data SlotsAfter (s : Server flash api) : Closed (Server flash api) → Type 0 where
    switched :
        {s' : Server flash api}
        → s.job ≡ load_fw
        → s.m_ota_handle ≢ 0
        → (api.finish s.slots s.m_ota_handle).0 ≡ true
        → s'.slots ≡ api.set_boot_partition (api.finish s.slots s.m_ota_handle).1 s.m_next_partition
        → s'.m_ota_handle ≡ 0
        → SlotsAfter s (restarts s')
    rejected :
        {s' : Server flash api}
        → s.job ≡ load_fw
        → s.m_ota_handle ≢ 0
        → (api.finish s.slots s.m_ota_handle).0 ≡ false
        → s'.slots ≡ (api.finish s.slots s.m_ota_handle).1
        → SlotsAfter s (returns s')
    untouched :
        {s' : Server flash api}
        → (s.job ≢ load_fw) ⊎ (s.m_ota_handle ≡ 0)
        → s'.slots ≡ s.slots
        → SlotsAfter s (returns s')

  report-slots :
      (s s1 : Server flash api) (text : Option (List ℕ))
      → ((s' : Server flash api) → s'.slots ≡ s1.slots → SlotsAfter s (returns s'))
      → SlotsAfter s (report s1 text)
  unfolding report say
  report-slots s s1 none k = k s1 refl
  report-slots s s1 (some text) k = k _ refl

  close_firmware-SlotsAfter :
      (s : Server flash api) → s.job ≡ load_fw → SlotsAfter s (close_firmware s)
  unfolding close_firmware say
  close_firmware-SlotsAfter s j = elim (Bool-cases (s.m_ota_handle == 0)) [
    | inl z ↦ rw z (report-slots s s none (λ s' e. untouched (inr (==→eq _ _ z)) e))
    | inr z ↦
        let open_handle : s.m_ota_handle ≢ 0 = ground arith in
        elim (Bool-cases (api.finish s.slots s.m_ota_handle).0) [
          | inl f ↦ rw z (rw f (switched j open_handle f refl refl))
          | inr f ↦ rw z (rw f (report-slots s _ _ (λ s' e. rejected j open_handle f e)))
        ]
  ]

  module _ (crc32_le : ℕ → List ℕ → ℕ) where
    dispatch_close-SlotsAfter :
        (j : Job) (s : Server flash api) → s.job ≡ j → SlotsAfter s (dispatch_close crc32_le j s)
    unfolding dispatch_close after_save
    dispatch_close-SlotsAfter load_fw s e = close_firmware-SlotsAfter s e
    dispatch_close-SlotsAfter load_cfg s e =
        report-slots s _ _ (λ s' h. untouched (inl (λ x. cc (sym e ∙ x))) h)
    dispatch_close-SlotsAfter load_fcfg s e =
        report-slots s _ _ (λ s' h. untouched (inl (λ x. cc (sym e ∙ x))) h)
    dispatch_close-SlotsAfter idle s e =
        report-slots s _ _ (λ s' h. untouched (inl (λ x. cc (sym e ∙ x))) h)
    dispatch_close-SlotsAfter send_cfg s e =
        report-slots s _ _ (λ s' h. untouched (inl (λ x. cc (sym e ∙ x))) h)
    dispatch_close-SlotsAfter send_fcfg s e =
        report-slots s _ _ (λ s' h. untouched (inl (λ x. cc (sym e ∙ x))) h)

    -- The end of a transfer switches the boot partition, and restarts the board, exactly if it was a
    -- firmware transfer with an open handle whose image esp_ota_end accepted. An image that is not
    -- accepted leaves the boot partition; any other transfer, and one with no open handle, leaves
    -- the firmware slots alone.
    pub on_close-SlotsAfter : (s : Server flash api) → SlotsAfter s (on_close crc32_le s)
    unfolding on_close
    on_close-SlotsAfter s = dispatch_close-SlotsAfter s.job s refl
