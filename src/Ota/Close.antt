-- ===== src/Ota/Close.antt =====
-- The handler of TftpOtaServer that ends a transfer: on_close.
use mstd.Prelude.{ℕ, Option, none, some, List, [], ◌∷◌, ◌++◌, overlay, ◌==◌, if◌then◌else◌, codes}
use mstd.Setup.Flash.{Flash}
use mstd.Setup.Save.{
  SaveError, no_partition, image_too_big, image_too_small, size_odd, size_wrong, crc_wrong,
  cannot_erase, cannot_write, Saved, save_config_image, save_config_full,
}
use mstd.Ota.Api.{OtaApi}
use mstd.Ota.Server.{Server, Job, idle, load_fw, load_cfg, load_fcfg, send_cfg, send_fcfg, say}
use mstd.Ota.Handlers.{ota_error}

-- The texts that the save functions return.
unfoldable pub error_text : SaveError → List ℕ
error_text no_partition = codes "No Config partition"
error_text image_too_big = codes "Image too big"
error_text image_too_small = codes "Image too small"
error_text size_odd = codes "Image size is odd"
error_text size_wrong = codes "Image size wrong"
error_text crc_wrong = codes "Image CRC wrong"
error_text cannot_erase = codes "Can't erase partition"
error_text cannot_write = codes "Can't write config"

-- How on_close leaves the handler: it returns, or it waits for the watchdog to restart the board.
pub data Closed (A : Type 0) : Type 0 where
  returns : A → Closed A
  restarts : A → Closed A

abbrev pub save_text : Option SaveError → Option (List ℕ)
save_text none = none
save_text (some e) = some (error_text e)

module _ {flash : Flash} {api : OtaApi} where
  -- The message of a failed transfer is put together in ota_cfg_buffer.
  unfoldable pub report : Server flash api → Option (List ℕ) → Closed (Server flash api)
  report s none = returns s
  report s (some text) = returns (
      say (record s { ota_cfg_buffer = overlay s.ota_cfg_buffer 0 (ota_error text ++ (0 ∷ [])) })
        (ota_error text))

  unfoldable pub close_firmware : Server flash api → Closed (Server flash api)
  close_firmware s =
      let r = api.finish s.slots s.m_ota_handle in
      if s.m_ota_handle == 0
      then report s none
      else if r.0
      then restarts (
          say (record s { m_ota_handle = 0; slots = api.set_boot_partition r.1 s.m_next_partition })
            (codes "Update successful" ++ (10 ∷ codes "Reboot in 5 second")))
      else report (record s { slots = r.1 }) (some (codes "Fail img verification"))

  -- The state after a save, and its text.
  unfoldable pub after_save : Server flash api → Saved flash.Chip → Server flash api
  after_save s r = record s { setup = r.setup; chip = r.chip; ota_cfg_buffer = r.image }

  module _ (crc32_le : ℕ → List ℕ → ℕ) where
    unfoldable pub dispatch_close : Job → Server flash api → Closed (Server flash api)
    dispatch_close load_fw s = close_firmware s
    dispatch_close load_cfg s =
        let r = save_config_image crc32_le flash s.setup s.chip s.ota_cfg_buffer s.cur_ptr in
        report (after_save s r) (save_text r.error)
    dispatch_close load_fcfg s =
        let r = save_config_full crc32_le flash s.setup s.chip s.ota_cfg_buffer in
        report (after_save s r) (save_text r.error)
    dispatch_close idle s = report s none
    dispatch_close send_cfg s = report s none
    dispatch_close send_fcfg s = report s none

    unfoldable pub on_close : Server flash api → Closed (Server flash api)
    on_close s = dispatch_close s.job s
