-- ===== src/Ota/Partition.antt =====
-- A whole transfer of the partition under the name full.cfg: what an upload hands to the store, and
-- what a download sends.
use mstd.Prelude.{
  ℕ, ◌≤◌, ◌≡◌, refl, ap, ◌∙◌, inr, true, false, none, some, List, [], Memory, window, concat,
  length, buffer_of, arith, str_eq,
}
use mstd.Setup.Flash.{Flash}
use mstd.Setup.Scan.{max_cfg_size}
use mstd.Setup.Save.{Setup, save_config_full}
use mstd.Ota.Api.{OtaApi}
use mstd.Ota.Server.{Server, load_fcfg, send_fcfg, full_cfg, file_job, test_file_name}
use mstd.Ota.Handlers.{on_write, on_read, dispatch_write, dispatch_read, accept_transfer}
use mstd.Ota.Close.{returns, report, after_save, dispatch_close, on_close}
use mstd.Ota.Upload.{HasReceived, write_all-HasReceived}
use mstd.Ota.Download.{IsSending, read_all-start}
use mstd.Ota.Session.{upload, download}

full_write : file_job full_cfg true ≡ load_fcfg
unfolding file_job str_eq
full_write = refl

full_read : file_job full_cfg false ≡ send_fcfg
unfolding file_job str_eq
full_read = refl

module _ {flash : Flash} {api : OtaApi} where
  on_write-full :
      (s : Server flash api)
      → s.setup.cfg_full_loaded ≡ true
      → let r = on_write s full_cfg in
        (r.0 ≡ true)
        × HasReceived r.1 []
        × (r.1.job ≡ load_fcfg)
        × (r.1.setup ≡ s.setup)
        × (r.1.chip ≡ s.chip)
  unfolding on_write test_file_name dispatch_write accept_transfer
  on_write-full s l =
      rw full_write
        (rw l (refl, record { job = inr refl; position = refl; buffer = refl }, refl, refl, refl))

  on_read-full :
      (s : Server flash api)
      → s.setup.cfg_full_loaded ≡ true
      → let r = on_read s full_cfg in
        (r.0 ≡ true) × IsSending r.1 0 max_cfg_size × (r.1.cur_ptr ≡ 0) × (r.1.setup ≡ s.setup)
  unfolding on_read test_file_name dispatch_read accept_transfer
  on_read-full s l = rw full_read (rw l (refl, IsSending.partition refl refl refl refl, refl, refl))

  module _ (crc32_le : ℕ → List ℕ → ℕ) where
    -- A download under the name full.cfg gives the image of the partition that was loaded.
    pub download-full :
        (s : Server flash api)
        → s.setup.cfg_full_loaded ≡ true
        → download crc32_le s full_cfg ≡ some (window s.setup.cfg_full 0 max_cfg_size)
    unfolding download
    download-full s l =
        let r = on_read-full s l in
        rw r.0 (
          read_all-start (on_read s full_cfg).1 0 max_cfg_size r.1 r.2 (omega arith)
          ∙ ap (λ x. some (window x.cfg_full 0 max_cfg_size)) r.3)

    on_close-job :
        (s : Server flash api)
        → s.job ≡ load_fcfg
        → let r = save_config_full crc32_le flash s.setup s.chip s.ota_cfg_buffer in
          r.error ≡ none → on_close crc32_le s ≡ returns (after_save s r)
    unfolding on_close dispatch_close report
    on_close-job s j ok = ground (arith, j, ok)

    on_close-full :
        (s : Server flash api) (setup : Setup) (chip : flash.Chip) (image : Memory)
        → s.job ≡ load_fcfg
        → s.setup ≡ setup
        → s.chip ≡ chip
        → s.ota_cfg_buffer ≡ image
        → let r = save_config_full crc32_le flash setup chip image in
          r.error ≡ none → on_close crc32_le s ≡ returns (after_save s r)
    on_close-full s setup chip image j e f g ok =
        let same : save_config_full crc32_le flash s.setup s.chip s.ota_cfg_buffer
            ≡ save_config_full crc32_le flash setup chip image =
          cc in
        on_close-job s j (ap (λ r. r.error) same ∙ ok) ∙ ap (λ r. returns (after_save s r)) same

    -- An upload of at most 4096 bytes hands save_config_full the bytes that were sent, with 0xFF behind
    -- them.
    pub upload-full :
        (s : Server flash api) (chunks : List (List ℕ))
        → s.setup.cfg_full_loaded ≡ true
        → length (concat chunks) ≤ max_cfg_size
        → let r = save_config_full crc32_le flash s.setup s.chip (buffer_of (concat chunks) 0xff) in
          r.error ≡ none
          → (s' : Server flash api) × (upload crc32_le s full_cfg chunks ≡ some (returns s'))
            × (s'.chip ≡ r.chip)
    unfolding upload after_save
    upload-full s chunks l fits ok =
        let w = on_write-full s l in
        let all = write_all-HasReceived (on_write s full_cfg).1 [] chunks w.1 (omega arith) in
        let close =
          on_close-full all.0 s.setup s.chip (buffer_of (concat chunks) 0xff) (all.3.job ∙ w.2)
            (all.3.setup ∙ w.3) (all.3.chip ∙ w.4) all.2.buffer ok in
        let r = save_config_full crc32_le flash s.setup s.chip (buffer_of (concat chunks) 0xff) in
        (after_save all.0 r, rw w.0 (rw (all.1) (ap some close)), refl)
