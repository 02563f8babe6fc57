-- ===== src/Ota/Session.antt =====
-- A whole transfer of a configuration: what an upload hands to the store, and what a download sends.
use mstd.Prelude.{
  codes, ℕ, ◌≤◌, ◌≡◌, refl, ap, ◌∙◌, inl, true, false, Option, none, some, List, [], Memory, window,
  concat, length, buffer_of, if◌then◌else◌, arith,
}
use mstd.Setup.Flash.{Flash}
use mstd.Setup.Scan.{max_cfg_size}
use mstd.Setup.Save.{Setup, save_config_image}
use mstd.Setup.Restart.{IsActive}
use mstd.Ota.Api.{OtaApi}
use mstd.Ota.Server.{Server, load_cfg, send_cfg, file_job, test_file_name}
use mstd.Ota.Handlers.{on_write, on_read, dispatch_write, dispatch_read, accept_transfer}
use mstd.Ota.Close.{Closed, returns, report, after_save, dispatch_close, on_close}
use mstd.Ota.Upload.{write_all, HasReceived, write_all-HasReceived}
use mstd.Ota.Download.{read_all, IsSending, read_all-start}

module _ {flash : Flash} {api : OtaApi} where
  pub on_write-load_cfg :
      (s : Server flash api) (file : List ℕ)
      → file_job file true ≡ load_cfg
      → let r = on_write s file in
        (r.0 ≡ true)
        × HasReceived r.1 []
        × (r.1.job ≡ load_cfg)
        × (r.1.setup ≡ s.setup)
        × (r.1.chip ≡ s.chip)
  unfolding on_write test_file_name dispatch_write accept_transfer
  on_write-load_cfg s file e =
      rw e (refl, record { job = inl refl; position = refl; buffer = refl }, refl, refl, refl)

module _ {flash : Flash} {api : OtaApi} (crc32_le : ℕ → List ℕ → ℕ) where
  -- The library's calls for an upload: on_write, and if it agrees the chunks and on_close.
  unfoldable pub upload :
      Server flash api → List ℕ → List (List ℕ) → Option (Closed (Server flash api))
  upload s file chunks =
      let (agreed, s1) = on_write s file in
      if agreed
      then elim (write_all s1 chunks) [ none ↦ none | some s2 ↦ some (on_close crc32_le s2) ]
      else none

  -- And for a download: on_read and the blocks.
  unfoldable pub download : Server flash api → List ℕ → Option (List ℕ)
  download s file = let (agreed, s1) = on_read s file in if agreed then read_all 9 s1 else none

  on_close-load_cfg :
      (s : Server flash api)
      → s.job ≡ load_cfg
      → let r = save_config_image crc32_le flash s.setup s.chip s.ota_cfg_buffer s.cur_ptr in
        r.error ≡ none → on_close crc32_le s ≡ returns (after_save s r)
  unfolding on_close dispatch_close report
  on_close-load_cfg s j e = ground (arith, j, e)

  on_close-received :
      (s : Server flash api) (setup : Setup) (chip : flash.Chip) (image : Memory) (size : ℕ)
      → s.job ≡ load_cfg
      → s.setup ≡ setup
      → s.chip ≡ chip
      → s.ota_cfg_buffer ≡ image
      → s.cur_ptr ≡ size
      → let r = save_config_image crc32_le flash setup chip image size in
        r.error ≡ none → on_close crc32_le s ≡ returns (after_save s r)
  on_close-received s setup chip image size j e f g h ok =
      let same : save_config_image crc32_le flash s.setup s.chip s.ota_cfg_buffer s.cur_ptr
          ≡ save_config_image crc32_le flash setup chip image size =
        cc in
      on_close-load_cfg s j (ap (λ r. r.error) same ∙ ok) ∙ ap (λ r. returns (after_save s r)) same

  dispatch_read-config :
      (s : Server flash api) {p : ℕ}
      → s.setup.config ≡ some p
      → dispatch_read send_cfg s ≡ accept_transfer s (codes "Sending config")
  unfolding dispatch_read
  dispatch_read-config s c = ground arith

  on_read-send_cfg :
      (s : Server flash api) (file : List ℕ) {p size : ℕ}
      → file_job file false ≡ send_cfg
      → s.setup.config ≡ some p
      → s.setup.cfg_size ≡ size
      → let r = on_read s file in
        (r.0 ≡ true) × IsSending r.1 p size × (r.1.cur_ptr ≡ 0) × (r.1.setup ≡ s.setup)
  unfolding on_read test_file_name accept_transfer
  on_read-send_cfg s file e c z = rw e (
      rw (dispatch_read-config (record s { job = send_cfg; cur_ptr = 0 }) c)
        (refl, IsSending.config refl c z, refl, refl))

  -- A download under a configuration's name gives the bytes of the active configuration.
  pub download-IsActive :
      (s : Server flash api) (file : List ℕ) (image : Memory) (size : ℕ)
      → file_job file false ≡ send_cfg
      → IsActive s.setup image size
      → download s file ≡ some (window image 0 size)
  unfolding download
  download-IsActive s file image size e a =
      let r = on_read-send_cfg s file e a.located a.cfg_size in
      let inside = a.inside in
      rw r.0 (
        read_all-start (on_read s file).1 a.config size r.1 r.2 (omega arith)
        ∙ ap some (ap (λ x. window x.cfg_full a.config size) r.3 ∙ a.bytes))

  -- An upload of at most 4096 bytes under a name for a configuration hands save_config_image the
  -- bytes that were sent, cut up as they may be, and leaves its result.
  pub upload-save_config_image :
      (s : Server flash api) (file : List ℕ) (chunks : List (List ℕ))
      → file_job file true ≡ load_cfg
      → length (concat chunks) ≤ max_cfg_size
      → let bytes = concat chunks in
        let r =
          save_config_image crc32_le flash s.setup s.chip (buffer_of bytes 0xff) (length bytes) in
        r.error ≡ none
        → (s' : Server flash api) × (upload s file chunks ≡ some (returns s'))
          × (s'.setup ≡ r.setup)
          × (s'.chip ≡ r.chip)
  unfolding upload after_save
  upload-save_config_image s file chunks e fits ok =
      let w = on_write-load_cfg s file e in
      let all = write_all-HasReceived (on_write s file).1 [] chunks w.1 (omega arith) in
      let close =
        on_close-received all.0 s.setup s.chip (buffer_of (concat chunks) 0xff)
          (length (concat chunks)) (all.3.job ∙ w.2) (all.3.setup ∙ w.3) (all.3.chip ∙ w.4)
          all.2.buffer all.2.position ok in
      let r =
        save_config_image crc32_le flash s.setup s.chip (buffer_of (concat chunks) 0xff)
          (length (concat chunks)) in
      (after_save all.0 r, rw w.0 (rw (all.1) (ap some close)), refl, refl)
