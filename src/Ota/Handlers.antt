-- ===== src/Ota/Handlers.antt =====
-- The handlers of TftpOtaServer that start a transfer: on_write and on_read.
use mstd.Prelude.{ℕ, Bool, true, false, none, some, List, [], ◌∷◌, ◌++◌, if◌then◌else◌, codes}
use mstd.Setup.Flash.{Flash}
use mstd.Ota.Api.{OtaApi, OledCall, start_pi}
use mstd.Ota.Server.{
  Server, Job, idle, load_fw, load_cfg, load_fcfg, send_cfg, send_fcfg, oled_msg_pi, say,
  test_file_name,
}

-- "OTA Error:\n" and a text.
abbrev pub ota_error : List ℕ → List ℕ
ota_error text = codes "OTA Error:" ++ (10 ∷ text)

module _ {flash : Flash} {api : OtaApi} where
  -- on_write and on_read answer true for 0 and false for -1.
  unfoldable pub accept_transfer : Server flash api → List ℕ → Bool × Server flash api
  accept_transfer s text =
      (true, record s { oled = s.oled ++ (OledCall.msg text ∷ start_pi oled_msg_pi ∷ []) })

  unfoldable pub refuse_transfer : Server flash api → List ℕ → Bool × Server flash api
  refuse_transfer s text = (false, say s (ota_error text))

  -- The part of on_write for a firmware image.
  unfoldable pub begin_firmware : Server flash api → Bool × Server flash api
  begin_firmware s = elim (api.next_update_partition s.slots) [
    | none ↦ refuse_transfer (record s { m_next_partition = none }) (codes "Fail to prep part")
    | some part ↦
        let s' = record s { m_next_partition = some part; slots = (api.begin s.slots part).1 } in
        elim (api.begin s.slots part).0 [
          | none ↦ refuse_transfer s' (codes "Fail to start part wr")
          | some handle ↦
              accept_transfer (record s' { m_ota_handle = handle }) (codes "Loading firmware")
        ]
  ]

  unfoldable pub dispatch_write : Job → Server flash api → Bool × Server flash api
  dispatch_write idle s = refuse_transfer s (codes "Wrong file name")
  dispatch_write load_fw s = begin_firmware s
  dispatch_write load_cfg s = accept_transfer s (codes "Loading config")
  dispatch_write load_fcfg s =
      if s.setup.cfg_full_loaded
      then accept_transfer s (codes "Loading cfg partition")
      else refuse_transfer s (codes "No cfg part to send")
  dispatch_write send_cfg s = (false, s)
  dispatch_write send_fcfg s = (false, s)

  -- The buffer is filled with 0xFF whatever the name is.
  unfoldable pub on_write : Server flash api → List ℕ → Bool × Server flash api
  on_write s file =
      let s' = record (test_file_name s file true) { ota_cfg_buffer = λ i. 0xff } in
      dispatch_write s'.job s'

  unfoldable pub dispatch_read : Job → Server flash api → Bool × Server flash api
  dispatch_read idle s = refuse_transfer s (codes "Wrong file name")
  dispatch_read send_cfg s = elim s.setup.config [
    | none ↦ refuse_transfer s (codes "No config to send")
    | some p ↦ accept_transfer s (codes "Sending config")
  ]
  dispatch_read send_fcfg s =
      if s.setup.cfg_full_loaded
      then accept_transfer s (codes "Sending cfg partition")
      else refuse_transfer s (codes "No cfg part to send")
  dispatch_read load_fw s = (false, s)
  dispatch_read load_cfg s = (false, s)
  dispatch_read load_fcfg s = (false, s)

  unfoldable pub on_read : Server flash api → List ℕ → Bool × Server flash api
  on_read s file = let s' = test_file_name s file false in dispatch_read s'.job s'
