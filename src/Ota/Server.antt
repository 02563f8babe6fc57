-- ===== src/Ota/Server.antt =====
-- class TftpOtaServer of tftp_ota_server.h: its state, the job that a file name asks for, and the
-- advance of the progress indicator.
use mstd.Prelude.{
  ℕ, ◌-◌, ◌*◌, ◌/◌, ◌%◌, ◌^◌, Bool, Option, none, some, List, [], ◌∷◌, ◌++◌, Memory, replicate,
  add_size, ◌==◌, if◌then◌else◌, codes, str_eq, strrchr,
}
use mstd.Setup.Flash.{Flash}
use mstd.Setup.Save.{Setup}
use mstd.Setup.Scan.{max_cfg_size}
use mstd.Ota.Api.{OtaApi, OledCall, msg, inc_pi}

pub data Job : Type 0 where
  idle load_fw load_cfg load_fcfg send_cfg send_fcfg : Job

-- hardware.h
abbrev pub oled_msg_pi : ℕ
oled_msg_pi = 6

abbrev pub total_pi : ℕ
total_pi = 2048

module _ (flash : Flash) (api : OtaApi) where
  -- The fields of the class, the static buffer ota_cfg_buffer, the state of the modules that the
  -- handlers call, and the calls of the display so far, oldest first.
  pub record Server : Type 0 where
    pub job : Job
    pub cur_ptr : ℕ
    pub m_ota_handle : ℕ
    pub m_next_partition : Option ℕ
    pub ota_cfg_buffer : Memory
    pub setup : Setup
    pub chip : flash.Chip
    pub slots : api.Slots
    pub oled : List OledCall

abbrev pub full_cfg : List ℕ
full_cfg = codes "full.cfg"

-- The job for a file name with the given extension.
unfoldable pub extension_job : List ℕ → Bool → Job
extension_job p is_write =
    if str_eq p (codes ".bin")
    then (if is_write then load_fw else idle)
    else if str_eq p (codes ".cfg")
    then (if is_write then load_cfg else send_cfg)
    else idle

unfoldable pub file_job : List ℕ → Bool → Job
unfolding extension_job
file_job fname is_write =
    if str_eq fname full_cfg
    then (if is_write then load_fcfg else send_fcfg)
    else elim (strrchr fname b'.') [ none ↦ idle | some p ↦ extension_job p is_write ]

-- The size that the indicator is scaled to.
unfoldable pub pi_size : Job → ℕ → ℕ
pi_size load_fw cfg_size = 1024 * 1024 * 4
pi_size load_cfg cfg_size = max_cfg_size
pi_size load_fcfg cfg_size = max_cfg_size
pi_size send_fcfg cfg_size = max_cfg_size
pi_size send_cfg cfg_size = cfg_size
pi_size idle cfg_size = 0

-- cur_ptr * TOTAL_PI / total_size, in size_t
abbrev pub pi_position : ℕ → ℕ → ℕ
pi_position cur total = cur * total_pi % 2 ^ 32 / total

module _ {flash : Flash} {api : OtaApi} where
  unfoldable pub say : Server flash api → List ℕ → Server flash api
  say s text = record s { oled = s.oled ++ (msg text ∷ []) }

  -- test_file_name also starts the transfer at 0.
  unfoldable pub test_file_name : Server flash api → List ℕ → Bool → Server flash api
  test_file_name s fname is_write = record s { job = file_job fname is_write; cur_ptr = 0 }

  -- The loop calls inc_pi as often as the position has grown.
  unfoldable pub inc_cur_ptr : Server flash api → ℕ → Server flash api
  inc_cur_ptr s increment =
      let total_size = pi_size s.job s.setup.cfg_size in
      let cur = add_size s.cur_ptr increment in
      let steps = pi_position cur total_size - pi_position s.cur_ptr total_size in
      if total_size == 0
      then record s { cur_ptr = cur }
      else record s { cur_ptr = cur; oled = s.oled ++ replicate steps inc_pi }
