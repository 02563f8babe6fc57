-- ===== src/Ota/Api.antt =====
-- What the update server calls: the firmware update functions esp_ota_*, as states of the firmware
-- slots, and the display.
use mstd.Prelude.{ℕ, Bool, Option, List}

pub record OtaApi : Type 1 where
  pub Slots : Type 0
  -- esp_ota_get_next_update_partition(esp_ota_get_running_partition()); none is a null pointer
  pub next_update_partition : Slots → Option ℕ
  -- esp_ota_begin: the handle, or an error
  pub begin : Slots → ℕ → Option ℕ × Slots
  -- esp_ota_write and esp_ota_end: ESP_OK
  pub write : Slots → ℕ → List ℕ → Bool × Slots
  pub finish : Slots → ℕ → Bool × Slots
  pub set_boot_partition : Slots → Option ℕ → Slots

-- The calls of the display: msg, start_pi and inc_pi.
pub data OledCall : Type 0 where
  msg : List ℕ → OledCall
  start_pi : ℕ → OledCall
  inc_pi : OledCall
