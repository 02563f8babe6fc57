-- ===== src/Wifi/Events.antt =====
-- The event handlers of wifi_module.cpp. The state holds the module's variables, the number of calls
-- of esp_wifi_connect and the texts drawn.
use mstd.Prelude.{
  ℕ, ◌+◌, ◌<◌, ◌≤◌, Bool, true, false, List, [], ◌∷◌, ◌++◌, ltb, if◌then◌else◌, codes, length,
  length-append, arith,
}

pub record Wifi : Type 0 where
  pub sta_connected : Bool
  pub s_retry_num : ℕ
  pub my_ip : ℕ
  pub connects : ℕ
  pub drawn : List (ℕ × List ℕ)

-- The events of both handlers; an IP event carries the address.
pub data Event : Type 0 where
  sta_start sta_disconnected ap_staconnected ap_stadisconnected other_event : Event
  sta_got_ip : ℕ → Event

abbrev pub max_retries : ℕ
max_retries = 10

abbrev pub oled_sta_row : ℕ
oled_sta_row = 3

-- sizeof(msg)
abbrev pub msg_size : ℕ
msg_size = 43

module _ (inet_ntoa : ℕ → List ℕ) where
  -- The text of strcpy, strcat and strcat, without its final 0.
  unfoldable pub station_text : ℕ → List ℕ
  station_text addr = (codes "STA : " ++ inet_ntoa addr) ++ (10 ∷ codes "AKA : mstdp[.local]")

  unfoldable pub event_handler_wifi : Wifi → Event → Wifi
  event_handler_wifi w sta_start = record w { connects = w.connects + 1 }
  event_handler_wifi w sta_disconnected =
      let w' = record w { sta_connected = false } in
      if ltb w.s_retry_num max_retries
      then record w' { connects = w.connects + 1; s_retry_num = w.s_retry_num + 1 }
      else w'
  event_handler_wifi w ap_staconnected = w
  event_handler_wifi w ap_stadisconnected = w
  event_handler_wifi w other_event = w
  event_handler_wifi w (sta_got_ip addr) = w

  unfoldable pub event_handler_ip : Wifi → Event → Wifi
  event_handler_ip w (sta_got_ip addr) = record w {
    sta_connected = true;
    s_retry_num = 0;
    my_ip = addr;
    drawn = w.drawn ++ ((oled_sta_row, station_text addr) ∷ []);
  }
  event_handler_ip w sta_start = w
  event_handler_ip w sta_disconnected = w
  event_handler_ip w ap_staconnected = w
  event_handler_ip w ap_stadisconnected = w
  event_handler_ip w other_event = w

  -- An event goes to the handler that is registered for it.
  unfoldable pub handle : Wifi → Event → Wifi
  handle w (sta_got_ip addr) = event_handler_ip w (sta_got_ip addr)
  handle w sta_start = event_handler_wifi w sta_start
  handle w sta_disconnected = event_handler_wifi w sta_disconnected
  handle w ap_staconnected = event_handler_wifi w ap_staconnected
  handle w ap_stadisconnected = event_handler_wifi w ap_stadisconnected
  handle w other_event = event_handler_wifi w other_event

  unfoldable pub handle_all : Wifi → List Event → Wifi
  handle_all w [] = w
  handle_all w (e ∷ es) = handle_all (handle w e) es

  -- An address of at most 15 characters leaves room in msg for the text and its final 0.
  pub station_text-fits :
      (addr : ℕ) → length (inet_ntoa addr) ≤ 15 → length (station_text addr) < msg_size
  unfolding station_text
  station_text-fits addr h = omega (
    arith,
    length-append (codes "STA : " ++ inet_ntoa addr) (10 ∷ codes "AKA : mstdp[.local]"),
    length-append (codes "STA : ") (inet_ntoa addr),
  )
