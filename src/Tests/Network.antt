-- ===== src/Tests/Network.antt =====
-- Runs of the network set-up.
use mstd.Prelude.{
  replicate, codes, ℕ, min, ◌+◌, ◌*◌, ◌-◌, ◌≤◌, ◌≡◌, refl, false, List, [], ◌∷◌, arith,
}
use mstd.Wifi.Events.{Wifi, sta_start, sta_disconnected, sta_got_ip, max_retries, handle_all}
use mstd.Wifi.Retries.{starts, losses, addresses, connects-handle_all, connects_bound}
use mstd.Wifi.Init.{wifi_init}
use mstd.Wifi.BringUp.{BroughtUp, wifi_init-BroughtUp}
use mstd.Driver.Run.{World}
use mstd.Tests.Drivers.{driver, reliable}
use mstd.Tests.Screen.{display}
use mstd.Tests.Data.{active}

abbrev inet_ntoa : ℕ → List ℕ
inet_ntoa addr = codes "192.168.4.2"

-- The boot loader with an active configuration.
abbrev start : World
start = record { setup = active; oled = display; calls = [] }

abbrev wifi : Wifi
wifi = record { sta_connected = false; s_retry_num = 0; my_ip = 0; connects = 0; drawn = [] }

-- A start and eleven losses connect eleven times.
connects-handle_all_example :
    let es = sta_start ∷ replicate 11 sta_disconnected in
    let w = handle_all inet_ntoa wifi es in
    (w.connects ≡ wifi.connects + starts es + min (losses es) (max_retries - wifi.s_retry_num))
    × (w.s_retry_num ≡ min (wifi.s_retry_num + losses es) max_retries)
connects-handle_all_example =
    connects-handle_all inet_ntoa wifi (sta_start ∷ replicate 11 sta_disconnected) (omega arith)
      refl

connects_bound_example :
    let es = sta_start ∷ sta_disconnected ∷ sta_got_ip 2 ∷ sta_disconnected ∷ [] in
    let w = handle_all inet_ntoa wifi es in
    (w.connects + wifi.s_retry_num ≤ wifi.connects + starts es + max_retries * (addresses es + 1))
    × (w.s_retry_num ≤ max_retries)
connects_bound_example =
    connects_bound inet_ntoa wifi
      (sta_start ∷ sta_disconnected ∷ sta_got_ip 2 ∷ sta_disconnected ∷ []) (omega arith)

wifi_init-BroughtUp_example : BroughtUp driver start (wifi_init driver start)
wifi_init-BroughtUp_example = wifi_init-BroughtUp driver start reliable
