-- ===== src/App/Boot.antt =====
-- What app_main makes of the configuration that was saved last: wifi_init lies between load_config
-- and the server, and writes into cfg_full.
use mathlib.Core.Path.{subst}
use mstd.Prelude.{
  [], ℕ, ◌+◌, ◌^◌, ◌≤◌, ◌<◌, ◌≡◌, ◌≢◌, refl, sym, ap, ◌∙◌, inl, inr, true, none, some, List, Memory,
  IsBytes, window_cong, get_or, get_or-window, ◌==◌, ==→eq, if◌then◌else◌, codes, arith, Bool-cases,
}
use mstd.Setup.Flash.{Flash}
use mstd.Setup.Scan.{size_offset, no_crc, eval_crc, passwd_offset}
use mstd.Setup.Save.{Setup, at_reset, save_config_image, load_config}
use mstd.Setup.Boot.{IsReady}
use mstd.Setup.RoundTrip.{save_config_image-HasSaved}
use mstd.Setup.Restart.{IsActive, load_config-save_config_image}
use mstd.Display.Draw.{Display, I2C}
use mstd.Display.Rows.{lines, draw_rows, draw_text-draw_rows}
use mstd.Wifi.Station.{do_sta, station_setup, terminate_passwd}
use mstd.Wifi.BringUp.{wifi_init-reliable}
use mstd.Driver.Calls.{Driver}
use mstd.Driver.Run.{
  World, Program, done, done-continue, IsReliable, call-then, ignore-then, check-then,
  check-reliable,
}
use mstd.Board.Init.{pins_init, oled_init, oled_start, hw_init}
use mstd.App.Start.{
  oled_ap_row, oled_msg_row, ap_text, serves, initialise_mdns, draw, show_msg, load, serve,
  app_main,
}

-- The last byte of the password, which wifi_init sets to 0, is 0 in the image.
terminate_passwd-IsActive :
    (s : Setup) (image : Memory) (size : ℕ) (a : IsActive s image size)
    → image 103 ≡ 0
    → IsActive (terminate_passwd s a.config) image size
unfolding terminate_passwd
terminate_passwd-IsActive s image size a z = record {
  config = a.config;
  located = a.located;
  cfg_size = a.cfg_size;
  inside = a.inside;
  bytes = window_cong _ s.cfg_full a.config size same ∙ a.bytes;
  loaded = a.loaded;
}
  where
    same :
        (i : ℕ)
        → a.config ≤ i
        → i < a.config + size
        → (if i == a.config + (passwd_offset + 63) then 0 else s.cfg_full i) ≡ s.cfg_full i
    same i lo hi = elim (Bool-cases (i == a.config + (passwd_offset + 63))) [
      | inr b ↦ rw b refl
      | inl b ↦
          let e : i ≡ a.config + 103 = ==→eq _ _ b in
          let at : s.cfg_full (a.config + 103) ≡ image (0 + 103) =
            sym (get_or-window s.cfg_full a.config size 103 0 (omega arith))
            ∙ ap (λ w. get_or w 103 0) a.bytes
            ∙ get_or-window image 0 size 103 0 (omega arith) in
          rw b (sym (ap s.cfg_full e ∙ at ∙ z))
    ]

station_setup-IsActive :
    (s : Setup) (image : Memory) (size : ℕ)
    → IsActive s image size
    → image 103 ≡ 0
    → IsActive (station_setup s).1 image size
unfolding station_setup
station_setup-IsActive s image size a z = elim (Bool-cases (do_sta s)) [
  | inl b ↦ rw (a.located, station_setup) (rw b (terminate_passwd-IsActive s image size a z))
  | inr b ↦ rw (a.located, station_setup) (rw b a)
]

module _ (driver : Driver) (beyond : Memory) where
  -- A step that returns and leaves the store.
  abbrev Passes : Program (Unit {0}) → World → Type 0
  Passes m w = (w1 : World) × (m w ≡ (done tt, w1)) × (w1.setup ≡ w.setup)

  draw-Passes : (row : ℕ) (text : List ℕ) (w : World) → Passes (draw driver beyond row text) w
  unfolding draw
  draw-Passes row text w = (
    record w { oled = draw_rows beyond w.oled row (lines text) },
    rw (draw_text-draw_rows beyond w.oled row text, draw) refl,
    refl,
  )

  hw_init-Passes :
      (i2c : I2C) (w : World) → IsReliable driver → Passes (hw_init driver beyond i2c) w
  unfolding hw_init pins_init oled_init oled_start
  hw_init-Passes i2c w h = (
    _,
    ignore-then driver h _ w _
        ∙ check-then driver h _ _ _
        ∙ check-then driver h _ _ _
        ∙ check-then driver h _ _ _
        ∙ ignore-then driver h _ _ _
        ∙ call-then driver h _ _ _,
    refl,
  )

  initialise_mdns-Passes : (w : World) → IsReliable driver → Passes (initialise_mdns driver) w
  unfolding initialise_mdns
  initialise_mdns-Passes w h = (
    _,
    ignore-then driver h _ w _
        ∙ ignore-then driver h _ _ _
        ∙ ignore-then driver h _ _ _
        ∙ check-reliable driver h _ _,
    refl,
  )

  serve-started :
      (w : World)
      → (w1 : World) × (serve driver beyond true w ≡ (done serves, w1)) × (w1.setup ≡ w.setup)
  unfolding serve show_msg
  serve-started w =
      let p = draw-Passes oled_msg_row (codes "Waiting for update") w in
      (p.0, done-continue _ _ p.1, p.2)

  module _ (crc32_le : ℕ → List ℕ → ℕ) (flash : Flash) where
    open flash use {Chip, read_ok}

    load-loads :
        (w : World) (c : Chip) (s : Setup)
        → load_config crc32_le flash w.setup c ≡ some s
        → load driver beyond crc32_le flash c w ≡ (done tt, record w { setup = s })
    unfolding load
    load-loads w c s e = rw (e, load) refl

    -- The server that app_main starts where the drivers do not fail: load_config and the set-up of
    -- the station have made its configuration.
    pub app_main-serves :
        (i2c : I2C) (w : World) (s : Setup) (c : Chip)
        → IsReliable driver
        → load_config crc32_le flash w.setup c ≡ some s
        → (w1 : World) × (app_main driver beyond crc32_le flash true i2c c w ≡ (done serves, w1))
          × (w1.setup ≡ (station_setup s).1)
    unfolding app_main
    app_main-serves i2c w s c h e =
        let board = hw_init-Passes i2c w h in
        let loaded =
          load-loads board.0 c s (ap (λ x. load_config crc32_le flash x c) board.2 ∙ e) in
        let wifi = wifi_init-reliable driver (record (board.0) { setup = s }) h in
        let mdns = initialise_mdns-Passes _ h in
        let rows = draw-Passes oled_ap_row ap_text _ in
        let server = serve-started rows.0 in
        (
          server.0,
          done-continue _ _ board.1
              ∙ done-continue _ _ loaded
              ∙ done-continue _ _ wifi
              ∙ done-continue _ _ mdns.1
              ∙ ignore-then driver h _ _ _
              ∙ ignore-then driver h _ _ _
              ∙ done-continue _ _ rows.1
              ∙ server.1,
          server.2 ∙ rows.2 ∙ mdns.2,
        )

    -- Where the drivers do not fail, the configuration that a save with no error has stored is the
    -- active one of the server that app_main starts, if the partition can be read and the server
    -- starts, and the image's last password byte is 0: the store was ready, the image is bytes, and
    -- its checksum of 32 bits is not the mark of a free slot.
    pub app_main-save_config_image :
        (crc_range : (bs : List ℕ) → crc32_le 0 bs < 2 ^ 32) (i2c : I2C) (d : Display) (s : Setup)
        (c : Chip) (image : Memory) (size : ℕ) (before : Memory)
        → IsReliable driver
        → IsReady crc32_le flash s c
        → IsBytes image
        → eval_crc crc32_le image size_offset size ≢ no_crc
        → (save_config_image crc32_le flash s c image size).error ≡ none
        → read_ok (save_config_image crc32_le flash s c image size).chip ≡ true
        → image 103 ≡ 0
        → let r = save_config_image crc32_le flash s c image size in
          let start : World = record { setup = at_reset before; oled = d; calls = [] } in
          (w : World) × (app_main driver beyond crc32_le flash true i2c r.chip start
            ≡ (done serves, w))
          × IsActive w.setup r.image size
    app_main-save_config_image range i2c d s c image size before h ready b ne e ok z =
        let r = save_config_image crc32_le flash s c image size in
        let saved = save_config_image-HasSaved crc32_le flash range s c image size ready b ne e in
        let boot =
          load_config-save_config_image crc32_le flash range s c image size before ready b ne e
            ok in
        let start : World = record { setup = at_reset before; oled = d; calls = [] } in
        let run = app_main-serves i2c start boot.0 r.chip h boot.1 in
        (
          run.0,
          run.1,
          subst (λ x. IsActive x r.image size) (sym run.2)
              (station_setup-IsActive boot.0 r.image size boot.2
                (saved.filled.body 103 (omega arith) ∙ z)),
        )
