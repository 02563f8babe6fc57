-- ===== src/App/Stops.antt =====
-- app_main stops at the first error that it does not mend.
use mstd.Prelude.{ℕ, refl, Bool, true, false, Option, none, some, List, Memory}
use mstd.Setup.Flash.{Flash}
use mstd.Setup.Save.{Setup, load_config}
use mstd.Display.Draw.{Display, I2C, draw_text}
use mstd.Driver.Calls.{Driver}
use mstd.Driver.Run.{World, Outcome, done, endless}
use mstd.Driver.Stops.{
  Ends, Stops, quiet, continue-Ends, call-Ends, ignore-Ends, check-Ends, check-Stops,
}
use mstd.Board.Init.{pins_init, oled_init, oled_start, hw_init}
use mstd.Wifi.Stops.{wifi_init-Stops}
use mstd.App.Start.{initialise_mdns, draw, show_msg, serve, load, app_main}

module _ (driver : Driver) (beyond : Memory) where
  hw_init-Stops : (i2c : I2C) → Stops (hw_init driver beyond i2c)
  unfolding hw_init pins_init oled_init oled_start
  hw_init-Stops i2c w = ignore-Ends driver _ w _ refl (λ w1. check-Ends driver _ w1 _ (λ w2.
      check-Ends driver _ w2 _ (λ w3. check-Ends driver _ w3 _ (λ w4.
        ignore-Ends driver _ w4 _ refl
          (λ w5. call-Ends driver _ w5 _ refl (λ n w6. quiet (done tt) (λ x. cc) refl))))))

  initialise_mdns-Stops : Stops (initialise_mdns driver)
  unfolding initialise_mdns
  initialise_mdns-Stops w = ignore-Ends driver _ w _ refl (λ w1.
      ignore-Ends driver _ w1 _ refl (λ w2. ignore-Ends driver _ w2 _ refl (check-Stops driver _)))

  draw-Stops : (row : ℕ) (text : List ℕ) → Stops (draw driver beyond row text)
  unfolding draw
  draw-Stops row text w = at (draw_text beyond w.oled row text)
    where
      at :
          (d : Option Display)
          → Ends w (elim d as (λ x. Outcome (Unit {0}) × World) [
            | none ↦ (endless, w)
            | some d' ↦ (done tt, record w { oled = d' })
          ])
      at none = quiet endless (λ x. cc) refl
      at (some d') = quiet (done tt) (λ x. cc) refl

  serve-Stops : (started : Bool) → Stops (serve driver beyond started)
  unfolding serve show_msg
  serve-Stops true w = continue-Ends _ _ (draw-Stops _ _ w) (λ x w1. quiet _ (λ y. cc) refl)
  serve-Stops false w = continue-Ends _ _ (draw-Stops _ _ w) (λ x w1. quiet _ (λ y. cc) refl)

  module _ (crc32_le : ℕ → List ℕ → ℕ) (flash : Flash) where
    load-Stops : (c : flash.Chip) → Stops (load driver beyond crc32_le flash c)
    unfolding load
    load-Stops c w = at (load_config crc32_le flash w.setup c)
      where
        at :
            (s : Option Setup)
            → Ends w (elim s as (λ x. Outcome (Unit {0}) × World) [
              | none ↦ (endless, w)
              | some s' ↦ (done tt, record w { setup = s' })
            ])
        at none = quiet endless (λ x. cc) refl
        at (some s') = quiet (done tt) (λ x. cc) refl

    -- Whatever the drivers answer: if app_main aborts, then in the call that was made last, which
    -- has failed; and no checked call before it has failed, nor any if app_main does not abort. An
    -- error of nvs_flash_init may be mended, and calls whose answers the program drops do not count.
    pub app_main-Stops :
        (started : Bool) (i2c : I2C) (c : flash.Chip) (w : World)
        → Ends w (app_main driver beyond crc32_le flash started i2c c w)
    unfolding app_main
    app_main-Stops started i2c c w = continue-Ends _ _ (hw_init-Stops i2c w) (λ x1 w1.
        continue-Ends _ _ (load-Stops c w1) (λ x2 w2.
          continue-Ends _ _ (wifi_init-Stops driver w2) (λ x3 w3.
            continue-Ends _ _ (initialise_mdns-Stops w3) (λ x4 w4.
              ignore-Ends driver _ w4 _ refl (λ w5.
                ignore-Ends driver _ w5 _ refl
                  (λ w6. continue-Ends _ _ (draw-Stops _ _ w6) (λ x7. serve-Stops started)))))))
