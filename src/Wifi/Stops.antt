-- ===== src/Wifi/Stops.antt =====
-- wifi_init stops at the first error that it does not mend.
use mstd.Prelude.{
  ℕ, refl, sym, inl, inr, Bool, true, false, Bool-cases, append-nil, [], ◌∷◌, ◌++◌, Option, none,
  some, ◌==◌, ◌||◌, if◌then◌else◌,
}
use mstd.Wifi.Station.{station, terminate_passwd, do_sta}
use mstd.Driver.Calls.{Driver, nvs_flash_init, nvs_flash_erase, set_config_sta, auth_wep}
use mstd.Driver.Run.{World, Outcome, Program, done, pure, continue, error_check, call, check}
use mstd.Driver.Stops.{
  Ends, Stops, quiet, join, continue-Ends, regroup, ignore-Ends, ignore-Stops, check-Ends,
  checked-Ends, check-Stops,
}
use mstd.Wifi.Init.{mend_nvs, configure_station, wifi_init}

module _ (driver : Driver) where
  -- The storage: the error that counts is the one of the second try, where there is one.
  nvs-Ends :
      {B : Type 0} (w : World) (f : Unit {0} → Program B)
      → Stops (f tt)
      → Ends w (
          continue (call driver nvs_flash_init w) (λ ret w1.
            continue (mend_nvs driver ret w1) (λ ret' w2. continue (error_check ret' w2) f)))
  unfolding mend_nvs call
  nvs-Ends w f g =
      let ret = driver.answer w.calls nvs_flash_init in
      let w1 : World = record w {
        calls = w.calls ++ (record { call = nvs_flash_init; answer = ret } ∷ []);
      } in
      elim (Bool-cases (ret == driver.no_free_pages || ret == driver.new_version_found)) [
        | inl b ↦ rw b (
            regroup (check driver nvs_flash_erase w1) (λ x. call driver nvs_flash_init)
              (λ n w2. continue (error_check n w2) f)
              (join _ (record { call = nvs_flash_init; answer = ret } ∷ []) refl (λ x. cc, tt)
                (check-Ends driver nvs_flash_erase w1
                  (λ x w2.
                    continue (call driver nvs_flash_init w2)
                      (λ n w3. continue (error_check n w3) f))
                  (λ w2. checked-Ends driver nvs_flash_init w2 f g))))
        | inr b ↦ rw b (checked-Ends driver nvs_flash_init w f g)
      ]

  configure_station-Stops : Stops (configure_station driver)
  unfolding configure_station
  configure_station-Stops w = at w.setup.config
    where
      at :
          (config : Option ℕ)
          → Ends w (elim config as (λ x. Outcome (Unit {0}) × World) [
            | none ↦ (done tt, w)
            | some p ↦
                let s = terminate_passwd w.setup p in
                check driver (set_config_sta auth_wep (station s p)) (record w { setup = s })
          ])
      at none = quiet (done tt) (λ x. cc) refl
      at (some p) = join _ [] (sym (append-nil w.calls)) tt (check-Stops driver _ _)

  -- A step that is left out without a station.
  if-Ends :
      (b : Bool) (m : Program (Unit {0})) (w : World) (f : Unit {0} → Program (Unit {0}))
      → Stops m
      → Stops (f tt)
      → Ends w (continue ((if b then m else pure tt) w) f)
  if-Ends true m w f h g = continue-Ends (m w) f (h w) (λ a. g)
  if-Ends false m w f h g = g w

  -- wifi_init stops at an error.
  pub wifi_init-Stops : Stops (wifi_init driver)
  unfolding wifi_init
  wifi_init-Stops w = nvs-Ends w _ (λ w1. check-Ends driver _ w1 _ (λ w2.
      check-Ends driver _ w2 _ (λ w3.
        if-Ends (do_sta w.setup) _ w3 _ (ignore-Stops driver _ refl) (λ w4.
          ignore-Ends driver _ w4 _ refl (λ w5. check-Ends driver _ w5 _ (λ w6.
            check-Ends driver _ w6 _ (λ w7. check-Ends driver _ w7 _ (λ w8.
              check-Ends driver _ w8 _ (λ w9.
                if-Ends (do_sta w.setup) _ w9 _ configure_station-Stops
                  (λ w10. check-Ends driver _ w10 _ (check-Stops driver _)))))))))))
