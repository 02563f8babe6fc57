-- ===== src/Wifi/BringUp.antt =====
-- wifi_init where the drivers do not fail, and where they do.
use mstd.Prelude.{
  length, ℕ, ◌+◌, ◌<◌, ◌≡◌, ◌≢◌, refl, sym, ap, ◌∙◌, inl, inr, ne→==, true, false, Bool-cases,
  Option-cases, Option, none, some, List, [], ◌∷◌, ◌++◌, append_assoc, map, arith, Memory, ◌==◌,
}
use mstd.Setup.Save.{Setup}
use mstd.Setup.Scan.{ssid_offset, passwd_offset}
use mstd.Wifi.Station.{
  strncpy, ssid_size, passwd_size, station_setup-station, Station, do_sta, station, station_setup,
  terminate_passwd,
}
use mstd.Driver.Calls.{
  Driver, Call, Entry, mode_ap, mode_apsta, auth_wep, any_wifi_event, sta_got_ip_event,
  nvs_flash_init, esp_netif_init, esp_event_loop_create_default, esp_netif_create_default_wifi_sta,
  esp_netif_create_default_wifi_ap, esp_wifi_init, esp_wifi_start,
  esp_event_handler_instance_register, esp_wifi_set_mode, set_config_sta, set_config_ap,
}
use mstd.Driver.Run.{
  World, Program, Outcome, continue, done, error_check-then, succeeded, IsReliable, call-then,
  ignore-then, check-then, check-reliable,
}
use mstd.Wifi.Init.{access_point, mend_nvs, configure_station, wifi_init}

-- The calls that bring up the network, with or without a station.
abbrev pub bring_up : Option Station → List Call
bring_up none =
    nvs_flash_init
    ∷ esp_netif_init
    ∷ esp_event_loop_create_default
    ∷ esp_netif_create_default_wifi_ap
    ∷ esp_wifi_init
    ∷ esp_event_handler_instance_register any_wifi_event
    ∷ esp_event_handler_instance_register sta_got_ip_event
    ∷ esp_wifi_set_mode mode_ap
    ∷ set_config_ap access_point
    ∷ esp_wifi_start
    ∷ []
bring_up (some s) =
    nvs_flash_init
    ∷ esp_netif_init
    ∷ esp_event_loop_create_default
    ∷ esp_netif_create_default_wifi_sta
    ∷ esp_netif_create_default_wifi_ap
    ∷ esp_wifi_init
    ∷ esp_event_handler_instance_register any_wifi_event
    ∷ esp_event_handler_instance_register sta_got_ip_event
    ∷ esp_wifi_set_mode mode_apsta
    ∷ set_config_sta auth_wep s
    ∷ set_config_ap access_point
    ∷ esp_wifi_start
    ∷ []

station_setup-none : (s : Setup) → do_sta s ≡ false → station_setup s ≡ (none, s)
unfolding station_setup do_sta
station_setup-none s b = ground arith

do_sta-none : (s : Setup) → s.config ≡ none → do_sta s ≢ true
unfolding do_sta
do_sta-none s c b = ground arith

station_setup-some :
    (s : Setup)
    → do_sta s ≡ true
    → (p : ℕ) × (s.config ≡ some p)
      × (station_setup s ≡ (some (station (terminate_passwd s p) p), terminate_passwd s p))
unfolding station_setup
station_setup-some s b = elim (Option-cases s.config) [
  | inl c ↦ absurd (do_sta-none s c b)
  | inr (p, c) ↦ (p, c, ground arith)
]

module _ (driver : Driver) where
  mend_nvs-then :
      {B : Type 0} (h : IsReliable driver) (w : World) (f : ℕ → Program B)
      → continue (mend_nvs driver 0 w) f ≡ f 0 w
  unfolding mend_nvs
  mend_nvs-then h w f =
      rw
        (
          ne→== 0 driver.no_free_pages (λ e. h.no_free_pages (sym e)),
          ne→== 0 driver.new_version_found (λ e. h.new_version_found (sym e)),
        )
        refl

  configure_station-then :
      {B : Type 0} (h : IsReliable driver) (w : World) (p : ℕ) (f : Unit {0} → Program B)
      → w.setup.config ≡ some p
      → let s = terminate_passwd w.setup p in
        continue (configure_station driver w) f
        ≡ f tt (record w {
          setup = s;
          calls = w.calls ++ (succeeded (set_config_sta auth_wep (station s p)) ∷ []);
        })
  unfolding configure_station
  configure_station-then h w p f c = simp (configure_station, c, check-then driver h)

  -- wifi_init on drivers that do not fail returns.
  pub wifi_init-reliable :
      (w : World)
      → IsReliable driver
      → let r = station_setup w.setup in
        wifi_init driver w
        ≡ (done tt, record w { setup = r.1; calls = w.calls ++ map succeeded (bring_up r.0) })
  unfolding wifi_init
  wifi_init-reliable w h = elim (Bool-cases (do_sta w.setup)) [
    | inr b ↦
        rw (b, station_setup-none w.setup b)
          (call-then driver h _ w _
            ∙ mend_nvs-then h _ _
            ∙ error_check-then _ _
            ∙ check-then driver h _ _ _
            ∙ check-then driver h _ _ _
            ∙ ignore-then driver h _ _ _
            ∙ check-then driver h _ _ _
            ∙ check-then driver h _ _ _
            ∙ check-then driver h _ _ _
            ∙ check-then driver h _ _ _
            ∙ check-then driver h _ _ _
            ∙ check-reliable driver h _ _
            ∙ ap (λ (es : List Entry). (done tt, record w { calls = es })) (simp append_assoc))
    | inl b ↦
        let t = station_setup-some w.setup b in
        rw (b, t.2)
          (call-then driver h _ w _
            ∙ mend_nvs-then h _ _
            ∙ error_check-then _ _
            ∙ check-then driver h _ _ _
            ∙ check-then driver h _ _ _
            ∙ ignore-then driver h _ _ _
            ∙ ignore-then driver h _ _ _
            ∙ check-then driver h _ _ _
            ∙ check-then driver h _ _ _
            ∙ check-then driver h _ _ _
            ∙ check-then driver h _ _ _
            ∙ configure_station-then h _ t.0 _ t.1
            ∙ check-then driver h _ _ _
            ∙ check-reliable driver h _ _
            ∙ ap
                (λ (es : List Entry).
                  (done tt, record w { setup = terminate_passwd w.setup t.0; calls = es }))
                (simp append_assoc))
  ]

  -- For a record that names a network a station is set up before the access point.
  pub wifi_init-station :
      (w : World) (p i : ℕ)
      → IsReliable driver
      → w.setup.config ≡ some p
      → w.setup.cfg_full (p + ssid_offset) ≢ 0
      → i ≢ p + (passwd_offset + 63)
      → let s = (station_setup w.setup).1 in
        let ssid = strncpy ssid_size s.cfg_full (p + ssid_offset) in
        (password : List ℕ) × (wifi_init driver w ≡ (
          done tt,
          record w {
            setup = s;
            calls =
                w.calls
                ++ map succeeded
                    (bring_up (some (record { ssid = ssid; password = some password })));
          },
        ))
        × (length ssid ≡ ssid_size)
        × (length password < passwd_size)
        × (s.located ≡ w.setup.located)
        × (s.cfg_full i ≡ w.setup.cfg_full i)
  wifi_init-station w p i h c named k =
      let t = station_setup-station w.setup p i c named k in
      let s = (station_setup w.setup).1 in
      (
        t.0,
        wifi_init-reliable w h
            ∙ ap
                (λ (x : Option Station).
                  (done tt, record w { setup = s; calls = w.calls ++ map succeeded (bring_up x) }))
                t.1,
        t.2,
        t.3,
        t.4,
        t.5,
      )

  -- What wifi_init comes to: the access point alone, or a station as well.
  pub data BroughtUp (w : World) (r : Outcome (Unit {0}) × World) : Type 0 where
    alone :
        ((p : ℕ) → w.setup.config ≡ some p → w.setup.cfg_full (p + ssid_offset) ≡ 0)
        → r ≡ (done tt, record w { calls = w.calls ++ map succeeded (bring_up none) })
        → BroughtUp w r
    with_station :
        (p : ℕ) (s : Station) (password : List ℕ)
        → w.setup.config ≡ some p
        → w.setup.cfg_full (p + ssid_offset) ≢ 0
        → r.0 ≡ done tt
        → r.1.calls ≡ w.calls ++ map succeeded (bring_up (some s))
        → s.ssid ≡ strncpy ssid_size r.1.setup.cfg_full (p + ssid_offset)
        → length s.ssid ≡ ssid_size
        → s.password ≡ some password
        → length password < passwd_size
        → r.1.setup.located ≡ w.setup.located
        → ((i : ℕ) → i ≢ p + (passwd_offset + 63) → r.1.setup.cfg_full i ≡ w.setup.cfg_full i)
        → BroughtUp w r

  -- Where the drivers do not fail, wifi_init returns. With no configuration, or one that names no
  -- network, it has brought up the access point alone, in the mode for that, and changed nothing
  -- else. For a configuration that names a network it has set up a station before the access point,
  -- in the mode for both: the driver is given 32 bytes of the name and a password that ends within
  -- its 64 bytes. Of the image at most the last byte of that password changes then, and the located
  -- configuration stays.
  pub wifi_init-BroughtUp : (w : World) → IsReliable driver → BroughtUp w (wifi_init driver w)
  unfolding do_sta
  wifi_init-BroughtUp w h = elim (Option-cases w.setup.config) [
    | inl c ↦
        let t = station_setup-none w.setup (rw c refl) in
        alone (λ p e. ground (arith, c, e)) (rw (wifi_init-reliable w h, t) refl)
    | inr (p, c) ↦ elim (Bool-cases (w.setup.cfg_full (p + ssid_offset) == 0)) [
      | inl b ↦
          let t = station_setup-none w.setup (rw (c, b) refl) in
          alone (λ q e. ground (arith, c, e, b)) (rw (wifi_init-reliable w h, t) refl)
      | inr b ↦
          let named : w.setup.cfg_full (p + ssid_offset) ≢ 0 = ground (arith, b) in
          let t = wifi_init-station w p (p + passwd_offset) h c named (omega arith) in
          let same = λ (i : ℕ) (k : i ≢ p + (passwd_offset + 63)).
            (station_setup-station w.setup p i c named k) in
          with_station p
            (record {
              ssid = strncpy ssid_size (station_setup w.setup).1.cfg_full (p + ssid_offset);
              password = some t.0;
            })
            t.0 c named (ap (λ r. r.0) t.1) (ap (λ r. r.1.calls) t.1)
            (ap (λ (m : Memory). strncpy ssid_size m (p + ssid_offset))
              (sym (ap (λ r. r.1.setup.cfg_full) t.1)))
            t.2 refl t.3 (ap (λ r. r.1.setup.located) t.1 ∙ t.4)
            (λ i k. ap (λ r. r.1.setup.cfg_full i) t.1 ∙ (same i k).5)
    ]
  ]
