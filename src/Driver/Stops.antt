-- ===== src/Driver/Stops.antt =====
-- ESP_ERROR_CHECK stops a program at the first error.
use mstd.Prelude.{
  ℕ, ◌≡◌, ◌≢◌, refl, sym, ap, ◌∙◌, Bool, true, false, List, [], ◌∷◌, ◌++◌, ◌==◌, append-nil,
  append_assoc, Bool-cases, inl, inr, arith,
}
use mstd.Driver.Calls.{
  Call, Entry, Driver, nvs_flash_init, esp_netif_create_default_wifi_sta,
  esp_netif_create_default_wifi_ap, mdns_init, netbiosns_init, mdns_hostname_set,
  mdns_instance_name_set, netbiosns_set_name, esp_task_wdt_add, gpio_set_level, i2c_new_master_bus,
}
use mstd.Driver.Run.{
  World, Outcome, done, aborts, endless, Program, continue, error_check, call, ignore, check,
}

-- The calls whose answers the program looks at every time, and stops at an error. An error of
-- nvs_flash_init may be mended.
abbrev pub is_checked : Call → Bool
is_checked nvs_flash_init = false
is_checked esp_netif_create_default_wifi_sta = false
is_checked esp_netif_create_default_wifi_ap = false
is_checked mdns_init = false
is_checked netbiosns_init = false
is_checked (mdns_hostname_set name) = false
is_checked (mdns_instance_name_set name) = false
is_checked (netbiosns_set_name name) = false
is_checked esp_task_wdt_add = false
is_checked (gpio_set_level pin level) = false
is_checked (i2c_new_master_bus sda scl) = false
is_checked other = true

-- No checked call has failed.
abbrev pub AllOk : List Entry → Type 0
AllOk [] = Unit {0}
AllOk (e ∷ es) = (is_checked e.call ≡ true → e.answer ≡ 0) × AllOk es

AllOk-append : (es fs : List Entry) → AllOk es → AllOk fs → AllOk (es ++ fs)
AllOk-append [] fs h k = k
AllOk-append (e ∷ es) fs h k = (h.0, AllOk-append es fs h.1 k)

-- How a run from w may end: if it aborts, the last call made is one that failed; no other checked
-- call has failed, and none at all if it does not abort.
pub data Ends {A : Type 0} (w : World) : Outcome A × World → Type 0 where
  ends :
      {o : Outcome A} {w' : World} (es : List Entry)
      → o ≢ aborts
      → w'.calls ≡ w.calls ++ es
      → AllOk es
      → Ends w (o, w')
  stops :
      {w' : World} (es : List Entry) (last : Entry)
      → w'.calls ≡ w.calls ++ (es ++ (last ∷ []))
      → AllOk es
      → last.answer ≢ 0
      → Ends w (aborts, w')

abbrev pub Stops : {A : Type 0} → Program A → Type 0
Stops m = (w : World) → Ends w (m w)

-- A program that goes on behind some calls.
pub join :
    {A : Type 0} {w w1 : World} (r : Outcome A × World) (es : List Entry)
    → w1.calls ≡ w.calls ++ es
    → AllOk es
    → Ends w1 r
    → Ends w r
join {w = w} _ es e k (ends fs n f h) =
    ends (es ++ fs) n (f ∙ ap (λ cs. cs ++ fs) e ∙ append_assoc w.calls es fs)
      (AllOk-append es fs k h)
join {w = w} _ es e k (stops fs last f h n) =
    stops (es ++ fs) last
      (f
        ∙ ap (λ cs. cs ++ (fs ++ (last ∷ []))) e
        ∙ append_assoc w.calls es (fs ++ (last ∷ []))
        ∙ ap (λ cs. w.calls ++ cs) (sym (append_assoc es fs (last ∷ []))))
      (AllOk-append es fs k h) n

pub continue-Ends :
    {A B : Type 0} {w : World} (r : Outcome A × World) (f : A → Program B)
    → Ends w r
    → ((a : A) → Stops (f a))
    → Ends w (continue r f)
continue-Ends (done a, w1) f (ends es n e k) g = join (f a w1) es e k (g a w1)
continue-Ends (endless, w1) f (ends es n e k) g = ends es (λ x. cc) e k
continue-Ends (aborts, w1) f (ends es n e k) g = absurd (n refl)
continue-Ends _ f (stops es last e k n) g = stops es last e k n

-- Steps group either way.
pub regroup :
    {A B C : Type 0} {w : World} (r : Outcome A × World) (f : A → Program B) (g : B → Program C)
    → Ends w (continue r (λ a w1. continue (f a w1) g))
    → Ends w (continue (continue r f) g)
regroup (done a, w1) f g h = h
regroup (aborts, w1) f g h = h
regroup (endless, w1) f g h = h

-- A step that makes no call.
pub quiet :
    {A : Type 0} {w w' : World} (o : Outcome A) → o ≢ aborts → w'.calls ≡ w.calls → Ends w (o, w')
quiet {w = w} o n e = ends [] n (e ∙ sym (append-nil w.calls)) tt

module _ (driver : Driver) where
  -- A call that is not checked.
  pub call-Ends :
      {B : Type 0} (c : Call) (w : World) (f : ℕ → Program B)
      → is_checked c ≡ false
      → ((n : ℕ) → Stops (f n))
      → Ends w (continue (call driver c w) f)
  unfolding call
  call-Ends c w f u g = join _ (record { call = c; answer = _ } ∷ []) refl (λ x. cc, tt) (g _ _)

  pub ignore-Ends :
      {B : Type 0} (c : Call) (w : World) (f : Unit {0} → Program B)
      → is_checked c ≡ false
      → Stops (f tt)
      → Ends w (continue (ignore driver c w) f)
  unfolding ignore call
  ignore-Ends c w f u g = join _ (record { call = c; answer = _ } ∷ []) refl (λ x. cc, tt) (g _)

  pub ignore-Stops : (c : Call) → is_checked c ≡ false → Stops (ignore driver c)
  unfolding ignore call
  ignore-Stops c u w = ends (record { call = c; answer = _ } ∷ []) (λ x. cc) refl (λ x. cc, tt)

  pub check-Stops : (c : Call) → Stops (check driver c)
  unfolding check call error_check
  check-Stops c w =
      let err = driver.answer w.calls c in
      elim (Bool-cases (err == 0)) [
        | inl b ↦
            rw b
              (ends (record { call = c; answer = err } ∷ []) (λ x. cc) refl (λ x. ground arith, tt))
        | inr b ↦ rw b (stops [] (record { call = c; answer = err }) refl tt (ground arith))
      ]

  pub check-Ends :
      {B : Type 0} (c : Call) (w : World) (f : Unit {0} → Program B)
      → Stops (f tt)
      → Ends w (continue (check driver c w) f)
  check-Ends c w f g = continue-Ends _ f (check-Stops c w) (λ a. g)

  -- The same, with the call and the check apart.
  pub checked-Ends :
      {B : Type 0} (c : Call) (w : World) (f : Unit {0} → Program B)
      → Stops (f tt)
      → let err = driver.answer w.calls c in
        Ends w (
          continue
            (error_check err
              (record w { calls = w.calls ++ (record { call = c; answer = err } ∷ []) }))
            f)
  unfolding check call
  checked-Ends c w f g = continue-Ends _ f (check-Stops c w) (λ a. g)
