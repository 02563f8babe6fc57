-- ===== src/Driver/Run.antt =====
-- Programs that make calls of the drivers: the state of the boot loader is passed on, the calls made
-- so far are kept, and ESP_ERROR_CHECK of soft/bootloader/main stops on an error.
use mstd.Prelude.{
  ℕ, List, [], ◌∷◌, ◌++◌, ◌==◌, ◌≡◌, ◌≢◌, refl, inl, inr, Bool-cases, ==→eq, ap, ◌∙◌, if◌then◌else◌,
}
use mstd.Setup.Save.{Setup}
use mstd.Display.Draw.{Display}
use mstd.Driver.Calls.{Call, Entry, Driver}

-- The globals of setup_data.cpp, the display, and the calls of the drivers, oldest first.
pub record World : Type 0 where
  pub setup : Setup
  pub oled : Display
  pub calls : List Entry

-- A call that was answered by ESP_OK.
abbrev pub succeeded : Call → Entry
succeeded c = record { call = c; answer = 0 }

-- How a program ends: with a result, or by ESP_ERROR_CHECK.
-- endless says that the fuel of a loop ran out.
pub data Outcome (A : Type 0) : Type 0 where
  done : A → Outcome A
  aborts endless : Outcome A

abbrev pub Program : Type 0 → Type 0
Program A = World → Outcome A × World

abbrev pub pure : {A : Type 0} → A → Program A
pure a w = (done a, w)

-- What follows is run only behind a result.
abbrev pub continue : {A B : Type 0} → Outcome A × World → (A → Program B) → Outcome B × World
continue (done a, w) f = f a w
continue (aborts, w) f = (aborts, w)
continue (endless, w) f = (endless, w)

pub done-continue :
    {A B : Type 0} (r : Outcome A × World) (f : A → Program B) {a : A} {w : World}
    → r ≡ (done a, w)
    → continue r f ≡ f a w
done-continue r f e = ap (λ x. continue x f) e

infixl 5 ◌>>=◌ ◌>>◌
abbrev pub ◌>>=◌ : {A B : Type 0} → Program A → (A → Program B) → Program B
◌>>=◌ m f w = continue (m w) f

abbrev pub ◌>>◌ : {B : Type 0} → Program (Unit {0}) → Program B → Program B
m >> k = m >>= λ _. k

-- ESP_ERROR_CHECK of an esp_err_t.
unfoldable pub error_check : ℕ → Program (Unit {0})
error_check err w = if err == 0 then (done tt, w) else (aborts, w)

pub error_check-then :
    {B : Type 0} (w : World) (f : Unit {0} → Program B) → continue (error_check 0 w) f ≡ f tt w
unfolding error_check
error_check-then w f = refl

aborts-done : {B : Type 0} {b : B} → aborts ≢ done b
aborts-done h = cc

error_check-continue :
    {B : Type 0} (err : ℕ) (w : World) (f : Unit {0} → Program B) {b : B}
    → (continue (error_check err w) f).0 ≡ done b
    → (err ≡ 0) × (continue (error_check err w) f ≡ f tt w)
unfolding error_check
error_check-continue err w f h = elim (Bool-cases (err == 0)) [
  | inl b ↦ (==→eq err 0 b, rw b refl)
  | inr b ↦ absurd (aborts-done (rw b at h))
]

module _ (driver : Driver) where
  -- A call and its answer.
  unfoldable pub call : Call → Program ℕ
  call c w =
      let err = driver.answer w.calls c in
      (done err, record w { calls = w.calls ++ (record { call = c; answer = err } ∷ []) })

  -- A call whose answer is not looked at.
  unfoldable pub ignore : Call → Program (Unit {0})
  unfolding call
  ignore c = do err ← call c; pure tt

  -- ESP_ERROR_CHECK of a call.
  unfoldable pub check : Call → Program (Unit {0})
  unfolding call error_check
  check c = do err ← call c; error_check err

  -- A checked call that the program goes on behind has succeeded.
  pub check-continue :
      {B : Type 0} (c : Call) (w : World) (f : Unit {0} → Program B) {b : B}
      → (continue (check c w) f).0 ≡ done b
      → continue (check c w) f ≡ f tt (record w { calls = w.calls ++ (succeeded c ∷ []) })
  unfolding check call
  check-continue c w f h =
      let k = error_check-continue (driver.answer w.calls c) _ f h in
      k.1
      ∙ ap (λ n. f tt (record w { calls = w.calls ++ (record { call = c; answer = n } ∷ []) })) k.0

  -- Drivers on which no call fails.
  pub record IsReliable : Type 0 where
    pub succeeds : (es : List Entry) (c : Call) → driver.answer es c ≡ 0
    pub no_free_pages : driver.no_free_pages ≢ 0
    pub new_version_found : driver.new_version_found ≢ 0

  module _ (h : IsReliable) where
    pub call-then :
        {B : Type 0} (c : Call) (w : World) (f : ℕ → Program B)
        → continue (call c w) f ≡ f 0 (record w { calls = w.calls ++ (succeeded c ∷ []) })
    unfolding call
    call-then c w f = rw (h.succeeds w.calls c) refl

    pub ignore-then :
        {B : Type 0} (c : Call) (w : World) (f : Unit {0} → Program B)
        → continue (ignore c w) f ≡ f tt (record w { calls = w.calls ++ (succeeded c ∷ []) })
    unfolding ignore call
    ignore-then c w f = rw (h.succeeds w.calls c) refl

    pub check-then :
        {B : Type 0} (c : Call) (w : World) (f : Unit {0} → Program B)
        → continue (check c w) f ≡ f tt (record w { calls = w.calls ++ (succeeded c ∷ []) })
    unfolding check call error_check
    check-then c w f = rw (h.succeeds w.calls c) refl

    pub check-reliable :
        (c : Call) (w : World)
        → check c w ≡ (done tt, record w { calls = w.calls ++ (succeeded c ∷ []) })
    unfolding check call error_check
    check-reliable c w = rw (h.succeeds w.calls c) refl
