-- ===== src/Board/States.antt =====
-- The states of the pins behind hw_init of the boot loader, against the comments of pins.h.
use mstd.Prelude.{
  all_below, all_below_sound, ℕ, zero, ◌/◌, ◌%◌, ◌^◌, ◌≡◌, ◌<◌, refl, ap, ◌∙◌, Bool, true, false,
  ◌&&◌, ◌||◌, not, Option, none, some, List, [], ◌∷◌, ◌++◌, Memory, ◌==◌, if◌then◌else◌, arith, sym,
}
use mstd.Display.Draw.{I2C}
use mstd.Driver.Calls.{
  Driver, Entry, Call, GpioMode, mode_input, mode_output, gpio_config, gpio_set_level,
  i2c_new_master_bus,
}
use mstd.Driver.Run.{World, done, ignore, call, check-continue}
use mstd.Board.Pins.{
  PinState, pulled_up, floating, zero_output, loader_state, bit, pin_creset, pin_oled_sda,
  pin_oled_scl,
}
use mstd.Board.Init.{pins_init, oled_init, oled_start, hw_init}

-- The mode, the pull-up and the level that the calls have given a pin, the last ones; and whether it
-- has been given to the driver of the I2C bus.
pub record Pad : Type 0 where
  pub mode : Option (GpioMode × Bool)
  pub level : Option ℕ
  pub bus : Bool

abbrev set_pad : ℕ → Pad → Call → ℕ → Pad
set_pad p pad (gpio_config mode pull mask) zero =
    if mask / 2 ^ p % 2 == 1 then record pad { mode = some (mode, pull) } else pad
set_pad p pad (gpio_set_level q level) answer =
    if q == p then record pad { level = some level } else pad
set_pad p pad (i2c_new_master_bus sda scl) answer =
    if (sda == p) || (scl == p) then record pad { bus = true } else pad
set_pad p pad other answer = pad

abbrev pub pad_after : ℕ → Pad → List Entry → Pad
pad_after p pad [] = pad
pad_after p pad (e ∷ es) = pad_after p (set_pad p pad e.call e.answer) es

-- The pad that a state stands for.
abbrev pub pad_of : Option PinState → Pad → Pad
pad_of none pad = pad
pad_of (some pulled_up) pad = record pad { mode = some (mode_input, true) }
pad_of (some floating) pad = record pad { mode = some (mode_input, false) }
pad_of (some zero_output) pad = record pad { mode = some (mode_output, false); level = some 0 }

-- The pins of the display.
abbrev pub is_oled : ℕ → Bool
is_oled p = (pin_oled_sda == p) || (pin_oled_scl == p)

abbrev pub on_bus : ℕ → Pad → Pad
on_bus p pad = if is_oled p then record pad { bus = true } else pad

pad_after-append :
    (p : ℕ) (pad : Pad) (es fs : List Entry)
    → pad_after p pad (es ++ fs) ≡ pad_after p (pad_after p pad es) fs
pad_after-append p pad [] fs = refl
pad_after-append p pad (e ∷ es) fs = pad_after-append p (set_pad p pad e.call e.answer) es fs

pad_after-six :
    (p : ℕ) (pad : Pad) (es : List Entry) (a b c d e f : Entry)
    → pad_after p pad
        ((((((es ++ (a ∷ [])) ++ (b ∷ [])) ++ (c ∷ [])) ++ (d ∷ [])) ++ (e ∷ [])) ++ (f ∷ []))
      ≡ pad_after p (pad_after p pad es) (a ∷ b ∷ c ∷ d ∷ e ∷ f ∷ [])
pad_after-six p pad es a b c d e f = simp pad_after-append

-- The masks of hw_init: the output, the inputs with a pull-up, and the others.
abbrev outputs : ℕ
outputs = 4194304

abbrev pulled : ℕ
pulled = 212803636

abbrev buttons : ℕ
buttons = 674309865472

-- The calls of hw_init; the answers to the three that are not checked do not matter.
abbrev init_calls : List Entry
init_calls =
    record { call = gpio_set_level pin_creset 0; answer = 0 }
    ∷ record { call = gpio_config mode_output false outputs; answer = 0 }
    ∷ record { call = gpio_config mode_input true pulled; answer = 0 }
    ∷ record { call = gpio_config mode_input false buttons; answer = 0 }
    ∷ record { call = gpio_set_level pin_creset 0; answer = 0 }
    ∷ record { call = i2c_new_master_bus pin_oled_sda pin_oled_scl; answer = 0 }
    ∷ []

abbrev is_in : ℕ → ℕ → Bool
is_in mask p = mask / 2 ^ p % 2 == 1

abbrev same : Bool → Bool → Bool
same true b = b
same false b = not b

abbrev is_zero_output : Option PinState → Bool
is_zero_output (some zero_output) = true
is_zero_output other = false

abbrev is_pulled_up : Option PinState → Bool
is_pulled_up (some pulled_up) = true
is_pulled_up other = false

abbrev is_floating : Option PinState → Bool
is_floating (some floating) = true
is_floating other = false

-- A pin is in the masks that its state calls for, and no others.
abbrev fits : ℕ → Option PinState → Bool
fits p s =
    same (pin_creset == p) (is_zero_output s)
    && same (is_in outputs p) (is_zero_output s)
    && same (is_in pulled p) (is_pulled_up s)
    && same (is_in buttons p) (is_floating s)

abbrev fits_loader : ℕ → Bool
fits_loader p = fits p (loader_state p)

fits_table : all_below 40 fits_loader ≡ true
unfolding loader_state
fits_table = refl

init_calls-states :
    (p : ℕ) (pad : Pad) (s : Option PinState)
    → fits p s ≡ true
    → pad_after p pad init_calls ≡ on_bus p (pad_of s pad)
init_calls-states p pad none h = ground arith
init_calls-states p pad (some pulled_up) h = ground arith
init_calls-states p pad (some floating) h = ground arith
init_calls-states p pad (some zero_output) h = ground arith

module _ (driver : Driver) (beyond : Memory) where
  -- Where hw_init returns, every pin is in the state that pins.h gives for the loader, whatever it
  -- was before: the inputs with and without pull-up, and the reset of the FPGA driven low. The two
  -- pins of the display, and no others, have been given to the I2C driver, and of the others that
  -- pins.h gives no state none is touched.
  pub hw_init-states :
      (i2c : I2C) (w : World) (p : ℕ) (pad : Pad)
      → (hw_init driver beyond i2c w).0 ≡ done tt
      → p < 40
      → pad_after p pad (hw_init driver beyond i2c w).1.calls
        ≡ on_bus p (pad_of (loader_state p) (pad_after p pad w.calls))
  unfolding hw_init ignore call pins_init oled_init oled_start bit
  hw_init-states i2c w p pad h lt =
      let e1 = check-continue driver _ _ _ h in
      let e2 = check-continue driver _ _ _ (sym (ap (λ r. r.0) e1) ∙ h) in
      let e3 = check-continue driver _ _ _ (sym (ap (λ r. r.0) (e1 ∙ e2)) ∙ h) in
      ap (λ r. pad_after p pad r.1.calls) (e1 ∙ e2 ∙ e3)
      ∙ pad_after-six p pad w.calls _ _ _ _ _ _
      ∙ init_calls-states p (pad_after p pad w.calls) (loader_state p)
          (all_below_sound 40 fits_loader p fits_table lt)
