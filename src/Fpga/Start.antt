-- ===== src/Fpga/Start.antt =====
-- app_main of soft/test-hw/main/main.cpp, and the messages of load_fpga.
use mstd.Prelude.{
  ℕ, Bool, true, false, Option, none, some, List, [], ◌∷◌, ◌++◌, Memory, ◌≡◌, refl, ap, ◌∙◌, codes,
}
use mstd.Display.Draw.{I2C, init}
use mstd.Display.Rows.{lines, draw_rows, draw_text-draw_rows}
use mstd.Driver.Calls.{Driver}
use mstd.Driver.Run
use mstd.Driver.Run.{
  Program, World, endless, pure, continue, done-continue, ◌>>◌, IsReliable, call-then, ignore-then,
  check-then,
}
use mstd.Board.Init.{oled_init, oled_start}
use mstd.Board.Test.{hw_init, pins_init}
use mstd.App.Start.{oled_ap_row, oled_msg_row, draw, show_msg}
use mstd.Fpga.Load.{
  Board, Loader, Failure, cdone_stuck, out_of_fuel, failed, not_started, load_fpga,
}
use mstd.Fpga.Stream.{Loaded, stuck, late, load_fpga-Loaded}

-- What load_fpga shows at its end. print_int is %d of sprintf.
unfoldable pub message : (ℕ → List ℕ) → Option Failure → Option (List ℕ)
message print_int none = some (codes "FPGA Load done")
message print_int (some cdone_stuck) = some (codes "Tr0: CDONE stack")
message print_int (some (failed name err)) =
    some (codes "ERR: " ++ (name ++ (codes " " ++ print_int err)))
message print_int (some out_of_fuel) = none

module _ (driver : Driver) (beyond : Memory) (print_int : ℕ → List ℕ) (board : Board) where
  -- load_fpga with its message, for the bitstream of n bytes at the start of m.
  unfoldable pub load_shown : Memory → ℕ → Program Loader
  load_shown m n w =
      let r = load_fpga board m n not_started in
      elim (message print_int r.0) [
        | none ↦ (endless, w)
        | some text ↦ (do show_msg driver beyond text; pure r.1) w
      ]

  -- Up to the loop at its end, which does nothing. shifted is for bit().
  unfoldable pub app_main : (ℕ → ℕ) → I2C → Memory → ℕ → Program Loader
  app_main shifted i2c m n = do
    hw_init driver beyond shifted i2c
    draw driver beyond oled_ap_row (codes "HW Test run")
    load_shown m n

  -- The text that the two reads of CDONE call for.
  abbrev pub result_text : Bool → Bool → List ℕ
  result_text true second = codes "Tr0: CDONE stack"
  result_text false true = codes "FPGA Load done"
  result_text false false = codes "ERR: CDONE " ++ print_int 1

  message-Loaded :
      (ok : (k : ℕ) → board.transmit k ≡ 0) (m : Memory) (n : ℕ) {r : Option Failure × Loader}
      → Loaded board ok m n not_started r
      → message print_int r.0 ≡ some (result_text (board.cdone 0) (board.cdone 1))
  unfolding message
  message-Loaded ok m n (stuck b e) = rw (e, b) refl
  message-Loaded ok m n (Loaded.done chunks b c e h k) = rw (e, b, c) refl
  message-Loaded ok m n (late chunks b c e h k) = rw (e, b, c) refl

  draw-then :
      {B : Type 0} (row : ℕ) (text : List ℕ) (w : World) (f : Unit {0} → Program B)
      → continue (draw driver beyond row text w) f
        ≡ f tt (record w { oled = draw_rows beyond w.oled row (lines text) })
  unfolding draw
  draw-then row text w f = rw (draw_text-draw_rows beyond w.oled row text, draw) refl

  load_shown-text :
      (m : Memory) (n : ℕ) (text : List ℕ) (w : World)
      → message print_int (load_fpga board m n not_started).0 ≡ some text
      → load_shown m n w ≡ (
        Run.done (load_fpga board m n not_started).1,
        record w { oled = draw_rows beyond w.oled oled_msg_row (lines text) },
      )
  unfolding load_shown show_msg
  load_shown-text m n text w e = rw (e, load_shown) (draw-then oled_msg_row text w _)

  hw_init-oled :
      (shifted : ℕ → ℕ) (i2c : I2C) (w : World)
      → IsReliable driver
      → (w' : World) × (hw_init driver beyond shifted i2c w ≡ (Run.done tt, w'))
        × (w'.oled ≡ init beyond (record i2c { new_master_bus = true }) w.oled)
  unfolding hw_init pins_init oled_init oled_start
  hw_init-oled shifted i2c w h = (
    _,
    ignore-then driver h _ w _
        ∙ check-then driver h _ _ _
        ∙ check-then driver h _ _ _
        ∙ check-then driver h _ _ _
        ∙ ignore-then driver h _ _ _
        ∙ ignore-then driver h _ _ _
        ∙ check-then driver h _ _ _
        ∙ check-then driver h _ _ _
        ∙ call-then driver h _ _ _,
    refl,
  )

  -- Where no call of the drivers and no transmission fails, app_main of the hardware test comes to
  -- the loop at its end, whatever the compiler makes of the shifts that C leaves undefined, and the
  -- display, if it is there, has been set up, and has been sent the line of app_main in row 0 and the
  -- result of load_fpga in row 5. That is "FPGA Load done" exactly if CDONE is low at its first read
  -- and high at its second.
  pub app_main-shown :
      (shifted : ℕ → ℕ) (i2c : I2C) (m : Memory) (n : ℕ) (w : World)
      → IsReliable driver
      → ((k : ℕ) → board.transmit k ≡ 0)
      → let d = init beyond (record i2c { new_master_bus = true }) w.oled in
        let started = draw_rows beyond d 0 (codes "HW Test run" ∷ []) in
        (w' : World) × (app_main shifted i2c m n w
          ≡ (Run.done (load_fpga board m n not_started).1, w'))
        × (w'.oled
            ≡ draw_rows beyond started 5 (lines (result_text (board.cdone 0) (board.cdone 1))))
  unfolding app_main
  app_main-shown shifted i2c m n w h ok =
      let board_up = hw_init-oled shifted i2c w h in
      let text = message-Loaded ok m n (load_fpga-Loaded board ok m n not_started) in
      (
        _,
        done-continue _ _ board_up.1
            ∙ draw-then oled_ap_row (codes "HW Test run") board_up.0 _
            ∙ load_shown-text m n _ _ text,
        ap
            (λ x.
              draw_rows beyond (draw_rows beyond x 0 (codes "HW Test run" ∷ [])) 5
                (lines (result_text (board.cdone 0) (board.cdone 1))))
            board_up.2,
      )
