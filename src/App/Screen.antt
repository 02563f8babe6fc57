-- ===== src/App/Screen.antt =====
-- What the display shows of an upload: the calls that the update server makes of the display, carried
-- out by class SSD1306.
use mstd.Prelude.{Option, none, some, List, [], ◌∷◌, Memory, codes}
use mstd.Setup.Flash.{Flash}
use mstd.Display.Draw
use mstd.Display.Draw.{Display, draw_text, draw_text_imp}
use mstd.Ota.Api.{OledCall, msg, start_pi, inc_pi}
use mstd.Ota.Server.{Server}
use mstd.App.Start.{oled_msg_row}

module _ (beyond : Memory) where
  -- msg, oled.start_pi and oled.inc_pi.
  unfoldable pub show_call : Display → OledCall → Option Display
  show_call d (msg text) = draw_text beyond d oled_msg_row text
  show_call d (start_pi row) = some (Draw.start_pi beyond d row)
  show_call d inc_pi = some (Draw.inc_pi beyond d)

  unfoldable pub show_calls : Display → List OledCall → Option Display
  show_calls d [] = some d
  show_calls d (c ∷ cs) = elim (show_call d c) [ none ↦ none | some d' ↦ show_calls d' cs ]

  -- The message of an upload, in its row.
  abbrev pub message_shown : Display → Display
  message_shown d = (draw_text_imp beyond d oled_msg_row (codes "Loading config")).0
