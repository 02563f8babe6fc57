-- ===== src/Fpga/Load.antt =====
-- load_fpga of soft/test-hw/main/hardware.cpp, and the delays of common.h. The board is the answers
-- that it gives to the reads of the CDONE pin and to the SPI transmissions, each by its number.
use mstd.Prelude.{
  ℕ, zero, suc, ◌+◌, ◌-◌, ◌*◌, ◌/◌, Bool, Option, none, some, List, [], ◌∷◌, ◌++◌, Memory,
  replicate, window, min, ltb, ◌==◌, not, ◌&&◌, if◌then◌else◌, codes,
}

pub record Board : Type 0 where
  -- gpio_get_level(PIN_CDONE)
  pub cdone : ℕ → Bool
  -- spi_device_polling_transmit, 0 for ESP_OK
  pub transmit : ℕ → ℕ
  pub tick_period_ms : ℕ

-- What the loader does to the board: the levels of two pins, delays in ticks, and transmissions of
-- a number of bits from a buffer.
pub data Action : Type 0 where
  creset ss : ℕ → Action
  delay : ℕ → Action
  send : ℕ → List ℕ → Action

pub record Loader : Type 0 where
  pub actions : List Action
  pub reads : ℕ
  pub sends : ℕ

-- How load_fpga gives up: with the name and the number of its message. out_of_fuel says that the
-- fuel of a loop ran out.
pub data Failure : Type 0 where
  cdone_stuck out_of_fuel : Failure
  failed : List ℕ → ℕ → Failure

abbrev pub not_started : Loader
not_started = record { actions = []; reads = 0; sends = 0 }

unfoldable pub act : Loader → Action → Loader
act s a = record s { actions = s.actions ++ (a ∷ []) }

-- A step that failed ends the function.
unfoldable pub and_then :
    Option Failure × Loader → (Loader → Option Failure × Loader) → Option Failure × Loader
and_then (none, s) f = f s
and_then (some e, s) f = (some e, s)

-- The size of a transmission, and the rounds that the wait for CDONE is meant to have.
abbrev pub chunk_size : ℕ
chunk_size = 64

abbrev pub cdone_limit : ℕ
cdone_limit = 13

module _ (board : Board) where
  -- time && time < portTICK_PERIOD_MS ? 1 : time / portTICK_PERIOD_MS
  unfoldable pub ms2ticks : ℕ → ℕ
  ms2ticks time =
      if not (time == 0) && ltb time board.tick_period_ms then 1 else time / board.tick_period_ms

  unfoldable pub transmit_once : Loader → ℕ → List ℕ → ℕ × Loader
  transmit_once s bits bytes = (
    board.transmit s.sends,
    record s { actions = s.actions ++ (send bits bytes ∷ []); sends = s.sends + 1 },
  )

  -- ERROR_CHECK evaluates its value again for the message, so a failed transmission is repeated.
  unfoldable pub send_checked : Loader → List ℕ → ℕ → List ℕ → Option Failure × Loader
  send_checked s name bits bytes =
      let first = transmit_once s bits bytes in
      let again = transmit_once first.1 bits bytes in
      if first.0 == 0 then (none, first.1) else (some (failed name again.0), again.1)

  -- The loop that sends the bitstream, with n bytes left at p, on fuel.
  unfoldable pub send_stream : ℕ → Memory → Loader → ℕ → ℕ → Option Failure × Loader
  send_stream zero m s p n = (some out_of_fuel, s)
  send_stream (suc fuel) m s p n =
      let len = min chunk_size n in
      if n == 0
      then (none, s)
      else and_then (send_checked s (codes "Tr8") (len * 8) (window m p len))
          (λ s'. send_stream fuel m s' (p + len) (n - len))

  -- The loop that waits for CDONE, on fuel.
  unfoldable pub wait_cdone : ℕ → Loader → ℕ → Option Failure × Loader
  wait_cdone zero s cnt = (some out_of_fuel, s)
  wait_cdone (suc fuel) s cnt =
      let s' = record s { reads = s.reads + 1 } in
      if board.cdone s.reads
      then (none, s')
      else if ltb (cnt + 1) cdone_limit
      then (some (failed (codes "CDONE") (if ltb (cnt + 2) cdone_limit then 1 else 0)), s')
      else and_then (send_checked s' (codes "Tr10") 8 (0 ∷ []))
          (λ s''. wait_cdone fuel s'' (cnt + 1))

  -- Up to the first read of CDONE.
  unfoldable pub reset_fpga : Loader → Loader
  reset_fpga s =
      let s1 = act (act s (creset 0)) (ss 0) in
      act (act (act s1 (delay (ms2ticks 1))) (creset 1)) (delay (ms2ticks 2))

  -- Behind the loops: 49 bits of zeros.
  unfoldable pub finish_load : Loader → Option Failure × Loader
  finish_load s = send_checked s (codes "Tr11") 49 (replicate 8 0)

  -- The bitstream is the n bytes at the start of m.
  unfoldable pub load_fpga : Memory → ℕ → Loader → Option Failure × Loader
  load_fpga m n s =
      let s1 = reset_fpga s in
      let s2 = record s1 { reads = s1.reads + 1 } in
      if board.cdone s1.reads
      then (some cdone_stuck, s2)
      else and_then (send_checked (act s2 (ss 1)) (codes "Tr6") 8 (0 ∷ [])) (λ s3.
        and_then (send_stream (suc n) m (act s3 (ss 0)) 0 n)
          (λ s4. and_then (wait_cdone 1 (act s4 (ss 1)) 0) finish_load))
