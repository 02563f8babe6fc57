-- ===== src/Ota/Calls.antt =====
-- The server as the TFTP library drives it: any calls of the handlers, in any order.
use mstd.Prelude.{ℕ, ◌^◌, ◌<◌, Option, none, some, List, [], ◌∷◌, Memory}
use mstd.Setup.Flash.{Flash}
use mstd.Ota.Api.{OtaApi}
use mstd.Ota.Server.{Server}
use mstd.Ota.Handlers.{on_write, on_read}
use mstd.Ota.Transfer.{on_write_data, on_read_data}
use mstd.Ota.Close.{Closed, returns, restarts, on_close}

-- A call of a handler, with the name or the buffer that the library passes.
pub data Call : Type 0 where
  write_request read_request : List ℕ → Call
  write_data : Memory → ℕ → Call
  read_data : ℕ → Call
  close : Call

-- The lengths are ints that are not negative.
abbrev pub IsCall : Call → Type 0
IsCall (write_data buffer len) = len < 2 ^ 31
IsCall (read_data len) = len < 2 ^ 31
IsCall (write_request file) = Unit {0}
IsCall (read_request file) = Unit {0}
IsCall close = Unit {0}

abbrev pub AllCalls : List Call → Type 0
AllCalls [] = Unit {0}
AllCalls (c ∷ calls) = IsCall c × AllCalls calls

module _ {flash : Flash} {api : OtaApi} (crc32_le : ℕ → List ℕ → ℕ) where
  -- The state after a call; `none` is an overrun of a buffer.
  unfoldable pub step : Server flash api → Call → Option (Closed (Server flash api))
  step s (write_request file) = some (returns (on_write s file).1)
  step s (read_request file) = some (returns (on_read s file).1)
  step s (write_data buffer len) = elim (on_write_data s buffer len) [
    | none ↦ none
    | some (answer, s') ↦ some (returns s')
  ]
  step s (read_data len) = elim (on_read_data s len) [
    | none ↦ none
    | some (answer, s') ↦ some (returns s')
  ]
  step s close = some (on_close crc32_le s)

  -- The calls one after another, until the board restarts.
  unfoldable pub run : Server flash api → List Call → Option (Closed (Server flash api))
  run s [] = some (returns s)
  run s (c ∷ calls) = elim (step s c) [
    | none ↦ none
    | some (restarts s') ↦ some (restarts s')
    | some (returns s') ↦ run s' calls
  ]
