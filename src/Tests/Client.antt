-- ===== src/Tests/Client.antt =====
-- A run of the server on a chip whose writes fail half-way.
use mathlib.Core.Path.{subst}
use mstd.Prelude.{
  ℕ, ◌≡◌, ◌≢◌, refl, none, some, Option, List, [], ◌∷◌, codes, strrchr, str_eq, window, arith,
}
use mstd.Setup.Scan.{size_offset, no_crc, eval_crc}
use mstd.Setup.History.{Refines}
use mstd.Setup.Outages.{KeepsAll}
use mstd.Ota.Server.{Server, idle, file_job, extension_job, test_file_name, inc_cur_ptr, pi_size}
use mstd.Ota.Handlers.{on_write, dispatch_write, accept_transfer}
use mstd.Ota.Transfer.{on_write_data, dispatch_data, copy_chunk}
use mstd.Ota.Close.{Closed, returns}
use mstd.Ota.Calls.{Call, write_request, write_data, close, step, run}
use mstd.Ota.Safety.{IsSafe}
use mstd.Ota.Closes.{state, AllPlain, Stored}
use mstd.Ota.Refine.{calls-Refines}
use mstd.Tests.Data.{crc, crc_range, erased, setup, image, image-IsBytes}
use mstd.Tests.Server.{slots}
use mstd.Tests.Outages.{worn, failing, start}

abbrev server : Server worn slots
server = record {
  job = idle;
  cur_ptr = 0;
  m_ota_handle = 0;
  m_next_partition = none;
  ota_cfg_buffer = erased;
  setup = setup;
  chip = erased;
  slots = (4, none);
  oled = [];
}

abbrev calls : List Call
calls = write_request (codes "a.cfg") ∷ write_data image 108 ∷ close ∷ []

-- The server when the transfer is accepted, and when the image has come.
accepted : Server worn slots
accepted = (on_write server (codes "a.cfg")).1

received : Server worn slots
received = elim (on_write_data accepted image 108) [ none ↦ accepted | some (answer, s) ↦ s ]

received-savable : eval_crc crc received.ota_cfg_buffer size_offset received.cur_ptr ≢ no_crc
unfolding received accepted on_write test_file_name file_job extension_job dispatch_write
    accept_transfer on_write_data dispatch_data copy_chunk inc_cur_ptr pi_size str_eq strrchr
    eval_crc window
received-savable = omega arith

next_plain :
    (s s1 : Server worn slots) (c : Call) (rest : List Call)
    → step crc s c ≡ some (returns s1)
    → AllPlain crc s1 rest
    → (s' : Server worn slots) → step crc s c ≡ some (returns s')
    → AllPlain crc s' rest
next_plain s s1 c rest e p s' e' =
    let same : s1 ≡ s' = cc (e, e') in subst (λ x. AllPlain crc x rest) same p

plain : AllPlain crc server calls
unfolding received accepted step on_write test_file_name file_job extension_job dispatch_write
    accept_transfer on_write_data dispatch_data copy_chunk inc_cur_ptr pi_size str_eq strrchr
plain = (
  tt,
  next_plain server accepted (write_request (codes "a.cfg")) (write_data image 108 ∷ close ∷ [])
      refl
      (
        image-IsBytes,
        next_plain accepted received (write_data image 108) (close ∷ []) refl
            (received-savable, λ s' e. tt),
      ),
)

server-IsSafe : IsSafe server
server-IsSafe = record { position = tt; config = tt }

calls-Refines_example :
    (o : Closed (Server worn slots)) × (run crc server calls ≡ some o)
    × (t : Stored crc server (state o)) × (k : Option (List ℕ)) × KeepsAll crc none t.events k
    × Refines crc worn (state o).setup (state o).chip k
calls-Refines_example =
    calls-Refines crc crc_range failing server none calls server-IsSafe
      (tt, (omega arith, (tt, tt))) (λ i. omega arith) plain start
