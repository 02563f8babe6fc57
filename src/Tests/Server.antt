-- ===== src/Tests/Server.antt =====
-- Runs of the update server.
use mstd.Prelude.{
  window, inl, length, codes, ◌==◌, ◌%◌, ◌∷◌, ℕ, ◌+◌, ◌-◌, ◌^◌, ◌≡◌, refl, true, false, Option,
  none, some, [], List, arith, str_eq, strrchr,
}
use mstd.Setup.Save.{Setup, at_reset}
use mstd.Setup.Restart.{IsActive}
use mstd.Ota.Api.{OtaApi}
use mstd.Ota.Server.{Server, Job, idle, load_fw, load_cfg, send_cfg, extension_job, file_job}
use mstd.Ota.Transfer.{on_write_data}
use mstd.Ota.Close.{Closed, restarts, on_close}
use mstd.Ota.Upload.{write_all, HasReceived, Advanced, write_all-HasReceived}
use mstd.Ota.Download.{read_all, IsSending, read_all-window}
use mstd.Ota.Bounds.{Answer, on_write_data-Answer, on_write_data-overruns}
use mstd.Ota.Names.{NameJob, file_job-NameJob}
use mstd.Ota.Firmware.{SlotsAfter, on_close-SlotsAfter}
use mstd.Ota.Slots.{finished, chunk, upload-Written}
use mstd.Ota.Calls.{Call, write_request, read_request, write_data, read_data, close, run}
use mstd.Ota.Safety.{Good}
use mstd.Ota.SafeRun.{run_started-Good}
use mstd.Setup.Load.{load_config_total}
use mstd.Ota.Session.{upload}
use mstd.Tests.Data.{active, crc, flash, erased, setup, image, bytes, chunks, stored}

-- Firmware slots that count the bytes written, and take an image of whole words.
abbrev pub slots : OtaApi
slots = record {
  Slots = ℕ × Option ℕ;
  next_update_partition = λ s. some 1;
  begin = λ s part. (some 5, s);
  write = λ s handle bs. (true, (s.0 + length bs, s.1));
  finish = λ s handle. (s.0 % 4 == 0, s);
  set_boot_partition = λ s part. (s.0, part);
}

-- A server on the store, in the middle of a transfer.
abbrev pub server_of : Job → Setup → Server flash slots
server_of job setup = record {
  job = job;
  cur_ptr = 0;
  m_ota_handle = 5;
  m_next_partition = some 1;
  ota_cfg_buffer = erased;
  setup = setup;
  chip = erased;
  slots = (4, none);
  oled = [];
}

pub cfg_write : file_job (codes "a.cfg") true ≡ load_cfg
unfolding file_job extension_job str_eq strrchr
cfg_write = refl

pub cfg_read : file_job (codes "b.cfg") false ≡ send_cfg
unfolding file_job extension_job str_eq strrchr
cfg_read = refl

active-IsActive : IsActive active stored 108
active-IsActive = record {
  config = 0;
  located = refl;
  cfg_size = refl;
  inside = omega arith;
  bytes = refl;
  loaded = refl;
}

write_all-HasReceived_example :
    (s' : Server flash slots) × (write_all (server_of load_cfg setup) chunks ≡ some s')
    × HasReceived s' bytes
    × Advanced (server_of load_cfg setup) s'
write_all-HasReceived_example =
    write_all-HasReceived (server_of load_cfg setup) [] chunks
      (record { job = inl refl; position = refl; buffer = refl }) (omega arith)

read_all-window_example : read_all 1 (server_of send_cfg active) ≡ some (window stored 0 108)
read_all-window_example =
    read_all-window 1 (server_of send_cfg active) 0 108 (IsSending.config refl refl refl)
      (omega arith) (omega arith) (omega arith)

on_write_data-Answer_example :
    Answer (server_of load_cfg setup) image 108 (on_write_data (server_of load_cfg setup) image 108)
on_write_data-Answer_example =
    on_write_data-Answer (server_of load_cfg setup) image 108 (inl refl) (omega arith) (omega arith)

on_write_data-overruns_example :
    on_write_data (record (server_of load_cfg setup) { cur_ptr = 8 }) image (2 ^ 32 - 1) ≡ none
on_write_data-overruns_example =
    on_write_data-overruns (record (server_of load_cfg setup) { cur_ptr = 8 }) image 1 (inl refl)
      (omega arith) (omega arith) (omega arith)

file_job-NameJob_example : NameJob (codes "update.bin") true (file_job (codes "update.bin") true)
file_job-NameJob_example = file_job-NameJob (codes "update.bin") true

on_close-SlotsAfter_example :
    SlotsAfter (server_of load_fw setup) (on_close crc (server_of load_fw setup))
on_close-SlotsAfter_example = on_close-SlotsAfter crc (server_of load_fw setup)

bin_write : file_job (codes "a.bin") true ≡ load_fw
unfolding file_job extension_job str_eq strrchr
bin_write = refl

upload-Written_example :
    (s' : Server flash slots) × (upload crc
        (server_of idle setup)
        (codes "a.bin")
        ((1 ∷ 2 ∷ []) ∷ (3 ∷ 4 ∷ []) ∷ [])
      ≡ some (restarts s'))
    × (s'.slots ≡ (8, some 1))
upload-Written_example =
    upload-Written crc (server_of idle setup) (codes "a.bin") ((1 ∷ 2 ∷ []) ∷ (3 ∷ 4 ∷ []) ∷ [])
      bin_write refl refl (omega arith) (chunk refl (chunk refl finished)) refl

-- The server after a start over the stored configuration.
abbrev started : Server flash slots
started = record (server_of idle (load_config_total crc flash (at_reset erased) stored).0) {
  chip = stored;
}

-- A download while an upload is under way, data without a request, a close twice.
abbrev calls : List Call
calls =
    write_request (codes "a.cfg")
    ∷ write_data image 108
    ∷ read_request (codes "b.cfg")
    ∷ write_data image 4097
    ∷ read_data 512
    ∷ close
    ∷ close
    ∷ []

run_started-Good_example :
    (o : Closed (Server flash slots)) × (run crc started calls ≡ some o) × Good started o
run_started-Good_example =
    run_started-Good crc started erased calls refl
      (load_config_total crc flash (at_reset erased) stored).1
      (tt, (omega arith, (tt, (omega arith, (omega arith, (tt, (tt, tt)))))))
