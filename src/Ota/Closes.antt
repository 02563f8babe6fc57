-- ===== src/Ota/Closes.antt =====
-- on_close as a step of the store, and the calls for which a run of the server is a run of saves.
use mstd.Prelude.{
  ℕ, ◌^◌, ◌<◌, ◌≡◌, ◌≢◌, inl, inr, Option, none, some, List, [], ◌∷◌, ◌++◌, Memory, IsBytes,
  AllBytes, ◌==◌, Bool-cases, Option-cases, arith,
}
use mstd.Setup.Flash.{Flash}
use mstd.Setup.Scan.{size_offset, no_crc, eval_crc}
use mstd.Setup.Save.{
  Setup, SaveError, no_partition, image_too_big, image_too_small, size_odd, size_wrong, crc_wrong,
  cannot_erase, cannot_write, check_image, fill_crc, save_config_image,
}
use mstd.Setup.Image.{fill_crc-IsFilled}
use mstd.Setup.RoundTrip.{
  save_config_image-refused, save_config_image-wrong, save_config_image-store, store_image-image,
}
use mstd.Setup.Outages.{Event, saves, Run, stops, goes}
use mstd.Ota.Api.{OtaApi}
use mstd.Ota.Server.{Server, Job, idle, load_fw, load_cfg, load_fcfg, send_cfg, send_fcfg, say}
use mstd.Ota.Handlers.{ota_error}
use mstd.Ota.Close.{
  Closed, returns, restarts, error_text, save_text, dispatch_close, close_firmware, report,
  after_save,
}
use mstd.Ota.Calls.{Call, write_request, read_request, write_data, read_data, close, step}
use mstd.Ota.Stores.{SameStore, overlay_bytes}

-- The texts of the messages are bytes.
error_text-AllBytes : (e : SaveError) → AllBytes (ota_error (error_text e) ++ (0 ∷ []))
unfolding error_text
error_text-AllBytes no_partition = omega arith
error_text-AllBytes image_too_big = omega arith
error_text-AllBytes image_too_small = omega arith
error_text-AllBytes size_odd = omega arith
error_text-AllBytes size_wrong = omega arith
error_text-AllBytes crc_wrong = omega arith
error_text-AllBytes cannot_erase = omega arith
error_text-AllBytes cannot_write = omega arith

-- A transfer that ends now is not one of the whole partition, and a configuration has not the
-- mark of a free slot for its checksum.
abbrev pub IsClosable : (ℕ → List ℕ → ℕ) → Job → Memory → ℕ → Type 0
IsClosable crc32_le load_fcfg image size = ⊥
IsClosable crc32_le load_cfg image size = eval_crc crc32_le image size_offset size ≢ no_crc
IsClosable crc32_le load_fw image size = Unit {0}
IsClosable crc32_le idle image size = Unit {0}
IsClosable crc32_le send_cfg image size = Unit {0}
IsClosable crc32_le send_fcfg image size = Unit {0}

-- The image that a save leaves.
save_config_image-IsBytes :
    (crc32_le : ℕ → List ℕ → ℕ) (crc_range : (bs : List ℕ) → crc32_le 0 bs < 2 ^ 32) (flash : Flash)
    (s : Setup) (c : flash.Chip) (image : Memory) (size : ℕ)
    → IsBytes image
    → IsBytes (save_config_image crc32_le flash s c image size).image
save_config_image-IsBytes crc32_le range flash s c image size b =
    elim (Option-cases (check_image s image size)) [
      | inr (x, k) ↦ rw (save_config_image-refused crc32_le flash s c image size k) b
      | inl k ↦ elim (Option-cases (fill_crc crc32_le image size)) [
        | inl l ↦ rw (save_config_image-wrong crc32_le flash s c image size k l) b
        | inr (image', l) ↦ rw (save_config_image-store crc32_le flash s c image size k l) (
            rw (store_image-image crc32_le flash s c image' size)
              (fill_crc-IsFilled crc32_le range image size b l).bytes)
      ]
    ]

module _ {flash : Flash} {api : OtaApi} where
  -- The state in which a handler leaves the server.
  abbrev pub state : Closed (Server flash api) → Server flash api
  state (returns s) = s
  state (restarts s) = s

  module _ (crc32_le : ℕ → List ℕ → ℕ) where
    abbrev pub IsPlain : Server flash api → Call → Type 0
    IsPlain s (write_data buffer len) = IsBytes buffer
    IsPlain s close = IsClosable crc32_le s.job s.ota_cfg_buffer s.cur_ptr
    IsPlain s (write_request file) = Unit {0}
    IsPlain s (read_request file) = Unit {0}
    IsPlain s (read_data len) = Unit {0}

    -- Calls of which this holds, each in the state that the calls before it leave.
    abbrev pub AllPlain : Server flash api → List Call → Type 0
    AllPlain s [] = Unit {0}
    AllPlain s (c ∷ calls) =
        IsPlain s c
        × ((s' : Server flash api) → step crc32_le s c ≡ some (returns s') → AllPlain s' calls)

    -- The store's run from one state of the server to another.
    pub record Stored (s s' : Server flash api) : Type 0 where
      pub events : List Event
      pub run_of : Run crc32_le flash s.setup s.chip events s'.setup s'.chip
      pub bytes : IsBytes s'.ota_cfg_buffer

    pub SameStore-Stored :
        (s s' : Server flash api) → IsBytes s.ota_cfg_buffer → SameStore s s' → Stored s s'
    SameStore-Stored s s' b t = record {
      events = [];
      run_of = rw t.setup (rw t.chip stops);
      bytes = t.bytes b;
    }

    report-Stored :
        (s s1 : Server flash api) (e : Option SaveError) (events : List Event)
        → Run crc32_le flash s.setup s.chip events s1.setup s1.chip
        → IsBytes s1.ota_cfg_buffer
        → Stored s (state (report s1 (save_text e)))
    unfolding report say
    report-Stored s s1 none events r b = record { events = events; run_of = r; bytes = b }
    report-Stored s s1 (some e) events r b = record {
      events = events;
      run_of = r;
      bytes = overlay_bytes s1.ota_cfg_buffer 0 _ b (error_text-AllBytes e);
    }

    close_firmware-Stored :
        (s : Server flash api) → IsBytes s.ota_cfg_buffer → Stored s (state (close_firmware s))
    unfolding close_firmware report say
    close_firmware-Stored s b = elim (Bool-cases (s.m_ota_handle == 0)) [
      | inl x ↦ rw x (record { events = []; run_of = stops; bytes = b })
      | inr x ↦ elim (Bool-cases (api.finish s.slots s.m_ota_handle).0) [
        | inl y ↦ rw x (rw y (record { events = []; run_of = stops; bytes = b }))
        | inr y ↦ rw x (
            rw y (record {
              events = [];
              run_of = stops;
              bytes = overlay_bytes s.ota_cfg_buffer 0 _ b (omega arith);
            }))
      ]
    ]

    pub dispatch_close-Stored :
        (crc_range : (bs : List ℕ) → crc32_le 0 bs < 2 ^ 32) (j : Job) (s : Server flash api)
        → IsBytes s.ota_cfg_buffer
        → IsClosable crc32_le j s.ota_cfg_buffer s.cur_ptr
        → Stored s (state (dispatch_close crc32_le j s))
    unfolding dispatch_close after_save
    dispatch_close-Stored range load_fw s b p = close_firmware-Stored s b
    dispatch_close-Stored range load_cfg s b p =
        let r = save_config_image crc32_le flash s.setup s.chip s.ota_cfg_buffer s.cur_ptr in
        report-Stored s (after_save s r) r.error _
          (goes (saves s.ota_cfg_buffer s.cur_ptr b p) stops)
          (save_config_image-IsBytes crc32_le range flash s.setup s.chip s.ota_cfg_buffer s.cur_ptr
            b)
    dispatch_close-Stored range load_fcfg s b p = absurd p
    dispatch_close-Stored range idle s b p = report-Stored s s none [] stops b
    dispatch_close-Stored range send_cfg s b p = report-Stored s s none [] stops b
    dispatch_close-Stored range send_fcfg s b p = report-Stored s s none [] stops b
