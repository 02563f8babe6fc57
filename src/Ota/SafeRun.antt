-- ===== src/Ota/SafeRun.antt =====
-- No order of calls makes a handler overrun a buffer, and none changes what the server hands out.
use mstd.Prelude.{
  ℕ, ◌+◌, ◌≤◌, ◌≡◌, refl, inl, inr, Option, none, some, List, [], ◌∷◌, Memory, Bool-cases, ◌==◌,
}
use mstd.Setup.Flash.{Flash}
use mstd.Setup.Save.{at_reset, load_config}
use mstd.Setup.Load.{load_config-inside}
use mstd.Setup.Scan.{max_cfg_size}
use mstd.Setup.Keeps.{
  SameConfig, SameConfig-refl, SameConfig-trans, save_config_image-SameConfig,
  save_config_full-SameConfig,
}
use mstd.Ota.Api.{OtaApi}
use mstd.Ota.Server.{Server, Job, idle, load_fw, load_cfg, load_fcfg, send_cfg, send_fcfg, say}
use mstd.Ota.Transfer.{on_write_data, on_read_data}
use mstd.Ota.Close.{
  Closed, returns, restarts, on_close, dispatch_close, close_firmware, report, after_save,
}
use mstd.Ota.Calls.{
  Call, write_request, read_request, write_data, read_data, close, IsCall, AllCalls, step, run,
}
use mstd.Ota.Safety.{Inside, IsSafe, Good, returned, restarted, same, on_write-Good, on_read-Good}
use mstd.Ota.SafeData.{Fine, fine, dispatch_data-Fine, dispatch_fetch-Fine}

Inside-all :
    (config : Option ℕ) (size : ℕ)
    → ((p : ℕ) → config ≡ some p → p + size ≤ max_cfg_size)
    → Inside config size
Inside-all none size h = tt
Inside-all (some p) size h = h p refl

module _ {flash : Flash} {api : OtaApi} where
  report-Good :
      (s s1 : Server flash api) (text : Option (List ℕ))
      → IsSafe s
      → s1.job ≡ s.job
      → s1.cur_ptr ≡ s.cur_ptr
      → SameConfig s.setup s1.setup
      → Good s (report s1 text)
  unfolding report say
  report-Good s s1 none h j c e =
      returned
        (record {
          position = rw (j, c, e.cfg_size) h.position;
          config = rw (e.config, e.cfg_size) h.config;
        })
        e
  report-Good s s1 (some text) h j c e =
      returned
        (record {
          position = rw (j, c, e.cfg_size) h.position;
          config = rw (e.config, e.cfg_size) h.config;
        })
        (record {
          config = e.config;
          cfg_size = e.cfg_size;
          cfg_full = e.cfg_full;
          loaded = e.loaded;
        })

  close_firmware-Good : (s : Server flash api) → IsSafe s → Good s (close_firmware s)
  unfolding close_firmware say
  close_firmware-Good s h = elim (Bool-cases (s.m_ota_handle == 0)) [
    | inl x ↦ rw x (report-Good s s none h refl refl (SameConfig-refl s.setup))
    | inr x ↦ elim (Bool-cases (api.finish s.slots s.m_ota_handle).0) [
      | inl y ↦ rw x (rw y (restarted (SameConfig-refl s.setup)))
      | inr y ↦ rw x (rw y (report-Good s _ _ h refl refl (SameConfig-refl s.setup)))
    ]
  ]

  -- A handler that hands over data returns to the library.
  handed-Good :
      {A : Type 0} (s : Server flash api) (x : Option (A × Server flash api))
      → Fine s x
      → (o : Closed (Server flash api)) × ((elim x as (λ y. Option (Closed (Server flash api))) [
        | none ↦ none
        | some (answer, s') ↦ some (returns s')
      ])
          ≡ some o)
        × Good s o
  handed-Good s _ (fine g) = (_, refl, g)

  module _ (crc32_le : ℕ → List ℕ → ℕ) where
    dispatch_close-Good :
        (j : Job) (s : Server flash api) → IsSafe s → Good s (dispatch_close crc32_le j s)
    unfolding dispatch_close after_save
    dispatch_close-Good load_fw s h = close_firmware-Good s h
    dispatch_close-Good load_cfg s h =
        report-Good s _ _ h refl refl
          (save_config_image-SameConfig crc32_le flash s.setup s.chip s.ota_cfg_buffer s.cur_ptr)
    dispatch_close-Good load_fcfg s h =
        report-Good s _ _ h refl refl
          (save_config_full-SameConfig crc32_le flash s.setup s.chip s.ota_cfg_buffer)
    dispatch_close-Good idle s h = report-Good s s none h refl refl (SameConfig-refl s.setup)
    dispatch_close-Good send_cfg s h = report-Good s s none h refl refl (SameConfig-refl s.setup)
    dispatch_close-Good send_fcfg s h = report-Good s s none h refl refl (SameConfig-refl s.setup)

    step-Good :
        (s : Server flash api) (c : Call)
        → IsSafe s
        → IsCall c
        → (o : Closed (Server flash api)) × (step crc32_le s c ≡ some o) × Good s o
    unfolding step on_write_data on_read_data on_close
    step-Good s (write_request file) h i = (_, refl, on_write-Good s file h)
    step-Good s (read_request file) h i = (_, refl, on_read-Good s file h)
    step-Good s close h i = (_, refl, dispatch_close-Good s.job s h)
    step-Good s (write_data buffer len) h i =
        handed-Good s (on_write_data s buffer len) (dispatch_data-Fine s.job s buffer len refl h i)
    step-Good s (read_data len) h i =
        handed-Good s (on_read_data s len) (dispatch_fetch-Fine s.job s len refl h)

    run-after :
        (s s' : Server flash api) (o : Closed (Server flash api))
        → SameConfig s.setup s'.setup
        → Good s' o
        → Good s o
    run-after s s' _ e (returned h e') = returned h (SameConfig-trans e e')
    run-after s s' _ e (restarted e') = restarted (SameConfig-trans e e')

    -- A run of calls from a safe state.
    pub run-Good :
        (s : Server flash api) (calls : List Call)
        → IsSafe s
        → AllCalls calls
        → (o : Closed (Server flash api)) × (run crc32_le s calls ≡ some o) × Good s o
    unfolding run
    run-Good s [] h i = (_, refl, same s h)
    run-Good s (c ∷ calls) h i =
        first (λ s' h'. run-Good s' calls h' i.1) (step crc32_le s c) (step-Good s c h i.0)
      where
        first :
            ((s' : Server flash api)
              → IsSafe s'
              → (o : Closed (Server flash api)) × (run crc32_le s' calls ≡ some o) × Good s' o)
            → (x : Option (Closed (Server flash api)))
            → (o : Closed (Server flash api)) × (x ≡ some o) × Good s o
            → (o : Closed (Server flash api)) × ((elim x
                  as (λ y. Option (Closed (Server flash api))) [
                    | none ↦ none
                    | some (restarts s') ↦ some (restarts s')
                    | some (returns s') ↦ run crc32_le s' calls
                  ])
                ≡ some o)
              × Good s o
        first rest x (_, e, restarted {s' = s'} e') = (restarts s', rw e refl, restarted e')
        first rest x (returns s', e, returned h' e') =
            let r = rest s' h' in (r.0, rw e r.1, run-after s s' r.0 e' r.2)

    -- After a restart nothing is under way, and the configuration that was found lies in the image.
    load_config-IsSafe :
        (s : Server flash api) (before : Memory)
        → s.job ≡ idle
        → load_config crc32_le flash (at_reset before) s.chip ≡ some s.setup
        → IsSafe s
    load_config-IsSafe s before j e = record {
      position = rw j tt;
      config = Inside-all s.setup.config _ (load_config-inside crc32_le flash before s.chip e);
    }

    -- From the state after a restart any calls of the handlers, in any order and of any contents,
    -- come to an end: no handler overruns a buffer, the state that is left is safe again, and the
    -- configuration and the image of the partition that the server hands out are those that were
    -- loaded, also when the calls have saved others. Lengths are ints that are not negative.
    pub run_started-Good :
        (s : Server flash api) (before : Memory) (calls : List Call)
        → s.job ≡ idle
        → load_config crc32_le flash (at_reset before) s.chip ≡ some s.setup
        → AllCalls calls
        → (o : Closed (Server flash api)) × (run crc32_le s calls ≡ some o) × Good s o
    run_started-Good s before calls j e h = run-Good s calls (load_config-IsSafe s before j e) h
