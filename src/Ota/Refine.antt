-- ===== src/Ota/Refine.antt =====
-- The update server as a client of the store: any calls of its handlers are a run of saves, so the
-- configuration that is kept survives them as it survives that run.
use mathlib.Core.Path.{subst}
use mstd.Prelude.{ℕ, ◌^◌, ◌<◌, ◌≡◌, refl, Option, none, some, List, [], ◌∷◌, ◌++◌, IsBytes}
use mstd.Setup.Flash.{Flash}
use mstd.Setup.History.{Refines}
use mstd.Setup.Outages.{KeepsAll, stops, Run-append}
use mstd.Setup.Survival.{IsFailing, run-Refines}
use mstd.Ota.Api.{OtaApi}
use mstd.Ota.Server.{Server}
use mstd.Ota.Transfer.{on_write_data, on_read_data}
use mstd.Ota.Close.{Closed, returns, restarts, on_close}
use mstd.Ota.Calls.{
  Call, write_request, read_request, write_data, read_data, close, AllCalls, step, run,
}
use mstd.Ota.Safety.{IsSafe}
use mstd.Ota.SafeRun.{run-Good}
use mstd.Ota.Stores.{
  Moves, on_write-SameStore, on_read-SameStore, dispatch_data-Moves, dispatch_fetch-Moves,
}
use mstd.Ota.Closes.{state, IsPlain, AllPlain, Stored, SameStore-Stored, dispatch_close-Stored}

module _ {flash : Flash} {api : OtaApi} (crc32_le : ℕ → List ℕ → ℕ) where
  Stored-eq :
      (s : Server flash api) {o o' : Closed (Server flash api)}
      → some o ≡ some o'
      → Stored crc32_le s (state o)
      → Stored crc32_le s (state o')
  Stored-eq s {o} {o'} e t =
      let same : o ≡ o' = cc in subst (λ x. Stored crc32_le s (state x)) same t

  moved-Stored :
      {A : Type 0} (s : Server flash api) (x : Option (A × Server flash api))
      {o : Closed (Server flash api)}
      → IsBytes s.ota_cfg_buffer
      → Moves s x
      → (elim x as (λ y. Option (Closed (Server flash api))) [
        | none ↦ none
        | some (answer, s') ↦ some (returns s')
      ])
        ≡ some o
      → Stored crc32_le s (state o)
  moved-Stored s none b t e = cc
  moved-Stored s (some (answer, s')) b t e = Stored-eq s e (SameStore-Stored crc32_le s s' b t)

  step-Stored :
      (crc_range : (bs : List ℕ) → crc32_le 0 bs < 2 ^ 32) (s : Server flash api) (c : Call)
      {o : Closed (Server flash api)}
      → IsBytes s.ota_cfg_buffer
      → IsPlain crc32_le s c
      → step crc32_le s c ≡ some o
      → Stored crc32_le s (state o)
  unfolding step on_write_data on_read_data on_close
  step-Stored range s (write_request file) b p e =
      Stored-eq s e (SameStore-Stored crc32_le s _ b (on_write-SameStore s file))
  step-Stored range s (read_request file) b p e =
      Stored-eq s e (SameStore-Stored crc32_le s _ b (on_read-SameStore s file))
  step-Stored range s (write_data buffer len) b p e =
      moved-Stored s (on_write_data s buffer len) b (dispatch_data-Moves s.job s buffer len p) e
  step-Stored range s (read_data len) b p e =
      moved-Stored s (on_read_data s len) b (dispatch_fetch-Moves s.job s len) e
  step-Stored range s close b p e = Stored-eq s e (dispatch_close-Stored crc32_le range s.job s b p)

  Stored-trans :
      (s s' s'' : Server flash api)
      → Stored crc32_le s s'
      → Stored crc32_le s' s''
      → Stored crc32_le s s''
  Stored-trans s s' s'' t u = record {
    events = t.events ++ u.events;
    run_of = Run-append crc32_le flash t.run_of u.run_of;
    bytes = u.bytes;
  }

  run-Stored :
      (crc_range : (bs : List ℕ) → crc32_le 0 bs < 2 ^ 32) (s : Server flash api)
      (calls : List Call) {o : Closed (Server flash api)}
      → IsBytes s.ota_cfg_buffer
      → AllPlain crc32_le s calls
      → run crc32_le s calls ≡ some o
      → Stored crc32_le s (state o)
  unfolding run
  run-Stored range s [] b p e = Stored-eq s e (record { events = []; run_of = stops; bytes = b })
  run-Stored range s (c ∷ calls) {o} b p e =
      first (step crc32_le s c) refl e
        (λ s' q. run-Stored range s' calls {o = o} (step-Stored range s c b p.0 q).bytes (p.1 s' q))
    where
      first :
          (x : Option (Closed (Server flash api)))
          → step crc32_le s c ≡ x
          → (elim x as (λ y. Option (Closed (Server flash api))) [
            | none ↦ none
            | some (restarts s') ↦ some (restarts s')
            | some (returns s') ↦ run crc32_le s' calls
          ])
            ≡ some o
          → ((s' : Server flash api)
              → step crc32_le s c ≡ some (returns s')
              → run crc32_le s' calls ≡ some o
              → Stored crc32_le s' (state o))
          → Stored crc32_le s (state o)
      first none q e' rest = cc
      first (some (restarts s')) q e' rest = Stored-eq s e' (step-Stored range s c b p.0 q)
      first (some (returns s')) q e' rest =
          Stored-trans s s' (state o) (step-Stored range s c b p.0 q) (rest s' q e')

  -- Any calls of the handlers from a safe state, in any order, come to an end, and are a run of
  -- saves of the store, which refines the abstract one: so a configuration that is kept survives
  -- them as it survives that run. Reads and erases of the chip succeed, and a write that fails has
  -- stored a first part of its bytes; what is uploaded is bytes, no upload of the whole partition
  -- is closed, and no configuration that is closed has the mark of a free slot for its checksum of
  -- 32 bits; lengths are ints that are not negative.
  pub calls-Refines :
      (crc_range : (bs : List ℕ) → crc32_le 0 bs < 2 ^ 32) (failing : IsFailing crc32_le flash)
      (s : Server flash api) (kept : Option (List ℕ)) (calls : List Call)
      → IsSafe s
      → AllCalls calls
      → IsBytes s.ota_cfg_buffer
      → AllPlain crc32_le s calls
      → Refines crc32_le flash s.setup s.chip kept
      → (o : Closed (Server flash api)) × (run crc32_le s calls ≡ some o)
        × (t : Stored crc32_le s (state o)) × (k : Option (List ℕ)) × KeepsAll crc32_le kept
            t.events k
        × Refines crc32_le flash (state o).setup (state o).chip k
  calls-Refines range failing s kept calls safe lengths b p h =
      let o = run-Good crc32_le s calls safe lengths in
      let t = run-Stored range s calls b p o.1 in
      let k = run-Refines crc32_le flash range failing kept h t.run_of in
      (o.0, o.1, t, k.0, k.1, k.2)
