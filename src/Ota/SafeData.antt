-- ===== src/Ota/SafeData.antt =====
-- The handlers that move data never overrun a buffer from a safe state.
use mstd.Prelude.{
  ℕ, ◌+◌, ◌-◌, ◌^◌, ◌≤◌, ◌<◌, ◌≡◌, refl, inl, inr, true, false, Option, none, some, List, Memory,
  window, codes, add_size, leb, ◌==◌, if◌then◌else◌, min, Bool-cases, arith,
}
use mstd.Setup.Flash.{Flash}
use mstd.Setup.Scan.{max_cfg_size}
use mstd.Ota.Api.{OtaApi}
use mstd.Ota.Server.{Server, Job, idle, load_fw, load_cfg, load_fcfg, send_cfg, send_fcfg}
use mstd.Ota.Handlers.{ota_error}
use mstd.Ota.Transfer.{copy_chunk, dispatch_data, dispatch_fetch, write_firmware, read_area}
use mstd.Ota.Close.{returns}
use mstd.Ota.Upload.{copy_chunk-fits, copy_chunk-drops}
use mstd.Ota.Download.{read_area-inside}
use mstd.Ota.Safety.{InBounds, Inside, IsSafe, Good, same, kept, moved, say-Keeps}

module _ {flash : Flash} {api : OtaApi} where
  -- A call that hands over data: no overrun, and a good state.
  pub data Fine {A : Type 0} (s : Server flash api) : Option (A × Server flash api) → Type 0 where
    fine : {a : A} {s' : Server flash api} → Good s (returns s') → Fine s (some (a, s'))

  copy_chunk-Fine :
      (s : Server flash api) (buffer : Memory) (len : ℕ)
      → IsSafe s
      → s.cur_ptr ≤ max_cfg_size
      → ((cur : ℕ) → cur ≤ max_cfg_size → InBounds s.job s.setup.cfg_size cur)
      → len < 2 ^ 31
      → Fine s (copy_chunk s buffer len)
  copy_chunk-Fine s buffer len h c b l = elim (Bool-cases (leb (s.cur_ptr + len) max_cfg_size)) [
    | inl x ↦
        let fits : s.cur_ptr + len ≤ max_cfg_size = ground arith in
        rw (copy_chunk-fits s buffer len fits)
          (fine (moved s _ len h refl refl (b (add_size s.cur_ptr len) (omega arith))))
    | inr x ↦
        rw (copy_chunk-drops s buffer len (ground arith) l c) (fine (kept s _ h (say-Keeps s _)))
  ]

  write_firmware-Fine :
      (s : Server flash api) (buffer : Memory) (len : ℕ)
      → IsSafe s
      → s.job ≡ load_fw
      → Fine s (write_firmware s buffer len)
  unfolding write_firmware
  write_firmware-Fine s buffer len h j = elim (Bool-cases (s.m_ota_handle == 0)) [
    | inl x ↦ rw x (fine (same s h))
    | inr x ↦
        let s1 = record s { slots = (api.write s.slots s.m_ota_handle (window buffer 0 len)).1 } in
        elim (Bool-cases (api.write s.slots s.m_ota_handle (window buffer 0 len)).0) [
          | inl y ↦ rw x (rw y (fine (moved s s1 len h refl refl (rw j tt))))
          | inr y ↦
              let k = say-Keeps s1 (ota_error (codes "Fail to write to part")) in
              rw x (
                rw y (
                  fine (kept s _ h (record { job = k.job; cur_ptr = k.cur_ptr; setup = k.setup }))))
        ]
  ]

  pub dispatch_data-Fine :
      (j : Job) (s : Server flash api) (buffer : Memory) (len : ℕ)
      → s.job ≡ j
      → IsSafe s
      → len < 2 ^ 31
      → Fine s (dispatch_data j s buffer len)
  unfolding dispatch_data
  dispatch_data-Fine load_fw s buffer len j h l = write_firmware-Fine s buffer len h j
  dispatch_data-Fine load_cfg s buffer len j h l =
      copy_chunk-Fine s buffer len h (rw j at h.position) (λ cur b. rw j b) l
  dispatch_data-Fine load_fcfg s buffer len j h l =
      copy_chunk-Fine s buffer len h (rw j at h.position) (λ cur b. rw j b) l
  dispatch_data-Fine idle s buffer len j h l = fine (same s h)
  dispatch_data-Fine send_cfg s buffer len j h l = fine (same s h)
  dispatch_data-Fine send_fcfg s buffer len j h l = fine (same s h)

  read_area-Fine :
      (s : Server flash api) (base total len : ℕ)
      → IsSafe s
      → s.cur_ptr ≤ total
      → total ≤ max_cfg_size
      → ((cur : ℕ) → cur ≤ total → InBounds s.job s.setup.cfg_size cur)
      → Fine s (read_area s base total len)
  read_area-Fine s base total len h c t b =
      let n = min len (total - s.cur_ptr) in
      rw (read_area-inside s base total len c)
        (fine (moved s s n h refl refl (b (add_size s.cur_ptr n) (omega arith))))

  pub dispatch_fetch-Fine :
      (j : Job) (s : Server flash api) (len : ℕ)
      → s.job ≡ j
      → IsSafe s
      → Fine s (dispatch_fetch j s len)
  unfolding dispatch_fetch
  dispatch_fetch-Fine send_cfg s len j h = config_fetch s.setup.config h.config
    where
      config_fetch :
          (config : Option ℕ)
          → Inside config s.setup.cfg_size
          → Fine s (elim config as (λ x. Option (Option (List ℕ) × Server flash api)) [
            | none ↦ some (none, s)
            | some p ↦ read_area s p s.setup.cfg_size len
          ])
      config_fetch none i = fine (same s h)
      config_fetch (some p) i =
          read_area-Fine s p s.setup.cfg_size len h (rw j at h.position) (omega arith)
            (λ cur b. rw j b)
  dispatch_fetch-Fine send_fcfg s len j h =
      elim s.setup.cfg_full_loaded
        as (λ x. Fine s (if x then read_area s 0 max_cfg_size len else some (none, s))) [
          | true ↦
              read_area-Fine s 0 max_cfg_size len h (rw j at h.position) (omega arith)
                (λ cur b. rw j b)
          | false ↦ fine (same s h)
        ]
  dispatch_fetch-Fine idle s len j h = fine (same s h)
  dispatch_fetch-Fine load_fw s len j h = fine (same s h)
  dispatch_fetch-Fine load_cfg s len j h = fine (same s h)
  dispatch_fetch-Fine load_fcfg s len j h = fine (same s h)
