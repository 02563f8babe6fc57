-- ===== src/Ota/Transfer.antt =====
-- The handlers of TftpOtaServer that move data: on_write_data and on_read_data.
use mstd.Prelude.{
  ℕ, ◌+◌, ◌-◌, Option, none, some, List, Memory, min, window, overlay, add_size, ltb, leb, ◌==◌,
  not, if◌then◌else◌, codes,
}
use mstd.Setup.Flash.{Flash}
use mstd.Setup.Scan.{max_cfg_size}
use mstd.Ota.Api.{OtaApi}
use mstd.Ota.Server.{
  Server, Job, idle, load_fw, load_cfg, load_fcfg, send_cfg, send_fcfg, say, inc_cur_ptr,
}
use mstd.Ota.Handlers.{ota_error}

module _ {flash : Flash} {api : OtaApi} where
  -- A chunk of a configuration. len is the int as a 32-bit pattern; the sum is taken in size_t. The
  -- outer `none` is a memcpy past the end of ota_cfg_buffer, the inner one the answer -1.
  unfoldable pub copy_chunk : Server flash api → Memory → ℕ → Option (Option ℕ × Server flash api)
  copy_chunk s buffer len =
      if not (leb (add_size len s.cur_ptr) max_cfg_size)
      then some (none, say s (ota_error (codes "Cfg buffer overflow")))
      else if ltb max_cfg_size (s.cur_ptr + len)
      then none
      else some (
        some len,
        inc_cur_ptr
            (record s { ota_cfg_buffer = overlay s.ota_cfg_buffer s.cur_ptr (window buffer 0 len) })
            len,
      )

  unfoldable pub write_firmware :
      Server flash api → Memory → ℕ → Option (Option ℕ × Server flash api)
  write_firmware s buffer len =
      let r = api.write s.slots s.m_ota_handle (window buffer 0 len) in
      let s' = record s { slots = r.1 } in
      if s.m_ota_handle == 0
      then some (none, s)
      else if not r.0
      then some (none, say s' (ota_error (codes "Fail to write to part")))
      else some (some len, inc_cur_ptr s' len)

  unfoldable pub dispatch_data :
      Job → Server flash api → Memory → ℕ → Option (Option ℕ × Server flash api)
  dispatch_data load_fw s buffer len = write_firmware s buffer len
  dispatch_data load_cfg s buffer len = copy_chunk s buffer len
  dispatch_data load_fcfg s buffer len = copy_chunk s buffer len
  dispatch_data idle s buffer len = some (none, s)
  dispatch_data send_cfg s buffer len = some (none, s)
  dispatch_data send_fcfg s buffer len = some (none, s)

  unfoldable pub on_write_data :
      Server flash api → Memory → ℕ → Option (Option ℕ × Server flash api)
  on_write_data s buffer len = dispatch_data s.job s buffer len

  -- The bytes that a read copies, from an area of `total` bytes at `base` of cfg_full; their number
  -- is the answer. Behind the end of the area the rest is negative, and memcpy overruns.
  unfoldable pub read_area :
      Server flash api → ℕ → ℕ → ℕ → Option (Option (List ℕ) × Server flash api)
  read_area s base total len =
      let n = min len (total - s.cur_ptr) in
      if ltb total s.cur_ptr
      then none
      else some (some (window s.setup.cfg_full (base + s.cur_ptr) n), inc_cur_ptr s n)

  unfoldable pub dispatch_fetch :
      Job → Server flash api → ℕ → Option (Option (List ℕ) × Server flash api)
  dispatch_fetch send_cfg s len = elim s.setup.config [
    | none ↦ some (none, s)
    | some p ↦ read_area s p s.setup.cfg_size len
  ]
  dispatch_fetch send_fcfg s len =
      if s.setup.cfg_full_loaded then read_area s 0 max_cfg_size len else some (none, s)
  dispatch_fetch idle s len = some (none, s)
  dispatch_fetch load_fw s len = some (none, s)
  dispatch_fetch load_cfg s len = some (none, s)
  dispatch_fetch load_fcfg s len = some (none, s)

  -- The caller asks for a length that is not negative.
  unfoldable pub on_read_data : Server flash api → ℕ → Option (Option (List ℕ) × Server flash api)
  on_read_data s len = dispatch_fetch s.job s len
