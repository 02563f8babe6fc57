-- ===== src/Ota/Bounds.antt =====
-- The bounds of on_write_data for a configuration: what its guard keeps out, and what passes it.
use mstd.Prelude.{
  ℕ, ◌+◌, ◌-◌, ◌^◌, ◌≤◌, ◌<◌, ◌≡◌, refl, inl, inr, Option, none, some, Memory, window, overlay, leb,
  arith, codes, Bool-cases,
}
use mstd.Setup.Flash.{Flash}
use mstd.Setup.Scan.{max_cfg_size}
use mstd.Ota.Api.{OtaApi}
use mstd.Ota.Server.{Server, say}
use mstd.Ota.Handlers.{ota_error}
use mstd.Ota.Transfer.{copy_chunk, on_write_data}
use mstd.Ota.Upload.{
  IsConfigJob, dispatch_data-config, copy_chunk-fits, copy_chunk-drops, inc_cur_ptr-config,
}

module _ {flash : Flash} {api : OtaApi} where
  -- What on_write_data answers for a chunk of len bytes.
  pub data Answer (s : Server flash api) (buffer : Memory) (len : ℕ)
      : Option (Option ℕ × Server flash api) → Type 0 where
    stored :
        {s' : Server flash api}
        → s.cur_ptr + len ≤ max_cfg_size
        → s'.cur_ptr ≡ s.cur_ptr + len
        → s'.ota_cfg_buffer ≡ overlay s.ota_cfg_buffer s.cur_ptr (window buffer 0 len)
        → s'.job ≡ s.job
        → Answer s buffer len (some (some len, s'))
    dropped :
        max_cfg_size < s.cur_ptr + len
        → Answer s buffer len (some (none, say s (ota_error (codes "Cfg buffer overflow"))))

  -- In a configuration upload a chunk whose length is not negative never overruns the buffer: it is stored behind the bytes
  -- received so far if it fits, and is dropped with a message, and nothing else changed, if not.
  pub on_write_data-Answer :
      (s : Server flash api) (buffer : Memory) (len : ℕ)
      → IsConfigJob s.job
      → s.cur_ptr ≤ max_cfg_size
      → len < 2 ^ 31
      → Answer s buffer len (on_write_data s buffer len)
  unfolding on_write_data
  on_write_data-Answer s buffer len j c h = elim (Bool-cases (leb (s.cur_ptr + len) max_cfg_size)) [
    | inl b ↦
        let fits : s.cur_ptr + len ≤ max_cfg_size = ground arith in
        let s1 = record s {
          ota_cfg_buffer = overlay s.ota_cfg_buffer s.cur_ptr (window buffer 0 len);
        } in
        rw
          (
            dispatch_data-config s.job s buffer len j,
            copy_chunk-fits s buffer len fits,
            inc_cur_ptr-config s1 len j fits,
          )
          (stored fits refl refl refl)
    | inr b ↦
        rw
          (
            dispatch_data-config s.job s buffer len j,
            copy_chunk-drops s buffer len (ground arith) h c,
          )
          (dropped (ground arith))
  ]

  -- In a configuration upload a negative length of at most the bytes received passes the guard, since the sum wraps, and the
  -- copy overruns the buffer.
  pub on_write_data-overruns :
      (s : Server flash api) (buffer : Memory) (k : ℕ)
      → IsConfigJob s.job
      → s.cur_ptr ≤ max_cfg_size
      → 0 < k
      → k ≤ s.cur_ptr
      → on_write_data s buffer (2 ^ 32 - k) ≡ none
  unfolding on_write_data copy_chunk
  on_write_data-overruns s buffer k j c h l =
      rw (dispatch_data-config s.job s buffer (2 ^ 32 - k) j) (ground arith)
