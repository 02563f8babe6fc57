-- ===== src/Ota/Slots.antt =====
-- A whole firmware transfer: what is written into the slot, and the switch of the boot partition.
use mstd.Prelude.{
  ℕ, ◌≡◌, ◌≢◌, refl, ap, ap₂, Memory, ◌∙◌, sym, true, Option, some, List, [], ◌∷◌, window-buffer_of,
  buffer_of, length, ne→==, arith,
}
use mstd.Setup.Flash.{Flash}
use mstd.Ota.Api.{OtaApi}
use mstd.Ota.Server.{Server, Job, load_fw, file_job, test_file_name, inc_cur_ptr, say}
use mstd.Ota.Handlers.{on_write, dispatch_write, begin_firmware, accept_transfer}
use mstd.Ota.Transfer.{on_write_data, dispatch_data, write_firmware}
use mstd.Ota.Close.{restarts, on_close, dispatch_close, close_firmware}
use mstd.Ota.Upload.{write_all}
use mstd.Ota.Session.{upload}

-- Chunks written into the slot of a handle one after another, each with success.
pub data Written (api : OtaApi) (handle : ℕ) : api.Slots → List (List ℕ) → api.Slots → Type 0 where
  finished : {slots : api.Slots} → Written api handle slots [] slots
  chunk :
      {slots slots' : api.Slots} {bytes : List ℕ} {chunks : List (List ℕ)}
      → (api.write slots handle bytes).0 ≡ true
      → Written api handle (api.write slots handle bytes).1 chunks slots'
      → Written api handle slots (bytes ∷ chunks) slots'

module _ {flash : Flash} {api : OtaApi} where
  -- A server in a firmware transfer, with its handle, its partition and its slots.
  record IsLoading (s : Server flash api) (handle : ℕ) (part : Option ℕ) (state : api.Slots)
      : Type 0 where
    job : s.job ≡ load_fw
    open_handle : s.m_ota_handle ≡ handle
    partition : s.m_next_partition ≡ part
    slots : s.slots ≡ state

  inc_cur_ptr-IsLoading :
      (s : Server flash api) (n handle : ℕ) (part : Option ℕ) (state : api.Slots)
      → IsLoading s handle part state
      → IsLoading (inc_cur_ptr s n) handle part state
  unfolding inc_cur_ptr
  inc_cur_ptr-IsLoading s n handle part state l =
      ground (arith, l.job, l.open_handle, l.partition, l.slots)

  write_firmware-written :
      (s : Server flash api) (bytes : List ℕ)
      → s.m_ota_handle ≢ 0
      → (api.write s.slots s.m_ota_handle bytes).0 ≡ true
      → write_firmware s (buffer_of bytes 0) (length bytes)
        ≡ some (
          some (length bytes),
          inc_cur_ptr
              (record s { slots = (api.write s.slots s.m_ota_handle bytes).1 })
              (length bytes),
        )
  unfolding write_firmware
  write_firmware-written s bytes nz ok =
      rw (window-buffer_of bytes 0) (rw (ne→== s.m_ota_handle 0 nz) (rw ok refl))

  on_write_data-firmware :
      (s : Server flash api) (buffer : Memory) (len : ℕ)
      → s.job ≡ load_fw
      → on_write_data s buffer len ≡ write_firmware s buffer len
  unfolding on_write_data dispatch_data
  on_write_data-firmware s buffer len j = rw j refl

  write_all-Written :
      {handle : ℕ} {state : api.Slots} {chunks : List (List ℕ)} {state' : api.Slots}
      (s : Server flash api) (part : Option ℕ)
      → handle ≢ 0
      → IsLoading s handle part state
      → Written api handle state chunks state'
      → (s' : Server flash api) × (write_all s chunks ≡ some s') × IsLoading s' handle part state'
  unfolding write_all
  write_all-Written s part nz l finished = (s, refl, l)
  write_all-Written {handle = handle} s part nz l (chunk {slots = slots} {bytes = bytes} ok w) =
      let same : api.write s.slots s.m_ota_handle bytes ≡ api.write slots handle bytes =
        ap₂ (λ x h. api.write x h bytes) l.slots l.open_handle in
      let one =
        on_write_data-firmware s (buffer_of bytes 0) (length bytes) l.job
        ∙ write_firmware-written s bytes (λ e. nz (sym l.open_handle ∙ e))
            (ap (λ r. r.0) same ∙ ok) in
      let s1 = record s { slots = (api.write s.slots s.m_ota_handle bytes).1 } in
      let next =
        inc_cur_ptr-IsLoading s1 (length bytes) handle part (api.write slots handle bytes).1
          (record {
            job = l.job;
            open_handle = l.open_handle;
            partition = l.partition;
            slots = ap (λ r. r.1) same;
          }) in
      let rest = write_all-Written (inc_cur_ptr s1 (length bytes)) part nz next w in
      (rest.0, rw (one, write_all) rest.1, rest.2)

  begin_firmware-IsLoading :
      (s : Server flash api) {part handle : ℕ}
      → s.job ≡ load_fw
      → api.next_update_partition s.slots ≡ some part
      → (api.begin s.slots part).0 ≡ some handle
      → let r = begin_firmware s in
        (r.0 ≡ true) × IsLoading r.1 handle (some part) (api.begin s.slots part).1
  unfolding begin_firmware accept_transfer
  begin_firmware-IsLoading s j n b =
      rw (n, begin_firmware)
        (rw b (refl, record { job = j; open_handle = refl; partition = refl; slots = refl }))

  dispatch_write-load_fw :
      (j : Job) (s : Server flash api) → j ≡ load_fw → dispatch_write j s ≡ begin_firmware s
  unfolding dispatch_write
  dispatch_write-load_fw j s e = rw e refl

  on_write-IsLoading :
      (s : Server flash api) (file : List ℕ) {part handle : ℕ}
      → file_job file true ≡ load_fw
      → api.next_update_partition s.slots ≡ some part
      → (api.begin s.slots part).0 ≡ some handle
      → let r = on_write s file in
        (r.0 ≡ true) × IsLoading r.1 handle (some part) (api.begin s.slots part).1
  unfolding on_write test_file_name
  on_write-IsLoading s file e n b =
      let s' = record (test_file_name s file true) { ota_cfg_buffer = λ i. 0xff } in
      rw (dispatch_write-load_fw s'.job s' e) (begin_firmware-IsLoading s' e n b)

  close_firmware-accepted :
      (s : Server flash api)
      → s.m_ota_handle ≢ 0
      → (api.finish s.slots s.m_ota_handle).0 ≡ true
      → (s' : Server flash api) × (close_firmware s ≡ restarts s')
        × (s'.slots
            ≡ api.set_boot_partition (api.finish s.slots s.m_ota_handle).1 s.m_next_partition)
  unfolding close_firmware say
  close_firmware-accepted s nz ok = rw (ne→== s.m_ota_handle 0 nz) (rw ok (_, refl, refl))

  dispatch_close-load_fw :
      (crc32_le : ℕ → List ℕ → ℕ) (j : Job) (s : Server flash api)
      → j ≡ load_fw
      → dispatch_close crc32_le j s ≡ close_firmware s
  unfolding dispatch_close
  dispatch_close-load_fw crc32_le j s e = rw e refl

  module _ (crc32_le : ℕ → List ℕ → ℕ) where
    on_close-IsLoading :
        (s : Server flash api) {handle : ℕ} {part : Option ℕ} {state : api.Slots}
        → handle ≢ 0
        → IsLoading s handle part state
        → (api.finish state handle).0 ≡ true
        → (s' : Server flash api) × (on_close crc32_le s ≡ restarts s')
          × (s'.slots ≡ api.set_boot_partition (api.finish state handle).1 part)
    unfolding on_close
    on_close-IsLoading s {handle} {part} {state} nz l ok =
        let same : api.finish s.slots s.m_ota_handle ≡ api.finish state handle =
          ap₂ (λ x h. api.finish x h) l.slots l.open_handle in
        let t =
          close_firmware-accepted s (λ e. nz (sym l.open_handle ∙ e)) (ap (λ r. r.0) same ∙ ok) in
        (
          t.0,
          dispatch_close-load_fw crc32_le s.job s l.job ∙ t.1,
          t.2 ∙ ap₂ (λ r p. api.set_boot_partition r.1 p) same l.partition,
        )

    -- A firmware image, uploaded in any chunks under a name that ends in .bin, is written into the
    -- next slot chunk by chunk, and that slot becomes the boot partition when the board restarts:
    -- if a slot is found and opened with a handle that is not 0, every write of it succeeds and
    -- esp_ota_end accepts the image.
    pub upload-Written :
        (s : Server flash api) (file : List ℕ) (chunks : List (List ℕ)) {part handle : ℕ}
        {state : api.Slots}
        → file_job file true ≡ load_fw
        → api.next_update_partition s.slots ≡ some part
        → (api.begin s.slots part).0 ≡ some handle
        → handle ≢ 0
        → Written api handle (api.begin s.slots part).1 chunks state
        → (api.finish state handle).0 ≡ true
        → (s' : Server flash api) × (upload crc32_le s file chunks ≡ some (restarts s'))
          × (s'.slots ≡ api.set_boot_partition (api.finish state handle).1 (some part))
    unfolding upload
    upload-Written s file chunks {part} e n b nz w ok =
        let start = on_write-IsLoading s file e n b in
        let all = write_all-Written (on_write s file).1 (some part) nz start.1 w in
        let close = on_close-IsLoading all.0 nz all.2 ok in
        (close.0, rw start.0 (rw all.1 (ap some close.1)), close.2)
