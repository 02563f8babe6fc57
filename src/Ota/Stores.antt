-- ===== src/Ota/Stores.antt =====
-- What the handlers do to the store: only on_close touches it, by a save.
use mstd.Prelude.{
  ℕ, zero, suc, ◌+◌, ◌-◌, ◌<◌, ◌≡◌, refl, ap, ◌∙◌, inl, inr, true, false, Option, none, some, List,
  [], ◌∷◌, Memory, IsBytes, AllBytes, window, overlay, overlay_inside, overlay_below, overlay_above,
  get_or, length, ltb, leb, add_size, min, ◌==◌, if◌then◌else◌, Bool-cases, arith,
}
use mstd.Setup.Flash.{Flash}
use mstd.Setup.Scan.{max_cfg_size}
use mstd.Ota.Api.{OtaApi}
use mstd.Ota.Server.{
  Server, Job, idle, load_fw, load_cfg, load_fcfg, send_cfg, send_fcfg, say, test_file_name,
  inc_cur_ptr,
}
use mstd.Ota.Handlers.{
  on_write, on_read, dispatch_write, dispatch_read, begin_firmware, accept_transfer,
  refuse_transfer,
}
use mstd.Ota.Transfer.{copy_chunk, dispatch_data, dispatch_fetch, write_firmware, read_area}

get_or-AllBytes : (bs : List ℕ) (k : ℕ) → AllBytes bs → k < length bs → get_or bs k 0 < 256
get_or-AllBytes [] k b h = absurd (omega arith)
get_or-AllBytes (x ∷ bs) zero b h = b.0
get_or-AllBytes (x ∷ bs) (suc k) b h = get_or-AllBytes bs k b.1 (omega arith)

window-AllBytes : (m : Memory) (a n : ℕ) → IsBytes m → AllBytes (window m a n)
unfolding window
window-AllBytes m a zero b = tt
window-AllBytes m a (suc n) b = (b a, window-AllBytes m (a + 1) n b)

-- Bytes written over bytes.
pub overlay_bytes :
    (m : Memory) (a : ℕ) (bs : List ℕ) → IsBytes m → AllBytes bs → IsBytes (overlay m a bs)
overlay_bytes m a bs h b i = elim (Bool-cases (ltb i a)) [
  | inl x ↦ rw (overlay_below m a bs i (ground arith)) (h i)
  | inr x ↦ elim (Bool-cases (ltb i (a + length bs))) [
    | inl y ↦
        let k = i - a in
        let at : i ≡ a + k = ground arith in
        let e : overlay m a bs i ≡ get_or bs k 0 =
          ap (overlay m a bs) at ∙ overlay_inside m a bs k (ground arith) in
        rw e (get_or-AllBytes bs k b (ground arith))
    | inr y ↦ rw (overlay_above m a bs i (ground arith)) (h i)
  ]
]

module _ {flash : Flash} {api : OtaApi} where
  -- The store and the chip as before, and a buffer of bytes still one.
  pub record SameStore (s s' : Server flash api) : Type 0 where
    pub setup : s'.setup ≡ s.setup
    pub chip : s'.chip ≡ s.chip
    pub bytes : IsBytes s.ota_cfg_buffer → IsBytes s'.ota_cfg_buffer

  pub same_buffer :
      (s s' : Server flash api)
      → s'.setup ≡ s.setup
      → s'.chip ≡ s.chip
      → s'.ota_cfg_buffer ≡ s.ota_cfg_buffer
      → SameStore s s'
  same_buffer s s' e f g = record { setup = e; chip = f; bytes = λ b. rw g b }

  dispatch_write-SameStore : (j : Job) (s : Server flash api) → SameStore s (dispatch_write j s).1
  unfolding dispatch_write begin_firmware accept_transfer refuse_transfer say
  dispatch_write-SameStore j s = same_buffer s _ (ground arith) (ground arith) (ground arith)

  dispatch_read-SameStore : (j : Job) (s : Server flash api) → SameStore s (dispatch_read j s).1
  unfolding dispatch_read accept_transfer refuse_transfer say
  dispatch_read-SameStore j s = same_buffer s _ (ground arith) (ground arith) (ground arith)

  pub on_write-SameStore : (s : Server flash api) (file : List ℕ) → SameStore s (on_write s file).1
  unfolding on_write test_file_name
  on_write-SameStore s file =
      let s0 = record (test_file_name s file true) { ota_cfg_buffer = λ i. 0xff } in
      let t = dispatch_write-SameStore s0.job s0 in
      record { setup = t.setup; chip = t.chip; bytes = λ b. t.bytes (λ i. omega arith) }

  pub on_read-SameStore : (s : Server flash api) (file : List ℕ) → SameStore s (on_read s file).1
  unfolding on_read test_file_name
  on_read-SameStore s file =
      let s0 = test_file_name s file false in
      let t = dispatch_read-SameStore s0.job s0 in
      record { setup = t.setup; chip = t.chip; bytes = t.bytes }

  inc_cur_ptr-SameStore : (s : Server flash api) (n : ℕ) → SameStore s (inc_cur_ptr s n)
  unfolding inc_cur_ptr
  inc_cur_ptr-SameStore s n = same_buffer s _ (ground arith) (ground arith) (ground arith)

  -- What a handler that moves data leaves, if it does not overrun.
  abbrev pub Moves : {A : Type 0} → Server flash api → Option (A × Server flash api) → Type 0
  Moves s none = Unit {0}
  Moves s (some (a, s')) = SameStore s s'

  pub same_store : (s : Server flash api) → SameStore s s
  same_store s = same_buffer s s refl refl refl

  copy_chunk-Moves :
      (s : Server flash api) (buffer : Memory) (len : ℕ)
      → IsBytes buffer
      → Moves s (copy_chunk s buffer len)
  unfolding copy_chunk say
  copy_chunk-Moves s buffer len b = elim (Bool-cases (leb (add_size len s.cur_ptr) max_cfg_size)) [
    | inr x ↦ rw x (same_buffer s _ refl refl refl)
    | inl x ↦ elim (Bool-cases (ltb max_cfg_size (s.cur_ptr + len))) [
      | inl y ↦ rw x (rw y tt)
      | inr y ↦
          let s1 = record s {
            ota_cfg_buffer = overlay s.ota_cfg_buffer s.cur_ptr (window buffer 0 len);
          } in
          let t = inc_cur_ptr-SameStore s1 len in
          rw x (
            rw y (record {
              setup = t.setup;
              chip = t.chip;
              bytes = λ h. t.bytes (
                  overlay_bytes s.ota_cfg_buffer s.cur_ptr (window buffer 0 len) h
                    (window-AllBytes buffer 0 len b));
            }))
    ]
  ]

  write_firmware-Moves :
      (s : Server flash api) (buffer : Memory) (len : ℕ) → Moves s (write_firmware s buffer len)
  unfolding write_firmware say
  write_firmware-Moves s buffer len =
      let w = api.write s.slots s.m_ota_handle (window buffer 0 len) in
      elim (Bool-cases (s.m_ota_handle == 0)) [
        | inl x ↦ rw x (same_store s)
        | inr x ↦ elim (Bool-cases w.0) [
          | inr y ↦ rw x (rw y (same_buffer s _ refl refl refl))
          | inl y ↦
              let t = inc_cur_ptr-SameStore (record s { slots = w.1 }) len in
              rw x (rw y (record { setup = t.setup; chip = t.chip; bytes = t.bytes }))
        ]
      ]

  pub dispatch_data-Moves :
      (j : Job) (s : Server flash api) (buffer : Memory) (len : ℕ)
      → IsBytes buffer
      → Moves s (dispatch_data j s buffer len)
  unfolding dispatch_data
  dispatch_data-Moves load_fw s buffer len b = write_firmware-Moves s buffer len
  dispatch_data-Moves load_cfg s buffer len b = copy_chunk-Moves s buffer len b
  dispatch_data-Moves load_fcfg s buffer len b = copy_chunk-Moves s buffer len b
  dispatch_data-Moves idle s buffer len b = same_store s
  dispatch_data-Moves send_cfg s buffer len b = same_store s
  dispatch_data-Moves send_fcfg s buffer len b = same_store s

  read_area-Moves :
      (s : Server flash api) (base total len : ℕ) → Moves s (read_area s base total len)
  unfolding read_area
  read_area-Moves s base total len = elim (Bool-cases (ltb total s.cur_ptr)) [
    | inl x ↦ rw x tt
    | inr x ↦ rw x (inc_cur_ptr-SameStore s (min len (total - s.cur_ptr)))
  ]

  pub dispatch_fetch-Moves :
      (j : Job) (s : Server flash api) (len : ℕ) → Moves s (dispatch_fetch j s len)
  unfolding dispatch_fetch
  dispatch_fetch-Moves send_cfg s len = config_fetch s.setup.config
    where
      config_fetch :
          (config : Option ℕ)
          → Moves s (elim config as (λ x. Option (Option (List ℕ) × Server flash api)) [
            | none ↦ some (none, s)
            | some p ↦ read_area s p s.setup.cfg_size len
          ])
      config_fetch none = same_store s
      config_fetch (some p) = read_area-Moves s p s.setup.cfg_size len
  dispatch_fetch-Moves send_fcfg s len =
      elim s.setup.cfg_full_loaded
        as (λ x. Moves s (if x then read_area s 0 max_cfg_size len else some (none, s))) [
          | true ↦ read_area-Moves s 0 max_cfg_size len
          | false ↦ same_store s
        ]
  dispatch_fetch-Moves idle s len = same_store s
  dispatch_fetch-Moves load_fw s len = same_store s
  dispatch_fetch-Moves load_cfg s len = same_store s
  dispatch_fetch-Moves load_fcfg s len = same_store s
