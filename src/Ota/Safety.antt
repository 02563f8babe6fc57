-- ===== src/Ota/Safety.antt =====
-- What is safe in the server's state, and that starting a transfer makes it so.
use mstd.Prelude.{
  ℕ, ◌+◌, ◌≤◌, ◌≡◌, refl, sym, ◌∙◌, true, false, Option, none, some, List, add_size, arith,
}
use mstd.Setup.Flash.{Flash}
use mstd.Setup.Scan.{max_cfg_size}
use mstd.Setup.Keeps.{SameConfig, SameConfig-refl}
use mstd.Ota.Api.{OtaApi}
use mstd.Ota.Server.{
  Server, Job, idle, load_fw, load_cfg, load_fcfg, send_cfg, send_fcfg, say, test_file_name,
  inc_cur_ptr,
}
use mstd.Ota.Handlers.{
  on_write, on_read, dispatch_write, dispatch_read, begin_firmware, accept_transfer,
  refuse_transfer,
}
use mstd.Ota.Close.{Closed, returns, restarts}
use mstd.Ota.Download.{inc_cur_ptr-keeps}

-- Where the position of a transfer may stand, and that the configuration lies inside cfg_full.
abbrev pub InBounds : Job → ℕ → ℕ → Type 0
InBounds load_cfg size cur = cur ≤ max_cfg_size
InBounds load_fcfg size cur = cur ≤ max_cfg_size
InBounds send_fcfg size cur = cur ≤ max_cfg_size
InBounds send_cfg size cur = cur ≤ size
InBounds load_fw size cur = Unit {0}
InBounds idle size cur = Unit {0}

abbrev pub Inside : Option ℕ → ℕ → Type 0
Inside none size = Unit {0}
Inside (some p) size = p + size ≤ max_cfg_size

InBounds-start : (j : Job) (size : ℕ) → InBounds j size 0
InBounds-start load_fw size = tt
InBounds-start load_cfg size = omega arith
InBounds-start load_fcfg size = omega arith
InBounds-start send_cfg size = omega arith
InBounds-start send_fcfg size = omega arith
InBounds-start idle size = tt

module _ {flash : Flash} {api : OtaApi} where
  pub record IsSafe (s : Server flash api) : Type 0 where
    pub position : InBounds s.job s.setup.cfg_size s.cur_ptr
    pub config : Inside s.setup.config s.setup.cfg_size

  -- A state that a handler leaves: the transfer's job, position and configuration as before.
  pub record Keeps (s s' : Server flash api) : Type 0 where
    pub job : s'.job ≡ s.job
    pub cur_ptr : s'.cur_ptr ≡ s.cur_ptr
    pub setup : s'.setup ≡ s.setup

  accept_transfer-Keeps :
      (s : Server flash api) (text : List ℕ) → Keeps s (accept_transfer s text).1
  unfolding accept_transfer
  accept_transfer-Keeps s text = record { job = refl; cur_ptr = refl; setup = refl }

  refuse_transfer-Keeps :
      (s : Server flash api) (text : List ℕ) → Keeps s (refuse_transfer s text).1
  unfolding refuse_transfer say
  refuse_transfer-Keeps s text = record { job = refl; cur_ptr = refl; setup = refl }

  dispatch_write-Keeps : (j : Job) (s : Server flash api) → Keeps s (dispatch_write j s).1
  unfolding dispatch_write begin_firmware accept_transfer refuse_transfer say
  dispatch_write-Keeps j s = record {
    job = ground arith;
    cur_ptr = ground arith;
    setup = ground arith;
  }

  dispatch_read-Keeps : (j : Job) (s : Server flash api) → Keeps s (dispatch_read j s).1
  unfolding dispatch_read accept_transfer refuse_transfer say
  dispatch_read-Keeps j s = record {
    job = ground arith;
    cur_ptr = ground arith;
    setup = ground arith;
  }

  -- How a step of the server is judged.
  pub data Good (s : Server flash api) : Closed (Server flash api) → Type 0 where
    returned :
        {s' : Server flash api} → IsSafe s' → SameConfig s.setup s'.setup → Good s (returns s')
    restarted : {s' : Server flash api} → SameConfig s.setup s'.setup → Good s (restarts s')

  SameConfig-setup : (s s' : Server flash api) → s'.setup ≡ s.setup → SameConfig s.setup s'.setup
  SameConfig-setup s s' e = rw e (SameConfig-refl s.setup)

  -- A transfer that starts.
  started :
      (s s0 s' : Server flash api)
      → IsSafe s
      → s0.cur_ptr ≡ 0
      → s0.setup ≡ s.setup
      → Keeps s0 s'
      → Good s (returns s')
  started s s0 s' h z e k =
      let same : s'.setup ≡ s.setup = k.setup ∙ e in
      let cur : 0 ≡ s'.cur_ptr = sym (k.cur_ptr ∙ z) in
      returned
        (record {
          position = rw (← cur) (InBounds-start s'.job s'.setup.cfg_size);
          config = rw same h.config;
        })
        (SameConfig-setup s s' same)

  pub on_write-Good :
      (s : Server flash api) (file : List ℕ) → IsSafe s → Good s (returns (on_write s file).1)
  unfolding on_write test_file_name
  on_write-Good s file h =
      let s0 = record (test_file_name s file true) { ota_cfg_buffer = λ i. 0xff } in
      started s s0 (dispatch_write s0.job s0).1 h refl refl (dispatch_write-Keeps s0.job s0)

  pub on_read-Good :
      (s : Server flash api) (file : List ℕ) → IsSafe s → Good s (returns (on_read s file).1)
  unfolding on_read test_file_name
  on_read-Good s file h =
      let s0 = test_file_name s file false in
      started s s0 (dispatch_read s0.job s0).1 h refl refl (dispatch_read-Keeps s0.job s0)

  -- A state with the same position.
  pub kept : (s s' : Server flash api) → IsSafe s → Keeps s s' → Good s (returns s')
  kept s s' h k =
      returned
        (record {
          position = rw (k.job, k.cur_ptr, k.setup) h.position;
          config = rw k.setup h.config;
        })
        (SameConfig-setup s s' k.setup)

  pub same : (s : Server flash api) → IsSafe s → Good s (returns s)
  same s h = returned h (SameConfig-setup s s refl)

  pub say-Keeps : (s : Server flash api) (text : List ℕ) → Keeps s (say s text)
  unfolding say
  say-Keeps s text = record { job = refl; cur_ptr = refl; setup = refl }

  -- A position that moves on within bounds.
  pub moved :
      (s s1 : Server flash api) (n : ℕ)
      → IsSafe s
      → s1.job ≡ s.job
      → s1.setup ≡ s.setup
      → InBounds s.job s.setup.cfg_size (add_size s1.cur_ptr n)
      → Good s (returns (inc_cur_ptr s1 n))
  moved s s1 n h j e b =
      let k = inc_cur_ptr-keeps s1 n in
      returned
        (record { position = rw (k.0, k.1, k.2) (rw (j, e) b); config = rw (k.1, e) h.config })
        (SameConfig-setup s (inc_cur_ptr s1 n) (k.1 ∙ e))
