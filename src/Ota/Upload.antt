-- ===== src/Ota/Upload.antt =====
-- A configuration upload: what ota_cfg_buffer holds after the chunks of a transfer, and how far the
-- progress indicator has moved.
use mstd.Prelude.{
  ℕ, zero, suc, ◌+◌, ◌-◌, ◌/◌, ◌^◌, ◌≤◌, ◌<◌, ◌≡◌, refl, sym, ap, ◌∙◌, ◌⊎◌, inl, inr, Option, none,
  some, List, [], ◌∷◌, ◌++◌, Memory, replicate, concat, fun_ext, append-nil, append_assoc, window,
  overlay, add_size, codes, length, length-append, buffer_of, overlay-buffer_of, window-buffer_of,
  arith,
}
use mstd.Setup.Flash.{Flash}
use mstd.Setup.Scan.{max_cfg_size}
use mstd.Ota.Api.{OtaApi, inc_pi}
use mstd.Ota.Server.{Server, Job, load_cfg, load_fcfg, say, inc_cur_ptr, pi_size, pi_position}
use mstd.Ota.Handlers.{ota_error}
use mstd.Ota.Transfer.{copy_chunk, dispatch_data, on_write_data}

-- The jobs that collect a configuration.
abbrev pub IsConfigJob : Job → Type 0
IsConfigJob j = (j ≡ load_cfg) ⊎ (j ≡ load_fcfg)

replicate-add {ℓ} :
    {A : Type ℓ} (m n : ℕ) (a : A) → replicate m a ++ replicate n a ≡ replicate (m + n) a
replicate-add zero n a = ap (λ k. replicate k a) (omega arith)
replicate-add (suc m) n a =
    let e : suc (m + n) ≡ suc m + n = omega arith in
    ap (λ r. a ∷ r) (replicate-add m n a) ∙ ap (λ k. replicate k a) e

pi_size-config : (j : Job) (cfg_size : ℕ) → IsConfigJob j → pi_size j cfg_size ≡ max_cfg_size
unfolding pi_size
pi_size-config j cfg_size (inl e) = rw e
pi_size-config j cfg_size (inr e) = rw e

-- Over a configuration the position is half the number of bytes: the product does not wrap.
pi_position-config : (n : ℕ) → n ≤ max_cfg_size → pi_position n max_cfg_size ≡ n / 2
pi_position-config n h = omega arith

module _ {flash : Flash} {api : OtaApi} where
  -- The library hands a transfer over chunk by chunk, and ignores the answers. `none` is an overrun.
  unfoldable pub write_all : Server flash api → List (List ℕ) → Option (Server flash api)
  write_all s [] = some s
  write_all s (bytes ∷ chunks) = elim (on_write_data s (buffer_of bytes 0) (length bytes)) [
    | none ↦ none
    | some (answer, s') ↦ write_all s' chunks
  ]

  -- The bytes received so far stand at the start of the buffer, 0xFF behind them.
  pub record HasReceived (s : Server flash api) (bytes : List ℕ) : Type 0 where
    pub job : IsConfigJob s.job
    pub position : s.cur_ptr ≡ length bytes
    pub buffer : s.ota_cfg_buffer ≡ buffer_of bytes 0xff

  -- What a transfer leaves as it was, and the steps of the progress indicator.
  pub record Advanced (s s' : Server flash api) : Type 0 where
    pub job : s'.job ≡ s.job
    pub setup : s'.setup ≡ s.setup
    pub chip : s'.chip ≡ s.chip
    pub slots : s'.slots ≡ s.slots
    pub handle : s'.m_ota_handle ≡ s.m_ota_handle
    pub next : s'.m_next_partition ≡ s.m_next_partition
    pub order : s.cur_ptr ≤ s'.cur_ptr
    pub oled : s'.oled ≡ s.oled ++ replicate (s'.cur_ptr / 2 - s.cur_ptr / 2) inc_pi

  pub dispatch_data-config :
      (j : Job) (s : Server flash api) (buffer : Memory) (len : ℕ)
      → IsConfigJob j
      → dispatch_data j s buffer len ≡ copy_chunk s buffer len
  unfolding dispatch_data
  dispatch_data-config j s buffer len (inl e) = rw e
  dispatch_data-config j s buffer len (inr e) = rw e

  pub copy_chunk-fits :
      (s : Server flash api) (buffer : Memory) (len : ℕ)
      → s.cur_ptr + len ≤ max_cfg_size
      → copy_chunk s buffer len
        ≡ some (
          some len,
          inc_cur_ptr
              (record s {
                ota_cfg_buffer = overlay s.ota_cfg_buffer s.cur_ptr (window buffer 0 len);
              })
              len,
        )
  unfolding copy_chunk
  copy_chunk-fits s buffer len h = ground arith

  pub copy_chunk-drops :
      (s : Server flash api) (buffer : Memory) (len : ℕ)
      → max_cfg_size < s.cur_ptr + len
      → len < 2 ^ 31
      → s.cur_ptr ≤ max_cfg_size
      → copy_chunk s buffer len ≡ some (none, say s (ota_error (codes "Cfg buffer overflow")))
  unfolding copy_chunk
  copy_chunk-drops s buffer len h k l = ground arith

  pub inc_cur_ptr-config :
      (s : Server flash api) (len : ℕ)
      → IsConfigJob s.job
      → s.cur_ptr + len ≤ max_cfg_size
      → inc_cur_ptr s len ≡ record s {
        cur_ptr = s.cur_ptr + len;
        oled = s.oled ++ replicate ((s.cur_ptr + len) / 2 - s.cur_ptr / 2) inc_pi;
      }
  unfolding inc_cur_ptr
  inc_cur_ptr-config s len j h =
      let size = pi_size-config s.job s.setup.cfg_size j in
      let sum : add_size s.cur_ptr len ≡ s.cur_ptr + len = omega arith in
      let before = pi_position-config s.cur_ptr (omega arith) in
      let after = pi_position-config (s.cur_ptr + len) h in rw (size, sum, before, after)

  -- One chunk that fits is appended.
  chunk-HasReceived :
      (s : Server flash api) (bytes chunk : List ℕ)
      → HasReceived s bytes
      → length bytes + length chunk ≤ max_cfg_size
      → (s' : Server flash api) × (on_write_data s (buffer_of chunk 0) (length chunk)
          ≡ some (some (length chunk), s'))
        × HasReceived s' (bytes ++ chunk)
        × Advanced s s'
  unfolding on_write_data
  chunk-HasReceived s bytes chunk r h =
      let position = r.position in
      let written = record s {
        ota_cfg_buffer =
            overlay s.ota_cfg_buffer s.cur_ptr (window (buffer_of chunk 0) 0 (length chunk));
      } in
      (
        record s {
          ota_cfg_buffer =
              overlay s.ota_cfg_buffer s.cur_ptr (window (buffer_of chunk 0) 0 (length chunk));
          cur_ptr = s.cur_ptr + length chunk;
          oled = s.oled ++ replicate ((s.cur_ptr + length chunk) / 2 - s.cur_ptr / 2) inc_pi;
        },
        dispatch_data-config s.job s _ _ r.job
            ∙ copy_chunk-fits s (buffer_of chunk 0) (length chunk) (omega arith)
            ∙ ap (λ x. some (some (length chunk), x))
                (inc_cur_ptr-config written (length chunk) r.job (omega arith)),
        record {
          job = r.job;
          position = omega (arith, length-append bytes chunk);
          buffer =
              rw (r.buffer, r.position, window-buffer_of chunk 0)
                (fun_ext (λ i. overlay-buffer_of bytes chunk 0xff i));
        },
        record {
          job = refl;
          setup = refl;
          chip = refl;
          slots = refl;
          handle = refl;
          next = refl;
          order = omega arith;
          oled = refl;
        },
      )

  Advanced-refl : (s : Server flash api) → Advanced s s
  Advanced-refl s =
      let e : 0 ≡ s.cur_ptr / 2 - s.cur_ptr / 2 = omega arith in
      record {
        job = refl;
        setup = refl;
        chip = refl;
        slots = refl;
        handle = refl;
        next = refl;
        order = omega arith;
        oled = rw (← e) (sym (append-nil s.oled));
      }

  Advanced-trans : {s t u : Server flash api} → Advanced s t → Advanced t u → Advanced s u
  Advanced-trans {s} {t} {u} a b =
      let m = t.cur_ptr / 2 - s.cur_ptr / 2 in
      let n = u.cur_ptr / 2 - t.cur_ptr / 2 in
      let e : m + n ≡ u.cur_ptr / 2 - s.cur_ptr / 2 = omega (arith, a.order, b.order) in
      record {
        job = b.job ∙ a.job;
        setup = b.setup ∙ a.setup;
        chip = b.chip ∙ a.chip;
        slots = b.slots ∙ a.slots;
        handle = b.handle ∙ a.handle;
        next = b.next ∙ a.next;
        order = omega (arith, a.order, b.order);
        oled =
            b.oled
            ∙ ap (λ o. o ++ replicate n inc_pi) a.oled
            ∙ append_assoc s.oled (replicate m inc_pi) (replicate n inc_pi)
            ∙ ap (λ r. s.oled ++ r) (replicate-add m n inc_pi ∙ ap (λ k. replicate k inc_pi) e);
      }

  -- In a configuration upload that has received some bytes, further chunks that fit into the buffer
  -- together with them are stored in it one behind the other, with no overrun,
  -- however the transfer is cut up; nothing else changes but the progress indicator, which moves on
  -- once for every two bytes.
  pub write_all-HasReceived :
      (s : Server flash api) (bytes : List ℕ) (chunks : List (List ℕ))
      → HasReceived s bytes
      → length bytes + length (concat chunks) ≤ max_cfg_size
      → (s' : Server flash api) × (write_all s chunks ≡ some s')
        × HasReceived s' (bytes ++ concat chunks)
        × Advanced s s'
  unfolding write_all
  write_all-HasReceived s bytes [] r h = (s, refl, rw append-nil r, Advanced-refl s)
  write_all-HasReceived s bytes (chunk ∷ chunks) r h =
      let len = length-append chunk (concat chunks) in
      let one = chunk-HasReceived s bytes chunk r (omega arith) in
      let rest =
        write_all-HasReceived one.0 (bytes ++ chunk) chunks one.2
          (omega (arith, length-append bytes chunk)) in
      (
        rest.0,
        rw (one.1, write_all) rest.1,
        rw (← append_assoc bytes chunk (concat chunks)) rest.2,
        Advanced-trans one.3 rest.3,
      )
