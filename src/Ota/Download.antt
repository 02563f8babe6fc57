-- ===== src/Ota/Download.antt =====
-- A configuration download: the blocks that on_read_data hands out are the bytes of the
-- configuration, in order, and they come to an end.
use mathlib.Core.Option
use mstd.Prelude.{
  ℕ, zero, suc, ◌+◌, ◌-◌, ◌/◌, ◌≤◌, ◌<◌, ◌≡◌, ap, ap₂, ◌∙◌, inl, inr, true, false, Option, none,
  some, List, ◌++◌, window, window-append, length-window, length, add_size, ltb, min, arith,
  Bool-cases, ltb→lt, le→ltb,
}
use mstd.Setup.Flash.{Flash}
use mstd.Setup.Scan.{max_cfg_size}
use mstd.Ota.Api.{OtaApi}
use mstd.Ota.Server.{Server, send_cfg, send_fcfg, inc_cur_ptr}
use mstd.Ota.Transfer.{read_area, dispatch_fetch, on_read_data}

-- The size of the blocks that the library asks for.
abbrev pub block_size : ℕ
block_size = 512

module _ {flash : Flash} {api : OtaApi} where
  -- The library asks for blocks until one is short, on fuel. `none` is an error, an overrun, or that
  -- the fuel ran out.
  unfoldable pub read_all : ℕ → Server flash api → Option (List ℕ)
  read_all zero s = none
  read_all (suc fuel) s = elim (on_read_data s block_size) [
    | none ↦ none
    | some (none, s') ↦ none
    | some (some bytes, s') ↦ elim (ltb (length bytes) block_size) [
      | true ↦ some bytes
      | false ↦ Option.map (λ rest. bytes ++ rest) (read_all fuel s')
    ]
  ]

  -- A download of the bytes of cfg_full from base on.
  pub data IsSending (s : Server flash api) (base total : ℕ) : Type 0 where
    config :
        s.job ≡ send_cfg
        → s.setup.config ≡ some base
        → s.setup.cfg_size ≡ total
        → IsSending s base total
    partition :
        s.job ≡ send_fcfg
        → s.setup.cfg_full_loaded ≡ true
        → base ≡ 0
        → total ≡ max_cfg_size
        → IsSending s base total

  on_read_data-area :
      (s : Server flash api) (base total len : ℕ)
      → IsSending s base total
      → on_read_data s len ≡ read_area s base total len
  unfolding on_read_data dispatch_fetch
  on_read_data-area s base total len (config j c z) = ground (arith, j, c, z)
  on_read_data-area s base total len (partition j c b z) = ground (arith, j, c, b, z)

  pub inc_cur_ptr-keeps :
      (s : Server flash api) (n : ℕ)
      → ((inc_cur_ptr s n).job ≡ s.job)
        × ((inc_cur_ptr s n).setup ≡ s.setup)
        × ((inc_cur_ptr s n).cur_ptr ≡ add_size s.cur_ptr n)
  unfolding inc_cur_ptr
  inc_cur_ptr-keeps s n = ground arith

  inc_cur_ptr-IsSending :
      (s : Server flash api) (n base total : ℕ)
      → IsSending s base total
      → IsSending (inc_cur_ptr s n) base total
  inc_cur_ptr-IsSending s n base total (config j c z) =
      let k = inc_cur_ptr-keeps s n in
      config (k.0 ∙ j) (ap (λ x. x.config) k.1 ∙ c) (ap (λ x. x.cfg_size) k.1 ∙ z)
  inc_cur_ptr-IsSending s n base total (partition j c b z) =
      let k = inc_cur_ptr-keeps s n in partition (k.0 ∙ j) (ap (λ x. x.cfg_full_loaded) k.1 ∙ c) b z

  pub read_area-inside :
      (s : Server flash api) (base total len : ℕ)
      → s.cur_ptr ≤ total
      → let n = min len (total - s.cur_ptr) in
        read_area s base total len
        ≡ some (some (window s.setup.cfg_full (base + s.cur_ptr) n), inc_cur_ptr s n)
  unfolding read_area
  read_area-inside s base total len h = rw (le→ltb total s.cur_ptr h)

  inc_cur_ptr-moved :
      (s : Server flash api) (n : ℕ) {total : ℕ}
      → n ≡ block_size
      → total ≤ max_cfg_size
      → s.cur_ptr ≤ total
      → (inc_cur_ptr s n).cur_ptr ≡ s.cur_ptr + n
  inc_cur_ptr-moved s n e m c = (inc_cur_ptr-keeps s n).2 ∙ omega arith

  window-moved :
      (s : Server flash api) (n base total : ℕ)
      → (inc_cur_ptr s n).cur_ptr ≡ s.cur_ptr + n
      → let s' = inc_cur_ptr s n in
        window s'.setup.cfg_full (base + s'.cur_ptr) (total - s'.cur_ptr)
        ≡ window s.setup.cfg_full (base + s.cur_ptr + n) (total - (s.cur_ptr + n))
  window-moved s n base total e =
      let s' = inc_cur_ptr s n in
      let f : base + (s.cur_ptr + n) ≡ base + s.cur_ptr + n = omega arith in
      ap (λ x. window x.cfg_full (base + s'.cur_ptr) (total - s'.cur_ptr)) (inc_cur_ptr-keeps s n).1
      ∙ ap (λ c. window s.setup.cfg_full (base + c) (total - c)) e
      ∙ ap (λ a. window s.setup.cfg_full a (total - (s.cur_ptr + n))) f

  -- In a download of an area of at most 4096 bytes, blocks until a short one give all the bytes from
  -- the position on, in order, without an overrun, in one call more than there are whole blocks.
  pub read_all-window :
      (fuel : ℕ) (s : Server flash api) (base total : ℕ)
      → IsSending s base total
      → s.cur_ptr ≤ total
      → total ≤ max_cfg_size
      → (total - s.cur_ptr) / block_size < fuel
      → read_all fuel s ≡ some (window s.setup.cfg_full (base + s.cur_ptr) (total - s.cur_ptr))
  unfolding read_all
  read_all-window zero s base total i c m h = absurd (omega arith)
  read_all-window (suc fuel) s base total i c m h =
      let n = min block_size (total - s.cur_ptr) in
      let read =
        on_read_data-area s base total block_size i ∙ read_area-inside s base total block_size c in
      let len = length-window s.setup.cfg_full (base + s.cur_ptr) n in
      let w = window s.setup.cfg_full (base + s.cur_ptr) n in
      elim (Bool-cases (ltb (length w) block_size)) [
        | inl b ↦
            let e : n ≡ total - s.cur_ptr = omega (arith, ltb→lt _ _ b, len) in
            rw (read, read_all)
              (rw b (ap (λ k. some (window s.setup.cfg_full (base + s.cur_ptr) k)) e))
        | inr b ↦
            let whole : n ≡ block_size = ground (arith, len) in
            let rest =
              read_all-window fuel (inc_cur_ptr s n) base total
                (inc_cur_ptr-IsSending s n base total i)
                (omega (arith, inc_cur_ptr-moved s n whole m c)) m
                (omega (arith, inc_cur_ptr-moved s n whole m c)) in
            rw (read, read_all)
              (rw b (
                rw (rest ∙ ap some (window-moved s n base total (inc_cur_ptr-moved s n whole m c)))
                  (ap some (
                    window-append s.setup.cfg_full (base + s.cur_ptr) n (total - (s.cur_ptr + n))
                    ∙ ap (window s.setup.cfg_full (base + s.cur_ptr)) (omega arith)))))
      ]

  -- From the start of an area nine blocks are enough.
  pub read_all-start :
      (s : Server flash api) (base total : ℕ)
      → IsSending s base total
      → s.cur_ptr ≡ 0
      → total ≤ max_cfg_size
      → read_all 9 s ≡ some (window s.setup.cfg_full base total)
  read_all-start s base total i z m =
      let p : base + s.cur_ptr ≡ base = omega arith in
      let q : total - s.cur_ptr ≡ total = omega arith in
      read_all-window 9 s base total i (omega arith) m (omega arith)
      ∙ ap₂ (λ a n. some (window s.setup.cfg_full a n)) p q
