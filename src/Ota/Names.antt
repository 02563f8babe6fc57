-- ===== src/Ota/Names.antt =====
-- Which job a file name asks for, against a description of the names.
use mstd.Prelude.{
  ℕ, ◌≡◌, refl, sym, ap, ◌∙◌, ◌≢◌, inl, inr, Bool, false, Option, some, List, [], ◌∷◌, ◌++◌,
  if◌then◌else◌, codes, str_eq, str_eq-eq, str_eq_refl, strrchr, arith, Bool-cases, Option-cases,
}
use mstd.Ota.Server.{
  Job, idle, load_fw, load_cfg, load_fcfg, send_cfg, send_fcfg, full_cfg, file_job,
}

-- The jobs of the names: full.cfg, *.bin, any other *.cfg, and the rest.
pub data NameJob (name : List ℕ) (is_write : Bool) (job : Job) : Type 0 where
  full :
      name ≡ full_cfg
      → job ≡ (if is_write then load_fcfg else send_fcfg)
      → NameJob name is_write job
  firmware :
      (stem : List ℕ)
      → name ≡ stem ++ codes ".bin"
      → job ≡ (if is_write then load_fw else idle)
      → NameJob name is_write job
  config :
      (stem : List ℕ)
      → name ≡ stem ++ codes ".cfg"
      → name ≢ full_cfg
      → job ≡ (if is_write then load_cfg else send_cfg)
      → NameJob name is_write job
  other :
      ((stem : List ℕ) → name ≢ stem ++ codes ".bin")
      → ((stem : List ℕ) → name ≢ stem ++ codes ".cfg")
      → job ≡ idle
      → NameJob name is_write job

strrchr-append :
    (s t : List ℕ) (c : ℕ) {u : List ℕ} → strrchr t c ≡ some u → strrchr (s ++ t) c ≡ some u
unfolding strrchr
strrchr-append [] t c e = e
strrchr-append (x ∷ s) t c e = ground (arith, strrchr-append s t c e)

strrchr-splits :
    (s : List ℕ) (c : ℕ) {t : List ℕ} → strrchr s c ≡ some t → (stem : List ℕ) × (s ≡ stem ++ t)
unfolding strrchr
strrchr-splits [] c e = cc
strrchr-splits (x ∷ s) c {t} e = elim (Option-cases (strrchr s c)) [
  | inr (u, f) ↦
      let g = strrchr-splits s c f in
      let e' : u ≡ t = ground arith in (x ∷ g.0, ap (λ r. x ∷ r) (g.1 ∙ ap (λ r. g.0 ++ r) e'))
  | inl f ↦ let e' : x ∷ s ≡ t = ground arith in ([], e')
]

bin_dot : strrchr (codes ".bin") b'.' ≡ some (codes ".bin")
unfolding strrchr
bin_dot = refl

cfg_dot : strrchr (codes ".cfg") b'.' ≡ some (codes ".cfg")
unfolding strrchr
cfg_dot = refl

-- A name that ends in an extension has it behind its last dot.
ends-strrchr :
    (name stem t : List ℕ) → strrchr t b'.' ≡ some t → name ≡ stem ++ t → strrchr name b'.' ≡ some t
ends-strrchr name stem t d e = rw e (strrchr-append stem t b'.' d)

not_ends :
    (name stem p t : List ℕ)
    → strrchr t b'.' ≡ some t
    → strrchr name b'.' ≡ some p
    → str_eq p t ≡ false
    → name ≢ stem ++ t
not_ends name stem p t d n x e =
    let same : ◌≡◌ {A = Option (List ℕ)} (some p) (some t) = sym n ∙ ends-strrchr name stem t d e in
    let same' : p ≡ t = cc in cc (str_eq_refl t, rw same' at x)

-- Every file name gets the job of its description, for writing and for reading.
pub file_job-NameJob :
    (name : List ℕ) (is_write : Bool) → NameJob name is_write (file_job name is_write)
unfolding file_job
file_job-NameJob name w = elim (Bool-cases (str_eq name full_cfg)) [
  | inl b ↦ rw b (full (str_eq-eq _ _ b) refl)
  | inr b ↦
      let not_full : name ≢ full_cfg = λ e. cc (sym (str_eq_refl full_cfg), rw e at b) in
      elim (Option-cases (strrchr name b'.')) [
        | inl n ↦ rw b (
            rw n (
              other (λ stem e. cc (n, ends-strrchr name stem _ bin_dot e))
                (λ stem e. cc (n, ends-strrchr name stem _ cfg_dot e)) refl))
        | inr (p, n) ↦
            let split = strrchr-splits name b'.' n in
            elim (Bool-cases (str_eq p (codes ".bin"))) [
              | inl x ↦ rw b (
                  rw n (
                    rw x
                      (firmware split.0 (split.1 ∙ ap (λ r. split.0 ++ r) (str_eq-eq _ _ x)) refl)))
              | inr x ↦ elim (Bool-cases (str_eq p (codes ".cfg"))) [
                | inl y ↦ rw b (
                    rw n (
                      rw x (
                        rw y (
                          config split.0 (split.1 ∙ ap (λ r. split.0 ++ r) (str_eq-eq _ _ y))
                            not_full refl))))
                | inr y ↦ rw b (
                    rw n (
                      rw x (
                        rw y (
                          other (λ stem. not_ends name stem p _ bin_dot n x)
                            (λ stem. not_ends name stem p _ cfg_dot n y) refl))))
              ]
            ]
      ]
]
