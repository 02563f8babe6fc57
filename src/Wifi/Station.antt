-- ===== src/Wifi/Station.antt =====
-- The station part of wifi_init: when it is set up, and the credentials it is given.
use mstd.Prelude.{
  ℕ, zero, suc, ◌+◌, ◌≤◌, ◌<◌, ◌≡◌, ◌≢◌, refl, ap, inl, inr, Bool, true, false, Option, none, some,
  List, [], ◌∷◌, Memory, replicate, length, ◌==◌, not, if◌then◌else◌, arith, Bool-cases, eq→==,
  ne→==, length-replicate, sym, ◌∙◌,
}
use mstd.Setup.Save.{Setup}
use mstd.Setup.Scan.{ssid_offset, passwd_offset}

-- strncpy(…, n): n bytes, padded with 0.
unfoldable pub strncpy : ℕ → Memory → ℕ → List ℕ
strncpy zero m a = []
strncpy (suc n) m a = if m a == 0 then replicate (suc n) 0 else m a ∷ strncpy n m (a + 1)

-- strcpy of a text of fewer than n bytes; `none` if no 0 ends it within n bytes.
unfoldable pub strcpy : ℕ → Memory → ℕ → Option (List ℕ)
strcpy zero m a = none
strcpy (suc n) m a = elim (m a == 0) [
  | true ↦ some []
  | false ↦ elim (strcpy n m (a + 1)) [ none ↦ none | some s ↦ some (m a ∷ s) ]
]

abbrev pub ssid_size : ℕ
ssid_size = 32

abbrev pub passwd_size : ℕ
passwd_size = 64

-- wifi_config.sta: the bytes of ssid, and the text in password (`none` if it would overrun).
pub record Station : Type 0 where
  pub ssid : List ℕ
  pub password : Option (List ℕ)

-- config && config->ssid[0]
unfoldable pub do_sta : Setup → Bool
do_sta s = elim s.config [ none ↦ false | some p ↦ not (s.cfg_full (p + ssid_offset) == 0) ]

-- config->passwd[63] = 0 is written into cfg_full.
unfoldable pub terminate_passwd : Setup → ℕ → Setup
terminate_passwd s p = record s {
  cfg_full = λ i. if i == p + (passwd_offset + 63) then 0 else s.cfg_full i;
}

unfoldable pub station : Setup → ℕ → Station
station s p = record {
  ssid = strncpy ssid_size s.cfg_full (p + ssid_offset);
  password = strcpy passwd_size s.cfg_full (p + passwd_offset);
}

-- What the station part comes to: the station, where there is one, and the globals that are left.
unfoldable pub station_setup : Setup → Option Station × Setup
station_setup s = elim s.config [
  | none ↦ (none, s)
  | some p ↦
      let s' = terminate_passwd s p in if do_sta s then (some (station s' p), s') else (none, s)
]

length-strncpy : (n : ℕ) (m : Memory) (a : ℕ) → length (strncpy n m a) ≡ n
unfolding strncpy
length-strncpy zero m a = refl
length-strncpy (suc n) m a = elim (Bool-cases (m a == 0)) [
  | inl b ↦ rw b (length-replicate (suc n) 0)
  | inr b ↦ rw b (omega (arith, length-strncpy n m (a + 1)))
]

-- The copy ends at the first 0, so one at k keeps it to k bytes.
strcpy_total :
    (n : ℕ) (m : Memory) (a k : ℕ)
    → k < n
    → m (a + k) ≡ 0
    → (s : List ℕ) × (strcpy n m a ≡ some s) × (length s ≤ k)
unfolding strcpy
strcpy_total zero m a k h z = absurd (omega arith)
strcpy_total (suc n) m a zero h z =
    let e : a + 0 ≡ a = omega arith in
    let z' : m a ≡ 0 = sym (ap m e) ∙ z in ([], rw (eq→== (m a) 0 z', strcpy) refl, omega arith)
strcpy_total (suc n) m a (suc k) h z = elim (Bool-cases (m a == 0)) [
  | inl b ↦ ([], rw (b, strcpy) refl, omega arith)
  | inr b ↦
      let e : a + suc k ≡ a + 1 + k = omega arith in
      let t = strcpy_total n m (a + 1) k (omega arith) (sym (ap m e) ∙ z) in
      (m a ∷ t.0, ground (arith, t.1), omega (arith, t.2))
]

-- A station is set up for a record that names a network. The driver is given 32 bytes of its name
-- and a password that ends within its 64 bytes; of the image only the last byte of the record's
-- password changes, and the located configuration stays.
pub station_setup-station :
    (s : Setup) (p i : ℕ)
    → s.config ≡ some p
    → s.cfg_full (p + ssid_offset) ≢ 0
    → i ≢ p + (passwd_offset + 63)
    → let r = station_setup s in
      (password : List ℕ) × (r.0
        ≡ some (record {
          ssid = strncpy ssid_size r.1.cfg_full (p + ssid_offset);
          password = some password;
        }))
      × (length (strncpy ssid_size r.1.cfg_full (p + ssid_offset)) ≡ ssid_size)
      × (length password < passwd_size)
      × (r.1.located ≡ s.located)
      × (r.1.cfg_full i ≡ s.cfg_full i)
unfolding station_setup do_sta terminate_passwd station
station_setup-station s p i c named h =
    let m = (terminate_passwd s p).cfg_full in
    let last : p + passwd_offset + 63 ≡ p + (passwd_offset + 63) = omega arith in
    let t =
      strcpy_total passwd_size m (p + passwd_offset) 63 (omega arith) (rw last (ground arith)) in
    rw (c, ne→== _ 0 named)
      (
        t.0,
        rw t.1 refl,
        length-strncpy ssid_size m (p + ssid_offset),
        omega (arith, t.2),
        refl,
        rw (ne→== i _ h) refl,
      )
