-- ===== src/Wifi/Credentials.antt =====
-- The texts of a record as the station part of wifi_init copies them.
use mstd.Prelude.{
  ℕ, zero, suc, ◌+◌, ◌≤◌, ◌<◌, ◌≡◌, ◌≢◌, refl, sym, ap, ap₂, ◌==◌, Bool-cases, inl, inr, ◌∙◌, some,
  List, [], ◌∷◌, Memory, replicate, length, get_or, arith, eq→==, ne→==,
}
use mstd.Setup.Scan.{ssid_offset, passwd_offset}
use mstd.Setup.Save.{Setup}
use mstd.Setup.Layout.{AllChars, char_array}
use mstd.Wifi.Station.{
  strncpy, strcpy, ssid_size, passwd_size, do_sta, terminate_passwd, station, station_setup,
}

-- The memory holds a text and its end at a.
abbrev HasText : Memory → ℕ → List ℕ → Type 0
HasText m a [] = m a ≡ 0
HasText m a (x ∷ xs) = (x ≢ 0) × (m a ≡ x) × HasText m (a + 1) xs

strcpy-HasText :
    (n : ℕ) (m : Memory) (a : ℕ) (text : List ℕ)
    → length text < n
    → HasText m a text
    → strcpy n m a ≡ some text
unfolding strcpy
strcpy-HasText zero m a text h t = absurd (omega arith)
strcpy-HasText (suc n) m a [] h t = rw (eq→== (m a) 0 t, strcpy) refl
strcpy-HasText (suc n) m a (x ∷ xs) h t =
    let ne : m a ≢ 0 = λ e. t.0 (sym t.1 ∙ e) in
    rw (ne→== (m a) 0 ne, strcpy)
      (rw (strcpy-HasText n m (a + 1) xs (omega arith) t.2) (ap (λ y. some (y ∷ xs)) t.1))

char_array-nil : (n : ℕ) → char_array n [] ≡ replicate n 0
unfolding char_array
char_array-nil zero = refl
char_array-nil (suc n) = ap (λ ys. 0 ∷ ys) (char_array-nil n)

strncpy-HasText :
    (n : ℕ) (m : Memory) (a : ℕ) (text : List ℕ)
    → length text ≤ n
    → HasText m a text
    → strncpy n m a ≡ char_array n text
unfolding strncpy char_array
strncpy-HasText zero m a [] h t = refl
strncpy-HasText zero m a (x ∷ xs) h t = absurd (omega arith)
strncpy-HasText (suc n) m a [] h t =
    rw (eq→== (m a) 0 t) (ap (λ ys. 0 ∷ ys) (sym (char_array-nil n)))
strncpy-HasText (suc n) m a (x ∷ xs) h t =
    let ne : m a ≢ 0 = λ e. t.0 (sym t.1 ∙ e) in
    rw (ne→== (m a) 0 ne) (ap₂ ◌∷◌ t.1 (strncpy-HasText n m (a + 1) xs (omega arith) t.2))

-- A text in an array with room for its end.
HasText-array :
    (n : ℕ) (m : Memory) (a : ℕ) (text : List ℕ)
    → AllChars text
    → length text < n
    → ((k : ℕ) → k < n → m (a + k) ≡ get_or (char_array n text) k 0xff)
    → HasText m a text
unfolding char_array
HasText-array zero m a text c h f = absurd (omega arith)
HasText-array (suc n) m a [] c h f = ap m (omega arith) ∙ f 0 (omega arith)
HasText-array (suc n) m a (x ∷ xs) c h f = (
  c.0.0,
  ap m (omega arith) ∙ f 0 (omega arith),
  HasText-array n m (a + 1) xs c.1 (omega arith)
      (λ k lt. ap m (omega arith) ∙ f (suc k) (omega arith)),
)

-- Behind its text an array holds zeros.
char_array_end :
    (n : ℕ) (text : List ℕ) (k d : ℕ) → length text ≤ k → k < n → get_or (char_array n text) k d ≡ 0
unfolding char_array
char_array_end zero text k d h lt = absurd (omega arith)
char_array_end (suc n) [] zero d h lt = refl
char_array_end (suc n) [] (suc k) d h lt = char_array_end n [] k d (omega arith) (omega arith)
char_array_end (suc n) (x ∷ xs) zero d h lt = absurd (omega arith)
char_array_end (suc n) (x ∷ xs) (suc k) d h lt = char_array_end n xs k d (omega arith) (omega arith)

-- A station is set up from a record whose texts stand in arrays of 33 and 64 bytes: its name is the
-- first text, padded, and its password the second.
pub station_setup-texts :
    (s : Setup) (p : ℕ) (ssid passwd : List ℕ)
    → AllChars ssid
    → AllChars passwd
    → length ssid < 33
    → length passwd < 64
    → ssid ≢ []
    → s.config ≡ some p
    → ((k : ℕ) → k < 33 → s.cfg_full (p + ssid_offset + k) ≡ get_or (char_array 33 ssid) k 0xff)
    → ((k : ℕ) → k < 64 → s.cfg_full (p + passwd_offset + k) ≡ get_or (char_array 64 passwd) k 0xff)
    → (station_setup s).0
      ≡ some (record { ssid = char_array ssid_size ssid; password = some passwd })
unfolding station_setup do_sta terminate_passwd station char_array
station_setup-texts s p [] passwd c c' h h' named e f f' = absurd (named refl)
station_setup-texts s p (x ∷ xs) passwd c c' h h' named e f f' =
    let m = (terminate_passwd s p).cfg_full in
    let nonzero : s.cfg_full (p + ssid_offset) ≢ 0 =
      λ z. c.0.0 (sym (f 0 (omega arith)) ∙ ap s.cfg_full (omega arith) ∙ z) in
    let kept : (i : ℕ) → i ≢ p + (passwd_offset + 63) → m i ≡ s.cfg_full i =
      λ i ne. rw (ne→== i _ ne) refl in
    let name : HasText m (p + ssid_offset) (x ∷ xs) =
      HasText-array 33 m (p + ssid_offset) (x ∷ xs) c h
        (λ k lt. kept (p + ssid_offset + k) (λ z. omega arith) ∙ f k lt) in
    let word : HasText m (p + passwd_offset) passwd =
      HasText-array 64 m (p + passwd_offset) passwd c' h' (λ k lt. elim (Bool-cases (k == 63)) [
        | inl b ↦
            rw (eq→== (p + passwd_offset + k) (p + (passwd_offset + 63)) (ground arith))
              (sym (char_array_end 64 passwd k 0xff (ground arith) lt))
        | inr b ↦ kept (p + passwd_offset + k) (λ z. ground arith) ∙ f' k lt
      ]) in
    rw (e, ne→== _ 0 nonzero)
      (ap₂ (λ ssid password. some (record { ssid = ssid; password = password }))
        (strncpy-HasText ssid_size m (p + ssid_offset) (x ∷ xs) (omega arith) name)
        (strcpy-HasText passwd_size m (p + passwd_offset) passwd (omega arith) word))
