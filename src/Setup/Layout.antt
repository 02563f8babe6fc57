-- ===== src/Setup/Layout.antt =====
-- struct Config_V1 of soft/cfg_compiler/setup_data.h, the record that the configuration compiler
-- writes, as the bytes of an image; the boot loader reads it as a Config_V0.
use mstd.Prelude.{
  ℕ, zero, suc, ◌+◌, ◌-◌, ◌/◌, ◌%◌, ◌<◌, ◌≡◌, ◌≢◌, refl, ap, ◌∙◌, List, [], ◌∷◌, ◌++◌, Memory,
  IsBytes, AllBytes, length, get_or, get_or-append_left, get_or-append_right, buffer_of,
  buffer_of-IsBytes, arith,
}
use mstd.Setup.Scan.{no_crc, ssid_offset, passwd_offset, size_field, crc_field}
use mstd.Setup.Save.{u32_bytes}

-- enum Options1
abbrev wfop_no : ℕ
wfop_no = 0

abbrev wfop_ap : ℕ
wfop_ap = 1

abbrev wfop_sta : ℕ
wfop_sta = 2

abbrev wfop_both : ℕ
wfop_both = 3

abbrev wfop_auto : ℕ
wfop_auto = 4

abbrev wfop_mask : ℕ
wfop_mask = 7

abbrev nxt_options : ℕ
nxt_options = 8

-- ConfigVersion and LC_ConfigVersion
abbrev lc_config_version : ℕ
lc_config_version = 1

abbrev pub config_version : ℕ
config_version = 1

-- char ssid[33] and char passwd[64] hold texts.
pub record ConfigV1 : Type 0 where
  pub crc : ℕ
  pub size : ℕ
  pub version : ℕ
  pub ssid : List ℕ
  pub passwd : List ℕ
  pub oled_contrast : ℕ
  pub options1 : ℕ
  pub reserved : ℕ

-- The values that the structure gives to its fields.
abbrev pub default_config : ℕ → ℕ → ℕ → ConfigV1
default_config crc size version = record {
  crc = crc;
  size = size;
  version = version;
  ssid = [];
  passwd = [];
  oled_contrast = 0xcf;
  options1 = wfop_auto;
  reserved = 0;
}

-- An array of n characters that a text initialises.
unfoldable pub char_array : ℕ → List ℕ → List ℕ
char_array zero text = []
char_array (suc n) [] = 0 ∷ char_array n []
char_array (suc n) (x ∷ xs) = x ∷ char_array n xs

abbrev pub u16_bytes : ℕ → List ℕ
u16_bytes x = x % 256 ∷ (x / 256 % 256) ∷ []

-- The fields stand one behind another, with no padding.
unfoldable pub config_bytes : ConfigV1 → List ℕ
config_bytes c =
    u32_bytes c.crc
    ++ (u16_bytes c.size
        ++ (c.version
            ∷ (char_array 33 c.ssid
                ++ (char_array 64 c.passwd
                    ++ (c.oled_contrast ∷ (c.options1 ∷ u16_bytes c.reserved))))))

abbrev pub sizeof_config_v1 : ℕ
sizeof_config_v1 = 108

-- The characters of a text, which do not contain its end.
abbrev pub AllChars : List ℕ → Type 0
AllChars [] = Unit {0}
AllChars (x ∷ xs) = ((x ≢ 0) × (x < 256)) × AllChars xs

-- A record that its compiler leaves: the size that the comment on it asks for, no checksum, and texts
-- that fit.
pub record IsCompiled (c : ConfigV1) : Type 0 where
  pub crc : c.crc ≡ no_crc
  pub size : c.size ≡ sizeof_config_v1 / 4 - 1
  pub version : c.version < 256
  pub ssid : AllChars c.ssid
  pub ssid_fits : length c.ssid < 33
  pub passwd : AllChars c.passwd
  pub passwd_fits : length c.passwd < 64
  pub oled_contrast : c.oled_contrast < 256
  pub options1 : c.options1 < 256

length-char_array : (n : ℕ) (text : List ℕ) → length (char_array n text) ≡ n
unfolding char_array
length-char_array zero text = refl
length-char_array (suc n) [] = omega (arith, length-char_array n [])
length-char_array (suc n) (x ∷ xs) = omega (arith, length-char_array n xs)

AllBytes-append : (xs ys : List ℕ) → AllBytes xs → AllBytes ys → AllBytes (xs ++ ys)
AllBytes-append [] ys h k = k
AllBytes-append (x ∷ xs) ys h k = (h.0, AllBytes-append xs ys h.1 k)

char_array-AllBytes : (n : ℕ) (text : List ℕ) → AllChars text → AllBytes (char_array n text)
unfolding char_array
char_array-AllBytes zero text h = tt
char_array-AllBytes (suc n) [] h = (omega arith, char_array-AllBytes n [] tt)
char_array-AllBytes (suc n) (x ∷ xs) h = (h.0.1, char_array-AllBytes n xs h.1)

abbrev pub config_image : ConfigV1 → Memory
config_image c = buffer_of (config_bytes c) 0xff

module _ (c : ConfigV1) (h : IsCompiled c) where
  pub config_image-IsBytes : IsBytes (config_image c)
  unfolding config_bytes
  config_image-IsBytes =
      let tail : AllBytes (c.oled_contrast ∷ c.options1 ∷ u16_bytes c.reserved) =
        (h.oled_contrast, (h.options1, (omega arith, (omega arith, tt)))) in
      let texts = AllBytes-append (char_array 33 c.ssid) _ (char_array-AllBytes 33 c.ssid h.ssid) (
        AllBytes-append (char_array 64 c.passwd) _ (char_array-AllBytes 64 c.passwd h.passwd)
          tail) in
      let start : AllBytes (u32_bytes c.crc ++ (u16_bytes c.size ++ (c.version ∷ []))) = (
        omega arith,
        (omega arith, (omega arith, (omega arith, (omega arith, (omega arith, (h.version, tt)))))),
      ) in
      buffer_of-IsBytes (config_bytes c)
        (AllBytes-append (u32_bytes c.crc ++ (u16_bytes c.size ++ (c.version ∷ []))) _ start texts)

  pub size_field-config : size_field (config_image c) 0 ≡ 26
  unfolding config_bytes
  size_field-config = omega (arith, h.size)

  pub crc_field-config : crc_field (config_image c) 0 ≡ no_crc
  unfolding config_bytes
  crc_field-config = omega (arith, h.crc)

  abbrev header : List ℕ
  header = u32_bytes c.crc ++ (u16_bytes c.size ++ (c.version ∷ []))

  abbrev behind_passwd : List ℕ
  behind_passwd = c.oled_contrast ∷ c.options1 ∷ u16_bytes c.reserved

  texts :
      (k : ℕ)
      → config_image c (7 + k)
        ≡ get_or (char_array 33 c.ssid ++ (char_array 64 c.passwd ++ behind_passwd)) k 0xff
  unfolding config_bytes
  texts k = get_or-append_right header _ k (7 + k) 0xff (omega arith)

  -- The boot loader finds both texts where its own structure has them.
  pub ssid-config :
      (k : ℕ) → k < 33 → config_image c (ssid_offset + k) ≡ get_or (char_array 33 c.ssid) k 0xff
  ssid-config k lt =
      let fits = h.ssid_fits in
      texts k
      ∙ get_or-append_left (char_array 33 c.ssid) _ k 0xff
          (omega (arith, length-char_array 33 c.ssid))

  pub passwd-config :
      (k : ℕ) → k < 64 → config_image c (passwd_offset + k) ≡ get_or (char_array 64 c.passwd) k 0xff
  passwd-config k lt =
      let fits = h.ssid_fits in
      let fits' = h.passwd_fits in
      ap (config_image c) (split k)
      ∙ texts (33 + k)
      ∙ get_or-append_right (char_array 33 c.ssid) _ k (33 + k) 0xff
          (omega (arith, length-char_array 33 c.ssid))
      ∙ get_or-append_left (char_array 64 c.passwd) _ k 0xff
          (omega (arith, length-char_array 64 c.passwd))
    where
      split : (k : ℕ) → 40 + k ≡ 7 + (33 + k)
      split k = omega arith
