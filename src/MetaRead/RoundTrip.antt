-- ===== src/MetaRead/RoundTrip.antt =====
-- A metadata file of src/meta.c read back is the metadata that was written.
use kbloomd.Common.{
  ℕ, suc, ◌+◌, ◌-◌, ◌^◌, ◌≤◌, ◌<◌, ◌≡◌, ◌≢◌, refl, ap, ◌∙◌, arith, Bool, true, false, ◌&&◌, [], ◌∷◌,
  Bytes, text, ok, length, take_all, same, leb, same_iff, ==-ne, ltb-false,
}
use kbloomd.Platform.{Platform}
use kbloomd.Platform.Laws.{TextLaws, NumberLaws, min_normal, IsLine}
use kbloomd.Wire.{byte_at}
use kbloomd.Bpf.{digest_size}
use kbloomd.Frame.{max_name_len}
use kbloomd.Name.{path_max, name_is_valid}
use kbloomd.FilterSet.{Meta}
use kbloomd.MetaFile.{meta_body, flag}
use kbloomd.MetaRead.{
  Scan, scan_init, meta_field, once, meta_accept, meta_read_file, scanned_whole, meta_parse_u32,
  meta_parse_u64, meta_parse_double, meta_parse_flag, meta_assign_string, have_all,
}
use kbloomd.MetaRead.Fields.{
  NoEq, IsKey, AreFields, scan_fields, scan_loop-scan_fields, meta_fields, meta_body-lines_text,
  length-lines_text,
}

byte_at-length : (bs : Bytes) → byte_at bs (length bs) ≡ 0
byte_at-length [] = refl
byte_at-length (b ∷ bs) = byte_at-length bs

-- Texts of letters, digits, dashes and underscores; and those of letters and underscores alone.
unfoldable pub chars : ℕ → Bytes → Bool
chars low [] = true
chars low (c ∷ rest) = leb low c && chars low rest

pub chars-IsLine : (bs : Bytes) → chars b'-' bs ≡ true → IsLine bs
unfolding chars
chars-IsLine [] h = tt
chars-IsLine (c ∷ rest) h = (
  (λ e. ground arith),
  (λ e. ground arith),
  (λ e. ground arith),
  chars-IsLine rest (ground arith),
)

chars-NoEq : (bs : Bytes) → chars b'_' bs ≡ true → NoEq bs
unfolding chars
chars-NoEq [] h = tt
chars-NoEq (c ∷ rest) h = ((λ e. ground arith), chars-NoEq rest (ground arith))

chars_underscore-IsLine : (bs : Bytes) → chars b'_' bs ≡ true → IsLine bs
unfolding chars
chars_underscore-IsLine [] h = tt
chars_underscore-IsLine (c ∷ rest) h = (
  (λ e. ground arith),
  (λ e. ground arith),
  (λ e. ground arith),
  chars_underscore-IsLine rest (ground arith),
)

chars-IsKey : (c : ℕ) (rest : Bytes) → chars b'_' (c ∷ rest) ≡ true → IsKey (c ∷ rest)
chars-IsKey c rest h = record {
  line = chars_underscore-IsLine (c ∷ rest) h;
  no_eq = chars-NoEq (c ∷ rest) h;
  first_some = unfold chars in λ e. ground arith;
  first_plain = unfold chars in λ e. ground arith;
}

flag_small : (b : Bool) → flag b < 2 ^ 64
unfolding flag
flag_small true = omega arith
flag_small false = omega arith

module _ (P : Platform) where
  open P use {World}

  -- Metadata of a filter whose lines fit the buffer of 1024 bytes that they are read into.
  pub record IsWritable (meta : Meta) : Type 0 where
    pub version : meta.metadata_version ≡ 1
    pub name : name_is_valid meta.name ≡ true
    pub name_line : IsLine meta.name
    pub name_length : length meta.name ≤ max_name_len
    pub backend : meta.backend ≡ text "bpf_bloom"
    pub digest : meta.digest ≡ text "siphash128-v1"
    pub value_size : meta.value_size ≡ digest_size
    pub capacity : meta.capacity ≢ 0
    pub capacity_word : meta.capacity < 2 ^ 64
    pub hashes : meta.hashes ≤ 15
    pub rate_finite : P.is_finite meta.error_rate ≡ true
    pub rate_above_0 : P.double_le meta.error_rate (P.double_of_int 0) ≡ false
    pub rate_below_1 : P.double_le (P.double_of_int 1) meta.error_rate ≡ false
    pub rate_normal : P.double_le min_normal meta.error_rate ≡ true
    pub pin_path_line : IsLine meta.pin_path
    pub pin_path_length : length meta.pin_path ≤ 1013

  module _ (numbers : NumberLaws P) where
    scanned_whole-true :
        (v : Bytes) (n : ℕ)
        → length v ≢ 0
        → scanned_whole (record { value = n; stop = length v; errno = 0 }) v ≡ true
    unfolding scanned_whole
    scanned_whole-true v n ne = rw (byte_at-length v) (ground (arith, ne))

    meta_parse_u32-decimal : (n : ℕ) → n < 2 ^ 32 → meta_parse_u32 P (P.format_unsigned n) ≡ ok n
    unfolding meta_parse_u32
    meta_parse_u32-decimal n small =
        rw
          (
            numbers.strtoul_decimal n (omega arith),
            scanned_whole-true (P.format_unsigned n) n (numbers.decimal_nonempty n),
          )
          (ground arith)

    meta_parse_u64-decimal : (n : ℕ) → n < 2 ^ 64 → meta_parse_u64 P (P.format_unsigned n) ≡ ok n
    unfolding meta_parse_u64
    meta_parse_u64-decimal n small = rw (
      numbers.strtoull_decimal n small,
      scanned_whole-true (P.format_unsigned n) n (numbers.decimal_nonempty n),
    )

    meta_parse_double-printed :
        (x : ℕ)
        → P.is_finite x ≡ true
        → P.double_le min_normal x ≡ true
        → meta_parse_double P (P.format_double x) ≡ ok x
    unfolding meta_parse_double
    meta_parse_double-printed x finite normal = rw (
      numbers.strtod_double x finite normal,
      scanned_whole-true (P.format_double x) x (numbers.double_nonempty x),
    )

    meta_parse_flag-flag : (b : Bool) → meta_parse_flag P (P.format_unsigned (flag b)) ≡ ok b
    unfolding meta_parse_flag flag
    meta_parse_flag-flag true = rw (meta_parse_flag, meta_parse_u32-decimal 1 (omega arith))
    meta_parse_flag-flag false = rw (meta_parse_flag, meta_parse_u32-decimal 0 (omega arith))

    meta_assign_string-fits : (n : ℕ) (v : Bytes) → length v < n → meta_assign_string n v ≡ ok v
    unfolding meta_assign_string
    meta_assign_string-fits n v fits = ground arith

    -- What the scan of the lines of `meta` has at the end.
    abbrev scanned_meta : Meta → Scan
    scanned_meta meta = record {
      meta = record meta { meta_path = []; log_path = [] };
      have_name = true;
      have_backend = true;
      have_digest = true;
      have_capacity = true;
      have_rate = true;
      have_hashes = true;
      have_value_size = true;
      have_has_data = true;
      have_log_clean = true;
      have_pin_path = true;
    }

    scan_fields-meta_fields :
        (meta : Meta)
        → IsWritable meta
        → scan_fields P (meta_fields P meta) scan_init ≡ ok (scanned_meta meta)
    unfolding meta_field once scan_init same text
    scan_fields-meta_fields meta v = rw (
      scan_fields,
      meta_parse_u32-decimal meta.metadata_version (omega (arith, v.version)),
      meta_assign_string-fits (max_name_len + 1) meta.name (omega (arith, v.name_length)),
      meta_assign_string-fits 16 meta.backend (rw v.backend (omega arith)),
      meta_assign_string-fits 32 meta.digest (rw v.digest (omega arith)),
      meta_parse_u64-decimal meta.capacity v.capacity_word,
      meta_parse_double-printed meta.error_rate v.rate_finite v.rate_normal,
      meta_parse_u32-decimal meta.hashes (omega (arith, v.hashes)),
      meta_parse_u32-decimal meta.value_size (omega (arith, v.value_size)),
      meta_parse_flag-flag meta.has_data,
      meta_parse_flag-flag meta.log_clean,
      meta_assign_string-fits path_max meta.pin_path (omega (arith, v.pin_path_length)),
    )

    meta_accept-scanned_meta :
        (path : Bytes) (meta : Meta)
        → IsWritable meta
        → length path < path_max
        → meta_accept P path (scanned_meta meta)
          ≡ ok (record meta { meta_path = path; log_path = [] })
    unfolding meta_accept have_all
    meta_accept-scanned_meta path meta v short = rw (
      v.version,
      v.name,
      v.rate_finite,
      v.rate_above_0,
      v.rate_below_1,
      (same_iff meta.backend (text "bpf_bloom")).1 v.backend,
      (same_iff meta.digest (text "siphash128-v1")).1 v.digest,
      v.value_size,
      ==-ne meta.capacity 0 v.capacity,
      ltb-false 15 meta.hashes v.hashes,
      take_all (path_max - 1) path (omega (arith, short)),
    )

    meta_fields-AreFields : (meta : Meta) → IsWritable meta → AreFields P (meta_fields P meta)
    unfolding text chars
    meta_fields-AreFields meta v = (
      chars-IsKey _ _ refl,
      numbers.decimal_IsLine meta.metadata_version,
      omega (arith, numbers.decimal_length meta.metadata_version (omega (arith, v.version))),
      (
        chars-IsKey _ _ refl,
        v.name_line,
        omega (arith, v.name_length),
        (
          chars-IsKey _ _ refl,
          rw v.backend (chars-IsLine (text "bpf_bloom") refl),
          rw v.backend (omega arith),
          (
            chars-IsKey _ _ refl,
            rw v.digest (chars-IsLine (text "siphash128-v1") refl),
            rw v.digest (omega arith),
            (
              chars-IsKey _ _ refl,
              numbers.decimal_IsLine meta.capacity,
              omega (arith, numbers.decimal_length meta.capacity v.capacity_word),
              (
                chars-IsKey _ _ refl,
                numbers.double_IsLine meta.error_rate,
                omega (arith, numbers.double_length meta.error_rate),
                (
                  chars-IsKey _ _ refl,
                  numbers.decimal_IsLine meta.hashes,
                  omega (arith, numbers.decimal_length meta.hashes (omega (arith, v.hashes))),
                  (
                    chars-IsKey _ _ refl,
                    numbers.decimal_IsLine meta.value_size,
                    omega (
                      arith,
                      numbers.decimal_length meta.value_size (omega (arith, v.value_size)),
                    ),
                    (
                      chars-IsKey _ _ refl,
                      numbers.decimal_IsLine (flag meta.has_data),
                      omega (
                        arith,
                        numbers.decimal_length (flag meta.has_data) (flag_small meta.has_data),
                      ),
                      (
                        chars-IsKey _ _ refl,
                        numbers.decimal_IsLine (flag meta.log_clean),
                        omega (
                          arith,
                          numbers.decimal_length (flag meta.log_clean) (flag_small meta.log_clean),
                        ),
                        (
                          chars-IsKey _ _ refl,
                          v.pin_path_line,
                          omega (arith, v.pin_path_length),
                          tt,
                        ),
                      ),
                    ),
                  ),
                ),
              ),
            ),
          ),
        ),
      ),
    )

    module _ (unread : World → ℕ → Bytes) (texts : TextLaws P unread) where
      -- With fopen, fgets and the printing and scanning of numbers as documented, a file that
      -- holds what bloomd_meta_write_atomic writes for writable metadata is read back as that
      -- metadata, with the path that it was read from, which is shorter than PATH_MAX, and no log
      -- path. Metadata is writable if bloomd_meta_read_file accepts its values, its error rate is
      -- at least 2^-1022, the least normal double, its name and its pin path have no NUL, newline
      -- or carriage return, the name has at most 63 bytes and the pin path at most 1013, and the
      -- capacity is below 2^64.
      pub meta_read_file-meta_body :
          (path : Bytes) (meta : Meta) (w : World) (fp : ℕ)
          → IsWritable meta
          → length path < path_max
          → (P.fopen w path).0 ≡ ok fp
          → unread (P.fopen w path).1 fp ≡ meta_body P meta
          → (meta_read_file P path w).0 ≡ ok (record meta { meta_path = path; log_path = [] })
      unfolding meta_read_file
      meta_read_file-meta_body path meta w fp v short opened holds =
          rw
            (
              meta_read_file,
              opened,
              scan_loop-scan_fields P unread texts (meta_fields P meta)
                  (suc (P.bytes_left (P.fopen w path).1 fp)) fp scan_init (P.fopen w path).1
                  (meta_fields-AreFields meta v)
                  (omega (
                    arith,
                    ap length (holds ∙ meta_body-lines_text P meta),
                    texts.text_left (P.fopen w path).1 fp,
                    length-lines_text P (meta_fields P meta),
                  ))
                  (holds ∙ meta_body-lines_text P meta),
              scan_fields-meta_fields meta v,
            )
            (meta_accept-scanned_meta path meta v short)
