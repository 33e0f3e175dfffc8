-- ===== src/MetaRead.antt =====
-- src/meta.c: reading the metadata file of a filter, line by line, and setting a stale one aside.
-- `Scan` holds the metadata read so far and which keys have been seen.
use kbloomd.Common.{
  ℕ, zero, suc, ◌+◌, ◌-◌, ◌^◌, Bool, true, false, not, ◌&&◌, ◌||◌, Option, none, some, [], ◌∷◌,
  ◌++◌, Bytes, text, Result, ok, err, length, take, same, ◌==◌, ltb, leb, if◌then◌else◌, einval,
  enametoolong, hang,
}
use kbloomd.Platform.{Platform, Scanned}
use kbloomd.Wire.{byte_at}
use kbloomd.Bpf.{digest_size}
use kbloomd.Frame.{max_name_len}
use kbloomd.Name.{path_max, name_is_valid}
use kbloomd.FilterSet.{Meta}
pub mod Accepted
pub mod Fields
pub mod RoundTrip

pub record Scan : Type 0 where
  pub meta : Meta
  pub have_name : Bool
  pub have_backend : Bool
  pub have_digest : Bool
  pub have_capacity : Bool
  pub have_rate : Bool
  pub have_hashes : Bool
  pub have_value_size : Bool
  pub have_has_data : Bool
  pub have_log_clean : Bool
  pub have_pin_path : Bool

-- bloomd_meta_assign_string, for an array of `dst_sz` bytes
unfoldable pub meta_assign_string : ℕ → Bytes → Result Bytes
meta_assign_string dst_sz value = if leb dst_sz (length value) then err enametoolong else ok value

-- Was the number read without an error, and to the end of the text?
unfoldable pub scanned_whole : Scanned → Bytes → Bool
scanned_whole r value = not (not (r.errno == 0) || r.stop == 0 || not (byte_at value r.stop == 0))

-- bloomd_trim_newline
unfoldable pub trim_newline : Bytes → Bytes
trim_newline [] = []
trim_newline (c ∷ rest) = elim (trim_newline rest) [
  | [] ↦ if c == 10 || c == 13 then [] else c ∷ []
  | d ∷ more ↦ c ∷ d ∷ more
]

-- The text before the first `=`, and after it.
unfoldable pub split_eq : Bytes → Option (Bytes × Bytes)
split_eq [] = none
split_eq (c ∷ rest) =
    let later = split_eq rest in
    if c == b'='
    then some ([], rest)
    else (elim later [ none ↦ none | some (key, value) ↦ some (c ∷ key, value) ])

-- A key that may occur once, with a value that must parse.
unfoldable pub once {ℓ} : {A : Type ℓ} → Bool → Result A → (A → Scan) → Result Scan
once have parsed store =
    if have then err einval else (elim parsed [ err e ↦ err einval | ok a ↦ ok (store a) ])

unfoldable pub scan_init : Scan
scan_init = record {
  meta = record {
    name = [];
    backend = [];
    digest = [];
    pin_path = [];
    meta_path = [];
    log_path = [];
    capacity = 0;
    error_rate = 0;
    hashes = 0;
    value_size = 0;
    metadata_version = 0;
    has_data = true;
    log_clean = false;
  };
  have_name = false;
  have_backend = false;
  have_digest = false;
  have_capacity = false;
  have_rate = false;
  have_hashes = false;
  have_value_size = false;
  have_has_data = false;
  have_log_clean = false;
  have_pin_path = false;
}

-- Were all the keys seen that must be?
unfoldable pub have_all : Scan → Bool
have_all s =
    s.have_name && s.have_backend && s.have_digest && s.have_capacity && s.have_rate
    && s.have_hashes && s.have_value_size && s.have_pin_path

module _ (P : Platform) where
  open P use {
    World, bytes_left, fopen, fgets, fclose, strtoul, strtoull, strtod, is_finite, double_le,
    double_of_int, time, format_unsigned, rename,
  }

  unfoldable pub meta_parse_u32 : Bytes → Result ℕ
  unfolding scanned_whole
  meta_parse_u32 value =
      let r = strtoul value 10 in
      if not (scanned_whole r value) || ltb (2 ^ 32 - 1) r.value then err einval else ok r.value

  unfoldable pub meta_parse_u64 : Bytes → Result ℕ
  unfolding scanned_whole
  meta_parse_u64 value =
      let r = strtoull value 10 in if not (scanned_whole r value) then err einval else ok r.value

  unfoldable pub meta_parse_double : Bytes → Result ℕ
  unfolding scanned_whole
  meta_parse_double value =
      let r = strtod value in if not (scanned_whole r value) then err einval else ok r.value

  -- A number that must be 0 or 1.
  unfoldable pub meta_parse_flag : Bytes → Result Bool
  unfolding meta_parse_u32
  meta_parse_flag value = elim (meta_parse_u32 value) [
    | err e ↦ err einval
    | ok n ↦ if not (n == 0) && not (n == 1) then err einval else ok (not (n == 0))
  ]

  -- The chain of tests on the key of one line.
  unfoldable pub meta_field : Bytes → Bytes → Scan → Result Scan
  unfolding meta_assign_string meta_parse_u32 meta_parse_u64 meta_parse_double meta_parse_flag once
  meta_field key value s =
      let m = s.meta in
      if same key (text "version")
      then once (not (m.metadata_version == 0)) (meta_parse_u32 value)
          (λ n. record s { meta = record m { metadata_version = n } })
      else if same key (text "name")
      then once s.have_name (meta_assign_string (max_name_len + 1) value)
          (λ t. record s { meta = record m { name = t }; have_name = true })
      else if same key (text "backend")
      then once s.have_backend (meta_assign_string 16 value)
          (λ t. record s { meta = record m { backend = t }; have_backend = true })
      else if same key (text "digest")
      then once s.have_digest (meta_assign_string 32 value)
          (λ t. record s { meta = record m { digest = t }; have_digest = true })
      else if same key (text "capacity")
      then once s.have_capacity (meta_parse_u64 value)
          (λ n. record s { meta = record m { capacity = n }; have_capacity = true })
      else if same key (text "error_rate")
      then once s.have_rate (meta_parse_double value)
          (λ n. record s { meta = record m { error_rate = n }; have_rate = true })
      else if same key (text "hashes")
      then once s.have_hashes (meta_parse_u32 value)
          (λ n. record s { meta = record m { hashes = n }; have_hashes = true })
      else if same key (text "value_size")
      then once s.have_value_size (meta_parse_u32 value)
          (λ n. record s { meta = record m { value_size = n }; have_value_size = true })
      else if same key (text "has_data")
      then once s.have_has_data (meta_parse_flag value)
          (λ b. record s { meta = record m { has_data = b }; have_has_data = true })
      else if same key (text "log_clean")
      then once s.have_log_clean (meta_parse_flag value)
          (λ b. record s { meta = record m { log_clean = b }; have_log_clean = true })
      else if same key (text "pin_path")
      then once s.have_pin_path (meta_assign_string path_max value)
          (λ t. record s { meta = record m { pin_path = t }; have_pin_path = true })
      else err einval

  -- One line without its newline: blank, a comment, or a key and a value.
  unfoldable pub meta_line_scan : Bytes → Scan → Result Scan
  unfolding split_eq meta_field
  meta_line_scan line s =
      let first = byte_at line 0 in
      if first == 0 || first == b'#'
      then ok s
      else (elim (split_eq line) [ none ↦ err einval | some (key, value) ↦ meta_field key value s ])

  -- The loop over the lines, with the stream closed on every way out.
  unfoldable pub scan_loop : ℕ → ℕ → Scan → World → Result Scan × World
  unfolding trim_newline meta_line_scan
  scan_loop zero fp s w = (err hang, w)
  scan_loop (suc fuel) fp s w =
      let (line, w1) = fgets w fp 1024 in
      let next = λ (s1 : Scan). scan_loop fuel fp s1 w1 in
      elim line [
        | none ↦ (ok s, fclose w1 fp)
        | some raw ↦ (elim (meta_line_scan (trim_newline raw) s) [
          | err e ↦ (err einval, fclose w1 fp)
          | ok s1 ↦ next s1
        ])
      ]

  -- The tests after the last line, and what they leave to fill in.
  unfoldable pub meta_accept : Bytes → Scan → Result Meta
  unfolding have_all name_is_valid
  meta_accept path s =
      let m = s.meta in
      if not (have_all s)
      then err einval
      else if not (m.metadata_version == 1)
      then err einval
      else if not (name_is_valid m.name)
      then err einval
      else if not (same m.backend (text "bpf_bloom")) || not (same m.digest (text "siphash128-v1"))
      then err einval
      else if not (m.value_size == digest_size)
          || m.capacity == 0
          || ltb 15 m.hashes
          || not (is_finite m.error_rate)
          || double_le m.error_rate (double_of_int 0)
          || double_le (double_of_int 1) m.error_rate
      then err einval
      else ok (record m {
        log_clean = if s.have_log_clean then m.log_clean else not m.has_data;
        meta_path = take (path_max - 1) path;
      })

  unfoldable pub meta_read_file : Bytes → World → Result Meta × World
  unfolding scan_loop meta_accept scan_init
  meta_read_file path w =
      let (r, w1) = fopen w path in
      elim r [
        | err e ↦ (err e, w1)
        | ok fp ↦
            let (scanned, w2) = scan_loop (suc (bytes_left w1 fp)) fp scan_init w1 in
            (elim scanned [ err e ↦ err e | ok s ↦ meta_accept path s ], w2)
      ]

  unfoldable pub meta_recover_stale : Bytes → World → ℕ × World
  meta_recover_stale path w =
      let recovered = path ++ (text ".stale." ++ format_unsigned (time w)) in
      if leb path_max (length recovered) then (enametoolong, w) else rename w path recovered
