-- ===== src/MetaRead/Fields.antt =====
-- Reading back what src/meta.c writes: a text of `key=value` lines is scanned field by field.
use kbloomd.Common.{
  ℕ, zero, suc, ◌+◌, ◌≤◌, ◌<◌, ◌≡◌, ◌≢◌, refl, sym, ap, ◌∙◌, arith, ◌||◌, if◌then◌else◌, some, List,
  [], ◌∷◌, ◌++◌, Bytes, text, Result, ok, err, length, ◌==◌, ==-ne, length-append, append_assoc,
  append-nil, einval,
}
use kbloomd.Platform.{Platform}
use kbloomd.Platform.Laws.{TextLaws, IsLine}
use kbloomd.Wire.{byte_at}
use kbloomd.FilterSet.{Meta}
use kbloomd.MetaFile.{meta_line, meta_body, flag}
use kbloomd.MetaRead.{Scan, trim_newline, split_eq, meta_line_scan, meta_field, scan_loop}

-- A key of a line: a text of one line that holds no `=`, and is no comment.
abbrev pub NoEq : Bytes → Type 0
NoEq [] = Unit
NoEq (c ∷ rest) = (c ≢ b'=') × NoEq rest

pub record IsKey (key : Bytes) : Type 0 where
  pub line : IsLine key
  pub no_eq : NoEq key
  pub first_some : byte_at key 0 ≢ 0
  pub first_plain : byte_at key 0 ≢ b'#'

trim_newline-line : (line : Bytes) → IsLine line → trim_newline (line ++ (10 ∷ [])) ≡ line
unfolding trim_newline
trim_newline-line [] h = refl
trim_newline-line (c ∷ rest) (h0, h1, h2, h) = rw (trim_newline-line rest h) (kept rest)
  where
    kept :
        (t : Bytes)
        → elim t as (λ _. Bytes) [
          | [] ↦ if c == 10 || c == 13 then [] else c ∷ []
          | d ∷ more ↦ c ∷ d ∷ more
        ]
          ≡ c ∷ t
    kept [] = ground (arith, h1, h2)
    kept (d ∷ more) = refl

split_eq-line :
    (key value : Bytes) → NoEq key → split_eq (key ++ (b'=' ∷ value)) ≡ some (key, value)
unfolding split_eq
split_eq-line [] value h = refl
split_eq-line (c ∷ rest) value (ne, h) = rw (split_eq-line rest value h) (ground (arith, ne))

IsLine-append : (xs ys : Bytes) → IsLine xs → IsLine ys → IsLine (xs ++ ys)
IsLine-append [] ys h k = k
IsLine-append (x ∷ xs) ys (h0, h1, h2, h) k = (h0, h1, h2, IsLine-append xs ys h k)

module _ (P : Platform) where
  open P use {World}

  abbrev pub lines_text : List (Bytes × Bytes) → Bytes
  lines_text [] = []
  lines_text ((key, value) ∷ fields) = meta_line P key value ++ lines_text fields

  pub length-lines_text :
      (fields : List (Bytes × Bytes)) → length fields ≤ length (lines_text fields)
  unfolding meta_line
  length-lines_text [] = omega arith
  length-lines_text ((key, value) ∷ fields) = omega (
    arith,
    length-append (meta_line P key value) (lines_text fields),
    length-append key (b'=' ∷ (value ++ (10 ∷ []))),
    length-lines_text fields,
  )

  abbrev pub scan_fields : List (Bytes × Bytes) → Scan → Result Scan
  scan_fields [] s = ok s
  scan_fields ((key, value) ∷ fields) s = elim (meta_field P key value s) [
    | err e ↦ err einval
    | ok s1 ↦ scan_fields fields s1
  ]

  abbrev pub AreFields : List (Bytes × Bytes) → Type 0
  AreFields [] = Unit
  AreFields ((key, value) ∷ fields) =
      IsKey key × IsLine value × (length key + length value ≤ 1021) × AreFields fields

  meta_line_scan-line :
      (key value : Bytes) (s : Scan)
      → IsKey key
      → meta_line_scan P (key ++ (b'=' ∷ value)) s ≡ meta_field P key value s
  unfolding meta_line_scan
  meta_line_scan-line [] value s k = absurd (k.first_some refl)
  meta_line_scan-line (c ∷ rest) value s k =
      rw
        (split_eq-line (c ∷ rest) value k.no_eq, ==-ne c 0 k.first_some, ==-ne c b'#' k.first_plain)

  module _ (unread : World → ℕ → Bytes) (texts : TextLaws P unread) where
    pub scan_loop-scan_fields :
        (fields : List (Bytes × Bytes)) (fuel fp : ℕ) (s : Scan) (w : World)
        → AreFields fields
        → length fields < fuel
        → unread w fp ≡ lines_text fields
        → (scan_loop P fuel fp s w).0 ≡ scan_fields fields s
    unfolding scan_loop
    scan_loop-scan_fields fields zero fp s w h enough e = absurd (omega arith)
    scan_loop-scan_fields [] (suc fuel) fp s w h enough e =
        rw (scan_loop, texts.line_none w fp 1024 e)
    scan_loop-scan_fields ((key, value) ∷ fields) (suc fuel) fp s w (k, v, fits, h) enough e =
        rw (scan_loop, got.0, trim_newline-line line one_line, meta_line_scan-line key value s k)
          (scanned (meta_field P key value s) (λ s1.
            scan_loop-scan_fields fields fuel fp s1 (P.fgets w fp 1024).1 h (omega arith) got.1))
      where
        line : Bytes
        line = key ++ (b'=' ∷ value)

        one_line : IsLine line
        one_line =
            IsLine-append key (b'=' ∷ value) k.line
              ((λ z. ground arith), (λ z. ground arith), (λ z. ground arith), v)

        got :
            ((P.fgets w fp 1024).0 ≡ some (line ++ (10 ∷ [])))
            × (unread (P.fgets w fp 1024).1 fp ≡ lines_text fields)
        got =
            texts.line_whole w fp 1024 line (lines_text fields) (e ∙ in_front) one_line
              (omega (arith, length-append key (b'=' ∷ value), fits))
          where
            in_front : meta_line P key value ++ lines_text fields ≡ line ++ (10 ∷ lines_text fields)
            in_front =
                unfold meta_line in
                append_assoc key (b'=' ∷ (value ++ (10 ∷ []))) (lines_text fields)
                ∙ ap (λ t. key ++ (b'=' ∷ t)) (append_assoc value (10 ∷ []) (lines_text fields))
                ∙ sym (append_assoc key (b'=' ∷ value) (10 ∷ lines_text fields))

        scanned :
            (r : Result Scan)
            → ((s1 : Scan)
                → (scan_loop P fuel fp s1 (P.fgets w fp 1024).1).0 ≡ scan_fields fields s1)
            → (elim r as (λ _. Result Scan × World) [
              | err e ↦ (err einval, P.fclose (P.fgets w fp 1024).1 fp)
              | ok s1 ↦ scan_loop P fuel fp s1 (P.fgets w fp 1024).1
            ]).0
              ≡ elim r as (λ _. Result Scan) [ err e ↦ err einval | ok s1 ↦ scan_fields fields s1 ]
        scanned (ok s1) next = next s1
        scanned (err e) next = refl

  -- The fields that the text of a file has, and the metadata that they stand for.
  abbrev pub meta_fields : Meta → List (Bytes × Bytes)
  meta_fields meta =
      (text "version", P.format_unsigned meta.metadata_version)
      ∷ (text "name", meta.name)
      ∷ (text "backend", meta.backend)
      ∷ (text "digest", meta.digest)
      ∷ (text "capacity", P.format_unsigned meta.capacity)
      ∷ (text "error_rate", P.format_double meta.error_rate)
      ∷ (text "hashes", P.format_unsigned meta.hashes)
      ∷ (text "value_size", P.format_unsigned meta.value_size)
      ∷ (text "has_data", P.format_unsigned (flag meta.has_data))
      ∷ (text "log_clean", P.format_unsigned (flag meta.log_clean))
      ∷ (text "pin_path", meta.pin_path)
      ∷ []

  pub meta_body-lines_text : (meta : Meta) → meta_body P meta ≡ lines_text (meta_fields meta)
  unfolding meta_body
  meta_body-lines_text meta = rw (append-nil (meta_line P (text "pin_path") meta.pin_path))
