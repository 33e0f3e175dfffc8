-- ===== src/MetaRead/Accepted.antt =====
-- What src/meta.c accepts from a metadata file, whatever the file holds, and that it returns.
use kbloomd.Common.{
  ℕ, zero, suc, ◌-◌, ◌≤◌, ◌<◌, ◌≡◌, ◌≢◌, inl, inr, arith, true, false, Bytes, text, Result, ok, err,
  Result-cases, take, same, hang, ◌∙◌, ap, einval, Option-cases,
}
use kbloomd.Platform.{Platform}
use kbloomd.Platform.Laws.{LineLaws}
use kbloomd.Bpf.{digest_size}
use kbloomd.Name.{path_max, name_is_valid}
use kbloomd.FilterSet.{Meta}
use kbloomd.MetaRead.{
  Scan, scan_init, trim_newline, meta_line_scan, scan_loop, meta_accept, meta_read_file,
}

module _ (P : Platform) where
  open P use {World}

  -- Metadata that a filter can be made of.
  pub record IsAccepted (path : Bytes) (meta : Meta) : Type 0 where
    pub version : meta.metadata_version ≡ 1
    pub name : name_is_valid meta.name ≡ true
    pub backend : same meta.backend (text "bpf_bloom") ≡ true
    pub digest : same meta.digest (text "siphash128-v1") ≡ true
    pub value_size : meta.value_size ≡ digest_size
    pub capacity : meta.capacity ≢ 0
    pub hashes : meta.hashes ≤ 15
    pub rate_finite : P.is_finite meta.error_rate ≡ true
    pub rate_above_0 : P.double_le meta.error_rate (P.double_of_int 0) ≡ false
    pub rate_below_1 : P.double_le (P.double_of_int 1) meta.error_rate ≡ false
    pub meta_path : meta.meta_path ≡ take (path_max - 1) path

  meta_accept-IsAccepted :
      (path : Bytes) (s : Scan) (meta : Meta)
      → meta_accept P path s ≡ ok meta
      → IsAccepted path meta
  unfolding meta_accept
  meta_accept-IsAccepted path s meta h = record {
    version = ground arith;
    name = ground arith;
    backend = ground arith;
    digest = ground arith;
    value_size = ground arith;
    capacity = ground arith;
    hashes = ground arith;
    rate_finite = ground arith;
    rate_above_0 = ground arith;
    rate_below_1 = ground arith;
    meta_path = ground arith;
  }

  -- A successful read gives metadata of the current version, with a valid name, this backend and
  -- digest, 16-byte values, a capacity that is not 0, at most 15 hashes and a finite error rate
  -- strictly between 0 and 1, whatever the file holds.
  pub meta_read_file-IsAccepted :
      (path : Bytes) (w : World) (meta : Meta)
      → (meta_read_file P path w).0 ≡ ok meta
      → IsAccepted path meta
  unfolding meta_read_file
  meta_read_file-IsAccepted path w meta h = elim (Result-cases (P.fopen w path).0) [
    | inl (fp, e) ↦
        scanned fp
          (scan_loop P (suc (P.bytes_left (P.fopen w path).1 fp)) fp scan_init (P.fopen w path).1).0
          (rw_at fp e h)
    | inr (k, e) ↦ absurd (ground (arith, h))
  ]
    where
      rw_at :
          (fp : ℕ)
          → (P.fopen w path).0 ≡ ok fp
          → (meta_read_file P path w).0 ≡ ok meta
          → elim (scan_loop P
                (suc (P.bytes_left (P.fopen w path).1 fp))
                fp
                scan_init
                (P.fopen w path).1).0
              as (λ _. Result Meta) [ err e ↦ err e | ok s ↦ meta_accept P path s ]
            ≡ ok meta
      rw_at fp e h = ground (arith, h)

      scanned :
          (fp : ℕ) (r : Result Scan)
          → elim r as (λ _. Result Meta) [ err e ↦ err e | ok s ↦ meta_accept P path s ] ≡ ok meta
          → IsAccepted path meta
      scanned fp (err e) h = absurd (ground arith)
      scanned fp (ok s) h = meta_accept-IsAccepted path s meta h

  module _ (lines : LineLaws P) where
    scan_loop-ne-hang :
        (fuel fp : ℕ) (s : Scan) (w : World)
        → P.bytes_left w fp < fuel
        → (scan_loop P fuel fp s w).0 ≢ err hang
    unfolding scan_loop
    scan_loop-ne-hang zero fp s w enough = absurd (omega arith)
    scan_loop-ne-hang (suc fuel) fp s w enough = elim (Option-cases (P.fgets w fp 1024).0) [
      | inl e ↦ rw (scan_loop, e) (λ h. ground arith)
      | inr (raw, e) ↦
          rw (scan_loop, e)
            (after_line (meta_line_scan P (trim_newline raw) s) (λ s1.
              scan_loop-ne-hang fuel fp s1 (P.fgets w fp 1024).1
                (omega (arith, lines.line_left w fp 1024 raw e))))
    ]
      where
        w1 : World
        w1 = (P.fgets w fp 1024).1

        after_line :
            (r : Result Scan)
            → ((s1 : Scan) → (scan_loop P fuel fp s1 w1).0 ≢ err hang)
            → (elim r as (λ _. Result Scan × World) [
              | err e ↦ (err einval, P.fclose w1 fp)
              | ok s1 ↦ scan_loop P fuel fp s1 w1
            ]).0
              ≢ err hang
        after_line (ok s1) next = next s1
        after_line (err e) next = λ h. ground arith

    meta_accept-ne-hang : (path : Bytes) (s : Scan) → meta_accept P path s ≢ err hang
    unfolding meta_accept
    meta_accept-ne-hang path s = ground arith

    -- Where every line takes at least a byte off the stream, and fopen fails with an errno value,
    -- reading a metadata file returns: the fuel never runs out.
    pub meta_read_file-ne-hang :
        (path : Bytes) (w : World)
        → (P.fopen w path).0 ≢ err hang
        → (meta_read_file P path w).0 ≢ err hang
    unfolding meta_read_file
    meta_read_file-ne-hang path w open_ok = elim (Result-cases (P.fopen w path).0) [
      | inl (fp, e) ↦
          rw (meta_read_file, e)
            (scanned (scan_loop P (suc (P.bytes_left w1 fp)) fp scan_init w1).0
              (scan_loop-ne-hang (suc (P.bytes_left w1 fp)) fp scan_init w1 (omega arith)))
      | inr (k, e) ↦ rw (meta_read_file, e) (λ h. open_ok (e ∙ ap err (ground (arith, h))))
    ]
      where
        w1 : World
        w1 = (P.fopen w path).1

        scanned :
            (r : Result Scan)
            → r ≢ err hang
            → elim r as (λ _. Result Meta) [ err e ↦ err e | ok s ↦ meta_accept P path s ]
              ≢ err hang
        scanned (ok s) h = meta_accept-ne-hang path s
        scanned (err e) h = λ k. h (ground arith)
