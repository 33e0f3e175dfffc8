-- ===== src/MetaFile.antt =====
-- src/meta.c: the metadata file of a filter, replaced as a whole through a temporary file.
use kbloomd.Common.{
  ℕ, Bool, true, false, not, Option, none, some, [], ◌∷◌, ◌++◌, Bytes, text, ok, err, length, ◌==◌,
  leb, if◌then◌else◌, enametoolong,
}
use kbloomd.Platform.{Platform, create_trunc, directory}
use kbloomd.Name.{path_max}
use kbloomd.Io.{write_all}
use kbloomd.FilterSet.{Meta}

unfoldable pub flag : Bool → ℕ
flag true = 1
flag false = 0

-- The path up to its last slash, where that is not the first byte; else the whole path.
unfoldable pub last_slash : Bytes → Option Bytes
last_slash [] = none
last_slash (c ∷ rest) = elim (last_slash rest) [
  | some before ↦ some (c ∷ before)
  | none ↦ if c == b'/' then some [] else none
]

unfoldable pub parent_dir : Bytes → Bytes
unfolding last_slash
parent_dir path = elim (last_slash path) [
  | none ↦ path
  | some [] ↦ path
  | some (c ∷ before) ↦ c ∷ before
]

module _ (P : Platform) where
  open P use {
    World, open_file, close, fsync, fdatasync, unlink, rename, getpid, format_unsigned,
    format_double,
  }

  -- `key=value` and a newline
  unfoldable pub meta_line : Bytes → Bytes → Bytes
  meta_line key value = key ++ (b'=' ∷ (value ++ (10 ∷ [])))

  -- The text of the file, as `snprintf` would write it in full.
  unfoldable pub meta_body : Meta → Bytes
  unfolding meta_line flag
  meta_body meta =
      meta_line (text "version") (format_unsigned meta.metadata_version)
      ++ (meta_line (text "name") meta.name
          ++ (meta_line (text "backend") meta.backend
              ++ (meta_line (text "digest") meta.digest
                  ++ (meta_line (text "capacity") (format_unsigned meta.capacity)
                      ++ (meta_line (text "error_rate") (format_double meta.error_rate)
                          ++ (meta_line (text "hashes") (format_unsigned meta.hashes)
                              ++ (meta_line (text "value_size") (format_unsigned meta.value_size)
                                  ++ (meta_line (text "has_data")
                                        (format_unsigned (flag meta.has_data))
                                      ++ (meta_line (text "log_clean")
                                            (format_unsigned (flag meta.log_clean))
                                          ++ meta_line (text "pin_path") meta.pin_path)))))))))

  -- `open`, `fsync` and `close` of the directory, whose failures are ignored.
  unfoldable pub sync_dir : Bytes → World → World
  sync_dir path w =
      let (r, w1) = open_file w path directory in
      elim r [ err e ↦ w1 | ok dfd ↦ close (fsync w1 dfd).1 dfd ]

  -- From the open temporary file on.
  unfoldable pub meta_write_tmp : ℕ → Bytes → Bytes → Bytes → World → ℕ × World
  unfolding write_all sync_dir parent_dir
  meta_write_tmp fd tmp_path meta_path body w =
      let (n, w1) = write_all P fd body w in
      let (synced, w2) = fdatasync w1 fd in
      let w3 = close w2 fd in
      let (renamed, w4) = rename w3 tmp_path meta_path in
      if not (n == 0)
      then (n, (unlink (close w1 fd) tmp_path).1)
      else if not (synced == 0)
      then (synced, (unlink w3 tmp_path).1)
      else if not (renamed == 0)
      then (renamed, (unlink w4 tmp_path).1)
      else (0, sync_dir (parent_dir meta_path) w4)

  -- bloomd_meta_write_atomic
  unfoldable pub meta_write_atomic : Meta → World → ℕ × World
  unfolding meta_body meta_write_tmp
  meta_write_atomic meta w =
      let body = meta_body meta in
      let tmp_path = meta.meta_path ++ (text ".tmp." ++ format_unsigned (getpid w)) in
      let (r, w1) = open_file w tmp_path create_trunc in
      if leb 2048 (length body)
      then (enametoolong, w)
      else if leb path_max (length tmp_path)
      then (enametoolong, w)
      else (elim r [ err e ↦ (e, w1) | ok fd ↦ meta_write_tmp fd tmp_path meta.meta_path body w1 ])
