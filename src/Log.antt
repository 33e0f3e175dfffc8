-- ===== src/Log.antt =====
-- src/log.c: the append-only log of digests and its write buffer. The buffer is the list of its
-- live bytes, the first `*buf_len_io` of the array; `buf` and `buf_len_io` are never NULL here.
-- A descriptor is `none` where the source has a negative one.
pub mod Laws
pub mod Replay
use kbloomd.Common.{
  ℕ, zero, suc, ◌+◌, ◌-◌, ◌*◌, Bool, true, false, not, ◌&&◌, Option, none, some, List, [], ◌∷◌,
  ◌++◌, Bytes, Result, ok, err, length, ◌==◌, ltb, if◌then◌else◌, einval, eintr, enoent, hang,
}
use kbloomd.Platform.{Platform, create_trunc, create_append, create_trunc_append, read_only}
use kbloomd.Bpf.{digest_size}
use kbloomd.Io.{write_all}

-- BLOOMD_LOG_BUFFER_CAP
abbrev pub log_buffer_cap : ℕ
log_buffer_cap = 64 * digest_size

module _ (P : Platform) where
  open P use {World, interrupts, open_file, close, fsync, ftruncate, truncate, read, unlink}

  unfoldable pub log_reset : Bytes → World → ℕ × World
  log_reset path w =
      let (r, w1) = open_file w path create_trunc in
      elim r [
        | err e ↦ (e, w1)
        | ok fd ↦
            let (rc, w2) = fsync w1 fd in
            if not (rc == 0) then (rc, close w2 fd) else (0, close w2 fd)
      ]

  unfoldable pub log_open_append : Bytes → World → Result ℕ × World
  log_open_append path w = open_file w path create_append

  unfoldable pub log_open_create : Bytes → World → Result ℕ × World
  log_open_create path w = open_file w path create_trunc_append

  unfoldable pub log_append_fd : Option ℕ → Bytes → World → ℕ × World
  unfolding write_all
  log_append_fd none digest w = (einval, w)
  log_append_fd (some fd) digest w = write_all P fd digest w

  unfoldable pub log_sync : Option ℕ → World → ℕ × World
  log_sync none w = (einval, w)
  log_sync (some fd) w = fsync w fd

  -- `memcpy(buf + *buf_len_io, digest, ...)` and the new length
  unfoldable pub log_buffer_append : Option ℕ → Bytes → Bytes → World → ℕ × Bytes × World
  unfolding write_all
  log_buffer_append none buf digest w = (einval, buf, w)
  log_buffer_append (some fd) buf digest w =
      if ltb log_buffer_cap (length buf)
      then (einval, buf, w)
      else if ltb log_buffer_cap (length buf + digest_size)
      then (let (rc, w') = write_all P fd buf w in
          if not (rc == 0) then (rc, buf, w') else (0, digest, w'))
      else (0, buf ++ digest, w)

  -- The part after the buffer is empty.
  unfoldable pub flush_sync : Option ℕ → Bool → Bytes → World → ℕ × Bytes × World
  unfolding log_sync
  flush_sync fd sync buf w =
      if not sync then (0, buf, w) else (let (rc, w') = log_sync fd w in (rc, buf, w'))

  unfoldable pub log_buffer_flush : Option ℕ → Bytes → Bool → World → ℕ × Bytes × World
  unfolding write_all flush_sync
  log_buffer_flush none buf sync w = (einval, buf, w)
  log_buffer_flush (some fd) buf sync w =
      if ltb 0 (length buf)
      then (let (rc, w') = write_all P fd buf w in
          if not (rc == 0) then (rc, buf, w') else flush_sync (some fd) sync [] w')
      else flush_sync (some fd) sync buf w

  -- The length is never negative here.
  unfoldable pub log_truncate : Option ℕ → ℕ → Bool → World → ℕ × World
  unfolding log_sync
  log_truncate none len sync w = (einval, w)
  log_truncate (some fd) len sync w =
      let (rc, w') = ftruncate w fd len in
      if not (rc == 0) then (rc, w') else if not sync then (0, w') else log_sync (some fd) w'

  -- Afterwards the descriptor is -1.
  unfoldable pub log_close : Option ℕ → Bool → World → World
  unfolding log_sync
  log_close none sync w = w
  log_close (some fd) sync w = if sync then close (log_sync (some fd) w).1 fd else close w fd

  -- bloomd_remove_path_if_exists, which is bloomd_log_delete and bloomd_meta_delete too
  unfoldable pub remove_path_if_exists : Bytes → World → ℕ × World
  remove_path_if_exists path w =
      let (rc, w') = unlink w path in
      if rc == 0 then (0, w') else if rc == enoent then (0, w') else (rc, w')

  unfoldable pub log_delete : Bytes → World → ℕ × World
  unfolding remove_path_if_exists
  log_delete path w = remove_path_if_exists path w
