-- ===== src/FilterState.antt =====
-- How src/daemon.c makes a filter durable and logs the digests added to it. Each function takes
-- the filter that the source's pointer shows, and returns it as it stands afterwards.
pub mod Keeps
use kbloomd.Common.{
  ℕ, zero, suc, ◌+◌, ◌-◌, ◌*◌, ◌/◌, ◌%◌, ◌^◌, Bool, true, false, not, ◌&&◌, ◌||◌, Option, none,
  some, List, [], ◌∷◌, ◌++◌, Bytes, text, Result, ok, err, length, take, ◌==◌, ltb, if◌then◌else◌,
}
use kbloomd.Platform.{Platform}
use kbloomd.Wire.{u64}
use kbloomd.Bpf.{Outcome, done, fail, into_errbuf, digest_size, bpf_pin_map, bpf_unpin}
use kbloomd.FilterSet.{Meta, Filter}
use kbloomd.Log.{
  log_buffer_cap, log_open_append, log_open_create, log_buffer_append, log_buffer_flush,
  log_truncate, log_close, log_delete,
}
use kbloomd.MetaFile.{meta_write_atomic}

-- enum bloomd_log_sync_mode
pub data SyncMode : Type 0 where
  periodic always : SyncMode

unfoldable pub is_always : SyncMode → Bool
is_always periodic = false
is_always always = true

-- A descriptor as the `uint32_t` of the kernel's attribute.
unfoldable pub raw_fd : Option ℕ → ℕ
raw_fd none = 2 ^ 32 - 1
raw_fd (some fd) = fd

-- struct bloomd_log_stage; `prev_file_size` is 0 where it was not asked for.
pub record Stage : Type 0 where
  pub prev_buf_len : ℕ
  pub prev_file_size : ℕ
  pub prev_dirty : Bool
  pub can_truncate : Bool
  pub overflow_flush : Bool

module _ (P : Platform) where
  open P use {World, clock_gettime, strerror, lseek_end}

  unfoldable pub now_ms : World → ℕ × World
  now_ms w = let ((sec, nsec), w') = clock_gettime w in (u64 (sec * 1000 + nsec / 1000000), w')

  -- The rest of `bloomd_open_filter_log` with the descriptor or the error in hand.
  unfoldable pub filter_log_opened : Filter → Result ℕ → World → Outcome (Unit {0}) × Filter × World
  filter_log_opened filter (err e) w = (
    fail e (
        into_errbuf (
          text "failed to open digest log for "
          ++ (filter.meta.name ++ (text ": " ++ strerror e)))),
    record filter { log_fd = none },
    w,
  )
  filter_log_opened filter (ok fd) w =
      let (now, w') = now_ms w in
      (
        done tt,
        record filter { log_fd = some fd; log_buf = []; log_dirty = false; last_log_sync_ms = now },
        w',
      )

  unfoldable pub open_filter_log : Filter → Bool → World → Outcome (Unit {0}) × Filter × World
  open_filter_log filter truncate w =
      let (r, w') =
        if truncate
        then log_open_create P filter.meta.log_path w
        else log_open_append P filter.meta.log_path w in
      filter_log_opened filter r w'

  -- The message is dropped by the callers that pass no `errbuf`.
  unfoldable pub update_filter_meta_state :
      Filter → Bool → Bool → World → Outcome (Unit {0}) × Filter × World
  update_filter_meta_state filter has_data log_clean w =
      let updated : Meta = record filter.meta { has_data = has_data; log_clean = log_clean } in
      let (rc, w') = meta_write_atomic P updated w in
      if rc == 0
      then (done tt, record filter { meta = updated }, w')
      else (fail rc (into_errbuf (text "failed to write metadata")), filter, w')

  -- A filter that has data: its log is opened if it is not.
  unfoldable pub ensure_log_open : Filter → Option ℕ → World → Outcome (Unit {0}) × Filter × World
  ensure_log_open filter none w = open_filter_log filter false w
  ensure_log_open filter (some fd) w = (done tt, filter, w)

  -- The three steps that make a filter durable, each with the clean-up of those before it.
  unfoldable pub durable_meta : Filter → World → Outcome (Unit {0}) × Filter × World
  durable_meta filter w =
      let (r, filter', w1) = update_filter_meta_state filter true true w in
      elim r [
        | done t ↦ (done tt, filter', w1)
        | fail rc message ↦
            let w2 = log_close P filter.log_fd false w1 in
            let w3 = (log_delete P filter.meta.log_path w2).1 in
            (
              fail rc message,
              record filter { log_fd = none },
              (bpf_unpin P filter.meta.pin_path w3).1,
            )
      ]

  unfoldable pub durable_log : Filter → World → Outcome (Unit {0}) × Filter × World
  durable_log filter w =
      let (r, filter', w1) = open_filter_log filter true w in
      elim r [
        | done t ↦ durable_meta filter' w1
        | fail rc message ↦ (fail rc message, filter', (bpf_unpin P filter.meta.pin_path w1).1)
      ]

  unfoldable pub durable_pin : Filter → World → Outcome (Unit {0}) × Filter × World
  durable_pin filter w =
      let (r, w1) = bpf_pin_map P (raw_fd filter.map_fd) filter.meta.pin_path w in
      elim r [ done t ↦ durable_log filter w1 | fail rc message ↦ (fail rc message, filter, w1) ]

  unfoldable pub ensure_filter_durable : Filter → World → Outcome (Unit {0}) × Filter × World
  ensure_filter_durable filter w =
      if filter.meta.has_data then ensure_log_open filter filter.log_fd w else durable_pin filter w

  -- The Boolean is `*changed_out`.
  unfoldable pub mark_filter_log_dirty : Filter → World → Outcome Bool × Filter × World
  mark_filter_log_dirty filter w =
      let (r, filter', w1) = update_filter_meta_state filter true false w in
      if not filter.meta.has_data || not filter.meta.log_clean
      then (done false, filter, w)
      else (elim r [
        | done t ↦ (done true, filter', w1)
        | fail rc message ↦ (fail rc message, filter', w1)
      ])

  -- The part of `bloomd_stage_digest_for_add` after the file size is known.
  unfoldable pub stage_append :
      Filter → Bytes → SyncMode → Stage → World → ℕ × Stage × Filter × World
  stage_append filter digest mode stage w =
      let (rc, buf, w1) = log_buffer_append P filter.log_fd filter.log_buf digest w in
      let appended : Filter = record filter { log_buf = buf } in
      let (rc2, buf2, w2) = log_buffer_flush P filter.log_fd buf true w1 in
      let flushed : Filter = record filter { log_buf = buf2 } in
      if not (rc == 0)
      then (rc, stage, appended, w1)
      else if is_always mode
      then (rc2, stage, flushed, w2)
      else (0, stage, appended, w1)

  unfoldable pub stage_digest_for_add :
      Filter → Bytes → SyncMode → World → ℕ × Stage × Filter × World
  stage_digest_for_add filter digest mode w =
      let stage : Stage = record {
        prev_buf_len = length filter.log_buf;
        prev_file_size = 0;
        prev_dirty = filter.log_dirty;
        can_truncate = false;
        overflow_flush = ltb log_buffer_cap (length filter.log_buf + digest_size);
      } in
      let (size, w1) = lseek_end w (raw_fd filter.log_fd) in
      if is_always mode
      then (elim size [
        | err e ↦ (e, stage, filter, w1)
        | ok n ↦
            stage_append filter digest mode
              (record stage { prev_file_size = n; can_truncate = true }) w1
      ])
      else stage_append filter digest mode stage w

  unfoldable pub rollback_staged_digest : Filter → Stage → SyncMode → World → Filter × World
  rollback_staged_digest filter stage mode w =
      if is_always mode
      then (
        record filter { log_buf = []; log_dirty = false },
        if stage.can_truncate
            then (log_truncate P filter.log_fd stage.prev_file_size true w).1
            else w,
      )
      else (
        record filter {
          log_buf = if stage.overflow_flush then [] else take stage.prev_buf_len filter.log_buf;
          log_dirty = stage.prev_dirty;
        },
        w,
      )

  unfoldable pub commit_staged_digest : Filter → SyncMode → World → Filter × World
  commit_staged_digest filter periodic w = (record filter { log_dirty = true }, w)
  commit_staged_digest filter always w =
      let (now, w') = now_ms w in (record filter { log_dirty = false; last_log_sync_ms = now }, w')
