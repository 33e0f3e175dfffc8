-- ===== src/Log/Replay.antt =====
-- src/log.c: reading a digest log back, `log_replay_impl` and its two callers. A callback takes the
-- digest, its context and the world, and returns 0 to go on.
pub mod Records
use kbloomd.Common.{
  ℕ, zero, suc, ◌+◌, ◌-◌, ◌*◌, Bool, true, false, not, ◌&&◌, [], ◌++◌, Bytes, Result, ok, err,
  length, ◌==◌, ltb, if◌then◌else◌, einval, eintr, hang,
}
use kbloomd.Platform.{Platform, read_only}
use kbloomd.Wire.{u64}
use kbloomd.Bpf.{digest_size}

-- How the inner loop ends: with a digest, at the end of the file after `off` bytes, or with an error.
pub data RecordRead : Type 0 where
  whole : Bytes → RecordRead
  ended : ℕ → RecordRead
  failed : ℕ → RecordRead

module _ (P : Platform) where
  open P use {World, interrupts, bytes_left, open_file, read, close, truncate}

  -- The branches after one `read`; `retry` and `next` are the loop gone on with.
  unfoldable pub after_read :
      Bytes
      → Result Bytes
      → World
      → RecordRead × World
      → (Bytes → RecordRead × World)
      → RecordRead × World
  after_read got (err e) w retry next = if e == eintr then retry else (failed e, w)
  after_read got (ok bs) w retry next = if length bs == 0 then (ended (length got), w) else next bs

  -- The inner loop; `got` are the `off` bytes of `digest` read so far.
  unfoldable pub read_record : ℕ → ℕ → Bytes → World → RecordRead × World
  unfolding after_read
  read_record zero fd got w = (failed hang, w)
  read_record (suc fuel) fd got w =
      let (r, w1) = read w fd (digest_size - length got) in
      let retry = read_record fuel fd got w1 in
      if not (ltb (length got) digest_size)
      then (whole got, w)
      else after_read got r w1 retry (λ bs. read_record fuel fd (got ++ bs) w1)

  module _ {C : Type 0} (cb : Bytes → C → World → ℕ × C × World) where
    -- The end of the file after `off` bytes of a record.
    unfoldable pub replay_end : Bytes → Bool → ℕ → ℕ → C → World → Result ℕ × C × World
    replay_end path truncate_partial count off ctx w =
        let (rc, w1) = truncate w path (u64 (count * digest_size)) in
        if off == 0
        then (ok count, ctx, w)
        else if not truncate_partial
        then (ok count, ctx, w)
        else if not (rc == 0)
        then (err rc, ctx, w1)
        else (ok count, ctx, w1)

    -- One round of the outer loop, with the inner one done; `again` is the next round.
    unfoldable pub replay_round :
        Bytes
        → ℕ
        → Bool
        → ℕ
        → C
        → RecordRead × World
        → (C → World → Result ℕ × C × World)
        → Result ℕ × C × World
    unfolding replay_end
    replay_round path fd truncate_partial count ctx (failed e, w) again = (err e, ctx, close w fd)
    replay_round path fd truncate_partial count ctx (ended off, w) again =
        replay_end path truncate_partial count off ctx (close w fd)
    replay_round path fd truncate_partial count ctx (whole digest, w) again =
        let (rc, ctx1, w1) = cb digest ctx w in
        if not (rc == 0) then (err einval, ctx1, close w1 fd) else again ctx1 w1

    unfoldable pub replay_loop : ℕ → Bytes → ℕ → Bool → ℕ → C → World → Result ℕ × C × World
    unfolding replay_round
    replay_loop zero path fd truncate_partial count ctx w = (err hang, ctx, w)
    replay_loop (suc fuel) path fd truncate_partial count ctx w =
        replay_round path fd truncate_partial count ctx
          (read_record (suc (digest_size + interrupts w)) fd [] w)
          (λ ctx1 w1. replay_loop fuel path fd truncate_partial (u64 (count + 1)) ctx1 w1)

    -- log_replay_impl; on success the value is `*count_out`.
    unfoldable pub log_replay_impl : Bytes → Bool → C → World → Result ℕ × C × World
    unfolding replay_loop
    log_replay_impl path truncate_partial ctx w =
        let (r, w1) = open_file w path read_only in
        elim r [
          | err e ↦ (err e, ctx, w1)
          | ok fd ↦ replay_loop (suc (bytes_left w1 fd)) path fd truncate_partial 0 ctx w1
        ]

    unfoldable pub log_replay : Bytes → C → World → Result ℕ × C × World
    unfolding log_replay_impl
    log_replay path ctx w = log_replay_impl path true ctx w

    unfoldable pub log_replay_readonly : Bytes → C → World → Result ℕ × C × World
    unfolding log_replay_impl
    log_replay_readonly path ctx w = log_replay_impl path false ctx w
