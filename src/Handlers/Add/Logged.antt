-- ===== src/Handlers/Add/Logged.antt =====
-- The digest log along an insertion of src/daemon.c: what the file holds and then the buffer.
use kbloomd.Common.{
  ℕ, ◌+◌, ◌≡◌, inl, inr, refl, arith, Bool, true, some, ◌++◌, Bytes, length, ltb, ap, Result-cases,
  append-nil, take-length-append,
}
use kbloomd.Platform.{Platform}
use kbloomd.Platform.Laws.{IoLaws, StreamLaws, FileLaws}
use kbloomd.Bpf.{bpf_add_digest, digest_size}
use kbloomd.FilterSet.{Filter}
use kbloomd.Log.{log_buffer_append, log_buffer_flush, log_buffer_cap}
use kbloomd.Io.{write_all}
use kbloomd.Log.Laws.{written, history-log_buffer_append, sent-log_buffer_flush}
use kbloomd.FilterState.{
  SyncMode, periodic, always, is_always, Stage, stage_append, stage_digest_for_add,
  rollback_staged_digest, commit_staged_digest, raw_fd, now_ms,
}
use kbloomd.Handlers.Add.{added, add_staged}

module _ (P : Platform) (io : IoLaws P) (sent : P.World → ℕ → Bytes) (stream : StreamLaws P sent)
    (file : FileLaws P sent) (fd : ℕ) where
  open P use {World}

  -- The digests of a filter in the order in which a replay would read them.
  abbrev pub logged : Filter → World → Bytes
  logged f w = sent w fd ++ f.log_buf

  -- A filter with its log open.
  abbrev pub opened : Filter → Filter
  opened f = record f { log_fd = some fd }

  log_buffer_append_keeps :
      (buf digest : Bytes) (w : World)
      → (log_buffer_append P (some fd) buf digest w).0 ≡ 0
      → sent (log_buffer_append P (some fd) buf digest w).2 fd
          ++ (log_buffer_append P (some fd) buf digest w).1
        ≡ (sent w fd ++ buf) ++ digest
  log_buffer_append_keeps buf digest w e =
      history-log_buffer_append P io sent stream fd buf digest w e

  -- A staged digest is the last one of the log.
  stage_append-logged :
      (f : Filter) (digest : Bytes) (mode : SyncMode) (stage : Stage) (w : World)
      → (stage_append P (opened f) digest mode stage w).0 ≡ 0
      → logged
          (stage_append P (opened f) digest mode stage w).2
          (stage_append P (opened f) digest mode stage w).3
        ≡ logged f w ++ digest
  unfolding stage_append is_always
  stage_append-logged f digest periodic stage w e =
      ground (arith, log_buffer_append_keeps f.log_buf digest w)
  stage_append-logged f digest always stage w e =
      let (rc, buf, w1) = log_buffer_append P (some fd) f.log_buf digest w in
      ground (
        arith,
        log_buffer_append_keeps f.log_buf digest w,
        sent-log_buffer_flush P io sent stream file fd buf true w1,
        append-nil (sent (log_buffer_flush P (some fd) buf true w1).2 fd),
      )

  stage_digest_for_add-logged :
      (f : Filter) (digest : Bytes) (mode : SyncMode) (w : World)
      → (stage_digest_for_add P (opened f) digest mode w).0 ≡ 0
      → logged
          (stage_digest_for_add P (opened f) digest mode w).2
          (stage_digest_for_add P (opened f) digest mode w).3
        ≡ logged f w ++ digest
  unfolding stage_digest_for_add is_always raw_fd
  stage_digest_for_add-logged f digest periodic w e = stage_append-logged f digest periodic _ w e
  stage_digest_for_add-logged f digest always w e =
      let w1 = (P.lseek_end w fd).1 in
      elim (Result-cases (P.lseek_end w fd).0) [
        | inl (n, p) ↦ ground (
          arith,
          p,
          stage_append-logged f digest always
              (record {
                prev_buf_len = length f.log_buf;
                prev_file_size = n;
                prev_dirty = f.log_dirty;
                can_truncate = true;
                overflow_flush = ltb log_buffer_cap (length f.log_buf + digest_size);
              })
              w1,
          file.lseek_keeps w fd,
        )
        | inr (k, p) ↦ absurd (file.lseek_error w fd k p (rw p at e))
      ]

  bpf_add_digest-keeps :
      (map : ℕ) (digest : Bytes) (w : World) → sent (bpf_add_digest P map digest w).1 fd ≡ sent w fd
  unfolding bpf_add_digest
  bpf_add_digest-keeps map digest w = ground (arith, file.update_keeps w map fd digest)

  commit_staged_digest-logged :
      (f : Filter) (mode : SyncMode) (w : World)
      → logged (commit_staged_digest P f mode w).0 (commit_staged_digest P f mode w).1 ≡ logged f w
  unfolding commit_staged_digest now_ms
  commit_staged_digest-logged f periodic w = refl
  commit_staged_digest-logged f always w = ap (λ t. t ++ f.log_buf) (file.clock_keeps w fd)

  -- With write, fsync, lseek and the clock as documented, when an insertion into a filter with an
  -- open log is acknowledged, in either sync mode, the digests that the file and the buffer hold
  -- have grown by exactly that digest, at the end.
  pub add_staged-logged :
      (f : Filter) (digest : Bytes) (mode : SyncMode) (restore : Bool) (w : World)
      → (add_staged P (opened f) digest mode restore w).0 ≡ added
      → logged
          (add_staged P (opened f) digest mode restore w).1
          (add_staged P (opened f) digest mode restore w).2
        ≡ logged f w ++ digest
  unfolding add_staged
  add_staged-logged f digest mode restore w e =
      let (rc, stage, staged, w1) = stage_digest_for_add P (opened f) digest mode w in
      let (r, w2) = bpf_add_digest P (raw_fd staged.map_fd) digest w1 in
      ground (
        arith,
        stage_digest_for_add-logged f digest mode w,
        bpf_add_digest-keeps (raw_fd staged.map_fd) digest w1,
        commit_staged_digest-logged staged mode w2,
      )

  -- With the calls as documented, in periodic mode, when a digest was staged for a filter with an
  -- open log and the map was then called, rolling the digest back leaves the file and the buffer
  -- together with the digests that they held before, also when staging had written the buffer out.
  pub rollback_staged_digest-logged :
      (f : Filter) (digest : Bytes) (w : World)
      → (stage_digest_for_add P (opened f) digest periodic w).0 ≡ 0
      → let (rc, stage, staged, w1) = stage_digest_for_add P (opened f) digest periodic w in
        let w2 = (bpf_add_digest P (raw_fd staged.map_fd) digest w1).1 in
        logged
          (rollback_staged_digest P staged stage periodic w2).0
          (rollback_staged_digest P staged stage periodic w2).1
        ≡ logged f w
  unfolding stage_digest_for_add stage_append rollback_staged_digest is_always log_buffer_append
  rollback_staged_digest-logged f digest w e = ground (
    arith,
    bpf_add_digest-keeps (raw_fd f.map_fd) digest w,
    bpf_add_digest-keeps (raw_fd f.map_fd) digest (write_all P fd f.log_buf w).1,
    written P io sent stream fd f.log_buf w,
    append-nil (sent w fd ++ f.log_buf),
    append-nil
        (sent (bpf_add_digest P (raw_fd f.map_fd) digest (write_all P fd f.log_buf w).1).1 fd),
    take-length-append f.log_buf digest,
  )
