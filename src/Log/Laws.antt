-- ===== src/Log/Laws.antt =====
-- The digest log of src/log.c as one sequence: what the file holds, then the live bytes of the
-- write buffer.
use kbloomd.Common.{
  ℕ, ◌%◌, ◌≤◌, ◌≡◌, ◌≢◌, ◌⊎◌, inl, inr, refl, arith, [], ◌∷◌, ◌++◌, Bytes, length, append-nil,
  length-append, append_assoc, sym, ap, ◌∙◌, true, false, Bool, some, take, take_all, Bool-cases,
  ◌==◌,
}
use kbloomd.Platform.{Platform}
use kbloomd.Platform.Laws.{IoLaws, StreamLaws, FileLaws}
use kbloomd.Io.{write_all}
use kbloomd.Io.Writes.{write_all-Wrote}
use kbloomd.Bpf.{digest_size}
use kbloomd.Log.{log_buffer_cap, log_buffer_append, log_buffer_flush, flush_sync, log_sync}

-- The buffer holds whole digests and no more than its room.
pub record IsLogBuffer (buf : Bytes) : Type 0 where
  pub within : length buf ≤ log_buffer_cap
  pub whole : length buf % digest_size ≡ 0

module _ (P : Platform) where
  open P use {World}

  -- On every branch, appending a 16-byte digest keeps the write buffer within its 1024 bytes and
  -- made of whole digests.
  pub log_buffer_append-IsLogBuffer :
      (fd : ℕ) (buf digest : Bytes) (w : World)
      → length digest ≡ digest_size
      → IsLogBuffer buf
      → IsLogBuffer (log_buffer_append P (some fd) buf digest w).1
  unfolding log_buffer_append
  log_buffer_append-IsLogBuffer fd buf digest w d b = record {
    within = ground (arith, length-append buf digest, b.within);
    whole = ground (arith, length-append buf digest, b.whole);
  }

  -- The next flush, with the buffer and the world that one has left.
  abbrev pub again : ℕ → Bool → ℕ × Bytes × World → ℕ × Bytes × World
  again fd sync (rc, buf, w) = log_buffer_flush P (some fd) buf sync w

  module _ (io : IoLaws P) (sent : World → ℕ → Bytes) (stream : StreamLaws P sent) where
    -- A file and a buffer, in the order in which a replay will read them.
    abbrev pub history : World → ℕ → Bytes → Bytes
    history w fd buf = sent w fd ++ buf

    pub written :
        (fd : ℕ) (buf : Bytes) (w : World)
        → (write_all P fd buf w).0 ≡ 0
        → sent (write_all P fd buf w).1 fd ≡ sent w fd ++ buf
    written fd buf w e =
        let h = write_all-Wrote P io sent stream fd buf w in
        h.sent_eq
        ∙ ap (λ n. sent w fd ++ take n buf) (all_written h.stopped_or_all)
        ∙ ap (λ t. sent w fd ++ t) (take_all (length buf) buf (omega arith))
      where
        all_written : {n : ℕ} → ((write_all P fd buf w).0 ≢ 0) ⊎ (n ≡ length buf) → n ≡ length buf
        all_written (inl ne) = absurd (ne e)
        all_written (inr all) = all

    -- With write as documented, when bloomd_log_buffer_append returns 0 the file followed by the
    -- buffer has grown by exactly the digest, whether or not the buffer was written out first.
    pub history-log_buffer_append :
        (fd : ℕ) (buf digest : Bytes) (w : World)
        → (log_buffer_append P (some fd) buf digest w).0 ≡ 0
        → history
            (log_buffer_append P (some fd) buf digest w).2
            fd
            (log_buffer_append P (some fd) buf digest w).1
          ≡ history w fd buf ++ digest
    unfolding log_buffer_append
    history-log_buffer_append fd buf digest w e =
        ground (arith, written fd buf w, append_assoc (sent w fd) buf digest)

    -- A successful flush with `sync`: before the sync, all of the buffer had gone out.
    pub log_buffer_flush_synced :
        (fd : ℕ) (buf : Bytes) (w : World)
        → (log_buffer_flush P (some fd) buf true w).0 ≡ 0
        → (w1 : World) × (sent w1 fd ≡ sent w fd ++ buf)
          × ((P.fsync w1 fd).0 ≡ 0)
          × ((log_buffer_flush P (some fd) buf true w).1 ≡ [])
          × ((log_buffer_flush P (some fd) buf true w).2 ≡ (P.fsync w1 fd).1)
    unfolding log_buffer_flush flush_sync log_sync
    log_buffer_flush_synced fd [] w e = (w, sym (append-nil (sent w fd)), e, refl, refl)
    log_buffer_flush_synced fd (b ∷ bs) w e =
        elim (Bool-cases ((write_all P fd (b ∷ bs) w).0 == 0)) [
          | inl all ↦
              let w1 = (write_all P fd (b ∷ bs) w).1 in
              (
                w1,
                written fd (b ∷ bs) w (ground (arith, all)),
                ground (arith, all, e),
                ground (arith, all, e),
                ground (arith, all, e),
              )
          | inr not_all ↦ absurd (ground (arith, not_all, e))
        ]

    module _ (file : FileLaws P sent) where
      flush_sync-keeps :
          (fd : ℕ) (sync : Bool) (buf : Bytes) (w : World)
          → (sent (flush_sync P (some fd) sync buf w).2 fd ≡ sent w fd)
            × ((flush_sync P (some fd) sync buf w).1 ≡ buf)
      unfolding flush_sync
      flush_sync-keeps fd true buf w = (file.fsync_keeps w fd, refl)
      flush_sync-keeps fd false buf w = (refl, refl)

      -- With write and fsync as documented, when bloomd_log_buffer_flush returns 0 the buffer is
      -- empty and its bytes stand at the end of the file.
      pub sent-log_buffer_flush :
          (fd : ℕ) (buf : Bytes) (sync : Bool) (w : World)
          → (log_buffer_flush P (some fd) buf sync w).0 ≡ 0
          → ((log_buffer_flush P (some fd) buf sync w).1 ≡ [])
            × (sent (log_buffer_flush P (some fd) buf sync w).2 fd ≡ sent w fd ++ buf)
      unfolding log_buffer_flush
      sent-log_buffer_flush fd [] sync w e =
          let k = flush_sync-keeps fd sync [] w in (k.1, k.0 ∙ sym (append-nil (sent w fd)))
      sent-log_buffer_flush fd (b ∷ bs) sync w e =
          ground (
            arith,
            written fd (b ∷ bs) w,
            flush_sync-keeps fd sync [] (write_all P fd (b ∷ bs) w).1,
          )

      flush_failed :
          (fd : ℕ) (buf : Bytes) (sync : Bool) (w : World)
          → (write_all P fd buf w).0 ≢ 0
          → ((log_buffer_flush P (some fd) buf sync w).1 ≡ buf)
            × ((log_buffer_flush P (some fd) buf sync w).2 ≡ (write_all P fd buf w).1)
      unfolding log_buffer_flush
      flush_failed fd [] sync w ne = absurd (ne refl)
      flush_failed fd (b ∷ bs) sync w ne = ground arith

      -- With write and fsync as documented, when writing the buffer fails in a flush, and the next
      -- flush, of the buffer that the first one left, succeeds, the file ends with some prefix of
      -- the first buffer, possibly empty, followed by the whole of it.
      pub flush_after_torn_write :
          (fd : ℕ) (buf : Bytes) (sync : Bool) (w : World)
          → (write_all P fd buf w).0 ≢ 0
          → (again fd sync (log_buffer_flush P (some fd) buf sync w)).0 ≡ 0
          → (m : ℕ) × (m ≤ length buf)
            × (sent (again fd sync (log_buffer_flush P (some fd) buf sync w)).2 fd
                ≡ (sent w fd ++ take m buf) ++ buf)
      flush_after_torn_write fd buf sync w ne e =
          let h = write_all-Wrote P io sent stream fd buf w in
          let kept = flush_failed fd buf sync w ne in
          let w1 = (log_buffer_flush P (some fd) buf sync w).2 in
          let buf1 = (log_buffer_flush P (some fd) buf sync w).1 in
          (
            h.count,
            h.count_le,
            (sent-log_buffer_flush fd buf1 sync w1 e).1
                ∙ ap (λ t. sent w1 fd ++ t) kept.0
                ∙ ap (λ v. sent v fd ++ buf) kept.1
                ∙ ap (λ t. t ++ buf) h.sent_eq,
          )
