-- ===== src/Handlers/Add/Laws.antt =====
-- What an insertion of src/daemon.c does to its filter.
use kbloomd.Common.{◌≡◌, ◌⊎◌, inl, inr, arith, Bool, true, false, Bytes}
use kbloomd.Platform.{Platform}
use kbloomd.Frame.Status
use kbloomd.Bpf.{Outcome-cases, done, bpf_add_digest}
use kbloomd.FilterSet.{Filter}
use kbloomd.FilterState.{
  SyncMode, is_always, ensure_filter_durable, stage_digest_for_add, rollback_staged_digest, raw_fd,
}
use kbloomd.FilterState.Keeps.{
  SameFilter, update_filter_meta_state-SameFilter, ensure_filter_durable-SameFilter,
  mark_filter_log_dirty-SameFilter, stage_digest_for_add-SameFilter,
  rollback_staged_digest-SameFilter, commit_staged_digest-SameFilter, ensure_filter_durable_done,
  mark_filter_log_dirty_done, stage_digest_for_add_meta, commit_staged_digest_meta,
}
use kbloomd.Handlers.Add.{
  Refusal, added, refused, prepare_add, restore_clean, add_staged, add_to_filter,
}

module _ (P : Platform) where
  open P use {World}

  pub prepare_add-SameFilter :
      (f : Filter) (mode : SyncMode) (w : World) → SameFilter f (prepare_add P f mode w).1
  unfolding prepare_add
  prepare_add-SameFilter f mode w = ground (
    arith,
    ensure_filter_durable-SameFilter P f w,
    mark_filter_log_dirty-SameFilter P (ensure_filter_durable P f w).1
        (ensure_filter_durable P f w).2,
  )

  restore_clean-SameFilter :
      (b : Bool) (f : Filter) (w : World) → SameFilter f (restore_clean P b f w).0
  unfolding restore_clean
  restore_clean-SameFilter b f w =
      ground (arith, update_filter_meta_state-SameFilter P f true true w)

  -- A prepared filter has data, and in periodic mode its metadata says that the log is dirty.
  pub prepare_add_done :
      (f : Filter) (mode : SyncMode) (w : World) (b : Bool)
      → (prepare_add P f mode w).0 ≡ done b
      → ((prepare_add P f mode w).1.meta.has_data ≡ true)
        × ((is_always mode ≡ true) ⊎ ((prepare_add P f mode w).1.meta.log_clean ≡ false))
  unfolding prepare_add
  prepare_add_done f mode w b e = ground (
    arith,
    ensure_filter_durable_done P f w tt,
    mark_filter_log_dirty_done P (ensure_filter_durable P f w).1 (ensure_filter_durable P f w).2 b,
  )

  pub add_staged-SameFilter :
      (f : Filter) (digest : Bytes) (mode : SyncMode) (b : Bool) (w : World)
      → SameFilter f (add_staged P f digest mode b w).1
  unfolding add_staged
  add_staged-SameFilter f digest mode b w =
      let (rc, stage, staged, w1) = stage_digest_for_add P f digest mode w in
      let w2 = (bpf_add_digest P (raw_fd staged.map_fd) digest w1).1 in
      let (back, w3) = rollback_staged_digest P staged stage mode w2 in
      ground (
        arith,
        stage_digest_for_add-SameFilter P f digest mode w,
        restore_clean-SameFilter b staged w1,
        rollback_staged_digest-SameFilter P staged stage mode w2,
        restore_clean-SameFilter b back w3,
        commit_staged_digest-SameFilter P staged mode w2,
      )

  -- An ADD, acknowledged or not, changes neither the name of its filter nor its pin path nor its
  -- map.
  pub add_to_filter-SameFilter :
      (f : Filter) (digest : Bytes) (mode : SyncMode) (w : World)
      → SameFilter f (add_to_filter P f digest mode w).1
  unfolding add_to_filter
  add_to_filter-SameFilter f digest mode w = elim (Outcome-cases (prepare_add P f mode w).0) [
    | inl (b, e) ↦ ground (
      arith,
      prepare_add-SameFilter f mode w,
      add_staged-SameFilter (prepare_add P f mode w).1 digest mode b (prepare_add P f mode w).2,
    )
    | inr (k, m, e) ↦ ground (arith, prepare_add-SameFilter f mode w)
  ]

  -- A refusal after the preparation comes from the log or from the map.
  pub add_staged_refused :
      (f : Filter) (digest : Bytes) (mode : SyncMode) (b : Bool) (w : World) (r : Refusal)
      → (add_staged P f digest mode b w).0 ≡ refused r
      → (r.status ≡ Status.io) ⊎ (r.status ≡ Status.bpf)
  unfolding add_staged
  add_staged_refused f digest mode b w r e = ground arith

  add_staged_meta :
      (f : Filter) (digest : Bytes) (mode : SyncMode) (b : Bool) (w : World)
      → (add_staged P f digest mode b w).0 ≡ added
      → (add_staged P f digest mode b w).1.meta ≡ f.meta
  unfolding add_staged
  add_staged_meta f digest mode b w e =
      let (rc, stage, staged, w1) = stage_digest_for_add P f digest mode w in
      let w2 = (bpf_add_digest P (raw_fd staged.map_fd) digest w1).1 in
      ground (
        arith,
        stage_digest_for_add_meta P f digest mode w,
        commit_staged_digest_meta P staged mode w2,
      )

  -- After an ADD that is acknowledged the filter is recorded as having data and, unless every ADD
  -- is synced, as having a log that is not clean.
  pub add_to_filter_added :
      (f : Filter) (digest : Bytes) (mode : SyncMode) (w : World)
      → (add_to_filter P f digest mode w).0 ≡ added
      → ((add_to_filter P f digest mode w).1.meta.has_data ≡ true)
        × ((is_always mode ≡ true) ⊎ ((add_to_filter P f digest mode w).1.meta.log_clean ≡ false))
  unfolding add_to_filter
  add_to_filter_added f digest mode w e = elim (Outcome-cases (prepare_add P f mode w).0) [
    | inl (b, p) ↦ ground (
      arith,
      prepare_add_done f mode w b p,
      add_staged_meta (prepare_add P f mode w).1 digest mode b (prepare_add P f mode w).2,
    )
    | inr (k, m, p) ↦ ground arith
  ]
