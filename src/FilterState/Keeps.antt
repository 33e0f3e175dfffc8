-- ===== src/FilterState/Keeps.antt =====
-- What making a filter durable and logging digests leave alone, and what they achieve: src/daemon.c.
use kbloomd.Common.{
  ℕ, ◌≡◌, inl, inr, refl, arith, Bool, true, false, Option, none, some, Bytes, Result, ok, err, ◌∙◌,
  Bool-cases, Result-cases,
}
use kbloomd.Platform.{Platform}
use kbloomd.Bpf.{done, bpf_pin_map}
use kbloomd.FilterSet.{Filter}
use kbloomd.FilterState.{
  SyncMode, periodic, always, is_always, Stage, open_filter_log, filter_log_opened,
  update_filter_meta_state, ensure_log_open, durable_meta, durable_log, durable_pin,
  ensure_filter_durable, mark_filter_log_dirty, stage_append, stage_digest_for_add,
  rollback_staged_digest, commit_staged_digest, raw_fd,
}

-- The fields of the metadata that name the filter and its map, which no insertion changes.
pub record SameFilter (f f' : Filter) : Type 0 where
  pub name : f'.meta.name ≡ f.meta.name
  pub pin_path : f'.meta.pin_path ≡ f.meta.pin_path
  pub map_fd : f'.map_fd ≡ f.map_fd

pub SameFilter-refl : (f : Filter) → SameFilter f f
SameFilter-refl f = record { name = refl; pin_path = refl; map_fd = refl }

pub SameFilter-trans : (f g h : Filter) → SameFilter f g → SameFilter g h → SameFilter f h
SameFilter-trans f g h p q = record {
  name = q.name ∙ p.name;
  pin_path = q.pin_path ∙ p.pin_path;
  map_fd = q.map_fd ∙ p.map_fd;
}

module _ (P : Platform) where
  open P use {World}

  pub update_filter_meta_state-SameFilter :
      (f : Filter) (d c : Bool) (w : World) → SameFilter f (update_filter_meta_state P f d c w).1
  unfolding update_filter_meta_state
  update_filter_meta_state-SameFilter f d c w = ground arith

  filter_log_opened-SameFilter :
      (f : Filter) (r : Result ℕ) (w : World) → SameFilter f (filter_log_opened P f r w).1
  unfolding filter_log_opened
  filter_log_opened-SameFilter f (ok fd) w = ground arith
  filter_log_opened-SameFilter f (err e) w = ground arith

  open_filter_log-SameFilter :
      (f : Filter) (t : Bool) (w : World) → SameFilter f (open_filter_log P f t w).1
  unfolding open_filter_log
  open_filter_log-SameFilter f t w = filter_log_opened-SameFilter f _ _

  durable_meta-SameFilter : (f : Filter) (w : World) → SameFilter f (durable_meta P f w).1
  unfolding durable_meta
  durable_meta-SameFilter f w = ground (arith, update_filter_meta_state-SameFilter f true true w)

  durable_log-SameFilter : (f : Filter) (w : World) → SameFilter f (durable_log P f w).1
  unfolding durable_log
  durable_log-SameFilter f w = ground (
    arith,
    open_filter_log-SameFilter f true w,
    durable_meta-SameFilter (open_filter_log P f true w).1 (open_filter_log P f true w).2,
  )

  durable_pin-SameFilter : (f : Filter) (w : World) → SameFilter f (durable_pin P f w).1
  unfolding durable_pin
  durable_pin-SameFilter f w =
      ground (arith, durable_log-SameFilter f (bpf_pin_map P (raw_fd f.map_fd) f.meta.pin_path w).1)

  ensure_log_open-SameFilter :
      (f : Filter) (o : Option ℕ) (w : World) → SameFilter f (ensure_log_open P f o w).1
  unfolding ensure_log_open
  ensure_log_open-SameFilter f none w = open_filter_log-SameFilter f false w
  ensure_log_open-SameFilter f (some fd) w = SameFilter-refl f

  pub ensure_filter_durable-SameFilter :
      (f : Filter) (w : World) → SameFilter f (ensure_filter_durable P f w).1
  unfolding ensure_filter_durable
  ensure_filter_durable-SameFilter f w =
      ground (arith, ensure_log_open-SameFilter f f.log_fd w, durable_pin-SameFilter f w)

  pub mark_filter_log_dirty-SameFilter :
      (f : Filter) (w : World) → SameFilter f (mark_filter_log_dirty P f w).1
  unfolding mark_filter_log_dirty
  mark_filter_log_dirty-SameFilter f w =
      ground (arith, update_filter_meta_state-SameFilter f true false w)

  stage_append-SameFilter :
      (f : Filter) (digest : Bytes) (mode : SyncMode) (stage : Stage) (w : World)
      → SameFilter f (stage_append P f digest mode stage w).2
  unfolding stage_append
  stage_append-SameFilter f digest mode stage w = ground arith

  pub stage_digest_for_add-SameFilter :
      (f : Filter) (digest : Bytes) (mode : SyncMode) (w : World)
      → SameFilter f (stage_digest_for_add P f digest mode w).2
  unfolding stage_digest_for_add is_always
  stage_digest_for_add-SameFilter f digest periodic w =
      stage_append-SameFilter f digest periodic _ w
  stage_digest_for_add-SameFilter f digest always w =
      elim (Result-cases (P.lseek_end w (raw_fd f.log_fd)).0) [
        | inl (n, e) ↦ rw e (stage_append-SameFilter f digest always _ _)
        | inr (k, e) ↦ rw e (SameFilter-refl f)
      ]

  pub rollback_staged_digest-SameFilter :
      (f : Filter) (stage : Stage) (mode : SyncMode) (w : World)
      → SameFilter f (rollback_staged_digest P f stage mode w).0
  unfolding rollback_staged_digest
  rollback_staged_digest-SameFilter f stage mode w = ground arith

  pub commit_staged_digest-SameFilter :
      (f : Filter) (mode : SyncMode) (w : World) → SameFilter f (commit_staged_digest P f mode w).0
  unfolding commit_staged_digest
  commit_staged_digest-SameFilter f periodic w = record {
    name = refl;
    pin_path = refl;
    map_fd = refl;
  }
  commit_staged_digest-SameFilter f always w = record {
    name = refl;
    pin_path = refl;
    map_fd = refl;
  }

  durable_meta_done :
      (f : Filter) (w : World) (t : Unit {0})
      → (durable_meta P f w).0 ≡ done t
      → (durable_meta P f w).1.meta.has_data ≡ true
  unfolding durable_meta update_filter_meta_state
  durable_meta_done f w t e = ground arith

  durable_log_done :
      (f : Filter) (w : World) (t : Unit {0})
      → (durable_log P f w).0 ≡ done t
      → (durable_log P f w).1.meta.has_data ≡ true
  unfolding durable_log
  durable_log_done f w t e =
      ground
        (arith, durable_meta_done (open_filter_log P f true w).1 (open_filter_log P f true w).2 t)

  durable_pin_done :
      (f : Filter) (w : World) (t : Unit {0})
      → (durable_pin P f w).0 ≡ done t
      → (durable_pin P f w).1.meta.has_data ≡ true
  unfolding durable_pin
  durable_pin_done f w t e =
      ground (arith, durable_log_done f (bpf_pin_map P (raw_fd f.map_fd) f.meta.pin_path w).1 t)

  ensure_log_open_meta :
      (f : Filter) (o : Option ℕ) (w : World) → (ensure_log_open P f o w).1.meta ≡ f.meta
  unfolding ensure_log_open open_filter_log
  ensure_log_open_meta f none w = opened_meta f _ _
    where
      opened_meta :
          (f : Filter) (r : Result ℕ) (w : World) → (filter_log_opened P f r w).1.meta ≡ f.meta
      opened_meta f (ok fd) w = unfold filter_log_opened in refl
      opened_meta f (err e) w = unfold filter_log_opened in refl
  ensure_log_open_meta f (some fd) w = refl

  pub ensure_filter_durable_done :
      (f : Filter) (w : World) (t : Unit {0})
      → (ensure_filter_durable P f w).0 ≡ done t
      → (ensure_filter_durable P f w).1.meta.has_data ≡ true
  unfolding ensure_filter_durable
  ensure_filter_durable_done f w t e = elim (Bool-cases f.meta.has_data) [
    | inl has ↦ ground (arith, ensure_log_open_meta f f.log_fd w)
    | inr no_data ↦ ground (arith, durable_pin_done f w t)
  ]

  pub mark_filter_log_dirty_done :
      (f : Filter) (w : World) (b : Bool)
      → f.meta.has_data ≡ true
      → (mark_filter_log_dirty P f w).0 ≡ done b
      → ((mark_filter_log_dirty P f w).1.meta.has_data ≡ true)
        × ((mark_filter_log_dirty P f w).1.meta.log_clean ≡ false)
  unfolding mark_filter_log_dirty update_filter_meta_state
  mark_filter_log_dirty_done f w b has e = ground arith

  stage_append_meta :
      (f : Filter) (digest : Bytes) (mode : SyncMode) (stage : Stage) (w : World)
      → (stage_append P f digest mode stage w).2.meta ≡ f.meta
  unfolding stage_append
  stage_append_meta f digest mode stage w = ground arith

  pub stage_digest_for_add_meta :
      (f : Filter) (digest : Bytes) (mode : SyncMode) (w : World)
      → (stage_digest_for_add P f digest mode w).2.meta ≡ f.meta
  unfolding stage_digest_for_add is_always
  stage_digest_for_add_meta f digest periodic w = stage_append_meta f digest periodic _ w
  stage_digest_for_add_meta f digest always w =
      elim (Result-cases (P.lseek_end w (raw_fd f.log_fd)).0) [
        | inl (n, e) ↦ rw e (stage_append_meta f digest always _ _)
        | inr (k, e) ↦ rw e
      ]

  pub commit_staged_digest_meta :
      (f : Filter) (mode : SyncMode) (w : World) → (commit_staged_digest P f mode w).0.meta ≡ f.meta
  unfolding commit_staged_digest
  commit_staged_digest_meta f periodic w = refl
  commit_staged_digest_meta f always w = refl
