-- ===== src/Handlers/Add.antt =====
-- `bloomd_handle_add_check` of src/daemon.c, and the steps of an insertion that it shares with
-- `bloomd_handle_batch`.
pub mod Laws
pub mod Logged
pub mod Preserves
use kbloomd.Common.{
  ℕ, zero, suc, ◌+◌, ◌-◌, Bool, true, false, not, ◌&&◌, ◌||◌, Option, none, some, List, [], ◌∷◌,
  ◌++◌, Bytes, text, Result, ok, err, length, take, drop, get_elem?, ◌==◌, ltb, if◌then◌else◌,
  einval,
}
use kbloomd.Platform.{Platform}
use kbloomd.Hash.{digest_payload}
use kbloomd.Name.{name_view_is_valid}
use kbloomd.Frame.Status
use kbloomd.Frame.ErrorCode
use kbloomd.Frame.{Request}
use kbloomd.Bpf.{Outcome, done, fail, bpf_add_digest, bpf_check_digest}
use kbloomd.FilterSet.{Meta, Filter, FilterSet, filter_set_find_n}
use kbloomd.FilterState.{
  SyncMode, Stage, is_always, raw_fd, ensure_filter_durable, mark_filter_log_dirty,
  stage_digest_for_add, rollback_staged_digest, commit_staged_digest, update_filter_meta_state,
}
use kbloomd.Daemon.{State, next_count, reply_error, reply_append, put_filter}
use kbloomd.Handlers.{PayloadRequest, payload_request}

-- The arguments of a `bloomd_response_error`.
pub record Refusal : Type 0 where
  pub status : ℕ
  pub code : ℕ
  pub message : Bytes

pub data Added : Type 0 where
  added : Added
  refused : Refusal → Added

-- The name and the payload of an ADD or CHECK body.
pub record NamePayload : Type 0 where
  pub name : Bytes
  pub name_len : ℕ
  pub payload : Bytes

-- bloomd_parse_name_payload
unfoldable pub parse_name_payload : Request → Result NamePayload
unfolding payload_request
parse_name_payload req =
    let hdr = payload_request req.body in
    let name = drop 8 req.body in
    if ltb req.header.body_len 8
    then err einval
    else if not (8 + hdr.name_len + hdr.payload_len == req.header.body_len)
    then err einval
    else if not (hdr.reserved0 == 0)
    then err einval
    else if not (name_view_is_valid name hdr.name_len == 0)
    then err einval
    else ok (record {
      name = name;
      name_len = hdr.name_len;
      payload = take hdr.payload_len (drop (8 + hdr.name_len) req.body);
    })

module _ (P : Platform) where
  open P use {World}

  -- What precedes the first insertion: the filter is durable, and in periodic mode its log is
  -- marked dirty. The Boolean is `meta_marked_dirty`, the message `errbuf`.
  unfoldable pub prepare_add : Filter → SyncMode → World → Outcome Bool × Filter × World
  prepare_add filter mode w =
      let (r, durable, w1) = ensure_filter_durable P filter w in
      let marked = mark_filter_log_dirty P durable w1 in
      elim r [
        | fail rc message ↦ (fail rc message, durable, w1)
        | done t ↦ if is_always mode then (done false, durable, w1) else marked
      ]

  -- After a failure: mark the log clean again, if this request was what marked it dirty.
  unfoldable pub restore_clean : Bool → Filter → World → Filter × World
  restore_clean restore filter w =
      let (r, filter', w') = update_filter_meta_state P filter true true w in
      if restore then (filter', w') else (filter, w)

  -- Stage a digest in the log, insert it into the map, and commit, or roll back.
  unfoldable pub add_staged : Filter → Bytes → SyncMode → Bool → World → Added × Filter × World
  add_staged filter digest mode restore w =
      let (rc, stage, staged, w1) = stage_digest_for_add P filter digest mode w in
      let not_staged = restore_clean restore staged w1 in
      let (r, w2) = bpf_add_digest P (raw_fd staged.map_fd) digest w1 in
      let (back, w3) = rollback_staged_digest P staged stage mode w2 in
      let not_added = restore_clean restore back w3 in
      let committed = commit_staged_digest P staged mode w2 in
      if not (rc == 0)
      then (
        refused (record {
          status = Status.io;
          code = ErrorCode.metadata;
          message =
              if is_always mode
              then text "failed to sync digest log"
              else text "failed to append digest log";
        }),
        not_staged.0,
        not_staged.1,
      )
      else (elim r [
        | fail rc message ↦ (
          refused (record { status = Status.bpf; code = ErrorCode.none; message = message }),
          not_added.0,
          not_added.1,
        )
        | done t ↦ (added, committed.0, committed.1)
      ])

  -- An ADD on its filter.
  unfoldable pub add_to_filter : Filter → Bytes → SyncMode → World → Added × Filter × World
  add_to_filter filter digest mode w =
      let (r, ready, w1) = prepare_add filter mode w in
      elim r [
        | fail rc message ↦ (
          refused (record { status = Status.io; code = ErrorCode.metadata; message = message }),
          ready,
          w1,
        )
        | done marked ↦
            let (a, filter', w2) = add_staged ready digest mode marked w1 in
            (elim a [
              | refused r ↦ (refused r, filter', w2)
              | added ↦ (added, record filter' { add_calls = next_count filter'.add_calls }, w2)
            ])
      ]

  unfoldable pub send_bool : Bool → State P → ℕ × State P
  send_bool value s = reply_append P ((if value then 1 else 0) ∷ []) s

  unfoldable pub refuse : Refusal → State P → ℕ × State P
  refuse r s = reply_error P r.status r.code r.message s

  unfoldable pub add_found : ℕ → Filter → Bytes → SyncMode → State P → ℕ × State P
  add_found i filter digest mode s =
      let (a, filter', w) = add_to_filter filter digest mode s.world in
      let s1 = put_filter P i filter' (record s { world = w }) in
      elim a [ refused r ↦ refuse r s1 | added ↦ send_bool true s1 ]

  unfoldable pub check_found : ℕ → Filter → Bytes → State P → ℕ × State P
  check_found i filter digest s =
      let (r, w) = bpf_check_digest P (raw_fd filter.map_fd) digest s.world in
      let s1 : State P = record s { world = w } in
      elim r [
        | fail rc message ↦ reply_error P Status.bpf ErrorCode.none message s1
        | done present ↦
            send_bool present
              (put_filter P i (record filter { check_calls = next_count filter.check_calls }) s1)
      ]

  -- The filter that a find returned, if any: the cache may have moved.
  unfoldable pub with_found :
      State P → Bytes → ℕ → (ℕ → Filter → State P → ℕ × State P) → ℕ × State P
  with_found s name name_len use_it =
      let (found, filters) = filter_set_find_n s.filters name name_len in
      let s1 : State P = record s { filters = filters } in
      let missing = reply_error P Status.not_found ErrorCode.none (text "filter not found") s1 in
      elim found [
        | none ↦ missing
        | some i ↦ (elim (get_elem? filters.items i) [ none ↦ missing | some f ↦ use_it i f s1 ])
      ]

  unfoldable pub handle_add_check : Request → Bool → SyncMode → State P → ℕ × State P
  handle_add_check req is_add mode s = elim (parse_name_payload req) [
    | err e ↦ reply_error P Status.bad_request ErrorCode.parse (text "malformed body") s
    | ok p ↦
        let digest = digest_payload p.payload in
        with_found s p.name p.name_len
          (λ i f s1. if is_add then add_found i f digest mode s1 else check_found i f digest s1)
  ]
