-- ===== src/Handlers/Create.antt =====
-- `bloomd_handle_create` of src/daemon.c, with `bloomd_hashes_for_error_rate` of src/util.c.
pub mod Preserves
use kbloomd.Common.{
  ℕ, ◌+◌, ◌-◌, ◌^◌, Bool, true, false, not, ◌||◌, none, some, [], Bytes, text, Result, ok, err,
  drop, ◌==◌, ltb, if◌then◌else◌, eperm,
}
use kbloomd.Platform.{Platform}
use kbloomd.Name.{parse_name_copy, build_meta_path, build_log_path, build_pin_path}
use kbloomd.Frame.Status
use kbloomd.Frame.ErrorCode
use kbloomd.Frame.{Request}
use kbloomd.Bpf.{done, fail, digest_size, bpf_create_map, bpf_unpin, bpf_close}
use kbloomd.Log.{log_delete, remove_path_if_exists}
use kbloomd.MetaFile.{meta_write_atomic}
use kbloomd.FilterSet.{Meta, Filter, filter_set_find, filter_set_add}
use kbloomd.Daemon.{Config, State, take_empty_map, next_count, reply_error}
use kbloomd.Handlers.{CreateRequest, create_request}

-- bloomd_assign_filter_paths
unfoldable pub assign_filter_paths : Config → Meta → Result Meta
assign_filter_paths cfg meta = elim (build_meta_path cfg.meta_root meta.name) [
  | err e ↦ err e
  | ok meta_path ↦ (elim (build_log_path cfg.meta_root meta.name) [
    | err e ↦ err e
    | ok log_path ↦ (elim (build_pin_path cfg.pin_root meta.name) [
      | err e ↦ err e
      | ok pin_path ↦
          ok (record meta { meta_path = meta_path; log_path = log_path; pin_path = pin_path })
    ])
  ])
]

module _ (P : Platform) where
  open P use {
    World, is_finite, double_le, double_lt, double_div, log2, ceil, double_of_int, int_of_double,
  }

  -- Is the number finite, above 0 and below 1?
  unfoldable pub rate_in_range : ℕ → Bool
  rate_in_range rate =
      not (
        not (is_finite rate)
        || double_le rate (double_of_int 0)
        || double_le (double_of_int 1) rate)

  unfoldable pub hashes_for_error_rate : ℕ → ℕ
  hashes_for_error_rate rate =
      if not (rate_in_range rate)
      then 0
      else (let hashes = ceil (log2 (double_div (double_of_int 1) rate)) in
          if double_lt hashes (double_of_int 1)
          then 1
          else if double_lt (double_of_int 15) hashes
          then 15
          else int_of_double hashes)

  -- The metadata of the new filter, its paths still empty.
  unfoldable pub new_meta : CreateRequest → Bytes → Meta
  new_meta hdr name = record {
    name = name;
    backend = text "bpf_bloom";
    digest = text "siphash128-v1";
    pin_path = [];
    meta_path = [];
    log_path = [];
    capacity = hdr.capacity;
    error_rate = hdr.error_rate;
    hashes = if hdr.hashes == 0 then hashes_for_error_rate hdr.error_rate else hdr.hashes;
    value_size = digest_size;
    metadata_version = 1;
    has_data = false;
    log_clean = true;
  }

  unfoldable pub new_filter : Meta → ℕ → Filter
  new_filter meta fd = record {
    meta = meta;
    map_fd = some fd;
    log_fd = none;
    log_buf = [];
    log_dirty = false;
    log_history_incomplete = false;
    last_log_sync_ms = 0;
    add_calls = 0;
    check_calls = 0;
    batch_add_calls = 0;
    batch_check_calls = 0;
  }

  -- From the map on: the metadata file, then the set.
  unfoldable pub create_stored : Meta → ℕ → State P → ℕ × State P
  create_stored meta fd s =
      let (rc, w1) = meta_write_atomic P meta s.world in
      let (rc2, filters, w2) = filter_set_add P s.filters (new_filter meta fd) w1 in
      let w3 = (remove_path_if_exists P meta.meta_path w2).1 in
      let w4 = (log_delete P meta.log_path w3).1 in
      let w5 = (bpf_unpin P meta.pin_path w4).1 in
      if not (rc == 0)
      then reply_error P Status.io ErrorCode.metadata (text "failed to write metadata")
          (record s { world = bpf_close P (some fd) w1 })
      else if not (rc2 == 0)
      then reply_error P Status.internal ErrorCode.none (text "too many filters")
          (record s { filters = filters; world = bpf_close P (some fd) w5 })
      else (
        0,
        record s {
          filters = filters;
          world = w2;
          stats = record s.stats { filters_created = next_count s.stats.filters_created };
        },
      )

  -- A map from the pool, or else a new one.
  unfoldable pub create_map : Meta → State P → ℕ × State P
  create_map meta s =
      let (taken, pool, stats) =
        take_empty_map s.pool s.stats meta.capacity meta.hashes meta.value_size in
      let s1 : State P = record s { pool = pool; stats = stats } in
      let (made, w) = bpf_create_map P meta.name meta.capacity meta.hashes s1.world in
      elim taken [
        | some fd ↦ create_stored meta fd s1
        | none ↦ (elim made [
          | done fd ↦ create_stored meta fd (record s1 { world = w })
          | fail rc message ↦
              reply_error P (if rc == eperm then Status.perm else Status.bpf)
                (if rc == eperm then ErrorCode.bpf_privs else ErrorCode.unsupported_kernel) message
                (record s1 { world = w })
        ])
      ]

  unfoldable pub create_paths : Config → Meta → State P → ℕ × State P
  create_paths cfg meta s = elim (assign_filter_paths cfg meta) [
    | err e ↦ reply_error P Status.internal ErrorCode.none (text "failed to build filter paths") s
    | ok placed ↦ create_map placed s
  ]

  -- From the parsed name on.
  unfoldable pub create_named : Config → CreateRequest → Bytes → State P → ℕ × State P
  create_named cfg hdr name s =
      let (found, filters) = filter_set_find s.filters name in
      let s1 : State P = record s { filters = filters } in
      if hdr.capacity == 0
        || ltb (2 ^ 32 - 1) hdr.capacity
        || ltb 15 hdr.hashes
        || not (rate_in_range hdr.error_rate)
      then reply_error P Status.bad_request ErrorCode.range
          (text "invalid capacity, error_rate, or hashes") s
      else (elim found [
        | some i ↦ reply_error P Status.exists ErrorCode.none (text "filter already exists") s1
        | none ↦ create_paths cfg (new_meta hdr name) s1
      ])

  unfoldable pub handle_create : Config → Request → State P → ℕ × State P
  handle_create cfg req s =
      let hdr = create_request req.body in
      if ltb req.header.body_len 24
      then reply_error P Status.bad_request ErrorCode.parse (text "short CREATE body") s
      else if not (24 + hdr.name_len == req.header.body_len)
      then reply_error P Status.bad_request ErrorCode.parse (text "malformed CREATE body") s
      else if not (hdr.reserved == 0)
      then reply_error P Status.bad_request ErrorCode.parse
          (text "CREATE reserved field must be zero") s
      else (elim (parse_name_copy (drop 24 req.body) hdr.name_len) [
        | err e ↦ reply_error P Status.name ErrorCode.parse (text "invalid name") s
        | ok name ↦ create_named cfg hdr name s
      ])
