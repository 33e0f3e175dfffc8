-- ===== src/Handlers/Drop.antt =====
-- `bloomd_handle_drop` of src/daemon.c.
pub mod Preserves
use kbloomd.Common.{ℕ, ◌+◌, not, ◌||◌, none, Bytes, text, drop, ◌==◌, ltb, if◌then◌else◌}
use kbloomd.Platform.{Platform}
use kbloomd.Name.{name_view_is_valid}
use kbloomd.Frame.Status
use kbloomd.Frame.ErrorCode
use kbloomd.Frame.{Request}
use kbloomd.Bpf.{done, fail, bpf_unpin, bpf_pin_map}
use kbloomd.Log.{log_delete, remove_path_if_exists}
use kbloomd.FilterSet.{Filter, filter_set_remove_n}
use kbloomd.FilterState.{raw_fd}
use kbloomd.Daemon.{State, next_count, reply_error, put_filter, store_empty_map}
use kbloomd.Handlers.{name_request}
use kbloomd.Handlers.Add.{with_found}

module _ (P : Platform) where
  open P use {World}

  -- After the metadata file is gone: the log, the set, the pool and the counter. The map of a
  -- filter without data leaves the filter before `bloomd_filter_set_remove_n` would close it.
  unfoldable pub drop_forget : Bytes → ℕ → ℕ → Filter → State P → ℕ × State P
  drop_forget name name_len i filter s =
      let counted : State P = record s {
        stats = record s.stats { filters_dropped = next_count s.stats.filters_dropped };
      } in
      if filter.meta.has_data
      then (let w1 = (log_delete P filter.meta.log_path s.world).1 in
          let (rc, left, w2) = filter_set_remove_n P s.filters name name_len w1 in
          (0, record counted { filters = left; world = w2 }))
      else (let emptied = put_filter P i (record filter { map_fd = none }) s in
          let (rc, left, w2) = filter_set_remove_n P emptied.filters name name_len s.world in
          let (pool, w3) =
            store_empty_map P s.pool filter.map_fd filter.meta.capacity filter.meta.hashes
              filter.meta.value_size w2 in
          (0, record counted { filters = left; pool = pool; world = w3 }))

  -- With the pin removed, if there was one: the metadata file. If that fails the pin is restored.
  unfoldable pub drop_meta : Bytes → ℕ → ℕ → Filter → State P → ℕ × State P
  drop_meta name name_len i filter s =
      let (rc, w1) = remove_path_if_exists P filter.meta.meta_path s.world in
      let (repinned, w2) = bpf_pin_map P (raw_fd filter.map_fd) filter.meta.pin_path w1 in
      if not (rc == 0)
      then reply_error P Status.io ErrorCode.metadata (text "failed to remove metadata")
          (record s { world = if filter.meta.has_data then w2 else w1 })
      else drop_forget name name_len i filter (record s { world = w1 })

  unfoldable pub drop_found : Bytes → ℕ → ℕ → Filter → State P → ℕ × State P
  drop_found name name_len i filter s =
      let (r, w1) = bpf_unpin P filter.meta.pin_path s.world in
      if filter.meta.has_data
      then (elim r [
        | fail rc message ↦
            reply_error P Status.bpf ErrorCode.bpffs message (record s { world = w1 })
        | done t ↦ drop_meta name name_len i filter (record s { world = w1 })
      ])
      else drop_meta name name_len i filter s

  unfoldable pub handle_drop : Request → State P → ℕ × State P
  handle_drop req s =
      let hdr = name_request req.body in
      let name = drop 8 req.body in
      if ltb req.header.body_len 8
      then reply_error P Status.bad_request ErrorCode.parse (text "short DROP body") s
      else if not (8 + hdr.name_len == req.header.body_len)
      then reply_error P Status.bad_request ErrorCode.parse (text "malformed DROP body") s
      else if not (hdr.reserved0 == 0) || not (hdr.reserved1 == 0)
      then reply_error P Status.bad_request ErrorCode.parse
          (text "DROP reserved fields must be zero") s
      else if not (name_view_is_valid name hdr.name_len == 0)
      then reply_error P Status.name ErrorCode.parse (text "invalid name") s
      else with_found P s name hdr.name_len (λ i f s1. drop_found name hdr.name_len i f s1)
