-- ===== src/Handlers/Info.antt =====
-- The handlers of src/daemon.c that only report: PING, INFO, LIST and STATS.
use kbloomd.Common.{
  ℕ, ◌+◌, not, ◌||◌, List, [], ◌∷◌, Bytes, text, length, take, drop, ◌==◌, ltb, if◌then◌else◌,
  rc_or, bit_or,
}
use kbloomd.Platform.{Platform}
use kbloomd.Wire.{u16, u32, store_u16, store_u32, store_u64}
use kbloomd.Name.{name_view_is_valid}
use kbloomd.Frame.Status
use kbloomd.Frame.ErrorCode
use kbloomd.Frame.{Request}
use kbloomd.FilterSet.{Filter, FilterSet}
use kbloomd.Daemon.{State, Stats, reply_error, reply_append}
use kbloomd.Handlers.{name_request}
use kbloomd.Handlers.Add.{with_found}

-- The flags BLOOMD_FILTER_STATE_* of a filter.
unfoldable pub state_flags : Filter → ℕ
state_flags filter =
    let base : ℕ = if filter.meta.has_data then 0x01 else 0x02 in
    if filter.meta.log_clean
    then bit_or base 0x04
    else if filter.meta.has_data
    then bit_or base 0x08
    else base

-- The fields of an INFO response in order.
unfoldable pub info_fields : Filter → List Bytes
unfolding state_flags
info_fields filter =
    let name_len = u16 (length filter.meta.name) in
    let backend_len = u16 (length filter.meta.backend) in
    let digest_len = u16 (length filter.meta.digest) in
    let pin_len = u32 (length filter.meta.pin_path) in
    store_u16 name_len
    ∷ store_u16 backend_len
    ∷ store_u16 digest_len
    ∷ store_u16 0
    ∷ store_u64 filter.meta.capacity
    ∷ store_u64 filter.meta.error_rate
    ∷ store_u32 filter.meta.hashes
    ∷ store_u32 filter.meta.value_size
    ∷ store_u64 filter.add_calls
    ∷ store_u64 filter.check_calls
    ∷ store_u64 filter.batch_add_calls
    ∷ store_u64 filter.batch_check_calls
    ∷ store_u32 pin_len
    ∷ store_u32 (state_flags filter)
    ∷ take name_len filter.meta.name
    ∷ take backend_len filter.meta.backend
    ∷ take digest_len filter.meta.digest
    ∷ take pin_len filter.meta.pin_path
    ∷ []

-- metadata_only, durable_clean, durable_dirty
pub record StateCounts : Type 0 where
  pub metadata_only : ℕ
  pub durable_clean : ℕ
  pub durable_dirty : ℕ

unfoldable pub count_state : Filter → StateCounts → StateCounts
count_state item c =
    if not item.meta.has_data
    then record c { metadata_only = u32 (c.metadata_only + 1) }
    else if item.meta.log_clean
    then record c { durable_clean = u32 (c.durable_clean + 1) }
    else record c { durable_dirty = u32 (c.durable_dirty + 1) }

unfoldable pub count_loop : List Filter → StateCounts → StateCounts
unfolding count_state
count_loop [] c = c
count_loop (item ∷ rest) c = count_loop rest (count_state item c)

-- bloomd_count_filter_states
unfoldable pub count_filter_states : FilterSet → StateCounts
unfolding count_loop
count_filter_states set =
    count_loop set.items (record { metadata_only = 0; durable_clean = 0; durable_dirty = 0 })

-- The fields of a STATS response in order.
unfoldable pub stats_fields : FilterSet → Stats → List Bytes
unfolding count_filter_states
stats_fields set stats =
    let c = count_filter_states set in
    store_u64 stats.requests
    ∷ store_u64 stats.responses
    ∷ store_u64 stats.errors
    ∷ store_u64 stats.accepted_connections
    ∷ store_u64 stats.filters_loaded
    ∷ store_u64 stats.filters_created
    ∷ store_u64 stats.filters_dropped
    ∷ store_u64 stats.orphan_meta
    ∷ store_u64 stats.orphan_pin
    ∷ store_u32 (u32 (length set.items))
    ∷ store_u32 c.metadata_only
    ∷ store_u32 (u32 (c.durable_clean + c.durable_dirty))
    ∷ store_u64 stats.empty_pool_hits
    ∷ store_u64 stats.empty_pool_misses
    ∷ []

module _ (P : Platform) where
  open P use {World}

  -- bloomd_handle_ping
  unfoldable pub handle_ping : State P → ℕ × State P
  handle_ping s = reply_append P (text "PONG") s

  -- `rc |= append(field)` for each field: the appends go on after one has failed.
  unfoldable pub append_fields : List Bytes → ℕ → State P → ℕ × State P
  append_fields [] rc s = (rc, s)
  append_fields (field ∷ rest) rc s =
      let (r, s1) = reply_append P field s in append_fields rest (rc_or rc r) s1

  -- bloomd_handle_info
  unfoldable pub handle_info : Request → State P → ℕ × State P
  handle_info req s =
      let hdr = name_request req.body in
      let name = drop 8 req.body in
      if ltb req.header.body_len 8
      then reply_error P Status.bad_request ErrorCode.parse (text "short INFO body") s
      else if not (8 + hdr.name_len == req.header.body_len)
      then reply_error P Status.bad_request ErrorCode.parse (text "malformed INFO body") s
      else if not (hdr.reserved0 == 0) || not (hdr.reserved1 == 0)
      then reply_error P Status.bad_request ErrorCode.parse
          (text "INFO reserved fields must be zero") s
      else if not (name_view_is_valid name hdr.name_len == 0)
      then reply_error P Status.name ErrorCode.parse (text "invalid name") s
      else with_found P s name hdr.name_len (λ i f s1. append_fields (info_fields f) 0 s1)

  -- The loop of LIST, which stops at the first failure.
  unfoldable pub list_loop : List Filter → State P → ℕ × State P
  list_loop [] s = (0, s)
  list_loop (item ∷ rest) s =
      let len = u16 (length item.meta.name) in
      let (rc, s1) = reply_append P (store_u16 len) s in
      let (rc2, s2) = reply_append P (take len item.meta.name) s1 in
      let later = list_loop rest s2 in
      if not (rc == 0) then (rc, s1) else if not (rc2 == 0) then (rc2, s2) else later

  -- bloomd_handle_list
  unfoldable pub handle_list : State P → ℕ × State P
  handle_list s =
      let (rc, s1) = reply_append P (store_u32 (u32 (length s.filters.items))) s in
      if not (rc == 0) then (rc, s1) else list_loop s.filters.items s1

  -- bloomd_handle_stats
  unfoldable pub handle_stats : State P → ℕ × State P
  handle_stats s = append_fields (stats_fields s.filters s.stats) 0 s
