-- ===== src/Daemon.antt =====
-- The state of src/daemon.c that a request can change, and the pool of one empty map.
use kbloomd.Common.{
  ℕ, ◌+◌, Bool, false, not, ◌&&◌, Option, none, some, Bytes, set, ◌==◌, if◌then◌else◌,
}
use kbloomd.Platform.{Platform}
use kbloomd.Wire.{u64}
use kbloomd.Frame.{Response, response_error}
use kbloomd.Buffer.{buffer_append}
use kbloomd.Bpf.{bpf_close}
use kbloomd.FilterSet.{Filter, FilterSet}
use kbloomd.FilterState.{SyncMode}

-- struct bloomd_config, less two flags that nothing reads
pub record Config : Type 0 where
  pub socket_path : Bytes
  pub pin_root : Bytes
  pub meta_root : Bytes
  pub socket_mode : ℕ
  pub log_sync_mode : SyncMode

-- struct bloomd_stats
pub record Stats : Type 0 where
  pub requests : ℕ
  pub responses : ℕ
  pub errors : ℕ
  pub accepted_connections : ℕ
  pub filters_loaded : ℕ
  pub filters_created : ℕ
  pub filters_dropped : ℕ
  pub orphan_meta : ℕ
  pub orphan_pin : ℕ
  pub empty_pool_hits : ℕ
  pub empty_pool_misses : ℕ

-- struct bloomd_empty_map_pool
pub record Pool : Type 0 where
  pub map_fd : Option ℕ
  pub capacity : ℕ
  pub hashes : ℕ
  pub value_size : ℕ

-- A `uint64_t` counter after `++`.
abbrev pub next_count : ℕ → ℕ
next_count n = u64 (n + 1)

unfoldable pub pool_empty : Pool
pool_empty = record { map_fd = none; capacity = 0; hashes = 0; value_size = 0 }

-- Has the pool a map of these parameters?
unfoldable pub pool_fits : Pool → ℕ → ℕ → ℕ → Bool
pool_fits pool capacity hashes value_size = elim pool.map_fd [
  | none ↦ false
  | some fd ↦ pool.capacity == capacity && pool.hashes == hashes && pool.value_size == value_size
]

-- bloomd_take_empty_map; `stats` is never NULL.
unfoldable pub take_empty_map : Pool → Stats → ℕ → ℕ → ℕ → Option ℕ × Pool × Stats
unfolding pool_fits pool_empty
take_empty_map pool stats capacity hashes value_size =
    if not (pool_fits pool capacity hashes value_size)
    then (none, pool, record stats { empty_pool_misses = next_count stats.empty_pool_misses })
    else (
      pool.map_fd,
      pool_empty,
      record stats { empty_pool_hits = next_count stats.empty_pool_hits },
    )

module _ (P : Platform) where
  open P use {World}

  -- bloomd_store_empty_map
  unfoldable pub store_empty_map : Pool → Option ℕ → ℕ → ℕ → ℕ → World → Pool × World
  store_empty_map pool none capacity hashes value_size w = (pool, w)
  store_empty_map pool (some fd) capacity hashes value_size w = (
    record { map_fd = some fd; capacity = capacity; hashes = hashes; value_size = value_size },
    bpf_close P pool.map_fd w,
  )

  -- bloomd_close_empty_pool
  unfoldable pub close_empty_pool : Pool → World → Pool × World
  close_empty_pool pool w = (pool_empty, bpf_close P pool.map_fd w)

  -- What a handler reads and writes: the filters, the counters, the pool and the response.
  pub record State : Type 0 where
    pub world : World
    pub filters : FilterSet
    pub stats : Stats
    pub pool : Pool
    pub resp : Response

  -- `bloomd_response_error` on the response of the state.
  unfoldable pub reply_error : ℕ → ℕ → Bytes → State → ℕ × State
  reply_error status code message s =
      let (rc, resp, w) = response_error P s.resp status code message s.world in
      (rc, record s { resp = resp; world = w })

  -- `bloomd_buffer_append` to the body of the response.
  unfoldable pub reply_append : Bytes → State → ℕ × State
  reply_append src s =
      let (rc, body, w) = buffer_append P s.resp.body src s.world in
      (rc, record s { resp = record s.resp { body = body }; world = w })

  -- Store through the pointer that a find returned.
  unfoldable pub put_filter : ℕ → Filter → State → State
  put_filter i filter s = record s {
    filters = record s.filters { items = set s.filters.items i filter };
  }
