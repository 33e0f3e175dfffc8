-- ===== src/FilterSet.antt =====
-- The set of filters of src/util.c: an array with a one-entry cache of the last index found. The
-- array is a list, `len` its length; `cap` is the room that was allocated.
pub mod Find
pub mod Valid
use kbloomd.Common.{
  ℕ, zero, suc, ◌+◌, ◌-◌, ◌*◌, ◌^◌, Bool, true, false, not, ◌&&◌, ◌||◌, Option, none, some, List,
  [], ◌∷◌, ◌++◌, Bytes, length, get_elem?, take, drop, ◌==◌, ltb, leb, if◌then◌else◌, enomem,
  enoent,
}
use kbloomd.Platform.{Platform}
use kbloomd.Wire.{byte_at}
use kbloomd.Log.{log_buffer_flush, log_close}
use kbloomd.Bpf.{bpf_close}

-- struct bloomd_filter_meta; a `char` array is the text in it.
pub record Meta : Type 0 where
  pub name : Bytes
  pub backend : Bytes
  pub digest : Bytes
  pub pin_path : Bytes
  pub meta_path : Bytes
  pub log_path : Bytes
  pub capacity : ℕ
  pub error_rate : ℕ
  pub hashes : ℕ
  pub value_size : ℕ
  pub metadata_version : ℕ
  pub has_data : Bool
  pub log_clean : Bool

-- struct bloomd_filter
pub record Filter : Type 0 where
  pub meta : Meta
  pub map_fd : Option ℕ
  pub log_fd : Option ℕ
  pub log_buf : Bytes
  pub log_dirty : Bool
  pub log_history_incomplete : Bool
  pub last_log_sync_ms : ℕ
  pub add_calls : ℕ
  pub check_calls : ℕ
  pub batch_add_calls : ℕ
  pub batch_check_calls : ℕ

-- struct bloomd_filter_set
pub record FilterSet : Type 0 where
  pub items : List Filter
  pub cap : ℕ
  pub last_index : ℕ

abbrev pub size_max : ℕ
size_max = 2 ^ 64 - 1

unfoldable pub filter_set_init : FilterSet
filter_set_init = record { items = []; cap = 0; last_index = size_max }

-- `memcmp(a, b, n) == 0`; past the text of an array stand NULs.
unfoldable pub memcmp_eq : ℕ → Bytes → Bytes → Bool
memcmp_eq zero a b = true
memcmp_eq (suc n) a b = byte_at a 0 == byte_at b 0 && memcmp_eq n (drop 1 a) (drop 1 b)

-- The test of the loops: the stored name ends at `name_len` and agrees up to there.
unfoldable pub name_matches : Filter → Bytes → ℕ → Bool
unfolding memcmp_eq
name_matches item name name_len =
    byte_at item.meta.name name_len == 0 && memcmp_eq name_len item.meta.name name

-- The loop from index `i` on.
unfoldable pub find_loop : List Filter → ℕ → Bytes → ℕ → Option ℕ
find_loop [] i name name_len = none
find_loop (item ∷ rest) i name name_len =
    let later = find_loop rest (i + 1) name name_len in
    if name_matches item name name_len then some i else later

-- The test of the fast path: does the cached index hold the name?
unfoldable pub cache_hit : FilterSet → Bytes → ℕ → Bool
unfolding name_matches
cache_hit set name name_len = elim (get_elem? set.items set.last_index) [
  | none ↦ false
  | some item ↦ name_matches item name name_len
]

unfoldable pub found_at : FilterSet → Option ℕ → Option ℕ × FilterSet
found_at set none = (none, set)
found_at set (some i) = (some i, record set { last_index = i })

-- bloomd_filter_set_find_n: the index of the filter, for the pointer that the source returns.
unfoldable pub filter_set_find_n : FilterSet → Bytes → ℕ → Option ℕ × FilterSet
unfolding cache_hit find_loop found_at
filter_set_find_n set name name_len =
    if cache_hit set name name_len
    then (some set.last_index, set)
    else found_at set (find_loop set.items 0 name name_len)

unfoldable pub filter_set_find : FilterSet → Bytes → Option ℕ × FilterSet
unfolding filter_set_find_n
filter_set_find set name = filter_set_find_n set name (length name)

-- `memmove` of the items behind index `i` one place down
unfoldable pub remove_at : List Filter → ℕ → List Filter
remove_at [] i = []
remove_at (item ∷ rest) zero = rest
remove_at (item ∷ rest) (suc i) = item ∷ remove_at rest i

-- The cache after index `i` is gone and `len` items are left.
unfoldable pub cache_after_remove : ℕ → ℕ → ℕ → ℕ
cache_after_remove last_index i len =
    if len == 0
    then size_max
    else if last_index == i || leb len last_index
    then size_max
    else if ltb i last_index
    then last_index - 1
    else last_index

module _ (P : Platform) where
  open P use {World, realloc}

  -- The size of `struct bloomd_filter` is the platform's; only whether memory is found counts.
  unfoldable pub filter_set_add : FilterSet → Filter → World → ℕ × FilterSet × World
  filter_set_add set filter w =
      let new_cap = if set.cap == 0 then 8 else set.cap * 2 in
      let (got, w') = realloc w new_cap in
      let grown = λ (cap : ℕ).
        let next : FilterSet = record {
          items = set.items ++ (filter ∷ []);
          cap = cap;
          last_index = length set.items;
        } in
        next in
      if length set.items == set.cap
      then (if got then (0, grown new_cap, w') else (enomem, set, w'))
      else (0, grown set.cap, w)

  unfoldable pub remove_found : FilterSet → ℕ → Option Filter → World → ℕ × FilterSet × World
  unfolding log_buffer_flush log_close bpf_close remove_at cache_after_remove
  remove_found set i none w = (enoent, set, w)
  remove_found set i (some item) w =
      let (rc, buf, w1) = log_buffer_flush P item.log_fd item.log_buf false w in
      let w2 = log_close P item.log_fd false w1 in
      let w3 = bpf_close P item.map_fd w2 in
      let left = remove_at set.items i in
      (
        0,
        record set { items = left; last_index = cache_after_remove set.last_index i (length left) },
        w3,
      )

  -- bloomd_filter_set_remove_n
  unfoldable pub filter_set_remove_n : FilterSet → Bytes → ℕ → World → ℕ × FilterSet × World
  unfolding find_loop remove_found
  filter_set_remove_n set name name_len w = elim (find_loop set.items 0 name name_len) [
    | none ↦ (enoent, set, w)
    | some i ↦ remove_found set i (get_elem? set.items i) w
  ]

  -- The loop of bloomd_filter_set_free
  unfoldable pub free_loop : List Filter → World → World
  unfolding log_buffer_flush log_close bpf_close
  free_loop [] w = w
  free_loop (item ∷ rest) w =
      let (rc, buf, w1) = log_buffer_flush P item.log_fd item.log_buf true w in
      free_loop rest (bpf_close P item.map_fd (log_close P item.log_fd false w1))

  unfoldable pub filter_set_free : FilterSet → World → FilterSet × World
  unfolding free_loop filter_set_init
  filter_set_free set w = (filter_set_init, free_loop set.items w)
