-- ===== src/Tests/Filters.antt =====
-- Applications of the theorems on filters and their set.
use kbloomd.Common.{
  ◌≡◌, ◌⊎◌, ◌↔◌, refl, arith, [], ◌∷◌, ◌++◌, Bytes, take, text, none, some, true, false, enomem,
}
use kbloomd.FilterSet.{
  Meta, Filter, FilterSet, name_matches, filter_set_find_n, filter_set_add, filter_set_remove_n,
}
use kbloomd.FilterSet.Find.{Finds, name_matches_iff, filter_set_find_n-Finds}
use kbloomd.FilterSet.Valid.{
  IsValid, filter_set_add-IsValid, filter_set_remove_n-IsValid, filter_set_remove_n-gone,
}
use kbloomd.FilterState.{
  periodic, always, is_always, ensure_filter_durable, ensure_log_open, mark_filter_log_dirty,
  stage_digest_for_add, stage_append,
}
use kbloomd.Log.{log_buffer_append}
use kbloomd.Bpf.{bpf_add_digest}
use kbloomd.FilterState.Keeps.{SameFilter}
use kbloomd.Handlers.Add.{added, add_to_filter, add_staged, prepare_add}
use kbloomd.Handlers.Add.Laws.{add_to_filter-SameFilter, add_to_filter_added}
use kbloomd.Tests.{Machine, toy}

abbrev named_meta : Bytes → Meta
named_meta name = record {
  name = name;
  backend = text "bpf_bloom_map";
  digest = text "siphash128-v1";
  pin_path = text "/pins/f";
  meta_path = text "/state/f.meta";
  log_path = text "/state/f.log";
  capacity = 10;
  error_rate = 0;
  hashes = 5;
  value_size = 16;
  metadata_version = 1;
  has_data = true;
  log_clean = false;
}

abbrev named_filter : Bytes → Filter
named_filter name = record {
  meta = named_meta name;
  map_fd = some 4;
  log_fd = some 3;
  log_buf = 1 ∷ 2 ∷ [];
  log_dirty = false;
  log_history_incomplete = false;
  last_log_sync_ms = 0;
  add_calls = 0;
  check_calls = 0;
  batch_add_calls = 0;
  batch_check_calls = 0;
}

abbrev pub ann : Filter
ann = named_filter (97 ∷ 110 ∷ 110 ∷ [])

abbrev pub bob : Filter
bob = named_filter (98 ∷ 111 ∷ 98 ∷ [])

-- The cache holds an index of no item.
abbrev pub both : FilterSet
both = record { items = ann ∷ bob ∷ []; cap = 2; last_index = 7 }

abbrev pub machine : Machine
machine = record { disk = 9 ∷ []; input = []; digests = []; plans = [] }

-- A request whose name field holds more than the name.
abbrev bob_payload : Bytes
bob_payload = 98 ∷ 111 ∷ 98 ∷ 33 ∷ []

pub both-IsValid : IsValid both
both-IsValid = record { named = ground arith; distinct = ground arith; room = omega arith }

filter_set_find_n-Finds_example :
    Finds both.items (take 3 bob_payload) (filter_set_find_n both bob_payload 3).0
    × ((filter_set_find_n both bob_payload 3).1.items ≡ both.items)
filter_set_find_n-Finds_example =
    filter_set_find_n-Finds bob_payload 3 (ground arith) (omega arith) both both-IsValid.named

name_matches_iff_example :
    (name_matches bob bob_payload 3 ≡ true) ↔ (bob.meta.name ≡ take 3 bob_payload)
name_matches_iff_example =
    name_matches_iff bob bob_payload 3 (ground arith) (ground arith) (omega arith)

filter_set_remove_n-IsValid_example : IsValid (filter_set_remove_n toy both bob_payload 3 machine).1
filter_set_remove_n-IsValid_example =
    filter_set_remove_n-IsValid toy both bob_payload 3 machine both-IsValid

filter_set_remove_n-gone_example :
    Finds (filter_set_remove_n toy both bob_payload 3 machine).1.items (take 3 bob_payload) none
filter_set_remove_n-gone_example =
    filter_set_remove_n-gone toy both bob_payload 3 machine both-IsValid (ground arith)
      (omega arith)

add_to_filter-SameFilter_example : SameFilter ann (add_to_filter toy ann (1 ∷ []) always machine).1
add_to_filter-SameFilter_example = add_to_filter-SameFilter toy ann (1 ∷ []) always machine

-- A name that neither filter has.
abbrev cat : Filter
cat = named_filter (99 ∷ 97 ∷ 116 ∷ [])

filter_set_add-IsValid_example :
    IsValid (filter_set_add toy both cat machine).1
    × (((filter_set_add toy both cat machine).0 ≡ 0)
          × ((filter_set_add toy both cat machine).1.items ≡ both.items ++ (cat ∷ []))
        ⊎ ((filter_set_add toy both cat machine).0 ≡ enomem)
          × ((filter_set_add toy both cat machine).1 ≡ both))
filter_set_add-IsValid_example =
    filter_set_add-IsValid toy both cat machine both-IsValid (ground arith) (ground arith)

ann_added : (add_to_filter toy ann (5 ∷ []) periodic machine).0 ≡ added
unfolding add_to_filter prepare_add ensure_filter_durable ensure_log_open is_always
    mark_filter_log_dirty add_staged stage_digest_for_add stage_append log_buffer_append
    bpf_add_digest
ann_added = refl

add_to_filter_added_example :
    ((add_to_filter toy ann (5 ∷ []) periodic machine).1.meta.has_data ≡ true)
    × ((is_always periodic ≡ true)
        ⊎ ((add_to_filter toy ann (5 ∷ []) periodic machine).1.meta.log_clean ≡ false))
add_to_filter_added_example = add_to_filter_added toy ann (5 ∷ []) periodic machine ann_added
