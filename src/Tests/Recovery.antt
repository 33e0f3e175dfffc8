-- ===== src/Tests/Recovery.antt =====
-- Applications of the theorems on reading back logs and metadata, and on the filters at start.
use kbloomd.Common.{
  ℕ, ◌≡◌, refl, arith, List, [], ◌∷◌, ◌++◌, ◌/◌, Bytes, text, ok, length, true, false, same,
}
use kbloomd.Bpf.{done, digest_size, bpf_create_map, bpf_pin_map, bpf_add_digest}
use kbloomd.FilterSet.{Meta}
use kbloomd.Handlers.Create.{assign_filter_paths}
use kbloomd.Log.Replay.{log_replay_impl, log_replay}
use kbloomd.Log.Replay.Records.{records, IsCollector, Ends, log_replay_impl-Ends}
use kbloomd.Recovery.{rebuild_from_log, list_dir}
use kbloomd.Recovery.Rebuilt.{rebuild_from_log-records}
use kbloomd.Recovery.Load.{Loading}
use kbloomd.Recovery.Pins.{cleanup_orphan_pins}
use kbloomd.Recovery.Kept.{
  goes, orphans, has_name, is_among, unlink_each, cleanup_orphan_pins-orphans,
}
use kbloomd.Platform.{Platform}
use kbloomd.Name.{name_is_valid}
use kbloomd.FilterSet.Find.{All}
use kbloomd.Tests.{Machine, toy, unread, inserted, content}
use kbloomd.Tests.Platforms.{toy-ReadLaws, toy-MapLaws}
use kbloomd.Tests.Filters.{ann, both, both-IsValid}
use kbloomd.Tests.Clients.{config, no_stats}

-- A log of two whole records and a part of a third.
abbrev log_machine : Machine
log_machine = record {
  disk = [];
  input = text "0123456789abcdefABCDEFGHIJKLMNOPpart";
  digests = [];
  plans = [];
}

-- A callback that puts every digest at the end of its context.
abbrev keep : Bytes → List Bytes → Machine → ℕ × List Bytes × Machine
keep d c m = (0, c ++ (d ∷ []), m)

abbrev kept : List Bytes → Machine → List Bytes
kept c m = c

keep-IsCollector : IsCollector toy unread toy-ReadLaws keep kept
keep-IsCollector = record {
  cb_seen = λ d c w e. refl;
  cb_unread = λ d c w fd. refl;
  read_seen = λ c w fd n. refl;
  close_seen = λ c w fd. refl;
  truncate_seen = λ c w path n. refl;
}

log_replay_impl-Ends_example :
    Ends toy unread toy-ReadLaws keep kept true
      (text "0123456789abcdefABCDEFGHIJKLMNOPpart")
      0
      []
      (log_replay_impl toy keep (text "/state/f.log") true [] log_machine)
log_replay_impl-Ends_example =
    log_replay_impl-Ends toy unread toy-ReadLaws keep kept keep-IsCollector (text "/state/f.log")
      true [] log_machine 3 refl (unfold text in omega arith)

-- The metadata of `ann` with the paths that it gets.
abbrev ann_placed : Meta
ann_placed = record ann.meta {
  meta_path = text "/state/ann.meta";
  log_path = text "/state/ann.digests";
  pin_path = text "/pins/ann";
}

ann_assigned : assign_filter_paths config ann.meta ≡ ok ann_placed
unfolding assign_filter_paths text kbloomd.Name.build_meta_path kbloomd.Name.build_log_path
    kbloomd.Name.build_pin_path
ann_assigned = refl

ann_rebuilt : (rebuild_from_log toy config ann.meta log_machine).0 ≡ done (4, 2)
unfolding rebuild_from_log text assign_filter_paths kbloomd.Name.build_meta_path
    kbloomd.Name.build_log_path kbloomd.Name.build_pin_path bpf_create_map
    kbloomd.Recovery.rebuild_into log_replay kbloomd.Log.Replay.read_record
    kbloomd.Recovery.replay_digest_cb bpf_add_digest bpf_pin_map
ann_rebuilt = refl

rebuild_from_log-records_example :
    (2 ≡ length (text "0123456789abcdefABCDEFGHIJKLMNOPpart") / digest_size)
    × (inserted (rebuild_from_log toy config ann.meta log_machine).2 4
        ≡ records 2 (text "0123456789abcdefABCDEFGHIJKLMNOPpart"))
rebuild_from_log-records_example =
    rebuild_from_log-records toy unread inserted content toy-ReadLaws toy-MapLaws config ann.meta
      ann_placed log_machine 4 2 ann_assigned (unfold text in omega arith) ann_rebuilt

-- A directory with the pins of a filter and of an old one, a file that is no pin and the two names
-- that every directory has; what is removed is written down.
abbrev pins : Platform
pins = record toy {
  read_dir = λ m path.
      (ok (text "." ∷ text ".." ∷ text "old" ∷ text "ann" ∷ text "no pin" ∷ text "older" ∷ []), m);
  unlink = λ m path. (0, record m { disk = m.disk ++ (path ++ text ";") });
}

abbrev pinned : Loading pins
pinned = record { world = log_machine; filters = both; stats = no_stats }

abbrev entries : List Bytes
entries = text "old" ∷ text "ann" ∷ text "no pin" ∷ text "older" ∷ []

pins_listed : (list_dir pins config.pin_root pinned.world).0 ≡ ok entries
unfolding list_dir kbloomd.Recovery.list_dir_loop kbloomd.Recovery.list_room text same
pins_listed = refl

old_orphans : orphans config.pin_root both.items entries ≡ text "old" ∷ text "older" ∷ []
unfolding orphans goes has_name text name_is_valid same
old_orphans = refl

old_removed :
    (unlink_each pins config.pin_root
      (orphans config.pin_root both.items entries)
      (list_dir pins config.pin_root pinned.world).1).disk
    ≡ text "/pins/old;/pins/older;"
unfolding orphans goes has_name text name_is_valid same list_dir kbloomd.Recovery.list_dir_loop
    kbloomd.Recovery.list_room unlink_each
old_removed = refl

cleanup_orphan_pins-orphans_example :
    ((cleanup_orphan_pins pins config pinned).1.world
      ≡ unlink_each pins config.pin_root
          (orphans config.pin_root both.items entries)
          (list_dir pins config.pin_root pinned.world).1)
    × All
        (λ x. is_among (orphans config.pin_root both.items entries) x.meta.name ≡ false)
        both.items
cleanup_orphan_pins-orphans_example =
    cleanup_orphan_pins-orphans pins config pinned entries both-IsValid pins_listed
