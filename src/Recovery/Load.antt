-- ===== src/Recovery/Load.antt =====
-- `bloomd_load_metadata_dir` of src/daemon.c: the entries of the metadata directory one by one, the
-- kernel map of each opened, or made again, or the entry set aside.
use kbloomd.Common.{
  ℕ, Bool, true, false, not, ◌&&◌, ◌||◌, Option, none, some, List, [], ◌∷◌, ◌++◌, Bytes, text, ok,
  err, length, same, ◌==◌, leb, if◌then◌else◌, enoent, einval, bit_and, euclean,
}
use kbloomd.Platform.{Platform}
use kbloomd.Name.{path_max, build_log_path}
use kbloomd.Bpf.{
  Outcome, done, fail, into_errbuf, map_type_bloom_filter, bpf_open_pinned, bpf_create_map,
  bpf_get_map_info, bpf_unpin, bpf_close,
}
use kbloomd.Log.{log_close}
use kbloomd.FilterSet.{Meta, Filter, FilterSet, filter_set_find, filter_set_add}
use kbloomd.FilterState.{open_filter_log}
use kbloomd.Daemon.{Config, Stats, next_count}
use kbloomd.Handlers.Create.{new_filter}
use kbloomd.MetaRead.{meta_read_file, meta_recover_stale}
use kbloomd.Recovery.{
  has_suffix, meta_entry_name, path_has_name, path_under_root, list_dir, rebuild_from_log,
}

-- What an entry leads to: the next one, or the end of the start with an error.
pub data Step : Type 0 where
  next : Step
  stop : ℕ → Bytes → Step

module _ (P : Platform) where
  open P use {World, strerror}

  -- What the loop changes.
  pub record Loading : Type 0 where
    pub world : World
    pub filters : FilterSet
    pub stats : Stats

  unfoldable pub validate_open_pinned_map : Meta → ℕ → World → Outcome (Unit {0}) × World
  validate_open_pinned_map meta fd w =
      let (r, w1) = bpf_get_map_info P (some fd) w in
      elim r [
        | fail rc message ↦ (fail rc message, w1)
        | done info ↦ (
          if not (info.type == map_type_bloom_filter)
                || not (info.key_size == 0)
                || not (info.value_size == meta.value_size)
                || not (info.max_entries == meta.capacity)
                || not (bit_and info.map_extra 0x0f == meta.hashes)
              then fail einval (
                  into_errbuf
                    (text "pinned map parameters do not match metadata for " ++ meta.name))
              else done tt,
          w1,
        )
      ]

  -- `bloomd_meta_recover_stale` and the count, which the branches that give up an entry share.
  unfoldable pub set_aside : Bytes → Loading → Loading
  set_aside path l = record l {
    world = (meta_recover_stale P path l.world).1;
    stats = record l.stats { orphan_meta = next_count l.stats.orphan_meta };
  }

  -- The label `cleanup_entry`, with the map open.
  unfoldable pub cleanup_entry : Meta → ℕ → Option ℕ → Bool → Loading → Loading
  cleanup_entry meta fd log_fd unpin_on_error l =
      let w1 = log_close P log_fd false l.world in
      let w2 = if unpin_on_error then (bpf_unpin P meta.pin_path w1).1 else w1 in
      record l { world = bpf_close P (some fd) w2 }

  -- The filter with its log open, into the set.
  unfoldable pub load_add : Meta → ℕ → Bool → Filter → Loading → Step × Loading
  load_add meta fd unpin_on_error filter l =
      let (rc, filters, w1) = filter_set_add P l.filters filter l.world in
      if not (rc == 0)
      then (
        stop rc (into_errbuf (text "too many filters loaded")),
        cleanup_entry meta fd filter.log_fd unpin_on_error
            (record l { world = w1; filters = filters }),
      )
      else (
        next,
        record l {
          world = w1;
          filters = filters;
          stats = record l.stats { filters_loaded = next_count l.stats.filters_loaded };
        },
      )

  unfoldable pub load_filter : Meta → ℕ → Bool → Loading → Step × Loading
  load_filter meta fd unpin_on_error l =
      let filter : Filter = record (new_filter P meta fd) {
        log_history_incomplete = meta.has_data && not meta.log_clean;
      } in
      let (r, opened, w1) = open_filter_log P filter false l.world in
      if not meta.has_data then load_add meta fd unpin_on_error filter l else (elim r [
        | fail rc message ↦ (
          stop rc message,
          cleanup_entry meta fd opened.log_fd unpin_on_error (record l { world = w1 }),
        )
        | done t ↦ load_add meta fd unpin_on_error opened (record l { world = w1 })
      ])

  -- From the open map on.
  unfoldable pub load_mapped : Bytes → Meta → ℕ → Bool → Loading → Step × Loading
  load_mapped path meta fd unpin_on_error l =
      let (valid, w1) = validate_open_pinned_map meta fd l.world in
      let (found, filters) = filter_set_find l.filters meta.name in
      let l1 : Loading = record l { world = w1 } in
      let l2 : Loading = record l { world = w1; filters = filters } in
      elim valid [
        | fail rc message ↦ (stop rc message, cleanup_entry meta fd none unpin_on_error l1)
        | done t ↦ (elim found [
          | some i ↦ (next, cleanup_entry meta fd none unpin_on_error (set_aside path l2))
          | none ↦ load_filter meta fd unpin_on_error l2
        ])
      ]

  -- The pinned map is gone.
  unfoldable pub load_unpinned : Config → Bytes → Meta → Loading → Step × Loading
  load_unpinned cfg path meta l =
      let (made, w1) = bpf_create_map P meta.name meta.capacity meta.hashes l.world in
      let (rebuilt, placed, w2) = rebuild_from_log P cfg meta l.world in
      if not meta.has_data
      then (elim made [
        | done fd ↦ load_mapped path meta fd false (record l { world = w1 })
        | fail rc message ↦ (stop rc message, record l { world = w1 })
      ])
      else if not meta.log_clean
      then (
        stop euclean (
            into_errbuf (
              text "refusing rebuild for "
              ++ (meta.name ++ text ": replay log may be missing unsynced tail"))),
        l,
      )
      else (elim rebuilt [
        | done (fd, replayed) ↦ load_mapped path placed fd true (record l { world = w2 })
        | fail rc message ↦
            if rc == enoent
            then (next, set_aside path (record l { world = w2 }))
            else (stop rc message, record l { world = w2 })
      ])

  -- From the accepted metadata on.
  unfoldable pub load_accepted : Config → Bytes → Meta → Loading → Step × Loading
  load_accepted cfg path meta l = elim (build_log_path cfg.meta_root meta.name) [
    | err rc ↦
        (stop rc (into_errbuf (text "failed to derive digest log path for " ++ meta.name)), l)
    | ok log_path ↦
        let meta1 : Meta = record meta { log_path = log_path } in
        let (r, w1) = bpf_open_pinned P meta1.pin_path l.world in
        let l1 : Loading = record l { world = w1 } in
        elim r [
          | ok fd ↦ load_mapped path meta1 fd false l1
          | err e ↦ if e == enoent then load_unpinned cfg path meta1 l1 else (
            stop e (
                into_errbuf (
                  text "failed to open pinned map for "
                  ++ (meta.name ++ (text ": " ++ strerror e)))),
            l1,
          )
        ]
  ]

  -- The metadata file of an entry with a well-formed name.
  unfoldable pub load_named : Config → Bytes → Bytes → Loading → Step × Loading
  load_named cfg path entry_name l =
      let (r, w1) = meta_read_file P path l.world in
      let l1 : Loading = record l { world = w1 } in
      elim r [
        | err e ↦ (next, set_aside path l1)
        | ok meta ↦
            if not (same meta.name entry_name)
            then (next, set_aside path l1)
            else if not (path_under_root meta.pin_path cfg.pin_root)
                || not (path_has_name meta.pin_path meta.name)
            then (next, set_aside path l1)
            else load_accepted cfg path meta l1
      ]

  unfoldable pub load_entry : Config → Bytes → Loading → Step × Loading
  load_entry cfg entry l =
      let path = cfg.meta_root ++ (b'/' ∷ entry) in
      if not (has_suffix entry (text ".meta"))
      then (next, l)
      else if leb path_max (length path)
      then (next, l)
      else (elim (meta_entry_name entry) [
        | err e ↦ (next, l)
        | ok entry_name ↦ load_named cfg path entry_name l
      ])

  -- The loop over the entries.
  unfoldable pub load_loop : Config → List Bytes → Loading → Outcome (Unit {0}) × Loading
  load_loop cfg [] l = (done tt, l)
  load_loop cfg (entry ∷ more) l =
      let (step, l1) = load_entry cfg entry l in
      let rest = load_loop cfg more l1 in
      elim step [ stop rc message ↦ (fail rc message, l1) | next ↦ rest ]

  unfoldable pub load_metadata_dir : Config → Loading → Outcome (Unit {0}) × Loading
  load_metadata_dir cfg l =
      let (r, w1) = list_dir P cfg.meta_root l.world in
      let l1 : Loading = record l { world = w1 } in
      elim r [
        | err rc ↦
            if rc == enoent
            then (done tt, l1)
            else (fail rc (into_errbuf (text "failed to list metadata directory")), l1)
        | ok entries ↦ load_loop cfg entries l1
      ]
