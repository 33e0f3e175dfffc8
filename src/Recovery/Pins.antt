-- ===== src/Recovery/Pins.antt =====
-- `bloomd_cleanup_orphan_pins` of src/daemon.c.
use kbloomd.Common.{
  ℕ, not, Option, none, some, List, [], ◌∷◌, ◌++◌, Bytes, ok, err, length, ◌==◌, leb, if◌then◌else◌,
  enoent,
}
use kbloomd.Platform.{Platform}
use kbloomd.Name.{path_max, name_is_valid}
use kbloomd.FilterSet.{filter_set_find}
use kbloomd.Daemon.{Config, next_count}
use kbloomd.Recovery.{list_dir}
use kbloomd.Recovery.Load.{Loading}

module _ (P : Platform) where
  open P use {World, unlink}

  -- A pin with a valid name: a filter was found that has it, or it is removed.
  unfoldable pub cleanup_found : Config → Bytes → Option ℕ → Loading P → Loading P
  cleanup_found cfg entry (some i) l = l
  cleanup_found cfg entry none l =
      let path = cfg.pin_root ++ (b'/' ∷ entry) in
      let (rc, w1) = unlink l.world path in
      if leb path_max (length path)
      then l
      else if rc == 0
      then record l {
        world = w1;
        stats = record l.stats { orphan_pin = next_count l.stats.orphan_pin };
      }
      else record l { world = w1 }

  -- One entry of the directory.
  unfoldable pub cleanup_pin : Config → Bytes → Loading P → Loading P
  cleanup_pin cfg entry l =
      let (found, filters) = filter_set_find l.filters entry in
      if not (name_is_valid entry)
      then l
      else cleanup_found cfg entry found (record l { filters = filters })

  unfoldable pub cleanup_loop : Config → List Bytes → Loading P → Loading P
  cleanup_loop cfg [] l = l
  cleanup_loop cfg (entry ∷ more) l = cleanup_loop cfg more (cleanup_pin cfg entry l)

  unfoldable pub cleanup_orphan_pins : Config → Loading P → ℕ × Loading P
  cleanup_orphan_pins cfg l =
      let (r, w1) = list_dir P cfg.pin_root l.world in
      let l1 : Loading P = record l { world = w1 } in
      elim r [
        | err rc ↦ if rc == enoent then (0, l1) else (rc, l1)
        | ok entries ↦ (0, cleanup_loop cfg entries l1)
      ]
