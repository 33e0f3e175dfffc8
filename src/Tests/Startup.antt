-- ===== src/Tests/Startup.antt =====
-- Applications of the theorems on the daemon as a whole.
use kbloomd.Common.{◌≡◌, ◌++◌, refl, [], ◌∷◌, text, true, false, some, replicate}
use kbloomd.FilterSet.{Filter, filter_set_init}
use kbloomd.FilterState.{now_ms, update_filter_meta_state}
use kbloomd.Daemon.{pool_empty}
use kbloomd.Frame.{response_init}
use kbloomd.Client.{read_header}
use kbloomd.MainLoop.{Server, round, sync_filter, close_timed_out_clients}
use kbloomd.MainLoop.Reachable.{IsServing, here, turn}
use kbloomd.MainLoop.Sync.{synced, sync_filter_clean}
use kbloomd.MainLoop.Clients.{AreTimely, close_timed_out_clients-AreTimely}
use kbloomd.Setup.{start, started, no_client, max_clients, parse_args}
use kbloomd.Setup.Options.{Fits, parse_args-Fits}
use kbloomd.Setup.Started.{main-IsServing}
use kbloomd.Tests.{Machine, toy, sent}
use kbloomd.Tests.Platforms.{toy-IoLaws, toy-StreamLaws}
use kbloomd.Tests.Filters.{ann, machine}
use kbloomd.Tests.Clients.{config, no_stats, with_ping}

abbrev waiting_server : Server toy
waiting_server = record {
  clients = replicate max_clients no_client;
  state = record {
    world = machine;
    filters = filter_set_init;
    stats = no_stats;
    pool = pool_empty;
    resp = response_init 0 0;
  };
}

daemon_started : start toy config machine ≡ started 5 waiting_server
unfolding start kbloomd.Setup.prepare_roots kbloomd.Setup.socket_parent text
    kbloomd.MetaFile.last_slash kbloomd.Setup.ensure_roots kbloomd.Setup.ensure_dir
    kbloomd.Setup.ensure_parents kbloomd.Setup.is_bpffs kbloomd.Bpf.bpf_probe_support
    kbloomd.Setup.start_loading kbloomd.Recovery.Load.load_metadata_dir kbloomd.Recovery.list_dir
    kbloomd.Recovery.list_dir_loop kbloomd.Recovery.Load.load_loop
    kbloomd.Recovery.Pins.cleanup_orphan_pins kbloomd.Recovery.Pins.cleanup_loop
    kbloomd.Setup.start_listening kbloomd.Setup.install_signal_handlers kbloomd.Setup.listen_socket
    kbloomd.Setup.listen_bound kbloomd.MainLoop.set_nonblocking kbloomd.FilterSet.filter_set_init
daemon_started = refl

main-IsServing_example : IsServing toy max_clients (round toy config 5 waiting_server).1
main-IsServing_example =
    main-IsServing toy config machine 5 waiting_server (round toy config 5 waiting_server).1
      (round toy config 5 waiting_server).0 daemon_started (turn waiting_server here refl)

-- A filter with data whose log is complete but for a digest in its buffer.
abbrev dirty_ann : Filter
dirty_ann = record ann { log_dirty = true; log_buf = text "0123456789abcdef" }

ann_marked : (sync_filter toy 9 dirty_ann machine).0.meta.log_clean ≡ true
unfolding sync_filter kbloomd.Log.log_buffer_flush kbloomd.FilterState.update_filter_meta_state
    kbloomd.MetaFile.meta_write_atomic text
ann_marked = refl

sync_filter_clean_example :
    (w1 : Machine) × (sent w1 3 ≡ sent machine 3 ++ dirty_ann.log_buf)
    × ((toy.fsync w1 3).0 ≡ 0)
    × ((sync_filter toy 9 dirty_ann machine).1
        ≡ (update_filter_meta_state toy (synced toy 9 dirty_ann) true true (toy.fsync w1 3).1).2)
    × ((sync_filter toy 9 dirty_ann machine).0.log_buf ≡ [])
    × ((sync_filter toy 9 dirty_ann machine).0.log_dirty ≡ false)
    × (dirty_ann.log_history_incomplete ≡ false)
    × (dirty_ann.meta.has_data ≡ true)
sync_filter_clean_example =
    sync_filter_clean toy toy-IoLaws sent toy-StreamLaws 9 3 dirty_ann machine refl refl ann_marked

-- One client that was last active at 7000 ms, and one that never was.
abbrev two_clients : Server toy
two_clients = record {
  clients =
      record no_client { fd = some 6; state = read_header; last_activity_ms = 6500 }
      ∷ record no_client { fd = some 7; state = read_header; last_activity_ms = 1000 }
      ∷ [];
  state = with_ping;
}

close_timed_out_clients-AreTimely_example :
    AreTimely
      (now_ms toy two_clients.state.world).0
      (close_timed_out_clients toy two_clients).clients
close_timed_out_clients-AreTimely_example = close_timed_out_clients-AreTimely toy two_clients

parse_args-Fits_example :
    Fits toy (parse_args toy (text "--socket-mode" ∷ text "7" ∷ text "--foreground" ∷ []))
parse_args-Fits_example =
    parse_args-Fits toy (text "--socket-mode" ∷ text "7" ∷ text "--foreground" ∷ [])
