-- ===== src/Setup/Started.antt =====
-- The whole daemon of src/daemon.c: from the start of `main` through its loop.
use kbloomd.Common.{
  ℕ, ◌≡◌, arith, Bool, true, false, not, Result, ok, err, replicate, length-replicate,
  if◌then◌else◌, ◌==◌,
}
use mathlib.Core.Path.{subst}
use kbloomd.Platform.{Platform}
use kbloomd.Bpf.{Outcome, done, fail, bpf_probe_support}
use kbloomd.FilterSet.{filter_set_init}
use kbloomd.FilterSet.Valid.{IsValid}
use kbloomd.Daemon.{Config, pool_empty}
use kbloomd.Frame.{response_init}
use kbloomd.MainLoop.{Server}
use kbloomd.MainLoop.Reachable.{IsServing, Reach, Reach-IsServing}
use kbloomd.Recovery.Load.{Loading, load_metadata_dir}
use kbloomd.Recovery.Valid.{load_metadata_dir-IsValid}
use kbloomd.Recovery.Pins.{cleanup_orphan_pins}
use kbloomd.Recovery.Kept.{cleanup_orphan_pins-IsValid}
use kbloomd.Setup.{
  Start, started, exited, no_client, zero_stats, max_clients, give_up_start, start_listening,
  start_loading, start, prepare_roots, install_signal_handlers, listen_socket,
}

module _ (P : Platform) where
  open P use {World}

  -- A start that ended with a server ended with a well-formed one.
  abbrev Serves : Start P → Type 0
  Serves (started fd s) = IsServing P max_clients s
  Serves (exited w) = Unit

  start_listening-Serves :
      (cfg : Config) (l : Loading P) → IsValid l.filters → Serves (start_listening P cfg l)
  unfolding start_listening give_up_start
  start_listening-Serves cfg l v = chosen ((install_signal_handlers P l.world).0 == 0) (
      listened
        (listen_socket P cfg.socket_path cfg.socket_mode (install_signal_handlers P l.world).1))
    where
      opened : Result ℕ × World → Start P
      opened r = elim r.0 as (λ _. Start P) [
        | err e ↦ give_up_start P (record l { world = r.1 })
        | ok fd ↦ started fd (record {
          clients = replicate max_clients no_client;
          state = record {
            world = r.1;
            filters = l.filters;
            stats = l.stats;
            pool = pool_empty;
            resp = response_init 0 0;
          };
        })
      ]

      listened : (r : Result ℕ × World) → Serves (opened r)
      listened (err e, w) = tt
      listened (ok fd, w) = record { valid = v; slots_eq = length-replicate max_clients no_client }

      chosen :
          (b : Bool)
          → Serves (
              opened (
                listen_socket P cfg.socket_path cfg.socket_mode
                  (install_signal_handlers P l.world).1))
          → Serves (
              if not b
              then give_up_start P (record l { world = (install_signal_handlers P l.world).1 })
              else opened (
                  listen_socket P cfg.socket_path cfg.socket_mode
                    (install_signal_handlers P l.world).1))
      chosen true h = h
      chosen false h = tt

  start_loading-Serves : (cfg : Config) (w : World) → Serves (start_loading P cfg w)
  unfolding start_loading give_up_start
  start_loading-Serves cfg w =
      loaded (load_metadata_dir P cfg empty_set)
        (load_metadata_dir-IsValid P cfg empty_set no_filters)
    where
      empty_set : Loading P
      empty_set = record { world = w; filters = filter_set_init; stats = zero_stats }

      no_filters : IsValid filter_set_init
      no_filters =
          unfold filter_set_init in (record { named = tt; distinct = tt; room = omega arith })

      cleaned : Loading P → Start P
      cleaned l =
          let (rc, l1) = cleanup_orphan_pins P cfg l in
          if not (rc == 0) then give_up_start P l1 else start_listening P cfg l1

      cleaned-Serves : (l : Loading P) → IsValid l.filters → Serves (cleaned l)
      cleaned-Serves l v = ground (
        arith,
        start_listening-Serves cfg (cleanup_orphan_pins P cfg l).1
            (cleanup_orphan_pins-IsValid P cfg l v),
      )

      loaded :
          (r : Outcome (Unit {0}) × Loading P)
          → IsValid r.1.filters
          → Serves (elim r.0 as (λ _. Start P) [
            | fail e message ↦ give_up_start P r.1
            | done t ↦ cleaned r.1
          ])
      loaded (fail e message, l) v = tt
      loaded (done t, l) v = cleaned-Serves l v

  start-Serves : (cfg : Config) (w : World) → Serves (start P cfg w)
  unfolding start
  start-Serves cfg w = prepared (prepare_roots P cfg w)
    where
      probed :
          (r : Outcome (Unit {0}) × World)
          → Serves (elim r.0 as (λ _. Start P) [
            | fail e message ↦ exited r.1
            | done u ↦ start_loading P cfg r.1
          ])
      probed (fail e message, w2) = tt
      probed (done u, w2) = start_loading-Serves cfg w2

      prepared :
          (r : Outcome (Unit {0}) × World)
          → Serves (elim r.0 as (λ _. Start P) [
            | fail e message ↦ exited r.1
            | done t ↦ (elim (bpf_probe_support P r.1).0 as (λ _. Start P) [
              | fail e message ↦ exited (bpf_probe_support P r.1).1
              | done u ↦ start_loading P cfg (bpf_probe_support P r.1).1
            ])
          ])
      prepared (fail e message, w1) = tt
      prepared (done t, w1) = probed (bpf_probe_support P w1)

  -- From the start of main on, in every state that its loop reaches, whatever the directories
  -- held, the clients send and the system answers, the set of filters is well-formed (names are
  -- texts without NUL, no two filters have the same name, the array has room) and there are 128
  -- slots for clients.
  pub main-IsServing :
      (cfg : Config) (w : World) (fd : ℕ) (s0 s : Server P) (going : Bool)
      → start P cfg w ≡ started fd s0
      → Reach P cfg fd s0 going s
      → IsServing P max_clients s
  main-IsServing cfg w fd s0 s going e r =
      Reach-IsServing P cfg fd max_clients s0 s going (subst Serves e (start-Serves cfg w)) r
