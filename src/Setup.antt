-- ===== src/Setup.antt =====
-- How the daemon gets ready: the options of src/daemon.c, the directories and modes of src/util.c,
-- the listening socket, and the start of `main` up to its loop.
pub mod Options
pub mod Started
use kbloomd.Common.{
  ℕ, zero, suc, ◌+◌, ◌-◌, ◌*◌, ◌/◌, ◌%◌, ◌^◌, Bool, true, false, not, ◌&&◌, ◌||◌, Option, none,
  some, List, [], ◌∷◌, ◌++◌, Bytes, String, text, Result, ok, err, length, take, replicate, same,
  ◌==◌, ltb, leb, if◌then◌else◌, einval, enametoolong, eexist,
}
use kbloomd.Platform.{Platform, SignalAction, stop_on_signal, ignore_signal}
use kbloomd.Wire.{byte_at}
use kbloomd.Name.{path_max, name_is_valid}
use kbloomd.Bpf.{Outcome, done, fail, into_errbuf, bpf_probe_support}
use kbloomd.FilterSet.{filter_set_init, filter_set_free}
use kbloomd.FilterState.{SyncMode, periodic, always}
use kbloomd.Daemon.{Config, Stats, State, pool_empty, close_empty_pool}
use kbloomd.Frame.{response_init}
use kbloomd.Client.{ClientState, Client, zero_header, zero_request}
use kbloomd.Buffer.{buffer_init}
use kbloomd.MetaFile.{last_slash}
use kbloomd.MainLoop.{Server, set_nonblocking}
use kbloomd.Recovery.Load.{Loading, load_metadata_dir}
use kbloomd.Recovery.Pins.{cleanup_orphan_pins}

-- bloomd_config_defaults, less the two flags
unfoldable pub config_defaults : Config
config_defaults = record {
  socket_path = text "/run/bloomd.sock";
  pin_root = text "/sys/fs/bpf/bloomd";
  meta_root = text "/var/lib/bloomd";
  socket_mode = 0x1b6;
  log_sync_mode = periodic;
}

-- bloomd_validate_filter_name, with the message for an `errbuf`
unfoldable pub validate_filter_name : Bytes → Outcome (Unit {0})
validate_filter_name name =
    if not (name_is_valid name)
    then fail einval (text "invalid filter name: use 1-63 chars from [A-Za-z0-9_-]")
    else done tt

-- bloomd_parse_log_sync_mode
unfoldable pub parse_log_sync_mode : Bytes → Result SyncMode
parse_log_sync_mode value =
    if same value (text "periodic")
    then ok periodic
    else if same value (text "always")
    then ok always
    else err einval

-- bloomd_socket_parent, for a `parent` of `path_max` bytes: the path before its last slash.
unfoldable pub socket_parent : Bytes → Result Bytes
socket_parent path =
    if leb path_max (length path) then err enametoolong else (elim (last_slash path) [
      | none ↦ err einval
      | some [] ↦ err einval
      | some (c ∷ before) ↦ ok (c ∷ before)
    ])

-- What the loop over the arguments comes to: a configuration, an answer such as `--help`, or an
-- error.
pub data Args : Type 0 where
  run : Config → Args
  answered : Args
  bad : ℕ → Args

-- An argument that stands by itself, with what the rest comes to.
unfoldable pub parse_flag : Bytes → Args → Args
parse_flag arg rest =
    if same arg (text "--foreground")
    then rest
    else if same arg (text "--help")
    then answered
    else if same arg (text "--version")
    then answered
    else bad einval

-- `snprintf` of a path into an array of PATH_MAX bytes
unfoldable pub into_path : Bytes → Bytes
into_path value = take (path_max - 1) value

-- A slot of `clients` before the loop; what `main` leaves unset there is not read.
abbrev pub no_client : Client
no_client = record {
  fd = none;
  state = ClientState.empty;
  last_activity_ms = 0;
  header_read = [];
  req_body = buffer_init;
  req = zero_request;
  resp = response_init 0 0;
  out_header = zero_header;
  write_offset = 0;
}

abbrev pub zero_stats : Stats
zero_stats = record {
  requests = 0;
  responses = 0;
  errors = 0;
  accepted_connections = 0;
  filters_loaded = 0;
  filters_created = 0;
  filters_dropped = 0;
  orphan_meta = 0;
  orphan_pin = 0;
  empty_pool_hits = 0;
  empty_pool_misses = 0;
}

-- BLOOMD_MAX_CLIENTS
abbrev pub max_clients : ℕ
max_clients = 128

module _ (P : Platform) where
  open P use {
    World, strtoul, mkdir, statfs_type, set_timeout, socket, bind, chmod, listen, unlink, close,
    sigaction,
  }

  unfoldable pub parse_octal_mode : Bytes → Result ℕ
  parse_octal_mode value =
      let r = strtoul value 8 in
      if byte_at value 0 == 0
      then err einval
      else if not (r.errno == 0)
          || r.stop == 0
          || not (byte_at value r.stop == 0)
          || ltb 0x1ff r.value
      then err einval
      else ok r.value

  -- The options that take a value; `none` is none of them.
  unfoldable pub parse_option : Bytes → Bytes → Config → Option (Result Config)
  parse_option arg value cfg =
      if same arg (text "--socket")
      then some (ok (record cfg { socket_path = into_path value }))
      else if same arg (text "--pin-root")
      then some (ok (record cfg { pin_root = into_path value }))
      else if same arg (text "--meta-root")
      then some (ok (record cfg { meta_root = into_path value }))
      else if same arg (text "--socket-mode")
      then some (elim (parse_octal_mode value) [
        | err e ↦ err einval
        | ok mode ↦ ok (record cfg { socket_mode = mode })
      ])
      else if same arg (text "--log-sync-mode")
      then some (elim (parse_log_sync_mode value) [
        | err e ↦ err einval
        | ok mode ↦ ok (record cfg { log_sync_mode = mode })
      ])
      else none

  -- The loop of `bloomd_parse_args`.
  unfoldable pub parse_args_loop : List Bytes → Config → Args
  parse_args_loop [] cfg = run cfg
  parse_args_loop (arg ∷ []) cfg = parse_flag arg (run cfg)
  parse_args_loop (arg ∷ value ∷ more) cfg =
      let as_flag = parse_flag arg (parse_args_loop (value ∷ more) cfg) in
      let next = λ (cfg1 : Config). parse_args_loop more cfg1 in
      elim (parse_option arg value cfg) [
        | none ↦ as_flag
        | some (err e) ↦ bad e
        | some (ok cfg1) ↦ next cfg1
      ]

  -- The arguments behind the name of the program.
  unfoldable pub parse_args : List Bytes → Args
  parse_args argv = parse_args_loop argv config_defaults

  -- The loop of `bloomd_ensure_dir`: `before` is what stands in front of `p`.
  unfoldable pub ensure_parents : Bytes → Bytes → ℕ → World → ℕ × World
  ensure_parents before [] mode w = (0, w)
  ensure_parents before (c ∷ rest) mode w =
      let (rc, w1) = mkdir w before mode in
      let skipped = ensure_parents (before ++ (c ∷ [])) rest mode w in
      let next = ensure_parents (before ++ (c ∷ [])) rest mode w1 in
      if not (c == b'/')
      then skipped
      else if not (rc == 0) && not (rc == eexist)
      then (rc, w1)
      else next

  unfoldable pub ensure_dir : Bytes → ℕ → Bool → World → ℕ × World
  ensure_dir [] mode allow_existing w = (einval, w)
  ensure_dir (c ∷ rest) mode allow_existing w =
      let (rc, w1) = ensure_parents (c ∷ []) rest mode w in
      let (rc2, w2) = mkdir w1 (c ∷ rest) mode in
      if leb path_max (length (c ∷ rest))
      then (enametoolong, w)
      else if not (rc == 0)
      then (rc, w1)
      else if rc2 == 0
      then (0, w2)
      else if rc2 == eexist && allow_existing
      then (0, w2)
      else (rc2, w2)

  -- BPF_FS_MAGIC is 0xcafe4a11.
  unfoldable pub is_bpffs : Bytes → World → Bool × World
  is_bpffs path w =
      let (r, w1) = statfs_type w path in
      elim r [ err e ↦ (false, w1) | ok type ↦ (type == 0xcafe4a11, w1) ]

  -- SO_RCVTIMEO is 20 and SO_SNDTIMEO is 21; the time is above 0 wherever it is not refused.
  unfoldable pub set_socket_timeouts : ℕ → ℕ → World → ℕ × World
  set_socket_timeouts fd timeout_ms w =
      let tv : ℕ × ℕ = (timeout_ms / 1000, timeout_ms % 1000 * 1000) in
      let (rc, w1) = set_timeout w fd 20 tv in
      let (rc2, w2) = set_timeout w1 fd 21 tv in
      if timeout_ms == 0 then (einval, w) else if not (rc == 0) then (rc, w1) else (rc2, w2)

  -- The directories of `bloomd_prepare_roots` in their order, with the message of each; 0x1ed is 0755.
  unfoldable pub ensure_roots : List (Bytes × Bytes) → World → Outcome (Unit {0}) × World
  ensure_roots [] w = (done tt, w)
  ensure_roots ((path, message) ∷ more) w =
      let (rc, w1) = ensure_dir path 0x1ed true w in
      let rest = ensure_roots more w1 in if not (rc == 0) then (fail rc message, w1) else rest

  unfoldable pub prepare_roots : Config → World → Outcome (Unit {0}) × World
  prepare_roots cfg w = elim (socket_parent cfg.socket_path) [
    | err e ↦ (fail e (text "invalid socket path"), w)
    | ok parent ↦
        let (r, w1) =
          ensure_roots
            ((parent, text "could not create socket directory")
              ∷ (cfg.meta_root, text "could not create metadata directory")
              ∷ (cfg.pin_root, text "could not create pin directory")
              ∷ [])
            w in
        let (on_bpffs, w2) = is_bpffs cfg.pin_root w1 in
        elim r [
          | fail rc message ↦ (fail rc message, w1)
          | done t ↦
              (if not on_bpffs then fail einval (text "pin root is not on bpffs") else done tt, w2)
        ]
  ]

  -- SIGINT is 2, SIGTERM 15 and SIGPIPE 13.
  unfoldable pub install_signal_handlers : World → ℕ × World
  install_signal_handlers w =
      let (rc, w1) = sigaction w 2 stop_on_signal in
      let (rc2, w2) = sigaction w1 15 stop_on_signal in
      let (rc3, w3) = sigaction w2 13 ignore_signal in
      if not (rc == 0) then (rc, w1) else if not (rc2 == 0) then (rc2, w2) else (rc3, w3)

  -- The steps behind `bind`, each of which closes and removes the socket when it fails.
  unfoldable pub listen_bound : Bytes → ℕ → ℕ → World → Result ℕ × World
  listen_bound path mode fd w =
      let give_up = λ (w' : World). (unlink (close w' fd) path).1 in
      let (rc, w1) = chmod w path mode in
      let (rc2, w2) = listen w1 fd 32 in
      let (rc3, w3) = set_nonblocking P fd w2 in
      if not (rc == 0)
      then (err rc, give_up w1)
      else if not (rc2 == 0)
      then (err rc2, give_up w2)
      else if not (rc3 == 0)
      then (err rc3, give_up w3)
      else (ok fd, w3)

  -- bloomd_listen_socket; `sun_path` has 108 bytes.
  unfoldable pub listen_socket : Bytes → ℕ → World → Result ℕ × World
  listen_socket path mode w =
      let (r, w1) = socket w in
      let w2 = (unlink w1 path).1 in
      elim r [
        | err e ↦ (err e, w1)
        | ok fd ↦
            let (rc, w3) = bind w2 fd (take 107 path) in
            if not (rc == 0) then (err rc, close w3 fd) else listen_bound path mode fd w3
      ]

  -- How `main` comes to its loop: with a listening socket, or not, with exit code 1.
  pub data Start : Type 0 where
    started : ℕ → Server P → Start
    exited : World → Start

  -- The way out after the filters were loaded.
  unfoldable pub give_up_start : Loading P → Start
  give_up_start l = exited (close_empty_pool P pool_empty (filter_set_free P l.filters l.world).1).1

  -- The signal handlers and the socket.
  unfoldable pub start_listening : Config → Loading P → Start
  start_listening cfg l =
      let (rc, w1) = install_signal_handlers l.world in
      let (r, w2) = listen_socket cfg.socket_path cfg.socket_mode w1 in
      let server = λ (w : World).
        (let s : Server P = record {
          clients = replicate max_clients no_client;
          state = record {
            world = w;
            filters = l.filters;
            stats = l.stats;
            pool = pool_empty;
            resp = response_init 0 0;
          };
        } in
          s) in
      if not (rc == 0) then give_up_start (record l { world = w1 }) else (elim r [
        | err e ↦ give_up_start (record l { world = w2 })
        | ok fd ↦ started fd (server w2)
      ])

  -- The filters are loaded and the pins of no filter removed.
  unfoldable pub start_loading : Config → World → Start
  start_loading cfg w =
      let empty_set : Loading P = record {
        world = w;
        filters = filter_set_init;
        stats = zero_stats;
      } in
      let (r, l) = load_metadata_dir P cfg empty_set in
      let (rc, l1) = cleanup_orphan_pins P cfg l in
      elim r [
        | fail e message ↦ give_up_start l
        | done t ↦ if not (rc == 0) then give_up_start l1 else start_listening cfg l1
      ]

  -- `main` from the parsed options to its loop.
  unfoldable pub start : Config → World → Start
  start cfg w =
      let (r, w1) = prepare_roots cfg w in
      let (probed, w2) = bpf_probe_support P w1 in
      elim r [
        | fail e message ↦ exited w1
        | done t ↦ (elim probed [ fail e message ↦ exited w2 | done u ↦ start_loading cfg w2 ])
      ]
