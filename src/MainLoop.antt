-- ===== src/MainLoop.antt =====
-- The loop of `main` in src/daemon.c: waiting for clients, accepting and driving them, closing those
-- that are silent for too long, and writing the logs of dirty filters to disk.
pub mod Sync
pub mod Clients
pub mod Driven
pub mod Reachable
use kbloomd.Common.{
  ℕ, zero, suc, ◌+◌, ◌-◌, ◌^◌, Bool, true, false, not, ◌&&◌, ◌||◌, Option, none, some, List, [],
  ◌∷◌, Bytes, Result, ok, err, length, get_elem?, get_or, set, ◌==◌, ltb, if◌then◌else◌, bit_and,
  bit_or, eintr, eagain, hang, replicate,
}
use kbloomd.Platform.{Platform, PollFd}
use kbloomd.Wire.{u64}
use kbloomd.Bpf.{done, fail}
use kbloomd.Log.{log_buffer_flush}
use kbloomd.FilterSet.{Filter, FilterSet, filter_set_free}
use kbloomd.FilterState.{now_ms, update_filter_meta_state}
use kbloomd.Daemon.{Config, Stats, State, next_count, close_empty_pool}
use kbloomd.Client.{
  ClientState, empty, write_response, Client, Drive, waiting, finished, broken, client_init,
  client_close, client_drive_read, client_drive_write,
}

-- BLOOMD_LOG_SYNC_INTERVAL_MS
abbrev pub log_sync_interval_ms : ℕ
log_sync_interval_ms = 250

-- BLOOMD_REQ_TIMEOUT_MS
abbrev pub req_timeout_ms : ℕ
req_timeout_ms = 5000

-- BLOOMD_POLL_TIMEOUT_MS
abbrev pub poll_timeout_ms : ℕ
poll_timeout_ms = 250

-- `now - last` of two `uint64_t`.
unfoldable pub elapsed : ℕ → ℕ → ℕ
elapsed now last = u64 (now + 2 ^ 64 - last)

unfoldable pub is_empty : ClientState → Bool
is_empty empty = true
is_empty _ = false

unfoldable pub is_writing : ClientState → Bool
is_writing write_response = true
is_writing _ = false

-- POLLIN, POLLOUT, and POLLERR | POLLHUP | POLLNVAL
abbrev pub pollin : ℕ
pollin = 1

abbrev pub pollout : ℕ
pollout = 4

abbrev pub poll_failed : ℕ
poll_failed = 56

-- The index that `bloomd_find_free_client` finds, from index `i` on.
unfoldable pub find_free_client : List Client → ℕ → Option ℕ
find_free_client [] i = none
find_free_client (client ∷ rest) i =
    let later = find_free_client rest (i + 1) in if is_empty client.state then some i else later

-- The entries of `pollfds` behind the first, with the index of the client of each.
unfoldable pub poll_entries : List Client → ℕ → List (ℕ × PollFd)
poll_entries [] i = []
poll_entries (client ∷ rest) i =
    let later = poll_entries rest (i + 1) in
    let entry : PollFd = record {
      fd = client.fd;
      events = if is_writing client.state then pollout else pollin;
    } in
    if is_empty client.state then later else ((i, entry) ∷ later)

unfoldable pub fds_of : List (ℕ × PollFd) → List PollFd
fds_of [] = []
fds_of ((i, entry) ∷ rest) = entry ∷ fds_of rest

module _ (P : Platform) where
  open P use {
    World, interrupts, connections_left, stopping, accept, poll, get_flags, set_flags, close,
    unlink,
  }

  -- What the loop works on.
  pub record Server : Type 0 where
    pub clients : List Client
    pub state : State P

  -- bloomd_set_nonblocking; O_NONBLOCK is 0x800.
  unfoldable pub set_nonblocking : ℕ → World → ℕ × World
  set_nonblocking fd w =
      let (flags, w1) = get_flags w fd in
      elim flags [ err e ↦ (e, w1) | ok n ↦ set_flags w1 fd (bit_or n 0x800) ]

  -- A filter whose turn it is: written out, and its metadata marked clean if its history may be.
  unfoldable pub sync_filter : ℕ → Filter → World → Filter × World
  sync_filter now filter w =
      let (rc, buf, w1) = log_buffer_flush P filter.log_fd filter.log_buf true w in
      let tried : Filter = record filter { log_buf = buf; last_log_sync_ms = now } in
      let clean : Filter = record tried { log_dirty = false } in
      let (r, marked, w2) = update_filter_meta_state P clean true true w1 in
      if not (rc == 0)
      then (tried, w1)
      else if filter.meta.has_data && not filter.meta.log_clean && not filter.log_history_incomplete
      then (marked, w2)
      else (clean, w1)

  -- The loop of `bloomd_sync_dirty_logs`.
  unfoldable pub sync_dirty_logs : ℕ → Bool → List Filter → World → List Filter × World
  sync_dirty_logs now force [] w = ([], w)
  sync_dirty_logs now force (filter ∷ rest) w =
      let waits =
        not filter.log_dirty
        || not force && ltb (elapsed now filter.last_log_sync_ms) log_sync_interval_ms in
      let (synced, w1) = if waits then (filter, w) else sync_filter now filter w in
      let (others, w2) = sync_dirty_logs now force rest w1 in (synced ∷ others, w2)

  -- `bloomd_sync_dirty_logs` on the filters of the daemon, with the time of the call.
  unfoldable pub sync_server : Bool → Server → Server
  sync_server force s =
      let (now, w1) = now_ms P s.state.world in
      let (items, w2) = sync_dirty_logs now force s.state.filters.items w1 in
      record s {
        state = record s.state { world = w2; filters = record s.state.filters { items = items } };
      }

  -- A connection taken from the queue: into a free slot, or closed.
  unfoldable pub accept_client : ℕ → List Client → Stats → World → List Client × Stats × World
  accept_client fd clients stats w =
      let (rc, w1) = set_nonblocking fd w in
      let (client, w2) = client_init P fd w1 in
      elim (find_free_client clients 0) [
        | none ↦ (clients, stats, close w fd)
        | some i ↦ if not (rc == 0) then (clients, stats, close w1 fd) else (
          set clients i client,
          record stats { accepted_connections = next_count stats.accepted_connections },
          w2,
        )
      ]

  -- The loop of `bloomd_accept_ready`; the number is 0, or `hang` where the fuel ran out.
  unfoldable pub accept_loop : ℕ → ℕ → List Client → Stats → World → ℕ × List Client × Stats × World
  accept_loop zero listen_fd clients stats w = (hang, clients, stats, w)
  accept_loop (suc fuel) listen_fd clients stats w =
      let (r, w1) = accept w listen_fd in
      let retry = accept_loop fuel listen_fd clients stats w1 in
      let next = λ (fd : ℕ).
        (let (clients1, stats1, w2) = accept_client fd clients stats w1 in
          accept_loop fuel listen_fd clients1 stats1 w2) in
      elim r [ err e ↦ if e == eintr then retry else (0, clients, stats, w1) | ok fd ↦ next fd ]

  unfoldable pub accept_ready : ℕ → Server → Server
  accept_ready listen_fd s =
      let w = s.state.world in
      let (rc, clients, stats, w1) =
        accept_loop (suc (connections_left w + interrupts w)) listen_fd s.clients s.state.stats w in
      record { clients = clients; state = record s.state { stats = stats; world = w1 } }

  -- The loop of `bloomd_close_timed_out_clients`.
  unfoldable pub close_late : ℕ → List Client → World → List Client × World
  close_late now [] w = ([], w)
  close_late now (client ∷ rest) w =
      let late = ltb req_timeout_ms (elapsed now client.last_activity_ms) in
      let (kept, w1) =
        if is_empty client.state
        then (client, w)
        else if late
        then client_close P client w
        else (client, w) in
      let (others, w2) = close_late now rest w1 in (kept ∷ others, w2)

  unfoldable pub close_timed_out_clients : Server → Server
  close_timed_out_clients s =
      let (now, w1) = now_ms P s.state.world in
      let (clients, w2) = close_late now s.clients w1 in
      record { clients = clients; state = record s.state { world = w2 } }

  -- After `io_rc`: a client that failed is closed.
  unfoldable pub drive_ended : Drive × Client × State P → Client × State P
  drive_ended (broken e, client, s) =
      let (closed, w) = client_close P client s.world in (closed, record s { world = w })
  drive_ended (waiting, client, s) = (client, s)
  drive_ended (finished, client, s) = (client, s)

  -- A response that a read has finished is written at once.
  unfoldable pub drive_after_read : Drive × Client × State P → Drive × Client × State P
  drive_after_read (finished, client, s) =
      if is_writing client.state then client_drive_write P client s else (finished, client, s)
  drive_after_read (waiting, client, s) = (waiting, client, s)
  drive_after_read (broken e, client, s) = (broken e, client, s)

  unfoldable pub drive_client : Config → Client → State P → Drive × Client × State P
  drive_client cfg client s =
      if is_writing client.state
      then client_drive_write P client s
      else drive_after_read (client_drive_read P client cfg s)

  -- One client that `poll` reports on.
  unfoldable pub serve_client : Config → ℕ → Client → State P → Client × State P
  serve_client cfg revents client s =
      let (closed, w) = client_close P client s.world in
      if is_empty client.state
      then (client, s)
      else if not (bit_and revents poll_failed == 0)
      then (closed, record s { world = w })
      else if is_writing client.state && not (bit_and revents pollout == 0)
          || not (is_writing client.state) && not (bit_and revents pollin == 0)
      then drive_ended (drive_client cfg client s)
      else (client, s)

  -- The client at an index, which is never out of range.
  unfoldable pub serve_at : Config → ℕ → ℕ → Option Client → Server → Server
  serve_at cfg i revents none s = s
  serve_at cfg i revents (some client) s =
      let (client1, state1) = serve_client cfg revents client s.state in
      record { clients = set s.clients i client1; state = state1 }

  unfoldable pub rest_of : List ℕ → List ℕ
  rest_of [] = []
  rest_of (r ∷ rest) = rest

  -- The loop over the entries; past the list that `poll` gave, nothing is reported.
  unfoldable pub serve_loop : Config → List (ℕ × PollFd) → List ℕ → Server → Server
  serve_loop cfg [] revents s = s
  serve_loop cfg ((i, entry) ∷ more) revents s =
      serve_loop cfg more (rest_of revents)
        (serve_at cfg i (get_or revents 0 0) (get_elem? s.clients i) s)

  -- The part of a round after `poll`.
  unfoldable pub polled : Config → ℕ → List (ℕ × PollFd) → List ℕ → Server → Server
  polled cfg listen_fd entries revents s =
      let s1 = if bit_and (get_or revents 0 0) pollin == 0 then s else accept_ready listen_fd s in
      let s2 = serve_loop cfg entries (rest_of revents) s1 in
      sync_server false (close_timed_out_clients s2)

  -- One round: whether the loop goes on, and what it leaves.
  unfoldable pub round : Config → ℕ → Server → Bool × Server
  round cfg listen_fd s =
      let entries = poll_entries s.clients 0 in
      let listening : PollFd = record { fd = some listen_fd; events = pollin } in
      let (r, w1) = poll s.state.world (listening ∷ fds_of entries) poll_timeout_ms in
      let s1 : Server = record s { state = record s.state { world = w1 } } in
      elim r [
        | err e ↦ if e == eintr then (true, s1) else (false, s1)
        | ok revents ↦ (true, polled cfg listen_fd entries revents s1)
      ]

  -- Closing the clients that are left.
  unfoldable pub close_clients : List Client → World → List Client × World
  close_clients [] w = ([], w)
  close_clients (client ∷ rest) w =
      let (closed, w1) = if is_empty client.state then (client, w) else client_close P client w in
      let (others, w2) = close_clients rest w1 in (closed ∷ others, w2)

  -- What follows the loop.
  unfoldable pub shut_down : Config → ℕ → Server → Server
  shut_down cfg listen_fd s =
      let s1 = sync_server true s in
      let (clients, w1) = close_clients s1.clients s1.state.world in
      let w2 = (unlink (close w1 listen_fd) cfg.socket_path).1 in
      let (filters, w3) = filter_set_free P s1.state.filters w2 in
      let (pool, w4) = close_empty_pool P s1.state.pool w3 in
      record {
        clients = clients;
        state = record s1.state { filters = filters; pool = pool; world = w4 };
      }
