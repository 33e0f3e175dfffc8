-- ===== src/Tests/Clients.antt =====
-- Applications of the theorems on connections.
use kbloomd.Common.{
  ℕ, ◌≡◌, ◌≤◌, ◌≢◌, ◌++◌, refl, arith, hang, length, take, drop, [], ◌∷◌, some, text,
}
use kbloomd.Wire.{store_u32}
use kbloomd.Buffer.{buffer_init}
use kbloomd.Frame.{Request, header_bytes, response_init}
use kbloomd.FilterSet.{filter_set_init}
use kbloomd.FilterSet.Valid.{IsValid}
use kbloomd.FilterState.{periodic, raw_fd}
use kbloomd.Daemon.{Config, Stats, pool_empty, State}
use kbloomd.Dispatch.{dispatch}
use kbloomd.Dispatch.Preserves.{dispatch-IsValid}
use kbloomd.Client.{
  Client, read_header, write_response, finished, broken, zero_header, zero_request,
  client_drive_read, client_drive_write,
}
use kbloomd.Client.ReadSide.{client_drive_read-ne-finished}
use kbloomd.Client.WriteSide.{response_bytes, IsPrepared}
use kbloomd.Client.Responses.{Stands, client_drive_write-Stands}
use kbloomd.Client.Ends.{client_drive_write-ne-hang}
use kbloomd.Tests.{toy, sent}
use kbloomd.Tests.Platforms.{toy-IoLaws, toy-StreamLaws, toy-FileLaws}
use kbloomd.Tests.Filters.{both, both-IsValid}

abbrev pub config : Config
config = record {
  socket_path = text "/run/bloomd.sock";
  pin_root = text "/pins";
  meta_root = text "/state";
  socket_mode = 438;
  log_sync_mode = periodic;
}

abbrev pub no_stats : Stats
no_stats = record {
  requests = 0;
  responses = 0;
  errors = 0;
  accepted_connections = 0;
  filters_loaded = 0;
  filters_created = 0;
  filters_dropped = 0;
  orphan_meta = 0;
  orphan_pin = 0;
  empty_pool_hits = 0;
  empty_pool_misses = 0;
}

-- A whole PING frame waits to be read.
abbrev pub with_ping : State toy
with_ping = record {
  filters = filter_set_init;
  stats = no_stats;
  pool = pool_empty;
  resp = response_init 0 0;
  world = record {
    disk = [];
    input = 66 ∷ 76 ∷ 77 ∷ 49 ∷ 1 ∷ 1 ∷ 0 ∷ 0 ∷ 9 ∷ 0 ∷ 0 ∷ 0 ∷ 0 ∷ 0 ∷ 0 ∷ 0 ∷ [];
    digests = [];
    plans = [];
  };
}

abbrev fresh : Client
fresh = record {
  fd = some 5;
  state = read_header;
  last_activity_ms = 0;
  header_read = [];
  req_body = buffer_init;
  req = zero_request;
  resp = response_init 0 0;
  out_header = zero_header;
  write_offset = 0;
}

client_drive_read-ne-finished_example : (client_drive_read toy fresh config with_ping).0 ≢ finished
client_drive_read-ne-finished_example = client_drive_read-ne-finished toy fresh config with_ping

-- A request to drop the filter `bob`.
abbrev drop_bob : Request
drop_bob = record {
  header = record zero_header { opcode = 9; body_len = 11 };
  body = 3 ∷ 0 ∷ 0 ∷ 0 ∷ 0 ∷ 0 ∷ 0 ∷ 0 ∷ 98 ∷ 111 ∷ 98 ∷ [];
}

abbrev with_both : State toy
with_both = record with_ping { filters = both }

dispatch-IsValid_example : IsValid (dispatch toy config drop_bob with_both).1.filters
dispatch-IsValid_example = dispatch-IsValid toy config drop_bob with_both both-IsValid

-- A client with one byte of its header and two of its body to send.
abbrev answering : Client
answering = record fresh {
  state = write_response;
  resp = record { header = zero_header; body = record { bytes = 1 ∷ 2 ∷ []; cap = 2 } };
  write_offset = 15;
}

answering-IsPrepared : IsPrepared answering
unfolding header_bytes store_u32
answering-IsPrepared = refl

answering_within : answering.write_offset ≤ length (response_bytes answering)
unfolding header_bytes store_u32
answering_within = omega arith

client_drive_write-Stands_example :
    (count : ℕ) × (sent (client_drive_write toy answering with_ping).2.world (raw_fd answering.fd)
      ≡ sent with_ping.world (raw_fd answering.fd)
        ++ take count (drop answering.write_offset (response_bytes answering)))
    × Stands answering count
        (client_drive_write toy answering with_ping).0
        (client_drive_write toy answering with_ping).1
client_drive_write-Stands_example =
    client_drive_write-Stands toy toy-IoLaws sent toy-StreamLaws toy-FileLaws answering with_ping
      answering-IsPrepared answering_within

client_drive_write-ne-hang_example : (client_drive_write toy answering with_ping).0 ≢ broken hang
client_drive_write-ne-hang_example =
    client_drive_write-ne-hang toy toy-IoLaws answering with_ping answering-IsPrepared
      answering_within
