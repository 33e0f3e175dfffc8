-- ===== src/Tests/Ctl.antt =====
-- Applications of the theorems on the client and on sending a frame.
use kbloomd.Common.{◌≡◌, refl, arith, [], ◌∷◌, ◌++◌, text, ok, length}
use kbloomd.Wire.{u32}
use kbloomd.Buffer.{buffer_init, buffer_append}
use kbloomd.Frame.{Response, Header, response_init, header_bytes}
use kbloomd.Frame.Send.{write_response, Sends, write_response-Sends}
use kbloomd.Daemon.{State, pool_empty, reply_append}
use kbloomd.Handlers.Info.{handle_list}
use kbloomd.Handlers.Add.{parse_name_payload}
use kbloomd.Client.{zero_header}
use kbloomd.Ctl.{build_payload_request}
use kbloomd.Ctl.Requests.{parse_name_payload-build_payload_request}
use kbloomd.Ctl.Replies.{show_list}
use kbloomd.Ctl.Listed.{name_lines, show_list-handle_list}
use kbloomd.Tests.{toy, sent}
use kbloomd.Tests.Platforms.{toy-VectorLaws}
use kbloomd.Tests.Filters.{both, machine}
use kbloomd.Tests.Clients.{no_stats}

abbrev answer : Response
answer = record { header = zero_header; body = record { bytes = 7 ∷ 8 ∷ []; cap = 16 } }

write_response-Sends_example :
    Sends toy sent toy-VectorLaws 3
      (header_bytes (record zero_header { body_len = u32 2 }) ++ (7 ∷ 8 ∷ []))
      machine
      (write_response toy 3 answer machine)
write_response-Sends_example = write_response-Sends toy sent toy-VectorLaws 3 answer machine

abbrev add_header : Header
add_header = record zero_header { body_len = 15 }

built_add : (build_payload_request toy (text "ann") (text "blue") buffer_init machine).0 ≡ 0
unfolding build_payload_request text kbloomd.Ctl.and_then buffer_append
    kbloomd.Ctl.payload_request_bytes kbloomd.Wire.store_u16 kbloomd.Wire.store_u32 buffer_init
    kbloomd.Ctl.append_name kbloomd.Name.name_is_valid
built_add = refl

built_length :
    15 ≡ length (build_payload_request toy (text "ann") (text "blue") buffer_init machine).1.bytes
unfolding build_payload_request text kbloomd.Ctl.and_then buffer_append
    kbloomd.Ctl.payload_request_bytes kbloomd.Wire.store_u16 kbloomd.Wire.store_u32 buffer_init
    kbloomd.Ctl.append_name kbloomd.Name.name_is_valid
built_length = refl

parse_name_payload-build_payload_request_example :
    parse_name_payload (record {
      header = add_header;
      body = (build_payload_request toy (text "ann") (text "blue") buffer_init machine).1.bytes;
    })
    ≡ ok (record {
      name = text "ann" ++ text "blue";
      name_len = length (text "ann");
      payload = text "blue";
    })
parse_name_payload-build_payload_request_example =
    parse_name_payload-build_payload_request toy add_header (text "ann") (text "blue") machine
      built_add built_length

abbrev listing : State toy
listing = record {
  filters = both;
  stats = no_stats;
  pool = pool_empty;
  resp = response_init 8 1;
  world = machine;
}

list_done : (handle_list toy listing).0 ≡ 0
unfolding handle_list reply_append buffer_append kbloomd.Wire.store_u32 response_init
    kbloomd.Handlers.Info.list_loop kbloomd.Wire.store_u16
list_done = refl

list_length : 14 ≡ length (handle_list toy listing).1.resp.body.bytes
unfolding handle_list reply_append buffer_append kbloomd.Wire.store_u32 response_init
    kbloomd.Handlers.Info.list_loop kbloomd.Wire.store_u16
list_length = refl

show_list-handle_list_example :
    show_list (record {
      header = record zero_header { body_len = 14 };
      body = (handle_list toy listing).1.resp.body.bytes;
    })
    ≡ (0, name_lines both.items)
show_list-handle_list_example =
    show_list-handle_list toy (record zero_header { body_len = 14 }) listing
      (unfold response_init in refl) (ground arith) (omega arith) list_done list_length
