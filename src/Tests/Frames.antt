-- ===== src/Tests/Frames.antt =====
-- Applications of the theorems on frames, buffers and the items of a batch.
use kbloomd.Common.{
  Result, err, text, ◌+◌, ◌≤◌, ◌≡◌, refl, arith, List, [], ◌∷◌, ◌++◌, Bytes, ok, length, true,
  false,
}
use kbloomd.Wire.{store_u32, load_u32}
use kbloomd.Buffer.{Buffer, buffer_init, buffer_append, max_frame_body}
use kbloomd.Buffer.Laws.{IsBounded, Appended, buffer_append-Appended}
use kbloomd.Frame.{Request, read_frame, Field, protocol_read_payload}
use kbloomd.Frame.Receive.{Receives, read_frame-Receives}
use kbloomd.Frame.RoundTrip.{read_payload-store, read_payload_bounds}
use kbloomd.FilterState.{periodic}
use kbloomd.Handlers.Batch.{scan_items, add_items}
use kbloomd.Handlers.Batch.Scan.{
  encode_items, scan_items-encode_items, EndsAfterScan, add_items-EndsAfterScan,
}
use kbloomd.Tests.{Machine, toy, unread}
use kbloomd.Tests.Platforms.{toy-ReadLaws}
use kbloomd.Tests.Filters.{ann, machine}

abbrev three_bytes : Bytes
three_bytes = 5 ∷ 6 ∷ 7 ∷ []

read_payload-store_example :
    protocol_read_payload (store_u32 (length three_bytes) ++ (three_bytes ++ (9 ∷ [])))
    ≡ ok (record { value = three_bytes; consumed = 4 + length three_bytes })
read_payload-store_example = read_payload-store three_bytes (9 ∷ []) (omega arith)

-- A field on the wire and what is read of it.
abbrev on_the_wire : Bytes
on_the_wire = 2 ∷ 0 ∷ 0 ∷ 0 ∷ 8 ∷ 9 ∷ 10 ∷ []

abbrev eight_nine : Field
eight_nine = record { value = 8 ∷ 9 ∷ []; consumed = 6 }

on_the_wire_read : protocol_read_payload on_the_wire ≡ ok eight_nine
unfolding protocol_read_payload load_u32
on_the_wire_read = refl

read_payload_bounds_example :
    (length eight_nine.value ≤ max_frame_body)
    × (eight_nine.consumed ≡ 4 + length eight_nine.value)
    × (eight_nine.consumed ≤ length on_the_wire)
read_payload_bounds_example = read_payload_bounds on_the_wire eight_nine on_the_wire_read

abbrev small_buffer : Buffer
small_buffer = record { bytes = 1 ∷ 2 ∷ []; cap = 2 }

buffer_append-Appended_example :
    Appended small_buffer three_bytes
      (buffer_append toy small_buffer three_bytes machine).0
      (buffer_append toy small_buffer three_bytes machine).1
    × IsBounded (buffer_append toy small_buffer three_bytes machine).1
buffer_append-Appended_example =
    buffer_append-Appended toy small_buffer three_bytes machine
      (record { within_frame = omega arith; within_cap = omega arith })

abbrev two_payloads : List Bytes
two_payloads = three_bytes ∷ [] ∷ []

scan_items-encode_items_example :
    scan_items (length two_payloads) (encode_items two_payloads ++ (1 ∷ [])) ≡ ok (1 ∷ [])
scan_items-encode_items_example =
    scan_items-encode_items two_payloads (1 ∷ []) (omega arith, (omega arith, tt))

one_item_scanned : scan_items 1 on_the_wire ≡ ok (10 ∷ [])
unfolding scan_items protocol_read_payload load_u32
one_item_scanned = refl

add_items-EndsAfterScan_example :
    EndsAfterScan 1 (10 ∷ []) (add_items toy 1 on_the_wire ann periodic true false [] machine).0
add_items-EndsAfterScan_example =
    add_items-EndsAfterScan toy 1 on_the_wire ann periodic true false [] machine (10 ∷ [])
      one_item_scanned

-- A frame with a body of three bytes, and two bytes of the next one.
abbrev framed : Machine
framed = record {
  disk = [];
  input =
      (text "BLM1" ++ (1 ∷ 2 ∷ 0 ∷ 0 ∷ 7 ∷ 0 ∷ 0 ∷ 0 ∷ 3 ∷ 0 ∷ 0 ∷ 0 ∷ []))
      ++ (8 ∷ 9 ∷ 10 ∷ 66 ∷ 76 ∷ []);
  digests = [];
  plans = [];
}

abbrev body_of : Result Request → Bytes
body_of (ok r) = r.body
body_of (err e) = []

framed_body : body_of (read_frame toy 3 buffer_init framed).0 ≡ 8 ∷ 9 ∷ 10 ∷ []
unfolding read_frame text kbloomd.Frame.header_is_valid kbloomd.Frame.header_of_bytes
    kbloomd.Io.read_all kbloomd.Io.read_loop kbloomd.Common.same load_u32 buffer_init
framed_body = refl

read_frame-Receives_example :
    Receives toy unread toy-ReadLaws (λ w n fd. refl) 3 framed (read_frame toy 3 buffer_init framed)
read_frame-Receives_example =
    read_frame-Receives toy unread toy-ReadLaws (λ w n fd. refl) 3 buffer_init framed
