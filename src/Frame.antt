-- ===== src/Frame.antt =====
-- Frames of src/protocol.c: the header, the response under construction, reading a request frame,
-- and the two length-prefixed fields.
pub mod RoundTrip
pub mod Status
pub mod ErrorCode
pub mod Send
pub mod Receive
use kbloomd.Common.{
  ℕ, ◌+◌, ◌-◌, Bool, not, ◌||◌, Option, none, some, List, [], ◌∷◌, ◌++◌, Bytes, text, Result, ok,
  err, length, take, drop, ◌==◌, ltb, same, if◌then◌else◌, einval, e2big, eproto,
}
use kbloomd.Platform.{Platform}
use kbloomd.Wire.{u32, load_u16, load_u32, store_u32, byte_at}
use kbloomd.Buffer.{
  Buffer, buffer_init, buffer_reserve, buffer_append, buffer_append_u32, max_frame_body,
}
use kbloomd.Io.{read_all}

-- struct bloomd_frame_header
pub record Header : Type 0 where
  pub magic : Bytes
  pub version : ℕ
  pub opcode : ℕ
  pub flags : ℕ
  pub status : ℕ
  pub request_id : ℕ
  pub body_len : ℕ

-- The packed struct in memory, on a little-endian machine.
unfoldable pub header_bytes : Header → Bytes
header_bytes h =
    h.magic
    ++ (h.version
        ∷ h.opcode
        ∷ h.flags
        ∷ h.status
        ∷ (store_u32 h.request_id ++ store_u32 h.body_len))

unfoldable pub header_of_bytes : Bytes → Header
header_of_bytes bs = record {
  magic = take 4 bs;
  version = byte_at bs 4;
  opcode = byte_at bs 5;
  flags = byte_at bs 6;
  status = byte_at bs 7;
  request_id = load_u32 (drop 8 bs);
  body_len = load_u32 (drop 12 bs);
}

abbrev pub header_size : ℕ
header_size = 16

-- BLOOMD_PROTOCOL_MAGIC, "BLM1"
abbrev pub protocol_magic : Bytes
protocol_magic = b'B' ∷ b'L' ∷ b'M' ∷ b'1' ∷ []

-- BLOOMD_PROTOCOL_VERSION
abbrev pub protocol_version : ℕ
protocol_version = 1

-- BLOOMD_MAX_NAME_LEN
abbrev pub max_name_len : ℕ
max_name_len = 63

unfoldable pub header_is_valid : Header → ℕ
header_is_valid hdr =
    if not (same hdr.magic protocol_magic)
    then eproto
    else if not (hdr.version == protocol_version)
    then eproto
    else if ltb max_frame_body hdr.body_len
    then e2big
    else 0

-- struct bloomd_request_view; `body` is empty where the pointer is NULL.
pub record Request : Type 0 where
  pub header : Header
  pub body : Bytes

-- struct bloomd_response
pub record Response : Type 0 where
  pub header : Header
  pub body : Buffer

unfoldable pub response_init : ℕ → ℕ → Response
unfolding buffer_init
response_init opcode request_id = record {
  header = record {
    magic = protocol_magic;
    version = protocol_version;
    opcode = opcode;
    flags = 0x01;
    status = Status.ok;
    request_id = request_id;
    body_len = 0;
  };
  body = buffer_init;
}

-- The buffer keeps its memory.
unfoldable pub response_reset : Response → ℕ → ℕ → Response
response_reset resp opcode request_id = record {
  header = record {
    magic = protocol_magic;
    version = protocol_version;
    opcode = opcode;
    flags = 0x01;
    status = Status.ok;
    request_id = request_id;
    body_len = 0;
  };
  body = record resp.body { bytes = [] };
}

-- A name or a payload that a length stands before: the field, and the bytes consumed.
pub record Field : Type 0 where
  pub value : Bytes
  pub consumed : ℕ

-- bloomd_protocol_read_name; `buf` has `len` bytes.
unfoldable pub protocol_read_name : Bytes → Result Field
protocol_read_name buf =
    if ltb (length buf) 2
    then err einval
    else (let nlen = load_u16 buf in
        if nlen == 0 || ltb max_name_len nlen
        then err einval
        else if ltb (length buf) (2 + nlen)
        then err einval
        else ok (record { value = take nlen (drop 2 buf); consumed = 2 + nlen }))

-- bloomd_protocol_read_payload
unfoldable pub protocol_read_payload : Bytes → Result Field
protocol_read_payload buf =
    if ltb (length buf) 4
    then err einval
    else (let plen = load_u32 buf in
        if ltb max_frame_body plen
        then err e2big
        else if ltb (length buf) (4 + plen)
        then err einval
        else ok (record { value = take plen (drop 4 buf); consumed = 4 + plen }))

module _ (P : Platform) where
  open P use {World}

  -- bloomd_response_error; the message is a C string, so never NULL here.
  unfoldable pub response_error : Response → ℕ → ℕ → Bytes → World → ℕ × Response × World
  unfolding buffer_append_u32 buffer_append
  response_error resp status code message w =
      let start : Response = record {
        header = record resp.header { flags = 0x03; status = status };
        body = record resp.body { bytes = [] };
      } in
      let (rc1, body1, w1) = buffer_append_u32 P start.body code w in
      if not (rc1 == 0)
      then (rc1, record start { body = body1 }, w1)
      else (let (rc2, body2, w2) = buffer_append_u32 P body1 (u32 (length message)) w1 in
          if not (rc2 == 0)
          then (rc2, record start { body = body2 }, w2)
          else (let (rc3, body3, w3) = buffer_append P body2 message w2 in
              (rc3, record start { body = body3 }, w3)))

  -- bloomd_read_frame: the request and the storage, which keeps its memory.
  unfoldable pub read_frame : ℕ → Buffer → World → Result Request × Buffer × World
  unfolding header_is_valid header_of_bytes buffer_reserve read_all
  read_frame fd storage w =
      let empty : Buffer = record storage { bytes = [] } in
      let (got, w1) = read_all P fd header_size w in
      elim got [
        | err e ↦ (err e, empty, w1)
        | ok bs ↦
            let hdr = header_of_bytes bs in
            let rc = header_is_valid hdr in
            let (rc2, room, w2) = buffer_reserve P empty hdr.body_len w1 in
            let (body, w3) = read_all P fd hdr.body_len w2 in
            if not (rc == 0)
            then (err rc, empty, w1)
            else if hdr.body_len == 0
            then (ok (record { header = hdr; body = [] }), empty, w1)
            else if not (rc2 == 0)
            then (err rc2, room, w2)
            else (elim body [
              | err e ↦ (err e, room, w3)
              | ok b ↦ (ok (record { header = hdr; body = b }), record room { bytes = b }, w3)
            ])
      ]
