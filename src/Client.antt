-- ===== src/Client.antt =====
-- The connections of src/daemon.c: one state machine for each client, driven by readiness.
pub mod ReadSide
pub mod WriteSide
pub mod Ends
pub mod Responses
use kbloomd.Common.{
  ℕ, zero, suc, ◌+◌, ◌-◌, ◌^◌, Bool, true, false, not, ◌&&◌, ◌||◌, Option, none, some, List, [],
  ◌∷◌, ◌++◌, Bytes, Result, ok, err, length, drop, ◌==◌, ltb, if◌then◌else◌, eintr, eagain,
  econnreset, epipe, hang,
}
use kbloomd.Platform.{Platform}
use kbloomd.Wire.{u32, u64}
use kbloomd.Buffer.{Buffer, buffer_init, buffer_reserve}
use kbloomd.Frame.Status
use kbloomd.Frame.{
  Header, Request, Response, header_bytes, header_of_bytes, header_size, header_is_valid,
  response_init, response_reset,
}
use kbloomd.FilterState.{now_ms, raw_fd}
use kbloomd.Daemon.{Config, State, next_count}
use kbloomd.Dispatch.{dispatch}

-- enum bloomd_client_state
pub data ClientState : Type 0 where
  empty read_header read_body write_response : ClientState

-- struct bloomd_client. `header_read` are the bytes of `req_header` that have come in, so
-- `req_header_read` is their length; likewise `req_body`.
pub record Client : Type 0 where
  pub fd : Option ℕ
  pub state : ClientState
  pub last_activity_ms : ℕ
  pub header_read : Bytes
  pub req_body : Buffer
  pub req : Request
  pub resp : Response
  pub out_header : Header
  pub write_offset : ℕ

-- The value of the driving functions: 0, 1 and `-e`.
pub data Drive : Type 0 where
  waiting finished : Drive
  broken : ℕ → Drive

abbrev pub zero_header : Header
zero_header = record {
  magic = 0 ∷ 0 ∷ 0 ∷ 0 ∷ [];
  version = 0;
  opcode = 0;
  flags = 0;
  status = 0;
  request_id = 0;
  body_len = 0;
}

abbrev pub zero_request : Request
zero_request = record { header = zero_header; body = [] }

-- bloomd_client_reset_request
unfoldable pub client_reset_request : Client → Client
client_reset_request client = record client {
  header_read = [];
  req = zero_request;
  req_body = record client.req_body { bytes = [] };
  write_offset = 0;
  state = read_header;
}

-- bloomd_client_prepare_write, which always returns 0
unfoldable pub client_prepare_write : Client → Drive × Client
client_prepare_write client = (
  waiting,
  record client {
    out_header = record client.resp.header { body_len = u32 (length client.resp.body.bytes) };
    write_offset = 0;
    state = write_response;
  },
)

-- The bytes that the next `write` is given: what is left of the header, or else of the body.
unfoldable pub pending : Client → Bytes
pending client =
    if ltb client.write_offset header_size
    then drop client.write_offset (header_bytes client.out_header)
    else drop (client.write_offset - header_size) client.resp.body.bytes

module _ (P : Platform) where
  open P use {World, interrupts, read, write, close}

  unfoldable pub client_init : ℕ → World → Client × World
  client_init fd w =
      let (now, w') = now_ms P w in
      (
        client_reset_request (record {
          fd = some fd;
          state = empty;
          last_activity_ms = now;
          header_read = [];
          req_body = buffer_init;
          req = zero_request;
          resp = response_init 0 0;
          out_header = zero_header;
          write_offset = 0;
        }),
        w',
      )

  unfoldable pub close_fd : Option ℕ → World → World
  close_fd none w = w
  close_fd (some fd) w = close w fd

  unfoldable pub client_close : Client → World → Client × World
  client_close client w = (
    record {
      fd = none;
      state = empty;
      last_activity_ms = 0;
      header_read = [];
      req_body = buffer_init;
      req = zero_request;
      resp = record { header = zero_header; body = buffer_init };
      out_header = zero_header;
      write_offset = 0;
    },
    close_fd client.fd w,
  )

  -- The loop of `bloomd_client_read_some`: the bytes at `buf` so far, and the last activity.
  unfoldable pub read_some_loop : ℕ → ℕ → Bytes → ℕ → ℕ → World → Drive × Bytes × ℕ × World
  read_some_loop zero fd buf want last w = (broken hang, buf, last, w)
  read_some_loop (suc fuel) fd buf want last w =
      let (r, w1) = read w fd (want - length buf) in
      let (now, w2) = now_ms P w1 in
      let retry = read_some_loop fuel fd buf want last w1 in
      let next = λ (bs : Bytes). read_some_loop fuel fd (buf ++ bs) want now w2 in
      if not (ltb (length buf) want) then (finished, buf, last, w) else (elim r [
        | err e ↦
            if e == eintr
            then retry
            else if e == eagain
            then (waiting, buf, last, w1)
            else (broken e, buf, last, w1)
        | ok bs ↦ if length bs == 0 then (broken econnreset, buf, last, w1) else next bs
      ])

  unfoldable pub client_read_some : Client → Bytes → ℕ → World → Drive × Bytes × ℕ × World
  client_read_some client buf want w =
      read_some_loop (suc (want + interrupts w)) (raw_fd client.fd) buf want client.last_activity_ms
        w

  -- From the complete request on.
  unfoldable pub client_answer : Client → Config → State P → Drive × Client × State P
  client_answer client cfg s =
      let counted = record s.stats { requests = next_count s.stats.requests } in
      let resp = response_reset client.resp client.req.header.opcode client.req.header.request_id in
      let (rc, s1) = dispatch P cfg client.req (record s { stats = counted; resp = resp }) in
      let answered : Client = record client { resp = s1.resp } in
      let failed : State P = record s1 {
        stats = record s1.stats { errors = next_count s1.stats.errors };
      } in
      let (drive, prepared) = client_prepare_write answered in
      if not (rc == 0)
      then (broken rc, answered, s1)
      else if not (s1.resp.header.status == Status.ok)
      then (drive, prepared, failed)
      else (drive, prepared, s1)

  -- In READ_BODY.
  unfoldable pub drive_body : Client → Config → State P → Drive × Client × State P
  drive_body client cfg s =
      let (drive, buf, last, w) =
        client_read_some client client.req_body.bytes client.req.header.body_len s.world in
      let grown : Client = record client {
        req_body = record client.req_body { bytes = buf };
        last_activity_ms = last;
      } in
      let s1 : State P = record s { world = w } in
      elim drive [
        | waiting ↦ (waiting, grown, s1)
        | broken e ↦ (broken e, grown, s1)
        | finished ↦ client_answer (record grown { req = record grown.req { body = buf } }) cfg s1
      ]

  -- In READ_HEADER, with a whole header.
  unfoldable pub drive_whole_header : Client → Config → State P → Drive × Client × State P
  drive_whole_header client cfg s =
      let hdr = header_of_bytes client.header_read in
      let rc = header_is_valid hdr in
      let taken : Client = record client { req = record client.req { header = hdr } } in
      let (rc2, body, w) = buffer_reserve P client.req_body hdr.body_len s.world in
      if not (rc == 0)
      then (broken rc, client, s)
      else if hdr.body_len == 0
      then client_answer (record taken { req = record { header = hdr; body = [] } }) cfg s
      else if not (rc2 == 0)
      then (broken rc2, record taken { req_body = body }, record s { world = w })
      else (
        waiting,
        record taken { req_body = record body { bytes = [] }; state = read_body },
        record s { world = w },
      )

  unfoldable pub drive_header : Client → Config → State P → Drive × Client × State P
  drive_header client cfg s =
      let (drive, buf, last, w) = client_read_some client client.header_read header_size s.world in
      let grown : Client = record client { header_read = buf; last_activity_ms = last } in
      let s1 : State P = record s { world = w } in
      elim drive [
        | waiting ↦ (waiting, grown, s1)
        | broken e ↦ (broken e, grown, s1)
        | finished ↦ drive_whole_header grown cfg s1
      ]

  -- bloomd_client_drive_read
  unfoldable pub drive_read_in : ClientState → Client → Config → State P → Drive × Client × State P
  drive_read_in read_header client cfg s = drive_header client cfg s
  drive_read_in read_body client cfg s = drive_body client cfg s
  drive_read_in _ client cfg s = client_answer client cfg s

  unfoldable pub client_drive_read : Client → Config → State P → Drive × Client × State P
  client_drive_read client cfg s = drive_read_in client.state client cfg s

  -- The loop of `bloomd_client_drive_write`, over the client itself.
  unfoldable pub write_some_loop : ℕ → Client → World → Drive × Client × World
  write_some_loop zero client w = (broken hang, client, w)
  write_some_loop (suc fuel) client w =
      let (r, w1) = write w (raw_fd client.fd) (pending client) in
      let (now, w2) = now_ms P w1 in
      let retry = write_some_loop fuel client w1 in
      let next = λ (n : ℕ).
        write_some_loop fuel
          (record client { write_offset = client.write_offset + n; last_activity_ms = now }) w2 in
      if not (ltb client.write_offset (header_size + length client.resp.body.bytes))
      then (finished, client, w)
      else (elim r [
        | err e ↦
            if e == eintr
            then retry
            else if e == eagain
            then (waiting, client, w1)
            else (broken e, client, w1)
        | ok n ↦ if n == 0 then (broken epipe, client, w1) else next n
      ])

  -- bloomd_client_drive_write
  unfoldable pub client_drive_write : Client → State P → Drive × Client × State P
  client_drive_write client s =
      let (drive, client', w) =
        write_some_loop (suc (header_size + length client.resp.body.bytes + interrupts s.world))
          client s.world in
      let s1 : State P = record s { world = w } in
      elim drive [
        | waiting ↦ (waiting, client', s1)
        | broken e ↦ (broken e, client', s1)
        | finished ↦ (
          finished,
          client_reset_request client',
          record s1 { stats = record s1.stats { responses = next_count s1.stats.responses } },
        )
      ]
