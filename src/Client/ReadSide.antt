-- ===== src/Client/ReadSide.antt =====
-- What the driving functions of src/daemon.c return to the main loop.
use kbloomd.Common.{◌≢◌, arith, []}
use kbloomd.Platform.{Platform}
use kbloomd.Daemon.{Config, State}
use kbloomd.Client.{
  Client, ClientState, empty, read_header, read_body, write_response, finished,
  client_prepare_write, client_answer, drive_body, drive_whole_header, drive_header, drive_read_in,
  client_drive_read, client_read_some,
}
use kbloomd.Frame.{header_of_bytes, header_size}

module _ (P : Platform) where
  open P use {World}

  client_answer-ne-finished :
      (c : Client) (cfg : Config) (s : State P) → (client_answer P c cfg s).0 ≢ finished
  unfolding client_answer client_prepare_write
  client_answer-ne-finished c cfg s = ground arith

  drive_body-ne-finished :
      (c : Client) (cfg : Config) (s : State P) → (drive_body P c cfg s).0 ≢ finished
  unfolding drive_body
  drive_body-ne-finished c cfg s =
      let (drive, buf, last, w) =
        client_read_some P c c.req_body.bytes c.req.header.body_len s.world in
      ground (
        arith,
        client_answer-ne-finished
            (record c {
              req_body = record c.req_body { bytes = buf };
              last_activity_ms = last;
              req = record c.req { body = buf };
            })
            cfg (record s { world = w }),
      )

  drive_whole_header-ne-finished :
      (c : Client) (cfg : Config) (s : State P) → (drive_whole_header P c cfg s).0 ≢ finished
  unfolding drive_whole_header
  drive_whole_header-ne-finished c cfg s = ground (
    arith,
    client_answer-ne-finished
        (record c { req = record { header = header_of_bytes c.header_read; body = [] } }) cfg s,
  )

  drive_header-ne-finished :
      (c : Client) (cfg : Config) (s : State P) → (drive_header P c cfg s).0 ≢ finished
  unfolding drive_header
  drive_header-ne-finished c cfg s =
      let (drive, buf, last, w) = client_read_some P c c.header_read header_size s.world in
      ground (
        arith,
        drive_whole_header-ne-finished (record c { header_read = buf; last_activity_ms = last }) cfg
            (record s { world = w }),
      )

  -- bloomd_client_drive_read never returns 1, in any state of the client: it returns 0 or an
  -- error, also when it has just prepared a whole response.
  pub client_drive_read-ne-finished :
      (c : Client) (cfg : Config) (s : State P) → (client_drive_read P c cfg s).0 ≢ finished
  unfolding client_drive_read drive_read_in
  client_drive_read-ne-finished c cfg s = go c.state
    where
      go : (st : ClientState) → (drive_read_in P st c cfg s).0 ≢ finished
      go empty = client_answer-ne-finished c cfg s
      go read_header = drive_header-ne-finished c cfg s
      go read_body = drive_body-ne-finished c cfg s
      go write_response = client_answer-ne-finished c cfg s
