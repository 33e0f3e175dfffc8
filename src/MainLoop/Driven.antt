-- ===== src/MainLoop/Driven.antt =====
-- Driving one client of src/daemon.c keeps the set of filters well-formed.
use kbloomd.Common.{ℕ, ◌≡◌, arith, Bool, true, false, [], Bytes, if◌then◌else◌}
use kbloomd.Platform.{Platform}
use kbloomd.Frame.{header_of_bytes, header_size, response_reset}
use kbloomd.FilterSet.Valid.{IsValid}
use kbloomd.Daemon.{Config, State, next_count}
use kbloomd.Dispatch.Preserves.{dispatch-IsValid}
use kbloomd.Client.{
  ClientState, empty, read_header, read_body, write_response, Client, Drive, waiting, finished,
  broken, client_drive_read, drive_read_in, drive_header, drive_body, drive_whole_header,
  client_answer, client_read_some, client_drive_write,
}
use kbloomd.MainLoop.{serve_client, drive_client, drive_after_read, drive_ended, is_writing}

module _ (P : Platform) where
  open P use {World}

  client_answer-IsValid :
      (c : Client) (cfg : Config) (s : State P)
      → IsValid s.filters
      → IsValid (client_answer P c cfg s).2.filters
  unfolding client_answer
  client_answer-IsValid c cfg s v = ground (
    arith,
    dispatch-IsValid P cfg c.req
        (record s {
          stats = record s.stats { requests = next_count s.stats.requests };
          resp = response_reset c.resp c.req.header.opcode c.req.header.request_id;
        })
        v,
  )

  drive_body-IsValid :
      (c : Client) (cfg : Config) (s : State P)
      → IsValid s.filters
      → IsValid (drive_body P c cfg s).2.filters
  unfolding drive_body
  drive_body-IsValid c cfg s v =
      got (client_read_some P c c.req_body.bytes c.req.header.body_len s.world)
    where
      got :
          (r : Drive × Bytes × ℕ × World)
          → IsValid
              (elim r.0 as (λ _. Drive × Client × State P) [
                | waiting ↦ (
                  waiting,
                  record c { req_body = record c.req_body { bytes = r.1 }; last_activity_ms = r.2 },
                  record s { world = r.3 },
                )
                | broken e ↦ (
                  broken e,
                  record c { req_body = record c.req_body { bytes = r.1 }; last_activity_ms = r.2 },
                  record s { world = r.3 },
                )
                | finished ↦
                    client_answer P
                      (record c {
                        req_body = record c.req_body { bytes = r.1 };
                        last_activity_ms = r.2;
                        req = record c.req { body = r.1 };
                      })
                      cfg
                      (record s { world = r.3 })
              ]).2.filters
      got (waiting, buf, last, w) = v
      got (broken e, buf, last, w) = v
      got (finished, buf, last, w) = client_answer-IsValid _ cfg (record s { world = w }) v

  drive_whole_header-IsValid :
      (c : Client) (cfg : Config) (s : State P)
      → IsValid s.filters
      → IsValid (drive_whole_header P c cfg s).2.filters
  unfolding drive_whole_header
  drive_whole_header-IsValid c cfg s v = ground (
    arith,
    v,
    client_answer-IsValid
        (record c { req = record { header = header_of_bytes c.header_read; body = [] } }) cfg s v,
  )

  drive_header-IsValid :
      (c : Client) (cfg : Config) (s : State P)
      → IsValid s.filters
      → IsValid (drive_header P c cfg s).2.filters
  unfolding drive_header
  drive_header-IsValid c cfg s v =
      let (drive, buf, last, w) = client_read_some P c c.header_read header_size s.world in
      ground (
        arith,
        v,
        drive_whole_header-IsValid (record c { header_read = buf; last_activity_ms = last }) cfg
            (record s { world = w }) v,
      )

  client_drive_read-IsValid :
      (c : Client) (cfg : Config) (s : State P)
      → IsValid s.filters
      → IsValid (client_drive_read P c cfg s).2.filters
  unfolding client_drive_read drive_read_in
  client_drive_read-IsValid c cfg s v = go c.state
    where
      go : (st : ClientState) → IsValid (drive_read_in P st c cfg s).2.filters
      go empty = client_answer-IsValid c cfg s v
      go read_header = drive_header-IsValid c cfg s v
      go read_body = drive_body-IsValid c cfg s v
      go write_response = client_answer-IsValid c cfg s v

  client_drive_write-filters :
      (c : Client) (s : State P) → (client_drive_write P c s).2.filters ≡ s.filters
  unfolding client_drive_write
  client_drive_write-filters c s = ground arith

  drive_client-IsValid :
      (cfg : Config) (c : Client) (s : State P)
      → IsValid s.filters
      → IsValid (drive_client P cfg c s).2.filters
  unfolding drive_client
  drive_client-IsValid cfg c s v = writing (is_writing c.state)
    where
      after :
          (r : Drive × Client × State P)
          → IsValid r.2.filters
          → IsValid (drive_after_read P r).2.filters
      after (waiting, c1, s1) h = unfold drive_after_read in h
      after (broken e, c1, s1) h = unfold drive_after_read in h
      after (finished, c1, s1) h =
          unfold drive_after_read in ground (arith, h, client_drive_write-filters c1 s1)

      writing :
          (b : Bool)
          → IsValid
              (if b
                then client_drive_write P c s
                else drive_after_read P (client_drive_read P c cfg s)).2.filters
      writing true = rw (client_drive_write-filters c s) v
      writing false = after (client_drive_read P c cfg s) (client_drive_read-IsValid c cfg s v)

  drive_ended-IsValid :
      (r : Drive × Client × State P) → IsValid r.2.filters → IsValid (drive_ended P r).1.filters
  unfolding drive_ended
  drive_ended-IsValid (waiting, c, s) v = v
  drive_ended-IsValid (finished, c, s) v = v
  drive_ended-IsValid (broken e, c, s) v = v

  pub serve_client-IsValid :
      (cfg : Config) (revents : ℕ) (c : Client) (s : State P)
      → IsValid s.filters
      → IsValid (serve_client P cfg revents c s).1.filters
  unfolding serve_client
  serve_client-IsValid cfg revents c s v =
      ground
        (arith, v, drive_ended-IsValid (drive_client P cfg c s) (drive_client-IsValid cfg c s v))
