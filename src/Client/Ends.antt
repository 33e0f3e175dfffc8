-- ===== src/Client/Ends.antt =====
-- `bloomd_client_drive_write` of src/daemon.c returns.
use kbloomd.Common.{
  ℕ, zero, suc, ◌+◌, ◌-◌, ◌≤◌, ◌<◌, ◌≢◌, inl, inr, arith, length, Result-cases, length-append, hang,
}
use kbloomd.Platform.{Platform}
use kbloomd.Platform.Laws.{IoLaws}
use kbloomd.Frame.{header_bytes, header_size}
use kbloomd.FilterState.{raw_fd, now_ms}
use kbloomd.Daemon.{State}
use kbloomd.Client.{Client, broken, pending, write_some_loop, client_drive_write}
use kbloomd.Client.WriteSide.{response_bytes, IsPrepared, length-pending}

module _ (P : Platform) (io : IoLaws P) where
  open P use {World, interrupts, write}

  now_ms-interrupts : (w : World) → interrupts (now_ms P w).1 ≤ interrupts w
  unfolding now_ms
  now_ms-interrupts w = io.clock_interrupts w

  write_some_loop-ne-hang :
      (fuel : ℕ) (c : Client) (w : World)
      → IsPrepared c
      → c.write_offset ≤ length (response_bytes c)
      → length (response_bytes c) - c.write_offset + interrupts w < fuel
      → (write_some_loop P fuel c w).0 ≢ broken hang
  unfolding write_some_loop
  write_some_loop-ne-hang zero c w prepared within h = absurd (omega arith)
  write_some_loop-ne-hang (suc fuel) c w prepared within h =
      let (r, w1) = write w (raw_fd c.fd) (pending c) in
      let (now, w2) = now_ms P w1 in
      elim (Result-cases (write w (raw_fd c.fd) (pending c)).0) [
        | inl (n, e) ↦ rw e (
            ground (
              arith,
              io.write_count w (raw_fd c.fd) (pending c) n e,
              io.write_interrupts w (raw_fd c.fd) (pending c),
              now_ms-interrupts w1,
              length-pending c prepared within,
              write_some_loop-ne-hang fuel
                  (record c { write_offset = c.write_offset + n; last_activity_ms = now }) w2
                  prepared,
            ))
        | inr (k, e) ↦ rw e (
            ground (
              arith,
              io.write_known w (raw_fd c.fd) (pending c) k e,
              io.write_eintr w (raw_fd c.fd) (pending c),
              write_some_loop-ne-hang fuel c w1 prepared within,
            ))
      ]

  -- With write and the clock as documented, a call for a client whose header takes 16 bytes and
  -- whose offset is in its response returns: the fuel, one more than the bytes of the response and
  -- the interruptions left, never runs out.
  pub client_drive_write-ne-hang :
      (c : Client) (s : State P)
      → IsPrepared c
      → c.write_offset ≤ length (response_bytes c)
      → (client_drive_write P c s).0 ≢ broken hang
  unfolding client_drive_write
  client_drive_write-ne-hang c s prepared within = ground (
    arith,
    length-append (header_bytes c.out_header) c.resp.body.bytes,
    write_some_loop-ne-hang (suc (header_size + length c.resp.body.bytes + interrupts s.world)) c
        s.world prepared within,
  )
