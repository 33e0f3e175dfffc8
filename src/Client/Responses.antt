-- ===== src/Client/Responses.antt =====
-- Responses that `bloomd_client_drive_write` of src/daemon.c sends in one call or in several.
use kbloomd.Common.{ℕ, suc, ◌+◌, ◌≤◌, ◌≡◌, ◌≢◌, ◌⊎◌, arith, ◌++◌, Bytes, length, take, drop}
use kbloomd.Platform.{Platform}
use kbloomd.Platform.Laws.{IoLaws, StreamLaws, FileLaws}
use kbloomd.Frame.{header_size}
use kbloomd.FilterState.{raw_fd}
use kbloomd.Daemon.{State}
use kbloomd.Client.{Client, read_header, Drive, finished, client_drive_write, client_reset_request}
use kbloomd.Client.WriteSide.{response_bytes, IsPrepared, write_some_loop-Progress}

-- How a client stands after `count` more bytes of its response: with the response complete and ready
-- for the next request, or with the bytes counted.
abbrev pub Stands : Client → ℕ → Drive → Client → Type 0
Stands c count drive after =
    ((drive ≡ finished)
      × (c.write_offset + count ≡ length (response_bytes c))
      × (after.state ≡ read_header)
      × (after.write_offset ≡ 0))
    ⊎ ((drive ≢ finished) × (after.write_offset ≡ c.write_offset + count))

module _ (P : Platform) (io : IoLaws P) (sent : P.World → ℕ → Bytes) (stream : StreamLaws P sent)
    (file : FileLaws P sent) where
  -- With write and the clock as documented, a call for a client whose header takes 16 bytes and
  -- whose offset is in its response sends exactly the next bytes of header and body from that
  -- offset; if it returns 1 the response is then complete and the client reads a new request, and
  -- otherwise the offset has moved by the bytes sent.
  pub client_drive_write-Stands :
      (c : Client) (s : State P)
      → IsPrepared c
      → c.write_offset ≤ length (response_bytes c)
      → (count : ℕ) × (sent (client_drive_write P c s).2.world (raw_fd c.fd)
          ≡ sent s.world (raw_fd c.fd) ++ take count (drop c.write_offset (response_bytes c)))
        × Stands c count (client_drive_write P c s).0 (client_drive_write P c s).1
  unfolding client_drive_write client_reset_request
  client_drive_write-Stands c s prepared within =
      let fuel = suc (header_size + length c.resp.body.bytes + P.interrupts s.world) in
      let h = write_some_loop-Progress P io sent stream file fuel c s.world prepared within in
      (h.count, ground (arith, h.sent_eq), ground (arith, h.offset_eq, h.stopped_or_all))
