-- ===== src/Frame/Receive.antt =====
-- What `bloomd_read_frame` of src/protocol.c takes off a stream.
use kbloomd.Common.{
  ℕ, ◌≡◌, ◌≢◌, inl, inr, refl, sym, ap, ◌∙◌, arith, [], ◌++◌, Bytes, Result, ok, err, Result-cases,
  Bool-cases, length, ◌==◌, hang,
}
use kbloomd.Platform.{Platform}
use kbloomd.Platform.Laws.{ReadLaws}
use kbloomd.Buffer.{Buffer, buffer_reserve}
use kbloomd.Io.{read_all}
use kbloomd.Io.Reads.{read_all-ok, read_all-err}
use kbloomd.Frame.{Header, Request, header_size, header_of_bytes, header_is_valid, read_frame}

header_is_valid-ne-hang : (h : Header) → header_is_valid h ≢ hang
unfolding header_is_valid
header_is_valid-ne-hang h e = ground (arith, e)

module _ (P : Platform) (unread : P.World → ℕ → Bytes) (reads : ReadLaws P unread)
    (realloc_unread : (w : P.World) (n fd : ℕ) → unread (P.realloc w n).1 fd ≡ unread w fd) where
  open P use {World}

  -- An error that is not the end of the fuel, or a frame taken off the front of the stream.
  abbrev pub Receives : ℕ → World → Result Request × Buffer × World → Type 0
  Receives fd w (err e, storage, w') = e ≢ hang
  Receives fd w (ok req, storage, w') =
      (head : Bytes) × (length head ≡ header_size)
      × (req.header ≡ header_of_bytes head)
      × (header_is_valid req.header ≡ 0)
      × (length req.body ≡ req.header.body_len)
      × (unread w fd ≡ head ++ (req.body ++ unread w' fd))

  buffer_reserve-unread :
      (buf : Buffer) (cap fd : ℕ) (w : World)
      → (unread (buffer_reserve P buf cap w).2 fd ≡ unread w fd)
        × ((buffer_reserve P buf cap w).0 ≢ hang)
  unfolding buffer_reserve
  buffer_reserve-unread buf cap fd w =
      (ground (arith, realloc_unread w cap fd), λ e. ground (arith, e))

  -- With read as documented and memory taken without touching the stream, bloomd_read_frame
  -- returns: an error, or a request whose header is valid and stood in the first 16 bytes of the
  -- stream, and whose body is the bytes behind it, as many as the header says; the stream goes on
  -- behind them.
  pub read_frame-Receives :
      (fd : ℕ) (storage : Buffer) (w : World) → Receives fd w (read_frame P fd storage w)
  unfolding read_frame
  read_frame-Receives fd storage w = elim (Result-cases (read_all P fd header_size w).0) [
    | inr (e, eq) ↦ rw (read_frame, eq) (read_all-err P unread reads fd header_size w e eq)
    | inl (head, eq) ↦
        let (head_len, front) = read_all-ok P unread reads fd header_size w head eq in
        let w1 = (read_all P fd header_size w).1 in
        let hdr = header_of_bytes head in
        let empty : Buffer = record storage { bytes = [] } in
        let (kept, room_ne) = buffer_reserve-unread empty hdr.body_len fd w1 in
        let w2 = (buffer_reserve P empty hdr.body_len w1).2 in
        rw (read_frame, eq)
          (elim (Bool-cases (header_is_valid hdr == 0)) [
            | inr bad ↦ rw bad (header_is_valid-ne-hang hdr)
            | inl good ↦ rw good (elim (Bool-cases (hdr.body_len == 0)) [
              | inl bare ↦
                  rw bare (head, head_len, refl, ground (arith, good), ground (arith, bare), front)
              | inr more ↦
                  rw more (elim (Bool-cases ((buffer_reserve P empty hdr.body_len w1).0 == 0)) [
                    | inr full ↦ rw full room_ne
                    | inl room ↦ rw room (elim (Result-cases (read_all P fd hdr.body_len w2).0) [
                      | inr (e, eq2) ↦ rw eq2 (read_all-err P unread reads fd hdr.body_len w2 e eq2)
                      | inl (body, eq2) ↦
                          let (body_len, behind) =
                            read_all-ok P unread reads fd hdr.body_len w2 body eq2 in
                          rw eq2 (
                            head,
                            head_len,
                            refl,
                            ground (arith, good),
                            body_len,
                            front ∙ ap (λ t. head ++ t) (sym kept ∙ behind),
                          )
                    ])
                  ])
            ])
          ])
  ]
