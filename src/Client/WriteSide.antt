-- ===== src/Client/WriteSide.antt =====
-- What `bloomd_client_drive_write` of src/daemon.c sends.
use kbloomd.Common.{
  ℕ, zero, suc, ◌+◌, ◌-◌, ◌≤◌, ◌<◌, ◌≡◌, ◌≢◌, ◌⊎◌, inl, inr, refl, sym, ap, ◌∙◌, arith, ◌++◌, Bytes,
  Result, ok, err, length, take, drop, ◌==◌, ltb, true, false, Bool-cases, append-nil, append_assoc,
  length-append, length-drop, drop-drop, take-append-take-drop, take-append_within,
  drop-append_within, drop-append_beyond, eintr, eagain, hang, epipe, le_of_ltb, lt_of_ltb,
}
use kbloomd.Platform.{Platform}
use kbloomd.Platform.Laws.{IoLaws, StreamLaws, FileLaws}
use kbloomd.Frame.{header_bytes, header_size}
use kbloomd.FilterState.{raw_fd, now_ms}
use kbloomd.Client.{Client, Drive, waiting, finished, broken, pending, write_some_loop}

-- The frame that answers a request: its header and its body.
abbrev pub response_bytes : Client → Bytes
response_bytes c = header_bytes c.out_header ++ c.resp.body.bytes

-- The header of the response takes its 16 bytes.
abbrev pub IsPrepared : Client → Type 0
IsPrepared c = length (header_bytes c.out_header) ≡ header_size

within_header :
    (header body : Bytes) (off n : ℕ)
    → length header ≡ header_size
    → off < header_size
    → n ≤ length (drop off header)
    → take n (drop off header) ≡ take n (drop off (header ++ body))
within_header header body off n prepared early fits = sym (
    ap (take n) (drop-append_within off header body (omega arith))
    ∙ take-append_within n (drop off header) body fits)

past_header :
    (header body : Bytes) (off : ℕ)
    → length header ≡ header_size
    → header_size ≤ off
    → drop (off - header_size) body ≡ drop off (header ++ body)
past_header header body off prepared late =
    ap (λ k. drop (off - k) body) (sym prepared)
    ∙ sym (drop-append_beyond off header body (omega arith))

-- The next write is given bytes that follow on from what is sent.
take-pending :
    (c : Client) (n : ℕ)
    → IsPrepared c
    → n ≤ length (pending c)
    → take n (pending c) ≡ take n (drop c.write_offset (response_bytes c))
unfolding pending
take-pending c n prepared fits = elim (Bool-cases (ltb c.write_offset header_size)) [
  | inl more ↦ rw more (
      within_header (header_bytes c.out_header) c.resp.body.bytes c.write_offset n prepared
        (lt_of_ltb c.write_offset header_size more) (rw more at fits))
  | inr past ↦ rw past (
      ap (take n) (
        past_header (header_bytes c.out_header) c.resp.body.bytes c.write_offset prepared
          (le_of_ltb c.write_offset header_size past)))
]

-- The same for the bytes that are given, all of them being of the response.
pub length-pending :
    (c : Client)
    → IsPrepared c
    → c.write_offset ≤ length (response_bytes c)
    → c.write_offset + length (pending c) ≤ length (response_bytes c)
unfolding pending
length-pending c prepared within = ground (
  arith,
  length-append (header_bytes c.out_header) c.resp.body.bytes,
  length-drop c.write_offset (header_bytes c.out_header),
  length-drop (c.write_offset - header_size) c.resp.body.bytes,
)

module _ (P : Platform) (io : IoLaws P) (sent : P.World → ℕ → Bytes) (stream : StreamLaws P sent)
    (file : FileLaws P sent) where
  open P use {World, interrupts, write}

  -- What a run of the loop has sent: the next `count` bytes of the response, all that were left of it
  -- if it finished.
  pub record Progress (c : Client) (w : World) (result : Drive × Client × World) : Type 0 where
    pub count : ℕ
    pub count_le : c.write_offset + count ≤ length (response_bytes c)
    pub sent_eq :
        sent result.2 (raw_fd c.fd)
        ≡ sent w (raw_fd c.fd) ++ take count (drop c.write_offset (response_bytes c))
    pub offset_eq : result.1.write_offset ≡ c.write_offset + count
    pub stopped_or_all :
        (result.0 ≢ finished) ⊎ (c.write_offset + count ≡ length (response_bytes c))

  Progress-stop :
      (c : Client) (w w' : World) (drive : Drive)
      → c.write_offset ≤ length (response_bytes c)
      → sent w' (raw_fd c.fd) ≡ sent w (raw_fd c.fd)
      → (drive ≢ finished) ⊎ (c.write_offset ≡ length (response_bytes c))
      → Progress c w (drive, c, w')
  Progress-stop c w w' drive within same end = record {
    count = 0;
    count_le = omega arith;
    sent_eq = same ∙ sym (append-nil _);
    offset_eq = omega arith;
    stopped_or_all = ground (arith, end);
  }

  Progress-retry :
      (c : Client) (w w' : World) (r : Drive × Client × World)
      → sent w' (raw_fd c.fd) ≡ sent w (raw_fd c.fd)
      → Progress c w' r
      → Progress c w r
  Progress-retry c w w' r same h = record {
    count = h.count;
    count_le = h.count_le;
    sent_eq = h.sent_eq ∙ ap (λ t. t ++ take h.count (drop c.write_offset (response_bytes c))) same;
    offset_eq = h.offset_eq;
    stopped_or_all = h.stopped_or_all;
  }

  -- The client after a write of `n` bytes.
  abbrev moved : Client → ℕ → ℕ → Client
  moved c n now = record c { write_offset = c.write_offset + n; last_activity_ms = now }

  Progress-next :
      (c : Client) (n now : ℕ) (w w' : World) (r : Drive × Client × World)
      → IsPrepared c
      → n ≤ length (pending c)
      → sent w' (raw_fd c.fd) ≡ sent w (raw_fd c.fd) ++ take n (pending c)
      → Progress (moved c n now) w' r
      → Progress c w r
  Progress-next c n now w w' r prepared fits more h =
      let all = response_bytes c in
      record {
        count = n + h.count;
        count_le = omega (arith, h.count_le);
        sent_eq =
            h.sent_eq
            ∙ ap (λ t. t ++ take h.count (drop (c.write_offset + n) all))
                (more ∙ ap (λ t. sent w (raw_fd c.fd) ++ t) (take-pending c n prepared fits))
            ∙ append_assoc (sent w (raw_fd c.fd)) (take n (drop c.write_offset all))
                (take h.count (drop (c.write_offset + n) all))
            ∙ ap (λ t. sent w (raw_fd c.fd) ++ (take n (drop c.write_offset all) ++ take h.count t))
                (sym (drop-drop c.write_offset n all))
            ∙ ap (λ t. sent w (raw_fd c.fd) ++ t)
                (take-append-take-drop n h.count (drop c.write_offset all));
        offset_eq = omega (arith, h.offset_eq);
        stopped_or_all = ground (arith, h.stopped_or_all);
      }

  sent-now_ms : (w : World) (fd : ℕ) → sent (now_ms P w).1 fd ≡ sent w fd
  unfolding now_ms
  sent-now_ms w fd = file.clock_keeps w fd

  -- One round, whatever the rounds after it do.
  round-Progress :
      (fuel : ℕ) (c : Client) (w : World) (r : Result ℕ)
      → (write w (raw_fd c.fd) (pending c)).0 ≡ r
      → IsPrepared c
      → c.write_offset ≤ length (response_bytes c)
      → ltb c.write_offset (header_size + length c.resp.body.bytes) ≡ true
      → ((c' : Client) (w' : World)
          → IsPrepared c'
          → c'.write_offset ≤ length (response_bytes c')
          → Progress c' w' (write_some_loop P fuel c' w'))
      → Progress c w (write_some_loop P (suc fuel) c w)
  unfolding write_some_loop
  round-Progress fuel c w (ok n) e prepared within more next =
      let w1 = (write w (raw_fd c.fd) (pending c)).1 in
      let (now, w2) = now_ms P w1 in
      let gone = stream.write_ok w (raw_fd c.fd) (pending c) n e in
      let fits = io.write_count w (raw_fd c.fd) (pending c) n e in
      rw (more, e)
        (elim (Bool-cases (n == 0)) [
          | inl z ↦ rw z (
              Progress-stop c w w1 (broken epipe) within (gone ∙ nothing_added n z)
                (inl (ground arith)))
          | inr z ↦ rw z (
              Progress-next c n now w w2 (write_some_loop P fuel (moved c n now) w2) prepared fits
                (sent-now_ms w1 (raw_fd c.fd) ∙ gone)
                (next (moved c n now) w2 prepared
                  (omega (arith, length-pending c prepared within))))
        ])
    where
      nothing_added :
          (n : ℕ)
          → (n == 0) ≡ true
          → sent w (raw_fd c.fd) ++ take n (pending c) ≡ sent w (raw_fd c.fd)
      nothing_added zero z = append-nil _
      nothing_added (suc n) z = ground arith
  round-Progress fuel c w (err k) e prepared within more next =
      let w1 = (write w (raw_fd c.fd) (pending c)).1 in
      let same = stream.write_err w (raw_fd c.fd) (pending c) k e in
      rw (more, e)
        (elim (Bool-cases (k == eintr)) [
          | inl i ↦
              rw i (
                Progress-retry c w w1 (write_some_loop P fuel c w1) same
                  (next c w1 prepared within))
          | inr i ↦ rw i (elim (Bool-cases (k == eagain)) [
            | inl a ↦ rw a (Progress-stop c w w1 waiting within same (inl (ground arith)))
            | inr a ↦ rw a (Progress-stop c w w1 (broken k) within same (inl (ground arith)))
          ])
        ])

  done-Progress :
      (fuel : ℕ) (c : Client) (w : World)
      → IsPrepared c
      → c.write_offset ≤ length (response_bytes c)
      → ltb c.write_offset (header_size + length c.resp.body.bytes) ≡ false
      → Progress c w (write_some_loop P (suc fuel) c w)
  unfolding write_some_loop
  done-Progress fuel c w prepared within over = rw over (
      Progress-stop c w w finished within refl
        (inr (ground (arith, length-append (header_bytes c.out_header) c.resp.body.bytes))))

  no_fuel-Progress :
      (c : Client) (w : World)
      → c.write_offset ≤ length (response_bytes c)
      → Progress c w (write_some_loop P zero c w)
  unfolding write_some_loop
  no_fuel-Progress c w within = Progress-stop c w w (broken hang) within refl (inl (ground arith))

  pub write_some_loop-Progress :
      (fuel : ℕ) (c : Client) (w : World)
      → IsPrepared c
      → c.write_offset ≤ length (response_bytes c)
      → Progress c w (write_some_loop P fuel c w)
  write_some_loop-Progress zero c w prepared within = no_fuel-Progress c w within
  write_some_loop-Progress (suc fuel) c w prepared within =
      elim (Bool-cases (ltb c.write_offset (header_size + length c.resp.body.bytes))) [
        | inl more ↦
            round-Progress fuel c w (write w (raw_fd c.fd) (pending c)).0 refl prepared within more
              (λ c' w' p l. write_some_loop-Progress fuel c' w' p l)
        | inr over ↦ done-Progress fuel c w prepared within over
      ]
