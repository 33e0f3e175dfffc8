-- ===== src/Io/Writes.antt =====
-- `bloomd_write_all` ends and reports what it wrote.
use kbloomd.Common.{
  ◌⊎◌, ℕ, zero, suc, ◌+◌, ◌≤◌, ◌<◌, ◌≡◌, ◌≢◌, refl, arith, [], ◌∷◌, ◌++◌, Bytes, Result, ok, err,
  length, take, drop, ◌==◌, eintr, eagain, etimedout, epipe, hang, length-drop, Result-cases, inl,
  inr, sym, ap, ◌∙◌, append-nil, append_assoc, take-append-take-drop, true, Bool-cases,
}
use kbloomd.Platform.{Platform}
use kbloomd.Platform.Laws.{IoLaws, StreamLaws}
use kbloomd.Io.{write_loop, write_all, after_write}

module _ (P : Platform) (io : IoLaws P) where
  open P use {World, interrupts, write}

  -- Fuel above the bytes and the interruptions left is enough.
  write_loop-ne-hang :
      (fuel fd : ℕ) (buf : Bytes) (w : World)
      → length buf + interrupts w < fuel
      → (write_loop P fuel fd buf w).0 ≢ hang
  unfolding write_loop
  write_loop-ne-hang zero fd buf w h = absurd (omega arith)
  write_loop-ne-hang (suc fuel) fd [] w h = ground arith
  write_loop-ne-hang (suc fuel) fd (b ∷ bs) w h = elim (Result-cases (write w fd (b ∷ bs)).0) [
    | inl (n, e) ↦ rw e (
        ground (
          arith,
          io.write_count w fd (b ∷ bs) n,
          io.write_interrupts w fd (b ∷ bs),
          length-drop n (b ∷ bs),
          write_loop-ne-hang fuel fd (drop n (b ∷ bs)) (write w fd (b ∷ bs)).1,
        ))
    | inr (k, e) ↦ rw e (
        ground (
          arith,
          io.write_known w fd (b ∷ bs) k,
          io.write_eintr w fd (b ∷ bs),
          write_loop-ne-hang fuel fd (b ∷ bs) (write w fd (b ∷ bs)).1,
        ))
  ]

  -- With write as documented, so that only finitely many calls are interrupted, bloomd_write_all
  -- returns: the fuel, one more than the bytes and the interruptions left, never runs out.
  pub write_all-ne-hang : (fd : ℕ) (buf : Bytes) (w : World) → (write_all P fd buf w).0 ≢ hang
  unfolding write_all
  write_all-ne-hang fd buf w =
      write_loop-ne-hang (suc (length buf + interrupts w)) fd buf w (omega arith)

  module _ (sent : World → ℕ → Bytes) (stream : StreamLaws P sent) where
    -- What a call has written: the first `count` bytes, all of them if it reports success.
    pub record Wrote (fd : ℕ) (buf : Bytes) (w : World) (result : ℕ × World) : Type 0 where
      pub count : ℕ
      pub count_le : count ≤ length buf
      pub sent_eq : sent result.1 fd ≡ sent w fd ++ take count buf
      pub stopped_or_all : (result.0 ≢ 0) ⊎ (count ≡ length buf)

    Wrote-stop :
        (fd e : ℕ) (buf : Bytes) (w w' : World)
        → e ≢ 0
        → sent w' fd ≡ sent w fd
        → Wrote fd buf w (e, w')
    Wrote-stop fd e buf w w' ne same = record {
      count = 0;
      count_le = omega arith;
      sent_eq = same ∙ sym (append-nil _);
      stopped_or_all = inl ne;
    }

    Wrote-retry :
        (fd : ℕ) (buf : Bytes) (w w' : World) (r : ℕ × World)
        → sent w' fd ≡ sent w fd
        → Wrote fd buf w' r
        → Wrote fd buf w r
    Wrote-retry fd buf w w' r same h = record {
      count = h.count;
      count_le = h.count_le;
      sent_eq = h.sent_eq ∙ ap (λ t. t ++ take h.count buf) same;
      stopped_or_all = h.stopped_or_all;
    }

    Wrote-next :
        (fd n : ℕ) (buf : Bytes) (w w' : World) (r : ℕ × World)
        → n ≤ length buf
        → sent w' fd ≡ sent w fd ++ take n buf
        → Wrote fd (drop n buf) w' r
        → Wrote fd buf w r
    Wrote-next fd n buf w w' r fits more h = record {
      count = n + h.count;
      count_le = omega (arith, length-drop n buf, h.count_le);
      sent_eq =
          h.sent_eq
          ∙ ap (λ t. t ++ take h.count (drop n buf)) more
          ∙ append_assoc (sent w fd) (take n buf) (take h.count (drop n buf))
          ∙ ap (λ t. sent w fd ++ t) (take-append-take-drop n h.count buf);
      stopped_or_all = ground (arith, length-drop n buf, h.stopped_or_all);
    }

    Wrote-after :
        (fd : ℕ) (buf : Bytes) (w : World) (retry : ℕ × World) (rest : ℕ → ℕ × World) (r : Result ℕ)
        → (write w fd buf).0 ≡ r
        → Wrote fd buf (write w fd buf).1 retry
        → ((n : ℕ) → Wrote fd (drop n buf) (write w fd buf).1 (rest n))
        → Wrote fd buf w (after_write P r (write w fd buf).1 retry rest)
    unfolding after_write
    Wrote-after fd buf w retry rest (ok n) e hr hn = elim (Bool-cases (n == 0)) [
      | inl z ↦ rw z (
          Wrote-stop fd epipe buf w (write w fd buf).1 (omega arith)
            (stream.write_ok w fd buf n e ∙ nothing_added n z))
      | inr z ↦ rw z (
          Wrote-next fd n buf w (write w fd buf).1 (rest n) (io.write_count w fd buf n e)
            (stream.write_ok w fd buf n e) (hn n))
    ]
      where
        nothing_added : (n : ℕ) → (n == 0) ≡ true → sent w fd ++ take n buf ≡ sent w fd
        nothing_added zero z = append-nil _
        nothing_added (suc n) z = ground arith
    Wrote-after fd buf w retry rest (err k) e hr hn = elim (Bool-cases (k == eintr)) [
      | inl i ↦
          rw i (Wrote-retry fd buf w (write w fd buf).1 retry (stream.write_err w fd buf k e) hr)
      | inr i ↦ rw i (elim (Bool-cases (k == eagain)) [
        | inl a ↦ rw a (
            Wrote-stop fd etimedout buf w (write w fd buf).1 (omega arith)
              (stream.write_err w fd buf k e))
        | inr a ↦ rw a (
            Wrote-stop fd k buf w (write w fd buf).1 (io.write_error w fd buf k e)
              (stream.write_err w fd buf k e))
      ])
    ]

    write_loop-Wrote :
        (fuel fd : ℕ) (buf : Bytes) (w : World) → Wrote fd buf w (write_loop P fuel fd buf w)
    unfolding write_loop
    write_loop-Wrote zero fd buf w = Wrote-stop fd hang buf w w (omega arith) refl
    write_loop-Wrote (suc fuel) fd [] w = record {
      count = 0;
      count_le = omega arith;
      sent_eq = sym (append-nil _);
      stopped_or_all = inr refl;
    }
    write_loop-Wrote (suc fuel) fd (b ∷ bs) w =
        Wrote-after fd (b ∷ bs) w (write_loop P fuel fd (b ∷ bs) (write w fd (b ∷ bs)).1)
          (λ n. write_loop P fuel fd (drop n (b ∷ bs)) (write w fd (b ∷ bs)).1)
          (write w fd (b ∷ bs)).0 refl (write_loop-Wrote fuel fd (b ∷ bs) (write w fd (b ∷ bs)).1)
          (λ n. write_loop-Wrote fuel fd (drop n (b ∷ bs)) (write w fd (b ∷ bs)).1)

    -- With write as documented, bloomd_write_all sends a prefix of the buffer, behind what went
    -- out before, and either returns an error or has sent all of the buffer.
    pub write_all-Wrote : (fd : ℕ) (buf : Bytes) (w : World) → Wrote fd buf w (write_all P fd buf w)
    unfolding write_all
    write_all-Wrote fd buf w = write_loop-Wrote (suc (length buf + interrupts w)) fd buf w
