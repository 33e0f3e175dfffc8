-- ===== src/Io/Reads.antt =====
-- What `bloomd_read_all` of src/util.c returns, and that it returns.
use kbloomd.Common.{
  ℕ, zero, suc, ◌+◌, ◌-◌, ◌<◌, ◌≡◌, ◌≢◌, inl, inr, refl, sym, ap, ◌∙◌, arith, [], ◌++◌, Bytes,
  Result, ok, err, Result-cases, Bool-cases, length, ◌==◌, eintr, eagain, hang, append-nil,
  append_assoc, length-append,
}
use kbloomd.Platform.{Platform}
use kbloomd.Platform.Laws.{ReadLaws}
use kbloomd.Io.{read_loop, read_all}

module _ (P : Platform) (unread : P.World → ℕ → Bytes) (reads : ReadLaws P unread) where
  open P use {World}

  -- An error that is not the end of the fuel, or so many bytes behind those that were there, taken
  -- off the front of the stream.
  abbrev pub Reads : ℕ → ℕ → Bytes → World → Result Bytes × World → Type 0
  Reads fd len got w (err e, w') = e ≢ hang
  Reads fd len got w (ok all, w') =
      (bs : Bytes) × (all ≡ got ++ bs) × (length bs ≡ len) × (unread w fd ≡ bs ++ unread w' fd)

  Reads-retried :
      (fd len : ℕ) (got : Bytes) (w w1 : World) (r : Result Bytes × World)
      → unread w1 fd ≡ unread w fd
      → Reads fd len got w1 r
      → Reads fd len got w r
  Reads-retried fd len got w w1 (err e, w') same h = h
  Reads-retried fd len got w w1 (ok all, w') same h = (h.0, h.1, h.2, sym same ∙ h.3)

  Reads-more :
      (fd len : ℕ) (got bs : Bytes) (w w1 : World) (r : Result Bytes × World)
      → unread w fd ≡ bs ++ unread w1 fd
      → length bs < suc len
      → Reads fd (len - length bs) (got ++ bs) w1 r
      → Reads fd len got w r
  Reads-more fd len got bs w w1 (err e, w') front some_read h = h
  Reads-more fd len got bs w w1 (ok all, w') front some_read h = (
    bs ++ h.0,
    h.1 ∙ append_assoc got bs h.0,
    omega (arith, length-append bs h.0, h.2),
    front ∙ ap (λ t. bs ++ t) h.3 ∙ sym (append_assoc bs h.0 (unread w' fd)),
  )

  read_loop-Reads :
      (fuel fd len : ℕ) (got : Bytes) (w : World)
      → len + P.interrupts w < fuel
      → Reads fd len got w (read_loop P fuel fd len got w)
  unfolding read_loop
  read_loop-Reads zero fd len got w enough = absurd (omega arith)
  read_loop-Reads (suc fuel) fd zero got w enough = ([], sym (append-nil got), refl, refl)
  read_loop-Reads (suc fuel) fd (suc len) got w enough =
      elim (Result-cases (P.read w fd (suc len)).0) [
        | inl (bs, eq) ↦
            rw (read_loop, eq)
              (elim (Bool-cases (length bs == 0)) [
                | inl none_left ↦ rw none_left (λ e. ground arith)
                | inr some_left ↦ rw some_left (
                    Reads-more fd (suc len) got bs w (P.read w fd (suc len)).1 _
                      (reads.read_ok w fd (suc len) bs eq)
                      (omega (arith, reads.read_count w fd (suc len) bs eq))
                      (read_loop-Reads fuel fd (suc len - length bs) (got ++ bs)
                        (P.read w fd (suc len)).1
                        (ground (
                          arith,
                          some_left,
                          enough,
                          reads.read_count w fd (suc len) bs eq,
                          reads.read_interrupts w fd (suc len),
                        ))))
              ])
        | inr (e, eq) ↦
            rw (read_loop, eq)
              (elim (Bool-cases (e == eintr)) [
                | inl again ↦ rw again (
                    Reads-retried fd (suc len) got w (P.read w fd (suc len)).1 _
                      (reads.read_err w fd (suc len) e eq)
                      (read_loop-Reads fuel fd (suc len) got (P.read w fd (suc len)).1
                        (ground (arith, again, enough, eq, reads.read_eintr w fd (suc len)))))
                | inr ended ↦ rw ended (elim (Bool-cases (e == eagain)) [
                  | inl late ↦ rw late (λ h. omega (arith, h))
                  | inr other ↦
                      rw other (λ h. omega (arith, h, reads.read_known w fd (suc len) e eq))
                ])
              ])
      ]

  -- With read as documented, bloomd_read_all returns: an error, or exactly the next bytes of the
  -- stream, as many as were asked for and in their order, and the stream goes on behind them.
  pub read_all-Reads : (fd len : ℕ) (w : World) → Reads fd len [] w (read_all P fd len w)
  unfolding read_all
  read_all-Reads fd len w = read_loop-Reads (suc (len + P.interrupts w)) fd len [] w (omega arith)

  -- The same by the result that came.
  pub read_all-ok :
      (fd len : ℕ) (w : World) (all : Bytes)
      → (read_all P fd len w).0 ≡ ok all
      → (length all ≡ len) × (unread w fd ≡ all ++ unread (read_all P fd len w).1 fd)
  read_all-ok fd len w all = came (read_all P fd len w) (read_all-Reads fd len w)
    where
      came :
          (r : Result Bytes × World)
          → Reads fd len [] w r
          → r.0 ≡ ok all
          → (length all ≡ len) × (unread w fd ≡ all ++ unread r.1 fd)
      came (err e, w') h eq = absurd (ground (arith, eq))
      came (ok bs, w') h eq =
          let same : bs ≡ all = ground (arith, eq) in
          (ap length (sym same ∙ h.1) ∙ h.2, h.3 ∙ ap (λ t. t ++ unread w' fd) (sym h.1 ∙ same))

  pub read_all-err : (fd len : ℕ) (w : World) (e : ℕ) → (read_all P fd len w).0 ≡ err e → e ≢ hang
  read_all-err fd len w e = came (read_all P fd len w) (read_all-Reads fd len w)
    where
      came : (r : Result Bytes × World) → Reads fd len [] w r → r.0 ≡ err e → e ≢ hang
      came (err k, w') h eq = ground (arith, h, eq)
      came (ok bs, w') h eq = absurd (ground (arith, eq))
