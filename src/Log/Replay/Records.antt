-- ===== src/Log/Replay/Records.antt =====
-- What reading a digest log back passes on, of src/log.c: the whole records of the file.
use kbloomd.Common.{
  ℕ, zero, suc, ◌+◌, ◌-◌, ◌*◌, ◌/◌, ◌^◌, ◌≤◌, ◌<◌, ◌≡◌, ◌≢◌, ◌⊎◌, inl, inr, refl, sym, ap, ◌∙◌,
  arith, Bool, true, false, List, [], ◌∷◌, ◌++◌, Bytes, Result, ok, err, length, take, drop, einval,
  eintr, length-append, append_assoc, take-length-append, drop-length-append, append-nil,
  Bool-cases, ◌==◌, ltb, not, if◌then◌else◌,
}
use mathlib.Core.Path.{subst}
use kbloomd.Platform.{Platform, read_only}
use kbloomd.Platform.Laws.{ReadLaws}
use kbloomd.Wire.{u64}
use kbloomd.Bpf.{digest_size}
use kbloomd.Log.Replay.{
  RecordRead, whole, ended, failed, after_read, read_record, replay_end, replay_round, replay_loop,
  log_replay_impl,
}

-- The first `n` records of a file.
abbrev pub records : ℕ → Bytes → List Bytes
records zero bs = []
records (suc n) bs = take digest_size bs ∷ records n (drop digest_size bs)

module _ (P : Platform) (unread : P.World → ℕ → Bytes) (reads : ReadLaws P unread) where
  open P use {World}

  -- What reading one record from a file that holds `file` may give, `fd` standing behind it.
  abbrev IsRecordRead : ℕ → Bytes → RecordRead → World → Type 0
  IsRecordRead fd file (whole d) w1 = (length d ≡ digest_size) × (file ≡ d ++ unread w1 fd)
  IsRecordRead fd file (ended n) w1 = (n ≡ length file) × (n < digest_size)
  IsRecordRead fd file (failed e) w1 =
      (v : World) × (n : ℕ) × ((P.read v fd n).0 ≡ err e) × (e ≢ eintr)

  after_read-IsRecordRead :
      (fd : ℕ) (got : Bytes) (w : World) (retry : RecordRead × World)
      (next : Bytes → RecordRead × World) (r : Result Bytes)
      → length got < digest_size
      → (P.read w fd (digest_size - length got)).0 ≡ r
      → ((r ≡ err eintr) → IsRecordRead fd (got ++ unread w fd) retry.0 retry.1)
      → ((bs : Bytes)
          → (r ≡ ok bs)
          → length bs ≢ 0
          → IsRecordRead fd (got ++ unread w fd) (next bs).0 (next bs).1)
      → IsRecordRead fd
          (got ++ unread w fd)
          (after_read P got r (P.read w fd (digest_size - length got)).1 retry next).0
          (after_read P got r (P.read w fd (digest_size - length got)).1 retry next).1
  unfolding after_read
  after_read-IsRecordRead fd got w retry next (err e) short eq hr hn =
      elim (Bool-cases (e == eintr)) [
        | inl i ↦ rw i (hr (ground arith))
        | inr i ↦ rw i (w, digest_size - length got, eq, ground arith)
      ]
  after_read-IsRecordRead fd got w retry next (ok bs) short eq hr hn =
      elim (Bool-cases (length bs == 0)) [
        | inl z ↦
            rw z (at_end (reads.read_end w fd (digest_size - length got) bs eq (ground arith)))
        | inr z ↦ rw z (hn bs refl (ground arith))
      ]
    where
      at_end :
          (unread w fd ≡ []) ⊎ (digest_size - length got ≡ 0)
          → (length got ≡ length (got ++ unread w fd)) × (length got < digest_size)
      at_end (inl none_left) = (ap length (sym (rw none_left (append-nil got))), short)
      at_end (inr none_asked) = absurd (omega arith)

  read_record-IsRecordRead :
      (fuel fd : ℕ) (got : Bytes) (w : World)
      → length got ≤ digest_size
      → digest_size - length got + P.interrupts w < fuel
      → IsRecordRead fd
          (got ++ unread w fd)
          (read_record P fuel fd got w).0
          (read_record P fuel fd got w).1
  unfolding read_record
  read_record-IsRecordRead zero fd got w fits enough = absurd (omega arith)
  read_record-IsRecordRead (suc fuel) fd got w fits enough =
      elim (Bool-cases (ltb (length got) digest_size)) [
        | inl short ↦ rw short (
            after_read-IsRecordRead fd got w (read_record P fuel fd got w1)
              (λ bs. read_record P fuel fd (got ++ bs) w1)
              (P.read w fd (digest_size - length got)).0 (ground arith) refl
              (λ e.
                subst
                  (λ t.
                    IsRecordRead fd (got ++ t) (read_record P fuel fd got w1).0
                      (read_record P fuel fd got w1).1)
                  (reads.read_err w fd (digest_size - length got) eintr e)
                  (read_record-IsRecordRead fuel fd got w1 fits
                    (omega (arith, reads.read_eintr w fd (digest_size - length got) e, enough))))
              (λ bs e ne.
                subst
                  (λ t.
                    IsRecordRead fd t (read_record P fuel fd (got ++ bs) w1).0
                      (read_record P fuel fd (got ++ bs) w1).1)
                  (append_assoc got bs (unread w1 fd)
                    ∙ ap (λ t. got ++ t) (sym (reads.read_ok w fd (digest_size - length got) bs e)))
                  (read_record-IsRecordRead fuel fd (got ++ bs) w1
                    (omega (
                      arith,
                      length-append got bs,
                      fits,
                      reads.read_count w fd (digest_size - length got) bs e,
                    ))
                    (omega (
                      arith,
                      length-append got bs,
                      ne,
                      enough,
                      reads.read_interrupts w fd (digest_size - length got),
                      reads.read_count w fd (digest_size - length got) bs e,
                    )))))
        | inr done ↦ rw done (ground arith, refl)
      ]
    where
      w1 : World
      w1 = (P.read w fd (digest_size - length got)).1

  -- Whatever a read leaves alone, reading a record leaves alone.
  read_record_keeps :
      {X : Type 0} (f : World → X)
      → ((w : World) (fd n : ℕ) → f (P.read w fd n).1 ≡ f w)
      → (fuel fd : ℕ) (got : Bytes) (w : World) → f (read_record P fuel fd got w).1 ≡ f w
  unfolding read_record
  read_record_keeps f keeps zero fd got w = refl
  read_record_keeps {X} f keeps (suc fuel) fd got w =
      elim (Bool-cases (ltb (length got) digest_size)) [
        | inl short ↦ rw short (
            after_read_keeps _ _ (P.read w fd (digest_size - length got)).0
              (read_record_keeps f keeps fuel fd got w1 ∙ keeps w fd (digest_size - length got))
              (λ bs.
                read_record_keeps f keeps fuel fd (got ++ bs) w1
                ∙ keeps w fd (digest_size - length got)))
        | inr done ↦ rw done
      ]
    where
      w1 : World
      w1 = (P.read w fd (digest_size - length got)).1

      after_read_keeps :
          (retry : RecordRead × World) (next : Bytes → RecordRead × World) (r : Result Bytes)
          → f retry.1 ≡ f w
          → ((bs : Bytes) → f (next bs).1 ≡ f w)
          → f (after_read P got r w1 retry next).1 ≡ f w
      after_read_keeps retry next (err e) hr hn =
          unfold after_read in ground (arith, hr, keeps w fd (digest_size - length got))
      after_read_keeps retry next (ok bs) hr hn =
          unfold after_read in ground (arith, hn bs, keeps w fd (digest_size - length got))

  -- A whole record in front of a file.
  records_cons :
      (file d rest : Bytes)
      → length d ≡ digest_size
      → file ≡ d ++ rest
      → (length file / digest_size ≡ suc (length rest / digest_size))
        × (records (length file / digest_size) file ≡ d ∷ records (length rest / digest_size) rest)
  records_cons file d rest l e = (one_more, rw (one_more, e, first, others))
    where
      one_more : length file / digest_size ≡ suc (length rest / digest_size)
      one_more = omega (arith, ap length e, length-append d rest, l)

      first : take digest_size (d ++ rest) ≡ d
      first = subst (λ n. take n (d ++ rest) ≡ d) l (take-length-append d rest)

      others : drop digest_size (d ++ rest) ≡ rest
      others = subst (λ n. drop n (d ++ rest) ≡ rest) l (drop-length-append d rest)

  module _ {C : Type 0} (cb : Bytes → C → World → ℕ × C × World)
      (seen : C → World → List Bytes) where
    -- A callback that adds each digest that it accepts to `seen`, which no other call here changes.
    pub record IsCollector : Type 0 where
      pub cb_seen :
          (d : Bytes) (c : C) (w : World)
          → (cb d c w).0 ≡ 0
          → seen (cb d c w).1 (cb d c w).2 ≡ seen c w ++ (d ∷ [])
      pub cb_unread :
          (d : Bytes) (c : C) (w : World) (fd : ℕ) → unread (cb d c w).2 fd ≡ unread w fd
      pub read_seen : (c : C) (w : World) (fd n : ℕ) → seen c (P.read w fd n).1 ≡ seen c w
      pub close_seen : (c : C) (w : World) (fd : ℕ) → seen c (P.close w fd) ≡ seen c w
      pub truncate_seen :
          (c : C) (w : World) (path : Bytes) (n : ℕ) → seen c (P.truncate w path n).1 ≡ seen c w

    -- Why a replay may stop with an error: a read that fails, a digest that is refused, or a
    -- truncation that fails.
    pub data Cause (truncate_partial : Bool) : ℕ → Type 0 where
      read_failed :
          (w : World) (fd n e : ℕ)
          → (P.read w fd n).0 ≡ err e
          → e ≢ eintr
          → Cause truncate_partial e
      refused : (d : Bytes) (c : C) (w : World) → (cb d c w).0 ≢ 0 → Cause truncate_partial einval
      truncate_failed :
          (w : World) (path : Bytes) (n : ℕ)
          → truncate_partial ≡ true
          → (P.truncate w path n).0 ≢ 0
          → Cause truncate_partial (P.truncate w path n).0

    -- The result of a replay of `file` from a count and what was seen: all the whole records were
    -- passed on, in order, or the error has a cause.
    abbrev pub Replayed : Bool → Bytes → ℕ → List Bytes → Result ℕ → List Bytes → Type 0
    Replayed truncate_partial file count before (ok n) after =
        (n ≡ count + length file / digest_size)
        × (after ≡ before ++ records (length file / digest_size) file)
    Replayed truncate_partial file count before (err e) after = Cause truncate_partial e

    -- The same of a result with its context and world.
    abbrev pub Ends : Bool → Bytes → ℕ → List Bytes → Result ℕ × C × World → Type 0
    Ends truncate_partial file count before r =
        Replayed truncate_partial file count before r.0 (seen r.1 r.2)

    -- A record more in front of what was replayed.
    Replayed-cons :
        (truncate_partial : Bool) (file d rest : Bytes) (count : ℕ) (before middle : List Bytes)
        (r : Result ℕ) (after : List Bytes)
        → length d ≡ digest_size
        → file ≡ d ++ rest
        → count + length file / digest_size < 2 ^ 64
        → middle ≡ before ++ (d ∷ [])
        → Replayed truncate_partial rest (u64 (count + 1)) middle r after
        → Replayed truncate_partial file count before r after
    Replayed-cons truncate_partial file d rest count before middle (err e) after l eq small m h = h
    Replayed-cons truncate_partial file d rest count before middle (ok n) after l eq small m h =
        let split = records_cons file d rest l eq in
        (
          omega (arith, h.0, split.0, small),
          h.1
              ∙ ap (λ t. t ++ records (length rest / digest_size) rest) m
              ∙ append_assoc before (d ∷ []) (records (length rest / digest_size) rest)
              ∙ ap (λ t. before ++ t) (sym split.1),
        )

    module _ (collector : IsCollector) where
      -- Nothing is left but a part of a record.
      nothing_more :
          (truncate_partial : Bool) (count : ℕ) (file : Bytes) (before after : List Bytes)
          → length file < digest_size
          → after ≡ before
          → Replayed truncate_partial file count before (ok count) after
      nothing_more truncate_partial count file before after short same = (
        omega (arith, none),
        same ∙ sym (append-nil before) ∙ ap (λ n. before ++ records n file) (sym none),
      )
        where
          none : length file / digest_size ≡ 0
          none = omega (arith, short)

      replay_end-Replayed :
          (path : Bytes) (truncate_partial : Bool) (count : ℕ) (c : C) (w : World) (file : Bytes)
          (before : List Bytes)
          → length file < digest_size
          → seen c w ≡ before
          → Ends truncate_partial file count before
              (replay_end P cb path truncate_partial count (length file) c w)
      unfolding replay_end
      replay_end-Replayed path truncate_partial count c w file before short same =
          elim (Bool-cases (length file == 0)) [
            | inl z ↦ rw z (nothing_more truncate_partial count file before (seen c w) short same)
            | inr z ↦ rw z (partial truncate_partial)
          ]
        where
          w1 : ℕ × World
          w1 = P.truncate w path (u64 (count * digest_size))

          partial :
              (t : Bool)
              → Ends t file count before (
                  if not t
                  then (ok count, c, w)
                  else if not (w1.0 == 0)
                  then (err w1.0, c, w1.1)
                  else (ok count, c, w1.1))
          partial false = nothing_more false count file before (seen c w) short same
          partial true = elim (Bool-cases (w1.0 == 0)) [
            | inl z ↦ rw z (
                nothing_more true count file before (seen c w1.1) short
                  (collector.truncate_seen c w path (u64 (count * digest_size)) ∙ same))
            | inr z ↦ rw z (truncate_failed w path (u64 (count * digest_size)) refl (ground arith))
          ]

      replay_loop-Replayed :
          (fuel : ℕ) (path : Bytes) (fd : ℕ) (truncate_partial : Bool) (count : ℕ) (c : C)
          (w : World)
          → length (unread w fd) < fuel
          → count + length (unread w fd) / digest_size < 2 ^ 64
          → Ends truncate_partial
              (unread w fd)
              count
              (seen c w)
              (replay_loop P cb fuel path fd truncate_partial count c w)
      unfolding replay_loop
      replay_loop-Replayed zero path fd truncate_partial count c w enough small =
          absurd (omega arith)
      replay_loop-Replayed (suc fuel) path fd truncate_partial count c w enough small =
          round (read_record P (suc (digest_size + P.interrupts w)) fd [] w)
            (read_record_keeps (seen c) (collector.read_seen c) (suc (digest_size + P.interrupts w))
              fd [] w)
            (read_record-IsRecordRead (suc (digest_size + P.interrupts w)) fd [] w (omega arith)
              (omega arith))
            (λ c1 w1 enough1 small1.
              replay_loop-Replayed fuel path fd truncate_partial (u64 (count + 1)) c1 w1 enough1
                small1)
        where
          next : C → World → Result ℕ × C × World
          next c1 w1 = replay_loop P cb fuel path fd truncate_partial (u64 (count + 1)) c1 w1

          round :
              (r : RecordRead × World)
              → seen c r.1 ≡ seen c w
              → IsRecordRead fd (unread w fd) r.0 r.1
              → ((c1 : C) (w1 : World)
                  → length (unread w1 fd) < fuel
                  → u64 (count + 1) + length (unread w1 fd) / digest_size < 2 ^ 64
                  → Ends truncate_partial
                      (unread w1 fd)
                      (u64 (count + 1))
                      (seen c1 w1)
                      (next c1 w1))
              → Ends truncate_partial
                  (unread w fd)
                  count
                  (seen c w)
                  (replay_round P cb path fd truncate_partial count c r next)
          round (failed e, w1) same (v, n, eq, ne) ih =
              unfold replay_round in read_failed v fd n e eq ne
          round (ended off, w1) same (len, short) ih =
              unfold replay_round in
              subst
                (λ n.
                  Ends truncate_partial (unread w fd) count (seen c w)
                    (replay_end P cb path truncate_partial count n c (P.close w1 fd)))
                (sym len)
                (replay_end-Replayed path truncate_partial count c (P.close w1 fd) (unread w fd)
                  (seen c w) (omega arith) (collector.close_seen c w1 fd ∙ same))
          round (whole d, w1) same (len, file) ih = elim (Bool-cases ((cb d c w1).0 == 0)) [
            | inl z ↦
                rw (replay_round, z)
                  (Replayed-cons truncate_partial (unread w fd) d (unread w1 fd) count (seen c w)
                    (seen (cb d c w1).1 (cb d c w1).2) _ _ len file small
                    (collector.cb_seen d c w1 (ground arith) ∙ ap (λ t. t ++ (d ∷ [])) same)
                    (subst
                      (λ t.
                        Ends truncate_partial t (u64 (count + 1)) (seen (cb d c w1).1 (cb d c w1).2)
                          (next (cb d c w1).1 (cb d c w1).2))
                      (collector.cb_unread d c w1 fd)
                      (ih (cb d c w1).1 (cb d c w1).2
                        (rw (collector.cb_unread d c w1 fd) (
                          omega
                            (arith, enough, ap length file, length-append d (unread w1 fd), len)))
                        (rw (collector.cb_unread d c w1 fd) (
                          omega
                            (arith, small, ap length file, length-append d (unread w1 fd), len))))))
            | inr z ↦ rw (replay_round, z) (refused d c w1 (ground arith))
          ]

      -- With read as documented, on a file of less than 2^63 bytes that is left alone and that
      -- could be opened, a replay with a callback that collects digests ends in one of two ways:
      -- it returns the number of the whole records of the file and they were passed on in order,
      -- or it returns the errno value of a failed read or truncation, or EINVAL after a digest
      -- that was refused.
      pub log_replay_impl-Ends :
          (path : Bytes) (truncate_partial : Bool) (c : C) (w : World) (fd : ℕ)
          → (P.open_file w path read_only).0 ≡ ok fd
          → length (unread (P.open_file w path read_only).1 fd) < 2 ^ 63
          → Ends truncate_partial
              (unread (P.open_file w path read_only).1 fd)
              0
              (seen c (P.open_file w path read_only).1)
              (log_replay_impl P cb path truncate_partial c w)
      unfolding log_replay_impl
      log_replay_impl-Ends path truncate_partial c w fd e small =
          rw (log_replay_impl, e)
            (replay_loop-Replayed (suc (P.bytes_left (P.open_file w path read_only).1 fd)) path fd
              truncate_partial 0 c (P.open_file w path read_only).1
              (omega (arith, reads.left (P.open_file w path read_only).1 fd))
              (omega (arith, small)))
