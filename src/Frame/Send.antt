-- ===== src/Frame/Send.antt =====
-- `bloomd_write_response` of src/protocol.c: a header and a body go out by `writev`, as one text.
use kbloomd.Common.{
  ℕ, zero, suc, ◌+◌, ◌-◌, ◌≤◌, ◌<◌, ◌≡◌, ◌≢◌, ◌⊎◌, inl, inr, refl, sym, ap, ◌∙◌, arith, false, List,
  [], ◌∷◌, ◌++◌, Bytes, ok, err, Result-cases, Bool-cases, length, take, drop, ◌==◌, leb,
  if◌then◌else◌, eintr, eagain, etimedout, epipe, hang, append-nil, append_assoc, ==-ne,
  length-drop, drop-append_within, drop-append_beyond, take-append-drop, drop_all,
}
use mathlib.Core.Path.{subst}
use kbloomd.Platform.{Platform}
use kbloomd.Wire.{u32}
use kbloomd.Frame.{Header, Response, header_bytes}

-- The entries of `iov` after `n` bytes are gone: those that went out whole, and a part of the next.
unfoldable pub advance : ℕ → List Bytes → List Bytes
advance n [] = []
advance n (part ∷ rest) =
    let later = advance (n - length part) rest in
    if leb (length part) n then later else (drop n part ∷ rest)

-- The bytes that are left to go.
abbrev pub concat : List Bytes → Bytes
concat [] = []
concat (part ∷ rest) = part ++ concat rest

-- The header with the length of the body, and the body where there is one.
unfoldable pub iov_of : Response → List Bytes
iov_of resp =
    let hdr : Header = record resp.header { body_len = u32 (length resp.body.bytes) } in
    if length resp.body.bytes == 0
    then header_bytes hdr ∷ []
    else (header_bytes hdr ∷ resp.body.bytes ∷ [])

module _ (P : Platform) where
  open P use {World, interrupts, writev}

  -- The loop over `writev`, with the entries that are left.
  unfoldable pub writev_loop : ℕ → ℕ → List Bytes → World → ℕ × World
  writev_loop zero fd parts w = (hang, w)
  writev_loop (suc fuel) fd [] w = (0, w)
  writev_loop (suc fuel) fd (part ∷ rest) w =
      let (r, w1) = writev w fd (part ∷ rest) in
      let retry = writev_loop fuel fd (part ∷ rest) w1 in
      let next = λ (n : ℕ). writev_loop fuel fd (advance n (part ∷ rest)) w1 in
      elim r [
        | err e ↦ if e == eintr then retry else if e == eagain then (etimedout, w1) else (e, w1)
        | ok n ↦ if n == 0 then (epipe, w1) else next n
      ]

  unfoldable pub write_response : ℕ → Response → World → ℕ × World
  write_response fd resp w =
      writev_loop (suc (length (concat (iov_of resp)) + interrupts w)) fd (iov_of resp) w

concat-advance : (n : ℕ) (parts : List Bytes) → concat (advance n parts) ≡ drop n (concat parts)
unfolding advance
concat-advance n [] = sym (drop_all n [] (omega arith))
concat-advance n (part ∷ rest) = elim (Bool-cases (leb (length part) n)) [
  | inl gone ↦ rw gone (
      concat-advance (n - length part) rest
      ∙ sym (drop-append_beyond n part (concat rest) (ground arith)))
  | inr left ↦ rw left (sym (drop-append_within n part (concat rest) (ground arith)))
]

-- What `bloomd_write_response` sets out to send.
concat-iov_of :
    (resp : Response)
    → concat (iov_of resp)
      ≡ header_bytes (record resp.header { body_len = u32 (length resp.body.bytes) })
        ++ resp.body.bytes
unfolding iov_of
concat-iov_of resp = by_body resp.body.bytes
  where
    by_body :
        (body : Bytes)
        → concat (
            if length body == 0
            then header_bytes (record resp.header { body_len = u32 (length body) }) ∷ []
            else (header_bytes (record resp.header { body_len = u32 (length body) }) ∷ body ∷ []))
          ≡ header_bytes (record resp.header { body_len = u32 (length body) }) ++ body
    by_body [] = refl
    by_body (b ∷ bs) = rw (==-ne (suc (length bs)) 0 (λ e. ground arith)) (
        ap (λ t. header_bytes (record resp.header { body_len = u32 (length (b ∷ bs)) }) ++ t)
          (append-nil (b ∷ bs)))

-- writev(2) on a stream: the bytes that it counts are the first of the parts in their order.
pub record VectorLaws (P : Platform) (sent : P.World → ℕ → Bytes) : Type 0 where
  pub writev_count :
      (w : P.World) (fd : ℕ) (parts : List Bytes) (n : ℕ)
      → (P.writev w fd parts).0 ≡ ok n
      → n ≤ length (concat parts)
  pub writev_ok :
      (w : P.World) (fd : ℕ) (parts : List Bytes) (n : ℕ)
      → (P.writev w fd parts).0 ≡ ok n
      → sent (P.writev w fd parts).1 fd ≡ sent w fd ++ take n (concat parts)
  pub writev_err :
      (w : P.World) (fd : ℕ) (parts : List Bytes) (e : ℕ)
      → (P.writev w fd parts).0 ≡ err e
      → (e ≢ 0) × (e < 4096) × (sent (P.writev w fd parts).1 fd ≡ sent w fd)
  pub writev_interrupts :
      (w : P.World) (fd : ℕ) (parts : List Bytes)
      → P.interrupts (P.writev w fd parts).1 ≤ P.interrupts w
  pub writev_eintr :
      (w : P.World) (fd : ℕ) (parts : List Bytes)
      → (P.writev w fd parts).0 ≡ err eintr
      → P.interrupts (P.writev w fd parts).1 < P.interrupts w

module _ (P : Platform) (sent : P.World → ℕ → Bytes) (vectors : VectorLaws P sent) where
  open P use {World}

  -- The loop ends by an error, or with everything sent.
  abbrev pub Sends : ℕ → Bytes → World → ℕ × World → Type 0
  Sends fd bytes w r = (r.0 ≢ hang) × ((r.0 ≢ 0) ⊎ (sent r.1 fd ≡ sent w fd ++ bytes))

  writev_loop-Sends :
      (fuel fd : ℕ) (parts : List Bytes) (w : World)
      → length (concat parts) + P.interrupts w < fuel
      → Sends fd (concat parts) w (writev_loop P fuel fd parts w)
  unfolding writev_loop
  writev_loop-Sends zero fd parts w enough = absurd (omega arith)
  writev_loop-Sends (suc fuel) fd [] w enough = ((λ e. ground arith), inr (sym (append-nil _)))
  writev_loop-Sends (suc fuel) fd (part ∷ rest) w enough =
      elim (Result-cases (P.writev w fd (part ∷ rest)).0) [
        | inr (e, eq) ↦
            rw (writev_loop, eq)
              (elim (Bool-cases (e == eintr)) [
                | inl i ↦ rw i (
                    again
                      (writev_loop-Sends fuel fd (part ∷ rest) w1 (
                        omega (
                          arith,
                          enough,
                          vectors.writev_eintr w fd (part ∷ rest) (eq ∙ ap err (ground arith)),
                        )))
                      (vectors.writev_err w fd (part ∷ rest) e eq).2)
                | inr i ↦ rw i (
                    failed e (vectors.writev_err w fd (part ∷ rest) e eq).0
                      (vectors.writev_err w fd (part ∷ rest) e eq).1)
              ])
        | inl (n, eq) ↦
            rw (writev_loop, eq)
              (elim (Bool-cases (n == 0)) [
                | inl z ↦ rw z ((λ e. ground arith), inl (λ e. ground arith))
                | inr z ↦ rw z (
                    moved n eq (
                      writev_loop-Sends fuel fd (advance n (part ∷ rest)) w1 (
                        omega (
                          arith,
                          ap length (concat-advance n (part ∷ rest)),
                          length-drop n (concat (part ∷ rest)),
                          vectors.writev_count w fd (part ∷ rest) n eq,
                          vectors.writev_interrupts w fd (part ∷ rest),
                          enough,
                          nonzero n z,
                        ))))
              ])
      ]
    where
      w1 : World
      w1 = (P.writev w fd (part ∷ rest)).1

      nonzero : (n : ℕ) → (n == 0) ≡ false → n ≢ 0
      nonzero n z = ground arith

      again :
          {r : ℕ × World}
          → Sends fd (concat (part ∷ rest)) w1 r
          → sent w1 fd ≡ sent w fd
          → Sends fd (concat (part ∷ rest)) w r
      again {r} (returns, inl failed) same = (returns, inl failed)
      again {r} (returns, inr all) same =
          (returns, inr (all ∙ ap (λ t. t ++ concat (part ∷ rest)) same))

      failed :
          (e : ℕ)
          → e ≢ 0
          → e < 4096
          → Sends fd (concat (part ∷ rest)) w (if e == eagain then (etimedout, w1) else (e, w1))
      failed e ne small = ground (arith, ne)

      moved :
          {r : ℕ × World} (n : ℕ)
          → (P.writev w fd (part ∷ rest)).0 ≡ ok n
          → Sends fd (concat (advance n (part ∷ rest))) w1 r
          → Sends fd (concat (part ∷ rest)) w r
      moved {r} n eq (returns, inl failed) = (returns, inl failed)
      moved {r} n eq (returns, inr all) = (
        returns,
        inr (
            all
            ∙ ap (λ t. sent w1 fd ++ t) (concat-advance n (part ∷ rest))
            ∙ ap (λ t. t ++ drop n (concat (part ∷ rest)))
                (vectors.writev_ok w fd (part ∷ rest) n eq)
            ∙ append_assoc (sent w fd) (take n (concat (part ∷ rest)))
                (drop n (concat (part ∷ rest)))
            ∙ ap (λ t. sent w fd ++ t) (take-append-drop n (concat (part ∷ rest)))),
      )

  -- With writev as documented, bloomd_write_response returns, and when it returns 0 the header
  -- with the length of the body, and the body, have gone out in this order, whole.
  pub write_response-Sends :
      (fd : ℕ) (resp : Response) (w : World)
      → Sends fd
          (header_bytes (record resp.header { body_len = u32 (length resp.body.bytes) })
            ++ resp.body.bytes)
          w
          (write_response P fd resp w)
  unfolding write_response
  write_response-Sends fd resp w =
      subst (λ t. Sends fd t w (write_response P fd resp w)) (concat-iov_of resp)
        (writev_loop-Sends (suc (length (concat (iov_of resp)) + P.interrupts w)) fd (iov_of resp) w
          (omega arith))
