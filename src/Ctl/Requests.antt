-- ===== src/Ctl/Requests.antt =====
-- What src/bloomctl.c builds is what src/daemon.c parses.
use kbloomd.Common.{
  ℕ, ◌+◌, ◌-◌, ◌^◌, ◌≤◌, ◌<◌, ◌≡◌, ◌⊎◌, inl, inr, refl, sym, ap, ◌∙◌, arith, true, [], ◌∷◌, ◌++◌,
  Bytes, ok, Bool-cases, length, drop, ◌==◌, ltb, length-append, append_assoc, append-nil,
  take-length-append, drop-length-append, drop-drop, take_all, ltb-false, ==-refl,
}
use kbloomd.Platform.{Platform}
use kbloomd.Wire.{u16, u32, store_u16, store_u32}
use kbloomd.Wire.RoundTrip.{load_u16-store_u16, load_u32-store_u32}
use kbloomd.Frame.{Header, max_name_len}
use kbloomd.Name.{name_is_valid, name_view_is_valid}
use kbloomd.Buffer.{Buffer, buffer_append, buffer_init, max_frame_body}
use kbloomd.Handlers.{payload_request, PayloadRequest}
use kbloomd.Handlers.Add.{parse_name_payload}
use kbloomd.Ctl.{and_then, append_name, build_payload_request, payload_request_bytes}

-- The body of an ADD or CHECK request with a name and a payload.
abbrev pub payload_body : Bytes → Bytes → Bytes
payload_body name payload =
    payload_request_bytes
      (record { name_len = u16 (length name); reserved0 = 0; payload_len = u32 (length payload) })
    ++ (name ++ payload)

module _ (P : Platform) where
  open P use {World}

  pub buffer_append_ok :
      (buf : Buffer) (src : Bytes) (w : World)
      → (buffer_append P buf src w).0 ≡ 0
      → ((buffer_append P buf src w).1.bytes ≡ buf.bytes ++ src)
        × ((src ≡ []) ⊎ (length buf.bytes + length src ≤ max_frame_body))
  unfolding buffer_append
  buffer_append_ok buf [] w e = (sym (append-nil buf.bytes), inl refl)
  buffer_append_ok buf (x ∷ src) w e = ground arith

  append_name_ok :
      (name : Bytes) (buf : Buffer) (w : World)
      → (append_name P name buf w).0 ≡ 0
      → ((append_name P name buf w).1.bytes ≡ buf.bytes ++ name) × (name_is_valid name ≡ true)
  unfolding append_name
  append_name_ok name buf w e = ground (arith, buffer_append_ok buf name w)

  -- A chain that succeeds went through both its steps.
  and_then_ok :
      (r : ℕ × Buffer × World) (next : Buffer → World → ℕ × Buffer × World)
      → (and_then P r next).0 ≡ 0
      → (r.0 ≡ 0) × (and_then P r next ≡ next r.1 r.2)
  unfolding and_then
  and_then_ok (rc, buf, w) next e = elim (Bool-cases (rc == 0)) [
    | inl z ↦ (ground arith, rw (and_then, z))
    | inr z ↦ absurd (ground (arith, e))
  ]

  -- The part of `build_payload_request` behind its check of the length.
  built :
      (hdr name payload : Bytes) (w : World)
      → (and_then P
          (and_then P (buffer_append P buffer_init hdr w) (append_name P name))
          (λ buf w1. buffer_append P buf payload w1)).0
        ≡ 0
      → ((and_then P
            (and_then P (buffer_append P buffer_init hdr w) (append_name P name))
            (λ buf w1. buffer_append P buf payload w1)).1.bytes
          ≡ hdr ++ (name ++ payload))
        × (name_is_valid name ≡ true)
  built hdr name payload w e =
      let first = buffer_append P buffer_init hdr w in
      let second = and_then P first (append_name P name) in
      let outer = and_then_ok second (λ buf w1. buffer_append P buf payload w1) e in
      let inner = and_then_ok first (append_name P name) outer.0 in
      let third = buffer_append_ok second.1 payload second.2 (ap (λ r. r.0) (sym outer.1) ∙ e) in
      let named = append_name_ok name first.1 first.2 (ap (λ r. r.0) (sym inner.1) ∙ outer.0) in
      let put = buffer_append_ok buffer_init hdr w inner.0 in
      (
        ap (λ r. r.1.bytes) outer.1
            ∙ third.0
            ∙ ap (λ t. t ++ payload)
                (ap (λ r. r.1.bytes) inner.1 ∙ named.0 ∙ ap (λ t. t ++ name) (put.0 ∙ no_bytes hdr))
            ∙ append_assoc hdr name payload,
        named.1,
      )
    where
      no_bytes : (t : Bytes) → buffer_init.bytes ++ t ≡ t
      no_bytes t = unfold buffer_init in refl

  build_payload_request_ok :
      (name payload : Bytes) (w : World)
      → (build_payload_request P name payload buffer_init w).0 ≡ 0
      → ((build_payload_request P name payload buffer_init w).1.bytes ≡ payload_body name payload)
        × (name_is_valid name ≡ true)
        × (length payload < 2 ^ 32)
  unfolding build_payload_request
  build_payload_request_ok name payload w e =
      elim (Bool-cases (ltb (2 ^ 32 - 1) (length payload))) [
        | inl long ↦ absurd (ground (arith, e))
        | inr fits ↦
            let b =
              built
                (payload_request_bytes (record {
                  name_len = u16 (length name);
                  reserved0 = 0;
                  payload_len = u32 (length payload);
                }))
                name payload w (ground (arith, e)) in
            rw (build_payload_request, fits) (b.0, b.1, ground arith)
      ]

-- A name that is valid for the client is valid for the daemon, whatever follows it.
name_view-valid :
    (name rest : Bytes)
    → name_is_valid name ≡ true
    → (name_view_is_valid (name ++ rest) (length name) ≡ 0) × (length name ≤ max_name_len)
unfolding name_view_is_valid name_is_valid
name_view-valid name rest v = rw (take-length-append name rest) (ground (arith, v))

-- The header of the body, as the daemon loads it.
payload_request-payload_body :
    (name payload : Bytes)
    → length name ≤ max_name_len
    → length payload < 2 ^ 32
    → payload_request (payload_body name payload)
      ≡ record { name_len = length name; reserved0 = 0; payload_len = length payload }
unfolding payload_request payload_request_bytes store_u16 store_u32
payload_request-payload_body name payload short small =
    rw
      (
        load_u16-store_u16 (u16 (length name)) (drop 2 (payload_body name payload)) (omega arith),
        load_u32-store_u32 (u32 (length payload)) (name ++ payload) (omega arith),
        load_u16-store_u16 0 (drop 4 (payload_body name payload)) (omega arith),
        u16_small,
        u32_small,
      )
      refl
  where
    u16_small : u16 (length name) ≡ length name
    u16_small = omega (arith, short)

    u32_small : u32 (length payload) ≡ length payload
    u32_small = omega (arith, small)

length-payload_body :
    (name payload : Bytes) → length (payload_body name payload) ≡ 8 + length name + length payload
unfolding payload_request_bytes store_u16 store_u32
length-payload_body name payload = omega (arith, length-append name payload)

drop-payload_body :
    (name payload : Bytes)
    → (drop 8 (payload_body name payload) ≡ name ++ payload)
      × (drop (8 + length name) (payload_body name payload) ≡ payload)
unfolding payload_request_bytes store_u16 store_u32
drop-payload_body name payload = (
  refl,
  sym (drop-drop 8 (length name) (payload_body name payload)) ∙ drop-length-append name payload,
)

-- A body of which the header and what follows it are known.
parse_known :
    (hdr : Header) (body name payload : Bytes)
    → payload_request body
      ≡ record { name_len = length name; reserved0 = 0; payload_len = length payload }
    → drop 8 body ≡ name ++ payload
    → drop (8 + length name) body ≡ payload
    → hdr.body_len ≡ 8 + length name + length payload
    → name_view_is_valid (name ++ payload) (length name) ≡ 0
    → parse_name_payload (record { header = hdr; body = body })
      ≡ ok (record { name = name ++ payload; name_len = length name; payload = payload })
unfolding parse_name_payload payload_request
parse_known hdr body name payload loaded behind last whole valid =
    rw
      (
        ap (λ (r : PayloadRequest). r.name_len) loaded,
        ap (λ (r : PayloadRequest). r.reserved0) loaded,
        ap (λ (r : PayloadRequest). r.payload_len) loaded,
        last,
        behind,
        valid,
        take_all (length payload) payload (omega arith),
        whole,
        ltb-false (8 + length name + length payload) 8 (omega arith),
        ==-refl (8 + length name + length payload),
      )
      refl

parse_name_payload-payload_body :
    (hdr : Header) (name payload : Bytes)
    → hdr.body_len ≡ length (payload_body name payload)
    → name_is_valid name ≡ true
    → length payload < 2 ^ 32
    → parse_name_payload (record { header = hdr; body = payload_body name payload })
      ≡ ok (record { name = name ++ payload; name_len = length name; payload = payload })
parse_name_payload-payload_body hdr name payload len v small =
    let valid = name_view-valid name payload v in
    let parts = drop-payload_body name payload in
    parse_known hdr (payload_body name payload) name payload
      (payload_request-payload_body name payload valid.1 small) parts.0 parts.1
      (len ∙ length-payload_body name payload) valid.0

module _ (P : Platform) where
  open P use {World}

  -- When bloomctl has built the body of an ADD or CHECK request, the daemon parses it, in a frame
  -- with the length of the body, as the name and the payload that bloomctl was given.
  pub parse_name_payload-build_payload_request :
      (hdr : Header) (name payload : Bytes) (w : World)
      → (build_payload_request P name payload buffer_init w).0 ≡ 0
      → hdr.body_len ≡ length (build_payload_request P name payload buffer_init w).1.bytes
      → parse_name_payload (record {
        header = hdr;
        body = (build_payload_request P name payload buffer_init w).1.bytes;
      })
        ≡ ok (record { name = name ++ payload; name_len = length name; payload = payload })
  parse_name_payload-build_payload_request hdr name payload w e len =
      let b = build_payload_request_ok P name payload w e in
      rw b.0 (parse_name_payload-payload_body hdr name payload (len ∙ ap length b.0) b.1 b.2)
