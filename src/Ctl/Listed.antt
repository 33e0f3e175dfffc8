-- ===== src/Ctl/Listed.antt =====
-- LIST from end to end: what src/bloomctl.c prints is what src/daemon.c holds.
use kbloomd.Common.{
  ℕ, ◌+◌, ◌^◌, ◌<◌, ◌≡◌, inl, inr, refl, sym, ap, ◌∙◌, arith, List, [], ◌∷◌, ◌++◌, Bytes,
  Bool-cases, length, take, drop, ◌==◌, length-append, append_assoc, append-nil, take-length-append,
  drop-length-append, drop-drop, take_all, ltb-false,
}
use kbloomd.Platform.{Platform}
use kbloomd.Wire.{u16, u32, store_u16, store_u32, load_u16, load_u32}
use kbloomd.Wire.RoundTrip.{load_u16-store_u16, load_u32-store_u32}
use kbloomd.Frame.{Header}
use kbloomd.Frame.RoundTrip.{length-store_u32}
use kbloomd.FilterSet.{Filter}
use kbloomd.Daemon.{State, reply_append}
use kbloomd.Handlers.Info.{list_loop, handle_list}
use kbloomd.Ctl.Requests.{buffer_append_ok}
use kbloomd.Ctl.Replies.{Shown, line, show_names, show_list}

-- The names of a reply, each behind its length.
abbrev pub encode_names : List Filter → Bytes
encode_names [] = []
encode_names (item ∷ rest) =
    store_u16 (length item.meta.name) ++ (item.meta.name ++ encode_names rest)

-- The lines of output, one for each filter.
abbrev pub name_lines : List Filter → List Shown
name_lines [] = []
name_lines (item ∷ rest) = line item.meta.name ∷ name_lines rest

-- Names whose length fits two bytes.
abbrev pub AreShort : List Filter → Type 0
AreShort [] = Unit
AreShort (item ∷ rest) = (length item.meta.name < 2 ^ 16) × AreShort rest

length-store_u16 : (n : ℕ) → length (store_u16 n) ≡ 2
unfolding store_u16
length-store_u16 n = refl

-- The bytes up to the end of the first name.
entry_end :
    (before : Bytes) (item : Filter) (rest : List Filter)
    → before ++ encode_names (item ∷ rest)
      ≡ (before ++ (store_u16 (length item.meta.name) ++ item.meta.name)) ++ encode_names rest
entry_end before item rest =
    ap (λ t. before ++ t)
      (sym (append_assoc (store_u16 (length item.meta.name)) item.meta.name (encode_names rest)))
    ∙ sym (
        append_assoc before (store_u16 (length item.meta.name) ++ item.meta.name)
          (encode_names rest))

show_names-encode_names :
    (items : List Filter) (before : Bytes) (hdr : Header) (body : Bytes) (off : ℕ)
    (printed : List Shown)
    → AreShort items
    → body ≡ before ++ encode_names items
    → off ≡ length before
    → hdr.body_len ≡ length body
    → show_names (length items) off (record { header = hdr; body = body }) printed
      ≡ (0, printed ++ name_lines items)
unfolding show_names
show_names-encode_names [] before hdr body off printed short e at len =
    rw (append-nil printed) (ground (arith, ap length e, length-append before []))
show_names-encode_names (item ∷ rest) before hdr body off printed (s, short) e at len =
    rw
      (
        loaded,
        ltb-false hdr.body_len (off + 2) (omega (arith, whole)),
        ltb-false hdr.body_len (off + 2 + length item.meta.name) (omega (arith, whole)),
        name_at,
      )
      (show_names-encode_names rest
          (before ++ (store_u16 (length item.meta.name) ++ item.meta.name)) hdr body
          (off + 2 + length item.meta.name) (printed ++ (line item.meta.name ∷ [])) short
          (e ∙ entry_end before item rest)
          (omega (
            arith,
            at,
            length-append before (store_u16 (length item.meta.name) ++ item.meta.name),
            length-append (store_u16 (length item.meta.name)) item.meta.name,
            length-store_u16 (length item.meta.name),
          ))
          len
        ∙ ap (λ t. (0, t)) (append_assoc printed (line item.meta.name ∷ []) (name_lines rest)))
  where
    whole : hdr.body_len ≡ off + 2 + length item.meta.name + length (encode_names rest)
    whole = omega (
      arith,
      at,
      len,
      ap length e,
      length-append before (encode_names (item ∷ rest)),
      length-append (store_u16 (length item.meta.name)) (item.meta.name ++ encode_names rest),
      length-append item.meta.name (encode_names rest),
      length-store_u16 (length item.meta.name),
    )

    behind : drop off body ≡ encode_names (item ∷ rest)
    behind =
        ap (drop off) e
        ∙ ap (λ n. drop n (before ++ encode_names (item ∷ rest))) at
        ∙ drop-length-append before (encode_names (item ∷ rest))

    loaded : load_u16 (drop off body) ≡ length item.meta.name
    loaded =
        ap load_u16 behind
        ∙ load_u16-store_u16 (length item.meta.name) (item.meta.name ++ encode_names rest) s

    name_at : take (length item.meta.name) (drop (off + 2) body) ≡ item.meta.name
    name_at =
        unfold store_u16 in
        ap (take (length item.meta.name)) (sym (drop-drop off 2 body) ∙ ap (drop 2) behind)
        ∙ take-length-append item.meta.name (encode_names rest)

show_list-encode_names :
    (items : List Filter) (hdr : Header) (body : Bytes)
    → AreShort items
    → length items < 2 ^ 32
    → body ≡ store_u32 (u32 (length items)) ++ encode_names items
    → hdr.body_len ≡ length body
    → show_list (record { header = hdr; body = body }) ≡ (0, name_lines items)
unfolding show_list
show_list-encode_names items hdr body short few e len =
    rw (ltb-false hdr.body_len 4 (omega (arith, len, ap length e, bytes)), counted)
      (show_names-encode_names items (store_u32 (u32 (length items))) hdr body 4 [] short e
        (sym (length-store_u32 (u32 (length items)))) len)
  where
    bytes :
        length (store_u32 (u32 (length items)) ++ encode_names items)
        ≡ 4 + length (encode_names items)
    bytes =
        length-append (store_u32 (u32 (length items))) (encode_names items)
        ∙ ap (λ n. n + length (encode_names items)) (length-store_u32 (u32 (length items)))

    counted : load_u32 body ≡ length items
    counted =
        ap load_u32 e
        ∙ load_u32-store_u32 (u32 (length items)) (encode_names items) (omega arith)
        ∙ omega (arith, few)

module _ (P : Platform) where
  reply_append_ok :
      (src : Bytes) (s : State P)
      → (reply_append P src s).0 ≡ 0
      → ((reply_append P src s).1.resp.body.bytes ≡ s.resp.body.bytes ++ src)
        × ((reply_append P src s).1.filters ≡ s.filters)
  unfolding reply_append
  reply_append_ok src s e = ((buffer_append_ok P s.resp.body src s.world e).0, refl)

  list_loop_ok :
      (items : List Filter) (s : State P)
      → AreShort items
      → (list_loop P items s).0 ≡ 0
      → (list_loop P items s).1.resp.body.bytes ≡ s.resp.body.bytes ++ encode_names items
  unfolding list_loop
  list_loop_ok [] s short e = sym (append-nil s.resp.body.bytes)
  list_loop_ok (item ∷ rest) s (small, short) e = elim (Bool-cases (s1.0 == 0)) [
    | inr z ↦ absurd (ground (arith, e))
    | inl z ↦ (elim (Bool-cases (s2.0 == 0)) [
      | inr z2 ↦ absurd (ground (arith, e, z))
      | inl z2 ↦
          rw (list_loop, z, z2)
            (list_loop_ok rest s2.1 short (ground (arith, e))
              ∙ ap (λ t. t ++ encode_names rest)
                  ((reply_append_ok (take len item.meta.name) s1.1 (ground arith)).0
                    ∙ ap (λ t. t ++ take len item.meta.name)
                        (reply_append_ok (store_u16 len) s (ground arith)).0)
              ∙ joined)
    ])
  ]
    where
      len : ℕ
      len = u16 (length item.meta.name)

      s1 : ℕ × State P
      s1 = reply_append P (store_u16 len) s

      s2 : ℕ × State P
      s2 = reply_append P (take len item.meta.name) s1.1

      same_len : len ≡ length item.meta.name
      same_len = omega (arith, small)

      joined :
          ((s.resp.body.bytes ++ store_u16 len) ++ take len item.meta.name) ++ encode_names rest
          ≡ s.resp.body.bytes ++ encode_names (item ∷ rest)
      joined =
          rw (same_len, take_all (length item.meta.name) item.meta.name (omega arith))
            (append_assoc (s.resp.body.bytes ++ store_u16 (length item.meta.name)) item.meta.name
                (encode_names rest)
              ∙ append_assoc s.resp.body.bytes (store_u16 (length item.meta.name))
                  (item.meta.name ++ encode_names rest))

  handle_list_ok :
      (s : State P)
      → s.resp.body.bytes ≡ []
      → AreShort s.filters.items
      → (handle_list P s).0 ≡ 0
      → (handle_list P s).1.resp.body.bytes
        ≡ store_u32 (u32 (length s.filters.items)) ++ encode_names s.filters.items
  unfolding handle_list
  handle_list_ok s blank short e = elim (Bool-cases (s1.0 == 0)) [
    | inr z ↦ absurd (ground (arith, e))
    | inl z ↦
        rw (handle_list, z)
          (list_loop_ok s.filters.items s1.1 short (ground (arith, e))
            ∙ ap (λ t. t ++ encode_names s.filters.items)
                ((reply_append_ok (store_u32 (u32 (length s.filters.items))) s (ground arith)).0
                  ∙ ap (λ t. t ++ store_u32 (u32 (length s.filters.items))) blank))
  ]
    where
      s1 : ℕ × State P
      s1 = reply_append P (store_u32 (u32 (length s.filters.items))) s

  -- When bloomd_handle_list succeeds on an empty response, with fewer than 2^32 filters and names
  -- of less than 64 KiB, the client that gets its body in a frame exits with 0 and prints the
  -- names of all the filters of the set, in their order, and nothing else.
  pub show_list-handle_list :
      (hdr : Header) (s : State P)
      → s.resp.body.bytes ≡ []
      → AreShort s.filters.items
      → length s.filters.items < 2 ^ 32
      → (handle_list P s).0 ≡ 0
      → hdr.body_len ≡ length (handle_list P s).1.resp.body.bytes
      → show_list (record { header = hdr; body = (handle_list P s).1.resp.body.bytes })
        ≡ (0, name_lines s.filters.items)
  show_list-handle_list hdr s blank short few e len =
      show_list-encode_names s.filters.items hdr (handle_list P s).1.resp.body.bytes short few
        (handle_list_ok s blank short e) len
