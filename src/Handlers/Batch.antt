-- ===== src/Handlers/Batch.antt =====
-- `bloomd_handle_batch` of src/daemon.c: MADD and MCHECK. The items are the bytes that are still
-- to read, for the source's `items + off` and `items_len - off`.
pub mod Scan
pub mod Preserves
use kbloomd.Common.{
  ℕ, zero, suc, ◌+◌, ◌-◌, Bool, true, false, not, ◌&&◌, ◌||◌, Option, none, some, List, [], ◌∷◌,
  ◌++◌, Bytes, text, Result, ok, err, length, take, drop, ◌==◌, ltb, if◌then◌else◌, einval, e2big,
}
use kbloomd.Platform.{Platform}
use kbloomd.Wire.{store_u16}
use kbloomd.Hash.{digest_payload}
use kbloomd.Name.{name_view_is_valid}
use kbloomd.Frame.Status
use kbloomd.Frame.ErrorCode
use kbloomd.Frame.{Request, Field, protocol_read_payload}
use kbloomd.Bpf.{Outcome, done, fail, bpf_check_digest}
use kbloomd.FilterSet.{Filter}
use kbloomd.FilterState.{SyncMode, raw_fd}
use kbloomd.Daemon.{State, next_count, reply_error, reply_append, put_filter}
use kbloomd.Handlers.{BatchRequest, batch_request}
use kbloomd.Handlers.Add.{
  Refusal, Added, added, refused, prepare_add, add_staged, refuse, with_found,
}

-- BLOOMD_MAX_BATCH_ITEMS
abbrev pub max_batch_items : ℕ
max_batch_items = 1024

-- The name, the items' count and their bytes.
pub record Batch : Type 0 where
  pub name : Bytes
  pub name_len : ℕ
  pub item_count : ℕ
  pub items : Bytes

-- bloomd_parse_batch
unfoldable pub parse_batch : Request → Result Batch
unfolding batch_request
parse_batch req =
    let hdr = batch_request req.body in
    let name = drop 8 req.body in
    if ltb req.header.body_len 8
    then err einval
    else if hdr.item_count == 0
    then err einval
    else if ltb max_batch_items hdr.item_count
    then err e2big
    else if not (hdr.reserved == 0)
    then err einval
    else if ltb req.header.body_len (8 + hdr.name_len)
    then err einval
    else if not (name_view_is_valid name hdr.name_len == 0)
    then err einval
    else ok (record {
      name = name;
      name_len = hdr.name_len;
      item_count = hdr.item_count;
      items = take (req.header.body_len - 8 - hdr.name_len) (drop (8 + hdr.name_len) req.body);
    })

-- The first loop of MADD: the bytes behind the last item, or an error.
unfoldable pub scan_items : ℕ → Bytes → Result Bytes
scan_items zero items = ok items
scan_items (suc left) items = elim (protocol_read_payload items) [
  | err e ↦ err e
  | ok f ↦ scan_items left (drop f.consumed items)
]

-- How a loop over the items ends: the results and the bytes behind the last item, or a refusal.
pub data BatchEnd : Type 0 where
  finished : Bytes → Bytes → BatchEnd
  stopped : Refusal → BatchEnd

abbrev pub malformed_payload : Refusal
malformed_payload = record {
  status = Status.bad_request;
  code = ErrorCode.parse;
  message = text "malformed batch payload";
}

abbrev pub trailing_bytes : Refusal
trailing_bytes = record {
  status = Status.bad_request;
  code = ErrorCode.parse;
  message = text "batch body has trailing bytes";
}

module _ (P : Platform) where
  open P use {World}

  -- The loop of MADD. `marked` is `meta_marked_dirty`, `any` is `any_added_success`.
  unfoldable pub add_items :
      ℕ → Bytes → Filter → SyncMode → Bool → Bool → Bytes → World → BatchEnd × Filter × World
  add_items zero items filter mode marked any results w = (finished results items, filter, w)
  add_items (suc left) items filter mode marked any results w = elim (protocol_read_payload items) [
    | err e ↦ (stopped malformed_payload, filter, w)
    | ok f ↦
        let (a, filter', w') =
          add_staged P filter (digest_payload f.value) mode (marked && not any) w in
        (elim a [
          | refused r ↦ (stopped r, filter', w')
          | added ↦
              add_items left (drop f.consumed items) filter' mode marked true (results ++ (1 ∷ []))
                w'
        ])
  ]

  -- The loop of MCHECK.
  unfoldable pub check_items : ℕ → Bytes → Filter → Bytes → World → BatchEnd × World
  check_items zero items filter results w = (finished results items, w)
  check_items (suc left) items filter results w = elim (protocol_read_payload items) [
    | err e ↦ (stopped malformed_payload, w)
    | ok f ↦
        let (r, w') = bpf_check_digest P (raw_fd filter.map_fd) (digest_payload f.value) w in
        (elim r [
          | fail rc message ↦ (
            stopped (record { status = Status.bpf; code = ErrorCode.none; message = message }),
            w',
          )
          | done present ↦
              check_items left (drop f.consumed items) filter
                (results ++ ((if present then 1 else 0) ∷ [])) w'
        ])
  ]

  -- bloomd_send_u32_count_bytes
  unfoldable pub send_u32_count_bytes : ℕ → Bytes → State P → ℕ × State P
  send_u32_count_bytes count values s =
      let (rc, s1) = reply_append P (store_u16 count) s in
      if not (rc == 0) then (rc, s1) else reply_append P (take count values) s1

  -- What follows the loop, on the filter as it now stands.
  unfoldable pub batch_done : ℕ → Filter → ℕ → BatchEnd → State P → ℕ × State P
  batch_done i counted count (stopped r) s = refuse P r s
  batch_done i counted count (finished results rest) s =
      if not (length rest == 0)
      then refuse P trailing_bytes s
      else send_u32_count_bytes count results (put_filter P i counted s)

  unfoldable pub madd_found : Batch → ℕ → Filter → SyncMode → State P → ℕ × State P
  madd_found b i filter mode s =
      let (r, ready, w1) = prepare_add P filter mode s.world in
      let prepared = put_filter P i ready (record s { world = w1 }) in
      elim (scan_items b.item_count b.items) [
        | err e ↦ refuse P malformed_payload s
        | ok rest ↦ if not (length rest == 0) then refuse P trailing_bytes s else (elim r [
          | fail rc message ↦
              refuse P (record { status = Status.io; code = ErrorCode.metadata; message = message })
                prepared
          | done marked ↦
              let (end, filter', w2) =
                add_items b.item_count b.items ready mode marked false [] w1 in
              batch_done i (record filter' { batch_add_calls = next_count filter'.batch_add_calls })
                b.item_count end (put_filter P i filter' (record s { world = w2 }))
        ])
      ]

  unfoldable pub mcheck_found : Batch → ℕ → Filter → State P → ℕ × State P
  mcheck_found b i filter s =
      let (end, w) = check_items b.item_count b.items filter [] s.world in
      batch_done i (record filter { batch_check_calls = next_count filter.batch_check_calls })
        b.item_count end (record s { world = w })

  unfoldable pub handle_batch : Request → Bool → SyncMode → State P → ℕ × State P
  handle_batch req is_add mode s = elim (parse_batch req) [
    | err e ↦
        reply_error P (if e == e2big then Status.too_large else Status.bad_request)
          (if e == e2big then ErrorCode.range else ErrorCode.parse)
          (if e == e2big
            then text "batch item count exceeds protocol limit"
            else text "malformed batch body")
          s
    | ok b ↦
        with_found P s b.name b.name_len
          (λ i f s1. if is_add then madd_found b i f mode s1 else mcheck_found b i f s1)
  ]
