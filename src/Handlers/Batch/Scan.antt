-- ===== src/Handlers/Batch/Scan.antt =====
-- MADD of src/daemon.c checks the shape of the whole body before it inserts anything.
use kbloomd.Common.{
  ℕ, zero, suc, ◌+◌, ◌≤◌, ◌≡◌, ◌⊎◌, inl, inr, refl, arith, Bool, true, not, ◌&&◌, List, [], ◌∷◌,
  ◌++◌, Bytes, ok, err, length, drop, ap, sym, ◌∙◌, Result-cases, length-append, append_assoc,
  drop-length-append,
}
use mathlib.Core.Path.{subst}
use kbloomd.Platform.{Platform}
use kbloomd.Wire.{store_u32}
use kbloomd.Hash.{digest_payload}
use kbloomd.Buffer.{max_frame_body}
use kbloomd.Frame.Status
use kbloomd.Frame.{Field, protocol_read_payload}
use kbloomd.Frame.RoundTrip.{read_payload-store}
use kbloomd.FilterSet.{Filter}
use kbloomd.FilterState.{SyncMode}
use kbloomd.Handlers.Add.{Refusal, Added, added, refused, add_staged}
use kbloomd.Handlers.Add.Laws.{add_staged_refused}
use kbloomd.Handlers.Batch.{scan_items, add_items, BatchEnd, finished, stopped}

-- The items of a batch on the wire, each behind its length.
pub encode_items : List Bytes → Bytes
encode_items [] = []
encode_items (payload ∷ rest) = store_u32 (length payload) ++ (payload ++ encode_items rest)

-- Every payload fits a frame.
abbrev pub AllFit : List Bytes → Type 0
AllFit [] = Unit
AllFit (payload ∷ rest) = (length payload ≤ max_frame_body) × AllFit rest

four_more : (n : ℕ) → 4 + n ≡ suc (suc (suc (suc n)))
four_more n = omega arith

-- What is left of an item and what follows it, once the item is read.
drop_item :
    (payload rest : Bytes)
    → drop (4 + length payload) (store_u32 (length payload) ++ (payload ++ rest)) ≡ rest
unfolding store_u32
drop_item payload rest =
    ap (λ n. drop n (store_u32 (length payload) ++ (payload ++ rest))) (four_more (length payload))
    ∙ drop-length-append payload rest

-- One round of the scan.
scan_item :
    (left : ℕ) (items : Bytes) (f : Field)
    → protocol_read_payload items ≡ ok f
    → scan_items (suc left) items ≡ scan_items left (drop f.consumed items)
unfolding scan_items
scan_item left items f e = rw (scan_items, e) refl

scan_none : (items : Bytes) → scan_items zero items ≡ ok items
unfolding scan_items
scan_none items = refl

append_item :
    (payload mid rest : Bytes)
    → (store_u32 (length payload) ++ (payload ++ mid)) ++ rest
      ≡ store_u32 (length payload) ++ (payload ++ (mid ++ rest))
append_item payload mid rest =
    append_assoc (store_u32 (length payload)) (payload ++ mid) rest
    ∙ ap (λ t. store_u32 (length payload) ++ t) (append_assoc payload mid rest)

-- For payloads of at most one frame each, the scan of their length-prefixed encoding, with any
-- bytes behind it, succeeds and leaves exactly those bytes.
pub scan_items-encode_items :
    (payloads : List Bytes) (rest : Bytes)
    → AllFit payloads
    → scan_items (length payloads) (encode_items payloads ++ rest) ≡ ok rest
unfolding encode_items
scan_items-encode_items [] rest h = scan_none rest
scan_items-encode_items (p ∷ payloads) rest h =
    ap (scan_items (suc (length payloads))) (append_item p (encode_items payloads) rest)
    ∙ scan_item (length payloads) (store_u32 (length p) ++ (p ++ (encode_items payloads ++ rest)))
        (record { value = p; consumed = 4 + length p })
        (read_payload-store p (encode_items payloads ++ rest) h.0)
    ∙ ap (scan_items (length payloads)) (drop_item p (encode_items payloads ++ rest))
    ∙ scan_items-encode_items payloads rest h.1

scan_bad :
    (left : ℕ) (items : Bytes) (k : ℕ)
    → protocol_read_payload items ≡ err k
    → scan_items (suc left) items ≡ err k
unfolding scan_items
scan_bad left items k e = rw (scan_items, e) refl

-- How the inserting loop may end after a scan that left `rest`: it went through all the items, or the
-- log or the map failed.
abbrev pub EndsAfterScan : ℕ → Bytes → BatchEnd → Type 0
EndsAfterScan count rest (finished results left) = (length results ≡ count) × (left ≡ rest)
EndsAfterScan count rest (stopped r) = (r.status ≡ Status.io) ⊎ (r.status ≡ Status.bpf)

module _ (P : Platform) where
  open P use {World}

  -- One round of the inserting loop, for an item that is read.
  pub add_item :
      (left : ℕ) (items : Bytes) (filter : Filter) (mode : SyncMode) (marked any : Bool)
      (results : Bytes) (w : World) (f : Field)
      → protocol_read_payload items ≡ ok f
      → let (a, filter', w') =
          add_staged P filter (digest_payload f.value) mode (marked && not any) w in
        add_items P (suc left) items filter mode marked any results w ≡ (elim a [
          | refused r ↦ (stopped r, filter', w')
          | added ↦
              add_items P left
                (drop f.consumed items)
                filter'
                mode
                marked
                true
                (results ++ (1 ∷ []))
                w'
        ])
  unfolding add_items
  add_item left items filter mode marked any results w f e = rw (add_items, e) refl

  pub Added-cases : (a : Added) → (a ≡ added) ⊎ ((r : Refusal) × (a ≡ refused r))
  Added-cases added = inl refl
  Added-cases (refused r) = inr (r, refl)

  add_none :
      (items : Bytes) (f : Filter) (mode : SyncMode) (marked any : Bool) (results : Bytes)
      (w : World) (rest : Bytes)
      → scan_items zero items ≡ ok rest
      → EndsAfterScan
          (length results + zero)
          rest
          (add_items P zero items f mode marked any results w).0
  unfolding scan_items add_items
  add_none items f mode marked any results w rest e = (omega arith, cc e)

  after_item :
      (left : ℕ) (items : Bytes) (f : Filter) (mode : SyncMode) (marked any : Bool)
      (results : Bytes) (w : World) (rest : Bytes) (item : Field)
      → protocol_read_payload items ≡ ok item
      → ((f' : Filter) (results' : Bytes) (w' : World)
          → EndsAfterScan
              (length results' + left)
              rest
              (add_items P left (drop item.consumed items) f' mode marked true results' w').0)
      → EndsAfterScan
          (length results + suc left)
          rest
          (add_items P (suc left) items f mode marked any results w).0
  after_item left items f mode marked any results w rest item r next =
      let (a, f', w') = add_staged P f (digest_payload item.value) mode (marked && not any) w in
      elim (Added-cases a) [
        | inl p ↦
            rw (add_item left items f mode marked any results w item r, p)
              (subst
                (λ n.
                  EndsAfterScan n rest
                    (add_items P left (drop item.consumed items) f' mode marked true
                      (results ++ (1 ∷ [])) w').0)
                (omega (arith, length-append results (1 ∷ []))) (next f' (results ++ (1 ∷ [])) w'))
        | inr (refusal, p) ↦
            rw (add_item left items f mode marked any results w item r, p)
              (add_staged_refused P f (digest_payload item.value) mode (marked && not any) w refusal
                p)
      ]

  -- If the first loop of MADD accepts the items, the inserting loop never refuses one as
  -- malformed: it ends with a result for every item at the place where the scan ended, unless it
  -- stops with an I/O or a map error.
  pub add_items-EndsAfterScan :
      (left : ℕ) (items : Bytes) (f : Filter) (mode : SyncMode) (marked any : Bool)
      (results : Bytes) (w : World) (rest : Bytes)
      → scan_items left items ≡ ok rest
      → EndsAfterScan
          (length results + left)
          rest
          (add_items P left items f mode marked any results w).0
  add_items-EndsAfterScan zero items f mode marked any results w rest e =
      add_none items f mode marked any results w rest e
  add_items-EndsAfterScan (suc left) items f mode marked any results w rest e =
      elim (Result-cases (protocol_read_payload items)) [
        | inl (item, r) ↦
            after_item left items f mode marked any results w rest item r (λ f' results' w'.
              add_items-EndsAfterScan left (drop item.consumed items) f' mode marked true results'
                w' rest (sym (scan_item left items item r) ∙ e))
        | inr (k, r) ↦ absurd (cc (scan_bad left items k r, e))
      ]
