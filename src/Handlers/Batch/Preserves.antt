-- ===== src/Handlers/Batch/Preserves.antt =====
-- MADD and MCHECK of src/daemon.c keep the set of filters well-formed.
use kbloomd.Common.{
  ℕ, zero, suc, ◌≡◌, refl, arith, Bytes, List, [], ◌∷◌, ◌++◌, some, Result, ok, err, Result-cases,
  length, take, drop, get_elem?, set, Bool, true, false, not, ◌&&◌, inl, inr, Bool-cases, text,
  if◌then◌else◌, ◌==◌, e2big,
}
use kbloomd.Platform.{Platform}
use kbloomd.Frame.Status
use kbloomd.Frame.ErrorCode
use kbloomd.Frame.{Request, Field, protocol_read_payload}
use kbloomd.FilterSet.{Filter}
use kbloomd.FilterSet.Valid.{IsValid}
use kbloomd.FilterState.{SyncMode}
use kbloomd.FilterState.Keeps.{SameFilter, SameFilter-refl, SameFilter-trans}
use kbloomd.Wire.{store_u16}
use kbloomd.Bpf.{Outcome, done, fail}
use kbloomd.Hash.{digest_payload}
use kbloomd.Daemon.{State, put_filter, reply_error, reply_append, next_count}
use kbloomd.Handlers.Add.{Added, added, refused, refuse, add_staged, prepare_add, with_found}
use kbloomd.Handlers.Add.Laws.{add_staged-SameFilter, prepare_add-SameFilter}
use kbloomd.Handlers.Add.Preserves.{put_filter-IsValid, with_found-IsValid}
use kbloomd.Handlers.Batch.{
  Batch, parse_batch, scan_items, BatchEnd, finished, stopped, malformed_payload, trailing_bytes,
  add_items, check_items, send_u32_count_bytes, batch_done, madd_found, mcheck_found, handle_batch,
}
use kbloomd.Handlers.Batch.Scan.{add_item}

get_elem?-set :
    (items : List Filter) (i : ℕ) (old new : Filter)
    → get_elem? items i ≡ some old
    → get_elem? (set items i new) i ≡ some new
get_elem?-set [] i old new e = ground arith
get_elem?-set (x ∷ items) zero old new e = refl
get_elem?-set (x ∷ items) (suc i) old new e = get_elem?-set items i old new e

module _ (P : Platform) where
  open P use {World}

  get_elem?_put :
      (i : ℕ) (old new : Filter) (s : State P)
      → get_elem? s.filters.items i ≡ some old
      → get_elem? (put_filter P i new s).filters.items i ≡ some new
  unfolding put_filter
  get_elem?_put i old new s e = get_elem?-set s.filters.items i old new e

  no_items-SameFilter :
      (items : Bytes) (f : Filter) (mode : SyncMode) (marked any : Bool) (results : Bytes)
      (w : World)
      → SameFilter f (add_items P zero items f mode marked any results w).1
  unfolding add_items
  no_items-SameFilter items f mode marked any results w = SameFilter-refl f

  bad_item-SameFilter :
      (left : ℕ) (items : Bytes) (f : Filter) (mode : SyncMode) (marked any : Bool)
      (results : Bytes) (w : World) (k : ℕ)
      → protocol_read_payload items ≡ err k
      → SameFilter f (add_items P (suc left) items f mode marked any results w).1
  unfolding add_items
  bad_item-SameFilter left items f mode marked any results w k e =
      rw (add_items, e) (SameFilter-refl f)

  add_items-SameFilter :
      (left : ℕ) (items : Bytes) (f : Filter) (mode : SyncMode) (marked any : Bool)
      (results : Bytes) (w : World)
      → SameFilter f (add_items P left items f mode marked any results w).1
  add_items-SameFilter zero items f mode marked any results w =
      no_items-SameFilter items f mode marked any results w
  add_items-SameFilter (suc left) items f mode marked any results w =
      elim (Result-cases (protocol_read_payload items)) [
        | inl (item, r) ↦ rw (add_item P left items f mode marked any results w item r) (
            after item
              (λ f' w'.
                add_items-SameFilter left (drop item.consumed items) f' mode marked true
                  (results ++ (1 ∷ [])) w')
              (add_staged P f (digest_payload item.value) mode (marked && not any) w)
              (add_staged-SameFilter P f (digest_payload item.value) mode (marked && not any) w))
        | inr (k, r) ↦ bad_item-SameFilter left items f mode marked any results w k r
      ]
    where
      after :
          (item : Field)
          → ((f' : Filter) (w' : World)
              → SameFilter f'
                  (add_items P left
                    (drop item.consumed items)
                    f'
                    mode
                    marked
                    true
                    (results ++ (1 ∷ []))
                    w').1)
          → (step : Added × Filter × World) → SameFilter f step.1
          → SameFilter f
              (elim step.0 as (λ _. BatchEnd × Filter × World) [
                | refused r ↦ (stopped r, step.1, step.2)
                | added ↦
                    add_items P left
                      (drop item.consumed items)
                      step.1
                      mode
                      marked
                      true
                      (results ++ (1 ∷ []))
                      step.2
              ]).1
      after item next (refused r, f', w') same = same
      after item next (added, f', w') same = SameFilter-trans f f' _ same (next f' w')

  -- The filter that stands at the index has the name that it had.
  batch_done-IsValid :
      (i : ℕ) (old counted : Filter) (count : ℕ) (end : BatchEnd) (s : State P)
      → get_elem? s.filters.items i ≡ some old
      → counted.meta.name ≡ old.meta.name
      → IsValid s.filters
      → IsValid (batch_done P i counted count end s).1.filters
  unfolding batch_done refuse reply_error send_u32_count_bytes reply_append
  batch_done-IsValid i old counted count (stopped r) s e same v = v
  batch_done-IsValid i old counted count (finished results rest) s e same v =
      let v1 = put_filter-IsValid P i old counted s e same v in
      elim (Bool-cases (length rest == 0)) [
        | inl z ↦
            rw z (
              counted_sent ((reply_append P (store_u16 count) (put_filter P i counted s)).0 == 0)
                v1)
        | inr z ↦ rw z v
      ]
    where
      counted_sent :
          (b : Bool)
          → IsValid (put_filter P i counted s).filters
          → IsValid
              (if not b
                then reply_append P (store_u16 count) (put_filter P i counted s)
                else reply_append P
                    (take count results)
                    (reply_append P (store_u16 count) (put_filter P i counted s)).1).1.filters
      counted_sent true v1 = v1
      counted_sent false v1 = v1

  mcheck_found-IsValid :
      (b : Batch) (i : ℕ) (f : Filter) (s : State P)
      → get_elem? s.filters.items i ≡ some f
      → IsValid s.filters
      → IsValid (mcheck_found P b i f s).1.filters
  unfolding mcheck_found
  mcheck_found-IsValid b i f s e v =
      let (end, w) = check_items P b.item_count b.items f [] s.world in
      batch_done-IsValid i f (record f { batch_check_calls = next_count f.batch_check_calls })
        b.item_count end (record s { world = w }) e refl v

  madd_found-IsValid :
      (b : Batch) (i : ℕ) (f : Filter) (mode : SyncMode) (s : State P)
      → get_elem? s.filters.items i ≡ some f
      → IsValid s.filters
      → IsValid (madd_found P b i f mode s).1.filters
  unfolding madd_found refuse reply_error
  madd_found-IsValid b i f mode s e v = scanned (scan_items b.item_count b.items)
    where
      ready : Filter
      ready = (prepare_add P f mode s.world).1

      w1 : World
      w1 = (prepare_add P f mode s.world).2

      prepared : State P
      prepared = put_filter P i ready (record s { world = w1 })

      run : Bool → BatchEnd × Filter × World
      run marked = add_items P b.item_count b.items ready mode marked false [] w1

      same_run : (marked : Bool) → SameFilter f (run marked).1
      same_run marked =
          SameFilter-trans f ready _ (prepare_add-SameFilter P f mode s.world)
            (add_items-SameFilter b.item_count b.items ready mode marked false [] w1)

      inserted : Bool → ℕ × State P
      inserted marked =
          let (end, filter', w2) = run marked in
          batch_done P i (record filter' { batch_add_calls = next_count filter'.batch_add_calls })
            b.item_count end (put_filter P i filter' (record s { world = w2 }))

      inserted-IsValid : (marked : Bool) → IsValid (inserted marked).1.filters
      inserted-IsValid marked =
          let (end, filter', w2) = run marked in
          batch_done-IsValid i filter'
            (record filter' { batch_add_calls = next_count filter'.batch_add_calls }) b.item_count
            end (put_filter P i filter' (record s { world = w2 }))
            (get_elem?_put i f filter' (record s { world = w2 }) e) refl
            (put_filter-IsValid P i f filter' (record s { world = w2 }) e (same_run marked).name v)

      outcome :
          (r : Outcome Bool)
          → IsValid
              (elim r as (λ _. ℕ × State P) [
                | fail rc message ↦
                    refuse P
                      (record { status = Status.io; code = ErrorCode.metadata; message = message })
                      prepared
                | done marked ↦ inserted marked
              ]).1.filters
      outcome (fail rc message) =
          put_filter-IsValid P i f ready (record s { world = w1 }) e
            (prepare_add-SameFilter P f mode s.world).name v
      outcome (done marked) = inserted-IsValid marked

      trailing :
          (t : Bool)
          → IsValid
              (if not t
                then refuse P trailing_bytes s
                else (elim (prepare_add P f mode s.world).0 as (λ _. ℕ × State P) [
                  | fail rc message ↦
                      refuse P
                        (record {
                          status = Status.io;
                          code = ErrorCode.metadata;
                          message = message;
                        })
                        prepared
                  | done marked ↦ inserted marked
                ])).1.filters
      trailing true = outcome (prepare_add P f mode s.world).0
      trailing false = v

      scanned :
          (r : Result Bytes)
          → IsValid
              (elim r as (λ _. ℕ × State P) [
                | err k ↦ refuse P malformed_payload s
                | ok rest ↦
                    if not (length rest == 0)
                    then refuse P trailing_bytes s
                    else (elim (prepare_add P f mode s.world).0 as (λ _. ℕ × State P) [
                      | fail rc message ↦
                          refuse P
                            (record {
                              status = Status.io;
                              code = ErrorCode.metadata;
                              message = message;
                            })
                            prepared
                      | done marked ↦ inserted marked
                    ])
              ]).1.filters
      scanned (err k) = v
      scanned (ok rest) = trailing (length rest == 0)

  pub handle_batch-IsValid :
      (req : Request) (is_add : Bool) (mode : SyncMode) (s : State P)
      → IsValid s.filters
      → IsValid (handle_batch P req is_add mode s).1.filters
  unfolding handle_batch reply_error
  handle_batch-IsValid req is_add mode s v = parsed (parse_batch req)
    where
      kind :
          (a : Bool) (b : Batch) (i : ℕ) (f : Filter) (s1 : State P)
          → get_elem? s1.filters.items i ≡ some f
          → IsValid s1.filters
          → IsValid (if a then madd_found P b i f mode s1 else mcheck_found P b i f s1).1.filters
      kind true b i f s1 e v1 = madd_found-IsValid b i f mode s1 e v1
      kind false b i f s1 e v1 = mcheck_found-IsValid b i f s1 e v1

      parsed :
          (r : Result Batch)
          → IsValid
              (elim r as (λ _. ℕ × State P) [
                | err e ↦
                    reply_error P
                      (if e == e2big then Status.too_large else Status.bad_request)
                      (if e == e2big then ErrorCode.range else ErrorCode.parse)
                      (if e == e2big
                        then text "batch item count exceeds protocol limit"
                        else text "malformed batch body")
                      s
                | ok b ↦ with_found P s b.name b.name_len (λ i f s1.
                    if is_add then madd_found P b i f mode s1 else mcheck_found P b i f s1)
              ]).1.filters
      parsed (err e) = v
      parsed (ok b) =
          with_found-IsValid P s b.name b.name_len
            (λ i f s1. if is_add then madd_found P b i f mode s1 else mcheck_found P b i f s1)
            (kind is_add b) v
