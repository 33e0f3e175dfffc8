-- ===== src/Dispatch/Preserves.antt =====
-- Every request keeps the set of filters well-formed.
use kbloomd.Common.{ℕ, arith, Bytes, List, [], ◌∷◌, true, false, drop, take, length}
use kbloomd.Platform.{Platform}
use kbloomd.Frame.{Request}
use kbloomd.FilterSet.{Filter}
use kbloomd.FilterSet.Valid.{IsValid}
use kbloomd.Daemon.{Config, State, reply_error, reply_append}
use kbloomd.Handlers.{name_request}
use kbloomd.Handlers.Add.Preserves.{handle_add_check-IsValid, with_found-IsValid}
use kbloomd.Handlers.Batch.Preserves.{handle_batch-IsValid}
use kbloomd.Handlers.Create.Preserves.{handle_create-IsValid}
use kbloomd.Handlers.Drop.Preserves.{handle_drop-IsValid}
use kbloomd.Handlers.Info.{
  handle_ping, handle_info, handle_list, handle_stats, append_fields, list_loop, info_fields,
  stats_fields,
}
use kbloomd.Wire.{u16, u32, store_u16, store_u32}
use kbloomd.Dispatch.{
  Opcode, ping, create, add, check, madd, mcheck, info, list, stats, unknown, opcode_of, bodyless,
  handle, settle, dispatch,
}

module _ (P : Platform) where
  open P use {World}

  append_fields-IsValid :
      (fields : List Bytes) (rc : ℕ) (s : State P)
      → IsValid s.filters
      → IsValid (append_fields P fields rc s).1.filters
  unfolding append_fields reply_append
  append_fields-IsValid [] rc s v = v
  append_fields-IsValid (b ∷ fields) rc s v =
      append_fields-IsValid fields _ (reply_append P b s).1 v

  list_loop-IsValid :
      (items : List Filter) (s : State P)
      → IsValid s.filters
      → IsValid (list_loop P items s).1.filters
  unfolding list_loop reply_append
  list_loop-IsValid [] s v = v
  list_loop-IsValid (x ∷ items) s v =
      let len = u16 (length x.meta.name) in
      let s1 = (reply_append P (store_u16 len) s).1 in
      let s2 = (reply_append P (take len x.meta.name) s1).1 in
      ground (arith, v, list_loop-IsValid items s2 v)

  -- The rest of what follows the switch changes no filter.
  settle-IsValid : (rc : ℕ) (s : State P) → IsValid s.filters → IsValid (settle P rc s).1.filters
  unfolding settle reply_error
  settle-IsValid rc s v = ground (arith, v)

  handle_info-IsValid :
      (req : Request) (s : State P) → IsValid s.filters → IsValid (handle_info P req s).1.filters
  unfolding handle_info reply_error
  handle_info-IsValid req s v = ground (
    arith,
    v,
    with_found-IsValid P s (drop 8 req.body) (name_request req.body).name_len
        (λ i f s1. append_fields P (info_fields f) 0 s1)
        (λ i f s1 e v1. append_fields-IsValid (info_fields f) 0 s1 v1) v,
  )

  handle_list-IsValid : (s : State P) → IsValid s.filters → IsValid (handle_list P s).1.filters
  unfolding handle_list reply_append
  handle_list-IsValid s v =
      let s1 = (reply_append P (store_u32 (u32 (length s.filters.items))) s).1 in
      ground (arith, v, list_loop-IsValid s.filters.items s1 v)

  -- A request without a body, or the answer that it must have none.
  bodyless-IsValid :
      (req : Request) (message : Bytes) (handler : State P → ℕ × State P) (s : State P)
      → IsValid s.filters
      → IsValid (handler s).1.filters
      → IsValid (bodyless P req message handler s).1.filters
  unfolding bodyless reply_error
  bodyless-IsValid req message handler s v h = ground (arith, v, h)

  handle-IsValid :
      (cfg : Config) (req : Request) (op : Opcode) (s : State P)
      → IsValid s.filters
      → IsValid (handle P cfg req op s).1.filters
  unfolding handle handle_ping handle_stats reply_append reply_error
  handle-IsValid cfg req ping s v = bodyless-IsValid req _ (handle_ping P) s v v
  handle-IsValid cfg req create s v = handle_create-IsValid P cfg req s v
  handle-IsValid cfg req add s v = handle_add_check-IsValid P req true cfg.log_sync_mode s v
  handle-IsValid cfg req check s v = handle_add_check-IsValid P req false cfg.log_sync_mode s v
  handle-IsValid cfg req madd s v = handle_batch-IsValid P req true cfg.log_sync_mode s v
  handle-IsValid cfg req mcheck s v = handle_batch-IsValid P req false cfg.log_sync_mode s v
  handle-IsValid cfg req info s v = handle_info-IsValid req s v
  handle-IsValid cfg req list s v =
      bodyless-IsValid req _ (handle_list P) s v (handle_list-IsValid s v)
  handle-IsValid cfg req Opcode.drop s v = handle_drop-IsValid P req s v
  handle-IsValid cfg req stats s v =
      bodyless-IsValid req _ (handle_stats P) s v
        (append_fields-IsValid (stats_fields s.filters s.stats) 0 s v)
  handle-IsValid cfg req unknown s v = v

  -- From a well-formed set of filters, dispatching any request, with any answers of the system and
  -- the library, leaves a well-formed set: the names are texts without NUL, no two filters have
  -- the same name, and the array has room for its items.
  pub dispatch-IsValid :
      (cfg : Config) (req : Request) (s : State P)
      → IsValid s.filters
      → IsValid (dispatch P cfg req s).1.filters
  unfolding dispatch
  dispatch-IsValid cfg req s v =
      let op = opcode_of req.header.opcode in
      settle-IsValid (handle P cfg req op s).0 (handle P cfg req op s).1
        (handle-IsValid cfg req op s v)
