-- ===== src/Handlers/Drop/Preserves.antt =====
-- DROP of src/daemon.c keeps the set of filters well-formed.
use kbloomd.Common.{
  ℕ, ◌≡◌, refl, arith, Bytes, none, some, get_elem?, Bool, true, false, inl, inr, Bool-cases,
  if◌then◌else◌, ◌==◌, drop,
}
use kbloomd.Platform.{Platform}
use kbloomd.Frame.Status
use kbloomd.Frame.ErrorCode
use kbloomd.Frame.{Request}
use kbloomd.FilterSet.{Filter}
use kbloomd.FilterSet.Valid.{IsValid, filter_set_remove_n-IsValid}
use kbloomd.Bpf.{Outcome, done, fail, bpf_unpin}
use kbloomd.Log.{log_delete, remove_path_if_exists}
use kbloomd.Daemon.{State, put_filter, reply_error}
use kbloomd.Handlers.{name_request}
use kbloomd.Handlers.Add.Preserves.{put_filter-IsValid, with_found-IsValid}
use kbloomd.Handlers.Drop.{drop_forget, drop_meta, drop_found, handle_drop}

module _ (P : Platform) where
  open P use {World}

  drop_forget-IsValid :
      (name : Bytes) (n i : ℕ) (f : Filter) (s : State P)
      → get_elem? s.filters.items i ≡ some f
      → IsValid s.filters
      → IsValid (drop_forget P name n i f s).1.filters
  unfolding drop_forget
  drop_forget-IsValid name n i f s e v = elim (Bool-cases f.meta.has_data) [
    | inl d ↦
        rw d (
          filter_set_remove_n-IsValid P s.filters name n (log_delete P f.meta.log_path s.world).1 v)
    | inr d ↦ rw d (
        filter_set_remove_n-IsValid P (put_filter P i forgotten s).filters name n s.world
          (put_filter-IsValid P i f forgotten s e refl v))
  ]
    where
      forgotten : Filter
      forgotten = record f { meta = record f.meta { has_data = false }; map_fd = none }

  drop_meta-IsValid :
      (name : Bytes) (n i : ℕ) (f : Filter) (s : State P)
      → get_elem? s.filters.items i ≡ some f
      → IsValid s.filters
      → IsValid (drop_meta P name n i f s).1.filters
  unfolding drop_meta reply_error
  drop_meta-IsValid name n i f s e v =
      let (rc, w1) = remove_path_if_exists P f.meta.meta_path s.world in
      elim (Bool-cases (rc == 0)) [
        | inl z ↦ rw z (drop_forget-IsValid name n i f (record s { world = w1 }) e v)
        | inr z ↦ rw z v
      ]

  drop_found-IsValid :
      (name : Bytes) (n i : ℕ) (f : Filter) (s : State P)
      → get_elem? s.filters.items i ≡ some f
      → IsValid s.filters
      → IsValid (drop_found P name n i f s).1.filters
  unfolding drop_found reply_error
  drop_found-IsValid name n i f s e v =
      let (r, w1) = bpf_unpin P f.meta.pin_path s.world in with_data f.meta.has_data r w1
    where
      unpinned :
          (r : Outcome {0} Unit) (w : World)
          → IsValid
              (elim r as (λ _. ℕ × State P) [
                | fail rc message ↦
                    reply_error P Status.bpf ErrorCode.bpffs message (record s { world = w })
                | done t ↦ drop_meta P name n i f (record s { world = w })
              ]).1.filters
      unpinned (fail rc message) w = v
      unpinned (done t) w = drop_meta-IsValid name n i f (record s { world = w }) e v

      with_data :
          (d : Bool) (r : Outcome {0} Unit) (w : World)
          → IsValid
              (if d
                then (elim r as (λ _. ℕ × State P) [
                  | fail rc message ↦
                      reply_error P Status.bpf ErrorCode.bpffs message (record s { world = w })
                  | done t ↦ drop_meta P name n i f (record s { world = w })
                ])
                else drop_meta P name n i f s).1.filters
      with_data true r w = unpinned r w
      with_data false r w = drop_meta-IsValid name n i f s e v

  pub handle_drop-IsValid :
      (req : Request) (s : State P) → IsValid s.filters → IsValid (handle_drop P req s).1.filters
  unfolding handle_drop reply_error
  handle_drop-IsValid req s v = ground (
    arith,
    v,
    with_found-IsValid P s (drop 8 req.body) (name_request req.body).name_len
        (λ i f s1. drop_found P (drop 8 req.body) (name_request req.body).name_len i f s1)
        (drop_found-IsValid (drop 8 req.body) (name_request req.body).name_len) v,
  )
