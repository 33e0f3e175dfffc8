-- ===== src/Handlers/Add/Preserves.antt =====
-- ADD and CHECK of src/daemon.c keep the set of filters well-formed.
use kbloomd.Common.{
  ℕ, ◌≡◌, refl, sym, arith, Bytes, Option, none, some, Result, ok, err, length-set, get_elem?, Bool,
  true, false, inl, inr, Bool-cases, text, if◌then◌else◌,
}
use mathlib.Core.Path.{subst}
use kbloomd.Platform.{Platform}
use kbloomd.Frame.Status
use kbloomd.Frame.ErrorCode
use kbloomd.Frame.{Request}
use kbloomd.FilterSet.{Filter, FilterSet, filter_set_find_n, found_at, find_loop, cache_hit}
use kbloomd.FilterSet.Find.{IsCString}
use kbloomd.FilterSet.Valid.{IsValid, All-set, All_at, IsDistinct-set}
use kbloomd.FilterState.{SyncMode, raw_fd}
use kbloomd.Bpf.{Outcome, done, fail, bpf_check_digest}
use kbloomd.Hash.{digest_payload}
use kbloomd.Daemon.{State, put_filter, reply_error, reply_append, next_count}
use kbloomd.Handlers.Add.{
  Added, added, refused, NamePayload, add_to_filter, send_bool, refuse, add_found, check_found,
  with_found, handle_add_check, parse_name_payload,
}
use kbloomd.Handlers.Add.Laws.{add_to_filter-SameFilter}

pub find_n-IsValid :
    (set : FilterSet) (name : Bytes) (n : ℕ)
    → IsValid set
    → IsValid (filter_set_find_n set name n).1
unfolding filter_set_find_n found_at
find_n-IsValid set name n v = elim (Bool-cases (cache_hit set name n)) [
  | inl hit ↦ rw hit v
  | inr miss ↦ rw miss (found (find_loop set.items 0 name n))
]
  where
    found : (r : Option ℕ) → IsValid (found_at set r).1
    found none = v
    found (some i) = record { named = v.named; distinct = v.distinct; room = v.room }

module _ (P : Platform) where
  open P use {World}

  pub put_filter-IsValid :
      (i : ℕ) (old new : Filter) (s : State P)
      → get_elem? s.filters.items i ≡ some old
      → new.meta.name ≡ old.meta.name
      → IsValid s.filters
      → IsValid (put_filter P i new s).filters
  unfolding put_filter
  put_filter-IsValid i old new s e same v = record {
    named =
        All-set (λ x. IsCString x.meta.name) s.filters.items i new v.named
          (subst IsCString (sym same)
            (All_at (λ x. IsCString x.meta.name) s.filters.items i old v.named e));
    distinct = IsDistinct-set s.filters.items i old new e same v.distinct;
    room = omega (arith, length-set s.filters.items i new, v.room);
  }

  pub add_found-IsValid :
      (i : ℕ) (f : Filter) (digest : Bytes) (mode : SyncMode) (s : State P)
      → get_elem? s.filters.items i ≡ some f
      → IsValid s.filters
      → IsValid (add_found P i f digest mode s).1.filters
  unfolding add_found refuse send_bool reply_error reply_append
  add_found-IsValid i f digest mode s e v =
      let (a, f', w) = add_to_filter P f digest mode s.world in
      answered a (put_filter P i f' (record s { world = w })) (
        put_filter-IsValid i f f' (record s { world = w }) e
          (add_to_filter-SameFilter P f digest mode s.world).name v)
    where
      answered :
          (a : Added) (s' : State P)
          → IsValid s'.filters
          → IsValid
              (elim a as (λ _. ℕ × State P) [
                | refused r ↦ refuse P r s'
                | added ↦ send_bool P true s'
              ]).1.filters
      answered added s' v' = v'
      answered (refused r) s' v' = v'

  pub check_found-IsValid :
      (i : ℕ) (f : Filter) (digest : Bytes) (s : State P)
      → get_elem? s.filters.items i ≡ some f
      → IsValid s.filters
      → IsValid (check_found P i f digest s).1.filters
  unfolding check_found send_bool reply_error reply_append
  check_found-IsValid i f digest s e v =
      let (r, w) = bpf_check_digest P (raw_fd f.map_fd) digest s.world in answered r w
    where
      answered :
          (r : Outcome Bool) (w : World)
          → IsValid
              (elim r as (λ _. ℕ × State P) [
                | fail rc message ↦
                    reply_error P Status.bpf ErrorCode.none message (record s { world = w })
                | done present ↦ send_bool P present (
                    put_filter P i
                      (record f { check_calls = next_count f.check_calls })
                      (record s { world = w }))
              ]).1.filters
      answered (fail rc message) w = v
      answered (done present) w =
          put_filter-IsValid i f (record f { check_calls = next_count f.check_calls })
            (record s { world = w }) e refl v

  -- A handler on the filter of a name keeps the set well-formed if what it does to the filter does.
  pub with_found-IsValid :
      (s : State P) (name : Bytes) (n : ℕ) (use_it : ℕ → Filter → State P → ℕ × State P)
      → ((i : ℕ) (f : Filter) (s1 : State P)
          → get_elem? s1.filters.items i ≡ some f
          → IsValid s1.filters
          → IsValid (use_it i f s1).1.filters)
      → IsValid s.filters
      → IsValid (with_found P s name n use_it).1.filters
  unfolding with_found reply_error
  with_found-IsValid s name n use_it keeps v =
      let (found, filters) = filter_set_find_n s.filters name n in found_index found
    where
      filters : FilterSet
      filters = (filter_set_find_n s.filters name n).1

      s1 : State P
      s1 = record s { filters = filters }

      missing : ℕ × State P
      missing = reply_error P Status.not_found ErrorCode.none (text "filter not found") s1

      v1 : IsValid filters
      v1 = find_n-IsValid s.filters name n v

      found_item :
          (i : ℕ) (o : Option Filter)
          → get_elem? filters.items i ≡ o
          → IsValid
              (elim o as (λ _. ℕ × State P) [ none ↦ missing | some f ↦ use_it i f s1 ]).1.filters
      found_item i none e = v1
      found_item i (some f) e = keeps i f s1 e v1

      found_index :
          (r : Option ℕ)
          → IsValid
              (elim r as (λ _. ℕ × State P) [
                | none ↦ missing
                | some i ↦ (elim (get_elem? filters.items i) as (λ _. ℕ × State P) [
                  | none ↦ missing
                  | some f ↦ use_it i f s1
                ])
              ]).1.filters
      found_index none = v1
      found_index (some i) = found_item i (get_elem? filters.items i) refl

  pub handle_add_check-IsValid :
      (req : Request) (is_add : Bool) (mode : SyncMode) (s : State P)
      → IsValid s.filters
      → IsValid (handle_add_check P req is_add mode s).1.filters
  unfolding handle_add_check reply_error
  handle_add_check-IsValid req is_add mode s v = parsed (parse_name_payload req)
    where
      kind :
          (b : Bool) (digest : Bytes) (i : ℕ) (f : Filter) (s1 : State P)
          → get_elem? s1.filters.items i ≡ some f
          → IsValid s1.filters
          → IsValid
              (if b then add_found P i f digest mode s1 else check_found P i f digest s1).1.filters
      kind true digest i f s1 e v1 = add_found-IsValid i f digest mode s1 e v1
      kind false digest i f s1 e v1 = check_found-IsValid i f digest s1 e v1

      parsed :
          (r : Result NamePayload)
          → IsValid
              (elim r as (λ _. ℕ × State P) [
                | err e ↦ reply_error P Status.bad_request ErrorCode.parse (text "malformed body") s
                | ok p ↦ with_found P s p.name p.name_len (λ i f s1.
                    if is_add
                    then add_found P i f (digest_payload p.payload) mode s1
                    else check_found P i f (digest_payload p.payload) s1)
              ]).1.filters
      parsed (err e) = v
      parsed (ok p) =
          with_found-IsValid s p.name p.name_len
            (λ i f s1.
              if is_add
              then add_found P i f (digest_payload p.payload) mode s1
              else check_found P i f (digest_payload p.payload) s1)
            (kind is_add (digest_payload p.payload)) v
