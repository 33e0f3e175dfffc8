-- ===== src/Handlers/Create/Preserves.antt =====
-- CREATE of src/daemon.c keeps the set of filters well-formed.
use kbloomd.Common.{
  ℕ, ◌≡◌, sym, arith, Bytes, [], ◌∷◌, Option, none, some, ok, Result-cases, length, take, take_all,
  Bool, true, false, not, ◌||◌, inl, inr, text, if◌then◌else◌, ◌==◌, ltb, drop, ◌^◌, ◌-◌, eperm,
}
use mathlib.Core.Path.{subst}
use kbloomd.Platform.{Platform}
use kbloomd.Frame.{Request}
use kbloomd.FilterSet.{Meta, FilterSet, filter_set_find, filter_set_find_n}
use kbloomd.Frame.Status
use kbloomd.Frame.ErrorCode
use kbloomd.FilterSet.Find.{IsCString, Finds, filter_set_find_n-Finds}
use kbloomd.FilterSet.Valid.{IsValid, filter_set_add-IsValid}
use kbloomd.Bpf.{Outcome, done, fail, bpf_create_map}
use kbloomd.MetaFile.{meta_write_atomic}
use kbloomd.Name.{name_char, name_chars, parse_name_copy, name_view_is_valid}
use kbloomd.Daemon.{Config, Pool, Stats, take_empty_map, State, reply_error}
use kbloomd.Handlers.{CreateRequest, create_request}
use kbloomd.Handlers.Add.Preserves.{find_n-IsValid}
use kbloomd.Handlers.Create.{
  rate_in_range, assign_filter_paths, new_meta, new_filter, create_stored, create_map, create_paths,
  create_named, handle_create,
}

-- A name of the allowed characters has no NUL.
pub name_chars-IsCString : (name : Bytes) → name_chars name ≡ true → IsCString name
unfolding name_chars name_char
name_chars-IsCString [] h = tt
name_chars-IsCString (c ∷ rest) h = ground (arith, name_chars-IsCString rest)

parse_name_copy-IsCString :
    (src : Bytes) (n : ℕ) (name : Bytes) → parse_name_copy src n ≡ ok name → IsCString name
unfolding parse_name_copy name_view_is_valid
parse_name_copy-IsCString src n name h =
    subst IsCString (view_taken) (name_chars-IsCString (take n src) view_allowed)
  where
    view_taken : take n src ≡ name
    view_taken = ground arith

    view_allowed : name_chars (take n src) ≡ true
    view_allowed = ground arith

assign_filter_paths-name :
    (cfg : Config) (meta placed : Meta)
    → assign_filter_paths cfg meta ≡ ok placed
    → placed.name ≡ meta.name
unfolding assign_filter_paths
assign_filter_paths-name cfg meta placed h = ground (arith, h)

-- What the search before a creation finds.
pub find-Finds :
    (set : FilterSet) (name : Bytes)
    → IsCString name
    → IsValid set
    → Finds (filter_set_find set name).1.items name (filter_set_find set name).0
      × IsValid (filter_set_find set name).1
unfolding filter_set_find
find-Finds set name c v =
    let whole = take_all (length name) name (omega arith) in
    let h =
      filter_set_find_n-Finds name (length name) (subst IsCString (sym whole) c) (omega arith) set
        v.named in
    (
      subst (λ items. Finds items name (filter_set_find_n set name (length name)).0) (sym h.1)
          (subst (λ t. Finds set.items t (filter_set_find_n set name (length name)).0) whole h.0),
      find_n-IsValid set name (length name) v,
    )

module _ (P : Platform) where
  open P use {World}

  create_stored-IsValid :
      (meta : Meta) (fd : ℕ) (s : State P)
      → IsCString meta.name
      → Finds s.filters.items meta.name none
      → IsValid s.filters
      → IsValid (create_stored P meta fd s).1.filters
  unfolding create_stored reply_error new_filter
  create_stored-IsValid meta fd s c fresh v = ground (
    arith,
    v,
    (filter_set_add-IsValid P s.filters (new_filter P meta fd) (meta_write_atomic P meta s.world).1
        v c fresh).0,
  )

  create_map-IsValid :
      (meta : Meta) (s : State P)
      → IsCString meta.name
      → Finds s.filters.items meta.name none
      → IsValid s.filters
      → IsValid (create_map P meta s).1.filters
  unfolding create_map reply_error
  create_map-IsValid meta s c fresh v =
      let (taken, pool, stats) =
        take_empty_map s.pool s.stats meta.capacity meta.hashes meta.value_size in
      got taken pool stats (bpf_create_map P meta.name meta.capacity meta.hashes s.world)
    where
      made :
          (pool : Pool) (stats : Stats) (r : Outcome ℕ) (w : World)
          → IsValid
              (elim r as (λ _. ℕ × State P) [
                | done fd ↦
                    create_stored P meta fd (record s { pool = pool; stats = stats; world = w })
                | fail rc message ↦
                    reply_error P
                      (if rc == eperm then Status.perm else Status.bpf)
                      (if rc == eperm then ErrorCode.bpf_privs else ErrorCode.unsupported_kernel)
                      message
                      (record s { pool = pool; stats = stats; world = w })
              ]).1.filters
      made pool stats (done fd) w =
          create_stored-IsValid meta fd (record s { pool = pool; stats = stats; world = w }) c fresh
            v
      made pool stats (fail rc message) w = v

      got :
          (taken : Option ℕ) (pool : Pool) (stats : Stats) (m : Outcome ℕ × World)
          → IsValid
              (elim taken as (λ _. ℕ × State P) [
                | some fd ↦ create_stored P meta fd (record s { pool = pool; stats = stats })
                | none ↦ (elim m.0 as (λ _. ℕ × State P) [
                  | done fd ↦
                      create_stored P meta fd (record s { pool = pool; stats = stats; world = m.1 })
                  | fail rc message ↦
                      reply_error P
                        (if rc == eperm then Status.perm else Status.bpf)
                        (if rc == eperm then ErrorCode.bpf_privs else ErrorCode.unsupported_kernel)
                        message
                        (record s { pool = pool; stats = stats; world = m.1 })
                ])
              ]).1.filters
      got (some fd) pool stats m =
          create_stored-IsValid meta fd (record s { pool = pool; stats = stats }) c fresh v
      got none pool stats (r, w) = made pool stats r w

  create_paths-IsValid :
      (cfg : Config) (meta : Meta) (s : State P)
      → IsCString meta.name
      → Finds s.filters.items meta.name none
      → IsValid s.filters
      → IsValid (create_paths P cfg meta s).1.filters
  unfolding create_paths reply_error
  create_paths-IsValid cfg meta s c fresh v = elim (Result-cases (assign_filter_paths cfg meta)) [
    | inl (placed, e) ↦
        rw (create_paths, e)
          (let same = sym (assign_filter_paths-name cfg meta placed e) in
            create_map-IsValid placed s (subst IsCString same c)
              (subst (λ t. Finds s.filters.items t none) same fresh) v)
    | inr (k, e) ↦ rw (create_paths, e) v
  ]

  create_named-IsValid :
      (cfg : Config) (hdr : CreateRequest) (name : Bytes) (s : State P)
      → IsCString name
      → IsValid s.filters
      → IsValid (create_named P cfg hdr name s).1.filters
  unfolding create_named reply_error new_meta
  create_named-IsValid cfg hdr name s c v =
      let (found, filters) = filter_set_find s.filters name in
      let known = find-Finds s.filters name c v in
      in_range
        (hdr.capacity == 0
          || ltb (2 ^ 32 - 1) hdr.capacity
          || ltb 15 hdr.hashes
          || not (rate_in_range P hdr.error_rate))
        (searched found filters known.1 known.0)
    where
      answer : Option ℕ → FilterSet → ℕ × State P
      answer found filters = elim found as (λ _. ℕ × State P) [
        | some i ↦
            reply_error P Status.exists ErrorCode.none (text "filter already exists")
              (record s { filters = filters })
        | none ↦ create_paths P cfg (new_meta P hdr name) (record s { filters = filters })
      ]

      searched :
          (found : Option ℕ) (filters : FilterSet)
          → IsValid filters
          → Finds filters.items name found
          → IsValid (answer found filters).1.filters
      searched (some i) filters v1 h = v1
      searched none filters v1 h =
          create_paths-IsValid cfg (new_meta P hdr name) (record s { filters = filters }) c h v1

      in_range :
          (b : Bool)
          → IsValid
              (answer
                (filter_set_find s.filters name).0
                (filter_set_find s.filters name).1).1.filters
          → IsValid
              (if b
                then reply_error P Status.bad_request ErrorCode.range
                    (text "invalid capacity, error_rate, or hashes")
                    s
                else answer
                    (filter_set_find s.filters name).0
                    (filter_set_find s.filters name).1).1.filters
      in_range true h = v
      in_range false h = h

  pub handle_create-IsValid :
      (cfg : Config) (req : Request) (s : State P)
      → IsValid s.filters
      → IsValid (handle_create P cfg req s).1.filters
  unfolding handle_create reply_error
  handle_create-IsValid cfg req s v =
      let hdr = create_request req.body in
      elim (Result-cases (parse_name_copy (drop 24 req.body) hdr.name_len)) [
        | inl (name, e) ↦ ground (
          arith,
          v,
          e,
          create_named-IsValid cfg hdr name s
              (parse_name_copy-IsCString (drop 24 req.body) hdr.name_len name e) v,
        )
        | inr (k, e) ↦ ground (arith, v, e)
      ]
