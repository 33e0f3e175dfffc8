-- ===== src/Recovery/Valid.antt =====
-- The set of filters that src/daemon.c builds at start is well-formed.
use kbloomd.Common.{
  ℕ, ◌≡◌, inl, inr, refl, sym, arith, Bool, true, false, not, ◌&&◌, Option, none, some, List, [],
  ◌∷◌, ◌++◌, Bytes, text, Result, ok, err, Result-cases, if◌then◌else◌, ◌==◌, enoent, euclean,
}
use mathlib.Core.Path.{subst}
use kbloomd.Platform.{Platform}
use kbloomd.Name.{name_is_valid, build_log_path}
use kbloomd.Bpf.{Outcome, done, fail, into_errbuf, bpf_create_map, bpf_open_pinned}
use kbloomd.FilterSet.{Meta, Filter, FilterSet, filter_set_find}
use kbloomd.FilterSet.Find.{IsCString, Finds}
use kbloomd.FilterSet.Valid.{IsValid, filter_set_add-IsValid}
use kbloomd.FilterState.{open_filter_log, filter_log_opened}
use kbloomd.Daemon.{Config}
use kbloomd.Handlers.Create.{new_filter, assign_filter_paths}
use kbloomd.Handlers.Create.Preserves.{name_chars-IsCString, find-Finds}
use kbloomd.MetaRead.Accepted.{meta_read_file-IsAccepted}
use kbloomd.MetaRead.{meta_read_file}
use kbloomd.Recovery.{rebuild_from_log, list_dir, meta_entry_name}
use kbloomd.Recovery.Load.{
  Step, next, stop, Loading, validate_open_pinned_map, set_aside, cleanup_entry, load_add,
  load_filter, load_mapped, load_unpinned, load_accepted, load_named, load_entry, load_loop,
  load_metadata_dir,
}

pub valid_name-IsCString : (name : Bytes) → name_is_valid name ≡ true → IsCString name
unfolding name_is_valid
valid_name-IsCString name h = name_chars-IsCString name (ground arith)

module _ (P : Platform) where
  open P use {World}

  load_add-IsValid :
      (meta : Meta) (fd : ℕ) (u : Bool) (filter : Filter) (l : Loading P)
      → IsCString filter.meta.name
      → Finds l.filters.items filter.meta.name none
      → IsValid l.filters
      → IsValid (load_add P meta fd u filter l).1.filters
  unfolding load_add cleanup_entry
  load_add-IsValid meta fd u filter l c fresh v =
      ground (arith, (filter_set_add-IsValid P l.filters filter l.world v c fresh).0)

  opened_name : (f : Filter) (w : World) → (open_filter_log P f false w).1.meta.name ≡ f.meta.name
  unfolding open_filter_log
  opened_name f w = opened f _ _
    where
      opened :
          (f : Filter) (r : Result ℕ) (w : World)
          → (filter_log_opened P f r w).1.meta.name ≡ f.meta.name
      opened f (ok fd) w = unfold filter_log_opened in refl
      opened f (err e) w = unfold filter_log_opened in refl

  load_filter-IsValid :
      (meta : Meta) (fd : ℕ) (u : Bool) (l : Loading P)
      → IsCString meta.name
      → Finds l.filters.items meta.name none
      → IsValid l.filters
      → IsValid (load_filter P meta fd u l).1.filters
  unfolding load_filter cleanup_entry new_filter
  load_filter-IsValid meta fd u l c fresh v = by_data meta.has_data
    where
      filter : Filter
      filter = record (new_filter P meta fd) {
        log_history_incomplete = meta.has_data && not meta.log_clean;
      }

      opened : Outcome (Unit {0}) × Filter × World
      opened = open_filter_log P filter false l.world

      by_outcome :
          (r : Outcome (Unit {0}))
          → IsValid
              (elim r as (λ _. Step × Loading P) [
                | fail rc message ↦ (
                  stop rc message,
                  cleanup_entry P meta fd opened.1.log_fd u (record l { world = opened.2 }),
                )
                | done t ↦ load_add P meta fd u opened.1 (record l { world = opened.2 })
              ]).1.filters
      by_outcome (fail rc message) = v
      by_outcome (done t) =
          let same = opened_name filter l.world in
          load_add-IsValid meta fd u opened.1 (record l { world = opened.2 }) (rw same c)
            (rw same fresh) v

      by_data :
          (b : Bool)
          → IsValid
              (if not b
                then load_add P meta fd u filter l
                else elim opened.0 as (λ _. Step × Loading P) [
                  | fail rc message ↦ (
                    stop rc message,
                    cleanup_entry P meta fd opened.1.log_fd u (record l { world = opened.2 }),
                  )
                  | done t ↦ load_add P meta fd u opened.1 (record l { world = opened.2 })
                ]).1.filters
      by_data true = by_outcome opened.0
      by_data false = load_add-IsValid meta fd u filter l c fresh v

  load_mapped-IsValid :
      (path : Bytes) (meta : Meta) (fd : ℕ) (u : Bool) (l : Loading P)
      → IsCString meta.name
      → IsValid l.filters
      → IsValid (load_mapped P path meta fd u l).1.filters
  unfolding load_mapped cleanup_entry set_aside
  load_mapped-IsValid path meta fd u l c v =
      let known = find-Finds l.filters meta.name c v in
      let (valid, w1) = validate_open_pinned_map P meta fd l.world in
      let (found, filters) = filter_set_find l.filters meta.name in
      by_outcome valid w1 found filters known.1 known.0
    where
      by_found :
          (w1 : World) (found : Option ℕ) (filters : FilterSet)
          → IsValid filters
          → Finds filters.items meta.name found
          → IsValid
              (elim found as (λ _. Step × Loading P) [
                | some i ↦ (
                  next,
                  cleanup_entry P meta fd none u
                      (set_aside P path (record l { world = w1; filters = filters })),
                )
                | none ↦ load_filter P meta fd u (record l { world = w1; filters = filters })
              ]).1.filters
      by_found w1 (some i) filters v1 h = v1
      by_found w1 none filters v1 h =
          load_filter-IsValid meta fd u (record l { world = w1; filters = filters }) c h v1

      by_outcome :
          (valid : Outcome (Unit {0})) (w1 : World) (found : Option ℕ) (filters : FilterSet)
          → IsValid filters
          → Finds filters.items meta.name found
          → IsValid
              (elim valid as (λ _. Step × Loading P) [
                | fail rc message ↦
                    (stop rc message, cleanup_entry P meta fd none u (record l { world = w1 }))
                | done t ↦ (elim found as (λ _. Step × Loading P) [
                  | some i ↦ (
                    next,
                    cleanup_entry P meta fd none u
                        (set_aside P path (record l { world = w1; filters = filters })),
                  )
                  | none ↦ load_filter P meta fd u (record l { world = w1; filters = filters })
                ])
              ]).1.filters
      by_outcome (fail rc message) w1 found filters v1 h = v
      by_outcome (done t) w1 found filters v1 h = by_found w1 found filters v1 h

  rebuild_from_log_name :
      (cfg : Config) (meta : Meta) (w : World) → (rebuild_from_log P cfg meta w).1.name ≡ meta.name
  unfolding rebuild_from_log assign_filter_paths
  rebuild_from_log_name cfg meta w = ground arith

  load_unpinned-IsValid :
      (cfg : Config) (path : Bytes) (meta : Meta) (l : Loading P)
      → IsCString meta.name
      → IsValid l.filters
      → IsValid (load_unpinned P cfg path meta l).1.filters
  unfolding load_unpinned set_aside
  load_unpinned-IsValid cfg path meta l c v =
      chosen meta.has_data meta.log_clean
        (made (bpf_create_map P meta.name meta.capacity meta.hashes l.world))
        (rebuilt (rebuild_from_log P cfg meta l.world)
          (subst IsCString (sym (rebuild_from_log_name cfg meta l.world)) c))
    where
      empty_map : Outcome ℕ × World → Step × Loading P
      empty_map m = elim m.0 as (λ _. Step × Loading P) [
        | done fd ↦ load_mapped P path meta fd false (record l { world = m.1 })
        | fail rc message ↦ (stop rc message, record l { world = m.1 })
      ]

      made : (m : Outcome ℕ × World) → IsValid (empty_map m).1.filters
      made (done fd, w1) = load_mapped-IsValid path meta fd false (record l { world = w1 }) c v
      made (fail rc message, w1) = v

      from_log : Outcome (ℕ × ℕ) × Meta × World → Step × Loading P
      from_log m = elim m.0 as (λ _. Step × Loading P) [
        | done (fd, replayed) ↦ load_mapped P path m.1 fd true (record l { world = m.2 })
        | fail rc message ↦
            if rc == enoent
            then (next, set_aside P path (record l { world = m.2 }))
            else (stop rc message, record l { world = m.2 })
      ]

      rebuilt :
          (m : Outcome (ℕ × ℕ) × Meta × World) → IsCString m.1.name → IsValid (from_log m).1.filters
      rebuilt (done (fd, replayed), placed, w2) h =
          load_mapped-IsValid path placed fd true (record l { world = w2 }) h v
      rebuilt (fail rc message, placed, w2) h = ground (arith, v)

      chosen :
          (has_data log_clean : Bool)
          → IsValid
              (empty_map (bpf_create_map P meta.name meta.capacity meta.hashes l.world)).1.filters
          → IsValid (from_log (rebuild_from_log P cfg meta l.world)).1.filters
          → IsValid
              (if not has_data
                then empty_map (bpf_create_map P meta.name meta.capacity meta.hashes l.world)
                else if not log_clean
                then (
                  stop euclean (
                      into_errbuf (
                        text "refusing rebuild for "
                        ++ (meta.name ++ text ": replay log may be missing unsynced tail"))),
                  l,
                )
                else from_log (rebuild_from_log P cfg meta l.world)).1.filters
      chosen false log_clean a b = a
      chosen true false a b = v
      chosen true true a b = b

  load_accepted-IsValid :
      (cfg : Config) (path : Bytes) (meta : Meta) (l : Loading P)
      → IsCString meta.name
      → IsValid l.filters
      → IsValid (load_accepted P cfg path meta l).1.filters
  unfolding load_accepted
  load_accepted-IsValid cfg path meta l c v =
      elim (Result-cases (build_log_path cfg.meta_root meta.name)) [
        | inr (e, eq) ↦ rw (load_accepted, eq) v
        | inl (log_path, eq) ↦
            rw (load_accepted, eq)
              (opened (record meta { log_path = log_path }) c
                (bpf_open_pinned P meta.pin_path l.world))
      ]
    where
      opened :
          (meta1 : Meta)
          → IsCString meta1.name
          → (r : Result ℕ × World)
          → IsValid
              (elim r.0 as (λ _. Step × Loading P) [
                | ok fd ↦ load_mapped P path meta1 fd false (record l { world = r.1 })
                | err e ↦
                    if e == enoent
                    then load_unpinned P cfg path meta1 (record l { world = r.1 })
                    else (
                      stop e (
                          into_errbuf (
                            text "failed to open pinned map for "
                            ++ (meta.name ++ (text ": " ++ P.strerror e)))),
                      record l { world = r.1 },
                    )
              ]).1.filters
      opened meta1 h (ok fd, w1) =
          load_mapped-IsValid path meta1 fd false (record l { world = w1 }) h v
      opened meta1 h (err e, w1) =
          ground (arith, v, load_unpinned-IsValid cfg path meta1 (record l { world = w1 }) h v)

  load_named-IsValid :
      (cfg : Config) (path entry_name : Bytes) (l : Loading P)
      → IsValid l.filters
      → IsValid (load_named P cfg path entry_name l).1.filters
  unfolding load_named set_aside
  load_named-IsValid cfg path entry_name l v =
      elim (Result-cases (meta_read_file P path l.world).0) [
        | inr (e, eq) ↦ rw (load_named, eq) v
        | inl (meta, eq) ↦
            let a = meta_read_file-IsAccepted P path l.world meta eq in
            rw (load_named, eq)
              (ground (
                arith,
                v,
                load_accepted-IsValid cfg path meta
                    (record l { world = (meta_read_file P path l.world).1 })
                    (valid_name-IsCString meta.name a.name) v,
              ))
      ]

  load_entry-IsValid :
      (cfg : Config) (entry : Bytes) (l : Loading P)
      → IsValid l.filters
      → IsValid (load_entry P cfg entry l).1.filters
  unfolding load_entry
  load_entry-IsValid cfg entry l v = elim (Result-cases (meta_entry_name entry)) [
    | inr (e, eq) ↦ rw (load_entry, eq) (ground (arith, v))
    | inl (entry_name, eq) ↦
        rw (load_entry, eq)
          (ground
            (arith, v, load_named-IsValid cfg (cfg.meta_root ++ (b'/' ∷ entry)) entry_name l v))
  ]

  load_loop-IsValid :
      (cfg : Config) (entries : List Bytes) (l : Loading P)
      → IsValid l.filters
      → IsValid (load_loop P cfg entries l).1.filters
  unfolding load_loop
  load_loop-IsValid cfg [] l v = v
  load_loop-IsValid cfg (entry ∷ more) l v =
      let v1 = load_entry-IsValid cfg entry l v in
      step (load_entry P cfg entry l).0 v1
        (load_loop-IsValid cfg more (load_entry P cfg entry l).1 v1)
    where
      step :
          (st : Step)
          → IsValid (load_entry P cfg entry l).1.filters
          → IsValid (load_loop P cfg more (load_entry P cfg entry l).1).1.filters
          → IsValid
              (elim st as (λ _. Outcome (Unit {0}) × Loading P) [
                | stop rc message ↦ (fail rc message, (load_entry P cfg entry l).1)
                | next ↦ load_loop P cfg more (load_entry P cfg entry l).1
              ]).1.filters
      step (stop rc message) v1 rest = v1
      step next v1 rest = rest

  -- Whatever the directory, the files and the kernel hold, loading the metadata directory into a
  -- well-formed set of filters leaves a well-formed set, also when it stops with an error: names
  -- are texts without NUL, no two filters have the same name, and the array has room.
  pub load_metadata_dir-IsValid :
      (cfg : Config) (l : Loading P)
      → IsValid l.filters
      → IsValid (load_metadata_dir P cfg l).1.filters
  unfolding load_metadata_dir
  load_metadata_dir-IsValid cfg l v = listed (list_dir P cfg.meta_root l.world)
    where
      listed :
          (r : Result (List Bytes) × World)
          → IsValid
              (elim r.0 as (λ _. Outcome (Unit {0}) × Loading P) [
                | err rc ↦ if rc == enoent then (done tt, record l { world = r.1 }) else (
                  fail rc (into_errbuf (text "failed to list metadata directory")),
                  record l { world = r.1 },
                )
                | ok entries ↦ load_loop P cfg entries (record l { world = r.1 })
              ]).1.filters
      listed (ok entries, w1) = load_loop-IsValid cfg entries (record l { world = w1 }) v
      listed (err rc, w1) = ground (arith, v)
