-- ===== src/Recovery/Kept.antt =====
-- The pins that the clean-up at the start of src/daemon.c leaves alone.
use kbloomd.Common.{
  ℕ, zero, suc, ◌&&◌, leb, same_iff, ◌≡◌, ◌≢◌, inl, inr, refl, ap, ◌∙◌, arith, Bool, true, false,
  not, Option, none, some, List, [], ◌∷◌, ◌++◌, Bytes, ok, Result-cases, Bool-cases, length,
  get_elem?, same, ◌||◌, if◌then◌else◌,
}
use mathlib.Core.Option.{some-injective}
use mathlib.Core.Path.{subst}
use kbloomd.Platform.{Platform}
use kbloomd.Name.{name_is_valid, path_max}
use kbloomd.FilterSet.{
  Filter, FilterSet, filter_set_find, filter_set_find_n, found_at, find_loop, cache_hit,
}
use kbloomd.FilterSet.Find.{Finds, All}
use kbloomd.FilterSet.Valid.{IsValid}
use kbloomd.Handlers.Create.Preserves.{find-Finds}
use kbloomd.Daemon.{Config}
use kbloomd.Recovery.{list_dir}
use kbloomd.Recovery.Load.{Loading}
use kbloomd.Recovery.Valid.{valid_name-IsCString}
use kbloomd.Recovery.Pins.{cleanup_found, cleanup_pin, cleanup_loop, cleanup_orphan_pins}
use kbloomd.Handlers.Add.Preserves.{find_n-IsValid}

-- Whether a filter has the name.
unfoldable pub has_name : List Filter → Bytes → Bool
has_name [] name = false
has_name (x ∷ rest) name = same x.meta.name name || has_name rest name

-- Whether an entry of the pin directory is to go: a valid name that no filter has, with a path that
-- fits its buffer.
unfoldable pub goes : Bytes → List Filter → Bytes → Bool
goes root items entry =
    name_is_valid entry
    && (not (has_name items entry) && not (leb path_max (length (root ++ (b'/' ∷ entry)))))

unfoldable pub orphans : Bytes → List Filter → List Bytes → List Bytes
orphans root items [] = []
orphans root items (entry ∷ more) =
    let rest = orphans root items more in if goes root items entry then entry ∷ rest else rest

unfoldable pub is_among : List Bytes → Bytes → Bool
is_among [] name = false
is_among (x ∷ rest) name = same x name || is_among rest name

All-has_name :
    (items : List Filter) (name : Bytes)
    → All (λ x. x.meta.name ≢ name) items
    → has_name items name ≡ false
unfolding has_name
All-has_name [] name h = refl
All-has_name (x ∷ rest) name h =
    ground (arith, h.0, (same_iff x.meta.name name).0, All-has_name rest name h.1)

at-has_name :
    (items : List Filter) (i : ℕ) (x : Filter) (name : Bytes)
    → get_elem? items i ≡ some x
    → x.meta.name ≡ name
    → has_name items name ≡ true
unfolding has_name
at-has_name [] i x name at_i e = ground arith
at-has_name (y ∷ rest) zero x name at_i e =
    ground
      (arith, (same_iff y.meta.name name).1 (ap (λ z. z.meta.name) (some-injective y x at_i) ∙ e))
at-has_name (y ∷ rest) (suc i) x name at_i e = ground (arith, at-has_name rest i x name at_i e)

-- A name that a filter has is not among the orphans.
orphans-is_among :
    (root : Bytes) (items : List Filter) (entries : List Bytes) (name : Bytes)
    → has_name items name ≡ true
    → is_among (orphans root items entries) name ≡ false
unfolding orphans is_among goes
orphans-is_among root items [] name h = refl
orphans-is_among root items (entry ∷ more) name h = elim (Bool-cases (same entry name)) [
  | inl one ↦ ground (
    arith,
    h,
    orphans-is_among root items more name h,
    ap (has_name items) ((same_iff entry name).0 one),
  )
  | inr other ↦ ground (arith, other, orphans-is_among root items more name h)
]

-- Every filter keeps its name out of the orphans.
orphans_kept :
    (root : Bytes) (all items : List Filter) (entries : List Bytes)
    → ((name : Bytes) → has_name items name ≡ true → has_name all name ≡ true)
    → All (λ x. is_among (orphans root all entries) x.meta.name ≡ false) items
unfolding has_name
orphans_kept root all [] entries h = tt
orphans_kept root all (x ∷ rest) entries h = (
  orphans-is_among root all entries x.meta.name
      (h x.meta.name (ground (arith, (same_iff x.meta.name x.meta.name).1 refl))),
  orphans_kept root all rest entries (λ name e. h name (ground (arith, e))),
)

module _ (P : Platform) where
  open P use {World, unlink}

  -- A search moves the cache alone.
  find_items : (set : FilterSet) (name : Bytes) → (filter_set_find set name).1.items ≡ set.items
  unfolding filter_set_find filter_set_find_n found_at
  find_items set name = elim (Bool-cases (cache_hit set name (length name))) [
    | inl hit ↦ rw hit
    | inr miss ↦ rw miss (found (find_loop set.items 0 name (length name)))
  ]
    where
      found : (r : Option ℕ) → (found_at set r).1.items ≡ set.items
      found none = refl
      found (some i) = refl

  cleanup_found_filters :
      (cfg : Config) (entry : Bytes) (o : Option ℕ) (l : Loading P)
      → (cleanup_found P cfg entry o l).filters ≡ l.filters
  unfolding cleanup_found
  cleanup_found_filters cfg entry none l = ground arith
  cleanup_found_filters cfg entry (some i) l = refl

  cleanup_pin-IsValid :
      (cfg : Config) (entry : Bytes) (l : Loading P)
      → IsValid l.filters
      → IsValid (cleanup_pin P cfg entry l).filters
  unfolding cleanup_pin filter_set_find
  cleanup_pin-IsValid cfg entry l v = elim (Bool-cases (name_is_valid entry)) [
    | inr bad ↦ rw (cleanup_pin, bad) v
    | inl good ↦
        rw
          (
            cleanup_pin,
            good,
            cleanup_found_filters cfg entry (filter_set_find_n l.filters entry (length entry)).0
                (record l { filters = (filter_set_find_n l.filters entry (length entry)).1 }),
          )
          (find_n-IsValid l.filters entry (length entry) v)
  ]

  cleanup_loop-IsValid :
      (cfg : Config) (entries : List Bytes) (l : Loading P)
      → IsValid l.filters
      → IsValid (cleanup_loop P cfg entries l).filters
  unfolding cleanup_loop
  cleanup_loop-IsValid cfg [] l v = v
  cleanup_loop-IsValid cfg (entry ∷ more) l v =
      cleanup_loop-IsValid cfg more (cleanup_pin P cfg entry l) (cleanup_pin-IsValid cfg entry l v)

  pub cleanup_orphan_pins-IsValid :
      (cfg : Config) (l : Loading P)
      → IsValid l.filters
      → IsValid (cleanup_orphan_pins P cfg l).1.filters
  unfolding cleanup_orphan_pins
  cleanup_orphan_pins-IsValid cfg l v = elim (Result-cases (list_dir P cfg.pin_root l.world).0) [
    | inr (e, eq) ↦ rw (cleanup_orphan_pins, eq) (ground (arith, v))
    | inl (entries, eq) ↦
        rw (cleanup_orphan_pins, eq)
          (cleanup_loop-IsValid cfg entries
            (record l { world = (list_dir P cfg.pin_root l.world).1 }) v)
  ]

  -- The files of a directory removed, one after the other.
  unfoldable pub unlink_each : Bytes → List Bytes → World → World
  unlink_each root [] w = w
  unlink_each root (entry ∷ more) w = unlink_each root more (unlink w (root ++ (b'/' ∷ entry))).1

  -- The search tells whether a filter has the name.
  Finds-has_name :
      (items : List Filter) (name : Bytes) (o : Option ℕ)
      → Finds items name o
      → has_name items name ≡ elim o [ none ↦ false | some i ↦ true ]
  Finds-has_name items name none h = All-has_name items name h
  Finds-has_name items name (some i) h = at-has_name items i h.0 name h.1 h.2

  cleanup_found_world :
      (cfg : Config) (items : List Filter) (entry : Bytes) (o : Option ℕ) (l : Loading P)
      → name_is_valid entry ≡ true
      → has_name items entry ≡ elim o [ none ↦ false | some i ↦ true ]
      → (cleanup_found P cfg entry o l).world ≡ (
          if goes cfg.pin_root items entry
          then (unlink l.world (cfg.pin_root ++ (b'/' ∷ entry))).1
          else l.world)
  unfolding cleanup_found goes
  cleanup_found_world cfg items entry none l good h = ground (arith, good, h)
  cleanup_found_world cfg items entry (some i) l good h = ground (arith, good, h)

  -- What one entry does.
  cleanup_pin_world :
      (cfg : Config) (entry : Bytes) (l : Loading P)
      → IsValid l.filters
      → ((cleanup_pin P cfg entry l).filters.items ≡ l.filters.items)
        × ((cleanup_pin P cfg entry l).world ≡ (
            if goes cfg.pin_root l.filters.items entry
            then (unlink l.world (cfg.pin_root ++ (b'/' ∷ entry))).1
            else l.world))
  unfolding cleanup_pin
  cleanup_pin_world cfg entry l v = elim (Bool-cases (name_is_valid entry)) [
    | inr bad ↦ unfold goes in rw (cleanup_pin, bad) (refl, refl)
    | inl good ↦
        let same_items = find_items l.filters entry in
        let o = (filter_set_find l.filters entry).0 in
        let l1 : Loading P = record l { filters = (filter_set_find l.filters entry).1 } in
        let known = find-Finds l.filters entry (valid_name-IsCString entry good) v in
        let found : Finds l.filters.items entry o =
          subst (λ xs. Finds xs entry o) same_items known.0 in
        rw (cleanup_pin, good)
          (
            ap (λ f. f.items) (cleanup_found_filters cfg entry o l1) ∙ same_items,
            cleanup_found_world cfg l.filters.items entry o l1 good
                (Finds-has_name l.filters.items entry o found),
          )
  ]

  cleanup_loop_world :
      (cfg : Config) (items : List Filter) (entries : List Bytes) (l : Loading P)
      → IsValid l.filters
      → l.filters.items ≡ items
      → (cleanup_loop P cfg entries l).world
        ≡ unlink_each cfg.pin_root (orphans cfg.pin_root items entries) l.world
  unfolding cleanup_loop orphans unlink_each
  cleanup_loop_world cfg items [] l v e = refl
  cleanup_loop_world cfg items (entry ∷ more) l v e =
      let one = cleanup_pin_world cfg entry l v in
      cleanup_loop_world cfg items more (cleanup_pin P cfg entry l)
        (cleanup_pin-IsValid cfg entry l v) (one.0 ∙ e)
      ∙ ap (unlink_each cfg.pin_root (orphans cfg.pin_root items more)) (
          subst
            (λ xs. (cleanup_pin P cfg entry l).world ≡ (
              if goes cfg.pin_root xs entry
              then (unlink l.world (cfg.pin_root ++ (b'/' ∷ entry))).1
              else l.world))
            e one.1)
      ∙ turn (goes cfg.pin_root items entry)
    where
      turn :
          (b : Bool)
          → unlink_each cfg.pin_root
              (orphans cfg.pin_root items more)
              (if b then (unlink l.world (cfg.pin_root ++ (b'/' ∷ entry))).1 else l.world)
            ≡ unlink_each cfg.pin_root
                (if b
                  then entry ∷ orphans cfg.pin_root items more
                  else orphans cfg.pin_root items more)
                l.world
      turn true = refl
      turn false = refl

  -- From a well-formed set, when the pin directory could be listed, the clean-up calls unlink, in
  -- the order of the entries, for exactly those entries with a valid name that no filter has and a
  -- path shorter than PATH_MAX, and changes the system in no other way; the name of a filter of
  -- the set is not among them.
  pub cleanup_orphan_pins-orphans :
      (cfg : Config) (l : Loading P) (entries : List Bytes)
      → IsValid l.filters
      → (list_dir P cfg.pin_root l.world).0 ≡ ok entries
      → ((cleanup_orphan_pins P cfg l).1.world
          ≡ unlink_each cfg.pin_root
              (orphans cfg.pin_root l.filters.items entries)
              (list_dir P cfg.pin_root l.world).1)
        × All
            (λ x. is_among (orphans cfg.pin_root l.filters.items entries) x.meta.name ≡ false)
            l.filters.items
  unfolding cleanup_orphan_pins
  cleanup_orphan_pins-orphans cfg l entries v listed = (
    rw (cleanup_orphan_pins, listed)
        (cleanup_loop_world cfg l.filters.items entries
          (record l { world = (list_dir P cfg.pin_root l.world).1 }) v refl),
    orphans_kept cfg.pin_root l.filters.items l.filters.items entries (λ name e. e),
  )
