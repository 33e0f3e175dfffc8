-- ===== src/FilterSet/Find.antt =====
-- `bloomd_filter_set_find_n` of src/util.c against a plain search by name.
use kbloomd.Common.{
  ℕ, zero, suc, ◌+◌, ◌≤◌, ◌≡◌, ◌≢◌, ◌↔◌, inl, inr, refl, arith, true, false, ◌&&◌, Option, none,
  some, List, [], ◌∷◌, Bytes, length, take, get_elem?, ◌==◌, ap, ◌∙◌, Bool-cases,
}
use mathlib.Core.Path.{subst}
use mathlib.Core.Option.{some-injective}
use kbloomd.Wire.{byte_at}
use kbloomd.FilterSet.{
  Filter, FilterSet, name_matches, memcmp_eq, find_loop, cache_hit, found_at, filter_set_find_n,
}

-- A text in a C array has no NUL in it.
abbrev pub IsCString : Bytes → Type 0
IsCString [] = Unit
IsCString (c ∷ rest) = (c ≢ 0) × IsCString rest

text_matches_iff :
    (n : ℕ) (s name : Bytes)
    → IsCString s
    → IsCString (take n name)
    → n ≤ length name
    → ((byte_at s n == 0 && memcmp_eq n s name) ≡ true) ↔ (s ≡ take n name)
unfolding memcmp_eq
text_matches_iff zero [] name hs hn l = ground arith
text_matches_iff zero (c ∷ s) name hs hn l = ground arith
text_matches_iff (suc n) s [] hs hn l = absurd (omega arith)
text_matches_iff (suc n) [] (y ∷ name) hs hn l = ground arith
text_matches_iff (suc n) (c ∷ s) (y ∷ name) hs hn l =
    ground (arith, text_matches_iff n s name hs.1 hn.1 (omega arith))

-- For a stored name and a request without NUL bytes, the test of the search loop holds exactly
-- when the stored name is the requested bytes.
pub name_matches_iff :
    (item : Filter) (name : Bytes) (n : ℕ)
    → IsCString item.meta.name
    → IsCString (take n name)
    → n ≤ length name
    → (name_matches item name n ≡ true) ↔ (item.meta.name ≡ take n name)
unfolding name_matches
name_matches_iff item name n h k l = text_matches_iff n item.meta.name name h k l

module _ (P : Filter → Type 0) where
  abbrev pub All : List Filter → Type 0
  All [] = Unit
  All (item ∷ rest) = P item × All rest

abbrev pub IsNamed : List Filter → Type 0
IsNamed items = All (λ item. IsCString item.meta.name) items

-- The answer to a search for `key`: the index of a filter of that name, or that there is none.
abbrev pub Finds : List Filter → Bytes → Option ℕ → Type 0
Finds items key none = All (λ item. item.meta.name ≢ key) items
Finds items key (some i) =
    (item : Filter) × (get_elem? items i ≡ some item) × (item.meta.name ≡ key)

module _ (name : Bytes) (n : ℕ) (key_text : IsCString (take n name)) (fits : n ≤ length name) where
  -- Shifting the index of an answer by the items that stand before.
  abbrev FindsFrom : List Filter → ℕ → Option ℕ → Type 0
  FindsFrom items i none = All (λ item. item.meta.name ≢ take n name) items
  FindsFrom items i (some j) =
      (k : ℕ) × (j ≡ i + k)
      × (item : Filter) × (get_elem? items k ≡ some item)
      × (item.meta.name ≡ take n name)

  FindsFrom-skip :
      (item : Filter) (rest : List Filter) (i : ℕ) (r : Option ℕ)
      → item.meta.name ≢ take n name
      → FindsFrom rest (i + 1) r
      → FindsFrom (item ∷ rest) i r
  FindsFrom-skip item rest i none ne h = (ne, h)
  FindsFrom-skip item rest i (some j) ne h = (suc h.0, omega (arith, h.1), h.2, h.3, h.4)

  find_loop-FindsFrom :
      (items : List Filter) (i : ℕ) → IsNamed items → FindsFrom items i (find_loop items i name n)
  unfolding find_loop
  find_loop-FindsFrom [] i h = tt
  find_loop-FindsFrom (item ∷ rest) i h =
      let iff = name_matches_iff item name n h.0 key_text fits in
      elim (Bool-cases (name_matches item name n)) [
        | inl yes_it ↦ rw yes_it (0, omega arith, item, refl, iff.0 yes_it)
        | inr not_it ↦ rw not_it (
            FindsFrom-skip item rest i (find_loop rest (i + 1) name n)
              (λ e. ground (arith, iff.1 e)) (find_loop-FindsFrom rest (i + 1) h.1))
      ]

  Finds-from_start :
      (items : List Filter) (r : Option ℕ) → FindsFrom items 0 r → Finds items (take n name) r
  Finds-from_start items none h = h
  Finds-from_start items (some j) h = (h.2, ap (get_elem? items) (h.1 ∙ omega arith) ∙ h.3, h.4)

  pub find_loop-Finds :
      (items : List Filter) → IsNamed items → Finds items (take n name) (find_loop items 0 name n)
  find_loop-Finds items h =
      Finds-from_start items (find_loop items 0 name n) (find_loop-FindsFrom items 0 h)

  named_at :
      (items : List Filter) (i : ℕ) (item : Filter)
      → IsNamed items
      → get_elem? items i ≡ some item
      → IsCString item.meta.name
  named_at [] i item h e = ground arith
  named_at (x ∷ items) zero item h e =
      subst (λ (t : Filter). IsCString t.meta.name) (some-injective _ _ e) h.0
  named_at (x ∷ items) (suc i) item h e = named_at items i item h.1 e

  found_at-Finds :
      (set : FilterSet) (r : Option ℕ)
      → Finds set.items (take n name) r
      → Finds set.items (take n name) (found_at set r).0
  unfolding found_at
  found_at-Finds set none h = h
  found_at-Finds set (some i) h = h

  items-found_at : (set : FilterSet) (r : Option ℕ) → (found_at set r).1.items ≡ set.items
  unfolding found_at
  items-found_at set none = refl
  items-found_at set (some i) = refl

  cached-Finds :
      (set : FilterSet) (o : Option Filter)
      → get_elem? set.items set.last_index ≡ o
      → IsNamed set.items
      → (elim o [ none ↦ false | some item ↦ name_matches item name n ]) ≡ true
      → Finds set.items (take n name) (some set.last_index)
  cached-Finds set none e h t = ground arith
  cached-Finds set (some item) e h t = (
    item,
    e,
    (name_matches_iff item name n (named_at set.items set.last_index item h e) key_text fits).0 t,
  )

  -- For names without a NUL byte, and a request that holds the bytes asked for, a search returns
  -- the index of a filter of exactly the requested name, or that no filter has it, whatever index
  -- the one-entry cache holds, and leaves the filters as they were.
  pub filter_set_find_n-Finds :
      (set : FilterSet)
      → IsNamed set.items
      → Finds set.items (take n name) (filter_set_find_n set name n).0
        × ((filter_set_find_n set name n).1.items ≡ set.items)
  unfolding filter_set_find_n
  filter_set_find_n-Finds set h = elim (Bool-cases (cache_hit set name n)) [
    | inl hit ↦ rw hit (
      cached-Finds set (get_elem? set.items set.last_index) refl h (unfold cache_hit in hit),
      refl,
    )
    | inr miss ↦ rw miss (
      found_at-Finds set (find_loop set.items 0 name n) (find_loop-Finds set.items h),
      items-found_at set (find_loop set.items 0 name n),
    )
  ]
