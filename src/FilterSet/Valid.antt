-- ===== src/FilterSet/Valid.antt =====
-- The well-formed sets of filters of src/util.c, and the operations that keep them so.
use mathlib.Core.Path.{subst}
use mathlib.Core.Option.{some-injective}
use kbloomd.Common.{
  ℕ, zero, suc, ◌+◌, ◌*◌, ◌≤◌, ◌≡◌, ◌≢◌, ◌⊎◌, inl, inr, refl, arith, Option, none, some, List, [],
  ◌∷◌, ◌++◌, Bytes, length, take, get_elem?, set, ◌==◌, if◌then◌else◌, ap, sym, ◌∙◌, Bool-cases,
  length-append, enomem, enoent,
}
use kbloomd.Platform.{Platform}
use kbloomd.FilterSet.{
  Filter, FilterSet, find_loop, filter_set_add, filter_set_remove_n, remove_found, remove_at,
}
use kbloomd.FilterSet.Find.{IsCString, IsNamed, All, Finds, find_loop-Finds}

-- No two filters have one name.
abbrev pub IsDistinct : List Filter → Type 0
IsDistinct [] = Unit
IsDistinct (item ∷ rest) = All (λ x. x.meta.name ≢ item.meta.name) rest × IsDistinct rest

-- The names are texts, no two are the same, and the array has room for its items.
pub record IsValid (set : FilterSet) : Type 0 where
  pub named : IsNamed set.items
  pub distinct : IsDistinct set.items
  pub room : length set.items ≤ set.cap

All-append :
    (P : Filter → Type 0) (items : List Filter) (x : Filter)
    → All P items
    → P x
    → All P (items ++ x ∷ [])
All-append P [] x h p = (p, tt)
All-append P (y ∷ items) x h p = (h.0, All-append P items x h.1 p)

IsDistinct-append :
    (items : List Filter) (x : Filter)
    → IsDistinct items
    → All (λ y. y.meta.name ≢ x.meta.name) items
    → IsDistinct (items ++ x ∷ [])
IsDistinct-append [] x d a = (tt, tt)
IsDistinct-append (y ∷ items) x d a = (
  All-append (λ z. z.meta.name ≢ y.meta.name) items x d.0 (λ e. a.0 (sym e)),
  IsDistinct-append items x d.1 a.1,
)

All-remove_at :
    (P : Filter → Type 0) (items : List Filter) (i : ℕ) → All P items → All P (remove_at items i)
unfolding remove_at
All-remove_at P [] i h = tt
All-remove_at P (x ∷ items) zero h = h.1
All-remove_at P (x ∷ items) (suc i) h = (h.0, All-remove_at P items i h.1)

IsDistinct-remove_at :
    (items : List Filter) (i : ℕ) → IsDistinct items → IsDistinct (remove_at items i)
unfolding remove_at
IsDistinct-remove_at [] i h = tt
IsDistinct-remove_at (x ∷ items) zero h = h.1
IsDistinct-remove_at (x ∷ items) (suc i) h =
    (All-remove_at (λ z. z.meta.name ≢ x.meta.name) items i h.0, IsDistinct-remove_at items i h.1)

length-remove_at : (items : List Filter) (i : ℕ) → length (remove_at items i) ≤ length items
unfolding remove_at
length-remove_at [] i = omega arith
length-remove_at (x ∷ items) zero = omega arith
length-remove_at (x ∷ items) (suc i) = omega (arith, length-remove_at items i)

pub All-set :
    (P : Filter → Type 0) (items : List Filter) (i : ℕ) (v : Filter)
    → All P items
    → P v
    → All P (set items i v)
All-set P [] i v h p = tt
All-set P (x ∷ items) zero v h p = (p, h.1)
All-set P (x ∷ items) (suc i) v h p = (h.0, All-set P items i v h.1 p)

pub All_at :
    (P : Filter → Type 0) (items : List Filter) (i : ℕ) (x : Filter)
    → All P items
    → get_elem? items i ≡ some x
    → P x
All_at P [] i x h e = ground arith
All_at P (y ∷ items) zero x h e = subst P (some-injective _ _ e) h.0
All_at P (y ∷ items) (suc i) x h e = All_at P items i x h.1 e

-- Replacing a filter by one of the same name.
pub IsDistinct-set :
    (items : List Filter) (i : ℕ) (old new : Filter)
    → get_elem? items i ≡ some old
    → new.meta.name ≡ old.meta.name
    → IsDistinct items
    → IsDistinct (set items i new)
IsDistinct-set [] i old new e n d = tt
IsDistinct-set (x ∷ items) zero old new e n d = (
  subst (λ (t : Bytes). All (λ y. y.meta.name ≢ t) items)
      (ap (λ (t : Filter). t.meta.name) (some-injective _ _ e) ∙ sym n) d.0,
  d.1,
)
IsDistinct-set (x ∷ items) (suc i) old new e n d = (
  All-set (λ y. y.meta.name ≢ x.meta.name) items i new d.0
      (λ same. All_at (λ y. y.meta.name ≢ x.meta.name) items i old d.0 e (sym n ∙ same)),
  IsDistinct-set items i old new e n d.1,
)

-- The filter taken away is gone: where names are distinct no other filter had its name.
remove_at-gone :
    (items : List Filter) (i : ℕ) (item : Filter)
    → IsDistinct items
    → get_elem? items i ≡ some item
    → All (λ x. x.meta.name ≢ item.meta.name) (remove_at items i)
unfolding remove_at
remove_at-gone [] i item d e = tt
remove_at-gone (x ∷ items) zero item d e =
    subst (λ (t : Filter). All (λ y. y.meta.name ≢ t.meta.name) items) (some-injective _ _ e) d.0
remove_at-gone (x ∷ items) (suc i) item d e = (
  (λ same. All_at (λ y. y.meta.name ≢ x.meta.name) items i item d.0 e (sym same)),
  remove_at-gone items i item d.1 e,
)

grown-IsValid :
    (set : FilterSet) (filter : Filter) (cap last : ℕ)
    → IsValid set
    → IsCString filter.meta.name
    → Finds set.items filter.meta.name none
    → length set.items + 1 ≤ cap
    → IsValid (record { items = set.items ++ (filter ∷ []); cap = cap; last_index = last })
grown-IsValid set filter cap last v text_name fresh fits = record {
  named = All-append (λ item. IsCString item.meta.name) set.items filter v.named text_name;
  distinct = IsDistinct-append set.items filter v.distinct fresh;
  room = omega (arith, length-append set.items (filter ∷ []));
}

module _ (P : Platform) where
  open P use {World, realloc}

  -- Adding to a well-formed set a filter whose name is a text that no filter of the set has keeps
  -- the set well-formed; the filter then stands at the end and the result is 0, or the result is
  -- ENOMEM and the set is as before.
  pub filter_set_add-IsValid :
      (set : FilterSet) (filter : Filter) (w : World)
      → IsValid set
      → IsCString filter.meta.name
      → Finds set.items filter.meta.name none
      → IsValid (filter_set_add P set filter w).1
        × (((filter_set_add P set filter w).0 ≡ 0)
              × ((filter_set_add P set filter w).1.items ≡ set.items ++ (filter ∷ []))
            ⊎ ((filter_set_add P set filter w).0 ≡ enomem)
              × ((filter_set_add P set filter w).1 ≡ set))
  unfolding filter_set_add
  filter_set_add-IsValid set filter w v text_name fresh =
      elim (Bool-cases (length set.items == set.cap)) [
        | inl full ↦
            rw full (elim (Bool-cases (realloc w (if set.cap == 0 then 8 else set.cap * 2)).0) [
              | inl got ↦ rw got (
                grown-IsValid set filter (if set.cap == 0 then 8 else set.cap * 2)
                    (length set.items) v text_name fresh (ground arith),
                inl (refl, refl),
              )
              | inr none_got ↦ rw none_got (v, inr (refl, refl))
            ])
        | inr space ↦ rw space (
          grown-IsValid set filter set.cap (length set.items) v text_name fresh
              (ground (arith, v.room)),
          inl (refl, refl),
        )
      ]

  remove_found-IsValid :
      (set : FilterSet) (i : ℕ) (o : Option Filter) (w : World)
      → IsValid set
      → IsValid (remove_found P set i o w).1
  unfolding remove_found
  remove_found-IsValid set i none w v = v
  remove_found-IsValid set i (some item) w v = record {
    named = All-remove_at (λ item. IsCString item.meta.name) set.items i v.named;
    distinct = IsDistinct-remove_at set.items i v.distinct;
    room = omega (arith, length-remove_at set.items i, v.room);
  }

  -- Removing a name from a well-formed set leaves a well-formed set: names are texts, no two are
  -- the same, and the array has room for its items.
  pub filter_set_remove_n-IsValid :
      (set : FilterSet) (name : Bytes) (n : ℕ) (w : World)
      → IsValid set
      → IsValid (filter_set_remove_n P set name n w).1
  unfolding filter_set_remove_n
  filter_set_remove_n-IsValid set name n w v = removed (find_loop set.items 0 name n)
    where
      removed :
          (r : Option ℕ)
          → IsValid
              (elim r as (λ _. ℕ × FilterSet × World) [
                | none ↦ (enoent, set, w)
                | some i ↦ remove_found P set i (get_elem? set.items i) w
              ]).1
      removed none = v
      removed (some i) = remove_found-IsValid set i (get_elem? set.items i) w v

  gone_after :
      (set : FilterSet) (name : Bytes) (n : ℕ) (w : World) (r : Option ℕ)
      → IsValid set
      → Finds set.items (take n name) r
      → All
          (λ item. item.meta.name ≢ take n name)
          (elim r as (λ _. ℕ × FilterSet × World) [
            | none ↦ (enoent, set, w)
            | some i ↦ remove_found P set i (get_elem? set.items i) w
          ]).1.items
  unfolding remove_found
  gone_after set name n w none v h = h
  gone_after set name n w (some i) v h = rw h.1 (
      subst (λ (t : Bytes). All (λ x. x.meta.name ≢ t) (remove_at set.items i)) h.2
        (remove_at-gone set.items i h.0 v.distinct h.1))

  -- After a removal from a well-formed set, by a text that the request holds, no filter of the set
  -- has the name that was asked for.
  pub filter_set_remove_n-gone :
      (set : FilterSet) (name : Bytes) (n : ℕ) (w : World)
      → IsValid set
      → IsCString (take n name)
      → n ≤ length name
      → Finds (filter_set_remove_n P set name n w).1.items (take n name) none
  unfolding filter_set_remove_n
  filter_set_remove_n-gone set name n w v key_text fits =
      gone_after set name n w (find_loop set.items 0 name n) v
        (find_loop-Finds name n key_text fits set.items v.named)
