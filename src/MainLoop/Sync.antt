-- ===== src/MainLoop/Sync.antt =====
-- What the periodic write of the logs in src/daemon.c keeps, and when it calls a log clean.
use kbloomd.Common.{
  ℕ, suc, ◌≡◌, ◌≢◌, refl, sym, ap, arith, Bool, true, false, not, ◌&&◌, ◌||◌, ◌++◌, List, [], ◌∷◌,
  Bytes, length, some, if◌then◌else◌, ltb,
}
use mathlib.Core.Path.{subst}
use kbloomd.Platform.{Platform}
use kbloomd.Platform.Laws.{IoLaws, StreamLaws}
use kbloomd.Log.{log_buffer_flush}
use kbloomd.Log.Laws.{log_buffer_flush_synced}
use kbloomd.FilterSet.{Filter}
use kbloomd.FilterSet.Find.{IsCString, All}
use kbloomd.FilterSet.Valid.{IsDistinct, IsValid}
use kbloomd.FilterState.{now_ms, update_filter_meta_state}
use kbloomd.MainLoop.{
  Server, sync_filter, sync_dirty_logs, sync_server, elapsed, log_sync_interval_ms,
}

module _ (P : Platform) where
  open P use {World}

  sync_filter_name :
      (now : ℕ) (f : Filter) (w : World) → (sync_filter P now f w).0.meta.name ≡ f.meta.name
  unfolding sync_filter update_filter_meta_state
  sync_filter_name now f w = ground arith

  -- The same names, filter by filter.
  abbrev SameNames : List Filter → List Filter → Type 0
  SameNames [] [] = Unit
  SameNames [] (y ∷ ys) = ⊥
  SameNames (x ∷ xs) [] = ⊥
  SameNames (x ∷ xs) (y ∷ ys) = (y.meta.name ≡ x.meta.name) × SameNames xs ys

  sync_dirty_logs-SameNames :
      (now : ℕ) (force : Bool) (items : List Filter) (w : World)
      → SameNames items (sync_dirty_logs P now force items w).0
  unfolding sync_dirty_logs
  sync_dirty_logs-SameNames now force [] w = tt
  sync_dirty_logs-SameNames now force (f ∷ rest) w = (
    turn
        (not f.log_dirty || not force && ltb (elapsed now f.last_log_sync_ms) log_sync_interval_ms),
    sync_dirty_logs-SameNames now force rest _,
  )
    where
      turn : (b : Bool) → (if b then (f, w) else sync_filter P now f w).0.meta.name ≡ f.meta.name
      turn true = refl
      turn false = sync_filter_name now f w

  All-SameNames :
      (Q : Bytes → Type 0) (xs ys : List Filter)
      → SameNames xs ys
      → All (λ x. Q x.meta.name) xs
      → All (λ x. Q x.meta.name) ys
  All-SameNames Q [] [] s h = tt
  All-SameNames Q (x ∷ xs) (y ∷ ys) s h = (subst Q (sym s.0) h.0, All-SameNames Q xs ys s.1 h.1)
  All-SameNames Q [] (y ∷ ys) s h = absurd s
  All-SameNames Q (x ∷ xs) [] s h = absurd s

  IsDistinct-SameNames : (xs ys : List Filter) → SameNames xs ys → IsDistinct xs → IsDistinct ys
  IsDistinct-SameNames [] [] s h = tt
  IsDistinct-SameNames (x ∷ xs) (y ∷ ys) s h = (
    subst (λ (t : Bytes). All (λ z. z.meta.name ≢ t) ys) (sym s.0)
        (All-SameNames (λ n. n ≢ x.meta.name) xs ys s.1 h.0),
    IsDistinct-SameNames xs ys s.1 h.1,
  )
  IsDistinct-SameNames [] (y ∷ ys) s h = absurd s
  IsDistinct-SameNames (x ∷ xs) [] s h = absurd s

  length-SameNames : (xs ys : List Filter) → SameNames xs ys → length ys ≡ length xs
  length-SameNames [] [] s = refl
  length-SameNames (x ∷ xs) (y ∷ ys) s = ap suc (length-SameNames xs ys s.1)
  length-SameNames [] (y ∷ ys) s = absurd s
  length-SameNames (x ∷ xs) [] s = absurd s

  pub sync_server-IsValid :
      (force : Bool) (s : Server P)
      → IsValid s.state.filters
      → IsValid (sync_server P force s).state.filters
  unfolding sync_server
  sync_server-IsValid force s v =
      let n =
        sync_dirty_logs-SameNames (now_ms P s.state.world).0 force s.state.filters.items
          (now_ms P s.state.world).1 in
      record {
        named = All-SameNames IsCString _ _ n v.named;
        distinct = IsDistinct-SameNames _ _ n v.distinct;
        room = omega (arith, length-SameNames _ _ n, v.room);
      }

  update_filter_meta_state-keeps :
      (f : Filter) (w : World)
      → ((update_filter_meta_state P f true true w).1.log_buf ≡ f.log_buf)
        × ((update_filter_meta_state P f true true w).1.log_dirty ≡ f.log_dirty)
  unfolding update_filter_meta_state
  update_filter_meta_state-keeps f w = ground arith

  -- The filter with its log written out.
  abbrev pub synced : ℕ → Filter → Filter
  synced now f = record f { log_buf = []; last_log_sync_ms = now; log_dirty = false }

  sync_filter_marks :
      (now : ℕ) (f : Filter) (w w1 : World)
      → (log_buffer_flush P f.log_fd f.log_buf true w).0 ≡ 0
      → (log_buffer_flush P f.log_fd f.log_buf true w).1 ≡ []
      → (log_buffer_flush P f.log_fd f.log_buf true w).2 ≡ w1
      → (f.meta.has_data && not f.meta.log_clean && not f.log_history_incomplete) ≡ true
      → ((sync_filter P now f w).1 ≡ (update_filter_meta_state P (synced now f) true true w1).2)
        × ((sync_filter P now f w).0.log_buf ≡ [])
        × ((sync_filter P now f w).0.log_dirty ≡ false)
  unfolding sync_filter
  sync_filter_marks now f w w1 went_out emptied left marks =
      let kept = update_filter_meta_state-keeps (synced now f) w1 in
      rw (sync_filter, went_out, marks, emptied, left) (refl, kept.0, kept.1)

  module _ (io : IoLaws P) (sent : World → ℕ → Bytes) (stream : StreamLaws P sent) where
    -- With write as documented, when a sync of a filter with an open log has marked its metadata
    -- clean that was not, then in some state the file held what it had held before and behind it
    -- the whole buffer, fsync succeeded in that state, and the metadata was written after that and
    -- nothing else was done; in the end the buffer is empty and the log not dirty, and the filter
    -- has data and is not marked as having an incomplete history.
    pub sync_filter_clean :
        (now fd : ℕ) (f : Filter) (w : World)
        → f.log_fd ≡ some fd
        → f.meta.log_clean ≡ false
        → (sync_filter P now f w).0.meta.log_clean ≡ true
        → (w1 : World) × (sent w1 fd ≡ sent w fd ++ f.log_buf)
          × ((P.fsync w1 fd).0 ≡ 0)
          × ((sync_filter P now f w).1
              ≡ (update_filter_meta_state P (synced now f) true true (P.fsync w1 fd).1).2)
          × ((sync_filter P now f w).0.log_buf ≡ [])
          × ((sync_filter P now f w).0.log_dirty ≡ false)
          × (f.log_history_incomplete ≡ false)
          × (f.meta.has_data ≡ true)
    unfolding sync_filter
    sync_filter_clean now fd f w opened was is =
        let (w1, out, ok, emptied, left) =
          log_buffer_flush_synced P io sent stream fd f.log_buf w went_out in
        let (marked, empty, clean) =
          sync_filter_marks now f w (P.fsync w1 fd).1 (rw opened went_out) (rw opened emptied)
            (rw opened left) marks in
        (w1, out, ok, marked, empty, clean, ground (arith, was, is), ground (arith, was, is))
      where
        went_out : (log_buffer_flush P (some fd) f.log_buf true w).0 ≡ 0
        went_out = ground (arith, was, is, opened)

        marks : (f.meta.has_data && not f.meta.log_clean && not f.log_history_incomplete) ≡ true
        marks = ground (arith, was, is)
