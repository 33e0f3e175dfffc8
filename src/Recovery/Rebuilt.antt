-- ===== src/Recovery/Rebuilt.antt =====
-- A kernel map that src/daemon.c rebuilds from a digest log holds what the log holds.
use kbloomd.Common.{
  ℕ, ◌/◌, ◌^◌, ◌<◌, ◌≡◌, ◌≢◌, inl, inr, sym, ap, ◌∙◌, arith, true, List, [], ◌++◌, Bytes, ok, err,
  Result-cases, length, bit_and,
}
use mathlib.Core.Path.{subst}
use kbloomd.Platform.{Platform, MapAttr, read_only}
use kbloomd.Platform.Laws.{ReadLaws, MapLaws}
use kbloomd.Bpf.{
  done, Outcome-cases, digest_size, bpf_add_digest, bpf_create_map, bpf_pin_map,
  map_type_bloom_filter, map_name,
}
use kbloomd.FilterSet.{Meta}
use kbloomd.Daemon.{Config}
use kbloomd.Handlers.Create.{assign_filter_paths}
use kbloomd.Log.Replay.{log_replay, log_replay_impl}
use kbloomd.Log.Replay.Records.{records, IsCollector, Replayed, log_replay_impl-Ends}
use kbloomd.Recovery.{ReplayCtx, replay_digest_cb, rebuild_into, rebuild_from_log}

module _ (P : Platform) (unread : P.World → ℕ → Bytes) (inserted : P.World → ℕ → List Bytes)
    (content : P.World → Bytes → Bytes) (reads : ReadLaws P unread)
    (maps : MapLaws P inserted unread content) where
  open P use {World}

  -- The digests in the map that a replay fills.
  abbrev seen : ℕ → ReplayCtx → World → List Bytes
  seen map ctx w = inserted w map

  replay_digest_cb-IsCollector :
      (map : ℕ) → IsCollector P unread reads (replay_digest_cb P map) (seen map)
  unfolding replay_digest_cb bpf_add_digest
  replay_digest_cb-IsCollector map = record {
    cb_seen = λ d c w e. ground (arith, e, maps.update_inserted w map d);
    cb_unread = λ d c w fd. ground (arith, maps.update_unread w map fd d);
    read_seen = λ c w fd n. maps.read_inserted w fd n map;
    close_seen = λ c w fd. maps.close_inserted w fd map;
    truncate_seen = λ c w path n. maps.truncate_inserted w path n map;
  }

  -- What a successful replay into a map has done.
  replayed :
      (map : ℕ) (path : Bytes) (ctx : ReplayCtx) (w : World) (n : ℕ)
      → length (content w path) < 2 ^ 63
      → (log_replay P (replay_digest_cb P map) path ctx w).0 ≡ ok n
      → (n ≡ length (content w path) / digest_size)
        × (inserted (log_replay P (replay_digest_cb P map) path ctx w).2 map
            ≡ inserted w map ++ records n (content w path))
  unfolding log_replay
  replayed map path ctx w n small e = elim (Result-cases (P.open_file w path read_only).0) [
    | inr (k, eq) ↦ absurd (failed_open k eq e)
    | inl (fd, eq) ↦
        let log = maps.open_content w path fd eq in
        let h =
          subst
            (λ r.
              Replayed P unread reads (replay_digest_cb P map) (seen map) true
                (unread (P.open_file w path read_only).1 fd) 0
                (inserted (P.open_file w path read_only).1 map) r
                (inserted (log_replay_impl P (replay_digest_cb P map) path true ctx w).2 map))
            e
            (log_replay_impl-Ends P unread reads (replay_digest_cb P map) (seen map)
              (replay_digest_cb-IsCollector map) path true ctx w fd eq (rw log small)) in
        let same_count : n ≡ length (unread (P.open_file w path read_only).1 fd) / digest_size =
          omega (arith, h.0) in
        (
          omega (arith, same_count, ap length log),
          h.1
              ∙ ap
                  (λ t.
                    t
                    ++ records (length (unread (P.open_file w path read_only).1 fd) / digest_size)
                        (unread (P.open_file w path read_only).1 fd))
                  (maps.open_inserted w path map)
              ∙ ap (λ m. inserted w map ++ records m (unread (P.open_file w path read_only).1 fd))
                  (sym same_count)
              ∙ ap (λ u. inserted w map ++ records n u) log,
        )
  ]
    where
      failed_open :
          (k : ℕ)
          → (P.open_file w path read_only).0 ≡ err k
          → (log_replay_impl P (replay_digest_cb P map) path true ctx w).0 ≢ ok n
      failed_open k eq = rw (log_replay_impl, eq) (λ h. ground (arith, h))

  -- A map that a rebuild made and pinned.
  rebuild_into_done :
      (meta : Meta) (fd : ℕ) (w : World) (map n : ℕ)
      → length (content w meta.log_path) < 2 ^ 63
      → (rebuild_into P meta fd w).0 ≡ done (map, n)
      → (map ≡ fd)
        × (n ≡ length (content w meta.log_path) / digest_size)
        × (inserted (rebuild_into P meta fd w).1 fd
            ≡ inserted w fd ++ records n (content w meta.log_path))
  unfolding rebuild_into bpf_pin_map
  rebuild_into_done meta fd w map n small e =
      elim (Result-cases (log_replay P (replay_digest_cb P fd) meta.log_path start w).0) [
        | inr (k, eq) ↦ absurd (ground (arith, e))
        | inl (m, eq) ↦ ground (
          arith,
          e,
          replayed fd meta.log_path start w m small eq,
          maps.pin_inserted (log_replay P (replay_digest_cb P fd) meta.log_path start w).2 fd
              meta.pin_path fd,
        )
      ]
    where
      start : ReplayCtx
      start = record { rc = 0; errbuf = [] }

  -- A new map is empty, and making it leaves the logs alone.
  bpf_create_map_done :
      (name : Bytes) (capacity hashes : ℕ) (w : World) (fd : ℕ) (path : Bytes)
      → (bpf_create_map P name capacity hashes w).0 ≡ done fd
      → (inserted (bpf_create_map P name capacity hashes w).1 fd ≡ [])
        × (content (bpf_create_map P name capacity hashes w).1 path ≡ content w path)
  unfolding bpf_create_map
  bpf_create_map_done name capacity hashes w fd path e =
      ground (arith, e, maps.create_empty w attr fd, maps.create_content w attr path)
    where
      attr : MapAttr
      attr = record {
        map_type = map_type_bloom_filter;
        key_size = 0;
        value_size = digest_size;
        max_entries = capacity;
        map_extra = bit_and hashes 0x0f;
        map_name = map_name name;
      }

  -- With the calls as documented, for a log of less than 2^63 bytes at the path that is assigned
  -- to the filter, when bloomd_rebuild_from_log succeeds, the map that it returns holds exactly
  -- the digests of the whole records of the log, in their order, and the count is their number.
  pub rebuild_from_log-records :
      (cfg : Config) (meta placed : Meta) (w : World) (map n : ℕ)
      → assign_filter_paths cfg meta ≡ ok placed
      → length (content w placed.log_path) < 2 ^ 63
      → (rebuild_from_log P cfg meta w).0 ≡ done (map, n)
      → (n ≡ length (content w placed.log_path) / digest_size)
        × (inserted (rebuild_from_log P cfg meta w).2 map ≡ records n (content w placed.log_path))
  unfolding rebuild_from_log
  rebuild_from_log-records cfg meta placed w map n assigned small e =
      elim (Outcome-cases (bpf_create_map P placed.name placed.capacity placed.hashes w).0) [
        | inr (k, message, eq) ↦ absurd (ground (arith, e, assigned))
        | inl (fd, eq) ↦
            let w1 = (bpf_create_map P placed.name placed.capacity placed.hashes w).1 in
            let c =
              bpf_create_map_done placed.name placed.capacity placed.hashes w fd placed.log_path
                eq in
            let h = rebuild_into_done placed fd w1 map n (rw c.1 small) (into fd eq) in
            rw (rebuild_from_log, assigned, eq)
              (
                h.1 ∙ ap (λ t. length t / digest_size) c.1,
                ap (inserted (rebuild_into P placed fd w1).1) h.0
                    ∙ h.2
                    ∙ ap (λ t. t ++ records n (content w1 placed.log_path)) c.0
                    ∙ ap (records n) c.1,
              )
      ]
    where
      into :
          (fd : ℕ)
          → (bpf_create_map P placed.name placed.capacity placed.hashes w).0 ≡ done fd
          → (rebuild_into P placed fd
              (bpf_create_map P placed.name placed.capacity placed.hashes w).1).0
            ≡ done (map, n)
      into fd eq = ground (arith, e, assigned)
