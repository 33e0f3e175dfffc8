-- ===== src/Recovery.antt =====
-- What src/daemon.c does at start to bring the filters back: the tests on names and paths, and the
-- rebuilding of a kernel map from its digest log. With `bloomd_list_dir` of src/util.c.
pub mod Load
pub mod Pins
pub mod Kept
pub mod Rebuilt
pub mod Valid
use kbloomd.Common.{
  ℕ, ◌+◌, ◌-◌, ◌*◌, Bool, true, false, not, ◌&&◌, ◌||◌, Option, none, some, List, [], ◌∷◌, ◌++◌,
  Bytes, text, Result, ok, err, length, take, drop, same, ◌==◌, ltb, if◌then◌else◌, einval, enoent,
  enomem,
}
use kbloomd.Platform.{Platform}
use kbloomd.Wire.{byte_at}
use kbloomd.Frame.{max_name_len}
use kbloomd.Name.{name_is_valid}
use kbloomd.Bpf.{
  Outcome, done, fail, into_errbuf, bpf_add_digest, bpf_create_map, bpf_pin_map, bpf_close,
}
use kbloomd.FilterSet.{Meta}
use kbloomd.Daemon.{Config}
use kbloomd.Handlers.Create.{assign_filter_paths}
use kbloomd.Log.Replay.{log_replay}

unfoldable pub has_suffix : Bytes → Bytes → Bool
has_suffix name suffix =
    if ltb (length name) (length suffix)
    then false
    else same (drop (length name - length suffix) name) suffix

-- bloomd_meta_entry_name
unfoldable pub meta_entry_name : Bytes → Result Bytes
unfolding has_suffix name_is_valid
meta_entry_name entry =
    let len = length entry - 5 in
    if not (has_suffix entry (text ".meta"))
    then err einval
    else if len == 0 || ltb max_name_len len
    then err einval
    else if name_is_valid (take len entry)
    then ok (take len entry)
    else err einval

-- What `strrchr(path, '/') + 1` points to.
unfoldable pub after_last_slash : Bytes → Option Bytes
after_last_slash [] = none
after_last_slash (c ∷ rest) = elim (after_last_slash rest) [
  | some last ↦ some last
  | none ↦ if c == b'/' then some rest else none
]

unfoldable pub path_has_name : Bytes → Bytes → Bool
unfolding after_last_slash
path_has_name path name = elim (after_last_slash path) [ none ↦ false | some last ↦ same last name ]

unfoldable pub path_under_root : Bytes → Bytes → Bool
path_under_root path root =
    let root_len = length root in
    same (take root_len path) root && (byte_at path root_len == b'/' || byte_at path root_len == 0)

-- struct bloomd_replay_ctx, less `map_fd`, which nothing writes and the callback takes by itself.
pub record ReplayCtx : Type 0 where
  pub rc : ℕ
  pub errbuf : Bytes

-- The message of a replay that failed.
unfoldable pub replay_message : (ℕ → Bytes) → ℕ → Bytes → Bytes
replay_message strerror rc name =
    if rc == enoent
    then into_errbuf (text "digest log missing for " ++ name)
    else if rc == einval
    then into_errbuf (text "digest log is malformed for " ++ name)
    else into_errbuf
        (text "failed to replay digest log for " ++ (name ++ (text ": " ++ strerror rc)))

module _ (P : Platform) where
  open P use {World, strerror, read_dir, realloc}

  -- Room for one more name: the new `cap`.
  unfoldable pub list_room : ℕ → ℕ → World → Result ℕ × World
  list_room len cap w =
      let new_cap = if cap == 0 then 8 else cap * 2 in
      let (got, w1) = realloc w (new_cap * 8) in
      if not (len == cap)
      then (ok cap, w)
      else if not got
      then (err enomem, w1)
      else (ok new_cap, w1)

  -- The loop of `bloomd_list_dir`, over what `readdir` gives; `malloc` of a copy is a `realloc`.
  unfoldable pub list_dir_loop : List Bytes → List Bytes → ℕ → World → Result (List Bytes) × World
  list_dir_loop [] names cap w = (ok names, w)
  list_dir_loop (entry ∷ more) names cap w =
      let (room, w1) = list_room (length names) cap w in
      let (copied, w2) = realloc w1 (length entry + 1) in
      let skipped = list_dir_loop more names cap w in
      let next = λ (new_cap : ℕ). list_dir_loop more (names ++ (entry ∷ [])) new_cap w2 in
      if same entry (text ".") || same entry (text "..") then skipped else (elim room [
        | err e ↦ (err e, w1)
        | ok new_cap ↦ if not copied then (err enomem, w2) else next new_cap
      ])

  unfoldable pub list_dir : Bytes → World → Result (List Bytes) × World
  list_dir path w =
      let (r, w1) = read_dir w path in
      elim r [ err e ↦ (err e, w1) | ok entries ↦ list_dir_loop entries [] 0 w1 ]

  unfoldable pub replay_digest_cb : ℕ → Bytes → ReplayCtx → World → ℕ × ReplayCtx × World
  replay_digest_cb map_fd digest ctx w =
      let (r, w1) = bpf_add_digest P map_fd digest w in
      elim r [
        | done t ↦ (0, record ctx { rc = 0 }, w1)
        | fail rc message ↦ (1, record ctx { rc = rc; errbuf = message }, w1)
      ]

  -- From the new map on: the log is replayed into it, and it is pinned.
  unfoldable pub rebuild_into : Meta → ℕ → World → Outcome (ℕ × ℕ) × World
  rebuild_into meta fd w =
      let ctx0 : ReplayCtx = record { rc = 0; errbuf = [] } in
      let (r, ctx, w1) = log_replay P (replay_digest_cb fd) meta.log_path ctx0 w in
      let (pinned, w2) = bpf_pin_map P fd meta.pin_path w1 in
      elim r [
        | err rc ↦ (
          if not (ctx.rc == 0)
              then fail ctx.rc ctx.errbuf
              else fail rc (replay_message strerror rc meta.name),
          bpf_close P (some fd) w1,
        )
        | ok replayed ↦ (elim pinned [
          | fail rc message ↦ (fail rc message, bpf_close P (some fd) w2)
          | done t ↦ (done (fd, replayed), w2)
        ])
      ]

  -- bloomd_rebuild_from_log: the map and the count, and the metadata with its paths assigned. Where
  -- assigning them fails, the caller does not look at them again.
  unfoldable pub rebuild_from_log : Config → Meta → World → Outcome (ℕ × ℕ) × Meta × World
  rebuild_from_log cfg meta w = elim (assign_filter_paths cfg meta) [
    | err rc ↦
        (fail rc (into_errbuf (text "failed to build filter paths for " ++ meta.name)), meta, w)
    | ok placed ↦
        let (made, w1) = bpf_create_map P placed.name placed.capacity placed.hashes w in
        elim made [
          | fail rc message ↦ (fail rc message, placed, w1)
          | done fd ↦ let (r, w2) = rebuild_into placed fd w1 in (r, placed, w2)
        ]
  ]
