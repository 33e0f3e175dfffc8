-- ===== src/Tests/Logs.antt =====
-- Applications of the theorems on writing and on the digest log.
use kbloomd.Common.{
  ℕ, ◌≤◌, ◌≡◌, ◌≢◌, refl, arith, [], ◌∷◌, ◌++◌, Bytes, length, take, some, true, hang, replicate,
}
use kbloomd.Io.{write_all}
use kbloomd.Io.Writes.{write_all-ne-hang, Wrote, write_all-Wrote}
use kbloomd.Log.{log_buffer_append, log_buffer_flush}
use kbloomd.Log.Laws.{
  IsLogBuffer, log_buffer_append-IsLogBuffer, history, history-log_buffer_append,
  sent-log_buffer_flush, again, flush_after_torn_write,
}
use kbloomd.FilterState.{
  periodic, always, raw_fd, stage_digest_for_add, rollback_staged_digest, is_always, stage_append,
}
use kbloomd.FilterSet.{Filter}
use kbloomd.Bpf.{bpf_add_digest}
use kbloomd.Handlers.Add.{added, add_staged}
use kbloomd.Handlers.Add.Logged.{logged, opened, add_staged-logged, rollback_staged_digest-logged}
use kbloomd.Tests.{part, no_space, Machine, toy, sent}
use kbloomd.Tests.Platforms.{toy-IoLaws, toy-StreamLaws, toy-FileLaws}
use kbloomd.Tests.Filters.{ann}

-- One byte goes out, then there is no space, then there is.
abbrev torn : Machine
torn = record { disk = 9 ∷ []; input = []; digests = []; plans = part ∷ no_space ∷ [] }

abbrev calm : Machine
calm = record { disk = 9 ∷ []; input = []; digests = []; plans = [] }

abbrev buffered : Bytes
buffered = 1 ∷ 2 ∷ 3 ∷ []

write_all-ne-hang_example : (write_all toy 3 buffered torn).0 ≢ hang
write_all-ne-hang_example = write_all-ne-hang toy toy-IoLaws 3 buffered torn

write_all-Wrote_example :
    Wrote toy toy-IoLaws sent toy-StreamLaws 3 buffered torn (write_all toy 3 buffered torn)
write_all-Wrote_example = write_all-Wrote toy toy-IoLaws sent toy-StreamLaws 3 buffered torn

-- A digest of sixteen bytes.
abbrev digest : Bytes
digest = replicate 16 7

log_buffer_append-IsLogBuffer_example :
    IsLogBuffer (log_buffer_append toy (some 3) [] digest calm).1
log_buffer_append-IsLogBuffer_example =
    log_buffer_append-IsLogBuffer toy 3 [] digest calm refl
      (record { within = omega arith; whole = refl })

calm_append : (log_buffer_append toy (some 3) buffered digest calm).0 ≡ 0
unfolding log_buffer_append
calm_append = refl

history-log_buffer_append_example :
    history toy toy-IoLaws sent toy-StreamLaws
      (log_buffer_append toy (some 3) buffered digest calm).2
      3
      (log_buffer_append toy (some 3) buffered digest calm).1
    ≡ history toy toy-IoLaws sent toy-StreamLaws calm 3 buffered ++ digest
history-log_buffer_append_example =
    history-log_buffer_append toy toy-IoLaws sent toy-StreamLaws 3 buffered digest calm calm_append

calm_flush : (log_buffer_flush toy (some 3) buffered true calm).0 ≡ 0
unfolding log_buffer_flush write_all
calm_flush = refl

sent-log_buffer_flush_example :
    ((log_buffer_flush toy (some 3) buffered true calm).1 ≡ [])
    × (sent (log_buffer_flush toy (some 3) buffered true calm).2 3 ≡ sent calm 3 ++ buffered)
sent-log_buffer_flush_example =
    sent-log_buffer_flush toy toy-IoLaws sent toy-StreamLaws toy-FileLaws 3 buffered true calm
      calm_flush

torn_write : (write_all toy 3 buffered torn).0 ≢ 0
unfolding write_all
torn_write e = ground arith

retry_ends : (again toy 3 true (log_buffer_flush toy (some 3) buffered true torn)).0 ≡ 0
unfolding log_buffer_flush write_all
retry_ends = refl

flush_after_torn_write_example :
    (m : ℕ) × (m ≤ length buffered)
    × (sent (again toy 3 true (log_buffer_flush toy (some 3) buffered true torn)).2 3
        ≡ (sent torn 3 ++ take m buffered) ++ buffered)
flush_after_torn_write_example =
    flush_after_torn_write toy toy-IoLaws sent toy-StreamLaws toy-FileLaws 3 buffered true torn
      torn_write retry_ends

abbrev start : Filter
start = opened toy toy-IoLaws sent toy-StreamLaws toy-FileLaws 3 ann

digest_added : (add_staged toy start digest always true calm).0 ≡ added
unfolding add_staged stage_digest_for_add is_always stage_append log_buffer_append log_buffer_flush
    bpf_add_digest
digest_added = refl

add_staged-logged_example :
    logged toy toy-IoLaws sent toy-StreamLaws toy-FileLaws 3
      (add_staged toy start digest always true calm).1
      (add_staged toy start digest always true calm).2
    ≡ logged toy toy-IoLaws sent toy-StreamLaws toy-FileLaws 3 ann calm ++ digest
add_staged-logged_example =
    add_staged-logged toy toy-IoLaws sent toy-StreamLaws toy-FileLaws 3 ann digest always true calm
      digest_added

digest_staged : (stage_digest_for_add toy start digest periodic calm).0 ≡ 0
unfolding stage_digest_for_add is_always stage_append log_buffer_append
digest_staged = refl

rollback_staged_digest-logged_example :
    let (rc, stage, staged, w1) = stage_digest_for_add toy start digest periodic calm in
    let w2 = (bpf_add_digest toy (raw_fd staged.map_fd) digest w1).1 in
    logged toy toy-IoLaws sent toy-StreamLaws toy-FileLaws 3
      (rollback_staged_digest toy staged stage periodic w2).0
      (rollback_staged_digest toy staged stage periodic w2).1
    ≡ logged toy toy-IoLaws sent toy-StreamLaws toy-FileLaws 3 ann calm
rollback_staged_digest-logged_example =
    rollback_staged_digest-logged toy toy-IoLaws sent toy-StreamLaws toy-FileLaws 3 ann digest calm
      digest_staged
