-- ===== src/Dispatch.antt =====
-- `bloomd_dispatch` of src/daemon.c: from a request to a handler.
pub mod Preserves
use kbloomd.Common.{ℕ, true, false, not, ◌&&◌, Bytes, text, ◌==◌, if◌then◌else◌}
use kbloomd.Platform.{Platform}
use kbloomd.Frame.Status
use kbloomd.Frame.ErrorCode
use kbloomd.Frame.{Request}
use kbloomd.Daemon.{Config, State, reply_error}
use kbloomd.Handlers.Create.{handle_create}
use kbloomd.Handlers.Add.{handle_add_check}
use kbloomd.Handlers.Batch.{handle_batch}
use kbloomd.Handlers.Info.{handle_ping, handle_info, handle_list, handle_stats}
use kbloomd.Handlers.Drop.{handle_drop}

-- enum bloomd_opcode
pub data Opcode : Type 0 where
  ping create add check madd mcheck info list drop stats unknown : Opcode

unfoldable pub opcode_of : ℕ → Opcode
opcode_of n =
    if n == 1
    then ping
    else if n == 2
    then create
    else if n == 3
    then add
    else if n == 4
    then check
    else if n == 5
    then madd
    else if n == 6
    then mcheck
    else if n == 7
    then info
    else if n == 8
    then list
    else if n == 9
    then drop
    else if n == 10
    then stats
    else unknown

module _ (P : Platform) where
  -- A request whose body must be empty.
  unfoldable pub bodyless : Request → Bytes → (State P → ℕ × State P) → State P → ℕ × State P
  bodyless req message handler s =
      if not (req.header.body_len == 0)
      then reply_error P Status.bad_request ErrorCode.parse message s
      else handler s

  -- The switch.
  unfoldable pub handle : Config → Request → Opcode → State P → ℕ × State P
  handle cfg req ping s = bodyless req (text "PING body must be empty") (handle_ping P) s
  handle cfg req create s = handle_create P cfg req s
  handle cfg req add s = handle_add_check P req true cfg.log_sync_mode s
  handle cfg req check s = handle_add_check P req false cfg.log_sync_mode s
  handle cfg req madd s = handle_batch P req true cfg.log_sync_mode s
  handle cfg req mcheck s = handle_batch P req false cfg.log_sync_mode s
  handle cfg req info s = handle_info P req s
  handle cfg req list s = bodyless req (text "LIST body must be empty") (handle_list P) s
  handle cfg req drop s = handle_drop P req s
  handle cfg req stats s = bodyless req (text "STATS body must be empty") (handle_stats P) s
  handle cfg req unknown s =
      reply_error P Status.bad_request ErrorCode.parse (text "unknown opcode") s

  -- What follows the switch: a failure that has set no status becomes an internal error.
  unfoldable pub settle : ℕ → State P → ℕ × State P
  settle rc s =
      if not (rc == 0) && s.resp.header.status == Status.ok
      then reply_error P Status.internal ErrorCode.none (text "internal buffer failure") s
      else (0, s)

  unfoldable pub dispatch : Config → Request → State P → ℕ × State P
  dispatch cfg req s = let (rc, s1) = handle cfg req (opcode_of req.header.opcode) s in settle rc s1
