-- ===== src/Ctl/Session.antt =====
-- `main` of src/bloomctl.c: from the arguments to a request, over the socket, to the reply.
use kbloomd.Common.{
  ℕ, not, List, [], ◌∷◌, Bytes, text, Result, ok, err, take, same, ◌==◌, if◌then◌else◌, einval,
}
use kbloomd.Platform.{Platform}
use kbloomd.Buffer.{Buffer, buffer_init}
use kbloomd.Frame.Status
use kbloomd.Frame.{Request, Response, response_init, read_frame}
use kbloomd.Frame.Send.{write_response}
use kbloomd.Dispatch.{Opcode}
use kbloomd.Ctl.{build_name_request, build_payload_request, command_create, command_batch}
use kbloomd.Ctl.Replies.{line, Reply, show_flag, show_flags, show_info, show_list, show_stats}

-- The values of `enum bloomd_opcode`.
unfoldable pub opcode_value : Opcode → ℕ
opcode_value Opcode.ping = 1
opcode_value Opcode.create = 2
opcode_value Opcode.add = 3
opcode_value Opcode.check = 4
opcode_value Opcode.madd = 5
opcode_value Opcode.mcheck = 6
opcode_value Opcode.info = 7
opcode_value Opcode.list = 8
opcode_value Opcode.drop = 9
opcode_value Opcode.stats = 10
opcode_value Opcode.unknown = 0

-- The socket and what stands behind it in the arguments.
unfoldable pub socket_and_rest : List Bytes → Bytes × List Bytes
socket_and_rest (flag ∷ path ∷ rest) =
    if same flag (text "-s") then (path, rest) else (text "/run/bloomd.sock", flag ∷ path ∷ rest)
socket_and_rest args = (text "/run/bloomd.sock", args)

unfoldable pub command_opcode : Bytes → Opcode
command_opcode cmd =
    if same cmd (text "ping")
    then Opcode.ping
    else if same cmd (text "create")
    then Opcode.create
    else if same cmd (text "add")
    then Opcode.add
    else if same cmd (text "check")
    then Opcode.check
    else if same cmd (text "madd")
    then Opcode.madd
    else if same cmd (text "mcheck")
    then Opcode.mcheck
    else if same cmd (text "info")
    then Opcode.info
    else if same cmd (text "list")
    then Opcode.list
    else if same cmd (text "drop")
    then Opcode.drop
    else if same cmd (text "stats")
    then Opcode.stats
    else Opcode.unknown

-- The reply to a request that the daemon answered with OK.
unfoldable pub show_reply : Opcode → Request → Reply
show_reply Opcode.ping resp = (0, line (take resp.header.body_len resp.body) ∷ [])
show_reply Opcode.add resp = show_flag resp
show_reply Opcode.check resp = show_flag resp
show_reply Opcode.madd resp = show_flags resp
show_reply Opcode.mcheck resp = show_flags resp
show_reply Opcode.info resp = show_info resp
show_reply Opcode.list resp = show_list resp
show_reply Opcode.stats resp = show_stats resp
show_reply _ resp = (0, [])

module _ (P : Platform) where
  open P use {World, socket, connect, close}

  -- The body of the request; a usage error is a code that is not 0.
  unfoldable pub build_request : Opcode → List Bytes → World → ℕ × Buffer × World
  build_request Opcode.create args w = command_create P args buffer_init w
  build_request Opcode.add (name ∷ payload ∷ []) w =
      build_payload_request P name payload buffer_init w
  build_request Opcode.check (name ∷ payload ∷ []) w =
      build_payload_request P name payload buffer_init w
  build_request Opcode.madd (name ∷ item ∷ items) w =
      command_batch P name (item ∷ items) buffer_init w
  build_request Opcode.mcheck (name ∷ item ∷ items) w =
      command_batch P name (item ∷ items) buffer_init w
  build_request Opcode.info (name ∷ []) w = build_name_request P name buffer_init w
  build_request Opcode.drop (name ∷ []) w = build_name_request P name buffer_init w
  build_request Opcode.ping args w = (0, buffer_init, w)
  build_request Opcode.list args w = (0, buffer_init, w)
  build_request Opcode.stats args w = (0, buffer_init, w)
  build_request _ args w = (einval, buffer_init, w)

  -- bloomctl_connect; `sun_path` has 108 bytes.
  unfoldable pub ctl_connect : Bytes → World → Result ℕ × World
  ctl_connect path w =
      let (r, w1) = socket w in
      elim r [
        | err e ↦ (err e, w1)
        | ok fd ↦
            let (rc, w2) = connect w1 fd (take 107 path) in
            if not (rc == 0) then (err rc, close w2 fd) else (ok fd, w2)
      ]

  -- bloomctl_send_request
  unfoldable pub send_request : ℕ → ℕ → ℕ → Buffer → World → Result Request × World
  send_request fd opcode request_id body w =
      let init = response_init opcode request_id in
      let req : Response = record { header = record init.header { flags = 0 }; body = body } in
      let (rc, w1) = write_response P fd req w in
      let (got, storage, w2) = read_frame P fd buffer_init w1 in
      if not (rc == 0) then (err rc, w1) else (got, w2)

  -- From the body of the request on.
  unfoldable pub ask : Bytes → Opcode → Buffer → World → Reply × World
  ask socket_path op body w =
      let (connected, w1) = ctl_connect socket_path w in
      elim connected [
        | err e ↦ ((1, []), w1)
        | ok fd ↦
            let (got, w2) = send_request fd (opcode_value op) 1 body w1 in
            (
              elim got [
                | err e ↦ (1, [])
                | ok resp ↦
                    if not (resp.header.status == Status.ok) then (1, []) else show_reply op resp
              ],
              close w2 fd,
            )
      ]

  -- `main` on the arguments behind the name of the program, and how it ends.
  unfoldable pub ctl_main : List Bytes → World → Reply × World
  ctl_main args w =
      let (socket_path, rest) = socket_and_rest args in
      elim rest [
        | [] ↦ ((2, []), w)
        | cmd ∷ more ↦
            let op = command_opcode cmd in
            let (rc, body, w1) = build_request op more w in
            if same cmd (text "--version")
            then ((0, line (text "bloomctl 1.0.0") ∷ []), w)
            else if not (rc == 0)
            then ((2, []), w1)
            else ask socket_path op body w1
      ]
