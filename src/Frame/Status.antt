-- ===== src/Frame/Status.antt =====
-- enum bloomd_status of include/bloomd.h, and its names in src/protocol.c.
use Prim.Native.Nat.{ℕ}
use kbloomd.Common.{Bytes, text, ◌==◌, if◌then◌else◌}

abbrev pub ok : ℕ
ok = 0

abbrev pub bad_request : ℕ
bad_request = 1

abbrev pub too_large : ℕ
too_large = 2

abbrev pub not_found : ℕ
not_found = 3

abbrev pub exists : ℕ
exists = 4

abbrev pub unsupported : ℕ
unsupported = 5

abbrev pub io : ℕ
io = 6

abbrev pub bpf : ℕ
bpf = 7

abbrev pub name : ℕ
name = 8

abbrev pub state : ℕ
state = 9

abbrev pub perm : ℕ
perm = 10

abbrev pub internal : ℕ
internal = 11

-- bloomd_status_string
unfoldable pub status_string : ℕ → Bytes
status_string code =
    if code == ok
    then text "ok"
    else if code == bad_request
    then text "bad_request"
    else if code == too_large
    then text "too_large"
    else if code == not_found
    then text "not_found"
    else if code == exists
    then text "exists"
    else if code == unsupported
    then text "unsupported"
    else if code == io
    then text "io"
    else if code == bpf
    then text "bpf"
    else if code == name
    then text "name"
    else if code == state
    then text "state"
    else if code == perm
    then text "perm"
    else if code == internal
    then text "internal"
    else text "unknown"
