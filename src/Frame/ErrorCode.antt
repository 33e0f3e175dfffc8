-- ===== src/Frame/ErrorCode.antt =====
-- enum bloomd_error_code of include/bloomd.h, and its names in src/protocol.c.
use Prim.Native.Nat.{ℕ}
use kbloomd.Common.{Bytes, text, ◌==◌, if◌then◌else◌}

abbrev pub none : ℕ
none = 0

abbrev pub parse : ℕ
parse = 1

abbrev pub range : ℕ
range = 2

abbrev pub timeout : ℕ
timeout = 3

abbrev pub short_io : ℕ
short_io = 4

abbrev pub unsupported_kernel : ℕ
unsupported_kernel = 5

abbrev pub bpf_privs : ℕ
bpf_privs = 6

abbrev pub bpffs : ℕ
bpffs = 7

abbrev pub metadata : ℕ
metadata = 8

-- bloomd_errno_string
unfoldable pub errno_string : ℕ → Bytes
errno_string code =
    if code == none
    then text "none"
    else if code == parse
    then text "parse_error"
    else if code == range
    then text "range_error"
    else if code == timeout
    then text "timeout"
    else if code == short_io
    then text "short_io"
    else if code == unsupported_kernel
    then text "unsupported_kernel"
    else if code == bpf_privs
    then text "bpf_privileges"
    else if code == bpffs
    then text "bpffs"
    else if code == metadata
    then text "metadata"
    else text "unknown"
