-- ===== src/Platform.antt =====
-- What lies under the daemon and is not its code: the kernel and the C library. Each call takes the
-- world and returns its result with the next world. Nothing is assumed of the calls here: a theorem
-- that relies on one says so by a hypothesis, a record of module Platform.Laws.
pub mod Laws
use kbloomd.Common.{ℕ, Bool, Option, List, Bytes, Result}

-- The flag sets with which the sources open a file.
pub data OpenMode : Type 0 where
  create_trunc create_append create_trunc_append read_only directory : OpenMode

-- The fields of `union bpf_attr` that `BPF_MAP_CREATE` reads.
pub record MapAttr : Type 0 where
  pub map_type : ℕ
  pub key_size : ℕ
  pub value_size : ℕ
  pub max_entries : ℕ
  pub map_extra : ℕ
  pub map_name : Bytes

-- `struct bloomd_bpf_map_info`, the fields of the kernel's `struct bpf_map_info` that are copied.
pub record MapInfo : Type 0 where
  pub type : ℕ
  pub key_size : ℕ
  pub value_size : ℕ
  pub max_entries : ℕ
  pub map_extra : ℕ

-- What `strtoul` and its kin return: the value, how far the text was read, and errno.
pub record Scanned : Type 0 where
  pub value : ℕ
  pub stop : ℕ
  pub errno : ℕ

-- One `struct pollfd` before the call.
pub record PollFd : Type 0 where
  pub fd : Option ℕ
  pub events : ℕ

-- The dispositions that the daemon gives to signals.
pub data SignalAction : Type 0 where
  stop_on_signal ignore_signal : SignalAction

-- Where a call returns a number alone, it is 0 or the errno value of the failure.
-- A `double` is its bit pattern.
pub record Platform : Type 1 where
  pub World : Type 0
  -- a bound on the signals that may still interrupt a blocking call
  pub interrupts : World → ℕ
  -- a bound on the bytes that a descriptor or a stream still has to be read
  pub bytes_left : World → ℕ → ℕ
  -- a bound on the connections that `accept` still finds, with those that fail to be taken
  pub connections_left : World → ℕ
  -- `bloomd_stop`, which the handler of SIGINT and SIGTERM sets
  pub stopping : World → Bool
  -- does `realloc` give memory for so many bytes?
  pub realloc : World → ℕ → Bool × World
  pub read : World → ℕ → ℕ → Result Bytes × World
  pub write : World → ℕ → Bytes → Result ℕ × World
  pub fsync : World → ℕ → ℕ × World
  pub fdatasync : World → ℕ → ℕ × World
  pub ftruncate : World → ℕ → ℕ → ℕ × World
  pub truncate : World → Bytes → ℕ → ℕ × World
  pub lseek_end : World → ℕ → Result ℕ × World
  pub open_file : World → Bytes → OpenMode → Result ℕ × World
  pub close : World → ℕ → World
  pub unlink : World → Bytes → ℕ × World
  pub rename : World → Bytes → Bytes → ℕ × World
  pub map_create : World → MapAttr → Result ℕ × World
  pub obj_get : World → Bytes → Result ℕ × World
  pub obj_pin : World → ℕ → Bytes → ℕ × World
  pub map_update : World → ℕ → Bytes → ℕ × World
  pub map_lookup : World → ℕ → Bytes → ℕ × World
  pub obj_info : World → ℕ → Result MapInfo × World
  -- seconds and nanoseconds of the monotonic clock
  pub clock_gettime : World → (ℕ × ℕ) × World
  pub getpid : World → ℕ
  pub strerror : ℕ → Bytes
  pub format_unsigned : ℕ → Bytes
  pub format_double : ℕ → Bytes
  pub is_finite : ℕ → Bool
  pub double_le : ℕ → ℕ → Bool
  pub double_lt : ℕ → ℕ → Bool
  pub double_div : ℕ → ℕ → ℕ
  pub log2 : ℕ → ℕ
  pub ceil : ℕ → ℕ
  pub double_of_int : ℕ → ℕ
  pub int_of_double : ℕ → ℕ
  -- `opendir`, and the names that `readdir` gives until it ends
  pub read_dir : World → Bytes → Result (List Bytes) × World
  pub fopen : World → Bytes → Result ℕ × World
  -- a line of a stream, for a buffer of so many bytes, up to its first NUL
  pub fgets : World → ℕ → ℕ → Option Bytes × World
  pub fclose : World → ℕ → World
  -- for a text and a base
  pub strtoul : Bytes → ℕ → Scanned
  pub strtoull : Bytes → ℕ → Scanned
  pub strtod : Bytes → Scanned
  pub time : World → ℕ
  pub accept : World → ℕ → Result ℕ × World
  -- the `revents` of the entries, in their order
  pub poll : World → List PollFd → ℕ → Result (List ℕ) × World
  pub get_flags : World → ℕ → Result ℕ × World
  pub set_flags : World → ℕ → ℕ → ℕ × World
  pub socket : World → Result ℕ × World
  pub bind : World → ℕ → Bytes → ℕ × World
  pub connect : World → ℕ → Bytes → ℕ × World
  pub chmod : World → Bytes → ℕ → ℕ × World
  pub listen : World → ℕ → ℕ → ℕ × World
  pub mkdir : World → Bytes → ℕ → ℕ × World
  pub statfs_type : World → Bytes → Result ℕ × World
  pub sigaction : World → ℕ → SignalAction → ℕ × World
  -- a socket option, and the seconds and microseconds it is set to
  pub set_timeout : World → ℕ → ℕ → ℕ × ℕ → ℕ × World
  pub writev : World → ℕ → List Bytes → Result ℕ × World
