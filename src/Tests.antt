-- ===== src/Tests.antt =====
-- A small platform on which the theorems are applied: one append-only file behind every descriptor,
-- an input, and the digests of one map. The outcomes of the next writes are planned.
pub mod Platforms
pub mod Hashing
pub mod Metadata
pub mod Frames
pub mod Logs
pub mod Filters
pub mod Clients
pub mod Recovery
pub mod Startup
pub mod Ctl
use kbloomd.Common.{
  ℕ, suc, ◌+◌, ◌-◌, Bool, true, false, List, [], ◌∷◌, ◌++◌, Bytes, Result, ok, err, length, take,
  drop, same, if◌then◌else◌, enoent, text, Option, none, some, ◌==◌,
}
use kbloomd.Platform.{Platform, MapInfo, Scanned}
use kbloomd.Frame.Send.{concat}

-- How a write goes: all of it, one byte, or none for lack of space.
pub data Plan : Type 0 where
  full part no_space : Plan

pub record Machine : Type 0 where
  pub disk : Bytes
  pub input : Bytes
  pub digests : List Bytes
  pub plans : List Plan

-- ENOSPC
abbrev pub enospc : ℕ
enospc = 28

abbrev pub write_planned : List Plan → Machine → Bytes → Result ℕ × Machine
write_planned (no_space ∷ more) m bs = (err enospc, record m { plans = more })
write_planned (part ∷ more) m bs =
    (ok (length (take 1 bs)), record m { disk = m.disk ++ take 1 bs; plans = more })
write_planned (full ∷ more) m bs = (ok (length bs), record m { disk = m.disk ++ bs; plans = more })
write_planned [] m bs = (ok (length bs), record m { disk = m.disk ++ bs })

abbrev pub held : List Bytes → Bytes → ℕ
held [] d = enoent
held (x ∷ xs) d = if same x d then 0 else held xs d

-- The length of the first line, its newline included.
abbrev pub line_end : Bytes → ℕ
line_end [] = 0
line_end (c ∷ rest) = if c == 10 then 1 else suc (line_end rest)

-- A text that is one decimal digit.
abbrev pub scan : Bytes → Scanned
scan [] = record { value = 0; stop = 0; errno = 0 }
scan (c ∷ rest) = record { value = c - 48; stop = 1; errno = 0 }

abbrev pub toy : Platform
toy = record {
  World = Machine;
  interrupts = λ m. 0;
  bytes_left = λ m fd. length m.input;
  connections_left = λ m. 0;
  stopping = λ m. false;
  realloc = λ m n. (true, m);
  read = λ m fd n. (ok (take n m.input), record m { input = drop n m.input });
  write = λ m fd bs. write_planned m.plans m bs;
  fsync = λ m fd. (0, m);
  fdatasync = λ m fd. (0, m);
  ftruncate = λ m fd n. (0, record m { disk = take n m.disk });
  truncate = λ m path n. (0, m);
  lseek_end = λ m fd. (ok (length m.disk), m);
  open_file = λ m path mode. (ok 3, m);
  close = λ m fd. m;
  unlink = λ m path. (0, m);
  rename = λ m from to. (0, m);
  map_create = λ m attr. (ok 4, record m { digests = [] });
  obj_get = λ m path. (err enoent, m);
  obj_pin = λ m fd path. (0, m);
  map_update = λ m fd d. (0, record m { digests = d ∷ m.digests });
  map_lookup = λ m fd d. (held m.digests d, m);
  obj_info = λ m fd. (
    ok (record { type = 30; key_size = 0; value_size = 16; max_entries = 10; map_extra = 5 }),
    m,
  );
  clock_gettime = λ m. ((7, 0), m);
  getpid = λ m. 100;
  strerror = λ n. text "error";
  format_unsigned = λ n. text "1";
  format_double = λ n. text "0.01";
  is_finite = λ n. true;
  double_le = λ a b. false;
  double_lt = λ a b. false;
  double_div = λ a b. a;
  log2 = λ a. a;
  ceil = λ a. a;
  double_of_int = λ a. a;
  int_of_double = λ a. a;
  read_dir = λ m path. (ok [], m);
  fopen = λ m path. (ok 3, m);
  fgets = λ m fd n. elim m.input [
    | [] ↦ (none, m)
    | c ∷ rest ↦ (
      some (take (line_end m.input) m.input),
      record m { input = drop (line_end m.input) m.input },
    )
  ];
  fclose = λ m fd. m;
  strtoul = λ text base. scan text;
  strtoull = λ text base. scan text;
  strtod = λ text. scan text;
  time = λ m. 1700000000;
  accept = λ m fd. (err 11, m);
  poll = λ m fds timeout. (ok [], m);
  get_flags = λ m fd. (ok 0, m);
  set_flags = λ m fd flags. (0, m);
  socket = λ m. (ok 5, m);
  bind = λ m fd path. (0, m);
  connect = λ m fd path. (0, m);
  chmod = λ m path mode. (0, m);
  listen = λ m fd backlog. (0, m);
  mkdir = λ m path mode. (0, m);
  statfs_type = λ m path. (ok 0xcafe4a11, m);
  sigaction = λ m signal action. (0, m);
  set_timeout = λ m fd option interval. (0, m);
  writev = λ m fd parts. (ok (length (concat parts)), record m { disk = m.disk ++ concat parts });
}

abbrev pub sent : Machine → ℕ → Bytes
sent m fd = m.disk

abbrev pub unread : Machine → ℕ → Bytes
unread m fd = m.input

abbrev pub content : Machine → Bytes → Bytes
content m path = m.input

-- The digests in the order of their insertion.
abbrev pub reversed : List Bytes → List Bytes
reversed [] = []
reversed (d ∷ rest) = reversed rest ++ (d ∷ [])

abbrev pub inserted : Machine → ℕ → List Bytes
inserted m fd = reversed m.digests
