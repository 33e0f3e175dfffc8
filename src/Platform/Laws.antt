-- ===== src/Platform/Laws.antt =====
-- Documented behaviour of the kernel, as hypotheses of the theorems that need it.
use kbloomd.Common.{
  ℕ, ◌+◌, ◌^◌, ◌≤◌, ◌<◌, ◌≡◌, ◌≢◌, ◌⊎◌, true, none, some, List, Bytes, [], ◌∷◌, ◌++◌, ok, err,
  eintr, length, take,
}
use kbloomd.Platform.{Platform, MapAttr, read_only}

-- A text that is one line: no NUL, newline or carriage return in it.
abbrev pub IsLine : Bytes → Type 0
IsLine [] = Unit
IsLine (c ∷ rest) = (c ≢ 0) × (c ≢ 10) × (c ≢ 13) × IsLine rest

-- write(2) and read(2): a count is at most what was asked for, a failure has a nonzero errno, and
-- only so many calls are interrupted.
pub record IoLaws (P : Platform) : Type 0 where
  pub write_count :
      (w : P.World) (fd : ℕ) (bs : Bytes) (n : ℕ) → (P.write w fd bs).0 ≡ ok n → n ≤ length bs
  pub write_error :
      (w : P.World) (fd : ℕ) (bs : Bytes) (e : ℕ) → (P.write w fd bs).0 ≡ err e → e ≢ 0
  pub write_known :
      (w : P.World) (fd : ℕ) (bs : Bytes) (e : ℕ) → (P.write w fd bs).0 ≡ err e → e < 4096
  pub write_interrupts :
      (w : P.World) (fd : ℕ) (bs : Bytes) → P.interrupts (P.write w fd bs).1 ≤ P.interrupts w
  pub write_eintr :
      (w : P.World) (fd : ℕ) (bs : Bytes)
      → (P.write w fd bs).0 ≡ err eintr
      → P.interrupts (P.write w fd bs).1 < P.interrupts w
  pub clock_interrupts : (w : P.World) → P.interrupts (P.clock_gettime w).1 ≤ P.interrupts w

-- A file opened with O_APPEND, or a stream socket: `sent w fd` is what has gone out through `fd`.
-- A write adds the bytes that it counts, and a failing one adds none.
pub record StreamLaws (P : Platform) (sent : P.World → ℕ → Bytes) : Type 0 where
  pub write_ok :
      (w : P.World) (fd : ℕ) (bs : Bytes) (n : ℕ)
      → (P.write w fd bs).0 ≡ ok n
      → sent (P.write w fd bs).1 fd ≡ sent w fd ++ take n bs
  pub write_err :
      (w : P.World) (fd : ℕ) (bs : Bytes) (e : ℕ)
      → (P.write w fd bs).0 ≡ err e
      → sent (P.write w fd bs).1 fd ≡ sent w fd

-- fsync(2) and lseek(2) of an append-only file, and the calls that do not write to it.
pub record FileLaws (P : Platform) (sent : P.World → ℕ → Bytes) : Type 0 where
  pub fsync_keeps : (w : P.World) (fd : ℕ) → sent (P.fsync w fd).1 fd ≡ sent w fd
  pub lseek_keeps : (w : P.World) (fd : ℕ) → sent (P.lseek_end w fd).1 fd ≡ sent w fd
  pub lseek_size : (w : P.World) (fd n : ℕ) → (P.lseek_end w fd).0 ≡ ok n → n ≡ length (sent w fd)
  pub lseek_error : (w : P.World) (fd e : ℕ) → (P.lseek_end w fd).0 ≡ err e → e ≢ 0
  pub update_keeps :
      (w : P.World) (map fd : ℕ) (digest : Bytes)
      → sent (P.map_update w map digest).1 fd ≡ sent w fd
  pub clock_keeps : (w : P.World) (fd : ℕ) → sent (P.clock_gettime w).1 fd ≡ sent w fd

-- read(2) of a file that nothing else writes to, or of a stream socket: `unread w fd` is what is left
-- of it, with all that is still to arrive. A read takes
-- bytes off its front, fewer than asked for if need be, and none only at its end.
pub record ReadLaws (P : Platform) (unread : P.World → ℕ → Bytes) : Type 0 where
  pub read_ok :
      (w : P.World) (fd n : ℕ) (bs : Bytes)
      → (P.read w fd n).0 ≡ ok bs
      → unread w fd ≡ bs ++ unread (P.read w fd n).1 fd
  pub read_count : (w : P.World) (fd n : ℕ) (bs : Bytes) → (P.read w fd n).0 ≡ ok bs → length bs ≤ n
  pub read_end :
      (w : P.World) (fd n : ℕ) (bs : Bytes)
      → (P.read w fd n).0 ≡ ok bs
      → length bs ≡ 0
      → (unread w fd ≡ []) ⊎ (n ≡ 0)
  pub read_err :
      (w : P.World) (fd n e : ℕ)
      → (P.read w fd n).0 ≡ err e
      → unread (P.read w fd n).1 fd ≡ unread w fd
  pub read_known : (w : P.World) (fd n e : ℕ) → (P.read w fd n).0 ≡ err e → e < 4096
  pub read_interrupts : (w : P.World) (fd n : ℕ) → P.interrupts (P.read w fd n).1 ≤ P.interrupts w
  pub read_eintr :
      (w : P.World) (fd n : ℕ)
      → (P.read w fd n).0 ≡ err eintr
      → P.interrupts (P.read w fd n).1 < P.interrupts w
  pub left : (w : P.World) (fd : ℕ) → length (unread w fd) ≤ P.bytes_left w fd

-- fgets(3): every line that it gives uses up at least a byte of the stream.
pub record LineLaws (P : Platform) : Type 0 where
  pub line_left :
      (w : P.World) (fp size : ℕ) (line : Bytes)
      → (P.fgets w fp size).0 ≡ some line
      → P.bytes_left (P.fgets w fp size).1 fp < P.bytes_left w fp

-- fopen(3) and fgets(3) of a text: `unread w fp` is what is left of it. A line that fits the buffer
-- with its newline and a NUL comes whole, and there is none at the end.
pub record TextLaws (P : Platform) (unread : P.World → ℕ → Bytes) : Type 0 where
  pub line_whole :
      (w : P.World) (fp size : ℕ) (line rest : Bytes)
      → unread w fp ≡ line ++ (10 ∷ rest)
      → IsLine line
      → length line + 2 ≤ size
      → ((P.fgets w fp size).0 ≡ some (line ++ (10 ∷ [])))
        × (unread (P.fgets w fp size).1 fp ≡ rest)
  pub text_left : (w : P.World) (fp : ℕ) → length (unread w fp) ≤ P.bytes_left w fp
  pub line_none : (w : P.World) (fp size : ℕ) → unread w fp ≡ [] → (P.fgets w fp size).0 ≡ none

-- The bits of the smallest positive double that is normal, 2^-1022.
abbrev pub min_normal : ℕ
min_normal = 0x0010_0000_0000_0000

-- A number is printed in decimal, and read back as it was; of a double below the normal ones, strtod
-- may report ERANGE, so nothing is said.
pub record NumberLaws (P : Platform) : Type 0 where
  pub decimal_IsLine : (n : ℕ) → IsLine (P.format_unsigned n)
  pub decimal_length : (n : ℕ) → n < 2 ^ 64 → length (P.format_unsigned n) ≤ 20
  pub decimal_nonempty : (n : ℕ) → length (P.format_unsigned n) ≢ 0
  pub strtoul_decimal :
      (n : ℕ)
      → n < 2 ^ 64
      → P.strtoul (P.format_unsigned n) 10
        ≡ record { value = n; stop = length (P.format_unsigned n); errno = 0 }
  pub strtoull_decimal :
      (n : ℕ)
      → n < 2 ^ 64
      → P.strtoull (P.format_unsigned n) 10
        ≡ record { value = n; stop = length (P.format_unsigned n); errno = 0 }
  pub double_IsLine : (x : ℕ) → IsLine (P.format_double x)
  pub double_length : (x : ℕ) → length (P.format_double x) ≤ 24
  pub double_nonempty : (x : ℕ) → length (P.format_double x) ≢ 0
  pub strtod_double :
      (x : ℕ)
      → P.is_finite x ≡ true
      → P.double_le min_normal x ≡ true
      → P.strtod (P.format_double x)
        ≡ record { value = x; stop = length (P.format_double x); errno = 0 }

-- The maps of the kernel: `inserted w fd` are the digests put into the map behind `fd`, none when it
-- is new. The other calls of a rebuild change no map, and none of its calls changes the log, of
-- which `content w path` is the text and `unread w fd` what is left to read.
pub record MapLaws (P : Platform) (inserted : P.World → ℕ → List Bytes)
    (unread : P.World → ℕ → Bytes) (content : P.World → Bytes → Bytes) : Type 0 where
  pub create_empty :
      (w : P.World) (attr : MapAttr) (fd : ℕ)
      → (P.map_create w attr).0 ≡ ok fd
      → inserted (P.map_create w attr).1 fd ≡ []
  pub create_content :
      (w : P.World) (attr : MapAttr) (path : Bytes)
      → content (P.map_create w attr).1 path ≡ content w path
  pub update_inserted :
      (w : P.World) (fd : ℕ) (d : Bytes)
      → (P.map_update w fd d).0 ≡ 0
      → inserted (P.map_update w fd d).1 fd ≡ inserted w fd ++ (d ∷ [])
  pub update_unread :
      (w : P.World) (map fd : ℕ) (d : Bytes) → unread (P.map_update w map d).1 fd ≡ unread w fd
  pub open_content :
      (w : P.World) (path : Bytes) (fd : ℕ)
      → (P.open_file w path read_only).0 ≡ ok fd
      → unread (P.open_file w path read_only).1 fd ≡ content w path
  pub open_inserted :
      (w : P.World) (path : Bytes) (fd : ℕ)
      → inserted (P.open_file w path read_only).1 fd ≡ inserted w fd
  pub read_inserted : (w : P.World) (fd n map : ℕ) → inserted (P.read w fd n).1 map ≡ inserted w map
  pub close_inserted : (w : P.World) (fd map : ℕ) → inserted (P.close w fd) map ≡ inserted w map
  pub truncate_inserted :
      (w : P.World) (path : Bytes) (n map : ℕ)
      → inserted (P.truncate w path n).1 map ≡ inserted w map
  pub pin_inserted :
      (w : P.World) (fd : ℕ) (path : Bytes) (map : ℕ)
      → inserted (P.obj_pin w fd path).1 map ≡ inserted w map

-- accept(2) on a queue that other processes fill: a connection that is taken, or an interruption,
-- uses up what is left of it, and the calls made for a connection add nothing to it.
pub record AcceptLaws (P : Platform) : Type 0 where
  pub accept_ok :
      (w : P.World) (listen_fd fd : ℕ)
      → (P.accept w listen_fd).0 ≡ ok fd
      → P.connections_left (P.accept w listen_fd).1 + P.interrupts (P.accept w listen_fd).1
        < P.connections_left w + P.interrupts w
  pub accept_eintr :
      (w : P.World) (listen_fd : ℕ)
      → (P.accept w listen_fd).0 ≡ err eintr
      → P.connections_left (P.accept w listen_fd).1 + P.interrupts (P.accept w listen_fd).1
        < P.connections_left w + P.interrupts w
  pub get_flags_left :
      (w : P.World) (fd : ℕ)
      → P.connections_left (P.get_flags w fd).1 + P.interrupts (P.get_flags w fd).1
        ≤ P.connections_left w + P.interrupts w
  pub set_flags_left :
      (w : P.World) (fd flags : ℕ)
      → P.connections_left (P.set_flags w fd flags).1 + P.interrupts (P.set_flags w fd flags).1
        ≤ P.connections_left w + P.interrupts w
  pub close_left :
      (w : P.World) (fd : ℕ)
      → P.connections_left (P.close w fd) + P.interrupts (P.close w fd)
        ≤ P.connections_left w + P.interrupts w
  pub clock_left :
      (w : P.World)
      → P.connections_left (P.clock_gettime w).1 + P.interrupts (P.clock_gettime w).1
        ≤ P.connections_left w + P.interrupts w
