-- ===== src/Name.antt =====
-- Filter names and the paths made of them: src/util.c, and the two views of a name in src/daemon.c.
-- A C string is the list of its bytes before the final NUL.
use kbloomd.Common.{
  ℕ, Bool, true, false, not, ◌&&◌, ◌||◌, [], ◌∷◌, ◌++◌, Bytes, Result, ok, err, text, length, take,
  ◌==◌, ltb, leb, if◌then◌else◌, einval, enametoolong,
}
use kbloomd.Frame.{max_name_len}

-- The condition of the loops over a name.
unfoldable pub name_char : ℕ → Bool
name_char ch =
    leb b'a' ch && leb ch b'z'
    || leb b'A' ch && leb ch b'Z'
    || leb b'0' ch && leb ch b'9'
    || ch == b'-'
    || ch == b'_'

unfoldable pub name_chars : Bytes → Bool
name_chars [] = true
name_chars (ch ∷ rest) = name_char ch && name_chars rest

-- bloomd_name_is_valid
unfoldable pub name_is_valid : Bytes → Bool
unfolding name_chars name_char
name_is_valid name =
    if length name == 0 || ltb max_name_len (length name) then false else name_chars name

-- bloomd_name_view_is_valid: the first `len` bytes at `src`.
unfoldable pub name_view_is_valid : Bytes → ℕ → ℕ
unfolding name_chars name_char
name_view_is_valid src len =
    if len == 0 || ltb max_name_len len
    then einval
    else if name_chars (take len src)
    then 0
    else einval

-- bloomd_parse_name_copy
unfoldable pub parse_name_copy : Bytes → ℕ → Result Bytes
unfolding name_view_is_valid
parse_name_copy src len =
    if not (name_view_is_valid src len == 0) then err einval else ok (take len src)

-- PATH_MAX
abbrev pub path_max : ℕ
path_max = 4096

-- bloomd_join_path into a buffer of PATH_MAX bytes.
unfoldable pub join_path : Bytes → Bytes → Bytes → Result Bytes
join_path root leaf suffix =
    let whole = root ++ (b'/' ∷ (leaf ++ suffix)) in
    if leb path_max (length whole) then err enametoolong else ok whole

unfoldable pub build_pin_path : Bytes → Bytes → Result Bytes
unfolding join_path
build_pin_path root name = join_path root name []

unfoldable pub build_meta_path : Bytes → Bytes → Result Bytes
unfolding join_path
build_meta_path root name = join_path root name (text ".meta")

unfoldable pub build_log_path : Bytes → Bytes → Result Bytes
unfolding join_path
build_log_path root name = join_path root name (text ".digests")
