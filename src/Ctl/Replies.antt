-- ===== src/Ctl/Replies.antt =====
-- What src/bloomctl.c makes of a reply. A line of output is a value; `printf` turns it into text.
use kbloomd.Common.{
  ℕ, zero, suc, ◌+◌, Bool, not, List, [], ◌∷◌, ◌++◌, Bytes, take, drop, ◌==◌, ltb, if◌then◌else◌,
  bit_and,
}
use kbloomd.Wire.{byte_at, load_u16, load_u32, load_u64}
use kbloomd.Frame.{Request}

-- The output of `info`, with the flags that are printed one by one.
pub record InfoShown : Type 0 where
  pub name : Bytes
  pub backend : Bytes
  pub digest : Bytes
  pub capacity : ℕ
  pub error_rate : ℕ
  pub hashes : ℕ
  pub value_size : ℕ
  pub pin_path : Bytes
  pub add_calls : ℕ
  pub check_calls : ℕ
  pub batch_add_calls : ℕ
  pub batch_check_calls : ℕ
  pub state_flags : ℕ
  pub durable : Bool
  pub metadata_only : Bool
  pub log_clean : Bool
  pub log_dirty : Bool

-- What one `printf` puts out.
pub data Shown : Type 0 where
  line : Bytes → Shown
  numbers : List ℕ → Shown
  info : InfoShown → Shown

-- The exit code of the client and what it printed.
abbrev pub Reply : Type 0
Reply = ℕ × List Shown

-- bloomctl_expect_body_len
unfoldable pub expect_body_len : Request → ℕ → ℕ
expect_body_len resp expected = if not (resp.header.body_len == expected) then 1 else 0

unfoldable pub show_flag : Request → Reply
show_flag resp =
    if not (expect_body_len resp 1 == 0)
    then (1, [])
    else (0, numbers ((if ltb 0 resp.header.body_len then byte_at resp.body 0 else 0) ∷ []) ∷ [])

unfoldable pub show_flags : Request → Reply
show_flags resp =
    let count = load_u16 resp.body in
    if ltb resp.header.body_len 2
    then (1, [])
    else if not (resp.header.body_len == 2 + count)
    then (1, [])
    else (0, numbers (take count (drop 2 resp.body)) ∷ [])

unfoldable pub show_info : Request → Reply
show_info resp =
    let p = resp.body in
    let name_len = load_u16 p in
    let backend_len = load_u16 (drop 2 p) in
    let digest_len = load_u16 (drop 4 p) in
    let pin_len = load_u32 (drop 64 p) in
    let state_flags = load_u32 (drop 68 p) in
    let name = drop 72 p in
    let backend = drop name_len name in
    let digest = drop backend_len backend in
    let pin = drop digest_len digest in
    if ltb resp.header.body_len 72
    then (1, [])
    else if not (72 + name_len + backend_len + digest_len + pin_len == resp.header.body_len)
    then (1, [])
    else (
      0,
      info (record {
        name = take name_len name;
        backend = take backend_len backend;
        digest = take digest_len digest;
        capacity = load_u64 (drop 8 p);
        error_rate = load_u64 (drop 16 p);
        hashes = load_u32 (drop 24 p);
        value_size = load_u32 (drop 28 p);
        pin_path = take pin_len pin;
        add_calls = load_u64 (drop 32 p);
        check_calls = load_u64 (drop 40 p);
        batch_add_calls = load_u64 (drop 48 p);
        batch_check_calls = load_u64 (drop 56 p);
        state_flags = state_flags;
        durable = not (bit_and state_flags 1 == 0);
        metadata_only = not (bit_and state_flags 2 == 0);
        log_clean = not (bit_and state_flags 4 == 0);
        log_dirty = not (bit_and state_flags 8 == 0);
      })
          ∷ [],
    )

-- The loop of `list`, from an offset on, with the lines printed so far.
unfoldable pub show_names : ℕ → ℕ → Request → List Shown → Reply
show_names zero off resp printed =
    if not (off == resp.header.body_len) then (1, printed) else (0, printed)
show_names (suc count) off resp printed =
    let len = load_u16 (drop off resp.body) in
    let off1 = off + 2 in
    let next =
      show_names count (off1 + len) resp
        (printed ++ (line (take len (drop off1 resp.body)) ∷ [])) in
    if ltb resp.header.body_len (off + 2)
    then (1, printed)
    else if ltb resp.header.body_len (off1 + len)
    then (1, printed)
    else next

unfoldable pub show_list : Request → Reply
show_list resp =
    if ltb resp.header.body_len 4 then (1, []) else show_names (load_u32 resp.body) 4 resp []

unfoldable pub show_stats : Request → Reply
show_stats resp =
    let p = resp.body in
    if not (expect_body_len resp 100 == 0) then (1, []) else (
      0,
      numbers (
            load_u64 p
            ∷ load_u64 (drop 8 p)
            ∷ load_u64 (drop 16 p)
            ∷ load_u64 (drop 24 p)
            ∷ load_u64 (drop 32 p)
            ∷ load_u64 (drop 40 p)
            ∷ load_u64 (drop 48 p)
            ∷ load_u64 (drop 56 p)
            ∷ load_u64 (drop 64 p)
            ∷ load_u32 (drop 72 p)
            ∷ load_u32 (drop 76 p)
            ∷ load_u32 (drop 80 p)
            ∷ load_u64 (drop 84 p)
            ∷ load_u64 (drop 92 p)
            ∷ [])
          ∷ [],
    )
