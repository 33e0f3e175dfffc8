-- ===== src/Bpf.antt =====
-- src/bpf.c: the calls that make, pin, fill and ask the kernel's Bloom filter maps. A failure
-- carries the errno value that is returned and the message that `errbuf` holds, of 255 bytes at
-- most: every caller's buffer has 256.
use kbloomd.Common.{
  ◌≡◌, ◌⊎◌, inl, inr, refl, ℕ, zero, suc, ◌^◌, Bool, true, false, ◌&&◌, ◌||◌, Option, none, some,
  [], ◌∷◌, ◌++◌, Bytes, text, Result, ok, err, length, take, replicate, ◌==◌, ltb, leb,
  if◌then◌else◌, bit_and, erange, einval, enoent, eopnotsupp, eperm, eacces, enosys, ◌-◌,
}
use kbloomd.Platform.{Platform, MapAttr, MapInfo}

pub data Outcome {ℓ} (A : Type ℓ) : Type ℓ where
  done : A → Outcome A
  fail : ℕ → Bytes → Outcome A

-- To split on a computed outcome and keep the equation.
pub Outcome-cases {ℓ} :
    {A : Type ℓ} (r : Outcome A)
    → ((a : A) × (r ≡ done a)) ⊎ ((e : ℕ) × (message : Bytes) × (r ≡ fail e message))
Outcome-cases (done a) = inl (a, refl)
Outcome-cases (fail e message) = inr (e, message, refl)

-- `snprintf` into a buffer of 256 bytes.
unfoldable pub into_errbuf : Bytes → Bytes
into_errbuf message = take 255 message

-- BLOOMD_DIGEST_SIZE
abbrev pub digest_size : ℕ
digest_size = 16

-- BPF_MAP_TYPE_BLOOM_FILTER of the kernel
abbrev pub map_type_bloom_filter : ℕ
map_type_bloom_filter = 30

-- BPF_OBJ_NAME_LEN of the kernel
abbrev pub obj_name_len : ℕ
obj_name_len = 16

unfoldable pub map_name_char : ℕ → ℕ
map_name_char ch =
    if leb b'a' ch && leb ch b'z'
      || leb b'A' ch && leb ch b'Z'
      || leb b'0' ch && leb ch b'9'
      || ch == b'_'
    then ch
    else b'_'

-- The loop of `bloomd_map_name`, with `room` bytes left before the final NUL.
unfoldable pub map_name_loop : ℕ → Bytes → Bytes
map_name_loop zero name = []
map_name_loop (suc room) [] = []
map_name_loop (suc room) (ch ∷ name) = map_name_char ch ∷ map_name_loop room name

-- bloomd_map_name: 16 bytes, padded by NULs.
unfoldable pub map_name : Bytes → Bytes
unfolding map_name_loop map_name_char
map_name name =
    let out = b'b' ∷ b'd' ∷ b'_' ∷ map_name_loop (obj_name_len - 1 - 3) name in
    out ++ replicate (obj_name_len - length out) 0

module _ (P : Platform) where
  open P use {
    World, strerror, map_create, obj_get, obj_pin, map_update, map_lookup, obj_info, unlink, close,
  }

  -- bloomd_errno_msg
  unfoldable pub errno_msg : Bytes → ℕ → Bytes
  unfolding into_errbuf
  errno_msg prefix errno = into_errbuf (prefix ++ (text ": " ++ strerror errno))

  unfoldable pub bpf_close : Option ℕ → World → World
  bpf_close none w = w
  bpf_close (some fd) w = close w fd

  unfoldable pub bpf_probe_support : World → Outcome (Unit {0}) × World
  unfolding into_errbuf errno_msg map_name
  bpf_probe_support w =
      let attr : MapAttr = record {
        map_type = map_type_bloom_filter;
        key_size = 0;
        value_size = digest_size;
        max_entries = 64;
        map_extra = 5;
        map_name = map_name (text "probe");
      } in
      let (r, w') = map_create w attr in
      elim r [
        | ok fd ↦ (done tt, close w' fd)
        | err errno ↦
            if errno == einval || errno == eopnotsupp || errno == enosys
            then (
              fail eopnotsupp (
                  into_errbuf (text "kernel/userspace does not support BPF_MAP_TYPE_BLOOM_FILTER")),
              w',
            )
            else if errno == eperm || errno == eacces
            then (
              fail eperm (
                  into_errbuf (
                    text
                      "BPF Bloom map probe failed due to insufficient privilege (need CAP_BPF/CAP_SYS_ADMIN or equivalent)")),
              w',
            )
            else (fail errno (errno_msg (text "BPF Bloom map probe failed") errno), w')
      ]

  unfoldable pub bpf_open_pinned : Bytes → World → Result ℕ × World
  bpf_open_pinned path w = obj_get w path

  unfoldable pub bpf_create_map : Bytes → ℕ → ℕ → World → Outcome ℕ × World
  unfolding into_errbuf errno_msg map_name
  bpf_create_map name capacity hashes w =
      if capacity == 0 || ltb (2 ^ 32 - 1) capacity
      then (fail erange (into_errbuf (text "capacity must fit in a 32-bit max_entries field")), w)
      else if ltb 15 hashes
      then (fail erange (into_errbuf (text "hash count must be between 0 and 15")), w)
      else (let attr : MapAttr = record {
        map_type = map_type_bloom_filter;
        key_size = 0;
        value_size = digest_size;
        max_entries = capacity;
        map_extra = bit_and hashes 0x0f;
        map_name = map_name name;
      } in
          let (r, w') = map_create w attr in
          elim r [
            | ok fd ↦ (done fd, w')
            | err errno ↦ (fail errno (errno_msg (text "BPF_MAP_CREATE failed") errno), w')
          ])

  unfoldable pub bpf_pin_map : ℕ → Bytes → World → Outcome (Unit {0}) × World
  unfolding errno_msg
  bpf_pin_map fd path w =
      let (rc, w') = obj_pin w fd path in
      if rc == 0 then (done tt, w') else (fail rc (errno_msg (text "BPF_OBJ_PIN failed") rc), w')

  unfoldable pub bpf_add_digest : ℕ → Bytes → World → Outcome (Unit {0}) × World
  unfolding errno_msg
  bpf_add_digest fd digest w =
      let (rc, w') = map_update w fd digest in
      if rc == 0
      then (done tt, w')
      else (fail rc (errno_msg (text "BPF_MAP_UPDATE_ELEM failed") rc), w')

  unfoldable pub bpf_check_digest : ℕ → Bytes → World → Outcome Bool × World
  unfolding errno_msg
  bpf_check_digest fd digest w =
      let (rc, w') = map_lookup w fd digest in
      if rc == 0
      then (done true, w')
      else if rc == enoent
      then (done false, w')
      else (fail rc (errno_msg (text "BPF_MAP_LOOKUP_ELEM failed") rc), w')

  unfoldable pub bpf_get_map_info : Option ℕ → World → Outcome MapInfo × World
  unfolding errno_msg
  bpf_get_map_info none w = (fail einval [], w)
  bpf_get_map_info (some fd) w =
      let (r, w') = obj_info w fd in
      elim r [
        | ok info ↦ (done info, w')
        | err errno ↦ (fail errno (errno_msg (text "BPF_OBJ_GET_INFO_BY_FD failed") errno), w')
      ]

  unfoldable pub bpf_unpin : Bytes → World → Outcome (Unit {0}) × World
  unfolding errno_msg
  bpf_unpin path w =
      let (rc, w') = unlink w path in
      if rc == 0
      then (done tt, w')
      else if rc == enoent
      then (done tt, w')
      else (fail rc (errno_msg (text "unlink failed") rc), w')
