-- ===== src/Buffer.antt =====
-- The growing byte buffers of src/protocol.c. `bytes` are the first `len` bytes behind the pointer
-- `data`, so `buf->len` is their length; what lies between `len` and `cap` is never read.
pub mod Laws
use kbloomd.Common.{
  ℕ, ◌+◌, ◌*◌, Bool, List, [], ◌++◌, Bytes, length, ◌==◌, ltb, leb, if◌then◌else◌, enomem, e2big,
}
use kbloomd.Platform.{Platform}
use kbloomd.Wire.{store_u16, store_u32, store_u64}

pub record Buffer : Type 0 where
  pub bytes : Bytes
  pub cap : ℕ

-- BLOOMD_MAX_FRAME_BODY
abbrev pub max_frame_body : ℕ
max_frame_body = 1024 * 1024

unfoldable pub buffer_init : Buffer
buffer_init = record { bytes = []; cap = 0 }

module _ (P : Platform) where
  open P use {World, realloc}

  unfoldable pub buffer_reserve : Buffer → ℕ → World → ℕ × Buffer × World
  buffer_reserve buf cap w =
      if leb cap buf.cap
      then (0, buf, w)
      else (let (got, w') = realloc w cap in
          if got then (0, record buf { cap = cap }, w') else (enomem, buf, w'))

  unfoldable pub buffer_append : Buffer → Bytes → World → ℕ × Buffer × World
  unfolding buffer_reserve
  buffer_append buf src w =
      if length src == 0
      then (0, buf, w)
      else if ltb max_frame_body (length buf.bytes + length src)
      then (e2big, buf, w)
      else (let (rc, buf', w') = buffer_reserve buf (length buf.bytes + length src) w in
          if rc == 0 then (0, record buf' { bytes = buf'.bytes ++ src }, w') else (rc, buf', w'))

  unfoldable pub buffer_append_u16 : Buffer → ℕ → World → ℕ × Buffer × World
  unfolding buffer_append store_u16
  buffer_append_u16 buf value w = buffer_append buf (store_u16 value) w

  unfoldable pub buffer_append_u32 : Buffer → ℕ → World → ℕ × Buffer × World
  unfolding buffer_append store_u32
  buffer_append_u32 buf value w = buffer_append buf (store_u32 value) w

  unfoldable pub buffer_append_u64 : Buffer → ℕ → World → ℕ × Buffer × World
  unfolding buffer_append store_u64
  buffer_append_u64 buf value w = buffer_append buf (store_u64 value) w

  -- The eight bytes of a `double` are those of its bit pattern.
  unfoldable pub buffer_append_double : Buffer → ℕ → World → ℕ × Buffer × World
  unfolding buffer_append store_u64
  buffer_append_double buf value w = buffer_append buf (store_u64 value) w

  unfoldable pub buffer_append_str : Buffer → Bytes → World → ℕ × Buffer × World
  unfolding buffer_append
  buffer_append_str buf str w = buffer_append buf str w
