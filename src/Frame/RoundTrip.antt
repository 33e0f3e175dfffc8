-- ===== src/Frame/RoundTrip.antt =====
-- Length-prefixed fields of src/protocol.c, written and read back.
use kbloomd.Common.{
  ℕ, suc, ◌+◌, ◌≤◌, ◌≡◌, refl, arith, ◌++◌, Bytes, ok, length, drop, length-append,
  take-length-append, ltb-false, length-take, length-drop,
}
use kbloomd.Wire.{store_u32, load_u32}
use kbloomd.Wire.RoundTrip.{load_u32-store_u32}
use kbloomd.Buffer.{max_frame_body}
use kbloomd.Frame.{protocol_read_payload, Field}

pub length-store_u32 : (value : ℕ) → length (store_u32 value) ≡ 4
unfolding store_u32
length-store_u32 value = refl

-- A payload of at most one frame behind its little-endian length is read back with the bytes
-- consumed, whatever bytes follow it.
pub read_payload-store :
    (payload rest : Bytes)
    → length payload ≤ max_frame_body
    → protocol_read_payload (store_u32 (length payload) ++ (payload ++ rest))
      ≡ ok (record { value = payload; consumed = 4 + length payload })
unfolding protocol_read_payload store_u32
read_payload-store payload rest h =
    rw
      (
        load_u32-store_u32 (length payload) (payload ++ rest) (omega arith),
        ltb-false (suc (suc (suc (suc (length (payload ++ rest)))))) 4 (omega arith),
        ltb-false max_frame_body (length payload) h,
        ltb-false (suc (suc (suc (suc (length (payload ++ rest)))))) (4 + length payload)
            (omega (arith, length-append payload rest)),
        take-length-append payload rest,
      )
      refl

-- A payload that is read is at most one frame long, and the bytes that its reading consumes are
-- its length and four, and are in the buffer.
pub read_payload_bounds :
    (buf : Bytes) (f : Field)
    → protocol_read_payload buf ≡ ok f
    → (length f.value ≤ max_frame_body)
      × (f.consumed ≡ 4 + length f.value)
      × (f.consumed ≤ length buf)
unfolding protocol_read_payload
read_payload_bounds buf f h =
    ground (arith, length-take (load_u32 buf) (drop 4 buf), length-drop 4 buf)
