-- ===== src/Buffer/Laws.antt =====
-- What an append to a buffer of src/protocol.c does on every branch.
use kbloomd.Common.{
  ℕ, ◌+◌, ◌≤◌, ◌<◌, ◌≡◌, ◌⊎◌, inl, refl, arith, [], ◌∷◌, ◌++◌, Bytes, length, append-nil,
  length-append, sym, e2big, enomem,
}
use kbloomd.Platform.{Platform}
use kbloomd.Buffer.{Buffer, buffer_append, max_frame_body}

-- The body of a frame is at most one MiB, and there is memory for it.
pub record IsBounded (buf : Buffer) : Type 0 where
  pub within_frame : length buf.bytes ≤ max_frame_body
  pub within_cap : length buf.bytes ≤ buf.cap

-- An append adds the whole source, or finds that the sum passes the limit, or has no memory. A failed
-- one changes no byte.
abbrev pub Appended : Buffer → Bytes → ℕ → Buffer → Type 0
Appended buf src rc after =
    ((rc ≡ 0) × (after.bytes ≡ buf.bytes ++ src))
    ⊎ ((rc ≡ e2big) × (max_frame_body < length buf.bytes + length src) × (after.bytes ≡ buf.bytes))
    ⊎ ((rc ≡ enomem) × (after.bytes ≡ buf.bytes))

module _ (P : Platform) where
  open P use {World}

  -- From a buffer within the frame limit and its capacity, an append adds the whole source and
  -- returns 0, or leaves the bytes alone and returns E2BIG with a sum above the limit, or leaves
  -- them alone and returns ENOMEM; the buffer stays within both bounds.
  pub buffer_append-Appended :
      (buf : Buffer) (src : Bytes) (w : World)
      → IsBounded buf
      → Appended buf src (buffer_append P buf src w).0 (buffer_append P buf src w).1
        × IsBounded (buffer_append P buf src w).1
  unfolding buffer_append
  buffer_append-Appended buf [] w b = (inl (refl, sym (append-nil _)), b)
  buffer_append-Appended buf (x ∷ src) w b = (
    ground arith,
    record {
      within_frame = ground (arith, length-append buf.bytes (x ∷ src), b.within_frame);
      within_cap = ground (arith, length-append buf.bytes (x ∷ src), b.within_cap);
    },
  )
