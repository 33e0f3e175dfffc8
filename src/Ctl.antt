-- ===== src/Ctl.antt =====
-- src/bloomctl.c: the command-line client. What it prints on standard output is a value here, not
-- the text that `printf` makes of it; messages on standard error are left out.
pub mod Replies
pub mod Requests
pub mod Session
pub mod Listed
use kbloomd.Common.{
  ℕ, zero, suc, ◌+◌, ◌-◌, ◌^◌, Bool, true, false, not, ◌&&◌, ◌||◌, Option, none, some, List, [],
  ◌∷◌, ◌++◌, Bytes, text, Result, ok, err, length, drop, same, ◌==◌, ltb, if◌then◌else◌, einval,
}
use kbloomd.Platform.{Platform}
use kbloomd.Wire.{u16, u32, u64, store_u16, store_u32, store_u64}
use kbloomd.Name.{name_is_valid}
use kbloomd.Buffer.{Buffer, buffer_append, buffer_append_u32, buffer_init}
use kbloomd.Handlers.{CreateRequest, NameRequest, PayloadRequest, BatchRequest}
use kbloomd.Handlers.Batch.{max_batch_items}

-- The packed request headers in memory, on a little-endian machine.
unfoldable pub create_request_bytes : CreateRequest → Bytes
create_request_bytes r =
    store_u64 r.capacity
    ++ (store_u64 r.error_rate
        ++ (store_u32 r.hashes ++ (store_u16 r.name_len ++ store_u16 r.reserved)))

unfoldable pub name_request_bytes : NameRequest → Bytes
name_request_bytes r = store_u16 r.name_len ++ (store_u16 r.reserved0 ++ store_u32 r.reserved1)

unfoldable pub payload_request_bytes : PayloadRequest → Bytes
payload_request_bytes r = store_u16 r.name_len ++ (store_u16 r.reserved0 ++ store_u32 r.payload_len)

unfoldable pub batch_request_bytes : BatchRequest → Bytes
batch_request_bytes r = store_u16 r.name_len ++ (store_u16 r.item_count ++ store_u32 r.reserved)

module _ (P : Platform) where
  open P use {World, strtoul, strtoull, strtod}

  -- Go on with the buffer where the step before returned 0.
  unfoldable pub and_then :
      ℕ × Buffer × World → (Buffer → World → ℕ × Buffer × World) → ℕ × Buffer × World
  and_then (rc, buf, w) next = if not (rc == 0) then (rc, buf, w) else next buf w

  -- bloomctl_append_name
  unfoldable pub append_name : Bytes → Buffer → World → ℕ × Buffer × World
  append_name name body w =
      if not (name_is_valid name)
      then (einval, body, w)
      else if ltb (2 ^ 16 - 1) (length name)
      then (einval, body, w)
      else buffer_append P body name w

  -- bloomctl_build_name_request
  unfoldable pub build_name_request : Bytes → Buffer → World → ℕ × Buffer × World
  build_name_request name body w =
      let hdr : NameRequest = record {
        name_len = u16 (length name);
        reserved0 = 0;
        reserved1 = 0;
      } in
      and_then (buffer_append P body (name_request_bytes hdr) w) (append_name name)

  -- bloomctl_build_payload_request
  unfoldable pub build_payload_request : Bytes → Bytes → Buffer → World → ℕ × Buffer × World
  build_payload_request name payload body w =
      let hdr : PayloadRequest = record {
        name_len = u16 (length name);
        reserved0 = 0;
        payload_len = u32 (length payload);
      } in
      if ltb (2 ^ 32 - 1) (length payload)
      then (einval, body, w)
      else and_then
          (and_then (buffer_append P body (payload_request_bytes hdr) w) (append_name name))
          (λ buf w1. buffer_append P buf payload w1)

  -- The numbers of `create`, which are not checked here.
  unfoldable pub create_numbers : Bytes → Bytes → Bytes → List Bytes → CreateRequest
  create_numbers name capacity rate more = record {
    capacity = u64 (strtoull capacity 10).value;
    error_rate = (strtod rate).value;
    hashes = elim more [ [] ↦ 0 | hashes ∷ rest ↦ u32 (strtoul hashes 10).value ];
    name_len = u16 (length name);
    reserved = 0;
  }

  -- bloomctl_command_create, on the arguments behind `create`.
  unfoldable pub command_create : List Bytes → Buffer → World → ℕ × Buffer × World
  command_create (name ∷ capacity ∷ rate ∷ more) body w =
      and_then
        (buffer_append P body (create_request_bytes (create_numbers name capacity rate more)) w)
        (append_name name)
  command_create args body w = (einval, body, w)

  -- The loop over the items of a batch.
  unfoldable pub append_items : List Bytes → Buffer → World → ℕ × Buffer × World
  append_items [] body w = (0, body, w)
  append_items (item ∷ rest) body w =
      let len = u32 (length item) in
      and_then (and_then (buffer_append_u32 P body len w) (λ buf w1. buffer_append P buf item w1))
        (λ buf w1. append_items rest buf w1)

  -- bloomctl_command_batch
  unfoldable pub command_batch : Bytes → List Bytes → Buffer → World → ℕ × Buffer × World
  command_batch name items body w =
      let hdr : BatchRequest = record {
        name_len = u16 (length name);
        item_count = u16 (length items);
        reserved = 0;
      } in
      if length items == 0 || ltb max_batch_items (length items)
      then (einval, body, w)
      else and_then (and_then (buffer_append P body (batch_request_bytes hdr) w) (append_name name))
          (λ buf w1. append_items items buf w1)
