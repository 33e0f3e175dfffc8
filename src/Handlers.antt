-- ===== src/Handlers.antt =====
-- The request handlers of src/daemon.c, one module each, and the request headers that they share.
pub mod Create
pub mod Add
pub mod Batch
pub mod Info
pub mod Drop
use kbloomd.Common.{ℕ, ◌+◌, List, [], ◌∷◌, Bytes, drop}
use kbloomd.Wire.{load_u16, load_u32, load_u64}

-- struct bloomd_create_request, 24 bytes
pub record CreateRequest : Type 0 where
  pub capacity : ℕ
  pub error_rate : ℕ
  pub hashes : ℕ
  pub name_len : ℕ
  pub reserved : ℕ

unfoldable pub create_request : Bytes → CreateRequest
create_request body = record {
  capacity = load_u64 body;
  error_rate = load_u64 (drop 8 body);
  hashes = load_u32 (drop 16 body);
  name_len = load_u16 (drop 20 body);
  reserved = load_u16 (drop 22 body);
}

-- struct bloomd_name_request, 8 bytes
pub record NameRequest : Type 0 where
  pub name_len : ℕ
  pub reserved0 : ℕ
  pub reserved1 : ℕ

unfoldable pub name_request : Bytes → NameRequest
name_request body = record {
  name_len = load_u16 body;
  reserved0 = load_u16 (drop 2 body);
  reserved1 = load_u32 (drop 4 body);
}

-- struct bloomd_payload_request, 8 bytes
pub record PayloadRequest : Type 0 where
  pub name_len : ℕ
  pub reserved0 : ℕ
  pub payload_len : ℕ

unfoldable pub payload_request : Bytes → PayloadRequest
payload_request body = record {
  name_len = load_u16 body;
  reserved0 = load_u16 (drop 2 body);
  payload_len = load_u32 (drop 4 body);
}

-- struct bloomd_batch_request, 8 bytes
pub record BatchRequest : Type 0 where
  pub name_len : ℕ
  pub item_count : ℕ
  pub reserved : ℕ

unfoldable pub batch_request : Bytes → BatchRequest
batch_request body = record {
  name_len = load_u16 body;
  item_count = load_u16 (drop 2 body);
  reserved = load_u32 (drop 4 body);
}
