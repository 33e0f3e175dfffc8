-- ===== src/Wire.antt =====
-- The little-endian integers of the wire format: the loads and stores of src/protocol.c. A byte
-- string stands for the memory from `src` on; a read past its end gives 0, and the callers test
-- lengths first.
pub mod RoundTrip
use kbloomd.Common.{ℕ, zero, suc, ◌+◌, ◌*◌, ◌/◌, ◌%◌, ◌^◌, bit_and, bit_or, List, [], ◌∷◌}
use kbloomd.Common.{Bytes, get_or}

abbrev pub u8 : ℕ → ℕ
u8 n = n % 2 ^ 8

abbrev pub u16 : ℕ → ℕ
u16 n = n % 2 ^ 16

abbrev pub u32 : ℕ → ℕ
u32 n = n % 2 ^ 32

abbrev pub u64 : ℕ → ℕ
u64 n = n % 2 ^ 64

infixl 75 ◌<<<◌ ◌>>>◌
abbrev pub ◌<<<◌ : ℕ → ℕ → ℕ
x <<< k = x * 2 ^ k

abbrev pub ◌>>>◌ : ℕ → ℕ → ℕ
x >>> k = x / 2 ^ k

abbrev pub byte_at : Bytes → ℕ → ℕ
byte_at src i = get_or src i 0

unfoldable pub store_u16 : ℕ → Bytes
store_u16 value = u8 (bit_and value 0xff) ∷ u8 (bit_and (value >>> 8) 0xff) ∷ []

unfoldable pub store_u32 : ℕ → Bytes
store_u32 value =
    u8 (bit_and value 0xff)
    ∷ u8 (bit_and (value >>> 8) 0xff)
    ∷ u8 (bit_and (value >>> 16) 0xff)
    ∷ u8 (bit_and (value >>> 24) 0xff)
    ∷ []

-- The loop from index `i` on, with `left` rounds to go.
unfoldable pub store_loop : ℕ → ℕ → ℕ → Bytes
store_loop zero i value = []
store_loop (suc left) i value =
    u8 (bit_and (value >>> (8 * i)) 0xff) ∷ store_loop left (i + 1) value

unfoldable pub store_u64 : ℕ → Bytes
unfolding store_loop
store_u64 value = store_loop 8 0 value

unfoldable pub load_u16 : Bytes → ℕ
load_u16 p = bit_or (byte_at p 0) (byte_at p 1 <<< 8)

unfoldable pub load_u32 : Bytes → ℕ
load_u32 p =
    bit_or (bit_or (bit_or (byte_at p 0) (byte_at p 1 <<< 8)) (byte_at p 2 <<< 16))
      (byte_at p 3 <<< 24)

unfoldable pub load_loop : ℕ → ℕ → Bytes → ℕ → ℕ
load_loop zero i p out = out
load_loop (suc left) i p out = load_loop left (i + 1) p (bit_or out (byte_at p i <<< (8 * i)))

unfoldable pub load_u64 : Bytes → ℕ
unfolding load_loop
load_u64 p = load_loop 8 0 p 0
