-- ===== src/Wire/RoundTrip.antt =====
-- The loads and stores of src/protocol.c against the little-endian value of a byte string.
use kbloomd.Common.{
  ℕ, zero, suc, ◌+◌, ◌*◌, ◌/◌, ◌%◌, ◌^◌, ◌<◌, ◌≡◌, refl, arith, [], ◌∷◌, ◌++◌, Bytes, bit_and,
  bit_or, ◌∙◌,
}
use kbloomd.Common.Bits.{bit_or_fields, bit_and_mask}
use kbloomd.Wire.{byte_at, store_u16, store_u32, store_u64, load_u16, load_u32, load_u64}

-- Every element is a byte.
abbrev pub IsBytes : Bytes → Type 0
IsBytes [] = Unit
IsBytes (b ∷ bs) = (b < 256) × IsBytes bs

-- The number that a byte string spells, lowest byte first.
abbrev pub le_value : Bytes → ℕ
le_value [] = 0
le_value (b ∷ bs) = b + 256 * le_value bs

pub byte_at-lt : (bs : Bytes) (i : ℕ) → IsBytes bs → byte_at bs i < 256
byte_at-lt [] i h = omega arith
byte_at-lt (b ∷ bs) zero h = h.0
byte_at-lt (b ∷ bs) (suc i) h = byte_at-lt bs i h.1

or_8 : (r q : ℕ) → r < 2 ^ 8 → bit_or r (q * 2 ^ 8) ≡ r + q * 2 ^ 8
or_8 r q h = bit_or_fields 8 r q h

or_16 : (r q : ℕ) → r < 2 ^ 16 → bit_or r (q * 2 ^ 16) ≡ r + q * 2 ^ 16
or_16 r q h = bit_or_fields 16 r q h

or_24 : (r q : ℕ) → r < 2 ^ 24 → bit_or r (q * 2 ^ 24) ≡ r + q * 2 ^ 24
or_24 r q h = bit_or_fields 24 r q h

pub load_u16-sum :
    (a b : ℕ) (rest : Bytes) → a < 256 → b < 256 → load_u16 (a ∷ b ∷ rest) ≡ a + b * 256
unfolding load_u16
load_u16-sum a b rest ha hb = or_8 a b ha

pub load_u32-sum :
    (a b c d : ℕ) (rest : Bytes)
    → a < 256
    → b < 256
    → c < 256
    → d < 256
    → load_u32 (a ∷ b ∷ c ∷ d ∷ rest) ≡ a + b * 2 ^ 8 + c * 2 ^ 16 + d * 2 ^ 24
unfolding load_u32
load_u32-sum a b c d rest ha hb hc hd =
    rw
      (
        or_8 a b ha,
        or_16 (a + b * 2 ^ 8) c (omega arith),
        or_24 (a + b * 2 ^ 8 + c * 2 ^ 16) d (omega arith),
      )
      refl

mask_8 : (a : ℕ) → bit_and a 0xff ≡ a % 256
mask_8 a = bit_and_mask 8 a

-- Loading what `store_u16` wrote gives the number back.
pub load_u16-store_u16 :
    (value : ℕ) (rest : Bytes) → value < 2 ^ 16 → load_u16 (store_u16 value ++ rest) ≡ value
unfolding store_u16
load_u16-store_u16 value rest h =
    rw (mask_8 value, mask_8 (value / 2 ^ 8))
      (load_u16-sum (value % 256 % 2 ^ 8) (value / 2 ^ 8 % 256 % 2 ^ 8) rest (omega arith)
          (omega arith)
        ∙ omega arith)

pub load_u32-store_u32 :
    (value : ℕ) (rest : Bytes) → value < 2 ^ 32 → load_u32 (store_u32 value ++ rest) ≡ value
unfolding store_u32
load_u32-store_u32 value rest h =
    rw (mask_8 value, mask_8 (value / 2 ^ 8), mask_8 (value / 2 ^ 16), mask_8 (value / 2 ^ 24))
      (load_u32-sum (value % 256 % 2 ^ 8) (value / 2 ^ 8 % 256 % 2 ^ 8)
          (value / 2 ^ 16 % 256 % 2 ^ 8) (value / 2 ^ 24 % 256 % 2 ^ 8) rest (omega arith)
          (omega arith) (omega arith) (omega arith)
        ∙ omega arith)

or_32 : (r q : ℕ) → r < 2 ^ 32 → bit_or r (q * 2 ^ 32) ≡ r + q * 2 ^ 32
or_32 r q h = bit_or_fields 32 r q h

or_40 : (r q : ℕ) → r < 2 ^ 40 → bit_or r (q * 2 ^ 40) ≡ r + q * 2 ^ 40
or_40 r q h = bit_or_fields 40 r q h

or_48 : (r q : ℕ) → r < 2 ^ 48 → bit_or r (q * 2 ^ 48) ≡ r + q * 2 ^ 48
or_48 r q h = bit_or_fields 48 r q h

or_56 : (r q : ℕ) → r < 2 ^ 56 → bit_or r (q * 2 ^ 56) ≡ r + q * 2 ^ 56
or_56 r q h = bit_or_fields 56 r q h

or_0 : (q : ℕ) → bit_or 0 (q * 2 ^ 0) ≡ q
or_0 q = bit_or_fields 0 0 q (omega arith) ∙ omega arith

-- Eight bytes load as the number that they spell.
pub load_u64-sum :
    (a b c d e f g h : ℕ) (rest : Bytes)
    → IsBytes (a ∷ b ∷ c ∷ d ∷ e ∷ f ∷ g ∷ h ∷ [])
    → load_u64 (a ∷ b ∷ c ∷ d ∷ e ∷ f ∷ g ∷ h ∷ rest)
      ≡ le_value (a ∷ b ∷ c ∷ d ∷ e ∷ f ∷ g ∷ h ∷ [])
unfolding load_u64
load_u64-sum a b c d e f g h rest t =
    rw
      (
        or_0 a,
        or_8 a b (omega arith),
        or_16 (a + b * 2 ^ 8) c (omega arith),
        or_24 (a + b * 2 ^ 8 + c * 2 ^ 16) d (omega arith),
        or_32 (a + b * 2 ^ 8 + c * 2 ^ 16 + d * 2 ^ 24) e (omega arith),
        or_40 (a + b * 2 ^ 8 + c * 2 ^ 16 + d * 2 ^ 24 + e * 2 ^ 32) f (omega arith),
        or_48 (a + b * 2 ^ 8 + c * 2 ^ 16 + d * 2 ^ 24 + e * 2 ^ 32 + f * 2 ^ 40) g (omega arith),
        or_56 (a + b * 2 ^ 8 + c * 2 ^ 16 + d * 2 ^ 24 + e * 2 ^ 32 + f * 2 ^ 40 + g * 2 ^ 48) h
            (omega arith),
      )
      (omega arith)

store_byte : ℕ → ℕ → ℕ
store_byte value k = value / 2 ^ k % 256 % 2 ^ 8

-- A number below 2^64 that bloomd_store_u64 wrote is loaded back, whatever bytes follow it.
pub load_u64-store_u64 :
    (value : ℕ) (rest : Bytes) → value < 2 ^ 64 → load_u64 (store_u64 value ++ rest) ≡ value
unfolding store_u64 store_byte
load_u64-store_u64 value rest h =
    rw
      (
        mask_8 (value / 2 ^ 0),
        mask_8 (value / 2 ^ 8),
        mask_8 (value / 2 ^ 16),
        mask_8 (value / 2 ^ 24),
        mask_8 (value / 2 ^ 32),
        mask_8 (value / 2 ^ 40),
        mask_8 (value / 2 ^ 48),
        mask_8 (value / 2 ^ 56),
      )
      (load_u64-sum (store_byte value 0) (store_byte value 8) (store_byte value 16)
          (store_byte value 24) (store_byte value 32) (store_byte value 40) (store_byte value 48)
          (store_byte value 56) rest (omega arith)
        ∙ omega arith)
