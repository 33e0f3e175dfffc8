-- ===== src/Hash.antt =====
-- src/hash.c: the digest of a payload. Two runs of SipHash-2-4 over the same words, under two
-- keys, make the 16 bytes. Each run is a record of four 64-bit words; the source interleaves the
-- two runs, and so does `siphash128_dual`.
pub mod Tail
pub mod Round
pub mod Reference
use kbloomd.Common.{
  ℕ, zero, suc, ◌+◌, ◌-◌, ◌*◌, ◌/◌, ◌%◌, ◌^◌, bit_and, bit_or, bit_xor, List, [], ◌∷◌, ◌++◌, Bytes,
  length, drop, if◌then◌else◌, leb,
}
use kbloomd.Wire.{u8, u64, ◌<<<◌, ◌>>>◌, byte_at}

unfoldable pub rotl64 : ℕ → ℕ → ℕ
rotl64 x bits = bit_or (u64 (x <<< bits)) (x >>> (64 - bits))

unfoldable pub load64_loop : ℕ → ℕ → Bytes → ℕ → ℕ
load64_loop zero i src out = out
load64_loop (suc left) i src out =
    load64_loop left (i + 1) src (bit_or out (byte_at src i <<< (8 * i)))

unfoldable pub load64_le : Bytes → ℕ
unfolding load64_loop
load64_le src = load64_loop 8 0 src 0

unfoldable pub store64_loop : ℕ → ℕ → ℕ → Bytes
store64_loop zero i value = []
store64_loop (suc left) i value =
    u8 (bit_and (value >>> (8 * i)) 0xff) ∷ store64_loop left (i + 1) value

unfoldable pub store64_le : ℕ → Bytes
unfolding store64_loop
store64_le value = store64_loop 8 0 value

pub record Sip : Type 0 where
  pub v0 : ℕ
  pub v1 : ℕ
  pub v2 : ℕ
  pub v3 : ℕ

-- The assignments in the order of the source, a name for each value that a word takes.
unfoldable pub sipround : Sip → Sip
sipround s =
    let v0a = u64 (s.v0 + s.v1) in
    let v1a = rotl64 s.v1 13 in
    let v1b = bit_xor v1a v0a in
    let v0b = rotl64 v0a 32 in
    let v2a = u64 (s.v2 + s.v3) in
    let v3a = rotl64 s.v3 16 in
    let v3b = bit_xor v3a v2a in
    let v0c = u64 (v0b + v3b) in
    let v3c = rotl64 v3b 21 in
    let v3d = bit_xor v3c v0c in
    let v2b = u64 (v2a + v1b) in
    let v1c = rotl64 v1b 17 in
    let v1d = bit_xor v1c v2b in
    let v2c = rotl64 v2b 32 in record { v0 = v0c; v1 = v1d; v2 = v2c; v3 = v3d }

-- The switch on `len & 7` falls through from its label down to 1: `case k` ors byte `k - 1` in.
unfoldable pub tail64_cases : ℕ → Bytes → ℕ → ℕ
tail64_cases zero src out = out
tail64_cases (suc zero) src out = bit_or out (byte_at src 0)
tail64_cases (suc (suc k)) src out =
    tail64_cases (suc k) src (bit_or out (byte_at src (suc k) <<< (8 * suc k)))

unfoldable pub tail64 : Bytes → ℕ → ℕ
unfolding tail64_cases
tail64 src len = tail64_cases (bit_and len 7) src (u64 (len <<< 56))

-- The words `a0 .. a3` and `b0 .. b3`.
pub record Lanes : Type 0 where
  pub a : Sip
  pub b : Sip

unfoldable pub init_sip : ℕ → ℕ → Sip
init_sip k0 k1 = record {
  v0 = bit_xor 0x736f_6d65_7073_6575 k0;
  v1 = bit_xor 0x646f_7261_6e64_6f6d k1;
  v2 = bit_xor 0x6c79_6765_6e65_7261 k0;
  v3 = bit_xor 0x7465_6462_7974_6573 k1;
}

unfoldable pub xor_v3 : ℕ → Sip → Sip
xor_v3 m s = record s { v3 = bit_xor s.v3 m }

unfoldable pub xor_v0 : ℕ → Sip → Sip
xor_v0 m s = record s { v0 = bit_xor s.v0 m }

unfoldable pub xor_v2 : ℕ → Sip → Sip
xor_v2 m s = record s { v2 = bit_xor s.v2 m }

-- One round of each run, in turn.
unfoldable pub dual_round : Lanes → Lanes
dual_round l = let l1 : Lanes = record l { a = sipround l.a } in record l1 { b = sipround l1.b }

-- The body of the loop, and the same steps on the last word.
unfoldable pub absorb : ℕ → Lanes → Lanes
unfolding xor_v3 xor_v0 dual_round
absorb m l =
    let l1 : Lanes = record { a = xor_v3 m l.a; b = xor_v3 m l.b } in
    let l2 = dual_round (dual_round l1) in record { a = xor_v0 m l2.a; b = xor_v0 m l2.b }

-- `while (data != end)`: the rounds left are the words before `end`. Returns `data` too.
unfoldable pub absorb_words : ℕ → Bytes → Lanes → Bytes × Lanes
absorb_words zero src l = (src, l)
absorb_words (suc left) src l = absorb_words left (drop 8 src) (absorb (load64_le src) l)

unfoldable pub finish_word : Sip → ℕ
finish_word s = bit_xor (bit_xor (bit_xor s.v0 s.v1) s.v2) s.v3

-- `len & ~7`, the offset of `end`.
unfoldable pub end_offset : ℕ → ℕ
end_offset len = bit_and len (2 ^ 64 - 8)

unfoldable pub siphash128_dual : Bytes → ℕ → ℕ → ℕ → ℕ → ℕ × ℕ
unfolding absorb_words absorb finish_word end_offset xor_v2 dual_round init_sip tail64
siphash128_dual src k0 k1 k2 k3 =
    let len = length src in
    let start : Lanes = record { a = init_sip k0 k1; b = init_sip k2 k3 } in
    let (rest, l1) = absorb_words (end_offset len / 8) src start in
    let final = tail64 rest len in
    let l2 = absorb final l1 in
    let l3 : Lanes = record { a = xor_v2 0xff l2.a; b = xor_v2 0xff l2.b } in
    let l4 = dual_round (dual_round (dual_round (dual_round l3))) in
    (finish_word l4.a, finish_word l4.b)

unfoldable pub digest_payload : Bytes → Bytes
unfolding siphash128_dual store64_le
digest_payload src =
    let (lo, hi) =
      siphash128_dual src 0x0706_0504_0302_0100 0x0f0e_0d0c_0b0a_0908 0x1716_1514_1312_1110
        0x1f1e_1d1c_1b1a_1918 in
    store64_le lo ++ store64_le hi
