-- ===== src/Tests/Hashing.antt =====
-- Applications of the theorems on src/hash.c.
use kbloomd.Common.{◌≡◌, refl, ◌^◌, ◌-◌, ◌+◌, ◌++◌, arith, [], ◌∷◌, Bytes, take, text}
use kbloomd.Hash.{
  Sip, sipround, siphash128_dual, digest_payload, rotl64, tail64, load64_le, store64_le,
}
use kbloomd.Hash.Reference.{
  siphash, siphash128_dual-siphash, key_state, words, run, compress, finish, sip_round, half_round,
  rotate,
}
use kbloomd.Hash.Round.{IsSip, unround, unround-sipround}
use kbloomd.Wire.{store_u64, load_u64}
use kbloomd.Wire.RoundTrip.{load_u64-store_u64}

-- Ten bytes: a word and a tail of two.
abbrev ten_bytes : Bytes
ten_bytes = 1 ∷ 2 ∷ 3 ∷ 250 ∷ 255 ∷ 6 ∷ 7 ∷ 8 ∷ 9 ∷ 10 ∷ []

siphash128_dual-siphash_example :
    siphash128_dual ten_bytes 1 2 3 4 ≡ (siphash 1 2 ten_bytes, siphash 3 4 ten_bytes)
siphash128_dual-siphash_example =
    siphash128_dual-siphash ten_bytes 1 2 3 4 (ground arith) (omega arith)

-- The 15 bytes 0, 1, ..., 14 and the key 0, 1, ..., 15 of the paper on SipHash, and its result.
abbrev fifteen_bytes : Bytes
fifteen_bytes = 0 ∷ 1 ∷ 2 ∷ 3 ∷ 4 ∷ 5 ∷ 6 ∷ 7 ∷ 8 ∷ 9 ∷ 10 ∷ 11 ∷ 12 ∷ 13 ∷ 14 ∷ []

siphash_of_the_paper :
    siphash 0x0706_0504_0302_0100 0x0f0e_0d0c_0b0a_0908 fifteen_bytes ≡ 0xa129_ca61_49be_45e5
unfolding siphash key_state words run compress finish sip_round half_round rotate text
siphash_of_the_paper = refl

-- The same by the code, whose first lane has that key.
digest_of_the_paper :
    take 8 (digest_payload fifteen_bytes)
    ≡ 0xe5 ∷ 0x45 ∷ 0xbe ∷ 0x49 ∷ 0x61 ∷ 0xca ∷ 0x29 ∷ 0xa1 ∷ []
unfolding digest_payload siphash128_dual sipround rotl64 tail64 load64_le store64_le
digest_of_the_paper = refl

abbrev some_sip : Sip
some_sip = record { v0 = 1; v1 = 2 ^ 63; v2 = 77; v3 = 2 ^ 64 - 1 }

some_sip-IsSip : IsSip some_sip
some_sip-IsSip = record {
  v0_fits = omega arith;
  v1_fits = omega arith;
  v2_fits = omega arith;
  v3_fits = omega arith;
}

unround-sipround_example : unround (sipround some_sip) ≡ some_sip
unround-sipround_example = unround-sipround some_sip some_sip-IsSip

load_u64-store_u64_example : load_u64 (store_u64 (2 ^ 63 + 5) ++ (9 ∷ [])) ≡ 2 ^ 63 + 5
load_u64-store_u64_example = load_u64-store_u64 (2 ^ 63 + 5) (9 ∷ []) (omega arith)
