-- ===== src/Hash/Tail.antt =====
-- `bloomd_tail64` and the word count of src/hash.c in arithmetic.
use kbloomd.Common.{
  ℕ, ◌+◌, ◌-◌, ◌*◌, ◌/◌, ◌%◌, ◌^◌, ◌<◌, ◌≡◌, arith, [], ◌∷◌, Bytes, length, bit_and, ap, ◌∙◌,
}
use kbloomd.Common.Bits.{bit_or_above, bit_and_low, bit_and_mask}
use kbloomd.Wire.RoundTrip.{IsBytes, le_value}
use kbloomd.Hash.{tail64, tail64_cases, end_offset}

case_1 :
    (out a : ℕ) (rest : Bytes)
    → out % 2 ^ 8 ≡ 0
    → a < 256
    → tail64_cases 1 (a ∷ rest) out ≡ out + le_value (a ∷ [])
unfolding tail64_cases
case_1 out a rest z h = bit_or_above 8 out a z h ∙ omega arith

case_2 :
    (out a b : ℕ) (rest : Bytes)
    → out % 2 ^ 16 ≡ 0
    → IsBytes (a ∷ b ∷ [])
    → tail64_cases 2 (a ∷ b ∷ rest) out ≡ out + le_value (a ∷ b ∷ [])
unfolding tail64_cases
case_2 out a b rest z h =
    rw (bit_or_above 16 out (b * 2 ^ 8) z (omega arith))
      (case_1 (out + b * 2 ^ 8) a (b ∷ rest) (omega arith) h.0 ∙ omega arith)

case_3 :
    (out a b c : ℕ) (rest : Bytes)
    → out % 2 ^ 24 ≡ 0
    → IsBytes (a ∷ b ∷ c ∷ [])
    → tail64_cases 3 (a ∷ b ∷ c ∷ rest) out ≡ out + le_value (a ∷ b ∷ c ∷ [])
unfolding tail64_cases
case_3 out a b c rest z h =
    rw (bit_or_above 24 out (c * 2 ^ 16) z (omega arith))
      (case_2 (out + c * 2 ^ 16) a b (c ∷ rest) (omega arith) (omega arith) ∙ omega arith)

case_4 :
    (out a b c d : ℕ) (rest : Bytes)
    → out % 2 ^ 32 ≡ 0
    → IsBytes (a ∷ b ∷ c ∷ d ∷ [])
    → tail64_cases 4 (a ∷ b ∷ c ∷ d ∷ rest) out ≡ out + le_value (a ∷ b ∷ c ∷ d ∷ [])
unfolding tail64_cases
case_4 out a b c d rest z h =
    rw (bit_or_above 32 out (d * 2 ^ 24) z (omega arith))
      (case_3 (out + d * 2 ^ 24) a b c (d ∷ rest) (omega arith) (omega arith) ∙ omega arith)

case_5 :
    (out a b c d e : ℕ) (rest : Bytes)
    → out % 2 ^ 40 ≡ 0
    → IsBytes (a ∷ b ∷ c ∷ d ∷ e ∷ [])
    → tail64_cases 5 (a ∷ b ∷ c ∷ d ∷ e ∷ rest) out ≡ out + le_value (a ∷ b ∷ c ∷ d ∷ e ∷ [])
unfolding tail64_cases
case_5 out a b c d e rest z h =
    rw (bit_or_above 40 out (e * 2 ^ 32) z (omega arith))
      (case_4 (out + e * 2 ^ 32) a b c d (e ∷ rest) (omega arith) (omega arith) ∙ omega arith)

case_6 :
    (out a b c d e f : ℕ) (rest : Bytes)
    → out % 2 ^ 48 ≡ 0
    → IsBytes (a ∷ b ∷ c ∷ d ∷ e ∷ f ∷ [])
    → tail64_cases 6 (a ∷ b ∷ c ∷ d ∷ e ∷ f ∷ rest) out
      ≡ out + le_value (a ∷ b ∷ c ∷ d ∷ e ∷ f ∷ [])
unfolding tail64_cases
case_6 out a b c d e f rest z h =
    rw (bit_or_above 48 out (f * 2 ^ 40) z (omega arith))
      (case_5 (out + f * 2 ^ 40) a b c d e (f ∷ rest) (omega arith) (omega arith) ∙ omega arith)

case_7 :
    (out a b c d e f g : ℕ) (rest : Bytes)
    → out % 2 ^ 56 ≡ 0
    → IsBytes (a ∷ b ∷ c ∷ d ∷ e ∷ f ∷ g ∷ [])
    → tail64_cases 7 (a ∷ b ∷ c ∷ d ∷ e ∷ f ∷ g ∷ rest) out
      ≡ out + le_value (a ∷ b ∷ c ∷ d ∷ e ∷ f ∷ g ∷ [])
unfolding tail64_cases
case_7 out a b c d e f g rest z h =
    rw (bit_or_above 56 out (g * 2 ^ 48) z (omega arith))
      (case_6 (out + g * 2 ^ 48) a b c d e f (g ∷ rest) (omega arith) (omega arith) ∙ omega arith)

length_bits : ℕ → ℕ
length_bits len = len * 2 ^ 56 % 2 ^ 64

length_bits_clear : (len : ℕ) → length_bits len % 2 ^ 56 ≡ 0
unfolding length_bits
length_bits_clear len = omega arith

bit_and_seven : (len : ℕ) → bit_and len 7 ≡ len % 8
bit_and_seven len = bit_and_mask 3 len

-- The last word of the message: the bytes that are left over, and the length in the top byte.
abbrev pub last_word : Bytes → ℕ → ℕ
last_word rest len = le_value rest + len % 256 * 2 ^ 56

tail64_at :
    (rest : Bytes) (len k : ℕ)
    → len % 8 ≡ k
    → tail64_cases k rest (length_bits len) ≡ length_bits len + le_value rest
    → tail64 rest len ≡ last_word rest len
unfolding tail64 length_bits
tail64_at rest len k e h =
    ap (λ t. tail64_cases t rest (len * 2 ^ 56 % 2 ^ 64)) (bit_and_seven len ∙ e) ∙ h ∙ omega arith

-- With the bytes after the last whole word, `tail64` is that word.
pub tail64-last_word :
    (rest : Bytes) (len : ℕ)
    → IsBytes rest
    → length rest < 8
    → len % 8 ≡ length rest
    → tail64 rest len ≡ last_word rest len
tail64-last_word [] len bytes fits eq = tail64_at [] len 0 eq (unfold tail64_cases in omega arith)
tail64-last_word (a ∷ []) len bytes fits eq =
    tail64_at (a ∷ []) len 1 eq
      (case_1 (length_bits len) a [] (omega (arith, length_bits_clear len)) bytes.0)
tail64-last_word (a ∷ b ∷ []) len bytes fits eq =
    tail64_at (a ∷ b ∷ []) len 2 eq
      (case_2 (length_bits len) a b [] (omega (arith, length_bits_clear len)) bytes)
tail64-last_word (a ∷ b ∷ c ∷ []) len bytes fits eq =
    tail64_at (a ∷ b ∷ c ∷ []) len 3 eq
      (case_3 (length_bits len) a b c [] (omega (arith, length_bits_clear len)) bytes)
tail64-last_word (a ∷ b ∷ c ∷ d ∷ []) len bytes fits eq =
    tail64_at (a ∷ b ∷ c ∷ d ∷ []) len 4 eq
      (case_4 (length_bits len) a b c d [] (omega (arith, length_bits_clear len)) bytes)
tail64-last_word (a ∷ b ∷ c ∷ d ∷ e ∷ []) len bytes fits eq =
    tail64_at (a ∷ b ∷ c ∷ d ∷ e ∷ []) len 5 eq
      (case_5 (length_bits len) a b c d e [] (omega (arith, length_bits_clear len)) bytes)
tail64-last_word (a ∷ b ∷ c ∷ d ∷ e ∷ f ∷ []) len bytes fits eq =
    tail64_at (a ∷ b ∷ c ∷ d ∷ e ∷ f ∷ []) len 6 eq
      (case_6 (length_bits len) a b c d e f [] (omega (arith, length_bits_clear len)) bytes)
tail64-last_word (a ∷ b ∷ c ∷ d ∷ e ∷ f ∷ g ∷ []) len bytes fits eq =
    tail64_at (a ∷ b ∷ c ∷ d ∷ e ∷ f ∷ g ∷ []) len 7 eq
      (case_7 (length_bits len) a b c d e f g [] (omega (arith, length_bits_clear len)) bytes)
tail64-last_word (a ∷ b ∷ c ∷ d ∷ e ∷ f ∷ g ∷ i ∷ rest) len bytes fits eq = absurd (omega arith)

-- `len & ~7` counts the whole words.
pub end_offset-words : (len : ℕ) → len < 2 ^ 64 → end_offset len / 8 ≡ len / 8
unfolding end_offset
end_offset-words len h = omega (
  arith,
  bit_and_low len (2 ^ 64 - 8),
  bit_and_low (len / 2) (2 ^ 63 - 4),
  bit_and_low (len / 2 / 2) (2 ^ 62 - 2),
  bit_and_mask 61 (len / 2 / 2 / 2),
)
