-- ===== src/Hash/Reference.antt =====
-- SipHash-2-4 as the message's list of words: one run at a time, with the message cut into words
-- first. `bloomd_siphash128_dual` of src/hash.c is two such runs.
use kbloomd.Common.{
  ℕ, zero, suc, ◌+◌, ◌*◌, ◌/◌, ◌%◌, ◌^◌, ◌<◌, ◌≡◌, refl, arith, List, [], ◌∷◌, Bytes, length, ap,
  ◌-◌, ◌∙◌, bit_or, bit_xor, text,
}
use kbloomd.Wire.{u8}
use kbloomd.Wire.RoundTrip.{IsBytes, le_value, load_u64-sum}
use kbloomd.Hash.{
  Sip, Lanes, rotl64, sipround, init_sip, xor_v0, xor_v2, xor_v3, finish_word, absorb, absorb_words,
  load64_le, siphash128_dual, dual_round, tail64, end_offset,
}
use kbloomd.Hash.Tail.{last_word, tail64-last_word, end_offset-words}

-- The words of a message of `len` bytes, from the bytes that are still to come.
unfoldable pub words : ℕ → Bytes → List ℕ
words len (a ∷ b ∷ c ∷ d ∷ e ∷ f ∷ g ∷ h ∷ rest) =
    le_value (a ∷ b ∷ c ∷ d ∷ e ∷ f ∷ g ∷ h ∷ []) ∷ words len rest
words len rest = last_word rest len ∷ []

-- Four 64-bit words, the state of a run as the paper has it.
abbrev pub SipState : Type 0
SipState = ℕ × ℕ × ℕ × ℕ

-- The number that a byte string spells, highest byte first.
abbrev be_value : ℕ → Bytes → ℕ
be_value n [] = n
be_value n (b ∷ bs) = be_value (256 * n + b) bs

-- A rotation to the left of a 64-bit word.
unfoldable pub rotate : ℕ → ℕ → ℕ
rotate n x = bit_or (x * 2 ^ n % 2 ^ 64) (x / 2 ^ (64 - n))

-- Half a round: two sums, the other two words rotated by `m` and `n` and mixed with the sums, and the
-- first sum rotated by half a word.
unfoldable pub half_round : ℕ → ℕ → SipState → SipState
half_round m n (a, b, c, d) =
    let x = (a + b) % 2 ^ 64 in
    let y = (c + d) % 2 ^ 64 in (rotate 32 x, bit_xor (rotate m b) x, y, bit_xor (rotate n d) y)

-- SipRound: a half with 13 and 16, and one with 17 and 21 in which the sums change places.
unfoldable pub sip_round : SipState → SipState
sip_round s =
    let (a, b, c, d) = half_round 13 16 s in
    let (c', b', a', d') = half_round 17 21 (c, b, a, d) in (a', b', c', d')

-- The state of a key: the words of "somepseudorandomlygeneratedbytes" with the key mixed in twice.
unfoldable pub key_state : ℕ → ℕ → SipState
unfolding text
key_state k0 k1 = (
  bit_xor (be_value 0 (text "somepseu")) k0,
  bit_xor (be_value 0 (text "dorandom")) k1,
  bit_xor (be_value 0 (text "lygenera")) k0,
  bit_xor (be_value 0 (text "tedbytes")) k1,
)

-- Two rounds for each word of the message.
unfoldable pub compress : SipState → ℕ → SipState
compress (a, b, c, d) m =
    let (a', b', c', d') = sip_round (sip_round (a, b, c, bit_xor d m)) in
    (bit_xor a' m, b', c', d')

unfoldable pub run : SipState → List ℕ → SipState
run s [] = s
run s (m ∷ ms) = run (compress s m) ms

-- Four rounds to finish, and the words mixed into one.
unfoldable pub finish : SipState → ℕ
finish (a, b, c, d) =
    let (a', b', c', d') =
      sip_round (sip_round (sip_round (sip_round (a, b, bit_xor c 0xff, d)))) in
    bit_xor (bit_xor (bit_xor a' b') c') d'

-- SipHash-2-4 of the paper, with 64 bits of result.
unfoldable pub siphash : ℕ → ℕ → Bytes → ℕ
siphash k0 k1 src = finish (run (key_state k0 k1) (words (length src) src))

-- The words of a lane as the paper has them.
state_of : Sip → SipState
state_of s = (s.v0, s.v1, s.v2, s.v3)

state_of-sipround : (s : Sip) → state_of (sipround s) ≡ sip_round (state_of s)
unfolding sipround rotl64 state_of sip_round half_round rotate
state_of-sipround s = refl

-- The same on the lanes of the source.
lane_compress : Sip → ℕ → Sip
unfolding xor_v3 xor_v0
lane_compress s m = xor_v0 m (sipround (sipround (xor_v3 m s)))

lane_run : Sip → List ℕ → Sip
lane_run s [] = s
lane_run s (m ∷ ms) = lane_run (lane_compress s m) ms

state_of-lane_compress : (s : Sip) (m : ℕ) → state_of (lane_compress s m) ≡ compress (state_of s) m
unfolding lane_compress compress xor_v0 xor_v3 sipround rotl64 state_of sip_round half_round rotate
state_of-lane_compress s m = refl

state_of-lane_run : (s : Sip) (ms : List ℕ) → state_of (lane_run s ms) ≡ run (state_of s) ms
unfolding lane_run run
state_of-lane_run s [] = refl
state_of-lane_run s (m ∷ ms) =
    state_of-lane_run (lane_compress s m) ms ∙ ap (λ t. run t ms) (state_of-lane_compress s m)

lane_finish : Sip → ℕ
unfolding xor_v2 finish_word
lane_finish s = finish_word (sipround (sipround (sipround (sipround (xor_v2 0xff s)))))

lane_finish-finish : (s : Sip) → lane_finish s ≡ finish (state_of s)
unfolding lane_finish finish finish_word xor_v2 sipround rotl64 state_of sip_round half_round rotate
lane_finish-finish s = refl

lane_siphash :
    (k0 k1 : ℕ) (src : Bytes)
    → lane_finish (lane_run (init_sip k0 k1) (words (length src) src)) ≡ siphash k0 k1 src
unfolding siphash init_sip key_state state_of text
lane_siphash k0 k1 src =
    lane_finish-finish (lane_run (init_sip k0 k1) (words (length src) src))
    ∙ ap finish (state_of-lane_run (init_sip k0 k1) (words (length src) src))

load_word :
    (a b c d e f g h : ℕ) (rest : Bytes)
    → IsBytes (a ∷ b ∷ c ∷ d ∷ e ∷ f ∷ g ∷ h ∷ [])
    → load64_le (a ∷ b ∷ c ∷ d ∷ e ∷ f ∷ g ∷ h ∷ rest)
      ≡ le_value (a ∷ b ∷ c ∷ d ∷ e ∷ f ∷ g ∷ h ∷ [])
unfolding load64_le kbloomd.Wire.load_u64
load_word a b c d e f g h rest t = load_u64-sum a b c d e f g h rest t

absorb-lane_compress :
    (m : ℕ) (l : Lanes) → absorb m l ≡ record { a = lane_compress l.a m; b = lane_compress l.b m }
unfolding absorb lane_compress
absorb-lane_compress m l = refl

-- One round of the loop reads one word.
absorb_words-suc :
    (n a b c d e f g h : ℕ) (rest : Bytes) (l : Lanes)
    → IsBytes (a ∷ b ∷ c ∷ d ∷ e ∷ f ∷ g ∷ h ∷ [])
    → absorb_words (suc n) (a ∷ b ∷ c ∷ d ∷ e ∷ f ∷ g ∷ h ∷ rest) l
      ≡ absorb_words n rest (absorb (le_value (a ∷ b ∷ c ∷ d ∷ e ∷ f ∷ g ∷ h ∷ [])) l)
unfolding absorb_words
absorb_words-suc n a b c d e f g h rest l t =
    ap (λ m. absorb_words n rest (absorb m l)) (load_word a b c d e f g h rest t)

-- The loop and the step on the last word run both lanes over the same words.
absorb_words-lane_run :
    (n len : ℕ) (src : Bytes) (l : Lanes)
    → IsBytes src
    → length src ≡ 8 * n + len % 8
    → absorb (tail64 (absorb_words n src l).0 len) (absorb_words n src l).1
      ≡ record { a = lane_run l.a (words len src); b = lane_run l.b (words len src) }
unfolding absorb_words lane_run words
absorb_words-lane_run zero len [] l bytes e =
    rw (tail64-last_word [] len bytes (omega arith) (omega arith)) (absorb-lane_compress _ l)
absorb_words-lane_run zero len (a ∷ []) l bytes e =
    rw (tail64-last_word (a ∷ []) len bytes (omega arith) (omega arith)) (absorb-lane_compress _ l)
absorb_words-lane_run zero len (a ∷ b ∷ []) l bytes e =
    rw (tail64-last_word (a ∷ b ∷ []) len bytes (omega arith) (omega arith))
      (absorb-lane_compress _ l)
absorb_words-lane_run zero len (a ∷ b ∷ c ∷ []) l bytes e =
    rw (tail64-last_word (a ∷ b ∷ c ∷ []) len bytes (omega arith) (omega arith))
      (absorb-lane_compress _ l)
absorb_words-lane_run zero len (a ∷ b ∷ c ∷ d ∷ []) l bytes e =
    rw (tail64-last_word (a ∷ b ∷ c ∷ d ∷ []) len bytes (omega arith) (omega arith))
      (absorb-lane_compress _ l)
absorb_words-lane_run zero len (a ∷ b ∷ c ∷ d ∷ f ∷ []) l bytes e =
    rw (tail64-last_word (a ∷ b ∷ c ∷ d ∷ f ∷ []) len bytes (omega arith) (omega arith))
      (absorb-lane_compress _ l)
absorb_words-lane_run zero len (a ∷ b ∷ c ∷ d ∷ f ∷ g ∷ []) l bytes e =
    rw (tail64-last_word (a ∷ b ∷ c ∷ d ∷ f ∷ g ∷ []) len bytes (omega arith) (omega arith))
      (absorb-lane_compress _ l)
absorb_words-lane_run zero len (a ∷ b ∷ c ∷ d ∷ f ∷ g ∷ h ∷ []) l bytes e =
    rw (tail64-last_word (a ∷ b ∷ c ∷ d ∷ f ∷ g ∷ h ∷ []) len bytes (omega arith) (omega arith))
      (absorb-lane_compress _ l)
absorb_words-lane_run (suc n) len (a ∷ b ∷ c ∷ d ∷ f ∷ g ∷ h ∷ i ∷ rest) l bytes e =
    rw
      (
        absorb_words-suc n a b c d f g h i rest l (omega arith),
        absorb-lane_compress (le_value (a ∷ b ∷ c ∷ d ∷ f ∷ g ∷ h ∷ i ∷ [])) l,
      )
      (absorb_words-lane_run n len rest
        (record {
          a = lane_compress l.a (le_value (a ∷ b ∷ c ∷ d ∷ f ∷ g ∷ h ∷ i ∷ []));
          b = lane_compress l.b (le_value (a ∷ b ∷ c ∷ d ∷ f ∷ g ∷ h ∷ i ∷ []));
        })
        bytes.1.1.1.1.1.1.1.1 (omega arith))
absorb_words-lane_run n len src l bytes e = absurd (omega arith)

-- What follows the last word, on both lanes.
finish_dual : Lanes → ℕ × ℕ
unfolding xor_v2 dual_round finish_word
finish_dual l2 =
    let l3 : Lanes = record { a = xor_v2 0xff l2.a; b = xor_v2 0xff l2.b } in
    let l4 = dual_round (dual_round (dual_round (dual_round l3))) in
    (finish_word l4.a, finish_word l4.b)

whole_words : (len : ℕ) → len < 2 ^ 64 → len ≡ 8 * (end_offset len / 8) + len % 8
whole_words len h = omega (arith, end_offset-words len h)

start_lanes : ℕ → ℕ → ℕ → ℕ → Lanes
unfolding init_sip
start_lanes k0 k1 k2 k3 = record { a = init_sip k0 k1; b = init_sip k2 k3 }

-- For a payload of bytes whose length is below 2^64, the interleaved two-lane loop of
-- bloomd_siphash128_dual returns the pair of the SipHash-2-4 values of the payload under the two
-- keys. SipHash-2-4 is stated here from its paper, with nothing of the code: over the list of the
-- payload's 64-bit words, with its own round made of two half rounds, and the constants as the
-- text "somepseudorandomlygeneratedbytes".
pub siphash128_dual-siphash :
    (src : Bytes) (k0 k1 k2 k3 : ℕ)
    → IsBytes src
    → length src < 2 ^ 64
    → siphash128_dual src k0 k1 k2 k3 ≡ (siphash k0 k1 src, siphash k2 k3 src)
unfolding siphash128_dual finish_dual start_lanes lane_finish
siphash128_dual-siphash src k0 k1 k2 k3 bytes fits =
    ap finish_dual (
      absorb_words-lane_run (end_offset (length src) / 8) (length src) src (start_lanes k0 k1 k2 k3)
        bytes (whole_words (length src) fits))
    ∙ ap (λ t. (t, lane_finish (lane_run (init_sip k2 k3) (words (length src) src))))
        (lane_siphash k0 k1 src)
    ∙ ap (λ t. (siphash k0 k1 src, t)) (lane_siphash k2 k3 src)
