-- ===== src/Hash/Round.antt =====
-- `bloomd_sipround` of src/hash.c loses nothing: a function that undoes it.
use kbloomd.Common.{
  ℕ, ◌+◌, ◌-◌, ◌*◌, ◌/◌, ◌%◌, ◌^◌, ◌<◌, ◌≡◌, refl, arith, bit_or, bit_xor, ap, ◌∙◌,
}
use kbloomd.Common.Bits.{bit_or_fields, bit_or_comm, bit_xor_cancel, bit_xor-lt}
use kbloomd.Wire.{u64}
use kbloomd.Hash.{Sip, sipround, rotl64}

-- The four words are 64-bit numbers.
pub record IsSip (s : Sip) : Type 0 where
  pub v0_fits : s.v0 < 2 ^ 64
  pub v1_fits : s.v1 < 2 ^ 64
  pub v2_fits : s.v2 < 2 ^ 64
  pub v3_fits : s.v3 < 2 ^ 64

-- A rotation as a sum of two fields.
rotl_13 : (x : ℕ) → x < 2 ^ 64 → rotl64 x 13 ≡ x / 2 ^ 51 + x % 2 ^ 51 * 2 ^ 13
unfolding rotl64
rotl_13 x h =
    ap (λ t. bit_or t (x / 2 ^ 51)) (fields x)
    ∙ bit_or_comm (x % 2 ^ 51 * 2 ^ 13) (x / 2 ^ 51)
    ∙ bit_or_fields 13 (x / 2 ^ 51) (x % 2 ^ 51) (omega arith)
  where
    fields : (x : ℕ) → x * 2 ^ 13 % 2 ^ 64 ≡ x % 2 ^ 51 * 2 ^ 13
    fields x = omega arith

rotl_16 : (x : ℕ) → x < 2 ^ 64 → rotl64 x 16 ≡ x / 2 ^ 48 + x % 2 ^ 48 * 2 ^ 16
unfolding rotl64
rotl_16 x h =
    ap (λ t. bit_or t (x / 2 ^ 48)) (fields x)
    ∙ bit_or_comm (x % 2 ^ 48 * 2 ^ 16) (x / 2 ^ 48)
    ∙ bit_or_fields 16 (x / 2 ^ 48) (x % 2 ^ 48) (omega arith)
  where
    fields : (x : ℕ) → x * 2 ^ 16 % 2 ^ 64 ≡ x % 2 ^ 48 * 2 ^ 16
    fields x = omega arith

rotl_17 : (x : ℕ) → x < 2 ^ 64 → rotl64 x 17 ≡ x / 2 ^ 47 + x % 2 ^ 47 * 2 ^ 17
unfolding rotl64
rotl_17 x h =
    ap (λ t. bit_or t (x / 2 ^ 47)) (fields x)
    ∙ bit_or_comm (x % 2 ^ 47 * 2 ^ 17) (x / 2 ^ 47)
    ∙ bit_or_fields 17 (x / 2 ^ 47) (x % 2 ^ 47) (omega arith)
  where
    fields : (x : ℕ) → x * 2 ^ 17 % 2 ^ 64 ≡ x % 2 ^ 47 * 2 ^ 17
    fields x = omega arith

rotl_21 : (x : ℕ) → x < 2 ^ 64 → rotl64 x 21 ≡ x / 2 ^ 43 + x % 2 ^ 43 * 2 ^ 21
unfolding rotl64
rotl_21 x h =
    ap (λ t. bit_or t (x / 2 ^ 43)) (fields x)
    ∙ bit_or_comm (x % 2 ^ 43 * 2 ^ 21) (x / 2 ^ 43)
    ∙ bit_or_fields 21 (x / 2 ^ 43) (x % 2 ^ 43) (omega arith)
  where
    fields : (x : ℕ) → x * 2 ^ 21 % 2 ^ 64 ≡ x % 2 ^ 43 * 2 ^ 21
    fields x = omega arith

rotl_32 : (x : ℕ) → x < 2 ^ 64 → rotl64 x 32 ≡ x / 2 ^ 32 + x % 2 ^ 32 * 2 ^ 32
unfolding rotl64
rotl_32 x h =
    ap (λ t. bit_or t (x / 2 ^ 32)) (fields x)
    ∙ bit_or_comm (x % 2 ^ 32 * 2 ^ 32) (x / 2 ^ 32)
    ∙ bit_or_fields 32 (x / 2 ^ 32) (x % 2 ^ 32) (omega arith)
  where
    fields : (x : ℕ) → x * 2 ^ 32 % 2 ^ 64 ≡ x % 2 ^ 32 * 2 ^ 32
    fields x = omega arith

rotl_43 : (x : ℕ) → x < 2 ^ 64 → rotl64 x 43 ≡ x / 2 ^ 21 + x % 2 ^ 21 * 2 ^ 43
unfolding rotl64
rotl_43 x h =
    ap (λ t. bit_or t (x / 2 ^ 21)) (fields x)
    ∙ bit_or_comm (x % 2 ^ 21 * 2 ^ 43) (x / 2 ^ 21)
    ∙ bit_or_fields 43 (x / 2 ^ 21) (x % 2 ^ 21) (omega arith)
  where
    fields : (x : ℕ) → x * 2 ^ 43 % 2 ^ 64 ≡ x % 2 ^ 21 * 2 ^ 43
    fields x = omega arith

rotl_47 : (x : ℕ) → x < 2 ^ 64 → rotl64 x 47 ≡ x / 2 ^ 17 + x % 2 ^ 17 * 2 ^ 47
unfolding rotl64
rotl_47 x h =
    ap (λ t. bit_or t (x / 2 ^ 17)) (fields x)
    ∙ bit_or_comm (x % 2 ^ 17 * 2 ^ 47) (x / 2 ^ 17)
    ∙ bit_or_fields 47 (x / 2 ^ 17) (x % 2 ^ 17) (omega arith)
  where
    fields : (x : ℕ) → x * 2 ^ 47 % 2 ^ 64 ≡ x % 2 ^ 17 * 2 ^ 47
    fields x = omega arith

rotl_48 : (x : ℕ) → x < 2 ^ 64 → rotl64 x 48 ≡ x / 2 ^ 16 + x % 2 ^ 16 * 2 ^ 48
unfolding rotl64
rotl_48 x h =
    ap (λ t. bit_or t (x / 2 ^ 16)) (fields x)
    ∙ bit_or_comm (x % 2 ^ 16 * 2 ^ 48) (x / 2 ^ 16)
    ∙ bit_or_fields 48 (x / 2 ^ 16) (x % 2 ^ 16) (omega arith)
  where
    fields : (x : ℕ) → x * 2 ^ 48 % 2 ^ 64 ≡ x % 2 ^ 16 * 2 ^ 48
    fields x = omega arith

rotl_51 : (x : ℕ) → x < 2 ^ 64 → rotl64 x 51 ≡ x / 2 ^ 13 + x % 2 ^ 13 * 2 ^ 51
unfolding rotl64
rotl_51 x h =
    ap (λ t. bit_or t (x / 2 ^ 13)) (fields x)
    ∙ bit_or_comm (x % 2 ^ 13 * 2 ^ 51) (x / 2 ^ 13)
    ∙ bit_or_fields 51 (x / 2 ^ 13) (x % 2 ^ 13) (omega arith)
  where
    fields : (x : ℕ) → x * 2 ^ 51 % 2 ^ 64 ≡ x % 2 ^ 13 * 2 ^ 51
    fields x = omega arith

-- Rotating by `r` and then by `back` gives the word back.
abbrev Undoes : ℕ → ℕ → Type 0
Undoes r back = (x : ℕ) → x < 2 ^ 64 → (rotl64 x r < 2 ^ 64) × (rotl64 (rotl64 x r) back ≡ x)

Undoes-13 : Undoes 13 51
Undoes-13 x h = (
  omega (arith, rotl_13 x h),
  omega (arith, rotl_13 x h, rotl_51 (rotl64 x 13) (omega (arith, rotl_13 x h))),
)

Undoes-16 : Undoes 16 48
Undoes-16 x h = (
  omega (arith, rotl_16 x h),
  omega (arith, rotl_16 x h, rotl_48 (rotl64 x 16) (omega (arith, rotl_16 x h))),
)

Undoes-17 : Undoes 17 47
Undoes-17 x h = (
  omega (arith, rotl_17 x h),
  omega (arith, rotl_17 x h, rotl_47 (rotl64 x 17) (omega (arith, rotl_17 x h))),
)

Undoes-21 : Undoes 21 43
Undoes-21 x h = (
  omega (arith, rotl_21 x h),
  omega (arith, rotl_21 x h, rotl_43 (rotl64 x 21) (omega (arith, rotl_21 x h))),
)

Undoes-32 : Undoes 32 32
Undoes-32 x h = (
  omega (arith, rotl_32 x h),
  omega (arith, rotl_32 x h, rotl_32 (rotl64 x 32) (omega (arith, rotl_32 x h))),
)

-- `a += b; b = rotl(b, r); b ^= a;` and the steps back.
mix : ℕ → ℕ → ℕ → ℕ × ℕ
mix r a b = (u64 (a + b), bit_xor (rotl64 b r) (u64 (a + b)))

unmix : ℕ → ℕ → ℕ → ℕ × ℕ
unmix back a b = let b0 = rotl64 (bit_xor b a) back in (u64 (a + 2 ^ 64 - b0), b0)

mix_fits :
    (r back a b : ℕ)
    → Undoes r back
    → a < 2 ^ 64
    → b < 2 ^ 64
    → ((mix r a b).0 < 2 ^ 64) × ((mix r a b).1 < 2 ^ 64)
unfolding mix
mix_fits r back a b u ha hb =
    (omega arith, bit_xor-lt 64 (rotl64 b r) (u64 (a + b)) (u b hb).0 (omega arith))

unmix-mix :
    (r back a b : ℕ)
    → Undoes r back
    → a < 2 ^ 64
    → b < 2 ^ 64
    → unmix back (mix r a b).0 (mix r a b).1 ≡ (a, b)
unfolding mix unmix
unmix-mix r back a b u ha hb =
    rw (bit_xor_cancel (rotl64 b r) (u64 (a + b)), (u b hb).1)
      (ap (λ (t : ℕ). (t, b)) (back_sum a b ha hb))
  where
    back_sum : (a b : ℕ) → a < 2 ^ 64 → b < 2 ^ 64 → ((a + b) % 2 ^ 64 + 2 ^ 64 - b) % 2 ^ 64 ≡ a
    back_sum a b ha hb = omega arith

-- The first and the second half of a round: two mixes each, and the rotation by 32.
first_half : Sip → Sip
first_half s =
    let (x, y) = mix 13 s.v0 s.v1 in
    let (z, t) = mix 16 s.v2 s.v3 in record { v0 = rotl64 x 32; v1 = y; v2 = z; v3 = t }

second_half : Sip → Sip
second_half s =
    let (x, t) = mix 21 s.v0 s.v3 in
    let (z, y) = mix 17 s.v2 s.v1 in record { v0 = x; v1 = y; v2 = rotl64 z 32; v3 = t }

join_first : ℕ × ℕ → ℕ × ℕ → Sip
join_first p q = record { v0 = p.0; v1 = p.1; v2 = q.0; v3 = q.1 }

join_second : ℕ × ℕ → ℕ × ℕ → Sip
join_second p q = record { v0 = p.0; v1 = q.1; v2 = q.0; v3 = p.1 }

first_half_back : Sip → Sip
first_half_back s = join_first (unmix 51 (rotl64 s.v0 32) s.v1) (unmix 48 s.v2 s.v3)

second_half_back : Sip → Sip
second_half_back s = join_second (unmix 43 s.v0 s.v3) (unmix 47 (rotl64 s.v2 32) s.v1)

first_half-IsSip : (s : Sip) → IsSip s → IsSip (first_half s)
unfolding first_half
first_half-IsSip s h =
    let p = mix_fits 13 51 s.v0 s.v1 Undoes-13 h.v0_fits h.v1_fits in
    let q = mix_fits 16 48 s.v2 s.v3 Undoes-16 h.v2_fits h.v3_fits in
    record {
      v0_fits = (Undoes-32 (mix 13 s.v0 s.v1).0 p.0).0;
      v1_fits = p.1;
      v2_fits = q.0;
      v3_fits = q.1;
    }

first_half_undone : (s : Sip) → IsSip s → first_half_back (first_half s) ≡ s
unfolding first_half first_half_back
first_half_undone s h =
    let p = mix_fits 13 51 s.v0 s.v1 Undoes-13 h.v0_fits h.v1_fits in
    rw
      (
        (Undoes-32 (mix 13 s.v0 s.v1).0 p.0).1,
        unmix-mix 13 51 s.v0 s.v1 Undoes-13 h.v0_fits h.v1_fits,
        unmix-mix 16 48 s.v2 s.v3 Undoes-16 h.v2_fits h.v3_fits,
      )
      (unfold join_first in refl)

second_half_undone : (s : Sip) → IsSip s → second_half_back (second_half s) ≡ s
unfolding second_half second_half_back
second_half_undone s h =
    let q = mix_fits 17 47 s.v2 s.v1 Undoes-17 h.v2_fits h.v1_fits in
    rw
      (
        (Undoes-32 (mix 17 s.v2 s.v1).0 q.0).1,
        unmix-mix 21 43 s.v0 s.v3 Undoes-21 h.v0_fits h.v3_fits,
        unmix-mix 17 47 s.v2 s.v1 Undoes-17 h.v2_fits h.v1_fits,
      )
      (unfold join_second in refl)

sipround-halves : (s : Sip) → sipround s ≡ second_half (first_half s)
unfolding sipround first_half second_half mix
sipround-halves s = refl

pub unround : Sip → Sip
unfolding first_half_back second_half_back
unround s = first_half_back (second_half_back s)

-- On four 64-bit words the round of src/hash.c has an inverse: undoing it step by step gives the
-- words back.
pub unround-sipround : (s : Sip) → IsSip s → unround (sipround s) ≡ s
unfolding unround
unround-sipround s h =
    ap unround (sipround-halves s)
    ∙ ap first_half_back (second_half_undone (first_half s) (first_half-IsSip s h))
    ∙ first_half_undone s h
