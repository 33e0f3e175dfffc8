-- ===== src/Common/Errors.antt =====
-- Return codes. A C function that returns 0 or `-errno` returns that errno value here, 0 for
-- success. Where success carries a value (a descriptor, a count, bytes) it returns a `Result`.
use Prim.Native.Nat.{ℕ, zero, suc, bit_and}
use mathlib.Core.Path.{◌≡◌, refl}
use mathlib.Core.Logic.{◌⊎◌, inl, inr}

pub data Result {ℓ} (A : Type ℓ) : Type ℓ where
  ok : A → Result A
  err : ℕ → Result A

-- To split on a computed result and keep the equation.
pub Result-cases {ℓ} :
    {A : Type ℓ} (r : Result A) → ((a : A) × (r ≡ ok a)) ⊎ ((e : ℕ) × (r ≡ err e))
Result-cases (ok a) = inl (a, refl)
Result-cases (err e) = inr (e, refl)

abbrev pub eperm : ℕ
eperm = 1

abbrev pub enoent : ℕ
enoent = 2

abbrev pub eintr : ℕ
eintr = 4

abbrev pub e2big : ℕ
e2big = 7

abbrev pub eagain : ℕ
eagain = 11

abbrev pub enomem : ℕ
enomem = 12

abbrev pub eacces : ℕ
eacces = 13

abbrev pub eexist : ℕ
eexist = 17

abbrev pub einval : ℕ
einval = 22

abbrev pub epipe : ℕ
epipe = 32

abbrev pub erange : ℕ
erange = 34

abbrev pub enametoolong : ℕ
enametoolong = 36

abbrev pub enosys : ℕ
enosys = 38

abbrev pub eproto : ℕ
eproto = 71

abbrev pub eopnotsupp : ℕ
eopnotsupp = 95

abbrev pub econnreset : ℕ
econnreset = 104

abbrev pub etimedout : ℕ
etimedout = 110

abbrev pub euclean : ℕ
euclean = 117

-- No errno value: a loop of the model that has run out of fuel. No theorem excuses it.
abbrev pub hang : ℕ
hang = 4096

-- `a |= b` of two codes that are 0 or negative: `(-x) | (-y)` is `-(((x - 1) & (y - 1)) + 1)`.
unfoldable pub rc_or : ℕ → ℕ → ℕ
rc_or zero y = y
rc_or (suc x) zero = suc x
rc_or (suc x) (suc y) = suc (bit_and x y)
