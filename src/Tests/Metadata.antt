-- ===== src/Tests/Metadata.antt =====
-- Metadata files on a platform that prints numbers in a positional notation and reads them back.
use kbloomd.Common.{
  ℕ, zero, suc, ◌+◌, ◌*◌, ◌-◌, ◌/◌, ◌%◌, ◌^◌, ◌<◌, ◌≡◌, refl, ap, arith, true, false, some, [], ◌∷◌,
  ◌++◌, Bytes, text, ok, length, take, drop, ==-ne, ltb, leb, if◌then◌else◌, ◌==◌, sym,
}
use mathlib.Core.Path.{subst}
use kbloomd.Platform.{Platform, Scanned}
use kbloomd.Platform.Laws.{IsLine, TextLaws, NumberLaws}
use kbloomd.FilterSet.{Meta}
use kbloomd.Name.{name_is_valid}
use kbloomd.MetaFile.{meta_body}
use kbloomd.MetaRead.{meta_read_file}
use kbloomd.MetaRead.Accepted.{IsAccepted, meta_read_file-IsAccepted}
use kbloomd.MetaRead.RoundTrip.{chars, chars-IsLine, IsWritable, meta_read_file-meta_body}
use kbloomd.Tests.{Machine, toy, unread, line_end}

-- So many digits to the base 16, the lowest first; the digits are the bytes from 48 on.
unfoldable digits : ℕ → ℕ → Bytes
digits zero n = []
digits (suc k) n = (n % 16 + 48) ∷ digits k (n / 16)

unfoldable value_of : Bytes → ℕ
value_of [] = 0
value_of (c ∷ rest) = c - 48 + 16 * value_of rest

abbrev scan_digits : Bytes → Scanned
scan_digits bs = record { value = value_of bs; stop = length bs; errno = 0 }

abbrev printing : Platform
printing = record toy {
  format_unsigned = λ n. digits 16 n;
  format_double = λ n. digits 16 n;
  is_finite = λ n. ltb n 0x7ff0_0000_0000_0000;
  double_le = λ a b. leb a b;
  double_of_int = λ n. if n == 0 then 0 else 0x3ff0_0000_0000_0000;
  strtoul = λ text base. scan_digits text;
  strtoull = λ text base. scan_digits text;
  strtod = λ text. scan_digits text;
}

digits-IsLine : (k n : ℕ) → IsLine (digits k n)
unfolding digits
digits-IsLine zero n = tt
digits-IsLine (suc k) n = (
  (λ e. omega (arith, e)),
  (λ e. omega (arith, e)),
  (λ e. omega (arith, e)),
  digits-IsLine k (n / 16),
)

length-digits : (k n : ℕ) → length (digits k n) ≡ k
unfolding digits
length-digits zero n = refl
length-digits (suc k) n = ap suc (length-digits k (n / 16))

value_of-digits : (k n : ℕ) → n < 16 ^ k → value_of (digits k n) ≡ n
unfolding digits value_of
value_of-digits zero n h = omega (arith, h)
value_of-digits (suc k) n h = omega (arith, value_of-digits k (n / 16) (omega (arith, h)))

scanned-digits :
    (n : ℕ)
    → n < 2 ^ 64
    → scan_digits (digits 16 n) ≡ record { value = n; stop = length (digits 16 n); errno = 0 }
scanned-digits n h =
    ap (λ t. (let s : Scanned = record { value = t; stop = length (digits 16 n); errno = 0 } in s))
      (value_of-digits 16 n (omega (arith, h)))

printing-NumberLaws : NumberLaws printing
printing-NumberLaws = record {
  decimal_IsLine = digits-IsLine 16;
  decimal_length = λ n h. omega (arith, length-digits 16 n);
  decimal_nonempty = λ n e. omega (arith, length-digits 16 n, e);
  strtoul_decimal = scanned-digits;
  strtoull_decimal = scanned-digits;
  double_IsLine = digits-IsLine 16;
  double_length = λ n. omega (arith, length-digits 16 n);
  double_nonempty = λ n e. omega (arith, length-digits 16 n, e);
  strtod_double = λ n h normal. scanned-digits n (ground (arith, h));
}

line_end_lem :
    (line rest : Bytes)
    → IsLine line
    → (take (line_end (line ++ (10 ∷ rest))) (line ++ (10 ∷ rest)) ≡ line ++ (10 ∷ []))
      × (drop (line_end (line ++ (10 ∷ rest))) (line ++ (10 ∷ rest)) ≡ rest)
line_end_lem [] rest h = (refl, refl)
line_end_lem (c ∷ line) rest h =
    let more = line_end_lem line rest h.3 in rw (==-ne c 10 h.1) (ap (λ t. c ∷ t) more.0, more.1)

line_whole :
    (w : Machine) (fp size : ℕ) (line rest : Bytes)
    → w.input ≡ line ++ (10 ∷ rest)
    → IsLine line
    → ((printing.fgets w fp size).0 ≡ some (line ++ (10 ∷ [])))
      × (unread (printing.fgets w fp size).1 fp ≡ rest)
line_whole w fp size line rest e h =
    subst
      (λ t.
        ((printing.fgets (record w { input = t }) fp size).0 ≡ some (line ++ (10 ∷ [])))
        × (unread (printing.fgets (record w { input = t }) fp size).1 fp ≡ rest))
      (sym e) (given line (line_end_lem line rest h))
  where
    given :
        (line' : Bytes)
        → (take (line_end (line' ++ (10 ∷ rest))) (line' ++ (10 ∷ rest)) ≡ line' ++ (10 ∷ []))
          × (drop (line_end (line' ++ (10 ∷ rest))) (line' ++ (10 ∷ rest)) ≡ rest)
        → ((printing.fgets (record w { input = line' ++ (10 ∷ rest) }) fp size).0
            ≡ some (line' ++ (10 ∷ [])))
          × (unread (printing.fgets (record w { input = line' ++ (10 ∷ rest) }) fp size).1 fp
              ≡ rest)
    given [] h' = (refl, refl)
    given (c ∷ line') h' = (ap some h'.0, h'.1)

printing-TextLaws : TextLaws printing unread
printing-TextLaws = record {
  line_whole = λ w fp size line rest e h room. line_whole w fp size line rest e h;
  text_left = λ w fp. omega arith;
  line_none = λ w fp size e. rw e refl;
}

-- The metadata of a filter of ten items with an error rate of 0.01, and the machine that has its file open.
abbrev metadata : Meta
metadata = record {
  metadata_version = 1;
  name = text "users";
  backend = text "bpf_bloom";
  digest = text "siphash128-v1";
  capacity = 10;
  error_rate = 0x3f84_7ae1_47ae_147b;
  hashes = 3;
  value_size = 16;
  has_data = true;
  log_clean = false;
  pin_path = text "/bpf/users";
  meta_path = text "/meta/users.meta";
  log_path = text "/meta/users.log";
}

abbrev stored : Machine
stored = record { disk = []; input = meta_body printing metadata; digests = []; plans = [] }

metadata-IsWritable : IsWritable printing metadata
unfolding name_is_valid text chars
metadata-IsWritable = record {
  version = refl;
  name = refl;
  name_line = chars-IsLine (text "users") refl;
  name_length = omega arith;
  backend = refl;
  digest = refl;
  value_size = refl;
  capacity = λ e. omega (arith, e);
  capacity_word = omega arith;
  hashes = omega arith;
  rate_finite = refl;
  rate_above_0 = refl;
  rate_below_1 = refl;
  rate_normal = refl;
  pin_path_line = chars-IsLine (text "/bpf/users") refl;
  pin_path_length = omega arith;
}

meta_read_file-meta_body_example :
    (meta_read_file printing (text "/meta/users.meta") stored).0
    ≡ ok (record metadata { meta_path = text "/meta/users.meta"; log_path = [] })
meta_read_file-meta_body_example =
    meta_read_file-meta_body printing printing-NumberLaws unread printing-TextLaws
      (text "/meta/users.meta") metadata stored 3 metadata-IsWritable (unfold text in omega arith)
      refl refl

meta_read_file-IsAccepted_example :
    IsAccepted printing
      (text "/meta/users.meta")
      (record metadata { meta_path = text "/meta/users.meta"; log_path = [] })
meta_read_file-IsAccepted_example =
    meta_read_file-IsAccepted printing (text "/meta/users.meta") stored
      (record metadata { meta_path = text "/meta/users.meta"; log_path = [] })
      meta_read_file-meta_body_example
