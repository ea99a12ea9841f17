-- ===== src/Go/Decimal/RoundTrip.antt =====
-- `strconv.FormatInt` and `strconv.ParseInt` together, digit by digit.
use mathlib.Core.Logic.{dite}
use mathlib.Core.WellFounded.{Acc}
use native.Mathlib.Decide.{dec_lt}
use mathlib.Core.Bool.{◌||◌}
use podman_bootc.Base.{
  ℕ, zero, suc, ◌+◌, ◌-◌, ◌*◌, ◌/◌, ◌%◌, ◌^◌, ◌<◌, ◌≤◌, false, ◌≡◌, refl, ap, ◌∙◌, some, [], ◌∷◌,
  arith, Text, ltb, ◌==◌, All,
}
use podman_bootc.Base.Int.{ℤ, pos, negsuc}
use podman_bootc.Go.Decimal.{
  tenth_lt, put_digits, digits, lt_wf, format_nat, format_int, scan, scan_unsigned, parse_int,
  map_pos,
}

abbrev pub IsDigit : ℕ → Type 0
IsDigit c = (48 ≤ c) × (c ≤ 57)

in_range : (d : ℕ) → d < 10 → (ltb (48 + d) 48 || ltb 57 (48 + d)) ≡ false
in_range d h = ground arith

below_limit : (limit n : ℕ) → n ≤ limit → ltb limit n ≡ false
below_limit limit n h = ground arith

put_together : (n : ℕ) → n / 10 * 10 + (48 + n % 10 - 48) ≡ n
put_together n = omega arith

scan_digit :
    (limit n : ℕ) (out : Text)
    → n ≤ limit
    → scan limit ((48 + n % 10) ∷ out) (n / 10) ≡ scan limit out n
unfolding scan
scan_digit limit n out h =
    rw (in_range (n % 10) (omega arith), put_together n, below_limit limit n h) refl

put_digits-scan :
    (limit n : ℕ) (acc : Acc ◌<◌ n) (out : Text)
    → n ≤ limit
    → scan limit (put_digits n acc out) 0 ≡ scan limit out n
unfolding put_digits
put_digits-scan limit n (Acc.intro _ smaller) out h = by_dec (dec_lt 0 n) (λ p.
    put_digits-scan limit (n / 10) (smaller (n / 10) (tenth_lt p)) ((48 + n % 10) ∷ out)
      (omega arith))
  where
    by_dec :
        (d : Dec (0 < n))
        → ((p : 0 < n)
            → scan limit
                (put_digits (n / 10) (smaller (n / 10) (tenth_lt p)) ((48 + n % 10) ∷ out))
                0
              ≡ scan limit ((48 + n % 10) ∷ out) (n / 10))
        → scan limit
            (dite d
              (λ p. put_digits (n / 10) (smaller (n / 10) (tenth_lt p)) ((48 + n % 10) ∷ out))
              (λ _. out))
            0
          ≡ scan limit out n
    by_dec (yes p) again = again p ∙ scan_digit limit n out h
    by_dec (no p) again = ap (scan limit out) (omega arith)

-- The first byte of the digits of a number is a digit.
abbrev FirstIsDigit : Text → Type 0
FirstIsDigit [] = ⊥
FirstIsDigit (c ∷ s) = IsDigit c

put_digits-FirstIsDigit :
    (n : ℕ) (acc : Acc ◌<◌ n) (out : Text) → FirstIsDigit out → FirstIsDigit (put_digits n acc out)
unfolding put_digits
put_digits-FirstIsDigit n (Acc.intro _ smaller) out h = by_dec (dec_lt 0 n) (λ p.
    put_digits-FirstIsDigit (n / 10) (smaller (n / 10) (tenth_lt p)) ((48 + n % 10) ∷ out)
      (omega arith, omega arith))
  where
    by_dec :
        (d : Dec (0 < n))
        → ((p : 0 < n)
            → FirstIsDigit
                (put_digits (n / 10) (smaller (n / 10) (tenth_lt p)) ((48 + n % 10) ∷ out)))
        → FirstIsDigit (
            dite d
              (λ p. put_digits (n / 10) (smaller (n / 10) (tenth_lt p)) ((48 + n % 10) ∷ out))
              (λ _. out))
    by_dec (yes p) again = again p
    by_dec (no p) again = h

put_digits-positive : (n : ℕ) (acc : Acc ◌<◌ n) → 0 < n → FirstIsDigit (put_digits n acc [])
unfolding put_digits
put_digits-positive n (Acc.intro _ smaller) h = by_dec (dec_lt 0 n)
  where
    by_dec :
        (d : Dec (0 < n))
        → FirstIsDigit (
            dite d
              (λ p. put_digits (n / 10) (smaller (n / 10) (tenth_lt p)) ((48 + n % 10) ∷ []))
              (λ _. []))
    by_dec (yes p) =
        put_digits-FirstIsDigit (n / 10) (smaller (n / 10) (tenth_lt p)) ((48 + n % 10) ∷ [])
          (omega arith, omega arith)
    by_dec (no p) = absurd (p h)

put_digits-All :
    (n : ℕ) (acc : Acc ◌<◌ n) (out : Text) → All IsDigit out → All IsDigit (put_digits n acc out)
unfolding put_digits
put_digits-All n (Acc.intro _ smaller) out h = by_dec (dec_lt 0 n) (λ p.
    put_digits-All (n / 10) (smaller (n / 10) (tenth_lt p)) ((48 + n % 10) ∷ out)
      ((omega arith, omega arith), h))
  where
    by_dec :
        (d : Dec (0 < n))
        → ((p : 0 < n)
            → All IsDigit
                (put_digits (n / 10) (smaller (n / 10) (tenth_lt p)) ((48 + n % 10) ∷ out)))
        → All IsDigit (
            dite d
              (λ p. put_digits (n / 10) (smaller (n / 10) (tenth_lt p)) ((48 + n % 10) ∷ out))
              (λ _. out))
    by_dec (yes p) again = again p
    by_dec (no p) again = h

digits-All : (n : ℕ) → All IsDigit (digits n [])
unfolding digits
digits-All n = put_digits-All n (lt_wf.apply n) [] tt

digits-FirstIsDigit : (n : ℕ) → 0 < n → FirstIsDigit (digits n [])
unfolding digits
digits-FirstIsDigit n h = put_digits-positive n (lt_wf.apply n) h

digits-scan : (limit n : ℕ) → n ≤ limit → scan limit (digits n []) 0 ≡ some n
unfolding digits scan
digits-scan limit n h = put_digits-scan limit n (lt_wf.apply n) [] h

suc_positive : (n : ℕ) → (suc n == 0) ≡ false
suc_positive n = ground arith

format_nat-suc : (n : ℕ) → format_nat (suc n) ≡ digits (suc n) []
unfolding format_nat digits
format_nat-suc n = rw (suc_positive n) refl

format_nat-FirstIsDigit : (n : ℕ) → FirstIsDigit (format_nat n)
unfolding format_nat
format_nat-FirstIsDigit zero = (omega arith, omega arith)
format_nat-FirstIsDigit (suc n) = rw (format_nat-suc n) (digits-FirstIsDigit (suc n) (omega arith))

pub format_nat-All : (n : ℕ) → All IsDigit (format_nat n)
unfolding format_nat
format_nat-All zero = ((omega arith, omega arith), tt)
format_nat-All (suc n) = rw (format_nat-suc n) (digits-All (suc n))

unsigned_of_digits :
    (limit : ℕ) (s : Text) → FirstIsDigit s → scan_unsigned limit s ≡ scan limit s 0
unfolding scan_unsigned
unsigned_of_digits limit [] h = elim h [ ]
unsigned_of_digits limit (c ∷ s) h = refl

zero_scan : (limit : ℕ) → scan limit (48 ∷ []) 0 ≡ some 0
unfolding scan
zero_scan limit = rw (below_limit limit 0 (omega arith)) refl

scan-format_nat : (limit n : ℕ) → n ≤ limit → scan limit (format_nat n) 0 ≡ some n
unfolding format_nat
scan-format_nat limit zero h = zero_scan limit
scan-format_nat limit (suc n) h = rw (format_nat-suc n) (digits-scan limit (suc n) h)

unsigned-format_nat : (limit n : ℕ) → n ≤ limit → scan_unsigned limit (format_nat n) ≡ some n
unsigned-format_nat limit n h =
    unsigned_of_digits limit (format_nat n) (format_nat-FirstIsDigit n) ∙ scan-format_nat limit n h

no_sign : (c sign : ℕ) → IsDigit c → sign < 48 → (c == sign) ≡ false
no_sign c sign h k = ground arith

negative : (n : ℕ) → n < 2 ^ 63 → parse_int (b'-' ∷ format_nat (suc n)) ≡ some (negsuc n)
unfolding parse_int
negative n h = rw (unsigned-format_nat (2 ^ 63) (suc n) (omega arith)) refl

-- A text that begins with a digit is read without a sign.
parse_digits : (s : Text) → FirstIsDigit s → parse_int s ≡ map_pos (scan_unsigned (2 ^ 63 - 1) s)
unfolding parse_int
parse_digits [] h = elim h [ ]
parse_digits (c ∷ s) h = rw (no_sign c 43 h (omega arith), no_sign c 45 h (omega arith)) refl

-- A value of int64.
abbrev pub IsInt64 : ℤ → Type 0
IsInt64 (pos n) = n < 2 ^ 63
IsInt64 (negsuc n) = n < 2 ^ 63

-- For every value of int64, `ParseInt` of what `FormatInt` writes of it is this value.
pub parse_int-format_int : (i : ℤ) → IsInt64 i → parse_int (format_int i) ≡ some i
unfolding format_int
parse_int-format_int (pos n) h =
    parse_digits (format_nat n) (format_nat-FirstIsDigit n)
    ∙ rw (unsigned-format_nat (2 ^ 63 - 1) n (omega arith)) refl
parse_int-format_int (negsuc n) h = negative n h
