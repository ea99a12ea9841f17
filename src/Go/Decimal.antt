-- ===== src/Go/Decimal.antt =====
-- `strconv.Itoa` and `strconv.FormatInt` in base ten, and `strconv.ParseInt(s, 10, 64)`.
pub mod RoundTrip
use Prim.Native.Nat.{◌-◌}
use mathlib.Core.Bool.{◌||◌}
use mathlib.Core.Logic.{dite}
use mathlib.Core.WellFounded.{Acc, WellFounded}
use native.Mathlib.Decide.{dec_lt}
use podman_bootc.Base.{
  ℕ, zero, suc, ◌+◌, ◌-◌, ◌*◌, ◌/◌, ◌%◌, ◌^◌, ◌<◌, ◌≡◌, refl, Option, none, some, [], ◌∷◌, arith,
  Text, lit, ltb, ◌==◌, if◌then◌else◌,
}
use podman_bootc.Base.Int.{ℤ, pos, negsuc}

acc_below : (k n : ℕ) → n < k → Acc ◌<◌ n
acc_below zero n h = absurd (omega arith)
acc_below (suc k) n h = Acc.intro n λ m lt. acc_below k m (omega arith)

pub lt_wf : WellFounded ◌<◌
unfolding acc_below
lt_wf = record { apply = λ n. acc_below (suc n) n (omega arith) }

pub tenth_lt : {n : ℕ} → 0 < n → n / 10 < n
tenth_lt h = omega arith

pub put_digits : (n : ℕ) → Acc ◌<◌ n → Text → Text
put_digits n (Acc.intro _ smaller) out =
    dite (dec_lt 0 n)
      (λ h. put_digits (n / 10) (smaller (n / 10) (tenth_lt h)) ((b'0' + n % 10) ∷ out)) (λ _. out)

-- The digits of a positive number in front of `out`.
pub digits : ℕ → Text → Text
unfolding put_digits lt_wf dec_lt
digits n = put_digits n (lt_wf.apply n)

unfoldable pub format_nat : ℕ → Text
unfolding digits
format_nat n = if n == 0 then b'0' ∷ [] else digits n []

-- `strconv.Itoa`, and `strconv.FormatInt(i, 10)`.
unfoldable pub format_int : ℤ → Text
unfolding format_nat
format_int (pos n) = format_nat n
format_int (negsuc n) = b'-' ∷ format_nat (suc n)

-- The number that digits spell behind `n`; `none` where a byte is no digit, or the number passes
-- `limit`. The source stops at the first such byte.
pub scan : ℕ → Text → ℕ → Option ℕ
scan limit [] n = some n
scan limit (c ∷ s) n =
    if ltb c b'0' || ltb b'9' c
    then none
    else if ltb limit (n * 10 + (c - b'0'))
    then none
    else scan limit s (n * 10 + (c - b'0'))

abbrev negated : ℕ → ℤ
negated zero = pos 0
negated (suc n) = negsuc n

abbrev map_pos : Option ℕ → Option ℤ
map_pos none = none
map_pos (some n) = some (pos n)

abbrev map_negated : Option ℕ → Option ℤ
map_negated none = none
map_negated (some n) = some (negated n)

pub scan_unsigned : ℕ → Text → Option ℕ
unfolding scan
scan_unsigned limit [] = none
scan_unsigned limit (c ∷ s) = scan limit (c ∷ s) 0

-- `strconv.ParseInt(s, 10, 64)`; `none` for an error.
unfoldable pub parse_int : Text → Option ℤ
unfolding scan_unsigned
parse_int [] = none
parse_int (c ∷ s) =
    if c == b'+'
    then map_pos (scan_unsigned (2 ^ 63 - 1) s)
    else if c == b'-'
    then map_negated (scan_unsigned (2 ^ 63) s)
    else map_pos (scan_unsigned (2 ^ 63 - 1) (c ∷ s))

format_test : format_int (negsuc 41) ≡ lit "-42"
unfolding format_int lit
format_test = refl

parse_test : parse_int (lit "-9223372036854775808") ≡ some (negsuc 9223372036854775807)
unfolding parse_int lit
parse_test = refl

parse_overflow : parse_int (lit "9223372036854775808") ≡ none
unfolding parse_int lit
parse_overflow = refl
