-- ===== src/Base/Decimal.antt =====
-- strconv.FormatInt and strconv.ParseInt in base 10 for int64.
use Prim.Native.Nat.{ℕ, zero, suc, ◌+◌, ◌-◌, ◌*◌, ◌/◌, ◌%◌, ◌^◌, ◌≤◌, ◌<◌}
use mathlib.Core.Path.{◌≡◌, refl, ◌∙◌}
use mathlib.Core.Bool.{Bool, ◌&&◌}
use mathlib.Core.Option.{Option, none, some}
use mathlib.Core.List.{[], ◌∷◌}
use native.Mathlib.Omega.{arith}
use lan_commander.Base.Tests.{ltb, leb, if◌then◌else◌}
use lan_commander.Base.Equality.{◌==◌, nat_eq}
use lan_commander.Base.Int.{ℤ, pos, negsuc, max_int64}
use lan_commander.Base.Text.{Text, codes, trim_right, trim_space}

-- The digits of `n` in front of `out`; the fuel is more than the number of digits.
digits : ℕ → ℕ → Text → Text
digits zero n out = out
digits (suc fuel) n out =
    let rest = digits fuel (n / 10) ((48 + n % 10) ∷ out) in
    if ltb n 10 then (48 + n) ∷ out else rest

unfoldable pub format_int : ℤ → Text
unfolding digits
format_int (pos n) = digits (suc n) n []
format_int (negsuc n) = b'-' ∷ digits (suc (suc n)) (suc n) []

abbrev is_digit : ℕ → Bool
is_digit c = leb 48 c && leb c 57

scan : Text → ℕ → Option ℕ
scan [] v = some v
scan (c ∷ s) v = let rest = scan s (v * 10 + (c - 48)) in if is_digit c then rest else none

abbrev magnitude : Text → Option ℕ
magnitude [] = none
magnitude (c ∷ s) = scan (c ∷ s) 0

abbrev fit_pos : Option ℕ → Option ℤ
fit_pos none = none
fit_pos (some v) = if leb v max_int64 then some (pos v) else none

-- -0 is 0.
abbrev negate : ℕ → ℤ
negate zero = pos 0
negate (suc n) = negsuc n

abbrev fit_neg : Option ℕ → Option ℤ
fit_neg none = none
fit_neg (some v) = if leb v (2 ^ 63) then some (negate v) else none

-- `none` is a syntax or a range error.
unfoldable pub parse_int : Text → Option ℤ
unfolding scan
parse_int [] = none
parse_int (c ∷ s) =
    if c == b'-'
    then fit_neg (magnitude s)
    else if c == b'+'
    then fit_pos (magnitude s)
    else fit_pos (magnitude (c ∷ s))

scan-digits : (f n : ℕ) (out : Text) → n < f → scan (digits f n out) 0 ≡ scan out n
unfolding scan digits
scan-digits zero n out h = elim h [ ]
scan-digits (suc f) n out h = ground (arith, scan-digits f (n / 10) ((48 + n % 10) ∷ out))

-- A digit, and digits only after it.
abbrev AllDigits : Text → Type 0
AllDigits [] = Unit {0}
AllDigits (c ∷ s) = (48 ≤ c) × (c ≤ 57) × AllDigits s

abbrev IsNumeral : Text → Type 0
IsNumeral [] = ⊥
IsNumeral (c ∷ s) = (48 ≤ c) × (c ≤ 57) × AllDigits s

digits-IsNumeral : (f n : ℕ) (out : Text) → AllDigits out → n < f → IsNumeral (digits f n out)
unfolding digits
digits-IsNumeral zero n out a h = elim h [ ]
digits-IsNumeral (suc f) n out a h =
    ground (arith, digits-IsNumeral f (n / 10) ((48 + n % 10) ∷ out))

parse_numeral :
    (s : Text) (v : ℕ)
    → IsNumeral s
    → scan s 0 ≡ some v
    → v ≤ max_int64
    → parse_int s ≡ some (pos v)
unfolding parse_int
parse_numeral [] v a e h = absurd a
parse_numeral (c ∷ s) v a e h = ground arith

-- What was written for a non-negative int64 is read back.
pub parse_int-format_int : (n : ℕ) → n ≤ max_int64 → parse_int (format_int (pos n)) ≡ some (pos n)
unfolding format_int
parse_int-format_int n h =
    parse_numeral (digits (suc n) n []) n (digits-IsNumeral (suc n) n [] tt (omega arith))
      (scan-digits (suc n) n [] (omega arith) ∙ unfold scan in refl) h

trim_right_digits : (s : Text) → AllDigits s → trim_right s ≡ s
unfolding trim_right
trim_right_digits [] a = refl
trim_right_digits (c ∷ s) (lo, hi, a) = ground (arith, trim_right_digits s a)

trim_space_numeral : (s : Text) → IsNumeral s → trim_space s ≡ s
unfolding trim_space
trim_space_numeral [] a = absurd a
trim_space_numeral (c ∷ s) (lo, hi, a) = ground (arith, trim_right_digits s a)

-- Trimming leaves a written number as it is.
pub trim_space-format_int : (n : ℕ) → trim_space (format_int (pos n)) ≡ format_int (pos n)
unfolding format_int
trim_space-format_int n =
    trim_space_numeral (digits (suc n) n []) (digits-IsNumeral (suc n) n [] tt (omega arith))

format_int_runs : format_int (pos 9474) ≡ codes "9474"
unfolding format_int
format_int_runs = refl
