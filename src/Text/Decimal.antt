-- ===== src/Text/Decimal.antt =====
-- Decimal numbers: strconv.ParseInt(s, 10, 64), strconv.Atoi, strconv.FormatInt and "%d".
use zero_nime.Base.{
  ℕ, zero, suc, ◌+◌, ◌-◌, ◌*◌, ◌/◌, ◌%◌, ◌≤◌, ◌<◌, ◌≡◌, refl, ◌≢◌, ◌&&◌, Option, none, some, [],
  ◌∷◌, arith, leb, nat_eq, if◌then◌else◌, ℤ, pos, negsuc, max_int64,
}
use zero_nime.Text.{Text}

-- The digits of `n` before `out`; `n + 1` rounds are more than enough, as each divides by ten.
digits : ℕ → ℕ → Text → Text
digits zero n out = out
digits (suc fuel) zero out = out
digits (suc fuel) (suc n) out = digits fuel (suc n / 10) ((48 + suc n % 10) ∷ out)

-- fmt.Sprintf("%d", n)
unfoldable pub format_nat : ℕ → Text
unfolding digits
format_nat zero = 48 ∷ []
format_nat (suc n) = digits (suc (suc n)) (suc n) []

-- strconv.FormatInt(z, 10)
unfoldable pub format_int : ℤ → Text
unfolding format_nat
format_int (pos n) = format_nat n
format_int (negsuc n) = 45 ∷ format_nat (suc n)

scan : Text → ℕ → Option ℕ
scan [] n = some n
scan (c ∷ s) n =
    let rest = scan s (n * 10 + (c - 48)) in if leb 48 c && leb c 57 then rest else none

unsigned : Text → Option ℕ
unfolding scan
unsigned [] = none
unsigned (c ∷ s) = scan (c ∷ s) 0

-- the sign is read, and the value must fit an int64
abbrev non_negative : Option ℕ → Option ℤ
non_negative none = none
non_negative (some n) = if leb n max_int64 then some (pos n) else none

abbrev negative : Option ℕ → Option ℤ
negative none = none
negative (some zero) = some (pos 0)
negative (some (suc n)) = if leb n max_int64 then some (negsuc n) else none

-- strconv.ParseInt(s, 10, 64); `none` is an error
unfoldable pub parse_int : Text → Option ℤ
unfolding unsigned
parse_int [] = none
parse_int (c ∷ s) =
    if nat_eq c 45
    then negative (unsigned s)
    else if nat_eq c 43
    then non_negative (unsigned s)
    else non_negative (unsigned (c ∷ s))

scan-digits : (fuel n : ℕ) (out : Text) → n < fuel → scan (digits fuel n out) 0 ≡ scan out n
unfolding digits scan
scan-digits zero n out h = absurd (omega arith)
scan-digits (suc fuel) zero out h = refl
scan-digits (suc fuel) (suc n) out h =
    ground (arith, scan-digits fuel (suc n / 10) ((48 + suc n % 10) ∷ out))

-- What `digits` puts first is a digit.
abbrev pub IsDigit : ℕ → Type 0
IsDigit c = (48 ≤ c) × (c ≤ 57)

abbrev pub AllDigits : Text → Type 0
AllDigits [] = Unit
AllDigits (c ∷ s) = IsDigit c × AllDigits s

digits-AllDigits : (fuel n : ℕ) (out : Text) → AllDigits out → AllDigits (digits fuel n out)
unfolding digits
digits-AllDigits zero n out h = h
digits-AllDigits (suc fuel) zero out h = h
digits-AllDigits (suc fuel) (suc n) out h =
    digits-AllDigits fuel (suc n / 10) ((48 + suc n % 10) ∷ out) ((omega arith, omega arith), h)

pub format_nat-AllDigits : (n : ℕ) → AllDigits (format_nat n)
unfolding format_nat
format_nat-AllDigits zero = ((omega arith, omega arith), tt)
format_nat-AllDigits (suc n) = digits-AllDigits (suc (suc n)) (suc n) [] tt

scan-format_nat : (n : ℕ) → scan (format_nat n) 0 ≡ some n
unfolding format_nat scan
scan-format_nat zero = refl
scan-format_nat (suc n) = scan-digits (suc (suc n)) (suc n) [] (omega arith)

parse_int_of_digits :
    (s : Text) (n : ℕ)
    → AllDigits s
    → s ≢ []
    → scan s 0 ≡ some n
    → n ≤ max_int64
    → parse_int s ≡ some (pos n)
unfolding parse_int
parse_int_of_digits [] n d ne e h = absurd (ne refl)
parse_int_of_digits (c ∷ s) n d ne e h = ground arith

digits-ne-nil : (fuel n : ℕ) (out : Text) → out ≢ [] → digits fuel n out ≢ []
unfolding digits
digits-ne-nil zero n out h = h
digits-ne-nil (suc fuel) zero out h = h
digits-ne-nil (suc fuel) (suc n) out h =
    digits-ne-nil fuel (suc n / 10) ((48 + suc n % 10) ∷ out) (λ e. cc)

pub format_nat-ne-nil : (n : ℕ) → format_nat n ≢ []
unfolding format_nat digits
format_nat-ne-nil zero = λ e. cc
format_nat-ne-nil (suc n) = digits-ne-nil (suc n) (suc n / 10) ((48 + suc n % 10) ∷ []) (λ e. cc)

-- What is printed is read back.
pub parse_int-format_nat : (n : ℕ) → n ≤ max_int64 → parse_int (format_nat n) ≡ some (pos n)
parse_int-format_nat n h =
    parse_int_of_digits (format_nat n) n (format_nat-AllDigits n) (format_nat-ne-nil n)
      (scan-format_nat n) h

non_negative-fits : (o : Option ℕ) (n : ℕ) → non_negative o ≡ some (pos n) → n ≤ max_int64
non_negative-fits none n e = cc
non_negative-fits (some m) n e = ground arith

negative-fits : (o : Option ℕ) (n : ℕ) → negative o ≡ some (pos n) → n ≤ max_int64
negative-fits none n e = cc
negative-fits (some zero) n e = ground arith
negative-fits (some (suc m)) n e = ground arith

-- what is read fits an int64
pub parse_int-fits : (s : Text) (n : ℕ) → parse_int s ≡ some (pos n) → n ≤ max_int64
unfolding parse_int
parse_int-fits [] n e = cc
parse_int-fits (c ∷ s) n e = ground (
  arith,
  negative-fits (unsigned s) n,
  non_negative-fits (unsigned s) n,
  non_negative-fits (unsigned (c ∷ s)) n,
)
