-- ===== src/Strings/Number.antt =====
-- `strconv.Itoa` and `strconv.Atoi`. An `int` has 64 bits.
pub mod RoundTrip
use tab_vm.Prelude.{
  ℕ, zero, suc, ◌+◌, ◌-◌, ◌*◌, ◌/◌, ◌%◌, Bool, ◌&&◌, [], ◌∷◌, Option, none, some, ltb, leb, ◌==◌,
  if◌then◌else◌,
}
use tab_vm.Prelude.Int.{ℤ, pos, negsuc}
use tab_vm.Strings.{Text}

abbrev pub digit : ℕ → ℕ
digit d = b'0' + d

-- The digits of `n`, most significant first, in front of `rest`.
pub digits_onto : ℕ → ℕ → Text → Text
digits_onto zero n rest = rest
digits_onto (suc fuel) n rest =
    let more = digits_onto fuel (n / 10) (digit (n % 10) ∷ rest) in
    if ltb n 10 then digit n ∷ rest else more

unfoldable pub format_nat : ℕ → Text
unfolding digits_onto
format_nat n = digits_onto (suc n) n []

unfoldable pub itoa : ℤ → Text
unfolding format_nat
itoa (pos n) = format_nat n
itoa (negsuc n) = b'-' ∷ format_nat (suc n)

abbrev pub is_digit : ℕ → Bool
is_digit c = leb b'0' c && leb c b'9'

-- `acc` is the value of the digits read.
pub read_digits : ℕ → Text → Option ℕ
read_digits acc [] = some acc
read_digits acc (c ∷ s) =
    let rest = read_digits (acc * 10 + (c - b'0')) s in if is_digit c then rest else none

-- At least one digit is needed.
pub read_nat : Text → Option ℕ
unfolding read_digits
read_nat [] = none
read_nat (c ∷ s) = read_digits 0 (c ∷ s)

abbrev pub max_int : ℕ
max_int = 9223372036854775807

-- A value that does not fit is an error.
abbrev pub fit_pos : Option ℕ → Option ℤ
fit_pos none = none
fit_pos (some n) = if leb n max_int then some (pos n) else none

abbrev pub fit_neg : Option ℕ → Option ℤ
fit_neg none = none
fit_neg (some zero) = some (pos 0)
fit_neg (some (suc n)) = if leb n max_int then some (negsuc n) else none

unfoldable pub atoi : Text → Option ℤ
unfolding read_nat
atoi [] = none
atoi (c ∷ s) =
    if c == b'-'
    then fit_neg (read_nat s)
    else if c == b'+'
    then fit_pos (read_nat s)
    else fit_pos (read_nat (c ∷ s))

abbrev pub max_uint : ℕ
max_uint = 18446744073709551615

-- `strconv.ParseUint` of 64 bits: a value that does not fit is the greatest one, whatever follows.
unfoldable pub read_uint : ℕ → Text → Option ℕ
read_uint acc [] = some acc
read_uint acc (c ∷ s) =
    let n = acc * 10 + (c - b'0') in
    let rest = read_uint n s in
    if is_digit c then (if leb n max_uint then rest else some max_uint) else none

abbrev pub parse_uint : Text → Option ℕ
parse_uint [] = none
parse_uint (c ∷ s) = read_uint 0 (c ∷ s)

abbrev pub clamp_pos : Option ℕ → ℤ
clamp_pos none = pos 0
clamp_pos (some n) = if leb n max_int then pos n else pos max_int

abbrev pub clamp_neg : Option ℕ → ℤ
clamp_neg none = pos 0
clamp_neg (some zero) = pos 0
clamp_neg (some (suc n)) = if leb n max_int then negsuc n else negsuc max_int

-- The value of `strconv.Atoi` when its error is ignored: 0 for a text that is no number, and the
-- nearest integer for one that does not fit.
unfoldable pub atoi_value : Text → ℤ
atoi_value [] = pos 0
atoi_value (c ∷ s) =
    if c == b'-'
    then clamp_neg (parse_uint s)
    else if c == b'+'
    then clamp_pos (parse_uint s)
    else clamp_pos (parse_uint (c ∷ s))
