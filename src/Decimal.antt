-- ===== src/Decimal.antt =====
-- Python's `float` as an exact decimal, as far as the program uses it: `float(text)` for texts of
-- signs, digits and points, sums of positive numbers, `round(…, 2)` and the printed form.
use mail_tester.Prelude.{
  ℕ, zero, suc, ◌+◌, ◌-◌, ◌*◌, ◌/◌, ◌%◌, max, Bool, true, false, ◌&&◌, not, Option, none, some,
  List, [], ◌∷◌, ◌++◌, Text, codes, null, length, leb, ltb, ◌==◌, split_once, rstrip, if◌then◌else◌,
}

-- mantissa / 10 ^ places, or less than zero.
pub record Decimal : Type 0 where
  pub negative : Bool
  pub mantissa : ℕ
  pub places : ℕ

unfoldable pub pow10 : ℕ → ℕ
pow10 zero = 1
pow10 (suc n) = 10 * pow10 n

abbrev is_digit : ℕ → Bool
is_digit c = leb b'0' c && leb c b'9'

unfoldable pub all_digits : Text → Bool
all_digits [] = true
all_digits (c ∷ s) = is_digit c && all_digits s

-- The number that digits stand for, after `n`.
unfoldable pub value_of : ℕ → Text → ℕ
value_of n [] = n
value_of n (c ∷ s) = value_of (n * 10 + (c - b'0')) s

abbrev unsigned : Bool → Text → Text → Option Decimal
unsigned negative whole fraction =
    if all_digits whole && (all_digits fraction && not (null (whole ++ fraction)))
    then some (record {
      negative = negative;
      mantissa = value_of 0 (whole ++ fraction);
      places = length fraction;
    })
    else none

abbrev point_at : Bool → Text → Option Decimal
point_at negative s = elim (split_once b'.' s) [
  | none ↦ unsigned negative s []
  | some (whole, fraction) ↦ unsigned negative whole fraction
]

-- `float(s)`, `none` where it raises `ValueError`.
unfoldable pub float : Text → Option Decimal
unfolding all_digits value_of
float [] = none
float (c ∷ s) = if c == b'-' then point_at true s else point_at false (c ∷ s)

-- `x > 0`
abbrev pub is_positive : Decimal → Bool
is_positive d = not d.negative && ltb 0 d.mantissa

-- A sum of positive numbers.
unfoldable pub add : Decimal → Decimal → Decimal
add a b = record {
  negative = false;
  mantissa = a.mantissa * pow10 (b.places - a.places) + b.mantissa * pow10 (a.places - b.places);
  places = max a.places b.places;
}

abbrev nothing : Decimal
nothing = record { negative = false; mantissa = 0; places = 0 }

unfoldable pub sum : List Decimal → Decimal
unfolding add
sum [] = nothing
sum (d ∷ ds) = add d (sum ds)

-- n / d to the nearest whole number, the even one of two; Python rounds this way.
unfoldable pub nearest : ℕ → ℕ → ℕ
nearest n zero = 0
nearest n (suc d) =
    let q = n / suc d in
    let r = n % suc d in
    if ltb (2 * r) (suc d) then q else if ltb (suc d) (2 * r) then suc q else q + q % 2

-- `round(x, 2)` of a number that is not negative, in hundredths.
unfoldable pub hundredths : Decimal → ℕ
unfolding pow10 nearest
hundredths d = nearest (d.mantissa * 100) (pow10 d.places)

-- `str(n)`, on as much fuel as the number is large.
unfoldable pub digits : ℕ → ℕ → Text
digits zero n = []
digits (suc fuel) n =
    if ltb n 10 then (b'0' + n) ∷ [] else digits fuel (n / 10) ++ (b'0' + n % 10) ∷ []

unfoldable pub show_nat : ℕ → Text
unfolding digits
show_nat n = digits (suc n) n

-- n with leading zeros, as `places` digits.
unfoldable pub padded : ℕ → ℕ → Text
padded zero n = []
padded (suc places) n = padded places (n / 10) ++ (b'0' + n % 10) ∷ []

abbrev is_zero : ℕ → Bool
is_zero c = c == b'0'

abbrev zero_if_empty : Text → Text
zero_if_empty [] = codes "0"
zero_if_empty (c ∷ s) = c ∷ s

-- `str(x)`: the fraction without trailing zeros, but with a digit.
unfoldable pub show_decimal : Decimal → Text
unfolding show_nat padded pow10 rstrip
show_decimal d =
    (if d.negative then codes "-" else [])
    ++ (show_nat (d.mantissa / pow10 d.places)
        ++ (codes "."
            ++ zero_if_empty (rstrip is_zero (padded d.places (d.mantissa % pow10 d.places)))))
