-- ===== src/Base/Decimal.antt =====
-- Decimal numerals of u64 values: `format!("{:020}", n)` and `str::parse::<u64>` of the Rust
-- standard library.
pub mod Order
use enigma_relay.Base.{
  ℕ, zero, suc, ◌+◌, ◌-◌, ◌*◌, ◌/◌, ◌%◌, ◌≤◌, ◌<◌, ◌≡◌, refl, ◌∙◌, Bool, ◌&&◌, Option, none, some,
  [], ◌∷◌, ◌++◌, arith, leb, eqb, if◌then◌else◌, length, length-append, u64_max, All, ◌^◌,
}
use enigma_relay.Base.Text.{Text}

-- Twenty digits hold every u64 value.
abbrev max_digits : ℕ
max_digits = 20

-- The digits of `n`, in front of `rest`.
unfoldable pub digits_from : ℕ → ℕ → Text → Text
digits_from zero n rest = rest
digits_from (suc fuel) n rest =
    let digit = b'0' + n % 10 in
    let more = digits_from fuel (n / 10) (digit ∷ rest) in
    if eqb (n / 10) 0 then digit ∷ rest else more

abbrev pub replicate : ℕ → ℕ → Text
replicate zero c = []
replicate (suc n) c = c ∷ replicate n c

unfoldable pub pad_zero : ℕ → Text → Text
pad_zero width s = replicate (width - length s) b'0' ++ s

-- `{:020}`
unfoldable pub format_020 : ℕ → Text
unfolding digits_from pad_zero
format_020 n = pad_zero 20 (digits_from max_digits n [])

-- `{:010}`
unfoldable pub format_010 : ℕ → Text
unfolding pad_zero
format_010 n = pad_zero 10 (digits_from max_digits n [])

is_digit : ℕ → Bool
is_digit c = leb b'0' c && leb c b'9'

-- Each digit is multiplied in and added, with a check for overflow.
unfoldable pub parse_digits : ℕ → Text → Option ℕ
unfolding is_digit
parse_digits acc [] = some acc
parse_digits acc (c ∷ s) =
    let next = acc * 10 + (c - b'0') in
    let rest = parse_digits next s in
    if is_digit c then (if leb next u64_max then rest else none) else none

-- A sign `+` may stand in front of the digits, of which there must be one.
unfoldable pub parse_u64 : Text → Option ℕ
unfolding parse_digits
parse_u64 [] = none
parse_u64 (c ∷ []) = if eqb c b'+' then none else parse_digits 0 (c ∷ [])
parse_u64 (c ∷ d ∷ s) = if eqb c b'+' then parse_digits 0 (d ∷ s) else parse_digits 0 (c ∷ d ∷ s)

abbrev pow10 : ℕ → ℕ
pow10 zero = 1
pow10 (suc n) = 10 * pow10 n

parse_digits_step :
    (acc n : ℕ) (s : Text)
    → acc * 10 + n % 10 ≤ u64_max
    → parse_digits acc ((b'0' + n % 10) ∷ s) ≡ parse_digits (acc * 10 + n % 10) s
unfolding parse_digits
parse_digits_step acc n s h = ground arith

parse_digits-digits_from :
    (fuel n : ℕ) (rest : Text)
    → n < pow10 (suc fuel)
    → n ≤ u64_max
    → parse_digits 0 (digits_from (suc fuel) n rest) ≡ parse_digits n rest
unfolding digits_from
parse_digits-digits_from zero n rest h b = ground (arith, parse_digits_step 0 n rest (omega arith))
parse_digits-digits_from (suc fuel) n rest h b = ground (
  arith,
  parse_digits_step 0 n rest,
  parse_digits_step (n / 10) n rest,
  parse_digits-digits_from fuel (n / 10) ((b'0' + n % 10) ∷ rest),
)

parse_digits_zeros : (k : ℕ) (s : Text) → parse_digits 0 (replicate k b'0' ++ s) ≡ parse_digits 0 s
unfolding parse_digits
parse_digits_zeros zero s = refl
parse_digits_zeros (suc k) s = parse_digits_zeros k s

abbrev StartsDigit : Text → Type 0
StartsDigit [] = ⊥
StartsDigit (c ∷ s) = b'0' ≤ c

digits_from-StartsDigit :
    (fuel n : ℕ) (rest : Text) → StartsDigit rest → StartsDigit (digits_from fuel n rest)
unfolding digits_from
digits_from-StartsDigit zero n rest h = h
digits_from-StartsDigit (suc fuel) n rest h =
    ground (arith, digits_from-StartsDigit fuel (n / 10) ((b'0' + n % 10) ∷ rest))

pad_zero-StartsDigit : (k : ℕ) (s : Text) → StartsDigit s → StartsDigit (pad_zero k s)
unfolding pad_zero
pad_zero-StartsDigit k s h = replicate-StartsDigit (k - length s)
  where
    replicate-StartsDigit : (n : ℕ) → StartsDigit (replicate n b'0' ++ s)
    replicate-StartsDigit zero = h
    replicate-StartsDigit (suc n) = omega arith

parse_u64_of_StartsDigit : (s : Text) → StartsDigit s → parse_u64 s ≡ parse_digits 0 s
unfolding parse_u64
parse_u64_of_StartsDigit [] h = absurd h
parse_u64_of_StartsDigit (c ∷ []) h = ground arith
parse_u64_of_StartsDigit (c ∷ d ∷ s) h = ground arith

digits_from-suc-StartsDigit :
    (fuel n : ℕ) (rest : Text) → StartsDigit (digits_from (suc fuel) n rest)
unfolding digits_from
digits_from-suc-StartsDigit fuel n rest =
    ground (arith, digits_from-StartsDigit fuel (n / 10) ((b'0' + n % 10) ∷ rest))

parse_u64-pad_zero :
    (width fuel n : ℕ)
    → n < pow10 (suc fuel)
    → n ≤ u64_max
    → parse_u64 (pad_zero width (digits_from (suc fuel) n [])) ≡ some n
unfolding pad_zero parse_digits
parse_u64-pad_zero width fuel n h b =
    let digits = digits_from (suc fuel) n [] in
    parse_u64_of_StartsDigit (pad_zero width digits)
      (pad_zero-StartsDigit width digits (digits_from-suc-StartsDigit fuel n []))
    ∙ parse_digits_zeros (width - length digits) digits
    ∙ parse_digits-digits_from fuel n [] h b

-- A number is read back from its twenty digits.
pub parse_u64-format_020 : (n : ℕ) → n ≤ u64_max → parse_u64 (format_020 n) ≡ some n
unfolding format_020
parse_u64-format_020 n h = parse_u64-pad_zero 20 19 n (omega arith) h

pub parse_u64-format_010 : (n : ℕ) → n ≤ u64_max → parse_u64 (format_010 n) ≡ some n
unfolding format_010
parse_u64-format_010 n h = parse_u64-pad_zero 10 19 n (omega arith) h

length-replicate : (k c : ℕ) → length (replicate k c) ≡ k
length-replicate zero c = refl
length-replicate (suc k) c = omega (arith, length-replicate k c)

length-digits_from-le :
    (width fuel n : ℕ) (rest : Text)
    → n < pow10 (suc width)
    → length (digits_from fuel n rest) ≤ suc width + length rest
unfolding digits_from
length-digits_from-le width zero n rest h = omega arith
length-digits_from-le zero (suc fuel) n rest h = ground arith
length-digits_from-le (suc width) (suc fuel) n rest h =
    ground (arith, length-digits_from-le width fuel (n / 10) ((b'0' + n % 10) ∷ rest))

pub length-format_010 : (n : ℕ) → n < 10 ^ 10 → length (format_010 n) ≡ 10
unfolding format_010 pad_zero
length-format_010 n h =
    let digits = digits_from 20 n [] in
    omega (
      arith,
      length-append (replicate (10 - length digits) b'0') digits,
      length-replicate (10 - length digits) b'0',
      length-digits_from-le 9 20 n [] (omega arith),
    )

-- The characters of a numeral are ASCII digits.
abbrev pub IsDigit : ℕ → Type 0
IsDigit c = (b'0' ≤ c) × (c ≤ b'9')

digits_from-IsDigit :
    (fuel n : ℕ) (rest : Text) → All IsDigit rest → All IsDigit (digits_from fuel n rest)
unfolding digits_from
digits_from-IsDigit zero n rest h = h
digits_from-IsDigit (suc fuel) n rest h =
    ground (arith, digits_from-IsDigit fuel (n / 10) ((b'0' + n % 10) ∷ rest))

replicate-IsDigit : (k : ℕ) (s : Text) → All IsDigit s → All IsDigit (replicate k b'0' ++ s)
replicate-IsDigit zero s h = h
replicate-IsDigit (suc k) s h = (omega arith, replicate-IsDigit k s h)

pub format_020-IsDigit : (n : ℕ) → All IsDigit (format_020 n)
unfolding format_020
format_020-IsDigit n =
    replicate-IsDigit (20 - length (digits_from 20 n [])) (digits_from 20 n [])
      (digits_from-IsDigit 20 n [] tt)

pub format_010-IsDigit : (n : ℕ) → All IsDigit (format_010 n)
unfolding format_010
format_010-IsDigit n =
    replicate-IsDigit (10 - length (digits_from 20 n [])) (digits_from 20 n [])
      (digits_from-IsDigit 20 n [] tt)

-- A text with a colon in it is no number.
parse_digits-colon : (acc : ℕ) (s t : Text) → parse_digits acc (s ++ b':' ∷ t) ≡ none
unfolding parse_digits
parse_digits-colon acc [] t = ground arith
parse_digits-colon acc (c ∷ s) t = ground (arith, parse_digits-colon (acc * 10 + (c - b'0')) s t)

pub parse_u64-colon : (s t : Text) → parse_u64 (s ++ b':' ∷ t) ≡ none
unfolding parse_u64
parse_u64-colon [] [] = ground arith
parse_u64-colon [] (d ∷ t) = parse_digits-colon 0 [] (d ∷ t)
parse_u64-colon (c ∷ []) t =
    ground (arith, parse_digits-colon 0 (c ∷ []) t, parse_digits-colon 0 [] t)
parse_u64-colon (c ∷ d ∷ s) t =
    ground (arith, parse_digits-colon 0 (c ∷ d ∷ s) t, parse_digits-colon 0 (d ∷ s) t)
