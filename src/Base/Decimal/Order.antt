-- ===== src/Base/Decimal/Order.antt =====
-- Numerals of twenty digits are in the order of their numbers.
use enigma_relay.Base.{
  ℕ, ◌+◌, ◌-◌, ◌*◌, ◌≤◌, ◌<◌, ◌≡◌, sym, ◌∙◌, false, some, [], ◌∷◌, ◌++◌, arith, length, All,
  u64_max, length-append,
}
use enigma_relay.Base.Text.{Text}
use enigma_relay.Base.Sort.{text_leb}
use enigma_relay.Base.Decimal.{
  format_020, IsDigit, digits_from, pad_zero, parse_digits, parse_u64, is_digit, format_020-IsDigit,
  parse_u64-format_020, replicate, length-replicate, length-digits_from-le,
}

-- The value of a numeral, from what its first digits make up.
value : ℕ → Text → ℕ
value acc [] = acc
value acc (c ∷ s) = value (acc * 10 + (c - b'0')) s

-- A larger start stays larger over as many digits.
value-lt :
    (a b : ℕ) (s t : Text)
    → All IsDigit s
    → All IsDigit t
    → length s ≡ length t
    → a < b
    → value a s < value b t
unfolding value
value-lt a b [] [] hs ht l h = h
value-lt a b [] (d ∷ t) hs ht l h = absurd (omega arith)
value-lt a b (c ∷ s) [] hs ht l h = absurd (omega arith)
value-lt a b (c ∷ s) (d ∷ t) hs ht l h =
    value-lt (a * 10 + (c - b'0')) (b * 10 + (d - b'0')) s t hs.1 ht.1 (omega arith)
      (omega (arith, hs.0, ht.0))

-- The numeral with the smaller value stands first, whatever follows.
text_leb-value :
    (a : ℕ) (s t x y : Text)
    → All IsDigit s
    → All IsDigit t
    → length s ≡ length t
    → value a s < value a t
    → text_leb (t ++ x) (s ++ y) ≡ false
unfolding value text_leb
text_leb-value a [] [] x y hs ht l h = absurd (omega arith)
text_leb-value a [] (d ∷ t) x y hs ht l h = absurd (omega arith)
text_leb-value a (c ∷ s) [] x y hs ht l h = absurd (omega arith)
text_leb-value a (c ∷ s) (d ∷ t) x y hs ht l h = ground (
  arith,
  text_leb-value (a * 10 + (c - b'0')) s t x y hs.1 ht.1,
  value-lt (a * 10 + (d - b'0')) (a * 10 + (c - b'0')) t s ht.1 hs.1,
)

value-parse_digits :
    (acc n : ℕ) (s : Text) → All IsDigit s → parse_digits acc s ≡ some n → value acc s ≡ n
unfolding value parse_digits is_digit
value-parse_digits acc n [] h e = ground arith
value-parse_digits acc n (c ∷ s) h e =
    ground (arith, value-parse_digits (acc * 10 + (c - b'0')) n s h.1)

value-parse_u64 : (n : ℕ) (s : Text) → All IsDigit s → parse_u64 s ≡ some n → value 0 s ≡ n
unfolding parse_u64
value-parse_u64 n [] h e = cc
value-parse_u64 n (c ∷ []) h e = ground (arith, value-parse_digits 0 n (c ∷ []) h)
value-parse_u64 n (c ∷ d ∷ s) h e = ground (arith, value-parse_digits 0 n (c ∷ d ∷ s) h)

value-format_020 : (n : ℕ) → n ≤ u64_max → value 0 (format_020 n) ≡ n
value-format_020 n h =
    value-parse_u64 n (format_020 n) (format_020-IsDigit n) (parse_u64-format_020 n h)

pub length-format_020 : (n : ℕ) → n ≤ u64_max → length (format_020 n) ≡ 20
unfolding format_020 pad_zero
length-format_020 n h =
    let digits = digits_from 20 n [] in
    omega (
      arith,
      length-append (replicate (20 - length digits) b'0') digits,
      length-replicate (20 - length digits) b'0',
      length-digits_from-le 19 20 n [] (omega arith),
    )

-- The numeral of a smaller number stands first, whatever follows the two.
pub format_020-after :
    (m n : ℕ) (x y : Text)
    → m < n
    → n ≤ u64_max
    → text_leb (format_020 n ++ x) (format_020 m ++ y) ≡ false
format_020-after m n x y l h =
    text_leb-value 0 (format_020 m) (format_020 n) x y (format_020-IsDigit m) (format_020-IsDigit n)
      (length-format_020 m (omega arith) ∙ sym (length-format_020 n h))
      (omega (arith, value-format_020 m (omega arith), value-format_020 n h))
