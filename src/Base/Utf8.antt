-- ===== src/Base/Utf8.antt =====
-- UTF-8: `str::as_bytes` and `String::from_utf8` of the Rust standard library.
use enigma_relay.Base.{
  ℕ, zero, suc, ◌+◌, ◌-◌, ◌*◌, ◌/◌, ◌%◌, ◌≤◌, ◌<◌, ◌≡◌, refl, ap, sym, append_assoc, Option-cases,
  inl, inr, ◌∙◌, ◌⊎◌, ◌&&◌, Option, none, some, List, [], ◌∷◌, ◌++◌, arith, ltb, leb, eqb,
  if◌then◌else◌, All, All-append,
}
use mathlib.Core.Option
use enigma_relay.Base.Text.{Text}

-- A Unicode scalar value, the values of the type `char`.
abbrev pub IsScalar : ℕ → Type 0
IsScalar c = (c < 0xD800) ⊎ (0xE000 ≤ c) × (c < 0x110000)

unfoldable pub encode_char : ℕ → List ℕ
encode_char c =
    if ltb c 0x80
    then c ∷ []
    else if ltb c 0x800
    then (0xC0 + c / 64) ∷ (0x80 + c % 64) ∷ []
    else if ltb c 0x10000
    then (0xE0 + c / 4096) ∷ (0x80 + c / 64 % 64) ∷ (0x80 + c % 64) ∷ []
    else (0xF0 + c / 262144) ∷ (0x80 + c / 4096 % 64) ∷ (0x80 + c / 64 % 64) ∷ (0x80 + c % 64) ∷ []

unfoldable pub as_bytes : Text → List ℕ
unfolding encode_char
as_bytes [] = []
as_bytes (c ∷ s) = encode_char c ++ as_bytes s

-- Between two characters, or inside one: the number of bytes still to come less one, the bits read
-- so far, and the bounds of the next byte.
pub data State : Type 0 where
  start : State
  inside : ℕ → ℕ → ℕ → ℕ → State

-- A step reads a byte, and gives the character that it completes, if any.
step : State → ℕ → Option (Option ℕ × State)
step start b =
    if ltb b 0x80
    then some (some b, start)
    else if ltb b 0xC2
    then none
    else if ltb b 0xE0
    then some (none, inside 0 (b - 0xC0) 0x80 0xBF)
    else if ltb b 0xF0
    then some (
      none,
      inside 1 (b - 0xE0) (if eqb b 0xE0 then 0xA0 else 0x80) (if eqb b 0xED then 0x9F else 0xBF),
    )
    else if ltb b 0xF5
    then some (
      none,
      inside 2 (b - 0xF0) (if eqb b 0xF0 then 0x90 else 0x80) (if eqb b 0xF4 then 0x8F else 0xBF),
    )
    else none
step (inside zero bits lo hi) b =
    if leb lo b && leb b hi then some (some (bits * 64 + (b - 0x80)), start) else none
step (inside (suc n) bits lo hi) b =
    if leb lo b && leb b hi then some (none, inside n (bits * 64 + (b - 0x80)) 0x80 0xBF) else none

abbrev emit : Option ℕ → Text → Text
emit none s = s
emit (some c) s = c ∷ s

decode : State → List ℕ → Option Text
unfolding step
decode start [] = some []
decode (inside n bits lo hi) [] = none
decode st (b ∷ bs) = elim (step st b) [
  | none ↦ none
  | some (out, next) ↦ Option.map (emit out) (decode next bs)
]

unfoldable pub from_utf8 : List ℕ → Option Text
unfolding decode
from_utf8 = decode start

-- The bytes of a character are read back as that character.
decode-encode_char :
    (c : ℕ) (bs : List ℕ)
    → IsScalar c
    → decode start (encode_char c ++ bs) ≡ Option.map (◌∷◌ c) (decode start bs)
unfolding decode encode_char
decode-encode_char c bs h = ground arith

-- The UTF-8 bytes of a string are read back as that string.
pub from_utf8-as_bytes : (s : Text) → All IsScalar s → from_utf8 (as_bytes s) ≡ some s
unfolding from_utf8 as_bytes
from_utf8-as_bytes [] h = refl
from_utf8-as_bytes (c ∷ s) h =
    decode-encode_char c (as_bytes s) h.0 ∙ ap (Option.map (◌∷◌ c)) (from_utf8-as_bytes s h.1)

-- The bytes of a scalar value are less than 256.
encode_char-lt : (c : ℕ) → IsScalar c → All (λ b. b < 256) (encode_char c)
unfolding encode_char
encode_char-lt c h = ground arith

pub as_bytes-lt : (s : Text) → All IsScalar s → All (λ b. b < 256) (as_bytes s)
unfolding as_bytes
as_bytes-lt [] h = tt
as_bytes-lt (c ∷ s) h =
    All-append (λ b. b < 256) (encode_char c) (as_bytes s) (encode_char-lt c h.0)
      (as_bytes-lt s h.1)

-- `String::from_utf8_lossy`: each maximal run of bytes that begins no character, or a character that
-- is cut short, is read as U+FFFD.
decode_lossy : State → List ℕ → Text
unfolding step
decode_lossy start [] = []
decode_lossy (inside n bits lo hi) [] = 0xFFFD ∷ []
decode_lossy start (b ∷ bs) =
    let skipped = decode_lossy start bs in
    elim (step start b) [
      | none ↦ 0xFFFD ∷ skipped
      | some (out, next) ↦ emit out (decode_lossy next bs)
    ]
decode_lossy (inside n bits lo hi) (b ∷ bs) =
    let skipped = decode_lossy start bs in
    elim (step (inside n bits lo hi) b) [
      | some (out, next) ↦ emit out (decode_lossy next bs)
      | none ↦ elim (step start b) [
        | none ↦ 0xFFFD ∷ 0xFFFD ∷ skipped
        | some (out, next) ↦ 0xFFFD ∷ emit out (decode_lossy next bs)
      ]
    ]

unfoldable pub from_utf8_lossy : List ℕ → Text
unfolding decode_lossy
from_utf8_lossy = decode_lossy start

-- Bytes that are UTF-8 are read as they are by `from_utf8`.
decode_lossy-decode :
    (st : State) (bs : List ℕ) (s : Text) → decode st bs ≡ some s → decode_lossy st bs ≡ s
unfolding decode decode_lossy
decode_lossy-decode start [] s e = cc
decode_lossy-decode (inside n bits lo hi) [] s e = cc
decode_lossy-decode start (b ∷ bs) s e = elim (Option-cases (step start b)) [
  | inl bad ↦ absurd (cc (rw (bad, decode) at e))
  | inr ((out, next), read) ↦ elim (Option-cases (decode next bs)) [
    | inl bad ↦ absurd (cc (rw (read, bad, decode) at e))
    | inr (t, tail) ↦
        rw (read, decode_lossy)
          (ap (emit out) (decode_lossy-decode next bs t tail) ∙ cc (rw (read, tail, decode) at e))
  ]
]
decode_lossy-decode (inside n bits lo hi) (b ∷ bs) s e =
    elim (Option-cases (step (inside n bits lo hi) b)) [
      | inl bad ↦ absurd (cc (rw (bad, decode) at e))
      | inr ((out, next), read) ↦ elim (Option-cases (decode next bs)) [
        | inl bad ↦ absurd (cc (rw (read, bad, decode) at e))
        | inr (t, tail) ↦
            rw (read, decode_lossy)
              (ap (emit out) (decode_lossy-decode next bs t tail)
                ∙ cc (rw (read, tail, decode) at e))
      ]
    ]

pub from_utf8_lossy-as_bytes : (s : Text) → All IsScalar s → from_utf8_lossy (as_bytes s) ≡ s
unfolding from_utf8_lossy from_utf8
from_utf8_lossy-as_bytes s h = decode_lossy-decode start (as_bytes s) s (from_utf8-as_bytes s h)

pub as_bytes-append : (s t : Text) → as_bytes (s ++ t) ≡ as_bytes s ++ as_bytes t
unfolding as_bytes
as_bytes-append [] t = refl
as_bytes-append (c ∷ s) t =
    ap (◌++◌ (encode_char c)) (as_bytes-append s t)
    ∙ sym (append_assoc (encode_char c) (as_bytes s) (as_bytes t))

pub as_bytes_injective :
    (s t : Text) → All IsScalar s → All IsScalar t → as_bytes s ≡ as_bytes t → s ≡ t
as_bytes_injective s t hs ht e =
    cc (from_utf8-as_bytes s hs, from_utf8-as_bytes t ht, ap from_utf8 e)
