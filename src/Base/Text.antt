-- ===== src/Base/Text.antt =====
-- Strings as the list of their characters (Unicode scalar values), for the strings that the relay
-- walks: `str::trim`, `str::is_empty` and `str::splitn` of the Rust standard library. Texts that
-- the relay only passes on, such as messages, are native strings.
use Prim.Native.Char.{code}
use enigma_relay.Base.{
  ℕ, ◌≡◌, ◌≢◌, Bool, true, false, ◌&&◌, ◌||◌, Option, none, some, String, List, [], ◌∷◌, ◌++◌,
  arith, leb, eqb, if◌then◌else◌, All,
}
use mathlib.Core.List.{reverse}

abbrev pub Text : Type 0
Text = List ℕ

abbrev pub codes : String → Text
codes String.[] = []
codes (String.◌∷◌ c s) = code c ∷ codes s

-- `char::is_whitespace`: the property White_Space of Unicode.
unfoldable pub is_whitespace : ℕ → Bool
is_whitespace c =
    (leb 0x9 c && leb c 0xD)
    || eqb c 0x20
    || eqb c 0x85
    || eqb c 0xA0
    || eqb c 0x1680
    || (leb 0x2000 c && leb c 0x200A)
    || eqb c 0x2028
    || eqb c 0x2029
    || eqb c 0x202F
    || eqb c 0x205F
    || eqb c 0x3000

unfoldable pub trim_start : Text → Text
unfolding is_whitespace
trim_start [] = []
trim_start (c ∷ s) = let rest = trim_start s in if is_whitespace c then rest else c ∷ s

unfoldable pub trim : Text → Text
unfolding trim_start
trim s = reverse (trim_start (reverse (trim_start s)))

abbrev pub is_empty : Text → Bool
is_empty [] = true
is_empty (c ∷ s) = false

-- `s.splitn(2, c)`: what stands before the first `c`, and what stands after it if there is one.
unfoldable pub split_once : ℕ → Text → Text × Option Text
split_once c [] = ([], none)
split_once c (x ∷ s) =
    let (before, after) = split_once c s in if eqb x c then ([], some s) else (x ∷ before, after)

abbrev pub Lacks : ℕ → Text → Type 0
Lacks c = All (λ x. x ≢ c)

pub split_once-append : (c : ℕ) (s t : Text) → Lacks c s → split_once c (s ++ c ∷ t) ≡ (s, some t)
unfolding split_once
split_once-append c [] t h = ground arith
split_once-append c (x ∷ s) t h = ground (arith, split_once-append c s t h.1)

-- `s.split(c)`: the parts between the characters `c`.
abbrev cons_first : ℕ → List Text → List Text
cons_first x [] = (x ∷ []) ∷ []
cons_first x (part ∷ parts) = (x ∷ part) ∷ parts

unfoldable pub split : ℕ → Text → List Text
split c [] = [] ∷ []
split c (x ∷ s) = let parts = split c s in if eqb x c then [] ∷ parts else cons_first x parts

pub split-append : (c : ℕ) (s t : Text) → Lacks c s → split c (s ++ c ∷ t) ≡ s ∷ split c t
unfolding split
split-append c [] t h = ground arith
split-append c (x ∷ s) t h = ground (arith, split-append c s t h.1)
