-- ===== src/Base/Sort.antt =====
-- `Vec<String>::sort`: strings in the order of their UTF-8 bytes, which is that of their characters.
use enigma_relay.Base.Eq.{list_eq, ◌==◌}
use enigma_relay.Base.{◌≡◌, refl, arith, Bool, true, false, List, [], ◌∷◌, ltb, eqb, if◌then◌else◌}
use enigma_relay.Base.Text.{Text}

unfoldable pub text_leb : Text → Text → Bool
text_leb [] t = true
text_leb (c ∷ s) [] = false
text_leb (c ∷ s) (d ∷ t) = if ltb c d then true else if eqb c d then text_leb s t else false

unfoldable pub place : Text → List Text → List Text
place s [] = s ∷ []
place s (t ∷ ts) = if text_leb s t then s ∷ t ∷ ts else t ∷ place s ts

unfoldable pub sort : List Text → List Text
sort [] = []
sort (s ∷ ss) = place s (sort ss)

-- Sorting keeps the members of a list.
abbrev pub elem : Text → List Text → Bool
elem s [] = false
elem s (t ∷ ts) = if t == s then true else elem s ts

elem-place : (r s : Text) (ts : List Text) → elem r (place s ts) ≡ elem r (s ∷ ts)
unfolding place
elem-place r s [] = refl
elem-place r s (t ∷ ts) = ground (arith, elem-place r s ts)

pub elem-sort : (r : Text) (ss : List Text) → elem r (sort ss) ≡ elem r ss
unfolding sort
elem-sort r [] = refl
elem-sort r (s ∷ ss) = ground (arith, elem-place r s (sort ss), elem-sort r ss)
