-- ===== src/Error/Action.antt =====
-- Steps that keep a state and may end in an error of src/error.rs: `?` in a body with side effects.
use enigma_relay.Error.{Result, ok, err}

-- An error ends the rest, in the state that it leaves.
abbrev pub Action {ℓ} : Type 0 → Type ℓ → Type ℓ
Action S A = S → Result A × S

infixl 5 ◌>>=◌ ◌>>◌
unfoldable pub ◌>>=◌ {ℓ κ} :
    {S : Type 0} {A : Type ℓ} {B : Type κ} → Action S A → (A → Action S B) → Action S B
(m >>= k) s = let (r, s') = m s in elim r [ ok a ↦ k a s' | err e ↦ (err e, s') ]

abbrev pub ◌>>◌ {ℓ} : {S : Type 0} {B : Type ℓ} → Action S (Unit {0}) → Action S B → Action S B
m >> k = m >>= λ _. k

abbrev pub lift {ℓ} : {S : Type 0} {A : Type ℓ} → Result A → Action S A
lift r s = (r, s)
