-- ===== src/Base/Map.antt =====
-- Maps as association lists: `HashMap` and `BTreeMap` of the Rust standard library. A `HashMap`
-- keeps the order of first insertion, on which no lemma relies; a `BTreeMap` over u64 keys is
-- written by `insert_sorted` and is kept ascending by its callers.
use enigma_relay.Base.{
  ℕ, suc, ◌+◌, ◌≤◌, ◌≡◌, refl, Bool, true, false, Option, none, some, List, [], ◌∷◌, ◌++◌, arith,
  ltb, if◌then◌else◌, length, eqb, Bool-cases, ◌<◌, inl, inr, sym, ◌∙◌,
}
use mathlib.Core.Path.{subst₂}
use enigma_relay.Base.Eq.{Eq, ◌==◌, nat_eq}

module _ {ℓ κ} {K : Type ℓ} {V : Type κ} ⦃e : Eq K⦄ where
  unfoldable pub lookup : K → List (K × V) → Option V
  lookup key [] = none
  lookup key ((other, value) ∷ rest) = if other == key then some value else lookup key rest

  unfoldable pub insert : K → V → List (K × V) → List (K × V)
  insert key value [] = (key, value) ∷ []
  insert key value ((other, old) ∷ rest) =
      if other == key then (key, value) ∷ rest else (other, old) ∷ insert key value rest

  unfoldable pub remove : K → List (K × V) → List (K × V)
  remove k [] = []
  remove k ((j, v) ∷ m) = let rest = remove k m in if j == k then rest else (j, v) ∷ rest

  pub lookup-insert :
      (k j : K) (v : V) (m : List (K × V))
      → lookup j (insert k v m) ≡ (if k == j then some v else lookup j m)
  unfolding lookup insert
  lookup-insert k j v [] = refl
  lookup-insert k j v ((other, old) ∷ rest) =
      let ih = lookup-insert k j v rest in
      ground (arith, ih, e.same_iff k j, e.same_iff other k, e.same_iff other j)

  pub lookup-insert_self : (k : K) (v : V) (m : List (K × V)) → lookup k (insert k v m) ≡ some v
  lookup-insert_self k v m = rw (lookup-insert, (e.same_iff k k).1 refl)

  -- Of two writes under a key the last one counts.
  pub insert-insert :
      (k : K) (v w : V) (m : List (K × V)) → insert k v (insert k w m) ≡ insert k v m
  unfolding insert
  insert-insert k v w [] = rw ((e.same_iff k k).1 refl)
  insert-insert k v w ((j, u) ∷ m) =
      ground (arith, e.same_iff k k, e.same_iff j k, insert-insert k v w m)

  -- What holds of every entry of a map, and of a new one, holds of every entry after it is written.
  pub insert_induction {μ} :
      (P : K → V → Type μ) (k : K) (v : V) (m : List (K × V))
      → P k v
      → ((j : K) (w : V) → lookup j m ≡ some w → P j w)
      → (j : K) (w : V) → lookup j (insert k v m) ≡ some w
      → P j w
  insert_induction P k v m new old j w found = elim (Bool-cases (k == j)) [
    | inl same ↦
        let value : v ≡ w = cc (hit same, lookup-insert k j v m, found) in
        subst₂ P ((e.same_iff k j).0 same) value new
    | inr other ↦ old j w (sym (miss other) ∙ (sym (lookup-insert k j v m) ∙ found))
  ]
    where
      hit : (k == j) ≡ true → (if k == j then some v else lookup j m) ≡ some v
      hit h = rw h

      miss : (k == j) ≡ false → (if k == j then some v else lookup j m) ≡ lookup j m
      miss h = rw h

  pub lookup-remove :
      (k j : K) (m : List (K × V)) → lookup j (remove k m) ≡ (if k == j then none else lookup j m)
  unfolding lookup remove
  lookup-remove k j [] = ground arith
  lookup-remove k j ((i, w) ∷ m) =
      ground (arith, e.same_iff k j, e.same_iff i k, e.same_iff i j, lookup-remove k j m)

  pub remove_absent : (k : K) (m : List (K × V)) → lookup k m ≡ none → remove k m ≡ m
  unfolding lookup remove
  remove_absent k [] h = refl
  remove_absent k ((i, w) ∷ m) h = ground (arith, remove_absent k m)

  unfoldable pub contains_key : K → List (K × V) → Bool
  unfolding lookup
  contains_key k m = elim (lookup k m) [ none ↦ false | some _ ↦ true ]

module _ {ℓ} {V : Type ℓ} where
  -- `BTreeMap::insert` on a map that is ascending.
  unfoldable pub insert_sorted : ℕ → V → List (ℕ × V) → List (ℕ × V)
  insert_sorted k v [] = (k, v) ∷ []
  insert_sorted k v ((j, w) ∷ m) =
      if ltb k j
      then (k, v) ∷ (j, w) ∷ m
      else if eqb j k
      then (k, v) ∷ m
      else (j, w) ∷ insert_sorted k v m

  -- `range((Excluded(k), Unbounded))`
  unfoldable pub range_after : ℕ → List (ℕ × V) → List (ℕ × V)
  range_after k [] = []
  range_after k ((j, v) ∷ m) = let rest = range_after k m in if ltb k j then (j, v) ∷ rest else rest

  -- The keys of a map are ascending, from `lo` on and below `hi`.
  abbrev pub Ascends : ℕ → ℕ → List (ℕ × V) → Type 0
  Ascends lo hi [] = lo ≤ hi
  Ascends lo hi ((k, v) ∷ m) = (lo ≤ k) × Ascends (suc k) hi m

  pub Ascends-le : (lo hi : ℕ) (m : List (ℕ × V)) → Ascends lo hi m → lo ≤ hi
  Ascends-le lo hi [] h = h
  Ascends-le lo hi ((k, v) ∷ m) h = omega (arith, Ascends-le (suc k) hi m h.1)

  pub Ascends-lower :
      (lo lo' hi : ℕ) (m : List (ℕ × V)) → lo ≤ lo' → Ascends lo' hi m → Ascends lo hi m
  Ascends-lower lo lo' hi [] l h = omega arith
  Ascends-lower lo lo' hi ((k, v) ∷ m) l h = (omega arith, h.1)

  pub Ascends-length : (lo hi : ℕ) (m : List (ℕ × V)) → Ascends lo hi m → lo + length m ≤ hi
  Ascends-length lo hi [] h = omega arith
  Ascends-length lo hi ((k, v) ∷ m) h = omega (arith, Ascends-length (suc k) hi m h.1)

  -- No key below `lo` is found, nor one from `hi` on.
  pub lookup-below : (lo hi k : ℕ) (m : List (ℕ × V)) → Ascends lo hi m → k < lo → lookup k m ≡ none
  unfolding lookup
  lookup-below lo hi k [] h l = refl
  lookup-below lo hi k ((j, v) ∷ m) h l = ground (arith, lookup-below (suc j) hi k m h.1)

  pub lookup-above : (lo hi k : ℕ) (m : List (ℕ × V)) → Ascends lo hi m → hi ≤ k → lookup k m ≡ none
  unfolding lookup
  lookup-above lo hi k [] h l = refl
  lookup-above lo hi k ((j, v) ∷ m) h l =
      ground (arith, Ascends-le (suc j) hi m h.1, lookup-above (suc j) hi k m h.1)

  -- The next key goes to the end.
  pub insert_sorted_end :
      (lo hi : ℕ) (v : V) (m : List (ℕ × V))
      → Ascends lo hi m
      → insert_sorted hi v m ≡ m ++ (hi, v) ∷ []
  unfolding insert_sorted
  insert_sorted_end lo hi v [] h = refl
  insert_sorted_end lo hi v ((j, w) ∷ m) h =
      ground (arith, Ascends-le (suc j) hi m h.1, insert_sorted_end (suc j) hi v m h.1)

  pub Ascends-snoc :
      (lo hi : ℕ) (v : V) (m : List (ℕ × V))
      → Ascends lo hi m
      → Ascends lo (suc hi) (m ++ (hi, v) ∷ [])
  Ascends-snoc lo hi v [] h = omega arith
  Ascends-snoc lo hi v ((j, w) ∷ m) h = (h.0, Ascends-snoc (suc j) hi v m h.1)

  pub Ascends-remove :
      (lo hi k : ℕ) (m : List (ℕ × V)) → Ascends lo hi m → Ascends lo hi (remove k m)
  unfolding remove
  Ascends-remove lo hi k [] h = h
  Ascends-remove lo hi k ((j, w) ∷ m) h =
      let ih = Ascends-remove (suc j) hi k m h.1 in
      elim (Bool-cases (eqb j k)) [
        | inl e ↦ rw e (Ascends-lower lo (suc j) hi (remove k m) (omega arith) ih)
        | inr e ↦ rw e (h.0, ih)
      ]

  -- Removing a key that is there takes one entry out.
  pub length-remove :
      (lo hi k : ℕ) (v : V) (m : List (ℕ × V))
      → Ascends lo hi m
      → lookup k m ≡ some v
      → length m ≡ suc (length (remove k m))
  unfolding lookup remove
  length-remove lo hi k v [] h e = cc
  length-remove lo hi k v ((j, w) ∷ m) h e = ground (
    arith,
    length-remove (suc j) hi k v m h.1,
    remove_absent k m,
    lookup-below (suc j) hi k m h.1,
  )
