-- ===== src/Dict.antt =====
-- Python's `dict`, as an association list in insertion order: an assignment to a key that is there
-- keeps its place, and a new key goes to the end.
use smart_pdf_extractor.Prelude.{
  ◌≡◌, refl, Option, none, some, List, [], ◌∷◌, arith, if◌then◌else◌, SameTest, ◌==◌, Bool, select,
}

abbrev pub Dict {ℓ κ} : Type ℓ → Type κ → Type (ℓ ⊔ κ)
Dict K V = List (K × V)

module _ {ℓ κ} {K : Type ℓ} {V : Type κ} ⦃key : SameTest K⦄ where
  -- `d.get(k)`
  unfoldable pub lookup : K → Dict K V → Option V
  lookup k [] = none
  lookup k ((j, v) ∷ d) = if j == k then some v else lookup k d

  -- `d[k] = v`
  unfoldable pub put : K → V → Dict K V → Dict K V
  put k v [] = (k, v) ∷ []
  put k v ((j, w) ∷ d) = if j == k then (j, v) ∷ d else (j, w) ∷ put k v d

  -- `d.pop(k, None)`
  unfoldable pub remove : K → Dict K V → Dict K V
  remove k [] = []
  remove k ((j, w) ∷ d) = let rest = remove k d in if j == k then rest else (j, w) ∷ rest

  pub lookup-put :
      (k j : K) (v : V) (d : Dict K V)
      → lookup j (put k v d) ≡ (if k == j then some v else lookup j d)
  unfolding lookup put
  lookup-put k j v [] = refl
  lookup-put k j v ((i, w) ∷ d) =
      ground (arith, key.same_iff k j, key.same_iff i k, key.same_iff i j, lookup-put k j v d)

  pub lookup-put_same : (k : K) (v : V) (d : Dict K V) → lookup k (put k v d) ≡ some v
  lookup-put_same k v d = ground (arith, lookup-put k k v d, key.same_iff k k)

  pub lookup-remove :
      (k j : K) (d : Dict K V) → lookup j (remove k d) ≡ (if k == j then none else lookup j d)
  unfolding lookup remove
  lookup-remove k j [] = ground arith
  lookup-remove k j ((i, w) ∷ d) =
      ground (arith, key.same_iff k j, key.same_iff i k, key.same_iff i j, lookup-remove k j d)

  -- No key stands twice.
  abbrev pub UniqueKeys : Dict K V → Type κ
  UniqueKeys [] = Unit
  UniqueKeys ((k, v) ∷ d) = (lookup k d ≡ none) × UniqueKeys d

  pub put-UniqueKeys : (k : K) (v : V) (d : Dict K V) → UniqueKeys d → UniqueKeys (put k v d)
  unfolding lookup put
  put-UniqueKeys k v [] h = (refl, tt)
  put-UniqueKeys k v ((i, w) ∷ d) h =
      ground
        (arith, put-UniqueKeys k v d h.1, lookup-put k i v d, key.same_iff k i, key.same_iff i k)

  pub remove-UniqueKeys : (k : K) (d : Dict K V) → UniqueKeys d → UniqueKeys (remove k d)
  unfolding lookup remove
  remove-UniqueKeys k [] h = tt
  remove-UniqueKeys k ((i, w) ∷ d) h =
      ground (arith, remove-UniqueKeys k d h.1, lookup-remove k i d)

  pub remove_missing : (k : K) (d : Dict K V) → lookup k d ≡ none → remove k d ≡ d
  unfolding lookup remove
  remove_missing k [] h = refl
  remove_missing k ((i, w) ∷ d) h = ground (arith, remove_missing k d)

  pub lookup-select :
      (k : K) (p : K × V → Bool) (d : Dict K V) → lookup k d ≡ none → lookup k (select p d) ≡ none
  unfolding lookup
  lookup-select k p [] h = refl
  lookup-select k p ((i, w) ∷ d) h = ground (arith, lookup-select k p d)
