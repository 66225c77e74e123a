-- ===== src/Base/Table/Unique.antt =====
-- Tables whose keys are different from each other, which a primary key ensures.
use mathlib.Core.Path.{◌≡◌, refl}
use easy_point_api.Base.Tests.{◌==◌}
use easy_point_api.Base.{==_iff, Bool-cases, [], arith, inl, inr, none, ℕ, ◌∷◌}
use easy_point_api.Base.Table.{Table, delete, lookup, put}

module _ {ℓ} {V : Type ℓ} where
  abbrev pub HasUniqueKeys : Table V → Type ℓ
  HasUniqueKeys [] = Unit
  HasUniqueKeys ((k, v) ∷ t) = (lookup k t ≡ none) × HasUniqueKeys t

  pub lookup-delete_self : (k : ℕ) (t : Table V) → HasUniqueKeys t → lookup k (delete k t) ≡ none
  unfolding lookup delete
  lookup-delete_self k [] h = refl
  lookup-delete_self k ((j, w) ∷ t) h = elim (Bool-cases (k == j)) [
    | inl e ↦ let p : k ≡ j = (==_iff k j).0 e in rw (e, p) h.0
    | inr e ↦ rw (e, e) (lookup-delete_self k t h.1)
  ]

  lookup-put-none :
      (j k : ℕ) (v : V) (t : Table V) → lookup j t ≡ none → lookup j (put k v t) ≡ none
  unfolding lookup put
  lookup-put-none j k v [] h = refl
  lookup-put-none j k v ((i, w) ∷ t) h = ground (arith, lookup-put-none j k v t)

  lookup-delete-none : (j k : ℕ) (t : Table V) → lookup j t ≡ none → lookup j (delete k t) ≡ none
  unfolding lookup delete
  lookup-delete-none j k [] h = refl
  lookup-delete-none j k ((i, w) ∷ t) h = ground (arith, lookup-delete-none j k t)

  pub put-HasUniqueKeys :
      (k : ℕ) (v : V) (t : Table V) → HasUniqueKeys t → HasUniqueKeys (put k v t)
  unfolding put
  put-HasUniqueKeys k v [] h = tt
  put-HasUniqueKeys k v ((j, w) ∷ t) h = elim (Bool-cases (k == j)) [
    | inl e ↦ let p : k ≡ j = (==_iff k j).0 e in rw (e, p) h
    | inr e ↦ rw e (lookup-put-none j k v t h.0, put-HasUniqueKeys k v t h.1)
  ]

  pub delete-HasUniqueKeys : (k : ℕ) (t : Table V) → HasUniqueKeys t → HasUniqueKeys (delete k t)
  unfolding delete
  delete-HasUniqueKeys k [] h = tt
  delete-HasUniqueKeys k ((j, w) ∷ t) h = elim (Bool-cases (k == j)) [
    | inl e ↦ rw e h.1
    | inr e ↦ rw e (lookup-delete-none j k t h.0, delete-HasUniqueKeys k t h.1)
  ]
