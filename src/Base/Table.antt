-- ===== src/Base/Table.antt =====
-- A database table: rows by their primary key, the newest first.
pub mod Rows
pub mod Unique
pub mod Fresh
use Prim.Native.Nat.{ℕ}
use mathlib.Core.Path.{◌≡◌, refl}
use mathlib.Core.Logic.{◌≢◌}
use mathlib.Core.Option.{Option, none, some}
use mathlib.Core.List.{List, [], ◌∷◌}
use native.Mathlib.Omega.{arith}
use easy_point_api.Base.Tests.{◌==◌, if◌then◌else◌}

abbrev pub Table {ℓ} : Type ℓ → Type ℓ
Table V = List (ℕ × V)

module _ {ℓ} {V : Type ℓ} where
  unfoldable pub lookup : ℕ → Table V → Option V
  lookup k [] = none
  lookup k ((j, v) ∷ t) = if k == j then some v else lookup k t

  -- INSERT of a row under a new key
  abbrev pub insert : ℕ → V → Table V → Table V
  insert k v t = (k, v) ∷ t

  -- UPDATE of the row with that key; without one nothing changes
  unfoldable pub put : ℕ → V → Table V → Table V
  put k v [] = []
  put k v ((j, w) ∷ t) = if k == j then (k, v) ∷ t else (j, w) ∷ put k v t

  -- DELETE of the row with that key
  unfoldable pub delete : ℕ → Table V → Table V
  delete k [] = []
  delete k ((j, w) ∷ t) = if k == j then t else (j, w) ∷ delete k t

  pub lookup-insert :
      (j k : ℕ) (v : V) (t : Table V)
      → lookup j (insert k v t) ≡ (if j == k then some v else lookup j t)
  unfolding lookup
  lookup-insert j k v t = refl

  pub lookup-put_self :
      (k : ℕ) {w : V} (v : V) (t : Table V) → lookup k t ≡ some w → lookup k (put k v t) ≡ some v
  unfolding lookup put
  lookup-put_self k {w} v [] h = cc
  lookup-put_self k {w} v ((i, u) ∷ t) h = ground (arith, lookup-put_self k {w = w} v t)

  pub lookup-put_ne : (j k : ℕ) (v : V) (t : Table V) → j ≢ k → lookup j (put k v t) ≡ lookup j t
  unfolding lookup put
  lookup-put_ne j k v [] h = refl
  lookup-put_ne j k v ((i, u) ∷ t) h = ground (arith, lookup-put_ne j k v t h)

  pub lookup-delete_ne : (j k : ℕ) (t : Table V) → j ≢ k → lookup j (delete k t) ≡ lookup j t
  unfolding lookup delete
  lookup-delete_ne j k [] h = refl
  lookup-delete_ne j k ((i, u) ∷ t) h = ground (arith, lookup-delete_ne j k t h)

  -- Map.prototype.set
  unfoldable pub set_key : ℕ → V → Table V → Table V
  set_key k v [] = (k, v) ∷ []
  set_key k v ((j, w) ∷ t) = if k == j then (k, v) ∷ t else (j, w) ∷ set_key k v t

  pub lookup-set_key :
      (j k : ℕ) (v : V) (t : Table V)
      → lookup j (set_key k v t) ≡ (if j == k then some v else lookup j t)
  unfolding lookup set_key
  lookup-set_key j k v [] = refl
  lookup-set_key j k v ((i, w) ∷ t) = ground (arith, lookup-set_key j k v t)
