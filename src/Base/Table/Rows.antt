-- ===== src/Base/Table/Rows.antt =====
-- Properties of all rows of a table, and sums over them, under each write.
use easy_point_api.Base.Int.{ℤ, pos, ◌+ℤ◌, int_laws}
use easy_point_api.Base.Table.{Table, lookup, put, delete}
use easy_point_api.Base.Tests.{Bool-cases}
use easy_point_api.Base.Lists.{keep_if}
use mathlib.Core.Bool.{Bool}
use mathlib.Core.Logic.{inl, inr}
use mathlib.Core.Path.{◌≡◌}
use mathlib.Core.Option.{some}
use mathlib.Core.List.{[], ◌∷◌}
use native.Mathlib.Omega.{arith}
use Prim.Native.Nat.{ℕ}

module _ {V : Type 0} where
  abbrev pub AllRows : (V → Type 0) → Table V → Type 0
  AllRows P [] = Unit
  AllRows P ((j, w) ∷ t) = P w × AllRows P t

  module _ (P : V → Type 0) where
    pub AllRows-lookup : (k : ℕ) {v : V} (t : Table V) → AllRows P t → lookup k t ≡ some v → P v
    unfolding lookup
    AllRows-lookup k {v} [] h e = cc
    AllRows-lookup k {v} ((j, w) ∷ t) h e = ground (arith, AllRows-lookup k {v = v} t h.1)

    pub AllRows-put : (k : ℕ) (v : V) (t : Table V) → AllRows P t → P v → AllRows P (put k v t)
    unfolding put
    AllRows-put k v [] h p = tt
    AllRows-put k v ((j, w) ∷ t) h p = ground (arith, AllRows-put k v t h.1 p)

    pub AllRows-delete : (k : ℕ) (t : Table V) → AllRows P t → AllRows P (delete k t)
    unfolding delete
    AllRows-delete k [] h = tt
    AllRows-delete k ((j, w) ∷ t) h = ground (arith, AllRows-delete k t h.1)

    pub AllRows-keep_if :
        (p : V → Bool) (t : Table V) → AllRows P t → AllRows P (keep_if (λ (r : ℕ × V). p r.1) t)
    AllRows-keep_if p [] h = tt
    AllRows-keep_if p ((j, w) ∷ t) h = elim (Bool-cases (p w)) [
      | inl e ↦ rw e (h.0, AllRows-keep_if p t h.1)
      | inr e ↦ rw e (AllRows-keep_if p t h.1)
    ]

  abbrev pub sum_rows : (V → ℤ) → Table V → ℤ
  sum_rows f [] = pos 0
  sum_rows f ((j, w) ∷ t) = f w +ℤ sum_rows f t

  pub sum_rows-delete :
      (f : V → ℤ) (k : ℕ) {v : V} (t : Table V)
      → lookup k t ≡ some v
      → sum_rows f (delete k t) +ℤ f v ≡ sum_rows f t
  unfolding lookup delete
  sum_rows-delete f k {v} [] e = cc
  sum_rows-delete f k {v} ((j, w) ∷ t) e = grind (int_laws, sum_rows-delete f k {v = v} t)
