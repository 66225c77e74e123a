-- ===== src/Base/Table/Fresh.antt =====
-- Tables whose keys were all drawn before, and the rows that are read from them.
use mathlib.Core.Path.{◌≡◌, refl}
use easy_point_api.Base.Tests.{◌==◌}
use easy_point_api.Base.{
  ==_iff, ==_refl, Bool, Bool-cases, [], arith, inl, inr, none, some, ℕ, suc, ◌∷◌, ◌++◌, ◌<◌, false,
  keep_if, if◌then◌else◌, sym, ◌∙◌, ap, Option, ◌++◌,
}
use easy_point_api.Base.Table.{Table, lookup, put, lookup-put_ne}
use easy_point_api.Base.Table.Unique.{HasUniqueKeys}

module _ {V : Type 0} where
  -- Every key is below `n`.
  abbrev pub KeysBelow : ℕ → Table V → Type 0
  KeysBelow n [] = Unit
  KeysBelow n ((k, v) ∷ t) = (k < n) × KeysBelow n t

  pub KeysBelow-suc : (n : ℕ) (t : Table V) → KeysBelow n t → KeysBelow (suc n) t
  KeysBelow-suc n [] h = tt
  KeysBelow-suc n ((k, v) ∷ t) h = (omega arith, KeysBelow-suc n t h.1)

  pub lookup-KeysBelow : (n : ℕ) (t : Table V) → KeysBelow n t → lookup n t ≡ none
  unfolding lookup
  lookup-KeysBelow n [] h = refl
  lookup-KeysBelow n ((k, v) ∷ t) h = ground (arith, lookup-KeysBelow n t h.1)

  pub KeysBelow-lookup :
      (n k : ℕ) {v : V} (t : Table V) → KeysBelow n t → lookup k t ≡ some v → k < n
  unfolding lookup
  KeysBelow-lookup n k {v} [] h e = cc
  KeysBelow-lookup n k {v} ((j, w) ∷ t) h e = ground (arith, KeysBelow-lookup n k {v = v} t h.1)

  pub put-KeysBelow : (n k : ℕ) (v : V) (t : Table V) → KeysBelow n t → KeysBelow n (put k v t)
  unfolding put
  put-KeysBelow n k v [] h = tt
  put-KeysBelow n k v ((j, w) ∷ t) h = elim (Bool-cases (k == j)) [
    | inl e ↦ rw e (ground arith, h.1)
    | inr e ↦ rw e (h.0, put-KeysBelow n k v t h.1)
  ]

  abbrev pub keep_rows : (V → Bool) → Table V → Table V
  keep_rows p = keep_if (λ (r : ℕ × V). p r.1)

  module _ (p : V → Bool) where
    pub keep_rows-KeysBelow : (n : ℕ) (t : Table V) → KeysBelow n t → KeysBelow n (keep_rows p t)
    keep_rows-KeysBelow n [] h = tt
    keep_rows-KeysBelow n ((k, v) ∷ t) h = elim (Bool-cases (p v)) [
      | inl e ↦ rw e (h.0, keep_rows-KeysBelow n t h.1)
      | inr e ↦ rw e (keep_rows-KeysBelow n t h.1)
    ]

    pub lookup-keep_rows-none :
        (k : ℕ) (t : Table V) → lookup k t ≡ none → lookup k (keep_rows p t) ≡ none
    unfolding lookup
    lookup-keep_rows-none k [] h = refl
    lookup-keep_rows-none k ((j, v) ∷ t) h = elim (Bool-cases (p v)) [
      | inl e ↦ rw e (ground (arith, lookup-keep_rows-none k t))
      | inr e ↦ rw e (ground (arith, lookup-keep_rows-none k t))
    ]

    pub keep_rows-HasUniqueKeys : (t : Table V) → HasUniqueKeys t → HasUniqueKeys (keep_rows p t)
    keep_rows-HasUniqueKeys [] h = tt
    keep_rows-HasUniqueKeys ((k, v) ∷ t) h = elim (Bool-cases (p v)) [
      | inl e ↦ rw e (lookup-keep_rows-none k t h.0, keep_rows-HasUniqueKeys t h.1)
      | inr e ↦ rw e (keep_rows-HasUniqueKeys t h.1)
    ]

  -- What a test leaves of a row.
  abbrev pub select : (V → Bool) → Option V → Option V
  select p none = none
  select p (some v) = if p v then some v else none

  pub lookup-keep_rows :
      (p : V → Bool) (j : ℕ) (t : Table V)
      → HasUniqueKeys t
      → lookup j (keep_rows p t) ≡ select p (lookup j t)
  unfolding lookup
  lookup-keep_rows p j [] u = refl
  lookup-keep_rows p j ((k, s) ∷ t) u = elim (Bool-cases (p s)) [
    | inl a ↦ elim (Bool-cases (j == k)) [
      | inl e ↦ rw (a, e) (rw a)
      | inr e ↦ rw (a, e) (lookup-keep_rows p j t u.1)
    ]
    | inr a ↦ elim (Bool-cases (j == k)) [
      | inl e ↦
          let same : j ≡ k = (==_iff j k).0 e in
          rw (a, e) (rw (same, a) (lookup-keep_rows p k t u.1 ∙ ap (select p) u.0))
      | inr e ↦ rw (a, e) (lookup-keep_rows p j t u.1)
    ]
  ]

  -- The rows of a list are in the table.
  abbrev pub AreIn : Table V → Table V → Type 0
  AreIn [] t = Unit
  AreIn ((id, s) ∷ rs) t = (lookup id t ≡ some s) × AreIn rs t

  pub AreIn-cons :
      (k : ℕ) (s : V) (rs t : Table V) → lookup k t ≡ none → AreIn rs t → AreIn rs ((k, s) ∷ t)
  unfolding lookup
  AreIn-cons k s [] t fresh a = tt
  AreIn-cons k s ((id, r) ∷ rs) t fresh a = elim (Bool-cases (id == k)) [
    | inl e ↦
        let same : id ≡ k = (==_iff id k).0 e in
        let bad : none ≡ some r = sym fresh ∙ rw same at a.0 in cc
    | inr e ↦ (rw e a.0, AreIn-cons k s rs t fresh a.1)
  ]

  pub AreIn-keep_rows : (p : V → Bool) (t : Table V) → HasUniqueKeys t → AreIn (keep_rows p t) t
  unfolding lookup
  AreIn-keep_rows p [] u = tt
  AreIn-keep_rows p ((k, s) ∷ t) u =
      let rest = AreIn-cons k s (keep_rows p t) t u.0 (AreIn-keep_rows p t u.1) in
      elim (Bool-cases (p s)) [ inl a ↦ rw (a, ==_refl k) (refl, rest) | inr a ↦ rw a rest ]

  pub AreIn-put :
      (k : ℕ) (v : V) (rs t : Table V) → lookup k rs ≡ none → AreIn rs t → AreIn rs (put k v t)
  unfolding lookup
  AreIn-put k v [] t fresh a = tt
  AreIn-put k v ((id, r) ∷ rs) t fresh a = elim (Bool-cases (k == id)) [
    | inl e ↦ let bad : some r ≡ none = rw e at fresh in cc
    | inr e ↦ (lookup-put_ne id k v t (ground arith) ∙ a.0, AreIn-put k v rs t (rw e at fresh) a.1)
  ]

  pub lookup-snoc :
      (j k : ℕ) (v : V) (t : Table V)
      → lookup j t ≡ none
      → (j == k) ≡ false
      → lookup j (t ++ (k, v) ∷ []) ≡ none
  unfolding lookup
  lookup-snoc j k v [] h e = rw e
  lookup-snoc j k v ((i, w) ∷ t) h e = elim (Bool-cases (j == i)) [
    | inl m ↦ let bad : some w ≡ none = rw m at h in cc
    | inr m ↦ rw m (lookup-snoc j k v t (rw m at h) e)
  ]

  pub snoc-HasUniqueKeys :
      (k : ℕ) (v : V) (t : Table V)
      → lookup k t ≡ none
      → HasUniqueKeys t
      → HasUniqueKeys (t ++ (k, v) ∷ [])
  unfolding lookup
  snoc-HasUniqueKeys k v [] h u = (refl, tt)
  snoc-HasUniqueKeys k v ((i, w) ∷ t) h u = elim (Bool-cases (k == i)) [
    | inl m ↦ let bad : some w ≡ none = rw m at h in cc
    | inr m ↦ (lookup-snoc i k v t u.0 (ground arith), snoc-HasUniqueKeys k v t (rw m at h) u.1)
  ]

  pub AreIn-snoc :
      (k : ℕ) (v : V) (rs t : Table V)
      → AreIn rs t
      → lookup k t ≡ some v
      → AreIn (rs ++ (k, v) ∷ []) t
  AreIn-snoc k v [] t a h = (h, tt)
  AreIn-snoc k v (r ∷ rs) t a h = (a.0, AreIn-snoc k v rs t a.1 h)
