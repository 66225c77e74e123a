-- ===== src/Subscriptions/Loop.antt =====
-- The loops of the two jobs over the rows that they have read.
use easy_point_api.Base.{
  ap, ◌≡◌, refl, ◌∙◌, Bool, false, Bool-cases, inl, inr, List, [], ◌∷◌, Option, none, some, ℕ,
  if◌then◌else◌, ==_iff, ◌==◌, arith,
}
use easy_point_api.Base.Table.{Table, lookup, put, lookup-put_self, lookup-put_ne}
use easy_point_api.Base.Table.Fresh.{AreIn}
use easy_point_api.Base.Table.Unique.{HasUniqueKeys, put-HasUniqueKeys}
use easy_point_api.Subscriptions.{
  Subscription, StatusLog, Billing, Outcome, done, thrown, log_of, run_each,
}

abbrev pub Done : (Billing → Type 0) → Outcome → Type 0
Done P (done b) = P b
Done P (thrown b) = ⊥

Done-then :
    (P Q : Billing → Type 0) (k : Billing → Outcome) (o : Outcome)
    → Done P o
    → ((b : Billing) → P b → Done Q (k b))
    → Done Q (elim o [ done b' ↦ k b' | thrown b' ↦ thrown b' ])
Done-then P Q k (done b) h next = next b h
Done-then P Q k (thrown b) h next = h

pub Done-weaken :
    (P Q : Billing → Type 0) (o : Outcome) → Done P o → ((b : Billing) → P b → Q b) → Done Q o
Done-weaken P Q (done b) h f = f b h
Done-weaken P Q (thrown b) h f = h

-- Each round has its own clock.
module _ (act : ℕ → Subscription → Bool) (change : ℕ → Subscription → Subscription)
    (now : ℕ → ℕ) where
  -- What is at a key once a row that was read there has been processed.
  abbrev pub moved : ℕ → Option Subscription → Option Subscription → Option Subscription
  moved j none o = o
  moved j (some s) o = if act j s then some (change j s) else o

  abbrev pub step_rows : ℕ → Subscription → Table Subscription → Table Subscription
  step_rows id s t = if act id s then put id (change id s) t else t

  abbrev pub step_logs : ℕ → Subscription → List StatusLog → List StatusLog
  step_logs id s logs =
      if act id s then log_of (now id) id s.status (change id s).status ∷ logs else logs

  abbrev pub all_logs : Table Subscription → List StatusLog → List StatusLog
  all_logs [] logs = logs
  all_logs ((id, s) ∷ rs) logs = all_logs rs (step_logs id s logs)

  pub record Processed (rs : Table Subscription) (b b' : Billing) : Type 0 where
    pub rows :
        (j : ℕ) → lookup j b'.subscriptions ≡ moved j (lookup j rs) (lookup j b.subscriptions)
    pub logged : b'.logs ≡ all_logs rs b.logs
    pub unique : HasUniqueKeys b'.subscriptions

  lookup_ne-step_rows :
      (j id : ℕ) (s : Subscription) (t : Table Subscription)
      → (j == id) ≡ false
      → lookup j (step_rows id s t) ≡ lookup j t
  lookup_ne-step_rows j id s t e = elim (Bool-cases (act id s)) [
    | inl a ↦ rw a (lookup-put_ne j id (change id s) t (ground arith))
    | inr a ↦ rw a
  ]

  lookup_self-step_rows :
      (id : ℕ) (s : Subscription) (t : Table Subscription)
      → lookup id t ≡ some s
      → lookup id (step_rows id s t) ≡ moved id (some s) (lookup id t)
  lookup_self-step_rows id s t h = elim (Bool-cases (act id s)) [
    | inl a ↦ rw a (lookup-put_self id {w = s} (change id s) t h)
    | inr a ↦ rw a
  ]

  step_rows-HasUniqueKeys :
      (id : ℕ) (s : Subscription) (t : Table Subscription)
      → HasUniqueKeys t
      → HasUniqueKeys (step_rows id s t)
  step_rows-HasUniqueKeys id s t h = elim (Bool-cases (act id s)) [
    | inl a ↦ rw a (put-HasUniqueKeys id (change id s) t h)
    | inr a ↦ rw a h
  ]

  AreIn-step_rows :
      (id : ℕ) (s : Subscription) (rs t : Table Subscription)
      → lookup id rs ≡ none
      → AreIn rs t
      → AreIn rs (step_rows id s t)
  unfolding lookup
  AreIn-step_rows id s [] t h a = tt
  AreIn-step_rows id s ((j, r) ∷ rs) t h a = elim (Bool-cases (id == j)) [
    | inl e ↦ let bad : some r ≡ none = rw e at h in cc
    | inr e ↦
        let other : (j == id) ≡ false = ground arith in
        let rest : lookup id rs ≡ none = rw e at h in
        (lookup_ne-step_rows j id s t other ∙ a.0, AreIn-step_rows id s rs t rest a.1)
  ]

  abbrev pub Stepped : ℕ → Subscription → Billing → Billing → Type 0
  Stepped id s b b' =
      (b'.subscriptions ≡ step_rows id s b.subscriptions) × (b'.logs ≡ step_logs id s b.logs)

  Processed-cons :
      (id : ℕ) (s : Subscription) (rs : Table Subscription) (b b' b'' : Billing)
      → lookup id rs ≡ none
      → lookup id b.subscriptions ≡ some s
      → Stepped id s b b'
      → Processed rs b' b''
      → Processed ((id, s) ∷ rs) b b''
  unfolding lookup
  Processed-cons id s rs b b' b'' fresh here st p = record {
    rows = λ j. elim (Bool-cases (j == id)) [
      | inl e ↦
          let same : j ≡ id = (==_iff j id).0 e in
          rw (e, same)
            (rw (fresh, st.0) at (p.rows id) ∙ lookup_self-step_rows id s b.subscriptions here)
      | inr e ↦ rw e (
          rw st.0 at (p.rows j)
          ∙ ap (moved j (lookup j rs)) (lookup_ne-step_rows j id s b.subscriptions e))
    ];
    logged = rw st.1 at p.logged;
    unique = p.unique;
  }

  pub run_each-Processed :
      (f : ℕ → Subscription → Billing → Outcome)
      → ((id : ℕ) (s : Subscription) (b : Billing)
          → lookup id b.subscriptions ≡ some s
          → Done (Stepped id s b) (f id s b))
      → (rs : Table Subscription) → HasUniqueKeys rs
      → (b : Billing) → HasUniqueKeys b.subscriptions
      → AreIn rs b.subscriptions
      → Done (Processed rs b) (run_each rs f b)
  unfolding run_each lookup
  run_each-Processed f spec [] ur b u a = record { rows = λ j. refl; logged = refl; unique = u }
  run_each-Processed f spec ((id, s) ∷ rs) ur b u a =
      Done-then (Stepped id s b) _ (run_each rs f) (f id s b) (spec id s b a.0) λ b' st.
        Done-weaken (Processed rs b') _ (run_each rs f b')
          (run_each-Processed f spec rs ur.1 b'
            (rw st.0 (step_rows-HasUniqueKeys id s b.subscriptions u))
            (rw st.0 (AreIn-step_rows id s rs b.subscriptions ur.0 a.1)))
          (λ b'' p. Processed-cons id s rs b b' b'' ur.0 a.0 st p)
