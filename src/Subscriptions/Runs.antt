-- ===== src/Subscriptions/Runs.antt =====
-- Sequences of nightly runs.
use easy_point_api.Base.{
  ◌≡◌, ap, ◌∙◌, ◌⊎◌, true, inl, inr, List, [], ◌∷◌, ◌++◌, Option, none, some, ℕ, ◌≤◌, ◌<◌, ◌+◌, ◌*◌,
  All, arith,
}
use easy_point_api.Base.Table.{lookup}
use easy_point_api.Base.Table.Unique.{HasUniqueKeys}
use easy_point_api.Subscriptions.{
  Clock, Subscription, SubscriptionStatus, Billing, lapsed, expired, is_due, earlier, first_expired,
  day_ms, process_subscription_lifecycle,
}
use easy_point_api.Subscriptions.Nightly.{nightly, logged_after, mapped, Night, process-Night}

-- The runs of the cron job, each with what its clocks read.
unfoldable pub runs : ℕ → List Clock → Billing → Billing
runs grace_days [] b = b
runs grace_days (clock ∷ clocks) b =
    runs grace_days clocks (process_subscription_lifecycle grace_days clock b)

abbrev pub status_in : Option Subscription → Option SubscriptionStatus
status_in none = none
status_in (some s) = some s.status

-- The status that the subscription with an id has.
abbrev pub status_of : ℕ → Billing → Option SubscriptionStatus
status_of id b = status_in (lookup id b.subscriptions)

nightly-lapsed :
    (g : ℕ) (c : Clock) (id : ℕ) (f : Option ℕ) (s : Subscription)
    → s.status ≡ lapsed
    → (nightly g c id f s).status ≡ lapsed
nightly-lapsed g c id f s h = ground arith

nightly-expired :
    (g : ℕ) (c : Clock) (id u : ℕ) (s : Subscription)
    → s.status ≡ expired
    → ((nightly g c id (some u) s).status ≡ lapsed) ⊎ ((nightly g c id (some u) s).status ≡ expired)
nightly-expired g c id u s h = ground arith

nightly-over :
    (g : ℕ) (c : Clock) (id u : ℕ) (s : Subscription)
    → s.status ≡ expired
    → u + g * day_ms ≤ c.checked_at id
    → (nightly g c id (some u) s).status ≡ lapsed
nightly-over g c id u s h k = ground arith

nightly-due :
    (g : ℕ) (c : Clock) (id : ℕ) (f : Option ℕ) (s : Subscription)
    → is_due c.due_at s ≡ true
    → ((nightly g c id f s).status ≡ lapsed) ⊎ ((nightly g c id f s).status ≡ expired)
nightly-due g c id f s h = ground arith

logged_after-expired :
    (c : Clock) (id : ℕ) (f : Option ℕ) (s : Subscription)
    → s.status ≡ expired
    → logged_after c id s f ≡ f
logged_after-expired c id f s h = ground arith

abbrev Ends : ℕ → ℕ → Billing → Subscription → Type 0
Ends id t b s =
    (s.status ≡ lapsed)
    ⊎ ((s.status ≡ expired) × (u : ℕ) × (first_expired id b.logs ≡ some u) × (u ≤ t))

-- The subscription is cancelled, or expired since an instant that is not later than `t`.
record Fading (id t : ℕ) (b : Billing) : Type 0 where
  row : Subscription
  found : lookup id b.subscriptions ≡ some row
  ends : Ends id t b row
  unique : HasUniqueKeys b.subscriptions

row-Night :
    (g : ℕ) (c : Clock) (id : ℕ) (b b' : Billing) (s : Subscription)
    → lookup id b.subscriptions ≡ some s
    → Night g c b b'
    → lookup id b'.subscriptions ≡ some (nightly g c id (first_expired id b.logs) s)
row-Night g c id b b' s h n = n.rows id ∙ ap (mapped (nightly g c id (first_expired id b.logs))) h

Night-Ends :
    (g : ℕ) (c : Clock) (id t : ℕ) (b b' : Billing) (s : Subscription)
    → lookup id b.subscriptions ≡ some s
    → Night g c b b'
    → Ends id t b s
    → Ends id t b' (nightly g c id (first_expired id b.logs) s)
Night-Ends g c id t b b' s h n (inl gone) = inl (nightly-lapsed g c id _ s gone)
Night-Ends g c id t b b' s h n (inr (e, u, f, le)) =
    let kept : first_expired id b'.logs ≡ some u =
      n.first id s h ∙ logged_after-expired c id _ s e ∙ f in
    elim (nightly-expired g c id u s e) [
      | inl gone ↦ inl (rw f gone)
      | inr still ↦ inr (rw f still, u, kept, le)
    ]

process-Fading :
    (g : ℕ) (c : Clock) (id t : ℕ) (b : Billing)
    → Fading id t b
    → Fading id t (process_subscription_lifecycle g c b)
process-Fading g c id t b w =
    let n = process-Night g c b w.unique in
    record {
      row = nightly g c id (first_expired id b.logs) w.row;
      found = row-Night g c id b _ w.row w.found n;
      ends = Night-Ends g c id t b _ w.row w.found n w.ends;
      unique = n.unique;
    }

-- A run expires what is due, and logs it.
due-Fading :
    (g : ℕ) (c : Clock) (id : ℕ) (b : Billing) (s : Subscription)
    → HasUniqueKeys b.subscriptions
    → lookup id b.subscriptions ≡ some s
    → is_due c.due_at s ≡ true
    → Fading id (c.logged_at id) (process_subscription_lifecycle g c b)
due-Fading g c id b s unique h due =
    let n = process-Night g c b unique in
    let f = first_expired id b.logs in
    let logged : first_expired id (process_subscription_lifecycle g c b).logs
        ≡ some (earlier f (c.logged_at id)) =
      n.first id s h ∙ rw due in
    record {
      row = nightly g c id f s;
      found = row-Night g c id b _ s h n;
      ends = elim (nightly-due g c id f s due) [
        | inl gone ↦ inl gone
        | inr still ↦ inr (still, earlier f (c.logged_at id), logged, earlier-le f (c.logged_at id))
      ];
      unique = n.unique;
    }
  where
    earlier-le : (f : Option ℕ) (t : ℕ) → earlier f t ≤ t
    earlier-le none t = omega arith
    earlier-le (some u) t = omega arith

over-Fading :
    (g : ℕ) (c : Clock) (id t : ℕ) (b : Billing)
    → Fading id t b
    → t + g * day_ms ≤ c.checked_at id
    → status_of id (process_subscription_lifecycle g c b) ≡ some lapsed
over-Fading g c id t b w over = go w.row w.found w.ends
  where
    go :
        (s : Subscription)
        → lookup id b.subscriptions ≡ some s
        → Ends id t b s
        → status_of id (process_subscription_lifecycle g c b) ≡ some lapsed
    go s h (inl gone) =
        rw (row-Night g c id b _ s h (process-Night g c b w.unique))
          (ap some (nightly-lapsed g c id _ s gone))
    go s h (inr (e, u, f, le)) =
        rw (row-Night g c id b _ s h (process-Night g c b w.unique), f)
          (ap some (nightly-over g c id u s e (omega arith)))

runs-Fading :
    (g id t : ℕ) (clocks : List Clock) (b : Billing)
    → Fading id t b
    → (last : Clock) → t + g * day_ms ≤ last.checked_at id
    → status_of id (runs g (clocks ++ last ∷ []) b) ≡ some lapsed
unfolding runs
runs-Fading g id t [] b w last over = over-Fading g last id t b w over
runs-Fading g id t (c ∷ clocks) b w last over =
    runs-Fading g id t clocks _ (process-Fading g c id t b w) last over

-- If no subscription id is used twice, then a subscription that is due at one nightly run is
-- cancelled after a later run that checks it no earlier than the days of grace after the log of its
-- expiry was written, whatever runs are between them and whatever the clocks read in each.
pub runs-lapsed :
    (g id : ℕ) (b : Billing) (s : Subscription) (first : Clock) (between : List Clock)
    (last : Clock)
    → HasUniqueKeys b.subscriptions
    → lookup id b.subscriptions ≡ some s
    → is_due first.due_at s ≡ true
    → first.logged_at id + g * day_ms ≤ last.checked_at id
    → status_of id (runs g (first ∷ between ++ last ∷ []) b) ≡ some lapsed
unfolding runs
runs-lapsed g id b s first between last unique h due over =
    runs-Fading g id (first.logged_at id) between _ (due-Fading g first id b s unique h due) last
      over

-- The subscription is expired, since the instant `t`.
record Waiting (id t : ℕ) (b : Billing) : Type 0 where
  row : Subscription
  found : lookup id b.subscriptions ≡ some row
  waits : row.status ≡ expired
  since : first_expired id b.logs ≡ some t
  unique : HasUniqueKeys b.subscriptions

nightly-early :
    (g : ℕ) (c : Clock) (id t : ℕ) (s : Subscription)
    → s.status ≡ expired
    → c.checked_at id < t + g * day_ms
    → (nightly g c id (some t) s).status ≡ expired
nightly-early g c id t s h k = ground arith

nightly-first :
    (g : ℕ) (c : Clock) (id : ℕ) (s : Subscription)
    → is_due c.due_at s ≡ true
    → c.checked_at id < c.logged_at id + g * day_ms
    → (nightly g c id none s).status ≡ expired
nightly-first g c id s h k = ground arith

process-Waiting :
    (g : ℕ) (c : Clock) (id t : ℕ) (b : Billing)
    → Waiting id t b
    → c.checked_at id < t + g * day_ms
    → Waiting id t (process_subscription_lifecycle g c b)
process-Waiting g c id t b w early =
    let n = process-Night g c b w.unique in
    record {
      row = nightly g c id (some t) w.row;
      found = rw w.since at (row-Night g c id b _ w.row w.found n);
      waits = nightly-early g c id t w.row w.waits early;
      since = n.first id w.row w.found ∙ logged_after-expired c id _ w.row w.waits ∙ w.since;
      unique = n.unique;
    }

runs-Waiting :
    (g id t : ℕ) (clocks : List Clock) (b : Billing)
    → Waiting id t b
    → All (λ c. c.checked_at id < t + g * day_ms) clocks
    → status_of id (runs g clocks b) ≡ some expired
unfolding runs
runs-Waiting g id t [] b w early = rw w.found (ap some w.waits)
runs-Waiting g id t (c ∷ clocks) b w early =
    runs-Waiting g id t clocks _ (process-Waiting g c id t b w early.0) early.1

-- If no subscription id is used twice, then a subscription that is due at one nightly run and has
-- never expired before is expired, and not cancelled, after that run and after any further runs, if
-- all of these check it less than the days of grace after the log of its expiry was written.
pub runs-expired :
    (g id : ℕ) (b : Billing) (s : Subscription) (first : Clock) (later : List Clock)
    → HasUniqueKeys b.subscriptions
    → lookup id b.subscriptions ≡ some s
    → is_due first.due_at s ≡ true
    → first_expired id b.logs ≡ none
    → All (λ c. c.checked_at id < first.logged_at id + g * day_ms) (first ∷ later)
    → status_of id (runs g (first ∷ later) b) ≡ some expired
unfolding runs
runs-expired g id b s first later unique h due fresh early =
    let n = process-Night g first b unique in
    runs-Waiting g id (first.logged_at id) later _
      (record {
        row = nightly g first id none s;
        found = rw fresh at (row-Night g first id b _ s h n);
        waits = nightly-first g first id s due early.0;
        since = n.first id s h ∙ rw (due, fresh);
        unique = n.unique;
      })
      early.1
