-- ===== src/Subscriptions/Nightly.antt =====
-- What one run does to each subscription.
use easy_point_api.Base.{
  ◌≡◌, refl, ap, ◌∙◌, Bool, true, false, ◌&&◌, Bool-cases, inl, inr, List, [], ◌∷◌, Option, none,
  some, ℕ, if◌then◌else◌, ==_iff, ==_refl, ◌==◌, arith,
}
use easy_point_api.Base.Table.{Table, lookup}
use easy_point_api.Base.Table.Unique.{HasUniqueKeys}
use easy_point_api.Base.Table.Fresh.{
  AreIn-keep_rows, keep_rows-HasUniqueKeys, lookup-keep_rows, select,
}
use easy_point_api.Subscriptions.{
  Clock, Subscription, StatusLog, Billing, Outcome, done, thrown, rows_with, is_due, log_of,
  expired, lapsed, is_expired, expire, expire_one, expire_due_subscriptions, transition,
  transition_row, send_emails, earlier, first_expired, grace_over, grace_start, cancel, cancel_one,
  cancel_subscription, cancel_grace_exceeded, process_subscription_lifecycle, and_then,
}
use easy_point_api.Subscriptions.Loop.{
  Done, Done-weaken, Stepped, moved, all_logs, Processed, run_each-Processed,
}

-- The first job, on one subscription and on the instant of its oldest EXPIRED log.
abbrev pub after_expiry : Clock → ℕ → Subscription → Subscription
after_expiry clock id s = if is_due clock.due_at s then expire (clock.touched_at id) s else s

abbrev pub logged_after : Clock → ℕ → Subscription → Option ℕ → Option ℕ
logged_after clock id s first =
    if is_due clock.due_at s then some (earlier first (clock.logged_at id)) else first

-- The second job.
abbrev pub after_grace : ℕ → Clock → ℕ → Option ℕ → Subscription → Subscription
after_grace grace_days clock id first s =
    if is_expired s.status
      && grace_over grace_days (clock.checked_at id) (grace_start first s.updated_at)
    then cancel (clock.ended_at id) (clock.closed_at id) s
    else s

-- A run, on one subscription: it expires if it is due, and then it is cancelled if it is expired
-- and its grace period is over.
abbrev pub nightly : ℕ → Clock → ℕ → Option ℕ → Subscription → Subscription
nightly grace_days clock id first s =
    after_grace grace_days clock id (logged_after clock id s first) (after_expiry clock id s)

abbrev expiry : Clock → ℕ → Subscription → Subscription
expiry clock id = expire (clock.touched_at id)

abbrev ending : Clock → ℕ → Subscription → Subscription
ending clock id = cancel (clock.ended_at id) (clock.closed_at id)

abbrev pub mapped : (Subscription → Subscription) → Option Subscription → Option Subscription
mapped f none = none
mapped f (some s) = some (f s)

abbrev always : ℕ → Subscription → Bool
always id s = true

expire_one-Stepped :
    (clock : Clock) (id : ℕ) (s : Subscription) (b : Billing)
    → lookup id b.subscriptions ≡ some s
    → Done (Stepped always (expiry clock) clock.logged_at id s b) (expire_one clock id s b)
unfolding expire_one transition transition_row send_emails
expire_one-Stepped clock id s b h = rw h (refl, refl)

abbrev lasts : ℕ → Clock → List StatusLog → ℕ → Subscription → Bool
lasts grace_days clock logs id s =
    grace_over grace_days (clock.checked_at id) (grace_start (first_expired id logs) s.updated_at)

cancel_one-Stepped :
    (grace_days : ℕ) (clock : Clock) (logs : List StatusLog) (id : ℕ) (s : Subscription)
    (b : Billing)
    → lookup id b.subscriptions ≡ some s
    → Done
        (Stepped (lasts grace_days clock logs) (ending clock) clock.end_logged_at id s b)
        (cancel_one grace_days clock logs id s b)
unfolding cancel_one cancel_subscription transition transition_row send_emails
cancel_one-Stepped grace_days clock logs id s b h =
    elim (Bool-cases (lasts grace_days clock logs id s)) [
      | inl a ↦ rw a (rw h (rw a, rw a))
      | inr a ↦ rw a (rw a, rw a)
    ]

abbrev oldest : ℕ → Option Subscription → Option ℕ → Option ℕ
oldest now none first = first
oldest now (some s) first = some (earlier first now)

first_expired-all_logs :
    (clock : Clock) (j : ℕ) (rs : Table Subscription) (logs : List StatusLog)
    → HasUniqueKeys rs
    → first_expired j (all_logs always (expiry clock) clock.logged_at rs logs)
      ≡ oldest (clock.logged_at j) (lookup j rs) (first_expired j logs)
unfolding first_expired lookup
first_expired-all_logs clock j [] logs u = refl
first_expired-all_logs clock j ((id, s) ∷ rs) logs u =
    let new = log_of (clock.logged_at id) id s.status expired in
    let rest = first_expired-all_logs clock j rs (new ∷ logs) u.1 in
    elim (Bool-cases (j == id)) [
      | inl e ↦
          let same : j ≡ id = (==_iff j id).0 e in
          let here = first_expired-all_logs clock id rs (new ∷ logs) u.1 in
          rw (same, ==_refl id) (rw (u.0, ==_refl id) at here)
      | inr e ↦ let other : (id == j) ≡ false = ground arith in rw e (rw other at rest)
    ]

first_expired-all_logs-cancel :
    (act : ℕ → Subscription → Bool) (clock : Clock) (j : ℕ) (rs : Table Subscription)
    (logs : List StatusLog)
    → first_expired j (all_logs act (ending clock) clock.end_logged_at rs logs)
      ≡ first_expired j logs
unfolding first_expired
first_expired-all_logs-cancel act clock j [] logs = refl
first_expired-all_logs-cancel act clock j ((id, s) ∷ rs) logs = elim (Bool-cases (act id s)) [
  | inl a ↦ rw a (
      first_expired-all_logs-cancel act clock j rs
        (log_of (clock.end_logged_at id) id s.status lapsed ∷ logs)
      ∙ ground arith)
  | inr a ↦ rw a (first_expired-all_logs-cancel act clock j rs logs)
]

pub record Expired (clock : Clock) (b b' : Billing) : Type 0 where
  pub rows :
      (j : ℕ) → lookup j b'.subscriptions ≡ mapped (after_expiry clock j) (lookup j b.subscriptions)
  pub first :
      (j : ℕ) (s : Subscription)
      → lookup j b.subscriptions ≡ some s
      → first_expired j b'.logs ≡ logged_after clock j s (first_expired j b.logs)
  pub unique : HasUniqueKeys b'.subscriptions

moved-after_expiry :
    (clock : Clock) (j : ℕ) (o : Option Subscription)
    → moved always (expiry clock) clock.logged_at j (select (is_due clock.due_at) o) o
      ≡ mapped (after_expiry clock j) o
moved-after_expiry clock j none = refl
moved-after_expiry clock j (some s) = elim (Bool-cases (is_due clock.due_at s)) [
  | inl e ↦ rw e
  | inr e ↦ rw e
]

oldest-logged_after :
    (clock : Clock) (j : ℕ) (s : Subscription) (f : Option ℕ)
    → oldest (clock.logged_at j) (select (is_due clock.due_at) (some s)) f
      ≡ logged_after clock j s f
oldest-logged_after clock j s f = elim (Bool-cases (is_due clock.due_at s)) [
  | inl e ↦ rw e
  | inr e ↦ rw e
]

expire_due-Expired :
    (clock : Clock) (b : Billing)
    → HasUniqueKeys b.subscriptions
    → Done (Expired clock b) (expire_due_subscriptions clock b)
unfolding expire_due_subscriptions
expire_due-Expired clock b u =
    let due = rows_with (is_due clock.due_at) b.subscriptions in
    let ud = keep_rows-HasUniqueKeys (is_due clock.due_at) b.subscriptions u in
    Done-weaken (Processed always (expiry clock) clock.logged_at due b) _ _
      (run_each-Processed always (expiry clock) clock.logged_at (expire_one clock)
        (expire_one-Stepped clock) due ud b u
        (AreIn-keep_rows (is_due clock.due_at) b.subscriptions u))
      λ b' p. record {
        rows = λ j.
            (rw (lookup-keep_rows (is_due clock.due_at) j b.subscriptions u) at (p.rows j))
            ∙ moved-after_expiry clock j (lookup j b.subscriptions);
        first = λ j s h.
            ap (first_expired j) p.logged
            ∙ first_expired-all_logs clock j due b.logs ud
            ∙ (rw (lookup-keep_rows (is_due clock.due_at) j b.subscriptions u, h)
                (oldest-logged_after clock j s (first_expired j b.logs)));
        unique = p.unique;
      }

pub record Graced (grace_days : ℕ) (clock : Clock) (b b' : Billing) : Type 0 where
  pub rows :
      (j : ℕ)
      → lookup j b'.subscriptions
        ≡ mapped
            (after_grace grace_days clock j (first_expired j b.logs))
            (lookup j b.subscriptions)
  pub first : (j : ℕ) → first_expired j b'.logs ≡ first_expired j b.logs
  pub unique : HasUniqueKeys b'.subscriptions

moved-after_grace :
    (grace_days : ℕ) (clock : Clock) (logs : List StatusLog) (j : ℕ) (o : Option Subscription)
    → moved
        (lasts grace_days clock logs)
        (ending clock)
        clock.end_logged_at
        j
        (select (λ s. is_expired s.status) o)
        o
      ≡ mapped (after_grace grace_days clock j (first_expired j logs)) o
moved-after_grace grace_days clock logs j none = refl
moved-after_grace grace_days clock logs j (some s) =
    elim (Bool-cases (lasts grace_days clock logs j s)) [
      | inl a ↦ elim (Bool-cases (is_expired s.status)) [ inl e ↦ rw (e, a) | inr e ↦ rw e ]
      | inr a ↦ elim (Bool-cases (is_expired s.status)) [ inl e ↦ rw (e, a) | inr e ↦ rw e ]
    ]

cancel_grace-Graced :
    (grace_days : ℕ) (clock : Clock) (b : Billing)
    → HasUniqueKeys b.subscriptions
    → Done (Graced grace_days clock b) (cancel_grace_exceeded grace_days clock b)
unfolding cancel_grace_exceeded
cancel_grace-Graced grace_days clock b u =
    let p = λ (s : Subscription). is_expired s.status in
    let rows = rows_with p b.subscriptions in
    let act = lasts grace_days clock b.logs in
    Done-weaken (Processed act (ending clock) clock.end_logged_at rows b) _ _
      (run_each-Processed act (ending clock) clock.end_logged_at
        (cancel_one grace_days clock b.logs) (cancel_one-Stepped grace_days clock b.logs) rows
        (keep_rows-HasUniqueKeys p b.subscriptions u) b u (AreIn-keep_rows p b.subscriptions u))
      λ b' q. record {
        rows = λ j.
            (rw (lookup-keep_rows p j b.subscriptions u) at (q.rows j))
            ∙ moved-after_grace grace_days clock b.logs j (lookup j b.subscriptions);
        first = λ j.
            ap (first_expired j) q.logged ∙ first_expired-all_logs-cancel act clock j rows b.logs;
        unique = q.unique;
      }

pub record Night (grace_days : ℕ) (clock : Clock) (b b' : Billing) : Type 0 where
  pub rows :
      (j : ℕ)
      → lookup j b'.subscriptions
        ≡ mapped (nightly grace_days clock j (first_expired j b.logs)) (lookup j b.subscriptions)
  pub first :
      (j : ℕ) (s : Subscription)
      → lookup j b.subscriptions ≡ some s
      → first_expired j b'.logs ≡ logged_after clock j s (first_expired j b.logs)
  pub unique : HasUniqueKeys b'.subscriptions

and_then-rule :
    (P Q : Billing → Type 0) (f : Billing → Outcome) (o : Outcome)
    → Done P o
    → ((b : Billing) → P b → Done Q (f b))
    → Q (and_then f o)
and_then-rule P Q f (done b) h next = finish Q (f b) (next b h)
  where
    finish :
        (Q : Billing → Type 0) (o : Outcome)
        → Done Q o
        → Q (elim o [ done b' ↦ b' | thrown b' ↦ b' ])
    finish Q (done b') h = h
    finish Q (thrown b') h = absurd h
and_then-rule P Q f (thrown b) h next = absurd h

Night-rows :
    (grace_days : ℕ) (clock : Clock) (j : ℕ) (b b1 b2 : Billing) (o : Option Subscription)
    → lookup j b.subscriptions ≡ o
    → Expired clock b b1
    → Graced grace_days clock b1 b2
    → lookup j b2.subscriptions ≡ mapped (nightly grace_days clock j (first_expired j b.logs)) o
Night-rows grace_days clock j b b1 b2 none h p q = q.rows j ∙ rw (p.rows j, h)
Night-rows grace_days clock j b b1 b2 (some s) h p q = q.rows j ∙ rw (p.rows j, h, p.first j s h)

pub process-Night :
    (grace_days : ℕ) (clock : Clock) (b : Billing)
    → HasUniqueKeys b.subscriptions
    → Night grace_days clock b (process_subscription_lifecycle grace_days clock b)
unfolding process_subscription_lifecycle
process-Night grace_days clock b u =
    and_then-rule (Expired clock b) (Night grace_days clock b)
      (cancel_grace_exceeded grace_days clock) (expire_due_subscriptions clock b)
      (expire_due-Expired clock b u)
      λ b1 p.
        Done-weaken (Graced grace_days clock b1) _ _
          (cancel_grace-Graced grace_days clock b1 p.unique)
          λ b2 q. record {
            rows = λ j. Night-rows grace_days clock j b b1 b2 (lookup j b.subscriptions) refl p q;
            first = λ j s h. q.first j ∙ p.first j s h;
            unique = q.unique;
          }

-- If no subscription id is used twice, then the nightly run, whatever its clocks read, does to
-- every subscription what one function of its row, of the instant of its earliest EXPIRED log and
-- of what the clocks read for it says: a live subscription whose period has ended when the run
-- starts expires, and then one that, when it is checked, is expired for the days of grace, counted
-- from that log, or from the last update of the row if there is none, is cancelled; every other row
-- stays.
pub lookup-process :
    (grace_days : ℕ) (clock : Clock) (b : Billing)
    → HasUniqueKeys b.subscriptions
    → (j : ℕ)
    → lookup j (process_subscription_lifecycle grace_days clock b).subscriptions
      ≡ mapped (nightly grace_days clock j (first_expired j b.logs)) (lookup j b.subscriptions)
lookup-process grace_days clock b u j = (process-Night grace_days clock b u).rows j
