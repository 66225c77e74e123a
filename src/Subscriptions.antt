-- ===== src/Subscriptions.antt =====
-- The nightly life cycle of subscriptions: src/modules/subscriptions/subscription-lifecycle.service.ts
-- and the tables that it uses (prisma/schema.prisma). Instants are counted in milliseconds, and one
-- run takes as an argument what its clocks read.
pub mod Loop
pub mod Nightly
pub mod Runs
mod Tests
use easy_point_api.Base.{
  Bool, false, true, ◌&&◌, ◌||◌, List, [], ◌∷◌, ◌++◌, Option, none, some, ℕ, ◌+◌, ◌*◌, ◌==◌, any,
  contains, distinct, if◌then◌else◌, keep_if, leb, min,
}
use easy_point_api.Base.Table.{Table, lookup, put}

pub data SubscriptionStatus : Type 0 where
  in_force lapsed expired past_due trialing pending_payment : SubscriptionStatus

pub record Subscription : Type 0 where
  pub organization_id : ℕ
  pub status : SubscriptionStatus
  pub current_period_end : ℕ
  pub cancelled_at : Option ℕ
  pub updated_at : ℕ

pub record StatusLog : Type 0 where
  pub subscription_id : ℕ
  pub from_status : SubscriptionStatus
  pub to_status : SubscriptionStatus
  pub created_at : ℕ

pub record Organization : Type 0 where
  pub email : Option ℕ
  pub owner_email : Option ℕ

-- The template of an email that the run sends.
pub data Notice : Type 0 where
  trial_ended renewal_reminder cancellation : Notice

pub record Email : Type 0 where
  pub recipient : ℕ
  pub notice : Notice
  pub about : ℕ

-- The tables, the emails that were delivered, and the addresses that the mail server refuses.
pub record Billing : Type 0 where
  pub organizations : Table Organization
  pub subscriptions : Table Subscription
  pub logs : List StatusLog
  pub sent : List Email
  pub unreachable : List ℕ

-- What the service's clock and the database's clock read in one run; a function is asked with the
-- id of the subscription of the round.
pub record Clock : Type 0 where
  -- `now` of the first job
  pub due_at : ℕ
  -- `updatedAt` of a row that expires, and `createdAt` of its log
  pub touched_at : ℕ → ℕ
  pub logged_at : ℕ → ℕ
  -- `new Date()` of the check of the grace period
  pub checked_at : ℕ → ℕ
  -- `cancelledAt` and `updatedAt` of a row that is cancelled, and `createdAt` of its log
  pub ended_at : ℕ → ℕ
  pub closed_at : ℕ → ℕ
  pub end_logged_at : ℕ → ℕ

-- A step that is done, or an exception (P2025) with what was committed before it.
pub data Outcome : Type 0 where
  done : Billing → Outcome
  thrown : Billing → Outcome

-- `for (const x of xs) await f(x)`
unfoldable pub run_each :
    List (ℕ × Subscription) → (ℕ → Subscription → Billing → Outcome) → Billing → Outcome
run_each [] f b = done b
run_each ((id, s) ∷ subs) f b = elim (f id s b) [
  | done b' ↦ run_each subs f b'
  | thrown b' ↦ thrown b'
]

abbrev pub log_of : ℕ → ℕ → SubscriptionStatus → SubscriptionStatus → StatusLog
log_of now id old new = record {
  subscription_id = id;
  from_status = old;
  to_status = new;
  created_at = now;
}

-- The system transaction of both jobs: the row is updated and the change of status is logged.
transition_row :
    ℕ
    → ℕ
    → SubscriptionStatus
    → (Subscription → Subscription)
    → Billing
    → Option Subscription
    → Outcome
transition_row now id old change b none = thrown b
transition_row now id old change b (some s) =
    let row : Subscription = change s in
    done (record b {
      subscriptions = put id row b.subscriptions;
      logs = log_of now id old row.status ∷ b.logs;
    })

unfoldable pub transition :
    ℕ → ℕ → SubscriptionStatus → (Subscription → Subscription) → Billing → Outcome
unfolding transition_row
transition now id old change b = transition_row now id old change b (lookup id b.subscriptions)

-- `resolveOrgAndOwner`: the address of the organization and that of its owner, once each.
abbrev pub both_emails : Option ℕ → Option ℕ → List ℕ
both_emails none none = []
both_emails (some e) none = e ∷ []
both_emails none (some o) = o ∷ []
both_emails (some e) (some o) = if o == e then e ∷ [] else e ∷ o ∷ []

abbrev pub recipients_of : Option Organization → List ℕ
recipients_of none = []
recipients_of (some o) = both_emails o.email o.owner_email

abbrev pub emails_to : Notice → ℕ → List ℕ → List ℕ → List Email
emails_to notice id unreachable [] = []
emails_to notice id unreachable (r ∷ recipients) =
    let rest = emails_to notice id unreachable recipients in
    if contains r unreachable
    then rest
    else record { recipient = r; notice = notice; about = id } ∷ rest

-- `sendRenewalReminderEmails` and `sendCancellationEmails`: one refused address does not stop the
-- others, and nothing is thrown.
unfoldable pub send_emails : Notice → ℕ → ℕ → Billing → Billing
send_emails notice id organization b = record b {
  sent =
      b.sent
      ++ emails_to notice id b.unreachable (recipients_of (lookup organization b.organizations));
}

abbrev pub then_send : Notice → ℕ → ℕ → Outcome → Outcome
then_send notice id organization (done b) = done (send_emails notice id organization b)
then_send notice id organization (thrown b) = thrown b

-- The statuses that the first job looks for.
abbrev pub is_live : SubscriptionStatus → Bool
is_live in_force = true
is_live trialing = true
is_live pending_payment = true
is_live past_due = true
is_live expired = false
is_live lapsed = false

abbrev pub is_due : ℕ → Subscription → Bool
is_due now s = leb s.current_period_end now && is_live s.status

abbrev pub expire : ℕ → Subscription → Subscription
expire now s = record s { status = expired; updated_at = now }

abbrev pub reminder : SubscriptionStatus → Notice
reminder trialing = trial_ended
reminder _ = renewal_reminder

abbrev pub rows_with : (Subscription → Bool) → Table Subscription → List (ℕ × Subscription)
rows_with p = keep_if (λ (r : ℕ × Subscription). p r.1)

unfoldable pub expire_one : Clock → ℕ → Subscription → Billing → Outcome
expire_one clock id s b =
    then_send (reminder s.status) id s.organization_id
      (transition (clock.logged_at id) id s.status (expire (clock.touched_at id)) b)

unfoldable pub expire_due_subscriptions : Clock → Billing → Outcome
expire_due_subscriptions clock b =
    run_each (rows_with (is_due clock.due_at) b.subscriptions) (expire_one clock) b

abbrev pub is_expired : SubscriptionStatus → Bool
is_expired expired = true
is_expired _ = false

abbrev pub earlier : Option ℕ → ℕ → ℕ
earlier none t = t
earlier (some u) t = min t u

-- `statusLogs[0]`: when the oldest log that leads to EXPIRED was written.
unfoldable pub first_expired : ℕ → List StatusLog → Option ℕ
first_expired id [] = none
first_expired id (l ∷ logs) =
    if l.subscription_id == id && is_expired l.to_status
    then some (earlier (first_expired id logs) l.created_at)
    else first_expired id logs

abbrev pub day_ms : ℕ
day_ms = 86400000

-- When the grace period began: the log's instant, or the last update of a row without one.
abbrev pub grace_start : Option ℕ → ℕ → ℕ
grace_start none updated = updated
grace_start (some t) updated = t

-- `elapsedDays >= gracePeriodDays`
abbrev pub grace_over : ℕ → ℕ → ℕ → Bool
grace_over grace_days now start = leb (start + grace_days * day_ms) now

abbrev pub cancel : ℕ → ℕ → Subscription → Subscription
cancel ended closed s = record s { status = lapsed; cancelled_at = some ended; updated_at = closed }

unfoldable pub cancel_subscription : Clock → ℕ → Subscription → Billing → Outcome
cancel_subscription clock id s b = then_send cancellation id s.organization_id (
    transition (clock.end_logged_at id) id s.status
      (cancel (clock.ended_at id) (clock.closed_at id)) b)

-- One round of the loop; the log was read with the subscriptions, before the loop.
unfoldable pub cancel_one : ℕ → Clock → List StatusLog → ℕ → Subscription → Billing → Outcome
cancel_one grace_days clock logs id s b =
    let cancelled = cancel_subscription clock id s b in
    if grace_over grace_days (clock.checked_at id)
      (grace_start (first_expired id logs) s.updated_at)
    then cancelled
    else done b

unfoldable pub cancel_grace_exceeded : ℕ → Clock → Billing → Outcome
cancel_grace_exceeded grace_days clock b =
    run_each (rows_with (λ s. is_expired s.status) b.subscriptions)
      (cancel_one grace_days clock b.logs) b

-- An exception is caught and logged; it skips what follows.
abbrev pub and_then : (Billing → Outcome) → Outcome → Billing
and_then f (thrown b) = b
and_then f (done b) = elim (f b) [ done b' ↦ b' | thrown b' ↦ b' ]

unfoldable pub process_subscription_lifecycle : ℕ → Clock → Billing → Billing
process_subscription_lifecycle grace_days clock b =
    and_then (cancel_grace_exceeded grace_days clock) (expire_due_subscriptions clock b)
