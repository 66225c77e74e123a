-- ===== src/Subscriptions/Tests.antt =====
-- Nightly runs over two subscriptions, and each theorem on them.
use easy_point_api.Base.{[], refl, none, some, ◌≡◌, ◌∷◌, ◌++◌, ◌*◌, ◌+◌, ℕ, arith}
use easy_point_api.Base.Table.{lookup, put}
use easy_point_api.Subscriptions.{
  Clock, Subscription, Billing, in_force, trialing, expired, lapsed, first_expired, day_ms,
  process_subscription_lifecycle, expire_due_subscriptions, expire_one, cancel_grace_exceeded,
  cancel_one, cancel_subscription, run_each, transition, send_emails, trial_ended,
}
use easy_point_api.Subscriptions.Nightly.{nightly, mapped, lookup-process}
use easy_point_api.Subscriptions.Runs.{runs, status_of, runs-lapsed, runs-expired}

abbrev trial : Subscription
trial = record {
  organization_id = 10;
  status = trialing;
  current_period_end = 1000;
  cancelled_at = none;
  updated_at = 0;
}

abbrev paid : Subscription
paid = record trial { status = in_force; current_period_end = 9 * day_ms }

-- A run that starts at `t`: its first loop writes two seconds later, its second loop checks a second
-- after that.
abbrev run_at : ℕ → Clock
run_at t = record {
  due_at = t;
  touched_at = λ id. t + 2000;
  logged_at = λ id. t + 2000;
  checked_at = λ id. t + 3000;
  ended_at = λ id. t + 3000;
  closed_at = λ id. t + 4000;
  end_logged_at = λ id. t + 4000;
}

abbrev two_subscriptions : Billing
two_subscriptions = record {
  organizations = (10, record { email = some 7; owner_email = some 8 }) ∷ [];
  subscriptions = (2, paid) ∷ (1, trial) ∷ [];
  logs = [];
  sent = [];
  unreachable = 7 ∷ [];
}

-- The trial ends, and its owner is told; the organization's address is refused.
told :
    (process_subscription_lifecycle 3 (run_at 2000) two_subscriptions).sent
    ≡ record { recipient = 8; notice = trial_ended; about = 1 } ∷ []
unfolding process_subscription_lifecycle expire_due_subscriptions expire_one cancel_grace_exceeded
    cancel_one cancel_subscription run_each transition send_emails lookup put first_expired
told = refl

lookup-process_example :
    lookup 1 (process_subscription_lifecycle 3 (run_at 2000) two_subscriptions).subscriptions
    ≡ mapped
        (nightly 3 (run_at 2000) 1 (first_expired 1 two_subscriptions.logs))
        (lookup 1 two_subscriptions.subscriptions)
unfolding lookup
lookup-process_example = lookup-process 3 (run_at 2000) two_subscriptions (refl, (refl, tt)) 1

runs-lapsed_example :
    status_of 1
      (runs 3 (run_at 2000 ∷ (run_at 5000 ∷ []) ++ run_at (4 * day_ms) ∷ []) two_subscriptions)
    ≡ some lapsed
unfolding lookup
runs-lapsed_example =
    runs-lapsed 3 1 two_subscriptions trial (run_at 2000) (run_at 5000 ∷ []) (run_at (4 * day_ms))
      (refl, (refl, tt)) refl refl (omega arith)

runs-expired_example :
    status_of 1 (runs 3 (run_at 2000 ∷ run_at (2 * day_ms) ∷ []) two_subscriptions) ≡ some expired
unfolding lookup first_expired
runs-expired_example =
    runs-expired 3 1 two_subscriptions trial (run_at 2000) (run_at (2 * day_ms) ∷ [])
      (refl, (refl, tt)) refl refl refl (omega arith)
