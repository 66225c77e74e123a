-- ===== src/RateLimit.antt =====
-- The fixed-window rate limiter: src/common/ratelimit/redis-rate-limiter.service.ts. Redis is a
-- parameter: its state is abstract, and `RedisLaws` is what its documentation says of INCR and
-- PEXPIRE. Instants are counted in milliseconds.
pub mod Counting
pub mod Windows
mod Tests
use easy_point_api.Base.{
  Bool, true, ◌&&◌, List, [], ◌∷◌, Option, none, some, ℕ, suc, ◌+◌, ◌*◌, ◌-◌, ◌/◌, ◌==◌, ◌≡◌,
  if◌then◌else◌, leb, ltb,
}

-- `ratelimit:${key}:${windowId}`: the number after the last colon is the window.
pub record WindowKey : Type 0 where
  pub key : ℕ
  pub window : ℕ

abbrev pub same_key : WindowKey → WindowKey → Bool
same_key a b = a.key == b.key && a.window == b.window

-- A counter with the instant at which it expires, if it does.
pub record Counter : Type 0 where
  pub count : ℕ
  pub expires : Option ℕ

abbrev pub before : ℕ → Option ℕ → Bool
before now none = true
before now (some d) = ltb now d

-- What a client sees of a key at an instant.
abbrev pub visible : ℕ → Option Counter → Option Counter
visible now none = none
visible now (some c) = if before now c.expires then some c else none

abbrev pub incremented : Option Counter → Counter
incremented none = record { count = 1; expires = none }
incremented (some c) = record c { count = suc c.count }

abbrev pub expiring : ℕ → Option Counter → Option Counter
expiring deadline none = none
expiring deadline (some c) = some (record c { expires = some deadline })

pub record Redis : Type 1 where
  pub State : Type 0
  pub incr : ℕ → WindowKey → State → State × ℕ
  pub pexpire : ℕ → WindowKey → ℕ → State → State
  -- The counter that is stored under a key.
  pub entry : WindowKey → State → Option Counter

-- INCR sets a missing or expired key to 1 and adds 1 to another, and returns the new value; PEXPIRE
-- sets when a key that exists expires. Neither touches another key.
pub record RedisLaws (r : Redis) : Type 0 where
  pub incr_entry :
      (now : ℕ) (k j : WindowKey) (s : r.State)
      → r.entry j (r.incr now k s).0
        ≡ (if same_key k j then some (incremented (visible now (r.entry k s))) else r.entry j s)
  pub incr_value :
      (now : ℕ) (k : WindowKey) (s : r.State)
      → (r.incr now k s).1 ≡ (incremented (visible now (r.entry k s))).count
  pub pexpire_entry :
      (now : ℕ) (k j : WindowKey) (ms : ℕ) (s : r.State)
      → r.entry j (r.pexpire now k ms s)
        ≡ (if same_key k j then expiring (now + ms) (visible now (r.entry k s)) else r.entry j s)

-- `RateLimitTierConfig`
pub record Tier : Type 0 where
  pub requests_per_window : ℕ
  pub window_ms : ℕ

pub record LimitInfo : Type 0 where
  pub limit : ℕ
  pub remaining : ℕ
  pub reset : ℕ
  pub retry_after_ms : ℕ

pub record Decision : Type 0 where
  pub allowed : Bool
  pub info : LimitInfo

-- `validateConfig` refuses what is not positive.
abbrev pub is_valid_config : Tier → Bool
is_valid_config t = ltb 0 t.requests_per_window && ltb 0 t.window_ms

-- What `allow` answers for the value of the counter; `-` on ℕ is `Math.max(… - …, 0)`.
abbrev pub decision_for : Tier → ℕ → ℕ → Decision
decision_for t now count = record {
  allowed = leb count t.requests_per_window;
  info = record {
    limit = t.requests_per_window;
    remaining = t.requests_per_window - count;
    reset = (now / t.window_ms + 1) * t.window_ms;
    retry_after_ms = (now / t.window_ms + 1) * t.window_ms - now;
  };
}

module _ (r : Redis) where
  open r use {State, incr, pexpire}

  abbrev pub set_expiry : ℕ → WindowKey → ℕ → State → ℕ → State
  set_expiry now k ms s count = if count == 1 then pexpire now k ms s else s

  -- `allow(key)` at an instant: `none` is the exception of `validateConfig`.
  unfoldable pub allow : Tier → ℕ → ℕ → State → Option (Decision × State)
  allow t now key s =
      let k : WindowKey = record { key = key; window = now / t.window_ms } in
      let (s', count) = incr now k s in
      if is_valid_config t
      then some (decision_for t now count, set_expiry now k t.window_ms s' count)
      else none

-- A request: its instant and the key that it is counted under.
pub record Request : Type 0 where
  pub at : ℕ
  pub key : ℕ

abbrev pub and_decide : Decision → Option (List Decision) → Option (List Decision)
and_decide d none = none
and_decide d (some ds) = some (d ∷ ds)

-- The decisions on a sequence of requests.
module _ (r : Redis) where
  unfoldable pub serve : Tier → List Request → r.State → Option (List Decision)
  serve t [] s = some []
  serve t (q ∷ qs) s = elim (allow r t q.at q.key s) [
    | none ↦ none
    | some (d, s') ↦ and_decide d (serve t qs s')
  ]
