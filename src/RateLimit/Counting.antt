-- ===== src/RateLimit/Counting.antt =====
-- The counters of the windows against the requests that were made.
use easy_point_api.Base.{
  ◌≡◌, refl, ap, subst, ◌∙◌, Bool, true, false, Bool-cases, inl, inr, List, [], ◌∷◌, Option, none,
  some, ℕ, zero, suc, ◌+◌, ◌*◌, ◌/◌, ◌≤◌, ◌<◌, ◌==◌, ==_refl, arith,
}
use native.Mathlib.Nat.{mod-lt, div-add-mod'}
use easy_point_api.RateLimit.{
  WindowKey, same_key, Counter, before, visible, incremented, Redis, RedisLaws, Tier, Decision,
  is_valid_config, decision_for, set_expiry, allow, Request, and_decide, serve,
}

abbrev pub one_more : Bool → ℕ → ℕ
one_more true n = suc n
one_more false n = n

-- How many of the requests were made with a key in a window.
abbrev pub hits : Tier → WindowKey → List Request → ℕ
hits t k [] = 0
hits t k (q ∷ qs) =
    one_more (same_key (record { key = q.key; window = q.at / t.window_ms }) k) (hits t k qs)

abbrev pub key_of : Tier → Request → WindowKey
key_of t q = record { key = q.key; window = q.at / t.window_ms }

-- What a fixed window promises: each request is judged by how many were made before it with its key
-- in its window, itself included.
abbrev pub decisions : Tier → List Request → List Request → List Decision
decisions t made [] = []
decisions t made (q ∷ qs) =
    decision_for t q.at (suc (hits t (key_of t q) made)) ∷ decisions t (q ∷ made) qs

-- The counter of a window with so many requests: it outlives the window.
abbrev Counted : Tier → WindowKey → ℕ → Option Counter → Type 0
Counted t k zero o = o ≡ none
Counted t k (suc n) o =
    (d : ℕ) × (o ≡ some (record { count = suc n; expires = some d }))
    × ((k.window + 1) * t.window_ms ≤ d)

in_window : (now w : ℕ) → 0 < w → (now < (now / w + 1) * w) × (now / w * w ≤ now)
in_window now w h =
    let low = div-add-mod' now w in
    let high = mod-lt now h in
    let next : (now / w + 1) * w ≡ now / w * w + w = grind arith in (omega arith, omega arith)

same_key_eq : (a b : WindowKey) → same_key a b ≡ true → a ≡ b
same_key_eq a b h = ground arith

same_key_refl : (a : WindowKey) → same_key a a ≡ true
same_key_refl a = rw (==_refl a.key, ==_refl a.window)

visible-Counted :
    (t : Tier) (k : WindowKey) (now n : ℕ) (o : Option Counter)
    → Counted t k n o
    → now < (k.window + 1) * t.window_ms
    → visible now o ≡ o
visible-Counted t k now zero o h early = rw h
visible-Counted t k now (suc n) o (d, e, le) early =
    let alive : before now (some d) ≡ true = ground arith in rw e (rw alive)

module _ (r : Redis) (laws : RedisLaws r) (t : Tier) where
  open r use {State, incr, pexpire, entry}

  -- The state after INCR and PEXPIRE.
  abbrev stepped : ℕ → WindowKey → State → State
  stepped now k s = set_expiry r now k t.window_ms (incr now k s).0 (incr now k s).1

  entry-incr :
      (now : ℕ) (k : WindowKey) (s : State)
      → visible now (entry k s) ≡ entry k s
      → entry k (incr now k s).0 ≡ some (incremented (entry k s))
  entry-incr now k s h = laws.incr_entry now k k s ∙ rw (same_key_refl k, h)

  value-incr :
      (now : ℕ) (k : WindowKey) (s : State)
      → visible now (entry k s) ≡ entry k s
      → (incr now k s).1 ≡ (incremented (entry k s)).count
  value-incr now k s h = laws.incr_value now k s ∙ rw h

  entry-stepped_ne :
      (now : ℕ) (k j : WindowKey) (s : State)
      → same_key k j ≡ false
      → entry j (stepped now k s) ≡ entry j s
  entry-stepped_ne now k j s h =
      let kept : entry j (incr now k s).0 ≡ entry j s = laws.incr_entry now k j s ∙ rw h in
      elim (Bool-cases ((incr now k s).1 == 1)) [
        | inl e ↦ rw e (laws.pexpire_entry now k j t.window_ms (incr now k s).0 ∙ rw h kept)
        | inr e ↦ rw e kept
      ]

  Counted-stepped :
      (now n : ℕ) (k : WindowKey) (s : State)
      → now < (k.window + 1) * t.window_ms
      → (k.window + 1) * t.window_ms ≤ now + t.window_ms
      → Counted t k n (entry k s)
      → ((incr now k s).1 ≡ suc n) × Counted t k (suc n) (entry k (stepped now k s))
  Counted-stepped now zero k s early late h =
      let seen = visible-Counted t k now zero (entry k s) h early in
      let one : (incr now k s).1 ≡ 1 = value-incr now k s seen ∙ rw h in
      let fresh : entry k (incr now k s).0 ≡ some (record { count = 1; expires = none }) =
        entry-incr now k s seen ∙ rw h in
      let expires : entry k (stepped now k s)
          ≡ some (record { count = 1; expires = some (now + t.window_ms) }) =
        rw one
          (laws.pexpire_entry now k k t.window_ms (incr now k s).0 ∙ rw (same_key_refl k, fresh)) in
      (one, (now + t.window_ms, expires, late))
  Counted-stepped now (suc n) k s early late (d, e, le) =
      let seen = visible-Counted t k now (suc n) (entry k s) (d, e, le) early in
      let more : (incr now k s).1 ≡ suc (suc n) = value-incr now k s seen ∙ rw e in
      let test : ((incr now k s).1 == 1) ≡ false = ground arith in
      (more, (d, rw test (entry-incr now k s seen ∙ rw e), le))

  abbrev Counts : List Request → State → Type 0
  Counts made s = (k : WindowKey) → Counted t k (hits t k made) (entry k s)

  Counts-stepped :
      (q : Request) (made : List Request) (s : State)
      → 0 < t.window_ms
      → Counts made s
      → ((incr q.at (key_of t q) s).1 ≡ suc (hits t (key_of t q) made))
        × Counts (q ∷ made) (stepped q.at (key_of t q) s)
  Counts-stepped q made s h counts =
      let k = key_of t q in
      let (early, low) = in_window q.at t.window_ms h in
      let late : (k.window + 1) * t.window_ms ≤ q.at + t.window_ms = grind arith in
      let (value, self) = Counted-stepped q.at (hits t k made) k s early late (counts k) in
      (
        value,
        λ j. elim (Bool-cases (same_key k j)) [
          | inl e ↦
              subst (λ i. Counted t i (hits t i (q ∷ made)) (entry i (stepped q.at k s)))
                (same_key_eq k j e) (rw (same_key_refl k) self)
          | inr e ↦ rw (e, entry-stepped_ne q.at k j s e) (counts j)
        ],
      )

  allow-valid :
      (now key : ℕ) (s : State)
      → is_valid_config t ≡ true
      → (let k : WindowKey = record { key = key; window = now / t.window_ms } in
          allow r t now key s ≡ some (decision_for t now (incr now k s).1, stepped now k s))
  unfolding allow
  allow-valid now key s valid = rw valid

  serve-cons :
      (q : Request) (qs : List Request) (s : State)
      → is_valid_config t ≡ true
      → serve r t (q ∷ qs) s
        ≡ and_decide
            (decision_for t q.at (incr q.at (key_of t q) s).1)
            (serve r t qs (stepped q.at (key_of t q) s))
  unfolding serve
  serve-cons q qs s valid =
      ap
        (λ (o : Option (Decision × State)). elim o as (λ _. Option (List Decision)) [
          | none ↦ none
          | some (d, s') ↦ and_decide d (serve r t qs s')
        ])
        (allow-valid q.at q.key s valid)

  serve-from :
      (qs made : List Request) (s : State)
      → is_valid_config t ≡ true
      → Counts made s
      → serve r t qs s ≡ some (decisions t made qs)
  unfolding serve
  serve-from [] made s valid counts = refl
  serve-from (q ∷ qs) made s valid counts =
      let (value, next) = Counts-stepped q made s (ground arith) counts in
      serve-cons q qs s valid
      ∙ ap (and_decide (decision_for t q.at (incr q.at (key_of t q) s).1))
          (serve-from qs (q ∷ made) (stepped q.at (key_of t q) s) valid next)
      ∙ ap (λ (c : ℕ). some (decision_for t q.at c ∷ decisions t (q ∷ made) qs)) value

  -- With a Redis that keeps its documented laws, a valid configuration and no counters at first,
  -- the limiter answers every request of any sequence, whatever its instants, as if it counted
  -- the earlier requests for the same key in the same window: it allows the request if they and
  -- it are at most the limit.
  pub serve-decisions :
      (qs : List Request) (s : State)
      → is_valid_config t ≡ true
      → ((k : WindowKey) → entry k s ≡ none)
      → serve r t qs s ≡ some (decisions t [] qs)
  serve-decisions qs s valid empty = serve-from qs [] s valid empty
