-- ===== src/RateLimit/Windows.antt =====
-- How many requests of a key are let through in a window.
use easy_point_api.Base.{
  ◌≡◌, refl, ap, sym, ◌∙◌, Bool, true, false, ◌&&◌, Bool-cases, inl, inr, List, [], ◌∷◌, Option,
  none, some, ℕ, suc, ◌+◌, min, arith,
}
use easy_point_api.RateLimit.{
  WindowKey, same_key, Redis, RedisLaws, Tier, Decision, is_valid_config, decision_for, Request,
  serve,
}
use easy_point_api.RateLimit.Counting.{hits, key_of, decisions, one_more, serve-decisions}

-- The requests with a key in a window that were allowed.
abbrev pub admitted : Tier → WindowKey → List Request → List Decision → ℕ
admitted t k (q ∷ qs) (d ∷ ds) =
    one_more (same_key (key_of t q) k && d.allowed) (admitted t k qs ds)
admitted t k _ _ = 0

abbrev admitted_in : Tier → WindowKey → List Request → Option (List Decision) → ℕ
admitted_in t k qs none = 0
admitted_in t k qs (some ds) = admitted t k qs ds

same_key_eq : (a b : WindowKey) → same_key a b ≡ true → a ≡ b
same_key_eq a b h = ground arith

admitted-step :
    (t : Tier) (k : WindowKey) (q : Request) (made : List Request) (n m : ℕ)
    → n + min t.requests_per_window (hits t k (q ∷ made)) ≡ m
    → one_more
          (same_key (key_of t q) k
            && (decision_for t q.at (suc (hits t (key_of t q) made))).allowed)
          n
        + min t.requests_per_window (hits t k made)
      ≡ m
admitted-step t k q made n m h = elim (Bool-cases (same_key (key_of t q) k)) [
  | inl e ↦
      let same : key_of t q ≡ k = same_key_eq (key_of t q) k e in
      let here : hits t (key_of t q) made ≡ hits t k made = ap (λ j. hits t j made) same in
      rw (e, here) (let h' = rw e at h in ground arith)
  | inr e ↦ rw e (let h' = rw e at h in h')
]

one_more-add : (b : Bool) (m n : ℕ) → m + one_more b n ≡ one_more b m + n
one_more-add true m n = omega arith
one_more-add false m n = refl

admitted-decisions :
    (t : Tier) (k : WindowKey) (qs made : List Request)
    → admitted t k qs (decisions t made qs) + min t.requests_per_window (hits t k made)
      ≡ min t.requests_per_window (hits t k qs + hits t k made)
admitted-decisions t k [] made = omega arith
admitted-decisions t k (q ∷ qs) made =
    admitted-step t k q made _ _ (admitted-decisions t k qs (q ∷ made))
    ∙ ap (min t.requests_per_window)
        (one_more-add (same_key (key_of t q) k) (hits t k qs) (hits t k made))

-- With a Redis that keeps its documented laws, a valid configuration and no counters at first, if
-- the limiter answers a sequence of requests, then of those for one key in one window it has
-- allowed as many as there are, but no more than the limit.
pub admitted-serve :
    (r : Redis) (laws : RedisLaws r) (t : Tier) (qs : List Request) (s : r.State)
    → is_valid_config t ≡ true
    → ((k : WindowKey) → r.entry k s ≡ none)
    → (k : WindowKey) (ds : List Decision) → serve r t qs s ≡ some ds
    → admitted t k qs ds ≡ min t.requests_per_window (hits t k qs)
admitted-serve r laws t qs s valid empty k ds e =
    let same = ap (admitted_in t k qs) (sym e ∙ serve-decisions r laws t qs s valid empty) in
    omega (arith, same, admitted-decisions t k qs [])
