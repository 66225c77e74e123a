-- ===== src/RateLimit/Tests.antt =====
-- A Redis that keeps its counters in a function, four requests, and each theorem on them.
use easy_point_api.Base.{
  ◌≡◌, refl, true, false, List, [], ◌∷◌, Option, none, some, ◌+◌, if◌then◌else◌, min, map,
}
use easy_point_api.RateLimit.{
  WindowKey, same_key, Counter, visible, incremented, expiring, Redis, RedisLaws, Tier, Decision,
  Request, allow, serve,
}
use easy_point_api.RateLimit.Counting.{hits, decisions, serve-decisions}
use easy_point_api.RateLimit.Windows.{admitted, admitted-serve}

abbrev memory : Redis
memory = record {
  State = WindowKey → Option Counter;
  incr = λ now k s.
      let c = incremented (visible now (s k)) in
      (λ j. if same_key k j then some c else s j, c.count);
  pexpire = λ now k ms s j. if same_key k j then expiring (now + ms) (visible now (s k)) else s j;
  entry = λ k s. s k;
}

memory-RedisLaws : RedisLaws memory
memory-RedisLaws = record {
  incr_entry = λ now k j s. refl;
  incr_value = λ now k s. refl;
  pexpire_entry = λ now k j ms s. refl;
}

abbrev two_per_second : Tier
two_per_second = record { requests_per_window = 2; window_ms = 1000 }

abbrev four_requests : List Request
four_requests =
    record { at = 5100; key = 1 }
    ∷ record { at = 5200; key = 1 }
    ∷ record { at = 5999; key = 1 }
    ∷ record { at = 6000; key = 1 }
    ∷ []

abbrev answers : Option (List Decision) → List Decision
answers none = []
answers (some ds) = ds

third_refused :
    map
      (λ (d : Decision). d.allowed)
      (answers (serve memory two_per_second four_requests (λ _. none)))
    ≡ true ∷ true ∷ false ∷ true ∷ []
unfolding serve allow
third_refused = refl

serve-decisions_example :
    serve memory two_per_second four_requests (λ _. none)
    ≡ some (decisions two_per_second [] four_requests)
serve-decisions_example =
    serve-decisions memory memory-RedisLaws two_per_second four_requests (λ _. none) refl
      (λ _. refl)

admitted-serve_example :
    admitted two_per_second
      (record { key = 1; window = 5 })
      four_requests
      (decisions two_per_second [] four_requests)
    ≡ min 2 (hits two_per_second (record { key = 1; window = 5 }) four_requests)
unfolding serve allow
admitted-serve_example =
    admitted-serve memory memory-RedisLaws two_per_second four_requests (λ _. none) refl (λ _. refl)
      (record { key = 1; window = 5 }) (decisions two_per_second [] four_requests) refl
