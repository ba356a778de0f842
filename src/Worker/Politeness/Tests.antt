-- ===== src/Worker/Politeness/Tests.antt =====
-- Runs of the politeness manager, and its theorems at concrete inputs.
use distributed_web_crawler.Base.{
  ℕ, ◌+◌, ◌*◌, ◌≡◌, refl, arith, pos, List, [], ◌∷◌, lookup, insert, err, true, map,
}
use distributed_web_crawler.Worker.Politeness.{
  PolitenessManager, reserve, enforce, sweep, cancelled, minute, max_age,
}
use distributed_web_crawler.Worker.Politeness.Slots.{enforce_outcome}
use distributed_web_crawler.Worker.Politeness.Sweeping.{reserve-sweep, reserve-sweep_loses}
use distributed_web_crawler.Worker.Politeness.Spacing.{
  Event, request, tick, run, start, IsSpaced, run-IsSpaced,
}

abbrev second : ℕ
second = 1_000_000_000

abbrev day : ℕ
day = 1440 * minute

-- One host, last reserved at the start of the day.
abbrev seen : PolitenessManager
seen = record { last_scrape_time = ("example.com", day) ∷ [] }

enforce_outcome_example :
    (enforce true seen "example.com" (pos (3 * second)) (day + second)).0 ≡ err cancelled
unfolding lookup
enforce_outcome_example =
    (enforce_outcome true seen "example.com" (3 * second) (day + second) (omega arith) (omega arith)
      (omega arith)).0

reserve-sweep_example :
    (reserve
      (sweep (day + minute) (pos (5 * minute)) seen)
      "example.com"
      (pos minute)
      (day + minute)).target
    ≡ (reserve seen "example.com" (pos minute) (day + minute)).target
unfolding lookup
reserve-sweep_example =
    reserve-sweep seen "example.com" (5 * minute) minute (day + minute) (day + minute) (omega arith)
      (omega arith) (omega arith) (omega arith) (omega arith)

-- A site that asks for ten minutes is fetched again after six.
goes_at_once :
    (reserve
      (sweep (day + 6 * minute) max_age seen)
      "example.com"
      (pos (10 * minute))
      (day + 6 * minute)).target
    ≡ day + 6 * minute
unfolding lookup
goes_at_once =
    (reserve-sweep_loses seen "example.com" day (10 * minute) (day + 6 * minute) refl (omega arith)
      (omega arith) (omega arith) (omega arith)).0

abbrev morning : List Event
morning =
    request "a.org" (3 * second) day
    ∷ request "b.org" second day
    ∷ request "a.org" (3 * second) (day + second)
    ∷ tick (day + 9 * minute)
    ∷ request "a.org" (3 * second) (day + 9 * minute)
    ∷ []

morning_slots :
    map (λ s. s.at) (run (start day) morning).slots
    ≡ (day + 9 * minute) ∷ (day + 3 * second) ∷ day ∷ day ∷ []
unfolding run start reserve sweep lookup insert
morning_slots = refl

run-IsSpaced_example : IsSpaced (run (start day) morning).slots
run-IsSpaced_example = run-IsSpaced day morning (omega arith) (omega arith)
