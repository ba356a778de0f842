-- ===== src/Worker/Politeness/Sweeping.antt =====
-- worker/internal/crawler/politeness.go: the sweeper and the slots.
use distributed_web_crawler.Base.{
  ℕ, ◌+◌, ◌*◌, ◌≤◌, ◌<◌, ◌≡◌, arith, Option, none, some, String, pos, lookup, ltb, if◌then◌else◌,
  lookup-retain, kept, not, ltb_ℤ, refl, ◌∙◌,
}
use distributed_web_crawler.Worker.Politeness.{
  PolitenessManager, reserve, sweep, sub_time, max_age, minute,
}
use distributed_web_crawler.Worker.Politeness.Slots.{horizon, InHorizon, reserve-earliest}

-- What is left of a host's last slot when everything more than `age` before `now` is dropped.
abbrev pub remembered : ℕ → ℕ → Option ℕ → Option ℕ
remembered age now none = none
remembered age now (some last) = if ltb (last + age) now then none else some last

kept-remembered :
    (o : Option ℕ) (age now : ℕ)
    → InHorizon o
    → now < horizon
    → age < horizon
    → kept (λ last. not (ltb_ℤ (pos age) (sub_time now last))) o ≡ remembered age now o
unfolding sub_time
kept-remembered none age now h t a = refl
kept-remembered (some last) age now h t a = ground arith

pub lookup-sweep :
    (pm : PolitenessManager) (host : String) (age now : ℕ)
    → InHorizon (lookup host pm.last_scrape_time)
    → now < horizon
    → age < horizon
    → lookup host (sweep now (pos age) pm).last_scrape_time
      ≡ remembered age now (lookup host pm.last_scrape_time)
unfolding sweep
lookup-sweep pm host age now h t a =
    lookup-retain _ host pm.last_scrape_time
    ∙ kept-remembered (lookup host pm.last_scrape_time) age now h t a

-- For times and an age below 2 ^ 62 ns: sweeping changes no reservation whose delay is at most the
-- sweeper's age. The caller gets the slot that it would have got without the sweep, at every later
-- time.
pub reserve-sweep :
    (pm : PolitenessManager) (host : String) (age delay swept now : ℕ)
    → InHorizon (lookup host pm.last_scrape_time)
    → age < horizon
    → now < horizon
    → swept ≤ now
    → delay ≤ age
    → (reserve (sweep swept (pos age) pm) host (pos delay) now).target
      ≡ (reserve pm host (pos delay) now).target
reserve-sweep pm host age delay swept now h a t le short = ground (
  arith,
  lookup-sweep pm host age swept,
  reserve-earliest (sweep swept (pos age) pm) host delay now,
  reserve-earliest pm host delay now,
)

-- For times and a delay below 2 ^ 62 ns: once a host's slot is more than five minutes old, a sweep
-- makes its next request go out at once, although the rest of a longer delay was to be waited for.
pub reserve-sweep_loses :
    (pm : PolitenessManager) (host : String) (last delay now : ℕ)
    → lookup host pm.last_scrape_time ≡ some last
    → last + 5 * minute < now
    → now < last + delay
    → now < horizon
    → delay < horizon
    → ((reserve (sweep now max_age pm) host (pos delay) now).target ≡ now)
      × ((reserve pm host (pos delay) now).target ≡ last + delay)
reserve-sweep_loses pm host last delay now e old early t d = ground (
  arith,
  lookup-sweep pm host (5 * minute) now,
  reserve-earliest (sweep now max_age pm) host delay now,
  reserve-earliest pm host delay now,
)
