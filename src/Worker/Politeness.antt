-- ===== src/Worker/Politeness.antt =====
-- worker/internal/crawler/politeness.go: the per-host reservation of request slots, and the sweeper.
-- A `time.Time` is a number of nanoseconds since the epoch; a `time.Duration` is a 64-bit integer.
pub mod Slots
pub mod Spacing
pub mod Sweeping
pub mod Tests
use distributed_web_crawler.Base.{
  ℕ, zero, suc, ◌+◌, ◌-◌, ◌*◌, ◌^◌, String, Bool, true, false, ◌&&◌, not, Option, none, some, List,
  [], ◌∷◌, ℤ, pos, negsuc, ltb, leb, ltb_ℤ, sub64, if◌then◌else◌, Dict, lookup, insert, retain,
  Result, ok, err,
}

-- `t.Sub(u)`: the difference, held at the ends of the 64-bit range.
unfoldable pub sub_time : ℕ → ℕ → ℤ
sub_time t u =
    if leb u t
    then (if ltb (t - u) (2 ^ 63) then pos (t - u) else pos (2 ^ 63 - 1))
    else (if leb (u - t) (2 ^ 63) then negsuc (u - t - 1) else negsuc (2 ^ 63 - 1))

-- `t.Add(d)`
unfoldable pub add_time : ℕ → ℤ → ℕ
add_time t (pos n) = t + n
add_time t (negsuc n) = t - suc n

-- `lastScrapeTime`, the one field that the mutex guards.
pub record PolitenessManager : Type 0 where
  pub last_scrape_time : Dict ℕ

-- time.Minute
abbrev pub minute : ℕ
minute = 60_000_000_000

-- The age that `NewPolitenessManager` gives its sweeper.
abbrev pub max_age : ℤ
max_age = pos (5 * minute)

unfoldable pub new_politeness_manager : PolitenessManager
new_politeness_manager = record { last_scrape_time = [] }

unfoldable pub wait_duration : Option ℕ → ℤ → ℕ → ℤ
unfolding sub_time sub64
wait_duration none delay now = pos 0
wait_duration (some last_time) delay now =
    let elapsed = sub_time now last_time in
    if ltb_ℤ elapsed delay then sub64 delay elapsed else pos 0

-- What `Enforce` does under the lock: the slot that it reserves, and how long the caller has to wait.
pub record Reservation : Type 0 where
  pub manager : PolitenessManager
  pub target : ℕ
  pub wait : ℤ

unfoldable pub reserve : PolitenessManager → String → ℤ → ℕ → Reservation
unfolding wait_duration add_time
reserve pm host delay now =
    let wait = wait_duration (lookup host pm.last_scrape_time) delay now in
    let target = if ltb_ℤ (pos 0) wait then add_time now wait else now in
    record {
      manager = record { last_scrape_time = insert host target pm.last_scrape_time };
      target = target;
      wait = wait;
    }

-- `ctx.Err()`
pub data ContextError : Type 0 where
  cancelled : ContextError

-- The whole of `Enforce`. `ctx_done` says whether the context ends before the timer fires.
unfoldable pub enforce :
    Bool → PolitenessManager → String → ℤ → ℕ → Result ContextError (Unit {0}) × PolitenessManager
unfolding reserve
enforce ctx_done pm host delay now =
    let r = reserve pm host delay now in
    (if ltb_ℤ (pos 0) r.wait && ctx_done then err cancelled else ok tt, r.manager)

-- One round of the sweeper, at a tick of its timer.
unfoldable pub sweep : ℕ → ℤ → PolitenessManager → PolitenessManager
unfolding sub_time retain
sweep now age pm = record {
  last_scrape_time =
      retain (λ last_time. not (ltb_ℤ age (sub_time now last_time))) pm.last_scrape_time;
}
