-- ===== src/Scheduler/Watchdog.antt =====
-- scheduler/internal/broker/broker.go: `StartWatchdog` and `checkJobStatus`, which it runs at every tick
-- to end a job that has gone quiet.
pub mod Keeps
pub mod Ends
pub mod Tests
use distributed_web_crawler.Base.{
  ℕ, String, Bool, true, false, Option, none, some, List, [], ◌∷◌, Result, ok, err, ℤ, sub64, ltb,
  ltb_ℤ, if◌then◌else◌,
}
use distributed_web_crawler.Common.Constants.{queues, result_queue}
use distributed_web_crawler.Services.Redis.{Redis, RedisError}
use distributed_web_crawler.Services.Json.{Json}
use distributed_web_crawler.Services.Rabbit.{Rabbit, BrokerError}
use distributed_web_crawler.Scheduler.World.{World}
use distributed_web_crawler.Scheduler.Jobs.{last_activity_key, is_job_active, force_cleanup_job}

module _ (r : Redis) (j : Json) (q : Rabbit j.Body) where
  open q use {State, ready, open_channel, inspect}

  -- The queues are looked at in turn; one that cannot be inspected or holds a message ends the check.
  unfoldable pub queues_empty : List String → State → Bool × State
  queues_empty [] s = (true, s)
  queues_empty (q_name ∷ rest) s =
      let (messages, s') = inspect q_name s in
      let later = queues_empty rest s' in
      elim messages [ ok n ↦ if ltb 0 n then (false, s') else later | err e ↦ (false, s') ]

  -- What the reply to GET of the last activity says: any error, and a text that is no number, count as
  -- expired; `time.Now().Unix()-lastAct > idleTimeout` otherwise.
  abbrev pub expired : Result RedisError r.Value → ℤ → ℤ → Bool
  expired (err e) now idle_timeout = true
  expired (ok v) now idle_timeout = elim (r.parse_int v) [
    | none ↦ true
    | some last ↦ ltb_ℤ idle_timeout (sub64 now last)
  ]

  unfoldable pub check_activity : ℤ → ℤ → World r j q → World r j q
  check_activity idle_timeout now w =
      let (reply, s) = r.get last_activity_key w.store in
      if expired reply now idle_timeout
      then record w { store = force_cleanup_job r s }
      else record w { store = s }

  unfoldable pub check_queues : ℤ → ℤ → World r j q → World r j q
  unfolding queues_empty check_activity
  check_queues idle_timeout now w =
      let (work, b) = queues_empty queues w.broker in
      let (none_left, b') = queues_empty (result_queue ∷ []) b in
      if work
      then (if none_left
          then check_activity idle_timeout now (record w { broker = b' })
          else record w { broker = b' })
      else record w { broker = b }

  unfoldable pub check_channel : ℤ → ℤ → World r j q → World r j q
  unfolding check_queues
  check_channel idle_timeout now w =
      let (opened, b) = open_channel w.broker in
      elim opened [
        | ok _ ↦ check_queues idle_timeout now (record w { broker = b })
        | err e ↦ record w { broker = b }
      ]

  -- `active` is false in a reply that is an error.
  abbrev pub says_active : Result RedisError Bool → Bool
  says_active (ok b) = b
  says_active (err e) = false

  unfoldable pub check_job_status : ℤ → ℤ → World r j q → World r j q
  unfolding check_channel
  check_job_status idle_timeout now w =
      let (active, s) = is_job_active r w.store in
      let w' : World r j q = record w { store = s } in
      if says_active active
      then (if ready w.broker then check_channel idle_timeout now w' else w')
      else w'

  -- `StartWatchdog`: a check at each tick, which this list gives in seconds.
  unfoldable pub start_watchdog : ℤ → List ℤ → World r j q → World r j q
  start_watchdog idle_timeout [] w = w
  start_watchdog idle_timeout (now ∷ ticks) w =
      start_watchdog idle_timeout ticks (check_job_status idle_timeout now w)
