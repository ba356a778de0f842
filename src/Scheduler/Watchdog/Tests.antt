-- ===== src/Scheduler/Watchdog/Tests.antt =====
-- The theorems on the watchdog at concrete inputs: a job that started at second 100, with a timeout of 60.
use distributed_web_crawler.Services.Memory.{number, text}
use distributed_web_crawler.Services.MemoryBroker.{empty_broker, json}
use distributed_web_crawler.Scheduler.Watchdog.Ends.{
  check_job_status_ends, check_job_status_read_error, Answers, IsEnded,
}
use distributed_web_crawler.Scheduler.Jobs.{last_activity_key, is_job_active, active_job_key}
use distributed_web_crawler.Scheduler.Watchdog.Keeps.{
  check_job_status_busy, check_job_status_recent, start_watchdog_recent, AllEmpty, GetWorks,
}
use distributed_web_crawler.Scheduler.Watchdog.{World, check_job_status, start_watchdog}
use distributed_web_crawler.Base.{
  IsInt64, none, ◌<ℤ◌, ◌≤ℤ◌, ◌-ℤ◌, ◌≢◌, some, [], sub64, delete, ◌∷◌, ◌≡◌, ℤ, refl, pos, lookup,
  arith,
}
use distributed_web_crawler.Scheduler.Samples.{
  job_values, World', up_redis, up_rabbit, no_get, running,
}

abbrev tick : ℤ → World'
tick now = check_job_status up_redis json up_rabbit (pos 60) now running

at_the_end : (lookup active_job_key (tick (pos 160)).store.values) ≡ some (text "http://a.org/")
unfolding check_job_status is_job_active lookup delete sub64
at_the_end = refl

stored : lookup last_activity_key running.store.values ≡ some (number (pos 100))
unfolding lookup
stored = refl

held : lookup active_job_key running.store.values ≢ none
unfolding lookup
held h = cc h

all_empty : AllEmpty up_redis json up_rabbit running
unfolding lookup
all_empty = (refl, (refl, (refl, (refl, tt))))

sixty : IsInt64 (pos 160 -ℤ pos 100)
unfolding ◌-ℤ◌
sixty = (omega arith, omega arith)

limit : pos 160 -ℤ pos 100 ≤ℤ pos 60
unfolding ◌-ℤ◌
limit = omega arith

sixty_one : IsInt64 (pos 161 -ℤ pos 100)
unfolding ◌-ℤ◌
sixty_one = (omega arith, omega arith)

late : pos 60 <ℤ pos 161 -ℤ pos 100
unfolding ◌-ℤ◌
late = omega arith

abbrev busy : World'
busy = record running { broker = record empty_broker { counts = ("queue_2", 7) ∷ [] } }

is_busy : ¬ AllEmpty up_redis json up_rabbit busy
unfolding lookup
is_busy h = cc h.1.0

left_alone :
    lookup active_job_key
      (check_job_status up_redis json up_rabbit (pos 60) (pos 1000) busy).store.values
    ≡ lookup active_job_key busy.store.values
left_alone =
    check_job_status_busy up_redis json up_rabbit (pos 60) (pos 1000) busy is_busy active_job_key

gets : GetWorks up_redis json up_rabbit
gets k s h = ground arith

still_recent :
    lookup active_job_key (tick (pos 160)).store.values ≡ lookup active_job_key running.store.values
still_recent =
    check_job_status_recent up_redis json up_rabbit (pos 60) (pos 160) (pos 100) running gets
      (omega arith, omega arith) sixty stored limit active_job_key

-- Ticks up to the end of the timeout.
start_watchdog_recent_example :
    lookup active_job_key
      (start_watchdog up_redis json up_rabbit
        (pos 60)
        (pos 110 ∷ pos 120 ∷ pos 160 ∷ [])
        running).store.values
    ≡ lookup active_job_key running.store.values
unfolding ◌-ℤ◌
start_watchdog_recent_example =
    start_watchdog_recent up_redis json up_rabbit (pos 60) (pos 100)
      (pos 110 ∷ pos 120 ∷ pos 160 ∷ []) running gets (omega arith, omega arith)
      (
        ((omega arith, omega arith), omega arith),
        (
          ((omega arith, omega arith), omega arith),
          (((omega arith, omega arith), omega arith), tt),
        ),
      )
      stored active_job_key

answers : Answers up_redis json up_rabbit
answers = record {
  exists = λ k s. (_, refl);
  del = λ k s. (_, refl);
  channel = λ s. refl;
  inspect = λ k s. (_, refl);
}

check_job_status_ends_example : IsEnded up_redis json up_rabbit (tick (pos 161)).store
check_job_status_ends_example =
    check_job_status_ends up_redis json up_rabbit answers (pos 60) (pos 161) running held refl
      all_empty (pos 100) (omega arith, omega arith) sixty_one stored late

no_get_answers : Answers no_get json up_rabbit
no_get_answers = record {
  exists = λ k s. (_, refl);
  del = λ k s. (_, refl);
  channel = λ s. refl;
  inspect = λ k s. (_, refl);
}

abbrev running_no_get : World no_get json up_rabbit
running_no_get = record {
  store = job_values;
  broker = empty_broker;
  dbchan = [];
  urls_queued = 0;
  scheduling_errors = 0;
  published = [];
}

read_error_cleans :
    IsEnded no_get json up_rabbit
      (check_job_status no_get json up_rabbit (pos 60) (pos 101) running_no_get).store
read_error_cleans =
    check_job_status_read_error no_get json up_rabbit no_get_answers (pos 60) (pos 101)
      running_no_get held refl all_empty (λ s. refl)
