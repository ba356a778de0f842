-- ===== src/Scheduler/Jobs/Tests.antt =====
-- The theorems on the job's lock at concrete inputs.
use distributed_web_crawler.Scheduler.Jobs.Race.Winners.{alone-start_job, moves-winners, winners}
use distributed_web_crawler.Scheduler.Jobs.Race.{returned, begins, Start, alone, moves}
use distributed_web_crawler.Scheduler.Jobs.Cleanup.{force_cleanup_job-frees}
use distributed_web_crawler.Services.Memory.{empty_store}
use distributed_web_crawler.Scheduler.Jobs.Locking.{
  start_job-IsActive, start_job-true, DelWorks, IsStarted,
}
use distributed_web_crawler.Scheduler.Jobs.{force_cleanup_job, is_job_active, start_job}
use distributed_web_crawler.Base.{
  ℕ, lookup, insert, arith, [], ◌∷◌, false, true, ◌≢◌, ◌≤◌, ◌≡◌, List, refl, pos, ok,
}
use distributed_web_crawler.Scheduler.Samples.{up_redis, job_values}

two_starts : (start_job up_redis "http://b.org/" (pos 1) (pos 5) (pos 60) job_values).0 ≡ ok false
unfolding start_job lookup insert
two_starts = refl

starts : (start_job up_redis "http://a.org/" (pos 2) (pos 100) (pos 60) empty_store).0 ≡ ok true
unfolding start_job lookup insert
starts = refl

started :
    IsStarted up_redis "http://a.org/"
      (pos 2)
      (pos 100)
      (start_job up_redis "http://a.org/" (pos 2) (pos 100) (pos 60) empty_store).1
started = (start_job-true up_redis "http://a.org/" (pos 2) (pos 100) (pos 60) empty_store starts).1

seen_and_exclusive :
    (is_job_active up_redis
      (start_job up_redis "http://a.org/" (pos 2) (pos 100) (pos 60) empty_store).1).0
    ≢ ok false
seen_and_exclusive =
    (start_job-IsActive up_redis "http://a.org/" (pos 2) (pos 100) (pos 60) empty_store
      (omega arith, omega arith) starts).0

deletes : DelWorks up_redis
deletes k s = (_, refl)

cleaned : (is_job_active up_redis (force_cleanup_job up_redis job_values)).0 ≢ ok true
cleaned =
    (force_cleanup_job-frees up_redis deletes job_values "http://b.org/" (pos 1) (pos 5) (pos 60)).0

-- Two requests, before their first command.
abbrev racers : List Start
racers =
    record {
      url_str = "http://a.org/";
      max_depth = pos 2;
      now = pos 100;
      ttl = pos 60;
      pc = begins;
    }
    ∷ record {
      url_str = "http://b.org/";
      max_depth = pos 1;
      now = pos 100;
      ttl = pos 60;
      pc = begins;
    }
    ∷ []

abbrev schedule : List ℕ
schedule = 1 ∷ 0 ∷ 1 ∷ 1 ∷ []

one_won : winners (moves up_redis schedule racers empty_store).0 ≡ 1
unfolding moves lookup insert
one_won = refl

one_winner : winners (moves up_redis schedule racers empty_store).0 ≤ 1
one_winner = moves-winners up_redis schedule racers empty_store (refl, (refl, tt))

abbrev alone_racer : Start
alone_racer = record {
  url_str = "http://a.org/";
  max_depth = pos 2;
  now = pos 100;
  ttl = pos 60;
  pc = begins;
}

same_as_alone :
    let done = start_job up_redis "http://a.org/" (pos 2) (pos 100) (pos 60) empty_store in
    alone up_redis 5 begins alone_racer empty_store ≡ (returned done.0, done.1)
same_as_alone = alone-start_job up_redis alone_racer empty_store
