-- ===== src/Scheduler/Jobs/Race/Tests.antt =====
-- The race of starts at concrete inputs: what the winner has, and how it can lose its depth limit.
use distributed_web_crawler.Base.{
  ℕ, lookup, insert, delete, [], ◌∷◌, true, none, some, ◌≡◌, List, refl, pos, ok, err,
}
use distributed_web_crawler.Services.Redis.{failed}
use distributed_web_crawler.Services.Memory.{empty_store}
use distributed_web_crawler.Scheduler.Samples.{up_redis, job_values}
use distributed_web_crawler.Scheduler.Jobs.{active_job_key, max_depth_key}
use distributed_web_crawler.Scheduler.Jobs.Race.{Start, begins, returned, undoes_both, moves}
use distributed_web_crawler.Scheduler.Jobs.Race.Owners.{ActivityWorks, AllOwn, moves-Owns}

abbrev first : Start
first = record {
  url_str = "http://a.org/";
  max_depth = pos 2;
  now = pos 100;
  ttl = pos 60;
  pc = begins;
}

abbrev second : Start
second = record first { url_str = "http://b.org/"; max_depth = pos 1 }

abbrev in_turn : List ℕ
in_turn = 1 ∷ 0 ∷ 1 ∷ 1 ∷ []

activity_works : ActivityWorks up_redis
activity_works v ttl s = refl

moves-Owns_example :
    AllOwn up_redis
      (moves up_redis in_turn (first ∷ second ∷ []) empty_store).0
      (moves up_redis in_turn (first ∷ second ∷ []) empty_store).1
moves-Owns_example =
    moves-Owns up_redis activity_works in_turn (first ∷ second ∷ []) empty_store (refl, (refl, tt))

-- The first request could not write the time of its start, and undoes; the second gets the lock before
-- the first deletes the depth limit, which is then the second's.
abbrev failing : Start
failing = record first { pc = undoes_both failed }

abbrev overtaken : List Start × up_redis.Store
overtaken = moves up_redis (0 ∷ 1 ∷ 1 ∷ 1 ∷ 0 ∷ []) (failing ∷ second ∷ []) job_values

both_done :
    overtaken.0
    ≡ record first { pc = returned (err failed) } ∷ record second { pc = returned (ok true) } ∷ []
unfolding moves lookup insert delete
both_done = refl

limit_lost : up_redis.value max_depth_key overtaken.1 ≡ none
unfolding moves lookup insert delete
limit_lost = refl

lock_held : up_redis.value active_job_key overtaken.1 ≡ some (up_redis.of_text "http://b.org/")
unfolding moves lookup insert delete
lock_held = refl
