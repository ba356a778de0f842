-- ===== src/Scheduler/Jobs/Overlap/Tests.antt =====
-- A cleanup and a request at the same time: the new job keeps its lock and can lose all else.
use distributed_web_crawler.Base.{
  lookup, insert, delete, [], ◌∷◌, true, none, some, ◌≡◌, ◌≢◌, ◌+◌, List, refl, pos, ok,
}
use distributed_web_crawler.Scheduler.Samples.{up_redis, job_values}
use distributed_web_crawler.Scheduler.Jobs.{active_job_key, max_depth_key, last_activity_key}
use distributed_web_crawler.Scheduler.Jobs.Race.{Start, begins, returned}
use distributed_web_crawler.Scheduler.Jobs.Race.Winners.{Safe, winners}
use distributed_web_crawler.Scheduler.Jobs.Overlap.{
  Cleanup, at_lock, Turn, request, cleanup, overlap,
}
use distributed_web_crawler.Scheduler.Jobs.Overlap.Locked.{running, overlap-Safe}

abbrev late : Start
late = record {
  url_str = "http://c.org/";
  max_depth = pos 3;
  now = pos 100;
  ttl = pos 60;
  pc = begins;
}

abbrev in_between : List Turn
in_between = cleanup ∷ request 0 ∷ request 0 ∷ request 0 ∷ cleanup ∷ cleanup ∷ []

abbrev left_over : Cleanup × List Start × up_redis.Store
left_over = overlap up_redis in_between at_lock (late ∷ []) job_values

starts_in_between : left_over.1 ≡ record late { pc = returned (ok true) } ∷ []
unfolding overlap lookup insert delete
starts_in_between = refl

lock_kept : up_redis.value active_job_key left_over.2 ≡ some (up_redis.of_text "http://c.org/")
unfolding overlap lookup insert delete
lock_kept = refl

depth_lost : up_redis.value max_depth_key left_over.2 ≡ none
unfolding overlap lookup insert delete
depth_lost = refl

activity_lost : up_redis.value last_activity_key left_over.2 ≡ none
unfolding overlap lookup insert delete
activity_lost = refl

job_held : up_redis.value active_job_key job_values ≢ none
unfolding lookup
job_held p = cc

overlap-Safe_example : Safe up_redis (running left_over.0 + winners left_over.1) left_over.2
overlap-Safe_example = overlap-Safe up_redis in_between (late ∷ []) job_values (refl, tt) job_held
