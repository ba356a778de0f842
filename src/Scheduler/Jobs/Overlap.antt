-- ===== src/Scheduler/Jobs/Overlap.antt =====
-- scheduler/internal/db/redis.go: `ForceCleanupJob` command by command, while any number of requests run
-- `StartJob`. Redis takes the commands of all of them one at a time, in any order.
pub mod Locked
pub mod Tests
use distributed_web_crawler.Base.{ℕ, List, [], ◌∷◌}
use distributed_web_crawler.Services.Redis.{Redis}
use distributed_web_crawler.Scheduler.Jobs.{active_job_key, max_depth_key, last_activity_key}
use distributed_web_crawler.Scheduler.Jobs.Race.{Start, move}

-- Before each DEL of the cleanup, and at its end.
pub data Cleanup : Type 0 where
  at_lock at_depth at_activity cleaned : Cleanup

-- Whose command is next: that of the request with the number, or the cleanup's.
pub data Turn : Type 0 where
  request : ℕ → Turn
  cleanup : Turn

module _ (r : Redis) where
  open r use {Store, del}

  unfoldable pub clean_at : Cleanup → Store → Cleanup × Store
  clean_at at_lock s = (at_depth, (del active_job_key s).1)
  clean_at at_depth s = (at_activity, (del max_depth_key s).1)
  clean_at at_activity s = (cleaned, (del last_activity_key s).1)
  clean_at cleaned s = (cleaned, s)

  unfoldable pub overlap : List Turn → Cleanup → List Start → Store → Cleanup × List Start × Store
  unfolding clean_at move
  overlap [] p cs s = (p, cs, s)
  overlap (request n ∷ ts) p cs s = let (cs', s') = move r n cs s in overlap ts p cs' s'
  overlap (cleanup ∷ ts) p cs s = let (p', s') = clean_at p s in overlap ts p' cs s'
