-- ===== src/Scheduler/Jobs/Overlap/Locked.antt =====
-- scheduler/internal/db/redis.go: who holds the lock while a job is cleaned up.
use distributed_web_crawler.Base.{ℕ, List, [], ◌∷◌, All, ◌≡◌, ◌≢◌, ◌+◌, ◌≤◌, refl, none, arith, sym}
use distributed_web_crawler.Services.Redis.{Redis}
use distributed_web_crawler.Scheduler.Jobs.{
  active_job_key, max_depth_key, last_activity_key, force_cleanup_job,
}
use distributed_web_crawler.Scheduler.Jobs.Locking.{active_ne_last, active_ne_depth}
use distributed_web_crawler.Scheduler.Jobs.Race.{Start, begins, move}
use distributed_web_crawler.Scheduler.Jobs.Race.Winners.{
  Safe, holders, winners, winners-le, holders-begins, move-Safe, Safe-same, Safe-none,
}
use distributed_web_crawler.Scheduler.Jobs.Overlap.{
  Cleanup, at_lock, at_depth, at_activity, cleaned, Turn, request, cleanup, clean_at, overlap,
}

-- Whether the job that is cleaned up has its lock.
abbrev pub running : Cleanup → ℕ
running at_lock = 1
running at_depth = 0
running at_activity = 0
running cleaned = 0

module _ (r : Redis) where
  open r use {Store, value, del}

  pub Safe-le : (m n : ℕ) (s : Store) → m ≤ n → Safe r n s → Safe r m s
  Safe-le m n s h i = record { few = omega (arith, i.few); locked = λ e. i.locked (omega arith) }

  pub clean-Safe :
      (p : Cleanup) (k : ℕ) (s : Store)
      → Safe r (running p + k) s
      → Safe r (running (clean_at r p s).0 + k) (clean_at r p s).1
  unfolding clean_at
  clean-Safe at_lock k s i = Safe-le (0 + k) k _ (omega arith) (Safe-none r k s _ i)
  clean-Safe at_depth k s i =
      Safe-same r (0 + k) s _
        (r.del_other max_depth_key active_job_key s (λ e. active_ne_depth (sym e))) i
  clean-Safe at_activity k s i =
      Safe-same r (0 + k) s _
        (r.del_other last_activity_key active_job_key s (λ e. active_ne_last (sym e))) i
  clean-Safe cleaned k s i = i

  overlap-holders :
      (ts : List Turn) (p : Cleanup) (cs : List Start) (s : Store)
      → Safe r (running p + holders cs) s
      → let (p', cs', s') = overlap r ts p cs s in Safe r (running p' + holders cs') s'
  unfolding overlap
  overlap-holders [] p cs s i = i
  overlap-holders (request n ∷ ts) p cs s i =
      let (cs', s') = move r n cs s in
      overlap-holders ts p cs' s' (
        Safe-le (running p + holders cs') (holders cs' + running p) s' (omega arith) (
          move-Safe r n cs (running p) s
            (Safe-le (holders cs + running p) (running p + holders cs) s (omega arith) i)))
  overlap-holders (cleanup ∷ ts) p cs s i =
      let (p', s') = clean_at r p s in overlap-holders ts p' cs s' (clean-Safe p (holders cs) s i)

  -- While the job that holds the lock is cleaned up, any number of requests run StartJob, and the
  -- commands of all interleave and fail in any way: of the job that is cleaned up, until its lock is
  -- deleted, and the requests that have returned true there is at most one, and while there is one,
  -- the key of the lock is in Redis. So the cleanup never takes the lock of a job that starts
  -- meanwhile.
  pub overlap-Safe :
      (ts : List Turn) (cs : List Start) (s : Store)
      → All (λ c. c.pc ≡ begins) cs
      → value active_job_key s ≢ none
      → let (p, cs', s') = overlap r ts at_lock cs s in Safe r (running p + winners cs') s'
  overlap-Safe ts cs s h held =
      let (p, cs', s') = overlap r ts at_lock cs s in
      Safe-le (running p + winners cs') (running p + holders cs') s' (omega (arith, winners-le cs'))
        (overlap-holders ts at_lock cs s
          (record { few = omega (arith, holders-begins r cs h); locked = λ e. held }))

  -- A cleanup that nobody interrupts is force_cleanup_job.
  overlap-force_cleanup_job :
      (cs : List Start) (s : Store)
      → overlap r (cleanup ∷ cleanup ∷ cleanup ∷ []) at_lock cs s
        ≡ (cleaned, cs, force_cleanup_job r s)
  unfolding overlap force_cleanup_job
  overlap-force_cleanup_job cs s = refl
