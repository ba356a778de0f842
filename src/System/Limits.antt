-- ===== src/System/Limits.antt =====
-- The depth limit in Redis while jobs start and end (scheduler/internal/db/redis.go).
use distributed_web_crawler.Scheduler.Jobs.Locking.{active_ne_depth, depth_ne_last}
use distributed_web_crawler.Base.{sym, IsInt64, Result-cases, ◌≢◌, String, ℤ, inl, inr, true, false}
use distributed_web_crawler.Services.Redis.{Redis}
use distributed_web_crawler.Services.Json.{Json}
use distributed_web_crawler.Services.Rabbit.{Rabbit}
use distributed_web_crawler.Scheduler.Jobs.{
  active_job_key, last_activity_key, max_depth_key, start_job, init_max_depth, init_last_activity,
  force_cleanup_job,
}
use distributed_web_crawler.System.Effects.{HasLimit-same, HasLimit}

module _ (r : Redis) (j : Json) (q : Rabbit j.Body) where
  open r use {of_text, of_int, set, set_nx, del, value}

  del-HasLimit :
      (k : String) (s : r.Store) → k ≢ max_depth_key → HasLimit r j q s → HasLimit r j q (del k s).1
  del-HasLimit k s ne h = HasLimit-same r j q s _ (r.del_other k max_depth_key s ne) h

  set-HasLimit :
      (k : String) (v : r.Value) (ttl : ℤ) (s : r.Store)
      → k ≢ max_depth_key
      → HasLimit r j q s
      → HasLimit r j q (set k v ttl s).1
  set-HasLimit k v ttl s ne h = HasLimit-same r j q s _ (r.set_other k max_depth_key v ttl s ne) h

  -- Deleting the limit, whatever the reply is.
  drop-HasLimit : (s : r.Store) → HasLimit r j q s → HasLimit r j q (del max_depth_key s).1
  drop-HasLimit s h = elim (r.del_either max_depth_key s) [
    | inl same ↦ HasLimit-same r j q s _ same h
    | inr gone ↦ inl gone
  ]

  write-HasLimit :
      (d ttl : ℤ) (s : r.Store)
      → IsInt64 d
      → HasLimit r j q s
      → HasLimit r j q (set max_depth_key (of_int d) ttl s).1
  write-HasLimit d ttl s i h = elim (r.set_either max_depth_key (of_int d) ttl s) [
    | inl same ↦ HasLimit-same r j q s _ same h
    | inr written ↦ inr (d, i, written)
  ]

  active_other : active_job_key ≢ max_depth_key
  active_other = active_ne_depth

  last_other : last_activity_key ≢ max_depth_key
  last_other e = depth_ne_last (sym e)

  pub force_cleanup_job-HasLimit :
      (s : r.Store) → HasLimit r j q s → HasLimit r j q (force_cleanup_job r s)
  unfolding force_cleanup_job
  force_cleanup_job-HasLimit s h =
      del-HasLimit last_activity_key _ last_other
        (drop-HasLimit _ (del-HasLimit active_job_key s active_other h))

  init_last_activity-HasLimit :
      (now ttl : ℤ) (s : r.Store)
      → HasLimit r j q s
      → HasLimit r j q (init_last_activity r now ttl s).1
  unfolding init_last_activity
  init_last_activity-HasLimit now ttl s h =
      let s₁ = (set last_activity_key (of_int now) ttl s).1 in
      let h₁ = set-HasLimit last_activity_key (of_int now) ttl s last_other h in
      elim (Result-cases (set last_activity_key (of_int now) ttl s).0) [
        | inl (_, e) ↦ rw (e, init_last_activity) h₁
        | inr (x, e) ↦
            rw (e, init_last_activity)
              (drop-HasLimit _ (del-HasLimit active_job_key s₁ active_other h₁))
      ]

  init_max_depth-HasLimit :
      (max_depth now ttl : ℤ) (s : r.Store)
      → IsInt64 max_depth
      → HasLimit r j q s
      → HasLimit r j q (init_max_depth r max_depth now ttl s).1
  unfolding init_max_depth
  init_max_depth-HasLimit max_depth now ttl s i h =
      let s₁ = (set max_depth_key (of_int max_depth) ttl s).1 in
      let h₁ = write-HasLimit max_depth ttl s i h in
      elim (Result-cases (set max_depth_key (of_int max_depth) ttl s).0) [
        | inl (_, e) ↦ rw (e, init_max_depth) (init_last_activity-HasLimit now ttl s₁ h₁)
        | inr (x, e) ↦ rw (e, init_max_depth) (del-HasLimit active_job_key s₁ active_other h₁)
      ]

  pub start_job-HasLimit :
      (url : String) (max_depth now ttl : ℤ) (s : r.Store)
      → IsInt64 max_depth
      → HasLimit r j q s
      → HasLimit r j q (start_job r url max_depth now ttl s).1
  unfolding start_job
  start_job-HasLimit url max_depth now ttl s i h =
      let s₁ = (set_nx active_job_key (of_text url) ttl s).1 in
      let h₁ =
        HasLimit-same r j q s s₁
          (r.set_nx_other active_job_key max_depth_key (of_text url) ttl s active_other) h in
      elim (Result-cases (set_nx active_job_key (of_text url) ttl s).0) [
        | inl (true, e) ↦ rw (e, start_job) (init_max_depth-HasLimit max_depth now ttl s₁ i h₁)
        | inl (false, e) ↦ rw (e, start_job) h₁
        | inr (x, e) ↦ rw (e, start_job) h₁
      ]
