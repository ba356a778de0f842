-- ===== src/Scheduler/Jobs/Cleanup.antt =====
-- scheduler/internal/db/redis.go: what `ForceCleanupJob` leaves.
use distributed_web_crawler.Base.{◌≡◌, ◌≢◌, sym, String, none, ok, false, true, ℤ, ◌∙◌}
use distributed_web_crawler.Services.Redis.{Redis}
use distributed_web_crawler.Scheduler.Jobs.{
  active_job_key, max_depth_key, last_activity_key, is_job_active, force_cleanup_job, start_job,
}
use distributed_web_crawler.Scheduler.Jobs.Locking.{
  active_ne_depth, active_ne_last, depth_ne_last, DelWorks, is_job_active-free, start_job-false,
}

module _ (r : Redis) where
  open r use {Store, del, exists, value}

  -- Other keys keep their values.
  pub value-force_cleanup_job :
      (k : String) (s : Store)
      → active_job_key ≢ k
      → max_depth_key ≢ k
      → last_activity_key ≢ k
      → value k (force_cleanup_job r s) ≡ value k s
  unfolding force_cleanup_job
  value-force_cleanup_job k s a d l =
      let s₁ = (del active_job_key s).1 in
      let s₂ = (del max_depth_key s₁).1 in
      r.del_other last_activity_key k s₂ l
      ∙ r.del_other max_depth_key k s₁ d
      ∙ r.del_other active_job_key k s a

  module _ (works : DelWorks r) where
    gone : (k : String) (s : Store) → value k (del k s).1 ≡ none
    gone k s = r.del_ok k s (works k s).0 (works k s).1

    -- With `DEL` answered, a cleanup removes the lock, the depth limit and the last activity.
    pub force_cleanup_job-cleared :
        (s : Store)
        → (value active_job_key (force_cleanup_job r s) ≡ none)
          × (value max_depth_key (force_cleanup_job r s) ≡ none)
          × (value last_activity_key (force_cleanup_job r s) ≡ none)
    unfolding force_cleanup_job
    force_cleanup_job-cleared s =
        let s₁ = (del active_job_key s).1 in
        let s₂ = (del max_depth_key s₁).1 in
        (
          r.del_other last_activity_key active_job_key s₂ (λ e. active_ne_last (sym e))
              ∙ r.del_other max_depth_key active_job_key s₁ (λ e. active_ne_depth (sym e))
              ∙ gone active_job_key s,
          r.del_other last_activity_key max_depth_key s₂ (λ e. depth_ne_last (sym e))
              ∙ gone max_depth_key s₁,
          gone last_activity_key s₂,
        )

    -- As long as DEL answers, the job is not seen as active after a cleanup, and a start is not
    -- refused.
    pub force_cleanup_job-frees :
        (s : Store) (url_str : String) (max_depth now ttl : ℤ)
        → ((is_job_active r (force_cleanup_job r s)).0 ≢ ok true)
          × ((start_job r url_str max_depth now ttl (force_cleanup_job r s)).0 ≢ ok false)
    force_cleanup_job-frees s url_str max_depth now ttl = (
      is_job_active-free r (force_cleanup_job r s) (force_cleanup_job-cleared s).0,
      λ e.
          (start_job-false r url_str max_depth now ttl (force_cleanup_job r s) e).0
            (force_cleanup_job-cleared s).0,
    )
