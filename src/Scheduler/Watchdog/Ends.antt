-- ===== src/Scheduler/Watchdog/Ends.antt =====
-- scheduler/internal/broker/broker.go: when `checkJobStatus` ends the job.
use distributed_web_crawler.Scheduler.Jobs.Cleanup.{force_cleanup_job-cleared}
use distributed_web_crawler.Common.Constants.{result_queue, queues}
use distributed_web_crawler.Scheduler.Watchdog.Keeps.{
  is_job_active-keeps, parsed, queues_empty-keeps, AllEmpty,
}
use distributed_web_crawler.Scheduler.Jobs.Locking.{DelWorks}
use distributed_web_crawler.Scheduler.Watchdog.{
  check_queues, check_channel, expired, check_activity, says_active, check_job_status, queues_empty,
}
use distributed_web_crawler.Scheduler.Jobs.{
  last_activity_key, max_depth_key, active_job_key, is_job_active,
}
use distributed_web_crawler.Base.{
  wrap64-of-IsInt64, Result-cases, ◌<ℤ◌, ◌-ℤ◌, IsInt64, sub64, All-map, Option-cases, ◌∙◌, All,
  List, ℤ, ◌≢◌, String, refl, ok, err, true, inl, inr, ◌≡◌, [], ◌∷◌, arith, ℕ, some, none,
}
use distributed_web_crawler.Services.Redis.{Redis, failed}
use distributed_web_crawler.Services.Json.{Json}
use distributed_web_crawler.Services.Rabbit.{Rabbit}
use distributed_web_crawler.Scheduler.World.{World}

module _ (r : Redis) (j : Json) (q : Rabbit j.Body) where
  open q use {State, ready, open_channel, inspect, waiting}

  -- Redis answers EXISTS and DEL, and the broker opens channels and inspects queues.
  pub record Answers : Type 0 where
    pub exists : (k : String) (s : r.Store) → (n : ℕ) × ((r.exists k s).0 ≡ ok n)
    pub del : DelWorks r
    pub channel : (s : State) → (open_channel s).0 ≡ ok tt
    pub inspect : (k : String) (s : State) → (n : ℕ) × ((q.inspect k s).0 ≡ ok n)

  -- None of the three keys of the job is left.
  pub record IsEnded (s : r.Store) : Type 0 where
    pub lock : r.value active_job_key s ≡ none
    pub depth : r.value max_depth_key s ≡ none
    pub activity : r.value last_activity_key s ≡ none

  module _ (answers : Answers) where
    queues_empty-seen :
        (names : List String) (s : State)
        → All (λ k. waiting k s ≡ 0) names
        → (queues_empty r j q names s).0 ≡ true
    unfolding queues_empty
    queues_empty-seen [] s h = refl
    queues_empty-seen (name ∷ names) s h =
        let (n, e) = answers.inspect name s in
        let zero_left : n ≡ 0 = q.inspect_ok name s n e ∙ h.0 in
        rw (e, queues_empty, zero_left)
          (queues_empty-seen names (inspect name s).1 (
            All-map (λ k. waiting k s ≡ 0) (λ k. waiting k (inspect name s).1 ≡ 0)
              (λ k z. q.inspect_keeps name k s ∙ z) names h.1))

    active_seen :
        (s : r.Store)
        → r.value active_job_key s ≢ none
        → says_active r j q (is_job_active r s).0 ≡ true
    unfolding is_job_active
    active_seen s held =
        let (n, e) = answers.exists active_job_key s in
        elim (Option-cases (r.value active_job_key s)) [
          | inl free ↦ absurd (held free)
          | inr (v, p) ↦ rw (e, r.exists_ok active_job_key s n e, p)
        ]

    -- With everything answered and every queue empty, the check comes down to the last activity.
    reaches_activity :
        (idle_timeout now : ℤ) (w : World r j q)
        → r.value active_job_key w.store ≢ none
        → ready w.broker ≡ true
        → AllEmpty r j q w
        → (b : State) × (check_job_status r j q idle_timeout now w
            ≡ check_activity r j q idle_timeout now
                (record w { store = (is_job_active r w.store).1; broker = b }))
    unfolding check_job_status
    reaches_activity idle_timeout now w held online empty =
        let b = (open_channel w.broker).1 in
        let b₁ = (queues_empty r j q queues b).1 in
        let b₂ = (queues_empty r j q (result_queue ∷ []) b₁).1 in
        let same = λ (k : String). q.open_channel_keeps k w.broker in
        let work = queues_empty-seen queues b (
          same "queue_1" ∙ empty.0,
          (same "queue_2" ∙ empty.1.0, (same "queue_3" ∙ empty.1.1.0, tt)),
        ) in
        let results_ = queues_empty-seen (result_queue ∷ []) b₁ (
          queues_empty-keeps r j q queues result_queue b ∙ same result_queue ∙ empty.1.1.1.0,
          tt,
        ) in
        (
          b₂,
          rw (
            active_seen w.store held,
            online,
            check_job_status,
            answers.channel w.broker,
            check_channel,
            work,
            results_,
            check_queues,
          ),
        )

    ends :
        (idle_timeout now : ℤ) (w : World r j q)
        → expired r j q (r.get last_activity_key w.store).0 now idle_timeout ≡ true
        → IsEnded (check_activity r j q idle_timeout now w).store
    unfolding check_activity
    ends idle_timeout now w e =
        let cleared = force_cleanup_job-cleared r answers.del (r.get last_activity_key w.store).1 in
        rw (e, check_activity)
          (record { lock = cleared.0; depth = cleared.1; activity = cleared.2 })

    overdue :
        (idle_timeout now last : ℤ) (s : r.Store)
        → IsInt64 last
        → IsInt64 (now -ℤ last)
        → r.value last_activity_key s ≡ some (r.of_int last)
        → idle_timeout <ℤ now -ℤ last
        → expired r j q (r.get last_activity_key s).0 now idle_timeout ≡ true
    unfolding sub64
    overdue idle_timeout now last s fits diff stored late =
        elim (Result-cases (r.get last_activity_key s).0) [
          | inl (v, e) ↦
              rw
                (
                  e,
                  expired,
                  parsed r j q last s v fits stored e,
                  wrap64-of-IsInt64 (now -ℤ last) diff,
                )
                (ground arith)
          | inr (x, e) ↦ rw (e, expired)
        ]

    module _ (idle_timeout now : ℤ) (w : World r j q) (held : r.value active_job_key w.store ≢ none)
        (online : ready w.broker ≡ true) (empty : AllEmpty r j q w) where
      -- A job that holds the lock, while the broker is online and all queues are empty, and whose last
      -- activity is more than the timeout ago, is ended: its lock, its depth limit and its last
      -- activity are gone, as long as Redis and the broker answer and the times are within 64 bits.
      pub check_job_status_ends :
          (last : ℤ)
          → IsInt64 last
          → IsInt64 (now -ℤ last)
          → r.value last_activity_key w.store ≡ some (r.of_int last)
          → idle_timeout <ℤ now -ℤ last
          → IsEnded (check_job_status r j q idle_timeout now w).store
      check_job_status_ends last fits diff stored late =
          let (b, e) = reaches_activity idle_timeout now w held online empty in
          rw e (
            ends idle_timeout now (record w { store = (is_job_active r w.store).1; broker = b })
              (overdue idle_timeout now last (is_job_active r w.store).1 fits diff
                (is_job_active-keeps r j q idle_timeout now w last_activity_key ∙ stored) late))

      -- A job that holds the lock, while the broker is online and all queues are empty, is ended by a
      -- GET of the last activity that fails, however recent that activity is, as long as the other
      -- calls answer.
      pub check_job_status_read_error :
          ((s : r.Store) → (r.get last_activity_key s).0 ≡ err failed)
          → IsEnded (check_job_status r j q idle_timeout now w).store
      check_job_status_read_error broken =
          let (b, e) = reaches_activity idle_timeout now w held online empty in
          rw e (
            ends idle_timeout now (record w { store = (is_job_active r w.store).1; broker = b })
              (rw (broken (is_job_active r w.store).1, expired)))
