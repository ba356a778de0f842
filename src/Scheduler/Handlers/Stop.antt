-- ===== src/Scheduler/Handlers/Stop.antt =====
-- scheduler/internal/handlers/stop.go: the answers of POST /stop.
use distributed_web_crawler.Scheduler.Broker.Purge.{purge_queues-empties}
use distributed_web_crawler.Scheduler.Broker.{purge_queues}
use distributed_web_crawler.Scheduler.Jobs.Cleanup.{force_cleanup_job-cleared}
use distributed_web_crawler.Common.Constants.{result_queue, queues}
use distributed_web_crawler.Scheduler.Jobs.Locking.{
  is_job_active-free, value-is_job_active, DelWorks,
}
use distributed_web_crawler.Scheduler.Jobs.{
  is_job_active, last_activity_key, max_depth_key, force_cleanup_job, active_job_key,
}
use distributed_web_crawler.Base.{
  false, true, [], inr, ◌∷◌, String, ◌++◌, inl, sym, true, Result-cases, arith, none, subst, All,
  Bool, ◌≡◌, refl,
}
use distributed_web_crawler.Services.Redis.{Redis}
use distributed_web_crawler.Services.Json.{Json}
use distributed_web_crawler.Services.Rabbit.{Rabbit}
use distributed_web_crawler.Scheduler.World.{World}
use distributed_web_crawler.Scheduler.Handlers.{Response, handle_stop, stop_active, purge}
use distributed_web_crawler.Scheduler.Handlers.Crawl.{Untouched}

module _ (r : Redis) (j : Json) (q : Rabbit j.Body) where
  abbrev Answer : Type 0
  Answer = Response × World r j q

  -- No message waits in a work queue or in the result queue.
  abbrev pub Drained : q.State → Type 0
  Drained b = All (λ k. q.waiting k b ≡ 0) (queues ++ result_queue ∷ [])

  -- The three keys of a job are gone.
  pub record NoJob (s : r.Store) : Type 0 where
    pub lock : r.value active_job_key s ≡ none
    pub depth : r.value max_depth_key s ≡ none
    pub activity : r.value last_activity_key s ≡ none

  cleanup-NoJob : DelWorks r → (s : r.Store) → NoJob (force_cleanup_job r s)
  cleanup-NoJob dels s =
      let (l, d, a) = force_cleanup_job-cleared r dels s in
      record { lock = l; depth = d; activity = a }

  purge-ok : (w : World r j q) → (purge r j q w).0.status ≡ 200 → Drained (purge r j q w).1.broker
  unfolding purge
  purge-ok w h =
      let b = (q.open_channel w.broker).1 in
      elim (Result-cases (q.open_channel w.broker).0) [
        | inl (_, e) ↦ elim (Result-cases (purge_queues r j q b).0) [
          | inl (_, p) ↦ rw (e, p, purge) (purge_queues-empties r j q b p)
          | inr (x, p) ↦ ground arith
        ]
        | inr (x, e) ↦ ground arith
      ]

  purge-store : (w : World r j q) → (purge r j q w).1.store ≡ w.store
  unfolding purge
  purge-store w = ground arith

  -- With a Redis client and no job, a stop is not answered by 200, and changes no key of Redis and
  -- nothing of the broker.
  pub handle_stop_idle :
      (has_conn : Bool) (w : World r j q)
      → r.value active_job_key w.store ≡ none
      → Untouched r j q w (handle_stop r j q true has_conn w)
  unfolding handle_stop
  handle_stop_idle has_conn w free =
      let same = λ (k : String). value-is_job_active r k w.store in
      elim (Result-cases (is_job_active r w.store).0) [
        | inl (true, e) ↦ absurd (is_job_active-free r w.store free e)
        | inl (false, e) ↦
            rw (e, handle_stop)
              (record {
                refused = λ h. omega arith;
                values = same;
                broker = refl;
                published = refl;
              })
        | inr (x, e) ↦
            rw (e, handle_stop)
              (record {
                refused = λ h. omega arith;
                values = same;
                broker = refl;
                published = refl;
              })
      ]

  stop_active-NoJob :
      DelWorks r
      → (has_conn : Bool) (w : World r j q) → NoJob (stop_active r j q has_conn w).1.store
  unfolding stop_active
  stop_active-NoJob dels has_conn w =
      let w₁ : World r j q = record w { store = force_cleanup_job r w.store } in
      subst NoJob (sym (ground (arith, purge-store w₁))) (cleanup-NoJob dels w.store)

  stop_active-Drained :
      (has_conn : Bool) (w : World r j q)
      → has_conn ≡ true
      → q.ready w.broker ≡ true
      → (stop_active r j q has_conn w).0.status ≡ 200
      → Drained (stop_active r j q has_conn w).1.broker
  unfolding stop_active
  stop_active-Drained has_conn w conn online h =
      rw (conn, online, stop_active)
        (purge-ok (record w { store = force_cleanup_job r w.store })
          (rw (conn, online, stop_active) at h))

  -- If a stop, made with a Redis client, is answered by 200, and DEL answers, then the lock, the depth
  -- limit and the last activity are gone, and, with connections made and the broker online, every
  -- queue is empty.
  pub handle_stop_ok :
      (has_conn : Bool) (w : World r j q)
      → DelWorks r
      → (handle_stop r j q true has_conn w).0.status ≡ 200
      → NoJob (handle_stop r j q true has_conn w).1.store
        × (has_conn ≡ true
            → q.ready w.broker ≡ true
            → Drained (handle_stop r j q true has_conn w).1.broker)
  unfolding handle_stop
  handle_stop_ok has_conn w dels h =
      let w₁ : World r j q = record w { store = (is_job_active r w.store).1 } in
      elim (Result-cases (is_job_active r w.store).0) [
        | inl (true, e) ↦
            rw (e, handle_stop)
              (
                stop_active-NoJob dels has_conn w₁,
                λ conn online.
                    stop_active-Drained has_conn w₁ conn online (rw (e, handle_stop) at h),
              )
        | inl (false, e) ↦ ground arith
        | inr (x, e) ↦ ground arith
      ]
