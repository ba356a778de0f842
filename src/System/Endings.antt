-- ===== src/System/Endings.antt =====
-- The effects of POST /stop (scheduler/internal/handlers/stop.go) and of the watchdog on what the parts share.
use distributed_web_crawler.Base.{Bool-cases, Result-cases, ℤ, inl, inr, true, false}
use distributed_web_crawler.Services.Redis.{Redis}
use distributed_web_crawler.Services.Json.{Json}
use distributed_web_crawler.Services.Rabbit.{Publishing, Rabbit}
use distributed_web_crawler.Scheduler.World.{World}
use distributed_web_crawler.Scheduler.Jobs.{
  last_activity_key, is_job_active, max_depth_key, force_cleanup_job,
}
use distributed_web_crawler.Scheduler.Broker.{purge_queues}
use distributed_web_crawler.Scheduler.Handlers.{handle_stop, stop_active, purge}
use distributed_web_crawler.Scheduler.Watchdog.{check_job_status, check_activity, expired}
use distributed_web_crawler.Scheduler.Watchdog.Keeps.{check_job_status-Cases}
use distributed_web_crawler.System.Effects.{HasLimit-same}
use distributed_web_crawler.System.Spawns.{
  Spawns, Spawns-trans, Spawns-store, clean_up-Spawns, looked,
}

module _ (r : Redis) (j : Json) (q : Rabbit j.Body) where
  module _ (P : Publishing j.Body → Type 0) where
    purge-Spawns : (w : World r j q) → Spawns r j q P w (purge r j q w).1
    unfolding purge
    purge-Spawns w =
        let b = (q.open_channel w.broker).1 in
        elim (Result-cases (q.open_channel w.broker).0) [
          | inr (x, e) ↦ rw (e, purge) (Spawns-store r j q P w.store b w (λ h. h))
          | inl (_, e) ↦
              let b' = (purge_queues r j q b).1 in
              let purged = Spawns-store r j q P w.store b' w (λ h. h) in
              elim (Result-cases (purge_queues r j q b).0) [
                | inl (_, e') ↦ rw (e, purge, e') purged
                | inr (x, e') ↦ rw (e, purge, e') purged
              ]
        ]

    pub handle_stop-Spawns : (w : World r j q) → Spawns r j q P w (handle_stop r j q true true w).1
    unfolding handle_stop stop_active
    handle_stop-Spawns w =
        let w₁ : World r j q = record w { store = (is_job_active r w.store).1 } in
        let w₂ : World r j q = record w₁ { store = force_cleanup_job r w₁.store } in
        let cleared =
          Spawns-trans r j q P w w₁ w₂ (looked r j q P w w.broker) (clean_up-Spawns r j q P w₁) in
        elim (Result-cases (is_job_active r w.store).0) [
          | inl (false, e) ↦ rw (e, handle_stop) (looked r j q P w w.broker)
          | inr (x, e) ↦ rw (e, handle_stop) (looked r j q P w w.broker)
          | inl (true, e) ↦ elim (Bool-cases (q.ready w.broker)) [
            | inr offline ↦ rw (e, handle_stop, offline) cleared
            | inl online ↦
                rw (e, handle_stop, online) (Spawns-trans r j q P w w₂ _ cleared (purge-Spawns w₂))
          ]
        ]

    check_activity-Spawns :
        (idle_timeout now : ℤ) (w : World r j q)
        → Spawns r j q P w (check_activity r j q idle_timeout now w)
    unfolding check_activity
    check_activity-Spawns idle_timeout now w =
        let w₁ : World r j q = record w { store = (r.get last_activity_key w.store).1 } in
        let read =
          Spawns-store r j q P w₁.store w.broker w
            (HasLimit-same r j q w.store _ (r.get_keeps last_activity_key max_depth_key w.store)) in
        elim (Bool-cases (expired r j q (r.get last_activity_key w.store).0 now idle_timeout)) [
          | inl old ↦
              rw (old, check_activity)
                (Spawns-trans r j q P w w₁ _ read (clean_up-Spawns r j q P w₁))
          | inr recent ↦ rw (recent, check_activity) read
        ]

    pub check_job_status-Spawns :
        (idle_timeout now : ℤ) (w : World r j q)
        → Spawns r j q P w (check_job_status r j q idle_timeout now w)
    check_job_status-Spawns idle_timeout now w =
        elim (check_job_status-Cases r j q idle_timeout now w) [
          | inl (b, e) ↦ rw e (looked r j q P w b)
          | inr (b, empty, e) ↦ rw e (
              Spawns-trans r j q P w _ _ (looked r j q P w b)
                (check_activity-Spawns idle_timeout now _))
        ]
