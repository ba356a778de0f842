-- ===== src/System/Handlers.antt =====
-- The effects of POST /crawl (scheduler/internal/handlers/crawl.go) on what the parts share.
use distributed_web_crawler.Base.{
  IsInt64, Bool-cases, Result-cases, str_eq, ℤ, pos, refl, inl, inr, [], ◌∷◌, true, false, ok,
  arith,
}
use distributed_web_crawler.Common.Config.{Config, ttl_of}
use distributed_web_crawler.Services.Redis.{Redis}
use distributed_web_crawler.Services.Json.{Json}
use distributed_web_crawler.Services.Rabbit.{Rabbit}
use distributed_web_crawler.Scheduler.World.{World}
use distributed_web_crawler.Scheduler.Jobs.{is_job_active, max_depth_key, start_job}
use distributed_web_crawler.Scheduler.Results.Delivery.{bloom_ne_depth}
use distributed_web_crawler.Scheduler.Bloom.{value-add_to_bloom, add_to_bloom}
use distributed_web_crawler.Scheduler.Broker.{insert_message}
use distributed_web_crawler.Scheduler.Broker.Publish.{
  insert_message_outcome, insert_message-Keeps, to_hashing,
}
use distributed_web_crawler.Scheduler.Handlers.{
  CrawlRequest, handle_crawl, check_and_start, start, queue_seed, publish_seed,
}
use distributed_web_crawler.Scheduler.Handlers.Crawl.{seed_message}
use distributed_web_crawler.System.Effects.{IsSeed, HasLimit-same, Effects-same, HasLimit}
use distributed_web_crawler.System.Limits.{start_job-HasLimit}
use distributed_web_crawler.System.Spawns.{
  Spawns, Spawns-trans, Spawns-store, clean_up-Spawns, looked,
}

module _ (r : Redis) (j : Json) (q : Rabbit j.Body) where
  insert_message-Spawns :
      (req : CrawlRequest) (w : World r j q)
      → Spawns r j q (IsSeed r j q req) w (insert_message r j q req.url (pos 0) req.depth w).1
  insert_message-Spawns req w =
      let m = seed_message r j q req in
      let keeps = insert_message-Keeps r j q m w in
      let limit = λ (h : HasLimit r j q w.store).
        HasLimit-same r j q w.store
          (insert_message r j q m.url m.current_depth m.max_depth w).1.store (rw keeps.store refl)
          h in
      elim (insert_message_outcome r j q m w) [
        | inl (_, queued) ↦ record {
          effects = record {
            fresh = to_hashing r j q m.url queued.body ∷ [];
            published = queued.published;
            counted = omega (arith, queued.counted);
            good = (
              record {
                message = m;
                encodes = queued.encodes;
                exchange = refl;
                routed = refl;
                fits = (omega arith, omega arith);
                bounded = inl refl;
              },
              tt,
            );
            origin = (queued.encodes, tt);
            limit = limit;
          };
          dbchan = keeps.dbchan;
        }
        | inr (_, _, unqueued) ↦ record {
          effects =
              Effects-same r j q (IsSeed r j q req) w _ unqueued.published unqueued.counted limit;
          dbchan = keeps.dbchan;
        }
      ]

  publish_seed-Spawns :
      (req : CrawlRequest) (w : World r j q)
      → Spawns r j q (IsSeed r j q req) w (publish_seed r j q true req w).1
  unfolding publish_seed
  publish_seed-Spawns req w =
      let w₁ : World r j q = record w { store = (add_to_bloom r req.url w.store).1 } in
      let w₂ = (insert_message r j q req.url (pos 0) req.depth w₁).1 in
      let filtered = Spawns-store r j q (IsSeed r j q req) w₁.store w.broker w (
        HasLimit-same r j q w.store w₁.store
          (value-add_to_bloom r max_depth_key req.url w.store bloom_ne_depth)) in
      let sent =
        Spawns-trans r j q (IsSeed r j q req) w w₁ w₂ filtered (insert_message-Spawns req w₁) in
      elim (Result-cases (insert_message r j q req.url (pos 0) req.depth w₁).0) [
        | inl (_, e) ↦ rw (e, publish_seed) sent
        | inr (x, e) ↦
            rw (e, publish_seed)
              (Spawns-trans r j q (IsSeed r j q req) w w₂ _ sent
                (clean_up-Spawns r j q (IsSeed r j q req) w₂))
      ]

  queue_seed-Spawns :
      (req : CrawlRequest) (w : World r j q)
      → Spawns r j q (IsSeed r j q req) w (queue_seed r j q true true req w).1
  unfolding queue_seed
  queue_seed-Spawns req w = elim (Bool-cases (q.ready w.broker)) [
    | inr offline ↦ rw (offline, queue_seed) (clean_up-Spawns r j q (IsSeed r j q req) w)
    | inl online ↦
        let w₁ : World r j q = record w { broker = (q.open_channel w.broker).1 } in
        let opened = Spawns-store r j q (IsSeed r j q req) w.store w₁.broker w (λ h. h) in
        elim (Result-cases (q.open_channel w.broker).0) [
          | inl (_, e) ↦
              rw (online, queue_seed, e)
                (Spawns-trans r j q (IsSeed r j q req) w w₁ _ opened (publish_seed-Spawns req w₁))
          | inr (x, e) ↦
              rw (online, queue_seed, e)
                (Spawns-trans r j q (IsSeed r j q req) w w₁ _ opened
                  (clean_up-Spawns r j q (IsSeed r j q req) w₁))
        ]
  ]

  start-Spawns :
      (req : CrawlRequest) (c : Config) (now : ℤ) (w : World r j q)
      → IsInt64 req.depth
      → Spawns r j q (IsSeed r j q req) w (start r j q true req c now w).1
  unfolding start
  start-Spawns req c now w i =
      let w₁ : World r j q = record w {
        store = (start_job r req.url req.depth now (ttl_of c) w.store).1;
      } in
      let locked =
        Spawns-store r j q (IsSeed r j q req) w₁.store w.broker w
          (start_job-HasLimit r j q req.url req.depth now (ttl_of c) w.store i) in
      elim (Result-cases (start_job r req.url req.depth now (ttl_of c) w.store).0) [
        | inl (true, e) ↦
            rw (e, start)
              (Spawns-trans r j q (IsSeed r j q req) w w₁ _ locked (queue_seed-Spawns req w₁))
        | inl (false, e) ↦ rw (e, start) locked
        | inr (x, e) ↦ rw (e, start) locked
      ]

  check_and_start-Spawns :
      (req : CrawlRequest) (c : Config) (now : ℤ) (w : World r j q)
      → IsInt64 req.depth
      → Spawns r j q (IsSeed r j q req) w (check_and_start r j q true req c now w).1
  unfolding check_and_start
  check_and_start-Spawns req c now w i =
      let w₁ : World r j q = record w { store = (is_job_active r w.store).1 } in
      elim (Result-cases (is_job_active r w.store).0) [
        | inl (true, e) ↦ rw (e, check_and_start) (looked r j q (IsSeed r j q req) w w.broker)
        | inl (false, e) ↦
            rw (e, check_and_start)
              (Spawns-trans r j q (IsSeed r j q req) w w₁ _
                (looked r j q (IsSeed r j q req) w w.broker) (start-Spawns req c now w₁ i))
        | inr (x, e) ↦ rw (e, check_and_start) (looked r j q (IsSeed r j q req) w w.broker)
      ]

  pub handle_crawl-Spawns :
      (c : Config) (now : ℤ) (req : CrawlRequest) (w : World r j q)
      → IsInt64 req.depth
      → Spawns r j q (IsSeed r j q req) w (handle_crawl r j q true true c now (ok req) w).1
  unfolding handle_crawl
  handle_crawl-Spawns c now req w i = elim (Bool-cases (str_eq req.url "")) [
    | inl empty ↦
        rw (empty, handle_crawl) (Spawns-store r j q (IsSeed r j q req) w.store w.broker w (λ h. h))
    | inr given ↦ rw (given, handle_crawl) (check_and_start-Spawns req c now w i)
  ]
