-- ===== src/Scheduler/Handlers/Crawl.antt =====
-- scheduler/internal/handlers/crawl.go: POST /crawl while a job runs.
use distributed_web_crawler.Scheduler.Jobs.Locking.{is_job_active-held, value-is_job_active}
use distributed_web_crawler.Scheduler.Jobs.{is_job_active, active_job_key}
use distributed_web_crawler.Common.Config.{Config}
use distributed_web_crawler.Common.Models.{CrawlMessage}
use distributed_web_crawler.Scheduler.Handlers.{
  CrawlRequest, Response, check_and_start, handle_crawl,
}
use distributed_web_crawler.Base.{
  Option-cases, Result-cases, str_eq, Bool-cases, Result, ℤ, pos, Bool, String, ◌≢◌, refl, ok, err,
  true, false, inl, inr, ◌≡◌, arith, some, none,
}
use distributed_web_crawler.Services.Redis.{Redis}
use distributed_web_crawler.Services.Json.{Json}
use distributed_web_crawler.Services.Rabbit.{Rabbit}
use distributed_web_crawler.Scheduler.World.{World}

module _ (r : Redis) (j : Json) (q : Rabbit j.Body) where
  abbrev Answer : Type 0
  Answer = Response × World r j q

  abbrev pub seed_message : CrawlRequest → CrawlMessage
  seed_message req = record { url = req.url; current_depth = pos 0; max_depth = req.depth }

  -- The broker is left alone, and so is every key of Redis.
  pub record Untouched (w : World r j q) (a : Answer) : Type 0 where
    pub refused : a.0.status ≢ 200
    pub values : (k : String) → r.value k a.1.store ≡ r.value k w.store
    pub broker : a.1.broker ≡ w.broker
    pub published : a.1.published ≡ w.published

  held_check :
      (has_conn : Bool) (req : CrawlRequest) (c : Config) (now : ℤ) (w : World r j q) {v : r.Value}
      → r.value active_job_key w.store ≡ some v
      → Untouched w (check_and_start r j q has_conn req c now w)
  unfolding check_and_start
  held_check has_conn req c now w held =
      let same = λ (k : String). value-is_job_active r k w.store in
      elim (Result-cases (is_job_active r w.store).0) [
        | inl (true, e) ↦
            rw (e, check_and_start)
              (record {
                refused = λ h. omega arith;
                values = same;
                broker = refl;
                published = refl;
              })
        | inl (false, e) ↦ absurd (is_job_active-held r w.store held e)
        | inr (x, e) ↦
            rw (e, check_and_start)
              (record {
                refused = λ h. omega arith;
                values = same;
                broker = refl;
                published = refl;
              })
      ]

  -- While a job holds the lock no request, made with a Redis client, is answered by 200, and none
  -- changes a key of Redis or the broker.
  pub handle_crawl_held :
      (has_conn : Bool) (c : Config) (now : ℤ) (bound : Result String CrawlRequest)
      (w : World r j q)
      → r.value active_job_key w.store ≢ none
      → Untouched w (handle_crawl r j q true has_conn c now bound w)
  unfolding handle_crawl
  handle_crawl_held has_conn c now (err message) w held = record {
    refused = λ h. omega arith;
    values = λ k. refl;
    broker = refl;
    published = refl;
  }
  handle_crawl_held has_conn c now (ok req) w held = elim (Bool-cases (str_eq req.url "")) [
    | inl empty ↦
        rw (empty, handle_crawl)
          (record {
            refused = λ h. omega arith;
            values = λ k. refl;
            broker = refl;
            published = refl;
          })
    | inr given ↦ elim (Option-cases (r.value active_job_key w.store)) [
      | inl free ↦ absurd (held free)
      | inr (v, e) ↦ rw (given, handle_crawl) (held_check has_conn req c now w e)
    ]
  ]
