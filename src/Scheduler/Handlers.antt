-- ===== src/Scheduler/Handlers.antt =====
-- scheduler/internal/handlers/crawl.go and stop.go: what POST /crawl and POST /stop do and answer.
-- `has_redis` and `has_conn` say that the handler was made with a client and with connections.
pub mod Crawl
pub mod Ping
pub mod Race
pub mod Start
pub mod Stop
pub mod Tests
use distributed_web_crawler.Base.{
  ℕ, String, Bool, true, false, Result, ok, err, ℤ, pos, str_eq, if◌then◌else◌,
}
use distributed_web_crawler.Common.Config.{Config, ttl_of}
use distributed_web_crawler.Services.Redis.{Redis, RedisError}
use distributed_web_crawler.Services.Json.{Json}
use distributed_web_crawler.Services.Rabbit.{Rabbit}
use distributed_web_crawler.Scheduler.World.{World}
use distributed_web_crawler.Scheduler.Bloom.{add_to_bloom}
use distributed_web_crawler.Scheduler.Broker.{insert_message, purge_queues}
use distributed_web_crawler.Scheduler.Jobs.{is_job_active, start_job, force_cleanup_job}

pub record CrawlRequest : Type 0 where
  pub url : String
  pub depth : ℤ

pub record Response : Type 0 where
  pub status : ℕ
  pub message : String

abbrev pub respond : ℕ → String → Response
respond status message = record { status = status; message = message }

module _ (r : Redis) (j : Json) (q : Rabbit j.Body) where
  abbrev Handled : Type 0
  Handled = Response × World r j q

  -- `if rdb != nil { db.ForceCleanupJob(rdb) }`
  abbrev pub clean_up : Bool → World r j q → World r j q
  clean_up has_redis w = if has_redis then record w { store = force_cleanup_job r w.store } else w

  -- On an open channel: the seed goes to the filter, an error of which is only logged, and to the broker.
  unfoldable pub publish_seed : Bool → CrawlRequest → World r j q → Handled
  publish_seed has_redis req w =
      let w₁ : World r j q =
        if has_redis then record w { store = (add_to_bloom r req.url w.store).1 } else w in
      let (sent, w₂) = insert_message r j q req.url (pos 0) req.depth w₁ in
      elim sent [
        | ok _ ↦ (respond 200 "job started", w₂)
        | err e ↦ (respond 500 "failed to queue job", clean_up has_redis w₂)
      ]

  unfoldable pub queue_seed : Bool → Bool → CrawlRequest → World r j q → Handled
  unfolding publish_seed
  queue_seed has_redis has_conn req w =
      if has_conn
      then (if q.ready w.broker
          then (let (opened, b) = q.open_channel w.broker in
              let w₁ : World r j q = record w { broker = b } in
              elim opened [
                | ok _ ↦ publish_seed has_redis req w₁
                | err e ↦ (respond 500 "failed to process crawl request", clean_up has_redis w₁)
              ])
          else (respond 503 "message broker is currently offline", clean_up has_redis w))
      else (respond 200 "job started", w)

  unfoldable pub start : Bool → CrawlRequest → Config → ℤ → World r j q → Handled
  unfolding queue_seed
  start has_conn req c now w =
      let (started, s) = start_job r req.url req.depth now (ttl_of c) w.store in
      let w₁ : World r j q = record w { store = s } in
      elim started [
        | ok b ↦
            if b
            then queue_seed true has_conn req w₁
            else (respond 429 "another crawl job is currently in progress", w₁)
        | err e ↦ (respond 500 "failed to start job", w₁)
      ]

  unfoldable pub check_and_start : Bool → CrawlRequest → Config → ℤ → World r j q → Handled
  unfolding start
  check_and_start has_conn req c now w =
      let (active, s) = is_job_active r w.store in
      let w₁ : World r j q = record w { store = s } in
      elim active [
        | ok b ↦
            if b
            then (respond 429 "another crawl job is currently in progress", w₁)
            else start has_conn req c now w₁
        | err e ↦ (respond 500 "failed to check job state", w₁)
      ]

  -- `bound` is what `ShouldBind` made of the request, or its error's text.
  unfoldable pub handle_crawl :
      Bool → Bool → Config → ℤ → Result String CrawlRequest → World r j q → Handled
  unfolding check_and_start
  handle_crawl has_redis has_conn c now (err message) w = (respond 400 message, w)
  handle_crawl has_redis has_conn c now (ok req) w =
      if str_eq req.url ""
      then (respond 400 "url is required", w)
      else (if has_redis
          then check_and_start has_conn req c now w
          else queue_seed false has_conn req w)

  abbrev pub stopped : Response
  stopped = respond 200 "crawl job stopped successfully"

  unfoldable pub purge : World r j q → Handled
  purge w =
      let (opened, b) = q.open_channel w.broker in
      let (purged, b') = purge_queues r j q b in
      elim opened [
        | ok _ ↦ elim purged [
          | ok _ ↦ (stopped, record w { broker = b' })
          | err e ↦ (
            respond 500 "failed to purge queues, workers might still process some URLs",
            record w { broker = b' },
          )
        ]
        | err e ↦
            (respond 500 "failed to open channel, but job state cleared", record w { broker = b })
      ]

  unfoldable pub stop_active : Bool → World r j q → Handled
  unfolding purge
  stop_active has_conn w =
      let w₁ : World r j q = record w { store = force_cleanup_job r w.store } in
      if has_conn then (if q.ready w₁.broker then purge w₁ else (stopped, w₁)) else (stopped, w₁)

  unfoldable pub handle_stop : Bool → Bool → World r j q → Handled
  unfolding stop_active
  handle_stop has_redis has_conn w =
      if has_redis
      then (let (active, s) = is_job_active r w.store in
          let w₁ : World r j q = record w { store = s } in
          elim active [
            | ok b ↦
                if b
                then stop_active has_conn w₁
                else (respond 400 "no active crawl job to stop", w₁)
            | err e ↦ (respond 500 "failed to check job state", w₁)
          ])
      else (respond 500 "Redis client is nil, cannot stop job", w)
