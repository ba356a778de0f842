-- ===== src/Scheduler/Handlers/Race.antt =====
-- scheduler/internal/handlers/crawl.go: any number of requests to POST /crawl at the same time, command by
-- command. The handler is made with a client and with connections, as the scheduler's main makes it.
pub mod Accepted
pub mod Alone
pub mod Tests
use distributed_web_crawler.Base.{
  ℕ, zero, suc, true, false, List, [], ◌∷◌, ok, err, ℤ, pos, str_eq, if◌then◌else◌,
}
use distributed_web_crawler.Common.Config.{Config, ttl_of}
use distributed_web_crawler.Services.Redis.{Redis}
use distributed_web_crawler.Services.Json.{Json}
use distributed_web_crawler.Services.Rabbit.{Rabbit}
use distributed_web_crawler.Scheduler.World.{World}
use distributed_web_crawler.Scheduler.Bloom.{add_to_bloom}
use distributed_web_crawler.Scheduler.Broker.{insert_message}
use distributed_web_crawler.Scheduler.Jobs.{is_job_active}
use distributed_web_crawler.Scheduler.Jobs.Race.{
  Pc, Start, begins, has_lock, has_depth, undoes_lock, undoes_both, undoes_depth, returned, step_at,
}
use distributed_web_crawler.Scheduler.Jobs.Overlap.{
  Cleanup, at_lock, at_depth, at_activity, cleaned, clean_at,
}
use distributed_web_crawler.Scheduler.Handlers.{CrawlRequest, Response, respond}

-- Why a job that has started is cleaned up again.
pub data Failure : Type 0 where
  offline unopened unqueued : Failure

abbrev pub answer_of : Failure → Response
answer_of offline = respond 503 "message broker is currently offline"
answer_of unopened = respond 500 "failed to process crawl request"
answer_of unqueued = respond 500 "failed to queue job"

-- Before the first command; in StartJob; before the channel is opened, before the seed goes to the filter
-- and before it is published; in ForceCleanupJob; and at the end.
pub data Place : Type 0 where
  arrives opens filters publishes : Place
  starts : Pc → Place
  cleans : Cleanup → Failure → Place
  answered : Response → Place

pub record Crawl : Type 0 where
  pub req : CrawlRequest
  -- What `time.Now().Unix()` gives in StartJob.
  pub now : ℤ
  pub place : Place

abbrev pub start_of : Config → Crawl → Start
start_of conf c = record {
  url_str = c.req.url;
  max_depth = c.req.depth;
  now = c.now;
  ttl = ttl_of conf;
  pc = begins;
}

-- Where the handler goes on, by where StartJob is.
abbrev pub after_start : Pc → Place
after_start begins = starts begins
after_start has_lock = starts has_lock
after_start has_depth = starts has_depth
after_start (undoes_lock e) = starts (undoes_lock e)
after_start (undoes_both e) = starts (undoes_both e)
after_start (undoes_depth e) = starts (undoes_depth e)
after_start (returned (ok true)) = opens
after_start (returned (ok false)) =
    answered (respond 429 "another crawl job is currently in progress")
after_start (returned (err e)) = answered (respond 500 "failed to start job")

abbrev pub after_clean : Cleanup → Failure → Place
after_clean at_lock f = cleans at_lock f
after_clean at_depth f = cleans at_depth f
after_clean at_activity f = cleans at_activity f
after_clean cleaned f = answered (answer_of f)

module _ (r : Redis) (j : Json) (q : Rabbit j.Body) (conf : Config) where
  -- The next command of one request.
  unfoldable pub crawl_at : Place → Crawl → World r j q → Place × World r j q
  unfolding step_at clean_at
  crawl_at arrives c w =
      if str_eq c.req.url ""
      then (answered (respond 400 "url is required"), w)
      else (let (active, s) = is_job_active r w.store in
          (
            elim active [
              | ok b ↦
                  if b
                  then answered (respond 429 "another crawl job is currently in progress")
                  else starts begins
              | err e ↦ answered (respond 500 "failed to check job state")
            ],
            record w { store = s },
          ))
  crawl_at (starts p) c w =
      let (p', s) = step_at r p (start_of conf c) w.store in
      (after_start p', record w { store = s })
  crawl_at opens c w =
      if q.ready w.broker
      then (let (opened, b) = q.open_channel w.broker in
          (
            elim opened [ ok _ ↦ filters | err e ↦ cleans at_lock unopened ],
            record w { broker = b },
          ))
      else (cleans at_lock offline, w)
  crawl_at filters c w = (publishes, record w { store = (add_to_bloom r c.req.url w.store).1 })
  crawl_at publishes c w =
      let (sent, w') = insert_message r j q c.req.url (pos 0) c.req.depth w in
      (
        elim sent [ ok _ ↦ answered (respond 200 "job started") | err e ↦ cleans at_lock unqueued ],
        w',
      )
  crawl_at (cleans p f) c w =
      let (p', s) = clean_at r p w.store in (after_clean p' f, record w { store = s })
  crawl_at (answered a) c w = (answered a, w)

  -- The request with the number takes its next command; and so for each number of a schedule.
  unfoldable pub crawl_move : ℕ → List Crawl → World r j q → List Crawl × World r j q
  unfolding crawl_at
  crawl_move n [] w = ([], w)
  crawl_move zero (c ∷ cs) w =
      let (p, w') = crawl_at c.place c w in (record c { place = p } ∷ cs, w')
  crawl_move (suc n) (c ∷ cs) w = let (cs', w') = crawl_move n cs w in (c ∷ cs', w')

  unfoldable pub crawl_moves : List ℕ → List Crawl → World r j q → List Crawl × World r j q
  unfolding crawl_move
  crawl_moves [] cs w = (cs, w)
  crawl_moves (n ∷ ns) cs w = let (cs', w') = crawl_move n cs w in crawl_moves ns cs' w'
