-- ===== src/System.antt =====
-- The whole system: one scheduler (scheduler/cmd/scheduler/main.go), its batcher, and any number of workers
-- (worker/cmd/main.go), whose handlers take turns in any order. A handler runs as one step; a delivery of a
-- message may come at any time after it was published, more than once or never. The queues are durable, so what
-- they hold at the start is delivered too.
pub mod Effects
pub mod Limits
pub mod Spawns
pub mod Handlers
pub mod Endings
pub mod Pages
pub mod Reached
pub mod Flow
pub mod Invariant
pub mod Sound
pub mod Steps
pub mod Runs
pub mod Progress
pub mod Jobs
pub mod Tests
use distributed_web_crawler.Base.{
  ℕ, String, Bool, true, some, none, List, [], ◌∷◌, ◌++◌, Option, Result, ok, err, ℤ, IsInt64, IsIn,
  ◌≡◌,
}
use distributed_web_crawler.Common.Config.{Config}
use distributed_web_crawler.Services.Redis.{Redis}
use distributed_web_crawler.Services.Json.{Json}
use distributed_web_crawler.Services.Rabbit.{Rabbit, Publishing}
use distributed_web_crawler.Services.Web.{Web}
use distributed_web_crawler.Scheduler.World.{World}
use distributed_web_crawler.Scheduler.Batcher.{Batcher, Collection, Turn, ticks, receives, turn}
use distributed_web_crawler.Scheduler.Handlers.{CrawlRequest, handle_crawl, handle_stop}
use distributed_web_crawler.Scheduler.Results.{process_result, final}
use distributed_web_crawler.Scheduler.Watchdog.{check_job_status}
use distributed_web_crawler.Worker.Crawler.{Crawler}
use distributed_web_crawler.Worker.Consumer.{WorkerState, process_message}

module _ (web : Web) (r : Redis) (j : Json) (q : Rabbit j.Body) where
  pub record System : Type 0 where
    pub scheduler : World r j q
    -- The requests to /crawl so far that bind; the program does not keep them.
    pub requests : List CrawlRequest
    pub batcher : Batcher
    pub collection : Collection
    -- What the workers published, and what the result consumers were given of it, in order.
    pub results : List (Publishing j.Body)
    pub handled : List j.Body
    -- What the queues held at the start: messages for the workers, and results of workers.
    pub old_messages : List (Publishing j.Body)
    pub old_results : List (Publishing j.Body)

  -- Go's `int` holds the depth of a request.
  abbrev pub IsRequest : Result String CrawlRequest → Type 0
  IsRequest (ok req) = IsInt64 req.depth
  IsRequest (err message) = Unit

  abbrev pub posted : Result String CrawlRequest → List CrawlRequest
  posted (ok req) = req ∷ []
  posted (err message) = []

  -- A worker whose crawler is in some state, on the connection of the system's broker.
  abbrev pub worker : Crawler web → System → WorkerState web j q
  worker c s = record { crawler = c; broker = s.scheduler.broker; acked = 0; published = [] }

  -- What the system is after a worker has processed the message.
  abbrev pub fetched : Config → ℕ → j.Body → Crawler web → System → System
  fetched conf now body c s =
      let w = process_message web j q conf now body (worker c s) in
      record s {
        scheduler = record s.scheduler { broker = w.broker };
        results = s.results ++ w.published;
      }

  -- What it is after a result consumer has processed the result.
  abbrev pub reported : Config → j.Body → ℤ → System → System
  reported conf body now s = record s {
    scheduler = final (process_result r j q conf body now s.scheduler);
    handled = s.handled ++ body ∷ [];
  }

  -- What it is after the batcher has taken the body off its channel.
  abbrev pub batched : j.Body → List j.Body → Bool → System → System
  batched body rest works s =
      let (b, c) = turn (receives (j.unmarshal_data body) works) s.batcher s.collection in
      record s { scheduler = record s.scheduler { dbchan = rest }; batcher = b; collection = c }

  abbrev pub ticked : Bool → System → System
  ticked works s =
      let (b, c) = turn (ticks works) s.batcher s.collection in
      record s { batcher = b; collection = c }

  pub data Step (conf : Config) (s : System) : System → Type 0 where
    crawls :
        (now : ℤ) (bound : Result String CrawlRequest)
        → IsRequest bound
        → Step conf s (record s {
          scheduler = (handle_crawl r j q true true conf now bound s.scheduler).1;
          requests = s.requests ++ posted bound;
        })
    stops : Step conf s (record s { scheduler = (handle_stop r j q true true s.scheduler).1 })
    watches :
        (idle_timeout now : ℤ)
        → Step conf s (record s { scheduler = check_job_status r j q idle_timeout now s.scheduler })
    -- A key of Redis comes to the end of its time to live.
    expires :
        (k : String)
        → Step conf s
            (record s { scheduler = record s.scheduler { store = r.expire k s.scheduler.store } })
    fetches :
        (p : Publishing j.Body) (c : Crawler web) (now : ℕ)
        → IsIn p (s.old_messages ++ s.scheduler.published)
        → Step conf s (fetched conf now p.body c s)
    reports :
        (p : Publishing j.Body) (now : ℤ)
        → IsIn p (s.old_results ++ s.results)
        → Step conf s (reported conf p.body now s)
    batches :
        (body : j.Body) (rest : List j.Body) (works : Bool)
        → s.scheduler.dbchan ≡ body ∷ rest
        → Step conf s (batched body rest works s)
    flushes : (works : Bool) → Step conf s (ticked works s)

  -- A scheduler that was just started, over what Redis and the broker hold from before: the messages and the
  -- results in the queues are the last two.
  abbrev pub start :
      r.Store → q.State → List (Publishing j.Body) → List (Publishing j.Body) → System
  start store broker messages results = record {
    scheduler = record {
      store = store;
      broker = broker;
      dbchan = [];
      urls_queued = 0;
      scheduling_errors = 0;
      published = [];
    };
    requests = [];
    batcher = record { items = [] };
    collection = record { batches = [] };
    results = [];
    handled = [];
    old_messages = messages;
    old_results = results;
  }

  pub data Reach (conf : Config) (s : System) : System → Type 0 where
    here : Reach conf s s
    next : {t u : System} → Reach conf s t → Step conf t u → Reach conf s u
