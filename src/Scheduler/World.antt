-- ===== src/Scheduler/World.antt =====
-- What the scheduler's goroutines share: Redis, the broker, the channel to the batcher and the counters.
-- `published` records what the broker accepted, in order; the program does not read it.
use distributed_web_crawler.Base.{ℕ, List}
use distributed_web_crawler.Services.Redis.{Redis}
use distributed_web_crawler.Services.Json.{Json}
use distributed_web_crawler.Services.Rabbit.{Rabbit, Publishing}

module _ (r : Redis) (j : Json) (q : Rabbit j.Body) where
  pub record World : Type 0 where
    pub store : r.Store
    pub broker : q.State
    -- `dbchan`; a send that has to wait for the batcher is a later send.
    pub dbchan : List j.Body
    -- `URLsQueuedTotal` and `SchedulingErrorsTotal`
    pub urls_queued : ℕ
    pub scheduling_errors : ℕ
    pub published : List (Publishing j.Body)
