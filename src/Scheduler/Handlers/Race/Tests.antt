-- ===== src/Scheduler/Handlers/Race/Tests.antt =====
-- Requests to POST /crawl that come together, at concrete inputs.
use distributed_web_crawler.Base.{ℕ, lookup, insert, delete, [], ◌∷◌, List, ◌≡◌, refl, pos}
use distributed_web_crawler.Services.MemoryBroker.{json}
use distributed_web_crawler.Scheduler.World.{World}
use distributed_web_crawler.Scheduler.Samples.{up_redis, up_rabbit, config, idle}
use distributed_web_crawler.Scheduler.Bloom.{add_to_bloom}
use distributed_web_crawler.Scheduler.Broker.{insert_message}
use distributed_web_crawler.Scheduler.Jobs.{is_job_active}
use distributed_web_crawler.Scheduler.Jobs.Race.Winners.{Safe}
use distributed_web_crawler.Scheduler.Handlers.Race.{Crawl, arrives, crawl_moves}
use distributed_web_crawler.Scheduler.Handlers.Race.Accepted.{all_accepted, crawl_moves-accepted}

abbrev first : Crawl
first = record {
  req = record { url = "http://a.org/"; depth = pos 2 };
  now = pos 100;
  place = arrives;
}

abbrev second : Crawl
second = record first { req = record { url = "http://b.org/"; depth = pos 1 } }

-- Both see that no job runs; the second takes the lock.
abbrev together : List ℕ
together = 0 ∷ 1 ∷ 1 ∷ 0 ∷ 1 ∷ 1 ∷ 1 ∷ 1 ∷ 1 ∷ []

abbrev served : List Crawl × World up_redis json up_rabbit
served = crawl_moves up_redis json up_rabbit config together (first ∷ second ∷ []) idle

one_accepted : all_accepted served.0 ≡ 1
unfolding crawl_moves is_job_active add_to_bloom insert_message lookup insert delete
one_accepted = refl

crawl_moves-accepted_example : Safe up_redis (all_accepted served.0) served.1.store
crawl_moves-accepted_example =
    crawl_moves-accepted up_redis json up_rabbit config together (first ∷ second ∷ []) idle
      (refl, (refl, tt))
