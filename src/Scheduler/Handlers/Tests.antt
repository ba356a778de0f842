-- ===== src/Scheduler/Handlers/Tests.antt =====
-- The theorems on the handlers at concrete inputs.
use distributed_web_crawler.Scheduler.Handlers.Ping.{handle_ping-AllOpen, handle_ping}
use distributed_web_crawler.Services.MemoryClients.{clients}
use distributed_web_crawler.Common.Connections.Opening.{AllOpen}
use distributed_web_crawler.Common.Connections.{Connections, connect_all}
use distributed_web_crawler.Services.Clients.{Clients}
use distributed_web_crawler.Scheduler.Broker.{insert_message, purge_queues}
use distributed_web_crawler.Services.MemoryBroker.{empty_broker, json}
use distributed_web_crawler.Scheduler.Handlers.Stop.{handle_stop_idle, handle_stop_ok, Drained}
use distributed_web_crawler.Scheduler.Handlers.Start.{handle_crawl_outcome, GivesBack, Accepted}
use distributed_web_crawler.Scheduler.Jobs.Locking.{DelWorks, SetNxWorks}
use distributed_web_crawler.Scheduler.Handlers.Crawl.{handle_crawl_held, Untouched}
use distributed_web_crawler.Scheduler.Jobs.{start_job, is_job_active, active_job_key}
use distributed_web_crawler.Scheduler.Handlers.{CrawlRequest, handle_crawl, handle_stop}
use distributed_web_crawler.Base.{
  false, inr, inl, Option-cases, [], ◌⊎◌, eq_iff, true, ◌∷◌, false≢true, none, ◌≡◌, ◌≢◌, refl, pos,
  ok, lookup, insert, arith,
}
use distributed_web_crawler.Scheduler.Samples.{World', up_redis, up_rabbit, idle, running, config}

abbrev request : CrawlRequest
request = record { url = "http://a.org/"; depth = pos 2 }

accepted :
    (handle_crawl up_redis json up_rabbit true true config (pos 100) (ok request) idle).0.status
    ≡ 200
unfolding handle_crawl is_job_active start_job insert_message lookup insert
accepted = refl

held : lookup active_job_key running.store.values ≢ none
unfolding lookup
held h = cc h

free : lookup active_job_key idle.store.values ≡ none
unfolding lookup
free = refl

refused_while_held :
    Untouched up_redis json up_rabbit running
      (handle_crawl up_redis json up_rabbit true true config (pos 100) (ok request) running)
refused_while_held =
    handle_crawl_held up_redis json up_rabbit true config (pos 100) (ok request) running held

deletes : DelWorks up_redis
deletes k s = (_, refl)

sets : SetNxWorks up_redis
sets k v ttl s = elim (Option-cases (lookup k s.values)) [
  | inl e ↦ (true, ground arith)
  | inr (x, e) ↦ (false, ground arith)
]

named : request.url ≢ ""
named e = false≢true ((eq_iff request.url "").1 e)

handle_crawl_outcome_example :
    Accepted up_redis json up_rabbit request
      (pos 100)
      idle
      (handle_crawl up_redis json up_rabbit true true config (pos 100) (ok request) idle)
    ⊎ GivesBack up_redis json up_rabbit idle
        (handle_crawl up_redis json up_rabbit true true config (pos 100) (ok request) idle)
handle_crawl_outcome_example =
    handle_crawl_outcome up_redis json up_rabbit deletes sets request config (pos 100) idle named
      free

nothing_to_stop :
    Untouched up_redis json up_rabbit idle (handle_stop up_redis json up_rabbit true true idle)
nothing_to_stop = handle_stop_idle up_redis json up_rabbit true idle free

abbrev stopping : World'
stopping = record running { broker = record empty_broker { counts = ("queue_2", 7) ∷ [] } }

stops : (handle_stop up_redis json up_rabbit true true stopping).0.status ≡ 200
unfolding handle_stop is_job_active purge_queues lookup insert
stops = refl

handle_stop_ok_example :
    Drained up_redis json up_rabbit
      (handle_stop up_redis json up_rabbit true true stopping).1.broker
handle_stop_ok_example =
    (handle_stop_ok up_redis json up_rabbit true stopping deletes stops).1 refl refl

abbrev all_up : Clients
all_up = clients (λ name. false)

abbrev made : Connections all_up
made = record { mongo_client = 0; redis_client = 1; rabbit_mq = record { conn = 3; channel = 7 } }

connects : (connect_all all_up []).0 ≡ ok made
unfolding connect_all
connects = refl

ping_leaks : AllOpen all_up made (handle_ping all_up []).1
ping_leaks = handle_ping-AllOpen all_up [] made connects
