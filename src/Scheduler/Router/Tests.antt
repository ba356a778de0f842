-- ===== src/Scheduler/Router/Tests.antt =====
-- The router at concrete requests.
use distributed_web_crawler.Base.{
  String, ◌≡◌, ◌≢◌, refl, ok, none, some, [], pos, lookup, false≢true, eq_iff,
}
use distributed_web_crawler.Services.MemoryBroker.{json}
use distributed_web_crawler.Common.Connections.Tests.{all_up}
use distributed_web_crawler.Scheduler.Samples.{up_redis, up_rabbit, config, running}
use distributed_web_crawler.Scheduler.Host.{Host}
use distributed_web_crawler.Scheduler.Jobs.{active_job_key}
use distributed_web_crawler.Scheduler.Handlers.{respond}
use distributed_web_crawler.Scheduler.Router.{Request, crawl, find_route, setup_router, serve}
use distributed_web_crawler.Scheduler.Router.Routing.{serve_held}

abbrev busy : Host all_up up_redis json up_rabbit
busy = record { clients = []; world = running }

abbrev again : Request
again = record {
  method = "POST";
  path = "/crawl";
  bound = ok (record { url = "http://b.org/"; depth = pos 3 });
}

held : up_redis.value active_job_key busy.world.store ≢ none
unfolding lookup
held e = cc e

serve_held_example :
    let w =
      (serve all_up up_redis json up_rabbit
        (respond 404 "404 page not found")
        (respond 200 "metrics")
        config
        (pos 120)
        again
        busy).1.world in
    ((k : String) → up_redis.value k w.store ≡ up_redis.value k running.store)
    × (w.broker ≡ running.broker)
    × (w.published ≡ running.published)
serve_held_example =
    serve_held all_up up_redis json up_rabbit (respond 404 "404 page not found")
      (respond 200 "metrics") config (pos 120) again busy held
      (λ h. false≢true ((eq_iff "/crawl" "/stop").1 h.1))

to_crawl : find_route "POST" "/crawl" setup_router ≡ some crawl
unfolding find_route setup_router
to_crawl = refl

no_get_crawl : find_route "GET" "/crawl" setup_router ≡ none
unfolding find_route setup_router
no_get_crawl = refl
