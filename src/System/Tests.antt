-- ===== src/System/Tests.antt =====
-- A short life of the system: a job starts, a worker fetches its page, the scheduler follows the links and
-- the page reaches the collection.
use distributed_web_crawler.Common.Models.{UrlData}
use distributed_web_crawler.System.Reached.{IsTraced}
use distributed_web_crawler.Base.{
  false, All, ◌++◌, ◌≡◌, refl, pos, ok, inl, [], ◌∷◌, true, length, map, arith, lookup, insert,
  delete, add64,
}
use distributed_web_crawler.Services.Rabbit.{Publishing}
use distributed_web_crawler.Services.Memory.{empty_store}
use distributed_web_crawler.Services.MemoryBroker.{Body, json, message, page, empty_broker}
use distributed_web_crawler.Scheduler.Samples.{up_redis, up_rabbit, config}
use distributed_web_crawler.Scheduler.Handlers.{CrawlRequest}
use distributed_web_crawler.Scheduler.Batcher.{strip}
use distributed_web_crawler.Scheduler.Batcher.Order.{accounted}
use distributed_web_crawler.Scheduler.Broker.Publish.{to_hashing}
use distributed_web_crawler.Worker.Samples.{site, fresh}
use distributed_web_crawler.Worker.Crawler.{Crawler}
use distributed_web_crawler.Worker.Consumer.{to_results}
use distributed_web_crawler.System.{
  System, Reach, start, fetched, reported, batched, ticked, crawls, fetches, reports, batches,
  flushes, here, next,
}
use distributed_web_crawler.System.Effects.{HasLimit, IsWork}
use distributed_web_crawler.System.Pages.{Asked, pages}
use distributed_web_crawler.System.Sound.{TellsInt}
use distributed_web_crawler.System.Runs.{reach-IsTraced, reach-IsWork, reach-flow, reach-Asked}
use distributed_web_crawler.Scheduler.Handlers.{handle_crawl}
use distributed_web_crawler.Scheduler.Jobs.{is_job_active, start_job, get_max_depth}
use distributed_web_crawler.Scheduler.Broker.{insert_message}
use distributed_web_crawler.Scheduler.Results.{
  process_result, queue_links, queue_link, slice_prefix,
}
use distributed_web_crawler.Scheduler.Results.Delivery.{process_result_delivers}
use distributed_web_crawler.Scheduler.Bloom.{check_url_duplicate, add_to_bloom}
use distributed_web_crawler.Scheduler.Batcher.{turn}
use distributed_web_crawler.Worker.Consumer.{process_message}
use distributed_web_crawler.Worker.Crawler.{crawl_url}
use distributed_web_crawler.Worker.Robots.{is_allowed, get_crawl_delay}
use distributed_web_crawler.Worker.Politeness.{enforce}
use distributed_web_crawler.Common.Config.{drop_limit, ttl_of}

abbrev pub Sys : Type 0
Sys = System site up_redis json up_rabbit

abbrev request : CrawlRequest
request = record { url = "http://a.org/"; depth = pos 2 }

abbrev pub crawler : Crawler site
crawler = record { robot_check = fresh; politeness = record { last_scrape_time = [] } }

abbrev s₀ : Sys
s₀ = start site up_redis json up_rabbit empty_store empty_broker [] []

abbrev pub s₁ : Sys
s₁ = record s₀ {
  scheduler =
      (handle_crawl up_redis json up_rabbit true true config (pos 100) (ok request) s₀.scheduler).1;
  requests = request ∷ [];
}

abbrev pub seed : Publishing Body
seed =
    to_hashing up_redis json up_rabbit "http://a.org/"
      (message (record { url = "http://a.org/"; current_depth = pos 0; max_depth = pos 2 }))

abbrev pub s₂ : Sys
s₂ = fetched site up_redis json up_rabbit config 500 seed.body crawler s₁

abbrev pub front : UrlData
front = record {
  url = "http://a.org/";
  raw_html = "<a>";
  next_urls = "http://a.org/secret" ∷ [];
  has_robots = false;
  depth = pos 0;
}

abbrev pub front_page : Body
front_page = page front

abbrev s₃ : Sys
s₃ = reported site up_redis json up_rabbit config front_page (pos 160) s₂

abbrev s₄ : Sys
s₄ = batched site up_redis json up_rabbit front_page [] true s₃

abbrev s₅ : Sys
s₅ = ticked site up_redis json up_rabbit true s₄

pub seeded : s₁.scheduler.published ≡ seed ∷ []
unfolding handle_crawl is_job_active lookup start_job insert_message
seeded = refl

fetched_page : s₂.results ≡ to_results site json up_rabbit front_page ∷ []
unfolding process_message crawl_url is_allowed get_crawl_delay enforce lookup insert delete
fetched_page = refl

waiting : s₃.scheduler.dbchan ≡ front_page ∷ []
unfolding handle_crawl is_job_active lookup start_job insert_message
waiting =
    (process_result_delivers up_redis json up_rabbit config front_page (pos 160) s₂.scheduler).0

no_limit : HasLimit up_redis json up_rabbit empty_store
unfolding lookup
no_limit = inl refl

life : Reach site up_redis json up_rabbit config s₀ s₅
life =
    next
      (next
        (next
          (next (next here (crawls (pos 100) (ok request) (omega arith, omega arith)))
            (fetches seed crawler 500 (rw seeded (inl refl))))
          (reports (to_results site json up_rabbit front_page) (pos 160)
            (rw fetched_page (inl refl))))
        (batches front_page [] true waiting))
      (flushes true)

-- A result queue that holds a page from before: the page goes to the collection.
abbrev old_page : UrlData
old_page = record {
  url = "http://z.org/";
  raw_html = "<z>";
  next_urls = "http://z.org/1" ∷ [];
  has_robots = false;
  depth = pos 1;
}

abbrev old : Publishing Body
old = to_results site json up_rabbit (page old_page)

abbrev t₀ : Sys
t₀ = start site up_redis json up_rabbit empty_store empty_broker [] (old ∷ [])

abbrev t₁ : Sys
t₁ = reported site up_redis json up_rabbit config (page old_page) (pos 90) t₀

abbrev t₃ : Sys
t₃ =
    ticked site up_redis json up_rabbit true
      (batched site up_redis json up_rabbit (page old_page) [] true t₁)

waits : t₁.scheduler.dbchan ≡ page old_page ∷ []
waits =
    (process_result_delivers up_redis json up_rabbit config (page old_page) (pos 90) t₀.scheduler).0

to_collection : Reach site up_redis json up_rabbit config t₀ t₃
to_collection =
    next
      (next (next here (reports old (pos 90) (inl refl))) (batches (page old_page) [] true waits))
      (flushes true)

tells : All (TellsInt site up_redis json up_rabbit) (old ∷ [])
tells = ((omega arith, omega arith), tt)

reach-IsWork_example :
    All (IsWork up_redis json up_rabbit) s₅.scheduler.published
    × (s₅.scheduler.urls_queued ≡ length s₅.scheduler.published)
reach-IsWork_example =
    reach-IsWork site up_redis json up_rabbit config empty_store empty_broker [] [] s₅ no_limit tt
      tt life

reach-flow_example :
    accounted (t₃.batcher, t₃.collection) ++ []
    ≡ map strip (pages up_redis json up_rabbit t₃.handled)
reach-flow_example =
    reach-flow site up_redis json up_rabbit config empty_store empty_broker [] (old ∷ []) t₃
      no_limit tt tells to_collection

reach-Asked_example :
    All
      (Asked up_redis json up_rabbit s₅.scheduler.published)
      (accounted (s₅.batcher, s₅.collection))
reach-Asked_example =
    reach-Asked site up_redis json up_rabbit config empty_store empty_broker s₅ no_limit life

reach-IsTraced_example :
    All (IsTraced up_redis json up_rabbit s₅.requests s₅.handled) s₅.scheduler.published
reach-IsTraced_example =
    reach-IsTraced site up_redis json up_rabbit config empty_store empty_broker s₅ no_limit life

-- The link of the page is queued, one deeper, and the page is in the collection.
two_messages : length s₅.scheduler.published ≡ 2
unfolding drop_limit handle_crawl is_job_active lookup start_job insert_message process_message
    crawl_url is_allowed get_crawl_delay enforce insert delete process_result queue_links queue_link
    slice_prefix get_max_depth check_url_duplicate add_to_bloom add64 ttl_of
two_messages = refl

one_document : length (accounted (s₅.batcher, s₅.collection)) ≡ 1
unfolding turn
one_document = refl
