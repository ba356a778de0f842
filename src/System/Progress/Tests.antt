-- ===== src/System/Progress/Tests.antt =====
-- The seed of a job makes its way into the collection.
use distributed_web_crawler.Base.{
  All, IsIn, ◌≡◌, refl, pos, ok, inl, arith, lookup, insert, delete, take,
}
use distributed_web_crawler.Common.Config.{drop_limit, ttl_of}
use distributed_web_crawler.Common.Models.{CrawlMessage}
use distributed_web_crawler.Services.MemoryBroker.{json}
use distributed_web_crawler.Scheduler.Samples.{up_redis, up_rabbit, config}
use distributed_web_crawler.Scheduler.Handlers.{handle_crawl}
use distributed_web_crawler.Scheduler.Jobs.{is_job_active, start_job, get_max_depth}
use distributed_web_crawler.Scheduler.Broker.{insert_message}
use distributed_web_crawler.Scheduler.Bloom.{add_to_bloom}
use distributed_web_crawler.Scheduler.Batcher.{strip}
use distributed_web_crawler.Scheduler.Batcher.Order.{stored}
use distributed_web_crawler.Scheduler.Results.{touch}
use distributed_web_crawler.Scheduler.Results.Tests.{reliable, links-AllApart}
use distributed_web_crawler.Scheduler.Results.Complete.{Served}
use distributed_web_crawler.Worker.Samples.{site}
use distributed_web_crawler.Worker.Crawler.{crawl_url}
use distributed_web_crawler.Worker.Robots.{is_allowed, get_crawl_delay}
use distributed_web_crawler.Worker.Politeness.{enforce}
use distributed_web_crawler.Worker.Consumer.{process_message}
use distributed_web_crawler.Worker.Consumer.Reports.{Reports}
use distributed_web_crawler.System.{Reach, worker}
use distributed_web_crawler.System.Progress.{progress}
use distributed_web_crawler.System.Tests.{Sys, s₁, s₂, seed, seeded, crawler, front, front_page}

abbrev message_of_seed : CrawlMessage
message_of_seed = record { url = "http://a.org/"; current_depth = pos 0; max_depth = pos 2 }

report :
    Reports site json up_rabbit config 500 seed.body
      (worker site up_redis json up_rabbit crawler s₁)
      (process_message site json up_rabbit config 500 seed.body
        (worker site up_redis json up_rabbit crawler s₁))
unfolding process_message crawl_url is_allowed get_crawl_delay enforce lookup insert delete
report = record {
  message = message_of_seed;
  decodes = refl;
  page = front;
  crawl = refl;
  report = front_page;
  encodes = refl;
  published = refl;
}

limit_read :
    (get_max_depth up_redis
      (touch up_redis json up_rabbit config front_page (pos 160) s₂.scheduler).store).0
    ≡ ok (pos 2)
unfolding get_max_depth touch handle_crawl is_job_active start_job insert_message add_to_bloom
    lookup insert ttl_of
limit_read = refl

progress_example :
    (t : Sys) × Reach site up_redis json up_rabbit config s₁ t
    × IsIn (strip front) (stored t.collection.batches)
    × All
        (Served up_redis json up_rabbit reliable s₂.scheduler t.scheduler)
        (take 1 front.next_urls)
unfolding report drop_limit
progress_example =
    progress site up_redis json up_rabbit config s₁ seed crawler 500 (pos 160)
      (rw seeded (inl refl)) report reliable (pos 2) 1 limit_read (omega arith) refl (omega arith)
      (links-AllApart (take 1 front.next_urls))
