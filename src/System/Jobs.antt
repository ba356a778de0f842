-- ===== src/System/Jobs.antt =====
-- Two jobs after each other: a result of the first that comes late is followed for the second.
use distributed_web_crawler.Base.{◌≡◌, refl, pos, ok, [], ◌∷◌, true, lookup, insert, delete, add64}
use distributed_web_crawler.Common.Config.{drop_limit, ttl_of}
use distributed_web_crawler.Services.MemoryBroker.{json, message}
use distributed_web_crawler.Scheduler.Samples.{up_redis, up_rabbit, config}
use distributed_web_crawler.Scheduler.Handlers.{CrawlRequest, handle_crawl, handle_stop}
use distributed_web_crawler.Scheduler.Jobs.{
  is_job_active, start_job, force_cleanup_job, get_max_depth,
}
use distributed_web_crawler.Scheduler.Broker.{insert_message, purge_queues}
use distributed_web_crawler.Scheduler.Broker.Publish.{to_hashing}
use distributed_web_crawler.Scheduler.Results.{
  process_result, queue_links, queue_link, slice_prefix,
}
use distributed_web_crawler.Scheduler.Bloom.{check_url_duplicate, add_to_bloom}
use distributed_web_crawler.Worker.Samples.{site}
use distributed_web_crawler.System.{reported}
use distributed_web_crawler.System.Tests.{Sys, s₁, front_page, seed}

abbrev other : CrawlRequest
other = record { url = "http://b.org/"; depth = pos 5 }

abbrev stopped : Sys
stopped = record s₁ { scheduler = (handle_stop up_redis json up_rabbit true true s₁.scheduler).1 }

abbrev restarted : Sys
restarted = record stopped {
  scheduler =
      (handle_crawl up_redis json up_rabbit true true config (pos 200) (ok other)
        stopped.scheduler).1;
}

abbrev late : Sys
late = reported site up_redis json up_rabbit config front_page (pos 210) restarted

followed :
    late.scheduler.published
    ≡ seed
      ∷ to_hashing up_redis json up_rabbit "http://b.org/"
          (message (record { url = "http://b.org/"; current_depth = pos 0; max_depth = pos 5 }))
      ∷ to_hashing up_redis json up_rabbit "http://a.org/secret" (
          message
            (record { url = "http://a.org/secret"; current_depth = pos 1; max_depth = pos 5 }))
      ∷ []
unfolding drop_limit handle_crawl is_job_active lookup start_job insert_message handle_stop
    force_cleanup_job purge_queues insert delete process_result queue_links queue_link slice_prefix
    get_max_depth check_url_duplicate add_to_bloom add64 ttl_of
followed = refl
