-- ===== src/Worker/Consumer/Tests.antt =====
-- The theorems on `processMessage` at concrete inputs.
use distributed_web_crawler.Scheduler.Results.{process_result, final}
use distributed_web_crawler.Scheduler.Broker.Publish.{to_hashing}
use distributed_web_crawler.Worker.Politeness.{enforce}
use distributed_web_crawler.Services.MemoryBroker.{Body, page, empty_broker, message, json}
use distributed_web_crawler.Worker.Robots.{get_crawl_delay, is_allowed}
use distributed_web_crawler.Worker.Consumer.Reports.{process_message_outcome, Reason, Reports}
use distributed_web_crawler.Scheduler.Jobs.{max_depth_key}
use distributed_web_crawler.Scheduler.Results.Children.{IsChild}
use distributed_web_crawler.Scheduler.Results.Extends.{Extends}
use distributed_web_crawler.Worker.Crawler.{crawl_url}
use distributed_web_crawler.Worker.Consumer.{WorkerState, process_message}
use distributed_web_crawler.Common.Models.{CrawlMessage, UrlData}
use distributed_web_crawler.Base.{
  ◌++◌, IsInt64, delete, insert, ◌⊎◌, false, ◌+ℤ◌, [], pos, ◌∷◌, ◌≡◌, refl, ok, some, lookup, arith,
}
use distributed_web_crawler.Worker.Samples.{site, fresh}
use distributed_web_crawler.Scheduler.Samples.{up_redis, up_rabbit, config, running}
use distributed_web_crawler.Worker.Consumer.Hop.{hop-Extends}
use distributed_web_crawler.Worker.Consumer.Trip.{Answers, insert_message-process_message}
use distributed_web_crawler.Scheduler.Broker.{insert_message}

abbrev pub child_message : CrawlMessage
child_message = record { url = "http://a.org/"; current_depth = pos 1; max_depth = pos 2 }

abbrev pub idle_worker : WorkerState site json up_rabbit
idle_worker = record {
  crawler = record { robot_check = fresh; politeness = record { last_scrape_time = [] } };
  broker = empty_broker;
  acked = 0;
  published = [];
}

abbrev page_b : UrlData
page_b = record {
  url = "http://a.org/";
  raw_html = "<a>";
  next_urls = "http://a.org/secret" ∷ [];
  has_robots = false;
  depth = pos 1;
}

abbrev done : WorkerState site json up_rabbit
done = process_message site json up_rabbit config 500 (message child_message) idle_worker

process_message_outcome_example :
    (done.acked ≡ 1)
    × (Reports site json up_rabbit config 500 (message child_message) idle_worker done
        ⊎ (Reason site json up_rabbit config 500 (message child_message) idle_worker
            × (done.published ≡ [])))
process_message_outcome_example =
    process_message_outcome site json up_rabbit config 500 (message child_message) idle_worker

page_crawled : (crawl_url site config 500 "http://a.org/" (pos 1) idle_worker.crawler).0 ≡ ok page_b
unfolding crawl_url is_allowed get_crawl_delay enforce lookup insert delete
page_crawled = refl

reported : Reports site json up_rabbit config 500 (message child_message) idle_worker done
unfolding process_message crawl_url is_allowed get_crawl_delay enforce lookup insert delete
reported = record {
  message = child_message;
  decodes = refl;
  page = page_b;
  crawl = page_crawled;
  report = page page_b;
  encodes = refl;
  published = refl;
}

child :
    IsChild up_redis json up_rabbit
      (pos 0)
      (pos 2)
      (to_hashing up_redis json up_rabbit "http://a.org/" (message child_message))
unfolding ◌+ℤ◌
child = record {
  message = child_message;
  encodes = refl;
  exchange = refl;
  routed = refl;
  deeper = refl;
  limit = refl;
  within = omega arith;
}

one : IsInt64 (pos 0 +ℤ pos 1)
unfolding ◌+ℤ◌
one = (omega arith, omega arith)

depth_stored : up_redis.value max_depth_key running.store ≡ some (up_redis.of_int (pos 2))
unfolding lookup
depth_stored = refl

two_hops :
    Extends up_redis json up_rabbit
      (IsChild up_redis json up_rabbit (pos 0 +ℤ pos 1) (pos 2))
      running
      (final (process_result up_redis json up_rabbit config (page page_b) (pos 160) running))
unfolding reported
two_hops =
    hop-Extends site up_redis json up_rabbit config config 500 (pos 160) (pos 0) (pos 2)
      (to_hashing up_redis json up_rabbit "http://a.org/" (message child_message)) idle_worker
      running child reported one (omega arith, omega arith) depth_stored

sent : (insert_message up_redis json up_rabbit "http://a.org/" (pos 1) (pos 2) running).0 ≡ ok tt
unfolding insert_message
sent = refl

insert_message-process_message_example :
    (body : Body) × ((insert_message up_redis json up_rabbit "http://a.org/"
        (pos 1)
        (pos 2)
        running).1.published
      ≡ running.published ++ to_hashing up_redis json up_rabbit "http://a.org/" body ∷ [])
    × (json.unmarshal_message body ≡ some child_message)
    × ((i : Reports site json up_rabbit config 500 body idle_worker
          (process_message site json up_rabbit config 500 body idle_worker))
        → Answers site up_redis json up_rabbit config 500 child_message idle_worker i.report)
insert_message-process_message_example =
    insert_message-process_message site up_redis json up_rabbit config 500 child_message running
      idle_worker sent
