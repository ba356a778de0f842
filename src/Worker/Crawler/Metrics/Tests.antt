-- ===== src/Worker/Crawler/Metrics/Tests.antt =====
-- The metrics of `CrawlUrl` at concrete inputs.
use distributed_web_crawler.Base.{[], ◌∷◌, ◌≡◌, refl, pos, lookup, insert, delete}
use distributed_web_crawler.Worker.Politeness.{enforce}
use distributed_web_crawler.Worker.Robots.{is_allowed, get_crawl_delay}
use distributed_web_crawler.Worker.Samples.{site, fresh, conf}
use distributed_web_crawler.Worker.Crawler.{Crawler, crawl_url}
use distributed_web_crawler.Worker.Crawler.Metrics.{
  crawl_url_metrics, http_status_code, bytes_downloaded, success, failure,
}
use distributed_web_crawler.Worker.Crawler.Metrics.Counted.{closing, Counts, crawl_url-Counts}

abbrev idle : Crawler site
idle = record { robot_check = fresh; politeness = record { last_scrape_time = [] } }

counted :
    crawl_url_metrics site conf 500 42 "http://a.org/" idle
    ≡ http_status_code 200 "a.org" ∷ bytes_downloaded 3 ∷ closing site 42 success
unfolding crawl_url_metrics enforce is_allowed get_crawl_delay lookup insert delete
counted = refl

counted_disallowed :
    crawl_url_metrics site conf 500 42 "http://a.org/secret" idle ≡ closing site 42 failure
unfolding crawl_url_metrics enforce is_allowed get_crawl_delay lookup insert delete
counted_disallowed = refl

crawl_url-Counts_example :
    Counts site 42 "http://a.org/"
      (crawl_url site conf 500 "http://a.org/" (pos 1) idle).0
      (crawl_url_metrics site conf 500 42 "http://a.org/" idle)
crawl_url-Counts_example = crawl_url-Counts site conf 500 42 "http://a.org/" (pos 1) idle
