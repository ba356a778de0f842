-- ===== src/Worker/Crawler/Tests.antt =====
-- The theorems on `CrawlUrl` at concrete inputs.
use distributed_web_crawler.Worker.Crawler.Polite.{crawl_url-reserves}
use distributed_web_crawler.Worker.Politeness.{enforce}
use distributed_web_crawler.Worker.Politeness.Slots.{earliest_slot, InHorizon}
use distributed_web_crawler.Worker.Robots.{get_crawl_delay, is_allowed}
use distributed_web_crawler.Worker.Crawler.Pages.{crawl_url_disallowed, crawl_url-IsPage, IsPage}
use distributed_web_crawler.Common.Models.{UrlData}
use distributed_web_crawler.Worker.Crawler.{chosen_delay, disallowed, Crawler, crawl_url}
use distributed_web_crawler.Base.{
  false, [], delete, err, insert, pos, some, ◌∷◌, ◌≡◌, refl, ok, lookup, arith,
}
use distributed_web_crawler.Worker.Samples.{site, front, secret, fresh, conf}

abbrev worker : Crawler site
worker = record {
  robot_check = fresh;
  politeness = record { last_scrape_time = ("a.org", 100) ∷ [] };
}

abbrev page : UrlData
page = record {
  url = "http://a.org/";
  raw_html = "<a>";
  next_urls = "http://a.org/secret" ∷ [];
  has_robots = false;
  depth = pos 1;
}

crawled : (crawl_url site conf 500 "http://a.org/" (pos 1) worker).0 ≡ ok page
unfolding crawl_url is_allowed get_crawl_delay enforce lookup insert delete
crawled = refl

crawl_url-IsPage_example : IsPage site "http://a.org/" (pos 1) page
crawl_url-IsPage_example =
    (crawl_url-IsPage site conf 500 "http://a.org/" (pos 1) worker page crawled).0

parses_front : site.parse "http://a.org/" ≡ some front
unfolding lookup
parses_front = refl

parses_secret : site.parse "http://a.org/secret" ≡ some secret
unfolding lookup
parses_secret = refl

refused :
    (is_allowed site "http://a.org/secret" (get_crawl_delay site "http://a.org/secret" fresh).1).0
    ≡ ok false
unfolding is_allowed get_crawl_delay lookup insert delete
refused = refl

secret_refused : (crawl_url site conf 500 "http://a.org/secret" (pos 1) worker).0 ≡ err disallowed
secret_refused =
    (crawl_url_disallowed site conf 500 "http://a.org/secret" "http://a.org/secret" secret (pos 1)
      worker parses_secret refl refused).0

chosen : chosen_delay conf (get_crawl_delay site "http://a.org/" fresh).0 ≡ pos 7_000_000_000
unfolding get_crawl_delay is_allowed lookup insert delete
chosen = refl

near : InHorizon (lookup "a.org" worker.politeness.last_scrape_time)
unfolding lookup
near = omega arith

crawl_url-reserves_example :
    lookup "a.org"
      (crawl_url site conf 500 "http://a.org/" (pos 1) worker).1.politeness.last_scrape_time
    ≡ some (earliest_slot (lookup "a.org" worker.politeness.last_scrape_time) 7_000_000_000 500)
crawl_url-reserves_example =
    crawl_url-reserves site conf 500 7_000_000_000 "http://a.org/" "http://a.org/" front (pos 1)
      worker parses_front refl chosen near (omega arith) (omega arith)
