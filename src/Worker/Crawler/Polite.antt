-- ===== src/Worker/Crawler/Polite.antt =====
-- worker/internal/crawler/crawler.go: `CrawlUrl` and the slots of the politeness manager.
use distributed_web_crawler.Worker.Politeness.{enforce}
use distributed_web_crawler.Worker.Politeness.Slots.{
  enforce_outcome, earliest_slot, horizon, InHorizon,
}
use distributed_web_crawler.Worker.Robots.{is_allowed, get_crawl_delay}
use distributed_web_crawler.Common.Config.{Config}
use distributed_web_crawler.Base.{
  true, false, false, ◌<◌, inr, lookup, inl, pos, Result-cases, arith, ◌≡◌, ℕ, ℤ, String, refl,
  some,
}
use distributed_web_crawler.Services.Web.{Web}
use distributed_web_crawler.Worker.Crawler.{
  Crawler, crawl_url, wait_and_check, check_page, fetch_page, chosen_delay,
}

module _ (web : Web) where
  open web use {Url, parse, print, host, normalize}

  fetch_page-politeness :
      (base : Url) (url : String) (depth : ℤ) (c : Crawler web)
      → (fetch_page web base url depth c).1.politeness ≡ c.politeness
  unfolding fetch_page
  fetch_page-politeness base url depth c = ground arith

  check_page-politeness :
      (base : Url) (url : String) (depth : ℤ) (c : Crawler web)
      → (check_page web base url depth c).1.politeness ≡ c.politeness
  unfolding check_page
  check_page-politeness base url depth c =
      elim (Result-cases (is_allowed web url c.robot_check).0) [
        | inl (true, e) ↦ rw (e, check_page) (fetch_page-politeness base url depth _)
        | inl (false, e) ↦ rw (e, check_page) refl
        | inr (x, e) ↦ rw (e, check_page) refl
      ]

  wait_and_check-politeness :
      (conf : Config) (now : ℕ) (base : Url) (url : String) (depth : ℤ) (c : Crawler web)
      → (wait_and_check web conf now base url depth c).1.politeness
        ≡ (enforce false c.politeness
            (host base)
            (chosen_delay conf (get_crawl_delay web url c.robot_check).0)
            now).1
  unfolding wait_and_check
  wait_and_check-politeness conf now base url depth c =
      elim (Result-cases
        (enforce false c.politeness (host base)
          (chosen_delay conf (get_crawl_delay web url c.robot_check).0) now).0) [
            | inl (_, e) ↦ rw (e, wait_and_check) (check_page-politeness base url depth _)
            | inr (x, e) ↦ rw (e, wait_and_check) refl
          ]

  -- A URL that parses and normalizes takes the next free slot of its host, even if the page fails: the
  -- earliest time at which the last slot's delay is over, where the delay is the positive one of
  -- robots.txt or else the configured one, and times and the delay are below 2 ^ 62 ns.
  pub crawl_url-reserves :
      (conf : Config) (now delay : ℕ) (raw_url url : String) (base : Url) (depth : ℤ)
      (c : Crawler web)
      → parse raw_url ≡ some base
      → normalize (print base) ≡ some url
      → chosen_delay conf (get_crawl_delay web url c.robot_check).0 ≡ pos delay
      → InHorizon (lookup (host base) c.politeness.last_scrape_time)
      → delay < horizon
      → now < horizon
      → lookup (host base) (crawl_url web conf now raw_url depth c).1.politeness.last_scrape_time
        ≡ some (earliest_slot (lookup (host base) c.politeness.last_scrape_time) delay now)
  unfolding crawl_url
  crawl_url-reserves conf now delay raw_url url base depth c e n chosen h d t =
      let (waited, stored, others) =
        enforce_outcome false c.politeness (host base) delay now h d t in
      rw (e, crawl_url, n, wait_and_check-politeness conf now base url depth c, chosen) stored
