-- ===== src/Worker/Crawler/Metrics/Counted.antt =====
-- worker/internal/crawler/crawler.go: what the metrics of `CrawlUrl` tell of its result.
use Prim.Native.String.{len}
use distributed_web_crawler.Base.{
  ℕ, String, List, [], ◌∷◌, some, ok, err, ◌≡◌, refl, Result, Result-cases, Option-cases,
  Bool-cases, inl, inr, ℤ, false, true, ap,
}
use distributed_web_crawler.Common.Config.{Config}
use distributed_web_crawler.Common.Models.{UrlData}
use distributed_web_crawler.Services.Web.{Web}
use distributed_web_crawler.Worker.Politeness.{enforce}
use distributed_web_crawler.Worker.Robots.{is_allowed, get_crawl_delay}
use distributed_web_crawler.Worker.Crawler.{
  Crawler, CrawlError, not_read, chosen_delay, page_request, read_page, fetch_page, check_page,
  wait_and_check, crawl_url,
}
use distributed_web_crawler.Worker.Crawler.Metrics.{
  Status, success, failure, Metric, page_processed, http_status_code, page_processing_duration,
  bytes_downloaded, read_metrics, fetch_metrics, check_metrics, wait_metrics, crawl_url_metrics,
  deferred,
}

module _ (web : Web) where
  open web use {Url, Body, parse, print, host, normalize}

  -- A reply to the request for a page of this address has the status.
  abbrev pub Replied : String → ℕ → Type 0
  Replied url code =
      (net : web.Net) × (body : Body) × ((web.send (page_request web url) net).0 ≡ ok (code, body))

  -- The metrics of a page that was asked for at `url`: one that is returned has its reply and its size
  -- counted, one that could not be read has its reply counted, and any other error has neither.
  abbrev Told : Url → String → Result CrawlError UrlData → Status × List Metric → Type 0
  Told base url (ok page) told =
      (code : ℕ) × Replied url code
      × (told ≡ (
        success,
        http_status_code code (host base) ∷ bytes_downloaded (len page.raw_html) ∷ [],
      ))
  Told base url (err not_read) told =
      (code : ℕ) × Replied url code × (told ≡ (failure, http_status_code code (host base) ∷ []))
  Told base url (err e) told = told ≡ (failure, [])

  module _ (base : Url) (url : String) (depth : ℤ) where
    read_page-Told :
        (code : ℕ) (body : Body)
        → Replied url code
        → Told base url (read_page web base url depth body) (
          (read_metrics web body).0,
          http_status_code code (host base) ∷ (read_metrics web body).1,
        )
    unfolding read_page read_metrics
    read_page-Told code body replied = elim (Option-cases (web.read_document body)) [
      | inl e ↦ rw (e, read_page, read_metrics) (code, replied, refl)
      | inr (d, e) ↦ elim (Option-cases (web.outer_html d)) [
        | inl n ↦ rw (e, read_page, read_metrics, n) (code, replied, refl)
        | inr (raw, n) ↦ rw (e, read_page, read_metrics, n) (code, replied, refl)
      ]
    ]

    fetch_page-Told :
        (c : Crawler web)
        → Told base url (fetch_page web base url depth c).0 (fetch_metrics web base url c)
    unfolding fetch_page fetch_metrics
    fetch_page-Told c = elim (Bool-cases (web.is_request url)) [
      | inl good ↦ elim (Result-cases (web.send (page_request web url) c.robot_check.net).0) [
        | inl ((status, body), e) ↦
            rw (good, fetch_page, fetch_metrics, e)
              (read_page-Told status body (c.robot_check.net, body, e))
        | inr (x, e) ↦ rw (good, fetch_page, fetch_metrics, e) refl
      ]
      | inr bad ↦ rw (bad, fetch_page, fetch_metrics) refl
    ]

    check_page-Told :
        (c : Crawler web)
        → Told base url (check_page web base url depth c).0 (check_metrics web base url c)
    unfolding check_page check_metrics
    check_page-Told c = elim (Result-cases (is_allowed web url c.robot_check).0) [
      | inl (true, e) ↦ rw (e, check_page, check_metrics) (fetch_page-Told _)
      | inl (false, e) ↦ rw (e, check_page, check_metrics) refl
      | inr (x, e) ↦ rw (e, check_page, check_metrics) refl
    ]

    wait_and_check-Told :
        (conf : Config) (now : ℕ) (c : Crawler web)
        → Told base url
            (wait_and_check web conf now base url depth c).0
            (wait_metrics web conf now base url c)
    unfolding wait_and_check wait_metrics
    wait_and_check-Told conf now c =
        let delay = chosen_delay conf (get_crawl_delay web url c.robot_check).0 in
        elim (Result-cases (enforce false c.politeness (host base) delay now).0) [
          | inl (_, e) ↦ rw (e, wait_and_check, wait_metrics) (check_page-Told _)
          | inr (x, e) ↦ rw (e, wait_and_check, wait_metrics) refl
        ]

  -- The address that a page has, and the URL behind it.
  pub record IsAddress (raw_url : String) (base : Url) (url : String) : Type 0 where
    pub parses : parse raw_url ≡ some base
    pub normal : normalize (print base) ≡ some url

  -- The calls that the deferred function makes, whatever the result.
  abbrev pub closing : ℕ → Status → List Metric
  closing took status = page_processing_duration took ∷ page_processed status ∷ []

  -- All that one call of CrawlUrl counts, by its result.
  abbrev pub Counts : ℕ → String → Result CrawlError UrlData → List Metric → Type 0
  Counts took raw_url (ok page) metrics =
      (base : Url) × (url : String) × (code : ℕ) × IsAddress raw_url base url
      × Replied url code
      × (metrics
          ≡ http_status_code code (host base)
            ∷ bytes_downloaded (len page.raw_html)
            ∷ closing took success)
  Counts took raw_url (err not_read) metrics =
      (base : Url) × (url : String) × (code : ℕ) × IsAddress raw_url base url
      × Replied url code
      × (metrics ≡ http_status_code code (host base) ∷ closing took failure)
  Counts took raw_url (err e) metrics = metrics ≡ closing took failure

  Told-Counts :
      (took : ℕ) (raw_url : String) (base : Url) (url : String) (result : Result CrawlError UrlData)
      (told : Status × List Metric)
      → IsAddress raw_url base url
      → Told base url result told
      → Counts took raw_url result (deferred web took told)
  Told-Counts took raw_url base url (ok page) told i (code, replied, e) =
      (base, url, code, i, replied, ap (deferred web took) e)
  Told-Counts took raw_url base url (err not_read) told i (code, replied, e) =
      (base, url, code, i, replied, ap (deferred web took) e)
  Told-Counts took raw_url base url (err e) told i h = ap (deferred web took) h

  -- What a call of CrawlUrl counts is fixed by its result: a page that it returns adds the status of a
  -- reply to the page's request under the page's host, the size of its HTML in bytes and one success;
  -- a page that could not be read adds the status of such a reply and one failure; and any other error
  -- adds one failure and neither. Each call adds its duration once.
  pub crawl_url-Counts :
      (conf : Config) (now took : ℕ) (raw_url : String) (depth : ℤ) (c : Crawler web)
      → Counts took raw_url
          (crawl_url web conf now raw_url depth c).0
          (crawl_url_metrics web conf now took raw_url c)
  unfolding crawl_url crawl_url_metrics
  crawl_url-Counts conf now took raw_url depth c = elim (Option-cases (parse raw_url)) [
    | inl e ↦ rw (e, crawl_url, crawl_url_metrics) refl
    | inr (base, e) ↦ elim (Option-cases (normalize (print base))) [
      | inl n ↦ rw (e, crawl_url, crawl_url_metrics, n) refl
      | inr (url, n) ↦
          rw (e, crawl_url, crawl_url_metrics, n)
            (Told-Counts took raw_url base url _ _ (record { parses = e; normal = n })
              (wait_and_check-Told base url depth conf now c))
    ]
  ]
