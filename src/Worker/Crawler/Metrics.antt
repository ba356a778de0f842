-- ===== src/Worker/Crawler/Metrics.antt =====
-- worker/internal/metrics/metrics.go, and the metrics of `CrawlUrl` in worker/internal/crawler/crawler.go:
-- the calls of the counters and of the histogram on each path, in order. The paths are those of `crawl_url`.
pub mod Counted
pub mod Tests
use Prim.Native.String.{len}
use distributed_web_crawler.Base.{
  ℕ, String, List, [], ◌∷◌, ◌++◌, none, some, ok, err, if◌then◌else◌, false,
}
use distributed_web_crawler.Common.Config.{Config}
use distributed_web_crawler.Services.Web.{Web}
use distributed_web_crawler.Worker.Politeness.{enforce}
use distributed_web_crawler.Worker.Robots.{is_allowed, get_crawl_delay}
use distributed_web_crawler.Worker.Crawler.{Crawler, chosen_delay, page_request}

-- The label of PagesProcessedTotal.
pub data Status : Type 0 where
  success failure : Status

-- One call of a metric: PagesProcessedTotal, HTTPStatusCodesTotal, PageProcessingDuration (in nanoseconds)
-- and BytesDownloadedTotal.
pub data Metric : Type 0 where
  page_processed : Status → Metric
  http_status_code : ℕ → String → Metric
  page_processing_duration : ℕ → Metric
  bytes_downloaded : ℕ → Metric

module _ (web : Web) where
  open web use {Url, Body, parse, print, host, normalize}

  unfoldable pub read_metrics : Body → Status × List Metric
  read_metrics body = elim (web.read_document body) [
    | none ↦ (failure, [])
    | some document ↦ elim (web.outer_html document) [
      | none ↦ (failure, [])
      | some raw_html ↦ (success, bytes_downloaded (len raw_html) ∷ [])
    ]
  ]

  unfoldable pub fetch_metrics : Url → String → Crawler web → Status × List Metric
  unfolding read_metrics
  fetch_metrics base url c =
      if web.is_request url
      then elim (web.send (page_request web url) c.robot_check.net).0 [
        | ok response ↦ (
          (read_metrics response.1).0,
          http_status_code response.0 (host base) ∷ (read_metrics response.1).1,
        )
        | err e ↦ (failure, [])
      ]
      else (failure, [])

  unfoldable pub check_metrics : Url → String → Crawler web → Status × List Metric
  unfolding fetch_metrics
  check_metrics base url c =
      let (allowed, rc) = is_allowed web url c.robot_check in
      elim allowed [
        | ok b ↦ if b then fetch_metrics base url (record c { robot_check = rc }) else (failure, [])
        | err e ↦ (failure, [])
      ]

  unfoldable pub wait_metrics : Config → ℕ → Url → String → Crawler web → Status × List Metric
  unfolding check_metrics
  wait_metrics conf now base url c =
      let (delay, rc) = get_crawl_delay web url c.robot_check in
      let (waited, pm) = enforce false c.politeness (host base) (chosen_delay conf delay) now in
      elim waited [
        | ok _ ↦ check_metrics base url (record { robot_check = rc; politeness = pm })
        | err e ↦ (failure, [])
      ]

  -- What the deferred function adds when `CrawlUrl` returns; `took` is `time.Since(start)`.
  abbrev pub deferred : ℕ → Status × List Metric → List Metric
  deferred took (status, metrics) =
      metrics ++ page_processing_duration took ∷ page_processed status ∷ []

  unfoldable pub crawl_url_metrics : Config → ℕ → ℕ → String → Crawler web → List Metric
  unfolding wait_metrics
  crawl_url_metrics conf now took raw_url c = elim (parse raw_url) [
    | none ↦ deferred took (failure, [])
    | some parsed_url ↦ elim (normalize (print parsed_url)) [
      | none ↦ deferred took (failure, [])
      | some url ↦ deferred took (wait_metrics conf now parsed_url url c)
    ]
  ]
