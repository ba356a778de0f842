-- ===== src/Worker/Consumer.antt =====
-- worker/internal/broker/broker.go: `processMessage`, what a worker does with a page to fetch.
pub mod Reports
pub mod Hop
pub mod Trip
pub mod Tests
use distributed_web_crawler.Base.{ℕ, suc, String, false, none, some, List, [], ◌∷◌, ◌++◌, ok, err}
use distributed_web_crawler.Common.Config.{Config}
use distributed_web_crawler.Common.Constants.{result_exchange, result_routing_key}
use distributed_web_crawler.Common.Models.{CrawlMessage, UrlData}
use distributed_web_crawler.Services.Json.{Json}
use distributed_web_crawler.Services.Rabbit.{Rabbit, Publishing}
use distributed_web_crawler.Services.Web.{Web}
use distributed_web_crawler.Worker.Crawler.{Crawler, crawl_url}

module _ (web : Web) (j : Json) (q : Rabbit j.Body) where
  -- The crawler, the broker, how many deliveries were acknowledged, and what the broker accepted.
  pub record WorkerState : Type 0 where
    pub crawler : Crawler web
    pub broker : q.State
    pub acked : ℕ
    pub published : List (Publishing j.Body)

  abbrev pub result_of : CrawlMessage → UrlData → UrlData
  result_of crawl_msg crawl_result = record {
    url = crawl_msg.url;
    raw_html = crawl_result.raw_html;
    next_urls = crawl_result.next_urls;
    has_robots = false;
    depth = crawl_msg.current_depth;
  }

  abbrev pub to_results : j.Body → Publishing j.Body
  to_results body = record {
    exchange = result_exchange;
    routing_key = result_routing_key;
    body = body;
  }

  unfoldable pub publish_result : UrlData → WorkerState → WorkerState
  publish_result result w = elim (j.marshal_data result) [
    | none ↦ w
    | some resp_body ↦
        let (done, b) = q.publish (to_results resp_body) w.broker in
        elim done [
          | ok _ ↦ record w { broker = b; published = w.published ++ to_results resp_body ∷ [] }
          | err e ↦ record w { broker = b }
        ]
  ]

  unfoldable pub crawl_message : Config → ℕ → CrawlMessage → WorkerState → WorkerState
  unfolding publish_result
  crawl_message conf now crawl_msg w =
      let (crawled, c) = crawl_url web conf now crawl_msg.url crawl_msg.current_depth w.crawler in
      let w₁ : WorkerState = record w { crawler = c } in
      elim crawled [
        | ok crawl_result ↦ publish_result (result_of crawl_msg crawl_result) w₁
        | err e ↦ w₁
      ]

  -- `defer d.Ack(false)`
  abbrev pub ack : WorkerState → WorkerState
  ack w = record w { acked = suc w.acked }

  unfoldable pub process_message : Config → ℕ → j.Body → WorkerState → WorkerState
  unfolding crawl_message
  process_message conf now body w = elim (j.unmarshal_message body) [
    | none ↦ ack w
    | some crawl_msg ↦ ack (crawl_message conf now crawl_msg w)
  ]
