-- ===== src/Common/Models.antt =====
-- common/models.go: the messages on the queues.
use distributed_web_crawler.Base.{String, Bool, List, ℤ}

-- A page to fetch.
pub record CrawlMessage : Type 0 where
  pub url : String
  pub current_depth : ℤ
  pub max_depth : ℤ

-- A fetched page. `next_urls` is a Go slice: empty stands for nil too, as in the text that both print to.
pub record UrlData : Type 0 where
  pub url : String
  pub raw_html : String
  pub next_urls : List String
  pub has_robots : Bool
  pub depth : ℤ
