-- ===== src/Services/Web.antt =====
-- What the worker uses of net/url, net/http, robotstxt, purell and goquery. `send` is `client.Do`: it
-- takes the state of the network and gives the new one.
use distributed_web_crawler.Base.{ℕ, String, Bool, Option, List, Result, ℤ}

pub record Request : Type 0 where
  pub url : String
  pub user_agent : String
  -- The header Accept; empty if it is not set.
  pub accept : String

-- What `client.Do` returns when it fails.
pub data WebError : Type 0 where
  unreachable : WebError

pub record Web : Type 1 where
  pub Net : Type 0
  -- net/url
  pub Url : Type 0
  pub parse : String → Option Url
  pub print : Url → String
  pub scheme : Url → String
  pub host : Url → String
  pub path : Url → String
  pub resolve : Url → Url → Url
  -- `purell.NormalizeURLString` with the flags of the source
  pub normalize : String → Option String
  -- net/http: whether `http.NewRequest` takes the URL, and the exchange
  pub is_request : String → Bool
  pub Body : Type 0
  pub send : Request → Net → Result WebError (ℕ × Body) × Net
  -- robotstxt: `FromResponse` of a reply with status 200, `FindGroup`, `Test` and `CrawlDelay`
  pub Robots : Type 0
  pub Group : Type 0
  pub from_response : Body → Option Robots
  pub find_group : String → Robots → Group
  pub test : Group → String → Bool
  pub crawl_delay : Group → ℤ
  -- goquery: the document, its HTML, and the `href` of each `a`, in order
  pub Document : Type 0
  pub read_document : Body → Option Document
  pub outer_html : Document → Option String
  pub hrefs : Document → List (Option String)
