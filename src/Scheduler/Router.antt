-- ===== src/Scheduler/Router.antt =====
-- scheduler/internal/router/router.go: which handler a request comes to. gin matches the method and the path;
-- a request that no route matches is answered by gin alone.
pub mod Routing
pub mod Tests
use distributed_web_crawler.Base.{
  ℤ, String, Bool, true, false, Option, none, some, List, [], ◌∷◌, Result, str_eq, ◌&&◌,
  if◌then◌else◌,
}
use distributed_web_crawler.Common.Config.{Config}
use distributed_web_crawler.Services.Clients.{Clients}
use distributed_web_crawler.Services.Redis.{Redis}
use distributed_web_crawler.Services.Json.{Json}
use distributed_web_crawler.Services.Rabbit.{Rabbit}
use distributed_web_crawler.Scheduler.Host.{Host}
use distributed_web_crawler.Scheduler.World.{World}
use distributed_web_crawler.Scheduler.Handlers.{CrawlRequest, Response, handle_crawl, handle_stop}
use distributed_web_crawler.Scheduler.Handlers.Ping.{handle_ping}

pub data Endpoint : Type 0 where
  crawl stop metrics ping : Endpoint

pub record Route : Type 0 where
  pub method : String
  pub path : String
  pub endpoint : Endpoint

unfoldable pub setup_router : List Route
setup_router =
    record { method = "POST"; path = "/crawl"; endpoint = crawl }
    ∷ record { method = "POST"; path = "/stop"; endpoint = stop }
    ∷ record { method = "GET"; path = "/metrics"; endpoint = metrics }
    ∷ record { method = "GET"; path = "/ping"; endpoint = ping }
    ∷ []

unfoldable pub find_route : String → String → List Route → Option Endpoint
find_route method path [] = none
find_route method path (r ∷ rs) =
    let later = find_route method path rs in
    if str_eq r.method method && str_eq r.path path then some r.endpoint else later

-- A request as far as the handlers look at it: `bound` is what `ShouldBind` makes of it.
pub record Request : Type 0 where
  pub method : String
  pub path : String
  pub bound : Result String CrawlRequest

module _ (cl : Clients) (r : Redis) (j : Json) (q : Rabbit j.Body) where
  -- The handlers are made with the connections and the client of Redis that `main` has. What gin and
  -- Prometheus answer is given.
  unfoldable pub respond_at :
      Response
      → Response
      → Option Endpoint
      → Config
      → ℤ
      → Request
      → Host cl r j q
      → Response × Host cl r j q
  respond_at not_found report none conf now req h = (not_found, h)
  respond_at not_found report (some crawl) conf now req h =
      let (answer, w) = handle_crawl r j q true true conf now req.bound h.world in
      (answer, record h { world = w })
  respond_at not_found report (some stop) conf now req h =
      let (answer, w) = handle_stop r j q true true h.world in (answer, record h { world = w })
  respond_at not_found report (some metrics) conf now req h = (report, h)
  respond_at not_found report (some ping) conf now req h =
      let (answer, s) = handle_ping cl h.clients in (answer, record h { clients = s })

  unfoldable pub serve :
      Response → Response → Config → ℤ → Request → Host cl r j q → Response × Host cl r j q
  unfolding respond_at
  serve not_found report conf now req h =
      respond_at not_found report (find_route req.method req.path setup_router) conf now req h
