-- ===== src/Scheduler/Router/Routing.antt =====
-- scheduler/internal/router/router.go: which requests reach the job.
use distributed_web_crawler.Base.{
  eq_iff, ℤ, String, true, Option, none, some, ◌≢◌, ◌≡◌, ◌⊎◌, refl, inl, inr, arith,
}
use distributed_web_crawler.Common.Config.{Config}
use distributed_web_crawler.Services.Clients.{Clients}
use distributed_web_crawler.Services.Redis.{Redis}
use distributed_web_crawler.Services.Json.{Json}
use distributed_web_crawler.Services.Rabbit.{Rabbit}
use distributed_web_crawler.Scheduler.Host.{Host}
use distributed_web_crawler.Scheduler.Handlers.{Response, handle_crawl, handle_stop}
use distributed_web_crawler.Scheduler.Handlers.Crawl.{handle_crawl_held}
use distributed_web_crawler.Scheduler.Jobs.{active_job_key}
use distributed_web_crawler.Scheduler.Router.{
  Endpoint, crawl, stop, metrics, ping, setup_router, find_route, Request, respond_at, serve,
}

-- The request's method and path.
abbrev pub Is : String → String → Request → Type 0
Is method path req = (req.method ≡ method) × (req.path ≡ path)

-- The first route that matches.
find_crawl :
    (req : Request)
    → find_route req.method req.path setup_router ≡ some crawl
    → Is "POST" "/crawl" req
unfolding find_route setup_router
find_crawl req h = ground (arith, eq_iff "POST" req.method, eq_iff "/crawl" req.path)

find_stop :
    (req : Request)
    → find_route req.method req.path setup_router ≡ some stop
    → Is "POST" "/stop" req
unfolding find_route setup_router
find_stop req h = ground (arith, eq_iff "POST" req.method, eq_iff "/stop" req.path)

module _ (cl : Clients) (r : Redis) (j : Json) (q : Rabbit j.Body) where
  -- What a request does to the world: what the handler of its route does, or nothing.
  abbrev pub Reaches : Config → ℤ → Request → Host cl r j q → Response × Host cl r j q → Type 0
  Reaches conf now req h a =
      (Is "POST" "/crawl" req
        × (a.1.world ≡ (handle_crawl r j q true true conf now req.bound h.world).1)
        × (a.0 ≡ (handle_crawl r j q true true conf now req.bound h.world).0))
      ⊎ ((Is "POST" "/stop" req
            × (a.1.world ≡ (handle_stop r j q true true h.world).1)
            × (a.0 ≡ (handle_stop r j q true true h.world).0))
          ⊎ (a.1.world ≡ h.world))

  respond_at-Reaches :
      (not_found report : Response) (e : Option Endpoint) (conf : Config) (now : ℤ) (req : Request)
      (h : Host cl r j q)
      → (e ≡ some crawl → Is "POST" "/crawl" req)
      → (e ≡ some stop → Is "POST" "/stop" req)
      → Reaches conf now req h (respond_at cl r j q not_found report e conf now req h)
  unfolding respond_at
  respond_at-Reaches not_found report none conf now req h c s = inr (inr refl)
  respond_at-Reaches not_found report (some crawl) conf now req h c s = inl (c refl, refl, refl)
  respond_at-Reaches not_found report (some stop) conf now req h c s =
      inr (inl (s refl, refl, refl))
  respond_at-Reaches not_found report (some metrics) conf now req h c s = inr (inr refl)
  respond_at-Reaches not_found report (some ping) conf now req h c s = inr (inr refl)

  pub serve_outcome :
      (not_found report : Response) (conf : Config) (now : ℤ) (req : Request) (h : Host cl r j q)
      → Reaches conf now req h (serve cl r j q not_found report conf now req h)
  unfolding serve
  serve_outcome not_found report conf now req h =
      respond_at-Reaches not_found report (find_route req.method req.path setup_router) conf now req
        h (find_crawl req) (find_stop req)

  -- While a job holds the lock, no request but a POST to /stop changes a key of Redis, the state of
  -- the broker or the messages that were published.
  pub serve_held :
      (not_found report : Response) (conf : Config) (now : ℤ) (req : Request) (h : Host cl r j q)
      → r.value active_job_key h.world.store ≢ none
      → ¬ Is "POST" "/stop" req
      → let w = (serve cl r j q not_found report conf now req h).1.world in
        ((k : String) → r.value k w.store ≡ r.value k h.world.store)
        × (w.broker ≡ h.world.broker)
        × (w.published ≡ h.world.published)
  serve_held not_found report conf now req h held other =
      elim (serve_outcome not_found report conf now req h) [
        | inl (_, e, _) ↦
            let u = handle_crawl_held r j q true conf now req.bound h.world held in
            rw e (u.values, u.broker, u.published)
        | inr rest ↦ elim rest [
          | inl (to_stop, _, _) ↦ absurd (other to_stop)
          | inr e ↦ rw e ((λ k. refl), refl, refl)
        ]
      ]
