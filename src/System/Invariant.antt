-- ===== src/System/Invariant.antt =====
-- What holds of the system at any moment, in whatever order its handlers took their turns.
use distributed_web_crawler.Base.{
  subst, append-nil, true, Result, All, All-append, All-map, List, ◌++◌, ◌≡◌, String, ℤ, ok, err,
  [], ◌∷◌, append-nil, sym, length, length-append, arith,
}
use distributed_web_crawler.Common.Config.{Config}
use distributed_web_crawler.Services.Redis.{Redis}
use distributed_web_crawler.Services.Json.{Json}
use distributed_web_crawler.Services.Rabbit.{Rabbit, Publishing}
use distributed_web_crawler.Services.Web.{Web}
use distributed_web_crawler.Scheduler.World.{World}
use distributed_web_crawler.Scheduler.Handlers.{handle_crawl, CrawlRequest}
use distributed_web_crawler.System.{posted, System, IsRequest}
use distributed_web_crawler.System.Flow.{Flowing}
use distributed_web_crawler.System.Reached.{IsTraced, IsTraced-append, IsTraced-seed}
use distributed_web_crawler.System.Effects.{IsSeed, Effects, HasLimit, IsWork}
use distributed_web_crawler.System.Spawns.{Spawns}
use distributed_web_crawler.System.Handlers.{handle_crawl-Spawns}
use distributed_web_crawler.System.Pages.{IsReport, IsReport-append}

module _ (web : Web) (r : Redis) (j : Json) (q : Rabbit j.Body) where
  abbrev Scheduler : Type 0
  Scheduler = World r j q

  -- The messages for the workers.
  pub record Working (w : Scheduler) : Type 0 where
    pub limit : HasLimit r j q w.store
    pub good : All (IsWork r j q) w.published
    pub counted : w.urls_queued ≡ length w.published

  -- All the bodies are reports, and so are the published ones.
  pub record Reporting (s : System web r j q) : Type 0 where
    pub results : All (λ p. IsReport r j q s.scheduler.published p.body) s.results
    pub handled : All (IsReport r j q s.scheduler.published) s.handled

  -- The queues were empty at the start.
  pub record Inv (s : System web r j q) : Type 0 where
    pub no_messages : s.old_messages ≡ []
    pub no_results : s.old_results ≡ []
    pub working : Working s.scheduler
    pub reporting : Reporting s
    pub flowing : Flowing web r j q s
    pub traced : All (IsTraced r j q s.requests s.handled) s.scheduler.published

  pub Effects-Working :
      {P : Publishing j.Body → Type 0} (w w' : Scheduler)
      → Effects r j q P w w'
      → Working w
      → Working w'
  Effects-Working w w' e i = record {
    limit = e.limit i.limit;
    good = rw e.published (All-append (IsWork r j q) w.published e.fresh i.good e.good);
    counted =
        rw e.published (omega (arith, e.counted, i.counted, length-append w.published e.fresh));
  }

  -- Reports stay reports when more messages are published.
  pub Effects-Reporting :
      {P : Publishing j.Body → Type 0} (s : System web r j q) (w' : Scheduler)
      → Effects r j q P s.scheduler w'
      → Reporting s
      → Reporting (record s { scheduler = w' })
  Effects-Reporting s w' e i = record {
    results = rw e.published (
        All-map _ _ (λ p. IsReport-append r j q s.scheduler.published e.fresh p.body) s.results
          i.results);
    handled =
        rw e.published
          (All-map _ _ (IsReport-append r j q s.scheduler.published e.fresh) s.handled i.handled);
  }

  more_requests :
      (s : System web r j q) (more : List CrawlRequest)
      → All (IsTraced r j q s.requests s.handled) s.scheduler.published
      → All (IsTraced r j q (s.requests ++ more) s.handled) s.scheduler.published
  more_requests s more t =
      subst (λ hs. All (IsTraced r j q (s.requests ++ more) hs) s.scheduler.published)
        (append-nil s.handled)
        (IsTraced-append r j q s.requests more s.handled [] s.scheduler.published t)

  pub more_handled :
      (s : System web r j q) (later : List j.Body)
      → All (IsTraced r j q s.requests s.handled) s.scheduler.published
      → All (IsTraced r j q s.requests (s.handled ++ later)) s.scheduler.published
  more_handled s later t =
      subst (λ rs. All (IsTraced r j q rs (s.handled ++ later)) s.scheduler.published)
        (append-nil s.requests)
        (IsTraced-append r j q s.requests [] s.handled later s.scheduler.published t)

  -- A step that publishes only messages which can be traced, some requests added to those so far.
  Spawns-Inv :
      (P : Publishing j.Body → Type 0) (more : List CrawlRequest) (s : System web r j q)
      (w' : Scheduler)
      → ((ps : List (Publishing j.Body))
          → All P ps
          → All (IsTraced r j q (s.requests ++ more) s.handled) ps)
      → Spawns r j q P s.scheduler w'
      → Inv s
      → Inv (record s { scheduler = w'; requests = s.requests ++ more })
  Spawns-Inv P more s w' trace e i =
      let reporting = Effects-Reporting s w' e.effects i.reporting in
      record {
        no_messages = i.no_messages;
        no_results = i.no_results;
        working = Effects-Working s.scheduler w' e.effects i.working;
        reporting = record { results = reporting.results; handled = reporting.handled };
        flowing = rw e.dbchan i.flowing;
        traced = rw e.effects.published (
            All-append (IsTraced r j q (s.requests ++ more) s.handled) s.scheduler.published
              e.effects.fresh (more_requests s more i.traced)
              (trace e.effects.fresh e.effects.origin));
      }

  pub crawls-Inv :
      (conf : Config) (now : ℤ) (bound : Result String CrawlRequest) (s : System web r j q)
      → IsRequest web r j q bound
      → Inv s
      → Inv (record s {
        scheduler = (handle_crawl r j q true true conf now bound s.scheduler).1;
        requests = s.requests ++ posted web r j q bound;
      })
  unfolding handle_crawl
  crawls-Inv conf now (ok req) s fits i =
      Spawns-Inv (IsSeed r j q req) (req ∷ []) s _ (IsTraced-seed r j q s.requests req s.handled)
        (handle_crawl-Spawns r j q conf now req s.scheduler fits) i
  crawls-Inv conf now (err message) s fits i =
      subst (λ rs. Inv (record s { requests = rs })) (sym (append-nil s.requests)) i

  -- A step that publishes nothing.
  pub quiet-Inv :
      (s : System web r j q) (w' : Scheduler)
      → Spawns r j q (λ p. ⊥) s.scheduler w'
      → Inv s
      → Inv (record s { scheduler = w' })
  quiet-Inv s w' e i =
      subst (λ rs. Inv (record s { scheduler = w'; requests = rs })) (append-nil s.requests)
        (Spawns-Inv (λ p. ⊥) [] s w'
          (All-map (λ p. ⊥) (IsTraced r j q (s.requests ++ []) s.handled) (λ p h. absurd h)) e i)
