-- ===== src/System/Steps.antt =====
-- Every step of the system keeps what holds of it at any moment.
use distributed_web_crawler.System.Spawns.{expire-Spawns}
use distributed_web_crawler.Base.{
  All-IsIn, subst, All-append, IsIn, List, ◌++◌, ◌∙◌, ℕ, ℤ, refl, inl, inr, [], ◌∷◌, map, ap,
}
use distributed_web_crawler.Common.Config.{Config}
use distributed_web_crawler.Common.Models.{UrlData}
use distributed_web_crawler.Services.Redis.{Redis}
use distributed_web_crawler.Services.Json.{Json}
use distributed_web_crawler.Services.Rabbit.{Rabbit, Publishing}
use distributed_web_crawler.Services.Web.{Web}
use distributed_web_crawler.Scheduler.Results.{process_result, final}
use distributed_web_crawler.Scheduler.Results.Delivery.{process_result_delivers}
use distributed_web_crawler.Scheduler.Batcher.{strip}
use distributed_web_crawler.Worker.Crawler.{Crawler}
use distributed_web_crawler.Worker.Consumer.{process_message}
use distributed_web_crawler.Worker.Consumer.Reports.{process_message_outcome}
use distributed_web_crawler.System.{
  expires, System, Step, Reach, start, worker, fetched, reported, crawls, stops, watches, fetches,
  reports, batches, flushes, here, next,
}
use distributed_web_crawler.System.Flow.{Flowing-reported, tick_accounted, batched-Flowing}
use distributed_web_crawler.System.Reached.{IsTraced, IsTraced-link}
use distributed_web_crawler.System.Effects.{HasLimit, IsWork}
use distributed_web_crawler.System.Endings.{handle_stop-Spawns, check_job_status-Spawns}
use distributed_web_crawler.System.Pages.{
  IsReport, IsReport-append, reported-IsReport, pages, process_result-Effects,
}
use distributed_web_crawler.System.Invariant.{
  Inv, Effects-Working, Effects-Reporting, crawls-Inv, quiet-Inv, more_handled,
}

module _ (web : Web) (r : Redis) (j : Json) (q : Rabbit j.Body) where
  fetched-Inv :
      (conf : Config) (p : Publishing j.Body) (c : Crawler web) (now : ℕ) (s : System web r j q)
      → IsIn p (s.old_messages ++ s.scheduler.published)
      → Inv web r j q s
      → Inv web r j q (fetched web r j q conf now p.body c s)
  fetched-Inv conf p c now s among_all i =
      let among : IsIn p s.scheduler.published =
        subst (λ l. IsIn p (l ++ s.scheduler.published)) i.no_messages among_all in
      let w = worker web r j q c s in
      let w' = process_message web j q conf now p.body w in
      let work = All-IsIn (IsWork r j q) p s.scheduler.published i.working.good among in
      record {
        no_messages = i.no_messages;
        no_results = i.no_results;
        working = record {
          limit = i.working.limit;
          good = i.working.good;
          counted = i.working.counted;
        };
        reporting = record {
          results =
              All-append (λ x. IsReport r j q s.scheduler.published x.body) s.results w'.published
                i.reporting.results
                (elim (process_message_outcome web j q conf now p.body w).1 [
                  | inl k ↦ rw k.published (
                    reported-IsReport r j q web conf now p s.scheduler.published w w' among work k,
                    tt,
                  )
                  | inr (_, same) ↦ rw same tt
                ]);
          handled = i.reporting.handled;
        };
        flowing = i.flowing;
        traced = i.traced;
      }

  reported-Inv :
      (conf : Config) (p : Publishing j.Body) (now : ℤ) (s : System web r j q)
      → IsIn p (s.old_results ++ s.results)
      → Inv web r j q s
      → Inv web r j q (reported web r j q conf p.body now s)
  reported-Inv conf p now s among_all i =
      let among : IsIn p s.results = subst (λ l. IsIn p (l ++ s.results)) i.no_results among_all in
      let report =
        All-IsIn (λ x. IsReport r j q s.scheduler.published x.body) p s.results i.reporting.results
          among in
      let w' = final (process_result r j q conf p.body now s.scheduler) in
      let e =
        process_result-Effects r j q conf s.scheduler.published p.body now s.scheduler
          i.working.limit report in
      let kept = Effects-Reporting web r j q s w' e i.reporting in
      record {
        no_messages = i.no_messages;
        no_results = i.no_results;
        working = Effects-Working web r j q s.scheduler w' e i.working;
        reporting = record {
          results = kept.results;
          handled = All-append (IsReport r j q w'.published) s.handled (p.body ∷ []) kept.handled (
            rw e.published (IsReport-append r j q s.scheduler.published e.fresh p.body report),
            tt,
          );
        };
        flowing =
            Flowing-reported web r j q s p.body w'.dbchan
              (process_result_delivers r j q conf p.body now s.scheduler).0 i.flowing;
        traced =
            let old = more_handled web r j q s (p.body ∷ []) i.traced in
            rw e.published (
              All-append (IsTraced r j q s.requests (s.handled ++ p.body ∷ []))
                s.scheduler.published e.fresh old
                (IsTraced-link r j q s.requests s.handled s.scheduler.published p.body report
                  e.fresh old e.origin));
      }

  pub Step-Inv :
      (conf : Config) (s t : System web r j q)
      → Step web r j q conf s t
      → Inv web r j q s
      → Inv web r j q t
  Step-Inv conf s _ (crawls now bound fits) i = crawls-Inv web r j q conf now bound s fits i
  Step-Inv conf s _ stops i =
      quiet-Inv web r j q s _ (handle_stop-Spawns r j q (λ p. ⊥) s.scheduler) i
  Step-Inv conf s _ (watches idle_timeout now) i =
      quiet-Inv web r j q s _ (check_job_status-Spawns r j q (λ p. ⊥) idle_timeout now s.scheduler)
        i
  Step-Inv conf s _ (expires k) i =
      quiet-Inv web r j q s _ (expire-Spawns r j q (λ p. ⊥) k s.scheduler) i
  Step-Inv conf s _ (fetches p c now among) i = fetched-Inv conf p c now s among i
  Step-Inv conf s _ (reports p now among) i = reported-Inv conf p now s among i
  Step-Inv conf s _ (batches body rest works e) i = record {
    no_messages = i.no_messages;
    no_results = i.no_results;
    working = record {
      limit = i.working.limit;
      good = i.working.good;
      counted = i.working.counted;
    };
    reporting = record { results = i.reporting.results; handled = i.reporting.handled };
    flowing = batched-Flowing web r j q s body rest works e i.flowing;
    traced = i.traced;
  }
  Step-Inv conf s _ (flushes works) i = record {
    no_messages = i.no_messages;
    no_results = i.no_results;
    working = i.working;
    reporting = record { results = i.reporting.results; handled = i.reporting.handled };
    flowing =
        ap (λ (l : List UrlData). l ++ map strip (pages r j q s.scheduler.dbchan))
          (tick_accounted web r j q works s.batcher s.collection)
        ∙ i.flowing;
    traced = i.traced;
  }

  pub start-Inv :
      (store : r.Store) (broker : q.State)
      → HasLimit r j q store
      → Inv web r j q (start web r j q store broker [] [])
  start-Inv store broker limit = record {
    no_messages = refl;
    no_results = refl;
    working = record { limit = limit; good = tt; counted = refl };
    reporting = record { results = tt; handled = tt };
    flowing = refl;
    traced = tt;
  }

  pub Reach-Inv :
      (conf : Config) (s t : System web r j q)
      → Reach web r j q conf s t
      → Inv web r j q s
      → Inv web r j q t
  Reach-Inv conf s _ here i = i
  Reach-Inv conf s _ (next {t} {u} p step) i = Step-Inv conf t u step (Reach-Inv conf s t p i)
