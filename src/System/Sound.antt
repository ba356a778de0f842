-- ===== src/System/Sound.antt =====
-- What holds of the system at any moment, whatever the queues held at its start.
use distributed_web_crawler.Base.{
  All, All-IsIn, All-append, All-map, IsIn, List, ◌++◌, ◌∙◌, IsInt64, ℕ, ℤ, Option, Result, String,
  ok, err, some, none, true, append_assoc, append-nil, refl, inl, inr, map, ap, subst, sym,
}
use distributed_web_crawler.Common.Config.{Config}
use distributed_web_crawler.Common.Models.{CrawlMessage, UrlData}
use distributed_web_crawler.Services.Redis.{Redis}
use distributed_web_crawler.Services.Json.{Json}
use distributed_web_crawler.Services.Rabbit.{Rabbit, Publishing}
use distributed_web_crawler.Services.Web.{Web}
use distributed_web_crawler.Scheduler.World.{World}
use distributed_web_crawler.Scheduler.Results.{process_result, final}
use distributed_web_crawler.Scheduler.Results.Delivery.{process_result_delivers}
use distributed_web_crawler.Scheduler.Batcher.{strip}
use distributed_web_crawler.Scheduler.Handlers.{CrawlRequest, handle_crawl}
use distributed_web_crawler.Worker.Crawler.{Crawler}
use distributed_web_crawler.Worker.Consumer.{process_message, result_of}
use distributed_web_crawler.Worker.Consumer.Reports.{process_message_outcome}
use distributed_web_crawler.System.{
  expires, System, Step, Reach, start, worker, fetched, reported, crawls, stops, watches, fetches,
  reports, batches, flushes, here, next, posted, IsRequest,
}
use distributed_web_crawler.System.Flow.{Flowing, Flowing-reported, tick_accounted, batched-Flowing}
use distributed_web_crawler.System.Effects.{HasLimit, IsWork, IsSeed}
use distributed_web_crawler.System.Spawns.{Spawns, expire-Spawns}
use distributed_web_crawler.System.Handlers.{handle_crawl-Spawns}
use distributed_web_crawler.System.Endings.{handle_stop-Spawns, check_job_status-Spawns}
use distributed_web_crawler.System.Pages.{pages, DataFits, any_result-Effects}
use distributed_web_crawler.System.Invariant.{Working, Effects-Working}

module _ (web : Web) (r : Redis) (j : Json) (q : Rabbit j.Body) where
  -- The depth of a message, if a body holds one, is an `int` of Go; so is that of a page.
  abbrev pub MessageFits : Option CrawlMessage → Type 0
  MessageFits none = Unit {0}
  MessageFits (some m) = IsInt64 m.current_depth

  abbrev pub AsksInt : Publishing j.Body → Type 0
  AsksInt p = MessageFits (j.unmarshal_message p.body)

  abbrev pub TellsInt : Publishing j.Body → Type 0
  TellsInt p = DataFits r j q (j.unmarshal_data p.body)

  pub record Sound (s : System web r j q) : Type 0 where
    pub working : Working web r j q s.scheduler
    pub flowing : Flowing web r j q s
    pub asked : All AsksInt s.old_messages
    pub told : All TellsInt (s.old_results ++ s.results)

  IsWork-AsksInt : (p : Publishing j.Body) → IsWork r j q p → AsksInt p
  IsWork-AsksInt p k = rw (j.message_roundtrip k.message p.body k.encodes) k.fits

  Spawns-Sound :
      (P : Publishing j.Body → Type 0) (s : System web r j q) (w' : World r j q)
      → Spawns r j q P s.scheduler w'
      → Sound s
      → Sound (record s { scheduler = w' })
  Spawns-Sound P s w' e i = record {
    working = Effects-Working web r j q s.scheduler w' e.effects i.working;
    flowing = rw e.dbchan i.flowing;
    asked = i.asked;
    told = i.told;
  }

  -- A report tells the depth of the message that it answers.
  fetched-TellsInt :
      (conf : Config) (p : Publishing j.Body) (c : Crawler web) (now : ℕ) (s : System web r j q)
      → AsksInt p
      → All TellsInt (process_message web j q conf now p.body (worker web r j q c s)).published
  fetched-TellsInt conf p c now s fits =
      let w = worker web r j q c s in
      elim (process_message_outcome web j q conf now p.body w).1 [
        | inl k ↦
            let page = result_of web j q k.message k.page in
            rw k.published
              (rw (j.data_roundtrip page k.report k.encodes) (rw k.decodes at fits), tt)
        | inr (_, same) ↦ rw same tt
      ]

  fetched-Sound :
      (conf : Config) (p : Publishing j.Body) (c : Crawler web) (now : ℕ) (s : System web r j q)
      → IsIn p (s.old_messages ++ s.scheduler.published)
      → Sound s
      → Sound (fetched web r j q conf now p.body c s)
  fetched-Sound conf p c now s among i =
      let w' = process_message web j q conf now p.body (worker web r j q c s) in
      let all =
        All-append AsksInt s.old_messages s.scheduler.published i.asked
          (All-map (IsWork r j q) AsksInt IsWork-AsksInt s.scheduler.published i.working.good) in
      let fits = All-IsIn AsksInt p (s.old_messages ++ s.scheduler.published) all among in
      record {
        working = record {
          limit = i.working.limit;
          good = i.working.good;
          counted = i.working.counted;
        };
        flowing = i.flowing;
        asked = i.asked;
        told = subst (All TellsInt) (append_assoc s.old_results s.results w'.published) (
            All-append TellsInt (s.old_results ++ s.results) w'.published i.told
              (fetched-TellsInt conf p c now s fits));
      }

  reported-Sound :
      (conf : Config) (p : Publishing j.Body) (now : ℤ) (s : System web r j q)
      → IsIn p (s.old_results ++ s.results)
      → Sound s
      → Sound (reported web r j q conf p.body now s)
  reported-Sound conf p now s among i =
      let fits = All-IsIn TellsInt p (s.old_results ++ s.results) i.told among in
      let w' = final (process_result r j q conf p.body now s.scheduler) in
      record {
        working =
            Effects-Working web r j q s.scheduler w'
              (any_result-Effects r j q conf p.body now s.scheduler i.working.limit fits) i.working;
        flowing =
            Flowing-reported web r j q s p.body w'.dbchan
              (process_result_delivers r j q conf p.body now s.scheduler).0 i.flowing;
        asked = i.asked;
        told = i.told;
      }

  crawls-Sound :
      (conf : Config) (now : ℤ) (bound : Result String CrawlRequest) (s : System web r j q)
      → IsRequest web r j q bound
      → Sound s
      → Sound (record s {
        scheduler = (handle_crawl r j q true true conf now bound s.scheduler).1;
        requests = s.requests ++ posted web r j q bound;
      })
  unfolding handle_crawl
  crawls-Sound conf now (ok req) s fits i =
      let t =
        Spawns-Sound (IsSeed r j q req) s _
          (handle_crawl-Spawns r j q conf now req s.scheduler fits) i in
      record { working = t.working; flowing = t.flowing; asked = t.asked; told = t.told }
  crawls-Sound conf now (err message) s fits i = record {
    working = i.working;
    flowing = i.flowing;
    asked = i.asked;
    told = i.told;
  }

  Step-Sound :
      (conf : Config) (s t : System web r j q) → Step web r j q conf s t → Sound s → Sound t
  Step-Sound conf s _ (crawls now bound fits) i = crawls-Sound conf now bound s fits i
  Step-Sound conf s _ stops i =
      Spawns-Sound (λ p. ⊥) s _ (handle_stop-Spawns r j q (λ p. ⊥) s.scheduler) i
  Step-Sound conf s _ (watches idle_timeout now) i =
      Spawns-Sound (λ p. ⊥) s _
        (check_job_status-Spawns r j q (λ p. ⊥) idle_timeout now s.scheduler) i
  Step-Sound conf s _ (expires k) i =
      Spawns-Sound (λ p. ⊥) s _ (expire-Spawns r j q (λ p. ⊥) k s.scheduler) i
  Step-Sound conf s _ (fetches p c now among) i = fetched-Sound conf p c now s among i
  Step-Sound conf s _ (reports p now among) i = reported-Sound conf p now s among i
  Step-Sound conf s _ (batches body rest works e) i = record {
    working = record {
      limit = i.working.limit;
      good = i.working.good;
      counted = i.working.counted;
    };
    flowing = batched-Flowing web r j q s body rest works e i.flowing;
    asked = i.asked;
    told = i.told;
  }
  Step-Sound conf s _ (flushes works) i = record {
    working = i.working;
    flowing =
        ap (λ (l : List UrlData). l ++ map strip (pages r j q s.scheduler.dbchan))
          (tick_accounted web r j q works s.batcher s.collection)
        ∙ i.flowing;
    asked = i.asked;
    told = i.told;
  }

  pub start-Sound :
      (store : r.Store) (broker : q.State) (messages results : List (Publishing j.Body))
      → HasLimit r j q store
      → All AsksInt messages
      → All TellsInt results
      → Sound (start web r j q store broker messages results)
  start-Sound store broker messages results limit asked told = record {
    working = record { limit = limit; good = tt; counted = refl };
    flowing = refl;
    asked = asked;
    told = subst (All TellsInt) (sym (append-nil results)) told;
  }

  pub Reach-Sound :
      (conf : Config) (s t : System web r j q) → Reach web r j q conf s t → Sound s → Sound t
  Reach-Sound conf s _ here i = i
  Reach-Sound conf s _ (next {t} {u} p step) i = Step-Sound conf t u step (Reach-Sound conf s t p i)
