-- ===== src/System/Progress.antt =====
-- What becomes of a queued page while the services answer.
pub mod Tests
use distributed_web_crawler.Base.{
  subst, All, All-map, IsIn, IsIn-append_left, IsIn-append_right, List, Option, ◌++◌, ◌≡◌, ◌∙◌,
  ◌<ℤ◌, ◌≤◌, ℕ, ℤ, String, Bool, true, refl, sym, ap, ok, some, none, inl, inr, pos, length, take,
  [], ◌∷◌, map, map-append, append_assoc, append-nil,
}
use distributed_web_crawler.Common.Config.{drop_limit, Config}
use distributed_web_crawler.Common.Models.{UrlData}
use distributed_web_crawler.Services.Redis.{Redis}
use distributed_web_crawler.Services.Json.{Json, received}
use distributed_web_crawler.Services.Rabbit.{Rabbit, Publishing}
use distributed_web_crawler.Services.Web.{Web}
use distributed_web_crawler.Scheduler.World.{World}
use distributed_web_crawler.Scheduler.Batcher.{
  Batcher, Collection, Turn, ticks, receives, turn, strip,
}
use distributed_web_crawler.Scheduler.Batcher.Order.{stored}
use distributed_web_crawler.Scheduler.Batcher.Stored.{kept, tick_kept, receive_kept}
use distributed_web_crawler.Scheduler.Jobs.{get_max_depth}
use distributed_web_crawler.Scheduler.Results.{process_result, final, touch}
use distributed_web_crawler.Scheduler.Results.Delivery.{process_result_delivers}
use distributed_web_crawler.Scheduler.Results.Complete.{
  Reliable, Served, AllApart, process_result-Served,
}
use distributed_web_crawler.Worker.Crawler.{Crawler}
use distributed_web_crawler.Worker.Consumer.{process_message, result_of, to_results}
use distributed_web_crawler.Worker.Consumer.Reports.{Reports}
use distributed_web_crawler.System.{
  System, Step, Reach, here, next, fetches, reports, batches, flushes, worker, fetched, reported,
  batched, ticked,
}
use distributed_web_crawler.System.Pages.{decoded, pages, pages-append}

module _ (web : Web) (r : Redis) (j : Json) (q : Rabbit j.Body) where
  Reach-trans :
      (conf : Config) (s t u : System web r j q)
      → Reach web r j q conf s t
      → Reach web r j q conf t u
      → Reach web r j q conf s u
  Reach-trans conf s t _ a here = a
  Reach-trans conf s t _ a (next {t = v} b step) = next (Reach-trans conf s t v a b) step

  -- The documents of a system, stored or on their way out of the buffer.
  abbrev held : System web r j q → List UrlData
  held s = kept (s.batcher, s.collection)

  -- The batcher takes what waits in its channel.
  record Drained (conf : Config) (bodies : List j.Body) (s : System web r j q) : Type 0 where
    end : System web r j q
    path : Reach web r j q conf s end
    scheduler : end.scheduler ≡ record s.scheduler { dbchan = [] }
    all : held end ≡ held s ++ map strip (pages r j q bodies)

  drain :
      (conf : Config) (bodies : List j.Body) (s : System web r j q)
      → s.scheduler.dbchan ≡ bodies
      → Drained conf bodies s
  drain conf [] s e = record {
    end = s;
    path = here;
    scheduler = ap (λ (l : List j.Body). record s.scheduler { dbchan = l }) e;
    all = sym (append-nil (held s));
  }
  drain conf (body ∷ rest) s e =
      let s' = batched web r j q body rest true s in
      let d = drain conf rest s' refl in
      record {
        end = d.end;
        path = Reach-trans conf s s' d.end (next here (batches body rest true e)) d.path;
        scheduler = d.scheduler;
        all =
            d.all
            ∙ ap (λ (l : List UrlData). l ++ map strip (pages r j q rest))
                (receive_kept (j.unmarshal_data body) s.batcher s.collection)
            ∙ append_assoc (held s) _ (map strip (pages r j q rest))
            ∙ ap (◌++◌ (held s))
                (sym (map-append strip (decoded r j q (j.unmarshal_data body)) (pages r j q rest)));
      }

  IsIn-self : (x : UrlData) (xs : List UrlData) → IsIn x (xs ++ x ∷ [])
  IsIn-self x xs = IsIn-append_right x xs (x ∷ []) (inl refl)

  module _ (conf : Config) (s : System web r j q) (p : Publishing j.Body) (c : Crawler web)
      (now : ℕ) (at : ℤ) (among : IsIn p s.scheduler.published)
      (i : Reports web j q conf now p.body
        (worker web r j q c s)
        (process_message web j q conf now p.body (worker web r j q c s))) where
    -- The page as it is in the report, and as it is decoded from it.
    abbrev sent_page : UrlData
    sent_page = result_of web j q i.message i.page

    abbrev page : UrlData
    page = received j sent_page

    abbrev crawled : System web r j q
    crawled = fetched web r j q conf now p.body c s

    abbrev handled : System web r j q
    handled = reported web r j q conf i.report at crawled

    to_handled : Reach web r j q conf s handled
    to_handled =
        next
          (next here
            (fetches p c now (IsIn-append_right p s.old_messages s.scheduler.published among)))
          (reports (to_results web j q i.report) at (
            IsIn-append_right (to_results web j q i.report) s.old_results crawled.results (
              rw i.published (
                IsIn-append_right (to_results web j q i.report) s.results
                  (to_results web j q i.report ∷ []) (inl refl)))))

    -- The batcher's channel ends with the report, and drained it leaves the page in the collection.
    record Stores : Type 0 where
      end : System web r j q
      path : Reach web r j q conf s end
      scheduler : end.scheduler ≡ record handled.scheduler { dbchan = [] }
      stores : IsIn (strip page) (stored end.collection.batches)

    queued_last : IsIn (strip page) (map strip (pages r j q handled.scheduler.dbchan))
    queued_last =
        let before = s.scheduler.dbchan in
        let decodes = j.data_roundtrip sent_page i.report i.encodes in
        subst (λ (l : List j.Body). IsIn (strip page) (map strip (pages r j q l)))
          (sym (process_result_delivers r j q conf i.report at crawled.scheduler).0)
          (subst (λ (l : List UrlData). IsIn (strip page) (map strip l))
            (sym (pages-append r j q before (i.report ∷ [])))
            (subst (IsIn (strip page))
              (sym (map-append strip (pages r j q before) (pages r j q (i.report ∷ []))))
              (rw decodes (IsIn-self (strip page) (map strip (pages r j q before))))))

    stores : Stores
    stores =
        let d = drain conf handled.scheduler.dbchan handled refl in
        let (_, flushed) = tick_kept d.end.batcher d.end.collection in
        record {
          end = ticked web r j q true d.end;
          path = next (Reach-trans conf s handled d.end to_handled d.path) (flushes true);
          scheduler = d.scheduler;
          stores = subst (IsIn (strip page)) (sym (flushed ∙ d.all)) (
              IsIn-append_right (strip page) (held handled)
                (map strip (pages r j q handled.scheduler.dbchan)) queued_last);
        }

    -- For a queued message on which a worker reports, from any state: with a broker that accepts, a
    -- filter that answers, a depth limit above the page's that Redis gives, and a share of n of its
    -- links, of which no two different ones have cells of the filter in common, the system can go on
    -- to a state in which the page, without its links and with its HTML as JSON carries it, is in the
    -- collection, and each of its first n links has a message or was known to the filter before, a
    -- false positive included.
    pub progress :
        (reliable : Reliable r j q) (max_depth : ℤ) (n : ℕ)
        → (get_max_depth r (touch r j q conf i.report at crawled.scheduler).store).0 ≡ ok max_depth
        → page.depth <ℤ max_depth
        → drop_limit conf (length page.next_urls) ≡ pos n
        → n ≤ length page.next_urls
        → AllApart r j q (take n page.next_urls)
        → (t : System web r j q) × Reach web r j q conf s t
          × IsIn (strip page) (stored t.collection.batches)
          × All (Served r j q reliable crawled.scheduler t.scheduler) (take n page.next_urls)
    progress reliable max_depth n d less l short apart =
        let served =
          process_result-Served r j q reliable conf i.report at page max_depth n crawled.scheduler
            (j.data_roundtrip sent_page i.report i.encodes) d less l short apart in
        (
          stores.end,
          stores.path,
          stores.stores,
          subst (λ v. All (Served r j q reliable crawled.scheduler v) (take n page.next_urls))
              (sym stores.scheduler) served,
        )
