-- ===== src/System/Runs.antt =====
-- What the whole system keeps to, from its start on, in whatever order its handlers take their turns.
use distributed_web_crawler.System.Reached.{IsTraced}
use distributed_web_crawler.Base.{
  All-append_left, subst, All, List, ◌++◌, ◌≡◌, sym, length, [], ◌∷◌, map,
}
use distributed_web_crawler.Common.Config.{Config}
use distributed_web_crawler.Common.Models.{UrlData}
use distributed_web_crawler.Services.Redis.{Redis}
use distributed_web_crawler.Services.Json.{Json, received}
use distributed_web_crawler.Services.Rabbit.{Rabbit, Publishing}
use distributed_web_crawler.Services.Web.{Web}
use distributed_web_crawler.Scheduler.Batcher.{strip}
use distributed_web_crawler.Scheduler.Batcher.Order.{accounted}
use distributed_web_crawler.System.{System, Reach, start}
use distributed_web_crawler.System.Effects.{HasLimit, IsWork}
use distributed_web_crawler.System.Pages.{Asked, IsReport, pages}
use distributed_web_crawler.System.Invariant.{Inv}
use distributed_web_crawler.System.Sound.{Sound, AsksInt, TellsInt, Reach-Sound, start-Sound}
use distributed_web_crawler.System.Steps.{Reach-Inv, start-Inv}

module _ (web : Web) (r : Redis) (j : Json) (q : Rabbit j.Body) where
  reached :
      (conf : Config) (store : r.Store) (broker : q.State) (t : System web r j q)
      → HasLimit r j q store
      → Reach web r j q conf (start web r j q store broker [] []) t
      → Inv web r j q t
  reached conf store broker t limit p =
      Reach-Inv web r j q conf _ t p (start-Inv web r j q store broker limit)

  sound :
      (conf : Config) (store : r.Store) (broker : q.State)
      (messages results : List (Publishing j.Body)) (t : System web r j q)
      → HasLimit r j q store
      → All (AsksInt web r j q) messages
      → All (TellsInt web r j q) results
      → Reach web r j q conf (start web r j q store broker messages results) t
      → Sound web r j q t
  sound conf store broker messages results t limit asked told p =
      Reach-Sound web r j q conf _ t p
        (start-Sound web r j q store broker messages results limit asked told)

  -- From the start of the scheduler, with any messages and results in the queues from before (of
  -- depths within 64 bits, if they decode) and a Redis whose depth limit is absent or a 64-bit number,
  -- and whatever requests (of a depth within 64 bits), stops, watchdog checks, keys that expire,
  -- deliveries to workers and result consumers, in any order and repeated at will, turns of the
  -- batcher, and failures of the services come: every message that was queued since the start is a
  -- seed, at depth 0, or lies within the depth limit that it carries, and is on the hashing exchange
  -- under its URL; and the counter of queued URLs, which is 0 at the start, is their number.
  pub reach-IsWork :
      (conf : Config) (store : r.Store) (broker : q.State)
      (messages results : List (Publishing j.Body)) (t : System web r j q)
      → HasLimit r j q store
      → All (AsksInt web r j q) messages
      → All (TellsInt web r j q) results
      → Reach web r j q conf (start web r j q store broker messages results) t
      → All (IsWork r j q) t.scheduler.published
        × (t.scheduler.urls_queued ≡ length t.scheduler.published)
  reach-IsWork conf store broker messages results t limit asked told p =
      let i = sound conf store broker messages results t limit asked told p in
      (i.working.good, i.working.counted)

  -- From the start of the scheduler, with queues that hold nothing from before and a Redis whose depth
  -- limit is absent or a 64-bit number, and whatever requests (of a depth within 64 bits), stops,
  -- watchdog checks, keys that expire, deliveries to workers and result consumers, in any order and
  -- repeated at will, turns of the batcher, and failures of the services come: every message that was
  -- queued is the seed of a request that was posted, or for a link of a page that a worker reported on
  -- such a message, or for an empty URL in place of a link, one deeper than that page; so the depth of
  -- a message is the number of links on its way from a seed.
  pub reach-IsTraced :
      (conf : Config) (store : r.Store) (broker : q.State) (t : System web r j q)
      → HasLimit r j q store
      → Reach web r j q conf (start web r j q store broker [] []) t
      → All (IsTraced r j q t.requests t.handled) t.scheduler.published
  reach-IsTraced conf store broker t limit p = (reached conf store broker t limit p).traced

  -- From the start of the scheduler, with any messages and results in the queues from before (of
  -- depths within 64 bits, if they decode) and a Redis whose depth limit is absent or a 64-bit number,
  -- and whatever requests (of a depth within 64 bits), stops, watchdog checks, keys that expire,
  -- deliveries to workers and result consumers, in any order and repeated at will, turns of the
  -- batcher, and failures of the services come: the pages that were handed to MongoDB, those in the
  -- batcher and those in the channel to it are, in this order, exactly the pages that the result
  -- consumers were given since the start, each as often as it was given, without their links.
  pub reach-flow :
      (conf : Config) (store : r.Store) (broker : q.State)
      (messages results : List (Publishing j.Body)) (t : System web r j q)
      → HasLimit r j q store
      → All (AsksInt web r j q) messages
      → All (TellsInt web r j q) results
      → Reach web r j q conf (start web r j q store broker messages results) t
      → accounted (t.batcher, t.collection) ++ map strip (pages r j q t.scheduler.dbchan)
        ≡ map strip (pages r j q t.handled)
  reach-flow conf store broker messages results t limit asked told p =
      (sound conf store broker messages results t limit asked told p).flowing

  strip-Asked :
      (sent : List (Publishing j.Body)) (page : UrlData)
      → Asked r j q sent page
      → Asked r j q sent (strip (received j page))
  unfolding strip
  strip-Asked sent page a = record {
    request = a.request;
    among = a.among;
    message = a.message;
    question = a.question;
    url = a.url;
    depth = a.depth;
  }

  pages-Asked :
      (sent : List (Publishing j.Body)) (bodies : List j.Body)
      → All (IsReport r j q sent) bodies
      → All (Asked r j q sent) (map strip (pages r j q bodies))
  pages-Asked sent [] h = tt
  pages-Asked sent (b ∷ bs) h =
      rw (j.data_roundtrip h.0.page b h.0.encodes)
        (strip-Asked sent h.0.page h.0.asked, pages-Asked sent bs h.1)

  -- From the start of the scheduler, with queues that hold nothing from before and a Redis whose depth
  -- limit is absent or a 64-bit number, and whatever requests (of a depth within 64 bits), stops,
  -- watchdog checks, keys that expire, deliveries to workers and result consumers, in any order and
  -- repeated at will, turns of the batcher, and failures of the services come: every page that was
  -- handed to MongoDB or waits in the batcher was asked for, by a queued message that has the page's
  -- URL and depth.
  pub reach-Asked :
      (conf : Config) (store : r.Store) (broker : q.State) (t : System web r j q)
      → HasLimit r j q store
      → Reach web r j q conf (start web r j q store broker [] []) t
      → All (Asked r j q t.scheduler.published) (accounted (t.batcher, t.collection))
  reach-Asked conf store broker t limit p =
      let i = reached conf store broker t limit p in
      All-append_left (Asked r j q t.scheduler.published) (accounted (t.batcher, t.collection))
        (map strip (pages r j q t.scheduler.dbchan))
        (subst (All (Asked r j q t.scheduler.published)) (sym i.flowing)
          (pages-Asked t.scheduler.published t.handled i.reporting.handled))
