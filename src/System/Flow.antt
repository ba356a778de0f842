-- ===== src/System/Flow.antt =====
-- The pages on their way from the result consumers to the collection.
use distributed_web_crawler.Base.{
  Option, List, ◌++◌, ◌≡◌, ◌∙◌, Bool, some, none, [], ◌∷◌, map, map-append, append_assoc,
  append-nil, ap, sym,
}
use distributed_web_crawler.Common.Models.{UrlData}
use distributed_web_crawler.Services.Redis.{Redis}
use distributed_web_crawler.Services.Json.{Json}
use distributed_web_crawler.Services.Rabbit.{Rabbit}
use distributed_web_crawler.Services.Web.{Web}
use distributed_web_crawler.Scheduler.Batcher.{
  Batcher, Collection, ticks, receives, turn, strip, batch_insert,
}
use distributed_web_crawler.Scheduler.Batcher.Order.{accounted, accounted-batch_insert}
use distributed_web_crawler.System.{System, batched}
use distributed_web_crawler.System.Pages.{decoded, pages, pages-append}

module _ (web : Web) (r : Redis) (j : Json) (q : Rabbit j.Body) where
  -- The pages that were handled are those in the collection, in the buffer and in the channel.
  abbrev pub Flowing : System web r j q → Type 0
  Flowing s =
      accounted (s.batcher, s.collection) ++ map strip (pages r j q s.scheduler.dbchan)
      ≡ map strip (pages r j q s.handled)

  pub Flowing-reported :
      (s : System web r j q) (body : j.Body) (dbchan : List j.Body)
      → dbchan ≡ s.scheduler.dbchan ++ body ∷ []
      → Flowing s
      → accounted (s.batcher, s.collection) ++ map strip (pages r j q dbchan)
        ≡ map strip (pages r j q (s.handled ++ body ∷ []))
  Flowing-reported s body dbchan e flow =
      let one = map strip (pages r j q (body ∷ [])) in
      let old = map strip (pages r j q s.scheduler.dbchan) in
      ap (λ (l : List j.Body). accounted (s.batcher, s.collection) ++ map strip (pages r j q l)) e
      ∙ ap (λ (l : List UrlData). accounted (s.batcher, s.collection) ++ map strip l)
          (pages-append r j q s.scheduler.dbchan (body ∷ []))
      ∙ ap (◌++◌ (accounted (s.batcher, s.collection)))
          (map-append strip (pages r j q s.scheduler.dbchan) (pages r j q (body ∷ [])))
      ∙ sym (append_assoc (accounted (s.batcher, s.collection)) old one)
      ∙ ap (λ (l : List UrlData). l ++ one) flow
      ∙ sym (map-append strip (pages r j q s.handled) (pages r j q (body ∷ [])))
      ∙ ap (map strip) (sym (pages-append r j q s.handled (body ∷ [])))

  pub tick_accounted :
      (works : Bool) (b : Batcher) (c : Collection)
      → accounted (turn (ticks works) b c) ≡ accounted (b, c)
  unfolding batch_insert
  tick_accounted works b c = accounted-batch_insert (ticks works ∷ []) b c ∙ append-nil _

  receive_accounted :
      (page : Option UrlData) (works : Bool) (b : Batcher) (c : Collection)
      → accounted (turn (receives page works) b c)
        ≡ accounted (b, c) ++ map strip (decoded r j q page)
  unfolding batch_insert
  receive_accounted none works b c = accounted-batch_insert (receives none works ∷ []) b c
  receive_accounted (some page) works b c =
      accounted-batch_insert (receives (some page) works ∷ []) b c

  pub batched-Flowing :
      (s : System web r j q) (body : j.Body) (rest : List j.Body) (works : Bool)
      → s.scheduler.dbchan ≡ body ∷ rest
      → Flowing s
      → Flowing (batched web r j q body rest works s)
  batched-Flowing s body rest works e flow =
      let page = j.unmarshal_data body in
      let all = accounted (s.batcher, s.collection) in
      ap (λ (l : List UrlData). l ++ map strip (pages r j q rest))
        (receive_accounted page works s.batcher s.collection)
      ∙ append_assoc all (map strip (decoded r j q page)) (map strip (pages r j q rest))
      ∙ ap (◌++◌ all) (sym (map-append strip (decoded r j q page) (pages r j q rest)))
      ∙ ap (λ (l : List j.Body). all ++ map strip (pages r j q l)) (sym e)
      ∙ flow
