-- ===== src/System/Pages.antt =====
-- What a worker reports, and the effects of a report on the scheduler.
use distributed_web_crawler.Base.{
  All-map, All-always, Option-cases, IsIn, IsIn-append_left, List, Option, ◌++◌, ◌≡◌, ◌∙◌, IsInt64,
  ℕ, ℤ, refl, some, none, inl, inr, [], ◌∷◌, append_assoc, ap, sym,
}
use distributed_web_crawler.Common.Config.{Config}
use distributed_web_crawler.Common.Models.{CrawlMessage, UrlData}
use distributed_web_crawler.Services.Redis.{Redis}
use distributed_web_crawler.Services.Json.{Json, received}
use distributed_web_crawler.Services.Rabbit.{Rabbit, Publishing}
use distributed_web_crawler.Services.Web.{Web}
use distributed_web_crawler.Scheduler.World.{World}
use distributed_web_crawler.Scheduler.Results.{process_result, final, touch}
use distributed_web_crawler.Scheduler.Results.Children.{IsLinked, process_result-Extends}
use distributed_web_crawler.Scheduler.Results.Stops.{process_result_stopped}
use distributed_web_crawler.Scheduler.Results.Delivery.{process_result_delivers}
use distributed_web_crawler.Worker.Consumer.{WorkerState, result_of}
use distributed_web_crawler.Worker.Consumer.Reports.{Reports}
use distributed_web_crawler.System.Effects.{
  IsLinkOf, IsLinkOf-linked, Effects, Effects-same, HasLimit, HasLimit-same, IsWork, IsWork-child,
}

module _ (r : Redis) (j : Json) (q : Rabbit j.Body) where
  -- The page was asked for: one of the messages for the workers has its URL and its depth.
  pub record Asked (sent : List (Publishing j.Body)) (page : UrlData) : Type 0 where
    pub request : Publishing j.Body
    pub among : IsIn request sent
    pub message : CrawlMessage
    pub question : j.marshal_message message ≡ some request.body
    pub url : page.url ≡ message.url
    pub depth : page.depth ≡ message.current_depth

  -- A body that encodes a page somebody asked for.
  pub record IsReport (sent : List (Publishing j.Body)) (body : j.Body) : Type 0 where
    pub page : UrlData
    pub encodes : j.marshal_data page ≡ some body
    pub fits : IsInt64 page.depth
    pub asked : Asked sent page

  pub IsReport-append :
      (sent more : List (Publishing j.Body)) (body : j.Body)
      → IsReport sent body
      → IsReport (sent ++ more) body
  IsReport-append sent more body i = record {
    page = i.page;
    encodes = i.encodes;
    fits = i.fits;
    asked = record {
      request = i.asked.request;
      among = IsIn-append_left i.asked.request sent more i.asked.among;
      message = i.asked.message;
      question = i.asked.question;
      url = i.asked.url;
      depth = i.asked.depth;
    };
  }

  -- A report of a worker about a message that the scheduler published.
  pub reported-IsReport :
      (web : Web) (conf : Config) (now : ℕ) (p : Publishing j.Body)
      (sent : List (Publishing j.Body)) (w w' : WorkerState web j q)
      → IsIn p sent
      → IsWork r j q p
      → (i : Reports web j q conf now p.body w w') → IsReport sent i.report
  reported-IsReport web conf now p sent w w' among work i =
      let same : i.message ≡ work.message =
        cc (i.decodes, j.message_roundtrip work.message p.body work.encodes) in
      record {
        page = result_of web j q i.message i.page;
        encodes = i.encodes;
        fits = rw same work.fits;
        asked = record {
          request = p;
          among = among;
          message = work.message;
          question = work.encodes;
          url = ap (λ (m : CrawlMessage). m.url) same;
          depth = ap (λ (m : CrawlMessage). m.current_depth) same;
        };
      }

  abbrev pub decoded : Option UrlData → List UrlData
  decoded none = []
  decoded (some page) = page ∷ []

  -- The bodies that decode to a page, in order.
  abbrev pub pages : List j.Body → List UrlData
  pages [] = []
  pages (b ∷ bs) = decoded (j.unmarshal_data b) ++ pages bs

  pub pages-append : (cs bs : List j.Body) → pages (cs ++ bs) ≡ pages cs ++ pages bs
  pages-append [] bs = refl
  pages-append (c ∷ cs) bs =
      ap (◌++◌ (decoded (j.unmarshal_data c))) (pages-append cs bs)
      ∙ sym (append_assoc (decoded (j.unmarshal_data c)) (pages cs) (pages bs))

  page_result-Effects :
      (c : Config) (body : j.Body) (now : ℤ) (page : UrlData) (w : World r j q)
      → HasLimit r j q w.store
      → j.unmarshal_data body ≡ some page
      → IsInt64 page.depth
      → Effects r j q (IsLinkOf r j q page) w (final (process_result r j q c body now w))
  page_result-Effects c body now page w limit decodes fits =
      let w' = final (process_result r j q c body now w) in
      let kept =
        HasLimit-same r j q w.store w'.store (process_result_delivers r j q c body now w).2 in
      elim limit [
        | inl gone ↦
            let idle = process_result_stopped r j q c body now w gone in
            Effects-same r j q (IsLinkOf r j q page) w w' idle.1 idle.2 kept
        | inr (d, m, stored) ↦
            let children = process_result-Extends r j q c body now page d w decodes fits m stored in
            record {
              fresh = children.fresh;
              published = children.published;
              counted = children.counted;
              good =
                  All-map (IsLinked r j q page.next_urls page.depth d) (IsWork r j q)
                    (λ p c. IsWork-child r j q page.depth d p m fits c.0) children.fresh
                    children.good;
              origin =
                  All-map (IsLinked r j q page.next_urls page.depth d) (IsLinkOf r j q page)
                    (IsLinkOf-linked r j q page d) children.fresh children.good;
              limit = kept;
            }
      ]

  pub process_result-Effects :
      (c : Config) (sent : List (Publishing j.Body)) (body : j.Body) (now : ℤ) (w : World r j q)
      → HasLimit r j q w.store
      → (i : IsReport sent body)
      → Effects r j q (IsLinkOf r j q i.page) w (final (process_result r j q c body now w))
  process_result-Effects c sent body now w limit i =
      let e =
        page_result-Effects c body now (received j i.page) w limit
          (j.data_roundtrip i.page body i.encodes) i.fits in
      record {
        fresh = e.fresh;
        published = e.published;
        counted = e.counted;
        good = e.good;
        origin =
            All-map (IsLinkOf r j q (received j i.page)) (IsLinkOf r j q i.page)
              (λ p l. record {
                message = l.message;
                encodes = l.encodes;
                named = l.named;
                deeper = l.deeper;
              })
              e.fresh e.origin;
        limit = e.limit;
      }

  -- The depth of a page, if a body holds one, is an `int` of Go.
  abbrev pub DataFits : Option UrlData → Type 0
  DataFits none = Unit {0}
  DataFits (some page) = IsInt64 page.depth

  -- Any body that comes as a result, from whatever time.
  pub any_result-Effects :
      (c : Config) (body : j.Body) (now : ℤ) (w : World r j q)
      → HasLimit r j q w.store
      → DataFits (j.unmarshal_data body)
      → Effects r j q (λ p. Unit {0}) w (final (process_result r j q c body now w))
  unfolding process_result touch
  any_result-Effects c body now w limit fits = elim (Option-cases (j.unmarshal_data body)) [
    | inl e ↦
        let w' = final (process_result r j q c body now w) in
        let kept =
          HasLimit-same r j q w.store w'.store (process_result_delivers r j q c body now w).2 in
        Effects-same r j q (λ p. Unit {0}) w w' (rw (e, process_result)) (rw (e, process_result))
          kept
    | inr (page, e) ↦
        let effects = page_result-Effects c body now page w limit e (rw e at fits) in
        record {
          fresh = effects.fresh;
          published = effects.published;
          counted = effects.counted;
          good = effects.good;
          origin = All-always (λ p. Unit {0}) (λ p. tt) effects.fresh;
          limit = effects.limit;
        }
  ]
