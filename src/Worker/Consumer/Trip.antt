-- ===== src/Worker/Consumer/Trip.antt =====
-- A page's way from `InsertMessage` over a worker back to the decoding in `processResult`.
use distributed_web_crawler.Base.{◌≡◌, ◌++◌, ◌∙◌, sym, refl, ok, some, inl, inr, [], ◌∷◌, ℕ, ap}
use distributed_web_crawler.Common.Config.{Config}
use distributed_web_crawler.Common.Models.{CrawlMessage, UrlData}
use distributed_web_crawler.Services.Redis.{Redis}
use distributed_web_crawler.Services.Json.{Json, received}
use distributed_web_crawler.Services.Rabbit.{Rabbit}
use distributed_web_crawler.Services.Web.{Web}
use distributed_web_crawler.Scheduler.World.{World}
use distributed_web_crawler.Scheduler.Broker.{insert_message}
use distributed_web_crawler.Scheduler.Broker.Publish.{insert_message_outcome, to_hashing}
use distributed_web_crawler.Worker.Consumer.{WorkerState, process_message, result_of}
use distributed_web_crawler.Worker.Consumer.Reports.{Reports, crawled}

module _ (web : Web) (r : Redis) (j : Json) (q : Rabbit j.Body) where
  -- The report of a worker decodes to the page that it crawled for the message.
  pub record Answers (conf : Config) (now : ℕ) (m : CrawlMessage) (v : WorkerState web j q)
      (report : j.Body) : Type 0 where
    pub page : UrlData
    pub crawl : crawled web j q conf now m v ≡ ok page
    pub decoded : UrlData
    pub decodes : j.unmarshal_data report ≡ some decoded
    pub url : decoded.url ≡ m.url
    pub depth : decoded.depth ≡ m.current_depth
    pub html : decoded.raw_html ≡ j.as_utf8 page.raw_html
    pub links : decoded.next_urls ≡ page.next_urls

  Reports-Answers :
      (conf : Config) (now : ℕ) (m : CrawlMessage) (body : j.Body) (v v' : WorkerState web j q)
      → j.marshal_message m ≡ some body
      → (i : Reports web j q conf now body v v') → Answers conf now m v i.report
  Reports-Answers conf now m body v v' e i =
      let same : i.message ≡ m = cc (i.decodes, j.message_roundtrip m body e) in
      record {
        page = i.page;
        crawl = ap (λ (n : CrawlMessage). crawled web j q conf now n v) (sym same) ∙ i.crawl;
        decoded = received j (result_of web j q i.message i.page);
        decodes = j.data_roundtrip (result_of web j q i.message i.page) i.report i.encodes;
        url = ap (λ (n : CrawlMessage). n.url) same;
        depth = ap (λ (n : CrawlMessage). n.current_depth) same;
        html = refl;
        links = refl;
      }

  -- A message that InsertMessage published decodes at the worker to itself, and if the worker reports
  -- on it, the report decodes to a page that has the URL and the depth of the message and the links
  -- that were crawled, and the HTML that was crawled with bytes that are not valid UTF-8 replaced as
  -- encoding/json does.
  pub insert_message-process_message :
      (conf : Config) (now : ℕ) (m : CrawlMessage) (s : World r j q) (v : WorkerState web j q)
      → (insert_message r j q m.url m.current_depth m.max_depth s).0 ≡ ok tt
      → (body : j.Body) × ((insert_message r j q m.url m.current_depth m.max_depth s).1.published
          ≡ s.published ++ to_hashing r j q m.url body ∷ [])
        × (j.unmarshal_message body ≡ some m)
        × ((i : Reports web j q conf now body v (process_message web j q conf now body v))
            → Answers conf now m v i.report)
  insert_message-process_message conf now m s v sent = elim (insert_message_outcome r j q m s) [
    | inr (e, failed, _) ↦ absurd (cc (failed, sent))
    | inl (_, queued) ↦ (
      queued.body,
      queued.published,
      j.message_roundtrip m queued.body queued.encodes,
      Reports-Answers conf now m queued.body v _ queued.encodes,
    )
  ]
