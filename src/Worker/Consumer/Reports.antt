-- ===== src/Worker/Consumer/Reports.antt =====
-- worker/internal/broker/broker.go: the two ends that `processMessage` comes to.
use distributed_web_crawler.Worker.Crawler.{crawl_url, CrawlError}
use distributed_web_crawler.Common.Models.{UrlData, CrawlMessage}
use distributed_web_crawler.Common.Config.{Config}
use distributed_web_crawler.Base.{
  ap, arith, suc, inr, Option-cases, inl, ◌++◌, Result, Result-cases, ◌≡◌, ◌⊎◌, ℕ, refl, ok, err,
  none, some, [], ◌∷◌,
}
use distributed_web_crawler.Services.Json.{Json}
use distributed_web_crawler.Services.Rabbit.{BrokerError, Rabbit}
use distributed_web_crawler.Services.Web.{Web}
use distributed_web_crawler.Worker.Consumer.{
  WorkerState, process_message, crawl_message, publish_result, result_of, to_results,
}

module _ (web : Web) (j : Json) (q : Rabbit j.Body) where
  -- The crawl of a message, as `processMessage` makes it.
  abbrev pub crawled : Config → ℕ → CrawlMessage → WorkerState web j q → Result CrawlError UrlData
  crawled conf now m w = (crawl_url web conf now m.url m.current_depth w.crawler).0

  -- The page was crawled, and one result is published: it has the message's URL and depth.
  pub record Reports (conf : Config) (now : ℕ) (body : j.Body) (w w' : WorkerState web j q)
      : Type 0 where
    pub message : CrawlMessage
    pub decodes : j.unmarshal_message body ≡ some message
    pub page : UrlData
    pub crawl : crawled conf now message w ≡ ok page
    pub report : j.Body
    pub encodes : j.marshal_data (result_of web j q message page) ≡ some report
    pub published : w'.published ≡ w.published ++ to_results web j q report ∷ []

  -- Why a message is given up.
  pub data Reason (conf : Config) (now : ℕ) (body : j.Body) (w : WorkerState web j q) : Type 0 where
    undecoded : j.unmarshal_message body ≡ none → Reason conf now body w
    failed_crawl :
        (m : CrawlMessage) (e : CrawlError)
        → j.unmarshal_message body ≡ some m
        → crawled conf now m w ≡ err e
        → Reason conf now body w
    unencoded :
        (m : CrawlMessage) (page : UrlData)
        → j.unmarshal_message body ≡ some m
        → crawled conf now m w ≡ ok page
        → j.marshal_data (result_of web j q m page) ≡ none
        → Reason conf now body w
    unpublished :
        (m : CrawlMessage) (page : UrlData) (report : j.Body) (e : BrokerError)
        → j.unmarshal_message body ≡ some m
        → crawled conf now m w ≡ ok page
        → j.marshal_data (result_of web j q m page) ≡ some report
        → (q.publish (to_results web j q report) w.broker).0 ≡ err e
        → Reason conf now body w

  abbrev Ends : Config → ℕ → j.Body → WorkerState web j q → WorkerState web j q → Type 0
  Ends conf now body w w' =
      Reports conf now body w w' ⊎ (Reason conf now body w × (w'.published ≡ w.published))

  publish_result-Ends :
      (conf : Config) (now : ℕ) (body : j.Body) (m : CrawlMessage) (page : UrlData)
      (w v : WorkerState web j q)
      → j.unmarshal_message body ≡ some m
      → crawled conf now m w ≡ ok page
      → v.broker ≡ w.broker
      → v.published ≡ w.published
      → Ends conf now body w (publish_result web j q (result_of web j q m page) v)
  unfolding publish_result
  publish_result-Ends conf now body m page w v d c same kept =
      elim (Option-cases (j.marshal_data (result_of web j q m page))) [
        | inl n ↦ rw (n, publish_result) (inr (unencoded m page d c n, kept))
        | inr (report, n) ↦ elim (Result-cases (q.publish (to_results web j q report) v.broker).0) [
          | inl (_, sent) ↦
              rw (n, publish_result, sent)
                (inl (record {
                  message = m;
                  decodes = d;
                  page = page;
                  crawl = c;
                  report = report;
                  encodes = n;
                  published = rw kept;
                }))
          | inr (x, refused) ↦
              rw (n, publish_result, refused)
                (inr (unpublished m page report x d c n (rw same at refused), kept))
        ]
      ]

  crawl_message-Ends :
      (conf : Config) (now : ℕ) (body : j.Body) (m : CrawlMessage) (w : WorkerState web j q)
      → j.unmarshal_message body ≡ some m
      → Ends conf now body w (crawl_message web j q conf now m w)
  unfolding crawl_message
  crawl_message-Ends conf now body m w d = elim (Result-cases (crawled conf now m w)) [
    | inl (page, c) ↦
        rw (c, crawl_message) (publish_result-Ends conf now body m page w _ d c refl refl)
    | inr (x, c) ↦ rw (c, crawl_message) (inr (failed_crawl m x d c, refl))
  ]

  publish_result-acked :
      (page : UrlData) (w : WorkerState web j q) → (publish_result web j q page w).acked ≡ w.acked
  unfolding publish_result
  publish_result-acked page w = ground arith

  crawl_message-acked :
      (conf : Config) (now : ℕ) (m : CrawlMessage) (w : WorkerState web j q)
      → (crawl_message web j q conf now m w).acked ≡ w.acked
  unfolding crawl_message
  crawl_message-acked conf now m w = elim (Result-cases (crawled conf now m w)) [
    | inl (page, c) ↦ rw (c, crawl_message) (publish_result-acked (result_of web j q m page) _)
    | inr (x, c) ↦ rw (c, crawl_message) refl
  ]

  -- Every delivery is acknowledged once. Either its page was crawled and exactly one result, with the
  -- URL and the depth of the message, goes to the result exchange; or nothing is published, and this
  -- is because the body does not decode, the crawl failed, or the result was not encoded or not
  -- accepted.
  pub process_message_outcome :
      (conf : Config) (now : ℕ) (body : j.Body) (w : WorkerState web j q)
      → let w' = process_message web j q conf now body w in
        (w'.acked ≡ suc w.acked)
        × (Reports conf now body w w' ⊎ (Reason conf now body w × (w'.published ≡ w.published)))
  unfolding process_message
  process_message_outcome conf now body w = elim (Option-cases (j.unmarshal_message body)) [
    | inl e ↦ rw (e, process_message) (refl, inr (undecoded e, refl))
    | inr (m, e) ↦
        rw (e, process_message)
          (
            ap suc (crawl_message-acked conf now m w),
            elim (crawl_message-Ends conf now body m w e) [
              | inl i ↦ inl (record {
                message = i.message;
                decodes = i.decodes;
                page = i.page;
                crawl = i.crawl;
                report = i.report;
                encodes = i.encodes;
                published = i.published;
              })
              | inr k ↦ inr k
            ],
          )
  ]
