-- ===== src/Scheduler/Broker/Publish.antt =====
-- scheduler/internal/broker/broker.go: what `InsertMessage` publishes and counts.
use distributed_web_crawler.Base.{
  Result, suc, ◌≡◌, refl, String, some, [], ◌∷◌, ◌++◌, ok, err, arith, ◌⊎◌, inl, inr, Option-cases,
  Result-cases,
}
use distributed_web_crawler.Common.Constants.{consistent_hashing_exchange}
use distributed_web_crawler.Common.Models.{CrawlMessage}
use distributed_web_crawler.Services.Redis.{Redis}
use distributed_web_crawler.Services.Json.{Json}
use distributed_web_crawler.Services.Rabbit.{Rabbit, Publishing}
use distributed_web_crawler.Scheduler.World.{World}
use distributed_web_crawler.Scheduler.Broker.{
  not_marshalled, not_published, InsertError, publish_body, insert_message,
}

module _ (r : Redis) (j : Json) (q : Rabbit j.Body) where
  open j use {Body, marshal_message}

  abbrev pub to_hashing : String → Body → Publishing Body
  to_hashing url_str body = record {
    exchange = consistent_hashing_exchange;
    routing_key = url_str;
    body = body;
  }

  -- The same but for the broker and the counters.
  pub record Keeps (w w' : World r j q) : Type 0 where
    pub store : w'.store ≡ w.store
    pub dbchan : w'.dbchan ≡ w.dbchan

  -- One more page is queued: its body is the message, and its routing key the URL.
  pub record Queued (m : CrawlMessage) (w w' : World r j q) : Type 0 where
    pub body : Body
    pub encodes : marshal_message m ≡ some body
    pub published : w'.published ≡ w.published ++ to_hashing m.url body ∷ []
    pub counted : w'.urls_queued ≡ suc w.urls_queued
    pub errors : w'.scheduling_errors ≡ w.scheduling_errors

  -- No page is queued.
  pub record Unqueued (w w' : World r j q) : Type 0 where
    pub published : w'.published ≡ w.published
    pub counted : w'.urls_queued ≡ w.urls_queued

  publish_body-Keeps :
      (url_str : String) (body : Body) (w : World r j q)
      → Keeps w (publish_body r j q url_str body w).1
  unfolding publish_body
  publish_body-Keeps url_str body w = ground arith

  pub insert_message-Keeps :
      (m : CrawlMessage) (w : World r j q)
      → Keeps w (insert_message r j q m.url m.current_depth m.max_depth w).1
  unfolding insert_message
  insert_message-Keeps m w = ground arith

  abbrev Outcome : CrawlMessage → World r j q → Result InsertError (Unit {0}) × World r j q → Type 0
  Outcome m w (result, w') =
      ((result ≡ ok tt) × Queued m w w') ⊎ ((e : InsertError) × (result ≡ err e) × Unqueued w w')

  publish_body-Outcome :
      (m : CrawlMessage) (body : Body) (w : World r j q)
      → marshal_message m ≡ some body
      → Outcome m w (publish_body r j q m.url body w)
  unfolding publish_body
  publish_body-Outcome m body w e =
      elim (Result-cases (q.publish (to_hashing m.url body) w.broker).0) [
        | inl (_, done) ↦
            rw (done, publish_body)
              (inl (
                refl,
                record {
                  body = body;
                  encodes = e;
                  published = refl;
                  counted = refl;
                  errors = refl;
                },
              ))
        | inr (x, failed) ↦
            rw (failed, publish_body)
              (inr (not_published, refl, record { published = refl; counted = refl }))
      ]

  -- InsertMessage either succeeds, having put exactly one message with the given URL and depths on the
  -- hashing exchange under the URL as routing key and counted it, or fails, having queued nothing.
  pub insert_message_outcome :
      (m : CrawlMessage) (w : World r j q)
      → let (result, w') = insert_message r j q m.url m.current_depth m.max_depth w in
        ((result ≡ ok tt) × Queued m w w') ⊎ ((e : InsertError) × (result ≡ err e) × Unqueued w w')
  unfolding insert_message
  insert_message_outcome m w = elim (Option-cases (marshal_message m)) [
    | inl none_ ↦
        rw (none_, insert_message)
          (inr (not_marshalled, refl, record { published = refl; counted = refl }))
    | inr (body, e) ↦ rw (e, insert_message) (publish_body-Outcome m body w e)
  ]
