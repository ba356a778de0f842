-- ===== src/Scheduler/Consumer/Delivers.antt =====
-- scheduler/internal/broker/broker.go: what a result consumer hands to the batcher, session by session.
use distributed_web_crawler.Base.{
  All, All-append_left, All-append_right, ap, Bool-cases, Result-cases, List, [], ◌∷◌, ◌++◌,
  append_assoc, append-nil, Result, ok, err, ◌≡◌, ◌∙◌, sym, refl, inl, inr, if◌then◌else◌,
}
use distributed_web_crawler.Common.Config.{Config}
use distributed_web_crawler.Services.Redis.{Redis}
use distributed_web_crawler.Services.Json.{Json}
use distributed_web_crawler.Services.Rabbit.{Rabbit, BrokerError}
use distributed_web_crawler.Scheduler.World.{World}
use distributed_web_crawler.Scheduler.Jobs.{active_job_key, max_depth_key}
use distributed_web_crawler.Scheduler.Results.{Run, returned, process_result, final}
use distributed_web_crawler.Scheduler.Results.Stops.{SharesLinks, process_result_total}
use distributed_web_crawler.Scheduler.Results.Delivery.{process_result_delivers}
use distributed_web_crawler.Scheduler.Consumer.{
  Delivery, Consume, process_results, listen, session, result_consumer,
}

module _ (r : Redis) (j : Json) (q : Rabbit j.Body) where
  abbrev Scheduler : Type 0
  Scheduler = World r j q

  abbrev pub bodies : List (Delivery r j q) → List j.Body
  bodies [] = []
  bodies (d ∷ ds) = d.body ∷ bodies ds

  -- The batcher gets the bodies in order, and the lock and the depth limit stay.
  pub record Delivered (sent : List j.Body) (w w' : Scheduler) : Type 0 where
    pub dbchan : w'.dbchan ≡ w.dbchan ++ sent
    pub lock : r.value active_job_key w'.store ≡ r.value active_job_key w.store
    pub limit : r.value max_depth_key w'.store ≡ r.value max_depth_key w.store

  Delivered-same :
      (w w' : Scheduler) → w'.dbchan ≡ w.dbchan → w'.store ≡ w.store → Delivered [] w w'
  Delivered-same w w' d s = record {
    dbchan = d ∙ sym (append-nil w.dbchan);
    lock = ap (r.value active_job_key) s;
    limit = ap (r.value max_depth_key) s;
  }

  Delivered-trans :
      (before later : List j.Body) (u v w : Scheduler)
      → Delivered before u v
      → Delivered later v w
      → Delivered (before ++ later) u w
  Delivered-trans before later u v w a b = record {
    dbchan =
        b.dbchan
        ∙ ap (λ (l : List j.Body). l ++ later) a.dbchan
        ∙ append_assoc u.dbchan before later;
    lock = b.lock ∙ a.lock;
    limit = b.limit ∙ a.limit;
  }

  -- A run that ends without a panic, having delivered the bodies.
  abbrev pub Ends : List j.Body → Scheduler → Run Scheduler → Type 0
  Ends sent w run = (run ≡ returned (final run)) × Delivered sent w (final run)

  module _ (conf : Config) where
    abbrev pub Shares : j.Body → Type 0
    Shares body = SharesLinks r j q conf (j.unmarshal_data body)

    process_results-Ends :
        (ds : List (Delivery r j q)) (w : Scheduler)
        → All Shares (bodies ds)
        → Ends (bodies ds) w (process_results r j q conf ds w)
    unfolding process_results
    process_results-Ends [] w share = (refl, Delivered-same w w refl refl)
    process_results-Ends (d ∷ ds) w share =
        let w' = final (process_result r j q conf d.body d.now w) in
        let one = process_result_delivers r j q conf d.body d.now w in
        let rest = process_results-Ends ds w' share.1 in
        rw (process_result_total r j q conf d.body d.now w share.0, process_results)
          (
            rest.0,
            Delivered-trans (d.body ∷ []) (bodies ds) w w'
                (final (process_results r j q conf ds w'))
                (record { dbchan = one.0; lock = one.1; limit = one.2 }) rest.1,
          )

    -- What a session hears: nothing if it comes to no deliveries.
    abbrev listened : Result BrokerError (List (Delivery r j q)) → List j.Body
    listened (ok ds) = bodies ds
    listened (err e) = []

    abbrev pub heard : Consume r j q → Scheduler → List j.Body
    heard consume w =
        if q.ready w.broker
        then elim (q.open_channel w.broker).0 [
          | ok _ ↦ listened (consume (q.open_channel w.broker).1).0
          | err e ↦ []
        ]
        else []

    listen-Ends :
        (consume : Consume r j q) (w : Scheduler)
        → All Shares (listened (consume w.broker).0)
        → let s = listen r j q conf consume w in
          Ends (listened (consume w.broker).0) w s.run × (s.opened ≡ s.closed)
    unfolding listen
    listen-Ends consume w share =
        let w₁ : Scheduler = record w { broker = (consume w.broker).1 } in
        elim (Result-cases (consume w.broker).0) [
          | inl (ds, e) ↦
              let all = process_results-Ends ds w₁ (rw e at share) in
              rw (e, listen, all.0)
                (
                  (refl, record { dbchan = all.1.dbchan; lock = all.1.lock; limit = all.1.limit }),
                  refl,
                )
          | inr (x, e) ↦ rw (e, listen) ((refl, Delivered-same w w₁ refl refl), refl)
        ]

    pub session-Ends :
        (consume : Consume r j q) (w : Scheduler)
        → All Shares (heard consume w)
        → let s = session r j q conf consume w in
          Ends (heard consume w) w s.run × (s.opened ≡ s.closed)
    unfolding session
    session-Ends consume w share = elim (Bool-cases (q.ready w.broker)) [
      | inr offline ↦ rw (offline, session) ((refl, Delivered-same w w refl refl), refl)
      | inl online ↦
          let w₁ : Scheduler = record w { broker = (q.open_channel w.broker).1 } in
          elim (Result-cases (q.open_channel w.broker).0) [
            | inr (x, e) ↦ rw (online, session, e) ((refl, Delivered-same w w₁ refl refl), refl)
            | inl (_, e) ↦
                let (ends, channels) = listen-Ends consume w₁ (rw (online, e) at share) in
                rw (online, session, e)
                  (
                    (
                      ends.0,
                      record { dbchan = ends.1.dbchan; lock = ends.1.lock; limit = ends.1.limit },
                    ),
                    channels,
                  )
          ]
    ]

    -- What all the sessions hear, each in the state that the one before leaves.
    abbrev pub all_heard : List (Consume r j q) → Scheduler → List j.Body
    all_heard [] w = []
    all_heard (consume ∷ rest) w =
        heard consume w ++ all_heard rest (final (session r j q conf consume w).run)

    -- If the drop rate leaves a share between none and all of the links of each page that is
    -- delivered, a result consumer does not panic, whatever channels fail to open and queues refuse to
    -- be consumed: after any number of sessions the batcher has been sent the bodies of all
    -- deliveries, in order and once, and the lock and the depth limit of the job are as they were.
    pub result_consumer-Ends :
        (sessions : List (Consume r j q)) (w : Scheduler)
        → All Shares (all_heard sessions w)
        → let run = result_consumer r j q conf sessions w in
          (run ≡ returned (final run)) × Delivered (all_heard sessions w) w (final run)
    unfolding result_consumer
    result_consumer-Ends [] w share = (refl, Delivered-same w w refl refl)
    result_consumer-Ends (consume ∷ rest) w share =
        let later_heard = all_heard rest (final (session r j q conf consume w).run) in
        let one =
          (session-Ends consume w (All-append_left Shares (heard consume w) later_heard share)).0 in
        let w' = final (session r j q conf consume w).run in
        let later =
          result_consumer-Ends rest w'
            (All-append_right Shares (heard consume w) later_heard share) in
        rw (one.0, result_consumer)
          (
            later.0,
            Delivered-trans (heard consume w) (all_heard rest w') w w'
                (final (result_consumer r j q conf rest w')) one.1 later.1,
          )
