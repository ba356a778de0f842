-- ===== src/Worker/Pool/Acks.antt =====
-- worker/internal/broker/broker.go: what `StartConsumers` acknowledges, and the errors it keeps.
use distributed_web_crawler.Base.{
  if◌then◌else◌, Bool-cases, Result-cases, length-append, arith, ℕ, ◌+◌, ◌≤◌, String, List, [], ◌∷◌,
  Result, ok, err, length, ◌≡◌, inl, inr,
}
use distributed_web_crawler.Common.Config.{Config}
use distributed_web_crawler.Services.Json.{Json}
use distributed_web_crawler.Services.Rabbit.{Rabbit, BrokerError}
use distributed_web_crawler.Services.Web.{Web}
use distributed_web_crawler.Worker.Consumer.{to_results, WorkerState, process_message}
use distributed_web_crawler.Worker.Consumer.Reports.{process_message_outcome}
use distributed_web_crawler.Worker.Pool.{
  Delivery, Session, Pool, capacity, offer, process_messages, at, listen, session, start_consumers,
}

offer-bound :
    (room : ℕ) (e : BrokerError) (errors : List BrokerError)
    → length errors ≤ room
    → length (offer room e errors) ≤ room
unfolding offer
offer-bound room e errors h = ground (arith, length-append errors (e ∷ []))

module _ (web : Web) (j : Json) (q : Rabbit j.Body) where
  -- As many deliveries are acknowledged, no more results are published than that, and the channel of errors
  -- is not overrun.
  pub record Handles (queue_name : String) (n : ℕ) (p p' : Pool web j q) : Type 0 where
    pub acked : p'.worker.acked ≡ p.worker.acked + n
    pub published : length p'.worker.published ≤ length p.worker.published + n
    pub err_chan :
        length p.err_chan ≤ capacity queue_name → length p'.err_chan ≤ capacity queue_name

  Handles-trans :
      (queue_name : String) (m n : ℕ) (p p' p'' : Pool web j q)
      → Handles queue_name m p p'
      → Handles queue_name n p' p''
      → Handles queue_name (m + n) p p''
  Handles-trans queue_name m n p p' p'' a b = record {
    acked = omega (arith, a.acked, b.acked);
    published = omega (arith, a.published, b.published);
    err_chan = λ h. b.err_chan (a.err_chan h);
  }

  one_message :
      (conf : Config) (now : ℕ) (body : j.Body) (w : WorkerState web j q)
      → let w' = process_message web j q conf now body w in
        (w'.acked ≡ w.acked + 1) × (length w'.published ≤ length w.published + 1)
  one_message conf now body w =
      let (acked, ends) = process_message_outcome web j q conf now body w in
      (
        omega (arith, acked),
        elim ends [
          | inl i ↦
              rw i.published
                (omega (arith, length-append w.published (to_results web j q i.report ∷ [])))
          | inr (_, same) ↦ rw same (omega arith)
        ],
      )

  process_messages-counts :
      (conf : Config) (ds : List (Delivery web j q)) (w : WorkerState web j q)
      → let w' = process_messages web j q conf ds w in
        (w'.acked ≡ w.acked + length ds) × (length w'.published ≤ length w.published + length ds)
  unfolding process_messages
  process_messages-counts conf [] w = (omega arith, omega arith)
  process_messages-counts conf (d ∷ ds) w =
      let (a, b) = one_message conf d.now d.body w in
      let (c, e) = process_messages-counts conf ds (process_message web j q conf d.now d.body w) in
      (omega (arith, a, c), omega (arith, b, e))

  -- The deliveries of a session: none if it does not come to them.
  abbrev count : Result BrokerError (List (Delivery web j q)) → ℕ
  count (ok ds) = length ds
  count (err e) = 0

  abbrev pub delivered : Session web j q → q.State → ℕ
  delivered s b =
      let (opened, b₁) = q.open_channel b in
      if q.ready b
      then elim opened [ ok _ ↦ count (s.consume s.queue (s.qos b₁).1).0 | err e ↦ 0 ]
      else 0

  listen-Handles :
      (conf : Config) (queue_name : String) (s : Session web j q) (p : Pool web j q)
      → Handles queue_name
          (count (s.consume s.queue (s.qos p.worker.broker).1).0)
          p
          (listen web j q conf queue_name s p)
  unfolding listen
  listen-Handles conf queue_name s p =
      let b = (s.qos p.worker.broker).1 in
      let b' = (s.consume s.queue b).1 in
      elim (Result-cases (s.consume s.queue b).0) [
        | inl (ds, e) ↦
            let (acked, published) =
              process_messages-counts conf ds (record p.worker { broker = b' }) in
            rw (e, listen) (record { acked = acked; published = published; err_chan = λ h. h })
        | inr (x, e) ↦
            rw (e, listen)
              (record {
                acked = omega arith;
                published = omega arith;
                err_chan = offer-bound (capacity queue_name) x p.err_chan;
              })
      ]

  session-Handles :
      (conf : Config) (queue_name : String) (s : Session web j q) (p : Pool web j q)
      → Handles queue_name (delivered s p.worker.broker) p (session web j q conf queue_name s p)
  unfolding session
  session-Handles conf queue_name s p = elim (Bool-cases (q.ready p.worker.broker)) [
    | inr offline ↦
        rw (offline, session)
          (record { acked = omega arith; published = omega arith; err_chan = λ h. h })
    | inl online ↦ elim (Result-cases (q.open_channel p.worker.broker).0) [
      | inl (_, e) ↦
          let opened = at web j q (q.open_channel p.worker.broker).1 p in
          let rest = listen-Handles conf queue_name s opened in
          rw (online, session, e)
            (record { acked = rest.acked; published = rest.published; err_chan = rest.err_chan })
      | inr (x, e) ↦
          rw (online, session, e)
            (record {
              acked = omega arith;
              published = omega arith;
              err_chan = offer-bound (capacity queue_name) x p.err_chan;
            })
    ]
  ]

  -- The deliveries of all sessions, each on the broker that the one before leaves.
  abbrev pub all_delivered : Config → List (Session web j q) → Pool web j q → ℕ
  all_delivered conf [] p = 0
  all_delivered conf (s ∷ ss) p =
      delivered s p.worker.broker + all_delivered conf ss (session web j q conf conf.queue_name s p)

  -- However the sessions of a worker's consumers end: as many messages are acknowledged as were
  -- delivered, no more results are published than that, and the channel of errors never holds more
  -- than five for each queue.
  pub start_consumers-Handles :
      (conf : Config) (ss : List (Session web j q)) (p : Pool web j q)
      → Handles conf.queue_name (all_delivered conf ss p) p (start_consumers web j q conf ss p)
  unfolding start_consumers
  start_consumers-Handles conf [] p = record {
    acked = omega arith;
    published = omega arith;
    err_chan = λ h. h;
  }
  start_consumers-Handles conf (s ∷ ss) p =
      let p' = session web j q conf conf.queue_name s p in
      Handles-trans conf.queue_name (delivered s p.worker.broker) (all_delivered conf ss p') p p'
        (start_consumers web j q conf ss p') (session-Handles conf conf.queue_name s p)
        (start_consumers-Handles conf ss p')
