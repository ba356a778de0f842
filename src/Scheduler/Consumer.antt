-- ===== src/Scheduler/Consumer.antt =====
-- scheduler/internal/broker/broker.go: `StartResultConsumer`, one of its five goroutines. A turn of its loop
-- is a session on a channel of its own. `consume` is `Consume` of the result queue, with automatic
-- acknowledgement: an error, or the deliveries until the channel closes.
pub mod Delivers
pub mod Tests
use distributed_web_crawler.Base.{
  ℕ, ℤ, Bool, true, false, List, [], ◌∷◌, Result, ok, err, if◌then◌else◌,
}
use distributed_web_crawler.Common.Config.{Config}
use distributed_web_crawler.Services.Redis.{Redis}
use distributed_web_crawler.Services.Json.{Json}
use distributed_web_crawler.Services.Rabbit.{Rabbit, BrokerError}
use distributed_web_crawler.Scheduler.World.{World}
use distributed_web_crawler.Scheduler.Results.{Run, returned, panicked, process_result}

module _ (r : Redis) (j : Json) (q : Rabbit j.Body) where
  -- A message, and the second at which it is processed.
  pub record Delivery : Type 0 where
    pub body : j.Body
    pub now : ℤ

  abbrev pub Consume : Type 0
  Consume = q.State → Result BrokerError (List Delivery) × q.State

  unfoldable pub process_results : Config → List Delivery → World r j q → Run (World r j q)
  process_results conf [] w = returned w
  process_results conf (d ∷ ds) w = elim (process_result r j q conf d.body d.now w) [
    | returned w' ↦ process_results conf ds w'
    | panicked w' ↦ panicked w'
  ]

  -- The channels that the session opened and closed, and how many seconds the goroutine sleeps after it.
  pub record Session : Type 0 where
    pub opened : ℕ
    pub closed : ℕ
    pub pause : ℕ
    pub run : Run (World r j q)

  abbrev after_loop : Run (World r j q) → Session
  after_loop (returned w) = record { opened = 1; closed = 1; pause = 2; run = returned w }
  after_loop (panicked w) = record { opened = 1; closed = 0; pause = 0; run = panicked w }

  unfoldable pub listen : Config → Consume → World r j q → Session
  unfolding process_results
  listen conf consume w =
      let (msgs, b) = consume w.broker in
      let w₁ : World r j q = record w { broker = b } in
      elim msgs [
        | ok ds ↦ after_loop (process_results conf ds w₁)
        | err e ↦ record { opened = 1; closed = 1; pause = 5; run = returned w₁ }
      ]

  unfoldable pub session : Config → Consume → World r j q → Session
  unfolding listen
  session conf consume w =
      let (opened, b) = q.open_channel w.broker in
      let w₁ : World r j q = record w { broker = b } in
      if q.ready w.broker
      then elim opened [
        | ok _ ↦ listen conf consume w₁
        | err e ↦ record { opened = 0; closed = 0; pause = 5; run = returned w₁ }
      ]
      else record { opened = 0; closed = 0; pause = 2; run = returned w }

  -- The loop has no end of its own; this is any finite part of it.
  unfoldable pub result_consumer : Config → List Consume → World r j q → Run (World r j q)
  unfolding session
  result_consumer conf [] w = returned w
  result_consumer conf (consume ∷ rest) w = elim (session conf consume w).run [
    | returned w' ↦ result_consumer conf rest w'
    | panicked w' ↦ panicked w'
  ]
