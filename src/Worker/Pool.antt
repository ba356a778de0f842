-- ===== src/Worker/Pool.antt =====
-- worker/internal/broker/broker.go: `StartConsumers`. Its goroutines work in sessions, each on a channel of its
-- own, of which this is any finite sequence, one after the other. The managers' loops have no end, so the
-- function does not come to its last lines.
pub mod Acks
pub mod Tests
use distributed_web_crawler.Base.{
  ℕ, ◌*◌, String, Bool, true, false, List, [], ◌∷◌, ◌++◌, Result, ok, err, str_eq, ltb, length,
  if◌then◌else◌,
}
use distributed_web_crawler.Common.Config.{Config}
use distributed_web_crawler.Common.Constants.{queues}
use distributed_web_crawler.Services.Json.{Json}
use distributed_web_crawler.Services.Rabbit.{Rabbit, BrokerError}
use distributed_web_crawler.Services.Web.{Web}
use distributed_web_crawler.Worker.Consumer.{WorkerState, process_message}

unfoldable pub target_queues : String → List String
target_queues queue_name = if str_eq queue_name "" then queues else queue_name ∷ []

-- `make(chan error, len(targetQueues)*5)`
abbrev pub capacity : String → ℕ
capacity queue_name = length (target_queues queue_name) * 5

-- `select { case errChan <- err: default: }`
unfoldable pub offer : ℕ → BrokerError → List BrokerError → List BrokerError
offer room e errors = if ltb (length errors) room then errors ++ e ∷ [] else errors

module _ (web : Web) (j : Json) (q : Rabbit j.Body) where
  -- A message, and the nanosecond at which it is processed.
  pub record Delivery : Type 0 where
    pub body : j.Body
    pub now : ℕ

  -- The three calls of a session on the broker: `Qos`, and `Consume` of a queue without automatic
  -- acknowledgement, which is an error or the deliveries until the channel closes.
  pub record Session : Type 0 where
    pub queue : String
    pub qos : q.State → Result BrokerError (Unit {0}) × q.State
    pub consume : String → q.State → Result BrokerError (List Delivery) × q.State

  pub record Pool : Type 0 where
    pub worker : WorkerState web j q
    pub err_chan : List BrokerError

  unfoldable pub process_messages :
      Config → List Delivery → WorkerState web j q → WorkerState web j q
  process_messages conf [] w = w
  process_messages conf (d ∷ ds) w =
      process_messages conf ds (process_message web j q conf d.now d.body w)

  abbrev pub at : q.State → Pool → Pool
  at b p = record p { worker = record p.worker { broker = b } }

  unfoldable pub listen : Config → String → Session → Pool → Pool
  unfolding process_messages offer
  listen conf queue_name s p =
      -- An error of Qos is only logged.
      let (_, b) = s.qos p.worker.broker in
      let (msgs, b') = s.consume s.queue b in
      let p₁ = at b' p in
      elim msgs [
        | ok ds ↦ record p₁ { worker = process_messages conf ds p₁.worker }
        | err e ↦ record p₁ { err_chan = offer (capacity queue_name) e p₁.err_chan }
      ]

  unfoldable pub session : Config → String → Session → Pool → Pool
  unfolding listen offer
  session conf queue_name s p =
      let (opened, b) = q.open_channel p.worker.broker in
      let p₁ = at b p in
      if q.ready p.worker.broker
      then elim opened [
        | ok _ ↦ listen conf queue_name s p₁
        | err e ↦ record p₁ { err_chan = offer (capacity queue_name) e p₁.err_chan }
      ]
      else p

  unfoldable pub start_consumers : Config → List Session → Pool → Pool
  unfolding session
  start_consumers conf [] p = p
  start_consumers conf (s ∷ ss) p = start_consumers conf ss (session conf conf.queue_name s p)
