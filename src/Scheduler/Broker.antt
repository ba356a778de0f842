-- ===== src/Scheduler/Broker.antt =====
-- scheduler/internal/broker/broker.go: the topology, the publishing of pages to fetch, and the purge.
pub mod Publish
pub mod Purge
pub mod Topology
pub mod Tests
use distributed_web_crawler.Base.{
  ℕ, suc, String, Bool, true, false, Option, none, some, List, [], ◌∷◌, ◌++◌, Result, ok, err, ℤ,
  next,
}
use distributed_web_crawler.Common.Constants.{
  consistent_hashing_exchange, result_exchange, result_queue, result_routing_key, queues,
}
use distributed_web_crawler.Common.Models.{CrawlMessage}
use distributed_web_crawler.Services.Redis.{Redis}
use distributed_web_crawler.Services.Json.{Json}
use distributed_web_crawler.Services.Rabbit.{
  Binding, Exchange, Queue, Rabbit, Publishing, BrokerError,
}
use distributed_web_crawler.Scheduler.World.{World}

-- What `InsertMessage` returns when it fails.
pub data InsertError : Type 0 where
  not_marshalled not_published : InsertError

module _ (r : Redis) (j : Json) (q : Rabbit j.Body) where
  open j use {Body, marshal_message}
  open q use {State, publish, purge, declare_exchange, declare_queue, bind_queue}

  unfoldable pub publish_body :
      String → Body → World r j q → Result InsertError (Unit {0}) × World r j q
  publish_body url_str body w =
      let p : Publishing Body = record {
        exchange = consistent_hashing_exchange;
        routing_key = url_str;
        body = body;
      } in
      let (done, b) = publish p w.broker in
      elim done [
        | ok _ ↦ (
          ok tt,
          record w {
            broker = b;
            urls_queued = suc w.urls_queued;
            published = w.published ++ p ∷ [];
          },
        )
        | err e ↦ (
          err not_published,
          record w { broker = b; scheduling_errors = suc w.scheduling_errors },
        )
      ]

  unfoldable pub insert_message :
      String → ℤ → ℤ → World r j q → Result InsertError (Unit {0}) × World r j q
  unfolding publish_body
  insert_message url_str current_depth max_depth w =
      elim (marshal_message
        (record { url = url_str; current_depth = current_depth; max_depth = max_depth })) [
          | none ↦ (err not_marshalled, w)
          | some body ↦ publish_body url_str body w
        ]

  unfoldable pub purge_all : List String → State → Result BrokerError (Unit {0}) × State
  purge_all [] s = (ok tt, s)
  purge_all (q_name ∷ rest) s = next (purge q_name s) (purge_all rest)

  unfoldable pub purge_queues : State → Result BrokerError (Unit {0}) × State
  unfolding purge_all
  purge_queues s = next (purge_all queues s) (purge_all (result_queue ∷ []))

  abbrev pub work_queue : String → Queue
  work_queue q_name = record { name = q_name; durable = true; max_length = some 10000 }

  abbrev pub work_binding : String → Binding
  work_binding q_name = record {
    queue = q_name;
    routing_key = "1";
    exchange = consistent_hashing_exchange;
  }

  abbrev pub hashing : Exchange
  hashing = record {
    name = consistent_hashing_exchange;
    kind = "x-consistent-hash";
    durable = true;
  }

  abbrev pub results : Exchange
  results = record { name = result_exchange; kind = "direct"; durable = true }

  abbrev pub result_binding : Binding
  result_binding = record {
    queue = result_queue;
    routing_key = result_routing_key;
    exchange = result_exchange;
  }

  unfoldable pub bind_queues : List String → State → Result BrokerError (Unit {0}) × State
  bind_queues [] s = (ok tt, s)
  bind_queues (q_name ∷ rest) s =
      next (declare_queue (work_queue q_name) s)
        λ s₁. next (bind_queue (work_binding q_name) s₁) (bind_queues rest)

  unfoldable pub setup_broker : State → Result BrokerError (Unit {0}) × State
  unfolding bind_queues
  setup_broker s = next (declare_exchange hashing s) λ s₁. next (bind_queues queues s₁) λ s₂.
      next (declare_exchange results s₂)
        λ s₃. next (declare_queue (work_queue result_queue) s₃) (bind_queue result_binding)
