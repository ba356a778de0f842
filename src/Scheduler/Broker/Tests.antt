-- ===== src/Scheduler/Broker/Tests.antt =====
-- The theorems on the broker at concrete inputs.
use distributed_web_crawler.Scheduler.Broker.Purge.{purge_queues-empties}
use distributed_web_crawler.Scheduler.Broker.Publish.{insert_message_outcome, Unqueued, Queued}
use distributed_web_crawler.Common.Models.{CrawlMessage}
use distributed_web_crawler.Scheduler.Broker.Topology.{setup_broker-declares, Declared}
use distributed_web_crawler.Scheduler.Broker.{
  insert_message, InsertError, purge_queues, setup_broker,
}
use distributed_web_crawler.Services.MemoryBroker.{empty_broker, json, Broker}
use distributed_web_crawler.Base.{[], err, ◌∷◌, ◌⊎◌, Result, ◌≡◌, refl, pos, ok, lookup, insert}
use distributed_web_crawler.Scheduler.Samples.{World', up_redis, up_rabbit, running}

abbrev waiting_broker : Broker
waiting_broker = record empty_broker { counts = ("queue_2", 7) ∷ ("result_queue", 1) ∷ [] }

purged : (purge_queues up_redis json up_rabbit waiting_broker).0 ≡ ok tt
unfolding purge_queues lookup insert
purged = refl

drained : up_rabbit.waiting "queue_2" (purge_queues up_redis json up_rabbit waiting_broker).1 ≡ 0
drained = (purge_queues-empties up_redis json up_rabbit waiting_broker purged).1.0

set_up : (setup_broker up_redis json up_rabbit empty_broker).0 ≡ ok tt
unfolding setup_broker
set_up = refl

declared : Declared up_redis json up_rabbit (setup_broker up_redis json up_rabbit empty_broker).1
declared = setup_broker-declares up_redis json up_rabbit empty_broker set_up

abbrev link : CrawlMessage
link = record { url = "http://a.org/b"; current_depth = pos 1; max_depth = pos 2 }

abbrev sent : Result InsertError (Unit {0}) × World'
sent = insert_message up_redis json up_rabbit "http://a.org/b" (pos 1) (pos 2) running

one_or_none :
    ((sent.0 ≡ ok tt) × Queued up_redis json up_rabbit link running sent.1)
    ⊎ ((e : InsertError) × (sent.0 ≡ err e) × Unqueued up_redis json up_rabbit running sent.1)
one_or_none = insert_message_outcome up_redis json up_rabbit link running
