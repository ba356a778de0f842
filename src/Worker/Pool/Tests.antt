-- ===== src/Worker/Pool/Tests.antt =====
-- The worker's consumers on a broker that refuses one session and delivers a message in the next.
use distributed_web_crawler.Base.{◌≡◌, refl, ok, err, [], ◌∷◌, length}
use distributed_web_crawler.Services.Rabbit.{failure}
use distributed_web_crawler.Services.MemoryBroker.{json, message, junk}
use distributed_web_crawler.Scheduler.Samples.{up_rabbit, config}
use distributed_web_crawler.Worker.Samples.{site}
use distributed_web_crawler.Worker.Consumer.Tests.{child_message, idle_worker}
use distributed_web_crawler.Worker.Pool.{Session, Pool, target_queues, start_consumers, session}
use distributed_web_crawler.Worker.Pool.Acks.{Handles, all_delivered, start_consumers-Handles}

abbrev refused : Session site json up_rabbit
refused = record {
  queue = "queue_1";
  qos = λ b. (err failure, b);
  consume = λ name b. (err failure, b);
}

abbrev served : Session site json up_rabbit
served = record {
  queue = "queue_1";
  qos = λ b. (ok tt, b);
  consume = λ name b. (
    ok (
        record { body = message child_message; now = 500 }
        ∷ record { body = junk; now = 600 }
        ∷ []),
    b,
  );
}

abbrev quiet : Pool site json up_rabbit
quiet = record { worker = idle_worker; err_chan = [] }

abbrev busy : Pool site json up_rabbit
busy = start_consumers site json up_rabbit config (refused ∷ served ∷ []) quiet

start_consumers-Handles_example :
    Handles site json up_rabbit "queue_1"
      (all_delivered site json up_rabbit config (refused ∷ served ∷ []) quiet)
      quiet
      busy
start_consumers-Handles_example =
    start_consumers-Handles site json up_rabbit config (refused ∷ served ∷ []) quiet

two : all_delivered site json up_rabbit config (refused ∷ served ∷ []) quiet ≡ 2
unfolding session
two = refl

one_error : length busy.err_chan ≡ 1
unfolding start_consumers target_queues
one_error = refl
