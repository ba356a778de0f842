-- ===== src/Scheduler/Results/Tests.antt =====
-- The theorems on `processResult` at concrete inputs.
use distributed_web_crawler.Common.Float32.Tests.{three_tenths}
use distributed_web_crawler.Scheduler.Results.Rates.{process_result-IsShare}
use distributed_web_crawler.Scheduler.Results.Stops.{IsShare}
use distributed_web_crawler.Scheduler.Results.Complete.{
  process_result-Served, Served, Reliable, Apart, AllApart,
}
use distributed_web_crawler.Common.Config.{Config, drop_limit, ttl_of}
use distributed_web_crawler.Scheduler.Broker.{insert_message}
use distributed_web_crawler.Scheduler.Bloom.{add_to_bloom, check_url_duplicate}
use distributed_web_crawler.Scheduler.Results.Delivery.{process_result_delivers}
use distributed_web_crawler.Scheduler.Results.Stops.{
  process_result_panics, process_result_stopped, process_result_total,
}
use distributed_web_crawler.Services.MemoryBroker.{message, json, page}
use distributed_web_crawler.Scheduler.Results.Dedup.{process_result-Learns, AddWorks, Learns}
use distributed_web_crawler.Scheduler.Results.Children.{process_result-Extends, IsLinked}
use distributed_web_crawler.Scheduler.Results.Extends.{Extends}
use distributed_web_crawler.Scheduler.Results.{
  touch, slice_prefix, panicked, queue_link, returned, queue_links, final, process_result,
}
use distributed_web_crawler.Scheduler.Jobs.{get_max_depth, max_depth_key}
use distributed_web_crawler.Base.{
  All-always, List, eq_iff, take, All, String, length, add64, arith, [], none, true, ◌∷◌, some, ◌≡◌,
  refl, pos, ok, lookup, insert,
}
use distributed_web_crawler.Scheduler.Samples.{
  idle, World', up_redis, up_rabbit, running, config, dropping, page_a,
}

stored : up_redis.value max_depth_key running.store ≡ some (up_redis.of_int (pos 2))
unfolding lookup
stored = refl

free : up_redis.value max_depth_key idle.store ≡ none
unfolding lookup
free = refl

limit :
    (get_max_depth up_redis
      (touch up_redis json up_rabbit dropping (page page_a) (pos 160) running).store).0
    ≡ ok (pos 2)
unfolding get_max_depth touch lookup insert
limit = refl

abbrev after : World'
after = final (process_result up_redis json up_rabbit config (page page_a) (pos 160) running)

two_links : length after.published ≡ 2
unfolding drop_limit process_result queue_links queue_link slice_prefix get_max_depth
    check_url_duplicate add_to_bloom insert_message add64 lookup insert ttl_of
two_links = refl

process_result-Extends_example :
    Extends up_redis json up_rabbit
      (IsLinked up_redis json up_rabbit page_a.next_urls (pos 0) (pos 2))
      running
      after
process_result-Extends_example =
    process_result-Extends up_redis json up_rabbit config (page page_a) (pos 160) page_a (pos 2)
      running refl (omega arith, omega arith) (omega arith, omega arith) stored

process_result_stopped_example :
    (final (process_result up_redis json up_rabbit config (page page_a) (pos 160) idle)).published
    ≡ []
process_result_stopped_example =
    (process_result_stopped up_redis json up_rabbit config (page page_a) (pos 160) idle free).1

adds : AddWorks up_redis json up_rabbit
adds f u s = (true, refl)

process_result-Learns_example : Learns up_redis json up_rabbit running after
process_result-Learns_example =
    process_result-Learns up_redis json up_rabbit adds config (page page_a) (pos 160) running

process_result_delivers_example : after.dbchan ≡ page page_a ∷ []
process_result_delivers_example =
    (process_result_delivers up_redis json up_rabbit config (page page_a) (pos 160) running).0

no_panic :
    process_result up_redis json up_rabbit config (page page_a) (pos 160) running ≡ returned after
unfolding drop_limit
no_panic =
    process_result_total up_redis json up_rabbit config (page page_a) (pos 160) running
      (record { share = 3; exact = refl; within = omega arith })

-- A rate of 0.3.
abbrev some_dropped : Config
some_dropped = record config { drop_next_url_rate = three_tenths }

process_result-IsShare_example :
    IsShare some_dropped 3
    × (process_result up_redis json up_rabbit some_dropped (page page_a) (pos 160) running
        ≡ returned (
            final (
              process_result up_redis json up_rabbit some_dropped (page page_a) (pos 160) running)))
process_result-IsShare_example =
    process_result-IsShare up_redis json up_rabbit some_dropped (page page_a) (pos 160) page_a
      running (record { positive = refl; small = omega arith }) refl (omega arith)

two_of_three : drop_limit some_dropped 3 ≡ pos 2
unfolding drop_limit
two_of_three = refl

rate_two_panics :
    process_result up_redis json up_rabbit dropping (page page_a) (pos 160) running
    ≡ panicked
        (final (process_result up_redis json up_rabbit dropping (page page_a) (pos 160) running))
unfolding drop_limit
rate_two_panics =
    process_result_panics up_redis json up_rabbit dropping (page page_a) (pos 160) page_a (pos 2) 2
      running refl limit (omega arith) refl

read_limit :
    (get_max_depth up_redis
      (touch up_redis json up_rabbit config (page page_a) (pos 160) running).store).0
    ≡ ok (pos 2)
unfolding get_max_depth touch lookup insert
read_limit = refl

pub any-Apart : (u x : String) → Apart up_redis json up_rabbit u x
any-Apart u x = record { apart = λ ne s. ground (arith, eq_iff u x) }

pub links-AllApart : (us : List String) → AllApart up_redis json up_rabbit us
links-AllApart [] = tt
links-AllApart (u ∷ us) =
    (All-always (Apart up_redis json up_rabbit u) (any-Apart u) us, links-AllApart us)

pub reliable : Reliable up_redis json up_rabbit
reliable = record {
  check = λ u s. (_, refl);
  add = adds;
  encode = λ m. (message m, refl);
  send = λ p s. refl;
}

process_result-Served_example :
    All (Served up_redis json up_rabbit reliable running after) (take 3 page_a.next_urls)
unfolding drop_limit
process_result-Served_example =
    process_result-Served up_redis json up_rabbit reliable config (page page_a) (pos 160) page_a
      (pos 2) 3 running refl read_limit (omega arith) refl (omega arith)
      (links-AllApart (take 3 page_a.next_urls))
