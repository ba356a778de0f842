-- ===== src/Scheduler/Consumer/Tests.antt =====
-- A result consumer on a broker that fails once, then delivers a page and a body that is no page.
use distributed_web_crawler.Base.{All, ◌≡◌, refl, ok, err, [], ◌∷◌, pos, arith, length}
use distributed_web_crawler.Services.Rabbit.{failure}
use distributed_web_crawler.Services.MemoryBroker.{json, page, junk}
use distributed_web_crawler.Scheduler.Samples.{World', up_redis, up_rabbit, config, running, page_a}
use distributed_web_crawler.Scheduler.Results.{Run, returned, final}
use distributed_web_crawler.Common.Config.{drop_limit}
use distributed_web_crawler.Scheduler.Consumer.{Consume, result_consumer, session}
use distributed_web_crawler.Scheduler.Consumer.Delivers.{
  Shares, Delivered, all_heard, result_consumer-Ends,
}

abbrev refuses : Consume up_redis json up_rabbit
refuses b = (err failure, b)

abbrev delivers : Consume up_redis json up_rabbit
delivers b = (
  ok (record { body = page page_a; now = pos 160 } ∷ record { body = junk; now = pos 161 } ∷ []),
  b,
)

-- No link of a page is dropped.
share :
    All
      (Shares up_redis json up_rabbit config)
      (all_heard up_redis json up_rabbit config (refuses ∷ delivers ∷ []) running)
unfolding drop_limit session
share = (record { share = 3; exact = refl; within = omega arith }, (tt, tt))

abbrev end : Run World'
end = result_consumer up_redis json up_rabbit config (refuses ∷ delivers ∷ []) running

result_consumer-Ends_example :
    (end ≡ returned (final end))
    × Delivered up_redis json up_rabbit
        (all_heard up_redis json up_rabbit config (refuses ∷ delivers ∷ []) running)
        running
        (final end)
result_consumer-Ends_example =
    result_consumer-Ends up_redis json up_rabbit config (refuses ∷ delivers ∷ []) running share

hears_two : length (all_heard up_redis json up_rabbit config (refuses ∷ delivers ∷ []) running) ≡ 2
unfolding session
hears_two = refl

sleeps_five : (session up_redis json up_rabbit config refuses running).pause ≡ 5
unfolding session
sleeps_five = refl
