-- ===== src/Scheduler/Results/Rates.antt =====
-- scheduler/internal/broker/broker.go: `processResult` under a drop rate between 0 and 1.
use distributed_web_crawler.Base.{◌≡◌, ◌<◌, ℤ, ℕ, some, length}
use distributed_web_crawler.Common.Config.{Config, drop_limit}
use distributed_web_crawler.Common.Float32.Bounds.{IsFraction, share_bounds}
use distributed_web_crawler.Common.Models.{UrlData}
use distributed_web_crawler.Services.Redis.{Redis}
use distributed_web_crawler.Services.Json.{Json}
use distributed_web_crawler.Services.Rabbit.{Rabbit}
use distributed_web_crawler.Scheduler.World.{World}
use distributed_web_crawler.Scheduler.Results.{process_result, returned, final}
use distributed_web_crawler.Scheduler.Results.Stops.{IsShare, process_result_total}

drop_limit-IsShare :
    (c : Config) (n : ℕ) → IsFraction c.drop_next_url_rate → n < 16_777_216 → IsShare c n
unfolding drop_limit
drop_limit-IsShare c n rate few =
    let (k, exact, within) = share_bounds n c.drop_next_url_rate few rate in
    record { share = k; exact = exact; within = within }

module _ (r : Redis) (j : Json) (q : Rabbit j.Body) where
  -- For a drop rate from 0 to 1, and a result that decodes to a page of fewer than 2^24 links: the
  -- limit that processResult computes in float32 lies between none and all of the page's links, and
  -- processResult does not panic, whatever the services reply.
  pub process_result-IsShare :
      (c : Config) (body : j.Body) (now : ℤ) (page : UrlData) (w : World r j q)
      → IsFraction c.drop_next_url_rate
      → j.unmarshal_data body ≡ some page
      → length page.next_urls < 16_777_216
      → IsShare c (length page.next_urls)
        × (process_result r j q c body now w ≡ returned (final (process_result r j q c body now w)))
  process_result-IsShare c body now page w rate decodes few =
      let share = drop_limit-IsShare c (length page.next_urls) rate few in
      (share, process_result_total r j q c body now w (rw decodes share))
