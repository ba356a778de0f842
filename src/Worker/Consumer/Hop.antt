-- ===== src/Worker/Consumer/Hop.antt =====
-- A page's way around the system: from a message on a work queue over the worker to the scheduler, which
-- queues the next messages.
use distributed_web_crawler.Scheduler.Jobs.{max_depth_key}
use distributed_web_crawler.Common.Config.{Config}
use distributed_web_crawler.Base.{sym, subst, ◌≡◌, pos, ◌+ℤ◌, IsInt64, ℤ, ℕ, some}
use distributed_web_crawler.Services.Redis.{Redis}
use distributed_web_crawler.Services.Json.{Json, received}
use distributed_web_crawler.Services.Rabbit.{Rabbit, Publishing}
use distributed_web_crawler.Services.Web.{Web}
use distributed_web_crawler.Worker.Consumer.{result_of, WorkerState, process_message}
use distributed_web_crawler.Worker.Consumer.Reports.{Reports}
use distributed_web_crawler.Scheduler.World.{World}
use distributed_web_crawler.Scheduler.Results.{process_result, final}
use distributed_web_crawler.Scheduler.Results.Children.{IsLinked, IsChild, process_result-Extends}
use distributed_web_crawler.Scheduler.Results.Extends.{Extends, Extends-map}

module _ (web : Web) (r : Redis) (j : Json) (q : Rabbit j.Body) where
  -- A message that the scheduler queued for a link of a page at some depth, and that a worker reports
  -- on, comes back to the scheduler one deeper: what is queued for it then is again one deeper, and
  -- within the limit, as long as that limit is in Redis and the depths are within 64 bits.
  pub hop-Extends :
      (conf sched : Config) (now : ℕ) (t : ℤ) (depth max_depth : ℤ) (p : Publishing j.Body)
      (w : WorkerState web j q) (s : World r j q)
      → IsChild r j q depth max_depth p
      → (i : Reports web j q conf now p.body w (process_message web j q conf now p.body w))
      → IsInt64 (depth +ℤ pos 1)
      → IsInt64 max_depth
      → r.value max_depth_key s.store ≡ some (r.of_int max_depth)
      → Extends r j q
          (IsChild r j q (depth +ℤ pos 1) max_depth)
          s
          (final (process_result r j q sched i.report t s))
  hop-Extends conf sched now t depth max_depth p w s child i d m stored =
      let same : i.message ≡ child.message =
        cc (i.decodes, j.message_roundtrip child.message p.body child.encodes) in
      let page = received j (result_of web j q i.message i.page) in
      let at : i.message.current_depth ≡ depth +ℤ pos 1 = rw (same, child.deeper) in
      subst
        (λ n.
          Extends r j q (IsChild r j q n max_depth) s
            (final (process_result r j q sched i.report t s)))
        at
        (Extends-map r j q {P = IsLinked r j q page.next_urls page.depth max_depth} s
          (final (process_result r j q sched i.report t s)) (λ x c. c.0)
          (process_result-Extends r j q sched i.report t page max_depth s
            (j.data_roundtrip (result_of web j q i.message i.page) i.report i.encodes)
            (subst IsInt64 (sym at) d) m stored))
