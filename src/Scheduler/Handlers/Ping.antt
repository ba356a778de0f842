-- ===== src/Scheduler/Handlers/Ping.antt =====
-- scheduler/internal/handlers/crawl.go: `PingHandlerFunc`. The text of an error in an answer is left out.
use distributed_web_crawler.Base.{inr, inl, ◌∙◌, Bool-cases, if◌then◌else◌, ◌≡◌, ok, err}
use distributed_web_crawler.Services.Clients.{Clients}
use distributed_web_crawler.Common.Connections.{Connections, connect_all, ping}
use distributed_web_crawler.Common.Connections.Opening.{connect_all-AllOpen, AllOpen}
use distributed_web_crawler.Scheduler.Handlers.{Response, respond}

module _ (cl : Clients) where
  unfoldable pub handle_ping : cl.State → Response × cl.State
  handle_ping s =
      let (conn, s') = connect_all cl s in
      elim conn [
        | ok c ↦
            let (alive, s'') = ping cl c s' in
            (if alive then respond 200 "pinged" else respond 500 "cant pint to services", s'')
        | err e ↦ (respond 500 "cant connect to services", s')
      ]

  pub ping-keeps :
      (c : Connections cl) (x : cl.Handle) (s : cl.State)
      → cl.is_open x (ping cl c s).1 ≡ cl.is_open x s
  unfolding ping
  ping-keeps c x s = elim (Bool-cases (cl.ping_redis c.redis_client s).0) [
    | inl alive ↦
        rw (alive, ping)
          (cl.ping_mongo_keeps c.mongo_client x (cl.ping_redis c.redis_client s).1
            ∙ cl.ping_redis_keeps c.redis_client x s)
    | inr dead ↦ rw (dead, ping) (cl.ping_redis_keeps c.redis_client x s)
  ]

  -- Each request that gets as far as the pings leaves its own connections to all three services open.
  pub handle_ping-AllOpen :
      (s : cl.State) (c : Connections cl)
      → (connect_all cl s).0 ≡ ok c
      → AllOpen cl c (handle_ping s).1
  unfolding handle_ping
  handle_ping-AllOpen s c e =
      let opened = connect_all-AllOpen cl s c e in
      let s' = (connect_all cl s).1 in
      rw (e, handle_ping)
        (record {
          mongo = ping-keeps c c.mongo_client s' ∙ opened.mongo;
          redis = ping-keeps c c.redis_client s' ∙ opened.redis;
          conn = ping-keeps c c.rabbit_mq.conn s' ∙ opened.conn;
          channel = ping-keeps c c.rabbit_mq.channel s' ∙ opened.channel;
        })
