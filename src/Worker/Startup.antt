-- ===== src/Worker/Startup.antt =====
-- worker/cmd/main.go: `main`, up to where the consumers run, and `PingHandler`. The web server is started
-- before the configuration is read: until `ConnectAll` has returned, its handlers find `Conn` nil.
pub mod Ready
pub mod Tests
use distributed_web_crawler.Base.{
  ℕ, String, Bool, true, false, Option, none, some, List, Result, ok, err, if◌then◌else◌,
}
use distributed_web_crawler.Common.Config.{Config}
use distributed_web_crawler.Common.Environment.{ConfigError}
use distributed_web_crawler.Common.Connections.{Connections, connect_all, ping}
use distributed_web_crawler.Services.Clients.{Clients}
use distributed_web_crawler.Worker.Pool.{target_queues}

pub data Exit : Type 0 where
  no_config no_connections : Exit

pub record Answer : Type 0 where
  pub status : ℕ
  pub body : String

module _ (cl : Clients) where
  -- The process, with the queues that its consumers take messages from.
  pub data Process : Type 0 where
    exits : Exit → cl.State → Process
    consumes : Config → Connections cl → List String → cl.State → Process

  unfoldable pub main : Result ConfigError Config → cl.State → Process
  main (err e) s = exits no_config s
  main (ok conf) s =
      let (conn, s') = connect_all cl s in
      elim conn [
        | ok c ↦ consumes conf c (target_queues conf.queue_name) s'
        | err e ↦ exits no_connections s'
      ]

  -- `none` is the panic of a nil pointer, which the server confines to the request.
  unfoldable pub ping_handler : Option (Connections cl) → cl.State → Option Answer × cl.State
  ping_handler none s = (none, s)
  ping_handler (some c) s =
      let (alive, s') = ping cl c s in
      (
        some (
            if alive
            then record { status = 200; body = "PINGED!!!" }
            else record { status = 500; body = "error pinging services" }),
        s',
      )
