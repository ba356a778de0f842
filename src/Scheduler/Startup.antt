-- ===== src/Scheduler/Startup.antt =====
-- scheduler/cmd/scheduler/main.go: `main`, up to where the web server waits for requests. `config` is what
-- `InitConfig` returned, and `listens` says that `r.Run`, which is gin's, does not return an error: it does if the
-- port is taken. A call of `os.Exit(1)` ends the process without the deferred `Conn.Close()`.
pub mod Ready
pub mod Tests
use distributed_web_crawler.Base.{
  ℤ, pos, Bool, true, false, List, [], ◌∷◌, Result, ok, err, if◌then◌else◌,
}
use distributed_web_crawler.Common.Config.{Config}
use distributed_web_crawler.Common.Environment.{ConfigError}
use distributed_web_crawler.Common.Connections.{Connections, connect_all, ping}
use distributed_web_crawler.Services.Clients.{Clients}
use distributed_web_crawler.Services.Redis.{Redis}
use distributed_web_crawler.Services.Json.{Json}
use distributed_web_crawler.Services.Rabbit.{Rabbit}
use distributed_web_crawler.Scheduler.World.{World}
use distributed_web_crawler.Scheduler.Host.{Host}
use distributed_web_crawler.Scheduler.Bloom.{setup_bloom_filter}
use distributed_web_crawler.Scheduler.Broker.{setup_broker}

pub data Exit : Type 0 where
  no_config no_connections no_ping no_topology no_filter no_server : Exit

-- The goroutines, with the interval of the watchdog in seconds and its time limit.
pub data Task : Type 0 where
  monitors batches consumes_results serves : Task
  watches : ℤ → ℤ → Task

-- In the order of their start.
abbrev pub tasks : List Task
tasks = monitors ∷ batches ∷ consumes_results ∷ watches (pos 10) (pos 300) ∷ serves ∷ []

module _ (cl : Clients) (r : Redis) (j : Json) (q : Rabbit j.Body) where
  pub data Process : Type 0 where
    exits : Exit → Host cl r j q → Process
    runs : Config → Connections cl → List Task → Host cl r j q → Process

  module _ (listens : Bool) where
    unfoldable pub set_up_filter : Config → Connections cl → Host cl r j q → Process
    set_up_filter conf c h =
        let (done, s) = setup_bloom_filter r h.world.store in
        let h' : Host cl r j q = record h { world = record h.world { store = s } } in
        elim done [
          | ok _ ↦ if listens then runs conf c tasks h' else exits no_server h'
          | err message ↦ exits no_filter h'
        ]

    unfoldable pub set_up_topology : Config → Connections cl → Host cl r j q → Process
    unfolding set_up_filter
    set_up_topology conf c h =
        let (done, b) = setup_broker r j q h.world.broker in
        let h' : Host cl r j q = record h { world = record h.world { broker = b } } in
        elim done [ ok _ ↦ set_up_filter conf c h' | err e ↦ exits no_topology h' ]

    unfoldable pub check_connections : Config → Connections cl → Host cl r j q → Process
    unfolding set_up_topology
    check_connections conf c h =
        let (alive, s) = ping cl c h.clients in
        let h' : Host cl r j q = record h { clients = s } in
        if alive then set_up_topology conf c h' else exits no_ping h'

    unfoldable pub main : Result ConfigError Config → Host cl r j q → Process
    unfolding check_connections
    main (err e) h = exits no_config h
    main (ok conf) h =
        let (conn, s) = connect_all cl h.clients in
        let h' : Host cl r j q = record h { clients = s } in
        elim conn [ ok c ↦ check_connections conf c h' | err e ↦ exits no_connections h' ]
