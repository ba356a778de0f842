-- ===== src/Scheduler/Startup/Ready.antt =====
-- scheduler/cmd/scheduler/main.go: what holds once the scheduler serves requests, and why it exits.
use distributed_web_crawler.Base.{
  Bool, Bool-cases, Result-cases, String, ◌⊎◌, ◌≢◌, ◌≡◌, ◌∙◌, refl, inl, inr, false, ok, err,
  Result,
}
use distributed_web_crawler.Common.Config.{Config}
use distributed_web_crawler.Common.Environment.{ConfigError}
use distributed_web_crawler.Common.Connections.{Connections, ConnectError, connect_all, ping}
use distributed_web_crawler.Common.Connections.Opening.{AllOpen, connect_all-AllOpen}
use distributed_web_crawler.Services.Clients.{Clients}
use distributed_web_crawler.Services.Redis.{Redis}
use distributed_web_crawler.Services.Json.{Json}
use distributed_web_crawler.Services.Rabbit.{Rabbit, BrokerError}
use distributed_web_crawler.Scheduler.Host.{Host}
use distributed_web_crawler.Scheduler.Bloom.{bloom_filter_key, setup_bloom_filter}
use distributed_web_crawler.Scheduler.Broker.{setup_broker}
use distributed_web_crawler.Scheduler.Broker.Topology.{Declared, setup_broker-declares}
use distributed_web_crawler.Scheduler.Handlers.Ping.{ping-keeps}
use distributed_web_crawler.Scheduler.Startup.{
  Exit, no_config, no_connections, no_ping, no_topology, no_filter, no_server, tasks, Process,
  exits, runs, set_up_filter, set_up_topology, check_connections, main,
}

module _ (cl : Clients) (r : Redis) (j : Json) (q : Rabbit j.Body) where
  -- The connections are open, the topology is declared, the filter was reserved now or before, and the keys
  -- of Redis, with those of a job from before, and the messages published are as they were.
  pub record Ready (c : Connections cl) (h h' : Host cl r j q) : Type 0 where
    pub connections : AllOpen cl c h'.clients
    pub declared : Declared r j q h'.world.broker
    pub filter : (setup_bloom_filter r h.world.store).0 ≡ ok tt
    pub values :
        (k : String) → bloom_filter_key ≢ k → r.value k h'.world.store ≡ r.value k h.world.store
    pub published : h'.world.published ≡ h.world.published

  -- The call that failed.
  abbrev pub Fails : Bool → Result ConfigError Config → Host cl r j q → Exit → Type 0
  Fails listens config h no_config = (e : ConfigError) × (config ≡ err e)
  Fails listens config h no_connections =
      (e : ConnectError) × ((connect_all cl h.clients).0 ≡ err e)
  Fails listens config h no_ping =
      (c : Connections cl) × ((connect_all cl h.clients).0 ≡ ok c)
      × ((ping cl c (connect_all cl h.clients).1).0 ≡ false)
  Fails listens config h no_topology =
      (e : BrokerError) × ((setup_broker r j q h.world.broker).0 ≡ err e)
  Fails listens config h no_filter =
      (message : String) × ((setup_bloom_filter r h.world.store).0 ≡ err message)
  Fails listens config h no_server = listens ≡ false

  abbrev Ends : Bool → Result ConfigError Config → Host cl r j q → Process cl r j q → Type 0
  Ends listens config h p =
      ((conf : Config) × (c : Connections cl) × (h' : Host cl r j q) × (config ≡ ok conf)
        × (p ≡ runs conf c tasks h')
        × Ready c h h')
      ⊎ ((e : Exit) × (h' : Host cl r j q) × (p ≡ exits e h') × Fails listens config h e)

  module _ (listens : Bool) (config : Result ConfigError Config) (h : Host cl r j q) (conf : Config)
      (c : Connections cl) (read : config ≡ ok conf) where
    set_up_filter-Ends :
        (s : cl.State) (b : q.State)
        → AllOpen cl c s
        → Declared r j q b
        → Ends listens config h (
            set_up_filter cl r j q listens conf c
              (record { clients = s; world = record h.world { broker = b } }))
    unfolding set_up_filter setup_bloom_filter
    set_up_filter-Ends s b opened declared =
        elim (Result-cases (setup_bloom_filter r h.world.store).0) [
          | inl (_, e) ↦ elim (Bool-cases listens) [
            | inl open_ ↦
                rw (e, set_up_filter, open_)
                  (inl (
                    conf,
                    c,
                    _,
                    read,
                    refl,
                    record {
                      connections = opened;
                      declared = declared;
                      filter = e;
                      values = λ k ne. r.bf_reserve_keeps bloom_filter_key k h.world.store ne;
                      published = refl;
                    },
                  ))
            | inr taken ↦ rw (e, set_up_filter, taken) (inr (no_server, _, refl, refl))
          ]
          | inr (message, e) ↦ rw (e, set_up_filter) (inr (no_filter, _, refl, (message, e)))
        ]

    set_up_topology-Ends :
        (s : cl.State)
        → AllOpen cl c s
        → Ends listens config h (set_up_topology cl r j q listens conf c (record h { clients = s }))
    unfolding set_up_topology
    set_up_topology-Ends s opened = elim (Result-cases (setup_broker r j q h.world.broker).0) [
      | inl (_, e) ↦
          rw (e, set_up_topology)
            (set_up_filter-Ends s (setup_broker r j q h.world.broker).1 opened
              (setup_broker-declares r j q h.world.broker e))
      | inr (x, e) ↦ rw (e, set_up_topology) (inr (no_topology, _, refl, (x, e)))
    ]

    ping-AllOpen : (s : cl.State) → AllOpen cl c s → AllOpen cl c (ping cl c s).1
    ping-AllOpen s o = record {
      mongo = ping-keeps cl c c.mongo_client s ∙ o.mongo;
      redis = ping-keeps cl c c.redis_client s ∙ o.redis;
      conn = ping-keeps cl c c.rabbit_mq.conn s ∙ o.conn;
      channel = ping-keeps cl c c.rabbit_mq.channel s ∙ o.channel;
    }

    check_connections-Ends :
        (connect_all cl h.clients).0 ≡ ok c
        → Ends listens config h (
            check_connections cl r j q listens conf c
              (record h { clients = (connect_all cl h.clients).1 }))
    unfolding check_connections
    check_connections-Ends made =
        let s = (connect_all cl h.clients).1 in
        elim (Bool-cases (ping cl c s).0) [
          | inl alive ↦
              rw (alive, check_connections)
                (set_up_topology-Ends (ping cl c s).1
                  (ping-AllOpen s (connect_all-AllOpen cl h.clients c made)))
          | inr dead ↦ rw (dead, check_connections) (inr (no_ping, _, refl, (c, made, dead)))
        ]

  -- The scheduler's main either comes to serve requests with all five tasks started, and then its
  -- connections are open, the topology is declared, the filter was reserved now or before, and every
  -- key of Redis but the filter's, so the state of a job from before too, is as it was; or it exits at
  -- one of six calls, which is the one that failed, the call that serves being the last.
  pub main_outcome :
      (listens : Bool) (config : Result ConfigError Config) (h : Host cl r j q)
      → let p = main cl r j q listens config h in
        ((conf : Config) × (c : Connections cl) × (h' : Host cl r j q) × (config ≡ ok conf)
          × (p ≡ runs conf c tasks h')
          × Ready c h h')
        ⊎ ((e : Exit) × (h' : Host cl r j q) × (p ≡ exits e h') × Fails listens config h e)
  unfolding main
  main_outcome listens (err e) h = inr (no_config, h, refl, (e, refl))
  main_outcome listens (ok conf) h = elim (Result-cases (connect_all cl h.clients).0) [
    | inl (c, e) ↦ rw (e, main) (check_connections-Ends listens (ok conf) h conf c refl e)
    | inr (x, e) ↦ rw (e, main) (inr (no_connections, _, refl, (x, e)))
  ]
