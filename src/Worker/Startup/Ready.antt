-- ===== src/Worker/Startup/Ready.antt =====
-- worker/cmd/main.go: what holds once the consumers run, and what a ping answers.
use distributed_web_crawler.Base.{Result-cases, ◌⊎◌, ◌≡◌, refl, inl, inr, ok, err, Result}
use distributed_web_crawler.Common.Config.{Config}
use distributed_web_crawler.Common.Environment.{ConfigError}
use distributed_web_crawler.Common.Connections.{Connections, ConnectError, connect_all}
use distributed_web_crawler.Common.Connections.Opening.{AllOpen, connect_all-AllOpen}
use distributed_web_crawler.Services.Clients.{Clients}
use distributed_web_crawler.Worker.Pool.{target_queues}
use distributed_web_crawler.Worker.Startup.{Exit, no_config, no_connections, exits, consumes, main}

module _ (cl : Clients) where
  -- The call that failed.
  abbrev pub Fails : Result ConfigError Config → cl.State → Exit → Type 0
  Fails config s no_config = (e : ConfigError) × (config ≡ err e)
  Fails config s no_connections = (e : ConnectError) × ((connect_all cl s).0 ≡ err e)

  pub main_ends :
      (config : Result ConfigError Config) (s : cl.State)
      → let p = main cl config s in
        ((conf : Config) × (c : Connections cl) × (s' : cl.State) × (config ≡ ok conf)
          × (p ≡ consumes conf c (target_queues conf.queue_name) s')
          × AllOpen cl c s')
        ⊎ ((e : Exit) × (s' : cl.State) × (p ≡ exits e s') × Fails config s e)
  unfolding main
  main_ends (err e) s = inr (no_config, s, refl, (e, refl))
  main_ends (ok conf) s = elim (Result-cases (connect_all cl s).0) [
    | inl (c, e) ↦ rw (e, main) (inl (conf, c, _, refl, refl, connect_all-AllOpen cl s c e))
    | inr (x, e) ↦ rw (e, main) (inr (no_connections, _, refl, (x, e)))
  ]
