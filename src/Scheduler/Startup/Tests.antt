-- ===== src/Scheduler/Startup/Tests.antt =====
-- The start of the scheduler at concrete inputs.
use distributed_web_crawler.Base.{Result, ◌⊎◌, ◌≡◌, refl, ok, [], true, false, Bool}
use distributed_web_crawler.Common.Config.{Config}
use distributed_web_crawler.Common.Environment.{ConfigError}
use distributed_web_crawler.Common.Connections.{Connections, connect_all, ping}
use distributed_web_crawler.Common.Connections.Tests.{all_up}
use distributed_web_crawler.Services.MemoryBroker.{json}
use distributed_web_crawler.Scheduler.Samples.{up_redis, up_rabbit, config, running}
use distributed_web_crawler.Scheduler.Host.{Host}
use distributed_web_crawler.Scheduler.Bloom.{setup_bloom_filter}
use distributed_web_crawler.Scheduler.Broker.{setup_broker}
use distributed_web_crawler.Scheduler.Startup.{main, Process, runs, exits, tasks, Exit, no_server}
use distributed_web_crawler.Scheduler.Startup.Ready.{main_outcome, Ready, Fails}

abbrev Host' : Type 0
Host' = Host all_up up_redis json up_rabbit

-- A job from before the start still has its keys.
abbrev before : Host'
before = record { clients = []; world = running }

abbrev read : Result ConfigError Config
read = ok config

main_outcome_example :
    let p = main all_up up_redis json up_rabbit true read before in
    ((conf : Config) × (c : Connections all_up) × (h' : Host') × (read ≡ ok conf)
      × (p ≡ runs conf c tasks h')
      × Ready all_up up_redis json up_rabbit c before h')
    ⊎ ((e : Exit) × (h' : Host') × (p ≡ exits e h')
        × Fails all_up up_redis json up_rabbit true read before e)
main_outcome_example = main_outcome all_up up_redis json up_rabbit true read before

abbrev serves_ : Process all_up up_redis json up_rabbit → Bool
serves_ (runs conf c ts h) = true
serves_ (exits e h) = false

starts : serves_ (main all_up up_redis json up_rabbit true read before) ≡ true
unfolding main connect_all ping setup_broker setup_bloom_filter
starts = refl

-- The port is taken.
taken : (h : Host') × (main all_up up_redis json up_rabbit false read before ≡ exits no_server h)
unfolding main connect_all ping setup_broker setup_bloom_filter
taken = (_, refl)
