-- ===== src/Worker/Startup/Tests.antt =====
-- The start of the worker at concrete inputs.
use distributed_web_crawler.Base.{Result, ◌⊎◌, ◌≡◌, refl, ok, none, some, [], List, ℕ}
use distributed_web_crawler.Common.Config.{Config}
use distributed_web_crawler.Common.Environment.{ConfigError}
use distributed_web_crawler.Common.Connections.{Connections, ping}
use distributed_web_crawler.Common.Connections.Opening.{AllOpen}
use distributed_web_crawler.Common.Connections.Tests.{all_up, made}
use distributed_web_crawler.Scheduler.Samples.{config}
use distributed_web_crawler.Worker.Pool.{target_queues}
use distributed_web_crawler.Worker.Startup.{Exit, exits, consumes, main, ping_handler}
use distributed_web_crawler.Worker.Startup.Ready.{Fails, main_ends}

abbrev read : Result ConfigError Config
read = ok config

outcome :
    let p = main all_up read [] in
    ((conf : Config) × (c : Connections all_up) × (s' : List ℕ) × (read ≡ ok conf)
      × (p ≡ consumes conf c (target_queues conf.queue_name) s')
      × AllOpen all_up c s')
    ⊎ ((e : Exit) × (s' : List ℕ) × (p ≡ exits e s') × Fails all_up read [] e)
outcome = main_ends all_up read []

answers :
    (ping_handler all_up (some made) []).0 ≡ some (record { status = 200; body = "PINGED!!!" })
unfolding ping_handler ping
answers = refl

-- A ping that comes before the connections panics.
panics : (ping_handler all_up none []).0 ≡ none
unfolding ping_handler
panics = refl
