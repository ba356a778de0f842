-- ===== src/Scheduler/Samples.antt =====
-- Concrete configurations, pages and states that the tests of the scheduler share.
use distributed_web_crawler.Common.Models.{UrlData}
use distributed_web_crawler.Services.Memory.{number, up, without, memory, text, Store, empty_store}
use distributed_web_crawler.Services.MemoryBroker.{rabbit, Body, empty_broker, json}
use distributed_web_crawler.Common.Config.{Config}
use distributed_web_crawler.Services.Rabbit.{Rabbit}
use distributed_web_crawler.Services.Redis.{Redis}
use distributed_web_crawler.Base.{false, pos, [], ◌∷◌}
use distributed_web_crawler.Scheduler.World.{World}

abbrev pub up_redis : Redis
up_redis = memory up

abbrev pub no_get : Redis
no_get = memory (without "GET")

abbrev pub up_rabbit : Rabbit Body
up_rabbit = rabbit up

abbrev pub config : Config
config = record {
  mongo_uri = "mongodb://localhost:27017";
  redis_addr = "localhost:6379";
  redis_password = "";
  redis_db = pos 0;
  rabbitmq_uri = "amqp://localhost";
  queue_name = "queue_1";
  drop_next_url_rate = record { negative = false; mantissa = 0; scale = 0 };
  time_delay = pos 2;
  job_ttl = pos 24;
  default_politeness_delay = pos 1000;
}

-- A drop rate of two.
abbrev pub dropping : Config
dropping = record config {
  drop_next_url_rate = record { negative = false; mantissa = 2; scale = 0 };
}

abbrev pub World' : Type 0
World' = World up_redis json up_rabbit

abbrev pub idle : World'
idle = record {
  store = empty_store;
  broker = empty_broker;
  dbchan = [];
  urls_queued = 0;
  scheduling_errors = 0;
  published = [];
}

-- A job of depth two that started at second 100.
abbrev pub job_values : Store
job_values = record {
  values =
      ("crawler:active_job", text "http://a.org/")
      ∷ ("crawler:max_depth", number (pos 2))
      ∷ ("crawler:last_activity_time", number (pos 100))
      ∷ [];
  filter = "http://a.org/" ∷ [];
}

abbrev pub running : World'
running = record idle { store = job_values }

-- A page with two new links, one of them twice.
abbrev pub page_a : UrlData
page_a = record {
  url = "http://a.org/";
  raw_html = "<html></html>";
  next_urls = "http://a.org/b" ∷ "http://a.org/c" ∷ "http://a.org/b" ∷ [];
  has_robots = false;
  depth = pos 0;
}
