-- ===== src/Worker/Samples.antt =====
-- A site with two pages, one of which is disallowed, and a crawl delay of seven seconds.
use distributed_web_crawler.Common.Config.{Config}
use distributed_web_crawler.Worker.Robots.{RobotChecker}
use distributed_web_crawler.Services.Web.{Web}
use distributed_web_crawler.Base.{false, [], ◌∷◌, some, none, pos}
use distributed_web_crawler.Services.MemoryWeb.{Address, Rules, robots_txt, html, Net, memory_web}

abbrev pub front : Address
front = record { scheme = "http"; host = "a.org"; path = "/"; text = "http://a.org/" }

abbrev pub secret : Address
secret = record { scheme = "http"; host = "a.org"; path = "/secret"; text = "http://a.org/secret" }

abbrev pub rules : Rules
rules = record { disallowed = "/secret" ∷ []; delay = pos 7_000_000_000 }

abbrev pub site : Web
site = memory_web (("http://a.org/", front) ∷ ("http://a.org/secret", secret) ∷ [])

abbrev pub net : Net
net = record {
  replies =
      ("http://a.org/robots.txt", (200, robots_txt rules))
      ∷ ("http://a.org/", (200, html "<a>" (some "http://a.org/secret" ∷ none ∷ [])))
      ∷ [];
  requests = [];
}

abbrev pub fresh : RobotChecker site
fresh = record { user_agent = "*"; cache = []; net = net }

abbrev pub conf : Config
conf = record {
  mongo_uri = "";
  redis_addr = "";
  redis_password = "";
  redis_db = pos 0;
  rabbitmq_uri = "";
  queue_name = "";
  drop_next_url_rate = record { negative = false; mantissa = 0; scale = 0 };
  time_delay = pos 2;
  job_ttl = pos 24;
  default_politeness_delay = pos 1000;
}
