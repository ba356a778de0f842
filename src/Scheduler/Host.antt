-- ===== src/Scheduler/Host.antt =====
-- A scheduler process: the client libraries of common/common.go, and what its goroutines share.
use distributed_web_crawler.Services.Clients.{Clients}
use distributed_web_crawler.Services.Redis.{Redis}
use distributed_web_crawler.Services.Json.{Json}
use distributed_web_crawler.Services.Rabbit.{Rabbit}
use distributed_web_crawler.Scheduler.World.{World}

module _ (cl : Clients) (r : Redis) (j : Json) (q : Rabbit j.Body) where
  pub record Host : Type 0 where
    pub clients : cl.State
    pub world : World r j q
