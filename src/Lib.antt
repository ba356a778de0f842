-- ===== src/Lib.antt =====
-- The distributed web crawler: a scheduler that runs one crawl job at a time and workers that fetch pages.
--
-- A client starts a job by POST /crawl. The scheduler takes a lock in Redis, remembers the URL in a Bloom
-- filter and publishes the seed to an exchange that hashes URLs to three queues. Workers fetch the pages
-- and publish them to the result queue. For each result the scheduler hands the page to the batcher, which
-- writes to MongoDB, and queues the links that the filter does not know, up to the job's depth. A watchdog
-- ends a job that has gone quiet; POST /stop ends it at once.
--
-- Files and code:
--   Base: numbers, lists, dictionaries and results.
--   Common: common/models.go, common/constants.go and the fields of common/config.go, whose InitConfig is
--     init_config of Common/Environment; find_env is its walk up the directories.
--   Common/Float32: the arithmetic of the share of links that processResult follows, drop_limit of Config.
--   Services: Redis with RedisBloom, RabbitMQ and JSON as records of operations and documented laws; the
--     program's code takes them as parameters. Memory and MemoryBroker meet them, for the tests.
--   Scheduler/Jobs: scheduler/internal/db/redis.go, the lock and the keys of the job. IsJobActive,
--     StartJob, GetMaxDepth and ForceCleanupJob are is_job_active, start_job, get_max_depth and
--     force_cleanup_job; the two writes after the lock are init_max_depth and init_last_activity.
--     Race takes StartJob command by command: step_at is the next command of one request, moves a
--     schedule of many; Overlap has a cleanup among them.
--     Slot is the promise of the file, a place for one job.
--   Scheduler/Bloom: scheduler/internal/bloom/bloom.go.
--   Scheduler/Broker: SetupBroker, InsertMessage and PurgeQueues of scheduler/internal/broker/broker.go.
--   Scheduler/Results: processResult of the same file; touch is its head, follow the part behind the
--     decoding, queue_links the loop; Race takes it command by command, for many consumers. The run-time
--     panic of a slice is the value panicked.
--   Scheduler/Consumer: StartResultConsumer of the same file; session is one turn of its endless loop.
--   Scheduler/Watchdog: StartWatchdog and checkJobStatus of the same file.
--   Scheduler/Handlers: scheduler/internal/handlers/crawl.go and stop.go; a handler gives the answer
--     and the new state. PingHandlerFunc is in Ping. Race takes POST /crawl command by command.
--   Scheduler/Startup: scheduler/cmd/scheduler/main.go; main either exits at a call or runs.
--   Scheduler/Router: scheduler/internal/router/router.go; serve is a request's way to its handler.
--   Scheduler/Batcher: scheduler/internal/db/db.go; a turn of the select loop is a tick or a body.
--   Worker/Politeness: worker/internal/crawler/politeness.go; reserve is what Enforce does under its lock.
--   Worker/Robots: worker/internal/robots/robots.go; group_of is the switch on the status, check_host the
--     part of IsAllowed behind the parsing.
--   Worker/Crawler: worker/internal/crawler/crawler.go; CrawlUrl is crawl_url, cut into its stages.
--     Metrics has the calls of worker/internal/metrics/metrics.go on the same paths.
--   Worker/Consumer: processMessage of worker/internal/broker/broker.go; Hop and Trip join it to
--     the scheduler. Worker/Pool is StartConsumers of that file, and Worker/Startup is worker/cmd/main.go.
--   Common/Connections: common/common.go; ConnectAll is connect_all, cut at each client that it opens.
--     Monitor is StartConnectionMonitor.
--   System: the scheduler, its batcher and any number of workers together. A step is a handler, a message
--     given to a worker, a result given to a result consumer, or a turn of the batcher; they come in any
--     order, and a message may be given again or never.
--   Services/Clients: which handles of the client libraries are open, with MemoryClients for the tests.
--   Services/Web: net/url, net/http, robotstxt, purell and goquery; MemoryWeb is one for the tests.
--
-- Each function takes the state of the scheduler (Scheduler/World) or of its own part and gives the new
-- one. A reply of a service may be an error at any call. Times are numbers of nanoseconds or seconds, and
-- Go's int and time.Duration wrap at 64 bits. A loop of the program that has no end is a function on the
-- list of its turns, so a theorem holds of every finite part of it; the attempts of reconnect_loop are
-- numbered, and Retries shows that any number beyond the last failure gives the same. The rounding of
-- Common/Float32 has a fuel of 512 bits, more than the numbers there have. All other loops are over lists,
-- so no fuel is needed.
--
-- Not modelled: logging, the locks that goroutines take around a read of a field, and what viper, gin and
-- Prometheus do themselves. A handler is one step of the system; POST /crawl, StartJob, ForceCleanupJob and
-- the links of processResult are also taken command by command, any number of one kind at a time, or a
-- cleanup among starts. Keys of Redis expire between handlers and not in the course of one. Floating point:
-- the drop rate is a float32, rounded as Go does it; durations and sizes are given to the metrics as whole
-- numbers.
-- URLs, links and the fields of requests are taken to be valid UTF-8, as NormalizeURL and a decoded message
-- give them; the HTML of a page is not.
mod Base
pub mod Common
pub mod Services
pub mod Scheduler
pub mod Worker
pub mod System
