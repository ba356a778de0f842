-- ===== src/Scheduler/Handlers/Race/Accepted.antt =====
-- scheduler/internal/handlers/crawl.go: how many of the requests that come together are accepted.
use distributed_web_crawler.Base.{
  ℕ, zero, suc, true, false, List, [], ◌∷◌, pos, str_eq, All, ◌≡◌, ◌+◌, ◌≤◌, refl, arith, ◌==◌,
  if◌then◌else◌, Bool-cases, Result-cases, inl, inr,
}
use distributed_web_crawler.Common.Config.{Config}
use distributed_web_crawler.Common.Models.{CrawlMessage}
use distributed_web_crawler.Services.Redis.{Redis}
use distributed_web_crawler.Services.Json.{Json}
use distributed_web_crawler.Services.Rabbit.{Rabbit}
use distributed_web_crawler.Scheduler.World.{World}
use distributed_web_crawler.Scheduler.Bloom.{value-add_to_bloom}
use distributed_web_crawler.Scheduler.Broker.{insert_message}
use distributed_web_crawler.Scheduler.Broker.Publish.{insert_message-Keeps}
use distributed_web_crawler.Scheduler.Results.Delivery.{bloom_ne_active}
use distributed_web_crawler.Scheduler.Jobs.{is_job_active, active_job_key}
use distributed_web_crawler.Scheduler.Jobs.Race.{Pc, step_at}
use distributed_web_crawler.Scheduler.Jobs.Race.Winners.{Safe, holder, step-Safe, Safe-same}
use distributed_web_crawler.Scheduler.Jobs.Overlap.{Cleanup, clean_at}
use distributed_web_crawler.Scheduler.Jobs.Overlap.Locked.{running, clean-Safe, Safe-le}
use distributed_web_crawler.Scheduler.Handlers.Race.{
  Failure, Place, arrives, opens, filters, publishes, starts, cleans, answered, Crawl, start_of,
  after_start, after_clean, crawl_at, crawl_move, crawl_moves,
}

-- Whether a request has the lock.
abbrev locks : Place → ℕ
locks arrives = 0
locks opens = 1
locks filters = 1
locks publishes = 1
locks (starts p) = holder p
locks (cleans p f) = running p
locks (answered a) = if a.status == 200 then 1 else 0

abbrev all_locks : List Crawl → ℕ
all_locks [] = 0
all_locks (c ∷ cs) = locks c.place + all_locks cs

-- Whether a request was answered by 200, and how many were.
abbrev pub accepted : Place → ℕ
accepted arrives = 0
accepted opens = 0
accepted filters = 0
accepted publishes = 0
accepted (starts p) = 0
accepted (cleans p f) = 0
accepted (answered a) = if a.status == 200 then 1 else 0

abbrev pub all_accepted : List Crawl → ℕ
all_accepted [] = 0
all_accepted (c ∷ cs) = accepted c.place + all_accepted cs

accepted-le : (p : Place) → accepted p ≤ locks p
accepted-le p = ground arith

all_accepted-le : (cs : List Crawl) → all_accepted cs ≤ all_locks cs
all_accepted-le [] = omega arith
all_accepted-le (c ∷ cs) = omega (arith, accepted-le c.place, all_accepted-le cs)

locks-after_start : (p : Pc) → locks (after_start p) ≡ holder p
locks-after_start p = ground arith

locks-after_clean : (p : Cleanup) (f : Failure) → locks (after_clean p f) ≡ running p
locks-after_clean p f = ground arith

module _ (r : Redis) (j : Json) (q : Rabbit j.Body) (conf : Config) where
  -- IsJobActive only reads.
  is_job_active-Safe : (k : ℕ) (s : r.Store) → Safe r k s → Safe r k (is_job_active r s).1
  unfolding is_job_active
  is_job_active-Safe k s i = Safe-same r k s _ (r.exists_keeps active_job_key active_job_key s) i

  crawl_at-Safe :
      (p : Place) (c : Crawl) (k : ℕ) (w : World r j q)
      → Safe r (locks p + k) w.store
      → let (p', w') = crawl_at r j q conf p c w in Safe r (locks p' + k) w'.store
  unfolding crawl_at
  crawl_at-Safe arrives c k w i =
      let read = is_job_active-Safe (0 + k) w.store i in
      elim (Bool-cases (str_eq c.req.url "")) [
        | inl e ↦ rw (e, crawl_at) i
        | inr e ↦ elim (Result-cases (is_job_active r w.store).0) [
          | inl (true, a) ↦ rw (e, crawl_at, a) read
          | inl (false, a) ↦ rw (e, crawl_at, a) read
          | inr (x, a) ↦ rw (e, crawl_at, a) read
        ]
      ]
  crawl_at-Safe (starts p) c k w i =
      rw (locks-after_start (step_at r p (start_of conf c) w.store).0)
        (step-Safe r p (start_of conf c) k w.store i)
  crawl_at-Safe opens c k w i = elim (Bool-cases (q.ready w.broker)) [
    | inl e ↦ elim (Result-cases (q.open_channel w.broker).0) [
      | inl (_, o) ↦ rw (e, crawl_at, o) i
      | inr (x, o) ↦ rw (e, crawl_at, o) i
    ]
    | inr e ↦ rw (e, crawl_at) i
  ]
  crawl_at-Safe filters c k w i =
      Safe-same r (1 + k) w.store _
        (value-add_to_bloom r active_job_key c.req.url w.store bloom_ne_active) i
  crawl_at-Safe publishes c k w i =
      let message : CrawlMessage = record {
        url = c.req.url;
        current_depth = pos 0;
        max_depth = c.req.depth;
      } in
      let same = (insert_message-Keeps r j q message w).store in
      elim (Result-cases (insert_message r j q c.req.url (pos 0) c.req.depth w).0) [
        | inl (_, e) ↦ rw (e, crawl_at, same) i
        | inr (x, e) ↦ rw (e, crawl_at, same) i
      ]
  crawl_at-Safe (cleans p f) c k w i =
      rw (locks-after_clean (clean_at r p w.store).0 f) (clean-Safe r p k w.store i)
  crawl_at-Safe (answered a) c k w i = i

  crawl_move-Safe :
      (n : ℕ) (cs : List Crawl) (k : ℕ) (w : World r j q)
      → Safe r (all_locks cs + k) w.store
      → let (cs', w') = crawl_move r j q conf n cs w in Safe r (all_locks cs' + k) w'.store
  unfolding crawl_move
  crawl_move-Safe n [] k w i = i
  crawl_move-Safe zero (c ∷ cs) k w i =
      let (p, w') = crawl_at r j q conf c.place c w in
      Safe-le r (locks p + all_locks cs + k) (locks p + (all_locks cs + k)) w'.store (omega arith) (
        crawl_at-Safe c.place c (all_locks cs + k) w (
          Safe-le r (locks c.place + (all_locks cs + k)) (locks c.place + all_locks cs + k) w.store
            (omega arith) i))
  crawl_move-Safe (suc n) (c ∷ cs) k w i =
      let (cs', w') = crawl_move r j q conf n cs w in
      Safe-le r (locks c.place + all_locks cs' + k) (all_locks cs' + (locks c.place + k)) w'.store
        (omega arith)
        (crawl_move-Safe n cs (locks c.place + k) w (
          Safe-le r (all_locks cs + (locks c.place + k)) (locks c.place + all_locks cs + k) w.store
            (omega arith) i))

  crawl_moves-Safe :
      (ns : List ℕ) (cs : List Crawl) (w : World r j q)
      → Safe r (all_locks cs) w.store
      → let (cs', w') = crawl_moves r j q conf ns cs w in Safe r (all_locks cs') w'.store
  unfolding crawl_moves
  crawl_moves-Safe [] cs w i = i
  crawl_moves-Safe (n ∷ ns) cs w i =
      let (cs', w') = crawl_move r j q conf n cs w in
      crawl_moves-Safe ns cs' w' (
        Safe-le r (all_locks cs') (all_locks cs' + 0) w'.store (omega arith) (
          crawl_move-Safe n cs 0 w
            (Safe-le r (all_locks cs + 0) (all_locks cs) w.store (omega arith) i)))

  all_locks-arrives : (cs : List Crawl) → All (λ c. c.place ≡ arrives) cs → all_locks cs ≡ 0
  all_locks-arrives [] h = refl
  all_locks-arrives (c ∷ cs) h = rw (h.0, all_locks-arrives cs h.1)

  -- However many requests to POST /crawl come together, however their commands to Redis and the broker
  -- interleave, and whichever of them fail, cleanups included: at most one request is answered by 200,
  -- and if one is, the key of the lock is in Redis, as long as nothing but these requests changes it.
  pub crawl_moves-accepted :
      (ns : List ℕ) (cs : List Crawl) (w : World r j q)
      → All (λ c. c.place ≡ arrives) cs
      → let (cs', w') = crawl_moves r j q conf ns cs w in Safe r (all_accepted cs') w'.store
  crawl_moves-accepted ns cs w h =
      let (cs', w') = crawl_moves r j q conf ns cs w in
      Safe-le r (all_accepted cs') (all_locks cs') w'.store (all_accepted-le cs') (
        crawl_moves-Safe ns cs w (record {
          few = omega (arith, all_locks-arrives cs h);
          locked = λ e. ground (arith, all_locks-arrives cs h);
        }))
