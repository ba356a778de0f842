-- ===== src/Scheduler/Handlers/Start.antt =====
-- scheduler/internal/handlers/crawl.go: POST /crawl while no job runs.
use distributed_web_crawler.Scheduler.Broker.{insert_message}
use distributed_web_crawler.Common.Config.{ttl_of, Config}
use distributed_web_crawler.Scheduler.Broker.Publish.{
  to_hashing, insert_message_outcome, insert_message-Keeps, Queued,
}
use distributed_web_crawler.Scheduler.Jobs.Cleanup.{force_cleanup_job-cleared}
use distributed_web_crawler.Scheduler.Results.Delivery.{
  bloom_ne_last, bloom_ne_depth, bloom_ne_active,
}
use distributed_web_crawler.Scheduler.Bloom.{value-add_to_bloom, add_to_bloom, bloom_filter_key}
use distributed_web_crawler.Scheduler.Jobs.{
  is_job_active, start_job, last_activity_key, max_depth_key, force_cleanup_job, active_job_key,
}
use distributed_web_crawler.Scheduler.Jobs.Locking.{
  start_job-err, start_job-false, is_job_active-free, start_job-true, value-is_job_active,
  SetNxWorks, IsStarted, DelWorks,
}
use distributed_web_crawler.Base.{
  suc, [], ◌∷◌, ◌++◌, eq_iff, pos, str_eq, sym, arith, inr, Result-cases, inl, Bool-cases, ◌∙◌,
  true, none, String, ◌≡◌, ◌⊎◌, ℤ, ◌≢◌, refl, subst, ok, false,
}
use distributed_web_crawler.Services.Redis.{Redis}
use distributed_web_crawler.Services.Json.{Json}
use distributed_web_crawler.Services.Rabbit.{Rabbit}
use distributed_web_crawler.Scheduler.World.{World}
use distributed_web_crawler.Scheduler.Handlers.{
  check_and_start, start, publish_seed, queue_seed, CrawlRequest, Response, handle_crawl,
}
use distributed_web_crawler.Scheduler.Handlers.Crawl.{seed_message}

module _ (r : Redis) (j : Json) (q : Rabbit j.Body) where
  abbrev Answer : Type 0
  Answer = Response × World r j q

  -- Answered by 200: the job has started, and one more message, the seed's, is queued.
  pub record Accepted (req : CrawlRequest) (now : ℤ) (w : World r j q) (a : Answer) : Type 0 where
    pub status : a.0.status ≡ 200
    pub started : IsStarted r req.url req.depth now a.1.store
    pub queued : Queued r j q (seed_message r j q req) w a.1

  -- Answered by an error: no lock is held, and nothing is queued.
  pub record GivesBack (w : World r j q) (a : Answer) : Type 0 where
    pub status : a.0.status ≢ 200
    pub free : r.value active_job_key a.1.store ≡ none
    pub published : a.1.published ≡ w.published

  abbrev Outcome : CrawlRequest → ℤ → World r j q → Answer → Type 0
  Outcome req now w a = Accepted req now w a ⊎ GivesBack w a

  IsStarted-same :
      (req : CrawlRequest) (now : ℤ) (s t : r.Store)
      → ((k : String) → bloom_filter_key ≢ k → r.value k t ≡ r.value k s)
      → IsStarted r req.url req.depth now s
      → IsStarted r req.url req.depth now t
  IsStarted-same req now s t same i = record {
    lock = same active_job_key bloom_ne_active ∙ i.lock;
    depth = same max_depth_key bloom_ne_depth ∙ i.depth;
    activity = same last_activity_key bloom_ne_last ∙ i.activity;
  }

  -- An outcome from a state with the same counters and messages.
  Outcome-same :
      (req : CrawlRequest) (now : ℤ) (w₁ w : World r j q)
      → w₁.published ≡ w.published
      → w₁.urls_queued ≡ w.urls_queued
      → w₁.scheduling_errors ≡ w.scheduling_errors
      → (a : Answer) → Outcome req now w₁ a
      → Outcome req now w a
  Outcome-same req now w₁ w p u e a (inl x) = inl (record {
    status = x.status;
    started = x.started;
    queued = record {
      body = x.queued.body;
      encodes = x.queued.encodes;
      published =
          subst (λ t. a.1.published ≡ t ++ to_hashing r j q req.url x.queued.body ∷ []) p
            x.queued.published;
      counted = subst (λ t. a.1.urls_queued ≡ suc t) u x.queued.counted;
      errors = x.queued.errors ∙ e;
    };
  })
  Outcome-same req now w₁ w p u e a (inr x) =
      inr (record { status = x.status; free = x.free; published = x.published ∙ p })

  module _ (dels : DelWorks r) where
    cleaned : (w : World r j q) → r.value active_job_key (force_cleanup_job r w.store) ≡ none
    cleaned w = (force_cleanup_job-cleared r dels w.store).0

    publish_seed-Outcome :
        (req : CrawlRequest) (now : ℤ) (w : World r j q)
        → IsStarted r req.url req.depth now w.store
        → Outcome req now w (publish_seed r j q true req w)
    unfolding publish_seed
    publish_seed-Outcome req now w i =
        let m = seed_message r j q req in
        let w₁ : World r j q = record w { store = (add_to_bloom r req.url w.store).1 } in
        let kept = (insert_message-Keeps r j q m w₁).store in
        elim (insert_message_outcome r j q m w₁) [
          | inl (sent, queued) ↦
              rw (sent, publish_seed)
                (inl (record {
                  status = refl;
                  started =
                      IsStarted-same req now w.store _
                        (λ k ne.
                          subst (λ t. r.value k t ≡ r.value k w₁.store) (sym kept) refl
                          ∙ value-add_to_bloom r k req.url w.store ne)
                        i;
                  queued = record {
                    body = queued.body;
                    encodes = queued.encodes;
                    published = queued.published;
                    counted = queued.counted;
                    errors = queued.errors;
                  };
                }))
          | inr (e, failed, unqueued) ↦
              rw (failed, publish_seed)
                (inr (record {
                  status = λ h. omega arith;
                  free = cleaned (insert_message r j q req.url (pos 0) req.depth w₁).1;
                  published = unqueued.published;
                }))
        ]

    queue_seed-Outcome :
        (req : CrawlRequest) (now : ℤ) (w : World r j q)
        → IsStarted r req.url req.depth now w.store
        → Outcome req now w (queue_seed r j q true true req w)
    unfolding queue_seed
    queue_seed-Outcome req now w i = elim (Bool-cases (q.ready w.broker)) [
      | inl online ↦
          let w₁ : World r j q = record w { broker = (q.open_channel w.broker).1 } in
          elim (Result-cases (q.open_channel w.broker).0) [
            | inl (_, e) ↦
                rw (online, e, queue_seed)
                  (Outcome-same req now w₁ w refl refl refl _ (publish_seed-Outcome req now w₁ i))
            | inr (x, e) ↦
                rw (online, e, queue_seed)
                  (inr (record { status = λ h. omega arith; free = cleaned w₁; published = refl }))
          ]
      | inr offline ↦
          rw (offline, queue_seed)
            (inr (record { status = λ h. omega arith; free = cleaned w; published = refl }))
    ]

    module _ (sets : SetNxWorks r) where
      start-Outcome :
          (req : CrawlRequest) (c : Config) (now : ℤ) (w : World r j q)
          → r.value active_job_key w.store ≡ none
          → Outcome req now w (start r j q true req c now w)
      unfolding start
      start-Outcome req c now w free =
          let began = start_job r req.url req.depth now (ttl_of c) w.store in
          let w₁ : World r j q = record w { store = began.1 } in
          elim (Result-cases began.0) [
            | inl (true, e) ↦
                rw (e, start)
                  (Outcome-same req now w₁ w refl refl refl _ (
                    queue_seed-Outcome req now w₁
                      (start_job-true r req.url req.depth now (ttl_of c) w.store e).1))
            | inl (false, e) ↦
                absurd ((start_job-false r req.url req.depth now (ttl_of c) w.store e).0 free)
            | inr (x, e) ↦
                rw (e, start)
                  (inr (record {
                    status = λ h. omega arith;
                    free = start_job-err r req.url req.depth now (ttl_of c) w.store x dels sets e;
                    published = refl;
                  }))
          ]

      check-Outcome :
          (req : CrawlRequest) (c : Config) (now : ℤ) (w : World r j q)
          → r.value active_job_key w.store ≡ none
          → Outcome req now w (check_and_start r j q true req c now w)
      unfolding check_and_start
      check-Outcome req c now w free =
          let s = (is_job_active r w.store).1 in
          let w₁ : World r j q = record w { store = s } in
          let still = value-is_job_active r active_job_key w.store ∙ free in
          elim (Result-cases (is_job_active r w.store).0) [
            | inl (true, e) ↦ absurd (is_job_active-free r w.store free e)
            | inl (false, e) ↦
                rw (e, check_and_start)
                  (Outcome-same req now w₁ w refl refl refl _ (start-Outcome req c now w₁ still))
            | inr (x, e) ↦
                rw (e, check_and_start)
                  (inr (record { status = λ h. omega arith; free = still; published = refl }))
          ]

      -- With connections made, a Redis whose SETNX and DEL answer, a broker that may fail at any call,
      -- and no job running: a request that names a URL is either answered by 200, and then the lock,
      -- the depth limit and the time of the start are in Redis and exactly the seed's message is
      -- queued, at depth 0 under the URL; or it is answered by another status, and then no lock is
      -- held and nothing is queued.
      pub handle_crawl_outcome :
          (req : CrawlRequest) (c : Config) (now : ℤ) (w : World r j q)
          → req.url ≢ ""
          → r.value active_job_key w.store ≡ none
          → let a = handle_crawl r j q true true c now (ok req) w in
            Accepted req now w a ⊎ GivesBack w a
      unfolding handle_crawl
      handle_crawl_outcome req c now w named free = elim (Bool-cases (str_eq req.url "")) [
        | inl empty ↦ absurd (named ((eq_iff req.url "").0 empty))
        | inr given ↦ rw (given, handle_crawl) (check-Outcome req c now w free)
      ]
