-- ===== src/Scheduler/Handlers/Race/Alone.antt =====
-- scheduler/internal/handlers/crawl.go: a request that nobody interrupts, command by command.
use distributed_web_crawler.Base.{
  ℕ, zero, suc, true, false, Bool, Result, if◌then◌else◌, ap, ok, err, pos, str_eq, ◌≡◌, refl,
  Bool-cases, Result-cases, inl, inr,
}
use distributed_web_crawler.Common.Config.{Config, ttl_of}
use distributed_web_crawler.Services.Redis.{Redis, RedisError}
use distributed_web_crawler.Services.Json.{Json}
use distributed_web_crawler.Services.Rabbit.{Rabbit}
use distributed_web_crawler.Scheduler.World.{World}
use distributed_web_crawler.Scheduler.Bloom.{add_to_bloom}
use distributed_web_crawler.Scheduler.Broker.{insert_message}
use distributed_web_crawler.Scheduler.Jobs.{
  is_job_active, start_job, init_max_depth, init_last_activity, force_cleanup_job, active_job_key,
  max_depth_key, last_activity_key,
}
use distributed_web_crawler.Scheduler.Jobs.Race.{
  begins, has_lock, has_depth, undoes_lock, undoes_both, undoes_depth, returned, Pc, step_at,
}
use distributed_web_crawler.Scheduler.Jobs.Overlap.{at_lock, clean_at}
use distributed_web_crawler.Scheduler.Handlers.{
  Response, respond, publish_seed, queue_seed, start, check_and_start, handle_crawl,
}
use distributed_web_crawler.Scheduler.Handlers.Race.{
  Failure, Place, arrives, opens, filters, starts, cleans, answered, answer_of, offline, unopened,
  unqueued, Crawl, crawl_at, start_of, after_start,
}

module _ (r : Redis) (j : Json) (q : Rabbit j.Body) (conf : Config) (c : Crawl) where
  -- So many commands of the request, and of no other.
  alone : ℕ → Place → World r j q → Place × World r j q
  alone zero p w = (p, w)
  alone (suc n) p w = let (p', w') = crawl_at r j q conf p c w in alone n p' w'

  abbrev Ends : ℕ → Place → World r j q → Response × World r j q → Type 0
  Ends n p w (a, w') = alone n p w ≡ (answered a, w')

  answered-Ends : (n : ℕ) (a : Response) (w : World r j q) → Ends n (answered a) w (a, w)
  unfolding alone crawl_at
  answered-Ends zero a w = refl
  answered-Ends (suc n) a w = answered-Ends n a w

  cleans-Ends :
      (n : ℕ) (f : Failure) (w : World r j q)
      → Ends
          (suc (suc (suc n)))
          (cleans at_lock f)
          w
          (answer_of f, record w { store = force_cleanup_job r w.store })
  unfolding alone crawl_at clean_at force_cleanup_job
  cleans-Ends n f w =
      answered-Ends n (answer_of f) (record w { store = force_cleanup_job r w.store })

  filters-Ends :
      (n : ℕ) (w : World r j q)
      → Ends (suc (suc (suc (suc (suc n))))) filters w (publish_seed r j q true c.req w)
  unfolding alone crawl_at publish_seed
  filters-Ends n w =
      let w₁ : World r j q = record w { store = (add_to_bloom r c.req.url w.store).1 } in
      let w₂ = (insert_message r j q c.req.url (pos 0) c.req.depth w₁).1 in
      elim (Result-cases (insert_message r j q c.req.url (pos 0) c.req.depth w₁).0) [
        | inl (_, e) ↦ rw (e, crawl_at, publish_seed) (answered-Ends (suc (suc (suc n))) _ w₂)
        | inr (x, e) ↦ rw (e, crawl_at, publish_seed) (cleans-Ends n unqueued w₂)
      ]

  opens-Ends :
      (n : ℕ) (w : World r j q)
      → Ends (suc (suc (suc (suc (suc (suc n)))))) opens w (queue_seed r j q true true c.req w)
  unfolding alone crawl_at queue_seed
  opens-Ends n w = elim (Bool-cases (q.ready w.broker)) [
    | inl e ↦
        let w₁ : World r j q = record w { broker = (q.open_channel w.broker).1 } in
        elim (Result-cases (q.open_channel w.broker).0) [
          | inl (_, o) ↦ rw (e, crawl_at, queue_seed, o) (filters-Ends n w₁)
          | inr (x, o) ↦ rw (e, crawl_at, queue_seed, o) (cleans-Ends (suc (suc n)) unopened w₁)
        ]
    | inr e ↦ rw (e, crawl_at, queue_seed) (cleans-Ends (suc (suc n)) offline w)
  ]

  next-Ends :
      (n : ℕ) (p p' : Place) (w w' : World r j q) (a : Response × World r j q)
      → crawl_at r j q conf p c w ≡ (p', w')
      → Ends n p' w' a
      → Ends (suc n) p w a
  unfolding alone
  next-Ends n p p' w w' a e h = rw (e, alone) h

  -- The rest of the handler, once StartJob has returned.
  abbrev rest : Result RedisError Bool × r.Store → World r j q → Response × World r j q
  rest (started, s) w =
      let w₁ : World r j q = record w { store = s } in
      elim started [
        | ok b ↦
            if b
            then queue_seed r j q true true c.req w₁
            else (respond 429 "another crawl job is currently in progress", w₁)
        | err e ↦ (respond 500 "failed to start job", w₁)
      ]

  abbrev with_store : r.Store → World r j q → World r j q
  with_store s w = record w { store = s }

  -- An error of StartJob is answered, after any commands that undo it.
  undone-Ends :
      (n : ℕ) (e : RedisError) (s : r.Store) (w : World r j q)
      → Ends n (answered (respond 500 "failed to start job")) (with_store s w) (rest (err e, s) w)
  undone-Ends n e s w = answered-Ends n _ (with_store s w)

  starts-Next :
      (n : ℕ) (p p' : Pc) (w : World r j q) (s' : r.Store) (a : Response × World r j q)
      → step_at r p (start_of conf c) w.store ≡ (p', s')
      → Ends n (after_start p') (with_store s' w) a
      → Ends (suc n) (starts p) w a
  unfolding crawl_at
  starts-Next n p p' w s' a e h =
      let go : Pc × r.Store → Place × World r j q = λ x. (after_start x.0, with_store x.1 w) in
      next-Ends n (starts p) (after_start p') w (with_store s' w) a (ap go e) h

  has_depth-Ends :
      (n : ℕ) (w : World r j q)
      → Ends
          (suc (suc (suc (suc (suc (suc (suc n)))))))
          (starts has_depth)
          w
          (rest (init_last_activity r c.now (ttl_of conf) w.store) w)
  unfolding init_last_activity step_at
  has_depth-Ends n w =
      let s = (r.set last_activity_key (r.of_int c.now) (ttl_of conf) w.store).1 in
      let s₁ = (r.del active_job_key s).1 in
      let s₂ = (r.del max_depth_key s₁).1 in
      elim (Result-cases (r.set last_activity_key (r.of_int c.now) (ttl_of conf) w.store).0) [
        | inl (_, e) ↦
            rw (e, init_last_activity)
              (starts-Next _ has_depth (returned (ok true)) w s _ (rw (e, step_at))
                (opens-Ends n (with_store s w)))
        | inr (x, e) ↦
            rw (e, init_last_activity)
              (starts-Next _ has_depth (undoes_both x) w s _ (rw (e, step_at)) (
                starts-Next _ (undoes_both x) (undoes_depth x) (with_store s w) s₁ _ refl (
                  starts-Next _ (undoes_depth x) (returned (err x)) (with_store s₁ w) s₂ _ refl
                    (undone-Ends (suc (suc (suc (suc n)))) x s₂ w))))
      ]

  has_lock-Ends :
      (n : ℕ) (w : World r j q)
      → Ends
          (suc (suc (suc (suc (suc (suc (suc (suc n))))))))
          (starts has_lock)
          w
          (rest (init_max_depth r c.req.depth c.now (ttl_of conf) w.store) w)
  unfolding init_max_depth step_at
  has_lock-Ends n w =
      let s = (r.set max_depth_key (r.of_int c.req.depth) (ttl_of conf) w.store).1 in
      let s₁ = (r.del active_job_key s).1 in
      elim (Result-cases (r.set max_depth_key (r.of_int c.req.depth) (ttl_of conf) w.store).0) [
        | inl (_, e) ↦
            rw (e, init_max_depth)
              (starts-Next _ has_lock has_depth w s _ (rw (e, step_at))
                (has_depth-Ends n (with_store s w)))
        | inr (x, e) ↦
            rw (e, init_max_depth)
              (starts-Next _ has_lock (undoes_lock x) w s _ (rw (e, step_at)) (
                starts-Next _ (undoes_lock x) (returned (err x)) (with_store s w) s₁ _ refl
                  (undone-Ends (suc (suc (suc (suc (suc (suc n)))))) x s₁ w)))
      ]

  start_job-Ends :
      (n : ℕ) (w : World r j q)
      → Ends
          (suc (suc (suc (suc (suc (suc (suc (suc (suc n)))))))))
          (starts begins)
          w
          (rest (start_job r c.req.url c.req.depth c.now (ttl_of conf) w.store) w)
  unfolding start_job step_at
  start_job-Ends n w =
      let lock = r.set_nx active_job_key (r.of_text c.req.url) (ttl_of conf) w.store in
      elim (Result-cases lock.0) [
        | inl (true, e) ↦
            rw (e, start_job)
              (starts-Next _ begins has_lock w lock.1 _ (rw (e, step_at))
                (has_lock-Ends n (with_store lock.1 w)))
        | inl (false, e) ↦
            rw (e, start_job)
              (starts-Next _ begins (returned (ok false)) w lock.1 _ (rw (e, step_at)) (
                answered-Ends (suc (suc (suc (suc (suc (suc (suc (suc n)))))))) _
                  (with_store lock.1 w)))
        | inr (x, e) ↦
            rw (e, start_job)
              (starts-Next _ begins (returned (err x)) w lock.1 _ (rw (e, step_at))
                (undone-Ends (suc (suc (suc (suc (suc (suc (suc (suc n)))))))) x lock.1 w))
      ]

  starts-Ends :
      (n : ℕ) (w : World r j q)
      → Ends
          (suc (suc (suc (suc (suc (suc (suc (suc (suc n)))))))))
          (starts begins)
          w
          (start r j q true c.req conf c.now w)
  unfolding start
  starts-Ends n w = start_job-Ends n w

  -- A request with a URL's text that nobody interrupts answers, and leaves, what handle_crawl does; and ten
  -- commands are enough.
  alone-handle_crawl :
      (n : ℕ) (w : World r j q)
      → Ends
          (suc (suc (suc (suc (suc (suc (suc (suc (suc (suc n))))))))))
          arrives
          w
          (handle_crawl r j q true true conf c.now (ok c.req) w)
  unfolding handle_crawl check_and_start crawl_at
  alone-handle_crawl n w =
      let (active, s) = is_job_active r w.store in
      elim (Bool-cases (str_eq c.req.url "")) [
        | inl e ↦
            rw (e, handle_crawl)
              (next-Ends _ arrives (answered (respond 400 "url is required")) w w _
                (rw (e, crawl_at))
                (answered-Ends (suc (suc (suc (suc (suc (suc (suc (suc (suc n))))))))) _ w))
        | inr e ↦ elim (Result-cases active) [
          | inl (true, a) ↦
              let full = respond 429 "another crawl job is currently in progress" in
              rw (e, handle_crawl, a, check_and_start)
                (next-Ends _ arrives (answered full) w (with_store s w) _ (rw (e, crawl_at, a)) (
                  answered-Ends (suc (suc (suc (suc (suc (suc (suc (suc (suc n))))))))) _
                    (with_store s w)))
          | inl (false, a) ↦
              rw (e, handle_crawl, a, check_and_start)
                (next-Ends _ arrives (starts begins) w (with_store s w) _ (rw (e, crawl_at, a))
                  (starts-Ends n (with_store s w)))
          | inr (x, a) ↦
              let unknown = respond 500 "failed to check job state" in
              rw (e, handle_crawl, a, check_and_start)
                (next-Ends _ arrives (answered unknown) w (with_store s w) _ (rw (e, crawl_at, a)) (
                  answered-Ends (suc (suc (suc (suc (suc (suc (suc (suc (suc n))))))))) _
                    (with_store s w)))
        ]
      ]
