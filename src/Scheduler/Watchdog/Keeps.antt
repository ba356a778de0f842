-- ===== src/Scheduler/Watchdog/Keeps.antt =====
-- scheduler/internal/broker/broker.go: when `checkJobStatus` leaves the job alone.
use distributed_web_crawler.Scheduler.Jobs.{last_activity_key, active_job_key, is_job_active}
use distributed_web_crawler.Common.Constants.{result_queue, queues}
use distributed_web_crawler.Scheduler.Watchdog.{
  start_watchdog, expired, says_active, check_channel, check_job_status, check_activity,
  check_queues, queues_empty,
}
use distributed_web_crawler.Base.{
  wrap64-of-IsInt64, ◌≤ℤ◌, some, ◌-ℤ◌, IsInt64, sub64, ◌≢◌, ◌⊎◌, ◌++◌, ℤ, ◌∙◌, sym, All-map, ltb,
  Bool-cases, Result-cases, All, List, String, refl, ok, err, true, false, inl, inr, ◌≡◌, [], ◌∷◌,
  arith,
}
use distributed_web_crawler.Services.Redis.{missing, failed, failed, Redis}
use distributed_web_crawler.Services.Json.{Json}
use distributed_web_crawler.Services.Rabbit.{Rabbit}
use distributed_web_crawler.Scheduler.World.{World}

module _ (r : Redis) (j : Json) (q : Rabbit j.Body) where
  open q use {State, ready, open_channel, inspect, waiting}

  pub queues_empty-keeps :
      (names : List String) (k : String) (s : State)
      → waiting k (queues_empty r j q names s).1 ≡ waiting k s
  unfolding queues_empty
  queues_empty-keeps [] k s = refl
  queues_empty-keeps (name ∷ names) k s =
      ground (arith, q.inspect_keeps name k s, queues_empty-keeps names k (inspect name s).1)

  queues_empty-true :
      (names : List String) (s : State)
      → (queues_empty r j q names s).0 ≡ true
      → All (λ k. waiting k s ≡ 0) names
  unfolding queues_empty
  queues_empty-true [] s h = tt
  queues_empty-true (name ∷ names) s h = elim (Result-cases (inspect name s).0) [
    | inl (n, e) ↦ elim (Bool-cases (ltb 0 n)) [
      | inl some_left ↦ cc (rw (e, queues_empty, some_left) at h)
      | inr no_left ↦ (
        ground (arith, q.inspect_ok name s n),
        All-map (λ k. waiting k (inspect name s).1 ≡ 0) (λ k. waiting k s ≡ 0)
            (λ k z. sym (q.inspect_keeps name k s) ∙ z) names
            (queues_empty-true names (inspect name s).1 (rw (e, queues_empty, no_left) at h)),
      )
    ]
    | inr (x, e) ↦ cc (rw (e, queues_empty) at h)
  ]

  -- The four queues that the check looks at.
  abbrev pub all_queues : List String
  all_queues = queues ++ result_queue ∷ []

  abbrev pub AllEmpty : World r j q → Type 0
  AllEmpty w = All (λ k. waiting k w.broker ≡ 0) all_queues

  -- The job's keys and all others are as they were.
  abbrev pub SameValues : World r j q → World r j q → Type 0
  SameValues w w' = (k : String) → r.value k w'.store ≡ r.value k w.store

  module _ (idle_timeout now : ℤ) (w : World r j q) where
    -- A check gives up early, or reaches the last activity with all queues seen empty. The store is the
    -- one after the read of the lock, and the broker some later state.
    abbrev pub Cases : World r j q → Type 0
    Cases w' =
        ((b : State) × (w' ≡ record w { store = (is_job_active r w.store).1; broker = b }))
        ⊎ ((b : State) × AllEmpty w
            × (w'
                ≡ check_activity r j q idle_timeout now
                    (record w { store = (is_job_active r w.store).1; broker = b })))

    check_queues-Cases :
        (b : State)
        → ((k : String) → waiting k b ≡ waiting k w.broker)
        → Cases (
            check_queues r j q idle_timeout now
              (record w { store = (is_job_active r w.store).1; broker = b }))
    unfolding check_queues
    check_queues-Cases b same =
        let b₁ = (queues_empty r j q queues b).1 in
        let work_empty = queues_empty-true queues b in
        let result_empty = queues_empty-true (result_queue ∷ []) b₁ in
        let b₂ = (queues_empty r j q (result_queue ∷ []) b₁).1 in
        elim (Bool-cases (queues_empty r j q queues b).0) [
          | inr some_left ↦ rw (some_left, check_queues) (inl (b₁, refl))
          | inl work ↦ elim (Bool-cases (queues_empty r j q (result_queue ∷ []) b₁).0) [
            | inr result_left ↦ rw (work, result_left, check_queues) (inl (b₂, refl))
            | inl none_left ↦
                rw (work, none_left, check_queues)
                  (inr (
                    b₂,
                    (
                      sym (same "queue_1") ∙ (work_empty work).0,
                      (
                        sym (same "queue_2") ∙ (work_empty work).1.0,
                        (
                          sym (same "queue_3") ∙ (work_empty work).1.1.0,
                          (
                            sym (same result_queue)
                                ∙ sym (queues_empty-keeps queues result_queue b)
                                ∙ (result_empty none_left).0,
                            tt,
                          ),
                        ),
                      ),
                    ),
                    refl,
                  ))
          ]
        ]

    check_channel-Cases :
        Cases
          (check_channel r j q idle_timeout now (record w { store = (is_job_active r w.store).1 }))
    unfolding check_channel
    check_channel-Cases = elim (Result-cases (open_channel w.broker).0) [
      | inl (_, e) ↦
          rw (e, check_channel)
            (check_queues-Cases (open_channel w.broker).1 (λ k. q.open_channel_keeps k w.broker))
      | inr (x, e) ↦ rw (e, check_channel) (inl ((open_channel w.broker).1, refl))
    ]

    pub check_job_status-Cases : Cases (check_job_status r j q idle_timeout now w)
    unfolding check_job_status
    check_job_status-Cases = elim (Bool-cases (says_active r j q (is_job_active r w.store).0)) [
      | inr idle ↦ rw (idle, check_job_status) (inl (w.broker, refl))
      | inl active ↦ elim (Bool-cases (ready w.broker)) [
        | inr offline ↦ rw (active, offline, check_job_status) (inl (w.broker, refl))
        | inl online ↦ rw (active, online, check_job_status) check_channel-Cases
      ]
    ]

    pub is_job_active-keeps :
        (k : String) → r.value k (is_job_active r w.store).1 ≡ r.value k w.store
    unfolding is_job_active
    is_job_active-keeps k = r.exists_keeps active_job_key k w.store

    -- While a message waits in a work queue or the result queue the watchdog changes no key of Redis.
    pub check_job_status_busy :
        ¬ AllEmpty w → SameValues w (check_job_status r j q idle_timeout now w)
    check_job_status_busy busy k = elim check_job_status-Cases [
      | inl (b, e) ↦ rw e (is_job_active-keeps k)
      | inr (b, empty, e) ↦ absurd (busy empty)
    ]

  -- `GET` is answered.
  abbrev pub GetWorks : Type 0
  GetWorks = (k : String) (s : r.Store) → (r.get k s).0 ≢ err failed

  pub parsed :
      (last : ℤ) (s : r.Store) (v : r.Value)
      → IsInt64 last
      → r.value last_activity_key s ≡ some (r.of_int last)
      → (r.get last_activity_key s).0 ≡ ok v
      → r.parse_int v ≡ some last
  parsed last s v fits stored e =
      let same : v ≡ r.of_int last = cc (r.get_ok last_activity_key s v e, stored) in
      rw same (r.parse_int-of_int last fits)

  not_expired :
      (idle_timeout now last : ℤ) (s : r.Store)
      → GetWorks
      → IsInt64 last
      → IsInt64 (now -ℤ last)
      → r.value last_activity_key s ≡ some (r.of_int last)
      → now -ℤ last ≤ℤ idle_timeout
      → expired r j q (r.get last_activity_key s).0 now idle_timeout ≡ false
  unfolding sub64
  not_expired idle_timeout now last s works fits diff stored recent =
      elim (Result-cases (r.get last_activity_key s).0) [
        | inl (v, e) ↦
            rw (e, expired, parsed last s v fits stored e, wrap64-of-IsInt64 (now -ℤ last) diff)
              (ground arith)
        | inr (missing, e) ↦ absurd (cc (r.get_missing last_activity_key s e, stored))
        | inr (failed, e) ↦ absurd (works last_activity_key s e)
      ]

  check_activity-recent :
      (idle_timeout now last : ℤ) (w : World r j q)
      → GetWorks
      → IsInt64 last
      → IsInt64 (now -ℤ last)
      → r.value last_activity_key w.store ≡ some (r.of_int last)
      → now -ℤ last ≤ℤ idle_timeout
      → SameValues w (check_activity r j q idle_timeout now w)
  unfolding check_activity
  check_activity-recent idle_timeout now last w works fits diff stored recent k =
      rw (not_expired idle_timeout now last w.store works fits diff stored recent, check_activity)
        (r.get_keeps last_activity_key k w.store)

  -- Within the timeout of the last activity, the end of it included, the watchdog changes no key of
  -- Redis, as long as GET is answered, and the time of the last activity and its distance from now are
  -- within 64 bits.
  pub check_job_status_recent :
      (idle_timeout now last : ℤ) (w : World r j q)
      → GetWorks
      → IsInt64 last
      → IsInt64 (now -ℤ last)
      → r.value last_activity_key w.store ≡ some (r.of_int last)
      → now -ℤ last ≤ℤ idle_timeout
      → SameValues w (check_job_status r j q idle_timeout now w)
  check_job_status_recent idle_timeout now last w works fits diff stored recent k =
      elim (check_job_status-Cases idle_timeout now w) [
        | inl (b, e) ↦ rw e (is_job_active-keeps idle_timeout now w k)
        | inr (b, empty, e) ↦ rw e (
            check_activity-recent idle_timeout now last
              (record w { store = (is_job_active r w.store).1; broker = b }) works fits diff
              (is_job_active-keeps idle_timeout now w last_activity_key ∙ stored) recent k
            ∙ is_job_active-keeps idle_timeout now w k)
      ]

  -- A tick within the timeout.
  abbrev pub IsEarly : ℤ → ℤ → ℤ → Type 0
  IsEarly idle_timeout last now = IsInt64 (now -ℤ last) × (now -ℤ last ≤ℤ idle_timeout)

  -- As long as every tick is within the timeout of the last activity, the end of it included, the
  -- watchdog changes no key of Redis, if GET is answered, and the time of the last activity and its
  -- distance from each tick are within 64 bits.
  pub start_watchdog_recent :
      (idle_timeout last : ℤ) (ticks : List ℤ) (w : World r j q)
      → GetWorks
      → IsInt64 last
      → All (IsEarly idle_timeout last) ticks
      → r.value last_activity_key w.store ≡ some (r.of_int last)
      → SameValues w (start_watchdog r j q idle_timeout ticks w)
  unfolding start_watchdog
  start_watchdog_recent idle_timeout last [] w works fits early stored k = refl
  start_watchdog_recent idle_timeout last (now ∷ ticks) w works fits early stored k =
      let w' = check_job_status r j q idle_timeout now w in
      let same =
        check_job_status_recent idle_timeout now last w works fits early.0.0 stored early.0.1 in
      start_watchdog_recent idle_timeout last ticks w' works fits early.1
        (same last_activity_key ∙ stored) k
      ∙ same k
