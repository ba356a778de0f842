-- ===== src/Scheduler/Jobs/Locking.antt =====
-- scheduler/internal/db/redis.go: the lock of the job and what `StartJob` writes with it.
use mathlib.Core.Bool.{false≢true}
use distributed_web_crawler.Base.{
  Bool, ◌∙◌, inr, subst, inl, Result-cases, err, str_eq, Bool-cases, IsInt64, false, none, ℕ, ◌≡◌,
  ◌≢◌, sym, String, true, some, ok, ℤ, arith, eq_iff,
}
use distributed_web_crawler.Services.Redis.{Redis}
use distributed_web_crawler.Scheduler.Jobs.{
  RedisError, get_max_depth, is_job_active, init_max_depth, start_job, active_job_key,
  max_depth_key, last_activity_key, init_last_activity,
}

-- The keys are three different ones.
pub active_ne_depth : active_job_key ≢ max_depth_key
active_ne_depth p = false≢true ((eq_iff active_job_key max_depth_key).1 p)

pub active_ne_last : active_job_key ≢ last_activity_key
active_ne_last p = false≢true ((eq_iff active_job_key last_activity_key).1 p)

pub depth_ne_last : max_depth_key ≢ last_activity_key
depth_ne_last p = false≢true ((eq_iff max_depth_key last_activity_key).1 p)

module _ (r : Redis) where
  open r use {Store, Value, of_text, of_int, parse_int, exists, get, set, set_nx, del, value}

  -- The lock and the two values that a started job has.
  pub record IsStarted (url : String) (max_depth now : ℤ) (s : Store) : Type 0 where
    pub lock : value active_job_key s ≡ some (of_text url)
    pub depth : value max_depth_key s ≡ some (of_int max_depth)
    pub activity : value last_activity_key s ≡ some (of_int now)

  init_last_activity-true :
      (now ttl : ℤ) (s : Store)
      → (init_last_activity r now ttl s).0 ≡ ok true
      → (value last_activity_key (init_last_activity r now ttl s).1 ≡ some (of_int now))
        × (value active_job_key (init_last_activity r now ttl s).1 ≡ value active_job_key s)
        × (value max_depth_key (init_last_activity r now ttl s).1 ≡ value max_depth_key s)
  unfolding init_last_activity
  init_last_activity-true now ttl s h = ground (
    arith,
    r.set_ok last_activity_key (of_int now) ttl s,
    r.set_other last_activity_key active_job_key (of_int now) ttl s (λ e. active_ne_last (sym e)),
    r.set_other last_activity_key max_depth_key (of_int now) ttl s (λ e. depth_ne_last (sym e)),
  )

  init_max_depth-true :
      (max_depth now ttl : ℤ) (s : Store)
      → (init_max_depth r max_depth now ttl s).0 ≡ ok true
      → (value last_activity_key (init_max_depth r max_depth now ttl s).1 ≡ some (of_int now))
        × (value active_job_key (init_max_depth r max_depth now ttl s).1 ≡ value active_job_key s)
        × (value max_depth_key (init_max_depth r max_depth now ttl s).1 ≡ some (of_int max_depth))
  unfolding init_max_depth
  init_max_depth-true max_depth now ttl s h = ground (
    arith,
    init_last_activity-true now ttl (set max_depth_key (of_int max_depth) ttl s).1,
    r.set_ok max_depth_key (of_int max_depth) ttl s,
    r.set_other max_depth_key active_job_key (of_int max_depth) ttl s
        (λ e. active_ne_depth (sym e)),
  )

  -- Once the lock is taken, a start succeeds or fails; it is not refused.
  init_max_depth-ne-false :
      (max_depth now ttl : ℤ) (s : Store) → (init_max_depth r max_depth now ttl s).0 ≢ ok false
  unfolding init_max_depth
  init_max_depth-ne-false max_depth now ttl s h = ground arith

  module _ (url_str : String) (max_depth now ttl : ℤ) (s : Store) where
    -- A start that succeeds found no lock, and leaves the lock with the seed's URL, the depth limit and
    -- the time of the start in place.
    pub start_job-true :
        (start_job r url_str max_depth now ttl s).0 ≡ ok true
        → (value active_job_key s ≡ none)
          × IsStarted url_str max_depth now (start_job r url_str max_depth now ttl s).1
    unfolding start_job
    start_job-true h = ground (
      arith,
      init_max_depth-true max_depth now ttl (set_nx active_job_key (of_text url_str) ttl s).1,
      r.set_nx_took active_job_key (of_text url_str) ttl s,
    )

    refused :
        (start_job r url_str max_depth now ttl s).0 ≡ ok false
        → ((set_nx active_job_key (of_text url_str) ttl s).0 ≡ ok false)
          × ((start_job r url_str max_depth now ttl s).1
              ≡ (set_nx active_job_key (of_text url_str) ttl s).1)
    unfolding start_job
    refused h = ground (
      arith,
      init_max_depth-ne-false max_depth now ttl (set_nx active_job_key (of_text url_str) ttl s).1,
    )

    -- A start that is refused found the lock, and changes none of the job's keys.
    pub start_job-false :
        (start_job r url_str max_depth now ttl s).0 ≡ ok false
        → (value active_job_key s ≢ none)
          × ((k : String) → value k (start_job r url_str max_depth now ttl s).1 ≡ value k s)
    start_job-false h = (
      r.set_nx_held active_job_key (of_text url_str) ttl s (refused h).0,
      λ k. rw (refused h).1 (elim (Bool-cases (str_eq active_job_key k)) [
        | inl same ↦
            subst (λ j. value j (set_nx active_job_key (of_text url_str) ttl s).1 ≡ value j s)
              ((eq_iff active_job_key k).0 same)
              (r.set_nx_keeps active_job_key (of_text url_str) ttl s
                (r.set_nx_held active_job_key (of_text url_str) ttl s (refused h).0))
        | inr other ↦
            r.set_nx_other active_job_key k (of_text url_str) ttl s
              (λ e. false≢true (sym other ∙ (eq_iff active_job_key k).1 e))
      ]),
    )

  -- `DEL` is answered.
  abbrev pub DelWorks : Type 0
  DelWorks = (k : String) (s : Store) → (n : ℕ) × ((del k s).0 ≡ ok n)

  module _ (works : DelWorks) where
    init_last_activity-err :
        (now ttl : ℤ) (s : Store) (e : RedisError)
        → (init_last_activity r now ttl s).0 ≡ err e
        → value active_job_key (init_last_activity r now ttl s).1 ≡ none
    unfolding init_last_activity
    init_last_activity-err now ttl s e h =
        let s' = (set last_activity_key (of_int now) ttl s).1 in
        ground (
          arith,
          r.del_ok active_job_key s' (works active_job_key s').0 (works active_job_key s').1,
          r.del_other max_depth_key active_job_key (del active_job_key s').1
              (λ p. active_ne_depth (sym p)),
        )

    -- A start that took the lock and then fails to write the depth or the time gives the lock back.
    pub init_max_depth-err :
        (max_depth now ttl : ℤ) (s : Store) (e : RedisError)
        → (init_max_depth r max_depth now ttl s).0 ≡ err e
        → value active_job_key (init_max_depth r max_depth now ttl s).1 ≡ none
    unfolding init_max_depth
    init_max_depth-err max_depth now ttl s e h =
        let s' = (set max_depth_key (of_int max_depth) ttl s).1 in
        ground (
          arith,
          r.del_ok active_job_key s' (works active_job_key s').0 (works active_job_key s').1,
          init_last_activity-err now ttl s' e,
        )

  pub is_job_active-held :
      (s : Store) {v : Value} → value active_job_key s ≡ some v → (is_job_active r s).0 ≢ ok false
  unfolding is_job_active
  is_job_active-held s {v} held h = elim (Result-cases (exists active_job_key s).0) [
    | inl (n, e) ↦ ground (arith, r.exists_ok active_job_key s n)
    | inr (e, p) ↦ ground arith
  ]

  pub is_job_active-free :
      (s : Store) → value active_job_key s ≡ none → (is_job_active r s).0 ≢ ok true
  unfolding is_job_active
  is_job_active-free s free h = elim (Result-cases (exists active_job_key s).0) [
    | inl (n, e) ↦ ground (arith, r.exists_ok active_job_key s n)
    | inr (e, p) ↦ ground arith
  ]

  pub get_max_depth_stored :
      (max_depth : ℤ) (s : Store)
      → IsInt64 max_depth
      → value max_depth_key s ≡ some (of_int max_depth)
      → (d : ℤ) → (get_max_depth r s).0 ≡ ok d
      → d ≡ max_depth
  unfolding get_max_depth
  get_max_depth_stored max_depth s fits stored d h = elim (Result-cases (get max_depth_key s).0) [
    | inl (v, e) ↦ ground (arith, r.get_ok max_depth_key s v, r.parse_int-of_int max_depth fits)
    | inr (e, p) ↦ ground arith
  ]

  -- Reading the lock changes nothing.
  pub value-is_job_active : (k : String) (s : Store) → value k (is_job_active r s).1 ≡ value k s
  unfolding is_job_active
  value-is_job_active k s = r.exists_keeps active_job_key k s

  -- `SETNX` is answered.
  abbrev pub SetNxWorks : Type 0
  SetNxWorks =
      (k : String) (v : Value) (ttl : ℤ) (s : Store) → (b : Bool) × ((set_nx k v ttl s).0 ≡ ok b)

  -- A start that fails leaves no lock that was not there before it.
  pub start_job-err :
      (url_str : String) (max_depth now ttl : ℤ) (s : Store) (e : RedisError)
      → DelWorks
      → SetNxWorks
      → (start_job r url_str max_depth now ttl s).0 ≡ err e
      → value active_job_key (start_job r url_str max_depth now ttl s).1 ≡ none
  unfolding start_job
  start_job-err url_str max_depth now ttl s e dels sets h =
      let (b, p) = sets active_job_key (of_text url_str) ttl s in
      elim (Result-cases (set_nx active_job_key (of_text url_str) ttl s).0) [
        | inl (true, t) ↦
            rw (t, start_job)
              (init_max_depth-err dels max_depth now ttl
                (set_nx active_job_key (of_text url_str) ttl s).1 e (rw (t, start_job) at h))
        | inl (false, t) ↦ ground arith
        | inr (x, t) ↦ ground arith
      ]

  -- While the lock is held no start succeeds.
  pub start_job_held :
      (url_str : String) (max_depth now ttl : ℤ) (s : Store)
      → value active_job_key s ≢ none
      → (start_job r url_str max_depth now ttl s).0 ≢ ok true
  start_job_held url_str max_depth now ttl s held h =
      held (start_job-true url_str max_depth now ttl s h).0

  -- After a start that succeeded, with a depth limit within 64 bits: the job is seen as active if
  -- Redis answers, its depth limit reads back as it was given, and a second start, with any arguments,
  -- does not succeed.
  pub start_job-IsActive :
      (url_str : String) (max_depth now ttl : ℤ) (s : Store)
      → IsInt64 max_depth
      → (start_job r url_str max_depth now ttl s).0 ≡ ok true
      → let s' = (start_job r url_str max_depth now ttl s).1 in
        ((is_job_active r s').0 ≢ ok false)
        × ((d : ℤ) → (get_max_depth r s').0 ≡ ok d → d ≡ max_depth)
        × ((url' : String) (d' now' ttl' : ℤ) → (start_job r url' d' now' ttl' s').0 ≢ ok true)
  start_job-IsActive url_str max_depth now ttl s fits h =
      let s' = (start_job r url_str max_depth now ttl s).1 in
      let started = (start_job-true url_str max_depth now ttl s h).1 in
      (
        is_job_active-held s' started.lock,
        λ d. get_max_depth_stored max_depth s' fits started.depth d,
        λ url' d' now' ttl'. start_job_held url' d' now' ttl' s' (λ e. cc started.lock),
      )
