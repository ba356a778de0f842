-- ===== src/Scheduler/Jobs/Slot/Refines.antt =====
-- scheduler/internal/db/redis.go keeps the promise of a place for one job.
use distributed_web_crawler.Base.{
  Option-cases, All, ap, arith, Result-cases, IsInt64, String, ℕ, Bool, true, false, Option, none,
  some, List, [], ◌∷◌, ok, err, ℤ, ◌≡◌, ◌≢◌, ◌∙◌, sym, refl, inl, inr,
}
use distributed_web_crawler.Services.Redis.{Redis, RedisError, missing, failed}
use distributed_web_crawler.Scheduler.Jobs.{
  last_activity_key, active_job_key, max_depth_key, start_job, init_max_depth, init_last_activity,
  is_job_active, get_max_depth,
}
use distributed_web_crawler.Scheduler.Jobs.Locking.{
  DelWorks, SetNxWorks, start_job-true, start_job-false, start_job_held, is_job_active-held,
  is_job_active-free, active_ne_depth, value-is_job_active,
}
use distributed_web_crawler.Scheduler.Jobs.Cleanup.{force_cleanup_job-cleared}
use distributed_web_crawler.Scheduler.Jobs.Slot.{
  Operation, starts, asks_active, asks_depth, cleans, lock_expires, limit_expires, Place, depth,
  spec_ask, spec_replies, as_started, as_active, as_depth, ask, replies,
}

module _ (r : Redis) where
  open r use {Store, Value, value}

  -- Every command is answered.
  pub record Answers : Type 0 where
    pub exists : (k : String) (s : Store) → (n : ℕ) × ((r.exists k s).0 ≡ ok n)
    pub get : (k : String) (s : Store) → (r.get k s).0 ≢ err failed
    pub set : (k : String) (v : Value) (ttl : ℤ) (s : Store) → (r.set k v ttl s).0 ≡ ok tt
    pub set_nx : SetNxWorks r
    pub del : DelWorks r

  -- The keys of the job stand for its place.
  abbrev pub Locked : Bool → Store → Type 0
  Locked false s = value active_job_key s ≡ none
  Locked true s = value active_job_key s ≢ none

  abbrev pub Limited : Option ℤ → Store → Type 0
  Limited none s = value max_depth_key s ≡ none
  Limited (some limit) s = IsInt64 limit × (value max_depth_key s ≡ some (r.of_int limit))

  pub record Stands (p : Place) (s : Store) : Type 0 where
    pub lock : Locked p.taken s
    pub limit : Limited p.limit s

  Locked-same :
      (b : Bool) (s t : Store)
      → value active_job_key t ≡ value active_job_key s
      → Locked b s
      → Locked b t
  Locked-same false s t same h = same ∙ h
  Locked-same true s t same h = λ n. h (sym same ∙ n)

  Limited-same :
      (l : Option ℤ) (s t : Store)
      → value max_depth_key t ≡ value max_depth_key s
      → Limited l s
      → Limited l t
  Limited-same none s t same h = same ∙ h
  Limited-same (some limit) s t same h = (h.0, same ∙ h.1)

  Stands-same :
      (p : Place) (s t : Store) → ((k : String) → value k t ≡ value k s) → Stands p s → Stands p t
  Stands-same p s t same h = record {
    lock = Locked-same p.taken s t (same active_job_key) h.lock;
    limit = Limited-same p.limit s t (same max_depth_key) h.limit;
  }

  abbrev pub Fits : Operation → Type 0
  Fits (starts url d now ttl) = IsInt64 d
  Fits asks_active = Unit
  Fits asks_depth = Unit
  Fits cleans = Unit
  Fits lock_expires = Unit
  Fits limit_expires = Unit

  module _ (works : Answers) where
    start_job-ne-err :
        (url : String) (d now ttl : ℤ) (s : Store) (e : RedisError)
        → (start_job r url d now ttl s).0 ≢ err e
    unfolding start_job init_max_depth init_last_activity
    start_job-ne-err url d now ttl s e h =
        let s₁ = (r.set_nx active_job_key (r.of_text url) ttl s).1 in
        let s₂ = (r.set max_depth_key (r.of_int d) ttl s₁).1 in
        ground (
          arith,
          (works.set_nx active_job_key (r.of_text url) ttl s).1,
          works.set max_depth_key (r.of_int d) ttl s₁,
          works.set last_activity_key (r.of_int now) ttl s₂,
        )

    -- One operation: the reply is the promised one, and the keys stand for the promised place.
    abbrev Keeps : Operation → Place → Store → Type 0
    Keeps o p s = ((ask r o s).0 ≡ (spec_ask o p).0) × Stands (spec_ask o p).1 (ask r o s).1

    starts-Keeps :
        (url : String) (d now ttl : ℤ) (taken : Bool) (limit : Option ℤ) (s : Store)
        → IsInt64 d
        → Locked taken s
        → Limited limit s
        → Keeps (starts url d now ttl) (record { taken = taken; limit = limit }) s
    starts-Keeps url d now ttl false limit s fits free old =
        elim (Result-cases (start_job r url d now ttl s).0) [
          | inl (true, e) ↦
              let (_, is) = start_job-true r url d now ttl s e in
              (ap as_started e, record { lock = λ n. cc (is.lock, n); limit = (fits, is.depth) })
          | inl (false, e) ↦ absurd ((start_job-false r url d now ttl s e).0 free)
          | inr (x, e) ↦ absurd (start_job-ne-err url d now ttl s x e)
        ]
    starts-Keeps url d now ttl true limit s fits held old =
        elim (Result-cases (start_job r url d now ttl s).0) [
          | inl (true, e) ↦ absurd (start_job_held r url d now ttl s held e)
          | inl (false, e) ↦
              let same = (start_job-false r url d now ttl s e).1 in
              (
                ap as_started e,
                record {
                  lock = Locked-same true s _ (same active_job_key) held;
                  limit = Limited-same limit s _ (same max_depth_key) old;
                },
              )
          | inr (x, e) ↦ absurd (start_job-ne-err url d now ttl s x e)
        ]

    is_job_active-ne-err : (s : Store) (e : RedisError) → (is_job_active r s).0 ≢ err e
    unfolding is_job_active
    is_job_active-ne-err s e h = ground (arith, (works.exists active_job_key s).1)

    reads_lock : (taken : Bool) (s : Store) → Locked taken s → (is_job_active r s).0 ≡ ok taken
    reads_lock false s h = elim (Result-cases (is_job_active r s).0) [
      | inl (true, e) ↦ absurd (is_job_active-free r s h e)
      | inl (false, e) ↦ e
      | inr (x, e) ↦ absurd (is_job_active-ne-err s x e)
    ]
    reads_lock true s h = elim (Result-cases (is_job_active r s).0) [
      | inl (true, e) ↦ e
      | inl (false, e) ↦ elim (Option-cases (value active_job_key s)) [
        | inl gone ↦ absurd (h gone)
        | inr (v, held) ↦ absurd (is_job_active-held r s held e)
      ]
      | inr (x, e) ↦ absurd (is_job_active-ne-err s x e)
    ]

    get_max_depth-absent :
        (s : Store) → value max_depth_key s ≡ none → (get_max_depth r s).0 ≡ err missing
    unfolding get_max_depth
    get_max_depth-absent s gone = elim (Result-cases (r.get max_depth_key s).0) [
      | inl (v, e) ↦ absurd (cc (r.get_ok max_depth_key s v e, gone))
      | inr (missing, e) ↦ rw (e, get_max_depth) refl
      | inr (failed, e) ↦ absurd (works.get max_depth_key s e)
    ]

    get_max_depth-present :
        (limit : ℤ) (s : Store)
        → IsInt64 limit
        → value max_depth_key s ≡ some (r.of_int limit)
        → (get_max_depth r s).0 ≡ ok limit
    unfolding get_max_depth
    get_max_depth-present limit s fits stored = elim (Result-cases (r.get max_depth_key s).0) [
      | inl (v, e) ↦
          let same : v ≡ r.of_int limit = cc (r.get_ok max_depth_key s v e, stored) in
          rw (e, get_max_depth, same, r.parse_int-of_int limit fits) refl
      | inr (missing, e) ↦ absurd (cc (r.get_missing max_depth_key s e, stored))
      | inr (failed, e) ↦ absurd (works.get max_depth_key s e)
    ]

    value-get_max_depth : (k : String) (s : Store) → value k (get_max_depth r s).1 ≡ value k s
    unfolding get_max_depth
    value-get_max_depth k s = r.get_keeps max_depth_key k s

    reads_limit :
        (limit : Option ℤ) (s : Store)
        → Limited limit s
        → as_depth (get_max_depth r s).0 ≡ depth limit
    reads_limit none s h = ap as_depth (get_max_depth-absent s h)
    reads_limit (some limit) s h = ap as_depth (get_max_depth-present limit s h.0 h.1)

    ask-Keeps : (o : Operation) (p : Place) (s : Store) → Fits o → Stands p s → Keeps o p s
    ask-Keeps (starts url d now ttl) p s fits h =
        starts-Keeps url d now ttl p.taken p.limit s fits h.lock h.limit
    ask-Keeps asks_active p s fits h = (
      ap as_active (reads_lock p.taken s h.lock),
      Stands-same p s _ (λ k. value-is_job_active r k s) h,
    )
    ask-Keeps asks_depth p s fits h =
        (reads_limit p.limit s h.limit, Stands-same p s _ (λ k. value-get_max_depth k s) h)
    ask-Keeps cleans p s fits h =
        let (lock, limit, _) = force_cleanup_job-cleared r works.del s in
        (refl, record { lock = lock; limit = limit })
    ask-Keeps lock_expires p s fits h = (
      refl,
      record {
        lock = r.expire_gone active_job_key s;
        limit =
            Limited-same p.limit s _ (r.expire_other active_job_key max_depth_key s active_ne_depth)
              h.limit;
      },
    )
    ask-Keeps limit_expires p s fits h = (
      refl,
      record {
        lock =
            Locked-same p.taken s _
              (r.expire_other max_depth_key active_job_key s (λ e. active_ne_depth (sym e))) h.lock;
        limit = r.expire_gone max_depth_key s;
      },
    )

    -- While Redis answers every command: StartJob, IsJobActive, GetMaxDepth and ForceCleanupJob,
    -- called in any order with depth limits within 64 bits, while the lock and the depth limit come to
    -- the end of their time to live at any moments between the calls, give the replies of a place for
    -- one job that remembers a depth limit: a start is granted exactly when the place is free, which
    -- it becomes by a cleanup or by the end of the lock's time.
    pub replies-spec_replies :
        (os : List Operation) (p : Place) (s : Store)
        → All Fits os
        → Stands p s
        → replies r os s ≡ spec_replies os p
    replies-spec_replies [] p s fits h = refl
    replies-spec_replies (o ∷ os) p s fits h =
        let (same, stands) = ask-Keeps o p s fits.0 h in
        let rest = replies-spec_replies os (spec_ask o p).1 (ask r o s).1 fits.1 stands in
        cc (same, rest)
