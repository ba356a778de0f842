-- ===== src/Scheduler/Jobs/Race/Owners.antt =====
-- scheduler/internal/db/redis.go: what Redis holds for the winner of a race of starts.
use distributed_web_crawler.Base.{
  ◌∙◌, sym, All, ◌≡◌, Result-cases, arith, ◌+◌, ◌≢◌, List, ℕ, ℤ, ◌≤◌, ok, err, true, false, none,
  some, inl, inr, [], ◌∷◌, zero, suc,
}
use distributed_web_crawler.Services.Redis.{Redis}
use distributed_web_crawler.Scheduler.Jobs.{last_activity_key, max_depth_key, active_job_key}
use distributed_web_crawler.Scheduler.Jobs.Locking.{active_ne_last, active_ne_depth, depth_ne_last}
use distributed_web_crawler.Scheduler.Jobs.Race.{
  Pc, Start, begins, has_lock, has_depth, undoes_lock, undoes_both, undoes_depth, returned, step_at,
  move, moves,
}
use distributed_web_crawler.Scheduler.Jobs.Race.Winners.{
  Safe, holder, holders, holders-begins, move-Safe,
}

module _ (r : Redis) where
  open r use {Store, of_text, of_int, set, set_nx, del, value}

  -- The lock holds the request's URL; and so does the limit its depth.
  abbrev pub HasLock : Start → Store → Type 0
  HasLock c s = value active_job_key s ≡ some (of_text c.url_str)

  abbrev pub HasDepth : Start → Store → Type 0
  HasDepth c s = value max_depth_key s ≡ some (of_int c.max_depth)

  -- What a request has in Redis, by where it is.
  abbrev pub Owns : Pc → Start → Store → Type 0
  Owns begins c s = Unit {0}
  Owns has_lock c s = HasLock c s
  Owns has_depth c s = HasLock c s × HasDepth c s
  Owns (undoes_lock e) c s = HasLock c s
  Owns (undoes_both e) c s = ⊥
  Owns (undoes_depth e) c s = ⊥
  Owns (returned (ok true)) c s = HasLock c s × HasDepth c s
  Owns (returned (ok false)) c s = Unit {0}
  Owns (returned (err e)) c s = Unit {0}

  -- The write of the time of the start does not fail.
  abbrev pub ActivityWorks : Type 0
  ActivityWorks = (v : r.Value) (ttl : ℤ) (s : Store) → (set last_activity_key v ttl s).0 ≡ ok tt

  free-Owns : (p : Pc) (c : Start) (s t : Store) → holder p ≤ 0 → Owns p c s → Owns p c t
  free-Owns begins c s t h o = tt
  free-Owns has_lock c s t h o = absurd (omega arith)
  free-Owns has_depth c s t h o = absurd (omega arith)
  free-Owns (undoes_lock e) c s t h o = absurd (omega arith)
  free-Owns (undoes_both e) c s t h o = o
  free-Owns (undoes_depth e) c s t h o = o
  free-Owns (returned (ok true)) c s t h o = absurd (omega arith)
  free-Owns (returned (ok false)) c s t h o = tt
  free-Owns (returned (err e)) c s t h o = tt

  -- What a request has does not depend on where it is said to be.
  moved-Owns : (p q : Pc) (c : Start) (s : Store) → Owns p c s → Owns p (record c { pc = q }) s
  moved-Owns begins q c s o = tt
  moved-Owns (returned (ok true)) q c s o = o
  moved-Owns p q c s o = o

  -- With the lock in place, only a change of the lock or of the limit is noticed.
  kept-Owns :
      (p : Pc) (c : Start) (s t : Store)
      → (value active_job_key s ≢ none → value active_job_key t ≡ value active_job_key s)
      → value max_depth_key t ≡ value max_depth_key s
      → Owns p c s
      → Owns p c t
  kept-Owns begins c s t a d o = tt
  kept-Owns has_lock c s t a d o = a (λ n. cc (o, n)) ∙ o
  kept-Owns has_depth c s t a d o = (a (λ n. cc (o.0, n)) ∙ o.0, d ∙ o.1)
  kept-Owns (undoes_lock e) c s t a d o = a (λ n. cc (o, n)) ∙ o
  kept-Owns (undoes_both e) c s t a d o = o
  kept-Owns (undoes_depth e) c s t a d o = o
  kept-Owns (returned (ok true)) c s t a d o = (a (λ n. cc (o.0, n)) ∙ o.0, d ∙ o.1)
  kept-Owns (returned (ok false)) c s t a d o = tt
  kept-Owns (returned (err e)) c s t a d o = tt

  -- Where the lock was free, a request that owns something does not hold it.
  unlocked-Owns :
      (p : Pc) (c : Start) (s t : Store) → value active_job_key s ≡ none → Owns p c s → Owns p c t
  unlocked-Owns begins c s t n o = tt
  unlocked-Owns has_lock c s t n o = cc (o, n)
  unlocked-Owns has_depth c s t n o = cc (o.0, n)
  unlocked-Owns (undoes_lock e) c s t n o = cc (o, n)
  unlocked-Owns (undoes_both e) c s t n o = o
  unlocked-Owns (undoes_depth e) c s t n o = o
  unlocked-Owns (returned (ok true)) c s t n o = cc (o.0, n)
  unlocked-Owns (returned (ok false)) c s t n o = tt
  unlocked-Owns (returned (err e)) c s t n o = tt

  -- A step of one request takes nothing from another, as long as one of the two at most holds the lock.
  step-keeps :
      (p : Pc) (c : Start) (s : Store) (q : Pc) (d : Start)
      → holder p + holder q ≤ 1
      → Owns p c s
      → Owns q d s
      → Owns q d (step_at r p c s).1
  unfolding step_at
  step-keeps begins c s q d h o w =
      let lock = of_text c.url_str in
      let refused =
        kept-Owns q d s (set_nx active_job_key lock c.ttl s).1
          (r.set_nx_keeps active_job_key lock c.ttl s)
          (r.set_nx_other active_job_key max_depth_key lock c.ttl s active_ne_depth) w in
      elim (Result-cases (set_nx active_job_key lock c.ttl s).0) [
        | inl (true, e) ↦ unlocked-Owns q d s _ (r.set_nx_took active_job_key lock c.ttl s e).0 w
        | inl (false, e) ↦ refused
        | inr (x, e) ↦ refused
      ]
  step-keeps has_lock c s q d h o w = free-Owns q d s _ (omega arith) w
  step-keeps has_depth c s q d h o w = free-Owns q d s _ (omega arith) w
  step-keeps (undoes_lock e) c s q d h o w = free-Owns q d s _ (omega arith) w
  step-keeps (undoes_both e) c s q d h o w = absurd o
  step-keeps (undoes_depth e) c s q d h o w = absurd o
  step-keeps (returned a) c s q d h o w = w

  module _ (works : ActivityWorks) where
    step-Owns :
        (p : Pc) (c : Start) (s : Store)
        → Owns p c s
        → Owns (step_at r p c s).0 c (step_at r p c s).1
    unfolding step_at
    step-Owns begins c s o =
        elim (Result-cases (set_nx active_job_key (of_text c.url_str) c.ttl s).0) [
          | inl (true, e) ↦
              rw (e, step_at) (r.set_nx_took active_job_key (of_text c.url_str) c.ttl s e).1
          | inl (false, e) ↦ rw (e, step_at) tt
          | inr (x, e) ↦ rw (e, step_at) tt
        ]
    step-Owns has_lock c s o =
        let same =
          r.set_other max_depth_key active_job_key (of_int c.max_depth) c.ttl s
            (λ e. active_ne_depth (sym e)) in
        elim (Result-cases (set max_depth_key (of_int c.max_depth) c.ttl s).0) [
          | inl (_, e) ↦
              rw (e, step_at) (same ∙ o, r.set_ok max_depth_key (of_int c.max_depth) c.ttl s e)
          | inr (x, e) ↦ rw (e, step_at) (same ∙ o)
        ]
    step-Owns has_depth c s o =
        rw (works (of_int c.now) c.ttl s, step_at)
          (
            r.set_other last_activity_key active_job_key (of_int c.now) c.ttl s
                  (λ e. active_ne_last (sym e))
                ∙ o.0,
            r.set_other last_activity_key max_depth_key (of_int c.now) c.ttl s
                  (λ e. depth_ne_last (sym e))
                ∙ o.1,
          )
    step-Owns (undoes_lock e) c s o = tt
    step-Owns (undoes_both e) c s o = absurd o
    step-Owns (undoes_depth e) c s o = absurd o
    step-Owns (returned a) c s o = o

  abbrev pub AllOwn : List Start → Store → Type 0
  AllOwn cs s = All (λ c. Owns c.pc c s) cs

  others-keep :
      (p : Pc) (c : Start) (s : Store) (cs : List Start)
      → holder p + holders cs ≤ 1
      → Owns p c s
      → AllOwn cs s
      → AllOwn cs (step_at r p c s).1
  others-keep p c s [] h o w = tt
  others-keep p c s (d ∷ cs) h o w =
      (step-keeps p c s d.pc d (omega arith) o w.0, others-keep p c s cs (omega arith) o w.1)

  move-keeps :
      (n : ℕ) (cs : List Start) (s : Store) (q : Pc) (d : Start)
      → holder q + holders cs ≤ 1
      → AllOwn cs s
      → Owns q d s
      → Owns q d (move r n cs s).1
  unfolding move
  move-keeps n [] s q d h o w = w
  move-keeps zero (c ∷ cs) s q d h o w = step-keeps c.pc c s q d (omega arith) o.0 w
  move-keeps (suc n) (c ∷ cs) s q d h o w = move-keeps n cs s q d (omega arith) o.1 w

  module _ (works : ActivityWorks) where
    move-AllOwn :
        (n : ℕ) (cs : List Start) (s : Store)
        → holders cs ≤ 1
        → AllOwn cs s
        → AllOwn (move r n cs s).0 (move r n cs s).1
    unfolding move
    move-AllOwn n [] s h o = tt
    move-AllOwn zero (c ∷ cs) s h o =
        (moved-Owns _ _ c _ (step-Owns works c.pc c s o.0), others-keep c.pc c s cs h o.0 o.1)
    move-AllOwn (suc n) (c ∷ cs) s h o =
        (move-keeps n cs s c.pc c h o.1 o.0, move-AllOwn n cs s (omega arith) o.1)

    moves-AllOwn :
        (ns : List ℕ) (cs : List Start) (s : Store)
        → Safe r (holders cs + 0) s
        → AllOwn cs s
        → AllOwn (moves r ns cs s).0 (moves r ns cs s).1
    unfolding moves
    moves-AllOwn [] cs s i o = o
    moves-AllOwn (n ∷ ns) cs s i o =
        let (cs', s') = move r n cs s in
        moves-AllOwn ns cs' s' (move-Safe r n cs 0 s i)
          (move-AllOwn n cs s (omega (arith, i.few)) o)

    begins-AllOwn : (cs : List Start) (s : Store) → All (λ c. c.pc ≡ begins) cs → AllOwn cs s
    begins-AllOwn [] s h = tt
    begins-AllOwn (c ∷ cs) s h = (rw h.0 tt, begins-AllOwn cs s h.1)

    -- However many requests run StartJob at the same time, however their commands interleave, and
    -- whichever of the commands fail but the write of the time of the start: a request that has the
    -- lock finds its own URL in it; one that has written its depth limit, or has returned true, finds
    -- that limit too; and none comes to delete the limit.
    pub moves-Owns :
        (ns : List ℕ) (cs : List Start) (s : Store)
        → All (λ c. c.pc ≡ begins) cs
        → AllOwn (moves r ns cs s).0 (moves r ns cs s).1
    moves-Owns ns cs s h =
        moves-AllOwn ns cs s
          (record {
            few = omega (arith, holders-begins r cs h);
            locked = λ e. ground (arith, holders-begins r cs h);
          })
          (begins-AllOwn cs s h)
