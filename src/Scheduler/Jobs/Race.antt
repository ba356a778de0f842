-- ===== src/Scheduler/Jobs/Race.antt =====
-- scheduler/internal/db/redis.go: any number of requests run `StartJob` at the same time. Redis takes their
-- commands one at a time, in any order; a request is where its next command is.
pub mod Owners
pub mod Tests
pub mod Winners
use distributed_web_crawler.Base.{
  ℕ, zero, suc, Bool, true, false, List, [], ◌∷◌, String, Result, ok, err, ℤ,
}
use distributed_web_crawler.Services.Redis.{Redis, RedisError}
use distributed_web_crawler.Scheduler.Jobs.{active_job_key, max_depth_key, last_activity_key}

-- Before SETNX; before each SET; before the DELs that undo; and at the end.
pub data Pc : Type 0 where
  begins has_lock has_depth : Pc
  undoes_lock undoes_both undoes_depth : RedisError → Pc
  returned : Result RedisError Bool → Pc

pub record Start : Type 0 where
  pub url_str : String
  pub max_depth : ℤ
  pub now : ℤ
  pub ttl : ℤ
  pub pc : Pc

module _ (r : Redis) where
  open r use {Store, of_text, of_int, set, set_nx, del}

  -- One command of one request.
  unfoldable pub step_at : Pc → Start → Store → Pc × Store
  step_at begins c s =
      let (success, s') = set_nx active_job_key (of_text c.url_str) c.ttl s in
      (
        elim success [
          | ok true ↦ has_lock
          | ok false ↦ returned (ok false)
          | err e ↦ returned (err e)
        ],
        s',
      )
  step_at has_lock c s =
      let (done, s') = set max_depth_key (of_int c.max_depth) c.ttl s in
      (elim done [ ok _ ↦ has_depth | err e ↦ undoes_lock e ], s')
  step_at has_depth c s =
      let (done, s') = set last_activity_key (of_int c.now) c.ttl s in
      (elim done [ ok _ ↦ returned (ok true) | err e ↦ undoes_both e ], s')
  step_at (undoes_lock e) c s = (returned (err e), (del active_job_key s).1)
  step_at (undoes_both e) c s = (undoes_depth e, (del active_job_key s).1)
  step_at (undoes_depth e) c s = (returned (err e), (del max_depth_key s).1)
  step_at (returned a) c s = (returned a, s)

  -- A request that nobody interrupts, for some commands.
  unfoldable pub alone : ℕ → Pc → Start → Store → Pc × Store
  unfolding step_at
  alone zero p c s = (p, s)
  alone (suc n) p c s = let (p', s') = step_at p c s in alone n p' c s'

  -- The request with the number takes its next step.
  unfoldable pub move : ℕ → List Start → Store → List Start × Store
  unfolding step_at
  move n [] s = ([], s)
  move zero (c ∷ cs) s = let (p, s') = step_at c.pc c s in (record c { pc = p } ∷ cs, s')
  move (suc n) (c ∷ cs) s = let (cs', s') = move n cs s in (c ∷ cs', s')

  unfoldable pub moves : List ℕ → List Start → Store → List Start × Store
  unfolding move
  moves [] cs s = (cs, s)
  moves (n ∷ ns) cs s = let (cs', s') = move n cs s in moves ns cs' s'
