-- ===== src/Scheduler/Jobs.antt =====
-- scheduler/internal/db/redis.go: the state of the one crawl job, in three Redis keys.
pub mod Locking
pub mod Cleanup
pub mod Overlap
pub mod Race
pub mod Slot
pub mod Tests
use distributed_web_crawler.Base.{
  ℕ, String, Bool, true, false, Option, none, some, Result, ok, err, ℤ, pos, ltb,
}
use distributed_web_crawler.Services.Redis.{Redis, RedisError, missing, failed}

abbrev pub active_job_key : String
active_job_key = "crawler:active_job"

abbrev pub max_depth_key : String
max_depth_key = "crawler:max_depth"

abbrev pub last_activity_key : String
last_activity_key = "crawler:last_activity_time"

module _ (r : Redis) where
  open r use {Store, Value, of_text, of_int, parse_int, exists, get, set, set_nx, del}

  unfoldable pub is_job_active : Store → Result RedisError Bool × Store
  is_job_active s =
      let (n, s') = exists active_job_key s in (elim n [ ok k ↦ ok (ltb 0 k) | err e ↦ err e ], s')

  -- The second half of `StartJob`, once the lock is taken: an error undoes what was set.
  unfoldable pub init_last_activity : ℤ → ℤ → Store → Result RedisError Bool × Store
  init_last_activity now ttl s =
      let (done, s') = set last_activity_key (of_int now) ttl s in
      elim done [
        | ok _ ↦ (ok true, s')
        | err e ↦ (err e, (del max_depth_key (del active_job_key s').1).1)
      ]

  unfoldable pub init_max_depth : ℤ → ℤ → ℤ → Store → Result RedisError Bool × Store
  unfolding init_last_activity
  init_max_depth max_depth now ttl s =
      let (done, s') = set max_depth_key (of_int max_depth) ttl s in
      elim done [
        | ok _ ↦ init_last_activity now ttl s'
        | err e ↦ (err e, (del active_job_key s').1)
      ]

  -- `now` is `time.Now().Unix()`.
  unfoldable pub start_job : String → ℤ → ℤ → ℤ → Store → Result RedisError Bool × Store
  unfolding init_max_depth
  start_job url_str max_depth now ttl s =
      let (success, s') = set_nx active_job_key (of_text url_str) ttl s in
      elim success [
        | ok true ↦ init_max_depth max_depth now ttl s'
        | ok false ↦ (ok false, s')
        | err e ↦ (err e, s')
      ]

  -- `.Int()`: a text that is no number is an error other than `redis.Nil`.
  abbrev int_or_failed : Option ℤ → Result RedisError ℤ
  int_or_failed none = err failed
  int_or_failed (some n) = ok n

  unfoldable pub get_max_depth : Store → Result RedisError ℤ × Store
  get_max_depth s =
      let (val, s') = get max_depth_key s in
      (elim val [ ok v ↦ int_or_failed (parse_int v) | err e ↦ err e ], s')

  -- The replies of the three commands are not looked at.
  unfoldable pub force_cleanup_job : Store → Store
  force_cleanup_job s = (del last_activity_key (del max_depth_key (del active_job_key s).1).1).1
