-- ===== src/Scheduler/Jobs/Slot.antt =====
-- What scheduler/internal/db/redis.go promises: a place for one job, which remembers the depth limit of the
-- job that is in it, each for its time to live. `ask` is the code's side of an operation, `spec_ask` the promise.
pub mod Refines
pub mod Tests
use distributed_web_crawler.Base.{
  String, Bool, true, false, Option, none, some, List, [], ◌∷◌, Result, ok, err, ℤ,
}
use distributed_web_crawler.Services.Redis.{Redis, RedisError, missing, failed}
use distributed_web_crawler.Scheduler.Jobs.{
  active_job_key, max_depth_key, start_job, is_job_active, get_max_depth, force_cleanup_job,
}

pub data Operation : Type 0 where
  -- The URL, the depth limit, the time in seconds, and the time to live.
  starts : String → ℤ → ℤ → ℤ → Operation
  asks_active asks_depth cleans : Operation
  -- What Redis does by itself, at any time.
  lock_expires limit_expires : Operation

pub data Reply : Type 0 where
  started active : Bool → Reply
  depth : Option ℤ → Reply
  cleaned expired no_reply : Reply

-- The place: whether it is taken, and the depth limit that is remembered. Both end with their time to live,
-- each by itself.
pub record Place : Type 0 where
  pub taken : Bool
  pub limit : Option ℤ

abbrev pub spec_start : ℤ → Bool → Option ℤ → Reply × Place
spec_start d false limit = (started true, record { taken = true; limit = some d })
spec_start d true limit = (started false, record { taken = true; limit = limit })

abbrev pub spec_ask : Operation → Place → Reply × Place
spec_ask (starts url d now ttl) p = spec_start d p.taken p.limit
spec_ask asks_active p = (active p.taken, p)
spec_ask asks_depth p = (depth p.limit, p)
spec_ask cleans p = (cleaned, record { taken = false; limit = none })
spec_ask lock_expires p = (expired, record p { taken = false })
spec_ask limit_expires p = (expired, record p { limit = none })

abbrev pub spec_replies : List Operation → Place → List Reply
spec_replies [] p = []
spec_replies (o ∷ os) p = let (reply, p') = spec_ask o p in reply ∷ spec_replies os p'

-- An error other than `redis.Nil` of GET is no reply.
abbrev pub as_started : Result RedisError Bool → Reply
as_started (ok b) = started b
as_started (err e) = no_reply

abbrev pub as_active : Result RedisError Bool → Reply
as_active (ok b) = active b
as_active (err e) = no_reply

abbrev pub as_depth : Result RedisError ℤ → Reply
as_depth (ok d) = depth (some d)
as_depth (err missing) = depth none
as_depth (err failed) = no_reply

module _ (r : Redis) where
  abbrev pub ask : Operation → r.Store → Reply × r.Store
  ask (starts url d now ttl) s =
      let (reply, s') = start_job r url d now ttl s in (as_started reply, s')
  ask asks_active s = let (reply, s') = is_job_active r s in (as_active reply, s')
  ask asks_depth s = let (reply, s') = get_max_depth r s in (as_depth reply, s')
  ask cleans s = (cleaned, force_cleanup_job r s)
  ask lock_expires s = (expired, r.expire active_job_key s)
  ask limit_expires s = (expired, r.expire max_depth_key s)

  abbrev pub replies : List Operation → r.Store → List Reply
  replies [] s = []
  replies (o ∷ os) s = let (reply, s') = ask o s in reply ∷ replies os s'
