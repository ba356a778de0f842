-- ===== src/Scheduler/Results.antt =====
-- scheduler/internal/broker/broker.go: `processResult`, what a consumer does with a crawled page.
pub mod Extends
pub mod Children
pub mod Stops
pub mod Dedup
pub mod Delivery
pub mod Complete
pub mod Race
pub mod Rates
pub mod Tests
use distributed_web_crawler.Base.{
  ℕ, ◌+◌, String, Bool, true, false, Option, none, some, List, [], ◌∷◌, ◌++◌, Result, ok, err, ℤ,
  pos, negsuc, add64, leb, ltb_ℤ, length, take, replicate, if◌then◌else◌,
}
use distributed_web_crawler.Common.Config.{drop_limit, Config, ttl_of}
use distributed_web_crawler.Common.Models.{UrlData}
use distributed_web_crawler.Services.Redis.{Redis, RedisError}
use distributed_web_crawler.Services.Json.{Json}
use distributed_web_crawler.Services.Rabbit.{Rabbit}
use distributed_web_crawler.Scheduler.World.{World}
use distributed_web_crawler.Scheduler.Bloom.{check_url_duplicate, add_to_bloom}
use distributed_web_crawler.Scheduler.Broker.{insert_message}
use distributed_web_crawler.Scheduler.Jobs.{last_activity_key, get_max_depth}

-- `s[:limit]` of a slice whose capacity goes `spare` past its length; `none` is the run-time panic.
unfoldable pub slice_prefix : List String → ℕ → ℤ → Option (List String)
slice_prefix xs spare (pos n) =
    if leb n (length xs + spare) then some (take n (xs ++ replicate spare "")) else none
slice_prefix xs spare (negsuc n) = none

-- A panic of a goroutine ends the process.
pub data Run {ℓ} (W : Type ℓ) : Type ℓ where
  returned panicked : W → Run W

abbrev pub final {ℓ} : {W : Type ℓ} → Run W → W
final (returned w) = w
final (panicked w) = w

-- An error stands for the depth of the page itself, so that no link is followed.
abbrev pub depth_or : ℤ → Result RedisError ℤ → ℤ
depth_or d (ok n) = n
depth_or d (err e) = d

module _ (r : Redis) (j : Json) (q : Rabbit j.Body) where
  open j use {Body, unmarshal_data, spare}

  -- One turn of the loop over the links. The reply of `AddToBloom` is not looked at, and an error of
  -- `InsertMessage` is only logged.
  unfoldable pub queue_link : ℤ → ℤ → String → World r j q → World r j q
  queue_link depth max_depth next_url w =
      let (res, s) = check_url_duplicate r next_url w.store in
      elim res [
        | ok b ↦
            if b
            then record w { store = s }
            else (insert_message r j q next_url (add64 depth (pos 1)) max_depth
                (record w { store = (add_to_bloom r next_url s).1 })).1
        | err e ↦ record w { store = s }
      ]

  unfoldable pub queue_links : ℤ → ℤ → List String → World r j q → World r j q
  queue_links depth max_depth [] w = w
  queue_links depth max_depth (u ∷ us) w =
      queue_links depth max_depth us (queue_link depth max_depth u w)

  abbrev pub queue_slice : ℤ → ℤ → Option (List String) → World r j q → Run (World r j q)
  queue_slice depth max_depth none w = panicked w
  queue_slice depth max_depth (some urls) w = returned (queue_links depth max_depth urls w)

  unfoldable pub follow : Config → Body → UrlData → World r j q → Run (World r j q)
  follow c body page w =
      let (reply, s) = get_max_depth r w.store in
      let max_depth = depth_or page.depth reply in
      let limit = drop_limit c (length page.next_urls) in
      if ltb_ℤ page.depth max_depth
      then queue_slice page.depth max_depth (slice_prefix page.next_urls (spare body) limit)
          (record w { store = s })
      else returned (record w { store = s })

  -- The body goes to the batcher, and the job counts as active at `now`, whatever the body holds.
  unfoldable pub touch : Config → Body → ℤ → World r j q → World r j q
  touch c body now w = record w {
    dbchan = w.dbchan ++ body ∷ [];
    store = (r.set last_activity_key (r.of_int now) (ttl_of c) w.store).1;
  }

  unfoldable pub process_result : Config → Body → ℤ → World r j q → Run (World r j q)
  unfolding follow touch
  process_result c body now w = elim (unmarshal_data body) [
    | none ↦ returned (touch c body now w)
    | some page ↦ follow c body page (touch c body now w)
  ]
