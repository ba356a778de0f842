-- ===== src/Scheduler/Results/Stops.antt =====
-- scheduler/internal/broker/broker.go: when `processResult` follows no link, and when it panics.
use distributed_web_crawler.Scheduler.Jobs.Locking.{depth_ne_last}
use distributed_web_crawler.Common.Models.{UrlData}
use distributed_web_crawler.Scheduler.Results.{
  panicked, depth_or, follow, slice_prefix, touch, returned, final, process_result,
}
use distributed_web_crawler.Scheduler.Jobs.{last_activity_key, max_depth_key, get_max_depth}
use distributed_web_crawler.Common.Config.{drop_limit, Config}
use distributed_web_crawler.Base.{
  Option, ◌+◌, le→leb, lt→ltb, replicate, ◌∙◌, negsuc, sym, take, length, Bool-cases, String, ◌<ℤ◌,
  List, ltb_ℤ, Option-cases, [], ◌∷◌, ◌++◌, Result-cases, ◌≤◌, pos, ◌≢◌, ℕ, ℤ, refl, none, some, ok,
  err, false, arith, inl, inr, ◌≡◌,
}
use distributed_web_crawler.Services.Redis.{RedisError, Redis}
use distributed_web_crawler.Services.Json.{Json}
use distributed_web_crawler.Services.Rabbit.{Rabbit}
use distributed_web_crawler.Scheduler.World.{World}

-- The share of so many links that is kept lies between none and all of them.
pub record IsShare (c : Config) (n : ℕ) : Type 0 where
  pub share : ℕ
  pub exact : drop_limit c n ≡ pos share
  pub within : share ≤ n

module _ (r : Redis) (j : Json) (q : Rabbit j.Body) where
  -- Without the key there is no number to read.
  get_max_depth-none :
      (s : r.Store) → r.value max_depth_key s ≡ none → (n : ℤ) → (get_max_depth r s).0 ≢ ok n
  unfolding get_max_depth
  get_max_depth-none s e n h = elim (Result-cases (r.get max_depth_key s).0) [
    | inl (v, p) ↦ ground (arith, r.get_ok max_depth_key s v)
    | inr (x, p) ↦ ground arith
  ]

  not_below_self : (d : ℤ) → ltb_ℤ d d ≡ false
  not_below_self d = ground arith

  no_limit :
      (s : r.Store)
      → r.value max_depth_key s ≡ none
      → (x : RedisError) × ((get_max_depth r s).0 ≡ err x)
  no_limit s e = elim (Result-cases (get_max_depth r s).0) [
    | inl (n, p) ↦ absurd (get_max_depth-none s e n p)
    | inr (x, p) ↦ (x, p)
  ]

  follow-idle :
      (c : Config) (body : j.Body) (page : UrlData) (w : World r j q)
      → r.value max_depth_key w.store ≡ none
      → follow r j q c body page w ≡ returned (record w { store = (get_max_depth r w.store).1 })
  unfolding follow
  follow-idle c body page w e = rw ((no_limit w.store e).1, follow, not_below_self page.depth)

  -- While the depth limit is not in Redis, as after a stop, a result puts nothing on the queues: it
  -- goes to the batcher, and neither the publishings nor the counters change.
  pub process_result_stopped :
      (c : Config) (body : j.Body) (now : ℤ) (w : World r j q)
      → r.value max_depth_key w.store ≡ none
      → let w' = final (process_result r j q c body now w) in
        (process_result r j q c body now w ≡ returned w')
        × (w'.published ≡ w.published)
        × (w'.urls_queued ≡ w.urls_queued)
        × (w'.scheduling_errors ≡ w.scheduling_errors)
        × (w'.dbchan ≡ w.dbchan ++ body ∷ [])
  unfolding process_result
  process_result_stopped c body now w gone = elim (Option-cases (j.unmarshal_data body)) [
    | inl e ↦ rw (e, process_result) (refl, refl, refl, refl, refl)
    | inr (page, e) ↦ rw (e, process_result, idle page) (refl, refl, refl, refl, refl)
  ]
    where
      touched : World r j q
      touched = touch r j q c body now w

      idle :
          (page : UrlData)
          → follow r j q c body page touched
            ≡ returned (record touched { store = (get_max_depth r touched.store).1 })
      idle page = follow-idle c body page touched (
          r.set_other last_activity_key max_depth_key _ _ w.store (λ p. depth_ne_last (sym p))
          ∙ gone)

  pub slice_prefix_fits :
      (xs : List String) (spare n : ℕ)
      → n ≤ length xs
      → slice_prefix xs spare (pos n) ≡ some (take n (xs ++ replicate spare ""))
  unfolding slice_prefix
  slice_prefix_fits xs spare n h = rw (le→leb n (length xs + spare) (omega arith))

  -- So it is for the page that a body decodes to, if any.
  abbrev pub SharesLinks : Config → Option UrlData → Type 0
  SharesLinks c none = Unit {0}
  SharesLinks c (some page) = IsShare c (length page.next_urls)

  follow_total :
      (c : Config) (body : j.Body) (page : UrlData) (w : World r j q)
      → IsShare c (length page.next_urls)
      → follow r j q c body page w ≡ returned (final (follow r j q c body page w))
  unfolding follow
  follow_total c body page w s =
      elim (Bool-cases (ltb_ℤ page.depth (depth_or page.depth (get_max_depth r w.store).0))) [
        | inr stop ↦ rw (stop, follow)
        | inl less ↦ rw (
          less,
          follow,
          s.exact,
          slice_prefix_fits page.next_urls (j.spare body) s.share s.within,
        )
      ]

  -- With a share of the links between none and all, no result makes the process panic.
  pub process_result_total :
      (c : Config) (body : j.Body) (now : ℤ) (w : World r j q)
      → SharesLinks c (j.unmarshal_data body)
      → process_result r j q c body now w ≡ returned (final (process_result r j q c body now w))
  unfolding process_result
  process_result_total c body now w s = elim (Option-cases (j.unmarshal_data body)) [
    | inl e ↦ rw (e, process_result)
    | inr (page, e) ↦
        rw (e, process_result) (follow_total c body page (touch r j q c body now w) (rw e at s))
  ]

  -- For a page below the depth limit, which Redis gives: a limit of links below zero, as a drop rate
  -- above one gives, makes processResult panic, which ends the process.
  pub process_result_panics :
      (c : Config) (body : j.Body) (now : ℤ) (page : UrlData) (max_depth : ℤ) (k : ℕ)
      (w : World r j q)
      → j.unmarshal_data body ≡ some page
      → (get_max_depth r (touch r j q c body now w).store).0 ≡ ok max_depth
      → page.depth <ℤ max_depth
      → drop_limit c (length page.next_urls) ≡ negsuc k
      → process_result r j q c body now w ≡ panicked (final (process_result r j q c body now w))
  unfolding process_result follow slice_prefix
  process_result_panics c body now page max_depth k w e d less l =
      rw (e, process_result, d, follow, lt→ltb _ _ less, l)
