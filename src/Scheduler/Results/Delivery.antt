-- ===== src/Scheduler/Results/Delivery.antt =====
-- scheduler/internal/broker/broker.go: what `processResult` does besides following links.
use distributed_web_crawler.Scheduler.Broker.Publish.{insert_message-Keeps}
use distributed_web_crawler.Scheduler.Jobs.Locking.{depth_ne_last, active_ne_last}
use distributed_web_crawler.Common.Models.{CrawlMessage, UrlData}
use distributed_web_crawler.Common.Config.{drop_limit, ttl_of, Config}
use distributed_web_crawler.Scheduler.Jobs.{
  active_job_key, last_activity_key, max_depth_key, get_max_depth,
}
use distributed_web_crawler.Scheduler.Results.{
  touch, slice_prefix, depth_or, process_result, queue_link, queue_slice, final, follow,
  queue_links,
}
use distributed_web_crawler.Scheduler.Bloom.{add_to_bloom, check_url_duplicate, bloom_filter_key}
use mathlib.Core.Bool.{false≢true}
use distributed_web_crawler.Base.{
  Option-cases, inl, sym, inr, pos, add64, ltb_ℤ, Bool-cases, [], length, eq_iff, ◌++◌, ◌∷◌, List,
  Option, String, ◌≢◌, ℤ, ◌∙◌, ◌≡◌, refl, none, some, ok,
}
use distributed_web_crawler.Services.Redis.{Redis}
use distributed_web_crawler.Services.Json.{Json}
use distributed_web_crawler.Services.Rabbit.{Rabbit}
use distributed_web_crawler.Scheduler.World.{World}
use distributed_web_crawler.Scheduler.Results.Extends.{queue_link_cases}

pub bloom_ne_active : bloom_filter_key ≢ active_job_key
bloom_ne_active p = false≢true ((eq_iff bloom_filter_key active_job_key).1 p)

pub bloom_ne_depth : bloom_filter_key ≢ max_depth_key
bloom_ne_depth p = false≢true ((eq_iff bloom_filter_key max_depth_key).1 p)

pub bloom_ne_last : bloom_filter_key ≢ last_activity_key
bloom_ne_last p = false≢true ((eq_iff bloom_filter_key last_activity_key).1 p)

module _ (r : Redis) (j : Json) (q : Rabbit j.Body) where
  -- Nothing but the filter, the broker and the counters differs.
  record Frame (w w' : World r j q) : Type 0 where
    dbchan : w'.dbchan ≡ w.dbchan
    values : (k : String) → bloom_filter_key ≢ k → r.value k w'.store ≡ r.value k w.store

  Frame-same : (w : World r j q) → Frame w w
  Frame-same w = record { dbchan = refl; values = λ k ne. refl }

  Frame-trans : (u v w : World r j q) → Frame u v → Frame v w → Frame u w
  Frame-trans u v w a b = record {
    dbchan = b.dbchan ∙ a.dbchan;
    values = λ k ne. b.values k ne ∙ a.values k ne;
  }

  queue_link-Frame :
      (depth max_depth : ℤ) (url : String) (w : World r j q)
      → Frame w (queue_link r j q depth max_depth url w)
  unfolding check_url_duplicate add_to_bloom
  queue_link-Frame depth max_depth url w =
      queue_link_cases r j q (Frame w) depth max_depth url w looked λ _.
        let s = (check_url_duplicate r url w.store).1 in
        let added : World r j q = record w { store = (add_to_bloom r url s).1 } in
        let m : CrawlMessage = record {
          url = url;
          current_depth = add64 depth (pos 1);
          max_depth = max_depth;
        } in
        let kept = insert_message-Keeps r j q m added in
        record { dbchan = kept.dbchan; values = λ k ne. rw kept.store (new_values k ne) }
    where
      looked : Frame w (record w { store = (check_url_duplicate r url w.store).1 })
      looked = record {
        dbchan = refl;
        values = λ k ne. r.bf_exists_keeps bloom_filter_key url k w.store;
      }

      new_values :
          (k : String)
          → bloom_filter_key ≢ k
          → r.value k (add_to_bloom r url (check_url_duplicate r url w.store).1).1
            ≡ r.value k w.store
      new_values k ne =
          r.bf_add_keeps bloom_filter_key url k _ ne
          ∙ r.bf_exists_keeps bloom_filter_key url k w.store

  queue_links-Frame :
      (depth max_depth : ℤ) (urls : List String) (w : World r j q)
      → Frame w (queue_links r j q depth max_depth urls w)
  unfolding queue_links
  queue_links-Frame depth max_depth [] w = Frame-same w
  queue_links-Frame depth max_depth (u ∷ us) w =
      Frame-trans w _ _ (queue_link-Frame depth max_depth u w)
        (queue_links-Frame depth max_depth us (queue_link r j q depth max_depth u w))

  queue_slice-Frame :
      (depth max_depth : ℤ) (o : Option (List String)) (w : World r j q)
      → Frame w (final (queue_slice r j q depth max_depth o w))
  queue_slice-Frame depth max_depth none w = Frame-same w
  queue_slice-Frame depth max_depth (some urls) w = queue_links-Frame depth max_depth urls w

  get_max_depth-keeps : (k : String) (s : r.Store) → r.value k (get_max_depth r s).1 ≡ r.value k s
  unfolding get_max_depth
  get_max_depth-keeps k s = r.get_keeps max_depth_key k s

  follow-Frame :
      (c : Config) (body : j.Body) (page : UrlData) (w : World r j q)
      → Frame w (final (follow r j q c body page w))
  unfolding follow
  follow-Frame c body page w =
      let read : World r j q = record w { store = (get_max_depth r w.store).1 } in
      let max_depth = depth_or page.depth (get_max_depth r w.store).0 in
      let looked : Frame w read = record {
        dbchan = refl;
        values = λ k ne. get_max_depth-keeps k w.store;
      } in
      let prefix =
        slice_prefix page.next_urls (j.spare body) (drop_limit c (length page.next_urls)) in
      elim (Bool-cases (ltb_ℤ page.depth max_depth)) [
        | inr stop ↦ rw (stop, follow) looked
        | inl less ↦
            rw (less, follow)
              (Frame-trans w read _ looked (queue_slice-Frame page.depth max_depth prefix read))
      ]

  process_result-Frame :
      (c : Config) (body : j.Body) (now : ℤ) (w : World r j q)
      → Frame (touch r j q c body now w) (final (process_result r j q c body now w))
  unfolding process_result
  process_result-Frame c body now w = elim (Option-cases (j.unmarshal_data body)) [
    | inl e ↦ rw (e, process_result) (Frame-same (touch r j q c body now w))
    | inr (page, e) ↦ rw (e, process_result) (follow-Frame c body page (touch r j q c body now w))
  ]

  -- Whatever a body holds, and whatever fails on the way: the body goes to the batcher once, behind
  -- what waits there; the lock and the depth limit of the job are not touched; and if Redis took the
  -- write, `now` is the job's last activity.
  pub process_result_delivers :
      (c : Config) (body : j.Body) (now : ℤ) (w : World r j q)
      → let w' = final (process_result r j q c body now w) in
        (w'.dbchan ≡ w.dbchan ++ body ∷ [])
        × (r.value active_job_key w'.store ≡ r.value active_job_key w.store)
        × (r.value max_depth_key w'.store ≡ r.value max_depth_key w.store)
        × ((r.set last_activity_key (r.of_int now) (ttl_of c) w.store).0 ≡ ok tt
            → r.value last_activity_key w'.store ≡ some (r.of_int now))
  unfolding touch
  process_result_delivers c body now w = (
    rest.dbchan,
    rest.values active_job_key bloom_ne_active
        ∙ r.set_other last_activity_key active_job_key _ _ w.store (λ p. active_ne_last (sym p)),
    rest.values max_depth_key bloom_ne_depth
        ∙ r.set_other last_activity_key max_depth_key _ _ w.store (λ p. depth_ne_last (sym p)),
    λ e.
        rest.values last_activity_key bloom_ne_last
        ∙ r.set_ok last_activity_key (r.of_int now) (ttl_of c) w.store e,
  )
    where
      rest : Frame (touch r j q c body now w) (final (process_result r j q c body now w))
      rest = process_result-Frame c body now w
