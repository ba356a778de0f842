-- ===== src/Scheduler/Results/Dedup.antt =====
-- scheduler/internal/broker/broker.go: `processResult` and the filter of known URLs.
use distributed_web_crawler.Scheduler.Results.Delivery.{bloom_ne_last}
use distributed_web_crawler.Common.Config.{drop_limit, Config}
use distributed_web_crawler.Scheduler.Jobs.{max_depth_key, last_activity_key, get_max_depth}
use distributed_web_crawler.Scheduler.Broker.{insert_message}
use distributed_web_crawler.Scheduler.Broker.Publish.{
  to_hashing, insert_message_outcome, insert_message-Keeps, Keeps,
}
use distributed_web_crawler.Common.Models.{UrlData, CrawlMessage}
use distributed_web_crawler.Scheduler.Results.{
  slice_prefix, depth_or, touch, follow, process_result, queue_slice, final, queue_link,
  queue_links,
}
use distributed_web_crawler.Scheduler.Bloom.{bloom_filter_key, add_to_bloom, check_url_duplicate}
use distributed_web_crawler.Base.{
  ltb_ℤ, length, Option-cases, pos, add64, append-nil, All-map, ap, sym, All-append, ◌∙◌, ◌≢◌, All,
  Bool, Bool-cases, Option, [], append_assoc, ◌∷◌, List, String, ℤ, ◌++◌, refl, none, some, ok,
  true, false, inl, inr, ◌≡◌,
}
use distributed_web_crawler.Services.Redis.{Redis}
use distributed_web_crawler.Services.Json.{Json}
use distributed_web_crawler.Services.Rabbit.{Rabbit, Publishing}
use distributed_web_crawler.Scheduler.World.{World}
use distributed_web_crawler.Scheduler.Results.Extends.{queue_link_cases}

abbrev pub Distinct : {B : Type 0} → List (Publishing B) → Type 0
Distinct [] = Unit
Distinct (p ∷ ps) = All (λ p'. p.routing_key ≢ p'.routing_key) ps × Distinct ps

module _ {B : Type 0} (known : String → Bool) where
  -- Keys that are known differ from keys that are not.
  known_ne :
      (p : Publishing B) (ps : List (Publishing B))
      → known p.routing_key ≡ true
      → All (λ p'. known p'.routing_key ≡ false) ps
      → All (λ p'. p.routing_key ≢ p'.routing_key) ps
  known_ne p [] k u = tt
  known_ne p (p' ∷ ps) k u = (λ e. cc (k, u.0, ap known e), known_ne p ps k u.1)

  Distinct-append :
      (ps qs : List (Publishing B))
      → All (λ p. known p.routing_key ≡ true) ps
      → Distinct ps
      → All (λ p. known p.routing_key ≡ false) qs
      → Distinct qs
      → Distinct (ps ++ qs)
  Distinct-append [] qs k d u e = e
  Distinct-append (p ∷ ps) qs k d u e = (
    All-append (λ p'. p.routing_key ≢ p'.routing_key) ps qs d.0 (known_ne p qs k.0 u),
    Distinct-append ps qs k.1 d.1 u e,
  )

module _ (r : Redis) (j : Json) (q : Rabbit j.Body) where
  abbrev pub member : World r j q → String → Bool
  member w u = r.member bloom_filter_key u w.store

  pub record Learns (w w' : World r j q) : Type 0 where
    pub fresh : List (Publishing j.Body)
    pub published : w'.published ≡ w.published ++ fresh
    pub unknown : All (λ p. member w p.routing_key ≡ false) fresh
    pub distinct : Distinct fresh
    pub learned : All (λ p. member w' p.routing_key ≡ true) fresh
    pub grows : (u : String) → member w u ≡ true → member w' u ≡ true

  unknown_before :
      (w v : World r j q) (u : String)
      → ((u : String) → member w u ≡ true → member v u ≡ true)
      → member v u ≡ false
      → member w u ≡ false
  unknown_before w v u grows e = elim (Bool-cases (member w u)) [
    | inl t ↦ cc (grows u t, e)
    | inr f ↦ f
  ]

  Learns-same :
      (w w' : World r j q)
      → w'.published ≡ w.published
      → ((u : String) → member w u ≡ true → member w' u ≡ true)
      → Learns w w'
  Learns-same w w' e g = record {
    fresh = [];
    published = e ∙ sym (append-nil w.published);
    unknown = tt;
    distinct = tt;
    learned = tt;
    grows = g;
  }

  Learns-trans : (u v w : World r j q) → Learns u v → Learns v w → Learns u w
  Learns-trans u v w a b = record {
    fresh = a.fresh ++ b.fresh;
    published = rw (b.published, a.published) (append_assoc u.published a.fresh b.fresh);
    unknown =
        All-append (λ p. member u p.routing_key ≡ false) a.fresh b.fresh a.unknown
          (All-map (λ p. member v p.routing_key ≡ false) (λ p. member u p.routing_key ≡ false)
            (λ p. unknown_before u v p.routing_key a.grows) b.fresh b.unknown);
    distinct = Distinct-append (member v) a.fresh b.fresh a.learned a.distinct b.unknown b.distinct;
    learned =
        All-append (λ p. member w p.routing_key ≡ true) a.fresh b.fresh
          (All-map (λ p. member v p.routing_key ≡ true) (λ p. member w p.routing_key ≡ true)
            (λ p. b.grows p.routing_key) a.fresh a.learned)
          b.learned;
    grows = λ x h. b.grows x (a.grows x h);
  }

  -- `BF.ADD` is answered.
  abbrev pub AddWorks : Type 0
  AddWorks = (f u : String) (s : r.Store) → (b : Bool) × ((r.bf_add f u s).0 ≡ ok b)

  module _ (works : AddWorks) where
    pub queue_link-Learns :
        (depth max_depth : ℤ) (url : String) (w : World r j q)
        → Learns w (queue_link r j q depth max_depth url w)
    unfolding check_url_duplicate add_to_bloom
    queue_link-Learns depth max_depth url w =
        queue_link_cases r j q (Learns w) depth max_depth url w
          (Learns-same w _ refl (λ u h. r.bf_exists_member bloom_filter_key url u w.store ∙ h))
          λ unseen. elim (insert_message_outcome r j q m added) [
            | inl (_, queued) ↦ record {
              fresh = to_hashing r j q url queued.body ∷ [];
              published = queued.published;
              unknown = (sym (r.bf_exists_ok bloom_filter_key url w.store false unseen), tt);
              distinct = (tt, tt);
              learned = (
                rw (kept.store, member)
                    (r.bf_add_ok bloom_filter_key url s (works bloom_filter_key url s).0
                      (works bloom_filter_key url s).1),
                tt,
              );
              grows = still;
            }
            | inr (_, _, unqueued) ↦ Learns-same w _ unqueued.published still
          ]
      where
        s : r.Store
        s = (check_url_duplicate r url w.store).1

        added : World r j q
        added = record w { store = (add_to_bloom r url s).1 }

        m : CrawlMessage
        m = record { url = url; current_depth = add64 depth (pos 1); max_depth = max_depth }

        kept : Keeps r j q added (insert_message r j q url (add64 depth (pos 1)) max_depth added).1
        kept = insert_message-Keeps r j q m added

        still :
            (u : String)
            → member w u ≡ true
            → member (insert_message r j q url (add64 depth (pos 1)) max_depth added).1 u ≡ true
        still u h =
            rw (kept.store, member)
              (r.bf_add_grows bloom_filter_key url u s
                (r.bf_exists_member bloom_filter_key url u w.store ∙ h))

    pub queue_links-Learns :
        (depth max_depth : ℤ) (urls : List String) (w : World r j q)
        → Learns w (queue_links r j q depth max_depth urls w)
    unfolding queue_links
    queue_links-Learns depth max_depth [] w = Learns-same w w refl (λ u h. h)
    queue_links-Learns depth max_depth (u ∷ us) w =
        Learns-trans w _ _ (queue_link-Learns depth max_depth u w)
          (queue_links-Learns depth max_depth us (queue_link r j q depth max_depth u w))

    queue_slice-Learns :
        (depth max_depth : ℤ) (o : Option (List String)) (w : World r j q)
        → Learns w (final (queue_slice r j q depth max_depth o w))
    queue_slice-Learns depth max_depth none w = Learns-same w w refl (λ u h. h)
    queue_slice-Learns depth max_depth (some urls) w = queue_links-Learns depth max_depth urls w

    follow-Learns :
        (c : Config) (body : j.Body) (page : UrlData) (w : World r j q)
        → Learns w (final (follow r j q c body page w))
    unfolding follow get_max_depth
    follow-Learns c body page w =
        let read : World r j q = record w { store = (get_max_depth r w.store).1 } in
        let max_depth = depth_or page.depth (get_max_depth r w.store).0 in
        let looked : Learns w read =
          Learns-same w read refl
            (λ u h. r.get_member max_depth_key bloom_filter_key u w.store ∙ h) in
        let prefix =
          slice_prefix page.next_urls (j.spare body) (drop_limit c (length page.next_urls)) in
        elim (Bool-cases (ltb_ℤ page.depth max_depth)) [
          | inr stop ↦ rw (stop, follow) looked
          | inl less ↦
              rw (less, follow)
                (Learns-trans w read _ looked (queue_slice-Learns page.depth max_depth prefix read))
        ]

    -- What a result queues was unknown to the filter before, no URL of it twice, and all of it is
    -- known to the filter afterwards, with all that was known, as long as BF.ADD is answered.
    pub process_result-Learns :
        (c : Config) (body : j.Body) (now : ℤ) (w : World r j q)
        → Learns w (final (process_result r j q c body now w))
    unfolding process_result
    process_result-Learns c body now w =
        let touched = touch r j q c body now w in
        let written : Learns w touched = Learns-same w touched refl (λ u h.
          r.set_member last_activity_key bloom_filter_key u _ _ w.store (λ p. bloom_ne_last (sym p))
          ∙ h) in
        elim (Option-cases (j.unmarshal_data body)) [
          | inl e ↦ rw (e, process_result) written
          | inr (page, e) ↦
              rw (e, process_result)
                (Learns-trans w touched _ written (follow-Learns c body page touched))
        ]
