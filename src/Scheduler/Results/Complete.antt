-- ===== src/Scheduler/Results/Complete.antt =====
-- scheduler/internal/broker/broker.go: `processResult` while the services answer.
use distributed_web_crawler.Scheduler.Results.Stops.{slice_prefix_fits}
use distributed_web_crawler.Scheduler.Results.Delivery.{bloom_ne_last}
use distributed_web_crawler.Common.Config.{drop_limit, Config}
use distributed_web_crawler.Scheduler.Jobs.{last_activity_key, max_depth_key, get_max_depth}
use distributed_web_crawler.Scheduler.Broker.Publish.{insert_message-Keeps, to_hashing}
use distributed_web_crawler.Scheduler.Results.Extends.{queue_link_cases}
use distributed_web_crawler.Common.Models.{UrlData, CrawlMessage}
use distributed_web_crawler.Scheduler.Results.Dedup.{AddWorks, queue_links-Learns, Learns, member}
use distributed_web_crawler.Scheduler.Bloom.{bloom_filter_key, add_to_bloom, check_url_duplicate}
use distributed_web_crawler.Scheduler.Broker.{publish_body, insert_message}
use distributed_web_crawler.Base.{
  replicate, take-append, lt→ltb, take, ◌≤◌, length, ◌<ℤ◌, ℕ, ◌∙◌, false≢true, eq_iff, pos, some,
  add64, str_eq, All-map, Bool-cases, ok, sym, true, ◌⊎◌, [], inl, inr, subst, ◌≡◌, ◌≢◌, All, Bool,
  Result-cases, ◌++◌, ◌∷◌, List, String, ℤ, refl, false,
}
use distributed_web_crawler.Services.Redis.{Redis}
use distributed_web_crawler.Services.Json.{Json}
use distributed_web_crawler.Services.Rabbit.{Rabbit, Publishing}
use distributed_web_crawler.Scheduler.World.{World}
use distributed_web_crawler.Scheduler.Results.{
  process_result, follow, queue_links, queue_link, touch, final,
}

-- One of the messages has the URL as its routing key.
abbrev pub Routed : {B : Type 0} → String → List (Publishing B) → Type 0
Routed u [] = ⊥
Routed u (p ∷ ps) = (p.routing_key ≡ u) ⊎ Routed u ps

Routed-append_left :
    {B : Type 0} (u : String) (ps qs : List (Publishing B)) → Routed u ps → Routed u (ps ++ qs)
Routed-append_left u [] qs h = elim h [ ]
Routed-append_left u (p ∷ ps) qs (inl e) = inl e
Routed-append_left u (p ∷ ps) qs (inr h) = inr (Routed-append_left u ps qs h)

Routed-last :
    {B : Type 0} (ps : List (Publishing B)) (p : Publishing B) → Routed p.routing_key (ps ++ p ∷ [])
Routed-last [] p = inl refl
Routed-last (q ∷ ps) p = inr (Routed-last ps p)

module _ (r : Redis) (j : Json) (q : Rabbit j.Body) where
  -- The filter answers; a message is encoded and accepted.
  pub record Reliable : Type 0 where
    pub check :
        (u : String) (s : r.Store) → (b : Bool) × ((r.bf_exists bloom_filter_key u s).0 ≡ ok b)
    pub add : AddWorks r j q
    pub encode : (m : CrawlMessage) → (b : j.Body) × (j.marshal_message m ≡ some b)
    pub send : (p : Publishing j.Body) (s : q.State) → (q.publish p s).0 ≡ ok tt

  -- The two URLs have no cell of the filter in common: adding the one leaves the other as it was.
  pub record Apart (u x : String) : Type 0 where
    pub apart :
        u ≢ x
        → (s : r.Store)
        → r.member bloom_filter_key x (r.bf_add bloom_filter_key u s).1
          ≡ r.member bloom_filter_key x s

  -- Each link of the list is apart from all behind it.
  abbrev pub AllApart : List String → Type 0
  AllApart [] = Unit {0}
  AllApart (u ∷ us) = All (Apart u) us × AllApart us

  module _ (reliable : Reliable) where
    sent :
        (m : CrawlMessage) (w : World r j q)
        → Routed m.url (insert_message r j q m.url m.current_depth m.max_depth w).1.published
    unfolding insert_message publish_body
    sent m w =
        let (b, e) = reliable.encode m in
        rw (e, insert_message, reliable.send (to_hashing r j q m.url b) w.broker, publish_body)
          (Routed-last w.published (to_hashing r j q m.url b))

    -- A URL that was known to the filter, or that a message carries.
    abbrev pub Served : World r j q → World r j q → String → Type 0
    Served w w' u = (member r j q w u ≡ true) ⊎ Routed u w'.published

    queue_link-Served :
        (depth max_depth : ℤ) (url : String) (w : World r j q)
        → Served w (queue_link r j q depth max_depth url w) url
    unfolding queue_link check_url_duplicate
    queue_link-Served depth max_depth url w =
        elim (Result-cases (r.bf_exists bloom_filter_key url w.store).0) [
          | inl (true, e) ↦ inl (sym (r.bf_exists_ok bloom_filter_key url w.store true e))
          | inl (false, e) ↦
              rw (e, queue_link)
                (inr (
                  sent
                    (record {
                      url = url;
                      current_depth = add64 depth (pos 1);
                      max_depth = max_depth;
                    })
                    _))
          | inr (x, e) ↦ absurd (cc (e, (reliable.check url w.store).1))
        ]

    -- The other URLs are known just as before.
    queue_link-other :
        (depth max_depth : ℤ) (url x : String) (w : World r j q)
        → Apart url x
        → url ≢ x
        → member r j q (queue_link r j q depth max_depth url w) x ≡ member r j q w x
    unfolding check_url_duplicate add_to_bloom
    queue_link-other depth max_depth url x w a ne =
        queue_link_cases r j q (λ t. member r j q t x ≡ member r j q w x) depth max_depth url w
          (r.bf_exists_member bloom_filter_key url x w.store)
          λ unseen.
            let s = (r.bf_exists bloom_filter_key url w.store).1 in
            let m : CrawlMessage = record {
              url = url;
              current_depth = add64 depth (pos 1);
              max_depth = max_depth;
            } in
            rw
              (
                (insert_message-Keeps r j q m
                    (record w { store = (r.bf_add bloom_filter_key url s).1 })).store,
                member,
              )
              (a.apart ne s ∙ r.bf_exists_member bloom_filter_key url x w.store)

    grown :
        (w w' : World r j q) (u : String)
        → Learns r j q w w'
        → Routed u w.published
        → Routed u w'.published
    grown w w' u l h =
        subst (Routed u) (sym l.published) (Routed-append_left u w.published l.fresh h)

    Served-before :
        (depth max_depth : ℤ) (url x : String) (w t : World r j q)
        → Learns r j q (queue_link r j q depth max_depth url w) t
        → Apart url x
        → Served (queue_link r j q depth max_depth url w) t x
        → Served w t x
    Served-before depth max_depth url x w t l a (inr h) = inr h
    Served-before depth max_depth url x w t l a (inl k) = elim (Bool-cases (str_eq url x)) [
      | inl same ↦
          subst (Served w t) ((eq_iff url x).0 same)
            (elim (queue_link-Served depth max_depth url w) [
              | inl known ↦ inl known
              | inr h ↦ inr (grown _ t url l h)
            ])
      | inr other ↦ inl (
          sym (
            queue_link-other depth max_depth url x w a
              (λ e. false≢true (sym other ∙ (eq_iff url x).1 e)))
          ∙ k)
    ]

    all_before :
        (depth max_depth : ℤ) (url : String) (us : List String) (w t : World r j q)
        → Learns r j q (queue_link r j q depth max_depth url w) t
        → All (Apart url) us
        → All (Served (queue_link r j q depth max_depth url w) t) us
        → All (Served w t) us
    all_before depth max_depth url [] w t l a h = tt
    all_before depth max_depth url (x ∷ us) w t l a h = (
      Served-before depth max_depth url x w t l a.0 h.0,
      all_before depth max_depth url us w t l a.1 h.1,
    )

    queue_links-Served :
        (depth max_depth : ℤ) (urls : List String) (w : World r j q)
        → AllApart urls
        → All (Served w (queue_links r j q depth max_depth urls w)) urls
    unfolding queue_links
    queue_links-Served depth max_depth [] w apart = tt
    queue_links-Served depth max_depth (u ∷ us) w apart =
        let w₁ = queue_link r j q depth max_depth u w in
        let t = queue_links r j q depth max_depth us w₁ in
        let l = queue_links-Learns r j q reliable.add depth max_depth us w₁ in
        (
          elim (queue_link-Served depth max_depth u w) [
            | inl known ↦ inl known
            | inr h ↦ inr (grown w₁ t u l h)
          ],
          all_before depth max_depth u us w t l apart.0
              (queue_links-Served depth max_depth us w₁ apart.1),
        )

    member-read :
        (c : Config) (body : j.Body) (now : ℤ) (u : String) (w : World r j q)
        → member r j q
            (record (touch r j q c body now w) {
              store = (get_max_depth r (touch r j q c body now w).store).1;
            })
            u
          ≡ member r j q w u
    unfolding get_max_depth touch
    member-read c body now u w =
        r.get_member max_depth_key bloom_filter_key u _
        ∙ r.set_member last_activity_key bloom_filter_key u _ _ w.store (λ p. bloom_ne_last (sym p))

    -- When the filter answers and the broker accepts: of a page below the depth limit, which Redis
    -- gives, and of whose links that the drop rate leaves no two different ones have cells of the
    -- filter in common, each of these links was known to the filter before, a false positive included,
    -- or a message for it is published.
    pub process_result-Served :
        (c : Config) (body : j.Body) (now : ℤ) (page : UrlData) (max_depth : ℤ) (n : ℕ)
        (w : World r j q)
        → j.unmarshal_data body ≡ some page
        → (get_max_depth r (touch r j q c body now w).store).0 ≡ ok max_depth
        → page.depth <ℤ max_depth
        → drop_limit c (length page.next_urls) ≡ pos n
        → n ≤ length page.next_urls
        → AllApart (take n page.next_urls)
        → All (Served w (final (process_result r j q c body now w))) (take n page.next_urls)
    unfolding process_result follow
    process_result-Served c body now page max_depth n w e d less l short apart =
        let t = touch r j q c body now w in
        let w₁ : World r j q = record t { store = (get_max_depth r t.store).1 } in
        let urls = take n page.next_urls in
        let w₂ = queue_links r j q page.depth max_depth urls w₁ in
        let run : final (process_result r j q c body now w) ≡ w₂ = rw (
          e,
          process_result,
          d,
          follow,
          lt→ltb _ _ less,
          l,
          slice_prefix_fits r j q page.next_urls (j.spare body) n short,
          take-append n page.next_urls (replicate (j.spare body) "") short,
        ) in
        subst (λ v. All (Served w v) urls) (sym run)
          (All-map (Served w₁ w₂) (Served w w₂)
            (λ u.
              λ s. elim s [ inl k ↦ inl (sym (member-read c body now u w) ∙ k) | inr h ↦ inr h ])
            urls (queue_links-Served page.depth max_depth urls w₁ apart))
