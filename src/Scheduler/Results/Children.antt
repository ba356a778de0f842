-- ===== src/Scheduler/Results/Children.antt =====
-- scheduler/internal/broker/broker.go: the messages that `processResult` puts on the queues.
use distributed_web_crawler.Common.Config.{drop_limit}
use distributed_web_crawler.Scheduler.Jobs.Locking.{depth_ne_last, get_max_depth_stored}
use distributed_web_crawler.Common.Constants.{consistent_hashing_exchange}
use distributed_web_crawler.Scheduler.Jobs.{last_activity_key, get_max_depth, max_depth_key}
use distributed_web_crawler.Common.Models.{CrawlMessage}
use distributed_web_crawler.Base.{
  ◌⊎◌, IsIn, subst, replicate, leb, negsuc, ℕ, All-map, All-take, All-self, All-replicate, ltb_ℤ→lt,
  ltb_ℤ, Bool-cases, some, +ℤ_parts, wrap64-of-IsInt64, ◌∷◌, ◌≤ℤ◌, Option, ◌+ℤ◌, ◌<ℤ◌, IsInt64, ◌+◌,
  ◌≡◌, refl, none, ◌∙◌, sym, String, List, [], ◌++◌, ℤ, pos, true, arith, All, All-append, length,
  add64, Result-cases, inl, inr,
}
use distributed_web_crawler.Services.Redis.{Redis}
use distributed_web_crawler.Services.Json.{Json}
use distributed_web_crawler.Services.Rabbit.{Rabbit, Publishing}
use distributed_web_crawler.Scheduler.World.{World}
use distributed_web_crawler.Scheduler.Results.Extends.{
  Extends, Extends-same, Extends-trans, queue_link_cases, insert-Extends,
}
use distributed_web_crawler.Scheduler.Results.{
  slice_prefix, touch, process_result, depth_or, queue_slice, final, UrlData, queue_links, Config,
  follow, queue_link,
}

module _ (r : Redis) (j : Json) (q : Rabbit j.Body) where
  open j use {Body, marshal_message, unmarshal_data}

  -- A message for the workers, one deeper than `depth` and within the limit.
  pub record IsChild (depth max_depth : ℤ) (p : Publishing Body) : Type 0 where
    pub message : CrawlMessage
    pub encodes : marshal_message message ≡ some p.body
    pub exchange : p.exchange ≡ consistent_hashing_exchange
    pub routed : p.routing_key ≡ message.url
    pub deeper : message.current_depth ≡ depth +ℤ pos 1
    pub limit : message.max_depth ≡ max_depth
    pub within : message.current_depth ≤ℤ max_depth

  -- It asks for one of the URLs, or for an empty one, which a slice past the length of the links gives.
  abbrev pub Names : List String → Publishing Body → Type 0
  Names urls p = IsIn p.routing_key urls ⊎ (p.routing_key ≡ "")

  -- A child of a page with these links.
  abbrev pub IsLinked : List String → ℤ → ℤ → Publishing Body → Type 0
  IsLinked urls depth max_depth p = IsChild depth max_depth p × Names urls p

  slice_prefix-Names :
      (xs : List String) (spare : ℕ) (limit : ℤ) (urls : List String)
      → slice_prefix xs spare limit ≡ some urls
      → All (λ u. IsIn u xs ⊎ (u ≡ "")) urls
  unfolding slice_prefix
  slice_prefix-Names xs spare (pos n) urls e = elim (Bool-cases (leb n (length xs + spare))) [
    | inl fits ↦ subst (All (λ u. IsIn u xs ⊎ (u ≡ ""))) (cc (rw fits at e)) (
        All-take (λ u. IsIn u xs ⊎ (u ≡ "")) n (xs ++ replicate spare "")
          (All-append (λ u. IsIn u xs ⊎ (u ≡ "")) xs (replicate spare "")
            (All-map (λ u. IsIn u xs) (λ u. IsIn u xs ⊎ (u ≡ "")) (λ u i. inl i) xs (All-self xs))
            (All-replicate (λ u. IsIn u xs ⊎ (u ≡ "")) spare "" (inr refl))))
    | inr over ↦ absurd (cc (rw over at e))
  ]
  slice_prefix-Names xs spare (negsuc n) urls e = absurd (cc e)

  module _ (links : List String) (depth max_depth : ℤ) (d : IsInt64 depth) (m : IsInt64 max_depth)
      (less : depth <ℤ max_depth) where
    -- The new depth stays within 64 bits.
    next-IsInt64 : IsInt64 (depth +ℤ pos 1)
    unfolding ◌+ℤ◌
    next-IsInt64 = ground arith

    add64-exact : add64 depth (pos 1) ≡ depth +ℤ pos 1
    unfolding add64
    add64-exact = wrap64-of-IsInt64 (depth +ℤ pos 1) next-IsInt64

    within_limit : depth +ℤ pos 1 ≤ℤ max_depth
    within_limit = omega (arith, +ℤ_parts depth (pos 1))

    queue_link-Extends :
        (url : String) (w : World r j q)
        → IsIn url links ⊎ (url ≡ "")
        → Extends r j q (IsLinked links depth max_depth) w (queue_link r j q depth max_depth url w)
    queue_link-Extends url w named =
        queue_link_cases r j q (Extends r j q (IsLinked links depth max_depth) w) depth max_depth
          url w (Extends-same r j q w _ refl refl)
          λ _. Extends-trans r j q w _ _ (Extends-same r j q w _ refl refl) (
            insert-Extends r j q (IsLinked links depth max_depth) child _ λ body e. (
              record {
                message = child;
                encodes = e;
                exchange = refl;
                routed = refl;
                deeper = add64-exact;
                limit = refl;
                within = rw add64-exact within_limit;
              },
              named,
            ))
      where
        child : CrawlMessage
        child = record { url = url; current_depth = add64 depth (pos 1); max_depth = max_depth }

    queue_links-Extends :
        (urls : List String) (w : World r j q)
        → All (λ u. IsIn u links ⊎ (u ≡ "")) urls
        → Extends r j q
            (IsLinked links depth max_depth)
            w
            (queue_links r j q depth max_depth urls w)
    unfolding queue_links
    queue_links-Extends [] w named = Extends-same r j q w w refl refl
    queue_links-Extends (u ∷ us) w named =
        Extends-trans r j q w _ _ (queue_link-Extends u w named.0)
          (queue_links-Extends us (queue_link r j q depth max_depth u w) named.1)

    queue_slice-Extends :
        (o : Option (List String)) (w : World r j q)
        → ((urls : List String) → o ≡ some urls → All (λ u. IsIn u links ⊎ (u ≡ "")) urls)
        → Extends r j q
            (IsLinked links depth max_depth)
            w
            (final (queue_slice r j q depth max_depth o w))
    queue_slice-Extends none w named = Extends-same r j q w w refl refl
    queue_slice-Extends (some urls) w named = queue_links-Extends urls w (named urls refl)

  irreflexive : (d : ℤ) → ltb_ℤ d d ≡ true → ⊥
  irreflexive d h = ground arith

  follow-Extends :
      (c : Config) (body : Body) (page : UrlData) (max_depth : ℤ) (w : World r j q)
      → IsInt64 page.depth
      → IsInt64 max_depth
      → r.value max_depth_key w.store ≡ some (r.of_int max_depth)
      → Extends r j q
          (IsLinked page.next_urls page.depth max_depth)
          w
          (final (follow r j q c body page w))
  unfolding follow
  follow-Extends c body page max_depth w d m stored =
      elim (Bool-cases (ltb_ℤ page.depth (depth_or page.depth (get_max_depth r w.store).0))) [
        | inr stop ↦ rw (stop, follow) (Extends-same r j q w _ refl refl)
        | inl less ↦
            rw (less, follow)
              (elim (Result-cases (get_max_depth r w.store).0) [
                | inl (n, e) ↦
                    let same = get_max_depth_stored r max_depth w.store m stored n e in
                    let below = ltb_ℤ→lt page.depth max_depth (rw (e, same) at less) in
                    let read : World r j q = record w { store = (get_max_depth r w.store).1 } in
                    let prefix =
                      slice_prefix page.next_urls (j.spare body)
                        (drop_limit c (length page.next_urls)) in
                    rw (e, same)
                      (Extends-trans r j q w read _ (Extends-same r j q w read refl refl) (
                        queue_slice-Extends page.next_urls page.depth max_depth d m below prefix
                          read
                          (slice_prefix-Names page.next_urls (j.spare body)
                            (drop_limit c (length page.next_urls)))))
                | inr (x, e) ↦ absurd (irreflexive page.depth (rw e at less))
              ])
      ]

  -- A body that decodes to a page, in a job whose depth limit is in Redis, both depths within 64 bits:
  -- processResult puts nothing else on the queues than messages for the page's links, or for an empty
  -- URL that a slice past their end gives, each one deeper than the page, with the job's depth limit
  -- and not beyond it, and counted once. So a page at the limit puts none.
  pub process_result-Extends :
      (c : Config) (body : Body) (now : ℤ) (page : UrlData) (max_depth : ℤ) (w : World r j q)
      → unmarshal_data body ≡ some page
      → IsInt64 page.depth
      → IsInt64 max_depth
      → r.value max_depth_key w.store ≡ some (r.of_int max_depth)
      → Extends r j q
          (IsLinked page.next_urls page.depth max_depth)
          w
          (final (process_result r j q c body now w))
  unfolding process_result
  process_result-Extends c body now page max_depth w e d m stored =
      rw (e, process_result)
        (Extends-trans r j q w (touch r j q c body now w) _ (Extends-same r j q w _ refl refl) (
          follow-Extends c body page max_depth (touch r j q c body now w) d m (
            r.set_other last_activity_key max_depth_key _ _ w.store (λ p. depth_ne_last (sym p))
            ∙ stored)))
