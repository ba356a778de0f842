-- ===== src/System/Effects.antt =====
-- What a step of the scheduler may do to what the parts share: publish messages for the workers, and write
-- the depth limit.
use distributed_web_crawler.Common.Constants.{consistent_hashing_exchange}
use distributed_web_crawler.Common.Models.{CrawlMessage, UrlData}
use distributed_web_crawler.Base.{
  IsIn, subst, All-append, ◌≤ℤ◌, All, append-nil, length-append, pos, IsInt64, arith, length, sym,
  append_assoc, ℤ, ◌+◌, ◌∙◌, ◌⊎◌, List, ◌++◌, ◌+ℤ◌, ◌≡◌, some, none, inl, inr, [],
}
use distributed_web_crawler.Services.Redis.{Redis}
use distributed_web_crawler.Services.Json.{Json}
use distributed_web_crawler.Services.Rabbit.{Rabbit, Publishing}
use distributed_web_crawler.Scheduler.World.{World}
use distributed_web_crawler.Scheduler.Jobs.{max_depth_key}
use distributed_web_crawler.Scheduler.Handlers.{CrawlRequest}
use distributed_web_crawler.Scheduler.Handlers.Crawl.{seed_message}
use distributed_web_crawler.Scheduler.Results.Children.{IsLinked, IsChild}

module _ (r : Redis) (j : Json) (q : Rabbit j.Body) where
  -- The depth limit of the job: not there, or a 64-bit number.
  abbrev pub HasLimit : r.Store → Type 0
  HasLimit s =
      (r.value max_depth_key s ≡ none)
      ⊎ ((d : ℤ) × IsInt64 d × (r.value max_depth_key s ≡ some (r.of_int d)))

  -- A message for the workers: a seed, or a page within the limit that the message itself carries.
  pub record IsWork (p : Publishing j.Body) : Type 0 where
    pub message : CrawlMessage
    pub encodes : j.marshal_message message ≡ some p.body
    pub exchange : p.exchange ≡ consistent_hashing_exchange
    pub routed : p.routing_key ≡ message.url
    pub fits : IsInt64 message.current_depth
    pub bounded : (message.current_depth ≡ pos 0) ⊎ (message.current_depth ≤ℤ message.max_depth)

  -- What was published is work, and P says where it comes from.
  pub record Effects (P : Publishing j.Body → Type 0) (w w' : World r j q) : Type 0 where
    pub fresh : List (Publishing j.Body)
    pub published : w'.published ≡ w.published ++ fresh
    pub counted : w'.urls_queued ≡ w.urls_queued + length fresh
    pub good : All IsWork fresh
    pub origin : All P fresh
    pub limit : HasLimit w.store → HasLimit w'.store

  module _ (P : Publishing j.Body → Type 0) where
    -- Nothing is published.
    pub Effects-same :
        (w w' : World r j q)
        → w'.published ≡ w.published
        → w'.urls_queued ≡ w.urls_queued
        → (HasLimit w.store → HasLimit w'.store)
        → Effects P w w'
    Effects-same w w' p c l = record {
      fresh = [];
      published = p ∙ sym (append-nil w.published);
      counted = omega (arith, c);
      good = tt;
      origin = tt;
      limit = l;
    }

    pub Effects-trans : (u v w : World r j q) → Effects P u v → Effects P v w → Effects P u w
    Effects-trans u v w a b = record {
      fresh = a.fresh ++ b.fresh;
      published = rw (b.published, a.published) (append_assoc u.published a.fresh b.fresh);
      counted = omega (arith, a.counted, b.counted, length-append a.fresh b.fresh);
      good = All-append IsWork a.fresh b.fresh a.good b.good;
      origin = All-append P a.fresh b.fresh a.origin b.origin;
      limit = λ h. b.limit (a.limit h);
    }

  -- The first message of the job that a request starts.
  abbrev pub IsSeed : CrawlRequest → Publishing j.Body → Type 0
  IsSeed req p = j.marshal_message (seed_message r j q req) ≡ some p.body

  -- A message for a link of the page, one deeper.
  pub record IsLinkOf (page : UrlData) (p : Publishing j.Body) : Type 0 where
    pub message : CrawlMessage
    pub encodes : j.marshal_message message ≡ some p.body
    pub named : IsIn message.url page.next_urls ⊎ (message.url ≡ "")
    pub deeper : message.current_depth ≡ page.depth +ℤ pos 1

  pub IsLinkOf-linked :
      (page : UrlData) (max_depth : ℤ) (p : Publishing j.Body)
      → IsLinked r j q page.next_urls page.depth max_depth p
      → IsLinkOf page p
  IsLinkOf-linked page max_depth p (child, named) = record {
    message = child.message;
    encodes = child.encodes;
    named = subst (λ u. IsIn u page.next_urls ⊎ (u ≡ "")) child.routed named;
    deeper = child.deeper;
  }

  -- A key that keeps its value keeps its limit.
  pub HasLimit-same :
      (s t : r.Store) → r.value max_depth_key t ≡ r.value max_depth_key s → HasLimit s → HasLimit t
  HasLimit-same s t e (inl n) = inl (e ∙ n)
  HasLimit-same s t e (inr (d, i, v)) = inr (d, i, e ∙ v)

  -- The children of a page are work.
  pub IsWork-child :
      (depth max_depth : ℤ) (p : Publishing j.Body)
      → IsInt64 max_depth
      → IsInt64 depth
      → IsChild r j q depth max_depth p
      → IsWork p
  unfolding ◌+ℤ◌
  IsWork-child depth max_depth p m d i =
      let within : depth +ℤ pos 1 ≤ℤ max_depth = subst (λ n. n ≤ℤ max_depth) i.deeper i.within in
      let fits : IsInt64 (depth +ℤ pos 1) = ground arith in
      record {
        message = i.message;
        encodes = i.encodes;
        exchange = i.exchange;
        routed = i.routed;
        fits = subst IsInt64 (sym i.deeper) fits;
        bounded = inr (rw i.limit i.within);
      }
