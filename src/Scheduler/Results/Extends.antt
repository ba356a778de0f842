-- ===== src/Scheduler/Results/Extends.antt =====
-- scheduler/internal/broker/broker.go: what the loop of `processResult` adds to the messages published.
use distributed_web_crawler.Scheduler.Broker.Publish.{insert_message_outcome, to_hashing}
use distributed_web_crawler.Common.Models.{CrawlMessage}
use distributed_web_crawler.Base.{
  All-map, some, ◌∷◌, ◌+◌, ◌≡◌, ◌∙◌, sym, String, List, [], ◌++◌, append_assoc, append-nil, ok, ℤ,
  pos, true, false, arith, All, All-append, length, length-append, add64, Result-cases, inl, inr,
}
use distributed_web_crawler.Services.Redis.{Redis}
use distributed_web_crawler.Services.Json.{Json}
use distributed_web_crawler.Services.Rabbit.{Rabbit, Publishing}
use distributed_web_crawler.Scheduler.World.{World}
use distributed_web_crawler.Scheduler.Bloom.{check_url_duplicate, add_to_bloom}
use distributed_web_crawler.Scheduler.Broker.{insert_message}
use distributed_web_crawler.Scheduler.Results.{queue_link}

module _ (r : Redis) (j : Json) (q : Rabbit j.Body) where
  open j use {Body, marshal_message, unmarshal_data}

  -- Everything that was published since `w` has the property, and was counted.
  pub record Extends (P : Publishing Body → Type 0) (w w' : World r j q) : Type 0 where
    pub fresh : List (Publishing Body)
    pub published : w'.published ≡ w.published ++ fresh
    pub counted : w'.urls_queued ≡ w.urls_queued + length fresh
    pub good : All P fresh

  module _ {P : Publishing Body → Type 0} where
    pub Extends-same :
        (w w' : World r j q)
        → w'.published ≡ w.published
        → w'.urls_queued ≡ w.urls_queued
        → Extends P w w'
    Extends-same w w' p c = record {
      fresh = [];
      published = p ∙ sym (append-nil w.published);
      counted = omega arith;
      good = tt;
    }

    pub Extends-trans : (u v w : World r j q) → Extends P u v → Extends P v w → Extends P u w
    Extends-trans u v w a b = record {
      fresh = a.fresh ++ b.fresh;
      published = rw (b.published, a.published) (append_assoc u.published a.fresh b.fresh);
      counted = omega (arith, a.counted, b.counted, length-append a.fresh b.fresh);
      good = All-append P a.fresh b.fresh a.good b.good;
    }

    pub Extends-map :
        {Q : Publishing Body → Type 0} (w w' : World r j q)
        → ((p : Publishing Body) → P p → Q p)
        → Extends P w w'
        → Extends Q w w'
    Extends-map {Q = Q} w w' f e = record {
      fresh = e.fresh;
      published = e.published;
      counted = e.counted;
      good = All-map P Q f e.fresh e.good;
    }

  -- The two ways of one turn of the loop: the link is skipped, or it is unknown to the filter and goes to
  -- `InsertMessage`.
  pub queue_link_cases :
      (P : World r j q → Type 0) (depth max_depth : ℤ) (url : String) (w : World r j q)
      → P (record w { store = (check_url_duplicate r url w.store).1 })
      → ((check_url_duplicate r url w.store).0 ≡ ok false
          → P
              (insert_message r j q url (add64 depth (pos 1)) max_depth (record w {
                store = (add_to_bloom r url (check_url_duplicate r url w.store).1).1;
              })).1)
      → P (queue_link r j q depth max_depth url w)
  unfolding queue_link
  queue_link_cases P depth max_depth url w skip insert =
      elim (Result-cases (check_url_duplicate r url w.store).0) [
        | inl (true, e) ↦ rw (e, queue_link) skip
        | inl (false, e) ↦ rw (e, queue_link) (insert e)
        | inr (x, e) ↦ rw (e, queue_link) skip
      ]

  pub insert-Extends :
      (P : Publishing Body → Type 0) (m : CrawlMessage) (w : World r j q)
      → ((body : Body) → marshal_message m ≡ some body → P (to_hashing r j q m.url body))
      → Extends P w (insert_message r j q m.url m.current_depth m.max_depth w).1
  insert-Extends P m w p = elim (insert_message_outcome r j q m w) [
    | inl (_, queued) ↦ record {
      fresh = to_hashing r j q m.url queued.body ∷ [];
      published = queued.published;
      counted = omega (arith, queued.counted);
      good = (p queued.body queued.encodes, tt);
    }
    | inr (_, _, unqueued) ↦ Extends-same w _ unqueued.published unqueued.counted
  ]
