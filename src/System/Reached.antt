-- ===== src/System/Reached.antt =====
-- How a queued page was found: from a seed, over links of pages that workers reported.
use distributed_web_crawler.Base.{
  All, All-map, All-IsIn, IsIn, IsIn-append_left, IsIn-append_right, List, ◌++◌, ◌+ℤ◌, ◌≡◌, ◌⊎◌,
  ◌∙◌, ap, subst, pos, some, refl, inl, [], ◌∷◌,
}
use distributed_web_crawler.Common.Models.{CrawlMessage, UrlData}
use distributed_web_crawler.Services.Redis.{Redis}
use distributed_web_crawler.Services.Json.{Json, received}
use distributed_web_crawler.Services.Rabbit.{Rabbit, Publishing}
use distributed_web_crawler.Scheduler.Handlers.{CrawlRequest}
use distributed_web_crawler.Scheduler.Handlers.Crawl.{seed_message}
use distributed_web_crawler.System.Effects.{IsSeed, IsLinkOf}
use distributed_web_crawler.System.Pages.{IsReport}

module _ (r : Redis) (j : Json) (q : Rabbit j.Body) where
  -- The seed of a request, or a link of a page that a worker reported on a message which was found itself;
  -- the depth is the number of links on the way.
  pub data IsFound (requests : List CrawlRequest) (handled : List j.Body)
      : CrawlMessage → Type 0 where
    seed :
        (req : CrawlRequest) → IsIn req requests → IsFound requests handled (seed_message r j q req)
    link :
        (m parent : CrawlMessage) (page : UrlData) (body : j.Body)
        → IsFound requests handled parent
        → IsIn body handled
        → j.unmarshal_data body ≡ some page
        → page.url ≡ parent.url
        → page.depth ≡ parent.current_depth
        → IsIn m.url page.next_urls ⊎ (m.url ≡ "")
        → m.current_depth ≡ parent.current_depth +ℤ pos 1
        → IsFound requests handled m

  -- A publishing whose message was found.
  pub record IsTraced (requests : List CrawlRequest) (handled : List j.Body) (p : Publishing j.Body)
      : Type 0 where
    pub message : CrawlMessage
    pub encodes : j.marshal_message message ≡ some p.body
    pub found : IsFound requests handled message

  -- With more requests and more reports what was found stays so.
  module _ (requests more : List CrawlRequest) (handled later : List j.Body) where
    IsFound-append :
        (m : CrawlMessage)
        → IsFound requests handled m
        → IsFound (requests ++ more) (handled ++ later) m
    IsFound-append _ (seed req among) = seed req (IsIn-append_left req requests more among)
    IsFound-append _ (link m parent page body found among decodes url depth named deeper) =
        link m parent page body (IsFound-append parent found)
          (IsIn-append_left body handled later among) decodes url depth named deeper

    pub IsTraced-append :
        (ps : List (Publishing j.Body))
        → All (IsTraced requests handled) ps
        → All (IsTraced (requests ++ more) (handled ++ later)) ps
    IsTraced-append =
        All-map (IsTraced requests handled) (IsTraced (requests ++ more) (handled ++ later)) λ p t.
          record {
            message = t.message;
            encodes = t.encodes;
            found = IsFound-append t.message t.found;
          }

  pub IsTraced-seed :
      (requests : List CrawlRequest) (req : CrawlRequest) (handled : List j.Body)
      (ps : List (Publishing j.Body))
      → All (IsSeed r j q req) ps
      → All (IsTraced (requests ++ req ∷ []) handled) ps
  IsTraced-seed requests req handled =
      All-map (IsSeed r j q req) (IsTraced (requests ++ req ∷ []) handled) λ p s. record {
        message = seed_message r j q req;
        encodes = s;
        found = seed req (IsIn-append_right req requests (req ∷ []) (inl refl));
      }

  -- The links of a report, once it is handled.
  pub IsTraced-link :
      (requests : List CrawlRequest) (handled : List j.Body) (sent : List (Publishing j.Body))
      (body : j.Body) (i : IsReport r j q sent body) (ps : List (Publishing j.Body))
      → All (IsTraced requests (handled ++ body ∷ [])) sent
      → All (IsLinkOf r j q i.page) ps
      → All (IsTraced requests (handled ++ body ∷ [])) ps
  IsTraced-link requests handled sent body i ps traced =
      let handled' = handled ++ body ∷ [] in
      let parent =
        All-IsIn (IsTraced requests handled') i.asked.request sent traced i.asked.among in
      let same : parent.message ≡ i.asked.message = cc (
        j.message_roundtrip parent.message i.asked.request.body parent.encodes,
        j.message_roundtrip i.asked.message i.asked.request.body i.asked.question,
      ) in
      let found : IsFound requests handled' i.asked.message =
        subst (IsFound requests handled') same parent.found in
      All-map (IsLinkOf r j q i.page) (IsTraced requests handled')
        (λ p l. record {
          message = l.message;
          encodes = l.encodes;
          found =
              link l.message i.asked.message (received j i.page) body found
                (IsIn-append_right body handled (body ∷ []) (inl refl))
                (j.data_roundtrip i.page body i.encodes) i.asked.url i.asked.depth l.named
                (l.deeper ∙ ap (λ n. n +ℤ pos 1) i.asked.depth);
        })
        ps
