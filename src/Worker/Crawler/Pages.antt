-- ===== src/Worker/Crawler/Pages.antt =====
-- worker/internal/crawler/crawler.go: the pages that `CrawlUrl` returns.
use distributed_web_crawler.Worker.Robots.{get_crawl_delay, is_allowed}
use distributed_web_crawler.Worker.Politeness.{PolitenessManager, enforce}
use distributed_web_crawler.Common.Config.{Config}
use distributed_web_crawler.Common.Models.{UrlData}
use distributed_web_crawler.Base.{
  Result-cases, Bool-cases, ℕ, subst, [], ◌∷◌, inr, inl, Option-cases, arith, ◌∷◌, All, ℤ, ◌≡◌,
  List, Option, String, refl, ok, err, true, false, none, some,
}
use distributed_web_crawler.Services.Web.{Web}
use distributed_web_crawler.Worker.Crawler.{
  chosen_delay, disallowed, page_request, Crawler, crawl_url, wait_and_check, check_page,
  fetch_page, read_page, next_urls, link_of,
}

module _ (web : Web) where
  open web use {Url, parse, print, normalize}

  -- The result of a normalization.
  pub record IsNormal (url : String) : Type 0 where
    pub source : String
    pub normal : normalize source ≡ some url

  -- A page, at the depth it was asked for, whose address and links are all normalized.
  pub record IsPage (raw_url : String) (depth : ℤ) (page : UrlData) : Type 0 where
    pub base : Url
    pub parses : parse raw_url ≡ some base
    pub url : normalize (print base) ≡ some page.url
    pub at_depth : page.depth ≡ depth
    pub without_robots : page.has_robots ≡ false
    pub links : All IsNormal page.next_urls

  link_of-IsNormal :
      (base : Url) (item : Option String) (u : String) → link_of web base item ≡ some u → IsNormal u
  unfolding link_of
  link_of-IsNormal base none u h = ground arith
  link_of-IsNormal base (some href) u h = elim (Option-cases (parse href)) [
    | inl e ↦ ground arith
    | inr (p, e) ↦ record { source = print (web.resolve base p); normal = rw (e, link_of) at h }
  ]

  next_urls-IsNormal :
      (base : Url) (items : List (Option String)) → All IsNormal (next_urls web base items)
  unfolding next_urls
  next_urls-IsNormal base [] = tt
  next_urls-IsNormal base (item ∷ items) = elim (Option-cases (link_of web base item)) [
    | inl e ↦ rw (e, next_urls) (next_urls-IsNormal base items)
    | inr (u, e) ↦ rw (e, next_urls) (link_of-IsNormal base item u e, next_urls-IsNormal base items)
  ]

  record IsRead (url : String) (depth : ℤ) (page : UrlData) : Type 0 where
    address : page.url ≡ url
    at_depth : page.depth ≡ depth
    without_robots : page.has_robots ≡ false
    links : All IsNormal page.next_urls

  module _ (base : Url) (url : String) (depth : ℤ) (page : UrlData) where
    read_page-IsRead :
        (body : web.Body) → read_page web base url depth body ≡ ok page → IsRead url depth page
    unfolding read_page
    read_page-IsRead body h = elim (Option-cases (web.read_document body)) [
      | inl e ↦ ground arith
      | inr (d, e) ↦ elim (Option-cases (web.outer_html d)) [
        | inl n ↦ ground arith
        | inr (raw, n) ↦
            let made : UrlData = record {
              url = url;
              raw_html = raw;
              next_urls = next_urls web base (web.hrefs d);
              has_robots = false;
              depth = depth;
            } in
            let same : made ≡ page = cc (rw (e, read_page, n) at h) in
            subst (IsRead url depth) same (record {
              address = refl;
              at_depth = refl;
              without_robots = refl;
              links = next_urls-IsNormal base (web.hrefs d);
            })
      ]
    ]

    fetch_page-IsRead :
        (c : Crawler web) → (fetch_page web base url depth c).0 ≡ ok page → IsRead url depth page
    unfolding fetch_page
    fetch_page-IsRead c h = elim (Bool-cases (web.is_request url)) [
      | inl good ↦ elim (Result-cases (web.send (page_request web url) c.robot_check.net).0) [
        | inl ((status, body), e) ↦ read_page-IsRead body (rw (good, fetch_page, e) at h)
        | inr (x, e) ↦ ground arith
      ]
      | inr bad ↦ ground arith
    ]

    check_page-IsRead :
        (c : Crawler web)
        → (check_page web base url depth c).0 ≡ ok page
        → IsRead url depth page × ((is_allowed web url c.robot_check).0 ≡ ok true)
    unfolding check_page
    check_page-IsRead c h = elim (Result-cases (is_allowed web url c.robot_check).0) [
      | inl (true, e) ↦ (fetch_page-IsRead _ (rw (e, check_page) at h), e)
      | inl (false, e) ↦ ground arith
      | inr (x, e) ↦ ground arith
    ]

    wait_and_check-IsRead :
        (conf : Config) (now : ℕ) (c : Crawler web)
        → (wait_and_check web conf now base url depth c).0 ≡ ok page
        → IsRead url depth page
          × ((is_allowed web url (get_crawl_delay web url c.robot_check).1).0 ≡ ok true)
    unfolding wait_and_check
    wait_and_check-IsRead conf now c h =
        let delay = chosen_delay conf (get_crawl_delay web url c.robot_check).0 in
        elim (Result-cases (enforce false c.politeness (web.host base) delay now).0) [
          | inl (_, e) ↦ check_page-IsRead _ (rw (e, wait_and_check) at h)
          | inr (x, e) ↦ ground arith
        ]

  -- What CrawlUrl returns without an error is a page at the given depth, under its normalized address,
  -- with normalized links only; and the checker, as it was after the crawl delay was asked for,
  -- allowed it.
  pub crawl_url-IsPage :
      (conf : Config) (now : ℕ) (raw_url : String) (depth : ℤ) (c : Crawler web) (page : UrlData)
      → (crawl_url web conf now raw_url depth c).0 ≡ ok page
      → IsPage raw_url depth page
        × ((is_allowed web page.url (get_crawl_delay web page.url c.robot_check).1).0 ≡ ok true)
  unfolding crawl_url
  crawl_url-IsPage conf now raw_url depth c page h = elim (Option-cases (parse raw_url)) [
    | inl e ↦ ground arith
    | inr (base, e) ↦ elim (Option-cases (normalize (print base))) [
      | inl n ↦ ground arith
      | inr (url, n) ↦
          let (i, allowed) =
            wait_and_check-IsRead base url depth page conf now c (rw (e, crawl_url, n) at h) in
          (
            record {
              base = base;
              parses = e;
              url = rw i.address n;
              at_depth = i.at_depth;
              without_robots = i.without_robots;
              links = i.links;
            },
            rw i.address allowed,
          )
    ]
  ]

  -- With a context that is never done the wait for the slot does not fail.
  waits :
      (pm : PolitenessManager) (name : String) (delay : ℤ) (now : ℕ)
      → (enforce false pm name delay now).0 ≡ ok tt
  unfolding enforce
  waits pm name delay now = ground arith

  -- A URL that parses and normalizes, and that robots.txt disallows, is refused, and nothing is sent
  -- after the checker's answer.
  pub crawl_url_disallowed :
      (conf : Config) (now : ℕ) (raw_url url : String) (base : Url) (depth : ℤ) (c : Crawler web)
      → parse raw_url ≡ some base
      → normalize (print base) ≡ some url
      → let rc = (get_crawl_delay web url c.robot_check).1 in
        (is_allowed web url rc).0 ≡ ok false
        → let (result, c') = crawl_url web conf now raw_url depth c in
          (result ≡ err disallowed) × (c'.robot_check ≡ (is_allowed web url rc).1)
  unfolding crawl_url wait_and_check check_page
  crawl_url_disallowed conf now raw_url url base depth c e n refused =
      let delay = chosen_delay conf (get_crawl_delay web url c.robot_check).0 in
      rw
        (
          e,
          crawl_url,
          n,
          waits c.politeness (web.host base) delay now,
          wait_and_check,
          refused,
          check_page,
        )
        (refl, refl)
