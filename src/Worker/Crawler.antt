-- ===== src/Worker/Crawler.antt =====
-- worker/internal/crawler/crawler.go: `CrawlUrl`, and the links of a page. The two HTTP clients, the
-- checker's and the crawler's own, send to the same network, which the checker's record holds.
pub mod Metrics
pub mod Pages
pub mod Polite
pub mod Tests
use distributed_web_crawler.Base.{
  ℕ, String, Bool, true, false, Option, none, some, List, [], ◌∷◌, Result, ok, err, ℤ, pos, ltb_ℤ,
  mul64, if◌then◌else◌,
}
use distributed_web_crawler.Common.Config.{Config, millisecond}
use distributed_web_crawler.Common.Models.{UrlData}
use distributed_web_crawler.Services.Web.{Web, Request}
use distributed_web_crawler.Worker.Politeness.{PolitenessManager, new_politeness_manager, enforce}
use distributed_web_crawler.Worker.Robots.{
  RobotChecker, RobotsError, new_robot_checker, is_allowed, get_crawl_delay,
}

-- Why a page is not crawled. The page that `CrawlUrl` returns beside an error is not read.
pub data CrawlError : Type 0 where
  not_parsed not_normalized not_waited not_checked disallowed bad_request not_sent not_read :
      CrawlError

-- `if err != nil || delay <= 0 { delay = default }`
abbrev pub chosen_delay : Config → Result RobotsError ℤ → ℤ
chosen_delay c (ok delay) =
    if ltb_ℤ (pos 0) delay then delay else mul64 c.default_politeness_delay millisecond
chosen_delay c (err e) = mul64 c.default_politeness_delay millisecond

module _ (web : Web) where
  open web use {Net, Url, Body, parse, print, host, resolve, normalize}

  pub record Crawler : Type 0 where
    pub robot_check : RobotChecker web
    pub politeness : PolitenessManager

  unfoldable pub new_crawler : Net → Crawler
  unfolding new_robot_checker new_politeness_manager
  new_crawler net = record {
    robot_check = new_robot_checker web net;
    politeness = new_politeness_manager;
  }

  abbrev pub page_request : String → Request
  page_request url = record {
    url = url;
    user_agent = "Mozilla/5.0 (Windows NT 10.0; Win64; x64)...";
    accept = "application/json";
  }

  -- The `Each` over the links: one without `href`, or whose `href` does not parse or normalize, is skipped.
  unfoldable pub link_of : Url → Option String → Option String
  link_of base none = none
  link_of base (some href) = elim (parse href) [
    | none ↦ none
    | some parsed_href ↦ normalize (print (resolve base parsed_href))
  ]

  unfoldable pub next_urls : Url → List (Option String) → List String
  unfolding link_of
  next_urls base [] = []
  next_urls base (item ∷ items) =
      let rest = next_urls base items in
      elim (link_of base item) [ none ↦ rest | some href ↦ href ∷ rest ]

  unfoldable pub read_page : Url → String → ℤ → Body → Result CrawlError UrlData
  unfolding next_urls
  read_page base url depth body = elim (web.read_document body) [
    | none ↦ err not_read
    | some document ↦ elim (web.outer_html document) [
      | none ↦ err not_read
      | some raw_html ↦ ok (record {
        url = url;
        raw_html = raw_html;
        next_urls = next_urls base (web.hrefs document);
        has_robots = false;
        depth = depth;
      })
    ]
  ]

  -- The status of the reply is not looked at.
  unfoldable pub fetch_page : Url → String → ℤ → Crawler → Result CrawlError UrlData × Crawler
  unfolding read_page
  fetch_page base url depth c =
      if web.is_request url
      then (let (reply, net) = web.send (page_request url) c.robot_check.net in
          (
            elim reply [ ok response ↦ read_page base url depth response.1 | err e ↦ err not_sent ],
            record c { robot_check = record c.robot_check { net = net } },
          ))
      else (err bad_request, c)

  unfoldable pub check_page : Url → String → ℤ → Crawler → Result CrawlError UrlData × Crawler
  unfolding fetch_page
  check_page base url depth c =
      let (allowed, rc) = is_allowed web url c.robot_check in
      let c₁ : Crawler = record c { robot_check = rc } in
      elim allowed [
        | ok b ↦ if b then fetch_page base url depth c₁ else (err disallowed, c₁)
        | err e ↦ (err not_checked, c₁)
      ]

  -- `now` is the time at which `Enforce` takes its lock; its context is never done.
  unfoldable pub wait_and_check :
      Config → ℕ → Url → String → ℤ → Crawler → Result CrawlError UrlData × Crawler
  unfolding check_page
  wait_and_check conf now base url depth c =
      let (delay, rc) = get_crawl_delay web url c.robot_check in
      let (waited, pm) = enforce false c.politeness (host base) (chosen_delay conf delay) now in
      let c₁ : Crawler = record { robot_check = rc; politeness = pm } in
      elim waited [ ok _ ↦ check_page base url depth c₁ | err e ↦ (err not_waited, c₁) ]

  unfoldable pub crawl_url : Config → ℕ → String → ℤ → Crawler → Result CrawlError UrlData × Crawler
  unfolding wait_and_check
  crawl_url conf now raw_url depth c = elim (parse raw_url) [
    | none ↦ (err not_parsed, c)
    | some parsed_url ↦ elim (normalize (print parsed_url)) [
      | none ↦ (err not_normalized, c)
      | some url ↦ wait_and_check conf now parsed_url url depth c
    ]
  ]
