-- ===== src/Worker/Robots/Policy.antt =====
-- worker/internal/robots/robots.go: the statuses of robots.txt.
use distributed_web_crawler.Base.{
  ◌≢◌, is_ok, Bool, arith, ◌<◌, ◌≡◌, Result, lookup, ◌≤◌, ℕ, ok, true, false, none,
}
use distributed_web_crawler.Services.Web.{Web}
use distributed_web_crawler.Worker.Robots.{
  RobotsError, RobotChecker, check_host, fetch_group, group_of, robots_request, parsed_group,
  verdict,
}

module _ (web : Web) where
  open web use {Url, Group, Body, parse, host, path}

  -- The answers to a reply: everything is allowed, the rules decide, or there is no answer and nothing
  -- is remembered.
  pub record Follows (status : ℕ) (body : Body) (u : Url) (c : RobotChecker web)
      (a : Result RobotsError Bool × RobotChecker web) : Type 0 where
    pub no_rules : 400 ≤ status → status < 500 → a.0 ≡ ok true
    pub rules :
        status ≡ 200
        → a.0 ≡ ok (verdict web (parsed_group web c.user_agent (web.from_response body)) (path u))
    pub broken : 500 ≤ status → (is_ok a.0 ≡ false) × (a.1.cache ≡ c.cache)
    pub odd : status < 400 → status ≢ 200 → (is_ok a.0 ≡ false) × (a.1.cache ≡ c.cache)

  -- For a host that is not in the cache and whose robots.txt was replied to: a status of 400 to 499
  -- allows the page; 200 lets the rules for the checker's agent decide, and allows it if they do not parse;
  -- any other status is an error, and the cache stays as it is.
  pub check_host-Follows :
      (u : Url) (c : RobotChecker web) (status : ℕ) (body : Body)
      → lookup (host u) c.cache ≡ none
      → web.is_request (robots_request web c.user_agent u).url ≡ true
      → (web.send (robots_request web c.user_agent u) c.net).0 ≡ ok (status, body)
      → Follows status body u c (check_host web u c)
  unfolding check_host fetch_group group_of
  check_host-Follows u c status body missed good replied =
      rw (missed, check_host, good, replied)
        (record {
          no_rules = λ l h. ground arith;
          rules = λ e. ground arith;
          broken = λ l. ground arith;
          odd = λ l ne. ground arith;
        })
