-- ===== src/Worker/Robots.antt =====
-- worker/internal/robots/robots.go: the checker of robots.txt and its cache. Callers take turns; two
-- that miss the cache at once, and both fetch, are two calls of which the second stores the same host.
pub mod Cache
pub mod Policy
pub mod Tests
use Prim.Native.String
use distributed_web_crawler.Base.{
  [], ℕ, String, Bool, true, false, Option, none, some, Result, ok, err, ℤ, pos, leb, ltb, ◌==◌,
  ◌&&◌, str_eq, if◌then◌else◌, Dict, lookup, insert, ◌++◌,
}
use distributed_web_crawler.Services.Web.{Web, Request}

-- Why no answer is given.
pub data RobotsError : Type 0 where
  not_parsed empty_host bad_request not_fetched server_error unexpected_status : RobotsError

module _ (web : Web) where
  open web use {Net, Url, Group, Body, parse, host, path, scheme, test, crawl_delay}

  -- The user agent, `cache`, in which nil is `none`, and the network.
  pub record RobotChecker : Type 0 where
    pub user_agent : String
    pub cache : Dict (Option Group)
    pub net : Net

  unfoldable pub new_robot_checker : Net → RobotChecker
  new_robot_checker net = record { user_agent = "*"; cache = []; net = net }

  abbrev pub robots_request : String → Url → Request
  robots_request user_agent u = record {
    url = String.◌++◌ (scheme u) (String.◌++◌ "://" (String.◌++◌ (host u) "/robots.txt"));
    user_agent = user_agent;
    accept = "";
  }

  abbrev pub parsed_group : String → Option web.Robots → Option Group
  parsed_group user_agent none = none
  parsed_group user_agent (some robots) = some (web.find_group user_agent robots)

  -- The `switch` on the status of the reply.
  unfoldable pub group_of : String → ℕ → Body → Result RobotsError (Option Group)
  group_of user_agent status body =
      if status == 404
      then ok none
      else (if leb 400 status && ltb status 500
          then ok none
          else (if leb 500 status
              then err server_error
              else (if status == 200
                  then ok (parsed_group user_agent (web.from_response body))
                  else err unexpected_status)))

  unfoldable pub fetch_group : Url → RobotChecker → Result RobotsError (Option Group) × RobotChecker
  unfolding group_of
  fetch_group u c =
      if web.is_request (robots_request c.user_agent u).url
      then (let (reply, net) = web.send (robots_request c.user_agent u) c.net in
          (
            elim reply [
              | ok response ↦ group_of c.user_agent response.0 response.1
              | err e ↦ err not_fetched
            ],
            record c { net = net },
          ))
      else (err bad_request, c)

  abbrev pub verdict : Option Group → String → Bool
  verdict none p = true
  verdict (some g) p = test g p

  unfoldable pub check_host : Url → RobotChecker → Result RobotsError Bool × RobotChecker
  unfolding fetch_group
  check_host u c = elim (lookup (host u) c.cache) [
    | some group ↦ (ok (verdict group (path u)), c)
    | none ↦
        let (fetched, c') = fetch_group u c in
        elim fetched [
          | ok group ↦
              (ok (verdict group (path u)), record c' { cache = insert (host u) group c'.cache })
          | err e ↦ (err e, c')
        ]
  ]

  unfoldable pub is_allowed : String → RobotChecker → Result RobotsError Bool × RobotChecker
  unfolding check_host
  is_allowed target_url c = elim (parse target_url) [
    | none ↦ (err not_parsed, c)
    | some u ↦ if str_eq (host u) "" then (err empty_host, c) else check_host u c
  ]

  abbrev pub delay_of : Option Group → ℤ
  delay_of none = pos 0
  delay_of (some g) = crawl_delay g

  -- A read of a Go map: a missing key gives nil.
  abbrev pub or_nil : Option (Option Group) → Option Group
  or_nil none = none
  or_nil (some g) = g

  unfoldable pub delay_for : String → Url → RobotChecker → Result RobotsError ℤ × RobotChecker
  unfolding is_allowed
  delay_for target_url u c = elim (lookup (host u) c.cache) [
    | some group ↦ (ok (delay_of group), c)
    | none ↦
        let (allowed, c') = is_allowed target_url c in
        elim allowed [
          | ok b ↦ (ok (delay_of (or_nil (lookup (host u) c'.cache))), c')
          | err e ↦ (err e, c')
        ]
  ]

  unfoldable pub get_crawl_delay : String → RobotChecker → Result RobotsError ℤ × RobotChecker
  unfolding delay_for
  get_crawl_delay target_url c = elim (parse target_url) [
    | none ↦ (err not_parsed, c)
    | some u ↦ if str_eq (host u) "" then (err empty_host, c) else delay_for target_url u c
  ]
