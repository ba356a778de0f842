-- ===== src/Worker/Robots/Tests.antt =====
-- The theorems on robots.txt at concrete inputs.
use distributed_web_crawler.Worker.Robots.Cache.{is_allowed-get_crawl_delay, is_allowed_repeats}
use distributed_web_crawler.Services.MemoryWeb.{robots_txt}
use distributed_web_crawler.Worker.Robots.Policy.{check_host-Follows, Follows}
use distributed_web_crawler.Worker.Robots.{check_host, get_crawl_delay, is_allowed, robots_request}
use distributed_web_crawler.Base.{pos, delete, Bool, insert, none, true, ◌≡◌, refl, ok, lookup}
use distributed_web_crawler.Worker.Samples.{site, front, rules, fresh}

allowed : (is_allowed site "http://a.org/" fresh).0 ≡ ok true
unfolding is_allowed lookup
allowed = refl

answers_again :
    is_allowed site "http://a.org/" (is_allowed site "http://a.org/" fresh).1
    ≡ (ok true, (is_allowed site "http://a.org/" fresh).1)
answers_again = is_allowed_repeats site "http://a.org/" fresh true allowed

delayed : (get_crawl_delay site "http://a.org/secret" fresh).0 ≡ ok (pos 7_000_000_000)
unfolding get_crawl_delay is_allowed lookup insert delete
delayed = refl

allowed_after_delay :
    let c' = (get_crawl_delay site "http://a.org/secret" fresh).1 in
    (b : Bool) × (is_allowed site "http://a.org/secret" c' ≡ (ok b, c'))
allowed_after_delay =
    is_allowed-get_crawl_delay site "http://a.org/secret" fresh (pos 7_000_000_000) delayed

missed : lookup "a.org" fresh.cache ≡ none
unfolding lookup
missed = refl

replied :
    (site.send (robots_request site fresh.user_agent front) fresh.net).0
    ≡ ok (200, robots_txt rules)
unfolding lookup
replied = refl

rules_followed : Follows site 200 (robots_txt rules) front fresh (check_host site front fresh)
rules_followed = check_host-Follows site front fresh 200 (robots_txt rules) missed refl replied
