-- ===== src/Services/MemoryWeb.antt =====
-- A small web in memory, for tests: the URLs that parse are those of a table, and a reply is looked up.
use distributed_web_crawler.Base.{
  if◌then◌else◌, ℕ, String, Bool, true, false, not, Option, none, some, List, [], ◌∷◌, Result, ok,
  err, ℤ, Dict, lookup, ◌||◌, str_eq,
}
use distributed_web_crawler.Services.Web.{Web, Request, WebError, unreachable}

pub record Address : Type 0 where
  pub scheme : String
  pub host : String
  pub path : String
  pub text : String

pub record Rules : Type 0 where
  pub disallowed : List String
  pub delay : ℤ

pub data Content : Type 0 where
  robots_txt : Rules → Content
  html : String → List (Option String) → Content
  malformed : Content

-- The replies, by URL, and the requests that were sent, the last one first.
pub record Net : Type 0 where
  pub replies : Dict (ℕ × Content)
  pub requests : List Request

abbrev answer : Option (ℕ × Content) → Result WebError (ℕ × Content)
answer none = err unreachable
answer (some r) = ok r

abbrev pub exchange : Request → Net → Result WebError (ℕ × Content) × Net
exchange req net =
    (answer (lookup req.url net.replies), record net { requests = req ∷ net.requests })

abbrev rules_of : Content → Option Rules
rules_of (robots_txt g) = some g
rules_of (html t links) = none
rules_of malformed = none

abbrev document_of : Content → Option Content
document_of (robots_txt g) = none
document_of (html t links) = some (html t links)
document_of malformed = none

abbrev text_of : Content → Option String
text_of (robots_txt g) = none
text_of (html t links) = some t
text_of malformed = none

abbrev links_of : Content → List (Option String)
links_of (robots_txt g) = []
links_of (html t links) = links
links_of malformed = []

abbrev listed : String → List String → Bool
listed p [] = false
listed p (x ∷ xs) = str_eq x p || listed p xs

abbrev normal : String → Option String
normal s = if str_eq s "" then none else some s

module _ (known : Dict Address) where
  abbrev pub memory_web : Web
  memory_web = record {
    Net = Net;
    Url = Address;
    parse = λ s. lookup s known;
    print = λ u. u.text;
    scheme = λ u. u.scheme;
    host = λ u. u.host;
    path = λ u. u.path;
    resolve = λ base u. u;
    normalize = normal;
    is_request = λ s. true;
    Body = Content;
    send = exchange;
    Robots = Rules;
    Group = Rules;
    from_response = rules_of;
    find_group = λ agent g. g;
    test = λ g p. not (listed p g.disallowed);
    crawl_delay = λ g. g.delay;
    Document = Content;
    read_document = document_of;
    outer_html = text_of;
    hrefs = links_of;
  }
