-- ===== src/Services/Json.antt =====
-- encoding/json on the two messages. A body that does not decode gives `none`. The HTML of a page may be in any
-- encoding; URLs are taken to be valid UTF-8, as `NormalizeURL` and a decoded message give them.
use distributed_web_crawler.Base.{ℕ, String, ◌≡◌, Option, some}
use distributed_web_crawler.Common.Models.{CrawlMessage, UrlData}

pub record Json : Type 1 where
  pub Body : Type 0
  pub marshal_message : CrawlMessage → Option Body
  pub unmarshal_message : Body → Option CrawlMessage
  pub marshal_data : UrlData → Option Body
  pub unmarshal_data : Body → Option UrlData
  -- How far the capacity of the decoded `NextUrls` goes past its length.
  pub spare : Body → ℕ
  -- What a text is after its way through JSON: bytes that are not valid UTF-8 become U+FFFD.
  pub as_utf8 : String → String
  pub message_roundtrip :
      (m : CrawlMessage) (b : Body) → marshal_message m ≡ some b → unmarshal_message b ≡ some m
  pub data_roundtrip :
      (d : UrlData) (b : Body)
      → marshal_data d ≡ some b
      → unmarshal_data b ≡ some (record d { raw_html = as_utf8 d.raw_html })

-- A page as it is decoded from its report.
abbrev pub received : Json → UrlData → UrlData
received j d = record d { raw_html = j.as_utf8 d.raw_html }
