-- ===== src/Scheduler/Bloom.antt =====
-- scheduler/internal/bloom/bloom.go: the filter of the URLs that were queued.
use text.Mathlib.Text.{find?}
use distributed_web_crawler.Base.{
  ◌≡◌, ◌≢◌, String, Bool, true, false, none, some, Result, ok, err, if◌then◌else◌,
}
use distributed_web_crawler.Services.Redis.{Redis, RedisError}

abbrev pub bloom_filter_key : String
bloom_filter_key = "url_bloom"

-- `strings.Contains`
abbrev pub contains : String → String → Bool
contains text part = elim (find? text part) [ none ↦ false | some i ↦ true ]

module _ (r : Redis) where
  open r use {Store, bf_reserve, bf_exists, bf_add, value}

  unfoldable pub setup_bloom_filter : Store → Result String (Unit {0}) × Store
  setup_bloom_filter s =
      let (done, s') = bf_reserve bloom_filter_key s in
      (
        elim done [
          | ok _ ↦ ok tt
          | err message ↦ if contains message "item exists" then ok tt else err message
        ],
        s',
      )

  -- The Boolean beside an error is `false` in both.
  unfoldable pub check_url_duplicate : String → Store → Result RedisError Bool × Store
  check_url_duplicate url = bf_exists bloom_filter_key url

  unfoldable pub add_to_bloom : String → Store → Result RedisError Bool × Store
  add_to_bloom url = bf_add bloom_filter_key url

  -- Adding a URL to the filter leaves every other key.
  pub value-add_to_bloom :
      (k url : String) (s : Store)
      → bloom_filter_key ≢ k
      → value k (add_to_bloom url s).1 ≡ value k s
  unfolding add_to_bloom
  value-add_to_bloom k url s ne = r.bf_add_keeps bloom_filter_key url k s ne
