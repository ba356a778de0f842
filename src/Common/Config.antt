-- ===== src/Common/Config.antt =====
-- common/config.go: the fields of the configuration. What viper reads from the file and the environment is
-- a parameter.
use distributed_web_crawler.Base.{ℕ, String, ℤ, pos, mul64}
use distributed_web_crawler.Common.Float32.{Float32, of_length, one_minus, times, truncate}

pub record Config : Type 0 where
  pub mongo_uri : String
  pub redis_addr : String
  pub redis_password : String
  pub redis_db : ℤ
  pub rabbitmq_uri : String
  pub queue_name : String
  pub drop_next_url_rate : Float32
  pub time_delay : ℤ
  pub job_ttl : ℤ
  pub default_politeness_delay : ℤ

-- `time.Hour` and `time.Millisecond`
abbrev pub hour : ℤ
hour = pos 3_600_000_000_000

abbrev pub millisecond : ℤ
millisecond = pos 1_000_000

-- `time.Duration(common.AppConfig.JobTTL) * time.Hour`
unfoldable pub ttl_of : Config → ℤ
ttl_of c = mul64 c.job_ttl hour

-- `int(float32(n) * (1.00 - common.AppConfig.DropNextUrlRate))`, of the number of a page's links
unfoldable pub drop_limit : Config → ℕ → ℤ
unfolding of_length one_minus times truncate
drop_limit c n = truncate (times (of_length n) (one_minus c.drop_next_url_rate))
