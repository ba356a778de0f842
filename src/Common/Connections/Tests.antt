-- ===== src/Common/Connections/Tests.antt =====
-- The theorems on connections at concrete inputs.
use distributed_web_crawler.Common.Connections.Closing.{
  close-closes, connect_all_leaks, connect_all-NothingNew, NothingNew,
}
use distributed_web_crawler.Common.Connections.Opening.{connect_all-AllOpen, AllOpen}
use distributed_web_crawler.Common.Connections.{
  close, no_channel, no_redis, Connections, connect_all,
}
use distributed_web_crawler.Services.Clients.{Clients}
use distributed_web_crawler.Base.{true, List, ℕ, ◌≡◌, [], ◌∷◌, ◌≢◌, refl, ok, err, false, str_eq}
use distributed_web_crawler.Services.MemoryClients.{clients}

abbrev pub all_up : Clients
all_up = clients (λ name. false)

abbrev no_channels : Clients
no_channels = clients (str_eq "channel")

abbrev no_redis_ping : Clients
no_redis_ping = clients (str_eq "ping redis")

abbrev pub made : Connections all_up
made = record { mongo_client = 0; redis_client = 1; rabbit_mq = record { conn = 3; channel = 7 } }

connects : (connect_all all_up []).0 ≡ ok made
unfolding connect_all
connects = refl

all_open : AllOpen all_up made (connect_all all_up []).1
all_open = connect_all-AllOpen all_up [] made connects

fails : (connect_all no_channels (5 ∷ [])).0 ≡ err no_channel
unfolding connect_all
fails = refl

connect_all-NothingNew_example :
    NothingNew no_channels (5 ∷ []) (connect_all no_channels (5 ∷ [])).1
connect_all-NothingNew_example =
    connect_all-NothingNew no_channels (5 ∷ []) no_channel fails (λ e. cc e) (λ e. cc e)

leaks_redis : (connect_all no_redis_ping []).0 ≡ err no_redis
leaks_redis = (connect_all_leaks no_redis_ping [] 0 refl refl refl).0

abbrev nine : ℕ
nine = 9

abbrev five_open : List ℕ
five_open = 9 ∷ 7 ∷ 3 ∷ 1 ∷ 0 ∷ []

survives : all_up.is_open nine (close all_up made five_open) ≡ true
unfolding close
survives = refl

not_mongo : nine ≢ made.mongo_client
not_mongo = (close-closes all_up made five_open nine survives).0
