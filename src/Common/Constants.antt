-- ===== src/Common/Constants.antt =====
-- common/constants.go
use distributed_web_crawler.Base.{String, List, [], ◌∷◌}

abbrev pub consistent_hashing_exchange : String
consistent_hashing_exchange = "consistent_hashing"

abbrev pub result_exchange : String
result_exchange = "result_exchange"

abbrev pub result_queue : String
result_queue = "result_queue"

abbrev pub result_routing_key : String
result_routing_key = "result"

abbrev pub queues : List String
queues = "queue_1" ∷ "queue_2" ∷ "queue_3" ∷ []
