-- ===== src/Services/Clients.antt =====
-- The client libraries as far as common/common.go opens and closes them: which handles are open.
use distributed_web_crawler.Base.{◌≡◌, ◌≢◌, Bool, true, false, Option, none, some}

-- A handle that was not open is, and the others are as they were.
abbrev pub Opens : {S H : Type 0} → (H → S → Bool) → H → S → S → Type 0
Opens {H = H} is_open h s s' =
    (is_open h s ≡ false) × (is_open h s' ≡ true) × ((x : H) → x ≢ h → is_open x s' ≡ is_open x s)

-- The handle is not open, and what is open was so before.
abbrev pub Closes : {S H : Type 0} → (H → S → Bool) → H → S → S → Type 0
Closes {H = H} is_open h s s' = (x : H) → is_open x s' ≡ true → (x ≢ h) × (is_open x s ≡ true)

pub record Clients : Type 1 where
  pub State : Type 0
  pub Handle : Type 0
  pub is_open : Handle → State → Bool
  pub connect_mongo : State → Option Handle × State
  pub ping_mongo : Handle → State → Bool × State
  pub disconnect_mongo : Handle → State → State
  -- `redis.NewClient` does not fail.
  pub new_redis : State → Handle × State
  pub ping_redis : Handle → State → Bool × State
  pub close_redis : Handle → State → State
  pub dial : State → Option Handle × State
  pub open_channel : Handle → State → Option Handle × State
  pub close_channel : Handle → State → State
  pub close_conn : Handle → State → State
  pub ping_mongo_keeps : (h x : Handle) (s : State) → is_open x (ping_mongo h s).1 ≡ is_open x s
  pub ping_redis_keeps : (h x : Handle) (s : State) → is_open x (ping_redis h s).1 ≡ is_open x s
  pub connect_mongo_opens :
      (s : State) (h : Handle)
      → (connect_mongo s).0 ≡ some h
      → Opens is_open h s (connect_mongo s).1
  pub connect_mongo_none :
      (s : State) (x : Handle)
      → (connect_mongo s).0 ≡ none
      → is_open x (connect_mongo s).1 ≡ is_open x s
  pub new_redis_opens : (s : State) → Opens is_open (new_redis s).0 s (new_redis s).1
  pub dial_opens : (s : State) (h : Handle) → (dial s).0 ≡ some h → Opens is_open h s (dial s).1
  pub dial_none : (s : State) (x : Handle) → (dial s).0 ≡ none → is_open x (dial s).1 ≡ is_open x s
  pub open_channel_opens :
      (conn : Handle) (s : State) (h : Handle)
      → (open_channel conn s).0 ≡ some h
      → Opens is_open h s (open_channel conn s).1
  pub open_channel_none :
      (conn : Handle) (s : State) (x : Handle)
      → (open_channel conn s).0 ≡ none
      → is_open x (open_channel conn s).1 ≡ is_open x s
  pub disconnect_mongo_closes : (h : Handle) (s : State) → Closes is_open h s (disconnect_mongo h s)
  pub close_redis_closes : (h : Handle) (s : State) → Closes is_open h s (close_redis h s)
  pub close_channel_closes : (h : Handle) (s : State) → Closes is_open h s (close_channel h s)
  -- The channels of a connection are closed with it.
  pub close_conn_closes : (h : Handle) (s : State) → Closes is_open h s (close_conn h s)
  pub disconnect_mongo_keeps :
      (h x : Handle) (s : State)
      → x ≢ h
      → is_open x s ≡ true
      → is_open x (disconnect_mongo h s) ≡ true
