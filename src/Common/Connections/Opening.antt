-- ===== src/Common/Connections/Opening.antt =====
-- common/common.go: what `ConnectAll` opens.
use distributed_web_crawler.Base.{
  subst, arith, Bool-cases, Option-cases, ◌∙◌, ◌≢◌, ◌≡◌, ok, true, inl, inr,
}
use distributed_web_crawler.Services.Clients.{Clients, Opens}
use distributed_web_crawler.Common.Connections.{
  Connections, connect_all, check_mongo, connect_redis, connect_rabbit, connect_channel,
}

module _ (cl : Clients) where
  open cl use {State, Handle, is_open}

  -- The handles of a `Connections` are open.
  pub record AllOpen (c : Connections cl) (s : State) : Type 0 where
    pub mongo : is_open c.mongo_client s ≡ true
    pub redis : is_open c.redis_client s ≡ true
    pub conn : is_open c.rabbit_mq.conn s ≡ true
    pub channel : is_open c.rabbit_mq.channel s ≡ true

  -- A handle that is open is another one than one that is opened, and stays open.
  pub Opens-other :
      (h x : Handle) (s s' : State) → Opens is_open h s s' → is_open x s ≡ true → x ≢ h
  Opens-other h x s s' o e p = cc (o.0, e, p)

  pub Opens-stays :
      (h x : Handle) (s s' : State)
      → Opens is_open h s s'
      → is_open x s ≡ true
      → is_open x s' ≡ true
  Opens-stays h x s s' o e = o.2 x (Opens-other h x s s' o e) ∙ e

  module _ (mc rc : Handle) (c : Connections cl) where
    connect_channel-ok :
        (conn : Handle) (s : State)
        → is_open mc s ≡ true
        → is_open rc s ≡ true
        → is_open conn s ≡ true
        → (connect_channel cl mc rc conn s).0 ≡ ok c
        → AllOpen c (connect_channel cl mc rc conn s).1
    unfolding connect_channel
    connect_channel-ok conn s m r k h = elim (Option-cases (cl.open_channel conn s).0) [
      | inl e ↦ ground arith
      | inr (ch, e) ↦
          let o = cl.open_channel_opens conn s ch e in
          let s' = (cl.open_channel conn s).1 in
          let made : Connections cl = record {
            mongo_client = mc;
            redis_client = rc;
            rabbit_mq = record { conn = conn; channel = ch };
          } in
          let same : made ≡ c = cc (rw (e, connect_channel) at h) in
          rw (e, connect_channel)
            (subst (λ d. AllOpen d s') same
              (record {
                mongo = Opens-stays ch mc s s' o m;
                redis = Opens-stays ch rc s s' o r;
                conn = Opens-stays ch conn s s' o k;
                channel = o.1;
              }))
    ]

    connect_rabbit-ok :
        (s : State)
        → is_open mc s ≡ true
        → is_open rc s ≡ true
        → (connect_rabbit cl mc rc s).0 ≡ ok c
        → AllOpen c (connect_rabbit cl mc rc s).1
    unfolding connect_rabbit
    connect_rabbit-ok s m r h = elim (Option-cases (cl.dial s).0) [
      | inl e ↦ ground arith
      | inr (conn, e) ↦
          let o = cl.dial_opens s conn e in
          let s' = (cl.dial s).1 in
          rw (e, connect_rabbit)
            (connect_channel-ok conn s' (Opens-stays conn mc s s' o m)
              (Opens-stays conn rc s s' o r) o.1 (rw (e, connect_rabbit) at h))
    ]

  connect_redis-ok :
      (mc : Handle) (c : Connections cl) (s : State)
      → is_open mc s ≡ true
      → (connect_redis cl mc s).0 ≡ ok c
      → AllOpen c (connect_redis cl mc s).1
  unfolding connect_redis
  connect_redis-ok mc c s m h =
      let (rc, s') = cl.new_redis s in
      let o = cl.new_redis_opens s in
      let pinged = cl.ping_redis rc s' in
      elim (Bool-cases pinged.0) [
        | inl alive ↦
            rw (alive, connect_redis)
              (connect_rabbit-ok mc rc c pinged.1
                (cl.ping_redis_keeps rc mc s' ∙ Opens-stays rc mc s s' o m)
                (cl.ping_redis_keeps rc rc s' ∙ o.1) (rw (alive, connect_redis) at h))
        | inr dead ↦ ground arith
      ]

  -- If ConnectAll returns connections, the MongoDB client, the Redis client, and the RabbitMQ
  -- connection with its channel are all open.
  pub connect_all-AllOpen :
      (s : State) (c : Connections cl)
      → (connect_all cl s).0 ≡ ok c
      → AllOpen c (connect_all cl s).1
  unfolding connect_all check_mongo
  connect_all-AllOpen s c h = elim (Option-cases (cl.connect_mongo s).0) [
    | inl e ↦ ground arith
    | inr (mc, e) ↦
        let o = cl.connect_mongo_opens s mc e in
        let s' = (cl.connect_mongo s).1 in
        elim (Bool-cases (cl.ping_mongo mc s').0) [
          | inl alive ↦
              rw (e, connect_all, alive, check_mongo)
                (connect_redis-ok mc c (cl.ping_mongo mc s').1 (cl.ping_mongo_keeps mc mc s' ∙ o.1)
                  (rw (e, connect_all, alive, check_mongo) at h))
          | inr dead ↦ ground arith
        ]
  ]
