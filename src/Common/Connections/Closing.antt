-- ===== src/Common/Connections/Closing.antt =====
-- common/common.go: what a failed `ConnectAll` or `ReconnectRabbitMQ`, and `Close`, leave open.
use distributed_web_crawler.Base.{
  arith, ◌∙◌, sym, Bool-cases, Option-cases, ◌≢◌, ◌≡◌, refl, err, true, false, some, inl, inr,
}
use distributed_web_crawler.Services.Clients.{Clients}
use distributed_web_crawler.Common.Connections.{
  replace_channel, reconnect_rabbit_mq, Connections, ConnectError, no_mongo_ping, no_redis,
  connect_all, check_mongo, connect_redis, connect_rabbit, connect_channel, close,
}
use distributed_web_crawler.Common.Connections.Opening.{Opens-other}

module _ (cl : Clients) where
  open cl use {State, Handle, is_open}

  -- What is open afterwards was so before.
  abbrev pub NothingNew : State → State → Type 0
  NothingNew s s' = (x : Handle) → is_open x s' ≡ true → is_open x s ≡ true

  connect_channel-err :
      (mc rc conn : Handle) (s : State) (e : ConnectError) (x : Handle)
      → (connect_channel cl mc rc conn s).0 ≡ err e
      → is_open x (connect_channel cl mc rc conn s).1 ≡ true
      → (x ≢ mc) × (x ≢ rc) × (x ≢ conn) × (is_open x s ≡ true)
  unfolding connect_channel
  connect_channel-err mc rc conn s e x h still = elim (Option-cases (cl.open_channel conn s).0) [
    | inl n ↦
        let s₁ = (cl.open_channel conn s).1 in
        let s₂ = cl.disconnect_mongo mc s₁ in
        let s₃ = cl.close_redis rc s₂ in
        let (a, open₃) = cl.close_conn_closes conn s₃ x (rw (n, connect_channel) at still) in
        let (b, open₂) = cl.close_redis_closes rc s₂ x open₃ in
        let (c, open₁) = cl.disconnect_mongo_closes mc s₁ x open₂ in
        (c, b, a, sym (cl.open_channel_none conn s x n) ∙ open₁)
    | inr (ch, n) ↦ ground arith
  ]

  connect_rabbit-err :
      (mc rc : Handle) (s : State) (e : ConnectError) (x : Handle)
      → (connect_rabbit cl mc rc s).0 ≡ err e
      → is_open x (connect_rabbit cl mc rc s).1 ≡ true
      → (x ≢ mc) × (x ≢ rc) × (is_open x s ≡ true)
  unfolding connect_rabbit
  connect_rabbit-err mc rc s e x h still = elim (Option-cases (cl.dial s).0) [
    | inl n ↦
        let s₁ = (cl.dial s).1 in
        let s₂ = cl.disconnect_mongo mc s₁ in
        let (b, open₂) = cl.close_redis_closes rc s₂ x (rw (n, connect_rabbit) at still) in
        let (c, open₁) = cl.disconnect_mongo_closes mc s₁ x open₂ in
        (c, b, sym (cl.dial_none s x n) ∙ open₁)
    | inr (conn, n) ↦
        let (c, b, a, open₁) =
          connect_channel-err mc rc conn (cl.dial s).1 e x (rw (n, connect_rabbit) at h)
            (rw (n, connect_rabbit) at still) in
        (c, b, sym ((cl.dial_opens s conn n).2 x a) ∙ open₁)
  ]

  connect_redis-err :
      (mc : Handle) (s : State) (e : ConnectError) (x : Handle)
      → (connect_redis cl mc s).0 ≡ err e
      → e ≢ no_redis
      → is_open x (connect_redis cl mc s).1 ≡ true
      → (x ≢ mc) × (is_open x s ≡ true)
  unfolding connect_redis
  connect_redis-err mc s e x h ne still =
      let made = cl.new_redis s in
      elim (Bool-cases (cl.ping_redis made.0 made.1).0) [
        | inl alive ↦
            let (c, b, open₁) =
              connect_rabbit-err mc made.0 (cl.ping_redis made.0 made.1).1 e x
                (rw (alive, connect_redis) at h) (rw (alive, connect_redis) at still) in
            (
              c,
              sym ((cl.new_redis_opens s).2 x b)
                  ∙ sym (cl.ping_redis_keeps made.0 x made.1)
                  ∙ open₁,
            )
        | inr dead ↦ absurd (ne (cc (rw (dead, connect_redis) at h)))
      ]

  -- A ConnectAll that fails, but for a failed ping of MongoDB or Redis, leaves nothing open that it
  -- opened.
  pub connect_all-NothingNew :
      (s : State) (e : ConnectError)
      → (connect_all cl s).0 ≡ err e
      → e ≢ no_mongo_ping
      → e ≢ no_redis
      → NothingNew s (connect_all cl s).1
  unfolding connect_all check_mongo
  connect_all-NothingNew s e h m r x still = elim (Option-cases (cl.connect_mongo s).0) [
    | inl n ↦ sym (cl.connect_mongo_none s x n) ∙ (rw (n, connect_all) at still)
    | inr (mc, n) ↦
        let s' = (cl.connect_mongo s).1 in
        elim (Bool-cases (cl.ping_mongo mc s').0) [
          | inl alive ↦
              let (c, open₁) =
                connect_redis-err mc (cl.ping_mongo mc s').1 e x
                  (rw (n, connect_all, alive, check_mongo) at h) r
                  (rw (n, connect_all, alive, check_mongo) at still) in
              sym ((cl.connect_mongo_opens s mc n).2 x c)
              ∙ sym (cl.ping_mongo_keeps mc x s')
              ∙ open₁
          | inr dead ↦ absurd (m (cc (rw (n, connect_all, dead, check_mongo) at h)))
        ]
  ]

  -- If MongoDB answers and the first ping of Redis fails, the Redis client that was opened for it
  -- stays open, although no connections are returned.
  pub connect_all_leaks :
      (s : State) (mc : Handle)
      → (cl.connect_mongo s).0 ≡ some mc
      → let s₁ = (cl.connect_mongo s).1 in
        let s₂ = (cl.ping_mongo mc s₁).1 in
        let rc = (cl.new_redis s₂).0 in
        (cl.ping_mongo mc s₁).0 ≡ true
        → (cl.ping_redis rc (cl.new_redis s₂).1).0 ≡ false
        → ((connect_all cl s).0 ≡ err no_redis)
          × (is_open rc s ≡ false)
          × (is_open rc (connect_all cl s).1 ≡ true)
  unfolding connect_all check_mongo connect_redis
  connect_all_leaks s mc n alive dead =
      let s₁ = (cl.connect_mongo s).1 in
      let s₂ = (cl.ping_mongo mc s₁).1 in
      let rc = (cl.new_redis s₂).0 in
      let s₃ = (cl.new_redis s₂).1 in
      let o = cl.connect_mongo_opens s mc n in
      let n' = cl.new_redis_opens s₂ in
      let other : mc ≢ rc = Opens-other cl rc mc s₂ s₃ n' (cl.ping_mongo_keeps mc mc s₁ ∙ o.1) in
      rw (n, connect_all, alive, check_mongo, dead, connect_redis)
        (
          refl,
          sym (o.2 rc (λ e. other (sym e))) ∙ sym (cl.ping_mongo_keeps mc rc s₁) ∙ n'.0,
          cl.disconnect_mongo_keeps mc rc (cl.ping_redis rc s₃).1 (λ e. other (sym e))
              (cl.ping_redis_keeps rc rc s₃ ∙ n'.1),
        )

  -- A `ReconnectRabbitMQ` that fails leaves nothing open that it opened.
  pub reconnect_rabbit_mq-err :
      (c : Connections cl) (s : State) (e : ConnectError)
      → (reconnect_rabbit_mq cl c s).0 ≡ err e
      → NothingNew s (reconnect_rabbit_mq cl c s).1
  unfolding reconnect_rabbit_mq replace_channel
  reconnect_rabbit_mq-err c s e h x still = elim (Option-cases (cl.dial s).0) [
    | inl n ↦ sym (cl.dial_none s x n) ∙ (rw (n, reconnect_rabbit_mq) at still)
    | inr (conn, n) ↦
        let s₁ = (cl.dial s).1 in
        elim (Option-cases (cl.open_channel conn s₁).0) [
          | inl k ↦
              let (a, open₁) =
                cl.close_conn_closes conn (cl.open_channel conn s₁).1 x
                  (rw (n, reconnect_rabbit_mq, k, replace_channel) at still) in
              sym ((cl.dial_opens s conn n).2 x a) ∙ sym (cl.open_channel_none conn s₁ x k) ∙ open₁
          | inr (ch, k) ↦ absurd (fails ch k n)
        ]
  ]
    where
      fails :
          {conn : Handle} (ch : Handle)
          → (cl.open_channel conn (cl.dial s).1).0 ≡ some ch
          → (cl.dial s).0 ≡ some conn
          → ⊥
      fails ch k n = cc (rw (n, reconnect_rabbit_mq, k, replace_channel) at h)

  -- After `Close` none of the four handles is open, and nothing was opened.
  pub close-closes :
      (c : Connections cl) (s : State) (x : Handle)
      → is_open x (close cl c s) ≡ true
      → (x ≢ c.mongo_client)
        × (x ≢ c.redis_client)
        × (x ≢ c.rabbit_mq.conn)
        × (x ≢ c.rabbit_mq.channel)
        × (is_open x s ≡ true)
  unfolding close
  close-closes c s x still =
      let s₁ = cl.disconnect_mongo c.mongo_client s in
      let s₂ = cl.close_redis c.redis_client s₁ in
      let s₃ = cl.close_channel c.rabbit_mq.channel s₂ in
      let (k, open₃) = cl.close_conn_closes c.rabbit_mq.conn s₃ x still in
      let (h, open₂) = cl.close_channel_closes c.rabbit_mq.channel s₂ x open₃ in
      let (r, open₁) = cl.close_redis_closes c.redis_client s₁ x open₂ in
      let (m, open₀) = cl.disconnect_mongo_closes c.mongo_client s x open₁ in (m, r, k, h, open₀)
