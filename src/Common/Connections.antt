-- ===== src/Common/Connections.antt =====
-- common/common.go: opening, replacing, checking and closing the connections. Errors of closing are only
-- logged there. A `Connections` that `ConnectAll` returned has none of its fields nil.
pub mod Opening
pub mod Closing
pub mod Monitor
pub mod Tests
use distributed_web_crawler.Base.{
  Bool, true, false, Option, none, some, Result, ok, err, if◌then◌else◌,
}
use distributed_web_crawler.Services.Clients.{Clients}

pub data ConnectError : Type 0 where
  no_mongo no_mongo_ping no_redis no_rabbit no_channel : ConnectError

module _ (cl : Clients) where
  open cl use {State, Handle}

  pub record RabbitMqConn : Type 0 where
    pub conn : Handle
    pub channel : Handle

  pub record Connections : Type 0 where
    pub mongo_client : Handle
    pub redis_client : Handle
    pub rabbit_mq : RabbitMqConn

  abbrev pub Connected : Type 0
  Connected = Result ConnectError Connections × State

  unfoldable pub connect_channel : Handle → Handle → Handle → State → Connected
  connect_channel mongo_client redis_client conn s =
      let (channel, s') = cl.open_channel conn s in
      elim channel [
        | none ↦ (
          err no_channel,
          cl.close_conn conn (cl.close_redis redis_client (cl.disconnect_mongo mongo_client s')),
        )
        | some h ↦ (
          ok (record {
            mongo_client = mongo_client;
            redis_client = redis_client;
            rabbit_mq = record { conn = conn; channel = h };
          }),
          s',
        )
      ]

  unfoldable pub connect_rabbit : Handle → Handle → State → Connected
  unfolding connect_channel
  connect_rabbit mongo_client redis_client s =
      let (conn, s') = cl.dial s in
      elim conn [
        | none ↦ (err no_rabbit, cl.close_redis redis_client (cl.disconnect_mongo mongo_client s'))
        | some h ↦ connect_channel mongo_client redis_client h s'
      ]

  unfoldable pub connect_redis : Handle → State → Connected
  unfolding connect_rabbit
  connect_redis mongo_client s =
      let (redis_client, s') = cl.new_redis s in
      let (alive, s'') = cl.ping_redis redis_client s' in
      if alive
      then connect_rabbit mongo_client redis_client s''
      else (err no_redis, cl.disconnect_mongo mongo_client s'')

  unfoldable pub check_mongo : Handle → State → Connected
  unfolding connect_redis
  check_mongo mongo_client s =
      let (alive, s') = cl.ping_mongo mongo_client s in
      if alive then connect_redis mongo_client s' else (err no_mongo_ping, s')

  unfoldable pub connect_all : State → Connected
  unfolding check_mongo
  connect_all s =
      let (mongo_client, s') = cl.connect_mongo s in
      elim mongo_client [ none ↦ (err no_mongo, s') | some h ↦ check_mongo h s' ]

  unfoldable pub replace_channel : Connections → Handle → State → Connected
  replace_channel c conn s =
      let (channel, s') = cl.open_channel conn s in
      elim channel [
        | none ↦ (err no_channel, cl.close_conn conn s')
        | some h ↦ (
          ok (record c { rabbit_mq = record { conn = conn; channel = h } }),
          cl.close_conn c.rabbit_mq.conn (cl.close_channel c.rabbit_mq.channel s'),
        )
      ]

  -- The connections that hold afterwards; after an error they are the old ones.
  unfoldable pub reconnect_rabbit_mq : Connections → State → Connected
  unfolding replace_channel
  reconnect_rabbit_mq c s =
      let (conn, s') = cl.dial s in
      elim conn [ none ↦ (err no_rabbit, s') | some h ↦ replace_channel c h s' ]

  unfoldable pub ping : Connections → State → Bool × State
  ping c s =
      let (redis_alive, s') = cl.ping_redis c.redis_client s in
      if redis_alive then cl.ping_mongo c.mongo_client s' else (false, s')

  unfoldable pub close : Connections → State → State
  close c s = cl.close_conn c.rabbit_mq.conn (
      cl.close_channel c.rabbit_mq.channel
        (cl.close_redis c.redis_client (cl.disconnect_mongo c.mongo_client s)))
