-- ===== src/Common/Connections/Monitor.antt =====
-- common/common.go: `StartConnectionMonitor`, which replaces a RabbitMQ connection that was closed. The loop
-- of attempts has no bound of its own: here it is run for a number of attempts, and `done` says whether it
-- was left. A `Connections` that `ConnectAll` returned has no nil for the first test to find.
pub mod Leaks
pub mod Retries
pub mod Tests
use distributed_web_crawler.Base.{
  ℕ, zero, suc, Bool, true, false, Option, none, some, List, [], ◌∷◌, ok, err, if◌then◌else◌,
}
use distributed_web_crawler.Services.Clients.{Clients}
use distributed_web_crawler.Common.Connections.{Connections, reconnect_rabbit_mq}

module _ (cl : Clients) where
  open cl use {State, Handle}

  -- `postReconnect` on the new channel; false is an error.
  abbrev pub Hook : Type 0
  Hook = Handle → State → Bool × State

  pub record Round : Type 0 where
    pub done : Bool
    pub connections : Connections cl
    pub state : State

  unfoldable pub run_hook : Option Hook → Connections cl → State → Round
  run_hook none c s = record { done = true; connections = c; state = s }
  run_hook (some post_reconnect) c s =
      let (works, s') = post_reconnect c.rabbit_mq.channel s in
      record { done = works; connections = c; state = s' }

  -- One turn of the reconnection loop.
  unfoldable pub attempt : Option Hook → Connections cl → State → Round
  unfolding run_hook
  attempt post_reconnect c s =
      let (result, s') = reconnect_rabbit_mq cl c s in
      elim result [
        | ok c' ↦ run_hook post_reconnect c' s'
        | err e ↦ record { done = false; connections = c; state = s' }
      ]

  unfoldable pub reconnect_loop : ℕ → Option Hook → Connections cl → State → Round
  unfolding attempt
  reconnect_loop zero post_reconnect c s = record { done = false; connections = c; state = s }
  reconnect_loop (suc n) post_reconnect c s =
      let t = attempt post_reconnect c s in
      let rest = reconnect_loop n post_reconnect t.connections t.state in if t.done then t else rest

  -- The monitor's own loop: each time the connection is closed, whatever `await` makes of the state until
  -- then, it attempts to reconnect, up to the number of times given. A loop that is not left in these ends
  -- the run.
  unfoldable pub monitor :
      List ℕ → (Connections cl → State → State) → Option Hook → Connections cl → State → Round
  unfolding reconnect_loop
  monitor [] await post_reconnect c s = record { done = true; connections = c; state = s }
  monitor (n ∷ ns) await post_reconnect c s =
      let t = reconnect_loop n post_reconnect c (await c s) in
      let rest = monitor ns await post_reconnect t.connections t.state in if t.done then rest else t
