-- ===== src/Common/Connections/Monitor/Tests.antt =====
-- The connection monitor with a hook that fails on the first channels.
use distributed_web_crawler.Base.{
  ◌≤◌, length, true, false, ℕ, List, Option, some, leb, ◌≡◌, refl, [], ◌∷◌, arith,
}
use distributed_web_crawler.Common.Connections.{Connections, reconnect_rabbit_mq}
use distributed_web_crawler.Common.Connections.Tests.{all_up, made}
use distributed_web_crawler.Services.MemoryClients.{without, without-Closes}
use distributed_web_crawler.Common.Connections.Monitor.{
  Hook, Round, attempt, reconnect_loop, monitor,
}
use distributed_web_crawler.Common.Connections.Monitor.Leaks.{Leakless, monitor-Leakless}
use distributed_web_crawler.Common.Connections.Monitor.Retries.{
  Comes, Promises, reconnect_loop-ends, reconnect_loop-Comes,
}

abbrev picky : Option (Hook all_up)
picky = some (λ h s. (leb 60 h, s))

abbrev five_open : List ℕ
five_open = 9 ∷ 7 ∷ 3 ∷ 1 ∷ 0 ∷ []

abbrev trying : Round all_up
trying = reconnect_loop all_up 1 picky made five_open

first_fails : trying.done ≡ false
unfolding reconnect_loop attempt reconnect_rabbit_mq
first_fails = refl

then_works : (attempt all_up picky trying.connections trying.state).done ≡ true
unfolding reconnect_loop attempt reconnect_rabbit_mq
then_works = refl

reconnects :
    reconnect_loop all_up 10 picky made five_open
    ≡ attempt all_up picky trying.connections trying.state
reconnects =
    reconnect_loop-ends all_up 1 10 picky made five_open (omega arith) first_fails then_works

abbrev Big : List ℕ → Type 0
Big s = 4 ≤ length s

promises : Promises all_up (some (λ h s. (leb 4 (length s), s))) Big
promises h s e = ground arith

keeps_promise :
    Comes all_up Big made
      (reconnect_loop all_up 3 (some (λ h s. (leb 4 (length s), s))) made five_open)
keeps_promise =
    reconnect_loop-Comes all_up Big (some (λ h s. (leb 4 (length s), s))) promises 3 made five_open

-- The connection is closed from outside, twice.
abbrev lose : Connections all_up → List ℕ → List ℕ
lose c s = without c.rabbit_mq.conn s

monitor-Leakless_example :
    let t = monitor all_up (4 ∷ 2 ∷ []) lose picky made five_open in
    Leakless all_up made five_open t.connections t.state
monitor-Leakless_example =
    monitor-Leakless all_up (4 ∷ 2 ∷ []) lose picky made five_open (λ h s x e. e)
      λ d s x e. (without-Closes d.rabbit_mq.conn s x e).1
