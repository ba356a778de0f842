-- ===== src/Common/Connections/Monitor/Leaks.antt =====
-- common/common.go: what `StartConnectionMonitor` leaves open.
use distributed_web_crawler.Base.{
  subst, Bool-cases, Option-cases, Result-cases, ◌≢◌, ◌≡◌, ◌∙◌, sym, ℕ, zero, suc, true, Option,
  none, some, List, [], ◌∷◌, ok, inl, inr,
}
use distributed_web_crawler.Services.Clients.{Clients}
use distributed_web_crawler.Common.Connections.{Connections, reconnect_rabbit_mq, replace_channel}
use distributed_web_crawler.Common.Connections.Closing.{reconnect_rabbit_mq-err, NothingNew}
use distributed_web_crawler.Common.Connections.Monitor.{
  Hook, run_hook, attempt, reconnect_loop, monitor,
}

module _ (cl : Clients) where
  open cl use {State, Handle, is_open}

  -- A handle other than those of the RabbitMQ connection.
  abbrev pub Outside : Connections cl → Handle → Type 0
  Outside c x = (x ≢ c.rabbit_mq.conn) × (x ≢ c.rabbit_mq.channel)

  -- Nothing but the connection that is held was opened, and the one that was held is closed or held still.
  abbrev pub Leakless : Connections cl → State → Connections cl → State → Type 0
  Leakless c s c' s' =
      (x : Handle) → is_open x s' ≡ true → Outside c' x → Outside c x × (is_open x s ≡ true)

  Leakless-trans :
      (c : Connections cl) (s : State) (c' : Connections cl) (s' : State) (c'' : Connections cl)
      (s'' : State)
      → Leakless c s c' s'
      → Leakless c' s' c'' s''
      → Leakless c s c'' s''
  Leakless-trans c s c' s' c'' s'' a b x still out =
      let (out', still') = b x still out in a x still' out'

  pub reconnect-ok :
      (c c' : Connections cl) (s : State)
      → (reconnect_rabbit_mq cl c s).0 ≡ ok c'
      → Leakless c s c' (reconnect_rabbit_mq cl c s).1
  unfolding reconnect_rabbit_mq replace_channel
  reconnect-ok c c' s h x still out = elim (Option-cases (cl.dial s).0) [
    | inl n ↦ absurd (cc (rw (n, reconnect_rabbit_mq) at h))
    | inr (conn, n) ↦
        let s₁ = (cl.dial s).1 in
        let s₂ = (cl.open_channel conn s₁).1 in
        elim (Option-cases (cl.open_channel conn s₁).0) [
          | inl k ↦ absurd (cc (rw (n, reconnect_rabbit_mq, k, replace_channel) at h))
          | inr (ch, k) ↦
              let made : Connections cl = record c {
                rabbit_mq = record { conn = conn; channel = ch };
              } in
              let same : c' ≡ made = cc (rw (n, reconnect_rabbit_mq, k, replace_channel) at h) in
              let out' : Outside made x = subst (λ d. Outside d x) same out in
              let s₃ = cl.close_channel c.rabbit_mq.channel s₂ in
              let (a, open₃) =
                cl.close_conn_closes c.rabbit_mq.conn s₃ x
                  (rw (n, reconnect_rabbit_mq, k, replace_channel) at still) in
              let (b, open₂) = cl.close_channel_closes c.rabbit_mq.channel s₂ x open₃ in
              (
                (a, b),
                sym ((cl.dial_opens s conn n).2 x out'.0)
                    ∙ sym ((cl.open_channel_opens conn s₁ ch k).2 x out'.1)
                    ∙ open₂,
              )
        ]
  ]

  -- The hook opens nothing; a hook that is not there does not.
  abbrev pub HookKeeps : Option (Hook cl) → Type 0
  HookKeeps none = Unit
  HookKeeps (some post_reconnect) =
      (h : Handle) (s : State) → NothingNew cl s (post_reconnect h s).1

  run_hook-Leakless :
      (hook : Option (Hook cl)) (c : Connections cl) (s : State)
      → HookKeeps hook
      → Leakless c s (run_hook cl hook c s).connections (run_hook cl hook c s).state
  unfolding run_hook
  run_hook-Leakless none c s keeps x still out = (out, still)
  run_hook-Leakless (some post_reconnect) c s keeps x still out =
      (out, keeps c.rabbit_mq.channel s x still)

  attempt-Leakless :
      (hook : Option (Hook cl)) (c : Connections cl) (s : State)
      → HookKeeps hook
      → Leakless c s (attempt cl hook c s).connections (attempt cl hook c s).state
  unfolding attempt
  attempt-Leakless hook c s keeps = elim (Result-cases (reconnect_rabbit_mq cl c s).0) [
    | inl (c', e) ↦
        let s' = (reconnect_rabbit_mq cl c s).1 in
        rw (e, attempt)
          (Leakless-trans c s c' s' (run_hook cl hook c' s').connections
            (run_hook cl hook c' s').state (reconnect-ok c c' s e)
            (run_hook-Leakless hook c' s' keeps))
    | inr (x, e) ↦
        rw (e, attempt) (λ y still out. (out, reconnect_rabbit_mq-err cl c s x e y still))
  ]

  pub reconnect_loop-Leakless :
      (n : ℕ) (hook : Option (Hook cl)) (c : Connections cl) (s : State)
      → HookKeeps hook
      → let t = reconnect_loop cl n hook c s in Leakless c s t.connections t.state
  unfolding reconnect_loop
  reconnect_loop-Leakless zero hook c s keeps = λ x still out. (out, still)
  reconnect_loop-Leakless (suc n) hook c s keeps =
      let t = attempt cl hook c s in
      let first = attempt-Leakless hook c s keeps in
      elim (Bool-cases t.done) [
        | inl left ↦ rw (left, reconnect_loop) first
        | inr again ↦
            rw (again, reconnect_loop)
              (Leakless-trans c s t.connections t.state
                (reconnect_loop cl n hook t.connections t.state).connections
                (reconnect_loop cl n hook t.connections t.state).state first
                (reconnect_loop-Leakless n hook t.connections t.state keeps))
      ]

  -- However often the RabbitMQ connection is lost, however many attempts fail, and whatever a hook
  -- that opens nothing returns: of all that the connection monitor opened only the connection that it
  -- holds, with its channel, is open afterwards, and the one that it held before is not, unless it
  -- holds it still.
  pub monitor-Leakless :
      (ns : List ℕ) (await : Connections cl → State → State) (hook : Option (Hook cl))
      (c : Connections cl) (s : State)
      → HookKeeps hook
      → ((d : Connections cl) (s' : State) → NothingNew cl s' (await d s'))
      → let t = monitor cl ns await hook c s in Leakless c s t.connections t.state
  unfolding monitor
  monitor-Leakless [] await hook c s keeps waits = λ x still out. (out, still)
  monitor-Leakless (n ∷ ns) await hook c s keeps waits =
      let t = reconnect_loop cl n hook c (await c s) in
      let first =
        Leakless-trans c s c (await c s) t.connections t.state
          (λ x still out. (out, waits c s x still))
          (reconnect_loop-Leakless n hook c (await c s) keeps) in
      elim (Bool-cases t.done) [
        | inl left ↦
            rw (left, monitor)
              (let rest = monitor cl ns await hook t.connections t.state in
                Leakless-trans c s t.connections t.state rest.connections rest.state first
                  (monitor-Leakless ns await hook t.connections t.state keeps waits))
        | inr trying ↦ rw (trying, monitor) first
      ]
