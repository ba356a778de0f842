-- ===== src/Common/Connections/Monitor/Retries.antt =====
-- common/common.go: when the loop of attempts in `StartConnectionMonitor` is left.
use distributed_web_crawler.Base.{
  false≢true, ◌<◌, Bool-cases, Result-cases, ◌≡◌, ◌∙◌, refl, arith, ℕ, zero, suc, true, false,
  Option, none, some, ok, inl, inr,
}
use distributed_web_crawler.Services.Clients.{Clients}
use distributed_web_crawler.Common.Connections.{Connections, reconnect_rabbit_mq, replace_channel}
use distributed_web_crawler.Common.Connections.Monitor.{
  Hook, Round, run_hook, attempt, reconnect_loop,
}

module _ (cl : Clients) where
  open cl use {State, Handle}

  -- When the first n attempts to reconnect fail and the next one works, the loop is left with it,
  -- whatever number of attempts beyond n it might have made.
  pub reconnect_loop-ends :
      (n m : ℕ) (hook : Option (Hook cl)) (c : Connections cl) (s : State)
      → n < m
      → let t = reconnect_loop cl n hook c s in
        let u = attempt cl hook t.connections t.state in
        t.done ≡ false → u.done ≡ true → reconnect_loop cl m hook c s ≡ u
  unfolding reconnect_loop
  reconnect_loop-ends n zero hook c s less trying works = ground arith
  reconnect_loop-ends zero (suc m) hook c s less trying works =
      let works' : (attempt cl hook c s).done ≡ true = works in rw (works', reconnect_loop) refl
  reconnect_loop-ends (suc n) (suc m) hook c s less trying works =
      let t = attempt cl hook c s in
      elim (Bool-cases t.done) [
        | inl left ↦ absurd (cc (rw (left, reconnect_loop) at trying, left))
        | inr again ↦
            rw (again, reconnect_loop)
              (reconnect_loop-ends n m hook t.connections t.state (omega arith)
                (rw (again, reconnect_loop) at trying) (rw (again, reconnect_loop) at works))
      ]

  -- What a hook that returns no error promises of the state.
  abbrev pub Promises : Option (Hook cl) → (State → Type 0) → Type 0
  Promises none P = (s : State) → P s
  Promises (some post_reconnect) P =
      (h : Handle) (s : State) → (post_reconnect h s).0 ≡ true → P (post_reconnect h s).1

  -- The clients of MongoDB and Redis are the ones from before.
  abbrev pub SameClients : Connections cl → Connections cl → Type 0
  SameClients c c' = (c'.mongo_client ≡ c.mongo_client) × (c'.redis_client ≡ c.redis_client)

  reconnect-SameClients :
      (c c' : Connections cl) (s : State)
      → (reconnect_rabbit_mq cl c s).0 ≡ ok c'
      → SameClients c c'
  unfolding reconnect_rabbit_mq replace_channel
  reconnect-SameClients c c' s h = ground arith

  -- What an attempt comes to.
  abbrev pub Comes : (State → Type 0) → Connections cl → Round cl → Type 0
  Comes P c t = SameClients c t.connections × (t.done ≡ true → P t.state)

  run_hook-Comes :
      (P : State → Type 0) (hook : Option (Hook cl)) (c c' : Connections cl) (s : State)
      → Promises hook P
      → SameClients c c'
      → Comes P c (run_hook cl hook c' s)
  unfolding run_hook
  run_hook-Comes P none c c' s promises same = (same, λ h. promises s)
  run_hook-Comes P (some post_reconnect) c c' s promises same =
      (same, promises c'.rabbit_mq.channel s)

  module _ (P : State → Type 0) (hook : Option (Hook cl)) (promises : Promises hook P) where
    attempt-Comes : (c : Connections cl) (s : State) → Comes P c (attempt cl hook c s)
    unfolding attempt
    attempt-Comes c s = elim (Result-cases (reconnect_rabbit_mq cl c s).0) [
      | inl (c', e) ↦
          rw (e, attempt)
            (run_hook-Comes P hook c c' (reconnect_rabbit_mq cl c s).1 promises
              (reconnect-SameClients c c' s e))
      | inr (x, e) ↦ rw (e, attempt) ((refl, refl), λ h. absurd (false≢true h))
    ]

    -- Whatever the attempts come to, the clients of MongoDB and Redis stay; and once the loop is left, what
    -- the hook promises holds.
    pub reconnect_loop-Comes :
        (n : ℕ) (c : Connections cl) (s : State) → Comes P c (reconnect_loop cl n hook c s)
    unfolding reconnect_loop
    reconnect_loop-Comes zero c s = ((refl, refl), λ h. absurd (false≢true h))
    reconnect_loop-Comes (suc n) c s =
        let t = attempt cl hook c s in
        let first = attempt-Comes c s in
        let rest = reconnect_loop-Comes n t.connections t.state in
        elim (Bool-cases t.done) [
          | inl left ↦ rw (left, reconnect_loop) first
          | inr again ↦
              rw (again, reconnect_loop) ((rest.0.0 ∙ first.0.0, rest.0.1 ∙ first.0.1), rest.1)
        ]
