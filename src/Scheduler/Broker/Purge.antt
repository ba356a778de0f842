-- ===== src/Scheduler/Broker/Purge.antt =====
-- scheduler/internal/broker/broker.go: what `PurgeQueues` leaves in the queues.
use distributed_web_crawler.Common.Constants.{result_queue, queues}
use distributed_web_crawler.Scheduler.Broker.{purge_all, purge_queues}
use distributed_web_crawler.Base.{
  ◌∙◌, false≢true, sym, eq_iff, subst, str_eq, ◌++◌, Bool-cases, next-ok, All, List, ℕ, String, ok,
  inl, inr, ◌≡◌, [], ◌∷◌,
}
use distributed_web_crawler.Services.Redis.{Redis}
use distributed_web_crawler.Services.Json.{Json}
use distributed_web_crawler.Services.Rabbit.{Rabbit}

module _ (r : Redis) (j : Json) (q : Rabbit j.Body) where
  open q use {State, purge, waiting}

  stays_empty :
      (k name : String) (s : State) (n : ℕ)
      → waiting k s ≡ 0
      → (purge name s).0 ≡ ok n
      → waiting k (purge name s).1 ≡ 0
  stays_empty k name s n e h = elim (Bool-cases (str_eq name k)) [
    | inl same ↦
        subst (λ x. waiting x (purge name s).1 ≡ 0) ((eq_iff name k).0 same) (q.purge_ok name s n h)
    | inr other ↦ q.purge_other name k s (λ p. false≢true (sym other ∙ (eq_iff name k).1 p)) ∙ e
  ]

  purge_all-keeps :
      (names : List String) (k : String) (s : State)
      → waiting k s ≡ 0
      → (purge_all r j q names s).0 ≡ ok tt
      → waiting k (purge_all r j q names s).1 ≡ 0
  unfolding purge_all
  purge_all-keeps [] k s e h = e
  purge_all-keeps (name ∷ names) k s e h =
      let (n, first, rest, same) = next-ok (purge name s) (purge_all r j q names) h in
      subst (λ t. waiting k t ≡ 0) (sym same)
        (purge_all-keeps names k (purge name s).1 (stays_empty k name s n e first) rest)

  purge_all-empties :
      (names : List String) (s : State)
      → (purge_all r j q names s).0 ≡ ok tt
      → All (λ k. waiting k (purge_all r j q names s).1 ≡ 0) names
  unfolding purge_all
  purge_all-empties [] s h = tt
  purge_all-empties (name ∷ names) s h =
      let (n, first, rest, same) = next-ok (purge name s) (purge_all r j q names) h in
      subst (λ t. All (λ k. waiting k t ≡ 0) (name ∷ names)) (sym same)
        (
          purge_all-keeps names name (purge name s).1 (q.purge_ok name s n first) rest,
          purge_all-empties names (purge name s).1 rest,
        )

  -- If `PurgeQueues` returns no error, no message waits in any of the work queues or the result queue.
  pub purge_queues-empties :
      (s : State)
      → (purge_queues r j q s).0 ≡ ok tt
      → All (λ k. waiting k (purge_queues r j q s).1 ≡ 0) (queues ++ result_queue ∷ [])
  unfolding purge_queues
  purge_queues-empties s h =
      let (_, first, rest, same) =
        next-ok (purge_all r j q queues s) (purge_all r j q (result_queue ∷ [])) h in
      let s' = (purge_all r j q queues s).1 in
      let work = purge_all-empties queues s first in
      let keep = λ (k : String). purge_all-keeps (result_queue ∷ []) k s' in
      subst (λ t. All (λ k. waiting k t ≡ 0) (queues ++ result_queue ∷ [])) (sym same)
        (
          keep "queue_1" work.0 rest,
          (
            keep "queue_2" work.1.0 rest,
            (keep "queue_3" work.1.1.0 rest, purge_all-empties (result_queue ∷ []) s' rest),
          ),
        )
