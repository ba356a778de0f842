-- ===== src/Scheduler/Broker/Topology.antt =====
-- scheduler/internal/broker/broker.go: what `SetupBroker` declares.
use distributed_web_crawler.Common.Constants.{queues, result_queue}
use distributed_web_crawler.Scheduler.Broker.{
  results, work_binding, hashing, result_binding, work_queue, bind_queues, setup_broker,
}
use distributed_web_crawler.Base.{
  ◌∙◌, sym, subst, All-map, next-ok, All, List, String, ok, true, ◌≡◌, [], ◌∷◌,
}
use distributed_web_crawler.Services.Redis.{Redis}
use distributed_web_crawler.Services.Json.{Json}
use distributed_web_crawler.Services.Rabbit.{Binding, Exchange, Queue, Rabbit}

module _ (r : Redis) (j : Json) (q : Rabbit j.Body) where
  open q use {
    State, declare_exchange, declare_queue, bind_queue, has_exchange, has_queue, has_binding,
  }

  -- A work queue, and its binding to the hashing exchange with weight one.
  abbrev pub IsBound : State → String → Type 0
  IsBound s name =
      (has_queue (work_queue r j q name) s ≡ true)
      × (has_binding (work_binding r j q name) s ≡ true)

  -- Everything that was there before is there after.
  record Grows (s t : State) : Type 0 where
    exchange : (x : Exchange) → has_exchange x s ≡ true → has_exchange x t ≡ true
    queue : (x : Queue) → has_queue x s ≡ true → has_queue x t ≡ true
    binding : (x : Binding) → has_binding x s ≡ true → has_binding x t ≡ true

  Grows-trans : (s t u : State) → Grows s t → Grows t u → Grows s u
  Grows-trans s t u a b = record {
    exchange = λ x h. b.exchange x (a.exchange x h);
    queue = λ x h. b.queue x (a.queue x h);
    binding = λ x h. b.binding x (a.binding x h);
  }

  -- Some values for the arguments that do not matter.
  abbrev a_queue : Queue
  a_queue = work_queue r j q result_queue

  abbrev an_exchange : Exchange
  an_exchange = hashing r j q

  abbrev a_binding : Binding
  a_binding = result_binding r j q

  Grows-exchange : (x : Exchange) (s : State) → Grows s (declare_exchange x s).1
  Grows-exchange x s = record {
    exchange = λ y h. (q.exchange_stays x y a_queue a_binding s h).0;
    queue = λ y h. (q.queue_stays x a_queue y a_binding s h).0;
    binding = λ y h. (q.binding_stays x a_queue a_binding y s h).0;
  }

  Grows-queue : (x : Queue) (s : State) → Grows s (declare_queue x s).1
  Grows-queue x s = record {
    exchange = λ y h. (q.exchange_stays an_exchange y x a_binding s h).1;
    queue = λ y h. (q.queue_stays an_exchange x y a_binding s h).1;
    binding = λ y h. (q.binding_stays an_exchange x a_binding y s h).1;
  }

  Grows-bind : (x : Binding) (s : State) → Grows s (bind_queue x s).1
  Grows-bind x s = record {
    exchange = λ y h. (q.exchange_stays an_exchange y a_queue x s h).2;
    queue = λ y h. (q.queue_stays an_exchange a_queue y x s h).2;
    binding = λ y h. (q.binding_stays an_exchange a_queue x y s h).2;
  }

  IsBound-Grows : (s t : State) (name : String) → Grows s t → IsBound s name → IsBound t name
  IsBound-Grows s t name g b =
      (g.queue (work_queue r j q name) b.0, g.binding (work_binding r j q name) b.1)

  bind_queues-ok :
      (names : List String) (s : State)
      → (bind_queues r j q names s).0 ≡ ok tt
      → Grows s (bind_queues r j q names s).1 × All (IsBound (bind_queues r j q names s).1) names
  unfolding bind_queues
  bind_queues-ok [] s h = (record { exchange = λ x e. e; queue = λ x e. e; binding = λ x e. e }, tt)
  bind_queues-ok (name ∷ names) s h =
      let s₁ = (declare_queue (work_queue r j q name) s).1 in
      let s₂ = (bind_queue (work_binding r j q name) s₁).1 in
      let (_, declared, h₁, same₁) = next-ok (declare_queue (work_queue r j q name) s) _ h in
      let (_, bound, h₂, same₂) = next-ok (bind_queue (work_binding r j q name) s₁) _ h₁ in
      let (grows, rest) = bind_queues-ok names s₂ h₂ in
      let t = (bind_queues r j q names s₂).1 in
      subst (λ u. Grows s u × All (IsBound u) (name ∷ names)) (sym (same₁ ∙ same₂))
        (
          Grows-trans s s₁ t (Grows-queue _ s) (Grows-trans s₁ s₂ t (Grows-bind _ s₁) grows),
          (
            IsBound-Grows s₂ t name grows (
              (Grows-bind _ s₁).queue (work_queue r j q name) (q.declare_queue_ok _ s declared),
              q.bind_queue_ok _ s₁ bound,
            ),
            rest,
          ),
        )

  abbrev pub Declared : State → Type 0
  Declared t =
      (has_exchange (hashing r j q) t ≡ true)
      × All (IsBound t) queues
      × (has_exchange (results r j q) t ≡ true)
      × (has_queue (work_queue r j q result_queue) t ≡ true)
      × (has_binding (result_binding r j q) t ≡ true)

  -- If SetupBroker returns no error, both exchanges, the three work queues bound to the hashing
  -- exchange with weight one, and the result queue bound to the result exchange are declared, durable
  -- and, the queues, limited to 10000 messages.
  pub setup_broker-declares :
      (s : State) → (setup_broker r j q s).0 ≡ ok tt → Declared (setup_broker r j q s).1
  unfolding setup_broker
  setup_broker-declares s h =
      let s₁ = (declare_exchange (hashing r j q) s).1 in
      let s₂ = (bind_queues r j q queues s₁).1 in
      let s₃ = (declare_exchange (results r j q) s₂).1 in
      let s₄ = (declare_queue (work_queue r j q result_queue) s₃).1 in
      let (_, ok₁, h₁, same₁) = next-ok (declare_exchange (hashing r j q) s) _ h in
      let (_, ok₂, h₂, same₂) = next-ok (bind_queues r j q queues s₁) _ h₁ in
      let (_, ok₃, h₃, same₃) = next-ok (declare_exchange (results r j q) s₂) _ h₂ in
      let (_, ok₄, h₄, same₄) = next-ok (declare_queue (work_queue r j q result_queue) s₃) _ h₃ in
      let t = (bind_queue (result_binding r j q) s₄).1 in
      let last = Grows-bind (result_binding r j q) s₄ in
      let late = Grows-trans s₃ s₄ t (Grows-queue _ s₃) last in
      let mid = Grows-trans s₂ s₃ t (Grows-exchange _ s₂) late in
      let (grows, bound) = bind_queues-ok queues s₁ ok₂ in
      subst (Declared) (sym (same₁ ∙ same₂ ∙ same₃ ∙ same₄)) (
        mid.exchange _ (grows.exchange _ (q.declare_exchange_ok _ s ok₁)),
        All-map (IsBound s₂) (IsBound t) (λ name. IsBound-Grows s₂ t name mid) queues bound,
        late.exchange _ (q.declare_exchange_ok _ s₂ ok₃),
        last.queue _ (q.declare_queue_ok _ s₃ ok₄),
        q.bind_queue_ok _ s₄ h₄,
      )
