-- ===== src/Services/Rabbit.antt =====
-- A RabbitMQ connection (amqp091-go): channels, exchanges and queues, over the type of message bodies.
use distributed_web_crawler.Base.{Option, true, ℕ, ◌≡◌, ◌≢◌, String, Bool, Result, ok}

pub record Publishing (Body : Type 0) : Type 0 where
  pub exchange : String
  pub routing_key : String
  pub body : Body

pub data BrokerError : Type 0 where
  failure : BrokerError

-- The arguments of `ExchangeDeclare` and `QueueDeclare` that the program sets.
pub record Exchange : Type 0 where
  pub name : String
  pub kind : String
  pub durable : Bool

pub record Queue : Type 0 where
  pub name : String
  pub durable : Bool
  -- `x-max-length`
  pub max_length : Option ℕ

pub record Binding : Type 0 where
  pub queue : String
  pub routing_key : String
  pub exchange : String

pub record Rabbit (Body : Type 0) : Type 1 where
  pub State : Type 0
  -- The connection is there and open: `rmq != nil && rmq.Conn != nil && !rmq.Conn.IsClosed()`.
  pub ready : State → Bool
  pub open_channel : State → Result BrokerError (Unit {0}) × State
  pub publish : Publishing Body → State → Result BrokerError (Unit {0}) × State
  -- `QueueDeclarePassive`: the number of messages that wait in a queue.
  pub inspect : String → State → Result BrokerError ℕ × State
  pub purge : String → State → Result BrokerError ℕ × State
  pub declare_exchange : Exchange → State → Result BrokerError (Unit {0}) × State
  pub declare_queue : Queue → State → Result BrokerError (Unit {0}) × State
  pub bind_queue : Binding → State → Result BrokerError (Unit {0}) × State
  -- The messages that wait in a queue.
  pub waiting : String → State → ℕ
  pub open_channel_keeps : (j : String) (s : State) → waiting j (open_channel s).1 ≡ waiting j s
  -- The exchanges, queues and bindings that are there.
  pub has_exchange : Exchange → State → Bool
  pub has_queue : Queue → State → Bool
  pub has_binding : Binding → State → Bool
  pub declare_exchange_ok :
      (x : Exchange) (s : State)
      → (declare_exchange x s).0 ≡ ok tt
      → has_exchange x (declare_exchange x s).1 ≡ true
  pub declare_queue_ok :
      (x : Queue) (s : State)
      → (declare_queue x s).0 ≡ ok tt
      → has_queue x (declare_queue x s).1 ≡ true
  pub bind_queue_ok :
      (x : Binding) (s : State)
      → (bind_queue x s).0 ≡ ok tt
      → has_binding x (bind_queue x s).1 ≡ true
  -- A declaration takes nothing away, whatever its reply.
  pub exchange_stays :
      (x y : Exchange) (a : Queue) (b : Binding) (s : State)
      → has_exchange y s ≡ true
      → (has_exchange y (declare_exchange x s).1 ≡ true)
        × (has_exchange y (declare_queue a s).1 ≡ true)
        × (has_exchange y (bind_queue b s).1 ≡ true)
  pub queue_stays :
      (x : Exchange) (a y : Queue) (b : Binding) (s : State)
      → has_queue y s ≡ true
      → (has_queue y (declare_exchange x s).1 ≡ true)
        × (has_queue y (declare_queue a s).1 ≡ true)
        × (has_queue y (bind_queue b s).1 ≡ true)
  pub binding_stays :
      (x : Exchange) (a : Queue) (b y : Binding) (s : State)
      → has_binding y s ≡ true
      → (has_binding y (declare_exchange x s).1 ≡ true)
        × (has_binding y (declare_queue a s).1 ≡ true)
        × (has_binding y (bind_queue b s).1 ≡ true)
  pub inspect_keeps : (q j : String) (s : State) → waiting j (inspect q s).1 ≡ waiting j s
  pub inspect_ok : (q : String) (s : State) (n : ℕ) → (inspect q s).0 ≡ ok n → n ≡ waiting q s
  pub purge_ok :
      (q : String) (s : State) (n : ℕ) → (purge q s).0 ≡ ok n → waiting q (purge q s).1 ≡ 0
  pub purge_other : (q j : String) (s : State) → q ≢ j → waiting j (purge q s).1 ≡ waiting j s
