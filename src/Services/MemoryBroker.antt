-- ===== src/Services/MemoryBroker.antt =====
-- A broker and an encoding in memory that meet the interfaces, for tests. `down` names the calls that
-- fail. A publishing is accepted and not routed.
use distributed_web_crawler.Common.Models.{CrawlMessage, UrlData}
use distributed_web_crawler.Base.{
  eq_iff, insert, if◌then◌else◌, lookup-insert, ◌&&◌, ◌||◌, Dict, List, Result, lookup, not, str_eq,
  ◌==◌, ◌≢◌, Bool, Option, String, eq_refl, refl, ℕ, none, some, ok, err, true, false, arith, ◌≡◌,
  [], ◌∷◌,
}
use distributed_web_crawler.Services.Json.{Json}
use distributed_web_crawler.Services.Rabbit.{Rabbit, BrokerError, failure, Exchange, Queue, Binding}

pub data Body : Type 0 where
  message : CrawlMessage → Body
  page : UrlData → Body
  junk : Body

abbrev pub as_message : Body → Option CrawlMessage
as_message (message m) = some m
as_message (page d) = none
as_message junk = none

abbrev pub as_page : Body → Option UrlData
as_page (message m) = none
as_page (page d) = some d
as_page junk = none

pub message_trip : (m : CrawlMessage) (b : Body) → some (message m) ≡ some b → as_message b ≡ some m
message_trip m b h = ground arith

pub page_trip : (d : UrlData) (b : Body) → some (page d) ≡ some b → as_page b ≡ some d
page_trip d b h = ground arith

abbrev pub json : Json
json = record {
  Body = Body;
  marshal_message = λ m. some (message m);
  unmarshal_message = as_message;
  marshal_data = λ d. some (page d);
  unmarshal_data = as_page;
  spare = λ b. 0;
  as_utf8 = λ s. s;
  message_roundtrip = message_trip;
  data_roundtrip = page_trip;
}

pub record Broker : Type 0 where
  pub connected : Bool
  pub counts : Dict ℕ
  pub exchanges : List Exchange
  pub declared : List Queue
  pub bindings : List Binding

abbrev pub count_of : Option ℕ → ℕ
count_of none = 0
count_of (some n) = n

abbrev same_bool : Bool → Bool → Bool
same_bool true b = b
same_bool false b = not b

abbrev same_limit : Option ℕ → Option ℕ → Bool
same_limit none none = true
same_limit (some m) (some n) = m == n
same_limit _ _ = false

abbrev same_exchange : Exchange → Exchange → Bool
same_exchange x y = str_eq x.name y.name && str_eq x.kind y.kind && same_bool x.durable y.durable

abbrev same_queue : Queue → Queue → Bool
same_queue x y =
    str_eq x.name y.name && same_bool x.durable y.durable && same_limit x.max_length y.max_length

abbrev same_binding : Binding → Binding → Bool
same_binding x y =
    str_eq x.queue y.queue && str_eq x.routing_key y.routing_key && str_eq x.exchange y.exchange

abbrev any {ℓ} : {A : Type ℓ} → (A → Bool) → List A → Bool
any p [] = false
any p (x ∷ xs) = p x || any p xs

abbrev reply_of : Bool → Result BrokerError (Unit {0})
reply_of b = if b then err failure else ok tt

module _ (down : String → Bool) where
  abbrev b_inspect : String → Broker → Result BrokerError ℕ × Broker
  b_inspect q s = (if down "inspect" then err failure else ok (count_of (lookup q s.counts)), s)

  abbrev b_purge : String → Broker → Result BrokerError ℕ × Broker
  b_purge q s =
      if down "purge"
      then (err failure, s)
      else (ok (count_of (lookup q s.counts)), record s { counts = insert q 0 s.counts })

  pub b_inspect_ok :
      (q : String) (s : Broker) (n : ℕ)
      → (b_inspect q s).0 ≡ ok n
      → n ≡ count_of (lookup q s.counts)
  b_inspect_ok q s n h = ground arith

  pub b_purge_ok :
      (q : String) (s : Broker) (n : ℕ)
      → (b_purge q s).0 ≡ ok n
      → count_of (lookup q (b_purge q s).1.counts) ≡ 0
  b_purge_ok q s n h = ground (arith, lookup-insert q q 0 s.counts, eq_refl q)

  pub b_purge_other :
      (q k : String) (s : Broker)
      → q ≢ k
      → count_of (lookup k (b_purge q s).1.counts) ≡ count_of (lookup k s.counts)
  b_purge_other q k s ne = ground (arith, lookup-insert q k 0 s.counts, eq_iff q k)

pub same_exchange_refl : (x : Exchange) → same_exchange x x ≡ true
same_exchange_refl x = ground (arith, eq_refl x.name, eq_refl x.kind)

pub same_queue_refl : (x : Queue) → same_queue x x ≡ true
same_queue_refl x = ground (arith, eq_refl x.name)

pub same_binding_refl : (x : Binding) → same_binding x x ≡ true
same_binding_refl x = ground (arith, eq_refl x.queue, eq_refl x.routing_key, eq_refl x.exchange)

pub any_more :
    {A : Type 0} (p : A → Bool) (x : A) (xs : List A) → any p xs ≡ true → any p (x ∷ xs) ≡ true
any_more p x xs h = ground arith

pub any_first :
    {A : Type 0} (p : A → Bool) (x : A) (xs : List A) → p x ≡ true → any p (x ∷ xs) ≡ true
any_first p x xs h = ground arith

module _ (down : String → Bool) where
  abbrev pub rabbit : Rabbit Body
  rabbit = record {
    State = Broker;
    ready = λ s. s.connected;
    open_channel = λ s. (reply_of (down "channel"), s);
    publish = λ p s. (reply_of (down "publish"), s);
    inspect = b_inspect down;
    purge = b_purge down;
    declare_exchange = λ x s. (reply_of (down "declare"), record s { exchanges = x ∷ s.exchanges });
    declare_queue = λ x s. (reply_of (down "declare"), record s { declared = x ∷ s.declared });
    bind_queue = λ x s. (reply_of (down "bind"), record s { bindings = x ∷ s.bindings });
    waiting = λ q s. count_of (lookup q s.counts);
    open_channel_keeps = λ k s. refl;
    has_exchange = λ x s. any (same_exchange x) s.exchanges;
    has_queue = λ x s. any (same_queue x) s.declared;
    has_binding = λ x s. any (same_binding x) s.bindings;
    declare_exchange_ok = λ x s h. any_first (same_exchange x) x s.exchanges (same_exchange_refl x);
    declare_queue_ok = λ x s h. any_first (same_queue x) x s.declared (same_queue_refl x);
    bind_queue_ok = λ x s h. any_first (same_binding x) x s.bindings (same_binding_refl x);
    exchange_stays = λ x y a b s h. (any_more (same_exchange y) x s.exchanges h, h, h);
    queue_stays = λ x a y b s h. (h, any_more (same_queue y) a s.declared h, h);
    binding_stays = λ x a b y s h. (h, h, any_more (same_binding y) b s.bindings h);
    inspect_keeps = λ q k s. refl;
    inspect_ok = b_inspect_ok down;
    purge_ok = b_purge_ok down;
    purge_other = b_purge_other down;
  }

abbrev pub empty_broker : Broker
empty_broker = record {
  connected = true;
  counts = [];
  exchanges = [];
  declared = [];
  bindings = [];
}
