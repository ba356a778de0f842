-- ===== src/Services/Redis.antt =====
-- The Redis client (go-redis) and server. A command takes the server's state and returns its reply and
-- the new state; a reply may be an error at any time. `expire` is what the server does with a key at the end
-- of its time to live; it comes between the handlers, not among the few commands of one.
use distributed_web_crawler.Base.{
  ◌⊎◌, ℕ, ◌≡◌, ◌≢◌, String, Bool, true, false, Option, none, some, Result, ok, err, ℤ, IsInt64,
}

-- `redis.Nil`, or any other error.
pub data RedisError : Type 0 where
  missing failed : RedisError

abbrev pub exists_count {ℓ} : {A : Type ℓ} → Option A → ℕ
exists_count none = 0
exists_count (some _) = 1

pub record Redis : Type 1 where
  pub Store : Type 0
  -- What a key holds: a text.
  pub Value : Type 0
  pub of_text : String → Value
  pub of_int : ℤ → Value
  -- `strconv.ParseInt(s, 10, 64)`
  pub parse_int : Value → Option ℤ
  pub exists : String → Store → Result RedisError ℕ × Store
  pub get : String → Store → Result RedisError Value × Store
  pub set : String → Value → ℤ → Store → Result RedisError (Unit {0}) × Store
  pub set_nx : String → Value → ℤ → Store → Result RedisError Bool × Store
  pub del : String → Store → Result RedisError ℕ × Store
  -- RedisBloom. An error of BF.RESERVE is given by its text.
  pub expire : String → Store → Store
  pub bf_reserve : String → Store → Result String (Unit {0}) × Store
  pub bf_exists : String → String → Store → Result RedisError Bool × Store
  pub bf_add : String → String → Store → Result RedisError Bool × Store
  -- What the state holds at a key, and what a filter answers for an item.
  pub value : String → Store → Option Value
  pub member : String → String → Store → Bool
  -- A number is stored in decimal.
  pub parse_int-of_int : (n : ℤ) → IsInt64 n → parse_int (of_int n) ≡ some n
  -- Reads change nothing.
  pub exists_keeps : (k j : String) (s : Store) → value j (exists k s).1 ≡ value j s
  pub exists_ok :
      (k : String) (s : Store) (n : ℕ) → (exists k s).0 ≡ ok n → n ≡ exists_count (value k s)
  pub get_keeps : (k j : String) (s : Store) → value j (get k s).1 ≡ value j s
  pub get_ok : (k : String) (s : Store) (v : Value) → (get k s).0 ≡ ok v → value k s ≡ some v
  pub get_missing : (k : String) (s : Store) → (get k s).0 ≡ err missing → value k s ≡ none
  -- A write touches its own key.
  pub set_other :
      (k j : String) (v : Value) (ttl : ℤ) (s : Store)
      → k ≢ j
      → value j (set k v ttl s).1 ≡ value j s
  pub set_ok :
      (k : String) (v : Value) (ttl : ℤ) (s : Store)
      → (set k v ttl s).0 ≡ ok tt
      → value k (set k v ttl s).1 ≡ some v
  -- A write whose reply is an error was executed or was not.
  pub set_either :
      (k : String) (v : Value) (ttl : ℤ) (s : Store)
      → (value k (set k v ttl s).1 ≡ value k s) ⊎ (value k (set k v ttl s).1 ≡ some v)
  pub set_nx_other :
      (k j : String) (v : Value) (ttl : ℤ) (s : Store)
      → k ≢ j
      → value j (set_nx k v ttl s).1 ≡ value j s
  pub set_nx_took :
      (k : String) (v : Value) (ttl : ℤ) (s : Store)
      → (set_nx k v ttl s).0 ≡ ok true
      → (value k s ≡ none) × (value k (set_nx k v ttl s).1 ≡ some v)
  pub set_nx_held :
      (k : String) (v : Value) (ttl : ℤ) (s : Store)
      → (set_nx k v ttl s).0 ≡ ok false
      → value k s ≢ none
  -- It never overwrites, whatever its reply.
  pub set_nx_keeps :
      (k : String) (v : Value) (ttl : ℤ) (s : Store)
      → value k s ≢ none
      → value k (set_nx k v ttl s).1 ≡ value k s
  pub del_other : (k j : String) (s : Store) → k ≢ j → value j (del k s).1 ≡ value j s
  pub del_ok : (k : String) (s : Store) (n : ℕ) → (del k s).0 ≡ ok n → value k (del k s).1 ≡ none
  pub del_either :
      (k : String) (s : Store) → (value k (del k s).1 ≡ value k s) ⊎ (value k (del k s).1 ≡ none)
  -- A key that has expired is gone, and no other key.
  pub expire_gone : (k : String) (s : Store) → value k (expire k s) ≡ none
  pub expire_other : (k j : String) (s : Store) → k ≢ j → value j (expire k s) ≡ value j s
  -- Reading and writing other keys leaves a filter as it is.
  pub get_member : (k f u : String) (s : Store) → member f u (get k s).1 ≡ member f u s
  pub set_member :
      (k f u : String) (v : Value) (ttl : ℤ) (s : Store)
      → k ≢ f
      → member f u (set k v ttl s).1 ≡ member f u s
  -- A filter has no false negatives, and forgets nothing.
  pub bf_reserve_keeps : (f k : String) (s : Store) → f ≢ k → value k (bf_reserve f s).1 ≡ value k s
  pub bf_exists_keeps : (f u j : String) (s : Store) → value j (bf_exists f u s).1 ≡ value j s
  pub bf_exists_member :
      (f u x : String) (s : Store) → member f x (bf_exists f u s).1 ≡ member f x s
  pub bf_exists_ok :
      (f u : String) (s : Store) (b : Bool) → (bf_exists f u s).0 ≡ ok b → b ≡ member f u s
  pub bf_add_keeps : (f u j : String) (s : Store) → f ≢ j → value j (bf_add f u s).1 ≡ value j s
  pub bf_add_ok :
      (f u : String) (s : Store) (b : Bool)
      → (bf_add f u s).0 ≡ ok b
      → member f u (bf_add f u s).1 ≡ true
  pub bf_add_grows :
      (f u x : String) (s : Store) → member f x s ≡ true → member f x (bf_add f u s).1 ≡ true
