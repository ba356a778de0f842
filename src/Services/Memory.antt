-- ===== src/Services/Memory.antt =====
-- Services in memory that meet the interfaces, for tests. `down` names the commands that fail.
use distributed_web_crawler.Base.{
  inr, inl, Bool-cases, ◌⊎◌, ℕ, ◌≡◌, ◌≢◌, refl, String, Bool, true, false, Option, none, some, List,
  [], ◌∷◌, Result, ok, err, ℤ, Dict, lookup, insert, delete, lookup-insert, lookup-delete, str_eq,
  eq_iff, eq_refl, arith, if◌then◌else◌, ◌||◌,
}
use distributed_web_crawler.Services.Redis.{Redis, RedisError, missing, failed, exists_count}

pub data Value : Type 0 where
  text : String → Value
  number : ℤ → Value

pub record Store : Type 0 where
  pub values : Dict Value
  pub filter : List String

abbrev pub contains : String → List String → Bool
contains u [] = false
contains u (x ∷ xs) = str_eq x u || contains u xs

abbrev parse : Value → Option ℤ
parse (text s) = none
parse (number n) = some n

abbrev got : Option Value → Result RedisError Value
got none = err missing
got (some v) = ok v

module _ (down : String → Bool) where
  abbrev fails {ℓ} : {A : Type ℓ} → String → Result RedisError A → Result RedisError A
  fails c r = if down c then err failed else r

  abbrev m_exists : String → Store → Result RedisError ℕ × Store
  m_exists k s = (fails "EXISTS" (ok (exists_count (lookup k s.values))), s)

  abbrev m_get : String → Store → Result RedisError Value × Store
  m_get k s = (fails "GET" (got (lookup k s.values)), s)

  abbrev m_set : String → Value → ℤ → Store → Result RedisError (Unit {0}) × Store
  m_set k v ttl s =
      (fails "SET" (ok tt), if down "SET" then s else record s { values = insert k v s.values })

  abbrev set_absent : Option Value → String → Value → Store → Result RedisError Bool × Store
  set_absent none k v s = (ok true, record s { values = insert k v s.values })
  set_absent (some _) k v s = (ok false, s)

  abbrev m_set_nx : String → Value → ℤ → Store → Result RedisError Bool × Store
  m_set_nx k v ttl s =
      if down "SETNX" then (err failed, s) else set_absent (lookup k s.values) k v s

  abbrev m_del : String → Store → Result RedisError ℕ × Store
  m_del k s =
      if down "DEL"
      then (err failed, s)
      else (ok (exists_count (lookup k s.values)), record s { values = delete k s.values })

  abbrev m_bf_exists : String → String → Store → Result RedisError Bool × Store
  m_bf_exists f u s = (fails "BF.EXISTS" (ok (contains u s.filter)), s)

  abbrev m_bf_add : String → String → Store → Result RedisError Bool × Store
  m_bf_add f u s =
      if down "BF.ADD" then (err failed, s) else (ok true, record s { filter = u ∷ s.filter })

  pub m_exists_ok :
      (k : String) (s : Store) (n : ℕ)
      → (m_exists k s).0 ≡ ok n
      → n ≡ exists_count (lookup k s.values)
  m_exists_ok k s n h = ground arith

  pub m_get_ok :
      (k : String) (s : Store) (v : Value) → (m_get k s).0 ≡ ok v → lookup k s.values ≡ some v
  m_get_ok k s v h = ground arith

  pub m_get_missing :
      (k : String) (s : Store) → (m_get k s).0 ≡ err missing → lookup k s.values ≡ none
  m_get_missing k s h = ground arith

  pub m_set_other :
      (k j : String) (v : Value) (ttl : ℤ) (s : Store)
      → k ≢ j
      → lookup j (m_set k v ttl s).1.values ≡ lookup j s.values
  m_set_other k j v ttl s ne = ground (arith, lookup-insert k j v s.values, eq_iff k j)

  pub m_set_ok :
      (k : String) (v : Value) (ttl : ℤ) (s : Store)
      → (m_set k v ttl s).0 ≡ ok tt
      → lookup k (m_set k v ttl s).1.values ≡ some v
  m_set_ok k v ttl s h = ground (arith, lookup-insert k k v s.values, eq_refl k)

  pub m_set_either :
      (k : String) (v : Value) (ttl : ℤ) (s : Store)
      → (lookup k (m_set k v ttl s).1.values ≡ lookup k s.values)
        ⊎ (lookup k (m_set k v ttl s).1.values ≡ some v)
  m_set_either k v ttl s = elim (Bool-cases (down "SET")) [
    | inl failing ↦ inl (ground arith)
    | inr fine ↦ inr (ground (arith, lookup-insert k k v s.values, eq_refl k))
  ]

  pub m_del_either :
      (k : String) (s : Store)
      → (lookup k (m_del k s).1.values ≡ lookup k s.values) ⊎ (lookup k (m_del k s).1.values ≡ none)
  m_del_either k s = elim (Bool-cases (down "DEL")) [
    | inl failing ↦ inl (ground arith)
    | inr fine ↦ inr (ground (arith, lookup-delete k k s.values, eq_refl k))
  ]

  pub m_set_nx_other :
      (k j : String) (v : Value) (ttl : ℤ) (s : Store)
      → k ≢ j
      → lookup j (m_set_nx k v ttl s).1.values ≡ lookup j s.values
  m_set_nx_other k j v ttl s ne = ground (arith, lookup-insert k j v s.values, eq_iff k j)

  pub m_set_nx_took :
      (k : String) (v : Value) (ttl : ℤ) (s : Store)
      → (m_set_nx k v ttl s).0 ≡ ok true
      → (lookup k s.values ≡ none) × (lookup k (m_set_nx k v ttl s).1.values ≡ some v)
  m_set_nx_took k v ttl s h = ground (arith, lookup-insert k k v s.values, eq_refl k)

  pub m_set_nx_held :
      (k : String) (v : Value) (ttl : ℤ) (s : Store)
      → (m_set_nx k v ttl s).0 ≡ ok false
      → lookup k s.values ≢ none
  m_set_nx_held k v ttl s h = ground arith

  pub m_set_nx_keeps :
      (k : String) (v : Value) (ttl : ℤ) (s : Store)
      → lookup k s.values ≢ none
      → lookup k (m_set_nx k v ttl s).1.values ≡ lookup k s.values
  m_set_nx_keeps k v ttl s h = ground arith

  pub m_del_other :
      (k j : String) (s : Store) → k ≢ j → lookup j (m_del k s).1.values ≡ lookup j s.values
  m_del_other k j s ne = ground (arith, lookup-delete k j s.values, eq_iff k j)

  pub m_del_ok :
      (k : String) (s : Store) (n : ℕ) → (m_del k s).0 ≡ ok n → lookup k (m_del k s).1.values ≡ none
  m_del_ok k s n h = ground (arith, lookup-delete k k s.values, eq_refl k)

  pub m_set_member :
      (k f u : String) (v : Value) (ttl : ℤ) (s : Store)
      → k ≢ f
      → contains u (m_set k v ttl s).1.filter ≡ contains u s.filter
  m_set_member k f u v ttl s ne = ground arith

  pub m_bf_exists_ok :
      (f u : String) (s : Store) (b : Bool) → (m_bf_exists f u s).0 ≡ ok b → b ≡ contains u s.filter
  m_bf_exists_ok f u s b h = ground arith

  pub m_bf_add_keeps :
      (f u j : String) (s : Store) → f ≢ j → lookup j (m_bf_add f u s).1.values ≡ lookup j s.values
  m_bf_add_keeps f u j s ne = ground arith

  pub m_bf_add_ok :
      (f u : String) (s : Store) (b : Bool)
      → (m_bf_add f u s).0 ≡ ok b
      → contains u (m_bf_add f u s).1.filter ≡ true
  m_bf_add_ok f u s b h = ground (arith, eq_refl u)

  pub m_bf_add_grows :
      (f u x : String) (s : Store)
      → contains x s.filter ≡ true
      → contains x (m_bf_add f u s).1.filter ≡ true
  m_bf_add_grows f u x s h = ground arith

  abbrev m_expire : String → Store → Store
  m_expire k s = record s { values = delete k s.values }

  pub m_expire_gone : (k : String) (s : Store) → lookup k (m_expire k s).values ≡ none
  m_expire_gone k s = ground (arith, lookup-delete k k s.values, eq_refl k)

  pub m_expire_other :
      (k j : String) (s : Store) → k ≢ j → lookup j (m_expire k s).values ≡ lookup j s.values
  m_expire_other k j s ne = ground (arith, lookup-delete k j s.values, eq_iff k j)

  abbrev pub memory : Redis
  memory = record {
    Store = Store;
    Value = Value;
    of_text = text;
    of_int = number;
    parse_int = parse;
    exists = m_exists;
    get = m_get;
    set = m_set;
    set_nx = m_set_nx;
    del = m_del;
    expire = m_expire;
    bf_reserve = λ f s. (if down "BF.RESERVE" then err "ERR item exists" else ok tt, s);
    bf_exists = m_bf_exists;
    bf_add = m_bf_add;
    value = λ k s. lookup k s.values;
    member = λ f u s. contains u s.filter;
    parse_int-of_int = λ n h. refl;
    exists_keeps = λ k j s. refl;
    exists_ok = m_exists_ok;
    get_keeps = λ k j s. refl;
    get_ok = m_get_ok;
    get_missing = m_get_missing;
    set_other = m_set_other;
    set_ok = m_set_ok;
    set_either = m_set_either;
    set_nx_other = m_set_nx_other;
    set_nx_took = m_set_nx_took;
    set_nx_held = m_set_nx_held;
    set_nx_keeps = m_set_nx_keeps;
    del_other = m_del_other;
    del_ok = m_del_ok;
    del_either = m_del_either;
    expire_gone = m_expire_gone;
    expire_other = m_expire_other;
    get_member = λ k f u s. refl;
    set_member = m_set_member;
    bf_exists_keeps = λ f u j s. refl;
    bf_exists_member = λ f u x s. refl;
    bf_exists_ok = m_bf_exists_ok;
    bf_reserve_keeps = λ f k s ne. refl;
    bf_add_keeps = m_bf_add_keeps;
    bf_add_ok = m_bf_add_ok;
    bf_add_grows = m_bf_add_grows;
  }

-- Nothing fails.
abbrev pub up : String → Bool
up c = false

-- One command fails.
abbrev pub without : String → String → Bool
without c d = str_eq c d

abbrev pub empty_store : Store
empty_store = record { values = []; filter = [] }
