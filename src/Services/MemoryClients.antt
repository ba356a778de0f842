-- ===== src/Services/MemoryClients.antt =====
-- Client libraries in memory, for tests: a handle is a number, and the state is the list of the open ones.
use distributed_web_crawler.Base.{
  not, subst, String, inr, inl, Bool-cases, ◌≢◌, ℕ, suc, ◌+◌, ◌≤◌, ◌≡◌, refl, arith, Bool, true,
  false, ◌||◌, Option, none, some, List, [], ◌∷◌, ◌==◌, if◌then◌else◌,
}
use distributed_web_crawler.Services.Clients.{Clients, Opens, Closes}

abbrev pub is_member : ℕ → List ℕ → Bool
is_member x [] = false
is_member x (y ∷ ys) = x == y || is_member x ys

-- A number above all of the list.
abbrev pub above : List ℕ → ℕ
above [] = 0
above (x ∷ xs) = suc (x + above xs)

abbrev pub without : ℕ → List ℕ → List ℕ
without h [] = []
without h (x ∷ xs) = let rest = without h xs in if x == h then rest else x ∷ rest

member-lt : (x : ℕ) (xs : List ℕ) → is_member x xs ≡ true → suc x ≤ above xs
member-lt x [] h = ground arith
member-lt x (y ∷ ys) h = ground (arith, member-lt x ys)

above-fresh : (xs : List ℕ) (n : ℕ) → above xs ≤ n → is_member n xs ≡ false
above-fresh xs n h = elim (Bool-cases (is_member n xs)) [
  | inl t ↦ ground (arith, member-lt n xs t)
  | inr f ↦ f
]

pub add-Opens : (s : List ℕ) → Opens is_member (above s) s (above s ∷ s)
add-Opens s = (above-fresh s (above s) (omega arith), ground arith, λ x ne. ground arith)

pub without-Closes : (h : ℕ) (s : List ℕ) → Closes is_member h s (without h s)
without-Closes h [] x e = ground arith
without-Closes h (y ∷ ys) x e = ground (arith, without-Closes h ys x)

pub without-keeps :
    (h x : ℕ) (s : List ℕ) → x ≢ h → is_member x s ≡ true → is_member x (without h s) ≡ true
without-keeps h x [] ne e = e
without-keeps h x (y ∷ ys) ne e = ground (arith, without-keeps h x ys ne)

-- Each call that may fail does so if `down` names it.
module _ (down : String → Bool) where
  abbrev may_open : String → List ℕ → Option ℕ × List ℕ
  may_open name s = if down name then (none, s) else (some (above s), above s ∷ s)

  pub may_open-Opens :
      (name : String) (s : List ℕ) (h : ℕ)
      → (may_open name s).0 ≡ some h
      → Opens is_member h s (may_open name s).1
  may_open-Opens name s h e = elim (Bool-cases (down name)) [
    | inl bad ↦ ground arith
    | inr good ↦
        let same : above s ≡ h = ground arith in
        rw good (subst (λ n. Opens is_member n s (above s ∷ s)) same (add-Opens s))
  ]

  pub may_open-none :
      (name : String) (s : List ℕ) (x : ℕ)
      → (may_open name s).0 ≡ none
      → is_member x (may_open name s).1 ≡ is_member x s
  may_open-none name s x e = ground arith

  abbrev pub clients : Clients
  clients = record {
    State = List ℕ;
    Handle = ℕ;
    is_open = is_member;
    connect_mongo = may_open "mongo";
    ping_mongo = λ h s. (not (down "ping mongo"), s);
    disconnect_mongo = without;
    new_redis = λ s. (above s, above s ∷ s);
    ping_redis = λ h s. (not (down "ping redis"), s);
    close_redis = without;
    dial = may_open "rabbit";
    open_channel = λ conn s. may_open "channel" s;
    close_channel = without;
    close_conn = without;
    ping_mongo_keeps = λ h x s. refl;
    ping_redis_keeps = λ h x s. refl;
    connect_mongo_opens = may_open-Opens "mongo";
    connect_mongo_none = may_open-none "mongo";
    new_redis_opens = add-Opens;
    dial_opens = may_open-Opens "rabbit";
    dial_none = may_open-none "rabbit";
    open_channel_opens = λ conn. may_open-Opens "channel";
    open_channel_none = λ conn. may_open-none "channel";
    disconnect_mongo_closes = without-Closes;
    close_redis_closes = without-Closes;
    close_channel_closes = without-Closes;
    close_conn_closes = without-Closes;
    disconnect_mongo_keeps = without-keeps;
  }
