-- ===== src/Scheduler/Jobs/Race/Winners.antt =====
-- scheduler/internal/db/redis.go: who wins a race of starts.
use distributed_web_crawler.Scheduler.Jobs.Locking.{active_ne_last, active_ne_depth}
use distributed_web_crawler.Base.{
  ◌==◌, ◌∙◌, Bool-cases, sym, All, subst, ◌≡◌, Result-cases, arith, ◌+◌, ◌≢◌, List, ℕ, ◌≤◌, refl,
  ok, err, true, false, none, inl, inr, [], ◌∷◌, zero, suc,
}
use distributed_web_crawler.Services.Redis.{Redis}
use distributed_web_crawler.Scheduler.Jobs.{
  last_activity_key, max_depth_key, active_job_key, start_job, init_max_depth, init_last_activity,
}
use distributed_web_crawler.Scheduler.Jobs.Race.{
  Pc, Start, begins, has_lock, has_depth, undoes_lock, undoes_both, undoes_depth, returned, step_at,
  alone, move, moves,
}

-- Whether a request holds the lock: it took it, and has not given it back.
abbrev pub holder : Pc → ℕ
holder begins = 0
holder has_lock = 1
holder has_depth = 1
holder (undoes_lock e) = 1
holder (undoes_both e) = 1
holder (undoes_depth e) = 0
holder (returned (ok true)) = 1
holder (returned (ok false)) = 0
holder (returned (err e)) = 0

abbrev pub holders : List Start → ℕ
holders [] = 0
holders (c ∷ cs) = holder c.pc + holders cs

-- How many requests have returned success.
abbrev won : Pc → ℕ
won begins = 0
won has_lock = 0
won has_depth = 0
won (undoes_lock e) = 0
won (undoes_both e) = 0
won (undoes_depth e) = 0
won (returned (ok true)) = 1
won (returned (ok false)) = 0
won (returned (err e)) = 0

abbrev pub winners : List Start → ℕ
winners [] = 0
winners (c ∷ cs) = won c.pc + winners cs

won-le : (p : Pc) → won p ≤ holder p
won-le p = ground arith

pub winners-le : (cs : List Start) → winners cs ≤ holders cs
winners-le [] = omega arith
winners-le (c ∷ cs) = omega (arith, won-le c.pc, winners-le cs)

module _ (r : Redis) where
  open r use {Store, of_text, of_int, set, set_nx, del, value}

  -- At most one request holds the lock, and then the key is there.
  pub record Safe (n : ℕ) (s : Store) : Type 0 where
    pub few : n ≤ 1
    pub locked : 1 ≤ n → value active_job_key s ≢ none

  pub Safe-same :
      (n : ℕ) (s t : Store) → value active_job_key t ≡ value active_job_key s → Safe n s → Safe n t
  Safe-same n s t e i = record { few = i.few; locked = λ h q. i.locked h (sym e ∙ q) }

  plus_zero : (k : ℕ) (s : Store) → Safe k s → Safe (0 + k) s
  plus_zero k s i = let z : k ≡ 0 + k = omega arith in subst (λ m. Safe m s) z i

  pub Safe-none : (k : ℕ) (s t : Store) → Safe (1 + k) s → Safe k t
  Safe-none k s t i = record { few = omega (arith, i.few); locked = λ h q. ground (arith, i.few) }

  -- A SETNX that does not take the lock leaves it as it is.
  Safe-refused :
      (k : ℕ) (c : Start) (s : Store)
      → Safe k s
      → Safe k (set_nx active_job_key (of_text c.url_str) c.ttl s).1
  Safe-refused k c s i = record {
    few = i.few;
    locked = λ h.
        rw (r.set_nx_keeps active_job_key (of_text c.url_str) c.ttl s (i.locked h)) (i.locked h);
  }

  took-Safe :
      (k : ℕ) (c : Start) (s : Store)
      → Safe k s
      → (set_nx active_job_key (of_text c.url_str) c.ttl s).0 ≡ ok true
      → Safe (1 + k) (set_nx active_job_key (of_text c.url_str) c.ttl s).1
  took-Safe k c s i e =
      let (free, taken) = r.set_nx_took active_job_key (of_text c.url_str) c.ttl s e in
      record {
        few = elim (Bool-cases (k == 0)) [
          | inl z ↦ ground arith
          | inr nz ↦ absurd (i.locked (ground arith) free)
        ];
        locked = λ h q. cc (taken, q);
      }

  pub step-Safe :
      (p : Pc) (c : Start) (k : ℕ) (s : Store)
      → Safe (holder p + k) s
      → Safe (holder (step_at r p c s).0 + k) (step_at r p c s).1
  unfolding step_at
  step-Safe begins c k s i =
      let z : 0 + k ≡ k = omega arith in
      let t = (set_nx active_job_key (of_text c.url_str) c.ttl s).1 in
      let j = subst (λ m. Safe m s) z i in
      elim (Result-cases (set_nx active_job_key (of_text c.url_str) c.ttl s).0) [
        | inl (true, e) ↦ rw (e, step_at) (took-Safe k c s j e)
        | inl (false, e) ↦ rw (e, step_at) (plus_zero k t (Safe-refused k c s j))
        | inr (x, e) ↦ rw (e, step_at) (plus_zero k t (Safe-refused k c s j))
      ]
  step-Safe has_lock c k s i =
      let same =
        r.set_other max_depth_key active_job_key (of_int c.max_depth) c.ttl s
          (λ e. active_ne_depth (sym e)) in
      elim (Result-cases (set max_depth_key (of_int c.max_depth) c.ttl s).0) [
        | inl (_, e) ↦ rw (e, step_at) (Safe-same (1 + k) s _ same i)
        | inr (x, e) ↦ rw (e, step_at) (Safe-same (1 + k) s _ same i)
      ]
  step-Safe has_depth c k s i =
      let same =
        r.set_other last_activity_key active_job_key (of_int c.now) c.ttl s
          (λ e. active_ne_last (sym e)) in
      elim (Result-cases (set last_activity_key (of_int c.now) c.ttl s).0) [
        | inl (_, e) ↦ rw (e, step_at) (Safe-same (1 + k) s _ same i)
        | inr (x, e) ↦ rw (e, step_at) (Safe-same (1 + k) s _ same i)
      ]
  step-Safe (undoes_lock e) c k s i = plus_zero k _ (Safe-none k s (del active_job_key s).1 i)
  step-Safe (undoes_both e) c k s i = plus_zero k _ (Safe-none k s (del active_job_key s).1 i)
  step-Safe (undoes_depth e) c k s i =
      Safe-same (0 + k) s _
        (r.del_other max_depth_key active_job_key s (λ e. active_ne_depth (sym e))) i
  step-Safe (returned a) c k s i = i

  pub move-Safe :
      (n : ℕ) (cs : List Start) (k : ℕ) (s : Store)
      → Safe (holders cs + k) s
      → Safe (holders (move r n cs s).0 + k) (move r n cs s).1
  unfolding move
  move-Safe n [] k s i = i
  move-Safe zero (c ∷ cs) k s i =
      let j = step-Safe c.pc c (holders cs + k) s (subst (λ m. Safe m s) (omega arith) i) in
      subst (λ m. Safe m (step_at r c.pc c s).1) (omega arith) j
  move-Safe (suc n) (c ∷ cs) k s i =
      let j = move-Safe n cs (holder c.pc + k) s (subst (λ m. Safe m s) (omega arith) i) in
      subst (λ m. Safe m (move r n cs s).1) (omega arith) j

  moves-Safe :
      (ns : List ℕ) (cs : List Start) (s : Store)
      → Safe (holders cs + 0) s
      → Safe (holders (moves r ns cs s).0 + 0) (moves r ns cs s).1
  unfolding moves
  moves-Safe [] cs s i = i
  moves-Safe (n ∷ ns) cs s i =
      moves-Safe ns (move r n cs s).0 (move r n cs s).1 (move-Safe n cs 0 s i)

  pub holders-begins : (cs : List Start) → All (λ c. c.pc ≡ begins) cs → holders cs ≡ 0
  holders-begins [] h = refl
  holders-begins (c ∷ cs) h = rw (h.0, holders-begins cs h.1)

  -- However many requests run StartJob at the same time, however their commands interleave, and
  -- whichever of the commands fail: at most one of them returns true.
  pub moves-winners :
      (ns : List ℕ) (cs : List Start) (s : Store)
      → All (λ c. c.pc ≡ begins) cs
      → winners (moves r ns cs s).0 ≤ 1
  moves-winners ns cs s h =
      let i = moves-Safe ns cs s (record {
        few = omega (arith, holders-begins cs h);
        locked = λ e. ground (arith, holders-begins cs h);
      }) in
      omega (arith, i.few, winners-le (moves r ns cs s).0)

  -- A request that nobody interrupts returns what start_job returns, and leaves the state that it
  -- leaves.
  pub alone-start_job :
      (c : Start) (s : Store)
      → let done = start_job r c.url_str c.max_depth c.now c.ttl s in
        alone r 5 begins c s ≡ (returned done.0, done.1)
  unfolding alone step_at start_job init_max_depth init_last_activity
  alone-start_job c s = elim (Result-cases (set_nx active_job_key (of_text c.url_str) c.ttl s).0) [
    | inl (true, e) ↦
        let s₁ = (set_nx active_job_key (of_text c.url_str) c.ttl s).1 in
        elim (Result-cases (set max_depth_key (of_int c.max_depth) c.ttl s₁).0) [
          | inl (_, d) ↦
              let s₂ = (set max_depth_key (of_int c.max_depth) c.ttl s₁).1 in
              elim (Result-cases (set last_activity_key (of_int c.now) c.ttl s₂).0) [
                | inl (_, a) ↦ rw (e, d, a, step_at, start_job, init_max_depth, init_last_activity)
                | inr (x, a) ↦ rw (e, d, a, step_at, start_job, init_max_depth, init_last_activity)
              ]
          | inr (x, d) ↦ rw (e, d, step_at, start_job, init_max_depth)
        ]
    | inl (false, e) ↦ rw (e, step_at, start_job)
    | inr (x, e) ↦ rw (e, step_at, start_job)
  ]
