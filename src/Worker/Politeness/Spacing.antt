-- ===== src/Worker/Politeness/Spacing.antt =====
-- worker/internal/crawler/politeness.go: requests and sweeps in any order.
use distributed_web_crawler.Base.{
  ℕ, suc, ◌+◌, ◌*◌, ◌^◌, ◌≤◌, ◌<◌, ◌≡◌, arith, Option, none, some, String, pos, List, [], ◌∷◌, ◌∙◌,
  ap, subst, sym, inl, inr, Bool-cases, eq_refl, lookup, lookup-insert, All, All-map, eq_iff,
  str_eq, if◌then◌else◌, length,
}
use distributed_web_crawler.Worker.Politeness.{
  PolitenessManager, new_politeness_manager, reserve, sweep, max_age, minute,
}
use distributed_web_crawler.Worker.Politeness.Slots.{
  horizon, InHorizon, earliest_slot, reserve-earliest,
}
use distributed_web_crawler.Worker.Politeness.Sweeping.{lookup-sweep, remembered}

-- A slot that was handed out, and the delay that was asked for with it.
pub record Slot : Type 0 where
  pub host : String
  pub at : ℕ
  pub delay : ℕ

pub record World : Type 0 where
  pub manager : PolitenessManager
  pub clock : ℕ
  pub slots : List Slot

-- The critical sections of the goroutines, in the order in which they take the lock.
pub data Event : Type 0 where
  request : String → ℕ → ℕ → Event
  tick : ℕ → Event

unfoldable pub step : World → Event → World
step w (request host delay now) =
    let r = reserve w.manager host (pos delay) now in
    record {
      manager = r.manager;
      clock = now;
      slots = record { host = host; at = r.target; delay = delay } ∷ w.slots;
    }
step w (tick now) = record w { manager = sweep now max_age w.manager; clock = now }

unfoldable pub run : World → List Event → World
unfolding step
run w [] = w
run w (e ∷ es) = run (step w e) es

unfoldable pub start : ℕ → World
unfolding new_politeness_manager
start now = record { manager = new_politeness_manager; clock = now; slots = [] }

-- The clock does not go back, ends before the horizon's half, and no delay passes the sweeper's age.
abbrev pub IsOrderly : ℕ → List Event → Type 0
IsOrderly clock [] = Unit
IsOrderly clock (request host delay now ∷ es) =
    (clock ≤ now) × (now < 2 ^ 61) × (delay ≤ 5 * minute) × IsOrderly now es
IsOrderly clock (tick now ∷ es) = (clock ≤ now) × (now < 2 ^ 61) × IsOrderly now es

-- Newest first: each slot is its delay or more after every earlier slot of its host.
abbrev pub After : Slot → Slot → Type 0
After s t = t.host ≡ s.host → t.at + s.delay ≤ s.at

abbrev pub IsSpaced : List Slot → Type 0
IsSpaced [] = Unit
IsSpaced (s ∷ ss) = All (After s) ss × IsSpaced ss

-- A slot is covered by what the manager remembers of its host, or too old to matter.
abbrev Covers : ℕ → Option ℕ → ℕ → Type 0
Covers clock none at = at + 5 * minute < clock
Covers clock (some last) at = at ≤ last

abbrev IsCovered : World → Slot → Type 0
IsCovered w s = Covers w.clock (lookup s.host w.manager.last_scrape_time) s.at

abbrev Bounded : ℕ → Option ℕ → Type 0
Bounded n none = Unit
Bounded n (some last) = last ≤ 2 ^ 61 + n * (5 * minute)

record Inv (n : ℕ) (w : World) : Type 0 where
  covered : All (IsCovered w) w.slots
  spaced : IsSpaced w.slots
  bounded : (host : String) → Bounded n (lookup host w.manager.last_scrape_time)

-- A million events; the bound keeps the times of a backlog within 64 bits.
abbrev pub max_events : ℕ
max_events = 2 ^ 20

in_horizon : (n : ℕ) (o : Option ℕ) → n ≤ max_events → Bounded n o → InHorizon o
in_horizon n o h b = ground arith

lookup-reserve :
    (pm : PolitenessManager) (host j : String) (delay now : ℕ)
    → InHorizon (lookup host pm.last_scrape_time)
    → delay < horizon
    → now < horizon
    → lookup j (reserve pm host (pos delay) now).manager.last_scrape_time ≡ (
        if str_eq host j
        then some (earliest_slot (lookup host pm.last_scrape_time) delay now)
        else lookup j pm.last_scrape_time)
unfolding reserve
lookup-reserve pm host j delay now h d t =
    lookup-insert host j _ pm.last_scrape_time
    ∙ ap (λ (x : ℕ). if str_eq host j then some x else lookup j pm.last_scrape_time)
        (reserve-earliest pm host delay now h d t)

Covers-later : (o : Option ℕ) (clock now at : ℕ) → clock ≤ now → Covers clock o at → Covers now o at
Covers-later o clock now at h c = ground arith

Covers-new :
    (o : Option ℕ) (clock now delay at : ℕ)
    → clock ≤ now
    → Covers clock o at
    → at ≤ earliest_slot o delay now
Covers-new o clock now delay at h c = ground arith

after_new :
    (o : Option ℕ) (clock now delay at : ℕ)
    → clock ≤ now
    → delay ≤ 5 * minute
    → Covers clock o at
    → at + delay ≤ earliest_slot o delay now
after_new o clock now delay at h d c = ground arith

Covers-swept :
    (o : Option ℕ) (clock now at : ℕ)
    → clock ≤ now
    → Covers clock o at
    → Covers now (remembered (5 * minute) now o) at
Covers-swept o clock now at h c = ground arith

Bounded-new :
    (n : ℕ) (o : Option ℕ) (delay now : ℕ)
    → now < 2 ^ 61
    → delay ≤ 5 * minute
    → Bounded n o
    → earliest_slot o delay now ≤ 2 ^ 61 + suc n * (5 * minute)
Bounded-new n o delay now t d b = ground arith

Bounded-later : (n : ℕ) (o : Option ℕ) → Bounded n o → Bounded (suc n) o
Bounded-later n o b = ground arith

Bounded-swept :
    (n : ℕ) (o : Option ℕ) (now : ℕ) → Bounded n o → Bounded (suc n) (remembered (5 * minute) now o)
Bounded-swept n o now b = ground arith

module _ (n : ℕ) (w : World) (inv : Inv n w) (few : n ≤ max_events) where
  module _ (host : String) (delay now : ℕ) (later : w.clock ≤ now) (now_fits : now < 2 ^ 61)
      (short : delay ≤ 5 * minute) where
    known : InHorizon (lookup host w.manager.last_scrape_time)
    known = in_horizon n (lookup host w.manager.last_scrape_time) few (inv.bounded host)

    target_lem :
        (reserve w.manager host (pos delay) now).target
        ≡ earliest_slot (lookup host w.manager.last_scrape_time) delay now
    target_lem = reserve-earliest w.manager host delay now known (omega arith) (omega arith)

    lookup_lem :
        (j : String)
        → lookup j (reserve w.manager host (pos delay) now).manager.last_scrape_time ≡ (
            if str_eq host j
            then some (earliest_slot (lookup host w.manager.last_scrape_time) delay now)
            else lookup j w.manager.last_scrape_time)
    lookup_lem j = lookup-reserve w.manager host j delay now known (omega arith) (omega arith)

    covered_at :
        (s : Slot)
        → host ≡ s.host
        → IsCovered w s
        → Covers w.clock (lookup host w.manager.last_scrape_time) s.at
    covered_at s e c =
        subst (λ h. Covers w.clock (lookup h w.manager.last_scrape_time) s.at) (sym e) c

    new_slot-After :
        (s : Slot)
        → IsCovered w s
        → After
            (record {
              host = host;
              at = (reserve w.manager host (pos delay) now).target;
              delay = delay;
            })
            s
    new_slot-After s c e =
        rw target_lem (after_new _ w.clock now delay s.at later short (covered_at s (sym e) c))

    still-IsCovered : (s : Slot) → IsCovered w s → IsCovered (step w (request host delay now)) s
    unfolding step
    still-IsCovered s c = rw (lookup_lem s.host) (elim (Bool-cases (str_eq host s.host)) [
      | inl same ↦
          rw same (
            Covers-new _ w.clock now delay s.at later
              (covered_at s ((eq_iff host s.host).0 same) c))
      | inr other ↦ rw other (Covers-later _ w.clock now s.at later c)
    ])

    new_covered :
        Covers now
          (lookup host (reserve w.manager host (pos delay) now).manager.last_scrape_time)
          (reserve w.manager host (pos delay) now).target
    new_covered = rw (lookup_lem host, target_lem, eq_refl) (omega arith)

    still-Bounded :
        (j : String)
        → Bounded
            (suc n)
            (lookup j (reserve w.manager host (pos delay) now).manager.last_scrape_time)
    still-Bounded j = rw (lookup_lem j) (elim (Bool-cases (str_eq host j)) [
      | inl same ↦ rw same (Bounded-new n _ delay now now_fits short (inv.bounded host))
      | inr other ↦ rw other (Bounded-later n _ (inv.bounded j))
    ])

    request-Inv : Inv (suc n) (step w (request host delay now))
    unfolding step
    request-Inv = record {
      covered = (new_covered, All-map _ _ still-IsCovered w.slots inv.covered);
      spaced = (All-map _ _ new_slot-After w.slots inv.covered, inv.spaced);
      bounded = still-Bounded;
    }

  tick-Inv : (now : ℕ) → w.clock ≤ now → now < 2 ^ 61 → Inv (suc n) (step w (tick now))
  unfolding step
  tick-Inv now later fits = record {
    covered =
        All-map _ _ (λ s c. rw (swept s.host) (Covers-swept _ w.clock now s.at later c)) w.slots
          inv.covered;
    spaced = inv.spaced;
    bounded = λ j. rw (swept j) (Bounded-swept n _ now (inv.bounded j));
  }
    where
      swept :
          (j : String)
          → lookup j (sweep now max_age w.manager).last_scrape_time
            ≡ remembered (5 * minute) now (lookup j w.manager.last_scrape_time)
      swept j =
          lookup-sweep w.manager j (5 * minute) now (in_horizon n _ few (inv.bounded j))
            (omega arith) (omega arith)

run-Inv :
    (n : ℕ) (w : World) (es : List Event)
    → Inv n w
    → IsOrderly w.clock es
    → n + length es ≤ max_events
    → IsSpaced (run w es).slots
unfolding run
run-Inv n w [] inv o few = inv.spaced
run-Inv n w (request host delay now ∷ es) inv o few =
    run-Inv (suc n) (step w (request host delay now)) es
      (request-Inv n w inv (omega arith) host delay now o.0 o.1 o.2) (o.3) (omega arith)
run-Inv n w (tick now ∷ es) inv o few =
    run-Inv (suc n) (step w (tick now)) es (tick-Inv n w inv (omega arith) now o.0 o.1) (o.2)
      (omega arith)

-- Whatever requests and sweeps a worker makes, with a clock that does not go back and delays of at
-- most five minutes, two slots of one host are at least the later one's delay apart. The times are
-- below 2 ^ 61 ns and there are at most 2 ^ 20 events, so that no backlog leaves the 64-bit durations.
pub run-IsSpaced :
    (now : ℕ) (es : List Event)
    → IsOrderly now es
    → length es ≤ max_events
    → IsSpaced (run (start now) es).slots
unfolding start lookup
run-IsSpaced now es o few =
    run-Inv 0 (start now) es (record { covered = tt; spaced = tt; bounded = λ host. tt }) o
      (omega arith)
