-- ===== src/Worker/Politeness/Slots.antt =====
-- worker/internal/crawler/politeness.go: the slot that `Enforce` reserves, and a description of it.
use Prim.Native.Nat.{max}
use distributed_web_crawler.Base.{
  ℕ, ◌+◌, ◌^◌, ◌<◌, ◌≡◌, arith, Option, none, some, String, ℤ, pos, lookup, ltb_ℤ, wrap64,
  if◌then◌else◌, ◌-ℤ◌, sub64, Bool, ◌&&◌, ◌≢◌, ◌∙◌, ap, Result, ok, err, lookup-insert, eq_refl,
  eq_iff, ltb,
}
use distributed_web_crawler.Worker.Politeness.{
  PolitenessManager, reserve, enforce, wait_duration, sub_time, add_time, ContextError, cancelled,
}

-- The earliest time that is neither past nor within `delay` of the last slot.
abbrev pub earliest_slot : Option ℕ → ℕ → ℕ → ℕ
earliest_slot none delay now = now
earliest_slot (some last) delay now = max now (last + delay)

-- Times and delays for which a difference of two fits in 64 bits with room to spare.
abbrev pub horizon : ℕ
horizon = 2 ^ 62

abbrev pub InHorizon : Option ℕ → Type 0
InHorizon none = Unit
InHorizon (some last) = last < horizon

abbrev slot_of : ℤ → ℕ → ℕ
slot_of wait now = if ltb_ℤ (pos 0) wait then add_time now wait else now

slot_of-wait :
    (o : Option ℕ) (delay now : ℕ)
    → InHorizon o
    → delay < horizon
    → now < horizon
    → slot_of (wait_duration o (pos delay) now) now ≡ earliest_slot o delay now
unfolding wait_duration add_time sub_time sub64 wrap64 ◌-ℤ◌
slot_of-wait none delay now h d t = ground arith
slot_of-wait (some last) delay now h d t = ground arith

pub reserve-earliest :
    (pm : PolitenessManager) (host : String) (delay now : ℕ)
    → InHorizon (lookup host pm.last_scrape_time)
    → delay < horizon
    → now < horizon
    → (reserve pm host (pos delay) now).target
      ≡ earliest_slot (lookup host pm.last_scrape_time) delay now
unfolding reserve
reserve-earliest pm host delay now h d t =
    slot_of-wait (lookup host pm.last_scrape_time) delay now h d t

waits :
    (o : Option ℕ) (delay now : ℕ) (ctx_done : Bool)
    → InHorizon o
    → delay < horizon
    → now < horizon
    → Path
        (Result ContextError (Unit {0}))
        (if ltb_ℤ (pos 0) (wait_duration o (pos delay) now) && ctx_done
          then err cancelled
          else ok tt)
        (if ltb now (earliest_slot o delay now) && ctx_done then err cancelled else ok tt)
unfolding wait_duration sub_time sub64 wrap64 ◌-ℤ◌
waits none delay now ctx_done h d t = ground arith
waits (some last) delay now ctx_done h d t = ground arith

-- For times and a delay below 2 ^ 62 ns: Enforce stores the earliest slot for the host, and fails
-- exactly when it has to wait for that slot and the context ends first; the slot stays taken then.
-- Other hosts keep their slots.
pub enforce_outcome :
    (ctx_done : Bool) (pm : PolitenessManager) (host : String) (delay now : ℕ)
    → InHorizon (lookup host pm.last_scrape_time)
    → delay < horizon
    → now < horizon
    → let slot = earliest_slot (lookup host pm.last_scrape_time) delay now in
      let (result, pm') = enforce ctx_done pm host (pos delay) now in
      (result ≡ (if ltb now slot && ctx_done then err cancelled else ok tt))
      × (lookup host pm'.last_scrape_time ≡ some slot)
      × ((j : String) → host ≢ j → lookup j pm'.last_scrape_time ≡ lookup j pm.last_scrape_time)
unfolding enforce
enforce_outcome ctx_done pm host delay now h d t = (
  waits (lookup host pm.last_scrape_time) delay now ctx_done h d t,
  lookup-insert host host _ pm.last_scrape_time
      ∙ rw (eq_refl host) (ap some (reserve-earliest pm host delay now h d t)),
  λ j ne. lookup-insert host j _ pm.last_scrape_time ∙ ground (arith, eq_iff host j),
)
