-- ===== src/Scheduler/Jobs/Slot/Tests.antt =====
-- The place for one job at concrete operations.
use distributed_web_crawler.Base.{
  Option-cases, inl, inr, ◌≡◌, All, true, false, none, some, refl, pos, arith, List, [], ◌∷◌,
  lookup,
}
use distributed_web_crawler.Services.Memory.{empty_store}
use distributed_web_crawler.Scheduler.Samples.{up_redis}
use distributed_web_crawler.Scheduler.Jobs.Locking.{SetNxWorks}
use distributed_web_crawler.Scheduler.Jobs.Slot.{
  Operation, starts, asks_depth, asks_active, cleans, lock_expires, limit_expires, Place, replies,
  started, depth, cleaned, expired, active,
}
use distributed_web_crawler.Scheduler.Jobs.Slot.Refines.{
  Answers, Fits, Stands, replies-spec_replies,
}

sets : SetNxWorks up_redis
sets k v ttl s = elim (Option-cases (lookup k s.values)) [
  | inl e ↦ (true, rw e refl)
  | inr (_, e) ↦ (false, rw e refl)
]

answers : Answers up_redis
answers = record {
  exists = λ k s. (_, refl);
  get = λ k s e. ground arith;
  set = λ k v ttl s. refl;
  set_nx = sets;
  del = λ k s. (_, refl);
}

-- Two starts, of which the second is refused, a cleanup, and a third start.
abbrev day : List Operation
day =
    starts "http://a.org/" (pos 2) (pos 100) (pos 3600)
    ∷ starts "http://b.org/" (pos 3) (pos 110) (pos 3600)
    ∷ asks_depth
    ∷ cleans
    ∷ asks_active
    ∷ starts "http://b.org/" (pos 3) (pos 120) (pos 3600)
    ∷ lock_expires
    ∷ starts "http://c.org/" (pos 4) (pos 3800) (pos 3600)
    ∷ limit_expires
    ∷ asks_depth
    ∷ []

fits : All (Fits up_redis) day
fits = (
  (omega arith, omega arith),
  (
    (omega arith, omega arith),
    (
      tt,
      (tt, (tt, ((omega arith, omega arith), (tt, ((omega arith, omega arith), (tt, (tt, tt))))))),
    ),
  ),
)

abbrev free : Place
free = record { taken = false; limit = none }

nothing : Stands up_redis free empty_store
unfolding lookup
nothing = record { lock = refl; limit = refl }

replies-spec_replies_example :
    replies up_redis day empty_store
    ≡ started true
      ∷ started false
      ∷ depth (some (pos 2))
      ∷ cleaned
      ∷ active false
      ∷ started true
      ∷ expired
      ∷ started true
      ∷ expired
      ∷ depth none
      ∷ []
replies-spec_replies_example =
    replies-spec_replies up_redis answers day free empty_store fits nothing
