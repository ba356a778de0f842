-- ===== src/System/Spawns.antt =====
-- Steps of the scheduler that queue messages at most.
use distributed_web_crawler.Base.{
  refl, ◌∙◌, ◌≡◌, true, String, Bool-cases, str_eq, eq_iff, false≢true, sym, subst, none, inl, inr,
}
use distributed_web_crawler.Services.Redis.{Redis}
use distributed_web_crawler.Services.Json.{Json}
use distributed_web_crawler.Services.Rabbit.{Publishing, Rabbit}
use distributed_web_crawler.Scheduler.World.{World}
use distributed_web_crawler.Scheduler.Jobs.{is_job_active, max_depth_key, force_cleanup_job}
use distributed_web_crawler.Scheduler.Jobs.Locking.{value-is_job_active}
use distributed_web_crawler.Scheduler.Handlers.{clean_up}
use distributed_web_crawler.System.Effects.{
  HasLimit-same, Effects, Effects-same, Effects-trans, HasLimit,
}
use distributed_web_crawler.System.Limits.{force_cleanup_job-HasLimit}

module _ (r : Redis) (j : Json) (q : Rabbit j.Body) where
  -- Messages for the workers at most: nothing goes to the batcher.
  pub record Spawns (P : Publishing j.Body → Type 0) (w w' : World r j q) : Type 0 where
    pub effects : Effects r j q P w w'
    pub dbchan : w'.dbchan ≡ w.dbchan

  module _ (P : Publishing j.Body → Type 0) where
    pub Spawns-trans : (u v w : World r j q) → Spawns P u v → Spawns P v w → Spawns P u w
    Spawns-trans u v w a b = record {
      effects = Effects-trans r j q P u v w a.effects b.effects;
      dbchan = b.dbchan ∙ a.dbchan;
    }

    -- Another store and another broker.
    pub Spawns-store :
        (s : r.Store) (b : q.State) (w : World r j q)
        → (HasLimit r j q w.store → HasLimit r j q s)
        → Spawns P w (record w { store = s; broker = b })
    Spawns-store s b w l = record { effects = Effects-same r j q P w _ refl refl l; dbchan = refl }

    pub clean_up-Spawns : (w : World r j q) → Spawns P w (clean_up r j q true w)
    clean_up-Spawns w =
        Spawns-store (force_cleanup_job r w.store) w.broker w
          (force_cleanup_job-HasLimit r j q w.store)

    -- The read of the lock.
    pub looked :
        (w : World r j q) (b : q.State)
        → Spawns P w (record w { store = (is_job_active r w.store).1; broker = b })
    looked w b =
        Spawns-store (is_job_active r w.store).1 b w
          (HasLimit-same r j q w.store _ (value-is_job_active r max_depth_key w.store))

    -- The end of a key's time to live.
    pub expire-Spawns :
        (k : String) (w : World r j q) → Spawns P w (record w { store = r.expire k w.store })
    expire-Spawns k w =
        let t = r.expire k w.store in
        Spawns-store t w.broker w λ h. elim (Bool-cases (str_eq k max_depth_key)) [
          | inl same ↦ inl (
              subst (λ x. r.value x t ≡ none) ((eq_iff k max_depth_key).0 same)
                (r.expire_gone k w.store))
          | inr other ↦
              HasLimit-same r j q w.store t
                (r.expire_other k max_depth_key w.store
                  (λ e. false≢true (sym other ∙ (eq_iff k max_depth_key).1 e)))
                h
        ]
