-- ===== src/Scheduler/Results/Race/Alone.antt =====
-- scheduler/internal/broker/broker.go: a loop that nobody interrupts does what `queue_links` does.
use distributed_web_crawler.Base.{
  ℕ, zero, suc, ◌*◌, ◌≤◌, length, String, true, false, List, [], ◌∷◌, Result-cases, ok, ◌≡◌, refl,
  ◌∙◌, inl, inr, arith, ap,
}
use distributed_web_crawler.Services.Redis.{Redis}
use distributed_web_crawler.Services.Json.{Json}
use distributed_web_crawler.Services.Rabbit.{Rabbit}
use distributed_web_crawler.Scheduler.World.{World}
use distributed_web_crawler.Scheduler.Bloom.{check_url_duplicate}
use distributed_web_crawler.Scheduler.Results.{queue_link, queue_links}
use distributed_web_crawler.Scheduler.Results.Race.{
  Loop, at_link, is_new, link_step, loop_step, alone,
}

module _ (r : Redis) (j : Json) (q : Rabbit j.Body) where
  -- A loop at its end stays there.
  alone-end :
      (n : ℕ) (l : Loop) (w : World r j q) → alone r j q n (at_link l []) w ≡ (at_link l [], w)
  unfolding alone
  alone-end zero l w = refl
  alone-end (suc n) l w = alone-end n l w

  module _ (u : String) (us : List String) (l : Loop) (w : World r j q) where
    -- A link that is known, or that the filter gives no answer for, takes one step.
    skips :
        (n : ℕ)
        → is_new (check_url_duplicate r u w.store).0 ≡ false
        → alone r j q (suc n) (at_link l (u ∷ us)) w
          ≡ alone r j q n (at_link l us) (queue_link r j q l.depth l.max_depth u w)
    unfolding alone link_step loop_step queue_link
    skips n known = elim (Result-cases (check_url_duplicate r u w.store).0) [
      | inl (true, e) ↦ rw (e, loop_step, link_step, alone, queue_link) refl
      | inl (false, e) ↦ absurd (cc (rw e at known))
      | inr (x, e) ↦ rw (e, loop_step, link_step, alone, queue_link) refl
    ]

    -- A new one takes three.
    inserted :
        (n : ℕ)
        → (check_url_duplicate r u w.store).0 ≡ ok false
        → alone r j q (suc (suc (suc n))) (at_link l (u ∷ us)) w
          ≡ alone r j q n (at_link l us) (queue_link r j q l.depth l.max_depth u w)
    unfolding alone link_step loop_step queue_link
    inserted n e = rw (e, loop_step, link_step, alone, queue_link) refl

  -- A loop over links that nobody interrupts has come to its end after three commands for each link,
  -- and has done then what queue_links does.
  pub alone-queue_links :
      (urls : List String) (n : ℕ) (l : Loop) (w : World r j q)
      → 3 * length urls ≤ n
      → alone r j q n (at_link l urls) w
        ≡ (at_link l [], queue_links r j q l.depth l.max_depth urls w)
  unfolding alone queue_links link_step
  alone-queue_links [] n l w enough = alone-end n l w
  alone-queue_links (u ∷ us) zero l w enough = ground arith
  alone-queue_links (u ∷ us) (suc zero) l w enough = ground arith
  alone-queue_links (u ∷ us) (suc (suc zero)) l w enough = ground arith
  alone-queue_links (u ∷ us) (suc (suc (suc n))) l w enough =
      let w' = queue_link r j q l.depth l.max_depth u w in
      let later = alone-queue_links us (suc (suc n)) l w' (omega arith) in
      elim (Result-cases (check_url_duplicate r u w.store).0) [
        | inl (true, e) ↦ skips u us l w (suc (suc n)) (ap is_new e) ∙ later
        | inl (false, e) ↦ inserted u us l w n e ∙ alone-queue_links us n l w' (omega arith)
        | inr (x, e) ↦ skips u us l w (suc (suc n)) (ap is_new e) ∙ later
      ]
