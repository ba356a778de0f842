-- ===== src/Scheduler/Results/Race.antt =====
-- scheduler/internal/broker/broker.go: the loops of several consumers at the same time. The filter and the
-- broker take their commands one at a time, in any order; a loop is where its next command is.
pub mod Alone
pub mod Duplicates
pub mod Tests
use distributed_web_crawler.Base.{
  ℕ, zero, suc, String, Bool, true, false, List, [], ◌∷◌, Result, ok, err, ℤ, pos, add64,
}
use distributed_web_crawler.Services.Redis.{Redis, RedisError}
use distributed_web_crawler.Services.Json.{Json}
use distributed_web_crawler.Services.Rabbit.{Rabbit}
use distributed_web_crawler.Scheduler.World.{World}
use distributed_web_crawler.Scheduler.Bloom.{check_url_duplicate, add_to_bloom}
use distributed_web_crawler.Scheduler.Broker.{insert_message}

-- What is to be done next with the first of the links.
pub data Command : Type 0 where
  checks adds inserts : Command

pub record Loop : Type 0 where
  pub depth : ℤ
  pub max_depth : ℤ
  pub rest : List String
  pub command : Command

abbrev pub at : Command → Loop → List String → Loop
at command l urls = record l { rest = urls; command = command }

-- The loop over these links, with the first of them to be checked.
abbrev pub at_link : Loop → List String → Loop
at_link = at checks

-- `err == nil && !res`
abbrev pub is_new : Result RedisError Bool → Bool
is_new (ok true) = false
is_new (ok false) = true
is_new (err e) = false

module _ (r : Redis) (j : Json) (q : Rabbit j.Body) where
  unfoldable pub link_step :
      Command → String → List String → Loop → World r j q → Loop × World r j q
  link_step checks url urls l w =
      let (res, s) = check_url_duplicate r url w.store in
      (
        elim (is_new res) [ true ↦ at adds l (url ∷ urls) | false ↦ at_link l urls ],
        record w { store = s },
      )
  link_step adds url urls l w =
      (at inserts l (url ∷ urls), record w { store = (add_to_bloom r url w.store).1 })
  link_step inserts url urls l w =
      (at_link l urls, (insert_message r j q url (add64 l.depth (pos 1)) l.max_depth w).1)

  -- One command; a loop that has no links left does nothing.
  unfoldable pub loop_step : List String → Loop → World r j q → Loop × World r j q
  unfolding link_step
  loop_step [] l w = (l, w)
  loop_step (url ∷ urls) l w = link_step l.command url urls l w

  -- A loop that nobody interrupts.
  unfoldable pub alone : ℕ → Loop → World r j q → Loop × World r j q
  unfolding loop_step
  alone zero l w = (l, w)
  alone (suc n) l w = let (l', w') = loop_step l.rest l w in alone n l' w'

  -- The loop with the number takes its next step.
  unfoldable pub move : ℕ → List Loop → World r j q → List Loop × World r j q
  unfolding loop_step
  move n [] w = ([], w)
  move zero (l ∷ ls) w = let (l', w') = loop_step l.rest l w in (l' ∷ ls, w')
  move (suc n) (l ∷ ls) w = let (ls', w') = move n ls w in (l ∷ ls', w')

  unfoldable pub moves : List ℕ → List Loop → World r j q → List Loop × World r j q
  unfolding move
  moves [] ls w = (ls, w)
  moves (n ∷ ns) ls w = let (ls', w') = move n ls w in moves ns ls' w'
