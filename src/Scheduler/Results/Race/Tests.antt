-- ===== src/Scheduler/Results/Race/Tests.antt =====
-- Two consumers whose pages have the same link.
use distributed_web_crawler.Base.{ℕ, List, [], ◌∷◌, ◌≡◌, refl, pos, true, arith}
use distributed_web_crawler.Services.MemoryBroker.{json}
use distributed_web_crawler.Scheduler.Samples.{World', up_redis, up_rabbit, running}
use distributed_web_crawler.Scheduler.Bloom.{check_url_duplicate, add_to_bloom}
use distributed_web_crawler.Scheduler.Broker.{insert_message}
use distributed_web_crawler.Scheduler.Results.{queue_links}
use distributed_web_crawler.Scheduler.Results.Dedup.{member}
use distributed_web_crawler.Scheduler.Results.Race.{Loop, checks, at_link, alone, moves}
use distributed_web_crawler.Scheduler.Results.Race.Alone.{alone-queue_links}
use distributed_web_crawler.Scheduler.Results.Race.Duplicates.{
  Bounded, copies, pending, moves-Bounded,
}

abbrev first : Loop
first = record {
  depth = pos 0;
  max_depth = pos 2;
  rest = "http://a.org/b" ∷ "http://a.org/" ∷ [];
  command = checks;
}

abbrev second : Loop
second = record first { depth = pos 1; rest = "http://a.org/b" ∷ [] }

-- They take turns.
abbrev turns : List ℕ
turns = 0 ∷ 1 ∷ 0 ∷ 1 ∷ 0 ∷ 1 ∷ 0 ∷ []

abbrev after : World'
after = (moves up_redis json up_rabbit turns (first ∷ second ∷ []) running).1

-- Both find the link to be new, and both publish it.
twice : copies "http://a.org/b" after.published ≡ 2
unfolding moves check_url_duplicate add_to_bloom insert_message
twice = refl

seed_known : member up_redis json up_rabbit running "http://a.org/" ≡ true
seed_known = refl

moves-Bounded_example :
    let (ls, w) = moves up_redis json up_rabbit turns (first ∷ second ∷ []) running in
    Bounded up_redis json up_rabbit "http://a.org/"
      (pending "http://a.org/" (first ∷ second ∷ []))
      running
      (pending "http://a.org/" ls)
      w
moves-Bounded_example =
    moves-Bounded up_redis json up_rabbit "http://a.org/" turns (first ∷ second ∷ []) running
      seed_known

undisturbed :
    alone up_redis json up_rabbit 6 first running
    ≡ (at_link first [], queue_links up_redis json up_rabbit (pos 0) (pos 2) first.rest running)
undisturbed = alone-queue_links up_redis json up_rabbit first.rest 6 first running (omega arith)
