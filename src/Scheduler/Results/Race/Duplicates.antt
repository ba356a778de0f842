-- ===== src/Scheduler/Results/Race/Duplicates.antt =====
-- scheduler/internal/broker/broker.go: how often a URL is published by loops that interleave.
use distributed_web_crawler.Base.{
  ℕ, zero, suc, ◌+◌, ◌≤◌, String, str_eq, eq_iff, if◌then◌else◌, Bool, Bool-cases, true, false,
  List, [], ◌∷◌, ◌++◌, Result-cases, pos, add64, ◌≡◌, refl, ◌∙◌, inl, inr, arith, ap,
}
use distributed_web_crawler.Common.Models.{CrawlMessage}
use distributed_web_crawler.Services.Redis.{Redis}
use distributed_web_crawler.Services.Json.{Json}
use distributed_web_crawler.Services.Rabbit.{Rabbit, Publishing}
use distributed_web_crawler.Scheduler.World.{World}
use distributed_web_crawler.Scheduler.Bloom.{bloom_filter_key, check_url_duplicate, add_to_bloom}
use distributed_web_crawler.Scheduler.Broker.{insert_message}
use distributed_web_crawler.Scheduler.Broker.Publish.{
  insert_message_outcome, insert_message-Keeps, to_hashing,
}
use distributed_web_crawler.Scheduler.Results.Dedup.{member}
use distributed_web_crawler.Scheduler.Results.Race.{
  Loop, Command, checks, adds, inserts, at, link_step, loop_step, move, moves,
}

-- One if the texts are the same.
abbrev pub one_if : Bool → ℕ
one_if b = if b then 1 else 0

-- A loop that has found the URL to be new, and has still to publish it.
abbrev pub passed : String → Command → List String → ℕ
passed x checks urls = 0
passed x adds [] = 0
passed x adds (u ∷ us) = one_if (str_eq u x)
passed x inserts [] = 0
passed x inserts (u ∷ us) = one_if (str_eq u x)

abbrev pub pending : String → List Loop → ℕ
pending x [] = 0
pending x (l ∷ ls) = passed x l.command l.rest + pending x ls

-- How many of the messages carry the URL.
abbrev pub copies : {B : Type 0} → String → List (Publishing B) → ℕ
copies x [] = 0
copies x (p ∷ ps) = one_if (str_eq p.routing_key x) + copies x ps

copies-snoc :
    {B : Type 0} (x : String) (ps : List (Publishing B)) (p : Publishing B)
    → copies x (ps ++ p ∷ []) ≡ copies x ps + one_if (str_eq p.routing_key x)
copies-snoc x [] p = omega arith
copies-snoc x (y ∷ ys) p = omega (arith, copies-snoc x ys p)

module _ (r : Redis) (j : Json) (q : Rabbit j.Body) where
  -- The URL stays known, and no more copies are published than loops had found it new before.
  pub record Bounded (x : String) (n : ℕ) (w : World r j q) (n' : ℕ) (w' : World r j q)
      : Type 0 where
    pub known : member r j q w' x ≡ true
    pub few : copies x w'.published + n' ≤ copies x w.published + n

  module _ (x : String) where
    insert-copies :
        (m : CrawlMessage) (w : World r j q)
        → copies x (insert_message r j q m.url m.current_depth m.max_depth w).1.published
          ≤ copies x w.published + one_if (str_eq m.url x)
    insert-copies m w = elim (insert_message_outcome r j q m w) [
      | inl (_, queued) ↦
          rw queued.published
            (omega (arith, copies-snoc x w.published (to_hashing r j q m.url queued.body)))
      | inr (_, _, unqueued) ↦ rw unqueued.published (omega arith)
    ]

    -- A known URL is not found new.
    checks-few :
        (url : String) (urls : List String) (l : Loop) (w : World r j q)
        → member r j q w x ≡ true
        → let (l', _) = link_step r j q checks url urls l w in passed x l'.command l'.rest ≡ 0
    unfolding link_step check_url_duplicate
    checks-few url urls l w known =
        elim (Result-cases (r.bf_exists bloom_filter_key url w.store).0) [
          | inl (true, e) ↦ rw (e, link_step) refl
          | inl (false, e) ↦
              let absent : false ≡ r.member bloom_filter_key url w.store =
                r.bf_exists_ok bloom_filter_key url w.store false e in
              rw (e, link_step)
                (elim (Bool-cases (str_eq url x)) [
                  | inl same ↦ absurd (
                      cc (
                        absent,
                        ap (λ u. r.member bloom_filter_key u w.store) ((eq_iff url x).0 same),
                        known,
                      ))
                  | inr other ↦ rw other refl
                ])
          | inr (y, e) ↦ rw (e, link_step) refl
        ]

    link_step-Bounded :
        (c : Command) (url : String) (urls : List String) (l : Loop) (w : World r j q)
        → member r j q w x ≡ true
        → let (l', w') = link_step r j q c url urls l w in
          Bounded x (passed x c (url ∷ urls)) w (passed x l'.command l'.rest) w'
    unfolding link_step check_url_duplicate add_to_bloom
    link_step-Bounded checks url urls l w known = record {
      known = r.bf_exists_member bloom_filter_key url x w.store ∙ known;
      few = omega (arith, checks-few url urls l w known);
    }
    link_step-Bounded adds url urls l w known = record {
      known = r.bf_add_grows bloom_filter_key url x w.store known;
      few = omega arith;
    }
    link_step-Bounded inserts url urls l w known =
        let m : CrawlMessage = record {
          url = url;
          current_depth = add64 l.depth (pos 1);
          max_depth = l.max_depth;
        } in
        record {
          known = ap (r.member bloom_filter_key x) (insert_message-Keeps r j q m w).store ∙ known;
          few = omega (arith, insert-copies m w);
        }

    loop_step-Bounded :
        (c : Command) (urls : List String) (l : Loop) (w : World r j q)
        → member r j q w x ≡ true
        → let (l', w') = loop_step r j q urls (at c l urls) w in
          Bounded x (passed x c urls) w (passed x l'.command l'.rest) w'
    unfolding loop_step
    loop_step-Bounded c [] l w known = record { known = known; few = omega arith }
    loop_step-Bounded c (url ∷ urls) l w known =
        link_step-Bounded c url urls (at c l (url ∷ urls)) w known

    move-Bounded :
        (n : ℕ) (ls : List Loop) (w : World r j q)
        → member r j q w x ≡ true
        → let (ls', w') = move r j q n ls w in Bounded x (pending x ls) w (pending x ls') w'
    unfolding move
    move-Bounded n [] w known = record { known = known; few = omega arith }
    move-Bounded zero (l ∷ ls) w known =
        let one = loop_step-Bounded l.command l.rest l w known in
        record { known = one.known; few = omega (arith, one.few) }
    move-Bounded (suc n) (l ∷ ls) w known =
        let rest = move-Bounded n ls w known in
        record { known = rest.known; few = omega (arith, rest.few) }

    -- However the loops of several result consumers interleave, command by command: a URL that the
    -- filter knows stays known, and from then on it is published at most as often as there are loops
    -- that had found it new before and have not published it yet.
    pub moves-Bounded :
        (ns : List ℕ) (ls : List Loop) (w : World r j q)
        → member r j q w x ≡ true
        → let (ls', w') = moves r j q ns ls w in Bounded x (pending x ls) w (pending x ls') w'
    unfolding moves
    moves-Bounded [] ls w known = record { known = known; few = omega arith }
    moves-Bounded (n ∷ ns) ls w known =
        let (ls₁, w₁) = move r j q n ls w in
        let one = move-Bounded n ls w known in
        let rest = moves-Bounded ns ls₁ w₁ one.known in
        record { known = rest.known; few = omega (arith, one.few, rest.few) }
