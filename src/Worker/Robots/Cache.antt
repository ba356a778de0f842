-- ===== src/Worker/Robots/Cache.antt =====
-- worker/internal/robots/robots.go: what the cache answers.
use distributed_web_crawler.Base.{
  Bool-cases, eq_refl, inr, lookup-insert, Result-cases, arith, inl, sym, Option-cases, str_eq,
  subst, lookup, ℤ, ◌≡◌, Bool, Option, String, ok, false, some,
}
use distributed_web_crawler.Services.Web.{Web}
use distributed_web_crawler.Worker.Robots.{
  RobotChecker, is_allowed, get_crawl_delay, check_host, delay_for, fetch_group, verdict,
}

module _ (web : Web) where
  open web use {Url, Group, parse, host, path}

  -- A URL that can be asked about.
  record IsAskable (target_url : String) (u : Url) : Type 0 where
    parses : parse target_url ≡ some u
    named : str_eq (host u) "" ≡ false

  allowed-IsAskable :
      (target_url : String) (c : RobotChecker web) (b : Bool)
      → (is_allowed web target_url c).0 ≡ ok b
      → (u : Url) × IsAskable target_url u
        × ((check_host web u c).0 ≡ ok b)
        × ((is_allowed web target_url c).1 ≡ (check_host web u c).1)
  unfolding is_allowed
  allowed-IsAskable target_url c b h = elim (Option-cases (parse target_url)) [
    | inl e ↦ ground arith
    | inr (u, e) ↦ elim (Bool-cases (str_eq (host u) "")) [
      | inl empty ↦ ground arith
      | inr named ↦ (
        u,
        record { parses = e; named = named },
        rw (e, is_allowed, named) at h,
        rw (e, is_allowed, named),
      )
    ]
  ]

  -- An answer leaves the host in the cache, with the group that decides it.
  check_host-cached :
      (u : Url) (c : RobotChecker web) (b : Bool)
      → (check_host web u c).0 ≡ ok b
      → (g : Option Group) × (lookup (host u) (check_host web u c).1.cache ≡ some g)
        × (b ≡ verdict web g (path u))
  unfolding check_host
  check_host-cached u c b h = elim (Option-cases (lookup (host u) c.cache)) [
    | inl missed ↦ elim (Result-cases (fetch_group web u c).0) [
      | inl (g, e) ↦ (
        g,
        ground (
          arith,
          lookup-insert (host u) (host u) g (fetch_group web u c).1.cache,
          eq_refl (host u),
        ),
        ground arith,
      )
      | inr (x, e) ↦ ground arith
    ]
    | inr (g, hit) ↦ (g, ground arith, ground arith)
  ]

  check_host-hit :
      (u : Url) (c : RobotChecker web) (g : Option Group)
      → lookup (host u) c.cache ≡ some g
      → check_host web u c ≡ (ok (verdict web g (path u)), c)
  unfolding check_host
  check_host-hit u c g e = rw (e, check_host)

  -- Once a URL has got an answer, it gets the same one again, and nothing is sent or cached for it.
  pub is_allowed_repeats :
      (target_url : String) (c : RobotChecker web) (b : Bool)
      → (is_allowed web target_url c).0 ≡ ok b
      → let c' = (is_allowed web target_url c).1 in is_allowed web target_url c' ≡ (ok b, c')
  unfolding is_allowed
  is_allowed_repeats target_url c b h =
      let (u, askable, answered, same) = allowed-IsAskable target_url c b h in
      let (g, cached, decides) = check_host-cached u c b answered in
      let c' = (check_host web u c).1 in
      subst (λ t. is_allowed web target_url t ≡ (ok b, t)) (sym same)
        (rw (askable.parses, is_allowed, askable.named, check_host-hit u c' g cached, decides))

  delay_for-answered :
      (target_url : String) (u : Url) (c : RobotChecker web) (d : ℤ)
      → IsAskable target_url u
      → (delay_for web target_url u c).0 ≡ ok d
      → let c' = (delay_for web target_url u c).1 in
        (b : Bool) × (is_allowed web target_url c' ≡ (ok b, c'))
  unfolding delay_for is_allowed
  delay_for-answered target_url u c d askable h = elim (Option-cases (lookup (host u) c.cache)) [
    | inr (g, hit) ↦
        rw (hit, delay_for)
          (
            verdict web g (path u),
            rw (askable.parses, is_allowed, askable.named, check_host-hit u c g hit),
          )
    | inl missed ↦ elim (Result-cases (is_allowed web target_url c).0) [
      | inl (b, e) ↦ rw (missed, delay_for, e) (b, is_allowed_repeats target_url c b e)
      | inr (x, e) ↦ ground arith
    ]
  ]

  -- After a crawl delay was given, the question whether the URL is allowed is answered, and needs no
  -- request.
  pub is_allowed-get_crawl_delay :
      (target_url : String) (c : RobotChecker web) (d : ℤ)
      → (get_crawl_delay web target_url c).0 ≡ ok d
      → let c' = (get_crawl_delay web target_url c).1 in
        (b : Bool) × (is_allowed web target_url c' ≡ (ok b, c'))
  unfolding get_crawl_delay
  is_allowed-get_crawl_delay target_url c d h = elim (Option-cases (parse target_url)) [
    | inl e ↦ ground arith
    | inr (u, e) ↦ elim (Bool-cases (str_eq (host u) "")) [
      | inl empty ↦ ground arith
      | inr named ↦
          rw (e, get_crawl_delay, named)
            (delay_for-answered target_url u c d (record { parses = e; named = named })
              (rw (e, get_crawl_delay, named) at h))
    ]
  ]
