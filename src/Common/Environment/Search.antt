-- ===== src/Common/Environment/Search.antt =====
-- common/config.go: which `.env` file `InitConfig` finds.
use distributed_web_crawler.Base.{
  sym, arith, ap, subst, Bool-cases, ◌++◌, List, String, ◌≡◌, Bool, refl, true, false, some, inl,
  inr, [], ◌∷◌,
}
use distributed_web_crawler.Common.Environment.{Directory, find_env}

-- The nearest directory with the file: `below` leads from it down to the start, and no directory on the way,
-- the start included, has the file.
pub record IsNearest (has_env : Directory → Bool) (start found : Directory) : Type 0 where
  pub below : List String
  pub above : start ≡ below ++ found
  pub has : has_env found ≡ true
  pub first :
      (lower : List String) (name : String) (upper : List String)
      → lower ++ name ∷ upper ≡ below
      → has_env (name ∷ upper ++ found) ≡ false

split_nil :
    (lower : List String) (name : String) (upper : List String) → lower ++ name ∷ upper ≡ [] → ⊥
split_nil [] name upper e = cc e
split_nil (x ∷ lower) name upper e = cc e

here :
    (has_env : Directory → Bool) (start : Directory)
    → has_env start ≡ true
    → IsNearest has_env start start
here has_env start h = record {
  below = [];
  above = refl;
  has = h;
  first = λ lower name upper e. absurd (split_nil lower name upper e);
}

-- Going up from a directory without the file.
up_from :
    (has_env : Directory → Bool) (x : String) (xs d : Directory)
    → has_env (x ∷ xs) ≡ false
    → IsNearest has_env xs d
    → IsNearest has_env (x ∷ xs) d
up_from has_env x xs d missing i = record {
  below = x ∷ i.below;
  above = ap (λ (l : List String). x ∷ l) i.above;
  has = i.has;
  first = go;
}
  where
    go :
        (lower : List String) (name : String) (upper : List String)
        → lower ++ name ∷ upper ≡ x ∷ i.below
        → has_env (name ∷ upper ++ d) ≡ false
    go [] name upper e =
        let same_name : name ≡ x = cc e in
        let same_rest : upper ≡ i.below = cc e in rw (same_name, same_rest, sym i.above) missing
    go (y ∷ lower) name upper e = i.first lower name upper (cc e)

-- The directory that InitConfig takes the .env file from has one, and is the nearest: no directory
-- between it and the working directory, that one included, has one.
pub find_env-IsNearest :
    (has_env : Directory → Bool) (start found : Directory)
    → find_env has_env start ≡ some found
    → IsNearest has_env start found
unfolding find_env
find_env-IsNearest has_env [] found h = elim (Bool-cases (has_env [])) [
  | inl e ↦ subst (IsNearest has_env []) (cc (rw (e, find_env) at h)) (here has_env [] e)
  | inr e ↦ ground arith
]
find_env-IsNearest has_env (x ∷ xs) found h = elim (Bool-cases (has_env (x ∷ xs))) [
  | inl e ↦
      subst (IsNearest has_env (x ∷ xs)) (cc (rw (e, find_env) at h)) (here has_env (x ∷ xs) e)
  | inr e ↦
      up_from has_env x xs found e (find_env-IsNearest has_env xs found (rw (e, find_env) at h))
]
