-- ===== src/Common/Environment/Tests.antt =====
-- The search for the `.env` file at a concrete input.
use distributed_web_crawler.Common.Environment.Search.{find_env-IsNearest, IsNearest}
use distributed_web_crawler.Base.{str_eq, false, Bool, ◌≡◌, refl, some, [], ◌∷◌}
use distributed_web_crawler.Common.Environment.{Directory, find_env}

abbrev repository : Directory
repository = "crawler" ∷ "src" ∷ []

-- The file is in the repository's directory, and the program runs two below it.
abbrev has_env : Directory → Bool
has_env [] = false
has_env (name ∷ dir) = str_eq name "crawler"

finds : find_env has_env ("cmd" ∷ "worker" ∷ "crawler" ∷ "src" ∷ []) ≡ some repository
unfolding find_env
finds = refl

find_env-IsNearest_example :
    IsNearest has_env ("cmd" ∷ "worker" ∷ "crawler" ∷ "src" ∷ []) repository
find_env-IsNearest_example =
    find_env-IsNearest has_env ("cmd" ∷ "worker" ∷ "crawler" ∷ "src" ∷ []) repository finds
