-- ===== src/Config/Path/Tests.antt =====
-- Parents and joins of some paths.
use honey_mind.Base.{codes, ◌≡◌, refl, none, some, []}
use honey_mind.Config.Path.{parent, parent_back, trim_back, drop_name, join, ends_in_slash}

parent_tests :
    (parent (codes "/etc/minotaur.toml") ≡ some (codes "/etc"))
    × (parent (codes "minotaur.toml") ≡ some [])
    × (parent (codes "./a//b/.") ≡ some (codes "./a"))
    × (parent (codes "/a") ≡ some (codes "/"))
    × (parent (codes "/") ≡ none)
    × (join (codes "/etc") (codes "log") ≡ codes "/etc/log")
unfolding parent parent_back trim_back drop_name join ends_in_slash
parent_tests = (refl, refl, refl, refl, refl, refl)
