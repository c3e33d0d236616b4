-- ===== src/Object/Path/Resolution.antt =====
-- `corto_resolve_intern` on the path that `corto_fullpath` prints.
use corto.Base.{ℕ, List, [], ◌∷◌, ◌++◌, if◌then◌else◌}
use corto.Object.Path.Resolve.{mem}

-- A scope is tried behind those that are tried already.
abbrev also : List ℕ → ℕ → List ℕ
also tried o = if mem o tried then tried else tried ++ o ∷ []
