-- ===== src/Object/Path/Termination.antt =====
-- The loop of a lookup ends.
use corto.Base.{Bool, true, false}
use corto.Object.Path.Search.{Ended, stopped, lost, jumped, overrun, unfinished}

-- The loop has come to its end, within the path.
abbrev is_proper : Ended → Bool
is_proper unfinished = false
is_proper overrun = false
is_proper (stopped o prev lastelem ptr c) = true
is_proper (lost prev ptr c) = true
is_proper (jumped c) = true
