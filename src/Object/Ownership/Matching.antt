-- ===== src/Object/Ownership/Matching.antt =====
-- What `corto_source_match` decides.
use corto.Base.{◌≡◌, Bool, true, false, not, ◌&&◌, ◌||◌, Option, none, some, arith}
use corto.Object.Ownership.{Source, mount, other, same_source, is_null, source_match}

-- A mount whose policy is local, or NULL.
abbrev is_local : Option Source → Bool
is_local none = true
is_local (some s) = elim (s.role) [ mount local ↦ local | other ↦ false ]

abbrev is_mount : Option Source → Bool
is_mount none = false
is_mount (some s) = elim (s.role) [ mount local ↦ true | other ↦ false ]

-- A source matches another exactly when they are the same, when neither is a mount, or when one is
-- NULL and the other is a mount with local ownership; the order of the two makes no difference.
source_match_lem :
    (source current : Option Source)
    → (source_match source current ≡ (
        same_source source current
        || (not (is_mount source) && not (is_mount current))
        || ((is_null source || is_null current) && is_local source && is_local current)))
      × (source_match source current ≡ source_match current source)
unfolding source_match
source_match_lem none none = ground arith
source_match_lem none (some b) = ground arith
source_match_lem (some a) none = ground arith
source_match_lem (some a) (some b) = ground arith
