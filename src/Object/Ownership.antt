-- ===== src/Object/Ownership.antt =====
-- Which thread may change an object (src/store/object.c: `corto_source_match`, `corto_sourceof`,
-- `corto_owned`).
pub mod Matching
use corto.Base.{
  ℕ, Bool, true, false, not, ◌&&◌, ◌||◌, Option, none, some, List, [], ◌∷◌, ◌==◌, if◌then◌else◌,
}

-- The source of an object or of a thread. For a mount, `local` says that its policy's ownership is
-- CORTO_LOCAL_SOURCE.
pub data Role : Type 0 where
  mount : (local : Bool) → Role
  other : Role

pub record Source : Type 0 where
  pub address : ℕ
  pub role : Role

-- source == current
abbrev pub same_source : Option Source → Option Source → Bool
same_source none none = true
same_source none (some _) = false
same_source (some _) none = false
same_source (some a) (some b) = a.address == b.address

abbrev pub is_null : Option Source → Bool
is_null none = true
is_null (some _) = false

-- `source && corto_instanceof(corto_mount_o, source)`, and the policy of the mount.
abbrev pub mount_policy : Option Source → Option Bool
mount_policy none = none
mount_policy (some s) = elim (s.role) [ mount local ↦ some local | other ↦ none ]

unfoldable pub source_match : Option Source → Option Source → Bool
source_match source current =
    if same_source source current then true else elim (mount_policy source) [
      | some local ↦ is_null current && local
      | none ↦ elim (mount_policy current) [ some local ↦ is_null source && local | none ↦ true ]
    ]

-- What the functions read of the parents of an orphan, the nearest first.
pub record Ancestor : Type 0 where
  pub orphan : Bool
  pub persistent : Bool
  pub source : Option Source

unfoldable pub source_of_ancestors : List Ancestor → Option Source
source_of_ancestors [] = none
source_of_ancestors (a ∷ rest) =
    let further = source_of_ancestors rest in
    if a.orphan then further else if a.persistent then a.source else none
