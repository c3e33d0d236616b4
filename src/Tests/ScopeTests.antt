-- ===== src/Tests/ScopeTests.antt =====
-- The tree of scopes: src/store/object.c. Ids are compared as they are.
use corto.Base.{
  ℕ, ◌≡◌, ◌≢◌, refl, Bool, true, false, none, some, [], ◌∷◌, ◌==◌, if◌then◌else◌, Text, str_eq,
  arith, Option, write,
}
use corto.Object.Scopes.{Tree, Scope, Options, Catalog, find, remove_id, adopt, check_constraints}
use corto.Object.Scopes.Keys.{Objects, IsDistinct, write-holds}
use corto.Object.Scopes.Shape.{IsTree, IsReady}
use corto.Object.Scopes.Lost.{adopt-lost}

-- The parent 1 holds the placeholder 2, of the unknown type 90, which holds 3. Type 91 wants a parent
-- that is valid.
abbrev options_of : ℕ → Options
options_of t = record { parent_type = none; declared = false; valid = t == 91 }

abbrev pub catalog : Bool → Catalog
catalog valid = record {
  type_of = λ o. if o == 2 then 90 else 91;
  options = options_of;
  valid = λ o. valid;
  named = λ o. true;
  orphan = λ o. false;
  unknown = 90;
  table_instance = 92;
  container = 93;
  leaf = 94;
  table_type = λ o. 0;
  instance_of = λ t o. false;
  type_instance_of = λ t u. false;
  builtin = λ o. false;
}

abbrev pub a : Text
a = b'a' ∷ []

abbrev pub tree : Tree
tree = record {
  parent =
      λ o. if o == 3 then some 2 else if o == 2 then some 1 else if o == 4 then some 1 else none;
  id = λ o. if o == 2 then some a else if o == 4 then some a else none;
  scope = write (write (λ o. []) 2 ((a, 3) ∷ [])) 1 ((a, 2) ∷ []);
  counts = record {
    count = λ o. if o == 1 then 2 else if o == 2 then 2 else 1;
    destroyed = [];
    broken = false;
  };
  declared = [];
  locks = λ o. 0;
}

pub everywhere :
    (P : ℕ → Scope → Type 0)
    → P 1 ((a, 2) ∷ [])
    → P 2 ((a, 3) ∷ [])
    → ((q : ℕ) → P q [])
    → (q : ℕ) → P q (tree.scope q)
everywhere P one two none_there =
    write-holds P (write (λ o. []) 2 ((a, 3) ∷ [])) 1 ((a, 2) ∷ []) one
      (λ q n. write-holds P (λ o. []) 2 ((a, 3) ∷ []) two (λ r m. none_there r) q)

pub tree-IsTree : (v : Bool) → IsTree (catalog v) (λ o. 1) tree
tree-IsTree v = record {
  linked =
      everywhere (λ p es. Objects (λ o. tree.parent o ≡ some p) es) (refl, tt) (refl, tt) (λ q. tt);
  distinct = everywhere (λ p es. IsDistinct es) (tt, tt) (tt, tt) (λ q. tt);
  counted = λ p b. ground arith;
}

four-IsReady : IsReady 1 4 tree
four-IsReady = record {
  parent = refl;
  away =
      everywhere (λ q es. Objects (λ o. o ≢ 4) es) ((λ e. ground arith), tt)
        ((λ e. ground arith), tt) (λ q. tt);
  empty = refl;
  apart = λ e. ground arith;
  acyclic = ((λ e. ground arith), tt);
}

-- The new object takes the placeholder's place, and its objects.
abbrev adopted : Tree
adopted = (adopt str_eq (catalog true) 1 4 false tree).0

children_moved : adopted.scope 4 ≡ (a, 3) ∷ []
unfolding adopt
children_moved = refl

-- A parent that is not valid refuses it.
abbrev refused : Tree
refused = (adopt str_eq (catalog false) 1 4 false tree).0

four_refused :
    ◌≡◌ {A = Tree × Option ℕ} (adopt str_eq (catalog false) 1 4 false tree) (refused, none)
unfolding adopt
four_refused = refl

four-unfit : check_constraints (catalog false) 1 4 ≡ false
unfolding check_constraints
four-unfit = refl

a-found : find str_eq a (tree.scope 1) ≡ some 2
unfolding find
a-found = refl

adopt-lost_example :
    (refused.scope 1 ≡ remove_id str_eq a ((a, 2) ∷ []))
    × (refused.scope 2 ≡ [])
    × Objects (λ o. refused.parent o ≡ some 4) ((a, 3) ∷ [])
    × (refused.parent 4 ≡ none)
adopt-lost_example =
    adopt-lost str_eq (catalog false) 1 4 2 tree (λ o. 1) false refused (tree-IsTree false)
      four-IsReady a-found (λ i. refl) refl refl four-unfit four_refused

abbrev pub b : Text
b = b'b' ∷ []

pub b-new : find str_eq b (tree.scope 1) ≡ none
unfolding find
b-new = refl
