-- ===== src/Tests/DeclarationTests.antt =====
-- The declaration of a child: src/store/object.c.
use corto.Base.{
  ℕ, ◌≡◌, ◌≢◌, refl, true, false, none, some, [], ◌∷◌, str_eq, str_eq_refl, arith, inr,
}
use corto.Object.Identifier.{valid_identifier}
use corto.Object.References.{set_count, claim}
use corto.Object.Scopes.{Tree, find}
use corto.Object.Scopes.Keys.{Objects}
use corto.Object.Scopes.Shape.{IsTree}
use corto.Object.Declaration.{
  Attributes, Blueprint, Declared, Request, refused, present, created, notify_declare,
  declare_child,
}
use corto.Object.Declaration.Attempts.{IsUnchanged, declare_child-undone, declare_child-present}
use corto.Object.Declaration.Growth.{IsNew, claimed, declare_child-IsTree}
use corto.Tests.ScopeTests.{tree, catalog, a, b, b-new, everywhere, tree-IsTree}

abbrev plain : Attributes
plain = record {
  named = false;
  writable = false;
  observable = false;
  persistent = false;
  default = true;
}

abbrev type : Blueprint
type = record {
  address = 91;
  is_type = true;
  valid = true;
  attributes = plain;
  void = false;
  reference = false;
  target = false;
  container = false;
}

-- The initializer of the object fails.
abbrev request : Request
request = record {
  orphan = false;
  force_type = false;
  define_void = false;
  allowed = true;
  ready = false;
}

abbrev undone : Tree
undone = (declare_child str_eq (catalog true) (λ o. false) 1 b type request plain 5 tree).0

five_undone :
    ◌≡◌ {A = Tree × Declared}
      (declare_child str_eq (catalog true) (λ o. false) 1 b type request plain 5 tree)
      (undone, refused)
unfolding declare_child
five_undone = refl

declare_child-undone_example : IsUnchanged 5 tree undone
declare_child-undone_example =
    declare_child-undone str_eq (catalog true) (λ o. false) 1 5 b type request plain tree undone
      str_eq_refl refl refl refl b-new (inr (omega arith)) (inr (omega arith)) refl refl five_undone

a-valid : valid_identifier a ≡ none
unfolding valid_identifier
a-valid = refl

three-found : find str_eq a (tree.scope 2) ≡ some 3
unfolding find
three-found = refl

declare_child-present_example :
    (u : Tree) × (declare_child str_eq (catalog true) (λ o. false) 2 a type request plain 5 tree
      ≡ (u, present 3))
    × ((q : ℕ) → u.scope q ≡ tree.scope q)
    × (u.counts ≡ claim (λ o. false) 3 (set_count 5 1 tree.counts))
declare_child-present_example =
    declare_child-present str_eq (catalog true) (λ o. false) 2 5 a type request plain tree 3 refl
      refl refl a-valid refl refl refl three-found refl refl refl refl (inr (omega arith)) refl

-- An object with all attributes; the initializer succeeds.
abbrev all : Attributes
all = record { named = true; writable = true; observable = true; persistent = true; default = true }

abbrev grown : Tree
grown =
    (declare_child str_eq (catalog true) (λ o. false) 1 b type (record request { ready = true })
      plain 5 tree).0

five_created :
    ◌≡◌ {A = Tree × Declared}
      (declare_child str_eq
        (catalog true)
        (λ o. false)
        1
        b
        type
        (record request { ready = true })
        plain
        5
        tree)
      (grown, created 5 all (notify_declare 5 ∷ []))
unfolding declare_child
five_created = refl

five-IsNew : IsNew 1 5 tree
five-IsNew = (
  everywhere (λ q es. Objects (λ o. o ≢ 5) es) ((λ e. ground arith), tt) ((λ e. ground arith), tt)
      (λ q. tt),
  refl,
  (λ e. ground arith),
  ((λ e. ground arith), tt),
)

declare_child-IsTree_example :
    IsTree (catalog true) (claimed 5 91 (λ o. 1)) grown
    × (find str_eq b (grown.scope 1) ≡ some 5)
    × ◌≡◌ {A = ℕ} 5 5
declare_child-IsTree_example =
    declare_child-IsTree str_eq (catalog true) (λ o. false) 1 5 b type
      (record request { ready = true }) plain tree (λ o. 1) grown 5 all (notify_declare 5 ∷ [])
      str_eq_refl refl refl (tree-IsTree true) five-IsNew refl five_created
