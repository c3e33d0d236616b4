-- ===== src/Tests/ObserverTests.antt =====
-- An event that bubbles up: src/vstore/observer.c.
use corto.Base.{ℕ, ◌≡◌, refl, ◌↔◌, ◌⊎◌, Bool, true, false, none, [], ◌∷◌, ◌==◌, if◌then◌else◌}
use corto.Vstore.Observers.{Observer, Observables, notify}
use corto.Vstore.Observers.Reach.{IsIn, IsHeard, IsReached, notify_iff}

abbrev observer : ℕ → Bool → Observer
observer address on_tree = record {
  address = address;
  events = λ mask. mask == 4;
  on_tree = on_tree;
  observed_type = none;
  instance_object = none;
}

-- 3 stands in 2, which stands in 1. The scope of 2 has one observer, that of 1 two.
abbrev tree : Observables
tree = record {
  type_of = λ o. 9;
  is_orphan = λ o. false;
  on_self = λ o. [];
  on_child = λ o.
      if o == 2
      then observer 20 false ∷ []
      else if o == 1
      then observer 10 false ∷ observer 11 true ∷ []
      else [];
}

notify_iff_example :
    IsIn
      (record { observer = 11; observable = 3 })
      (notify tree none 4 false false 3 (2 ∷ 1 ∷ [])).1
    ↔ (IsHeard tree none 4 3 0 [] (record { observer = 11; observable = 3 })
        ⊎ IsReached tree none 4 3 0 (2 ∷ 1 ∷ []) (record { observer = 11; observable = 3 }))
notify_iff_example =
    notify_iff tree none 4 false 3 (2 ∷ 1 ∷ []) (record { observer = 11; observable = 3 }) refl
      (refl, (refl, tt))

-- The observer of the direct parent, and the one of the tree.
bubbled :
    (notify tree none 4 false false 3 (2 ∷ 1 ∷ [])).1
    ≡ record { observer = 20; observable = 3 } ∷ record { observer = 11; observable = 3 } ∷ []
unfolding notify
bubbled = refl
