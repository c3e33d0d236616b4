-- ===== src/Tests/SubscriptionTests.antt =====
-- The subscriptions of a mount: src/vstore/mount.c. Texts are compared as they are.
use corto.Base.{ℕ, ◌≡◌, refl, [], ◌∷◌, ◌++◌, Text, str_eq, arith}
use corto.Vstore.Subscriptions.{
  Query, Subscription, on_subscribe, on_unsubscribe, Mount, subscribe_mount, unsubscribe_mount,
  find_subscription,
}
use corto.Vstore.Subscriptions.Finding.{first_exact, last_from, or_last, find_subscription_lem}
use corto.Vstore.Subscriptions.Counting.{
  takes_both, opening, closing, unsubscribe-subscribe_new, unsubscribe-subscribe_again,
}
use corto.Vstore.Subscriptions.Sharing.{only_subscribe, unsubscribe-subscribe_shared}

-- Objects in /a, and in /b.
abbrev in_a : Text → Query
in_a select = record { select = select; from = b'/' ∷ b'a' ∷ [] }

abbrev x : Query
x = in_a (b'x' ∷ [])

abbrev y : Query
y = in_a (b'y' ∷ [])

abbrev in_b : Subscription
in_b = record {
  query = record { select = b'z' ∷ []; from = b'/' ∷ b'b' ∷ [] };
  mount_count = 1;
  subscriber_count = 2;
  mount_ctx = 3;
  subscriber_ctx = 4;
}

abbrev mount : Mount
mount = record { subscriptions = in_b ∷ []; calls = [] }

-- Every query of a scope is given the context 9.
abbrev context : Query → ℕ → ℕ
context q old = 9

find_subscription_lem_example :
    find_subscription str_eq in_b.query (in_b ∷ [])
    ≡ or_last (first_exact str_eq in_b.query (in_b ∷ [])) (last_from str_eq in_b.query (in_b ∷ []))
find_subscription_lem_example = find_subscription_lem str_eq in_b.query (in_b ∷ [])

unsubscribe-subscribe_new_example :
    unsubscribe_mount str_eq takes_both x
      (subscribe_mount str_eq context context takes_both x mount)
    ≡ record {
      subscriptions = in_b ∷ [];
      calls = opening str_eq context context x ++ closing str_eq context context x;
    }
unsubscribe-subscribe_new_example =
    unsubscribe-subscribe_new str_eq context context x mount (refl, tt) refl refl refl

unsubscribe-subscribe_again_example :
    unsubscribe_mount str_eq takes_both in_b.query
      (subscribe_mount str_eq context context takes_both in_b.query mount)
    ≡ mount
unsubscribe-subscribe_again_example =
    unsubscribe-subscribe_again str_eq context context in_b.query [] [] in_b [] tt refl
      (omega arith) (omega arith) (omega arith) (omega arith)

unsubscribe-subscribe_shared_example :
    unsubscribe_mount str_eq only_subscribe y (
      subscribe_mount str_eq context context only_subscribe y
        (subscribe_mount str_eq context context only_subscribe x mount))
    ≡ record {
      subscriptions = in_b ∷ [];
      calls = on_subscribe x 0 ∷ on_subscribe y 9 ∷ on_unsubscribe (in_a (b'*' ∷ [])) 9 ∷ [];
    }
unsubscribe-subscribe_shared_example =
    unsubscribe-subscribe_shared str_eq context context x y mount 9 (refl, tt) (refl, tt) refl refl
      refl refl refl refl refl
