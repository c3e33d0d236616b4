-- ===== src/Vstore/Subscriptions/Counting.antt =====
-- Subscribing and unsubscribing again: the counts and callbacks of a mount.
use corto.Base.{
  ℕ, ◌+◌, ◌^◌, ◌<◌, ◌≡◌, ap, ◌∙◌, Bool, true, false, Option, none, some, List, [], ◌∷◌, ◌++◌, ◌==◌,
  Text, arith, All, length,
}
use mathlib.Core.List.{append-nil}
use corto.Vstore.Subscriptions.{
  Query, Subscription, Callback, on_subscribe, on_unsubscribe, Mount, MountMask, up, down,
  add_counts, set_contexts, fresh, is_set, count_or_add, settle, finish_subscribe, subscribe_found,
  subscribe_or_mount, subscribe_mount, unsubscribe_found, unsubscribe_or_unmount, unsubscribe_mount,
  unsubscribe_calls, call_mount, call_subscribe, call_unmount, find_subscription,
}
use corto.Vstore.Subscriptions.Finding.{
  same_from, is_exact, find_subscription-exact, find_subscription-last, find_subscription-none,
  change-append, remove-append, get_elem?-append,
}

abbrev pub takes_both : MountMask
takes_both = record { subscribe = true; mount = true }

down-up : (n : ℕ) → n + 1 < 2 ^ 32 → down (up n) ≡ n
down-up n h = omega arith

module _ (same : Text → Text → Bool) (subscribed mounted : Query → ℕ → ℕ) where
  -- The subscription that a first query leaves.
  abbrev established : Query → Subscription
  established q =
      set_contexts true true (subscribed q 0) (call_mount same subscribed mounted q true 0).0
        (fresh q true true)

  settle_lem :
      (q : Query) (ss : List Subscription) (c d : ℕ)
      → All (λ s. same_from same q s ≡ false) ss
      → same q.from q.from ≡ true
      → same q.select q.select ≡ true
      → settle same subscribed mounted q true true c d none (ss ++ fresh q true true ∷ [])
        ≡ ss ++ set_contexts true true c d (fresh q true true) ∷ []
  unfolding settle
  settle_lem q ss c d h f e =
      let found : find_subscription same q (ss ++ fresh q true true ∷ [])
          ≡ (some (length ss), true) =
        find_subscription-last same q ss (fresh q true true) h f
        ∙ ap (λ b. (some (length ss), b)) e in
      let there = get_elem?-append ss [] (fresh q true true) in
      let changed = change-append (set_contexts true true c d) ss [] (fresh q true true) in
      ground (arith, found, there, changed)

  -- The calls of a first subscription, and of its end.
  abbrev pub opening : Query → List Callback
  opening q = on_subscribe q 0 ∷ (call_mount same subscribed mounted q true 0).1

  abbrev pub closing : Query → List Callback
  closing q =
      on_unsubscribe q (subscribed q 0)
      ∷ call_unmount q true (call_mount same subscribed mounted q true 0).0

  subscribe_new :
      (q : Query) (m : Mount)
      → All (λ s. same_from same q s ≡ false) m.subscriptions
      → same q.from q.from ≡ true
      → same q.select q.select ≡ true
      → is_set (subscribed q 0) ≡ true
      → subscribe_mount same subscribed mounted takes_both q m ≡ record {
        subscriptions = m.subscriptions ++ established q ∷ [];
        calls = m.calls ++ opening q;
      }
  unfolding subscribe_mount subscribe_or_mount subscribe_found count_or_add finish_subscribe
      call_subscribe
  subscribe_new q m h f e c =
      let found = find_subscription-none same q m.subscriptions h in
      let settled =
        settle_lem q m.subscriptions (subscribed q 0)
          (call_mount same subscribed mounted q true 0).0 h f e in
      ground (arith, found, settled, c)

  unsubscribe_new :
      (q : Query) (ss : List Subscription) (calls : List Callback)
      → All (λ s. same_from same q s ≡ false) ss
      → same q.from q.from ≡ true
      → unsubscribe_mount same takes_both q
          (record { subscriptions = ss ++ established q ∷ []; calls = calls })
        ≡ record { subscriptions = ss; calls = calls ++ closing q }
  unfolding unsubscribe_mount unsubscribe_or_unmount unsubscribe_found add_counts unsubscribe_calls
      fresh set_contexts
  unsubscribe_new q ss calls h f =
      let found : (find_subscription same q (ss ++ established q ∷ [])).0 ≡ some (length ss) =
        ap (λ (p : Option ℕ × Bool). p.0) (find_subscription-last same q ss (established q) h f) in
      let there = get_elem?-append ss [] (established q) in
      let removed = remove-append ss [] (established q) ∙ append-nil ss in
      ground (arith, found, there, removed)

  -- A query for a scope that no subscription has, and its withdrawal, of a mount that has both the mask
  -- SUBSCRIBE and the mask MOUNT: provided that `on_subscribe` gives
  -- a context that is not 0, the list is as before, and the mount was told of the subscription and of
  -- its end, and of the mount and of its end where the query's scope is not ".", each end with the
  -- context that was given.
  pub unsubscribe-subscribe_new :
      (q : Query) (m : Mount)
      → All (λ s. same_from same q s ≡ false) m.subscriptions
      → same q.from q.from ≡ true
      → same q.select q.select ≡ true
      → is_set (subscribed q 0) ≡ true
      → unsubscribe_mount same takes_both q (subscribe_mount same subscribed mounted takes_both q m)
        ≡ record { subscriptions = m.subscriptions; calls = (m.calls ++ opening q) ++ closing q }
  unsubscribe-subscribe_new q m h f e c =
      ap (unsubscribe_mount same takes_both q) (subscribe_new q m h f e c)
      ∙ unsubscribe_new q m.subscriptions (m.calls ++ opening q) h f

  -- The counts of a subscription after one more query.
  abbrev counted : Subscription → Subscription
  counted = add_counts up true true

  subscribe_again :
      (q : Query) (before behind : List Subscription) (s : Subscription) (calls : List Callback)
      → All (λ x. is_exact same q x ≡ false) before
      → is_exact same q s ≡ true
      → subscribe_mount same subscribed mounted takes_both q
          (record { subscriptions = before ++ s ∷ behind; calls = calls })
        ≡ record { subscriptions = before ++ counted s ∷ behind; calls = calls }
  unfolding subscribe_mount subscribe_or_mount subscribe_found count_or_add finish_subscribe
  subscribe_again q before behind s calls h e =
      let found = find_subscription-exact same q before behind s h e in
      let changed = change-append (add_counts up true true) before behind s in
      ground (arith, found, changed, append-nil calls)

  uncounted :
      (s : Subscription)
      → s.subscriber_count + 1 < 2 ^ 32
      → s.mount_count + 1 < 2 ^ 32
      → add_counts down true true (counted s) ≡ s
  unfolding add_counts
  uncounted s c d = ground (arith, down-up s.subscriber_count c, down-up s.mount_count d)

  unsubscribe_again :
      (q : Query) (before behind : List Subscription) (s : Subscription) (calls : List Callback)
      → All (λ x. is_exact same q x ≡ false) before
      → is_exact same q s ≡ true
      → 0 < s.subscriber_count
      → 0 < s.mount_count
      → s.subscriber_count + 1 < 2 ^ 32
      → s.mount_count + 1 < 2 ^ 32
      → unsubscribe_mount same takes_both q
          (record { subscriptions = before ++ counted s ∷ behind; calls = calls })
        ≡ record { subscriptions = before ++ s ∷ behind; calls = calls }
  unfolding unsubscribe_mount unsubscribe_or_unmount unsubscribe_found unsubscribe_calls
  unsubscribe_again q before behind s calls h e a b c d =
      let same_query : is_exact same q (counted s) ≡ true = e in
      let found = find_subscription-exact same q before behind (counted s) h same_query in
      let there = get_elem?-append before behind (counted s) in
      let back = uncounted s c d in
      let changed =
        change-append (add_counts down true true) before behind (counted s)
        ∙ ap (λ x. before ++ x ∷ behind) back in
      let positive : (s.subscriber_count == 0) ≡ false = ground arith in
      let mounted_too : (s.mount_count == 0) ≡ false = ground arith in
      ground (arith, found, there, changed, back, append-nil calls)

  -- A query that a subscription has already, and its withdrawal: nothing is changed, and no callback is
  -- called, as long as the counts of the subscription are above 0 and below the greatest.
  pub unsubscribe-subscribe_again :
      (q : Query) (before behind : List Subscription) (s : Subscription) (calls : List Callback)
      → All (λ x. is_exact same q x ≡ false) before
      → is_exact same q s ≡ true
      → 0 < s.subscriber_count
      → 0 < s.mount_count
      → s.subscriber_count + 1 < 2 ^ 32
      → s.mount_count + 1 < 2 ^ 32
      → (let m : Mount = record { subscriptions = before ++ s ∷ behind; calls = calls } in
          unsubscribe_mount same takes_both q
            (subscribe_mount same subscribed mounted takes_both q m)
          ≡ m)
  unsubscribe-subscribe_again q before behind s calls h e a b c d =
      ap (unsubscribe_mount same takes_both q) (subscribe_again q before behind s calls h e)
      ∙ unsubscribe_again q before behind s calls h e a b c d
