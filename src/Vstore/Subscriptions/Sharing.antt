-- ===== src/Vstore/Subscriptions/Sharing.antt =====
-- Two queries for one scope that share a context.
use corto.Base.{
  ℕ, ◌≡◌, ap, ◌∙◌, Bool, true, false, Option, some, List, [], ◌∷◌, ◌++◌, Text, arith, All, length,
}
use mathlib.Core.List.{append-nil}
use corto.Vstore.Subscriptions.{
  Query, Subscription, Callback, on_subscribe, on_unsubscribe, Mount, MountMask, up, down,
  add_counts, set_contexts, fresh, is_set, count_or_add, settle, finish_subscribe, set_select,
  subscribe_found, subscribe_or_mount, subscribe_mount, unsubscribe_found, unsubscribe_or_unmount,
  unsubscribe_mount, unsubscribe_calls, call_subscribe, find_subscription,
}
use corto.Vstore.Subscriptions.Finding.{
  same_from, find_subscription-last, find_subscription-none, change-append, remove-append,
  get_elem?-append,
}

-- A mount that takes subscriptions only.
abbrev pub only_subscribe : MountMask
only_subscribe = record { subscribe = true; mount = false }

module _ (same : Text → Text → Bool) (subscribed mounted : Query → ℕ → ℕ) where
  -- The subscription of a first query with the context.
  abbrev single : Query → ℕ → Subscription
  single q c = set_contexts true false c 0 (fresh q true false)

  subscribe_first :
      (q : Query) (ss : List Subscription) (calls : List Callback) (c : ℕ)
      → All (λ s. same_from same q s ≡ false) ss
      → same q.from q.from ≡ true
      → same q.select q.select ≡ true
      → subscribed q 0 ≡ c
      → is_set c ≡ true
      → subscribe_mount same subscribed mounted only_subscribe q
          (record { subscriptions = ss; calls = calls })
        ≡ record { subscriptions = ss ++ single q c ∷ []; calls = calls ++ on_subscribe q 0 ∷ [] }
  unfolding subscribe_mount subscribe_or_mount subscribe_found count_or_add finish_subscribe settle
      call_subscribe
  subscribe_first q ss calls c h f e g n =
      let none_there = find_subscription-none same q ss h in
      let again = find_subscription-last same q ss (fresh q true false) h f in
      let there = get_elem?-append ss [] (fresh q true false) in
      let changed = change-append (set_contexts true false c 0) ss [] (fresh q true false) in
      ground (arith, none_there, again, there, changed, e)

  subscribe_second :
      (p q : Query) (ss : List Subscription) (calls : List Callback) (c : ℕ)
      → All (λ s. same_from same q s ≡ false) ss
      → same p.from q.from ≡ true
      → same p.select q.select ≡ false
      → subscribed q c ≡ c
      → is_set c ≡ true
      → subscribe_mount same subscribed mounted only_subscribe q
          (record { subscriptions = ss ++ single p c ∷ []; calls = calls })
        ≡ record {
          subscriptions = ss ++ set_select (single p c) ∷ [];
          calls = calls ++ on_subscribe q c ∷ [];
        }
  unfolding subscribe_mount subscribe_or_mount subscribe_found count_or_add finish_subscribe
      call_subscribe
  subscribe_second p q ss calls c h f e g n =
      let found = find_subscription-last same q ss (single p c) h f in
      let there = get_elem?-append ss [] (single p c) in
      let more = add_counts up true false (single p c) in
      let changed = change-append (add_counts up true false) ss [] (single p c) in
      let there_too = get_elem?-append ss [] more in
      let undone = change-append (λ s. add_counts down true false (set_select s)) ss [] more in
      ground (arith, found, there, changed, there_too, undone, e)

  unsubscribe_second :
      (p q : Query) (ss : List Subscription) (calls : List Callback) (c : ℕ)
      → All (λ s. same_from same q s ≡ false) ss
      → same p.from q.from ≡ true
      → unsubscribe_mount same only_subscribe q
          (record { subscriptions = ss ++ set_select (single p c) ∷ []; calls = calls })
        ≡ record {
          subscriptions = ss;
          calls = calls ++ on_unsubscribe (set_select (single p c)).query c ∷ [];
        }
  unfolding unsubscribe_mount unsubscribe_or_unmount unsubscribe_found add_counts unsubscribe_calls
      fresh set_contexts
  unsubscribe_second p q ss calls c h f =
      let s = set_select (single p c) in
      let found : (find_subscription same q (ss ++ s ∷ [])).0 ≡ some (length ss) =
        ap (λ (r : Option ℕ × Bool). r.0) (find_subscription-last same q ss s h f) in
      let there = get_elem?-append ss [] s in
      let removed = remove-append ss [] s ∙ append-nil ss in ground (arith, found, there, removed)

  -- Two queries for one scope with different selections, of a mount that has the mask SUBSCRIBE and not
  -- MOUNT, and no subscription for the scope yet, for which `on_subscribe` gives one context, not 0: when the second is withdrawn, `on_unsubscribe` is called and the subscription is gone, although the
  -- first query has not been withdrawn.
  pub unsubscribe-subscribe_shared :
      (p q : Query) (m : Mount) (c : ℕ)
      → All (λ s. same_from same p s ≡ false) m.subscriptions
      → All (λ s. same_from same q s ≡ false) m.subscriptions
      → same p.from p.from ≡ true
      → same p.select p.select ≡ true
      → same p.from q.from ≡ true
      → same p.select q.select ≡ false
      → subscribed p 0 ≡ c
      → subscribed q c ≡ c
      → is_set c ≡ true
      → unsubscribe_mount same only_subscribe q (
          subscribe_mount same subscribed mounted only_subscribe q
            (subscribe_mount same subscribed mounted only_subscribe p m))
        ≡ record {
          subscriptions = m.subscriptions;
          calls =
              ((m.calls ++ on_subscribe p 0 ∷ []) ++ on_subscribe q c ∷ [])
              ++ on_unsubscribe (record { select = b'*' ∷ []; from = p.from }) c ∷ [];
        }
  unfolding subscribe_mount set_contexts
  unsubscribe-subscribe_shared p q m c hp hq pp ps f s ep eq n =
      let first = m.calls ++ on_subscribe p 0 ∷ [] in
      let second = first ++ on_subscribe q c ∷ [] in
      ap
        (λ k.
          unsubscribe_mount same only_subscribe q
            (subscribe_mount same subscribed mounted only_subscribe q k))
        (subscribe_first p m.subscriptions m.calls c hp pp ps ep n)
      ∙ ap (unsubscribe_mount same only_subscribe q)
          (subscribe_second p q m.subscriptions first c hq f s eq n)
      ∙ unsubscribe_second p q m.subscriptions second c hq f
