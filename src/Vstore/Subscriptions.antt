-- ===== src/Vstore/Subscriptions.antt =====
-- The subscriptions of a mount (src/vstore/mount.c: `corto_mount_subscribeOrMount`,
-- `corto_mount_unsubscribeOrUnmount`). An element of the list is known by its place; what the callbacks
-- return is a parameter, and while they run the list stays as it is.
pub mod Finding
pub mod Counting
pub mod Sharing
use corto.Base.{
  ℕ, zero, suc, ◌+◌, ◌-◌, ◌%◌, ◌^◌, Bool, true, false, not, ◌&&◌, ◌||◌, Option, none, some, List,
  [], ◌∷◌, ◌++◌, ◌==◌, if◌then◌else◌, Text, str_eq, get_elem?, length,
}

-- corto_query, as far as the mount reads it.
pub record Query : Type 0 where
  pub select : Text
  pub from : Text

-- corto_mountSubscription
pub record Subscription : Type 0 where
  pub query : Query
  pub mount_count : ℕ
  pub subscriber_count : ℕ
  pub mount_ctx : ℕ
  pub subscriber_ctx : ℕ

-- The callbacks that were called, each with its query and context.
pub data Callback : Type 0 where
  on_subscribe on_mount on_unsubscribe on_unmount : Query → ℕ → Callback

-- The list, and the calls, in their order.
pub record Mount : Type 0 where
  pub subscriptions : List Subscription
  pub calls : List Callback

-- corto_mountMask: the flags SUBSCRIBE and MOUNT.
pub record MountMask : Type 0 where
  pub subscribe : Bool
  pub mount : Bool

-- uint32_t
abbrev pub up : ℕ → ℕ
up n = (n + 1) % 2 ^ 32

abbrev pub down : ℕ → ℕ
down n = (n + 2 ^ 32 - 1) % 2 ^ 32

unfoldable pub change : (Subscription → Subscription) → ℕ → List Subscription → List Subscription
change f i [] = []
change f zero (s ∷ ss) = f s ∷ ss
change f (suc i) (s ∷ ss) = s ∷ change f i ss

-- corto_ll_remove
unfoldable pub remove : ℕ → List Subscription → List Subscription
remove i [] = []
remove zero (s ∷ ss) = ss
remove (suc i) (s ∷ ss) = s ∷ remove i ss

unfoldable pub add_counts : (ℕ → ℕ) → Bool → Bool → Subscription → Subscription
add_counts f subscribe mount s = record s {
  subscriber_count = if subscribe then f s.subscriber_count else s.subscriber_count;
  mount_count = if mount then f s.mount_count else s.mount_count;
}

unfoldable pub set_contexts : Bool → Bool → ℕ → ℕ → Subscription → Subscription
set_contexts subscribe mount sub_ctx mnt_ctx s = record s {
  subscriber_ctx = if subscribe then sub_ctx else s.subscriber_ctx;
  mount_ctx = if mount then mnt_ctx else s.mount_ctx;
}

-- A new element: the counts that apply are 1, and the contexts 0.
unfoldable pub fresh : Query → Bool → Bool → Subscription
fresh query subscribe mount = record {
  query = query;
  mount_count = if mount then 1 else 0;
  subscriber_count = if subscribe then 1 else 0;
  mount_ctx = 0;
  subscriber_ctx = 0;
}

abbrev pub is_set : ℕ → Bool
is_set n = not (n == 0)

-- The part of a path before its last '/', and the part behind it, if there is one.
unfoldable pub split_last : Text → Option (Text × Text)
split_last [] = none
split_last (c ∷ cs) = elim (split_last cs) [
  | some (before, behind) ↦ some (c ∷ before, behind)
  | none ↦ if c == b'/' then some ([], cs) else none
]

abbrev dot : Text
dot = b'.' ∷ []

-- corto_mount_getQueryForMount
unfoldable pub query_for_mount : Query → Bool → Option Query
unfolding split_last
query_for_mount q false = some q
query_for_mount q true = if str_eq q.from dot then none else elim (split_last q.from) [
  | some (parent, id) ↦ some (record { select = id; from = parent })
  | none ↦ some (record { select = q.from; from = dot })
]

abbrev context_of : (Subscription → ℕ) → List Subscription → Option ℕ → ℕ
context_of f ss none = 0
context_of f ss (some i) = elim (get_elem? ss i) [ none ↦ 0 | some s ↦ f s ]

-- `same` is !stricmp.
module _ (same : Text → Text → Bool) where
  -- The loop of `corto_mount_findSubscription`, from place `i`: `result` and `found`.
  unfoldable pub search_loop : Query → ℕ → List Subscription → Option ℕ → Option ℕ × Bool
  search_loop q i [] result = (result, false)
  search_loop q i (s ∷ ss) result =
      let rest = search_loop q (suc i) ss (if same s.query.from q.from then some i else result) in
      if same s.query.from q.from && same s.query.select q.select then (some i, true) else rest

  -- corto_mount_findSubscription
  unfoldable pub find_subscription : Query → List Subscription → Option ℕ × Bool
  unfolding search_loop
  find_subscription q ss = search_loop q 0 ss none

-- The first part, under the lock: the count of what was found goes up, or a placeholder is added.
unfoldable pub count_or_add : Query → Bool → Bool → Option ℕ → List Subscription → List Subscription
unfolding change add_counts fresh
count_or_add q subscribe mount (some i) ss = change (add_counts up subscribe mount) i ss
count_or_add q subscribe mount none ss = ss ++ fresh q subscribe mount ∷ []

abbrev star : Text
star = b'*' ∷ []

abbrev pub set_select : Subscription → Subscription
set_select s = record s { query = record { select = star; from = s.query.from } }

abbrev is_new : ℕ → Option ℕ → ℕ → Bool
is_new ctx subscription old =
    is_set ctx && (elim subscription [ none ↦ true | some i ↦ not (old == ctx) ])

-- The callbacks that return a context.
module _ (same : Text → Text → Bool) (subscribed mounted : Query → ℕ → ℕ) where
  -- The callback on_mount, where there is a query for it: its result, and the call.
  unfoldable pub call_mount : Query → Bool → ℕ → ℕ × List Callback
  unfolding query_for_mount
  call_mount q subscribe ctx = elim (query_for_mount q subscribe) [
    | none ↦ (0, [])
    | some p ↦ (mounted p ctx, on_mount p ctx ∷ [])
  ]

  unfoldable pub call_subscribe : Query → ℕ → ℕ × List Callback
  call_subscribe q ctx = (subscribed q ctx, on_subscribe q ctx ∷ [])

  -- The new or changed element, once a context is there that differs: the list is searched again.
  unfoldable pub settle :
      Query → Bool → Bool → ℕ → ℕ → Option ℕ → List Subscription → List Subscription
  unfolding change add_counts set_contexts fresh find_subscription
  settle q subscribe mount sub_ctx mnt_ctx subscription ss =
      let undone : List Subscription = elim subscription [
        | none ↦ ss
        | some i ↦ change (add_counts down (is_set sub_ctx) (is_set mnt_ctx)) i ss
      ] in
      let (again, found) = find_subscription same q undone in
      let added =
        undone ++ set_contexts subscribe mount sub_ctx mnt_ctx (fresh q subscribe mount) ∷ [] in
      elim again [
        | none ↦ added
        | some i ↦
            if not found
            then added
            else if is_set (context_of (λ s. s.subscriber_ctx) undone (some i))
            then change
                (λ s.
                  set_contexts subscribe mount sub_ctx mnt_ctx
                    (add_counts up (is_set sub_ctx) (is_set mnt_ctx) s))
                i undone
            else change (set_contexts subscribe mount sub_ctx mnt_ctx) i undone
      ]

  -- The last part: a new subscription, a shared one, or none.
  unfoldable pub finish_subscribe :
      Query → Bool → Bool → ℕ → ℕ → Option ℕ → Bool → List Subscription → List Subscription
  unfolding settle remove change add_counts
  finish_subscribe q subscribe mount sub_ctx mnt_ctx subscription found ss =
      if is_new sub_ctx subscription (context_of (λ s. s.subscriber_ctx) ss subscription)
        || is_new mnt_ctx subscription (context_of (λ s. s.mount_ctx) ss subscription)
      then settle q subscribe mount sub_ctx mnt_ctx subscription ss
      else elim subscription [
        | none ↦ remove (length ss - 1) ss
        | some i ↦
            if (is_set sub_ctx || is_set mnt_ctx) && not found
            then change (λ s. add_counts down (is_set sub_ctx) (is_set mnt_ctx) (set_select s)) i ss
            else ss
      ]

  -- Behind the search, with the flags as the mask has left them.
  unfoldable pub subscribe_found : Query → Bool → Bool → Option ℕ × Bool → Mount → Mount
  unfolding count_or_add call_subscribe call_mount finish_subscribe
  subscribe_found q subscribe mount (subscription, found) m =
      let counted = count_or_add q subscribe mount subscription m.subscriptions in
      let old_sub = context_of (λ s. s.subscriber_ctx) m.subscriptions subscription in
      let old_mnt = context_of (λ s. s.mount_ctx) m.subscriptions subscription in
      let wanted = not found && elim subscription [
        | none ↦ true
        | some i ↦ (subscribe && is_set old_sub) || (mount && is_set old_mnt)
      ] in
      let (sub_ctx, sub_calls) =
        if wanted && subscribe then call_subscribe q old_sub else (0, []) in
      let (mnt_ctx, mnt_calls) =
        if wanted && mount then call_mount q subscribe old_mnt else (0, []) in
      record {
        subscriptions =
            finish_subscribe q subscribe mount sub_ctx mnt_ctx subscription found counted;
        calls = m.calls ++ (sub_calls ++ mnt_calls);
      }

  -- corto_mount_subscribeOrMount
  unfoldable pub subscribe_or_mount : MountMask → Query → Bool → Bool → Mount → Mount
  unfolding find_subscription subscribe_found
  subscribe_or_mount mask q subscribe mount m =
      let s = subscribe && mask.subscribe in
      let t = mount && mask.mount in
      if not s && not t
      then m
      else subscribe_found q s t (find_subscription same q m.subscriptions) m

  -- corto_mount_subscribe
  unfoldable pub subscribe_mount : MountMask → Query → Mount → Mount
  unfolding subscribe_or_mount
  subscribe_mount mask q m = subscribe_or_mount mask q true true m

abbrev pub call_unmount : Query → Bool → ℕ → List Callback
call_unmount q subscribe ctx = elim (query_for_mount q subscribe) [
  | none ↦ []
  | some p ↦ on_unmount p ctx ∷ []
]

-- The calls of an unsubscription, once the counts have gone down.
unfoldable pub unsubscribe_calls : Query → Bool → Bool → Subscription → List Callback
unfolding query_for_mount
unsubscribe_calls q subscribe mount s =
    (if subscribe && s.subscriber_count == 0
      then on_unsubscribe s.query s.subscriber_ctx ∷ []
      else [])
    ++ (if mount && s.mount_count == 0 then call_unmount q subscribe s.mount_ctx else [])

-- Behind the search, where there is a subscription at place `i`.
unfoldable pub unsubscribe_found : Query → Bool → Bool → ℕ → Subscription → Mount → Mount
unfolding change remove add_counts unsubscribe_calls
unsubscribe_found q subscribe mount i old m =
    let s = add_counts down subscribe mount old in
    record {
      subscriptions =
          if s.subscriber_count == 0 && s.mount_count == 0
          then remove i m.subscriptions
          else change (add_counts down subscribe mount) i m.subscriptions;
      calls = m.calls ++ unsubscribe_calls q subscribe mount s;
    }

-- Unsubscription, whose callbacks return nothing.
module _ (same : Text → Text → Bool) where
  -- corto_mount_unsubscribeOrUnmount
  unfoldable pub unsubscribe_or_unmount : MountMask → Query → Bool → Bool → Mount → Mount
  unfolding find_subscription unsubscribe_found
  unsubscribe_or_unmount mask q subscribe mount m =
      let s = subscribe && mask.subscribe in
      let t = mount && mask.mount in
      if not s && not t then m else elim (find_subscription same q m.subscriptions).0 [
        | none ↦ m
        | some i ↦ elim (get_elem? m.subscriptions i) [
          | none ↦ m
          | some old ↦ unsubscribe_found q s t i old m
        ]
      ]

  -- corto_mount_unsubscribe
  unfoldable pub unsubscribe_mount : MountMask → Query → Mount → Mount
  unfolding unsubscribe_or_unmount
  unsubscribe_mount mask q m = unsubscribe_or_unmount mask q true true m
