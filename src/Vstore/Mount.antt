-- ===== src/Vstore/Mount.antt =====
-- The queues of events of a mount (src/vstore/mount.c: `corto_mount_post`, `corto_mount_onPoll`), in the
-- order in which the mount's lock admits the calls. The delays that throttle a publisher are left out.
pub mod Pending
pub mod Owned
use corto.Base.{
  ℕ, ◌+◌, Bool, true, false, not, ◌&&◌, ◌||◌, Option, none, some, List, [], ◌∷◌, ◌++◌, ◌==◌,
  if◌then◌else◌, Text, str_eq,
}
use corto.Object.References.{Counts, claim, release}

-- corto_subscriber_event, as far as the queues read it.
pub record MountEvent : Type 0 where
  pub address : ℕ
  pub subscriber : ℕ
  pub parent : Text
  pub id : Text

-- corto_mountPolicy: flags of its mask, and whether it has a sample rate.
pub record Policy : Type 0 where
  pub notify : Bool
  pub batch : Bool
  pub history : Bool
  pub sampled : Bool

-- The two queues, the reference counts, and the events that were handled at once, the latest first.
pub record Queues : Type 0 where
  pub events : List MountEvent
  pub historical : List MountEvent
  pub counts : Counts
  pub handled : List MountEvent

-- corto_mount_findEvent
abbrev pub same_event : MountEvent → MountEvent → Bool
same_event e1 e2 =
    str_eq e2.id e1.id && (str_eq e2.parent e1.parent && e2.subscriber == e1.subscriber)

abbrev kept_before :
    MountEvent → Option (MountEvent × List MountEvent) → Option (MountEvent × List MountEvent)
kept_before f none = none
kept_before f (some (old, es)) = some (old, f ∷ es)

-- corto_ll_findPtr with what follows it: the event that was replaced, and the queue.
unfoldable pub replace_event : MountEvent → List MountEvent → Option (MountEvent × List MountEvent)
replace_event e [] = none
replace_event e (f ∷ fs) =
    let rest = kept_before f (replace_event e fs) in
    if same_event f e then some (f, e ∷ fs) else rest

-- Events are not builtin.
abbrev pub claim_event : MountEvent → Counts → Counts
claim_event e c = claim (λ o. false) e.address c

abbrev pub release_event : MountEvent → Counts → Counts
release_event e c = release (λ o. false) e.address c

-- The queue of the latest events, and the claim if the event is in both queues.
unfoldable pub put_event :
    Bool → MountEvent → Option (MountEvent × List MountEvent) → Queues → Queues
put_event history e (some (old, es)) q = record q {
  events = es;
  counts = release_event old q.counts;
}
put_event history e none q = record q {
  events = q.events ++ e ∷ [];
  counts = if history then claim_event e q.counts else q.counts;
}

abbrev pub put_historical : Bool → MountEvent → Queues → Queues
put_historical history e q = if history then record q { historical = q.historical ++ e ∷ [] } else q

-- corto_mount_post
unfoldable pub post : Policy → MountEvent → Queues → Queues
unfolding put_event replace_event
post p e q =
    if not (p.notify || (p.batch || p.history))
    then q
    else if p.sampled
    then (let h = put_historical p.history e q in
        if p.notify || p.batch then put_event p.history e (replace_event e q.events) h else h)
    else record q { handled = e ∷ q.handled; counts = release_event e q.counts }

unfoldable release_events : List MountEvent → Counts → Counts
release_events [] c = c
release_events (e ∷ es) c = release_events es (release_event e c)

-- corto_mount_onPoll: the events that the handlers are given, of both queues, and the queues behind it.
unfoldable pub poll : Policy → Queues → (List MountEvent × List MountEvent) × Queues
unfolding release_events
poll p q =
    let released = if p.history then release_events q.historical q.counts else q.counts in
    (
      (q.events, if p.history then q.historical else []),
      record q { events = []; historical = []; counts = release_events q.events released },
    )
