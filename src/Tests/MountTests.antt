-- ===== src/Tests/MountTests.antt =====
-- The queues of a mount on concrete events: src/vstore/mount.c.
use corto.Base.{◌≡◌, refl, ◌+◌, true, false, some, [], ◌∷◌, ◌==◌, if◌then◌else◌}
use corto.Object.References.{release}
use corto.Vstore.Mount.{MountEvent, Policy, Queues, same_event, post, poll}
use corto.Vstore.Mount.Pending.{pending, post-pending}
use corto.Vstore.Mount.Owned.{occurrences, one_if, IsOwned, post-IsOwned}

-- Two events of the object b in the scope a.
abbrev first_event : MountEvent
first_event = record { address = 1; subscriber = 9; parent = b'a' ∷ []; id = b'b' ∷ [] }

abbrev second_event : MountEvent
second_event = record { address = 2; subscriber = 9; parent = b'a' ∷ []; id = b'b' ∷ [] }

abbrev latest_only : Policy
latest_only = record { notify = true; batch = false; history = false; sampled = true }

abbrev with_history : Policy
with_history = record { notify = true; batch = false; history = true; sampled = true }

-- The first event is queued, the second is about to be posted.
abbrev latest_queues : Queues
latest_queues = record {
  events = first_event ∷ [];
  historical = [];
  counts = record {
    count = λ a. occurrences a (first_event ∷ []) + occurrences a [] + one_if (2 == a);
    destroyed = [];
    broken = false;
  };
  handled = [];
}

abbrev history_queues : Queues
history_queues = record {
  events = first_event ∷ [];
  historical = first_event ∷ [];
  counts = record {
    count =
        λ a. occurrences a (first_event ∷ []) + occurrences a (first_event ∷ []) + one_if (2 == a);
    destroyed = [];
    broken = false;
  };
  handled = [];
}

post-pending_example :
    (pending first_event (post latest_only second_event latest_queues).events ≡ (
      if same_event second_event first_event
      then some second_event
      else pending first_event latest_queues.events))
    × ((post latest_only second_event latest_queues).historical ≡ [])
post-pending_example = post-pending latest_only second_event first_event latest_queues (refl, refl)

post-IsOwned_example : IsOwned (post latest_only second_event latest_queues)
post-IsOwned_example =
    post-IsOwned latest_only second_event latest_queues (refl, refl) (λ a. refl) (λ e. absurd (cc))

-- A poll then releases the second event once more than it has references.
polled_twice :
    (poll with_history (post with_history second_event history_queues)).1.counts.broken ≡ true
unfolding poll post release
polled_twice = refl
