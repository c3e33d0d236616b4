-- ===== src/Vstore/Mount/Pending.antt =====
-- The queue of a mount as a map from objects to their latest events.
use corto.Base.{
  ◌≡◌, refl, sym, ap, ◌∙◌, inl, inr, Bool, true, false, ◌||◌, Option, none, some, List, [], ◌∷◌,
  ◌++◌, if◌then◌else◌, str_eq_sound, str_eq_refl, arith, Bool-cases, Option-cases,
}
use corto.Vstore.Mount.{
  MountEvent, Policy, Queues, same_event, replace_event, put_event, put_historical, post,
}

-- What the abstract map holds for the object of an event.
abbrev pub pending : MountEvent → List MountEvent → Option MountEvent
pending k [] = none
pending k (f ∷ fs) = let rest = pending k fs in if same_event f k then some f else rest

same_event-parts :
    (f k : MountEvent)
    → same_event f k ≡ true
    → (k.id ≡ f.id) × (k.parent ≡ f.parent) × (k.subscriber ≡ f.subscriber)
same_event-parts f k h = (
  str_eq_sound k.id f.id (ground arith),
  str_eq_sound k.parent f.parent (ground arith),
  ground arith,
)

-- Events of the same object stand for one another.
same_event-left : (f g k : MountEvent) → same_event f g ≡ true → same_event f k ≡ same_event g k
same_event-left f g k h = let (a, b, c) = same_event-parts f g h in rw (a, b, c) refl

same_event_refl : (e : MountEvent) → same_event e e ≡ true
same_event_refl e = ground (arith, str_eq_refl e.id, str_eq_refl e.parent)

same_event-shared :
    (f e k : MountEvent) → same_event f k ≡ true → same_event e k ≡ true → same_event f e ≡ true
same_event-shared f e k h g =
    same_event-left f k e h ∙ (sym (same_event-left e k e g) ∙ same_event_refl e)

pending_tail :
    (e f : MountEvent) (fs : List MountEvent)
    → pending e (f ∷ fs) ≡ none
    → (same_event f e ≡ false) × (pending e fs ≡ none)
pending_tail e f fs h = elim (Bool-cases (same_event f e)) [
  | inl b ↦ let here : pending e (f ∷ fs) ≡ some f = rw b refl in absurd (cc)
  | inr b ↦ (b, sym (rw b refl) ∙ h)
]

-- An event of an object that differs from the first does not come before it.
pending-swap :
    (k e f : MountEvent) (o : Option MountEvent)
    → same_event f e ≡ false
    → (if same_event f k then some f else if same_event e k then some e else o)
      ≡ (if same_event e k then some e else if same_event f k then some f else o)
pending-swap k e f o h = elim (Bool-cases (same_event f k)) [
  | inr b ↦ rw b refl
  | inl b ↦ elim (Bool-cases (same_event e k)) [
    | inl g ↦ absurd (cc (same_event-shared f e k b g, h))
    | inr g ↦ rw (b, g) refl
  ]
]

pending-append :
    (k e : MountEvent) (es : List MountEvent)
    → pending e es ≡ none
    → pending k (es ++ e ∷ []) ≡ (if same_event e k then some e else pending k es)
pending-append k e [] h = refl
pending-append k e (f ∷ fs) h =
    let (differ, rest) = pending_tail e f fs h in
    rw (pending-append k e fs rest) (pending-swap k e f (pending k fs) differ)

pending-replace :
    (k e old : MountEvent) (es rest : List MountEvent)
    → replace_event e es ≡ some (old, rest)
    → pending k rest ≡ (if same_event e k then some e else pending k es)
unfolding replace_event
pending-replace k e old [] rest h = absurd (cc)
pending-replace k e old (f ∷ fs) rest h = elim (Bool-cases (same_event f e)) [
  | inl b ↦
      let here : replace_event e (f ∷ fs) ≡ some (f, e ∷ fs) = rw (replace_event, b) refl in
      let same : rest ≡ e ∷ fs = cc in
      let alike : same_event f k ≡ same_event e k = same_event-left f e k b in
      elim (Bool-cases (same_event e k)) [
        | inl g ↦ rw (same, g) refl
        | inr g ↦ let other : same_event f k ≡ false = alike ∙ g in rw (same, g, other) refl
      ]
  | inr b ↦ elim (Option-cases (replace_event e fs)) [
    | inl q ↦
        let here : replace_event e (f ∷ fs) ≡ none = rw (replace_event, b, q) refl in absurd (cc)
    | inr ((o, es), q) ↦
        let here : replace_event e (f ∷ fs) ≡ some (o, f ∷ es) = rw (replace_event, b, q) refl in
        let same : rest ≡ f ∷ es = cc in
        rw (same, pending-replace k e o fs es q) (pending-swap k e f (pending k fs) b)
  ]
]

pending-none :
    (e : MountEvent) (es : List MountEvent) → replace_event e es ≡ none → pending e es ≡ none
unfolding replace_event
pending-none e [] h = refl
pending-none e (f ∷ fs) h = elim (Bool-cases (same_event f e)) [
  | inl b ↦
      let here : replace_event e (f ∷ fs) ≡ some (f, e ∷ fs) = rw (replace_event, b) refl in
      absurd (cc)
  | inr b ↦ elim (Option-cases (replace_event e fs)) [
    | inl q ↦ rw b (pending-none e fs q)
    | inr ((o, es), q) ↦
        let here : replace_event e (f ∷ fs) ≡ some (o, f ∷ es) = rw (replace_event, b, q) refl in
        absurd (cc)
  ]
]

-- Keeps the latest event of an object, and all the events for the history.
abbrev pub IsQueued : Policy → Type 0
IsQueued p = (p.sampled ≡ true) × ((p.notify || p.batch) ≡ true)

pub queued_post :
    (p : Policy) (e : MountEvent) (q : Queues)
    → IsQueued p
    → post p e q ≡ put_event p.history e (replace_event e q.events) (put_historical p.history e q)
unfolding post
queued_post p e q (sampled, kept) =
    let some_flag : (p.notify || (p.batch || p.history)) ≡ true = ground arith in
    rw (post, some_flag, sampled, kept) refl

put_historical-parts :
    (history : Bool) (e : MountEvent) (q : Queues)
    → ((put_historical history e q).events ≡ q.events)
      × ((put_historical history e q).historical
          ≡ (if history then q.historical ++ e ∷ [] else q.historical))
put_historical-parts true e q = (refl, refl)
put_historical-parts false e q = (refl, refl)

pending-put_event :
    (history : Bool) (e k : MountEvent) (r : Option (MountEvent × List MountEvent)) (h : Queues)
    → replace_event e h.events ≡ r
    → (pending k (put_event history e r h).events
        ≡ (if same_event e k then some e else pending k h.events))
      × ((put_event history e r h).historical ≡ h.historical)
unfolding put_event
pending-put_event history e k none h r =
    (pending-append k e h.events (pending-none e h.events r), refl)
pending-put_event history e k (some (old, es)) h r = (pending-replace k e old h.events es r, refl)

-- An event that is posted to a mount with a sample rate, and with the mask NOTIFY or BATCH_NOTIFY, becomes
-- the pending one of its object, and those of the other objects stay: the queue implements a map from objects to their latest events. The queue
-- for the history, if the mount has one, gets every event at its end.
pub post-pending :
    (p : Policy) (e k : MountEvent) (q : Queues)
    → IsQueued p
    → (pending k (post p e q).events ≡ (if same_event e k then some e else pending k q.events))
      × ((post p e q).historical ≡ (if p.history then q.historical ++ e ∷ [] else q.historical))
post-pending p e k q kept =
    let h = put_historical p.history e q in
    let (same, whole) = put_historical-parts p.history e q in
    let (a, b) =
      pending-put_event p.history e k (replace_event e q.events) h (ap (replace_event e) same) in
    (
      ap (λ r. pending k r.events) (queued_post p e q kept)
          ∙ a
          ∙ ap (λ es. if same_event e k then some e else pending k es) same,
      ap (λ r. r.historical) (queued_post p e q kept) ∙ b ∙ whole,
    )
