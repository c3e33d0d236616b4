-- ===== src/Vstore/Observers/Reach.antt =====
-- The observers that an event reaches.
use corto.Base.{
  ℕ, zero, suc, ◌+◌, ◌≡◌, refl, sym, ap, ◌∙◌, ◌≢◌, ◌↔◌, ◌⊎◌, inl, inr, Bool, true, false, ◌||◌,
  Option, none, some, List, [], ◌∷◌, ◌++◌, get_elem?, arith, Bool-cases, Any, All, subst,
}
use corto.Vstore.Observers.{
  Observer, Observables, Call, is_or_any, is_other, is_near, is_notified, call_observers, bubble,
  notify_calls, notify,
}
use corto.Vstore.Observers.Conditions.{
  typed_sound, typed_complete, other_sound, other_complete, near_sound,
}

abbrev pub IsIn : {A : Type 0} → A → List A → Type 0
IsIn a xs = Any (λ x. x ≡ a) xs

IsIn-append : {A : Type 0} (a : A) (xs ys : List A) → IsIn a (xs ++ ys) ↔ (IsIn a xs ⊎ IsIn a ys)
IsIn-append a [] ys = (inr, λ h. elim h [ inl k ↦ absurd k | inr k ↦ k ])
IsIn-append a (x ∷ xs) ys =
    let (to, from) = IsIn-append a xs ys in
    (
      λ h. elim h [
        | inl e ↦ inl (inl e)
        | inr k ↦ elim (to k) [ inl u ↦ inl (inr u) | inr u ↦ inr u ]
      ],
      λ h. elim h [
        | inl k ↦ elim k [ inl e ↦ inl e | inr u ↦ inr (from (inl u)) ]
        | inr k ↦ inr (from (inr k))
      ],
    )

module _ (t : Observables) (source : Option ℕ) (mask : ℕ) where
  -- The event meets the observer's mask, its type is the object's or none, it is one of the tree unless
  -- the object is near, and its instance is not the source of the event.
  abbrev IsMet : ℕ → ℕ → Observer → Type 0
  IsMet observable depth b =
      (b.events mask ≡ true)
      × ((b.observed_type ≡ none) ⊎ (b.observed_type ≡ some (t.type_of observable)))
      × ((depth ≡ 0) ⊎ (b.on_tree ≡ true))
      × ((b.instance_object ≡ none) ⊎ (b.instance_object ≢ source))

  notified_sound :
      (observable depth : ℕ) (b : Observer)
      → is_notified t source mask observable depth b ≡ true
      → IsMet observable depth b
  unfolding is_notified
  notified_sound observable depth b h =
      let events : b.events mask ≡ true = ground arith in
      let typed : is_or_any b.observed_type (t.type_of observable) ≡ true = ground arith in
      let close : (is_near depth ≡ true) ⊎ (b.on_tree ≡ true) = ground arith in
      let other : is_other b.instance_object source ≡ true = ground arith in
      (
        events,
        typed_sound b.observed_type (t.type_of observable) typed,
        elim close [ inl k ↦ inl (near_sound depth k) | inr k ↦ inr k ],
        other_sound b.instance_object source other,
      )

  notified_complete :
      (observable depth : ℕ) (b : Observer)
      → IsMet observable depth b
      → is_notified t source mask observable depth b ≡ true
  unfolding is_notified
  notified_complete observable depth b (events, typed, close, other) =
      let near : (is_near depth || b.on_tree) ≡ true = elim close [
        | inl k ↦ rw k refl
        | inr k ↦ rw k (elim (Bool-cases (is_near depth)) [ inl n ↦ rw n refl | inr n ↦ rw n refl ])
      ] in
      rw (is_notified, events, typed_complete b.observed_type (t.type_of observable) typed, near)
        (other_complete b.instance_object source other)

  -- One of the observers is called so.
  abbrev pub IsHeard : ℕ → ℕ → List Observer → Call → Type 0
  IsHeard observable depth bs c =
      (c.observable ≡ observable)
      × ((b : Observer) × IsIn b bs × IsMet observable depth b × (c.observer ≡ b.address))

  IsHeard-later :
      (observable depth : ℕ) (b : Observer) (bs : List Observer) (c : Call)
      → IsHeard observable depth bs c
      → IsHeard observable depth (b ∷ bs) c
  IsHeard-later observable depth b bs c (o, (d, h, n, e)) = (o, (d, inr h, n, e))

  called :
      (observable depth : ℕ) (b : Observer) (bs : List Observer)
      → is_notified t source mask observable depth b ≡ true
      → call_observers t source mask observable depth (b ∷ bs)
        ≡ record { observer = b.address; observable = observable }
          ∷ call_observers t source mask observable depth bs
  unfolding call_observers
  called observable depth b bs n = rw (call_observers, n) refl

  passed :
      (observable depth : ℕ) (b : Observer) (bs : List Observer)
      → is_notified t source mask observable depth b ≡ false
      → call_observers t source mask observable depth (b ∷ bs)
        ≡ call_observers t source mask observable depth bs
  unfolding call_observers
  passed observable depth b bs n = rw (call_observers, n) refl

  IsHeard-sound :
      (observable depth : ℕ) (bs : List Observer) (c : Call)
      → IsIn c (call_observers t source mask observable depth bs)
      → IsHeard observable depth bs c
  unfolding call_observers
  IsHeard-sound observable depth [] c h = absurd h
  IsHeard-sound observable depth (b ∷ bs) c h =
      elim (Bool-cases (is_notified t source mask observable depth b)) [
        | inl n ↦ elim (subst (IsIn c) (called observable depth b bs n) h) [
          | inl e ↦ (
            ap (λ x. x.observable) (sym e),
            (b, inl refl, notified_sound observable depth b n, ap (λ x. x.observer) (sym e)),
          )
          | inr k ↦ IsHeard-later observable depth b bs c (IsHeard-sound observable depth bs c k)
        ]
        | inr n ↦ IsHeard-later observable depth b bs c (
            IsHeard-sound observable depth bs c (subst (IsIn c) (passed observable depth b bs n) h))
      ]

  IsHeard-complete :
      (observable depth : ℕ) (bs : List Observer) (c : Call)
      → IsHeard observable depth bs c
      → IsIn c (call_observers t source mask observable depth bs)
  unfolding call_observers
  IsHeard-complete observable depth [] c (o, (b, h, n, e)) = absurd h
  IsHeard-complete observable depth (b ∷ bs) c (o, (d, inl same, n, e)) =
      let met =
        ap (is_notified t source mask observable depth) same
        ∙ notified_complete observable depth d n in
      let address : b.address ≡ c.observer = ap (λ x. x.address) same ∙ sym e in
      let here : record { observer = b.address; observable = observable } ≡ c =
        λ i. record { observer = address i; observable = (sym o) i } in
      subst (IsIn c) (sym (called observable depth b bs met)) (inl here)
  IsHeard-complete observable depth (b ∷ bs) c (o, (d, inr h, n, e)) =
      let rest = IsHeard-complete observable depth bs c (o, (d, h, n, e)) in
      elim (Bool-cases (is_notified t source mask observable depth b)) [
        | inl m ↦ subst (IsIn c) (sym (called observable depth b bs m)) (inr rest)
        | inr m ↦ subst (IsIn c) (sym (passed observable depth b bs m)) rest
      ]

  -- An observer of the children of the parent at some distance is called.
  abbrev pub IsReached : ℕ → ℕ → List ℕ → Call → Type 0
  IsReached observable depth ps c =
      (i : ℕ) × (p : ℕ) × (get_elem? ps i ≡ some p)
      × IsHeard observable (depth + i) (t.on_child p) c

  abbrev IsRooted : List ℕ → Type 0
  IsRooted = All (λ p. t.is_orphan p ≡ false)

  bubble_step :
      (observable depth p : ℕ) (ps : List ℕ)
      → t.is_orphan p ≡ false
      → bubble t source mask observable false depth (p ∷ ps)
        ≡ call_observers t source mask observable depth (t.on_child p)
          ++ bubble t source mask observable false (suc depth) ps
  unfolding bubble
  bubble_step observable depth p ps h = rw (bubble, h) refl

  bubble-IsReached :
      (observable depth : ℕ) (ps : List ℕ) (c : Call)
      → IsRooted ps
      → IsIn c (bubble t source mask observable false depth ps)
      → IsReached observable depth ps c
  unfolding bubble
  bubble-IsReached observable depth [] c r h = absurd h
  bubble-IsReached observable depth (p ∷ ps) c r h =
      let here = call_observers t source mask observable depth (t.on_child p) in
      let above = bubble t source mask observable false (suc depth) ps in
      elim ((IsIn-append c here above).0
        (subst (IsIn c) (bubble_step observable depth p ps r.0) h)) [
          | inl k ↦ (
            0,
            p,
            refl,
            subst (λ d. IsHeard observable d (t.on_child p) c) (omega arith)
                (IsHeard-sound observable depth (t.on_child p) c k),
          )
          | inr k ↦
              let (i, q, at, heard) = bubble-IsReached observable (suc depth) ps c r.1 k in
              (suc i, q, at, subst (λ d. IsHeard observable d (t.on_child q) c) (omega arith) heard)
        ]

  IsReached-bubble :
      (observable depth : ℕ) (ps : List ℕ) (c : Call)
      → IsRooted ps
      → IsReached observable depth ps c
      → IsIn c (bubble t source mask observable false depth ps)
  unfolding bubble
  IsReached-bubble observable depth [] c r (i, q, at, heard) = absurd (cc)
  IsReached-bubble observable depth (p ∷ ps) c r (zero, q, at, heard) =
      let here = call_observers t source mask observable depth (t.on_child p) in
      let above = bubble t source mask observable false (suc depth) ps in
      let same : q ≡ p = cc in
      let close : IsHeard observable depth (t.on_child p) c =
        subst (λ x. IsHeard observable depth (t.on_child x) c) same
          (subst (λ d. IsHeard observable d (t.on_child q) c) (omega arith) heard) in
      subst (IsIn c) (sym (bubble_step observable depth p ps r.0)) (
        (IsIn-append c here above).1
          (inl (IsHeard-complete observable depth (t.on_child p) c close)))
  IsReached-bubble observable depth (p ∷ ps) c r (suc i, q, at, heard) =
      let here = call_observers t source mask observable depth (t.on_child p) in
      let above = bubble t source mask observable false (suc depth) ps in
      let far : IsHeard observable (suc depth + i) (t.on_child q) c =
        subst (λ d. IsHeard observable d (t.on_child q) c) (omega arith) heard in
      subst (IsIn c) (sym (bubble_step observable depth p ps r.0)) (
        (IsIn-append c here above).1
          (inr (IsReached-bubble observable (suc depth) ps c r.1 (i, q, at, far))))

  -- An event of an object calls exactly these observers, with the object: those of the object itself,
  -- and those of the children of any of its parents, where an observer further up than the direct
  -- parent must be one of the tree; the observer's mask meets the event, its type is the object's or
  -- none, and its instance is not the source of the event. Neither the object nor a parent is an orphan,
  -- and its validation does not fail.
  pub notify_iff :
      (failed : Bool) (observable : ℕ) (parents : List ℕ) (c : Call)
      → t.is_orphan observable ≡ false
      → IsRooted parents
      → IsIn c (notify t source mask false failed observable parents).1
        ↔ (IsHeard observable 0 (t.on_self observable) c ⊎ IsReached observable 0 parents c)
  unfolding notify notify_calls
  notify_iff failed observable parents c o r =
      let self = call_observers t source mask observable 0 (t.on_self observable) in
      let above = bubble t source mask observable false 0 parents in
      let calls : (notify t source mask false failed observable parents).1 ≡ self ++ above =
        rw o refl in
      let (to, from) = IsIn-append c self above in
      (
        λ h. elim (to (subst (IsIn c) calls h)) [
          | inl k ↦ inl (IsHeard-sound observable 0 (t.on_self observable) c k)
          | inr k ↦ inr (bubble-IsReached observable 0 parents c r k)
        ],
        λ h. subst (IsIn c) (sym calls) (
            from (elim h [
              | inl k ↦ inl (IsHeard-complete observable 0 (t.on_self observable) c k)
              | inr k ↦ inr (IsReached-bubble observable 0 parents c r k)
            ])),
      )
