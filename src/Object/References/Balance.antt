-- ===== src/Object/References/Balance.antt =====
-- A release undoes a claim.
use corto.Base.{
  ℕ, zero, suc, ◌+◌, ◌-◌, ◌<◌, ◌≡◌, refl, sym, ap, ◌∙◌, ◌⊎◌, inl, inr, Bool, true, false, List, [],
  ◌∷◌, ◌==◌, if◌then◌else◌, arith, Bool-cases, All,
}
use corto.Object.References.{Counts, set_count, claim, dropped, release, claim_all, release_all}

Counts-ext :
    (c d : Counts)
    → ((o : ℕ) → c.count o ≡ d.count o)
    → c.destroyed ≡ d.destroyed
    → c.broken ≡ d.broken
    → c ≡ d
Counts-ext c d h e b = λ i. record { count = λ o. h o i; destroyed = e i; broken = b i }

set_count_twice : (o m k : ℕ) (c : Counts) → k ≡ c.count o → set_count o k (set_count o m c) ≡ c
set_count_twice o m k c e =
    Counts-ext (set_count o k (set_count o m c)) c (λ p. ground arith) refl refl

module _ (builtin : ℕ → Bool) where
  -- An object that is not being deleted.
  abbrev pub IsLive : Counts → ℕ → Type 0
  IsLive c o = (builtin o ≡ true) ⊎ (0 < c.count o)

  dropped_live : (o n : ℕ) (c : Counts) → 1 < n → dropped builtin o n c ≡ set_count o (n - 1) c
  unfolding dropped
  dropped_live o zero c h = absurd (omega arith)
  dropped_live o (suc zero) c h = absurd (omega arith)
  dropped_live o (suc (suc n)) c h = ap (λ k. set_count o k c) (omega arith)

  pub claim_count :
      (o p : ℕ) (c : Counts)
      → (claim builtin o c).count p
        ≡ (if builtin o then c.count p else if p == o then c.count p + 1 else c.count p)
  unfolding claim
  claim_count o p c = ground arith

  claim-builtin : (o : ℕ) (c : Counts) → builtin o ≡ true → claim builtin o c ≡ c
  unfolding claim
  claim-builtin o c b = rw b refl

  claim-counted :
      (o : ℕ) (c : Counts) → builtin o ≡ false → claim builtin o c ≡ set_count o (c.count o + 1) c
  unfolding claim
  claim-counted o c b = rw b refl

  release-counted :
      (o : ℕ) (c : Counts)
      → builtin o ≡ false
      → 1 < c.count o
      → release builtin o c ≡ set_count o (c.count o - 1) c
  unfolding release
  release-counted o c b h = rw b (dropped_live o (c.count o) c h)

  release-builtin : (o : ℕ) (c : Counts) → builtin o ≡ true → release builtin o c ≡ c
  unfolding release
  release-builtin o c b = rw b refl

  pub release-claim : (o : ℕ) (c : Counts) → IsLive c o → release builtin o (claim builtin o c) ≡ c
  release-claim o c h = elim (Bool-cases (builtin o)) [
    | inl b ↦ ap (release builtin o) (claim-builtin o c b) ∙ release-builtin o c b
    | inr b ↦
        let d = set_count o (c.count o + 1) c in
        let here : d.count o ≡ c.count o + 1 = ground arith in
        let positive : 0 < c.count o = elim h [ inl k ↦ absurd (cc (b, k)) | inr k ↦ k ] in
        ap (release builtin o) (claim-counted o c b)
        ∙ release-counted o d b (omega arith)
        ∙ set_count_twice o (c.count o + 1) (d.count o - 1) c (omega arith)
  ]

  pub claim_comm :
      (o p : ℕ) (c : Counts)
      → claim builtin o (claim builtin p c) ≡ claim builtin p (claim builtin o c)
  claim_comm o p c = elim (Bool-cases (builtin o)) [
    | inl b ↦
        claim-builtin o (claim builtin p c) b ∙ ap (claim builtin p) (sym (claim-builtin o c b))
    | inr b ↦ elim (Bool-cases (builtin p)) [
      | inl k ↦
          ap (claim builtin o) (claim-builtin p c k) ∙ sym (claim-builtin p (claim builtin o c) k)
      | inr k ↦
          let e = set_count p (c.count p + 1) c in
          let f = set_count o (c.count o + 1) c in
          ap (claim builtin o) (claim-counted p c k)
          ∙ claim-counted o e b
          ∙ Counts-ext (set_count o (e.count o + 1) e) (set_count p (f.count p + 1) f)
              (λ x. ground arith) refl refl
          ∙ sym (claim-counted p f k)
          ∙ ap (claim builtin p) (sym (claim-counted o c b))
    ]
  ]

  pub claim-IsLive : (o p : ℕ) (c : Counts) → IsLive c p → IsLive (claim builtin o c) p
  claim-IsLive o p c (inl b) = inl b
  claim-IsLive o p c (inr h) = inr (ground (arith, claim_count o p c))

  claim_all-claim :
      (o : ℕ) (os : List ℕ) (c : Counts)
      → claim_all builtin os (claim builtin o c) ≡ claim builtin o (claim_all builtin os c)
  unfolding claim_all
  claim_all-claim o [] c = refl
  claim_all-claim o (p ∷ os) c =
      ap (claim_all builtin os) (claim_comm p o c) ∙ claim_all-claim o os (claim builtin p c)

  claim_all-IsLive :
      (os : List ℕ) (p : ℕ) (c : Counts) → IsLive c p → IsLive (claim_all builtin os c) p
  unfolding claim_all
  claim_all-IsLive [] p c h = h
  claim_all-IsLive (o ∷ os) p c h = claim_all-IsLive os p (claim builtin o c) (claim-IsLive o p c h)

  -- A scope that is claimed and released again leaves the counts as they were.
  release_all-claim_all :
      (os : List ℕ) (c : Counts)
      → All (IsLive c) os
      → release_all builtin os (claim_all builtin os c) ≡ c
  unfolding release_all claim_all
  release_all-claim_all [] c h = refl
  release_all-claim_all (o ∷ os) c h =
      ap (λ d. release_all builtin os (release builtin o d)) (claim_all-claim o os c)
      ∙ ap (release_all builtin os)
          (release-claim o (claim_all builtin os c) (claim_all-IsLive os o c h.0))
      ∙ release_all-claim_all os c h.1
