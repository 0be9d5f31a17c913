-- ===== src/Protocol/Consistent/Marks.antt =====
-- The indices that the loops over the owners and over the entities fill.
use native.Mathlib.Decide.{ℕ_discrete}
use mycore.Base.{ℕ, ◌≡◌, refl, sym, ap, ◌∙◌, ◌⊎◌, inl, inr, some, List, Option-cases}
use mycore.Rollback.Keyed.{find, emplace, find-hit, find-miss, emplace-new, emplace-old}
use mycore.Rollback.Router.Sets.{assign}
use mycore.Rollback.Router.Sets.Contents.{find-assign_self, find-assign_other}

-- An entry under the key.
abbrev pub Holds : {V : Type 0} → ℕ → List (ℕ × V) → Type 0
Holds {V} k xs = (v : V) × (find ℕ_discrete k xs ≡ some v)

module _ {V : Type 0} (j : ℕ) (v : V) (xs : List (ℕ × V)) where
  pub find-emplace :
      (k : ℕ) (p : V)
      → find ℕ_discrete k (emplace ℕ_discrete j v xs).0 ≡ some p
      → (find ℕ_discrete k xs ≡ some p) ⊎ ((j ≡ k) × (v ≡ p))
  find-emplace k p h = elim (Option-cases (find ℕ_discrete j xs)) [
    | inr (old, at) ↦ inl (rw⁻¹ (ap (λ e. e.0) (emplace-old ℕ_discrete j v old xs at)) h)
    | inl free ↦
        let added = ap (λ e. e.0) (emplace-new ℕ_discrete j v xs free) in
        let found = ap (find ℕ_discrete k) (sym added) ∙ h in
        elim (ℕ_discrete j k) [
          | yes e ↦ inr (e, cc (found, find-hit ℕ_discrete j k v xs e))
          | no ne ↦ inl (sym (find-miss ℕ_discrete j k v xs ne) ∙ found)
        ]
  ]

  pub emplace-Holds_self : Holds j (emplace ℕ_discrete j v xs).0
  emplace-Holds_self = elim (Option-cases (find ℕ_discrete j xs)) [
    | inr (old, at) ↦ (old, rw (emplace-old ℕ_discrete j v old xs at) at)
    | inl free ↦ (v, rw (emplace-new ℕ_discrete j v xs free) (find-hit ℕ_discrete j j v xs refl))
  ]

  pub emplace-Holds : (k : ℕ) → Holds k xs → Holds k (emplace ℕ_discrete j v xs).0
  emplace-Holds k (p, h) = elim (Option-cases (find ℕ_discrete j xs)) [
    | inr (old, at) ↦ (p, rw (emplace-old ℕ_discrete j v old xs at) h)
    | inl free ↦ elim (ℕ_discrete j k) [
      | yes e ↦ (v, rw (emplace-new ℕ_discrete j v xs free) (find-hit ℕ_discrete j k v xs e))
      | no ne ↦ (p, rw (emplace-new ℕ_discrete j v xs free) (find-miss ℕ_discrete j k v xs ne ∙ h))
    ]
  ]

  pub assign-Holds : (k : ℕ) → Holds k xs → Holds k (assign ℕ_discrete j v xs)
  assign-Holds k (p, h) = elim (ℕ_discrete j k) [
    | yes e ↦ (v, rw (e) (find-assign_self ℕ_discrete k v p xs h))
    | no ne ↦ (p, find-assign_other ℕ_discrete k j v xs ne ∙ h)
  ]

  pub find-assign_cases :
      (k : ℕ) (p : V)
      → find ℕ_discrete k (assign ℕ_discrete j v xs) ≡ some p
      → (find ℕ_discrete k xs ≡ some p) ⊎ (j ≡ k)
  find-assign_cases k p h = elim (ℕ_discrete j k) [
    | yes e ↦ inr e
    | no ne ↦ inl (sym (find-assign_other ℕ_discrete k j v xs ne) ∙ h)
  ]
