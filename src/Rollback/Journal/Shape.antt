-- ===== src/Rollback/Journal/Shape.antt =====
-- What validation says of an authority event.
use mathlib.Core.Path.{subst}
use mycore.Base.{
  ◌≡◌, refl, sym, ◌⊎◌, inl, inr, true, has_value, arith, none, List, [], ◌∷◌, Bool-cases,
}
use mycore.Rollback.Types.{RollbackModel, AuthorityEvent, AuthorityEventDisposition}
use mycore.Rollback.Types.AuthorityEventDisposition.{confirmed, rejected}
use mycore.Rollback.Keyed.{In, emplace}
use mycore.Rollback.Journal.{has_shape, validate_from, validate_authority_events}

pub Disposition-cases : (d : AuthorityEventDisposition) → (d ≡ confirmed) ⊎ (d ≡ rejected)
Disposition-cases confirmed = inl refl
Disposition-cases rejected = inr refl

module _ (m : RollbackModel) where
  -- A confirmed event is there.
  pub confirmed_event :
      (a : AuthorityEvent m)
      → has_shape m a ≡ true
      → a.disposition ≡ confirmed
      → has_value a.event ≡ true
  unfolding has_shape
  confirmed_event a h c = ground arith

  -- A failing shape is refused at once, and otherwise the rest is validated too.
  validate_from-head :
      (entries : List (m.EventKey × AuthorityEvent m)) (events : List (AuthorityEvent m))
      (b : AuthorityEvent m)
      → validate_from m entries (b ∷ events) ≡ none
      → has_shape m b ≡ true
  unfolding validate_from
  validate_from-head entries events b h = elim (Bool-cases (has_shape m b)) [
    | inl t ↦ t
    | inr f ↦ absurd (cc (rw (f, validate_from) at h))
  ]

  validate_from-tail :
      (entries : List (m.EventKey × AuthorityEvent m)) (events : List (AuthorityEvent m))
      (b : AuthorityEvent m)
      → validate_from m entries (b ∷ events) ≡ none
      → validate_from m (emplace m.key_discrete b.key b entries).0 events ≡ none
  unfolding validate_from
  validate_from-tail entries events b h = ground (arith, validate_from-head entries events b h)

  validate_from-shape :
      (entries : List (m.EventKey × AuthorityEvent m)) (events : List (AuthorityEvent m))
      (a : AuthorityEvent m)
      → validate_from m entries events ≡ none
      → In a events
      → has_shape m a ≡ true
  validate_from-shape entries [] a h i = absurd i
  validate_from-shape entries (b ∷ events) a h (inl e) =
      subst (λ z. has_shape m z ≡ true) (sym e) (validate_from-head entries events b h)
  validate_from-shape entries (b ∷ events) a h (inr i) =
      validate_from-shape (emplace m.key_discrete b.key b entries).0 events a
        (validate_from-tail entries events b h) i

  -- What passes validation has the shapes that it asks for.
  pub validate-shape :
      (events : List (AuthorityEvent m)) (a : AuthorityEvent m)
      → validate_authority_events m events ≡ none
      → In a events
      → has_shape m a ≡ true
  unfolding validate_authority_events
  validate-shape events a h i = validate_from-shape [] events a h i
