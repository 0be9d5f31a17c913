-- ===== src/Rollback/Router/Changes/Typed.antt =====
-- What a change that has passed the check shows a handler.
use mycore.Base.{ℕ, ◌≡◌, Option, none, some, true, false, ◌||◌, has_value, arith}
use mycore.Rollback.Types.{RollbackModel, EventChange, EventTransition}
use mycore.Rollback.Router.{Subscriptions}
use mycore.Rollback.Router.Changes.{
  validate_change, valid_shape, typed_event, is_valueless, changes_alternative,
}

module _ (m : RollbackModel) (s : Subscriptions m) where
  open m use {Event}

  typed_shape :
      (t : EventTransition) (a : ℕ) (previous current : Option Event)
      → (is_valueless m s previous || is_valueless m s current) ≡ false
      → changes_alternative m s previous current ≡ false
      → valid_shape t (has_value previous) (has_value current) ≡ true
      → (has_value (typed_event m s a current) || has_value (typed_event m s a previous)) ≡ true
      → valid_shape t
          (has_value (typed_event m s a previous))
          (has_value (typed_event m s a current))
        ≡ true
  typed_shape t a none none v c h e = absurd (cc e)
  typed_shape t a none (some x) v c h e = ground arith
  typed_shape t a (some x) none v c h e = ground arith
  typed_shape t a (some x) (some y) v c h e = ground arith

  -- A change that passes the check is well shaped, and so is what a handler sees of it, unless it
  -- sees nothing.
  pub validated :
      (change : EventChange m)
      → validate_change m s change ≡ none
      → ((is_valueless m s change.previous || is_valueless m s change.current) ≡ false)
        × (changes_alternative m s change.previous change.current ≡ false)
        × (valid_shape change.transition (has_value change.previous) (has_value change.current)
            ≡ true)
  unfolding validate_change
  validated change h = ground arith

  pub validated_typed :
      (change : EventChange m) (a : ℕ)
      → validate_change m s change ≡ none
      → (has_value (typed_event m s a change.current)
          || has_value (typed_event m s a change.previous))
        ≡ true
      → valid_shape change.transition
          (has_value (typed_event m s a change.previous))
          (has_value (typed_event m s a change.current))
        ≡ true
  validated_typed change a h e =
      let (v, c, shape) = validated change h in
      typed_shape change.transition a change.previous change.current v c shape e
