-- ===== src/Rollback/Router/Changes.antt =====
-- What a batch promises of each change, and the check of it: `validate_change`, and `typed_event`.
pub mod Typed
use mycore.Base.{
  ℕ, Option, none, some, Bool, true, false, not, ◌&&◌, ◌||◌, ◌==◌, if◌then◌else◌, has_value,
}
use mycore.Rollback.Types.{RollbackModel, EventChange, EventTransition}
use mycore.Rollback.Router.{ConsequenceBatchContractError, Subscriptions}

-- The switch of `validate_change`.
abbrev pub valid_shape : EventTransition → Bool → Bool → Bool
valid_shape EventTransition.first_predicted has_previous has_current =
    not has_previous && has_current
valid_shape EventTransition.authority_only has_previous has_current =
    not has_previous && has_current
valid_shape EventTransition.revised has_previous has_current = has_previous && has_current
valid_shape EventTransition.confirmed has_previous has_current = has_previous && has_current
valid_shape EventTransition.retracted has_previous has_current = has_previous && not has_current

module _ (m : RollbackModel) (s : Subscriptions m) where
  open m use {Event}
  open s use {alternative, valueless}

  abbrev pub is_valueless : Option Event → Bool
  is_valueless none = false
  is_valueless (some e) = valueless e

  -- The events are both there and hold different alternatives.
  abbrev pub changes_alternative : Option Event → Option Event → Bool
  changes_alternative (some previous) (some current) =
      not (alternative previous == alternative current)
  changes_alternative none current = false
  changes_alternative (some previous) none = false

  unfoldable pub validate_change : EventChange m → Option ConsequenceBatchContractError
  validate_change change =
      if is_valueless change.previous || is_valueless change.current
      then some ConsequenceBatchContractError.valueless_event
      else if valid_shape change.transition (has_value change.previous) (has_value change.current)
      then if changes_alternative change.previous change.current
        then some ConsequenceBatchContractError.changed_event_alternative
        else none
      else some ConsequenceBatchContractError.invalid_transition_shape

  -- `std::get_if` on the event, if there is one.
  abbrev pub typed_event : ℕ → Option Event → Option Event
  typed_event expected none = none
  typed_event expected (some e) =
      if not (valueless e) && alternative e == expected then some e else none
