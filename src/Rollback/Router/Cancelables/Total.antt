-- ===== src/Rollback/Router/Cancelables/Total.antt =====
-- `process_predict_cancelable` dereferences no null pointer, given a well-shaped change.
use mycore.Base.{
  ℕ, ◌≡◌, refl, inl, inr, Option, none, some, List, true, has_value, arith, Option-cases,
}
use mycore.Rollback.Types.{RollbackModel, EventTransition}
use mycore.Rollback.Keyed.{find}
use mycore.Rollback.Router.{ConsequenceDispatchReport, Subscriptions, Cancelable}
use mycore.Rollback.Router.Changes.{valid_shape}
use mycore.Rollback.Router.Cancelables.{
  Dealt, activate, confirm_found, confirm, revise_found, cancel_found, process_predict_cancelable,
}

module _ (m : RollbackModel) (s : Subscriptions m) (index : ℕ) (c : Cancelable m s)
    (key : m.EventKey) where
  open m use {Event, EventKey, key_discrete}
  open s use {Handler, Token}

  abbrev pub IsSome : Option (Dealt m s) → Type 0
  IsSome r = (d : Dealt m s) × (r ≡ some d)

  module _ (event : Event) (h : Handler) (active : List (EventKey × Option Token))
      (report : ConsequenceDispatchReport) where
    confirm_found-some :
        (found : Option (Option Token))
        → IsSome (confirm_found m s index c key (some event) found h active report)
    unfolding confirm_found
    confirm_found-some none = (_, refl)
    confirm_found-some (some none) = (_, refl)
    confirm_found-some (some (some t)) = (_, refl)

    revise_found-some :
        (found : Option (Option Token))
        → IsSome (revise_found m s index c key (some event) found h active report)
    unfolding revise_found
    revise_found-some none = (_, refl)
    revise_found-some (some none) = (_, refl)
    revise_found-some (some (some t)) = (_, refl)

    cancel_found-some :
        (found : Option (Option Token))
        → IsSome (cancel_found m s index c key (some event) found h active report)
    unfolding cancel_found
    cancel_found-some none = (_, refl)
    cancel_found-some (some none) = (_, refl)
    cancel_found-some (some (some t)) = (_, refl)

  module _ (h : Handler) (active : List (EventKey × Option Token))
      (report : ConsequenceDispatchReport) where
    confirm-some : (event : Event) → IsSome (confirm m s index c key (some event) h active report)
    unfolding confirm
    confirm-some event = elim (Option-cases (find key_discrete key active)) [
      | inr (entry, at) ↦ rw (at) (confirm_found-some event h active report (some entry))
      | inl absent ↦
          let d = activate m s index c key event h active report in
          rw (absent) (confirm_found-some event d.0 d.1 d.2 (find key_discrete key d.1))
    ]

    pub process-IsSome :
        (t : EventTransition) (current previous : Option Event)
        → valid_shape t (has_value previous) (has_value current) ≡ true
        → IsSome (process_predict_cancelable m s index c t key current previous h active report)
    unfolding process_predict_cancelable
    process-IsSome EventTransition.first_predicted (some current) previous shape =
        elim (Option-cases (find key_discrete key active)) [
          | inr (entry, at) ↦ rw (at) (_, refl)
          | inl absent ↦ rw (absent) (_, refl)
        ]
    process-IsSome EventTransition.revised (some current) previous shape =
        revise_found-some current h active report _
    process-IsSome EventTransition.retracted current (some previous) shape =
        cancel_found-some previous h active report _
    process-IsSome EventTransition.confirmed (some current) previous shape = confirm-some current
    process-IsSome EventTransition.authority_only (some current) previous shape =
        confirm-some current
    process-IsSome EventTransition.first_predicted none previous shape = absurd (ground arith)
    process-IsSome EventTransition.revised none previous shape = absurd (ground arith)
    process-IsSome EventTransition.retracted current none shape = absurd (cc shape)
    process-IsSome EventTransition.confirmed none previous shape = absurd (ground arith)
    process-IsSome EventTransition.authority_only none previous shape = absurd (ground arith)
