-- ===== src/Rollback/Router/Once.antt =====
-- The handlers that are told of an occurrence once, as soon as it is predicted or when it is
-- confirmed: `process_predict_once` and `process_confirm_once`.
pub mod Calls
use mycore.Base.{ℕ, List, Bool, true, false, if◌then◌else◌}
use mycore.Rollback.Types.{RollbackModel, EventChange, EventTransition}
use mycore.Rollback.Router.{ConsequenceOperation, ConsequenceDispatchReport, Subscriptions, OnEvent}
use mycore.Rollback.Router.Count
use mycore.Rollback.Router.Count.{record_failure}
use mycore.Rollback.Router.Sets.{insert}

-- Whether `on_first`, and `on_confirmed`, is due at all.
abbrev pub announces : EventTransition → Bool
announces EventTransition.first_predicted = true
announces EventTransition.confirmed = true
announces EventTransition.authority_only = true
announces EventTransition.revised = false
announces EventTransition.retracted = false

abbrev pub settles : EventTransition → Bool
settles EventTransition.confirmed = true
settles EventTransition.authority_only = true
settles EventTransition.first_predicted = false
settles EventTransition.revised = false
settles EventTransition.retracted = false

module _ (m : RollbackModel) (s : Subscriptions m) where
  open m use {Event, EventKey, key_discrete}
  open s use {Handler}

  unfoldable pub process_predict_once :
      ℕ
      → OnEvent m s
      → EventChange m
      → Event
      → Handler
      → List EventKey
      → ConsequenceDispatchReport
      → Handler × List EventKey × ConsequenceDispatchReport
  process_predict_once index on_first change event handler delivered report =
      if announces change.transition
      then (let (delivered', is_new) = insert key_discrete change.key delivered in
          if is_new
          then (let (handler', succeeded) = on_first handler change.key event in
              if succeeded
              then (handler', delivered', Count.delivered report)
              else (handler', delivered', record_failure index ConsequenceOperation.first report))
          else (handler, delivered', Count.suppressed report))
      else (handler, delivered, Count.suppressed report)

  unfoldable pub process_confirm_once :
      ℕ
      → OnEvent m s
      → EventChange m
      → Event
      → Handler
      → List EventKey
      → ConsequenceDispatchReport
      → Handler × List EventKey × ConsequenceDispatchReport
  process_confirm_once index on_confirmed change event handler delivered report =
      if settles change.transition
      then (let (delivered', is_new) = insert key_discrete change.key delivered in
          if is_new
          then (let (handler', succeeded) = on_confirmed handler change.key event in
              if succeeded
              then (handler', delivered', Count.confirmed (Count.delivered report))
              else (
                handler',
                delivered',
                record_failure index ConsequenceOperation.confirmed report,
              ))
          else (handler, delivered', Count.suppressed report))
      else (handler, delivered, Count.suppressed report)
