-- ===== src/Rollback/Router/Cancelables.antt =====
-- The handlers that can take an effect back: `process_predict_cancelable` and `activate`.
pub mod Tokens
pub mod Steps
pub mod Total
use mycore.Base.{ℕ, Option, none, some, List, if◌then◌else◌, has_value}
use mycore.Rollback.Types.{RollbackModel, EventTransition}
use mycore.Rollback.Keyed.{find, emplace}
use mycore.Rollback.Router.{
  ConsequenceOperation, ConsequenceDispatchReport, Subscriptions, Cancelable,
}
use mycore.Rollback.Router.Count
use mycore.Rollback.Router.Count.{record_failure}
use mycore.Rollback.Router.Sets.{erase_key, assign}

module _ (m : RollbackModel) (s : Subscriptions m) where
  open m use {Event, EventKey, key_discrete}
  open s use {Handler, Token}

  -- The handler, the active keys and the report, as one callback after the other leaves them.
  abbrev pub Dealt : Type 0
  Dealt = Handler × List (EventKey × Option Token) × ConsequenceDispatchReport

  unfoldable pub activate :
      ℕ
      → Cancelable m s
      → EventKey
      → Event
      → Handler
      → List (EventKey × Option Token)
      → ConsequenceDispatchReport
      → Dealt
  activate index callbacks key event handler active report =
      let (active', inserted) = emplace key_discrete key none active in
      if inserted
      then (let (handler', token) = callbacks.on_predict handler key event in
          elim token [
            | none ↦ (handler', active', record_failure index ConsequenceOperation.predict report)
            | some t ↦ (handler', assign key_discrete key (some t) active', Count.delivered report)
          ])
      else (handler, active', Count.suppressed report)

  -- What `Confirmed` and `AuthorityOnly` do with the entry that is found. `none` is a null pointer
  -- that is dereferenced.
  unfoldable pub confirm_found :
      ℕ
      → Cancelable m s
      → EventKey
      → Option Event
      → Option (Option Token)
      → Handler
      → List (EventKey × Option Token)
      → ConsequenceDispatchReport
      → Option Dealt
  confirm_found index callbacks key current none handler active report =
      some (handler, active, Count.suppressed report)
  confirm_found index callbacks key current (some none) handler active report =
      some (handler, active, Count.suppressed report)
  confirm_found index callbacks key none (some (some token)) handler active report = none
  confirm_found index callbacks key (some event) (some (some token)) handler active report =
      let (handler', succeeded) = callbacks.on_confirm handler token key event in
      let active' = assign key_discrete key none active in
      some (
        if succeeded
        then (handler', active', Count.confirmed report)
        else (handler', active', record_failure index ConsequenceOperation.confirm report))

  -- `activate`, and then what follows it.
  abbrev pub activate_first :
      ℕ
      → Cancelable m s
      → EventKey
      → Option Event
      → Handler
      → List (EventKey × Option Token)
      → ConsequenceDispatchReport
      → (Dealt → Option Dealt)
      → Option Dealt
  activate_first index callbacks key none handler active report next = none
  activate_first index callbacks key (some event) handler active report next =
      next (activate index callbacks key event handler active report)

  unfoldable pub confirm :
      ℕ
      → Cancelable m s
      → EventKey
      → Option Event
      → Handler
      → List (EventKey × Option Token)
      → ConsequenceDispatchReport
      → Option Dealt
  confirm index callbacks key current handler active report =
      if has_value (find key_discrete key active)
      then confirm_found index callbacks key current (find key_discrete key active) handler active
          report
      else activate_first index callbacks key current handler active report
          λ (handler', active', report').
            confirm_found index callbacks key current (find key_discrete key active') handler'
              active' report'

  -- The entry under the key and the new event.
  unfoldable pub revise_found :
      ℕ
      → Cancelable m s
      → EventKey
      → Option Event
      → Option (Option Token)
      → Handler
      → List (EventKey × Option Token)
      → ConsequenceDispatchReport
      → Option Dealt
  revise_found index callbacks key current none handler active report =
      some (handler, active, Count.suppressed report)
  revise_found index callbacks key current (some none) handler active report =
      some (handler, active, Count.suppressed report)
  revise_found index callbacks key none (some (some token)) handler active report = none
  revise_found index callbacks key (some event) (some (some token)) handler active report =
      let (handler', token', succeeded) = callbacks.on_revise handler token key event in
      let active' = assign key_discrete key (some token') active in
      some (
        if succeeded
        then (handler', active', Count.revised report)
        else (handler', active', record_failure index ConsequenceOperation.revise report))

  unfoldable pub cancel_found :
      ℕ
      → Cancelable m s
      → EventKey
      → Option Event
      → Option (Option Token)
      → Handler
      → List (EventKey × Option Token)
      → ConsequenceDispatchReport
      → Option Dealt
  cancel_found index callbacks key previous none handler active report =
      some (handler, active, Count.suppressed report)
  cancel_found index callbacks key previous (some none) handler active report =
      some (handler, erase_key key_discrete key active, report)
  cancel_found index callbacks key none (some (some token)) handler active report = none
  cancel_found index callbacks key (some event) (some (some token)) handler active report =
      let (handler', succeeded) = callbacks.on_cancel handler token key event in
      let active' = erase_key key_discrete key active in
      some (
        if succeeded
        then (handler', active', Count.canceled report)
        else (handler', active', record_failure index ConsequenceOperation.cancel report))

  unfoldable pub process_predict_cancelable :
      ℕ
      → Cancelable m s
      → EventTransition
      → EventKey
      → Option Event
      → Option Event
      → Handler
      → List (EventKey × Option Token)
      → ConsequenceDispatchReport
      → Option Dealt
  process_predict_cancelable index callbacks EventTransition.first_predicted key current previous
        handler active report =
      if has_value (find key_discrete key active)
      then some (handler, active, Count.suppressed report)
      else activate_first index callbacks key current handler active report some
  process_predict_cancelable index callbacks EventTransition.revised key current previous handler
        active report =
      revise_found index callbacks key current (find key_discrete key active) handler active report
  process_predict_cancelable index callbacks EventTransition.retracted key current previous handler
        active report =
      cancel_found index callbacks key previous (find key_discrete key active) handler active report
  process_predict_cancelable index callbacks EventTransition.confirmed key current previous handler
        active report =
      confirm index callbacks key current handler active report
  process_predict_cancelable index callbacks EventTransition.authority_only key current previous
        handler active report =
      confirm index callbacks key current handler active report
