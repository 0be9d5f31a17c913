-- ===== src/Rollback/Router/Handlers.antt =====
-- One event change at each handler: `process_change` and `process_handler`, and the pruning of the
-- handlers' storage.
pub mod Dispatched
use mycore.Base.{
  ℕ, suc, Option, none, some, List, [], ◌∷◌, Bool, true, false, ◌&&◌, ◌||◌, if◌then◌else◌,
  has_value,
}
use mycore.Rollback.Types.{RollbackModel, EventChange}
use mycore.Rollback.Keyed.{find, or_else}
use mycore.Rollback.Router.{
  ConsequenceDispatchReport, Subscriptions, Subscription, predict_once, confirm_once,
  predict_cancelable, Slot, statistics_delta,
}
use mycore.Rollback.Router.Count.{add_at}
use mycore.Rollback.Router.Sets.{erase, erase_key}
use mycore.Rollback.Router.Changes.{typed_event}
use mycore.Rollback.Router.Once.{process_predict_once, process_confirm_once}
use mycore.Rollback.Router.Cancelables.{Dealt, process_predict_cancelable}

module _ (m : RollbackModel) (s : Subscriptions m) where
  open m use {Event, EventKey, key_discrete}
  open s use {Handler, Token}

  -- The branch on the handler's policy, for the two events of its type. `none` is a null pointer that
  -- is dereferenced.
  unfoldable pub dispatch :
      ℕ
      → EventChange m
      → Option Event
      → Option Event
      → Handler
      → Subscription m s
      → ConsequenceDispatchReport
      → Option (Handler × Subscription m s × ConsequenceDispatchReport)
  dispatch index change current previous handler (predict_once on_first delivered) report =
      elim (or_else current previous) [
        | none ↦ none
        | some event ↦
            let (handler', delivered', report') =
              process_predict_once m s index on_first change event handler delivered report in
            some (handler', predict_once on_first delivered', report')
      ]
  dispatch index change current previous handler (confirm_once on_confirmed delivered) report =
      elim (or_else current previous) [
        | none ↦ none
        | some event ↦
            let (handler', delivered', report') =
              process_confirm_once m s index on_confirmed change event handler delivered report in
            some (handler', confirm_once on_confirmed delivered', report')
      ]
  dispatch index change current previous handler (predict_cancelable callbacks active) report =
      elim (process_predict_cancelable m s index callbacks change.transition change.key current
        previous handler active report) [
          | none ↦ none
          | some (handler', active', report') ↦
              some (handler', predict_cancelable callbacks active', report')
        ]

  unfoldable pub process_handler :
      ℕ
      → Slot m s
      → EventChange m
      → ConsequenceDispatchReport
      → Option (Slot m s × ConsequenceDispatchReport)
  process_handler index slot change report =
      let current = typed_event m s slot.event_alternative change.current in
      let previous = typed_event m s slot.event_alternative change.previous in
      if has_value current || has_value previous
      then elim (dispatch index change current previous slot.handler slot.subscription report) [
        | none ↦ none
        | some (handler', subscription', report') ↦ some (
          record slot { handler = handler'; subscription = subscription' },
          record report' {
            handlers =
                add_at index (statistics_delta report'.statistics report.statistics)
                  report'.handlers;
          },
        )
      ]
      else some (slot, report)

  -- The handlers one after the other, from the index on.
  unfoldable pub process_change :
      ℕ
      → List (Slot m s)
      → EventChange m
      → ConsequenceDispatchReport
      → Option (List (Slot m s) × ConsequenceDispatchReport)
  process_change index [] change report = some ([], report)
  process_change index (slot ∷ slots) change report =
      elim (process_handler index slot change report) [
        | none ↦ none
        | some (slot', report') ↦ elim (process_change (suc index) slots change report') [
          | none ↦ none
          | some (slots', report'') ↦ some (slot' ∷ slots', report'')
        ]
      ]

  -- An occurrence whose effect can still be taken back is kept.
  abbrev pub settled : Option (Option Token) → Bool
  settled none = true
  settled (some none) = true
  settled (some (some token)) = false

  unfoldable pub can_prune_handler : EventKey → Subscription m s → Bool
  can_prune_handler key (predict_once on_first delivered) = true
  can_prune_handler key (confirm_once on_confirmed delivered) = true
  can_prune_handler key (predict_cancelable callbacks active) =
      settled (find key_discrete key active)

  unfoldable pub prune_handler : EventKey → Subscription m s → Subscription m s
  prune_handler key (predict_once on_first delivered) =
      predict_once on_first (erase key_discrete key delivered)
  prune_handler key (confirm_once on_confirmed delivered) =
      confirm_once on_confirmed (erase key_discrete key delivered)
  prune_handler key (predict_cancelable callbacks active) =
      predict_cancelable callbacks (erase_key key_discrete key active)

  unfoldable pub can_prune : EventKey → List (Slot m s) → Bool
  can_prune key [] = true
  can_prune key (slot ∷ slots) = can_prune_handler key slot.subscription && can_prune key slots

  unfoldable pub prune : EventKey → List (Slot m s) → List (Slot m s)
  prune key [] = []
  prune key (slot ∷ slots) =
      record slot { subscription = prune_handler key slot.subscription } ∷ prune key slots
