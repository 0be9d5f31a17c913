-- ===== src/Rollback/Router/Consume.antt =====
-- The whole batch: `consume`, its contract check and `try_prune`, and `ledger_statistics`.
pub mod Keeps
pub mod Batches
pub mod Fed
pub mod Commits
use mycore.Base.{
  ℕ, zero, suc, ◌+◌, Option, none, some, List, [], ◌∷◌, Bool, true, false, ◌&&◌, if◌then◌else◌,
  length,
}
use mycore.Base.Word.{add_u64}
use mycore.Rollback.Types.{RollbackModel, EventChange, EventBatch, Commit}
use mycore.Rollback.AuthorityOnly.{event_batch_from_commit}
use mycore.Rollback.Router.{
  ConsequenceBatchContractFailure, ConsequenceDispatchReport, ConsequenceLedgerStatistics,
  ConsequenceHandlerDispatchStatistics, Subscriptions, Subscription, predict_once, confirm_once,
  predict_cancelable, Slot, Router, no_dispatches, add_statistics, make_handler_statistics,
}
use mycore.Rollback.Router.Sets.{contains, insert, erase}
use mycore.Rollback.Router.Changes.{validate_change}
use mycore.Rollback.Router.Handlers.{process_change, can_prune, prune}

-- The last loop of `consume`.
abbrev pub add_handlers :
    List ConsequenceHandlerDispatchStatistics
    → List ConsequenceHandlerDispatchStatistics
    → List ConsequenceHandlerDispatchStatistics
add_handlers [] ds = []
add_handlers (h ∷ hs) [] = h ∷ hs
add_handlers (h ∷ hs) (d ∷ ds) =
    record h { statistics = add_statistics h.statistics d.statistics } ∷ add_handlers hs ds

-- `contract_failures.empty()`.
abbrev pub is_empty : {A : Type 0} → List A → Bool
is_empty [] = true
is_empty (x ∷ xs) = false

module _ (m : RollbackModel) (s : Subscriptions m) where
  open m use {EventKey, key_discrete}
  open s use {Token}

  unfoldable pub contract_failures_from :
      ℕ → List (EventChange m) → List ConsequenceBatchContractFailure
  contract_failures_from index [] = []
  contract_failures_from index (change ∷ changes) =
      let rest = contract_failures_from (suc index) changes in
      elim (validate_change m s change) [
        | none ↦ rest
        | some e ↦ record { change_index = index; error = e } ∷ rest
      ]

  unfoldable pub try_prune : EventKey → Router m s → Router m s
  try_prune key router =
      if contains key_discrete key router.replay_retirement_evidence
        && (contains key_discrete key router.external_retirement_evidence
            && can_prune m s key router.slots)
      then record router {
        slots = prune m s key router.slots;
        replay_retirement_evidence = erase key_discrete key router.replay_retirement_evidence;
        external_retirement_evidence = erase key_discrete key router.external_retirement_evidence;
        pruned_occurrence_count = add_u64 router.pruned_occurrence_count 1;
      }
      else router

  unfoldable pub process_changes :
      List (EventChange m)
      → Router m s
      → ConsequenceDispatchReport
      → Option (Router m s × ConsequenceDispatchReport)
  process_changes [] router report = some (router, report)
  process_changes (change ∷ changes) router report =
      elim (process_change m s 0 router.slots change report) [
        | none ↦ none
        | some (slots', report') ↦
            process_changes changes (try_prune change.key (record router { slots = slots' }))
              report'
      ]

  unfoldable pub retire_replayed : List EventKey → Router m s → Router m s
  retire_replayed [] router = router
  retire_replayed (key ∷ keys) router = retire_replayed keys (
      try_prune key (record router {
        replay_retirement_evidence = (insert key_discrete key router.replay_retirement_evidence).0;
      }))

  unfoldable pub retire_externally : List EventKey → Router m s → Router m s
  retire_externally [] router = router
  retire_externally (key ∷ keys) router = retire_externally keys (
      try_prune key (record router {
        external_retirement_evidence =
            (insert key_discrete key router.external_retirement_evidence).0;
      }))

  -- What a report starts with.
  abbrev pub new_report : Router m s → EventBatch m → ConsequenceDispatchReport
  new_report router batch = record {
    statistics = no_dispatches;
    handlers = make_handler_statistics m s router.slots;
    failures = [];
    contract_failures = contract_failures_from 0 batch.changes;
  }

  -- The sums at the end of `consume`.
  abbrev pub total : Router m s → ConsequenceDispatchReport → Router m s
  total router report = record router {
    statistics = add_statistics router.statistics report.statistics;
    handler_statistics = add_handlers router.handler_statistics report.handlers;
  }

  -- `consume` from its early return on: the changes, then the retired keys, then the sums.
  unfoldable pub process_batch :
      Router m s
      → EventBatch m
      → ConsequenceDispatchReport
      → Option (Router m s × ConsequenceDispatchReport)
  process_batch router batch report = elim (process_changes batch.changes router report) [
    | none ↦ none
    | some (router', report') ↦
        let router'' =
          retire_externally batch.externally_retired_keys
            (retire_replayed batch.retired_keys router') in
        some (total router'' report', report')
  ]

  unfoldable pub consume :
      Router m s → EventBatch m → Option (Router m s × ConsequenceDispatchReport)
  consume router batch =
      let report = new_report router batch in
      if is_empty report.contract_failures
      then process_batch router batch report
      else some (router, report)

  unfoldable pub consume_commit :
      Router m s → Commit m → Option (Router m s × ConsequenceDispatchReport)
  consume_commit router commit = consume router (event_batch_from_commit m commit)

  -- `accumulate_handler_ledger_statistics`, and the loop in it.
  abbrev pub count_active :
      List (EventKey × Option Token) → ConsequenceLedgerStatistics → ConsequenceLedgerStatistics
  count_active [] result = result
  count_active ((key, some token) ∷ active) result =
      count_active active (record result {
        cancelable_active_key_count = add_u64 result.cancelable_active_key_count 1;
      })
  count_active ((key, none) ∷ active) result = count_active active (record result {
    cancelable_inactive_key_count = add_u64 result.cancelable_inactive_key_count 1;
  })

  abbrev pub accumulate_handler_ledger_statistics :
      Subscription m s → ConsequenceLedgerStatistics → ConsequenceLedgerStatistics
  accumulate_handler_ledger_statistics (predict_once on_first delivered) result = record result {
    predict_once_key_count = add_u64 result.predict_once_key_count (length delivered);
  }
  accumulate_handler_ledger_statistics (confirm_once on_confirmed delivered) result =
      record result {
        confirm_once_key_count = add_u64 result.confirm_once_key_count (length delivered);
      }
  accumulate_handler_ledger_statistics (predict_cancelable callbacks active) result =
      count_active active result

  abbrev pub accumulate_ledger_statistics :
      List (Slot m s) → ConsequenceLedgerStatistics → ConsequenceLedgerStatistics
  accumulate_ledger_statistics [] result = result
  accumulate_ledger_statistics (slot ∷ slots) result =
      accumulate_ledger_statistics slots
        (accumulate_handler_ledger_statistics slot.subscription result)

  unfoldable pub ledger_statistics : Router m s → ConsequenceLedgerStatistics
  ledger_statistics router = accumulate_ledger_statistics router.slots (record {
    replay_retirement_evidence_count = length router.replay_retirement_evidence;
    external_retirement_evidence_count = length router.external_retirement_evidence;
    predict_once_key_count = 0;
    confirm_once_key_count = 0;
    cancelable_active_key_count = 0;
    cancelable_inactive_key_count = 0;
    pruned_occurrence_count = router.pruned_occurrence_count;
  })
