-- ===== src/Rollback/Tests/Routing.antt =====
-- A router of the counter game with a handler of each policy. It is fed two predictions, and then
-- the correction, whose confirmed event is also retired externally.
use native.Mathlib.Decide.{ℕ_discrete}
use mycore.Base.{ℕ, ◌≡◌, ◌⊎◌, refl, Option, none, some, List, [], ◌∷◌, Bool, true, false, arith}
use mycore.Rollback.Types.{EventBatch, EventChange, EventTransition, CommitKind}
use mycore.Rollback.Keyed.{find, emplace, dec_in}
use mycore.Rollback.Router.{
  Subscriptions, Cancelable, Subscription, predict_once, confirm_once, predict_cancelable, Slot,
  Router, ConsequenceDispatchReport, ConsequenceDispatchStatistics,
  ConsequenceHandlerDispatchStatistics, ConsequencePolicy, no_dispatches, add_statistics,
  statistics_delta, make_router, make_handler_statistics,
}
use mycore.Rollback.Router.Sets.{contains, insert, erase, erase_key, assign}
use mycore.Rollback.Router.Changes.{validate_change}
use mycore.Rollback.Router.Once.{process_predict_once, process_confirm_once}
use mycore.Rollback.Router.Once.Calls.{more}
use mycore.Rollback.Router.Cancelables.{
  activate, confirm_found, confirm, revise_found, cancel_found, process_predict_cancelable,
}
use mycore.Rollback.Router.Handlers.{
  dispatch, process_handler, process_change, can_prune_handler, prune_handler, can_prune, prune,
}
use mycore.Rollback.Router.Consume.{
  contract_failures_from, try_prune, process_changes, retire_replayed, retire_externally,
  process_batch, consume, ledger_statistics,
}
use mycore.Rollback.AuthorityOnly.{event_batch_from_commit}
use mycore.Rollback.Router.Cancelables.Tokens.{Accounts}
use mycore.Rollback.Router.Handlers.Dispatched.{ToldOnce, KeepsTokens}
use mycore.Rollback.Router.Consume.Keeps.{All, Holds}
use mycore.Rollback.Router.Consume.Fed.{
  fed_nothing, fed_batch, consume_total, Fed-ToldOnce, Fed-KeepsTokens,
}
use mycore.Rollback.Router.Consume.Commits.{Shaped, perform-Shaped}
use mycore.Rollback.Tests.{counter, two_ahead, correction, corrected, correcting_commit}
use mycore.Rollback.Tests.Witnesses.{two_ahead-IsValid, correction_run}

-- What a handler has been called for, by kind of callback.
record Speaker : Type 0 where
  calls : List ℕ
  opened : List ℕ
  closed : List ℕ

abbrev times : List ℕ → ℕ → ℕ
times [] j = 0
times (k ∷ ks) j = more (ℕ_discrete k j) (times ks j)

-- The tokens are the payloads.
abbrev speakers : Subscriptions counter
speakers = record {
  Handler = Speaker;
  Token = ℕ;
  alternative = λ event. 0;
  valueless = λ event. false;
}

abbrev silent : Speaker
silent = record { calls = []; opened = []; closed = [] }

abbrev on_call : Speaker → ℕ → ℕ → Speaker × Bool
on_call h key event = (record h { calls = key ∷ h.calls }, true)

abbrev give : Speaker → ℕ → ℕ → Speaker × Option ℕ
give h key event = (record h { opened = key ∷ h.opened }, some event)

abbrev take_back : Speaker → ℕ → ℕ → ℕ → Speaker × Bool
take_back h token key event = (record h { closed = key ∷ h.closed }, true)

abbrev callbacks : Cancelable counter speakers
callbacks = record {
  on_predict = give;
  on_revise = λ h token key event. (h, event, true);
  on_cancel = take_back;
  on_confirm = take_back;
}

abbrev slot_of : Speaker → Subscription counter speakers → Slot counter speakers
slot_of h subscription = record { event_alternative = 0; handler = h; subscription = subscription }

abbrev slots : List (Slot counter speakers)
slots =
    slot_of silent (predict_once on_call [])
    ∷ slot_of silent (confirm_once on_call [])
    ∷ slot_of silent (predict_cancelable callbacks [])
    ∷ []

abbrev prediction : ℕ → ℕ → EventChange counter
prediction key event = record {
  transition = EventTransition.first_predicted;
  key = key;
  previous = none;
  current = some event;
}

abbrev predictions : EventBatch counter
predictions = record {
  kind = CommitKind.advance;
  changes = prediction 5 500 ∷ prediction 7 705 ∷ [];
  retired_keys = [];
  externally_retired_keys = [];
}

abbrev corrections : EventBatch counter
corrections = record {
  kind = CommitKind.reconcile;
  changes = correcting_commit.event_changes;
  retired_keys = 5 ∷ [];
  externally_retired_keys = 5 ∷ [];
}

abbrev counted : ℕ → ℕ → ℕ → ℕ → ConsequenceDispatchStatistics
counted delivered suppressed revised confirmed = record {
  delivered_count = delivered;
  suppressed_count = suppressed;
  revised_count = revised;
  canceled_count = 0;
  confirmed_count = confirmed;
  failure_count = 0;
}

abbrev by_handler :
    ConsequenceDispatchStatistics
    → ConsequenceDispatchStatistics
    → ConsequenceDispatchStatistics
    → List ConsequenceHandlerDispatchStatistics
by_handler a b c =
    record { handler_index = 0; policy = ConsequencePolicy.predict_once; statistics = a }
    ∷ record { handler_index = 1; policy = ConsequencePolicy.confirm_once; statistics = b }
    ∷ record { handler_index = 2; policy = ConsequencePolicy.predict_cancelable; statistics = c }
    ∷ []

abbrev opening : Router counter speakers
opening = record {
  slots = slots;
  replay_retirement_evidence = [];
  external_retirement_evidence = [];
  pruned_occurrence_count = 0;
  statistics = no_dispatches;
  handler_statistics = by_handler no_dispatches no_dispatches no_dispatches;
}

made : make_router counter speakers slots ≡ opening
unfolding make_router make_handler_statistics
made = refl

abbrev reported :
    ConsequenceDispatchStatistics
    → List ConsequenceHandlerDispatchStatistics
    → ConsequenceDispatchReport
reported statistics handlers = record {
  statistics = statistics;
  handlers = handlers;
  failures = [];
  contract_failures = [];
}

abbrev predicted : Router counter speakers
predicted = record {
  slots =
      slot_of (record silent { calls = 7 ∷ 5 ∷ [] }) (predict_once on_call (5 ∷ 7 ∷ []))
      ∷ slot_of silent (confirm_once on_call [])
      ∷ slot_of (record silent { opened = 7 ∷ 5 ∷ [] })
          (predict_cancelable callbacks ((7, some 705) ∷ (5, some 500) ∷ []))
      ∷ [];
  replay_retirement_evidence = [];
  external_retirement_evidence = [];
  pruned_occurrence_count = 0;
  statistics = counted 4 2 0 0;
  handler_statistics = by_handler (counted 2 0 0 0) (counted 0 2 0 0) (counted 2 0 0 0);
}

abbrev predicting_report : ConsequenceDispatchReport
predicting_report =
    reported (counted 4 2 0 0) (by_handler (counted 2 0 0 0) (counted 0 2 0 0) (counted 2 0 0 0))

-- The event under 5 is forgotten: its effect can no longer be taken back, and neither the replay nor
-- the authority brings it again.
abbrev settled_router : Router counter speakers
settled_router = record {
  slots =
      slot_of (record silent { calls = 7 ∷ 5 ∷ [] }) (predict_once on_call (7 ∷ []))
      ∷ slot_of (record silent { calls = 5 ∷ [] }) (confirm_once on_call [])
      ∷ slot_of (record silent { opened = 7 ∷ 5 ∷ []; closed = 5 ∷ [] })
          (predict_cancelable callbacks ((7, some 706) ∷ []))
      ∷ [];
  replay_retirement_evidence = [];
  external_retirement_evidence = [];
  pruned_occurrence_count = 1;
  statistics = counted 5 5 1 2;
  handler_statistics = by_handler (counted 2 2 0 0) (counted 1 3 0 1) (counted 2 0 1 1);
}

abbrev correcting_report : ConsequenceDispatchReport
correcting_report =
    reported (counted 1 3 1 2) (by_handler (counted 0 2 0 0) (counted 1 1 0 1) (counted 0 0 1 1))

predicting : consume counter speakers opening predictions ≡ some (predicted, predicting_report)
unfolding consume contract_failures_from validate_change process_batch process_changes
    process_change process_handler dispatch process_predict_once process_confirm_once
    process_predict_cancelable activate confirm_found confirm revise_found cancel_found try_prune
    can_prune prune can_prune_handler prune_handler retire_replayed retire_externally contains
    insert erase erase_key assign find emplace dec_in add_statistics statistics_delta
    make_handler_statistics ℕ_discrete
predicting = refl

correcting :
    consume counter speakers predicted corrections ≡ some (settled_router, correcting_report)
unfolding consume contract_failures_from validate_change process_batch process_changes
    process_change process_handler dispatch process_predict_once process_confirm_once
    process_predict_cancelable activate confirm_found confirm revise_found cancel_found try_prune
    can_prune prune can_prune_handler prune_handler retire_replayed retire_externally contains
    insert erase erase_key assign find emplace dec_in add_statistics statistics_delta
    make_handler_statistics ℕ_discrete
correcting = refl

ledger : ledger_statistics counter speakers predicted ≡ record {
  replay_retirement_evidence_count = 0;
  external_retirement_evidence_count = 0;
  predict_once_key_count = 2;
  confirm_once_key_count = 0;
  cancelable_active_key_count = 2;
  cancelable_inactive_key_count = 0;
  pruned_occurrence_count = 0;
}
unfolding ledger_statistics
ledger = refl

Fed-ToldOnce_example :
    Holds counter speakers (ToldOnce counter speakers (λ h. times h.calls) 7) settled_router.slots
unfolding contains dec_in
Fed-ToldOnce_example =
    Fed-ToldOnce counter speakers (λ h. times h.calls) 7 opening settled_router
      ((λ h key event j. refl, refl), ((λ h key event j. refl, refl), (tt, tt))) tt
      (fed_batch predicted settled_router corrections correcting_report
        (fed_batch opening predicted predictions predicting_report fed_nothing tt predicting)
        ((omega arith), tt) correcting)

accounts : Accounts counter speakers (λ h. times h.opened) (λ h. times h.closed) callbacks
accounts = record {
  predict_opens = λ h key event j. refl;
  predict_closes = λ h key event j. refl;
  revise_opens = λ h t key event j. refl;
  revise_closes = λ h t key event j. refl;
  cancel_opens = λ h t key event j. refl;
  cancel_closes = λ h t key event j. refl;
  confirm_opens = λ h t key event j. refl;
  confirm_closes = λ h t key event j. refl;
}

Fed-KeepsTokens_example :
    Holds counter speakers
      (KeepsTokens counter speakers (λ h. times h.opened) (λ h. times h.closed) 7)
      settled_router.slots
unfolding find
Fed-KeepsTokens_example =
    Fed-KeepsTokens counter speakers (λ h. times h.opened) (λ h. times h.closed) 7 opening
      settled_router (tt, (tt, ((accounts, record { distinct = tt; balanced = refl }), tt)))
      (fed_batch predicted settled_router corrections correcting_report
        (fed_batch opening predicted predictions predicting_report fed_nothing (tt) predicting)
        (tt, tt) correcting)

consume_total_example :
    (router' : Router counter speakers) × (report : ConsequenceDispatchReport) × (consume counter
        speakers predicted corrections
      ≡ some (router', report))
    × ((router' ≡ predicted)
        ⊎ All
            (λ (change : EventChange counter). validate_change counter speakers change ≡ none)
            corrections.changes)
consume_total_example = consume_total counter speakers predicted corrections

perform-Shaped_example :
    All (Shaped counter speakers) (event_batch_from_commit counter correcting_commit).changes
perform-Shaped_example =
    perform-Shaped counter speakers correction two_ahead corrected correcting_commit
      two_ahead-IsValid correction_run
