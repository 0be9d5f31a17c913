-- ===== src/Rollback/Router.antt =====
-- engine/rollback, consequence_router.hpp: `StaticConsequenceRouter`, which hands the event changes of
-- batches to the game's handlers. Here its state, and the types of its reports.
pub mod Sets
pub mod Count
pub mod Changes
pub mod Once
pub mod Cancelables
pub mod Handlers
pub mod Consume
use Prim.Native.Nat.{suc}
use mycore.Base.{ℕ, Option, List, [], ◌∷◌, Bool}
use mycore.Base.Word.{add_u64, sub_u64}
use mycore.Rollback.Types.{RollbackModel}

pub data ConsequencePolicy : Type 0 where
  predict_once predict_cancelable confirm_once : ConsequencePolicy

pub data ConsequenceOperation : Type 0 where
  first predict revise cancel confirm confirmed : ConsequenceOperation

pub data ConsequenceBatchContractError : Type 0 where
  invalid_transition_shape changed_event_alternative valueless_event : ConsequenceBatchContractError

pub record ConsequenceDispatchStatistics : Type 0 where
  pub delivered_count : ℕ
  pub suppressed_count : ℕ
  pub revised_count : ℕ
  pub canceled_count : ℕ
  pub confirmed_count : ℕ
  pub failure_count : ℕ

pub record ConsequenceHandlerDispatchStatistics : Type 0 where
  pub handler_index : ℕ
  pub policy : ConsequencePolicy
  pub statistics : ConsequenceDispatchStatistics

pub record ConsequenceDispatchFailure : Type 0 where
  pub handler_index : ℕ
  pub operation : ConsequenceOperation

pub record ConsequenceBatchContractFailure : Type 0 where
  pub change_index : ℕ
  pub error : ConsequenceBatchContractError

pub record ConsequenceDispatchReport : Type 0 where
  pub statistics : ConsequenceDispatchStatistics
  pub handlers : List ConsequenceHandlerDispatchStatistics
  pub failures : List ConsequenceDispatchFailure
  pub contract_failures : List ConsequenceBatchContractFailure

pub record ConsequenceLedgerStatistics : Type 0 where
  pub replay_retirement_evidence_count : ℕ
  pub external_retirement_evidence_count : ℕ
  pub predict_once_key_count : ℕ
  pub confirm_once_key_count : ℕ
  pub cancelable_active_key_count : ℕ
  pub cancelable_inactive_key_count : ℕ
  pub pruned_occurrence_count : ℕ

abbrev pub no_dispatches : ConsequenceDispatchStatistics
no_dispatches = record {
  delivered_count = 0;
  suppressed_count = 0;
  revised_count = 0;
  canceled_count = 0;
  confirmed_count = 0;
  failure_count = 0;
}

unfoldable pub add_statistics :
    ConsequenceDispatchStatistics → ConsequenceDispatchStatistics → ConsequenceDispatchStatistics
add_statistics a b = record {
  delivered_count = add_u64 a.delivered_count b.delivered_count;
  suppressed_count = add_u64 a.suppressed_count b.suppressed_count;
  revised_count = add_u64 a.revised_count b.revised_count;
  canceled_count = add_u64 a.canceled_count b.canceled_count;
  confirmed_count = add_u64 a.confirmed_count b.confirmed_count;
  failure_count = add_u64 a.failure_count b.failure_count;
}

unfoldable pub statistics_delta :
    ConsequenceDispatchStatistics → ConsequenceDispatchStatistics → ConsequenceDispatchStatistics
statistics_delta current previous = record {
  delivered_count = sub_u64 current.delivered_count previous.delivered_count;
  suppressed_count = sub_u64 current.suppressed_count previous.suppressed_count;
  revised_count = sub_u64 current.revised_count previous.revised_count;
  canceled_count = sub_u64 current.canceled_count previous.canceled_count;
  confirmed_count = sub_u64 current.confirmed_count previous.confirmed_count;
  failure_count = sub_u64 current.failure_count previous.failure_count;
}

-- What the handlers and the events' `std::variant` supply. `Handler` and `Token` stand for the types
-- of all the handlers and of all their tokens.
pub record Subscriptions (m : RollbackModel) : Type 1 where
  pub Handler : Type 0
  pub Token : Type 0
  pub alternative : m.Event → ℕ
  pub valueless : m.Event → Bool

module _ (m : RollbackModel) (s : Subscriptions m) where
  open m use {Event, EventKey}
  open s use {Handler, Token}

  -- `on_first` or `on_confirmed`: what it makes of the handler, and whether it has succeeded.
  abbrev pub OnEvent : Type 0
  OnEvent = Handler → EventKey → Event → Handler × Bool

  -- The callbacks of a handler that can take its effect back. A token that is canceled or confirmed is
  -- dropped afterwards, so only `on_revise` hands it back.
  pub record Cancelable : Type 0 where
    pub on_predict : Handler → EventKey → Event → Handler × Option Token
    pub on_revise : Handler → Token → EventKey → Event → Handler × Token × Bool
    pub on_cancel : Handler → Token → EventKey → Event → Handler × Bool
    pub on_confirm : Handler → Token → EventKey → Event → Handler × Bool

  -- A handler's callbacks with its `ConsequenceStorage`: the delivered keys, or the active ones, of
  -- which those whose effect is confirmed or has failed hold no token.
  pub data Subscription : Type 0 where
    predict_once : OnEvent → List EventKey → Subscription
    confirm_once : OnEvent → List EventKey → Subscription
    predict_cancelable : Cancelable → List (EventKey × Option Token) → Subscription

  pub record Slot : Type 0 where
    pub event_alternative : ℕ
    pub handler : Handler
    pub subscription : Subscription

  pub record Router : Type 0 where
    pub slots : List Slot
    pub replay_retirement_evidence : List EventKey
    pub external_retirement_evidence : List EventKey
    pub pruned_occurrence_count : ℕ
    pub statistics : ConsequenceDispatchStatistics
    pub handler_statistics : List ConsequenceHandlerDispatchStatistics

  abbrev pub policy_of : Subscription → ConsequencePolicy
  policy_of (predict_once _ _) = ConsequencePolicy.predict_once
  policy_of (confirm_once _ _) = ConsequencePolicy.confirm_once
  policy_of (predict_cancelable _ _) = ConsequencePolicy.predict_cancelable

  abbrev pub make_statistics_from : ℕ → List Slot → List ConsequenceHandlerDispatchStatistics
  make_statistics_from n [] = []
  make_statistics_from n (slot ∷ slots) =
      record { handler_index = n; policy = policy_of slot.subscription; statistics = no_dispatches }
      ∷ make_statistics_from (suc n) slots

  -- `make_handler_statistics`, and what a report starts with.
  unfoldable pub make_handler_statistics : List Slot → List ConsequenceHandlerDispatchStatistics
  make_handler_statistics = make_statistics_from 0

  -- The constructor.
  unfoldable pub make_router : List Slot → Router
  unfolding make_handler_statistics
  make_router slots = record {
    slots = slots;
    replay_retirement_evidence = [];
    external_retirement_evidence = [];
    pruned_occurrence_count = 0;
    statistics = no_dispatches;
    handler_statistics = make_handler_statistics slots;
  }
